-- ===== src/Snapshot/RoundTrip.antt =====
-- A snapshot that is installed gives back the tables it was taken from.
use final_project_nimbusvaul.Base.{
  ℕ, ◌<◌, ◌≤◌, ◌%◌, ◌≡◌, refl, sym, ap, ◌∙◌, true, false, List, [], ◌∷◌, ◌++◌, map, append_assoc,
  append-nil, some, Bytes, ltb, ◌==◌, u32, u64, length, take, drop, All, Lacks, arith,
  length-append, le→ltb-false,
}
use final_project_nimbusvaul.Base.Endian.{
  be_bytes, from_be, from_be-32, from_be-64, length-be_bytes,
}
use final_project_nimbusvaul.Text.Decimal.{to_string}
use final_project_nimbusvaul.Text.Decimal.RoundTrip.{to_string-ne-nil, stoull-to_string}
use final_project_nimbusvaul.Text.Split.{split_fields}
use final_project_nimbusvaul.Text.Split.Laws.{fields_end}
use final_project_nimbusvaul.Float.{Floats, FloatText}
use final_project_nimbusvaul.Stream.{assemble}
use final_project_nimbusvaul.Stream.Laws.{assemble-stream}
use final_project_nimbusvaul.Base.Table.{values}
use final_project_nimbusvaul.Coordinator.{
  ChunkEntry, NodeEntry, Coordinator, get_nodes, get_chunks, insert_nodes, restore_snapshot,
}
use final_project_nimbusvaul.Snapshot.Restore.{
  KeyedBy, insert_all-again, map_table, values-map_table, map_table-KeyedBy, insert_chunks-all,
  insert_nodes-all,
}
use final_project_nimbusvaul.Snapshot.{
  snapshot_magic, serialize_chunk, parse_chunk, parse_table, write_table, write_entries,
  alive_number, serialize_node, node_of_parts, parse_node, take_snapshot, install_tables,
  install_snapshot, send_snapshot,
}
use final_project_nimbusvaul.Snapshot.Fields.{
  take_exact, drop_exact, IsRead, parse-write_table, number_Lacks, ended, split-ended, IsSavedChunk,
  parse_chunk-serialize_chunk,
}

map_same : {A : Type 0} (xs : List A) → map (λ x. x) xs ≡ xs
map_same [] = refl
map_same (x ∷ xs) = ap (λ t. x ∷ t) (map_same xs)

chunks-IsRead :
    (es : List ChunkEntry)
    → All IsSavedChunk es
    → All (IsRead parse_chunk serialize_chunk (λ e. e)) es
chunks-IsRead [] h = tt
chunks-IsRead (e ∷ es) h = ((parse_chunk-serialize_chunk e h.0, h.0.short), chunks-IsRead es h.1)

module _ {F : Type 0} ⦃fl : Floats F⦄ (text : FloatText fl) where
  -- What is read back of a node: it counts as alive, and its fractions are rounded.
  abbrev pub revived : NodeEntry F → NodeEntry F
  revived n = record n {
    load_fraction = text.rounded n.load_fraction;
    failure_rate_7d = text.rounded n.failure_rate_7d;
    alive = true;
  }

  -- A node entry that the format can hold.
  pub record IsSavedNode (n : NodeEntry F) : Type 0 where
    pub id_lacks : Lacks b';' n.node_id
    pub address_lacks : Lacks b';' n.address
    pub free_fits : n.free_bytes < u64
    pub total_fits : n.total_bytes < u64
    pub seen_fits : n.last_seen_ms < u64
    pub short : length (serialize_node n) < u32

  node_fields : NodeEntry F → List Bytes
  node_fields n =
      n.node_id
      ∷ n.address
      ∷ fl.to_string n.load_fraction
      ∷ to_string n.free_bytes
      ∷ to_string n.total_bytes
      ∷ fl.to_string n.failure_rate_7d
      ∷ to_string n.last_seen_ms
      ∷ []

  split-serialize_node :
      (n : NodeEntry F)
      → IsSavedNode n
      → split_fields (serialize_node n) b';'
        ≡ node_fields n ++ to_string (alive_number n.alive) ∷ []
  unfolding split_fields serialize_node node_fields ended
  split-serialize_node n h =
      split-ended (node_fields n) [] (to_string (alive_number n.alive)) (
        h.id_lacks,
        (
          h.address_lacks,
          (
            (text.to_string-IsText n.load_fraction).2,
            (
              number_Lacks n.free_bytes,
              (
                number_Lacks n.total_bytes,
                ((text.to_string-IsText n.failure_rate_7d).2, (number_Lacks n.last_seen_ms, tt)),
              ),
            ),
          ),
        ),
      )
      ∙ fields_end b';' (to_string (alive_number n.alive)) (number_Lacks (alive_number n.alive))
          (to_string-ne-nil (alive_number n.alive)) (node_fields n)

  node_of_fields :
      (n : NodeEntry F) (tail : List Bytes)
      → IsSavedNode n
      → node_of_parts (node_fields n ++ tail) ≡ some (revived n)
  unfolding node_of_parts node_fields
  node_of_fields n tail h = rw (
    text.stof-to_string n.load_fraction,
    node_of_parts,
    stoull-to_string n.free_bytes h.free_fits,
    stoull-to_string n.total_bytes h.total_fits,
    text.stof-to_string n.failure_rate_7d,
    stoull-to_string n.last_seen_ms h.seen_fits,
  )

  nodes-IsRead :
      (ns : List (NodeEntry F))
      → All IsSavedNode ns
      → All (IsRead parse_node serialize_node revived) ns
  unfolding parse_node
  nodes-IsRead [] h = tt
  nodes-IsRead (n ∷ ns) h = (
    (ap node_of_parts (split-serialize_node n h.0) ∙ node_of_fields n _ h.0, h.0.short),
    nodes-IsRead ns h.1,
  )

  -- A coordinator that a snapshot can hold.
  pub record IsSaved (c : Coordinator F) : Type 0 where
    pub nodes : All IsSavedNode (get_nodes c)
    pub chunks : All IsSavedChunk (get_chunks c)
    pub few_nodes : length (get_nodes c) < u32
    pub few_chunks : length (get_chunks c) < u32

  header_size :
      (lsn : ℕ) (rest : Bytes)
      → 4 ≤ length rest
      → ltb (length (be_bytes 4 snapshot_magic ++ (be_bytes 8 lsn ++ rest))) 16 ≡ false
  header_size lsn rest h = le→ltb-false _ 16 (
      omega (
        arith,
        h,
        length-append (be_bytes 4 snapshot_magic) (be_bytes 8 lsn ++ rest),
        length-append (be_bytes 8 lsn) rest,
        length-be_bytes 4 snapshot_magic,
        length-be_bytes 8 lsn,
      ))

  table_size :
      {E : Type 0} (serialize : E → Bytes) (es : List E) (rest : Bytes)
      → 4 ≤ length (write_table serialize es ++ rest)
  unfolding write_table
  table_size serialize es rest = omega (
    arith,
    length-append (be_bytes 4 (length es % u32)) (write_entries serialize es),
    length-append (be_bytes 4 (length es % u32) ++ write_entries serialize es) rest,
    length-be_bytes 4 (length es % u32),
  )

  after_header :
      (lsn : ℕ) (rest : Bytes)
      → drop 12 (be_bytes 4 snapshot_magic ++ (be_bytes 8 lsn ++ rest)) ≡ rest
  after_header lsn rest =
      ap (drop 12) (sym (append_assoc (be_bytes 4 snapshot_magic) (be_bytes 8 lsn) rest))
      ∙ drop_exact 12 (be_bytes 4 snapshot_magic ++ be_bytes 8 lsn) rest (
          omega (
            arith,
            length-append (be_bytes 4 snapshot_magic) (be_bytes 8 lsn),
            length-be_bytes 4 snapshot_magic,
            length-be_bytes 8 lsn,
          ))

  lsn_read :
      (lsn : ℕ) (rest : Bytes)
      → lsn < u64
      → from_be (take 8 (drop 4 (be_bytes 4 snapshot_magic ++ (be_bytes 8 lsn ++ rest)))) ≡ lsn
  lsn_read lsn rest h = rw (
    drop_exact 4 (be_bytes 4 snapshot_magic) (be_bytes 8 lsn ++ rest)
        (length-be_bytes 4 snapshot_magic),
    take_exact 8 (be_bytes 8 lsn) rest (length-be_bytes 8 lsn),
    from_be-64 lsn h,
  )

  magic_read :
      (rest : Bytes)
      → (from_be (take 4 (be_bytes 4 snapshot_magic ++ rest)) == snapshot_magic) ≡ true
  magic_read rest = rw (
    take_exact 4 (be_bytes 4 snapshot_magic) rest (length-be_bytes 4 snapshot_magic),
    from_be-32 snapshot_magic (omega arith),
  )

  chunk_table_read :
      (es : List ChunkEntry)
      → All IsSavedChunk es
      → length es < u32
      → parse_table parse_chunk (write_table serialize_chunk es) ≡ some (es, [])
  chunk_table_read es h few =
      ap (parse_table parse_chunk) (sym (append-nil (write_table serialize_chunk es)))
      ∙ parse-write_table parse_chunk serialize_chunk (λ e. e) es [] few (chunks-IsRead es h)
      ∙ ap (λ t. some (t, [])) (map_same es)

  tables_read :
      (c target : Coordinator F) (lsn : ℕ)
      → IsSaved c
      → install_tables target lsn
          (write_table serialize_node (get_nodes c) ++ write_table serialize_chunk (get_chunks c))
        ≡ some (lsn, restore_snapshot target (map revived (get_nodes c)) (get_chunks c))
  unfolding install_tables
  tables_read c target lsn h = rw (
    parse-write_table parse_node serialize_node revived (get_nodes c)
        (write_table serialize_chunk (get_chunks c)) h.few_nodes
        (nodes-IsRead (get_nodes c) h.nodes),
    install_tables,
    chunk_table_read (get_chunks c) h.chunks h.few_chunks,
  )

  -- A snapshot of a coordinator whose texts have no separators and whose numbers fit, installed on
  -- any server: the index is the one it was taken at, the chunks are all there unchanged, and the
  -- nodes are all there, with rounded fractions and all of them alive.
  pub install-take_snapshot :
      (c target : Coordinator F) (lsn : ℕ)
      → lsn < u64
      → IsSaved c
      → install_snapshot target (take_snapshot c lsn).0
        ≡ some (lsn, restore_snapshot target (map revived (get_nodes c)) (get_chunks c))
  unfolding install_snapshot take_snapshot
  install-take_snapshot c target lsn fits h =
      let rest =
        write_table serialize_node (get_nodes c) ++ write_table serialize_chunk (get_chunks c) in
      rw
        (
          header_size lsn rest (table_size serialize_node (get_nodes c) _),
          magic_read (be_bytes 8 lsn ++ rest),
        )
        (ap (λ i. install_tables target i (drop 12 (take_snapshot c lsn).0))
            (lsn_read lsn rest fits)
          ∙ ap (install_tables target lsn) (after_header lsn rest)
          ∙ tables_read c target lsn h)

  restored :
      (c target : Coordinator F)
      → KeyedBy (λ (e : ChunkEntry). e.chunk_id) c.chunk_table
      → KeyedBy (λ (n : NodeEntry F). n.node_id) c.node_table
      → restore_snapshot target (map revived (get_nodes c)) (get_chunks c)
        ≡ record { chunk_table = c.chunk_table; node_table = map_table revived c.node_table }
  unfolding restore_snapshot get_nodes get_chunks
  restored c target chunk_keys node_keys =
      let nodes = map_table revived c.node_table in
      let chunks_again =
        insert_chunks-all (values c.chunk_table) []
        ∙ insert_all-again (λ (e : ChunkEntry). e.chunk_id) c.chunk_table chunk_keys in
      let nodes_again =
        ap (λ ns. insert_nodes ns []) (sym (values-map_table revived c.node_table))
        ∙ insert_nodes-all (values nodes) []
        ∙ insert_all-again (λ (n : NodeEntry F). n.node_id) nodes
            (map_table-KeyedBy revived (λ (n : NodeEntry F). n.node_id) (λ n. refl) c.node_table
              node_keys) in
      λ i. record { chunk_table = chunks_again i; node_table = nodes_again i }

  -- A snapshot of a coordinator whose texts have no semicolons, whose replica entries have no commas
  -- either, whose numbers fit, and whose entries stand under their own ids; streamed in pieces, put
  -- together by the reader, and installed on any server: the index is the one it was taken at, and
  -- the tables are the coordinator's, the chunks unchanged, the nodes alive and with rounded
  -- fractions, whatever the server had before.
  pub install-send_snapshot :
      (c target : Coordinator F) (lsn : ℕ)
      → lsn < u64
      → IsSaved c
      → KeyedBy (λ (e : ChunkEntry). e.chunk_id) c.chunk_table
      → KeyedBy (λ (n : NodeEntry F). n.node_id) c.node_table
      → install_snapshot target (assemble (send_snapshot c lsn))
        ≡ some (
          lsn,
          record { chunk_table = c.chunk_table; node_table = map_table revived c.node_table },
        )
  unfolding send_snapshot
  install-send_snapshot c target lsn fits h chunk_keys node_keys =
      ap (install_snapshot target) (assemble-stream lsn (take_snapshot c lsn).0)
      ∙ install-take_snapshot c target lsn fits h
      ∙ ap (λ (t : Coordinator F). some (lsn, t)) (restored c target chunk_keys node_keys)
