-- ===== src/Snapshot.antt =====
-- src/meta/meta_snapshot.h and meta_snapshot.cpp: the coordinator's tables as one string, and the
-- InstallSnapshot handler of src/meta/meta_rpc.cpp.
pub mod Fields
pub mod Restore
pub mod RoundTrip
use final_project_nimbusvaul.Base.{
  ℕ, zero, suc, ◌+◌, ◌-◌, ◌%◌, Bool, true, false, List, [], ◌∷◌, ◌++◌, Option, none, some, Bytes, ℤ,
  pos, negsuc, ltb, ◌==◌, if◌then◌else◌, u32, length, take, drop,
}
use final_project_nimbusvaul.Base.Endian.{be_bytes, from_be}
use final_project_nimbusvaul.Text.Decimal.{to_string, int_to_string, stoull, stoi}
use final_project_nimbusvaul.Text.Split.{split_nonempty, split_fields, comma_list}
use final_project_nimbusvaul.Float.{Floats}
use final_project_nimbusvaul.Stream.{Piece, stream}
use final_project_nimbusvaul.Coordinator.{
  ChunkConfigState, stable, transitioning, ChunkEntry, NodeEntry, Coordinator, get_nodes,
  get_chunks, restore_snapshot,
}

abbrev pub snapshot_magic : ℕ
snapshot_magic = 1313691219

unfoldable pub write_lp : Bytes → Bytes
write_lp s = be_bytes 4 (length s % u32) ++ s

-- A `uint32_t` and what follows it; `none` for fewer than four bytes, where `read_lp` throws and a
-- bare `memcpy` reads out of bounds.
unfoldable pub read_u32 : Bytes → Option (ℕ × Bytes)
read_u32 buf = if ltb (length buf) 4 then none else some (from_be (take 4 buf), drop 4 buf)

-- The string and what follows it; `none` is an exception.
unfoldable pub read_lp : Bytes → Option (Bytes × Bytes)
unfolding read_u32
read_lp buf = elim (read_u32 buf) [
  | none ↦ none
  | some (len, rest) ↦ if ltb (length rest) len then none else some (take len rest, drop len rest)
]

unfoldable pub state_number : ChunkConfigState → ℕ
state_number stable = 0
state_number transitioning = 1

-- A number without an enumerator is refused here; the cast of the program keeps it. No snapshot
-- that the program writes has one.
unfoldable pub number_state : ℤ → Option ChunkConfigState
number_state (pos zero) = some stable
number_state (pos (suc zero)) = some transitioning
number_state (pos (suc (suc n))) = none
number_state (negsuc n) = none

unfoldable pub serialize_chunk : ChunkEntry → Bytes
unfolding state_number
serialize_chunk e =
    e.chunk_id
    ++ b';'
      ∷ (to_string e.version
          ++ b';'
            ∷ (int_to_string e.replication_factor
                ++ b';'
                  ∷ (to_string e.size_bytes
                      ++ b';'
                        ∷ (to_string (state_number e.config_state)
                            ++ b';'
                              ∷ (comma_list e.replica_set
                                  ++ b';' ∷ (comma_list e.old_replica_set ++ b';' ∷ []))))))

unfoldable pub chunk_of_parts : List Bytes → Option ChunkEntry
unfolding number_state
chunk_of_parts (chunk_id ∷ version ∷ rf ∷ size ∷ state ∷ replicas ∷ old_replicas ∷ _) =
    elim (stoull version) [
      | none ↦ none
      | some v ↦ elim (stoi rf) [
        | none ↦ none
        | some r ↦ elim (stoull size) [
          | none ↦ none
          | some sz ↦ elim (stoi state) [
            | none ↦ none
            | some n ↦ elim (number_state n) [
              | none ↦ none
              | some st ↦ some (record {
                chunk_id = chunk_id;
                version = v;
                replica_set = split_nonempty replicas b',';
                replication_factor = r;
                config_state = st;
                old_replica_set = split_nonempty old_replicas b',';
                size_bytes = sz;
              })
            ]
          ]
        ]
      ]
    ]
chunk_of_parts _ = none

unfoldable pub parse_chunk : Bytes → Option ChunkEntry
unfolding chunk_of_parts
parse_chunk s = chunk_of_parts (split_fields s b';')

-- `count` strings, each read and parsed.
unfoldable pub parse_entries :
    {E : Type 0} → (Bytes → Option E) → ℕ → Bytes → Option (List E × Bytes)
unfolding read_lp
parse_entries parse zero buf = some ([], buf)
parse_entries parse (suc count) buf = elim (read_lp buf) [
  | none ↦ none
  | some (entry, rest) ↦ elim (parse entry) [
    | none ↦ none
    | some e ↦ elim (parse_entries parse count rest) [
      | none ↦ none
      | some (es, rest') ↦ some (e ∷ es, rest')
    ]
  ]
]

-- A count and that many strings.
unfoldable pub parse_table : {E : Type 0} → (Bytes → Option E) → Bytes → Option (List E × Bytes)
unfolding read_u32 parse_entries
parse_table parse buf = elim (read_u32 buf) [
  | none ↦ none
  | some (count, rest) ↦ parse_entries parse count rest
]

unfoldable pub write_entries : {E : Type 0} → (E → Bytes) → List E → Bytes
unfolding write_lp
write_entries serialize [] = []
write_entries serialize (e ∷ es) = write_lp (serialize e) ++ write_entries serialize es

unfoldable pub write_table : {E : Type 0} → (E → Bytes) → List E → Bytes
unfolding write_entries
write_table serialize es = be_bytes 4 (length es % u32) ++ write_entries serialize es

-- `static_cast<int>(n.alive)`.
unfoldable pub alive_number : Bool → ℕ
alive_number true = 1
alive_number false = 0

module _ {F : Type 0} ⦃fl : Floats F⦄ where
  unfoldable pub serialize_node : NodeEntry F → Bytes
  unfolding alive_number
  serialize_node n =
      n.node_id
      ++ b';'
        ∷ (n.address
            ++ b';'
              ∷ (fl.to_string n.load_fraction
                  ++ b';'
                    ∷ (to_string n.free_bytes
                        ++ b';'
                          ∷ (to_string n.total_bytes
                              ++ b';'
                                ∷ (fl.to_string n.failure_rate_7d
                                    ++ b';'
                                      ∷ (to_string n.last_seen_ms
                                          ++ b';' ∷ to_string (alive_number n.alive)))))))

  -- The node counts as alive, whatever the snapshot says.
  unfoldable pub node_of_parts : List Bytes → Option (NodeEntry F)
  node_of_parts (node_id ∷ address ∷ load ∷ free ∷ total ∷ fail ∷ seen ∷ _) = elim (fl.stof load) [
    | none ↦ none
    | some l ↦ elim (stoull free) [
      | none ↦ none
      | some fb ↦ elim (stoull total) [
        | none ↦ none
        | some tb ↦ elim (fl.stof fail) [
          | none ↦ none
          | some fr ↦ elim (stoull seen) [
            | none ↦ none
            | some ms ↦ some (record {
              node_id = node_id;
              address = address;
              load_fraction = l;
              free_bytes = fb;
              total_bytes = tb;
              failure_rate_7d = fr;
              last_seen_ms = ms;
              alive = true;
            })
          ]
        ]
      ]
    ]
  ]
  node_of_parts _ = none

  unfoldable pub parse_node : Bytes → Option (NodeEntry F)
  unfolding node_of_parts
  parse_node s = node_of_parts (split_fields s b';')

  -- The snapshot with the committed index at which it was taken.
  unfoldable pub take_snapshot : Coordinator F → ℕ → Bytes × ℕ
  unfolding serialize_node serialize_chunk write_table
  take_snapshot c lsn = (
    be_bytes 4 snapshot_magic
        ++ (be_bytes 8 lsn
            ++ (write_table serialize_node (get_nodes c)
                ++ write_table serialize_chunk (get_chunks c))),
    lsn,
  )

  -- The part of `install_snapshot` behind the header.
  unfoldable pub install_tables : Coordinator F → ℕ → Bytes → Option (ℕ × Coordinator F)
  unfolding parse_node parse_chunk parse_table
  install_tables c lsn buf = elim (parse_table parse_node buf) [
    | none ↦ none
    | some (nodes, rest) ↦ elim (parse_table parse_chunk rest) [
      | none ↦ none
      | some (chunks, _) ↦ some (lsn, restore_snapshot c nodes chunks)
    ]
  ]

  -- The index of the snapshot and the coordinator; `none` is an exception, which leaves the
  -- coordinator as it was.
  unfoldable pub install_snapshot : Coordinator F → Bytes → Option (ℕ × Coordinator F)
  unfolding install_tables
  install_snapshot c buf =
      if ltb (length buf) 16
      then none
      else if from_be (take 4 buf) == snapshot_magic
      then install_tables c (from_be (take 8 (drop 4 buf))) (drop 12 buf)
      else none

  -- The InstallSnapshot handler on the leader.
  unfoldable pub send_snapshot : Coordinator F → ℕ → List Piece
  unfolding take_snapshot
  send_snapshot c lsn = stream lsn (take_snapshot c lsn).0
