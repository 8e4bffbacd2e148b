-- ===== src/Snapshot/Fields.antt =====
-- What a snapshot's length-prefixed strings and semicolon fields carry, and its chunk lines.
use final_project_nimbusvaul.Base.{
  ℕ, ◌%◌, ◌<◌, ◌≡◌, ◌≢◌, refl, sym, ap, ◌∙◌, List, [], ◌∷◌, ◌++◌, map, append_assoc, append-nil,
  Option, some, Bytes, ℤ, pos, u32, u64, int_top, length, take, drop, All, Lacks, arith,
  take-length-append, drop-length-append, length-append, le→ltb-false,
}
use final_project_nimbusvaul.Base.Endian.{be_bytes, from_be-32, length-be_bytes}
use final_project_nimbusvaul.Text.Decimal.{to_string, int_to_string, stoi}
use final_project_nimbusvaul.Text.Decimal.RoundTrip.{
  to_string-All, Lacks-digits, stoull-to_string, stoi-int_to_string,
}
use final_project_nimbusvaul.Text.Split.{split_fields, fields_loop, comma_list}
use final_project_nimbusvaul.Text.Split.Laws.{
  IsItem, fields_cons, fields_nil, split-comma_list, Lacks-comma_list,
}
use final_project_nimbusvaul.Coordinator.{stable, transitioning, ChunkConfigState, ChunkEntry}
use final_project_nimbusvaul.Snapshot.{
  write_lp, read_u32, read_lp, state_number, number_state, serialize_chunk, chunk_of_parts,
  parse_chunk, parse_entries, parse_table, write_entries, write_table,
}

pub take_exact : (n : ℕ) (xs ys : Bytes) → length xs ≡ n → take n (xs ++ ys) ≡ xs
take_exact n xs ys e = rw (sym e) (take-length-append xs ys)

pub drop_exact : (n : ℕ) (xs ys : Bytes) → length xs ≡ n → drop n (xs ++ ys) ≡ ys
drop_exact n xs ys e = rw (sym e) (drop-length-append xs ys)

read-be_bytes : (n : ℕ) (rest : Bytes) → n < u32 → read_u32 (be_bytes 4 n ++ rest) ≡ some (n, rest)
unfolding read_u32
read-be_bytes n rest h = rw (
  le→ltb-false (length (be_bytes 4 n ++ rest)) 4
      (omega (arith, length-append (be_bytes 4 n) rest, length-be_bytes 4 n)),
  take_exact 4 (be_bytes 4 n) rest (length-be_bytes 4 n),
  drop_exact 4 (be_bytes 4 n) rest (length-be_bytes 4 n),
  from_be-32 n h,
)

read-write_lp : (s rest : Bytes) → length s < u32 → read_lp (write_lp s ++ rest) ≡ some (s, rest)
unfolding read_lp write_lp
read-write_lp s rest h =
    let small : length s % u32 ≡ length s = omega arith in
    rw (
      append_assoc (be_bytes 4 (length s % u32)) s rest,
      small,
      read_lp,
      read-be_bytes (length s) (s ++ rest) h,
      le→ltb-false (length (s ++ rest)) (length s) (omega (arith, length-append s rest)),
      take-length-append s rest,
      drop-length-append s rest,
    )

module _ {E : Type 0} (parse : Bytes → Option E) (serialize : E → Bytes) (f : E → E) where
  -- The entry fits a length field and is read back as `f` of it.
  abbrev pub IsRead : E → Type 0
  IsRead e = (parse (serialize e) ≡ some (f e)) × (length (serialize e) < u32)

  parse-write_entries :
      (es : List E) (rest : Bytes)
      → All IsRead es
      → parse_entries parse (length es) (write_entries serialize es ++ rest) ≡ some (map f es, rest)
  unfolding parse_entries write_entries
  parse-write_entries [] rest h = refl
  parse-write_entries (e ∷ es) rest h = rw (
    append_assoc (write_lp (serialize e)) (write_entries serialize es) rest,
    parse_entries,
    read-write_lp (serialize e) (write_entries serialize es ++ rest) h.0.1,
    h.0.0,
    parse-write_entries es rest h.1,
  )

  pub parse-write_table :
      (es : List E) (rest : Bytes)
      → length es < u32
      → All IsRead es
      → parse_table parse (write_table serialize es ++ rest) ≡ some (map f es, rest)
  unfolding parse_table write_table
  parse-write_table es rest few h =
      let small : length es % u32 ≡ length es = omega arith in
      rw
        (
          append_assoc (be_bytes 4 (length es % u32)) (write_entries serialize es) rest,
          small,
          parse_table,
          read-be_bytes (length es) (write_entries serialize es ++ rest) few,
        )
        (parse-write_entries es rest h)

-- A number leaves a field in one piece.
pub number_Lacks : (n : ℕ) → Lacks b';' (to_string n)
number_Lacks n = Lacks-digits b';' (to_string n) (λ d. omega (arith, d.0, d.1)) (to_string-All n)

-- An entry of a replica list in a snapshot.
abbrev pub IsSavedReplica : Bytes → Type 0
IsSavedReplica s = (s ≢ []) × Lacks b',' s × Lacks b';' s

saved_items : (ns : List Bytes) → All IsSavedReplica ns → All IsItem ns
saved_items [] h = tt
saved_items (n ∷ ns) h = ((h.0.0, h.0.1), saved_items ns h.1)

saved_Lacks : (ns : List Bytes) → All IsSavedReplica ns → All (Lacks b';') ns
saved_Lacks [] h = tt
saved_Lacks (n ∷ ns) h = (h.0.2, saved_Lacks ns h.1)

list_Lacks : (ns : List Bytes) → All IsSavedReplica ns → Lacks b';' (comma_list ns)
list_Lacks ns h = Lacks-comma_list b';' ns (λ e. absurd (omega (arith, e))) (saved_Lacks ns h)

-- A chunk entry that the format can hold.
pub record IsSavedChunk (e : ChunkEntry) : Type 0 where
  pub id_lacks : Lacks b';' e.chunk_id
  pub version_fits : e.version < u64
  pub rf : ℕ
  pub rf_fits : rf < int_top
  pub rf_is : e.replication_factor ≡ pos rf
  pub size_fits : e.size_bytes < u64
  pub replicas : All IsSavedReplica e.replica_set
  pub old_replicas : All IsSavedReplica e.old_replica_set
  pub short : length (serialize_chunk e) < u32

-- The fields of a line in which a semicolon ends each.
unfoldable pub ended : List Bytes → Bytes → Bytes
ended [] tail = tail
ended (w ∷ ws) tail = w ++ b';' ∷ ended ws tail

pub split-ended :
    (ws out : List Bytes) (tail : Bytes)
    → All (Lacks b';') ws
    → fields_loop b';' out [] (ended ws tail) ≡ fields_loop b';' (out ++ ws) [] tail
unfolding ended
split-ended [] out tail h = ap (λ o. fields_loop b';' o [] tail) (sym (append-nil out))
split-ended (w ∷ ws) out tail h =
    fields_cons b';' w (ended ws tail) h.0 out
    ∙ split-ended ws (out ++ w ∷ []) tail h.1
    ∙ ap (λ o. fields_loop b';' o [] tail) (append_assoc out (w ∷ []) ws)

state_read :
    (st : ChunkConfigState) → stoi (to_string (state_number st)) ≡ some (pos (state_number st))
unfolding state_number
state_read stable = unfold stoi to_string in refl
state_read transitioning = unfold stoi to_string in refl

state_back : (st : ChunkConfigState) → number_state (pos (state_number st)) ≡ some st
unfolding number_state state_number
state_back stable = refl
state_back transitioning = refl

rf_read : (z : ℤ) (rf : ℕ) → z ≡ pos rf → rf < int_top → stoi (int_to_string z) ≡ some z
rf_read z rf e h = rw e (stoi-int_to_string rf h)

rf_Lacks : (z : ℤ) (rf : ℕ) → z ≡ pos rf → Lacks b';' (int_to_string z)
unfolding int_to_string
rf_Lacks z rf e = rw e (number_Lacks rf)

chunk_fields : ChunkEntry → List Bytes
chunk_fields e =
    e.chunk_id
    ∷ to_string e.version
    ∷ int_to_string e.replication_factor
    ∷ to_string e.size_bytes
    ∷ to_string (state_number e.config_state)
    ∷ comma_list e.replica_set
    ∷ comma_list e.old_replica_set
    ∷ []

split-serialize_chunk :
    (e : ChunkEntry) → IsSavedChunk e → split_fields (serialize_chunk e) b';' ≡ chunk_fields e
unfolding split_fields serialize_chunk chunk_fields ended
split-serialize_chunk e h =
    split-ended (chunk_fields e) [] [] (
      h.id_lacks,
      (
        number_Lacks e.version,
        (
          rf_Lacks e.replication_factor h.rf h.rf_is,
          (
            number_Lacks e.size_bytes,
            (
              number_Lacks (state_number e.config_state),
              (
                list_Lacks e.replica_set h.replicas,
                (list_Lacks e.old_replica_set h.old_replicas, tt),
              ),
            ),
          ),
        ),
      ),
    )
    ∙ fields_nil b';' (chunk_fields e)

chunk_of_fields : (e : ChunkEntry) → IsSavedChunk e → chunk_of_parts (chunk_fields e) ≡ some e
unfolding chunk_of_parts chunk_fields
chunk_of_fields e h = rw (
  stoull-to_string e.version h.version_fits,
  chunk_of_parts,
  rf_read e.replication_factor h.rf h.rf_is h.rf_fits,
  stoull-to_string e.size_bytes h.size_fits,
  state_read e.config_state,
  state_back e.config_state,
  split-comma_list e.replica_set (saved_items e.replica_set h.replicas),
  split-comma_list e.old_replica_set (saved_items e.old_replica_set h.old_replicas),
)

-- A chunk entry that a snapshot holds is read back as it was.
pub parse_chunk-serialize_chunk :
    (e : ChunkEntry) → IsSavedChunk e → parse_chunk (serialize_chunk e) ≡ some e
unfolding parse_chunk
parse_chunk-serialize_chunk e h =
    ap chunk_of_parts (split-serialize_chunk e h) ∙ chunk_of_fields e h
