-- ===== src/Apply.antt =====
-- The payloads of log entries, and `apply_wal_entry`, which applies a committed entry to the
-- coordinator: src/bin/meta_server.cpp, and the encoders of src/meta/meta_rpc.cpp and
-- reconfig_driver.cpp.
pub mod RoundTrip
use final_project_nimbusvaul.Base.{ℕ, ◌+◌, Bool, List, [], ◌∷◌, ◌++◌, Option, none, some, Bytes, ℤ}
use final_project_nimbusvaul.Text.Decimal.{to_string, int_to_string, stoull, stoi}
use final_project_nimbusvaul.Text.Split.{split_nonempty, comma_list}
use final_project_nimbusvaul.Float.{Floats}
use final_project_nimbusvaul.Wal.{
  WalEntry, WalEntryType, put_chunk, delete_chunk, reconfigure_start, reconfigure_commit,
  node_heartbeat, policy_update, unknown,
}
use final_project_nimbusvaul.Coordinator.{
  Coordinator, apply_put_chunk, apply_delete_chunk, apply_reconfig_start, apply_reconfig_commit,
  apply_heartbeat,
}

-- The payload that `PutChunk` builds.
unfoldable pub put_payload : Bytes → ℕ → ℤ → ℕ → List Bytes → Bytes
put_payload chunk_id size_bytes desired_rf version replica_entries =
    chunk_id
    ++ b'|'
      ∷ (to_string size_bytes
          ++ b'|'
            ∷ (int_to_string desired_rf
                ++ b'|' ∷ (to_string version ++ b'|' ∷ comma_list replica_entries)))

unfoldable pub encode_reconfig_start : Bytes → List Bytes → List Bytes → Bytes
encode_reconfig_start chunk_id old_set new_set =
    chunk_id ++ b'|' ∷ (comma_list old_set ++ b'|' ∷ comma_list new_set)

unfoldable pub encode_reconfig_commit : Bytes → List Bytes → Bytes
encode_reconfig_commit chunk_id new_set = chunk_id ++ b'|' ∷ comma_list new_set

pub record HeartbeatReq (F : Type 0) : Type 0 where
  pub node_id : Bytes
  pub address : Bytes
  pub load_fraction : F
  pub free_bytes : ℕ
  pub total_bytes : ℕ
  pub failure_rate_7d : F
  pub chunk_access_counts : List (Bytes × ℕ)

module _ {F : Type 0} ⦃fl : Floats F⦄ where
  unfoldable pub encode_heartbeat_payload : HeartbeatReq F → Bytes
  encode_heartbeat_payload req =
      req.node_id
      ++ b'|'
        ∷ (req.address
            ++ b'|'
              ∷ (fl.to_string req.load_fraction
                  ++ b'|'
                    ∷ (to_string req.free_bytes
                        ++ b'|'
                          ∷ (to_string req.total_bytes
                              ++ b'|' ∷ fl.to_string req.failure_rate_7d))))

  -- `none` is the return value `false`.
  unfoldable pub parse_heartbeat_parts : List Bytes → Option (HeartbeatReq F)
  parse_heartbeat_parts (node_id ∷ address ∷ load ∷ free ∷ total ∷ fail ∷ _) = elim (fl.stof load) [
    | none ↦ none
    | some l ↦ elim (stoull free) [
      | none ↦ none
      | some fb ↦ elim (stoull total) [
        | none ↦ none
        | some tb ↦ elim (fl.stof fail) [
          | none ↦ none
          | some fr ↦ some (record {
            node_id = node_id;
            address = address;
            load_fraction = l;
            free_bytes = fb;
            total_bytes = tb;
            failure_rate_7d = fr;
            chunk_access_counts = [];
          })
        ]
      ]
    ]
  ]
  parse_heartbeat_parts _ = none

  unfoldable pub parse_heartbeat_payload : Bytes → Option (HeartbeatReq F)
  unfolding parse_heartbeat_parts
  parse_heartbeat_payload payload = parse_heartbeat_parts (split_nonempty payload b'|')

module _ {F : Type 0} where
  -- `none` is an exception of `stoull` or `stoi`, before the coordinator is called. A payload
  -- with too few parts changes nothing.
  unfoldable pub apply_put_parts : Coordinator F → List Bytes → Option (Coordinator F)
  apply_put_parts c (chunk_id ∷ size ∷ rf ∷ version ∷ replicas ∷ _) = elim (stoull size) [
    | none ↦ none
    | some sz ↦ elim (stoi rf) [
      | none ↦ none
      | some r ↦ elim (stoull version) [
        | none ↦ none
        | some v ↦ some (apply_put_chunk c chunk_id sz r (split_nonempty replicas b',') v)
      ]
    ]
  ]
  apply_put_parts c _ = some c

  unfoldable pub apply_start_parts : Coordinator F → List Bytes → Coordinator F
  apply_start_parts c (chunk_id ∷ old_set ∷ new_set ∷ _) =
      apply_reconfig_start c chunk_id (split_nonempty old_set b',') (split_nonempty new_set b',')
  apply_start_parts c _ = c

  unfoldable pub apply_commit_parts : Coordinator F → List Bytes → Coordinator F
  apply_commit_parts c (chunk_id ∷ new_set ∷ _) =
      apply_reconfig_commit c chunk_id (split_nonempty new_set b',')
  apply_commit_parts c _ = c

module _ {F : Type 0} ⦃fl : Floats F⦄ where
  unfoldable pub apply_heartbeat_req : Coordinator F → ℕ → Option (HeartbeatReq F) → Coordinator F
  apply_heartbeat_req c now none = c
  apply_heartbeat_req c now (some h) =
      apply_heartbeat c now h.node_id h.address h.load_fraction h.free_bytes h.total_bytes
        h.failure_rate_7d

  unfoldable pub apply_typed : Coordinator F → ℕ → WalEntryType → Bytes → Option (Coordinator F)
  unfolding apply_put_parts apply_start_parts apply_commit_parts apply_heartbeat_req
  apply_typed c now put_chunk p = apply_put_parts c (split_nonempty p b'|')
  apply_typed c now delete_chunk p = some (apply_delete_chunk c p)
  apply_typed c now reconfigure_start p = some (apply_start_parts c (split_nonempty p b'|'))
  apply_typed c now reconfigure_commit p = some (apply_commit_parts c (split_nonempty p b'|'))
  apply_typed c now node_heartbeat p = some (apply_heartbeat_req c now (parse_heartbeat_payload p))
  apply_typed c now policy_update p = some c
  apply_typed c now (unknown n) p = some c

  unfoldable pub apply_wal_entry : Coordinator F → ℕ → WalEntry → Option (Coordinator F)
  unfolding apply_typed
  apply_wal_entry c now e = apply_typed c now e.type e.payload

  -- `wal.replay` with `apply_wal_entry` as its callback, when the server starts.
  unfoldable pub apply_entries : Coordinator F → ℕ → List WalEntry → Option (Coordinator F)
  apply_entries c now [] = some c
  apply_entries c now (e ∷ es) = elim (apply_wal_entry c now e) [
    | none ↦ none
    | some c' ↦ apply_entries c' now es
  ]
