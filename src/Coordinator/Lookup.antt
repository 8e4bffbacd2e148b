-- ===== src/Coordinator/Lookup.antt =====
-- The chunk table as a map from ids to entries, and what each call does to it.
use final_project_nimbusvaul.Base.{
  ℕ, ◌≡◌, refl, List, [], ◌∷◌, Option, none, some, Bytes, arith, ℤ, pos, length, same, same_iff,
  if◌then◌else◌, Option-cases, inl, inr, ◌∙◌, ap,
}
use mathlib.Core.Path.{fun_ext}
use final_project_nimbusvaul.Base.Table.{find, find-insert, find-erase}
use final_project_nimbusvaul.Coordinator.{
  stable, transitioning, ChunkEntry, Coordinator, apply_put_chunk, apply_delete_chunk,
  apply_reconfig_start, apply_reconfig_commit, apply_heartbeat, get_chunk, evict_stale_nodes,
}

-- The calls that change what is known of chunks and nodes.
pub data Update (F : Type 0) : Type 0 where
  puts : Bytes → ℕ → ℤ → List Bytes → ℕ → Update F
  deletes : Bytes → Update F
  starts : Bytes → List Bytes → List Bytes → Update F
  commits : Bytes → List Bytes → Update F
  beats : ℕ → Bytes → Bytes → F → ℕ → ℕ → F → Update F
  evicts : ℕ → ℕ → Update F

abbrev pub View : Type 0
View = Bytes → Option ChunkEntry

-- The entries that a put, the start and the commit of a reconfiguration leave.
abbrev pub put_entry : Bytes → ℕ → ℤ → List Bytes → ℕ → ChunkEntry
put_entry id size rf replicas version = record {
  chunk_id = id;
  version = version;
  replica_set = replicas;
  replication_factor = rf;
  config_state = stable;
  old_replica_set = [];
  size_bytes = size;
}

abbrev pub started : List Bytes → List Bytes → ChunkEntry → ChunkEntry
started old_set new_set e = record e {
  config_state = transitioning;
  replication_factor = pos (length new_set);
  old_replica_set = old_set;
  replica_set = new_set;
}

abbrev pub committed : List Bytes → ChunkEntry → ChunkEntry
committed new_set e = record e {
  config_state = stable;
  replication_factor = pos (length new_set);
  replica_set = new_set;
  old_replica_set = [];
}

abbrev pub at_id : Bytes → (Option ChunkEntry → Option ChunkEntry) → View → View
at_id id f v j = if same id j then f (v id) else v j

abbrev pub on_entry : (ChunkEntry → ChunkEntry) → Option ChunkEntry → Option ChunkEntry
on_entry f none = none
on_entry f (some e) = some (f e)

module _ {F : Type 0} where
  unfoldable pub apply_update : Coordinator F → Update F → Coordinator F
  apply_update c (puts id size rf replicas version) = apply_put_chunk c id size rf replicas version
  apply_update c (deletes id) = apply_delete_chunk c id
  apply_update c (starts id old_set new_set) = apply_reconfig_start c id old_set new_set
  apply_update c (commits id new_set) = apply_reconfig_commit c id new_set
  apply_update c (beats now id addr load fb tb fail) = apply_heartbeat c now id addr load fb tb fail
  apply_update c (evicts now timeout) = evict_stale_nodes c now timeout

  -- The specification: each update changes the map at its own id.
  unfoldable pub spec_update : View → Update F → View
  spec_update v (puts id size rf replicas version) =
      at_id id (λ _. some (put_entry id size rf replicas version)) v
  spec_update v (deletes id) = at_id id (λ _. none) v
  spec_update v (starts id old_set new_set) = at_id id (on_entry (started old_set new_set)) v
  spec_update v (commits id new_set) = at_id id (on_entry (committed new_set)) v
  spec_update v (beats now id addr load fb tb fail) = v
  spec_update v (evicts now timeout) = v

  unfoldable pub run_updates : Coordinator F → List (Update F) → Coordinator F
  run_updates c [] = c
  run_updates c (u ∷ us) = run_updates (apply_update c u) us

  unfoldable pub spec_run : View → List (Update F) → View
  spec_run v [] = v
  spec_run v (u ∷ us) = spec_run (spec_update v u) us

  pub get_chunk-update :
      (c : Coordinator F) (u : Update F) (j : Bytes)
      → get_chunk (apply_update c u) j ≡ spec_update (get_chunk c) u j
  unfolding apply_update spec_update get_chunk apply_put_chunk apply_delete_chunk
      apply_reconfig_start apply_reconfig_commit apply_heartbeat evict_stale_nodes
  get_chunk-update c (puts id size rf replicas version) j = find-insert id j _ c.chunk_table
  get_chunk-update c (deletes id) j = find-erase id j c.chunk_table
  get_chunk-update c (starts id old_set new_set) j = elim (Option-cases (find id c.chunk_table)) [
    | inl e ↦ ground (arith, same_iff id j)
    | inr (e, q) ↦ ground (arith, find-insert id j (started old_set new_set e) c.chunk_table)
  ]
  get_chunk-update c (commits id new_set) j = elim (Option-cases (find id c.chunk_table)) [
    | inl e ↦ ground (arith, same_iff id j)
    | inr (e, q) ↦ ground (arith, find-insert id j (committed new_set e) c.chunk_table)
  ]
  get_chunk-update c (beats now id addr load fb tb fail) j = refl
  get_chunk-update c (evicts now timeout) j = refl

  get_chunk-update_fun :
      (c : Coordinator F) (u : Update F)
      → get_chunk (apply_update c u) ≡ spec_update (get_chunk c) u
  get_chunk-update_fun c u = fun_ext (get_chunk-update c u)

  -- After any sequence of updates, looking a chunk up gives what the map specification gives.
  pub get_chunk-run :
      (c : Coordinator F) (us : List (Update F)) (j : Bytes)
      → get_chunk (run_updates c us) j ≡ spec_run (get_chunk c) us j
  unfolding run_updates spec_run
  get_chunk-run c [] j = refl
  get_chunk-run c (u ∷ us) j =
      get_chunk-run (apply_update c u) us j ∙ ap (λ v. spec_run v us j) (get_chunk-update_fun c u)
