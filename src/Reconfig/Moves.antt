-- ===== src/Reconfig/Moves.antt =====
-- What a reconfiguration that succeeds leaves.
use final_project_nimbusvaul.Base.{◌≡◌, refl, List, [], Option, some, Bytes, pos, length, same_refl}
use final_project_nimbusvaul.Base.Table.{find-insert}
use final_project_nimbusvaul.Coordinator.{
  stable, transitioning, ChunkEntry, Coordinator, get_chunk, apply_reconfig_start,
}

-- The entry of a chunk in the middle of a move, and after it.
abbrev pub started_entry : ChunkEntry → List Bytes → List Bytes → ChunkEntry
started_entry e old_set new_set = record e {
  config_state = transitioning;
  replication_factor = pos (length new_set);
  old_replica_set = old_set;
  replica_set = new_set;
}

abbrev pub moved_entry : ChunkEntry → List Bytes → ChunkEntry
moved_entry e new_set = record e {
  config_state = stable;
  replication_factor = pos (length new_set);
  replica_set = new_set;
  old_replica_set = [];
}

module _ {F : Type 0} where
  pub chunk_started :
      (c : Coordinator F) (chunk_id : Bytes) (old_set new_set : List Bytes) (e : ChunkEntry)
      → get_chunk c chunk_id ≡ some e
      → get_chunk (apply_reconfig_start c chunk_id old_set new_set) chunk_id
        ≡ some (started_entry e old_set new_set)
  unfolding apply_reconfig_start get_chunk
  chunk_started c chunk_id old_set new_set e h =
      rw
        (
          h,
          apply_reconfig_start,
          find-insert chunk_id chunk_id (started_entry e old_set new_set) c.chunk_table,
          same_refl chunk_id,
        )
        refl

  pub same_coord :
      {o : Option (Coordinator F)} {a b : Coordinator F} → o ≡ some a → o ≡ some b → a ≡ b
  same_coord p q = cc
