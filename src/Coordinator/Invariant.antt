-- ===== src/Coordinator/Invariant.antt =====
-- What holds of every chunk entry, whatever the updates.
use final_project_nimbusvaul.Base.{
  ◌≡◌, refl, List, [], ◌∷◌, Option, none, some, Bytes, pos, length, same, same_iff, inl, inr, subst,
  Bool-cases, All,
}
use final_project_nimbusvaul.Coordinator.{
  ChunkConfigState, stable, transitioning, ChunkEntry, Coordinator, get_chunk,
}
use final_project_nimbusvaul.Coordinator.Lookup.{
  Update, puts, deletes, starts, commits, beats, evicts, View, put_entry, started, committed, at_id,
  on_entry, apply_update, spec_update, run_updates, get_chunk-update,
}

-- A stable chunk has no old replicas.
abbrev pub SettledIf : ChunkConfigState → List Bytes → Type 0
SettledIf stable old = old ≡ []
SettledIf transitioning old = Unit

-- An entry stands under its own id, has as many replicas as its replication factor says, and keeps
-- old replicas only in a reconfiguration.
pub record IsConsistent (id : Bytes) (e : ChunkEntry) : Type 0 where
  pub named : e.chunk_id ≡ id
  pub counted : e.replication_factor ≡ pos (length e.replica_set)
  pub settled : SettledIf e.config_state e.old_replica_set

abbrev pub ConsistentAt : Bytes → Option ChunkEntry → Type 0
ConsistentAt id none = Unit
ConsistentAt id (some e) = IsConsistent id e

-- A put names as many replicas as its replication factor.
abbrev pub IsCounted : {F : Type 0} → Update F → Type 0
IsCounted (puts id size rf replicas version) = rf ≡ pos (length replicas)
IsCounted _ = Unit

at_id-ConsistentAt :
    (id : Bytes) (f : Option ChunkEntry → Option ChunkEntry) (v : View)
    → ConsistentAt id (f (v id))
    → ((j : Bytes) → ConsistentAt j (v j))
    → (j : Bytes) → ConsistentAt j (at_id id f v j)
at_id-ConsistentAt id f v new old j = elim (Bool-cases (same id j)) [
  | inl e ↦ rw e (subst (λ k. ConsistentAt k (f (v id))) ((same_iff id j).0 e) new)
  | inr e ↦ rw e (old j)
]

started-ConsistentAt :
    (id : Bytes) (old_set new_set : List Bytes) (o : Option ChunkEntry)
    → ConsistentAt id o
    → ConsistentAt id (on_entry (started old_set new_set) o)
started-ConsistentAt id old_set new_set none h = tt
started-ConsistentAt id old_set new_set (some e) h = record {
  named = h.named;
  counted = refl;
  settled = tt;
}

committed-ConsistentAt :
    (id : Bytes) (new_set : List Bytes) (o : Option ChunkEntry)
    → ConsistentAt id o
    → ConsistentAt id (on_entry (committed new_set) o)
committed-ConsistentAt id new_set none h = tt
committed-ConsistentAt id new_set (some e) h = record {
  named = h.named;
  counted = refl;
  settled = refl;
}

module _ {F : Type 0} where
  abbrev pub Consistent : Coordinator F → Type 0
  Consistent c = (j : Bytes) → ConsistentAt j (get_chunk c j)

  spec_update-ConsistentAt :
      (v : View) (u : Update F)
      → IsCounted u
      → ((j : Bytes) → ConsistentAt j (v j))
      → (j : Bytes) → ConsistentAt j (spec_update v u j)
  unfolding spec_update
  spec_update-ConsistentAt v (puts id size rf replicas version) h old =
      at_id-ConsistentAt id (λ _. some (put_entry id size rf replicas version)) v
        (record { named = refl; counted = h; settled = refl }) old
  spec_update-ConsistentAt v (deletes id) h old = at_id-ConsistentAt id (λ _. none) v tt old
  spec_update-ConsistentAt v (starts id old_set new_set) h old =
      at_id-ConsistentAt id (on_entry (started old_set new_set)) v
        (started-ConsistentAt id old_set new_set (v id) (old id)) old
  spec_update-ConsistentAt v (commits id new_set) h old =
      at_id-ConsistentAt id (on_entry (committed new_set)) v
        (committed-ConsistentAt id new_set (v id) (old id)) old
  spec_update-ConsistentAt v (beats now id addr load fb tb fail) h old = old
  spec_update-ConsistentAt v (evicts now timeout) h old = old

  -- From consistent entries, updates whose puts name as many replicas as they ask for keep every
  -- entry consistent.
  pub run_updates-Consistent :
      (c : Coordinator F) (us : List (Update F))
      → All IsCounted us
      → Consistent c
      → Consistent (run_updates c us)
  unfolding run_updates
  run_updates-Consistent c [] h inv = inv
  run_updates-Consistent c (u ∷ us) h inv =
      run_updates-Consistent (apply_update c u) us h.1
        (λ j. rw (get_chunk-update c u j) (spec_update-ConsistentAt (get_chunk c) u h.0 inv j))
