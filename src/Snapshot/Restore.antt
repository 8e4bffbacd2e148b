-- ===== src/Snapshot/Restore.antt =====
-- Filling tables from the entries of a snapshot.
use final_project_nimbusvaul.Base.{
  ◌≡◌, refl, sym, ap, ◌∙◌, List, [], ◌∷◌, ◌++◌, append_assoc, append-nil, map, none, some, Bytes,
  same, same_iff, arith, All, Bool-cases, inl, inr,
}
use final_project_nimbusvaul.Base.Table.{Table, find, insert, find-insert, values}
use final_project_nimbusvaul.Coordinator.{ChunkEntry, NodeEntry, insert_chunks, insert_nodes}

module _ {V : Type 0} (id_of : V → Bytes) where
  -- Every entry stands under its own id, and no id stands twice.
  abbrev pub KeyedBy : Table V → Type 0
  KeyedBy [] = Unit
  KeyedBy ((k, v) ∷ t) = (id_of v ≡ k) × (find k t ≡ none) × KeyedBy t

  unfoldable pub insert_all : List V → Table V → Table V
  insert_all [] t = t
  insert_all (v ∷ vs) t = insert_all vs (insert (id_of v) v t)

  insert-new : (k : Bytes) (v : V) (t : Table V) → find k t ≡ none → insert k v t ≡ t ++ (k, v) ∷ []
  unfolding insert find
  insert-new k v [] new = refl
  insert-new k v ((j, w) ∷ t) new = elim (Bool-cases (same j k)) [
    | inl e ↦
        let found : find k ((j, w) ∷ t) ≡ some w = rw (e, find) refl in absurd (cc (found, new))
    | inr e ↦
        let later : find k ((j, w) ∷ t) ≡ find k t = rw (e, find) refl in
        rw e (ap (λ r. (j, w) ∷ r) (insert-new k v t (sym later ∙ new)))
  ]

  -- The keys of `t` are not in `done`.
  abbrev Apart : Table V → Table V → Type 0
  Apart done t = All (λ (p : Bytes × V). find p.0 done ≡ none) t

  insert-Apart :
      (k : Bytes) (v : V) (done t : Table V)
      → find k t ≡ none
      → Apart done t
      → Apart (insert k v done) t
  unfolding find
  insert-Apart k v done [] new apart = tt
  insert-Apart k v done ((j, w) ∷ t) new apart = elim (Bool-cases (same j k)) [
    | inl e ↦
        let found : find k ((j, w) ∷ t) ≡ some w = rw (e, find) refl in absurd (cc (found, new))
    | inr e ↦
        let later : find k ((j, w) ∷ t) ≡ find k t = rw (e, find) refl in
        (
          ground (arith, find-insert k j v done, same_iff k j, same_iff j k, e, apart.0),
          insert-Apart k v done t (sym later ∙ new) apart.1,
        )
  ]

  insert_all-values :
      (t done : Table V) → KeyedBy t → Apart done t → insert_all (values t) done ≡ done ++ t
  unfolding insert_all values
  insert_all-values [] done keyed apart = sym (append-nil done)
  insert_all-values ((k, v) ∷ t) done keyed apart =
      let named = ap (λ j. insert_all (values t) (insert j v done)) keyed.0 in
      let rest =
        insert_all-values t (insert k v done) keyed.2 (insert-Apart k v done t keyed.1 apart.1) in
      let last = ap (λ d. d ++ t) (insert-new k v done apart.0) in
      named ∙ rest ∙ last ∙ append_assoc done ((k, v) ∷ []) t

  nil-Apart : (t : Table V) → Apart [] t
  unfolding find
  nil-Apart [] = tt
  nil-Apart (p ∷ t) = (refl, nil-Apart t)

  -- The entries of a table, inserted into an empty one under their ids, are the table again.
  pub insert_all-again : (t : Table V) → KeyedBy t → insert_all (values t) [] ≡ t
  insert_all-again t keyed = insert_all-values t [] keyed (nil-Apart t)

module _ {V : Type 0} (f : V → V) where
  -- Every entry changed, under the same keys.
  unfoldable pub map_table : Table V → Table V
  map_table [] = []
  map_table ((k, v) ∷ t) = (k, f v) ∷ map_table t

  pub values-map_table : (t : Table V) → values (map_table t) ≡ map f (values t)
  unfolding map_table values
  values-map_table [] = refl
  values-map_table ((k, v) ∷ t) = ap (λ r. f v ∷ r) (values-map_table t)

  find-map_table : (k : Bytes) (t : Table V) → find k t ≡ none → find k (map_table t) ≡ none
  unfolding map_table find
  find-map_table k [] new = refl
  find-map_table k ((j, w) ∷ t) new = elim (Bool-cases (same j k)) [
    | inl e ↦
        let found : find k ((j, w) ∷ t) ≡ some w = rw (e, find) refl in absurd (cc (found, new))
    | inr e ↦
        let later : find k ((j, w) ∷ t) ≡ find k t = rw (e, find) refl in
        rw e (find-map_table k t (sym later ∙ new))
  ]

  pub map_table-KeyedBy :
      (id_of : V → Bytes)
      → ((v : V) → id_of (f v) ≡ id_of v)
      → (t : Table V) → KeyedBy id_of t
      → KeyedBy id_of (map_table t)
  unfolding map_table
  map_table-KeyedBy id_of kept [] keyed = tt
  map_table-KeyedBy id_of kept ((k, v) ∷ t) keyed =
      (kept v ∙ keyed.0, find-map_table k t keyed.1, map_table-KeyedBy id_of kept t keyed.2)

pub insert_chunks-all :
    (es : List ChunkEntry) (t : Table ChunkEntry)
    → insert_chunks es t ≡ insert_all (λ (e : ChunkEntry). e.chunk_id) es t
unfolding insert_chunks insert_all
insert_chunks-all [] t = refl
insert_chunks-all (e ∷ es) t = insert_chunks-all es (insert e.chunk_id e t)

module _ {F : Type 0} where
  pub insert_nodes-all :
      (ns : List (NodeEntry F)) (t : Table (NodeEntry F))
      → insert_nodes ns t ≡ insert_all (λ (n : NodeEntry F). n.node_id) ns t
  unfolding insert_nodes insert_all
  insert_nodes-all [] t = refl
  insert_nodes-all (n ∷ ns) t = insert_nodes-all ns (insert n.node_id n t)
