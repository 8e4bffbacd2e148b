-- ===== src/Placement/Members.antt =====
-- Lists of node ids: members, removals and candidates.
use final_project_nimbusvaul.Base.{
  ℕ, zero, suc, ◌<◌, ◌≡◌, refl, true, false, List, [], ◌∷◌, Option, none, some, Bytes, same,
  same_iff, same_refl, arith, length, get_elem?, Bool-cases, inl, inr, sym, ◌∙◌, ap, if_elim,
  false≢true, subst,
}
use final_project_nimbusvaul.Coordinator.{NodeEntry}
use final_project_nimbusvaul.Placement.{member, remove_at, ids, candidates_of}

-- No id twice.
abbrev pub Distinct : List Bytes → Type 0
Distinct [] = Unit
Distinct (x ∷ xs) = (member x xs ≡ false) × Distinct xs

module _ {F : Type 0} where
  pub length-ids : (ns : List (NodeEntry F)) → length (ids ns) ≡ length ns
  length-ids [] = refl
  length-ids (n ∷ ns) = ap suc (length-ids ns)

  pub length-remove_at :
      (i : ℕ) (ns : List (NodeEntry F)) → i < length ns → suc (length (remove_at i ns)) ≡ length ns
  unfolding remove_at
  length-remove_at i [] h = absurd (omega arith)
  length-remove_at zero (n ∷ ns) h = refl
  length-remove_at (suc i) (n ∷ ns) h = ap suc (length-remove_at i ns (omega arith))

  pub get_elem?-some :
      (i : ℕ) (ns : List (NodeEntry F))
      → i < length ns
      → (n : NodeEntry F) × (get_elem? ns i ≡ some n)
  get_elem?-some i [] h = absurd (omega arith)
  get_elem?-some zero (n ∷ ns) h = (n, refl)
  get_elem?-some (suc i) (n ∷ ns) h = get_elem?-some i ns (omega arith)

  abbrev id_of : Option (NodeEntry F) → Bytes
  id_of none = []
  id_of (some n) = n.node_id

  member-get_elem? :
      (i : ℕ) (ns : List (NodeEntry F)) (n : NodeEntry F)
      → get_elem? ns i ≡ some n
      → member n.node_id (ids ns) ≡ true
  unfolding member
  member-get_elem? i [] n h = absurd (cc)
  member-get_elem? zero (m ∷ ns) n h = ground (arith, ap id_of h, same_refl n.node_id)
  member-get_elem? (suc i) (m ∷ ns) n h = ground (arith, member-get_elem? i ns n h)

  member-remove_at :
      (i : ℕ) (ns : List (NodeEntry F)) (id : Bytes)
      → member id (ids (remove_at i ns)) ≡ true
      → member id (ids ns) ≡ true
  unfolding member remove_at
  member-remove_at i [] id h = h
  member-remove_at zero (m ∷ ns) id h = ground arith
  member-remove_at (suc i) (m ∷ ns) id h = ground (arith, member-remove_at i ns id)

  not-member-remove_at :
      (i : ℕ) (ns : List (NodeEntry F)) (id : Bytes)
      → member id (ids ns) ≡ false
      → member id (ids (remove_at i ns)) ≡ false
  not-member-remove_at i ns id h = elim (Bool-cases (member id (ids (remove_at i ns)))) [
    | inl e ↦ absurd (false≢true (sym h ∙ member-remove_at i ns id e))
    | inr e ↦ e
  ]

  pub Distinct-remove_at :
      (i : ℕ) (ns : List (NodeEntry F)) → Distinct (ids ns) → Distinct (ids (remove_at i ns))
  unfolding remove_at
  Distinct-remove_at i [] h = tt
  Distinct-remove_at zero (m ∷ ns) h = h.1
  Distinct-remove_at (suc i) (m ∷ ns) h =
      (not-member-remove_at i ns m.node_id h.0, Distinct-remove_at i ns h.1)

  -- A chosen node is not among the remaining ones.
  removed :
      (i : ℕ) (ns : List (NodeEntry F)) (n : NodeEntry F)
      → Distinct (ids ns)
      → get_elem? ns i ≡ some n
      → member n.node_id (ids (remove_at i ns)) ≡ false
  unfolding remove_at member
  removed i [] n d h = absurd (cc)
  removed zero (m ∷ ns) n d h = subst (λ k. member k (ids ns) ≡ false) (ap id_of h) d.0
  removed (suc i) (m ∷ ns) n d h = elim (Bool-cases (same m.node_id n.node_id)) [
    | inl e ↦ absurd (
        false≢true (
          sym d.0
          ∙ ap (λ k. member k (ids ns)) ((same_iff m.node_id n.node_id).0 e)
          ∙ member-get_elem? i ns n h))
    | inr e ↦ ground (arith, removed i ns n d.1 h)
  ]

  pub candidates_from :
      (ns : List (NodeEntry F)) (exclude : List Bytes) (id : Bytes)
      → member id (ids (candidates_of ns exclude)) ≡ true
      → (member id (ids ns) ≡ true) × (member id exclude ≡ false)
  unfolding candidates_of member
  candidates_from [] exclude id h = absurd (false≢true h)
  candidates_from (n ∷ ns) exclude id h = elim (Bool-cases (member n.node_id exclude)) [
    | inl out ↦ ground (arith, candidates_from ns exclude id)
    | inr kept ↦ elim (Bool-cases (same n.node_id id)) [
      | inl e ↦
          (ground arith, subst (λ k. member k exclude ≡ false) ((same_iff n.node_id id).0 e) kept)
      | inr e ↦ ground (arith, candidates_from ns exclude id)
    ]
  ]

  not-member-candidates :
      (ns : List (NodeEntry F)) (exclude : List Bytes) (id : Bytes)
      → member id (ids ns) ≡ false
      → member id (ids (candidates_of ns exclude)) ≡ false
  not-member-candidates ns exclude id h =
      elim (Bool-cases (member id (ids (candidates_of ns exclude)))) [
        | inl e ↦ absurd (false≢true (sym h ∙ (candidates_from ns exclude id e).0))
        | inr e ↦ e
      ]

  pub Distinct-candidates :
      (ns : List (NodeEntry F)) (exclude : List Bytes)
      → Distinct (ids ns)
      → Distinct (ids (candidates_of ns exclude))
  unfolding candidates_of
  Distinct-candidates [] exclude d = tt
  Distinct-candidates (n ∷ ns) exclude d =
      if_elim (λ c. Distinct (ids c)) (member n.node_id exclude) (candidates_of ns exclude)
        (n ∷ candidates_of ns exclude) (λ _. Distinct-candidates ns exclude d.1)
        (λ _. (not-member-candidates ns exclude n.node_id d.0, Distinct-candidates ns exclude d.1))

module _ {F : Type 0} where
  pub from_cons :
      (i : ℕ) (n : NodeEntry F) (ns : List (NodeEntry F)) (rest : List Bytes)
      → get_elem? ns i ≡ some n
      → ((id : Bytes) → member id rest ≡ true → member id (ids (remove_at i ns)) ≡ true)
      → (id : Bytes) → member id (n.node_id ∷ rest) ≡ true
      → member id (ids ns) ≡ true
  unfolding member
  from_cons i n ns rest at sub id h = elim (Bool-cases (same n.node_id id)) [
    | inl e ↦
        subst (λ k. member k (ids ns) ≡ true) ((same_iff n.node_id id).0 e)
          (member-get_elem? i ns n at)
    | inr e ↦ member-remove_at i ns id (sub id (ground arith))
  ]

  pub absent_cons :
      (i : ℕ) (n : NodeEntry F) (ns : List (NodeEntry F)) (rest : List Bytes)
      → get_elem? ns i ≡ some n
      → Distinct (ids ns)
      → ((id : Bytes) → member id rest ≡ true → member id (ids (remove_at i ns)) ≡ true)
      → member n.node_id rest ≡ false
  absent_cons i n ns rest at d sub = elim (Bool-cases (member n.node_id rest)) [
    | inl e ↦ absurd (false≢true (sym (removed i ns n d at) ∙ sub n.node_id e))
    | inr e ↦ e
  ]
