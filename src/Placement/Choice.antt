-- ===== src/Placement/Choice.antt =====
-- What `select_nodes` chooses: how many nodes, which, and none of them twice.
use final_project_nimbusvaul.Base.{
  ℕ, zero, suc, ◌+◌, ◌<◌, ◌≡◌, refl, true, false, List, [], ◌∷◌, some, Bytes, arith, ℤ, to_ℕ,
  length, length-take, get_elem?, take, min, Bool-cases, inl, inr, sym, ◌∙◌, if_elim, false≢true,
  if◌then◌else◌,
}
use final_project_nimbusvaul.Float.{Floats}
use final_project_nimbusvaul.Coordinator.{NodeEntry}
use final_project_nimbusvaul.Placement.{
  member, PlacementConfig, remove_at, ids, candidates_of, score, max_loop, max_element,
  select_greedy, select_nodes,
}
use final_project_nimbusvaul.Placement.Members.{
  Distinct, length-ids, length-remove_at, get_elem?-some, Distinct-remove_at, candidates_from,
  Distinct-candidates, from_cons, absent_cons,
}

-- What `std::shuffle` keeps.
pub record IsShuffle {F : Type 0} (shuffle : List (NodeEntry F) → List (NodeEntry F)) : Type 0 where
  pub same_length : (ns : List (NodeEntry F)) → length (shuffle ns) ≡ length ns
  pub same_members :
      (ns : List (NodeEntry F)) (id : Bytes) → member id (ids (shuffle ns)) ≡ member id (ids ns)
  pub same_distinct : (ns : List (NodeEntry F)) → Distinct (ids ns) → Distinct (ids (shuffle ns))

take-member :
    (n : ℕ) (xs : List Bytes) (id : Bytes) → member id (take n xs) ≡ true → member id xs ≡ true
unfolding member
take-member zero xs id h = absurd (false≢true h)
take-member (suc n) [] id h = h
take-member (suc n) (x ∷ xs) id h = ground (arith, take-member n xs id)

take-Distinct : (n : ℕ) (xs : List Bytes) → Distinct xs → Distinct (take n xs)
take-Distinct zero xs d = tt
take-Distinct (suc n) [] d = tt
take-Distinct (suc n) (x ∷ xs) d = (absent, take-Distinct n xs d.1)
  where
    absent : member x (take n xs) ≡ false
    absent = elim (Bool-cases (member x (take n xs))) [
      | inl e ↦ absurd (false≢true (sym d.0 ∙ take-member n xs x e))
      | inr e ↦ e
    ]

module _ {F : Type 0} ⦃fl : Floats F⦄ (cfg : PlacementConfig F) where
  max_loop-lt :
      (chosen : List Bytes) (best : F) (at i : ℕ) (ns : List (NodeEntry F))
      → at < i
      → max_loop cfg chosen best at i ns < i + length ns
  unfolding max_loop
  max_loop-lt chosen best at i [] h = omega arith
  max_loop-lt chosen best at i (n ∷ ns) h =
      let better = fl.lt best (score cfg n chosen) in
      let small : (if better then i else at) < i + 1 =
        if_elim (λ k. k < i + 1) better i at (λ _. omega arith) (λ _. omega arith) in
      omega (
        arith,
        max_loop-lt chosen (if better then score cfg n chosen else best) (if better then i else at)
            (i + 1) ns small,
      )

  max_element-lt :
      (chosen : List Bytes) (ns : List (NodeEntry F))
      → 0 < length ns
      → max_element cfg chosen ns < length ns
  unfolding max_element
  max_element-lt chosen [] h = absurd (omega arith)
  max_element-lt chosen (n ∷ ns) h =
      omega (arith, max_loop-lt chosen (score cfg n chosen) 0 1 ns (omega arith))

  -- One round of the greedy choice.
  greedy_step :
      (rounds : ℕ) (chosen : List Bytes) (ns : List (NodeEntry F))
      → 0 < length ns
      → (i : ℕ) × (n : NodeEntry F) × (i < length ns)
        × (get_elem? ns i ≡ some n)
        × (select_greedy cfg (suc rounds) chosen ns
            ≡ n.node_id ∷ select_greedy cfg rounds (n.node_id ∷ chosen) (remove_at i ns))
  unfolding select_greedy
  greedy_step rounds chosen ns h =
      let i = max_element cfg chosen ns in
      let lt = max_element-lt chosen ns h in
      let (n, at) = get_elem?-some i ns lt in (i, n, lt, at, rw (at, select_greedy))

  greedy_empty : (rounds : ℕ) (chosen : List Bytes) → select_greedy cfg rounds chosen [] ≡ []
  unfolding select_greedy
  greedy_empty zero chosen = refl
  greedy_empty (suc rounds) chosen = refl

  -- The choice among given candidates.
  pub record IsChoice (want : ℕ) (ns : List (NodeEntry F)) (chosen : List Bytes) : Type 0 where
    pub as_many : length chosen ≡ min want (length ns)
    pub from_them : (id : Bytes) → member id chosen ≡ true → member id (ids ns) ≡ true
    pub distinct : Distinct (ids ns) → Distinct chosen

  greedy-IsChoice :
      (rounds : ℕ) (chosen : List Bytes) (ns : List (NodeEntry F))
      → IsChoice rounds ns (select_greedy cfg rounds chosen ns)
  unfolding select_greedy member
  greedy-IsChoice zero chosen ns = record {
    as_many = omega arith;
    from_them = λ id h. absurd (false≢true h);
    distinct = λ d. tt;
  }
  greedy-IsChoice (suc rounds) chosen [] = record {
    as_many = omega arith;
    from_them = λ id h. absurd (false≢true h);
    distinct = λ d. tt;
  }
  greedy-IsChoice (suc rounds) chosen (m ∷ ms) =
      let (i, n, lt, at, step) = greedy_step rounds chosen (m ∷ ms) (omega arith) in
      let ih = greedy-IsChoice rounds (n.node_id ∷ chosen) (remove_at i (m ∷ ms)) in
      let rest = select_greedy cfg rounds (n.node_id ∷ chosen) (remove_at i (m ∷ ms)) in
      rw step (record {
        as_many = omega (arith, ih.as_many, length-remove_at i (m ∷ ms) lt);
        from_them = from_cons i n (m ∷ ms) rest at ih.from_them;
        distinct = λ d. (
          absent_cons i n (m ∷ ms) rest at d ih.from_them,
          ih.distinct (Distinct-remove_at i (m ∷ ms) d),
        );
      })

  -- `select_nodes` returns as many ids as asked for, or as many as there are: ids of nodes that are
  -- alive and not excluded, and no id twice, if no two alive nodes have one id. So in the greedy
  -- mode, and in the random mode for any shuffle that keeps the candidates.
  pub select_nodes-IsChoice :
      (shuffle : List (NodeEntry F) → List (NodeEntry F)) (n : ℤ) (alive : List (NodeEntry F))
      (exclude : List Bytes)
      → IsShuffle shuffle
      → (length (select_nodes cfg shuffle n alive exclude)
          ≡ min (to_ℕ n) (length (candidates_of alive exclude)))
        × ((id : Bytes)
            → member id (select_nodes cfg shuffle n alive exclude) ≡ true
            → (member id (ids alive) ≡ true) × (member id exclude ≡ false))
        × (Distinct (ids alive) → Distinct (select_nodes cfg shuffle n alive exclude))
  unfolding select_nodes
  select_nodes-IsChoice shuffle n alive exclude sh = elim (Bool-cases cfg.random_placement) [
    | inl random ↦ simp random (
      omega (
        arith,
        length-take (to_ℕ n) (ids (shuffle cs)),
        length-ids (shuffle cs),
        sh.same_length cs,
      ),
      λ id h.
          candidates_from alive exclude id
            (sym (sh.same_members cs id) ∙ take-member (to_ℕ n) (ids (shuffle cs)) id h),
      λ d.
          take-Distinct (to_ℕ n) (ids (shuffle cs))
            (sh.same_distinct cs (Distinct-candidates alive exclude d)),
    )
    | inr greedy ↦
        let choice = greedy-IsChoice (to_ℕ n) [] cs in
        simp greedy (
          choice.as_many,
          λ id h. candidates_from alive exclude id (choice.from_them id h),
          λ d. choice.distinct (Distinct-candidates alive exclude d),
        )
  ]
    where
      cs : List (NodeEntry F)
      cs = candidates_of alive exclude
