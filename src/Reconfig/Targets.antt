-- ===== src/Reconfig/Targets.antt =====
-- What the plan of a reconfiguration guarantees.
use final_project_nimbusvaul.Base.{
  ℕ, ◌+◌, ◌-◌, ◌<◌, ◌≤◌, ◌≡◌, refl, sym, ap, subst, Bool, true, false, not, ◌&&◌, ◌||◌, List, [],
  ◌∷◌, ◌++◌, some, Bytes, same, same_iff, ltb, leb, if_elim, ℤ, pos, negsuc, length, arith,
  length-append, append_assoc, leb-false→lt, Bool-cases, Option-cases, inl, inr, ltb-false→le,
}
use final_project_nimbusvaul.Float.{Floats}
use final_project_nimbusvaul.Coordinator.{NodeEntry}
use final_project_nimbusvaul.Placement.{PlacementConfig, member, ids, select_nodes}
use final_project_nimbusvaul.Placement.Members.{Distinct}
use final_project_nimbusvaul.Placement.Choice.{IsShuffle, select_nodes-IsChoice}
use final_project_nimbusvaul.Replicas.{is_empty, extract_node_id}
use final_project_nimbusvaul.Reconfig.Plan.{
  add_id, add_ids, keep_ids, include_id, trim_loop, trim_ids, fill_ids, plan_with, plan,
}

member-append :
    (id : Bytes) (xs ys : List Bytes) → member id (xs ++ ys) ≡ (member id xs || member id ys)
unfolding member
member-append id [] ys = refl
member-append id (x ∷ xs) ys = ground (arith, member-append id xs ys)

member_cons : (id x : Bytes) (xs : List Bytes) → member id (x ∷ xs) ≡ (same x id || member id xs)
unfolding member
member_cons id x xs = refl

member_nil : (id : Bytes) → member id [] ≡ false
unfolding member
member_nil id = refl

add-Distinct :
    (id : Bytes) (xs : List Bytes) → Distinct xs → member id xs ≡ false → Distinct (xs ++ id ∷ [])
unfolding member
add-Distinct id [] d h = (refl, tt)
add-Distinct id (x ∷ xs) d h = (
  ground (arith, member-append x xs (id ∷ []), same_iff id x, same_iff x id, d.0),
  add-Distinct id xs d.1 (ground arith),
)

add_id-Distinct : (id : Bytes) (xs : List Bytes) → Distinct xs → Distinct (add_id id xs)
unfolding add_id
add_id-Distinct id xs d = elim (Bool-cases (member id xs)) [
  | inl there ↦ rw there d
  | inr new ↦ rw new (add-Distinct id xs d new)
]

length-add_id : (id : Bytes) (xs : List Bytes) → length (add_id id xs) ≤ length xs + 1
unfolding add_id
length-add_id id xs = ground (arith, length-append xs (id ∷ []))

add_ids-bounds :
    (more xs : List Bytes)
    → Distinct xs
    → Distinct (add_ids more xs) × (length (add_ids more xs) ≤ length xs + length more)
unfolding add_ids
add_ids-bounds [] xs d = (d, omega arith)
add_ids-bounds (id ∷ more) xs d =
    let ih = add_ids-bounds more (add_id id xs) (add_id-Distinct id xs d) in
    (ih.0, omega (arith, ih.1, length-add_id id xs))

keep_ids-Distinct : (exc : Bytes) (es xs : List Bytes) → Distinct xs → Distinct (keep_ids exc es xs)
unfolding keep_ids
keep_ids-Distinct exc [] xs d = d
keep_ids-Distinct exc (e ∷ es) xs d = keep_ids-Distinct exc es _ (
    if_elim Distinct (not (is_empty exc) && same (extract_node_id e) exc) _ _ (λ _. d)
      (λ _. add_id-Distinct (extract_node_id e) xs d))

include_id-Distinct :
    (inc : Bytes) (alive xs ys : List Bytes)
    → Distinct xs
    → include_id inc alive xs ≡ some ys
    → Distinct ys
unfolding include_id
include_id-Distinct [] alive xs ys d h = subst Distinct (cc) d
include_id-Distinct (c ∷ inc) alive xs ys d h = elim (Bool-cases (member (c ∷ inc) alive)) [
  | inl there ↦ subst Distinct (ground arith) (add_id-Distinct (c ∷ inc) xs d)
  | inr gone ↦ absurd (ground arith)
]

-- Distinct lists cut and rearranged.
Distinct-front : (xs ys : List Bytes) → Distinct (xs ++ ys) → Distinct xs
Distinct-front [] ys d = tt
Distinct-front (x ∷ xs) ys d =
    (ground (arith, member-append x xs ys, d.0), Distinct-front xs ys d.1)

Distinct-without :
    (xs : List Bytes) (y : Bytes) (ys : List Bytes) → Distinct (xs ++ y ∷ ys) → Distinct (xs ++ ys)
Distinct-without [] y ys d = d.1
Distinct-without (x ∷ xs) y ys d = (
  ground (arith, member-append x xs (y ∷ ys), member-append x xs ys, d.0, member_cons x y ys),
  Distinct-without xs y ys d.1,
)

record Trimmed (inc : Bytes) (rf : ℕ) (xs : List Bytes) : Type 0 where
  distinct : Distinct xs
  few : length xs ≤ rf
  absent : member inc xs ≡ false

trim_loop-Trimmed :
    (inc : Bytes) (rf : ℕ) (xs more : List Bytes)
    → Distinct (xs ++ more)
    → length xs ≤ rf
    → member inc xs ≡ false
    → Trimmed inc rf (trim_loop inc rf xs more)
unfolding trim_loop
trim_loop-Trimmed inc rf xs [] d few absent = record {
  distinct = Distinct-front xs [] d;
  few = few;
  absent = absent;
}
trim_loop-Trimmed inc rf xs (id ∷ more) d few absent = elim (Bool-cases (same id inc)) [
  | inl e ↦
      rw (e, trim_loop)
        (trim_loop-Trimmed inc rf xs more (Distinct-without xs id more d) few absent)
  | inr ne ↦ elim (Bool-cases (leb rf (length xs))) [
    | inl full ↦
        rw (ne, trim_loop, full)
          (record { distinct = Distinct-front xs (id ∷ more) d; few = few; absent = absent })
    | inr room ↦
        rw (ne, trim_loop, room)
          (trim_loop-Trimmed inc rf (xs ++ id ∷ []) more
            (subst Distinct (sym (append_assoc xs (id ∷ []) more)) d)
            (omega (arith, leb-false→lt rf (length xs) room, length-append xs (id ∷ [])))
            (ground (
              arith,
              member-append inc xs (id ∷ []),
              member_cons inc id [],
              member_nil inc,
              ne,
              absent,
            )))
  ]
]

both_right : (a : Bool) (n rf : ℕ) → (a && ltb n rf) ≡ true → n < rf
both_right a n rf h = ground arith

trim_ids-bounds :
    (inc : Bytes) (rf : ℕ) (xs : List Bytes)
    → Distinct xs
    → Distinct (trim_ids inc rf xs) × (length (trim_ids inc rf xs) ≤ rf)
unfolding trim_ids
trim_ids-bounds inc rf xs d = elim (Bool-cases (ltb rf (length xs))) [
  | inr fits ↦ rw fits (d, ltb-false→le rf (length xs) fits)
  | inl many ↦
      let t = trim_loop-Trimmed inc rf [] xs d (omega arith) (unfold member in refl) in
      rw many (
        if_elim (λ ys. Distinct ys × (length ys ≤ rf))
          (not (is_empty inc) && ltb (length (trim_loop inc rf [] xs)) rf) _ _
          (λ both. (
            add-Distinct inc _ t.distinct t.absent,
            omega (
              arith,
              both_right _ (length (trim_loop inc rf [] xs)) rf both,
              length-append (trim_loop inc rf [] xs) (inc ∷ []),
            ),
          ))
          (λ _. (t.distinct, t.few)))
]

module _ {F : Type 0} ⦃fl : Floats F⦄ (cfg : PlacementConfig F) where
  fill_ids-bounds :
      (shuffle : List (NodeEntry F) → List (NodeEntry F)) (alive : List (NodeEntry F)) (rf : ℕ)
      (xs : List Bytes)
      → IsShuffle shuffle
      → Distinct xs
      → length xs ≤ rf
      → Distinct (fill_ids cfg shuffle alive rf xs)
        × (length (fill_ids cfg shuffle alive rf xs) ≤ rf)
  unfolding fill_ids
  fill_ids-bounds shuffle alive rf xs sh d few =
      if_elim (λ ys. Distinct ys × (length ys ≤ rf)) (ltb (length xs) rf) _ _
        (λ _.
          let chosen = select_nodes cfg shuffle (pos (rf - length xs)) alive xs in
          let bounds = add_ids-bounds chosen xs d in
          let size = (select_nodes-IsChoice cfg shuffle (pos (rf - length xs)) alive xs sh).0 in
          (bounds.0, omega (arith, bounds.1, size, few)))
        (λ _. (d, few))

  plan_with-bounds :
      (shuffle : List (NodeEntry F) → List (NodeEntry F)) (alive : List (NodeEntry F)) (inc : Bytes)
      (rf : ℕ) (xs targets : List Bytes)
      → IsShuffle shuffle
      → Distinct xs
      → plan_with cfg shuffle alive inc rf xs ≡ some targets
      → (length targets ≡ rf) × Distinct targets
  unfolding plan_with
  plan_with-bounds shuffle alive inc rf xs targets sh d h =
      let trimmed = trim_ids-bounds inc rf xs d in
      let filled = fill_ids cfg shuffle alive rf (trim_ids inc rf xs) in
      let bounds = fill_ids-bounds shuffle alive rf (trim_ids inc rf xs) sh trimmed.0 trimmed.1 in
      elim (Bool-cases (ltb (length filled) rf)) [
        | inl short ↦ absurd (ground arith)
        | inr full ↦
            let e : filled ≡ targets = ground arith in
            subst (λ ys. (length ys ≡ rf) × Distinct ys) e
              (omega (arith, bounds.1, ltb-false→le (length filled) rf full), bounds.0)
      ]

  -- A plan that is made has exactly as many nodes as the new replication factor says, and no node
  -- twice: whatever the old set, the node to include and the one to exclude.
  pub plan-counts :
      (shuffle : List (NodeEntry F) → List (NodeEntry F)) (alive : List (NodeEntry F))
      (old_set : List Bytes) (new_rf : ℤ) (inc exc : Bytes) (targets : List Bytes)
      → IsShuffle shuffle
      → plan cfg shuffle alive old_set new_rf inc exc ≡ some targets
      → (new_rf ≡ pos (length targets)) × Distinct targets
  unfolding plan
  plan-counts shuffle alive old_set (negsuc n) inc exc targets sh h = absurd (cc)
  plan-counts shuffle alive old_set (pos rf) inc exc targets sh h =
      elim (Option-cases (include_id inc (ids alive) (keep_ids exc old_set []))) [
        | inl gone ↦ absurd (grind arith)
        | inr (xs, there) ↦
            let q =
              plan_with-bounds shuffle alive inc rf xs targets sh
                (include_id-Distinct inc (ids alive) (keep_ids exc old_set []) xs
                  (keep_ids-Distinct exc old_set [] tt) there)
                (planned xs there) in
            (ap pos (sym q.0), q.1)
      ]
    where
      planned :
          (xs : List Bytes)
          → include_id inc (ids alive) (keep_ids exc old_set []) ≡ some xs
          → plan_with cfg shuffle alive inc rf xs ≡ some targets
      planned xs there = ground arith
