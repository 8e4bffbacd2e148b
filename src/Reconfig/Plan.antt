-- ===== src/Reconfig/Plan.antt =====
-- The first half of `ReconfigDriver::reconfig` in src/meta/reconfig_driver.cpp: which nodes the
-- new replicas are on. `target_set` holds the members of `target_ids` throughout and is not kept.
use final_project_nimbusvaul.Base.{
  ℕ, ◌-◌, true, false, not, ◌&&◌, List, [], ◌∷◌, ◌++◌, Option, none, some, Bytes, same, ltb, leb,
  if◌then◌else◌, ℤ, pos, negsuc, length,
}
use final_project_nimbusvaul.Float.{Floats}
use final_project_nimbusvaul.Coordinator.{NodeEntry}
use final_project_nimbusvaul.Placement.{PlacementConfig, member, ids, select_nodes}
use final_project_nimbusvaul.Replicas.{is_empty, extract_node_id}

-- `if (target_set.insert(id).second) target_ids.push_back(id);`
unfoldable pub add_id : Bytes → List Bytes → List Bytes
unfolding member
add_id id targets = if member id targets then targets else targets ++ id ∷ []

unfoldable pub add_ids : List Bytes → List Bytes → List Bytes
unfolding add_id
add_ids [] targets = targets
add_ids (id ∷ more) targets = add_ids more (add_id id targets)

-- The nodes of the old set, without the one to be excluded.
unfoldable pub keep_ids : Bytes → List Bytes → List Bytes → List Bytes
unfolding add_id extract_node_id is_empty
keep_ids exc [] targets = targets
keep_ids exc (e ∷ es) targets =
    let id = extract_node_id e in
    keep_ids exc es (if not (is_empty exc) && same id exc then targets else add_id id targets)

-- `none` when the node to be included is not alive.
unfoldable pub include_id : Bytes → List Bytes → List Bytes → Option (List Bytes)
unfolding add_id
include_id [] alive_ids targets = some targets
include_id (c ∷ inc) alive_ids targets =
    if member (c ∷ inc) alive_ids then some (add_id (c ∷ inc) targets) else none

unfoldable pub trim_loop : Bytes → ℕ → List Bytes → List Bytes → List Bytes
trim_loop inc rf trimmed [] = trimmed
trim_loop inc rf trimmed (id ∷ more) = elim (same id inc) [
  | true ↦ trim_loop inc rf trimmed more
  | false ↦ elim (leb rf (length trimmed)) [
    | true ↦ trimmed
    | false ↦ trim_loop inc rf (trimmed ++ id ∷ []) more
  ]
]

-- Too many targets are cut to `rf`, with the included node kept.
unfoldable pub trim_ids : Bytes → ℕ → List Bytes → List Bytes
unfolding trim_loop is_empty
trim_ids inc rf targets =
    let trimmed = trim_loop inc rf [] targets in
    if ltb rf (length targets)
    then (if not (is_empty inc) && ltb (length trimmed) rf then trimmed ++ inc ∷ [] else trimmed)
    else targets

module _ {F : Type 0} ⦃fl : Floats F⦄ where
  -- Too few targets are filled up by placement.
  unfoldable pub fill_ids :
      PlacementConfig F
      → (List (NodeEntry F) → List (NodeEntry F))
      → List (NodeEntry F)
      → ℕ
      → List Bytes
      → List Bytes
  unfolding add_ids
  fill_ids cfg shuffle alive rf targets =
      if ltb (length targets) rf
      then add_ids (select_nodes cfg shuffle (pos (rf - length targets)) alive targets) targets
      else targets

  unfoldable pub plan_with :
      PlacementConfig F
      → (List (NodeEntry F) → List (NodeEntry F))
      → List (NodeEntry F)
      → Bytes
      → ℕ
      → List Bytes
      → Option (List Bytes)
  unfolding fill_ids trim_ids
  plan_with cfg shuffle alive inc rf targets =
      let filled = fill_ids cfg shuffle alive rf (trim_ids inc rf targets) in
      if ltb (length filled) rf then none else some filled

  -- The node ids of the new replicas; `none` is a return of `false` before anything is written.
  unfoldable pub plan :
      PlacementConfig F
      → (List (NodeEntry F) → List (NodeEntry F))
      → List (NodeEntry F)
      → List Bytes
      → ℤ
      → Bytes
      → Bytes
      → Option (List Bytes)
  unfolding keep_ids include_id plan_with
  plan cfg shuffle alive old_set (negsuc n) inc exc = none
  plan cfg shuffle alive old_set (pos rf) inc exc =
      elim (include_id inc (ids alive) (keep_ids exc old_set [])) [
        | none ↦ none
        | some targets ↦ plan_with cfg shuffle alive inc rf targets
      ]
