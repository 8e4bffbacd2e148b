-- ===== src/Placement.antt =====
-- src/meta/placement.h, placement.cpp and the PlacementConfig of src/common/config.h: the choice
-- of nodes for replicas. Sets of ids are lists; `std::shuffle` is an argument.
pub mod Members
pub mod Choice
use final_project_nimbusvaul.Base.{
  ℕ, zero, suc, ◌+◌, Bool, true, false, ◌||◌, List, [], ◌∷◌, Option, none, some, Bytes, same, ltb,
  if◌then◌else◌, ℤ, to_ℕ, length, get_elem?, take, map,
}
use final_project_nimbusvaul.Float.{Floats}
use final_project_nimbusvaul.Coordinator.{NodeEntry}

-- `set.count(id)`.
unfoldable pub member : Bytes → List Bytes → Bool
member id [] = false
member id (x ∷ xs) = same x id || member id xs

pub record PlacementConfig (F : Type 0) : Type 0 where
  pub w_load : F
  pub w_cap : F
  pub w_rel : F
  pub w_div : F
  pub random_placement : Bool

-- `candidates.erase(position)`.
unfoldable pub remove_at {ℓ} : {A : Type ℓ} → ℕ → List A → List A
remove_at i [] = []
remove_at zero (x ∷ xs) = xs
remove_at (suc i) (x ∷ xs) = x ∷ remove_at i xs

module _ {F : Type 0} where
  abbrev pub ids : List (NodeEntry F) → List Bytes
  ids [] = []
  ids (n ∷ ns) = n.node_id ∷ ids ns

  unfoldable pub candidates_of : List (NodeEntry F) → List Bytes → List (NodeEntry F)
  unfolding member
  candidates_of [] exclude = []
  candidates_of (n ∷ ns) exclude =
      let rest = candidates_of ns exclude in if member n.node_id exclude then rest else n ∷ rest

module _ {F : Type 0} ⦃fl : Floats F⦄ where
  unfoldable pub score : PlacementConfig F → NodeEntry F → List Bytes → F
  unfolding member
  score cfg node existing =
      let load_score = fl.mul (fl.sub (fl.decimal 1 0) node.load_fraction) cfg.w_load in
      let cap_score =
        if ltb 0 node.total_bytes
        then fl.mul (fl.div (fl.of_nat node.free_bytes) (fl.of_nat node.total_bytes)) cfg.w_cap
        else fl.decimal 0 0 in
      let rel_score = fl.mul (fl.sub (fl.decimal 1 0) node.failure_rate_7d) cfg.w_rel in
      let div_score =
        fl.mul (if member node.node_id existing then fl.decimal 0 0 else fl.decimal 1 0)
          cfg.w_div in
      fl.add (fl.add (fl.add load_score cap_score) rel_score) div_score

  -- `std::max_element`: the position of the first candidate that none beats.
  unfoldable pub max_loop : PlacementConfig F → List Bytes → F → ℕ → ℕ → List (NodeEntry F) → ℕ
  max_loop cfg chosen best at i [] = at
  max_loop cfg chosen best at i (n ∷ ns) =
      let better = fl.lt best (score cfg n chosen) in
      max_loop cfg chosen (if better then score cfg n chosen else best) (if better then i else at)
        (i + 1) ns

  unfoldable pub max_element : PlacementConfig F → List Bytes → List (NodeEntry F) → ℕ
  unfolding max_loop
  max_element cfg chosen [] = 0
  max_element cfg chosen (n ∷ ns) = max_loop cfg chosen (score cfg n chosen) 0 1 ns

  unfoldable pub select_greedy :
      PlacementConfig F → ℕ → List Bytes → List (NodeEntry F) → List Bytes
  unfolding max_element remove_at
  select_greedy cfg zero chosen candidates = []
  select_greedy cfg (suc rounds) chosen candidates =
      let best = max_element cfg chosen candidates in
      elim (get_elem? candidates best) [
        | none ↦ []
        | some n ↦
            n.node_id ∷ select_greedy cfg rounds (n.node_id ∷ chosen) (remove_at best candidates)
      ]

  unfoldable pub select_nodes :
      PlacementConfig F
      → (List (NodeEntry F) → List (NodeEntry F))
      → ℤ
      → List (NodeEntry F)
      → List Bytes
      → List Bytes
  unfolding candidates_of select_greedy
  select_nodes cfg shuffle n alive_nodes exclude_set =
      let candidates = candidates_of alive_nodes exclude_set in
      if cfg.random_placement
      then take (to_ℕ n) (ids (shuffle candidates))
      else select_greedy cfg (to_ℕ n) [] candidates
