-- ===== src/Base/Table.antt =====
-- `std::unordered_map<std::string, V>` as an association list. The order of the list stands for
-- the order in which the container is walked, which the C++ standard leaves open.
use mathlib.Core.Path.{◌≡◌, refl}
use mathlib.Core.List.{List, [], ◌∷◌}
use mathlib.Core.Option.{Option, none, some}
use native.Mathlib.Omega.{arith}
use final_project_nimbusvaul.Base.Tests.{if◌then◌else◌}
use final_project_nimbusvaul.Base.Strings.{Bytes, same, same_iff}

abbrev pub Table {ℓ} : Type ℓ → Type ℓ
Table V = List (Bytes × V)

module _ {ℓ} {V : Type ℓ} where
  unfoldable pub find : Bytes → Table V → Option V
  find k [] = none
  find k ((j, v) ∷ t) = if same j k then some v else find k t

  -- `t[k] = v`.
  unfoldable pub insert : Bytes → V → Table V → Table V
  insert k v [] = (k, v) ∷ []
  insert k v ((j, w) ∷ t) = if same j k then (j, v) ∷ t else (j, w) ∷ insert k v t

  unfoldable pub erase : Bytes → Table V → Table V
  erase k [] = []
  erase k ((j, w) ∷ t) = let rest = erase k t in if same j k then rest else (j, w) ∷ rest

  unfoldable pub values : Table V → List V
  values [] = []
  values ((j, w) ∷ t) = w ∷ values t

  pub find-insert :
      (k j : Bytes) (v : V) (t : Table V)
      → find j (insert k v t) ≡ (if same k j then some v else find j t)
  unfolding find insert
  find-insert k j v [] = refl
  find-insert k j v ((i, w) ∷ t) =
      ground (arith, same_iff k j, same_iff i k, same_iff i j, find-insert k j v t)

  pub find-erase :
      (k j : Bytes) (t : Table V) → find j (erase k t) ≡ (if same k j then none else find j t)
  unfolding find erase
  find-erase k j [] = ground arith
  find-erase k j ((i, w) ∷ t) =
      ground (arith, same_iff k j, same_iff i k, same_iff i j, find-erase k j t)
