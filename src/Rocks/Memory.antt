-- ===== src/Rocks/Memory.antt =====
-- A database in memory that keeps the laws: the assumptions on RocksDB can hold.
pub mod Laws
use final_project_nimbusvaul.Base.{
  ℕ, ◌≡◌, ◌≢◌, refl, Bool, true, false, not, ◌&&◌, List, [], ◌∷◌, Option, none, some, Bytes, same,
  arith, same_iff, if◌then◌else◌, Bool-cases, inl, inr,
}
use final_project_nimbusvaul.Base.Table.{Table, find, insert, find-insert}
use final_project_nimbusvaul.Base.Order.{key_leb, key_leb_refl, key_leb_trans, key_leb_total}
use final_project_nimbusvaul.Rocks.{RocksDb, RocksLaws, in_range}

abbrev pub Memory : Type 0
Memory = Table Bytes

unfoldable pub delete_in : Bytes → Bytes → Memory → Memory
delete_in a b [] = []
delete_in a b ((k, v) ∷ t) =
    let rest = delete_in a b t in if in_range a b k then rest else (k, v) ∷ rest

-- The better of the best key so far and one more key.
better : Bytes → Bytes → Option Bytes → Option Bytes
better k i none = if key_leb i k then some i else none
better k i (some j) = if key_leb i k && key_leb j i then some i else some j

best_key : Bytes → Memory → Option Bytes
best_key k [] = none
best_key k ((i, v) ∷ t) = better k i (best_key k t)

-- A key with its value.
with_value : Memory → Option Bytes → Option (Bytes × Bytes)
with_value t none = none
with_value t (some j) = elim (find j t) [ none ↦ none | some v ↦ some (j, v) ]

unfoldable pub seek : Memory → Bytes → Option (Bytes × Bytes)
unfolding find best_key better key_leb with_value
seek t k = with_value t (best_key k t)

-- Insertion into an ordered list of keys, a repeated key once.
insert_key : Bytes → List Bytes → List Bytes
insert_key i [] = i ∷ []
insert_key i (j ∷ js) =
    let rest = insert_key i js in
    if same i j then j ∷ js else if key_leb i j then i ∷ j ∷ js else j ∷ rest

unfoldable pub keys : Memory → Bytes → List Bytes
unfolding insert_key key_leb same
keys [] k = []
keys ((i, v) ∷ t) k = let rest = keys t k in if key_leb k i then insert_key i rest else rest

instance abbrev pub memory : RocksDb Memory
memory = record {
  get = λ t k. find k t;
  put = λ t k v. (true, insert k v t);
  delete_range = λ t a b. (true, delete_in a b t);
  seek_for_prev = seek;
  keys_from = keys;
}
