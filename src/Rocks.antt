-- ===== src/Rocks.antt =====
-- RocksDB, which the program links to: the calls that the program makes of a database, and what
-- it relies on. A database is a value of a type `D` that the development leaves open.
pub mod Memory
use final_project_nimbusvaul.Base.{
  ℕ, ◌≡◌, ◌≢◌, Bool, true, false, not, ◌&&◌, List, Option, none, some, Bytes, same, if◌then◌else◌,
}
use final_project_nimbusvaul.Base.Order.{key_leb}

-- A write returns whether its `Status` was ok, and the database after it.
pub record RocksDb (D : Type 0) : Type 0 where
  pub get : D → Bytes → Option Bytes
  pub put : D → Bytes → Bytes → Bool × D
  -- Deletes the keys from the first bound up to, but without, the second.
  pub delete_range : D → Bytes → Bytes → Bool × D
  -- The last pair whose key is at most the given one.
  pub seek_for_prev : D → Bytes → Option (Bytes × Bytes)
  -- The keys from the given one on, in order.
  pub keys_from : D → Bytes → List Bytes

abbrev pub in_range : Bytes → Bytes → Bytes → Bool
in_range a b k = key_leb a k && not (key_leb b k)

-- What a key reads as after a write whose status was ok, and where `SeekForPrev` stops.
pub record RocksLaws {D : Type 0} (r : RocksDb D) : Type 0 where
  pub get-put_self :
      (d : D) (k v : Bytes) → (r.put d k v).0 ≡ true → r.get (r.put d k v).1 k ≡ some v
  -- A write touches its own key only, whatever its status.
  pub get-put_ne : (d : D) (k j v : Bytes) → k ≢ j → r.get (r.put d k v).1 j ≡ r.get d j
  pub get-delete_range :
      (d : D) (a b j : Bytes)
      → (r.delete_range d a b).0 ≡ true
      → r.get (r.delete_range d a b).1 j ≡ (if in_range a b j then none else r.get d j)
  pub seek_found :
      (d : D) (k j v : Bytes)
      → r.seek_for_prev d k ≡ some (j, v)
      → (r.get d j ≡ some v)
        × (key_leb j k ≡ true)
        × ((i : Bytes) → r.get d i ≢ none → key_leb i k ≡ true → key_leb i j ≡ true)
  pub seek_none :
      (d : D) (k : Bytes)
      → r.seek_for_prev d k ≡ none
      → (i : Bytes) → r.get d i ≢ none
      → key_leb i k ≡ false
