-- ===== src/Base/Order.antt =====
-- The bytewise order of keys, RocksDB's default comparator.
use mathlib.Core.Path.{◌≡◌, refl}
use mathlib.Core.Bool.{Bool, true, false, ◌&&◌, ◌||◌}
use mathlib.Core.List.{[], ◌∷◌, ◌++◌}
use native.Mathlib.Omega.{arith}
use final_project_nimbusvaul.Base.Tests.{ltb, ◌==◌}
use final_project_nimbusvaul.Base.Strings.{Bytes}

-- `a` is before `b` or the same.
unfoldable pub key_leb : Bytes → Bytes → Bool
key_leb [] b = true
key_leb (x ∷ a) [] = false
key_leb (x ∷ a) (y ∷ b) = ltb x y || (x == y && key_leb a b)

pub key_leb_refl : (a : Bytes) → key_leb a a ≡ true
unfolding key_leb
key_leb_refl [] = refl
key_leb_refl (x ∷ a) = ground (arith, key_leb_refl a)

pub key_leb_total : (a b : Bytes) → key_leb a b ≡ false → key_leb b a ≡ true
unfolding key_leb
key_leb_total [] [] h = cc
key_leb_total [] (y ∷ b) h = cc
key_leb_total (x ∷ a) [] h = refl
key_leb_total (x ∷ a) (y ∷ b) h = ground (arith, key_leb_total a b)

pub key_leb_trans : (a b c : Bytes) → key_leb a b ≡ true → key_leb b c ≡ true → key_leb a c ≡ true
unfolding key_leb
key_leb_trans [] b c h k = refl
key_leb_trans (x ∷ a) [] c h k = cc
key_leb_trans (x ∷ a) (y ∷ b) [] h k = cc
key_leb_trans (x ∷ a) (y ∷ b) (z ∷ c) h k = ground (arith, key_leb_trans a b c)

pub key_leb_antisym : (a b : Bytes) → key_leb a b ≡ true → key_leb b a ≡ true → a ≡ b
unfolding key_leb
key_leb_antisym [] [] h k = refl
key_leb_antisym [] (y ∷ b) h k = cc
key_leb_antisym (x ∷ a) [] h k = cc
key_leb_antisym (x ∷ a) (y ∷ b) h k = ground (arith, key_leb_antisym a b)

-- A common prefix does not matter.
pub key_leb-append : (p a b : Bytes) → key_leb (p ++ a) (p ++ b) ≡ key_leb a b
unfolding key_leb
key_leb-append [] a b = refl
key_leb-append (x ∷ p) a b = ground (arith, key_leb-append p a b)
