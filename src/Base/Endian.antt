-- ===== src/Base/Endian.antt =====
-- Big-endian numbers: `__builtin_bswap64` or `__builtin_bswap32` and `memcpy`, on the
-- little-endian machines that the program runs on.
use native.Mathlib.Nat.{pow-suc}
use final_project_nimbusvaul.Base.Tests.{u32, u64}
use final_project_nimbusvaul.Base.Strings.{Bytes}
use final_project_nimbusvaul.Base.Lists.{length, length-append}
use Prim.Native.Nat.{ℕ, zero, suc, ◌+◌, ◌*◌, ◌/◌, ◌%◌, ◌^◌, ◌<◌}
use mathlib.Core.Path.{◌≡◌, refl}
use mathlib.Core.List.{[], ◌∷◌, ◌++◌}
use native.Mathlib.Omega.{arith}

-- The last `w` bytes of `n`, the highest first.
unfoldable pub be_bytes : ℕ → ℕ → Bytes
be_bytes zero n = []
be_bytes (suc w) n = be_bytes w (n / 256) ++ (n % 256) ∷ []

from_be_loop : ℕ → Bytes → ℕ
from_be_loop acc [] = acc
from_be_loop acc (b ∷ s) = from_be_loop (acc * 256 + b) s

unfoldable pub from_be : Bytes → ℕ
unfolding from_be_loop
from_be s = from_be_loop 0 s

from_be_loop-append :
    (acc b : ℕ) (s : Bytes) → from_be_loop acc (s ++ b ∷ []) ≡ from_be_loop acc s * 256 + b
unfolding from_be_loop
from_be_loop-append acc b [] = refl
from_be_loop-append acc b (c ∷ s) = from_be_loop-append (acc * 256 + c) b s

pub from_be-be_bytes : (w n : ℕ) → n < 256 ^ w → from_be (be_bytes w n) ≡ n
unfolding from_be be_bytes
from_be-be_bytes zero n h = omega arith
from_be-be_bytes (suc w) n h =
    let small : n / 256 < 256 ^ w = bound in
    omega (
      arith,
      from_be_loop-append 0 (n % 256) (be_bytes w (n / 256)),
      from_be-be_bytes w (n / 256) small,
    )
  where
    bound : n / 256 < 256 ^ w
    bound = omega (arith, pow-suc 256 w)

pub from_be-64 : (n : ℕ) → n < u64 → from_be (be_bytes 8 n) ≡ n
from_be-64 n h = from_be-be_bytes 8 n h

pub from_be-32 : (n : ℕ) → n < u32 → from_be (be_bytes 4 n) ≡ n
from_be-32 n h = from_be-be_bytes 4 n h

pub length-be_bytes : (w n : ℕ) → length (be_bytes w n) ≡ w
unfolding be_bytes
length-be_bytes zero n = refl
length-be_bytes (suc w) n =
    omega
      (arith, length-append (be_bytes w (n / 256)) ((n % 256) ∷ []), length-be_bytes w (n / 256))
