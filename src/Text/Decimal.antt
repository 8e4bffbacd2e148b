-- ===== src/Text/Decimal.antt =====
-- `std::to_string`, `std::stoull` and `std::stoi`.
pub mod RoundTrip
use final_project_nimbusvaul.Base.{
  ℕ, zero, suc, ◌+◌, ◌-◌, ◌*◌, ◌/◌, ◌%◌, ◌≡◌, refl, Bool, true, false, ◌&&◌, ◌||◌, [], ◌∷◌, Option,
  none, some, Bytes, codes, ltb, leb, ◌==◌, if◌then◌else◌, ℤ, pos, negsuc, u64, int_top, ◌^◌, ◌≢◌,
  Lacks,
}

-- The digits of `n` in front of `out`; `fuel` above `n` is enough.
unfoldable pub digits : ℕ → ℕ → Bytes → Bytes
digits zero n out = out
digits (suc fuel) n out = elim (ltb n 10) [
  | true ↦ (b'0' + n) ∷ out
  | false ↦ digits fuel (n / 10) ((b'0' + n % 10) ∷ out)
]

-- `std::to_string` of an unsigned number.
unfoldable pub to_string : ℕ → Bytes
unfolding digits
to_string n = digits (suc n) n []

-- `std::to_string` of an `int`.
unfoldable pub int_to_string : ℤ → Bytes
unfolding to_string
int_to_string (pos n) = to_string n
int_to_string (negsuc n) = b'-' ∷ to_string (n + 1)

abbrev pub is_digit : ℕ → Bool
is_digit c = leb b'0' c && leb c b'9'

-- Reads digits up to the first byte that is none.
unfoldable pub scan : ℕ → Bytes → ℕ
scan acc [] = acc
scan acc (c ∷ s) = let more = scan (acc * 10 + (c - b'0')) s in if is_digit c then more else acc

abbrev is_space : ℕ → Bool
is_space c = c == 32 || (leb 9 c && leb c 13)

unfoldable skip_space : Bytes → Bytes
skip_space [] = []
skip_space (c ∷ s) = if is_space c then skip_space s else c ∷ s

-- At least one digit, or `std::invalid_argument`.
magnitude : Bytes → Option ℕ
magnitude [] = none
magnitude (c ∷ s) = if is_digit c then some (scan 0 (c ∷ s)) else none

-- The sign, and the magnitude behind it.
signed : Bytes → Option (Bool × ℕ)
signed [] = none
signed (c ∷ s) =
    if c == b'-'
    then elim (magnitude s) [ none ↦ none | some m ↦ some (true, m) ]
    else if c == b'+'
    then elim (magnitude s) [ none ↦ none | some m ↦ some (false, m) ]
    else elim (magnitude (c ∷ s)) [ none ↦ none | some m ↦ some (false, m) ]

to_u64 : Bool × ℕ → Option ℕ
to_u64 (neg, m) = if ltb m u64 then (if neg then some ((u64 - m) % u64) else some m) else none

-- `none` stands for the exceptions `std::invalid_argument` and `std::out_of_range`.
unfoldable pub stoull : Bytes → Option ℕ
unfolding scan skip_space magnitude signed to_u64
stoull s = elim (signed (skip_space s)) [ none ↦ none | some p ↦ to_u64 p ]

to_int : Bool × ℕ → Option ℤ
to_int (false, m) = if ltb m int_top then some (pos m) else none
to_int (true, zero) = some (pos 0)
to_int (true, suc m) = if ltb m int_top then some (negsuc m) else none

unfoldable pub stoi : Bytes → Option ℤ
unfolding scan skip_space magnitude signed to_int
stoi s = elim (signed (skip_space s)) [ none ↦ none | some p ↦ to_int p ]

-- Text that is not empty and has neither separator: what may stand in one field of a record.
abbrev pub IsText : Bytes → Type 0
IsText s = (s ≢ []) × Lacks b'|' s × Lacks b';' s

stoull_test : stoull (codes " 42;x") ≡ some 42
unfolding stoull
stoull_test = refl

stoi_test : stoi (codes "-17") ≡ some (negsuc 16)
unfolding stoi
stoi_test = refl

to_string_test : to_string 1205 ≡ codes "1205"
unfolding to_string
to_string_test = refl
