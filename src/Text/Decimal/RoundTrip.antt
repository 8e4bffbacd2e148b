-- ===== src/Text/Decimal/RoundTrip.antt =====
-- A number that `to_string` printed is read back, and its text is digits only.
use final_project_nimbusvaul.Base.{
  ℕ, zero, suc, ◌+◌, ◌/◌, ◌≤◌, ◌<◌, ◌≡◌, ◌≢◌, refl, false, [], ◌∷◌, some, none, Option, arith,
  Bytes, ltb, Bool-cases, inl, inr, ℤ, pos, u64, int_top, All, Lacks, ◌∙◌, subst, ap,
}
use final_project_nimbusvaul.Text.Decimal.{
  digits, to_string, int_to_string, scan, skip_space, magnitude, signed, to_u64, to_int, stoull,
  stoi,
}

abbrev pub IsDigit : ℕ → Type 0
IsDigit c = (b'0' ≤ c) × (c ≤ b'9')

digits-All : (f n : ℕ) (out : Bytes) → All IsDigit out → All IsDigit (digits f n out)
unfolding digits
digits-All zero n out h = h
digits-All (suc f) n out h = elim (Bool-cases (ltb n 10)) [
  | inl e ↦ rw (e, digits) ((omega arith, ground arith), h)
  | inr e ↦ rw (e, digits) (digits-All f (n / 10) _ ((omega arith, omega arith), h))
]

pub to_string-All : (n : ℕ) → All IsDigit (to_string n)
unfolding to_string
to_string-All n = digits-All (suc n) n [] tt

scan-digits : (f n : ℕ) (out : Bytes) → n < f → scan 0 (digits f n out) ≡ scan n out
unfolding digits scan
scan-digits zero n out h = absurd (omega arith)
scan-digits (suc f) n out h = elim (Bool-cases (ltb n 10)) [
  | inl e ↦ rw (e, digits) (ground arith)
  | inr e ↦ rw (e, digits) (scan-digits f (n / 10) _ (ground arith) ∙ ground arith)
]

-- Reading the digits of a printed number gives the number.
pub scan-to_string : (n : ℕ) → scan 0 (to_string n) ≡ n
unfolding to_string scan
scan-to_string n = scan-digits (suc n) n [] (omega arith)

-- Text that begins with a digit needs no skipping and has no sign.
signed-digits :
    (c : ℕ) (s : Bytes) → IsDigit c → signed (skip_space (c ∷ s)) ≡ some (false, scan 0 (c ∷ s))
unfolding signed skip_space magnitude
signed-digits c s h = ground arith

-- The digits of a number are one or more.
digits_cons : (f n : ℕ) (out : Bytes) → n < f → (c : ℕ) × (s : Bytes) × (digits f n out ≡ c ∷ s)
unfolding digits
digits_cons zero n out h = absurd (omega arith)
digits_cons (suc f) n out h = elim (Bool-cases (ltb n 10)) [
  | inl e ↦ (b'0' + n, out, rw (e, digits))
  | inr e ↦ rw (e, digits) (digits_cons f (n / 10) _ (ground arith))
]

pub to_string-ne-nil : (n : ℕ) → to_string n ≢ []
unfolding to_string
to_string-ne-nil n e = let (c, s, h) = digits_cons (suc n) n [] (omega arith) in cc (h, e)

signed-to_string : (n : ℕ) → signed (skip_space (to_string n)) ≡ some (false, n)
unfolding to_string scan
signed-to_string n =
    let (c, s, h) = digits_cons (suc n) n [] (omega arith) in
    let d : All IsDigit (c ∷ s) = subst (All IsDigit) h (digits-All (suc n) n [] tt) in
    let e : scan 0 (c ∷ s) ≡ n =
      subst (λ w. scan 0 w ≡ n) h (scan-digits (suc n) n [] (omega arith)) in
    rw h (signed-digits c s d.0 ∙ ap (λ k. some (false, k)) e)

pub stoull-to_string : (n : ℕ) → n < u64 → stoull (to_string n) ≡ some n
unfolding stoull to_u64
stoull-to_string n h =
    ap (λ o. elim o as (λ _. Option ℕ) [ none ↦ none | some p ↦ to_u64 p ]) (signed-to_string n)
    ∙ ground arith

pub stoi-int_to_string : (n : ℕ) → n < int_top → stoi (int_to_string (pos n)) ≡ some (pos n)
unfolding stoi int_to_string to_int
stoi-int_to_string n h =
    ap (λ o. elim o as (λ _. Option ℤ) [ none ↦ none | some p ↦ to_int p ]) (signed-to_string n)
    ∙ ground arith

-- A byte that is no digit does not occur in a printed number.
pub Lacks-digits : (c : ℕ) (s : Bytes) → ¬ IsDigit c → All IsDigit s → Lacks c s
Lacks-digits c [] h d = tt
Lacks-digits c (x ∷ s) h d = ((λ e. h (subst IsDigit e d.0)), Lacks-digits c s h d.1)

-- Text of one or more digits is read as the number that they spell.
pub stoull-scan : (s : Bytes) → s ≢ [] → All IsDigit s → scan 0 s < u64 → stoull s ≡ some (scan 0 s)
unfolding stoull to_u64
stoull-scan [] ne h fits = absurd (ne refl)
stoull-scan (c ∷ s) ne h fits =
    ap (λ o. elim o as (λ _. Option ℕ) [ none ↦ none | some p ↦ to_u64 p ]) (signed-digits c s h.0)
    ∙ ground arith
