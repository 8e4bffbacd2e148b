-- ===== src/ChunkStore/Keys.antt =====
-- The keys of one chunk are in the order of its versions, and no key of another chunk lies among
-- them.
use final_project_nimbusvaul.Base.{
  ℕ, zero, suc, ◌+◌, ◌-◌, ◌*◌, ◌/◌, ◌%◌, ◌^◌, ◌<◌, ◌≤◌, ◌≡◌, ◌≢◌, refl, true, [], ◌∷◌, ◌++◌,
  append_assoc, some, Bytes, codes, ltb, arith, length, length-append, Bool-cases, inl, inr, sym,
  ◌∙◌, ap, All, All-append, lt→ltb, false≢true,
}
use native.Mathlib.Nat.{pow-suc}
use native.Mathlib.Decide.{ℕ_discrete}
use final_project_nimbusvaul.Base.Order.{key_leb, key_leb-append, key_leb_refl}
use final_project_nimbusvaul.Text.Decimal.{scan, stoull}
use final_project_nimbusvaul.Text.Decimal.RoundTrip.{IsDigit, stoull-scan}
use final_project_nimbusvaul.ChunkStore.{fixed, padded, chunk_prefix, make_key, strip, last_version}

length-fixed : (w n : ℕ) → length (fixed w n) ≡ w
unfolding fixed
length-fixed zero n = refl
length-fixed (suc w) n =
    omega (arith, length-append (fixed w (n / 10)) ((b'0' + n % 10) ∷ []), length-fixed w (n / 10))

fixed-All : (w n : ℕ) → All IsDigit (fixed w n)
unfolding fixed
fixed-All zero n = tt
fixed-All (suc w) n =
    All-append IsDigit (fixed w (n / 10)) _ (fixed-All w (n / 10)) ((omega arith, omega arith), tt)

scan-append :
    (acc d : ℕ) (s : Bytes)
    → All IsDigit s
    → IsDigit d
    → scan acc (s ++ d ∷ []) ≡ scan acc s * 10 + (d - b'0')
unfolding scan
scan-append acc d [] h k = ground arith
scan-append acc d (c ∷ s) h k = ground (arith, scan-append (acc * 10 + (c - b'0')) d s h.1 k)

scan-fixed : (w n : ℕ) → n < 10 ^ w → scan 0 (fixed w n) ≡ n
unfolding fixed
scan-fixed zero n h = unfold scan in omega arith
scan-fixed (suc w) n h =
    let small : n / 10 < 10 ^ w = omega (arith, pow-suc 10 w) in
    omega (
      arith,
      scan-append 0 (b'0' + n % 10) (fixed w (n / 10)) (fixed-All w (n / 10))
          (omega arith, omega arith),
      scan-fixed w (n / 10) small,
    )

fixed-injective : (w m n : ℕ) → m < 10 ^ w → n < 10 ^ w → fixed w m ≡ fixed w n → m ≡ n
fixed-injective w m n hm hn e = sym (scan-fixed w m hm) ∙ ap (scan 0) e ∙ scan-fixed w n hn

-- Texts of one length that differ stay in order when something is added.
key_leb_extend :
    (a b s t : Bytes)
    → length a ≡ length b
    → a ≢ b
    → key_leb a b ≡ true
    → key_leb (a ++ s) (b ++ t) ≡ true
unfolding key_leb
key_leb_extend [] [] s t l ne h = absurd (ne refl)
key_leb_extend [] (y ∷ b) s t l ne h = absurd (omega arith)
key_leb_extend (x ∷ a) [] s t l ne h = absurd (omega arith)
key_leb_extend (x ∷ a) (y ∷ b) s t l ne h = elim (Bool-cases (ltb x y)) [
  | inl e ↦ ground arith
  | inr e ↦
      let same_head : x ≡ y = ground arith in
      let rest : key_leb a b ≡ true = ground arith in
      ground (arith, key_leb_extend a b s t (omega arith) (λ q. ne (ap₂_cons same_head q)) rest)
]
  where
    ap₂_cons : x ≡ y → a ≡ b → x ∷ a ≡ y ∷ b
    ap₂_cons p q = λ i. p i ∷ q i

key_leb_digit : (a b : ℕ) → a ≤ b → key_leb (a ∷ []) (b ∷ []) ≡ true
unfolding key_leb
key_leb_digit a b h = ground arith

key_leb-fixed : (w m n : ℕ) → m ≤ n → n < 10 ^ w → key_leb (fixed w m) (fixed w n) ≡ true
unfolding fixed
key_leb-fixed zero m n h k = key_leb_refl []
key_leb-fixed (suc w) m n h k = elim (ℕ_discrete (m / 10) (n / 10)) [
  | yes e ↦ rw e (
      key_leb-append (fixed w (n / 10)) ((b'0' + m % 10) ∷ []) ((b'0' + n % 10) ∷ [])
      ∙ key_leb_digit (b'0' + m % 10) (b'0' + n % 10) (omega (arith, e)))
  | no ne ↦
      key_leb_extend (fixed w (m / 10)) (fixed w (n / 10)) _ _
        (length-fixed w (m / 10) ∙ sym (length-fixed w (n / 10)))
        (λ q. ne (fixed-injective w (m / 10) (n / 10) (omega (arith, small)) small q))
        (key_leb-fixed w (m / 10) (n / 10) (omega arith) small)
]
  where
    small : n / 10 < 10 ^ w
    small = omega (arith, pow-suc 10 w)

fixed-ne-nil : (w n : ℕ) → fixed (suc w) n ≢ []
fixed-ne-nil w n e = omega (arith, length-fixed (suc w) n, ap length e)

-- Versions of at most ten digits.
pub padded-fixed : (v : ℕ) → v ≤ last_version → padded v ≡ fixed 10 v
unfolding padded
padded-fixed v h = rw (lt→ltb v (10 ^ 10) (omega arith))

pub stoull-padded : (v : ℕ) → v ≤ last_version → stoull (padded v) ≡ some v
stoull-padded v h =
    let e = scan-fixed 10 v (omega arith) in
    ap stoull (padded-fixed v h)
    ∙ stoull-scan (fixed 10 v) (fixed-ne-nil 9 v) (fixed-All 10 v) (omega (arith, e))
    ∙ ap some e

pub make_key-prefix : (id : Bytes) (v : ℕ) → make_key id v ≡ chunk_prefix id ++ padded v
unfolding make_key chunk_prefix
make_key-prefix id v = ap (λ s. codes "chunk/" ++ s) (sym (append_assoc id (codes "/") (padded v)))

pub key_leb-make_key :
    (id : Bytes) (m n : ℕ)
    → m ≤ n
    → n ≤ last_version
    → key_leb (make_key id m) (make_key id n) ≡ true
key_leb-make_key id m n h k =
    rw (make_key-prefix id m, make_key-prefix id n, padded-fixed m (omega arith), padded-fixed n k)
      (key_leb-append (chunk_prefix id) (fixed 10 m) (fixed 10 n)
        ∙ key_leb-fixed 10 m n h (omega arith))

pub strip-append : (p s : Bytes) → strip p (p ++ s) ≡ some s
unfolding strip
strip-append [] s = refl
strip-append (c ∷ p) s = ground (arith, strip-append p s)

-- A key between two keys of one prefix has that prefix.
pub between :
    (p a b j : Bytes)
    → key_leb (p ++ a) j ≡ true
    → key_leb j (p ++ b) ≡ true
    → (rest : Bytes) × (j ≡ p ++ rest)
unfolding key_leb
between [] a b j h k = (j, refl)
between (x ∷ p) a b [] h k = absurd (false≢true h)
between (x ∷ p) a b (y ∷ j) h k =
    let same_head : y ≡ x = ground arith in
    let (rest, e) = between p a b j (ground arith) (ground arith) in (rest, λ i. same_head i ∷ e i)

-- The text of a version begins with a digit.
pub fixed_head : (v : ℕ) → (c : ℕ) × (s : Bytes) × (fixed 10 v ≡ c ∷ s) × (c < b'~')
fixed_head v = head_of (fixed 10 v) (fixed-ne-nil 9 v) (fixed-All 10 v)
  where
    head_of :
        (t : Bytes) → t ≢ [] → All IsDigit t → (c : ℕ) × (s : Bytes) × (t ≡ c ∷ s) × (c < b'~')
    head_of [] ne h = absurd (ne refl)
    head_of (c ∷ s) ne h = (c, s, refl, omega arith)
