-- ===== src/History/Ranks.antt =====
-- The percentiles of a summary are order statistics of the latencies.
use final_project_nimbusvaul.Base.{
  ℕ, zero, suc, ◌+◌, ◌-◌, ◌≤◌, ◌<◌, ◌≡◌, refl, ap, sym, ◌∙◌, Bool, true, false, List, [], ◌∷◌, ◌++◌,
  some, ltb, leb, ◌==◌, le→leb, le→ltb-false, arith, if◌then◌else◌, u64, length, get_elem?,
  append_assoc, append-nil, map,
}
use final_project_nimbusvaul.Float.{Floats}
use final_project_nimbusvaul.History.{
  OpRecord, HistoryTracer, Totals, no_totals, add_record, add_records, clamp_rank, at_index, pct_at,
  rank_of, get_stats,
}

unfoldable pub count_if : {A : Type 0} → (A → Bool) → List A → ℕ
count_if test [] = 0
count_if test (x ∷ xs) = let rest = count_if test xs in if test x then suc rest else rest

-- `std::sort`: ascending, with every value as often as before.
pub record IsSort (sort : List ℕ → List ℕ) : Type 0 where
  pub ascending :
      (l : List ℕ) (i j x y : ℕ)
      → i ≤ j
      → get_elem? (sort l) i ≡ some x
      → get_elem? (sort l) j ≡ some y
      → x ≤ y
  pub same_counts : (l : List ℕ) (test : ℕ → Bool) → count_if test (sort l) ≡ count_if test l

-- The k-th smallest: at least k values are not above it, and fewer than k are below it.
abbrev pub IsRank : List ℕ → ℕ → ℕ → Type 0
IsRank l k x = (k ≤ count_if (λ y. leb y x) l) × (count_if (λ y. ltb y x) l < k)

count_low :
    (s : List ℕ) (i x : ℕ)
    → ((j y : ℕ) → j ≤ i → get_elem? s j ≡ some y → y ≤ x)
    → i < length s
    → i < count_if (λ y. leb y x) s
unfolding count_if
count_low [] i x low h = absurd (omega arith)
count_low (y ∷ s) zero x low h = rw (le→leb y x (low 0 y (omega arith) refl)) (omega arith)
count_low (y ∷ s) (suc i) x low h =
    let rest = count_low s i x (λ j z le at. low (suc j) z (omega arith) at) (omega arith) in
    rw (le→leb y x (low 0 y (omega arith) refl)) (omega arith)

count_high :
    (s : List ℕ) (i x : ℕ)
    → ((j y : ℕ) → i ≤ j → get_elem? s j ≡ some y → x ≤ y)
    → count_if (λ y. ltb y x) s ≤ i
unfolding count_if
count_high [] i x high = omega arith
count_high (y ∷ s) zero x high =
    let rest = count_high s zero x (λ j z le at. high (suc j) z (omega arith) at) in
    rw (le→ltb-false y x (high 0 y (omega arith) refl)) rest
count_high (y ∷ s) (suc i) x high =
    let rest = count_high s i x (λ j z le at. high (suc j) z (omega arith) at) in ground arith

count_all : {A : Type 0} (l : List A) → count_if (λ y. true) l ≡ length l
unfolding count_if
count_all [] = refl
count_all (x ∷ l) = ap suc (count_all l)

clamp_bounds : (size idx : ℕ) → 0 < size → (0 < clamp_rank size idx) × (clamp_rank size idx ≤ size)
unfolding clamp_rank
clamp_bounds size idx h = (ground arith, ground arith)

get_some : (l : List ℕ) (i : ℕ) → i < length l → get_elem? l i ≡ some (at_index l i)
unfolding at_index
get_some [] i h = absurd (omega arith)
get_some (x ∷ l) zero h = refl
get_some (x ∷ l) (suc i) h = get_some l i (omega arith)

pct_at-index :
    (s : List ℕ) (idx : ℕ)
    → 0 < length s
    → pct_at s idx ≡ at_index s (clamp_rank (length s) idx - 1)
unfolding pct_at
pct_at-index [] idx h = absurd (omega arith)
pct_at-index (x ∷ s) idx h = refl

length-sort : (sort : List ℕ → List ℕ) → IsSort sort → (l : List ℕ) → length (sort l) ≡ length l
length-sort sort is l = sym (count_all (sort l)) ∙ is.same_counts l (λ y. true) ∙ count_all l

-- Of latencies that are sorted, the entry at the rank, brought into range, is the rank-th smallest.
pct_at-IsRank :
    (sort : List ℕ → List ℕ) (l : List ℕ) (idx : ℕ)
    → IsSort sort
    → 0 < length l
    → IsRank l (clamp_rank (length l) idx) (pct_at (sort l) idx)
pct_at-IsRank sort l idx is some_ops =
    let size = length-sort sort is l in
    let (least, most) = clamp_bounds (length l) idx some_ops in
    let i = clamp_rank (length l) idx - 1 in
    let x = at_index (sort l) i in
    let at = get_some (sort l) i (omega arith) in
    let low =
      count_low (sort l) i x (λ j y le there. is.ascending l j i y x le there at) (omega arith) in
    let high = count_high (sort l) i x (λ j y le there. is.ascending l i j x y le at there) in
    rw (pct_at-index (sort l) idx (omega arith), size)
      (
        omega (arith, low, is.same_counts l (λ y. leb y x)),
        omega (arith, high, is.same_counts l (λ y. ltb y x)),
      )

unfoldable pub failed : OpRecord → Bool
failed r = if r.ok then false else true

abbrev pub latencies : List OpRecord → List ℕ
latencies rs = map (λ (r : OpRecord). r.latency_us) rs

length-latencies : (rs : List OpRecord) → length (latencies rs) ≡ length rs
length-latencies [] = refl
length-latencies (r ∷ rs) = ap suc (length-latencies rs)

add_records-lat : (rs : List OpRecord) (t : Totals) → (add_records t rs).lat ≡ t.lat ++ latencies rs
unfolding add_records
add_records-lat [] t = sym (append-nil t.lat)
add_records-lat (r ∷ rs) t =
    add_records-lat rs (add_record t r)
    ∙ unfold add_record in append_assoc t.lat (r.latency_us ∷ []) (latencies rs)

add_record-errors :
    (r : OpRecord) (t : Totals)
    → t.errors + 1 < u64
    → (add_record t r).errors ≡ (if failed r then suc t.errors else t.errors)
unfolding add_record failed
add_record-errors r t h = ground arith

add_records-errors :
    (rs : List OpRecord) (t : Totals)
    → t.errors + length rs < u64
    → (add_records t rs).errors ≡ t.errors + count_if failed rs
unfolding add_records count_if
add_records-errors [] t h = omega arith
add_records-errors (r ∷ rs) t h =
    let one = add_record-errors r t (omega arith) in
    let rest = add_records-errors rs (add_record t r) (ground arith) in ground (arith, one, rest)

module _ {F : Type 0} ⦃fl : Floats F⦄ where
  -- The smallest latency of the percentile's rank, which is brought into the range of the list.
  abbrev pub IsPercentile : (F → ℕ) → List ℕ → ℕ → ℕ → Type 0
  IsPercentile ceil lat percent x =
      IsRank lat (clamp_rank (length lat) (rank_of ceil percent (length lat))) x

  percentile :
      (ceil : F → ℕ) (sort : List ℕ → List ℕ) (lat : List ℕ) (percent : ℕ)
      → IsSort sort
      → 0 < length lat
      → IsPercentile ceil lat percent (pct_at (sort lat) (rank_of ceil percent (length (sort lat))))
  percentile ceil sort lat percent is h =
      rw (length-sort sort is lat) (pct_at-IsRank sort lat (rank_of ceil percent (length lat)) is h)

  -- The summary of at least one operation, and of fewer than 2^64: it counts them and those that
  -- failed, and each percentile is the latency of its rank among all of them, where the rank is
  -- the rounded-up share of their number, brought into the range from 1 to that number.
  pub get_stats-ranks :
      (ceil : F → ℕ) (sort : List ℕ → List ℕ) (h : HistoryTracer)
      → IsSort sort
      → 0 < length h.records
      → length h.records < u64
      → let s = get_stats ceil sort h in
        let lat = latencies h.records in
        (s.total_ops ≡ length h.records)
        × (s.errors ≡ count_if failed h.records)
        × IsPercentile ceil lat 50 s.p50_us
        × IsPercentile ceil lat 95 s.p95_us
        × IsPercentile ceil lat 99 s.p99_us
  unfolding get_stats
  get_stats-ranks ceil sort h is some_ops few =
      let lat = latencies h.records in
      let some_lat : 0 < length lat = omega (arith, length-latencies h.records) in
      let nonzero : (length h.records == 0) ≡ false = ground arith in
      rw (nonzero, get_stats, add_records-lat h.records no_totals)
        (
          refl,
          omega (arith, add_records-errors h.records no_totals (omega arith)),
          percentile ceil sort lat 50 is some_lat,
          percentile ceil sort lat 95 is some_lat,
          percentile ceil sort lat 99 is some_lat,
        )
