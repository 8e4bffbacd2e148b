-- ===== src/Workload/Chunks.antt =====
-- Which chunk a round of the load generator picks.
use final_project_nimbusvaul.Base.{
  ℕ, zero, suc, ◌+◌, ◌≤◌, ◌<◌, ◌≡◌, refl, ap, ◌∙◌, Bool, true, false, Option, none, some, Bytes,
  codes, same, ltb, lt→ltb, le→ltb-false, arith, if◌then◌else◌, length, get_elem?, ◌⊎◌, inl, inr,
  if_elim, subst, ℤ, pos, negsuc,
}
use final_project_nimbusvaul.Float.{Floats}
use final_project_nimbusvaul.Workload.{
  WorkloadConfig, Powers, WorkloadGen, Draws, generator, at_least_one, chunk_name, chunk_names,
  cold_of, weight, zipf_loop, zipf_sample, chunk_at, ranked, pick_chunk,
}

length-chunk_names : (n i : ℕ) → length (chunk_names n i) ≡ n
unfolding chunk_names
length-chunk_names zero i = refl
length-chunk_names (suc n) i = ap suc (length-chunk_names n (suc i))

chunk_names-at : (n i k : ℕ) → k < n → get_elem? (chunk_names n i) k ≡ some (chunk_name (i + k))
unfolding chunk_names
chunk_names-at zero i k h = absurd (omega arith)
chunk_names-at (suc n) i zero h = ap (λ m. some (chunk_name m)) (omega arith)
chunk_names-at (suc n) i (suc k) h =
    chunk_names-at n (suc i) k (omega arith) ∙ ap (λ m. some (chunk_name m)) (omega arith)

named : (n i : ℕ) → i < n → get_elem? (chunk_names n 0) i ≡ some (chunk_name i)
named n i h = chunk_names-at n 0 i h ∙ ap (λ m. some (chunk_name m)) (omega arith)

chunk_names-beyond : (n i k : ℕ) → n ≤ k → get_elem? (chunk_names n i) k ≡ none
unfolding chunk_names
chunk_names-beyond zero i k h = refl
chunk_names-beyond (suc n) i zero h = absurd (omega arith)
chunk_names-beyond (suc n) i (suc k) h = chunk_names-beyond n (suc i) k (omega arith)

cold_fits : (n hot : ℕ) → hot < n → (0 < cold_of n hot) × (hot + cold_of n hot ≡ n)
unfolding cold_of
cold_fits n hot h = (ground arith, ground arith)

pub at_least_one_pos : (z : ℤ) → 0 < at_least_one z
unfolding at_least_one
at_least_one_pos (pos zero) = omega arith
at_least_one_pos (pos (suc n)) = omega arith
at_least_one_pos (negsuc n) = omega arith

abbrev pub tier_of : ℕ → ℕ → Bytes
tier_of hot i = if ltb i hot then codes "hot" else codes "cold"

module _ {F : Type 0} ⦃fl : Floats F⦄ ⦃powers : Powers F⦄ where
  zipf_bound :
      (theta target : F) (last n i : ℕ) (c : F)
      → i + n ≤ suc last
      → zipf_loop theta target last n i c ≤ last
  unfolding zipf_loop
  zipf_bound theta target last zero i c h = omega arith
  zipf_bound theta target last (suc n) i c h =
      let sum = fl.add c (weight theta (suc i)) in
      if_elim (λ k. k ≤ last) (fl.le target sum) _ _ (λ e. omega arith)
        (λ e. zipf_bound theta target last n (suc i) sum (omega arith))

  -- A chunk with the index, and the tier that goes with its rank.
  abbrev pub IsPick : WorkloadGen F → ℕ → Option (Bytes × Bytes) → Type 0
  IsPick g n picked = (i : ℕ) × (i < n) × (picked ≡ some (chunk_name i, tier_of g.hot_count i))

  chunk_at-IsPick :
      (cfg : WorkloadConfig F) (n i : ℕ)
      → i < n
      → IsPick
          (generator cfg n)
          n
          (chunk_at (generator cfg n) i (tier_of (generator cfg n).hot_count i))
  unfolding generator chunk_at
  chunk_at-IsPick cfg n i h =
      let found : get_elem? (generator cfg n).chunk_ids i ≡ some (chunk_name i) = named n i h in
      (i, h, rw (found, chunk_at) refl)

  ranked-IsPick :
      (cfg : WorkloadConfig F) (n i : ℕ)
      → i < n
      → IsPick (generator cfg n) n (ranked (generator cfg n) (some i))
  unfolding ranked
  ranked-IsPick cfg n i h = chunk_at-IsPick cfg n i h

  zipf-IsPick :
      (cfg : WorkloadConfig F) (n : ℕ) (theta h u : F)
      → 0 < n
      → IsPick (generator cfg n) n (ranked (generator cfg n) (zipf_sample n theta h u))
  unfolding zipf_sample
  zipf-IsPick cfg zero theta h u some_chunk = absurd (omega arith)
  zipf-IsPick cfg (suc n) theta h u some_chunk =
      ranked-IsPick cfg (suc n) _
        (omega (arith, zipf_bound theta (fl.mul u h) n (suc n) 0 (fl.decimal 0 0) (omega arith)))

  biased-IsPick :
      (cfg : WorkloadConfig F) (n : ℕ) (d : Draws F)
      → ((k : ℕ) → 0 < k → d.below k < k)
      → (generator cfg n).hot_count < n
      → let g = generator cfg n in
        IsPick g n (
          if fl.lt d.unit g.cfg.hot_read_weight
          then chunk_at g (d.below g.hot_count) (codes "hot")
          else chunk_at g (g.hot_count + d.below g.cold_count) (codes "cold"))
  unfolding generator
  biased-IsPick cfg n d drawn fits =
      let g = generator cfg n in
      let hot = g.hot_count in
      let some_hot : 0 < hot = at_least_one_pos _ in
      let drawn_hot = drawn hot some_hot in
      let (some_cold, whole) = cold_fits n hot fits in
      let drawn_cold = drawn g.cold_count some_cold in
      if_elim (IsPick g n) (fl.lt d.unit g.cfg.hot_read_weight) _ _
        (λ e.
          subst
            (λ b. IsPick g n (chunk_at g (d.below hot) (if b then codes "hot" else codes "cold")))
            (lt→ltb (d.below hot) hot drawn_hot)
            (chunk_at-IsPick cfg n (d.below hot) (omega arith)))
        (λ e.
          subst
            (λ b.
              IsPick g n
                (chunk_at g (hot + d.below g.cold_count) (if b then codes "hot" else codes "cold")))
            (le→ltb-false (hot + d.below g.cold_count) hot (omega arith))
            (chunk_at-IsPick cfg n (hot + d.below g.cold_count) (omega arith)))

  -- A round picks a chunk of the generator, under the tier that goes with its rank. There is a
  -- chunk, indices are drawn below their bound, and for the hot and cold distribution not all chunks are hot.
  pub pick_chunk-IsPick :
      (cfg : WorkloadConfig F) (n : ℕ) (d : Draws F)
      → 0 < n
      → ((k : ℕ) → 0 < k → d.below k < k)
      → (same cfg.distribution (codes "zipfian") ≡ true)
        ⊎ (same cfg.distribution (codes "uniform") ≡ true)
        ⊎ ((generator cfg n).hot_count < n)
      → IsPick (generator cfg n) n (pick_chunk (generator cfg n) d)
  unfolding pick_chunk generator
  pick_chunk-IsPick cfg n d some_chunk drawn fits =
      let g = generator cfg n in
      let size = length-chunk_names n 0 in
      if_elim (IsPick g n) (same cfg.distribution (codes "zipfian")) _ _
        (λ e. rw size (zipf-IsPick cfg n g.cfg.zipf_theta g.zipf_h d.unit some_chunk))
        (λ not_zipf.
          if_elim (IsPick g n) (same cfg.distribution (codes "uniform")) _ _
            (λ e. rw size (ranked-IsPick cfg n (d.below n) (drawn n some_chunk)))
            (λ not_uniform. biased-IsPick cfg n d drawn (hot_below fits not_zipf not_uniform)))
    where
      hot_below :
          {P : Type 0} {a b : Bool} → (a ≡ true) ⊎ (b ≡ true) ⊎ P → a ≡ false → b ≡ false → P
      hot_below (inl e) na nb = absurd (cc)
      hot_below (inr (inl e)) na nb = absurd (cc)
      hot_below (inr (inr p)) na nb = p

  -- The hot and cold distribution with every chunk hot: a round that draws a cold chunk reads
  -- behind the end of the list of chunks.
  pub pick_chunk-overruns :
      (cfg : WorkloadConfig F) (n : ℕ) (d : Draws F)
      → n ≤ (generator cfg n).hot_count
      → same cfg.distribution (codes "zipfian") ≡ false
      → same cfg.distribution (codes "uniform") ≡ false
      → fl.lt d.unit cfg.hot_read_weight ≡ false
      → pick_chunk (generator cfg n) d ≡ none
  unfolding pick_chunk generator chunk_at
  pick_chunk-overruns cfg n d all_hot not_zipf not_uniform cold =
      let g = generator cfg n in
      let i = g.hot_count + d.below g.cold_count in
      let beyond : get_elem? g.chunk_ids i ≡ none = chunk_names-beyond n 0 i (omega arith) in
      let outside : chunk_at g i (codes "cold") ≡ none = rw (beyond, chunk_at) refl in
      rw (not_zipf, not_uniform, cold) outside
