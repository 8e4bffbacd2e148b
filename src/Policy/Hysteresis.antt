-- ===== src/Policy/Hysteresis.antt =====
-- Tiers change only after enough windows in a row on one side.
use final_project_nimbusvaul.Base.{
  ℕ, ◌+◌, ◌<◌, ◌≤◌, ◌≡◌, refl, true, false, List, [], ◌∷◌, some, Bytes, to_ℕ, arith, All, length,
  ◌%◌, u64, ◌∙◌, same_refl, lt→ltb, le→ltb-false, lt→leb-false, le→leb, ap, sym, subst,
}
use final_project_nimbusvaul.Base.Table.{Table, find, insert, find-insert}
use final_project_nimbusvaul.Float.{Floats}
use final_project_nimbusvaul.Policy.{
  ChunkTier, rank, PolicyConfig, ChunkAccessState, AdaptivePolicy, rf_for_tier, move_tier, state_of,
  classify, window_rate, elapsed_s, measured, evaluate, record_accesses, PolicyDecision,
}

module _ {F : Type 0} where
  -- A run of windows, each with the tier it asks for.
  unfoldable pub move_tiers :
      PolicyConfig F → ChunkAccessState F → List ChunkTier → ChunkAccessState F
  move_tiers cfg s [] = s
  move_tiers cfg s (d ∷ ds) = move_tiers cfg (move_tier cfg s d).0 ds

  module _ (cfg : PolicyConfig F) where
    up_one :
        (s : ChunkAccessState F) (d : ChunkTier)
        → rank s.tier < rank d
        → s.windows_above + 1 < to_ℕ cfg.promote_windows
        → (move_tier cfg s d).0
          ≡ record s { windows_above = s.windows_above + 1; windows_below = 0 }
    unfolding move_tier
    up_one s d h few = rw (lt→ltb _ _ h, lt→leb-false _ _ few)

    down_one :
        (s : ChunkAccessState F) (d : ChunkTier)
        → rank d < rank s.tier
        → s.windows_below + 1 < to_ℕ cfg.demote_windows
        → (move_tier cfg s d).0
          ≡ record s { windows_below = s.windows_below + 1; windows_above = 0 }
    unfolding move_tier
    down_one s d h few =
        rw (le→ltb-false (rank s.tier) (rank d) (omega arith), lt→ltb _ _ h, lt→leb-false _ _ few)

    up_last :
        (s : ChunkAccessState F) (d : ChunkTier)
        → rank s.tier < rank d
        → to_ℕ cfg.promote_windows ≤ s.windows_above + 1
        → move_tier cfg s d ≡ (record s { tier = d; windows_above = 0; windows_below = 0 }, true)
    unfolding move_tier
    up_last s d h few = rw (lt→ltb _ _ h, le→leb _ _ few)

    down_last :
        (s : ChunkAccessState F) (d : ChunkTier)
        → rank d < rank s.tier
        → to_ℕ cfg.demote_windows ≤ s.windows_below + 1
        → move_tier cfg s d ≡ (record s { tier = d; windows_below = 0; windows_above = 0 }, true)
    unfolding move_tier
    down_last s d h few =
        rw (le→ltb-false (rank s.tier) (rank d) (omega arith), lt→ltb _ _ h, le→leb _ _ few)

    -- Through the windows `ds` the tier is `old`, and the window `d` then changes it to `d`.
    abbrev pub Moved : ChunkTier → ChunkTier → List ChunkTier → ChunkAccessState F → Type 0
    Moved old d ds s =
        ((move_tiers cfg s ds).tier ≡ old)
        × ((move_tier cfg (move_tiers cfg s ds) d).1 ≡ true)
        × ((move_tier cfg (move_tiers cfg s ds) d).0.tier ≡ d)

    -- A run of windows above the tier that starts with no such window counted: the tier stays while
    -- they are fewer than promotion wants, and the window that completes the number moves the tier
    -- to what that window asks for.
    pub promotion_exact :
        (s : ChunkAccessState F) (ds : List ChunkTier) (d : ChunkTier)
        → All (λ x. rank s.tier < rank x) ds
        → rank s.tier < rank d
        → s.windows_above + length ds + 1 ≡ to_ℕ cfg.promote_windows
        → Moved s.tier d ds s
    unfolding move_tiers
    promotion_exact s [] d above h few =
        let e = up_last s d h (omega arith) in (refl, ap (λ p. p.1) e, ap (λ p. p.0.tier) e)
    promotion_exact s (x ∷ ds) d above h few =
        let s' : ChunkAccessState F = record s {
          windows_above = s.windows_above + 1;
          windows_below = 0;
        } in
        subst (Moved s.tier d ds) (sym (up_one s x above.0 (omega arith)))
          (promotion_exact s' ds d above.1 h (omega arith))

    -- The same for windows below the tier.
    pub demotion_exact :
        (s : ChunkAccessState F) (ds : List ChunkTier) (d : ChunkTier)
        → All (λ x. rank x < rank s.tier) ds
        → rank d < rank s.tier
        → s.windows_below + length ds + 1 ≡ to_ℕ cfg.demote_windows
        → Moved s.tier d ds s
    unfolding move_tiers
    demotion_exact s [] d below h few =
        let e = down_last s d h (omega arith) in (refl, ap (λ p. p.1) e, ap (λ p. p.0.tier) e)
    demotion_exact s (x ∷ ds) d below h few =
        let s' : ChunkAccessState F = record s {
          windows_below = s.windows_below + 1;
          windows_above = 0;
        } in
        subst (Moved s.tier d ds) (sym (down_one s x below.0 (omega arith)))
          (demotion_exact s' ds d below.1 h (omega arith))

    -- The tier changes exactly when the result says so, and then to the tier asked for.
    pub move_tier_changed :
        (s : ChunkAccessState F) (d : ChunkTier)
        → ((move_tier cfg s d).1 ≡ true → (move_tier cfg s d).0.tier ≡ d)
          × ((move_tier cfg s d).1 ≡ false → (move_tier cfg s d).0.tier ≡ s.tier)
    unfolding move_tier
    move_tier_changed s d = ground arith

  kept-move_tier :
      (cfg : PolicyConfig F) (s : ChunkAccessState F) (d : ChunkTier)
      → ((move_tier cfg s d).0.pending_count ≡ s.pending_count)
        × ((move_tier cfg s d).0.last_window_rate ≡ s.last_window_rate)
  unfolding move_tier
  kept-move_tier cfg s d = ground arith

unfoldable pub sum : List ℕ → ℕ
sum [] = 0
sum (n ∷ ns) = n + sum ns

module _ {F : Type 0} ⦃fl : Floats F⦄ where
  find-insert_self :
      (k : Bytes) (v : ChunkAccessState F) (t : Table (ChunkAccessState F))
      → find k (insert k v t) ≡ some v
  find-insert_self k v t = rw (find-insert k k v t, same_refl k)

  -- The accesses of a window, in the reports that bring them.
  unfoldable pub record_all : AdaptivePolicy F → Bytes → List ℕ → AdaptivePolicy F
  record_all p id [] = p
  record_all p id (count ∷ counts) = record_all (record_accesses p id count) id counts

  state_of-record_accesses :
      (p : AdaptivePolicy F) (id : Bytes) (count : ℕ)
      → (state_of p id).pending_count + count < u64
      → state_of (record_accesses p id count) id
        ≡ record (state_of p id) { pending_count = (state_of p id).pending_count + count }
  unfolding record_accesses state_of
  state_of-record_accesses p id count fits =
      let s = state_of p id in
      let counted = λ (n : ℕ). record s { pending_count = n } in
      let small : (s.pending_count + count) % u64 ≡ s.pending_count + count = omega (arith, fits) in
      rw
        (
          find-insert_self id (counted ((s.pending_count + count) % u64)) p.state,
          state_of,
          record_accesses,
        )
        (ap counted small)

  -- Reports of accesses add up in the pending count, as long as they fit, and change nothing else
  -- of the chunk.
  state_of-record_all :
      (p : AdaptivePolicy F) (id : Bytes) (counts : List ℕ)
      → (state_of p id).pending_count + sum counts < u64
      → (state_of (record_all p id counts) id
          ≡ record (state_of p id) { pending_count = (state_of p id).pending_count + sum counts })
        × ((record_all p id counts).cfg ≡ p.cfg)
  unfolding record_all sum
  state_of-record_all p id [] fits =
      let s = state_of p id in
      let same_count : s.pending_count ≡ s.pending_count + 0 = omega arith in
      (ap (λ n. record s { pending_count = n }) same_count, refl)
  state_of-record_all p id (count ∷ counts) fits =
      let s = state_of p id in
      let one = state_of-record_accesses p id count (omega (arith, fits)) in
      let n = ap (λ (x : ChunkAccessState F). x.pending_count) one in
      let (rest, same_cfg) =
        state_of-record_all (record_accesses p id count) id counts (omega (arith, fits, n)) in
      let total : s.pending_count + count + sum counts ≡ s.pending_count + (count + sum counts) =
        omega arith in
      (
        rest
            ∙ ap
                (λ (x : ChunkAccessState F). record x {
                  pending_count = x.pending_count + sum counts;
                })
                one
            ∙ ap (λ m. record s { pending_count = m }) total,
        same_cfg ∙ unfold record_accesses in refl,
      )

  -- What an evaluation makes of the state `before` of a chunk: the rate of the window is the number
  -- of pending accesses over the time since the last evaluation; the decision has the tier of that
  -- rate and the tier's replication factor; the chunk goes to that tier if the decision says so and
  -- else keeps its own; and no access stays pending.
  abbrev pub Decided :
      PolicyConfig F → Bytes → ℕ → ChunkAccessState F → ChunkAccessState F → PolicyDecision → Type 0
  Decided cfg id now before after dec =
      let rate = fl.div (fl.of_nat before.pending_count) (elapsed_s before now) in
      (after.last_window_rate ≡ rate)
      × (dec.chunk_id ≡ id)
      × (dec.new_tier ≡ classify cfg rate)
      × (dec.new_rf ≡ rf_for_tier cfg dec.new_tier)
      × (dec.changed ≡ true → after.tier ≡ dec.new_tier)
      × (dec.changed ≡ false → after.tier ≡ before.tier)
      × (after.pending_count ≡ 0)

  evaluate-Decided :
      (p : AdaptivePolicy F) (id : Bytes) (now : ℕ)
      → Decided p.cfg id now
          (state_of p id)
          (state_of (evaluate p id now).0 id)
          (evaluate p id now).1
  unfolding evaluate state_of measured window_rate
  evaluate-Decided p id now =
      let s = measured p.cfg (state_of p id) now in
      let d = classify p.cfg (window_rate (state_of p id) now) in
      let stored = find-insert_self id (move_tier p.cfg s d).0 p.state in
      let (up, same_tier) = move_tier_changed p.cfg s d in
      let (idle, rated) = kept-move_tier p.cfg s d in
      rw (stored, state_of) (rated, refl, refl, refl, up, same_tier, idle)

  -- Accesses are reported for a chunk in any number of parts, which with those pending before fit
  -- 64 bits, and the chunk is then evaluated: the window's rate is that of all these accesses
  -- together over the time since the last evaluation, and the decision has the tier of that rate,
  -- with the tier's replication factor. The chunk goes to that tier if the decision says that it
  -- changed, and else keeps the tier it had. The accesses are counted once: none is pending after.
  pub evaluate_decision :
      (p : AdaptivePolicy F) (id : Bytes) (counts : List ℕ) (now : ℕ)
      → (state_of p id).pending_count + sum counts < u64
      → let told = record_all p id counts in
        Decided p.cfg id now
          (record (state_of p id) { pending_count = (state_of p id).pending_count + sum counts })
          (state_of (evaluate told id now).0 id)
          (evaluate told id now).1
  evaluate_decision p id counts now fits =
      let told = record_all p id counts in
      let after = state_of (evaluate told id now).0 id in
      let dec = (evaluate told id now).1 in
      let (summed, same_cfg) = state_of-record_all p id counts fits in
      subst (λ s. Decided p.cfg id now s after dec) summed
        (subst (λ cfg. Decided cfg id now (state_of told id) after dec) same_cfg
          (evaluate-Decided told id now))
