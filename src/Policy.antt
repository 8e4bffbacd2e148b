-- ===== src/Policy.antt =====
-- src/meta/policy.h, policy.cpp and the PolicyConfig of src/common/config.h: access rates and
-- tiers of chunks. The clock is an argument; counters of windows are not negative.
pub mod Hysteresis
use final_project_nimbusvaul.Base.{
  ℕ, zero, suc, ◌+◌, ◌-◌, ◌%◌, Bool, true, false, List, [], Option, none, some, Bytes, ltb, leb,
  ◌==◌, if◌then◌else◌, ℤ, pos, to_ℕ, u64,
}
use final_project_nimbusvaul.Base.Table.{Table, find, insert}
use final_project_nimbusvaul.Float.{Floats}

pub data ChunkTier : Type 0 where
  cold warm hot : ChunkTier

-- `enum class` values compare by their number.
unfoldable pub rank : ChunkTier → ℕ
rank cold = 0
rank warm = 1
rank hot = 2

pub record PolicyConfig (F : Type 0) : Type 0 where
  pub cold_threshold : F
  pub hot_threshold : F
  pub cold_rf : ℤ
  pub warm_rf : ℤ
  pub hot_rf : ℤ
  pub ewma_half_life_s : F
  pub promote_windows : ℤ
  pub demote_windows : ℤ

pub record ChunkAccessState (F : Type 0) : Type 0 where
  pub ewma_rate : F
  pub last_window_rate : F
  pub last_update_ms : ℕ
  pub windows_above : ℕ
  pub windows_below : ℕ
  pub tier : ChunkTier
  pub pending_count : ℕ
  pub last_eval_ms : ℕ

pub record PolicyDecision : Type 0 where
  pub chunk_id : Bytes
  pub new_rf : ℤ
  pub new_tier : ChunkTier
  pub changed : Bool

pub record AdaptivePolicy (F : Type 0) : Type 0 where
  pub cfg : PolicyConfig F
  pub state : Table (ChunkAccessState F)

module _ {F : Type 0} where
  unfoldable pub rf_for_tier : PolicyConfig F → ChunkTier → ℤ
  rf_for_tier cfg hot = cfg.hot_rf
  rf_for_tier cfg warm = cfg.warm_rf
  rf_for_tier cfg cold = cfg.cold_rf

  -- The counters and the tier after a window that asks for the tier `desired`, and whether the
  -- tier changed.
  unfoldable pub move_tier :
      PolicyConfig F → ChunkAccessState F → ChunkTier → ChunkAccessState F × Bool
  unfolding rank
  move_tier cfg s desired =
      if ltb (rank s.tier) (rank desired)
      then (if leb (to_ℕ cfg.promote_windows) (s.windows_above + 1)
          then (record s { tier = desired; windows_above = 0; windows_below = 0 }, true)
          else (record s { windows_above = s.windows_above + 1; windows_below = 0 }, false))
      else if ltb (rank desired) (rank s.tier)
      then (if leb (to_ℕ cfg.demote_windows) (s.windows_below + 1)
          then (record s { tier = desired; windows_below = 0; windows_above = 0 }, true)
          else (record s { windows_below = s.windows_below + 1; windows_above = 0 }, false))
      else (record s { windows_above = 0; windows_below = 0 }, false)

module _ {F : Type 0} ⦃fl : Floats F⦄ where
  pub default_config : PolicyConfig F
  default_config = record {
    cold_threshold = fl.decimal 1 1;
    hot_threshold = fl.decimal 1 0;
    cold_rf = pos 2;
    warm_rf = pos 3;
    hot_rf = pos 5;
    ewma_half_life_s = fl.decimal 60 0;
    promote_windows = pos 3;
    demote_windows = pos 5;
  }

  unfoldable pub new_state : ChunkAccessState F
  new_state = record {
    ewma_rate = fl.decimal 0 0;
    last_window_rate = fl.decimal 0 0;
    last_update_ms = 0;
    windows_above = 0;
    windows_below = 0;
    tier = warm;
    pending_count = 0;
    last_eval_ms = 0;
  }

  -- `state_[chunk_id]`, which makes a new state if there is none.
  unfoldable pub state_of : AdaptivePolicy F → Bytes → ChunkAccessState F
  unfolding new_state
  state_of p chunk_id = elim (find chunk_id p.state) [ none ↦ new_state | some s ↦ s ]

  unfoldable pub record_accesses : AdaptivePolicy F → Bytes → ℕ → AdaptivePolicy F
  unfolding state_of
  record_accesses p chunk_id count =
      let s = state_of p chunk_id in
      record p {
        state =
            insert chunk_id (record s { pending_count = (s.pending_count + count) % u64 }) p.state;
      }

  unfoldable pub classify : PolicyConfig F → F → ChunkTier
  classify cfg rate =
      if fl.lt cfg.hot_threshold rate
      then hot
      else if fl.le cfg.cold_threshold rate
      then warm
      else cold

  -- Seconds since the last evaluation, at least a tenth; two at the first.
  unfoldable pub elapsed_s : ChunkAccessState F → ℕ → F
  elapsed_s s now =
      let secs = fl.div (fl.of_nat ((now + u64 - s.last_eval_ms) % u64)) (fl.decimal 1000 0) in
      if ltb 0 s.last_eval_ms
      then (if fl.lt (fl.decimal 1 1) secs then secs else fl.decimal 1 1)
      else fl.decimal 2 0

  unfoldable pub next_ewma : PolicyConfig F → ChunkAccessState F → F → F → F
  next_ewma cfg s window_rate elapsed =
      let alpha = fl.sub (fl.decimal 1 0) (fl.exp_neg (fl.div elapsed cfg.ewma_half_life_s)) in
      if s.last_update_ms == 0
      then window_rate
      else fl.add (fl.mul alpha window_rate) (fl.mul (fl.sub (fl.decimal 1 0) alpha) s.ewma_rate)

  -- The rate of the window that ends now.
  unfoldable pub window_rate : ChunkAccessState F → ℕ → F
  unfolding elapsed_s
  window_rate s now = fl.div (fl.of_nat s.pending_count) (elapsed_s s now)

  unfoldable pub measured : PolicyConfig F → ChunkAccessState F → ℕ → ChunkAccessState F
  unfolding window_rate next_ewma
  measured cfg s now = record s {
    last_window_rate = window_rate s now;
    ewma_rate = next_ewma cfg s (window_rate s now) (elapsed_s s now);
    last_update_ms = now;
    last_eval_ms = now;
    pending_count = 0;
  }

  unfoldable pub evaluate : AdaptivePolicy F → Bytes → ℕ → AdaptivePolicy F × PolicyDecision
  unfolding state_of measured classify move_tier
  evaluate p chunk_id now =
      let s = state_of p chunk_id in
      let desired = classify p.cfg (window_rate s now) in
      let moved = move_tier p.cfg (measured p.cfg s now) desired in
      (
        record p { state = insert chunk_id moved.0 p.state },
        record {
          chunk_id = chunk_id;
          new_rf = rf_for_tier p.cfg desired;
          new_tier = desired;
          changed = moved.1;
        },
      )

  unfoldable pub get_rate : AdaptivePolicy F → Bytes → F
  get_rate p chunk_id = elim (find chunk_id p.state) [
    | none ↦ fl.decimal 0 0
    | some s ↦ s.ewma_rate
  ]
