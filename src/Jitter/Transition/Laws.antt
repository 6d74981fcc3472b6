-- ===== src/Jitter/Transition/Laws.antt =====
-- When the state machine changes its mode, and what it keeps.
use fastvid.Common.{ℕ, ◌<◌, ◌≡◌, refl, arith}
use fastvid.Float.{Double}
use fastvid.Jitter.{Mode, bypass, low_latency, smooth, Machine}
use fastvid.Jitter.Transition.{
  step_bypass, step_low_latency, step_smooth, evaluate_state_transition,
}

-- The counters stay below the thresholds that reset them.
pub record IsCounting (m : Machine) : Type 0 where
  pub high_below : m.consecutive_high_jitter < 10
  pub low_below : m.consecutive_low_jitter < 20

-- One mode is next to the other, or the same.
abbrev pub IsAdjacent : Mode → Mode → Type 0
IsAdjacent bypass smooth = ⊥
IsAdjacent smooth bypass = ⊥
IsAdjacent _ _ = Unit {0}

module _ {W : Type 0} ⦃d : Double W⦄ where
  by_mode-IsCounting :
      (mode : Mode) (p95 jitter_ms : W) (now_ns : ℕ) (m : Machine)
      → m.active_mode ≡ mode
      → IsCounting m
      → IsCounting (evaluate_state_transition p95 jitter_ms now_ns m)
        × IsAdjacent mode (evaluate_state_transition p95 jitter_ms now_ns m).active_mode
  unfolding evaluate_state_transition step_bypass step_low_latency step_smooth
  by_mode-IsCounting bypass p95 jitter_ms now_ns m e c = ground arith
  by_mode-IsCounting low_latency p95 jitter_ms now_ns m e c = ground arith
  by_mode-IsCounting smooth p95 jitter_ms now_ns m e c = ground arith

  -- Whatever is measured, the counters stay below their thresholds, and the mode changes to the next
  -- one at most: never between bypass and smooth directly.
  pub evaluate-IsCounting :
      (p95 jitter_ms : W) (now_ns : ℕ) (m : Machine)
      → IsCounting m
      → let m' = evaluate_state_transition p95 jitter_ms now_ns m in
        IsCounting m' × IsAdjacent m.active_mode m'.active_mode
  evaluate-IsCounting p95 jitter_ms now_ns m c =
      by_mode-IsCounting m.active_mode p95 jitter_ms now_ns m refl c
