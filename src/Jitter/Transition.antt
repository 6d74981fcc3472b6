-- ===== src/Jitter/Transition.antt =====
-- `EvaluateStateTransition`, one function for each case of its switch.
pub mod Laws
pub mod Run
pub mod Dwell
pub mod Clock
pub mod Ramp
use fastvid.Common.{ℕ, ◌+◌, ◌-◌, ◌%◌, ◌^◌, Bool, true, false, not, leb, ltb, ◌==◌, if◌then◌else◌}
use fastvid.Float.{Double, gt}
use fastvid.Jitter.{Mode, bypass, low_latency, smooth, Machine}

-- `now_ns - since` in uint64_t.
abbrev pub elapsed_ns : ℕ → ℕ → ℕ
elapsed_ns now_ns since = (now_ns + 2 ^ 64 - since) % 2 ^ 64

-- The part of a mode change that the transitions share.
abbrev pub enter : Mode → Machine → Machine
enter mode m = record m {
  active_mode = mode;
  consecutive_high_jitter = 0;
  consecutive_low_jitter = 0;
}

module _ {W : Type 0} ⦃d : Double W⦄ where
  -- `case JitterBufferMode::kBypass`
  unfoldable pub step_bypass : W → Machine → Machine
  step_bypass jitter_ms m =
      let high = if gt jitter_ms (d.decimal 10 1) then m.consecutive_high_jitter + 1 else 0 in
      if leb 10 high
      then record (enter low_latency m) { low_to_smooth_p95_exceeded = false }
      else record m { consecutive_high_jitter = high }

  -- `case JitterBufferMode::kLowLatency`
  unfoldable pub step_low_latency : W → W → Machine → Machine
  step_low_latency jitter_ms p95 m =
      let low = if d.lt jitter_ms (d.decimal 5 1) then m.consecutive_low_jitter + 1 else 0 in
      let counted = record m { consecutive_low_jitter = low } in
      if leb 20 low
      then enter bypass m
      else (if gt p95 (d.decimal 100 1)
          then (if not m.low_to_smooth_p95_exceeded
              then record counted { low_to_smooth_p95_exceeded = true }
              else record (enter smooth m) {
                low_to_smooth_p95_exceeded = false;
                smooth_low_p95_since_ns = 0;
              })
          else record counted { low_to_smooth_p95_exceeded = false })

  -- `case JitterBufferMode::kSmooth`
  unfoldable pub step_smooth : W → ℕ → Machine → Machine
  step_smooth p95 now_ns m =
      if d.lt p95 (d.decimal 50 1)
      then (if m.smooth_low_p95_since_ns == 0
          then record m { smooth_low_p95_since_ns = now_ns }
          else (if leb 3000000000 (elapsed_ns now_ns m.smooth_low_p95_since_ns)
              then record (enter low_latency m) {
                low_to_smooth_p95_exceeded = false;
                smooth_low_p95_since_ns = 0;
              }
              else m))
      else record m { smooth_low_p95_since_ns = 0 }

  -- The switch, with the 95th percentile that the function reads first.
  unfoldable pub evaluate_state_transition : W → W → ℕ → Machine → Machine
  evaluate_state_transition p95 jitter_ms now_ns m = elim m.active_mode [
    | bypass ↦ step_bypass jitter_ms m
    | low_latency ↦ step_low_latency jitter_ms p95 m
    | smooth ↦ step_smooth p95 now_ns m
  ]
