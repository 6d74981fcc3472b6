-- ===== src/Jitter/Transition/Ramp.antt =====
-- The machine under measurements that are high without a break.
use fastvid.Common.{
  All, ℕ, ◌+◌, ◌≡◌, ap, ◌∙◌, true, false, List, [], ◌∷◌, arith, length, ltb, ◌==◌, if◌then◌else◌,
}
use fastvid.Float.{Double, gt}
use fastvid.Jitter.{Mode, bypass, low_latency, smooth, Machine}
use fastvid.Jitter.Transition.{
  step_bypass, step_low_latency, step_smooth, evaluate_state_transition,
}
use fastvid.Jitter.Transition.Run.{Measurement, run}

-- The machine after `n` high measurements, from its initial state on.
abbrev pub ramp_mode : ℕ → Mode
ramp_mode n = if ltb n 10 then bypass else (if ltb n 12 then low_latency else smooth)

abbrev pub ramped : ℕ → Machine
ramped n = record {
  active_mode = ramp_mode n;
  consecutive_high_jitter = if ltb n 10 then n else 0;
  consecutive_low_jitter = 0;
  low_to_smooth_p95_exceeded = n == 11;
  smooth_low_p95_since_ns = 0;
}

module _ {W : Type 0} ⦃d : Double W⦄ where
  -- High by every test of the machine: the jitter above 1 ms and not below 0.5 ms, the 95th
  -- percentile above 10 ms and not below 5 ms.
  abbrev pub IsHigh : Measurement W → Type 0
  IsHigh x =
      (gt x.jitter_ms (d.decimal 10 1) ≡ true)
      × (d.lt x.jitter_ms (d.decimal 5 1) ≡ false)
      × (gt x.p95 (d.decimal 100 1) ≡ true)
      × (d.lt x.p95 (d.decimal 50 1) ≡ false)

  ramp_step :
      (n : ℕ) (x : Measurement W)
      → IsHigh x
      → evaluate_state_transition x.p95 x.jitter_ms x.now_ns (ramped n) ≡ ramped (n + 1)
  unfolding evaluate_state_transition step_bypass step_low_latency step_smooth
  ramp_step n x h = ground arith

  pub ramp_run :
      (n : ℕ) (xs : List (Measurement W))
      → All IsHigh xs
      → run xs (ramped n) ≡ ramped (n + length xs)
  unfolding run
  ramp_run n [] h = ap ramped (omega arith)
  ramp_run n (x ∷ xs) (h, hs) =
      ap (run xs) (ramp_step n x h) ∙ ramp_run (n + 1) xs hs ∙ ap ramped (omega arith)
