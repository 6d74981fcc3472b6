-- ===== src/Jitter/Transition/Clock.antt =====
-- The clock of StreamClientInternal.h, as the state machine reads it.
use fastvid.Common.{ℕ, ◌+◌, ◌*◌, ◌%◌, ◌^◌, ◌<◌, ◌≡◌, ◌≢◌, true, leb, if◌then◌else◌, arith}
use fastvid.Float.{Double}
use fastvid.Jitter.{low_latency, smooth, Machine}
use fastvid.Jitter.Transition.{elapsed_ns, step_smooth, evaluate_state_transition}
use fastvid.Internal.{monotonic_now_ns}

-- The reading is the time in nanoseconds, in 64 bits.
monotonic_now_ns-eq : (s n : ℕ) → monotonic_now_ns s n ≡ (s * 1000000000 + n) % 2 ^ 64
unfolding monotonic_now_ns
monotonic_now_ns-eq s n = omega arith

elapsed_ns-monotonic_now_ns :
    (s n s' n' t : ℕ)
    → s' * 1000000000 + n' ≡ s * 1000000000 + n + t
    → t < 2 ^ 64
    → elapsed_ns (monotonic_now_ns s' n') (monotonic_now_ns s n) ≡ t
elapsed_ns-monotonic_now_ns s n s' n' t later short =
    omega (arith, monotonic_now_ns-eq s n, monotonic_now_ns-eq s' n')

module _ {W : Type 0} ⦃d : Double W⦄ where
  -- In the smooth mode, if the member was set from a reading of the clock that was not 0, the time `t` since then is below
  -- 2 ^ 64 ns and the 95th percentile is below 5 ms, then `EvaluateStateTransition` goes
  -- to low latency at the new reading exactly where `t` is 3 s or more, also where the readings
  -- have wrapped around between the two.
  pub evaluate_state_transition_clock :
      (p95 jitter_ms : W) (s n s' n' t : ℕ) (m : Machine)
      → s' * 1000000000 + n' ≡ s * 1000000000 + n + t
      → t < 2 ^ 64
      → m.active_mode ≡ smooth
      → m.smooth_low_p95_since_ns ≡ monotonic_now_ns s n
      → monotonic_now_ns s n ≢ 0
      → d.lt p95 (d.decimal 50 1) ≡ true
      → (evaluate_state_transition p95 jitter_ms (monotonic_now_ns s' n') m).active_mode
        ≡ (if leb 3000000000 t then low_latency else smooth)
  unfolding evaluate_state_transition step_smooth
  evaluate_state_transition_clock p95 jitter_ms s n s' n' t m later short mode since running below =
      ground (arith, elapsed_ns-monotonic_now_ns s n s' n' t later short)
