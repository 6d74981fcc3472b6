-- ===== src/Jitter/Transition/Dwell.antt =====
-- How long the machine dwells in low-latency and in smooth mode.
use fastvid.Common.{
  All, ℕ, ◌+◌, ◌≤◌, ◌<◌, ◌≡◌, ◌≢◌, refl, ap, ◌∙◌, true, false, List, [], ◌∷◌, arith, length, leb,
  ltb, dec_lt, ◌&&◌, if◌then◌else◌,
}
use fastvid.Float.{Double, gt}
use fastvid.Jitter.{bypass, low_latency, smooth, Machine}
use fastvid.Jitter.Transition.{
  elapsed_ns, step_low_latency, step_smooth, evaluate_state_transition, enter,
}
use fastvid.Jitter.Transition.Run.{Measurement, run}

-- What a run of low measurements leaves, with those counted before.
abbrev pub IsLowRun : ℕ → Machine → Machine → Type 0
IsLowRun count m m' =
    (m'.active_mode ≡ (if ltb count 20 then low_latency else bypass))
    × (m'.consecutive_low_jitter ≡ (if ltb count 20 then count else 0))
    × (m'.consecutive_high_jitter ≡ (if ltb count 20 then m.consecutive_high_jitter else 0))

module _ {W : Type 0} ⦃d : Double W⦄ where
  -- `jitter_ms < 0.5`, with the 95th percentile not above 10.
  abbrev pub IsLow : Measurement W → Type 0
  IsLow x = (d.lt x.jitter_ms (d.decimal 5 1) ≡ true) × (gt x.p95 (d.decimal 100 1) ≡ false)

  -- `p95 < 5.0`, less than 3 seconds after `since`.
  abbrev pub IsWaiting : ℕ → Measurement W → Type 0
  IsWaiting since x =
      (d.lt x.p95 (d.decimal 50 1) ≡ true) × (elapsed_ns x.now_ns since < 3000000000)

  -- `p95 < 5.0`
  abbrev pub IsCalm : Measurement W → Type 0
  IsCalm x = d.lt x.p95 (d.decimal 50 1) ≡ true

  waiting_step :
      (x : Measurement W) (m : Machine)
      → m.active_mode ≡ smooth
      → m.smooth_low_p95_since_ns ≢ 0
      → IsWaiting m.smooth_low_p95_since_ns x
      → evaluate_state_transition x.p95 x.jitter_ms x.now_ns m ≡ m
  unfolding evaluate_state_transition step_smooth
  waiting_step x m e since h = ground arith

  waiting_run :
      (xs : List (Measurement W)) (m : Machine)
      → m.active_mode ≡ smooth
      → m.smooth_low_p95_since_ns ≢ 0
      → All (IsWaiting m.smooth_low_p95_since_ns) xs
      → run xs m ≡ m
  unfolding run
  waiting_run [] m e since h = refl
  waiting_run (x ∷ xs) m e since (h, hs) =
      rw (waiting_step x m e since h) (waiting_run xs m e since hs)

  -- A measurement that is not calm forgets an earlier time, and the first calm one after it sets its
  -- own.
  calm_start :
      (b y : Measurement W) (m : Machine)
      → m.active_mode ≡ smooth
      → d.lt b.p95 (d.decimal 50 1) ≡ false
      → IsCalm y
      → run (b ∷ y ∷ []) m ≡ record m { smooth_low_p95_since_ns = y.now_ns }
  unfolding run evaluate_state_transition step_smooth
  calm_start b y m e rough calm = ground arith

  calm_window :
      (b y : Measurement W) (ys : List (Measurement W)) (m : Machine)
      → m.active_mode ≡ smooth
      → d.lt b.p95 (d.decimal 50 1) ≡ false
      → IsCalm y
      → y.now_ns ≢ 0
      → All (IsWaiting y.now_ns) ys
      → run (b ∷ y ∷ ys) m ≡ record m { smooth_low_p95_since_ns = y.now_ns }
  unfolding run
  calm_window b y ys m e rough calm some_time h =
      ap (run ys) (calm_start b y m e rough calm)
      ∙ waiting_run ys (record m { smooth_low_p95_since_ns = y.now_ns }) e some_time h

  last_step :
      (x : Measurement W) (since : ℕ) (m : Machine)
      → m.active_mode ≡ smooth
      → since ≢ 0
      → (run (x ∷ []) (record m { smooth_low_p95_since_ns = since })).active_mode ≡ (
          if d.lt x.p95 (d.decimal 50 1) && leb 3000000000 (elapsed_ns x.now_ns since)
          then low_latency
          else smooth)
  unfolding run evaluate_state_transition step_smooth
  last_step x since m e some_time = ground arith

  -- In smooth mode, whatever was measured before: a measurement with the 95th percentile not below
  -- 5 ms, then one below 5 ms, at the reading `t` of the clock, which is not 0, and any number of
  -- others below 5 ms, less than 3 s after `t`, all keep the mode, and so does the next one, unless
  -- it is below 5 ms and 3 s after `t` or later: exactly then the mode becomes low latency.
  pub smooth_run :
      (b y x : Measurement W) (ys : List (Measurement W)) (m : Machine)
      → m.active_mode ≡ smooth
      → d.lt b.p95 (d.decimal 50 1) ≡ false
      → IsCalm y
      → y.now_ns ≢ 0
      → All (IsWaiting y.now_ns) ys
      → let m' = run (b ∷ y ∷ ys) m in
        (m'.active_mode ≡ smooth)
        × ((run (x ∷ []) m').active_mode ≡ (
            if d.lt x.p95 (d.decimal 50 1) && leb 3000000000 (elapsed_ns x.now_ns y.now_ns)
            then low_latency
            else smooth))
  smooth_run b y x ys m e rough calm some_time h =
      rw (calm_window b y ys m e rough calm some_time h) (e, last_step x y.now_ns m e some_time)

  low_step :
      (x : Measurement W) (m : Machine)
      → m.active_mode ≡ low_latency
      → IsLow x
      → m.consecutive_low_jitter < 19
      → evaluate_state_transition x.p95 x.jitter_ms x.now_ns m ≡ record m {
        consecutive_low_jitter = m.consecutive_low_jitter + 1;
        low_to_smooth_p95_exceeded = false;
      }
  unfolding evaluate_state_transition step_low_latency
  low_step x m e h lt = ground arith

  last_low_step :
      (x : Measurement W) (m : Machine)
      → m.active_mode ≡ low_latency
      → IsLow x
      → m.consecutive_low_jitter ≡ 19
      → evaluate_state_transition x.p95 x.jitter_ms x.now_ns m ≡ enter bypass m
  unfolding evaluate_state_transition step_low_latency
  last_low_step x m e h last = ground arith

  low_run :
      (xs : List (Measurement W)) (m : Machine)
      → m.active_mode ≡ low_latency
      → All IsLow xs
      → m.consecutive_low_jitter < 20
      → m.consecutive_low_jitter + length xs ≤ 20
      → IsLowRun (m.consecutive_low_jitter + length xs) m (run xs m)
  unfolding run
  low_run [] m e h below fits = ground arith
  low_run (x ∷ []) m e (h, hs) below fits = elim (dec_lt m.consecutive_low_jitter 19) [
    | yes more ↦ rw (low_step x m e h more) (ground arith)
    | no last ↦ rw (last_low_step x m e h (omega arith)) (ground arith)
  ]
  low_run (x ∷ y ∷ ys) m e (h, hs) below fits =
      let rest =
        low_run (y ∷ ys)
          (record m {
            consecutive_low_jitter = m.consecutive_low_jitter + 1;
            low_to_smooth_p95_exceeded = false;
          })
          e hs (omega arith) (omega arith) in
      rw (run, low_step x m e h (omega arith)) (ground (arith, rest))

  -- In low-latency mode with fewer than twenty measurements counted, measurements of jitter below
  -- 0.5 ms in a row, with the 95th percentile not above 10 ms, keep the mode and are counted while
  -- there are fewer than twenty with those counted before; the twentieth changes the mode to bypass,
  -- with both counters zero.
  pub low_latency_run :
      (xs : List (Measurement W)) (m : Machine)
      → m.active_mode ≡ low_latency
      → All IsLow xs
      → m.consecutive_low_jitter < 20
      → m.consecutive_low_jitter + length xs ≤ 20
      → IsLowRun (m.consecutive_low_jitter + length xs) m (run xs m)
  low_latency_run xs m e h below fits = low_run xs m e h below fits

  -- In low-latency mode, two measurements of 0.5 ms of jitter or more, with the 95th percentile never
  -- above 10 ms so far: only if both percentiles are above 10 ms does the mode change to smooth, with
  -- counters and marks cleared; otherwise the mode stays, the count of low measurements starts
  -- again, and the second percentile alone is remembered.
  exceed_twice :
      (x y : Measurement W) (m : Machine)
      → m.active_mode ≡ low_latency
      → m.low_to_smooth_p95_exceeded ≡ false
      → d.lt x.jitter_ms (d.decimal 5 1) ≡ false
      → d.lt y.jitter_ms (d.decimal 5 1) ≡ false
      → run (x ∷ y ∷ []) m ≡ (
          if gt x.p95 (d.decimal 100 1) && gt y.p95 (d.decimal 100 1)
          then record (enter smooth m) {
            low_to_smooth_p95_exceeded = false;
            smooth_low_p95_since_ns = 0;
          }
          else record m {
            consecutive_low_jitter = 0;
            low_to_smooth_p95_exceeded = gt y.p95 (d.decimal 100 1);
          })
  unfolding run evaluate_state_transition step_low_latency
  exceed_twice x y m e clear hx hy = ground arith
