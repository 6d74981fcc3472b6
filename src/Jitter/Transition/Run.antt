-- ===== src/Jitter/Transition/Run.antt =====
-- How long it takes to change the mode: runs of measurements.
use fastvid.Common.{
  ℕ, ◌+◌, ◌<◌, ◌≡◌, refl, ap, ◌∙◌, Bool, false, ◌&&◌, List, [], ◌∷◌, arith, leb, if◌then◌else◌,
}
use fastvid.Float.{Double, gt}
use fastvid.Jitter.{bypass, low_latency, Machine}
use fastvid.Jitter.Transition.{step_bypass, evaluate_state_transition, enter}

-- The 95th percentile, the jitter and the time of a call.
pub record Measurement (W : Type 0) : Type 0 where
  pub p95 : W
  pub jitter_ms : W
  pub now_ns : ℕ

module _ {W : Type 0} ⦃d : Double W⦄ where
  unfoldable pub run : List (Measurement W) → Machine → Machine
  run [] m = m
  run (x ∷ xs) m = run xs (evaluate_state_transition x.p95 x.jitter_ms x.now_ns m)

  -- `jitter_ms > 1.0`
  abbrev pub is_high : Measurement W → Bool
  is_high x = gt x.jitter_ms (d.decimal 10 1)

  -- How many measurements at the end of a run are high, one after the other, with `count` before it.
  abbrev pub streak : ℕ → List (Measurement W) → ℕ
  streak count [] = count
  streak count (x ∷ xs) = streak (if is_high x then count + 1 else 0) xs

  -- At no place of the run there are ten in a row.
  abbrev pub NeverTen : ℕ → List (Measurement W) → Type 0
  NeverTen count [] = count < 10
  NeverTen count (x ∷ xs) = (count < 10) × NeverTen (if is_high x then count + 1 else 0) xs

  NeverTen-start : (count : ℕ) (xs : List (Measurement W)) → NeverTen count xs → count < 10
  NeverTen-start count [] h = h
  NeverTen-start count (x ∷ xs) (h, hs) = h

  NeverTen-end : (count : ℕ) (xs : List (Measurement W)) → NeverTen count xs → streak count xs < 10
  NeverTen-end count [] h = h
  NeverTen-end count (x ∷ xs) (h, hs) = NeverTen-end (if is_high x then count + 1 else 0) xs hs

  bypass_step :
      (x : Measurement W) (m : Machine)
      → m.active_mode ≡ bypass
      → m.consecutive_high_jitter < 10
      → evaluate_state_transition x.p95 x.jitter_ms x.now_ns m ≡ (
          if is_high x && leb 9 m.consecutive_high_jitter
          then record (enter low_latency m) { low_to_smooth_p95_exceeded = false }
          else record m {
            consecutive_high_jitter = (if is_high x then m.consecutive_high_jitter + 1 else 0);
          })
  unfolding evaluate_state_transition step_bypass
  bypass_step x m e h = ground arith

  counting_step :
      (x : Measurement W) (m : Machine)
      → m.active_mode ≡ bypass
      → m.consecutive_high_jitter < 10
      → (if is_high x then m.consecutive_high_jitter + 1 else 0) < 10
      → evaluate_state_transition x.p95 x.jitter_ms x.now_ns m ≡ record m {
        consecutive_high_jitter = (if is_high x then m.consecutive_high_jitter + 1 else 0);
      }
  unfolding evaluate_state_transition step_bypass
  counting_step x m e h h' = ground arith

  run-bypass :
      (xs : List (Measurement W)) (m : Machine)
      → m.active_mode ≡ bypass
      → NeverTen m.consecutive_high_jitter xs
      → run xs m ≡ record m { consecutive_high_jitter = streak m.consecutive_high_jitter xs }
  unfolding run
  run-bypass [] m e h = refl
  run-bypass (x ∷ xs) m e (h, hs) = rw (counting_step x m e h (NeverTen-start _ xs hs)) (
      run-bypass xs
        (record m {
          consecutive_high_jitter = (if is_high x then m.consecutive_high_jitter + 1 else 0);
        })
        e hs)

  -- In bypass mode a run of measurements without ten of more than 1 ms of jitter in a row, those
  -- counted before included, changes nothing but the count, which is the number of such measurements
  -- at the end of the run. The next measurement changes the mode to low latency, with all counters
  -- zero, if it is the tenth in a row; otherwise it is counted, or starts the count again.
  pub bypass_run :
      (xs : List (Measurement W)) (x : Measurement W) (m : Machine)
      → m.active_mode ≡ bypass
      → NeverTen m.consecutive_high_jitter xs
      → let count = streak m.consecutive_high_jitter xs in
        (run xs m ≡ record m { consecutive_high_jitter = count })
        × (run (x ∷ []) (run xs m) ≡ (
            if is_high x && leb 9 count
            then record (enter low_latency m) { low_to_smooth_p95_exceeded = false }
            else record m { consecutive_high_jitter = (if is_high x then count + 1 else 0) }))
  unfolding run
  bypass_run xs x m e h =
      let same = run-bypass xs m e h in
      let counted = record m { consecutive_high_jitter = streak m.consecutive_high_jitter xs } in
      (
        same,
        ap (λ (t : Machine). evaluate_state_transition x.p95 x.jitter_ms x.now_ns t) same
            ∙ bypass_step x counted e (NeverTen-end m.consecutive_high_jitter xs h),
      )
