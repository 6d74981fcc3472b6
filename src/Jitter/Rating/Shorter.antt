-- ===== src/Jitter/Rating/Shorter.antt =====
-- Where a worse quality gets the smaller limits.
use fastvid.Common.{ℕ, ltb, ◌*◌, ◌^◌, ◌≤◌, ◌<◌, ◌≡◌, arith}
use fastvid.Common.Int.{pos, ltb_ℤ}
use fastvid.Float.{Double}
use fastvid.Jitter.{Quality, excellent, good, fair, poor, Config}
use fastvid.Jitter.Rating.{quality_code, max_wait_for, max_frames_for}

-- The base below which the worse quality `q'` waits less than the better `q`.
abbrev pub least_wait : Quality → Quality → ℕ
least_wait excellent good = 40
least_wait excellent fair = 20
least_wait excellent poor = 7
least_wait q q' = 0

-- The base below which the worse quality `q'` keeps fewer frames than the better `q`.
abbrev pub least_frames : Quality → Quality → ℕ
least_frames excellent fair = 2
least_frames excellent poor = 1
least_frames good fair = 4
least_frames good poor = 1
least_frames q q' = 0

module _ {W : Type 0} ⦃d : Double W⦄ where
  -- For two qualities of which `q` is no worse than `q'`, a base wait that is not negative and a base of
  -- frames whose fourfold fits size_t: the worse quality waits less exactly where the base wait is below
  -- 40 ms for excellent against good, 20 ms for excellent against fair and 7 ms for excellent against
  -- poor, and never between other qualities; and it keeps fewer frames exactly where the base is below
  -- the number that the table has for the two, which is at most 4.
  pub limits_order :
      (c : Config W) (base : ℕ) (q q' : Quality)
      → c.base_max_wait_ms ≡ pos base
      → c.base_max_frames * 4 < 2 ^ 64
      → quality_code q ≤ quality_code q'
      → (ltb_ℤ (max_wait_for c q') (max_wait_for c q) ≡ ltb base (least_wait q q'))
        × (ltb (max_frames_for c q') (max_frames_for c q)
            ≡ ltb c.base_max_frames (least_frames q q'))
  unfolding max_wait_for max_frames_for
  limits_order c base excellent excellent e fits le = rw e (ground arith)
  limits_order c base excellent good e fits le = rw e (ground arith)
  limits_order c base excellent fair e fits le = rw e (ground arith)
  limits_order c base excellent poor e fits le = rw e (ground arith)
  limits_order c base good excellent e fits le = absurd (omega arith)
  limits_order c base good good e fits le = rw e (ground arith)
  limits_order c base good fair e fits le = rw e (ground arith)
  limits_order c base good poor e fits le = rw e (ground arith)
  limits_order c base fair excellent e fits le = absurd (omega arith)
  limits_order c base fair good e fits le = absurd (omega arith)
  limits_order c base fair fair e fits le = rw e (ground arith)
  limits_order c base fair poor e fits le = rw e (ground arith)
  limits_order c base poor excellent e fits le = absurd (omega arith)
  limits_order c base poor good e fits le = absurd (omega arith)
  limits_order c base poor fair e fits le = absurd (omega arith)
  limits_order c base poor poor e fits le = rw e (ground arith)
