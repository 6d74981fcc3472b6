-- ===== src/Jitter/Rating/Limits.antt =====
-- The quality that is assessed, and the limits that go with it.
use fastvid.Common.{ℕ, ◌*◌, ◌^◌, ◌≤◌, ◌<◌, ◌≡◌, true, false, arith}
use fastvid.Common.Int.{pos, ◌≤ℤ◌}
use fastvid.Float.{Double, IsOrdered, gt}
use fastvid.Jitter.{Quality, excellent, good, fair, poor, Config}
use fastvid.Jitter.Rating.{quality_code, quality_of, max_wait_for, max_frames_for}

module _ {W : Type 0} ⦃d : Double W⦄ where
  -- A figure above a limit stays above it when it is replaced by one that is not below it.
  gt_mono :
      (laws : IsOrdered W) (x y limit : W)
      → d.is_number y ≡ true
      → d.lt y x ≡ false
      → gt x limit ≡ true
      → gt y limit ≡ true
  gt_mono laws x y limit n le high =
      ground (arith, laws.lt_asymm limit x high, laws.not_lt_trans limit y x n)

  -- With a 95th percentile, a loss and a skip rate none of which is below another call's, and none
  -- of which is a NaN, the quality is assessed no better than in that call.
  pub quality_of_mono :
      (laws : IsOrdered W) (p95 p95' loss loss' skip skip' : W)
      → d.is_number p95' ≡ true
      → d.is_number loss' ≡ true
      → d.is_number skip' ≡ true
      → d.lt p95' p95 ≡ false
      → d.lt loss' loss ≡ false
      → d.lt skip' skip ≡ false
      → quality_code (quality_of p95 loss skip) ≤ quality_code (quality_of p95' loss' skip')
  unfolding quality_of
  quality_of_mono laws p95 p95' loss loss' skip skip' np nl ns hp hl hs = ground (
    arith,
    gt_mono laws p95 p95' (d.decimal 500 1) np hp,
    gt_mono laws p95 p95' (d.decimal 100 1) np hp,
    gt_mono laws p95 p95' (d.decimal 10 1) np hp,
    gt_mono laws loss loss' (d.decimal 10 1) nl hl,
    gt_mono laws loss loss' (d.decimal 1 1) nl hl,
    gt_mono laws loss loss' (d.decimal 1 2) nl hl,
    gt_mono laws skip skip' (d.decimal 50 1) ns hs,
    gt_mono laws skip skip' (d.decimal 10 1) ns hs,
  )

  -- With a base wait of 40 ms or more and a base of 4 frames or more, whose fourfold fits size_t, a
  -- worse quality waits at least as long and for at least as many frames.
  pub limits_mono :
      (c : Config W) (base : ℕ) (q q' : Quality)
      → c.base_max_wait_ms ≡ pos base
      → 40 ≤ base
      → 4 ≤ c.base_max_frames
      → c.base_max_frames * 4 < 2 ^ 64
      → quality_code q ≤ quality_code q'
      → (max_wait_for c q ≤ℤ max_wait_for c q') × (max_frames_for c q ≤ max_frames_for c q')
  unfolding max_wait_for max_frames_for
  limits_mono c base excellent excellent e h frames fits le = rw e (ground arith)
  limits_mono c base excellent good e h frames fits le = rw e (ground arith)
  limits_mono c base excellent fair e h frames fits le = rw e (ground arith)
  limits_mono c base excellent poor e h frames fits le = rw e (ground arith)
  limits_mono c base good excellent e h frames fits le = absurd (omega arith)
  limits_mono c base good good e h frames fits le = rw e (ground arith)
  limits_mono c base good fair e h frames fits le = rw e (ground arith)
  limits_mono c base good poor e h frames fits le = rw e (ground arith)
  limits_mono c base fair excellent e h frames fits le = absurd (omega arith)
  limits_mono c base fair good e h frames fits le = absurd (omega arith)
  limits_mono c base fair fair e h frames fits le = rw e (ground arith)
  limits_mono c base fair poor e h frames fits le = rw e (ground arith)
  limits_mono c base poor excellent e h frames fits le = absurd (omega arith)
  limits_mono c base poor good e h frames fits le = absurd (omega arith)
  limits_mono c base poor fair e h frames fits le = absurd (omega arith)
  limits_mono c base poor poor e h frames fits le = rw e (ground arith)
