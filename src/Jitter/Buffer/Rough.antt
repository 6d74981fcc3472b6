-- ===== src/Jitter/Buffer/Rough.antt =====
-- A network whose jitter is high in every report.
use fastvid.Common.{
  All, All-append_left, ◌-◌, ◌*◌, ◌≤◌, ◌<◌, ◌^◌, ◌≡◌, subst, true, leb, if◌then◌else◌, List, [],
  ◌∷◌, ◌++◌, arith, length, length-append, ap, ◌∙◌,
}
use fastvid.Common.Words.{u64}
use fastvid.Common.Int.{◌*ℤ◌}
use fastvid.Float.{Double, gt, IsWord, IsOrdered, IsScaling, IsInterpolating}
use fastvid.Stats.Above.{summary_of-gt}
use fastvid.Jitter.{Quality, poor, Config}
use fastvid.Jitter.Rating.{quality_of, max_wait_for, max_frames_for}
use fastvid.Jitter.Buffer.{create, configure}
use fastvid.Jitter.Buffer.Recording.{Report, calls}
use fastvid.Jitter.Buffer.Driven.{jitters, length-jitters}
use fastvid.Jitter.Buffer.Assessed.{calls-quality}

module _ {W : Type 0} ⦃d : Double W⦄ where
  quality_of-poor :
      (p95 loss skip : W) → gt p95 (d.decimal 500 1) ≡ true → quality_of p95 loss skip ≡ poor
  unfolding quality_of
  quality_of-poor p95 loss skip high = ground (arith, high)

  -- For floats that are ordered and rounded as the named laws say: from the construction and
  -- `Configure` on, at least four reports, fewer than 2 ^ 64, all of them of more than 50 ms of jitter
  -- in floats that fit a word: the quality is poor, whatever losses and skips are reported. From the
  -- tenth report on the limits are three times the configured wait and four times the configured
  -- frames, the latter modulo 2 ^ 64; before, they are the configured ones.
  pub calls-poor :
      (laws : IsOrdered W) (scaling : IsScaling W) (rounding : IsInterpolating W)
      (garbage : Quality) (c : Config W) (rs : List (Report W)) (r : Report W)
      → 3 ≤ length rs
      → length rs < 2 ^ 64 - 1
      → All IsWord (jitters rs ++ r.jitter_ms ∷ [])
      → All (λ x. gt x (d.decimal 500 1) ≡ true) (jitters rs ++ r.jitter_ms ∷ [])
      → let b = calls (rs ++ r ∷ []) (configure c (create garbage)) in
        (b.network_quality ≡ poor)
        × (b.current_max_wait_ms
            ≡ (if leb 9 (length rs) then c.base_max_wait_ms *ℤ 3 else c.base_max_wait_ms))
        × (b.current_max_frames
            ≡ (if leb 9 (length rs) then u64 (c.base_max_frames * 4) else c.base_max_frames))
  unfolding max_wait_for max_frames_for
  calls-poor laws scaling rounding garbage c rs r some_reports small ws gs =
      let ((fresh, recent, split, few, rated), wait, frames) = calls-quality garbage c rs r small in
      let many : 1 ≤ length fresh = omega (
        arith,
        ap length split,
        length-append fresh recent,
        length-append (jitters rs) (r.jitter_ms ∷ []),
        length-jitters rs,
      ) in
      let high =
        summary_of-gt laws scaling rounding (d.decimal 500 1) 100 fresh (omega arith) (omega arith)
          many (All-append_left IsWord fresh recent (subst (All IsWord) split ws))
          (All-append_left (λ x. gt x (d.decimal 500 1) ≡ true) fresh recent
            (subst (All (λ x. gt x (d.decimal 500 1) ≡ true)) split gs)) in
      let quality = rated ∙ quality_of-poor _ r.loss r.skip high in
      (quality, rw quality at wait, rw quality at frames)
