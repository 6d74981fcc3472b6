-- ===== src/Jitter/Buffer/Worse.antt =====
-- Two reports to the same buffer, of which one is worse.
use fastvid.Common.{ℕ, ◌*◌, ◌^◌, ◌≤◌, ◌<◌, ◌≡◌, true, false, arith}
use fastvid.Common.Int.{pos, ◌≤ℤ◌}
use fastvid.Float.{Double, IsOrdered, lt_irrefl}
use fastvid.Jitter.{JitterBuffer}
use fastvid.Jitter.Rating.{quality_code, quality_of}
use fastvid.Jitter.Rating.Limits.{quality_of_mono, limits_mono}
use fastvid.Jitter.Buffer.Recording.{Report, call}
use fastvid.Jitter.Buffer.Figures.{looked_at, call-IsDecided}

module _ {W : Type 0} ⦃d : Double W⦄ where
  -- Two calls of `RecordJitter` on the same buffer that differ only in the loss and the skip rate, both
  -- of them not below the other call's in the second. If the base wait is 40 ms or more, the base of
  -- frames 4 or more and its fourfold fits size_t, and neither the second call's rates nor the 95th
  -- percentile are NaN, then the second call assesses no better a quality, its limits are at least those
  -- of the first, and both leave the same state of the machine.
  pub call_mono :
      (laws : IsOrdered W) (r : Report W) (loss skip : W) (b : JitterBuffer W) (base : ℕ)
      → b.config.base_max_wait_ms ≡ pos base
      → 40 ≤ base
      → 4 ≤ b.config.base_max_frames
      → b.config.base_max_frames * 4 < 2 ^ 64
      → d.is_number (looked_at r.jitter_ms b.window).cached.p95_ms ≡ true
      → d.is_number loss ≡ true
      → d.is_number skip ≡ true
      → d.lt loss r.loss ≡ false
      → d.lt skip r.skip ≡ false
      → let b1 = call r b in
        let b2 = call (record r { loss = loss; skip = skip }) b in
        (quality_code b1.network_quality ≤ quality_code b2.network_quality)
        × (b1.current_max_wait_ms ≤ℤ b2.current_max_wait_ms)
        × (b1.current_max_frames ≤ b2.current_max_frames)
        × (b1.machine ≡ b2.machine)
  call_mono laws r loss skip b base waits enough frames fits n nl ns hl hs =
      let s = looked_at r.jitter_ms b.window in
      let p95 = s.cached.p95_ms in
      let one = call-IsDecided r b in
      let two = call-IsDecided (record r { loss = loss; skip = skip }) b in
      let worse =
        quality_of_mono laws p95 p95 r.loss loss r.skip skip n nl ns (lt_irrefl laws p95) hl hs in
      let (wait, frame) =
        limits_mono b.config base (quality_of p95 r.loss r.skip) (quality_of p95 loss skip) waits
          enough frames fits worse in
      ground (
        arith, one.quality, two.quality, one.max_wait, two.max_wait, one.max_frames, two.max_frames,
        one.machine, two.machine, worse, wait, frame,
      )
