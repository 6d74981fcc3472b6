-- ===== src/Jitter/Rating.antt =====
-- The quality of the network, as `AssessNetworkQuality` rates it, and the limits that
-- `ApplyQualityParams` sets for it.
pub mod Limits
pub mod Shorter
use fastvid.Common.{ℕ, ◌*◌, ◌/◌, ◌||◌, if◌then◌else◌, max}
use fastvid.Common.Words.{u64}
use fastvid.Common.Int.{ℤ, pos, ◌/ℤ◌, ◌*ℤ◌, max_ℤ}
use fastvid.Float.{Double, gt}
use fastvid.Jitter.{Mode, bypass, low_latency, smooth, Quality, excellent, good, fair, poor, Config}

-- `!=` of modes and of qualities.
abbrev pub mode_code : Mode → ℕ
mode_code bypass = 0
mode_code low_latency = 1
mode_code smooth = 2

abbrev pub quality_code : Quality → ℕ
quality_code excellent = 0
quality_code good = 1
quality_code fair = 2
quality_code poor = 3

module _ {W : Type 0} ⦃d : Double W⦄ where
  -- The chain of comparisons in `AssessNetworkQuality`.
  unfoldable pub quality_of : W → W → W → Quality
  quality_of p95 loss skip =
      if gt p95 (d.decimal 500 1) || (gt loss (d.decimal 10 1) || gt skip (d.decimal 50 1))
      then poor
      else (if gt p95 (d.decimal 100 1) || (gt loss (d.decimal 1 1) || gt skip (d.decimal 10 1))
          then fair
          else (if gt p95 (d.decimal 10 1) || gt loss (d.decimal 1 2) then good else excellent))

  -- The two limits that `ApplyQualityParams` sets for a quality. The threefold wait is a product of
  -- ints: exact while it is below 2 ^ 31, undefined in C from there on.
  unfoldable pub max_wait_for : Config W → Quality → ℤ
  max_wait_for c excellent = max_ℤ (pos 20) (c.base_max_wait_ms /ℤ 4)
  max_wait_for c good = c.base_max_wait_ms /ℤ 2
  max_wait_for c fair = c.base_max_wait_ms
  max_wait_for c poor = c.base_max_wait_ms *ℤ 3

  unfoldable pub max_frames_for : Config W → Quality → ℕ
  max_frames_for c excellent = max 2 (c.base_max_frames / 4)
  max_frames_for c good = max 4 (c.base_max_frames / 2)
  max_frames_for c fair = c.base_max_frames
  max_frames_for c poor = u64 (c.base_max_frames * 4)
