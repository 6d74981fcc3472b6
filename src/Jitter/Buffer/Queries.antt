-- ===== src/Jitter/Buffer/Queries.antt =====
-- The getters of `AdaptiveJitterBuffer` that are not figures of the window.
use fastvid.Common.{ℕ}
use fastvid.Common.Int.{ℤ}
use fastvid.Text.{Text}
use fastvid.Jitter.{Mode, Quality, JitterBuffer, mode_name, quality_name}

module _ {W : Type 0} where
  active_mode : JitterBuffer W → Mode
  active_mode b = b.machine.active_mode

  network_quality : JitterBuffer W → Quality
  network_quality b = b.network_quality

  unfoldable pub active_mode_name : JitterBuffer W → Text
  active_mode_name b = mode_name b.machine.active_mode

  unfoldable pub network_quality_name : JitterBuffer W → Text
  network_quality_name b = quality_name b.network_quality

  jitter_sampes : JitterBuffer W → ℕ
  jitter_sampes b = b.window.sample_count

  quallity_max_wait_ms : JitterBuffer W → ℤ
  quallity_max_wait_ms b = b.current_max_wait_ms

  quality_max_frames : JitterBuffer W → ℕ
  quality_max_frames b = b.current_max_frames
