-- ===== src/Jitter.antt =====
-- sclient/src/modules/network/AdaptiveJitterBuffer.h: a state machine over buffering modes, driven by
-- the measured jitter, and the limits that go with the network's quality.
pub mod Transition
pub mod Rating
pub mod Buffer
mod Tests
use fastvid.Common.{ℕ, Bool}
use fastvid.Common.Int.{ℤ, pos}
use fastvid.Float.{Double}
use fastvid.Stats.{LatencyStats}
use fastvid.Text.{Text, codes}

-- `JitterBufferMode`
pub data Mode : Type 0 where
  bypass low_latency smooth : Mode

-- `NetworkQuality`
pub data Quality : Type 0 where
  excellent good fair poor : Quality

-- `AdaptiveJitterBufferConfig`
pub record Config (W : Type 0) : Type 0 where
  pub min_delay_ms : ℤ  -- int
  pub safety_factor : W
  pub smooth_factor : W
  pub base_max_wait_ms : ℤ  -- int
  pub base_max_frames : ℕ  -- size_t

-- Its member initialisers.
abbrev pub default_config : {W : Type 0} ⦃d : Double W⦄ → Config W
default_config ⦃d⦄ = record {
  min_delay_ms = pos 2;
  safety_factor = d.decimal 15 1;
  smooth_factor = d.decimal 25 1;
  base_max_wait_ms = pos 80;
  base_max_frames = 8;
}

-- The members that the state machine works on.
pub record Machine : Type 0 where
  pub active_mode : Mode
  pub consecutive_high_jitter : ℕ  -- int, counted up from 0
  pub consecutive_low_jitter : ℕ  -- int, counted up from 0
  pub low_to_smooth_p95_exceeded : Bool
  pub smooth_low_p95_since_ns : ℕ  -- uint64_t

-- `AdaptiveJitterBuffer`
pub record JitterBuffer (W : Type 0) : Type 0 where
  pub machine : Machine
  pub network_quality : Quality
  pub auto_mode : Bool
  pub window : LatencyStats W
  pub last_logged_mode : Mode
  pub last_logged_quality : Quality
  pub last_periodic_log_ns : ℕ  -- uint64_t
  pub config : Config W
  pub current_max_wait_ms : ℤ  -- int
  pub current_max_frames : ℕ  -- size_t

-- `ModeName`
abbrev pub mode_name : Mode → Text
mode_name bypass = codes "bypass"
mode_name low_latency = codes "low_latency"
mode_name smooth = codes "smooth"

-- `QualityName`
abbrev pub quality_name : Quality → Text
quality_name excellent = codes "excellent"
quality_name good = codes "good"
quality_name poor = codes "poor"
quality_name fair = codes "fair"
