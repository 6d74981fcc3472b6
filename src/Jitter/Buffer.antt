-- ===== src/Jitter/Buffer.antt =====
-- The operations of `AdaptiveJitterBuffer`. What is logged is a result: the lines for the log, in
-- their order.
pub mod Queries
pub mod Recording
pub mod Figures
pub mod Driven
pub mod Assessed
pub mod Startup
pub mod Worse
pub mod Restart
pub mod Rough
pub mod Ramp
mod Tests
pub mod Delay
pub mod Logging
use fastvid.Common.{
  ℕ, ◌+◌, ◌-◌, ◌*◌, ◌/◌, ◌^◌, Bool, true, false, not, ◌&&◌, ◌||◌, List, [], ◌∷◌, ◌++◌, leb, ltb,
  ◌==◌, if◌then◌else◌, max, take,
}
use fastvid.Common.Words.{u64}
use fastvid.Common.Int.{ℤ, pos, ◌/ℤ◌, ◌*ℤ◌, max_ℤ}
use fastvid.Float.{Double, gt, max_double}
use fastvid.Stats
use fastvid.Stats.{LatencyStats, Summary, record_sample, snapshot, zero_ms}
use fastvid.Text.{Text, codes, to_string, to_string_int}
use fastvid.Jitter.{
  Mode, bypass, low_latency, smooth, Quality, excellent, good, fair, poor, Config, default_config,
  Machine, JitterBuffer, mode_name, quality_name,
}
use fastvid.Jitter.Rating.{mode_code, quality_code, quality_of, max_wait_for, max_frames_for}
use fastvid.Jitter.Transition.{elapsed_ns, evaluate_state_transition}

-- The state of the machine at the start, and as `Reset` leaves it.
abbrev pub initial_machine : Machine
initial_machine = record {
  active_mode = bypass;
  consecutive_high_jitter = 0;
  consecutive_low_jitter = 0;
  low_to_smooth_p95_exceeded = false;
  smooth_low_p95_since_ns = 0;
}

module _ {W : Type 0} ⦃d : Double W⦄ where
  -- `LatencyStats(100, 4)`
  abbrev pub empty_window : LatencyStats W
  unfolding Stats.create
  empty_window = Stats.create 100 4

  -- The constructor. It leaves `_last_logged_quality` unset: what is in the memory is a parameter.
  unfoldable pub create : Quality → JitterBuffer W
  create garbage = record {
    machine = initial_machine;
    network_quality = excellent;
    auto_mode = true;
    window = empty_window;
    last_logged_mode = bypass;
    last_logged_quality = garbage;
    last_periodic_log_ns = 0;
    config = default_config;
    current_max_wait_ms = pos 80;
    current_max_frames = 8;
  }

  -- `Configure`
  unfoldable pub configure : Config W → JitterBuffer W → JitterBuffer W
  configure config b = record b {
    config = config;
    current_max_wait_ms = config.base_max_wait_ms;
    current_max_frames = config.base_max_frames;
  }

  -- `jitter_p95_ms` and `jitter_50_ms`, which may refresh the window's summary.
  unfoldable pub jitter_p95_ms : JitterBuffer W → JitterBuffer W × W
  jitter_p95_ms b =
      let (window, summary) = snapshot b.window in (record b { window = window }, summary.p95_ms)

  unfoldable pub jitter_50_ms : JitterBuffer W → JitterBuffer W × W
  jitter_50_ms b =
      let (window, summary) = snapshot b.window in (record b { window = window }, summary.p50_ms)

  -- `AssessNetworkQuality`
  unfoldable pub assess_network_quality : W → W → JitterBuffer W → JitterBuffer W
  assess_network_quality loss skip b =
      let (b', p95) = jitter_p95_ms b in record b' { network_quality = quality_of p95 loss skip }

  -- `ApplyQualityParams`
  unfoldable pub apply_quality_params : JitterBuffer W → JitterBuffer W
  apply_quality_params b = record b {
    current_max_wait_ms = max_wait_for b.config b.network_quality;
    current_max_frames = max_frames_for b.config b.network_quality;
  }

  -- The wait of a mode with a margin over the 95th percentile, in nanoseconds.
  abbrev pub padded_delay : W → Config W → W → ℕ
  padded_delay factor c p95 =
      d.to_word
        (d.mul (max_double (d.of_int c.min_delay_ms) (d.mul p95 factor)) (d.decimal 10000000 1))

  -- `ComputeDelayForMode`
  unfoldable pub compute_delay_for_mode : Mode → JitterBuffer W → JitterBuffer W × ℕ
  compute_delay_for_mode bypass b = (b, 0)
  compute_delay_for_mode low_latency b =
      let (b', p95) = jitter_p95_ms b in (b', padded_delay b.config.safety_factor b.config p95)
  compute_delay_for_mode smooth b =
      let (b', p95) = jitter_p95_ms b in (b', padded_delay b.config.smooth_factor b.config p95)

  -- `TargetDelayNs`
  unfoldable pub target_delay_ns : JitterBuffer W → JitterBuffer W × ℕ
  target_delay_ns b = compute_delay_for_mode b.machine.active_mode b

  -- `EvaluateStateTransition`: the percentile is read first, in every mode.
  unfoldable pub transition : W → ℕ → JitterBuffer W → JitterBuffer W
  transition jitter_ms now_ns b =
      let (b', p95) = jitter_p95_ms b in
      record b' { machine = evaluate_state_transition p95 jitter_ms now_ns b'.machine }

  -- `FormatDouble`, with room for 31 characters.
  abbrev pub format_double : W → Text
  format_double value = take 31 (d.two_decimals value)

  -- The line that tells of a change of the mode or the quality, and the members that remember it.
  unfoldable pub log_change : W → W → JitterBuffer W → JitterBuffer W × List Text
  log_change target_ms loss b =
      if not (mode_code b.machine.active_mode == mode_code b.last_logged_mode)
        || not (quality_code b.network_quality == quality_code b.last_logged_quality)
      then (let (b', p95) = jitter_p95_ms b in
          (
            record b' {
              last_logged_mode = b.machine.active_mode;
              last_logged_quality = b.network_quality;
            },
            (codes "jitter buffer mode: "
                  ++ mode_name b.last_logged_mode
                  ++ codes " ->"
                  ++ mode_name b.machine.active_mode
                  ++ codes " quality="
                  ++ quality_name b.network_quality
                  ++ codes ", target="
                  ++ format_double target_ms
                  ++ codes "ms"
                  ++ codes ", jitter_p95="
                  ++ format_double p95
                  ++ codes "ms"
                  ++ codes ", loss="
                  ++ format_double loss
                  ++ codes "%")
                ∷ [],
          ))
      else (b, [])

  -- What is logged every 5 seconds. The source assigns to the text before " max_wait=" where it
  -- means to append, so that the line is only what stands right of the assignment; the text left of
  -- it is computed, and its two percentiles are read.
  unfoldable pub log_status : ℕ → JitterBuffer W → JitterBuffer W × List Text
  log_status now_ns b =
      if leb 5000000000 (elapsed_ns now_ns b.last_periodic_log_ns)
      then (let (b', p50) = jitter_50_ms b in
          let (b'', p95) = jitter_p95_ms b' in
          (
            record b'' { last_periodic_log_ns = now_ns },
            (to_string_int b.current_max_wait_ms
                  ++ codes "ms"
                  ++ codes " max_frames="
                  ++ to_string b.current_max_frames
                  ++ codes " samples="
                  ++ to_string b.window.sample_count)
                ∷ [],
          ))
      else (b, [])

  -- The adjustment that the automatic mode makes once there are ten samples.
  unfoldable pub adjust : W → ℕ → JitterBuffer W → JitterBuffer W
  adjust jitter_ms now_ns b =
      if b.auto_mode && leb 10 b.window.sample_count
      then apply_quality_params (transition jitter_ms now_ns b)
      else b

  -- `RecordJitter` up to the logging.
  unfoldable pub measure : W → W → W → ℕ → JitterBuffer W → JitterBuffer W
  measure jitter_ms loss skip now_ns b =
      adjust jitter_ms now_ns
        (assess_network_quality loss skip (record b { window = record_sample jitter_ms b.window }))

  -- `RecordJitter`
  unfoldable pub record_jitter : W → W → W → ℕ → JitterBuffer W → JitterBuffer W × List Text
  record_jitter jitter_ms loss skip now_ns b =
      let (b1, target_ns) = target_delay_ns (measure jitter_ms loss skip now_ns b) in
      let target_ms = d.div (d.of_size target_ns) (d.decimal 10000000 1) in
      let (b2, changes) = log_change target_ms loss b1 in
      let (b3, status) = log_status now_ns b2 in (b3, changes ++ status)

  -- The overload without loss and skips.
  unfoldable pub record_jitter_only : W → ℕ → JitterBuffer W → JitterBuffer W × List Text
  record_jitter_only jitter_ms now_ns b = record_jitter jitter_ms zero_ms zero_ms now_ns b

  -- `SetFixedMode`
  unfoldable pub set_fixed_mode : Mode → JitterBuffer W → JitterBuffer W
  set_fixed_mode mode b = record b {
    machine = record b.machine { active_mode = mode };
    auto_mode = false;
  }

  -- `EnableAutoMode`
  unfoldable pub enable_auto_mode : JitterBuffer W → JitterBuffer W
  enable_auto_mode b = record b { auto_mode = true }

  -- `Reset`
  unfoldable pub reset : JitterBuffer W → JitterBuffer W
  reset b = record b {
    machine = initial_machine;
    network_quality = excellent;
    window = empty_window;
    last_logged_mode = bypass;
    last_logged_quality = excellent;
    last_periodic_log_ns = 0;
    current_max_wait_ms = b.config.base_max_wait_ms;
    current_max_frames = b.config.base_max_frames;
  }
