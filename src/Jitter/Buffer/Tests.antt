-- ===== src/Jitter/Buffer/Tests.antt =====
-- The operations of the jitter buffer at concrete inputs.
use fastvid.Common.{List, ◌*◌, ◌≤◌, ◌≡◌, ◌⊎◌, refl, true, false, [], ◌∷◌, ◌++◌, replicate, arith}
use fastvid.Common.Int.{pos, ◌≤ℤ◌}
use fastvid.Float.{
  Thousandths, thousandths, Thousandths-IsOrdered, Thousandths-IsRounding, Thousandths-IsScaling,
  Thousandths-IsInterpolating, Thousandths-IsGraded,
}
use fastvid.Stats.{Summary, snapshot, refresh}
use fastvid.Jitter.{
  bypass, low_latency, smooth, good, poor, excellent, default_config, JitterBuffer,
}
use fastvid.Jitter.Rating.{quality_code}
use fastvid.Jitter.Buffer.{
  create, configure, set_fixed_mode, reset, jitter_p95_ms, compute_delay_for_mode, target_delay_ns,
}
use fastvid.Jitter.Buffer.Recording.{Report, call, calls}
use fastvid.Jitter.Buffer.Worse.{call_mono}
use fastvid.Jitter.Buffer.Restart.{calls-reset}
use fastvid.Jitter.Buffer.Rough.{calls-poor}
use fastvid.Jitter.Buffer.Ramp.{calls-smooth}
use fastvid.Jitter.Buffer.Delay.{compute_delay_for_mode_lem}

abbrev report : Report Thousandths
report = record { jitter_ms = 2000; loss = 500; skip = 0; now_ns = 7 }

abbrev buffer : JitterBuffer Thousandths
buffer = configure default_config (create good)

-- Twenty samples of 2 ms, summarised.
abbrev figures_of_two_ms : Summary Thousandths
figures_of_two_ms = record {
  count = 20;
  last_ms = 2000;
  min_ms = 2000;
  avg_ms = 2000;
  p50_ms = 2000;
  p95_ms = 2000;
  p99_ms = 2000;
  max_ms = 2000;
}

abbrev warm : JitterBuffer Thousandths
warm = record buffer {
  window = record {
    max_samples = 100;
    refresh_interval = 4;
    samples = replicate 20 2000 ++ replicate 80 0;
    next_index = 20;
    sample_count = 20;
    dirty = false;
    summary_valid = true;
    pending = 0;
    cached = figures_of_two_ms;
    last_ms = 2000;
  };
}

-- A loss of 0.5 %, and one of 2 %.
call_mono_example :
    let b = warm in
    let b1 = call report b in
    let b2 = call (record report { loss = 2000 }) b in
    (quality_code b1.network_quality ≤ quality_code b2.network_quality)
    × (b1.current_max_wait_ms ≤ℤ b2.current_max_wait_ms)
    × (b1.current_max_frames ≤ b2.current_max_frames)
    × (b1.machine ≡ b2.machine)
unfolding configure create
call_mono_example =
    call_mono Thousandths-IsOrdered report 2000 0 warm 80 refl (omega arith) (omega arith)
      (omega arith) refl refl refl refl refl

-- 3 ms with low latency, 5 ms when smooth.
compute_delay_for_mode_lem_example :
    let b = warm in
    let smoothed = (compute_delay_for_mode smooth b).1 in
    ((compute_delay_for_mode bypass b).1 ≡ 0)
    × (2 * 1000000 ≤ (compute_delay_for_mode low_latency b).1)
    × ((compute_delay_for_mode low_latency b).1 ≤ smoothed)
    × ((target_delay_ns b).1 ≤ smoothed)
unfolding configure create jitter_p95_ms snapshot refresh
compute_delay_for_mode_lem_example =
    compute_delay_for_mode_lem Thousandths-IsOrdered Thousandths-IsRounding warm 2 refl
      (omega arith) refl refl refl (refl, refl, refl) (refl, refl, refl)

-- Reset while the smooth mode is fixed.
calls-reset_example :
    let b' = calls (report ∷ report ∷ []) (reset (set_fixed_mode smooth warm)) in
    ((false ≡ true)
      × (b' ≡ calls (report ∷ report ∷ []) (configure default_config (create excellent))))
    ⊎ ((false ≡ false)
        × (b'.auto_mode ≡ false)
        × (b'.machine.active_mode ≡ bypass)
        × (b'.current_max_wait_ms ≡ pos 80)
        × (b'.current_max_frames ≡ 8))
unfolding set_fixed_mode configure
calls-reset_example = calls-reset (set_fixed_mode smooth warm) (report ∷ report ∷ [])

-- Reports of 60 ms of jitter, without losses: ten of them, and twenty-one.
abbrev rough_report : Report Thousandths
rough_report = record { jitter_ms = 60000; loss = 0; skip = 0; now_ns = 7 }

abbrev nine_rough : List (Report Thousandths)
nine_rough = replicate 9 rough_report

calls-poor_example :
    let b = calls (nine_rough ++ rough_report ∷ []) (configure default_config (create good)) in
    (b.network_quality ≡ poor) × (b.current_max_wait_ms ≡ pos 240) × (b.current_max_frames ≡ 32)
calls-poor_example =
    calls-poor Thousandths-IsOrdered Thousandths-IsScaling Thousandths-IsInterpolating good
      default_config nine_rough rough_report (omega arith) (omega arith) (ground arith)
      (ground arith)

calls-smooth_example :
    (calls (replicate 21 rough_report) (configure default_config (create good))).machine.active_mode
    ≡ smooth
calls-smooth_example =
    calls-smooth Thousandths-IsOrdered Thousandths-IsScaling Thousandths-IsInterpolating
      Thousandths-IsGraded good default_config (replicate 21 rough_report) (omega arith)
      (ground arith)
