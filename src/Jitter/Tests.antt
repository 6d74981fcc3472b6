-- ===== src/Jitter/Tests.antt =====
-- The jitter buffer at concrete inputs, in thousandths of a millisecond.
use fastvid.Common.{
  ltb, false, if◌then◌else◌, ℕ, ◌≤◌, ◌≡◌, refl, true, false, List, [], ◌∷◌, arith, length, drop,
  ◌++◌,
}
use fastvid.Common.Int.{pos, ltb_ℤ}
use fastvid.Text.{Text}
use fastvid.Float.{Thousandths, thousandths}
use fastvid.Jitter.{
  Mode, bypass, low_latency, smooth, Machine, good, excellent, Config, default_config, JitterBuffer,
}
use fastvid.Jitter.Transition.{evaluate_state_transition}
use fastvid.Jitter.Transition.Laws.{IsCounting, IsAdjacent, evaluate-IsCounting}
use fastvid.Jitter.Transition.Run.{Measurement, run}
use fastvid.Internal.{monotonic_now_ns}
use fastvid.Jitter.Transition.Clock.{evaluate_state_transition_clock}
use fastvid.Jitter.Transition.Dwell.{IsLowRun, smooth_run, low_latency_run}
use fastvid.Stats.Cache.{summary_of}
use fastvid.Jitter.Buffer.{empty_window, initial_machine, create, configure, record_jitter, measure}
use fastvid.Jitter.Rating.{quality_of, max_wait_for, max_frames_for}
use fastvid.Jitter.Buffer.Recording.{Report, call, calls}
use fastvid.Jitter.Buffer.Driven.{calls-run, figures, jitters}
use fastvid.Jitter.Buffer.Assessed.{calls-quality}
use fastvid.Jitter.Buffer.Startup.{calls-bypass}
use fastvid.Jitter.Rating.Shorter.{limits_order}
use fastvid.Jitter.Buffer.Logging.{IsSettled, is_settled, status_line, record_jitter_logs}

-- Measurements of 2 ms of jitter, and of 0.1 ms, with a 95th percentile of 3 ms.
abbrev high : Measurement Thousandths
high = record { p95 = 3000; jitter_ms = 2000; now_ns = 7 }

abbrev low : Measurement Thousandths
low = record { p95 = 3000; jitter_ms = 100; now_ns = 7 }

abbrev later : Measurement Thousandths
later = record { p95 = 3000; jitter_ms = 100; now_ns = 4000000000 }

abbrev in_mode : Mode → ℕ → ℕ → Machine
in_mode mode count since = record {
  active_mode = mode;
  consecutive_high_jitter = 0;
  consecutive_low_jitter = count;
  low_to_smooth_p95_exceeded = false;
  smooth_low_p95_since_ns = since;
}

evaluate-IsCounting_example :
    let m' = evaluate_state_transition {W = Thousandths} 3000 100 7 (in_mode low_latency 19 0) in
    IsCounting m' × IsAdjacent low_latency m'.active_mode
evaluate-IsCounting_example =
    evaluate-IsCounting {W = Thousandths} 3000 100 7 (in_mode low_latency 19 0)
      (record { high_below = omega arith; low_below = omega arith })

abbrev rough : Measurement Thousandths
rough = record { p95 = 6000; jitter_ms = 100; now_ns = 6 }

smooth_run_example :
    let m' = run (rough ∷ low ∷ high ∷ []) (in_mode smooth 0 5) in
    (m'.active_mode ≡ smooth) × ((run (later ∷ []) m').active_mode ≡ low_latency)
smooth_run_example =
    smooth_run rough low later (high ∷ []) (in_mode smooth 0 5) refl refl refl (omega arith)
      ((refl, omega arith), tt)

low_latency_run_example :
    IsLowRun 20 (in_mode low_latency 18 0) (run (low ∷ low ∷ []) (in_mode low_latency 18 0))
low_latency_run_example =
    low_latency_run (low ∷ low ∷ []) (in_mode low_latency 18 0) refl
      ((refl, refl), ((refl, refl), tt)) (omega arith) (omega arith)

abbrev config : Config Thousandths
config = default_config

limits_order_example :
    let c = record config { base_max_wait_ms = pos 30 } in
    (ltb_ℤ (max_wait_for c good) (max_wait_for c excellent) ≡ true)
    × (ltb (max_frames_for c good) (max_frames_for c excellent) ≡ false)
limits_order_example =
    limits_order (record config { base_max_wait_ms = pos 30 }) 30 excellent good refl (omega arith)
      (omega arith)

abbrev report : Report Thousandths
report = record { jitter_ms = 2000; loss = 500; skip = 0; now_ns = 7 }

abbrev buffer : JitterBuffer Thousandths
buffer = configure config (create good)

-- The first call at 6 s: the status line is due.
record_jitter_logs_example :
    let (b', lines) = record_jitter 2000 500 0 6000000000 buffer in
    IsSettled b'
    × ((changes : List Text) × (length changes
          ≡ (if is_settled (measure 2000 500 0 6000000000 buffer) then 0 else 1))
        × (lines
            ≡ changes
              ++ status_line b'.current_max_wait_ms b'.current_max_frames b'.window.sample_count
                ∷ []))
    × (b'.last_periodic_log_ns ≡ 6000000000)
unfolding configure create
record_jitter_logs_example = record_jitter_logs 2000 500 0 6000000000 buffer

-- Nine and eighteen reports.
abbrev nine_reports : List (Report Thousandths)
nine_reports = report ∷ report ∷ report ∷ report ∷ report ∷ report ∷ report ∷ report ∷ report ∷ []

abbrev eighteen_reports : List (Report Thousandths)
eighteen_reports = nine_reports ++ nine_reports

calls-run_example :
    (calls eighteen_reports buffer).machine
    ≡ run (drop 9 (figures empty_window eighteen_reports)) initial_machine
calls-run_example = calls-run good config eighteen_reports (omega arith)

calls-quality_example :
    let b = calls (nine_reports ++ report ∷ []) buffer in
    ((fresh recent : List Thousandths) × (jitters nine_reports ++ 2000 ∷ [] ≡ fresh ++ recent)
      × (length recent ≤ 3)
      × (b.network_quality ≡ quality_of (summary_of 100 fresh).p95_ms 500 0))
    × (b.current_max_wait_ms ≡ max_wait_for config b.network_quality)
    × (b.current_max_frames ≡ max_frames_for config b.network_quality)
calls-quality_example = calls-quality good config nine_reports report (omega arith)

calls-bypass_example :
    let b = calls eighteen_reports buffer in
    (b.machine.active_mode ≡ bypass) × ((call report b).machine.active_mode ≡ low_latency)
calls-bypass_example =
    calls-bypass good config eighteen_reports report (omega arith) (omega arith) (omega arith)

-- The clock at 10.5 s and at 13.5 s.
evaluate_state_transition_clock_example :
    let m = in_mode smooth 0 10500000000 in
    (evaluate_state_transition {W = Thousandths} 3000 100
      (monotonic_now_ns 13 500000000)
      m).active_mode
    ≡ low_latency
unfolding monotonic_now_ns
evaluate_state_transition_clock_example =
    evaluate_state_transition_clock {W = Thousandths} 3000 100 10 500000000 13 500000000 3000000000
      (in_mode smooth 0 10500000000) (omega arith) (omega arith) refl refl (omega arith) refl
