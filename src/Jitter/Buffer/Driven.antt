-- ===== src/Jitter/Buffer/Driven.antt =====
-- Reports to a buffer in automatic mode: the window of samples and the state machine together.
use fastvid.Common.{
  suc, ◌+◌, ◌-◌, ◌<◌, ◌^◌, ◌≡◌, refl, sym, ◌∙◌, true, false, List, [], ◌∷◌, ◌++◌, arith, length,
  drop, min, append_assoc, append-nil, length-append, dec_lt, drop-nil,
}
use fastvid.Float.{Double}
use fastvid.Stats.{LatencyStats, Summary, record_sample, refresh, snapshot}
use fastvid.Stats.Cache.{Tracks, refresh-IsRefreshed}
use fastvid.Stats.Lag.{
  record_sample-Tracks, create-Tracks, record_sample-settings, refresh-settings,
}
use fastvid.Jitter.{Quality, Config, JitterBuffer}
use fastvid.Jitter.Transition.{evaluate_state_transition}
use fastvid.Jitter.Transition.Run.{Measurement, run}
use fastvid.Jitter.Buffer.{create, configure, initial_machine, empty_window}
use fastvid.Jitter.Buffer.Recording.{Report, call, calls}
use fastvid.Jitter.Buffer.Figures.{looked_at, call-IsDecided}

module _ {W : Type 0} ⦃d : Double W⦄ where
  abbrev pub jitters : List (Report W) → List W
  jitters [] = []
  jitters (r ∷ rs) = r.jitter_ms ∷ jitters rs

  -- What the state machine is given, when the window is `s` before the reports.
  abbrev pub figures : LatencyStats W → List (Report W) → List (Measurement W)
  figures s [] = []
  figures s (r ∷ rs) =
      let s' = looked_at r.jitter_ms s in
      record { p95 = s'.cached.p95_ms; jitter_ms = r.jitter_ms; now_ns = r.now_ns } ∷ figures s' rs

  -- A buffer in automatic mode with the configuration `c`, whose window has had these samples.
  pub record IsDriven (c : Config W) (history : List W) (b : JitterBuffer W) : Type 0 where
    pub tracks : Tracks b.window history
    pub room : b.window.max_samples ≡ 100
    pub interval : b.window.refresh_interval ≡ 4
    pub auto_mode : b.auto_mode ≡ true
    pub config : b.config ≡ c

  pub started : (garbage : Quality) (c : Config W) → IsDriven c [] (configure c (create garbage))
  unfolding create configure empty_window fastvid.Stats.create
  started garbage c = record {
    tracks = create-Tracks 100 4 (omega arith);
    room = refl;
    interval = refl;
    auto_mode = refl;
    config = refl;
  }

  pub looked_at-settings :
      (v : W) (s : LatencyStats W)
      → ((looked_at v s).max_samples ≡ s.max_samples)
        × ((looked_at v s).refresh_interval ≡ s.refresh_interval)
  looked_at-settings v s =
      let (room, interval) = record_sample-settings v s in
      let (room', interval') = refresh-settings false (record_sample v s) in
      (room' ∙ room, interval' ∙ interval)

  call-IsDriven :
      (r : Report W) {c : Config W} {history : List W} {b : JitterBuffer W}
      → length history < 2 ^ 64 - 1
      → IsDriven c history b
      → IsDriven c (history ++ r.jitter_ms ∷ []) (call r b)
  call-IsDriven r {c} {history} {b} small h =
      let done = call-IsDecided r b in
      let looked = refresh-IsRefreshed false (record_sample-Tracks r.jitter_ms small h.tracks) in
      let (room, interval) = looked_at-settings r.jitter_ms b.window in
      record {
        tracks = rw done.window looked.tracks;
        room = rw done.window (room ∙ h.room);
        interval = rw done.window (interval ∙ h.interval);
        auto_mode = done.auto_mode ∙ h.auto_mode;
        config = done.config ∙ h.config;
      }

  pub calls-IsDriven :
      (rs : List (Report W)) {c : Config W} (history : List W) {b : JitterBuffer W}
      → length history + length rs < 2 ^ 64
      → IsDriven c history b
      → IsDriven c (history ++ jitters rs) (calls rs b)
  unfolding calls
  calls-IsDriven [] history small h = rw append-nil h
  calls-IsDriven (r ∷ rs) {c} history {b} small h = rw append_assoc at (
      calls-IsDriven rs (history ++ r.jitter_ms ∷ [])
        (omega (arith, length-append history (r.jitter_ms ∷ []))) (call-IsDriven r (omega arith) h))

  -- How many samples a call sees.
  pub looked_at-count :
      (v : W) {s : LatencyStats W} {history : List W}
      → length history < 2 ^ 64 - 1
      → Tracks s history
      → (looked_at v s).sample_count ≡ min (length history + 1) s.max_samples
  looked_at-count v {s} {history} small t =
      let looked = refresh-IsRefreshed false (record_sample-Tracks v small t) in
      let (room, interval) = looked_at-settings v s in
      omega (arith, looked.tracks.held.counted, room, length-append history (v ∷ []))

  -- The machine of a driven buffer takes the steps of `run`, one for each report from the tenth on.
  pub driven_run :
      (rs : List (Report W)) {c : Config W} (history : List W) {b : JitterBuffer W}
      → length history + length rs < 2 ^ 64
      → IsDriven c history b
      → (calls rs b).machine ≡ run (drop (9 - length history) (figures b.window rs)) b.machine
  unfolding calls run
  driven_run [] {c} history {b} small h = rw (drop-nil (Measurement W) (9 - length history)) refl
  driven_run (r ∷ rs) {c} history {b} small h =
      let done = call-IsDecided r b in
      let count = looked_at-count r.jitter_ms (omega arith) h.tracks in
      let longer = length-append history (r.jitter_ms ∷ []) in
      let rest : (calls rs (call r b)).machine
          ≡ run
              (drop (9 - length (history ++ r.jitter_ms ∷ []))
                (figures (looked_at r.jitter_ms b.window) rs))
              (call r b).machine =
        rw (sym done.window) (
          driven_run rs (history ++ r.jitter_ms ∷ []) (omega (arith, longer))
            (call-IsDriven r (omega arith) h)) in
      elim (dec_lt (length history) 9) [
        | yes few ↦
            let idle : (call r b).machine ≡ b.machine = ground (arith, done.machine, count) in
            let one_less : 9 - length history ≡ suc (9 - length (history ++ r.jitter_ms ∷ [])) =
              omega (arith, longer) in
            rest ∙ rw (idle, one_less) refl
        | no many ↦
            let moved : (call r b).machine
                ≡ evaluate_state_transition (looked_at r.jitter_ms b.window).cached.p95_ms
                    r.jitter_ms r.now_ns b.machine =
              ground (arith, done.machine, count, h.auto_mode, h.room) in
            let none_left : 9 - length (history ++ r.jitter_ms ∷ []) ≡ 0 = omega (arith, longer) in
            let all_run : 9 - length history ≡ 0 = omega arith in
            rest ∙ rw (moved, none_left, all_run) refl
      ]

  -- From the construction and `Configure` on, with fewer than 2 ^ 64 reports: the state machine takes
  -- exactly the steps of a run, one for each report from the tenth on, with the jitter and the time
  -- that are reported and the 95th percentile of the window's summary after the sample; the first
  -- nine reports give it nothing.
  pub calls-run :
      (garbage : Quality) (c : Config W) (rs : List (Report W))
      → length rs < 2 ^ 64
      → (calls rs (configure c (create garbage))).machine
        ≡ run (drop 9 (figures empty_window rs)) initial_machine
  unfolding create configure empty_window fastvid.Stats.create
  calls-run garbage c rs small = driven_run rs [] (omega arith) (started garbage c)

  pub length-figures :
      (s : LatencyStats W) (rs : List (Report W)) → length (figures s rs) ≡ length rs
  length-figures s [] = refl
  length-figures s (r ∷ rs) = omega (arith, length-figures (looked_at r.jitter_ms s) rs)

  pub length-jitters : (rs : List (Report W)) → length (jitters rs) ≡ length rs
  length-jitters [] = refl
  length-jitters (r ∷ rs) = omega (arith, length-jitters rs)
