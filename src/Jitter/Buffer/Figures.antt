-- ===== src/Jitter/Buffer/Figures.antt =====
-- What a call of `RecordJitter` decides, in terms of the samples: the figures that it reads are all
-- of one summary of the window.
use fastvid.Common.{ℕ, ◌≡◌, refl, sym, subst, ap, ◌∙◌, false, ◌&&◌, leb, if◌then◌else◌, arith}
use fastvid.Float.{Double}
use fastvid.Stats.{LatencyStats, snapshot, record_sample, refresh}
use fastvid.Jitter.{JitterBuffer}
use fastvid.Jitter.Rating.{quality_of, max_wait_for, max_frames_for}
use fastvid.Jitter.Transition.{evaluate_state_transition}
use fastvid.Jitter.Buffer.{
  jitter_p95_ms, jitter_50_ms, assess_network_quality, adjust, measure, compute_delay_for_mode,
  target_delay_ns, log_change, log_status, record_jitter, transition, apply_quality_params,
}
use fastvid.Jitter.Buffer.Recording.{Report, call, call-IsUntouched}

module _ {W : Type 0} ⦃d : Double W⦄ where
  -- Reading the summary changes it no more.
  abbrev IsRead : LatencyStats W → Type 0
  IsRead s = refresh false s ≡ s

  refresh-IsRead : (s : LatencyStats W) → IsRead (refresh false s)
  unfolding refresh
  refresh-IsRead s = ground arith

  jitter_p95_ms-same :
      (b : JitterBuffer W) → IsRead b.window → jitter_p95_ms b ≡ (b, b.window.cached.p95_ms)
  unfolding jitter_p95_ms snapshot
  jitter_p95_ms-same b h = ground (arith, h)

  target-same : (b : JitterBuffer W) → IsRead b.window → (target_delay_ns b).0 ≡ b
  unfolding target_delay_ns compute_delay_for_mode
  target-same b h = ground (arith, jitter_p95_ms-same b h)

  log_change-window :
      (target loss : W) (b : JitterBuffer W)
      → IsRead b.window
      → (log_change target loss b).0.window ≡ b.window
  unfolding log_change
  log_change-window target loss b h = ground (arith, jitter_p95_ms-same b h)

  log_status-window :
      (now : ℕ) (b : JitterBuffer W) → IsRead b.window → (log_status now b).0.window ≡ b.window
  unfolding log_status jitter_p95_ms jitter_50_ms snapshot
  log_status-window now b h = ground (arith, h)

  logging-window :
      (target loss : W) (now : ℕ) (b : JitterBuffer W)
      → IsRead b.window
      → (log_status now (log_change target loss b).0).0.window ≡ b.window
  logging-window target loss now b h =
      let same = log_change-window target loss b h in
      log_status-window now (log_change target loss b).0 (subst IsRead (sym same) h) ∙ same

  call-window :
      (r : Report W) (b : JitterBuffer W)
      → let b' = measure r.jitter_ms r.loss r.skip r.now_ns b in
        IsRead b'.window → (call r b).window ≡ b'.window
  unfolding call record_jitter
  call-window r b h =
      let b' = measure r.jitter_ms r.loss r.skip r.now_ns b in
      let same = target-same b' h in
      logging-window _ r.loss r.now_ns (target_delay_ns b').0
        (subst (λ (t : JitterBuffer W). IsRead t.window) (sym same) h)
      ∙ ap (λ (t : JitterBuffer W). t.window) same

  -- The window after a sample and a look at the summary.
  abbrev pub looked_at : W → LatencyStats W → LatencyStats W
  looked_at jitter_ms s = refresh false (record_sample jitter_ms s)

  -- What a call decides, given the window that it leaves.
  pub record IsDecided (r : Report W) (s : LatencyStats W) (b b' : JitterBuffer W) : Type 0 where
    pub window : b'.window ≡ s
    pub quality : b'.network_quality ≡ quality_of s.cached.p95_ms r.loss r.skip
    pub config : b'.config ≡ b.config
    pub auto_mode : b'.auto_mode ≡ b.auto_mode
    pub machine : b'.machine ≡ (
        if b.auto_mode && leb 10 s.sample_count
        then evaluate_state_transition s.cached.p95_ms r.jitter_ms r.now_ns b.machine
        else b.machine)
    pub max_wait : b'.current_max_wait_ms ≡ (
        if b.auto_mode && leb 10 s.sample_count
        then max_wait_for b.config (quality_of s.cached.p95_ms r.loss r.skip)
        else b.current_max_wait_ms)
    pub max_frames : b'.current_max_frames ≡ (
        if b.auto_mode && leb 10 s.sample_count
        then max_frames_for b.config (quality_of s.cached.p95_ms r.loss r.skip)
        else b.current_max_frames)

  assessed-eq :
      (r : Report W) (b : JitterBuffer W)
      → let s = looked_at r.jitter_ms b.window in
        assess_network_quality r.loss r.skip
          (record b { window = record_sample r.jitter_ms b.window })
        ≡ record b { window = s; network_quality = quality_of s.cached.p95_ms r.loss r.skip }
  unfolding assess_network_quality jitter_p95_ms snapshot
  assessed-eq r b = refl

  adjust-IsDecided :
      (r : Report W) (b : JitterBuffer W)
      → let s = looked_at r.jitter_ms b.window in
        IsDecided r s b (
          adjust r.jitter_ms r.now_ns
            (record b { window = s; network_quality = quality_of s.cached.p95_ms r.loss r.skip }))
  unfolding adjust apply_quality_params transition
  adjust-IsDecided r b =
      let s = looked_at r.jitter_ms b.window in
      let decided = record b {
        window = s;
        network_quality = quality_of s.cached.p95_ms r.loss r.skip;
      } in
      let read = jitter_p95_ms-same decided (refresh-IsRead (record_sample r.jitter_ms b.window)) in
      ground (arith, read)

  -- One call: the sample is recorded, the summary looked at once, and its 95th percentile decides the
  -- quality, and, in automatic mode from ten samples on, the mode and the limits.
  pub call-IsDecided :
      (r : Report W) (b : JitterBuffer W)
      → IsDecided r (looked_at r.jitter_ms b.window) b (call r b)
  unfolding measure
  call-IsDecided r b =
      let m = measure r.jitter_ms r.loss r.skip r.now_ns b in
      let s = looked_at r.jitter_ms b.window in
      let decided : IsDecided r s b m = rw (assessed-eq r b) (adjust-IsDecided r b) in
      let logged = call-IsUntouched r b in
      let read : IsRead m.window =
        subst IsRead (sym decided.window) (refresh-IsRead (record_sample r.jitter_ms b.window)) in
      record {
        window = call-window r b read ∙ decided.window;
        quality = logged.quality ∙ decided.quality;
        config = logged.config ∙ decided.config;
        auto_mode = logged.unadjusted.auto_mode ∙ decided.auto_mode;
        machine = logged.unadjusted.machine ∙ decided.machine;
        max_wait = logged.unadjusted.max_wait ∙ decided.max_wait;
        max_frames = logged.unadjusted.max_frames ∙ decided.max_frames;
      }
