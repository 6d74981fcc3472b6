-- ===== src/Jitter/Buffer/Recording.antt =====
-- Runs of calls of `RecordJitter`, with the other operations around them.
use fastvid.Common.{
  ℕ, ◌+◌, ◌≤◌, ◌<◌, ◌≡◌, ◌⊎◌, inl, inr, refl, subst, ap, ◌∙◌, true, false, List, [], ◌∷◌, arith,
  length,
}
use fastvid.Float.{Double}
use fastvid.Stats.{LatencyStats, snapshot, record_sample, refresh}
use fastvid.Jitter.{
  Mode, bypass, low_latency, smooth, Quality, excellent, Config, Machine, JitterBuffer,
}
use fastvid.Jitter.Buffer.{
  create, configure, jitter_p95_ms, jitter_50_ms, assess_network_quality, adjust, measure,
  compute_delay_for_mode, target_delay_ns, log_change, log_status, record_jitter, set_fixed_mode,
  enable_auto_mode, reset, transition, apply_quality_params,
}

-- The arguments of a call.
pub record Report (W : Type 0) : Type 0 where
  pub jitter_ms : W
  pub loss : W
  pub skip : W
  pub now_ns : ℕ

module _ {W : Type 0} ⦃d : Double W⦄ where
  -- The state after a call, and after a sequence of them.
  unfoldable pub call : Report W → JitterBuffer W → JitterBuffer W
  unfolding record_jitter
  call r b = (record_jitter r.jitter_ms r.loss r.skip r.now_ns b).0

  unfoldable pub calls : List (Report W) → JitterBuffer W → JitterBuffer W
  calls [] b = b
  calls (r ∷ rs) b = calls rs (call r b)

  -- The members that the adjustment changes.
  pub record IsUnadjusted (b b' : JitterBuffer W) : Type 0 where
    pub machine : b'.machine ≡ b.machine
    pub auto_mode : b'.auto_mode ≡ b.auto_mode
    pub max_wait : b'.current_max_wait_ms ≡ b.current_max_wait_ms
    pub max_frames : b'.current_max_frames ≡ b.current_max_frames

  count-snapshot : (s : LatencyStats W) → (snapshot s).0.sample_count ≡ s.sample_count
  unfolding snapshot refresh
  count-snapshot s = ground arith

  count-record_sample :
      (v : W) (s : LatencyStats W) → (record_sample v s).sample_count ≤ s.sample_count + 1
  unfolding record_sample
  count-record_sample v s = ground arith

  -- The members that the logging and the reading of figures leave alone.
  pub record IsUntouched (b b' : JitterBuffer W) : Type 0 where
    pub unadjusted : IsUnadjusted b b'
    pub config : b'.config ≡ b.config
    pub quality : b'.network_quality ≡ b.network_quality
    pub count : b'.window.sample_count ≡ b.window.sample_count

  target_delay_ns-IsUntouched : (b : JitterBuffer W) → IsUntouched b (target_delay_ns b).0
  unfolding target_delay_ns compute_delay_for_mode jitter_p95_ms
  target_delay_ns-IsUntouched b = ground (arith, count-snapshot b.window)

  log_change-IsUntouched :
      (target loss : W) (b : JitterBuffer W) → IsUntouched b (log_change target loss b).0
  unfolding log_change jitter_p95_ms
  log_change-IsUntouched target loss b = ground (arith, count-snapshot b.window)

  pub log_status-IsUntouched : (now : ℕ) (b : JitterBuffer W) → IsUntouched b (log_status now b).0
  unfolding log_status jitter_p95_ms jitter_50_ms
  log_status-IsUntouched now b =
      ground (arith, count-snapshot b.window, count-snapshot (snapshot b.window).0)

  IsUnadjusted-trans :
      {a b c : JitterBuffer W} → IsUnadjusted a b → IsUnadjusted b c → IsUnadjusted a c
  IsUnadjusted-trans p q = record {
    machine = q.machine ∙ p.machine;
    auto_mode = q.auto_mode ∙ p.auto_mode;
    max_wait = q.max_wait ∙ p.max_wait;
    max_frames = q.max_frames ∙ p.max_frames;
  }

  IsUntouched-trans : {a b c : JitterBuffer W} → IsUntouched a b → IsUntouched b c → IsUntouched a c
  IsUntouched-trans p q = record {
    unadjusted = IsUnadjusted-trans p.unadjusted q.unadjusted;
    config = q.config ∙ p.config;
    quality = q.quality ∙ p.quality;
    count = q.count ∙ p.count;
  }

  -- After the measuring, a call only logs.
  pub call-IsUntouched :
      (r : Report W) (b : JitterBuffer W)
      → IsUntouched (measure r.jitter_ms r.loss r.skip r.now_ns b) (call r b)
  unfolding call record_jitter
  call-IsUntouched r b =
      IsUntouched-trans (target_delay_ns-IsUntouched _)
        (IsUntouched-trans (log_change-IsUntouched _ r.loss _) (log_status-IsUntouched r.now_ns _))

  assess-IsUnadjusted :
      (r : Report W) (b : JitterBuffer W)
      → let b' =
          assess_network_quality r.loss r.skip
            (record b { window = record_sample r.jitter_ms b.window }) in
        IsUnadjusted b b' × (b'.window.sample_count ≤ b.window.sample_count + 1)
  unfolding assess_network_quality jitter_p95_ms
  assess-IsUnadjusted r b = ground (
    arith,
    count-snapshot (record_sample r.jitter_ms b.window),
    count-record_sample r.jitter_ms b.window,
  )

  adjust-same :
      (v : W) (now : ℕ) (b : JitterBuffer W)
      → (b.auto_mode ≡ false) ⊎ (b.window.sample_count < 10)
      → adjust v now b ≡ b
  unfolding adjust
  adjust-same v now b h = ground arith

  call-IsUnadjusted :
      (r : Report W) (b : JitterBuffer W)
      → (b.auto_mode ≡ false) ⊎ (b.window.sample_count + 1 < 10)
      → IsUnadjusted b (call r b) × ((call r b).window.sample_count ≤ b.window.sample_count + 1)
  unfolding measure
  call-IsUnadjusted r b h =
      let (assessed, count) = assess-IsUnadjusted r b in
      let same =
        adjust-same r.jitter_ms r.now_ns
          (assess_network_quality r.loss r.skip
            (record b { window = record_sample r.jitter_ms b.window }))
          (ground (arith, assessed.auto_mode)) in
      let logged = call-IsUntouched r b in
      (
        IsUnadjusted-trans assessed (subst (λ t. IsUnadjusted t (call r b)) same logged.unadjusted),
        omega (arith, logged.count, count, ap (λ (t : JitterBuffer W). t.window.sample_count) same),
      )

  pub calls-IsUnadjusted :
      (rs : List (Report W)) (b : JitterBuffer W)
      → (b.auto_mode ≡ false) ⊎ (b.window.sample_count + length rs < 10)
      → IsUnadjusted b (calls rs b)
  unfolding calls
  calls-IsUnadjusted [] b h = record {
    machine = refl;
    auto_mode = refl;
    max_wait = refl;
    max_frames = refl;
  }
  calls-IsUnadjusted (r ∷ rs) b h =
      let (first, count) = call-IsUnadjusted r b (ground arith) in
      IsUnadjusted-trans first (calls-IsUnadjusted rs (call r b) (ground (arith, first.auto_mode)))

  -- Once a mode is set, no sequence of reports changes the mode or the limits, and the next switch
  -- to automatic mode starts from them.
  set_fixed_mode_lem :
      (mode : Mode) (rs : List (Report W)) (b : JitterBuffer W)
      → let b' = enable_auto_mode (calls rs (set_fixed_mode mode b)) in
        (b'.machine.active_mode ≡ mode)
        × (b'.current_max_wait_ms ≡ b.current_max_wait_ms)
        × (b'.current_max_frames ≡ b.current_max_frames)
        × (b'.auto_mode ≡ true)
  unfolding enable_auto_mode set_fixed_mode
  set_fixed_mode_lem mode rs b =
      let kept = calls-IsUnadjusted rs (set_fixed_mode mode b) (inl refl) in
      (ap (λ (t : Machine). t.active_mode) kept.machine, kept.max_wait, kept.max_frames, refl)

  -- Fewer than ten reports after the construction, whatever they say, change neither the mode nor
  -- the limits: the buffer is in bypass mode, with the limits that it was configured with.
  pub calls-configure :
      (garbage : Quality) (c : Config W) (rs : List (Report W))
      → length rs < 10
      → let b = calls rs (configure c (create garbage)) in
        (b.machine.active_mode ≡ bypass)
        × (b.current_max_wait_ms ≡ c.base_max_wait_ms)
        × (b.current_max_frames ≡ c.base_max_frames)
  unfolding configure create fastvid.Jitter.Buffer.empty_window
  calls-configure garbage c rs few =
      let kept = calls-IsUnadjusted rs (configure c (create garbage)) (inr (omega arith)) in
      (ap (λ (t : Machine). t.active_mode) kept.machine, kept.max_wait, kept.max_frames)

  -- `Reset` leaves the buffer as the construction and `Configure` with the same configuration do,
  -- except that the automatic mode stays as it was, and that the quality last logged is set.
  pub reset-configure :
      (b : JitterBuffer W)
      → reset b ≡ record (configure b.config (create excellent)) { auto_mode = b.auto_mode }
  unfolding reset configure create
  reset-configure b = refl
