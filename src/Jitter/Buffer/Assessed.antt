-- ===== src/Jitter/Buffer/Assessed.antt =====
-- What quality a report leads to, and which limits.
use fastvid.Common.{
  ◌-◌, ◌≤◌, ◌<◌, ◌^◌, ◌≡◌, refl, ap, ◌∙◌, false, leb, if◌then◌else◌, List, [], ◌∷◌, ◌++◌, arith,
  length, dec_lt,
}
use fastvid.Float.{Double}
use fastvid.Stats.{Summary}
use fastvid.Stats.Cache.{summary_of, refresh-IsRefreshed}
use fastvid.Stats.Lag.{record_sample-Tracks, record_sample-settings}
use fastvid.Jitter.{Quality, Config, JitterBuffer}
use fastvid.Jitter.Rating.{quality_of, max_wait_for, max_frames_for}
use fastvid.Jitter.Buffer.{create, configure}
use fastvid.Jitter.Buffer.Recording.{Report, call, calls, calls-configure}
use fastvid.Jitter.Buffer.Figures.{looked_at, call-IsDecided}
use fastvid.Jitter.Buffer.Driven.{
  jitters, IsDriven, started, calls-IsDriven, looked_at-count, length-jitters,
}

module _ {W : Type 0} ⦃d : Double W⦄ where
  calls-snoc :
      (rs : List (Report W)) (r : Report W) (b : JitterBuffer W)
      → calls (rs ++ r ∷ []) b ≡ call r (calls rs b)
  unfolding calls
  calls-snoc [] r b = refl
  calls-snoc (q ∷ rs) r b = calls-snoc rs r (call q b)

  -- The quality that a report to a driven buffer leads to, and the limits.
  driven_call :
      (r : Report W) {c : Config W} {history : List W} {b : JitterBuffer W}
      → length history < 2 ^ 64 - 1
      → IsDriven c history b
      → let b' = call r b in
        ((fresh recent : List W) × (history ++ r.jitter_ms ∷ [] ≡ fresh ++ recent)
          × (length recent ≤ 3)
          × (b'.network_quality ≡ quality_of (summary_of 100 fresh).p95_ms r.loss r.skip))
        × (b'.current_max_wait_ms ≡ (
            if leb 9 (length history)
            then max_wait_for c b'.network_quality
            else b.current_max_wait_ms))
        × (b'.current_max_frames ≡ (
            if leb 9 (length history)
            then max_frames_for c b'.network_quality
            else b.current_max_frames))
  driven_call r {c} {history} {b} small h =
      let done = call-IsDecided r b in
      let count = looked_at-count r.jitter_ms small h.tracks in
      let looked = refresh-IsRefreshed false (record_sample-Tracks r.jitter_ms small h.tracks) in
      let (room, interval) = record_sample-settings r.jitter_ms b.window in
      let cached : (looked_at r.jitter_ms b.window).cached ≡ summary_of 100 looked.fresh =
        looked.cached ∙ ap (λ m. summary_of m looked.fresh) (room ∙ h.room) in
      (
        (
          looked.fresh,
          looked.recent,
          looked.split,
          omega (arith, looked.lag, interval, h.interval),
          done.quality ∙ ap (λ (s : Summary W). quality_of s.p95_ms r.loss r.skip) cached,
        ),
        ground (arith, done.max_wait, done.quality, count, h.auto_mode, h.room, h.config),
        ground (arith, done.max_frames, done.quality, count, h.auto_mode, h.room, h.config),
      )

  -- The report `r` after the reports `rs`, all of them from the construction and `Configure` on,
  -- fewer than 2 ^ 64: the quality is that of the 95th percentile of the newest 100 samples, the last
  -- few left out, at most three, and of the loss and the skips that `r` reports. From the tenth report
  -- on the limits are those of this quality; before, they are the configured ones.
  pub calls-quality :
      (garbage : Quality) (c : Config W) (rs : List (Report W)) (r : Report W)
      → length rs < 2 ^ 64 - 1
      → let b = calls (rs ++ r ∷ []) (configure c (create garbage)) in
        ((fresh recent : List W) × (jitters rs ++ r.jitter_ms ∷ [] ≡ fresh ++ recent)
          × (length recent ≤ 3)
          × (b.network_quality ≡ quality_of (summary_of 100 fresh).p95_ms r.loss r.skip))
        × (b.current_max_wait_ms
            ≡ (if leb 9 (length rs) then max_wait_for c b.network_quality else c.base_max_wait_ms))
        × (b.current_max_frames
            ≡ (if leb 9 (length rs) then max_frames_for c b.network_quality else c.base_max_frames))
  calls-quality garbage c rs r small =
      let started_with = configure c (create garbage) in
      let many = length-jitters rs in
      let driven = calls-IsDriven rs [] (omega arith) (started garbage c) in
      let (quality, wait, frames) = driven_call r (omega (arith, many)) driven in
      elim (dec_lt (length rs) 9) [
        | yes few ↦
            let (mode, wait_kept, frames_kept) = calls-configure garbage c rs (omega arith) in
            rw (calls-snoc rs r started_with) (
              quality,
              ground (arith, wait, wait_kept, many),
              ground (arith, frames, frames_kept, many),
            )
        | no enough ↦
            rw (calls-snoc rs r started_with)
              (quality, ground (arith, wait, many), ground (arith, frames, many))
      ]
