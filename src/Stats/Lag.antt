-- ===== src/Stats/Lag.antt =====
-- How far a summary lags behind the samples, over any sequence of calls.
use fastvid.Common.{
  ℕ, ◌+◌, ◌-◌, ◌≤◌, ◌<◌, ◌^◌, ◌≡◌, refl, sym, ap, ◌∙◌, Bool, true, false, List, [], ◌∷◌, ◌++◌,
  arith, length, length-append, append_assoc, append-nil, get_or-snoc, max,
}
use fastvid.Common.Words.{u64}
use fastvid.Float.{Double}
use fastvid.Stats.{LatencyStats, create, record_sample, refresh, snapshot, zero_ms}
use fastvid.Stats.Window.{record_sample-Holds, create-Holds, max-record_sample}
use fastvid.Stats.Cache.{summary_of, IsStale, Tracks, IsRefreshed, refresh-IsRefreshed}

-- The calls of a client: a sample, a look at the summary, and a look that forces a refresh, as
-- `Format` does.
pub data Call (W : Type 0) : Type 0 where
  sample : W → Call W
  query : Call W
  force : Call W

module _ {W : Type 0} ⦃d : Double W⦄ where
  record_sample-cache :
      (v : W) (s : LatencyStats W)
      → 1 ≤ s.max_samples
      → ((record_sample v s).cached ≡ s.cached)
        × ((record_sample v s).summary_valid ≡ s.summary_valid)
        × ((record_sample v s).dirty ≡ true)
        × ((record_sample v s).pending ≡ u64 (s.pending + 1))
        × ((record_sample v s).last_ms ≡ v)
        × ((record_sample v s).refresh_interval ≡ s.refresh_interval)
  unfolding record_sample
  record_sample-cache v s room = ground arith

  record_sample-IsStale :
      (v : W) {s : LatencyStats W} (fresh recent : List W)
      → 1 ≤ s.max_samples
      → length recent < 2 ^ 64 - 1
      → IsStale s fresh recent
      → IsStale (record_sample v s) fresh (recent ++ v ∷ [])
  record_sample-IsStale v {s} fresh recent room small old =
      let (cached, valid, dirty, pending, last, interval) = record_sample-cache v s room in
      record {
        is_cached =
            cached ∙ old.is_cached ∙ ap (λ m. summary_of m fresh) (sym (max-record_sample v s));
        is_counted = omega (arith, pending, old.is_counted, length-append recent (v ∷ []));
        is_clean = λ clean. ground (arith, dirty);
      }

  pub record_sample-Tracks :
      (v : W) {s : LatencyStats W} {history : List W}
      → length history < 2 ^ 64 - 1
      → Tracks s history
      → Tracks (record_sample v s) (history ++ v ∷ [])
  record_sample-Tracks v {s} {history} small t =
      let (cached, valid, dirty, pending, last, interval) = record_sample-cache v s t.held.room in
      record {
        held = record_sample-Holds v t.held;
        latest = last ∙ sym (get_or-snoc history v zero_ms);
        interval_pos = rw interval t.interval_pos;
        stale = λ is_valid.
            let (fresh, recent, e, old) = t.stale (sym valid ∙ is_valid) in
            (
              fresh,
              recent ++ v ∷ [],
              ap (λ (xs : List W). xs ++ v ∷ []) e ∙ append_assoc fresh recent (v ∷ []),
              record_sample-IsStale v fresh recent t.held.room
                  (omega (arith, ap length e, length-append fresh recent)) old,
            );
      }

  pub create-Tracks : (n k : ℕ) → 1 ≤ n → Tracks {W = W} (create n k) []
  unfolding create
  create-Tracks n k h = record {
    held = create-Holds n k h;
    latest = refl;
    interval_pos = omega arith;
    stale = λ valid. ground arith;
  }

  unfoldable pub apply : List (Call W) → LatencyStats W → LatencyStats W
  apply [] s = s
  apply (sample v ∷ calls) s = apply calls (record_sample v s)
  apply (query ∷ calls) s = apply calls (refresh false s)
  apply (force ∷ calls) s = apply calls (refresh true s)

  abbrev pub samples_of : List (Call W) → List W
  samples_of [] = []
  samples_of (sample v ∷ calls) = v ∷ samples_of calls
  samples_of (query ∷ calls) = samples_of calls
  samples_of (force ∷ calls) = samples_of calls

  apply-Tracks :
      (calls : List (Call W)) {s : LatencyStats W} (history : List W)
      → length (history ++ samples_of calls) < 2 ^ 64
      → Tracks s history
      → Tracks (apply calls s) (history ++ samples_of calls)
  unfolding apply
  apply-Tracks [] history small t = rw append-nil t
  apply-Tracks (sample v ∷ calls) history small t =
      let regroup = append_assoc history (v ∷ []) (samples_of calls) in
      rw regroup at (
        apply-Tracks calls (history ++ v ∷ []) (rw regroup small)
          (record_sample-Tracks v (omega (arith, length-append history (v ∷ samples_of calls))) t))
  apply-Tracks (query ∷ calls) history small t =
      apply-Tracks calls history small (refresh-IsRefreshed false t).tracks
  apply-Tracks (force ∷ calls) history small t =
      apply-Tracks calls history small (refresh-IsRefreshed true t).tracks

  pub refresh-settings :
      (now : Bool) (s : LatencyStats W)
      → ((refresh now s).max_samples ≡ s.max_samples)
        × ((refresh now s).refresh_interval ≡ s.refresh_interval)
  unfolding refresh
  refresh-settings now s = ground arith

  pub record_sample-settings :
      (v : W) (s : LatencyStats W)
      → ((record_sample v s).max_samples ≡ s.max_samples)
        × ((record_sample v s).refresh_interval ≡ s.refresh_interval)
  unfolding record_sample
  record_sample-settings v s = ground arith

  apply-settings :
      (calls : List (Call W)) (s : LatencyStats W)
      → ((apply calls s).max_samples ≡ s.max_samples)
        × ((apply calls s).refresh_interval ≡ s.refresh_interval)
  unfolding apply
  apply-settings [] s = (refl, refl)
  apply-settings (sample v ∷ calls) s =
      let (room, interval) = apply-settings calls (record_sample v s) in
      let (room', interval') = record_sample-settings v s in (room ∙ room', interval ∙ interval')
  apply-settings (query ∷ calls) s =
      let (room, interval) = apply-settings calls (refresh false s) in
      let (room', interval') = refresh-settings false s in (room ∙ room', interval ∙ interval')
  apply-settings (force ∷ calls) s =
      let (room, interval) = apply-settings calls (refresh true s) in
      let (room', interval') = refresh-settings true s in (room ∙ room', interval ∙ interval')

  -- A forced refresh leaves out nothing.
  forced_summary :
      {s s' : LatencyStats W} {history : List W}
      → IsRefreshed true s s' history
      → s'.cached ≡ summary_of s.max_samples history
  forced_summary {s} {history = history} now =
      let whole : history ≡ now.fresh =
        now.split ∙ ap (λ r. now.fresh ++ r) (now.forced refl) ∙ append-nil now.fresh in
      now.cached ∙ ap (summary_of s.max_samples) (sym whole)

  -- Of a window made for `n` samples, at least one, after any sequence of fewer than 2 ^ 64 samples,
  -- queries and forced refreshes: `Snapshot` returns the summary of the samples without the last few,
  -- fewer of them than the refresh interval, which counts as 1 if it is 0; and a forced refresh
  -- leaves out none. The summary is that of the newest `n` samples of these.
  pub snapshot_lag :
      (n k : ℕ) (calls : List (Call W))
      → 1 ≤ n
      → length (samples_of calls) < 2 ^ 64
      → let s = apply calls (create n k) in
        ((fresh recent : List W) × (samples_of calls ≡ fresh ++ recent)
          × ((snapshot s).1 ≡ summary_of n fresh)
          × (length recent < max 1 k))
        × ((refresh true s).cached ≡ summary_of n (samples_of calls))
  unfolding snapshot create
  snapshot_lag n k calls room small =
      let tracks = apply-Tracks calls [] small (create-Tracks n k room) in
      let (same, interval) = apply-settings calls (create n k) in
      let lazy = refresh-IsRefreshed false tracks in
      let now = refresh-IsRefreshed true tracks in
      (
        (
          lazy.fresh,
          lazy.recent,
          lazy.split,
          lazy.cached ∙ ap (λ m. summary_of m lazy.fresh) same,
          omega (arith, lazy.lag, interval),
        ),
        forced_summary now ∙ ap (λ m. summary_of m (samples_of calls)) same,
      )
