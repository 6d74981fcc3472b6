-- ===== src/Stats/Roomless.antt =====
-- A window without room: `Record` keeps the last sample only.
use fastvid.Common.{
  ℕ, ◌≡◌, refl, Bool, true, false, List, [], ◌∷◌, ◌++◌, arith, length, append_assoc, append-nil,
  ◌-◌, get_or, get_or-snoc,
}
use fastvid.Float.{Double}
use fastvid.Stats.{
  LatencyStats, Summary, create, record_sample, refresh, snapshot, build_summary, has_samples,
  zero_ms, default_summary,
}
use fastvid.Stats.Lag.{Call, sample, query, force, apply, samples_of}

module _ {W : Type 0} ⦃d : Double W⦄ where
  -- No figure but the last sample.
  abbrev only_last : W → Summary W
  only_last last = record default_summary { last_ms = last }

  abbrev last_of : List W → W
  last_of history = get_or history (length history - 1) zero_ms

  record IsRoomless (s : LatencyStats W) (history : List W) : Type 0 where
    room : s.max_samples ≡ 0
    count : s.sample_count ≡ 0
    last : s.last_ms ≡ last_of history
    cached : s.summary_valid ≡ true → s.cached ≡ only_last s.last_ms

  build_summary-count :
      (s : LatencyStats W) → s.sample_count ≡ 0 → build_summary s ≡ only_last s.last_ms
  unfolding build_summary
  build_summary-count s e = ground (arith, e)

  refresh-IsRoomless :
      (now : Bool) (s : LatencyStats W) (history : List W)
      → IsRoomless s history
      → IsRoomless (refresh now s) history × ((refresh now s).cached ≡ only_last (last_of history))
  unfolding refresh
  refresh-IsRoomless now s history h =
      ground (arith, build_summary-count s h.count, h.cached, h.last)

  record_sample-IsRoomless :
      (v : W) (s : LatencyStats W) (history : List W)
      → IsRoomless s history
      → IsRoomless (record_sample v s) (history ++ v ∷ [])
  unfolding record_sample
  record_sample-IsRoomless v s history h =
      ground (arith, h.room, h.count, get_or-snoc history v zero_ms)

  apply-IsRoomless :
      (calls : List (Call W)) (s : LatencyStats W) (history : List W)
      → IsRoomless s history
      → IsRoomless (apply calls s) (history ++ samples_of calls)
  unfolding apply
  apply-IsRoomless [] s history h = rw append-nil h
  apply-IsRoomless (sample v ∷ calls) s history h =
      let regroup = append_assoc history (v ∷ []) (samples_of calls) in
      rw regroup at (
        apply-IsRoomless calls (record_sample v s) (history ++ v ∷ [])
          (record_sample-IsRoomless v s history h))
  apply-IsRoomless (query ∷ calls) s history h =
      apply-IsRoomless calls (refresh false s) history (refresh-IsRoomless false s history h).0
  apply-IsRoomless (force ∷ calls) s history h =
      apply-IsRoomless calls (refresh true s) history (refresh-IsRoomless true s history h).0

  create-IsRoomless : (k : ℕ) → IsRoomless (create 0 k) []
  unfolding create
  create-IsRoomless k = record {
    room = refl;
    count = refl;
    last = refl;
    cached = λ valid. ground arith;
  }

  -- A window with capacity 0: after any sequence of samples, queries and forced refreshes there are no
  -- samples, and both `Snapshot` and a forced refresh give the last sample, the newest included, or 0
  -- where there was none, with all other figures 0.
  snapshot_roomless :
      (k : ℕ) (calls : List (Call W))
      → let s = apply calls (create 0 k) in
        let summary = only_last (last_of (samples_of calls)) in
        (has_samples s ≡ false) × ((snapshot s).1 ≡ summary) × ((refresh true s).cached ≡ summary)
  unfolding snapshot has_samples
  snapshot_roomless k calls =
      let start : IsRoomless (create 0 k) [] = create-IsRoomless k in
      let s = apply calls (create 0 k) in
      let h = apply-IsRoomless calls (create 0 k) [] start in
      (
        ground (arith, h.count),
        (refresh-IsRoomless false s (samples_of calls) h).1,
        (refresh-IsRoomless true s (samples_of calls) h).1,
      )
