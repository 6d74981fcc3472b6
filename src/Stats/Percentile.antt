-- ===== src/Stats/Percentile.antt =====
-- The reads of `PercentileFormSorted`, and what `Reset` leaves.
use fastvid.Common.{
  ℕ, ◌+◌, ◌-◌, ◌≤◌, ◌<◌, ◌^◌, ◌≡◌, refl, [], List, arith, length, ◌∙◌, length-replicate,
  newest-short,
}
use fastvid.Float.{Double, IsScaling}
use fastvid.Stats.{
  LatencyStats, zero_ms, build_summary, lower_index, upper_index, reset, snapshot, default_summary,
  ordered_samples,
}
use fastvid.Stats.Cache.{Tracks}
use fastvid.Stats.Window.{Holds}

module _ {W : Type 0} ⦃d : Double W⦄ where
  -- For a percentile from 0 to 1 and a vector of 1 to 2 ^ 53 values, both indices that
  -- `PercentileFormSorted` reads at are inside the vector, the lower not above the upper, and they
  -- differ by one at most.
  pub percentile_in_range :
      (laws : IsScaling W) (m k size : ℕ)
      → m ≤ 10 ^ k
      → 1 ≤ size
      → size ≤ 2 ^ 53
      → let lower = lower_index (d.decimal m k) size in
        let upper = upper_index (d.decimal m k) size in
        (lower < size) × (upper < size) × (lower ≤ upper) × (upper ≤ lower + 1)
  unfolding lower_index upper_index
  percentile_in_range laws m k size h one fits =
      omega (arith, laws.scaled_le m k (size - 1) h (omega arith))

  reset-Holds : {s : LatencyStats W} {history : List W} → Holds s history → Holds (reset s) []
  unfolding reset ordered_samples
  reset-Holds {s} h = record {
    room = h.room;
    storage = length-replicate (length s.samples) zero_ms ∙ h.storage;
    next_in = h.room;
    counted = omega arith;
    not_wrapped = λ _. refl;
    window = ground (arith, h.room, newest-short {A = W} s.max_samples []);
  }

  reset-build_summary : (s : LatencyStats W) → build_summary (reset s) ≡ default_summary
  unfolding build_summary reset
  reset-build_summary s = refl

  -- `Reset` of an object in use: it is as after no sample at all, with the same room and refresh
  -- interval, and the next summary is the empty one.
  pub reset_lem :
      {s : LatencyStats W} {history : List W}
      → Tracks s history
      → Tracks (reset s) []
        × ((reset s).max_samples ≡ s.max_samples)
        × ((reset s).refresh_interval ≡ s.refresh_interval)
        × ((snapshot (reset s)).1 ≡ default_summary)
  unfolding reset snapshot
  reset_lem {s} t = (
    record {
      held = reset-Holds t.held;
      latest = refl;
      interval_pos = t.interval_pos;
      stale = λ valid. ground arith;
    },
    refl,
    refl,
    reset-build_summary s,
  )
