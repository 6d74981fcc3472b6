-- ===== src/Stats/Tests.antt =====
-- The statistics at concrete inputs, in thousandths of a millisecond.
use mathlib.Core.List.{Mem}
use fastvid.Common.{All, ◌≡◌, ◌<◌, refl, true, List, [], ◌∷◌, ◌++◌, arith, length, max}
use fastvid.Float.{
  Thousandths, thousandths, Thousandths-IsOrdered, Thousandths-IsScaling,
  Thousandths-IsInterpolating,
}
use fastvid.Stats.{LatencyStats, create, summarize, snapshot, refresh}
use fastvid.Stats.Extremes.{IsBetween, summarize_extremes}
use fastvid.Stats.Cache.{summary_of}
use fastvid.Stats.Lag.{Call, sample, query, apply, samples_of, snapshot_lag}
use fastvid.Stats.Interpolated.{IsInterpolated, summarize_percentiles}

abbrev five : List Thousandths
five = 30 ∷ 10 ∷ 50 ∷ 20 ∷ 40 ∷ []

summarize_extremes_example :
    let s = summarize 40 five in
    All (IsBetween s.min_ms s.max_ms) five × Mem s.min_ms five × Mem s.max_ms five
summarize_extremes_example =
    summarize_extremes Thousandths-IsOrdered 40 five (ground arith)
      (refl, (refl, (refl, (refl, (refl, tt)))))

abbrev calls : List (Call Thousandths)
calls = sample 30 ∷ query ∷ sample 10 ∷ sample 50 ∷ []

snapshot_lag_example :
    let s = apply calls (create 3 4) in
    ((fresh recent : List Thousandths) × (samples_of calls ≡ fresh ++ recent)
      × ((snapshot s).1 ≡ summary_of 3 fresh)
      × (length recent < max 1 4))
    × ((refresh true s).cached ≡ summary_of 3 (samples_of calls))
snapshot_lag_example = snapshot_lag 3 4 calls (omega arith) (omega arith)

summarize_percentiles_example :
    let s = summarize 40 five in
    IsInterpolated 5 s.min_ms 500 s.p50_ms
    × IsInterpolated 5 s.min_ms 950 s.p95_ms
    × IsInterpolated 5 s.min_ms 990 s.p99_ms
summarize_percentiles_example =
    summarize_percentiles Thousandths-IsOrdered Thousandths-IsScaling Thousandths-IsInterpolating 40
      five (omega arith) (omega arith) (refl, (refl, (refl, (refl, (refl, tt)))))

abbrev fresh_stats : LatencyStats Thousandths
fresh_stats = create 3 4
