-- ===== src/Stats/Format.antt =====
-- `Format`: the summary of all samples as a line of text.
use fastvid.Common.{ℕ, ◌≤◌, ◌<◌, ◌^◌, ◌≡◌, ap, true, List, ◌++◌, length}
use fastvid.Float.{Double}
use fastvid.Text.{Text, codes, to_string}
use fastvid.Stats.{LatencyStats, Summary, create, refresh}
use fastvid.Stats.Cache.{summary_of}
use fastvid.Stats.Lag.{Call, apply, samples_of, snapshot_lag}

module _ {W : Type 0} ⦃d : Double W⦄ where
  -- The text of a summary.
  unfoldable pub format_summary : Text → Summary W → Text
  format_summary name summary =
      name
      ++ codes " count="
      ++ to_string summary.count
      ++ codes " min="
      ++ d.two_decimals summary.min_ms
      ++ codes "ms"
      ++ codes " avg="
      ++ d.two_decimals summary.avg_ms
      ++ codes "ms"
      ++ codes " p50="
      ++ d.two_decimals summary.p50_ms
      ++ codes "ms"
      ++ codes " p95="
      ++ d.two_decimals summary.p95_ms
      ++ codes "ms"
      ++ codes " p99="
      ++ d.two_decimals summary.p99_ms
      ++ codes "ms"
      ++ codes " max="
      ++ d.two_decimals summary.max_ms
      ++ codes "ms"
      ++ codes " last="
      ++ d.two_decimals summary.last_ms
      ++ codes "ms"

  -- `Format`, which refreshes the summary first.
  unfoldable pub format : Text → LatencyStats W → LatencyStats W × Text
  format name s = let s' = refresh true s in (s', format_summary name s'.cached)

  -- The line is the text of the summary of all samples, the newest included, however many of them
  -- the last look at the summary left out, and the object remembers that summary.
  pub format_lem :
      (n k : ℕ) (name : Text) (calls : List (Call W))
      → 1 ≤ n
      → length (samples_of calls) < 2 ^ 64
      → let (s, text) = format name (apply calls (create n k)) in
        (text ≡ format_summary name (summary_of n (samples_of calls)))
        × (s.cached ≡ summary_of n (samples_of calls))
  unfolding format
  format_lem n k name calls room small =
      let (lag, now) = snapshot_lag n k calls room small in (ap (format_summary name) now, now)
