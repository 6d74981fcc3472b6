-- ===== src/Stats.antt =====
-- sclient/src/common/metrics/LatencyStats.h: a ring buffer of samples with a summary that is
-- refreshed lazily.
pub mod Window
pub mod Sorted
pub mod Extremes
pub mod Cache
pub mod Lag
pub mod Percentile
pub mod Interpolated
pub mod Above
pub mod Roomless
pub mod Format
mod Tests
use fastvid.Common.{
  ℕ, zero, suc, ◌+◌, ◌-◌, ◌%◌, Bool, true, false, not, ◌&&◌, ◌||◌, List, [], ◌∷◌, ◌++◌, length,
  get_or, set, take, drop, replicate, ltb, ◌==◌, if◌then◌else◌, max, min,
}
use fastvid.Common.Words.{u64}
use fastvid.Float.{Double}

-- `LatencySummary`
pub record Summary (W : Type 0) : Type 0 where
  pub count : ℕ
  pub last_ms : W
  pub min_ms : W
  pub avg_ms : W
  pub p50_ms : W
  pub p95_ms : W
  pub p99_ms : W
  pub max_ms : W

-- `LatencyStats`; the sizes are size_t.
pub record LatencyStats (W : Type 0) : Type 0 where
  pub max_samples : ℕ
  pub refresh_interval : ℕ
  pub samples : List W
  pub next_index : ℕ
  pub sample_count : ℕ
  pub dirty : Bool
  pub summary_valid : Bool
  pub pending : ℕ
  pub cached : Summary W
  pub last_ms : W

module _ {W : Type 0} ⦃d : Double W⦄ where
  abbrev pub zero_ms : W
  zero_ms = d.decimal 0 0

  -- Its member initialisers.
  abbrev pub default_summary : Summary W
  default_summary = record {
    count = 0;
    last_ms = zero_ms;
    min_ms = zero_ms;
    avg_ms = zero_ms;
    p50_ms = zero_ms;
    p95_ms = zero_ms;
    p99_ms = zero_ms;
    max_ms = zero_ms;
  }

  -- The constructor.
  unfoldable pub create : ℕ → ℕ → LatencyStats W
  create max_samples interval = record {
    max_samples = max_samples;
    refresh_interval = max 1 interval;
    samples = replicate max_samples zero_ms;
    next_index = 0;
    sample_count = 0;
    dirty = false;
    summary_valid = false;
    pending = 0;
    cached = default_summary;
    last_ms = zero_ms;
  }

  -- `Record`
  unfoldable pub record_sample : W → LatencyStats W → LatencyStats W
  record_sample value s =
      if s.max_samples == 0
      then record s { dirty = true; summary_valid = false; pending = 0; last_ms = value }
      else record s {
        samples = set s.samples s.next_index value;
        next_index = (s.next_index + 1) % s.max_samples;
        sample_count =
            (if ltb s.sample_count s.max_samples then s.sample_count + 1 else s.sample_count);
        dirty = true;
        pending = u64 (s.pending + 1);
        last_ms = value;
      }

  pub has_samples : LatencyStats W → Bool
  has_samples s = ltb 0 s.sample_count

  last_ms : LatencyStats W → W
  last_ms s = s.last_ms

  sample_count : LatencyStats W → ℕ
  sample_count s = s.sample_count

  -- `std::sort` by `<`: the elements in an order in which no element is below one before it.
  pub insert : W → List W → List W
  insert x [] = x ∷ []
  insert x (y ∷ ys) = if d.lt y x then y ∷ insert x ys else x ∷ y ∷ ys

  pub sort : List W → List W
  sort [] = []
  sort (x ∷ xs) = insert x (sort xs)

  -- `std::accumulate`
  pub accumulate : W → List W → W
  accumulate acc [] = acc
  accumulate acc (x ∷ xs) = accumulate (d.add acc x) xs

  -- The index that `PercentileFormSorted` interpolates from, and the one up to which it does.
  unfoldable pub lower_index : W → ℕ → ℕ
  lower_index percentile size = d.to_word (d.mul percentile (d.of_size (size - 1)))

  unfoldable pub upper_index : W → ℕ → ℕ
  unfolding lower_index
  upper_index percentile size = min (lower_index percentile size + 1) (size - 1)

  -- `PercentileFormSorted`
  unfoldable pub percentile_from_sorted : List W → W → W
  percentile_from_sorted [] percentile = zero_ms
  percentile_from_sorted (v ∷ vs) percentile =
      let values = v ∷ vs in
      let index = d.mul percentile (d.of_size (length values - 1)) in
      let lower = lower_index percentile (length values) in
      let upper = upper_index percentile (length values) in
      let fraction = d.sub index (d.of_size lower) in
      let low = get_or values lower zero_ms in
      d.add low (d.mul (d.sub (get_or values upper zero_ms) low) fraction)

  -- The samples in the order in which they came, as BuildSummary copies them out of the ring.
  pub ordered_samples : LatencyStats W → List W
  ordered_samples s =
      if ltb s.sample_count s.max_samples
      then take s.sample_count s.samples
      else drop s.next_index s.samples ++ take s.next_index s.samples

  -- The front and the back of a vector with an element.
  abbrev pub front : List W → W
  front xs = get_or xs 0 zero_ms

  abbrev pub back : List W → W
  back xs = get_or xs (length xs - 1) zero_ms

  -- The figures that BuildSummary computes of a sequence with an element.
  unfoldable pub summarize : W → List W → Summary W
  summarize last ordered =
      let sorted = sort ordered in
      record {
        count = length ordered;
        last_ms = last;
        min_ms = front sorted;
        avg_ms = d.div (accumulate zero_ms ordered) (d.of_size (length ordered));
        p50_ms = percentile_from_sorted sorted (d.decimal 50 2);
        p95_ms = percentile_from_sorted sorted (d.decimal 95 2);
        p99_ms = percentile_from_sorted sorted (d.decimal 99 2);
        max_ms = back sorted;
      }

  -- `BuildSummary`
  pub build_summary : LatencyStats W → Summary W
  unfolding ordered_samples summarize
  build_summary s =
      if s.sample_count == 0
      then record default_summary { count = s.sample_count; last_ms = s.last_ms }
      else record (summarize s.last_ms (ordered_samples s)) { count = s.sample_count }

  -- `RefreshSummary`
  unfoldable pub refresh : Bool → LatencyStats W → LatencyStats W
  refresh force s =
      if not s.dirty && s.summary_valid
      then s
      else (if not force && (s.summary_valid && ltb s.pending s.refresh_interval)
          then s
          else record s {
            cached = build_summary s;
            summary_valid = true;
            dirty = false;
            pending = 0;
          })

  -- `Snapshot`: the members that it may change are mutable.
  unfoldable pub snapshot : LatencyStats W → LatencyStats W × Summary W
  unfolding refresh
  snapshot s = let s' = refresh false s in (s', s'.cached)

  pub average_ms : LatencyStats W → LatencyStats W × W
  average_ms s = let (s', summary) = snapshot s in (s', summary.avg_ms)

  -- `Reset`
  pub reset : LatencyStats W → LatencyStats W
  reset s = record s {
    samples = replicate (length s.samples) zero_ms;
    next_index = 0;
    sample_count = 0;
    dirty = false;
    summary_valid = false;
    pending = 0;
    last_ms = zero_ms;
  }
