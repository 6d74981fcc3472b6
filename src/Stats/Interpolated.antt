-- ===== src/Stats/Interpolated.antt =====
-- What `PercentileFormSorted` interpolates, over any floats that round monotonically.
use fastvid.Common.{
  All, All-get_or, ℕ, zero, suc, ◌-◌, ◌≤◌, ◌<◌, ◌^◌, ◌≡◌, refl, List, [], ◌∷◌, arith, length,
  get_or,
}
use fastvid.Float.{Double, IsOrdered, IsScaling, IsInterpolating}
use fastvid.Stats.{
  zero_ms, lower_index, upper_index, percentile_from_sorted, insert, sort, front, summarize,
}
use fastvid.Stats.Percentile.{percentile_in_range}
use fastvid.Stats.Sorted.{
  NotBelow, IsNumber, IsAscending, All-sort, sort-IsAscending, NotBelow-self,
}

module _ {W : Type 0} ⦃d : Double W⦄ where
  length-insert : (x : W) (xs : List W) → length (insert x xs) ≡ suc (length xs)
  unfolding insert
  length-insert x [] = refl
  length-insert x (y ∷ ys) = ground (arith, length-insert x ys)

  pub length-sort : (xs : List W) → length (sort xs) ≡ length xs
  unfolding sort
  length-sort [] = refl
  length-sort (x ∷ xs) = omega (arith, length-insert x (sort xs), length-sort xs)

  -- The two indices of a percentile are inside a vector of `size` values, and `value` is not below
  -- `least`.
  abbrev pub IsInterpolated : ℕ → W → W → W → Type 0
  IsInterpolated size least percentile value =
      (lower_index percentile size < size)
      × (upper_index percentile size < size)
      × NotBelow least value

module _ {W : Type 0} ⦃d : Double W⦄ (laws : IsOrdered W) where
  pub IsAscending-get_or :
      (xs : List W) (i j : ℕ) (other : W)
      → i ≤ j
      → j < length xs
      → IsAscending xs
      → NotBelow (get_or xs i other) (get_or xs j other)
  IsAscending-get_or [] i j other le h a = absurd (omega arith)
  IsAscending-get_or (x ∷ xs) zero zero other le h a = NotBelow-self laws x
  IsAscending-get_or (x ∷ xs) zero (suc j) other le h (above, a) =
      All-get_or (NotBelow x) xs j other (omega arith) above
  IsAscending-get_or (x ∷ xs) (suc i) zero other le h a = absurd (omega arith)
  IsAscending-get_or (x ∷ xs) (suc i) (suc j) other le h (above, a) =
      IsAscending-get_or xs i j other (omega arith) (omega arith) a

  module _ (scaling : IsScaling W) (rounding : IsInterpolating W) where
    -- A percentile is not below the value at its lower index.
    pub percentile_from_sorted-above :
        (m k : ℕ) (v : W) (vs : List W)
        → m ≤ 10 ^ k
        → length (v ∷ vs) ≤ 2 ^ 53
        → IsAscending (v ∷ vs)
        → NotBelow
            (get_or (v ∷ vs) (lower_index (d.decimal m k) (length (v ∷ vs))) zero_ms)
            (percentile_from_sorted (v ∷ vs) (d.decimal m k))
    unfolding percentile_from_sorted lower_index
    percentile_from_sorted-above m k v vs h fits a =
        let size = length (v ∷ vs) in
        let index = d.mul (d.decimal m k) (d.of_size (size - 1)) in
        let lower = lower_index (d.decimal m k) size in
        let upper = upper_index (d.decimal m k) size in
        let (inside, inside', ordered, _) =
          percentile_in_range scaling m k size h (omega arith) fits in
        let gap =
          rounding.sub_nonneg _ _
            (IsAscending-get_or (v ∷ vs) lower upper zero_ms ordered inside' a) in
        let fraction =
          rounding.sub_nonneg _ index
            (rounding.to_word_below index (rounding.scaled_fits m k (size - 1) h (omega arith))) in
        rounding.add_above (get_or (v ∷ vs) lower zero_ms) _ (rounding.mul_nonneg _ _ gap fraction)

    -- What no element of a sorted vector of numbers is below, no percentile is below.
    percentile_from_sorted-NotBelow :
        (least : W) (m k : ℕ) (xs : List W)
        → 1 ≤ length xs
        → m ≤ 10 ^ k
        → length xs ≤ 2 ^ 53
        → IsAscending xs
        → All IsNumber xs
        → All (NotBelow least) xs
        → NotBelow least (percentile_from_sorted xs (d.decimal m k))
    percentile_from_sorted-NotBelow least m k [] some_value h fits a ns bs = absurd (omega arith)
    percentile_from_sorted-NotBelow least m k (v ∷ vs) some_value h fits a ns bs =
        let size = length (v ∷ vs) in
        let lower = lower_index (d.decimal m k) size in
        let (inside, _, _, _) = percentile_in_range scaling m k size h (omega arith) fits in
        laws.not_lt_trans _ (get_or (v ∷ vs) lower zero_ms) least
          (All-get_or IsNumber (v ∷ vs) lower zero_ms inside ns)
          (percentile_from_sorted-above m k v vs h fits a)
          (All-get_or (NotBelow least) (v ∷ vs) lower zero_ms inside bs)

    interpolated :
        (least : W) (m k : ℕ) (xs : List W)
        → 1 ≤ length xs
        → m ≤ 10 ^ k
        → length xs ≤ 2 ^ 53
        → All IsNumber xs
        → All (NotBelow least) (sort xs)
        → IsInterpolated
            (length xs)
            least
            (d.decimal m k)
            (percentile_from_sorted (sort xs) (d.decimal m k))
    interpolated least m k xs some_value h fits ns bs =
        let same = length-sort xs in
        let (lower, upper, _, _) = percentile_in_range scaling m k (length xs) h some_value fits in
        (
          lower,
          upper,
          percentile_from_sorted-NotBelow least m k (sort xs) (omega (arith, same)) h
              (omega (arith, same)) (sort-IsAscending laws xs ns) (All-sort IsNumber xs ns) bs,
        )

    front-least : (xs : List W) → IsAscending xs → All (NotBelow (front xs)) xs
    front-least [] a = tt
    front-least (x ∷ xs) (above, a) = (NotBelow-self laws x, above)

    -- For floats that are ordered and rounded as the named laws say: of at least one and at most 2 ^ 53
    -- samples, all of them numbers, for each of the three percentiles,
    -- both indices that `PercentileFormSorted` reads at are inside the vector, and the percentile is not
    -- below the smallest sample.
    pub summarize_percentiles :
        (last : W) (xs : List W)
        → 1 ≤ length xs
        → length xs ≤ 2 ^ 53
        → All IsNumber xs
        → let s = summarize last xs in
          IsInterpolated (length xs) s.min_ms (d.decimal 50 2) s.p50_ms
          × IsInterpolated (length xs) s.min_ms (d.decimal 95 2) s.p95_ms
          × IsInterpolated (length xs) s.min_ms (d.decimal 99 2) s.p99_ms
    unfolding summarize
    summarize_percentiles last xs some_value fits ns =
        let least = front-least (sort xs) (sort-IsAscending laws xs ns) in
        let each : (m : ℕ)
            → m ≤ 100
            → IsInterpolated (length xs) (front (sort xs)) (d.decimal m 2)
                (percentile_from_sorted (sort xs) (d.decimal m 2)) =
          λ m h. interpolated (front (sort xs)) m 2 xs some_value h fits ns least in
        (each 50 (omega arith), each 95 (omega arith), each 99 (omega arith))
