-- ===== src/Stats/Above.antt =====
-- The percentiles of samples that are all above a limit.
use fastvid.Common.{
  All, All-get_or, All-drop, All-imp, ℕ, ◌-◌, ◌≤◌, ◌^◌, ◌≡◌, true, Bool-cases, inl, inr, List, [],
  ◌∷◌, arith, length, get_or, newest, length-drop,
}
use fastvid.Float.{Double, gt, IsWord, IsOrdered, IsScaling, IsInterpolating}
use fastvid.Stats.{zero_ms, lower_index, upper_index, percentile_from_sorted, sort, summarize, back}
use fastvid.Stats.Percentile.{percentile_in_range}
use fastvid.Stats.Sorted.{IsNumber, IsAscending, All-sort, sort-IsAscending}
use fastvid.Stats.Cache.{summary_of}
use fastvid.Stats.Interpolated.{IsAscending-get_or, length-sort, percentile_from_sorted-above}

module _ {W : Type 0} ⦃d : Double W⦄ where
  module _ (laws : IsOrdered W) (scaling : IsScaling W) (rounding : IsInterpolating W) where
    -- What all elements are above, a percentile is above.
    percentile_from_sorted-gt :
        (limit : W) (m k : ℕ) (xs : List W)
        → 1 ≤ length xs
        → m ≤ 10 ^ k
        → length xs ≤ 2 ^ 53
        → IsAscending xs
        → All IsWord xs
        → All (λ x. gt x limit ≡ true) xs
        → gt (percentile_from_sorted xs (d.decimal m k)) limit ≡ true
    unfolding percentile_from_sorted lower_index
    percentile_from_sorted-gt limit m k [] some_value h fits a ws gs = absurd (omega arith)
    percentile_from_sorted-gt limit m k (v ∷ vs) some_value h fits a ws gs =
        let size = length (v ∷ vs) in
        let index = d.mul (d.decimal m k) (d.of_size (size - 1)) in
        let lower = lower_index (d.decimal m k) size in
        let upper = upper_index (d.decimal m k) size in
        let (inside, inside', ordered, _) =
          percentile_in_range scaling m k size h (omega arith) fits in
        let low = get_or (v ∷ vs) lower zero_ms in
        let value = percentile_from_sorted (v ∷ vs) (d.decimal m k) in
        let number : IsNumber value =
          rounding.interpolated_number low (get_or (v ∷ vs) upper zero_ms) _
            (All-get_or IsWord (v ∷ vs) lower zero_ms inside ws)
            (All-get_or IsWord (v ∷ vs) upper zero_ms inside' ws)
            (rounding.fraction_fits index (rounding.scaled_fits m k (size - 1) h (omega arith)))
            (IsAscending-get_or laws (v ∷ vs) lower upper zero_ms ordered inside' a) in
        let above : d.lt limit low ≡ true =
          All-get_or (λ x. gt x limit ≡ true) (v ∷ vs) lower zero_ms inside gs in
        elim (Bool-cases (d.lt limit value)) [
          | inl above_limit ↦ above_limit
          | inr not_above ↦
              let contrary =
                laws.not_lt_trans limit value low number not_above
                  (percentile_from_sorted-above laws scaling rounding m k v vs h fits a) in
              absurd (ground (arith, above, contrary))
        ]

    summarize-gt :
        (limit last : W) (xs : List W)
        → 1 ≤ length xs
        → length xs ≤ 2 ^ 53
        → All IsWord xs
        → All (λ x. gt x limit ≡ true) xs
        → gt (summarize last xs).p95_ms limit ≡ true
    unfolding summarize
    summarize-gt limit last xs some_value fits ws gs =
        let same = length-sort xs in
        percentile_from_sorted-gt limit 95 2 (sort xs) (omega (arith, same)) (omega arith)
          (omega (arith, same))
          (sort-IsAscending laws xs (All-imp IsWord IsNumber (λ x h. h.0) xs ws))
          (All-sort IsWord xs ws) (All-sort (λ x. gt x limit ≡ true) xs gs)

    -- The 95th percentile in the summary of a window, after samples above a limit.
    pub summary_of-gt :
        (limit : W) (n : ℕ) (xs : List W)
        → 1 ≤ n
        → n ≤ 2 ^ 53
        → 1 ≤ length xs
        → All IsWord xs
        → All (λ x. gt x limit ≡ true) xs
        → gt (summary_of n xs).p95_ms limit ≡ true
    unfolding summary_of
    summary_of-gt limit n [] room small some_value ws gs = absurd (omega arith)
    summary_of-gt limit n (x ∷ xs) room small some_value ws gs =
        let ys = x ∷ xs in
        let kept = length-drop (length ys - n) ys in
        summarize-gt limit (back ys) (newest n ys) (omega (arith, kept)) (omega (arith, kept))
          (All-drop IsWord (length ys - n) ys ws)
          (All-drop (λ y. gt y limit ≡ true) (length ys - n) ys gs)
