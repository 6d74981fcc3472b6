-- ===== src/Jitter/Buffer/Delay.antt =====
-- The target delay: `ComputeDelayForMode` and `TargetDelayNs`.
use fastvid.Common.{subst, sym, ℕ, ◌*◌, ◌^◌, ◌≤◌, ◌<◌, ◌≡◌, true, false, arith}
use fastvid.Common.Int.{pos}
use fastvid.Float.{Double, IsOrdered, lt_irrefl, IsWord, IsRounding, max_double}
use fastvid.Jitter.{bypass, low_latency, smooth, Config, JitterBuffer}
use fastvid.Jitter.Buffer.{jitter_p95_ms, padded_delay, compute_delay_for_mode, target_delay_ns}

module _ {W : Type 0} ⦃d : Double W⦄ (laws : IsOrdered W) where
  max_double_above : (x y : W) → d.lt (max_double x y) x ≡ false
  max_double_above x y = ground (arith, lt_irrefl laws x, laws.lt_asymm x y)

  max_double_mono :
      (x y z : W)
      → d.is_number z ≡ true
      → d.lt z y ≡ false
      → d.lt (max_double x z) (max_double x y) ≡ false
  max_double_mono x y z n le =
      ground (arith, lt_irrefl laws x, laws.lt_asymm x z, laws.not_lt_trans x z y n)

  -- The margin in nanoseconds, before the cast.
  abbrev scaled : W → Config W → W → W
  scaled factor c p95 =
      d.mul (max_double (d.of_int c.min_delay_ms) (d.mul p95 factor)) (d.decimal 10000000 1)

  module _ (rounding : IsRounding W) where
    padded_delay_above :
        (factor : W) (c : Config W) (p95 : W) (n : ℕ)
        → c.min_delay_ms ≡ pos n
        → n < 2 ^ 31
        → IsWord (scaled factor c p95)
        → n * 1000000 ≤ padded_delay factor c p95
    padded_delay_above factor c p95 n e small fits =
        let (fits_least, least) = rounding.whole_ms n small in
        let min = d.of_int (pos n) in
        let above =
          subst (λ i. d.lt (max_double (d.of_int i) (d.mul p95 factor)) min ≡ false) (sym e)
            (max_double_above min (d.mul p95 factor)) in
        let mono =
          rounding.to_word_mono (d.mul min (d.decimal 10000000 1)) (scaled factor c p95) fits_least
            fits (rounding.mul_mono _ _ (d.decimal 10000000 1) rounding.positive_scale above) in
        omega (arith, least, mono)

    padded_delay_mono :
        (factor factor' : W) (c : Config W) (p95 : W)
        → d.lt p95 (d.decimal 0 0) ≡ false
        → d.lt factor' factor ≡ false
        → d.is_number (d.mul p95 factor') ≡ true
        → IsWord (scaled factor c p95)
        → IsWord (scaled factor' c p95)
        → padded_delay factor c p95 ≤ padded_delay factor' c p95
    padded_delay_mono factor factor' c p95 positive le number fits fits' =
        let product = rounding.mul_mono_right factor factor' p95 positive le in
        let max =
          max_double_mono (d.of_int c.min_delay_ms) (d.mul p95 factor) (d.mul p95 factor') number
            product in
        rounding.to_word_mono (scaled factor c p95) (scaled factor' c p95) fits fits'
          (rounding.mul_mono _ _ (d.decimal 10000000 1) rounding.positive_scale max)

    -- If the configured least delay is an `int` of `n` ms that is not negative, the 95th percentile is not
    -- negative, the smooth factor is not below the safety factor and gives a number, and both products
    -- fit uint64_t as nanoseconds: the delay is 0 in the bypass mode, at least `n` ms with low latency,
    -- and there no longer than in the smooth mode; and the target delay is never longer than that of the smooth
    -- mode.
    pub compute_delay_for_mode_lem :
        (b : JitterBuffer W) (n : ℕ)
        → b.config.min_delay_ms ≡ pos n
        → n < 2 ^ 31
        → let p95 = (jitter_p95_ms b).1 in
          d.lt p95 (d.decimal 0 0) ≡ false
          → d.lt b.config.smooth_factor b.config.safety_factor ≡ false
          → d.is_number (d.mul p95 b.config.smooth_factor) ≡ true
          → IsWord (scaled b.config.safety_factor b.config p95)
          → IsWord (scaled b.config.smooth_factor b.config p95)
          → let smoothed = (compute_delay_for_mode smooth b).1 in
            ((compute_delay_for_mode bypass b).1 ≡ 0)
            × (n * 1000000 ≤ (compute_delay_for_mode low_latency b).1)
            × ((compute_delay_for_mode low_latency b).1 ≤ smoothed)
            × ((target_delay_ns b).1 ≤ smoothed)
    unfolding compute_delay_for_mode target_delay_ns
    compute_delay_for_mode_lem b n e small positive le number fits fits' =
        let p95 = (jitter_p95_ms b).1 in
        let c = b.config in
        let above = padded_delay_above c.safety_factor c p95 n e small fits in
        let mono =
          padded_delay_mono c.safety_factor c.smooth_factor c p95 positive le number fits fits' in
        ground (arith, above, mono)
