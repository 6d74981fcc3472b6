-- ===== src/Float.antt =====
-- What the code uses of `double`: literals, comparisons, arithmetic, the casts, and printing with two
-- decimals. Arithmetic on floats is no part of the sources, so it is a parameter, and the laws that
-- a theorem needs are named hypotheses, which IEEE 754 grants.
use fastvid.Common.{
  ℕ, ◌+◌, ◌-◌, ◌*◌, ◌/◌, ◌^◌, ◌≤◌, ◌<◌, ◌≡◌, refl, Bool, true, false, List, [], arith, ltb,
  if◌then◌else◌,
}
use native.Mathlib.Nat.{one-le-pow, div-le_of_le-mul}
use fastvid.Common.Int.{ℤ, pos, negsuc}

pub record Double (W : Type 0) : Type 0 where
  -- The literal `m * 10 ^ -k`, so that 0.95 is `decimal 95 2`.
  pub decimal : ℕ → ℕ → W
  pub lt : W → W → Bool
  pub add : W → W → W
  pub sub : W → W → W
  pub mul : W → W → W
  pub div : W → W → W
  -- `static_cast<double>` of a size and of an int, and the cast to an unsigned word.
  pub of_size : ℕ → W
  pub of_int : ℤ → W
  pub to_word : W → ℕ
  -- `%.2f`
  pub two_decimals : W → List ℕ
  -- Not a NaN.
  pub is_number : W → Bool

module _ {W : Type 0} ⦃d : Double W⦄ where
  -- `x > y`
  abbrev pub gt : W → W → Bool
  gt x y = d.lt y x

  -- `std::max`
  abbrev pub max_double : W → W → W
  max_double x y = if d.lt x y then y else x

-- The order of floats. A NaN is neither below nor above anything.
pub record IsOrdered (W : Type 0) ⦃d : Double W⦄ : Type 0 where
  pub lt_asymm : (x y : W) → d.lt x y ≡ true → d.lt y x ≡ false
  pub not_lt_trans :
      (x y z : W) → d.is_number y ≡ true → d.lt x y ≡ false → d.lt y z ≡ false → d.lt x z ≡ false

pub lt_irrefl : {W : Type 0} ⦃d : Double W⦄ → IsOrdered W → (x : W) → d.lt x x ≡ false
lt_irrefl ⦃d⦄ laws x = ground (arith, laws.lt_asymm x x)

-- A float that fits an unsigned word, so that the cast is defined.
abbrev pub IsWord : {W : Type 0} ⦃d : Double W⦄ → W → Type 0
IsWord ⦃d⦄ x =
    (d.is_number x ≡ true)
    × (d.lt x (d.decimal 0 0) ≡ false)
    × (d.lt x (d.decimal (2 ^ 64) 0) ≡ true)

-- Rounding is monotone: a product with a factor that is not negative, and the cast to a word; and whole
-- milliseconds of an int, as nanoseconds, are a float exactly.
pub record IsRounding (W : Type 0) ⦃d : Double W⦄ : Type 0 where
  pub mul_mono :
      (x y f : W)
      → d.lt f (d.decimal 0 0) ≡ false
      → d.lt y x ≡ false
      → d.lt (d.mul y f) (d.mul x f) ≡ false
  pub mul_mono_right :
      (x y f : W)
      → d.lt f (d.decimal 0 0) ≡ false
      → d.lt y x ≡ false
      → d.lt (d.mul f y) (d.mul f x) ≡ false
  pub to_word_mono : (x y : W) → IsWord x → IsWord y → d.lt y x ≡ false → d.to_word x ≤ d.to_word y
  pub positive_scale : d.lt (d.decimal 10000000 1) (d.decimal 0 0) ≡ false
  pub whole_ms :
      (n : ℕ)
      → n < 2 ^ 31
      → let x = d.mul (d.of_int (pos n)) (d.decimal 10000000 1) in
        IsWord x × (d.to_word x ≡ n * 1000000)

-- A fraction of a size, cast back to a size, is no larger than the size, where the size is a float
-- exactly: the product is rounded to a float that is no larger.
pub record IsScaling (W : Type 0) ⦃d : Double W⦄ : Type 0 where
  pub scaled_le :
      (m k n : ℕ) → m ≤ 10 ^ k → n < 2 ^ 53 → d.to_word (d.mul (d.decimal m k) (d.of_size n)) ≤ n

-- What an interpolation between two floats needs: differences, products and sums keep the sign through
-- the rounding, a cast to a word rounds down, and a fraction of a size fits a word, where the size is a
-- float exactly; and between floats that fit a word nothing overflows.
pub record IsInterpolating (W : Type 0) ⦃d : Double W⦄ : Type 0 where
  pub sub_nonneg : (x y : W) → d.lt y x ≡ false → d.lt (d.sub y x) (d.decimal 0 0) ≡ false
  pub mul_nonneg :
      (x y : W)
      → d.lt x (d.decimal 0 0) ≡ false
      → d.lt y (d.decimal 0 0) ≡ false
      → d.lt (d.mul x y) (d.decimal 0 0) ≡ false
  pub add_above : (x y : W) → d.lt y (d.decimal 0 0) ≡ false → d.lt (d.add x y) x ≡ false
  pub to_word_below : (x : W) → IsWord x → d.lt x (d.of_size (d.to_word x)) ≡ false
  pub scaled_fits :
      (m k n : ℕ) → m ≤ 10 ^ k → n < 2 ^ 53 → IsWord (d.mul (d.decimal m k) (d.of_size n))
  pub fraction_fits : (x : W) → IsWord x → IsWord (d.sub x (d.of_size (d.to_word x)))
  pub interpolated_number :
      (x y f : W)
      → IsWord x
      → IsWord y
      → IsWord f
      → d.lt y x ≡ false
      → d.is_number (d.add x (d.mul (d.sub y x) f)) ≡ true

-- The literals 0.5, 1.0, 5.0 and 10.0 are in their order.
pub record IsGraded (W : Type 0) ⦃d : Double W⦄ : Type 0 where
  pub half_lt_one : d.lt (d.decimal 5 1) (d.decimal 10 1) ≡ true
  pub one_lt_five : d.lt (d.decimal 10 1) (d.decimal 50 1) ≡ true
  pub five_lt_ten : d.lt (d.decimal 50 1) (d.decimal 100 1) ≡ true

pub lt_trans :
    {W : Type 0} ⦃d : Double W⦄
    → IsOrdered W
    → (x y z : W) → d.is_number z ≡ true
    → d.lt x y ≡ true
    → d.lt y z ≡ true
    → d.lt x z ≡ true
lt_trans ⦃d⦄ laws x y z n below above =
    ground (arith, laws.lt_asymm y z above, laws.not_lt_trans x z y n)

-- The laws can be met: whole thousandths that are not negative.
abbrev pub Thousandths : Type 0
Thousandths = ℕ

instance abbrev pub thousandths : Double Thousandths
thousandths = record {
  decimal = λ m k. m * 1000 / 10 ^ k;
  lt = ltb;
  add = λ x y. x + y;
  sub = λ x y. x - y;
  mul = λ x y. x * y / 1000;
  div = λ x y. x * 1000 / y;
  of_size = λ n. n * 1000;
  of_int = λ i. elim i [ pos n ↦ n * 1000 | negsuc n ↦ 0 ];
  to_word = λ x. x / 1000;
  two_decimals = λ x. [];
  is_number = λ x. true;
}

pub Thousandths-IsOrdered : IsOrdered Thousandths
Thousandths-IsOrdered = record {
  lt_asymm = λ x y h. ground arith;
  not_lt_trans = λ x y z n h k. ground arith;
}

fraction-le : (m t : ℕ) → m ≤ t → 0 < t → m * 1000 / t ≤ 1000
fraction-le m t h p = div-le_of_le-mul t (omega arith)

scaled-le : (q n : ℕ) → q ≤ 1000 → q * (n * 1000) / 1000 / 1000 ≤ n
scaled-le q n h = let product : q * (n * 1000) ≤ 1000 * (n * 1000) = grind arith in omega arith

pub Thousandths-IsScaling : IsScaling Thousandths
Thousandths-IsScaling = record {
  scaled_le = λ m k n h fits.
      scaled-le (m * 1000 / 10 ^ k) n (fraction-le m (10 ^ k) h (one-le-pow k 10 (omega arith)));
}

mul-le : (x y f : ℕ) → x ≤ y → x * f / 1000 ≤ y * f / 1000
mul-le x y f h = let product : x * f ≤ y * f = grind arith in omega arith

mul-le-right : (x y f : ℕ) → x ≤ y → f * x / 1000 ≤ f * y / 1000
mul-le-right x y f h = let product : f * x ≤ f * y = grind arith in omega arith

pub Thousandths-IsRounding : IsRounding Thousandths
Thousandths-IsRounding = record {
  mul_mono = λ x y f p h. let le : x ≤ y = ground arith in ground (arith, mul-le x y f le);
  mul_mono_right =
      λ x y f p h. let le : x ≤ y = ground arith in ground (arith, mul-le-right x y f le);
  to_word_mono = λ x y u v h. ground arith;
  positive_scale = refl;
  whole_ms = λ n h. ground arith;
}

scaled-fits : (q n : ℕ) → q ≤ 1000 → n < 2 ^ 53 → q * (n * 1000) / 1000 < 2 ^ 64 * 1000
scaled-fits q n h small =
    let product : q * (n * 1000) ≤ 1000 * (n * 1000) = grind arith in omega arith

pub Thousandths-IsInterpolating : IsInterpolating Thousandths
Thousandths-IsInterpolating = record {
  sub_nonneg = λ x y h. ground arith;
  mul_nonneg = λ x y h k. ground arith;
  add_above = λ x y h. ground arith;
  to_word_below = λ x h. ground arith;
  fraction_fits = λ x h. ground arith;
  interpolated_number = λ x y f h k l le. refl;
  scaled_fits = λ m k n h small.
      let fits =
        scaled-fits (m * 1000 / 10 ^ k) n (fraction-le m (10 ^ k) h (one-le-pow k 10 (omega arith)))
          small in
      ground (arith, fits);
}

pub Thousandths-IsGraded : IsGraded Thousandths
Thousandths-IsGraded = record { half_lt_one = refl; one_lt_five = refl; five_lt_ten = refl }
