-- ===== src/Common/Words.antt =====
-- Words of fixed width as numbers: casts are remainders, shifts are products and quotients, and
-- disjoint fields joined by `|` or cut out by `&` are read as arithmetic.
mod Step
mod Bytes
pub use Bytes.*
use Step.{bit_and_lowest, bit_or_lowest, bit_xor_lowest}
use Prim.Native.Nat.{
  ℕ, zero, suc, ◌+◌, ◌*◌, ◌/◌, ◌%◌, ◌^◌, ◌≤◌, ◌<◌, min, bit_and, bit_or, bit_xor, bit_xor-bitwise,
}
use mathlib.Core.Path.{◌≡◌, refl, sym, ap, ◌∙◌}
use mathlib.Core.WellFounded
use native.Mathlib.Nat.{pow-suc, one-le-pow}
use native.Mathlib.Omega.{arith}
use fastvid.Common.Order.{lt_wf}

abbrev pub u8 : ℕ → ℕ
u8 n = n % 2 ^ 8

abbrev pub u16 : ℕ → ℕ
u16 n = n % 2 ^ 16

abbrev pub u32 : ℕ → ℕ
u32 n = n % 2 ^ 32

abbrev pub u64 : ℕ → ℕ
u64 n = n % 2 ^ 64

infixl 75 ◌<<<◌ ◌>>>◌
abbrev pub ◌<<<◌ : ℕ → ℕ → ℕ
x <<< k = x * 2 ^ k

abbrev pub ◌>>>◌ : ℕ → ℕ → ℕ
x >>> k = x / 2 ^ k

bit_or-zero_up_to : (n a : ℕ) → a ≤ n → bit_or a 0 ≡ a
bit_or-zero_up_to zero zero h = refl
bit_or-zero_up_to zero (suc a) h = absurd (omega arith)
bit_or-zero_up_to (suc n) a h =
    omega (arith, bit_or_lowest a 0, bit_or-zero_up_to n (a / 2) (omega arith))

half_multiple : (p x : ℕ) → 0 < p → x % (p * 2) ≡ 0 → (x % 2 ≡ 0) × (x / 2 % p ≡ 0)
half_multiple p x pos h = grind arith

-- `|` of operands that share no bit, the lower one below `2 ^ k`.
pub bit_or_disjoint : (k x y : ℕ) → x % 2 ^ k ≡ 0 → y < 2 ^ k → bit_or x y ≡ x + y
bit_or_disjoint zero x y low fits = ground (arith, bit_or-zero_up_to x x (omega arith))
bit_or_disjoint (suc k) x y low fits =
    let (even, half) =
      half_multiple (2 ^ k) x (one-le-pow k 2 (omega arith))
        (ap (λ t. x % t) (sym (pow-suc 2 k)) ∙ low) in
    omega (
      arith,
      bit_or_lowest x y,
      bit_or_disjoint k (x / 2) (y / 2) half (omega (arith, pow-suc 2 k)),
    )

bit_and-zero_up_to : (n a : ℕ) → a ≤ n → bit_and a 0 ≡ 0
bit_and-zero_up_to zero zero h = refl
bit_and-zero_up_to zero (suc a) h = absurd (omega arith)
bit_and-zero_up_to (suc n) a h =
    omega (arith, bit_and_lowest a 0, bit_and-zero_up_to n (a / 2) (omega arith))

-- A mask that is odd keeps the lowest digit.
bit_and_odd : (a m : ℕ) → m % 2 ≡ 1 → bit_and a m ≡ bit_and (a / 2) (m / 2) * 2 + a % 2
bit_and_odd a m h = omega (arith, bit_and_lowest a m)

-- A mask of eight ones keeps the low byte.
pub bit_and_0xff : (a : ℕ) → bit_and a 0xff ≡ a % 256
bit_and_0xff a = omega (
  arith,
  bit_and_odd a 255 refl,
  bit_and_odd (a / 2) 127 refl,
  bit_and_odd (a / 2 / 2) 63 refl,
  bit_and_odd (a / 2 / 2 / 2) 31 refl,
  bit_and_odd (a / 2 / 2 / 2 / 2) 15 refl,
  bit_and_odd (a / 2 / 2 / 2 / 2 / 2) 7 refl,
  bit_and_odd (a / 2 / 2 / 2 / 2 / 2 / 2) 3 refl,
  bit_and_odd (a / 2 / 2 / 2 / 2 / 2 / 2 / 2) 1 refl,
  bit_and-zero_up_to a (a / 2 / 2 / 2 / 2 / 2 / 2 / 2 / 2) (omega arith),
)

-- A mask of seven ones leaves less than 128.
pub bit_and_0x7f_fits : (a : ℕ) → bit_and a 0x7f < 128
bit_and_0x7f_fits a = omega (
  arith,
  bit_and_odd a 127 refl,
  bit_and_odd (a / 2) 63 refl,
  bit_and_odd (a / 2 / 2) 31 refl,
  bit_and_odd (a / 2 / 2 / 2) 15 refl,
  bit_and_odd (a / 2 / 2 / 2 / 2) 7 refl,
  bit_and_odd (a / 2 / 2 / 2 / 2 / 2) 3 refl,
  bit_and_odd (a / 2 / 2 / 2 / 2 / 2 / 2) 1 refl,
  bit_and-zero_up_to a (a / 2 / 2 / 2 / 2 / 2 / 2 / 2) (omega arith),
)

-- `|` of words is a word.
pub bit_or_fits : (k x y : ℕ) → x < 2 ^ k → y < 2 ^ k → bit_or x y < 2 ^ k
bit_or_fits zero x y h h' = ground (arith, bit_or-zero_up_to 0 0 (omega arith))
bit_or_fits (suc k) x y h h' = omega (
  arith,
  pow-suc 2 k,
  bit_or_lowest x y,
  bit_or_fits k (x / 2) (y / 2) (omega (arith, pow-suc 2 k)) (omega (arith, pow-suc 2 k)),
)

bit_xor_halves :
    (a b : ℕ)
    → (bit_xor a b / 2 ≡ bit_xor (a / 2) (b / 2)) × (bit_xor a b % 2 ≡ (a % 2 + b % 2) % 2)
bit_xor_halves a b = omega (arith, bit_xor_lowest a b)

-- Below `2 ^ k` by its digits: `^` makes no new ones.
pub bit_xor-lt : (k a b : ℕ) → a < 2 ^ k → b < 2 ^ k → bit_xor a b < 2 ^ k
bit_xor-lt zero zero zero p q = omega arith
bit_xor-lt zero zero (suc b) p q = absurd (omega arith)
bit_xor-lt zero (suc a) b p q = absurd (omega arith)
bit_xor-lt (suc k) a b p q =
    let ih : bit_xor (a / 2) (b / 2) < 2 ^ k =
      bit_xor-lt k (a / 2) (b / 2) (omega (arith, pow-suc 2 k)) (omega (arith, pow-suc 2 k)) in
    omega (arith, pow-suc 2 k, bit_xor_lowest a b)

-- `^` is commutative and associative, with zero and inverses. The first argument of each helper
-- bounds the operands, which are halved at every step.
xor_comm_up_to : (n a b : ℕ) → a ≤ n → b ≤ n → bit_xor a b ≡ bit_xor b a
xor_comm_up_to zero zero zero p q = refl
xor_comm_up_to zero zero (suc b) p q = absurd (omega arith)
xor_comm_up_to zero (suc a) b p q = absurd (omega arith)
xor_comm_up_to (suc n) a b p q = omega (
  arith,
  bit_xor_lowest a b,
  bit_xor_lowest b a,
  xor_comm_up_to n (a / 2) (b / 2) (omega arith) (omega arith),
)

xor_left_step :
    (a b c : ℕ)
    → bit_xor (bit_xor a b) c
      ≡ ((a % 2 + b % 2) % 2 + c % 2) % 2 + 2 * bit_xor (bit_xor (a / 2) (b / 2)) (c / 2)
xor_left_step a b c =
    let (halves, digits) = bit_xor_halves a b in cc (bit_xor_lowest (bit_xor a b) c, halves, digits)

xor_right_step :
    (a b c : ℕ)
    → bit_xor a (bit_xor b c)
      ≡ (a % 2 + (b % 2 + c % 2) % 2) % 2 + 2 * bit_xor (a / 2) (bit_xor (b / 2) (c / 2))
xor_right_step a b c =
    let (halves, digits) = bit_xor_halves b c in cc (bit_xor_lowest a (bit_xor b c), halves, digits)

xor_assoc_up_to :
    (n a b c : ℕ) → a ≤ n → b ≤ n → c ≤ n → bit_xor (bit_xor a b) c ≡ bit_xor a (bit_xor b c)
xor_assoc_up_to zero zero zero zero p q r = refl
xor_assoc_up_to zero zero zero (suc c) p q r = absurd (omega arith)
xor_assoc_up_to zero zero (suc b) c p q r = absurd (omega arith)
xor_assoc_up_to zero (suc a) b c p q r = absurd (omega arith)
xor_assoc_up_to (suc n) a b c p q r = omega (
  arith,
  xor_left_step a b c,
  xor_right_step a b c,
  xor_assoc_up_to n (a / 2) (b / 2) (c / 2) (omega arith) (omega arith) (omega arith),
)

xor_self_up_to : (n a : ℕ) → a ≤ n → bit_xor a a ≡ 0
xor_self_up_to zero zero p = refl
xor_self_up_to zero (suc a) p = absurd (omega arith)
xor_self_up_to (suc n) a p =
    omega (arith, bit_xor_lowest a a, xor_self_up_to n (a / 2) (omega arith))

pub bit_xor_comm : (a b : ℕ) → bit_xor a b ≡ bit_xor b a
bit_xor_comm a b = xor_comm_up_to (a + b) a b (omega arith) (omega arith)

pub bit_xor_assoc : (a b c : ℕ) → bit_xor (bit_xor a b) c ≡ bit_xor a (bit_xor b c)
bit_xor_assoc a b c = xor_assoc_up_to (a + b + c) a b c (omega arith) (omega arith) (omega arith)

pub bit_xor_self : (a : ℕ) → bit_xor a a ≡ 0
bit_xor_self a = xor_self_up_to a a (omega arith)

pub zero_bit_xor : (b : ℕ) → bit_xor 0 b ≡ b
zero_bit_xor b = simp bit_xor-bitwise
