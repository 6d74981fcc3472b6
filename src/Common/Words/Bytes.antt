-- ===== src/Common/Words/Bytes.antt =====
-- Masks on a byte, each checked over all its 256 values.
use Prim.Native.Nat.{ℕ, zero, suc, ◌*◌, ◌/◌, ◌%◌, ◌<◌, bit_and}
use mathlib.Core.Path.{◌≡◌, refl}
use mathlib.Core.Bool.{Bool, true, false}
use native.Mathlib.Decide.{ℕ_discrete}
use native.Mathlib.Omega.{arith}
use fastvid.Common.Tests.{◌==◌, if◌then◌else◌}

-- Whether two functions have the same values on all arguments below a bound.
agree_below : (ℕ → ℕ) → (ℕ → ℕ) → ℕ → Bool
agree_below f g zero = true
agree_below f g (suc bound) =
    let rest = agree_below f g bound in if f bound == g bound then rest else false

table : (f g : ℕ → ℕ) (bound : ℕ) → agree_below f g bound ≡ true → (x : ℕ) → x < bound → f x ≡ g x
unfolding agree_below
table f g zero agreed x h = absurd (omega arith)
table f g (suc bound) agreed x h = elim (ℕ_discrete x bound) [
  | yes e ↦ let last : f bound ≡ g bound = ground arith in rw e last
  | no n ↦ table f g bound (ground arith) x (omega arith)
]

pub bit_and_0x0f : (x : ℕ) → x < 256 → bit_and x 0x0f ≡ x % 16
unfolding agree_below
bit_and_0x0f = table _ _ 256 refl

pub bit_and_0x10 : (x : ℕ) → x < 256 → bit_and x 0x10 ≡ x / 16 % 2 * 16
unfolding agree_below
bit_and_0x10 = table _ _ 256 refl

pub bit_and_0x20 : (x : ℕ) → x < 256 → bit_and x 0x20 ≡ x / 32 % 2 * 32
unfolding agree_below
bit_and_0x20 = table _ _ 256 refl

pub bit_and_0x7f : (x : ℕ) → x < 256 → bit_and x 0x7f ≡ x % 128
unfolding agree_below
bit_and_0x7f = table _ _ 256 refl

pub bit_and_0x80 : (x : ℕ) → x < 256 → bit_and x 0x80 ≡ x / 128 % 2 * 128
unfolding agree_below
bit_and_0x80 = table _ _ 256 refl
