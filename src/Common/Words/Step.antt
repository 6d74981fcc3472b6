-- ===== src/Common/Words/Step.antt =====
-- What `&`, `|` and `^` do to the lowest binary digit, and to the rest.
use Prim.Native.Nat
use Prim.Native.Nat.{
  ℕ, zero, suc, ◌+◌, ◌-◌, ◌*◌, ◌/◌, ◌%◌, ◌≤◌, ◌<◌, max, min, bit_and, bit_or, bit_xor, differ,
}
use mathlib.Core.Path.{◌≡◌, refl, ◌∙◌}
use native.Mathlib.Decide.{dec_lt}
use native.Mathlib.Omega.{arith}

-- The recursion `digits` that the operations stand for takes a bound on the number of digits; a
-- larger bound gives the same. `left` is the value where the first operand has no digits left.
module _ (left : ℕ → ℕ) (join : ℕ → ℕ → ℕ) where
  spare :
      (bound a b : ℕ)
      → a ≤ bound
      → Nat.digits left join (suc bound) a b ≡ Nat.digits left join bound a b
  spare zero zero b h = refl
  spare zero (suc a) b h = absurd (omega arith)
  spare (suc bound) zero b h = refl
  spare (suc bound) (suc a) b h = rw (spare bound (suc a / 2) (b / 2) (omega arith))

  settled : (bound a b : ℕ) → a ≤ bound → Nat.digits left join bound a b ≡ Nat.bitwise left join a b
  settled zero zero b h = refl
  settled zero (suc a) b h = absurd (omega arith)
  settled (suc bound) a b h = elim (dec_lt bound a) [
    | yes last ↦ let same : a ≡ suc bound = omega arith in rw same refl
    | no below ↦ spare bound a b (omega arith) ∙ settled bound a b (omega arith)
  ]

  lowest :
      (a b : ℕ)
      → 0 < a
      → Nat.bitwise left join a b ≡ join (a % 2) (b % 2) + 2 * Nat.bitwise left join (a / 2) (b / 2)
  lowest zero b h = absurd (omega arith)
  lowest (suc a) b h = omega (arith, settled a (suc a / 2) (b / 2) (omega arith))

pub bit_and_lowest : (a b : ℕ) → bit_and a b ≡ min (a % 2) (b % 2) + 2 * bit_and (a / 2) (b / 2)
bit_and_lowest zero b = simp Nat.bit_and-bitwise (omega arith)
bit_and_lowest (suc a) b = simp Nat.bit_and-bitwise (lowest _ min (suc a) b (omega arith))

pub bit_or_lowest : (a b : ℕ) → bit_or a b ≡ max (a % 2) (b % 2) + 2 * bit_or (a / 2) (b / 2)
bit_or_lowest zero b = simp Nat.bit_or-bitwise (omega arith)
bit_or_lowest (suc a) b = simp Nat.bit_or-bitwise (lowest _ max (suc a) b (omega arith))

differ-eq-sub : (x y : ℕ) → differ x y ≡ x - y + (y - x)
differ-eq-sub zero y = omega arith
differ-eq-sub (suc x) zero = omega arith
differ-eq-sub (suc x) (suc y) = omega (arith, differ-eq-sub x y)

differ_digits : (a b : ℕ) → differ (a % 2) (b % 2) ≡ (a % 2 + b % 2) % 2
differ_digits a b = omega (arith, differ-eq-sub (a % 2) (b % 2))

pub bit_xor_lowest : (a b : ℕ) → bit_xor a b ≡ (a % 2 + b % 2) % 2 + 2 * bit_xor (a / 2) (b / 2)
bit_xor_lowest zero b = simp Nat.bit_xor-bitwise (omega arith)
bit_xor_lowest (suc a) b =
    simp Nat.bit_xor-bitwise
      (omega (arith, lowest _ differ (suc a) b (omega arith), differ_digits (suc a) b))
