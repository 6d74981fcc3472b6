-- ===== src/Rtp/Parse/Grammar/Found.antt =====
-- What ParseRtpHeader of RtpProtocol.h has tested where it returns true.
use fastvid.Common.{
  ℕ, ◌+◌, ◌*◌, ◌%◌, ◌≤◌, ◌<◌, ◌≡◌, refl, sym, subst, ap, ◌∙◌, ◌⊎◌, inl, inr, true, false, Bool,
  Bool-cases, Option, none, some, List, ◌∷◌, arith, length, drop, leb, if◌then◌else◌, Option-cases,
}
use fastvid.Common.Words.{bit_and_0x0f, bit_and_0x10, bit_and_0x20}
use fastvid.Rtp.{HeaderExtension}
use fastvid.Rtp.Bytes.{read_be16}
use fastvid.Rtp.Parse.{
  Outputs, parse_extension, finish, parse_header, version_of, has_padding, has_extension_bit,
  base_header_size,
}

-- What the function has found out where it returns true.
pub record IsAccepted (xs : List ℕ) (first : ℕ) : Type 0 where
  pub version : version_of first ≡ 2
  pub unpadded : has_padding first ≡ false
  pub base : base_header_size first ≤ length xs
  pub extended :
      (has_extension_bit first ≡ false)
      ⊎ ((words : ℕ) × (has_extension_bit first ≡ true)
          × (read_be16 (drop (base_header_size first + 2) xs) ≡ some words)
          × (base_header_size first + (4 + words * 4) ≤ length xs))

parse_extension-some :
    (xs : List ℕ) (base : ℕ) (ext : Option HeaderExtension) {found : ℕ × Option HeaderExtension}
    → parse_extension xs (length xs) base ext ≡ some (some found)
    → (words : ℕ) × (read_be16 (drop (base + 2) xs) ≡ some words)
      × (base + (4 + words * 4) ≤ length xs)
unfolding parse_extension
parse_extension-some xs base ext e = elim (Option-cases (read_be16 (drop (base + 2) xs))) [
  | inl failed ↦ absurd (ground arith)
  | inr (words, ok) ↦ (words, ok, ground arith)
]

finish-some :
    (xs : List ℕ) (out out' : Outputs) (found : Option (ℕ × Option HeaderExtension))
    → finish xs out found ≡ some (true, out')
    → (got : ℕ × Option HeaderExtension) × (found ≡ some got)
unfolding finish
finish-some xs out out' none e = absurd (ground arith)
finish-some xs out out' (some got) e = (got, refl)

accepted :
    (first : ℕ) (xs : List ℕ) (out out' : Outputs)
    → let ys = first ∷ xs in
      parse_header (some ys) (length ys) out ≡ some (true, out') → IsAccepted ys first
unfolding parse_header
accepted first xs out out' e =
    let ys = first ∷ xs in
    let base = base_header_size first in
    elim (Bool-cases (has_extension_bit first)) [
      | inr plain ↦ record {
        version = ground arith;
        unpadded = ground arith;
        base = ground arith;
        extended = inl plain;
      }
      | inl bit ↦ elim (Option-cases (parse_extension ys (length ys) base out.extension)) [
        | inl failed ↦ absurd (ground arith)
        | inr (found, ok) ↦
            let done : finish ys out found ≡ some (true, out') = ground arith in
            let (got, is_got) = finish-some ys out out' found done in
            let (words, read, inside) =
              parse_extension-some ys base out.extension (ok ∙ ap some is_got) in
            record {
              version = ground arith;
              unpadded = ground arith;
              base = ground arith;
              extended = inr (words, bit, read, inside);
            }
      ]
    ]

pub accepted-of :
    (first : ℕ) (rest xs : List ℕ) (out out' : Outputs)
    → xs ≡ first ∷ rest
    → parse_header (some xs) (length xs) out ≡ some (true, out')
    → IsAccepted xs first
accepted-of first rest xs out out' same =
    subst (λ ys. parse_header (some ys) (length ys) out ≡ some (true, out') → IsAccepted ys first)
      (sym same) (accepted first rest out out')

pub second-of : (b : ℕ) → b < 256 → (if leb 128 b then 128 else 0) + b % 128 % 128 ≡ b
second-of b h = ground arith

pub first-of :
    (first : ℕ) (x : Bool)
    → first < 256
    → version_of first ≡ 2
    → has_padding first ≡ false
    → has_extension_bit first ≡ x
    → (first ≡ (if x then 144 else 128) + first % 16)
      × (base_header_size first ≡ 12 + first % 16 * 4)
first-of first true h two unpadded bit =
    ground (arith, bit_and_0x0f first h, bit_and_0x10 first h, bit_and_0x20 first h)
first-of first false h two unpadded bit =
    ground (arith, bit_and_0x0f first h, bit_and_0x10 first h, bit_and_0x20 first h)
