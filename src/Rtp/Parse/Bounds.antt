-- ===== src/Rtp/Parse/Bounds.antt =====
-- Where the header that `ParseRtpHeader` accepts ends.
use fastvid.Common.{
  ℕ, ◌+◌, ◌*◌, ◌%◌, ◌≤◌, ◌≡◌, refl, sym, ap, ◌∙◌, subst, ◌⊎◌, Bool-cases, true, Option, none, some,
  List, arith, length, get_elem?, drop, length-take, length-drop, inl, inr, Option-cases,
}
use Prim.Native.Nat.{bit_and}
use fastvid.Common.Words.{u8}
use fastvid.Rtp.{HeaderExtension}
use fastvid.Rtp.Bytes.{read_be16}
use fastvid.Rtp.Parse.{
  Outputs, read_range, store_extension, parse_extension, clear_extension, has_extension_bit,
  read_fields, finish, parse_header, base_header_size,
}
use fastvid.Rtp.Parse.RoundTrip.{asked_for}

-- An extension's payload is whole words, and ends where a header of `total` bytes does or before.
abbrev pub FitsIn : ℕ → Option HeaderExtension → Type 0
FitsIn total none = Unit {0}
FitsIn total (some h) = (12 + length h.payload ≤ total) × (length h.payload % 4 ≡ 0)

pub read_range-length :
    (xs : List ℕ) (at n : ℕ) {ys : List ℕ} → read_range xs at n ≡ some ys → length ys ≡ n
unfolding read_range
read_range-length xs at n e = ground (arith, length-take n (drop at xs), length-drop at xs)

store_extension-FitsIn :
    (xs : List ℕ) (base words : ℕ) (ext ext' : Option HeaderExtension)
    → 12 ≤ base
    → store_extension xs base (words * 4) ext ≡ some ext'
    → FitsIn (base + (4 + words * 4)) ext'
unfolding store_extension
store_extension-FitsIn xs base words none ext' h e = ground arith
store_extension-FitsIn xs base words (some _) ext' h e =
    elim (Option-cases (read_be16 (drop base xs))) [
      | inl failed ↦ ground arith
      | inr (profile, ok) ↦ elim (Option-cases (read_range xs (base + 4) (words * 4))) [
        | inl failed ↦ ground arith
        | inr (bytes, ok') ↦ ground (arith, read_range-length xs (base + 4) (words * 4) ok')
      ]
    ]

-- The size of an accepted header, and its extension.
pub record IsWhole (base size total : ℕ) (ext : Option HeaderExtension) : Type 0 where
  pub above : base ≤ total
  pub within : total ≤ size
  pub whole_words : total % 4 ≡ base % 4
  pub extension_fits : FitsIn total ext

parse_extension-IsWhole :
    (xs : List ℕ) (size base total : ℕ) (ext ext' : Option HeaderExtension)
    → 12 ≤ base
    → parse_extension xs size base ext ≡ some (some (total, ext'))
    → IsWhole base size total ext'
unfolding parse_extension
parse_extension-IsWhole xs size base total ext ext' h e =
    elim (Option-cases (read_be16 (drop (base + 2) xs))) [
      | inl failed ↦ ground arith
      | inr (words, ok) ↦ elim (Option-cases (store_extension xs base (words * 4) ext)) [
        | inl failed ↦ ground arith
        | inr (stored, ok') ↦ ground (arith, store_extension-FitsIn xs base words ext stored h ok')
      ]
    ]

finish-true :
    (xs : List ℕ) (out out' : Outputs) (found : Option (ℕ × Option HeaderExtension))
    → finish xs out found ≡ some (true, out')
    → (total : ℕ) × (ext : Option HeaderExtension) × (found ≡ some (total, ext))
      × (out'.total_size ≡ asked_for out.total_size total)
      × (out'.extension ≡ ext)
unfolding finish
finish-true xs out out' none e = absurd (ground arith)
finish-true xs out out' (some (total, ext)) e = elim (Option-cases (read_fields xs)) [
  | inl failed ↦ absurd (ground arith)
  | inr (fields, ok) ↦ (total, ext, refl, ground arith, ground arith)
]

-- The end of an accepted header, for the outputs.
abbrev EndsInside : ℕ → Outputs → Outputs → Type 0
EndsInside size out out' =
    (total : ℕ) × (12 ≤ total)
    × (total ≤ size)
    × (total % 4 ≡ 0)
    × (out'.total_size ≡ asked_for out.total_size total)
    × FitsIn total out'.extension

finish-EndsInside :
    (xs : List ℕ) (size words : ℕ) (out out' : Outputs)
    (found : Option (ℕ × Option HeaderExtension))
    → ((total : ℕ) (ext : Option HeaderExtension)
        → found ≡ some (total, ext)
        → IsWhole (12 + words * 4) size total ext)
    → finish xs out found ≡ some (true, out')
    → EndsInside size out out'
finish-EndsInside xs size words out out' found whole e =
    let (total, ext, same, sized, stored) = finish-true xs out out' found e in
    let w : IsWhole (12 + words * 4) size total ext = whole total ext same in
    (
      total,
      omega (arith, w.above),
      w.within,
      omega (arith, w.whole_words),
      sized,
      subst (FitsIn total) (sym stored) w.extension_fits,
    )

-- The two ways to accept a packet with the first byte `first`: with an extension, and without.
pub accepts :
    (xs : List ℕ) (size first : ℕ) (out out' : Outputs)
    → parse_header (some xs) size out ≡ some (true, out')
    → get_elem? xs 0 ≡ some first
    → let base = base_header_size first in
      (base ≤ size)
      × (((found : Option (ℕ × Option HeaderExtension)) × (parse_extension xs size base
                out.extension
              ≡ some found)
            × (finish xs out found ≡ some (true, out')))
          ⊎ (finish xs out (some (base, clear_extension out.extension)) ≡ some (true, out')))
unfolding parse_header
accepts xs size first out out' e ok =
    elim (Option-cases (parse_extension xs size (base_header_size first) out.extension)) [
      | inl failed ↦ (ground arith, inr (ground arith))
      | inr (found, ok') ↦ (
        ground arith,
        elim (Bool-cases (has_extension_bit first)) [
          | inl extended ↦ inl (found, ok', ground arith)
          | inr plain ↦ inr (ground arith)
        ],
      )
    ]

clear_extension-FitsIn :
    (ext : Option HeaderExtension) (total : ℕ) → 12 ≤ total → FitsIn total (clear_extension ext)
unfolding clear_extension
clear_extension-FitsIn none total h = tt
clear_extension-FitsIn (some _) total h = omega arith

-- Where `ParseRtpHeader` returns true, the header that it has found has 12 bytes or more, whole words
-- of four, and ends inside the data, so that what follows it can be read; this is the size that it
-- stores, if asked for; and the extension that it stores is whole words, and part of the header.
parse_header-EndsInside :
    (input : Option (List ℕ)) (size : ℕ) (out out' : Outputs)
    → parse_header input size out ≡ some (true, out')
    → EndsInside size out out'
unfolding parse_header
parse_header-EndsInside none size out out' e = absurd (ground arith)
parse_header-EndsInside (some xs) size out out' e = elim (Option-cases (get_elem? xs 0)) [
  | inl failed ↦ absurd (ground arith)
  | inr (first, ok) ↦
      let base = base_header_size first in
      let words = u8 (bit_and first 0x0f) in
      let (inside, way) = accepts xs size first out out' e ok in
      elim way [
        | inl (found, ok', done) ↦
            finish-EndsInside xs size words out out' found
              (λ total ext same.
                parse_extension-IsWhole xs size base total out.extension ext (omega arith)
                  (ok' ∙ ap some same))
              done
        | inr done ↦
            finish-EndsInside xs size words out out' (some (base, clear_extension out.extension))
              (λ total ext same. ground (arith, clear_extension-FitsIn out.extension base)) done
      ]
]
