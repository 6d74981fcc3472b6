-- ===== src/Rtp/Parse/Typed.antt =====
-- What `ParseRtpHeader` yields is a header that can be written again.
use fastvid.Common.{
  ℕ, ◌+◌, ◌*◌, ◌^◌, ◌<◌, ◌≡◌, ◌≢◌, refl, sym, ap, ◌∙◌, subst, true, Option, none, some, List, arith,
  get_elem?, drop, inl, inr, Option-cases,
}
use fastvid.Common.Words.{bit_and_0x7f_fits}
use fastvid.Rtp.{HeaderFields, HeaderExtension}
use fastvid.Rtp.Bytes.{read_be16, read_be32}
use fastvid.Rtp.Bytes.Laws.{read_be16_fits, read_be32_fits}
use fastvid.Rtp.Header.Written.{is_aligned}
use fastvid.Rtp.Parse.{
  Outputs, read_range, store_extension, parse_extension, clear_extension, read_fields, finish,
  parse_header, base_header_size,
}
use fastvid.Rtp.Parse.RoundTrip.{IsHeader, IsExtension}
use fastvid.Rtp.Parse.Bounds.{accepts, read_range-length}

-- Fields within their types, the payload type within its seven bits.
abbrev pub IsRead : HeaderFields → Type 0
IsRead f = IsHeader f × (f.payload_type < 128)

-- An extension that the writer accepts.
abbrev pub IsStored : Option HeaderExtension → Type 0
IsStored ext = IsExtension ext × (is_aligned ext ≡ true)

read_fields-IsRead : (xs : List ℕ) {f : HeaderFields} → read_fields xs ≡ some f → IsRead f
unfolding read_fields
read_fields-IsRead xs {f} e = elim (Option-cases (get_elem? xs 1)) [
  | inl failed ↦ absurd (ground arith)
  | inr (second, ok1) ↦ elim (Option-cases (read_be16 (drop 2 xs))) [
    | inl failed ↦ absurd (ground arith)
    | inr (number, ok2) ↦ elim (Option-cases (read_be32 (drop 4 xs))) [
      | inl failed ↦ absurd (ground arith)
      | inr (time, ok4) ↦ elim (Option-cases (read_be32 (drop 8 xs))) [
        | inl failed ↦ absurd (ground arith)
        | inr (source, ok8) ↦ ground (
          arith,
          bit_and_0x7f_fits second,
          read_be16_fits (drop 2 xs) ok2,
          read_be32_fits (drop 4 xs) ok4,
          read_be32_fits (drop 8 xs) ok8,
        )
      ]
    ]
  ]
]

store_extension-IsStored :
    (xs : List ℕ) (base words : ℕ) (ext ext' : Option HeaderExtension)
    → words < 2 ^ 16
    → store_extension xs base (words * 4) ext ≡ some ext'
    → IsStored ext'
unfolding store_extension
store_extension-IsStored xs base words none ext' h e = ground arith
store_extension-IsStored xs base words (some _) ext' h e =
    elim (Option-cases (read_be16 (drop base xs))) [
      | inl failed ↦ absurd (ground arith)
      | inr (profile, ok) ↦ elim (Option-cases (read_range xs (base + 4) (words * 4))) [
        | inl failed ↦ absurd (ground arith)
        | inr (bytes, ok') ↦ ground (
          arith,
          read_be16_fits (drop base xs) ok,
          read_range-length xs (base + 4) (words * 4) ok',
        )
      ]
    ]

parse_extension-IsStored :
    (xs : List ℕ) (size base total : ℕ) (ext ext' : Option HeaderExtension)
    → parse_extension xs size base ext ≡ some (some (total, ext'))
    → IsStored ext'
unfolding parse_extension
parse_extension-IsStored xs size base total ext ext' e =
    elim (Option-cases (read_be16 (drop (base + 2) xs))) [
      | inl failed ↦ absurd (ground arith)
      | inr (words, ok) ↦ elim (Option-cases (store_extension xs base (words * 4) ext)) [
        | inl failed ↦ absurd (ground arith)
        | inr (stored, ok') ↦ ground (
          arith,
          store_extension-IsStored xs base words ext stored (read_be16_fits (drop (base + 2) xs) ok)
              ok',
        )
      ]
    ]

clear_extension-IsStored : (ext : Option HeaderExtension) → IsStored (clear_extension ext)
unfolding clear_extension
clear_extension-IsStored none = (tt, refl)
clear_extension-IsStored (some _) = (omega arith, refl)

-- The fields and the extension that the end of the function stores.
finish-stored :
    (xs : List ℕ) (out out' : Outputs) (total : ℕ) (ext : Option HeaderExtension)
    → finish xs out (some (total, ext)) ≡ some (true, out')
    → (f : HeaderFields) × (out'.fields ≡ some f) × IsRead f × (out'.extension ≡ ext)
unfolding finish
finish-stored xs out out' total ext e = elim (Option-cases (read_fields xs)) [
  | inl failed ↦ absurd (ground arith)
  | inr (f, ok) ↦ (f, ground arith, read_fields-IsRead xs ok, ground arith)
]

finish-none : (xs : List ℕ) (out out' : Outputs) → finish xs out none ≢ some (true, out')
unfolding finish
finish-none xs out out' = ground arith

-- What `ParseRtpHeader` stores where it returns true.
abbrev pub IsTyped : Outputs → Type 0
IsTyped out = (f : HeaderFields) × (out.fields ≡ some f) × IsRead f × IsStored out.extension

finish-IsTyped :
    (xs : List ℕ) (out out' : Outputs) (found : Option (ℕ × Option HeaderExtension))
    → ((total : ℕ) (ext : Option HeaderExtension) → found ≡ some (total, ext) → IsStored ext)
    → finish xs out found ≡ some (true, out')
    → IsTyped out'
finish-IsTyped xs out out' none stored e = absurd (finish-none xs out out' e)
finish-IsTyped xs out out' (some (total, ext)) stored e =
    let (f, kept, read, same) = finish-stored xs out out' total ext e in
    (f, kept, read, subst IsStored (sym same) (stored total ext refl))

-- Whatever bytes `ParseRtpHeader` accepts, what it stores is within the types of the fields, the
-- payload type below 128, and the extension is whole words, fewer than 2 ^ 16 of them.
pub parse_header-IsTyped :
    (input : Option (List ℕ)) (size : ℕ) (out out' : Outputs)
    → parse_header input size out ≡ some (true, out')
    → IsTyped out'
unfolding parse_header
parse_header-IsTyped none size out out' e = absurd (ground arith)
parse_header-IsTyped (some xs) size out out' e = elim (Option-cases (get_elem? xs 0)) [
  | inl failed ↦ absurd (ground arith)
  | inr (first, ok) ↦
      let (inside, way) = accepts xs size first out out' e ok in
      let base = base_header_size first in
      elim way [
        | inl (found, ok', done) ↦
            finish-IsTyped xs out out' found
              (λ total ext same.
                parse_extension-IsStored xs size base total out.extension ext (ok' ∙ ap some same))
              done
        | inr done ↦
            finish-IsTyped xs out out' (some (base, clear_extension out.extension))
              (λ total ext same. ground (arith, clear_extension-IsStored out.extension)) done
      ]
]
