-- ===== src/Rtp/Parse/Safety.antt =====
-- `ParseRtpHeader` reads inside its data, and writes nothing where it fails.
use fastvid.Common.{
  ℕ, ◌+◌, ◌*◌, ◌≤◌, ◌≡◌, ◌≢◌, false, Option, none, some, List, arith, length, get_elem?, drop,
  length-drop, get_elem?-ne-none, inl, inr, Option-cases,
}
use fastvid.Rtp.{HeaderExtension}
use fastvid.Rtp.Bytes.{read_be16}
use fastvid.Rtp.Bytes.Laws.{read_be16-ne-none, read_be32-ne-none}
use fastvid.Rtp.Parse.{
  Outputs, read_range, store_extension, parse_extension, clear_extension, read_fields, finish,
  parse_header, base_header_size,
}

read_fields-ne-none : (xs : List ℕ) → 12 ≤ length xs → read_fields xs ≢ none
unfolding read_fields
read_fields-ne-none xs h = ground (
  arith,
  get_elem?-ne-none xs 1,
  read_be16-ne-none (drop 2 xs),
  length-drop 2 xs,
  read_be32-ne-none (drop 4 xs),
  length-drop 4 xs,
  read_be32-ne-none (drop 8 xs),
  length-drop 8 xs,
)

read_range-ne-none : (xs : List ℕ) (at n : ℕ) → at + n ≤ length xs → read_range xs at n ≢ none
unfolding read_range
read_range-ne-none xs at n h = ground arith

store_extension-ne-none :
    (xs : List ℕ) (base n : ℕ) (ext : Option HeaderExtension)
    → base + (4 + n) ≤ length xs
    → store_extension xs base n ext ≢ none
unfolding store_extension
store_extension-ne-none xs base n none h = ground arith
store_extension-ne-none xs base n (some _) h = ground (
  arith,
  read_be16-ne-none (drop base xs),
  length-drop base xs,
  read_range-ne-none xs (base + 4) n,
)

parse_extension-ne-none :
    (xs : List ℕ) (size base : ℕ) (ext : Option HeaderExtension)
    → size ≤ length xs
    → parse_extension xs size base ext ≢ none
unfolding parse_extension
parse_extension-ne-none xs size base ext h = elim (Option-cases (read_be16 (drop (base + 2) xs))) [
  | inl e ↦ ground (arith, read_be16-ne-none (drop (base + 2) xs), length-drop (base + 2) xs)
  | inr (words, e) ↦ ground (arith, store_extension-ne-none xs base (words * 4) ext)
]

finish-ne-none :
    (xs : List ℕ) (out : Outputs) (found : Option (ℕ × Option HeaderExtension))
    → 12 ≤ length xs
    → finish xs out found ≢ none
unfolding finish
finish-ne-none xs out none h = ground arith
finish-ne-none xs out (some (total, ext)) h = ground (arith, read_fields-ne-none xs)

-- If the data has at least `size` bytes, no read of `ParseRtpHeader` goes past its end, on any path:
-- the function returns.
pub parse_header-ne-none :
    (xs : List ℕ) (size : ℕ) (out : Outputs)
    → size ≤ length xs
    → parse_header (some xs) size out ≢ none
unfolding parse_header
parse_header-ne-none xs size out h = elim (Option-cases (get_elem? xs 0)) [
  | inl e ↦ ground (arith, get_elem?-ne-none xs 0)
  | inr (first, e) ↦
      elim (Option-cases (parse_extension xs size (base_header_size first) out.extension)) [
        | inl e' ↦
            absurd (parse_extension-ne-none xs size (base_header_size first) out.extension h e')
        | inr (found, e') ↦ ground (
          arith,
          finish-ne-none xs out found,
          finish-ne-none xs out (some (base_header_size first, clear_extension out.extension)),
        )
      ]
]

finish-false :
    (xs : List ℕ) (out out' : Outputs) (found : Option (ℕ × Option HeaderExtension))
    → finish xs out found ≡ some (false, out')
    → out' ≡ out
unfolding finish
finish-false xs out out' none h = ground arith
finish-false xs out out' (some (total, ext)) h = ground arith

-- Where `ParseRtpHeader` returns false, its outputs are as they were.
pub parse_header-false :
    (input : Option (List ℕ)) (size : ℕ) (out out' : Outputs)
    → parse_header input size out ≡ some (false, out')
    → out' ≡ out
unfolding parse_header
parse_header-false none size out out' h = ground arith
parse_header-false (some xs) size out out' h = elim (Option-cases (get_elem? xs 0)) [
  | inl e ↦ ground arith
  | inr (first, e) ↦
      elim (Option-cases (parse_extension xs size (base_header_size first) out.extension)) [
        | inl e' ↦ ground (
          arith,
          finish-false xs out out' (some (base_header_size first, clear_extension out.extension)),
        )
        | inr (found, e') ↦ ground (
          arith,
          finish-false xs out out' found,
          finish-false xs out out' (some (base_header_size first, clear_extension out.extension)),
        )
      ]
]
