-- ===== src/Rtp/Parse/Prefix.antt =====
-- ParseRtpHeader of RtpProtocol.h on data with more bytes behind those that `size` counts.
use fastvid.Common.{
  ℕ, zero, suc, ◌+◌, ◌*◌, ◌≤◌, ◌<◌, ◌≡◌, refl, ap, ◌∙◌, Option, Option-cases, none, some, inl, inr,
  List, [], ◌∷◌, ◌++◌, arith, length, get_elem?, take, drop, length-drop, length-append,
  drop-append_of_le,
}
use fastvid.Rtp.{HeaderExtension}
use fastvid.Rtp.Bytes.{read_be16, read_be32}
use fastvid.Rtp.Bytes.Laws.{read_be16-append, read_be32-append}
use fastvid.Rtp.Parse.{
  Outputs, read_range, store_extension, parse_extension, clear_extension, read_fields, finish,
  parse_header, base_header_size,
}

take-append_of_le : (n : ℕ) (xs ys : List ℕ) → n ≤ length xs → take n (xs ++ ys) ≡ take n xs
take-append_of_le zero xs ys h = refl
take-append_of_le (suc n) [] ys h = absurd (omega arith)
take-append_of_le (suc n) (x ∷ xs) ys h = ap (λ t. x ∷ t) (take-append_of_le n xs ys (omega arith))

get_elem?-append :
    (xs ys : List ℕ) (i : ℕ) → i < length xs → get_elem? (xs ++ ys) i ≡ get_elem? xs i
get_elem?-append [] ys i h = absurd (omega arith)
get_elem?-append (x ∷ xs) ys zero h = refl
get_elem?-append (x ∷ xs) ys (suc i) h = get_elem?-append xs ys i (omega arith)

module _ (xs ys : List ℕ) where
  read_be16-drop :
      (n : ℕ) → n + 2 ≤ length xs → read_be16 (drop n (xs ++ ys)) ≡ read_be16 (drop n xs)
  read_be16-drop n h =
      ap read_be16 (drop-append_of_le n xs ys (omega arith))
      ∙ read_be16-append (drop n xs) ys (omega (arith, length-drop n xs))

  read_be32-drop :
      (n : ℕ) → n + 4 ≤ length xs → read_be32 (drop n (xs ++ ys)) ≡ read_be32 (drop n xs)
  read_be32-drop n h =
      ap read_be32 (drop-append_of_le n xs ys (omega arith))
      ∙ read_be32-append (drop n xs) ys (omega (arith, length-drop n xs))

  read_range-append :
      (at n : ℕ) → at + n ≤ length xs → read_range (xs ++ ys) at n ≡ read_range xs at n
  unfolding read_range
  read_range-append at n h =
      let same : take n (drop at (xs ++ ys)) ≡ take n (drop at xs) =
        ap (take n) (drop-append_of_le at xs ys (omega arith))
        ∙ take-append_of_le n (drop at xs) ys (omega (arith, length-drop at xs)) in
      ground (arith, same, length-append xs ys)

  store_extension-append :
      (base n : ℕ) (ext : Option HeaderExtension)
      → base + (4 + n) ≤ length xs
      → store_extension (xs ++ ys) base n ext ≡ store_extension xs base n ext
  unfolding store_extension
  store_extension-append base n none h = refl
  store_extension-append base n (some _) h =
      rw (read_be16-drop base (omega arith), read_range-append (base + 4) n (omega arith)) refl

  parse_extension-append :
      (base : ℕ) (ext : Option HeaderExtension)
      → parse_extension (xs ++ ys) (length xs) base ext ≡ parse_extension xs (length xs) base ext
  unfolding parse_extension
  parse_extension-append base ext = elim (Option-cases (read_be16 (drop (base + 2) xs))) [
    | inl e ↦ ground (arith, read_be16-drop (base + 2))
    | inr (words, e) ↦
        ground (arith, read_be16-drop (base + 2), store_extension-append base (words * 4) ext)
  ]

  read_fields-append : 12 ≤ length xs → read_fields (xs ++ ys) ≡ read_fields xs
  unfolding read_fields
  read_fields-append h =
      rw
        (
          get_elem?-append xs ys 1 (omega arith),
          read_be16-drop 2 (omega arith),
          read_be32-drop 4 (omega arith),
          read_be32-drop 8 (omega arith),
        )
        refl

  finish-append :
      (out : Outputs) (found : Option (ℕ × Option HeaderExtension))
      → 12 ≤ length xs
      → finish (xs ++ ys) out found ≡ finish xs out found
  unfolding finish
  finish-append out none h = refl
  finish-append out (some found) h = rw (read_fields-append h) refl

  -- Only the bytes that `size` counts are read.
  pub parse_header-append :
      (out : Outputs)
      → parse_header (some (xs ++ ys)) (length xs) out ≡ parse_header (some xs) (length xs) out
  unfolding parse_header
  parse_header-append out = elim (Option-cases (get_elem? xs 0)) [
    | inl e ↦ ground (arith, get_elem?-append xs ys 0)
    | inr (first, e) ↦
        let base = base_header_size first in
        elim (Option-cases (parse_extension xs (length xs) base out.extension)) [
          | inl failed ↦ ground (
            arith,
            get_elem?-append xs ys 0,
            parse_extension-append base out.extension,
            finish-append out (some (base, clear_extension out.extension)),
          )
          | inr (found, ok) ↦ ground (
            arith,
            get_elem?-append xs ys 0,
            parse_extension-append base out.extension,
            finish-append out found,
            finish-append out (some (base, clear_extension out.extension)),
          )
        ]
  ]
