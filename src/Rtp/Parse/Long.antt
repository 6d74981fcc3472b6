-- ===== src/Rtp/Parse/Long.antt =====
-- What `ParseRtpHeader` makes of a packet whose extension has more words than their uint16_t counts.
use fastvid.Common.{
  ℕ, ◌+◌, ◌/◌, ◌%◌, ◌^◌, ◌<◌, ◌≡◌, ◌≢◌, refl, sym, ap, ◌∙◌, subst, true, none, some, List, [], ◌∷◌,
  ◌++◌, arith, length, length-take, take, drop, take-append-drop, drop-append, drop-append_add,
  append_assoc,
}
use fastvid.Rtp.{HeaderFields, HeaderExtension}
use fastvid.Rtp.Header.{write_header}
use fastvid.Rtp.Header.Written.{packet_bytes}
use fastvid.Rtp.Parse.{Outputs, parse_header}
use fastvid.Rtp.Parse.RoundTrip.{
  IsHeader, received, extended_head, parse_header-extended, written-packet,
}

-- What the count of words keeps of an extension.
abbrev pub counted : HeaderExtension → HeaderExtension
counted h = record h { payload = take (length h.payload % 2 ^ 18) h.payload }

counted_length : (h : HeaderExtension) → length (counted h).payload ≡ length h.payload % 2 ^ 18
counted_length h = omega (arith, length-take (length h.payload % 2 ^ 18) h.payload)

-- The packet, cut where the counted words end.
packet_bytes-counted :
    (f : HeaderFields) (profile : ℕ) (payload media : List ℕ)
    → 0 < length payload
    → let kept = length payload % 2 ^ 18 in
      packet_bytes f (some (record { profile_id = profile; payload = payload })) ++ media
      ≡ extended_head f profile (length payload / 4 % 2 ^ 16)
        ++ (take kept payload ++ (drop kept payload ++ media))
packet_bytes-counted f profile [] media some_bytes = absurd (omega arith)
packet_bytes-counted f profile (x ∷ xs) media some_bytes =
    let kept = length (x ∷ xs) % 2 ^ 18 in
    let joined : take kept (x ∷ xs) ++ (drop kept (x ∷ xs) ++ media) ≡ (x ∷ xs) ++ media =
      sym (append_assoc (take kept (x ∷ xs)) (drop kept (x ∷ xs)) media)
      ∙ ap (λ t. t ++ media) (take-append-drop kept (x ∷ xs)) in
    rw joined refl

-- What stands behind a header of sixteen bytes and an extension's payload.
drop-head :
    (f : HeaderFields) (profile words : ℕ) (payload rest : List ℕ)
    → drop (16 + length payload) (extended_head f profile words ++ (payload ++ rest)) ≡ rest
drop-head f profile words payload rest =
    drop-append_add (extended_head f profile words) (payload ++ rest) (length payload)
    ∙ drop-append payload rest

-- What `WriteRtpHeader` accepts with a payload that is not empty, of any length, and what
-- `ParseRtpHeader` makes of it, whatever media bytes follow: it returns true, with the header's
-- fields, but the payload is cut to its length modulo 2 ^ 18, as the number of its words is written
-- to sixteen bits; the header's size is 16 bytes and these, and what stands behind a header of that
-- size, where the media should start, is the rest of the payload and only then the media. The fields
-- fit their widths, and the pointer to the parsed fields is not null.
pub parse_header-counted :
    (f : HeaderFields) (h : HeaderExtension) (old packet media : List ℕ) (out : Outputs)
    → IsHeader f
    → h.profile_id < 2 ^ 16
    → 0 < length h.payload
    → out.fields ≢ none
    → write_header f (some h) (some old) ≡ (true, some packet)
    → let kept = length h.payload % 2 ^ 18 in
      (parse_header (some (packet ++ media)) (length (packet ++ media)) out
        ≡ some (true, received f (counted h) (16 + kept) out))
      × (drop (16 + kept) (packet ++ media) ≡ drop kept h.payload ++ media)
parse_header-counted f h old packet media out v profile some_bytes present e =
    let (whole, same) = written-packet f (some h) old packet v.payload_type_fits e in
    let aligned : length h.payload % 4 ≡ 0 = ground arith in
    let words = length h.payload / 4 % 2 ^ 16 in
    let rest = drop (length h.payload % 2 ^ 18) h.payload ++ media in
    let head = extended_head f h.profile_id words in
    let size : length (extended_head f h.profile_id words ++ (counted h).payload)
        ≡ 16 + length h.payload % 2 ^ 18 =
      omega (arith, counted_length h) in
    rw (sym same, packet_bytes-counted f h.profile_id h.payload media some_bytes)
      (
        subst
            (λ (n : ℕ).
              parse_header (some (head ++ ((counted h).payload ++ rest)))
                (length (head ++ ((counted h).payload ++ rest))) out
              ≡ some (true, received f (counted h) n out))
            size
            (parse_header-extended f words (counted h) rest out v profile (omega arith)
              (omega (arith, counted_length h)) present),
        subst (λ (n : ℕ). drop (16 + n) (head ++ ((counted h).payload ++ rest)) ≡ rest)
            (counted_length h) (drop-head f h.profile_id words (counted h).payload rest),
      )
