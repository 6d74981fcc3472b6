-- ===== src/Rtp/Parse/Grammar/Exact.antt =====
-- ParseRtpHeader of RtpProtocol.h accepts the packets of the grammar and no other bytes.
use fastvid.Common.{
  ℕ, ◌+◌, ◌*◌, ◌%◌, ◌≤◌, ◌≡◌, subst, ap, inl, inr, true, false, none, some, List, ◌∷◌, ◌++◌, arith,
  length, drop, ◌≢◌, Option-cases, ◌⊎◌, ◌∙◌,
}
use fastvid.Rtp.Bytes.{read_be16}
use fastvid.Rtp.Parse.{Outputs, parse_header}
use fastvid.Rtp.Parse.Grammar.{Packet, IsPacket, stored_from, encode, packet_of}
use fastvid.Rtp.Parse.Prefix.{parse_header-append}
use fastvid.Rtp.Parse.Safety.{parse_header-ne-none, parse_header-false}
use fastvid.Rtp.Parse.Grammar.Accepts.{parse_header-encode}
use fastvid.Rtp.Parse.Grammar.Fours.{IsBytes, four, IsTwelve, twelve}
use fastvid.Rtp.Parse.Grammar.Found.{IsAccepted, accepted-of, first-of}
use fastvid.Rtp.Parse.Grammar.Decode.{
  fields_of, sources_of, extension_of, media_of, behind, behind-IsBytes, length-behind,
  length-twelve, words_of, plain-encode, extended-encode, words-read,
}

-- The bytes that are accepted are those of a packet.
sound-twelve :
    (xs : List ℕ) (w : IsTwelve xs)
    → IsAccepted xs w.w0.a
    → (p : Packet) × IsPacket p × (encode p ≡ xs)
sound-twelve xs w v =
    let first = w.w0.a in
    let total = length-twelve w in
    elim v.extended [
      | inl plain ↦
          let (is, base) = first-of first false w.w0.a_fits v.version v.unpadded plain in
          let fits : first % 16 * 4 ≤ length w.w2.rest = omega (arith, v.base, base, total) in
          let (good, same) = plain-encode w is fits in
          (packet_of (fields_of w) (sources_of w) none (behind w), good, same)
      | inr (words, bit, read, inside) ↦
          let (is, base) = first-of first true w.w0.a_fits v.version v.unpadded bit in
          let fits : first % 16 * 4 ≤ length w.w2.rest = omega (arith, v.base, base, total) in
          let e =
            four (behind w) (omega (arith, inside, base, total, length-behind w))
              (behind-IsBytes w) in
          let at : read_be16 (drop (12 + first % 16 * 4 + 2) xs) ≡ some words =
            subst (λ n. read_be16 (drop (n + 2) xs) ≡ some words) base read in
          let counted : words ≡ words_of w e = ground (arith, at, words-read w e fits) in
          let held = ap length e.same in
          let inside' : words_of w e * 4 ≤ length e.rest =
            omega (arith, inside, base, total, length-behind w, held, counted) in
          let (good, same) = extended-encode w e is fits inside' in
          (
            packet_of (fields_of w) (sources_of w) (some (extension_of w e)) (media_of w e),
            good,
            same,
          )
    ]

sound :
    (xs : List ℕ) (out out' : Outputs)
    → IsBytes xs
    → parse_header (some xs) (length xs) out ≡ some (true, out')
    → (p : Packet) × IsPacket p × (encode p ≡ xs)
unfolding parse_header
sound xs out out' v e =
    let enough : 12 ≤ length xs = ground arith in
    let w = twelve xs enough v in
    let w0 = w.w0 in
    sound-twelve xs w (accepted-of w0.a (w0.b ∷ w0.c ∷ w0.d ∷ w0.rest) xs out out' w0.same e)

-- The bytes are those of a packet, which the function stores, or of none, and it returns false. Its data
-- are these bytes and what stands behind them, its size is the number of these.
abbrev pub IsDecided : List ℕ → List ℕ → Outputs → Type 0
IsDecided xs behind out =
    ((p : Packet) × IsPacket p
      × (encode p ≡ xs)
      × (parse_header (some (xs ++ behind)) (length xs) out ≡ some (true, stored_from p out)))
    ⊎ (((p : Packet) → IsPacket p → encode p ≢ xs)
        × (parse_header (some (xs ++ behind)) (length xs) out ≡ some (false, out)))

accepts :
    (xs : List ℕ) (out : Outputs) (p : Packet)
    → IsPacket p
    → encode p ≡ xs
    → out.fields ≢ none
    → parse_header (some xs) (length xs) out ≡ some (true, stored_from p out)
accepts xs out p good same present =
    subst (λ ys. parse_header (some ys) (length ys) out ≡ some (true, stored_from p out)) same
      (parse_header-encode p out good present)

-- If `fields` is not null and the first `size` elements of the data are bytes, then `ParseRtpHeader`
-- returns, and it decides whether these bytes are a packet, whatever stands behind them: either there is
-- a packet (version 2, no padding, at most 15 contributing sources, an extension that its length field
-- counts, or none) with these bytes, and the function returns true with the packet's fields, its
-- header's size and its extension stored through the pointers that are not null; or no packet has these
-- bytes, and it returns false with the outputs as they were.
pub parse_header-exact :
    (xs behind : List ℕ) (out : Outputs) → IsBytes xs → out.fields ≢ none → IsDecided xs behind out
parse_header-exact xs behind out v present =
    let alone = parse_header-append xs behind out in
    elim (Option-cases (parse_header (some xs) (length xs) out)) [
      | inl e ↦ absurd (parse_header-ne-none xs (length xs) out (omega arith) e)
      | inr ((true, out'), e) ↦
          let (p, good, same) = sound xs out out' v e in
          inl (p, good, same, alone ∙ accepts xs out p good same present)
      | inr ((false, out'), e) ↦ inr (
        λ p good same. ground (arith, e, accepts xs out p good same present),
        alone ∙ e ∙ ap (λ o. some (false, o)) (parse_header-false (some xs) (length xs) out out' e),
      )
    ]
