-- ===== src/Rtp/Parse/Grammar/Accepts.antt =====
-- ParseRtpHeader of RtpProtocol.h on the bytes of a packet.
use fastvid.Common.{
  ℕ, ◌+◌, ◌*◌, ◌/◌, ◌^◌, ◌<◌, ◌≡◌, ◌≢◌, refl, subst, ap, ◌∙◌, true, false, Bool, Option, none, some,
  List, ◌∷◌, ◌++◌, arith, length, drop, length-append, drop-append, drop-append_add, take-append,
  if◌then◌else◌,
}
use fastvid.Common.Words.{bit_and_0x0f, bit_and_0x10, bit_and_0x20}
use fastvid.Rtp.{HeaderFields, HeaderExtension, default_extension}
use fastvid.Rtp.Bytes.{read_be16}
use fastvid.Rtp.Bytes.Laws.{bytes16, bytes32, read_be16-bytes16, read_be32-bytes32}
use fastvid.Rtp.Parse.{
  Outputs, read_range, store_extension, parse_extension, clear_extension, read_fields, finish,
  parse_header, version_of, has_padding, has_extension_bit, base_header_size,
}
use fastvid.Rtp.Parse.RoundTrip.{IsHeader, asked_for, second_fields}
use fastvid.Rtp.Parse.Grammar.{
  Packet, IsCounted, IsPacket, fixed_part, encode, stored_from, packet_of,
}

read_fields-fixed_part :
    (first : ℕ) (f : HeaderFields) (rest : List ℕ)
    → IsHeader f
    → f.payload_type < 128
    → read_fields (first ∷ fixed_part f ++ rest) ≡ some f
unfolding read_fields
read_fields-fixed_part first f rest v seven =
    let (marked, typed) = second_fields f.marker f.payload_type in
    ground (
      arith,
      marked,
      typed,
      read_be16-bytes16 f.sequence_number (bytes32 f.timestamp ++ (bytes32 f.ssrc ++ rest))
          v.sequence_number_fits,
      read_be32-bytes32 f.timestamp (bytes32 f.ssrc ++ rest) v.timestamp_fits,
      read_be32-bytes32 f.ssrc rest v.ssrc_fits,
    )

-- The extension's bytes, and the media behind them.
abbrev tail_of : HeaderExtension → List ℕ → List ℕ
tail_of h media = bytes16 h.profile_id ++ (bytes16 (length h.payload / 4) ++ (h.payload ++ media))

read_range-tail_of :
    (before : List ℕ) (h : HeaderExtension) (media : List ℕ)
    → read_range (before ++ tail_of h media) (length before + 4) (length h.payload) ≡ some h.payload
unfolding read_range
read_range-tail_of before h media = ground (
  arith,
  drop-append_add before (tail_of h media) 4,
  take-append h.payload media,
  length-append before (tail_of h media),
  length-append h.payload media,
)

store_extension-tail_of :
    (before : List ℕ) (h : HeaderExtension) (media : List ℕ) (ext : Option HeaderExtension)
    → h.profile_id < 2 ^ 16
    → store_extension (before ++ tail_of h media) (length before) (length h.payload) ext
      ≡ some (asked_for ext h)
unfolding store_extension
store_extension-tail_of before h media none fits = refl
store_extension-tail_of before h media (some _) fits = ground (
  arith,
  drop-append before (tail_of h media),
  read_be16-bytes16 h.profile_id (bytes16 (length h.payload / 4) ++ (h.payload ++ media)) fits,
  read_range-tail_of before h media,
)

parse_extension-tail_of :
    (before : List ℕ) (h : HeaderExtension) (media : List ℕ) (ext : Option HeaderExtension)
    → IsCounted (some h)
    → let xs = before ++ tail_of h media in
      parse_extension xs (length xs) (length before) ext
      ≡ some (some (length before + (4 + length h.payload), asked_for ext h))
unfolding parse_extension
parse_extension-tail_of before h media ext (profile, whole, short) =
    let words : length h.payload / 4 * 4 ≡ length h.payload = omega arith in
    let counted : read_be16 (drop (length before + 2) (before ++ tail_of h media))
        ≡ some (length h.payload / 4) =
      ap read_be16 (drop-append_add before (tail_of h media) 2)
      ∙ read_be16-bytes16 (length h.payload / 4) (h.payload ++ media) (omega arith) in
    rw (counted, words, store_extension-tail_of before h media ext profile)
      (ground (arith, length-append before (tail_of h media), length-append h.payload media))

-- What the tests of the first byte find.
first_bits :
    (c : ℕ) (x : Bool)
    → c < 16
    → let first = 128 + (if x then 16 else 0) + c in
      (version_of first ≡ 2)
      × (has_padding first ≡ false)
      × (has_extension_bit first ≡ x)
      × (base_header_size first ≡ 12 + c * 4)
first_bits c true few =
    ground (arith, bit_and_0x0f (144 + c), bit_and_0x10 (144 + c), bit_and_0x20 (144 + c))
first_bits c false few =
    ground (arith, bit_and_0x0f (128 + c), bit_and_0x10 (128 + c), bit_and_0x20 (128 + c))

-- A packet's bytes up to the extension, and their number.
abbrev head_of : ℕ → HeaderFields → List ℕ → List ℕ
head_of first f sources = first ∷ fixed_part f ++ sources

parse_header-plain :
    (first : ℕ) (f : HeaderFields) (sources media : List ℕ) (out : Outputs)
    → IsHeader f
    → f.payload_type < 128
    → version_of first ≡ 2
    → has_padding first ≡ false
    → has_extension_bit first ≡ false
    → base_header_size first ≡ 12 + length sources
    → out.fields ≢ none
    → let xs = first ∷ fixed_part f ++ (sources ++ media) in
      parse_header (some xs) (length xs) out
      ≡ some (
        true,
        record {
          fields = some f;
          total_size = asked_for out.total_size (12 + length sources + 0);
          extension = asked_for out.extension default_extension;
        },
      )
unfolding parse_header finish clear_extension
parse_header-plain first f sources media out v seven two unpadded plain base present = ground (
  arith,
  two,
  unpadded,
  plain,
  base,
  length-append sources media,
  read_fields-fixed_part first f (sources ++ media) v seven,
)

parse_header-tail_of :
    (first : ℕ) (f : HeaderFields) (sources : List ℕ) (h : HeaderExtension) (media : List ℕ)
    (out : Outputs)
    → IsHeader f
    → f.payload_type < 128
    → IsCounted (some h)
    → version_of first ≡ 2
    → has_padding first ≡ false
    → has_extension_bit first ≡ true
    → base_header_size first ≡ 12 + length sources
    → out.fields ≢ none
    → let xs = first ∷ fixed_part f ++ (sources ++ tail_of h media) in
      parse_header (some xs) (length xs) out
      ≡ some (
        true,
        record {
          fields = some f;
          total_size = asked_for out.total_size (12 + length sources + (4 + length h.payload));
          extension = asked_for out.extension h;
        },
      )
unfolding parse_header finish
parse_header-tail_of first f sources h media out v seven counted two unpadded extended base
      present =
    let xs = first ∷ fixed_part f ++ (sources ++ tail_of h media) in
    let found : parse_extension xs (length xs) (12 + length sources) out.extension
        ≡ some (some (12 + length sources + (4 + length h.payload), asked_for out.extension h)) =
      subst
        (λ (n : ℕ).
          parse_extension xs (length xs) n out.extension
          ≡ some (some (n + (4 + length h.payload), asked_for out.extension h)))
        (omega arith)
        (parse_extension-tail_of (head_of first f sources) h media out.extension counted) in
    ground (
      arith,
      two,
      unpadded,
      extended,
      base,
      found,
      length-append sources (tail_of h media),
      length-append h.payload media,
      read_fields-fixed_part first f (sources ++ tail_of h media) v seven,
    )

parse_header-packet_of :
    (f : HeaderFields) (sources : List ℕ) (ext : Option HeaderExtension) (media : List ℕ)
    (out : Outputs)
    → IsPacket (packet_of f sources ext media)
    → out.fields ≢ none
    → let p = packet_of f sources ext media in
      parse_header (some (encode p)) (length (encode p)) out ≡ some (true, stored_from p out)
parse_header-packet_of f sources none media out v present =
    let (two, unpadded, plain, base) =
      first_bits (length sources / 4) false (omega (arith, v.few_sources)) in
    parse_header-plain (128 + length sources / 4) f sources media out v.fields v.seven_bits two
      unpadded plain (omega (arith, base, v.whole_sources)) present
parse_header-packet_of f sources (some h) media out v present =
    let (two, unpadded, extended, base) =
      first_bits (length sources / 4) true (omega (arith, v.few_sources)) in
    parse_header-tail_of (144 + length sources / 4) f sources h media out v.fields v.seven_bits
      v.extension two unpadded extended (omega (arith, base, v.whole_sources)) present

-- `ParseRtpHeader` accepts every packet, with its fields and its extension.
pub parse_header-encode :
    (p : Packet) (out : Outputs)
    → IsPacket p
    → out.fields ≢ none
    → parse_header (some (encode p)) (length (encode p)) out ≡ some (true, stored_from p out)
parse_header-encode p out v present =
    parse_header-packet_of p.fields p.sources p.extension p.media out v present
