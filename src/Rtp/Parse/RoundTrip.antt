-- ===== src/Rtp/Parse/RoundTrip.antt =====
-- What `ParseRtpHeader` makes of a packet that `WriteRtpHeader` wrote, with media behind it.
use Prim.Native.Nat.{bit_and}
use fastvid.Common.{
  ℕ, ◌+◌, ◌*◌, ◌/◌, ◌%◌, ◌^◌, ◌<◌, ◌≡◌, ◌≢◌, refl, subst, Bool, true, false, not, Option, none,
  some, List, [], ◌∷◌, ◌++◌, arith, length, length-append, take-append, drop-append, ◌==◌,
  if◌then◌else◌,
}
use fastvid.Common.Words.{u8, bit_and_0x7f, bit_and_0x80}
use fastvid.Rtp.{HeaderFields, HeaderExtension, default_extension}
use fastvid.Rtp.Bytes.Laws.{bytes16, bytes32, read_be16-bytes16, read_be32-bytes32}
use fastvid.Rtp.Header.{write_header}
use fastvid.Rtp.Header.Written.{fixed_bytes, packet_bytes, is_aligned, write_header_lem}
use fastvid.Rtp.Parse.{
  Outputs, read_range, store_extension, parse_extension, clear_extension, read_fields, finish,
  parse_header,
}

-- The fields fit the widths that their struct gives them.
pub record IsHeader (f : HeaderFields) : Type 0 where
  pub payload_type_fits : f.payload_type < 2 ^ 8
  pub sequence_number_fits : f.sequence_number < 2 ^ 16
  pub timestamp_fits : f.timestamp < 2 ^ 32
  pub ssrc_fits : f.ssrc < 2 ^ 32

pub second_fields :
    (marker : Bool) (t : ℕ)
    → let second = (if marker then 128 else 0) + t % 128 in
      (not (bit_and second 0x80 == 0) ≡ marker) × (u8 (bit_and second 0x7f) ≡ t % 128)
second_fields true t = ground (arith, bit_and_0x80 (128 + t % 128), bit_and_0x7f (128 + t % 128))
second_fields false t = ground (arith, bit_and_0x80 (0 + t % 128), bit_and_0x7f (0 + t % 128))

read_fields-fixed_bytes :
    (f : HeaderFields) (extended : Bool) (rest : List ℕ)
    → IsHeader f
    → read_fields (fixed_bytes f extended ++ rest)
      ≡ some (record f { payload_type = f.payload_type % 128 })
unfolding read_fields
read_fields-fixed_bytes f extended rest v =
    let (marked, typed) = second_fields f.marker f.payload_type in
    ground (
      arith,
      marked,
      typed,
      read_be16-bytes16 f.sequence_number (bytes32 f.timestamp ++ (bytes32 f.ssrc ++ rest))
          v.sequence_number_fits,
      read_be32-bytes32 f.timestamp (bytes32 f.ssrc ++ rest) v.timestamp_fits,
      read_be32-bytes32 f.ssrc rest v.ssrc_fits,
    )

pub read_range-append :
    (before xs after : List ℕ)
    → read_range (before ++ (xs ++ after)) (length before) (length xs) ≡ some xs
unfolding read_range
read_range-append before xs after =
    rw (drop-append, take-append)
      (ground (arith, length-append before (xs ++ after), length-append xs after))

-- A packet with an extension of so many words, up to the extension's payload.
abbrev pub extended_head : HeaderFields → ℕ → ℕ → List ℕ
extended_head f profile words = fixed_bytes f true ++ (bytes16 profile ++ bytes16 words)

-- The extension, where the caller asks for one.
abbrev pub asked_for : {A : Type 0} → Option A → A → Option A
asked_for none a = none
asked_for (some _) a = some a

store_extension-extended :
    (f : HeaderFields) (words : ℕ) (h : HeaderExtension) (media : List ℕ)
    (ext : Option HeaderExtension)
    → h.profile_id < 2 ^ 16
    → store_extension
        (extended_head f h.profile_id words ++ (h.payload ++ media))
        12
        (length h.payload)
        ext
      ≡ some (asked_for ext h)
unfolding store_extension
store_extension-extended f words h media none fits = refl
store_extension-extended f words h media (some _) fits = ground (
  arith,
  read_range-append (extended_head f h.profile_id words) h.payload media,
  read_be16-bytes16 h.profile_id (bytes16 words ++ (h.payload ++ media)) fits,
)

parse_extension-extended :
    (f : HeaderFields) (words : ℕ) (h : HeaderExtension) (media : List ℕ)
    (ext : Option HeaderExtension)
    → h.profile_id < 2 ^ 16
    → words < 2 ^ 16
    → words * 4 ≡ length h.payload
    → let xs = extended_head f h.profile_id words ++ (h.payload ++ media) in
      parse_extension xs (length xs) 12 ext ≡ some (some (16 + length h.payload, asked_for ext h))
unfolding parse_extension
parse_extension-extended f words h media ext profile few whole =
    rw
      (
        read_be16-bytes16 words (h.payload ++ media) few,
        whole,
        store_extension-extended f words h media ext profile,
      )
      (ground (arith, length-append h.payload media))

-- The profile is a uint16_t, and the payload's words are counted by one.
abbrev pub IsExtension : Option HeaderExtension → Type 0
IsExtension none = Unit {0}
IsExtension (some h) = (h.profile_id < 2 ^ 16) × (length h.payload < 2 ^ 18)

-- The extension that a packet carries. An empty payload is not sent.
abbrev pub carried : Option HeaderExtension → HeaderExtension
carried none = default_extension
carried (some h) = elim h.payload [ [] ↦ default_extension | x ∷ xs ↦ h ]

-- What the outputs become when a packet of `size` header bytes is accepted.
abbrev pub received : HeaderFields → HeaderExtension → ℕ → Outputs → Outputs
received f h size out = record {
  fields = some (record f { payload_type = f.payload_type % 128 });
  total_size = asked_for out.total_size size;
  extension = asked_for out.extension h;
}

parse_header-fixed_bytes :
    (f : HeaderFields) (media : List ℕ) (out : Outputs)
    → IsHeader f
    → out.fields ≢ none
    → let xs = fixed_bytes f false ++ media in
      parse_header (some xs) (length xs) out ≡ some (true, received f default_extension 12 out)
unfolding parse_header finish clear_extension
parse_header-fixed_bytes f media out v present =
    rw (read_fields-fixed_bytes f false media v) (ground arith)

-- A packet whose count of words is that of the payload `h` has.
pub parse_header-extended :
    (f : HeaderFields) (words : ℕ) (h : HeaderExtension) (media : List ℕ) (out : Outputs)
    → IsHeader f
    → h.profile_id < 2 ^ 16
    → words < 2 ^ 16
    → words * 4 ≡ length h.payload
    → out.fields ≢ none
    → let xs = extended_head f h.profile_id words ++ (h.payload ++ media) in
      parse_header (some xs) (length xs) out
      ≡ some (true, received f h (length (extended_head f h.profile_id words ++ h.payload)) out)
unfolding parse_header finish
parse_header-extended f words h media out v profile few whole present = ground (
  arith,
  parse_extension-extended f words h media out.extension profile few whole,
  read_fields-fixed_bytes f true (bytes16 h.profile_id ++ (bytes16 words ++ (h.payload ++ media)))
      v,
)

parse_header-some :
    (f : HeaderFields) (profile : ℕ) (payload media : List ℕ) (out : Outputs)
    → IsHeader f
    → profile < 2 ^ 16
    → length payload < 2 ^ 18
    → (length payload % 4 == 0) ≡ true
    → out.fields ≢ none
    → let h : HeaderExtension = record { profile_id = profile; payload = payload } in
      let packet = packet_bytes f (some h) in
      parse_header (some (packet ++ media)) (length (packet ++ media)) out
      ≡ some (true, received f (carried (some h)) (length packet) out)
parse_header-some f profile [] media out v fits short whole present =
    parse_header-fixed_bytes f media out v present
parse_header-some f profile (x ∷ xs) media out v fits short whole present =
    let few : length (x ∷ xs) % 4 ≡ 0 = ground arith in
    parse_header-extended f (length (x ∷ xs) / 4 % 2 ^ 16)
      (record { profile_id = profile; payload = x ∷ xs }) media out v fits (omega arith)
      (omega arith) present

parse_header-packet_bytes :
    (f : HeaderFields) (ext : Option HeaderExtension) (media : List ℕ) (out : Outputs)
    → IsHeader f
    → IsExtension ext
    → is_aligned ext ≡ true
    → out.fields ≢ none
    → let packet = packet_bytes f ext in
      parse_header (some (packet ++ media)) (length (packet ++ media)) out
      ≡ some (true, received f (carried ext) (length packet) out)
parse_header-packet_bytes f none media out v fits whole present =
    parse_header-fixed_bytes f media out v present
parse_header-packet_bytes f (some h) media out v (fits, short) whole present =
    parse_header-some f h.profile_id h.payload media out v fits short whole present

pub written-packet :
    (f : HeaderFields) (ext : Option HeaderExtension) (old packet : List ℕ)
    → f.payload_type < 256
    → write_header f ext (some old) ≡ (true, some packet)
    → (is_aligned ext ≡ true) × (packet_bytes f ext ≡ packet)
written-packet f ext old packet fits e = ground (arith, write_header_lem f ext old fits)

-- What `WriteRtpHeader` accepts, `ParseRtpHeader` reads back, whatever media bytes follow: it
-- returns true, with the fields (of the payload type its low seven bits), the size of the written
-- packet, and the extension, if these outputs are asked for. An extension with an empty payload
-- comes back as no extension: profile 0 and no payload. The fields fit their widths, a payload has
-- fewer than 2 ^ 18 bytes, and the pointer to the parsed fields is not null.
pub parse_header-write_header :
    (f : HeaderFields) (ext : Option HeaderExtension) (old packet media : List ℕ) (out : Outputs)
    → IsHeader f
    → IsExtension ext
    → out.fields ≢ none
    → write_header f ext (some old) ≡ (true, some packet)
    → parse_header (some (packet ++ media)) (length (packet ++ media)) out
      ≡ some (true, received f (carried ext) (length packet) out)
parse_header-write_header f ext old packet media out v fits present e =
    let (whole, same) = written-packet f ext old packet v.payload_type_fits e in
    subst
      (λ (p : List ℕ).
        parse_header (some (p ++ media)) (length (p ++ media)) out
        ≡ some (true, received f (carried ext) (length p) out))
      same (parse_header-packet_bytes f ext media out v fits whole present)
