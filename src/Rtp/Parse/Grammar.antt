-- ===== src/Rtp/Parse/Grammar.antt =====
-- The packets of RTP that `ParseRtpHeader` is for, described by their bytes: version 2, no padding, any
-- contributing sources, and an extension or none.
pub mod Accepts
pub mod Fours
pub mod Found
pub mod Decode
pub mod Exact
use Prim.Native.Nat.{bit_and}
use fastvid.Common.{
  ℕ, ◌+◌, ◌*◌, ◌/◌, ◌%◌, ◌^◌, ◌≤◌, ◌<◌, ◌≡◌, ◌≢◌, refl, sym, subst, ap, ◌∙◌, true, false, Bool, not,
  Option, none, some, List, [], ◌∷◌, ◌++◌, arith, length, drop, length-append, drop-append,
  drop-append_add, take-append, append_assoc, ◌==◌, if◌then◌else◌,
}
use fastvid.Common.Words.{u8, bit_and_0x0f, bit_and_0x10, bit_and_0x20}
use fastvid.Rtp.{HeaderFields, HeaderExtension, default_extension}
use fastvid.Rtp.Bytes.{read_be16}
use fastvid.Rtp.Bytes.Laws.{bytes16, bytes32, read_be16-bytes16, read_be32-bytes32}
use fastvid.Rtp.Parse.{
  Outputs, read_range, store_extension, parse_extension, clear_extension, read_fields, finish,
  parse_header, version_of, has_padding, has_extension_bit, base_header_size,
}
use fastvid.Rtp.Parse.RoundTrip.{IsHeader, asked_for, second_fields, read_range-append}

-- A packet, with the bytes of its contributing sources and of its media.
pub record Packet : Type 0 where
  pub fields : HeaderFields
  pub sources : List ℕ
  pub extension : Option HeaderExtension
  pub media : List ℕ

-- An extension is counted in words of four bytes, by sixteen bits.
abbrev pub IsCounted : Option HeaderExtension → Type 0
IsCounted none = Unit {0}
IsCounted (some h) =
    (h.profile_id < 2 ^ 16) × (length h.payload % 4 ≡ 0) × (length h.payload < 2 ^ 18)

-- The fields within their bits, at most fifteen sources of four bytes, and the extension in words.
pub record IsPacket (p : Packet) : Type 0 where
  pub fields : IsHeader p.fields
  pub seven_bits : p.fields.payload_type < 128
  pub whole_sources : length p.sources % 4 ≡ 0
  pub few_sources : length p.sources < 64
  pub extension : IsCounted p.extension

-- The first byte: the version, the bit of the extension, and the number of the sources.
abbrev pub first_byte : Packet → ℕ
first_byte p = elim p.extension [
  | none ↦ 128 + length p.sources / 4
  | some h ↦ 144 + length p.sources / 4
]

abbrev pub counted_bytes : Option HeaderExtension → List ℕ
counted_bytes none = []
counted_bytes (some h) = bytes16 h.profile_id ++ (bytes16 (length h.payload / 4) ++ h.payload)

-- The fixed part, without the first byte.
abbrev pub fixed_part : HeaderFields → List ℕ
fixed_part f =
    ((if f.marker then 128 else 0) + f.payload_type % 128) ∷ bytes16 f.sequence_number
    ++ (bytes32 f.timestamp ++ bytes32 f.ssrc)

-- The bytes of a packet.
abbrev pub encode : Packet → List ℕ
encode p =
    first_byte p ∷ fixed_part p.fields ++ (p.sources ++ (counted_bytes p.extension ++ p.media))

abbrev pub extension_size : Option HeaderExtension → ℕ
extension_size none = 0
extension_size (some h) = 4 + length h.payload

-- The outputs, where a packet is accepted.
abbrev pub stored_from : Packet → Outputs → Outputs
stored_from p out = record {
  fields = some p.fields;
  total_size = asked_for out.total_size (12 + length p.sources + extension_size p.extension);
  extension = asked_for out.extension (elim p.extension [ none ↦ default_extension | some h ↦ h ]);
}

-- A packet by its parts.
abbrev pub packet_of : HeaderFields → List ℕ → Option HeaderExtension → List ℕ → Packet
packet_of f sources ext media = record {
  fields = f;
  sources = sources;
  extension = ext;
  media = media;
}
