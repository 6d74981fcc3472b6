-- ===== src/Rtp/Header.antt =====
-- WriteRtpHeader and ParseRtpHeader of RtpProtocol.h.
pub mod Written
use Prim.Native.Nat.{bit_and, bit_or}
use fastvid.Common.{
  ℕ, zero, suc, ◌+◌, ◌*◌, ◌/◌, ◌%◌, Bool, true, false, not, ◌&&◌, ◌||◌, Option, none, some, List,
  [], ◌∷◌, length, get_elem?, set, take, drop, replicate, ltb, leb, ◌==◌, if◌then◌else◌,
}
use fastvid.Common.Words.{u8, u16, ◌<<<◌, ◌>>>◌}
use fastvid.Rtp.{HeaderFields, HeaderExtension, header_size, extension_header_size, version}
use fastvid.Rtp.Bytes.{read_be16, read_be32, write_be16, write_be32}

-- `std::copy` to index `at` on.
pub copy_to : ℕ → List ℕ → List ℕ → List ℕ
copy_to at [] buf = buf
copy_to at (x ∷ xs) buf = copy_to (at + 1) xs (set buf at x)

-- `extension != nullptr && !extension->payload.empty()`
pub has_extension : Option HeaderExtension → Bool
has_extension none = false
has_extension (some h) = not (length h.payload == 0)

-- The first twelve bytes.
pub write_fixed : HeaderFields → Bool → List ℕ → List ℕ
write_fixed fields extended packet =
    let first = set packet 0 (u8 (bit_or (version <<< 6) (if extended then 0x10 else 0x00))) in
    let marked =
      u8 (bit_or (if fields.marker then 0x80 else 0x00) (bit_and fields.payload_type 0x7f)) in
    let second = set first 1 marked in
    let numbered = write_be16 fields.sequence_number 2 second in
    write_be32 fields.ssrc 8 (write_be32 fields.timestamp 4 numbered)

-- `extension->payload`, read only where there is an extension.
pub extension_payload : Option HeaderExtension → List ℕ
extension_payload none = []
extension_payload (some h) = h.payload

pub write_extension : Option HeaderExtension → List ℕ → List ℕ
write_extension none packet = packet
write_extension (some h) packet =
    let profiled = write_be16 h.profile_id header_size packet in
    let sized = write_be16 (u16 (length h.payload / 4)) (header_size + 2) profiled in
    copy_to (header_size + 4) h.payload sized

-- The return value, and what `packet` points to afterwards (`none` is the null pointer).
pub write_header : HeaderFields → Option HeaderExtension → Option (List ℕ) → Bool × Option (List ℕ)
unfolding has_extension extension_payload
write_header fields ext none = (false, none)
write_header fields ext (some old) =
    let extended = has_extension ext in
    let words = extension_payload ext in
    let extension_size = if extended then extension_header_size + length words else 0 in
    let fixed = write_fixed fields extended (replicate (header_size + extension_size) 0) in
    if extended && not (length words % 4 == 0)
    then (false, some old)
    else (true, some (if extended then write_extension ext fixed else fixed))

-- The overload without an extension.
pub write_header_plain : HeaderFields → Option (List ℕ) → Option (List ℕ)
write_header_plain fields packet = (write_header fields none packet).1
