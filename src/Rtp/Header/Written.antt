-- ===== src/Rtp/Header/Written.antt =====
-- The bytes that `write_header` leaves in the packet.
use fastvid.Common.{
  ℕ, suc, ◌+◌, ◌/◌, ◌%◌, ◌^◌, ◌<◌, ◌≡◌, refl, ◌∙◌, Bool, true, false, Option, none, some, List, [],
  ◌∷◌, ◌++◌, arith, length, set, replicate, if◌then◌else◌, ◌==◌, append_assoc, set-append_zero,
  length-append,
}
use fastvid.Common.Words.{u8, u16, ◌<<<◌, bit_or_disjoint, bit_and_0x7f}
use Prim.Native.Nat.{bit_and, bit_or}
use fastvid.Rtp.{HeaderFields, HeaderExtension, version, header_size}
use fastvid.Rtp.Bytes.Laws.{bytes16, bytes32, byte_at-eq}
use fastvid.Rtp.Bytes.{write_be16, write_be32}
use fastvid.Rtp.Header.{copy_to, write_fixed, write_extension, write_header}

-- The packet, stated without writes: the fixed part, and the extension where there is one.
abbrev pub fixed_bytes : HeaderFields → Bool → List ℕ
fixed_bytes f extended =
    (128 + (if extended then 16 else 0))
      ∷ ((if f.marker then 128 else 0) + f.payload_type % 128)
      ∷ bytes16 f.sequence_number
    ++ (bytes32 f.timestamp ++ bytes32 f.ssrc)

abbrev pub extension_bytes : HeaderExtension → List ℕ
extension_bytes h = bytes16 h.profile_id ++ (bytes16 (length h.payload / 4 % 2 ^ 16) ++ h.payload)

first_byte :
    (extended : Bool)
    → u8 (bit_or (version <<< 6) (if extended then 0x10 else 0x00))
      ≡ 128 + (if extended then 16 else 0)
first_byte true = refl
first_byte false = refl

second_byte :
    (marker : Bool) (t : ℕ)
    → t < 256
    → u8 (bit_or (if marker then 0x80 else 0x00) (bit_and t 0x7f))
      ≡ (if marker then 128 else 0) + t % 128
second_byte true t h = rw (bit_and_0x7f t h) (ground (arith, bit_or_disjoint 7 128 (t % 128)))
second_byte false t h = rw (bit_and_0x7f t h) (ground (arith, bit_or_disjoint 7 0 (t % 128)))

write_fixed-eq :
    (f : HeaderFields) (extended : Bool) (n : ℕ)
    → f.payload_type < 256
    → write_fixed f extended (replicate (12 + n) 0) ≡ fixed_bytes f extended ++ replicate n 0
unfolding write_fixed write_be16 write_be32
write_fixed-eq f extended n h =
    let twelve : 12 + n ≡ suc (suc (suc (suc (suc (suc (suc (suc (suc (suc (suc (suc n))))))))))) =
      omega arith in
    rw (twelve, first_byte extended, second_byte f.marker f.payload_type h)
      (simp byte_at-eq (ground arith))

copy_to-eq :
    (at : ℕ) (xs before : List ℕ)
    → at ≡ length before
    → copy_to at xs (before ++ replicate (length xs) 0) ≡ before ++ xs
unfolding copy_to
copy_to-eq at [] before e = refl
copy_to-eq at (x ∷ xs) before e =
    let placed : set (before ++ 0 ∷ replicate (length xs) 0) at x
        ≡ (before ++ x ∷ []) ++ replicate (length xs) 0 =
      rw (e, set-append_zero, append_assoc) refl in
    rw placed (
      copy_to-eq (at + 1) xs (before ++ x ∷ []) (omega (arith, length-append before (x ∷ [])))
      ∙ append_assoc before (x ∷ []) xs)

write_extension-eq :
    (f : HeaderFields) (h : HeaderExtension)
    → write_extension (some h) (fixed_bytes f true ++ replicate (4 + length h.payload) 0)
      ≡ fixed_bytes f true ++ extension_bytes h
unfolding write_extension write_be16
write_extension-eq f h = rw placed (copy_to-eq 16 h.payload (fixed_bytes f true ++ head) refl)
  where
    head : List ℕ
    head = bytes16 h.profile_id ++ bytes16 (length h.payload / 4 % 2 ^ 16)

    four : 4 + length h.payload ≡ suc (suc (suc (suc (length h.payload))))
    four = omega arith

    placed :
        write_be16 (u16 (length h.payload / 4)) (header_size + 2) (
          write_be16 h.profile_id header_size
            (fixed_bytes f true ++ replicate (4 + length h.payload) 0))
        ≡ (fixed_bytes f true ++ head) ++ replicate (length h.payload) 0
    placed = rw four (simp byte_at-eq (ground arith))

-- The packet that a header and its extension stand for. An empty payload means no extension.
abbrev pub packet_bytes : HeaderFields → Option HeaderExtension → List ℕ
packet_bytes f none = fixed_bytes f false
packet_bytes f (some h) = elim h.payload [
  | [] ↦ fixed_bytes f false
  | x ∷ xs ↦ fixed_bytes f true ++ extension_bytes h
]

-- A payload is laid out in words of four bytes.
abbrev pub is_aligned : Option HeaderExtension → Bool
is_aligned none = true
is_aligned (some h) = length h.payload % 4 == 0

write_header-some :
    (f : HeaderFields) (profile : ℕ) (payload old : List ℕ)
    → f.payload_type < 256
    → let h : HeaderExtension = record { profile_id = profile; payload = payload } in
      write_header f (some h) (some old)
      ≡ (if is_aligned (some h) then (true, some (packet_bytes f (some h))) else (false, some old))
unfolding write_header
write_header-some f profile [] old fits = rw (write_fixed-eq f false 0 fits)
write_header-some f profile (x ∷ xs) old fits = ground (
  arith,
  write_fixed-eq f true (4 + suc (length xs)) fits,
  write_extension-eq f (record { profile_id = profile; payload = x ∷ xs }),
)

-- What `WriteRtpHeader` returns and leaves in a packet: it refuses, and keeps the packet, if the
-- extension's payload is no whole number of words; otherwise the packet becomes the fixed part,
-- followed by the extension if its payload is not empty.
pub write_header_lem :
    (f : HeaderFields) (ext : Option HeaderExtension) (old : List ℕ)
    → f.payload_type < 256
    → write_header f ext (some old)
      ≡ (if is_aligned ext then (true, some (packet_bytes f ext)) else (false, some old))
unfolding write_header
write_header_lem f none old fits = rw (write_fixed-eq f false 0 fits)
write_header_lem f (some h) old fits = write_header-some f h.profile_id h.payload old fits
