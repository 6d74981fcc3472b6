-- ===== src/Rtp/Latency/Laws.antt =====
-- What the latency extension carries, and what the parser makes of it.
use fastvid.Common.{
  ◌^◌, ◌<◌, ◌≡◌, refl, ap, Bool, false, ◌&&◌, ◌==◌, if◌then◌else◌, Option, none, some, [], ◌∷◌,
  arith, length, drop, ◌++◌,
}
use fastvid.Rtp.{HeaderExtension, LatencyExtension, latency_profile_id, latency_word_size}
use fastvid.Rtp.Bytes.{read_be64}
use fastvid.Rtp.Bytes.Laws.{
  bytes64, read_be64-bytes64, write_be64-start, write_be64-append, read_be64-short,
}
use fastvid.Rtp.Latency.{serialize, build_header_extension, parse}

pub serialize-eq :
    (e : LatencyExtension)
    → serialize e ≡ bytes64 e.capture_timestamp_ns ++ bytes64 e.transport_send_timestamp_ns
unfolding serialize
serialize-eq e = rw write_be64-start (
    rw (write_be64-append (bytes64 e.capture_timestamp_ns) (0 ∷ 0 ∷ 0 ∷ 0 ∷ 0 ∷ 0 ∷ 0 ∷ 0 ∷ [])) (
      ap (λ t. bytes64 e.capture_timestamp_ns ++ t)
        (write_be64-start e.transport_send_timestamp_ns 0 0 0 0 0 0 0 0 [])))

-- Whatever the two timestamps are, `SerializeRtpLatencyExtension` fills sixteen bytes, from which
-- `ReadBe64` gives both back.
pub serialize_lem :
    (e : LatencyExtension)
    → e.capture_timestamp_ns < 2 ^ 64
    → e.transport_send_timestamp_ns < 2 ^ 64
    → (length (serialize e) ≡ 16)
      × (read_be64 (serialize e) ≡ some e.capture_timestamp_ns)
      × (read_be64 (drop 8 (serialize e)) ≡ some e.transport_send_timestamp_ns)
serialize_lem e fits fits' = rw serialize-eq (
  refl,
  read_be64-bytes64 e.capture_timestamp_ns _ fits,
  read_be64-bytes64 e.transport_send_timestamp_ns [] fits',
)

-- The parser refuses every extension that `BuildRtpLatencyHeaderExtension` builds, and leaves the
-- output as it was: it compares the payload's sixteen bytes with the size in words, four.
pub parse-build_header_extension :
    (e : LatencyExtension) (out : Option LatencyExtension)
    → parse (build_header_extension e) out ≡ some (false, out)
unfolding parse build_header_extension
parse-build_header_extension e none = refl
parse-build_header_extension e (some old) = rw serialize-eq refl

-- A pointer that is not null, the profile of the latency extension, and a payload of four bytes.
abbrev pub is_taken : HeaderExtension → Option LatencyExtension → Bool
is_taken h none = false
is_taken h (some old) = h.profile_id == latency_profile_id && length h.payload == latency_word_size

-- What `ParseRtpLatencyExtension` does with any input: exactly with a pointer that is not null, the
-- profile 0x5353 and a payload of four bytes, it reads past the end of the payload, which is
-- undefined behaviour, whatever it returns then; with every other input it returns false and leaves
-- the output. So no input is parsed within bounds.
pub parse_lem :
    (h : HeaderExtension) (out : Option LatencyExtension)
    → parse h out ≡ (if is_taken h out then none else some (false, out))
unfolding parse
parse_lem h none = refl
parse_lem h (some old) = ground (arith, read_be64-short h.payload)
