-- ===== src/Rtp/Parse/Stamps.antt =====
-- The two time stamps on their way: SerializeRtpLatencyExtension, BuildRtpLatencyHeaderExtension,
-- WriteRtpHeader, ParseRtpHeader, and ParseRtpLatencyExtension, one after the other.
use fastvid.Common.{
  ℕ, ◌^◌, ◌<◌, ◌≡◌, ◌≢◌, refl, true, false, Option, none, some, List, ◌++◌, arith, length, drop,
}
use fastvid.Rtp.{HeaderFields, HeaderExtension, LatencyExtension, latency_profile_id}
use fastvid.Rtp.Bytes.{read_be64}
use fastvid.Rtp.Latency
use fastvid.Rtp.Latency.{build_header_extension, serialize}
use fastvid.Rtp.Latency.Laws.{serialize_lem, serialize-eq, parse-build_header_extension}
use fastvid.Rtp.Header.{write_header}
use fastvid.Rtp.Header.Written.{packet_bytes, write_header_lem}
use fastvid.Rtp.Parse.{Outputs, parse_header}
use fastvid.Rtp.Parse.RoundTrip.{IsHeader, carried, received, parse_header-write_header}

-- A payload of sixteen bytes, with the two time stamps in them.
abbrev pub IsStamped : LatencyExtension → HeaderExtension → Type 0
IsStamped e h =
    (h.profile_id ≡ latency_profile_id)
    × (length h.payload ≡ 16)
    × (read_be64 h.payload ≡ some e.capture_timestamp_ns)
    × (read_be64 (drop 8 h.payload) ≡ some e.transport_send_timestamp_ns)

built-IsStamped :
    (e : LatencyExtension)
    → e.capture_timestamp_ns < 2 ^ 64
    → e.transport_send_timestamp_ns < 2 ^ 64
    → IsStamped e (build_header_extension e)
unfolding build_header_extension
built-IsStamped e fits fits' =
    let (size, capture, send) = serialize_lem e fits fits' in (refl, size, capture, send)

carried-built :
    (e : LatencyExtension) → carried (some (build_header_extension e)) ≡ build_header_extension e
unfolding build_header_extension
carried-built e = rw serialize-eq refl

-- A packet with the two time stamps, in a vector that is not null, and any media bytes behind it:
-- `WriteRtpHeader` accepts it; `ParseRtpHeader` returns true, with an extension of sixteen bytes
-- from which `ReadBe64` gives both time stamps back; but
-- `ParseRtpLatencyExtension` refuses this extension and leaves its output, so that the stamps never
-- arrive. The fields and the stamps fit their widths, and the caller asks for fields and extension.
pub parse-parse_header :
    (f : HeaderFields) (e : LatencyExtension) (old media : List ℕ) (out : Outputs)
    (asked : HeaderExtension) (stamps : Option LatencyExtension)
    → IsHeader f
    → e.capture_timestamp_ns < 2 ^ 64
    → e.transport_send_timestamp_ns < 2 ^ 64
    → out.fields ≢ none
    → out.extension ≡ some asked
    → (packet : List ℕ) × (h : HeaderExtension) × (out' : Outputs) × (write_header f
          (some (build_header_extension e))
          (some old)
        ≡ (true, some packet))
      × (parse_header (some (packet ++ media)) (length (packet ++ media)) out ≡ some (true, out'))
      × (out'.extension ≡ some h)
      × IsStamped e h
      × (Latency.parse h stamps ≡ some (false, stamps))
parse-parse_header f e old media out asked stamps v fits fits' present asks =
    let built = built-IsStamped e fits fits' in
    let ext = build_header_extension e in
    let packet = packet_bytes f (some ext) in
    let written : write_header f (some ext) (some old) ≡ (true, some packet) =
      ground (arith, write_header_lem f (some ext) old v.payload_type_fits, built) in
    (
      packet,
      ext,
      received f (carried (some ext)) (length packet) out,
      written,
      parse_header-write_header f (some ext) old packet media out v
          (omega (arith, built), omega (arith, built)) present written,
      rw (asks, carried-built e) refl,
      built,
      parse-build_header_extension e stamps,
    )
