-- ===== src/Rtp/Latency.antt =====
-- The latency extension of RtpProtocol.h: SerializeRtpLatencyExtension,
-- BuildRtpLatencyHeaderExtension and ParseRtpLatencyExtension.
pub mod Laws
use fastvid.Common.{
  ℕ, ◌+◌, Bool, true, false, not, ◌||◌, Option, none, some, List, length, drop, replicate, ◌==◌,
  if◌then◌else◌,
}
use fastvid.Rtp.{
  HeaderExtension, LatencyExtension, latency_profile_id, latency_payload_size, latency_word_size,
  default_extension,
}
use fastvid.Rtp.Bytes.{read_be64, write_be64}

-- `std::array<std::uint8_t, 16> payload {}` is all zero before the two writes.
pub serialize : LatencyExtension → List ℕ
serialize e =
    write_be64 e.transport_send_timestamp_ns 8
      (write_be64 e.capture_timestamp_ns 0 (replicate latency_payload_size 0))

unfoldable pub build_header_extension : LatencyExtension → HeaderExtension
build_header_extension e = record default_extension {
  profile_id = latency_profile_id;
  payload = serialize e;
}

infixl 5 ◌>>=◌
abbrev ◌>>=◌ {ℓ κ} : {A : Type ℓ} {B : Type κ} → Option A → (A → Option B) → Option B
none >>= k = none
some x >>= k = k x

-- The return value, and what `extension` points to afterwards (`none` is the null pointer). The
-- outer `none` is a read past the end of the payload: undefined behaviour, whatever the code returns.
abbrev pub Reply : Type 0
Reply = Option (Bool × Option LatencyExtension)

-- The two reads and the return of true, where the reads are inside the payload.
read_timestamps : List ℕ → Reply
read_timestamps payload = do
  capture ← read_be64 payload
  send ← read_be64 (drop 8 payload)
  some (true, some (record { capture_timestamp_ns = capture; transport_send_timestamp_ns = send }))

pub parse : HeaderExtension → Option LatencyExtension → Reply
unfolding read_timestamps
parse h none = some (false, none)
parse h (some old) =
    if not (h.profile_id == latency_profile_id) || not (length h.payload == latency_word_size)
    then some (false, some old)
    else read_timestamps h.payload
