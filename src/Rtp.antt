-- ===== src/Rtp.antt =====
-- sclient/src/common/net/RtpProtocol.h: the constants, the structs, and the parts of the codec.
pub mod Bytes
pub mod Latency
pub mod Header
pub mod Parse
mod Tests
use fastvid.Common.{ℕ, Bool, false, List, [], ◌/◌}

-- `kRtpHeaderSize` and the other constants of the file
abbrev pub header_size : ℕ
header_size = 12

abbrev pub extension_header_size : ℕ
extension_header_size = 4

abbrev pub version : ℕ
version = 2

abbrev pub latency_profile_id : ℕ
latency_profile_id = 0x5353

abbrev pub latency_payload_size : ℕ
latency_payload_size = 16

-- `kRtpLatencyExtensionWordSize`: the payload size counted in words of 32 bits.
abbrev pub latency_word_size : ℕ
latency_word_size = latency_payload_size / 4

-- `kH264FuAtype`, which nothing in the repository uses.
abbrev h264_fu_a_type : ℕ
h264_fu_a_type = 28

-- `RtpHeaderFields`
pub record HeaderFields : Type 0 where
  pub marker : Bool
  pub payload_type : ℕ  -- uint8_t
  pub sequence_number : ℕ  -- uint16_t
  pub timestamp : ℕ  -- uint32_t
  pub ssrc : ℕ  -- uint32_t

-- Its member initialisers.
abbrev pub default_fields : HeaderFields
default_fields = record {
  marker = false;
  payload_type = 96;
  sequence_number = 0;
  timestamp = 0;
  ssrc = 0;
}

-- `RtpHeaderExtension`
pub record HeaderExtension : Type 0 where
  pub profile_id : ℕ  -- uint16_t
  pub payload : List ℕ  -- std::vector<std::uint8_t>

abbrev pub default_extension : HeaderExtension
default_extension = record { profile_id = 0; payload = [] }

-- `RtpLatencyExtension`
pub record LatencyExtension : Type 0 where
  pub capture_timestamp_ns : ℕ  -- uint64_t
  pub transport_send_timestamp_ns : ℕ  -- uint64_t
