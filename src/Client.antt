-- ===== src/Client.antt =====
-- sclient/src/modules/network/StreamClient.h: the members of a client, the state of the frames that
-- it assembles, and what its constructor makes.
pub mod Types
mod Laws
mod Lifetime
use fastvid.Common.{ℕ, Bool, true, false, List, []}
use fastvid.Common.Int.{ℤ, pos, negsuc}
use fastvid.Float.{Double}
use fastvid.Protocol.{MessageHeader, FrameDiagnosticMetaData}
use fastvid.Jitter.{Quality, JitterBuffer}
use fastvid.Jitter.Buffer
use Types.{
  ClientConfig, default_client_config, UdpReceiveStats, default_udp_receive_stats, ReceivedFrame,
}

-- `UdpFrameAssembly`
pub record UdpFrameAssembly : Type 0 where
  pub header : MessageHeader
  pub metadata : FrameDiagnosticMetaData
  pub payload : List ℕ  -- uint8_t
  pub received_fragments : List Bool
  pub fragment_offsets : List ℕ  -- uint32_t
  pub fragment_payload_sizes : List ℕ  -- uint32_t
  pub received_fragment_count : ℕ  -- size_t
  pub fec_payload : List ℕ  -- uint8_t
  pub has_fec_payload : Bool
  pub fec_payload_timestamp_ns : ℕ  -- uint64_t
  pub first_seen_timestamp_ns : ℕ  -- uint64_t
  pub last_fragment_timestamp_ns : ℕ  -- uint64_t
  pub last_nack_timestamp_ns : ℕ  -- uint64_t
  pub nack_attempts : ℤ  -- int

-- Its member initialisers. The header and the metadata have none: what is in the memory is a parameter.
abbrev default_udp_assembly : MessageHeader → FrameDiagnosticMetaData → UdpFrameAssembly
default_udp_assembly header metadata = record {
  header = header;
  metadata = metadata;
  payload = [];
  received_fragments = [];
  fragment_offsets = [];
  fragment_payload_sizes = [];
  received_fragment_count = 0;
  fec_payload = [];
  has_fec_payload = false;
  fec_payload_timestamp_ns = 0;
  first_seen_timestamp_ns = 0;
  last_fragment_timestamp_ns = 0;
  last_nack_timestamp_ns = 0;
  nack_attempts = pos 0;
}

-- `BufferedUdpFrame`
pub record BufferedUdpFrame : Type 0 where
  pub frame : ReceivedFrame
  pub buffered_timestamp_ns : ℕ  -- uint64_t

-- `RtpFrameAssembly`
pub record RtpFrameAssembly : Type 0 where
  pub payload : List ℕ  -- uint8_t
  pub timestamp : ℕ  -- uint32_t
  pub ssrc : ℕ  -- uint32_t
  pub next_sequence_number : ℕ  -- uint16_t
  pub capture_timestamp_ns : ℕ  -- uint64_t
  pub transport_send_timestamp : ℕ  -- uint64_t
  pub active : Bool
  pub has_sequence_number : Bool
  pub sender_metadata_available : Bool
  pub sender_metadata_invalid : Bool
  pub frame_damaged : Bool
  pub fu_in_progress : Bool

-- Its member initialisers.
abbrev pub default_rtp_assembly : RtpFrameAssembly
default_rtp_assembly = record {
  payload = [];
  timestamp = 0;
  ssrc = 0;
  next_sequence_number = 0;
  capture_timestamp_ns = 0;
  transport_send_timestamp = 0;
  active = false;
  has_sequence_number = false;
  sender_metadata_available = false;
  sender_metadata_invalid = false;
  frame_damaged = false;
  fu_in_progress = false;
}

-- The data members of `StreamClient`; its thread and its mutexes carry no data. A `std::map` is a
-- list of keys with their values, and the set of sequences a list.
pub record StreamClient (W : Type 0) : Type 0 where
  pub config : ClientConfig W
  pub socket_fd : ℤ  -- int
  pub running : Bool
  pub udp_receive_stats : UdpReceiveStats W
  pub udp_receive_stats_snapshot : UdpReceiveStats W
  pub udp_datagram_buffer : List ℕ
  pub rtp_datagram_buffer : List ℕ
  pub udp_assemblies : List (ℕ × UdpFrameAssembly)
  pub udp_jitter_buffer : List (ℕ × BufferedUdpFrame)
  pub rtp_completed_frame_sequence : RtpFrameAssembly
  pub last_completed_frame_sequence : ℕ  -- uint64_t
  pub has_last_completed_frame_sequence : Bool
  pub next_jitter_buffer_sequence : ℕ  -- uint64_t
  pub has_next_jitter_buffer_sequence : Bool
  pub udp_test_dropped_fragments : List (ℕ × List Bool)
  pub recently_completed_udp_sequence_order : List ℕ  -- uint64_t
  pub recently_completed_udp_sequence : List ℕ  -- uint64_t
  pub previous_network_latency_ms : W
  pub has_previous_network_latency : Bool
  pub adaptive_jitter : JitterBuffer W

-- The constructor. What the jitter buffer's constructor leaves unset is a parameter.
unfoldable pub create_client : {W : Type 0} ⦃d : Double W⦄ → Quality → StreamClient W
create_client ⦃d⦄ garbage = record {
  config = default_client_config;
  socket_fd = negsuc 0;
  running = false;
  udp_receive_stats = default_udp_receive_stats;
  udp_receive_stats_snapshot = default_udp_receive_stats;
  udp_datagram_buffer = [];
  rtp_datagram_buffer = [];
  udp_assemblies = [];
  udp_jitter_buffer = [];
  rtp_completed_frame_sequence = default_rtp_assembly;
  last_completed_frame_sequence = 0;
  has_last_completed_frame_sequence = false;
  next_jitter_buffer_sequence = 0;
  has_next_jitter_buffer_sequence = false;
  udp_test_dropped_fragments = [];
  recently_completed_udp_sequence_order = [];
  recently_completed_udp_sequence = [];
  previous_network_latency_ms = d.decimal 0 0;
  has_previous_network_latency = false;
  adaptive_jitter = Buffer.create garbage;
}
