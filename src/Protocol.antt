-- ===== src/Protocol.antt =====
-- sclient/src/common/protocol/Protocol.h: the messages between client and server.
mod Recognition
use fastvid.Common.{ℕ, Bool, true, false, List, [], ◌∷◌, ◌&&◌, ◌==◌, ◌<◌}

-- `MessageType`
pub data MessageType : Type 0 where
  keep_alive av_stream udp_nack : MessageType

abbrev pub message_type_code : MessageType → ℕ
message_type_code keep_alive = 0
message_type_code av_stream = 1
message_type_code udp_nack = 2

-- `UdpFragmentRole`
pub data UdpFragmentRole : Type 0 where
  payload_data xor_parity : UdpFragmentRole

abbrev pub fragment_role_code : UdpFragmentRole → ℕ
fragment_role_code payload_data = 0
fragment_role_code xor_parity = 1

-- A `char[4]`.
pub record Magic : Type 0 where
  pub c0 : ℕ
  pub c1 : ℕ
  pub c2 : ℕ
  pub c3 : ℕ

-- `kMessageMagic`
abbrev pub message_magic : Magic
message_magic = record { c0 = b'C'; c1 = b'C'; c2 = b'T'; c3 = b'C' }

pub record MessageHeader : Type 0 where
  pub head_id : Magic
  pub message_type : ℕ  -- uint16_t
  pub sub_type : ℕ  -- uint16_t
  pub payload_length : ℕ  -- uint32_t

-- The time stamps are uint64_t.
pub record FrameDiagnosticMetaData : Type 0 where
  pub sequence : ℕ
  pub capture_timestamp_ns : ℕ
  pub encode_start_timestamp_ns : ℕ
  pub encode_end_timestamp_ns : ℕ
  pub transport_send_timestamp_ns : ℕ

pub record UdpFrameFragmentHeader : Type 0 where
  pub frame_sequence : ℕ  -- uint64_t
  pub capture_timestamp_ns : ℕ  -- uint64_t
  pub encode_start_timestamp_ns : ℕ  -- uint64_t
  pub encode_end_timestamp_ns : ℕ  -- uint64_t
  pub transport_send_timestamp_ns : ℕ  -- uint64_t
  pub frame_payload_size : ℕ  -- uint32_t
  pub fragment_offset : ℕ  -- uint32_t
  pub fragmend_index : ℕ  -- uint16_t
  pub fragment_count : ℕ  -- uint16_t
  pub fragment_role : ℕ  -- uint16_t
  pub reserved : ℕ  -- uint16_t

-- The jitter figures are doubles, copied as they are in memory.
pub record UdpReceiverReport (W : Type 0) : Type 0 where
  pub report_timestamp_ns : ℕ  -- this and the next nine, uint64_t
  pub datagrams_received : ℕ
  pub invalid_datagrams : ℕ
  pub fragments_received : ℕ
  pub duplicate_fragments : ℕ
  pub timed_out_fragments : ℕ
  pub timed_out_frames : ℕ
  pub completed_frames : ℕ
  pub reordered_frames : ℕ
  pub jitter_samples : ℕ
  pub jitter_last_ms : W
  pub jitter_avg_ms : W
  pub jitter_max_ms : W

pub record UdpNackHeader : Type 0 where
  pub request_timestamp_ns : ℕ  -- uint64_t
  pub request_count : ℕ  -- uint16_t
  pub reserved : ℕ  -- uint16_t

pub record UdpNackItem : Type 0 where
  pub frame_sequence : ℕ  -- uint64_t
  pub fragment_index : ℕ  -- uint16_t
  pub reserved : ℕ  -- uint16_t

-- `FillMessageMagic`: what it leaves in the buffer.
unfoldable pub fill_message_magic : Magic → Magic
fill_message_magic buffer = message_magic

-- `memcmp` of four bytes with the magic.
unfoldable pub has_valid_message_magic : MessageHeader → Bool
has_valid_message_magic h =
    h.head_id.c0 == message_magic.c0
    && (h.head_id.c1 == message_magic.c1
        && (h.head_id.c2 == message_magic.c2 && h.head_id.c3 == message_magic.c3))
