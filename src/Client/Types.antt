-- ===== src/Client/Types.antt =====
-- sclient/src/modules/network/types: the configuration of a client, its statistics, and a frame.
use fastvid.Common.{ℕ, ◌*◌, Bool, true, List}
use fastvid.Common.Int.{ℤ, pos, negsuc}
use fastvid.Float.{Double}
use fastvid.Text.{Text, codes}
use fastvid.Protocol.{MessageHeader, FrameDiagnosticMetaData}

-- `ClientConfig`
pub record ClientConfig (W : Type 0) : Type 0 where
  pub host : Text
  pub port : ℤ  -- int
  pub transport : Text
  pub sdp_path : Text
  pub expect_metadata : Bool
  pub udp_max_datagram_size : ℕ  -- size_t
  pub udp_receive_buffer_bytes : ℤ  -- int
  pub rtp_payload_type : ℤ  -- int
  pub rtp_clock_rate : ℤ  -- int
  pub udp_jitter_buffer_enabled : Bool
  pub udp_jitter_buffer_strategy : Text
  pub udp_jitter_buffer_target_delay_ms : ℤ  -- int
  pub udp_jitter_buffer_adaptive_max_delay_ms : ℤ  -- int
  pub udp_jitter_buffer_max_wait_ms : ℤ  -- int
  pub udp_jitter_buffer_max_frames : ℕ  -- size_t
  pub udp_jitter_buffer_min_delay_ms : ℤ  -- int
  pub udp_jitter_buffer_safety_factor : W
  pub udp_nack_enabled : Bool
  pub udp_fec_enable : Bool
  pub udp_nack_request_delay_ms : ℤ  -- int
  pub udp_nack_retry_interval_ms : ℤ  -- int
  pub udp_nack_max_retries : ℤ  -- int
  pub udp_nack_max_requests_per_packet : ℕ  -- size_t
  pub udp_test_jitter_pattern : Text
  pub udp_test_jitter_amplitude_ms : ℤ  -- int
  pub udp_test_jitter_period : ℤ  -- int
  pub udp_test_loss_pattern : Text
  pub udp_test_loss_period : ℤ  -- int
  pub udp_test_loss_count : ℤ  -- int
  pub keepalive_interval_ms : ℤ  -- int

-- Its member initialisers.
abbrev pub default_client_config : {W : Type 0} ⦃d : Double W⦄ → ClientConfig W
default_client_config ⦃d⦄ = record {
  host = codes "127.0.0.1";
  port = pos 9999;
  transport = codes "tcp";
  sdp_path = codes "";
  expect_metadata = true;
  udp_max_datagram_size = 65507;
  udp_receive_buffer_bytes = pos (4 * 1024 * 1024);
  rtp_payload_type = negsuc 0;
  rtp_clock_rate = pos 0;
  udp_jitter_buffer_enabled = true;
  udp_jitter_buffer_strategy = codes "auto";
  udp_jitter_buffer_target_delay_ms = pos 8;
  udp_jitter_buffer_adaptive_max_delay_ms = pos 120;
  udp_jitter_buffer_max_wait_ms = pos 40;
  udp_jitter_buffer_max_frames = 4;
  udp_jitter_buffer_min_delay_ms = pos 2;
  udp_jitter_buffer_safety_factor = d.decimal 15 1;
  udp_nack_enabled = true;
  udp_fec_enable = true;
  udp_nack_request_delay_ms = pos 25;
  udp_nack_retry_interval_ms = pos 20;
  udp_nack_max_retries = pos 3;
  udp_nack_max_requests_per_packet = 16;
  udp_test_jitter_pattern = codes "none";
  udp_test_jitter_amplitude_ms = pos 0;
  udp_test_jitter_period = pos 6;
  udp_test_loss_pattern = codes "none";
  udp_test_loss_period = pos 30;
  udp_test_loss_count = pos 1;
  keepalive_interval_ms = pos 500;
}

-- `UdpReceiveStats`
pub record UdpReceiveStats (W : Type 0) : Type 0 where
  pub datagrams_received : ℕ  -- uint64_t
  pub invalid_datagrams : ℕ  -- uint64_t
  pub stale_datagrams_dropped : ℕ  -- uint64_t
  pub fragments_received : ℕ  -- uint64_t
  pub duplicate_fragments : ℕ  -- uint64_t
  pub timed_out_fragments : ℕ  -- uint64_t
  pub timed_out_frames : ℕ  -- uint64_t
  pub completed_frames : ℕ  -- uint64_t
  pub reordered_frames : ℕ  -- uint64_t
  pub jitter_last_ms : W
  pub jitter_avg_ms : W
  pub jitter_max_ms : W
  pub jitter_p50_ms : W
  pub jitter_p95_ms : W
  pub jitter_sampled : ℕ  -- uint64_t
  pub jitter_buffer_active_mode : Text
  pub jitter_buffer_quality : Text
  pub jitter_buffer_current_depth : ℕ  -- size_t
  pub jitter_buffer_max_depth : ℕ  -- size_t
  pub jitter_buffer_emitted_frames : ℕ  -- uint64_t
  pub jitter_buffer_skipped_frames : ℕ  -- uint64_t
  pub jitter_buffer_dropped_frames : ℕ  -- uint64_t
  pub jitter_buffer_wait_samples : ℕ  -- uint64_t
  pub jitter_buffer_target_delay_ms : W
  pub jitter_buffer_wait_last_ms : W
  pub jitter_buffer_wait_avg_ms : W
  pub jitter_buffer_wait_max_ms : W
  pub nack_requests_sent : ℕ  -- uint64_t
  pub nack_fragments_requested : ℕ  -- uint64_t
  pub fec_fragments_received : ℕ  -- uint64_t
  pub fec_recovered_fragments : ℕ  -- uint64_t
  pub fec_recovered_frames : ℕ  -- uint64_t
  pub injected_loss_dataframs : ℕ  -- uint64_t
  pub injected_loss_fragments : ℕ  -- uint64_t

-- Its member initialisers.
abbrev pub default_udp_receive_stats : {W : Type 0} ⦃d : Double W⦄ → UdpReceiveStats W
default_udp_receive_stats ⦃d⦄ = record {
  datagrams_received = 0;
  invalid_datagrams = 0;
  stale_datagrams_dropped = 0;
  fragments_received = 0;
  duplicate_fragments = 0;
  timed_out_fragments = 0;
  timed_out_frames = 0;
  completed_frames = 0;
  reordered_frames = 0;
  jitter_last_ms = d.decimal 0 0;
  jitter_avg_ms = d.decimal 0 0;
  jitter_max_ms = d.decimal 0 0;
  jitter_p50_ms = d.decimal 0 0;
  jitter_p95_ms = d.decimal 0 0;
  jitter_sampled = 0;
  jitter_buffer_active_mode = codes "bypass";
  jitter_buffer_quality = codes "excellend";
  jitter_buffer_current_depth = 0;
  jitter_buffer_max_depth = 0;
  jitter_buffer_emitted_frames = 0;
  jitter_buffer_skipped_frames = 0;
  jitter_buffer_dropped_frames = 0;
  jitter_buffer_wait_samples = 0;
  jitter_buffer_target_delay_ms = d.decimal 0 0;
  jitter_buffer_wait_last_ms = d.decimal 0 0;
  jitter_buffer_wait_avg_ms = d.decimal 0 0;
  jitter_buffer_wait_max_ms = d.decimal 0 0;
  nack_requests_sent = 0;
  nack_fragments_requested = 0;
  fec_fragments_received = 0;
  fec_recovered_fragments = 0;
  fec_recovered_frames = 0;
  injected_loss_dataframs = 0;
  injected_loss_fragments = 0;
}

-- `ReceivedFrame`
pub record ReceivedFrame : Type 0 where
  pub header : MessageHeader
  pub meradata : FrameDiagnosticMetaData
  pub sender_metadata_available : Bool
  pub receive_timestamp_ns : ℕ  -- uint64_t
  pub payload : List ℕ  -- uint8_t
