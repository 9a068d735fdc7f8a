-- ===== src/Session/Types.antt =====
-- The data of host/src/navbench/session.py: `SessionConfig`, `SessionStats`, `SessionEvent` and
-- the fields of `HostSession`.
use navbench.Common.{ℕ, ◌+◌, [], List, Option, none, ltb, ◌==◌, if◌then◌else◌}
use navbench.Protocol.Value.{Scalar, int, negative, boolean, other, unknown_bits}
use navbench.Protocol.Packet.{Packet}
use navbench.Protocol.Struct.{size}
use navbench.Protocol.Payload.Types.{TypedPayload}
use navbench.Protocol.Payload.Encode.{
  sensor_prefix_format, imu_format, wheel_format, gnss_format, landmark_format, route_prefix_format,
}
use navbench.Protocol.Stream.{StreamParser, new_parser}
use navbench.Protocol.Sequence.{SequenceTracker, SequenceDisposition, zero_stats}
use navbench.Session.Run.{value_error, type_error, Answer, done, failed}

-- The flags of protocol.py's `Capability`, as numbers.
abbrev pub capability_sensor_frame : ℕ
capability_sensor_frame = 1

abbrev pub capability_route_chunk : ℕ
capability_route_chunk = 2

-- SENSOR_FRAME | ROUTE_CHUNK | STATE_ESTIMATE | HEALTH_STATUS | SAFE_STOP, five different bits.
abbrev pub supported_capabilities : ℕ
supported_capabilities = 1 + 2 + 4 + 8 + 16

-- The length of the payload of any sensor frame.
abbrev pub sensor_frame_payload_size : ℕ
sensor_frame_payload_size =
    size sensor_prefix_format
    + (size imu_format + (size wheel_format + (size gnss_format + size landmark_format)))

abbrev pub route_prefix_payload_size : ℕ
route_prefix_payload_size = size route_prefix_format

pub data SessionState : Type 0 where
  disconnected hello_sent active timed_out safe_stop error closed : SessionState

pub record SessionConfig : Type 0 where
  pub timeout_ms : ℕ
  pub max_reads_per_poll : ℕ
  pub max_tx_buffer : ℕ
  pub required_capabilities : ℕ

-- The tests on `required_capabilities`.
abbrev pub check_required : Scalar → Answer ℕ
check_required (int n) =
    if unknown_bits n supported_capabilities == 0 then done n else failed value_error
check_required (negative n) = failed value_error
check_required (boolean b) = failed type_error
check_required other = failed type_error

abbrev pub with_required : ℕ → ℕ → ℕ → Answer ℕ → Answer SessionConfig
with_required timeout reads buffer (done required) = done (record {
  timeout_ms = timeout;
  max_reads_per_poll = reads;
  max_tx_buffer = buffer;
  required_capabilities = required;
})
with_required timeout reads buffer (failed e) = failed e

-- `SessionConfig.__post_init__`; a number that is negative stands with zero, which is refused too.
unfoldable pub new_config : ℕ → ℕ → ℕ → Scalar → Answer SessionConfig
new_config timeout reads buffer required =
    if timeout == 0
    then failed value_error
    else if reads == 0
    then failed value_error
    else if ltb buffer 256
    then failed value_error
    else with_required timeout reads buffer (check_required required)

pub record SessionStats : Type 0 where
  pub tx_packets : ℕ
  pub tx_bytes : ℕ
  pub rx_packets : ℕ
  pub rx_bytes : ℕ
  pub rx_rejected : ℕ
  pub rx_payload_errors : ℕ
  pub timeouts : ℕ
  pub reconnects : ℕ
  pub transport_errors : ℕ

pub record SessionEvent (F : Type 0) : Type 0 where
  pub packet : Packet
  pub payload : TypedPayload F
  pub sequence_disposition : SequenceDisposition

-- `HostSession`, over the state `T` of its transport.
pub record Session (T : Type 0) : Type 0 where
  pub transport : T
  pub config : SessionConfig
  pub state : SessionState
  pub stats : SessionStats
  pub parser : StreamParser
  pub rx_sequence : SequenceTracker
  pub tx_sequence : ℕ
  pub tx_buffer : List ℕ
  pub last_rx_ms : Option ℕ
  pub last_now_ms : Option ℕ
  pub peer_capabilities : Option ℕ
  pub negotiated_max_payload : Option ℕ
  pub negotiated_timeout_ms : Option ℕ

-- `StreamParser()` and `SequenceTracker()`, whose reorder window is 32.
abbrev pub new_session : {T : Type 0} → T → SessionConfig → Session T
new_session transport config = record {
  transport = transport;
  config = config;
  state = disconnected;
  stats = record {
    tx_packets = 0;
    tx_bytes = 0;
    rx_packets = 0;
    rx_bytes = 0;
    rx_rejected = 0;
    rx_payload_errors = 0;
    timeouts = 0;
    reconnects = 0;
    transport_errors = 0;
  };
  parser = new_parser;
  rx_sequence = record {
    reorder_window = 32;
    stats = zero_stats;
    last_sequence = none;
    last_step_id = none;
  };
  tx_sequence = 0;
  tx_buffer = [];
  last_rx_ms = none;
  last_now_ms = none;
  peer_capabilities = none;
  negotiated_max_payload = none;
  negotiated_timeout_ms = none;
}
