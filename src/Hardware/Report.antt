-- ===== src/Hardware/Report.antt =====
-- What a controller must report of a HELLO: `_diagnostic_hello_error` and
-- `_host_parser_error_snapshot` of host/src/navbench/hardware.py.
use navbench.Common.{
  ℕ, Bool, true, false, not, ◌&&◌, ◌||◌, Option, none, some, leb, ltb, ◌==◌, bit_and, if◌then◌else◌,
}
use navbench.Protocol.Value.{value}
use navbench.Protocol.Enums.{EndpointRole, HelloStatus, accepted, controller}
use navbench.Protocol.Packet.{protocol_version}
use navbench.Protocol.Payload.Types.{HelloAckPayload}
use navbench.Protocol.Stream.{ParserStats}
use navbench.Session.Types.{supported_capabilities}
use navbench.Hardware.Types.{session_timeout_ms}
use navbench.Hardware.Diagnostic.{DiagnosticStatus}

-- What `_diagnostic_hello_error` returns in place of None.
pub data HelloError : Type 0 where
  short_receive not_accepted not_one_hello short_parse not_one_response dropped pending : HelloError
  incomplete_write no_ack incompatible_ack : HelloError

abbrev pub is_accepted : HelloStatus → Bool
is_accepted accepted = true
is_accepted status = false

abbrev pub is_controller : EndpointRole → Bool
is_controller controller = true
is_controller role = false

abbrev pub is_compatible : HelloAckPayload → Bool
is_compatible ack =
    is_accepted ack.status
    && (value ack.accepted_version == protocol_version
        && (is_controller ack.role
            && (bit_and (value ack.capabilities) supported_capabilities == supported_capabilities
                && (leb 116 (value ack.max_payload)
                    && value ack.heartbeat_timeout_ms == session_timeout_ms))))

abbrev pub ack_error : Option HelloAckPayload → Option HelloError
ack_error none = some no_ack
ack_error (some ack) = if is_compatible ack then none else some incompatible_ack

-- The test of the last write that was reported.
abbrev pub is_incomplete : DiagnosticStatus → Bool
is_incomplete status =
    status.write_diagnostic_seen
    && ((not (status.last_write_requested == 0) || not (status.last_write_result == 0))
        && (status.last_write_requested == 0
            || not (status.last_write_result == status.last_write_requested)))

-- `_diagnostic_hello_error`, of the acknowledgement in the status
unfoldable pub hello_error :
    DiagnosticStatus → (minimum_rx minimum_parser_frames : ℕ) → Option HelloError
hello_error status minimum_rx minimum_parser_frames =
    if ltb status.serial_rx_bytes minimum_rx
    then some short_receive
    else if not (status.hello_result == 1) || not (status.parser_status == 0)
    then some not_accepted
    else if not (status.hello_packets == 1)
    then some not_one_hello
    else if ltb status.parser_frames_received minimum_parser_frames
    then some short_parse
    else if not (status.response_frames_created == 1)
    then some not_one_response
    else if not (status.response_frames_dropped == 0)
    then some dropped
    else if not (status.response_frames_pending == 0)
    then some pending
    else if is_incomplete status
    then some incomplete_write
    else ack_error status.hello_ack

-- `_host_parser_error_snapshot`, compared with another.
abbrev pub same_errors : ParserStats → ParserStats → Bool
same_errors s t =
    s.cobs_errors == t.cobs_errors
    && (s.crc_errors == t.crc_errors
        && (s.version_errors == t.version_errors
            && (s.type_errors == t.type_errors
                && (s.length_errors == t.length_errors
                    && (s.oversized_frames == t.oversized_frames
                        && (s.truncated_frames == t.truncated_frames
                            && s.other_errors == t.other_errors))))))

abbrev pub is_acknowledged : Option HelloAckPayload → Bool
is_acknowledged none = false
is_acknowledged (some ack) = true

abbrev pub is_none : Option HelloError → Bool
is_none none = true
is_none (some e) = false
