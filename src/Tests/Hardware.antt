-- ===== src/Tests/Hardware.antt =====
-- A run of `validate_transport` (host/src/navbench/hardware.py) against a scripted controller.
use navbench.Common.{ℕ, ◌≡◌, refl, true, some, List, [], ◌∷◌}
use navbench.Protocol.Value.{int}
use navbench.Protocol.Enums.{MessageType, ControlMode, NavigationMode, RuntimeState}
use navbench.Protocol.Packet.{encode_packet}
use navbench.Protocol.Payload.Types.{TypedPayload, NisSummary}
use navbench.Protocol.Payload.Encode.{encode_typed_payload}
use navbench.Session.Run.{Answer, done}
use navbench.Hardware.Types.{HardwareConfig, HardwareValidationResult, success, complete}
use navbench.Hardware.Opening.{result_of, handshake_loop, shake_hands, State}
use navbench.Hardware.Frames.{poll_responses, frame_loop, exchange_frame, exchange_frames, exchange}
use navbench.Hardware.Validate.{validate_transport, watchdog_loop, watch}
use navbench.Protocol.Enums.{
  message_code, message_of, role_code, role_of, status_code, status_of, mode_code, mode_of,
  runtime_code, runtime_of, navigation_code, navigation_of, message_type, decode_enum, or_raise,
}
use navbench.Protocol.Value.{uint, mask, finite}
use navbench.Protocol.Struct.{pack, unpack}
use navbench.Protocol.Crc.{crc16_ccitt}
use navbench.Protocol.Cobs.{cobs_encode, cobs_decode}
use navbench.Protocol.Packet.{
  raw_packet, strip_delimiter, read_header, read_raw_packet, decode_packet,
}
use navbench.Protocol.Sequence.{
  reset_tracker, step_is_older, observe_forward, observe_behind, observe_from, uint_or_none,
  observe,
}
use navbench.Protocol.Stream.{
  reset_parser, take_frame, feed_delimiter, feed_value, feed_byte, feed_loop, feed,
}
use navbench.Protocol.Payload.Encode.{
  encode_hello, encode_hello_ack, finite_bits, encode_imu, encode_wheel, encode_gnss,
  encode_landmark, encode_sensor_prefix, encode_sensor_frame, encode_point, encode_points,
  encode_route_chunk, encode_control_command, all_finite_bits, any_negative, encode_state_estimate,
  nis_summary_fields, all_words, encode_health_status,
}
use navbench.Protocol.Payload.Decode.{
  require_payload_size, decode_hello_ack, decode_control_command, decode_state_estimate,
  decode_health_status, read_payload, decode_typed_payload, decode_packet_payload, make_packet,
}
use navbench.Session.Send.{validate_now, flush_loop, flush_tx, send}
use navbench.Session.Calls.{start, reconnect, send_sensor}
use navbench.Session.Route.{range_from, chunk_flags, route_chunk_at, send_chunks, send_route}
use navbench.Session.Poll.{
  minimum_peer_payload, acceptable, handle_session_packet, handle_packet, handle_packets,
  handle_data, read_loop, check_timeout, poll,
}
use navbench.Hardware.Responses.{consume, normal_exchange_error, safe_stop_evidence}
use navbench.Hardware.Verified.{Verified, validate_transport-Verified}
use navbench.Tests.Floats.{patterns}
use navbench.Common.{Option, none, ap}
use navbench.Hardware.Types.{port_open_failed, port_prepare}
use navbench.Hardware.Port.{PortSetup, or_port_failure, run_physical_validation}
use navbench.Hardware.Port.Closed.{Prepared, run_physical_validation-Verified}
use navbench.Common.{◌+◌, ◌-◌, ◌≢◌, sym, ◌∙◌, arith}
use navbench.Session.Run.{failed, out_of_fuel}
use navbench.Session.Pace.{IsQuiet}
use navbench.Hardware.Pacing.{Running}
use navbench.Hardware.Ends.{validate_transport_ends}
use navbench.Tests.Bench.{read_time, line}
use navbench.Tests.Bench.{packed, acknowledgement, Line, bench}

abbrev nothing : NisSummary ℕ
nothing = record { evaluated_count = int 0; gate_rejected_count = int 0; nis_sum = 0; nis_max = 0 }

abbrev command : (sequence step_id : ℕ) → List ℕ
command sequence step_id = packed MessageType.control_command sequence step_id (
    TypedPayload.control_command (record {
      steering_rad = 0;
      acceleration_mps2 = 0;
      target_speed_mps = 0;
      mode = ControlMode.tracking;
      flags = int 0;
    }))

abbrev estimate : (sequence step_id : ℕ) → List ℕ
estimate sequence step_id = packed MessageType.state_estimate sequence step_id (
    TypedPayload.state_estimate (record {
      x_m = 0;
      y_m = 0;
      heading_rad = 0;
      speed_mps = 0;
      yaw_rate_rps = 0;
      acceleration_bias_mps2 = 0;
      covariance_diagonal = 0 ∷ 0 ∷ 0 ∷ 0 ∷ 0 ∷ 0 ∷ [];
      navigation_mode = NavigationMode.gnss_aided;
      flags = int 0;
    }))

abbrev health : RuntimeState → (sequence step_id : ℕ) → List ℕ
health state sequence step_id = packed MessageType.health_status sequence step_id (
    TypedPayload.health_status (record {
      runtime_state = state;
      navigation_mode = NavigationMode.gnss_aided;
      flags = int 0;
      uptime_ms = int 0;
      last_sensor_age_ms = int 0;
      rx_frames = int 0;
      rx_crc_errors = int 0;
      rx_decode_errors = int 0;
      rx_missing = int 0;
      rx_duplicates = int 0;
      rx_out_of_order = int 0;
      rx_stale = int 0;
      queue_overflows = int 0;
      scheduler_overruns = int 0;
      max_loop_us = int 0;
      imu_yaw = nothing;
      wheel = nothing;
      gnss = nothing;
      landmark = nothing;
    }))

-- The controller's answers, the last of them behind 500 ms without a sensor frame.
abbrev answers : Line
answers = (
  (100, acknowledgement)
      ∷ (520, command 1 5)
      ∷ (520, estimate 2 5)
      ∷ (520, health RuntimeState.running 3 5)
      ∷ (840, command 4 9)
      ∷ (1200, command 5 10)
      ∷ (1400, health RuntimeState.safe_stop 6 10)
      ∷ [],
  0,
)

abbrev watching : HardwareConfig
watching = record { watchdog_check = true }

abbrev controlled : State patterns bench × Answer HardwareValidationResult
controlled = validate_transport patterns bench 20 watching answers

controlled_succeeds : (controlled.1) ≡ done (result_of success complete)
unfolding message_code message_of role_code role_of status_code status_of mode_code mode_of
    runtime_code runtime_of navigation_code navigation_of message_type uint mask finite pack unpack
    crc16_ccitt cobs_encode cobs_decode raw_packet encode_packet strip_delimiter read_header
    read_raw_packet decode_packet reset_tracker step_is_older observe_forward observe_behind
    observe_from uint_or_none observe reset_parser take_frame feed_delimiter feed_value feed_byte
    feed_loop feed encode_hello encode_hello_ack finite_bits encode_imu encode_wheel encode_gnss
    encode_landmark encode_sensor_prefix encode_sensor_frame encode_point encode_points
    encode_route_chunk encode_control_command all_finite_bits any_negative encode_state_estimate
    nis_summary_fields all_words encode_health_status encode_typed_payload require_payload_size
    decode_hello_ack decode_control_command decode_state_estimate decode_health_status read_payload
    decode_typed_payload decode_packet_payload make_packet validate_now flush_loop flush_tx send
    start reconnect send_sensor range_from chunk_flags route_chunk_at send_chunks send_route
    minimum_peer_payload acceptable handle_session_packet handle_packet handle_packets handle_data
    read_loop check_timeout poll consume normal_exchange_error safe_stop_evidence handshake_loop
    shake_hands poll_responses frame_loop exchange_frame exchange_frames exchange watchdog_loop
    watch validate_transport decode_enum or_raise
controlled_succeeds = refl

validate_transport-Verified_example : Verified patterns bench watching answers (controlled.0)
validate_transport-Verified_example =
    validate_transport-Verified patterns bench 20 watching answers (result_of success complete)
      controlled_succeeds refl

-- A port that needs no delay, and has no input to reset.
abbrev port : PortSetup bench
port = record { startup_delay_s = some 0; opened = some answers; reset_input = none }

abbrev physical : Option Line × Answer HardwareValidationResult
physical = run_physical_validation bench patterns 20 watching port

physical_succeeds : (physical.1) ≡ done (result_of success complete)
unfolding run_physical_validation
physical_succeeds =
    ap (λ a. or_port_failure (result_of port_open_failed port_prepare) a) controlled_succeeds

run_physical_validation-Verified_example :
    (t : Line) × (s : State patterns bench) × Prepared bench port t
    × Verified patterns bench watching t s
    × ((physical.0) ≡ some (s.transport))
run_physical_validation-Verified_example =
    run_physical_validation-Verified patterns bench 20 watching port (result_of success complete)
      physical_succeeds refl

-- A number of milliseconds that falls as time passes.
line-IsQuiet : (limit : ℕ) → IsQuiet line (λ t. limit - t.1)
line-IsQuiet limit = record {
  of_read = λ t u n r e. omega (arith, sym (ap (λ x. x.0.1) e) ∙ read_time t n);
  of_write = λ t u bytes r e. omega (arith, sym (ap (λ x. x.0.1) e));
}

abbrev line_running : Running bench
line_running = record {
  rounds = 3001;
  handshakes = λ d. record {
    left = λ t. d + 1 - t.1;
    quiet = line-IsQuiet (d + 1);
    look = λ t. omega arith;
    rest = λ ms t. omega arith;
    wait = λ t. omega arith;
    late = λ t e. ground arith;
  };
  frames = λ d. record {
    left = λ t. d - t.1;
    quiet = line-IsQuiet d;
    look = λ t. omega arith;
    rest = λ ms t. omega arith;
    wait = λ t. omega arith;
    late = λ t e. ground arith;
  };
  watches = λ q. record {
    left = λ t. q + 600 - t.1;
    quiet = line-IsQuiet (q + 600);
    look = λ t. omega arith;
    rest = λ ms t. omega arith;
    wait = λ t. omega arith;
    late = λ t e. ground arith;
  };
  near_handshake = λ t. omega arith;
  near_frame = λ t. omega arith;
  near_watch = λ t. omega arith;
}

validate_transport_ends_example :
    (validate_transport patterns bench 3002 watching answers).1 ≢ failed out_of_fuel
validate_transport_ends_example =
    validate_transport_ends patterns bench line_running 3002 (omega arith) watching answers
