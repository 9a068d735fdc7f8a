-- ===== src/Tests/Session.antt =====
-- Runs of host/src/navbench/session.py on a scripted link, and its theorems at concrete inputs.
use navbench.Session.Types.{active, sensor_frame_payload_size}
use navbench.Common.{
  drop, ℕ, ◌≤◌, ◌≡◌, refl, false, some, List, [], ◌∷◌, ◌++◌, min, take, length, arith,
}
use navbench.Protocol.Error.{ok, invalid_value, ◌>>=◌}
use navbench.Protocol.Value.{int, uint, mask}
use navbench.Protocol.Enums.{
  MessageType, manual, message_type, message_code, message_of, accepted, controller, status_code,
  role_code, status_of, role_of, decode_enum,
}
use navbench.Protocol.Packet.{
  encode_packet, raw_packet, decode_packet, strip_delimiter, read_raw_packet, read_header,
}
use navbench.Protocol.Stream.{
  feed, feed_loop, feed_byte, feed_delimiter, feed_value, take_frame, reset_parser,
}
use navbench.Protocol.Sequence.{reset_tracker, observe, observe_from, uint_or_none}
use navbench.Protocol.Payload.Decode.{
  decode_packet_payload, decode_typed_payload, read_payload, decode_hello_ack, require_payload_size,
}
use navbench.Protocol.Cobs.{cobs_decode}
use navbench.Protocol.Struct.{unpack}
use navbench.Session.Send.{validate_now, flush_loop}
use navbench.Session.Poll.{
  read_loop, handle_data, handle_packets, handle_packet, handle_session_packet, acceptable,
  minimum_peer_payload, check_timeout,
}
use navbench.Protocol.Payload.Encode.{encode_hello}
use navbench.Protocol.Crc.{crc16_ccitt}
use navbench.Protocol.Cobs.{cobs_encode}
use navbench.Protocol.Payload.Types.{RouteWaypoint, TypedPayload}
use navbench.Protocol.Payload.Encode.{
  encode_hello_ack, encode_typed_payload, encode_route_chunk, encode_points, encode_point,
  finite_bits,
}
use navbench.Protocol.Struct.{pack}
use navbench.Protocol.Payload.Decode.{make_packet}
use navbench.Transport.Interface.{ByteTransport, WriteResult, wrote, ReadResult, received}
use navbench.Session.Run.{done, failed, protocol_error}
use navbench.Session.Types.{SessionConfig, Session, new_config, new_session, hello_sent}
use navbench.Session.Send.{flush_tx, send}
use navbench.Session.Calls.{start, fresh, host_hello}
use navbench.Session.Poll.{poll}
use navbench.Session.Route.{chunk_flags, range_from, route_chunk_at}
use navbench.Session.Flush.{Flushed, flush_tx-Flushed}
use navbench.Session.Invariant.{IsSound, is_live}
use navbench.Session.Reach.{
  Call, call_start, call_poll, call_safe_stop, call_close, step_call, run_calls,
  run_calls-new_session,
}
use navbench.Session.Stopped.{run_calls-Idle}
use navbench.Session.Order.{Sent, run_calls-Sent}
use navbench.Session.Refusal.{Sends, send-Sends}
use navbench.Session.Silence.{TimesOut, poll-IsSilent}
use navbench.Session.Handshake.{Handshake, start-Handshake, start_refused}
use navbench.Session.Chunks.{route_chunk_at-fits}
use navbench.Session.Route.{send_chunks, send_route}
use navbench.Session.Routed.{RouteSent, send_route-RouteSent}
use navbench.Tests.Floats.{patterns}

-- What was written, and what is still to be read.
abbrev Script : Type 0
Script = List ℕ × List (List ℕ)

-- At most 20 bytes are taken at a time.
abbrev script_write : Script → List ℕ → Script × WriteResult
script_write (taken, chunks) bytes =
    ((taken ++ take 20 bytes, chunks), wrote (min 20 (length bytes)))

abbrev script_read : Script → ℕ → Script × ReadResult
script_read (taken, []) max_bytes = ((taken, []), received [])
script_read (taken, chunk ∷ chunks) max_bytes = ((taken, chunks), received chunk)

abbrev script : ByteTransport
script = record { Transport = Script; write = script_write; read = script_read; close = λ t. t }

-- A link that takes everything and has nothing to read.
abbrev mute : ByteTransport
mute = record {
  Transport = List ℕ;
  write = λ taken bytes. (taken ++ bytes, wrote (length bytes));
  read = λ taken max_bytes. (taken, received []);
  close = λ taken. taken;
}

abbrev config : SessionConfig
config = record {
  timeout_ms = 500;
  max_reads_per_poll = 32;
  max_tx_buffer = 4096;
  required_capabilities = 31;
}

config_accepted : new_config 500 32 4096 (int 31) ≡ done config
unfolding new_config
config_accepted = refl

abbrev idle : Session (List ℕ)
idle = new_session [] config

-- A session that has sent its HELLO at time 100.
abbrev waiting : Session (List ℕ)
waiting = record idle {
  state = hello_sent;
  tx_sequence = 1;
  last_rx_ms = some 100;
  last_now_ms = some 100;
}

waiting-IsSound : IsSound waiting
waiting-IsSound = record {
  configured = omega arith;
  buffered = omega arith;
  numbered = omega arith;
  clocked = omega arith;
  roomy = omega arith;
  ranged = λ live. omega arith;
  agreed = λ e. absurd cc;
}

abbrev scripted : Session Script
scripted = record (new_session ([], []) config) { tx_buffer = 1 ∷ 2 ∷ 3 ∷ [] }

flush_tx-Flushed_example : Flushed script scripted (flush_tx script scripted)
flush_tx-Flushed_example = flush_tx-Flushed script scripted

abbrev stop : Call ℕ
stop = call_safe_stop manual (int 0) (int 0)

run_calls-new_session_example :
    IsSound (
      run_calls patterns mute
        (call_start (int 0) ∷ call_poll (int 5) ∷ stop ∷ call_close ∷ [])
        idle)
run_calls-new_session_example =
    run_calls-new_session patterns mute 500 32 4096 (int 31) config []
      (call_start (int 0) ∷ call_poll (int 5) ∷ stop ∷ call_close ∷ []) config_accepted

run_calls-Idle_example :
    is_live ((run_calls patterns mute (stop ∷ call_poll (int 5) ∷ []) idle).state) ≡ false
run_calls-Idle_example =
    run_calls-Idle patterns mute (stop ∷ call_poll (int 5) ∷ []) idle (tt, (tt, tt)) refl

run_calls-Sent_example :
    Sent mute waiting (run_calls patterns mute (stop ∷ call_poll (int 105) ∷ stop ∷ []) waiting)
run_calls-Sent_example =
    run_calls-Sent patterns mute (stop ∷ call_poll (int 105) ∷ stop ∷ []) waiting
      (tt, (tt, (tt, tt)))

send-Sends_example :
    Sends mute
      (make_packet patterns MessageType.hello
        (int 0)
        (int 0)
        (TypedPayload.hello (host_hello config)))
      MessageType.hello
      idle
      (send patterns mute MessageType.hello (int 0) (TypedPayload.hello (host_hello config)) idle)
send-Sends_example =
    send-Sends mute patterns MessageType.hello (int 0) (TypedPayload.hello (host_hello config)) idle

poll-IsSilent_example : TimesOut patterns mute (poll patterns mute (int 601) waiting)
poll-IsSilent_example =
    poll-IsSilent patterns mute waiting 100 601 waiting-IsSound refl refl (omega arith) (λ t. refl)
      (omega arith)

start-Handshake_example : Handshake patterns mute 500 [] (start patterns mute (int 7) idle)
start-Handshake_example =
    start-Handshake patterns mute 7 idle refl (omega arith) (omega arith) (omega arith) tt

abbrev slow : Session (List ℕ)
slow = new_session [] (record config { timeout_ms = 70000 })

start_refused_example :
    start patterns mute (int 7) slow
    ≡ (fresh 7 (record slow { last_now_ms = some 7 }), failed (protocol_error invalid_value))
start_refused_example = start_refused patterns mute 7 slow refl (omega arith) tt

abbrev waypoint : ℕ → RouteWaypoint ℕ
waypoint x = record { x_m = x; y_m = 0; target_speed_mps = 0; acceptance_radius_m = 1 }

abbrev route : List (RouteWaypoint ℕ)
route = waypoint 1 ∷ waypoint 2 ∷ waypoint 3 ∷ []

-- An active session whose chunks have two points at most.
abbrev navigating : Session (List ℕ)
navigating = record waiting {
  state = active;
  peer_capabilities = some 31;
  negotiated_max_payload = some 40;
  negotiated_timeout_ms = some 300;
}

route_returns : (send_route patterns mute (int 1) route (int 0) false navigating).1 ≡ done tt
unfolding message_of message_code message_type uint mask pack crc16_ccitt cobs_encode raw_packet
    encode_packet finite_bits encode_point encode_points encode_route_chunk encode_typed_payload
    make_packet flush_loop flush_tx send range_from chunk_flags route_chunk_at send_chunks
    send_route
route_returns = refl

send_route-RouteSent_example :
    RouteSent patterns mute
      (int 1)
      3
      0
      route
      navigating
      ((send_route patterns mute (int 1) route (int 0) false navigating).0)
send_route-RouteSent_example =
    send_route-RouteSent patterns mute (int 1) route (int 0) false navigating route_returns

abbrev chunk_bytes : List ℕ
chunk_bytes =
    1 ∷ 0 ∷ 0 ∷ 0 ∷ 3 ∷ 0 ∷ 2 ∷ 1 ∷ 1 ∷ 0 ∷ 0 ∷ 0 ∷ 0 ∷ 0 ∷ 0 ∷ 0 ∷ 0 ∷ 0 ∷ 0 ∷ 0 ∷ 1 ∷ 0 ∷ 0 ∷ 0
    ∷ 2 ∷ 0 ∷ 0 ∷ 0 ∷ 0 ∷ 0 ∷ 0 ∷ 0 ∷ 0 ∷ 0 ∷ 0 ∷ 0 ∷ 1 ∷ 0 ∷ 0 ∷ 0 ∷ []

first_chunk :
    encode_typed_payload patterns MessageType.route_chunk
      (route_chunk_at patterns (int 1) route false 2 0)
    ≡ ok chunk_bytes
unfolding encode_typed_payload encode_route_chunk encode_points encode_point pack uint mask
    finite_bits route_chunk_at chunk_flags
first_chunk = refl

route_chunk_at-fits_example : 40 ≤ 40
route_chunk_at-fits_example =
    route_chunk_at-fits patterns (int 1) route false 40 0 chunk_bytes (omega arith) first_chunk

-- A HELLO_ACK with all capabilities, the payload limit 128 and the timeout 300.
abbrev ack_frame : List ℕ
ack_frame =
    4 ∷ 1 ∷ 2 ∷ 12 ∷ 1 ∷ 1 ∷ 1 ∷ 1 ∷ 1 ∷ 1 ∷ 1 ∷ 1 ∷ 2 ∷ 1 ∷ 2 ∷ 2 ∷ 2 ∷ 31 ∷ 1 ∷ 1 ∷ 2 ∷ 128 ∷ 5
    ∷ 44 ∷ 1 ∷ 102 ∷ 92 ∷ 0 ∷ []

ack_encodes :
    (encode_hello_ack (record {
      accepted_version = int 1;
      status = accepted;
      role = controller;
      capabilities = int 31;
      max_payload = int 128;
      heartbeat_timeout_ms = int 300;
    })
      >>= λ payload. encode_packet (record {
        message_type = MessageType.hello_ack;
        sequence = int 0;
        step_id = int 0;
        payload = payload;
      }))
    ≡ ok ack_frame
unfolding encode_packet message_type message_code message_of uint pack crc16_ccitt cobs_encode
    encode_hello_ack status_code role_code
ack_encodes = refl

-- The handshake, with the acknowledgement in two pieces.
acknowledged :
    (run_calls patterns script
      (call_start (int 0) ∷ call_poll (int 5) ∷ [])
      (new_session ([], take 9 ack_frame ∷ drop 9 ack_frame ∷ []) config)).state
    ≡ active
unfolding run_calls step_call start validate_now send make_packet encode_typed_payload encode_hello
    encode_packet raw_packet message_type message_code message_of uint pack crc16_ccitt cobs_encode
    role_code flush_tx flush_loop poll read_loop handle_data feed feed_loop feed_byte feed_delimiter
    feed_value take_frame reset_parser reset_tracker handle_packets handle_packet observe
    observe_from uint_or_none decode_packet_payload decode_typed_payload read_payload
    decode_hello_ack require_payload_size decode_enum cobs_decode unpack decode_packet
    strip_delimiter read_raw_packet read_header handle_session_packet acceptable
    minimum_peer_payload check_timeout status_of role_of encode_hello_ack status_code
acknowledged = refl

-- A prefix of 4 bytes, and samples of 16, 12, 16 and 28.
stationary_size : sensor_frame_payload_size ≡ 76
stationary_size = refl
