-- ===== src/Session/Poll.antt =====
-- `HostSession.poll` of host/src/navbench/session.py: flush, reads, the handshake and timeouts.
use navbench.Common.{
  ℕ, zero, suc, ◌+◌, ◌-◌, min, max, bit_and, Bool, true, false, not, ◌&&◌, ◌||◌, Option, none, some,
  List, [], ◌∷◌, length, ltb, leb, ◌==◌, if◌then◌else◌,
}
use navbench.Protocol.Error.{Result, ok, err}
use navbench.Protocol.Value.{Scalar, Binary32, value}
use navbench.Protocol.Enums.{MessageType, EndpointRole, HelloStatus, controller, host, accepted}
use navbench.Protocol.Packet.{Packet, max_payload_size}
use navbench.Protocol.Payload.Types.{TypedPayload, HelloAckPayload}
use navbench.Protocol.Payload.Decode.{decode_packet_payload}
use navbench.Protocol.Stream.{StreamParser, ParseBatch, feed}
use navbench.Protocol.Sequence.{SequenceTracker, SequenceResult, observe}
use navbench.Transport.Interface.{ByteTransport, ReadResult, received, read_failed}
use navbench.Session.Run.{
  session_error, transport_error, Answer, done, failed, protocol_error, Run, continue_with,
  append_answer, ◌>>=◌, pure,
}
use navbench.Session.Types.{
  SessionState, Session, SessionEvent, SessionConfig, hello_sent, active, timed_out, error,
  capability_sensor_frame, capability_route_chunk, sensor_frame_payload_size,
  route_prefix_payload_size,
}
use navbench.Session.Send.{is_active, is_closed, set_state, transport_fault, validate_now, flush_tx}

abbrev pub has_bit : ℕ → ℕ → Bool
has_bit capabilities bit = not (bit_and capabilities bit == 0)

-- `_minimum_peer_payload`
unfoldable pub minimum_peer_payload : ℕ → ℕ
minimum_peer_payload required =
    let minimum =
      if has_bit required capability_sensor_frame then max 1 sensor_frame_payload_size else 1 in
    if has_bit required capability_route_chunk
    then max minimum (route_prefix_payload_size + 16)
    else minimum

abbrev pub is_hello_sent : SessionState → Bool
is_hello_sent hello_sent = true
is_hello_sent _ = false

abbrev pub is_accepted : HelloStatus → Bool
is_accepted accepted = true
is_accepted _ = false

abbrev pub is_controller : EndpointRole → Bool
is_controller controller = true
is_controller host = false

-- The condition on a HELLO_ACK. A decoded payload holds numbers, which `value` reads.
unfoldable pub acceptable : SessionState → SessionConfig → HelloAckPayload → Bool
acceptable state config p =
    let required = config.required_capabilities in
    is_hello_sent state
    && (is_accepted p.status
        && (value p.accepted_version == 1
            && (is_controller p.role
                && (bit_and (value p.capabilities) required == required
                    && (leb (minimum_peer_payload required) (value p.max_payload)
                        && (leb (value p.max_payload) max_payload_size
                            && ltb 0 (value p.heartbeat_timeout_ms)))))))

-- A payload that does not decode ends the handshake, if it is a HELLO_ACK.
abbrev pub after_error : MessageType → SessionState → SessionState
after_error MessageType.hello_ack state = error
after_error _ state = state

module _ {T : Type 0} where
  abbrev pub negotiate : HelloAckPayload → Session T → Session T
  negotiate p s = record s {
    peer_capabilities = some (value p.capabilities);
    negotiated_max_payload = some (value p.max_payload);
    negotiated_timeout_ms = some (min s.config.timeout_ms (value p.heartbeat_timeout_ms));
    state = active;
  }

  abbrev pub handle_ack : {F : Type 0} → TypedPayload F → Session T → Session T
  handle_ack (TypedPayload.hello_ack p) s =
      if acceptable s.state s.config p then negotiate p s else set_state error s
  handle_ack payload s = set_state error s

  unfoldable pub handle_session_packet :
      {F : Type 0} → MessageType → TypedPayload F → Session T → Session T
  handle_session_packet MessageType.hello_ack payload s = handle_ack payload s
  handle_session_packet _ payload s = s

  abbrev pub reject : Session T → Session T
  reject s = record s { stats = record s.stats { rx_rejected = s.stats.rx_rejected + 1 } }

  abbrev pub payload_error : MessageType → Session T → Session T
  payload_error t s = record s {
    stats = record s.stats {
      rx_payload_errors = s.stats.rx_payload_errors + 1;
      rx_rejected = s.stats.rx_rejected + 1;
    };
    state = after_error t s.state;
  }

  abbrev pub count_packet : ℕ → Session T → Session T
  count_packet now s = record s {
    stats = record s.stats { rx_packets = s.stats.rx_packets + 1 };
    last_rx_ms = some now;
  }

-- The step of a packet counts for commands and estimates only.
abbrev pub observed_step : MessageType → Scalar → Option Scalar
observed_step MessageType.control_command step_id = some step_id
observed_step MessageType.state_estimate step_id = some step_id
observed_step _ step_id = none

module _ (fl : Binary32) {T : Type 0} where
  -- A packet whose payload was decoded, or not.
  abbrev pub deliver :
      ℕ
      → Packet
      → SequenceResult
      → Result (TypedPayload fl.Float)
      → Session T
      → Session T × List (SessionEvent fl.Float)
  deliver now packet sequence (err e) s = (payload_error packet.message_type s, [])
  deliver now packet sequence (ok payload) s = (
    handle_session_packet packet.message_type payload (count_packet now s),
    record { packet = packet; payload = payload; sequence_disposition = sequence.disposition } ∷ [],
  )

  abbrev pub after_observe :
      ℕ
      → Packet
      → SequenceTracker × SequenceResult
      → Session T
      → Session T × List (SessionEvent fl.Float)
  after_observe now packet (tracker, sequence) s =
      let tracked = record s { rx_sequence = tracker } in
      if not sequence.accepted
      then (reject tracked, [])
      else deliver now packet sequence (decode_packet_payload fl packet) tracked

  abbrev pub handle_observed :
      ℕ
      → Packet
      → Result (SequenceTracker × SequenceResult)
      → Run (Session T) (List (SessionEvent fl.Float))
  handle_observed now packet (err e) s = (s, failed (protocol_error e))
  handle_observed now packet (ok observed) s =
      let (handled, events) = after_observe now packet observed s in (handled, done events)

  -- The body of the loop over a batch's packets, with the event it adds.
  unfoldable pub handle_packet : ℕ → Packet → Run (Session T) (List (SessionEvent fl.Float))
  handle_packet now packet s =
      handle_observed now packet
        (observe s.rx_sequence packet.sequence (observed_step packet.message_type packet.step_id)) s

  unfoldable pub handle_packets : ℕ → List Packet → Run (Session T) (List (SessionEvent fl.Float))
  handle_packets now [] s = (s, done [])
  handle_packets now (packet ∷ packets) s =
      continue_with (append_answer (handle_packets now packets)) (handle_packet now packet s)

  abbrev pub count_batch : ℕ → StreamParser × ParseBatch → Session T → Session T
  count_batch size (parser, batch) s = record s {
    parser = parser;
    stats = record s.stats {
      rx_bytes = s.stats.rx_bytes + size;
      rx_rejected = s.stats.rx_rejected + length batch.errors;
    };
  }

  -- The bytes of one read.
  unfoldable pub handle_data : ℕ → List ℕ → Run (Session T) (List (SessionEvent fl.Float))
  handle_data now bytes s =
      let fed = feed s.parser bytes in
      handle_packets now (fed.1.packets) (count_batch (length bytes) fed s)

module _ (fl : Binary32) (io : ByteTransport) where
  open io use {Transport, read}

  -- One round of the loop of reads.
  abbrev pub read_round :
      ℕ
      → Run (Session Transport) (List (SessionEvent fl.Float))
      → Session Transport
      → Transport × ReadResult
      → Session Transport × Answer (List (SessionEvent fl.Float))
  read_round now next s (transport, read_failed) =
      (transport_fault (record s { transport = transport }), failed transport_error)
  read_round now next s (transport, received []) = (record s { transport = transport }, done [])
  read_round now next s (transport, received (byte ∷ bytes)) =
      continue_with (append_answer next)
        (handle_data fl now (byte ∷ bytes) (record s { transport = transport }))

  unfoldable pub read_loop : ℕ → ℕ → Run (Session Transport) (List (SessionEvent fl.Float))
  read_loop zero now s = (s, done [])
  read_loop (suc reads) now s = read_round now (read_loop reads now) s (read s.transport 512)

  abbrev pub negotiated_or_raise : Option ℕ → Answer ℕ
  negotiated_or_raise none = failed session_error
  negotiated_or_raise (some timeout) = done timeout

  -- `_current_timeout_ms`
  abbrev pub current_timeout_ms : Session Transport → Answer ℕ
  current_timeout_ms s =
      if is_active s.state
      then negotiated_or_raise s.negotiated_timeout_ms
      else done s.config.timeout_ms

  abbrev pub expire : Session Transport → Session Transport
  expire s = record s {
    stats = record s.stats { timeouts = s.stats.timeouts + 1 };
    state = timed_out;
  }

  abbrev pub expire_after : (elapsed : ℕ) → Answer ℕ → Run (Session Transport) (Unit {0})
  expire_after elapsed (failed e) s = (s, failed e)
  expire_after elapsed (done timeout) s =
      if ltb timeout elapsed then (expire s, done tt) else (s, done tt)

  -- `now` is not before the time of the last packet.
  abbrev pub check_since : ℕ → Option ℕ → Run (Session Transport) (Unit {0})
  check_since now none s = (s, done tt)
  check_since now (some last) s = expire_after (now - last) (current_timeout_ms s) s

  -- The last test of `poll`.
  unfoldable pub check_timeout : ℕ → Run (Session Transport) (Unit {0})
  check_timeout now s =
      if is_hello_sent s.state || is_active s.state
      then check_since now s.last_rx_ms s
      else (s, done tt)

  abbrev pub poll_read :
      ℕ → List (SessionEvent fl.Float) → Run (Session Transport) (List (SessionEvent fl.Float))
  poll_read now events = check_timeout now >>= λ _. pure events

  abbrev pub poll_flushed : ℕ → Unit {0} → Run (Session Transport) (List (SessionEvent fl.Float))
  poll_flushed now u s = continue_with (poll_read now) (read_loop s.config.max_reads_per_poll now s)

  -- `poll` behind `_validate_now`.
  abbrev pub poll_at : ℕ → Run (Session Transport) (List (SessionEvent fl.Float))
  poll_at now s =
      if is_closed s.state then (s, done []) else continue_with (poll_flushed now) (flush_tx io s)

  unfoldable pub poll : Scalar → Run (Session Transport) (List (SessionEvent fl.Float))
  poll now_ms = validate_now now_ms >>= poll_at
