-- ===== src/Session/Send.antt =====
-- The sending half of `HostSession` (host/src/navbench/session.py): the transmit buffer, `_send`,
-- the handshake's start and the methods that send a typed payload.
use navbench.Common.{
  ℕ, zero, suc, ◌+◌, ◌%◌, ◌^◌, Bool, true, false, not, ◌&&◌, Option, none, some, List, ◌++◌, length,
  drop, ltb, ◌==◌, if◌then◌else◌,
}
use navbench.Protocol.Error.{Result, ok, err}
use navbench.Protocol.Value.{Scalar, int, negative, boolean, other, Binary32}
use navbench.Protocol.Enums.{MessageType}
use navbench.Protocol.Packet.{Packet, encode_packet, is_empty}
use navbench.Protocol.Payload.Types.{TypedPayload}
use navbench.Protocol.Payload.Decode.{make_packet}
use navbench.Transport.Interface.{ByteTransport, WriteResult, wrote, wrote_negative, write_failed}
use navbench.Session.Run.{
  session_error, transport_error, value_error, type_error, out_of_fuel, protocol_error, Answer,
  done, failed, Run,
}
use navbench.Session.Types.{SessionState, Session, SessionStats, active, error, closed}

abbrev pub is_active : SessionState → Bool
is_active active = true
is_active _ = false

abbrev pub is_closed : SessionState → Bool
is_closed closed = true
is_closed _ = false

module _ {T : Type 0} where
  abbrev pub set_state : SessionState → Session T → Session T
  set_state state s = record s { state = state }

  abbrev pub set_stats : SessionStats → Session T → Session T
  set_stats stats s = record s { stats = stats }

  -- A TransportError is counted, and puts the session into its error state.
  abbrev pub transport_fault : Session T → Session T
  transport_fault s = record s {
    stats = record s.stats { transport_errors = s.stats.transport_errors + 1 };
    state = error;
  }

  -- `_validate_now` from the comparison with the last time on.
  abbrev pub validate_number : ℕ → Option ℕ → Run (Session T) ℕ
  validate_number now none s = (record s { last_now_ms = some now }, done now)
  validate_number now (some last) s =
      if ltb now last
      then (s, failed value_error)
      else (record s { last_now_ms = some now }, done now)

  unfoldable pub validate_now : Scalar → Run (Session T) ℕ
  validate_now (int now) s = validate_number now s.last_now_ms s
  validate_now (negative n) s = (s, failed value_error)
  validate_now (boolean b) s = (s, failed type_error)
  validate_now other s = (s, failed type_error)

  -- `self._require_active()`, and the rest of the method.
  abbrev pub when_active : Run (Session T) (Unit {0}) → Run (Session T) (Unit {0})
  when_active next s = if is_active s.state then next s else (s, failed session_error)

-- `self._negotiated_max_payload is not None and length > self._negotiated_max_payload`
abbrev pub above_limit : ℕ → Option ℕ → Bool
above_limit size none = false
above_limit size (some limit) = ltb limit size

abbrev pub is_hello : MessageType → Bool
is_hello MessageType.hello = true
is_hello _ = false

module _ (io : ByteTransport) where
  open io use {Transport, write}

  -- One round of `_flush_tx`, after the call of `write`.
  abbrev pub flush_round :
      Run (Session Transport) (Unit {0})
      → Session Transport
      → Transport × WriteResult
      → Session Transport × Answer (Unit {0})
  flush_round next s (transport, write_failed) =
      (transport_fault (record s { transport = transport }), failed transport_error)
  flush_round next s (transport, wrote_negative) =
      (record s { transport = transport; state = error }, failed session_error)
  flush_round next s (transport, wrote written) =
      if ltb (length s.tx_buffer) written
      then (record s { transport = transport; state = error }, failed session_error)
      else if written == 0
      then (record s { transport = transport }, done tt)
      else next (record s {
        transport = transport;
        tx_buffer = drop written s.tx_buffer;
        stats = record s.stats { tx_bytes = s.stats.tx_bytes + written };
      })

  -- Each round that is not the last one writes a byte at least.
  unfoldable pub flush_loop : ℕ → Run (Session Transport) (Unit {0})
  flush_loop zero s = (s, failed out_of_fuel)
  flush_loop (suc fuel) s =
      if is_empty s.tx_buffer
      then (s, done tt)
      else flush_round (flush_loop fuel) s (write s.transport s.tx_buffer)

  unfoldable pub flush_tx : Run (Session Transport) (Unit {0})
  flush_tx s = flush_loop (suc (length s.tx_buffer)) s

  -- The frame joins the buffer, and takes the sequence number.
  abbrev pub enqueue : List ℕ → Session Transport → Session Transport
  enqueue frame s = record s {
    tx_buffer = s.tx_buffer ++ frame;
    tx_sequence = (s.tx_sequence + 1) % 2 ^ 32;
    stats = record s.stats { tx_packets = s.stats.tx_packets + 1 };
  }

  -- `_send` from the call of `encode_packet` on.
  abbrev pub send_frame : Result (List ℕ) → Run (Session Transport) (Unit {0})
  send_frame (err e) s = (s, failed (protocol_error e))
  send_frame (ok frame) s =
      if ltb s.config.max_tx_buffer (length s.tx_buffer + length frame)
      then (s, failed session_error)
      else flush_tx (enqueue frame s)

  -- `_send` behind `make_packet`.
  abbrev pub send_packet : MessageType → Result Packet → Run (Session Transport) (Unit {0})
  send_packet t (err e) s = (s, failed (protocol_error e))
  send_packet t (ok packet) s =
      if not (is_hello t) && above_limit (length packet.payload) s.negotiated_max_payload
      then (s, failed session_error)
      else send_frame (encode_packet packet) s

module _ (fl : Binary32) (io : ByteTransport) where
  open io use {Transport}

  unfoldable pub send :
      MessageType → Scalar → TypedPayload fl.Float → Run (Session Transport) (Unit {0})
  send t step_id payload s =
      send_packet io t (make_packet fl t (int s.tx_sequence) step_id payload) s
