-- ===== src/Session/Calls.antt =====
-- The methods of `HostSession` (host/src/navbench/session.py) that start, send and close, but for
-- the route's.
use navbench.Common.{ℕ, ◌+◌, Bool, true, false, if◌then◌else◌, not, none, some, []}
use navbench.Protocol.Value.{Scalar, int, Binary32}
use navbench.Protocol.Enums.{MessageType, RuntimeState, SafeStopReason, host}
use navbench.Protocol.Packet.{protocol_version, max_payload_size}
use navbench.Protocol.Payload.Types.{TypedPayload, HelloPayload, SensorFramePayload}
use navbench.Protocol.Stream.{reset_parser}
use navbench.Protocol.Sequence.{reset_tracker}
use navbench.Transport.Interface.{ByteTransport}
use navbench.Session.Run.{session_error, done, failed, Run, ◌>>=◌, modify}
use navbench.Session.Types.{
  SessionState, Session, hello_sent, closed, error, SessionConfig, supported_capabilities,
}
use navbench.Session.Send.{is_closed, set_state, validate_now, when_active, send}

-- The defaults of `HelloPayload` are both versions and the largest payload.
abbrev pub host_hello : SessionConfig → HelloPayload
host_hello config = record {
  role = host;
  min_version = int protocol_version;
  max_version = int protocol_version;
  capabilities = int supported_capabilities;
  max_payload = int max_payload_size;
  heartbeat_timeout_ms = int config.timeout_ms;
}

abbrev pub can_stop : SessionState → Bool
can_stop closed = false
can_stop error = false
can_stop _ = true

module _ {T : Type 0} where
  -- What `start` clears before it sends.
  abbrev pub fresh : ℕ → Session T → Session T
  fresh now s = record s {
    parser = reset_parser false s.parser;
    rx_sequence = reset_tracker false s.rx_sequence;
    tx_buffer = [];
    tx_sequence = 0;
    last_rx_ms = some now;
    peer_capabilities = none;
    negotiated_max_payload = none;
    negotiated_timeout_ms = none;
  }

  abbrev pub count_reconnect : Session T → Session T
  count_reconnect s = record s {
    stats = record s.stats { reconnects = s.stats.reconnects + 1 };
    tx_buffer = [];
  }

  abbrev pub set_state_after : SessionState → Unit {0} → Run (Session T) (Unit {0})
  set_state_after state u s = (set_state state s, done tt)

module _ (fl : Binary32) (io : ByteTransport) where
  open io use {Transport}

  -- `start` behind `_validate_now`.
  abbrev pub start_at : ℕ → Run (Session Transport) (Unit {0})
  start_at now s =
      if is_closed s.state
      then (s, failed session_error)
      else (send fl io MessageType.hello (int 0) (TypedPayload.hello (host_hello s.config))
            >>= set_state_after hello_sent)
          (fresh now s)

  unfoldable pub start : Scalar → Run (Session Transport) (Unit {0})
  start now_ms = validate_now now_ms >>= start_at

  unfoldable pub reconnect : Scalar → Run (Session Transport) (Unit {0})
  reconnect now_ms s =
      if is_closed s.state then (s, failed session_error) else start now_ms (count_reconnect s)

  unfoldable pub send_sensor :
      Scalar → SensorFramePayload fl.Float → Run (Session Transport) (Unit {0})
  send_sensor step_id payload =
      when_active (send fl io MessageType.sensor_frame step_id (TypedPayload.sensor_frame payload))

  unfoldable pub send_heartbeat :
      (step_id uptime_ms monotonic_ms : Scalar) → RuntimeState → Run (Session Transport) (Unit {0})
  send_heartbeat step_id uptime_ms monotonic_ms runtime_state = when_active (
      send fl io MessageType.heartbeat step_id (
        TypedPayload.heartbeat (record {
          uptime_ms = uptime_ms;
          monotonic_ms = monotonic_ms;
          runtime_state = runtime_state;
        })))

  abbrev pub stop_payload : SafeStopReason → Scalar → TypedPayload fl.Float
  stop_payload reason detail =
      TypedPayload.safe_stop (record { reason = reason; latch = true; detail = detail })

  unfoldable pub request_safe_stop :
      SafeStopReason → (detail step_id : Scalar) → Run (Session Transport) (Unit {0})
  request_safe_stop reason detail step_id s =
      if not (can_stop s.state)
      then (s, failed session_error)
      else (send fl io MessageType.safe_stop step_id (stop_payload reason detail)
            >>= set_state_after SessionState.safe_stop)
          s

module _ (io : ByteTransport) where
  unfoldable pub close_session : Run (Session io.Transport) (Unit {0})
  close_session =
      modify (λ s. record s { transport = io.close s.transport; tx_buffer = []; state = closed })
