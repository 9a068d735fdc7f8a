-- ===== src/Session/Keeps.antt =====
-- Properties that the methods of `HostSession` (host/src/navbench/session.py) keep, from what the
-- single changes to its fields keep.
use navbench.Common.{
  ℕ, ◌+◌, ◌≡◌, refl, Bool, false, not, Option, none, some, List, [], ◌∷◌, length, ltb, ◌==◌,
}
use navbench.Protocol.Error.{Result, ok, err, ◌>>=◌}
use navbench.Protocol.Payload.Encode.{encode_typed_payload}
use navbench.Protocol.Value.{Scalar, int, Binary32}
use navbench.Protocol.Enums.{MessageType, RuntimeState, SafeStopReason}
use navbench.Protocol.Packet.{Packet, encode_packet}
use navbench.Protocol.Payload.Types.{TypedPayload, SensorFramePayload, RouteWaypoint}
use navbench.Protocol.Payload.Decode.{make_packet}
use navbench.Transport.Interface.{ByteTransport}
use navbench.Session.Run.{after_bind, after_test, after_if}
use navbench.Session.Types.{SessionState, Session}
use navbench.Session.Send.{is_active, set_state, enqueue, send_frame, send_packet, send}
use navbench.Session.Calls.{
  can_stop, send_sensor, send_heartbeat, request_safe_stop, set_state_after, stop_payload,
}
use navbench.Session.Route.{send_chunks, send_limited, send_route, chunk_capacity}
use navbench.Session.Flush.{IsFlushStable, flush_tx-keeps}

module _ (io : ByteTransport) where
  open io use {Transport}

  -- The changes that a method which sends can make.
  pub record IsSendStable (P : Session Transport → Type 0) : Type 0 where
    pub of_flush : IsFlushStable io P
    pub of_enqueue :
        (s : Session Transport) (packet : Packet) (frame : List ℕ)
        → packet.sequence ≡ int s.tx_sequence
        → encode_packet packet ≡ ok frame
        → ltb s.config.max_tx_buffer (length s.tx_buffer + length frame) ≡ false
        → P s
        → P (enqueue io frame s)

-- The packet that is made has the number that was given.
made_sequence :
    (t : MessageType) (sequence step_id : Scalar) (encoded : Result (List ℕ)) (packet : Packet)
    → (encoded >>= λ bytes.
        ok (record { message_type = t; sequence = sequence; step_id = step_id; payload = bytes }))
      ≡ ok packet
    → packet.sequence ≡ sequence
made_sequence t sequence step_id (ok bytes) packet h = cc
made_sequence t sequence step_id (err e) packet h = absurd cc

pub make_packet-sequence :
    (fl : Binary32) (t : MessageType) (sequence step_id : Scalar) (payload : TypedPayload fl.Float)
    (packet : Packet)
    → make_packet fl t sequence step_id payload ≡ ok packet
    → packet.sequence ≡ sequence
unfolding make_packet
make_packet-sequence fl t sequence step_id payload packet h =
    made_sequence t sequence step_id (encode_typed_payload fl t payload) packet h

module _ (fl : Binary32) (io : ByteTransport) (P : Session (io.Transport) → Type 0)
    (stable : IsSendStable io P) where
  open io use {Transport}
  open stable use {of_flush, of_enqueue}

  send_frame-keeps :
      (packet : Packet) (encoded : Result (List ℕ)) (s : Session Transport)
      → packet.sequence ≡ int s.tx_sequence
      → encode_packet packet ≡ encoded
      → P s
      → P ((send_frame io encoded s).0)
  send_frame-keeps packet (err e) s n f h = h
  send_frame-keeps packet (ok frame) s n f h =
      after_test P (ltb s.config.max_tx_buffer (length s.tx_buffer + length frame)) _ _ (λ t. h)
        (λ fits.
          flush_tx-keeps io P of_flush (enqueue io frame s) (of_enqueue s packet frame n f fits h))

  send_packet-keeps :
      (t : MessageType) (made : Result Packet) (s : Session Transport)
      → ((packet : Packet) → made ≡ ok packet → packet.sequence ≡ int s.tx_sequence)
      → P s
      → P ((send_packet io t made s).0)
  send_packet-keeps t (err e) s n h = h
  send_packet-keeps t (ok packet) s n h =
      after_test P _ _ _ (λ t. h)
        (λ t. send_frame-keeps packet (encode_packet packet) s (n packet refl) refl h)

  pub send-keeps :
      (t : MessageType) (step_id : Scalar) (payload : TypedPayload fl.Float) (s : Session Transport)
      → P s
      → P ((send fl io t step_id payload s).0)
  unfolding send
  send-keeps t step_id payload s h =
      send_packet-keeps t (make_packet fl t (int s.tx_sequence) step_id payload) s
        (λ packet. make_packet-sequence fl t (int s.tx_sequence) step_id payload packet) h

  pub send_sensor-keeps :
      (step_id : Scalar) (payload : SensorFramePayload fl.Float) (s : Session Transport)
      → P s
      → P ((send_sensor fl io step_id payload s).0)
  unfolding send_sensor
  send_sensor-keeps step_id payload s h =
      after_if P (is_active s.state) _ _ (send-keeps _ step_id _ s h) h

  pub send_heartbeat-keeps :
      (step_id uptime_ms monotonic_ms : Scalar) (state : RuntimeState) (s : Session Transport)
      → P s
      → P ((send_heartbeat fl io step_id uptime_ms monotonic_ms state s).0)
  unfolding send_heartbeat
  send_heartbeat-keeps step_id uptime_ms monotonic_ms state s h =
      after_if P (is_active s.state) _ _ (send-keeps _ step_id _ s h) h

  pub request_safe_stop-keeps :
      ((s : Session Transport) → P s → P (set_state SessionState.safe_stop s))
      → (reason : SafeStopReason) (detail step_id : Scalar) (s : Session Transport) → P s
      → P ((request_safe_stop fl io reason detail step_id s).0)
  unfolding request_safe_stop
  request_safe_stop-keeps of_stop reason detail step_id s h =
      after_if P (not (can_stop s.state)) _ _ h (
        after_bind P (send fl io MessageType.safe_stop step_id (stop_payload fl io reason detail) s)
          (set_state_after SessionState.safe_stop) (send-keeps _ step_id _ s h)
          (λ u e. of_stop _ (send-keeps _ step_id _ s h)))

  send_chunks-keeps :
      (step_id : Scalar) (chunk_at : ℕ → TypedPayload fl.Float) (starts : List ℕ)
      (s : Session Transport)
      → P s
      → P ((send_chunks fl io step_id chunk_at starts s).0)
  unfolding send_chunks
  send_chunks-keeps step_id chunk_at [] s h = h
  send_chunks-keeps step_id chunk_at (start ∷ starts) s h =
      after_bind P (send fl io MessageType.route_chunk step_id (chunk_at start) s)
        (λ _. send_chunks fl io step_id chunk_at starts) (send-keeps _ step_id _ s h)
        (λ u e. send_chunks-keeps step_id chunk_at starts _ (send-keeps _ step_id _ s h))

  send_limited-keeps :
      (route_id : Scalar) (points : List (RouteWaypoint fl.Float)) (step_id : Scalar) (loop : Bool)
      (limit : Option ℕ) (s : Session Transport)
      → P s
      → P ((send_limited fl io route_id points step_id loop limit s).0)
  send_limited-keeps route_id points step_id loop none s h = h
  send_limited-keeps route_id points step_id loop (some limit) s h =
      after_if P (chunk_capacity limit == 0) _ _ h (send_chunks-keeps step_id _ _ s h)

  pub send_route-keeps :
      (route_id : Scalar) (points : List (RouteWaypoint fl.Float)) (step_id : Scalar) (loop : Bool)
      (s : Session Transport)
      → P s
      → P ((send_route fl io route_id points step_id loop s).0)
  unfolding send_route
  send_route-keeps route_id points step_id loop s h =
      after_if P (is_active s.state) _ _
        (after_if P (length points == 0) _ _ h (
          after_if P (ltb 0xFFFF (length points)) _ _ h
            (send_limited-keeps route_id points step_id loop s.negotiated_max_payload s h)))
        h
