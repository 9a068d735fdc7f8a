-- ===== src/Session/Ends.antt =====
-- The methods of `HostSession` (host/src/navbench/session.py) return or raise: none of their loops
-- runs out of rounds.
use navbench.Common.{
  ℕ, zero, suc, ◌+◌, ◌-◌, Bool, true, false, not, ◌&&◌, ◌||◌, Option, none, some, List, [], ◌∷◌,
  ◌++◌, length, ltb, ◌==◌, if◌then◌else◌,
}
use navbench.Protocol.Error.{Result, ok, err}
use navbench.Protocol.Value.{Scalar, int, negative, boolean, other, Binary32}
use navbench.Protocol.Enums.{MessageType}
use navbench.Protocol.Packet.{Packet, encode_packet}
use navbench.Protocol.Payload.Types.{TypedPayload, SensorFramePayload, RouteWaypoint}
use navbench.Protocol.Payload.Decode.{make_packet}
use navbench.Protocol.Sequence.{SequenceTracker, SequenceResult}
use navbench.Transport.Interface.{ByteTransport, ReadResult, received, read_failed}
use navbench.Session.Run.{
  Answer, done, Run, ◌>>=◌, pure, continue_with, append_answer, Returns, Returns-bind, Returns-test,
  Returns-ended,
}
use navbench.Session.Types.{SessionEvent, Session, hello_sent}
use navbench.Session.Send.{
  is_active, is_closed, above_limit, is_hello, validate_number, validate_now, enqueue, send_frame,
  send_packet, send, flush_tx,
}
use navbench.Session.Calls.{
  fresh, count_reconnect, host_hello, set_state_after, start_at, start, reconnect, send_sensor,
}
use navbench.Session.Route.{send_chunks, send_limited, send_points, send_route, chunk_capacity}
use navbench.Session.Poll.{
  is_hello_sent, handle_observed, handle_packet, handle_packets, handle_data, read_round, read_loop,
  negotiated_or_raise, expire_after, check_since, check_timeout, poll_read, poll_flushed, poll_at,
  poll,
}
use navbench.Session.Flush.{Flushed, flush_tx-Flushed}

abbrev pub Ended : {S A : Type 0} → S × Answer A → Type 0
Ended {S = S} {A = A} r = Returns (λ (a : A) (s : S). Unit {0}) r

module _ {S : Type 0} where
  Ended-bind :
      {A B : Type 0} (result : S × Answer A) (next : A → Run S B)
      → Ended result
      → ((a : A) (s : S) → Ended (next a s))
      → Ended (continue_with next result)
  Ended-bind result next h continued =
      Returns-bind (λ a s. Unit {0}) (λ a s. Unit {0}) result next h (λ a s k. continued a s)

  Ended-test :
      {A : Type 0} (test : Bool) (a b : S × Answer A)
      → Ended a
      → Ended b
      → Ended (if test then a else b)
  Ended-test test a b h k = Returns-test (λ a s. Unit {0}) test a b (λ e. h) (λ e. k)

module _ (fl : Binary32) (io : ByteTransport) where
  open io use {Transport, read}

  flush_tx-Ended : (s : Session Transport) → Ended (flush_tx io s)
  unfolding Flushed
  flush_tx-Ended s =
      let (sent, writes, cut, counted, drained, ends) = flush_tx-Flushed io s in
      Returns-ended (flush_tx io s) ends

  send_frame-Ended :
      (frame : Result (List ℕ)) (s : Session Transport) → Ended (send_frame io frame s)
  send_frame-Ended (err e) s = λ f. cc
  send_frame-Ended (ok frame) s =
      Ended-test (ltb s.config.max_tx_buffer (length s.tx_buffer + length frame)) _
        (flush_tx io (enqueue io frame s)) (λ f. cc) (flush_tx-Ended (enqueue io frame s))

  send_packet-Ended :
      (t : MessageType) (packet : Result Packet) (s : Session Transport)
      → Ended (send_packet io t packet s)
  send_packet-Ended t (err e) s = λ f. cc
  send_packet-Ended t (ok packet) s =
      Ended-test (not (is_hello t) && above_limit (length packet.payload) s.negotiated_max_payload)
        _ (send_frame io (encode_packet packet) s) (λ f. cc)
        (send_frame-Ended (encode_packet packet) s)

  send-Ended :
      (t : MessageType) (step_id : Scalar) (payload : TypedPayload fl.Float) (s : Session Transport)
      → Ended (send fl io t step_id payload s)
  unfolding send
  send-Ended t step_id payload s =
      send_packet-Ended t (make_packet fl t (int s.tx_sequence) step_id payload) s

  validate_number-Ended :
      (now : ℕ) (last : Option ℕ) (s : Session Transport) → Ended (validate_number now last s)
  validate_number-Ended now none s = tt
  validate_number-Ended now (some last) s = Ended-test (ltb now last) _ _ (λ f. cc) tt

  validate_now-Ended : (now_ms : Scalar) (s : Session Transport) → Ended (validate_now now_ms s)
  unfolding validate_now
  validate_now-Ended (int now) s = validate_number-Ended now s.last_now_ms s
  validate_now-Ended (negative n) s = λ f. cc
  validate_now-Ended (boolean b) s = λ f. cc
  validate_now-Ended other s = λ f. cc

  pub start-Ended : (now_ms : Scalar) (s : Session Transport) → Ended (start fl io now_ms s)
  unfolding start
  start-Ended now_ms s =
      Ended-bind (validate_now now_ms s) (start_at fl io) (validate_now-Ended now_ms s) (λ now s'.
        Ended-test (is_closed s'.state) _
          ((send fl io MessageType.hello (int 0) (TypedPayload.hello (host_hello s'.config))
              >>= set_state_after hello_sent)
            (fresh now s'))
          (λ f. cc)
          (Ended-bind
            (send fl io MessageType.hello (int 0) (TypedPayload.hello (host_hello s'.config))
              (fresh now s'))
            (set_state_after hello_sent) (send-Ended MessageType.hello (int 0) _ (fresh now s'))
            (λ u s''. tt)))

  pub reconnect-Ended : (now_ms : Scalar) (s : Session Transport) → Ended (reconnect fl io now_ms s)
  unfolding reconnect
  reconnect-Ended now_ms s =
      Ended-test (is_closed s.state) _ (start fl io now_ms (count_reconnect s)) (λ f. cc)
        (start-Ended now_ms (count_reconnect s))

  pub send_sensor-Ended :
      (step_id : Scalar) (payload : SensorFramePayload fl.Float) (s : Session Transport)
      → Ended (send_sensor fl io step_id payload s)
  unfolding send_sensor
  send_sensor-Ended step_id payload s =
      Ended-test (is_active s.state)
        (send fl io MessageType.sensor_frame step_id (TypedPayload.sensor_frame payload) s) _
        (send-Ended MessageType.sensor_frame step_id (TypedPayload.sensor_frame payload) s)
        (λ f. cc)

  send_chunks-Ended :
      (step_id : Scalar) (chunk_at : ℕ → TypedPayload fl.Float) (starts : List ℕ)
      (s : Session Transport)
      → Ended (send_chunks fl io step_id chunk_at starts s)
  unfolding send_chunks
  send_chunks-Ended step_id chunk_at [] s = tt
  send_chunks-Ended step_id chunk_at (start ∷ starts) s =
      Ended-bind (send fl io MessageType.route_chunk step_id (chunk_at start) s)
        (λ u. send_chunks fl io step_id chunk_at starts)
        (send-Ended MessageType.route_chunk step_id (chunk_at start) s)
        (λ u s'. send_chunks-Ended step_id chunk_at starts s')

  send_limited-Ended :
      (route_id : Scalar) (points : List (RouteWaypoint fl.Float)) (step_id : Scalar) (loop : Bool)
      (limit : Option ℕ) (s : Session Transport)
      → Ended (send_limited fl io route_id points step_id loop limit s)
  send_limited-Ended route_id points step_id loop none s = λ f. cc
  send_limited-Ended route_id points step_id loop (some limit) s =
      Ended-test (chunk_capacity limit == 0) _ _ (λ f. cc) (send_chunks-Ended step_id _ _ s)

  pub send_route-Ended :
      (route_id : Scalar) (points : List (RouteWaypoint fl.Float)) (step_id : Scalar) (loop : Bool)
      (s : Session Transport)
      → Ended (send_route fl io route_id points step_id loop s)
  unfolding send_route
  send_route-Ended route_id points step_id loop s =
      Ended-test (is_active s.state) (send_points fl io route_id points step_id loop s) _
        (Ended-test (length points == 0) _ _ (λ f. cc)
          (Ended-test (ltb 0xFFFF (length points)) _
            (send_limited fl io route_id points step_id loop s.negotiated_max_payload s) (λ f. cc)
            (send_limited-Ended route_id points step_id loop s.negotiated_max_payload s)))
        (λ f. cc)

  handle_observed-Ended :
      (now : ℕ) (packet : Packet) (observed : Result (SequenceTracker × SequenceResult))
      (s : Session Transport)
      → Ended (handle_observed fl now packet observed s)
  handle_observed-Ended now packet (err e) s = λ f. cc
  handle_observed-Ended now packet (ok observed) s = tt

  handle_packets-Ended :
      (now : ℕ) (packets : List Packet) (s : Session Transport)
      → Ended (handle_packets fl now packets s)
  unfolding handle_packets handle_packet
  handle_packets-Ended now [] s = tt
  handle_packets-Ended now (packet ∷ packets) s =
      Ended-bind (handle_packet fl now packet s) (append_answer (handle_packets fl now packets))
        (handle_observed-Ended now packet _ s)
        (λ events s'.
          Ended-bind (handle_packets fl now packets s') (λ more. pure (events ++ more))
            (handle_packets-Ended now packets s') (λ more s''. tt))

  read_round-Ended :
      (now : ℕ) (next : Run (Session Transport) (List (SessionEvent fl.Float)))
      (s : Session Transport) (r : Transport × ReadResult)
      → ((s' : Session Transport) → Ended (next s'))
      → Ended (read_round fl io now next s r)
  unfolding handle_data
  read_round-Ended now next s (t, read_failed) continued = λ f. cc
  read_round-Ended now next s (t, received []) continued = tt
  read_round-Ended now next s (t, received (byte ∷ bytes)) continued =
      Ended-bind (handle_data fl now (byte ∷ bytes) (record s { transport = t }))
        (append_answer next) (handle_packets-Ended now _ _)
        (λ events s'.
          Ended-bind (next s') (λ more. pure (events ++ more)) (continued s') (λ more s''. tt))

  read_loop-Ended : (reads now : ℕ) (s : Session Transport) → Ended (read_loop fl io reads now s)
  unfolding read_loop
  read_loop-Ended zero now s = tt
  read_loop-Ended (suc reads) now s =
      read_round-Ended now (read_loop fl io reads now) s (read s.transport 512)
        (read_loop-Ended reads now)

  expire_after-Ended :
      (elapsed : ℕ) (negotiated : Option ℕ) (live : Bool) (timeout : ℕ) (s : Session Transport)
      → Ended (
          expire_after fl io elapsed
            (if live then negotiated_or_raise fl io negotiated else done timeout)
            s)
  expire_after-Ended elapsed none true timeout s = λ f. cc
  expire_after-Ended elapsed (some n) true timeout s = Ended-test (ltb n elapsed) _ _ tt tt
  expire_after-Ended elapsed negotiated false timeout s = Ended-test (ltb timeout elapsed) _ _ tt tt

  check_since-Ended :
      (now : ℕ) (last : Option ℕ) (s : Session Transport) → Ended (check_since fl io now last s)
  check_since-Ended now none s = tt
  check_since-Ended now (some last) s =
      expire_after-Ended (now - last) s.negotiated_timeout_ms (is_active s.state)
        s.config.timeout_ms s

  check_timeout-Ended : (now : ℕ) (s : Session Transport) → Ended (check_timeout fl io now s)
  unfolding check_timeout
  check_timeout-Ended now s =
      Ended-test (is_hello_sent s.state || is_active s.state) (check_since fl io now s.last_rx_ms s)
        (s, done tt) (check_since-Ended now s.last_rx_ms s) tt

  poll_flushed-Ended : (now : ℕ) (s : Session Transport) → Ended (poll_flushed fl io now tt s)
  poll_flushed-Ended now s =
      Ended-bind (read_loop fl io s.config.max_reads_per_poll now s) (poll_read fl io now)
        (read_loop-Ended s.config.max_reads_per_poll now s)
        (λ events s'.
          Ended-bind (check_timeout fl io now s') (λ u. pure events) (check_timeout-Ended now s')
            (λ u s''. tt))

  -- A poll returns its events or raises what the code raises.
  pub poll-Ended : (now_ms : Scalar) (s : Session Transport) → Ended (poll fl io now_ms s)
  unfolding poll
  poll-Ended now_ms s =
      Ended-bind (validate_now now_ms s) (poll_at fl io) (validate_now-Ended now_ms s) (λ now s'.
        Ended-test (is_closed s'.state) (s', done []) _ tt
          (Ended-bind (flush_tx io s') (poll_flushed fl io now) (flush_tx-Ended s')
            (λ u s''. poll_flushed-Ended now s'')))
