-- ===== src/Session/KeepsPoll.antt =====
-- Properties that `HostSession.poll` (host/src/navbench/session.py) keeps, from what the single
-- changes to the session's fields keep.
use navbench.Common.{
  ℕ, zero, suc, ◌-◌, ◌≡◌, refl, true, not, ◌||◌, Option, none, some, List, [], ◌∷◌, ◌++◌, ltb,
  Bool-cases, inl, inr,
}
use navbench.Protocol.Error.{Result, ok, err}
use navbench.Protocol.Value.{Binary32}
use navbench.Protocol.Enums.{MessageType}
use navbench.Protocol.Packet.{Packet}
use navbench.Protocol.Payload.Types.{TypedPayload, HelloAckPayload}
use navbench.Protocol.Payload.Decode.{decode_packet_payload}
use navbench.Protocol.Stream.{StreamParser, feed}
use navbench.Protocol.Sequence.{SequenceTracker, SequenceResult}
use navbench.Transport.Interface.{ByteTransport, ReadResult, received, read_failed}
use navbench.Session.Run.{
  Run, Answer, done, failed, append_answer, pure, after_bind, after_test, after_if,
}
use navbench.Session.Types.{Session, SessionEvent, timed_out}
use navbench.Session.Send.{is_active, is_closed, set_state, flush_tx}
use navbench.Session.Poll.{
  is_hello_sent, acceptable, negotiate, handle_ack, handle_session_packet, payload_error, deliver,
  handle_observed, handle_packet, handle_packets, handle_data, read_round, read_loop,
  current_timeout_ms, expire_after, check_since, check_timeout, poll_read, poll_flushed, poll_at,
}
use navbench.Session.Flush.{IsFlushStable, flush_tx-keeps}

module _ (io : ByteTransport) where
  open io use {Transport}

  -- The changes that a poll at a time can make.
  pub record IsPollStable (now : ℕ) (P : Session Transport → Type 0) : Type 0 where
    pub of_flush : IsFlushStable io P
    pub of_read :
        (s : Session Transport) (t : Transport) (r : ReadResult)
        → io.read s.transport 512 ≡ (t, r)
        → P s
        → P (record s { transport = t })
    pub of_parser :
        (s : Session Transport) (parser : StreamParser) → P s → P (record s { parser = parser })
    pub of_tracker :
        (s : Session Transport) (tracker : SequenceTracker)
        → P s
        → P (record s { rx_sequence = tracker })
    pub of_received : (s : Session Transport) → P s → P (record s { last_rx_ms = some now })
    pub of_negotiate :
        (s : Session Transport) (p : HelloAckPayload)
        → acceptable s.state s.config p ≡ true
        → P s
        → P (negotiate p s)
    pub of_expire :
        (s : Session Transport)
        → (is_hello_sent s.state || is_active s.state) ≡ true
        → P s
        → P (set_state timed_out s)

module _ (fl : Binary32) (io : ByteTransport) (now : ℕ) (P : Session (io.Transport) → Type 0)
    (stable : IsPollStable io now P) where
  open io use {Transport}
  open stable use {of_flush, of_read, of_parser, of_tracker, of_received, of_negotiate, of_expire}
  open of_flush use {of_stats, of_error}

  handle_ack-keeps :
      (payload : TypedPayload fl.Float) (s : Session Transport) → P s → P (handle_ack payload s)
  handle_ack-keeps (TypedPayload.hello_ack p) s h =
      elim (Bool-cases (acceptable s.state s.config p)) [
        | inl good ↦ simp good (of_negotiate s p good h)
        | inr bad ↦ simp bad (of_error s h)
      ]
  handle_ack-keeps payload s h = of_error s h

  handle_session_packet-keeps :
      (t : MessageType) (payload : TypedPayload fl.Float) (s : Session Transport)
      → P s
      → P (handle_session_packet t payload s)
  unfolding handle_session_packet
  handle_session_packet-keeps MessageType.hello_ack payload s h = handle_ack-keeps payload s h
  handle_session_packet-keeps _ payload s h = h

  payload_error-keeps : (t : MessageType) (s : Session Transport) → P s → P (payload_error t s)
  payload_error-keeps MessageType.hello_ack s h = of_stats _ _ (of_error s h)
  payload_error-keeps _ s h = of_stats s _ h

  deliver-keeps :
      (packet : Packet) (sequence : SequenceResult) (decoded : Result (TypedPayload fl.Float))
      (s : Session Transport)
      → P s
      → P ((deliver fl now packet sequence decoded s).0)
  deliver-keeps packet sequence (err e) s h = payload_error-keeps packet.message_type s h
  deliver-keeps packet sequence (ok payload) s h =
      handle_session_packet-keeps packet.message_type payload _ (of_received _ (of_stats s _ h))

  handle_observed-keeps :
      (packet : Packet) (observed : Result (SequenceTracker × SequenceResult))
      (s : Session Transport)
      → P s
      → P ((handle_observed fl now packet observed s).0)
  handle_observed-keeps packet (err e) s h = h
  handle_observed-keeps packet (ok (tracker, sequence)) s h =
      after_if P (not sequence.accepted) _ _ (of_stats _ _ (of_tracker s tracker h))
        (deliver-keeps packet sequence (decode_packet_payload fl packet) _ (of_tracker s tracker h))

  handle_packet-keeps :
      (packet : Packet) (s : Session Transport) → P s → P ((handle_packet fl now packet s).0)
  unfolding handle_packet
  handle_packet-keeps packet s h = handle_observed-keeps packet _ s h

  handle_packets-keeps :
      (packets : List Packet) (s : Session Transport)
      → P s
      → P ((handle_packets fl now packets s).0)
  unfolding handle_packets
  handle_packets-keeps [] s h = h
  handle_packets-keeps (packet ∷ packets) s h =
      after_bind P (handle_packet fl now packet s) (append_answer (handle_packets fl now packets))
        (handle_packet-keeps packet s h)
        (λ events e.
          after_bind P (handle_packets fl now packets _) (λ more. pure (events ++ more))
            (handle_packets-keeps packets _ (handle_packet-keeps packet s h))
            (λ more f. handle_packets-keeps packets _ (handle_packet-keeps packet s h)))

  handle_data-keeps :
      (bytes : List ℕ) (s : Session Transport) → P s → P ((handle_data fl now bytes s).0)
  unfolding handle_data
  handle_data-keeps bytes s h =
      handle_packets-keeps ((feed s.parser bytes).1.packets) _ (of_stats _ _ (of_parser s _ h))

  read_round-keeps :
      (next : Run (Session Transport) (List (SessionEvent fl.Float))) (s : Session Transport)
      (r : Transport × ReadResult)
      → io.read s.transport 512 ≡ r
      → ((s' : Session Transport) → P s' → P ((next s').0))
      → P s
      → P ((read_round fl io now next s r).0)
  read_round-keeps next s (t, read_failed) e continued h =
      of_stats _ _ (of_error _ (of_read s t read_failed e h))
  read_round-keeps next s (t, received []) e continued h = of_read s t (received []) e h
  read_round-keeps next s (t, received (byte ∷ bytes)) e continued h =
      let read_in = handle_data fl now (byte ∷ bytes) (record s { transport = t }) in
      let kept = handle_data-keeps (byte ∷ bytes) _ (of_read s t (received (byte ∷ bytes)) e h) in
      after_bind P read_in (append_answer next) kept (λ events d.
        after_bind P (next (read_in.0)) (λ more. pure (events ++ more)) (continued _ kept)
          (λ more f. continued _ kept))

  read_loop-keeps : (reads : ℕ) (s : Session Transport) → P s → P ((read_loop fl io reads now s).0)
  unfolding read_loop
  read_loop-keeps zero s h = h
  read_loop-keeps (suc reads) s h =
      read_round-keeps (read_loop fl io reads now) s (io.read s.transport 512) refl
        (read_loop-keeps reads) h

  expire_after-keeps :
      (elapsed : ℕ) (timeout : Answer ℕ) (s : Session Transport)
      → (is_hello_sent s.state || is_active s.state) ≡ true
      → P s
      → P ((expire_after fl io elapsed timeout s).0)
  expire_after-keeps elapsed (failed e) s live h = h
  expire_after-keeps elapsed (done timeout) s live h =
      after_if P (ltb timeout elapsed) _ _ (of_stats _ _ (of_expire s live h)) h

  check_since-keeps :
      (last : Option ℕ) (s : Session Transport)
      → (is_hello_sent s.state || is_active s.state) ≡ true
      → P s
      → P ((check_since fl io now last s).0)
  check_since-keeps none s live h = h
  check_since-keeps (some last) s live h =
      expire_after-keeps (now - last) (current_timeout_ms fl io s) s live h

  check_timeout-keeps : (s : Session Transport) → P s → P ((check_timeout fl io now s).0)
  unfolding check_timeout
  check_timeout-keeps s h =
      after_test P (is_hello_sent s.state || is_active s.state) _ _
        (λ live. check_since-keeps s.last_rx_ms s live h) (λ idle. h)

  poll_flushed-keeps : (s : Session Transport) → P s → P ((poll_flushed fl io now tt s).0)
  poll_flushed-keeps s h =
      let reads = read_loop fl io s.config.max_reads_per_poll now s in
      let kept = read_loop-keeps s.config.max_reads_per_poll s h in
      after_bind P reads (poll_read fl io now) kept (λ events e.
        after_bind P (check_timeout fl io now (reads.0)) (λ _. pure events)
          (check_timeout-keeps _ kept) (λ u f. check_timeout-keeps _ kept))

  pub poll_at-keeps : (s : Session Transport) → P s → P ((poll_at fl io now s).0)
  poll_at-keeps s h = after_if P (is_closed s.state) _ _ h (
      after_bind P (flush_tx io s) (poll_flushed fl io now) (flush_tx-keeps io P of_flush s h)
        (λ u e. poll_flushed-keeps ((flush_tx io s).0) (flush_tx-keeps io P of_flush s h)))
