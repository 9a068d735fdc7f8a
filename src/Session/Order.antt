-- ===== src/Session/Order.antt =====
-- The order in which a `HostSession` (host/src/navbench/session.py) writes what it sends.
use navbench.Common.{
  ℕ, ◌+◌, ◌^◌, ◌≡◌, sym, ap, ◌∙◌, Option, List, [], ◌∷◌, All, ◌%◌, ◌++◌, append-nil, append_assoc,
  take, drop, take-append-drop,
}
use navbench.Protocol.Value.{Scalar, Binary32, int}
use navbench.Protocol.Error.{ok}
use navbench.Protocol.Packet.{Packet, encode_packet}
use navbench.Transport.Interface.{ByteTransport}
use navbench.Session.Run.{after_bind}
use navbench.Session.Types.{Session}
use navbench.Session.Send.{validate_now}
use navbench.Session.Poll.{poll_at, poll}
use navbench.Session.Flush.{IsFlushStable}
use navbench.Transport.Writes.{Writes, Writes-quiet, Writes-take, no_more, not_taken, between}
use navbench.Session.Keeps.{
  IsSendStable, send_sensor-keeps, send_heartbeat-keeps, send_route-keeps, request_safe_stop-keeps,
}
use navbench.Session.KeepsPoll.{IsPollStable, poll_at-keeps}
use navbench.Session.Invariant.{validate_now-eq}
use navbench.Session.Reach.{
  Call, call_start, call_reconnect, call_poll, call_sensor, call_heartbeat, call_route,
  call_safe_stop, call_close, step_call, run_calls,
}

-- Packets numbered from `n` on, up to and without `m`, and their frames in one string.
pub data Queued : ℕ → List Packet → List ℕ → ℕ → Type 0 where
  none_queued : {n : ℕ} → Queued n [] [] n
  first_queued :
      {n m : ℕ} {packet : Packet} {packets : List Packet} {stream frame rest : List ℕ}
      → packet.sequence ≡ int n
      → encode_packet packet ≡ ok frame
      → stream ≡ frame ++ rest
      → Queued ((n + 1) % 2 ^ 32) packets rest m
      → Queued n (packet ∷ packets) stream m

Queued-append :
    {n m : ℕ} {packets : List Packet} {stream : List ℕ} (packet : Packet) (frame : List ℕ)
    → Queued n packets stream m
    → packet.sequence ≡ int m
    → encode_packet packet ≡ ok frame
    → Queued n (packets ++ (packet ∷ [])) (stream ++ frame) ((m + 1) % 2 ^ 32)
Queued-append packet frame none_queued numbered coded =
    first_queued numbered coded (sym (append-nil frame)) none_queued
Queued-append packet frame (first_queued {frame = frame'} {rest = rest} numbered' coded' cut queued)
      numbered coded =
    first_queued numbered' coded' (ap (λ l. l ++ frame) cut ∙ append_assoc frame' rest frame)
      (Queued-append packet frame queued numbered coded)

module _ (io : ByteTransport) where
  open io use {Transport}

  -- From `s` to `s'` some packets were queued, one after the other; what the transport took is the
  -- front of the old buffer and their frames, and the new buffer is the rest.
  pub Sent : Session Transport → Session Transport → Type 0
  Sent s s' =
      (packets : List Packet) × (stream : List ℕ) × (sent : List ℕ) × Queued s.tx_sequence packets
        stream s'.tx_sequence
      × Writes io s.transport sent s'.transport
      × (s.tx_buffer ++ stream ≡ sent ++ s'.tx_buffer)

  Sent-IsFlushStable : (s : Session Transport) → IsFlushStable io (Sent s)
  unfolding Sent
  Sent-IsFlushStable s = record {
    of_refused = λ s' t r e none_taken (packets, stream, sent, queued, writes, cut). (
      packets,
      stream,
      sent,
      queued,
      Writes-quiet io writes (not_taken s'.tx_buffer e none_taken no_more),
      cut,
    );
    of_written = λ s' t n e fits (packets, stream, sent, queued, writes, cut). (
      packets,
      stream,
      sent ++ take n s'.tx_buffer,
      queued,
      Writes-take io s'.tx_buffer n writes e fits,
      cut
          ∙ ap (λ l. sent ++ l) (sym (take-append-drop n s'.tx_buffer))
          ∙ sym (append_assoc sent (take n s'.tx_buffer) (drop n s'.tx_buffer)),
    );
    of_stats = λ s' stats h. h;
    of_error = λ s' h. h;
  }

  Sent-IsSendStable : (s : Session Transport) → IsSendStable io (Sent s)
  unfolding Sent
  Sent-IsSendStable s = record {
    of_flush = Sent-IsFlushStable s;
    of_enqueue = λ s' packet frame numbered coded fits (packets, stream, sent, queued, writes, cut).
        (
          packets ++ (packet ∷ []),
          stream ++ frame,
          sent,
          Queued-append packet frame queued numbered coded,
          writes,
          sym (append_assoc s.tx_buffer stream frame)
              ∙ ap (λ l. l ++ frame) cut
              ∙ append_assoc sent s'.tx_buffer frame,
        );
  }

  Sent-IsPollStable : (now : ℕ) (s : Session Transport) → IsPollStable io now (Sent s)
  unfolding Sent
  Sent-IsPollStable now s = record {
    of_flush = Sent-IsFlushStable s;
    of_read = λ s' t r e (packets, stream, sent, queued, writes, cut).
        (packets, stream, sent, queued, Writes-quiet io writes (between 512 e no_more), cut);
    of_parser = λ s' parser h. h;
    of_tracker = λ s' tracker h. h;
    of_received = λ s' h. h;
    of_negotiate = λ s' p good h. h;
    of_expire = λ s' live h. h;
  }

-- A call that neither starts a handshake, which empties the buffer, nor closes.
abbrev pub Continues : {F : Type 0} → Call F → Type 0
Continues (call_start now_ms) = ⊥
Continues (call_reconnect now_ms) = ⊥
Continues call_close = ⊥
Continues c = Unit {0}

module _ (fl : Binary32) (io : ByteTransport) where
  open io use {Transport}

  named-Sent :
      (s s' t : Session Transport) (named : Option ℕ)
      → t ≡ record s' { last_now_ms = named }
      → Sent io s s'
      → Sent io s t
  named-Sent s s' t named e h = rw e (unfold Sent in h)

  poll-Sent :
      (now_ms : Scalar) (s s' : Session Transport)
      → Sent io s s'
      → Sent io s ((poll fl io now_ms s').0)
  unfolding poll
  poll-Sent now_ms s s' h =
      let (named, e) = validate_now-eq now_ms s' in
      let validated = named-Sent s s' ((validate_now now_ms s').0) named e h in
      after_bind (Sent io s) (validate_now now_ms s') (poll_at fl io) validated
        (λ now f. poll_at-keeps fl io now (Sent io s) (Sent-IsPollStable io now s) _ validated)

  step_call-Sent :
      (c : Call fl.Float) (s s' : Session Transport)
      → Continues c
      → Sent io s s'
      → Sent io s (step_call fl io c s')
  unfolding step_call
  step_call-Sent (call_start now_ms) s s' n h = elim n [ ]
  step_call-Sent (call_reconnect now_ms) s s' n h = elim n [ ]
  step_call-Sent call_close s s' n h = elim n [ ]
  step_call-Sent (call_poll now_ms) s s' n h = poll-Sent now_ms s s' h
  step_call-Sent (call_sensor step_id payload) s s' n h =
      send_sensor-keeps fl io (Sent io s) (Sent-IsSendStable io s) step_id payload s' h
  step_call-Sent (call_heartbeat step_id uptime_ms monotonic_ms state) s s' n h =
      send_heartbeat-keeps fl io (Sent io s) (Sent-IsSendStable io s) step_id uptime_ms monotonic_ms
        state s' h
  step_call-Sent (call_route route_id points step_id loop_route) s s' n h =
      send_route-keeps fl io (Sent io s) (Sent-IsSendStable io s) route_id points step_id loop_route
        s' h
  step_call-Sent (call_safe_stop reason detail step_id) s s' n h =
      request_safe_stop-keeps fl io (Sent io s) (Sent-IsSendStable io s) (λ t k. unfold Sent in k)
        reason detail step_id s' h

  run_calls_from :
      (calls : List (Call fl.Float)) (s s' : Session Transport)
      → All Continues calls
      → Sent io s s'
      → Sent io s (run_calls fl io calls s')
  unfolding run_calls
  run_calls_from [] s s' n h = h
  run_calls_from (c ∷ calls) s s' (n, ns) h =
      run_calls_from calls s (step_call fl io c s') ns (step_call-Sent c s s' n h)

  -- Over any calls that neither start nor close a session, whatever its transport does: the packets
  -- that were queued are numbered one after the other from the session's next number on, and the
  -- bytes that the transport took are the front of the old buffer with the whole frames of these
  -- packets in order, the rest of which is the new buffer. A call that raises has queued whole
  -- frames only.
  pub run_calls-Sent :
      (calls : List (Call fl.Float)) (s : Session Transport)
      → All Continues calls
      → Sent io s (run_calls fl io calls s)
  run_calls-Sent calls s n =
      run_calls_from calls s s n
        (unfold Sent in ([], [], [], none_queued, no_more, append-nil s.tx_buffer))
