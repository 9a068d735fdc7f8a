-- ===== src/Session/Handshake.antt =====
-- What the peer of a `HostSession` (host/src/navbench/session.py) reads when a handshake starts.
use navbench.Common.{
  ℕ, ◌≤◌, ◌<◌, ◌^◌, ◌≡◌, refl, sym, ap, ◌∙◌, ◌⊎◌, inl, inr, false, Option, none, some, List, [],
  ◌∷◌, ◌++◌, append-nil, le→ltb, arith,
}
use navbench.Protocol.Error.{ok, invalid_value}
use navbench.Protocol.Value.{Binary32, int}
use navbench.Protocol.Packet.{encode_packet}
use navbench.Protocol.Struct.Laws.{pack-IsByte}
use navbench.Protocol.Payload.Encode.{hello_format}
use navbench.Protocol.Stream.{new_parser, feed}
use navbench.Protocol.Stream.Delivery.{done, next, feed-Frames}
use navbench.Transport.Interface.{ByteTransport}
use navbench.Transport.Writes.{Writes, Breaks, Stalls}
use navbench.Session.Run.{SessionFailure, Answer, failed, protocol_error, continue_with}
use navbench.Session.Types.{Session, hello_sent, error}
use navbench.Session.Send.{is_closed, validate_number, validate_now, enqueue}
use navbench.Session.Calls.{fresh, set_state_after, start_at, start}
use navbench.Session.Flush.{Flushed, flush_tx_failed, flush_tx-Flushed}
use navbench.Session.Invariant.{NotAfter}
use navbench.Session.Hello.{hello_packet, send_hello, send_hello_refused}

pub feed_hello :
    (timeout : ℕ) (frame : List ℕ)
    → encode_packet (hello_packet timeout) ≡ ok frame
    → (feed new_parser frame).1 ≡ record { packets = hello_packet timeout ∷ []; errors = [] }
feed_hello timeout frame coded =
    let framed =
      next {packets = []} {rest = []}
        (pack-IsByte hello_format (1 ∷ 1 ∷ 1 ∷ 0 ∷ 31 ∷ 128 ∷ timeout ∷ [])) coded done in
    let (read, start) = feed-Frames new_parser (refl, refl) framed in
    ap (λ stream. (feed new_parser stream).1) (sym (append-nil frame)) ∙ read

module _ (fl : Binary32) (io : ByteTransport) where
  open io use {Transport}

  -- The transport took the front of `frame`, and the buffer is the rest; a call that returned waits
  -- for the acknowledgement, and one that raised is in its error state, behind a broken write.
  abbrev pub Handed : List ℕ → Transport → Session Transport × Answer (Unit {0}) → Type 0
  Handed frame t r =
      (sent : List ℕ) × Writes io t sent (r.0.transport)
      × (frame ≡ sent ++ r.0.tx_buffer)
      × ((r.0.tx_buffer ≡ []) ⊎ Stalls io (r.0.transport))
      × (((r.1 ≡ Answer.done tt) × (r.0.state ≡ hello_sent))
          ⊎ ((e : SessionFailure) × (r.1 ≡ failed e)
              × (r.0.state ≡ error)
              × Breaks io (r.0.transport)))

  Handed-continue :
      (frame : List ℕ) (s : Session Transport) (r : Session Transport × Answer (Unit {0}))
      → s.tx_buffer ≡ frame
      → Flushed io s r
      → ((f : SessionFailure) → r.1 ≡ failed f → (r.0.state ≡ error) × Breaks io (r.0.transport))
      → Handed frame s.transport (continue_with (set_state_after hello_sent) r)
  unfolding Flushed
  Handed-continue frame s (s', Answer.done u) e (sent, writes, cut, counted, drained, ends)
        stopped =
      (sent, writes, sym e ∙ cut, drained, inl (refl, refl))
  Handed-continue frame s (s', failed f) e (sent, writes, cut, counted, drained, ends) stopped =
      (sent, writes, sym e ∙ cut, drained, inr (f, refl, (stopped f refl).0, (stopped f refl).1))

  pub Handshake : ℕ → Transport → Session Transport × Answer (Unit {0}) → Type 0
  Handshake timeout t r =
      (frame : List ℕ) × ((feed new_parser frame).1
        ≡ record { packets = hello_packet timeout ∷ []; errors = [] })
      × Handed frame t r

  start_at-Handshake :
      (now : ℕ) (s : Session Transport)
      → is_closed s.state ≡ false
      → 0 < s.config.timeout_ms
      → s.config.timeout_ms < 2 ^ 16
      → 256 ≤ s.config.max_tx_buffer
      → Handshake s.config.timeout_ms s.transport (start_at fl io now s)
  unfolding Handshake
  start_at-Handshake now s opened pos fits room =
      let (frame, short, coded, sends) = send_hello fl io (fresh now s) pos fits room refl refl in
      rw opened (
        rw sends (
          frame,
          feed_hello s.config.timeout_ms frame coded,
          Handed-continue frame (enqueue io frame (fresh now s)) _ refl
              (flush_tx-Flushed io (enqueue io frame (fresh now s)))
              (flush_tx_failed io (enqueue io frame (fresh now s))),
        ))

  -- A session that is not closed, whose timeout fits the field of a HELLO, starts a handshake: what
  -- the transport takes, with what stays in the buffer behind it, is one frame, which a new parser
  -- reads as the host's HELLO and nothing else; and nothing stays unless the last call of the
  -- transport was a write of some bytes that took none of them. A start that returns waits for the
  -- acknowledgement, one that raises leaves the session in its error state, behind a write that
  -- raised or returned an impossible number.
  pub start-Handshake :
      (now : ℕ) (s : Session Transport)
      → is_closed s.state ≡ false
      → 0 < s.config.timeout_ms
      → s.config.timeout_ms < 2 ^ 16
      → 256 ≤ s.config.max_tx_buffer
      → NotAfter s.last_now_ms (some now)
      → Handshake s.config.timeout_ms s.transport (start fl io (int now) s)
  unfolding start validate_now
  start-Handshake now s opened pos fits room later = validated s.last_now_ms later
    where
      started :
          Handshake s.config.timeout_ms s.transport
            (start_at fl io now (record s { last_now_ms = some now }))
      started = start_at-Handshake now (record s { last_now_ms = some now }) opened pos fits room

      validated :
          (named : Option ℕ)
          → NotAfter named (some now)
          → Handshake s.config.timeout_ms s.transport
              (continue_with (start_at fl io) (validate_number now named s))
      validated none k = started
      validated (some before) k = rw (le→ltb now before (omega arith)) started

  -- A session whose timeout does not fit the field of a HELLO cannot start: the call raises, nothing
  -- is sent, and the state is what it was.
  pub start_refused :
      (now : ℕ) (s : Session Transport)
      → is_closed s.state ≡ false
      → 2 ^ 16 ≤ s.config.timeout_ms
      → NotAfter s.last_now_ms (some now)
      → start fl io (int now) s
        ≡ (fresh now (record s { last_now_ms = some now }), failed (protocol_error invalid_value))
  unfolding start validate_now
  start_refused now s opened long later = validated s.last_now_ms later
    where
      refused :
          start_at fl io now (record s { last_now_ms = some now })
          ≡ (fresh now (record s { last_now_ms = some now }), failed (protocol_error invalid_value))
      refused = rw opened (
          ap (continue_with (set_state_after hello_sent))
            (send_hello_refused fl io (fresh now (record s { last_now_ms = some now })) long refl))

      validated :
          (named : Option ℕ)
          → NotAfter named (some now)
          → continue_with (start_at fl io) (validate_number now named s) ≡ (
            fresh now (record s { last_now_ms = some now }),
            failed (protocol_error invalid_value),
          )
      validated none k = refused
      validated (some before) k = rw (le→ltb now before (omega arith)) refused
