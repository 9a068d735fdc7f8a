-- ===== src/Session/Refusal.antt =====
-- The branches of `HostSession._send` (host/src/navbench/session.py): a message is refused as a
-- whole or queued as a whole.
use navbench.Common.{
  ℕ, ◌+◌, ◌≤◌, ◌<◌, ◌^◌, ◌%◌, ◌≡◌, ◌≢◌, refl, ap, not, ◌&&◌, ◌⊎◌, inl, inr, true, false, Option,
  none, some, List, [], ◌++◌, length, ltb, ltb-false→le, ltb-true→lt, Bool-cases, arith,
}
use navbench.Protocol.Error.{Result, ok, err, ProtocolErrorCode}
use navbench.Protocol.Value.{Scalar, int, Binary32}
use navbench.Protocol.Enums.{MessageType}
use navbench.Protocol.Packet.{Packet, encode_packet}
use navbench.Protocol.Payload.Types.{TypedPayload}
use navbench.Protocol.Payload.Decode.{make_packet}
use navbench.Transport.Interface.{ByteTransport}
use navbench.Transport.Writes.{Writes, Breaks, Stalls}
use navbench.Session.Run.{SessionFailure, session_error, protocol_error, Answer, done, failed}
use navbench.Session.Types.{Session, error}
use navbench.Session.Send.{above_limit, is_hello, enqueue, flush_tx, send_frame, send_packet, send}
use navbench.Session.Flush.{
  IsFlushStable, flush_tx-keeps, Flushed, flush_tx-Flushed, Concludes, flush_tx-Concludes,
  flush_tx_failed,
}
use navbench.Session.Keeps.{make_packet-sequence}

-- A HELLO, or no more than the negotiated limit.
abbrev pub FitsLimit : MessageType → ℕ → Option ℕ → Type 0
FitsLimit t size none = Unit {0}
FitsLimit t size (some limit) = (t ≡ MessageType.hello) ⊎ (size ≤ limit)

-- Not a HELLO, and more than the negotiated limit.
abbrev pub ExceedsLimit : MessageType → ℕ → Option ℕ → Type 0
ExceedsLimit t size none = ⊥
ExceedsLimit t size (some limit) = (t ≢ MessageType.hello) × (limit < size)

hello_type : (t : MessageType) → is_hello t ≡ true → t ≡ MessageType.hello
hello_type MessageType.hello h = refl
hello_type _ h = absurd cc

other_type : (t : MessageType) → is_hello t ≡ false → t ≢ MessageType.hello
other_type t h e = let same : is_hello t ≡ true = ap is_hello e in absurd cc

fits_limit :
    (t : MessageType) (size : ℕ) (limit : Option ℕ)
    → (not (is_hello t) && above_limit size limit) ≡ false
    → FitsLimit t size limit
fits_limit t size none h = tt
fits_limit t size (some limit) h = elim (Bool-cases (is_hello t)) [
  | inl hello ↦ inl (hello_type t hello)
  | inr other ↦ inr (ltb-false→le limit size (ground (arith, h, other)))
]

exceeds_limit :
    (t : MessageType) (size : ℕ) (limit : Option ℕ)
    → (not (is_hello t) && above_limit size limit) ≡ true
    → ExceedsLimit t size limit
exceeds_limit t size none h = elim (Bool-cases (is_hello t)) [
  | inl hello ↦ absurd (ground (arith, h, hello))
  | inr other ↦ absurd (ground (arith, h, other))
]
exceeds_limit t size (some limit) h = elim (Bool-cases (is_hello t)) [
  | inl hello ↦ absurd (ground (arith, h, hello))
  | inr other ↦ (other_type t other, ltb-true→lt limit size (ground (arith, h, other)))
]

module _ (io : ByteTransport) where
  open io use {Transport}

  -- A flush that returned leaves the state as it was; one that raised leaves the error state, behind
  -- a broken write.
  abbrev pub Settles : Session Transport → Session Transport × Answer (Unit {0}) → Type 0
  Settles s r =
      ((r.1 ≡ done tt) × (r.0.state ≡ s.state))
      ⊎ ((e : SessionFailure) × (r.1 ≡ failed e) × (r.0.state ≡ error) × Breaks io (r.0.transport))

  -- A message that became `packet` has the session's next number, and this number is used up; its
  -- frame fits in the buffer, and what the transport took is the front of the buffer with the frame
  -- behind it, the rest of which is the new buffer: empty, or behind a write that took nothing.
  unfoldable pub Queues :
      Packet → MessageType → Session Transport → Session Transport × Answer (Unit {0}) → Type 0
  Queues packet t s r =
      (frame : List ℕ) × (sent : List ℕ) × (encode_packet packet ≡ ok frame)
      × (packet.sequence ≡ int s.tx_sequence)
      × FitsLimit t (length packet.payload) s.negotiated_max_payload
      × (length s.tx_buffer + length frame ≤ s.config.max_tx_buffer)
      × Writes io s.transport sent (r.0.transport)
      × (s.tx_buffer ++ frame ≡ sent ++ r.0.tx_buffer)
      × ((r.0.tx_buffer ≡ []) ⊎ Stalls io (r.0.transport))
      × (r.0.tx_sequence ≡ (s.tx_sequence + 1) % 2 ^ 32)
      × Settles s r

  -- The reasons to refuse a message: it does not become a packet, it is above the negotiated limit,
  -- its packet cannot be encoded, or the frame does not fit in the buffer.
  pub data IsRefused (t : MessageType) (s : Session Transport)
      : Result Packet → SessionFailure → Type 0 where
    not_made : (code : ProtocolErrorCode) → IsRefused t s (err code) (protocol_error code)
    above_negotiated :
        (packet : Packet)
        → ExceedsLimit t (length packet.payload) s.negotiated_max_payload
        → IsRefused t s (ok packet) session_error
    not_encoded :
        (packet : Packet) (code : ProtocolErrorCode)
        → encode_packet packet ≡ err code
        → IsRefused t s (ok packet) (protocol_error code)
    no_room :
        (packet : Packet) (frame : List ℕ)
        → encode_packet packet ≡ ok frame
        → s.config.max_tx_buffer < length s.tx_buffer + length frame
        → IsRefused t s (ok packet) session_error

  -- Nothing has changed but that the exception was raised that belongs to the reason.
  abbrev pub Refuses :
      Result Packet
      → MessageType
      → Session Transport
      → Session Transport × Answer (Unit {0})
      → Type 0
  Refuses made t s r = (e : SessionFailure) × (r ≡ (s, failed e)) × IsRefused t s made e

  numbered-IsFlushStable : (n : ℕ) → IsFlushStable io (λ s. s.tx_sequence ≡ n)
  numbered-IsFlushStable n = record {
    of_refused = λ s t r e none_taken h. h;
    of_written = λ s t m e fits h. h;
    of_stats = λ s stats h. h;
    of_error = λ s h. h;
  }

  Concludes-Settles :
      (s : Session Transport) (r : Session Transport × Answer (Unit {0}))
      → Concludes io s.state r
      → ((e : SessionFailure) → r.1 ≡ failed e → (r.0.state ≡ error) × Breaks io (r.0.transport))
      → Settles s r
  unfolding Concludes
  Concludes-Settles s (s', done u) same stopped = inl (refl, same)
  Concludes-Settles s (s', failed e) same stopped =
      inr (e, refl, (stopped e refl).0, (stopped e refl).1)

  Settles-flush : (s : Session Transport) → Settles s (flush_tx io s)
  Settles-flush s =
      Concludes-Settles s (flush_tx io s) (flush_tx-Concludes io s) (flush_tx_failed io s)

  enqueue-Queues :
      (packet : Packet) (t : MessageType) (frame : List ℕ) (s : Session Transport)
      → encode_packet packet ≡ ok frame
      → packet.sequence ≡ int s.tx_sequence
      → FitsLimit t (length packet.payload) s.negotiated_max_payload
      → length s.tx_buffer + length frame ≤ s.config.max_tx_buffer
      → Queues packet t s (flush_tx io (enqueue io frame s))
  unfolding Flushed Queues
  enqueue-Queues packet t frame s coded numbered fits room =
      let (sent, writes, cut, counted, drained, ends) = flush_tx-Flushed io (enqueue io frame s) in
      (
        frame,
        sent,
        coded,
        numbered,
        fits,
        room,
        writes,
        cut,
        drained,
        flush_tx-keeps io (λ s'. s'.tx_sequence ≡ (s.tx_sequence + 1) % 2 ^ 32)
            (numbered-IsFlushStable ((s.tx_sequence + 1) % 2 ^ 32)) (enqueue io frame s) refl,
        Settles-flush (enqueue io frame s),
      )

  -- The packet that `make_packet` returned, if it did.
  unfoldable pub Sends :
      Result Packet
      → MessageType
      → Session Transport
      → Session Transport × Answer (Unit {0})
      → Type 0
  Sends made t s r =
      Refuses made t s r ⊎ ((packet : Packet) × (made ≡ ok packet) × Queues packet t s r)

  send_frame-Sends :
      (packet : Packet) (t : MessageType) (encoded : Result (List ℕ)) (s : Session Transport)
      → encode_packet packet ≡ encoded
      → packet.sequence ≡ int s.tx_sequence
      → FitsLimit t (length packet.payload) s.negotiated_max_payload
      → Sends (ok packet) t s (send_frame io encoded s)
  unfolding Sends
  send_frame-Sends packet t (err e) s coded numbered fits =
      inl (protocol_error e, refl, not_encoded packet e coded)
  send_frame-Sends packet t (ok frame) s coded numbered fits =
      elim (Bool-cases (ltb s.config.max_tx_buffer (length s.tx_buffer + length frame))) [
        | inl over ↦
            simp over (inl (session_error, refl, no_room packet frame coded (ltb-true→lt _ _ over)))
        | inr room ↦ simp room (
            inr (
              packet,
              refl,
              enqueue-Queues packet t frame s coded numbered fits (ltb-false→le _ _ room),
            ))
      ]

  send_packet-Sends :
      (made : Result Packet) (t : MessageType) (s : Session Transport)
      → ((packet : Packet) → made ≡ ok packet → packet.sequence ≡ int s.tx_sequence)
      → Sends made t s (send_packet io t made s)
  unfolding Sends
  send_packet-Sends (err e) t s numbered = inl (protocol_error e, refl, not_made e)
  send_packet-Sends (ok packet) t s numbered =
      elim (Bool-cases
        (not (is_hello t) && above_limit (length packet.payload) s.negotiated_max_payload)) [
          | inl above ↦ simp above (
              inl (
                session_error,
                refl,
                above_negotiated packet
                    (exceeds_limit t (length packet.payload) s.negotiated_max_payload above),
              ))
          | inr within ↦ simp within (
              send_frame-Sends packet t (encode_packet packet) s refl (numbered packet refl)
                (fits_limit t (length packet.payload) s.negotiated_max_payload within))
        ]

  -- A message is refused, for a reason and with the exception that belongs to it, and the session
  -- is what it was: it does not become a packet or its packet cannot be encoded, with the
  -- protocol's error; or it is not a HELLO and its payload is above the negotiated limit, or its
  -- frame does not fit in the transmit buffer, with a session error. Or it becomes one packet with
  -- the session's next number, which is used up; what the transport takes is the front of the
  -- buffer with the whole frame behind it, and the buffer is the rest, which is empty unless the
  -- last call of the transport was a write of some bytes that took none of them. This call returns
  -- in the state that it began in, or raises in the error state, behind a write that raised or
  -- returned an impossible number.
  pub send-Sends :
      (fl : Binary32) (t : MessageType) (step_id : Scalar) (payload : TypedPayload fl.Float)
      (s : Session Transport)
      → Sends
          (make_packet fl t (int s.tx_sequence) step_id payload)
          t
          s
          (send fl io t step_id payload s)
  unfolding send
  send-Sends fl t step_id payload s =
      send_packet-Sends (make_packet fl t (int s.tx_sequence) step_id payload) t s
        (λ packet. make_packet-sequence fl t (int s.tx_sequence) step_id payload packet)
