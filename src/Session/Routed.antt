-- ===== src/Session/Routed.antt =====
-- What a `HostSession.send_route` (host/src/navbench/session.py) that returns has sent.
use navbench.Common.{
  drop_all, ℕ, zero, suc, ◌+◌, ◌≤◌, ◌<◌, ◌≡◌, ◌≢◌, refl, sym, ap, ◌∙◌, Bool, true, false, Option,
  none, some, List, [], ◌∷◌, ◌++◌, append-nil, append_assoc, length, take, drop, length-take,
  length-drop, take-append-drop, drop-drop, ltb, ltb-true→lt, ltb-false→le, ◌==◌, if◌then◌else◌,
  Bool-cases, inl, inr, arith,
}
use mathlib.Core.Path.{subst}
use navbench.Protocol.Error.{Result, ok, err, ◌>>=◌}
use navbench.Protocol.Value.{Scalar, int, Binary32}
use navbench.Protocol.Enums.{MessageType}
use navbench.Protocol.Packet.{Packet}
use navbench.Protocol.Payload.Types.{TypedPayload, RouteWaypoint, RouteChunkPayload}
use navbench.Protocol.Payload.Encode.{encode_typed_payload}
use navbench.Protocol.Payload.Decode.{make_packet}
use navbench.Transport.Interface.{ByteTransport}
use navbench.Transport.Writes.{Writes, no_more, Writes-append}
use navbench.Session.Run.{Run, Answer, done, failed, continue_with}
use navbench.Session.Types.{Session}
use navbench.Session.Send.{is_active, send}
use navbench.Session.Route.{
  range_from, chunk_capacity, route_chunk_at, send_chunks, send_limited, send_route,
}
use navbench.Session.Order.{Queued, none_queued, first_queued}
use navbench.Session.Refusal.{Queues, Sends, send-Sends}

-- ROUTE_CHUNK packets that carry points in order, the first of which has the index `start`: each
-- names the route, the index of its own first point and the total.
pub data Chunked (fl : Binary32) (route_id : Scalar) (total : ℕ)
    : ℕ → List Packet → List (RouteWaypoint fl.Float) → Type 0 where
  no_chunks : {start : ℕ} → Chunked fl route_id total start [] []
  next_chunk :
      {start : ℕ} {packet : Packet} {packets : List Packet} {points : List (RouteWaypoint fl.Float)}
      (p : RouteChunkPayload fl.Float)
      → packet.message_type ≡ MessageType.route_chunk
      → encode_typed_payload fl MessageType.route_chunk (TypedPayload.route_chunk p)
        ≡ ok packet.payload
      → p.route_id ≡ route_id
      → p.start_index ≡ int start
      → p.total_count ≡ int total
      → Chunked fl route_id total (start + length p.points) packets points
      → Chunked fl route_id total start (packet ∷ packets) (p.points ++ points)

-- The packet that is made has the type and the payload that were given.
made_payload :
    (t : MessageType) (sequence step_id : Scalar) (encoded : Result (List ℕ)) (packet : Packet)
    → (encoded >>= λ bytes.
        ok (record { message_type = t; sequence = sequence; step_id = step_id; payload = bytes }))
      ≡ ok packet
    → (packet.message_type ≡ t) × (encoded ≡ ok packet.payload)
made_payload t sequence step_id (ok bytes) packet h =
    let same : bytes ≡ packet.payload = cc in (cc, ap ok same)
made_payload t sequence step_id (err e) packet h = absurd cc

make_packet-payload :
    (fl : Binary32) (t : MessageType) (sequence step_id : Scalar) (payload : TypedPayload fl.Float)
    (packet : Packet)
    → make_packet fl t sequence step_id payload ≡ ok packet
    → (packet.message_type ≡ t) × (encode_typed_payload fl t payload ≡ ok packet.payload)
unfolding make_packet
make_packet-payload fl t sequence step_id payload packet h =
    made_payload t sequence step_id (encode_typed_payload fl t payload) packet h

module _ (fl : Binary32) (io : ByteTransport) where
  open io use {Transport}

  -- Packets with the session's next numbers that carry the points were queued, and what the
  -- transport took is the front of the old buffer with their frames behind it.
  pub RouteSent :
      Scalar
      → (total start : ℕ) → List (RouteWaypoint fl.Float)
      → Session Transport
      → Session Transport
      → Type 0
  RouteSent route_id total start points s s' =
      (packets : List Packet) × (stream : List ℕ) × (sent : List ℕ) × Chunked fl route_id total
        start packets points
      × Queued s.tx_sequence packets stream s'.tx_sequence
      × Writes io s.transport sent s'.transport
      × (s.tx_buffer ++ stream ≡ sent ++ s'.tx_buffer)

  -- A message whose sending returns.
  sent_packet :
      (made : Result Packet) (t : MessageType) (s : Session Transport)
      (r : Session Transport × Answer (Unit {0}))
      → Sends io made t s r
      → r.1 ≡ done tt
      → (packet : Packet) × (made ≡ ok packet) × Queues io packet t s r
  unfolding Sends
  sent_packet made t s r (inl (e, refused, reason)) returned =
      absurd (let raised : r.1 ≡ failed e = ap (λ x. x.1) refused in cc)
  sent_packet made t s r (inr sends) returned = sends

  returned_both :
      (next : Unit {0} → Run (Session Transport) (Unit {0}))
      (r : Session Transport × Answer (Unit {0}))
      → (continue_with next r).1 ≡ done tt
      → (r.1 ≡ done tt) × (continue_with next r ≡ next tt (r.0))
  returned_both next (s, done u) e = (refl, refl)
  returned_both next (s, failed f) e = absurd cc

  -- One chunk, and those behind it.
  RouteSent-next :
      (route_id step_id : Scalar) (total start : ℕ) (p : RouteChunkPayload fl.Float)
      (points : List (RouteWaypoint fl.Float)) (s s' : Session Transport)
      → p.route_id ≡ route_id
      → p.start_index ≡ int start
      → p.total_count ≡ int total
      → (send fl io MessageType.route_chunk step_id (TypedPayload.route_chunk p) s).1 ≡ done tt
      → RouteSent route_id total
          (start + length p.points)
          points
          ((send fl io MessageType.route_chunk step_id (TypedPayload.route_chunk p) s).0)
          s'
      → RouteSent route_id total start (p.points ++ points) s s'
  unfolding RouteSent Queues
  RouteSent-next route_id step_id total start p points s s' own first all returned
        (packets, stream, sent, chunked, queued, writes, cut) =
      let r = send fl io MessageType.route_chunk step_id (TypedPayload.route_chunk p) s in
      let (packet, made, queues) =
        sent_packet _ MessageType.route_chunk s r
          (send-Sends io fl MessageType.route_chunk step_id (TypedPayload.route_chunk p) s)
          returned in
      let (frame, taken, coded, numbered, fits, room, writes', cut', drained, used, settles) =
        queues in
      let (typed, encoded) =
        make_packet-payload fl MessageType.route_chunk (int s.tx_sequence) step_id
          (TypedPayload.route_chunk p) packet made in
      (
        packet ∷ packets,
        frame ++ stream,
        taken ++ sent,
        next_chunk p typed encoded own first all chunked,
        first_queued numbered coded refl (rw used at queued),
        Writes-append io writes' writes,
        sym (append_assoc s.tx_buffer frame stream)
            ∙ ap (λ l. l ++ stream) cut'
            ∙ append_assoc taken r.0.tx_buffer stream
            ∙ ap (λ l. taken ++ l) cut
            ∙ sym (append_assoc taken sent s'.tx_buffer),
      )

  module _ (route_id step_id : Scalar) (points : List (RouteWaypoint fl.Float)) (loop_route : Bool)
      (step : ℕ) (pos : 0 < step) where
    abbrev chunks_from : (rounds start : ℕ) → Run (Session Transport) (Unit {0})
    chunks_from rounds start =
        send_chunks fl io step_id (route_chunk_at fl route_id points loop_route step)
          (range_from rounds start (length points) step)

    drop_chunk :
        (start : ℕ)
        → drop start points ≡ take step (drop start points) ++ drop (start + step) points
    drop_chunk start =
        sym (take-append-drop step (drop start points))
        ∙ ap (λ l. take step (drop start points) ++ l) (drop-drop step start points)

    -- `index` is the index of the chunk's first point, if there is one.
    chunks_from-RouteSent :
        (rounds start index : ℕ) (s : Session Transport)
        → length points ≤ rounds + start
        → (start < length points → index ≡ start)
        → (chunks_from rounds start s).1 ≡ done tt
        → RouteSent route_id
            (length points)
            index
            (drop start points)
            s
            ((chunks_from rounds start s).0)
    unfolding range_from send_chunks route_chunk_at
    chunks_from-RouteSent zero start index s enough same returned =
        rw (drop_all start points (omega arith)) (
          unfold RouteSent in ([], [], [], no_chunks, none_queued, no_more, append-nil s.tx_buffer))
    chunks_from-RouteSent (suc rounds) start index s enough same returned =
        judged (ltb start (length points)) refl returned
          (λ next s'. chunks_from-RouteSent rounds (start + step) next s' (omega arith))
      where
        run : List ℕ → Session Transport × Answer (Unit {0})
        run starts =
            send_chunks fl io step_id (route_chunk_at fl route_id points loop_route step) starts s

        judged :
            (test : Bool)
            → ltb start (length points) ≡ test
            → (run (
                if test
                then start ∷ range_from rounds (start + step) (length points) step
                else [])).1
              ≡ done tt
            → ((next : ℕ) (s' : Session Transport)
                → (start + step < length points → next ≡ start + step)
                → (chunks_from rounds (start + step) s').1 ≡ done tt
                → RouteSent route_id
                    (length points)
                    next
                    (drop (start + step) points)
                    s'
                    ((chunks_from rounds (start + step) s').0))
            → RouteSent route_id (length points) index (drop start points) s (
                (run (
                  if test
                  then start ∷ range_from rounds (start + step) (length points) step
                  else [])).0)
        judged true more ran again =
            let (ended, moved) =
              returned_both (λ u. chunks_from rounds (start + step))
                (send fl io MessageType.route_chunk step_id
                  (route_chunk_at fl route_id points loop_route step start) s)
                ran in
            let chunk = take step (drop start points) in
            let rest =
              again (index + length chunk) _
                (λ beyond. omega (
                  arith,
                  same (ltb-true→lt start (length points) more),
                  length-take step (drop start points),
                  length-drop start points,
                ))
                (ap (λ r. r.1) (sym moved) ∙ ran) in
            subst
              (λ (l : List (RouteWaypoint fl.Float)).
                RouteSent route_id (length points) index l s
                  ((run (start ∷ range_from rounds (start + step) (length points) step)).0))
              (sym (drop_chunk start))
              (rw moved (
                RouteSent-next route_id step_id (length points) index _ (drop (start + step) points)
                  s _ refl (ap int (sym (same (ltb-true→lt start (length points) more)))) refl ended
                  rest))
        judged false over ran again =
            rw (drop_all start points (ltb-false→le start (length points) over)) (
              unfold RouteSent in
              ([], [], [], no_chunks, none_queued, no_more, append-nil s.tx_buffer))

  -- A test that a call which returns has passed.
  past_test :
      (P : Session Transport × Answer (Unit {0}) → Type 0) (test : Bool)
      (refused passed : Session Transport × Answer (Unit {0}))
      → refused.1 ≢ done tt
      → (passed.1 ≡ done tt → P passed)
      → (if test then refused else passed).1 ≡ done tt
      → P (if test then refused else passed)
  past_test P true refused passed raises next returned = absurd (raises returned)
  past_test P false refused passed raises next returned = next returned

  send_limited-RouteSent :
      (route_id step_id : Scalar) (points : List (RouteWaypoint fl.Float)) (loop_route : Bool)
      (limit : Option ℕ) (s : Session Transport)
      → (send_limited fl io route_id points step_id loop_route limit s).1 ≡ done tt
      → RouteSent route_id
          (length points)
          0
          points
          s
          ((send_limited fl io route_id points step_id loop_route limit s).0)
  send_limited-RouteSent route_id step_id points loop_route none s returned = absurd cc
  send_limited-RouteSent route_id step_id points loop_route (some limit) s returned =
      elim (Bool-cases (chunk_capacity limit == 0)) [
        | inl nothing ↦ absurd (let e = rw nothing at returned in cc)
        | inr some_points ↦ rw some_points (
            chunks_from-RouteSent route_id step_id points loop_route (chunk_capacity limit)
              (ground arith) (length points) 0 0 s (omega arith) (λ more. refl)
              (rw some_points at returned))
      ]

  -- A send_route that returns has sent the route: packets with the session's next numbers, one
  -- after the other, were queued, and what the transport took is the front of the old buffer with
  -- their whole frames behind it, the rest of which is the new buffer; each packet is a ROUTE_CHUNK
  -- with the route's identity, the total and the index of its first point, and together they carry
  -- the points of the route in order, each of them once.
  pub send_route-RouteSent :
      (route_id : Scalar) (points : List (RouteWaypoint fl.Float)) (step_id : Scalar)
      (loop_route : Bool) (s : Session Transport)
      → (send_route fl io route_id points step_id loop_route s).1 ≡ done tt
      → RouteSent route_id
          (length points)
          0
          points
          s
          ((send_route fl io route_id points step_id loop_route s).0)
  unfolding send_route
  send_route-RouteSent route_id points step_id loop_route s returned =
      elim (Bool-cases (is_active s.state)) [
        | inl now_active ↦ rw now_active (
            past_test Sent (length points == 0) _ _ (λ e. cc)
              (past_test Sent (ltb 0xFFFF (length points)) _ _ (λ e. cc)
                (send_limited-RouteSent route_id step_id points loop_route s.negotiated_max_payload
                  s))
              (rw now_active at returned))
        | inr other ↦ absurd (let e = rw other at returned in cc)
      ]
    where
      Sent : Session Transport × Answer (Unit {0}) → Type 0
      Sent r = RouteSent route_id (length points) 0 points s (r.0)
