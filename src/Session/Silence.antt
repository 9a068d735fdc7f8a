-- ===== src/Session/Silence.antt =====
-- `HostSession.poll` of host/src/navbench/session.py while the peer says nothing.
use navbench.Common.{
  ℕ, zero, suc, ◌+◌, ◌-◌, ◌≤◌, ◌<◌, ◌≡◌, refl, ap, ◌∙◌, ◌⊎◌, inl, inr, true, false, Bool-cases,
  Option, none, some, List, [], lt→ltb, le→ltb, arith,
}
use navbench.Protocol.Value.{Binary32, int}
use navbench.Transport.Interface.{ByteTransport, ReadResult, received}
use navbench.Transport.Writes.{Breaks}
use navbench.Session.Run.{Answer, SessionFailure, pure, done, failed, continue_with}
use navbench.Session.Types.{
  SessionState, Session, SessionEvent, disconnected, hello_sent, active, timed_out, safe_stop,
  error, closed,
}
use navbench.Session.Send.{is_active, is_closed, validate_number, validate_now, flush_tx}
use navbench.Session.Poll.{
  read_round, read_loop, check_timeout, check_since, poll_flushed, poll_at, poll, expire_after,
  current_timeout_ms,
}
use navbench.Session.Flush.{
  IsFlushStable, flush_tx-keeps, Concludes, flush_tx-Concludes, flush_tx_failed,
}
use navbench.Session.Invariant.{active_state, NotAfter, Agreed, is_live, IsSound}

module _ (fl : Binary32) (io : ByteTransport) where
  open io use {Transport, read}

  read_round_silent :
      (now : ℕ)
      (next : Session Transport → Session Transport × Answer (List (SessionEvent fl.Float)))
      (s : Session Transport) (r : Transport × ReadResult)
      → r.1 ≡ received []
      → (t : Transport) × (read_round fl io now next s r ≡ (record s { transport = t }, done []))
  read_round_silent now next s (t, result) h = (t, rw h refl)

  read_loop_silent :
      (reads now : ℕ) (s : Session Transport)
      → ((t : Transport) → (read t 512).1 ≡ received [])
      → (t : Transport) × (read_loop fl io reads now s ≡ (record s { transport = t }, done []))
  unfolding read_loop
  read_loop_silent zero now s silent = (s.transport, refl)
  read_loop_silent (suc reads) now s silent =
      read_round_silent now (read_loop fl io reads now) s (read s.transport 512)
        (silent s.transport)

  -- The peer was last heard at `last`, and no timeout in force is above `limit`.
  pub record IsWaiting (limit last : ℕ) (s : Session Transport) : Type 0 where
    pub since : s.last_rx_ms ≡ some last
    pub own_limit : s.config.timeout_ms ≤ limit
    pub agreed_limit :
        s.state ≡ active
        → (timeout : ℕ) × (s.negotiated_timeout_ms ≡ some timeout) × (timeout ≤ limit)

  IsWaiting-flush : (limit last : ℕ) → IsFlushStable io (IsWaiting limit last)
  IsWaiting-flush limit last = record {
    of_refused = λ s t r e none h. record {
      since = h.since;
      own_limit = h.own_limit;
      agreed_limit = h.agreed_limit;
    };
    of_written = λ s t n e fits h. record {
      since = h.since;
      own_limit = h.own_limit;
      agreed_limit = h.agreed_limit;
    };
    of_stats = λ s stats h. record {
      since = h.since;
      own_limit = h.own_limit;
      agreed_limit = h.agreed_limit;
    };
    of_error =
        λ s h. record { since = h.since; own_limit = h.own_limit; agreed_limit = λ e. absurd cc };
  }

  -- The call returned with no event and the session has timed out; or its flush raised, which leaves
  -- the error state behind a broken write.
  abbrev pub TimesOut : Session Transport × Answer (List (SessionEvent fl.Float)) → Type 0
  TimesOut r =
      ((r.1 ≡ done []) × (r.0.state ≡ timed_out))
      ⊎ ((e : SessionFailure) × (r.1 ≡ failed e) × (r.0.state ≡ error) × Breaks io (r.0.transport))

  -- A test of the timeout that expires.
  abbrev Expires : Session Transport × Answer (Unit {0}) → Type 0
  Expires r = (r.1 ≡ done tt) × (r.0.state ≡ timed_out)

  expire_after_late :
      (elapsed timeout : ℕ) (s : Session Transport)
      → timeout < elapsed
      → Expires (expire_after fl io elapsed (done timeout) s)
  expire_after_late elapsed timeout s late = rw (lt→ltb timeout elapsed late) (refl, refl)

  current_timeout_ms-IsWaiting :
      (limit last : ℕ) (s : Session Transport)
      → IsWaiting limit last s
      → (timeout : ℕ) × (current_timeout_ms fl io s ≡ done timeout) × (timeout ≤ limit)
  current_timeout_ms-IsWaiting limit last s h = elim (Bool-cases (is_active s.state)) [
    | inl now_active ↦
        let (timeout, agreed, short) = h.agreed_limit (active_state s.state now_active) in
        (timeout, simp (now_active, agreed), short)
    | inr other ↦ (s.config.timeout_ms, simp other, h.own_limit)
  ]

  check_timeout_late :
      (limit last now : ℕ) (s : Session Transport)
      → is_live s.state ≡ true
      → IsWaiting limit last s
      → last + limit < now
      → Expires (check_timeout fl io now s)
  unfolding check_timeout
  check_timeout_late limit last now s live h late =
      let (timeout, current, short) = current_timeout_ms-IsWaiting limit last s h in
      rw live (check_since_late s.last_rx_ms timeout h.since current (omega arith))
    where
      check_since_late :
          (since : Option ℕ) (timeout : ℕ)
          → since ≡ some last
          → current_timeout_ms fl io s ≡ done timeout
          → timeout < now - last
          → Expires (check_since fl io now since s)
      check_since_late none timeout e f longer = absurd cc
      check_since_late (some from) timeout e f longer =
          let same : from ≡ last = cc in
          rw f (expire_after_late (now - from) timeout s (omega (arith, same)))

  -- The transport has nothing to read, whatever is called.
  abbrev pub IsSilent : Type 0
  IsSilent = (t : Transport) → (read t 512).1 ≡ received []

  continue_state :
      (limit last now : ℕ) (s : Session Transport)
      → IsSilent
      → is_live s.state ≡ true
      → IsWaiting limit last s
      → last + limit < now
      → TimesOut (poll_flushed fl io now tt s)
  continue_state limit last now s silent live h late =
      let (t, same) = read_loop_silent s.config.max_reads_per_poll now s silent in
      rw same (
        read_state (check_timeout fl io now (record s { transport = t })) (
          check_timeout_late limit last now (record s { transport = t }) live
            (record { since = h.since; own_limit = h.own_limit; agreed_limit = h.agreed_limit })
            late))
    where
      read_state :
          (r : Session Transport × Answer (Unit {0}))
          → Expires r
          → TimesOut (continue_with (λ u. pure {A = List (SessionEvent fl.Float)} []) r)
      read_state (s', done u) e = inl (refl, e.1)
      read_state (s', failed e') e = absurd cc

  open_state : (state : SessionState) → is_live state ≡ true → is_closed state ≡ false
  open_state active h = refl
  open_state disconnected h = absurd cc
  open_state hello_sent h = refl
  open_state timed_out h = absurd cc
  open_state safe_stop h = absurd cc
  open_state error h = absurd cc
  open_state closed h = absurd cc

  flushed_state :
      (limit last now : ℕ) (state : SessionState) (r : Session Transport × Answer (Unit {0}))
      → IsSilent
      → is_live state ≡ true
      → IsWaiting limit last (r.0)
      → Concludes io state r
      → ((e : SessionFailure) → r.1 ≡ failed e → (r.0.state ≡ error) × Breaks io (r.0.transport))
      → last + limit < now
      → TimesOut (continue_with (poll_flushed fl io now) r)
  unfolding Concludes
  flushed_state limit last now state (s, done u) silent live h same stopped late =
      continue_state limit last now s silent (ap is_live same ∙ live) h late
  flushed_state limit last now state (s, failed e) silent live h same stopped late =
      inr (e, refl, (stopped e refl).0, (stopped e refl).1)

  poll_at_late :
      (limit last now : ℕ) (s : Session Transport)
      → IsSilent
      → is_live s.state ≡ true
      → IsWaiting limit last s
      → last + limit < now
      → TimesOut (poll_at fl io now s)
  poll_at_late limit last now s silent live h late = rw (open_state s.state live) (
      flushed_state limit last now s.state (flush_tx io s) silent live
        (flush_tx-keeps io (IsWaiting limit last) (IsWaiting-flush limit last) s h)
        (flush_tx-Concludes io s) (flush_tx_failed io s) late)

  Agreed-limit :
      (s : Session Transport) (capabilities payload timeout : Option ℕ)
      → Agreed s.config capabilities payload timeout
      → (limit : ℕ) × (timeout ≡ some limit) × (limit ≤ s.config.timeout_ms)
  Agreed-limit s (some c) (some p) (some limit) h = (limit, refl, omega arith)
  Agreed-limit s none payload timeout h = absurd h
  Agreed-limit s (some c) none timeout h = absurd h
  Agreed-limit s (some c) (some p) none h = absurd h

  -- The peer of a session that waits for an acknowledgement or is active says nothing: the next
  -- poll at a time that is more than the session's own timeout behind the last packet returns no
  -- event and leaves the session timed out; or its flush raises, behind a write that raised or
  -- returned an impossible number, and leaves the session in its error state.
  pub poll-IsSilent :
      (s : Session Transport) (last now : ℕ)
      → IsSound s
      → is_live s.state ≡ true
      → s.last_rx_ms ≡ some last
      → NotAfter s.last_now_ms (some now)
      → IsSilent
      → last + s.config.timeout_ms < now
      → TimesOut (poll fl io (int now) s)
  unfolding poll validate_now
  poll-IsSilent s last now h live since later silent late = validated s.last_now_ms later
    where
      waiting : IsWaiting s.config.timeout_ms last s
      waiting = record {
        since = since;
        own_limit = omega arith;
        agreed_limit = λ e.
            Agreed-limit s s.peer_capabilities s.negotiated_max_payload s.negotiated_timeout_ms
              (h.agreed e);
      }

      ended : TimesOut (poll_at fl io now (record s { last_now_ms = some now }))
      ended =
          poll_at_late s.config.timeout_ms last now (record s { last_now_ms = some now }) silent
            live
            (record {
              since = since;
              own_limit = waiting.own_limit;
              agreed_limit = waiting.agreed_limit;
            })
            late

      validated :
          (named : Option ℕ)
          → NotAfter named (some now)
          → TimesOut (continue_with (poll_at fl io) (validate_number now named s))
      validated none k = ended
      validated (some before) k = rw (le→ltb now before (omega arith)) ended
