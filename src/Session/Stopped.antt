-- ===== src/Session/Stopped.antt =====
-- Sessions of host/src/navbench/session.py that have stopped: what calls cannot bring back.
use navbench.Common.{
  ℕ, ◌≡◌, ◌≢◌, refl, ap, ◌∙◌, true, false, Option, List, [], ◌∷◌, if◌then◌else◌, All,
}
use navbench.Protocol.Value.{Scalar, Binary32}
use navbench.Protocol.Enums.{SafeStopReason}
use navbench.Transport.Interface.{ByteTransport}
use navbench.Session.Run.{Run, Answer, failed, session_error, after_bind, continue_with}
use navbench.Session.Types.{Session, closed}
use navbench.Session.Send.{is_active, is_closed, validate_now}
use navbench.Session.Calls.{
  start_at, start, reconnect, can_stop, send_sensor, send_heartbeat, request_safe_stop,
  close_session,
}
use navbench.Session.Route.{send_route}
use navbench.Session.Poll.{poll_at, poll}
use navbench.Session.Flush.{IsFlushStable}
use navbench.Session.Keeps.{
  IsSendStable, send_sensor-keeps, send_heartbeat-keeps, send_route-keeps, request_safe_stop-keeps,
}
use navbench.Session.KeepsPoll.{IsPollStable, poll_at-keeps}
use navbench.Session.Invariant.{is_live}
use navbench.Session.SoundSteps.{acceptable-state}
use navbench.Session.Invariant.{validate_now-eq}
use navbench.Session.Reach.{
  Call, call_start, call_reconnect, call_poll, call_sensor, call_heartbeat, call_route,
  call_safe_stop, call_close, step_call, run_calls,
}

-- A call that does not start a handshake.
abbrev pub StartsNone : {F : Type 0} → Call F → Type 0
StartsNone (call_start now_ms) = ⊥
StartsNone (call_reconnect now_ms) = ⊥
StartsNone c = Unit {0}

module _ (io : ByteTransport) where
  open io use {Transport}

  abbrev Idle : Session Transport → Type 0
  Idle s = is_live s.state ≡ false

  Idle-IsFlushStable : IsFlushStable io Idle
  Idle-IsFlushStable = record {
    of_refused = λ s t r e none h. h;
    of_written = λ s t n e fits h. h;
    of_stats = λ s stats h. h;
    of_error = λ s h. refl;
  }

  Idle-IsSendStable : IsSendStable io Idle
  Idle-IsSendStable = record {
    of_flush = Idle-IsFlushStable;
    of_enqueue = λ s packet frame n f fits h. h;
  }

  -- An acknowledgement is accepted in HELLO_SENT only.
  Idle-IsPollStable : (now : ℕ) → IsPollStable io now Idle
  Idle-IsPollStable now = record {
    of_flush = Idle-IsFlushStable;
    of_read = λ s t r e h. h;
    of_parser = λ s parser h. h;
    of_tracker = λ s tracker h. h;
    of_received = λ s h. h;
    of_negotiate = λ s p good h.
        absurd (let e = acceptable-state s.state s.config p good in let g = rw e at h in cc);
    of_expire = λ s live h. refl;
  }

module _ (fl : Binary32) (io : ByteTransport) where
  open io use {Transport}

  poll-Idle :
      (now_ms : Scalar) (s : Session Transport) → Idle io s → Idle io ((poll fl io now_ms s).0)
  unfolding poll
  poll-Idle now_ms s h =
      let (named, e) = validate_now-eq now_ms s in
      let validated : Idle io ((validate_now now_ms s).0) =
        ap (λ (t : Session Transport). is_live t.state) e ∙ h in
      after_bind (Idle io) (validate_now now_ms s) (poll_at fl io) validated
        (λ now f. poll_at-keeps fl io now (Idle io) (Idle-IsPollStable io now) _ validated)

  step_call-Idle :
      (c : Call fl.Float) (s : Session Transport)
      → StartsNone c
      → Idle io s
      → Idle io (step_call fl io c s)
  unfolding step_call
  step_call-Idle (call_start now_ms) s n h = elim n [ ]
  step_call-Idle (call_reconnect now_ms) s n h = elim n [ ]
  step_call-Idle (call_poll now_ms) s n h = poll-Idle now_ms s h
  step_call-Idle (call_sensor step_id payload) s n h =
      send_sensor-keeps fl io (Idle io) (Idle-IsSendStable io) step_id payload s h
  step_call-Idle (call_heartbeat step_id uptime_ms monotonic_ms state) s n h =
      send_heartbeat-keeps fl io (Idle io) (Idle-IsSendStable io) step_id uptime_ms monotonic_ms
        state s h
  step_call-Idle (call_route route_id points step_id loop_route) s n h =
      send_route-keeps fl io (Idle io) (Idle-IsSendStable io) route_id points step_id loop_route s h
  step_call-Idle (call_safe_stop reason detail step_id) s n h =
      request_safe_stop-keeps fl io (Idle io) (Idle-IsSendStable io) (λ s' k. refl) reason detail
        step_id s h
  step_call-Idle call_close s n h = unfold close_session in refl

  -- A session that neither waits for an acknowledgement nor is active, such as one that was
  -- stopped, has timed out or failed, becomes neither by any calls but those that start a handshake
  -- anew, whatever its peer sends.
  pub run_calls-Idle :
      (calls : List (Call fl.Float)) (s : Session Transport)
      → All StartsNone calls
      → is_live s.state ≡ false
      → is_live ((run_calls fl io calls s).state) ≡ false
  unfolding run_calls
  run_calls-Idle [] s n h = h
  run_calls-Idle (c ∷ calls) s (n, ns) h =
      run_calls-Idle calls (step_call fl io c s) ns (step_call-Idle c s n h)

  -- What notes no more than a time on a closed session, behind `_validate_now`.
  noted :
      {A : Type 0} (now_ms : Scalar) (next : ℕ → Run (Session Transport) A) (s : Session Transport)
      → s.state ≡ closed
      → ((now : ℕ) (v : Session Transport) → v.state ≡ closed → (next now v).0 ≡ v)
      → (named : Option ℕ) × ((continue_with next (validate_now now_ms s)).0
          ≡ record s { last_now_ms = named })
  noted now_ms next s e kept =
      let (named, same) = validate_now-eq now_ms s in
      let v = (validate_now now_ms s).0 in
      (
        named,
        after_bind (λ t. t ≡ record s { last_now_ms = named }) (validate_now now_ms s) next same
            (λ now f. kept now v (ap (λ (t : Session Transport). t.state) same ∙ e) ∙ same),
      )

  closed_active : (s : Session Transport) → s.state ≡ closed → is_active s.state ≡ false
  closed_active s e = rw e refl

  closed_closed : (s : Session Transport) → s.state ≡ closed → is_closed s.state ≡ true
  closed_closed s e = rw e refl

  closed_can_stop : (s : Session Transport) → s.state ≡ closed → can_stop s.state ≡ false
  closed_can_stop s e = rw e refl

  closed_request :
      (reason : SafeStopReason) (detail step_id : Scalar) (s : Session Transport)
      → s.state ≡ closed
      → (request_safe_stop fl io reason detail step_id s).0 ≡ s
  unfolding request_safe_stop
  closed_request reason detail step_id s e = simp (closed_can_stop s e)

  -- What `when_active` makes of a method's result.
  closed_when_active :
      (result : Session Transport × Answer (Unit {0})) (s : Session Transport)
      → s.state ≡ closed
      → (if is_active s.state then result else (s, failed session_error)).0 ≡ s
  closed_when_active result s e = simp (closed_active s e)

  closed_reconnect :
      (now_ms : Scalar) (s : Session Transport)
      → s.state ≡ closed
      → (reconnect fl io now_ms s).0 ≡ s
  unfolding reconnect
  closed_reconnect now_ms s e = simp (closed_closed s e)

  -- On a closed session no call but another close does more than note the time that it was given.
  pub step_call-closed :
      (c : Call fl.Float) (s : Session Transport)
      → s.state ≡ closed
      → c ≢ call_close
      → (named : Option ℕ) × (step_call fl io c s ≡ record s { last_now_ms = named })
  unfolding step_call start poll send_sensor send_heartbeat send_route
  step_call-closed (call_start now_ms) s e n =
      noted now_ms (start_at fl io) s e (λ now v k. simp (closed_closed v k))
  step_call-closed (call_reconnect now_ms) s e n = (s.last_now_ms, closed_reconnect now_ms s e)
  step_call-closed (call_poll now_ms) s e n =
      noted now_ms (poll_at fl io) s e (λ now v k. simp (closed_closed v k))
  step_call-closed (call_sensor step_id payload) s e n = (s.last_now_ms, closed_when_active _ s e)
  step_call-closed (call_heartbeat step_id uptime_ms monotonic_ms state) s e n =
      (s.last_now_ms, closed_when_active _ s e)
  step_call-closed (call_route route_id points step_id loop_route) s e n =
      (s.last_now_ms, closed_when_active _ s e)
  step_call-closed (call_safe_stop reason detail step_id) s e n =
      (s.last_now_ms, closed_request reason detail step_id s e)
  step_call-closed call_close s e n = absurd (n refl)
