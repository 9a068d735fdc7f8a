-- ===== src/Hardware/Handshaking.antt =====
-- What the handshake of `validate_transport` (host/src/navbench/hardware.py) leads to.
use navbench.Common.{ℕ, zero, suc, ◌≡◌, refl, Bool, true, false, ◌++◌}
use navbench.Protocol.Value.{Scalar, Binary32}
use navbench.Session.Run.{
  SessionFailure, session_error, transport_error, value_error, protocol_error, type_error,
  out_of_fuel, Answer, done, failed, Run, ◌>>=◌, ◌>>◌, pure, Ensures, Ensures-bind, Ensures-if,
}
use navbench.Session.Types.{
  SessionState, disconnected, hello_sent, active, timed_out, safe_stop, error, closed,
}
use navbench.Session.Send.{is_active}
use navbench.Session.Calls.{start, reconnect}
use navbench.Session.Reach.{Call, call_start, call_reconnect, step_call}
use navbench.Hardware.Types.{Bench, handshake_deadline_s, poll_period_s}
use navbench.Hardware.Opening.{
  State, Events, clock, sleep, now_ms, poll_now, Handshaken, is_over, rejected, after_poll,
  handshake_loop, handshake_verdict, shake_hands, not_caught, rescue,
}
use navbench.Hardware.Trace.{
  Trace, OfHandshake, clock_read, slept, Reached, now_ms-Trace, poll_now-Trace, called-Trace,
}

module _ (fl : Binary32) (b : Bench) (s0 : State fl b) where
  after_poll-Ensures :
      (Q : Handshaken fl b → State fl b → Type 0) (again : Run (State fl b) (Unit {0}))
      (next : Run (State fl b) (Handshaken fl b)) (state : SessionState) (s : State fl b)
      → Q is_over s
      → Q rejected s
      → Ensures Q ((again >> next) s)
      → Ensures Q (next s)
      → Ensures Q (after_poll fl b again next state s)
  after_poll-Ensures Q again next active s over refused retried waited = over
  after_poll-Ensures Q again next error s over refused retried waited = refused
  after_poll-Ensures Q again next timed_out s over refused retried waited = retried
  after_poll-Ensures Q again next disconnected s over refused retried waited = waited
  after_poll-Ensures Q again next hello_sent s over refused retried waited = waited
  after_poll-Ensures Q again next safe_stop s over refused retried waited = waited
  after_poll-Ensures Q again next closed s over refused retried waited = waited

  -- A method that is given the time.
  timed-Trace :
      (started_s : b.Seconds) (call : Scalar → Call fl.Float)
      (method : Scalar → Run (State fl b) (Unit {0})) (log : Events fl b) (s : State fl b)
      → ((now : Scalar) → OfHandshake (call now))
      → ((now : Scalar) (s' : State fl b) → (method now s').0 ≡ step_call fl b.io (call now) s')
      → Trace fl b OfHandshake s0 log s
      → Ensures
          (λ (u : Unit {0}) (s' : State fl b). Trace fl b OfHandshake s0 log s')
          ((now_ms fl b started_s >>= method) s)
  timed-Trace started_s call method log s allowed same h =
      Ensures-bind _ (λ (u : Unit {0}) (s' : State fl b). Trace fl b OfHandshake s0 log s')
        (now_ms fl b started_s s) method (now_ms-Trace fl b OfHandshake s0 started_s log s h)
        (λ now s' k.
          called-Trace fl b OfHandshake s0 (call now) log s' (method now s') (allowed now)
            (same now s') k)

  handshake_loop-Trace :
      (fuel : ℕ) (started_s deadline : b.Seconds) (s : State fl b)
      → Reached fl b OfHandshake s0 s
      → Ensures
          (λ (h : Handshaken fl b) (s' : State fl b). Reached fl b OfHandshake s0 s')
          (handshake_loop fl b fuel started_s deadline s)
  unfolding handshake_loop step_call
  handshake_loop-Trace zero started_s deadline s r = tt
  handshake_loop-Trace (suc fuel) started_s deadline s (log, h) =
      let Q = λ (h : Handshaken fl b) (s' : State fl b). Reached fl b OfHandshake s0 s' in
      let waited : (s' : State fl b) (log' : Events fl b) (k : Trace fl b OfHandshake s0 log' s')
          → Ensures Q
              ((sleep fl b (poll_period_s b) >> handshake_loop fl b fuel started_s deadline) s') =
        λ s' log' k.
          handshake_loop-Trace fuel started_s deadline _ (log', slept (poll_period_s b) k) in
      let wait = sleep fl b (poll_period_s b) >> handshake_loop fl b fuel started_s deadline in
      let retry = now_ms fl b started_s >>= reconnect fl b.io in
      let body : Events fl b → Run (State fl b) (Handshaken fl b) =
        λ events s'. after_poll fl b retry wait s'.state s' in
      let read = record s { transport = (b.clock s.transport).0 } in
      Ensures-if Q (b.at_most ((b.clock s.transport).1) deadline) (poll_now fl b started_s >>= body)
        (pure is_over) read
        (λ early.
          Ensures-bind
            (λ (events : Events fl b) (s' : State fl b).
              Trace fl b OfHandshake s0 (log ++ events) s')
            Q (poll_now fl b started_s read) body
            (poll_now-Trace fl b OfHandshake s0 started_s log read (clock_read h))
            (λ events s' k.
              after_poll-Ensures Q retry wait s'.state s' (log ++ events, k) (log ++ events, k)
                (Ensures-bind
                  (λ (u : Unit {0}) (s'' : State fl b).
                    Trace fl b OfHandshake s0 (log ++ events) s'')
                  Q (retry s') (λ u. wait)
                  (timed-Trace started_s call_reconnect (reconnect fl b.io) (log ++ events) s'
                    (λ now. tt) (λ now t. refl) k)
                  (λ u s'' l. waited s'' (log ++ events) l))
                (waited s' (log ++ events) k)))
        (λ late. (log, clock_read h))

  pub not_caught-Ensures :
      {A : Type 0} (Q : A → State fl b → Type 0) (a : A) (e : SessionFailure) (s : State fl b)
      → Q a s
      → Ensures Q (s, not_caught fl b (done a) e)
  not_caught-Ensures Q a session_error s h = h
  not_caught-Ensures Q a transport_error s h = h
  not_caught-Ensures Q a value_error s h = h
  not_caught-Ensures Q a (protocol_error code) s h = h
  not_caught-Ensures Q a type_error s h = tt
  not_caught-Ensures Q a out_of_fuel s h = tt

  pub rescue-Ensures :
      {A : Type 0} (Q : A → State fl b → Type 0) (a : A) (result : State fl b × Answer A)
      → Ensures Q result
      → ((s : State fl b) → Q a s)
      → Ensures Q (rescue (not_caught fl b (done a)) result)
  rescue-Ensures Q a (s, done x) h otherwise = h
  rescue-Ensures Q a (s, failed e) h otherwise = not_caught-Ensures Q a e s (otherwise s)

  -- A handshake that succeeds leaves an active session.
  unfoldable pub Shaken : Bool → State fl b → Type 0
  Shaken false s = Unit {0}
  Shaken true s = Reached fl b OfHandshake s0 s × (is_active s.state ≡ true)

  verdict-Shaken :
      (h : Handshaken fl b) (s : State fl b)
      → Reached fl b OfHandshake s0 s
      → Ensures Shaken (handshake_verdict fl b h s)
  unfolding Shaken
  verdict-Shaken rejected s r = tt
  verdict-Shaken is_over s r = judged (is_active s.state) refl
    where
      judged : (test : Bool) → is_active s.state ≡ test → Ensures Shaken (s, done test)
      judged true e = (r, e)
      judged false e = tt

  pub shake_hands-Shaken :
      (fuel : ℕ) (started_s : b.Seconds) (s : State fl b)
      → Reached fl b OfHandshake s0 s
      → Ensures Shaken (shake_hands fl b fuel started_s s)
  unfolding shake_hands Shaken step_call
  shake_hands-Shaken fuel started_s s (log, h) =
      let begin = now_ms fl b started_s >>= start fl b.io in
      let wait : Run (State fl b) (Handshaken fl b) = clock fl b >>= λ now.
      handshake_loop fl b fuel started_s (b.plus now (handshake_deadline_s b)) in
      rescue-Ensures Shaken false ((begin >> wait >>= handshake_verdict fl b) s)
        (Ensures-bind (λ (h : Handshaken fl b) (s' : State fl b). Reached fl b OfHandshake s0 s')
          Shaken ((begin >> wait) s) (handshake_verdict fl b)
          (Ensures-bind (λ (u : Unit {0}) (s' : State fl b). Trace fl b OfHandshake s0 log s')
            (λ (h : Handshaken fl b) (s' : State fl b). Reached fl b OfHandshake s0 s') (begin s)
            (λ u. wait)
            (timed-Trace started_s call_start (start fl b.io) log s (λ now. tt) (λ now t. refl) h)
            (λ u s' k. handshake_loop-Trace fuel started_s _ _ (log, clock_read k)))
          verdict-Shaken)
        (λ s'. tt)
