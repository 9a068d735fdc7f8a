-- ===== src/Hardware/Opens.antt =====
-- The handshake of `validate_transport` (host/src/navbench/hardware.py) ends, if time passes.
use navbench.Common.{ℕ, zero, suc, ◌≤◌, ◌<◌, ◌≢◌, Bool, false, Option, none, some, arith}
use navbench.Protocol.Value.{Scalar, Binary32}
use navbench.Session.Run.{
  SessionFailure, Answer, done, failed, out_of_fuel, session_error, transport_error, value_error,
  protocol_error, type_error, Run, ◌>>=◌, ◌>>◌, pure, Returns, Returns-bind, Returns-if,
}
use navbench.Session.Types.{
  SessionState, disconnected, hello_sent, active, timed_out, safe_stop, error, closed,
}
use navbench.Session.Calls.{start, reconnect}
use navbench.Session.Ends.{start-Ended}
use navbench.Session.Pace.{reconnect-Within}
use navbench.Hardware.Types.{Bench, poll_period_s, handshake_deadline_s}
use navbench.Hardware.Opening.{
  State, Events, clock, sleep, rescue, not_caught, now_ms, or_value_error, poll_now, Handshaken,
  after_poll, handshake_loop, handshake_verdict, is_over, rejected, shake_hands,
}
use navbench.Hardware.Pacing.{Rank, Running, Within, not_late, timed-Within, poll_now-Within}

module _ (fl : Binary32) (b : Bench) where
  module _ (d : b.Seconds)
      (rank : Rank b (λ now. b.at_most now d) (λ t. b.sleep (poll_period_s b) t)) where
    abbrev Over : Handshaken fl b → State fl b → Type 0
    Over h s = Unit {0}

    after_poll-Returns :
        (again : Run (State fl b) (Unit {0})) (next : Run (State fl b) (Handshaken fl b))
        (state : SessionState) (s : State fl b)
        → Returns Over ((again >> next) s)
        → Returns Over (next s)
        → Returns Over (after_poll fl b again next state s)
    after_poll-Returns again next active s retried waited = tt
    after_poll-Returns again next error s retried waited = tt
    after_poll-Returns again next timed_out s retried waited = retried
    after_poll-Returns again next disconnected s retried waited = waited
    after_poll-Returns again next hello_sent s retried waited = waited
    after_poll-Returns again next safe_stop s retried waited = waited
    after_poll-Returns again next closed s retried waited = waited

    handshake_loop-Returns :
        (fuel : ℕ) (started_s : b.Seconds) (s : State fl b)
        → rank.left s.transport < fuel
        → Returns Over (handshake_loop fl b fuel started_s d s)
    unfolding handshake_loop
    handshake_loop-Returns zero started_s s h = absurd (omega arith)
    handshake_loop-Returns (suc fuel) started_s s h =
        let n = rank.left s.transport in
        let T : b.Seconds → Bool = λ now. b.at_most now d in
        let P : b.io.Transport → b.io.Transport = λ t. b.sleep (poll_period_s b) t in
        let W : Events fl b → State fl b → Type 0 = λ events s'. Within fl b T P rank n events s' in
        let read = record s { transport = (b.clock s.transport).0 } in
        let wait = sleep fl b (poll_period_s b) >> handshake_loop fl b fuel started_s d in
        let retry = now_ms fl b started_s >>= reconnect fl b.io in
        let body : Events fl b → Run (State fl b) (Handshaken fl b) =
          λ events s'. after_poll fl b retry wait s'.state s' in
        Returns-if Over (b.at_most ((b.clock s.transport).1) d) (poll_now fl b started_s >>= body)
          (pure is_over) read
          (λ early.
            let waited : (s' : State fl b) (k : rank.left s'.transport ≤ n)
                → Returns Over (wait s') =
              λ s' k. handshake_loop-Returns fuel started_s _ (
                omega (
                  arith,
                  h,
                  k,
                  not_late fl b T P rank s.transport early,
                  rank.wait s'.transport,
                )) in
            Returns-bind W Over (poll_now fl b started_s read) body
              (poll_now-Within fl b T P rank n started_s read (rank.look s.transport))
              (λ events s' k.
                after_poll-Returns retry wait s'.state s'
                  (Returns-bind (λ u s''. rank.left s''.transport ≤ n) Over (retry s') (λ u. wait)
                    (timed-Within fl b T P rank n started_s (reconnect fl b.io) s'
                      (λ now s''. reconnect-Within fl b.io rank.left rank.quiet n now s'') k)
                    (λ u s'' l. waited s'' l))
                  (waited s' k)))
          (λ late. tt)

  pub not_caught-Returns :
      {A : Type 0} (a : A) (e : SessionFailure) (s : State fl b)
      → e ≢ out_of_fuel
      → Returns (λ (x : A) (s' : State fl b). Unit {0}) (s, not_caught fl b (done a) e)
  not_caught-Returns a session_error s h = tt
  not_caught-Returns a transport_error s h = tt
  not_caught-Returns a value_error s h = tt
  not_caught-Returns a (protocol_error code) s h = tt
  not_caught-Returns a type_error s h = h
  not_caught-Returns a out_of_fuel s h = h

  pub rescued :
      {A : Type 0} (a : A) (result : State fl b × Answer A)
      → Returns (λ (x : A) (s : State fl b). Unit {0}) result
      → Returns (λ (x : A) (s : State fl b). Unit {0}) (rescue (not_caught fl b (done a)) result)
  rescued a (s, done x) h = h
  rescued a (s, failed e) h = not_caught-Returns a e s h

  begun :
      (started_s : b.Seconds) (s : State fl b)
      → Returns
          (λ (u : Unit {0}) (s' : State fl b). Unit {0})
          ((now_ms fl b started_s >>= start fl b.io) s)
  begun started_s s =
      Returns-bind (λ now s'. Unit {0}) (λ u s'. Unit {0}) (now_ms fl b started_s s) (start fl b.io)
        (named (b.milliseconds (b.minus ((b.clock s.transport).1) started_s))
          (record s { transport = (b.clock s.transport).0 }))
        (λ now s' k. start-Ended fl b.io now s')
    where
      named :
          (now : Option ℕ) (s' : State fl b)
          → Returns (λ (n : Scalar) (s'' : State fl b). Unit {0}) (or_value_error fl b now s')
      named none s' = λ f. cc
      named (some now) s' = tt

  judged :
      (h : Handshaken fl b) (s : State fl b)
      → Returns (λ (x : Bool) (s' : State fl b). Unit {0}) (handshake_verdict fl b h s)
  judged is_over s = tt
  judged rejected s = tt

  pub shake_hands-Returns :
      (fuel : ℕ) (started_s : b.Seconds) (running : Running b) (s : State fl b)
      → running.rounds < fuel
      → Returns (λ (h : Bool) (s' : State fl b). Unit {0}) (shake_hands fl b fuel started_s s)
  unfolding shake_hands
  shake_hands-Returns fuel started_s running s enough =
      let wait : Run (State fl b) (Handshaken fl b) = clock fl b >>= λ now.
      handshake_loop fl b fuel started_s (b.plus now (handshake_deadline_s b)) in
      let begin = now_ms fl b started_s >>= start fl b.io in
      rescued false ((begin >> wait >>= handshake_verdict fl b) s) (
        Returns-bind (λ h s'. Unit {0}) (λ h s'. Unit {0}) ((begin >> wait) s)
          (handshake_verdict fl b)
          (Returns-bind (λ u s'. Unit {0}) (λ h s'. Unit {0}) (begin s) (λ u. wait)
            (begun started_s s)
            (λ u s' k.
              handshake_loop-Returns _ (running.handshakes _) fuel started_s _
                (omega (arith, enough, running.near_handshake s'.transport))))
          (λ h s' k. judged h s'))
