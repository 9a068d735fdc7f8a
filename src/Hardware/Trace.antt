-- ===== src/Hardware/Trace.antt =====
-- The calls that `validate_transport` (host/src/navbench/hardware.py) makes on its session, with the
-- events that its polls return.
use navbench.Common.{ℕ, ◌≡◌, Option, none, some, [], ◌++◌}
use navbench.Protocol.Value.{Scalar, Binary32}
use navbench.Session.Run.{Answer, done, failed, Ensures, Ensures-bind, Ensures-eq}
use navbench.Session.Poll.{poll}
use navbench.Session.Reach.{Call, call_start, call_reconnect, step_call}
use navbench.Hardware.Types.{Bench}
use navbench.Hardware.Opening.{State, Events, or_value_error, now_ms, poll_now}

-- The calls of a handshake.
abbrev pub OfHandshake : {F : Type 0} → Call F → Type 0
OfHandshake (call_start now_ms) = Unit {0}
OfHandshake (call_reconnect now_ms) = Unit {0}
OfHandshake c = ⊥

-- Polls only.
abbrev pub NoCall : {F : Type 0} → Call F → Type 0
NoCall c = ⊥

module _ (fl : Binary32) (b : Bench) (Allowed : Call fl.Float → Type 0) (s0 : State fl b) where
  -- From `s0` to a session by its polls, by calls of other methods that are allowed, of the clock
  -- and of the sleeper; the events are those of the polls that returned.
  pub data Trace : Events fl b → State fl b → Type 0 where
    no_calls : Trace [] s0
    clock_read :
        {log : Events fl b} {s : State fl b}
        → Trace log s
        → Trace log (record s { transport = (b.clock s.transport).0 })
    slept :
        {log : Events fl b} {s : State fl b} (seconds : b.Seconds)
        → Trace log s
        → Trace log (record s { transport = b.sleep seconds s.transport })
    called :
        {log : Events fl b} {s : State fl b} (c : Call fl.Float)
        → Allowed c
        → Trace log s
        → Trace log (step_call fl b.io c s)
    polled :
        {log events : Events fl b} {s s' : State fl b} (now : Scalar)
        → poll fl b.io now s ≡ (s', done events)
        → Trace log s
        → Trace (log ++ events) s'

  -- A session that is reached in this way.
  abbrev pub Reached : State fl b → Type 0
  Reached s = (log : Events fl b) × Trace log s

  pub now_ms-Trace :
      (started_s : b.Seconds) (log : Events fl b) (s : State fl b)
      → Trace log s
      → Ensures (λ (now : Scalar) (s' : State fl b). Trace log s') (now_ms fl b started_s s)
  now_ms-Trace started_s log s h =
      named (b.milliseconds (b.minus ((b.clock s.transport).1) started_s))
    where
      named :
          (now : Option ℕ)
          → Ensures
              (λ (n : Scalar) (s' : State fl b). Trace log s')
              (or_value_error fl b now (record s { transport = (b.clock s.transport).0 }))
      named none = tt
      named (some now) = clock_read h

  pub poll_now-Trace :
      (started_s : b.Seconds) (log : Events fl b) (s : State fl b)
      → Trace log s
      → Ensures
          (λ (events : Events fl b) (s' : State fl b). Trace (log ++ events) s')
          (poll_now fl b started_s s)
  poll_now-Trace started_s log s h =
      Ensures-bind _ (λ (events : Events fl b) (s' : State fl b). Trace (log ++ events) s')
        (now_ms fl b started_s s) (poll fl b.io) (now_ms-Trace started_s log s h)
        (λ now s' k. Ensures-eq _ (poll fl b.io now s') (λ events s'' e. polled now e k))

  -- A method that returned nothing.
  pub called-Trace :
      (c : Call fl.Float) (log : Events fl b) (s : State fl b)
      (result : State fl b × Answer (Unit {0}))
      → Allowed c
      → result.0 ≡ step_call fl b.io c s
      → Trace log s
      → Ensures (λ (u : Unit {0}) (s' : State fl b). Trace log s') result
  called-Trace c log s (s', done u) allowed e h = rw e (called c allowed h)
  called-Trace c log s (s', failed f) allowed e h = tt
