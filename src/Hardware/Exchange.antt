-- ===== src/Hardware/Exchange.antt =====
-- What the exchange of `validate_transport` (host/src/navbench/hardware.py) holds of the responses.
use navbench.Common.{
  ℕ, zero, suc, ◌+◌, ◌≡◌, refl, false, Option, none, some, [], ◌++◌, arith, append_assoc,
  append-nil, All, All-append,
}
use navbench.Protocol.Value.{int, Binary32}
use navbench.Session.Run.{
  done, Ensures-eq, Ensures-weaken, Run, ◌>>=◌, ◌>>◌, pure, Ensures, Ensures-bind, Ensures-if,
}
use navbench.Session.Calls.{send_sensor}
use navbench.Session.Route.{send_route}
use navbench.Hardware.Types.{Bench, poll_period_s, frame_period_s, normal_frame_count}
use navbench.Hardware.Responses.{Responses, ResponseError, no_responses, consume}
use navbench.Hardware.Responses.Window.{
  OnTime, IsBacked, no_responses-IsBacked, consume-OnTime, consume-IsBacked,
}
use navbench.Hardware.Opening.{State, Events, clock, poll_now}
use navbench.Hardware.Frames.{
  or_session_error, poll_responses, sleep_until, frame_loop, exchange_frame, exchange_frames,
  exchange, stationary_sensor_frame, validation_route,
}
use navbench.Hardware.Trace.{Trace, NoCall, no_calls, clock_read, slept, poll_now-Trace}

module _ (fl : Binary32) (b : Bench) where
  -- The clock is read.
  abbrev pub at_clock : State fl b → State fl b
  at_clock s = record s { transport = (b.clock s.transport).0 }

  -- A session behind its first sensor frames, with the events since `s0`: the route was sent, then
  -- the frame of each step in order, and behind each frame polls only, whose events are on time for
  -- its step.
  pub data Frames (s0 : State fl b) : ℕ → Events fl b → State fl b → Type 0 where
    route_sent :
        {s : State fl b}
        → send_route fl b.io (int 1) (validation_route fl b) (int 0) false (at_clock s0)
          ≡ (s, done tt)
        → Frames s0 0 [] s
    frame_sent :
        {n : ℕ} {log events : Events fl b} {before start s : State fl b}
        → Frames s0 n log before
        → send_sensor fl b.io (int (n + 1)) (stationary_sensor_frame fl b (n + 1)) (at_clock before)
          ≡ (start, done tt)
        → Trace fl b NoCall start events s
        → All (OnTime (n + 1)) events
        → Frames s0 (n + 1) (log ++ events) s

  -- Behind the frame of one step.
  module _ (log : Events fl b) (start : State fl b) where
    -- Polls, with the responses that were heard.
    abbrev Holding : ℕ → Responses fl.Float → State fl b → Type 0
    Holding step_id r s =
        (events : Events fl b) × Trace fl b NoCall start events s
        × All (OnTime step_id) events
        × IsBacked (log ++ events) r

    consumed-Holding :
        (step_id : ℕ) (events more : Events fl b) (r : Responses fl.Float) (s : State fl b)
        (result : Responses fl.Float × Option ResponseError)
        → consume step_id more r ≡ result
        → Trace fl b NoCall start (events ++ more) s
        → All (OnTime step_id) events
        → IsBacked (log ++ events) r
        → Ensures (Holding step_id) (or_session_error fl b result s)
    consumed-Holding step_id events more r s (r', none) e k timely backed = (
      events ++ more,
      k,
      All-append _ events more timely (consume-OnTime step_id more r r' e),
      rw (append_assoc log events more) at
          (consume-IsBacked step_id more (log ++ events) r r' e backed),
    )
    consumed-Holding step_id events more r s (r', some f) e k timely backed = tt

    poll_responses-Holding :
        (started_s : b.Seconds) (step_id : ℕ) (r : Responses fl.Float) (s : State fl b)
        → Holding step_id r s
        → Ensures (Holding step_id) (poll_responses fl b started_s step_id r s)
    unfolding poll_responses
    poll_responses-Holding started_s step_id r s (events, h, timely, backed) =
        Ensures-bind
          (λ (more : Events fl b) (s' : State fl b). Trace fl b NoCall start (events ++ more) s')
          (Holding step_id) (poll_now fl b started_s s)
          (λ more. or_session_error fl b (consume step_id more r))
          (poll_now-Trace fl b NoCall start started_s events s h)
          (λ more s' k.
            consumed-Holding step_id events more r s' (consume step_id more r) refl k timely backed)

    frame_loop-Holding :
        (fuel : ℕ) (started_s deadline : b.Seconds) (step_id : ℕ) (r : Responses fl.Float)
        (s : State fl b)
        → Holding step_id r s
        → Ensures (Holding step_id) (frame_loop fl b fuel started_s deadline step_id r s)
    unfolding frame_loop
    frame_loop-Holding zero started_s deadline step_id r s h = tt
    frame_loop-Holding (suc fuel) started_s deadline step_id r s (events, h, timely, backed) =
        let next : Responses fl.Float → Run (State fl b) (Responses fl.Float) = λ heard.
          sleep_until fl b deadline (poll_period_s b)
          >> frame_loop fl b fuel started_s deadline step_id heard in
        let read = at_clock s in
        Ensures-if (Holding step_id) (b.below ((b.clock s.transport).1) deadline)
          (poll_responses fl b started_s step_id r >>= next) (pure r) read
          (λ early.
            Ensures-bind (Holding step_id) (Holding step_id)
              (poll_responses fl b started_s step_id r read) next
              (poll_responses-Holding started_s step_id r read
                (events, clock_read h, timely, backed))
              (λ heard s' (events', k, timely', backed').
                frame_loop-Holding fuel started_s deadline step_id heard _
                  (events', slept _ (clock_read k), timely', backed')))
          (λ late. (events, clock_read h, timely, backed))

  -- A session behind its first frames, with the responses that were heard.
  abbrev pub HoldingAt : State fl b → ℕ → b.Seconds × Responses fl.Float → State fl b → Type 0
  HoldingAt s0 n (sent, r) s = (log : Events fl b) × Frames s0 n log s × IsBacked log r

  exchange_frame-Holding :
      (s0 : State fl b) (fuel : ℕ) (started_s sent : b.Seconds) (n : ℕ) (r : Responses fl.Float)
      (s : State fl b)
      → HoldingAt s0 n (sent, r) s
      → Ensures (HoldingAt s0 (n + 1)) (exchange_frame fl b fuel started_s (n + 1) r s)
  unfolding exchange_frame
  exchange_frame-Holding s0 fuel started_s sent n r s (log, h, backed) =
      let call = send_sensor fl b.io (int (n + 1)) (stationary_sensor_frame fl b (n + 1)) in
      let Sending : Unit {0} → State fl b → Type 0 =
        λ u start. call (at_clock s) ≡ (start, done tt) in
      let Heard : Responses fl.Float → State fl b → Type 0 = λ heard s'.
        (start : State fl b) × (call (at_clock s) ≡ (start, done tt))
        × Holding log start (n + 1) heard s' in
      let loop : Run (State fl b) (Responses fl.Float) = clock fl b >>= λ now.
      frame_loop fl b fuel started_s (b.plus now (frame_period_s b)) (n + 1) r in
      let last = poll_responses fl b started_s (n + 1) in
      let answer = (b.clock s.transport).1 in
      Ensures-bind Heard (HoldingAt s0 (n + 1)) ((call >> loop) (at_clock s))
        (λ heard. last heard >>= λ all. pure (answer, all))
        (Ensures-bind Sending Heard (call (at_clock s)) (λ u. loop)
          (Ensures-eq Sending (call (at_clock s)) (λ u start e. e))
          (λ u start e.
            Ensures-weaken (Holding log start (n + 1)) Heard (loop start)
              (λ heard s' k. (start, e, k))
              (frame_loop-Holding log start fuel started_s _ (n + 1) r (at_clock start)
                ([], clock_read no_calls, tt, rw (append-nil log) backed))))
        (λ heard s' (start, e, k).
          Ensures-bind (Holding log start (n + 1)) (HoldingAt s0 (n + 1)) (last heard s')
            (λ all. pure (answer, all))
            (poll_responses-Holding log start started_s (n + 1) heard s' k)
            (λ all s'' (events, trace, timely, backed').
              (log ++ events, frame_sent h e trace timely, backed')))

  exchange_frames-Holding :
      (s0 : State fl b) (fuel : ℕ) (started_s : b.Seconds) (frames n : ℕ)
      (p : b.Seconds × Responses fl.Float) (s : State fl b)
      → HoldingAt s0 n p s
      → Ensures (HoldingAt s0 (frames + n)) (exchange_frames fl b fuel started_s frames (n + 1) p s)
  unfolding exchange_frames
  exchange_frames-Holding s0 fuel started_s zero n (sent, r) s h =
      let same : zero + n ≡ n = omega arith in rw same h
  exchange_frames-Holding s0 fuel started_s (suc frames) n (sent, r) s h = rw moved (
      Ensures-bind (HoldingAt s0 (n + 1)) (HoldingAt s0 (frames + (n + 1)))
        (exchange_frame fl b fuel started_s (n + 1) r s)
        (exchange_frames fl b fuel started_s frames (n + 1 + 1))
        (exchange_frame-Holding s0 fuel started_s sent n r s h)
        (λ p s' k. exchange_frames-Holding s0 fuel started_s frames (n + 1) p s' k))
    where
      moved : suc frames + n ≡ frames + (n + 1)
      moved = omega arith

  pub exchange-Holding :
      (s0 : State fl b) (fuel : ℕ) (started_s : b.Seconds)
      → Ensures (HoldingAt s0 normal_frame_count) (exchange fl b fuel started_s s0)
  unfolding exchange
  exchange-Holding s0 fuel started_s =
      let Sending : Unit {0} → State fl b → Type 0 = λ u start.
        send_route fl b.io (int 1) (validation_route fl b) (int 0) false (at_clock s0)
        ≡ (start, done tt) in
      let call = send_route fl b.io (int 1) (validation_route fl b) (int 0) false in
      let frames =
        exchange_frames fl b fuel started_s normal_frame_count 1
          ((b.clock s0.transport).1, no_responses) in
      Ensures-bind Sending (HoldingAt s0 normal_frame_count) (call (at_clock s0)) (λ u. frames)
        (Ensures-eq Sending (call (at_clock s0)) (λ u start e. e))
        (λ u start e.
          exchange_frames-Holding s0 fuel started_s normal_frame_count 0 _ start
            ([], route_sent e, no_responses-IsBacked))
