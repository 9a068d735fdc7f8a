-- ===== src/Hardware/Ends.antt =====
-- `validate_transport` (host/src/navbench/hardware.py) ends, if time passes.
use navbench.Common.{
  ℕ, zero, suc, ◌≤◌, ◌<◌, ◌≢◌, Bool, true, false, Option, none, some, List, [], arith,
}
use navbench.Protocol.Value.{Binary32}
use navbench.Session.Run.{
  Answer, done, failed, out_of_fuel, Run, ◌>>=◌, ◌>>◌, pure, Returns, Returns-bind, Returns-if,
  Returns-answer,
}
use navbench.Session.Types.{new_session}
use navbench.Hardware.Types.{
  Bench, HardwareConfig, HardwareValidationResult, watchdog_failed, watchdog_check, exchange_failed,
  normal_exchange, success, complete, watchdog_quiet_s,
}
use navbench.Hardware.Responses.{Responses, ExchangeError, Evidence, normal_exchange_error}
use navbench.Hardware.Opening.{State, Events, clock, config_500, result_of, poll_now, shake_hands}
use navbench.Hardware.Frames.{exchange}
use navbench.Hardware.Validate.{
  collect, sleep_quiet, is_quiet, watchdog_loop, watchdog_last, verdict_of, watch, after_exchange,
  finish_exchange, after_handshake, validate_transport,
}
use navbench.Hardware.Pacing.{Rank, Running, watch_pause, not_late, poll_now-Within}
use navbench.Hardware.Opens.{not_caught-Returns, rescued, shake_hands-Returns}
use navbench.Hardware.Exchanges.{Near, exchange-Near}

module _ (fl : Binary32) (b : Bench) where
  module _ (running : Running b) (fuel : ℕ) (enough : running.rounds < fuel) where
    watchdog_loop-Returns :
        (q : b.Seconds)
        (rank : Rank b (λ now. b.below (b.minus now q) (watchdog_quiet_s b)) (watch_pause b q))
        (rounds : ℕ) (started_s : b.Seconds) (evidence : List Evidence) (s : State fl b)
        → rank.left s.transport < rounds
        → Returns
            (λ (l : List Evidence) (s' : State fl b). Unit {0})
            (watchdog_loop fl b rounds started_s q evidence s)
    unfolding watchdog_loop
    watchdog_loop-Returns q rank zero started_s evidence s h = absurd (omega arith)
    watchdog_loop-Returns q rank (suc rounds) started_s evidence s h =
        let n = rank.left s.transport in
        let read = record s { transport = (b.clock s.transport).0 } in
        let again = record read { transport = (b.clock read.transport).0 } in
        let test = is_quiet fl b q ((b.clock read.transport).1) in
        let next : Events fl b → Run (State fl b) (List Evidence) = λ events.
          sleep_quiet fl b q
          >> watchdog_loop fl b rounds started_s q (collect fl b test evidence events) in
        Returns-if (λ l s'. Unit {0})
          (b.below (b.minus ((b.clock s.transport).1) q) (watchdog_quiet_s b))
          (clock fl b >>= λ later. poll_now fl b started_s >>= λ events.
            sleep_quiet fl b q
            >> watchdog_loop fl b rounds started_s q
                (collect fl b (is_quiet fl b q later) evidence events))
          (pure evidence) read
          (λ early.
            Returns-bind (λ events s'. rank.left s'.transport ≤ n) (λ l s'. Unit {0})
              (poll_now fl b started_s again) next
              (poll_now-Within fl b _ _ rank n started_s again
                (omega (arith, rank.look s.transport, rank.look ((b.clock s.transport).0))))
              (λ events s' k.
                watchdog_loop-Returns q rank rounds started_s (collect fl b test evidence events) _
                  (omega (
                    arith,
                    h,
                    k,
                    not_late fl b _ _ rank s.transport early,
                    rank.wait s'.transport,
                  ))))
          (λ late. tt)

    watchdog_last-Returns :
        (started_s q : b.Seconds) (evidence : List Evidence) (s : State fl b)
        → Returns
            (λ (l : List Evidence) (s' : State fl b). Unit {0})
            (watchdog_last fl b started_s q evidence s)
    watchdog_last-Returns started_s q evidence s =
        let rank = running.watches q in
        let read = record s { transport = (b.clock s.transport).0 } in
        let next : Events fl b → Run (State fl b) (List Evidence) =
          λ events. pure (collect fl b true evidence events) in
        Returns-if (λ l s'. Unit {0}) (is_quiet fl b q ((b.clock s.transport).1))
          (poll_now fl b started_s >>= next) (pure evidence) read
          (λ long.
            Returns-bind (λ events s'. rank.left s'.transport ≤ rank.left read.transport)
              (λ l s'. Unit {0}) (poll_now fl b started_s read) next
              (poll_now-Within fl b _ _ rank (rank.left read.transport) started_s read
                (omega arith))
              (λ events s' k. tt))
          (λ short. tt)

    abbrev AnyResult : HardwareValidationResult → State fl b → Type 0
    AnyResult r s = Unit {0}

    watch-Returns :
        (started_s q : b.Seconds) (s : State fl b)
        → (running.watches q).left s.transport ≤ running.rounds
        → Returns AnyResult (watch fl b fuel started_s q s)
    unfolding watch
    watch-Returns started_s q s h =
        let loop = watchdog_loop fl b fuel started_s q [] in
        let last = watchdog_last fl b started_s q in
        rescued fl b (result_of watchdog_failed watchdog_check)
          ((loop >>= last >>= λ evidence. pure (verdict_of fl b evidence)) s)
          (Returns-bind (λ l s'. Unit {0}) AnyResult ((loop >>= last) s)
            (λ evidence. pure (verdict_of fl b evidence))
            (Returns-bind (λ l s'. Unit {0}) (λ l s'. Unit {0}) (loop s) last
              (watchdog_loop-Returns q (running.watches q) fuel started_s [] s
                (omega (arith, enough, h)))
              (λ evidence s' k. watchdog_last-Returns started_s q evidence s'))
            (λ evidence s' k. tt))

    after_exchange-Returns :
        (config : HardwareConfig) (started_s sent : b.Seconds) (found : Option ExchangeError)
        (s : State fl b)
        → (running.watches sent).left s.transport ≤ running.rounds
        → Returns AnyResult (after_exchange fl b fuel config started_s sent found s)
    after_exchange-Returns config started_s sent (some e) s h = tt
    after_exchange-Returns config started_s sent none s h =
        Returns-if AnyResult config.watchdog_check (watch fl b fuel started_s sent)
          (pure (result_of success complete)) s (λ on. watch-Returns started_s sent s h) (λ off. tt)

    finish_exchange-Returns :
        (config : HardwareConfig) (started_s : b.Seconds)
        (result : State fl b × Answer (b.Seconds × Responses fl.Float))
        → Returns (Near fl b running fuel enough) result
        → Returns AnyResult (finish_exchange fl b fuel config started_s result)
    finish_exchange-Returns config started_s (s, done (sent, r)) h =
        after_exchange-Returns config started_s sent (normal_exchange_error s r) s h
    finish_exchange-Returns config started_s (s, failed e) h =
        not_caught-Returns fl b (result_of exchange_failed normal_exchange) e s h

    after_handshake-Returns :
        (config : HardwareConfig) (started_s : b.Seconds) (shaken : Bool) (s : State fl b)
        → Returns AnyResult (after_handshake fl b fuel config started_s shaken s)
    after_handshake-Returns config started_s false s = tt
    after_handshake-Returns config started_s true s =
        finish_exchange-Returns config started_s (exchange fl b fuel started_s s)
          (exchange-Near fl b running fuel enough started_s s)

    -- Where time passes, a validation ends, whatever the transport and the controller do: with more
    -- rounds for each loop than there are pauses up to a deadline, it returns a result or raises what
    -- the code raises.
    pub validate_transport_ends :
        (config : HardwareConfig) (t : b.io.Transport)
        → (validate_transport fl b fuel config t).1 ≢ failed out_of_fuel
    unfolding validate_transport
    validate_transport_ends config t =
        let s0 = new_session t config_500 in
        let started_s = (b.clock t).1 in
        Returns-answer AnyResult (validate_transport fl b fuel config t) (
          Returns-bind (λ h s'. Unit {0}) AnyResult
            (shake_hands fl b fuel started_s (record s0 { transport = (b.clock t).0 }))
            (after_handshake fl b fuel config started_s)
            (shake_hands-Returns fl b fuel started_s running _ enough)
            (λ h s' k. after_handshake-Returns config started_s h s'))
