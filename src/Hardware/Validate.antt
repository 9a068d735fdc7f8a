-- ===== src/Hardware/Validate.antt =====
-- `validate_transport` of host/src/navbench/hardware.py: the handshake, the exchange and the watchdog's
-- check.
use navbench.Common.{
  ℕ, zero, suc, Bool, true, false, Option, none, some, List, [], ◌∷◌, ◌++◌, if◌then◌else◌,
}
use navbench.Protocol.Value.{Binary32}
use navbench.Session.Run.{out_of_fuel, Answer, done, failed, Run, ◌>>=◌, ◌>>◌, pure, raise}
use navbench.Session.Types.{new_session}
use navbench.Hardware.Types.{
  Bench, HardwareConfig, HardwareValidationResult, handshake_failed, exchange_failed,
  watchdog_failed, success, handshake, normal_exchange, watchdog_check, complete,
  normal_frame_count, poll_period_s, watchdog_quiet_s, watchdog_minimum_s, lower, upper,
}
use navbench.Hardware.Responses.{
  Responses, ExchangeError, normal_exchange_error, Evidence, safe_stop_evidence,
}
use navbench.Hardware.Opening.{
  Events, State, clock, config_500, not_caught, poll_now, rescue, result_of, shake_hands, sleep,
}
use navbench.Hardware.Frames.{exchange}

module _ (fl : Binary32) (b : Bench) where
  -- The evidence with that of a poll's events, if enough time has passed.
  abbrev pub collect : Bool → List Evidence → Events fl b → List Evidence
  collect true evidence events = evidence ++ safe_stop_evidence normal_frame_count events
  collect false evidence events = evidence

  -- What is left of the quiet time, or the period of the polls.
  abbrev pub sleep_quiet : (quiet_s : b.Seconds) → Run (State fl b) (Unit {0})
  sleep_quiet quiet_s = clock fl b >>= λ now. sleep fl b (
      lower b (poll_period_s b)
        (upper b (b.of_milliseconds 0) (b.minus (watchdog_quiet_s b) (b.minus now quiet_s))))

  -- Enough time has passed at `now` for evidence to count.
  abbrev pub is_quiet : (quiet_s now : b.Seconds) → Bool
  is_quiet quiet_s now = b.at_most (watchdog_minimum_s b) (b.minus now quiet_s)

  -- `while clock() - quiet_started_s < _WATCHDOG_QUIET_S`, with the evidence so far.
  unfoldable pub watchdog_loop :
      ℕ → (started_s quiet_s : b.Seconds) → List Evidence → Run (State fl b) (List Evidence)
  watchdog_loop zero started_s quiet_s evidence = raise out_of_fuel
  watchdog_loop (suc fuel) started_s quiet_s evidence = clock fl b >>= λ now.
      if b.below (b.minus now quiet_s) (watchdog_quiet_s b)
      then (clock fl b >>= λ later. poll_now fl b started_s >>= λ events.
          sleep_quiet quiet_s
          >> watchdog_loop fuel started_s quiet_s
              (collect (is_quiet quiet_s later) evidence events))
      else pure evidence

  -- The last poll.
  abbrev pub watchdog_last :
      (started_s quiet_s : b.Seconds) → List Evidence → Run (State fl b) (List Evidence)
  watchdog_last started_s quiet_s evidence = clock fl b >>= λ now.
      if is_quiet quiet_s now
      then (poll_now fl b started_s >>= λ events. pure (collect true evidence events))
      else pure evidence

  abbrev pub verdict_of : List Evidence → HardwareValidationResult
  verdict_of [] = result_of watchdog_failed watchdog_check
  verdict_of (e ∷ evidence) = result_of success complete

  -- The watchdog's check.
  unfoldable pub watch :
      ℕ → (started_s quiet_s : b.Seconds) → Run (State fl b) HardwareValidationResult
  watch fuel started_s quiet_s s =
      rescue (not_caught fl b (done (result_of watchdog_failed watchdog_check))) (
        (watchdog_loop fuel started_s quiet_s [] >>= watchdog_last started_s quiet_s >>= λ evidence.
        pure (verdict_of evidence))
          s)

  -- Behind the exchange.
  abbrev pub after_exchange :
      ℕ
      → HardwareConfig
      → (started_s sent : b.Seconds) → Option ExchangeError
      → Run (State fl b) HardwareValidationResult
  after_exchange fuel config started_s sent (some e) =
      pure (result_of exchange_failed normal_exchange)
  after_exchange fuel config started_s sent none =
      if config.watchdog_check then watch fuel started_s sent else pure (result_of success complete)

  abbrev pub finish_exchange :
      ℕ
      → HardwareConfig
      → b.Seconds
      → State fl b × Answer (b.Seconds × Responses fl.Float)
      → State fl b × Answer HardwareValidationResult
  finish_exchange fuel config started_s (s, done (sent, r)) =
      after_exchange fuel config started_s sent (normal_exchange_error s r) s
  finish_exchange fuel config started_s (s, failed e) =
      (s, not_caught fl b (done (result_of exchange_failed normal_exchange)) e)

  abbrev pub after_handshake :
      ℕ → HardwareConfig → b.Seconds → Bool → Run (State fl b) HardwareValidationResult
  after_handshake fuel config started_s false s = (s, done (result_of handshake_failed handshake))
  after_handshake fuel config started_s true s =
      finish_exchange fuel config started_s (exchange fl b fuel started_s s)

  -- `validate_transport`; each loop has as many rounds as it is given.
  unfoldable pub validate_transport :
      ℕ → HardwareConfig → b.io.Transport → State fl b × Answer HardwareValidationResult
  validate_transport fuel config transport =
      (clock fl b >>= λ started_s.
      shake_hands fl b fuel started_s >>= after_handshake fuel config started_s)
        (new_session transport config_500)
