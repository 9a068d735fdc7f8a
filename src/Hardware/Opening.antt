-- ===== src/Hardware/Opening.antt =====
-- The handshake of `validate_transport` of host/src/navbench/hardware.py, and its reads of the clock.
use navbench.Common.{ℕ, zero, suc, Bool, true, false, Option, none, some, List, if◌then◌else◌}
use navbench.Protocol.Value.{Scalar, int, Binary32}
use navbench.Session.Run.{
  SessionFailure, value_error, type_error, out_of_fuel, Answer, done, failed, Run, ◌>>=◌, ◌>>◌,
  pure, raise, modify,
}
use navbench.Session.Types.{
  SessionState, SessionConfig, Session, SessionEvent, supported_capabilities, active, error,
  timed_out,
}
use navbench.Session.Send.{is_active}
use navbench.Session.Calls.{start, reconnect}
use navbench.Session.Poll.{poll}
use navbench.Hardware.Types.{
  Bench, HardwareExitCode, Phase, HardwareValidationResult, session_timeout_ms,
  handshake_deadline_s, poll_period_s,
}

-- The exceptions that `except (SessionError, TransportError, ValueError)` names; a ProtocolError is a
-- ValueError.
abbrev pub is_caught : SessionFailure → Bool
is_caught type_error = false
is_caught out_of_fuel = false
is_caught e = true

abbrev pub config_500 : SessionConfig
config_500 = record {
  timeout_ms = session_timeout_ms;
  max_reads_per_poll = 32;
  max_tx_buffer = 4096;
  required_capabilities = supported_capabilities;
}

abbrev pub result_of : HardwareExitCode → Phase → HardwareValidationResult
result_of code phase = record { exit_code = code; phase = phase }

module _ {S A : Type 0} where
  -- `try` with such an `except`.
  abbrev pub rescue : (SessionFailure → Answer A) → S × Answer A → S × Answer A
  rescue handler (s, done a) = (s, done a)
  rescue handler (s, failed e) = (s, handler e)

module _ (fl : Binary32) (b : Bench) where
  abbrev pub State : Type 0
  State = Session (b.io.Transport)

  abbrev pub Events : Type 0
  Events = List (SessionEvent fl.Float)

  -- `clock()` and `sleep(...)`
  abbrev pub clock : Run State b.Seconds
  clock s = (record s { transport = (b.clock s.transport).0 }, done ((b.clock s.transport).1))

  abbrev pub sleep : b.Seconds → Run State (Unit {0})
  sleep seconds = modify (λ s. record s { transport = b.sleep seconds s.transport })

  abbrev pub or_value_error : Option ℕ → Run State Scalar
  or_value_error none s = (s, failed value_error)
  or_value_error (some now) s = (s, done (int now))

  -- The local function `now_ms`.
  abbrev pub now_ms : b.Seconds → Run State Scalar
  now_ms started_s = clock >>= λ now. or_value_error (b.milliseconds (b.minus now started_s))

  abbrev pub poll_now : b.Seconds → Run State Events
  poll_now started_s = now_ms started_s >>= poll fl b.io

  -- How the loop of the handshake is left.
  pub data Handshaken : Type 0 where
    is_over rejected : Handshaken

  abbrev pub after_poll :
      Run State (Unit {0}) → Run State Handshaken → SessionState → Run State Handshaken
  after_poll again next active = pure is_over
  after_poll again next error = pure rejected
  after_poll again next timed_out = again >> next
  after_poll again next state = next

  -- `while clock() <= handshake_deadline`
  unfoldable pub handshake_loop : ℕ → (started_s deadline : b.Seconds) → Run State Handshaken
  handshake_loop zero started_s deadline = raise out_of_fuel
  handshake_loop (suc fuel) started_s deadline =
      let wait = sleep (poll_period_s b) >> handshake_loop fuel started_s deadline in
      clock >>= λ now.
      if b.at_most now deadline
      then (poll_now started_s >>= λ events s.
          after_poll (now_ms started_s >>= reconnect fl b.io) wait s.state s)
      else pure is_over

  -- The tests behind the loop: None, or the failure.
  abbrev pub handshake_verdict : Handshaken → Run State Bool
  handshake_verdict rejected s = (s, done false)
  handshake_verdict is_over s = (s, done (is_active s.state))

  abbrev pub not_caught : {A : Type 0} → Answer A → SessionFailure → Answer A
  not_caught answer e = if is_caught e then answer else failed e

  -- Whether the handshake succeeds.
  unfoldable pub shake_hands : ℕ → b.Seconds → Run State Bool
  shake_hands fuel started_s s = rescue (not_caught (done false)) (
      (now_ms started_s
          >>= start fl b.io
          >> (clock >>= λ now. handshake_loop fuel started_s (b.plus now (handshake_deadline_s b)))
          >>= handshake_verdict)
        s)
