-- ===== src/Hardware/Answered.antt =====
-- What `_normal_exchange_error` (host/src/navbench/hardware.py) accepts.
use navbench.Common.{
  ◌≡◌, ◌≢◌, ap, arith, refl, Bool, true, false, not, Option, none, some, if◌then◌else◌,
}
use navbench.Protocol.Value.{Binary32}
use navbench.Protocol.Enums.{ControlMode, NavigationMode, RuntimeState}
use navbench.Protocol.Payload.Types.{
  TypedPayload, ControlCommandPayload, StateEstimatePayload, HealthStatusPayload,
}
use navbench.Protocol.Stream.{ParserStats}
use navbench.Session.Types.{SessionStats}
use navbench.Hardware.Types.{Bench}
use navbench.Hardware.Responses.{
  Responses, ExchangeError, is_stop, is_aided, is_running, has_errors, check_responses,
  check_received,
}
use navbench.Hardware.Responses.Window.{Heard, IsBacked}
use navbench.Hardware.Opening.{Events}

moving_mode : (m : ControlMode) → is_stop m ≡ false → m ≢ ControlMode.safe_stop
moving_mode m h e = let same : is_stop m ≡ true = ap is_stop e in absurd cc

aided_mode : (m : NavigationMode) → is_aided m ≡ true → m ≡ NavigationMode.gnss_aided
aided_mode NavigationMode.gnss_aided h = refl
aided_mode _ h = absurd cc

running_state : (m : RuntimeState) → is_running m ≡ true → m ≡ RuntimeState.running
running_state RuntimeState.running h = refl
running_state _ h = absurd cc

-- No error of the parser or the session is counted.
abbrev pub IsClean : ParserStats → SessionStats → Type 0
IsClean parser stats =
    (parser.cobs_errors ≡ 0)
    × (parser.crc_errors ≡ 0)
    × (parser.length_errors ≡ 0)
    × (parser.oversized_frames ≡ 0)
    × (parser.truncated_frames ≡ 0)
    × (stats.rx_payload_errors ≡ 0)
    × (stats.rx_rejected ≡ 0)

no_errors :
    (parser : ParserStats) (stats : SessionStats)
    → has_errors parser stats ≡ false
    → IsClean parser stats
no_errors parser stats h = ground arith

module _ (fl : Binary32) (b : Bench) where
  -- The responses that a normal exchange wants, each of them heard.
  abbrev pub Answered : Events fl b → Type 0
  Answered log =
      (command : ControlCommandPayload fl.Float) × (estimate : StateEstimatePayload fl.Float)
      × (health : HealthStatusPayload fl.Float) × Heard log (TypedPayload.control_command command)
      × Heard log (TypedPayload.state_estimate estimate)
      × Heard log (TypedPayload.health_status health)
      × (command.mode ≢ ControlMode.safe_stop)
      × (estimate.navigation_mode ≡ NavigationMode.gnss_aided)
      × (health.runtime_state ≡ RuntimeState.running)

  check_responses-none :
      (c : ControlCommandPayload fl.Float) (e : StateEstimatePayload fl.Float)
      (h : HealthStatusPayload fl.Float) (parser : ParserStats) (stats : SessionStats)
      → check_responses c e h parser stats ≡ none
      → (is_stop c.mode ≡ false)
        × (is_aided e.navigation_mode ≡ true)
        × (is_running h.runtime_state ≡ true)
        × (has_errors parser stats ≡ false)
  check_responses-none c e h parser stats k =
      passed (is_stop c.mode) (is_aided e.navigation_mode) (is_running h.runtime_state)
        (has_errors parser stats) k
    where
      passed :
          (p q r t : Bool)
          → (if p
              then some ExchangeError.unexpected_stop
              else if not q
              then some ExchangeError.not_aided
              else if not r
              then some ExchangeError.not_running
              else if t
              then some ExchangeError.rejected
              else none)
            ≡ none
          → (p ≡ false) × (q ≡ true) × (r ≡ true) × (t ≡ false)
      passed true q r t k = absurd cc
      passed false false r t k = absurd cc
      passed false true false t k = absurd cc
      passed false true true true k = absurd cc
      passed false true true false k = (refl, refl, refl, refl)

  pub exchange-Answered :
      (log : Events fl b) (r : Responses fl.Float) (parser : ParserStats) (stats : SessionStats)
      (command : Option (ControlCommandPayload fl.Float))
      (estimate : Option (StateEstimatePayload fl.Float))
      (health : Option (HealthStatusPayload fl.Float))
      → r.command ≡ command
      → r.estimate ≡ estimate
      → r.health ≡ health
      → IsBacked log r
      → check_received command estimate health parser stats ≡ none
      → Answered log × IsClean parser stats
  exchange-Answered log r parser stats none estimate health e e' e'' backed k = absurd cc
  exchange-Answered log r parser stats (some c) none health e e' e'' backed k = absurd cc
  exchange-Answered log r parser stats (some c) (some m) none e e' e'' backed k = absurd cc
  exchange-Answered log r parser stats (some c) (some m) (some h) e e' e'' backed k =
      let (moving, aided, running, clean) = check_responses-none c m h parser stats k in
      (
        (
          c,
          m,
          h,
          backed.commands c e,
          backed.estimates m e',
          backed.healths h e'',
          moving_mode c.mode moving,
          aided_mode m.navigation_mode aided,
          running_state h.runtime_state running,
        ),
        no_errors parser stats clean,
      )
