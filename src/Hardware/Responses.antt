-- ===== src/Hardware/Responses.antt =====
-- What host/src/navbench/hardware.py makes of a controller's responses: `_ResponseAccumulator`,
-- `_normal_exchange_error` and `_safe_stop_evidence`.
pub mod Window
use navbench.Common.{
  ℕ, ◌+◌, ◌-◌, Bool, true, false, ◌||◌, ◌&&◌, not, Option, none, some, List, [], ◌∷◌, ◌++◌, ltb,
  ◌==◌, if◌then◌else◌,
}
use navbench.Protocol.Value.{value}
use navbench.Protocol.Enums.{
  MessageType, ControlMode, NavigationMode, RuntimeState, ApplicationErrorCode,
}
use navbench.Protocol.Payload.Types.{
  TypedPayload, ControlCommandPayload, StateEstimatePayload, HealthStatusPayload, ErrorPayload,
}
use navbench.Protocol.Stream.{ParserStats}
use navbench.Session.Types.{Session, SessionEvent, SessionStats}
use navbench.Hardware.Types.{maximum_response_lag_steps}

-- What `consume` returns in place of None.
pub data ResponseError : Type 0 where
  firmware_error : ErrorPayload → ResponseError
  future_step stale_step : ResponseError

-- `_ResponseAccumulator`
pub record Responses (F : Type 0) : Type 0 where
  pub command : Option (ControlCommandPayload F)
  pub estimate : Option (StateEstimatePayload F)
  pub health : Option (HealthStatusPayload F)
  pub command_count : ℕ
  pub estimate_count : ℕ
  pub health_count : ℕ

abbrev pub is_response : MessageType → Bool
is_response MessageType.control_command = true
is_response MessageType.state_estimate = true
is_response _ = false

-- A step after the current one, or too far behind it.
abbrev pub step_error : (current step : ℕ) → Option ResponseError
step_error current step =
    if ltb current step
    then some future_step
    else if ltb maximum_response_lag_steps (current - step)
    then some stale_step
    else none

-- The failures of `_normal_exchange_error`, but for those of the counters.
pub data ExchangeError : Type 0 where
  no_command no_estimate no_health unexpected_stop not_aided not_running rejected : ExchangeError

abbrev pub is_stop : ControlMode → Bool
is_stop ControlMode.safe_stop = true
is_stop _ = false

abbrev pub is_aided : NavigationMode → Bool
is_aided NavigationMode.gnss_aided = true
is_aided _ = false

abbrev pub is_running : RuntimeState → Bool
is_running RuntimeState.running = true
is_running _ = false

abbrev pub is_stopped : RuntimeState → Bool
is_stopped RuntimeState.safe_stop = true
is_stopped _ = false

abbrev pub has_errors : ParserStats → SessionStats → Bool
has_errors p s =
    not (p.cobs_errors == 0)
    || (not (p.crc_errors == 0)
        || (not (p.length_errors == 0)
            || (not (p.oversized_frames == 0)
                || (not (p.truncated_frames == 0)
                    || (not (s.rx_payload_errors == 0) || not (s.rx_rejected == 0))))))

pub data Evidence : Type 0 where
  command_stop health_stop : Evidence

abbrev pub in_window : (current step : ℕ) → Bool
in_window current step = not (ltb current step || ltb maximum_response_lag_steps (current - step))

module _ {F : Type 0} where
  abbrev pub no_responses : Responses F
  no_responses = record {
    command = none;
    estimate = none;
    health = none;
    command_count = 0;
    estimate_count = 0;
    health_count = 0;
  }

  -- The tests on an event, in order.
  abbrev pub event_error : ℕ → SessionEvent F → TypedPayload F → Option ResponseError
  event_error current event (TypedPayload.error p) = some (firmware_error p)
  event_error current event payload =
      if is_response event.packet.message_type
      then step_error current (value event.packet.step_id)
      else none

  abbrev pub note : TypedPayload F → Responses F → Responses F
  note (TypedPayload.control_command p) r = record r {
    command = some p;
    command_count = r.command_count + 1;
  }
  note (TypedPayload.state_estimate p) r = record r {
    estimate = some p;
    estimate_count = r.estimate_count + 1;
  }
  note (TypedPayload.health_status p) r = record r {
    health = some p;
    health_count = r.health_count + 1;
  }
  note payload r = r

  abbrev pub note_unless :
      (Responses F → Responses F × Option ResponseError)
      → TypedPayload F
      → Responses F
      → Option ResponseError
      → Responses F × Option ResponseError
  note_unless next payload r (some e) = (r, some e)
  note_unless next payload r none = next (note payload r)

  -- `consume`
  unfoldable pub consume :
      ℕ → List (SessionEvent F) → Responses F → Responses F × Option ResponseError
  consume current [] r = (r, none)
  consume current (event ∷ events) r =
      note_unless (consume current events) event.payload r (event_error current event event.payload)

  -- The tests behind those for a missing response.
  abbrev pub check_responses :
      ControlCommandPayload F
      → StateEstimatePayload F
      → HealthStatusPayload F
      → ParserStats
      → SessionStats
      → Option ExchangeError
  check_responses command estimate health parser stats =
      if is_stop command.mode
      then some unexpected_stop
      else if not (is_aided estimate.navigation_mode)
      then some not_aided
      else if not (is_running health.runtime_state)
      then some not_running
      else if has_errors parser stats
      then some rejected
      else none

  abbrev pub check_received :
      Option (ControlCommandPayload F)
      → Option (StateEstimatePayload F)
      → Option (HealthStatusPayload F)
      → ParserStats
      → SessionStats
      → Option ExchangeError
  check_received none estimate health parser stats = some no_command
  check_received (some c) none health parser stats = some no_estimate
  check_received (some c) (some e) none parser stats = some no_health
  check_received (some c) (some e) (some h) parser stats = check_responses c e h parser stats

  -- `_normal_exchange_error`
  unfoldable pub normal_exchange_error :
      {T : Type 0} → Session T → Responses F → Option ExchangeError
  normal_exchange_error session r =
      check_received r.command r.estimate r.health session.parser.stats session.stats

  abbrev pub stop_evidence : TypedPayload F → List Evidence
  stop_evidence (TypedPayload.control_command p) = if is_stop p.mode then command_stop ∷ [] else []
  stop_evidence (TypedPayload.health_status p) =
      if is_stopped p.runtime_state then health_stop ∷ [] else []
  stop_evidence payload = []

  -- `_safe_stop_evidence`
  unfoldable pub safe_stop_evidence : ℕ → List (SessionEvent F) → List Evidence
  safe_stop_evidence current [] = []
  safe_stop_evidence current (event ∷ events) =
      let rest = safe_stop_evidence current events in
      if in_window current (value event.packet.step_id)
      then stop_evidence event.payload ++ rest
      else rest
