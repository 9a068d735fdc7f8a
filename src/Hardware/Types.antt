-- ===== src/Hardware/Types.antt =====
-- The data of host/src/navbench/hardware.py, and what it asks of the clock. Seconds are floats: the
-- type and its operations are a parameter.
use navbench.Common.{ℕ, Bool, Option, if◌then◌else◌}
use navbench.Transport.Interface.{ByteTransport}

pub data HardwareExitCode : Type 0 where
  success port_open_failed handshake_failed exchange_failed watchdog_failed diagnostic_failed :
      HardwareExitCode

pub data Phase : Type 0 where
  port_open port_prepare handshake normal_exchange watchdog_check complete : Phase
  diagnostic diagnostic_usb diagnostic_protocol : Phase

-- The fields of a `HardwareConfig` that decide.
pub record HardwareConfig : Type 0 where
  pub watchdog_check : Bool

pub record HardwareValidationResult : Type 0 where
  pub exit_code : HardwareExitCode
  pub phase : Phase

-- A transport with the clock and the sleeper that the caller hands over: both act on the state that
-- stands behind the transport. `Seconds` are Python floats.
pub record Bench : Type 1 where
  pub io : ByteTransport
  pub Seconds : Type 0
  pub clock : io.Transport → io.Transport × Seconds
  pub sleep : Seconds → io.Transport → io.Transport
  -- x + y and x - y
  pub plus : Seconds → Seconds → Seconds
  pub minus : Seconds → Seconds → Seconds
  -- x <= y and x < y
  pub at_most : Seconds → Seconds → Bool
  pub below : Seconds → Seconds → Bool
  -- int(x * 1000.0), of a finite x that is not negative
  pub milliseconds : Seconds → Option ℕ
  -- the float nearest to a number of milliseconds
  pub of_milliseconds : ℕ → Seconds

abbrev pub session_timeout_ms : ℕ
session_timeout_ms = 500

abbrev pub normal_frame_count : ℕ
normal_frame_count = 10

abbrev pub maximum_response_lag_steps : ℕ
maximum_response_lag_steps = 5

module _ (b : Bench) where
  abbrev pub handshake_deadline_s : b.Seconds
  handshake_deadline_s = b.of_milliseconds 3000

  abbrev pub frame_period_s : b.Seconds
  frame_period_s = b.of_milliseconds 20

  abbrev pub poll_period_s : b.Seconds
  poll_period_s = b.of_milliseconds 5

  abbrev pub watchdog_quiet_s : b.Seconds
  watchdog_quiet_s = b.of_milliseconds 600

  abbrev pub watchdog_minimum_s : b.Seconds
  watchdog_minimum_s = b.of_milliseconds 500

  abbrev pub diagnostic_deadline_s : b.Seconds
  diagnostic_deadline_s = b.of_milliseconds 3000

  -- min(x, y) and max(x, y)
  abbrev pub lower : b.Seconds → b.Seconds → b.Seconds
  lower x y = if b.below y x then y else x

  abbrev pub upper : b.Seconds → b.Seconds → b.Seconds
  upper x y = if b.below x y then y else x
