-- ===== src/Hardware/Port.antt =====
-- `run_physical_validation` and `run_serial_diagnostic` of host/src/navbench/hardware.py: the port is
-- opened, prepared, and closed whatever comes.
pub mod Closed
use navbench.Common.{
  ℕ, ◌≡◌, ◌≢◌, refl, Bool, true, false, ◌&&◌, Option, none, some, not, if◌then◌else◌,
}
use navbench.Protocol.Value.{Binary32}
use navbench.Session.Run.{
  SessionFailure, session_error, out_of_fuel, transport_error, Answer, done, failed,
}
use navbench.Hardware.Types.{
  Bench, HardwareConfig, HardwareValidationResult, success, port_open_failed, diagnostic_failed,
  port_open, port_prepare, diagnostic,
}
use navbench.Hardware.Opening.{result_of}
use navbench.Hardware.Validate.{validate_transport}
use navbench.Hardware.Verified.{Verified, validate_transport-Verified}
use navbench.Hardware.Probe.{Mode, validate_serial_diagnostic}

-- The exceptions that `except (OSError, TransportError, TypeError, ValueError)` names.
abbrev pub is_port_error : SessionFailure → Bool
is_port_error session_error = false
is_port_error out_of_fuel = false
is_port_error e = true

abbrev pub or_port_failure : {A : Type 0} → A → Answer A → Answer A
or_port_failure failure (done a) = done a
or_port_failure failure (failed e) = if is_port_error e then done failure else failed e

-- What a caller hands over beside the clock: the startup delay, none if it is no number; the transport
-- that the factory opens, none if it raises; and what reset_input_buffer does, if there is one.
pub record PortSetup (b : Bench) : Type 0 where
  pub startup_delay_s : Option b.Seconds
  pub opened : Option b.io.Transport
  pub reset_input : Option (b.io.Transport → b.io.Transport × Answer (Unit {0}))

module _ (b : Bench) where
  -- A finite number from 0 to 30; no comparison with a NaN is true.
  abbrev pub is_delay : b.Seconds → Bool
  is_delay seconds =
      b.at_most (b.of_milliseconds 0) seconds && b.at_most seconds (b.of_milliseconds 30000)

  -- The startup delay, if it is longer than nothing.
  abbrev pub wait_startup : b.Seconds → b.io.Transport → b.io.Transport
  wait_startup seconds t = if b.below (b.of_milliseconds 0) seconds then b.sleep seconds t else t

  abbrev pub reset_port :
      Option (b.io.Transport → b.io.Transport × Answer (Unit {0}))
      → b.io.Transport
      → b.io.Transport × Answer (Unit {0})
  reset_port none t = (t, done tt)
  reset_port (some reset) t = reset t

  module _ {A : Type 0} (run : b.io.Transport → b.io.Transport × Answer A) where
    abbrev pub run_prepared : b.io.Transport × Answer (Unit {0}) → b.io.Transport × Answer A
    run_prepared (t, done u) = run t
    run_prepared (t, failed e) = (t, failed e)

    -- `try`, with the `except` that gives a failure, and `finally: transport.close()`.
    abbrev pub run_closed : A → b.io.Transport × Answer A → b.io.Transport × Answer A
    run_closed failure (t, answer) = (b.io.close t, or_port_failure failure answer)

    -- The transport that is left, if one was opened, and the answer.
    abbrev pub run_opened :
        A → A → PortSetup b → b.Seconds → Option b.io.Transport → Option b.io.Transport × Answer A
    run_opened unopened failure setup seconds none = (none, done unopened)
    run_opened unopened failure setup seconds (some t) =
        let (left, answer) =
          run_closed failure
            (run_prepared (reset_port setup.reset_input (wait_startup seconds t))) in
        (some left, answer)

    abbrev pub run_delayed :
        A → A → PortSetup b → Option b.Seconds → Option b.io.Transport × Answer A
    run_delayed unopened failure setup none = (none, done unopened)
    run_delayed unopened failure setup (some seconds) =
        if is_delay seconds
        then run_opened unopened failure setup seconds setup.opened
        else (none, done unopened)

  module _ (fl : Binary32) where
    abbrev pub validation_of :
        ℕ → HardwareConfig → b.io.Transport → b.io.Transport × Answer HardwareValidationResult
    validation_of fuel config t =
        let (s, answer) = validate_transport fl b fuel config t in (s.transport, answer)

    unfoldable pub run_physical_validation :
        ℕ → HardwareConfig → PortSetup b → Option b.io.Transport × Answer HardwareValidationResult
    run_physical_validation fuel config setup =
        run_delayed (validation_of fuel config) (result_of port_open_failed port_open)
          (result_of port_open_failed port_prepare) setup setup.startup_delay_s

    abbrev pub diagnostic_of :
        ℕ → Mode → b.io.Transport → b.io.Transport × Answer HardwareValidationResult
    diagnostic_of fuel mode t =
        let (s, answer) = validate_serial_diagnostic fl b fuel mode t in (s.transport, answer)

    -- The mode is one of the two.
    unfoldable pub run_serial_diagnostic :
        ℕ → Mode → PortSetup b → Option b.io.Transport × Answer HardwareValidationResult
    run_serial_diagnostic fuel mode setup =
        run_delayed (diagnostic_of fuel mode) (result_of port_open_failed port_open)
          (result_of diagnostic_failed diagnostic) setup setup.startup_delay_s
