-- ===== src/Hardware/Port/Closed.antt =====
-- What a success of `run_physical_validation` or `run_serial_diagnostic`
-- (host/src/navbench/hardware.py) rests on, and that the port is closed.
use navbench.Common.{
  ℕ, ◌≡◌, ◌≢◌, refl, sym, ap, ◌∙◌, Bool, true, false, Option, none, some, Bool-cases, inl, inr, ◌⊎◌,
  ◌&&◌, if◌then◌else◌,
}
use navbench.Protocol.Value.{Binary32}
use navbench.Session.Run.{Answer, done, failed}
use navbench.Hardware.Types.{
  Bench, HardwareConfig, HardwareValidationResult, success, port_open_failed, diagnostic_failed,
  port_open, port_prepare, diagnostic,
}
use navbench.Hardware.Opening.{result_of, State}
use navbench.Hardware.Validate.{validate_transport}
use navbench.Hardware.Verified.{Verified, validate_transport-Verified}
use navbench.Hardware.Probe
use navbench.Hardware.Probe.{Mode, validate_serial_diagnostic}
use navbench.Hardware.Probe.Diagnosed.{Diagnosed, validate_serial_diagnostic-Diagnosed}
use navbench.Hardware.Port.{
  is_port_error, or_port_failure, PortSetup, is_delay, wait_startup, reset_port, run_prepared,
  run_closed, run_opened, run_delayed, validation_of, run_physical_validation, diagnostic_of,
  run_serial_diagnostic,
}

module _ (b : Bench) (setup : PortSetup b) where
  -- A transport that was opened, after the startup delay, a number of seconds from 0 to 30 that is
  -- slept for if it is above 0, and after the reset of its input, if the port has one, has returned.
  pub record Prepared (t : b.io.Transport) : Type 0 where
    pub seconds : b.Seconds
    pub delayed : setup.startup_delay_s ≡ some seconds
    pub not_negative : b.at_most (b.of_milliseconds 0) seconds ≡ true
    pub short : b.at_most seconds (b.of_milliseconds 30000) ≡ true
    pub port : b.io.Transport
    pub opened : setup.opened ≡ some port
    pub waited : b.io.Transport
    pub slept :
        ((b.below (b.of_milliseconds 0) seconds ≡ true) × (waited ≡ b.sleep seconds port))
        ⊎ ((b.below (b.of_milliseconds 0) seconds ≡ false) × (waited ≡ port))
    pub cleared :
        ((setup.reset_input ≡ none) × (t ≡ waited))
        ⊎ ((reset : b.io.Transport → b.io.Transport × Answer (Unit {0})) × (setup.reset_input
              ≡ some reset)
            × (reset waited ≡ (t, done tt)))

  wait_startup-slept :
      (seconds : b.Seconds) (port : b.io.Transport)
      → ((b.below (b.of_milliseconds 0) seconds ≡ true)
          × (wait_startup b seconds port ≡ b.sleep seconds port))
        ⊎ ((b.below (b.of_milliseconds 0) seconds ≡ false) × (wait_startup b seconds port ≡ port))
  wait_startup-slept seconds port = elim (Bool-cases (b.below (b.of_milliseconds 0) seconds)) [
    | inl longer ↦ inl (longer, simp longer)
    | inr none_left ↦ inr (none_left, simp none_left)
  ]

  reset_port-cleared :
      (reset_input : Option (b.io.Transport → b.io.Transport × Answer (Unit {0})))
      (waited t : b.io.Transport)
      → reset_port b reset_input waited ≡ (t, done tt)
      → ((reset_input ≡ none) × (t ≡ waited))
        ⊎ ((reset : b.io.Transport → b.io.Transport × Answer (Unit {0})) × (reset_input
              ≡ some reset)
            × (reset waited ≡ (t, done tt)))
  reset_port-cleared none waited t e = inl (refl, sym (ap (λ r. r.0) e))
  reset_port-cleared (some reset) waited t e = inr (reset, refl, e)

  is_delay-range :
      (seconds : b.Seconds)
      → is_delay b seconds ≡ true
      → (b.at_most (b.of_milliseconds 0) seconds ≡ true)
        × (b.at_most seconds (b.of_milliseconds 30000) ≡ true)
  is_delay-range seconds e = both _ _ e
    where
      both : (p q : Bool) → (p && q) ≡ true → (p ≡ true) × (q ≡ true)
      both true true e = (refl, refl)
      both true false e = absurd cc
      both false q e = absurd cc

  module _ (run : b.io.Transport → b.io.Transport × Answer HardwareValidationResult)
      (unopened failure : HardwareValidationResult) (u : unopened.exit_code ≢ success)
      (f : failure.exit_code ≢ success) where
    -- The transport of the run that returned the result, and the port that it leaves.
    abbrev Ran : HardwareValidationResult → Option b.io.Transport → Type 0
    Ran result left =
        (t : b.io.Transport) × Prepared t
        × ((run t).1 ≡ done result)
        × (left ≡ some (b.io.close ((run t).0)))

    done_same : {A : Type 0} {x y : A} → done x ≡ done y → x ≡ y
    done_same e = cc

    or_port_failure-done :
        (answer : Answer HardwareValidationResult) (result : HardwareValidationResult)
        → or_port_failure failure answer ≡ done result
        → result.exit_code ≡ success
        → answer ≡ done result
    or_port_failure-done (done a) result e s = e
    or_port_failure-done (failed x) result e s = elim (Bool-cases (is_port_error x)) [
      | inl caught ↦ absurd (f (ap (λ r. r.exit_code) (done_same (rw caught at e)) ∙ s))
      | inr passed ↦ absurd (let g = rw passed at e in cc)
    ]

    run_closed-Ran :
        (result : HardwareValidationResult) (t : b.io.Transport)
        (r : b.io.Transport × Answer HardwareValidationResult)
        → Prepared t
        → run t ≡ r
        → (run_closed b run failure r).1 ≡ done result
        → result.exit_code ≡ success
        → Ran result (some ((run_closed b run failure r).0))
    run_closed-Ran result t (t', answer) prepared same e s = (
      t,
      prepared,
      ap (λ r. r.1) same ∙ or_port_failure-done answer result e s,
      ap (λ r. some (b.io.close (r.0))) (sym same),
    )

    run_prepared-Ran :
        (result : HardwareValidationResult) (seconds : b.Seconds) (port : b.io.Transport)
        (p : b.io.Transport × Answer (Unit {0}))
        → setup.startup_delay_s ≡ some seconds
        → is_delay b seconds ≡ true
        → setup.opened ≡ some port
        → reset_port b setup.reset_input (wait_startup b seconds port) ≡ p
        → (run_closed b run failure (run_prepared b run p)).1 ≡ done result
        → result.exit_code ≡ success
        → Ran result (some ((run_closed b run failure (run_prepared b run p)).0))
    run_prepared-Ran result seconds port (t, done x) delayed allowed opened prepared e s =
        run_closed-Ran result t (run t)
          (record {
            seconds = seconds;
            delayed = delayed;
            not_negative = (is_delay-range seconds allowed).0;
            short = (is_delay-range seconds allowed).1;
            port = port;
            opened = opened;
            waited = wait_startup b seconds port;
            slept = wait_startup-slept seconds port;
            cleared = reset_port-cleared setup.reset_input _ t prepared;
          })
          refl e s
    run_prepared-Ran result seconds port (t, failed x) delayed allowed opened prepared e s =
        absurd (let g = or_port_failure-done (failed x) result e s in cc)

    unopened-absurd :
        {A : Type 0} (result : HardwareValidationResult)
        → done unopened ≡ done result
        → result.exit_code ≡ success
        → A
    unopened-absurd result e s = absurd (u (ap (λ r. r.exit_code) (done_same e) ∙ s))

    run_opened-Ran :
        (result : HardwareValidationResult) (seconds : b.Seconds) (opened : Option b.io.Transport)
        → setup.startup_delay_s ≡ some seconds
        → is_delay b seconds ≡ true
        → setup.opened ≡ opened
        → (run_opened b run unopened failure setup seconds opened).1 ≡ done result
        → result.exit_code ≡ success
        → Ran result ((run_opened b run unopened failure setup seconds opened).0)
    run_opened-Ran result seconds none delayed allowed same e s = unopened-absurd result e s
    run_opened-Ran result seconds (some port) delayed allowed same e s =
        run_prepared-Ran result seconds port _ delayed allowed same refl e s

    pub run_delayed-Ran :
        (result : HardwareValidationResult) (delay : Option b.Seconds)
        → setup.startup_delay_s ≡ delay
        → (run_delayed b run unopened failure setup delay).1 ≡ done result
        → result.exit_code ≡ success
        → Ran result ((run_delayed b run unopened failure setup delay).0)
    run_delayed-Ran result none same e s = unopened-absurd result e s
    run_delayed-Ran result (some seconds) same e s = judged (is_delay b seconds) refl e
      where
        judged :
            (test : Bool)
            → is_delay b seconds ≡ test
            → (if test
                then run_opened b run unopened failure setup seconds setup.opened
                else (none, done unopened)).1
              ≡ done result
            → Ran result (
                (if test
                  then run_opened b run unopened failure setup seconds setup.opened
                  else (none, done unopened)).0)
        judged true allowed k = run_opened-Ran result seconds setup.opened same allowed refl k s
        judged false refused k = unopened-absurd result k s

module _ (fl : Binary32) (b : Bench) (fuel : ℕ) (config : HardwareConfig)
    (setup : PortSetup b) where
  -- A validation over a port that returns success has opened it, slept for the startup delay, which
  -- is from 0 to 30 seconds, if it is above 0, and seen the reset of its input return, if the port
  -- has one; it rests on a run of the session on that transport as a success of validate_transport
  -- does; and it has closed the transport that this run left.
  pub run_physical_validation-Verified :
      (result : HardwareValidationResult)
      → (run_physical_validation b fl fuel config setup).1 ≡ done result
      → result.exit_code ≡ success
      → (t : b.io.Transport) × (s : State fl b) × Prepared b setup t
        × Verified fl b config t s
        × ((run_physical_validation b fl fuel config setup).0 ≡ some (b.io.close s.transport))
  unfolding run_physical_validation
  run_physical_validation-Verified result returned succeeds =
      let (t, prepared, ran, left) =
        run_delayed-Ran b setup (validation_of b fl fuel config)
          (result_of port_open_failed port_open) (result_of port_open_failed port_prepare) (λ e. cc)
          (λ e. cc) result setup.startup_delay_s refl returned succeeds in
      (
        t,
        (validate_transport fl b fuel config t).0,
        prepared,
        validate_transport-Verified fl b fuel config t result ran succeeds,
        left,
      )

module _ (fl : Binary32) (b : Bench) (fuel : ℕ) (mode : Mode) (setup : PortSetup b) where
  -- A serial diagnostic over a port that returns success has opened and prepared it in the same way,
  -- rests on what a success of validate_serial_diagnostic rests on, and has closed the transport.
  pub run_serial_diagnostic-Diagnosed :
      (result : HardwareValidationResult)
      → (run_serial_diagnostic b fl fuel mode setup).1 ≡ done result
      → result.exit_code ≡ success
      → (t : b.io.Transport) × (s : Probe.State fl b) × Prepared b setup t
        × Diagnosed fl b mode t s
        × ((run_serial_diagnostic b fl fuel mode setup).0 ≡ some (b.io.close s.transport))
  unfolding run_serial_diagnostic
  run_serial_diagnostic-Diagnosed result returned succeeds =
      let (t, prepared, ran, left) =
        run_delayed-Ran b setup (diagnostic_of b fl fuel mode)
          (result_of port_open_failed port_open) (result_of diagnostic_failed diagnostic) (λ e. cc)
          (λ e. cc) result setup.startup_delay_s refl returned succeeds in
      (
        t,
        (validate_serial_diagnostic fl b fuel mode t).0,
        prepared,
        validate_serial_diagnostic-Diagnosed fl b fuel mode t result ran succeeds,
        left,
      )
