-- ===== src/Hardware/Probe/Diagnosed.antt =====
-- What a success of `validate_serial_diagnostic` (host/src/navbench/hardware.py) shows.
use navbench.Common.{
  ℕ, ◌+◌, ◌≤◌, ◌≡◌, ◌≢◌, refl, ◌∙◌, ◌⊎◌, inl, inr, Bool, true, false, not, ◌||◌, List, [], length,
  leb-true→le, ◌==◌,
}
use navbench.Protocol.Error.{Result, ok, err}
use navbench.Protocol.Value.{Binary32}
use navbench.Session.Run.{
  done, Run, ◌>>=◌, ◌>>◌, Ensures, Ensures-bind, Ensures-test, Ensures-answer,
}
use navbench.Hardware.Types.{
  Bench, HardwareValidationResult, success, diagnostic_failed, diagnostic_usb, diagnostic_protocol,
  diagnostic_deadline_s,
}
use navbench.Hardware.Opening.{result_of}
use navbench.Hardware.Diagnostic.{new_status}
use navbench.Hardware.Diagnostic.Growth.{Grows-refl, new_status-IsNoted}
use navbench.Hardware.Report.{same_errors, is_acknowledged}
use navbench.Hardware.Probe.{
  Mode, usb, protocol, usb_probe, State, clock, beacon_loop, probe_loop, write_all, verdict,
  is_probed, probe_usb, hello_frame, is_welcome, probe_protocol, probe, validate_serial_diagnostic,
}
use navbench.Hardware.Probe.Written.{
  Took, none_taken, looked, Since, Wrote, write_all-Since, beacon_loop-Since, Passed,
  probe_loop-Passed,
}
use navbench.Hardware.Probe.Welcome.{
  Welcomed, both, second_le, positive, is_none-none, hello_error-Welcomed,
}

module _ (fl : Binary32) (b : Bench) where
  -- The probe of a mode: what the transport took, and what the controller reported of it.
  abbrev pub Answers : Mode → b.io.Transport → State fl b → Type 0
  Answers usb t s =
      Took b t usb_probe s.transport × (2 ≤ s.status.serial_rx_bytes) × (1 ≤ s.status.parser_errors)
  Answers protocol t s =
      (frame : List ℕ) × (hello_frame fl b ≡ ok frame)
      × Took b t frame s.transport
      × Welcomed s.status (length frame)

  pub record Diagnosed (mode : Mode) (t : b.io.Transport) (s : State fl b) : Type 0 where
    pub beacon : s.status.beacon_seen ≡ true
    pub proven : s.status.tx_proven ≡ true
    pub answers : Answers mode t s

  -- No success, or one that rests on this.
  abbrev Outcome : Mode → b.io.Transport → HardwareValidationResult → State fl b → Type 0
  Outcome mode t result s = (result.exit_code ≢ success) ⊎ Diagnosed mode t s

  module _ (t : b.io.Transport) (base : State fl b) (seen : base.status.beacon_seen ≡ true) where
    abbrev SinceBase : List ℕ → State fl b → Type 0
    SinceBase = Since fl b t base.status

    since-Diagnosed :
        (mode : Mode) (l : List ℕ) (s : State fl b)
        → SinceBase l s
        → Answers mode t s
        → Diagnosed mode t s
    since-Diagnosed mode l s (h, kept) answers = record {
      beacon = kept.grown.beacon seen;
      proven = kept.noted.proven ∙ kept.grown.beacon seen;
      answers = answers;
    }

    verdict-Outcome :
        (mode : Mode) (result : HardwareValidationResult) (passed : State fl b → Bool) (l : List ℕ)
        (verdict_is : Bool) (s : State fl b)
        → ((s' : State fl b) → SinceBase l s' → passed s' ≡ true → Answers mode t s')
        → Passed fl b t base.status passed l verdict_is s
        → Ensures (Outcome mode t) (verdict fl b result verdict_is s)
    verdict-Outcome mode result passed l false s answers h = inl (λ e. cc)
    verdict-Outcome mode result passed l true s answers (since, test) =
        inr (since-Diagnosed mode l s since (answers s since test))

    -- What is written, and the loop that waits for the controller's report.
    probed-Outcome :
        (fuel : ℕ) (mode : Mode) (result : HardwareValidationResult) (passed : State fl b → Bool)
        (bytes : List ℕ) (s : State fl b)
        → ((s' : State fl b) → SinceBase bytes s' → passed s' ≡ true → Answers mode t s')
        → SinceBase [] s
        → Ensures (Outcome mode t) (
            (write_all fl b fuel bytes
                >> (clock fl b >>= λ now.
                    probe_loop fl b fuel passed (b.plus now (diagnostic_deadline_s b)))
                >>= verdict fl b result)
              s)
    probed-Outcome fuel mode result passed bytes s answers h =
        let P = Passed fl b t base.status passed bytes in
        let loop : Run (State fl b) Bool = clock fl b >>= λ now.
        probe_loop fl b fuel passed (b.plus now (diagnostic_deadline_s b)) in
        Ensures-bind P (Outcome mode t) ((write_all fl b fuel bytes >> loop) s)
          (verdict fl b result)
          (Ensures-bind (Wrote fl b t base.status bytes) P (write_all fl b fuel bytes s) (λ u. loop)
            (write_all-Since fl b t base.status fuel [] bytes s h)
            (λ u s' (k, kept).
              probe_loop-Passed fl b t base.status fuel passed _ bytes _ (looked k, kept)))
          (λ verdict_is s' k. verdict-Outcome mode result passed bytes verdict_is s' answers k)

    probed-Answers :
        (s : State fl b)
        → SinceBase usb_probe s
        → is_probed fl b base.status s ≡ true
        → Answers usb t s
    probed-Answers s (h, kept) test =
        let (bytes, errors) = both _ _ test in
        (
          h,
          second_le base.status.serial_rx_bytes 2 s.status.serial_rx_bytes
              (leb-true→le (base.status.serial_rx_bytes + 2) s.status.serial_rx_bytes bytes),
          positive base.status.parser_errors s.status.parser_errors errors,
        )

    welcome-Answers :
        (frame : List ℕ) (s : State fl b)
        → hello_frame fl b ≡ ok frame
        → SinceBase frame s
        → is_welcome fl b base frame s ≡ true
        → Answers protocol t s
    welcome-Answers frame s e (h, kept) test =
        let (reported, rest) =
          both (is_acknowledged s.status.hello_ack || not (s.status.hello_result == 0)) _ test in
        let (clean, fine) = both (same_errors s.parser.stats base.parser.stats) _ rest in
        (
          frame,
          e,
          h,
          hello_error-Welcomed s.status base.status.serial_rx_bytes (length frame)
              base.status.parser_frames_received (is_none-none _ fine),
        )

    probe_usb-Outcome :
        (fuel : ℕ)
        → SinceBase [] base
        → Ensures (Outcome usb t) (probe_usb fl b fuel base.status base)
    unfolding probe_usb
    probe_usb-Outcome fuel h =
        probed-Outcome fuel usb (result_of success diagnostic_usb) (is_probed fl b base.status)
          usb_probe base probed-Answers h

    probe_protocol-Outcome :
        (fuel : ℕ) (frame : Result (List ℕ))
        → hello_frame fl b ≡ frame
        → SinceBase [] base
        → Ensures (Outcome protocol t) (probe_protocol fl b fuel base frame base)
    unfolding probe_protocol
    probe_protocol-Outcome fuel (err e) same h = tt
    probe_protocol-Outcome fuel (ok frame) same h =
        probed-Outcome fuel protocol (result_of success diagnostic_protocol)
          (is_welcome fl b base frame) frame base (λ s'. welcome-Answers frame s' same) h

  module _ (fuel : ℕ) (mode : Mode) (t : b.io.Transport) where
    probe-Outcome :
        (m : Mode) (s : State fl b)
        → Since fl b t new_status [] s
        → Ensures (Outcome m t) (probe fl b fuel m s)
    probe-Outcome usb s (h, kept) =
        Ensures-test (Outcome usb t) s.status.beacon_seen (probe_usb fl b fuel s.status s)
          (s, done (result_of diagnostic_failed diagnostic_usb))
          (λ seen.
            probe_usb-Outcome t s seen fuel
              (h, record { noted = kept.noted; grown = Grows-refl s.status }))
          (λ unseen. inl (λ e. cc))
    probe-Outcome protocol s (h, kept) =
        Ensures-test (Outcome protocol t) s.status.beacon_seen
          (probe_protocol fl b fuel s (hello_frame fl b) s)
          (s, done (result_of diagnostic_failed diagnostic_protocol))
          (λ seen.
            probe_protocol-Outcome t s seen fuel (hello_frame fl b) refl
              (h, record { noted = kept.noted; grown = Grows-refl s.status }))
          (λ unseen. inl (λ e. cc))

    validate_serial_diagnostic-Outcome :
        Ensures (Outcome mode t) (validate_serial_diagnostic fl b fuel mode t)
    unfolding validate_serial_diagnostic
    validate_serial_diagnostic-Outcome =
        Ensures-bind (Wrote fl b t new_status []) (Outcome mode t) (beacon_loop fl b fuel _ _)
          (λ u. probe fl b fuel mode)
          (beacon_loop-Since fl b t new_status fuel _ [] _ (
            looked none_taken,
            record { noted = new_status-IsNoted; grown = Grows-refl new_status },
          ))
          (λ u s h. probe-Outcome mode s h)

    -- A serial diagnostic that returns success, whatever the transport and the clock do, has given the
    -- transport the mode's probe, each byte once and in order, and no other byte. It has seen a beacon;
    -- for the mode 'usb' the controller has counted two received bytes at least and an error of its
    -- parser; for the mode 'protocol', in which the probe is the frame of a HELLO, it has counted the
    -- bytes of that frame at least, has parsed one HELLO, accepted it and answered it once, with no
    -- response dropped or pending and no incomplete write, and the acknowledgement that the host read is
    -- compatible.
    pub validate_serial_diagnostic-Diagnosed :
        (result : HardwareValidationResult)
        → (validate_serial_diagnostic fl b fuel mode t).1 ≡ done result
        → result.exit_code ≡ success
        → Diagnosed mode t ((validate_serial_diagnostic fl b fuel mode t).0)
    validate_serial_diagnostic-Diagnosed result returned succeeds =
        elim (Ensures-answer (Outcome mode t) (validate_serial_diagnostic fl b fuel mode t) result
          returned validate_serial_diagnostic-Outcome) [
            | inl failing ↦ absurd (failing succeeds)
            | inr proof ↦ proof
          ]
