-- ===== src/Hardware/Probe.antt =====
-- `validate_serial_diagnostic` of host/src/navbench/hardware.py: the beacon, the probe that is written,
-- and what the controller must report of it.
pub mod Written
pub mod Welcome
pub mod Diagnosed
pub mod Ends
use navbench.Common.{
  ℕ, zero, suc, ◌+◌, Bool, true, false, not, ◌&&◌, ◌||◌, Option, none, some, List, [], ◌∷◌, length,
  drop, leb, ltb, ◌==◌, bit_and, if◌then◌else◌,
}
use navbench.Protocol.Error.{Result, ok, err}
use navbench.Protocol.Value.{int, value, Binary32}
use navbench.Protocol.Enums.{MessageType, EndpointRole, HelloStatus, accepted, controller}
use navbench.Protocol.Packet.{Packet, encode_packet, is_empty, protocol_version}
use navbench.Protocol.Payload.Types.{TypedPayload, HelloAckPayload}
use navbench.Protocol.Payload.Decode.{make_packet}
use navbench.Protocol.Stream.{ParserStats, StreamParser, new_parser}
use navbench.Transport.Interface.{WriteResult, wrote, wrote_negative, write_failed}
use navbench.Session.Run.{
  Answer, done, failed, transport_error, protocol_error, out_of_fuel, Run, ◌>>=◌, ◌>>◌, pure, raise,
  continue_with, modify,
}
use navbench.Session.Types.{supported_capabilities}
use navbench.Session.Calls.{host_hello}
use navbench.Hardware.Types.{
  Bench, HardwareValidationResult, success, diagnostic_failed, diagnostic_usb, diagnostic_protocol,
  poll_period_s, diagnostic_deadline_s, session_timeout_ms,
}
use navbench.Hardware.Opening.{config_500, result_of}
use navbench.Hardware.Diagnostic.{DiagnosticStatus, new_status, Diagnosis, poll_diagnostic}
use navbench.Hardware.Report.{
  is_accepted, is_controller, is_compatible, ack_error, is_incomplete, hello_error, same_errors,
  is_acknowledged, is_none,
}

-- The modes 'usb' and 'protocol'.
pub data Mode : Type 0 where
  usb protocol : Mode

-- `_DIAGNOSTIC_USB_PROBE`
abbrev pub usb_probe : List ℕ
usb_probe = 1 ∷ 0 ∷ []

module _ (fl : Binary32) (b : Bench) where
  abbrev pub State : Type 0
  State = Diagnosis (b.io.Transport)

  abbrev pub clock : Run State b.Seconds
  clock s = (record s { transport = (b.clock s.transport).0 }, done ((b.clock s.transport).1))

  abbrev pub sleep : b.Seconds → Run State (Unit {0})
  sleep seconds = modify (λ s. record s { transport = b.sleep seconds s.transport })

  -- Behind a write that did not take all: the time, and the rest.
  abbrev pub write_more : Run State (Unit {0}) → (deadline : b.Seconds) → Run State (Unit {0})
  write_more next deadline = clock >>= λ now.
      if b.below deadline now then raise transport_error else (sleep (poll_period_s b) >> next)

  -- A round of the loop of `_write_all`, with the data from the offset on.
  abbrev pub write_round :
      (List ℕ → Run State (Unit {0}))
      → (deadline : b.Seconds) → List ℕ
      → State
      → b.io.Transport × WriteResult
      → State × Answer (Unit {0})
  write_round next deadline rest s (transport, write_failed) =
      (record s { transport = transport }, failed transport_error)
  write_round next deadline rest s (transport, wrote_negative) =
      (record s { transport = transport }, failed transport_error)
  write_round next deadline rest s (transport, wrote written) =
      if ltb (length rest) written
      then (record s { transport = transport }, failed transport_error)
      else if written == length rest
      then (record s { transport = transport }, done tt)
      else write_more (next (drop written rest)) deadline (record s { transport = transport })

  unfoldable pub write_loop : ℕ → (deadline : b.Seconds) → List ℕ → Run State (Unit {0})
  write_loop zero deadline rest s = (s, failed out_of_fuel)
  write_loop (suc fuel) deadline rest s =
      if is_empty rest
      then (s, done tt)
      else write_round (write_loop fuel deadline) deadline rest s (b.io.write s.transport rest)

  -- `_write_all`
  unfoldable pub write_all : ℕ → List ℕ → Run State (Unit {0})
  write_all fuel bytes =
      clock >>= λ now. write_loop fuel (b.plus now (b.of_milliseconds 1000)) bytes

  -- `while clock() <= deadline and not status.beacon_seen`
  unfoldable pub beacon_loop : ℕ → (deadline : b.Seconds) → Run State (Unit {0})
  beacon_loop zero deadline = raise out_of_fuel
  beacon_loop (suc fuel) deadline = clock >>= λ now s.
      (if b.at_most now deadline && not s.status.beacon_seen
          then (poll_diagnostic fl b.io >> sleep (poll_period_s b) >> beacon_loop fuel deadline)
          else pure tt)
        s

  -- The two loops behind the probe: a test on the session's state ends them.
  unfoldable pub probe_loop : ℕ → (passed : State → Bool) → (deadline : b.Seconds) → Run State Bool
  probe_loop zero passed deadline = raise out_of_fuel
  probe_loop (suc fuel) passed deadline = clock >>= λ now.
      if b.at_most now deadline
      then (poll_diagnostic fl b.io >> λ s.
          (if passed s
              then pure true
              else (sleep (poll_period_s b) >> probe_loop fuel passed deadline))
            s)
      else pure false

  abbrev pub verdict : HardwareValidationResult → Bool → Run State HardwareValidationResult
  verdict passed true = pure passed
  verdict passed false = pure (result_of diagnostic_failed passed.phase)

  -- The controller has counted the probe, and an error.
  abbrev pub is_probed : (baseline : DiagnosticStatus) → State → Bool
  is_probed baseline s =
      leb (baseline.serial_rx_bytes + length usb_probe) s.status.serial_rx_bytes
      && ltb baseline.parser_errors s.status.parser_errors

  -- The mode 'usb' behind the beacon.
  unfoldable pub probe_usb : ℕ → (baseline : DiagnosticStatus) → Run State HardwareValidationResult
  probe_usb fuel baseline =
      write_all fuel usb_probe
      >> (clock >>= λ now.
          probe_loop fuel (is_probed baseline) (b.plus now (diagnostic_deadline_s b)))
      >>= verdict (result_of success diagnostic_usb)

  abbrev pub framed : Result Packet → Result (List ℕ)
  framed (ok packet) = encode_packet packet
  framed (err e) = err e

  -- `hello_frame`
  abbrev pub hello_frame : Result (List ℕ)
  hello_frame = framed (
      make_packet fl MessageType.hello (int 0) (int 0) (TypedPayload.hello (host_hello config_500)))

  -- The controller has reported the HELLO of a frame, and nothing was wrong with it.
  abbrev pub is_welcome : (baseline : State) → (frame : List ℕ) → State → Bool
  is_welcome baseline frame s =
      (is_acknowledged s.status.hello_ack || not (s.status.hello_result == 0))
      && (same_errors s.parser.stats baseline.parser.stats
          && is_none (
              hello_error s.status (baseline.status.serial_rx_bytes + length frame)
                (baseline.status.parser_frames_received + 1)))

  -- The mode 'protocol' behind the beacon, with the frame.
  unfoldable pub probe_protocol :
      ℕ → (baseline : State) → Result (List ℕ) → Run State HardwareValidationResult
  probe_protocol fuel baseline (err e) = raise (protocol_error e)
  probe_protocol fuel baseline (ok frame) =
      write_all fuel frame
      >> (clock >>= λ now.
          probe_loop fuel (is_welcome baseline frame) (b.plus now (diagnostic_deadline_s b)))
      >>= verdict (result_of success diagnostic_protocol)

  abbrev pub probe : ℕ → Mode → Run State HardwareValidationResult
  probe fuel usb s =
      if s.status.beacon_seen
      then probe_usb fuel s.status s
      else (s, done (result_of diagnostic_failed diagnostic_usb))
  probe fuel protocol s =
      if s.status.beacon_seen
      then probe_protocol fuel s hello_frame s
      else (s, done (result_of diagnostic_failed diagnostic_protocol))

  -- `validate_serial_diagnostic`; each loop has as many rounds as it is given.
  unfoldable pub validate_serial_diagnostic :
      ℕ → Mode → b.io.Transport → State × Answer HardwareValidationResult
  validate_serial_diagnostic fuel mode transport =
      (clock >>= λ now. beacon_loop fuel (b.plus now (diagnostic_deadline_s b)) >> probe fuel mode)
        (record { transport = transport; parser = new_parser; status = new_status })
