-- ===== src/Tests/Diagnostic.antt =====
-- A run of `validate_serial_diagnostic` (host/src/navbench/hardware.py) against a scripted controller.
use navbench.Common.{ℕ, ◌≡◌, refl, List, [], ◌∷◌}
use navbench.Protocol.Value.{int}
use navbench.Protocol.Enums.{MessageType}
use navbench.Protocol.Packet.{encode_packet}
use navbench.Protocol.Payload.Types.{TypedPayload}
use navbench.Protocol.Payload.Encode.{encode_typed_payload}
use navbench.Session.Run.{Answer, done}
use navbench.Hardware.Types.{HardwareValidationResult, success}
use navbench.Hardware.Opening.{result_of}
use navbench.Protocol.Enums.{
  message_code, message_of, role_code, role_of, status_code, status_of, message_type, decode_enum,
  or_raise,
}
use navbench.Protocol.Value.{uint}
use navbench.Protocol.Struct.{pack, unpack}
use navbench.Protocol.Crc.{crc16_ccitt}
use navbench.Protocol.Cobs.{cobs_encode, cobs_decode}
use navbench.Protocol.Packet.{
  raw_packet, strip_delimiter, read_header, read_raw_packet, decode_packet,
}
use navbench.Protocol.Stream.{
  reset_parser, take_frame, feed_delimiter, feed_value, feed_byte, feed_loop, feed,
}
use navbench.Protocol.Payload.Encode.{encode_hello, encode_hello_ack}
use navbench.Protocol.Payload.Decode.{
  require_payload_size, decode_hello_ack, read_payload, decode_typed_payload, decode_packet_payload,
  make_packet,
}
use navbench.Common.{◌+◌, ◌-◌, ◌≤◌, ◌≢◌, sym, ap, ◌∙◌, arith}
use navbench.Hardware.Probe.Ends.{Paced, validate_serial_diagnostic_ends}
use navbench.Session.Run.{failed, out_of_fuel}
use navbench.Hardware.Probe.{usb}
use navbench.Tests.Bench.{read_time}
use navbench.Tests.Floats.{patterns}
use navbench.Protocol.Enums.{ApplicationErrorCode, error_code, error_of}
use navbench.Protocol.Payload.Encode.{encode_error}
use navbench.Protocol.Payload.Decode.{decode_error}
use navbench.Protocol.Stream.{new_parser}
use navbench.Hardware.Types.{diagnostic_protocol}
use navbench.Hardware.Diagnostic.{Diagnosis, new_status, note_detail, note_packets, poll_rounds}
use navbench.Hardware.Diagnostic.Growth.{IsNoted, Grows, new_status-IsNoted}
use navbench.Hardware.Diagnostic.Polls.{poll_rounds-Polled}
use navbench.Hardware.Report.{hello_error}
use navbench.Hardware.Probe.{
  State, protocol, write_loop, write_all, beacon_loop, probe_loop, probe_protocol, probe_usb,
  validate_serial_diagnostic,
}
use navbench.Hardware.Probe.Diagnosed.{Diagnosed, validate_serial_diagnostic-Diagnosed}
use navbench.Tests.Bench.{packed, acknowledgement, Line, line, bench}

-- An ERROR with the code DIAGNOSTIC.
abbrev report : (sequence detail related context : ℕ) → List ℕ
report sequence detail related context = packed MessageType.error sequence 0 (
    TypedPayload.error (record {
      code = ApplicationErrorCode.diagnostic;
      detail = int detail;
      related_sequence = int related;
      context = int context;
    }))

-- A beacon, and behind the HELLO: the received bytes and frames, the HELLO's result (1 in the highest
-- byte, one packet in the lower half), the responses, and the acknowledgement.
abbrev reports : Line
reports = (
  (0, report 0 1 0x4E424447 7)
      ∷ (110, report 1 2 28 1)
      ∷ (110, report 2 3 0x01000001 0)
      ∷ (110, report 3 5 1 0)
      ∷ (110, acknowledgement)
      ∷ [],
  0,
)

abbrev diagnosed : State patterns bench × Answer HardwareValidationResult
diagnosed = validate_serial_diagnostic patterns bench 20 protocol reports

diagnosed_succeeds : (diagnosed.1) ≡ done (result_of success diagnostic_protocol)
unfolding message_code message_of role_code role_of status_code status_of message_type uint pack
    unpack crc16_ccitt cobs_encode cobs_decode raw_packet encode_packet strip_delimiter read_header
    read_raw_packet decode_packet reset_parser take_frame feed_delimiter feed_value feed_byte
    feed_loop feed encode_hello encode_hello_ack encode_typed_payload require_payload_size
    decode_hello_ack read_payload decode_typed_payload decode_packet_payload make_packet decode_enum
    or_raise error_code error_of encode_error decode_error note_detail note_packets poll_rounds
    write_loop write_all beacon_loop probe_loop hello_error probe_protocol probe_usb
    validate_serial_diagnostic
diagnosed_succeeds = refl

validate_serial_diagnostic-Diagnosed_example :
    Diagnosed patterns bench protocol reports (diagnosed.0)
validate_serial_diagnostic-Diagnosed_example =
    validate_serial_diagnostic-Diagnosed patterns bench 20 protocol reports
      (result_of success diagnostic_protocol) diagnosed_succeeds refl

-- A line with a beacon to read.
abbrev beaconed : Diagnosis Line
beaconed = record { transport = reports; parser = new_parser; status = new_status }

poll_rounds-Polled_example :
    IsNoted ((poll_rounds patterns line 32 beaconed).0.status)
    × Grows new_status ((poll_rounds patterns line 32 beaconed).0.status)
poll_rounds-Polled_example = poll_rounds-Polled patterns line 32 beaconed new_status-IsNoted

-- The milliseconds up to one behind a deadline.
abbrev line_left : ℕ → Line → ℕ
line_left d t = d + 1 - t.1

same_left : (d : ℕ) (t u : Line) → u.1 ≡ t.1 → line_left d u ≤ line_left d t
same_left d t u e = omega (arith, e)

abbrev line_paced : Paced bench
line_paced = record {
  left = line_left;
  rounds = 3001;
  look = λ d t. omega arith;
  wait = λ d t. omega arith;
  read = λ d t u n r e. same_left d t u (sym (ap (λ x. x.0.1) e) ∙ read_time t n);
  write = λ d t u bytes r e. same_left d t u (sym (ap (λ x. x.0.1) e));
  late = λ d t e. ground arith;
  later = λ d t e. ground arith;
  near = λ t. omega arith;
  nearer = λ t. omega arith;
}

validate_serial_diagnostic_ends_example :
    (validate_serial_diagnostic patterns bench 3002 usb reports).1 ≢ failed out_of_fuel
validate_serial_diagnostic_ends_example =
    validate_serial_diagnostic_ends patterns bench line_paced 3002 (omega arith) usb reports
