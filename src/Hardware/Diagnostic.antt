-- ===== src/Hardware/Diagnostic.antt =====
-- What host/src/navbench/hardware.py reads from the diagnostic frames of a controller:
-- `_DiagnosticStatus` and `_poll_diagnostic`.
pub mod Growth
pub mod Polls
use navbench.Common.{
  ℕ, zero, suc, ◌+◌, ◌*◌, ◌/◌, ◌%◌, ◌^◌, max, Bool, true, false, not, ◌&&◌, ◌||◌, Option, none,
  some, List, [], ◌∷◌, leb, ltb, ◌==◌, if◌then◌else◌,
}
use navbench.Protocol.Error.{Result, ok, err}
use navbench.Protocol.Value.{value, Binary32}
use navbench.Protocol.Enums.{ApplicationErrorCode}
use navbench.Protocol.Packet.{Packet}
use navbench.Protocol.Payload.Types.{TypedPayload, HelloAckPayload, ErrorPayload}
use navbench.Protocol.Payload.Decode.{decode_packet_payload}
use navbench.Protocol.Stream.{StreamParser, ParseBatch, feed}
use navbench.Transport.Interface.{ByteTransport, ReadResult, received, read_failed}
use navbench.Session.Run.{Answer, done, failed, transport_error, Run}

-- `_DiagnosticStatus`
pub record DiagnosticStatus : Type 0 where
  pub beacon_seen : Bool
  pub tx_proven : Bool
  pub write_diagnostic_seen : Bool
  pub uptime_ms : ℕ
  pub serial_rx_bytes : ℕ
  pub parser_frames_received : ℕ
  pub parser_status : ℕ
  pub parser_errors : ℕ
  pub hello_result : ℕ
  pub hello_packets : ℕ
  pub response_frames_created : ℕ
  pub response_frames_dropped : ℕ
  pub response_frames_pending : ℕ
  pub serial_tx_bytes : ℕ
  pub last_write_requested : ℕ
  pub last_write_result : ℕ
  pub diagnostic_frames : ℕ
  pub hello_ack : Option HelloAckPayload

abbrev pub new_status : DiagnosticStatus
new_status = record {
  beacon_seen = false;
  tx_proven = false;
  write_diagnostic_seen = false;
  uptime_ms = 0;
  serial_rx_bytes = 0;
  parser_frames_received = 0;
  parser_status = 0;
  parser_errors = 0;
  hello_result = 0;
  hello_packets = 0;
  response_frames_created = 0;
  response_frames_dropped = 0;
  response_frames_pending = 0;
  serial_tx_bytes = 0;
  last_write_requested = 0;
  last_write_result = 0;
  diagnostic_frames = 0;
  hello_ack = none;
}

-- `_DIAGNOSTIC_MAGIC`
abbrev pub diagnostic_magic : ℕ
diagnostic_magic = 0x4E424447

-- x & 0xFFFF and (x >> 16) & 0xFFFF
abbrev pub low_half : ℕ → ℕ
low_half x = x % 2 ^ 16

abbrev pub high_half : ℕ → ℕ
high_half x = x / 2 ^ 16 % 2 ^ 16

-- (x >> 24) & 0xFF and (x >> 16) & 0xFF
abbrev pub top_byte : ℕ → ℕ
top_byte x = x / 2 ^ 24 % 2 ^ 8

abbrev pub third_byte : ℕ → ℕ
third_byte x = x / 2 ^ 16 % 2 ^ 8

-- The five kinds of diagnostic frames.
abbrev pub note_beacon : (context : ℕ) → DiagnosticStatus → DiagnosticStatus
note_beacon context status = record status {
  beacon_seen = true;
  tx_proven = true;
  uptime_ms = context;
}

abbrev pub note_received : (related context : ℕ) → DiagnosticStatus → DiagnosticStatus
note_received related context status = record status {
  serial_rx_bytes = max status.serial_rx_bytes related;
  parser_frames_received = max status.parser_frames_received context;
}

abbrev pub note_hello : (related context : ℕ) → DiagnosticStatus → DiagnosticStatus
note_hello related context status =
    if leb status.hello_packets (low_half related)
    then record status {
      hello_result = top_byte related;
      parser_status = third_byte related;
      hello_packets = low_half related;
      parser_errors = max status.parser_errors context;
    }
    else status

abbrev pub note_write : (related context : ℕ) → DiagnosticStatus → DiagnosticStatus
note_write related context status = record status {
  write_diagnostic_seen = true;
  last_write_requested = high_half related;
  last_write_result = low_half related;
  serial_tx_bytes = max status.serial_tx_bytes context;
}

abbrev pub note_responses : (related context : ℕ) → DiagnosticStatus → DiagnosticStatus
note_responses related context status = record status {
  response_frames_created = max status.response_frames_created related;
  response_frames_dropped = max status.response_frames_dropped (high_half context);
  response_frames_pending = low_half context;
}

unfoldable pub note_detail : (detail related context : ℕ) → DiagnosticStatus → DiagnosticStatus
note_detail detail related context status =
    if detail == 1 && related == diagnostic_magic
    then note_beacon context status
    else if detail == 2
    then note_received related context status
    else if detail == 3
    then note_hello related context status
    else if detail == 4
    then note_write related context status
    else if detail == 5
    then note_responses related context status
    else status

-- An ERROR with the code DIAGNOSTIC.
abbrev pub note_error : ApplicationErrorCode → ErrorPayload → DiagnosticStatus → DiagnosticStatus
note_error ApplicationErrorCode.diagnostic p status =
    note_detail (value p.detail) (value p.related_sequence) (value p.context)
      (record status { diagnostic_frames = status.diagnostic_frames + 1 })
note_error code p status = status

module _ {F : Type 0} where
  abbrev pub note_payload : Result (TypedPayload F) → DiagnosticStatus → DiagnosticStatus
  note_payload (ok (TypedPayload.hello_ack p)) status = record status { hello_ack = some p }
  note_payload (ok (TypedPayload.error p)) status = note_error p.code p status
  note_payload payload status = status

-- A transport, the parser of what it is read, and what was noted.
pub record Diagnosis (T : Type 0) : Type 0 where
  pub transport : T
  pub parser : StreamParser
  pub status : DiagnosticStatus

module _ (fl : Binary32) where
  unfoldable pub note_packets : List Packet → DiagnosticStatus → DiagnosticStatus
  note_packets [] status = status
  note_packets (packet ∷ packets) status =
      note_packets packets (note_payload (decode_packet_payload fl packet) status)

  abbrev pub note_batch :
      {T : Type 0} → T → StreamParser × ParseBatch → DiagnosticStatus → Diagnosis T
  note_batch transport (parser, batch) status = record {
    transport = transport;
    parser = parser;
    status = note_packets batch.packets status;
  }

  module _ (io : ByteTransport) where
    open io use {Transport, read}

    -- A round of the loop of `_poll_diagnostic`.
    abbrev pub poll_round :
        Run (Diagnosis Transport) (Unit {0})
        → Diagnosis Transport
        → Transport × ReadResult
        → Diagnosis Transport × Answer (Unit {0})
    poll_round next s (transport, read_failed) =
        (record s { transport = transport }, failed transport_error)
    poll_round next s (transport, received []) = (record s { transport = transport }, done tt)
    poll_round next s (transport, received (byte ∷ bytes)) =
        next (note_batch transport (feed s.parser (byte ∷ bytes)) s.status)

    unfoldable pub poll_rounds : ℕ → Run (Diagnosis Transport) (Unit {0})
    poll_rounds zero s = (s, done tt)
    poll_rounds (suc reads) s = poll_round (poll_rounds reads) s (read s.transport 512)

    -- `_poll_diagnostic`
    abbrev pub poll_diagnostic : Run (Diagnosis Transport) (Unit {0})
    poll_diagnostic = poll_rounds 32
