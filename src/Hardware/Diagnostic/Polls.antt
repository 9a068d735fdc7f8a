-- ===== src/Hardware/Diagnostic/Polls.antt =====
-- One call of `_poll_diagnostic` (host/src/navbench/hardware.py): what it keeps of the status.
use navbench.Common.{ℕ, zero, suc, List, [], ◌∷◌}
use navbench.Protocol.Error.{Result, ok, err}
use navbench.Protocol.Value.{value, Binary32}
use navbench.Protocol.Enums.{ApplicationErrorCode}
use navbench.Protocol.Packet.{Packet}
use navbench.Protocol.Payload.Types.{TypedPayload, ErrorPayload}
use navbench.Protocol.Payload.Decode.{decode_packet_payload}
use navbench.Protocol.Stream.{StreamParser, ParseBatch, feed}
use navbench.Transport.Interface.{ByteTransport, ReadResult, received, read_failed}
use navbench.Session.Run.{Answer, Run}
use navbench.Hardware.Diagnostic.{
  DiagnosticStatus, Diagnosis, note_error, note_payload, note_packets, note_batch, poll_round,
  poll_rounds,
}
use navbench.Hardware.Diagnostic.Growth.{
  Grows, Grows-refl, IsNoted, Step, Step-trans, note_detail-Step, counted, counted-Step,
  acknowledged-Step,
}

note_error-Step :
    (code : ApplicationErrorCode) (p : ErrorPayload) (s : DiagnosticStatus)
    → IsNoted s
    → Step s (note_error code p s)
note_error-Step ApplicationErrorCode.diagnostic p s h =
    let (noted, grown) = counted-Step s h in
    Step-trans s (counted s) _ grown (
      note_detail-Step (value p.detail) (value p.related_sequence) (value p.context) (counted s)
        noted)
note_error-Step ApplicationErrorCode.nothing p s h = (h, Grows-refl s)
note_error-Step ApplicationErrorCode.bad_payload p s h = (h, Grows-refl s)
note_error-Step ApplicationErrorCode.unsupported_message p s h = (h, Grows-refl s)
note_error-Step ApplicationErrorCode.route_rejected p s h = (h, Grows-refl s)
note_error-Step ApplicationErrorCode.not_ready p s h = (h, Grows-refl s)
note_error-Step ApplicationErrorCode.internal_fault p s h = (h, Grows-refl s)

module _ {F : Type 0} where
  note_payload-Step :
      (payload : Result (TypedPayload F)) (s : DiagnosticStatus)
      → IsNoted s
      → Step s (note_payload payload s)
  note_payload-Step (err e) s h = (h, Grows-refl s)
  note_payload-Step (ok (TypedPayload.hello_ack p)) s h = acknowledged-Step p s h
  note_payload-Step (ok (TypedPayload.error p)) s h = note_error-Step p.code p s h
  note_payload-Step (ok (TypedPayload.hello p)) s h = (h, Grows-refl s)
  note_payload-Step (ok (TypedPayload.sensor_frame p)) s h = (h, Grows-refl s)
  note_payload-Step (ok (TypedPayload.route_chunk p)) s h = (h, Grows-refl s)
  note_payload-Step (ok (TypedPayload.control_command p)) s h = (h, Grows-refl s)
  note_payload-Step (ok (TypedPayload.state_estimate p)) s h = (h, Grows-refl s)
  note_payload-Step (ok (TypedPayload.health_status p)) s h = (h, Grows-refl s)
  note_payload-Step (ok (TypedPayload.heartbeat p)) s h = (h, Grows-refl s)
  note_payload-Step (ok (TypedPayload.safe_stop p)) s h = (h, Grows-refl s)

module _ (fl : Binary32) where
  note_packets-Step :
      (packets : List Packet) (s : DiagnosticStatus)
      → IsNoted s
      → Step s (note_packets fl packets s)
  unfolding note_packets
  note_packets-Step [] s h = (h, Grows-refl s)
  note_packets-Step (packet ∷ packets) s h =
      let (noted, grown) = note_payload-Step (decode_packet_payload fl packet) s h in
      Step-trans s (note_payload (decode_packet_payload fl packet) s) _ grown
        (note_packets-Step packets (note_payload (decode_packet_payload fl packet) s) noted)

  module _ (io : ByteTransport) where
    open io use {Transport, read}

    abbrev Polled : Diagnosis Transport → Diagnosis Transport × Answer (Unit {0}) → Type 0
    Polled s r = Step s.status (r.0.status)

    note_batch-Step :
        (t : Transport) (batch : StreamParser × ParseBatch) (s : DiagnosticStatus)
        → IsNoted s
        → Step s ((note_batch fl t batch s).status)
    note_batch-Step t (parser, batch) s h = note_packets-Step batch.packets s h

    poll_round-Polled :
        (next : Run (Diagnosis Transport) (Unit {0})) (s : Diagnosis Transport)
        (r : Transport × ReadResult)
        → IsNoted s.status
        → ((s' : Diagnosis Transport) → IsNoted s'.status → Polled s' (next s'))
        → Polled s (poll_round fl io next s r)
    poll_round-Polled next s (t, read_failed) h continued = (h, Grows-refl s.status)
    poll_round-Polled next s (t, received []) h continued = (h, Grows-refl s.status)
    poll_round-Polled next s (t, received (byte ∷ bytes)) h continued =
        let s' = note_batch fl t (feed s.parser (byte ∷ bytes)) s.status in
        let (noted, grown) = note_batch-Step t (feed s.parser (byte ∷ bytes)) s.status h in
        Step-trans s.status s'.status _ grown (continued s' noted)

    -- Any rounds of polling for diagnostic frames, those that raise included, keep the fields of the
    -- status that are cut out of a word as short as their masks, and the way to the host proven exactly
    -- when the beacon is seen; the beacon stays seen, and none of the counters of bytes, frames, errors,
    -- HELLO packets and responses falls.
    pub poll_rounds-Polled :
        (reads : ℕ) (s : Diagnosis Transport)
        → IsNoted s.status
        → IsNoted ((poll_rounds fl io reads s).0.status)
          × Grows s.status ((poll_rounds fl io reads s).0.status)
    unfolding poll_rounds
    poll_rounds-Polled zero s h = (h, Grows-refl s.status)
    poll_rounds-Polled (suc reads) s h =
        poll_round-Polled (poll_rounds fl io reads) s (read s.transport 512) h
          (poll_rounds-Polled reads)
