-- ===== src/Hardware/Diagnostic/Growth.antt =====
-- What `_poll_diagnostic` (host/src/navbench/hardware.py) never takes back, and the fields of its
-- status.
use navbench.Common.{
  ℕ, ◌+◌, ◌^◌, ◌<◌, ◌≤◌, ◌≡◌, refl, true, some, leb, ◌==◌, ◌&&◌, Bool-cases, arith, inl, inr,
  leb-true→le,
}
use navbench.Protocol.Payload.Types.{HelloAckPayload}
use navbench.Session.Run.{if_both}
use navbench.Hardware.Diagnostic.{
  DiagnosticStatus, new_status, diagnostic_magic, low_half, note_beacon, note_received, note_hello,
  note_write, note_responses, note_detail,
}

-- The beacon stays seen, and no counter falls.
pub record Grows (s s' : DiagnosticStatus) : Type 0 where
  pub beacon : s.beacon_seen ≡ true → s'.beacon_seen ≡ true
  pub received_bytes : s.serial_rx_bytes ≤ s'.serial_rx_bytes
  pub received_frames : s.parser_frames_received ≤ s'.parser_frames_received
  pub errors : s.parser_errors ≤ s'.parser_errors
  pub hellos : s.hello_packets ≤ s'.hello_packets
  pub created : s.response_frames_created ≤ s'.response_frames_created
  pub dropped : s.response_frames_dropped ≤ s'.response_frames_dropped
  pub sent_bytes : s.serial_tx_bytes ≤ s'.serial_tx_bytes
  pub frames : s.diagnostic_frames ≤ s'.diagnostic_frames

-- The fields that are cut out of a word are as short as their masks, and the way to the host is
-- proven when the beacon is seen.
pub record IsNoted (s : DiagnosticStatus) : Type 0 where
  pub proven : s.tx_proven ≡ s.beacon_seen
  pub result_lt : s.hello_result < 2 ^ 8
  pub status_lt : s.parser_status < 2 ^ 8
  pub packets_lt : s.hello_packets < 2 ^ 16
  pub dropped_lt : s.response_frames_dropped < 2 ^ 16
  pub pending_lt : s.response_frames_pending < 2 ^ 16
  pub requested_lt : s.last_write_requested < 2 ^ 16
  pub written_lt : s.last_write_result < 2 ^ 16

pub new_status-IsNoted : IsNoted new_status
new_status-IsNoted = record {
  proven = refl;
  result_lt = omega arith;
  status_lt = omega arith;
  packets_lt = omega arith;
  dropped_lt = omega arith;
  pending_lt = omega arith;
  requested_lt = omega arith;
  written_lt = omega arith;
}

-- A step from a status that is noted.
abbrev pub Step : DiagnosticStatus → DiagnosticStatus → Type 0
Step s s' = IsNoted s' × Grows s s'

pub Grows-refl : (s : DiagnosticStatus) → Grows s s
Grows-refl s = record {
  beacon = λ e. e;
  received_bytes = omega arith;
  received_frames = omega arith;
  errors = omega arith;
  hellos = omega arith;
  created = omega arith;
  dropped = omega arith;
  sent_bytes = omega arith;
  frames = omega arith;
}

pub Grows-trans : (s s' s'' : DiagnosticStatus) → Grows s s' → Grows s' s'' → Grows s s''
Grows-trans s s' s'' g h = record {
  beacon = λ e. h.beacon (g.beacon e);
  received_bytes = omega (arith, g.received_bytes, h.received_bytes);
  received_frames = omega (arith, g.received_frames, h.received_frames);
  errors = omega (arith, g.errors, h.errors);
  hellos = omega (arith, g.hellos, h.hellos);
  created = omega (arith, g.created, h.created);
  dropped = omega (arith, g.dropped, h.dropped);
  sent_bytes = omega (arith, g.sent_bytes, h.sent_bytes);
  frames = omega (arith, g.frames, h.frames);
}

pub Step-trans : (s s' s'' : DiagnosticStatus) → Grows s s' → Step s' s'' → Step s s''
Step-trans s s' s'' g (noted, h) = (noted, Grows-trans s s' s'' g h)

note_beacon-Step : (context : ℕ) (s : DiagnosticStatus) → IsNoted s → Step s (note_beacon context s)
note_beacon-Step context s h = (
  record {
    proven = refl;
    result_lt = h.result_lt;
    status_lt = h.status_lt;
    packets_lt = h.packets_lt;
    dropped_lt = h.dropped_lt;
    pending_lt = h.pending_lt;
    requested_lt = h.requested_lt;
    written_lt = h.written_lt;
  },
  record {
    beacon = λ e. refl;
    received_bytes = omega arith;
    received_frames = omega arith;
    errors = omega arith;
    hellos = omega arith;
    created = omega arith;
    dropped = omega arith;
    sent_bytes = omega arith;
    frames = omega arith;
  },
)

note_received-Step :
    (related context : ℕ) (s : DiagnosticStatus)
    → IsNoted s
    → Step s (note_received related context s)
note_received-Step related context s h = (
  record {
    proven = h.proven;
    result_lt = h.result_lt;
    status_lt = h.status_lt;
    packets_lt = h.packets_lt;
    dropped_lt = h.dropped_lt;
    pending_lt = h.pending_lt;
    requested_lt = h.requested_lt;
    written_lt = h.written_lt;
  },
  record {
    beacon = λ e. e;
    received_bytes = omega arith;
    received_frames = omega arith;
    errors = omega arith;
    hellos = omega arith;
    created = omega arith;
    dropped = omega arith;
    sent_bytes = omega arith;
    frames = omega arith;
  },
)

note_hello-Step :
    (related context : ℕ) (s : DiagnosticStatus) → IsNoted s → Step s (note_hello related context s)
note_hello-Step related context s h = elim (Bool-cases (leb s.hello_packets (low_half related))) [
  | inl newer ↦ simp newer (
    record {
      proven = h.proven;
      result_lt = omega arith;
      status_lt = omega arith;
      packets_lt = omega arith;
      dropped_lt = h.dropped_lt;
      pending_lt = h.pending_lt;
      requested_lt = h.requested_lt;
      written_lt = h.written_lt;
    },
    record {
      beacon = λ e. e;
      received_bytes = omega arith;
      received_frames = omega arith;
      errors = omega arith;
      hellos = leb-true→le s.hello_packets (low_half related) newer;
      created = omega arith;
      dropped = omega arith;
      sent_bytes = omega arith;
      frames = omega arith;
    },
  )
  | inr older ↦ simp older (h, Grows-refl s)
]

note_write-Step :
    (related context : ℕ) (s : DiagnosticStatus) → IsNoted s → Step s (note_write related context s)
note_write-Step related context s h = (
  record {
    proven = h.proven;
    result_lt = h.result_lt;
    status_lt = h.status_lt;
    packets_lt = h.packets_lt;
    dropped_lt = h.dropped_lt;
    pending_lt = h.pending_lt;
    requested_lt = omega arith;
    written_lt = omega arith;
  },
  record {
    beacon = λ e. e;
    received_bytes = omega arith;
    received_frames = omega arith;
    errors = omega arith;
    hellos = omega arith;
    created = omega arith;
    dropped = omega arith;
    sent_bytes = omega arith;
    frames = omega arith;
  },
)

note_responses-Step :
    (related context : ℕ) (s : DiagnosticStatus)
    → IsNoted s
    → Step s (note_responses related context s)
note_responses-Step related context s h = (
  record {
    proven = h.proven;
    result_lt = h.result_lt;
    status_lt = h.status_lt;
    packets_lt = h.packets_lt;
    dropped_lt = omega (arith, h.dropped_lt);
    pending_lt = omega arith;
    requested_lt = h.requested_lt;
    written_lt = h.written_lt;
  },
  record {
    beacon = λ e. e;
    received_bytes = omega arith;
    received_frames = omega arith;
    errors = omega arith;
    hellos = omega arith;
    created = omega arith;
    dropped = omega arith;
    sent_bytes = omega arith;
    frames = omega arith;
  },
)

pub note_detail-Step :
    (detail related context : ℕ) (s : DiagnosticStatus)
    → IsNoted s
    → Step s (note_detail detail related context s)
unfolding note_detail
note_detail-Step detail related context s h =
    if_both (Step s) (detail == 1 && related == diagnostic_magic) _ _ (note_beacon-Step context s h)
      (if_both (Step s) (detail == 2) _ _ (note_received-Step related context s h) (
        if_both (Step s) (detail == 3) _ _ (note_hello-Step related context s h) (
          if_both (Step s) (detail == 4) _ _ (note_write-Step related context s h) (
            if_both (Step s) (detail == 5) _ _ (note_responses-Step related context s h)
              (h, Grows-refl s)))))

abbrev pub counted : DiagnosticStatus → DiagnosticStatus
counted s = record s { diagnostic_frames = s.diagnostic_frames + 1 }

pub counted-Step : (s : DiagnosticStatus) → IsNoted s → Step s (counted s)
counted-Step s h = (
  record {
    proven = h.proven;
    result_lt = h.result_lt;
    status_lt = h.status_lt;
    packets_lt = h.packets_lt;
    dropped_lt = h.dropped_lt;
    pending_lt = h.pending_lt;
    requested_lt = h.requested_lt;
    written_lt = h.written_lt;
  },
  record {
    beacon = λ e. e;
    received_bytes = omega arith;
    received_frames = omega arith;
    errors = omega arith;
    hellos = omega arith;
    created = omega arith;
    dropped = omega arith;
    sent_bytes = omega arith;
    frames = omega arith;
  },
)

pub acknowledged-Step :
    (ack : HelloAckPayload) (s : DiagnosticStatus)
    → IsNoted s
    → Step s (record s { hello_ack = some ack })
acknowledged-Step ack s h = (
  record {
    proven = h.proven;
    result_lt = h.result_lt;
    status_lt = h.status_lt;
    packets_lt = h.packets_lt;
    dropped_lt = h.dropped_lt;
    pending_lt = h.pending_lt;
    requested_lt = h.requested_lt;
    written_lt = h.written_lt;
  },
  record {
    beacon = λ e. e;
    received_bytes = omega arith;
    received_frames = omega arith;
    errors = omega arith;
    hellos = omega arith;
    created = omega arith;
    dropped = omega arith;
    sent_bytes = omega arith;
    frames = omega arith;
  },
)
