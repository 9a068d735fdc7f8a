-- ===== src/Hardware/Probe/Welcome.antt =====
-- What it means that `_diagnostic_hello_error` (host/src/navbench/hardware.py) returns None.
use navbench.Common.{
  ℕ, ◌+◌, ◌≤◌, ◌≡◌, refl, inl, inr, Bool, true, false, not, ◌&&◌, ◌||◌, Option, none, some, ltb,
  ltb-false→le, ◌==◌, Bool-cases, if◌then◌else◌, arith,
}
use navbench.Protocol.Payload.Types.{HelloAckPayload}
use navbench.Hardware.Diagnostic.{DiagnosticStatus}
use navbench.Hardware.Report.{
  HelloError, hello_error, is_none, is_incomplete, ack_error, is_compatible,
}

-- The controller has parsed one HELLO of so many bytes, accepted it, and answered it once.
pub record Welcomed (status : DiagnosticStatus) (bytes : ℕ) : Type 0 where
  pub heard : bytes ≤ status.serial_rx_bytes
  pub result : status.hello_result ≡ 1
  pub parsed : status.parser_status ≡ 0
  pub one_hello : status.hello_packets ≡ 1
  pub one_frame : 1 ≤ status.parser_frames_received
  pub one_response : status.response_frames_created ≡ 1
  pub none_dropped : status.response_frames_dropped ≡ 0
  pub none_pending : status.response_frames_pending ≡ 0
  pub complete_write : is_incomplete status ≡ false
  pub ack : (p : HelloAckPayload) × (status.hello_ack ≡ some p) × (is_compatible p ≡ true)

passed_test :
    (test : Bool) (e : HelloError) (rest : Option HelloError)
    → (if test then some e else rest) ≡ none
    → (test ≡ false) × (rest ≡ none)
passed_test true e rest h = absurd cc
passed_test false e rest h = (refl, h)

neither : (p q : Bool) → (p || q) ≡ false → (p ≡ false) × (q ≡ false)
neither false false h = (refl, refl)
neither true q h = absurd cc
neither false true h = absurd cc

pub both : (p q : Bool) → (p && q) ≡ true → (p ≡ true) × (q ≡ true)
both true true h = (refl, refl)
both false q h = absurd cc
both true false h = absurd cc

equal_number : (m n : ℕ) → not (m == n) ≡ false → m ≡ n
equal_number m n h = ground arith

pub second_le : (m n k : ℕ) → m + n ≤ k → n ≤ k
second_le m n k h = omega arith

pub positive : (m n : ℕ) → ltb m n ≡ true → 1 ≤ n
positive m n h = ground arith

pub is_none-none : (e : Option HelloError) → is_none e ≡ true → e ≡ none
is_none-none none h = refl
is_none-none (some e) h = absurd cc

ack_error-none :
    (ack : Option HelloAckPayload)
    → ack_error ack ≡ none
    → (p : HelloAckPayload) × (ack ≡ some p) × (is_compatible p ≡ true)
ack_error-none none h = absurd cc
ack_error-none (some p) h = elim (Bool-cases (is_compatible p)) [
  | inl fits ↦ (p, refl, fits)
  | inr other ↦ absurd (let g = rw other at h in cc)
]

pub hello_error-Welcomed :
    (status : DiagnosticStatus) (rx bytes frames : ℕ)
    → hello_error status (rx + bytes) (frames + 1) ≡ none
    → Welcomed status bytes
unfolding hello_error
hello_error-Welcomed status rx bytes frames h =
    let (heard, h1) = passed_test _ _ _ h in
    let (accepted, h2) = passed_test _ _ _ h1 in
    let (one, h3) = passed_test _ _ _ h2 in
    let (parsed, h4) = passed_test _ _ _ h3 in
    let (created, h5) = passed_test _ _ _ h4 in
    let (kept, h6) = passed_test _ _ _ h5 in
    let (sent, h7) = passed_test _ _ _ h6 in
    let (written, h8) = passed_test _ _ _ h7 in
    let (result, state) = neither _ _ accepted in
    record {
      heard =
          second_le rx bytes status.serial_rx_bytes
            (ltb-false→le status.serial_rx_bytes (rx + bytes) heard);
      result = equal_number status.hello_result 1 result;
      parsed = equal_number status.parser_status 0 state;
      one_hello = equal_number status.hello_packets 1 one;
      one_frame =
          second_le frames 1 status.parser_frames_received
            (ltb-false→le status.parser_frames_received (frames + 1) parsed);
      one_response = equal_number status.response_frames_created 1 created;
      none_dropped = equal_number status.response_frames_dropped 0 kept;
      none_pending = equal_number status.response_frames_pending 0 sent;
      complete_write = written;
      ack = ack_error-none status.hello_ack h8;
    }
