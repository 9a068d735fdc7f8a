-- ===== src/Tests/Bench.antt =====
-- A scripted line with a clock, for the runs of host/src/navbench/hardware.py.
use navbench.Common.{◌≡◌, refl, Bool-cases, inl, inr}
use navbench.Common.{ℕ, ◌+◌, ◌-◌, some, List, [], ◌∷◌, length, ltb, leb, if◌then◌else◌}
use navbench.Protocol.Error.{Result, ok, err, ◌>>=◌}
use navbench.Protocol.Value.{int}
use navbench.Protocol.Enums.{MessageType, accepted, controller}
use navbench.Protocol.Packet.{encode_packet}
use navbench.Protocol.Payload.Types.{TypedPayload}
use navbench.Protocol.Payload.Encode.{encode_typed_payload}
use navbench.Transport.Interface.{ByteTransport, wrote, ReadResult, received}
use navbench.Hardware.Types.{Bench}
use navbench.Protocol.Enums.{message_type}
use navbench.Tests.Floats.{patterns}

abbrev pub or_empty : Result (List ℕ) → List ℕ
or_empty (ok bytes) = bytes
or_empty (err e) = []

abbrev pub packed : MessageType → (sequence step_id : ℕ) → TypedPayload ℕ → List ℕ
packed message_type sequence step_id payload = or_empty (
    encode_typed_payload patterns message_type payload >>= λ bytes. encode_packet (record {
      message_type = message_type;
      sequence = int sequence;
      step_id = int step_id;
      payload = bytes;
    }))

abbrev pub acknowledgement : List ℕ
acknowledgement = packed MessageType.hello_ack 0 0 (
    TypedPayload.hello_ack (record {
      accepted_version = int 1;
      status = accepted;
      role = controller;
      capabilities = int 31;
      max_payload = int 128;
      heartbeat_timeout_ms = int 500;
    }))

-- What is still to be read, each from a time in milliseconds on; and the time.
abbrev pub Line : Type 0
Line = List (ℕ × List ℕ) × ℕ

abbrev pub line_read : Line → ℕ → Line × ReadResult
line_read ([], now) max_bytes = (([], now), received [])
line_read ((due, chunk) ∷ chunks, now) max_bytes =
    if leb due now
    then ((chunks, now), received chunk)
    else (((due, chunk) ∷ chunks, now), received [])

abbrev pub line : ByteTransport
line = record {
  Transport = Line;
  write = λ t bytes. (t, wrote (length bytes));
  read = line_read;
  close = λ t. t;
}

abbrev pub ticked : Line → Line
ticked (chunks, now) = (chunks, now + 20)

-- Each look at the clock takes 20 ms; seconds are whole milliseconds.
abbrev pub bench : Bench
bench = record {
  io = line;
  Seconds = ℕ;
  clock = λ t. (ticked t, (ticked t).1);
  sleep = λ ms t. (t.0, t.1 + ms);
  plus = λ x y. x + y;
  minus = λ x y. x - y;
  at_most = leb;
  below = ltb;
  milliseconds = λ x. some x;
  of_milliseconds = λ n. n;
}

-- A read takes no time.
pub read_time : (t : Line) (n : ℕ) → (line_read t n).0.1 ≡ t.1
read_time ([], now) n = refl
read_time ((due, chunk) ∷ chunks, now) n = elim (Bool-cases (leb due now)) [
  | inl ready ↦ simp ready refl
  | inr waiting ↦ simp waiting refl
]
