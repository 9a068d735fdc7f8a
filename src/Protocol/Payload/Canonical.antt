-- ===== src/Protocol/Payload/Canonical.antt =====
-- A payload that decode_typed_payload of host/src/navbench/protocol.py accepts is what
-- encode_typed_payload makes of the result: messages of integers and enumerations.
use navbench.Common.{ℕ, ◌≡◌, List, [], ◌∷◌, arith}
use navbench.Protocol.Error.{ok}
use navbench.Protocol.Enums.{decode_enum}
use navbench.Protocol.Enums.Laws.{
  role_code-role_of, status_code-status_of, runtime_code-runtime_of, reason_code-reason_of,
  error_code-error_of,
}
use navbench.Protocol.Struct.{pack}
use navbench.Protocol.Payload.Types.{
  HelloPayload, HelloAckPayload, HeartbeatPayload, ErrorPayload, SafeStopPayload,
}
use navbench.Protocol.Payload.Encode.{
  hello_format, hello_ack_format, heartbeat_format, error_format, safe_stop_format, encode_hello,
  encode_hello_ack, encode_heartbeat, encode_error, encode_safe_stop,
}
use navbench.Protocol.Payload.Decode.{
  decode_hello, decode_hello_ack, decode_heartbeat, decode_error, decode_safe_stop,
}

pub hello_back :
    (role minimum maximum reserved capabilities limit timeout : ℕ) (p : HelloPayload) (b : List ℕ)
    → decode_hello (role ∷ minimum ∷ maximum ∷ reserved ∷ capabilities ∷ limit ∷ timeout ∷ [])
      ≡ ok p
    → encode_hello p ≡ ok b
    → b
      ≡ pack hello_format
          (role ∷ minimum ∷ maximum ∷ reserved ∷ capabilities ∷ limit ∷ timeout ∷ [])
unfolding decode_hello encode_hello decode_enum
hello_back role minimum maximum reserved capabilities limit timeout p b h k =
    ground (arith, role_code-role_of role p.role)

pub hello_ack_back :
    (version status role reserved capabilities limit timeout : ℕ) (p : HelloAckPayload) (b : List ℕ)
    → decode_hello_ack (version ∷ status ∷ role ∷ reserved ∷ capabilities ∷ limit ∷ timeout ∷ [])
      ≡ ok p
    → encode_hello_ack p ≡ ok b
    → b
      ≡ pack hello_ack_format
          (version ∷ status ∷ role ∷ reserved ∷ capabilities ∷ limit ∷ timeout ∷ [])
unfolding decode_hello_ack encode_hello_ack decode_enum
hello_ack_back version status role reserved capabilities limit timeout p b h k =
    ground (arith, role_code-role_of role p.role, status_code-status_of status p.status)

pub heartbeat_back :
    (uptime monotonic state : ℕ) (p : HeartbeatPayload) (b : List ℕ)
    → decode_heartbeat (uptime ∷ monotonic ∷ state ∷ []) ≡ ok p
    → encode_heartbeat p ≡ ok b
    → b ≡ pack heartbeat_format (uptime ∷ monotonic ∷ state ∷ [])
unfolding decode_heartbeat encode_heartbeat decode_enum
heartbeat_back uptime monotonic state p b h k =
    ground (arith, runtime_code-runtime_of state p.runtime_state)

pub error_back :
    (code detail related context : ℕ) (p : ErrorPayload) (b : List ℕ)
    → decode_error (code ∷ detail ∷ related ∷ context ∷ []) ≡ ok p
    → encode_error p ≡ ok b
    → b ≡ pack error_format (code ∷ detail ∷ related ∷ context ∷ [])
unfolding decode_error encode_error decode_enum
error_back code detail related context p b h k = ground (arith, error_code-error_of code p.code)

pub safe_stop_back :
    (reason latch detail : ℕ) (p : SafeStopPayload) (b : List ℕ)
    → decode_safe_stop (reason ∷ latch ∷ detail ∷ []) ≡ ok p
    → encode_safe_stop p ≡ ok b
    → b ≡ pack safe_stop_format (reason ∷ latch ∷ detail ∷ [])
unfolding decode_safe_stop encode_safe_stop decode_enum
safe_stop_back reason latch detail p b h k = ground (arith, reason_code-reason_of reason p.reason)
