-- ===== src/Protocol/Enums.antt =====
-- The enumerations of host/src/navbench/protocol.py with their wire values, and `_decode_enum`.
pub mod Laws
use navbench.Common.{
  ℕ, ◌<◌, ◌≡◌, refl, Bool, true, false, Option, some, none, ◌==◌, if◌then◌else◌, arith,
}
use navbench.Protocol.Error.{
  Result, ok, err, ProtocolErrorCode, invalid_value, unknown_message_type, ◌>>=◌,
}
use navbench.Protocol.Value.{Scalar, int, negative, boolean, other}

pub data MessageType : Type 0 where
  hello hello_ack sensor_frame route_chunk control_command state_estimate : MessageType
  health_status heartbeat error safe_stop : MessageType

unfoldable pub message_code : MessageType → ℕ
message_code hello = 0x01
message_code hello_ack = 0x02
message_code sensor_frame = 0x10
message_code route_chunk = 0x11
message_code control_command = 0x20
message_code state_estimate = 0x21
message_code health_status = 0x22
message_code heartbeat = 0x23
message_code error = 0x7E
message_code safe_stop = 0x7F

-- `MessageType(n)`, `none` for ValueError
unfoldable pub message_of : ℕ → Option MessageType
message_of n =
    if n == 0x01
    then some hello
    else if n == 0x02
    then some hello_ack
    else if n == 0x10
    then some sensor_frame
    else if n == 0x11
    then some route_chunk
    else if n == 0x20
    then some control_command
    else if n == 0x21
    then some state_estimate
    else if n == 0x22
    then some health_status
    else if n == 0x23
    then some heartbeat
    else if n == 0x7E
    then some error
    else if n == 0x7F
    then some safe_stop
    else none

pub data EndpointRole : Type 0 where
  host controller : EndpointRole

unfoldable pub role_code : EndpointRole → ℕ
role_code host = 1
role_code controller = 2

unfoldable pub role_of : ℕ → Option EndpointRole
role_of n = if n == 1 then some host else if n == 2 then some controller else none

pub data HelloStatus : Type 0 where
  accepted version_mismatch busy rejected : HelloStatus

unfoldable pub status_code : HelloStatus → ℕ
status_code accepted = 0
status_code version_mismatch = 1
status_code busy = 2
status_code rejected = 3

unfoldable pub status_of : ℕ → Option HelloStatus
status_of n =
    if n == 0
    then some accepted
    else if n == 1
    then some version_mismatch
    else if n == 2
    then some busy
    else if n == 3
    then some rejected
    else none

pub data ControlMode : Type 0 where
  neutral tracking safe_stop : ControlMode

unfoldable pub mode_code : ControlMode → ℕ
mode_code neutral = 0
mode_code tracking = 1
mode_code safe_stop = 2

unfoldable pub mode_of : ℕ → Option ControlMode
mode_of n =
    if n == 0
    then some neutral
    else if n == 1
    then some tracking
    else if n == 2
    then some ControlMode.safe_stop
    else none

pub data RuntimeState : Type 0 where
  startup self_test ready running degraded safe_stop fault : RuntimeState

unfoldable pub runtime_code : RuntimeState → ℕ
runtime_code startup = 0
runtime_code self_test = 1
runtime_code ready = 2
runtime_code running = 3
runtime_code degraded = 4
runtime_code safe_stop = 5
runtime_code fault = 6

unfoldable pub runtime_of : ℕ → Option RuntimeState
runtime_of n =
    if n == 0
    then some startup
    else if n == 1
    then some self_test
    else if n == 2
    then some ready
    else if n == 3
    then some running
    else if n == 4
    then some RuntimeState.degraded
    else if n == 5
    then some RuntimeState.safe_stop
    else if n == 6
    then some fault
    else none

pub data NavigationMode : Type 0 where
  unavailable dead_reckoning landmark_aided gnss_aided degraded : NavigationMode

unfoldable pub navigation_code : NavigationMode → ℕ
navigation_code unavailable = 0
navigation_code dead_reckoning = 1
navigation_code landmark_aided = 2
navigation_code gnss_aided = 3
navigation_code degraded = 4

unfoldable pub navigation_of : ℕ → Option NavigationMode
navigation_of n =
    if n == 0
    then some unavailable
    else if n == 1
    then some dead_reckoning
    else if n == 2
    then some landmark_aided
    else if n == 3
    then some gnss_aided
    else if n == 4
    then some NavigationMode.degraded
    else none

pub data SafeStopReason : Type 0 where
  nothing manual host_timeout stale_sensor protocol_error internal_fault : SafeStopReason

unfoldable pub reason_code : SafeStopReason → ℕ
reason_code nothing = 0
reason_code manual = 1
reason_code host_timeout = 2
reason_code stale_sensor = 3
reason_code protocol_error = 4
reason_code internal_fault = 5

unfoldable pub reason_of : ℕ → Option SafeStopReason
reason_of n =
    if n == 0
    then some SafeStopReason.nothing
    else if n == 1
    then some manual
    else if n == 2
    then some host_timeout
    else if n == 3
    then some stale_sensor
    else if n == 4
    then some protocol_error
    else if n == 5
    then some SafeStopReason.internal_fault
    else none

pub data ApplicationErrorCode : Type 0 where
  nothing bad_payload unsupported_message route_rejected not_ready : ApplicationErrorCode
  internal_fault diagnostic : ApplicationErrorCode

unfoldable pub error_code : ApplicationErrorCode → ℕ
error_code nothing = 0
error_code bad_payload = 1
error_code unsupported_message = 2
error_code route_rejected = 3
error_code not_ready = 4
error_code internal_fault = 5
error_code diagnostic = 6

unfoldable pub error_of : ℕ → Option ApplicationErrorCode
error_of n =
    if n == 0
    then some ApplicationErrorCode.nothing
    else if n == 1
    then some bad_payload
    else if n == 2
    then some unsupported_message
    else if n == 3
    then some route_rejected
    else if n == 4
    then some not_ready
    else if n == 5
    then some ApplicationErrorCode.internal_fault
    else if n == 6
    then some diagnostic
    else none

-- A conversion to an enumeration that may raise ValueError, with the error raised instead.
unfoldable pub or_raise {ℓ} : {E : Type ℓ} → ProtocolErrorCode → Option E → Result E
or_raise code none = err code
or_raise code (some e) = ok e

unfoldable pub decode_enum {ℓ} : {E : Type ℓ} → (ℕ → Option E) → ℕ → Result E
unfolding or_raise
decode_enum member n = or_raise invalid_value (member n)

-- `_message_type` on an integer; a member of the enumeration is one.
unfoldable pub message_type : Scalar → Result MessageType
unfolding or_raise
message_type (int n) = or_raise unknown_message_type (message_of n)
message_type _ = err unknown_message_type
