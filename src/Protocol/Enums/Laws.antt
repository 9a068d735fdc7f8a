-- ===== src/Protocol/Enums/Laws.antt =====
-- The wire values of the enumerations of host/src/navbench/protocol.py, there and back.
use navbench.Common.{ℕ, ◌<◌, ◌≡◌, refl, Option, some, none, arith}
use navbench.Protocol.Error.{ok, ProtocolErrorCode, invalid_value}
use navbench.Protocol.Value.{int}
use navbench.Protocol.Enums.{
  MessageType, EndpointRole, HelloStatus, ControlMode, RuntimeState, NavigationMode, SafeStopReason,
  ApplicationErrorCode, message_code, message_of, role_code, role_of, status_code, status_of,
  mode_code, mode_of, runtime_code, runtime_of, navigation_code, navigation_of, reason_code,
  reason_of, error_code, error_of, decode_enum, or_raise, message_type,
}

pub message_code-message_of : (n : ℕ) (e : MessageType) → message_of n ≡ some e → message_code e ≡ n
unfolding message_of message_code
message_code-message_of n e h = ground arith

pub message_of-message_code : (e : MessageType) → message_of (message_code e) ≡ some e
unfolding message_of message_code
message_of-message_code MessageType.hello = refl
message_of-message_code _ = refl

pub message_code-lt : (e : MessageType) → message_code e < 256
unfolding message_code
message_code-lt e = ground arith

pub role_code-role_of : (n : ℕ) (e : EndpointRole) → role_of n ≡ some e → role_code e ≡ n
unfolding role_of role_code
role_code-role_of n e h = ground arith

pub role_of-role_code : (e : EndpointRole) → role_of (role_code e) ≡ some e
unfolding role_of role_code
role_of-role_code EndpointRole.host = refl
role_of-role_code _ = refl

pub role_code-lt : (e : EndpointRole) → role_code e < 256
unfolding role_code
role_code-lt e = ground arith

pub status_code-status_of : (n : ℕ) (e : HelloStatus) → status_of n ≡ some e → status_code e ≡ n
unfolding status_of status_code
status_code-status_of n e h = ground arith

pub status_of-status_code : (e : HelloStatus) → status_of (status_code e) ≡ some e
unfolding status_of status_code
status_of-status_code HelloStatus.accepted = refl
status_of-status_code _ = refl

pub status_code-lt : (e : HelloStatus) → status_code e < 256
unfolding status_code
status_code-lt e = ground arith

pub mode_code-mode_of : (n : ℕ) (e : ControlMode) → mode_of n ≡ some e → mode_code e ≡ n
unfolding mode_of mode_code
mode_code-mode_of n e h = ground arith

pub mode_of-mode_code : (e : ControlMode) → mode_of (mode_code e) ≡ some e
unfolding mode_of mode_code
mode_of-mode_code ControlMode.neutral = refl
mode_of-mode_code _ = refl

pub mode_code-lt : (e : ControlMode) → mode_code e < 256
unfolding mode_code
mode_code-lt e = ground arith

pub runtime_code-runtime_of :
    (n : ℕ) (e : RuntimeState) → runtime_of n ≡ some e → runtime_code e ≡ n
unfolding runtime_of runtime_code
runtime_code-runtime_of n e h = ground arith

pub runtime_of-runtime_code : (e : RuntimeState) → runtime_of (runtime_code e) ≡ some e
unfolding runtime_of runtime_code
runtime_of-runtime_code RuntimeState.startup = refl
runtime_of-runtime_code _ = refl

pub runtime_code-lt : (e : RuntimeState) → runtime_code e < 256
unfolding runtime_code
runtime_code-lt e = ground arith

pub navigation_code-navigation_of :
    (n : ℕ) (e : NavigationMode) → navigation_of n ≡ some e → navigation_code e ≡ n
unfolding navigation_of navigation_code
navigation_code-navigation_of n e h = ground arith

pub navigation_of-navigation_code :
    (e : NavigationMode) → navigation_of (navigation_code e) ≡ some e
unfolding navigation_of navigation_code
navigation_of-navigation_code NavigationMode.unavailable = refl
navigation_of-navigation_code _ = refl

pub navigation_code-lt : (e : NavigationMode) → navigation_code e < 256
unfolding navigation_code
navigation_code-lt e = ground arith

pub reason_code-reason_of : (n : ℕ) (e : SafeStopReason) → reason_of n ≡ some e → reason_code e ≡ n
unfolding reason_of reason_code
reason_code-reason_of n e h = ground arith

pub reason_of-reason_code : (e : SafeStopReason) → reason_of (reason_code e) ≡ some e
unfolding reason_of reason_code
reason_of-reason_code SafeStopReason.nothing = refl
reason_of-reason_code _ = refl

pub reason_code-lt : (e : SafeStopReason) → reason_code e < 256
unfolding reason_code
reason_code-lt e = ground arith

pub error_code-error_of :
    (n : ℕ) (e : ApplicationErrorCode) → error_of n ≡ some e → error_code e ≡ n
unfolding error_of error_code
error_code-error_of n e h = ground arith

pub error_of-error_code : (e : ApplicationErrorCode) → error_of (error_code e) ≡ some e
unfolding error_of error_code
error_of-error_code ApplicationErrorCode.nothing = refl
error_of-error_code _ = refl

pub error_code-lt : (e : ApplicationErrorCode) → error_code e < 256
unfolding error_code
error_code-lt e = ground arith

pub or_raise-eq-ok {ℓ} :
    {E : Type ℓ} (code : ProtocolErrorCode) (o : Option E) (e : E)
    → or_raise code o ≡ ok e
    → o ≡ some e
unfolding or_raise
or_raise-eq-ok code none e h = cc
or_raise-eq-ok code (some x) e h = cc

pub decode_enum-eq-ok {ℓ} :
    {E : Type ℓ} (member : ℕ → Option E) (n : ℕ) (e : E)
    → decode_enum member n ≡ ok e
    → member n ≡ some e
unfolding decode_enum
decode_enum-eq-ok member n e h = or_raise-eq-ok invalid_value (member n) e h

pub message_type_code : (t : MessageType) → message_type (int (message_code t)) ≡ ok t
unfolding message_type
message_type_code t = rw (message_of-message_code t)
