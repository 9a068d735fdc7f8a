-- ===== src/Protocol/Error.antt =====
-- The classified errors of host/src/navbench/protocol.py. A function that may raise
-- `ProtocolError` returns a `Result`; the text of a message is not modelled.
use navbench.Common.{◌≡◌, refl, ap, ◌⊎◌, inl, inr, Bool, true, false}

pub data ProtocolErrorCode : Type 0 where
  empty_frame unexpected_delimiter cobs_malformed packet_too_short : ProtocolErrorCode
  crc_mismatch unsupported_version unknown_message_type : ProtocolErrorCode
  payload_length_mismatch payload_too_large invalid_value : ProtocolErrorCode
  oversized_frame truncated_frame : ProtocolErrorCode

-- A value, or the error that was raised.
pub data Result {κ} (Value : Type κ) : Type κ where
  err : (code : ProtocolErrorCode) → Result Value
  ok : (value : Value) → Result Value

infixl 5 ◌>>=◌ ◌>>◌
abbrev pub ◌>>=◌ {κ ι} : {V : Type κ} → {W : Type ι} → Result V → (V → Result W) → Result W
err code >>= next = err code
ok value >>= next = next value

-- `if failed: raise ProtocolError(code)`
abbrev pub refuse : (failed : Bool) → ProtocolErrorCode → Result (Unit {0})
refuse false code = ok tt
refuse true code = err code

abbrev pub ◌>>◌ {κ} : {W : Type κ} → Result (Unit {0}) → Result W → Result W
err code >> rest = err code
ok value >> rest = rest

-- A chain that returned: its first part returned, and so did the rest.
pub >>=-eq-ok {κ ι} :
    {V : Type κ}
    → {W : Type ι} → (first : Result V) → (next : V → Result W) → {w : W} → (first >>= next) ≡ ok w
    → (v : V) × (first ≡ ok v) × (next v ≡ ok w)
>>=-eq-ok (err code) next returned = cc
>>=-eq-ok (ok v) next returned = (v, refl, returned)

pub refuse-eq-ok {κ} :
    {W : Type κ} (failed : Bool) (code : ProtocolErrorCode) (rest : Result W) {w : W}
    → (refuse failed code >> rest) ≡ ok w
    → (failed ≡ false) × (rest ≡ ok w)
refuse-eq-ok false code rest returned = (refl, returned)
refuse-eq-ok true code rest returned = cc

-- Three checks in a row have all passed.
pub refuse3-eq-ok {ℓ} :
    {B : Type ℓ} (s t u : Bool) (d e f : ProtocolErrorCode) (m : Result B) {b : B}
    → (refuse s d >> (refuse t e >> (refuse u f >> m))) ≡ ok b
    → (s ≡ false) × (t ≡ false) × (u ≡ false) × (m ≡ ok b)
refuse3-eq-ok false false false d e f m h = (refl, refl, refl, h)
refuse3-eq-ok true t u d e f m h = cc
refuse3-eq-ok false true u d e f m h = cc
refuse3-eq-ok false false true d e f m h = cc

-- A result whose only value is `a` is that value or an error.
pub Result-cases {ℓ} :
    {A : Type ℓ} (r : Result A) (a : A)
    → ((x : A) → r ≡ ok x → x ≡ a)
    → (r ≡ ok a) ⊎ ((e : ProtocolErrorCode) × (r ≡ err e))
Result-cases (ok x) a h = inl (ap ok (h x refl))
Result-cases (err e) a h = inr (e, refl)
