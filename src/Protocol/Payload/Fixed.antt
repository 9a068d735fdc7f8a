-- ===== src/Protocol/Payload/Fixed.antt =====
-- decode_typed_payload of host/src/navbench/protocol.py against encode_typed_payload, for the
-- messages of one fixed format.
use navbench.Common.{ℕ, ◌≡◌, refl, sym, ap, ◌∙◌, not, List, [], ◌∷◌, length, ◌==◌, not-==→eq, All}
use mathlib.Core.Path.{subst}
use navbench.Protocol.Error.{
  Result, ok, ◌>>=◌, ◌>>◌, payload_length_mismatch, >>=-eq-ok, refuse-eq-ok,
}
use navbench.Protocol.Value.{Binary32}
use navbench.Protocol.Enums.{MessageType}
use navbench.Protocol.Struct.{Field, size, unpack}
use navbench.Protocol.Struct.Laws.{IsByte, blank, pack-unpack, unpack-Fits}
use navbench.Protocol.Payload.Types.{
  HelloPayload, HelloAckPayload, ControlCommandPayload, StateEstimatePayload, HealthStatusPayload,
  HeartbeatPayload, ErrorPayload, SafeStopPayload, TypedPayload,
}
use navbench.Protocol.Payload.Encode.{
  hello_format, hello_ack_format, control_command_format, state_estimate_format,
  health_status_format, heartbeat_format, error_format, safe_stop_format, encode_hello,
  encode_hello_ack, encode_control_command, encode_state_estimate, encode_health_status,
  encode_heartbeat, encode_error, encode_safe_stop, encode_typed_payload,
}
use navbench.Protocol.Payload.Decode.{
  require_payload_size, decode_hello, decode_hello_ack, decode_control_command,
  decode_state_estimate, decode_health_status, decode_heartbeat, decode_error, decode_safe_stop,
  read_payload, decode_typed_payload,
}
use navbench.Protocol.Payload.Canonical.{
  hello_back, hello_ack_back, heartbeat_back, error_back, safe_stop_back,
}
use navbench.Protocol.Payload.Floats.{control_command_back, state_estimate_back, health_status_back}

-- The format of a message that has one.
abbrev pub HasFormat : MessageType → List Field → Type 0
HasFormat MessageType.hello fs = fs ≡ hello_format
HasFormat MessageType.hello_ack fs = fs ≡ hello_ack_format
HasFormat MessageType.heartbeat fs = fs ≡ heartbeat_format
HasFormat MessageType.error fs = fs ≡ error_format
HasFormat MessageType.safe_stop fs = fs ≡ safe_stop_format
HasFormat MessageType.control_command fs = fs ≡ control_command_format
HasFormat MessageType.state_estimate fs = fs ≡ state_estimate_format
HasFormat MessageType.health_status fs = fs ≡ health_status_format
HasFormat _ fs = ⊥

-- What a message of one format has passed when it is read.
fixed_read :
    {P Q : Type 0} (n : ℕ) (b : List ℕ) (r : Result P) (wrap : P → Q) (p : Q)
    → (require_payload_size b n >> (r >>= λ q. ok (wrap q))) ≡ ok p
    → (q : P) × (length b ≡ n) × (r ≡ ok q) × (p ≡ wrap q)
unfolding require_payload_size
fixed_read n b r wrap p h =
    let (sized, h') =
      refuse-eq-ok (not (length b == n)) payload_length_mismatch (r >>= λ q. ok (wrap q)) h in
    let (q, e, e') = >>=-eq-ok r (λ q. ok (wrap q)) h' in
    (q, not-==→eq (length b) n sized, e, ok_inj p (wrap q) (sym e'))
  where
    ok_inj : {A : Type 0} (x y : A) → ok x ≡ ok y → x ≡ y
    ok_inj x y e = cc

hello_accepted :
    (b : List ℕ) (q : HelloPayload) (b' : List ℕ)
    → All IsByte b
    → length b ≡ size hello_format
    → decode_hello (unpack hello_format b) ≡ ok q
    → encode_hello q ≡ ok b'
    → b' ≡ blank hello_format b
unfolding unpack
hello_accepted b q b' bytes len h k =
    hello_back _ _ _ _ _ _ _ q b' h k ∙ pack-unpack hello_format b len bytes

hello_ack_accepted :
    (b : List ℕ) (q : HelloAckPayload) (b' : List ℕ)
    → All IsByte b
    → length b ≡ size hello_ack_format
    → decode_hello_ack (unpack hello_ack_format b) ≡ ok q
    → encode_hello_ack q ≡ ok b'
    → b' ≡ blank hello_ack_format b
unfolding unpack
hello_ack_accepted b q b' bytes len h k =
    hello_ack_back _ _ _ _ _ _ _ q b' h k ∙ pack-unpack hello_ack_format b len bytes

heartbeat_accepted :
    (b : List ℕ) (q : HeartbeatPayload) (b' : List ℕ)
    → All IsByte b
    → length b ≡ size heartbeat_format
    → decode_heartbeat (unpack heartbeat_format b) ≡ ok q
    → encode_heartbeat q ≡ ok b'
    → b' ≡ blank heartbeat_format b
unfolding unpack
heartbeat_accepted b q b' bytes len h k =
    heartbeat_back _ _ _ q b' h k ∙ pack-unpack heartbeat_format b len bytes

error_accepted :
    (b : List ℕ) (q : ErrorPayload) (b' : List ℕ)
    → All IsByte b
    → length b ≡ size error_format
    → decode_error (unpack error_format b) ≡ ok q
    → encode_error q ≡ ok b'
    → b' ≡ blank error_format b
unfolding unpack
error_accepted b q b' bytes len h k =
    error_back _ _ _ _ q b' h k ∙ pack-unpack error_format b len bytes

safe_stop_accepted :
    (b : List ℕ) (q : SafeStopPayload) (b' : List ℕ)
    → All IsByte b
    → length b ≡ size safe_stop_format
    → decode_safe_stop (unpack safe_stop_format b) ≡ ok q
    → encode_safe_stop q ≡ ok b'
    → b' ≡ blank safe_stop_format b
unfolding unpack
safe_stop_accepted b q b' bytes len h k =
    safe_stop_back _ _ _ q b' h k ∙ pack-unpack safe_stop_format b len bytes

control_command_accepted :
    (fl : Binary32) (b : List ℕ) (q : ControlCommandPayload fl.Float) (b' : List ℕ)
    → All IsByte b
    → length b ≡ size control_command_format
    → decode_control_command fl (unpack control_command_format b) ≡ ok q
    → encode_control_command fl q ≡ ok b'
    → b' ≡ blank control_command_format b
unfolding unpack
control_command_accepted fl b q b' bytes len h k =
    control_command_back fl _ _ _ _ _ _ q b' (unpack-Fits control_command_format b (sym len) bytes)
      h k
    ∙ pack-unpack control_command_format b len bytes

state_estimate_accepted :
    (fl : Binary32) (b : List ℕ) (q : StateEstimatePayload fl.Float) (b' : List ℕ)
    → All IsByte b
    → length b ≡ size state_estimate_format
    → decode_state_estimate fl (unpack state_estimate_format b) ≡ ok q
    → encode_state_estimate fl q ≡ ok b'
    → b' ≡ blank state_estimate_format b
unfolding unpack
state_estimate_accepted fl b q b' bytes len h k =
    state_estimate_back fl _ _ _ _ _ _ _ _ _ _ _ _ _ _ _ q b'
      (unpack-Fits state_estimate_format b (sym len) bytes) h k
    ∙ pack-unpack state_estimate_format b len bytes

health_status_accepted :
    (fl : Binary32) (b : List ℕ) (q : HealthStatusPayload fl.Float) (b' : List ℕ)
    → All IsByte b
    → length b ≡ size health_status_format
    → decode_health_status fl (unpack health_status_format b) ≡ ok q
    → encode_health_status fl q ≡ ok b'
    → b' ≡ blank health_status_format b
unfolding unpack
health_status_accepted fl b q b' bytes len h k =
    health_status_back fl _ _ _ _ _ _ _ _ _ _ _ _ _ _ _ _ _ _ _ _ _ _ _ _ _ _ _ _ _ _ _ q b'
      (unpack-Fits health_status_format b (sym len) bytes) h k
    ∙ pack-unpack health_status_format b len bytes

module _ (fl : Binary32) where
  -- A payload that was decoded has been read and encodes again.
  pub decode_typed_payload-eq-ok :
      (t : MessageType) (b : List ℕ) (p : TypedPayload fl.Float)
      → decode_typed_payload fl t b ≡ ok p
      → (read_payload fl t b ≡ ok p) × ((b' : List ℕ) × (encode_typed_payload fl t p ≡ ok b'))
  unfolding decode_typed_payload
  decode_typed_payload-eq-ok t b p h =
      let (q, read, h') =
        >>=-eq-ok (read_payload fl t b) (λ q. encode_typed_payload fl t q >>= λ _. ok q) h in
      let (b', coded, h'') = >>=-eq-ok (encode_typed_payload fl t q) (λ _. ok q) h' in
      (
        subst (λ r. read_payload fl t b ≡ ok r) (ok_inj h'') read,
        (b', subst (λ r. encode_typed_payload fl t r ≡ ok b') (ok_inj h'') coded),
      )
    where
      ok_inj : {x y : TypedPayload fl.Float} → ok x ≡ ok y → x ≡ y
      ok_inj e = cc

  encoded_back :
      (t : MessageType) (fs : List Field) (b : List ℕ) (p : TypedPayload fl.Float) (b' : List ℕ)
      → HasFormat t fs
      → All IsByte b
      → read_payload fl t b ≡ ok p
      → encode_typed_payload fl t p ≡ ok b'
      → b' ≡ blank fs b
  unfolding read_payload encode_typed_payload
  encoded_back MessageType.hello fs b p b' f bytes h k =
      let (q, len, read, e) =
        fixed_read (size hello_format) b (decode_hello (unpack hello_format b)) TypedPayload.hello p
          h in
      hello_accepted b q b' bytes len read
        (ap (encode_typed_payload fl MessageType.hello) (sym e) ∙ k)
      ∙ ap (λ g. blank g b) (sym f)
  encoded_back MessageType.hello_ack fs b p b' f bytes h k =
      let (q, len, read, e) =
        fixed_read (size hello_ack_format) b (decode_hello_ack (unpack hello_ack_format b))
          TypedPayload.hello_ack p h in
      hello_ack_accepted b q b' bytes len read
        (ap (encode_typed_payload fl MessageType.hello_ack) (sym e) ∙ k)
      ∙ ap (λ g. blank g b) (sym f)
  encoded_back MessageType.heartbeat fs b p b' f bytes h k =
      let (q, len, read, e) =
        fixed_read (size heartbeat_format) b (decode_heartbeat (unpack heartbeat_format b))
          TypedPayload.heartbeat p h in
      heartbeat_accepted b q b' bytes len read
        (ap (encode_typed_payload fl MessageType.heartbeat) (sym e) ∙ k)
      ∙ ap (λ g. blank g b) (sym f)
  encoded_back MessageType.error fs b p b' f bytes h k =
      let (q, len, read, e) =
        fixed_read (size error_format) b (decode_error (unpack error_format b)) TypedPayload.error p
          h in
      error_accepted b q b' bytes len read
        (ap (encode_typed_payload fl MessageType.error) (sym e) ∙ k)
      ∙ ap (λ g. blank g b) (sym f)
  encoded_back MessageType.safe_stop fs b p b' f bytes h k =
      let (q, len, read, e) =
        fixed_read (size safe_stop_format) b (decode_safe_stop (unpack safe_stop_format b))
          TypedPayload.safe_stop p h in
      safe_stop_accepted b q b' bytes len read
        (ap (encode_typed_payload fl MessageType.safe_stop) (sym e) ∙ k)
      ∙ ap (λ g. blank g b) (sym f)
  encoded_back MessageType.control_command fs b p b' f bytes h k =
      let (q, len, read, e) =
        fixed_read (size control_command_format) b
          (decode_control_command fl (unpack control_command_format b)) TypedPayload.control_command
          p h in
      control_command_accepted fl b q b' bytes len read
        (ap (encode_typed_payload fl MessageType.control_command) (sym e) ∙ k)
      ∙ ap (λ g. blank g b) (sym f)
  encoded_back MessageType.state_estimate fs b p b' f bytes h k =
      let (q, len, read, e) =
        fixed_read (size state_estimate_format) b
          (decode_state_estimate fl (unpack state_estimate_format b)) TypedPayload.state_estimate p
          h in
      state_estimate_accepted fl b q b' bytes len read
        (ap (encode_typed_payload fl MessageType.state_estimate) (sym e) ∙ k)
      ∙ ap (λ g. blank g b) (sym f)
  encoded_back MessageType.health_status fs b p b' f bytes h k =
      let (q, len, read, e) =
        fixed_read (size health_status_format) b
          (decode_health_status fl (unpack health_status_format b)) TypedPayload.health_status p
          h in
      health_status_accepted fl b q b' bytes len read
        (ap (encode_typed_payload fl MessageType.health_status) (sym e) ∙ k)
      ∙ ap (λ g. blank g b) (sym f)
  encoded_back MessageType.sensor_frame fs b p b' f bytes h k = elim f [ ]
  encoded_back MessageType.route_chunk fs b p b' f bytes h k = elim f [ ]

  -- A payload that is accepted for a message of one format is, but for the pad bytes of a
  -- heartbeat, the encoding of the value that it is decoded to.
  pub encode_typed_payload-decode_typed_payload :
      (t : MessageType) (fs : List Field) (b : List ℕ) (p : TypedPayload fl.Float)
      → HasFormat t fs
      → All IsByte b
      → decode_typed_payload fl t b ≡ ok p
      → encode_typed_payload fl t p ≡ ok (blank fs b)
  encode_typed_payload-decode_typed_payload t fs b p f bytes h =
      let (read, (b', coded)) = decode_typed_payload-eq-ok t b p h in
      coded ∙ ap ok (encoded_back t fs b p b' f bytes read coded)

  -- The three bytes behind a heartbeat's fields are read by nobody: whatever they hold, the
  -- payload decodes as the one with zeros does.
  pub heartbeat_pad_ignored :
      (b0 b1 b2 b3 b4 b5 b6 b7 b8 x y z : ℕ)
      → decode_typed_payload fl MessageType.heartbeat
          (b0 ∷ b1 ∷ b2 ∷ b3 ∷ b4 ∷ b5 ∷ b6 ∷ b7 ∷ b8 ∷ x ∷ y ∷ z ∷ [])
        ≡ decode_typed_payload fl MessageType.heartbeat
            (b0 ∷ b1 ∷ b2 ∷ b3 ∷ b4 ∷ b5 ∷ b6 ∷ b7 ∷ b8 ∷ 0 ∷ 0 ∷ 0 ∷ [])
  unfolding decode_typed_payload read_payload unpack
  heartbeat_pad_ignored b0 b1 b2 b3 b4 b5 b6 b7 b8 x y z = refl
