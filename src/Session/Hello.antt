-- ===== src/Session/Hello.antt =====
-- The HELLO of `HostSession.start` (host/src/navbench/session.py) as protocol.py encodes it.
use navbench.Common.{
  ◌+◌, ap, false, ℕ, ◌^◌, ◌≤◌, ◌<◌, ◌≡◌, List, [], ◌∷◌, ◌++◌, length, ltb, lt→ltb, le→ltb, ne→==,
  arith,
}
use navbench.Protocol.Error.{ok, err, invalid_value}
use navbench.Transport.Interface.{ByteTransport}
use navbench.Session.Run.{failed, protocol_error}
use navbench.Protocol.Value.{int, uint, Binary32}
use navbench.Protocol.Enums.{MessageType, role_code}
use navbench.Protocol.Struct.{pack}
use navbench.Protocol.Struct.Laws.{pack-IsByte}
use navbench.Protocol.Cobs.{cobs_encode}
use navbench.Protocol.Enums.Laws.{message_type_code}
use navbench.Protocol.Packet.{Packet, raw_packet, encode_packet}
use navbench.Protocol.Packet.Shape.{encode_packet-framed}
use navbench.Protocol.Payload.Types.{TypedPayload}
use navbench.Protocol.Payload.Encode.{encode_typed_payload, encode_hello, hello_format}
use navbench.Protocol.Payload.Decode.{make_packet}
use navbench.Session.Types.{SessionConfig, Session}
use navbench.Session.Send.{enqueue, flush_tx, send}
use navbench.Session.Calls.{host_hello}

abbrev pub hello_packet : ℕ → Packet
hello_packet timeout = record {
  message_type = MessageType.hello;
  sequence = int 0;
  step_id = int 0;
  payload = pack hello_format (1 ∷ 1 ∷ 1 ∷ 0 ∷ 31 ∷ 128 ∷ timeout ∷ []);
}

module _ (fl : Binary32) (config : SessionConfig) where
  pub make_packet_hello :
      0 < config.timeout_ms
      → config.timeout_ms < 2 ^ 16
      → make_packet fl MessageType.hello (int 0) (int 0) (TypedPayload.hello (host_hello config))
        ≡ ok (hello_packet config.timeout_ms)
  unfolding make_packet encode_typed_payload encode_hello uint role_code
  make_packet_hello pos fits =
      simp (lt→ltb config.timeout_ms (2 ^ 16) fits, ne→== config.timeout_ms 0 (omega arith))

  -- The field of the timeout has 16 bits.
  pub make_packet_hello_refused :
      2 ^ 16 ≤ config.timeout_ms
      → make_packet fl MessageType.hello (int 0) (int 0) (TypedPayload.hello (host_hello config))
        ≡ err invalid_value
  unfolding make_packet encode_typed_payload encode_hello uint role_code
  make_packet_hello_refused long = simp (le→ltb config.timeout_ms (2 ^ 16) long)

pub encode_packet_hello :
    (timeout : ℕ)
    → (frame : List ℕ) × (encode_packet (hello_packet timeout) ≡ ok frame) × (length frame ≤ 144)
unfolding encode_packet uint pack
encode_packet_hello timeout =
    let frame =
      cobs_encode (raw_packet MessageType.hello 0 0 (hello_packet timeout).payload) ++ (0 ∷ []) in
    let encoded : encode_packet (hello_packet timeout) ≡ ok frame =
      simp (message_type_code MessageType.hello) in
    let (body, cut, clean, bytes, size, bound) =
      encode_packet-framed (hello_packet timeout) frame
        (pack-IsByte hello_format (1 ∷ 1 ∷ 1 ∷ 0 ∷ 31 ∷ 128 ∷ timeout ∷ [])) encoded in
    (frame, encoded, omega (arith, bound))

module _ (fl : Binary32) (io : ByteTransport) where
  open io use {Transport}

  -- The HELLO of a session that can start: it is queued and flushed, or the timeout is refused.
  pub send_hello :
      (s : Session Transport)
      → 0 < s.config.timeout_ms
      → s.config.timeout_ms < 2 ^ 16
      → 256 ≤ s.config.max_tx_buffer
      → s.tx_buffer ≡ []
      → s.tx_sequence ≡ 0
      → (frame : List ℕ) × (length frame ≤ 144)
        × (encode_packet (hello_packet s.config.timeout_ms) ≡ ok frame)
        × (send fl io MessageType.hello (int 0) (TypedPayload.hello (host_hello s.config)) s
            ≡ flush_tx io (enqueue io frame s))
  unfolding send
  send_hello s pos fits room empty first =
      let (frame, encoded, short) = encode_packet_hello s.config.timeout_ms in
      let joined : ltb s.config.max_tx_buffer (length s.tx_buffer + length frame) ≡ false =
        le→ltb _ _ (omega (arith, ap length empty)) in
      (frame, short, encoded, simp (first, make_packet_hello fl s.config pos fits, encoded, joined))

  pub send_hello_refused :
      (s : Session Transport)
      → 2 ^ 16 ≤ s.config.timeout_ms
      → s.tx_sequence ≡ 0
      → send fl io MessageType.hello (int 0) (TypedPayload.hello (host_hello s.config)) s
        ≡ (s, failed (protocol_error invalid_value))
  unfolding send
  send_hello_refused s long first = simp (first, make_packet_hello_refused fl s.config long)
