-- ===== src/Protocol/Packet/Shape.antt =====
-- The frames that encode_packet of host/src/navbench/protocol.py writes.
use navbench.Common.{
  ℕ, ◌+◌, ◌^◌, ◌≤◌, ◌<◌, ◌≡◌, ap, List, [], ◌∷◌, ◌++◌, length, length-append, All, All-append,
  arith,
}
use navbench.Protocol.Error.{ok}
use navbench.Protocol.Value.{int, uint, value}
use navbench.Protocol.Enums.{MessageType, message_code}
use navbench.Protocol.Enums.Laws.{message_type_code, message_code-lt}
use navbench.Protocol.Struct.{pack}
use navbench.Protocol.Struct.Laws.{IsByte, length-pack, pack-IsByte, Fits}
use navbench.Protocol.Crc.{crc16_ccitt, crc16_ccitt-lt}
use navbench.Protocol.Cobs.{cobs_encode}
use navbench.Protocol.Cobs.Shape.{
  NoZero, cobs_encode-NoZero, cobs_encode-IsByte, length-cobs_encode,
}
use navbench.Protocol.Packet.{
  Packet, header_format, crc_format, raw_packet, encode_packet, max_payload_size,
  max_wire_frame_size,
}

-- What a successful encode_packet has checked, and what it returns.
pub record Encoded (p : Packet) (frame : List ℕ) : Type 0 where
  pub sequence_eq : p.sequence ≡ int (value p.sequence)
  pub step_id_eq : p.step_id ≡ int (value p.step_id)
  pub sequence_lt : value p.sequence < 2 ^ 32
  pub step_id_lt : value p.step_id < 2 ^ 32
  pub fits : length p.payload ≤ max_payload_size
  pub frame_eq :
      frame
      ≡ cobs_encode (raw_packet p.message_type (value p.sequence) (value p.step_id) p.payload)
        ++ (0 ∷ [])

pub encode_packet-Encoded :
    (p : Packet) (frame : List ℕ) → encode_packet p ≡ ok frame → Encoded p frame
unfolding encode_packet uint
encode_packet-Encoded p frame h =
    let checked = rw (message_type_code p.message_type) at h in
    record {
      sequence_eq = ground arith;
      step_id_eq = ground arith;
      sequence_lt = ground arith;
      step_id_lt = ground arith;
      fits = ground arith;
      frame_eq = ground arith;
    }

-- Conversely, a packet that passes the checks is encoded.
pub encode_packet_lem :
    (t : MessageType) (sequence step_id : ℕ) (payload : List ℕ)
    → sequence < 2 ^ 32
    → step_id < 2 ^ 32
    → length payload ≤ max_payload_size
    → encode_packet (record {
      message_type = t;
      sequence = int sequence;
      step_id = int step_id;
      payload = payload;
    })
      ≡ ok (cobs_encode (raw_packet t sequence step_id payload) ++ (0 ∷ []))
unfolding encode_packet uint
encode_packet_lem t sequence step_id payload a b c = rw (message_type_code t) (ground arith)

module _ (t : MessageType) (sequence step_id : ℕ) (payload : List ℕ)
    (sequence_lt : sequence < 2 ^ 32) (step_id_lt : step_id < 2 ^ 32)
    (fits : length payload ≤ max_payload_size) where
  abbrev pub header_values : List ℕ
  header_values = 1 ∷ message_code t ∷ length payload ∷ sequence ∷ step_id ∷ []

  abbrev pub header : List ℕ
  header = pack header_format header_values

  abbrev pub checksum : List ℕ
  checksum = pack crc_format (crc16_ccitt (header ++ payload) ∷ [])

  pub header_Fits : Fits header_format header_values
  header_Fits = omega (arith, message_code-lt t)

  pub checksum_Fits : Fits crc_format (crc16_ccitt (header ++ payload) ∷ [])
  checksum_Fits = omega (arith, crc16_ccitt-lt (header ++ payload))

  pub length-header : length header ≡ 12
  length-header = length-pack header_format header_values header_Fits

  pub length-checksum : length checksum ≡ 2
  length-checksum = length-pack crc_format (crc16_ccitt (header ++ payload) ∷ []) checksum_Fits

  pub length-raw_packet : length (raw_packet t sequence step_id payload) ≡ length payload + 14
  unfolding raw_packet
  length-raw_packet = omega (
    arith,
    length-append (header ++ payload) checksum,
    length-append header payload,
    length-header,
    length-checksum,
  )

  pub length-raw_frame :
      length (cobs_encode (raw_packet t sequence step_id payload)) ≡ length payload + 15
  length-raw_frame =
      omega (arith, length-raw_packet, length-cobs_encode (raw_packet t sequence step_id payload))

pub raw_packet-IsByte :
    (t : MessageType) (sequence step_id : ℕ) (payload : List ℕ)
    → All IsByte payload
    → All IsByte (raw_packet t sequence step_id payload)
unfolding raw_packet
raw_packet-IsByte t sequence step_id payload h =
    let header =
      pack header_format (1 ∷ message_code t ∷ length payload ∷ sequence ∷ step_id ∷ []) in
    All-append _ (header ++ payload) _ (All-append _ header payload (pack-IsByte header_format _) h)
      (pack-IsByte crc_format _)

-- A frame on the wire is a string of bytes other than zero and one zero behind it; it is 16 bytes
-- longer than the payload.
pub encode_packet-framed :
    (p : Packet) (frame : List ℕ)
    → All IsByte p.payload
    → encode_packet p ≡ ok frame
    → (body : List ℕ) × (frame ≡ body ++ (0 ∷ []))
      × NoZero body
      × All IsByte body
      × (length frame ≡ length p.payload + 16)
      × (length frame ≤ max_wire_frame_size)
encode_packet-framed p frame bytes h =
    let e = encode_packet-Encoded p frame h in
    let raw = raw_packet p.message_type (value p.sequence) (value p.step_id) p.payload in
    let body = cobs_encode raw in
    let len : length frame ≡ length p.payload + 16 = omega (
      arith,
      ap length e.frame_eq,
      length-append body (0 ∷ []),
      length-raw_frame p.message_type (value p.sequence) (value p.step_id) p.payload e.sequence_lt
          e.step_id_lt e.fits,
    ) in
    (
      body,
      e.frame_eq,
      cobs_encode-NoZero raw,
      cobs_encode-IsByte raw
          (raw_packet-IsByte p.message_type (value p.sequence) (value p.step_id) p.payload bytes),
      len,
      omega (arith, len, e.fits),
    )
