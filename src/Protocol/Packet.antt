-- ===== src/Protocol/Packet.antt =====
-- encode_packet and decode_packet of host/src/navbench/protocol.py.
pub mod RoundTrip
pub mod Canonical
pub mod Shape
use navbench.Common.{
  ℕ, zero, suc, ◌+◌, ◌-◌, Bool, true, false, not, ◌||◌, List, [], ◌∷◌, ◌++◌, length, take, drop,
  ltb, ◌==◌, if◌then◌else◌,
}
use navbench.Protocol.Error.{
  Result, ok, err, ◌>>=◌, ◌>>◌, refuse, empty_frame, unexpected_delimiter, packet_too_short,
  crc_mismatch, unsupported_version, unknown_message_type, payload_length_mismatch,
  payload_too_large, oversized_frame, invalid_value,
}
use navbench.Protocol.Value.{Scalar, int, uint}
use navbench.Protocol.Enums.{MessageType, message_code, message_of, message_type, or_raise}
use navbench.Protocol.Struct.{Field, u8, u16, u32, size, pack, unpack}
use navbench.Protocol.Crc.{crc16_ccitt}
use navbench.Protocol.Cobs.{cobs_encode, cobs_decode}

pub record Packet : Type 0 where
  pub message_type : MessageType
  pub sequence : Scalar
  pub step_id : Scalar
  pub payload : List ℕ

abbrev pub protocol_version : ℕ
protocol_version = 1

abbrev pub max_payload_size : ℕ
max_payload_size = 128

abbrev pub header_format : List Field
header_format = u8 ∷ u8 ∷ u16 ∷ u32 ∷ u32 ∷ []

abbrev pub crc_format : List Field
crc_format = u16 ∷ []

abbrev pub header_size : ℕ
header_size = size header_format

abbrev pub crc_size : ℕ
crc_size = size crc_format

abbrev pub max_raw_packet_size : ℕ
max_raw_packet_size = header_size + max_payload_size + crc_size

abbrev pub max_encoded_frame_size : ℕ
max_encoded_frame_size = max_raw_packet_size + 1

abbrev pub max_wire_frame_size : ℕ
max_wire_frame_size = max_encoded_frame_size + 1

-- The packet before COBS: header, payload and checksum.
unfoldable pub raw_packet : MessageType → ℕ → ℕ → List ℕ → List ℕ
raw_packet t sequence step_id payload =
    let header =
      pack header_format
        (protocol_version ∷ message_code t ∷ length payload ∷ sequence ∷ step_id ∷ []) in
    let packet_without_crc = header ++ payload in
    packet_without_crc ++ pack crc_format (crc16_ccitt packet_without_crc ∷ [])

unfoldable pub encode_packet : Packet → Result (List ℕ)
unfolding raw_packet
encode_packet p = do
  t ← message_type (int (message_code p.message_type))
  refuse (ltb max_payload_size (length p.payload)) payload_too_large
  sequence ← uint p.sequence 32
  step_id ← uint p.step_id 32
  ok (cobs_encode (raw_packet t sequence step_id p.payload) ++ (0 ∷ []))

-- `if encoded.endswith(b"\x00"): encoded = encoded[:-1]`
unfoldable pub strip_delimiter : List ℕ → List ℕ
strip_delimiter [] = []
strip_delimiter (x ∷ []) = if x == 0 then [] else x ∷ []
strip_delimiter (x ∷ y ∷ rest) = x ∷ strip_delimiter (y ∷ rest)

abbrev pub is_empty : List ℕ → Bool
is_empty [] = true
is_empty (x ∷ xs) = false

-- `b"\x00" in encoded`
abbrev pub has_zero : List ℕ → Bool
has_zero [] = false
has_zero (x ∷ xs) = x == 0 || has_zero xs

-- The header's fields and the payload, checked in the order of the source.
unfoldable pub read_header : List ℕ → List ℕ → Result Packet
unfolding or_raise
read_header (version ∷ type_value ∷ payload_size ∷ sequence ∷ step_id ∷ []) payload = do
  refuse (not (version == protocol_version)) unsupported_version
  refuse (ltb max_payload_size payload_size) payload_too_large
  refuse (not (length payload == payload_size)) payload_length_mismatch
  t ← or_raise unknown_message_type (message_of type_value)
  ok (record {
    message_type = t;
    sequence = int sequence;
    step_id = int step_id;
    payload = payload;
  })
-- a struct format has one length: no other list reaches this
read_header _ payload = err invalid_value

-- `_CRC.unpack(...)[0]`
abbrev pub first : List ℕ → ℕ
first [] = 0
first (x ∷ xs) = x

-- decode_packet from the length tests on the decoded packet on.
unfoldable pub read_raw_packet : List ℕ → Result Packet
unfolding read_header
read_raw_packet raw = do
  refuse (ltb (length raw) (header_size + crc_size)) packet_too_short
  refuse (ltb max_raw_packet_size (length raw)) payload_too_large
  let packet_without_crc = take (length raw - crc_size) raw
  let received_crc = first (unpack crc_format (drop (length raw - crc_size) raw))
  refuse (not (received_crc == crc16_ccitt packet_without_crc)) crc_mismatch
  read_header (unpack header_format (take header_size raw))
      (take (length raw - crc_size - header_size) (drop header_size raw))

unfoldable pub decode_packet : List ℕ → Result Packet
unfolding strip_delimiter read_raw_packet
decode_packet frame = do
  let encoded = strip_delimiter frame
  refuse (is_empty encoded) empty_frame
  refuse (has_zero encoded) unexpected_delimiter
  refuse (ltb max_encoded_frame_size (length encoded)) oversized_frame
  raw ← cobs_decode encoded
  read_raw_packet raw
