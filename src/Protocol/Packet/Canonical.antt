-- ===== src/Protocol/Packet/Canonical.antt =====
-- decode_packet of host/src/navbench/protocol.py accepts no frame but those of encode_packet.
use navbench.Common.{
  ℕ, zero, suc, ◌+◌, ◌-◌, ◌≤◌, ◌≡◌, refl, sym, ap, ◌∙◌, false, not, some, List, [], ◌∷◌, ◌++◌,
  length, length-take, length-drop, take, drop, take-append-drop, take-add, All, All-take, All-drop,
  ltb, ◌==◌, ltb-false→le, not-==→eq, ne→==, arith,
}
use mathlib.Core.Path.{subst, ap₂}
use navbench.Protocol.Error.{
  ok, ◌>>=◌, refuse3-eq-ok, packet_too_short, payload_too_large, crc_mismatch, empty_frame,
  unexpected_delimiter, oversized_frame, >>=-eq-ok,
}
use navbench.Protocol.Value.{int}
use navbench.Protocol.Enums.{message_code, message_of}
use navbench.Protocol.Enums.Laws.{message_code-message_of}
use navbench.Protocol.Struct.{pack, unpack, from_le}
use navbench.Protocol.Struct.Laws.{IsByte, pack-unpack, blank_no_pad, unpack-Fits, Fits}
use navbench.Protocol.Crc.{crc16_ccitt}
use navbench.Protocol.Cobs.{cobs_encode, cobs_decode}
use navbench.Protocol.Cobs.Shape.{NoZero}
use navbench.Protocol.Cobs.Canonical.{cobs_encode-cobs_decode, cobs_decode-IsByte}
use navbench.Protocol.Packet.{
  Packet, header_format, crc_format, raw_packet, encode_packet, strip_delimiter, is_empty, has_zero,
  read_header, read_raw_packet, decode_packet, max_payload_size, max_encoded_frame_size,
}
use navbench.Protocol.Packet.Shape.{encode_packet_lem}

-- What read_header has checked.
record Header (v b n s i : ℕ) (payload : List ℕ) (p : Packet) : Type 0 where
  version_eq : v ≡ 1
  type_eq : message_of b ≡ some p.message_type
  length_eq : n ≡ length payload
  fits : length payload ≤ max_payload_size
  sequence_eq : p.sequence ≡ int s
  step_id_eq : p.step_id ≡ int i
  payload_eq : p.payload ≡ payload

read_header-Header :
    (v b n s i : ℕ) (payload : List ℕ) (p : Packet)
    → read_header (v ∷ b ∷ n ∷ s ∷ i ∷ []) payload ≡ ok p
    → Header v b n s i payload p
unfolding read_header
read_header-Header v b n s i payload p h = ground arith

-- The parts of a raw packet that read_raw_packet accepts.
record Parts (raw : List ℕ) (p : Packet) : Type 0 where
  long : 14 ≤ length raw
  crc_eq : from_le (take 2 (drop (length raw - 2) raw)) ≡ crc16_ccitt (take (length raw - 2) raw)
  header_eq :
      read_header (unpack header_format (take 12 raw)) (take (length raw - 2 - 12) (drop 12 raw))
      ≡ ok p

read_raw_packet-Parts : (raw : List ℕ) (p : Packet) → read_raw_packet raw ≡ ok p → Parts raw p
unfolding read_raw_packet unpack
read_raw_packet-Parts raw p h =
    let (long, short, crc, rest) =
      refuse3-eq-ok (ltb (length raw) 14) (ltb 142 (length raw))
        (not
          (from_le (take 2 (drop (length raw - 2) raw)) == crc16_ccitt (take (length raw - 2) raw)))
        packet_too_short payload_too_large crc_mismatch
        (read_header (unpack header_format (take 12 raw))
          (take (length raw - 2 - 12) (drop 12 raw)))
        h in
    record { long = ltb-false→le _ _ long; crc_eq = not-==→eq _ _ crc; header_eq = rest }

-- `v` to `i` are the header's fields, as unpacked.
module _ (raw : List ℕ) (p : Packet) (bytes : All IsByte raw) (long : 14 ≤ length raw) where
  abbrev payload : List ℕ
  payload = take (length raw - 2 - 12) (drop 12 raw)

  abbrev body : List ℕ
  body = take (length raw - 2) raw

  head-length : length (take 12 raw) ≡ 12
  head-length = omega (arith, length-take 12 raw)

  body_eq : body ≡ take 12 raw ++ payload
  body_eq =
      ap (λ (k : ℕ). take k raw) {y = 12 + (length raw - 2 - 12)} (omega arith)
      ∙ take-add 12 (length raw - 2 - 12) raw

  head_eq : pack header_format (unpack header_format (take 12 raw)) ≡ take 12 raw
  head_eq =
      pack-unpack header_format (take 12 raw) head-length (All-take _ 12 raw bytes)
      ∙ blank_no_pad header_format (take 12 raw) tt head-length

  head_Fits : Fits header_format (unpack header_format (take 12 raw))
  head_Fits = unpack-Fits header_format (take 12 raw) (sym head-length) (All-take _ 12 raw bytes)

  crc_length : length (drop (length raw - 2) raw) ≡ 2
  crc_length = omega (arith, length-drop (length raw - 2) raw)

  crc_bytes :
      pack crc_format (unpack crc_format (drop (length raw - 2) raw)) ≡ drop (length raw - 2) raw
  crc_bytes =
      pack-unpack crc_format (drop (length raw - 2) raw) crc_length
        (All-drop _ (length raw - 2) raw bytes)
      ∙ blank_no_pad crc_format (drop (length raw - 2) raw) tt crc_length

-- The raw packet that the fields of an accepted one make is that one.
raw_packet-read :
    (raw : List ℕ) (p : Packet) (bytes : All IsByte raw) (long : 14 ≤ length raw) (v b n s i : ℕ)
    → pack header_format (v ∷ b ∷ n ∷ s ∷ i ∷ []) ≡ take 12 raw
    → Header v b n s i (payload raw p bytes long) p
    → pack crc_format (crc16_ccitt (body raw p bytes long) ∷ []) ≡ drop (length raw - 2) raw
    → raw_packet p.message_type s i p.payload ≡ raw
unfolding raw_packet
raw_packet-read raw p bytes long v b n s i packed hd crc =
    let head : pack header_format (1 ∷ message_code p.message_type ∷ length p.payload ∷ s ∷ i ∷ [])
        ≡ take 12 raw =
      ap₂ (λ (x : ℕ) l. pack header_format (x ∷ l)) (sym hd.version_eq)
        (ap₂ (λ (x : ℕ) (y : ℕ). x ∷ y ∷ s ∷ i ∷ [])
          (message_code-message_of b p.message_type hd.type_eq)
          (ap length hd.payload_eq ∙ sym hd.length_eq))
      ∙ packed in
    let front : pack header_format (1 ∷ message_code p.message_type ∷ length p.payload ∷ s ∷ i ∷ [])
          ++ p.payload
        ≡ body raw p bytes long =
      ap₂ (λ x y. x ++ y) head hd.payload_eq ∙ sym (body_eq raw p bytes long) in
    ap (λ w. w ++ pack crc_format (crc16_ccitt w ∷ [])) front
    ∙ ap (λ l. body raw p bytes long ++ l) crc
    ∙ take-append-drop (length raw - 2) raw

packet_eq :
    (p : Packet) (s i : ℕ)
    → p.sequence ≡ int s
    → p.step_id ≡ int i
    → record {
      message_type = p.message_type;
      sequence = int s;
      step_id = int i;
      payload = p.payload;
    }
      ≡ p
packet_eq p s i a b =
    ap₂
      (λ x y. record {
        message_type = p.message_type;
        sequence = x;
        step_id = y;
        payload = p.payload;
      })
      (sym a) (sym b)

encode_fields :
    (raw : List ℕ) (p : Packet) (bytes : All IsByte raw) (parts : Parts raw p) (v b n s i : ℕ)
    → unpack header_format (take 12 raw) ≡ v ∷ b ∷ n ∷ s ∷ i ∷ []
    → unpack crc_format (drop (length raw - 2) raw)
      ≡ from_le (take 2 (drop (length raw - 2) raw)) ∷ []
    → encode_packet p ≡ ok (cobs_encode raw ++ (0 ∷ []))
encode_fields raw p bytes parts v b n s i values crc_values =
    let fit : Fits header_format (v ∷ b ∷ n ∷ s ∷ i ∷ []) =
      subst (Fits header_format) values (head_Fits raw p bytes parts.long) in
    let hd =
      read_header-Header v b n s i (payload raw p bytes parts.long) p
        (ap (λ l. read_header l (payload raw p bytes parts.long)) (sym values) ∙ parts.header_eq) in
    let packed = ap (pack header_format) (sym values) ∙ head_eq raw p bytes parts.long in
    let crc =
      ap (λ (c : ℕ). pack crc_format (c ∷ [])) (sym parts.crc_eq)
      ∙ ap (pack crc_format) (sym crc_values)
      ∙ crc_bytes raw p bytes parts.long in
    ap encode_packet (sym (packet_eq p s i hd.sequence_eq hd.step_id_eq))
    ∙ encode_packet_lem p.message_type s i p.payload (omega arith) (omega arith)
        (omega (arith, hd.fits, ap length hd.payload_eq))
    ∙ ap (λ r. ok (cobs_encode r ++ (0 ∷ [])))
        (raw_packet-read raw p bytes parts.long v b n s i packed hd crc)

-- A raw packet of bytes that is accepted is the one that encode_packet makes of the result.
encode-read_raw_packet :
    (raw : List ℕ) (p : Packet)
    → All IsByte raw
    → read_raw_packet raw ≡ ok p
    → encode_packet p ≡ ok (cobs_encode raw ++ (0 ∷ []))
unfolding unpack
encode-read_raw_packet raw p bytes h =
    encode_fields raw p bytes (read_raw_packet-Parts raw p h) _ _ _ _ _ refl refl

has_zero-false : (l : List ℕ) → has_zero l ≡ false → NoZero l
has_zero-false [] h = tt
has_zero-false (zero ∷ l) h = cc
has_zero-false (suc x ∷ l) h = (omega arith, has_zero-false l (ground arith))

strip_delimiter-IsByte : (l : List ℕ) → All IsByte l → All IsByte (strip_delimiter l)
unfolding strip_delimiter
strip_delimiter-IsByte [] h = tt
strip_delimiter-IsByte (zero ∷ []) h = tt
strip_delimiter-IsByte (suc x ∷ []) h = rw (ne→== (suc x) 0 (omega arith)) h
strip_delimiter-IsByte (x ∷ y ∷ rest) h = (h.0, strip_delimiter-IsByte (y ∷ rest) h.1)

-- A string of bytes that decode_packet accepts is the frame of the packet that it returns, with
-- or without the delimiter: no two frames stand for one packet.
pub encode_packet-decode_packet :
    (frame : List ℕ) (p : Packet)
    → All IsByte frame
    → decode_packet frame ≡ ok p
    → encode_packet p ≡ ok (strip_delimiter frame ++ (0 ∷ []))
unfolding decode_packet
encode_packet-decode_packet frame p bytes h =
    let encoded = strip_delimiter frame in
    let (filled, no_zero, short, rest) =
      refuse3-eq-ok (is_empty encoded) (has_zero encoded)
        (ltb max_encoded_frame_size (length encoded)) empty_frame unexpected_delimiter
        oversized_frame (cobs_decode encoded >>= λ raw. read_raw_packet raw) h in
    let (raw, decoded, accepted) =
      >>=-eq-ok (cobs_decode encoded) (λ raw. read_raw_packet raw) rest in
    let raw_bytes = cobs_decode-IsByte encoded raw (strip_delimiter-IsByte frame bytes) decoded in
    encode-read_raw_packet raw p raw_bytes accepted
    ∙ ap (λ l. ok (l ++ (0 ∷ [])))
        (cobs_encode-cobs_decode encoded raw (has_zero-false encoded no_zero)
          (omega (arith, ltb-false→le _ _ short)) decoded)
