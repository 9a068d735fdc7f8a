-- ===== src/Protocol/Packet/RoundTrip.antt =====
-- decode_packet of host/src/navbench/protocol.py reads back what encode_packet wrote.
use navbench.Common.{
  ℕ, ◌+◌, ◌-◌, ◌^◌, ◌≤◌, ◌<◌, ◌≡◌, refl, sym, ap, ◌∙◌, false, List, [], ◌∷◌, ◌++◌, append_assoc,
  append-nil, length, length-append, take, drop, take-length-append, drop-length-append, ltb, eq→==,
  ne→==, arith,
}
use mathlib.Core.Path.{subst, ap₂}
use navbench.Protocol.Error.{ok}
use navbench.Protocol.Value.{int, value}
use navbench.Protocol.Enums.{MessageType}
use navbench.Protocol.Enums.Laws.{message_of-message_code}
use navbench.Protocol.Struct.{Field, pack, unpack}
use navbench.Protocol.Struct.Laws.{unpack-pack, Fits}
use navbench.Protocol.Crc.{crc16_ccitt}
use navbench.Protocol.Cobs.{cobs_encode}
use navbench.Protocol.Cobs.Shape.{NoZero, cobs_encode-NoZero}
use navbench.Protocol.Cobs.RoundTrip.{cobs_decode-cobs_encode}
use navbench.Protocol.Packet.{
  Packet, header_format, crc_format, raw_packet, encode_packet, strip_delimiter, is_empty, has_zero,
  read_header, read_raw_packet, decode_packet, max_payload_size, max_encoded_frame_size,
}
use navbench.Protocol.Packet.Shape.{
  encode_packet-Encoded, header_values, header, checksum, header_Fits, checksum_Fits, length-header,
  length-checksum, length-raw_packet, length-raw_frame,
}

pub strip_delimiter-append : (body : List ℕ) → strip_delimiter (body ++ (0 ∷ [])) ≡ body
unfolding strip_delimiter
strip_delimiter-append [] = refl
strip_delimiter-append (x ∷ []) = refl
strip_delimiter-append (x ∷ y ∷ rest) = ap (λ l. x ∷ l) (strip_delimiter-append (y ∷ rest))

pub strip_delimiter-NoZero : (body : List ℕ) → NoZero body → strip_delimiter body ≡ body
unfolding strip_delimiter
strip_delimiter-NoZero [] h = refl
strip_delimiter-NoZero (x ∷ []) h = rw (ne→== x 0 h.0)
strip_delimiter-NoZero (x ∷ y ∷ rest) h = ap (λ l. x ∷ l) (strip_delimiter-NoZero (y ∷ rest) h.1)

pub has_zero-NoZero : (body : List ℕ) → NoZero body → has_zero body ≡ false
has_zero-NoZero [] h = refl
has_zero-NoZero (x ∷ rest) h = rw (ne→== x 0 h.0) (has_zero-NoZero rest h.1)

-- What decode_packet does with an encoded packet that is not too long.
pub decode_encoded :
    (frame raw : List ℕ)
    → strip_delimiter frame ≡ cobs_encode raw
    → length (cobs_encode raw) ≤ max_encoded_frame_size
    → 0 < length (cobs_encode raw)
    → decode_packet frame ≡ read_raw_packet raw
unfolding decode_packet
decode_encoded frame raw e n k =
    let filled : is_empty (cobs_encode raw) ≡ false = nonempty (cobs_encode raw) k in
    let no_zero = has_zero-NoZero (cobs_encode raw) (cobs_encode-NoZero raw) in
    let short : ltb max_encoded_frame_size (length (cobs_encode raw)) ≡ false = ground arith in
    rw (e, filled, no_zero, short, cobs_decode-cobs_encode raw)
  where
    nonempty : (l : List ℕ) → 0 < length l → is_empty l ≡ false
    nonempty [] p = absurd (omega arith)
    nonempty (x ∷ l) p = refl

take_to : (n : ℕ) (xs ys : List ℕ) → length xs ≡ n → take n (xs ++ ys) ≡ xs
take_to n xs ys e = subst (λ k. take k (xs ++ ys) ≡ xs) e (take-length-append xs ys)

drop_to : (n : ℕ) (xs ys : List ℕ) → length xs ≡ n → drop n (xs ++ ys) ≡ ys
drop_to n xs ys e = subst (λ k. drop k (xs ++ ys) ≡ ys) e (drop-length-append xs ys)

unpack_exact : (fs : List Field) (vs : List ℕ) → Fits fs vs → unpack fs (pack fs vs) ≡ vs
unpack_exact fs vs h = ap (unpack fs) (sym (append-nil (pack fs vs))) ∙ unpack-pack fs vs [] h

module _ (t : MessageType) (sequence step_id : ℕ) (payload : List ℕ)
    (sequence_lt : sequence < 2 ^ 32) (step_id_lt : step_id < 2 ^ 32)
    (fits : length payload ≤ max_payload_size) where
  abbrev head : List ℕ
  head = header t sequence step_id payload sequence_lt step_id_lt fits

  abbrev tail : List ℕ
  tail = checksum t sequence step_id payload sequence_lt step_id_lt fits

  head-length : length head ≡ 12
  head-length = length-header t sequence step_id payload sequence_lt step_id_lt fits

  tail-length : length tail ≡ 2
  tail-length = length-checksum t sequence step_id payload sequence_lt step_id_lt fits

  raw_length : length ((head ++ payload) ++ tail) - 2 ≡ length (head ++ payload)
  raw_length = omega (arith, length-append (head ++ payload) tail, tail-length)

  body_part :
      take (length ((head ++ payload) ++ tail) - 2) ((head ++ payload) ++ tail) ≡ head ++ payload
  body_part = take_to _ (head ++ payload) tail (sym raw_length)

  crc_part : drop (length ((head ++ payload) ++ tail) - 2) ((head ++ payload) ++ tail) ≡ tail
  crc_part = drop_to _ (head ++ payload) tail (sym raw_length)

  head_part : take 12 ((head ++ payload) ++ tail) ≡ head
  head_part =
      ap (take 12) (append_assoc head payload tail) ∙ take_to 12 head (payload ++ tail) head-length

  payload_part :
      take (length ((head ++ payload) ++ tail) - 2 - 12) (drop 12 ((head ++ payload) ++ tail))
      ≡ payload
  payload_part =
      ap (λ l. take (length ((head ++ payload) ++ tail) - 2 - 12) (drop 12 l))
        (append_assoc head payload tail)
      ∙ ap (take (length ((head ++ payload) ++ tail) - 2 - 12))
          (drop_to 12 head (payload ++ tail) head-length)
      ∙ take_to _ payload tail (omega (arith, raw_length, length-append head payload, head-length))

  abbrev sent : Packet
  sent = record {
    message_type = t;
    sequence = int sequence;
    step_id = int step_id;
    payload = payload;
  }

  read_header_lem :
      read_header (header_values t sequence step_id payload sequence_lt step_id_lt fits) payload
      ≡ ok sent
  unfolding read_header
  read_header_lem =
      let small : ltb max_payload_size (length payload) ≡ false = ground arith in
      rw (small, eq→== (length payload) (length payload) refl, message_of-message_code t)

  pub read-raw_packet : read_raw_packet (raw_packet t sequence step_id payload) ≡ ok sent
  unfolding read_raw_packet raw_packet
  read-raw_packet =
      let total : length ((head ++ payload) ++ tail) ≡ length payload + 14 =
        length-raw_packet t sequence step_id payload sequence_lt step_id_lt fits in
      let long : ltb (length ((head ++ payload) ++ tail)) 14 ≡ false = ground arith in
      let short : ltb 142 (length ((head ++ payload) ++ tail)) ≡ false = ground arith in
      let crc_read =
        unpack_exact crc_format (crc16_ccitt (head ++ payload) ∷ [])
          (checksum_Fits t sequence step_id payload sequence_lt step_id_lt fits) in
      let head_read =
        unpack_exact header_format
          (header_values t sequence step_id payload sequence_lt step_id_lt fits)
          (header_Fits t sequence step_id payload sequence_lt step_id_lt fits) in
      rw
        (
          long,
          short,
          crc_part,
          body_part,
          head_part,
          payload_part,
          crc_read,
          head_read,
          eq→== (crc16_ccitt (head ++ payload)) _ refl,
        )
        read_header_lem

same_packet :
    (p : Packet)
    → int (value p.sequence) ≡ p.sequence
    → int (value p.step_id) ≡ p.step_id
    → ok (record {
      message_type = p.message_type;
      sequence = int (value p.sequence);
      step_id = int (value p.step_id);
      payload = p.payload;
    })
      ≡ ok p
same_packet p a b =
    ap₂
      (λ s t.
        ok (record {
          message_type = p.message_type;
          sequence = s;
          step_id = t;
          payload = p.payload;
        }))
      a b

-- The same for the frame without its delimiter, which is what the stream parser hands over.
pub decode_packet_body :
    (p : Packet) (body : List ℕ)
    → encode_packet p ≡ ok (body ++ (0 ∷ []))
    → decode_packet body ≡ ok p
decode_packet_body p body h =
    let e = encode_packet-Encoded p (body ++ (0 ∷ [])) h in
    let raw = raw_packet p.message_type (value p.sequence) (value p.step_id) p.payload in
    let len =
      length-raw_frame p.message_type (value p.sequence) (value p.step_id) p.payload e.sequence_lt
        e.step_id_lt e.fits in
    let same : body ≡ cobs_encode raw =
      sym (strip_delimiter-append body)
      ∙ ap strip_delimiter e.frame_eq
      ∙ strip_delimiter-append (cobs_encode raw) in
    decode_encoded body raw
      (ap strip_delimiter same ∙ strip_delimiter-NoZero (cobs_encode raw) (cobs_encode-NoZero raw))
      (omega (arith, len, e.fits)) (omega (arith, len))
    ∙ read-raw_packet p.message_type (value p.sequence) (value p.step_id) p.payload e.sequence_lt
        e.step_id_lt e.fits
    ∙ same_packet p (sym e.sequence_eq) (sym e.step_id_eq)

-- Every packet that encode_packet accepts is read back by decode_packet, with the delimiter that
-- the encoder appends.
pub decode_packet-encode_packet :
    (p : Packet) (frame : List ℕ) → encode_packet p ≡ ok frame → decode_packet frame ≡ ok p
decode_packet-encode_packet p frame h =
    let e = encode_packet-Encoded p frame h in
    let raw = raw_packet p.message_type (value p.sequence) (value p.step_id) p.payload in
    let len =
      length-raw_frame p.message_type (value p.sequence) (value p.step_id) p.payload e.sequence_lt
        e.step_id_lt e.fits in
    decode_encoded frame raw
      (ap strip_delimiter e.frame_eq ∙ strip_delimiter-append (cobs_encode raw))
      (omega (arith, len, e.fits)) (omega (arith, len))
    ∙ read-raw_packet p.message_type (value p.sequence) (value p.step_id) p.payload e.sequence_lt
        e.step_id_lt e.fits
    ∙ same_packet p (sym e.sequence_eq) (sym e.step_id_eq)
