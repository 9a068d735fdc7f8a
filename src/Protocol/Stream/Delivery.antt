-- ===== src/Protocol/Stream/Delivery.antt =====
-- StreamParser of host/src/navbench/protocol.py delivers the packets that encode_packet framed.
use navbench.Common.{
  ℕ, ◌+◌, ◌≤◌, ◌<◌, ◌≡◌, refl, sym, ap, ◌∙◌, false, List, [], ◌∷◌, ◌++◌, append_assoc, append-nil,
  length, length-append, All, leb, ne→==, arith,
}
use mathlib.Core.Path.{ap₂}
use navbench.Protocol.Error.{ok}
use navbench.Protocol.Struct.Laws.{IsByte}
use navbench.Protocol.Cobs.Shape.{NoZero}
use navbench.Protocol.Packet.{Packet, encode_packet, decode_packet, max_encoded_frame_size}
use navbench.Protocol.Packet.Shape.{encode_packet-framed}
use navbench.Protocol.Packet.RoundTrip.{decode_packet_body}
use navbench.Protocol.Stream.{
  ParserStats, ParseBatch, StreamParser, Parsing, take_frame, feed_delimiter, feed_value, feed_byte,
  feed_loop, feed,
}
use navbench.Protocol.Stream.Laws.{feed_delimiter-at_start}
use navbench.Protocol.Stream.Fragments.{no_batch, joined, feed_loop-append, feed-append}

-- The parser is between two frames.
abbrev pub AtStart : StreamParser → Type 0
AtStart p = (p.encoded ≡ []) × (p.discard_until_delimiter ≡ false)

abbrev holding : ParserStats → List ℕ → StreamParser
holding s l = record { stats = s; encoded = l; discard_until_delimiter = false }

-- Bytes other than zero join the buffer while it has room.
feed_body :
    (s : ParserStats) (b : ParseBatch) (held body : List ℕ)
    → NoZero body
    → length held + length body ≤ max_encoded_frame_size
    → feed_loop (holding s held, b) body ≡ (holding s (held ++ body), b)
unfolding feed_loop feed_byte feed_value
feed_body s b held [] h n = ap (λ l. (holding s l, b)) (sym (append-nil held))
feed_body s b held (x ∷ body) h n =
    let room : leb max_encoded_frame_size (length held) ≡ false = ground arith in
    rw (ne→== x 0 h.0, room)
      (feed_body s b (held ++ (x ∷ [])) body h.1 (omega (arith, length-append held (x ∷ [])))
        ∙ ap (λ l. (holding s l, b)) (append_assoc held (x ∷ []) body))

abbrev one_more : ParserStats → ParserStats
one_more s = record s {
  frames_received = s.frames_received + 1;
  packets_accepted = s.packets_accepted + 1;
}

-- The delimiter of a held frame that decodes.
feed_end :
    (s : ParserStats) (b : ParseBatch) (x : ℕ) (body : List ℕ) (packet : Packet)
    → decode_packet (x ∷ body) ≡ ok packet
    → feed_byte (holding s (x ∷ body), b) 0
      ≡ (holding (one_more s) [], record b { packets = b.packets ++ (packet ∷ []) })
unfolding feed_byte feed_delimiter take_frame
feed_end s b x body packet h =
    ap (take_frame (holding (record s { frames_received = s.frames_received + 1 }) [], b)) h

-- The frames of some packets, one after the other.
pub data Frames : List Packet → List ℕ → Type 0 where
  done : Frames [] []
  next :
      {packet : Packet} {packets : List Packet} {frame rest : List ℕ}
      → All IsByte packet.payload
      → encode_packet packet ≡ ok frame
      → Frames packets rest
      → Frames (packet ∷ packets) (frame ++ rest)

feed_frame :
    (s : ParserStats) (b : ParseBatch) (packet : Packet) (frame : List ℕ)
    → All IsByte packet.payload
    → encode_packet packet ≡ ok frame
    → feed_loop (holding s [], b) frame
      ≡ (holding (one_more s) [], record b { packets = b.packets ++ (packet ∷ []) })
unfolding feed_loop
feed_frame s b packet frame bytes h =
    let (body, frame_eq, no_zero, body_bytes, len, bound) =
      encode_packet-framed packet frame bytes h in
    rw frame_eq (
      feed_loop-append (holding s [], b) body (0 ∷ [])
      ∙ ap (λ t. feed_loop t (0 ∷ []))
          (feed_body s b [] body no_zero
            (omega (arith, ap length frame_eq, length-append body (0 ∷ []), bound)))
      ∙ at_end body (decode_packet_body packet body (h ∙ ap ok frame_eq))
          (omega (arith, ap length frame_eq, length-append body (0 ∷ []), len)))
  where
    at_end :
        (l : List ℕ)
        → decode_packet l ≡ ok packet
        → 0 < length l
        → feed_byte (holding s l, b) 0
          ≡ (holding (one_more s) [], record b { packets = b.packets ++ (packet ∷ []) })
    at_end [] e k = absurd (omega arith)
    at_end (x ∷ l) e k = feed_end s b x l packet e

-- What the loop returns on the frames of `packets`.
record Delivered (s : ParserStats) (b : ParseBatch) (packets : List Packet) (t : Parsing)
    : Type 0 where
  packets_eq : t.1.packets ≡ b.packets ++ packets
  errors_eq : t.1.errors ≡ b.errors
  encoded_eq : t.0.encoded ≡ []
  kept : t.0.discard_until_delimiter ≡ false

feed_loop-Frames :
    (s : ParserStats) (b : ParseBatch) {packets : List Packet} {stream : List ℕ}
    → Frames packets stream
    → Delivered s b packets (feed_loop (holding s [], b) stream)
feed_loop-Frames s b done =
    unfold feed_loop in
    record {
      packets_eq = sym (append-nil b.packets);
      errors_eq = refl;
      encoded_eq = refl;
      kept = refl;
    }
feed_loop-Frames s b
      (next {packet = packet} {packets = packets} {frame = frame} {rest = rest} bytes h more) =
    let b' : ParseBatch = record b { packets = b.packets ++ (packet ∷ []) } in
    let d = feed_loop-Frames (one_more s) b' more in
    let e =
      feed_loop-append (holding s [], b) frame rest
      ∙ ap (λ t. feed_loop t rest) (feed_frame s b packet frame bytes h) in
    rw e (record {
      packets_eq = d.packets_eq ∙ append_assoc b.packets (packet ∷ []) packets;
      errors_eq = d.errors_eq;
      encoded_eq = d.encoded_eq;
      kept = d.kept;
    })

parser_eq : (p : StreamParser) → AtStart p → p ≡ holding p.stats []
parser_eq p (e, d) =
    ap₂ (λ l c. record { stats = p.stats; encoded = l; discard_until_delimiter = c }) e d

-- Between two frames, feeding the frames of some packets returns these packets in order, with no
-- error, and leaves the parser between two frames.
pub feed-Frames :
    (p : StreamParser) {packets : List Packet} {stream : List ℕ}
    → AtStart p
    → Frames packets stream
    → ((feed p stream).1 ≡ record { packets = packets; errors = [] }) × AtStart (feed p stream).0
unfolding feed
feed-Frames p {stream} start frames =
    let q = record p {
      stats = record p.stats { bytes_received = p.stats.bytes_received + length stream };
    } in
    let d = feed_loop-Frames q.stats no_batch frames in
    rw (parser_eq q start) (
      ap₂ (λ ps es. record { packets = ps; errors = es }) d.packets_eq d.errors_eq,
      (d.encoded_eq, d.kept),
    )

feed_loop-delimited : (s : Parsing) (junk : List ℕ) → AtStart (feed_loop s (junk ++ (0 ∷ []))).0
unfolding feed_loop feed_byte
feed_loop-delimited s [] = feed_delimiter-at_start s
feed_loop-delimited s (x ∷ junk) = feed_loop-delimited (feed_byte s x) junk

-- After any bytes and one delimiter the parser is between two frames, whatever state it was in.
feed-delimited : (p : StreamParser) (junk : List ℕ) → AtStart (feed p (junk ++ (0 ∷ []))).0
unfolding feed
feed-delimited p junk = feed_loop-delimited _ junk

-- The parser recovers: from any state, whatever bytes come up to a delimiter, the packets framed
-- behind it are returned in order behind those that the bytes gave, with no further error.
pub feed_resynchronises :
    (p : StreamParser) (junk : List ℕ) {packets : List Packet} {stream : List ℕ}
    → Frames packets stream
    → (feed p ((junk ++ (0 ∷ [])) ++ stream)).1 ≡ record {
      packets = (feed p (junk ++ (0 ∷ []))).1.packets ++ packets;
      errors = (feed p (junk ++ (0 ∷ []))).1.errors;
    }
feed_resynchronises p junk {packets} {stream} frames =
    let before = feed p (junk ++ (0 ∷ [])) in
    let (same, start) = feed-Frames before.0 (feed-delimited p junk) frames in
    ap (λ t. t.1) (feed-append p (junk ++ (0 ∷ [])) stream)
    ∙ ap (joined before.1) same
    ∙ ap (λ es. record { packets = before.1.packets ++ packets; errors = es })
        (append-nil before.1.errors)
