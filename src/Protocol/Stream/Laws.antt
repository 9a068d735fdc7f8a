-- ===== src/Protocol/Stream/Laws.antt =====
-- The bounds and the counters of StreamParser of host/src/navbench/protocol.py, and its
-- independence of how the stream is cut.
use navbench.Common.{
  ℕ, ◌+◌, ◌≤◌, ◌≡◌, refl, ap, true, false, inl, inr, List, [], ◌∷◌, length, length-append, ◌==◌,
  Bool-cases, arith,
}
use navbench.Protocol.Error.{Result, ok, err}
use navbench.Protocol.Packet.{Packet, decode_packet, max_encoded_frame_size}
use navbench.Protocol.Stream.{
  StreamParser, Parsing, take_frame, feed_delimiter, feed_value, feed_byte, feed_loop, feed,
}

-- The buffer never outgrows a frame, and is empty while bytes are discarded.
pub record IsBounded (p : StreamParser) : Type 0 where
  pub short : length p.encoded ≤ max_encoded_frame_size
  pub discarding : p.discard_until_delimiter ≡ true → p.encoded ≡ []

-- The parser that has taken its buffer for a frame.
abbrev started : StreamParser → StreamParser
started p = record p {
  stats = record p.stats { frames_received = p.stats.frames_received + 1 };
  encoded = [];
}

take_frame-kept : (s : Parsing) (r : Result Packet) → (take_frame s r).0.encoded ≡ s.0.encoded
unfolding take_frame
take_frame-kept (p, b) (ok packet) = refl
take_frame-kept (p, b) (err code) = refl

take_frame-discard :
    (s : Parsing) (r : Result Packet)
    → (take_frame s r).0.discard_until_delimiter ≡ s.0.discard_until_delimiter
unfolding take_frame
take_frame-discard (p, b) (ok packet) = refl
take_frame-discard (p, b) (err code) = refl

-- A delimiter leaves the parser at the start of a frame, whatever it held.
pub feed_delimiter-at_start :
    (s : Parsing)
    → ((feed_delimiter s).0.encoded ≡ []) × ((feed_delimiter s).0.discard_until_delimiter ≡ false)
unfolding feed_delimiter
feed_delimiter-at_start (p, b) = ground (
  arith,
  take_frame-kept (started p, b) (decode_packet p.encoded),
  take_frame-discard (started p, b) (decode_packet p.encoded),
)

feed_value-IsBounded : (s : Parsing) (value : ℕ) → IsBounded s.0 → IsBounded (feed_value s value).0
unfolding feed_value
feed_value-IsBounded (p, b) value h = ground (arith, length-append p.encoded (value ∷ []))

feed_byte-IsBounded : (s : Parsing) (value : ℕ) → IsBounded s.0 → IsBounded (feed_byte s value).0
unfolding feed_byte
feed_byte-IsBounded s value h = elim (Bool-cases (value == 0)) [
  | inl zero_byte ↦
      rw zero_byte (at_start (feed_delimiter-at_start s).0 (feed_delimiter-at_start s).1)
  | inr other ↦ rw other (feed_value-IsBounded s value h)
]
  where
    at_start : {p : StreamParser} → p.encoded ≡ [] → p.discard_until_delimiter ≡ false → IsBounded p
    at_start e d = record { short = omega (arith, ap length e); discarding = λ c. e }

feed_loop-IsBounded : (s : Parsing) (xs : List ℕ) → IsBounded s.0 → IsBounded (feed_loop s xs).0
unfolding feed_loop
feed_loop-IsBounded s [] h = h
feed_loop-IsBounded s (x ∷ xs) h =
    feed_loop-IsBounded (feed_byte s x) xs (feed_byte-IsBounded s x h)

-- Whatever is fed, the buffer stays within one frame.
pub feed-IsBounded : (p : StreamParser) (xs : List ℕ) → IsBounded p → IsBounded (feed p xs).0
unfolding feed
feed-IsBounded p xs h =
    feed_loop-IsBounded _ xs (record { short = h.short; discarding = h.discarding })
