-- ===== src/Protocol/Stream/Counters.antt =====
-- The counters of StreamParser of host/src/navbench/protocol.py against what it returns.
use navbench.Common.{
  ℕ, ◌+◌, ◌≡◌, refl, false, inl, inr, List, [], ◌∷◌, length, length-append, leb, ◌==◌, Bool-cases,
  arith,
}
use navbench.Protocol.Error.{ProtocolErrorCode, Result, ok, err, oversized_frame}
use navbench.Protocol.Packet.{Packet, decode_packet, is_empty, max_encoded_frame_size}
use navbench.Protocol.Stream.{
  ParserStats, ParseBatch, StreamParser, Parsing, count_error, take_frame, feed_delimiter,
  feed_value, feed_byte, feed_loop, feed,
}

-- The failed frames that the parser has counted.
abbrev pub failures : ParserStats → ℕ
failures s =
    s.cobs_errors + s.crc_errors + s.version_errors + s.type_errors + s.length_errors
    + s.other_errors

-- From one moment of a `feed` to a later one, the counters grow as the two lists do.
pub record Counts (s s' : Parsing) : Type 0 where
  pub accepted :
      s'.0.stats.packets_accepted + length s.1.packets
      ≡ s.0.stats.packets_accepted + length s'.1.packets
  pub failed :
      failures s'.0.stats + s'.0.stats.oversized_frames + length s.1.errors
      ≡ failures s.0.stats + s.0.stats.oversized_frames + length s'.1.errors
  pub frames :
      s'.0.stats.frames_received + s.0.stats.packets_accepted + failures s.0.stats
      ≡ s.0.stats.frames_received + s'.0.stats.packets_accepted + failures s'.0.stats
  pub bytes : s'.0.stats.bytes_received ≡ s.0.stats.bytes_received

failures-count_error :
    (code : ProtocolErrorCode) (s : ParserStats) → failures (count_error code s) ≡ failures s + 1
unfolding count_error
failures-count_error ProtocolErrorCode.cobs_malformed s = omega arith
failures-count_error _ s = omega arith

count_error-rest :
    (code : ProtocolErrorCode) (s : ParserStats)
    → ((count_error code s).bytes_received ≡ s.bytes_received)
      × ((count_error code s).frames_received ≡ s.frames_received)
      × ((count_error code s).packets_accepted ≡ s.packets_accepted)
      × ((count_error code s).oversized_frames ≡ s.oversized_frames)
unfolding count_error
count_error-rest ProtocolErrorCode.cobs_malformed s = (refl, refl, refl, refl)
count_error-rest _ s = (refl, refl, refl, refl)

-- A frame has been counted and waits for its verdict.
abbrev counted_frame : StreamParser → StreamParser
counted_frame p = record {
  stats = record p.stats { frames_received = p.stats.frames_received + 1 };
  encoded = [];
  discard_until_delimiter = false;
}

take_frame-Counts :
    (p : StreamParser) (b : ParseBatch) (r : Result Packet)
    → Counts (p, b) (take_frame (counted_frame p, b) r)
unfolding take_frame
take_frame-Counts p b (ok packet) = omega (arith, length-append b.packets (packet ∷ []))
take_frame-Counts p b (err code) =
    let (bytes, frames, accepted, oversized) = count_error-rest code (counted_frame p).stats in
    let failed = failures-count_error code (counted_frame p).stats in
    record {
      accepted = omega (arith, accepted);
      failed = omega (arith, failed, oversized, length-append b.errors (code ∷ []));
      frames = omega (arith, failed, frames, accepted);
      bytes = bytes;
    }

feed_byte-Counts : (s : Parsing) (value : ℕ) → Counts s (feed_byte s value)
unfolding feed_byte feed_delimiter feed_value
feed_byte-Counts (p, b) value = elim (Bool-cases (value == 0)) [
  | inl delimiter ↦ rw delimiter (elim (Bool-cases p.discard_until_delimiter) [
    | inl skip ↦ simp skip (omega arith)
    | inr kept ↦ simp kept (elim (Bool-cases (is_empty p.encoded)) [
      | inl empty ↦ simp empty (omega arith)
      | inr filled ↦ simp filled (take_frame-Counts p b (decode_packet p.encoded))
    ])
  ])
  | inr other ↦ rw other (elim (Bool-cases p.discard_until_delimiter) [
    | inl skip ↦ simp skip (omega arith)
    | inr kept ↦ simp kept (elim (Bool-cases (leb max_encoded_frame_size (length p.encoded))) [
      | inl full ↦ simp full (omega (arith, length-append b.errors (oversized_frame ∷ [])))
      | inr room ↦ simp room (omega arith)
    ])
  ])
]

feed_loop-Counts : (s : Parsing) (xs : List ℕ) → Counts s (feed_loop s xs)
unfolding feed_loop
feed_loop-Counts s [] = omega arith
feed_loop-Counts s (x ∷ xs) =
    let now = feed_byte-Counts s x in
    let later = feed_loop-Counts (feed_byte s x) xs in
    record {
      accepted = omega (arith, now.accepted, later.accepted);
      failed = omega (arith, now.failed, later.failed);
      frames = omega (arith, now.frames, later.frames);
      bytes = omega (arith, now.bytes, later.bytes);
    }

-- One call of `feed` counts each byte, each packet that it returns and each failure that it
-- reports, and each delimited frame is either accepted or a counted failure.
pub record Fed (p p' : StreamParser) (b : ParseBatch) (xs : List ℕ) : Type 0 where
  pub bytes : p'.stats.bytes_received ≡ p.stats.bytes_received + length xs
  pub accepted : p'.stats.packets_accepted ≡ p.stats.packets_accepted + length b.packets
  pub failed :
      failures p'.stats + p'.stats.oversized_frames
      ≡ failures p.stats + p.stats.oversized_frames + length b.errors
  pub frames :
      p'.stats.frames_received + p.stats.packets_accepted + failures p.stats
      ≡ p.stats.frames_received + p'.stats.packets_accepted + failures p'.stats

pub feed-Fed : (p : StreamParser) (xs : List ℕ) → Fed p (feed p xs).0 (feed p xs).1 xs
unfolding feed
feed-Fed p xs =
    let c =
      feed_loop-Counts
        (
          record p {
            stats = record p.stats { bytes_received = p.stats.bytes_received + length xs };
          },
          record { packets = []; errors = [] },
        )
        xs in
    record {
      bytes = c.bytes;
      accepted = omega (arith, c.accepted);
      failed = omega (arith, c.failed);
      frames = c.frames;
    }
