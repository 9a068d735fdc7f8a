-- ===== src/Protocol/Stream/Fragments.antt =====
-- StreamParser of host/src/navbench/protocol.py does not depend on how the stream is cut into reads.
use navbench.Common.{
  ℕ, ◌+◌, ◌≡◌, refl, sym, ap, ◌∙◌, false, inl, inr, List, [], ◌∷◌, ◌++◌, append_assoc, append-nil,
  length, length-append, leb, ◌==◌, Bool-cases, arith,
}
use mathlib.Core.Path.{ap₂}
use navbench.Protocol.Error.{ProtocolErrorCode, Result, ok, err}
use navbench.Protocol.Packet.{Packet, decode_packet, is_empty, max_encoded_frame_size}
use navbench.Protocol.Stream.{
  ParserStats, ParseBatch, StreamParser, Parsing, count_error, take_frame, feed_delimiter,
  feed_value, feed_byte, feed_loop, feed,
}

abbrev pub joined : ParseBatch → ParseBatch → ParseBatch
joined a b = record { packets = a.packets ++ b.packets; errors = a.errors ++ b.errors }

abbrev pub more_bytes : ℕ → StreamParser → StreamParser
more_bytes n p = record p { stats = record p.stats { bytes_received = p.stats.bytes_received + n } }

-- The same moment, with `a` returned before and `n` more bytes counted.
abbrev pub after : ParseBatch → ℕ → Parsing → Parsing
after a n (p, b) = (more_bytes n p, joined a b)

count_error-bytes :
    (code : ProtocolErrorCode) (s : ParserStats) (n : ℕ)
    → count_error code (record s { bytes_received = s.bytes_received + n })
      ≡ record (count_error code s) { bytes_received = (count_error code s).bytes_received + n }
unfolding count_error
count_error-bytes ProtocolErrorCode.cobs_malformed s n = refl
count_error-bytes _ s n = refl

take_frame-after :
    (a : ParseBatch) (n : ℕ) (s : Parsing) (r : Result Packet)
    → take_frame (after a n s) r ≡ after a n (take_frame s r)
unfolding take_frame
take_frame-after a n (p, b) (ok packet) =
    ap
      (λ l. (
        record (more_bytes n p) {
          stats = record (more_bytes n p).stats { packets_accepted = p.stats.packets_accepted + 1 };
        },
        record { packets = l; errors = a.errors ++ b.errors },
      ))
      (append_assoc a.packets b.packets (packet ∷ []))
take_frame-after a n (p, b) (err code) =
    ap₂ (λ t l. (record p { stats = t }, record { packets = a.packets ++ b.packets; errors = l }))
      (count_error-bytes code p.stats n) (append_assoc a.errors b.errors (code ∷ []))

feed_delimiter-after :
    (a : ParseBatch) (n : ℕ) (s : Parsing)
    → feed_delimiter (after a n s) ≡ after a n (feed_delimiter s)
unfolding feed_delimiter
feed_delimiter-after a n (p, b) = elim (Bool-cases p.discard_until_delimiter) [
  | inl skip ↦ simp skip
  | inr kept ↦ simp kept (elim (Bool-cases (is_empty p.encoded)) [
    | inl empty ↦ simp empty
    | inr filled ↦ simp filled (
        take_frame-after a n
          (
            record p {
              stats = record p.stats { frames_received = p.stats.frames_received + 1 };
              encoded = [];
              discard_until_delimiter = false;
            },
            b,
          )
          (decode_packet p.encoded))
  ])
]

feed_value-after :
    (a : ParseBatch) (n : ℕ) (s : Parsing) (value : ℕ)
    → feed_value (after a n s) value ≡ after a n (feed_value s value)
unfolding feed_value
feed_value-after a n (p, b) value = elim (Bool-cases p.discard_until_delimiter) [
  | inl skip ↦ simp skip
  | inr kept ↦ simp kept (elim (Bool-cases (leb max_encoded_frame_size (length p.encoded))) [
    | inl full ↦ simp (full, append_assoc)
    | inr room ↦ simp room
  ])
]

feed_byte-after :
    (a : ParseBatch) (n : ℕ) (s : Parsing) (value : ℕ)
    → feed_byte (after a n s) value ≡ after a n (feed_byte s value)
unfolding feed_byte
feed_byte-after a n s value = elim (Bool-cases (value == 0)) [
  | inl delimiter ↦ rw delimiter (feed_delimiter-after a n s)
  | inr other ↦ rw other (feed_value-after a n s value)
]

pub feed_loop-after :
    (a : ParseBatch) (n : ℕ) (s : Parsing) (xs : List ℕ)
    → feed_loop (after a n s) xs ≡ after a n (feed_loop s xs)
unfolding feed_loop
feed_loop-after a n s [] = refl
feed_loop-after a n s (x ∷ xs) =
    ap (λ s'. feed_loop s' xs) (feed_byte-after a n s x) ∙ feed_loop-after a n (feed_byte s x) xs

pub feed_loop-append :
    (s : Parsing) (xs ys : List ℕ) → feed_loop s (xs ++ ys) ≡ feed_loop (feed_loop s xs) ys
unfolding feed_loop
feed_loop-append s [] ys = refl
feed_loop-append s (x ∷ xs) ys = feed_loop-append (feed_byte s x) xs ys

abbrev pub no_batch : ParseBatch
no_batch = record { packets = []; errors = [] }

-- Two reads, one after the other.
abbrev pub feed_both : StreamParser → List ℕ → List ℕ → Parsing
feed_both p xs ys = let (q, b) = feed p xs in let (r, c) = feed q ys in (r, joined b c)

at_bytes : StreamParser → ℕ → StreamParser
at_bytes p n = record p { stats = record p.stats { bytes_received = n } }

-- Nothing more counted.
after_zero : (a : ParseBatch) (s : Parsing) → after a 0 s ≡ (s.0, joined a s.1)
unfolding at_bytes
after_zero a (p, b) =
    ap (λ (n : ℕ). (at_bytes p n, joined a b)) {y = p.stats.bytes_received} (omega arith)

joined_nothing : (a : ParseBatch) → joined a no_batch ≡ a
joined_nothing a =
    ap₂ (λ ps es. record { packets = ps; errors = es }) (append-nil a.packets) (append-nil a.errors)

-- A loop that has returned `b` before goes on as one that has not, with `b` in front.
pub feed_loop_from :
    (q : StreamParser) (b : ParseBatch) (ys : List ℕ)
    → feed_loop (q, b) ys
      ≡ ((feed_loop (q, no_batch) ys).0, joined b (feed_loop (q, no_batch) ys).1)
feed_loop_from q b ys =
    ap (λ s. feed_loop s ys)
      (ap (λ c. (q, c)) (sym (joined_nothing b)) ∙ sym (after_zero b (q, no_batch)))
    ∙ feed_loop-after b 0 (q, no_batch) ys
    ∙ after_zero b (feed_loop (q, no_batch) ys)

more_bytes-append :
    (p : StreamParser) (xs ys : List ℕ)
    → more_bytes (length (xs ++ ys)) p ≡ more_bytes (length ys) (more_bytes (length xs) p)
unfolding at_bytes
more_bytes-append p xs ys =
    ap (at_bytes p) {y = p.stats.bytes_received + length xs + length ys}
      (omega (arith, length-append xs ys))

-- Feeding a string in two pieces, cut anywhere, leaves the parser in the same state, and with the
-- same packets and errors in the same order, as feeding it whole.
pub feed-append : (p : StreamParser) (xs ys : List ℕ) → feed p (xs ++ ys) ≡ feed_both p xs ys
unfolding feed
feed-append p xs ys =
    let s = feed_loop (more_bytes (length xs) p, no_batch) xs in
    ap (λ q. feed_loop (q, no_batch) (xs ++ ys)) (more_bytes-append p xs ys)
    ∙ feed_loop-append (after no_batch (length ys) (more_bytes (length xs) p, no_batch)) xs ys
    ∙ ap (λ t. feed_loop t ys)
        (feed_loop-after no_batch (length ys) (more_bytes (length xs) p, no_batch) xs)
    ∙ feed_loop_from (more_bytes (length ys) s.0) s.1 ys
