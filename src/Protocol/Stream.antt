-- ===== src/Protocol/Stream.antt =====
-- StreamParser of host/src/navbench/protocol.py: frames out of fragmented or combined reads.
pub mod Laws
pub mod Counters
pub mod Fragments
pub mod Delivery
use navbench.Common.{
  ℕ, zero, suc, ◌+◌, Bool, true, false, not, ◌&&◌, List, [], ◌∷◌, ◌++◌, length, leb, ◌==◌,
  if◌then◌else◌,
}
use navbench.Protocol.Error.{
  ProtocolErrorCode, Result, ok, err, empty_frame, unexpected_delimiter, cobs_malformed,
  packet_too_short, crc_mismatch, unsupported_version, unknown_message_type,
  payload_length_mismatch, payload_too_large, invalid_value, oversized_frame, truncated_frame,
}
use navbench.Protocol.Packet.{Packet, decode_packet, is_empty, max_encoded_frame_size}

pub record ParserStats : Type 0 where
  pub bytes_received : ℕ
  pub frames_received : ℕ
  pub packets_accepted : ℕ
  pub empty_delimiters : ℕ
  pub oversized_frames : ℕ
  pub truncated_frames : ℕ
  pub cobs_errors : ℕ
  pub crc_errors : ℕ
  pub version_errors : ℕ
  pub type_errors : ℕ
  pub length_errors : ℕ
  pub other_errors : ℕ

abbrev pub zero_stats : ParserStats
zero_stats = record {
  bytes_received = 0;
  frames_received = 0;
  packets_accepted = 0;
  empty_delimiters = 0;
  oversized_frames = 0;
  truncated_frames = 0;
  cobs_errors = 0;
  crc_errors = 0;
  version_errors = 0;
  type_errors = 0;
  length_errors = 0;
  other_errors = 0;
}

-- A failure is its code; the message is not modelled.
pub record ParseBatch : Type 0 where
  pub packets : List Packet
  pub errors : List ProtocolErrorCode

pub record StreamParser : Type 0 where
  pub stats : ParserStats
  pub encoded : List ℕ
  pub discard_until_delimiter : Bool

abbrev pub new_parser : StreamParser
new_parser = record { stats = zero_stats; encoded = []; discard_until_delimiter = false }

unfoldable pub reset_parser : Bool → StreamParser → StreamParser
reset_parser clear_stats p = record {
  stats = if clear_stats then zero_stats else p.stats;
  encoded = [];
  discard_until_delimiter = false;
}

unfoldable pub count_error : ProtocolErrorCode → ParserStats → ParserStats
count_error cobs_malformed s = record s { cobs_errors = s.cobs_errors + 1 }
count_error crc_mismatch s = record s { crc_errors = s.crc_errors + 1 }
count_error unsupported_version s = record s { version_errors = s.version_errors + 1 }
count_error unknown_message_type s = record s { type_errors = s.type_errors + 1 }
count_error packet_too_short s = record s { length_errors = s.length_errors + 1 }
count_error payload_length_mismatch s = record s { length_errors = s.length_errors + 1 }
count_error payload_too_large s = record s { length_errors = s.length_errors + 1 }
count_error _ s = record s { other_errors = s.other_errors + 1 }

abbrev pub Parsing : Type 0
Parsing = StreamParser × ParseBatch

-- A decoded frame: the parser has counted it and cleared its buffer.
unfoldable pub take_frame : Parsing → Result Packet → Parsing
unfolding count_error
take_frame (p, b) (ok packet) = (
  record p { stats = record p.stats { packets_accepted = p.stats.packets_accepted + 1 } },
  record b { packets = b.packets ++ (packet ∷ []) },
)
take_frame (p, b) (err code) =
    (record p { stats = count_error code p.stats }, record b { errors = b.errors ++ (code ∷ []) })

-- `value == 0`
unfoldable pub feed_delimiter : Parsing → Parsing
unfolding take_frame
feed_delimiter (p, b) =
    if p.discard_until_delimiter
    then (record p { discard_until_delimiter = false; encoded = [] }, b)
    else if is_empty p.encoded
    then (
      record p { stats = record p.stats { empty_delimiters = p.stats.empty_delimiters + 1 } },
      b,
    )
    else take_frame
        (
          record p {
            stats = record p.stats { frames_received = p.stats.frames_received + 1 };
            encoded = [];
          },
          b,
        )
        (decode_packet p.encoded)

unfoldable pub feed_value : Parsing → ℕ → Parsing
feed_value (p, b) value =
    if p.discard_until_delimiter
    then (p, b)
    else if leb max_encoded_frame_size (length p.encoded)
    then (
      record p {
        stats = record p.stats { oversized_frames = p.stats.oversized_frames + 1 };
        encoded = [];
        discard_until_delimiter = true;
      },
      record b { errors = b.errors ++ (oversized_frame ∷ []) },
    )
    else (record p { encoded = p.encoded ++ (value ∷ []) }, b)

unfoldable pub feed_byte : Parsing → ℕ → Parsing
unfolding feed_delimiter feed_value
feed_byte s value = if value == 0 then feed_delimiter s else feed_value s value

unfoldable pub feed_loop : Parsing → List ℕ → Parsing
feed_loop s [] = s
feed_loop s (value ∷ rest) = feed_loop (feed_byte s value) rest

unfoldable pub feed : StreamParser → List ℕ → Parsing
unfolding feed_loop feed_byte
feed p values =
    feed_loop
      (
        record p {
          stats = record p.stats { bytes_received = p.stats.bytes_received + length values };
        },
        record { packets = []; errors = [] },
      )
      values

-- The end of the stream inside a frame.
abbrev pub truncated : StreamParser → Parsing
truncated p = (
  record {
    stats = record p.stats { truncated_frames = p.stats.truncated_frames + 1 };
    encoded = [];
    discard_until_delimiter = false;
  },
  record { packets = []; errors = truncated_frame ∷ [] },
)

-- `not self._encoded and not self._discard_until_delimiter`
unfoldable pub finish : StreamParser → Parsing
finish p =
    if is_empty p.encoded && not p.discard_until_delimiter
    then (p, record { packets = []; errors = [] })
    else truncated p
