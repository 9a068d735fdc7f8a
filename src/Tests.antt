-- ===== src/Tests.antt =====
-- Runs of host/src/navbench/protocol.py on concrete data, and its theorems at concrete inputs.
pub mod Floats
pub mod Transport
pub mod Session
pub mod Sensors
pub mod FaultTransport
pub mod Bench
pub mod Hardware
pub mod Diagnostic
use navbench.Common.{
  ℕ, ◌+◌, ◌-◌, ◌/◌, ◌*◌, ◌%◌, ◌^◌, ◌≤◌, ◌<◌, ◌≡◌, ◌≢◌, refl, true, false, Option, none, some, List,
  [], ◌∷◌, ◌++◌, All, length, arith,
}
use navbench.Protocol.Error.{ok, err, crc_mismatch}
use navbench.Protocol.Value.{int, uint}
use navbench.Protocol.Enums.{
  MessageType, message_type, message_code, message_of, decode_enum, role_of, role_code,
}
use navbench.Protocol.Struct.{pack, unpack}
use navbench.Protocol.Struct.Laws.{IsByte, blank}
use navbench.Protocol.Crc.{crc16_ccitt}
use navbench.Protocol.Cobs.{cobs_encode, cobs_decode, cobs_decode_loop}
use navbench.Protocol.Cobs.Blocks.{blocks, cobs_encode-blocks}
use navbench.Protocol.Cobs.Shape.{NoZero, length-cobs_encode, cobs_encode-NoZero}
use navbench.Protocol.Cobs.RoundTrip.{cobs_decode-cobs_encode}
use navbench.Protocol.Cobs.Canonical.{cobs_encode-cobs_decode, cobs_decode_loop_total}
use navbench.Protocol.Packet.{Packet, encode_packet, decode_packet, strip_delimiter}
use navbench.Protocol.Packet.Shape.{encode_packet-framed}
use navbench.Protocol.Packet.RoundTrip.{decode_packet-encode_packet}
use navbench.Protocol.Packet.Canonical.{encode_packet-decode_packet}
use navbench.Protocol.Sequence.{
  SequenceTracker, zero_stats, SequenceResult, in_order, out_of_order, stale, observe, uint_or_none,
  observe_from, step_is_older,
}
use navbench.Protocol.Sequence.Laws.{observations}
use navbench.Protocol.Sequence.Runs.{
  observe_classifies, classify, Accounts, observe_all, run-Accounts, observations-observe_all,
}
use navbench.Protocol.Stream.{StreamParser, ParseBatch, new_parser, feed}
use navbench.Protocol.Stream.Laws.{IsBounded, feed-IsBounded}
use navbench.Protocol.Stream.Counters.{Fed, feed-Fed}
use navbench.Protocol.Stream.Fragments.{feed_both, feed-append}
use navbench.Protocol.Stream.Delivery.{
  AtStart, Frames, done, next, feed-Frames, feed_resynchronises,
}
use navbench.Protocol.Payload.Types.{HelloPayload, TypedPayload}
use navbench.Protocol.Payload.Encode.{hello_format, encode_typed_payload, encode_hello}
use navbench.Protocol.Payload.Decode.{decode_typed_payload, read_payload, decode_hello}
use navbench.Protocol.Payload.Fixed.{
  encode_typed_payload-decode_typed_payload, heartbeat_pad_ignored,
}
use Floats.{patterns}

abbrev packet : Packet
packet = record {
  message_type = MessageType.heartbeat;
  sequence = int 7;
  step_id = int 3;
  payload = 1 ∷ 0 ∷ 2 ∷ [];
}

abbrev body : List ℕ
body = 4 ∷ 1 ∷ 35 ∷ 3 ∷ 2 ∷ 7 ∷ 1 ∷ 1 ∷ 2 ∷ 3 ∷ 1 ∷ 1 ∷ 2 ∷ 1 ∷ 4 ∷ 2 ∷ 187 ∷ 217 ∷ []

packet_encodes : encode_packet packet ≡ ok (body ++ (0 ∷ []))
unfolding encode_packet message_type message_code message_of uint pack crc16_ccitt cobs_encode
packet_encodes = refl

-- One bit of the checksum changed.
damaged :
    decode_packet (4 ∷ 1 ∷ 35 ∷ 3 ∷ 2 ∷ 7 ∷ 1 ∷ 1 ∷ 2 ∷ 3 ∷ 1 ∷ 1 ∷ 2 ∷ 1 ∷ 4 ∷ 2 ∷ 187 ∷ 216 ∷ [])
    ≡ err crc_mismatch
unfolding decode_packet unpack crc16_ccitt cobs_decode
damaged = refl

decode_packet-encode_packet_example : decode_packet (body ++ (0 ∷ [])) ≡ ok packet
decode_packet-encode_packet_example =
    decode_packet-encode_packet packet (body ++ (0 ∷ [])) packet_encodes

body_decodes : decode_packet body ≡ ok packet
unfolding decode_packet unpack crc16_ccitt cobs_decode message_of
body_decodes = refl

encode_packet-decode_packet_example : encode_packet packet ≡ ok (strip_delimiter body ++ (0 ∷ []))
encode_packet-decode_packet_example =
    encode_packet-decode_packet body packet (omega arith) body_decodes

encode_packet-framed_example :
    (l : List ℕ) × (body ++ (0 ∷ []) ≡ l ++ (0 ∷ []))
    × NoZero l
    × All IsByte l
    × (19 ≡ 3 + 16)
    × (19 ≤ 144)
encode_packet-framed_example =
    encode_packet-framed packet (body ++ (0 ∷ [])) (omega arith) packet_encodes

one_frame : Frames (packet ∷ []) ((body ++ (0 ∷ [])) ++ [])
one_frame = next (omega arith) packet_encodes done

feed-Frames_example :
    ((feed new_parser ((body ++ (0 ∷ [])) ++ [])).1 ≡ record { packets = packet ∷ []; errors = [] })
    × AtStart (feed new_parser ((body ++ (0 ∷ [])) ++ [])).0
feed-Frames_example = feed-Frames new_parser (refl, refl) one_frame

abbrev noise : List ℕ
noise = 9 ∷ 8 ∷ 7 ∷ []

feed_resynchronises_example :
    (feed new_parser ((noise ++ (0 ∷ [])) ++ ((body ++ (0 ∷ [])) ++ []))).1 ≡ record {
      packets = (feed new_parser (noise ++ (0 ∷ []))).1.packets ++ (packet ∷ []);
      errors = (feed new_parser (noise ++ (0 ∷ []))).1.errors;
    }
feed_resynchronises_example = feed_resynchronises new_parser noise one_frame

feed-append_example : feed new_parser (noise ++ body) ≡ feed_both new_parser noise body
feed-append_example = feed-append new_parser noise body

feed-Fed_example : Fed new_parser (feed new_parser noise).0 (feed new_parser noise).1 noise
feed-Fed_example = feed-Fed new_parser noise

feed-IsBounded_example : IsBounded (feed new_parser noise).0
feed-IsBounded_example =
    feed-IsBounded new_parser noise (record { short = omega arith; discarding = λ e. refl })

cobs_decode-cobs_encode_example : cobs_decode (cobs_encode (0 ∷ 5 ∷ 0 ∷ [])) ≡ ok (0 ∷ 5 ∷ 0 ∷ [])
cobs_decode-cobs_encode_example = cobs_decode-cobs_encode (0 ∷ 5 ∷ 0 ∷ [])

cobs_encode-cobs_decode_example : cobs_encode (0 ∷ 5 ∷ 0 ∷ []) ≡ 1 ∷ 2 ∷ 5 ∷ 1 ∷ []
unfolding cobs_decode
cobs_encode-cobs_decode_example =
    cobs_encode-cobs_decode (1 ∷ 2 ∷ 5 ∷ 1 ∷ []) (0 ∷ 5 ∷ 0 ∷ []) (omega arith) (omega arith) refl

-- A tracker that has accepted the largest word: the next number wraps to 0.
abbrev tracker : SequenceTracker
tracker = record {
  reorder_window = 32;
  stats = zero_stats;
  last_sequence = some (2 ^ 32 - 1);
  last_step_id = none;
}

wraps :
    (t : SequenceTracker × SequenceResult) × (observe tracker (int ((2 ^ 32 - 1 + 1) % 2 ^ 32)) none
      ≡ ok t)
unfolding observe uint
wraps = (observe_from tracker (some (2 ^ 32 - 1)) 0 none, refl)

observe_classifies_example : wraps.0.1.disposition ≡ in_order
unfolding step_is_older
observe_classifies_example =
    observe_classifies tracker (2 ^ 32 - 1) 1 none none wraps.0.0 wraps.0.1 refl (omega arith)
      (omega arith) (unfold uint_or_none in refl) wraps.1

abbrev fresh : SequenceTracker
fresh = record {
  reorder_window = 32;
  stats = zero_stats;
  last_sequence = none;
  last_step_id = none;
}

run-Accounts_example : Accounts 5 (observe_all fresh ((5, none) ∷ (9, none) ∷ (7, some 1) ∷ []))
run-Accounts_example =
    run-Accounts fresh 5 none ((9, none) ∷ (7, some 1) ∷ []) refl refl (omega arith) (omega arith)

abbrev hello_bytes : List ℕ
hello_bytes = 2 ∷ 1 ∷ 1 ∷ 0 ∷ 31 ∷ 0 ∷ 0 ∷ 0 ∷ 128 ∷ 0 ∷ 244 ∷ 1 ∷ []

abbrev hello_value : TypedPayload ℕ
hello_value = TypedPayload.hello (record {
  role = navbench.Protocol.Enums.EndpointRole.controller;
  min_version = int 1;
  max_version = int 1;
  capabilities = int 31;
  max_payload = int 128;
  heartbeat_timeout_ms = int 500;
})

hello_decodes : decode_typed_payload patterns MessageType.hello hello_bytes ≡ ok hello_value
unfolding decode_typed_payload read_payload encode_typed_payload encode_hello decode_hello
    decode_enum role_of unpack
hello_decodes = refl

encode_typed_payload-decode_typed_payload_example :
    encode_typed_payload patterns MessageType.hello hello_value
    ≡ ok (blank hello_format hello_bytes)
encode_typed_payload-decode_typed_payload_example =
    encode_typed_payload-decode_typed_payload patterns MessageType.hello hello_format hello_bytes
      hello_value refl (omega arith) hello_decodes

heartbeat_pad_ignored_example :
    decode_typed_payload patterns MessageType.heartbeat
      (1 ∷ 0 ∷ 0 ∷ 0 ∷ 2 ∷ 0 ∷ 0 ∷ 0 ∷ 3 ∷ 7 ∷ 7 ∷ 7 ∷ [])
    ≡ decode_typed_payload patterns MessageType.heartbeat
        (1 ∷ 0 ∷ 0 ∷ 0 ∷ 2 ∷ 0 ∷ 0 ∷ 0 ∷ 3 ∷ 0 ∷ 0 ∷ 0 ∷ [])
heartbeat_pad_ignored_example = heartbeat_pad_ignored patterns 1 0 0 0 2 0 0 0 3 7 7 7
