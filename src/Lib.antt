-- ===== src/Lib.antt =====
-- Verification of the host side of NavBench's Protocol v1 (host/src/navbench/protocol.py),
-- of the in-memory link and the link faults of host/src/navbench/transport.py, of the host's session
-- (host/src/navbench/session.py), and of the order in which sensor measurements are delivered and
-- replayed (host/src/navbench/sensors.py and runlog.py), and of the validation of a controller
-- over its session (host/src/navbench/hardware.py).
--
-- The parts and where they are modelled:
--   Protocol/Error     ProtocolErrorCode, and ProtocolError as a result type
--   Protocol/Cobs      cobs_encode and cobs_decode; proofs in Blocks, Shape, RoundTrip, Canonical
--   Protocol/Struct    the little-endian formats of Python's struct that the codec uses
--   Protocol/Crc       crc16_ccitt
--   Protocol/Value     _uint, _finite and _mask on the scalars that reach the codec
--   Protocol/Enums     the enumerations with their wire values, _decode_enum and _message_type
--   Protocol/Packet    encode_packet and decode_packet; proofs in Shape, RoundTrip, Canonical
--   Protocol/Payload   the ten payloads (Types), encode_typed_payload (Encode),
--                      decode_typed_payload, make_packet and decode_packet_payload (Decode);
--                      proofs in Canonical, Floats, Fixed
--   Protocol/Stream    StreamParser; proofs in Laws, Counters, Fragments, Delivery
--   Protocol/Sequence  SequenceTracker; proofs in Laws, Runs
--   Transport/Memory   InMemoryEndpoint; proofs in Pending, and Link for the pair of endpoints
--   Transport/Fault    the faults of DeterministicFaultTransport on one complete frame, and the
--                      release of delayed frames on the read side; proofs in Fates
--   Transport/FaultTransport  the calls of DeterministicFaultTransport on the transport that it
--                      wraps; proofs in Forward, Healthy, Release, Reading
--   Transport/Writes   what a ByteTransport takes in some calls; every write counts with what it
--                      took, and as nothing only if it raised, returned an impossible number or 0
--   Transport/Frames   DeterministicFaultTransport._take_complete_frames
--   Transport/Interface  ByteTransport, the link that a session is given
--   Session/Run        methods that may raise: a new state, and an answer or an exception
--   Session/Types      SessionConfig, SessionStats, SessionEvent and the fields of HostSession
--   Session/Send       _validate_now, _flush_tx, _send and _require_active
--   Session/Calls      start, reconnect, send_sensor, send_heartbeat, request_safe_stop and close
--   Session/Route      send_route; proofs in Routed
--   Session/Poll       poll, _handle_session_packet, _current_timeout_ms and _minimum_peer_payload
--   Session/Reach      any calls of a session's methods, one after the other
--   Session            proofs in Flush, Invariant, Keeps, KeepsPoll, SoundSteps,
--                      Soundness, Stopped, Order, Refusal, Silence, Hello, Handshake, Chunks,
--                      Ends, Pace
--   Sensors            the queue of SensorPipeline (host/src/navbench/sensors.py); proofs in Delivery
--   Replay             RunReplay.measurement_batches (host/src/navbench/runlog.py); proofs in
--                      Grouping
--   Hardware/Types     the results of host/src/navbench/hardware.py, its constants, and Bench: a
--                      transport with the clock and the sleeper that stand beside it
--   Hardware/Responses _ResponseAccumulator, _normal_exchange_error and _safe_stop_evidence;
--                      proofs in Window
--   Hardware/Opening, Frames, Validate  validate_transport: the handshake, the exchange of sensor
--                      frames, the watchdog's check and the result
--   Hardware/Diagnostic  _DiagnosticStatus and _poll_diagnostic; proofs in Growth, Polls
--   Hardware/Report    _diagnostic_hello_error and _host_parser_error_snapshot
--   Hardware/Probe     _write_all and validate_serial_diagnostic; proofs in Written, Welcome,
--                      Diagnosed, Ends
--   Hardware/Port      run_physical_validation and run_serial_diagnostic; proofs in Closed
--   Hardware           proofs in Trace, Handshaking, Exchange, Answered, Watch, Verified, and in
--                      Pacing, Opens, Exchanges, Ends
--   Common             shared names: Boolean tests, lists over the native numbers
--   Tests              runs on concrete data
-- A packet is framed as COBS over header, payload and CRC, with a zero behind it; StreamParser
-- cuts a stream at zeros and hands each frame to decode_packet; SequenceTracker judges the
-- sequence numbers of the packets; decode_packet_payload decodes their payloads.
--
-- HostSession owns a parser and a tracker, encodes what it sends with make_packet and encode_packet
-- into its transmit buffer, and reads and writes through its transport. An exception leaves a
-- session as it is where it is raised, so that a call has a new state in any case.
--
-- Bytes are lists of numbers below 256. An integer argument is a Scalar: a number, a negative
-- number, a Boolean or another object, as _uint tells them apart. Enumeration-valued arguments
-- are members of their enumeration, and arguments that must be bytes are bytes: the isinstance
-- tests on these are settled by the types. `x & 0xFFFF` is the remainder modulo 2^16. A message of
-- a ProtocolError is not modelled, and a ParseFailure is its code.
-- Floats are the parameter Binary32: what the codec asks of a Python float, and how struct rounds
-- it to 32 bits. Its laws are those of IEEE 754 rounding; Tests/Floats has an instance.
-- The loop of cobs_decode runs on fuel, one round more than the frame has bytes; each round takes
-- a byte at least. The loop of InMemoryEndpoint.read has one round more than there are chunks; each
-- round empties a chunk or fills the output. The loop of _take_complete_frames has one round more
-- than the buffer has bytes; each round takes a frame. The loop of HostSession._flush_tx has one
-- round more than the buffer has bytes; each round that is not the last one writes a byte at least.
-- The loop of DeterministicFaultTransport._forward_tx has one round more than the frame has bytes;
-- that of its read has as many rounds as it is given, since the inner transport may have bytes
-- without end.
-- What stands behind a ByteTransport is a parameter: its state, and what its calls return or raise.
-- The numbers of a SessionConfig but required_capabilities, and those of a packet that was decoded,
-- are natural numbers; where the code refuses a number that is zero or negative, zero stands for
-- both. The flags of Capability and RouteFlag are their values, and a union of different flags is
-- the sum.
--
-- The heap of SensorPipeline is the list of its entries in the order in which heapq pops them. What
-- the sensors sample in a step is given: a reading, a delay in steps, and whether it is dropped;
-- the tests of step on the types of its arguments and on the time are not part of the model.
-- cil.py records what step and drain_pending return, in this order; measurement_batches reads the
-- recorded measurements as a list, and returns what it has yielded with how it ended.
--
-- validate_transport drives a HostSession over a Bench; validate_serial_diagnostic drives the
-- transport itself, with a parser and a status. What opens the port, and resets its input, is a
-- parameter of the two functions that open one; closing it does not raise. The clock and sleeper
-- act on the state that stands behind the transport, and do not raise; seconds are floats, a
-- parameter. Each of its loops has as many rounds as it is given, since a clock may stand still;
-- running out of them is an answer of its own, which is no result. What the loops ask of a clock
-- that runs is named in Hardware/Pacing and Probe/Ends. A result is its exit code and its phase.
-- The texts and summaries of results, the time at which a stop was observed among them, are left
-- out.
--
-- Not modelled: the texts of exceptions, the serial transport of transport.py, and the rest of the
-- host (plant, sensor noise, scenarios, the files of run logs, campaigns, metrics, plots), which is
-- floating point, files or processes, and the C++ firmware.
pub mod Common
pub mod Protocol
pub mod Transport
pub mod Session
pub mod Sensors
pub mod Replay
pub mod Hardware
pub mod Tests
