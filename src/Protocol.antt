-- ===== src/Protocol.antt =====
-- host/src/navbench/protocol.py, one module for each of its parts.
pub mod Error
pub mod Cobs
pub mod Struct
pub mod Crc
pub mod Value
pub mod Enums
pub mod Packet
pub mod Sequence
pub mod Stream
pub mod Payload
