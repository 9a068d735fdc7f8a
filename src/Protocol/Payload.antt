-- ===== src/Protocol/Payload.antt =====
-- The typed payloads of host/src/navbench/protocol.py.
pub mod Types
pub mod Encode
pub mod Decode
pub mod Canonical
pub mod Floats
pub mod Fixed
