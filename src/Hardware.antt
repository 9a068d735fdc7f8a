-- ===== src/Hardware.antt =====
-- The checks of a controller over a serial link, host/src/navbench/hardware.py.
pub mod Types
pub mod Responses
pub mod Opening
pub mod Frames
pub mod Validate
pub mod Trace
pub mod Handshaking
pub mod Exchange
pub mod Watch
pub mod Answered
pub mod Verified
pub mod Pacing
pub mod Opens
pub mod Exchanges
pub mod Ends
pub mod Diagnostic
pub mod Report
pub mod Probe
pub mod Port
