-- ===== src/Transport.antt =====
-- The byte transports of host/src/navbench/transport.py that run without a device.
pub mod Memory
pub mod Frames
pub mod Fault
pub mod Interface
pub mod Writes
pub mod FaultTransport
