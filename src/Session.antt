-- ===== src/Session.antt =====
-- The host's session, host/src/navbench/session.py.
pub mod Run
pub mod Types
pub mod Send
pub mod Calls
pub mod Route
pub mod Routed
pub mod Poll
pub mod Flush
pub mod Invariant
pub mod Keeps
pub mod KeepsPoll
pub mod SoundSteps
pub mod Soundness
pub mod Hello
pub mod Reach
pub mod Stopped
pub mod Order
pub mod Chunks
pub mod Refusal
pub mod Silence
pub mod Ends
pub mod Pace
pub mod Handshake
