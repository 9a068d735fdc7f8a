-- ===== src/Transport/Interface.antt =====
-- `ByteTransport` of host/src/navbench/transport.py, the byte link that a session is given. What
-- stands behind it, a serial device for one, is a parameter: `Transport` is its state, and each
-- call returns the new state with the call's result.
use navbench.Common.{ℕ, List}

-- `write` returns a number, which the caller checks, or raises TransportError.
pub data WriteResult : Type 0 where
  wrote : ℕ → WriteResult
  wrote_negative : WriteResult
  write_failed : WriteResult

-- `read` returns bytes, none if there are none, or raises TransportError.
pub data ReadResult : Type 0 where
  received : List ℕ → ReadResult
  read_failed : ReadResult

pub record ByteTransport : Type 1 where
  pub Transport : Type 0
  pub write : Transport → List ℕ → Transport × WriteResult
  pub read : Transport → (max_bytes : ℕ) → Transport × ReadResult
  pub close : Transport → Transport
