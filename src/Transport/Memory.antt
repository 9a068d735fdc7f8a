-- ===== src/Transport/Memory.antt =====
-- `InMemoryEndpoint` of host/src/navbench/transport.py: one end of an in-memory byte link. A
-- call returns its value and the endpoint it changed, or the exception it raised. A byte string
-- is typed here, so the `isinstance` tests are left out, and a read limit or a `max_bytes` that
-- is negative stands with zero, which the code refuses in the same way.
use navbench.Common.{
  ℕ, zero, suc, ◌+◌, ◌-◌, min, ltb, ◌==◌, if◌then◌else◌, Bool, true, false, not, Option, none, some,
  List, [], ◌∷◌, ◌++◌, length, take, drop,
}
pub mod Pending
pub mod Link

pub data TransportFailure : Type 0 where
  is_closed peer_disconnected bad_value out_of_fuel : TransportFailure

pub data Outcome {ℓ} (A : Type ℓ) : Type ℓ where
  returned : A → Outcome A
  raised : TransportFailure → Outcome A

pub record Endpoint : Type 0 where
  pub chunks : List (List ℕ)
  pub is_open : Bool
  pub read_limit : Option ℕ

-- The constructor and `pair` refuse a read limit of zero.
abbrev bad_limit : Option ℕ → Bool
bad_limit none = false
bad_limit (some limit) = limit == 0

unfoldable pub new_endpoint : Option ℕ → Outcome Endpoint
new_endpoint read_limit =
    if bad_limit read_limit
    then raised bad_value
    else returned (record { chunks = []; is_open = true; read_limit = read_limit })

unfoldable pub pending_bytes : List (List ℕ) → ℕ
pending_bytes [] = 0
pending_bytes (chunk ∷ chunks) = length chunk + pending_bytes chunks

abbrev pub with_chunks : Endpoint → List (List ℕ) → Endpoint
with_chunks e chunks = record { chunks = chunks; is_open = e.is_open; read_limit = e.read_limit }

-- A string becomes a chunk of its own.
abbrev pub push : Endpoint → List ℕ → Endpoint
push e string = with_chunks e (e.chunks ++ (string ∷ []))

unfoldable pub inject : List ℕ → Endpoint → Outcome Endpoint
inject string e =
    if not e.is_open
    then raised is_closed
    else elim string [ [] ↦ returned e | byte ∷ rest ↦ returned (push e (byte ∷ rest)) ]

-- The end of `write`: `string` is not empty, and goes to the peer, if there is one and it is open.
abbrev pub write_to : Option Endpoint → List ℕ → Outcome (ℕ × Option Endpoint)
write_to none string = raised peer_disconnected
write_to (some peer) string =
    if not peer.is_open
    then raised peer_disconnected
    else returned (length string, some (push peer string))

-- The number of bytes written, and the peer behind it. The writing end itself is not changed.
unfoldable pub write : List ℕ → Endpoint → Option Endpoint → Outcome (ℕ × Option Endpoint)
write string e peer =
    if not e.is_open
    then raised is_closed
    else elim string [ [] ↦ returned (0, peer) | byte ∷ rest ↦ write_to peer (byte ∷ rest) ]

abbrev pub limit_of : ℕ → Option ℕ → ℕ
limit_of max_bytes none = max_bytes
limit_of max_bytes (some limit) = min max_bytes limit

-- What is left of the first chunk goes back to the front, unless nothing is left.
abbrev pub put_back : List ℕ → List (List ℕ) → List (List ℕ)
put_back [] chunks = chunks
put_back (byte ∷ chunk) chunks = (byte ∷ chunk) ∷ chunks

-- The loop of `read` over the output so far. Each round empties a chunk or fills the output, so
-- that one round more than there are chunks is enough fuel.
unfoldable pub read_loop :
    ℕ → (limit : ℕ) → List ℕ → List (List ℕ) → Outcome (List ℕ × List (List ℕ))
read_loop zero limit output chunks = raised out_of_fuel
read_loop (suc fuel) limit output [] = returned (output, [])
read_loop (suc fuel) limit output (chunk ∷ chunks) =
    let n = min (limit - length output) (length chunk) in
    let rest = read_loop fuel limit (output ++ take n chunk) (put_back (drop n chunk) chunks) in
    if ltb (length output) limit then rest else returned (output, chunk ∷ chunks)

abbrev pub after_read : Endpoint → Outcome (List ℕ × List (List ℕ)) → Outcome (List ℕ × Endpoint)
after_read e (returned (output, chunks)) = returned (output, with_chunks e chunks)
after_read e (raised failure) = raised failure

-- The early return on an empty queue is the first round of the loop.
abbrev pub read_chunks : ℕ → Endpoint → Outcome (List ℕ × Endpoint)
read_chunks max_bytes e =
    let limit = limit_of max_bytes e.read_limit in
    after_read e (read_loop (suc (length e.chunks)) limit [] e.chunks)

unfoldable pub read : ℕ → Endpoint → Outcome (List ℕ × Endpoint)
read max_bytes e =
    if not e.is_open
    then raised is_closed
    else if max_bytes == 0
    then raised bad_value
    else read_chunks max_bytes e

unfoldable pub close : Endpoint → Endpoint
close e = record { chunks = []; is_open = false; read_limit = e.read_limit }
