-- ===== src/Transport/Memory/Link.antt =====
-- The two endpoints that `InMemoryEndpoint.pair` of host/src/navbench/transport.py makes, under
-- any calls on them. Each endpoint is kept with what its queue was given and what was read from
-- it. A call that raises changes nothing.
use navbench.Common.{
  ℕ, ◌≡◌, refl, sym, ap, ◌∙◌, inl, inr, true, Option, none, some, List, [], ◌∷◌, ◌++◌, append-nil,
  append_assoc, Bool-cases,
}
use navbench.Transport.Memory.{
  Outcome, returned, raised, Endpoint, bad_limit, new_endpoint, push, write, inject, read, close,
}
use navbench.Transport.Memory.Pending.{joined, joined-push, read-cases, write-cases, inject-cases}

pub record Port : Type 0 where
  pub endpoint : Endpoint
  pub accepted : List ℕ
  pub received : List ℕ

pub record Link : Type 0 where
  pub first : Port
  pub second : Port

pub data Side : Type 0 where
  on_first on_second : Side

pub data Call : Type 0 where
  call_write call_inject : List ℕ → Call
  call_read : ℕ → Call
  call_close : Call

abbrev pub new_port : Endpoint → Port
new_port e = record { endpoint = e; accepted = []; received = [] }

-- The exception of the first endpoint comes first.
abbrev pair_ends : Outcome Endpoint → Outcome Endpoint → Outcome Link
pair_ends (raised failure) second = raised failure
pair_ends (returned first) (raised failure) = raised failure
pair_ends (returned first) (returned second) =
    returned (record { first = new_port first; second = new_port second })

unfoldable pub pair : Option ℕ → Option ℕ → Outcome Link
pair first_limit second_limit = pair_ends (new_endpoint first_limit) (new_endpoint second_limit)

abbrev accept : Port → List ℕ → Endpoint → Port
accept port string e = record {
  endpoint = e;
  accepted = port.accepted ++ string;
  received = port.received;
}

abbrev after_write : Port → List ℕ → Outcome (ℕ × Option Endpoint) → Port
after_write port string (returned (n, some peer)) = accept port string peer
after_write port string (returned (n, none)) = port
after_write port string (raised failure) = port

abbrev after_inject : Port → List ℕ → Outcome Endpoint → Port
after_inject port string (returned e) = accept port string e
after_inject port string (raised failure) = port

abbrev after_port_read : Port → Outcome (List ℕ × Endpoint) → Port
after_port_read port (returned (output, e)) = record {
  endpoint = e;
  accepted = port.accepted;
  received = port.received ++ output;
}
after_port_read port (raised failure) = port

-- The ports of the endpoint that is called, and of its peer, after the call.
unfoldable pub port_step : Call → Port → Port → Port × Port
port_step (call_write string) port peer =
    (port, after_write peer string (write string port.endpoint (some peer.endpoint)))
port_step (call_inject string) port peer =
    (after_inject port string (inject string port.endpoint), peer)
port_step (call_read max_bytes) port peer =
    (after_port_read port (read max_bytes port.endpoint), peer)
port_step call_close port peer = (
  record { endpoint = close port.endpoint; accepted = port.accepted; received = port.received },
  peer,
)

unfoldable pub link_step : Side → Call → Link → Link
link_step on_first call link =
    let (port, peer) = port_step call link.first link.second in
    record { first = port; second = peer }
link_step on_second call link =
    let (port, peer) = port_step call link.second link.first in
    record { first = peer; second = port }

unfoldable pub run_link : List (Side × Call) → Link → Link
run_link [] link = link
run_link ((side, call) ∷ calls) link = run_link calls (link_step side call link)

abbrev chunks_of : Outcome Endpoint → List (List ℕ)
chunks_of (returned e) = e.chunks
chunks_of (raised failure) = []

abbrev link_of : Link → Outcome Link → Link
link_of other (returned link) = link
link_of other (raised failure) = other

-- What an endpoint was given is what was read from it, then what it still holds, then what was
-- thrown away, which is nothing as long as it is open.
pub IsFifo : Port → Type 0
IsFifo port =
    (lost : List ℕ) × (port.accepted ≡ port.received ++ (joined port.endpoint.chunks ++ lost))
    × (port.endpoint.is_open ≡ true → lost ≡ [])

pub IsFifoLink : Link → Type 0
IsFifoLink link = IsFifo link.first × IsFifo link.second

fifo_given :
    (received pending accepted string lost pending' : List ℕ)
    → accepted ≡ received ++ (pending ++ lost)
    → lost ≡ []
    → pending' ≡ pending ++ string
    → accepted ++ string ≡ received ++ (pending' ++ [])
fifo_given received pending accepted string lost pending' kept nothing grown =
    simp (kept, nothing, grown, append-nil, append_assoc)

fifo_taken :
    (received pending accepted output lost pending' : List ℕ)
    → accepted ≡ received ++ (pending ++ lost)
    → pending ≡ output ++ pending'
    → accepted ≡ (received ++ output) ++ (pending' ++ lost)
fifo_taken received pending accepted output lost pending' kept taken =
    simp (kept, taken, append_assoc)

accept-IsFifo :
    (port : Port) (string : List ℕ)
    → port.endpoint.is_open ≡ true
    → IsFifo port
    → IsFifo (accept port string (push port.endpoint string))
unfolding IsFifo
accept-IsFifo port string opened (lost, kept, nothing) = (
  [],
  fifo_given _ _ _ string lost _ kept (nothing opened) (joined-push port.endpoint string),
  λ _. refl,
)

accept_nothing :
    (port : Port) (string : List ℕ)
    → string ≡ []
    → IsFifo port
    → IsFifo (accept port string port.endpoint)
unfolding IsFifo
accept_nothing port string empty (lost, kept, nothing) =
    (lost, ap (λ l. port.accepted ++ l) empty ∙ append-nil port.accepted ∙ kept, nothing)

after_write-IsFifo :
    (string : List ℕ) (e : Endpoint) (port : Port)
    → IsFifo port
    → IsFifo (after_write port string (write string e (some port.endpoint)))
after_write-IsFifo string e port fifo = elim (write-cases string e port.endpoint) [
  | inl (failure, r) ↦ simp r fifo
  | inr (inl (nothing, r)) ↦ simp r (accept_nothing port string nothing fifo)
  | inr (inr (opened, r)) ↦ simp r (accept-IsFifo port string opened fifo)
]

after_inject-IsFifo :
    (string : List ℕ) (port : Port)
    → IsFifo port
    → IsFifo (after_inject port string (inject string port.endpoint))
after_inject-IsFifo string port fifo = elim (inject-cases string port.endpoint) [
  | inl (failure, r) ↦ simp r fifo
  | inr (inl (nothing, r)) ↦ simp r (accept_nothing port string nothing fifo)
  | inr (inr (opened, r)) ↦ simp r (accept-IsFifo port string opened fifo)
]

after_port_read-IsFifo :
    (max_bytes : ℕ) (port : Port)
    → IsFifo port
    → IsFifo (after_port_read port (read max_bytes port.endpoint))
after_port_read-IsFifo max_bytes port fifo = elim (read-cases max_bytes port.endpoint) [
  | inl (failure, r) ↦ simp r fifo
  | inr (opened, left, output, r, taken) ↦ simp r (
      unfold IsFifo in
      let (lost, kept, nothing) = fifo in
      (lost, fifo_taken _ _ _ output lost _ kept taken, nothing))
]

close-IsFifo :
    (port : Port)
    → IsFifo port
    → IsFifo (record {
      endpoint = close port.endpoint;
      accepted = port.accepted;
      received = port.received;
    })
unfolding close IsFifo
close-IsFifo port (lost, kept, nothing) = (joined port.endpoint.chunks ++ lost, kept, λ opened. cc)

port_step-IsFifo :
    (call : Call) (port peer : Port)
    → IsFifo port
    → IsFifo peer
    → IsFifo ((port_step call port peer).0) × IsFifo ((port_step call port peer).1)
unfolding port_step
port_step-IsFifo (call_write string) port peer p q =
    (p, after_write-IsFifo string port.endpoint peer q)
port_step-IsFifo (call_inject string) port peer p q = (after_inject-IsFifo string port p, q)
port_step-IsFifo (call_read max_bytes) port peer p q = (after_port_read-IsFifo max_bytes port p, q)
port_step-IsFifo call_close port peer p q = (close-IsFifo port p, q)

link_step-IsFifoLink :
    (side : Side) (call : Call) (link : Link)
    → IsFifoLink link
    → IsFifoLink (link_step side call link)
unfolding link_step IsFifoLink
link_step-IsFifoLink on_first call link (p, q) = port_step-IsFifo call link.first link.second p q
link_step-IsFifoLink on_second call link (p, q) =
    let both = port_step-IsFifo call link.second link.first q p in (both.1, both.0)

run_link-IsFifoLink :
    (calls : List (Side × Call)) (link : Link) → IsFifoLink link → IsFifoLink (run_link calls link)
unfolding run_link
run_link-IsFifoLink [] link h = h
run_link-IsFifoLink ((side, call) ∷ calls) link h =
    run_link-IsFifoLink calls (link_step side call link) (link_step-IsFifoLink side call link h)

new_endpoint-chunks :
    (read_limit : Option ℕ) (e : Endpoint) → new_endpoint read_limit ≡ returned e → e.chunks ≡ []
unfolding new_endpoint
new_endpoint-chunks read_limit e h = elim (Bool-cases (bad_limit read_limit)) [
  | inl bad ↦ absurd (let g = rw bad at h in cc)
  | inr good ↦ let g = rw good at h in ap chunks_of (sym g)
]

new_port-IsFifo :
    (read_limit : Option ℕ) (e : Endpoint)
    → new_endpoint read_limit ≡ returned e
    → IsFifo (new_port e)
unfolding IsFifo
new_port-IsFifo read_limit e h = ([], simp (new_endpoint-chunks read_limit e h), λ _. refl)

pair_ends-IsFifoLink :
    (first second : Outcome Endpoint) (link : Link)
    → ((e : Endpoint) → first ≡ returned e → IsFifo (new_port e))
    → ((e : Endpoint) → second ≡ returned e → IsFifo (new_port e))
    → pair_ends first second ≡ returned link
    → IsFifoLink link
unfolding IsFifoLink
pair_ends-IsFifoLink (raised failure) second link p q h = absurd cc
pair_ends-IsFifoLink (returned first) (raised failure) link p q h = absurd cc
pair_ends-IsFifoLink (returned first) (returned second) link p q h =
    rw⁻¹ (ap (link_of link) h) (p first refl, q second refl)

-- The in-memory link is a queue in each direction: after any calls on the two endpoints that
-- `pair` makes, those that raise included, what an endpoint was given is what was read from it,
-- in order, followed by what it still holds; only an endpoint that was closed has lost the rest.
pub run_link-pair :
    (first_limit second_limit : Option ℕ) (link : Link) (calls : List (Side × Call))
    → pair first_limit second_limit ≡ returned link
    → IsFifoLink (run_link calls link)
unfolding pair
run_link-pair first_limit second_limit link calls h = run_link-IsFifoLink calls link (
    pair_ends-IsFifoLink (new_endpoint first_limit) (new_endpoint second_limit) link
      (new_port-IsFifo first_limit) (new_port-IsFifo second_limit) h)
