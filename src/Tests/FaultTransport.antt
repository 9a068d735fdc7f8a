-- ===== src/Tests/FaultTransport.antt =====
-- `DeterministicFaultTransport` of host/src/navbench/transport.py on concrete data.
use navbench.Common.{ℕ, ◌≡◌, refl, none, List, [], ◌∷◌, ◌++◌, length, arith}
use navbench.Transport.Interface.{ByteTransport, wrote, ReadResult, received}
use navbench.Transport.Fault.{release_due_rx, release_loop, apply_rx_fault, apply_fault, forward_rx}
use navbench.Transport.Frames.{take_complete_frames, take_loop, find_zero}
use navbench.Session.Run.{done}
use navbench.Transport.FaultTransport.{
  release_due_tx, release_tx_loop, forward_tx, forward_loop, fill_loop, receive_frames, healthy,
  FaultTransport, new_fault_transport, configure, write_bytes, read_bytes,
}
use navbench.Transport.FaultTransport.Forward.{IsHonest}
use navbench.Transport.FaultTransport.Healthy.{PassesOn, write_bytes-PassesOn}
use navbench.Transport.FaultTransport.Release.{ReleasedBoth, configure-Released}
use navbench.Transport.FaultTransport.Reading.{IsFinite, ReadsOn, read_bytes-ReadsOn}

-- What was written, and what is still to be read.
abbrev Pipe : Type 0
Pipe = List ℕ × List ℕ

abbrev pipe_read : Pipe → ℕ → Pipe × ReadResult
pipe_read (taken, []) max_bytes = ((taken, []), received [])
pipe_read (taken, byte ∷ bytes) max_bytes = ((taken, bytes), received (byte ∷ []))

abbrev pipe : ByteTransport
pipe = record {
  Transport = Pipe;
  write = λ t bytes. ((t.0 ++ bytes, t.1), wrote (length bytes));
  read = pipe_read;
  close = λ t. t;
}

pipe-IsHonest : IsHonest pipe
pipe-IsHonest t u bytes n e = let same : length bytes ≡ n = cc in omega (arith, same)

abbrev bytes_left : Pipe → ℕ
bytes_left t = length (t.1)

pipe-IsFinite : IsFinite pipe bytes_left
pipe-IsFinite (taken, []) u max_bytes byte bytes e = absurd cc
pipe-IsFinite (taken, first ∷ rest) u max_bytes byte bytes e =
    let same : rest ≡ u.1 = cc in rw⁻¹ same (omega arith)

abbrev link : FaultTransport Pipe
link = new_fault_transport ([], 5 ∷ 0 ∷ 6 ∷ [])

write_bytes-PassesOn_example :
    PassesOn pipe pipe-IsHonest (7 ∷ 0 ∷ 8 ∷ []) link (write_bytes pipe (7 ∷ 0 ∷ 8 ∷ []) link)
write_bytes-PassesOn_example = write_bytes-PassesOn pipe pipe-IsHonest (7 ∷ 0 ∷ 8 ∷ []) link refl

read_bytes-ReadsOn_example : ReadsOn pipe 512 link (read_bytes pipe 9 512 link)
read_bytes-ReadsOn_example =
    read_bytes-ReadsOn pipe bytes_left 9 512 link pipe-IsFinite (omega arith) refl refl
      (omega arith)

-- Two frames that were delayed, one of which is due at step 4.
abbrev slow_link : FaultTransport Pipe
slow_link = record link { tx = record link.tx { delayed = (4, 1 ∷ 0 ∷ []) ∷ (6, 2 ∷ 0 ∷ []) ∷ [] } }

slow_link_lem : (configure pipe 4 healthy none slow_link).0.tx.delayed ≡ (6, 2 ∷ 0 ∷ []) ∷ []
unfolding configure release_due_tx release_tx_loop forward_tx forward_loop release_due_rx
    release_loop
slow_link_lem = refl

slow_link_taken : (configure pipe 4 healthy none slow_link).0.inner.0 ≡ 1 ∷ 0 ∷ []
unfolding configure release_due_tx release_tx_loop forward_tx forward_loop release_due_rx
    release_loop
slow_link_taken = refl

-- The first byte read is not ready before its delimiter.
link_read : (read_bytes pipe 9 512 link).1 ≡ done (5 ∷ 0 ∷ [])
unfolding read_bytes fill_loop release_due_rx release_loop receive_frames apply_rx_fault apply_fault
    forward_rx take_complete_frames take_loop find_zero
link_read = refl

configure-Released_example :
    ReleasedBoth pipe pipe-IsHonest 4 slow_link (configure pipe 4 healthy none slow_link)
configure-Released_example =
    configure-Released pipe pipe-IsHonest 4 healthy none slow_link (omega arith)
