-- ===== src/Tests/Transport.antt =====
-- Runs of the in-memory link and of the frame cutter of host/src/navbench/transport.py.
use navbench.Common.{false, ℕ, ◌≡◌, refl, none, some, List, [], ◌∷◌, true, arith}
use navbench.Transport.Memory.{
  returned, Endpoint, with_chunks, new_endpoint, read, read_loop, write, close,
}
use navbench.Transport.Memory.Pending.{joined, read-joined}
use navbench.Transport.Memory.Link.{
  Link, Side, on_first, on_second, Call, call_write, call_read, call_close, pair, link_step,
  port_step, run_link, IsFifoLink, run_link-pair, new_port,
}
use navbench.Transport.Frames.{
  Cut, find_zero, take_loop, take_complete_frames, take_complete_frames-append,
  take_complete_frames-Cut,
}
use navbench.Transport.Fault.{LinkFaultStats, Direction, corrupt, apply_fault, apply_rx_fault}

abbrev queue : Endpoint
queue = record { chunks = (1 ∷ 2 ∷ []) ∷ (3 ∷ 4 ∷ []) ∷ []; is_open = true; read_limit = some 3 }

read-joined_example :
    (left : List (List ℕ)) × (read 512 queue ≡ returned (1 ∷ 2 ∷ 3 ∷ [], with_chunks queue left))
    × (joined left ≡ 4 ∷ [])
read-joined_example = read-joined 512 queue refl (omega arith)

abbrev fresh : Link
fresh = record {
  first = new_port (record { chunks = []; is_open = true; read_limit = none });
  second = new_port (record { chunks = []; is_open = true; read_limit = some 2 });
}

pair-fresh : pair none (some 2) ≡ returned fresh
unfolding pair new_endpoint
pair-fresh = refl

abbrev calls : List (Side × Call)
calls =
    (on_first, call_write (1 ∷ 2 ∷ 3 ∷ []))
    ∷ (on_second, call_read 512)
    ∷ (on_second, call_read 0)
    ∷ (on_second, call_close)
    ∷ (on_first, call_write (4 ∷ []))
    ∷ []

run_link_lem : (run_link calls fresh).second.received ≡ 1 ∷ 2 ∷ []
unfolding run_link link_step port_step write read read_loop close
run_link_lem = refl

run_link-pair_example : IsFifoLink (run_link calls fresh)
run_link-pair_example = run_link-pair none (some 2) fresh calls pair-fresh

-- A frame in two pieces.
take_first : take_complete_frames (1 ∷ 0 ∷ 2 ∷ []) ≡ some ((1 ∷ 0 ∷ []) ∷ [], 2 ∷ [])
unfolding take_complete_frames take_loop find_zero
take_first = refl

take_second :
    take_complete_frames (2 ∷ 0 ∷ 0 ∷ 3 ∷ []) ≡ some ((2 ∷ 0 ∷ []) ∷ (0 ∷ []) ∷ [], 3 ∷ [])
unfolding take_complete_frames take_loop find_zero
take_second = refl

take_complete_frames-append_example :
    take_complete_frames (1 ∷ 0 ∷ 2 ∷ 0 ∷ 0 ∷ 3 ∷ [])
    ≡ some ((1 ∷ 0 ∷ []) ∷ (2 ∷ 0 ∷ []) ∷ (0 ∷ []) ∷ [], 3 ∷ [])
take_complete_frames-append_example =
    take_complete_frames-append (1 ∷ 0 ∷ 2 ∷ []) (0 ∷ 0 ∷ 3 ∷ []) (2 ∷ []) (3 ∷ [])
      ((1 ∷ 0 ∷ []) ∷ []) ((2 ∷ 0 ∷ []) ∷ (0 ∷ []) ∷ []) take_first take_second

take_complete_frames-Cut_example :
    (frames : List (List ℕ)) × (rest : List ℕ) × (take_complete_frames (1 ∷ 0 ∷ 2 ∷ [])
      ≡ some (frames, rest))
    × Cut (1 ∷ 0 ∷ 2 ∷ []) frames rest
take_complete_frames-Cut_example = take_complete_frames-Cut (1 ∷ 0 ∷ 2 ∷ [])

abbrev stats : LinkFaultStats
stats = record {
  frames_forwarded = 0;
  frames_dropped = 0;
  frames_corrupted = 0;
  frames_delayed = 0;
  stale_frames_replayed = 0;
  disconnect_drops = 0;
}

abbrev slow_link : Direction
slow_link = record {
  state = record {
    packet_loss = false;
    packet_corruption = true;
    delay_steps = 2;
    stale_frame = false;
    disconnected = false;
  };
  stats = stats;
  delayed = [];
  previous_frame = none;
}

slow_link_lem :
    (apply_rx_fault 3 (7 ∷ 7 ∷ 7 ∷ 0 ∷ []) (slow_link, [])).0.delayed ≡ (5, 7 ∷ 7 ∷ 6 ∷ 0 ∷ []) ∷ []
unfolding apply_rx_fault apply_fault corrupt
slow_link_lem = refl
