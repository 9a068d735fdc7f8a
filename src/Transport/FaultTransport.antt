-- ===== src/Transport/FaultTransport.antt =====
-- `DeterministicFaultTransport` of host/src/navbench/transport.py: its calls on the transport that
-- it wraps, which is a parameter.
pub mod Forward
pub mod Healthy
pub mod Release
pub mod Reading
use navbench.Common.{
  ℕ, zero, suc, ◌+◌, true, false, Bool, Option, none, some, List, [], ◌∷◌, ◌++◌, length, take, drop,
  ltb, leb, ◌==◌, if◌then◌else◌,
}
use navbench.Protocol.Packet.{is_empty}
use navbench.Transport.Interface.{
  ByteTransport, WriteResult, wrote, wrote_negative, write_failed, ReadResult, received,
  read_failed,
}
use navbench.Transport.Fault.{
  LinkFaultState, LinkFaultStats, Direction, apply_fault, apply_rx_fault, release_due_rx,
}
use navbench.Transport.Frames.{take_complete_frames}
use navbench.Session.Run.{
  transport_error, value_error, out_of_fuel, Answer, done, failed, Run, ◌>>=◌, ◌>>◌, pure, modify,
  continue_with,
}

-- `LinkFaultState()`
abbrev pub healthy : LinkFaultState
healthy = record {
  packet_loss = false;
  packet_corruption = false;
  delay_steps = 0;
  stale_frame = false;
  disconnected = false;
}

-- The fields, those of one direction in a record of their own.
pub record FaultTransport (T : Type 0) : Type 0 where
  pub inner : T
  pub step_id : ℕ
  pub tx : Direction
  pub rx : Direction
  pub tx_input : List ℕ
  pub rx_input : List ℕ
  pub rx_ready : List ℕ

abbrev pub new_direction : Direction
new_direction = record {
  state = healthy;
  stats = record {
    frames_forwarded = 0;
    frames_dropped = 0;
    frames_corrupted = 0;
    frames_delayed = 0;
    stale_frames_replayed = 0;
    disconnect_drops = 0;
  };
  delayed = [];
  previous_frame = none;
}

abbrev pub new_fault_transport : {T : Type 0} → T → FaultTransport T
new_fault_transport inner = record {
  inner = inner;
  step_id = 0;
  tx = new_direction;
  rx = new_direction;
  tx_input = [];
  rx_input = [];
  rx_ready = [];
}

abbrev pub count_forwarded : Direction → Direction
count_forwarded d = record d {
  stats = record d.stats { frames_forwarded = d.stats.frames_forwarded + 1 };
}

abbrev pub count_disconnect : Direction → Direction
count_disconnect d = record d {
  stats = record d.stats { disconnect_drops = d.stats.disconnect_drops + 1 };
}

module _ {T : Type 0} where
  -- The receiving direction with the bytes that are ready.
  abbrev pub with_rx : FaultTransport T → Direction × List ℕ → FaultTransport T
  with_rx s (d, ready) = record s { rx = d; rx_ready = ready }

  -- `_release_due_rx` and `_apply_rx_fault`
  abbrev pub release_rx : FaultTransport T → FaultTransport T
  release_rx s = with_rx s (release_due_rx s.step_id (s.rx, s.rx_ready))

  unfoldable pub receive_frames : List (List ℕ) → FaultTransport T → FaultTransport T
  receive_frames [] s = s
  receive_frames (frame ∷ frames) s =
      receive_frames frames (with_rx s (apply_rx_fault s.step_id frame (s.rx, s.rx_ready)))

  abbrev pub take_received : Option (List (List ℕ) × List ℕ) → Run (FaultTransport T) (Unit {0})
  take_received none s = (s, failed out_of_fuel)
  take_received (some (frames, rest)) s =
      (receive_frames frames (record s { rx_input = rest }), done tt)

module _ (io : ByteTransport) where
  open io use {Transport}

  -- One round of `_forward_tx`, after the call of the inner `write`.
  abbrev pub forward_round :
      (ℕ → Run (FaultTransport Transport) (Unit {0}))
      → ℕ
      → FaultTransport Transport
      → Transport × WriteResult
      → FaultTransport Transport × Answer (Unit {0})
  forward_round next offset s (inner, write_failed) =
      (record s { inner = inner }, failed transport_error)
  forward_round next offset s (inner, wrote_negative) =
      (record s { inner = inner }, failed transport_error)
  forward_round next offset s (inner, wrote written) =
      if written == 0
      then (record s { inner = inner }, failed transport_error)
      else next (offset + written) (record s { inner = inner })

  unfoldable pub forward_loop :
      ℕ → List ℕ → (offset : ℕ) → Run (FaultTransport Transport) (Unit {0})
  forward_loop zero frame offset s = (s, failed out_of_fuel)
  forward_loop (suc fuel) frame offset s =
      if ltb offset (length frame)
      then forward_round (forward_loop fuel frame) offset s (io.write s.inner (drop offset frame))
      else (s, done tt)

  -- `_forward_tx`; each round takes a byte of the frame at least.
  unfoldable pub forward_tx : List ℕ → Run (FaultTransport Transport) (Unit {0})
  forward_tx frame =
      forward_loop (suc (length frame)) frame 0
      >> modify (λ s. record s { tx = count_forwarded s.tx })

  abbrev pub forward_sent : Direction × Option (List ℕ) → Run (FaultTransport Transport) (Unit {0})
  forward_sent (d, none) s = (record s { tx = d }, done tt)
  forward_sent (d, some frame) s = forward_tx frame (record s { tx = d })

  unfoldable pub apply_tx_fault : List ℕ → Run (FaultTransport Transport) (Unit {0})
  apply_tx_fault frame s = forward_sent (apply_fault s.step_id 17 frame s.tx) s

  unfoldable pub send_frames : List (List ℕ) → Run (FaultTransport Transport) (Unit {0})
  send_frames [] s = (s, done tt)
  send_frames (frame ∷ frames) s = continue_with (λ _. send_frames frames) (apply_tx_fault frame s)

  abbrev pub send_taken :
      Option (List (List ℕ) × List ℕ) → Run (FaultTransport Transport) (Unit {0})
  send_taken none s = (s, failed out_of_fuel)
  send_taken (some (frames, rest)) s = send_frames frames (record s { tx_input = rest })

  abbrev pub send_input : List ℕ → Run (FaultTransport Transport) (Unit {0})
  send_input bytes s =
      send_taken (take_complete_frames (s.tx_input ++ bytes))
        (record s { tx_input = s.tx_input ++ bytes })

  unfoldable pub write_bytes : List ℕ → Run (FaultTransport Transport) ℕ
  write_bytes bytes s =
      if is_empty bytes
      then (s, done 0)
      else continue_with (λ _. pure (length bytes)) (send_input bytes s)

  abbrev pub release_frame : List ℕ → Run (FaultTransport Transport) (Unit {0})
  release_frame frame s =
      if s.tx.state.disconnected
      then (record s { tx = count_disconnect s.tx }, done tt)
      else forward_tx frame s

  -- `_release_due_tx`: a frame leaves the queue before it is forwarded.
  unfoldable pub release_tx_loop : List (ℕ × List ℕ) → Run (FaultTransport Transport) (Unit {0})
  release_tx_loop [] s = (s, done tt)
  release_tx_loop ((due, frame) ∷ waiting) s =
      let rest = release_tx_loop waiting in
      if leb due s.step_id
      then continue_with (λ _. rest)
          (release_frame frame (record s { tx = record s.tx { delayed = waiting } }))
      else (s, done tt)

  unfoldable pub release_due_tx : Run (FaultTransport Transport) (Unit {0})
  release_due_tx s = release_tx_loop s.tx.delayed s

  abbrev pub or_healthy : Option LinkFaultState → LinkFaultState
  or_healthy none = healthy
  or_healthy (some state) = state

  abbrev pub set_faults :
      ℕ
      → LinkFaultState
      → Option LinkFaultState
      → FaultTransport Transport
      → FaultTransport Transport
  set_faults step_id state rx_state s = record s {
    step_id = step_id;
    tx = record s.tx { state = state };
    rx = record s.rx { state = or_healthy rx_state };
  }

  unfoldable pub configure :
      ℕ → LinkFaultState → Option LinkFaultState → Run (FaultTransport Transport) (Unit {0})
  configure step_id state rx_state s =
      if ltb step_id s.step_id
      then (s, failed value_error)
      else continue_with (λ _. modify release_rx)
          (release_due_tx (set_faults step_id state rx_state s))

  -- One round of the loop of `read`, after the call of the inner `read`.
  abbrev pub fill_round :
      Run (FaultTransport Transport) (Unit {0})
      → FaultTransport Transport
      → Transport × ReadResult
      → FaultTransport Transport × Answer (Unit {0})
  fill_round next s (inner, read_failed) = (record s { inner = inner }, failed transport_error)
  fill_round next s (inner, received []) = (record s { inner = inner }, done tt)
  fill_round next s (inner, received (byte ∷ bytes)) =
      let input = s.rx_input ++ (byte ∷ bytes) in
      continue_with (λ _. next)
        (take_received (take_complete_frames input) (record s { inner = inner; rx_input = input }))

  -- The loop asks the inner transport as long as it has bytes, but none that are ready.
  unfoldable pub fill_loop : ℕ → (max_bytes : ℕ) → Run (FaultTransport Transport) (Unit {0})
  fill_loop zero max_bytes s = (s, failed out_of_fuel)
  fill_loop (suc fuel) max_bytes s =
      if is_empty s.rx_ready
      then fill_round (fill_loop fuel max_bytes) s (io.read s.inner max_bytes)
      else (s, done tt)

  abbrev pub take_ready : ℕ → Run (FaultTransport Transport) (List ℕ)
  take_ready max_bytes s =
      (record s { rx_ready = drop max_bytes s.rx_ready }, done (take max_bytes s.rx_ready))

  unfoldable pub read_bytes : (fuel max_bytes : ℕ) → Run (FaultTransport Transport) (List ℕ)
  read_bytes fuel max_bytes s =
      if max_bytes == 0
      then (s, failed value_error)
      else continue_with (λ _. take_ready max_bytes) (fill_loop fuel max_bytes (release_rx s))

  unfoldable pub close_transport : Run (FaultTransport Transport) (Unit {0})
  close_transport = modify (λ s. record s {
    tx_input = [];
    rx_input = [];
    rx_ready = [];
    tx = record s.tx { delayed = [] };
    rx = record s.rx { delayed = [] };
    inner = io.close s.inner;
  })
