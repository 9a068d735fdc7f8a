-- ===== src/Transport/Fault.antt =====
-- The faults of `DeterministicFaultTransport` (host/src/navbench/transport.py) in one direction:
-- what happens to a complete frame, and which delayed frames are released. The code has this
-- twice, for writes (tx) and reads (rx), with the counters of both in one object; a direction
-- has its own state, counters, delayed frames and previous frame.
pub mod Fates
use navbench.Common.{
  ℕ, ◌+◌, ◌-◌, ◌*◌, ◌%◌, ◌≡◌, refl, ap, ◌∙◌, ltb, leb, ◌==◌, if◌then◌else◌, Bool, true, false,
  Option, none, some, List, [], ◌∷◌, ◌++◌, length, length-append, get_elem?, set, bit_xor, arith,
  Bool-cases, inl, inr, not, ◌&&◌,
}

pub record LinkFaultState : Type 0 where
  pub packet_loss : Bool
  pub packet_corruption : Bool
  pub delay_steps : ℕ
  pub stale_frame : Bool
  pub disconnected : Bool

pub record LinkFaultStats : Type 0 where
  pub frames_forwarded : ℕ
  pub frames_dropped : ℕ
  pub frames_corrupted : ℕ
  pub frames_delayed : ℕ
  pub stale_frames_replayed : ℕ
  pub disconnect_drops : ℕ

pub record Direction : Type 0 where
  pub state : LinkFaultState
  pub stats : LinkFaultStats
  pub delayed : List (ℕ × List ℕ)
  pub previous_frame : Option (List ℕ)

abbrev flip_at : List ℕ → ℕ → Option ℕ → List ℕ
flip_at frame index none = frame
flip_at frame index (some value) = set frame index (bit_xor value 1)

-- One bit of one byte, neither the first nor the last, of a frame of more than two bytes.
unfoldable pub corrupt : (step_id direction_salt : ℕ) → List ℕ → List ℕ
corrupt step_id direction_salt frame =
    let index = 1 + (step_id * direction_salt) % (length frame - 2) in
    flip_at frame index (get_elem? frame index)

-- The frame that is sent in place of `frame`, and the counters.
abbrev pub replay : Bool → Option (List ℕ) → List ℕ → LinkFaultStats → List ℕ × LinkFaultStats
replay true (some previous) frame stats =
    (previous, record stats { stale_frames_replayed = stats.stale_frames_replayed + 1 })
replay true none frame stats = (frame, stats)
replay false previous frame stats = (frame, stats)

abbrev pub damage : (test : Bool) → ℕ → ℕ → List ℕ × LinkFaultStats → List ℕ × LinkFaultStats
damage true step_id salt (current, stats) =
    (corrupt step_id salt current, record stats { frames_corrupted = stats.frames_corrupted + 1 })
damage false step_id salt sent = sent

-- The end of the handler: the frame waits, or it is to be forwarded now.
abbrev pub delay_or_send : ℕ → Direction → List ℕ × LinkFaultStats → Direction × Option (List ℕ)
delay_or_send step_id d (current, stats) =
    if not (d.state.delay_steps == 0)
    then (
      record d {
        stats = record stats { frames_delayed = stats.frames_delayed + 1 };
        delayed = d.delayed ++ ((step_id + d.state.delay_steps, current) ∷ []);
      },
      none,
    )
    else (record d { stats = stats }, some current)

abbrev pub alter :
    ℕ → ℕ → LinkFaultState → Option (List ℕ) → List ℕ → LinkFaultStats → List ℕ × LinkFaultStats
alter step_id salt state previous frame stats =
    let sent = replay state.stale_frame previous frame stats in
    damage (state.packet_corruption && ltb 2 (length sent.0)) step_id salt sent

-- `_apply_tx_fault` with the salt 17 and `_apply_rx_fault` with 29, up to the call that forwards:
-- the direction, and the frame to forward, if there is one.
unfoldable pub apply_fault : (step_id salt : ℕ) → List ℕ → Direction → Direction × Option (List ℕ)
apply_fault step_id salt frame d =
    let seen = record d { previous_frame = some frame } in
    if d.state.disconnected
    then (
      record seen { stats = record d.stats { disconnect_drops = d.stats.disconnect_drops + 1 } },
      none,
    )
    else if d.state.packet_loss
    then (
      record seen { stats = record d.stats { frames_dropped = d.stats.frames_dropped + 1 } },
      none,
    )
    else delay_or_send step_id seen (alter step_id salt d.state d.previous_frame frame d.stats)

-- `_forward_rx`: the frame joins the bytes that are ready to be read.
unfoldable pub forward_rx : List ℕ → Direction × List ℕ → Direction × List ℕ
forward_rx frame (d, ready) = (
  record d { stats = record d.stats { frames_forwarded = d.stats.frames_forwarded + 1 } },
  ready ++ frame,
)

abbrev pub forward_some : Option (List ℕ) → Direction × List ℕ → Direction × List ℕ
forward_some none s = s
forward_some (some frame) s = forward_rx frame s

unfoldable pub apply_rx_fault : ℕ → List ℕ → Direction × List ℕ → Direction × List ℕ
apply_rx_fault step_id frame (d, ready) =
    let (d', sent) = apply_fault step_id 29 frame d in forward_some sent (d', ready)

abbrev pub release_one : List ℕ → Direction × List ℕ → Direction × List ℕ
release_one frame (d, ready) =
    if d.state.disconnected
    then (
      record d { stats = record d.stats { disconnect_drops = d.stats.disconnect_drops + 1 } },
      ready,
    )
    else forward_rx frame (d, ready)

-- The loop of `_release_due_rx` over the delayed frames.
unfoldable pub release_loop : ℕ → List (ℕ × List ℕ) → Direction × List ℕ → Direction × List ℕ
release_loop step_id [] (d, ready) = (record d { delayed = [] }, ready)
release_loop step_id ((due, frame) ∷ waiting) (d, ready) =
    let rest = release_loop step_id waiting (release_one frame (d, ready)) in
    if leb due step_id then rest else (record d { delayed = (due, frame) ∷ waiting }, ready)

unfoldable pub release_due_rx : ℕ → Direction × List ℕ → Direction × List ℕ
release_due_rx step_id (d, ready) = release_loop step_id d.delayed (d, ready)
