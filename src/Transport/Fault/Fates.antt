-- ===== src/Transport/Fault/Fates.antt =====
-- What `_apply_rx_fault` of `DeterministicFaultTransport` (host/src/navbench/transport.py) does to a
-- frame.
use navbench.Common.{
  ℕ, ◌+◌, ◌≤◌, ◌<◌, ◌≡◌, ◌⊎◌, true, false, Option, none, some, List, [], ◌∷◌, ◌++◌, length,
  get_elem?, set, bit_xor,
}
use navbench.Transport.Fault.{LinkFaultState, LinkFaultStats, Direction}

-- One byte, neither the first nor the last, is changed in its lowest bit.
abbrev pub Flipped : List ℕ → List ℕ → Type 0
Flipped frame sent =
    (index : ℕ) × (value : ℕ) × (0 < index)
    × (index + 1 < length frame)
    × (get_elem? frame index ≡ some value)
    × (sent ≡ set frame index (bit_xor value 1))

-- What stands for a frame: the one before it, if the link replays and there is one, or itself.
abbrev pub Stands : LinkFaultState → Option (List ℕ) → List ℕ → List ℕ → Type 0
Stands state previous frame chosen =
    ((state.stale_frame ≡ true) × (previous ≡ some chosen))
    ⊎ (((state.stale_frame ≡ false) ⊎ (previous ≡ none)) × (chosen ≡ frame))

-- Corrupted if the link corrupts and there are more than two bytes, or unchanged.
abbrev pub Damaged : LinkFaultState → List ℕ → List ℕ → Type 0
Damaged state chosen sent =
    ((state.packet_corruption ≡ true) × Flipped chosen sent)
    ⊎ (((state.packet_corruption ≡ false) ⊎ (length chosen ≤ 2)) × (sent ≡ chosen))

-- The counters of frames that were forwarded, lost, and dropped by a disconnected link.
abbrev pub Counts : (forwarded dropped gone : ℕ) → LinkFaultStats → LinkFaultStats → Type 0
Counts forwarded dropped gone before after =
    (after.frames_forwarded ≡ before.frames_forwarded + forwarded)
    × (after.frames_dropped ≡ before.frames_dropped + dropped)
    × (after.disconnect_drops ≡ before.disconnect_drops + gone)

-- The frame waits to be released `delay_steps` later, or joins the bytes that are ready.
abbrev pub Passed : ℕ → Direction → List ℕ → List ℕ → Direction × List ℕ → Type 0
Passed step_id d sent ready r =
    ((0 < d.state.delay_steps)
      × (r.0.delayed ≡ d.delayed ++ ((step_id + d.state.delay_steps, sent) ∷ []))
      × (r.1 ≡ ready)
      × Counts 0 0 0 d.stats r.0.stats)
    ⊎ ((d.state.delay_steps ≡ 0)
        × (r.0.delayed ≡ d.delayed)
        × (r.1 ≡ ready ++ sent)
        × Counts 1 0 0 d.stats r.0.stats)

-- A frame of a link that is disconnected, of one that loses, and of any other.
abbrev pub Fate : ℕ → List ℕ → Direction → List ℕ → Direction × List ℕ → Type 0
Fate step_id frame d ready r =
    ((d.state.disconnected ≡ true)
      × (r.0.delayed ≡ d.delayed)
      × (r.1 ≡ ready)
      × Counts 0 0 1 d.stats r.0.stats)
    ⊎ (((d.state.disconnected ≡ false)
          × (d.state.packet_loss ≡ true)
          × (r.0.delayed ≡ d.delayed)
          × (r.1 ≡ ready)
          × Counts 0 1 0 d.stats r.0.stats)
        ⊎ ((d.state.disconnected ≡ false)
            × (d.state.packet_loss ≡ false)
            × ((chosen : List ℕ) × (sent : List ℕ) × Stands d.state d.previous_frame frame chosen
                × Damaged d.state chosen sent
                × Passed step_id d sent ready r)))
