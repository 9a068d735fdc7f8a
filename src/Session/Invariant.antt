-- ===== src/Session/Invariant.antt =====
-- What holds of a `HostSession` (host/src/navbench/session.py) between two calls.
use navbench.Common.{
  ℕ, ◌^◌, ◌≤◌, ◌<◌, ◌≡◌, refl, ap, bit_and, Bool, true, false, ◌||◌, Option, none, some, length,
  drop, length-drop, ltb, ltb-false→le, Bool-cases, inl, inr, arith,
}
use navbench.Protocol.Value.{Scalar, int, negative, boolean, other}
use navbench.Protocol.Packet.{max_payload_size}
use navbench.Session.Run.{Answer, done}
use navbench.Session.Types.{
  SessionState, SessionConfig, SessionStats, Session, disconnected, hello_sent, active, timed_out,
  safe_stop, error, closed,
}
use navbench.Session.Send.{is_active, set_state, validate_number, validate_now}
use navbench.Session.Poll.{minimum_peer_payload, is_hello_sent}
use navbench.Protocol.Stream.{StreamParser}
use navbench.Protocol.Sequence.{SequenceTracker}

-- The last packet was not received after the last time that the caller named.
abbrev pub NotAfter : Option ℕ → Option ℕ → Type 0
NotAfter none now = Unit {0}
NotAfter (some last) none = ⊥
NotAfter (some last) (some now) = last ≤ now

-- What was negotiated: all required capabilities, a payload limit that the required messages fit
-- and the protocol allows, and a timeout that is not longer than the host's own.
abbrev pub Agreed : SessionConfig → Option ℕ → Option ℕ → Option ℕ → Type 0
Agreed config (some capabilities) (some limit) (some timeout) =
    (bit_and capabilities config.required_capabilities ≡ config.required_capabilities)
    × (minimum_peer_payload config.required_capabilities ≤ limit)
    × (limit ≤ max_payload_size)
    × (0 < timeout)
    × (timeout ≤ config.timeout_ms)
Agreed config capabilities limit timeout = ⊥

abbrev pub is_live : SessionState → Bool
is_live state = is_hello_sent state || is_active state

pub active_state : (state : SessionState) → is_active state ≡ true → state ≡ active
active_state active h = refl
active_state disconnected h = absurd cc
active_state hello_sent h = absurd cc
active_state timed_out h = absurd cc
active_state safe_stop h = absurd cc
active_state error h = absurd cc
active_state closed h = absurd cc

pub record IsSound {T : Type 0} (s : Session T) : Type 0 where
  pub configured : 0 < s.config.timeout_ms
  pub buffered : length s.tx_buffer ≤ s.config.max_tx_buffer
  pub numbered : s.tx_sequence < 2 ^ 32
  pub clocked : NotAfter s.last_rx_ms s.last_now_ms
  pub roomy : 256 ≤ s.config.max_tx_buffer
  -- the timeout fits the field of a HELLO that was sent
  pub ranged : is_live s.state ≡ true → s.config.timeout_ms < 2 ^ 16
  pub agreed :
      s.state ≡ active
      → Agreed s.config s.peer_capabilities s.negotiated_max_payload s.negotiated_timeout_ms

-- The same, with the last time that the caller named.
abbrev pub IsSoundAt : {T : Type 0} → Option ℕ → Session T → Type 0
IsSoundAt now s = IsSound s × (s.last_now_ms ≡ now)

NotAfter-trans :
    (last before : Option ℕ) (now : ℕ)
    → NotAfter last before
    → NotAfter before (some now)
    → NotAfter last (some now)
NotAfter-trans none before now h k = tt
NotAfter-trans (some last) (some before) now h k = omega arith
NotAfter-trans (some last) none now h k = absurd h

done_same : {A : Type 0} {a b : A} → done a ≡ done b → a ≡ b
done_same h = cc

module _ {T : Type 0} where
  -- A state that waits for nothing asks for no agreement.
  pub idle-IsSound :
      (state : SessionState) (s : Session T)
      → is_live state ≡ false
      → IsSound s
      → IsSound (set_state state s)
  idle-IsSound state s idle h = record {
    configured = h.configured;
    buffered = h.buffered;
    numbered = h.numbered;
    clocked = h.clocked;
    roomy = h.roomy;
    ranged = λ live. absurd (cc);
    agreed = λ e. absurd (let g = rw e at idle in cc);
  }

  -- The fields of which nothing is said.
  pub aside-IsSound :
      (s : Session T) (t : T) (stats : SessionStats) (parser : StreamParser)
      (tracker : SequenceTracker)
      → IsSound s
      → IsSound (record s { transport = t; stats = stats; parser = parser; rx_sequence = tracker })
  aside-IsSound s t stats parser tracker h = record {
    configured = h.configured;
    buffered = h.buffered;
    numbered = h.numbered;
    clocked = h.clocked;
    roomy = h.roomy;
    ranged = h.ranged;
    agreed = h.agreed;
  }

  pub drop-IsSound :
      (s : Session T) (n : ℕ) → IsSound s → IsSound (record s { tx_buffer = drop n s.tx_buffer })
  drop-IsSound s n h = record {
    configured = h.configured;
    buffered = omega (arith, h.buffered, length-drop n s.tx_buffer);
    numbered = h.numbered;
    clocked = h.clocked;
    roomy = h.roomy;
    ranged = h.ranged;
    agreed = h.agreed;
  }

  later-IsSound :
      (s : Session T) (now : ℕ)
      → NotAfter s.last_now_ms (some now)
      → IsSound s
      → IsSound (record s { last_now_ms = some now })
  later-IsSound s now k h = record {
    configured = h.configured;
    buffered = h.buffered;
    numbered = h.numbered;
    clocked = NotAfter-trans s.last_rx_ms s.last_now_ms now h.clocked k;
    roomy = h.roomy;
    ranged = h.ranged;
    agreed = h.agreed;
  }

  -- What `_validate_now` returns is the time that it has stored.
  abbrev pub Validated : Session T → Session T × Answer ℕ → Type 0
  Validated s r = IsSound (r.0) × ((now : ℕ) → r.1 ≡ done now → r.0.last_now_ms ≡ some now)

  validate_number-Validated :
      (s : Session T) (now : ℕ) (last : Option ℕ)
      → s.last_now_ms ≡ last
      → IsSound s
      → Validated s (validate_number now last s)
  validate_number-Validated s now none e h =
      (later-IsSound s now (rw e tt) h, λ m k. ap some (done_same k))
  validate_number-Validated s now (some last) e h = elim (Bool-cases (ltb now last)) [
    | inl back ↦ simp back (h, λ m k. absurd cc)
    | inr forth ↦
        simp forth
          (later-IsSound s now (rw e (ltb-false→le now last forth)) h, λ m k. ap some (done_same k))
  ]

  pub validate_now-Validated :
      (s : Session T) (now_ms : Scalar) → IsSound s → Validated s (validate_now now_ms s)
  unfolding validate_now
  validate_now-Validated s (int now) h = validate_number-Validated s now s.last_now_ms refl h
  validate_now-Validated s (negative n) h = (h, λ m k. absurd cc)
  validate_now-Validated s (boolean b) h = (h, λ m k. absurd cc)
  validate_now-Validated s other h = (h, λ m k. absurd cc)

  -- Only the last named time may change.
  pub validate_number-eq :
      (now : ℕ) (last : Option ℕ) (s : Session T)
      → (named : Option ℕ) × ((validate_number now last s).0 ≡ record s { last_now_ms = named })
  validate_number-eq now none s = (some now, refl)
  validate_number-eq now (some last) s = elim (Bool-cases (ltb now last)) [
    | inl back ↦ (s.last_now_ms, simp back)
    | inr forth ↦ (some now, simp forth)
  ]

  pub validate_now-eq :
      (now_ms : Scalar) (s : Session T)
      → (named : Option ℕ) × ((validate_now now_ms s).0 ≡ record s { last_now_ms = named })
  unfolding validate_now
  validate_now-eq (int now) s = validate_number-eq now s.last_now_ms s
  validate_now-eq (negative n) s = (s.last_now_ms, refl)
  validate_now-eq (boolean b) s = (s.last_now_ms, refl)
  validate_now-eq other s = (s.last_now_ms, refl)
