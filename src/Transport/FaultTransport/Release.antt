-- ===== src/Transport/FaultTransport/Release.antt =====
-- When `DeterministicFaultTransport` (host/src/navbench/transport.py) releases delayed frames.
use navbench.Common.{
  leb-false→lt, leb-true→le, ℕ, ◌≤◌, ◌<◌, ◌≡◌, refl, sym, ap, ◌∙◌, ◌⊎◌, inl, inr, Option, List, [],
  ◌∷◌, ◌++◌, All, leb, le→ltb, Bool-cases,
}
use navbench.Transport.Interface.{ByteTransport}
use navbench.Transport.Writes.{Stalls}
use navbench.Transport.Fault.{LinkFaultState, Direction, release_one, release_loop, release_due_rx}
use navbench.Session.Run.{
  transport_error, Answer, done, failed, Run, continue_with, modify, if_both,
}
use navbench.Transport.FaultTransport.{
  FaultTransport, count_disconnect, release_rx, release_tx_loop, release_due_tx, set_faults,
  configure,
}
use navbench.Transport.FaultTransport.Forward.{IsHonest, Passes, forward_tx-Passes}

-- The first frame that waits is not due.
abbrev pub NoneDue : ℕ → List (ℕ × List ℕ) → Type 0
NoneDue step_id [] = Unit {0}
NoneDue step_id ((due, frame) ∷ waiting) = step_id < due

-- Frames that are due have left the front of the queue; the first of the others is not due.
abbrev pub Released : ℕ → (before after : List (ℕ × List ℕ)) → Type 0
Released step_id before after =
    (released : List (ℕ × List ℕ)) × (before ≡ released ++ after)
    × All (λ (f : ℕ × List ℕ). f.0 ≤ step_id) released
    × NoneDue step_id after

Released-more :
    (step_id due : ℕ) (frame : List ℕ) (before after : List (ℕ × List ℕ))
    → due ≤ step_id
    → Released step_id before after
    → Released step_id ((due, frame) ∷ before) after
Released-more step_id due frame before after h (released, cut, dues, none_due) =
    ((due, frame) ∷ released, ap (λ l. (due, frame) ∷ l) cut, (h, dues), none_due)

release_loop-Released :
    (step_id : ℕ) (waiting : List (ℕ × List ℕ)) (d : Direction) (ready : List ℕ)
    → Released step_id waiting ((release_loop step_id waiting (d, ready)).0.delayed)
unfolding release_loop
release_loop-Released step_id [] d ready = ([], refl, tt, tt)
release_loop-Released step_id ((due, frame) ∷ waiting) d ready =
    elim (Bool-cases (leb due step_id)) [
      | inl is_due ↦ rw is_due (
          Released-more step_id due frame waiting _ (leb-true→le due step_id is_due) (
            release_loop-Released step_id waiting ((release_one frame (d, ready)).0)
              ((release_one frame (d, ready)).1)))
      | inr early ↦ rw early ([], refl, tt, leb-false→lt due step_id early)
    ]

module _ (io : ByteTransport) (honest : IsHonest io) where
  open io use {Transport}

  -- The queue of the writing side; nothing else that the reading side needs has changed. Or an error
  -- of the transport, behind a write of the inner transport that took nothing.
  ReleasedTx :
      List (ℕ × List ℕ)
      → FaultTransport Transport
      → FaultTransport Transport × Answer (Unit {0})
      → Type 0
  ReleasedTx before s r =
      ((r.1 ≡ done tt)
        × Released s.step_id before r.0.tx.delayed
        × (r.0.rx ≡ s.rx)
        × (r.0.step_id ≡ s.step_id))
      ⊎ ((r.1 ≡ failed transport_error) × Stalls io (r.0.inner))

  ReleasedTx-next :
      (due : ℕ) (frame : List ℕ) (waiting : List (ℕ × List ℕ)) (s s' : FaultTransport Transport)
      (r : FaultTransport Transport × Answer (Unit {0}))
      → due ≤ s.step_id
      → s'.rx ≡ s.rx
      → s'.step_id ≡ s.step_id
      → ReleasedTx waiting s' r
      → ReleasedTx ((due, frame) ∷ waiting) s r
  unfolding ReleasedTx
  ReleasedTx-next due frame waiting s s' r is_due rx step (inl (returned, released, rx', step')) =
      inl (
        returned,
        Released-more s.step_id due frame waiting r.0.tx.delayed is_due (rw step at released),
        rx' ∙ rx,
        step' ∙ step,
      )
  ReleasedTx-next due frame waiting s s' r is_due rx step (inr raised) = inr raised

  -- A frame that is due was forwarded, or the call raised.
  ReleasedTx-forwarded :
      (due : ℕ) (frame : List ℕ) (waiting : List (ℕ × List ℕ)) (s : FaultTransport Transport)
      (next : Unit {0} → Run (FaultTransport Transport) (Unit {0}))
      → due ≤ s.step_id
      → ((s' : FaultTransport Transport)
          → s'.tx.delayed ≡ waiting
          → ReleasedTx waiting s' (next tt s'))
      → (r : FaultTransport Transport × Answer (Unit {0}))
      → Passes io honest frame (record s { tx = record s.tx { delayed = waiting } }) r
      → ReleasedTx ((due, frame) ∷ waiting) s (continue_with next r)
  unfolding Passes
  ReleasedTx-forwarded due frame waiting s next is_due continued (s', done u)
        (sent, writes, kept, all, ends) =
      ReleasedTx-next due frame waiting s s' _ is_due kept.receiving kept.step
        (continued s' kept.waiting)
  ReleasedTx-forwarded due frame waiting s next is_due continued (s', failed f)
        (sent, writes, kept, all, ends) =
      unfold ReleasedTx in inr (ap failed ((ends f refl).0), (ends f refl).1)

  release_tx_loop-Released :
      (waiting : List (ℕ × List ℕ)) (s : FaultTransport Transport)
      → s.tx.delayed ≡ waiting
      → ReleasedTx waiting s (release_tx_loop io waiting s)
  unfolding release_tx_loop
  release_tx_loop-Released [] s e =
      unfold ReleasedTx in inl (refl, ([], sym e, tt, rw e tt), refl, refl)
  release_tx_loop-Released ((due, frame) ∷ waiting) s e = elim (Bool-cases (leb due s.step_id)) [
    | inr early ↦ rw early (
        unfold ReleasedTx in
        inl (refl, ([], sym e, tt, rw e (leb-false→lt due s.step_id early)), refl, refl))
    | inl is_due ↦ rw is_due (
        if_both
          (λ (r : FaultTransport Transport × Answer (Unit {0})).
            ReleasedTx ((due, frame) ∷ waiting) s
              (continue_with (λ _. release_tx_loop io waiting) r))
          s.tx.state.disconnected _ _
          (ReleasedTx-next due frame waiting s
            (record s { tx = count_disconnect (record s.tx { delayed = waiting }) }) _
            (leb-true→le due s.step_id is_due) refl refl
            (release_tx_loop-Released waiting
              (record s { tx = count_disconnect (record s.tx { delayed = waiting }) }) refl))
          (ReleasedTx-forwarded due frame waiting s (λ _. release_tx_loop io waiting)
            (leb-true→le due s.step_id is_due) (release_tx_loop-Released waiting) _
            (forward_tx-Passes io honest frame
              (record s { tx = record s.tx { delayed = waiting } }))))
  ]

  -- Both queues, if the call returned; it raises behind a write of the inner transport that took
  -- nothing.
  pub ReleasedBoth :
      ℕ → FaultTransport Transport → FaultTransport Transport × Answer (Unit {0}) → Type 0
  ReleasedBoth step_id s r =
      ((r.1 ≡ done tt)
        × Released step_id s.tx.delayed r.0.tx.delayed
        × Released step_id s.rx.delayed r.0.rx.delayed)
      ⊎ ((r.1 ≡ failed transport_error) × Stalls io (r.0.inner))

  released_both :
      (s : FaultTransport Transport) (r : FaultTransport Transport × Answer (Unit {0}))
      → ReleasedTx s.tx.delayed s r
      → ReleasedBoth s.step_id s (continue_with (λ _. modify release_rx) r)
  unfolding ReleasedTx ReleasedBoth release_due_rx
  released_both s (s', done u) (inl (returned, released, rx, step)) = inl (
    refl,
    released,
    rw (sym step, sym rx) (release_loop-Released s'.step_id s'.rx.delayed s'.rx s'.rx_ready),
  )
  released_both s (s', done u) (inr (e, stalls)) = absurd cc
  released_both s (s', failed e) (inl (returned, released, rx, step)) = absurd cc
  released_both s (s', failed e) (inr (raised, stalls)) =
      inr (let same : e ≡ transport_error = cc in ap failed same, stalls)

  -- A change of the faults to a step that is not before the last one, over an inner transport that
  -- takes no more bytes than it is given: it returns, exactly the front frames of each direction's
  -- queue that are due have left it, in order, and the first frame that still waits is not due; or
  -- it raises a transport error, and the last call of the inner transport was a write of some bytes
  -- that raised or took none of them.
  pub configure-Released :
      (step_id : ℕ) (state : LinkFaultState) (rx_state : Option LinkFaultState)
      (s : FaultTransport Transport)
      → s.step_id ≤ step_id
      → ReleasedBoth step_id s (configure io step_id state rx_state s)
  unfolding configure release_due_tx
  configure-Released step_id state rx_state s h = rw (le→ltb step_id s.step_id h) (
      unfold ReleasedBoth in
      released_both (set_faults io step_id state rx_state s) _
        (release_tx_loop-Released s.tx.delayed (set_faults io step_id state rx_state s) refl))
