-- ===== src/Transport/FaultTransport/Healthy.antt =====
-- The writing side of `DeterministicFaultTransport` (host/src/navbench/transport.py) without a
-- fault.
use navbench.Common.{
  ℕ, ◌≡◌, refl, sym, ap, ◌∙◌, ◌⊎◌, inl, inr, some, List, [], ◌∷◌, ◌++◌, length, append-nil,
  append_assoc,
}
use navbench.Transport.Interface.{ByteTransport}
use navbench.Transport.Writes.{Writes, no_more, Stalls}
use navbench.Transport.Memory.Pending.{joined}
use navbench.Transport.Fault.{Direction, apply_fault}
use navbench.Protocol.Cobs.Shape.{NoZero}
use navbench.Transport.Frames.{Cut, cut_rest, cut_frame, take_complete_frames-Cut}
use navbench.Session.Run.{transport_error, Answer, done, failed, pure, continue_with}
use navbench.Transport.FaultTransport.{
  healthy, FaultTransport, apply_tx_fault, send_frames, send_input, write_bytes,
}
use navbench.Transport.FaultTransport.Forward.{
  IsHonest, Passes, Passes-none, Passes-next, forward_tx-Passes,
}

pub Cut-joined :
    {buffer rest : List ℕ} {frames : List (List ℕ)}
    → Cut buffer frames rest
    → buffer ≡ joined frames ++ rest
Cut-joined (cut_rest clean) = refl
Cut-joined (cut_frame {rest = rest} {frames = frames} body clean e cut) =
    e
    ∙ ap (λ l. body ++ (0 ∷ l)) (Cut-joined cut)
    ∙ sym (append_assoc body (0 ∷ []) (joined frames ++ rest))
    ∙ sym (append_assoc (body ++ (0 ∷ [])) (joined frames) rest)

Cut-clean : {buffer rest : List ℕ} {frames : List (List ℕ)} → Cut buffer frames rest → NoZero rest
Cut-clean (cut_rest clean) = clean
Cut-clean (cut_frame body clean e cut) = Cut-clean cut

module _ (io : ByteTransport) (honest : IsHonest io) where
  open io use {Transport}

  apply_fault-healthy :
      (step_id : ℕ) (frame : List ℕ) (d : Direction)
      → d.state ≡ healthy
      → apply_fault step_id 17 frame d ≡ (record d { previous_frame = some frame }, some frame)
  unfolding apply_fault
  apply_fault-healthy step_id frame d h = simp h

  apply_tx_fault-Passes :
      (frame : List ℕ) (s : FaultTransport Transport)
      → s.tx.state ≡ healthy
      → Passes io honest frame s (apply_tx_fault io frame s)
  unfolding apply_tx_fault Passes
  apply_tx_fault-Passes frame s h = rw (apply_fault-healthy s.step_id frame s.tx h) (
      seen_frame (
        forward_tx-Passes io honest frame
          (record s { tx = record s.tx { previous_frame = some frame } })))
    where
      seen_frame :
          {r : FaultTransport Transport × Answer (Unit {0})}
          → Passes io honest frame (record s { tx = record s.tx { previous_frame = some frame } }) r
          → Passes io honest frame s r
      seen_frame (sent, writes, kept, all, ends) = (
        sent,
        writes,
        record {
          input = kept.input;
          faults = kept.faults;
          waiting = kept.waiting;
          receiving = kept.receiving;
          ready = kept.ready;
          step = kept.step;
        },
        all,
        ends,
      )

  send_frames-Passes :
      (frames : List (List ℕ)) (s : FaultTransport Transport)
      → s.tx.state ≡ healthy
      → Passes io honest (joined frames) s (send_frames io frames s)
  unfolding send_frames
  send_frames-Passes [] s h = Passes-none io honest s
  send_frames-Passes (frame ∷ frames) s h =
      Passes-next io honest frame (joined frames) s (λ u. send_frames io frames) _
        (apply_tx_fault-Passes frame s h) (λ s' e. send_frames-Passes frames s' (e ∙ h))

  -- The bytes that were waiting and those that are written, in order; or an error of the transport,
  -- behind a write of the inner transport that took nothing.
  pub PassesOn : List ℕ → FaultTransport Transport → FaultTransport Transport × Answer ℕ → Type 0
  PassesOn bytes s r =
      (sent : List ℕ) × Writes io s.inner sent (r.0.inner)
      × (((r.1 ≡ done (length bytes))
            × (s.tx_input ++ bytes ≡ sent ++ r.0.tx_input)
            × ((bytes ≡ []) ⊎ NoZero r.0.tx_input))
          ⊎ ((r.1 ≡ failed transport_error) × Stalls io (r.0.inner)))

  send_input-Passes :
      (bytes : List ℕ) (s : FaultTransport Transport)
      → s.tx.state ≡ healthy
      → PassesOn bytes s (continue_with (λ _. pure (length bytes)) (send_input io bytes s))
  unfolding PassesOn Passes
  send_input-Passes bytes s h =
      let (frames, rest, e, cut) = take_complete_frames-Cut (s.tx_input ++ bytes) in
      rw e (
        answered (send_frames io frames (record s { tx_input = rest })) rest frames (Cut-clean cut)
          (Cut-joined cut) (send_frames-Passes frames (record s { tx_input = rest }) h))
    where
      answered :
          (r : FaultTransport Transport × Answer (Unit {0})) (rest : List ℕ)
          (frames : List (List ℕ))
          → NoZero rest
          → s.tx_input ++ bytes ≡ joined frames ++ rest
          → Passes io honest (joined frames) (record s { tx_input = rest }) r
          → PassesOn bytes s (continue_with (λ _. pure (length bytes)) r)
      answered (s', done u) rest frames clean cut (sent, writes, kept, all, ends) = (
        sent,
        writes,
        inl (
          refl,
          cut ∙ ap (λ l. l ++ rest) (sym (all refl)) ∙ ap (λ l. sent ++ l) (sym kept.input),
          inr (rw kept.input clean),
        ),
      )
      answered (s', failed e) rest frames clean cut (sent, writes, kept, all, ends) =
          (sent, writes, inr (ap failed ((ends e refl).0), (ends e refl).1))

  -- A healthy link, over an inner transport that takes no more bytes than it is given, passes bytes
  -- on as they come: what it had kept and what is written are, in order, what the inner transport
  -- takes and what is kept for a frame that is not complete yet, which holds no zero once bytes are
  -- written; or the call raises a transport error, and the last call of the inner transport was a
  -- write of some bytes that raised or took none of them. Its loops always end.
  pub write_bytes-PassesOn :
      (bytes : List ℕ) (s : FaultTransport Transport)
      → s.tx.state ≡ healthy
      → PassesOn bytes s (write_bytes io bytes s)
  unfolding write_bytes
  write_bytes-PassesOn [] s h =
      unfold PassesOn in ([], no_more, inl (refl, append-nil s.tx_input, inl refl))
  write_bytes-PassesOn (byte ∷ bytes) s h = send_input-Passes (byte ∷ bytes) s h
