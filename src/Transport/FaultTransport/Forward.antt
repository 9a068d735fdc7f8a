-- ===== src/Transport/FaultTransport/Forward.antt =====
-- `_forward_tx` of `DeterministicFaultTransport` (host/src/navbench/transport.py): a frame goes to the
-- inner transport as a whole, or the call raises.
use navbench.Common.{
  drop_all, ℕ, zero, suc, ◌+◌, ◌≤◌, ◌<◌, ◌≡◌, refl, sym, ap, ◌∙◌, inl, inr, List, [], ◌++◌, length,
  take, drop, drop-drop, take-append-drop, length-drop, ltb, ltb-false→le, ltb-true→lt, Bool-cases,
  ◌==◌, arith,
}
use navbench.Transport.Interface.{ByteTransport, WriteResult, wrote, wrote_negative, write_failed}
use navbench.Transport.Writes.{
  Writes, Writes-append, no_more, not_taken, taken, TakesNone, Stalls, wrote_zero,
}
use navbench.Session.Run.{
  SessionFailure, transport_error, Answer, done, failed, Run, modify, continue_with,
}
use navbench.Transport.FaultTransport.{
  count_forwarded, FaultTransport, forward_round, forward_loop, forward_tx,
}

-- No more bytes are taken than were given.
abbrev pub IsHonest : ByteTransport → Type 0
IsHonest io =
    (t u : io.Transport) (bytes : List ℕ) (n : ℕ)
    → io.write t bytes ≡ (u, wrote n)
    → n ≤ length bytes

module _ (io : ByteTransport) (honest : IsHonest io) where
  open io use {Transport}

  -- What forwarding does not change.
  pub record IsKept (s s' : FaultTransport Transport) : Type 0 where
    pub input : s'.tx_input ≡ s.tx_input
    pub faults : s'.tx.state ≡ s.tx.state
    pub waiting : s'.tx.delayed ≡ s.tx.delayed
    pub receiving : s'.rx ≡ s.rx
    pub ready : s'.rx_ready ≡ s.rx_ready
    pub step : s'.step_id ≡ s.step_id

  pub IsKept-refl : (s : FaultTransport Transport) → IsKept s s
  IsKept-refl s = record {
    input = refl;
    faults = refl;
    waiting = refl;
    receiving = refl;
    ready = refl;
    step = refl;
  }

  pub IsKept-trans : (s t u : FaultTransport Transport) → IsKept s t → IsKept t u → IsKept s u
  IsKept-trans s t u h k = record {
    input = k.input ∙ h.input;
    faults = k.faults ∙ h.faults;
    waiting = k.waiting ∙ h.waiting;
    receiving = k.receiving ∙ h.receiving;
    ready = k.ready ∙ h.ready;
    step = k.step ∙ h.step;
  }

  aside : (s : FaultTransport Transport) (inner : Transport) → IsKept s (record s { inner = inner })
  aside s inner = record {
    input = refl;
    faults = refl;
    waiting = refl;
    receiving = refl;
    ready = refl;
    step = refl;
  }

  counted_aside : (s : FaultTransport Transport) → IsKept s (record s { tx = count_forwarded s.tx })
  counted_aside s = record {
    input = refl;
    faults = refl;
    waiting = refl;
    receiving = refl;
    ready = refl;
    step = refl;
  }

  -- The inner transport takes bytes, all of `bytes` if nothing is raised, and nothing else changes
  -- that a healthy link needs. What is raised is an error of the transport, behind a write of the
  -- inner transport that took nothing.
  unfoldable pub Passes :
      List ℕ → FaultTransport Transport → FaultTransport Transport × Answer (Unit {0}) → Type 0
  Passes bytes s r =
      (sent : List ℕ) × Writes io s.inner sent (r.0.inner)
      × IsKept s (r.0)
      × (r.1 ≡ done tt → sent ≡ bytes)
      × ((e : SessionFailure) → r.1 ≡ failed e → (e ≡ transport_error) × Stalls io (r.0.inner))

  pub Passes-none : (s : FaultTransport Transport) → Passes [] s (s, done tt)
  unfolding Passes
  Passes-none s = ([], no_more, IsKept-refl s, λ e. refl, λ f e. absurd cc)

  pub Passes-next :
      (front rest : List ℕ) (s : FaultTransport Transport)
      (next : Unit {0} → Run (FaultTransport Transport) (Unit {0}))
      (r : FaultTransport Transport × Answer (Unit {0}))
      → Passes front s r
      → ((s' : FaultTransport Transport) → s'.tx.state ≡ s.tx.state → Passes rest s' (next tt s'))
      → Passes (front ++ rest) s (continue_with next r)
  unfolding Passes
  Passes-next front rest s next (s', done u) (sent, writes, kept, all, ends) continued =
      let (sent', writes', kept', all', ends') = continued s' kept.faults in
      (
        sent ++ sent',
        Writes-append io writes writes',
        IsKept-trans s s' ((next u s').0) kept kept',
        λ e. ap (λ l. l ++ sent') (all refl) ∙ ap (λ l. front ++ l) (all' e),
        ends',
      )
  Passes-next front rest s next (s', failed e) (sent, writes, kept, all, ends) continued =
      (sent, writes, kept, λ f. absurd cc, λ g k. ends g (cc))

  stalled :
      (bytes : List ℕ) (s : FaultTransport Transport) (inner : Transport) (r : WriteResult)
      → io.write s.inner bytes ≡ (inner, r)
      → 0 < length bytes
      → TakesNone bytes r
      → Passes bytes s (record s { inner = inner }, failed transport_error)
  unfolding Passes
  stalled bytes s inner r e pos none_taken = (
    [],
    not_taken bytes e none_taken no_more,
    aside s inner,
    λ f. absurd cc,
    λ g k. (sym (cc), (s.inner, bytes, r, e, pos, none_taken)),
  )

  forward_round-Passes :
      (next : ℕ → Run (FaultTransport Transport) (Unit {0})) (frame : List ℕ) (offset : ℕ)
      (s : FaultTransport Transport) (r : Transport × WriteResult)
      → io.write s.inner (drop offset frame) ≡ r
      → 0 < length (drop offset frame)
      → ((n : ℕ) (s' : FaultTransport Transport)
          → n ≤ length (drop offset frame)
          → 0 < n
          → Passes (drop (offset + n) frame) s' (next (offset + n) s'))
      → Passes (drop offset frame) s (forward_round io next offset s r)
  forward_round-Passes next frame offset s (inner, write_failed) e pos continued =
      stalled (drop offset frame) s inner write_failed e pos (inl tt)
  forward_round-Passes next frame offset s (inner, wrote_negative) e pos continued =
      stalled (drop offset frame) s inner wrote_negative e pos (inl tt)
  forward_round-Passes next frame offset s (inner, wrote n) e pos continued =
      elim (Bool-cases (n == 0)) [
        | inl nothing ↦
            simp nothing
              (stalled (drop offset frame) s inner (wrote n) e pos (inr (wrote_zero n nothing)))
        | inr some_bytes ↦ simp some_bytes (
            unfold Passes in
            let (sent, writes, kept, all, ends) =
              continued n (record s { inner = inner }) (honest _ _ _ n e) (ground arith) in
            (
              take n (drop offset frame) ++ sent,
              taken (drop offset frame) n e (honest _ _ _ n e) writes,
              IsKept-trans s (record s { inner = inner }) _ (aside s inner) kept,
              λ f.
                  ap (λ l. take n (drop offset frame) ++ l) (all f ∙ sym (drop-drop n offset frame))
                  ∙ take-append-drop n (drop offset frame),
              ends,
            ))
      ]

  forward_loop-Passes :
      (fuel : ℕ) (frame : List ℕ) (offset : ℕ) (s : FaultTransport Transport)
      → length frame < fuel + offset
      → offset ≤ length frame
      → Passes (drop offset frame) s (forward_loop io fuel frame offset s)
  unfolding forward_loop
  forward_loop-Passes zero frame offset s h within = unfold Passes in absurd (omega arith)
  forward_loop-Passes (suc fuel) frame offset s h within =
      elim (Bool-cases (ltb offset (length frame))) [
        | inl more ↦ rw more (
            forward_round-Passes (forward_loop io fuel frame) frame offset s _ refl
              (omega (arith, length-drop offset frame, ltb-true→lt offset (length frame) more))
              (λ n s' fits pos.
                forward_loop-Passes fuel frame (offset + n) s' (omega arith)
                  (omega (arith, length-drop offset frame))))
        | inr over ↦
            rw (over, drop_all offset frame (ltb-false→le offset (length frame) over))
              (Passes-none s)
      ]

  pub forward_tx-Passes :
      (frame : List ℕ) (s : FaultTransport Transport) → Passes frame s (forward_tx io frame s)
  unfolding forward_tx Passes
  forward_tx-Passes frame s =
      counted _ (forward_loop-Passes (suc (length frame)) frame 0 s (omega arith) (omega arith))
    where
      counted :
          (r : FaultTransport Transport × Answer (Unit {0}))
          → Passes frame s r
          → Passes frame s
              (continue_with (λ _. modify (λ t. record t { tx = count_forwarded t.tx })) r)
      counted (s', done u) (sent, writes, kept, all, ends) = (
        sent,
        writes,
        IsKept-trans s s' _ kept (counted_aside s'),
        λ e. all refl,
        λ f e. absurd cc,
      )
      counted (s', failed e) (sent, writes, kept, all, ends) =
          (sent, writes, kept, λ f. absurd cc, λ g k. ends g (cc))
