-- ===== src/Session/Flush.antt =====
-- `HostSession._flush_tx` of host/src/navbench/session.py writes the transmit buffer in order, and
-- ends.
use navbench.Common.{
  ℕ, zero, suc, ◌+◌, ◌≤◌, ◌<◌, ◌≡◌, ◌≢◌, refl, sym, ap, ◌∙◌, Bool, true, false, List, [], ◌∷◌, ◌++◌,
  length, take, drop, append_assoc, ltb, ◌==◌, if◌then◌else◌, length-append, length-drop,
  take-append-drop, length-take, Bool-cases, ltb-false→le, ltb-true→lt, arith, ◌⊎◌, inl, inr,
}
use navbench.Protocol.Packet.{is_empty}
use navbench.Transport.Interface.{ByteTransport, WriteResult, wrote, wrote_negative, write_failed}
use navbench.Transport.Writes.{
  Writes, no_more, not_taken, taken, TakesNone, Breaks, Stalls, wrote_zero,
}
use navbench.Session.Run.{Run, Answer, done, failed, out_of_fuel, SessionFailure, after_if, if_both}
use navbench.Session.Types.{SessionState, Session, SessionStats, error}
use navbench.Session.Send.{set_state, set_stats, flush_round, flush_loop, flush_tx}

not_empty : (l : List ℕ) → is_empty l ≡ false → 0 < length l
not_empty [] e = cc
not_empty (x ∷ l) e = omega arith

empty_buffer : (l : List ℕ) → is_empty l ≡ true → l ≡ []
empty_buffer [] e = refl
empty_buffer (x ∷ l) e = absurd cc

module _ (io : ByteTransport) where
  open io use {Transport, write, read}

  -- The bytes that were taken are the front of the buffer, and are counted; what is left is kept,
  -- nothing unless the last call was a write that took none of it.
  unfoldable pub Flushed : Session Transport → Session Transport × Answer (Unit {0}) → Type 0
  Flushed s r =
      (sent : List ℕ) × Writes io s.transport sent (r.0.transport)
      × (s.tx_buffer ≡ sent ++ r.0.tx_buffer)
      × (r.0.stats.tx_bytes ≡ s.stats.tx_bytes + length sent)
      × ((r.0.tx_buffer ≡ []) ⊎ Stalls io (r.0.transport))
      × (r.1 ≢ failed out_of_fuel)

  -- A write of some bytes, and the rest of the loop.
  Flushed-next :
      (s : Session Transport) (t : Transport) (n : ℕ) (r : Session Transport × Answer (Unit {0}))
      → write s.transport s.tx_buffer ≡ (t, wrote n)
      → n ≤ length s.tx_buffer
      → Flushed
          (record s {
            transport = t;
            tx_buffer = drop n s.tx_buffer;
            stats = record s.stats { tx_bytes = s.stats.tx_bytes + n };
          })
          r
      → Flushed s r
  unfolding Flushed
  Flushed-next s t n r e fits (sent, writes, cut, counted, drained, ends) = (
    take n s.tx_buffer ++ sent,
    taken s.tx_buffer n e fits writes,
    sym (take-append-drop n s.tx_buffer)
        ∙ ap (λ l. take n s.tx_buffer ++ l) cut
        ∙ sym (append_assoc (take n s.tx_buffer) sent (r.0.tx_buffer)),
    omega (arith, counted, length-append (take n s.tx_buffer) sent, length-take n s.tx_buffer),
    drained,
    ends,
  )

  flush_round-Flushed :
      (next : Run (Session Transport) (Unit {0})) (s : Session Transport)
      (r : Transport × WriteResult)
      → write s.transport s.tx_buffer ≡ r
      → ((s' : Session Transport) → length s'.tx_buffer < length s.tx_buffer → Flushed s' (next s'))
      → (0 < length s.tx_buffer)
      → Flushed s (flush_round io next s r)
  flush_round-Flushed next s (t, write_failed) e continued h =
      unfold Flushed in
      (
        [],
        not_taken s.tx_buffer e (inl tt) no_more,
        refl,
        omega arith,
        inr (s.transport, s.tx_buffer, _, e, h, (inl tt)),
        λ o. cc,
      )
  flush_round-Flushed next s (t, wrote_negative) e continued h =
      unfold Flushed in
      (
        [],
        not_taken s.tx_buffer e (inl tt) no_more,
        refl,
        omega arith,
        inr (s.transport, s.tx_buffer, _, e, h, (inl tt)),
        λ o. cc,
      )
  flush_round-Flushed next s (t, wrote n) e continued h =
      elim (Bool-cases (ltb (length s.tx_buffer) n)) [
        | inl more ↦ simp more (
            unfold Flushed in
            (
              [],
              not_taken s.tx_buffer e (inl (ltb-true→lt (length s.tx_buffer) n more)) no_more,
              refl,
              omega arith,
              inr (
                s.transport,
                s.tx_buffer,
                _,
                e,
                h,
                inl (ltb-true→lt (length s.tx_buffer) n more),
              ),
              λ o. cc,
            ))
        | inr fits ↦ elim (Bool-cases (n == 0)) [
          | inl nothing ↦
              simp (fits, nothing)
                (unfold Flushed in
                  (
                    [],
                    not_taken s.tx_buffer e (inr (wrote_zero n nothing)) no_more,
                    refl,
                    omega arith,
                    inr (s.transport, s.tx_buffer, _, e, h, inr (wrote_zero n nothing)),
                    λ o. cc,
                  ))
          | inr some_bytes ↦
              simp (fits, some_bytes)
                (Flushed-next s t n _ e (ltb-false→le (length s.tx_buffer) n fits)
                  (continued _ (ground (arith, length-drop n s.tx_buffer))))
        ]
      ]

  flush_loop-Flushed :
      (fuel : ℕ) (s : Session Transport)
      → length s.tx_buffer < fuel
      → Flushed s (flush_loop io fuel s)
  unfolding flush_loop
  flush_loop-Flushed zero s h = absurd (omega arith)
  flush_loop-Flushed (suc fuel) s h = split (is_empty s.tx_buffer) refl (λ more.
      flush_round-Flushed (flush_loop io fuel) s (write s.transport s.tx_buffer) refl
        (λ s' shorter. flush_loop-Flushed fuel s' (omega arith)) more)
    where
      split :
          (b : Bool)
          → is_empty s.tx_buffer ≡ b
          → (0 < length s.tx_buffer
              → Flushed s (flush_round io (flush_loop io fuel) s (write s.transport s.tx_buffer)))
          → Flushed s (
              if b
              then (s, done tt)
              else flush_round io (flush_loop io fuel) s (write s.transport s.tx_buffer))
      split true e k =
          unfold Flushed in
          ([], no_more, refl, omega arith, inl (empty_buffer s.tx_buffer e), λ o. cc)
      split false e k = k (not_empty s.tx_buffer e)

  -- One flush gives the transport the front of the buffer, in order and with nothing twice, counts
  -- these bytes, and keeps the rest in the buffer; its loop always ends, with an empty buffer or
  -- behind a write of some bytes that raised, returned an impossible number or took none of them.
  pub flush_tx-Flushed : (s : Session Transport) → Flushed s (flush_tx io s)
  unfolding flush_tx
  flush_tx-Flushed s = flush_loop-Flushed (suc (length s.tx_buffer)) s (omega arith)

  -- What a flush may do to a session: a property that these changes keep survives it.
  pub record IsFlushStable (P : Session Transport → Type 0) : Type 0 where
    pub of_refused :
        (s : Session Transport) (t : Transport) (r : WriteResult)
        → write s.transport s.tx_buffer ≡ (t, r)
        → TakesNone s.tx_buffer r
        → P s
        → P (record s { transport = t })
    pub of_written :
        (s : Session Transport) (t : Transport) (n : ℕ)
        → write s.transport s.tx_buffer ≡ (t, wrote n)
        → n ≤ length s.tx_buffer
        → P s
        → P (record s { transport = t; tx_buffer = drop n s.tx_buffer })
    pub of_stats : (s : Session Transport) (stats : SessionStats) → P s → P (set_stats stats s)
    pub of_error : (s : Session Transport) → P s → P (set_state error s)

  module _ (P : Session Transport → Type 0) (stable : IsFlushStable P) where
    open stable use {of_refused, of_written, of_stats, of_error}

    flush_round-keeps :
        (next : Run (Session Transport) (Unit {0})) (s : Session Transport)
        (r : Transport × WriteResult)
        → write s.transport s.tx_buffer ≡ r
        → ((s' : Session Transport) → P s' → P ((next s').0))
        → P s
        → P ((flush_round io next s r).0)
    flush_round-keeps next s (t, write_failed) e continued h =
        of_stats _ _ (of_error _ (of_refused s t write_failed e (inl tt) h))
    flush_round-keeps next s (t, wrote_negative) e continued h =
        of_error _ (of_refused s t wrote_negative e (inl tt) h)
    flush_round-keeps next s (t, wrote n) e continued h =
        elim (Bool-cases (ltb (length s.tx_buffer) n)) [
          | inl more ↦ simp more (
              of_error _
                (of_refused s t (wrote n) e (inl (ltb-true→lt (length s.tx_buffer) n more)) h))
          | inr fits ↦ elim (Bool-cases (n == 0)) [
            | inl nothing ↦
                simp (fits, nothing) (of_refused s t (wrote n) e (inr (wrote_zero n nothing)) h)
            | inr some_bytes ↦
                simp (fits, some_bytes)
                  (continued _ (
                    of_stats _ _ (of_written s t n e (ltb-false→le (length s.tx_buffer) n fits) h)))
          ]
        ]

    flush_loop-keeps : (fuel : ℕ) (s : Session Transport) → P s → P ((flush_loop io fuel s).0)
    unfolding flush_loop
    flush_loop-keeps zero s h = h
    flush_loop-keeps (suc fuel) s h =
        after_if P (is_empty s.tx_buffer) (s, done tt) _ h
          (flush_round-keeps (flush_loop io fuel) s (write s.transport s.tx_buffer) refl
            (flush_loop-keeps fuel) h)

    pub flush_tx-keeps : (s : Session Transport) → P s → P ((flush_tx io s).0)
    unfolding flush_tx
    flush_tx-keeps s h = flush_loop-keeps (suc (length s.tx_buffer)) s h

  -- A flush that returns leaves the state as it is; one that raises leaves the session in its error
  -- state, behind a broken write.
  unfoldable pub Concludes : SessionState → Session Transport × Answer (Unit {0}) → Type 0
  Concludes state (s, done u) = s.state ≡ state
  Concludes state (s, failed e) = ((s.state ≡ error) × Breaks io s.transport) ⊎ (e ≡ out_of_fuel)

  Concludes-same :
      (a b : SessionState) (r : Session Transport × Answer (Unit {0}))
      → a ≡ b
      → Concludes a r
      → Concludes b r
  Concludes-same a b r same c = rw⁻¹ same c

  flush_round-Concludes :
      (next : Run (Session Transport) (Unit {0})) (s : Session Transport)
      (r : Transport × WriteResult)
      → write s.transport s.tx_buffer ≡ r
      → ((s' : Session Transport) → s'.state ≡ s.state → Concludes s.state (next s'))
      → Concludes s.state (flush_round io next s r)
  unfolding Concludes
  flush_round-Concludes next s (t, write_failed) e continued =
      inl (refl, (s.transport, s.tx_buffer, write_failed, e, tt))
  flush_round-Concludes next s (t, wrote_negative) e continued =
      inl (refl, (s.transport, s.tx_buffer, wrote_negative, e, tt))
  flush_round-Concludes next s (t, wrote n) e continued =
      elim (Bool-cases (ltb (length s.tx_buffer) n)) [
        | inl more ↦ simp more (
            inl (
              refl,
              (s.transport, s.tx_buffer, wrote n, e, ltb-true→lt (length s.tx_buffer) n more),
            ))
        | inr fits ↦ simp fits (if_both (Concludes s.state) (n == 0) _ _ refl (continued _ refl))
      ]

  flush_loop-Concludes :
      (fuel : ℕ) (s : Session Transport) → Concludes s.state (flush_loop io fuel s)
  unfolding flush_loop Concludes
  flush_loop-Concludes zero s = inr refl
  flush_loop-Concludes (suc fuel) s =
      if_both (Concludes s.state) (is_empty s.tx_buffer) (s, done tt) _ refl
        (flush_round-Concludes (flush_loop io fuel) s (write s.transport s.tx_buffer) refl
          (λ s' same.
            Concludes-same s'.state s.state (flush_loop io fuel s') same
              (flush_loop-Concludes fuel s')))

  pub flush_tx-Concludes : (s : Session Transport) → Concludes s.state (flush_tx io s)
  unfolding flush_tx
  flush_tx-Concludes s = flush_loop-Concludes (suc (length s.tx_buffer)) s

  Concludes-failed :
      (state : SessionState) (r : Session Transport × Answer (Unit {0})) (e : SessionFailure)
      → r.1 ≡ failed e
      → r.1 ≢ failed out_of_fuel
      → Concludes state r
      → (r.0.state ≡ error) × Breaks io (r.0.transport)
  unfolding Concludes
  Concludes-failed state (s, done u) e h ends k = absurd cc
  Concludes-failed state (s, failed f) e h ends (inl stopped) = stopped
  Concludes-failed state (s, failed f) e h ends (inr fuel) = absurd (ends (ap failed fuel))

  -- A flush that raises leaves the session in its error state, behind a broken write.
  pub flush_tx_failed :
      (s : Session Transport) (e : SessionFailure)
      → (flush_tx io s).1 ≡ failed e
      → ((flush_tx io s).0.state ≡ error) × Breaks io ((flush_tx io s).0.transport)
  unfolding Flushed
  flush_tx_failed s e h =
      let (sent, writes, cut, counted, drained, ends) = flush_tx-Flushed s in
      Concludes-failed s.state (flush_tx io s) e h ends (flush_tx-Concludes s)
