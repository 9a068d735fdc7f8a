-- ===== src/Transport/FaultTransport/Reading.antt =====
-- The reading side of `DeterministicFaultTransport` (host/src/navbench/transport.py) without a
-- fault.
use navbench.Common.{
  ℕ, zero, suc, ◌≤◌, ◌<◌, ◌≡◌, ◌≢◌, false, Bool-cases, refl, sym, ap, ◌∙◌, ◌⊎◌, inl, inr, some,
  List, [], ◌∷◌, ◌++◌, length, take, drop, length-take, take-append-drop, append-nil, append_assoc,
  ne→==, arith,
}
use navbench.Protocol.Packet.{is_empty}
use navbench.Transport.Interface.{ByteTransport, ReadResult, received, read_failed}
use navbench.Transport.Memory.Pending.{joined}
use navbench.Transport.Fault.{
  Direction, apply_fault, apply_rx_fault, forward_rx, release_loop, release_due_rx,
}
use navbench.Transport.Frames.{take_complete_frames-Cut}
use navbench.Session.Run.{transport_error, Answer, done, failed, Run, continue_with}
use navbench.Transport.FaultTransport.{
  healthy, count_forwarded, FaultTransport, release_rx, receive_frames, with_rx, fill_round,
  fill_loop, read_bytes, take_ready,
}
use navbench.Transport.FaultTransport.Healthy.{Cut-joined}

apply_rx_fault-healthy :
    (step_id : ℕ) (frame ready : List ℕ) (d : Direction)
    → d.state ≡ healthy
    → apply_rx_fault step_id frame (d, ready)
      ≡ (count_forwarded (record d { previous_frame = some frame }), ready ++ frame)
unfolding apply_rx_fault apply_fault forward_rx
apply_rx_fault-healthy step_id frame ready d h = simp h

not_empty : (l : List ℕ) → is_empty l ≡ false → l ≢ []
not_empty [] e f = absurd cc
not_empty (x ∷ l) e f = cc

take_some : (n : ℕ) (l : List ℕ) → 0 < n → l ≢ [] → take n l ≢ []
take_some n [] pos h e = h refl
take_some zero (x ∷ l) pos h e = omega arith
take_some (suc n) (x ∷ l) pos h e = cc

receive_frames-healthy :
    {T : Type 0} (frames : List (List ℕ)) (s : FaultTransport T)
    → s.rx.state ≡ healthy
    → (d : Direction) × (d.state ≡ healthy)
      × (receive_frames frames s ≡ record s { rx = d; rx_ready = s.rx_ready ++ joined frames })
unfolding receive_frames
receive_frames-healthy [] s h =
    (s.rx, h, ap (λ l. record s { rx_ready = l }) (sym (append-nil s.rx_ready)))
receive_frames-healthy (frame ∷ frames) s h =
    let passed = count_forwarded (record s.rx { previous_frame = some frame }) in
    let s' = record s { rx = passed; rx_ready = s.rx_ready ++ frame } in
    let (d, well, e) = receive_frames-healthy frames s' h in
    (
      d,
      well,
      ap (λ r. receive_frames frames (with_rx s r))
            (apply_rx_fault-healthy s.step_id frame s.rx_ready s.rx h)
          ∙ e
          ∙ ap (λ l. record s { rx = d; rx_ready = l })
              (append_assoc s.rx_ready frame (joined frames)),
    )

module _ (io : ByteTransport) where
  open io use {Transport, read}

  -- Reads of a transport, with the bytes that it returned.
  pub data Reads : Transport → List ℕ → Transport → Type 0 where
    none_read : {t : Transport} → Reads t [] t
    read_error :
        {t u v : Transport} {rest : List ℕ} (max_bytes : ℕ)
        → read t max_bytes ≡ (u, read_failed)
        → Reads u rest v
        → Reads t rest v
    some_read :
        {t u v : Transport} {rest : List ℕ} (max_bytes : ℕ) (bytes : List ℕ)
        → read t max_bytes ≡ (u, received bytes)
        → Reads u rest v
        → Reads t (bytes ++ rest) v

  -- No read returns bytes more often than `remaining` says.
  abbrev pub IsFinite : (Transport → ℕ) → Type 0
  IsFinite remaining =
      (t u : Transport) (max_bytes byte : ℕ) (bytes : List ℕ)
      → read t max_bytes ≡ (u, received (byte ∷ bytes))
      → remaining u < remaining t

  -- The last call was a read that raised.
  abbrev pub Raises : Transport → Type 0
  Raises u = (t : Transport) × (max_bytes : ℕ) × (read t max_bytes ≡ (u, read_failed))

  -- The last call was a read that returned nothing.
  abbrev pub Dry : Transport → Type 0
  Dry u = (t : Transport) × (max_bytes : ℕ) × (read t max_bytes ≡ (u, received []))

  -- Bytes that the inner transport returns join those that are ready or wait for a delimiter.
  Fills : FaultTransport Transport → FaultTransport Transport × Answer (Unit {0}) → Type 0
  Fills s r =
      (got : List ℕ) × Reads s.inner got (r.0.inner)
      × (s.rx_ready ++ (s.rx_input ++ got) ≡ r.0.rx_ready ++ r.0.rx_input)
      × (((r.1 ≡ done tt) × ((r.0.rx_ready ≢ []) ⊎ Dry (r.0.inner)))
          ⊎ ((r.1 ≡ failed transport_error) × Raises (r.0.inner)))

  module _ (remaining : Transport → ℕ) (finite : IsFinite remaining) where
    fill_round-Fills :
        (max_bytes : ℕ) (next : Run (FaultTransport Transport) (Unit {0}))
        (s : FaultTransport Transport) (r : Transport × ReadResult)
        → read s.inner max_bytes ≡ r
        → s.rx.state ≡ healthy
        → ((s' : FaultTransport Transport)
            → s'.rx.state ≡ healthy
            → remaining s'.inner < remaining s.inner
            → Fills s' (next s'))
        → Fills s (fill_round io next s r)
    unfolding Fills
    fill_round-Fills max_bytes next s (inner, read_failed) e h continued = (
      [],
      read_error max_bytes e none_read,
      ap (λ l. s.rx_ready ++ l) (append-nil s.rx_input),
      inr (refl, (s.inner, max_bytes, e)),
    )
    fill_round-Fills max_bytes next s (inner, received []) e h continued = (
      [],
      some_read max_bytes [] e none_read,
      ap (λ l. s.rx_ready ++ l) (append-nil s.rx_input),
      inl (refl, inr (s.inner, max_bytes, e)),
    )
    fill_round-Fills max_bytes next s (inner, received (byte ∷ bytes)) e h continued =
        let input = s.rx_input ++ (byte ∷ bytes) in
        let (frames, rest, taken, cut) = take_complete_frames-Cut input in
        let (d, well, same) =
          receive_frames-healthy frames (record s { inner = inner; rx_input = rest }) h in
        let s' = record s {
          inner = inner;
          rx_input = rest;
          rx = d;
          rx_ready = s.rx_ready ++ joined frames;
        } in
        let (got, reads, stream, ended) = continued s' well (finite _ _ max_bytes byte bytes e) in
        rw taken (
          rw same (
            (byte ∷ bytes) ++ got,
            some_read max_bytes (byte ∷ bytes) e reads,
            ap (λ l. s.rx_ready ++ l)
                  (sym (append_assoc s.rx_input (byte ∷ bytes) got)
                    ∙ ap (λ l. l ++ got) (Cut-joined cut)
                    ∙ append_assoc (joined frames) rest got)
                ∙ sym (append_assoc s.rx_ready (joined frames) (rest ++ got))
                ∙ stream,
            ended,
          ))

    fill_loop-Fills :
        (fuel max_bytes : ℕ) (s : FaultTransport Transport)
        → s.rx.state ≡ healthy
        → remaining s.inner < fuel
        → Fills s (fill_loop io fuel max_bytes s)
    unfolding fill_loop
    fill_loop-Fills zero max_bytes s h enough = absurd (omega arith)
    fill_loop-Fills (suc fuel) max_bytes s h enough = elim (Bool-cases (is_empty s.rx_ready)) [
      | inl nothing ↦ rw nothing (
          fill_round-Fills max_bytes (fill_loop io fuel max_bytes) s (read s.inner max_bytes) refl h
            (λ s' well fewer. fill_loop-Fills fuel max_bytes s' well (omega arith)))
      | inr some_bytes ↦ rw some_bytes (
          unfold Fills in
          (
            [],
            none_read,
            ap (λ l. s.rx_ready ++ l) (append-nil s.rx_input),
            inl (refl, inl (not_empty s.rx_ready some_bytes)),
          ))
    ]

release_loop-none :
    (step_id : ℕ) (waiting : List (ℕ × List ℕ)) (d : Direction) (ready : List ℕ)
    → waiting ≡ []
    → release_loop step_id waiting (d, ready) ≡ (record d { delayed = [] }, ready)
unfolding release_loop
release_loop-none step_id waiting d ready e = rw e refl

release_rx-none :
    {T : Type 0} (s : FaultTransport T)
    → s.rx.delayed ≡ []
    → release_rx s ≡ record s { rx = record s.rx { delayed = [] } }
unfolding release_due_rx
release_rx-none s e = ap (with_rx s) (release_loop-none s.step_id s.rx.delayed s.rx s.rx_ready e)

module _ (io : ByteTransport) where
  open io use {Transport}

  -- What the inner transport returned follows what was kept; the answer is the front of it, no more
  -- than was asked for, and the rest is kept. Or the last read of the
  -- inner transport raised.
  pub ReadsOn :
      (max_bytes : ℕ)
      → FaultTransport Transport
      → FaultTransport Transport × Answer (List ℕ)
      → Type 0
  ReadsOn max_bytes s r =
      (got : List ℕ) × Reads io s.inner got (r.0.inner)
      × (((out : List ℕ) × (r.1 ≡ done out)
            × (length out ≤ max_bytes)
            × ((out ≢ []) ⊎ Dry io (r.0.inner))
            × (s.rx_ready ++ (s.rx_input ++ got) ≡ out ++ (r.0.rx_ready ++ r.0.rx_input)))
          ⊎ ((r.1 ≡ failed transport_error) × Raises io (r.0.inner)))

  answered :
      (max_bytes : ℕ) (s : FaultTransport Transport)
      → 0 < max_bytes
      → (s.rx_ready ≢ []) ⊎ Dry io s.inner
      → (take max_bytes s.rx_ready ≢ []) ⊎ Dry io s.inner
  answered max_bytes s pos (inl ready) = inl (take_some max_bytes s.rx_ready pos ready)
  answered max_bytes s pos (inr dry) = inr dry

  ReadsOn-ready :
      (max_bytes : ℕ) (s : FaultTransport Transport)
      (r : FaultTransport Transport × Answer (Unit {0}))
      → 0 < max_bytes
      → Fills io s r
      → ReadsOn max_bytes s (continue_with (λ _. take_ready io max_bytes) r)
  unfolding Fills ReadsOn
  ReadsOn-ready max_bytes s (s', done u) pos (got, reads, stream, inr ended) =
      absurd (let e = ended.0 in cc)
  ReadsOn-ready max_bytes s (s', done u) pos (got, reads, stream, inl (returned, ready)) = (
    got,
    reads,
    inl (
      take max_bytes s'.rx_ready,
      refl,
      omega (arith, length-take max_bytes s'.rx_ready),
      answered max_bytes s' pos ready,
      stream
          ∙ ap (λ l. l ++ s'.rx_input) (sym (take-append-drop max_bytes s'.rx_ready))
          ∙ append_assoc (take max_bytes s'.rx_ready) (drop max_bytes s'.rx_ready) s'.rx_input,
    ),
  )
  ReadsOn-ready max_bytes s (s', failed e) pos (got, reads, stream, inl (returned, ready)) =
      absurd cc
  ReadsOn-ready max_bytes s (s', failed e) pos (got, reads, stream, inr (raised, behind)) = (
    got,
    reads,
    inr (
      ap (λ (a : Answer (Unit {0})). (continue_with (λ _. take_ready io max_bytes) (s', a)).1)
          raised,
      behind,
    ),
  )

  -- A healthy link on which no frame waits, over an inner transport that has bytes a limited number
  -- of times: read ends, with more rounds than that. It returns the bytes as they came, those that
  -- were ready or waited for a delimiter first, as many as were asked for at most, and keeps the
  -- rest, and returns none only if the last read of the inner transport returned none; or it raises
  -- a transport error, and the last call of the inner transport was a read that raised.
  pub read_bytes-ReadsOn :
      (remaining : Transport → ℕ) (fuel max_bytes : ℕ) (s : FaultTransport Transport)
      → IsFinite io remaining
      → 0 < max_bytes
      → s.rx.state ≡ healthy
      → s.rx.delayed ≡ []
      → remaining s.inner < fuel
      → ReadsOn max_bytes s (read_bytes io fuel max_bytes s)
  unfolding read_bytes ReadsOn
  read_bytes-ReadsOn remaining fuel max_bytes s finite pos h e enough =
      let s' = record s { rx = record s.rx { delayed = [] } } in
      rw (ne→== max_bytes 0 (omega arith)) (
        rw (release_rx-none s e) (
          ReadsOn-ready max_bytes s' (fill_loop io fuel max_bytes s') pos
            (fill_loop-Fills io remaining finite fuel max_bytes s' h enough)))
