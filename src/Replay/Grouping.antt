-- ===== src/Replay/Grouping.antt =====
-- What `RunReplay.measurement_batches` (host/src/navbench/runlog.py) yields.
use navbench.Common.{
  ==-false→ne, ==-true→eq, ℕ, ◌+◌, ◌≤◌, ◌<◌, ◌≡◌, ◌≢◌, refl, ap, ◌∙◌, ◌⊎◌, inl, inr, All, List, [],
  ◌∷◌, ◌++◌, append_assoc, ltb, ltb-true→lt, ltb-false→le, ◌==◌, Bool-cases, arith,
}
use navbench.Sensors.{Measurement}
use navbench.Replay.{
  Ending, exhausted, corrupt_run, Batches, yield_batch, batch_loop, measurement_batches,
}

module _ {R : Type 0} where
  -- Delivery steps from `n` on that never decrease.
  unfoldable pub InOrder : ℕ → List (Measurement R) → Type 0
  InOrder n [] = Unit {0}
  InOrder n (m ∷ measurements) = (n ≤ m.delivery_step_id) × InOrder m.delivery_step_id measurements

  -- Batches of increasing steps from `n` on, none empty, each of measurements of its step.
  pub Grouped : ℕ → Batches R → Type 0
  Grouped n [] = Unit {0}
  Grouped n ((step, batch) ∷ batches) =
      (n ≤ step)
      × (batch ≢ [])
      × All (λ (m : Measurement R). m.delivery_step_id ≡ step) batch
      × Grouped (step + 1) batches

  unfoldable pub flatten : Batches R → List (Measurement R)
  flatten [] = []
  flatten ((step, batch) ∷ batches) = batch ++ flatten batches

  -- All measurements are yielded, or the order is broken and what was yielded is their front.
  unfoldable pub Yields :
      ℕ → (measurements all : List (Measurement R)) → Batches R × Ending → Type 0
  Yields n measurements all r =
      ((r.1 ≡ exhausted) × InOrder n measurements × (flatten (r.0) ≡ all))
      ⊎ ((r.1 ≡ corrupt_run)
          × (InOrder n measurements → ⊥)
          × ((rest : List (Measurement R)) × (flatten (r.0) ++ rest ≡ all)))

  Grouped-weaken : (n m : ℕ) (batches : Batches R) → n ≤ m → Grouped m batches → Grouped n batches
  unfolding Grouped
  Grouped-weaken n m [] h g = tt
  Grouped-weaken n m ((step, batch) ∷ batches) h (from, nonempty, own, rest) =
      (omega arith, nonempty, own, rest)

  All-snoc :
      (P : Measurement R → Type 0) (batch : List (Measurement R)) (m : Measurement R)
      → All P batch
      → P m
      → All P (batch ++ (m ∷ []))
  All-snoc P [] m h k = (k, tt)
  All-snoc P (x ∷ batch) m (h, hs) k = (h, All-snoc P batch m hs k)

  snoc_not_nil : (batch : List (Measurement R)) (m : Measurement R) → batch ++ (m ∷ []) ≢ []
  snoc_not_nil [] m e = cc
  snoc_not_nil (x ∷ batch) m e = cc

  Loops : ℕ → (batch measurements : List (Measurement R)) → Type 0
  Loops current batch measurements =
      Grouped current ((batch_loop current batch measurements).0)
      × Yields current measurements (batch ++ measurements) (batch_loop current batch measurements)

  -- A measurement of a later step.
  Yields-other :
      (current : ℕ) (batch : List (Measurement R)) (m : Measurement R)
      (measurements : List (Measurement R)) (r : Batches R × Ending)
      → current < m.delivery_step_id
      → Yields m.delivery_step_id measurements (m ∷ measurements) r
      → Yields current
          (m ∷ measurements)
          (batch ++ (m ∷ measurements))
          (yield_batch (current, batch) r)
  unfolding Yields InOrder flatten
  Yields-other current batch m measurements (batches, ending) later (inl (ended, ordered, all)) =
      inl (ended, (omega arith, ordered), ap (λ l. batch ++ l) all)
  Yields-other current batch m measurements (batches, ending) later
        (inr (ended, broken, (rest, front))) =
      inr (
        ended,
        λ ordered. broken (ordered.1),
        (rest, append_assoc batch (flatten batches) rest ∙ ap (λ l. batch ++ l) front),
      )

  -- A measurement of the same step.
  Yields-same :
      (current : ℕ) (batch : List (Measurement R)) (m : Measurement R)
      (measurements : List (Measurement R)) (r : Batches R × Ending)
      → m.delivery_step_id ≡ current
      → Yields current measurements ((batch ++ (m ∷ [])) ++ measurements) r
      → Yields current (m ∷ measurements) (batch ++ (m ∷ measurements)) r
  unfolding Yields InOrder
  Yields-same current batch m measurements r e (inl (ended, ordered, all)) =
      inl (ended, (omega arith, rw e ordered), all ∙ append_assoc batch (m ∷ []) measurements)
  Yields-same current batch m measurements r e (inr (ended, broken, (rest, front))) = inr (
    ended,
    λ ordered. broken (rw e at (ordered.1)),
    (rest, front ∙ append_assoc batch (m ∷ []) measurements),
  )

  batch_loop-Loops :
      (current : ℕ) (batch measurements : List (Measurement R))
      → batch ≢ []
      → All (λ (m : Measurement R). m.delivery_step_id ≡ current) batch
      → Loops current batch measurements
  unfolding Loops batch_loop Grouped Yields InOrder flatten
  batch_loop-Loops current batch [] some_batch own =
      ((omega arith, some_batch, own, tt), inl (refl, tt, refl))
  batch_loop-Loops current batch (m ∷ measurements) some_batch own =
      elim (Bool-cases (ltb m.delivery_step_id current)) [
        | inl back ↦ rw back (
          tt,
          inr (
            refl,
            λ ordered. omega (arith, ordered.0, ltb-true→lt _ _ back),
            (batch ++ (m ∷ measurements), refl),
          ),
        )
        | inr ahead ↦ elim (Bool-cases (m.delivery_step_id == current)) [
          | inl same ↦
              let (grouped, yields) =
                batch_loop-Loops current (batch ++ (m ∷ [])) measurements (snoc_not_nil batch m)
                  (All-snoc _ batch m own (==-true→eq _ _ same)) in
              rw (ahead, same)
                (
                  grouped,
                  Yields-same current batch m measurements
                      (batch_loop current (batch ++ (m ∷ [])) measurements) (==-true→eq _ _ same)
                      yields,
                )
          | inr other ↦
              let later : current < m.delivery_step_id =
                omega (arith, ltb-false→le _ _ ahead, ==-false→ne _ _ other) in
              let (grouped, yields) =
                batch_loop-Loops m.delivery_step_id (m ∷ []) measurements (λ e. cc) (refl, tt) in
              rw (ahead, other)
                (
                  (omega arith, some_batch, own, Grouped-weaken _ _ _ (omega arith) grouped),
                  Yields-other current batch m measurements
                      (batch_loop m.delivery_step_id (m ∷ []) measurements) later yields,
                )
        ]
      ]

  unfoldable pub Replayed : List (Measurement R) → Batches R × Ending → Type 0
  Replayed measurements r = Grouped 0 (r.0) × Yields 0 measurements measurements r

  from_first :
      (m : Measurement R) (measurements : List (Measurement R)) (r : Batches R × Ending)
      → Yields m.delivery_step_id measurements (m ∷ measurements) r
      → Yields 0 (m ∷ measurements) (m ∷ measurements) r
  unfolding Yields InOrder
  from_first m measurements r (inl (ended, ordered, all)) = inl (ended, (omega arith, ordered), all)
  from_first m measurements r (inr (ended, broken, front)) =
      inr (ended, λ ordered. broken (ordered.1), front)

  -- Batches have increasing steps, none is empty, and each holds measurements of its step. If the
  -- delivery steps never decrease, the batches hold all measurements in order; else the generator
  -- raises, and what it has yielded is the front of the measurements.
  pub measurement_batches-Replayed :
      (measurements : List (Measurement R))
      → Replayed measurements (measurement_batches measurements)
  unfolding Replayed measurement_batches Loops
  measurement_batches-Replayed [] = (
    unfold Grouped in tt,
    unfold Yields in unfold InOrder in unfold flatten in inl (refl, tt, refl),
  )
  measurement_batches-Replayed (m ∷ measurements) =
      let (grouped, yields) =
        batch_loop-Loops m.delivery_step_id (m ∷ []) measurements (λ e. cc) (refl, tt) in
      (
        Grouped-weaken 0 m.delivery_step_id _ (omega arith) grouped,
        from_first m measurements (batch_loop m.delivery_step_id (m ∷ []) measurements) yields,
      )
