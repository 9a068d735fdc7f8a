-- ===== src/Sensors/Delivery.antt =====
-- When `SensorPipeline` (host/src/navbench/sensors.py) delivers measurements, and that a recording of
-- them can be replayed (host/src/navbench/runlog.py).
use navbench.Common.{
  ==-true→eq, leb-false→lt, leb-true→le, ℕ, ◌+◌, ◌≤◌, ◌≡◌, refl, ◌∙◌, inl, inr, All, Bool, true,
  false, List, [], ◌∷◌, ◌++◌, append_assoc, ltb, leb, Bool-cases, ◌==◌, ◌||◌, ◌&&◌, arith,
}
use navbench.Sensors.{
  Measurement, Statistics, Entry, SensorPipeline, Sample, new_pipeline, before, push, measured,
  record_or_drop, record_samples, deliver, release, advance, step, after_step, drain, drain_pending,
  run_steps,
}
use navbench.Replay.{exhausted, measurement_batches}
use navbench.Replay.Grouping.{InOrder, Yields, Replayed, flatten, measurement_batches-Replayed}

test_le : (a b c d : ℕ) → (ltb a b || (a == b && ltb c d)) ≡ true → a ≤ b
test_le a b c d h = ground arith

test_ge : (a b c d : ℕ) → (ltb a b || (a == b && ltb c d)) ≡ false → b ≤ a
test_ge a b c d h = ground arith

module _ {R : Type 0} where
  -- Entries whose due steps are those of their measurements, from `n` on, and never decrease.
  Queue : ℕ → List (Entry R) → Type 0
  Queue n [] = Unit {0}
  Queue n (e ∷ es) = (n ≤ e.due) × (e.measurement.delivery_step_id ≡ e.due) × Queue e.due es

  Queue-weaken : (n m : ℕ) (es : List (Entry R)) → n ≤ m → Queue m es → Queue n es
  unfolding Queue
  Queue-weaken n m [] h q = tt
  Queue-weaken n m (e ∷ es) h (from, own, rest) = (omega arith, own, rest)

  Queue-push :
      (n : ℕ) (e : Entry R) (es : List (Entry R))
      → n ≤ e.due
      → e.measurement.delivery_step_id ≡ e.due
      → Queue n es
      → Queue n (push e es)
  unfolding Queue push
  Queue-push n e [] h own q = (h, own, tt)
  Queue-push n e (x ∷ xs) h own (from, own', rest) = elim (Bool-cases (before e x)) [
    | inl first ↦ rw first (h, own, (test_le e.due x.due e.ordinal x.ordinal first, own', rest))
    | inr later ↦
        rw later (
          from,
          own',
          Queue-push x.due e xs (test_ge e.due x.due e.ordinal x.ordinal later) own rest,
        )
  ]

  record_or_drop-Queue :
      (n : ℕ) (m : Measurement R) (is_dropped : Bool) (p : SensorPipeline R)
      → n ≤ m.delivery_step_id
      → Queue n p.pending
      → Queue n ((record_or_drop m is_dropped p).pending)
  unfolding record_or_drop
  record_or_drop-Queue n m true p h q = q
  record_or_drop-Queue n m false p h q = Queue-push n _ p.pending h refl q

  record_samples-Queue :
      (step_id : ℕ) (samples : List (Sample R)) (p : SensorPipeline R)
      → Queue step_id p.pending
      → Queue step_id ((record_samples step_id samples p).pending)
  unfolding record_samples
  record_samples-Queue step_id [] p q = q
  record_samples-Queue step_id (sample ∷ samples) p q =
      record_samples-Queue step_id samples _
        (record_or_drop-Queue step_id (measured step_id sample) sample.is_dropped p (omega arith) q)

  -- What is popped in a step is due in it, and what is left is due later.
  Pops : ℕ → List (Measurement R) × List (Entry R) × Statistics → Type 0
  Pops step_id (delivered, waiting, counted) =
      All (λ (m : Measurement R). m.delivery_step_id ≡ step_id) delivered
      × Queue (step_id + 1) waiting

  release-Pops :
      (step_id : ℕ) (es : List (Entry R)) (statistics : Statistics)
      → Queue step_id es
      → Pops step_id (release step_id es statistics)
  unfolding Pops Queue release
  release-Pops step_id [] statistics q = (tt, tt)
  release-Pops step_id (e ∷ es) statistics (from, own, rest) =
      elim (Bool-cases (leb e.due step_id)) [
        | inl is_due ↦
            let (dues, waits) =
              release-Pops step_id es (deliver e statistics)
                (Queue-weaken step_id e.due es from rest) in
            rw is_due ((omega (arith, own, leb-true→le _ _ is_due), dues), waits)
        | inr early ↦ rw early (tt, (omega (arith, leb-false→lt _ _ early), own, rest))
      ]

  drain-InOrder :
      (n : ℕ) (es : List (Entry R)) (statistics : Statistics)
      → Queue n es
      → InOrder n ((drain es statistics).0)
  unfolding Queue drain InOrder
  drain-InOrder n [] statistics q = tt
  drain-InOrder n (e ∷ es) statistics (from, own, rest) =
      (omega arith, rw own (drain-InOrder e.due es (deliver e statistics) rest))

  InOrder-append :
      (n : ℕ) (now later : List (Measurement R))
      → All (λ (m : Measurement R). m.delivery_step_id ≡ n) now
      → InOrder (n + 1) later
      → InOrder n (now ++ later)
  unfolding InOrder
  InOrder-append n [] [] h k = tt
  InOrder-append n [] (m ∷ later) h (from, rest) = (omega arith, rest)
  InOrder-append n (m ∷ now) later (own, h) k =
      (omega arith, rw own (InOrder-append n now later h k))

  record_or_drop-next_step :
      (m : Measurement R) (is_dropped : Bool) (p : SensorPipeline R)
      → (record_or_drop m is_dropped p).next_step ≡ p.next_step
  unfolding record_or_drop
  record_or_drop-next_step m true p = refl
  record_or_drop-next_step m false p = refl

  record_samples-next_step :
      (step_id : ℕ) (samples : List (Sample R)) (p : SensorPipeline R)
      → (record_samples step_id samples p).next_step ≡ p.next_step
  unfolding record_samples
  record_samples-next_step step_id [] p = refl
  record_samples-next_step step_id (sample ∷ samples) p =
      record_samples-next_step step_id samples _
      ∙ record_or_drop-next_step (measured step_id sample) sample.is_dropped p

  -- What a call delivers, and the queue that it leaves.
  abbrev Steps : ℕ → SensorPipeline R × List (Measurement R) → Type 0
  Steps n (p, delivered) =
      (after : (later : List (Measurement R))
        → InOrder p.next_step later
        → InOrder n (delivered ++ later))
      × Queue p.next_step p.pending

  InOrder-weaken : (n m : ℕ) (l : List (Measurement R)) → n ≤ m → InOrder m l → InOrder n l
  unfolding InOrder
  InOrder-weaken n m [] h k = tt
  InOrder-weaken n m (x ∷ l) h (from, rest) = (omega arith, rest)

  advance-Steps :
      (samples : List (Sample R)) (p : SensorPipeline R)
      → Queue p.next_step p.pending
      → Steps p.next_step (advance p.next_step samples p)
  unfolding advance Pops
  advance-Steps samples p q =
      let s = record_samples p.next_step samples (record p { next_step = p.next_step + 1 }) in
      let same =
        record_samples-next_step p.next_step samples (record p { next_step = p.next_step + 1 }) in
      let (dues, waits) =
        release-Pops p.next_step s.pending s.statistics
          (record_samples-Queue p.next_step samples (record p { next_step = p.next_step + 1 }) q) in
      (λ later k. InOrder-append p.next_step _ later dues (rw same at k), rw same waits)

  step-Steps :
      (step_id : ℕ) (samples : List (Sample R)) (p : SensorPipeline R)
      → Queue p.next_step p.pending
      → Steps p.next_step (after_step p (step step_id samples p))
  unfolding step
  step-Steps step_id samples p q = elim (Bool-cases (step_id == p.next_step)) [
    | inl next ↦ rw next (rw (==-true→eq step_id p.next_step next) (advance-Steps samples p q))
    | inr other ↦ rw other ((λ later k. k), q)
  ]

  -- All that a run delivers, and what is drained behind it.
  abbrev pub delivered_all : List (ℕ × List (Sample R)) → SensorPipeline R → List (Measurement R)
  delivered_all calls p = (run_steps calls p).1 ++ (drain_pending ((run_steps calls p).0)).1

  delivered_all-InOrder :
      (calls : List (ℕ × List (Sample R))) (p : SensorPipeline R)
      → Queue p.next_step p.pending
      → InOrder p.next_step (delivered_all calls p)
  unfolding run_steps drain_pending
  delivered_all-InOrder [] p q = drain-InOrder p.next_step p.pending p.statistics q
  delivered_all-InOrder ((step_id, samples) ∷ calls) p q =
      let result = after_step p (step step_id samples p) in
      let (after, waits) = step-Steps step_id samples p q in
      rw
        (append_assoc (result.1) ((run_steps calls (result.0)).1)
          ((drain_pending ((run_steps calls (result.0)).0)).1))
        (after _ (delivered_all-InOrder calls (result.0) waits))

  replays :
      (measurements : List (Measurement R))
      → InOrder 0 measurements
      → ((measurement_batches measurements).1 ≡ exhausted)
        × (flatten ((measurement_batches measurements).0) ≡ measurements)
  unfolding Replayed Yields
  replays measurements ordered = elim ((measurement_batches-Replayed measurements).1) [
    | inl (ended, again, all) ↦ (ended, all)
    | inr (ended, broken, front) ↦ absurd (broken ordered)
  ]

-- A recording of what a new pipeline delivers over any calls of step, those that raise included,
-- and of what is drained behind them, can be replayed: the measurements are ordered by their delivery steps, and the
-- batches that are read back hold all of them, in order.
pub run_steps-replays :
    {R : Type 0} (calls : List (ℕ × List (Sample R)))
    → InOrder 0 (delivered_all calls new_pipeline)
      × ((measurement_batches (delivered_all calls new_pipeline)).1 ≡ exhausted)
      × (flatten ((measurement_batches (delivered_all calls new_pipeline)).0)
          ≡ delivered_all calls new_pipeline)
run_steps-replays calls =
    let ordered = delivered_all-InOrder calls new_pipeline (unfold Queue in tt) in
    let (ended, all) = replays (delivered_all calls new_pipeline) ordered in (ordered, ended, all)
