-- ===== src/Replay.antt =====
-- `RunReplay.measurement_batches` of host/src/navbench/runlog.py: the recorded measurements by the
-- step in which they were delivered.
pub mod Grouping
use navbench.Common.{ℕ, Option, none, some, List, [], ◌∷◌, ◌++◌, ltb, ◌==◌, if◌then◌else◌}
use navbench.Sensors.{Measurement}

-- How the generator ends: it is exhausted, or it raises CorruptRunError.
pub data Ending : Type 0 where
  exhausted corrupt_run : Ending

-- The batches that it has yielded.
abbrev pub Batches : Type 0 → Type 0
Batches R = List (ℕ × List (Measurement R))

module _ {R : Type 0} where
  abbrev pub yield_batch : ℕ × List (Measurement R) → Batches R × Ending → Batches R × Ending
  yield_batch batch (batches, ending) = (batch ∷ batches, ending)

  -- The loop, with a current step.
  unfoldable pub batch_loop : ℕ → List (Measurement R) → List (Measurement R) → Batches R × Ending
  batch_loop current batch [] = ((current, batch) ∷ [], exhausted)
  batch_loop current batch (m ∷ measurements) =
      let same = batch_loop current (batch ++ (m ∷ [])) measurements in
      let other = batch_loop m.delivery_step_id (m ∷ []) measurements in
      if ltb m.delivery_step_id current
      then ([], corrupt_run)
      else if m.delivery_step_id == current
      then same
      else yield_batch (current, batch) other

  -- The first measurement sets the current step.
  unfoldable pub measurement_batches : List (Measurement R) → Batches R × Ending
  measurement_batches [] = ([], exhausted)
  measurement_batches (m ∷ measurements) = batch_loop m.delivery_step_id (m ∷ []) measurements
