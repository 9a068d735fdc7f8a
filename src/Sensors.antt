-- ===== src/Sensors.antt =====
-- `SensorPipeline` of host/src/navbench/sensors.py: the queue of delayed measurements and the
-- counters. What a sensor reads is floating point, and is the parameter `R`.
pub mod Delivery
use navbench.Common.{
  ℕ, ◌+◌, Option, none, some, List, [], ◌∷◌, ◌++◌, Bool, true, false, ltb, leb, ◌==◌, ◌||◌, ◌&&◌,
  if◌then◌else◌,
}

pub data SensorKind : Type 0 where
  imu wheel_speed gnss landmark : SensorKind

-- What the classes of measurements share, and the rest of their fields.
pub record Measurement (R : Type 0) : Type 0 where
  pub kind : SensorKind
  pub sample_step_id : ℕ
  pub delivery_step_id : ℕ
  pub reading : R

-- `generated`, `delivered` and `dropped` of all kinds.
pub record SensorStats : Type 0 where
  pub generated : ℕ
  pub delivered : ℕ
  pub dropped : ℕ

-- The counters of each kind.
abbrev pub Statistics : Type 0
Statistics = SensorKind → SensorStats

abbrev pub same_kind : SensorKind → SensorKind → Bool
same_kind imu imu = true
same_kind wheel_speed wheel_speed = true
same_kind gnss gnss = true
same_kind landmark landmark = true
same_kind _ _ = false

-- One kind's counters are replaced.
abbrev pub count : SensorKind → (SensorStats → SensorStats) → Statistics → Statistics
count kind change statistics k = if same_kind kind k then change (statistics k) else statistics k

abbrev pub count_generated : SensorStats → SensorStats
count_generated c = record c { generated = c.generated + 1 }

abbrev pub count_dropped : SensorStats → SensorStats
count_dropped c = record c { dropped = c.dropped + 1 }

abbrev pub count_delivered : SensorStats → SensorStats
count_delivered c = record c { delivered = c.delivered + 1 }

-- An entry of the queue: when it is due, its ordinal, and the measurement.
pub record Entry (R : Type 0) : Type 0 where
  pub due : ℕ
  pub ordinal : ℕ
  pub measurement : Measurement R

pub record SensorPipeline (R : Type 0) : Type 0 where
  pub pending : List (Entry R)
  pub ordinal : ℕ
  -- one more than `_last_step`
  pub next_step : ℕ
  pub statistics : Statistics

-- What a sensor samples in a step: its reading, its delay in steps, and whether a dropout fault or
-- the draw drops it.
pub record Sample (R : Type 0) : Type 0 where
  pub kind : SensorKind
  pub reading : R
  pub delay_steps : ℕ
  pub is_dropped : Bool

module _ {R : Type 0} where
  abbrev pub new_pipeline : SensorPipeline R
  new_pipeline = record {
    pending = [];
    ordinal = 0;
    next_step = 0;
    statistics = λ k. record { generated = 0; delivered = 0; dropped = 0 };
  }

  -- The order of the tuples in the heap: ordinals differ, so that measurements are not compared.
  abbrev pub before : Entry R → Entry R → Bool
  before a b = ltb a.due b.due || (a.due == b.due && ltb a.ordinal b.ordinal)

  -- `heapq.heappush`, on the heap as the list of its entries in the order in which they are popped.
  unfoldable pub push : Entry R → List (Entry R) → List (Entry R)
  push e [] = e ∷ []
  push e (x ∷ xs) = let rest = push e xs in if before e x then e ∷ (x ∷ xs) else x ∷ rest

  -- `_delivery`: the delay is `max(0, ceil(latency / dt))` steps.
  abbrev pub measured : ℕ → Sample R → Measurement R
  measured step_id sample = record {
    kind = sample.kind;
    sample_step_id = step_id;
    delivery_step_id = step_id + sample.delay_steps;
    reading = sample.reading;
  }

  -- `_record_or_drop`
  unfoldable pub record_or_drop : Measurement R → Bool → SensorPipeline R → SensorPipeline R
  record_or_drop m true p = record p {
    statistics = count m.kind count_dropped (count m.kind count_generated p.statistics);
  }
  record_or_drop m false p = record p {
    ordinal = p.ordinal + 1;
    pending =
        push (record { due = m.delivery_step_id; ordinal = p.ordinal + 1; measurement = m })
          p.pending;
    statistics = count m.kind count_generated p.statistics;
  }

  -- The sensors of a step, one after the other.
  unfoldable pub record_samples : ℕ → List (Sample R) → SensorPipeline R → SensorPipeline R
  record_samples step_id [] p = p
  record_samples step_id (sample ∷ samples) p =
      record_samples step_id samples (record_or_drop (measured step_id sample) sample.is_dropped p)

  abbrev pub deliver : Entry R → Statistics → Statistics
  deliver e statistics = count e.measurement.kind count_delivered statistics

  -- The loop that pops the entries that are due.
  unfoldable pub release :
      ℕ → List (Entry R) → Statistics → List (Measurement R) × List (Entry R) × Statistics
  release step_id [] statistics = ([], [], statistics)
  release step_id (e ∷ pending) statistics =
      let (delivered, waiting, counted) = release step_id pending (deliver e statistics) in
      if leb e.due step_id
      then (e.measurement ∷ delivered, waiting, counted)
      else ([], e ∷ pending, statistics)

  abbrev pub released :
      SensorPipeline R
      → List (Measurement R) × List (Entry R) × Statistics
      → SensorPipeline R × List (Measurement R)
  released p (delivered, waiting, counted) =
      (record p { pending = waiting; statistics = counted }, delivered)

  -- `step` behind its tests, with what the sensors sample.
  unfoldable pub advance :
      ℕ → List (Sample R) → SensorPipeline R → SensorPipeline R × List (Measurement R)
  advance step_id samples p =
      let q = record_samples step_id samples (record p { next_step = step_id + 1 }) in
      released q (release step_id q.pending q.statistics)

  -- `step`, which raises ValueError for a step that is not the next one.
  unfoldable pub step :
      ℕ → List (Sample R) → SensorPipeline R → Option (SensorPipeline R × List (Measurement R))
  step step_id samples p = if step_id == p.next_step then some (advance step_id samples p) else none

  unfoldable pub drain : List (Entry R) → Statistics → List (Measurement R) × Statistics
  drain [] statistics = ([], statistics)
  drain (e ∷ pending) statistics =
      let (delivered, counted) = drain pending (deliver e statistics) in
      (e.measurement ∷ delivered, counted)

  abbrev pub drained :
      SensorPipeline R → List (Measurement R) × Statistics → SensorPipeline R × List (Measurement R)
  drained p (delivered, counted) = (record p { pending = []; statistics = counted }, delivered)

  -- `drain_pending`
  unfoldable pub drain_pending : SensorPipeline R → SensorPipeline R × List (Measurement R)
  drain_pending p = drained p (drain p.pending p.statistics)

  -- A call that raises leaves the pipeline as it is.
  abbrev pub after_step :
      SensorPipeline R
      → Option (SensorPipeline R × List (Measurement R))
      → SensorPipeline R × List (Measurement R)
  after_step p none = (p, [])
  after_step p (some result) = result

  -- Calls of `step`, with all that they deliver.
  unfoldable pub run_steps :
      List (ℕ × List (Sample R)) → SensorPipeline R → SensorPipeline R × List (Measurement R)
  run_steps [] p = (p, [])
  run_steps ((step_id, samples) ∷ calls) p =
      let (q, delivered) = after_step p (step step_id samples p) in
      let (r, more) = run_steps calls q in (r, delivered ++ more)
