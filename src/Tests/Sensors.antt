-- ===== src/Tests/Sensors.antt =====
-- Runs of the sensors' queue of host/src/navbench/sensors.py and of the replay of
-- host/src/navbench/runlog.py.
use navbench.Common.{ℕ, ◌≡◌, refl, false, List, [], ◌∷◌}
use navbench.Sensors.{
  SensorKind, imu, gnss, Measurement, Sample, new_pipeline, push, record_or_drop, record_samples,
  release, advance, step, run_steps, drain, drain_pending,
}
use navbench.Sensors.Delivery.{delivered_all, run_steps-replays}
use navbench.Replay.{exhausted, corrupt_run, batch_loop, measurement_batches}
use navbench.Replay.Grouping.{InOrder, Replayed, flatten, measurement_batches-Replayed}

abbrev sample : SensorKind → (reading delay_steps : ℕ) → Sample ℕ
sample kind reading delay = record {
  kind = kind;
  reading = reading;
  delay_steps = delay;
  is_dropped = false;
}

-- The first reading is two steps late, and comes behind the second one. The second call is
-- not the next step, and raises.
abbrev calls : List (ℕ × List (Sample ℕ))
calls =
    (0, sample gnss 10 2 ∷ sample imu 11 0 ∷ [])
    ∷ (2, sample imu 14 0 ∷ [])
    ∷ (1, sample imu 12 0 ∷ [])
    ∷ (2, sample gnss 13 4 ∷ [])
    ∷ []

abbrev arrived : ℕ → SensorKind → (sampled delivered : ℕ) → Measurement ℕ
arrived reading kind sampled delivered = record {
  kind = kind;
  sample_step_id = sampled;
  delivery_step_id = delivered;
  reading = reading;
}

abbrev in_order : List (Measurement ℕ)
in_order = arrived 11 imu 0 0 ∷ arrived 12 imu 1 1 ∷ arrived 10 gnss 0 2 ∷ arrived 13 gnss 2 6 ∷ []

run_steps_lem : delivered_all calls new_pipeline ≡ in_order
unfolding run_steps step advance record_samples record_or_drop push release drain_pending drain
run_steps_lem = refl

run_steps-replays_example :
    InOrder 0 (delivered_all calls new_pipeline)
    × ((measurement_batches (delivered_all calls new_pipeline)).1 ≡ exhausted)
    × (flatten ((measurement_batches (delivered_all calls new_pipeline)).0)
        ≡ delivered_all calls new_pipeline)
run_steps-replays_example = run_steps-replays calls

abbrev reversed : List (Measurement ℕ)
reversed = arrived 12 imu 1 1 ∷ arrived 11 imu 0 0 ∷ []

reversed_is_corrupt : measurement_batches reversed ≡ ([], corrupt_run)
unfolding measurement_batches batch_loop
reversed_is_corrupt = refl

measurement_batches-Replayed_example : Replayed reversed (measurement_batches reversed)
measurement_batches-Replayed_example = measurement_batches-Replayed reversed
