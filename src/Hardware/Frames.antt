-- ===== src/Hardware/Frames.antt =====
-- The exchange of `validate_transport` of host/src/navbench/hardware.py: ten sensor frames with their
-- responses.
use navbench.Common.{
  ℕ, zero, suc, ◌+◌, ◌*◌, false, Option, none, some, List, [], ◌∷◌, if◌then◌else◌,
}
use navbench.Protocol.Value.{int, Binary32}
use navbench.Protocol.Payload.Types.{SensorFramePayload, RouteWaypoint}
use navbench.Session.Run.{session_error, out_of_fuel, done, failed, Run, ◌>>=◌, ◌>>◌, pure, raise}
use navbench.Session.Calls.{send_sensor}
use navbench.Session.Route.{send_route}
use navbench.Hardware.Types.{Bench, normal_frame_count, frame_period_s, poll_period_s, lower, upper}
use navbench.Hardware.Responses.{ResponseError, Responses, no_responses, consume}
use navbench.Hardware.Opening.{State, clock, poll_now, sleep}

module _ (fl : Binary32) (b : Bench) where
  abbrev pub zero_float : fl.Float
  zero_float = fl.from_bits 0

  -- `_stationary_sensor_frame`; the time is 20000 microseconds for each step.
  abbrev pub stationary_sensor_frame : ℕ → SensorFramePayload fl.Float
  stationary_sensor_frame step_id = record {
    present_mask = int 7;
    fault_mask = int 0;
    imu = record {
      sample_step_id = int step_id;
      timestamp_us = int (step_id * 20000);
      longitudinal_acceleration_mps2 = zero_float;
      yaw_rate_rps = zero_float;
    };
    wheel_speed = record {
      sample_step_id = int step_id;
      timestamp_us = int (step_id * 20000);
      speed_mps = zero_float;
    };
    gnss = record {
      sample_step_id = int step_id;
      timestamp_us = int (step_id * 20000);
      x_m = zero_float;
      y_m = zero_float;
    };
    landmark = record {
      sample_step_id = int 0;
      timestamp_us = int 0;
      landmark_id = int 0;
      landmark_x_m = zero_float;
      landmark_y_m = zero_float;
      range_m = zero_float;
      bearing_rad = zero_float;
    };
  }

  -- The bit patterns of 1.0 and 0.25.
  abbrev pub waypoint_at : fl.Float → RouteWaypoint fl.Float
  waypoint_at x = record {
    x_m = x;
    y_m = zero_float;
    target_speed_mps = zero_float;
    acceptance_radius_m = fl.from_bits 0x3E800000;
  }

  abbrev pub validation_route : List (RouteWaypoint fl.Float)
  validation_route = waypoint_at zero_float ∷ waypoint_at (fl.from_bits 0x3F800000) ∷ []

  abbrev pub or_session_error :
      Responses fl.Float × Option ResponseError → Run (State fl b) (Responses fl.Float)
  or_session_error (r, none) s = (s, done r)
  or_session_error (r, some e) s = (s, failed session_error)

  -- `consume` on the events of a poll, with the exception that its error becomes.
  unfoldable pub poll_responses :
      b.Seconds → ℕ → Responses fl.Float → Run (State fl b) (Responses fl.Float)
  poll_responses started_s step_id r =
      poll_now fl b started_s >>= λ events. or_session_error (consume step_id events r)

  abbrev pub sleep_until : (deadline period : b.Seconds) → Run (State fl b) (Unit {0})
  sleep_until deadline period = clock fl b >>= λ now.
      sleep fl b (lower b period (upper b (b.of_milliseconds 0) (b.minus deadline now)))

  -- `while clock() < deadline`
  unfoldable pub frame_loop :
      ℕ
      → (started_s deadline : b.Seconds) → ℕ
      → Responses fl.Float
      → Run (State fl b) (Responses fl.Float)
  frame_loop zero started_s deadline step_id r = raise out_of_fuel
  frame_loop (suc fuel) started_s deadline step_id r = clock fl b >>= λ now.
      if b.below now deadline
      then (poll_responses started_s step_id r >>= λ heard.
          sleep_until deadline (poll_period_s b)
          >> frame_loop fuel started_s deadline step_id heard)
      else pure r

  -- One sensor frame: when it was sent, and the responses.
  unfoldable pub exchange_frame :
      ℕ → b.Seconds → ℕ → Responses fl.Float → Run (State fl b) (b.Seconds × Responses fl.Float)
  exchange_frame fuel started_s step_id r = clock fl b >>= λ sent.
      send_sensor fl b.io (int step_id) (stationary_sensor_frame step_id)
      >> (clock fl b >>= λ now. frame_loop fuel started_s (b.plus now (frame_period_s b)) step_id r)
      >>= λ heard. poll_responses started_s step_id heard >>= λ all. pure (sent, all)

  -- The frames that are left, from a step on.
  unfoldable pub exchange_frames :
      ℕ
      → b.Seconds
      → (frames step_id : ℕ) → b.Seconds × Responses fl.Float
      → Run (State fl b) (b.Seconds × Responses fl.Float)
  exchange_frames fuel started_s zero step_id (sent, r) = pure (sent, r)
  exchange_frames fuel started_s (suc frames) step_id (sent, r) =
      exchange_frame fuel started_s step_id r
      >>= exchange_frames fuel started_s frames (step_id + 1)

  -- The exchange that is tried: when the last frame was sent, and the responses.
  unfoldable pub exchange : ℕ → b.Seconds → Run (State fl b) (b.Seconds × Responses fl.Float)
  exchange fuel started_s = clock fl b >>= λ now.
      send_route fl b.io (int 1) validation_route (int 0) false
      >> exchange_frames fuel started_s normal_frame_count 1 (now, no_responses)
