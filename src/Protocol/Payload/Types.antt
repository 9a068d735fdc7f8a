-- ===== src/Protocol/Payload/Types.antt =====
-- The typed payloads of host/src/navbench/protocol.py, over a type `F` of floats.
use navbench.Common.{List, Bool}
use navbench.Protocol.Value.{Scalar}
use navbench.Protocol.Enums.{
  EndpointRole, HelloStatus, ControlMode, RuntimeState, NavigationMode, SafeStopReason,
  ApplicationErrorCode,
}

pub record HelloPayload : Type 0 where
  pub role : EndpointRole
  pub min_version : Scalar
  pub max_version : Scalar
  pub capabilities : Scalar
  pub max_payload : Scalar
  pub heartbeat_timeout_ms : Scalar

pub record HelloAckPayload : Type 0 where
  pub accepted_version : Scalar
  pub status : HelloStatus
  pub role : EndpointRole
  pub capabilities : Scalar
  pub max_payload : Scalar
  pub heartbeat_timeout_ms : Scalar

pub record ImuSample (F : Type 0) : Type 0 where
  pub sample_step_id : Scalar
  pub timestamp_us : Scalar
  pub longitudinal_acceleration_mps2 : F
  pub yaw_rate_rps : F

pub record WheelSpeedSample (F : Type 0) : Type 0 where
  pub sample_step_id : Scalar
  pub timestamp_us : Scalar
  pub speed_mps : F

pub record GnssSample (F : Type 0) : Type 0 where
  pub sample_step_id : Scalar
  pub timestamp_us : Scalar
  pub x_m : F
  pub y_m : F

pub record LandmarkSample (F : Type 0) : Type 0 where
  pub sample_step_id : Scalar
  pub timestamp_us : Scalar
  pub landmark_id : Scalar
  pub landmark_x_m : F
  pub landmark_y_m : F
  pub range_m : F
  pub bearing_rad : F

pub record SensorFramePayload (F : Type 0) : Type 0 where
  pub present_mask : Scalar
  pub fault_mask : Scalar
  pub imu : ImuSample F
  pub wheel_speed : WheelSpeedSample F
  pub gnss : GnssSample F
  pub landmark : LandmarkSample F

pub record RouteWaypoint (F : Type 0) : Type 0 where
  pub x_m : F
  pub y_m : F
  pub target_speed_mps : F
  pub acceptance_radius_m : F

pub record RouteChunkPayload (F : Type 0) : Type 0 where
  pub route_id : Scalar
  pub start_index : Scalar
  pub total_count : Scalar
  pub flags : Scalar
  pub points : List (RouteWaypoint F)

pub record ControlCommandPayload (F : Type 0) : Type 0 where
  pub steering_rad : F
  pub acceleration_mps2 : F
  pub target_speed_mps : F
  pub mode : ControlMode
  pub flags : Scalar

-- `covariance_diagonal` is a tuple; the encoder tests its length.
pub record StateEstimatePayload (F : Type 0) : Type 0 where
  pub x_m : F
  pub y_m : F
  pub heading_rad : F
  pub speed_mps : F
  pub yaw_rate_rps : F
  pub acceleration_bias_mps2 : F
  pub covariance_diagonal : List F
  pub navigation_mode : NavigationMode
  pub flags : Scalar

-- One sensor's part of the health status.
pub record NisSummary (F : Type 0) : Type 0 where
  pub evaluated_count : Scalar
  pub gate_rejected_count : Scalar
  pub nis_sum : F
  pub nis_max : F

pub record HealthStatusPayload (F : Type 0) : Type 0 where
  pub runtime_state : RuntimeState
  pub navigation_mode : NavigationMode
  pub flags : Scalar
  pub uptime_ms : Scalar
  pub last_sensor_age_ms : Scalar
  pub rx_frames : Scalar
  pub rx_crc_errors : Scalar
  pub rx_decode_errors : Scalar
  pub rx_missing : Scalar
  pub rx_duplicates : Scalar
  pub rx_out_of_order : Scalar
  pub rx_stale : Scalar
  pub queue_overflows : Scalar
  pub scheduler_overruns : Scalar
  pub max_loop_us : Scalar
  pub imu_yaw : NisSummary F
  pub wheel : NisSummary F
  pub gnss : NisSummary F
  pub landmark : NisSummary F

pub record HeartbeatPayload : Type 0 where
  pub uptime_ms : Scalar
  pub monotonic_ms : Scalar
  pub runtime_state : RuntimeState

pub record ErrorPayload : Type 0 where
  pub code : ApplicationErrorCode
  pub detail : Scalar
  pub related_sequence : Scalar
  pub context : Scalar

pub record SafeStopPayload : Type 0 where
  pub reason : SafeStopReason
  pub latch : Bool
  pub detail : Scalar

pub data TypedPayload (F : Type 0) : Type 0 where
  hello : HelloPayload → TypedPayload F
  hello_ack : HelloAckPayload → TypedPayload F
  sensor_frame : SensorFramePayload F → TypedPayload F
  route_chunk : RouteChunkPayload F → TypedPayload F
  control_command : ControlCommandPayload F → TypedPayload F
  state_estimate : StateEstimatePayload F → TypedPayload F
  health_status : HealthStatusPayload F → TypedPayload F
  heartbeat : HeartbeatPayload → TypedPayload F
  error : ErrorPayload → TypedPayload F
  safe_stop : SafeStopPayload → TypedPayload F
