-- ===== src/Protocol/Payload/Encode.antt =====
-- encode_typed_payload of host/src/navbench/protocol.py, one function for each message type.
use navbench.Common.{
  ℕ, ◌+◌, bit_and, Bool, true, false, not, ◌&&◌, ◌||◌, List, [], ◌∷◌, ◌++◌, length, ltb, leb, ◌==◌,
  if◌then◌else◌,
}
use navbench.Protocol.Error.{Result, ok, err, invalid_value, ◌>>=◌, ◌>>◌, refuse}
use navbench.Protocol.Value.{Scalar, Binary32, uint, mask, finite}
use navbench.Protocol.Enums.{
  MessageType, accepted, role_code, status_code, mode_code, runtime_code, navigation_code,
  reason_code, error_code,
}
use navbench.Protocol.Struct.{Field, u8, u16, u32, f32, pad, pack}
use navbench.Protocol.Packet.{max_payload_size, protocol_version}
use navbench.Protocol.Payload.Types.{
  HelloPayload, HelloAckPayload, ImuSample, WheelSpeedSample, GnssSample, LandmarkSample,
  SensorFramePayload, RouteWaypoint, RouteChunkPayload, ControlCommandPayload, StateEstimatePayload,
  NisSummary, HealthStatusPayload, HeartbeatPayload, ErrorPayload, SafeStopPayload, TypedPayload,
}

abbrev pub hello_format : List Field
hello_format = u8 ∷ u8 ∷ u8 ∷ u8 ∷ u32 ∷ u16 ∷ u16 ∷ []

abbrev pub hello_ack_format : List Field
hello_ack_format = u8 ∷ u8 ∷ u8 ∷ u8 ∷ u32 ∷ u16 ∷ u16 ∷ []

abbrev pub sensor_prefix_format : List Field
sensor_prefix_format = u16 ∷ u16 ∷ []

abbrev pub imu_format : List Field
imu_format = u32 ∷ u32 ∷ f32 ∷ f32 ∷ []

abbrev pub wheel_format : List Field
wheel_format = u32 ∷ u32 ∷ f32 ∷ []

abbrev pub gnss_format : List Field
gnss_format = u32 ∷ u32 ∷ f32 ∷ f32 ∷ []

abbrev pub landmark_format : List Field
landmark_format = u32 ∷ u32 ∷ u16 ∷ u16 ∷ f32 ∷ f32 ∷ f32 ∷ f32 ∷ []

abbrev pub route_prefix_format : List Field
route_prefix_format = u16 ∷ u16 ∷ u16 ∷ u8 ∷ u8 ∷ []

abbrev pub route_point_format : List Field
route_point_format = f32 ∷ f32 ∷ f32 ∷ f32 ∷ []

abbrev pub control_command_format : List Field
control_command_format = f32 ∷ f32 ∷ f32 ∷ u8 ∷ u8 ∷ u16 ∷ []

abbrev pub state_estimate_format : List Field
state_estimate_format =
    f32 ∷ f32 ∷ f32 ∷ f32 ∷ f32 ∷ f32 ∷ f32 ∷ f32 ∷ f32 ∷ f32 ∷ f32 ∷ f32 ∷ u8 ∷ u8 ∷ u16 ∷ []

abbrev pub nis_format : List Field → List Field
nis_format rest = u32 ∷ u32 ∷ f32 ∷ f32 ∷ rest

abbrev pub health_status_format : List Field
health_status_format =
    u8
    ∷ u8
    ∷ u16
    ∷ u32
    ∷ u32
    ∷ u32
    ∷ u32
    ∷ u32
    ∷ u32
    ∷ u32
    ∷ u32
    ∷ u32
    ∷ u32
    ∷ u32
    ∷ u32
    ∷ nis_format (nis_format (nis_format (nis_format [])))

abbrev pub heartbeat_format : List Field
heartbeat_format = u32 ∷ u32 ∷ u8 ∷ pad ∷ pad ∷ pad ∷ []

abbrev pub error_format : List Field
error_format = u16 ∷ u16 ∷ u32 ∷ u32 ∷ []

abbrev pub safe_stop_format : List Field
safe_stop_format = u8 ∷ u8 ∷ u16 ∷ []

abbrev pub max_route_points_per_chunk : ℕ
max_route_points_per_chunk = 5

-- `not 1 <= limit <= MAX_PAYLOAD_SIZE or timeout == 0`
abbrev pub bad_limits : ℕ → ℕ → Bool
bad_limits limit timeout = not (leb 1 limit && leb limit max_payload_size) || timeout == 0

unfoldable pub encode_hello : HelloPayload → Result (List ℕ)
unfolding uint
encode_hello p = do
  minimum ← uint p.min_version 8
  maximum ← uint p.max_version 8
  limit ← uint p.max_payload 16
  timeout ← uint p.heartbeat_timeout_ms 16
  refuse (minimum == 0 || ltb maximum minimum) invalid_value
  refuse (bad_limits limit timeout) invalid_value
  capabilities ← uint p.capabilities 32
  ok (
      pack hello_format
        (role_code p.role ∷ minimum ∷ maximum ∷ 0 ∷ capabilities ∷ limit ∷ timeout ∷ []))

abbrev pub expected_version : ℕ → ℕ
expected_version status = if status == status_code accepted then protocol_version else 0

unfoldable pub encode_hello_ack : HelloAckPayload → Result (List ℕ)
unfolding uint
encode_hello_ack p = do
  version ← uint p.accepted_version 8
  let status = status_code p.status
  limit ← uint p.max_payload 16
  timeout ← uint p.heartbeat_timeout_ms 16
  refuse (not (version == expected_version status)) invalid_value
  refuse (bad_limits limit timeout) invalid_value
  capabilities ← uint p.capabilities 32
  ok (
      pack hello_ack_format
        (version ∷ status ∷ role_code p.role ∷ 0 ∷ capabilities ∷ limit ∷ timeout ∷ []))

unfoldable pub encode_heartbeat : HeartbeatPayload → Result (List ℕ)
unfolding uint
encode_heartbeat p = do
  uptime ← uint p.uptime_ms 32
  monotonic ← uint p.monotonic_ms 32
  ok (pack heartbeat_format (uptime ∷ monotonic ∷ runtime_code p.runtime_state ∷ []))

unfoldable pub encode_error : ErrorPayload → Result (List ℕ)
unfolding uint
encode_error p = do
  detail ← uint p.detail 16
  related ← uint p.related_sequence 32
  context ← uint p.context 32
  ok (pack error_format (error_code p.code ∷ detail ∷ related ∷ context ∷ []))

-- `int(payload.latch)`
abbrev pub latch_code : Bool → ℕ
latch_code true = 1
latch_code false = 0

unfoldable pub encode_safe_stop : SafeStopPayload → Result (List ℕ)
unfolding uint
encode_safe_stop p = do
  detail ← uint p.detail 16
  ok (pack safe_stop_format (reason_code p.reason ∷ latch_code p.latch ∷ detail ∷ []))

module _ (fl : Binary32) where
  -- A float that `_finite` accepts, as the field that `struct` packs.
  unfoldable pub finite_bits : fl.Float → Result ℕ
  unfolding finite
  finite_bits x = do y ← finite fl x; ok (fl.to_bits y)

  unfoldable pub encode_imu : ImuSample fl.Float → Result (List ℕ)
  unfolding uint finite_bits
  encode_imu s = do
    step ← uint s.sample_step_id 32
    time ← uint s.timestamp_us 32
    acceleration ← finite_bits s.longitudinal_acceleration_mps2
    yaw_rate ← finite_bits s.yaw_rate_rps
    ok (pack imu_format (step ∷ time ∷ acceleration ∷ yaw_rate ∷ []))

  unfoldable pub encode_wheel : WheelSpeedSample fl.Float → Result (List ℕ)
  unfolding uint finite_bits
  encode_wheel s = do
    step ← uint s.sample_step_id 32
    time ← uint s.timestamp_us 32
    speed ← finite_bits s.speed_mps
    ok (pack wheel_format (step ∷ time ∷ speed ∷ []))

  unfoldable pub encode_gnss : GnssSample fl.Float → Result (List ℕ)
  unfolding uint finite_bits
  encode_gnss s = do
    step ← uint s.sample_step_id 32
    time ← uint s.timestamp_us 32
    x ← finite_bits s.x_m
    y ← finite_bits s.y_m
    ok (pack gnss_format (step ∷ time ∷ x ∷ y ∷ []))

  unfoldable pub encode_landmark : LandmarkSample fl.Float → Result (List ℕ)
  unfolding uint finite_bits
  encode_landmark s = do
    step ← uint s.sample_step_id 32
    time ← uint s.timestamp_us 32
    number ← uint s.landmark_id 16
    x ← finite_bits s.landmark_x_m
    y ← finite_bits s.landmark_y_m
    range ← finite_bits s.range_m
    bearing ← finite_bits s.bearing_rad
    ok (pack landmark_format (step ∷ time ∷ number ∷ 0 ∷ x ∷ y ∷ range ∷ bearing ∷ []))

  unfoldable pub encode_sensor_prefix : SensorFramePayload fl.Float → Result (List ℕ)
  unfolding mask
  encode_sensor_prefix p = do
    present ← mask p.present_mask 15
    faults ← mask p.fault_mask 15
    ok (pack sensor_prefix_format (present ∷ faults ∷ []))

  unfoldable pub encode_sensor_frame : SensorFramePayload fl.Float → Result (List ℕ)
  encode_sensor_frame p = do
    prefix ← encode_sensor_prefix p
    imu ← encode_imu p.imu
    wheel ← encode_wheel p.wheel_speed
    gnss ← encode_gnss p.gnss
    landmark ← encode_landmark p.landmark
    ok (prefix ++ (imu ++ (wheel ++ (gnss ++ landmark))))

  unfoldable pub encode_point : RouteWaypoint fl.Float → Result (List ℕ)
  unfolding finite_bits
  encode_point w = do
    x ← finite_bits w.x_m
    y ← finite_bits w.y_m
    speed ← finite_bits w.target_speed_mps
    radius ← finite_bits w.acceptance_radius_m
    ok (pack route_point_format (x ∷ y ∷ speed ∷ radius ∷ []))

  -- The loop over the points.
  unfoldable pub encode_points : List (RouteWaypoint fl.Float) → Result (List ℕ)
  encode_points [] = ok []
  encode_points (w ∷ rest) = do
    point ← encode_point w
    points ← encode_points rest
    ok (point ++ points)

  unfoldable pub encode_route_chunk : RouteChunkPayload fl.Float → Result (List ℕ)
  unfolding uint mask
  encode_route_chunk p = do
    refuse (ltb max_route_points_per_chunk (length p.points)) invalid_value
    route_id ← uint p.route_id 16
    start_index ← uint p.start_index 16
    total_count ← uint p.total_count 16
    flags ← mask p.flags 7
    let count = length p.points
    refuse (not (count == 0) && (total_count == 0 || ltb total_count (start_index + count)))
        invalid_value
    refuse (count == 0 && bit_and flags 1 == 0) invalid_value
    points ← encode_points p.points
    ok (
        pack route_prefix_format (route_id ∷ start_index ∷ total_count ∷ count ∷ flags ∷ [])
        ++ points)

  unfoldable pub encode_control_command : ControlCommandPayload fl.Float → Result (List ℕ)
  unfolding uint finite_bits
  encode_control_command p = do
    steering ← finite_bits p.steering_rad
    acceleration ← finite_bits p.acceleration_mps2
    speed ← finite_bits p.target_speed_mps
    flags ← uint p.flags 8
    ok (
        pack control_command_format
          (steering ∷ acceleration ∷ speed ∷ mode_code p.mode ∷ flags ∷ 0 ∷ []))

  -- `_finite` on each of a list of values.
  unfoldable pub all_finite_bits : List fl.Float → Result (List ℕ)
  all_finite_bits [] = ok []
  all_finite_bits (x ∷ xs) = do bits ← finite_bits x; rest ← all_finite_bits xs; ok (bits ∷ rest)

  -- `any(value < 0.0 for value in values[6:])`
  unfoldable pub any_negative : List fl.Float → Bool
  any_negative [] = false
  any_negative (x ∷ xs) = fl.is_negative x || any_negative xs

  abbrev pub estimate_values : StateEstimatePayload fl.Float → List fl.Float
  estimate_values p =
      p.x_m ∷ p.y_m ∷ p.heading_rad ∷ p.speed_mps ∷ p.yaw_rate_rps ∷ p.acceleration_bias_mps2
      ∷ p.covariance_diagonal

  unfoldable pub encode_state_estimate : StateEstimatePayload fl.Float → Result (List ℕ)
  unfolding uint
  encode_state_estimate p = do
    refuse (not (length p.covariance_diagonal == 6)) invalid_value
    values ← all_finite_bits (estimate_values p)
    refuse (any_negative p.covariance_diagonal) invalid_value
    flags ← uint p.flags 8
    ok (pack state_estimate_format (values ++ (navigation_code p.navigation_mode ∷ flags ∷ 0 ∷ [])))

  -- `_nis_summary_fields`
  unfoldable pub nis_summary_fields : NisSummary fl.Float → Result (List ℕ)
  unfolding uint finite
  nis_summary_fields n = do
    evaluated ← uint n.evaluated_count 32
    rejected ← uint n.gate_rejected_count 32
    total ← finite fl n.nis_sum
    maximum ← finite fl n.nis_max
    refuse (ltb evaluated rejected) invalid_value
    refuse (fl.is_negative total || fl.is_negative maximum) invalid_value
    refuse
        (if evaluated == 0
          then not (rejected == 0) || (fl.is_nonzero total || fl.is_nonzero maximum)
          else fl.exceeds maximum total)
        invalid_value
    ok (evaluated ∷ rejected ∷ fl.to_bits total ∷ fl.to_bits maximum ∷ [])

  -- `_uint(name, value, 32)` on each of a list of values.
  unfoldable pub all_words : List Scalar → Result (List ℕ)
  all_words [] = ok []
  all_words (s ∷ rest) = do word ← uint s 32; words ← all_words rest; ok (word ∷ words)

  abbrev pub health_counters : HealthStatusPayload fl.Float → List Scalar
  health_counters p =
      p.uptime_ms ∷ p.last_sensor_age_ms ∷ p.rx_frames ∷ p.rx_crc_errors ∷ p.rx_decode_errors
      ∷ p.rx_missing ∷ p.rx_duplicates ∷ p.rx_out_of_order ∷ p.rx_stale ∷ p.queue_overflows
      ∷ p.scheduler_overruns ∷ p.max_loop_us ∷ []

  unfoldable pub encode_health_status : HealthStatusPayload fl.Float → Result (List ℕ)
  encode_health_status p = do
    flags ← uint p.flags 16
    words ← all_words (health_counters p)
    imu_yaw ← nis_summary_fields p.imu_yaw
    wheel ← nis_summary_fields p.wheel
    gnss ← nis_summary_fields p.gnss
    landmark ← nis_summary_fields p.landmark
    ok (
        pack health_status_format (
          runtime_code p.runtime_state
          ∷ navigation_code p.navigation_mode
          ∷ flags
          ∷ (words ++ (imu_yaw ++ (wheel ++ (gnss ++ landmark))))))

  -- A payload of another type than the message's is refused.
  unfoldable pub encode_typed_payload : MessageType → TypedPayload fl.Float → Result (List ℕ)
  encode_typed_payload MessageType.hello (TypedPayload.hello p) = encode_hello p
  encode_typed_payload MessageType.hello_ack (TypedPayload.hello_ack p) = encode_hello_ack p
  encode_typed_payload MessageType.sensor_frame (TypedPayload.sensor_frame p) =
      encode_sensor_frame p
  encode_typed_payload MessageType.route_chunk (TypedPayload.route_chunk p) = encode_route_chunk p
  encode_typed_payload MessageType.control_command (TypedPayload.control_command p) =
      encode_control_command p
  encode_typed_payload MessageType.state_estimate (TypedPayload.state_estimate p) =
      encode_state_estimate p
  encode_typed_payload MessageType.health_status (TypedPayload.health_status p) =
      encode_health_status p
  encode_typed_payload MessageType.heartbeat (TypedPayload.heartbeat p) = encode_heartbeat p
  encode_typed_payload MessageType.error (TypedPayload.error p) = encode_error p
  encode_typed_payload MessageType.safe_stop (TypedPayload.safe_stop p) = encode_safe_stop p
  encode_typed_payload _ _ = err invalid_value
