-- ===== src/Protocol/Payload/Decode.antt =====
-- decode_typed_payload of host/src/navbench/protocol.py, one function for each message type. The
-- last clause of a function on unpacked fields stands for lists that its format never gives.
use navbench.Common.{ℕ, zero, suc, ◌+◌, ◌*◌, not, List, [], ◌∷◌, ◌++◌, length, drop, ltb, ◌==◌}
use navbench.Protocol.Error.{
  Result, ok, err, invalid_value, payload_length_mismatch, ◌>>=◌, ◌>>◌, refuse,
}
use navbench.Protocol.Value.{Scalar, int, Binary32}
use navbench.Protocol.Enums.{
  MessageType, decode_enum, role_of, status_of, mode_of, runtime_of, navigation_of, reason_of,
  error_of,
}
use navbench.Protocol.Struct.{unpack, size}
use navbench.Protocol.Packet.{Packet}
use navbench.Protocol.Payload.Types.{
  HelloPayload, HelloAckPayload, SensorFramePayload, RouteWaypoint, RouteChunkPayload,
  ControlCommandPayload, StateEstimatePayload, NisSummary, HealthStatusPayload, HeartbeatPayload,
  ErrorPayload, SafeStopPayload, TypedPayload,
}
use navbench.Protocol.Payload.Encode.{
  hello_format, hello_ack_format, sensor_prefix_format, imu_format, wheel_format, gnss_format,
  landmark_format, route_prefix_format, route_point_format, control_command_format,
  state_estimate_format, health_status_format, heartbeat_format, error_format, safe_stop_format,
  max_route_points_per_chunk, encode_typed_payload,
}

-- `_require_payload_size`
unfoldable pub require_payload_size : List ℕ → ℕ → Result (Unit {0})
require_payload_size payload expected =
    refuse (not (length payload == expected)) payload_length_mismatch

unfoldable pub decode_hello : List ℕ → Result HelloPayload
decode_hello (role ∷ minimum ∷ maximum ∷ reserved ∷ capabilities ∷ limit ∷ timeout ∷ []) = do
  refuse (not (reserved == 0)) invalid_value
  r ← decode_enum role_of role
  ok (record {
    role = r;
    min_version = int minimum;
    max_version = int maximum;
    capabilities = int capabilities;
    max_payload = int limit;
    heartbeat_timeout_ms = int timeout;
  })
decode_hello _ = err invalid_value

unfoldable pub decode_hello_ack : List ℕ → Result HelloAckPayload
decode_hello_ack (version ∷ status ∷ role ∷ reserved ∷ capabilities ∷ limit ∷ timeout ∷ []) = do
  refuse (not (reserved == 0)) invalid_value
  s ← decode_enum status_of status
  r ← decode_enum role_of role
  ok (record {
    accepted_version = int version;
    status = s;
    role = r;
    capabilities = int capabilities;
    max_payload = int limit;
    heartbeat_timeout_ms = int timeout;
  })
decode_hello_ack _ = err invalid_value

unfoldable pub decode_heartbeat : List ℕ → Result HeartbeatPayload
decode_heartbeat (uptime ∷ monotonic ∷ state ∷ []) = do
  s ← decode_enum runtime_of state
  ok (record { uptime_ms = int uptime; monotonic_ms = int monotonic; runtime_state = s })
decode_heartbeat _ = err invalid_value

unfoldable pub decode_error : List ℕ → Result ErrorPayload
decode_error (code ∷ detail ∷ related ∷ context ∷ []) = do
  c ← decode_enum error_of code
  ok (record {
    code = c;
    detail = int detail;
    related_sequence = int related;
    context = int context;
  })
decode_error _ = err invalid_value

unfoldable pub decode_safe_stop : List ℕ → Result SafeStopPayload
decode_safe_stop (reason ∷ latch ∷ detail ∷ []) = do
  refuse (ltb 1 latch) invalid_value
  r ← decode_enum reason_of reason
  ok (record { reason = r; latch = not (latch == 0); detail = int detail })
decode_safe_stop _ = err invalid_value

module _ (fl : Binary32) where
  unfoldable pub decode_sensor_frame : List ℕ → Result (SensorFramePayload fl.Float)
  decode_sensor_frame
        (present ∷ faults ∷ imu_step ∷ imu_time ∷ acceleration ∷ yaw_rate ∷ wheel_step ∷ wheel_time
          ∷ speed ∷ gnss_step ∷ gnss_time ∷ x ∷ y ∷ landmark_step ∷ landmark_time ∷ landmark_id
          ∷ reserved ∷ landmark_x ∷ landmark_y ∷ range ∷ bearing ∷ []) =
      do
        refuse (not (reserved == 0)) invalid_value
        ok (record {
          present_mask = int present;
          fault_mask = int faults;
          imu = record {
            sample_step_id = int imu_step;
            timestamp_us = int imu_time;
            longitudinal_acceleration_mps2 = fl.from_bits acceleration;
            yaw_rate_rps = fl.from_bits yaw_rate;
          };
          wheel_speed = record {
            sample_step_id = int wheel_step;
            timestamp_us = int wheel_time;
            speed_mps = fl.from_bits speed;
          };
          gnss = record {
            sample_step_id = int gnss_step;
            timestamp_us = int gnss_time;
            x_m = fl.from_bits x;
            y_m = fl.from_bits y;
          };
          landmark = record {
            sample_step_id = int landmark_step;
            timestamp_us = int landmark_time;
            landmark_id = int landmark_id;
            landmark_x_m = fl.from_bits landmark_x;
            landmark_y_m = fl.from_bits landmark_y;
            range_m = fl.from_bits range;
            bearing_rad = fl.from_bits bearing;
          };
        })
  decode_sensor_frame _ = err invalid_value

  unfoldable pub decode_point : List ℕ → Result (RouteWaypoint fl.Float)
  decode_point (x ∷ y ∷ speed ∷ radius ∷ []) = ok (record {
    x_m = fl.from_bits x;
    y_m = fl.from_bits y;
    target_speed_mps = fl.from_bits speed;
    acceptance_radius_m = fl.from_bits radius;
  })
  decode_point _ = err invalid_value

  -- The points `index` and the `count` - 1 behind it, each read at its offset.
  unfoldable pub decode_points : ℕ → ℕ → List ℕ → Result (List (RouteWaypoint fl.Float))
  decode_points zero index payload = ok []
  decode_points (suc count) index payload = do
    point ← decode_point (
        unpack route_point_format
          (drop (size route_prefix_format + index * size route_point_format) payload))
    points ← decode_points count (suc index) payload
    ok (point ∷ points)

  unfoldable pub decode_route_chunk : List ℕ → List ℕ → Result (RouteChunkPayload fl.Float)
  decode_route_chunk payload (route_id ∷ start ∷ total ∷ count ∷ flags ∷ []) = do
    refuse (ltb max_route_points_per_chunk count) invalid_value
    require_payload_size payload (size route_prefix_format + count * size route_point_format)
    points ← decode_points count 0 payload
    ok (record {
      route_id = int route_id;
      start_index = int start;
      total_count = int total;
      flags = int flags;
      points = points;
    })
  decode_route_chunk payload _ = err invalid_value

  unfoldable pub decode_control_command : List ℕ → Result (ControlCommandPayload fl.Float)
  decode_control_command (steering ∷ acceleration ∷ speed ∷ mode ∷ flags ∷ reserved ∷ []) = do
    refuse (not (reserved == 0)) invalid_value
    m ← decode_enum mode_of mode
    ok (record {
      steering_rad = fl.from_bits steering;
      acceleration_mps2 = fl.from_bits acceleration;
      target_speed_mps = fl.from_bits speed;
      mode = m;
      flags = int flags;
    })
  decode_control_command _ = err invalid_value

  unfoldable pub decode_state_estimate : List ℕ → Result (StateEstimatePayload fl.Float)
  decode_state_estimate
        (x ∷ y ∷ heading ∷ speed ∷ yaw_rate ∷ bias ∷ c0 ∷ c1 ∷ c2 ∷ c3 ∷ c4 ∷ c5 ∷ mode ∷ flags
          ∷ reserved ∷ []) =
      do
        refuse (not (reserved == 0)) invalid_value
        m ← decode_enum navigation_of mode
        ok (record {
          x_m = fl.from_bits x;
          y_m = fl.from_bits y;
          heading_rad = fl.from_bits heading;
          speed_mps = fl.from_bits speed;
          yaw_rate_rps = fl.from_bits yaw_rate;
          acceleration_bias_mps2 = fl.from_bits bias;
          covariance_diagonal =
              fl.from_bits c0
              ∷ fl.from_bits c1
              ∷ fl.from_bits c2
              ∷ fl.from_bits c3
              ∷ fl.from_bits c4
              ∷ fl.from_bits c5
              ∷ [];
          navigation_mode = m;
          flags = int flags;
        })
  decode_state_estimate _ = err invalid_value

  abbrev pub summary : ℕ → ℕ → ℕ → ℕ → NisSummary fl.Float
  summary evaluated rejected total maximum = record {
    evaluated_count = int evaluated;
    gate_rejected_count = int rejected;
    nis_sum = fl.from_bits total;
    nis_max = fl.from_bits maximum;
  }

  unfoldable pub decode_health_status : List ℕ → Result (HealthStatusPayload fl.Float)
  decode_health_status
        (state ∷ mode ∷ flags ∷ w0 ∷ w1 ∷ w2 ∷ w3 ∷ w4 ∷ w5 ∷ w6 ∷ w7 ∷ w8 ∷ w9 ∷ w10 ∷ w11 ∷ e0
          ∷ r0 ∷ t0 ∷ m0 ∷ e1 ∷ r1 ∷ t1 ∷ m1 ∷ e2 ∷ r2 ∷ t2 ∷ m2 ∷ e3 ∷ r3 ∷ t3 ∷ m3 ∷ []) =
      do
        s ← decode_enum runtime_of state
        n ← decode_enum navigation_of mode
        ok (record {
          runtime_state = s;
          navigation_mode = n;
          flags = int flags;
          uptime_ms = int w0;
          last_sensor_age_ms = int w1;
          rx_frames = int w2;
          rx_crc_errors = int w3;
          rx_decode_errors = int w4;
          rx_missing = int w5;
          rx_duplicates = int w6;
          rx_out_of_order = int w7;
          rx_stale = int w8;
          queue_overflows = int w9;
          scheduler_overruns = int w10;
          max_loop_us = int w11;
          imu_yaw = summary e0 r0 t0 m0;
          wheel = summary e1 r1 t1 m1;
          gnss = summary e2 r2 t2 m2;
          landmark = summary e3 r3 t3 m3;
        })
  decode_health_status _ = err invalid_value

  abbrev pub sensor_values : List ℕ → List ℕ
  sensor_values payload =
      unpack sensor_prefix_format payload
      ++ (unpack imu_format (drop 4 payload)
          ++ (unpack wheel_format (drop 20 payload)
              ++ (unpack gnss_format (drop 32 payload)
                  ++ unpack landmark_format (drop 48 payload))))

  abbrev pub sensor_frame_size : ℕ
  sensor_frame_size =
      size sensor_prefix_format
      + size imu_format
      + size wheel_format
      + size gnss_format
      + size landmark_format

  -- The payload before the checks that re-encoding makes.
  unfoldable pub read_payload : MessageType → List ℕ → Result (TypedPayload fl.Float)
  unfolding require_payload_size
  read_payload MessageType.hello b = do
    require_payload_size b (size hello_format)
    p ← decode_hello (unpack hello_format b)
    ok (TypedPayload.hello p)
  read_payload MessageType.hello_ack b = do
    require_payload_size b (size hello_ack_format)
    p ← decode_hello_ack (unpack hello_ack_format b)
    ok (TypedPayload.hello_ack p)
  read_payload MessageType.sensor_frame b = do
    require_payload_size b sensor_frame_size
    p ← decode_sensor_frame (sensor_values b)
    ok (TypedPayload.sensor_frame p)
  read_payload MessageType.route_chunk b = do
    refuse (ltb (length b) (size route_prefix_format)) payload_length_mismatch
    p ← decode_route_chunk b (unpack route_prefix_format b)
    ok (TypedPayload.route_chunk p)
  read_payload MessageType.control_command b = do
    require_payload_size b (size control_command_format)
    p ← decode_control_command (unpack control_command_format b)
    ok (TypedPayload.control_command p)
  read_payload MessageType.state_estimate b = do
    require_payload_size b (size state_estimate_format)
    p ← decode_state_estimate (unpack state_estimate_format b)
    ok (TypedPayload.state_estimate p)
  read_payload MessageType.health_status b = do
    require_payload_size b (size health_status_format)
    p ← decode_health_status (unpack health_status_format b)
    ok (TypedPayload.health_status p)
  read_payload MessageType.heartbeat b = do
    require_payload_size b (size heartbeat_format)
    p ← decode_heartbeat (unpack heartbeat_format b)
    ok (TypedPayload.heartbeat p)
  read_payload MessageType.error b = do
    require_payload_size b (size error_format)
    p ← decode_error (unpack error_format b)
    ok (TypedPayload.error p)
  read_payload MessageType.safe_stop b = do
    require_payload_size b (size safe_stop_format)
    p ← decode_safe_stop (unpack safe_stop_format b)
    ok (TypedPayload.safe_stop p)

  -- "Re-encoding centralizes finite/range/mask validation for decoded values."
  unfoldable pub decode_typed_payload : MessageType → List ℕ → Result (TypedPayload fl.Float)
  decode_typed_payload t b = do
    result ← read_payload t b
    _ ← encode_typed_payload fl t result
    ok result

  unfoldable pub decode_packet_payload : Packet → Result (TypedPayload fl.Float)
  decode_packet_payload p = decode_typed_payload p.message_type p.payload

  unfoldable pub make_packet : MessageType → Scalar → Scalar → TypedPayload fl.Float → Result Packet
  make_packet t sequence step_id payload = do
    encoded ← encode_typed_payload fl t payload
    ok (record { message_type = t; sequence = sequence; step_id = step_id; payload = encoded })
