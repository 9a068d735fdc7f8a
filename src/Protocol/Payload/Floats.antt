-- ===== src/Protocol/Payload/Floats.antt =====
-- A payload that decode_typed_payload of host/src/navbench/protocol.py accepts is what
-- encode_typed_payload makes of the result: messages with binary32 fields.
use navbench.Common.{ℕ, ◌^◌, ◌<◌, ◌≡◌, sym, ap, ◌∙◌, ◌⊎◌, List, [], ◌∷◌, ◌++◌, All, arith}
use mathlib.Core.Path.{ap₂}
use mathlib.Core.List.{map}
use navbench.Protocol.Error.{ok, err, ◌>>=◌, ProtocolErrorCode, >>=-eq-ok, Result-cases}
use navbench.Protocol.Value.{Binary32, int, uint}
use navbench.Protocol.Enums.{decode_enum, navigation_code}
use navbench.Protocol.Enums.Laws.{
  mode_code-mode_of, navigation_code-navigation_of, runtime_code-runtime_of,
}
use navbench.Protocol.Struct.{pack}
use navbench.Protocol.Struct.Laws.{Fits}
use navbench.Protocol.Payload.Types.{
  SensorFramePayload, RouteWaypoint, ControlCommandPayload, StateEstimatePayload,
  HealthStatusPayload,
}
use navbench.Protocol.Payload.Encode.{
  imu_format, wheel_format, gnss_format, landmark_format, sensor_prefix_format, route_point_format,
  control_command_format, state_estimate_format, health_status_format, finite_bits, encode_imu,
  encode_wheel, encode_gnss, encode_landmark, encode_sensor_prefix, encode_point,
  encode_control_command, all_finite_bits, estimate_values, encode_state_estimate,
  nis_summary_fields, all_words, encode_health_status,
}
use navbench.Protocol.Payload.Decode.{
  decode_point, decode_control_command, decode_state_estimate, decode_health_status, summary,
}

module _ (fl : Binary32) where
  -- A field that was unpacked as a float packs to itself, if `_finite` lets it pass.
  finite_bits_back : (w n : ℕ) → w < 2 ^ 32 → finite_bits fl (fl.from_bits w) ≡ ok n → n ≡ w
  unfolding finite_bits
  finite_bits_back w n lt h = ground (arith, fl.to_bits-from_bits w lt)

  pub imu_back :
      (step time acceleration yaw_rate : ℕ) (b : List ℕ)
      → acceleration < 2 ^ 32
      → yaw_rate < 2 ^ 32
      → encode_imu fl (record {
        sample_step_id = int step;
        timestamp_us = int time;
        longitudinal_acceleration_mps2 = fl.from_bits acceleration;
        yaw_rate_rps = fl.from_bits yaw_rate;
      })
        ≡ ok b
      → b ≡ pack imu_format (step ∷ time ∷ acceleration ∷ yaw_rate ∷ [])
  unfolding encode_imu
  imu_back step time acceleration yaw_rate b h1 h2 h =
      ground (arith, fl.to_bits-from_bits acceleration h1, fl.to_bits-from_bits yaw_rate h2)

  pub wheel_back :
      (step time speed : ℕ) (b : List ℕ)
      → speed < 2 ^ 32
      → encode_wheel fl (record {
        sample_step_id = int step;
        timestamp_us = int time;
        speed_mps = fl.from_bits speed;
      })
        ≡ ok b
      → b ≡ pack wheel_format (step ∷ time ∷ speed ∷ [])
  unfolding encode_wheel
  wheel_back step time speed b h1 h = ground (arith, fl.to_bits-from_bits speed h1)

  pub gnss_back :
      (step time x y : ℕ) (b : List ℕ)
      → x < 2 ^ 32
      → y < 2 ^ 32
      → encode_gnss fl (record {
        sample_step_id = int step;
        timestamp_us = int time;
        x_m = fl.from_bits x;
        y_m = fl.from_bits y;
      })
        ≡ ok b
      → b ≡ pack gnss_format (step ∷ time ∷ x ∷ y ∷ [])
  unfolding encode_gnss
  gnss_back step time x y b h1 h2 h =
      ground (arith, fl.to_bits-from_bits x h1, fl.to_bits-from_bits y h2)

  pub landmark_back :
      (step time number x y range bearing : ℕ) (b : List ℕ)
      → x < 2 ^ 32
      → y < 2 ^ 32
      → range < 2 ^ 32
      → bearing < 2 ^ 32
      → encode_landmark fl (record {
        sample_step_id = int step;
        timestamp_us = int time;
        landmark_id = int number;
        landmark_x_m = fl.from_bits x;
        landmark_y_m = fl.from_bits y;
        range_m = fl.from_bits range;
        bearing_rad = fl.from_bits bearing;
      })
        ≡ ok b
      → b ≡ pack landmark_format (step ∷ time ∷ number ∷ 0 ∷ x ∷ y ∷ range ∷ bearing ∷ [])
  unfolding encode_landmark
  landmark_back step time number x y range bearing b h1 h2 h3 h4 h = ground (
    arith,
    fl.to_bits-from_bits x h1,
    fl.to_bits-from_bits y h2,
    fl.to_bits-from_bits range h3,
    fl.to_bits-from_bits bearing h4,
  )

  pub sensor_prefix_back :
      (present faults : ℕ) (p : SensorFramePayload fl.Float) (b : List ℕ)
      → p.present_mask ≡ int present
      → p.fault_mask ≡ int faults
      → encode_sensor_prefix fl p ≡ ok b
      → b ≡ pack sensor_prefix_format (present ∷ faults ∷ [])
  unfolding encode_sensor_prefix
  sensor_prefix_back present faults p b h1 h2 h = ground arith

  pub point_back :
      (x y speed radius : ℕ) (w : RouteWaypoint fl.Float) (b : List ℕ)
      → Fits route_point_format (x ∷ y ∷ speed ∷ radius ∷ [])
      → decode_point fl (x ∷ y ∷ speed ∷ radius ∷ []) ≡ ok w
      → encode_point fl w ≡ ok b
      → b ≡ pack route_point_format (x ∷ y ∷ speed ∷ radius ∷ [])
  unfolding decode_point encode_point
  point_back x y speed radius w b fit h k = ground (
    arith,
    fl.to_bits-from_bits x fit.0,
    fl.to_bits-from_bits y fit.1.0,
    fl.to_bits-from_bits speed fit.1.1.0,
    fl.to_bits-from_bits radius fit.1.1.1.0,
  )

  -- A list of unpacked floats that all pass.
  all_finite_bits_back :
      (ws ns : List ℕ)
      → All (λ w. w < 2 ^ 32) ws
      → all_finite_bits fl (map fl.from_bits ws) ≡ ok ns
      → ns ≡ ws
  unfolding all_finite_bits
  all_finite_bits_back [] ns fit h = cc
  all_finite_bits_back (w ∷ ws) ns fit h =
      let (bits, e, h') =
        >>=-eq-ok (finite_bits fl (fl.from_bits w))
          (λ bits. all_finite_bits fl (map fl.from_bits ws) >>= λ rest. ok (bits ∷ rest)) h in
      let (rest, e', h'') =
        >>=-eq-ok (all_finite_bits fl (map fl.from_bits ws)) (λ rest. ok (bits ∷ rest)) h' in
      ok_inj (sym h'')
      ∙ ap₂ (λ (a : ℕ) l. a ∷ l) (finite_bits_back w bits fit.0 e)
          (all_finite_bits_back ws rest fit.1 e')
    where
      ok_inj : {a b : List ℕ} → ok a ≡ ok b → a ≡ b
      ok_inj q = cc

  all_words_back : (ws ns : List ℕ) → all_words fl (map int ws) ≡ ok ns → ns ≡ ws
  unfolding all_words uint
  all_words_back [] ns h = cc
  all_words_back (w ∷ ws) ns h =
      let (word, e, h') =
        >>=-eq-ok (uint (int w) 32)
          (λ word. all_words fl (map int ws) >>= λ words. ok (word ∷ words)) h in
      let (rest, e', h'') = >>=-eq-ok (all_words fl (map int ws)) (λ words. ok (word ∷ words)) h' in
      let same : word ≡ w = ground arith in
      ok_inj (sym h'') ∙ ap₂ (λ (a : ℕ) l. a ∷ l) same (all_words_back ws rest e')
    where
      ok_inj : {a b : List ℕ} → ok a ≡ ok b → a ≡ b
      ok_inj q = cc

  summary_back :
      (evaluated rejected total maximum : ℕ) (ns : List ℕ)
      → total < 2 ^ 32
      → maximum < 2 ^ 32
      → nis_summary_fields fl (summary fl evaluated rejected total maximum) ≡ ok ns
      → ns ≡ evaluated ∷ rejected ∷ total ∷ maximum ∷ []
  unfolding nis_summary_fields
  summary_back evaluated rejected total maximum ns h1 h2 h =
      ground (arith, fl.to_bits-from_bits total h1, fl.to_bits-from_bits maximum h2)

  pub control_command_back :
      (steering acceleration speed mode flags reserved : ℕ) (p : ControlCommandPayload fl.Float)
      (b : List ℕ)
      → Fits control_command_format (steering ∷ acceleration ∷ speed ∷ mode ∷ flags ∷ reserved ∷ [])
      → decode_control_command fl (steering ∷ acceleration ∷ speed ∷ mode ∷ flags ∷ reserved ∷ [])
        ≡ ok p
      → encode_control_command fl p ≡ ok b
      → b
        ≡ pack control_command_format
            (steering ∷ acceleration ∷ speed ∷ mode ∷ flags ∷ reserved ∷ [])
  unfolding decode_control_command encode_control_command decode_enum
  control_command_back steering acceleration speed mode flags reserved p b fit h k = ground (
    arith,
    fl.to_bits-from_bits steering fit.0,
    fl.to_bits-from_bits acceleration fit.1.0,
    fl.to_bits-from_bits speed fit.1.1.0,
    mode_code-mode_of mode p.mode,
  )

  estimate_encoded :
      (ws : List ℕ) (p : StateEstimatePayload fl.Float) (b : List ℕ) (mode flags : ℕ)
      → All (λ w. w < 2 ^ 32) ws
      → estimate_values fl p ≡ map fl.from_bits ws
      → navigation_code p.navigation_mode ≡ mode
      → p.flags ≡ int flags
      → encode_state_estimate fl p ≡ ok b
      → b ≡ pack state_estimate_format (ws ++ (mode ∷ flags ∷ 0 ∷ []))
  unfolding encode_state_estimate
  estimate_encoded ws p b mode flags fit values member flag k =
      let read =
        Result-cases (all_finite_bits fl (estimate_values fl p)) ws
          (λ ns e. all_finite_bits_back ws ns fit (ap (all_finite_bits fl) (sym values) ∙ e)) in
      ground (arith, read)

  pub state_estimate_back :
      (x y heading speed yaw_rate bias c0 c1 c2 c3 c4 c5 mode flags reserved : ℕ)
      (p : StateEstimatePayload fl.Float) (b : List ℕ)
      → Fits state_estimate_format (
          x ∷ y ∷ heading ∷ speed ∷ yaw_rate ∷ bias ∷ c0 ∷ c1 ∷ c2 ∷ c3 ∷ c4 ∷ c5 ∷ mode ∷ flags
          ∷ reserved ∷ [])
      → decode_state_estimate fl (
          x ∷ y ∷ heading ∷ speed ∷ yaw_rate ∷ bias ∷ c0 ∷ c1 ∷ c2 ∷ c3 ∷ c4 ∷ c5 ∷ mode ∷ flags
          ∷ reserved ∷ [])
        ≡ ok p
      → encode_state_estimate fl p ≡ ok b
      → b
        ≡ pack state_estimate_format (
            x ∷ y ∷ heading ∷ speed ∷ yaw_rate ∷ bias ∷ c0 ∷ c1 ∷ c2 ∷ c3 ∷ c4 ∷ c5 ∷ mode ∷ flags
            ∷ reserved ∷ [])
  unfolding decode_state_estimate decode_enum
  state_estimate_back x y heading speed yaw_rate bias c0 c1 c2 c3 c4 c5 mode flags reserved p b fit
        h k =
      let zero_ : reserved ≡ 0 = ground arith in
      let member : navigation_code p.navigation_mode ≡ mode =
        ground (arith, navigation_code-navigation_of mode p.navigation_mode) in
      let values : estimate_values fl p
          ≡ map fl.from_bits
              (x ∷ y ∷ heading ∷ speed ∷ yaw_rate ∷ bias ∷ c0 ∷ c1 ∷ c2 ∷ c3 ∷ c4 ∷ c5 ∷ []) =
        ground arith in
      let flag : p.flags ≡ int flags = ground arith in
      rw zero_ (
        estimate_encoded
          (x ∷ y ∷ heading ∷ speed ∷ yaw_rate ∷ bias ∷ c0 ∷ c1 ∷ c2 ∷ c3 ∷ c4 ∷ c5 ∷ []) p b mode
          flags (omega arith) values member flag k)

  words_cases :
      (ws : List ℕ)
      → (all_words fl (map int ws) ≡ ok ws)
        ⊎ ((e : ProtocolErrorCode) × (all_words fl (map int ws) ≡ err e))
  words_cases ws = Result-cases (all_words fl (map int ws)) ws (λ ns e. all_words_back ws ns e)

  summary_cases :
      (evaluated rejected total maximum : ℕ)
      → total < 2 ^ 32
      → maximum < 2 ^ 32
      → (nis_summary_fields fl (summary fl evaluated rejected total maximum)
          ≡ ok (evaluated ∷ rejected ∷ total ∷ maximum ∷ []))
        ⊎ ((e : ProtocolErrorCode) × (nis_summary_fields fl
                (summary fl evaluated rejected total maximum)
              ≡ err e))
  summary_cases evaluated rejected total maximum h1 h2 =
      Result-cases (nis_summary_fields fl (summary fl evaluated rejected total maximum))
        (evaluated ∷ rejected ∷ total ∷ maximum ∷ [])
        (λ ns e. summary_back evaluated rejected total maximum ns h1 h2 e)

  module _ (state mode flags w0 w1 w2 w3 w4 w5 w6 w7 w8 w9 w10 w11 : ℕ)
      (e0 r0 t0 m0 e1 r1 t1 m1 e2 r2 t2 m2 e3 r3 t3 m3 : ℕ) where
    abbrev pub health_values : List ℕ
    health_values =
        state ∷ mode ∷ flags ∷ w0 ∷ w1 ∷ w2 ∷ w3 ∷ w4 ∷ w5 ∷ w6 ∷ w7 ∷ w8 ∷ w9 ∷ w10 ∷ w11 ∷ e0 ∷ r0
        ∷ t0 ∷ m0 ∷ e1 ∷ r1 ∷ t1 ∷ m1 ∷ e2 ∷ r2 ∷ t2 ∷ m2 ∷ e3 ∷ r3 ∷ t3 ∷ m3 ∷ []

    pub health_status_back :
        (p : HealthStatusPayload fl.Float) (b : List ℕ)
        → Fits health_status_format health_values
        → decode_health_status fl health_values ≡ ok p
        → encode_health_status fl p ≡ ok b
        → b ≡ pack health_status_format health_values
    unfolding decode_health_status encode_health_status decode_enum uint
    health_status_back p b fit h k = ground (
      arith,
      runtime_code-runtime_of state p.runtime_state,
      navigation_code-navigation_of mode p.navigation_mode,
      words_cases (w0 ∷ w1 ∷ w2 ∷ w3 ∷ w4 ∷ w5 ∷ w6 ∷ w7 ∷ w8 ∷ w9 ∷ w10 ∷ w11 ∷ []),
      summary_cases e0 r0 t0 m0 (omega arith) (omega arith),
      summary_cases e1 r1 t1 m1 (omega arith) (omega arith),
      summary_cases e2 r2 t2 m2 (omega arith) (omega arith),
      summary_cases e3 r3 t3 m3 (omega arith) (omega arith),
    )
