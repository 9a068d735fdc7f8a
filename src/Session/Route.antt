-- ===== src/Session/Route.antt =====
-- `HostSession.send_route` of host/src/navbench/session.py: a route in chunks that fit the
-- negotiated payload.
use navbench.Common.{
  ℕ, zero, suc, ◌+◌, ◌-◌, ◌/◌, min, Bool, true, false, none, some, Option, List, [], ◌∷◌, length,
  take, drop, ltb, ◌==◌, if◌then◌else◌,
}
use navbench.Protocol.Value.{Scalar, int, Binary32}
use navbench.Protocol.Enums.{MessageType}
use navbench.Protocol.Payload.Types.{TypedPayload, RouteWaypoint}
use navbench.Protocol.Payload.Encode.{max_route_points_per_chunk}
use navbench.Transport.Interface.{ByteTransport}
use navbench.Session.Run.{session_error, value_error, done, failed, Run, continue_with}
use navbench.Session.Types.{Session, route_prefix_payload_size}
use navbench.Session.Send.{when_active, send}

-- `range(start, stop, step)`, by the number of rounds left.
unfoldable pub range_from : (rounds : ℕ) → ℕ → (stop step : ℕ) → List ℕ
range_from zero start stop step = []
range_from (suc rounds) start stop step =
    if ltb start stop then start ∷ range_from rounds (start + step) stop step else []

abbrev pub flag : Bool → ℕ → ℕ
flag true bit = bit
flag false bit = 0

-- CLEAR_EXISTING, FINAL_CHUNK and LOOP_ROUTE are three different bits, so that their union is a sum.
unfoldable pub chunk_flags : (start count total : ℕ) → Bool → ℕ
chunk_flags start count total loop_route =
    flag (start == 0) 1 + flag (start + count == total) 2 + flag loop_route 4

-- `min(MAX_ROUTE_POINTS_PER_CHUNK, (limit - ROUTE_PREFIX_PAYLOAD_SIZE) // 16)`, where a negative
-- number stands with zero: both are refused.
abbrev pub chunk_capacity : ℕ → ℕ
chunk_capacity limit = min max_route_points_per_chunk ((limit - route_prefix_payload_size) / 16)

module _ (fl : Binary32) where
  -- The chunk that starts at `start`.
  unfoldable pub route_chunk_at :
      Scalar → List (RouteWaypoint fl.Float) → Bool → ℕ → ℕ → TypedPayload fl.Float
  route_chunk_at route_id points loop_route points_per_chunk start =
      let chunk = take points_per_chunk (drop start points) in
      TypedPayload.route_chunk (record {
        route_id = route_id;
        start_index = int start;
        total_count = int (length points);
        flags = int (chunk_flags start (length chunk) (length points) loop_route);
        points = chunk;
      })

module _ (fl : Binary32) (io : ByteTransport) where
  open io use {Transport}

  -- The loop over the starts.
  unfoldable pub send_chunks :
      Scalar → (ℕ → TypedPayload fl.Float) → List ℕ → Run (Session Transport) (Unit {0})
  send_chunks step_id chunk_at [] s = (s, done tt)
  send_chunks step_id chunk_at (start ∷ starts) s =
      continue_with (λ _. send_chunks step_id chunk_at starts)
        (send fl io MessageType.route_chunk step_id (chunk_at start) s)

  -- With the negotiated limit, which may be missing.
  abbrev pub send_limited :
      Scalar
      → List (RouteWaypoint fl.Float)
      → Scalar
      → Bool
      → Option ℕ
      → Run (Session Transport) (Unit {0})
  send_limited route_id points step_id loop_route none s = (s, failed session_error)
  send_limited route_id points step_id loop_route (some limit) s =
      if chunk_capacity limit == 0
      then (s, failed session_error)
      else send_chunks step_id (route_chunk_at fl route_id points loop_route (chunk_capacity limit))
          (range_from (length points) 0 (length points) (chunk_capacity limit)) s

  abbrev pub send_points :
      Scalar → List (RouteWaypoint fl.Float) → Scalar → Bool → Run (Session Transport) (Unit {0})
  send_points route_id points step_id loop_route s =
      if length points == 0
      then (s, failed value_error)
      else if ltb 0xFFFF (length points)
      then (s, failed value_error)
      else send_limited route_id points step_id loop_route s.negotiated_max_payload s

  unfoldable pub send_route :
      Scalar → List (RouteWaypoint fl.Float) → Scalar → Bool → Run (Session Transport) (Unit {0})
  send_route route_id points step_id loop_route =
      when_active (send_points route_id points step_id loop_route)
