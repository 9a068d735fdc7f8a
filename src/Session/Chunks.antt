-- ===== src/Session/Chunks.antt =====
-- The chunks of `HostSession.send_route` (host/src/navbench/session.py) fit the negotiated payload.
use navbench.Common.{
  ℕ, length-take, Bool, ◌+◌, ◌*◌, ◌≤◌, ◌<◌, ◌≡◌, refl, List, [], ◌∷◌, ◌++◌, length, drop,
  length-append, arith,
}
use navbench.Protocol.Error.{Result, ok, err, ◌>>=◌, >>=-eq-ok}
use navbench.Protocol.Value.{Binary32}
use navbench.Protocol.Struct.{pack, size}
use navbench.Protocol.Payload.Types.{RouteWaypoint, RouteChunkPayload}
use navbench.Protocol.Payload.Encode.{
  encode_point, encode_points, encode_route_chunk, route_prefix_format,
}
use navbench.Protocol.Value.{Scalar}
use navbench.Protocol.Enums.{MessageType}
use navbench.Protocol.Payload.Encode.{encode_typed_payload}
use navbench.Session.Route.{chunk_capacity, route_chunk_at}

module _ (fl : Binary32) where
  length-encode_point :
      (w : RouteWaypoint fl.Float) (b : List ℕ) → encode_point fl w ≡ ok b → length b ≡ 16
  unfolding encode_point pack
  length-encode_point w b h = ground arith

  length-encode_points :
      (points : List (RouteWaypoint fl.Float)) (b : List ℕ)
      → encode_points fl points ≡ ok b
      → length b ≡ 16 * length points
  unfolding encode_points
  length-encode_points [] b h = ground arith
  length-encode_points (w ∷ points) b h =
      let (point, e, h') =
        >>=-eq-ok (encode_point fl w)
          (λ point. encode_points fl points >>= λ points. ok (point ++ points)) h in
      let (rest, e', h'') =
        >>=-eq-ok (encode_points fl points) (λ points. ok (point ++ points)) h' in
      ground (
        arith,
        length-encode_point w point e,
        length-encode_points points rest e',
        length-append point rest,
        h'',
      )

  length-encode_route_chunk_from :
      (p : RouteChunkPayload fl.Float) (b : List ℕ) (points : Result (List ℕ))
      → encode_points fl p.points ≡ points
      → encode_route_chunk fl p ≡ ok b
      → length b ≡ size route_prefix_format + 16 * length p.points
  unfolding encode_route_chunk pack
  length-encode_route_chunk_from p b (ok bytes) e h =
      ground (arith, e, length-encode_points p.points bytes e)
  length-encode_route_chunk_from p b (err code) e h = ground (arith, e)

  -- The prefix and sixteen bytes for each point.
  pub length-encode_route_chunk :
      (p : RouteChunkPayload fl.Float) (b : List ℕ)
      → encode_route_chunk fl p ≡ ok b
      → length b ≡ size route_prefix_format + 16 * length p.points
  length-encode_route_chunk p b h =
      length-encode_route_chunk_from p b (encode_points fl p.points) refl h

module _ (fl : Binary32) where
  -- A chunk that is encoded fits the payload limit that it was made for.
  pub route_chunk_at-fits :
      (route_id : Scalar) (points : List (RouteWaypoint fl.Float)) (loop_route : Bool)
      (limit start : ℕ) (bytes : List ℕ)
      → 0 < chunk_capacity limit
      → encode_typed_payload fl MessageType.route_chunk
          (route_chunk_at fl route_id points loop_route (chunk_capacity limit) start)
        ≡ ok bytes
      → length bytes ≤ limit
  unfolding route_chunk_at encode_typed_payload
  route_chunk_at-fits route_id points loop_route limit start bytes some_points encoded = omega (
    arith,
    some_points,
    length-encode_route_chunk fl _ bytes encoded,
    length-take (chunk_capacity limit) (drop start points),
  )
