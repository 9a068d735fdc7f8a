-- ===== src/Session/Reach.antt =====
-- A `HostSession` (host/src/navbench/session.py) under any calls of its methods, those that raise
-- included: what is true of every session that the calls lead to.
use navbench.Common.{ℕ, ◌≤◌, ◌<◌, ◌≡◌, refl, Bool, List, [], ◌∷◌, arith}
use navbench.Protocol.Value.{Scalar, Binary32}
use navbench.Protocol.Enums.{RuntimeState, SafeStopReason}
use navbench.Protocol.Payload.Types.{SensorFramePayload, RouteWaypoint}
use navbench.Transport.Interface.{ByteTransport}
use navbench.Session.Run.{done}
use navbench.Session.Types.{SessionConfig, Session, new_config, new_session, safe_stop}
use navbench.Session.Calls.{
  start, reconnect, send_sensor, send_heartbeat, request_safe_stop, close_session,
}
use navbench.Session.Route.{send_route}
use navbench.Session.Poll.{poll}
use navbench.Session.Keeps.{
  send_sensor-keeps, send_heartbeat-keeps, send_route-keeps, request_safe_stop-keeps,
}
use navbench.Session.Invariant.{IsSound, idle-IsSound}
use navbench.Session.SoundSteps.{send_stable}
use navbench.Session.Soundness.{start-IsSound, reconnect-IsSound, poll-IsSound}

-- The methods that change a session, with their arguments.
pub data Call (F : Type 0) : Type 0 where
  call_start call_reconnect call_poll : (now_ms : Scalar) → Call F
  call_sensor : (step_id : Scalar) → SensorFramePayload F → Call F
  call_heartbeat : (step_id uptime_ms monotonic_ms : Scalar) → RuntimeState → Call F
  call_route : (route_id : Scalar) → List (RouteWaypoint F) → (step_id : Scalar) → Bool → Call F
  call_safe_stop : SafeStopReason → (detail step_id : Scalar) → Call F
  call_close : Call F

module _ (fl : Binary32) (io : ByteTransport) where
  open io use {Transport}

  -- The session after a call, whether it returned or raised.
  unfoldable pub step_call : Call fl.Float → Session Transport → Session Transport
  step_call (call_start now_ms) s = (start fl io now_ms s).0
  step_call (call_reconnect now_ms) s = (reconnect fl io now_ms s).0
  step_call (call_poll now_ms) s = (poll fl io now_ms s).0
  step_call (call_sensor step_id payload) s = (send_sensor fl io step_id payload s).0
  step_call (call_heartbeat step_id uptime_ms monotonic_ms state) s =
      (send_heartbeat fl io step_id uptime_ms monotonic_ms state s).0
  step_call (call_route route_id points step_id loop_route) s =
      (send_route fl io route_id points step_id loop_route s).0
  step_call (call_safe_stop reason detail step_id) s =
      (request_safe_stop fl io reason detail step_id s).0
  step_call call_close s = (close_session io s).0

  unfoldable pub run_calls : List (Call fl.Float) → Session Transport → Session Transport
  run_calls [] s = s
  run_calls (c ∷ calls) s = run_calls calls (step_call c s)

  close-IsSound : (s : Session Transport) → IsSound s → IsSound ((close_session io s).0)
  unfolding close_session
  close-IsSound s h = record {
    configured = h.configured;
    buffered = omega arith;
    numbered = h.numbered;
    clocked = h.clocked;
    roomy = h.roomy;
    ranged = λ live. absurd (cc);
    agreed = λ e. absurd cc;
  }

  pub step_call-IsSound :
      (c : Call fl.Float) (s : Session Transport) → IsSound s → IsSound (step_call c s)
  unfolding step_call
  step_call-IsSound (call_start now_ms) s h = start-IsSound fl io now_ms s h
  step_call-IsSound (call_reconnect now_ms) s h = reconnect-IsSound fl io now_ms s h
  step_call-IsSound (call_poll now_ms) s h = poll-IsSound fl io now_ms s h
  step_call-IsSound (call_sensor step_id payload) s h =
      (send_sensor-keeps fl io _ (send_stable io s.last_now_ms) step_id payload s (h, refl)).0
  step_call-IsSound (call_heartbeat step_id uptime_ms monotonic_ms state) s h =
      (send_heartbeat-keeps fl io _ (send_stable io s.last_now_ms) step_id uptime_ms monotonic_ms
        state s (h, refl)).0
  step_call-IsSound (call_route route_id points step_id loop_route) s h =
      (send_route-keeps fl io _ (send_stable io s.last_now_ms) route_id points step_id loop_route s
        (h, refl)).0
  step_call-IsSound (call_safe_stop reason detail step_id) s h =
      (request_safe_stop-keeps fl io _ (send_stable io s.last_now_ms)
        (λ s' k. (idle-IsSound safe_stop s' refl k.0, k.1)) reason detail step_id s (h, refl)).0
  step_call-IsSound call_close s h = close-IsSound s h

  run_calls-IsSound :
      (calls : List (Call fl.Float)) (s : Session Transport)
      → IsSound s
      → IsSound (run_calls calls s)
  unfolding run_calls
  run_calls-IsSound [] s h = h
  run_calls-IsSound (c ∷ calls) s h = run_calls-IsSound calls _ (step_call-IsSound c s h)

new_config-eq-done :
    (timeout reads buffer : ℕ) (required : Scalar) (config : SessionConfig)
    → new_config timeout reads buffer required ≡ done config
    → (0 < config.timeout_ms) × (256 ≤ config.max_tx_buffer)
unfolding new_config
new_config-eq-done timeout reads buffer required config h = ground arith

module _ (fl : Binary32) (io : ByteTransport) where
  open io use {Transport}

  -- Whatever is called on a session with an accepted configuration, whatever its transport does:
  -- the transmit buffer stays within its bound, the next sequence number within 32 bits, the last
  -- packet's time does not pass the last named time, and an active session has agreed to all
  -- required capabilities, to a payload limit that the required messages fit and that the protocol
  -- allows, and to a positive timeout not above its own.
  pub run_calls-new_session :
      (timeout reads buffer : ℕ) (required : Scalar) (config : SessionConfig)
      (transport : Transport) (calls : List (Call fl.Float))
      → new_config timeout reads buffer required ≡ done config
      → IsSound (run_calls fl io calls (new_session transport config))
  run_calls-new_session timeout reads buffer required config transport calls h =
      let (pos, room) = new_config-eq-done timeout reads buffer required config h in
      run_calls-IsSound fl io calls (new_session transport config) (record {
        configured = pos;
        buffered = omega arith;
        numbered = omega arith;
        clocked = tt;
        roomy = room;
        ranged = λ live. absurd (cc);
        agreed = λ e. absurd cc;
      })
