-- ===== src/Session/Pace.antt =====
-- A bound on the transport that reads and writes keep, under the methods of `HostSession`
-- (host/src/navbench/session.py).
use navbench.Common.{ℕ, ◌≤◌, ◌≡◌, ap, Bool, List, arith}
use navbench.Protocol.Value.{Scalar, int, Binary32}
use navbench.Protocol.Enums.{MessageType}
use navbench.Protocol.Payload.Types.{TypedPayload, SensorFramePayload, RouteWaypoint}
use navbench.Transport.Interface.{ByteTransport, WriteResult, ReadResult}
use navbench.Session.Run.{Answer, after_bind, after_if, Returns, Returns-state}
use navbench.Session.Types.{Session, hello_sent}
use navbench.Session.Send.{is_closed, validate_now, send}
use navbench.Session.Calls.{
  fresh, count_reconnect, host_hello, set_state_after, start_at, start, reconnect, send_sensor,
}
use navbench.Session.Route.{send_route}
use navbench.Session.Poll.{poll_at, poll}
use navbench.Session.Flush.{IsFlushStable}
use navbench.Session.Keeps.{IsSendStable, send-keeps, send_sensor-keeps, send_route-keeps}
use navbench.Session.KeepsPoll.{IsPollStable, poll_at-keeps}
use navbench.Session.Invariant.{validate_now-eq}
use navbench.Session.Ends.{
  start-Ended, reconnect-Ended, send_sensor-Ended, send_route-Ended, poll-Ended,
}

-- Neither a read nor a write makes it grow.
pub record IsQuiet (io : ByteTransport) (left : io.Transport → ℕ) : Type 0 where
  pub of_read :
      (t u : io.Transport) (n : ℕ) (r : ReadResult) → io.read t n ≡ (u, r) → left u ≤ left t
  pub of_write :
      (t u : io.Transport) (bytes : List ℕ) (r : WriteResult)
      → io.write t bytes ≡ (u, r)
      → left u ≤ left t

module _ (fl : Binary32) (io : ByteTransport) (left : io.Transport → ℕ) (quiet : IsQuiet io left)
    (n : ℕ) where
  abbrev pub Within : Session (io.Transport) → Type 0
  Within s = left s.transport ≤ n

  flush_stable : IsFlushStable io Within
  flush_stable = record {
    of_refused = λ s t r e none h. omega (arith, h, quiet.of_write s.transport t s.tx_buffer r e);
    of_written = λ s t k e fits h. omega (arith, h, quiet.of_write s.transport t s.tx_buffer _ e);
    of_stats = λ s stats h. h;
    of_error = λ s h. h;
  }

  send_stable : IsSendStable io Within
  send_stable = record { of_flush = flush_stable; of_enqueue = λ s packet frame a c d h. h }

  poll_stable : (now : ℕ) → IsPollStable io now Within
  poll_stable now = record {
    of_flush = flush_stable;
    of_read = λ s t r e h. omega (arith, h, quiet.of_read s.transport t 512 r e);
    of_parser = λ s parser h. h;
    of_tracker = λ s tracker h. h;
    of_received = λ s h. h;
    of_negotiate = λ s p e h. h;
    of_expire = λ s live h. h;
  }

  named :
      (now_ms : Scalar) (s : Session (io.Transport)) → Within s → Within ((validate_now now_ms s).0)
  named now_ms s h = let (last, e) = validate_now-eq now_ms s in rw (ap (λ s'. s'.transport) e) h

  start_at-Within :
      (now : ℕ) (s : Session (io.Transport)) → Within s → Within ((start_at fl io now s).0)
  start_at-Within now s h = after_if Within (is_closed s.state) _ _ h (
      after_bind Within
        (send fl io MessageType.hello (int 0) (TypedPayload.hello (host_hello s.config))
          (fresh now s))
        (set_state_after hello_sent)
        (send-keeps fl io Within send_stable MessageType.hello (int 0) _ (fresh now s) h)
        (λ u e. send-keeps fl io Within send_stable MessageType.hello (int 0) _ (fresh now s) h))

  start-kept :
      (now_ms : Scalar) (s : Session (io.Transport)) → Within s → Within ((start fl io now_ms s).0)
  unfolding start
  start-kept now_ms s h =
      after_bind Within (validate_now now_ms s) (start_at fl io) (named now_ms s h)
        (λ now e. start_at-Within now _ (named now_ms s h))

  poll-kept :
      (now_ms : Scalar) (s : Session (io.Transport)) → Within s → Within ((poll fl io now_ms s).0)
  unfolding poll
  poll-kept now_ms s h =
      after_bind Within (validate_now now_ms s) (poll_at fl io) (named now_ms s h)
        (λ now e. poll_at-keeps fl io now Within (poll_stable now) _ (named now_ms s h))

  reconnect-kept :
      (now_ms : Scalar) (s : Session (io.Transport))
      → Within s
      → Within ((reconnect fl io now_ms s).0)
  unfolding reconnect
  reconnect-kept now_ms s h =
      after_if Within (is_closed s.state) _ _ h (start-kept now_ms (count_reconnect s) h)

  -- The methods of a validation return within the bound, or raise what the code raises.
  abbrev pub ReturnsWithin : {A : Type 0} → Session (io.Transport) × Answer A → Type 0
  ReturnsWithin {A = A} r = Returns (λ (a : A) (s : Session (io.Transport)). Within s) r

  pub start-Within :
      (now_ms : Scalar) (s : Session (io.Transport))
      → Within s
      → ReturnsWithin (start fl io now_ms s)
  start-Within now_ms s h =
      Returns-state Within (start fl io now_ms s) (start-Ended fl io now_ms s)
        (start-kept now_ms s h)

  pub reconnect-Within :
      (now_ms : Scalar) (s : Session (io.Transport))
      → Within s
      → ReturnsWithin (reconnect fl io now_ms s)
  reconnect-Within now_ms s h =
      Returns-state Within (reconnect fl io now_ms s) (reconnect-Ended fl io now_ms s)
        (reconnect-kept now_ms s h)

  pub poll-Within :
      (now_ms : Scalar) (s : Session (io.Transport))
      → Within s
      → ReturnsWithin (poll fl io now_ms s)
  poll-Within now_ms s h =
      Returns-state Within (poll fl io now_ms s) (poll-Ended fl io now_ms s) (poll-kept now_ms s h)

  pub send_sensor-Within :
      (step_id : Scalar) (payload : SensorFramePayload fl.Float) (s : Session (io.Transport))
      → Within s
      → ReturnsWithin (send_sensor fl io step_id payload s)
  send_sensor-Within step_id payload s h =
      Returns-state Within (send_sensor fl io step_id payload s)
        (send_sensor-Ended fl io step_id payload s)
        (send_sensor-keeps fl io Within send_stable step_id payload s h)

  pub send_route-Within :
      (route_id : Scalar) (points : List (RouteWaypoint fl.Float)) (step_id : Scalar) (loop : Bool)
      (s : Session (io.Transport))
      → Within s
      → ReturnsWithin (send_route fl io route_id points step_id loop s)
  send_route-Within route_id points step_id loop s h =
      Returns-state Within (send_route fl io route_id points step_id loop s)
        (send_route-Ended fl io route_id points step_id loop s)
        (send_route-keeps fl io Within send_stable route_id points step_id loop s h)
