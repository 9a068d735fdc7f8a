-- ===== src/Hardware/Exchanges.antt =====
-- The exchange of `validate_transport` (host/src/navbench/hardware.py) ends, if time passes.
use navbench.Common.{ℕ, zero, suc, ◌+◌, ◌≤◌, ◌<◌, false, arith}
use navbench.Protocol.Value.{int, Binary32}
use navbench.Session.Run.{Run, ◌>>=◌, ◌>>◌, pure, Returns, Returns-bind, Returns-if, Returns-pair}
use navbench.Session.Calls.{send_sensor}
use navbench.Session.Route.{send_route}
use navbench.Session.Pace.{send_sensor-Within, send_route-Within}
use navbench.Hardware.Types.{
  Bench, poll_period_s, watchdog_quiet_s, frame_period_s, normal_frame_count,
}
use navbench.Hardware.Responses.{Responses, no_responses}
use navbench.Hardware.Opening.{State, clock}
use navbench.Hardware.Frames.{
  poll_responses, sleep_until, frame_loop, exchange_frame, exchange_frames, exchange,
  stationary_sensor_frame, validation_route,
}
use navbench.Hardware.Pacing.{
  Rank, Running, frame_pause, watch_pause, not_late, poll_responses-Within,
}

module _ (fl : Binary32) (b : Bench) where
  module _ (q : b.Seconds) (m : ℕ)
      (watch_rank : Rank b
        (λ now. b.below (b.minus now q) (watchdog_quiet_s b))
        (watch_pause b q)) where
    -- The pauses of the watchdog's loop that are left, when the exchange goes on.
    abbrev Kept : {A : Type 0} → A → State fl b → Type 0
    Kept a s = watch_rank.left s.transport ≤ m

    frame_loop-Returns :
        (d : b.Seconds) (rank : Rank b (λ now. b.below now d) (frame_pause b d)) (fuel : ℕ)
        (started_s : b.Seconds) (step_id : ℕ) (r : Responses fl.Float) (s : State fl b)
        → rank.left s.transport < fuel
        → watch_rank.left s.transport ≤ m
        → Returns Kept (frame_loop fl b fuel started_s d step_id r s)
    unfolding frame_loop
    frame_loop-Returns d rank zero started_s step_id r s h k = absurd (omega arith)
    frame_loop-Returns d rank (suc fuel) started_s step_id r s h k =
        let n = rank.left s.transport in
        let read = record s { transport = (b.clock s.transport).0 } in
        let next : Responses fl.Float → Run (State fl b) (Responses fl.Float) = λ heard.
          sleep_until fl b d (poll_period_s b) >> frame_loop fl b fuel started_s d step_id heard in
        Returns-if Kept (b.below ((b.clock s.transport).1) d)
          (poll_responses fl b started_s step_id r >>= next) (pure r) read
          (λ early.
            Returns-bind
              (λ (heard : Responses fl.Float) s'.
                (rank.left s'.transport ≤ n) × (watch_rank.left s'.transport ≤ m))
              Kept (poll_responses fl b started_s step_id r read) next
              (Returns-pair (λ heard s'. rank.left s'.transport ≤ n)
                (λ heard s'. watch_rank.left s'.transport ≤ m)
                (poll_responses fl b started_s step_id r read)
                (poll_responses-Within fl b _ _ rank n started_s step_id r read
                  (rank.look s.transport))
                (poll_responses-Within fl b _ _ watch_rank m started_s step_id r read
                  (omega (arith, k, watch_rank.look s.transport))))
              (λ heard s' (low, kept).
                frame_loop-Returns d rank fuel started_s step_id heard _
                  (omega (
                    arith,
                    h,
                    low,
                    not_late fl b _ _ rank s.transport early,
                    rank.wait s'.transport,
                  ))
                  (omega (
                    arith,
                    kept,
                    watch_rank.look s'.transport,
                    watch_rank.rest _ ((b.clock s'.transport).0),
                  ))))
          (λ late. omega (arith, k, watch_rank.look s.transport))

  module _ (running : Running b) (fuel : ℕ) (enough : running.rounds < fuel) where
    -- The watchdog's loop is near, seen from the last frame that was sent.
    abbrev pub Near : b.Seconds × Responses fl.Float → State fl b → Type 0
    Near (sent, r) s = (running.watches sent).left s.transport ≤ running.rounds

    exchange_frame-Near :
        (started_s : b.Seconds) (step_id : ℕ) (r : Responses fl.Float) (s : State fl b)
        → Returns Near (exchange_frame fl b fuel started_s step_id r s)
    unfolding exchange_frame
    exchange_frame-Near started_s step_id r s =
        let sent = (b.clock s.transport).1 in
        let rank = running.watches sent in
        let m = running.rounds in
        let read = record s { transport = (b.clock s.transport).0 } in
        let call = send_sensor fl b.io (int step_id) (stationary_sensor_frame fl b step_id) in
        let loop : Run (State fl b) (Responses fl.Float) = clock fl b >>= λ now.
        frame_loop fl b fuel started_s (b.plus now (frame_period_s b)) step_id r in
        let last = poll_responses fl b started_s step_id in
        Returns-bind (λ heard s'. rank.left s'.transport ≤ m) Near ((call >> loop) read)
          (λ heard. last heard >>= λ all. pure (sent, all))
          (Returns-bind (λ u s'. rank.left s'.transport ≤ m)
            (λ heard s'. rank.left s'.transport ≤ m) (call read) (λ u. loop)
            (send_sensor-Within fl b.io rank.left rank.quiet m (int step_id)
              (stationary_sensor_frame fl b step_id) read (running.near_watch s.transport))
            (λ u s' k.
              frame_loop-Returns sent m rank _ (running.frames _) fuel started_s step_id r _
                (omega (arith, enough, running.near_frame s'.transport))
                (omega (arith, k, rank.look s'.transport))))
          (λ heard s' k.
            Returns-bind (λ all s''. rank.left s''.transport ≤ m) Near (last heard s')
              (λ all. pure (sent, all))
              (poll_responses-Within fl b _ _ rank m started_s step_id heard s' k) (λ all s'' l. l))

    exchange_frames-Near :
        (started_s : b.Seconds) (frames step_id : ℕ) (p : b.Seconds × Responses fl.Float)
        (s : State fl b)
        → Near p s
        → Returns Near (exchange_frames fl b fuel started_s frames step_id p s)
    unfolding exchange_frames
    exchange_frames-Near started_s zero step_id (sent, r) s h = h
    exchange_frames-Near started_s (suc frames) step_id (sent, r) s h =
        Returns-bind Near Near (exchange_frame fl b fuel started_s step_id r s)
          (exchange_frames fl b fuel started_s frames (step_id + 1))
          (exchange_frame-Near started_s step_id r s)
          (λ p s' k. exchange_frames-Near started_s frames (step_id + 1) p s' k)

    pub exchange-Near :
        (started_s : b.Seconds) (s : State fl b) → Returns Near (exchange fl b fuel started_s s)
    unfolding exchange
    exchange-Near started_s s =
        let rank = running.watches ((b.clock s.transport).1) in
        let m = running.rounds in
        let read = record s { transport = (b.clock s.transport).0 } in
        let call = send_route fl b.io (int 1) (validation_route fl b) (int 0) false in
        Returns-bind (λ u s'. rank.left s'.transport ≤ m) Near (call read)
          (λ u.
            exchange_frames fl b fuel started_s normal_frame_count 1
              ((b.clock s.transport).1, no_responses))
          (send_route-Within fl b.io rank.left rank.quiet m (int 1) (validation_route fl b) (int 0)
            false read (running.near_watch s.transport))
          (λ u s' k. exchange_frames-Near started_s normal_frame_count 1 _ s' k)
