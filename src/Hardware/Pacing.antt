-- ===== src/Hardware/Pacing.antt =====
-- What the loops of `validate_transport` (host/src/navbench/hardware.py) ask of a clock, and its polls
-- in the time that is left.
use navbench.Common.{
  ℕ, zero, suc, ◌-◌, ◌≤◌, ◌≡◌, ◌≢◌, refl, Bool, true, false, Option, none, some, arith,
}
use navbench.Protocol.Value.{Scalar, Binary32}
use navbench.Session.Run.{Run, ◌>>=◌, Returns, Returns-bind}
use navbench.Session.Poll.{poll}
use navbench.Session.Pace.{IsQuiet, poll-Within}
use navbench.Hardware.Types.{
  Bench, poll_period_s, watchdog_quiet_s, handshake_deadline_s, frame_period_s, lower, upper,
}
use navbench.Hardware.Responses.{Responses, ResponseError, consume}
use navbench.Hardware.Opening.{State, Events, now_ms, or_value_error, poll_now}
use navbench.Hardware.Frames.{or_session_error, poll_responses}

-- A loop that looks at the clock, tests what it reads, and pauses. `left` bounds the pauses until the
-- test fails: no call makes it grow, a pause makes it fall, and where it is zero, the test fails.
pub record Rank (b : Bench) (test : b.Seconds → Bool) (pause : b.io.Transport → b.io.Transport)
    : Type 0 where
  pub left : b.io.Transport → ℕ
  pub quiet : IsQuiet b.io left
  pub look : (t : b.io.Transport) → left ((b.clock t).0) ≤ left t
  pub rest : (seconds : b.Seconds) (t : b.io.Transport) → left (b.sleep seconds t) ≤ left t
  pub wait : (t : b.io.Transport) → left (pause t) ≤ left t - 1
  pub late : (t : b.io.Transport) → left t ≡ 0 → test ((b.clock t).1) ≡ false

-- The pauses of the three loops.
abbrev pub frame_pause : (b : Bench) → b.Seconds → b.io.Transport → b.io.Transport
frame_pause b deadline t =
    b.sleep
      (lower b (poll_period_s b) (upper b (b.of_milliseconds 0) (b.minus deadline ((b.clock t).1))))
      ((b.clock t).0)

abbrev pub watch_pause : (b : Bench) → b.Seconds → b.io.Transport → b.io.Transport
watch_pause b quiet_s t =
    b.sleep
      (lower b (poll_period_s b) (
        upper b (b.of_milliseconds 0)
          (b.minus (watchdog_quiet_s b) (b.minus ((b.clock t).1) quiet_s))))
      ((b.clock t).0)

-- What the loops ask of a clock and a sleeper: their tests fail in time, and a deadline that is set is
-- at most `rounds` pauses away.
pub record Running (b : Bench) : Type 0 where
  pub rounds : ℕ
  pub handshakes :
      (d : b.Seconds) → Rank b (λ now. b.at_most now d) (λ t. b.sleep (poll_period_s b) t)
  pub frames : (d : b.Seconds) → Rank b (λ now. b.below now d) (frame_pause b d)
  pub watches :
      (q : b.Seconds)
      → Rank b (λ now. b.below (b.minus now q) (watchdog_quiet_s b)) (watch_pause b q)
  pub near_handshake :
      (t : b.io.Transport)
      → (handshakes (b.plus ((b.clock t).1) (handshake_deadline_s b))).left ((b.clock t).0) ≤ rounds
  pub near_frame :
      (t : b.io.Transport)
      → (frames (b.plus ((b.clock t).1) (frame_period_s b))).left ((b.clock t).0) ≤ rounds
  pub near_watch : (t : b.io.Transport) → (watches ((b.clock t).1)).left ((b.clock t).0) ≤ rounds

module _ (fl : Binary32) (b : Bench) where
  module _ (test : b.Seconds → Bool) (pause : b.io.Transport → b.io.Transport)
      (rank : Rank b test pause) where
    -- At most so many pauses are left.
    abbrev pub Within : ℕ → {A : Type 0} → A → State fl b → Type 0
    Within n a s = rank.left s.transport ≤ n

    pub not_late : (t : b.io.Transport) → test ((b.clock t).1) ≡ true → 1 ≤ rank.left t
    not_late t early = positive_unless (rank.left t) (λ e. let l = rank.late t e in cc)
      where
        positive_unless : (n : ℕ) → n ≢ 0 → 1 ≤ n
        positive_unless zero h = absurd (h refl)
        positive_unless (suc n) h = omega arith

    pub timed-Within :
        {A : Type 0} (n : ℕ) (started_s : b.Seconds) (method : Scalar → Run (State fl b) A)
        (s : State fl b)
        → ((now : Scalar) (s' : State fl b)
            → rank.left s'.transport ≤ n
            → Returns (Within n) (method now s'))
        → rank.left s.transport ≤ n
        → Returns (Within n) ((now_ms fl b started_s >>= method) s)
    timed-Within n started_s method s within h =
        Returns-bind (Within n) (Within n) (now_ms fl b started_s s) method
          (named (b.milliseconds (b.minus ((b.clock s.transport).1) started_s))
            (record s { transport = (b.clock s.transport).0 })
            (omega (arith, h, rank.look s.transport)))
          within
      where
        named :
            (now : Option ℕ) (s' : State fl b)
            → rank.left s'.transport ≤ n
            → Returns (Within n) (or_value_error fl b now s')
        named none s' k = λ f. cc
        named (some now) s' k = k

    pub poll_now-Within :
        (n : ℕ) (started_s : b.Seconds) (s : State fl b)
        → rank.left s.transport ≤ n
        → Returns (Within n) (poll_now fl b started_s s)
    poll_now-Within n started_s s h =
        timed-Within n started_s (poll fl b.io) s
          (λ now s'. poll-Within fl b.io rank.left rank.quiet n now s') h

  pub poll_responses-Within :
      (test : b.Seconds → Bool) (pause : b.io.Transport → b.io.Transport) (rank : Rank b test pause)
      (n : ℕ) (started_s : b.Seconds) (step_id : ℕ) (r : Responses fl.Float) (s : State fl b)
      → rank.left s.transport ≤ n
      → Returns
          (λ (r' : Responses fl.Float) (s' : State fl b). rank.left s'.transport ≤ n)
          (poll_responses fl b started_s step_id r s)
  unfolding poll_responses
  poll_responses-Within test pause rank n started_s step_id r s h =
      Returns-bind (λ (events : Events fl b) s'. rank.left s'.transport ≤ n)
        (λ r' s'. rank.left s'.transport ≤ n) (poll_now fl b started_s s)
        (λ events. or_session_error fl b (consume step_id events r))
        (poll_now-Within test pause rank n started_s s h)
        (λ events s' k. errors (consume step_id events r) s' k)
    where
      errors :
          (result : Responses fl.Float × Option ResponseError) (s' : State fl b)
          → rank.left s'.transport ≤ n
          → Returns
              (λ (r' : Responses fl.Float) (s'' : State fl b). rank.left s''.transport ≤ n)
              (or_session_error fl b result s')
      errors (r', none) s' k = k
      errors (r', some e) s' k = λ f. cc
