-- ===== src/Hardware/Verified.antt =====
-- What a success of `validate_transport` (host/src/navbench/hardware.py) proves: the whole run.
use navbench.Common.{
  ℕ, ◌≡◌, ◌≢◌, refl, ap, ◌⊎◌, inl, inr, Bool, true, false, Option, none, some, [],
}
use navbench.Protocol.Value.{int, Binary32}
use navbench.Session.Run.{
  Answer, done, failed, pure, Ensures, Ensures-bind, Ensures-if, Ensures-weaken, Ensures-answer,
}
use navbench.Session.Types.{active, new_session, new_config}
use navbench.Session.Invariant.{IsSound, Agreed, active_state, aside-IsSound}
use navbench.Session.Soundness.{poll-IsSound}
use navbench.Session.Reach.{run_calls, run_calls-new_session, step_call-IsSound}
use navbench.Hardware.Types.{
  Bench, HardwareConfig, HardwareValidationResult, success, normal_frame_count, exchange_failed,
  normal_exchange, complete,
}
use navbench.Hardware.Responses.{Responses, ExchangeError, normal_exchange_error}
use navbench.Hardware.Responses.Window.{StopHeard}
use navbench.Hardware.Opening.{State, Events, config_500, result_of, shake_hands}
use navbench.Hardware.Frames.{exchange}
use navbench.Hardware.Validate.{
  watch, after_exchange, finish_exchange, after_handshake, validate_transport,
}
use navbench.Hardware.Trace.{
  Trace, OfHandshake, NoCall, no_calls, clock_read, slept, called, polled, Reached,
}
use navbench.Hardware.Handshaking.{Shaken, shake_hands-Shaken, not_caught-Ensures}
use navbench.Hardware.Exchange.{Frames, HoldingAt, exchange-Holding}
use navbench.Hardware.Watch.{Proves, watch-Proves}
use navbench.Hardware.Answered.{IsClean, Answered, exchange-Answered}

module _ (fl : Binary32) (b : Bench) where
  Trace-IsSound :
      (s0 s : State fl b) (log : Events fl b)
      → Trace fl b OfHandshake s0 log s
      → IsSound s0
      → IsSound s
  Trace-IsSound s0 s log no_calls h = h
  Trace-IsSound s0 s log (clock_read {s = s'} trace) h =
      aside-IsSound s' _ s'.stats s'.parser s'.rx_sequence (Trace-IsSound s0 s' log trace h)
  Trace-IsSound s0 s log (slept {s = s'} seconds trace) h =
      aside-IsSound s' _ s'.stats s'.parser s'.rx_sequence (Trace-IsSound s0 s' log trace h)
  Trace-IsSound s0 s log (called {s = s'} c allowed trace) h =
      step_call-IsSound fl b.io c s' (Trace-IsSound s0 s' log trace h)
  Trace-IsSound s0 s log (polled {log = before} {s = s'} now e trace) h =
      rw (ap (λ r. r.0) e) at (poll-IsSound fl b.io now s' (Trace-IsSound s0 s' before trace h))

  new_session-IsSound : (t : b.io.Transport) → IsSound (new_session t config_500)
  unfolding run_calls new_config
  new_session-IsSound t = run_calls-new_session fl b.io 500 32 4096 (int 31) config_500 t [] refl

  -- What a success was seen to rest on: calls that lead from the new session to an active one with an
  -- agreement, the exchange that follows, and the watchdog's check.
  pub record Verified (config : HardwareConfig) (t : b.io.Transport) (s : State fl b) : Type 0 where
    pub first : State fl b
    pub opened : Reached fl b OfHandshake (new_session t config_500) first
    pub is_open : first.state ≡ active
    pub agreed :
        Agreed first.config first.peer_capabilities first.negotiated_max_payload
          first.negotiated_timeout_ms
    pub second : State fl b
    pub heard :
        (log : Events fl b) × Frames fl b first normal_frame_count log second × Answered fl b log
    pub clean : IsClean second.parser.stats second.stats
    pub stopped :
        ((config.watchdog_check ≡ false) × (s ≡ second))
        ⊎ ((log : Events fl b) × Trace fl b NoCall second log s × StopHeard normal_frame_count log)

  -- No success, or one that rests on all of that.
  abbrev Outcome : HardwareConfig → b.io.Transport → HardwareValidationResult → State fl b → Type 0
  Outcome config t result s = (result.exit_code ≢ success) ⊎ Verified config t s

  module _ (config : HardwareConfig) (t : b.io.Transport) (first : State fl b) where
    -- The part of it that comes before the watchdog's check.
    record Exchanged (second : State fl b) : Type 0 where
      opened : Reached fl b OfHandshake (new_session t config_500) first
      is_open : first.state ≡ active
      agreed :
          Agreed first.config first.peer_capabilities first.negotiated_max_payload
            first.negotiated_timeout_ms
      heard :
          (log : Events fl b) × Frames fl b first normal_frame_count log second × Answered fl b log
      clean : IsClean second.parser.stats second.stats

    Exchanged-Verified :
        (second s : State fl b)
        → Exchanged second
        → ((config.watchdog_check ≡ false) × (s ≡ second))
          ⊎ ((log : Events fl b) × Trace fl b NoCall second log s
              × StopHeard normal_frame_count log)
        → Verified config t s
    Exchanged-Verified second s h stopped = record {
      first = first;
      opened = h.opened;
      is_open = h.is_open;
      agreed = h.agreed;
      second = second;
      heard = h.heard;
      clean = h.clean;
      stopped = stopped;
    }

    watched-Outcome :
        (second : State fl b) (result : HardwareValidationResult) (s : State fl b)
        → Exchanged second
        → Proves fl b second result s
        → Outcome config t result s
    unfolding Proves
    watched-Outcome second result s h (inl failing) = inl failing
    watched-Outcome second result s h (inr proof) = inr (Exchanged-Verified second s h (inr proof))

    after_exchange-Outcome :
        (fuel : ℕ) (started_s sent : b.Seconds) (found : Option ExchangeError) (s : State fl b)
        → (found ≡ none → Exchanged s)
        → Ensures (Outcome config t) (after_exchange fl b fuel config started_s sent found s)
    after_exchange-Outcome fuel started_s sent (some e) s h = inl (λ f. cc)
    after_exchange-Outcome fuel started_s sent none s h =
        Ensures-if (Outcome config t) config.watchdog_check (watch fl b fuel started_s sent)
          (pure (result_of success complete)) s
          (λ on.
            Ensures-weaken (Proves fl b s) (Outcome config t) (watch fl b fuel started_s sent s)
              (λ result s' k. watched-Outcome s result s' (h refl) k)
              (watch-Proves fl b s fuel started_s sent s no_calls))
          (λ off. inr (Exchanged-Verified s s (h refl) (inl (off, refl))))

    finish_exchange-Outcome :
        (fuel : ℕ) (started_s : b.Seconds)
        (result : State fl b × Answer (b.Seconds × Responses fl.Float))
        → Reached fl b OfHandshake (new_session t config_500) first
        → first.state ≡ active
        → Agreed first.config first.peer_capabilities first.negotiated_max_payload
            first.negotiated_timeout_ms
        → Ensures (HoldingAt fl b first normal_frame_count) result
        → Ensures (Outcome config t) (finish_exchange fl b fuel config started_s result)
    unfolding normal_exchange_error
    finish_exchange-Outcome fuel started_s (s, failed e) opened is_open agreed h =
        not_caught-Ensures fl b first (Outcome config t) (result_of exchange_failed normal_exchange)
          e s (inl (λ f. cc))
    finish_exchange-Outcome fuel started_s (s, done (sent, r)) opened is_open agreed
          (log, trace, backed) =
        after_exchange-Outcome fuel started_s sent (normal_exchange_error s r) s (λ e.
          let (answered, clean) =
            exchange-Answered fl b log r s.parser.stats s.stats r.command r.estimate r.health refl
              refl refl backed e in
          record {
            opened = opened;
            is_open = is_open;
            agreed = agreed;
            heard = (log, trace, answered);
            clean = clean;
          })

  module _ (fuel : ℕ) (config : HardwareConfig) (t : b.io.Transport) where
    after_handshake-Outcome :
        (started_s : b.Seconds) (succeeds : Bool) (s : State fl b)
        → Shaken fl b (new_session t config_500) succeeds s
        → Ensures (Outcome config t) (after_handshake fl b fuel config started_s succeeds s)
    unfolding Shaken
    after_handshake-Outcome started_s false s h = inl (λ e. cc)
    after_handshake-Outcome started_s true s ((log, trace), is_open) =
        let sound = Trace-IsSound (new_session t config_500) s log trace (new_session-IsSound t) in
        finish_exchange-Outcome config t s fuel started_s (exchange fl b fuel started_s s)
          (log, trace) (active_state s.state is_open) (sound.agreed (active_state s.state is_open))
          (exchange-Holding fl b s fuel started_s)

    validate_transport-Outcome : Ensures (Outcome config t) (validate_transport fl b fuel config t)
    unfolding validate_transport
    validate_transport-Outcome =
        let s0 = new_session t config_500 in
        let read = record s0 { transport = (b.clock s0.transport).0 } in
        let started_s = (b.clock t).1 in
        Ensures-bind (Shaken fl b s0) (Outcome config t) (shake_hands fl b fuel started_s read)
          (after_handshake fl b fuel config started_s)
          (shake_hands-Shaken fl b s0 fuel started_s read ([], clock_read no_calls))
          (λ succeeds s h. after_handshake-Outcome started_s succeeds s h)

    -- A validation that returns success, whatever the transport, the clock and the controller do,
    -- rests on a run of the session that was seen: from a new session, polls, starts and reconnects
    -- lead to an active one, with an agreement on capabilities, payload limit and timeout; behind
    -- it the route was sent, then the sensor frames of the steps 1 to 10 in order, with polls only
    -- behind each; between a frame and the next no ERROR was heard, and each command and each
    -- estimate was for a step up to that frame's and at most five behind it; a command that is no
    -- stop, an estimate aided by GNSS and the health of a running controller were heard; no counted
    -- error of the parser or the session stands against it; and if the watchdog was to be checked,
    -- polls behind the last frame heard a command or a health that is a safe stop, for a step up to 10
    -- and at most five behind it.
    pub validate_transport-Verified :
        (result : HardwareValidationResult)
        → (validate_transport fl b fuel config t).1 ≡ done result
        → result.exit_code ≡ success
        → Verified config t ((validate_transport fl b fuel config t).0)
    validate_transport-Verified result returned succeeds =
        elim (Ensures-answer (Outcome config t) (validate_transport fl b fuel config t) result
          returned validate_transport-Outcome) [
            | inl failing ↦ absurd (failing succeeds)
            | inr proof ↦ proof
          ]
