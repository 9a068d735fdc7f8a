-- ===== src/Hardware/Watch.antt =====
-- What the watchdog's check of `validate_transport` (host/src/navbench/hardware.py) proves.
use navbench.Common.{
  ℕ, zero, suc, ◌≡◌, ◌≢◌, refl, ◌⊎◌, inl, inr, Bool, true, false, List, [], ◌∷◌, ◌++◌,
}
use navbench.Protocol.Value.{Binary32}
use navbench.Session.Run.{Run, ◌>>=◌, ◌>>◌, pure, Ensures, Ensures-bind, Ensures-if}
use navbench.Hardware.Types.{
  Bench, HardwareValidationResult, success, watchdog_failed, normal_frame_count, watchdog_check,
  watchdog_quiet_s,
}
use navbench.Hardware.Responses.{Evidence, safe_stop_evidence}
use navbench.Hardware.Responses.Window.{
  StopHeard, Among-append, append-Among, safe_stop_evidence-StopHeard,
}
use navbench.Hardware.Opening.{State, Events, clock, poll_now, result_of}
use navbench.Hardware.Validate.{
  collect, sleep_quiet, is_quiet, watchdog_loop, watchdog_last, watch, verdict_of,
}
use navbench.Hardware.Trace.{Trace, NoCall, clock_read, slept, poll_now-Trace}
use navbench.Hardware.Handshaking.{rescue-Ensures}

module _ (fl : Binary32) (b : Bench) (s0 : State fl b) where
  -- No evidence so far, or a message that proves the stop.
  Watched : List Evidence → State fl b → Type 0
  Watched evidence s =
      (log : Events fl b) × Trace fl b NoCall s0 log s
      × ((evidence ≡ []) ⊎ StopHeard normal_frame_count log)

  evidence_cases : (evidence : List Evidence) → (evidence ≡ []) ⊎ (evidence ≢ [])
  evidence_cases [] = inl refl
  evidence_cases (e ∷ evidence) = inr (λ f. cc)

  StopHeard-append :
      (log more : Events fl b)
      → StopHeard normal_frame_count log
      → StopHeard normal_frame_count (log ++ more)
  StopHeard-append log more (event, among, inside, proof) =
      (event, Among-append event log more among, inside, proof)

  append-StopHeard :
      (log more : Events fl b)
      → StopHeard normal_frame_count more
      → StopHeard normal_frame_count (log ++ more)
  append-StopHeard log more (event, among, inside, proof) =
      (event, append-Among event log more among, inside, proof)

  Watched-more :
      (evidence : List Evidence) (log events : Events fl b) (s : State fl b)
      → Trace fl b NoCall s0 (log ++ events) s
      → (evidence ≡ []) ⊎ StopHeard normal_frame_count log
      → Watched (evidence ++ safe_stop_evidence normal_frame_count events) s
  unfolding Watched
  Watched-more evidence log events s trace (inr heard) =
      (log ++ events, trace, inr (StopHeard-append log events heard))
  Watched-more evidence log events s trace (inl nothing) =
      elim (evidence_cases (safe_stop_evidence normal_frame_count events)) [
        | inl quiet ↦ (log ++ events, trace, inl (rw (nothing, quiet) refl))
        | inr found ↦ (
          log ++ events,
          trace,
          inr (
              append-StopHeard log events
                (safe_stop_evidence-StopHeard normal_frame_count events found)),
        )
      ]

  Watched-same :
      (evidence : List Evidence) (log events : Events fl b) (s : State fl b)
      → Trace fl b NoCall s0 (log ++ events) s
      → (evidence ≡ []) ⊎ StopHeard normal_frame_count log
      → Watched evidence s
  unfolding Watched
  Watched-same evidence log events s trace (inr heard) =
      (log ++ events, trace, inr (StopHeard-append log events heard))
  Watched-same evidence log events s trace (inl nothing) = (log ++ events, trace, inl nothing)

  Watched-waited :
      (evidence : List Evidence) (s : State fl b) (seconds : b.Seconds)
      → Watched evidence s
      → Watched evidence (record s { transport = b.sleep seconds ((b.clock s.transport).0) })
  unfolding Watched
  Watched-waited evidence s seconds (log, trace, heard) =
      (log, slept seconds (clock_read trace), heard)

  Watched-collect :
      (test : Bool) (evidence : List Evidence) (log events : Events fl b) (s : State fl b)
      → Trace fl b NoCall s0 (log ++ events) s
      → (evidence ≡ []) ⊎ StopHeard normal_frame_count log
      → Watched (collect fl b test evidence events) s
  Watched-collect true evidence log events s trace heard =
      Watched-more evidence log events s trace heard
  Watched-collect false evidence log events s trace heard =
      Watched-same evidence log events s trace heard

  watchdog_loop-Watched :
      (fuel : ℕ) (started_s quiet_s : b.Seconds) (evidence : List Evidence) (s : State fl b)
      → Watched evidence s
      → Ensures Watched (watchdog_loop fl b fuel started_s quiet_s evidence s)
  unfolding watchdog_loop Watched
  watchdog_loop-Watched zero started_s quiet_s evidence s h = tt
  watchdog_loop-Watched (suc fuel) started_s quiet_s evidence s (log, trace, heard) =
      let read = record s { transport = (b.clock s.transport).0 } in
      let again = record read { transport = (b.clock read.transport).0 } in
      let test = is_quiet fl b quiet_s ((b.clock read.transport).1) in
      let next : Events fl b → Run (State fl b) (List Evidence) = λ events.
        sleep_quiet fl b quiet_s
        >> watchdog_loop fl b fuel started_s quiet_s (collect fl b test evidence events) in
      Ensures-if Watched (b.below (b.minus ((b.clock s.transport).1) quiet_s) (watchdog_quiet_s b))
        (clock fl b >>= λ later. poll_now fl b started_s >>= λ events.
          sleep_quiet fl b quiet_s
          >> watchdog_loop fl b fuel started_s quiet_s
              (collect fl b (is_quiet fl b quiet_s later) evidence events))
        (pure evidence) read
        (λ early.
          Ensures-bind
            (λ (events : Events fl b) (s' : State fl b). Trace fl b NoCall s0 (log ++ events) s')
            Watched (poll_now fl b started_s again) next
            (poll_now-Trace fl b NoCall s0 started_s log again (clock_read (clock_read trace)))
            (λ events s' k.
              watchdog_loop-Watched fuel started_s quiet_s (collect fl b test evidence events) _ (
                Watched-waited (collect fl b test evidence events) s' _
                  (Watched-collect test evidence log events s' k heard))))
        (λ late. (log, clock_read trace, heard))

  watchdog_last-Watched :
      (started_s quiet_s : b.Seconds) (evidence : List Evidence) (s : State fl b)
      → Watched evidence s
      → Ensures Watched (watchdog_last fl b started_s quiet_s evidence s)
  unfolding Watched
  watchdog_last-Watched started_s quiet_s evidence s (log, trace, heard) =
      let read = record s { transport = (b.clock s.transport).0 } in
      let next : Events fl b → Run (State fl b) (List Evidence) =
        λ events. pure (evidence ++ safe_stop_evidence normal_frame_count events) in
      Ensures-if Watched (is_quiet fl b quiet_s ((b.clock s.transport).1))
        (poll_now fl b started_s >>= next) (pure evidence) read
        (λ long.
          Ensures-bind
            (λ (events : Events fl b) (s' : State fl b). Trace fl b NoCall s0 (log ++ events) s')
            Watched (poll_now fl b started_s read) next
            (poll_now-Trace fl b NoCall s0 started_s log read (clock_read trace))
            (λ events s' k. Watched-more evidence log events s' k heard))
        (λ short. (log, clock_read trace, heard))

  -- No success, or a proof of the stop.
  unfoldable pub Proves : HardwareValidationResult → State fl b → Type 0
  Proves result s =
      (result.exit_code ≢ success)
      ⊎ ((log : Events fl b) × Trace fl b NoCall s0 log s × StopHeard normal_frame_count log)

  verdict-Proves :
      (evidence : List Evidence) (s : State fl b)
      → Watched evidence s
      → Proves (verdict_of fl b evidence) s
  unfolding Proves Watched
  verdict-Proves [] s h = inl (λ e. cc)
  verdict-Proves (e ∷ evidence) s (log, trace, inl nothing) = absurd cc
  verdict-Proves (e ∷ evidence) s (log, trace, inr heard) = inr (log, trace, heard)

  pub watch-Proves :
      (fuel : ℕ) (started_s quiet_s : b.Seconds) (s : State fl b)
      → Trace fl b NoCall s0 [] s
      → Ensures Proves (watch fl b fuel started_s quiet_s s)
  unfolding watch
  watch-Proves fuel started_s quiet_s s h =
      let loop = watchdog_loop fl b fuel started_s quiet_s [] in
      let last = watchdog_last fl b started_s quiet_s in
      rescue-Ensures fl b s0 Proves (result_of watchdog_failed watchdog_check) _
        (Ensures-bind Watched Proves ((loop >>= last) s)
          (λ evidence. pure (verdict_of fl b evidence))
          (Ensures-bind Watched Watched (loop s) last
            (watchdog_loop-Watched fuel started_s quiet_s [] s
              (unfold Watched in ([], h, inl refl)))
            (λ evidence s' k. watchdog_last-Watched started_s quiet_s evidence s' k))
          verdict-Proves)
        (λ s'. unfold Proves in inl (λ e. cc))
