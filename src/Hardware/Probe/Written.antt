-- ===== src/Hardware/Probe/Written.antt =====
-- What the transport takes during `validate_serial_diagnostic` (host/src/navbench/hardware.py).
use navbench.Common.{
  ℕ, zero, suc, ◌≤◌, ◌≡◌, refl, Bool, true, false, not, ◌&&◌, List, [], ◌∷◌, ◌++◌, append_assoc,
  append-nil, length, take, drop, take-append-drop, take-length-append, ltb, ltb-false→le, ◌==◌,
  if◌then◌else◌, arith,
}
use navbench.Protocol.Value.{Binary32}
use navbench.Protocol.Packet.{is_empty}
use navbench.Protocol.Stream.{feed}
use navbench.Transport.Interface.{
  WriteResult, wrote, wrote_negative, write_failed, ReadResult, received, read_failed,
}
use navbench.Session.Run.{
  done, failed, Run, ◌>>◌, pure, raise, transport_error, Ensures, Ensures-bind, Ensures-if,
  Ensures-test, Ensures-both,
}
use navbench.Hardware.Types.{Bench, poll_period_s}
use navbench.Hardware.Diagnostic.{
  DiagnosticStatus, note_batch, poll_round, poll_rounds, poll_diagnostic,
}
use navbench.Hardware.Diagnostic.Growth.{Grows, Grows-trans, IsNoted}
use navbench.Hardware.Diagnostic.Polls.{poll_rounds-Polled}
use navbench.Hardware.Probe.{
  State, sleep, write_more, write_round, write_loop, write_all, beacon_loop, probe_loop,
}

same_number : (m n : ℕ) → (m == n) ≡ true → m ≡ n
same_number m n e = ground arith

take-all : (n : ℕ) (l : List ℕ) → (n == length l) ≡ true → take n l ≡ l
take-all n l e = rw (same_number n (length l) e) (rw (append-nil l) at (take-length-append l []))

nothing_left : (l : List ℕ) → is_empty l ≡ true → l ≡ []
nothing_left [] e = refl
nothing_left (x ∷ l) e = absurd cc

module _ (b : Bench) (t0 : b.io.Transport) where
  -- From `t0` by calls of the clock, of the sleeper and of the transport, with the bytes that it took.
  pub data Took : List ℕ → b.io.Transport → Type 0 where
    none_taken : Took [] t0
    looked : {l : List ℕ} {t : b.io.Transport} → Took l t → Took l ((b.clock t).0)
    waited :
        {l : List ℕ} {t : b.io.Transport} (seconds : b.Seconds)
        → Took l t
        → Took l (b.sleep seconds t)
    has_read :
        {l : List ℕ} {t u : b.io.Transport} {r : ReadResult} (max_bytes : ℕ)
        → b.io.read t max_bytes ≡ (u, r)
        → Took l t
        → Took l u
    took :
        {l : List ℕ} {t u : b.io.Transport} (bytes : List ℕ) (n : ℕ)
        → b.io.write t bytes ≡ (u, wrote n)
        → n ≤ length bytes
        → Took l t
        → Took (l ++ take n bytes) u

-- What was noted, and that nothing was taken back since `base`.
pub record Kept (base status : DiagnosticStatus) : Type 0 where
  pub noted : IsNoted status
  pub grown : Grows base status

module _ (fl : Binary32) (b : Bench) (t0 : b.io.Transport) (base : DiagnosticStatus) where
  -- The bytes that were taken, and what was noted since `base`.
  abbrev pub Since : List ℕ → State fl b → Type 0
  Since l s = Took b t0 l s.transport × Kept base s.status

  poll_round-Took :
      (next : Run (State fl b) (Unit {0})) (l : List ℕ) (s : State fl b)
      (r : b.io.Transport × ReadResult)
      → b.io.read s.transport 512 ≡ r
      → Took b t0 l s.transport
      → ((s' : State fl b)
          → Took b t0 l s'.transport
          → Ensures (λ (u : Unit {0}) (s'' : State fl b). Took b t0 l s''.transport) (next s'))
      → Ensures
          (λ (u : Unit {0}) (s' : State fl b). Took b t0 l s'.transport)
          (poll_round fl b.io next s r)
  poll_round-Took next l s (t, read_failed) e h continued = tt
  poll_round-Took next l s (t, received []) e h continued = has_read 512 e h
  poll_round-Took next l s (t, received (byte ∷ bytes)) e h continued =
      continued (note_batch fl t (feed s.parser (byte ∷ bytes)) s.status) (has_read 512 e h)

  poll_rounds-Took :
      (reads : ℕ) (l : List ℕ) (s : State fl b)
      → Took b t0 l s.transport
      → Ensures
          (λ (u : Unit {0}) (s' : State fl b). Took b t0 l s'.transport)
          (poll_rounds fl b.io reads s)
  unfolding poll_rounds
  poll_rounds-Took zero l s h = h
  poll_rounds-Took (suc reads) l s h =
      poll_round-Took (poll_rounds fl b.io reads) l s (b.io.read s.transport 512) refl h
        (poll_rounds-Took reads l)

  poll-Since :
      (l : List ℕ) (s : State fl b)
      → Since l s
      → Ensures (λ (u : Unit {0}) (s' : State fl b). Since l s') (poll_diagnostic fl b.io s)
  poll-Since l s (h, kept) =
      let (noted, grown) = poll_rounds-Polled fl b.io 32 s kept.noted in
      Ensures-both (λ (u : Unit {0}) (s' : State fl b). Took b t0 l s'.transport)
        (λ (s' : State fl b). Kept base s'.status) (poll_rounds fl b.io 32 s)
        (poll_rounds-Took 32 l s h)
        (record { noted = noted; grown = Grows-trans base s.status _ kept.grown grown })

  abbrev pub Wrote : List ℕ → Unit {0} → State fl b → Type 0
  Wrote l u s = Since l s

  write_round-Since :
      (next : List ℕ → Run (State fl b) (Unit {0})) (deadline : b.Seconds) (l rest : List ℕ)
      (s : State fl b) (r : b.io.Transport × WriteResult)
      → b.io.write s.transport rest ≡ r
      → Since l s
      → ((n : ℕ) (s' : State fl b)
          → Since (l ++ take n rest) s'
          → Ensures (Wrote (l ++ rest)) (next (drop n rest) s'))
      → Ensures (Wrote (l ++ rest)) (write_round fl b next deadline rest s r)
  write_round-Since next deadline l rest s (t, write_failed) e h continued = tt
  write_round-Since next deadline l rest s (t, wrote_negative) e h continued = tt
  write_round-Since next deadline l rest s (t, wrote n) e (h, kept) continued =
      let after = record s { transport = t } in
      let Q = Wrote (l ++ rest) in
      Ensures-test Q (ltb (length rest) n) (after, failed transport_error) _ (λ more. tt)
        (λ fits.
          let now_took = took rest n e (ltb-false→le (length rest) n fits) h in
          Ensures-test Q (n == length rest) (after, done tt)
            (write_more fl b (next (drop n rest)) deadline after)
            (λ all. (rw (take-all n rest all) at now_took, kept))
            (λ some_left.
              Ensures-if Q (b.below deadline ((b.clock t).1)) (raise transport_error)
                (sleep fl b (poll_period_s b) >> next (drop n rest))
                (record after { transport = (b.clock t).0 }) (λ late. tt)
                (λ early. continued n _ (waited (poll_period_s b) (looked now_took), kept))))

  write_loop-Since :
      (fuel : ℕ) (deadline : b.Seconds) (l rest : List ℕ) (s : State fl b)
      → Since l s
      → Ensures (Wrote (l ++ rest)) (write_loop fl b fuel deadline rest s)
  unfolding write_loop
  write_loop-Since zero deadline l rest s h = tt
  write_loop-Since (suc fuel) deadline l rest s h =
      Ensures-test (Wrote (l ++ rest)) (is_empty rest) (s, done tt)
        (write_round fl b (write_loop fl b fuel deadline) deadline rest s
          (b.io.write s.transport rest))
        (λ empty. rw (nothing_left rest empty, append-nil l) h)
        (λ more.
          write_round-Since (write_loop fl b fuel deadline) deadline l rest s
            (b.io.write s.transport rest) refl h
            (λ n s' k.
              rw (append_assoc l (take n rest) (drop n rest), take-append-drop n rest) at
                (write_loop-Since fuel deadline (l ++ take n rest) (drop n rest) s' k)))

  pub write_all-Since :
      (fuel : ℕ) (l bytes : List ℕ) (s : State fl b)
      → Since l s
      → Ensures (Wrote (l ++ bytes)) (write_all fl b fuel bytes s)
  unfolding write_all
  write_all-Since fuel l bytes s (h, kept) = write_loop-Since fuel _ l bytes _ (looked h, kept)

  pub beacon_loop-Since :
      (fuel : ℕ) (deadline : b.Seconds) (l : List ℕ) (s : State fl b)
      → Since l s
      → Ensures (Wrote l) (beacon_loop fl b fuel deadline s)
  unfolding beacon_loop
  beacon_loop-Since zero deadline l s h = tt
  beacon_loop-Since (suc fuel) deadline l s (h, kept) =
      let read = record s { transport = (b.clock s.transport).0 } in
      let wait = sleep fl b (poll_period_s b) >> beacon_loop fl b fuel deadline in
      Ensures-if (Wrote l)
        (b.at_most ((b.clock s.transport).1) deadline && not s.status.beacon_seen)
        (poll_diagnostic fl b.io >> sleep fl b (poll_period_s b) >> beacon_loop fl b fuel deadline)
        (pure tt) read
        (λ early.
          Ensures-bind (Wrote l) (Wrote l)
            ((poll_diagnostic fl b.io >> sleep fl b (poll_period_s b)) read)
            (λ u. beacon_loop fl b fuel deadline)
            (Ensures-bind (Wrote l) (Wrote l) (poll_diagnostic fl b.io read)
              (λ u. sleep fl b (poll_period_s b)) (poll-Since l read (looked h, kept))
              (λ u s' (k, kept'). (waited (poll_period_s b) k, kept')))
            (λ u s' k. beacon_loop-Since fuel deadline l s' k))
        (λ late. (looked h, kept))

  -- What a probe that passed has seen.
  abbrev pub Passed : (State fl b → Bool) → List ℕ → Bool → State fl b → Type 0
  Passed passed l false s = Unit {0}
  Passed passed l true s = Since l s × (passed s ≡ true)

  pub probe_loop-Passed :
      (fuel : ℕ) (passed : State fl b → Bool) (deadline : b.Seconds) (l : List ℕ) (s : State fl b)
      → Since l s
      → Ensures (Passed passed l) (probe_loop fl b fuel passed deadline s)
  unfolding probe_loop
  probe_loop-Passed zero passed deadline l s h = tt
  probe_loop-Passed (suc fuel) passed deadline l s (h, kept) =
      let read = record s { transport = (b.clock s.transport).0 } in
      let wait = sleep fl b (poll_period_s b) >> probe_loop fl b fuel passed deadline in
      let next : Run (State fl b) Bool = λ s'. (if passed s' then pure true else wait) s' in
      Ensures-if (Passed passed l) (b.at_most ((b.clock s.transport).1) deadline)
        (poll_diagnostic fl b.io >> next) (pure false) read
        (λ early.
          Ensures-bind (Wrote l) (Passed passed l) (poll_diagnostic fl b.io read) (λ u. next)
            (poll-Since l read (looked h, kept))
            (λ u s' (k, kept').
              Ensures-if (Passed passed l) (passed s') (pure true) wait s' (λ e. ((k, kept'), e))
                (λ e.
                  probe_loop-Passed fuel passed deadline l _ (waited (poll_period_s b) k, kept'))))
        (λ late. tt)
