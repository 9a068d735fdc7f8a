-- ===== src/Hardware/Probe/Ends.antt =====
-- `validate_serial_diagnostic` (host/src/navbench/hardware.py) ends, if time passes.
use navbench.Common.{
  ℕ, zero, suc, ◌-◌, ◌≤◌, ◌<◌, ◌≡◌, ◌≢◌, refl, Bool, true, false, not, ◌&&◌, List, [], ◌∷◌, length,
  drop, ltb, ◌==◌, if◌then◌else◌, arith,
}
use navbench.Protocol.Error.{Result, ok, err}
use navbench.Protocol.Value.{Binary32}
use navbench.Protocol.Packet.{is_empty}
use navbench.Protocol.Stream.{feed, new_parser}
use navbench.Transport.Interface.{
  WriteResult, wrote, wrote_negative, write_failed, ReadResult, received, read_failed,
}
use navbench.Session.Run.{
  Answer, done, failed, out_of_fuel, transport_error, Run, ◌>>=◌, ◌>>◌, pure, raise, Returns,
  Returns-bind, Returns-test, Returns-if, Returns-answer,
}
use navbench.Hardware.Types.{
  Bench, HardwareValidationResult, success, diagnostic_failed, diagnostic_usb, diagnostic_protocol,
  poll_period_s, diagnostic_deadline_s,
}
use navbench.Hardware.Opening.{result_of}
use navbench.Hardware.Diagnostic.{new_status, note_batch, poll_round, poll_rounds, poll_diagnostic}
use navbench.Hardware.Probe.{
  Mode, usb, protocol, usb_probe, State, clock, sleep, write_more, write_round, write_loop,
  write_all, beacon_loop, probe_loop, verdict, is_probed, probe_usb, hello_frame, is_welcome,
  probe_protocol, probe, validate_serial_diagnostic,
}

-- What the tests on time ask of a clock and a sleeper. `left d t` bounds the poll periods until the
-- clock passes the deadline `d`: no call makes it grow, a sleep of one period makes it fall, and
-- where it is zero, the next look at the clock is behind the deadline. A deadline that is set one or
-- three seconds ahead is at most `rounds` periods away.
pub record Paced (b : Bench) : Type 0 where
  pub left : b.Seconds → b.io.Transport → ℕ
  pub rounds : ℕ
  pub look : (d : b.Seconds) (t : b.io.Transport) → left d ((b.clock t).0) ≤ left d t
  pub wait :
      (d : b.Seconds) (t : b.io.Transport) → left d (b.sleep (poll_period_s b) t) ≤ left d t - 1
  pub read :
      (d : b.Seconds) (t u : b.io.Transport) (n : ℕ) (r : ReadResult)
      → b.io.read t n ≡ (u, r)
      → left d u ≤ left d t
  pub write :
      (d : b.Seconds) (t u : b.io.Transport) (bytes : List ℕ) (r : WriteResult)
      → b.io.write t bytes ≡ (u, r)
      → left d u ≤ left d t
  pub late :
      (d : b.Seconds) (t : b.io.Transport) → left d t ≡ 0 → b.at_most ((b.clock t).1) d ≡ false
  pub later : (d : b.Seconds) (t : b.io.Transport) → left d t ≡ 0 → b.below d ((b.clock t).1) ≡ true
  pub near :
      (t : b.io.Transport)
      → left (b.plus ((b.clock t).1) (diagnostic_deadline_s b)) ((b.clock t).0) ≤ rounds
  pub nearer :
      (t : b.io.Transport)
      → left (b.plus ((b.clock t).1) (b.of_milliseconds 1000)) ((b.clock t).0) ≤ rounds

module _ (fl : Binary32) (b : Bench) (paced : Paced b) where
  open paced use {left, rounds}

  -- At most so many periods are left.
  abbrev Within : b.Seconds → ℕ → {A : Type 0} → A → State fl b → Type 0
  Within d n a s = left d s.transport ≤ n

  poll_round-Within :
      (next : Run (State fl b) (Unit {0})) (d : b.Seconds) (n : ℕ) (s : State fl b)
      (r : b.io.Transport × ReadResult)
      → b.io.read s.transport 512 ≡ r
      → left d s.transport ≤ n
      → ((s' : State fl b) → left d s'.transport ≤ n → Returns (Within d n) (next s'))
      → Returns (Within d n) (poll_round fl b.io next s r)
  poll_round-Within next d n s (t, read_failed) e h continued = λ f. cc
  poll_round-Within next d n s (t, received []) e h continued =
      omega (arith, h, paced.read d s.transport t 512 (received []) e)
  poll_round-Within next d n s (t, received (byte ∷ bytes)) e h continued =
      continued (note_batch fl t (feed s.parser (byte ∷ bytes)) s.status)
        (before (note_batch fl t (feed s.parser (byte ∷ bytes)) s.status) refl)
    where
      before : (s' : State fl b) → s'.transport ≡ t → left d s'.transport ≤ n
      before s' same =
          rw same (omega (arith, h, paced.read d s.transport t 512 (received (byte ∷ bytes)) e))

  poll_rounds-Within :
      (reads : ℕ) (d : b.Seconds) (n : ℕ) (s : State fl b)
      → left d s.transport ≤ n
      → Returns (Within d n) (poll_rounds fl b.io reads s)
  unfolding poll_rounds
  poll_rounds-Within zero d n s h = h
  poll_rounds-Within (suc reads) d n s h =
      poll_round-Within (poll_rounds fl b.io reads) d n s (b.io.read s.transport 512) refl h
        (poll_rounds-Within reads d n)

  -- A poll, and a sleep of one period.
  polled-Within :
      (d : b.Seconds) (n : ℕ) (s : State fl b)
      → left d s.transport ≤ suc n
      → Returns (Within d n) ((poll_diagnostic fl b.io >> sleep fl b (poll_period_s b)) s)
  polled-Within d n s h =
      Returns-bind (Within d (suc n)) (Within d n) (poll_diagnostic fl b.io s)
        (λ u. sleep fl b (poll_period_s b)) (poll_rounds-Within 32 d (suc n) s h)
        (λ u s' k. omega (arith, k, paced.wait d s'.transport))

  positive_unless : (n : ℕ) → n ≢ 0 → 1 ≤ n
  positive_unless zero h = absurd (h refl)
  positive_unless (suc n) h = omega arith

  not_later :
      (d : b.Seconds) (t : b.io.Transport) → b.below d ((b.clock t).1) ≡ false → 1 ≤ left d t
  not_later d t early = positive_unless (left d t) (λ e. let l = paced.later d t e in cc)

  not_late :
      (d : b.Seconds) (t : b.io.Transport) → b.at_most ((b.clock t).1) d ≡ true → 1 ≤ left d t
  not_late d t early = positive_unless (left d t) (λ e. let l = paced.late d t e in cc)

  -- The rounds that are left, when a round with a poll and a sleep is over.
  again-Within :
      {A : Type 0} (Q : A → State fl b → Type 0) (fuel : ℕ) (d : b.Seconds) (s : State fl b)
      (next : Run (State fl b) A)
      → left d s.transport < suc fuel
      → b.at_most ((b.clock s.transport).1) d ≡ true
      → ((s' : State fl b) → left d s'.transport < fuel → Returns Q (next s'))
      → Returns Q (
          (poll_diagnostic fl b.io >> sleep fl b (poll_period_s b) >> next)
            (record s { transport = (b.clock s.transport).0 }))
  again-Within Q fuel d s next h early continued =
      let read = record s { transport = (b.clock s.transport).0 } in
      let some_left = not_late d s.transport early in
      Returns-bind (Within d (left d s.transport - 1)) Q
        ((poll_diagnostic fl b.io >> sleep fl b (poll_period_s b)) read) (λ u. next)
        (polled-Within d (left d s.transport - 1) read
          (omega (arith, some_left, paced.look d s.transport)))
        (λ u s' k. continued s' (omega (arith, h, some_left, k)))

  beacon_loop-Returns :
      (fuel : ℕ) (d : b.Seconds) (s : State fl b)
      → left d s.transport < fuel
      → Returns (λ (u : Unit {0}) (s' : State fl b). Unit {0}) (beacon_loop fl b fuel d s)
  unfolding beacon_loop
  beacon_loop-Returns zero d s h = absurd (omega arith)
  beacon_loop-Returns (suc fuel) d s h =
      let read = record s { transport = (b.clock s.transport).0 } in
      let Q = λ (u : Unit {0}) (s' : State fl b). Unit {0} in
      Returns-if Q (b.at_most ((b.clock s.transport).1) d && not s.status.beacon_seen)
        (poll_diagnostic fl b.io >> sleep fl b (poll_period_s b) >> beacon_loop fl b fuel d)
        (pure tt) read
        (λ early.
          again-Within Q fuel d s (beacon_loop fl b fuel d) h (first _ _ early)
            (λ s' k. beacon_loop-Returns fuel d s' k))
        (λ late. tt)
    where
      first : (p q : Bool) → (p && q) ≡ true → p ≡ true
      first true q e = refl
      first false q e = absurd cc

  probe_loop-Returns :
      (fuel : ℕ) (passed : State fl b → Bool) (d : b.Seconds) (s : State fl b)
      → left d s.transport < fuel
      → Returns
          (λ (verdict_is : Bool) (s' : State fl b). Unit {0})
          (probe_loop fl b fuel passed d s)
  unfolding probe_loop
  probe_loop-Returns zero passed d s h = absurd (omega arith)
  probe_loop-Returns (suc fuel) passed d s h =
      let read = record s { transport = (b.clock s.transport).0 } in
      let Q = λ (verdict_is : Bool) (s' : State fl b). Unit {0} in
      let wait = sleep fl b (poll_period_s b) >> probe_loop fl b fuel passed d in
      let n = left d s.transport in
      Returns-if Q (b.at_most ((b.clock s.transport).1) d)
        (poll_diagnostic fl b.io >> λ s'. (if passed s' then pure true else wait) s') (pure false)
        read
        (λ early.
          Returns-bind (Within d n) Q (poll_diagnostic fl b.io read)
            (λ u s'. (if passed s' then pure true else wait) s')
            (poll_rounds-Within 32 d n read (paced.look d s.transport))
            (λ u s' k.
              Returns-if Q (passed s') (pure true) wait s' (λ e. tt)
                (λ e.
                  probe_loop-Returns fuel passed d _ (
                    omega (arith, h, not_late d s.transport early, k, paced.wait d s'.transport)))))
        (λ late. tt)

  write_round-Returns :
      (next : List ℕ → Run (State fl b) (Unit {0})) (fuel : ℕ) (d : b.Seconds) (rest : List ℕ)
      (s : State fl b) (r : b.io.Transport × WriteResult)
      → b.io.write s.transport rest ≡ r
      → left d s.transport < suc fuel
      → ((n : ℕ) (s' : State fl b)
          → left d s'.transport < fuel
          → Returns (λ (u : Unit {0}) (s'' : State fl b). Unit {0}) (next (drop n rest) s'))
      → Returns (λ (u : Unit {0}) (s' : State fl b). Unit {0}) (write_round fl b next d rest s r)
  write_round-Returns next fuel d rest s (t, write_failed) e h continued = λ f. cc
  write_round-Returns next fuel d rest s (t, wrote_negative) e h continued = λ f. cc
  write_round-Returns next fuel d rest s (t, wrote n) e h continued =
      let after = record s { transport = t } in
      let Q = λ (u : Unit {0}) (s' : State fl b). Unit {0} in
      Returns-test Q (ltb (length rest) n) (after, failed transport_error) _ (λ more. λ f. cc)
        (λ fits.
          Returns-test Q (n == length rest) (after, done tt)
            (write_more fl b (next (drop n rest)) d after) (λ all. tt)
            (λ some_bytes.
              Returns-if Q (b.below d ((b.clock t).1)) (raise transport_error)
                (sleep fl b (poll_period_s b) >> next (drop n rest))
                (record after { transport = (b.clock t).0 }) (λ late. λ f. cc)
                (λ early. continued n _ (
                  omega (
                    arith,
                    h,
                    paced.write d s.transport t rest (wrote n) e,
                    not_later d t early,
                    paced.look d t,
                    paced.wait d ((b.clock t).0),
                  )))))

  write_loop-Returns :
      (fuel : ℕ) (d : b.Seconds) (rest : List ℕ) (s : State fl b)
      → left d s.transport < fuel
      → Returns (λ (u : Unit {0}) (s' : State fl b). Unit {0}) (write_loop fl b fuel d rest s)
  unfolding write_loop
  write_loop-Returns zero d rest s h = absurd (omega arith)
  write_loop-Returns (suc fuel) d rest s h =
      let Q = λ (u : Unit {0}) (s' : State fl b). Unit {0} in
      Returns-test Q (is_empty rest) (s, done tt)
        (write_round fl b (write_loop fl b fuel d) d rest s (b.io.write s.transport rest))
        (λ empty. tt)
        (λ more.
          write_round-Returns (write_loop fl b fuel d) fuel d rest s (b.io.write s.transport rest)
            refl h (λ n s' k. write_loop-Returns fuel d (drop n rest) s' k))

  module _ (fuel : ℕ) (enough : rounds < fuel) where
    abbrev Ended : {A : Type 0} → State fl b × Answer A → Type 0
    Ended {A = A} r = Returns (λ (a : A) (s : State fl b). Unit {0}) r

    write_all-Ended : (bytes : List ℕ) (s : State fl b) → Ended (write_all fl b fuel bytes s)
    unfolding write_all
    write_all-Ended bytes s =
        write_loop-Returns fuel _ bytes _ (omega (arith, enough, paced.nearer s.transport))

    verdict-Ended :
        (result : HardwareValidationResult) (verdict_is : Bool) (s : State fl b)
        → Ended (verdict fl b result verdict_is s)
    verdict-Ended result true s = tt
    verdict-Ended result false s = tt

    probed-Ended :
        (result : HardwareValidationResult) (passed : State fl b → Bool) (bytes : List ℕ)
        (s : State fl b)
        → Ended (
            (write_all fl b fuel bytes
                >> (clock fl b >>= λ now.
                    probe_loop fl b fuel passed (b.plus now (diagnostic_deadline_s b)))
                >>= verdict fl b result)
              s)
    probed-Ended result passed bytes s =
        let loop : Run (State fl b) Bool = clock fl b >>= λ now.
        probe_loop fl b fuel passed (b.plus now (diagnostic_deadline_s b)) in
        Returns-bind (λ u s'. Unit {0}) (λ u s'. Unit {0}) ((write_all fl b fuel bytes >> loop) s)
          (verdict fl b result)
          (Returns-bind (λ u s'. Unit {0}) (λ u s'. Unit {0}) (write_all fl b fuel bytes s)
            (λ u. loop) (write_all-Ended bytes s)
            (λ u s' k.
              probe_loop-Returns fuel passed _ _ (omega (arith, enough, paced.near s'.transport))))
          (λ verdict_is s' k. verdict-Ended result verdict_is s')

    probe_protocol-Ended :
        (base : State fl b) (frame : Result (List ℕ)) (s : State fl b)
        → Ended (probe_protocol fl b fuel base frame s)
    unfolding probe_protocol
    probe_protocol-Ended base (err e) s = λ f. cc
    probe_protocol-Ended base (ok frame) s =
        probed-Ended (result_of success diagnostic_protocol) (is_welcome fl b base frame) frame s

    probe_usb-Ended : (s : State fl b) → Ended (probe_usb fl b fuel s.status s)
    unfolding probe_usb
    probe_usb-Ended s =
        probed-Ended (result_of success diagnostic_usb) (is_probed fl b s.status) usb_probe s

    probe-Ended : (mode : Mode) (s : State fl b) → Ended (probe fl b fuel mode s)
    probe-Ended usb s =
        Returns-test (λ a s'. Unit {0}) s.status.beacon_seen (probe_usb fl b fuel s.status s)
          (s, done (result_of diagnostic_failed diagnostic_usb)) (λ seen. probe_usb-Ended s)
          (λ unseen. tt)
    probe-Ended protocol s =
        Returns-test (λ a s'. Unit {0}) s.status.beacon_seen
          (probe_protocol fl b fuel s (hello_frame fl b) s)
          (s, done (result_of diagnostic_failed diagnostic_protocol))
          (λ seen. probe_protocol-Ended s (hello_frame fl b) s) (λ unseen. tt)

    -- Where time passes, a serial diagnostic of either mode ends: with more rounds for each loop than
    -- there are poll periods in a deadline, it returns a result or raises what the code raises.
    pub validate_serial_diagnostic_ends :
        (mode : Mode) (t : b.io.Transport)
        → (validate_serial_diagnostic fl b fuel mode t).1 ≢ failed out_of_fuel
    unfolding validate_serial_diagnostic
    validate_serial_diagnostic_ends mode t =
        Returns-answer (λ (a : HardwareValidationResult) (s' : State fl b). Unit {0})
          (validate_serial_diagnostic fl b fuel mode t)
          (Returns-bind (λ u s'. Unit {0}) (λ a s'. Unit {0})
            (beacon_loop fl b fuel (b.plus ((b.clock t).1) (diagnostic_deadline_s b))
              (record { transport = (b.clock t).0; parser = new_parser; status = new_status }))
            (λ u. probe fl b fuel mode)
            (beacon_loop-Returns fuel _ _ (omega (arith, enough, paced.near t)))
            (λ u s' k. probe-Ended mode s'))
