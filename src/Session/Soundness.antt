-- ===== src/Session/Soundness.antt =====
-- Every call on a `HostSession` (host/src/navbench/session.py) keeps what holds between two calls.
use navbench.Common.{
  ℕ, ◌^◌, ◌≤◌, ◌<◌, ◌≡◌, refl, sym, ◌∙◌, Option, some, List, length, ltb, ltb-false→le, ltb-true→lt,
  le→ltb, Bool-cases, inl, inr, arith,
}
use navbench.Protocol.Value.{Scalar, Binary32, int}
use navbench.Protocol.Enums.{MessageType}
use navbench.Session.Hello.{send_hello, send_hello_refused}
use navbench.Protocol.Payload.Types.{TypedPayload}
use navbench.Transport.Interface.{ByteTransport}
use navbench.Session.Run.{◌>>=◌, continue_with, after_either, after_bind, after_if}
use navbench.Session.Types.{Session, error, hello_sent}
use navbench.Session.Send.{is_closed, set_state, validate_now, enqueue, flush_tx, send}
use navbench.Session.Calls.{
  fresh, count_reconnect, start_at, start, reconnect, set_state_after, host_hello,
}
use navbench.Session.Poll.{poll_at, poll}
use navbench.Session.Flush.{IsFlushStable, flush_tx-keeps, flush_tx_failed}
use navbench.Session.KeepsPoll.{poll_at-keeps}
use navbench.Session.Invariant.{IsSound, IsSoundAt, validate_now-Validated}
use navbench.Session.SoundSteps.{
  flush_stable, count_reconnect-IsSound, poll_stable, enqueue-IsSound,
}

module _ (fl : Binary32) (io : ByteTransport) where
  open io use {Transport}

  -- A session that is sound once it waits for the answer to its HELLO.
  Waits : Option ℕ → Session Transport → Type 0
  Waits now s = IsSoundAt now (set_state hello_sent s)

  Waits-IsFlushStable : (now : Option ℕ) → IsFlushStable io (Waits now)
  unfolding Waits
  Waits-IsFlushStable now =
      let stable = flush_stable io now in
      record {
        of_refused = λ s t r e none h. stable.of_refused (set_state hello_sent s) t r e none h;
        of_written = λ s t n e fits h. stable.of_written (set_state hello_sent s) t n e fits h;
        of_stats = λ s stats h. stable.of_stats (set_state hello_sent s) stats h;
        of_error = λ s h. h;
      }

  fresh-Waits :
      (now : ℕ) (s : Session Transport)
      → s.config.timeout_ms < 2 ^ 16
      → IsSoundAt (some now) s
      → Waits (some now) (fresh now s)
  unfolding Waits
  fresh-Waits now s fits h = (
    record {
      configured = h.0.configured;
      buffered = omega arith;
      numbered = omega arith;
      clocked = rw (h.1) (omega arith);
      roomy = h.0.roomy;
      ranged = λ live. fits;
      agreed = λ e. absurd cc;
    },
    h.1,
  )

  -- A start whose timeout does not fit the HELLO: the session was not active, and has no agreement.
  fresh-IsSoundAt :
      (now : ℕ) (s : Session Transport)
      → 2 ^ 16 ≤ s.config.timeout_ms
      → IsSoundAt (some now) s
      → IsSoundAt (some now) (fresh now s)
  fresh-IsSoundAt now s long h = (
    record {
      configured = h.0.configured;
      buffered = omega arith;
      numbered = omega arith;
      clocked = rw (h.1) (omega arith);
      roomy = h.0.roomy;
      ranged = h.0.ranged;
      agreed = λ e. absurd (let live = h.0.ranged (rw e refl) in omega arith);
    },
    h.1,
  )

  -- A session in its error state has nothing to wait for.
  stopped-IsSoundAt :
      (now : Option ℕ) (s : Session Transport) → s.state ≡ error → Waits now s → IsSoundAt now s
  unfolding Waits
  stopped-IsSoundAt now s e h = (
    record {
      configured = h.0.configured;
      buffered = h.0.buffered;
      numbered = h.0.numbered;
      clocked = h.0.clocked;
      roomy = h.0.roomy;
      ranged = λ live. h.0.ranged refl;
      agreed = λ a. absurd (let g = sym e ∙ a in cc);
    },
    h.1,
  )

  start_flushed :
      (now : ℕ) (frame : List ℕ) (s : Session Transport)
      → s.config.timeout_ms < 2 ^ 16
      → length frame ≤ 144
      → IsSoundAt (some now) s
      → IsSoundAt (some now) (
          (continue_with
            (set_state_after hello_sent)
            (flush_tx io (enqueue io frame (fresh now s)))).0)
  unfolding Waits
  start_flushed now frame s fits size h =
      let queued = enqueue io frame (fresh now s) in
      let room = h.0.roomy in
      let start = fresh-Waits now s fits h in
      let waits : Waits (some now) queued = (
        enqueue-IsSound io (set_state hello_sent (fresh now s)) frame (le→ltb _ _ (omega arith))
            start.0,
        start.1,
      ) in
      let flushed =
        flush_tx-keeps io (Waits (some now)) (Waits-IsFlushStable (some now)) queued waits in
      after_either (IsSoundAt (some now)) (flush_tx io queued) (set_state_after hello_sent)
        (λ e f. stopped-IsSoundAt (some now) _ ((flush_tx_failed io queued e f).0) flushed)
        (λ u f. flushed)

  start_opened :
      (now : ℕ) (s : Session Transport)
      → IsSoundAt (some now) s
      → IsSoundAt (some now) (
          ((send fl io MessageType.hello (int 0) (TypedPayload.hello (host_hello s.config))
              >>= set_state_after hello_sent)
            (fresh now s)).0)
  start_opened now s h = elim (Bool-cases (ltb s.config.timeout_ms (2 ^ 16))) [
    | inl short ↦
        let fits = ltb-true→lt s.config.timeout_ms (2 ^ 16) short in
        let (frame, size, encoded, sent) =
          send_hello fl io (fresh now s) h.0.configured fits h.0.roomy refl refl in
        rw sent (start_flushed now frame s fits size h)
    | inr long ↦
        let fits = ltb-false→le s.config.timeout_ms (2 ^ 16) long in
        rw (send_hello_refused fl io (fresh now s) fits refl) (fresh-IsSoundAt now s fits h)
  ]

  start_at-IsSoundAt :
      (now : ℕ) (s : Session Transport)
      → IsSoundAt (some now) s
      → IsSoundAt (some now) ((start_at fl io now s).0)
  start_at-IsSoundAt now s h =
      after_if (IsSoundAt (some now)) (is_closed s.state) _ _ h (start_opened now s h)

  pub start-IsSound :
      (now_ms : Scalar) (s : Session Transport) → IsSound s → IsSound ((start fl io now_ms s).0)
  unfolding start
  start-IsSound now_ms s h =
      let (sound, stored) = validate_now-Validated s now_ms h in
      after_bind IsSound (validate_now now_ms s) (start_at fl io) sound
        (λ now e. (start_at-IsSoundAt now _ (sound, stored now e)).0)

  pub reconnect-IsSound :
      (now_ms : Scalar) (s : Session Transport) → IsSound s → IsSound ((reconnect fl io now_ms s).0)
  unfolding reconnect
  reconnect-IsSound now_ms s h =
      after_if IsSound (is_closed s.state) _ _ h
        (start-IsSound now_ms (count_reconnect s) (count_reconnect-IsSound io s h))

  pub poll-IsSound :
      (now_ms : Scalar) (s : Session Transport) → IsSound s → IsSound ((poll fl io now_ms s).0)
  unfolding poll
  poll-IsSound now_ms s h =
      let (sound, stored) = validate_now-Validated s now_ms h in
      after_bind IsSound (validate_now now_ms s) (poll_at fl io) sound (λ now e.
        (poll_at-keeps fl io now (IsSoundAt (some now)) (poll_stable io now) _
          (sound, stored now e)).0)
