-- ===== src/Session/SoundSteps.antt =====
-- The single changes of a `HostSession` (host/src/navbench/session.py) keep what holds between two
-- calls.
use navbench.Common.{
  ℕ, ◌+◌, ◌<◌, ◌≡◌, refl, min, true, false, Option, some, List, length, length-append, ltb,
  ltb-false→le, arith,
}
use navbench.Protocol.Value.{value}
use navbench.Protocol.Payload.Types.{HelloAckPayload}
use navbench.Transport.Interface.{ByteTransport}
use navbench.Session.Types.{SessionState, SessionConfig, Session, error, hello_sent, timed_out}
use navbench.Session.Send.{enqueue}
use navbench.Session.Calls.{count_reconnect}
use navbench.Session.Poll.{acceptable, negotiate}
use navbench.Session.Flush.{IsFlushStable}
use navbench.Session.Keeps.{IsSendStable}
use navbench.Session.KeepsPoll.{IsPollStable}
use navbench.Session.Invariant.{
  IsSound, IsSoundAt, Agreed, idle-IsSound, aside-IsSound, drop-IsSound,
}

-- What a HELLO_ACK that is accepted agrees to.
acceptable-Agreed :
    (state : SessionState) (config : SessionConfig) (p : HelloAckPayload)
    → 0 < config.timeout_ms
    → acceptable state config p ≡ true
    → Agreed config
        (some (value p.capabilities))
        (some (value p.max_payload))
        (some (min config.timeout_ms (value p.heartbeat_timeout_ms)))
unfolding acceptable
acceptable-Agreed state config p pos h = ground arith

pub acceptable-state :
    (state : SessionState) (config : SessionConfig) (p : HelloAckPayload)
    → acceptable state config p ≡ true
    → state ≡ hello_sent
unfolding acceptable
acceptable-state state config p h = ground arith

module _ (io : ByteTransport) where
  open io use {Transport}

  pub flush_stable : (now : Option ℕ) → IsFlushStable io (IsSoundAt now)
  flush_stable now = record {
    of_refused = λ s t r e none h. (aside-IsSound s t s.stats s.parser s.rx_sequence h.0, h.1);
    of_written = λ s t n e fits h. (
      drop-IsSound (record s { transport = t }) n
          (aside-IsSound s t s.stats s.parser s.rx_sequence h.0),
      h.1,
    );
    of_stats = λ s stats h. (aside-IsSound s s.transport stats s.parser s.rx_sequence h.0, h.1);
    of_error = λ s h. (idle-IsSound error s refl h.0, h.1);
  }

  pub enqueue-IsSound :
      (s : Session Transport) (frame : List ℕ)
      → ltb s.config.max_tx_buffer (length s.tx_buffer + length frame) ≡ false
      → IsSound s
      → IsSound (enqueue io frame s)
  enqueue-IsSound s frame fits h = record {
    configured = h.configured;
    buffered = omega (
      arith,
      ltb-false→le s.config.max_tx_buffer (length s.tx_buffer + length frame) fits,
      length-append s.tx_buffer frame,
    );
    numbered = omega arith;
    clocked = h.clocked;
    roomy = h.roomy;
    ranged = h.ranged;
    agreed = h.agreed;
  }

  pub send_stable : (now : Option ℕ) → IsSendStable io (IsSoundAt now)
  send_stable now = record {
    of_flush = flush_stable now;
    of_enqueue = λ s packet frame n f fits h. (enqueue-IsSound s frame fits h.0, h.1);
  }

  received-IsSound :
      (now : ℕ) (s : Session Transport)
      → IsSoundAt (some now) s
      → IsSound (record s { last_rx_ms = some now })
  received-IsSound now s h = record {
    configured = h.0.configured;
    buffered = h.0.buffered;
    numbered = h.0.numbered;
    clocked = rw (h.1) (omega arith);
    roomy = h.0.roomy;
    ranged = h.0.ranged;
    agreed = h.0.agreed;
  }

  pub count_reconnect-IsSound : (s : Session Transport) → IsSound s → IsSound (count_reconnect s)
  count_reconnect-IsSound s h = record {
    configured = h.configured;
    buffered = omega arith;
    numbered = h.numbered;
    clocked = h.clocked;
    roomy = h.roomy;
    ranged = h.ranged;
    agreed = h.agreed;
  }

  negotiate-IsSound :
      (s : Session Transport) (p : HelloAckPayload)
      → acceptable s.state s.config p ≡ true
      → IsSound s
      → IsSound (negotiate p s)
  negotiate-IsSound s p good h = record {
    configured = h.configured;
    buffered = h.buffered;
    numbered = h.numbered;
    clocked = h.clocked;
    roomy = h.roomy;
    ranged = λ live. h.ranged (rw (acceptable-state s.state s.config p good) refl);
    agreed = λ e. acceptable-Agreed s.state s.config p h.configured good;
  }

  pub poll_stable : (now : ℕ) → IsPollStable io now (IsSoundAt (some now))
  poll_stable now = record {
    of_flush = flush_stable (some now);
    of_read = λ s t r e h. (aside-IsSound s t s.stats s.parser s.rx_sequence h.0, h.1);
    of_parser = λ s parser h. (aside-IsSound s s.transport s.stats parser s.rx_sequence h.0, h.1);
    of_tracker = λ s tracker h. (aside-IsSound s s.transport s.stats s.parser tracker h.0, h.1);
    of_received = λ s h. (received-IsSound now s h, h.1);
    of_negotiate = λ s p good h. (negotiate-IsSound s p good h.0, h.1);
    of_expire = λ s live h. (idle-IsSound timed_out s refl h.0, h.1);
  }
