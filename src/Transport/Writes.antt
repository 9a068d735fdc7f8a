-- ===== src/Transport/Writes.antt =====
-- Calls on a `ByteTransport` (host/src/navbench/transport.py), and the bytes that it takes.
use navbench.Common.{
  ap, ◌==◌, true, arith, ℕ, ◌≤◌, ◌<◌, ◌≡◌, ◌⊎◌, List, [], ◌++◌, length, take, append-nil,
  append_assoc,
}
use navbench.Transport.Interface.{
  ByteTransport, WriteResult, ReadResult, wrote, wrote_negative, write_failed,
}

-- A write that raises, or returns a number that no write of these bytes can have.
abbrev pub IsBroken : List ℕ → WriteResult → Type 0
IsBroken bytes write_failed = Unit {0}
IsBroken bytes wrote_negative = Unit {0}
IsBroken bytes (wrote n) = length bytes < n

-- A write that takes no byte.
abbrev pub TakesNone : List ℕ → WriteResult → Type 0
TakesNone bytes r = IsBroken bytes r ⊎ (r ≡ wrote 0)

pub wrote_zero : (n : ℕ) → (n == 0) ≡ true → wrote n ≡ wrote 0
wrote_zero n h = ap wrote (ground arith)

module _ (io : ByteTransport) where
  open io use {Transport, write, read}

  -- The last call was a broken write.
  abbrev pub Breaks : Transport → Type 0
  Breaks u =
      (t : Transport) × (bytes : List ℕ) × (r : WriteResult) × (write t bytes ≡ (u, r))
      × IsBroken bytes r

  -- The last call was a write of some bytes that took none of them.
  abbrev pub Stalls : Transport → Type 0
  Stalls u =
      (t : Transport) × (bytes : List ℕ) × (r : WriteResult) × (write t bytes ≡ (u, r))
      × (0 < length bytes)
      × TakesNone bytes r

  -- Some calls on a transport, with the bytes that it took in the writes.
  pub data Writes : Transport → List ℕ → Transport → Type 0 where
    no_more : {t : Transport} → Writes t [] t
    not_taken :
        {t u v : Transport} {r : WriteResult} {rest : List ℕ} (bytes : List ℕ)
        → write t bytes ≡ (u, r)
        → TakesNone bytes r
        → Writes u rest v
        → Writes t rest v
    between :
        {t u v : Transport} {r : ReadResult} {rest : List ℕ} (max_bytes : ℕ)
        → read t max_bytes ≡ (u, r)
        → Writes u rest v
        → Writes t rest v
    taken :
        {t u v : Transport} {rest : List ℕ} (bytes : List ℕ) (n : ℕ)
        → write t bytes ≡ (u, wrote n)
        → n ≤ length bytes
        → Writes u rest v
        → Writes t (take n bytes ++ rest) v

  -- Calls that take no byte.
  pub Writes-quiet :
      {t u v : Transport} {sent : List ℕ} → Writes t sent u → Writes u [] v → Writes t sent v
  Writes-quiet no_more more = more
  Writes-quiet (not_taken bytes e none writes) more =
      not_taken bytes e none (Writes-quiet writes more)
  Writes-quiet (between n e writes) more = between n e (Writes-quiet writes more)
  Writes-quiet (taken bytes n e fits writes) more = taken bytes n e fits (Writes-quiet writes more)

  pub Writes-take :
      {t u v : Transport} {sent : List ℕ} (bytes : List ℕ) (n : ℕ)
      → Writes t sent u
      → write u bytes ≡ (v, wrote n)
      → n ≤ length bytes
      → Writes t (sent ++ take n bytes) v
  Writes-take bytes n no_more e fits =
      rw⁻¹ (append-nil (take n bytes)) (taken bytes n e fits no_more)
  Writes-take bytes n (not_taken b f none writes) e fits =
      not_taken b f none (Writes-take bytes n writes e fits)
  Writes-take bytes n (between k f writes) e fits = between k f (Writes-take bytes n writes e fits)
  Writes-take bytes n (taken {rest = rest} b k f g writes) e fits =
      rw (append_assoc (take k b) rest (take n bytes))
        (taken b k f g (Writes-take bytes n writes e fits))

  -- One after the other.
  pub Writes-append :
      {t u v : Transport} {sent more : List ℕ}
      → Writes t sent u
      → Writes u more v
      → Writes t (sent ++ more) v
  Writes-append no_more writes = writes
  Writes-append (not_taken bytes e none before) writes =
      not_taken bytes e none (Writes-append before writes)
  Writes-append (between n e before) writes = between n e (Writes-append before writes)
  Writes-append {more = more} (taken {rest = rest} bytes n e fits before) writes =
      rw (append_assoc (take n bytes) rest more)
        (taken bytes n e fits (Writes-append before writes))
