-- ===== src/Protocol/Sequence.antt =====
-- SequenceTracker of host/src/navbench/protocol.py: one endpoint's wrapping uint32 sequence.
pub mod Laws
pub mod Runs
use navbench.Common.{
  ℕ, zero, suc, ◌+◌, ◌-◌, ◌%◌, ◌^◌, ◌≤◌, Bool, true, false, not, ◌&&◌, Option, none, some, List, [],
  ◌∷◌, ltb, leb, ◌==◌, if◌then◌else◌,
}
use navbench.Protocol.Error.{Result, ok, err, ◌>>=◌, ◌>>◌, refuse, invalid_value}
use navbench.Protocol.Value.{Scalar, uint}

pub data SequenceDisposition : Type 0 where
  initial in_order gap duplicate out_of_order stale : SequenceDisposition

pub record SequenceResult : Type 0 where
  pub disposition : SequenceDisposition
  pub accepted : Bool
  pub missing : ℕ

pub record SequenceStats : Type 0 where
  pub accepted : ℕ
  pub missing : ℕ
  pub duplicates : ℕ
  pub out_of_order : ℕ
  pub stale : ℕ

pub record SequenceTracker : Type 0 where
  pub reorder_window : ℕ
  pub stats : SequenceStats
  pub last_sequence : Option ℕ
  pub last_step_id : Option ℕ

abbrev pub zero_stats : SequenceStats
zero_stats = record { accepted = 0; missing = 0; duplicates = 0; out_of_order = 0; stale = 0 }

unfoldable pub new_tracker : ℕ → Result SequenceTracker
new_tracker reorder_window = do
  refuse (not (leb 1 reorder_window && ltb reorder_window 0x80000000)) invalid_value
  ok (record {
    reorder_window = reorder_window;
    stats = zero_stats;
    last_sequence = none;
    last_step_id = none;
  })

-- `(a - b) & 0xFFFFFFFF` of two values below 2 ^ 32
abbrev pub wrapped_difference : ℕ → ℕ → ℕ
wrapped_difference a b = (a + 2 ^ 32 - b) % 2 ^ 32

unfoldable pub is_older : ℕ → ℕ → Bool
is_older value reference =
    let delta = wrapped_difference value reference in
    leb 0x80000000 delta && not (value == reference)

unfoldable pub reset_tracker : Bool → SequenceTracker → SequenceTracker
reset_tracker clear_stats t = record t {
  last_sequence = none;
  last_step_id = none;
  stats = if clear_stats then zero_stats else t.stats;
}

-- `step_id is not None and self._last_step_id is not None and self._is_older(...)`
unfoldable pub step_is_older : Option ℕ → Option ℕ → Bool
unfolding is_older
step_is_older none last = false
step_is_older (some step_id) none = false
step_is_older (some step_id) (some last) = is_older step_id last

-- `if step_id is not None: self._last_step_id = step_id`
abbrev pub newer_step : Option ℕ → Option ℕ → Option ℕ
newer_step none last = last
newer_step (some step_id) last = some step_id

-- The branch `delta < 0x80000000`.
unfoldable pub observe_forward :
    SequenceTracker → ℕ → Option ℕ → ℕ → SequenceTracker × SequenceResult
unfolding step_is_older
observe_forward t sequence step_id delta =
    let s = t.stats in
    let missing = delta - 1 in
    if step_is_older step_id t.last_step_id
    then (
      record t { stats = record s { stale = s.stale + 1 } },
      record { disposition = stale; accepted = false; missing = 0 },
    )
    else (
      record t {
        last_sequence = some sequence;
        last_step_id = newer_step step_id t.last_step_id;
        stats = record s { accepted = s.accepted + 1; missing = s.missing + missing };
      },
      record {
        disposition = if missing == 0 then in_order else gap;
        accepted = true;
        missing = missing;
      },
    )

-- The packet is behind the last accepted one.
unfoldable pub observe_behind : SequenceTracker → ℕ → ℕ → SequenceTracker × SequenceResult
observe_behind t last sequence =
    let s = t.stats in
    let backwards = wrapped_difference last sequence in
    if leb backwards t.reorder_window
    then (
      record t { stats = record s { out_of_order = s.out_of_order + 1 } },
      record { disposition = out_of_order; accepted = false; missing = 0 },
    )
    else (
      record t { stats = record s { stale = s.stale + 1 } },
      record { disposition = stale; accepted = false; missing = 0 },
    )

-- `observe` on validated numbers, by `self._last_sequence`.
unfoldable pub observe_from :
    SequenceTracker → Option ℕ → ℕ → Option ℕ → SequenceTracker × SequenceResult
unfolding observe_forward observe_behind
observe_from t none sequence step_id =
    let s = t.stats in
    (
      record t {
        last_sequence = some sequence;
        last_step_id = step_id;
        stats = record s { accepted = s.accepted + 1 };
      },
      record { disposition = initial; accepted = true; missing = 0 },
    )
observe_from t (some last) sequence step_id =
    let s = t.stats in
    let delta = wrapped_difference sequence last in
    if delta == 0
    then (
      record t { stats = record s { duplicates = s.duplicates + 1 } },
      record { disposition = duplicate; accepted = false; missing = 0 },
    )
    else if ltb delta 0x80000000
    then observe_forward t sequence step_id delta
    else observe_behind t last sequence

-- `step_id` is optional.
unfoldable pub uint_or_none : Option Scalar → Result (Option ℕ)
uint_or_none none = ok none
uint_or_none (some value) = do n ← uint value 32; ok (some n)

-- A rejected argument raises before the tracker changes.
unfoldable pub observe :
    SequenceTracker → Scalar → Option Scalar → Result (SequenceTracker × SequenceResult)
unfolding observe_from uint_or_none
observe t sequence step_id = do
  number ← uint sequence 32
  step ← uint_or_none step_id
  ok (observe_from t t.last_sequence number step)
