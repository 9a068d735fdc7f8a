-- ===== src/Protocol/Sequence/Laws.antt =====
-- What SequenceTracker of host/src/navbench/protocol.py promises.
use navbench.Common.{
  ℕ, ◌+◌, ◌-◌, ◌%◌, ◌^◌, ◌<◌, ◌≡◌, true, false, Option, none, some, inl, inr, ltb, leb, ◌==◌,
  if◌then◌else◌, Bool-cases, ne→==, lt→ltb, arith,
}
use navbench.Protocol.Sequence.{
  in_order, gap, SequenceResult, SequenceStats, SequenceTracker, wrapped_difference, is_older,
  step_is_older, observe_forward, observe_behind, observe_from,
}

-- The numbers that the tracker holds are 32-bit words.
abbrev pub IsWord : Option ℕ → Type 0
IsWord none = Unit
IsWord (some n) = n < 2 ^ 32

-- Of two different words at most one is older than the other, and it is the one less than half the
-- range behind; exactly half way round each is older than the other.
pub is_older_lem :
    (a b : ℕ)
    → a < 2 ^ 32
    → b < 2 ^ 32
    → is_older a b ≡ true
    → is_older b a ≡ true
    → wrapped_difference a b ≡ 2 ^ 31
unfolding is_older
is_older_lem a b ha hb h k = ground arith

abbrev pub observations : SequenceStats → ℕ
observations s = s.accepted + s.duplicates + s.out_of_order + s.stale

-- Every observation is counted once, and only an accepted packet moves the tracker.
pub record Observed (t : SequenceTracker) (sequence : ℕ) (t' : SequenceTracker) (r : SequenceResult)
    : Type 0 where
  pub counted : observations t'.stats ≡ observations t.stats + 1
  pub window_kept : t'.reorder_window ≡ t.reorder_window
  pub missing_counted : t'.stats.missing ≡ t.stats.missing + r.missing
  pub nothing_missing : r.accepted ≡ false → r.missing ≡ 0
  pub accepted_counted :
      t'.stats.accepted ≡ (if r.accepted then t.stats.accepted + 1 else t.stats.accepted)
  pub moved : t'.last_sequence ≡ (if r.accepted then some sequence else t.last_sequence)
  pub rejected_still : r.accepted ≡ false → t'.last_step_id ≡ t.last_step_id

forward-Observed :
    (t : SequenceTracker) (sequence : ℕ) (step_id : Option ℕ) (delta : ℕ)
    → Observed t sequence
        (observe_forward t sequence step_id delta).0
        (observe_forward t sequence step_id delta).1
unfolding observe_forward
forward-Observed t sequence step_id delta =
    elim (Bool-cases (step_is_older step_id t.last_step_id)) [
      | inl older ↦ rw older (ground arith)
      | inr newer ↦ rw newer (ground arith)
    ]

behind-Observed :
    (t : SequenceTracker) (last sequence : ℕ)
    → Observed t sequence (observe_behind t last sequence).0 (observe_behind t last sequence).1
unfolding observe_behind
behind-Observed t last sequence =
    elim (Bool-cases (leb (wrapped_difference last sequence) t.reorder_window)) [
      | inl near ↦ rw near (ground arith)
      | inr far ↦ rw far (ground arith)
    ]

pub observe_from-Observed :
    (t : SequenceTracker) (last : Option ℕ) (sequence : ℕ) (step_id : Option ℕ)
    → t.last_sequence ≡ last
    → Observed t sequence
        (observe_from t last sequence step_id).0
        (observe_from t last sequence step_id).1
unfolding observe_from
observe_from-Observed t none sequence step_id e = rw e (ground arith)
observe_from-Observed t (some last) sequence step_id e =
    let delta = wrapped_difference sequence last in
    elim (Bool-cases (delta == 0)) [
      | inl same ↦ rw same (ground arith)
      | inr other ↦ elim (Bool-cases (ltb delta 0x80000000)) [
        | inl ahead ↦ rw (other, ahead) (forward-Observed t sequence step_id delta)
        | inr behind ↦ rw (other, behind) (behind-Observed t last sequence)
      ]
    ]

-- Forward by 1 to 2^31 - 1: accepted unless its step is older, with the numbers between missing.
pub observe-ahead :
    (t : SequenceTracker) (last ahead : ℕ) (step_id : Option ℕ)
    → last < 2 ^ 32
    → 0 < ahead
    → ahead < 2 ^ 31
    → step_is_older step_id t.last_step_id ≡ false
    → (observe_from t (some last) ((last + ahead) % 2 ^ 32) step_id).1 ≡ record {
      disposition = if ahead == 1 then in_order else gap;
      accepted = true;
      missing = ahead - 1;
    }
unfolding observe_from
observe-ahead t last ahead step_id a b c d =
    let delta : wrapped_difference ((last + ahead) % 2 ^ 32) last ≡ ahead = omega arith in
    rw (delta, ne→== ahead 0 (omega arith), lt→ltb ahead 0x80000000 c)
      (unfold observe_forward in rw d (ground arith))
