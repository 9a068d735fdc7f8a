-- ===== src/Protocol/Sequence/Runs.antt =====
-- SequenceTracker of host/src/navbench/protocol.py over all numbers and whole runs.
use navbench.Common.{
  ℕ, ◌+◌, ◌-◌, ◌%◌, ◌^◌, ◌<◌, ◌≡◌, refl, sym, ap, ◌∙◌, Bool, true, Option, none, some, List, [],
  ◌∷◌, inl, inr, ltb, leb, ◌==◌, length, if◌then◌else◌, Bool-cases, arith,
}
use mathlib.Core.Path.{subst}
use navbench.Protocol.Error.{Result, ok, err}
use navbench.Protocol.Value.{Scalar, int, uint_int}
use navbench.Protocol.Sequence.{
  SequenceDisposition, in_order, gap, duplicate, out_of_order, stale, SequenceResult,
  SequenceTracker, zero_stats, wrapped_difference, step_is_older, observe_forward, observe_behind,
  observe_from, observe, uint_or_none,
}
use navbench.Protocol.Sequence.Laws.{observe_from-Observed, observations}

-- How a number that lies `ahead` places after the last accepted one is to be classified.
abbrev pub classify : ℕ → Bool → ℕ → SequenceDisposition
classify window older ahead =
    if ahead == 0
    then duplicate
    else if ltb ahead (2 ^ 31)
    then if older then stale else if ahead == 1 then in_order else gap
    else if leb (2 ^ 32 - ahead) window
    then out_of_order
    else stale

observe_from_classifies :
    (t : SequenceTracker) (last ahead : ℕ) (step_id : Option ℕ)
    → last < 2 ^ 32
    → ahead < 2 ^ 32
    → (observe_from t (some last) ((last + ahead) % 2 ^ 32) step_id).1.disposition
      ≡ classify t.reorder_window (step_is_older step_id t.last_step_id) ahead
unfolding observe_from
observe_from_classifies t last ahead step_id a b =
    let delta : wrapped_difference ((last + ahead) % 2 ^ 32) last ≡ ahead = omega arith in
    rw delta (elim (Bool-cases (ahead == 0)) [
      | inl same ↦ rw same
      | inr other ↦ elim (Bool-cases (ltb ahead (2 ^ 31))) [
        | inl front ↦
            rw (other, front)
              (unfold observe_forward in
                elim (Bool-cases (step_is_older step_id t.last_step_id)) [
                  | inl older ↦ rw older
                  | inr newer ↦ rw newer (ground arith)
                ])
        | inr back ↦
            let backwards : wrapped_difference last ((last + ahead) % 2 ^ 32) ≡ 2 ^ 32 - ahead =
              ground arith in
            rw (other, back) (unfold observe_behind in rw backwards (ground arith))
      ]
    ])

-- With no step id, or with one that the tracker has not passed, `observe` classifies a number by
-- its distance ahead of the last one, modulo 2^32.
pub observe_classifies :
    (t : SequenceTracker) (last ahead : ℕ) (step_id : Option Scalar) (step : Option ℕ)
    (t' : SequenceTracker) (r : SequenceResult)
    → t.last_sequence ≡ some last
    → last < 2 ^ 32
    → ahead < 2 ^ 32
    → uint_or_none step_id ≡ ok step
    → observe t (int ((last + ahead) % 2 ^ 32)) step_id ≡ ok (t', r)
    → r.disposition ≡ classify t.reorder_window (step_is_older step t.last_step_id) ahead
unfolding observe
observe_classifies t last ahead step_id step t' r e a b s h =
    let word : (last + ahead) % 2 ^ 32 < 2 ^ 32 = omega arith in
    let run = rw (uint_int ((last + ahead) % 2 ^ 32) 32 word, s) at h in
    ap disposition_of (sym run)
    ∙ ap (λ o. (observe_from t o ((last + ahead) % 2 ^ 32) step).1.disposition) e
    ∙ observe_from_classifies t last ahead step a b
  where
    disposition_of : Result (SequenceTracker × SequenceResult) → SequenceDisposition
    disposition_of (ok q) = q.1.disposition
    disposition_of (err c) = stale

-- The numbers from the first accepted one to the last are those accepted and those missing.
pub record Accounts (first : ℕ) (t : SequenceTracker) : Type 0 where
  pub last : ℕ
  pub last_eq : t.last_sequence ≡ some last
  pub word : last < 2 ^ 32
  pub span : (first + t.stats.accepted + t.stats.missing) % 2 ^ 32 ≡ (last + 1) % 2 ^ 32

distance :
    (t : SequenceTracker) (last sequence : ℕ) (step_id : Option ℕ)
    → last < 2 ^ 32
    → sequence < 2 ^ 32
    → (observe_from t (some last) sequence step_id).1.accepted ≡ true
    → (last + 1 + (observe_from t (some last) sequence step_id).1.missing) % 2 ^ 32 ≡ sequence
unfolding observe_from
distance t last sequence step_id a b h = elim (Bool-cases (wrapped_difference sequence last == 0)) [
  | inl same ↦ absurd (let g = rw same at h in cc)
  | inr other ↦ elim (Bool-cases (ltb (wrapped_difference sequence last) 0x80000000)) [
    | inl front ↦
        rw (other, front)
          (let g = rw (other, front) at h in
            unfold observe_forward in
            elim (Bool-cases (step_is_older step_id t.last_step_id)) [
              | inl older ↦ absurd (let f = rw older at g in cc)
              | inr newer ↦ rw newer (ground arith)
            ])
    | inr back ↦ absurd (let g = rw (other, back) at h in unfold observe_behind in ground arith)
  ]
]

observe_some-Accounts :
    (first : ℕ) (t : SequenceTracker) (last sequence : ℕ) (step_id : Option ℕ)
    → t.last_sequence ≡ some last
    → last < 2 ^ 32
    → (first + t.stats.accepted + t.stats.missing) % 2 ^ 32 ≡ (last + 1) % 2 ^ 32
    → sequence < 2 ^ 32
    → Accounts first (observe_from t (some last) sequence step_id).0
observe_some-Accounts first t last sequence step_id e word span h =
    let o = observe_from-Observed t (some last) sequence step_id e in
    elim (Bool-cases (observe_from t (some last) sequence step_id).1.accepted) [
      | inl yes_ ↦
          let far = distance t last sequence step_id word h yes_ in
          let moved = rw yes_ at o.moved in
          let counted = rw yes_ at o.accepted_counted in
          record {
            last = sequence;
            last_eq = moved;
            word = h;
            span = omega (arith, o.missing_counted, counted, span, far);
          }
      | inr no_ ↦
          let still = rw no_ at o.moved in
          let counted = rw no_ at o.accepted_counted in
          record {
            last = last;
            last_eq = still ∙ e;
            word = word;
            span = omega (arith, o.missing_counted, counted, o.nothing_missing no_, span);
          }
    ]

-- Observations one after the other, on validated numbers.
pub observe_all : SequenceTracker → List (ℕ × Option ℕ) → SequenceTracker
observe_all t [] = t
observe_all t ((sequence, step_id) ∷ rest) =
    observe_all (observe_from t t.last_sequence sequence step_id).0 rest

abbrev pub AreWords : List (ℕ × Option ℕ) → Type 0
AreWords [] = Unit
AreWords ((sequence, step_id) ∷ rest) = (sequence < 2 ^ 32) × AreWords rest

observe_all-Accounts :
    (first : ℕ) (t : SequenceTracker) (xs : List (ℕ × Option ℕ))
    → AreWords xs
    → Accounts first t
    → Accounts first (observe_all t xs)
unfolding observe_all
observe_all-Accounts first t [] w a = a
observe_all-Accounts first t ((sequence, step_id) ∷ rest) w a =
    observe_all-Accounts first (observe_from t t.last_sequence sequence step_id).0 rest w.1 (
      subst (λ o. Accounts first (observe_from t o sequence step_id).0) (sym a.last_eq)
        (observe_some-Accounts first t a.last sequence step_id a.last_eq a.word a.span w.0))

-- From a tracker with cleared counters, after any observations, the last accepted number is as far
-- from the first one as the packets accepted and missing since then say, modulo 2^32.
pub run-Accounts :
    (t : SequenceTracker) (first : ℕ) (step_id : Option ℕ) (xs : List (ℕ × Option ℕ))
    → t.last_sequence ≡ none
    → t.stats ≡ zero_stats
    → first < 2 ^ 32
    → AreWords xs
    → Accounts first (observe_all t ((first, step_id) ∷ xs))
unfolding observe_all observe_from
run-Accounts t first step_id xs e z w ws =
    observe_all-Accounts first (observe_from t t.last_sequence first step_id).0 xs ws (
      subst (λ o. Accounts first (observe_from t o first step_id).0) (sym e)
        (record { last = first; last_eq = refl; word = w; span = ground arith }))

-- Every observation, accepted or not, is counted in exactly one of the four counters of
-- dispositions.
pub observations-observe_all :
    (t : SequenceTracker) (xs : List (ℕ × Option ℕ))
    → observations (observe_all t xs).stats ≡ observations t.stats + length xs
unfolding observe_all
observations-observe_all t [] = omega arith
observations-observe_all t ((sequence, step_id) ∷ rest) =
    let o = observe_from-Observed t t.last_sequence sequence step_id refl in
    omega (
      arith,
      observations-observe_all (observe_from t t.last_sequence sequence step_id).0 rest,
      o.counted,
    )
