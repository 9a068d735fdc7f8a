-- ===== src/Session/Run.antt =====
-- Methods of a stateful object that may raise: a state, and an answer or what was raised. An
-- exception leaves the state as it is where it is raised.
use navbench.Common.{List, ◌++◌, ◌≡◌, ◌≢◌, refl, ap, Bool, true, false, if◌then◌else◌}
use navbench.Protocol.Error.{ProtocolErrorCode}

-- What the methods of host/src/navbench/session.py and of the transports raise.
pub data SessionFailure : Type 0 where
  session_error transport_error value_error type_error out_of_fuel : SessionFailure
  protocol_error : ProtocolErrorCode → SessionFailure

pub data Answer {κ} (A : Type κ) : Type κ where
  done : A → Answer A
  failed : SessionFailure → Answer A

abbrev pub Run : Type 0 → Type 0 → Type 0
Run S A = S → S × Answer A

module _ {S : Type 0} where
  infixl 5 ◌>>=◌ ◌>>◌
  abbrev pub continue_with : {A B : Type 0} → (A → Run S B) → S × Answer A → S × Answer B
  continue_with next (s, done a) = next a s
  continue_with next (s, failed e) = (s, failed e)

  abbrev pub ◌>>=◌ : {A B : Type 0} → Run S A → (A → Run S B) → Run S B
  ◌>>=◌ step next s = continue_with next (step s)

  abbrev pub ◌>>◌ : {B : Type 0} → Run S (Unit {0}) → Run S B → Run S B
  step >> next = step >>= λ _. next

  abbrev pub pure : {A : Type 0} → A → Run S A
  pure a s = (s, done a)

  abbrev pub raise : {A : Type 0} → SessionFailure → Run S A
  raise e s = (s, failed e)

  abbrev pub modify : (S → S) → Run S (Unit {0})
  modify f s = (f s, done tt)

  -- The answer of `next` behind what there is already.
  abbrev pub append_answer : {E : Type 0} → Run S (List E) → List E → Run S (List E)
  append_answer next events = next >>= λ more. pure (events ++ more)

-- A property of the state through a chain of calls. An exception ends the chain where it is.
module _ {S : Type 0} (P : S → Type 0) where
  pub after_either :
      {A B : Type 0} (result : S × Answer A) (next : A → Run S B)
      → ((e : SessionFailure) → result.1 ≡ failed e → P (result.0))
      → ((a : A) → result.1 ≡ done a → P ((next a (result.0)).0))
      → P ((continue_with next result).0)
  after_either (s, done a) next stopped continued = continued a refl
  after_either (s, failed e) next stopped continued = stopped e refl

  pub after_bind :
      {A B : Type 0} (result : S × Answer A) (next : A → Run S B)
      → P (result.0)
      → ((a : A) → result.1 ≡ done a → P ((next a (result.0)).0))
      → P ((continue_with next result).0)
  after_bind result next kept continued = after_either result next (λ e f. kept) continued

  pub after_test :
      {A : Type 0} (test : Bool) (a b : S × A)
      → (test ≡ true → P (a.0))
      → (test ≡ false → P (b.0))
      → P ((if test then a else b).0)
  after_test true a b p q = p refl
  after_test false a b p q = q refl

  pub after_if :
      {A : Type 0} (test : Bool) (a b : S × A) → P (a.0) → P (b.0) → P ((if test then a else b).0)
  after_if true a b p q = p
  after_if false a b p q = q

pub if_both :
    {X : Type 0} (P : X → Type 0) (test : Bool) (a b : X) → P a → P b → P (if test then a else b)
if_both P true a b p q = p
if_both P false a b p q = q

done_same : {A : Type 0} {a b : A} → done a ≡ done b → a ≡ b
done_same h = cc

-- What holds of the answer and the state of a call that returns.
module _ {S : Type 0} where
  abbrev pub Ensures : {A : Type 0} → (A → S → Type 0) → S × Answer A → Type 0
  Ensures Q (s, done a) = Q a s
  Ensures Q (s, failed e) = Unit {0}

  pub Ensures-bind :
      {A B : Type 0} (P : A → S → Type 0) (Q : B → S → Type 0) (result : S × Answer A)
      (next : A → Run S B)
      → Ensures P result
      → ((a : A) (s : S) → P a s → Ensures Q (next a s))
      → Ensures Q (continue_with next result)
  Ensures-bind P Q (s, done a) next h continued = continued a s h
  Ensures-bind P Q (s, failed e) next h continued = tt

  pub Ensures-if :
      {A : Type 0} (Q : A → S → Type 0) (test : Bool) (a b : Run S A) (s : S)
      → (test ≡ true → Ensures Q (a s))
      → (test ≡ false → Ensures Q (b s))
      → Ensures Q ((if test then a else b) s)
  Ensures-if Q true a b s p q = p refl
  Ensures-if Q false a b s p q = q refl

  pub Ensures-test :
      {A : Type 0} (Q : A → S → Type 0) (test : Bool) (a b : S × Answer A)
      → (test ≡ true → Ensures Q a)
      → (test ≡ false → Ensures Q b)
      → Ensures Q (if test then a else b)
  Ensures-test Q true a b p q = p refl
  Ensures-test Q false a b p q = q refl

  pub Ensures-both :
      {A : Type 0} (Q : A → S → Type 0) (P : S → Type 0) (result : S × Answer A)
      → Ensures Q result
      → P (result.0)
      → Ensures (λ (a : A) (s : S). Q a s × P s) result
  Ensures-both Q P (s, done a) h k = (h, k)
  Ensures-both Q P (s, failed e) h k = tt

  pub Ensures-weaken :
      {A : Type 0} (P Q : A → S → Type 0) (result : S × Answer A)
      → ((a : A) (s : S) → P a s → Q a s)
      → Ensures P result
      → Ensures Q result
  Ensures-weaken P Q (s, done a) weaker h = weaker a s h
  Ensures-weaken P Q (s, failed e) weaker h = tt

  pub Ensures-eq :
      {A : Type 0} (Q : A → S → Type 0) (result : S × Answer A)
      → ((a : A) (s : S) → result ≡ (s, done a) → Q a s)
      → Ensures Q result
  Ensures-eq Q (s, done a) h = h a s refl
  Ensures-eq Q (s, failed e) h = tt

  -- An answer that is known.
  pub Ensures-answer :
      {A : Type 0} (Q : A → S → Type 0) (result : S × Answer A) (a : A)
      → result.1 ≡ done a
      → Ensures Q result
      → Q a (result.0)
  Ensures-answer Q (s, done a') a e h = rw (done_same e) at h
  Ensures-answer Q (s, failed f) a e h = absurd cc

-- A call that ends: what holds of its answer and the state, if it returns, and that it does not run
-- out of rounds.
module _ {S : Type 0} where
  abbrev pub Returns : {A : Type 0} → (A → S → Type 0) → S × Answer A → Type 0
  Returns Q (s, done a) = Q a s
  Returns Q (s, failed e) = e ≢ out_of_fuel

  pub Returns-bind :
      {A B : Type 0} (P : A → S → Type 0) (Q : B → S → Type 0) (result : S × Answer A)
      (next : A → Run S B)
      → Returns P result
      → ((a : A) (s : S) → P a s → Returns Q (next a s))
      → Returns Q (continue_with next result)
  Returns-bind P Q (s, done a) next h continued = continued a s h
  Returns-bind P Q (s, failed e) next h continued = h

  pub Returns-test :
      {A : Type 0} (Q : A → S → Type 0) (test : Bool) (a b : S × Answer A)
      → (test ≡ true → Returns Q a)
      → (test ≡ false → Returns Q b)
      → Returns Q (if test then a else b)
  Returns-test Q true a b p q = p refl
  Returns-test Q false a b p q = q refl

  pub Returns-if :
      {A : Type 0} (Q : A → S → Type 0) (test : Bool) (a b : Run S A) (s : S)
      → (test ≡ true → Returns Q (a s))
      → (test ≡ false → Returns Q (b s))
      → Returns Q ((if test then a else b) s)
  Returns-if Q true a b s p q = p refl
  Returns-if Q false a b s p q = q refl

  pub Returns-answer :
      {A : Type 0} (Q : A → S → Type 0) (result : S × Answer A)
      → Returns Q result
      → result.1 ≢ failed out_of_fuel
  Returns-answer Q (s, done a) h e = cc
  Returns-answer Q (s, failed x) h e = h cc

  pub Returns-ended :
      {A : Type 0} (result : S × Answer A)
      → result.1 ≢ failed out_of_fuel
      → Returns (λ (a : A) (s : S). Unit {0}) result
  Returns-ended (s, done a) h = tt
  Returns-ended (s, failed x) h = λ e. h (ap failed e)

  pub Returns-state :
      {A : Type 0} (P : S → Type 0) (result : S × Answer A)
      → Returns (λ (a : A) (s : S). Unit {0}) result
      → P (result.0)
      → Returns (λ (a : A) (s : S). P s) result
  Returns-state P (s, done a) h k = k
  Returns-state P (s, failed x) h k = h

  pub Returns-pair :
      {A : Type 0} (P Q : A → S → Type 0) (result : S × Answer A)
      → Returns P result
      → Returns Q result
      → Returns (λ (a : A) (s : S). P a s × Q a s) result
  Returns-pair P Q (s, done a) h k = (h, k)
  Returns-pair P Q (s, failed x) h k = h
