-- ===== src/Guard/Logic.antt =====
-- What a check establishes when it passes, and what its refusal shows: a small program logic for
-- the checks of the matrix (guard.py, class _Decision).
use knowledge_agent.Prelude.{Bool, true, false, Option, none, some, ◌≡◌, refl, ok, err}
use knowledge_agent.Schema.{FailureCode}
use knowledge_agent.Derived.{Derive, value_error, not_derivable}
use knowledge_agent.Guard.Types.{ReasonCode, GuardFacts}
use knowledge_agent.Guard.Check.{
  Outcome, pass, denied, failed, Check, go_on, ◌>>=◌, ◌>>◌, pure, deny, fail, record_fact, deny_if,
  expect, derived,
}

abbrev pub Post : {A : Type 0} → (A → Type 0) → (ReasonCode → Type 0) → Outcome A → Type 0
Post P D (pass a) = P a
Post P D (denied r) = D r
Post P D (failed c) = Unit

-- Whatever is recorded so far: a pass has `P`, and a refusal has the cause `D` of its code.
pub record Shows {A : Type 0} (D : ReasonCode → Type 0) (m : Check A) (P : A → Type 0)
    : Type 0 where
  pub shown : (facts : GuardFacts) → Post P D (m facts).0

Post-go_on :
    (A B : Type 0) (D : ReasonCode → Type 0) (P : A → Type 0) (Q : B → Type 0) (f : A → Check B)
    (o : Outcome A × GuardFacts)
    → Post P D o.0
    → ((a : A) → P a → Shows D (f a) Q)
    → Post Q D (go_on o f).0
Post-go_on A B D P Q f (pass a, facts) h k = (k a h).shown facts
Post-go_on A B D P Q f (denied r, facts) h k = h
Post-go_on A B D P Q f (failed c, facts) h k = tt

pub bind_shows :
    {A B : Type 0} {D : ReasonCode → Type 0} {P : A → Type 0} {Q : B → Type 0} {m : Check A}
    {f : A → Check B}
    → Shows D m P
    → ((a : A) → P a → Shows D (f a) Q)
    → Shows D (m >>= f) Q
bind_shows {A} {B} {D} {P} {Q} {m} {f} h k = record {
  shown = λ facts. Post-go_on A B D P Q f (m facts) (h.shown facts) k;
}

pub pure_shows :
    {A : Type 0} {D : ReasonCode → Type 0} {P : A → Type 0} {a : A} → P a → Shows D (pure a) P
pure_shows h = record { shown = λ facts. h }

-- `deny_if` at the end of a check
pub deny_if_shows :
    {D : ReasonCode → Type 0} (b : Bool) (r : ReasonCode)
    → (b ≡ true → D r)
    → Shows D (deny_if b r) (λ _. b ≡ false)
deny_if_shows true r h = record { shown = λ facts. h refl }
deny_if_shows false r h = record { shown = λ facts. refl }

pub deny_shows :
    {A : Type 0} {D : ReasonCode → Type 0} {P : A → Type 0} (r : ReasonCode)
    → D r
    → Shows D (deny {A = A} r) P
deny_shows r h = record { shown = λ facts. h }

pub fail_shows :
    {A : Type 0} {D : ReasonCode → Type 0} {P : A → Type 0} (c : FailureCode)
    → Shows D (fail {A = A} c) P
fail_shows c = record { shown = λ facts. tt }

pub expect_shows :
    {A : Type 0} {D : ReasonCode → Type 0} (o : Option A) → Shows D (expect o) (λ a. o ≡ some a)
expect_shows none = record { shown = λ facts. tt }
expect_shows (some a) = record { shown = λ facts. refl }

pub derived_shows :
    {A : Type 0} {D : ReasonCode → Type 0} (d : Derive A) → Shows D (derived d) (λ a. d ≡ ok a)
derived_shows (ok a) = record { shown = λ facts. refl }
derived_shows (err value_error) = record { shown = λ facts. tt }
derived_shows (err (not_derivable c)) = record { shown = λ facts. tt }

-- A recorded fact changes nothing in what the rest shows.
pub record_shows :
    {B : Type 0} {D : ReasonCode → Type 0} {Q : B → Type 0} (f : GuardFacts → GuardFacts)
    {k : Check B}
    → Shows D k Q
    → Shows D (record_fact f >> k) Q
record_shows f h = record { shown = λ facts. h.shown (f facts) }

-- A refusal that is passed on.
pub deny_if_then :
    {B : Type 0} {D : ReasonCode → Type 0} {Q : B → Type 0} (b : Bool) (r : ReasonCode)
    {k : Check B}
    → (b ≡ true → D r)
    → (b ≡ false → Shows D k Q)
    → Shows D (deny_if b r >> k) Q
deny_if_then b r h k = bind_shows (deny_if_shows b r h) (λ _ q. k q)

pub weaken_shows :
    {A : Type 0} {D : ReasonCode → Type 0} {P Q : A → Type 0} {m : Check A}
    → Shows D m P
    → ((a : A) → P a → Q a)
    → Shows D m Q
weaken_shows {A} {D} {P} {Q} {m} h k = record {
  shown = λ facts. go A D P Q (m facts).0 (h.shown facts) k;
}
  where
    go :
        (A : Type 0) (D : ReasonCode → Type 0) (P Q : A → Type 0) (o : Outcome A)
        → Post P D o
        → ((a : A) → P a → Q a)
        → Post Q D o
    go A D P Q (pass a) h k = k a h
    go A D P Q (denied r) h k = h
    go A D P Q (failed c) h k = tt

pub causes_shows :
    {A : Type 0} {D E : ReasonCode → Type 0} {P : A → Type 0} {m : Check A}
    → Shows D m P
    → ((r : ReasonCode) → D r → E r)
    → Shows E m P
causes_shows {A} {D} {E} {P} {m} h k = record {
  shown = λ facts. go A D E P (m facts).0 (h.shown facts) k;
}
  where
    go :
        (A : Type 0) (D E : ReasonCode → Type 0) (P : A → Type 0) (o : Outcome A)
        → Post P D o
        → ((r : ReasonCode) → D r → E r)
        → Post P E o
    go A D E P (pass a) h k = h
    go A D E P (denied r) h k = k r h
    go A D E P (failed c) h k = tt
