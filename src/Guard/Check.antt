-- ===== src/Guard/Check.antt =====
-- One evaluation of the matrix (guard.py, class _Decision): the facts recorded so far, and how the
-- evaluation goes on: it passes, a prerequisite denies it, or it fails.
use knowledge_agent.Prelude.{Bool, true, false, Option, none, some, ok, err}
use knowledge_agent.Schema.{FailureCode}
use knowledge_agent.Derived.{Derive, value_error, not_derivable}
use knowledge_agent.Guard.Types.{ReasonCode, GuardFacts}

pub data Outcome (A : Type 0) : Type 0 where
  pass : A → Outcome A
  denied : ReasonCode → Outcome A
  failed : FailureCode → Outcome A

-- The facts stay recorded when the evaluation ends.
abbrev pub Check : Type 0 → Type 0
Check A = GuardFacts → Outcome A × GuardFacts

abbrev pub go_on : {A B : Type 0} → Outcome A × GuardFacts → (A → Check B) → Outcome B × GuardFacts
go_on (pass a, facts) f = f a facts
go_on (denied r, facts) f = (denied r, facts)
go_on (failed c, facts) f = (failed c, facts)

infixl 5 ◌>>=◌ ◌>>◌
abbrev pub ◌>>=◌ : {A B : Type 0} → Check A → (A → Check B) → Check B
◌>>=◌ m f facts = go_on (m facts) f

abbrev pub ◌>>◌ : {B : Type 0} → Check (Unit {0}) → Check B → Check B
m >> k = m >>= λ _. k

abbrev pub pure : {A : Type 0} → A → Check A
pure a facts = (pass a, facts)

-- `raise _Denied(reason)`
abbrev pub deny : {A : Type 0} → ReasonCode → Check A
deny r facts = (denied r, facts)

-- `raise GuardFailure(code)`, or an exception that `decide` turns into one
abbrev pub fail : {A : Type 0} → FailureCode → Check A
fail c facts = (failed c, facts)

-- `self.facts[name] = value`
abbrev pub record_fact : (GuardFacts → GuardFacts) → Check (Unit {0})
record_fact f facts = (pass tt, f facts)

-- `if condition: raise _Denied(reason)`
abbrev pub deny_if : Bool → ReasonCode → Check (Unit {0})
deny_if true r facts = (denied r, facts)
deny_if false r facts = (pass tt, facts)

-- A `None` that the code does not expect is an exception, and so an internal failure.
abbrev pub expect : {A : Type 0} → Option A → Check A
expect none facts = (failed FailureCode.guard_internal_error, facts)
expect (some a) facts = (pass a, facts)

-- `_derived`
abbrev pub derived : {A : Type 0} → Derive A → Check A
derived (ok a) facts = (pass a, facts)
derived (err value_error) facts = (failed FailureCode.state_malformed, facts)
derived (err (not_derivable c)) facts = (failed FailureCode.guard_internal_error, facts)
