-- ===== src/Gateway/Started.antt =====
-- What start_action does to the tables (aftersales/action_gateway.py): nothing, one pending action,
-- or one business row with its receipt, each told by the outcome.
use knowledge_agent.Prelude.{
  String, Bool, true, false, Option, none, some, List, Result, ok, err, ◌==◌, string_eq, nat_eq,
  member, ◌≡◌, inl, inr, refl, Bool-cases, eqb→eq,
}
use knowledge_agent.Schema.{FailureCode}
use knowledge_agent.Actions.{
  ActionName, name_eq, name_text, mapping, text, ValidatedAction, validate, Diagnostic,
}
use knowledge_agent.Actions.Contract.{items_of}
use knowledge_agent.Actions.Revalidation.{texts}
use knowledge_agent.Policy.{Instant}
use knowledge_agent.Ids.{RequestIdentity}
use knowledge_agent.Outcome.{ActionOutcome}
use knowledge_agent.Store.{
  Tables, Session, Raise, Store, next_fault, value_error, runtime_error, attempt_failed,
  guard_failed, sqlite_error, integrity_error, transition_conflict, unknown_pending_action,
  not_approved, approval_input_error, capability_error, contract_error, type_error,
}
use knowledge_agent.Gateway.{World, failed}
use knowledge_agent.Gateway.Execution.{Config, Moment, Persona, idempotency_key}
use knowledge_agent.Gateway.Attempt.{attempt}
use knowledge_agent.Gateway.Start.{
  begin, committed_if, closed_best_effort, begun_best_effort, best_effort, start_failure,
  start_failed, start_committed, finish_start, start_run, is_canonical, start_as, start_action,
}
use knowledge_agent.Gateway.Runs.{Core, core_of, Post, Runs, Kept, audit_then, append_audit_runs}
use knowledge_agent.Gateway.Attempted.{StartEffect, attempt_runs}

pub best_effort_core :
    (x : Store (Unit {0})) (w : World)
    → Runs (core_of w.committed) x (Kept (core_of w.committed) (λ u. Unit))
    → core_of (best_effort x w).committed ≡ core_of w.committed
unfolding best_effort
best_effort_core x w h = begun (next_fault w.faults)
  where
    committed :
        (s : Session) (y : Bool × List Bool)
        → core_of s.tables ≡ core_of w.committed
        → core_of (committed_if w.committed s y).committed ≡ core_of w.committed
    committed s (true, rest) e = refl
    committed s (false, rest) e = e

    closed :
        (o : Result Raise (Unit {0}) × Session)
        → Post (Kept (core_of w.committed) (λ u. Unit)) o
        → core_of (closed_best_effort w.committed o).committed ≡ core_of w.committed
    closed (ok u, s) q = committed s (next_fault s.faults) q.0
    closed (err e, s) q = refl

    begun :
        (y : Bool × List Bool)
        → core_of (begun_best_effort x w.committed y).committed ≡ core_of w.committed
    begun (true, rest) = refl
    begun (false, rest) = closed (x (begin w.committed rest)) (h.runs (begin w.committed rest) refl)

start_failure-core :
    (identity : RequestIdentity) (name : ActionName) (key : String) (at : Instant)
    (code : FailureCode) (from : Bool) (w : World)
    → core_of (start_failed identity name key at code from w).1.committed ≡ core_of w.committed
unfolding start_failed start_failure
start_failure-core identity name key at code from w =
    best_effort_core _ w (audit_then _ (append_audit_runs (core_of w.committed) _))

-- What a whole call may do: a result has an effect on the tables that are committed, and an
-- exception leaves everything as it was committed.
abbrev pub Effected :
    (Core → ActionOutcome → Core → Type 0) → Tables → Result Raise ActionOutcome × World → Type 0
Effected Q before (ok o, w) = Q (core_of before) o (core_of w.committed)
Effected Q before (err e, w) = core_of w.committed ≡ core_of before

module _ (cfg : Config) (m : Moment) (identity : RequestIdentity) (customer : String)
    (action : ValidatedAction) (key : String) (before : Tables) where
  abbrev Effect : Core → ActionOutcome → Core → Type 0
  Effect = StartEffect cfg m identity customer action key

  failed-Effected :
      (code : FailureCode) (from : Bool) (rest : List Bool)
      → Effected Effect before (
          start_failed identity action.action_name key m.now code from
            (record { committed = before; faults = rest }))
  unfolding start_failed failed
  failed-Effected code from rest = inl (
    start_failure-core identity action.action_name key m.now code from
        (record { committed = before; faults = rest }),
    inl refl,
  )

  committed-Effected :
      (o : ActionOutcome) (s : Session) (x : Bool × List Bool)
      → Effect (core_of before) o (core_of s.tables)
      → Effected Effect before (start_committed identity action.action_name key m.now before o s x)
  committed-Effected o s (true, rest) e = failed-Effected FailureCode.transaction_failed false rest
  committed-Effected o s (false, rest) e = e

  finish_start-Effected :
      (r : Result Raise ActionOutcome × Session)
      → Post (Effect (core_of before)) r
      → Effected Effect before (finish_start identity action.action_name key m.now before r)
  finish_start-Effected (ok o, s) e = committed-Effected o s (next_fault s.faults) e
  finish_start-Effected (err (attempt_failed c), s) e = failed-Effected c false s.faults
  finish_start-Effected (err (guard_failed c), s) e = failed-Effected c true s.faults
  finish_start-Effected (err sqlite_error, s) e =
      failed-Effected FailureCode.transaction_failed false s.faults
  finish_start-Effected (err integrity_error, s) e =
      failed-Effected FailureCode.transaction_failed false s.faults
  finish_start-Effected (err transition_conflict, s) e = refl
  finish_start-Effected (err value_error, s) e = refl
  finish_start-Effected (err runtime_error, s) e = refl
  finish_start-Effected (err unknown_pending_action, s) e = refl
  finish_start-Effected (err not_approved, s) e = refl
  finish_start-Effected (err approval_input_error, s) e = refl
  finish_start-Effected (err capability_error, s) e = refl
  finish_start-Effected (err contract_error, s) e = refl
  finish_start-Effected (err type_error, s) e = refl

  start_run-Effected :
      (x : Bool × List Bool)
      → Effected Effect before (start_run cfg m identity customer action key before x)
  unfolding start_run failed
  start_run-Effected (true, rest) = inl (refl, inl refl)
  start_run-Effected (false, rest) =
      finish_start-Effected (attempt cfg m identity customer action key (begin before rest)) (
        (attempt_runs cfg m identity customer action key (core_of before)).runs (begin before rest)
          refl)

-- An attempt as the persona that the server resolves, with the server's own key.
abbrev pub StartedAs :
    Config → Moment → RequestIdentity → ValidatedAction → Core → ActionOutcome → Core → Type 0
StartedAs cfg m identity action c o after =
    (persona : Persona) × (cfg.services.persona identity.persona_id ≡ some persona)
    × (persona.persona_id ≡ identity.persona_id)
    × StartEffect cfg m identity persona.customer_id action
        (idempotency_key cfg.services identity action) c o after

start_as-Effected :
    (cfg : Config) (m : Moment) (identity : RequestIdentity) (action : ValidatedAction)
    (p : Option Persona) (w : World)
    → cfg.services.persona identity.persona_id ≡ p
    → Effected (StartedAs cfg m identity action) w.committed (start_as cfg m identity action p w)
start_as-Effected cfg m identity action none w h = refl
start_as-Effected cfg m identity action (some persona) w h =
    elim (Bool-cases (persona.persona_id == identity.persona_id)) [
      | inl e ↦ rw e (
          resolved (eqb→eq persona.persona_id identity.persona_id e)
            (start_run cfg m identity persona.customer_id action
              (idempotency_key cfg.services identity action) w.committed (next_fault w.faults))
            (start_run-Effected cfg m identity persona.customer_id action
              (idempotency_key cfg.services identity action) w.committed (next_fault w.faults)))
      | inr e ↦ rw e refl
    ]
  where
    resolved :
        persona.persona_id ≡ identity.persona_id
        → (r : Result Raise ActionOutcome × World)
        → Effected
            (StartEffect cfg m identity persona.customer_id action
              (idempotency_key cfg.services identity action))
            w.committed
            r
        → Effected (StartedAs cfg m identity action) w.committed r
    resolved e (ok o, v) q = (persona, h, e, q)
    resolved e (err x, v) q = q

-- Whatever fails, a call of start_action that returns has done one of three things to the committed
-- tables, audits apart: nothing, and then it tells no new execution; or it has added one pending
-- action, which it tells as WAITING_APPROVAL, for a decision of the Guard on these very tables that
-- requires an approval; or it has added one business row of the action and its receipt, which it
-- tells as EXECUTED, for a decision that allows. In the last two no receipt and no pending action
-- had the key. The customer is that of the persona that the server resolves. A call that raises has
-- done nothing.
pub start_action-Effected :
    (cfg : Config) (m : Moment) (identity : RequestIdentity) (action : ValidatedAction) (w : World)
    → Effected (StartedAs cfg m identity action) w.committed (start_action cfg m identity action w)
unfolding start_action
start_action-Effected cfg m identity action w =
    elim (Bool-cases (member action.action_name cfg.actions)) [
      | inl e ↦ rw e (elim (Bool-cases (is_canonical cfg action again)) [
        | inl q ↦ rw q (
            start_as-Effected cfg m identity action (cfg.services.persona identity.persona_id) w
              refl)
        | inr q ↦ rw q refl
      ])
      | inr e ↦ rw e refl
    ]
  where
    again : Result Diagnostic ValidatedAction
    again =
        validate cfg.actions (text (name_text action.action_name))
          (mapping (items_of (texts action.args)))
