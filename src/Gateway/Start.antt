-- ===== src/Gateway/Start.antt =====
-- aftersales/action_gateway.py: start_action around its attempt: the checks, the transaction and the
-- compensation.
use knowledge_agent.Prelude.{
  String, Bool, true, false, not, ◌&&◌, Option, none, some, List, Result, ok, err, ◌==◌, string_eq,
  if◌then◌else◌, member,
}
use knowledge_agent.Prelude.Maps.{dict_eqb}
use knowledge_agent.Schema.{FailureCode}
use knowledge_agent.Actions.{
  ActionName, name_eq, name_text, mapping, text, ValidatedAction, validate, Diagnostic,
}
use knowledge_agent.Actions.Contract.{items_of}
use knowledge_agent.Actions.Revalidation.{texts}
use knowledge_agent.Policy.{Instant}
use knowledge_agent.Ids.{RequestIdentity}
use knowledge_agent.Outcome.{ActionStatus, failure, ActionOutcome}
use knowledge_agent.Store.{
  AuditEventName, Phase, AuditDecision, closed, Tables, Session, Raise, attempt_failed,
  guard_failed, sqlite_error, integrity_error, value_error, capability_error, contract_error, Store,
  ◌>>◌, next_fault, append_audit,
}
use knowledge_agent.Gateway.{World, failed}
use knowledge_agent.Gateway.Execution.{Config, Moment, Persona, idempotency_key}
use knowledge_agent.Gateway.Attempt.{start_event, attempt}

abbrev pub begin : Tables → List Bool → Session
begin t faults = record { tables = t; faults = faults; loaded = none }

-- COMMIT of a best-effort transaction, or its rollback
abbrev pub committed_if : Tables → Session → Bool × List Bool → World
committed_if before s (true, rest) = record { committed = before; faults = rest }
committed_if before s (false, rest) = record { committed = s.tables; faults = rest }

abbrev pub closed_best_effort : Tables → Result Raise (Unit {0}) × Session → World
closed_best_effort before (ok u, s) = committed_if before s (next_fault s.faults)
closed_best_effort before (err e, s) = record { committed = before; faults = s.faults }

abbrev pub begun_best_effort : Store (Unit {0}) → Tables → Bool × List Bool → World
begun_best_effort m before (true, rest) = record { committed = before; faults = rest }
begun_best_effort m before (false, rest) = closed_best_effort before (m (begin before rest))

-- A compensating transaction: whatever fails is rolled back and forgotten.
unfoldable pub best_effort : Store (Unit {0}) → World → World
best_effort m w = begun_best_effort m w.committed (next_fault w.faults)

abbrev pub failure_event : Bool → AuditEventName
failure_event true = AuditEventName.guard_failed
failure_event false = AuditEventName.transaction_rolled_back

-- the writes of `_compensate_start`
unfoldable pub start_failure :
    RequestIdentity → ActionName → String → FailureCode → Bool → Instant → Store (Unit {0})
start_failure identity name key code from at = do
  append_audit (
      start_event identity name key at (failure_event from) (some Phase.start) none none none
        (some (closed (failure code))))
  append_audit (
      start_event identity name key at AuditEventName.action_not_executed none none none
        (some (AuditDecision.outcome ActionStatus.failed)) (some (closed (failure code))))

-- The caller's view of a failed attempt, after its compensation.
unfoldable pub start_failed :
    RequestIdentity
    → ActionName
    → String
    → Instant
    → FailureCode
    → Bool
    → World
    → Result Raise ActionOutcome × World
start_failed identity name key at code from w = (
  ok (failed (some name) (some identity.request_id) code none),
  best_effort (start_failure identity name key code from at) w,
)

abbrev pub start_committed :
    RequestIdentity
    → ActionName
    → String
    → Instant
    → Tables
    → ActionOutcome
    → Session
    → Bool × List Bool
    → Result Raise ActionOutcome × World
start_committed identity name key at before o s (true, rest) =
    start_failed identity name key at FailureCode.transaction_failed false
      (record { committed = before; faults = rest })
start_committed identity name key at before o s (false, rest) =
    (ok o, record { committed = s.tables; faults = rest })

-- S7 and the handlers of `start_action`
abbrev pub finish_start :
    RequestIdentity
    → ActionName
    → String
    → Instant
    → Tables
    → Result Raise ActionOutcome × Session
    → Result Raise ActionOutcome × World
finish_start identity name key at before (ok o, s) =
    start_committed identity name key at before o s (next_fault s.faults)
finish_start identity name key at before (err (attempt_failed c), s) =
    start_failed identity name key at c false (record { committed = before; faults = s.faults })
finish_start identity name key at before (err (guard_failed c), s) =
    start_failed identity name key at c true (record { committed = before; faults = s.faults })
finish_start identity name key at before (err sqlite_error, s) =
    start_failed identity name key at FailureCode.transaction_failed false
      (record { committed = before; faults = s.faults })
finish_start identity name key at before (err integrity_error, s) =
    start_failed identity name key at FailureCode.transaction_failed false
      (record { committed = before; faults = s.faults })
finish_start identity name key at before (err e, s) =
    (err e, record { committed = before; faults = s.faults })

-- S1 to S7
unfoldable pub start_run :
    Config
    → Moment
    → RequestIdentity
    → String
    → ValidatedAction
    → String
    → Tables
    → Bool × List Bool
    → Result Raise ActionOutcome × World
start_run cfg m identity customer action key before (true, rest) = (
  ok (
      failed (some action.action_name) (some identity.request_id) FailureCode.transaction_failed
        none),
  record { committed = before; faults = rest },
)
start_run cfg m identity customer action key before (false, rest) =
    finish_start identity action.action_name key m.now before
      (attempt cfg m identity customer action key (begin before rest))

-- `revalidated != action`
unfoldable pub same_action : ValidatedAction → ValidatedAction → Bool
same_action a b =
    a.action_name == b.action_name
    && dict_eqb a.args b.args
    && a.target_order_id == b.target_order_id
    && a.target_order_item_id == b.target_order_item_id

unfoldable pub is_canonical : Config → ValidatedAction → Result Diagnostic ValidatedAction → Bool
is_canonical cfg action (ok revalidated) = same_action revalidated action
is_canonical cfg action (err e) = false

abbrev pub start_as :
    Config
    → Moment
    → RequestIdentity
    → ValidatedAction
    → Option Persona
    → World
    → Result Raise ActionOutcome × World
start_as cfg m identity action none w = (err value_error, w)
start_as cfg m identity action (some persona) w =
    if persona.persona_id == identity.persona_id
    then start_run cfg m identity persona.customer_id action
        (idempotency_key cfg.services identity action) w.committed (next_fault w.faults)
    else (err value_error, w)

-- `start_action`: S0, then the transaction
unfoldable pub start_action :
    Config → Moment → RequestIdentity → ValidatedAction → World → Result Raise ActionOutcome × World
start_action cfg m identity action w =
    if not (member action.action_name cfg.actions)
    then (err capability_error, w)
    else if not (
        is_canonical cfg action (
          validate cfg.actions (text (name_text action.action_name))
            (mapping (items_of (texts action.args)))))
    then (err contract_error, w)
    else start_as cfg m identity action (cfg.services.persona identity.persona_id) w
