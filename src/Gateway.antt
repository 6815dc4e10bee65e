-- ===== src/Gateway.antt =====
-- aftersales/action_gateway.py: the shared pieces of the gateway and T1, the operator's decision.
pub mod Views
pub mod FirstDecision
pub mod Replays
pub mod Succeeds
pub mod Recorded
pub mod Execution
pub mod Attempt
pub mod Start
pub mod ResumeSteps
pub mod Resume
pub mod Rebuilt
pub mod Runs
pub mod Effects
pub mod Attempted
pub mod Started
pub mod Resumed
pub mod Confirmed
pub mod Approved
pub mod Guarantees
pub mod Approvals
pub mod History
pub mod Fresh
pub mod Compared
pub mod ClosedStale
pub mod Resource
pub mod Added
pub mod Executed
pub mod Executes
pub mod Soundness
pub mod Finished
mod Tests
mod RunTests
mod FreshTests
mod StaleTests
mod ExecutesTests
use knowledge_agent.Prelude.{
  ℕ, ◌+◌, String, Bool, true, false, not, ◌&&◌, ◌||◌, Option, none, some, List, [], ◌∷◌, Result, ok,
  err, if◌then◌else◌, leb, ltb, ◌==◌, Eq, string_eq, option_eq,
}
use knowledge_agent.Schema.{PendingStatus, FailureCode}
use knowledge_agent.Actions.{ActionName}
use knowledge_agent.Policy.{Instant}
use knowledge_agent.Guard.Types.{GuardDecisionKind, ReasonCode}
use knowledge_agent.Ids.{RequestIdentity, request_identity}
use knowledge_agent.Approval.{Approval, approval_eq, ApprovalDecision, is_trusted}
use knowledge_agent.Outcome.{
  ActionStatus, Code, reason, failure, stale_reason, approval_rejected, ReceiptView, GuardView,
  ActionOutcome, constructs,
}
use knowledge_agent.Store
use knowledge_agent.Store.{
  PendingRecord, ReceiptRecord, AuditEventName, Phase, AuditDecision, AuditCode, closed,
  anchor_pending, AuditEvent, Tables, Session, Raise, attempt_failed, guard_failed, sqlite_error,
  integrity_error, transition_conflict, value_error, runtime_error, unknown_pending_action,
  not_approved, approval_input_error, Store, ◌>>=◌, ◌>>◌, go_on, pure, raise, check, next_fault,
  load_pending, find_receipt_for_pending, append_audit, is_pending_approval, decided_status,
  decided_code,
}

-- A computation whose ValueError is an invariant violation.
abbrev pub built : ActionOutcome → Result Raise ActionOutcome
built o = if constructs o then ok o else err (attempt_failed FailureCode.invariant_violation)

abbrev invariant : Result Raise ActionOutcome
invariant = err (attempt_failed FailureCode.invariant_violation)

abbrev pub approval_guard : PendingRecord → GuardView
approval_guard p = record {
  decision = GuardDecisionKind.require_approval;
  reason_code = p.guard_reason_code;
}

-- the outcome of a pending row, before its status is looked at
abbrev pub base : PendingRecord → Bool → Bool → ActionStatus → ActionOutcome
base p replay conflict status = record {
  status = status;
  action_name = some p.action_name;
  request_id = some p.request_id;
  idempotent_replay = replay;
  decision_conflict = conflict;
  approval_recorded = false;
  pending_action_id = some p.pending_action_id;
  receipt = none;
  guard = none;
  code = none;
}

abbrev pub receipt_view : ReceiptRecord → ReceiptView
receipt_view r = record {
  receipt_id = r.receipt_id;
  resource_type = r.resource_type;
  resource_id = r.resource_id;
}

-- the receipt is the one that the row names, and names the row
abbrev pub belongs : ReceiptRecord → PendingRecord → Bool
belongs r p = some r.receipt_id == p.receipt_id && r.pending_action_id == some p.pending_action_id

unfoldable pub executed_outcome :
    PendingRecord → Option ReceiptRecord → Bool → Bool → Result Raise ActionOutcome
executed_outcome p none replay conflict = invariant
executed_outcome p (some r) replay conflict =
    if belongs r p
    then built (record (base p replay conflict ActionStatus.executed) {
      guard = some (record { decision = r.guard_decision; reason_code = r.guard_reason_code });
      receipt = some (receipt_view r);
    })
    else invariant

unfoldable pub denied_outcome :
    PendingRecord → Option Code → Bool → Bool → Result Raise ActionOutcome
denied_outcome p (some (reason r)) replay conflict =
    built (record (base p replay conflict ActionStatus.denied) {
      code = some (reason r);
      guard = some (record { decision = GuardDecisionKind.deny; reason_code = r });
    })
denied_outcome p code replay conflict = invariant

unfoldable pub closed_outcome :
    PendingRecord → ActionStatus → Bool → Bool → Result Raise ActionOutcome
closed_outcome p status replay conflict = built (record (base p replay conflict status) {
  code = p.outcome_code;
  guard = some (approval_guard p);
})

unfoldable pub waiting_outcome : PendingRecord → Bool → Bool → Bool → Result Raise ActionOutcome
waiting_outcome p recorded replay conflict =
    built (record (base p replay conflict ActionStatus.waiting_approval) {
      guard = some (approval_guard p);
      approval_recorded = recorded;
    })

-- the cases of `_pending_outcome`
unfoldable pub outcome_of :
    PendingStatus → PendingRecord → Option ReceiptRecord → Bool → Bool → Result Raise ActionOutcome
outcome_of PendingStatus.pending_approval p receipt replay conflict =
    waiting_outcome p false replay conflict
outcome_of PendingStatus.approved p receipt replay conflict = waiting_outcome p true replay conflict
outcome_of PendingStatus.executed p receipt replay conflict =
    executed_outcome p receipt replay conflict
outcome_of PendingStatus.denied p receipt replay conflict =
    denied_outcome p p.outcome_code replay conflict
outcome_of PendingStatus.rejected p receipt replay conflict =
    closed_outcome p ActionStatus.rejected replay conflict
outcome_of PendingStatus.stale p receipt replay conflict =
    closed_outcome p ActionStatus.stale replay conflict
outcome_of PendingStatus.failed p receipt replay conflict =
    closed_outcome p ActionStatus.failed replay conflict

-- `_pending_outcome`
abbrev pub pending_outcome :
    PendingRecord → Option ReceiptRecord → Bool → Bool → Result Raise ActionOutcome
pending_outcome p receipt replay conflict = outcome_of p.status p receipt replay conflict

-- `_failed`
unfoldable pub failed :
    Option ActionName → Option String → FailureCode → Option String → ActionOutcome
failed name request code pending = record {
  status = ActionStatus.failed;
  action_name = name;
  request_id = request;
  idempotent_replay = false;
  decision_conflict = false;
  approval_recorded = false;
  pending_action_id = pending;
  receipt = none;
  guard = none;
  code = some (failure code);
}

-- `_writes`: the errors of the write phase
abbrev pub write_error : Raise → Raise
write_error (attempt_failed c) = attempt_failed c
write_error (guard_failed c) = guard_failed c
write_error transition_conflict = attempt_failed FailureCode.invariant_violation
write_error integrity_error = attempt_failed FailureCode.invariant_violation
write_error _ = attempt_failed FailureCode.write_failed

abbrev pub mapped :
    {A : Type 0} → (Raise → Raise) → Result Raise A × Session → Result Raise A × Session
mapped f (ok a, s) = (ok a, s)
mapped f (err e, s) = (err (f e), s)

abbrev pub writes : {A : Type 0} → Store A → Store A
writes m s = mapped write_error (m s)

-- `except sqlite3.Error: raise _AttemptFailed(FAILURE_STATE_READ)`
abbrev pub read_error : Raise → Raise
read_error sqlite_error = attempt_failed FailureCode.state_read_failed
read_error integrity_error = attempt_failed FailureCode.state_read_failed
read_error e = e

abbrev pub reads : {A : Type 0} → Store A → Store A
reads m s = mapped read_error (m s)

abbrev pub lift : {A : Type 0} → Result Raise A → Store A
lift (ok a) = pure a
lift (err e) = raise e

abbrev pub required : {A : Type 0} → Option A → Raise → Store A
required none e = raise e
required (some a) e = pure a

-- `common` and the event, for a pending row in the resume phase
abbrev pub resume_event :
    PendingRecord
    → RequestIdentity
    → Instant
    → AuditEventName
    → Option AuditDecision
    → Option AuditCode
    → Option String
    → AuditEvent
resume_event p identity at name decision code approver = record {
  event_name = name;
  request_id = identity.request_id;
  persona_id = identity.persona_id;
  action_name = p.action_name;
  idempotency_key = some p.idempotency_key;
  pending_action_id = some p.pending_action_id;
  receipt_id = none;
  phase = some Phase.resume;
  decision = decision;
  code = code;
  approver_ref = approver;
  at = at;
}

-- `_receipt_for`
unfoldable pub receipt_for : PendingRecord → Store (Option ReceiptRecord)
receipt_for p =
    if Store.is_executed p.status
    then reads (find_receipt_for_pending p.pending_action_id)
    else pure none

-- the audits of a rejection
abbrev pub rejection : PendingRecord → RequestIdentity → Instant → Approval → Store (Unit {0})
rejection p identity at Approval.approve = pure tt
rejection p identity at Approval.reject = append_audit (
    resume_event p identity at AuditEventName.action_not_executed
      (some (AuditDecision.outcome ActionStatus.rejected)) (some (closed approval_rejected)) none)

-- `dataclasses.replace(pending, ...)` after the decision
abbrev pub recorded : PendingRecord → Approval → PendingRecord
recorded p decision = record p {
  status = decided_status decision;
  outcome_code = decided_code decision;
  version = p.version + 1;
}

-- `_record` on a row that waits for an approval
unfoldable pub first_decision :
    ApprovalDecision → Instant → PendingRecord → RequestIdentity → Store ActionOutcome
first_decision d now p identity = do
  created ← required p.created_at (attempt_failed FailureCode.invariant_violation)
  check (leb created d.decided_at) approval_input_error
  writes (do
    Store.record_decision p.pending_action_id p.version d.decision d.approver_ref d.decided_at now
    append_audit (
        resume_event p identity now AuditEventName.approval_recorded
          (some (AuditDecision.operator d.decision)) none (some d.approver_ref))
    rejection p identity now d.decision)
  lift (pending_outcome (recorded p d.decision) none false false)

-- `_record` on a row that was decided before
unfoldable pub later_decision :
    ApprovalDecision → Instant → PendingRecord → RequestIdentity → Store ActionOutcome
later_decision d now p identity = do
  receipt ← receipt_for p
  writes (
      if p.approval_decision == some d.decision
      then (do
        append_audit (
            resume_event p identity now AuditEventName.action_replay_hit none (some anchor_pending)
              none)
        lift (pending_outcome p receipt true false))
      else (do
        append_audit (
            resume_event p identity now AuditEventName.approval_conflict
              (some (AuditDecision.operator d.decision)) none (some d.approver_ref))
        lift (pending_outcome p receipt false true)))

abbrev pub remember : PendingRecord → Store (Unit {0})
remember p s = (ok tt, record s { loaded = some p })

abbrev pub decide_on :
    ApprovalDecision → Instant → PendingRecord → RequestIdentity → Store ActionOutcome
decide_on d now p identity =
    if is_pending_approval p.status
    then first_decision d now p identity
    else later_decision d now p identity

-- `_record`
unfoldable pub record_on : ApprovalDecision → Instant → Store ActionOutcome
record_on d now = do
  found ← reads (load_pending d.pending_action_id)
  p ← required found unknown_pending_action
  remember p
  identity ←
      required (request_identity p.persona_id p.request_id)
        (attempt_failed FailureCode.invariant_violation)
  decide_on d now p identity

-- the caller's view of a failure, which names the row if it was loaded
unfoldable pub failure_of : Option PendingRecord → FailureCode → String → ActionOutcome
failure_of none code id = failed none none code (some id)
failure_of (some p) code id = failed (some p.action_name) (some p.request_id) code (some id)

-- What is committed and what faults are left.
pub record World : Type 0 where
  pub committed : Tables
  pub faults : List Bool

abbrev pub after_commit :
    ActionOutcome
    → String
    → Session
    → Tables
    → Bool × List Bool
    → Result Raise ActionOutcome × World
after_commit o id s before (true, rest) = (
  ok (failure_of s.loaded FailureCode.transaction_failed id),
  record { committed = before; faults = rest },
)
after_commit o id s before (false, rest) = (ok o, record { committed = s.tables; faults = rest })

-- COMMIT after a result, ROLLBACK after an exception, with the handlers of `record_decision`
abbrev pub finish :
    String → Tables → Result Raise ActionOutcome × Session → Result Raise ActionOutcome × World
finish id before (ok o, s) = after_commit o id s before (next_fault s.faults)
finish id before (err (attempt_failed c), s) =
    (ok (failure_of s.loaded c id), record { committed = before; faults = s.faults })
finish id before (err (guard_failed c), s) =
    (ok (failure_of s.loaded c id), record { committed = before; faults = s.faults })
finish id before (err sqlite_error, s) = (
  ok (failure_of s.loaded FailureCode.transaction_failed id),
  record { committed = before; faults = s.faults },
)
finish id before (err integrity_error, s) = (
  ok (failure_of s.loaded FailureCode.transaction_failed id),
  record { committed = before; faults = s.faults },
)
finish id before (err e, s) = (err e, record { committed = before; faults = s.faults })

abbrev pub begun :
    ApprovalDecision → Instant → Tables → Bool × List Bool → Result Raise ActionOutcome × World
begun d now before (true, rest) = (
  ok (failed none none FailureCode.transaction_failed (some d.pending_action_id)),
  record { committed = before; faults = rest },
)
begun d now before (false, rest) =
    finish d.pending_action_id before
      (record_on d now (record { tables = before; faults = rest; loaded = none }))

-- T1, `ActionGateway.record_decision`
unfoldable pub record_decision :
    List String → ApprovalDecision → Instant → World → Result Raise ActionOutcome × World
record_decision operators d now w =
    if is_trusted d operators
    then begun d now w.committed (next_fault w.faults)
    else (err approval_input_error, w)
