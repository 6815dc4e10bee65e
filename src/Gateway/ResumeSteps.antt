-- ===== src/Gateway/ResumeSteps.antt =====
-- aftersales/action_gateway.py: the steps of `_execute_approved` (U3 to U10), the work of T2 inside its
-- transaction.
use knowledge_agent.Prelude.{
  ◌+◌, String, Bool, true, false, not, ◌&&◌, Option, none, some, Result, ok, err, ◌==◌, string_eq,
  if◌then◌else◌,
}
use knowledge_agent.Schema.{PendingStatus, FailureCode}
use knowledge_agent.Actions.{name_text, Arguments, text, ValidatedAction, validate}
use knowledge_agent.Policy.{Instant}
use knowledge_agent.Guard.Types.{GuardDecisionKind, GuardDecision}
use knowledge_agent.Snapshot.{GuardSnapshot, SnapshotError, StaleReason}
use knowledge_agent.Snapshot
use knowledge_agent.Snapshot.Parser.{StoredSnapshot, parse_snapshot_document}
use knowledge_agent.Ids.{RequestIdentity, request_identity}
use knowledge_agent.Outcome.{
  ActionStatus, Code, reason, stale_reason, same_reason, ReceiptView, ActionOutcome,
}
use knowledge_agent.Store.{
  PendingRecord, ReceiptRecord, AuditEventName, AuditDecision, closed, resource, anchor_pending,
  AuditEvent, Raise, attempt_failed, type_error, unknown_pending_action, not_approved, Store, ◌>>=◌,
  ◌>>◌, pure, raise, check, append_audit, load_pending, is_pending_approval, transition_terminal,
  mark_executed,
}
use knowledge_agent.Store.Inserts.{find_receipt}
use knowledge_agent.Gateway.{
  remember, writes, reads, lift, required, pending_outcome, receipt_for, resume_event,
}
use knowledge_agent.Gateway.Execution.{
  Services, Config, Moment, Persona, idempotency_key, GuardCapture, capture, decide_action,
  write_execution,
}
use knowledge_agent.Gateway.Attempt.{view_of}

abbrev invariant_violation : Raise
invariant_violation = attempt_failed FailureCode.invariant_violation

-- TERMINAL_STATUSES
abbrev pub is_terminal : PendingStatus → Bool
is_terminal PendingStatus.pending_approval = false
is_terminal PendingStatus.approved = false
is_terminal _ = true

abbrev pub identity_of : PendingRecord → Store RequestIdentity
identity_of p = required (request_identity p.persona_id p.request_id) invariant_violation

-- What U3 has found: the stored outcome of a terminal row, or an approved row, from where on a
-- failure is compensated, with the receipt that may be there.
pub data Loaded : Type 0 where
  replayed : ActionOutcome → Loaded
  confirmed : PendingRecord → RequestIdentity → Option ReceiptRecord → Loaded

-- U3 on a terminal row
unfoldable pub replay_end : PendingRecord → RequestIdentity → Instant → Store Loaded
replay_end p identity at = do
  receipt ← receipt_for p
  writes (
      append_audit (
        resume_event p identity at AuditEventName.action_replay_hit none (some anchor_pending)
          none))
  o ← lift (pending_outcome p receipt true false)
  pure (replayed o)

unfoldable pub confirm : PendingRecord → RequestIdentity → Store Loaded
confirm p identity = do
  existing ← reads (find_receipt p.idempotency_key)
  pure (confirmed p identity existing)

abbrev pub load_on : PendingRecord → RequestIdentity → Instant → Store Loaded
load_on p identity at =
    if is_terminal p.status then replay_end p identity at else confirm p identity

-- U3
unfoldable pub load_approved : String → Instant → Store Loaded
load_approved id at = do
  found ← reads (load_pending id)
  p ← required found unknown_pending_action
  remember p
  check (not (is_pending_approval p.status)) not_approved
  identity ← identity_of p
  load_on p identity at

unfoldable pub same_stored : Services → PendingRecord → RequestIdentity → ValidatedAction → Bool
same_stored x p identity action =
    x.args_text action.args == p.args_json
    && x.codec.sha256 (x.args_text action.args) == p.args_sha256
    && action.target_order_id == p.target_order_id
    && action.target_order_item_id == p.target_order_item_id
    && idempotency_key x identity action == p.idempotency_key

abbrev pub parsed : Config → PendingRecord → Option Arguments → Store ValidatedAction
parsed cfg p none = raise invariant_violation
parsed cfg p (some arguments) =
    elim (validate cfg.actions (text (name_text p.action_name)) arguments) [
      | ok action ↦ pure action
      | err e ↦ raise invariant_violation
    ]

-- `_rebuild`
unfoldable pub rebuild : Config → PendingRecord → RequestIdentity → Store ValidatedAction
rebuild cfg p identity = do
  action ← parsed cfg p (cfg.services.parse_args p.args_json)
  check (same_stored cfg.services p identity action) invariant_violation
  pure action

-- U5
unfoldable pub resolve : Config → PendingRecord → Store Persona
resolve cfg p = do
  persona ←
      required (cfg.services.persona p.persona_id)
        (attempt_failed FailureCode.identity_unresolvable)
  check (persona.persona_id == p.persona_id) (attempt_failed FailureCode.identity_unresolvable)
  pure persona

abbrev pub is_require : GuardDecisionKind → Bool
is_require GuardDecisionKind.require_approval = true
is_require _ = false

-- `_require_stored_matches_row`
unfoldable pub stored_matches : StoredSnapshot → PendingRecord → Bool
stored_matches stored p =
    is_require stored.decision
    && same_reason stored.reason_code p.guard_reason_code
    && stored.snapshot.policy_build_id == p.policy_build_id
    && stored.snapshot.action_spec_version == p.action_spec_version
    && stored.snapshot.risk_policy_version == p.risk_policy_version

abbrev pub integrity : {A : Type 0} → Result SnapshotError A → Store A
integrity (ok a) = pure a
integrity (err Snapshot.snapshot_integrity) = raise invariant_violation
integrity (err Snapshot.type_error) = raise type_error

-- U8: the stored snapshot against the candidate
unfoldable pub compare_stored : Config → PendingRecord → GuardCapture → Store (Option StaleReason)
compare_stored cfg p c = do
  stored ←
      integrity
        (parse_snapshot_document cfg.services.codec p.snapshot_json p.snapshot_sha256 p.action_name)
  check (stored_matches stored p) invariant_violation
  integrity (Snapshot.stale_reason stored.snapshot c.candidate)

-- `dataclasses.replace(pending, status=..., outcome_code=..., version=...)`
abbrev pub closed_row : PendingRecord → PendingStatus → Code → PendingRecord
closed_row p status code = record p {
  status = status;
  outcome_code = some code;
  version = p.version + 1;
}

-- An APPROVED row that ends without an execution: P4, P5
unfoldable pub close_row :
    PendingRecord
    → RequestIdentity
    → Instant
    → PendingStatus
    → ActionStatus
    → Code
    → Store (Unit {0})
close_row p identity at status outcome code = do
  transition_terminal p.pending_action_id p.version status code at
  append_audit (
      resume_event p identity at AuditEventName.action_not_executed
        (some (AuditDecision.outcome outcome)) (some (closed code)) none)

-- the writes of a stale snapshot
unfoldable pub close_stale :
    PendingRecord → RequestIdentity → Instant → StaleReason → Store ActionOutcome
close_stale p identity at r = do
  writes (do
    transition_terminal p.pending_action_id p.version PendingStatus.stale (stale_reason r) at
    append_audit (
        resume_event p identity at AuditEventName.resume_version_check
          (some AuditDecision.version_mismatch) (some (closed (stale_reason r))) none)
    append_audit (
        resume_event p identity at AuditEventName.action_not_executed
          (some (AuditDecision.outcome ActionStatus.stale)) (some (closed (stale_reason r))) none))
  lift (pending_outcome (closed_row p PendingStatus.stale (stale_reason r)) none false false)

-- the executed event, which names the receipt
abbrev pub executed_event : PendingRecord → RequestIdentity → Instant → ReceiptView → AuditEvent
executed_event p identity at view =
    record (resume_event p identity at AuditEventName.action_executed none
      (some (resource view.resource_type)) none) { receipt_id = some view.receipt_id }

-- the EXECUTED outcome of T2
abbrev pub executed_view : PendingRecord → ReceiptView → GuardDecision → ActionOutcome
executed_view p view d = record {
  status = ActionStatus.executed;
  action_name = some p.action_name;
  request_id = some p.request_id;
  idempotent_replay = false;
  decision_conflict = false;
  approval_recorded = false;
  pending_action_id = some p.pending_action_id;
  receipt = some view;
  guard = some (view_of d);
  code = none;
}

-- U10
unfoldable pub execute_now :
    Config
    → Moment
    → PendingRecord
    → RequestIdentity
    → String
    → ValidatedAction
    → GuardCapture
    → GuardDecision
    → Store ActionOutcome
execute_now cfg m p identity customer action c d = do
  view ←
      write_execution cfg m identity customer action p.idempotency_key c d
        (some p.pending_action_id)
  mark_executed p.pending_action_id p.version view.receipt_id m.now
  append_audit (executed_event p identity m.now view)
  pure (executed_view p view d)

-- the same decision as the one that the row was created with
abbrev pub same_decision : GuardDecision → PendingRecord → Bool
same_decision d p = is_require d.decision && same_reason d.reason_code p.guard_reason_code

abbrev pub is_denial : GuardDecisionKind → Bool
is_denial GuardDecisionKind.deny = true
is_denial _ = false

-- U9 after its audits, by decision
unfoldable pub conclude_resume :
    Config
    → Moment
    → PendingRecord
    → RequestIdentity
    → String
    → ValidatedAction
    → GuardCapture
    → GuardDecision
    → Store ActionOutcome
conclude_resume cfg m p identity customer action c d =
    if is_denial d.decision
    then (do
      close_row p identity m.now PendingStatus.denied ActionStatus.denied (reason d.reason_code)
      lift (
          pending_outcome (closed_row p PendingStatus.denied (reason d.reason_code)) none false
            false))
    else if not (same_decision d p)
    then (do
      close_row p identity m.now PendingStatus.stale ActionStatus.stale
          (stale_reason StaleReason.guard_decision_changed)
      lift (
          pending_outcome
            (closed_row p PendingStatus.stale (stale_reason StaleReason.guard_decision_changed))
            none false false))
    else execute_now cfg m p identity customer action c d

-- U9, U10: decide is called only where nothing is stale
unfoldable pub decide_again :
    Config
    → Moment
    → PendingRecord
    → RequestIdentity
    → String
    → ValidatedAction
    → GuardCapture
    → Option StaleReason
    → Store ActionOutcome
decide_again cfg m p identity customer action c (some r) = close_stale p identity m.now r
decide_again cfg m p identity customer action c none = do
  d ← decide_action cfg m action c
  writes (do
    append_audit (
        resume_event p identity m.now AuditEventName.resume_version_check
          (some AuditDecision.version_match) none none)
    append_audit (
        resume_event p identity m.now AuditEventName.guard_evaluated
          (some (AuditDecision.guard d.decision)) (some (closed (reason d.reason_code))) none)
    conclude_resume cfg m p identity customer action c d)

abbrev pub no_receipt : Option ReceiptRecord → Bool
no_receipt none = true
no_receipt (some r) = false

-- U4 to U10
unfoldable pub resume_confirmed :
    Config → Moment → PendingRecord → RequestIdentity → Option ReceiptRecord → Store ActionOutcome
resume_confirmed cfg m p identity existing = do
  check (no_receipt existing) invariant_violation
  writes (append_audit (resume_event p identity m.now AuditEventName.resume_started none none none))
  persona ← resolve cfg p
  action ← rebuild cfg p identity
  c ← capture cfg m persona.customer_id action (some p.pending_action_id)
  r ← compare_stored cfg p c
  decide_again cfg m p identity persona.customer_id action c r
