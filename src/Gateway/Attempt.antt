-- ===== src/Gateway/Attempt.antt =====
-- aftersales/action_gateway.py: `_attempt`, the work of start_action inside its transaction.
use knowledge_agent.Prelude.{String, true, false, not, ◌&&◌, Option, none, some, ◌==◌, string_eq}
use knowledge_agent.Schema.{PendingStatus, FailureCode}
use knowledge_agent.Actions.{ActionName, name_eq, ValidatedAction}
use knowledge_agent.Policy.{Instant}
use knowledge_agent.Guard.Types.{GuardDecisionKind, GuardDecision}
use knowledge_agent.Snapshot.{action_spec_version}
use knowledge_agent.Snapshot.Document.{snapshot_document}
use knowledge_agent.Ids.{RequestIdentity}
use knowledge_agent.Outcome.{ActionStatus, reason, GuardView, ActionOutcome, constructs}
use knowledge_agent.Store
use knowledge_agent.Store.{
  PendingRecord, ReceiptRecord, AuditEventName, Phase, AuditDecision, AuditCode, closed, resource,
  anchor_receipt, anchor_pending, AuditEvent, Tables, Session, Raise, attempt_failed, guard_failed,
  sqlite_error, integrity_error, value_error, capability_error, contract_error, Store, ◌>>=◌, ◌>>◌,
  pure, raise, check, next_fault, append_audit,
}
use knowledge_agent.Store.Inserts.{find_receipt, find_pending, insert_pending}
use knowledge_agent.Gateway.{writes, reads, lift, pending_outcome, receipt_view}
use knowledge_agent.Gateway.Execution.{
  Config, Moment, IdKind, GuardCapture, capture, decide_action, new_id, write_execution,
}

-- `common` and the event, in the start phase
abbrev pub start_event :
    RequestIdentity
    → ActionName
    → String
    → Instant
    → AuditEventName
    → Option Phase
    → Option String
    → Option String
    → Option AuditDecision
    → Option AuditCode
    → AuditEvent
start_event identity name key at event phase pending receipt decision code = record {
  event_name = event;
  request_id = identity.request_id;
  persona_id = identity.persona_id;
  action_name = name;
  idempotency_key = some key;
  pending_action_id = pending;
  receipt_id = receipt;
  phase = phase;
  decision = decision;
  code = code;
  approver_ref = none;
  at = at;
}

-- `ActionOutcome(...)`, whose ValueError the write phase maps
abbrev pub outcome : ActionOutcome → Store ActionOutcome
outcome o = do check (constructs o) value_error; pure o

abbrev pub view_of : GuardDecision → GuardView
view_of d = record { decision = d.decision; reason_code = d.reason_code }

-- an outcome of the attempt, before its own fields
abbrev pub plain : ActionName → RequestIdentity → ActionStatus → ActionOutcome
plain name identity status = record {
  status = status;
  action_name = some name;
  request_id = some identity.request_id;
  idempotent_replay = false;
  decision_conflict = false;
  approval_recorded = false;
  pending_action_id = none;
  receipt = none;
  guard = none;
  code = none;
}

abbrev invariant_violation : Raise
invariant_violation = attempt_failed FailureCode.invariant_violation

-- the outcome of a receipt that a replay finds
abbrev pub replayed_outcome : ActionName → RequestIdentity → ReceiptRecord → ActionOutcome
replayed_outcome name identity r = record (plain name identity ActionStatus.executed) {
  idempotent_replay = true;
  pending_action_id = r.pending_action_id;
  receipt = some (receipt_view r);
  guard = some (record { decision = r.guard_decision; reason_code = r.guard_reason_code });
}

-- `_start_replay`, of a receipt
unfoldable pub replay_receipt :
    RequestIdentity → ValidatedAction → String → Instant → ReceiptRecord → Store ActionOutcome
replay_receipt identity action key at r = do
  check (r.action_name == action.action_name) invariant_violation
  append_audit (
      start_event identity action.action_name key at AuditEventName.action_replay_hit
        (some Phase.start) none (some r.receipt_id) none (some anchor_receipt))
  outcome (replayed_outcome action.action_name identity r)

-- `_start_replay`, of a pending action
unfoldable pub replay_pending :
    RequestIdentity → ValidatedAction → String → Instant → PendingRecord → Store ActionOutcome
replay_pending identity action key at p = do
  check (p.action_name == action.action_name && not (Store.is_executed p.status))
      invariant_violation
  append_audit (
      start_event identity action.action_name key at AuditEventName.action_replay_hit
        (some Phase.start) (some p.pending_action_id) none none (some anchor_pending))
  lift (pending_outcome p none true false)

-- the row of `_create_pending`
abbrev pub pending_row :
    Config
    → Moment
    → RequestIdentity
    → ValidatedAction
    → String
    → GuardCapture
    → GuardDecision
    → String
    → PendingRecord
pending_row cfg m identity action key c d id = record {
  pending_action_id = id;
  idempotency_key = key;
  request_id = identity.request_id;
  persona_id = identity.persona_id;
  action_name = action.action_name;
  args_json = cfg.services.args_text action.args;
  args_sha256 = cfg.services.codec.sha256 (cfg.services.args_text action.args);
  target_order_id = action.target_order_id;
  target_order_item_id = action.target_order_item_id;
  status = PendingStatus.pending_approval;
  guard_reason_code = d.reason_code;
  snapshot_json = snapshot_document cfg.services.codec c.candidate d;
  snapshot_sha256 = cfg.services.codec.sha256 (snapshot_document cfg.services.codec c.candidate d);
  action_spec_version = action_spec_version;
  risk_policy_version = cfg.risk.version;
  policy_build_id = c.policy.build_id;
  approval_decision = none;
  approver_ref = none;
  decided_at = none;
  outcome_code = none;
  receipt_id = none;
  created_at = some m.now;
  updated_at = m.now;
  version = 1;
}

-- `_create_pending`: P0
unfoldable pub create_pending :
    Config
    → Moment
    → RequestIdentity
    → ValidatedAction
    → String
    → GuardCapture
    → GuardDecision
    → Store ActionOutcome
create_pending cfg m identity action key c d = do
  id ← new_id cfg IdKind.pending_action key
  insert_pending (pending_row cfg m identity action key c d id)
  append_audit (
      start_event identity action.action_name key m.now AuditEventName.action_pending_created
        (some Phase.start) (some id) none none none)
  outcome (record (plain action.action_name identity ActionStatus.waiting_approval) {
    pending_action_id = some id;
    guard = some (view_of d);
  })

-- S6, by decision
unfoldable pub act_on :
    Config
    → Moment
    → RequestIdentity
    → String
    → ValidatedAction
    → String
    → GuardCapture
    → GuardDecision
    → GuardDecisionKind
    → Store ActionOutcome
act_on cfg m identity customer action key c d GuardDecisionKind.deny = do
  append_audit (
      start_event identity action.action_name key m.now AuditEventName.action_not_executed none none
        none (some (AuditDecision.outcome ActionStatus.denied))
        (some (closed (reason d.reason_code))))
  outcome (record (plain action.action_name identity ActionStatus.denied) {
    guard = some (view_of d);
    code = some (reason d.reason_code);
  })
act_on cfg m identity customer action key c d GuardDecisionKind.require_approval =
    create_pending cfg m identity action key c d
act_on cfg m identity customer action key c d GuardDecisionKind.allow = do
  view ← write_execution cfg m identity customer action key c d none
  append_audit (
      start_event identity action.action_name key m.now AuditEventName.action_executed none none
        (some view.receipt_id) none (some (resource view.resource_type)))
  outcome (record (plain action.action_name identity ActionStatus.executed) {
    receipt = some view;
    guard = some (view_of d);
  })

-- S4 to S6
unfoldable pub attempt_new :
    Config → Moment → RequestIdentity → String → ValidatedAction → String → Store ActionOutcome
attempt_new cfg m identity customer action key = do
  c ← capture cfg m customer action none
  d ← decide_action cfg m action c
  writes (do
    append_audit (
        start_event identity action.action_name key m.now AuditEventName.guard_evaluated
          (some Phase.start) none none (some (AuditDecision.guard d.decision))
          (some (closed (reason d.reason_code))))
    act_on cfg m identity customer action key c d d.decision)

-- S3, on the pending action that the lookup finds
unfoldable pub attempt_pending :
    Config
    → Moment
    → RequestIdentity
    → String
    → ValidatedAction
    → String
    → Option PendingRecord
    → Store ActionOutcome
attempt_pending cfg m identity customer action key none =
    attempt_new cfg m identity customer action key
attempt_pending cfg m identity customer action key (some p) =
    writes (replay_pending identity action key m.now p)

-- S3, on the receipt that the lookup finds
unfoldable pub attempt_receipt :
    Config
    → Moment
    → RequestIdentity
    → String
    → ValidatedAction
    → String
    → Option ReceiptRecord
    → Store ActionOutcome
attempt_receipt cfg m identity customer action key (some r) =
    writes (replay_receipt identity action key m.now r)
attempt_receipt cfg m identity customer action key none = do
  p ← reads (find_pending key)
  attempt_pending cfg m identity customer action key p

-- `_attempt`
unfoldable pub attempt :
    Config → Moment → RequestIdentity → String → ValidatedAction → String → Store ActionOutcome
attempt cfg m identity customer action key = do
  r ← reads (find_receipt key)
  attempt_receipt cfg m identity customer action key r
