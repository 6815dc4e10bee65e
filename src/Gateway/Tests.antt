-- ===== src/Gateway/Tests.antt =====
-- One pending action through the operator's decisions (aftersales/action_gateway.py,
-- aftersales/action_store.py), and the theorems at these runs.
use knowledge_agent.Prelude.{
  arith, ◌+◌, String, true, false, none, some, List, [], ◌∷◌, ok, all, any, member, is_blank,
  is_some, ◌≡◌, ◌≢◌, refl,
}
use knowledge_agent.Schema.{PendingStatus}
use knowledge_agent.Actions.{ResourceType, ActionName}
use knowledge_agent.Policy.{Instant}
use knowledge_agent.Guard.Types.{GuardDecisionKind, ReasonCode}
use knowledge_agent.Ids.{
  is_pending_action_id, RequestIdentity, after, body, repeated, is_id, is_key, is_approver_ref,
  request_id_of, request_identity,
}
use knowledge_agent.Approval
use knowledge_agent.Approval.{Approval, ApprovalDecision, is_trusted}
use knowledge_agent.Outcome
use knowledge_agent.Outcome.{ActionStatus, Code, ActionOutcome, code_fits, approval_rejected}
use knowledge_agent.Store
use knowledge_agent.Store.{
  at_version, is_pending_approval, transition_terminal, mark_executed, PendingRecord, ReceiptRecord,
  Tables, Session, status_fits, row_fits, distinct, ids, idempotency_keys, receipt_ids, open_items,
  constraints, query, execute, update, count, update_tables, guarded, with_id, load_pending,
  decided, linked, audit_fits, add_audit, append_audit, is_approve,
}
use knowledge_agent.GuardState.Tests.{database}
use knowledge_agent.Store.Lifecycle.{
  Step, here, later, decision, execution, Step-row_fits, executed_approved,
}
use knowledge_agent.Store.Writes.{Moved, writes_move}
use knowledge_agent.Gateway.{
  belongs, approval_guard, waiting_outcome, outcome_of, pending_outcome, first_decision, record_on,
  World, record_decision,
}
use knowledge_agent.Gateway.Views.{Truth, pending_outcome-Truth}
use knowledge_agent.Gateway.Replays.{pending_outcome-total}
use knowledge_agent.Store.Replaced.{IsReplaced}
use knowledge_agent.Gateway.Recorded.{IsRecorded, IsDecidedRow, record_decision-IsRecorded}
use knowledge_agent.Gateway.FirstDecision.{record_decision-Moved, first_decision_stands}

abbrev waiting : PendingRecord
waiting = record {
  pending_action_id = "PA-0123456789ABCDEF";
  idempotency_key = "s6k1-0123456789abcdef0123456789abcdef0123456789abcdef0123456789abcdef";
  request_id = "req-1";
  persona_id = "persona-1";
  action_name = ActionName.create_return;
  args_json = "{}";
  args_sha256 = "";
  target_order_id = "O1";
  target_order_item_id = "I1";
  status = PendingStatus.pending_approval;
  guard_reason_code = ReasonCode.risk_policy_requires_approval;
  snapshot_json = "{}";
  snapshot_sha256 = "";
  action_spec_version = "s6-actions/1";
  risk_policy_version = "s6-risk/1";
  policy_build_id = "b1";
  approval_decision = none;
  approver_ref = none;
  decided_at = none;
  outcome_code = none;
  receipt_id = none;
  created_at = some 10;
  updated_at = 10;
  version = 1;
}

abbrev approval : ApprovalDecision
approval = record {
  pending_action_id = "PA-0123456789ABCDEF";
  decision = Approval.approve;
  approver_ref = "op-demo-1";
  decided_at = 12;
}

abbrev operators : List String
operators = "op-demo-1" ∷ []

abbrev tables_of : PendingRecord → Tables
tables_of p = record { domain = database; pendings = p ∷ []; receipts = []; audits = [] }

abbrev world_of : PendingRecord → World
world_of p = record { committed = tables_of p; faults = [] }

abbrev approved_row : PendingRecord
approved_row = decided Approval.approve "op-demo-1" 12 13 waiting

-- T1 with an approval: the row is APPROVED, at its second version.
approved_by_t1 :
    (record_decision operators approval 13 (world_of waiting)).1.committed.pendings
    ≡ approved_row ∷ []
unfolding record_decision record_on is_trusted load_pending query with_id request_identity
    request_id_of repeated body after is_id is_key is_approver_ref first_decision
    Store.record_decision guarded update_tables execute update count constraints row_fits
    status_fits distinct ids idempotency_keys receipt_ids open_items decided append_audit audit_fits
    add_audit outcome_of waiting_outcome all any member is_blank code_fits Outcome.constructs
approved_by_t1 = refl

abbrev refusal : ApprovalDecision
refusal = record approval { decision = Approval.reject; decided_at = 20 }

record_decision-Moved_example :
    Moved
      (waiting ∷ [])
      (record_decision operators approval 13 (world_of waiting)).1.committed.pendings
record_decision-Moved_example = record_decision-Moved operators approval 13 (world_of waiting)

approved_found :
    with_id refusal.pending_action_id (world_of approved_row).committed.pendings ≡ some approved_row
unfolding with_id decided
approved_found = refl

approved_decided : approved_row.status ≢ PendingStatus.pending_approval
unfolding decided
approved_decided q = cc

first_decision_stands_example :
    (record_decision operators refusal 21 (world_of approved_row)).1.committed.pendings
    ≡ approved_row ∷ []
first_decision_stands_example =
    first_decision_stands operators refusal 21 (world_of approved_row) approved_row approved_found
      approved_decided

abbrev executed_row : PendingRecord
executed_row = linked "RC-0123456789ABCDEF" 15 approved_row

waiting_fits : row_fits waiting ≡ true
unfolding row_fits status_fits
waiting_fits = refl

approving : Step waiting approved_row
approving = decision Approval.approve "op-demo-1" 12 13 refl

executing : Step approved_row executed_row
unfolding decided
executing = execution "RC-0123456789ABCDEF" 15 refl

Step-row_fits_example : row_fits approved_row ≡ true
Step-row_fits_example = Step-row_fits waiting approved_row approving waiting_fits

executed : executed_row.status ≡ PendingStatus.executed
unfolding linked
executed = refl

executed_approved_example :
    (is_approve executed_row.approval_decision ≡ true)
    × (is_some executed_row.receipt_id ≡ true)
    × (executed_row.version ≡ 1 + 2)
executed_approved_example =
    executed_approved waiting executed_row waiting_fits refl
      (later (later here approving) executing) executed

abbrev pub session : Session
session = record { tables = tables_of waiting; faults = []; loaded = none }

writes_move_example :
    ((d : Approval) (approver : String) (t : Instant)
      → Moved
          (waiting ∷ [])
          (Store.record_decision "PA-0123456789ABCDEF" 1 d approver t 13 session).1.tables.pendings)
    × ((status : PendingStatus) (c : Code)
        → Moved
            (waiting ∷ [])
            (transition_terminal "PA-0123456789ABCDEF" 1 status c 13 session).1.tables.pendings)
    × ((receipt : String)
        → Moved
            (waiting ∷ [])
            (mark_executed "PA-0123456789ABCDEF" 1 receipt 13 session).1.tables.pendings)
writes_move_example = writes_move session "PA-0123456789ABCDEF" 1 13

abbrev waiting_view : ActionOutcome
waiting_view = record {
  status = ActionStatus.waiting_approval;
  action_name = some ActionName.create_return;
  request_id = some "req-1";
  idempotent_replay = true;
  decision_conflict = false;
  approval_recorded = false;
  pending_action_id = some "PA-0123456789ABCDEF";
  receipt = none;
  guard = some (approval_guard waiting);
  code = none;
}

waiting_seen : pending_outcome waiting none true false ≡ ok waiting_view
unfolding outcome_of waiting_outcome Outcome.constructs code_fits
waiting_seen = refl

pending_outcome-Truth_example : Truth waiting none true waiting_view
pending_outcome-Truth_example =
    pending_outcome-Truth waiting none true false waiting_view waiting_seen

abbrev identity : RequestIdentity
identity = record { persona_id = "persona-1"; request_id = "req-1" }

operator_trusted : is_trusted approval operators ≡ true
unfolding is_trusted member
operator_trusted = refl

approval_built : Approval.constructs approval ≡ true
unfolding Approval.constructs is_pending_action_id is_approver_ref repeated body after all
approval_built = refl

waiting_constrained : constraints (waiting ∷ []) ≡ true
unfolding constraints row_fits status_fits distinct ids idempotency_keys receipt_ids open_items all
    member
waiting_constrained = refl

waiting_found : with_id approval.pending_action_id (waiting ∷ []) ≡ some waiting
unfolding with_id
waiting_found = refl

waiting_key : is_key waiting.idempotency_key ≡ true
unfolding is_key repeated body after all
waiting_key = refl

waiting_identity : request_identity waiting.persona_id waiting.request_id ≡ some identity
unfolding request_identity request_id_of repeated body is_blank all
waiting_identity = refl

record_decision-IsRecorded_example :
    (o : ActionOutcome) × ((record_decision operators approval 13 (world_of waiting)).0 ≡ ok o)
    × IsRecorded Approval.approve o
    × (q : PendingRecord) × IsReplaced waiting q
        (waiting ∷ [])
        (record_decision operators approval 13 (world_of waiting)).1.committed.pendings
    × IsDecidedRow approval 13 waiting q
record_decision-IsRecorded_example =
    record_decision-IsRecorded operators approval 13 (tables_of waiting) waiting identity 10
      operator_trusted approval_built waiting_constrained waiting_found refl refl (ground arith)
      waiting_key waiting_identity

abbrev receipt : ReceiptRecord
receipt = record {
  receipt_id = "RC-0123456789ABCDEF";
  idempotency_key = waiting.idempotency_key;
  action_name = ActionName.create_return;
  resource_type = ResourceType.after_sales_case;
  resource_id = "AS6-0123456789ABCDEF";
  guard_decision = GuardDecisionKind.require_approval;
  guard_reason_code = ReasonCode.risk_policy_requires_approval;
  pending_action_id = some waiting.pending_action_id;
  request_id = waiting.request_id;
  persona_id = waiting.persona_id;
  args_json = waiting.args_json;
  args_sha256 = waiting.args_sha256;
  snapshot_json = waiting.snapshot_json;
  snapshot_sha256 = waiting.snapshot_sha256;
  action_spec_version = waiting.action_spec_version;
  risk_policy_version = waiting.risk_policy_version;
  policy_build_id = waiting.policy_build_id;
  executed_at = 15;
}

receipt_belongs :
    executed_row.status ≡ PendingStatus.executed
    → (r : ReceiptRecord) × (some receipt ≡ some r) × (belongs r executed_row ≡ true)
unfolding linked decided
receipt_belongs e = (receipt, refl, refl)

pending_outcome-total_example :
    (o : ActionOutcome) × (pending_outcome executed_row (some receipt) true false ≡ ok o)
pending_outcome-total_example =
    pending_outcome-total waiting executed_row (some receipt) true false refl refl
      (later (later here approving) executing) receipt_belongs
