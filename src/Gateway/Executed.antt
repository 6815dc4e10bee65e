-- ===== src/Gateway/Executed.antt =====
-- What an execution by T2 leaves (aftersales/action_gateway.py): the row, the receipt and the outcome.
use knowledge_agent.Prelude.{String, false, some, nat_eq, string_eq, ◌≡◌, ◌+◌}
use knowledge_agent.Schema.{PendingStatus}
use knowledge_agent.Actions.{ActionName, ResourceType}
use knowledge_agent.Policy.{Instant}
use knowledge_agent.Guard.Types.{GuardDecisionKind}
use knowledge_agent.Outcome.{ActionStatus, ActionOutcome, ReceiptView}
use knowledge_agent.Store.{PendingRecord, ReceiptRecord}

-- the row of an executed request
abbrev pub executed_row : PendingRecord → String → Instant → PendingRecord
executed_row p receipt at = record p {
  status = PendingStatus.executed;
  receipt_id = some receipt;
  updated_at = at;
  version = p.version + 1;
}

-- An escalation makes a ticket, and the other actions a case.
abbrev pub resource_type_of : ActionName → ResourceType
resource_type_of ActionName.create_return = ResourceType.after_sales_case
resource_type_of ActionName.create_exchange = ResourceType.after_sales_case
resource_type_of ActionName.escalate_to_human = ResourceType.human_handoff_ticket

abbrev pub view_at : ActionName → String → String → ReceiptView
view_at name receipt resource = record {
  receipt_id = receipt;
  resource_type = resource_type_of name;
  resource_id = resource;
}

abbrev pub IsToldExecuted : PendingRecord → String → String → ActionOutcome → Type 0
IsToldExecuted p receipt resource o =
    (o.status ≡ ActionStatus.executed)
    × (o.idempotent_replay ≡ false)
    × (o.pending_action_id ≡ some p.pending_action_id)
    × (o.receipt ≡ some (view_at p.action_name receipt resource))

-- The receipt of the execution of a row.
pub record IsReceiptOf (p : PendingRecord) (receipt resource : String) (at : Instant)
    (r : ReceiptRecord) : Type 0 where
  pub same_id : r.receipt_id ≡ receipt
  pub same_key : r.idempotency_key ≡ p.idempotency_key
  pub same_name : r.action_name ≡ p.action_name
  pub same_type : r.resource_type ≡ resource_type_of p.action_name
  pub same_resource : r.resource_id ≡ resource
  pub required : r.guard_decision ≡ GuardDecisionKind.require_approval
  pub for_row : r.pending_action_id ≡ some p.pending_action_id
  pub same_request : r.request_id ≡ p.request_id
  pub same_persona : r.persona_id ≡ p.persona_id
  pub same_args : r.args_json ≡ p.args_json
  pub same_digest : r.args_sha256 ≡ p.args_sha256
  pub at_time : r.executed_at ≡ at
