-- ===== src/Outcome.antt =====
-- aftersales/action_outcome.py: what the gateway returns about one action attempt.
pub mod Render
pub mod Rendered
mod Tests
use knowledge_agent.Prelude.{
  ℕ, String, Bool, true, false, ◌&&◌, Option, none, some, if◌then◌else◌, is_some, is_none, ◌==◌,
  nat_eq,
}
use knowledge_agent.Schema.{FailureCode}
use knowledge_agent.Actions.{ActionName, ResourceType}
use knowledge_agent.Guard.Types.{GuardDecisionKind, ReasonCode, decision_of}
use knowledge_agent.Snapshot.{StaleReason}

pub data ActionStatus : Type 0 where
  executed waiting_approval denied rejected stale failed : ActionStatus

-- The closed codes of an outcome: DENY_REASON_CODES and the risk policy's, FAILURE_CODES,
-- STALE_REASON_CODES and APPROVAL_REJECTED.
pub data Code : Type 0 where
  reason : ReasonCode → Code
  failure : FailureCode → Code
  stale_reason : StaleReason → Code
  approval_rejected : Code

pub record ReceiptView : Type 0 where
  pub receipt_id : String
  pub resource_type : ResourceType
  pub resource_id : String

-- Both fields are closed vocabularies, so the checks of `GuardView` hold by their types.
pub record GuardView : Type 0 where
  pub decision : GuardDecisionKind
  pub reason_code : ReasonCode

pub record ActionOutcome : Type 0 where
  pub status : ActionStatus
  pub action_name : Option ActionName
  pub request_id : Option String
  pub idempotent_replay : Bool
  pub decision_conflict : Bool
  pub approval_recorded : Bool
  pub pending_action_id : Option String
  pub receipt : Option ReceiptView
  pub guard : Option GuardView
  pub code : Option Code

abbrev pub is_executed : ActionStatus → Bool
is_executed ActionStatus.executed = true
is_executed _ = false

abbrev pub is_waiting : ActionStatus → Bool
is_waiting ActionStatus.waiting_approval = true
is_waiting _ = false

abbrev pub is_failed : ActionStatus → Bool
is_failed ActionStatus.failed = true
is_failed _ = false

-- _PENDING_STATUSES
abbrev pub names_pending : ActionStatus → Bool
names_pending ActionStatus.waiting_approval = true
names_pending ActionStatus.rejected = true
names_pending ActionStatus.stale = true
names_pending _ = false

abbrev pub is_deny : GuardDecisionKind → Bool
is_deny GuardDecisionKind.deny = true
is_deny _ = false

abbrev pub reason_number : ReasonCode → ℕ
reason_number ReasonCode.order_not_accessible = 0
reason_number ReasonCode.order_item_not_in_order = 1
reason_number ReasonCode.business_state_conflict = 2
reason_number ReasonCode.order_status_ineligible = 3
reason_number ReasonCode.not_delivered = 4
reason_number ReasonCode.delivery_not_established = 5
reason_number ReasonCode.active_after_sales_case_exists = 6
reason_number ReasonCode.item_already_returned = 7
reason_number ReasonCode.pending_request_exists = 8
reason_number ReasonCode.handoff_required = 9
reason_number ReasonCode.non_returnable = 10
reason_number ReasonCode.no_applicable_policy = 11
reason_number ReasonCode.policy_conflict = 12
reason_number ReasonCode.return_window_closed = 13
reason_number ReasonCode.exchange_window_closed = 14
reason_number ReasonCode.exchange_target_invalid = 15
reason_number ReasonCode.exchange_target_incompatible = 16
reason_number ReasonCode.inventory_unavailable = 17
reason_number ReasonCode.handoff_not_required = 18
reason_number ReasonCode.handoff_ticket_exists = 19
reason_number ReasonCode.risk_policy_requires_approval = 20
reason_number ReasonCode.risk_policy_allows = 21

-- two reason codes are the same text
abbrev pub same_reason : ReasonCode → ReasonCode → Bool
same_reason a b = reason_number a == reason_number b

-- The checks on the code of each status.
unfoldable pub code_fits : ActionStatus → Option GuardView → Option Code → Bool
code_fits ActionStatus.denied (some g) (some (reason r)) =
    is_deny g.decision && same_reason r g.reason_code && is_deny (decision_of r)
code_fits ActionStatus.failed g (some (failure c)) = true
code_fits ActionStatus.stale g (some (stale_reason s)) = true
code_fits ActionStatus.rejected g (some approval_rejected) = true
code_fits ActionStatus.executed g none = true
code_fits ActionStatus.waiting_approval g none = true
code_fits _ g code = false

-- Who the outcome is about: both names, or a FAILED resume of a known pending id.
abbrev pub named : Option ActionName → Option String → ActionStatus → Option String → Bool
named (some name) (some request) status pending = true
named none none status pending = is_failed status && is_some pending
named _ _ status pending = false

-- `ActionOutcome.__post_init__`: does the construction succeed?
unfoldable pub constructs : ActionOutcome → Bool
constructs o =
    named o.action_name o.request_id o.status o.pending_action_id
    && (if names_pending o.status then is_some o.pending_action_id else true)
    && (if o.approval_recorded then is_waiting o.status else true)
    && (if is_executed o.status then is_some o.receipt else is_none o.receipt)
    && code_fits o.status o.guard o.code
