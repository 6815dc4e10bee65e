-- ===== src/Snapshot/Words.antt =====
-- The texts of the closed vocabularies of a Guard snapshot document: the reason codes and decisions
-- of aftersales/guard.py and the rule types of aftersales/policy.py.
use knowledge_agent.Prelude.{
  String, Bool, Option, none, some, List, [], ◌∷◌, ◌==◌, string_eq, if◌then◌else◌, ◌≡◌, refl,
}
use knowledge_agent.Policy.{PolicyRuleType}
use knowledge_agent.Guard.Types.{ReasonCode, GuardDecisionKind}

abbrev pub reason_text : ReasonCode → String
reason_text ReasonCode.order_not_accessible = "order_not_accessible"
reason_text ReasonCode.order_item_not_in_order = "order_item_not_in_order"
reason_text ReasonCode.business_state_conflict = "business_state_conflict"
reason_text ReasonCode.order_status_ineligible = "order_status_ineligible"
reason_text ReasonCode.not_delivered = "not_delivered"
reason_text ReasonCode.delivery_not_established = "delivery_not_established"
reason_text ReasonCode.active_after_sales_case_exists = "active_after_sales_case_exists"
reason_text ReasonCode.item_already_returned = "item_already_returned"
reason_text ReasonCode.pending_request_exists = "pending_request_exists"
reason_text ReasonCode.handoff_required = "handoff_required"
reason_text ReasonCode.non_returnable = "non_returnable"
reason_text ReasonCode.no_applicable_policy = "no_applicable_policy"
reason_text ReasonCode.policy_conflict = "policy_conflict"
reason_text ReasonCode.return_window_closed = "return_window_closed"
reason_text ReasonCode.exchange_window_closed = "exchange_window_closed"
reason_text ReasonCode.exchange_target_invalid = "exchange_target_invalid"
reason_text ReasonCode.exchange_target_incompatible = "exchange_target_incompatible"
reason_text ReasonCode.inventory_unavailable = "inventory_unavailable"
reason_text ReasonCode.handoff_not_required = "handoff_not_required"
reason_text ReasonCode.handoff_ticket_exists = "handoff_ticket_exists"
reason_text ReasonCode.risk_policy_requires_approval = "risk_policy_requires_approval"
reason_text ReasonCode.risk_policy_allows = "risk_policy_allows"

-- DENY_REASON_CODES and the codes of the risk policy
abbrev reason_codes : List ReasonCode
reason_codes =
    ReasonCode.order_not_accessible ∷ ReasonCode.order_item_not_in_order
    ∷ ReasonCode.business_state_conflict ∷ ReasonCode.order_status_ineligible
    ∷ ReasonCode.not_delivered ∷ ReasonCode.delivery_not_established
    ∷ ReasonCode.active_after_sales_case_exists ∷ ReasonCode.item_already_returned
    ∷ ReasonCode.pending_request_exists ∷ ReasonCode.handoff_required ∷ ReasonCode.non_returnable
    ∷ ReasonCode.no_applicable_policy ∷ ReasonCode.policy_conflict ∷ ReasonCode.return_window_closed
    ∷ ReasonCode.exchange_window_closed ∷ ReasonCode.exchange_target_invalid
    ∷ ReasonCode.exchange_target_incompatible ∷ ReasonCode.inventory_unavailable
    ∷ ReasonCode.handoff_not_required ∷ ReasonCode.handoff_ticket_exists
    ∷ ReasonCode.risk_policy_requires_approval ∷ ReasonCode.risk_policy_allows ∷ []

-- the first of the codes with this text
unfoldable pub find_reason : String → List ReasonCode → Option ReasonCode
find_reason s [] = none
find_reason s (c ∷ cs) = let rest = find_reason s cs in if reason_text c == s then some c else rest

-- the member of the vocabulary that a text is
abbrev pub reason_of : String → Option ReasonCode
reason_of s = find_reason s reason_codes

abbrev pub kind_text : GuardDecisionKind → String
kind_text GuardDecisionKind.allow = "ALLOW"
kind_text GuardDecisionKind.deny = "DENY"
kind_text GuardDecisionKind.require_approval = "REQUIRE_APPROVAL"

-- `GuardDecisionKind(text)`; `none` is its ValueError.
unfoldable pub kind_of : String → Option GuardDecisionKind
kind_of s =
    if s == "ALLOW"
    then some GuardDecisionKind.allow
    else if s == "DENY"
    then some GuardDecisionKind.deny
    else if s == "REQUIRE_APPROVAL"
    then some GuardDecisionKind.require_approval
    else none

abbrev pub kind_eqb : GuardDecisionKind → GuardDecisionKind → Bool
kind_eqb a b = kind_text a == kind_text b

abbrev pub rule_type_text : PolicyRuleType → String
rule_type_text PolicyRuleType.return_window = "return_window"
rule_type_text PolicyRuleType.exchange_window = "exchange_window"
rule_type_text PolicyRuleType.non_returnable = "non_returnable"
rule_type_text PolicyRuleType.handoff = "handoff"

-- membership in RULE_TYPE_VALUES
unfoldable pub rule_type_of : String → Option PolicyRuleType
rule_type_of s =
    if s == "return_window"
    then some PolicyRuleType.return_window
    else if s == "exchange_window"
    then some PolicyRuleType.exchange_window
    else if s == "non_returnable"
    then some PolicyRuleType.non_returnable
    else if s == "handoff"
    then some PolicyRuleType.handoff
    else none

pub reason_of-reason_text : (c : ReasonCode) → reason_of (reason_text c) ≡ some c
unfolding find_reason
reason_of-reason_text ReasonCode.order_not_accessible = refl
reason_of-reason_text ReasonCode.order_item_not_in_order = refl
reason_of-reason_text ReasonCode.business_state_conflict = refl
reason_of-reason_text ReasonCode.order_status_ineligible = refl
reason_of-reason_text ReasonCode.not_delivered = refl
reason_of-reason_text ReasonCode.delivery_not_established = refl
reason_of-reason_text ReasonCode.active_after_sales_case_exists = refl
reason_of-reason_text ReasonCode.item_already_returned = refl
reason_of-reason_text ReasonCode.pending_request_exists = refl
reason_of-reason_text ReasonCode.handoff_required = refl
reason_of-reason_text ReasonCode.non_returnable = refl
reason_of-reason_text ReasonCode.no_applicable_policy = refl
reason_of-reason_text ReasonCode.policy_conflict = refl
reason_of-reason_text ReasonCode.return_window_closed = refl
reason_of-reason_text ReasonCode.exchange_window_closed = refl
reason_of-reason_text ReasonCode.exchange_target_invalid = refl
reason_of-reason_text ReasonCode.exchange_target_incompatible = refl
reason_of-reason_text ReasonCode.inventory_unavailable = refl
reason_of-reason_text ReasonCode.handoff_not_required = refl
reason_of-reason_text ReasonCode.handoff_ticket_exists = refl
reason_of-reason_text ReasonCode.risk_policy_requires_approval = refl
reason_of-reason_text ReasonCode.risk_policy_allows = refl

pub kind_of-kind_text : (k : GuardDecisionKind) → kind_of (kind_text k) ≡ some k
unfolding kind_of
kind_of-kind_text GuardDecisionKind.allow = refl
kind_of-kind_text GuardDecisionKind.deny = refl
kind_of-kind_text GuardDecisionKind.require_approval = refl
