-- ===== src/Guard/Tests.antt =====
-- Runs of the Guard (aftersales/guard.py) on one order, and its theorems at them.
use knowledge_agent.Prelude.{
  ◌*◌, true, false, none, some, [], ◌∷◌, ok, all, any, filter, member, ◌≡◌, ◌≢◌, refl, is_blank,
  text_leb,
}
use knowledge_agent.Prelude.Dict.{lookup, keys, subset, same_set}
use knowledge_agent.Prelude.Int.{pos}
use knowledge_agent.Prelude.Sort.{insert, sorted}
use knowledge_agent.Schema.{OrderStatus, LogisticsStatus, order_status, logistics_status}
use knowledge_agent.Actions.{ActionName, ValidatedAction, reason_handoff_trigger}
use knowledge_agent.Policy.{
  day, Instant, text, integer, PolicyRuleType, PolicyRecord, offset_of, parse_utc_offset, positive,
  is_text, parse_window_params, window_params, policy_ref, is_policy_in_effect,
  policy_applies_to_category,
}
use knowledge_agent.Policy.Catalog.{
  canonical, is_applicable, max_priority, top_tier, one_params, select_policies,
}
use knowledge_agent.Derived.{
  locator_of, read_field, order_relation, local_date, elapsed_natural_days, delivery_instant,
  delivery,
}
use knowledge_agent.Derived.Window.{
  read_category, window_rule_gate, window_fact, derive_window_eligibility, collect_packages,
  one_observation, derive_item_window_eligibility,
}
use knowledge_agent.Derived.Conflict.{
  fires, fired_rules, add_field, read_logistics, check_packages, package_statuses, check_logistics,
  derive_business_state_conflict,
}
use knowledge_agent.GuardState.{
  OrderRow, OrderItemRow, PackageRow, Rows, no_rows, GuardState, evidence_of, logistics_evidence,
  delivered_evidence, versions_of, state_of,
}
use knowledge_agent.Guard.Types.{
  GuardDecisionKind, ReasonCode, decision_of, GuardFacts, no_facts, GuardDecision, policy_refs,
  is_policy_ref, s6_risk_policy, CatalogSnapshot,
}
use knowledge_agent.Guard.Decide.{
  check_conflict, delivery_established, check_delivery, check_cases, check_routing,
  check_returnable, check_window, check_kind, check_after_sales, check, facts_hold, result, decide,
}
use knowledge_agent.Guard.Cause.{Granted}
use knowledge_agent.Guard.Verdict.{
  Truthful, decide-Truthful, decide-decision_of, return_needs_approval,
}

abbrev pub now : Instant
now = 100 * day

abbrev pub return_action : ValidatedAction
return_action = record {
  action_name = ActionName.create_return;
  args = ("order_id", "O1") ∷ ("order_item_id", "I1") ∷ ("reason_code", "no_longer_wanted") ∷ [];
  target_order_id = "O1";
  target_order_item_id = "I1";
}

abbrev pub order_row : OrderRow
order_row = record { order_id = "O1"; status = OrderStatus.delivered; version = 1 }

abbrev pub item_row : OrderItemRow
item_row = record {
  order_item_id = "I1";
  order_id = "O1";
  sku = "S1";
  category = "shoes";
  quantity = 1;
  version = 1;
}

abbrev pub package_row : PackageRow
package_row = record {
  tracking_no = "T1";
  order_id = "O1";
  status = LogisticsStatus.delivered;
  delivered_at = some (97 * day);
  version = 1;
}

abbrev pub delivered_rows : Rows
delivered_rows = record no_rows {
  order = some order_row;
  item = some item_row;
  packages = package_row ∷ [];
}

abbrev pub window_rule : PolicyRecord
window_rule = record {
  policy_id = "return-7";
  version = "1";
  rule_type = PolicyRuleType.return_window;
  scope = [];
  params =
      ("window_days", integer (pos 7))
      ∷ ("start_event", text "delivered")
      ∷ ("counting_rule", text "natural_days_from_next_day")
      ∷ ("utc_offset", text "+08:00")
      ∷ [];
  effective_from = 0;
  effective_to = none;
  build_id = "b1";
  priority = pos 0;
}

abbrev pub catalog : CatalogSnapshot
catalog = record { build_id = "b1"; records = window_rule ∷ [] }

abbrev pub approved_facts : GuardFacts
approved_facts = record no_facts {
  order_status = some OrderStatus.delivered;
  package_count = some 1;
  days_since_delivery = some 3;
  business_state_conflict = some false;
  delivery_established = some true;
  within_window = some true;
  active_case_present = some false;
  item_returned_before = some false;
  other_pending_present = some false;
  handoff_routed = some false;
  non_returnable = some false;
  selected = record {
    exchange_window = none;
    handoff = none;
    non_returnable = some [];
    return_window = some ("policy:return-7@1#b1" ∷ []);
  };
}

abbrev pub approved : GuardDecision
approved = record {
  decision = GuardDecisionKind.require_approval;
  reason_code = ReasonCode.risk_policy_requires_approval;
  facts = approved_facts;
}

-- A delivered item inside its window: the return waits for an approval.
pub return_approved :
    decide return_action
      (state_of ActionName.create_return now delivered_rows)
      catalog
      s6_risk_policy
      now
    ≡ ok approved
unfolding decide check check_after_sales check_conflict derive_business_state_conflict read_field
    locator_of read_logistics add_field check_logistics check_packages package_statuses fired_rules
    fires delivery_established check_delivery check_cases check_routing check_returnable
    check_window check_kind facts_hold result select_policies canonical is_applicable max_priority
    top_tier one_params is_policy_in_effect policy_applies_to_category
    derive_item_window_eligibility read_category window_rule_gate window_fact
    derive_window_eligibility collect_packages one_observation delivery delivery_instant
    order_relation elapsed_natural_days local_date window_params parse_window_params positive
    is_text parse_utc_offset offset_of evidence_of logistics_evidence delivered_evidence versions_of
    state_of policy_ref is_policy_ref policy_refs order_status logistics_status
    reason_handoff_trigger lookup keys same_set subset all any filter member is_blank text_leb
    sorted insert
return_approved = refl

abbrev pub captured_state : GuardState
captured_state = state_of ActionName.create_return now delivered_rows

abbrev pub gone : GuardDecision
gone = record {
  decision = GuardDecisionKind.deny;
  reason_code = ReasonCode.order_not_accessible;
  facts = no_facts;
}

-- An order that the customer cannot see is a denial.
order_gone :
    decide return_action (state_of ActionName.create_return now no_rows) catalog s6_risk_policy now
    ≡ ok gone
unfolding decide check state_of facts_hold result policy_refs is_policy_ref all
order_gone = refl

pub waits : approved.decision ≢ GuardDecisionKind.deny
waits q = cc

decide-Truthful_example :
    Truthful return_action captured_state catalog.records s6_risk_policy now approved
decide-Truthful_example =
    decide-Truthful return_action captured_state catalog s6_risk_policy now approved return_approved

decide-decision_of_example : gone.decision ≡ decision_of gone.reason_code
decide-decision_of_example =
    decide-decision_of return_action (state_of ActionName.create_return now no_rows) catalog
      s6_risk_policy now gone order_gone

return_needs_approval_example :
    (approved.decision ≡ GuardDecisionKind.require_approval)
    × Granted return_action captured_state catalog.records now
return_needs_approval_example =
    return_needs_approval return_action captured_state catalog now approved refl return_approved
      waits
