-- ===== src/Guard/Decide.antt =====
-- aftersales/guard.py: Guard.decide, the ordered matrix of prerequisites.
use knowledge_agent.Prelude.{
  ℕ, String, Bool, true, false, not, ◌&&◌, ◌||◌, Option, none, some, List, [], ◌∷◌, map, Result, ok,
  err, ◌==◌, string_eq, option_eq, if◌then◌else◌, ltb, leb, any, all, filter, member, is_empty,
  is_none, length,
}
use knowledge_agent.Prelude.Dict.{Dict, lookup, put}
use knowledge_agent.Schema.{
  is_undelivered, is_cancelled, is_active, is_completed, is_return, is_open, FailureCode,
}
use knowledge_agent.Actions.{ActionName, name_eq, ValidatedAction, reason_handoff_trigger}
use knowledge_agent.Policy.{
  Scalar, text, Instant, PolicyRuleType, rule_type_eq, PolicyRecord, policy_ref,
}
use knowledge_agent.Policy.Catalog.{SelectError, value_error, precedence_conflict, select_policies}
use knowledge_agent.Derived
use knowledge_agent.Derived.{Derive, BusinessEvidence, derive_inventory_available}
use knowledge_agent.Derived.Window.{derive_item_window_eligibility}
use knowledge_agent.Derived.Conflict.{derive_business_state_conflict}
use knowledge_agent.GuardState.{
  GuardState, OrderRow, OrderItemRow, PackageRow, CaseRow, InventoryRow, VariantRow, TicketRow,
}
use knowledge_agent.Guard.Types.{
  GuardDecisionKind, ReasonCode, Selected, GuardFacts, no_facts, policy_refs, is_policy_ref,
  GuardDecision, Disposition, ActionRiskPolicy, CatalogSnapshot,
}
use knowledge_agent.Guard.Check.{
  Outcome, pass, denied, failed, Check, ◌>>=◌, ◌>>◌, pure, deny, fail, record_fact, deny_if, expect,
  derived,
}

-- `_select`: a conflict denies, a blank category is an exception.
abbrev pub selection : Result SelectError (List PolicyRecord) → Check (List PolicyRecord)
selection (ok rules) = pure rules
selection (err precedence_conflict) = deny ReasonCode.policy_conflict
selection (err value_error) = fail FailureCode.guard_internal_error

abbrev pub select_rules :
    List PolicyRecord → Instant → PolicyRuleType → OrderItemRow → Check (List PolicyRecord)
select_rules records now rule_type item =
    selection (select_policies records now rule_type (some item.category))

abbrev pub trigger_is : String → Option Scalar → Bool
trigger_is trigger (some (text s)) = s == trigger
trigger_is trigger _ = false

-- the candidates of `_handoff`
unfoldable pub handoff_rules : String → List PolicyRecord → List PolicyRecord
handoff_rules trigger = filter (λ (r : PolicyRecord).
    r.rule_type == PolicyRuleType.handoff && trigger_is trigger (lookup "trigger" r.params))

abbrev pub refs : List PolicyRecord → List String
refs = map policy_ref

-- `_handoff`, as a condition
unfoldable pub handoff_routed : String → List PolicyRecord → Instant → OrderItemRow → Check Bool
handoff_routed trigger records now item = do
  selected ← select_rules (handoff_rules trigger records) now PolicyRuleType.handoff item
  record_fact (λ f. record f { selected = record f.selected { handoff = some (refs selected) } })
  pure (not (is_empty selected))

-- `_check_handoff`: H-3, H-4
unfoldable pub check_handoff :
    ValidatedAction → GuardState → OrderItemRow → List PolicyRecord → Instant → Check (Unit {0})
check_handoff action state item records now = do
  trigger ← expect (lookup "handoff_trigger" action.args)
  routed ← handoff_routed trigger records now item
  record_fact (λ f. record f { handoff_routed = some routed })
  deny_if (not routed) ReasonCode.handoff_not_required
  let open_ticket = any (λ (t : TicketRow). is_open t.status) state.tickets
  record_fact (λ f. record f { open_ticket_present = some open_ticket })
  deny_if open_ticket ReasonCode.handoff_ticket_exists

abbrev pub evidence :
    {A : Type 0} → Option BusinessEvidence → (BusinessEvidence → Derive A) → Derive A
evidence none f = err Derived.value_error
evidence (some e) f = f e

-- R-3 / E-3
unfoldable pub check_conflict : GuardState → Instant → Check (Unit {0})
check_conflict state now = if is_empty state.packages then pure tt else (do
  conflict ← derived (
      evidence state.evidence.order_status
        (λ e. derive_business_state_conflict e state.evidence.logistics now))
  record_fact (λ f. record f { business_state_conflict = some conflict })
  deny_if conflict ReasonCode.business_state_conflict)

abbrev pub package_delivered : Option Instant → Instant → Option ReasonCode
package_delivered none now = some ReasonCode.delivery_not_established
package_delivered (some t) now =
    if ltb now t then some ReasonCode.delivery_not_established else none

abbrev pub only_delivery : List PackageRow → Instant → Option ReasonCode
only_delivery (p ∷ []) now = package_delivered p.delivered_at now
only_delivery _ now = some ReasonCode.delivery_not_established

-- `_delivery_established`: `none` when delivery is established, else the DENY code
unfoldable pub delivery_established : OrderRow → List PackageRow → Instant → Option ReasonCode
delivery_established order packages now =
    if is_undelivered order.status
    then some ReasonCode.not_delivered
    else only_delivery packages now

abbrev pub deny_with : Option ReasonCode → Check (Unit {0})
deny_with none = pure tt
deny_with (some r) = deny r

-- R-4, R-5 / E-4, E-5
unfoldable pub check_delivery : OrderRow → List PackageRow → Instant → Check (Unit {0})
check_delivery order packages now = do
  deny_if (is_cancelled order.status) ReasonCode.order_status_ineligible
  let established = delivery_established order packages now
  record_fact (λ f. record f { delivery_established = some (is_none established) })
  deny_with established

-- R-6, R-7, R-8 / E-6, E-7, E-8
unfoldable pub check_cases : GuardState → Check (Unit {0})
check_cases state = do
  let active = any (λ (c : CaseRow). is_active c.status) state.item_cases
  record_fact (λ f. record f { active_case_present = some active })
  deny_if active ReasonCode.active_after_sales_case_exists
  let returned =
      any (λ (c : CaseRow). is_return c.case_type && is_completed c.status) state.item_cases
  record_fact (λ f. record f { item_returned_before = some returned })
  deny_if returned ReasonCode.item_already_returned
  let other = not (is_empty state.other_pendings)
  record_fact (λ f. record f { other_pending_present = some other })
  deny_if other ReasonCode.pending_request_exists

abbrev pub routed_by : Option String → List PolicyRecord → Instant → OrderItemRow → Check Bool
routed_by none records now item = pure false
routed_by (some trigger) records now item = handoff_routed trigger records now item

-- R-9 / E-9
unfoldable pub check_routing :
    ValidatedAction → OrderItemRow → List PolicyRecord → Instant → Check (Unit {0})
check_routing action item records now = do
  reason ← expect (lookup "reason_code" action.args)
  routed ← routed_by (reason_handoff_trigger reason) records now item
  record_fact (λ f. record f { handoff_routed = some routed })
  deny_if routed ReasonCode.handoff_required

-- R-10
unfoldable pub check_returnable : OrderItemRow → List PolicyRecord → Instant → Check (Unit {0})
check_returnable item records now = do
  rules ← select_rules records now PolicyRuleType.non_returnable item
  record_fact
      (λ f. record f { selected = record f.selected { non_returnable = some (refs rules) } })
  record_fact (λ f. record f { non_returnable = some (not (is_empty rules)) })
  deny_if (not (is_empty rules)) ReasonCode.non_returnable

-- `{variant.sku: variant.variant_group for variant in variants}`
unfoldable pub groups : Dict String → List VariantRow → Dict String
groups d [] = d
groups d (v ∷ vs) = groups (put v.sku v.variant_group d) vs

abbrev pub same_group : Option String → Option String → Bool
same_group (some a) (some b) = a == b
same_group _ _ = false

unfoldable pub compatible : List VariantRow → String → String → Bool
compatible variants sku target =
    same_group (lookup sku (groups [] variants)) (lookup target (groups [] variants))

-- E-10
unfoldable pub check_target : ValidatedAction → GuardState → OrderItemRow → Check (Unit {0})
check_target action state item = do
  target ← expect (lookup "target_sku" action.args)
  deny_if (target == item.sku || is_none state.target_inventory) ReasonCode.exchange_target_invalid
  record_fact
      (λ f. record f { variant_compatible = some (compatible state.variants item.sku target) })
  deny_if (not (compatible state.variants item.sku target)) ReasonCode.exchange_target_incompatible

abbrev pub closed_reason : PolicyRuleType → ReasonCode
closed_reason PolicyRuleType.exchange_window = ReasonCode.exchange_window_closed
closed_reason _ = ReasonCode.return_window_closed

abbrev pub select_window : PolicyRuleType → List String → Selected → Selected
select_window PolicyRuleType.exchange_window rs s = record s { exchange_window = some rs }
select_window _ rs s = record s { return_window = some rs }

abbrev pub first_rule : List PolicyRecord → Check PolicyRecord
first_rule [] = deny ReasonCode.no_applicable_policy
first_rule (r ∷ rs) = pure r

-- R-11, R-12 / E-11, E-12
unfoldable pub check_window :
    PolicyRuleType → GuardState → OrderItemRow → List PolicyRecord → Instant → Check (Unit {0})
check_window window_type state item records now = do
  rules ← select_rules records now window_type item
  record_fact (λ f. record f { selected = select_window window_type (refs rules) f.selected })
  rule ← first_rule rules
  window ← derived (
      evidence state.evidence.category
        (λ e. derive_item_window_eligibility state.evidence.delivered_at rule now e))
  record_fact (λ f. record f {
    within_window = some window.within;
    days_since_delivery = some window.days_since_delivery;
  })
  deny_if (not window.within) (closed_reason window_type)

abbrev pub in_stock : Option InventoryRow → ℕ → Option Bool
in_stock none quantity = none
in_stock (some row) quantity = some (leb quantity row.available_qty)

-- E-13
unfoldable pub check_inventory : GuardState → OrderItemRow → Instant → Check (Unit {0})
check_inventory state item now = do
  available ←
      derived (evidence state.evidence.available_qty (λ e. derive_inventory_available e now))
  record_fact (λ f. record f { inventory_available = some available })
  sufficient ← expect (in_stock state.target_inventory item.quantity)
  record_fact (λ f. record f { inventory_sufficient = some sufficient })
  deny_if (not sufficient) ReasonCode.inventory_unavailable

-- from R-10 / E-10 on, by action
unfoldable pub check_kind :
    ValidatedAction
    → GuardState
    → OrderItemRow
    → List PolicyRecord
    → Instant
    → ActionName
    → Check (Unit {0})
check_kind action state item records now ActionName.create_return = do
  check_returnable item records now
  check_window PolicyRuleType.return_window state item records now
check_kind action state item records now ActionName.create_exchange = do
  check_target action state item
  check_window PolicyRuleType.exchange_window state item records now
  check_inventory state item now
check_kind action state item records now ActionName.escalate_to_human =
    fail FailureCode.guard_internal_error

-- `_check_after_sales`
unfoldable pub check_after_sales :
    ValidatedAction
    → GuardState
    → OrderRow
    → OrderItemRow
    → List PolicyRecord
    → Instant
    → Check (Unit {0})
check_after_sales action state order item records now = do
  record_fact (λ f. record f { package_count = some (length state.packages) })
  check_conflict state now
  check_delivery order state.packages now
  check_cases state
  check_routing action item records now
  check_kind action state item records now action.action_name

abbrev pub accessible : Option OrderRow → Check OrderRow
accessible none = deny ReasonCode.order_not_accessible
accessible (some order) = pure order

abbrev pub in_the_order : Option OrderItemRow → Check OrderItemRow
in_the_order none = deny ReasonCode.order_item_not_in_order
in_the_order (some item) = pure item

abbrev pub is_handoff : ActionName → Bool
is_handoff ActionName.escalate_to_human = true
is_handoff _ = false

abbrev pub check_action :
    ValidatedAction
    → GuardState
    → OrderRow
    → OrderItemRow
    → List PolicyRecord
    → Instant
    → Check (Unit {0})
check_action action state order item records now =
    if is_handoff action.action_name
    then check_handoff action state item records now
    else check_after_sales action state order item records now

-- `_check`: R-1 / E-1 / H-1 and R-2 / E-2 / H-2, then by action
unfoldable pub check : ValidatedAction → GuardState → List PolicyRecord → Instant → Check (Unit {0})
check action state records now = do
  order ← accessible state.order
  record_fact (λ f. record f { order_status = some order.status })
  item ← in_the_order state.item
  check_action action state order item records now

-- `_facts`: the references are well formed, and those of captured rules
unfoldable pub facts_hold : List PolicyRecord → GuardFacts → Bool
facts_hold records facts =
    all is_policy_ref (policy_refs facts.selected)
    && all (λ ref. member ref (refs records)) (policy_refs facts.selected)

unfoldable pub result :
    List PolicyRecord
    → ReasonCode
    → GuardDecisionKind
    → GuardFacts
    → Result FailureCode GuardDecision
result records reason kind facts =
    if facts_hold records facts
    then ok (record { decision = kind; reason_code = reason; facts = facts })
    else err FailureCode.guard_internal_error

abbrev pub disposed :
    List PolicyRecord → Disposition → GuardFacts → Result FailureCode GuardDecision
disposed records Disposition.require_approval facts =
    result records ReasonCode.risk_policy_requires_approval GuardDecisionKind.require_approval facts
disposed records Disposition.allow facts =
    result records ReasonCode.risk_policy_allows GuardDecisionKind.allow facts

-- `run`
abbrev pub conclude :
    List PolicyRecord
    → Disposition
    → Outcome (Unit {0}) × GuardFacts
    → Result FailureCode GuardDecision
conclude records disposition (pass u, facts) = disposed records disposition facts
conclude records disposition (denied r, facts) = result records r GuardDecisionKind.deny facts
conclude records disposition (failed c, facts) = err c

-- `Guard.decide`
unfoldable pub decide :
    ValidatedAction
    → GuardState
    → CatalogSnapshot
    → ActionRiskPolicy
    → Instant
    → Result FailureCode GuardDecision
decide action state policy risk now =
    if state.action_name == action.action_name
    then conclude policy.records (risk.disposition action.action_name)
        (check action state policy.records now no_facts)
    else err FailureCode.guard_internal_error
