-- ===== src/Guard/Types.antt =====
-- aftersales/guard.py, aftersales/action_policy.py: decisions, reason codes, facts and the risk
-- policy.
use knowledge_agent.Prelude.{
  ℕ, String, Bool, false, not, ◌||◌, Option, none, some, List, [], ◌∷◌, ◌++◌, string_eq,
  if◌then◌else◌, nat_eqb, is_space, codes,
}
use knowledge_agent.Schema.{OrderStatus}
use knowledge_agent.Actions.{ActionName}
use knowledge_agent.Policy.{PolicyRecord, is_end}

pub data GuardDecisionKind : Type 0 where
  allow deny require_approval : GuardDecisionKind

-- GUARD_REASON_CODES: the DENY codes in their order, then those of the risk policy
pub data ReasonCode : Type 0 where
  order_not_accessible order_item_not_in_order business_state_conflict : ReasonCode
  order_status_ineligible not_delivered delivery_not_established : ReasonCode
  active_after_sales_case_exists item_already_returned pending_request_exists : ReasonCode
  handoff_required non_returnable no_applicable_policy policy_conflict : ReasonCode
  return_window_closed exchange_window_closed : ReasonCode
  exchange_target_invalid exchange_target_incompatible inventory_unavailable : ReasonCode
  handoff_not_required handoff_ticket_exists : ReasonCode
  risk_policy_requires_approval risk_policy_allows : ReasonCode

-- REASON_CODES_BY_DECISION: the decision that a code belongs to
abbrev pub decision_of : ReasonCode → GuardDecisionKind
decision_of ReasonCode.risk_policy_requires_approval = GuardDecisionKind.require_approval
decision_of ReasonCode.risk_policy_allows = GuardDecisionKind.allow
decision_of _ = GuardDecisionKind.deny

-- `self.selected`: the references of the selected rules, by rule type
pub record Selected : Type 0 where
  pub exchange_window : Option (List String)
  pub handoff : Option (List String)
  pub non_returnable : Option (List String)
  pub return_window : Option (List String)

-- The fields of GuardFacts; `none` is a check that did not run. `selected` stands for
-- `selected_policy_refs`, which lists it in the order of the rule types' names.
pub record GuardFacts : Type 0 where
  pub order_status : Option OrderStatus
  pub package_count : Option ℕ
  pub days_since_delivery : Option ℕ
  pub business_state_conflict : Option Bool
  pub delivery_established : Option Bool
  pub within_window : Option Bool
  pub active_case_present : Option Bool
  pub item_returned_before : Option Bool
  pub other_pending_present : Option Bool
  pub handoff_routed : Option Bool
  pub non_returnable : Option Bool
  pub variant_compatible : Option Bool
  pub inventory_available : Option Bool
  pub inventory_sufficient : Option Bool
  pub open_ticket_present : Option Bool
  pub selected : Selected

abbrev pub no_facts : GuardFacts
no_facts = record {
  order_status = none;
  package_count = none;
  days_since_delivery = none;
  business_state_conflict = none;
  delivery_established = none;
  within_window = none;
  active_case_present = none;
  item_returned_before = none;
  other_pending_present = none;
  handoff_routed = none;
  non_returnable = none;
  variant_compatible = none;
  inventory_available = none;
  inventory_sufficient = none;
  open_ticket_present = none;
  selected = record {
    exchange_window = none;
    handoff = none;
    non_returnable = none;
    return_window = none;
  };
}

abbrev pub some_list : Option (List String) → List String
some_list none = []
some_list (some xs) = xs

-- `GuardFacts.policy_refs()`
unfoldable pub policy_refs : Selected → List String
policy_refs s =
    some_list s.exchange_window
    ++ (some_list s.handoff ++ (some_list s.non_returnable ++ some_list s.return_window))

-- `[^@#\s]`
abbrev ref_char : ℕ → Bool
ref_char c = not (nat_eqb c b'@' || nat_eqb c b'#' || is_space c)

skip_ref : List ℕ → List ℕ
skip_ref [] = []
skip_ref (c ∷ cs) = let rest = skip_ref cs in if ref_char c then rest else c ∷ cs

-- `[^@#\s]+`, with what follows it
ref_part : List ℕ → Option (List ℕ)
unfolding skip_ref
ref_part [] = none
ref_part (c ∷ cs) = if ref_char c then some (skip_ref cs) else none

ref_sign : ℕ → Option (List ℕ) → Option (List ℕ)
ref_sign s (some (c ∷ cs)) = if nat_eqb c s then some cs else none
ref_sign s _ = none

abbrev then_part : Option (List ℕ) → Option (List ℕ)
then_part none = none
then_part (some cs) = ref_part cs

abbrev ends : Option (List ℕ) → Bool
ends none = false
ends (some cs) = is_end cs

literal : List ℕ → List ℕ → Option (List ℕ)
literal [] cs = some cs
literal (p ∷ ps) [] = none
literal (p ∷ ps) (c ∷ cs) = let rest = literal ps cs in if nat_eqb p c then rest else none

-- POLICY_REF_PATTERN
unfoldable pub is_policy_ref : String → Bool
unfolding ref_part ref_sign literal
is_policy_ref ref = ends (
    then_part (
      ref_sign b'#'
        (then_part (ref_sign b'@' (then_part (literal (codes "policy:") (codes ref)))))))

pub record GuardDecision : Type 0 where
  pub decision : GuardDecisionKind
  pub reason_code : ReasonCode
  pub facts : GuardFacts

pub data Disposition : Type 0 where
  allow require_approval : Disposition

pub record ActionRiskPolicy : Type 0 where
  pub version : String
  pub disposition : ActionName → Disposition

abbrev pub s6_disposition : ActionName → Disposition
s6_disposition ActionName.create_return = Disposition.require_approval
s6_disposition ActionName.create_exchange = Disposition.allow
s6_disposition ActionName.escalate_to_human = Disposition.allow

-- S6_RISK_POLICY
abbrev pub s6_risk_policy : ActionRiskPolicy
s6_risk_policy = record { version = "s6-risk/1"; disposition = s6_disposition }

-- The part of a CatalogSnapshot that the Guard reads.
pub record CatalogSnapshot : Type 0 where
  pub build_id : String
  pub records : List PolicyRecord
