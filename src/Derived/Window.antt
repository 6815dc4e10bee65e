-- ===== src/Derived/Window.antt =====
-- aftersales/derived.py, section B: whether an item is inside its return or exchange window.
use knowledge_agent.Prelude.{
  ℕ, String, Bool, true, not, ◌&&◌, ◌||◌, List, [], ◌∷◌, ok, err, ◌>>=◌, ◌>>◌, require, or_raise,
  ◌==◌, string_eq, nat_eq, if◌then◌else◌, leb, all, is_empty, is_blank, member,
}
use knowledge_agent.Policy.{
  Instant, WindowParams, PolicyRecord, window_params, is_policy_in_effect,
  policy_applies_to_category,
}
use knowledge_agent.Derived.{
  Value, text, BusinessEvidence, Derive, value_error, not_derivable, policy_not_in_effect,
  category_required, category_not_in_scope, order_link_mismatch, start_event_absent,
  item_package_link_ambiguous, read_field, order_relation, delivery, elapsed_natural_days,
}

-- `within_return_window` or `within_exchange_window`, with its day count
pub record WindowFact : Type 0 where
  pub within : Bool
  pub days_since_delivery : ℕ
  pub window_days : ℕ

abbrev pub category_text : Value → Derive String
category_text (text s) = if is_blank s then err value_error else ok s
category_text _ = err value_error

-- `_read_category`, with the category that it reads
unfoldable pub read_category : BusinessEvidence → Instant → Derive (BusinessEvidence × String)
read_category e now = do
  item ← read_field e "order_item" "category" now
  category ← category_text item.value
  ok (item, category)

abbrev pub covers : PolicyRecord → String → Bool
covers policy category = is_empty policy.scope || policy_applies_to_category policy category

-- `_window_rule_gate`, where the category is given
unfoldable pub window_rule_gate :
    PolicyRecord → BusinessEvidence → Instant → Derive BusinessEvidence
window_rule_gate policy category now = do
  (item, value) ← read_category category now
  require (is_policy_in_effect policy now) (not_derivable policy_not_in_effect)
  require (covers policy value) (not_derivable category_not_in_scope)
  ok item

-- `_window_rule_gate` without a category: the rule must be a general one
unfoldable pub general_rule_gate : PolicyRecord → Instant → Derive (Unit {0})
general_rule_gate policy now = do
  require (is_policy_in_effect policy now) (not_derivable policy_not_in_effect)
  require (is_empty policy.scope) (not_derivable category_required)
  ok tt

unfoldable pub window_fact : WindowParams → ℕ → WindowFact
window_fact params days = record {
  within = leb days params.window_days;
  days_since_delivery = days;
  window_days = params.window_days;
}

abbrev pub params_of : PolicyRecord → Derive WindowParams
params_of policy = or_raise (window_params policy) value_error

-- `derive_window_eligibility` with a category
unfoldable pub derive_window_eligibility :
    BusinessEvidence → PolicyRecord → Instant → BusinessEvidence → Derive WindowFact
derive_window_eligibility delivered_at policy now category = do
  params ← params_of policy
  item ← window_rule_gate policy category now
  (field, delivered) ← delivery delivered_at now
  item_order ← order_relation item
  delivery_order ← order_relation field
  require (item_order == delivery_order) (not_derivable order_link_mismatch)
  days ← elapsed_natural_days delivered now params.utc_offset
  ok (window_fact params days)

-- `derive_window_eligibility` without one: the delivered package alone
unfoldable pub derive_package_window_eligibility :
    BusinessEvidence → PolicyRecord → Instant → Derive WindowFact
derive_package_window_eligibility delivered_at policy now = do
  params ← params_of policy
  general_rule_gate policy now
  (field, delivered) ← delivery delivered_at now
  days ← elapsed_natural_days delivered now params.utc_offset
  ok (window_fact params days)

-- The loop over `delivered_at_evidence`: `seen` are the record ids of the packages so far.
unfoldable pub collect_packages :
    String → Instant → List String → List BusinessEvidence → Derive (List BusinessEvidence)
collect_packages item_order now seen [] = ok []
collect_packages item_order now seen (e ∷ es) =
    let rest = collect_packages item_order now (e.record_id ∷ seen) es in
    do
      field ← read_field e "logistics" "delivered_at" now
      require (not (member field.record_id seen)) value_error
      order ← order_relation field
      require (order == item_order) (not_derivable order_link_mismatch)
      packages ← rest
      ok (field ∷ packages)

abbrev pub same_observation : BusinessEvidence → BusinessEvidence → Bool
same_observation a b = a.observed_at == b.observed_at && a.observation_id == b.observation_id

-- `len(observations) <= 1`
unfoldable pub one_observation : List BusinessEvidence → Bool
one_observation [] = true
one_observation (e ∷ es) = all (same_observation e) es

abbrev pub only_package : List BusinessEvidence → Derive BusinessEvidence
only_package [] = err (not_derivable start_event_absent)
only_package (e ∷ []) = ok e
only_package (e ∷ f ∷ es) = err (not_derivable item_package_link_ambiguous)

-- `derive_item_window_eligibility`
unfoldable pub derive_item_window_eligibility :
    List BusinessEvidence → PolicyRecord → Instant → BusinessEvidence → Derive WindowFact
derive_item_window_eligibility delivered_at policy now category = do
  params ← params_of policy
  item ← window_rule_gate policy category now
  item_order ← order_relation item
  packages ← collect_packages item_order now [] delivered_at
  require (one_observation packages) value_error
  carrier ← only_package packages
  derive_window_eligibility carrier policy now category
