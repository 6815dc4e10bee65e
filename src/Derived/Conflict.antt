-- ===== src/Derived/Conflict.antt =====
-- aftersales/derived.py, section D: order and logistics states that cannot both be true.
use knowledge_agent.Prelude.{
  String, Bool, true, false, not, ◌&&◌, ◌||◌, Option, none, some, List, [], ◌∷◌, ◌++◌, ok, err,
  ◌>>=◌, ◌>>◌, require, or_raise, ◌==◌, string_eq, nat_eq, if◌then◌else◌, all, any, filter,
  is_empty, text_leb,
}
use knowledge_agent.Prelude.Dict.{Dict, lookup, keys, contains, same_set}
use knowledge_agent.Prelude.Sort.{sorted}
use knowledge_agent.Schema.{OrderStatus, LogisticsStatus, order_status, logistics_status}
use knowledge_agent.Policy.{Instant}
use knowledge_agent.Derived.{
  Value, text, BusinessEvidence, Derive, value_error, not_derivable, logistics_incomplete,
  observation_time_mismatch, read_field,
}
use knowledge_agent.Derived.Window.{one_observation}

pub data RuleId : Type 0 where
  order_shipped_all_packages_delivered : RuleId
  order_delivered_package_in_transit : RuleId
  order_unshipped_package_moving : RuleId

pub data Quantifier : Type 0 where
  every some_package : Quantifier

-- The two `frozenset`s of a rule are its tests.
pub record StateConflictRule : Type 0 where
  pub rule_id : RuleId
  pub order_statuses : OrderStatus → Bool
  pub quantifier : Quantifier
  pub package_statuses : LogisticsStatus → Bool

abbrev pub is_shipped : OrderStatus → Bool
is_shipped OrderStatus.shipped = true
is_shipped _ = false

abbrev pub is_delivered : OrderStatus → Bool
is_delivered OrderStatus.delivered = true
is_delivered _ = false

abbrev pub is_unshipped : OrderStatus → Bool
is_unshipped OrderStatus.pending_payment = true
is_unshipped OrderStatus.paid = true
is_unshipped _ = false

abbrev pub is_signed_for : LogisticsStatus → Bool
is_signed_for LogisticsStatus.delivered = true
is_signed_for _ = false

-- _UNDELIVERED_IN_TRANSIT
abbrev pub is_in_transit : LogisticsStatus → Bool
is_in_transit LogisticsStatus.in_transit = true
is_in_transit LogisticsStatus.out_for_delivery = true
is_in_transit _ = false

-- _MOVING
abbrev pub is_moving : LogisticsStatus → Bool
is_moving LogisticsStatus.in_transit = true
is_moving LogisticsStatus.out_for_delivery = true
is_moving LogisticsStatus.delivered = true
is_moving _ = false

abbrev pub state_conflict_rules : List StateConflictRule
state_conflict_rules =
    record {
      rule_id = order_shipped_all_packages_delivered;
      order_statuses = is_shipped;
      quantifier = every;
      package_statuses = is_signed_for;
    }
    ∷ record {
      rule_id = order_delivered_package_in_transit;
      order_statuses = is_delivered;
      quantifier = some_package;
      package_statuses = is_in_transit;
    }
    ∷ record {
      rule_id = order_unshipped_package_moving;
      order_statuses = is_unshipped;
      quantifier = some_package;
      package_statuses = is_moving;
    }
    ∷ []

abbrev pub quantified : Quantifier → (LogisticsStatus → Bool) → List LogisticsStatus → Bool
quantified every test statuses = all test statuses
quantified some_package test statuses = any test statuses

-- `_fires`
unfoldable pub fires : OrderStatus → List LogisticsStatus → StateConflictRule → Bool
fires status packages rule =
    if rule.order_statuses status
    then quantified rule.quantifier rule.package_statuses packages
    else false

unfoldable pub fired_rules : OrderStatus → List LogisticsStatus → List StateConflictRule
fired_rules status packages = filter (fires status packages) state_conflict_rules

-- the two mappings that the loop fills, by package, with the evidence read so far
pub record Logistics : Type 0 where
  pub statuses : Dict BusinessEvidence
  pub order_ids : Dict BusinessEvidence

abbrev pub add_status : Logistics → BusinessEvidence → Derive Logistics
add_status l field = do
  require (not (contains field.record_id l.statuses)) value_error
  ok (record l { statuses = l.statuses ++ (field.record_id, field) ∷ [] })

abbrev pub add_order_id : Logistics → BusinessEvidence → Derive Logistics
add_order_id l field = do
  require (not (contains field.record_id l.order_ids)) value_error
  ok (record l { order_ids = l.order_ids ++ (field.record_id, field) ∷ [] })

-- One round of the loop, for an item whose field is `status` or `order_id`.
unfoldable pub add_field : Logistics → String → BusinessEvidence → Instant → Derive Logistics
add_field l field_name item now = do
  field ← read_field item "logistics" field_name now
  if field_name == "status" then add_status l field else add_order_id l field

unfoldable pub read_logistics : Logistics → Instant → List BusinessEvidence → Derive Logistics
read_logistics l now [] = ok l
read_logistics l now (item ∷ items) =
    if item.field == "status" || item.field == "order_id"
    then (do next ← add_field l item.field item now; read_logistics next now items)
    else read_logistics l now items

abbrev pub fields_of : Dict BusinessEvidence → List BusinessEvidence
fields_of [] = []
fields_of ((k, e) ∷ d) = e ∷ fields_of d

abbrev pub status_of : Value → Option LogisticsStatus
status_of (text s) = logistics_status s
status_of _ = none

abbrev pub value_is : String → Value → Bool
value_is s (text t) = t == s
value_is s _ = false

abbrev pub status_field : Option BusinessEvidence → Derive LogisticsStatus
status_field none = err value_error
status_field (some e) = or_raise (status_of e.value) value_error

-- The loop over `order_ids.items()`: every package names this order and has a package status.
unfoldable pub check_packages :
    String → Dict BusinessEvidence → Dict BusinessEvidence → Derive (Unit {0})
check_packages order_id statuses [] = ok tt
check_packages order_id statuses ((tracking_no, field) ∷ rest) = do
  require (value_is order_id field.value) value_error
  status ← status_field (lookup tracking_no statuses)
  check_packages order_id statuses rest

-- the statuses in the order of `sorted(statuses)`; each was checked above
unfoldable pub package_statuses : Dict BusinessEvidence → List LogisticsStatus
package_statuses [] = []
package_statuses ((k, e) ∷ d) = elim (status_of e.value) [
  | none ↦ package_statuses d
  | some s ↦ s ∷ package_statuses d
]

abbrev pub order_status_of : Value → Derive OrderStatus
order_status_of (text s) = or_raise (order_status s) value_error
order_status_of _ = err value_error

abbrev pub same_instant : Instant → Dict BusinessEvidence → Bool
same_instant t [] = true
same_instant t ((k, e) ∷ d) = t == e.observed_at

abbrev pub no_logistics : Logistics
no_logistics = record { statuses = []; order_ids = [] }

-- The checks between the loop and the rules.
unfoldable pub check_logistics : BusinessEvidence → Logistics → Derive (Unit {0})
check_logistics order l = do
  require (not (is_empty l.statuses && is_empty l.order_ids)) (not_derivable logistics_incomplete)
  require (same_set (keys l.statuses) (keys l.order_ids)) (not_derivable logistics_incomplete)
  require (one_observation (fields_of l.statuses ++ fields_of l.order_ids)) value_error
  check_packages order.record_id l.statuses l.order_ids
  require (same_instant order.observed_at l.statuses) (not_derivable observation_time_mismatch)

-- `derive_business_state_conflict`: the value is whether a rule fired.
unfoldable pub derive_business_state_conflict :
    BusinessEvidence → List BusinessEvidence → Instant → Derive Bool
derive_business_state_conflict order_status logistics now = do
  order ← read_field order_status "order" "status" now
  status ← order_status_of order.value
  l ← read_logistics no_logistics now logistics
  check_logistics order l
  let packages = package_statuses (sorted (λ a b. text_leb a.0 b.0) l.statuses)
  ok (not (is_empty (fired_rules status packages)))
