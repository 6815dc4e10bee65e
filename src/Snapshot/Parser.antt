-- ===== src/Snapshot/Parser.antt =====
-- aftersales/guard_snapshot.py: parse_snapshot_document, the closed parser of a persisted Guard
-- snapshot, with the construction checks of GuardFacts (aftersales/guard.py).
use knowledge_agent.Prelude.{
  ℕ, String, Bool, true, false, not, ◌&&◌, Option, none, some, List, [], ◌∷◌, ok, err, ◌>>=◌, ◌>>◌,
  require, or_raise, ◌==◌, string_eq, if◌then◌else◌, leb, is_blank, text_leb, map,
}
use knowledge_agent.Prelude.Dict.{Dict, lookup, keys, same_set}
use knowledge_agent.Prelude.Sort.{sorted}
use knowledge_agent.Prelude.Int.{pos}
use knowledge_agent.Schema.{OrderStatus, order_status}
use knowledge_agent.Actions.{ActionName, name_text}
use knowledge_agent.Policy.{PolicyRuleType, Instant}
use knowledge_agent.GuardState.{Versions, version_leb}
use knowledge_agent.Guard.Types.{
  ReasonCode, GuardDecisionKind, decision_of, Selected, GuardFacts, is_policy_ref,
}
use knowledge_agent.Snapshot.{GuardSnapshot, snapshot_integrity, type_error}
use knowledge_agent.Snapshot.Json.{
  Json, null, boolean, integer, string, array, object, values_of, Parsed, as_dict, as_list, as_text,
}
use knowledge_agent.Snapshot.Words.{reason_of, kind_of, kind_eqb, rule_type_of, rule_type_text}
use knowledge_agent.Snapshot.Document.{Codec, guard_snapshot_schema, record_tables}

-- `StoredSnapshot`; the text of the evaluation time is the instant that it denotes.
pub record StoredSnapshot : Type 0 where
  pub snapshot : GuardSnapshot
  pub decision : GuardDecisionKind
  pub reason_code : ReasonCode
  pub facts : GuardFacts

-- DOCUMENT_KEYS
abbrev document_keys : List String
document_keys =
    "schema" ∷ "action_name" ∷ "evaluated_at" ∷ "records" ∷ "policy_build_id"
    ∷ "action_spec_version" ∷ "risk_policy_version" ∷ "decision" ∷ []

-- DECISION_KEYS
abbrev decision_keys : List String
decision_keys = "decision" ∷ "reason_code" ∷ "facts" ∷ []

-- GUARD_FACT_FIELDS
abbrev guard_fact_fields : List String
guard_fact_fields =
    "order_status" ∷ "package_count" ∷ "days_since_delivery" ∷ "business_state_conflict"
    ∷ "delivery_established" ∷ "within_window" ∷ "active_case_present" ∷ "item_returned_before"
    ∷ "other_pending_present" ∷ "handoff_routed" ∷ "non_returnable" ∷ "variant_compatible"
    ∷ "inventory_available" ∷ "inventory_sufficient" ∷ "open_ticket_present"
    ∷ "selected_policy_refs" ∷ []

-- `data[key]`, of a key that the keys were checked to have
abbrev pub value_at : String → Dict Json → Parsed Json
value_at k d = or_raise (lookup k d) snapshot_integrity

-- `_text`
unfoldable pub nonblank_text : Json → Parsed String
nonblank_text (string s) = if is_blank s then err snapshot_integrity else ok s
nonblank_text j = err snapshot_integrity

-- a record version
abbrev pub version_of : Json → Parsed ℕ
version_of (integer (pos n)) = if leb 1 n then ok n else err snapshot_integrity
version_of j = err snapshot_integrity

-- `for key, version in rows.items()`
unfoldable pub parse_rows : Dict Json → Parsed (List (String × ℕ))
parse_rows [] = ok []
parse_rows ((k, j) ∷ d) = do
  key ← nonblank_text (string k)
  version ← version_of j
  rows ← parse_rows d
  ok ((key, version) ∷ rows)

-- `for table in sorted(records)`
unfoldable pub parse_tables : List String → Dict Json → Parsed Versions
parse_tables [] records = ok []
parse_tables (table ∷ tables) records = do
  value ← value_at table records
  d ← as_dict value
  rows ← parse_rows d
  more ← parse_tables tables records
  ok ((table, sorted version_leb rows) ∷ more)

unfoldable pub parse_records : ActionName → Json → Parsed Versions
parse_records name value = do
  records ← as_dict value
  require (same_set (keys records) (record_tables name)) snapshot_integrity
  parse_tables (sorted text_leb (keys records)) records

abbrev pub flag_of : Json → Parsed (Option Bool)
flag_of null = ok none
flag_of (boolean b) = ok (some b)
flag_of j = err snapshot_integrity

abbrev pub count_of : Json → Parsed (Option ℕ)
count_of null = ok none
count_of (integer (pos n)) = ok (some n)
count_of j = err snapshot_integrity

abbrev pub known_status : Option OrderStatus → Parsed (Option OrderStatus)
known_status none = err snapshot_integrity
known_status (some s) = ok (some s)

abbrev pub fact_status_of : Json → Parsed (Option OrderStatus)
fact_status_of null = ok none
fact_status_of (string s) = known_status (order_status s)
fact_status_of j = err snapshot_integrity

-- an entry of `selected_policy_refs`: its shape, then its rule type and references
unfoldable pub shape_of : List Json → Parsed (Json × List Json)
shape_of (a ∷ array js ∷ []) = ok (a, values_of js)
shape_of js = err snapshot_integrity

abbrev pub ref_of : Json → Parsed String
ref_of (string s) = if is_policy_ref s then ok s else err snapshot_integrity
ref_of j = err snapshot_integrity

unfoldable pub refs_of : List Json → Parsed (List String)
refs_of [] = ok []
refs_of (j ∷ js) = do s ← ref_of j; rest ← refs_of js; ok (s ∷ rest)

unfoldable pub parse_entry : Json → Parsed (PolicyRuleType × List String)
parse_entry j = do
  parts ← as_list j
  (first, items) ← shape_of parts
  name ← as_text first
  t ← or_raise (rule_type_of name) snapshot_integrity
  refs ← refs_of items
  ok (t, refs)

unfoldable pub parse_entries : List Json → Parsed (List (PolicyRuleType × List String))
parse_entries [] = ok []
parse_entries (j ∷ js) = do e ← parse_entry j; rest ← parse_entries js; ok (e ∷ rest)

-- sorted and distinct
unfoldable pub increasing : List String → Bool
increasing [] = true
increasing (a ∷ []) = true
increasing (a ∷ b ∷ cs) = text_leb a b && not (a == b) && increasing (b ∷ cs)

-- the references of one rule type
unfoldable pub refs_for :
    PolicyRuleType → List (PolicyRuleType × List String) → Option (List String)
refs_for t [] = none
refs_for t ((u, refs) ∷ more) =
    let rest = refs_for t more in if rule_type_text u == rule_type_text t then some refs else rest

abbrev pub selected_of : List (PolicyRuleType × List String) → Selected
selected_of es = record {
  exchange_window = refs_for PolicyRuleType.exchange_window es;
  handoff = refs_for PolicyRuleType.handoff es;
  non_returnable = refs_for PolicyRuleType.non_returnable es;
  return_window = refs_for PolicyRuleType.return_window es;
}

abbrev pub entry_type : PolicyRuleType × List String → String
entry_type e = rule_type_text e.0

unfoldable pub parse_refs : Json → Parsed Selected
parse_refs j = do
  values ← as_list j
  entries ← parse_entries values
  require (increasing (map entry_type entries)) snapshot_integrity
  ok (selected_of entries)

-- `GuardFacts(**facts)`. The comparison of `to_record()` with the facts, which the fields were taken
-- from, then holds.
unfoldable pub parse_facts : Json → Parsed GuardFacts
parse_facts j = do
  facts ← as_dict j
  require (same_set (keys facts) guard_fact_fields) snapshot_integrity
  selected ← value_at "selected_policy_refs" facts >>= parse_refs
  status ← value_at "order_status" facts >>= fact_status_of
  packages ← value_at "package_count" facts >>= count_of
  days ← value_at "days_since_delivery" facts >>= count_of
  conflict ← value_at "business_state_conflict" facts >>= flag_of
  established ← value_at "delivery_established" facts >>= flag_of
  within ← value_at "within_window" facts >>= flag_of
  active ← value_at "active_case_present" facts >>= flag_of
  returned ← value_at "item_returned_before" facts >>= flag_of
  pending ← value_at "other_pending_present" facts >>= flag_of
  routed ← value_at "handoff_routed" facts >>= flag_of
  barred ← value_at "non_returnable" facts >>= flag_of
  compatible ← value_at "variant_compatible" facts >>= flag_of
  available ← value_at "inventory_available" facts >>= flag_of
  sufficient ← value_at "inventory_sufficient" facts >>= flag_of
  ticket ← value_at "open_ticket_present" facts >>= flag_of
  ok (record {
    order_status = status;
    package_count = packages;
    days_since_delivery = days;
    business_state_conflict = conflict;
    delivery_established = established;
    within_window = within;
    active_case_present = active;
    item_returned_before = returned;
    other_pending_present = pending;
    handoff_routed = routed;
    non_returnable = barred;
    variant_compatible = compatible;
    inventory_available = available;
    inventory_sufficient = sufficient;
    open_ticket_present = ticket;
    selected = selected;
  })

abbrev pub member_kind : Json → Parsed GuardDecisionKind
member_kind (string s) = or_raise (kind_of s) snapshot_integrity
member_kind j = err snapshot_integrity

-- `decision["reason_code"] not in REASON_CODES_BY_DECISION[kind]`: a list or an object has no hash,
-- so its test raises a TypeError.
unfoldable pub member_reason : GuardDecisionKind → Json → Parsed ReasonCode
member_reason kind (string s) = do
  r ← or_raise (reason_of s) snapshot_integrity
  require (kind_eqb (decision_of r) kind) snapshot_integrity
  ok r
member_reason kind (array js) = err type_error
member_reason kind (object es) = err type_error
member_reason kind j = err snapshot_integrity

pub record StoredDecision : Type 0 where
  pub kind : GuardDecisionKind
  pub reason_code : ReasonCode
  pub facts : GuardFacts

unfoldable pub parse_decision : Json → Parsed StoredDecision
parse_decision j = do
  decision ← as_dict j
  require (same_set (keys decision) decision_keys) snapshot_integrity
  kind ← value_at "decision" decision >>= member_kind
  reason ← value_at "reason_code" decision >>= member_reason kind
  facts ← value_at "facts" decision >>= parse_facts
  ok (record { kind = kind; reason_code = reason; facts = facts })

-- `evaluated_at`, which has an offset
unfoldable pub parse_time : Codec → Json → Parsed Instant
parse_time codec j = do
  s ← nonblank_text j
  t ← or_raise (codec.fromisoformat s) snapshot_integrity
  require t.aware snapshot_integrity
  ok t.instant

-- the text of a closed value
abbrev pub is_text_value : String → Json → Bool
is_text_value s (string t) = s == t
is_text_value s j = false

-- `parse_snapshot_document`
unfoldable pub parse_snapshot_document :
    Codec → String → String → ActionName → Parsed StoredSnapshot
parse_snapshot_document codec document expected_sha256 expected_action = do
  require (codec.sha256 document == expected_sha256) snapshot_integrity
  value ← or_raise (codec.loads document) snapshot_integrity
  top ← as_dict value
  require (same_set (keys top) document_keys) snapshot_integrity
  require (codec.canonical value == document) snapshot_integrity
  schema ← value_at "schema" top
  require (is_text_value guard_snapshot_schema schema) snapshot_integrity
  name ← value_at "action_name" top
  require (is_text_value (name_text expected_action) name) snapshot_integrity
  instant ← value_at "evaluated_at" top >>= parse_time codec
  records ← value_at "records" top >>= parse_records expected_action
  decision ← value_at "decision" top >>= parse_decision
  build ← value_at "policy_build_id" top >>= nonblank_text
  spec ← value_at "action_spec_version" top >>= nonblank_text
  risk ← value_at "risk_policy_version" top >>= nonblank_text
  ok (record {
    snapshot = record {
      action_name = expected_action;
      evaluated_at = instant;
      records = records;
      policy_build_id = build;
      action_spec_version = spec;
      risk_policy_version = risk;
    };
    decision = decision.kind;
    reason_code = decision.reason_code;
    facts = decision.facts;
  })
