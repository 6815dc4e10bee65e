-- ===== src/Snapshot/Document.antt =====
-- The persisted form of a Guard snapshot: snapshot_document and GuardFacts.to_record of
-- aftersales/guard.py, as the value that `canonical` writes. It sorts the keys of every object, so
-- they stand sorted here.
use knowledge_agent.Prelude.{ℕ, String, Bool, Option, none, some, List, [], ◌∷◌, ◌++◌, map}
use knowledge_agent.Prelude.Dict.{Dict}
use knowledge_agent.Prelude.Maps.{dict_of}
use knowledge_agent.Prelude.Int.{pos}
use knowledge_agent.Schema.{order_status_text}
use knowledge_agent.Actions.{ActionName, name_text}
use knowledge_agent.Policy.{Instant, PolicyRuleType}
use knowledge_agent.GuardState.{Versions}
use knowledge_agent.GuardState.Cells.{Timestamp}
use knowledge_agent.Guard.Types.{Selected, GuardFacts, GuardDecision}
use knowledge_agent.Snapshot.{GuardSnapshot}
use knowledge_agent.Snapshot.Json.{Json, null, boolean, integer, string, list_value, dict_value}
use knowledge_agent.Snapshot.Words.{reason_text, kind_text, rule_type_text}

-- What a document needs of `hashlib`, `json` and `datetime`: `loads` has no value for a text that is
-- not JSON, or holds a NaN or an infinity.
pub record Codec : Type 0 where
  pub sha256 : String → String
  pub canonical : Json → String
  pub loads : String → Option Json
  pub isoformat : Instant → String
  pub fromisoformat : String → Option Timestamp

-- GUARD_SNAPSHOT_SCHEMA
abbrev pub guard_snapshot_schema : String
guard_snapshot_schema = "s6-guard-snapshot/1"

-- RECORD_TABLES, each in sorted order
abbrev pub record_tables : ActionName → List String
record_tables ActionName.create_return =
    "after_sales_cases" ∷ "logistics" ∷ "order_items" ∷ "orders" ∷ []
record_tables ActionName.create_exchange =
    "after_sales_cases" ∷ "inventory" ∷ "logistics" ∷ "order_items" ∷ "orders" ∷ "sku_variants" ∷ []
record_tables ActionName.escalate_to_human = "human_handoff_tickets" ∷ "order_items" ∷ "orders" ∷ []

-- the versions of rows by their keys
unfoldable pub rows_value : List (String × ℕ) → Dict Json
rows_value [] = []
rows_value ((key, version) ∷ rows) = (key, integer (pos version)) ∷ rows_value rows

-- `{table: {pk: version for pk, version in rows} for table, rows in snapshot.records}`
unfoldable pub records_value : Versions → Dict Json
records_value [] = []
records_value ((table, rows) ∷ more) =
    (table, dict_value (rows_value (dict_of rows))) ∷ records_value more

abbrev pub flag_value : Option Bool → Json
flag_value none = null
flag_value (some b) = boolean b

abbrev pub count_value : Option ℕ → Json
count_value none = null
count_value (some n) = integer (pos n)

-- `[rule_type, list(items)]`
abbrev pub entry_value : PolicyRuleType → List String → Json
entry_value t refs = list_value (string (rule_type_text t) ∷ list_value (map string refs) ∷ [])

abbrev pub entry_values : PolicyRuleType → Option (List String) → List Json
entry_values t none = []
entry_values t (some refs) = entry_value t refs ∷ []

abbrev pub refs_value : Selected → List Json
refs_value s =
    entry_values PolicyRuleType.exchange_window s.exchange_window
    ++ (entry_values PolicyRuleType.handoff s.handoff
        ++ (entry_values PolicyRuleType.non_returnable s.non_returnable
            ++ entry_values PolicyRuleType.return_window s.return_window))

-- `to_record`
abbrev pub facts_value : GuardFacts → Dict Json
facts_value f =
    ("active_case_present", flag_value f.active_case_present)
    ∷ ("business_state_conflict", flag_value f.business_state_conflict)
    ∷ ("days_since_delivery", count_value f.days_since_delivery)
    ∷ ("delivery_established", flag_value f.delivery_established)
    ∷ ("handoff_routed", flag_value f.handoff_routed)
    ∷ ("inventory_available", flag_value f.inventory_available)
    ∷ ("inventory_sufficient", flag_value f.inventory_sufficient)
    ∷ ("item_returned_before", flag_value f.item_returned_before)
    ∷ ("non_returnable", flag_value f.non_returnable)
    ∷ ("open_ticket_present", flag_value f.open_ticket_present)
    ∷ ("order_status", elim f.order_status [ none ↦ null | some s ↦ string (order_status_text s) ])
    ∷ ("other_pending_present", flag_value f.other_pending_present)
    ∷ ("package_count", count_value f.package_count)
    ∷ ("selected_policy_refs", list_value (refs_value f.selected))
    ∷ ("variant_compatible", flag_value f.variant_compatible)
    ∷ ("within_window", flag_value f.within_window)
    ∷ []

abbrev pub decision_value : GuardDecision → Dict Json
decision_value d =
    ("decision", string (kind_text d.decision))
    ∷ ("facts", dict_value (facts_value d.facts))
    ∷ ("reason_code", string (reason_text d.reason_code))
    ∷ []

abbrev pub document_value : Codec → GuardSnapshot → GuardDecision → Dict Json
document_value codec s d =
    ("action_name", string (name_text s.action_name))
    ∷ ("action_spec_version", string s.action_spec_version)
    ∷ ("decision", dict_value (decision_value d))
    ∷ ("evaluated_at", string (codec.isoformat s.evaluated_at))
    ∷ ("policy_build_id", string s.policy_build_id)
    ∷ ("records", dict_value (records_value s.records))
    ∷ ("risk_policy_version", string s.risk_policy_version)
    ∷ ("schema", string guard_snapshot_schema)
    ∷ []

-- `snapshot_document`
unfoldable pub snapshot_document : Codec → GuardSnapshot → GuardDecision → String
snapshot_document codec s d = codec.canonical (dict_value (document_value codec s d))
