-- ===== src/Snapshot/Records.antt =====
-- The record tables of a persisted Guard snapshot (aftersales/guard_snapshot.py): what is written of
-- them is read back.
use knowledge_agent.Prelude.{
  ℕ, String, ◌∷◌, List, [], ok, ◌≡◌, refl, All, all, member, string_eq, text_leb,
}
use knowledge_agent.Prelude.Dict.{lookup, keys, same_set, subset}
use knowledge_agent.Prelude.Sort.{sorted, insert}
use knowledge_agent.Actions.{ActionName}
use knowledge_agent.GuardState.{Rows, versions_of}
use knowledge_agent.Snapshot.Json.{dict_value, entries_of, to_entries}
use knowledge_agent.Snapshot.Document.{records_value}
use knowledge_agent.Snapshot.Parser.{parse_records, parse_tables}
use knowledge_agent.Snapshot.Rows.{IsVersioned, parse_tables-next}

-- Every table of the records has versioned rows.
abbrev pub AllVersioned : ActionName → Rows → Type 0
AllVersioned name r = All (λ (t : String × List (String × ℕ)). IsVersioned t.1) (versions_of name r)

pub parse_records-records_value :
    (name : ActionName) (r : Rows)
    → AllVersioned name r
    → parse_records name (dict_value (records_value (versions_of name r))) ≡ ok (versions_of name r)
unfolding parse_records versions_of records_value to_entries entries_of keys same_set subset all
    member sorted insert text_leb lookup parse_tables
parse_records-records_value ActionName.create_return r h =
    let d = records_value (versions_of ActionName.create_return r) in
    parse_tables-next "after_sales_cases" ("logistics" ∷ "order_items" ∷ "orders" ∷ []) d _ _ refl
      h.0
      (parse_tables-next "logistics" ("order_items" ∷ "orders" ∷ []) d _ _ refl h.1.0 (
        parse_tables-next "order_items" ("orders" ∷ []) d _ _ refl h.1.1.0
          (parse_tables-next "orders" [] d _ _ refl h.1.1.1.0 refl)))
parse_records-records_value ActionName.create_exchange r h =
    let d = records_value (versions_of ActionName.create_exchange r) in
    parse_tables-next "after_sales_cases"
      ("inventory" ∷ "logistics" ∷ "order_items" ∷ "orders" ∷ "sku_variants" ∷ []) d _ _ refl h.0
      (parse_tables-next "inventory" ("logistics" ∷ "order_items" ∷ "orders" ∷ "sku_variants" ∷ [])
        d _ _ refl h.1.0
        (parse_tables-next "logistics" ("order_items" ∷ "orders" ∷ "sku_variants" ∷ []) d _ _ refl
          h.1.1.0
          (parse_tables-next "order_items" ("orders" ∷ "sku_variants" ∷ []) d _ _ refl h.1.1.1.0 (
            parse_tables-next "orders" ("sku_variants" ∷ []) d _ _ refl h.1.1.1.1.0
              (parse_tables-next "sku_variants" [] d _ _ refl h.1.1.1.1.1.0 refl)))))
parse_records-records_value ActionName.escalate_to_human r h =
    let d = records_value (versions_of ActionName.escalate_to_human r) in
    parse_tables-next "human_handoff_tickets" ("order_items" ∷ "orders" ∷ []) d _ _ refl h.0 (
      parse_tables-next "order_items" ("orders" ∷ []) d _ _ refl h.1.0
        (parse_tables-next "orders" [] d _ _ refl h.1.1.0 refl))
