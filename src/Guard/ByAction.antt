-- ===== src/Guard/ByAction.antt =====
-- The checks of aftersales/guard.py that depend on the action, and the whole matrix.
use knowledge_agent.Prelude.{
  ◌≤◌, ◌<◌, String, Bool, true, false, not, ◌||◌, Option, none, some, List, [], ◌∷◌, ok, is_empty,
  is_none, ◌≡◌, ◌≢◌, ◌⊎◌, inl, inr, refl, arith, ◌==◌, string_eq, eqb→eq, eqb_refl, if◌then◌else◌,
}
use knowledge_agent.Prelude.Dict.{lookup}
use knowledge_agent.Actions.{ActionName, ValidatedAction}
use knowledge_agent.Policy.{Instant, PolicyRuleType, PolicyRecord}
use knowledge_agent.Policy.Catalog.{select_policies}
use knowledge_agent.Policy.Tiers.{Top}
use knowledge_agent.Derived.{derive_inventory_available}
use knowledge_agent.GuardState.{GuardState, OrderRow, OrderItemRow, InventoryRow}
use knowledge_agent.Guard.Types.{ReasonCode}
use knowledge_agent.Guard.Decide.{
  check_handoff, evidence, check_returnable, compatible, check_target, first_rule, check_window,
  in_stock, check_inventory, check_kind, check_after_sales,
}
use knowledge_agent.Guard.Logic.{
  Shows, bind_shows, pure_shows, deny_if_shows, deny_shows, fail_shows, expect_shows, derived_shows,
  record_shows, deny_if_then, weaken_shows,
}
use knowledge_agent.Guard.Rules.{selected-Top, selected_none, selected_some, selected_nothing}
use knowledge_agent.Guard.Cause.{
  window_kind, DeliveredOnce, NonReturnable, ClosedWindow, OpenWindow, AfterSales, Target, Entitled,
}
use knowledge_agent.Guard.Matrix.{
  D, Undisputed, select_rules-shows, check_handoff-shows, check_conflict-shows,
  check_delivery-shows, check_cases-shows, check_routing-shows,
}
use knowledge_agent.Guard.Decide.{refs, closed_reason, check_action, is_handoff}

module _ (action : ValidatedAction) (state : GuardState) (records : List PolicyRecord)
    (now : Instant) (order : OrderRow) (item : OrderItemRow) where
  abbrev C : ReasonCode → Type 0
  C = D action state records now order item

  check_returnable-shows :
      Shows C
        (check_returnable item records now)
        (λ _. ¬ (NonReturnable action state records now item))
  unfolding check_returnable
  check_returnable-shows =
      bind_shows
        (select_rules-shows action state records now order item records
          PolicyRuleType.non_returnable (λ r m. m))
        λ rules h.
          record_shows
            (λ f. record f { selected = record f.selected { non_returnable = some (refs rules) } })
            (record_shows (λ f. record f { non_returnable = some (not (is_empty rules)) })
              (weaken_shows
                (deny_if_shows _ _ (λ n.
                  selected_some records now PolicyRuleType.non_returnable item.category rules h n))
                (λ _ n (r, a).
                  selected_nothing records now PolicyRuleType.non_returnable item.category rules h n
                    r a)))

  first_rule-shows :
      (k : PolicyRuleType) (rules : List PolicyRecord)
      → k ≡ window_kind action.action_name
      → select_policies records now k (some item.category) ≡ ok rules
      → Shows C (first_rule rules) (λ r. Top records now k (some item.category) r)
  first_rule-shows k [] q h =
      deny_shows ReasonCode.no_applicable_policy
        (selected_none records now _ item.category (rw q at h))
  first_rule-shows k (r ∷ rs) q h =
      pure_shows (selected-Top records now k item.category (r ∷ rs) r h (inl refl))

  closed-C :
      (k : PolicyRuleType)
      → k ≡ window_kind action.action_name
      → ClosedWindow action state records now k item
      → C (closed_reason k)
  closed-C k q h = go action.action_name q
    where
      go : (n : ActionName) → k ≡ window_kind n → C (closed_reason k)
      go ActionName.create_return q = rw q (rw q at h)
      go ActionName.create_exchange q = rw q (rw q at h)
      go ActionName.escalate_to_human q = rw q (rw q at h)

  check_window-shows :
      (k : PolicyRuleType)
      → k ≡ window_kind action.action_name
      → Shows C
          (check_window k state item records now)
          (λ _. OpenWindow action state records now k item)
  unfolding check_window
  check_window-shows k q =
      bind_shows (select_rules-shows action state records now order item records k (λ r m. m))
        λ rules h. record_shows _ (
          bind_shows (first_rule-shows k rules q h) λ rule top.
            bind_shows (derived_shows _) λ window derived_as. record_shows _ (
              weaken_shows
                (deny_if_shows _ _
                  (λ n. closed-C k q (window, (rule, top, derived_as), closed window.within n)))
                (λ _ n. (window, (rule, top, derived_as), opened window.within n))))
    where
      closed : (b : Bool) → not b ≡ true → b ≡ false
      closed b h = ground arith

      opened : (b : Bool) → not b ≡ false → b ≡ true
      opened b h = ground arith

  abbrev Stocked : Type 0
  Stocked =
      (row : InventoryRow) × (state.target_inventory ≡ some row)
      × (item.quantity ≤ row.available_qty)

  check_inventory-shows : Shows C (check_inventory state item now) (λ _. Stocked)
  unfolding check_inventory
  check_inventory-shows =
      bind_shows
        (derived_shows
          (evidence state.evidence.available_qty (λ e. derive_inventory_available e now)))
        λ available derived_as.
          record_shows (λ f. record f { inventory_available = some available })
            (bind_shows (expect_shows (in_stock state.target_inventory item.quantity)) λ enough h.
              record_shows (λ f. record f { inventory_sufficient = some enough })
                (weaken_shows
                  (deny_if_shows (not enough) ReasonCode.inventory_unavailable
                    (λ n. short state.target_inventory refl enough h n))
                  (λ _ n. stocked state.target_inventory refl enough h n)))
    where
      short :
          (o : Option InventoryRow)
          → state.target_inventory ≡ o
          → (b : Bool) → in_stock o item.quantity ≡ some b
          → not b ≡ true
          → (row : InventoryRow) × (state.target_inventory ≡ some row)
            × (row.available_qty < item.quantity)
      short none e b h n = absurd (stuck b h)
        where
          stuck : (b : Bool) → none ≡ some b → ⊥
          stuck b h = cc
      short (some row) e b h n = (row, e, ground arith)

      stocked :
          (o : Option InventoryRow)
          → state.target_inventory ≡ o
          → (b : Bool) → in_stock o item.quantity ≡ some b
          → not b ≡ false
          → Stocked
      stocked none e b h n = absurd (stuck b h)
        where
          stuck : (b : Bool) → none ≡ some b → ⊥
          stuck b h = cc
      stocked (some row) e b h n = (row, e, ground arith)

  check_target-shows : Shows C (check_target action state item) (λ _.
      (sku : String) × (lookup "target_sku" action.args ≡ some sku)
      × (sku ≢ item.sku)
      × (compatible state.variants item.sku sku ≡ true))
  unfolding check_target
  check_target-shows = bind_shows (expect_shows (lookup "target_sku" action.args)) λ sku asked.
      deny_if_then (sku == item.sku || is_none state.target_inventory) _
        (λ h. (sku, asked, invalid sku state.target_inventory h))
        λ h.
          record_shows
            (λ f. record f { variant_compatible = some (compatible state.variants item.sku sku) })
            (weaken_shows
              (deny_if_shows (not (compatible state.variants item.sku sku))
                ReasonCode.exchange_target_incompatible
                (λ n. (sku, asked, no (compatible state.variants item.sku sku) n)))
              (λ _ n. (
                sku,
                asked,
                other sku (is_none state.target_inventory) h,
                yes (compatible state.variants item.sku sku) n,
              )))
    where
      no : (b : Bool) → not b ≡ true → b ≡ false
      no b h = ground arith

      yes : (b : Bool) → not b ≡ false → b ≡ true
      yes b h = ground arith

      invalid :
          (sku : String) (o : Option InventoryRow)
          → (sku == item.sku || is_none o) ≡ true
          → (sku ≡ item.sku) ⊎ (o ≡ none)
      invalid sku none h = inr refl
      invalid sku (some row) h = inl (eqb→eq sku item.sku (ground arith))

      other : (sku : String) (b : Bool) → (sku == item.sku || b) ≡ false → sku ≢ item.sku
      other sku b h q = differ (sku == item.sku) b h (rw q (eqb_refl item.sku))
        where
          differ : (a b : Bool) → (a || b) ≡ false → a ≡ true → ⊥
          differ a b h e = ground arith

  abbrev ForKind : ActionName → Type 0
  ForKind ActionName.create_return =
      ¬ (NonReturnable action state records now item)
      × OpenWindow action state records now PolicyRuleType.return_window item
  ForKind ActionName.create_exchange =
      Target action state records now item
      × OpenWindow action state records now PolicyRuleType.exchange_window item
  ForKind ActionName.escalate_to_human = ⊥

  check_kind-shows :
      (n : ActionName)
      → action.action_name ≡ n
      → Shows C (check_kind action state item records now n) (λ _. ForKind n)
  unfolding check_kind
  check_kind-shows ActionName.create_return e = bind_shows check_returnable-shows λ _ returnable.
      weaken_shows (check_window-shows PolicyRuleType.return_window (rw e refl))
        (λ _ w. (returnable, w))
  check_kind-shows ActionName.create_exchange e =
      bind_shows check_target-shows λ _ (sku, asked, another, same_group).
        bind_shows (check_window-shows PolicyRuleType.exchange_window (rw e refl)) λ _ w.
          weaken_shows check_inventory-shows (λ _ (row, stocked, enough). (
            record {
              sku = sku;
              asked = asked;
              another = another;
              same_group = same_group;
              row = row;
              stocked = stocked;
              enough = enough;
            },
            w,
          ))
  check_kind-shows ActionName.escalate_to_human e = fail_shows _

  undisputed-of :
      (is_empty state.packages ≡ true) ⊎ Undisputed action state records now order item
      → DeliveredOnce state.packages now
      → Undisputed action state records now order item
  undisputed-of (inr u) d = u
  undisputed-of (inl e) d = absurd (stuck (rw d.only at e))
    where
      stuck : false ≡ true → ⊥
      stuck h = cc

  check_after_sales-shows :
      Shows C
        (check_after_sales action state order item records now)
        (λ _. AfterSales action state records now order item × ForKind action.action_name)
  unfolding check_after_sales
  check_after_sales-shows = record_shows _ (
      bind_shows (check_conflict-shows action state records now order item) λ _ conflict.
        bind_shows (check_delivery-shows action state records now order item)
          λ _ (live, sent, once).
            bind_shows (check_cases-shows action state records now order item)
              λ _ (active, returned, pending).
                bind_shows (check_routing-shows action state records now order item) λ _ routing.
                  weaken_shows (check_kind-shows action.action_name refl) (λ _ k. (
                    record {
                      undisputed = undisputed-of conflict once;
                      not_cancelled = live;
                      not_undelivered = sent;
                      delivered_once = once;
                      no_active_case = active;
                      no_return = returned;
                      no_pending = pending;
                      not_routed = routing;
                    },
                    k,
                  )))

  pub check_action-shows :
      Shows C
        (check_action action state order item records now)
        (λ _. Entitled action state records now order item action.action_name)
  check_action-shows =
      go action.action_name check_after_sales-shows
        (check_handoff-shows action state records now order item)
    where
      go :
          (n : ActionName)
          → Shows C
              (check_after_sales action state order item records now)
              (λ _. AfterSales action state records now order item × ForKind n)
          → Shows C
              (check_handoff action state item records now)
              (λ _. Entitled action state records now order item ActionName.escalate_to_human)
          → Shows C
              (if is_handoff n
                then check_handoff action state item records now
                else check_after_sales action state order item records now)
              (λ _. Entitled action state records now order item n)
      go ActionName.create_return h k = weaken_shows h (λ _ (a, k). (a, k.0, k.1))
      go ActionName.create_exchange h k = weaken_shows h (λ _ (a, k). (a, k.0, k.1))
      go ActionName.escalate_to_human h k = k
