-- ===== src/GuardState/Captured.antt =====
-- What one pass of the reader has captured (aftersales/guard_state.py, GuardStateReader._read).
use mathlib.Core.Path.{subst}
use knowledge_agent.Prelude.{
  String, Option, none, some, [], ◌∷◌, Result, ok, err, ◌≡◌, refl, sym, string_eq, eqb→eq, arith,
}
use knowledge_agent.Prelude.Dict.{lookup}
use knowledge_agent.Schema.{FailureCode}
use knowledge_agent.Policy.{Instant}
use knowledge_agent.Actions.{ActionName, ValidatedAction}
use knowledge_agent.GuardState.{OrderRow, OrderItemRow, Rows, no_rows, GuardState, state_of}
use knowledge_agent.GuardState.Cells.{
  Read, reads, state_malformed, ReadName, OrderCells, OrderItemCells, timestamp_cell,
}
use knowledge_agent.GuardState.Templates.{select_order, select_item}
use knowledge_agent.GuardState.Reader.{
  Source, read_rest, read_item, read_order, read_rows, read_state, captured, guard_failure,
  null_item, null_order,
}
use knowledge_agent.GuardState.Returns.{
  Returns, One, ok-Returns, bind-Returns, weaken-Returns, after-Returns, require-Returns,
  or_raise-Returns, fetch-Returns, single-Returns, Fetched-One,
}
use knowledge_agent.GuardState.Decoders.{
  OfOrder, OfItem, null_not_text, decode_order-OfOrder, decode_item-OfItem,
}
use knowledge_agent.GuardState.Fetched.{
  PackagesOf, CasesOf, PendingsOf, InventoryOf, VariantsOf, TicketsOf, read_packages-PackagesOf,
  read_cases-CasesOf, read_pendings-PendingsOf, read_inventory-InventoryOf,
  read_variants-VariantsOf, read_tickets-TicketsOf,
}

-- What is captured after the order item, by action.
abbrev pub RestOf : Source → ValidatedAction → OrderItemRow → ActionName → Rows → Type 0
RestOf src action item ActionName.create_return rows =
    PackagesOf src action.target_order_id rows.packages
    × CasesOf src action.target_order_item_id rows.cases
    × PendingsOf src action.target_order_item_id rows.pendings
    × (rows.tickets ≡ [])
RestOf src action item ActionName.create_exchange rows =
    PackagesOf src action.target_order_id rows.packages
    × CasesOf src action.target_order_item_id rows.cases
    × PendingsOf src action.target_order_item_id rows.pendings
    × ((target : String) × (lookup "target_sku" action.args ≡ some target)
        × InventoryOf src target rows.inventory
        × VariantsOf src item.sku target rows.variants)
    × (rows.tickets ≡ [])
RestOf src action item ActionName.escalate_to_human rows =
    (trigger : String) × (lookup "handoff_trigger" action.args ≡ some trigger)
    × TicketsOf src action.target_order_item_id trigger rows.tickets
    × (rows.packages ≡ [])
    × (rows.cases ≡ [])

abbrev with_item : OrderRow → OrderItemRow → Rows
with_item order item = record no_rows { order = some order; item = some item }

abbrev WithRest : Source → ValidatedAction → OrderRow → OrderItemRow → ActionName → Rows → Type 0
WithRest src action order item name rows =
    (rows.order ≡ some order) × (rows.item ≡ some item) × RestOf src action item name rows

read_rest-RestOf :
    (src : Source) (action : ValidatedAction) (order : OrderRow) (item : OrderItemRow)
    (name : ActionName)
    → Returns
        (WithRest src action order item name)
        (read_rest src action item name (with_item order item))
unfolding read_rest
read_rest-RestOf src action order item ActionName.create_return =
    bind-Returns (read_packages-PackagesOf src action.target_order_id) (λ ps p.
      bind-Returns (read_cases-CasesOf src action.target_order_item_id) (λ cs c.
        bind-Returns (read_pendings-PendingsOf src action.target_order_item_id)
          (λ qs q. ok-Returns (refl, refl, (p, c, q, refl)))))
read_rest-RestOf src action order item ActionName.create_exchange =
    bind-Returns (read_packages-PackagesOf src action.target_order_id) (λ ps p.
      bind-Returns (read_cases-CasesOf src action.target_order_item_id) (λ cs c.
        bind-Returns (read_pendings-PendingsOf src action.target_order_item_id) (λ qs q.
          or_raise-Returns (lookup "target_sku" action.args) state_malformed (λ target t.
            bind-Returns (read_inventory-InventoryOf src target) (λ i n.
              bind-Returns (read_variants-VariantsOf src item.sku target)
                (λ vs v. ok-Returns (refl, refl, (p, c, q, (target, t, n, v), refl))))))))
read_rest-RestOf src action order item ActionName.escalate_to_human =
    or_raise-Returns (lookup "handoff_trigger" action.args) state_malformed (λ trigger t.
      bind-Returns (read_tickets-TicketsOf src action.target_order_item_id trigger)
        (λ ts h. ok-Returns (refl, refl, (trigger, t, h, refl, refl))))

abbrev pub ItemOf : Source → ValidatedAction → Option OrderItemRow → Rows → Type 0
ItemOf src action none rows =
    (select_item src.database src.customer_id action.target_order_id action.target_order_item_id
      ≡ [])
    × (rows ≡ record no_rows { order = rows.order })
ItemOf src action (some item) rows =
    ((cells : OrderItemCells) × (select_item src.database src.customer_id action.target_order_id
          action.target_order_item_id
        ≡ cells ∷ [])
      × OfItem cells item)
    × (item.order_item_id ≡ action.target_order_item_id)
    × (item.order_id ≡ action.target_order_id)
    × RestOf src action item action.action_name rows

abbrev pub OrderOf : Source → ValidatedAction → Option OrderRow → Rows → Type 0
OrderOf src action none rows =
    (select_order src.database src.customer_id action.target_order_id ≡ []) × (rows ≡ no_rows)
OrderOf src action (some order) rows =
    ((cells : OrderCells) × (select_order src.database src.customer_id action.target_order_id
        ≡ cells ∷ [])
      × OfOrder cells order)
    × (order.order_id ≡ action.target_order_id)
    × (src.answer ReadName.order_item ≡ reads)
    × ItemOf src action rows.item rows

-- The captured rows are what the templates select, and every template that was asked has answered.
abbrev pub IsCaptured : Source → ValidatedAction → Rows → Type 0
IsCaptured src action rows =
    (src.answer ReadName.order ≡ reads) × OrderOf src action rows.order rows

read_item-ItemOf :
    (src : Source) (action : ValidatedAction) (order : OrderRow)
    (o : Option (OrderItemCells × OrderItemRow))
    → One OfItem
        (select_item src.database src.customer_id action.target_order_id
          action.target_order_item_id)
        o
    → Returns
        (λ rows. (rows.order ≡ some order) × ItemOf src action rows.item rows)
        (read_item src action order o)
unfolding read_item
read_item-ItemOf src action order none h = ok-Returns (refl, (h, refl))
read_item-ItemOf src action order (some (cells, item)) h = require-Returns _ state_malformed (λ e.
    after-Returns (timestamp_cell src.fromisoformat cells.updated_at) (λ u.
      weaken-Returns (read_rest-RestOf src action order item action.action_name) (λ rows w. (
        w.0,
        subst (λ o. ItemOf src action o rows) (sym w.1)
            (
              (cells, h.0, h.1),
              eqb→eq item.order_item_id action.target_order_item_id (ground (arith, e)),
              eqb→eq item.order_id action.target_order_id (ground (arith, e)),
              w.2,
            ),
      ))))

read_order-OrderOf :
    (src : Source) (action : ValidatedAction) (o : Option (OrderCells × OrderRow))
    → One OfOrder (select_order src.database src.customer_id action.target_order_id) o
    → Returns (λ rows. OrderOf src action rows.order rows) (read_order src action o)
unfolding read_order
read_order-OrderOf src action none h = ok-Returns (h, refl)
read_order-OrderOf src action (some (cells, order)) h = require-Returns _ state_malformed (λ e.
    after-Returns (timestamp_cell src.fromisoformat cells.updated_at) (λ u.
      bind-Returns (fetch-Returns _ _ _) (λ found f.
        bind-Returns (single-Returns decode_item-OfItem found) (λ o g.
          let (a, m) =
            Fetched-One OfItem (src.answer ReadName.order_item) null_item
              (select_item src.database src.customer_id action.target_order_id
                action.target_order_item_id)
              found o (λ b q. null_not_text b.order_item_id q.0) f g in
          weaken-Returns (read_item-ItemOf src action order o m) (λ rows w.
            subst (λ o. OrderOf src action o rows) (sym w.0)
              ((cells, h.0, h.1), eqb→eq order.order_id action.target_order_id e, a, w.1))))))

read_rows-IsCaptured :
    (src : Source) (action : ValidatedAction)
    → Returns (IsCaptured src action) (read_rows src action)
unfolding read_rows
read_rows-IsCaptured src action = bind-Returns (fetch-Returns _ _ _) (λ found f.
    bind-Returns (single-Returns decode_order-OfOrder found) (λ o g.
      let (a, m) =
        Fetched-One OfOrder (src.answer ReadName.order) null_order
          (select_order src.database src.customer_id action.target_order_id) found o
          (λ b q. null_not_text b.order_id q.0) f g in
      weaken-Returns (read_order-OrderOf src action o m) (λ rows w. (a, w))))

-- A state that the reader returns is made of rows that it captured.
pub read_state-IsCaptured :
    (src : Source) (action : ValidatedAction) (at : Instant) (state : GuardState)
    → read_state src action at ≡ ok state
    → (rows : Rows) × (state ≡ state_of action.action_name at rows) × IsCaptured src action rows
unfolding read_state
read_state-IsCaptured src action at state h = go (read_rows src action) refl h
  where
    returned :
        (rows : Rows)
        → captured action.action_name at (ok rows) ≡ ok state
        → state ≡ state_of action.action_name at rows
    returned rows h =
        let q : ◌≡◌ {A = Result FailureCode GuardState} (ok (state_of action.action_name at rows))
            (ok state) =
          h in
        cc

    refused : (c : FailureCode) → ◌≡◌ {A = Result FailureCode GuardState} (err c) (ok state) → ⊥
    refused c h = cc

    go :
        (m : Read Rows)
        → read_rows src action ≡ m
        → captured action.action_name at m ≡ ok state
        → (rows : Rows) × (state ≡ state_of action.action_name at rows) × IsCaptured src action rows
    go (ok rows) e h = (
      rows,
      returned rows h,
      (subst (Returns (IsCaptured src action)) e (read_rows-IsCaptured src action)).returned,
    )
    go (err e) q h = absurd (refused (guard_failure e) h)
