-- ===== src/GuardState/Isolation.antt =====
-- Whose records a capture holds (aftersales/guard_state.py): the templates select rows of the
-- trusted customer's order and of the action's item only, and every such row.
use mathlib.Core.Path.{subst}
use knowledge_agent.Prelude.{
  String, true, ◌&&◌, Option, none, some, List, [], ok, ◌≡◌, sym, In, In-filter, string_eq, eqb→eq,
  arith, All-In, ◌==◌, ap, ◌∙◌,
}
use knowledge_agent.Prelude.Sort.{In-sorted}
use knowledge_agent.Actions.{ActionName, ValidatedAction}
use knowledge_agent.Policy.{Instant}
use knowledge_agent.GuardState.{
  OrderRow, OrderItemRow, PackageRow, CaseRow, TicketRow, Rows, GuardState, state_of,
}
use knowledge_agent.GuardState.Cells.{PackageCells}
use knowledge_agent.GuardState.Templates.{select_logistics}
use knowledge_agent.GuardState.Reader.{Source, read_state}
use knowledge_agent.GuardState.Returns.{Mapped-from}
use knowledge_agent.GuardState.Decoders.{OfPackage}
use knowledge_agent.GuardState.Fetched.{PackagesOf, CasesOf, TicketsOf}
use knowledge_agent.GuardState.Captured.{read_state-IsCaptured, ItemOf, OrderOf, RestOf}
use knowledge_agent.GuardState.Selected.{Owned, order-Owned, joined-In}

-- What the captured state may hold of other customers, orders and items: nothing.
pub record IsIsolated (src : Source) (action : ValidatedAction) (state : GuardState) : Type 0 where
  pub order_owned :
      (o : OrderRow)
      → state.order ≡ some o
      → (o.order_id ≡ action.target_order_id)
        × Owned src.database src.customer_id action.target_order_id
  pub item_in_order :
      (i : OrderItemRow)
      → state.item ≡ some i
      → (i.order_item_id ≡ action.target_order_item_id) × (i.order_id ≡ action.target_order_id)
  pub packages_of_order :
      (p : PackageRow)
      → In p state.packages
      → (p.order_id ≡ action.target_order_id)
        × ((c : PackageCells) × In c src.database.logistics × OfPackage c p)
  pub cases_of_item :
      (c : CaseRow) → In c state.item_cases → c.order_item_id ≡ action.target_order_item_id
  pub tickets_of_item :
      (t : TicketRow) → In t state.tickets → t.order_item_id ≡ action.target_order_item_id

owned_package :
    (src : Source) (order_id : String) (ps : List PackageRow) (p : PackageRow)
    → PackagesOf src order_id ps
    → In p ps
    → (p.order_id ≡ order_id) × ((c : PackageCells) × In c src.database.logistics × OfPackage c p)
unfolding select_logistics
owned_package src order_id ps p h m =
    let (c, i, q) = Mapped-from (λ c p. OfPackage c p × (p.order_id ≡ order_id)) _ ps h.1 p m in
    (
      q.1,
      (
        c,
        (In-filter _ src.database.logistics c
            (joined-In _ src.customer_id src.database.orders _ c ((In-sorted _ _ c).0 i))).0,
        q.0,
      ),
    )

owned_case :
    (src : Source) (item_id : String) (cs : List CaseRow) (c : CaseRow)
    → CasesOf src item_id cs
    → In c cs
    → c.order_item_id ≡ item_id
owned_case src item_id cs c h m =
    eqb→eq c.order_item_id item_id
      (All-In (λ (c : CaseRow). (c.order_item_id == item_id) ≡ true) cs c h.2 m)

owned_ticket :
    (src : Source) (item_id trigger : String) (ts : List TicketRow) (t : TicketRow)
    → TicketsOf src item_id trigger ts
    → In t ts
    → t.order_item_id ≡ item_id
owned_ticket src item_id trigger ts t h m = eqb→eq t.order_item_id item_id (
    ground (
      arith,
      All-In
          (λ (t : TicketRow). (t.order_item_id == item_id && t.handoff_trigger == trigger) ≡ true)
          ts t h.2 m,
    ))

none_in : {A : Type 0} (xs : List A) (a : A) → xs ≡ [] → In a xs → ⊥
none_in xs a h m = rw h at m

-- The records of the item, by action.
abbrev RowsOf : Source → ValidatedAction → Rows → Type 0
RowsOf src action rows =
    ((p : PackageRow)
      → In p rows.packages
      → (p.order_id ≡ action.target_order_id)
        × ((c : PackageCells) × In c src.database.logistics × OfPackage c p))
    × ((c : CaseRow) → In c rows.cases → c.order_item_id ≡ action.target_order_item_id)
    × ((t : TicketRow) → In t rows.tickets → t.order_item_id ≡ action.target_order_item_id)

RestOf-RowsOf :
    (src : Source) (action : ValidatedAction) (item : OrderItemRow) (name : ActionName)
    (rows : Rows)
    → RestOf src action item name rows
    → RowsOf src action rows
RestOf-RowsOf src action item ActionName.create_return rows (p, c, q, t) = (
  λ r. owned_package src action.target_order_id rows.packages r p,
  λ r. owned_case src action.target_order_item_id rows.cases r c,
  λ r m. absurd (none_in rows.tickets r t m),
)
RestOf-RowsOf src action item ActionName.create_exchange rows (p, c, q, n, t) = (
  λ r. owned_package src action.target_order_id rows.packages r p,
  λ r. owned_case src action.target_order_item_id rows.cases r c,
  λ r m. absurd (none_in rows.tickets r t m),
)
RestOf-RowsOf src action item ActionName.escalate_to_human rows (trigger, e, t, p, c) = (
  λ r m. absurd (none_in rows.packages r p m),
  λ r m. absurd (none_in rows.cases r c m),
  λ r. owned_ticket src action.target_order_item_id trigger rows.tickets r t,
)

no_rows-RowsOf :
    (src : Source) (action : ValidatedAction) (rows : Rows)
    → rows.packages ≡ []
    → rows.cases ≡ []
    → rows.tickets ≡ []
    → RowsOf src action rows
no_rows-RowsOf src action rows p c t = (
  λ r m. absurd (none_in rows.packages r p m),
  λ r m. absurd (none_in rows.cases r c m),
  λ r m. absurd (none_in rows.tickets r t m),
)

ItemOf-RowsOf :
    (src : Source) (action : ValidatedAction) (o : Option OrderItemRow) (rows : Rows)
    → ItemOf src action o rows
    → RowsOf src action rows
ItemOf-RowsOf src action none rows (h, e) =
    no_rows-RowsOf src action rows (ap (λ (r : Rows). r.packages) e) (ap (λ (r : Rows). r.cases) e)
      (ap (λ (r : Rows). r.tickets) e)
ItemOf-RowsOf src action (some item) rows (c, i, o, h) =
    RestOf-RowsOf src action item action.action_name rows h

OrderOf-RowsOf :
    (src : Source) (action : ValidatedAction) (o : Option OrderRow) (rows : Rows)
    → OrderOf src action o rows
    → RowsOf src action rows
OrderOf-RowsOf src action none rows (h, e) =
    no_rows-RowsOf src action rows (ap (λ (r : Rows). r.packages) e) (ap (λ (r : Rows). r.cases) e)
      (ap (λ (r : Rows). r.tickets) e)
OrderOf-RowsOf src action (some order) rows (c, i, a, h) = ItemOf-RowsOf src action rows.item rows h

pub order-owned :
    (src : Source) (action : ValidatedAction) (o : Option OrderRow) (rows : Rows) (order : OrderRow)
    → OrderOf src action o rows
    → o ≡ some order
    → (order.order_id ≡ action.target_order_id)
      × Owned src.database src.customer_id action.target_order_id
order-owned src action none rows order h e = absurd (go e)
  where
    go : none ≡ some order → ⊥
    go e = cc
order-owned src action (some first) rows order ((cells, s, d), i, a, h) e =
    let q : first ≡ order = cc in
    (
      subst (λ (o : OrderRow). o.order_id ≡ action.target_order_id) q i,
      order-Owned src.database src.customer_id action.target_order_id cells s,
    )

pub item_in-order :
    (src : Source) (action : ValidatedAction) (o : Option OrderItemRow) (rows : Rows)
    (item : OrderItemRow)
    → ItemOf src action o rows
    → o ≡ some item
    → (item.order_item_id ≡ action.target_order_item_id)
      × (item.order_id ≡ action.target_order_id)
      × RestOf src action item action.action_name rows
item_in-order src action none rows item h e = absurd (go e)
  where
    go : none ≡ some item → ⊥
    go e = cc
item_in-order src action (some first) rows item (c, i, o, h) e =
    let q : first ≡ item = cc in
    subst
      (λ (x : OrderItemRow).
        (x.order_item_id ≡ action.target_order_item_id)
        × (x.order_id ≡ action.target_order_id)
        × RestOf src action x action.action_name rows)
      q (i, o, h)

-- the item of a captured order
pub captured_item :
    (src : Source) (action : ValidatedAction) (o : Option OrderRow) (rows : Rows)
    (item : OrderItemRow)
    → OrderOf src action o rows
    → rows.item ≡ some item
    → (item.order_item_id ≡ action.target_order_item_id)
      × (item.order_id ≡ action.target_order_id)
      × RestOf src action item action.action_name rows
captured_item src action none rows item (h, n) e =
    absurd (go (sym (ap (λ (r : Rows). r.item) n) ∙ e))
  where
    go : none ≡ some item → ⊥
    go e = cc
captured_item src action (some order) rows item (c, i, a, h) e =
    item_in-order src action rows.item rows item h e

-- A state that the reader returns is of the trusted customer's own order: an order that it holds is
-- the action's target and stored for that customer, an item is the target item of that order, every
-- package is stored for that order, and every case and every ticket is of the target item.
pub read_state-IsIsolated :
    (src : Source) (action : ValidatedAction) (at : Instant) (state : GuardState)
    → read_state src action at ≡ ok state
    → IsIsolated src action state
unfolding state_of
read_state-IsIsolated src action at state h =
    let (rows, e, c) = read_state-IsCaptured src action at state h in
    let r = OrderOf-RowsOf src action rows.order rows c.1 in
    subst (IsIsolated src action) (sym e) (record {
      order_owned = λ o q. order-owned src action rows.order rows o c.1 q;
      item_in_order = λ i q. let k = captured_item src action rows.order rows i c.1 q in (k.0, k.1);
      packages_of_order = r.0;
      cases_of_item = r.1;
      tickets_of_item = r.2;
    })
