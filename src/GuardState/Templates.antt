-- ===== src/GuardState/Templates.antt =====
-- aftersales/guard_state.py: the query templates R1 to R8 as filters over the rows of the tables.
use knowledge_agent.Prelude.{
  String, Bool, true, false, not, ◌&&◌, ◌||◌, Option, none, some, List, [], ◌∷◌, if◌then◌else◌,
  ◌==◌, string_eq, any, filter, text_leb,
}
use knowledge_agent.Prelude.Int.{leb_ℤ}
use knowledge_agent.Prelude.Sort.{sorted}
use knowledge_agent.GuardState.Cells.{
  Cell, null, integer, string, OrderCells, OrderItemCells, PackageCells, CaseCells, InventoryCells,
  VariantCells, TicketCells, PendingCells,
}

-- The tables that the templates read.
pub record Database : Type 0 where
  pub orders : List OrderCells
  pub order_items : List OrderItemCells
  pub logistics : List PackageCells
  pub after_sales_cases : List CaseCells
  pub inventory : List InventoryCells
  pub sku_variants : List VariantCells
  pub human_handoff_tickets : List TicketCells
  pub pending_actions : List PendingCells

-- `column = ?` for a text; NULL equals nothing
abbrev pub cell_is : Cell → String → Bool
cell_is (string s) t = s == t
cell_is _ t = false

-- `column = column`, of two texts
abbrev pub same_cell : Cell → Cell → Bool
same_cell (string s) c = cell_is c s
same_cell _ c = false

-- ORDER BY: NULL before numbers before texts
abbrev pub cell_leb : Cell → Cell → Bool
cell_leb null d = true
cell_leb c null = false
cell_leb (integer a) (integer b) = leb_ℤ a b
cell_leb (integer a) d = true
cell_leb c (integer b) = false
cell_leb (string s) (string t) = text_leb s t
cell_leb (string s) d = true
cell_leb c (string t) = false
cell_leb c d = true

-- the orders of a customer, by id: R1 and the join of R2 and R3
abbrev pub owned : String → String → OrderCells → Bool
owned customer order_id row = cell_is row.customer_id customer && cell_is row.order_id order_id

abbrev pub joins : String → Cell → OrderCells → Bool
joins customer order_id row = cell_is row.customer_id customer && same_cell row.order_id order_id

unfoldable pub select_order : Database → String → String → List OrderCells
select_order db customer order_id = filter (owned customer order_id) db.orders

-- One row per joined order, as a join gives; `order_id` is the key of the orders.
unfoldable pub joined : {A : Type 0} → (A → Cell) → String → List OrderCells → List A → List A
joined link customer orders [] = []
joined link customer orders (a ∷ more) =
    let rest = joined link customer orders more in
    if any (joins customer (link a)) orders then a ∷ rest else rest

unfoldable pub select_item : Database → String → String → String → List OrderItemCells
select_item db customer order_id item_id =
    joined (λ (i : OrderItemCells). i.order_id) customer db.orders
      (filter
        (λ (i : OrderItemCells). cell_is i.order_id order_id && cell_is i.order_item_id item_id)
        db.order_items)

unfoldable pub select_logistics : Database → String → String → List PackageCells
select_logistics db customer order_id =
    sorted (λ (a b : PackageCells). cell_leb a.tracking_no b.tracking_no)
      (joined (λ (l : PackageCells). l.order_id) customer db.orders
        (filter (λ (l : PackageCells). cell_is l.order_id order_id) db.logistics))

unfoldable pub select_cases : Database → String → List CaseCells
select_cases db item_id =
    sorted (λ (a b : CaseCells). cell_leb a.case_id b.case_id)
      (filter (λ (c : CaseCells). cell_is c.order_item_id item_id) db.after_sales_cases)

unfoldable pub select_inventory : Database → String → List InventoryCells
select_inventory db target = filter (λ (v : InventoryCells). cell_is v.sku target) db.inventory

unfoldable pub select_variants : Database → String → String → List VariantCells
select_variants db sku target =
    sorted (λ (a b : VariantCells). cell_leb a.sku b.sku)
      (filter (λ (s : VariantCells). cell_is s.sku sku || cell_is s.sku target) db.sku_variants)

unfoldable pub select_tickets : Database → String → String → List TicketCells
select_tickets db item_id trigger =
    sorted (λ (a b : TicketCells). cell_leb a.ticket_id b.ticket_id)
      (filter
        (λ (t : TicketCells). cell_is t.order_item_id item_id && cell_is t.handoff_trigger trigger)
        db.human_handoff_tickets)

-- `? IS NULL OR p.pending_action_id <> ?`; a NULL id is unlike nothing
abbrev pub not_excluded : Option String → Cell → Bool
not_excluded none c = true
not_excluded (some id) (string s) = not (s == id)
not_excluded (some id) null = false
not_excluded (some id) c = true

unfoldable pub selects_pending : String → Option String → PendingCells → Bool
selects_pending item_id exclude p =
    cell_is p.target_order_item_id item_id
    && (cell_is p.status "PENDING_APPROVAL" || cell_is p.status "APPROVED")
    && not_excluded exclude p.pending_action_id

unfoldable pub select_pendings : Database → String → Option String → List PendingCells
select_pendings db item_id exclude =
    sorted (λ (a b : PendingCells). cell_leb a.pending_action_id b.pending_action_id)
      (filter (selects_pending item_id exclude) db.pending_actions)
