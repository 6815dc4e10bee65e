-- ===== src/GuardState/Decoders.antt =====
-- What the row decoders establish (aftersales/guard_state.py): the ids and states of the result are
-- those of the row, and its version is at least one.
use knowledge_agent.Prelude.{ℕ, String, Option, some, ◌≡◌, ◌≤◌, string_eq}
use knowledge_agent.Prelude.Int.{pos}
use knowledge_agent.Schema.{
  order_status, logistics_status, case_type, case_status, ticket_status, pending_status,
}
use knowledge_agent.GuardState.{
  OrderRow, OrderItemRow, PackageRow, CaseRow, InventoryRow, VariantRow, TicketRow, PendingRow,
}
use knowledge_agent.GuardState.Cells.{
  Cell, null, string, integer, Timestamp, OrderCells, OrderItemCells, PackageCells, CaseCells,
  InventoryCells, VariantCells, TicketCells, PendingCells, decode_order, decode_item,
  decode_package, decode_case, decode_inventory, decode_variant, decode_ticket, decode_pending,
  timestamp_cell, nullable_timestamp,
}
use knowledge_agent.GuardState.Returns.{
  Returns, ok-Returns, bind-Returns, after-Returns, text-Returns, member-Returns, version-Returns,
  count-Returns,
}

-- the text of a cell, in the vocabulary
abbrev pub Reads : {A : Type 0} → (String → Option A) → Cell → A → Type 0
Reads read c a = (s : String) × (c ≡ string s) × (read s ≡ some a)

abbrev pub IsVersion : Cell → ℕ → Type 0
IsVersion c n = (c ≡ integer (pos n)) × (1 ≤ n)

pub null_not_text : (s : String) → null ≡ string s → ⊥
null_not_text s h = cc

pub string_inj : (s t : String) → Cell.string s ≡ string t → s ≡ t
string_inj s t h = cc

abbrev pub OfOrder : OrderCells → OrderRow → Type 0
OfOrder c r =
    (c.order_id ≡ string r.order_id)
    × Reads order_status c.status r.status
    × IsVersion c.version r.version

pub decode_order-OfOrder : (c : OrderCells) → Returns (OfOrder c) (decode_order c)
unfolding decode_order
decode_order-OfOrder c = bind-Returns (text-Returns c.order_id) (λ id i.
    bind-Returns (member-Returns order_status c.status)
      (λ status s. bind-Returns (version-Returns c.version) (λ v h. ok-Returns (i.0, s, h))))

abbrev pub OfItem : OrderItemCells → OrderItemRow → Type 0
OfItem c r =
    (c.order_item_id ≡ string r.order_item_id)
    × (c.order_id ≡ string r.order_id)
    × (c.sku ≡ string r.sku)
    × (c.category ≡ string r.category)
    × ((c.quantity ≡ integer (pos r.quantity)) × (1 ≤ r.quantity))
    × IsVersion c.version r.version

pub decode_item-OfItem : (c : OrderItemCells) → Returns (OfItem c) (decode_item c)
unfolding decode_item
decode_item-OfItem c = bind-Returns (text-Returns c.order_item_id) (λ id i.
    bind-Returns (text-Returns c.order_id) (λ order o. bind-Returns (text-Returns c.sku) (λ sku s.
      bind-Returns (text-Returns c.category) (λ category g.
        bind-Returns (count-Returns c.quantity 1) (λ quantity q.
          bind-Returns (version-Returns c.version)
            (λ v h. ok-Returns (i.0, o.0, s.0, g.0, q, h)))))))

abbrev pub OfInventory : InventoryCells → InventoryRow → Type 0
OfInventory c r =
    (c.sku ≡ string r.sku)
    × (c.available_qty ≡ integer (pos r.available_qty))
    × IsVersion c.version r.version

pub decode_inventory-OfInventory :
    (c : InventoryCells) → Returns (OfInventory c) (decode_inventory c)
unfolding decode_inventory
decode_inventory-OfInventory c = bind-Returns (text-Returns c.sku) (λ sku s.
    bind-Returns (count-Returns c.available_qty 0)
      (λ quantity q. bind-Returns (version-Returns c.version) (λ v h. ok-Returns (s.0, q.0, h))))

abbrev pub OfPending : PendingCells → PendingRow → Type 0
OfPending c r =
    (c.pending_action_id ≡ string r.pending_action_id)
    × Reads pending_status c.status r.status
    × IsVersion c.version r.version

pub decode_pending-OfPending : (c : PendingCells) → Returns (OfPending c) (decode_pending c)
unfolding decode_pending
decode_pending-OfPending c = bind-Returns (text-Returns c.pending_action_id) (λ id i.
    bind-Returns (member-Returns pending_status c.status)
      (λ status s. bind-Returns (version-Returns c.version) (λ v h. ok-Returns (i.0, s, h))))

abbrev pub OfPackage : PackageCells → PackageRow → Type 0
OfPackage c r =
    (c.tracking_no ≡ string r.tracking_no)
    × (c.order_id ≡ string r.order_id)
    × Reads logistics_status c.status r.status
    × IsVersion c.version r.version

pub decode_package-OfPackage :
    (parse : String → Option Timestamp) (c : PackageCells)
    → Returns (OfPackage c) (decode_package parse c)
unfolding decode_package
decode_package-OfPackage parse c = bind-Returns (text-Returns c.tracking_no) (λ id i.
    bind-Returns (text-Returns c.order_id) (λ order o.
      bind-Returns (member-Returns logistics_status c.status) (λ status s.
        after-Returns (nullable_timestamp parse c.delivered_at)
          (λ t. bind-Returns (version-Returns c.version) (λ v h. ok-Returns (i.0, o.0, s, h))))))

abbrev pub OfCase : CaseCells → CaseRow → Type 0
OfCase c r =
    (c.case_id ≡ string r.case_id)
    × (c.order_item_id ≡ string r.order_item_id)
    × Reads case_type c.case_type r.case_type
    × Reads case_status c.status r.status
    × IsVersion c.version r.version

pub decode_case-OfCase :
    (parse : String → Option Timestamp) (c : CaseCells) → Returns (OfCase c) (decode_case parse c)
unfolding decode_case
decode_case-OfCase parse c = after-Returns (timestamp_cell parse c.updated_at) (λ u.
    bind-Returns (text-Returns c.case_id) (λ id i.
      bind-Returns (text-Returns c.order_item_id) (λ order o.
        bind-Returns (member-Returns case_type c.case_type) (λ type t.
          bind-Returns (member-Returns case_status c.status) (λ status s.
            bind-Returns (version-Returns c.version) (λ v h. ok-Returns (i.0, o.0, t, s, h)))))))

abbrev pub OfVariant : VariantCells → VariantRow → Type 0
OfVariant c r =
    (c.sku ≡ string r.sku)
    × (c.variant_group ≡ string r.variant_group)
    × IsVersion c.version r.version

pub decode_variant-OfVariant :
    (parse : String → Option Timestamp) (c : VariantCells)
    → Returns (OfVariant c) (decode_variant parse c)
unfolding decode_variant
decode_variant-OfVariant parse c = after-Returns (timestamp_cell parse c.updated_at) (λ u.
    bind-Returns (text-Returns c.sku) (λ sku s.
      bind-Returns (text-Returns c.variant_group)
        (λ group g. bind-Returns (version-Returns c.version) (λ v h. ok-Returns (s.0, g.0, h)))))

abbrev pub OfTicket : TicketCells → TicketRow → Type 0
OfTicket c r =
    (c.ticket_id ≡ string r.ticket_id)
    × (c.order_item_id ≡ string r.order_item_id)
    × (c.handoff_trigger ≡ string r.handoff_trigger)
    × Reads ticket_status c.status r.status
    × IsVersion c.version r.version

pub decode_ticket-OfTicket :
    (parse : String → Option Timestamp) (c : TicketCells)
    → Returns (OfTicket c) (decode_ticket parse c)
unfolding decode_ticket
decode_ticket-OfTicket parse c = after-Returns (timestamp_cell parse c.updated_at) (λ u.
    bind-Returns (text-Returns c.ticket_id) (λ id i.
      bind-Returns (text-Returns c.order_item_id) (λ order o.
        bind-Returns (text-Returns c.handoff_trigger) (λ trigger t.
          bind-Returns (member-Returns ticket_status c.status) (λ status s.
            bind-Returns (version-Returns c.version) (λ v h. ok-Returns (i.0, o.0, t.0, s, h)))))))
