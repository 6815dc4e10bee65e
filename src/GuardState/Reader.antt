-- ===== src/GuardState/Reader.antt =====
-- aftersales/guard_state.py, class GuardStateReader: the one pass of a capture. Each read is
-- answered once: the hook or the database may make it fail, or the hook may replace its rows by one
-- row of NULLs.
use knowledge_agent.Prelude.{
  String, Bool, true, not, ◌&&◌, ◌||◌, Option, none, some, List, [], ◌∷◌, map, Result, ok, err,
  ◌>>=◌, ◌>>◌, require, or_raise, ◌==◌, string_eq, all, member,
}
use knowledge_agent.Prelude.Dict.{lookup}
use knowledge_agent.Schema.{FailureCode}
use knowledge_agent.Actions.{ActionName, ValidatedAction}
use knowledge_agent.Policy.{Instant}
use knowledge_agent.GuardState.{
  OrderRow, OrderItemRow, PackageRow, CaseRow, InventoryRow, VariantRow, TicketRow, PendingRow,
  Rows, no_rows, GuardState, state_of,
}
use knowledge_agent.GuardState.Cells.{
  ReadName, Answer, reads, malformed, fails, null, ReadError, state_malformed,
  state_version_missing, database_error, Read, Timestamp, OrderCells, OrderItemCells, PackageCells,
  CaseCells, InventoryCells, VariantCells, TicketCells, PendingCells, decode_order, decode_item,
  decode_package, decode_case, decode_inventory, decode_variant, decode_ticket, decode_pending,
  timestamp_cell,
}
use knowledge_agent.GuardState.Templates.{
  Database, select_order, select_item, select_logistics, select_cases, select_inventory,
  select_variants, select_tickets, select_pendings,
}

-- `_fetch`, for the rows that the database holds and one row of NULLs
unfoldable pub fetch : {A : Type 0} → Answer → A → List A → Read (List A)
fetch reads nulls rows = ok rows
fetch malformed nulls rows = ok (nulls ∷ [])
fetch fails nulls rows = err database_error

-- `_single`
unfoldable pub single : {A B : Type 0} → (A → Read B) → List A → Read (Option (A × B))
single decode [] = ok none
single decode (a ∷ []) = do b ← decode a; ok (some (a, b))
single decode (a ∷ b ∷ rows) = err state_malformed

-- `tuple(decode(row) for row in rows)`
unfoldable pub each : {A B : Type 0} → (A → Read B) → List A → Read (List B)
each decode [] = ok []
each decode (a ∷ more) = do b ← decode a; bs ← each decode more; ok (b ∷ bs)

-- `len(set(keys)) == len(keys)`
unfoldable pub all_distinct : List String → Bool
all_distinct [] = true
all_distinct (x ∷ xs) = not (member x xs) && all_distinct xs

abbrev pub null_order : OrderCells
null_order = record {
  order_id = null;
  customer_id = null;
  status = null;
  updated_at = null;
  version = null;
}

abbrev pub null_item : OrderItemCells
null_item = record {
  order_item_id = null;
  order_id = null;
  sku = null;
  category = null;
  quantity = null;
  updated_at = null;
  version = null;
}

abbrev pub null_package : PackageCells
null_package = record {
  tracking_no = null;
  order_id = null;
  status = null;
  delivered_at = null;
  updated_at = null;
  version = null;
}

abbrev pub null_case : CaseCells
null_case = record {
  case_id = null;
  order_id = null;
  order_item_id = null;
  customer_id = null;
  case_type = null;
  status = null;
  reason = null;
  created_at = null;
  updated_at = null;
  version = null;
}

abbrev pub null_inventory : InventoryCells
null_inventory = record { sku = null; available_qty = null; updated_at = null; version = null }

abbrev pub null_variant : VariantCells
null_variant = record { sku = null; variant_group = null; updated_at = null; version = null }

abbrev pub null_ticket : TicketCells
null_ticket = record {
  ticket_id = null;
  order_id = null;
  order_item_id = null;
  handoff_trigger = null;
  status = null;
  created_at = null;
  updated_at = null;
  version = null;
}

abbrev pub null_pending : PendingCells
null_pending = record {
  pending_action_id = null;
  target_order_item_id = null;
  status = null;
  version = null;
}

-- What a capture is given besides the action: the clock's text parser, the answers of the reads,
-- the tables, the trusted customer and the pending action to leave out.
pub record Source : Type 0 where
  pub fromisoformat : String → Option Timestamp
  pub answer : ReadName → Answer
  pub database : Database
  pub customer_id : String
  pub exclude : Option String

unfoldable pub read_package : Source → String → PackageCells → Read PackageRow
read_package src order_id row = do
  p ← decode_package src.fromisoformat row
  require (p.order_id == order_id) state_malformed
  updated_at ← timestamp_cell src.fromisoformat row.updated_at
  ok p

unfoldable pub read_packages : Source → String → Read (List PackageRow)
read_packages src order_id = do
  rows ←
      fetch (src.answer ReadName.logistics) null_package
        (select_logistics src.database src.customer_id order_id)
  packages ← each (read_package src order_id) rows
  require (all_distinct (map (λ (p : PackageRow). p.tracking_no) packages)) state_malformed
  ok packages

unfoldable pub read_cases : Source → String → Read (List CaseRow)
read_cases src item_id = do
  rows ← fetch (src.answer ReadName.item_cases) null_case (select_cases src.database item_id)
  cases ← each (decode_case src.fromisoformat) rows
  require (all (λ (c : CaseRow). c.order_item_id == item_id) cases) state_malformed
  ok cases

unfoldable pub read_pendings : Source → String → Read (List PendingRow)
read_pendings src item_id = do
  rows ←
      fetch (src.answer ReadName.pendings) null_pending
        (select_pendings src.database item_id src.exclude)
  each decode_pending rows

-- the row of `_single`, with the checks that follow it
unfoldable pub check_inventory_row :
    Source → String → Option (InventoryCells × InventoryRow) → Read (Option InventoryRow)
check_inventory_row src target none = ok none
check_inventory_row src target (some (cells, row)) = do
  require (row.sku == target) state_malformed
  updated_at ← timestamp_cell src.fromisoformat cells.updated_at
  ok (some row)

unfoldable pub read_inventory : Source → String → Read (Option InventoryRow)
read_inventory src target = do
  rows ← fetch (src.answer ReadName.inventory) null_inventory (select_inventory src.database target)
  row ← single decode_inventory rows
  check_inventory_row src target row

unfoldable pub read_variants : Source → String → String → Read (List VariantRow)
read_variants src sku target = do
  rows ← fetch (src.answer ReadName.variants) null_variant (select_variants src.database sku target)
  variants ← each (decode_variant src.fromisoformat) rows
  require
      (all_distinct (map (λ (v : VariantRow). v.sku) variants)
        && all (λ (v : VariantRow). v.sku == sku || v.sku == target) variants)
      state_malformed
  ok variants

unfoldable pub read_tickets : Source → String → String → Read (List TicketRow)
read_tickets src item_id trigger = do
  rows ←
      fetch (src.answer ReadName.tickets) null_ticket (select_tickets src.database item_id trigger)
  tickets ← each (decode_ticket src.fromisoformat) rows
  require
      (all (λ (t : TicketRow). t.order_item_id == item_id && t.handoff_trigger == trigger) tickets)
      state_malformed
  ok tickets

-- The rows of `_read` after the order item, by action. A validated action has the argument that is
-- read; where it is missing, the KeyError is not modelled and the capture is malformed.
unfoldable pub read_rest : Source → ValidatedAction → OrderItemRow → ActionName → Rows → Read Rows
read_rest src action item ActionName.create_return rows = do
  packages ← read_packages src action.target_order_id
  cases ← read_cases src action.target_order_item_id
  pendings ← read_pendings src action.target_order_item_id
  ok (record rows { packages = packages; cases = cases; pendings = pendings })
read_rest src action item ActionName.create_exchange rows = do
  packages ← read_packages src action.target_order_id
  cases ← read_cases src action.target_order_item_id
  pendings ← read_pendings src action.target_order_item_id
  target ← or_raise (lookup "target_sku" action.args) state_malformed
  inventory ← read_inventory src target
  variants ← read_variants src item.sku target
  ok (record rows {
    packages = packages;
    cases = cases;
    pendings = pendings;
    inventory = inventory;
    variants = variants;
  })
read_rest src action item ActionName.escalate_to_human rows = do
  trigger ← or_raise (lookup "handoff_trigger" action.args) state_malformed
  tickets ← read_tickets src action.target_order_item_id trigger
  ok (record rows { tickets = tickets })

unfoldable pub read_item :
    Source → ValidatedAction → OrderRow → Option (OrderItemCells × OrderItemRow) → Read Rows
read_item src action order none = ok (record no_rows { order = some order })
read_item src action order (some (cells, item)) = do
  require
      (item.order_item_id == action.target_order_item_id && item.order_id == action.target_order_id)
      state_malformed
  updated_at ← timestamp_cell src.fromisoformat cells.updated_at
  read_rest src action item action.action_name
      (record no_rows { order = some order; item = some item })

unfoldable pub read_order : Source → ValidatedAction → Option (OrderCells × OrderRow) → Read Rows
read_order src action none = ok no_rows
read_order src action (some (cells, order)) = do
  require (order.order_id == action.target_order_id) state_malformed
  updated_at ← timestamp_cell src.fromisoformat cells.updated_at
  rows ←
      fetch (src.answer ReadName.order_item) null_item (
        select_item src.database src.customer_id action.target_order_id action.target_order_item_id)
  item ← single decode_item rows
  read_item src action order item

unfoldable pub read_rows : Source → ValidatedAction → Read Rows
read_rows src action = do
  rows ←
      fetch (src.answer ReadName.order) null_order
        (select_order src.database src.customer_id action.target_order_id)
  order ← single decode_order rows
  read_order src action order

-- the GuardFailure of an error
abbrev pub guard_failure : ReadError → FailureCode
guard_failure state_malformed = FailureCode.state_malformed
guard_failure state_version_missing = FailureCode.state_version_missing
guard_failure database_error = FailureCode.state_read_failed

abbrev pub captured : ActionName → Instant → Read Rows → Result FailureCode GuardState
captured name at (ok rows) = ok (state_of name at rows)
captured name at (err e) = err (guard_failure e)

-- `GuardStateReader.read`
unfoldable pub read_state : Source → ValidatedAction → Instant → Result FailureCode GuardState
read_state src action at = captured action.action_name at (read_rows src action)
