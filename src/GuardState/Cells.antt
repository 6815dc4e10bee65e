-- ===== src/GuardState/Cells.antt =====
-- aftersales/guard_state.py: the values of a row as the database returns them, and their decoders.
use knowledge_agent.Prelude.{
  ℕ, String, Bool, Option, none, some, Result, ok, err, ◌>>=◌, ◌>>◌, require, or_raise,
  if◌then◌else◌, leb, is_blank,
}
use knowledge_agent.Prelude.Int.{ℤ, pos}
use knowledge_agent.Schema.{
  order_status, logistics_status, case_type, case_status, ticket_status, pending_status,
}
use knowledge_agent.Policy.{Instant}
use knowledge_agent.GuardState.{
  OrderRow, OrderItemRow, PackageRow, CaseRow, InventoryRow, VariantRow, TicketRow, PendingRow,
}

-- A Python object in a row: `boolean` is there because the decoders refuse it as an integer.
pub data Cell : Type 0 where
  null : Cell
  boolean : Bool → Cell
  integer : ℤ → Cell
  string : String → Cell
  other : Cell

-- GuardFailure by its code, or an error of the database
pub data ReadError : Type 0 where
  state_malformed state_version_missing database_error : ReadError

abbrev pub Read : Type 0 → Type 0
Read A = Result ReadError A

-- The names of the reads.
pub data ReadName : Type 0 where
  order order_item logistics item_cases inventory variants tickets pendings : ReadName

pub data Answer : Type 0 where
  reads malformed fails : Answer

-- A text that `datetime.fromisoformat` accepts, as the instant and whether it has an offset.
pub record Timestamp : Type 0 where
  pub aware : Bool
  pub instant : Instant

-- `_version`
unfoldable pub version_cell : Cell → Read ℕ
version_cell (integer (pos n)) = if leb 1 n then ok n else err state_version_missing
version_cell _ = err state_version_missing

-- `_text`
unfoldable pub text_cell : Cell → Read String
text_cell (string s) = if is_blank s then err state_malformed else ok s
text_cell _ = err state_malformed

-- `_member`, for the vocabulary that `read` accepts
unfoldable pub member_cell : {A : Type 0} → (String → Option A) → Cell → Read A
member_cell read (string s) = or_raise (read s) state_malformed
member_cell read _ = err state_malformed

-- `_count`
unfoldable pub count_cell : Cell → ℕ → Read ℕ
count_cell (integer (pos n)) minimum = if leb minimum n then ok n else err state_malformed
count_cell _ minimum = err state_malformed

-- The rows of the tables that the templates read, with the columns that the gateway writes.
pub record OrderCells : Type 0 where
  pub order_id : Cell
  pub customer_id : Cell
  pub status : Cell
  pub updated_at : Cell
  pub version : Cell

pub record OrderItemCells : Type 0 where
  pub order_item_id : Cell
  pub order_id : Cell
  pub sku : Cell
  pub category : Cell
  pub quantity : Cell
  pub updated_at : Cell
  pub version : Cell

pub record PackageCells : Type 0 where
  pub tracking_no : Cell
  pub order_id : Cell
  pub status : Cell
  pub delivered_at : Cell
  pub updated_at : Cell
  pub version : Cell

pub record CaseCells : Type 0 where
  pub case_id : Cell
  pub order_id : Cell
  pub order_item_id : Cell
  pub customer_id : Cell
  pub case_type : Cell
  pub status : Cell
  pub reason : Cell
  pub created_at : Cell
  pub updated_at : Cell
  pub version : Cell

pub record InventoryCells : Type 0 where
  pub sku : Cell
  pub available_qty : Cell
  pub updated_at : Cell
  pub version : Cell

pub record VariantCells : Type 0 where
  pub sku : Cell
  pub variant_group : Cell
  pub updated_at : Cell
  pub version : Cell

pub record TicketCells : Type 0 where
  pub ticket_id : Cell
  pub order_id : Cell
  pub order_item_id : Cell
  pub handoff_trigger : Cell
  pub status : Cell
  pub created_at : Cell
  pub updated_at : Cell
  pub version : Cell

pub record PendingCells : Type 0 where
  pub pending_action_id : Cell
  pub target_order_item_id : Cell
  pub status : Cell
  pub version : Cell

-- `_pending`
unfoldable pub decode_pending : PendingCells → Read PendingRow
decode_pending row = do
  pending_action_id ← text_cell row.pending_action_id
  status ← member_cell pending_status row.status
  version ← version_cell row.version
  ok (record { pending_action_id = pending_action_id; status = status; version = version })

-- `_order`
unfoldable pub decode_order : OrderCells → Read OrderRow
decode_order row = do
  order_id ← text_cell row.order_id
  status ← member_cell order_status row.status
  version ← version_cell row.version
  ok (record { order_id = order_id; status = status; version = version })

-- `_item`
unfoldable pub decode_item : OrderItemCells → Read OrderItemRow
decode_item row = do
  order_item_id ← text_cell row.order_item_id
  order_id ← text_cell row.order_id
  sku ← text_cell row.sku
  category ← text_cell row.category
  quantity ← count_cell row.quantity 1
  version ← version_cell row.version
  ok (record {
    order_item_id = order_item_id;
    order_id = order_id;
    sku = sku;
    category = category;
    quantity = quantity;
    version = version;
  })

-- `_inventory`
unfoldable pub decode_inventory : InventoryCells → Read InventoryRow
decode_inventory row = do
  sku ← text_cell row.sku
  available_qty ← count_cell row.available_qty 0
  version ← version_cell row.version
  ok (record { sku = sku; available_qty = available_qty; version = version })

module _ (fromisoformat : String → Option Timestamp) where
  -- `_timestamp` of a text
  unfoldable pub timestamp_text : String → Read Instant
  timestamp_text s = do
    parsed ← or_raise (fromisoformat s) state_malformed
    require parsed.aware state_malformed
    ok parsed.instant

  -- `_timestamp`
  unfoldable pub timestamp_cell : Cell → Read Instant
  timestamp_cell (string s) = timestamp_text s
  timestamp_cell _ = err state_malformed

  abbrev some_instant : Read Instant → Read (Option Instant)
  some_instant (ok t) = ok (some t)
  some_instant (err e) = err e

  -- `_timestamp(..., nullable=True)`
  unfoldable pub nullable_timestamp : Cell → Read (Option Instant)
  nullable_timestamp null = ok none
  nullable_timestamp c = some_instant (timestamp_cell c)

  -- `_package`
  unfoldable pub decode_package : PackageCells → Read PackageRow
  decode_package row = do
    tracking_no ← text_cell row.tracking_no
    order_id ← text_cell row.order_id
    status ← member_cell logistics_status row.status
    delivered_at ← nullable_timestamp row.delivered_at
    version ← version_cell row.version
    ok (record {
      tracking_no = tracking_no;
      order_id = order_id;
      status = status;
      delivered_at = delivered_at;
      version = version;
    })

  -- `_case`
  unfoldable pub decode_case : CaseCells → Read CaseRow
  decode_case row = do
    updated_at ← timestamp_cell row.updated_at
    case_id ← text_cell row.case_id
    order_item_id ← text_cell row.order_item_id
    type ← member_cell case_type row.case_type
    status ← member_cell case_status row.status
    version ← version_cell row.version
    ok (record {
      case_id = case_id;
      order_item_id = order_item_id;
      case_type = type;
      status = status;
      version = version;
    })

  -- `_variant`
  unfoldable pub decode_variant : VariantCells → Read VariantRow
  decode_variant row = do
    updated_at ← timestamp_cell row.updated_at
    sku ← text_cell row.sku
    variant_group ← text_cell row.variant_group
    version ← version_cell row.version
    ok (record { sku = sku; variant_group = variant_group; version = version })

  -- `_ticket`
  unfoldable pub decode_ticket : TicketCells → Read TicketRow
  decode_ticket row = do
    updated_at ← timestamp_cell row.updated_at
    ticket_id ← text_cell row.ticket_id
    order_item_id ← text_cell row.order_item_id
    handoff_trigger ← text_cell row.handoff_trigger
    status ← member_cell ticket_status row.status
    version ← version_cell row.version
    ok (record {
      ticket_id = ticket_id;
      order_item_id = order_item_id;
      handoff_trigger = handoff_trigger;
      status = status;
      version = version;
    })
