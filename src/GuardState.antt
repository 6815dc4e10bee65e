-- ===== src/GuardState.antt =====
-- aftersales/guard_state.py: what the Guard has read of one action's records, the evidence that
-- the derived facts take, and the record versions of the snapshot.
pub mod Evidence
pub mod Cells
pub mod Templates
pub mod Reader
pub mod Returns
pub mod Decoders
pub mod Fetched
pub mod Captured
pub mod Selected
pub mod Isolation
pub mod Answered
pub mod Tests
use knowledge_agent.Prelude.{
  ℕ, String, Bool, true, false, ◌&&◌, Option, none, some, List, [], ◌∷◌, ◌++◌, map, Eq, ◌==◌,
  string_eq, nat_eq, if◌then◌else◌, leb, text_leb,
}
use knowledge_agent.Prelude.Dict.{Dict}
use knowledge_agent.Prelude.Int.{pos}
use knowledge_agent.Prelude.Sort.{sorted}
use knowledge_agent.Schema.{
  OrderStatus, LogisticsStatus, CaseType, CaseStatus, TicketStatus, PendingStatus,
  order_status_text, logistics_status_text,
}
use knowledge_agent.Actions.{ActionName}
use knowledge_agent.Policy.{Instant}
use knowledge_agent.Derived.{Value, null, number, text, time, BusinessEvidence, locator_of}

pub record OrderRow : Type 0 where
  pub order_id : String
  pub status : OrderStatus
  pub version : ℕ

pub record OrderItemRow : Type 0 where
  pub order_item_id : String
  pub order_id : String
  pub sku : String
  pub category : String
  pub quantity : ℕ
  pub version : ℕ

pub record PackageRow : Type 0 where
  pub tracking_no : String
  pub order_id : String
  pub status : LogisticsStatus
  pub delivered_at : Option Instant
  pub version : ℕ

pub record CaseRow : Type 0 where
  pub case_id : String
  pub order_item_id : String
  pub case_type : CaseType
  pub status : CaseStatus
  pub version : ℕ

pub record InventoryRow : Type 0 where
  pub sku : String
  pub available_qty : ℕ
  pub version : ℕ

pub record VariantRow : Type 0 where
  pub sku : String
  pub variant_group : String
  pub version : ℕ

pub record TicketRow : Type 0 where
  pub ticket_id : String
  pub order_item_id : String
  pub handoff_trigger : String
  pub status : TicketStatus
  pub version : ℕ

pub record PendingRow : Type 0 where
  pub pending_action_id : String
  pub status : PendingStatus
  pub version : ℕ

pub record GuardEvidence : Type 0 where
  pub order_status : Option BusinessEvidence
  pub logistics : List BusinessEvidence
  pub delivered_at : List BusinessEvidence
  pub category : Option BusinessEvidence
  pub available_qty : Option BusinessEvidence

-- table -> (primary key, version)
abbrev pub Versions : Type 0
Versions = List (String × List (String × ℕ))

pub record GuardState : Type 0 where
  pub action_name : ActionName
  pub order : Option OrderRow
  pub item : Option OrderItemRow
  pub packages : List PackageRow
  pub item_cases : List CaseRow
  pub target_inventory : Option InventoryRow
  pub variants : List VariantRow
  pub tickets : List TicketRow
  pub other_pendings : List PendingRow
  pub evidence : GuardEvidence
  pub versions : Versions

-- `_evidence`
unfoldable pub evidence_of :
    String → String → String → Value → Instant → Dict String → BusinessEvidence
evidence_of entity record_id field value observed_at relations = record {
  entity = entity;
  record_id = record_id;
  field = field;
  value = value;
  locator = locator_of entity record_id field;
  observed_at = observed_at;
  observation_id = "guard:capture";
  relations = relations;
}

abbrev pub order_evidence : Instant → OrderRow → BusinessEvidence
order_evidence at order =
    evidence_of "order" order.order_id "status" (text (order_status_text order.status)) at []

abbrev pub in_order : String → Dict String
in_order order_id = ("order_id", order_id) ∷ []

unfoldable pub logistics_evidence : Instant → List PackageRow → List BusinessEvidence
logistics_evidence at [] = []
logistics_evidence at (p ∷ ps) =
    evidence_of "logistics" p.tracking_no "status" (text (logistics_status_text p.status)) at
      (in_order p.order_id)
    ∷ evidence_of "logistics" p.tracking_no "order_id" (text p.order_id) at (in_order p.order_id)
    ∷ logistics_evidence at ps

abbrev pub delivered_value : Option Instant → Value
delivered_value none = null
delivered_value (some t) = time t

unfoldable pub delivered_evidence : Instant → List PackageRow → List BusinessEvidence
delivered_evidence at [] = []
delivered_evidence at (p ∷ ps) =
    evidence_of "logistics" p.tracking_no "delivered_at" (delivered_value p.delivered_at) at
      (in_order p.order_id)
    ∷ delivered_evidence at ps

abbrev pub category_evidence : Instant → OrderItemRow → BusinessEvidence
category_evidence at item =
    evidence_of "order_item" item.order_item_id "category" (text item.category) at
      (in_order item.order_id)

abbrev pub inventory_evidence : Instant → InventoryRow → BusinessEvidence
inventory_evidence at row =
    evidence_of "inventory" row.sku "available_qty" (number (pos row.available_qty)) at []

abbrev pub option_map : {A B : Type 0} → (A → B) → Option A → Option B
option_map f none = none
option_map f (some a) = some (f a)

abbrev pub option_list : {A B : Type 0} → (A → B) → Option A → List B
option_list f none = []
option_list f (some a) = f a ∷ []

-- the order of `(key, version)` tuples
abbrev pub version_leb : String × ℕ → String × ℕ → Bool
version_leb (j, v) (k, w) = if j == k then leb v w else text_leb j k

-- The rows of one capture, as `_read` hands them to `_state`.
pub record Rows : Type 0 where
  pub order : Option OrderRow
  pub item : Option OrderItemRow
  pub packages : List PackageRow
  pub cases : List CaseRow
  pub pendings : List PendingRow
  pub inventory : Option InventoryRow
  pub variants : List VariantRow
  pub tickets : List TicketRow

abbrev pub no_rows : Rows
no_rows = record {
  order = none;
  item = none;
  packages = [];
  cases = [];
  pendings = [];
  inventory = none;
  variants = [];
  tickets = [];
}

abbrev order_versions : Rows → String × List (String × ℕ)
order_versions r = ("orders", option_list (λ (o : OrderRow). (o.order_id, o.version)) r.order)

abbrev item_versions : Rows → String × List (String × ℕ)
item_versions r =
    ("order_items", option_list (λ (i : OrderItemRow). (i.order_item_id, i.version)) r.item)

abbrev logistics_versions : Rows → String × List (String × ℕ)
logistics_versions r = (
  "logistics",
  sorted version_leb (map (λ (p : PackageRow). (p.tracking_no, p.version)) r.packages),
)

abbrev case_versions : Rows → String × List (String × ℕ)
case_versions r = (
  "after_sales_cases",
  sorted version_leb (map (λ (c : CaseRow). (c.case_id, c.version)) r.cases),
)

abbrev inventory_versions : Rows → String × List (String × ℕ)
inventory_versions r =
    ("inventory", option_list (λ (i : InventoryRow). (i.sku, i.version)) r.inventory)

abbrev variant_versions : Rows → String × List (String × ℕ)
variant_versions r =
    ("sku_variants", sorted version_leb (map (λ (v : VariantRow). (v.sku, v.version)) r.variants))

abbrev ticket_versions : Rows → String × List (String × ℕ)
ticket_versions r = (
  "human_handoff_tickets",
  sorted version_leb (map (λ (t : TicketRow). (t.ticket_id, t.version)) r.tickets),
)

-- The tables of RECORD_TABLES[name], in sorted order.
unfoldable pub versions_of : ActionName → Rows → Versions
versions_of ActionName.create_return r =
    case_versions r ∷ logistics_versions r ∷ item_versions r ∷ order_versions r ∷ []
versions_of ActionName.create_exchange r =
    case_versions r
    ∷ inventory_versions r
    ∷ logistics_versions r
    ∷ item_versions r
    ∷ order_versions r
    ∷ variant_versions r
    ∷ []
versions_of ActionName.escalate_to_human r =
    ticket_versions r ∷ item_versions r ∷ order_versions r ∷ []

-- `_state`
unfoldable pub state_of : ActionName → Instant → Rows → GuardState
state_of name at r = record {
  action_name = name;
  order = r.order;
  item = r.item;
  packages = r.packages;
  item_cases = r.cases;
  target_inventory = r.inventory;
  variants = r.variants;
  tickets = r.tickets;
  other_pendings = r.pendings;
  evidence = record {
    order_status = option_map (order_evidence at) r.order;
    logistics = logistics_evidence at r.packages;
    delivered_at = delivered_evidence at r.packages;
    category = option_map (category_evidence at) r.item;
    available_qty = option_map (inventory_evidence at) r.inventory;
  };
  versions = versions_of name r;
}
