-- ===== src/Store/Inserts.antt =====
-- The inserts and the replay lookups of aftersales/action_store.py, with the constraints of the
-- tables they write (aftersales/action_schema.sql, aftersales/schema.sql). The foreign keys are
-- left out: a failing statement stands for the one that breaks one.
use knowledge_agent.Prelude.{
  ℕ, String, Bool, true, false, ◌&&◌, ◌||◌, Option, none, some, List, [], ◌∷◌, ◌++◌, Result, ok,
  err, if◌then◌else◌, all, ◌==◌, nat_eq, string_eq, option_eq,
}
use knowledge_agent.Prelude.Dict.{lookup}
use knowledge_agent.Prelude.Int.{pos}
use knowledge_agent.Schema.{CaseType}
use knowledge_agent.Actions.{ActionName, ResourceType, ValidatedAction}
use knowledge_agent.Guard.Types.{GuardDecisionKind}
use knowledge_agent.GuardState.Cells.{Cell, integer, string, CaseCells, TicketCells}
use knowledge_agent.Ids.{is_id, is_key}
use knowledge_agent.Store.{
  PendingRecord, ReceiptRecord, Tables, Session, Raise, Store, ◌>>=◌, ◌>>◌, check, query, execute,
  next_fault, value_error, sqlite_error, integrity_error, runtime_error, distinct,
}

-- REASON_LABELS
unfoldable pub reason_label : String → Option String
reason_label reason =
    if reason == "no_longer_wanted"
    then some "不想要了（无理由退货）"
    else if reason == "size_or_spec_mismatch"
    then some "尺码或规格不合适"
    else if reason == "quality_issue"
    then some "商品质量问题"
    else none

abbrev pub case_type_text : CaseType → String
case_type_text CaseType.return = "return"
case_type_text CaseType.exchange = "exchange"

abbrev text_of : Cell → List String → List String
text_of (string s) xs = s ∷ xs
text_of _ xs = xs

unfoldable pub case_ids : List CaseCells → List String
case_ids [] = []
case_ids (c ∷ cs) = text_of c.case_id (case_ids cs)

-- `status IN ('待处理', '处理中')`
abbrev pub is_open_cell : Cell → Bool
is_open_cell (string s) = s == "待处理" || s == "处理中"
is_open_cell _ = false

-- the items of the index `s6_one_active_case_per_item`
unfoldable pub active_items : List CaseCells → List String
active_items [] = []
active_items (c ∷ cs) =
    let rest = active_items cs in
    if is_open_cell c.status then text_of c.order_item_id rest else rest

unfoldable pub cases_fit : List CaseCells → Bool
cases_fit cs = distinct (case_ids cs) && distinct (active_items cs)

unfoldable pub ticket_ids : List TicketCells → List String
ticket_ids [] = []
ticket_ids (t ∷ ts) = text_of t.ticket_id (ticket_ids ts)

-- the items of the index `s6_one_open_ticket_per_item_trigger`, for the one trigger that there is
unfoldable pub open_ticket_items : List TicketCells → List String
open_ticket_items [] = []
open_ticket_items (t ∷ ts) =
    let rest = open_ticket_items ts in
    if is_open_cell t.status then text_of t.order_item_id rest else rest

abbrev known_trigger : Cell → Bool
known_trigger (string s) = s == "quality_dispute"
known_trigger _ = false

unfoldable pub tickets_fit : List TicketCells → Bool
tickets_fit ts =
    all (λ (t : TicketCells). known_trigger t.handoff_trigger) ts
    && distinct (ticket_ids ts)
    && distinct (open_ticket_items ts)

unfoldable pub ids_of : List ReceiptRecord → List String
ids_of [] = []
ids_of (r ∷ rs) = r.receipt_id ∷ ids_of rs

unfoldable pub keys_of : List ReceiptRecord → List String
keys_of [] = []
keys_of (r ∷ rs) = r.idempotency_key ∷ keys_of rs

abbrev some_id : Option String → List String → List String
some_id none xs = xs
some_id (some x) xs = x ∷ xs

unfoldable pub pending_ids_of : List ReceiptRecord → List String
pending_ids_of [] = []
pending_ids_of (r ∷ rs) = some_id r.pending_action_id (pending_ids_of rs)

-- UNIQUE (resource_type, resource_id), by type
unfoldable pub resources_of : ResourceType → List ReceiptRecord → List String
resources_of ResourceType.after_sales_case [] = []
resources_of ResourceType.human_handoff_ticket [] = []
resources_of ResourceType.after_sales_case (r ∷ rs) = elim r.resource_type [
  | ResourceType.after_sales_case ↦ r.resource_id ∷ resources_of ResourceType.after_sales_case rs
  | ResourceType.human_handoff_ticket ↦ resources_of ResourceType.after_sales_case rs
]
resources_of ResourceType.human_handoff_ticket (r ∷ rs) = elim r.resource_type [
  | ResourceType.human_handoff_ticket ↦
      r.resource_id ∷ resources_of ResourceType.human_handoff_ticket rs
  | ResourceType.after_sales_case ↦ resources_of ResourceType.human_handoff_ticket rs
]

-- The CHECKs of a receipt that relate its columns.
abbrev pub resource_fits : ActionName → ResourceType → Bool
resource_fits ActionName.escalate_to_human ResourceType.human_handoff_ticket = true
resource_fits ActionName.create_return ResourceType.after_sales_case = true
resource_fits ActionName.create_exchange ResourceType.after_sales_case = true
resource_fits _ _ = false

abbrev pub approval_fits : GuardDecisionKind → Option String → Bool
approval_fits GuardDecisionKind.allow none = true
approval_fits GuardDecisionKind.require_approval (some id) = true
approval_fits _ _ = false

unfoldable pub receipts_fit : List ReceiptRecord → Bool
receipts_fit rs =
    all
      (λ (r : ReceiptRecord).
        resource_fits r.action_name r.resource_type
        && approval_fits r.guard_decision r.pending_action_id)
      rs
    && distinct (ids_of rs)
    && distinct (keys_of rs)
    && distinct (pending_ids_of rs)
    && distinct (resources_of ResourceType.after_sales_case rs)
    && distinct (resources_of ResourceType.human_handoff_ticket rs)

abbrev pub run_insert :
    (Tables → Bool) → Tables → Session → Bool × List Bool → Result Raise ℕ × Session
run_insert fits t s (true, rest) = (err sqlite_error, record s { faults = rest })
run_insert fits t s (false, rest) =
    if fits t
    then (ok 1, record s { tables = t; faults = rest })
    else (err integrity_error, record s { faults = rest })

-- `_execute` of an INSERT into a table with the constraints `fits`: one row
unfoldable pub insert_row : (Tables → Bool) → (Tables → Tables) → Store ℕ
insert_row fits f s = run_insert fits (f s.tables) s (next_fault s.faults)

unfoldable pub receipt_at : String → List ReceiptRecord → Option ReceiptRecord
receipt_at key [] = none
receipt_at key (r ∷ rs) = if r.idempotency_key == key then some r else receipt_at key rs

unfoldable pub pending_at : String → List PendingRecord → Option PendingRecord
pending_at key [] = none
pending_at key (p ∷ ps) = if p.idempotency_key == key then some p else pending_at key ps

-- `find_receipt`
unfoldable pub find_receipt : String → Store (Option ReceiptRecord)
find_receipt key = do check (is_key key) value_error; query (λ t. receipt_at key t.receipts)

-- `find_pending`
unfoldable pub find_pending : String → Store (Option PendingRecord)
find_pending key = do check (is_key key) value_error; query (λ t. pending_at key t.pendings)

-- the row of `_INSERT_CASE`
abbrev pub case_row : String → ValidatedAction → String → CaseType → String → String → CaseCells
case_row case_id action customer_id case_type label at = record {
  case_id = string case_id;
  order_id = string action.target_order_id;
  order_item_id = string action.target_order_item_id;
  customer_id = string customer_id;
  case_type = string (case_type_text case_type);
  status = string "待处理";
  reason = string label;
  created_at = string at;
  updated_at = string at;
  version = integer (pos 1);
}

abbrev pub add_case : CaseCells → Tables → Tables
add_case c t = record t {
  domain = record t.domain { after_sales_cases = t.domain.after_sales_cases ++ c ∷ [] };
}

abbrev pub argument : String → ValidatedAction → Option String
argument name action = lookup name action.args

abbrev pub label_of : Option String → Option String
label_of none = none
label_of (some reason) = reason_label reason

abbrev pub key_error : {A : Type 0} → Option A → Store A
key_error none s = (err value_error, s)
key_error (some a) s = (ok a, s)

-- `insert_after_sales_case`; a missing reason is a KeyError
unfoldable pub insert_after_sales_case :
    String → ValidatedAction → String → CaseType → String → Store (Unit {0})
insert_after_sales_case case_id action customer_id case_type at = do
  label ← key_error (label_of (argument "reason_code" action))
  check (is_id case_id) value_error
  n ←
      insert_row (λ t. cases_fit t.domain.after_sales_cases)
        (add_case (case_row case_id action customer_id case_type label at))
  check (n == 1) runtime_error

-- the row of `_INSERT_TICKET`
abbrev pub ticket_row : String → ValidatedAction → String → String → TicketCells
ticket_row ticket_id action trigger at = record {
  ticket_id = string ticket_id;
  order_id = string action.target_order_id;
  order_item_id = string action.target_order_item_id;
  handoff_trigger = string trigger;
  status = string "待处理";
  created_at = string at;
  updated_at = string at;
  version = integer (pos 1);
}

abbrev pub add_ticket : TicketCells → Tables → Tables
add_ticket c t = record t {
  domain = record t.domain { human_handoff_tickets = t.domain.human_handoff_tickets ++ c ∷ [] };
}

-- `insert_handoff_ticket`; a missing trigger is a KeyError
unfoldable pub insert_handoff_ticket : String → ValidatedAction → String → Store (Unit {0})
insert_handoff_ticket ticket_id action at = do
  check (is_id ticket_id) value_error
  trigger ← key_error (argument "handoff_trigger" action)
  n ←
      insert_row (λ t. tickets_fit t.domain.human_handoff_tickets)
        (add_ticket (ticket_row ticket_id action trigger at))
  check (n == 1) runtime_error

abbrev pub add_receipt : ReceiptRecord → Tables → Tables
add_receipt r t = record t { receipts = t.receipts ++ r ∷ [] }

abbrev pub id_or_none : Option String → Bool
id_or_none none = true
id_or_none (some id) = is_id id

-- `insert_receipt`
unfoldable pub insert_receipt : ReceiptRecord → Store (Unit {0})
insert_receipt r = do
  check (id_or_none r.pending_action_id) value_error
  check (is_id r.receipt_id && is_key r.idempotency_key && is_id r.resource_id) value_error
  n ← insert_row (λ t. receipts_fit t.receipts) (add_receipt r)
  check (n == 1) runtime_error

unfoldable pub add_pending : PendingRecord → Tables → Tables × ℕ
add_pending p t = (record t { pendings = t.pendings ++ p ∷ [] }, 1)

-- `insert_pending`, of the row that `_INSERT_PENDING` writes
unfoldable pub insert_pending : PendingRecord → Store (Unit {0})
insert_pending p = do
  check (is_id p.pending_action_id && is_key p.idempotency_key) value_error
  n ← execute (add_pending p)
  check (n == 1) runtime_error
