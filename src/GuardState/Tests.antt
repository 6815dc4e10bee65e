-- ===== src/GuardState/Tests.antt =====
-- A capture of aftersales/guard_state.py from small tables, and the theorems of the reader at it.
use knowledge_agent.Prelude.{
  String, true, ◌*◌, Option, none, some, [], ◌∷◌, ok, err, refl, ◌≡◌, ◌≢◌, all, any, member, filter,
  is_blank, text_leb,
}
use knowledge_agent.Prelude.Dict.{lookup}
use knowledge_agent.Prelude.Int.{pos}
use knowledge_agent.Prelude.Sort.{insert, sorted}
use knowledge_agent.Schema.{
  FailureCode, order_status, logistics_status, case_type, case_status, pending_status,
}
use knowledge_agent.Policy.{day}
use knowledge_agent.GuardState.{state_of}
use knowledge_agent.GuardState.Cells.{
  string, integer, Timestamp, ReadName, Answer, reads, fails, OrderCells, OrderItemCells,
  PackageCells, version_cell, text_cell, member_cell, count_cell, timestamp_text, timestamp_cell,
  nullable_timestamp, decode_order, decode_item, decode_package, decode_case, decode_pending,
}
use knowledge_agent.GuardState.Templates.{
  Database, select_order, joined, select_item, select_logistics, select_cases, selects_pending,
  select_pendings,
}
use knowledge_agent.GuardState.Reader.{
  Source, fetch, single, each, all_distinct, read_package, read_packages, read_cases, read_pendings,
  read_rest, read_item, read_order, read_rows, read_state,
}
use knowledge_agent.GuardState.Isolation.{IsIsolated, read_state-IsIsolated}
use knowledge_agent.GuardState.Answered.{read_state-answered}
use knowledge_agent.Actions.{ActionName}
use knowledge_agent.Guard.Types.{s6_risk_policy}
use knowledge_agent.Guard.OnTables.{Cleared, decide-Cleared}
use knowledge_agent.Guard.Tests.{
  return_action, delivered_rows, now, catalog, approved, return_approved, waits,
}

abbrev pub parse : String → Option Timestamp
parse s = some (record { aware = true; instant = 97 * day })

abbrev pub all_read : ReadName → Answer
all_read r = reads

abbrev order_cells : String → String → OrderCells
order_cells id customer = record {
  order_id = string id;
  customer_id = string customer;
  status = string "已签收";
  updated_at = string "2026-01-01T00:00:00+08:00";
  version = integer (pos 1);
}

abbrev item_cells : OrderItemCells
item_cells = record {
  order_item_id = string "I1";
  order_id = string "O1";
  sku = string "S1";
  category = string "shoes";
  quantity = integer (pos 1);
  updated_at = string "2026-01-01T00:00:00+08:00";
  version = integer (pos 1);
}

abbrev package_cells : String → String → PackageCells
package_cells tracking order_id = record {
  tracking_no = string tracking;
  order_id = string order_id;
  status = string "已签收";
  delivered_at = string "2026-01-01T00:00:00+08:00";
  updated_at = string "2026-01-01T00:00:00+08:00";
  version = integer (pos 1);
}

-- Two customers, and the request of another item.
abbrev pub database : Database
database = record {
  orders = order_cells "O2" "C2" ∷ order_cells "O1" "C1" ∷ [];
  order_items = item_cells ∷ [];
  logistics = package_cells "T2" "O2" ∷ package_cells "T1" "O1" ∷ [];
  after_sales_cases = [];
  inventory = [];
  sku_variants = [];
  human_handoff_tickets = [];
  pending_actions =
      record {
        pending_action_id = string "PA-0000000000000002";
        target_order_item_id = string "I2";
        status = string "APPROVED";
        version = integer (pos 2);
      }
      ∷ [];
}

abbrev pub source : Source
source = record {
  fromisoformat = parse;
  answer = all_read;
  database = database;
  customer_id = "C1";
  exclude = none;
}

pub one_pass :
    read_state source return_action now ≡ ok (state_of return_action.action_name now delivered_rows)
unfolding read_state read_rows read_order read_item read_rest read_packages read_package read_cases
    read_pendings fetch single each all_distinct select_order joined select_item select_logistics
    select_cases selects_pending select_pendings filter any all member insert sorted version_cell
    text_cell member_cell count_cell timestamp_text timestamp_cell nullable_timestamp decode_order
    decode_item decode_package decode_case decode_pending order_status logistics_status case_type
    case_status pending_status is_blank text_leb lookup
one_pass = refl

-- Another customer's capture finds no order.
stranger :
    read_state (record source { customer_id = "C2" }) return_action now
    ≡ ok (
        state_of return_action.action_name now
          (record delivered_rows { order = none; item = none; packages = [] }))
unfolding read_state read_rows read_order fetch single select_order filter
stranger = refl

-- A read that fails is no empty read.
failed_read :
    read_state (record source { answer = λ r. fails }) return_action now
    ≡ err FailureCode.state_read_failed
unfolding read_state read_rows fetch
failed_read = refl

read_state-IsIsolated_example :
    IsIsolated source return_action (state_of return_action.action_name now delivered_rows)
read_state-IsIsolated_example = read_state-IsIsolated source return_action now _ one_pass

read_state-answered_example : source.answer ReadName.pendings ≡ reads
unfolding state_of
read_state-answered_example =
    read_state-answered source return_action now
      (state_of return_action.action_name now delivered_rows) ReadName.pendings one_pass (tt, tt)

no_handoff : ActionName.create_return ≢ ActionName.escalate_to_human
no_handoff q = cc

decide-Cleared_example : Cleared source return_action
decide-Cleared_example =
    decide-Cleared source return_action now (state_of return_action.action_name now delivered_rows)
      catalog s6_risk_policy approved no_handoff one_pass return_approved waits
