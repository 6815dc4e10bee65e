-- ===== src/Gateway/Execution.antt =====
-- aftersales/action_gateway.py: what the gateway is built with, one capture with its decision, and
-- the writes of an execution. The clock, the digests, the JSON texts, the id provider, the persona
-- resolver and the publication come from outside and are parameters. A fault hook is a statement
-- that fails.
use Prim.Native.String.{◌++◌ as ◌<>◌}
use knowledge_agent.Prelude.{String, Option, List, map, Result, ok, err, string_eq}
use knowledge_agent.Prelude.Dict.{Dict}
use knowledge_agent.Prelude.Int.{pos}
use knowledge_agent.Schema.{FailureCode, CaseType, pending_status_text}
use knowledge_agent.Actions.{ActionName, ResourceType, Arguments, ValidatedAction}
use knowledge_agent.Policy.{Instant}
use knowledge_agent.GuardState.{GuardState}
use knowledge_agent.GuardState.Cells.{string, integer, ReadName, Answer, PendingCells}
use knowledge_agent.GuardState.Templates.{Database}
use knowledge_agent.GuardState.Reader.{Source, read_state}
use knowledge_agent.Guard.Types.{GuardDecision, ActionRiskPolicy, CatalogSnapshot}
use knowledge_agent.Guard.Decide.{decide}
use knowledge_agent.Snapshot.{GuardSnapshot, candidate_snapshot, action_spec_version}
use knowledge_agent.Snapshot.Document.{snapshot_document}
use knowledge_agent.Snapshot.Document.{Codec}
use knowledge_agent.Ids.{RequestIdentity}
use knowledge_agent.Outcome.{ReceiptView}
use knowledge_agent.Store.{
  PendingRecord, ReceiptRecord, Tables, Store, ◌>>=◌, ◌>>◌, pure, raise, attempt_failed,
  guard_failed,
}
use knowledge_agent.Store.Inserts.{insert_after_sales_case, insert_handoff_ticket, insert_receipt}
use knowledge_agent.Gateway.{required}

pub record Persona : Type 0 where
  pub persona_id : String
  pub customer_id : String

pub data IdKind : Type 0 where
  pending_action after_sales_case handoff_ticket receipt : IdKind

-- What comes from outside the gateway: `datetime`, `hashlib`, `json`, the persona resolver and the
-- id provider, whose exceptions are `none`.
pub record Services : Type 0 where
  pub codec : Codec
  pub args_text : Dict String → String
  pub key_text : RequestIdentity → ValidatedAction → String
  pub parse_args : String → Option Arguments
  pub persona : String → Option Persona
  pub new_id : IdKind → String → Option String

pub record Config : Type 0 where
  pub services : Services
  pub actions : List ActionName
  pub risk : ActionRiskPolicy

-- One transaction: its business instant, the answers of its reads and of `catalog.snapshot()`.
pub record Moment : Type 0 where
  pub now : Instant
  pub answer : ReadName → Answer
  pub catalog : Option CatalogSnapshot

-- `idempotency_key`, for the canonical text of the five members
unfoldable pub idempotency_key : Services → RequestIdentity → ValidatedAction → String
idempotency_key x identity action = "s6k1-" <> x.codec.sha256 (x.key_text identity action)

-- A stored request, as R8 reads it.
abbrev pub pending_cells : PendingRecord → PendingCells
pending_cells p = record {
  pending_action_id = string p.pending_action_id;
  target_order_item_id = string p.target_order_item_id;
  status = string (pending_status_text p.status);
  version = integer (pos p.version);
}

-- The database behind a capture.
abbrev pub database_of : Tables → Database
database_of t = record t.domain { pending_actions = map pending_cells t.pendings }

abbrev pub source_of : Config → Moment → String → Option String → Tables → Source
source_of cfg m customer exclude t = record {
  fromisoformat = cfg.services.codec.fromisoformat;
  answer = m.answer;
  database = database_of t;
  customer_id = customer;
  exclude = exclude;
}

pub record GuardCapture : Type 0 where
  pub state : GuardState
  pub policy : CatalogSnapshot
  pub candidate : GuardSnapshot

abbrev pub from_guard : {A : Type 0} → Result FailureCode A → Store A
from_guard (ok a) = pure a
from_guard (err c) = raise (guard_failed c)

-- `_capture` with `Guard.capture`: one pass of the reader, one snapshot of the publication
unfoldable pub capture :
    Config → Moment → String → ValidatedAction → Option String → Store GuardCapture
capture cfg m customer action exclude s =
    (do
      state ← from_guard (read_state (source_of cfg m customer exclude s.tables) action m.now)
      policy ← required m.catalog (guard_failed FailureCode.policy_unavailable)
      pure (record {
        state = state;
        policy = policy;
        candidate = candidate_snapshot action.action_name state policy cfg.risk m.now;
      }))
      s

-- `_decide`
unfoldable pub decide_action :
    Config → Moment → ValidatedAction → GuardCapture → Store GuardDecision
decide_action cfg m action c = from_guard (decide action c.state c.policy cfg.risk m.now)

-- `_new_id`
unfoldable pub new_id : Config → IdKind → String → Store String
new_id cfg kind key =
    required (cfg.services.new_id kind key) (attempt_failed FailureCode.id_generation_failed)

abbrev pub resource_kind : ActionName → IdKind
resource_kind ActionName.escalate_to_human = IdKind.handoff_ticket
resource_kind _ = IdKind.after_sales_case

abbrev pub resource_of : ActionName → ResourceType
resource_of ActionName.escalate_to_human = ResourceType.human_handoff_ticket
resource_of _ = ResourceType.after_sales_case

-- the business row of `_write_execution`, with _CASE_TYPES
unfoldable pub insert_resource :
    ActionName → String → ValidatedAction → String → String → Store (Unit {0})
insert_resource ActionName.create_return id action customer at =
    insert_after_sales_case id action customer CaseType.return at
insert_resource ActionName.create_exchange id action customer at =
    insert_after_sales_case id action customer CaseType.exchange at
insert_resource ActionName.escalate_to_human id action customer at =
    insert_handoff_ticket id action at

-- the receipt of `_write_execution`
abbrev pub receipt_row :
    Config
    → Moment
    → RequestIdentity
    → ValidatedAction
    → String
    → GuardCapture
    → GuardDecision
    → Option String
    → String
    → String
    → ReceiptRecord
receipt_row cfg m identity action key c d pending resource_id receipt_id = record {
  receipt_id = receipt_id;
  idempotency_key = key;
  action_name = action.action_name;
  resource_type = resource_of action.action_name;
  resource_id = resource_id;
  guard_decision = d.decision;
  guard_reason_code = d.reason_code;
  pending_action_id = pending;
  request_id = identity.request_id;
  persona_id = identity.persona_id;
  args_json = cfg.services.args_text action.args;
  args_sha256 = cfg.services.codec.sha256 (cfg.services.args_text action.args);
  snapshot_json = snapshot_document cfg.services.codec c.candidate d;
  snapshot_sha256 = cfg.services.codec.sha256 (snapshot_document cfg.services.codec c.candidate d);
  action_spec_version = action_spec_version;
  risk_policy_version = cfg.risk.version;
  policy_build_id = c.policy.build_id;
  executed_at = m.now;
}

-- `_write_execution`
unfoldable pub write_execution :
    Config
    → Moment
    → RequestIdentity
    → String
    → ValidatedAction
    → String
    → GuardCapture
    → GuardDecision
    → Option String
    → Store ReceiptView
write_execution cfg m identity customer action key c d pending = do
  resource_id ← new_id cfg (resource_kind action.action_name) key
  receipt_id ← new_id cfg IdKind.receipt key
  insert_resource action.action_name resource_id action customer
      (cfg.services.codec.isoformat m.now)
  insert_receipt (receipt_row cfg m identity action key c d pending resource_id receipt_id)
  pure (record {
    receipt_id = receipt_id;
    resource_type = resource_of action.action_name;
    resource_id = resource_id;
  })
