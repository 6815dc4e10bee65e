-- ===== src/Store.antt =====
-- aftersales/action_store.py and aftersales/action_schema.sql: the rows of the approval path, the
-- guarded updates of a pending action, receipts and the audit trail.
-- A statement may fail at the database: a list of faults tells which of the next ones do.
pub mod Lifecycle
pub mod Writes
pub mod Keeps
pub mod Success
pub mod Replaced
pub mod Inserts
use knowledge_agent.Prelude.{
  ℕ, suc, ◌+◌, String, Bool, true, false, not, ◌&&◌, ◌||◌, Option, none, some, List, [], ◌∷◌, ◌++◌,
  Result, ok, err, if◌then◌else◌, leb, all, member, is_some, is_none, ◌==◌, Eq, nat_eq, string_eq,
  option_eq,
}
use knowledge_agent.Schema.{PendingStatus, is_open_pending, FailureCode}
use knowledge_agent.Actions.{ActionName, ResourceType}
use knowledge_agent.Policy.{Instant}
use knowledge_agent.GuardState.Templates.{Database}
use knowledge_agent.Guard.Types.{GuardDecisionKind, ReasonCode, decision_of}
use knowledge_agent.Snapshot.{StaleReason}
use knowledge_agent.Ids.{is_id, is_key, is_approver_ref, RequestIdentity}
use knowledge_agent.Approval.{Approval, approval_eq}
use knowledge_agent.Outcome.{
  ActionStatus, Code, reason, failure, stale_reason, approval_rejected, is_deny,
}

-- A row of `pending_actions`. Codes are closed vocabularies; `guard_decision` is left out, since
-- the table holds one value there. `created_at` is `none` where the text is no timestamp.
pub record PendingRecord : Type 0 where
  pub pending_action_id : String
  pub idempotency_key : String
  pub request_id : String
  pub persona_id : String
  pub action_name : ActionName
  pub args_json : String
  pub args_sha256 : String
  pub target_order_id : String
  pub target_order_item_id : String
  pub status : PendingStatus
  pub guard_reason_code : ReasonCode
  pub snapshot_json : String
  pub snapshot_sha256 : String
  pub action_spec_version : String
  pub risk_policy_version : String
  pub policy_build_id : String
  pub approval_decision : Option Approval
  pub approver_ref : Option String
  pub decided_at : Option Instant
  pub outcome_code : Option Code
  pub receipt_id : Option String
  pub created_at : Option Instant
  pub updated_at : Instant
  pub version : ℕ

-- A row of `action_receipts`; `result_status` is left out, since the table holds one value there.
pub record ReceiptRecord : Type 0 where
  pub receipt_id : String
  pub idempotency_key : String
  pub action_name : ActionName
  pub resource_type : ResourceType
  pub resource_id : String
  pub guard_decision : GuardDecisionKind
  pub guard_reason_code : ReasonCode
  pub pending_action_id : Option String
  pub request_id : String
  pub persona_id : String
  pub args_json : String
  pub args_sha256 : String
  pub snapshot_json : String
  pub snapshot_sha256 : String
  pub action_spec_version : String
  pub risk_policy_version : String
  pub policy_build_id : String
  pub executed_at : Instant

-- AUDIT_EVENT_NAMES
pub data AuditEventName : Type 0 where
  action_replay_hit guard_evaluated guard_failed action_pending_created : AuditEventName
  approval_recorded approval_conflict resume_started resume_version_check : AuditEventName
  action_executed action_not_executed transaction_rolled_back : AuditEventName

pub data Phase : Type 0 where
  start resume : Phase

-- AUDIT_DECISION_VALUES
pub data AuditDecision : Type 0 where
  guard : GuardDecisionKind → AuditDecision
  outcome : ActionStatus → AuditDecision
  operator : Approval → AuditDecision
  version_match version_mismatch : AuditDecision

-- AUDIT_CODE_VALUES
pub data AuditCode : Type 0 where
  closed : Code → AuditCode
  resource : ResourceType → AuditCode
  anchor_receipt anchor_pending : AuditCode

pub record AuditEvent : Type 0 where
  pub event_name : AuditEventName
  pub request_id : String
  pub persona_id : String
  pub action_name : ActionName
  pub idempotency_key : Option String
  pub pending_action_id : Option String
  pub receipt_id : Option String
  pub phase : Option Phase
  pub decision : Option AuditDecision
  pub code : Option AuditCode
  pub approver_ref : Option String
  pub at : Instant

-- `domain` holds the tables that the Guard reads, except the pending actions.
pub record Tables : Type 0 where
  pub domain : Database
  pub pendings : List PendingRecord
  pub receipts : List ReceiptRecord
  pub audits : List AuditEvent

abbrev pub is_approve : Option Approval → Bool
is_approve (some Approval.approve) = true
is_approve _ = false

abbrev pub is_reject : Option Approval → Bool
is_reject (some Approval.reject) = true
is_reject _ = false

abbrev pub same : Bool → Bool → Bool
same true b = b
same false b = not b

-- The CHECKs that depend on the status, by status.
unfoldable pub status_fits : PendingStatus → Option Approval → Option String → Option Code → Bool
status_fits PendingStatus.pending_approval a r c = is_none a && is_none r && is_none c
status_fits PendingStatus.approved a r c = is_approve a && is_none r && is_none c
status_fits PendingStatus.rejected a r c = is_reject a && is_none r && is_some c
status_fits PendingStatus.executed a r c = is_approve a && is_some r && is_none c
status_fits PendingStatus.stale a r c = is_approve a && is_none r && is_some c
status_fits PendingStatus.denied a r c = is_approve a && is_none r && is_some c
status_fits PendingStatus.failed a r c = is_approve a && is_none r && is_some c

-- The CHECKs of one row of `pending_actions`.
unfoldable pub row_fits : PendingRecord → Bool
row_fits p =
    leb 1 p.version
    && same (is_none p.approval_decision) (is_none p.approver_ref)
    && same (is_none p.approval_decision) (is_none p.decided_at)
    && status_fits p.status p.approval_decision p.receipt_id p.outcome_code

unfoldable pub distinct : List String → Bool
distinct [] = true
distinct (x ∷ xs) = not (member x xs) && distinct xs

unfoldable pub ids : List PendingRecord → List String
ids [] = []
ids (p ∷ ps) = p.pending_action_id ∷ ids ps

unfoldable pub idempotency_keys : List PendingRecord → List String
idempotency_keys [] = []
idempotency_keys (p ∷ ps) = p.idempotency_key ∷ idempotency_keys ps

abbrev add_some : Option String → List String → List String
add_some none xs = xs
add_some (some x) xs = x ∷ xs

unfoldable pub receipt_ids : List PendingRecord → List String
receipt_ids [] = []
receipt_ids (p ∷ ps) = add_some p.receipt_id (receipt_ids ps)

-- the items of the index `s6_one_open_pending_per_item`
unfoldable pub open_items : List PendingRecord → List String
open_items [] = []
open_items (p ∷ ps) =
    let rest = open_items ps in
    if is_open_pending p.status then p.target_order_item_id ∷ rest else rest

-- The constraints of `pending_actions`, which the database checks at every statement.
unfoldable pub constraints : List PendingRecord → Bool
constraints ps =
    all row_fits ps
    && distinct (ids ps)
    && distinct (idempotency_keys ps)
    && distinct (receipt_ids ps)
    && distinct (open_items ps)

-- The transaction's tables, the faults of the next statements, and the pending row that it loaded.
pub record Session : Type 0 where
  pub tables : Tables
  pub faults : List Bool
  pub loaded : Option PendingRecord

-- `guard_failed` is the _AttemptFailed that comes from the Guard.
pub data Raise : Type 0 where
  attempt_failed guard_failed : FailureCode → Raise
  sqlite_error integrity_error transition_conflict value_error runtime_error : Raise
  unknown_pending_action not_approved approval_input_error : Raise
  capability_error contract_error type_error : Raise

abbrev pub Store : Type 0 → Type 0
Store A = Session → Result Raise A × Session

abbrev pub go_on :
    {A B : Type 0} → Result Raise A × Session → (A → Store B) → Result Raise B × Session
go_on (ok a, s) f = f a s
go_on (err e, s) f = (err e, s)

infixl 5 ◌>>=◌ ◌>>◌
abbrev pub ◌>>=◌ : {A B : Type 0} → Store A → (A → Store B) → Store B
◌>>=◌ m f s = go_on (m s) f

abbrev pub ◌>>◌ : {B : Type 0} → Store (Unit {0}) → Store B → Store B
m >> k = m >>= λ _. k

abbrev pub pure : {A : Type 0} → A → Store A
pure a s = (ok a, s)

abbrev pub raise : {A : Type 0} → Raise → Store A
raise e s = (err e, s)

abbrev pub check : Bool → Raise → Store (Unit {0})
check true e = pure tt
check false e = raise e

-- Does the next statement fail at the database, and the faults after it.
abbrev pub next_fault : List Bool → Bool × List Bool
next_fault [] = (false, [])
next_fault (b ∷ bs) = (b, bs)

abbrev pub run_query :
    {A : Type 0} → (Tables → A) → Session → Bool × List Bool → Result Raise A × Session
run_query f s (true, rest) = (err sqlite_error, record s { faults = rest })
run_query f s (false, rest) = (ok (f s.tables), record s { faults = rest })

-- `_rows`
unfoldable pub query : {A : Type 0} → (Tables → A) → Store A
query f s = run_query f s (next_fault s.faults)

abbrev pub run_write : Tables → ℕ → Session → Bool × List Bool → Result Raise ℕ × Session
run_write t n s (true, rest) = (err sqlite_error, record s { faults = rest })
run_write t n s (false, rest) =
    if constraints t.pendings
    then (ok n, record s { tables = t; faults = rest })
    else (err integrity_error, record s { faults = rest })

-- `_execute`: the tables after the statement, and its row count
unfoldable pub execute : (Tables → Tables × ℕ) → Store ℕ
execute f s = run_write (f s.tables).0 (f s.tables).1 s (next_fault s.faults)

-- `UPDATE pending_actions SET ... WHERE ...`, with its row count
unfoldable pub update :
    (PendingRecord → Bool)
    → (PendingRecord → PendingRecord)
    → List PendingRecord
    → List PendingRecord
update p f [] = []
update p f (r ∷ rs) = (if p r then f r else r) ∷ update p f rs

unfoldable pub count : (PendingRecord → Bool) → List PendingRecord → ℕ
count p [] = 0
count p (r ∷ rs) = if p r then suc (count p rs) else count p rs

unfoldable pub update_tables :
    (PendingRecord → Bool) → (PendingRecord → PendingRecord) → Tables → Tables × ℕ
update_tables p f t = (record t { pendings = update p f t.pendings }, count p t.pendings)

-- `_guarded`
unfoldable pub guarded : (PendingRecord → Bool) → (PendingRecord → PendingRecord) → Store (Unit {0})
guarded p f = do n ← execute (update_tables p f); check (n == 1) transition_conflict

unfoldable pub with_id : String → List PendingRecord → Option PendingRecord
with_id id [] = none
with_id id (p ∷ ps) = if p.pending_action_id == id then some p else with_id id ps

abbrev pub same_pending : String → Option String → Bool
same_pending id (some i) = i == id
same_pending id none = false

unfoldable pub receipt_of : String → List ReceiptRecord → Option ReceiptRecord
receipt_of id [] = none
receipt_of id (r ∷ rs) = if same_pending id r.pending_action_id then some r else receipt_of id rs

-- `load_pending`
unfoldable pub load_pending : String → Store (Option PendingRecord)
load_pending id = do check (is_id id) value_error; query (λ t. with_id id t.pendings)

-- `find_receipt_for_pending`
unfoldable pub find_receipt_for_pending : String → Store (Option ReceiptRecord)
find_receipt_for_pending id = do check (is_id id) value_error; query (λ t. receipt_of id t.receipts)

abbrev pub is_pending_approval : PendingStatus → Bool
is_pending_approval PendingStatus.pending_approval = true
is_pending_approval _ = false

abbrev pub is_approved : PendingStatus → Bool
is_approved PendingStatus.approved = true
is_approved _ = false

abbrev pub is_executed : PendingStatus → Bool
is_executed PendingStatus.executed = true
is_executed _ = false

-- the WHERE of a guarded update
abbrev pub at_version : (PendingStatus → Bool) → String → ℕ → PendingRecord → Bool
at_version test id version p = p.pending_action_id == id && test p.status && p.version == version

abbrev pub decided_status : Approval → PendingStatus
decided_status Approval.approve = PendingStatus.approved
decided_status Approval.reject = PendingStatus.rejected

abbrev pub decided_code : Approval → Option Code
decided_code Approval.approve = none
decided_code Approval.reject = some approval_rejected

-- the SET of `_UPDATE_RECORD_DECISION`
unfoldable pub decided : Approval → String → Instant → Instant → PendingRecord → PendingRecord
decided decision approver decided_at at p = record p {
  status = decided_status decision;
  approval_decision = some decision;
  approver_ref = some approver;
  decided_at = some decided_at;
  outcome_code = decided_code decision;
  updated_at = at;
  version = p.version + 1;
}

-- `record_decision`: P1, P2
unfoldable pub record_decision :
    String → ℕ → Approval → String → Instant → Instant → Store (Unit {0})
record_decision id version decision approver decided_at at = do
  check (is_approver_ref approver) value_error
  check (is_id id && leb 1 version) value_error
  guarded (at_version is_pending_approval id version) (decided decision approver decided_at at)

-- _TERMINAL_CODES
unfoldable pub terminal_code : PendingStatus → Code → Bool
terminal_code PendingStatus.stale (stale_reason s) = true
terminal_code PendingStatus.denied (reason r) = is_deny (decision_of r)
terminal_code PendingStatus.failed (failure c) = true
terminal_code _ c = false

-- the SET of `_UPDATE_TERMINAL`
unfoldable pub ended : PendingStatus → Code → Instant → PendingRecord → PendingRecord
ended status code at p = record p {
  status = status;
  outcome_code = some code;
  updated_at = at;
  version = p.version + 1;
}

-- `transition_terminal`: P4, P5, P6
unfoldable pub transition_terminal : String → ℕ → PendingStatus → Code → Instant → Store (Unit {0})
transition_terminal id version status code at = do
  check (terminal_code status code) value_error
  check (is_id id && leb 1 version) value_error
  guarded (at_version is_approved id version) (ended status code at)

-- the SET of `_UPDATE_EXECUTED`
unfoldable pub linked : String → Instant → PendingRecord → PendingRecord
linked receipt at p = record p {
  status = PendingStatus.executed;
  receipt_id = some receipt;
  updated_at = at;
  version = p.version + 1;
}

-- `mark_executed`: P3
unfoldable pub mark_executed : String → ℕ → String → Instant → Store (Unit {0})
mark_executed id version receipt at = do
  check (is_id receipt && is_id id && leb 1 version) value_error
  guarded (at_version is_approved id version) (linked receipt at)

abbrev optional : (String → Bool) → Option String → Bool
optional p none = true
optional p (some s) = p s

-- The checks of `append_audit` that the types do not make.
unfoldable pub audit_fits : AuditEvent → Bool
audit_fits e =
    optional is_approver_ref e.approver_ref
    && optional is_key e.idempotency_key
    && optional is_id e.pending_action_id
    && optional is_id e.receipt_id

unfoldable pub add_audit : AuditEvent → Tables → Tables × ℕ
add_audit e t = (record t { audits = t.audits ++ e ∷ [] }, 1)

-- `append_audit`
unfoldable pub append_audit : AuditEvent → Store (Unit {0})
append_audit e = do
  check (audit_fits e) value_error
  n ← execute (add_audit e)
  check (n == 1) runtime_error
