-- ===== src/Gateway/RunTests.antt =====
-- A return from its start to its execution (aftersales/action_gateway.py): runs of start_action and
-- execute_approved over small tables, and the theorems at them.
use knowledge_agent.Prelude.{
  inl, In, ℕ, suc, String, true, false, Option, none, some, List, [], ◌∷◌, ok, ◌≡◌, ◌≢◌, refl, any,
  all, filter, member, is_blank, text_leb, inr, ap,
}
use knowledge_agent.Prelude.Dict.{lookup, put, keys, same_set, subset, meets}
use knowledge_agent.Prelude.Maps.{put_all, first_parts, dict_eqb}
use knowledge_agent.Prelude.Sort.{insert, sorted}
use knowledge_agent.Schema.{
  PendingStatus, order_status, logistics_status, case_type, case_status, pending_status,
}
use knowledge_agent.Actions.{
  ActionName, mapping, registered, text_keys, valid_value, check_value, check_args, validated,
  validate_items, validate_arguments, validate, reason_handoff_trigger,
}
use knowledge_agent.Actions.Contract.{items_of}
use knowledge_agent.Actions.Revalidation.{texts}
use knowledge_agent.Policy.{
  offset_of, parse_utc_offset, positive, is_text, parse_window_params, window_params, policy_ref,
  is_policy_in_effect, policy_applies_to_category,
}
use knowledge_agent.Policy.Catalog.{
  canonical, is_applicable, max_priority, top_tier, one_params, select_policies,
}
use knowledge_agent.Derived.{
  locator_of, read_field, order_relation, local_date, elapsed_natural_days, delivery_instant,
  delivery,
}
use knowledge_agent.Derived.Window.{
  read_category, window_rule_gate, window_fact, derive_window_eligibility, collect_packages,
  one_observation, derive_item_window_eligibility,
}
use knowledge_agent.Derived.Conflict.{
  fires, fired_rules, add_field, read_logistics, check_packages, package_statuses, check_logistics,
  derive_business_state_conflict,
}
use knowledge_agent.GuardState.{
  evidence_of, logistics_evidence, delivered_evidence, versions_of, state_of,
}
use knowledge_agent.GuardState.Cells.{
  version_cell, text_cell, member_cell, count_cell, timestamp_text, timestamp_cell,
  nullable_timestamp, decode_order, decode_item, decode_package, decode_case, decode_pending,
}
use knowledge_agent.GuardState.Templates.{
  select_order, joined, select_item, select_logistics, select_cases, selects_pending,
  select_pendings,
}
use knowledge_agent.GuardState.Reader.{
  fetch, single, each, all_distinct, read_package, read_packages, read_cases, read_pendings,
  read_rest, read_item, read_order, read_rows, read_state,
}
use knowledge_agent.GuardState.Tests.{database, parse, all_read}
use knowledge_agent.Guard.Types.{
  policy_refs, is_policy_ref, s6_risk_policy, GuardDecisionKind, ReasonCode,
}
use knowledge_agent.Guard.Decide.{
  check_conflict, delivery_established, check_delivery, check_cases, check_routing,
  check_returnable, check_window, check_kind, check_after_sales, check, facts_hold, result, decide,
}
use knowledge_agent.Guard.Tests.{approved, return_action, captured_state, catalog, now}
use knowledge_agent.Snapshot
use knowledge_agent.Snapshot.{
  GuardSnapshot, candidate_snapshot, rows_of, set_changed, version_changed, compare_snapshots,
}
use knowledge_agent.Ids.{
  RequestIdentity, after, body, repeated, is_id, is_key, request_id_of, request_identity,
  is_pending_action_id, is_approver_ref,
}
use knowledge_agent.Approval.{Approval}
use knowledge_agent.Outcome
use knowledge_agent.Outcome.{ActionStatus, ActionOutcome, code_fits}
use knowledge_agent.Store.{
  PendingRecord, ReceiptRecord, status_fits, row_fits, distinct, ids, idempotency_keys, receipt_ids,
  open_items, constraints, query, execute, update, count, update_tables, guarded, with_id,
  load_pending, decided, linked, audit_fits, add_audit, append_audit, mark_executed,
}
use knowledge_agent.Store.Inserts.{
  find_receipt, find_pending, receipt_at, pending_at, insert_pending, add_pending, reason_label,
  insert_after_sales_case, insert_receipt, insert_row, cases_fit, case_ids, active_items,
  receipts_fit, ids_of, keys_of, pending_ids_of, resources_of,
}
use knowledge_agent.Store.Writes.{Moved}
use knowledge_agent.Gateway.{World, receipt_for}
use knowledge_agent.Snapshot.Json.{Json, dict_value, values_of, entries_of, to_items, to_entries}
use knowledge_agent.Snapshot.Words.{find_reason, kind_of, rule_type_of}
use knowledge_agent.Snapshot.Document.{Codec, document_value, rows_value, records_value}
use knowledge_agent.Snapshot.Parser.{
  parse_snapshot_document, nonblank_text, parse_rows, parse_tables, parse_records, shape_of,
  refs_of, parse_entry, parse_entries, increasing, refs_for, parse_refs, parse_facts, member_reason,
  parse_decision, parse_time,
}
use knowledge_agent.Gateway.Execution.{
  Persona, IdKind, Services, Config, Moment, idempotency_key, capture, decide_action, new_id,
  insert_resource, write_execution,
}
use knowledge_agent.Gateway.Attempt.{
  create_pending, act_on, attempt_new, attempt_pending, attempt_receipt, attempt,
}
use knowledge_agent.Gateway.Start.{start_run, same_action, is_canonical, start_action}
use knowledge_agent.Gateway.ResumeSteps.{
  load_approved, confirm, resume_confirmed, resolve, rebuild, same_stored, compare_stored,
  stored_matches, decide_again, conclude_resume, execute_now,
}
use knowledge_agent.Gateway.Resume.{resume_run, execute_approved, get_outcome}
use knowledge_agent.Gateway.Runs.{Core, core_of}
use knowledge_agent.Gateway.History.{start, execution, run, IsSound}
use knowledge_agent.Gateway.Soundness.{run-IsSound}
use knowledge_agent.Gateway.Attempted.{Untouched}
use knowledge_agent.Gateway.Started.{StartedAs, Effected, start_action-Effected}
use knowledge_agent.Gateway.Approved.{
  IsTold, get_outcome-Truth, ApprovedEffect, execute_approved-Effected,
}
use knowledge_agent.Gateway.Guarantees.{
  ClearedFor, start_action-ClearedFor, start_action_once, start_return_waits,
}
use knowledge_agent.Gateway.Finished.{run_keeps_ended}
use knowledge_agent.Gateway.Approvals.{
  IsApproved, execute_approved-Moved, execute_approved-IsApproved,
}

abbrev digest : String
digest = "0123456789abcdef0123456789abcdef0123456789abcdef0123456789abcdef"

abbrev ids_by_kind : IdKind → String → Option String
ids_by_kind IdKind.pending_action key = some "PA-0123456789ABCDEF"
ids_by_kind IdKind.after_sales_case key = some "AS6-0123456789ABCDEF"
ids_by_kind IdKind.handoff_ticket key = some "HT-0123456789ABCDEF"
ids_by_kind IdKind.receipt key = some "RC-0123456789ABCDEF"

abbrev pub writer : Codec
writer = record {
  sha256 = λ s. digest;
  canonical = λ value. "{}";
  loads = λ s. none;
  isoformat = λ t. "2026-01-04T00:00:00+08:00";
  fromisoformat = parse;
}

-- the snapshot of the waiting request, as it is stored
abbrev stored : Json
stored = dict_value (
    document_value writer
      (candidate_snapshot ActionName.create_return captured_state catalog s6_risk_policy 5)
      approved)

abbrev services : Services
services = record {
  codec = record writer { loads = λ s. some stored };
  args_text = λ args. "{}";
  key_text = λ identity action. "";
  parse_args = λ s. some (mapping (items_of (texts return_action.args)));
  persona = λ id. some (record { persona_id = id; customer_id = "C1" });
  new_id = ids_by_kind;
}

abbrev pub config : Config
config = record {
  services = services;
  actions = ActionName.create_return ∷ [];
  risk = s6_risk_policy;
}

abbrev pub moment : Moment
moment = record { now = now; answer = all_read; catalog = some catalog }

abbrev pub identity : RequestIdentity
identity = record { persona_id = "persona-1"; request_id = "req-1" }

abbrev world : World
world = record {
  committed = record { domain = database; pendings = []; receipts = []; audits = [] };
  faults = [];
}

abbrev waiting : ActionOutcome
waiting = record {
  status = ActionStatus.waiting_approval;
  action_name = some ActionName.create_return;
  request_id = some "req-1";
  idempotent_replay = false;
  decision_conflict = false;
  approval_recorded = false;
  pending_action_id = some "PA-0123456789ABCDEF";
  receipt = none;
  guard = some (record {
    decision = GuardDecisionKind.require_approval;
    reason_code = ReasonCode.risk_policy_requires_approval;
  });
  code = none;
}

-- The return waits for an approval.
started : (start_action config moment identity return_action world).0 ≡ ok waiting
unfolding start_action is_canonical same_action start_run attempt attempt_receipt attempt_pending
    attempt_new act_on create_pending capture decide_action new_id idempotency_key find_receipt
    find_pending receipt_at pending_at insert_pending add_pending append_audit audit_fits add_audit
    query execute constraints row_fits status_fits distinct ids idempotency_keys receipt_ids
    open_items validate validate_arguments validate_items text_keys items_of texts registered
    check_args check_value valid_value validated dict_eqb meets decide check check_after_sales
    check_conflict derive_business_state_conflict read_field locator_of read_logistics add_field
    check_logistics check_packages package_statuses fired_rules fires delivery_established
    check_delivery check_cases check_routing check_returnable check_window check_kind facts_hold
    result select_policies canonical is_applicable max_priority top_tier one_params
    is_policy_in_effect policy_applies_to_category derive_item_window_eligibility read_category
    window_rule_gate window_fact derive_window_eligibility collect_packages one_observation delivery
    delivery_instant order_relation elapsed_natural_days local_date window_params
    parse_window_params positive is_text parse_utc_offset offset_of evidence_of logistics_evidence
    delivered_evidence versions_of state_of policy_ref is_policy_ref policy_refs order_status
    logistics_status reason_handoff_trigger lookup keys same_set subset all any filter member
    is_blank text_leb sorted insert read_state read_rows read_order read_item read_rest
    read_packages read_package read_cases read_pendings fetch single each all_distinct select_order
    joined select_item select_logistics select_cases selects_pending select_pendings version_cell
    text_cell member_cell count_cell timestamp_text timestamp_cell nullable_timestamp decode_order
    decode_item decode_package decode_case decode_pending case_type case_status pending_status is_id
    is_key after body repeated Outcome.constructs code_fits
started = refl

start_action-Effected_example :
    Effected
      (StartedAs config moment identity return_action)
      world.committed
      (start_action config moment identity return_action world)
start_action-Effected_example = start_action-Effected config moment identity return_action world

-- the number of pending actions
abbrev size : List PendingRecord → ℕ
size [] = 0
size (p ∷ ps) = suc (size ps)

one_row : size (start_action config moment identity return_action world).1.committed.pendings ≡ 1
unfolding start_action is_canonical same_action start_run attempt attempt_receipt attempt_pending
    attempt_new act_on create_pending capture decide_action new_id idempotency_key find_receipt
    find_pending receipt_at pending_at insert_pending add_pending append_audit audit_fits add_audit
    query execute constraints row_fits status_fits distinct ids idempotency_keys receipt_ids
    open_items validate validate_arguments validate_items text_keys items_of texts registered
    check_args check_value valid_value validated dict_eqb meets decide check check_after_sales
    check_conflict derive_business_state_conflict read_field locator_of read_logistics add_field
    check_logistics check_packages package_statuses fired_rules fires delivery_established
    check_delivery check_cases check_routing check_returnable check_window check_kind facts_hold
    result select_policies canonical is_applicable max_priority top_tier one_params
    is_policy_in_effect policy_applies_to_category derive_item_window_eligibility read_category
    window_rule_gate window_fact derive_window_eligibility collect_packages one_observation delivery
    delivery_instant order_relation elapsed_natural_days local_date window_params
    parse_window_params positive is_text parse_utc_offset offset_of evidence_of logistics_evidence
    delivered_evidence versions_of state_of policy_ref is_policy_ref policy_refs order_status
    logistics_status reason_handoff_trigger lookup keys same_set subset all any filter member
    is_blank text_leb sorted insert read_state read_rows read_order read_item read_rest
    read_packages read_package read_cases read_pendings fetch single each all_distinct select_order
    joined select_item select_logistics select_cases selects_pending select_pendings version_cell
    text_cell member_cell count_cell timestamp_text timestamp_cell nullable_timestamp decode_order
    decode_item decode_package decode_case decode_pending case_type case_status pending_status is_id
    is_key after body repeated Outcome.constructs code_fits
one_row = refl

changed :
    core_of (start_action config moment identity return_action world).1.committed
    ≢ core_of world.committed
changed q = clash (ap (λ (c : Core). size c.pendings) q) one_row
  where
    clash : {n : ℕ} → n ≡ 0 → n ≡ 1 → ⊥
    clash h k = cc

no_handoff : ActionName.create_return ≢ ActionName.escalate_to_human
no_handoff q = cc

start_action-ClearedFor_example :
    (persona : Persona) × (config.services.persona identity.persona_id ≡ some persona)
    × ClearedFor config moment persona.customer_id none return_action (core_of world.committed)
start_action-ClearedFor_example =
    start_action-ClearedFor config moment identity return_action world waiting no_handoff started
      changed

start_return_waits_example :
    ((start_action config moment identity return_action world).1.committed.receipts ≡ [])
    × ((start_action config moment identity return_action world).1.committed.domain ≡ database)
start_return_waits_example = start_return_waits config moment identity return_action world refl refl

abbrev key : String
key = "s6k1-0123456789abcdef0123456789abcdef0123456789abcdef0123456789abcdef"

-- The row of the return, approved by an operator.
abbrev pub approved_row : PendingRecord
approved_row = record {
  pending_action_id = "PA-0123456789ABCDEF";
  idempotency_key = key;
  request_id = "req-1";
  persona_id = "persona-1";
  action_name = ActionName.create_return;
  args_json = "{}";
  args_sha256 = digest;
  target_order_id = "O1";
  target_order_item_id = "I1";
  status = PendingStatus.approved;
  guard_reason_code = ReasonCode.risk_policy_requires_approval;
  snapshot_json = "{}";
  snapshot_sha256 = digest;
  action_spec_version = "s6-actions/1";
  risk_policy_version = "s6-risk/1";
  policy_build_id = "b1";
  approval_decision = some Approval.approve;
  approver_ref = some "op-demo-1";
  decided_at = some 6;
  outcome_code = none;
  receipt_id = none;
  created_at = some 5;
  updated_at = 6;
  version = 2;
}

abbrev pub approved_world : World
approved_world = record {
  committed = record {
    domain = database;
    pendings = approved_row ∷ [];
    receipts = [];
    audits = [];
  };
  faults = [];
}

found :
    (p : PendingRecord) × (pending_at
        (idempotency_key services identity return_action)
        (approved_row ∷ [])
      ≡ some p)
unfolding pending_at idempotency_key
found = (approved_row, refl)

-- A second start finds the row.
start_action_once_example :
    Effected
      (λ c o after. Untouched c o after)
      approved_world.committed
      (start_action config moment identity return_action approved_world)
start_action_once_example =
    start_action_once config moment identity return_action approved_world (inr found)

abbrev count_receipts : List ReceiptRecord → ℕ
count_receipts [] = 0
count_receipts (r ∷ rs) = suc (count_receipts rs)

-- The approved return is executed: one receipt.
executed :
    count_receipts
      (execute_approved config moment "PA-0123456789ABCDEF" approved_world).1.committed.receipts
    ≡ 1
unfolding execute_approved resume_run load_approved confirm load_pending with_id request_identity
    request_id_of is_pending_action_id is_approver_ref receipt_for resume_confirmed resolve rebuild
    same_stored compare_stored stored_matches Snapshot.stale_reason rows_of set_changed
    version_changed compare_snapshots candidate_snapshot values_of entries_of to_items to_entries
    find_reason kind_of rule_type_of rows_value records_value parse_snapshot_document nonblank_text
    parse_rows parse_tables parse_records shape_of refs_of parse_entry parse_entries increasing
    refs_for parse_refs parse_facts member_reason parse_decision parse_time put_all first_parts put
    decide_again conclude_resume execute_now write_execution insert_resource insert_after_sales_case
    reason_label insert_row cases_fit case_ids active_items insert_receipt receipts_fit ids_of
    keys_of pending_ids_of resources_of mark_executed guarded update_tables update count linked
    decided capture decide_action new_id idempotency_key find_receipt receipt_at append_audit
    audit_fits add_audit query execute constraints row_fits status_fits distinct ids
    idempotency_keys receipt_ids open_items validate validate_arguments validate_items text_keys
    items_of texts registered check_args check_value valid_value validated meets decide check
    check_after_sales check_conflict derive_business_state_conflict read_field locator_of
    read_logistics add_field check_logistics check_packages package_statuses fired_rules fires
    delivery_established check_delivery check_cases check_routing check_returnable check_window
    check_kind facts_hold result select_policies canonical is_applicable max_priority top_tier
    one_params is_policy_in_effect policy_applies_to_category derive_item_window_eligibility
    read_category window_rule_gate window_fact derive_window_eligibility collect_packages
    one_observation delivery delivery_instant order_relation elapsed_natural_days local_date
    window_params parse_window_params positive is_text parse_utc_offset offset_of evidence_of
    logistics_evidence delivered_evidence versions_of state_of policy_ref is_policy_ref policy_refs
    order_status logistics_status reason_handoff_trigger lookup keys same_set subset all any filter
    member is_blank text_leb sorted insert read_state read_rows read_order read_item read_rest
    read_packages read_package read_cases read_pendings fetch single each all_distinct select_order
    joined select_item select_logistics select_cases selects_pending select_pendings version_cell
    text_cell member_cell count_cell timestamp_text timestamp_cell nullable_timestamp decode_order
    decode_item decode_package decode_case decode_pending case_type case_status pending_status is_id
    is_key after body repeated Outcome.constructs code_fits dict_eqb
executed = refl

receipts_changed :
    (execute_approved config moment "PA-0123456789ABCDEF" approved_world).1.committed.receipts ≢ []
receipts_changed q = clash (ap count_receipts q) executed
  where
    clash : {n : ℕ} → n ≡ 0 → n ≡ 1 → ⊥
    clash h k = cc

pub fits : constraints (approved_row ∷ []) ≡ true
unfolding constraints row_fits status_fits distinct ids idempotency_keys receipt_ids open_items all
    member
fits = refl

execute_approved-Effected_example :
    Effected
      (ApprovedEffect config moment "PA-0123456789ABCDEF")
      approved_world.committed
      (execute_approved config moment "PA-0123456789ABCDEF" approved_world)
execute_approved-Effected_example =
    execute_approved-Effected config moment "PA-0123456789ABCDEF" approved_world

execute_approved-Moved_example :
    Moved
      (approved_row ∷ [])
      (execute_approved config moment "PA-0123456789ABCDEF" approved_world).1.committed.pendings
execute_approved-Moved_example =
    execute_approved-Moved config moment "PA-0123456789ABCDEF" approved_world

execute_approved-IsApproved_example :
    IsApproved config moment "PA-0123456789ABCDEF"
      (core_of approved_world.committed)
      (core_of (execute_approved config moment "PA-0123456789ABCDEF" approved_world).1.committed)
execute_approved-IsApproved_example =
    execute_approved-IsApproved config moment "PA-0123456789ABCDEF" approved_world fits
      receipts_changed

sound : IsSound (core_of world.committed)
unfolding distinct keys_of
sound = record { once = refl; backed = λ r m. elim m [ ] }

run-IsSound_example : IsSound (
    core_of (
      run
        ((start config moment identity return_action, [])
          ∷ (execution config moment "PA-0123456789ABCDEF", true ∷ [])
          ∷ [])
        world.committed))
run-IsSound_example =
    run-IsSound
      ((start config moment identity return_action, [])
        ∷ (execution config moment "PA-0123456789ABCDEF", true ∷ [])
        ∷ [])
      world.committed sound

get_outcome-Truth_example :
    ((get_outcome "PA-0123456789ABCDEF" approved_world).1.committed ≡ approved_world.committed)
    × ((o : ActionOutcome)
        → (get_outcome "PA-0123456789ABCDEF" approved_world).0 ≡ ok o
        → (p : PendingRecord) × (receipt : Option ReceiptRecord) × (with_id "PA-0123456789ABCDEF"
              (approved_row ∷ [])
            ≡ some p)
          × IsTold (core_of approved_world.committed) p receipt o)
get_outcome-Truth_example = get_outcome-Truth "PA-0123456789ABCDEF" approved_world

abbrev ended_row : PendingRecord
ended_row = record approved_row {
  status = PendingStatus.executed;
  receipt_id = some "RC-0123456789ABCDEF";
  version = 3;
}

run_keeps_ended_example :
    In ended_row
      (run
        ((start config moment identity return_action, [])
          ∷ (execution config moment "PA-0123456789ABCDEF", true ∷ [])
          ∷ [])
        (record approved_world.committed { pendings = ended_row ∷ [] })).pendings
run_keeps_ended_example =
    run_keeps_ended
      ((start config moment identity return_action, [])
        ∷ (execution config moment "PA-0123456789ABCDEF", true ∷ [])
        ∷ [])
      (record approved_world.committed { pendings = ended_row ∷ [] }) ended_row (inl refl) tt
