-- ===== src/Gateway/StaleTests.antt =====
-- An approved return whose rules were published anew, in T2 (aftersales/action_gateway.py).
use knowledge_agent.Prelude.{◌*◌, String, true, some, none, ok, [], ◌∷◌, ◌≡◌, refl}
use knowledge_agent.Actions.{ActionName, Arguments, mapping, text, name_text, validate}
use knowledge_agent.Actions.Revalidation.{texts}
use knowledge_agent.Actions.Contract.{items_of}
use knowledge_agent.Guard.Types.{CatalogSnapshot, s6_risk_policy}
use knowledge_agent.Guard.Tests.{
  return_action, catalog, now, approved, delivered_rows, captured_state,
}
use knowledge_agent.GuardState.{GuardState, state_of}
use knowledge_agent.GuardState.Reader.{read_state}
use knowledge_agent.Prelude.{all, any, member, filter, is_blank, text_leb}
use knowledge_agent.Prelude.Dict.{lookup}
use knowledge_agent.Prelude.Sort.{insert, sorted}
use knowledge_agent.Schema.{order_status, logistics_status, case_type, case_status, pending_status}
use knowledge_agent.GuardState.Cells.{
  version_cell, text_cell, member_cell, count_cell, timestamp_text, timestamp_cell,
  nullable_timestamp, decode_order, decode_item, decode_package, decode_case, decode_pending,
}
use knowledge_agent.GuardState.Templates.{
  select_order, joined, select_item, select_logistics, select_cases, selects_pending,
  select_pendings,
}
use knowledge_agent.GuardState.Reader.{
  fetch, single, each, all_distinct, read_package, read_packages, read_cases, read_pendings,
  read_rest, read_item, read_order, read_rows,
}
use knowledge_agent.Policy.{day}
use knowledge_agent.Snapshot
use knowledge_agent.Snapshot.{GuardSnapshot, StaleReason, candidate_snapshot}
use knowledge_agent.Snapshot.Parser.{StoredSnapshot, parse_snapshot_document}
use knowledge_agent.Snapshot.RoundTrip.{stored_of}
use knowledge_agent.Gateway.Execution.{Config, Moment, Persona, source_of}
use knowledge_agent.Gateway.Fresh.{taken}
use knowledge_agent.Gateway.ResumeSteps.{same_stored, stored_matches}
use knowledge_agent.Snapshot.Stale.{SameTables, Unchanged}
use knowledge_agent.Store.Replaced.{IsReplaced}
use knowledge_agent.Ids.{is_pending_action_id}
use knowledge_agent.Outcome.{ActionOutcome, ActionStatus, stale_reason}
use knowledge_agent.Store.{Tables}
use knowledge_agent.Gateway.Resume.{execute_approved}
use knowledge_agent.Gateway.ClosedStale.{stale_row, resume_ends_stale}
use knowledge_agent.Gateway.RunTests.{fits, config, moment, identity, approved_row, approved_world}

abbrev newer : CatalogSnapshot
newer = record catalog { build_id = "build-2" }

abbrev later : Moment
later = record moment { catalog = some newer }

abbrev pub args : Arguments
args = mapping (items_of (texts return_action.args))

abbrev pub owner : Persona
owner = record { persona_id = "persona-1"; customer_id = "C1" }

abbrev pub stored : StoredSnapshot
stored =
    stored_of
      (record (candidate_snapshot ActionName.create_return captured_state catalog s6_risk_policy
        5) { evaluated_at = 97 * day })
      approved

pub state_read :
    read_state
      (source_of config later "C1" (some approved_row.pending_action_id) approved_world.committed)
      return_action
      now
    ≡ ok (state_of return_action.action_name now delivered_rows)
unfolding read_state read_rows read_order read_item read_rest read_packages read_package read_cases
    read_pendings fetch single each all_distinct select_order joined select_item select_logistics
    select_cases selects_pending select_pendings filter any all member insert sorted version_cell
    text_cell member_cell count_cell timestamp_text timestamp_cell nullable_timestamp decode_order
    decode_item decode_package decode_case decode_pending order_status logistics_status case_type
    case_status pending_status is_blank text_leb lookup
state_read = refl

pub valid :
    validate config.actions (text (name_text ActionName.create_return)) args ≡ ok return_action
unfolding validate all any is_blank items_of knowledge_agent.Actions.check_args
    knowledge_agent.Actions.check_value knowledge_agent.Actions.registered
    knowledge_agent.Actions.text_keys knowledge_agent.Actions.valid_value
    knowledge_agent.Actions.validate_arguments knowledge_agent.Actions.validate_items
    knowledge_agent.Actions.validated knowledge_agent.Prelude.Dict.keys
    knowledge_agent.Prelude.Dict.meets knowledge_agent.Prelude.Dict.same_set
    knowledge_agent.Prelude.Dict.subset lookup member texts
valid = refl

pub verified :
    parse_snapshot_document config.services.codec approved_row.snapshot_json
      approved_row.snapshot_sha256 ActionName.create_return
    ≡ ok stored
unfolding parse_snapshot_document all candidate_snapshot insert is_blank
    knowledge_agent.Derived.locator_of knowledge_agent.Guard.Types.is_policy_ref
    knowledge_agent.GuardState.delivered_evidence knowledge_agent.GuardState.evidence_of
    knowledge_agent.GuardState.logistics_evidence knowledge_agent.GuardState.versions_of
    knowledge_agent.Prelude.Dict.keys knowledge_agent.Prelude.Dict.put
    knowledge_agent.Prelude.Dict.same_set knowledge_agent.Prelude.Dict.subset
    knowledge_agent.Prelude.Maps.put_all knowledge_agent.Snapshot.Document.records_value
    knowledge_agent.Snapshot.Document.rows_value knowledge_agent.Snapshot.Json.entries_of
    knowledge_agent.Snapshot.Json.to_entries knowledge_agent.Snapshot.Json.values_of
    knowledge_agent.Snapshot.Parser.increasing knowledge_agent.Snapshot.Parser.member_reason
    knowledge_agent.Snapshot.Parser.nonblank_text knowledge_agent.Snapshot.Parser.parse_decision
    knowledge_agent.Snapshot.Parser.parse_entries knowledge_agent.Snapshot.Parser.parse_entry
    knowledge_agent.Snapshot.Parser.parse_facts knowledge_agent.Snapshot.Parser.parse_records
    knowledge_agent.Snapshot.Parser.parse_refs knowledge_agent.Snapshot.Parser.parse_rows
    knowledge_agent.Snapshot.Parser.parse_tables knowledge_agent.Snapshot.Parser.parse_time
    knowledge_agent.Snapshot.Parser.refs_for knowledge_agent.Snapshot.Parser.refs_of
    knowledge_agent.Snapshot.Parser.shape_of knowledge_agent.Snapshot.Words.find_reason
    knowledge_agent.Snapshot.Words.kind_of knowledge_agent.Snapshot.Words.rule_type_of lookup member
    order_status sorted state_of text_leb knowledge_agent.Snapshot.Json.to_items
verified = refl

pub matching : stored_matches stored approved_row ≡ true
unfolding stored_matches candidate_snapshot
matching = refl

abbrev now_candidate : GuardSnapshot
now_candidate =
    (taken config return_action (state_of return_action.action_name now delivered_rows) newer
      now).candidate

same_tables : SameTables stored.snapshot now_candidate
unfolding candidate_snapshot
same_tables t = (λ m. m, λ m. m)

republished : ¬ (Unchanged stored.snapshot now_candidate)
unfolding candidate_snapshot
republished u = other u.same_build
  where
    other : catalog.build_id ≡ newer.build_id → ⊥
    other q = cc

pub same_args : same_stored config.services approved_row identity return_action ≡ true
unfolding same_stored knowledge_agent.Gateway.Execution.idempotency_key
same_args = refl

resume_ends_stale_example :
    (o : ActionOutcome) × (u : Tables) × (r : StaleReason) × (execute_approved config later
        "PA-0123456789ABCDEF" approved_world
      ≡ (ok o, record { committed = u; faults = [] }))
    × (o.status ≡ ActionStatus.stale)
    × (o.code ≡ some (stale_reason r))
    × IsReplaced approved_row (stale_row approved_row r now) (approved_row ∷ []) u.pendings
    × (u.receipts ≡ [])
    × (u.domain ≡ approved_world.committed.domain)
unfolding is_pending_action_id all is_blank knowledge_agent.Ids.after knowledge_agent.Ids.body
    knowledge_agent.Ids.is_key knowledge_agent.Ids.repeated knowledge_agent.Ids.request_id_of
    knowledge_agent.Ids.request_identity knowledge_agent.Store.Inserts.receipt_at
    knowledge_agent.Store.with_id candidate_snapshot
resume_ends_stale_example =
    resume_ends_stale config later approved_world.committed approved_row identity owner args
      return_action (state_of return_action.action_name now delivered_rows) newer stored refl refl
      refl valid same_args state_read refl verified matching refl same_tables republished refl refl
      refl fits refl refl refl
