-- ===== src/Gateway/ExecutesTests.antt =====
-- An approved return whose records have not changed, in T2 (aftersales/action_gateway.py).
use knowledge_agent.Prelude.{some, ok, [], ◌∷◌, ◌≡◌, refl, all, member, is_blank}
use knowledge_agent.Prelude.Dict.{lookup}
use knowledge_agent.Schema.{CaseType}
use knowledge_agent.Guard.Tests.{
  return_action, catalog, now, approved, captured_state, return_approved,
}
use knowledge_agent.GuardState.Templates.{Database}
use knowledge_agent.Actions.{ActionName}
use knowledge_agent.Outcome.{ActionOutcome}
use knowledge_agent.Snapshot.{candidate_snapshot}
use knowledge_agent.Snapshot.Stale.{SameTables, Unchanged}
use knowledge_agent.Store.Replaced.{IsReplaced}
use knowledge_agent.Store.{Tables, ReceiptRecord}
use knowledge_agent.Ids.{is_pending_action_id}
use knowledge_agent.Store.Inserts.{case_row}
use knowledge_agent.Gateway.Execution.{GuardCapture}
use knowledge_agent.Gateway.Resource.{with_resource}
use knowledge_agent.Gateway.Added.{IsResourceAdded}
use knowledge_agent.Gateway.Executed.{IsToldExecuted, executed_row, IsReceiptOf}
use knowledge_agent.Gateway.Executes.{resume_executes}
use knowledge_agent.Gateway.Fresh.{taken}
use knowledge_agent.Gateway.Resume.{execute_approved}
use knowledge_agent.Gateway.RunTests.{fits, config, moment, identity, approved_row, approved_world}
use knowledge_agent.Gateway.StaleTests.{
  args, owner, stored, state_read, valid, verified, matching, same_args,
}

abbrev domain : Database
domain = record approved_world.committed.domain {
  after_sales_cases =
      case_row "AS6-0123456789ABCDEF" return_action "C1" CaseType.return "不想要了（无理由退货）"
        "2026-01-04T00:00:00+08:00"
      ∷ [];
}

case_accepted :
    with_resource return_action.action_name "AS6-0123456789ABCDEF" return_action "C1"
      (config.services.codec.isoformat now)
      approved_world.committed.domain
    ≡ some domain
unfolding with_resource lookup knowledge_agent.Store.Inserts.reason_label
    knowledge_agent.Store.Inserts.cases_fit knowledge_agent.Store.distinct
    knowledge_agent.Store.Inserts.case_ids member knowledge_agent.Store.Inserts.active_items
case_accepted = refl

abbrev recapture : GuardCapture
recapture = taken config return_action captured_state catalog now

same_tables : SameTables stored.snapshot recapture.candidate
unfolding candidate_snapshot
same_tables t = (λ m. m, λ m. m)

unchanged : Unchanged stored.snapshot recapture.candidate
unfolding candidate_snapshot
unchanged = record {
  same_records = λ t m k. refl;
  same_build = refl;
  same_spec = refl;
  same_risk = refl;
}

resume_executes_example :
    (o : ActionOutcome) × (u : Tables) × (r : ReceiptRecord) × (execute_approved config moment
        "PA-0123456789ABCDEF" approved_world
      ≡ (ok o, record { committed = u; faults = [] }))
    × IsToldExecuted approved_row "RC-0123456789ABCDEF" "AS6-0123456789ABCDEF" o
    × IsReplaced approved_row
        (executed_row approved_row "RC-0123456789ABCDEF" now)
        (approved_row ∷ [])
        u.pendings
    × (u.receipts ≡ r ∷ [])
    × IsReceiptOf approved_row "RC-0123456789ABCDEF" "AS6-0123456789ABCDEF" now r
    × IsResourceAdded ActionName.create_return "O1" "I1" return_action.args "AS6-0123456789ABCDEF"
        "C1"
        (config.services.codec.isoformat now)
        approved_world.committed.domain
        u.domain
unfolding is_pending_action_id all member is_blank knowledge_agent.Ids.after
    knowledge_agent.Ids.body knowledge_agent.Ids.is_key knowledge_agent.Ids.is_id
    knowledge_agent.Ids.repeated knowledge_agent.Ids.request_id_of
    knowledge_agent.Ids.request_identity knowledge_agent.Store.Inserts.receipt_at
    knowledge_agent.Store.with_id knowledge_agent.Store.Inserts.receipts_fit
    knowledge_agent.Store.Inserts.ids_of knowledge_agent.Store.Inserts.keys_of
    knowledge_agent.Store.Inserts.pending_ids_of knowledge_agent.Store.Inserts.resources_of
    knowledge_agent.Store.constraints knowledge_agent.Store.row_fits
    knowledge_agent.Store.status_fits knowledge_agent.Store.distinct knowledge_agent.Store.ids
    knowledge_agent.Store.idempotency_keys knowledge_agent.Store.receipt_ids
    knowledge_agent.Store.open_items knowledge_agent.Store.update knowledge_agent.Store.linked
    candidate_snapshot
resume_executes_example =
    resume_executes config moment approved_world.committed approved_row identity owner args
      return_action captured_state catalog stored approved "AS6-0123456789ABCDEF"
      "RC-0123456789ABCDEF" domain refl refl fits refl refl return_approved refl refl refl refl refl
      refl case_accepted refl refl refl refl refl valid same_args state_read refl verified matching
      refl same_tables unchanged refl refl
