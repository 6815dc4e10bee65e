-- ===== src/Gateway/Fresh.antt =====
-- From start_action to T2 (aftersales/action_gateway.py, _create_pending and _execute_approved): the
-- snapshot that a waiting request was stored with is compared with later records.
use knowledge_agent.Prelude.{
  String, true, false, none, some, ok, is_blank, all, ◌≡◌, refl, sym, eqb_refl, string_eq, nat_eq,
}
use knowledge_agent.Actions.{ValidatedAction, name_eq}
use knowledge_agent.Policy.{Instant}
use knowledge_agent.GuardState.{Rows, GuardState, versions_of}
use knowledge_agent.Guard.Types.{
  GuardDecision, GuardDecisionKind, decision_of, policy_refs, is_policy_ref, CatalogSnapshot,
}
use knowledge_agent.Snapshot
use knowledge_agent.Snapshot.{candidate_snapshot, GuardSnapshot}
use knowledge_agent.Snapshot.Json.{dict_value}
use knowledge_agent.Snapshot.Document.{document_value, snapshot_document}
use knowledge_agent.Snapshot.Records.{AllVersioned}
use knowledge_agent.Snapshot.RoundTrip.{parse-snapshot_document}
use knowledge_agent.Snapshot.Stale.{stale_reason-none}
use knowledge_agent.Ids.{RequestIdentity}
use knowledge_agent.Approval.{Approval}
use knowledge_agent.Outcome.{reason_number}
use knowledge_agent.Store.{Session, decided}
use knowledge_agent.Gateway.Execution.{Config, Moment, GuardCapture}
use knowledge_agent.Gateway.Attempt.{pending_row}
use knowledge_agent.Gateway.ResumeSteps.{compare_stored, stored_matches}

-- the capture of a state and a publication
abbrev pub taken : Config → ValidatedAction → GuardState → CatalogSnapshot → Instant → GuardCapture
taken cfg action state policy at = record {
  state = state;
  policy = policy;
  candidate = candidate_snapshot action.action_name state policy cfg.risk at;
}

unchanged-none :
    (s c : GuardSnapshot)
    → s.action_name ≡ c.action_name
    → s.records ≡ c.records
    → s.policy_build_id ≡ c.policy_build_id
    → s.action_spec_version ≡ c.action_spec_version
    → s.risk_policy_version ≡ c.risk_policy_version
    → Snapshot.stale_reason s c ≡ ok none
unchanged-none s c a r b v k = (stale_reason-none s c).1 (
  a,
  λ t. rw r (λ m. m, λ m. m),
  record { same_records = λ t m key. rw r refl; same_build = b; same_spec = v; same_risk = k },
)

-- The row that start_action stores for a request that waits, once an operator has approved it, is
-- not stale on any later capture with the same record versions and the same publication: where the
-- rows captured first have distinct keys that are not blank and versions from 1, in order; the build
-- id and the version of the risk policy are not blank; the decision requires an approval and passes
-- its construction checks; and the JSON and timestamp libraries read back what they wrote.
pub waiting_stays_fresh :
    (cfg : Config) (m : Moment) (identity : RequestIdentity) (action : ValidatedAction)
    (key : String) (state later : GuardState) (policy publication : CatalogSnapshot)
    (d : GuardDecision) (id approver : String) (decided_at at : Instant) (r : Rows) (s : Session)
    → state.versions ≡ versions_of action.action_name r
    → AllVersioned action.action_name r
    → is_blank policy.build_id ≡ false
    → is_blank cfg.risk.version ≡ false
    → d.decision ≡ GuardDecisionKind.require_approval
    → decision_of d.reason_code ≡ d.decision
    → all is_policy_ref (policy_refs d.facts.selected) ≡ true
    → is_blank (cfg.services.codec.isoformat m.now) ≡ false
    → cfg.services.codec.fromisoformat (cfg.services.codec.isoformat m.now)
      ≡ some (record { aware = true; instant = m.now })
    → cfg.services.codec.loads
        (snapshot_document cfg.services.codec (taken cfg action state policy m.now).candidate d)
      ≡ some (
          dict_value
            (document_value cfg.services.codec (taken cfg action state policy m.now).candidate d))
    → later.versions ≡ state.versions
    → publication.build_id ≡ policy.build_id
    → compare_stored cfg
        (decided Approval.approve approver decided_at decided_at
          (pending_row cfg m identity action key (taken cfg action state policy m.now) d id))
        (taken cfg action later publication at)
        s
      ≡ (ok none, s)
unfolding compare_stored decided candidate_snapshot stored_matches is_blank
waiting_stays_fresh cfg m identity action key state later policy publication d id approver
      decided_at at r s versions versioned build risk waits coded refs dated read loaded same
      same_build =
    let c = (taken cfg action state policy m.now).candidate in
    let parsed =
      parse-snapshot_document cfg.services.codec c d r versions versioned build refl risk coded refs
        dated read loaded in
    let fresh =
      unchanged-none c (taken cfg action later publication at).candidate refl (sym same)
        (sym same_build) refl refl in
    rw
      (
        parsed,
        waits,
        eqb_refl (reason_number d.reason_code),
        eqb_refl policy.build_id,
        eqb_refl cfg.risk.version,
        fresh,
      )
      refl
