-- ===== src/Gateway/FreshTests.antt =====
-- A return that waits, compared on later records (aftersales/action_gateway.py).
use knowledge_agent.Prelude.{none, some, ok, [], ◌∷◌, ◌≡◌, refl, is_blank, all}
use knowledge_agent.Actions.{ActionName}
use knowledge_agent.Guard.Types.{s6_risk_policy, policy_refs, is_policy_ref}
use knowledge_agent.Guard.Tests.{
  return_action, captured_state, catalog, now, approved, delivered_rows,
}
use knowledge_agent.GuardState.{state_of}
use knowledge_agent.GuardState.Tests.{all_read}
use knowledge_agent.Approval.{Approval}
use knowledge_agent.Ids.{RequestIdentity}
use knowledge_agent.Snapshot.{candidate_snapshot}
use knowledge_agent.Snapshot.Document.{snapshot_document}
use knowledge_agent.Snapshot.Tests.{codec, delivered-AllVersioned}
use knowledge_agent.Store.{decided}
use knowledge_agent.Gateway.Tests.{session}
use knowledge_agent.Gateway.Execution.{Services, Config, Moment}
use knowledge_agent.Gateway.Attempt.{pending_row}
use knowledge_agent.Gateway.ResumeSteps.{compare_stored}
use knowledge_agent.Gateway.Fresh.{taken, waiting_stays_fresh}

abbrev services : Services
services = record {
  codec = codec;
  args_text = λ args. "{}";
  key_text = λ identity action. "";
  parse_args = λ s. none;
  persona = λ id. none;
  new_id = λ kind key. none;
}

abbrev config : Config
config = record {
  services = services;
  actions = ActionName.create_return ∷ [];
  risk = s6_risk_policy;
}

abbrev moment : Moment
moment = record { now = now; answer = all_read; catalog = some catalog }

abbrev asker : RequestIdentity
asker = record { persona_id = "P1"; request_id = "req-1" }

waiting_stays_fresh_example :
    compare_stored config
      (decided Approval.approve "op-1" 7 7 (
        pending_row config moment asker return_action "s6k1-"
          (taken config return_action captured_state catalog now)
          approved
          "PA-0123456789ABCDEF"))
      (taken config return_action captured_state catalog 9)
      session
    ≡ (ok none, session)
unfolding is_blank policy_refs is_policy_ref all snapshot_document candidate_snapshot state_of
waiting_stays_fresh_example =
    waiting_stays_fresh config moment asker return_action "s6k1-" captured_state captured_state
      catalog catalog approved "PA-0123456789ABCDEF" "op-1" 7 9 delivered_rows session refl
      delivered-AllVersioned refl refl refl refl refl refl refl refl refl refl
