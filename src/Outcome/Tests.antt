-- ===== src/Outcome/Tests.antt =====
-- Concrete outcomes and their texts (aftersales/action_outcome.py).
use knowledge_agent.Prelude.{true, false, none, some, ok, ◌≡◌, ◌≢◌, refl}
use knowledge_agent.Actions.{ActionName, ResourceType}
use knowledge_agent.Guard.Types.{GuardDecisionKind, ReasonCode}
use knowledge_agent.Outcome.{ActionStatus, reason, ActionOutcome, constructs, code_fits}
use knowledge_agent.Outcome.Render.{render, render_status}
use knowledge_agent.Outcome.Rendered.{IsHonest, render-IsHonest}

abbrev denied_return : ActionOutcome
denied_return = record {
  status = ActionStatus.denied;
  action_name = some ActionName.create_return;
  request_id = some "req-1";
  idempotent_replay = false;
  decision_conflict = false;
  approval_recorded = false;
  pending_action_id = none;
  receipt = none;
  guard = some (record {
    decision = GuardDecisionKind.deny;
    reason_code = ReasonCode.active_after_sales_case_exists;
  });
  code = some (reason ReasonCode.active_after_sales_case_exists);
}

abbrev executed_return : ActionOutcome
executed_return = record denied_return {
  status = ActionStatus.executed;
  receipt = some (record {
    receipt_id = "RC-1";
    resource_type = ResourceType.after_sales_case;
    resource_id = "AS6-1";
  });
  code = none;
}

executed_return_text : render executed_return ≡ ok "已提交退货申请（售后单号 AS6-1），当前状态：待处理。"
unfolding render render_status
executed_return_text = refl

denied_fits : constructs denied_return ≡ true
unfolding constructs code_fits
denied_fits = refl

denied_not_executed : denied_return.status ≢ ActionStatus.executed
denied_not_executed h = cc

render-IsHonest_example : IsHonest (render denied_return)
render-IsHonest_example = render-IsHonest denied_return denied_fits denied_not_executed
