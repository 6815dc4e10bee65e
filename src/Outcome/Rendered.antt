-- ===== src/Outcome/Rendered.antt =====
-- aftersales/action_outcome.py: what the renderer says of an outcome that was not executed.
use knowledge_agent.Prelude.{
  String, true, false, Option, none, some, Result, ok, ◌≡◌, ◌≢◌, refl, arith, any,
}
use knowledge_agent.Actions.{ActionName}
use knowledge_agent.Guard.Types.{ReasonCode, decision_of}
use knowledge_agent.Outcome.{
  ActionStatus, Code, reason, failure, stale_reason, approval_rejected, GuardView, ActionOutcome,
  is_deny, named, code_fits, constructs,
}
use knowledge_agent.Outcome.Render.{
  RenderError, starts_with, occurs_in, claims_completion, denied_text, render_denied, labelled,
  render_status, render,
}

-- A text that claims no completed action.
abbrev pub IsHonest : Result RenderError String → Type 0
IsHonest r = (text : String) × (r ≡ ok text) × (claims_completion text ≡ false)

no_text : false ≡ true → ⊥
no_text h = cc

explained :
    (code : ReasonCode)
    → is_deny (decision_of code) ≡ true
    → IsHonest (denied_text none code)
      × IsHonest (denied_text (some ActionName.escalate_to_human) code)
unfolding claims_completion occurs_in starts_with any
explained ReasonCode.order_not_accessible h = ((_, refl, refl), (_, refl, refl))
explained ReasonCode.order_item_not_in_order h = ((_, refl, refl), (_, refl, refl))
explained ReasonCode.business_state_conflict h = ((_, refl, refl), (_, refl, refl))
explained ReasonCode.order_status_ineligible h = ((_, refl, refl), (_, refl, refl))
explained ReasonCode.not_delivered h = ((_, refl, refl), (_, refl, refl))
explained ReasonCode.delivery_not_established h = ((_, refl, refl), (_, refl, refl))
explained ReasonCode.active_after_sales_case_exists h = ((_, refl, refl), (_, refl, refl))
explained ReasonCode.item_already_returned h = ((_, refl, refl), (_, refl, refl))
explained ReasonCode.pending_request_exists h = ((_, refl, refl), (_, refl, refl))
explained ReasonCode.handoff_required h = ((_, refl, refl), (_, refl, refl))
explained ReasonCode.non_returnable h = ((_, refl, refl), (_, refl, refl))
explained ReasonCode.no_applicable_policy h = ((_, refl, refl), (_, refl, refl))
explained ReasonCode.policy_conflict h = ((_, refl, refl), (_, refl, refl))
explained ReasonCode.return_window_closed h = ((_, refl, refl), (_, refl, refl))
explained ReasonCode.exchange_window_closed h = ((_, refl, refl), (_, refl, refl))
explained ReasonCode.exchange_target_invalid h = ((_, refl, refl), (_, refl, refl))
explained ReasonCode.exchange_target_incompatible h = ((_, refl, refl), (_, refl, refl))
explained ReasonCode.inventory_unavailable h = ((_, refl, refl), (_, refl, refl))
explained ReasonCode.handoff_not_required h = ((_, refl, refl), (_, refl, refl))
explained ReasonCode.handoff_ticket_exists h = ((_, refl, refl), (_, refl, refl))
explained ReasonCode.risk_policy_requires_approval h = absurd (no_text h)
explained ReasonCode.risk_policy_allows h = absurd (no_text h)

denied_text-IsHonest :
    (name : Option ActionName) (code : ReasonCode)
    → is_deny (decision_of code) ≡ true
    → IsHonest (denied_text name code)
denied_text-IsHonest none code h = (explained code h).0
denied_text-IsHonest (some ActionName.create_return) code h = (explained code h).0
denied_text-IsHonest (some ActionName.create_exchange) code h = (explained code h).0
denied_text-IsHonest (some ActionName.escalate_to_human) code h = (explained code h).1

render_denied-IsHonest :
    (name : Option ActionName) (g : Option GuardView) (code : Option Code)
    → code_fits ActionStatus.denied g code ≡ true
    → IsHonest (render_denied name code)
unfolding code_fits
render_denied-IsHonest name (some g) (some (reason r)) h =
    denied_text-IsHonest name r (ground (arith, h))
render_denied-IsHonest name (some g) (some (failure c)) h = absurd (no_text h)
render_denied-IsHonest name (some g) (some (stale_reason c)) h = absurd (no_text h)
render_denied-IsHonest name (some g) (some approval_rejected) h = absurd (no_text h)
render_denied-IsHonest name (some g) none h = absurd (no_text h)
render_denied-IsHonest name none code h = absurd (no_text h)

waiting-IsHonest :
    (name : Option ActionName) (request pending : Option String)
    → named name request ActionStatus.waiting_approval pending ≡ true
    → IsHonest (labelled "该" "申请需要人工审批，目前正在等待审批；审批通过前不会执行。" name)
unfolding claims_completion occurs_in starts_with any
waiting-IsHonest (some ActionName.create_return) request pending h = (_, refl, refl)
waiting-IsHonest (some ActionName.create_exchange) request pending h = (_, refl, refl)
waiting-IsHonest (some ActionName.escalate_to_human) request pending h = (_, refl, refl)
waiting-IsHonest none none pending h = absurd (no_text h)
waiting-IsHonest none (some r) pending h = absurd (no_text h)

rejected-IsHonest :
    (name : Option ActionName) (request pending : Option String)
    → named name request ActionStatus.rejected pending ≡ true
    → IsHonest (labelled "您的" "申请未通过人工审批，该操作没有执行。如需进一步处理，可以联系人工客服。" name)
unfolding claims_completion occurs_in starts_with any
rejected-IsHonest (some ActionName.create_return) request pending h = (_, refl, refl)
rejected-IsHonest (some ActionName.create_exchange) request pending h = (_, refl, refl)
rejected-IsHonest (some ActionName.escalate_to_human) request pending h = (_, refl, refl)
rejected-IsHonest none none pending h = absurd (no_text h)
rejected-IsHonest none (some r) pending h = absurd (no_text h)

render_status-IsHonest :
    (s : ActionStatus) (o : ActionOutcome)
    → named o.action_name o.request_id s o.pending_action_id ≡ true
    → code_fits s o.guard o.code ≡ true
    → s ≢ ActionStatus.executed
    → IsHonest (render_status s o)
unfolding render_status claims_completion occurs_in starts_with any
render_status-IsHonest ActionStatus.executed o n h k = absurd (k refl)
render_status-IsHonest ActionStatus.waiting_approval o n h k =
    waiting-IsHonest o.action_name o.request_id o.pending_action_id n
render_status-IsHonest ActionStatus.rejected o n h k =
    rejected-IsHonest o.action_name o.request_id o.pending_action_id n
render_status-IsHonest ActionStatus.stale o n h k = (_, refl, refl)
render_status-IsHonest ActionStatus.failed o n h k = (_, refl, refl)
render_status-IsHonest ActionStatus.denied o n h k =
    render_denied-IsHonest o.action_name o.guard o.code h

-- Every outcome that passes its checks and is not EXECUTED is rendered, without an error, as a text
-- that has none of the phrases that claim a completed action.
pub render-IsHonest :
    (o : ActionOutcome)
    → constructs o ≡ true
    → o.status ≢ ActionStatus.executed
    → IsHonest (render o)
unfolding render constructs
render-IsHonest o h k = render_status-IsHonest o.status o (ground (arith, h)) (ground (arith, h)) k
