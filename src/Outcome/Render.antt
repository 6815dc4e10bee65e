-- ===== src/Outcome/Render.antt =====
-- aftersales/action_outcome.py: ActionOutcomeRenderer, its fixed texts, and the phrases that claim
-- a completed action.
use Prim.Native.String.{◌++◌}
use knowledge_agent.Prelude.{
  ℕ, String, Bool, true, false, ◌&&◌, ◌||◌, Option, none, some, List, [], ◌∷◌, Result, ok, err,
  nat_eqb, any, codes,
}
use knowledge_agent.Actions.{ActionName, ResourceType}
use knowledge_agent.Guard.Types.{ReasonCode}
use knowledge_agent.Outcome.{ActionStatus, Code, reason, ReceiptView, ActionOutcome}

-- ACTION_LABELS
abbrev pub action_label : ActionName → String
action_label ActionName.create_return = "退货"
action_label ActionName.create_exchange = "换货"
action_label ActionName.escalate_to_human = "转人工"

-- COMPLETION_CLAIM_MARKERS
abbrev pub completion_claim_markers : List String
completion_claim_markers =
    "已提交" ∷ "已为您提交" ∷ "已办理" ∷ "已退款" ∷ "已创建" ∷ "已为您创建" ∷ "已转人工" ∷ "已为您换" ∷ "已受理" ∷ []

unfoldable pub starts_with : List ℕ → List ℕ → Bool
starts_with [] cs = true
starts_with (p ∷ ps) [] = false
starts_with (p ∷ ps) (c ∷ cs) = nat_eqb p c && starts_with ps cs

-- `marker in text`
unfoldable pub occurs_in : List ℕ → List ℕ → Bool
occurs_in p [] = starts_with p []
occurs_in p (c ∷ cs) = starts_with p (c ∷ cs) || occurs_in p cs

-- `any(marker in text for marker in COMPLETION_CLAIM_MARKERS)`
unfoldable pub claims_completion : String → Bool
claims_completion text = any (λ m. occurs_in (codes m) (codes text)) completion_claim_markers

-- DENIED_EXPLANATIONS: the explanation, and whether it says that nothing was submitted
abbrev pub denied_explanation : ReasonCode → Option (String × Bool)
denied_explanation ReasonCode.order_not_accessible = some ("当前身份下未找到该订单。", false)
denied_explanation ReasonCode.order_item_not_in_order = some ("该订单中没有找到这件商品。", false)
denied_explanation ReasonCode.business_state_conflict = some ("订单或物流记录目前无法确认，请联系人工客服核实。", false)
denied_explanation ReasonCode.delivery_not_established = some ("订单或物流记录目前无法确认，请联系人工客服核实。", false)
denied_explanation ReasonCode.policy_conflict = some ("订单或物流记录目前无法确认，请联系人工客服核实。", false)
denied_explanation ReasonCode.not_delivered = some ("订单尚未签收，暂时无法提交该申请。", false)
denied_explanation ReasonCode.order_status_ineligible = some ("该订单当前状态不支持该申请。", false)
denied_explanation ReasonCode.active_after_sales_case_exists = some ("这件商品已有处理中的售后申请，没有重复提交。", true)
denied_explanation ReasonCode.pending_request_exists = some ("这件商品已有处理中的售后申请，没有重复提交。", true)
denied_explanation ReasonCode.item_already_returned = some ("这件商品已完成退货。", false)
denied_explanation ReasonCode.handoff_required = some ("该问题需要人工核实；如需要，可以申请转人工处理。", false)
denied_explanation ReasonCode.non_returnable = some ("该商品属于不支持退货的品类。", false)
denied_explanation ReasonCode.no_applicable_policy = some ("当前没有适用于该商品的售后规则。", false)
denied_explanation ReasonCode.return_window_closed = some ("该商品已超过退货时限。", false)
denied_explanation ReasonCode.exchange_window_closed = some ("该商品已超过换货时限。", false)
denied_explanation ReasonCode.exchange_target_invalid = some ("目标商品不能用于这次换货。", false)
denied_explanation ReasonCode.exchange_target_incompatible = some ("目标商品不能用于这次换货。", false)
denied_explanation ReasonCode.inventory_unavailable = some ("目标商品当前库存不足。", false)
denied_explanation ReasonCode.handoff_not_required = some ("当前规则下该问题不需要转人工。", false)
denied_explanation ReasonCode.handoff_ticket_exists = some ("这件商品已有处理中的人工工单，没有重复创建。", true)
denied_explanation ReasonCode.risk_policy_requires_approval = none
denied_explanation ReasonCode.risk_policy_allows = none

-- What `render` raises: the label of no action or the explanation of another code, the field of no
-- receipt, or the resource of another action.
pub data RenderError : Type 0 where
  key_error attribute_error value_error : RenderError

-- EXECUTED, by the action and the resource of its receipt
abbrev pub executed_text : ActionName → ResourceType → String → Result RenderError String
executed_text ActionName.create_return ResourceType.after_sales_case id =
    ok ("已提交退货申请（售后单号 " ++ id ++ "），当前状态：待处理。")
executed_text ActionName.create_exchange ResourceType.after_sales_case id =
    ok ("已提交换货申请（售后单号 " ++ id ++ "），当前状态：待处理。换货申请提交后不会立即发货。")
executed_text ActionName.escalate_to_human ResourceType.human_handoff_ticket id =
    ok ("已创建人工客服工单（工单号 " ++ id ++ "），客服会跟进处理。")
executed_text name resource id = err value_error

abbrev pub render_executed : Option ActionName → Option ReceiptView → Result RenderError String
render_executed none receipt = err value_error
render_executed (some name) none = err attribute_error
render_executed (some name) (some r) = executed_text name r.resource_type r.resource_id

-- a text around the label of the action
abbrev pub labelled : String → String → Option ActionName → Result RenderError String
labelled before rest none = err key_error
labelled before rest (some name) = ok (before ++ action_label name ++ rest)

-- the end of a denial, by action
abbrev pub denial_end : Option ActionName → String
denial_end (some ActionName.escalate_to_human) = "工单没有创建。"
denial_end name = "申请没有提交。"

-- the text of a denial, with its end
abbrev pub denied_told : String → Option (String × Bool) → Result RenderError String
denied_told ending none = err key_error
denied_told ending (some (explanation, true)) = ok explanation
denied_told ending (some (explanation, false)) = ok (explanation ++ ending)

-- DENIED
abbrev pub denied_text : Option ActionName → ReasonCode → Result RenderError String
denied_text name code = denied_told (denial_end name) (denied_explanation code)

abbrev pub render_denied : Option ActionName → Option Code → Result RenderError String
render_denied name (some (reason code)) = denied_text name code
render_denied name code = err key_error

-- `ActionOutcomeRenderer.render`, by status
unfoldable pub render_status : ActionStatus → ActionOutcome → Result RenderError String
render_status ActionStatus.executed o = render_executed o.action_name o.receipt
render_status ActionStatus.waiting_approval o =
    labelled "该" "申请需要人工审批，目前正在等待审批；审批通过前不会执行。" o.action_name
render_status ActionStatus.rejected o =
    labelled "您的" "申请未通过人工审批，该操作没有执行。如需进一步处理，可以联系人工客服。" o.action_name
render_status ActionStatus.stale o = ok "审批期间订单或售后状态发生了变化，原申请没有执行。请重新发起申请，我们会按最新状态重新核对。"
render_status ActionStatus.failed o = ok "系统暂时无法完成该操作，申请没有提交。请稍后再试，或联系人工客服。"
render_status ActionStatus.denied o = render_denied o.action_name o.code

unfoldable pub render : ActionOutcome → Result RenderError String
render o = render_status o.status o
