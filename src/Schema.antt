-- ===== src/Schema.antt =====
-- aftersales/schema.py, aftersales/guard_state.py: the closed vocabularies of the after-sales
-- tables. A status is an enumeration here; `of_text` reads the text that a column holds.
use knowledge_agent.Prelude.{
  String, Bool, true, false, Option, none, some, ◌==◌, string_eq, if◌then◌else◌, ◌≡◌, refl,
}

pub data OrderStatus : Type 0 where
  pending_payment paid shipped delivered completed cancelled : OrderStatus

pub data LogisticsStatus : Type 0 where
  in_transit out_for_delivery delivered exception returned : LogisticsStatus

pub data CaseType : Type 0 where
  return exchange : CaseType

pub data CaseStatus : Type 0 where
  pending in_progress completed rejected cancelled : CaseStatus

pub data TicketStatus : Type 0 where
  pending in_progress closed : TicketStatus

-- The membership test of a column against its vocabulary.
unfoldable pub order_status : String → Option OrderStatus
order_status s =
    if s == "待付款"
    then some OrderStatus.pending_payment
    else if s == "已付款"
    then some OrderStatus.paid
    else if s == "已发货"
    then some OrderStatus.shipped
    else if s == "已签收"
    then some OrderStatus.delivered
    else if s == "已完成"
    then some OrderStatus.completed
    else if s == "已取消"
    then some OrderStatus.cancelled
    else none

unfoldable pub logistics_status : String → Option LogisticsStatus
logistics_status s =
    if s == "运输中"
    then some LogisticsStatus.in_transit
    else if s == "派送中"
    then some LogisticsStatus.out_for_delivery
    else if s == "已签收"
    then some LogisticsStatus.delivered
    else if s == "异常"
    then some LogisticsStatus.exception
    else if s == "退回"
    then some LogisticsStatus.returned
    else none

unfoldable pub case_type : String → Option CaseType
case_type s =
    if s == "return"
    then some CaseType.return
    else if s == "exchange"
    then some CaseType.exchange
    else none

unfoldable pub case_status : String → Option CaseStatus
case_status s =
    if s == "待处理"
    then some CaseStatus.pending
    else if s == "处理中"
    then some CaseStatus.in_progress
    else if s == "已完成"
    then some CaseStatus.completed
    else if s == "已拒绝"
    then some CaseStatus.rejected
    else if s == "已取消"
    then some CaseStatus.cancelled
    else none

unfoldable pub ticket_status : String → Option TicketStatus
ticket_status s =
    if s == "待处理"
    then some TicketStatus.pending
    else if s == "处理中"
    then some TicketStatus.in_progress
    else if s == "已关闭"
    then some TicketStatus.closed
    else none

-- UNDELIVERED_ORDER_STATUSES of aftersales/guard.py
abbrev pub is_undelivered : OrderStatus → Bool
is_undelivered OrderStatus.pending_payment = true
is_undelivered OrderStatus.paid = true
is_undelivered OrderStatus.shipped = true
is_undelivered _ = false

abbrev pub is_cancelled : OrderStatus → Bool
is_cancelled OrderStatus.cancelled = true
is_cancelled _ = false

-- ACTIVE_CASE_STATUSES
abbrev pub is_active : CaseStatus → Bool
is_active CaseStatus.pending = true
is_active CaseStatus.in_progress = true
is_active _ = false

abbrev pub is_completed : CaseStatus → Bool
is_completed CaseStatus.completed = true
is_completed _ = false

abbrev pub is_return : CaseType → Bool
is_return CaseType.return = true
is_return CaseType.exchange = false

-- OPEN_TICKET_STATUSES
abbrev pub is_open : TicketStatus → Bool
is_open TicketStatus.pending = true
is_open TicketStatus.in_progress = true
is_open TicketStatus.closed = false

-- `.value` of the two statuses that evidence carries
abbrev pub order_status_text : OrderStatus → String
order_status_text OrderStatus.pending_payment = "待付款"
order_status_text OrderStatus.paid = "已付款"
order_status_text OrderStatus.shipped = "已发货"
order_status_text OrderStatus.delivered = "已签收"
order_status_text OrderStatus.completed = "已完成"
order_status_text OrderStatus.cancelled = "已取消"

abbrev pub logistics_status_text : LogisticsStatus → String
logistics_status_text LogisticsStatus.in_transit = "运输中"
logistics_status_text LogisticsStatus.out_for_delivery = "派送中"
logistics_status_text LogisticsStatus.delivered = "已签收"
logistics_status_text LogisticsStatus.exception = "异常"
logistics_status_text LogisticsStatus.returned = "退回"

pub order_status-text : (s : OrderStatus) → order_status (order_status_text s) ≡ some s
unfolding order_status
order_status-text OrderStatus.pending_payment = refl
order_status-text OrderStatus.paid = refl
order_status-text OrderStatus.shipped = refl
order_status-text OrderStatus.delivered = refl
order_status-text OrderStatus.completed = refl
order_status-text OrderStatus.cancelled = refl

pub logistics_status-text :
    (s : LogisticsStatus) → logistics_status (logistics_status_text s) ≡ some s
unfolding logistics_status
logistics_status-text LogisticsStatus.in_transit = refl
logistics_status-text LogisticsStatus.out_for_delivery = refl
logistics_status-text LogisticsStatus.delivered = refl
logistics_status-text LogisticsStatus.exception = refl
logistics_status-text LogisticsStatus.returned = refl

-- The states of a pending action (action_store.py).
pub data PendingStatus : Type 0 where
  pending_approval approved rejected executed stale denied failed : PendingStatus

unfoldable pub pending_status : String → Option PendingStatus
pending_status s =
    if s == "PENDING_APPROVAL"
    then some PendingStatus.pending_approval
    else if s == "APPROVED"
    then some PendingStatus.approved
    else if s == "REJECTED"
    then some PendingStatus.rejected
    else if s == "EXECUTED"
    then some PendingStatus.executed
    else if s == "STALE"
    then some PendingStatus.stale
    else if s == "DENIED"
    then some PendingStatus.denied
    else if s == "FAILED"
    then some PendingStatus.failed
    else none

-- `status IN ('PENDING_APPROVAL', 'APPROVED')`: a request that is still open
abbrev pub is_open_pending : PendingStatus → Bool
is_open_pending PendingStatus.pending_approval = true
is_open_pending PendingStatus.approved = true
is_open_pending _ = false

-- FAILURE_CODES of aftersales/action_errors.py
pub data FailureCode : Type 0 where
  transaction_failed state_read_failed state_malformed state_version_missing : FailureCode
  policy_unavailable guard_internal_error identity_unresolvable : FailureCode
  id_generation_failed write_failed invariant_violation : FailureCode

-- the text of a status in its column
abbrev pub pending_status_text : PendingStatus → String
pending_status_text PendingStatus.pending_approval = "PENDING_APPROVAL"
pending_status_text PendingStatus.approved = "APPROVED"
pending_status_text PendingStatus.rejected = "REJECTED"
pending_status_text PendingStatus.executed = "EXECUTED"
pending_status_text PendingStatus.stale = "STALE"
pending_status_text PendingStatus.denied = "DENIED"
pending_status_text PendingStatus.failed = "FAILED"
