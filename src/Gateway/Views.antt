-- ===== src/Gateway/Views.antt =====
-- What the gateway says about a stored pending action (`_pending_outcome` of
-- aftersales/action_gateway.py).
use knowledge_agent.Prelude.{
  Bool, true, false, Option, none, some, Result, ok, err, string_eq, option_eq, nat_eq, Bool-cases,
  ◌≡◌, refl, ◌⊎◌, inl, inr,
}
use knowledge_agent.Schema.{PendingStatus, FailureCode}
use knowledge_agent.Guard.Types.{GuardDecisionKind, ReasonCode}
use knowledge_agent.Outcome.{
  GuardView, ActionStatus, Code, reason, failure, stale_reason, approval_rejected, ActionOutcome,
  constructs,
}
use knowledge_agent.Store.{PendingRecord, ReceiptRecord, Raise, attempt_failed}
use knowledge_agent.Gateway.{
  built, belongs, receipt_view, executed_outcome, denied_outcome, closed_outcome, waiting_outcome,
  outcome_of, pending_outcome,
}

-- The outcome status of a stored status.
abbrev pub view_status : PendingStatus → ActionStatus
view_status PendingStatus.pending_approval = ActionStatus.waiting_approval
view_status PendingStatus.approved = ActionStatus.waiting_approval
view_status PendingStatus.rejected = ActionStatus.rejected
view_status PendingStatus.executed = ActionStatus.executed
view_status PendingStatus.stale = ActionStatus.stale
view_status PendingStatus.denied = ActionStatus.denied
view_status PendingStatus.failed = ActionStatus.failed

built-eq : (o q : ActionOutcome) → built o ≡ ok q → (o ≡ q) × (constructs o ≡ true)
built-eq o q h = elim (Bool-cases (constructs o)) [
  | inl e ↦ (same_of (rw e at h), e)
  | inr e ↦ absurd (lost (rw e at h))
]
  where
    same_of : ◌≡◌ {A = Result Raise ActionOutcome} (ok o) (ok q) → o ≡ q
    same_of h = cc

    lost :
        ◌≡◌ {A = Result Raise ActionOutcome}
          (err (attempt_failed FailureCode.invariant_violation))
          (ok q)
        → ⊥
    lost h = cc

abbrev pub is_recorded : PendingStatus → Bool
is_recorded PendingStatus.approved = true
is_recorded _ = false

-- the Guard decision with which a row waits
abbrev pub waiting_guard : PendingRecord → GuardView
waiting_guard p = record {
  decision = GuardDecisionKind.require_approval;
  reason_code = p.guard_reason_code;
}

-- The code and the Guard decision that are told of a row, by its status.
abbrev pub IsExplained :
    PendingStatus → PendingRecord → Option ReceiptRecord → ActionOutcome → Type 0
IsExplained PendingStatus.executed p receipt o =
    (o.code ≡ none)
    × (r : ReceiptRecord) × (receipt ≡ some r)
    × (o.receipt ≡ some (receipt_view r))
    × (o.guard ≡ some (record { decision = r.guard_decision; reason_code = r.guard_reason_code }))
IsExplained PendingStatus.denied p receipt o =
    (r : ReasonCode) × (p.outcome_code ≡ some (reason r))
    × (o.code ≡ some (reason r))
    × (o.guard ≡ some (record { decision = GuardDecisionKind.deny; reason_code = r }))
IsExplained PendingStatus.pending_approval p receipt o =
    (o.code ≡ none) × (o.guard ≡ some (waiting_guard p))
IsExplained PendingStatus.approved p receipt o =
    (o.code ≡ none) × (o.guard ≡ some (waiting_guard p))
IsExplained _ p receipt o = (o.code ≡ p.outcome_code) × (o.guard ≡ some (waiting_guard p))

abbrev pub Truth : PendingRecord → Option ReceiptRecord → Bool → ActionOutcome → Type 0
Truth p receipt replay o =
    (o.status ≡ view_status p.status)
    × (o.pending_action_id ≡ some p.pending_action_id)
    × (o.idempotent_replay ≡ replay)
    × (constructs o ≡ true)
    × ((o.receipt ≡ none)
        ⊎ ((r : ReceiptRecord) × (receipt ≡ some r)
            × (o.receipt ≡ some (receipt_view r))
            × (p.status ≡ PendingStatus.executed)
            × (belongs r p ≡ true)))
    × (o.request_id ≡ some p.request_id)
    × (o.action_name ≡ some p.action_name)
    × (o.approval_recorded ≡ is_recorded p.status)
    × IsExplained p.status p receipt o

-- A built outcome that says the truth if it is built.
built-Truth :
    (p : PendingRecord) (receipt : Option ReceiptRecord) (replay : Bool) (x o : ActionOutcome)
    → built x ≡ ok o
    → (constructs x ≡ true → Truth p receipt replay x)
    → Truth p receipt replay o
built-Truth p receipt replay x o h f = let (q, c) = built-eq x o h in rw (← q) (f c)

executed-Truth :
    (p : PendingRecord) (receipt : Option ReceiptRecord) (replay conflict : Bool)
    (o : ActionOutcome)
    → p.status ≡ PendingStatus.executed
    → executed_outcome p receipt replay conflict ≡ ok o
    → Truth p receipt replay o
unfolding executed_outcome
executed-Truth p none replay conflict o e h = absurd (lost h)
  where
    lost :
        ◌≡◌ {A = Result Raise ActionOutcome}
          (err (attempt_failed FailureCode.invariant_violation))
          (ok o)
        → ⊥
    lost h = cc
executed-Truth p (some r) replay conflict o e h = elim (Bool-cases (belongs r p)) [
  | inl b ↦ built-Truth p (some r) replay _ o (rw b at h) (λ c. (
    rw e refl,
    refl,
    refl,
    c,
    inr (r, refl, refl, e, b),
    refl,
    refl,
    rw e refl,
    rw e (refl, r, refl, refl, refl),
  ))
  | inr b ↦ absurd (lost (rw b at h))
]
  where
    lost :
        ◌≡◌ {A = Result Raise ActionOutcome}
          (err (attempt_failed FailureCode.invariant_violation))
          (ok o)
        → ⊥
    lost h = cc

denied-Truth :
    (p : PendingRecord) (receipt : Option ReceiptRecord) (code : Option Code)
    (replay conflict : Bool) (o : ActionOutcome)
    → p.status ≡ PendingStatus.denied
    → p.outcome_code ≡ code
    → denied_outcome p code replay conflict ≡ ok o
    → Truth p receipt replay o
unfolding denied_outcome
denied-Truth p receipt (some (reason r)) replay conflict o e k h =
    built-Truth p receipt replay _ o h
      (λ c. (rw e refl, refl, refl, c, inl refl, refl, refl, rw e refl, rw e (r, k, refl, refl)))
denied-Truth p receipt (some (failure c)) replay conflict o e k h = cc
denied-Truth p receipt (some (stale_reason c)) replay conflict o e k h = cc
denied-Truth p receipt (some approval_rejected) replay conflict o e k h = cc
denied-Truth p receipt none replay conflict o e k h = cc

-- An outcome that the gateway returns for a stored row tells the row's status, names the row, its
-- request and its action, says whether an approval waits for its execution, explains the status by
-- the code and the Guard decision that are stored, and passes the checks of an outcome; it carries a receipt only for an EXECUTED row, and then the
-- receipt is the one that the row names and that names the row.
pub pending_outcome-Truth :
    (p : PendingRecord) (receipt : Option ReceiptRecord) (replay conflict : Bool)
    (o : ActionOutcome)
    → pending_outcome p receipt replay conflict ≡ ok o
    → Truth p receipt replay o
unfolding outcome_of waiting_outcome closed_outcome
pending_outcome-Truth p receipt replay conflict o h = go p.status refl h
  where
    go :
        (s : PendingStatus)
        → p.status ≡ s
        → outcome_of s p receipt replay conflict ≡ ok o
        → Truth p receipt replay o
    go PendingStatus.executed e h = executed-Truth p receipt replay conflict o e h
    go PendingStatus.denied e h = denied-Truth p receipt p.outcome_code replay conflict o e refl h
    go PendingStatus.pending_approval e h =
        built-Truth p receipt replay _ o h
          (λ c. (rw e refl, refl, refl, c, inl refl, refl, refl, rw e refl, rw e (refl, refl)))
    go PendingStatus.approved e h =
        built-Truth p receipt replay _ o h
          (λ c. (rw e refl, refl, refl, c, inl refl, refl, refl, rw e refl, rw e (refl, refl)))
    go PendingStatus.rejected e h =
        built-Truth p receipt replay _ o h
          (λ c. (rw e refl, refl, refl, c, inl refl, refl, refl, rw e refl, rw e (refl, refl)))
    go PendingStatus.stale e h =
        built-Truth p receipt replay _ o h
          (λ c. (rw e refl, refl, refl, c, inl refl, refl, refl, rw e refl, rw e (refl, refl)))
    go PendingStatus.failed e h =
        built-Truth p receipt replay _ o h
          (λ c. (rw e refl, refl, refl, c, inl refl, refl, refl, rw e refl, rw e (refl, refl)))
