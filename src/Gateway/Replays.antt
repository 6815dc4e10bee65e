-- ===== src/Gateway/Replays.antt =====
-- The rows that the transitions of aftersales/action_store.py leave can always be told to the caller
-- (`_pending_outcome` of aftersales/action_gateway.py): no invariant violation comes from them.
use knowledge_agent.Prelude.{Bool, true, Option, none, some, ok, eqb_refl, nat_eq, ◌≡◌, refl}
use knowledge_agent.Schema.{PendingStatus, FailureCode}
use knowledge_agent.Approval.{Approval}
use knowledge_agent.Guard.Types.{ReasonCode, decision_of}
use knowledge_agent.Snapshot.{StaleReason}
use knowledge_agent.Outcome.{
  Code, reason, failure, stale_reason, approval_rejected, ActionOutcome, is_deny, reason_number,
  code_fits, constructs,
}
use knowledge_agent.Store.{PendingRecord, ReceiptRecord, terminal_code, decided, ended, linked}
use knowledge_agent.Store.Lifecycle.{Step, Steps, here, later, decision, terminal, execution}
use knowledge_agent.Gateway.{
  belongs, executed_outcome, denied_outcome, closed_outcome, waiting_outcome, outcome_of,
  pending_outcome,
}

-- The outcome code belongs to the status.
abbrev pub Coded : PendingStatus → Option Code → Type 0
Coded PendingStatus.rejected c = c ≡ some approval_rejected
Coded PendingStatus.stale c = (s : StaleReason) × (c ≡ some (stale_reason s))
Coded PendingStatus.denied c =
    (r : ReasonCode) × (c ≡ some (reason r)) × (is_deny (decision_of r) ≡ true)
Coded PendingStatus.failed c = (f : FailureCode) × (c ≡ some (failure f))
Coded _ c = c ≡ none

terminal_code-Coded : (s : PendingStatus) (c : Code) → terminal_code s c ≡ true → Coded s (some c)
unfolding terminal_code
terminal_code-Coded PendingStatus.stale (stale_reason x) h = (x, refl)
terminal_code-Coded PendingStatus.stale (reason x) h = cc
terminal_code-Coded PendingStatus.stale (failure x) h = cc
terminal_code-Coded PendingStatus.stale approval_rejected h = cc
terminal_code-Coded PendingStatus.denied (reason r) h = (r, refl, h)
terminal_code-Coded PendingStatus.denied (stale_reason x) h = cc
terminal_code-Coded PendingStatus.denied (failure x) h = cc
terminal_code-Coded PendingStatus.denied approval_rejected h = cc
terminal_code-Coded PendingStatus.failed (failure x) h = (x, refl)
terminal_code-Coded PendingStatus.failed (stale_reason x) h = cc
terminal_code-Coded PendingStatus.failed (reason x) h = cc
terminal_code-Coded PendingStatus.failed approval_rejected h = cc
terminal_code-Coded PendingStatus.pending_approval c h = cc
terminal_code-Coded PendingStatus.approved c h = cc
terminal_code-Coded PendingStatus.rejected c h = cc
terminal_code-Coded PendingStatus.executed c h = cc

Step-Coded :
    (p q : PendingRecord) → Step p q → Coded p.status p.outcome_code → Coded q.status q.outcome_code
unfolding decided ended linked
Step-Coded p q (decision Approval.approve b t u e) h = refl
Step-Coded p q (decision Approval.reject b t u e) h = refl
Step-Coded p q (terminal s c u e f) h = terminal_code-Coded s c f
Step-Coded p q (execution r u e) h = rw e at h

Steps-Coded :
    (p q : PendingRecord)
    → Steps p q
    → Coded p.status p.outcome_code
    → Coded q.status q.outcome_code
Steps-Coded p q here h = h
Steps-Coded p q (later {q = m} s t) h = Step-Coded m q t (Steps-Coded p m s h)

abbrev Told : PendingRecord → Option ReceiptRecord → Bool → Bool → PendingStatus → Type 0
Told p receipt replay conflict s =
    (o : ActionOutcome) × (outcome_of s p receipt replay conflict ≡ ok o)

told :
    (p : PendingRecord) (receipt : Option ReceiptRecord) (replay conflict : Bool)
    (s : PendingStatus)
    → Coded s p.outcome_code
    → (s ≡ PendingStatus.executed → (r : ReceiptRecord) × (receipt ≡ some r) × (belongs r p ≡ true))
    → Told p receipt replay conflict s
unfolding outcome_of waiting_outcome executed_outcome denied_outcome closed_outcome constructs
    code_fits
told p receipt replay conflict PendingStatus.pending_approval h k = (_, refl)
told p receipt replay conflict PendingStatus.approved h k = (_, refl)
told p receipt replay conflict PendingStatus.executed h k =
    let (r, e, b) = k refl in rw e (rw b (_, refl))
told p receipt replay conflict PendingStatus.denied (r, e, d) k =
    rw e (rw (eqb_refl (reason_number r), d) (_, refl))
told p receipt replay conflict PendingStatus.rejected h k = rw h (_, refl)
told p receipt replay conflict PendingStatus.stale (s, e) k = rw e (_, refl)
told p receipt replay conflict PendingStatus.failed (f, e) k = rw e (_, refl)

-- Whatever transitions a new row has gone through, the gateway tells its outcome, as a replay or as
-- a conflict, without an invariant violation; of an EXECUTED row, when it is given the receipt that
-- the row names and that names the row.
pub pending_outcome-total :
    (p q : PendingRecord) (receipt : Option ReceiptRecord) (replay conflict : Bool)
    → p.status ≡ PendingStatus.pending_approval
    → p.outcome_code ≡ none
    → Steps p q
    → (q.status ≡ PendingStatus.executed
        → (r : ReceiptRecord) × (receipt ≡ some r) × (belongs r q ≡ true))
    → (o : ActionOutcome) × (pending_outcome q receipt replay conflict ≡ ok o)
pending_outcome-total p q receipt replay conflict e n s k =
    told q receipt replay conflict q.status (Steps-Coded p q s (rw e n)) k
