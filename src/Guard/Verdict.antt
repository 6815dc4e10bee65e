-- ===== src/Guard/Verdict.antt =====
-- What Guard.decide of aftersales/guard.py returns: its decision belongs to its reason code, and
-- both say the truth about the rows and the rules.
use knowledge_agent.Prelude.{
  Option, none, some, List, Result, ok, err, Bool-cases, ◌≡◌, ◌≢◌, ◌⊎◌, inl, inr, refl, sym, ◌∙◌,
  arith,
}
use knowledge_agent.Schema.{FailureCode}
use knowledge_agent.Actions.{ActionName, name_eq, ValidatedAction}
use knowledge_agent.Policy.{Instant, PolicyRecord}
use knowledge_agent.GuardState.{GuardState, OrderRow, OrderItemRow}
use knowledge_agent.Guard.Types.{
  GuardDecisionKind, ReasonCode, decision_of, GuardFacts, no_facts, GuardDecision, Disposition,
  ActionRiskPolicy, s6_risk_policy, CatalogSnapshot,
}
use knowledge_agent.Guard.Check.{Outcome, pass, denied, failed}
use knowledge_agent.Guard.Decide.{
  accessible, in_the_order, check, result, disposed, conclude, facts_hold, decide,
}
use knowledge_agent.Guard.Logic.{
  Post, Shows, bind_shows, pure_shows, deny_shows, record_shows, weaken_shows, causes_shows,
}
use knowledge_agent.Guard.Cause.{CauseIn, Cause, Granted}
use knowledge_agent.Guard.ByAction.{check_action-shows}

module _ (action : ValidatedAction) (state : GuardState) (records : List PolicyRecord)
    (now : Instant) where
  accessible-shows :
      (o : Option OrderRow)
      → state.order ≡ o
      → Shows (Cause action state records now) (accessible o) (λ order. o ≡ some order)
  accessible-shows none e = deny_shows ReasonCode.order_not_accessible e
  accessible-shows (some order) e = pure_shows refl

  in_the_order-shows :
      (o : Option OrderItemRow)
      → state.item ≡ o
      → Shows (Cause action state records now) (in_the_order o) (λ item. o ≡ some item)
  in_the_order-shows none e = deny_shows ReasonCode.order_item_not_in_order e
  in_the_order-shows (some item) e = pure_shows refl

  CauseIn-Cause :
      (order : OrderRow) (item : OrderItemRow)
      → state.order ≡ some order
      → state.item ≡ some item
      → (r : ReasonCode) → CauseIn action state records now order item r
      → Cause action state records now r
  CauseIn-Cause order item o i ReasonCode.order_not_accessible c = absurd c
  CauseIn-Cause order item o i ReasonCode.order_item_not_in_order c = absurd c
  CauseIn-Cause order item o i ReasonCode.business_state_conflict c = (order, item, o, i, c)
  CauseIn-Cause order item o i ReasonCode.order_status_ineligible c = (order, item, o, i, c)
  CauseIn-Cause order item o i ReasonCode.not_delivered c = (order, item, o, i, c)
  CauseIn-Cause order item o i ReasonCode.delivery_not_established c = (order, item, o, i, c)
  CauseIn-Cause order item o i ReasonCode.active_after_sales_case_exists c = (order, item, o, i, c)
  CauseIn-Cause order item o i ReasonCode.item_already_returned c = (order, item, o, i, c)
  CauseIn-Cause order item o i ReasonCode.pending_request_exists c = (order, item, o, i, c)
  CauseIn-Cause order item o i ReasonCode.handoff_required c = (order, item, o, i, c)
  CauseIn-Cause order item o i ReasonCode.non_returnable c = (order, item, o, i, c)
  CauseIn-Cause order item o i ReasonCode.no_applicable_policy c = (order, item, o, i, c)
  CauseIn-Cause order item o i ReasonCode.policy_conflict c = (order, item, o, i, c)
  CauseIn-Cause order item o i ReasonCode.return_window_closed c = (order, item, o, i, c)
  CauseIn-Cause order item o i ReasonCode.exchange_window_closed c = (order, item, o, i, c)
  CauseIn-Cause order item o i ReasonCode.exchange_target_invalid c = (order, item, o, i, c)
  CauseIn-Cause order item o i ReasonCode.exchange_target_incompatible c = (order, item, o, i, c)
  CauseIn-Cause order item o i ReasonCode.inventory_unavailable c = (order, item, o, i, c)
  CauseIn-Cause order item o i ReasonCode.handoff_not_required c = (order, item, o, i, c)
  CauseIn-Cause order item o i ReasonCode.handoff_ticket_exists c = (order, item, o, i, c)
  CauseIn-Cause order item o i ReasonCode.risk_policy_requires_approval c = absurd c
  CauseIn-Cause order item o i ReasonCode.risk_policy_allows c = absurd c

  check-shows :
      Shows
        (Cause action state records now)
        (check action state records now)
        (λ _. Granted action state records now)
  unfolding check
  check-shows = bind_shows (accessible-shows state.order refl) λ order o. record_shows _ (
      bind_shows (in_the_order-shows state.item refl) λ item i.
        weaken_shows
          (causes_shows (check_action-shows action state records now order item)
            (CauseIn-Cause order item o i))
          (λ _ e. (order, item, o, i, e)))

result-fields :
    (records : List PolicyRecord) (r : ReasonCode) (k : GuardDecisionKind) (facts : GuardFacts)
    (d : GuardDecision)
    → result records r k facts ≡ ok d
    → (d.reason_code ≡ r) × (d.decision ≡ k)
unfolding result
result-fields records r k facts d h = elim (Bool-cases (facts_hold records facts)) [
  | inl e ↦ kept d (rw e at h)
  | inr e ↦ absurd (lost (rw e at h))
]
  where
    kept :
        (d : GuardDecision)
        → ◌≡◌ {A = Result FailureCode GuardDecision}
            (ok (record { decision = k; reason_code = r; facts = facts }))
            (ok d)
        → (d.reason_code ≡ r) × (d.decision ≡ k)
    kept d q = ground arith

    lost :
        ◌≡◌ {A = Result FailureCode GuardDecision} (err FailureCode.guard_internal_error) (ok d) → ⊥
    lost q = cc

abbrev risk_reason : Disposition → ReasonCode
risk_reason Disposition.require_approval = ReasonCode.risk_policy_requires_approval
risk_reason Disposition.allow = ReasonCode.risk_policy_allows

abbrev risk_decision : Disposition → GuardDecisionKind
risk_decision Disposition.require_approval = GuardDecisionKind.require_approval
risk_decision Disposition.allow = GuardDecisionKind.allow

-- A denial with the cause that its code names, or the risk policy's answer to a granted action.
abbrev pub Truthful :
    ValidatedAction
    → GuardState
    → List PolicyRecord
    → ActionRiskPolicy
    → Instant
    → GuardDecision
    → Type 0
Truthful action state records risk now d =
    ((d.decision ≡ GuardDecisionKind.deny) × Cause action state records now d.reason_code)
    ⊎ ((d.decision ≡ risk_decision (risk.disposition action.action_name))
        × (d.reason_code ≡ risk_reason (risk.disposition action.action_name))
        × Granted action state records now)

conclude-Truthful :
    (action : ValidatedAction) (state : GuardState) (records : List PolicyRecord)
    (risk : ActionRiskPolicy) (now : Instant) (o : Outcome (Unit {0}) × GuardFacts)
    (d : GuardDecision)
    → Post (λ _. Granted action state records now) (Cause action state records now) o.0
    → conclude records (risk.disposition action.action_name) o ≡ ok d
    → Truthful action state records risk now d
conclude-Truthful action state records risk now (pass u, facts) d p h =
    go (risk.disposition action.action_name) refl h
  where
    go :
        (disposition : Disposition)
        → risk.disposition action.action_name ≡ disposition
        → disposed records disposition facts ≡ ok d
        → Truthful action state records risk now d
    go Disposition.require_approval e h =
        let (r, k) = result-fields records _ _ facts d h in inr (rw e k, rw e r, p)
    go Disposition.allow e h =
        let (r, k) = result-fields records _ _ facts d h in inr (rw e k, rw e r, p)
conclude-Truthful action state records risk now (denied c, facts) d p h =
    let (r, k) = result-fields records _ _ facts d h in inl (k, rw r p)
conclude-Truthful action state records risk now (failed c, facts) d p h = absurd (lost h)
  where
    lost : ◌≡◌ {A = Result FailureCode GuardDecision} (err c) (ok d) → ⊥
    lost q = cc

-- Whenever the Guard returns a decision, either it denies and the fact that its reason code names
-- holds of the captured rows and the published rules, or it is the decision of the risk policy for
-- the action, with the reason code of that decision, and every prerequisite of the action holds.
pub decide-Truthful :
    (action : ValidatedAction) (state : GuardState) (policy : CatalogSnapshot)
    (risk : ActionRiskPolicy) (now : Instant) (d : GuardDecision)
    → decide action state policy risk now ≡ ok d
    → Truthful action state policy.records risk now d
unfolding decide
decide-Truthful action state policy risk now d h =
    elim (Bool-cases (name_eq.eqb state.action_name action.action_name)) [
      | inl e ↦
          conclude-Truthful action state policy.records risk now _ d
            ((check-shows action state policy.records now).shown no_facts) (rw e at h)
      | inr e ↦ absurd (lost (rw e at h))
    ]
  where
    lost :
        ◌≡◌ {A = Result FailureCode GuardDecision} (err FailureCode.guard_internal_error) (ok d) → ⊥
    lost q = cc

Cause-deny :
    (action : ValidatedAction) (state : GuardState) (records : List PolicyRecord) (now : Instant)
    (r : ReasonCode)
    → Cause action state records now r
    → decision_of r ≡ GuardDecisionKind.deny
Cause-deny action state records now ReasonCode.risk_policy_requires_approval (o, i, a, b, c) =
    absurd c
Cause-deny action state records now ReasonCode.risk_policy_allows (o, i, a, b, c) = absurd c
Cause-deny action state records now ReasonCode.order_not_accessible c = refl
Cause-deny action state records now ReasonCode.order_item_not_in_order c = refl
Cause-deny action state records now ReasonCode.business_state_conflict c = refl
Cause-deny action state records now ReasonCode.order_status_ineligible c = refl
Cause-deny action state records now ReasonCode.not_delivered c = refl
Cause-deny action state records now ReasonCode.delivery_not_established c = refl
Cause-deny action state records now ReasonCode.active_after_sales_case_exists c = refl
Cause-deny action state records now ReasonCode.item_already_returned c = refl
Cause-deny action state records now ReasonCode.pending_request_exists c = refl
Cause-deny action state records now ReasonCode.handoff_required c = refl
Cause-deny action state records now ReasonCode.non_returnable c = refl
Cause-deny action state records now ReasonCode.no_applicable_policy c = refl
Cause-deny action state records now ReasonCode.policy_conflict c = refl
Cause-deny action state records now ReasonCode.return_window_closed c = refl
Cause-deny action state records now ReasonCode.exchange_window_closed c = refl
Cause-deny action state records now ReasonCode.exchange_target_invalid c = refl
Cause-deny action state records now ReasonCode.exchange_target_incompatible c = refl
Cause-deny action state records now ReasonCode.inventory_unavailable c = refl
Cause-deny action state records now ReasonCode.handoff_not_required c = refl
Cause-deny action state records now ReasonCode.handoff_ticket_exists c = refl

disposition-decision : (x : Disposition) → risk_decision x ≡ decision_of (risk_reason x)
disposition-decision Disposition.require_approval = refl
disposition-decision Disposition.allow = refl

-- The decision is always the one that its reason code belongs to.
pub decide-decision_of :
    (action : ValidatedAction) (state : GuardState) (policy : CatalogSnapshot)
    (risk : ActionRiskPolicy) (now : Instant) (d : GuardDecision)
    → decide action state policy risk now ≡ ok d
    → d.decision ≡ decision_of d.reason_code
decide-decision_of action state policy risk now d h =
    elim (decide-Truthful action state policy risk now d h) [
      | inl (k, c) ↦ k ∙ sym (Cause-deny action state policy.records now d.reason_code c)
      | inr (k, r, g) ↦ k ∙ (disposition-decision (risk.disposition action.action_name) ∙ rw r refl)
    ]

-- Under the risk policy in force, a return is never allowed without an approval: a decision on it
-- that does not deny requires one, and its prerequisites hold.
pub return_needs_approval :
    (action : ValidatedAction) (state : GuardState) (policy : CatalogSnapshot) (now : Instant)
    (d : GuardDecision)
    → action.action_name ≡ ActionName.create_return
    → decide action state policy s6_risk_policy now ≡ ok d
    → d.decision ≢ GuardDecisionKind.deny
    → (d.decision ≡ GuardDecisionKind.require_approval) × Granted action state policy.records now
return_needs_approval action state policy now d e h n =
    elim (decide-Truthful action state policy s6_risk_policy now d h) [
      | inl (k, c) ↦ absurd (n k)
      | inr (k, r, g) ↦ (rw e at k, g)
    ]
