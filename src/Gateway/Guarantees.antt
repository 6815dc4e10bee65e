-- ===== src/Gateway/Guarantees.antt =====
-- What the effects of start_action and of T2 guarantee (aftersales/action_gateway.py): what was
-- cleared before anything is written, replays, approvals, and legal transitions.
use mathlib.Core.Path.{subst}
use knowledge_agent.Prelude.{
  String, Option, none, some, Result, ok, err, nat_eq, string_eq, ◌≡◌, ◌≢◌, ◌⊎◌, inl, inr, refl,
  sym, ◌∙◌,
}
use knowledge_agent.Actions.{ActionName, ValidatedAction}
use knowledge_agent.Guard.Types.{GuardDecisionKind, GuardDecision, s6_risk_policy}
use knowledge_agent.Guard.Decide.{decide}
use knowledge_agent.Guard.Verdict.{decide-Truthful}
use knowledge_agent.Guard.OnTables.{Cleared, decide-Cleared}
use knowledge_agent.Ids.{RequestIdentity}
use knowledge_agent.Outcome.{ActionOutcome}
use knowledge_agent.Store.{PendingRecord, ReceiptRecord, Raise}
use knowledge_agent.Store.Inserts.{receipt_at, pending_at}
use knowledge_agent.Gateway.{World}
use knowledge_agent.Gateway.Execution.{
  Config, Moment, Persona, GuardCapture, idempotency_key, source_of,
}
use knowledge_agent.Gateway.Start.{start_action}
use knowledge_agent.Gateway.Runs.{Core, core_of, tables_of}
use knowledge_agent.Gateway.Effects.{IsCapture, IsDecided}
use knowledge_agent.Gateway.Attempted.{Untouched, IsFresh}
use knowledge_agent.Gateway.Started.{StartedAs, Effected, start_action-Effected}

not_deny : (k : GuardDecisionKind) → k ≡ GuardDecisionKind.allow → k ≢ GuardDecisionKind.deny
not_deny k h q = cc

not_deny_of :
    (k : GuardDecisionKind) → k ≡ GuardDecisionKind.require_approval → k ≢ GuardDecisionKind.deny
not_deny_of k h q = cc

-- The tables, as a capture for a customer sees them, are clear for the action.
abbrev pub ClearedFor : Config → Moment → String → Option String → ValidatedAction → Core → Type 0
ClearedFor cfg m customer exclude action c =
    Cleared (source_of cfg m customer exclude (tables_of c)) action

pub capture-Cleared :
    (cfg : Config) (m : Moment) (customer : String) (exclude : Option String)
    (action : ValidatedAction) (c : Core) (x : GuardCapture) (d : GuardDecision)
    → action.action_name ≢ ActionName.escalate_to_human
    → IsCapture cfg m customer action exclude c x
    → IsDecided cfg m action x d
    → d.decision ≢ GuardDecisionKind.deny
    → ClearedFor cfg m customer exclude action c
capture-Cleared cfg m customer exclude action c x d n h q k =
    decide-Cleared (source_of cfg m customer exclude (tables_of c)) action m.now x.state x.policy
      cfg.risk d n h.0 q k

-- Where a call of start_action for a return or an exchange has changed the committed tables, audits
-- apart, the tables before it were clear for the customer of the resolved persona: the order is
-- that customer's, no case of the item was active, and no other request for it was open.
pub start_action-ClearedFor :
    (cfg : Config) (m : Moment) (identity : RequestIdentity) (action : ValidatedAction) (w : World)
    (o : ActionOutcome)
    → action.action_name ≢ ActionName.escalate_to_human
    → (start_action cfg m identity action w).0 ≡ ok o
    → core_of (start_action cfg m identity action w).1.committed ≢ core_of w.committed
    → (persona : Persona) × (cfg.services.persona identity.persona_id ≡ some persona)
      × ClearedFor cfg m persona.customer_id none action (core_of w.committed)
start_action-ClearedFor cfg m identity action w o n h k =
    go (start_action cfg m identity action w) (start_action-Effected cfg m identity action w) h k
  where
    went :
        (o : ActionOutcome) (after : Core)
        → StartedAs cfg m identity action (core_of w.committed) o after
        → after ≢ core_of w.committed
        → (persona : Persona) × (cfg.services.persona identity.persona_id ≡ some persona)
          × ClearedFor cfg m persona.customer_id none action (core_of w.committed)
    went o after (persona, p, i, inl u) k = absurd (k u.0)
    went o after (persona, p, i, inr (inl e)) k = (
      persona,
      p,
      capture-Cleared cfg m persona.customer_id none action (core_of w.committed) e.fresh.capture
          e.fresh.decision n e.fresh.captured e.fresh.decided
          (not_deny_of e.fresh.decision.decision e.requires),
    )
    went o after (persona, p, i, inr (inr e)) k = (
      persona,
      p,
      capture-Cleared cfg m persona.customer_id none action (core_of w.committed) e.fresh.capture
          e.fresh.decision n e.fresh.captured e.fresh.decided
          (not_deny e.fresh.decision.decision e.allows),
    )

    no_result : (e : Raise) → ◌≡◌ {A = Result Raise ActionOutcome} (err e) (ok o) → ⊥
    no_result e h = cc

    go :
        (r : Result Raise ActionOutcome × World)
        → Effected (StartedAs cfg m identity action) w.committed r
        → r.0 ≡ ok o
        → core_of r.1.committed ≢ core_of w.committed
        → (persona : Persona) × (cfg.services.persona identity.persona_id ≡ some persona)
          × ClearedFor cfg m persona.customer_id none action (core_of w.committed)
    go (ok x, v) e h k = went x (core_of v.committed) e k
    go (err x, v) e h k = absurd (no_result x h)

-- A receipt or a pending action already has the key of the attempt.
abbrev pub IsAnchored : String → Core → Type 0
IsAnchored key c =
    ((r : ReceiptRecord) × (receipt_at key c.receipts ≡ some r))
    ⊎ ((p : PendingRecord) × (pending_at key c.pendings ≡ some p))

fresh-or :
    (cfg : Config) (m : Moment) (customer : String) (action : ValidatedAction) (key : String)
    (c : Core)
    → IsFresh cfg m customer action key c
    → IsAnchored key c
    → ⊥
fresh-or cfg m customer action key c f (inl (r, e)) = clash (sym f.no_receipt ∙ e)
  where
    clash : none ≡ some r → ⊥
    clash h = cc
fresh-or cfg m customer action key c f (inr (p, e)) = clash (sym f.no_pending ∙ e)
  where
    clash : none ≡ some p → ⊥
    clash h = cc

-- Once a receipt or a pending action has the key of an attempt, no further start of it changes the
-- committed tables, audits apart, and a result tells no new execution.
pub start_action_once :
    (cfg : Config) (m : Moment) (identity : RequestIdentity) (action : ValidatedAction) (w : World)
    → IsAnchored (idempotency_key cfg.services identity action) (core_of w.committed)
    → Effected (λ c o after. Untouched c o after) w.committed (start_action cfg m identity action w)
start_action_once cfg m identity action w a =
    go (start_action cfg m identity action w) (start_action-Effected cfg m identity action w)
  where
    only :
        (o : ActionOutcome) (after : Core)
        → StartedAs cfg m identity action (core_of w.committed) o after
        → Untouched (core_of w.committed) o after
    only o after (persona, p, i, inl u) = u
    only o after (persona, p, i, inr (inl e)) = absurd (
        fresh-or cfg m persona.customer_id action (idempotency_key cfg.services identity action)
          (core_of w.committed) e.fresh a)
    only o after (persona, p, i, inr (inr e)) = absurd (
        fresh-or cfg m persona.customer_id action (idempotency_key cfg.services identity action)
          (core_of w.committed) e.fresh a)

    go :
        (r : Result Raise ActionOutcome × World)
        → Effected (StartedAs cfg m identity action) w.committed r
        → Effected (λ c o after. Untouched c o after) w.committed r
    go (ok x, v) e = only x (core_of v.committed) e
    go (err x, v) e = e

never_allowed :
    (action : ValidatedAction) (cfg : Config) (m : Moment) (x : GuardCapture) (d : GuardDecision)
    → cfg.risk ≡ s6_risk_policy
    → action.action_name ≡ ActionName.create_return
    → IsDecided cfg m action x d
    → d.decision ≡ GuardDecisionKind.allow
    → ⊥
never_allowed action cfg m x d r n q a =
    elim (decide-Truthful action x.state x.policy s6_risk_policy m.now d
      (subst (λ risk. decide action x.state x.policy risk m.now ≡ ok d) r q)) [
        | inl (k, c) ↦ denied k
        | inr (k, s, g) ↦ required (rw n at k)
      ]
  where
    denied : d.decision ≡ GuardDecisionKind.deny → ⊥
    denied k = cc

    required : d.decision ≡ GuardDecisionKind.require_approval → ⊥
    required k = cc

-- Under the risk policy in force, start_action never executes a return: whatever it returns, the
-- committed receipts and the tables of the domain are those of before.
pub start_return_waits :
    (cfg : Config) (m : Moment) (identity : RequestIdentity) (action : ValidatedAction) (w : World)
    → cfg.risk ≡ s6_risk_policy
    → action.action_name ≡ ActionName.create_return
    → ((start_action cfg m identity action w).1.committed.receipts ≡ w.committed.receipts)
      × ((start_action cfg m identity action w).1.committed.domain ≡ w.committed.domain)
start_return_waits cfg m identity action w r n =
    go (start_action cfg m identity action w) (start_action-Effected cfg m identity action w)
  where
    Kept_tables : Core → Type 0
    Kept_tables after =
        (after.receipts ≡ w.committed.receipts) × (after.domain ≡ w.committed.domain)

    of_core : (after d : Core) → after ≡ d → Kept_tables d → Kept_tables after
    of_core after d e h = subst Kept_tables (sym e) h

    kept :
        (o : ActionOutcome) (after : Core)
        → StartedAs cfg m identity action (core_of w.committed) o after
        → Kept_tables after
    kept o after (persona, p, i, inl u) = of_core after (core_of w.committed) u.0 (refl, refl)
    kept o after (persona, p, i, inr (inl e)) = of_core after _ e.written (refl, refl)
    kept o after (persona, p, i, inr (inr e)) =
        absurd
          (never_allowed action cfg m e.fresh.capture e.fresh.decision r n e.fresh.decided e.allows)

    go :
        (x : Result Raise ActionOutcome × World)
        → Effected (StartedAs cfg m identity action) w.committed x
        → (x.1.committed.receipts ≡ w.committed.receipts)
          × (x.1.committed.domain ≡ w.committed.domain)
    go (ok o, v) e = kept o (core_of v.committed) e
    go (err x, v) e = of_core (core_of v.committed) (core_of w.committed) e (refl, refl)
