-- ===== src/Gateway/Approvals.antt =====
-- T2 and approvals (aftersales/action_gateway.py, execute_approved): every row moves legally, and
-- an execution is of an approved row, over tables that are clear for it.
use mathlib.Core.Path.{subst}
use knowledge_agent.Prelude.{
  String, Bool, true, false, ◌&&◌, Option, none, some, List, Result, ok, err, nat_eq, string_eq,
  ◌≡◌, ◌≢◌, inl, inr, refl, sym, ap, ◌∙◌, arith, is_none,
}
use knowledge_agent.Schema.{PendingStatus}
use knowledge_agent.Actions.{ActionName}
use knowledge_agent.Approval.{Approval}
use knowledge_agent.Guard.Types.{GuardDecisionKind, GuardDecision}
use knowledge_agent.Outcome.{ActionOutcome}
use knowledge_agent.Store.{
  PendingRecord, Raise, is_approved, at_version, ended, linked, update, with_id, row_fits,
  status_fits, constraints, is_approve,
}
use knowledge_agent.Store.Lifecycle.{terminal, execution}
use knowledge_agent.Store.Writes.{Moved, unmoved, update-Moved}
use knowledge_agent.Gateway.{World}
use knowledge_agent.Gateway.Succeeds.{with_id-fits, constraints-rows}
use knowledge_agent.Gateway.Execution.{Config, Moment}
use knowledge_agent.Gateway.ResumeSteps.{same_decision, is_require}
use knowledge_agent.Gateway.Resume.{execute_approved}
use knowledge_agent.Gateway.Runs.{Core, core_of}
use knowledge_agent.Gateway.Started.{Effected}
use knowledge_agent.Gateway.Resumed.{Closed, IsResumed}
use knowledge_agent.Gateway.Approved.{ApprovedEffect, execute_approved-Effected}
use knowledge_agent.Gateway.Guarantees.{ClearedFor, capture-Cleared}

approved_of : (x : PendingStatus) → is_approved x ≡ true → x ≡ PendingStatus.approved
approved_of x h = ground arith

-- The rows after a call of T2, from its effect.
pub Closed-Moved :
    (cfg : Config) (m : Moment) (p : PendingRecord) (c after : Core)
    → Closed m.now p c after
    → Moved c.pendings after.pendings
Closed-Moved cfg m p c after (status, code, t, e) =
    subst (λ (d : Core). Moved c.pendings d.pendings) (sym e)
      (update-Moved (at_version is_approved p.pending_action_id p.version) (ended status code m.now)
        (λ q h. terminal status code m.now (approved_of q.status (ground arith)) t) c.pendings)

pub IsResumed-Moved :
    (cfg : Config) (m : Moment) (p : PendingRecord) (c : Core) (o : ActionOutcome) (after : Core)
    → IsResumed cfg m p c o after
    → Moved c.pendings after.pendings
IsResumed-Moved cfg m p c o after r =
    subst (λ (d : Core). Moved c.pendings d.pendings) (sym r.written)
      (subst
        (λ (ps : List PendingRecord). Moved c.pendings (
          update (at_version is_approved p.pending_action_id p.version)
            (linked r.view.receipt_id m.now) ps))
        (sym (ap (λ (d : Core). d.pendings) r.execution.written))
        (update-Moved (at_version is_approved p.pending_action_id p.version)
          (linked r.view.receipt_id m.now)
          (λ q h. execution r.view.receipt_id m.now (approved_of q.status (ground arith)))
          c.pendings))

-- Whatever fails, after T2 every committed pending action is as it was or one legal transition
-- further, and none is added or lost.
pub execute_approved-Moved :
    (cfg : Config) (m : Moment) (id : String) (w : World)
    → Moved w.committed.pendings (execute_approved cfg m id w).1.committed.pendings
execute_approved-Moved cfg m id w =
    go (execute_approved cfg m id w) (execute_approved-Effected cfg m id w)
  where
    same_rows :
        (after : Core) → after ≡ core_of w.committed → Moved w.committed.pendings after.pendings
    same_rows after e =
        subst (λ (d : Core). Moved w.committed.pendings d.pendings) (sym e)
          (unmoved w.committed.pendings)

    effect :
        (o : ActionOutcome) (after : Core)
        → ApprovedEffect cfg m id (core_of w.committed) o after
        → Moved w.committed.pendings after.pendings
    effect o after (inl u) = same_rows after u.0
    effect o after (inr (p, f, s, inl (n, c))) = Closed-Moved cfg m p (core_of w.committed) after c
    effect o after (inr (p, f, s, inr r)) = IsResumed-Moved cfg m p (core_of w.committed) o after r

    go :
        (r : Result Raise ActionOutcome × World)
        → Effected (ApprovedEffect cfg m id) w.committed r
        → Moved w.committed.pendings r.1.committed.pendings
    go (ok o, v) e = effect o (core_of v.committed) e
    go (err x, v) e = same_rows (core_of v.committed) e

approved-fits :
    (p : PendingRecord)
    → p.status ≡ PendingStatus.approved
    → row_fits p ≡ true
    → p.approval_decision ≡ some Approval.approve
unfolding row_fits status_fits
approved-fits p s h = of_decision p.approval_decision (rw s at fits)
  where
    fits : status_fits p.status p.approval_decision p.receipt_id p.outcome_code ≡ true
    fits = ground arith

    of_decision :
        (a : Option Approval)
        → (is_approve a && is_none p.receipt_id && is_none p.outcome_code) ≡ true
        → a ≡ some Approval.approve
    of_decision (some Approval.approve) h = refl
    of_decision (some Approval.reject) h = absurd (no h)
      where
        no : false ≡ true → ⊥
        no h = cc
    of_decision none h = absurd (no h)
      where
        no : false ≡ true → ⊥
        no h = cc

with_id-row_fits :
    (id : String) (ps : List PendingRecord) (p : PendingRecord)
    → constraints ps ≡ true
    → with_id id ps ≡ some p
    → row_fits p ≡ true
with_id-row_fits id ps p c f = with_id-fits id ps p f (constraints-rows ps c).0

not_a_denial :
    (d : GuardDecision) (p : PendingRecord)
    → same_decision d p ≡ true
    → d.decision ≢ GuardDecisionKind.deny
not_a_denial d p h q = clash d.decision q (first _ _ h)
  where
    first : (a b : Bool) → (a && b) ≡ true → a ≡ true
    first a b h = ground arith

    clash : (k : GuardDecisionKind) → k ≡ GuardDecisionKind.deny → is_require k ≡ true → ⊥
    clash k q h = ground arith

-- What a call of T2 that executes rests on.
pub record IsApproved (cfg : Config) (m : Moment) (id : String) (c : Core) (after : Core)
    : Type 0 where
  pub row : PendingRecord
  pub found : with_id id c.pendings ≡ some row
  pub approved : row.status ≡ PendingStatus.approved
  pub by_operator : row.approval_decision ≡ some Approval.approve
  pub outcome : ActionOutcome
  pub resumed : IsResumed cfg m row c outcome after
  pub cleared :
      resumed.action.action_name ≢ ActionName.escalate_to_human
      → ClearedFor cfg m resumed.persona.customer_id (some row.pending_action_id) resumed.action c

-- Where the committed tables satisfy the constraints of the pending actions, a call of T2 that
-- changes the receipts executes: the row of the id is APPROVED by an operator; the action that is
-- executed is read and validated anew from the row's arguments, has their text and digest, and has
-- the row's name, targets and key, for the row's persona and request; nothing is stale; and the
-- tables before it were clear for a return or an exchange, the request itself left out.
pub execute_approved-IsApproved :
    (cfg : Config) (m : Moment) (id : String) (w : World)
    → constraints w.committed.pendings ≡ true
    → (execute_approved cfg m id w).1.committed.receipts ≢ w.committed.receipts
    → IsApproved cfg m id (core_of w.committed) (core_of (execute_approved cfg m id w).1.committed)
execute_approved-IsApproved cfg m id w fits k =
    go (execute_approved cfg m id w) (execute_approved-Effected cfg m id w) k
  where
    c : Core
    c = core_of w.committed

    same_receipts :
        (after d : Core) → after ≡ d → d.receipts ≡ c.receipts → after.receipts ≡ c.receipts
    same_receipts after d e h = ap (λ (x : Core). x.receipts) e ∙ h

    effect :
        (o : ActionOutcome) (after : Core)
        → ApprovedEffect cfg m id (core_of w.committed) o after
        → after.receipts ≢ w.committed.receipts
        → IsApproved cfg m id (core_of w.committed) after
    effect o after (inl u) k = absurd (k (same_receipts after c u.0 refl))
    effect o after (inr (p, f, s, inl (n, (status, code, t, e)))) k =
        absurd (k (same_receipts after _ e refl))
    effect o after (inr (p, f, s, inr r)) k = record {
      row = p;
      found = f;
      approved = s;
      by_operator = approved-fits p s (with_id-row_fits id w.committed.pendings p fits f);
      outcome = o;
      resumed = r;
      cleared = λ n.
          capture-Cleared cfg m r.persona.customer_id (some p.pending_action_id) r.action
            (core_of w.committed) r.capture r.decision n r.captured r.decided
            (not_a_denial r.decision p r.same);
    }

    go :
        (r : Result Raise ActionOutcome × World)
        → Effected (ApprovedEffect cfg m id) w.committed r
        → r.1.committed.receipts ≢ w.committed.receipts
        → IsApproved cfg m id (core_of w.committed) (core_of r.1.committed)
    go (ok o, v) e k = effect o (core_of v.committed) e k
    go (err x, v) e k =
        absurd (k (same_receipts (core_of v.committed) (core_of w.committed) e refl))
