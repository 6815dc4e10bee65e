-- ===== src/Gateway/Soundness.antt =====
-- The invariant of the gateway's tables (aftersales/action_gateway.py): every call of a history
-- keeps it, whatever fails.
use mathlib.Core.Path.{subst}
use knowledge_agent.Prelude.{
  String, Bool, true, none, some, List, [], ◌∷◌, ◌++◌, Result, ok, err, ◌==◌, nat_eq, string_eq,
  eqb_refl, ◌≡◌, inl, inr, refl, sym, ap, ◌∙◌, In, Bool-cases, if◌then◌else◌,
}
use knowledge_agent.Schema.{PendingStatus}
use knowledge_agent.Actions.{ValidatedAction}
use knowledge_agent.Ids.{RequestIdentity}
use knowledge_agent.Outcome.{ActionOutcome, ReceiptView}
use knowledge_agent.Store.{
  PendingRecord, ReceiptRecord, Tables, Raise, is_approved, at_version, linked, update, with_id,
}
use knowledge_agent.Store.Inserts.{receipt_at}
use knowledge_agent.Store.Writes.{Moved, unmoved}
use knowledge_agent.Gateway.{World}
use knowledge_agent.Gateway.FirstDecision.{record_decision-Moved}
use knowledge_agent.Gateway.Execution.{Config, Moment, receipt_row}
use knowledge_agent.Gateway.Start.{start_action}
use knowledge_agent.Gateway.Resume.{execute_approved}
use knowledge_agent.Gateway.Runs.{Core, core_of}
use knowledge_agent.Gateway.Attempted.{IsExecuted}
use knowledge_agent.Gateway.Started.{StartedAs, Effected, start_action-Effected}
use knowledge_agent.Gateway.Resumed.{IsResumed}
use knowledge_agent.Gateway.Approved.{ApprovedEffect, execute_approved-Effected}
use knowledge_agent.Gateway.Approvals.{Closed-Moved, IsResumed-Moved}
use knowledge_agent.Gateway.History.{
  Call, start, decision, execution, step, run, IsBacked, IsSound, IsBacked-Moved, In-append,
  In-snoc, once-snoc, record_decision-receipts,
}

-- Rows that have moved, and the same receipts.
moved-IsSound :
    (c d : Core) → Moved c.pendings d.pendings → d.receipts ≡ c.receipts → IsSound c → IsSound d
moved-IsSound c d h e s = record {
  once = rw e s.once;
  backed = λ r m. IsBacked-Moved c.pendings d.pendings r h (s.backed r (rw e at m));
}

created-IsSound :
    (c d : Core) (p : PendingRecord)
    → d ≡ record c { pendings = c.pendings ++ p ∷ [] }
    → IsSound c
    → IsSound d
created-IsSound c d p e s = subst IsSound (sym e) (record {
  once = s.once;
  backed = λ r m id q.
      let (x, i, n, t, l) = s.backed r m id q in (x, In-append x c.pendings (p ∷ []) i, n, t, l);
})

-- One receipt more, with a key that no receipt had, on rows that have moved.
receipted-IsSound :
    (c : Core) (ps : List PendingRecord) (d : Core) (r : ReceiptRecord) (key : String)
    → Moved c.pendings ps
    → d.pendings ≡ ps
    → d.receipts ≡ c.receipts ++ r ∷ []
    → r.idempotency_key ≡ key
    → receipt_at key c.receipts ≡ none
    → IsBacked ps r
    → IsSound c
    → IsSound d
receipted-IsSound c ps d r key h p e k f b s = record {
  once = rw e (once-snoc key c.receipts r k f s.once);
  backed = λ x m. rw p (elim (In-snoc x r c.receipts (rw e at m)) [
    | inl n ↦ IsBacked-Moved c.pendings ps x h (s.backed x n)
    | inr q ↦ subst (IsBacked ps) (sym q) b
  ]);
}

executed-IsSound :
    (cfg : Config) (m : Moment) (identity : RequestIdentity) (customer : String)
    (action : ValidatedAction) (key : String) (c : Core) (o : ActionOutcome) (after : Core)
    → IsExecuted cfg m identity customer action key c o after
    → IsSound c
    → IsSound after
executed-IsSound cfg m identity customer action key c o after x s =
    receipted-IsSound c c.pendings after _ key (unmoved c.pendings)
      (ap (λ (d : Core). d.pendings) x.execution.written)
      (ap (λ (d : Core). d.receipts) x.execution.written) refl x.fresh.no_receipt unnamed s
  where
    unnamed : IsBacked c.pendings (
        receipt_row cfg m identity action key x.fresh.capture x.fresh.decision none
          x.execution.resource_id x.execution.receipt_id)
    unnamed id q = absurd (no q)
      where
        no : none ≡ some id → ⊥
        no q = cc

start-IsSound :
    (cfg : Config) (m : Moment) (identity : RequestIdentity) (action : ValidatedAction) (w : World)
    → IsSound (core_of w.committed)
    → IsSound (core_of (start_action cfg m identity action w).1.committed)
start-IsSound cfg m identity action w s =
    go (start_action cfg m identity action w) (start_action-Effected cfg m identity action w)
  where
    effect :
        (o : ActionOutcome) (after : Core)
        → StartedAs cfg m identity action (core_of w.committed) o after
        → IsSound after
    effect o after (persona, p, i, inl u) = subst IsSound (sym u.0) s
    effect o after (persona, p, i, inr (inl e)) =
        created-IsSound (core_of w.committed) after _ e.written s
    effect o after (persona, p, i, inr (inr e)) =
        executed-IsSound cfg m identity persona.customer_id action _ (core_of w.committed) o after e
          s

    go :
        (r : Result Raise ActionOutcome × World)
        → Effected (StartedAs cfg m identity action) w.committed r
        → IsSound (core_of r.1.committed)
    go (ok o, v) e = effect o (core_of v.committed) e
    go (err x, v) e = subst IsSound (sym e) s

-- The row that a lookup finds, after the update that links it.
linked-In :
    (id : String) (ps : List PendingRecord) (p : PendingRecord) (f : PendingRecord → PendingRecord)
    → with_id id ps ≡ some p
    → p.status ≡ PendingStatus.approved
    → In (f p) (update (at_version is_approved p.pending_action_id p.version) f ps)
unfolding with_id update
linked-In id [] p f h e = absurd (no h)
  where
    no : none ≡ some p → ⊥
    no h = cc
linked-In id (x ∷ ps) p f h e = elim (Bool-cases (x.pending_action_id == id)) [
  | inl q ↦ inl (same (rw q at h))
  | inr q ↦ inr (linked-In id ps p f (rw q at h) e)
]
  where
    hit : at_version is_approved p.pending_action_id p.version p ≡ true
    hit = rw (eqb_refl p.pending_action_id, e, eqb_refl p.version) refl

    same :
        some x ≡ some p
        → f p ≡ (if at_version is_approved p.pending_action_id p.version x then f x else x)
    same h =
        let q : p ≡ x = cc in
        subst
          (λ (y : PendingRecord).
            f p ≡ (if at_version is_approved p.pending_action_id p.version y then f y else y))
          q (rw hit refl)

resumed-IsSound :
    (cfg : Config) (m : Moment) (id : String) (p : PendingRecord) (c : Core) (o : ActionOutcome)
    (after : Core)
    → with_id id c.pendings ≡ some p
    → p.status ≡ PendingStatus.approved
    → IsResumed cfg m p c o after
    → IsSound c
    → IsSound after
unfolding linked
resumed-IsSound cfg m id p c o after f a x s =
    receipted-IsSound c after.pendings after _ p.idempotency_key
      (IsResumed-Moved cfg m p c o after x) refl
      (ap (λ (d : Core). d.receipts) x.written ∙ ap (λ (d : Core). d.receipts) x.execution.written)
      refl x.unexecuted backed s
  where
    rows :
        after.pendings
        ≡ update
            (at_version is_approved p.pending_action_id p.version)
            (linked x.view.receipt_id m.now)
            c.pendings
    rows =
        ap (λ (d : Core). d.pendings) x.written
        ∙ ap
            (λ (d : Core).
              update (at_version is_approved p.pending_action_id p.version)
                (linked x.view.receipt_id m.now) d.pendings)
            x.execution.written

    backed : IsBacked after.pendings (
        receipt_row cfg m x.identity x.action p.idempotency_key x.capture x.decision
          (some p.pending_action_id)
          x.execution.resource_id
          x.execution.receipt_id)
    backed i q = (
      linked x.view.receipt_id m.now p,
      subst (In (linked x.view.receipt_id m.now p)) (sym rows)
          (linked-In id c.pendings p (linked x.view.receipt_id m.now) f a),
      same q,
      refl,
      ap (λ (v : ReceiptView). some v.receipt_id) x.execution.viewed,
    )
      where
        same : some p.pending_action_id ≡ some i → p.pending_action_id ≡ i
        same q = cc

execute-IsSound :
    (cfg : Config) (m : Moment) (id : String) (w : World)
    → IsSound (core_of w.committed)
    → IsSound (core_of (execute_approved cfg m id w).1.committed)
execute-IsSound cfg m id w s =
    go (execute_approved cfg m id w) (execute_approved-Effected cfg m id w)
  where
    effect :
        (o : ActionOutcome) (after : Core)
        → ApprovedEffect cfg m id (core_of w.committed) o after
        → IsSound after
    effect o after (inl u) = subst IsSound (sym u.0) s
    effect o after (inr (p, f, a, inl (n, c))) =
        moved-IsSound (core_of w.committed) after
          (Closed-Moved cfg m p (core_of w.committed) after c) (ap (λ (d : Core). d.receipts) c.3) s
    effect o after (inr (p, f, a, inr r)) =
        resumed-IsSound cfg m id p (core_of w.committed) o after f a r s

    go :
        (r : Result Raise ActionOutcome × World)
        → Effected (ApprovedEffect cfg m id) w.committed r
        → IsSound (core_of r.1.committed)
    go (ok o, v) e = effect o (core_of v.committed) e
    go (err x, v) e = subst IsSound (sym e) s

step-IsSound :
    (call : Call × List Bool) (t : Tables) → IsSound (core_of t) → IsSound (core_of (step call t))
unfolding step
step-IsSound (start cfg m identity action, faults) t s =
    start-IsSound cfg m identity action (record { committed = t; faults = faults }) s
step-IsSound (decision operators d now, faults) t s =
    moved-IsSound (core_of t) _
      (record_decision-Moved operators d now (record { committed = t; faults = faults }))
      (record_decision-receipts operators d now (record { committed = t; faults = faults })) s
step-IsSound (execution cfg m id, faults) t s =
    execute-IsSound cfg m id (record { committed = t; faults = faults }) s

-- After any sequence of starts, operator decisions and executions, in any order and wherever the
-- database fails: no two committed receipts have one idempotency key, and every receipt that names
-- a pending action is backed by that action's EXECUTED row, which names the receipt; if it was so
-- before.
pub run-IsSound :
    (calls : List (Call × List Bool)) (t : Tables)
    → IsSound (core_of t)
    → IsSound (core_of (run calls t))
unfolding run
run-IsSound [] t s = s
run-IsSound (call ∷ calls) t s = run-IsSound calls (step call t) (step-IsSound call t s)
