-- ===== src/Gateway/Finished.antt =====
-- Ended requests of the gateway (aftersales/action_gateway.py): what no later call changes.
use mathlib.Core.Path.{subst}
use knowledge_agent.Prelude.{Bool, List, [], ◌∷◌, Result, ok, err, ◌≡◌, inl, inr, sym, In}
use knowledge_agent.Actions.{ValidatedAction}
use knowledge_agent.Ids.{RequestIdentity}
use knowledge_agent.Outcome.{ActionOutcome}
use knowledge_agent.Store.{PendingRecord, Tables, Raise}
use knowledge_agent.Store.Lifecycle.{IsTerminal}
use knowledge_agent.Gateway.{World}
use knowledge_agent.Gateway.FirstDecision.{record_decision-Moved}
use knowledge_agent.Gateway.Execution.{Config, Moment}
use knowledge_agent.Gateway.Start.{start_action}
use knowledge_agent.Gateway.Runs.{Core, core_of}
use knowledge_agent.Gateway.Started.{StartedAs, Effected, start_action-Effected}
use knowledge_agent.Gateway.Approvals.{execute_approved-Moved}
use knowledge_agent.Gateway.History.{
  Call, start, decision, execution, step, run, In-append, terminal-stays,
}

-- A start keeps the pending actions that there are.
start-keeps :
    (cfg : Config) (m : Moment) (identity : RequestIdentity) (action : ValidatedAction) (w : World)
    (p : PendingRecord)
    → In p w.committed.pendings
    → In p (start_action cfg m identity action w).1.committed.pendings
start-keeps cfg m identity action w p h =
    go (start_action cfg m identity action w) (start_action-Effected cfg m identity action w)
  where
    same : (c d : Core) → d ≡ c → In p c.pendings → In p d.pendings
    same c d e h = subst (λ (x : Core). In p x.pendings) (sym e) h

    effect :
        (o : ActionOutcome) (after : Core)
        → StartedAs cfg m identity action (core_of w.committed) o after
        → In p after.pendings
    effect o after (persona, r, i, inl u) = same (core_of w.committed) after u.0 h
    effect o after (persona, r, i, inr (inl e)) =
        same _ after e.written (In-append p w.committed.pendings _ h)
    effect o after (persona, r, i, inr (inr e)) = same _ after e.execution.written h

    go :
        (r : Result Raise ActionOutcome × World)
        → Effected (StartedAs cfg m identity action) w.committed r
        → In p r.1.committed.pendings
    go (ok o, v) e = effect o (core_of v.committed) e
    go (err x, v) e = same (core_of w.committed) (core_of v.committed) e h

step-keeps :
    (call : Call × List Bool) (t : Tables) (p : PendingRecord)
    → In p t.pendings
    → IsTerminal p.status
    → In p (step call t).pendings
unfolding step
step-keeps (start cfg m identity action, faults) t p h e =
    start-keeps cfg m identity action (record { committed = t; faults = faults }) p h
step-keeps (decision operators d now, faults) t p h e =
    terminal-stays t.pendings _ p
      (record_decision-Moved operators d now (record { committed = t; faults = faults })) h e
step-keeps (execution cfg m id, faults) t p h e =
    terminal-stays t.pendings _ p
      (execute_approved-Moved cfg m id (record { committed = t; faults = faults })) h e

-- A committed pending action that is REJECTED, EXECUTED, STALE, DENIED or FAILED is committed, with
-- every column as it was, after any sequence of starts, operator decisions and executions, in any
-- order and wherever the database fails.
pub run_keeps_ended :
    (calls : List (Call × List Bool)) (t : Tables) (p : PendingRecord)
    → In p t.pendings
    → IsTerminal p.status
    → In p (run calls t).pendings
unfolding run
run_keeps_ended [] t p h e = h
run_keeps_ended (call ∷ calls) t p h e =
    run_keeps_ended calls (step call t) p (step-keeps call t p h e) e
