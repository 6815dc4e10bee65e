-- ===== src/Gateway/Approved.antt =====
-- T2 as a whole (aftersales/action_gateway.py, execute_approved), from the load of the row to the
-- commit, the rollback and the compensation.
use mathlib.Core.Path.{subst}
use knowledge_agent.Prelude.{
  String, Bool, true, false, Option, none, some, List, In, Result, ok, err, string_eq, ◌≡◌, ◌⊎◌,
  inl, inr, refl, sym, ◌∙◌, Bool-cases,
}
use knowledge_agent.Schema.{PendingStatus, FailureCode}
use knowledge_agent.Policy.{Instant}
use knowledge_agent.Ids.{RequestIdentity, is_pending_action_id}
use knowledge_agent.Outcome
use knowledge_agent.Outcome.{ActionStatus, failure, ActionOutcome}
use knowledge_agent.Store.{
  PendingRecord, ReceiptRecord, Tables, Session, Raise, next_fault, value_error, runtime_error,
  attempt_failed, guard_failed, sqlite_error, integrity_error, transition_conflict,
  unknown_pending_action, not_approved, approval_input_error, capability_error, contract_error,
  type_error, with_id,
}
use knowledge_agent.Gateway.{World, failed, failure_of, pending_outcome}
use knowledge_agent.Gateway.Views.{Truth, pending_outcome-Truth}
use knowledge_agent.Gateway.Execution.{Config, Moment}
use knowledge_agent.Gateway.Start.{
  begin, best_effort, begun_best_effort, closed_best_effort, committed_if,
}
use knowledge_agent.Gateway.ResumeSteps.{
  Loaded, replayed, confirmed, load_approved, resume_confirmed,
}
use knowledge_agent.Gateway.Resume.{
  resume_failure, fail_confirmed, commit_resume, finish_confirmed, commit_replay, finish_loaded,
  resume_run, execute_approved, contract_of, view_on, rolled_back, viewed, get_outcome,
}
use knowledge_agent.Gateway.Runs.{
  Core, core_of, Post, Runs, Kept, bind_runs, kept_runs, weaken_runs, mapped_runs, required_runs,
  lift_runs, audit_then, append_audit_runs, load_pending_runs,
}
use knowledge_agent.Gateway.Attempted.{Untouched}
use knowledge_agent.Gateway.Started.{Effected}
use knowledge_agent.Gateway.Resumed.{Closed, ResumeEffect, transition_runs}
use knowledge_agent.Gateway.Confirmed.{
  resume_confirmed_runs, IsLoaded, receipt_for_runs, load_approved_runs,
}

-- What T2 may do: nothing, told as no execution or as a replay, or the end of the approved row.
abbrev pub ApprovedEffect : Config → Moment → String → Core → ActionOutcome → Core → Type 0
ApprovedEffect cfg m id c o after =
    Untouched c o after
    ⊎ ((p : PendingRecord) × (with_id id c.pendings ≡ some p)
        × (p.status ≡ PendingStatus.approved)
        × ResumeEffect cfg m p c o after)

failure-untold :
    (p : Option PendingRecord) (code : FailureCode) (id : String)
    → Outcome.is_executed (failure_of p code id).status ≡ false
unfolding failure_of failed
failure-untold none code id = refl
failure-untold (some p) code id = refl

module _ (p : PendingRecord) (i : RequestIdentity) (at : Instant) (w : World) where
  -- The tables after the compensation: those of before, or with the row ended.
  abbrev FailedOr : Core → Type 0
  FailedOr after = (after ≡ core_of w.committed) ⊎ Closed at p (core_of w.committed) after

  compensated :
      (code : FailureCode) (from : Bool)
      → FailedOr (core_of (best_effort (resume_failure p i code from at) w).committed)
  unfolding best_effort resume_failure
  compensated code from = begun (next_fault w.faults)
    where
      writes_end :
          Runs
            (core_of w.committed)
            (resume_failure p i code from at)
            (λ u d. Closed at p (core_of w.committed) d)
      writes_end =
          bind_runs
            (transition_runs (core_of w.committed) p.pending_action_id p.version
              PendingStatus.failed (failure code) at)
            (λ u d q. audit_then _ (
              weaken_runs {Q = λ v e. Closed at p (core_of w.committed) e} (append_audit_runs d _)
                (λ v e s. (PendingStatus.failed, failure code, q.0, s.0 ∙ q.1))))

      committed :
          (s : Session) (y : Bool × List Bool)
          → Closed at p (core_of w.committed) (core_of s.tables)
          → FailedOr (core_of (committed_if w.committed s y).committed)
      committed s (true, rest) e = inl refl
      committed s (false, rest) e = inr e

      closed :
          (o : Result Raise (Unit {0}) × Session)
          → Post (λ u d. Closed at p (core_of w.committed) d) o
          → FailedOr (core_of (closed_best_effort w.committed o).committed)
      closed (ok u, s) q = committed s (next_fault s.faults) q
      closed (err e, s) q = inl refl

      begun :
          (y : Bool × List Bool)
          → FailedOr (
              core_of (begun_best_effort (resume_failure p i code from at) w.committed y).committed)
      begun (true, rest) = inl refl
      begun (false, rest) =
          closed (resume_failure p i code from at (begin w.committed rest))
            (writes_end.runs (begin w.committed rest) refl)

module _ (cfg : Config) (m : Moment) (id : String) (before : Tables) where
  abbrev Effect : Core → ActionOutcome → Core → Type 0
  Effect = ApprovedEffect cfg m id

  module _ (p : PendingRecord) (i : RequestIdentity) (found : with_id id before.pendings ≡ some p)
      (approved : p.status ≡ PendingStatus.approved) where
    failed-Effected :
        (code : FailureCode) (from : Bool) (rest : List Bool)
        → Effected Effect before
            (fail_confirmed p i m.now id code from (record { committed = before; faults = rest }))
    unfolding fail_confirmed
    failed-Effected code from rest =
        told (failure-untold (some p) code id)
          (compensated p i m.now (record { committed = before; faults = rest }) code from)
      where
        told :
            {o : ActionOutcome} {after : Core}
            → Outcome.is_executed o.status ≡ false
            → FailedOr p i m.now (record { committed = before; faults = rest }) after
            → Effect (core_of before) o after
        told n (inl e) = inl (e, inl n)
        told n (inr e) = inr (p, found, approved, inl (n, e))

    commit-Effected :
        (o : ActionOutcome) (s : Session) (x : Bool × List Bool)
        → ResumeEffect cfg m p (core_of before) o (core_of s.tables)
        → Effected Effect before (commit_resume p i m.now id before o s x)
    commit-Effected o s (true, rest) e = failed-Effected FailureCode.transaction_failed false rest
    commit-Effected o s (false, rest) e = inr (p, found, approved, e)

    confirmed-Effected :
        (r : Result Raise ActionOutcome × Session)
        → Post (ResumeEffect cfg m p (core_of before)) r
        → Effected Effect before (finish_confirmed p i m.now id before r)
    confirmed-Effected (ok o, s) e = commit-Effected o s (next_fault s.faults) e
    confirmed-Effected (err (attempt_failed c), s) e = failed-Effected c false s.faults
    confirmed-Effected (err (guard_failed c), s) e = failed-Effected c true s.faults
    confirmed-Effected (err sqlite_error, s) e =
        failed-Effected FailureCode.transaction_failed false s.faults
    confirmed-Effected (err integrity_error, s) e =
        failed-Effected FailureCode.transaction_failed false s.faults
    confirmed-Effected (err transition_conflict, s) e = refl
    confirmed-Effected (err value_error, s) e = refl
    confirmed-Effected (err runtime_error, s) e = refl
    confirmed-Effected (err unknown_pending_action, s) e = refl
    confirmed-Effected (err not_approved, s) e = refl
    confirmed-Effected (err approval_input_error, s) e = refl
    confirmed-Effected (err capability_error, s) e = refl
    confirmed-Effected (err contract_error, s) e = refl
    confirmed-Effected (err type_error, s) e = refl

  replay-Effected :
      (o : ActionOutcome) (s : Session) (x : Bool × List Bool)
      → o.idempotent_replay ≡ true
      → core_of s.tables ≡ core_of before
      → Effected Effect before (commit_replay id before o s x)
  replay-Effected o s (true, rest) r e =
      inl (refl, inl (failure-untold s.loaded FailureCode.transaction_failed id))
  replay-Effected o s (false, rest) r e = inl (e, inr r)

  loaded-Effected :
      (r : Result Raise Loaded × Session)
      → Post (Kept (core_of before) (IsLoaded id (core_of before))) r
      → Effected Effect before (finish_loaded cfg m id before r)
  loaded-Effected (ok (replayed o), s) e = replay-Effected o s (next_fault s.faults) e.1 e.0
  loaded-Effected (ok (confirmed p i existing), s) (e, (f, a, x, q)) =
      confirmed-Effected p i f a (resume_confirmed cfg m p i existing s)
        ((resume_confirmed_runs (core_of before) cfg m p i existing x q).runs s e)
  loaded-Effected (err (attempt_failed c), s) e = inl (refl, inl (failure-untold s.loaded c id))
  loaded-Effected (err (guard_failed c), s) e = inl (refl, inl (failure-untold s.loaded c id))
  loaded-Effected (err sqlite_error, s) e = inl (refl, inl (failure-untold s.loaded _ id))
  loaded-Effected (err integrity_error, s) e = inl (refl, inl (failure-untold s.loaded _ id))
  loaded-Effected (err transition_conflict, s) e = refl
  loaded-Effected (err value_error, s) e = refl
  loaded-Effected (err runtime_error, s) e = refl
  loaded-Effected (err unknown_pending_action, s) e = refl
  loaded-Effected (err not_approved, s) e = refl
  loaded-Effected (err approval_input_error, s) e = refl
  loaded-Effected (err capability_error, s) e = refl
  loaded-Effected (err contract_error, s) e = refl
  loaded-Effected (err type_error, s) e = refl

  resume_run-Effected :
      (x : Bool × List Bool) → Effected Effect before (resume_run cfg m id before x)
  unfolding resume_run failed
  resume_run-Effected (true, rest) = inl (refl, inl refl)
  resume_run-Effected (false, rest) =
      loaded-Effected (load_approved id m.now (begin before rest))
        ((load_approved_runs (core_of before) id m.now).runs (begin before rest) refl)

-- Whatever fails, a call of execute_approved that returns has done one of three things to the
-- committed tables, audits apart: nothing, and then it tells no execution or a replay; or it has
-- ended the APPROVED row of the id without an execution and tells none; or the row is APPROVED, it
-- had no receipt, nothing is stale, the Guard's decision on these very tables is the approved one,
-- and the business row, the receipt and the row's EXECUTED end are committed together, told as
-- EXECUTED with the receipt. A call that raises has done nothing.
pub execute_approved-Effected :
    (cfg : Config) (m : Moment) (id : String) (w : World)
    → Effected (ApprovedEffect cfg m id) w.committed (execute_approved cfg m id w)
unfolding execute_approved
execute_approved-Effected cfg m id w = elim (Bool-cases (is_pending_action_id id)) [
  | inl e ↦ rw e (resume_run-Effected cfg m id w.committed (next_fault w.faults))
  | inr e ↦ rw e refl
]

-- What is told of a row is true of it, and of a receipt of the tables.
abbrev pub IsTold : Core → PendingRecord → Option ReceiptRecord → ActionOutcome → Type 0
IsTold c p receipt o =
    Truth p receipt false o × ((r : ReceiptRecord) → receipt ≡ some r → In r c.receipts)

view-Truth :
    (c : Core) (id : String)
    → Runs c (view_on id) (λ o d.
      (p : PendingRecord) × (receipt : Option ReceiptRecord) × (with_id id c.pendings ≡ some p)
      × IsTold c p receipt o)
unfolding view_on
view-Truth c id = kept_runs (load_pending_runs c id) (λ found e.
    required_runs found unknown_pending_action (λ p f. mapped_runs contract_of (
      kept_runs (receipt_for_runs c p) (λ receipt owned.
        lift_runs (pending_outcome p receipt false false) (λ o h.
          (p, receipt, sym e ∙ f, (pending_outcome-Truth p receipt false false o h, owned)))))))

-- Nothing is committed by get_outcome, whatever it returns. Where it returns an outcome, that tells
-- the status, the id, the request and the action of the committed row of the id, whether an approval
-- waits for its execution, and the stored code and Guard decision; and it carries a receipt only for
-- an EXECUTED row, a committed one that the row names and that names the row.
pub get_outcome-Truth :
    (id : String) (w : World)
    → ((get_outcome id w).1.committed ≡ w.committed)
      × ((o : ActionOutcome)
          → (get_outcome id w).0 ≡ ok o
          → (p : PendingRecord) × (receipt : Option ReceiptRecord) × (with_id id
                w.committed.pendings
              ≡ some p)
            × IsTold (core_of w.committed) p receipt o)
unfolding get_outcome
get_outcome-Truth id w = elim (Bool-cases (is_pending_action_id id)) [
  | inl e ↦ rw e (faulty (next_fault w.faults))
  | inr e ↦ rw e (refl, λ o h. absurd (lost value_error o h))
]
  where
    lost : (e : Raise) (o : ActionOutcome) → ◌≡◌ {A = Result Raise ActionOutcome} (err e) (ok o) → ⊥
    lost e o h = cc

    post :
        (r : Result Raise ActionOutcome × Session) (o : ActionOutcome)
        → Post
            (λ x d.
              (p : PendingRecord) × (receipt : Option ReceiptRecord) × (with_id id
                  w.committed.pendings
                ≡ some p)
              × IsTold (core_of w.committed) p receipt x)
            r
        → (rolled_back w.committed r).0 ≡ ok o
        → (p : PendingRecord) × (receipt : Option ReceiptRecord) × (with_id id w.committed.pendings
            ≡ some p)
          × IsTold (core_of w.committed) p receipt o
    post (err e, s) o q h = absurd (lost e o h)
    post (ok x, s) o (p, receipt, f, t) h =
        let same : x ≡ o = (let q : ◌≡◌ {A = Result Raise ActionOutcome} (ok x) (ok o) = h in cc) in
        (p, receipt, f, subst (IsTold (core_of w.committed) p receipt) same t)

    faulty :
        (y : Bool × List Bool)
        → ((viewed id w.committed y).1.committed ≡ w.committed)
          × ((o : ActionOutcome)
              → (viewed id w.committed y).0 ≡ ok o
              → (p : PendingRecord) × (receipt : Option ReceiptRecord) × (with_id id
                    w.committed.pendings
                  ≡ some p)
                × IsTold (core_of w.committed) p receipt o)
    faulty (true, rest) = (refl, λ o h. absurd (lost sqlite_error o h))
    faulty (false, rest) = (
      refl,
      λ o.
          post (view_on id (begin w.committed rest)) o
            ((view-Truth (core_of w.committed) id).runs (begin w.committed rest) refl),
    )
