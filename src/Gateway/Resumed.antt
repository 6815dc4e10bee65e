-- ===== src/Gateway/Resumed.antt =====
-- What T2 does to the tables (aftersales/action_gateway.py, execute_approved): nothing, the end of
-- one approved row, or its execution, each told by the outcome.
use knowledge_agent.Prelude.{
  ℕ, String, true, false, ◌&&◌, none, some, ok, string_eq, ◌≡◌, ◌⊎◌, inl, inr, refl, ap, ◌∙◌,
  Bool-cases, leb,
}
use knowledge_agent.Schema.{PendingStatus}
use knowledge_agent.Actions.{ValidatedAction}
use knowledge_agent.Policy.{Instant}
use knowledge_agent.Guard.Types.{GuardDecision}
use knowledge_agent.Snapshot
use knowledge_agent.Snapshot.{SnapshotError, StaleReason}
use knowledge_agent.Snapshot.Parser.{StoredSnapshot, parse_snapshot_document}
use knowledge_agent.Ids.{is_id, RequestIdentity}
use knowledge_agent.Outcome
use knowledge_agent.Outcome.{
  ActionStatus, Code, reason, failure, stale_reason, ReceiptView, ActionOutcome,
}
use knowledge_agent.Store.{
  PendingRecord, value_error, is_approved, at_version, ended, linked, transition_terminal,
  mark_executed, terminal_code,
}
use knowledge_agent.Store.Inserts.{receipt_at}
use knowledge_agent.Gateway.{write_error, lift, pending_outcome}
use knowledge_agent.Gateway.Views.{view_status, pending_outcome-Truth}
use knowledge_agent.Gateway.Execution.{Config, Moment, Persona, GuardCapture}
use knowledge_agent.Gateway.Rebuilt.{IsStored}
use knowledge_agent.Gateway.ResumeSteps.{
  closed_row, close_row, close_stale, execute_now, same_decision, is_denial, conclude_resume,
  decide_again,
}
use knowledge_agent.Gateway.Runs.{
  Core, Runs, pure_runs, bind_runs, weaken_runs, mapped_runs, check_runs, lift_runs, audit_then,
  append_audit_runs, guarded_runs, updated,
}
use knowledge_agent.Gateway.Effects.{
  IsCapture, IsDecided, IsExecution, decide_runs, write_execution_runs,
}

-- One approved row ended without an execution, at the version that was read.
abbrev pub Closed : Instant → PendingRecord → Core → Core → Type 0
Closed at p c after =
    (status : PendingStatus) × (code : Code) × (terminal_code status code ≡ true)
    × (after
        ≡ updated (at_version is_approved p.pending_action_id p.version) (ended status code at) c)

-- The stored action of the row was executed: nothing is stale, the Guard's decision on these tables is the one
-- that was approved, and the business row, the receipt and the row's end are written together.
pub record IsResumed (cfg : Config) (m : Moment) (p : PendingRecord) (c : Core) (o : ActionOutcome)
    (after : Core) : Type 0 where
  pub identity : RequestIdentity
  pub persona : Persona
  pub action : ValidatedAction
  pub capture : GuardCapture
  pub decision : GuardDecision
  pub view : ReceiptView
  pub rebuilt : IsStored cfg p identity action
  pub unexecuted : receipt_at p.idempotency_key c.receipts ≡ none
  pub resolved : cfg.services.persona p.persona_id ≡ some persona
  pub captured : IsCapture cfg m persona.customer_id action (some p.pending_action_id) c capture
  pub stored : StoredSnapshot
  pub parsed_as :
      parse_snapshot_document cfg.services.codec p.snapshot_json p.snapshot_sha256 p.action_name
      ≡ ok stored
  pub fresh : Snapshot.stale_reason stored.snapshot capture.candidate ≡ ok none
  pub decided : IsDecided cfg m action capture decision
  pub same : same_decision decision p ≡ true
  pub middle : Core
  pub execution :
      IsExecution cfg m identity persona.customer_id action p.idempotency_key capture decision
        (some p.pending_action_id)
        c
        view
        middle
  pub written :
      after
      ≡ updated
          (at_version is_approved p.pending_action_id p.version)
          (linked view.receipt_id m.now)
          middle
  pub told : (o.status ≡ ActionStatus.executed) × (o.receipt ≡ some view)

-- What T2 may do to an approved row.
abbrev pub ResumeEffect : Config → Moment → PendingRecord → Core → ActionOutcome → Core → Type 0
ResumeEffect cfg m p c o after =
    ((Outcome.is_executed o.status ≡ false) × Closed m.now p c after) ⊎ IsResumed cfg m p c o after

pub transition_runs :
    (c : Core) (id : String) (v : ℕ) (status : PendingStatus) (code : Code) (at : Instant)
    → Runs c (transition_terminal id v status code at) (λ u d.
      (terminal_code status code ≡ true)
      × (d ≡ updated (at_version is_approved id v) (ended status code at) c))
unfolding transition_terminal
transition_runs c id v status code at = check_runs (terminal_code status code) value_error (λ t.
    check_runs (is_id id && leb 1 v) value_error (λ _.
      weaken_runs (guarded_runs c (at_version is_approved id v) (ended status code at))
        (λ u d q. (t, q))))

mark_runs :
    (c : Core) (id : String) (v : ℕ) (receipt : String) (at : Instant)
    → Runs c
        (mark_executed id v receipt at)
        (λ u d. d ≡ updated (at_version is_approved id v) (linked receipt at) c)
unfolding mark_executed
mark_runs c id v receipt at =
    check_runs (is_id receipt && is_id id && leb 1 v) value_error
      (λ _. guarded_runs c (at_version is_approved id v) (linked receipt at))

close_row_runs :
    (c : Core) (p : PendingRecord) (i : RequestIdentity) (at : Instant) (status : PendingStatus)
    (told : ActionStatus) (code : Code)
    → Runs c (close_row p i at status told code) (λ u d. Closed at p c d)
unfolding close_row
close_row_runs c p i at status told code =
    bind_runs (transition_runs c p.pending_action_id p.version status code at)
      (λ u d q. weaken_runs (append_audit_runs d _) (λ v e r. (status, code, q.0, r.0 ∙ q.1)))

-- the outcome of a row that has ended
closed-view :
    (p : PendingRecord) (status : PendingStatus) (code : Code) (o : ActionOutcome)
    → Outcome.is_executed (view_status status) ≡ false
    → pending_outcome (closed_row p status code) none false false ≡ ok o
    → Outcome.is_executed o.status ≡ false
closed-view p status code o n h =
    ap Outcome.is_executed (pending_outcome-Truth (closed_row p status code) none false false o h).0
    ∙ n

module _ (cfg : Config) (m : Moment) (p : PendingRecord) (i : RequestIdentity) (c : Core) where
  closing :
      {d : Core} (status : PendingStatus) (code : Code)
      → Outcome.is_executed (view_status status) ≡ false
      → Closed m.now p c d
      → Runs d
          (lift (pending_outcome (closed_row p status code) none false false))
          (ResumeEffect cfg m p c)
  closing status code n h = lift_runs _ (λ o q. inl (closed-view p status code o n q, h))

  pub close_stale_runs :
      (r : StaleReason) → Runs c (close_stale p i m.now r) (ResumeEffect cfg m p c)
  unfolding close_stale
  close_stale_runs r =
      bind_runs
        (mapped_runs write_error (
          bind_runs
            (transition_runs c p.pending_action_id p.version PendingStatus.stale (stale_reason r)
              m.now)
            (λ u d q. audit_then _ (
              weaken_runs {Q = λ v e. Closed m.now p c e} (append_audit_runs d _)
                (λ v e s. (PendingStatus.stale, stale_reason r, q.0, s.0 ∙ q.1))))))
        (λ u d q. closing PendingStatus.stale (stale_reason r) refl q)

  module _ (persona : Persona) (action : ValidatedAction) (x : GuardCapture)
      (stored : StoredSnapshot) (unexecuted : receipt_at p.idempotency_key c.receipts ≡ none)
      (resolved : cfg.services.persona p.persona_id ≡ some persona)
      (rebuilt : IsStored cfg p i action)
      (captured : IsCapture cfg m persona.customer_id action (some p.pending_action_id) c x)
      (parsed_as : parse_snapshot_document cfg.services.codec p.snapshot_json p.snapshot_sha256
          p.action_name
        ≡ ok stored)
      (fresh : Snapshot.stale_reason stored.snapshot x.candidate ≡ ok none) where
    execute_now_runs :
        (d : GuardDecision)
        → IsDecided cfg m action x d
        → same_decision d p ≡ true
        → Runs c (execute_now cfg m p i persona.customer_id action x d) (ResumeEffect cfg m p c)
    unfolding execute_now
    execute_now_runs d decided same =
        bind_runs
          (write_execution_runs c cfg m i persona.customer_id action p.idempotency_key x d
            (some p.pending_action_id))
          (λ view e w.
            bind_runs (mark_runs e p.pending_action_id p.version view.receipt_id m.now) (λ u a q.
              audit_then _ (
                pure_runs (
                  inr (record {
                    identity = i;
                    persona = persona;
                    action = action;
                    capture = x;
                    decision = d;
                    view = view;
                    rebuilt = rebuilt;
                    unexecuted = unexecuted;
                    resolved = resolved;
                    captured = captured;
                    stored = stored;
                    parsed_as = parsed_as;
                    fresh = fresh;
                    decided = decided;
                    same = same;
                    middle = e;
                    execution = w;
                    written = q;
                    told = (refl, refl);
                  })))))

    conclude_runs :
        (d : GuardDecision)
        → IsDecided cfg m action x d
        → Runs c (conclude_resume cfg m p i persona.customer_id action x d) (ResumeEffect cfg m p c)
    unfolding conclude_resume
    conclude_runs d decided = elim (Bool-cases (is_denial d.decision)) [
      | inl e ↦ rw e (
          bind_runs
            (close_row_runs c p i m.now PendingStatus.denied ActionStatus.denied
              (reason d.reason_code))
            (λ u a q. closing PendingStatus.denied (reason d.reason_code) refl q))
      | inr e ↦ rw e (elim (Bool-cases (same_decision d p)) [
        | inl s ↦ rw s (execute_now_runs d decided s)
        | inr s ↦ rw s (
            bind_runs
              (close_row_runs c p i m.now PendingStatus.stale ActionStatus.stale
                (stale_reason StaleReason.guard_decision_changed))
              (λ u a q.
                closing PendingStatus.stale (stale_reason StaleReason.guard_decision_changed) refl
                  q))
      ])
    ]

    pub decide_again_runs :
        Runs c (decide_again cfg m p i persona.customer_id action x none) (ResumeEffect cfg m p c)
    unfolding decide_again
    decide_again_runs = decide_runs cfg m action x (λ d decided.
        mapped_runs write_error (audit_then _ (audit_then _ (conclude_runs d decided))))
