-- ===== src/Gateway/Attempted.antt =====
-- What one attempt does inside its transaction (aftersales/action_gateway.py, _attempt).
use knowledge_agent.Prelude.{
  String, true, false, not, ◌&&◌, Option, none, some, [], ◌∷◌, ◌++◌, ◌==◌, string_eq, nat_eq, ◌≡◌,
  ◌⊎◌, inl, inr, refl, sym,
}
use knowledge_agent.Actions.{name_eq, ValidatedAction}
use knowledge_agent.Guard.Types.{GuardDecisionKind, GuardDecision}
use knowledge_agent.Ids.{is_id, is_key, RequestIdentity}
use knowledge_agent.Outcome
use knowledge_agent.Outcome.{ActionStatus, Code, ReceiptView, ActionOutcome, constructs}
use knowledge_agent.Store
use knowledge_agent.Store.{
  PendingRecord, ReceiptRecord, Tables, Session, Raise, Store, ◌>>=◌, ◌>>◌, pure, check, next_fault,
  value_error, runtime_error, attempt_failed, guard_failed, sqlite_error, integrity_error,
  transition_conflict, unknown_pending_action, not_approved, approval_input_error, capability_error,
  contract_error,
}
use knowledge_agent.Store.Inserts.{receipt_at, pending_at, insert_pending, add_pending}
use knowledge_agent.Gateway.Views.{pending_outcome-Truth}
use knowledge_agent.Gateway.{write_error, read_error}
use knowledge_agent.Gateway.Execution.{Config, Moment, IdKind, GuardCapture}
use knowledge_agent.Gateway.Attempt.{
  outcome, replay_receipt, replay_pending, pending_row, create_pending, act_on, attempt_new,
  attempt_pending, attempt_receipt, attempt,
}
use knowledge_agent.Gateway.Runs.{
  Core, Runs, pure_runs, bind_runs, kept_runs, mapped_runs, check_runs, check_end_runs, lift_runs,
  audit_then, execute_runs, find_receipt_runs, find_pending_runs,
}
use knowledge_agent.Gateway.Effects.{
  IsCapture, IsDecided, IsExecution, capture_runs, decide_runs, write_execution_runs, new_id_runs,
}

-- Nothing but audits was written, and no new execution is told.
abbrev pub Untouched : Core → ActionOutcome → Core → Type 0
Untouched c o after =
    (after ≡ c) × ((Outcome.is_executed o.status ≡ false) ⊎ (o.idempotent_replay ≡ true))

-- A new action was captured and decided on these tables, where the key is in none of them.
pub record IsFresh (cfg : Config) (m : Moment) (customer : String) (action : ValidatedAction)
    (key : String) (c : Core) : Type 0 where
  pub capture : GuardCapture
  pub decision : GuardDecision
  pub no_receipt : receipt_at key c.receipts ≡ none
  pub no_pending : pending_at key c.pendings ≡ none
  pub captured : IsCapture cfg m customer action none c capture
  pub decided : IsDecided cfg m action capture decision

insert_pending_runs :
    (c : Core) (p : PendingRecord)
    → Runs c (insert_pending p) (λ u d. d ≡ record c { pendings = c.pendings ++ p ∷ [] })
unfolding insert_pending add_pending
insert_pending_runs c p =
    check_runs (is_id p.pending_action_id && is_key p.idempotency_key) value_error (λ _.
      bind_runs
        (execute_runs c (add_pending p) (λ d. record d { pendings = d.pendings ++ p ∷ [] })
          (λ t. refl))
        (λ n d q. check_end_runs (n == 1) runtime_error q))

module _ (cfg : Config) (m : Moment) (identity : RequestIdentity) (customer : String)
    (action : ValidatedAction) (key : String) where
  -- One pending action was added, for a decision that requires an approval.
  pub record IsCreated (c : Core) (o : ActionOutcome) (after : Core) : Type 0 where
    pub fresh : IsFresh cfg m customer action key c
    pub requires : fresh.decision.decision ≡ GuardDecisionKind.require_approval
    pub id : String
    pub written : after ≡ record c {
      pendings =
          c.pendings ++ pending_row cfg m identity action key fresh.capture fresh.decision id ∷ [];
    }
    pub told : (o.status ≡ ActionStatus.waiting_approval) × (o.pending_action_id ≡ some id)

  -- One business row and its receipt were added, for a decision that allows.
  pub record IsExecuted (c : Core) (o : ActionOutcome) (after : Core) : Type 0 where
    pub fresh : IsFresh cfg m customer action key c
    pub allows : fresh.decision.decision ≡ GuardDecisionKind.allow
    pub view : ReceiptView
    pub execution :
        IsExecution cfg m identity customer action key fresh.capture fresh.decision none c view
          after
    pub told : (o.status ≡ ActionStatus.executed) × (o.receipt ≡ some view)

  -- What an attempt may do.
  abbrev pub StartEffect : Core → ActionOutcome → Core → Type 0
  StartEffect c o after = Untouched c o after ⊎ (IsCreated c o after ⊎ IsExecuted c o after)

  outcome_runs :
      {c : Core} {Q : ActionOutcome → Core → Type 0} (o : ActionOutcome)
      → Q o c
      → Runs c (outcome o) Q
  outcome_runs o h = check_runs (constructs o) value_error (λ _. pure_runs h)

  replay_receipt_runs :
      (c : Core) (r : ReceiptRecord)
      → Runs c (replay_receipt identity action key m.now r) (StartEffect c)
  unfolding replay_receipt
  replay_receipt_runs c r =
      check_runs (r.action_name == action.action_name) _
        (λ _. audit_then _ (outcome_runs _ (inl (refl, inr refl))))

  replay_pending_runs :
      (c : Core) (p : PendingRecord)
      → Runs c (replay_pending identity action key m.now p) (StartEffect c)
  unfolding replay_pending
  replay_pending_runs c p =
      check_runs (p.action_name == action.action_name && not (Store.is_executed p.status)) _ (λ _.
        audit_then _
          (lift_runs _ (λ o h. inl (refl, inr (pending_outcome-Truth p none true false o h).2))))

  create_pending_runs :
      (c : Core) (f : IsFresh cfg m customer action key c)
      → f.decision.decision ≡ GuardDecisionKind.require_approval
      → Runs c (create_pending cfg m identity action key f.capture f.decision) (StartEffect c)
  unfolding create_pending
  create_pending_runs c f e = new_id_runs cfg IdKind.pending_action key (λ id.
      bind_runs
        (insert_pending_runs c (pending_row cfg m identity action key f.capture f.decision id))
        (λ u d q. audit_then _ (
          outcome_runs _ (
            inr (
              inl
                (record { fresh = f; requires = e; id = id; written = q; told = (refl, refl) }))))))

  act_on_runs :
      (c : Core) (f : IsFresh cfg m customer action key c) (k : GuardDecisionKind)
      → f.decision.decision ≡ k
      → Runs c (act_on cfg m identity customer action key f.capture f.decision k) (StartEffect c)
  unfolding act_on
  act_on_runs c f GuardDecisionKind.deny e = audit_then _ (outcome_runs _ (inl (refl, inl refl)))
  act_on_runs c f GuardDecisionKind.require_approval e = create_pending_runs c f e
  act_on_runs c f GuardDecisionKind.allow e =
      bind_runs
        (write_execution_runs c cfg m identity customer action key f.capture f.decision none)
        (λ view d x. audit_then _ (
          outcome_runs _ (
            inr (
              inr (record {
                fresh = f;
                allows = e;
                view = view;
                execution = x;
                told = (refl, refl);
              })))))

  attempt_new_runs :
      (c : Core)
      → receipt_at key c.receipts ≡ none
      → pending_at key c.pendings ≡ none
      → Runs c (attempt_new cfg m identity customer action key) (StartEffect c)
  unfolding attempt_new
  attempt_new_runs c r p = kept_runs (capture_runs c cfg m customer action none) (λ x h.
      decide_runs cfg m action x (λ d q. mapped_runs write_error (
        audit_then _ (
          act_on_runs c
            (record {
              capture = x;
              decision = d;
              no_receipt = r;
              no_pending = p;
              captured = h;
              decided = q;
            })
            d.decision refl))))

  attempt_pending_runs :
      (c : Core) (p : Option PendingRecord)
      → receipt_at key c.receipts ≡ none
      → p ≡ pending_at key c.pendings
      → Runs c (attempt_pending cfg m identity customer action key p) (StartEffect c)
  unfolding attempt_pending
  attempt_pending_runs c none r e = attempt_new_runs c r (sym e)
  attempt_pending_runs c (some p) r e = mapped_runs write_error (replay_pending_runs c p)

  attempt_receipt_runs :
      (c : Core) (r : Option ReceiptRecord)
      → r ≡ receipt_at key c.receipts
      → Runs c (attempt_receipt cfg m identity customer action key r) (StartEffect c)
  unfolding attempt_receipt
  attempt_receipt_runs c (some r) e = mapped_runs write_error (replay_receipt_runs c r)
  attempt_receipt_runs c none e =
      kept_runs (mapped_runs read_error (find_pending_runs c key))
        (λ p q. attempt_pending_runs c p (sym e) q)

  pub attempt_runs :
      (c : Core) → Runs c (attempt cfg m identity customer action key) (StartEffect c)
  unfolding attempt
  attempt_runs c =
      kept_runs (mapped_runs read_error (find_receipt_runs c key))
        (λ r q. attempt_receipt_runs c r q)
