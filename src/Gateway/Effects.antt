-- ===== src/Gateway/Effects.antt =====
-- What a capture with its decision has read, and what an execution writes
-- (aftersales/action_gateway.py, _capture, _decide and _write_execution).
use mathlib.Core.Path.{subst}
use knowledge_agent.Prelude.{
  String, ◌&&◌, Option, some, [], ◌∷◌, ◌++◌, ok, ◌==◌, nat_eq, ◌≡◌, refl, ap, ◌∙◌,
}
use knowledge_agent.Schema.{FailureCode, CaseType}
use knowledge_agent.Actions.{ActionName, ValidatedAction}
use knowledge_agent.GuardState.{GuardState}
use knowledge_agent.GuardState.Templates.{Database}
use knowledge_agent.GuardState.Reader.{read_state}
use knowledge_agent.Guard.Types.{GuardDecision}
use knowledge_agent.Guard.Decide.{decide}
use knowledge_agent.Ids.{is_id, is_key, RequestIdentity}
use knowledge_agent.Outcome.{ReceiptView}
use knowledge_agent.Snapshot.{candidate_snapshot}
use knowledge_agent.Store.{
  ReceiptRecord, Session, Store, ◌>>=◌, attempt_failed, guard_failed, value_error, runtime_error,
}
use knowledge_agent.Store.Inserts.{
  insert_after_sales_case, insert_handoff_ticket, insert_receipt, add_case, add_ticket, add_receipt,
  case_row, ticket_row, label_of, argument, cases_fit, tickets_fit, receipts_fit, id_or_none,
}
use knowledge_agent.Gateway.Execution.{
  Config, Moment, GuardCapture, IdKind, source_of, capture, decide_action, new_id, insert_resource,
  receipt_row, resource_of, write_execution,
}
use knowledge_agent.Gateway.Runs.{
  Core, core_of, tables_of, Runs, Kept, pure_runs, bind_runs, check_runs, check_end_runs,
  required_runs, key_error_runs, from_guard_runs, insert_row_runs,
}

-- The capture is of these tables, and of the publication of this transaction.
abbrev pub IsCapture :
    Config → Moment → String → ValidatedAction → Option String → Core → GuardCapture → Type 0
IsCapture cfg m customer action exclude c x =
    (read_state (source_of cfg m customer exclude (tables_of c)) action m.now ≡ ok x.state)
    × (m.catalog ≡ some x.policy)
    × (x.candidate ≡ candidate_snapshot action.action_name x.state x.policy cfg.risk m.now)

-- The decision is the Guard's, on this capture.
abbrev pub IsDecided : Config → Moment → ValidatedAction → GuardCapture → GuardDecision → Type 0
IsDecided cfg m action x d = decide action x.state x.policy cfg.risk m.now ≡ ok d

pub capture_runs :
    (c : Core) (cfg : Config) (m : Moment) (customer : String) (action : ValidatedAction)
    (exclude : Option String)
    → Runs c
        (capture cfg m customer action exclude)
        (Kept c (IsCapture cfg m customer action exclude c))
unfolding capture
capture_runs c cfg m customer action exclude = record {
  runs = λ s e.
      (from_guard_runs {c = core_of s.tables}
          {Q = Kept c (IsCapture cfg m customer action exclude c)}
          (read_state (source_of cfg m customer exclude s.tables) action m.now)
          (λ state h.
            required_runs m.catalog (guard_failed FailureCode.policy_unavailable)
              (λ policy p. pure_runs (e, (rewritten s e state h, p, refl))))).runs
        s refl;
}
  where
    rewritten :
        (s : Session)
        → core_of s.tables ≡ c
        → (state : GuardState)
        → read_state (source_of cfg m customer exclude s.tables) action m.now ≡ ok state
        → read_state (source_of cfg m customer exclude (tables_of c)) action m.now ≡ ok state
    rewritten s e state h =
        subst
          (λ x. read_state (source_of cfg m customer exclude (tables_of x)) action m.now ≡ ok state)
          e h

pub decide_runs :
    {B : Type 0} {c : Core} {Q : B → Core → Type 0} (cfg : Config) (m : Moment)
    (action : ValidatedAction) (x : GuardCapture) {f : GuardDecision → Store B}
    → ((d : GuardDecision) → IsDecided cfg m action x d → Runs c (f d) Q)
    → Runs c (decide_action cfg m action x >>= f) Q
unfolding decide_action
decide_runs cfg m action x h = from_guard_runs (decide action x.state x.policy cfg.risk m.now) h

-- The business row of an action, in the tables of the domain.
abbrev pub WithCase :
    CaseType → String → ValidatedAction → String → String → Database → Database → Type 0
WithCase type id action customer at before after =
    (label : String) × (label_of (argument "reason_code" action) ≡ some label)
    × (after ≡ record before {
      after_sales_cases =
          before.after_sales_cases ++ case_row id action customer type label at ∷ [];
    })

abbrev pub WithResource :
    ActionName → String → ValidatedAction → String → String → Database → Database → Type 0
WithResource ActionName.create_return id action customer at before after =
    WithCase CaseType.return id action customer at before after
WithResource ActionName.create_exchange id action customer at before after =
    WithCase CaseType.exchange id action customer at before after
WithResource ActionName.escalate_to_human id action customer at before after =
    (trigger : String) × (argument "handoff_trigger" action ≡ some trigger)
    × (after ≡ record before {
      human_handoff_tickets = before.human_handoff_tickets ++ ticket_row id action trigger at ∷ [];
    })

abbrev HasResource :
    ActionName → String → ValidatedAction → String → String → Core → Unit {0} → Core → Type 0
HasResource name id action customer at c u d =
    (domain : Database) × (d ≡ record c { domain = domain })
    × WithResource name id action customer at c.domain domain

insert_case_runs :
    (c : Core) (type : CaseType) (id : String) (action : ValidatedAction) (customer at : String)
    → Runs c (insert_after_sales_case id action customer type at) (λ u d.
      (domain : Database) × (d ≡ record c { domain = domain })
      × WithCase type id action customer at c.domain domain)
unfolding insert_after_sales_case
insert_case_runs c type id action customer at =
    key_error_runs (label_of (argument "reason_code" action)) (λ label l.
      check_runs _ value_error (λ _.
        bind_runs
          (insert_row_runs c (λ t. cases_fit t.domain.after_sales_cases)
            (add_case (case_row id action customer type label at))
            (λ d. record d {
              domain = record d.domain {
                after_sales_cases =
                    d.domain.after_sales_cases ++ case_row id action customer type label at ∷ [];
              };
            })
            (λ t. refl))
          (λ n d q. check_end_runs (n == 1) runtime_error (_, q, (label, l, refl)))))

insert_ticket_runs :
    (c : Core) (id : String) (action : ValidatedAction) (customer at : String)
    → Runs c
        (insert_handoff_ticket id action at)
        (HasResource ActionName.escalate_to_human id action customer at c)
unfolding insert_handoff_ticket
insert_ticket_runs c id action customer at = check_runs _ value_error (λ _.
    key_error_runs (argument "handoff_trigger" action) (λ trigger l.
      bind_runs
        (insert_row_runs c (λ t. tickets_fit t.domain.human_handoff_tickets)
          (add_ticket (ticket_row id action trigger at))
          (λ d. record d {
            domain = record d.domain {
              human_handoff_tickets =
                  d.domain.human_handoff_tickets ++ ticket_row id action trigger at ∷ [];
            };
          })
          (λ t. refl))
        (λ n d q. check_end_runs (n == 1) runtime_error (_, q, (trigger, l, refl)))))

insert_resource_runs :
    (c : Core) (name : ActionName) (id : String) (action : ValidatedAction) (customer at : String)
    → Runs c (insert_resource name id action customer at) (HasResource name id action customer at c)
unfolding insert_resource
insert_resource_runs c ActionName.create_return id action customer at =
    insert_case_runs c CaseType.return id action customer at
insert_resource_runs c ActionName.create_exchange id action customer at =
    insert_case_runs c CaseType.exchange id action customer at
insert_resource_runs c ActionName.escalate_to_human id action customer at =
    insert_ticket_runs c id action customer at

insert_receipt_runs :
    (c : Core) (r : ReceiptRecord)
    → Runs c (insert_receipt r) (λ u d. d ≡ record c { receipts = c.receipts ++ r ∷ [] })
unfolding insert_receipt
insert_receipt_runs c r = check_runs (id_or_none r.pending_action_id) value_error (λ _.
    check_runs (is_id r.receipt_id && is_key r.idempotency_key && is_id r.resource_id) value_error
      (λ _.
        bind_runs
          (insert_row_runs c (λ t. receipts_fit t.receipts) (add_receipt r)
            (λ d. record d { receipts = d.receipts ++ r ∷ [] }) (λ t. refl))
          (λ n d q. check_end_runs (n == 1) runtime_error q)))

pub new_id_runs :
    {B : Type 0} {c : Core} {Q : B → Core → Type 0} (cfg : Config) (kind : IdKind) (key : String)
    {f : String → Store B}
    → ((id : String) → Runs c (f id) Q)
    → Runs c (new_id cfg kind key >>= f) Q
unfolding new_id
new_id_runs cfg kind key h =
    required_runs (cfg.services.new_id kind key) (attempt_failed FailureCode.id_generation_failed)
      (λ id _. h id)

-- The one business row of the action and its receipt, and nothing else.
pub record IsExecution (cfg : Config) (m : Moment) (identity : RequestIdentity) (customer : String)
    (action : ValidatedAction) (key : String) (x : GuardCapture) (d : GuardDecision)
    (pending : Option String) (c : Core) (view : ReceiptView) (after : Core) : Type 0 where
  pub resource_id : String
  pub receipt_id : String
  pub domain : Database
  pub row :
      WithResource action.action_name resource_id action customer
        (cfg.services.codec.isoformat m.now)
        c.domain
        domain
  pub written : after ≡ record c {
    domain = domain;
    receipts =
        c.receipts ++ receipt_row cfg m identity action key x d pending resource_id receipt_id ∷ [];
  }
  pub viewed : view ≡ record {
    receipt_id = receipt_id;
    resource_type = resource_of action.action_name;
    resource_id = resource_id;
  }

pub write_execution_runs :
    (c : Core) (cfg : Config) (m : Moment) (identity : RequestIdentity) (customer : String)
    (action : ValidatedAction) (key : String) (x : GuardCapture) (d : GuardDecision)
    (pending : Option String)
    → Runs c
        (write_execution cfg m identity customer action key x d pending)
        (IsExecution cfg m identity customer action key x d pending c)
unfolding write_execution
write_execution_runs c cfg m identity customer action key x d pending =
    new_id_runs cfg _ key (λ resource_id. new_id_runs cfg IdKind.receipt key (λ receipt_id.
      bind_runs
        (insert_resource_runs c action.action_name resource_id action customer
          (cfg.services.codec.isoformat m.now))
        (λ u e h.
          bind_runs
            (insert_receipt_runs e
              (receipt_row cfg m identity action key x d pending resource_id receipt_id))
            (λ v a q. pure_runs (record {
              resource_id = resource_id;
              receipt_id = receipt_id;
              domain = h.0;
              row = h.2;
              written = q ∙ ap (receipted resource_id receipt_id) h.1;
              viewed = refl;
            })))))
  where
    receipted : String → String → Core → Core
    receipted resource_id receipt_id e = record e {
      receipts =
          e.receipts
          ++ receipt_row cfg m identity action key x d pending resource_id receipt_id ∷ [];
    }
