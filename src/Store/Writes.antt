-- ===== src/Store/Writes.antt =====
-- What the guarded updates of aftersales/action_store.py do to the table of pending actions.
use knowledge_agent.Prelude.{
  ℕ, String, Bool, true, false, ◌&&◌, List, [], ◌∷◌, Result, ok, err, leb, ◌==◌, nat_eq, string_eq,
  Bool-cases, ◌≡◌, refl, arith, ◌⊎◌, inl, inr,
}
use knowledge_agent.Schema.{PendingStatus}
use knowledge_agent.Policy.{Instant}
use knowledge_agent.Ids.{is_id, is_approver_ref}
use knowledge_agent.Approval.{Approval}
use knowledge_agent.Outcome.{Code}
use knowledge_agent.Store.{
  PendingRecord, Tables, constraints, Session, Raise, Store, ◌>>◌, go_on, run_write,
  transition_conflict, value_error, check, execute, next_fault, update, update_tables, guarded,
  is_pending_approval, is_approved, at_version, decided, record_decision, terminal_code, ended,
  transition_terminal, linked, mark_executed,
}
use knowledge_agent.Store.Lifecycle.{Step, decision, terminal, execution}

-- Row by row: unchanged, or one transition further.
abbrev pub Moved : List PendingRecord → List PendingRecord → Type 0
Moved [] [] = Unit
Moved (p ∷ ps) (q ∷ qs) = ((q ≡ p) ⊎ Step p q) × Moved ps qs
Moved _ _ = ⊥

pub unmoved : (ps : List PendingRecord) → Moved ps ps
unmoved [] = tt
unmoved (p ∷ ps) = (inl refl, unmoved ps)

pub update-Moved :
    (test : PendingRecord → Bool) (f : PendingRecord → PendingRecord)
    → ((p : PendingRecord) → test p ≡ true → Step p (f p))
    → (ps : List PendingRecord) → Moved ps (update test f ps)
unfolding update
update-Moved test f step [] = tt
update-Moved test f step (p ∷ ps) = (
  elim (Bool-cases (test p)) [ inl e ↦ rw e (inr (step p e)) | inr e ↦ rw e (inl refl) ],
  update-Moved test f step ps,
)

-- The tables that a statement leaves, whatever it returns: those after it, or those before.
pub run_write-tables :
    (t : Tables) (n : ℕ) (s : Session) (x : Bool × List Bool)
    → ((run_write t n s x).1.tables ≡ s.tables) ⊎ ((run_write t n s x).1.tables ≡ t)
run_write-tables t n s (true, rest) = inl refl
run_write-tables t n s (false, rest) = elim (Bool-cases (constraints t.pendings)) [
  | inl e ↦ rw e (inr refl)
  | inr e ↦ rw e (inl refl)
]

pub execute-tables :
    (f : Tables → Tables × ℕ) (s : Session)
    → ((execute f s).1.tables ≡ s.tables) ⊎ ((execute f s).1.tables ≡ (f s.tables).0)
unfolding execute
execute-tables f s = run_write-tables (f s.tables).0 (f s.tables).1 s (next_fault s.faults)

pub go_on-session :
    {A B : Type 0} (o : Result Raise A × Session) (f : A → Store B)
    → ((a : A) (s : Session) → (f a s).1 ≡ s)
    → (go_on o f).1 ≡ o.1
go_on-session (ok a, s) f h = h a s
go_on-session (err e, s) f h = refl

pub check-session : (b : Bool) (e : Raise) (s : Session) → (check b e s).1 ≡ s
check-session true e s = refl
check-session false e s = refl

-- A computation of the store that moves rows by one transition at most.
pub record Moves {A : Type 0} (m : Store A) : Type 0 where
  pub moved : (s : Session) → Moved s.tables.pendings (m s).1.tables.pendings

guarded-Moves :
    (test : PendingRecord → Bool) (f : PendingRecord → PendingRecord)
    → ((p : PendingRecord) → test p ≡ true → Step p (f p))
    → Moves (guarded test f)
unfolding guarded update_tables
guarded-Moves test f step = record {
  moved = λ s.
      rw
        (go_on-session (execute (update_tables test f) s) (λ n. check (n == 1) transition_conflict)
          (λ n t. check-session (n == 1) transition_conflict t))
        (elim (execute-tables (update_tables test f) s) [
          | inl e ↦ rw e (unmoved s.tables.pendings)
          | inr e ↦ rw e (update-Moved test f step s.tables.pendings)
        ]);
}

check-Moves :
    (b : Bool) (e : Raise) {k : Store (Unit {0})} → (b ≡ true → Moves k) → Moves (check b e >> k)
check-Moves b e {k} h = record { moved = go b h }
  where
    go :
        (b : Bool)
        → (b ≡ true → Moves k)
        → (s : Session) → Moved s.tables.pendings ((check b e >> k) s).1.tables.pendings
    go true h s = (h refl).moved s
    go false h s = unmoved s.tables.pendings

waiting : (x : PendingStatus) → is_pending_approval x ≡ true → x ≡ PendingStatus.pending_approval
waiting x h = ground arith

approved : (x : PendingStatus) → is_approved x ≡ true → x ≡ PendingStatus.approved
approved x h = ground arith

pub record_decision-Moves :
    (id : String) (v : ℕ) (d : Approval) (approver : String) (t at : Instant)
    → Moves (record_decision id v d approver t at)
unfolding record_decision
record_decision-Moves id v d approver t at = check-Moves (is_approver_ref approver) value_error λ _.
    check-Moves (is_id id && leb 1 v) value_error λ _.
      guarded-Moves (at_version is_pending_approval id v) (decided d approver t at)
        (λ p h. decision d approver t at (waiting p.status (ground arith)))

transition_terminal-Moves :
    (id : String) (v : ℕ) (status : PendingStatus) (c : Code) (at : Instant)
    → Moves (transition_terminal id v status c at)
unfolding transition_terminal
transition_terminal-Moves id v status c at =
    check-Moves (terminal_code status c) value_error λ fits.
      check-Moves (is_id id && leb 1 v) value_error λ _.
        guarded-Moves (at_version is_approved id v) (ended status c at)
          (λ p h. terminal status c at (approved p.status (ground arith)) fits)

mark_executed-Moves :
    (id : String) (v : ℕ) (receipt : String) (at : Instant) → Moves (mark_executed id v receipt at)
unfolding mark_executed
mark_executed-Moves id v receipt at =
    check-Moves (is_id receipt && is_id id && leb 1 v) value_error λ _.
      guarded-Moves (at_version is_approved id v) (linked receipt at)
        (λ p h. execution receipt at (approved p.status (ground arith)))

-- Whatever a guarded update of the store returns, and wherever the database fails, it leaves every
-- row of the table as it was or one transition further, and adds and removes none.
pub writes_move :
    (s : Session) (id : String) (v : ℕ) (at : Instant)
    → ((d : Approval) (approver : String) (t : Instant)
        → Moved s.tables.pendings (record_decision id v d approver t at s).1.tables.pendings)
      × ((status : PendingStatus) (c : Code)
          → Moved s.tables.pendings (transition_terminal id v status c at s).1.tables.pendings)
      × ((receipt : String)
          → Moved s.tables.pendings (mark_executed id v receipt at s).1.tables.pendings)
writes_move s id v at = (
  λ d approver t. (record_decision-Moves id v d approver t at).moved s,
  λ status c. (transition_terminal-Moves id v status c at).moved s,
  λ receipt. (mark_executed-Moves id v receipt at).moved s,
)
