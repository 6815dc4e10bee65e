-- ===== src/Gateway/Runs.antt =====
-- A program logic for the transactions of aftersales/action_gateway.py: what a computation that
-- returns has done to the tables, the audit trail apart.
use knowledge_agent.Prelude.{
  ℕ, String, Bool, true, false, Option, none, some, List, [], Result, ok, err, ◌==◌, nat_eq, ◌≡◌,
  inl, inr, refl, sym, ◌∙◌, ap, Bool-cases,
}
use mathlib.Core.Path.{subst}
use knowledge_agent.Schema.{FailureCode}
use knowledge_agent.GuardState.Templates.{Database}
use knowledge_agent.Store.{
  PendingRecord, ReceiptRecord, AuditEvent, Tables, Session, Raise, Store, ◌>>=◌, ◌>>◌, go_on, pure,
  raise, check, query, run_query, next_fault, execute, run_write, append_audit, add_audit,
  audit_fits, value_error, runtime_error, transition_conflict, constraints, guarded, update,
  update_tables, load_pending, find_receipt_for_pending, with_id, receipt_of,
}
use knowledge_agent.Store.Inserts.{
  insert_row, run_insert, find_receipt, find_pending, receipt_at, pending_at, key_error,
}
use knowledge_agent.Gateway.{remember, mapped, lift, required}
use knowledge_agent.Gateway.Execution.{from_guard}

-- The tables without the audit trail.
pub record Core : Type 0 where
  pub pendings : List PendingRecord
  pub receipts : List ReceiptRecord
  pub domain : Database

abbrev pub core_of : Tables → Core
core_of t = record { pendings = t.pendings; receipts = t.receipts; domain = t.domain }

-- tables with this core
abbrev pub tables_of : Core → Tables
tables_of c = record {
  domain = c.domain;
  pendings = c.pendings;
  receipts = c.receipts;
  audits = [];
}

abbrev pub Post : {A : Type 0} → (A → Core → Type 0) → Result Raise A × Session → Type 0
Post Q (ok a, s) = Q a (core_of s.tables)
Post Q (err e, s) = Unit

-- From tables with the core `c`, a result comes with the effect `Q`.
pub record Runs {A : Type 0} (c : Core) (m : Store A) (Q : A → Core → Type 0) : Type 0 where
  pub runs : (s : Session) → core_of s.tables ≡ c → Post Q (m s)

pub pure_runs : {A : Type 0} {c : Core} {Q : A → Core → Type 0} {a : A} → Q a c → Runs c (pure a) Q
pure_runs {A} {c} {Q} {a} h = record { runs = λ s e. subst (Q a) (sym e) h }

pub raise_runs : {A : Type 0} {c : Core} {Q : A → Core → Type 0} (e : Raise) → Runs c (raise e) Q
raise_runs e = record { runs = λ s q. tt }

pub bind_runs :
    {A B : Type 0} {c : Core} {P : A → Core → Type 0} {Q : B → Core → Type 0} {m : Store A}
    {f : A → Store B}
    → Runs c m P
    → ((a : A) (d : Core) → P a d → Runs d (f a) Q)
    → Runs c (m >>= f) Q
bind_runs {A} {B} {c} {P} {Q} {m} {f} h k = record { runs = λ s e. go (m s) (h.runs s e) }
  where
    go : (o : Result Raise A × Session) → Post P o → Post Q (go_on o f)
    go (ok a, s) p = (k a (core_of s.tables) p).runs s refl
    go (err e, s) p = tt

-- What leaves the tables alone.
abbrev pub Kept : {A : Type 0} → Core → (A → Type 0) → A → Core → Type 0
Kept c P a d = (d ≡ c) × P a

pub kept_runs :
    {A B : Type 0} {c : Core} {P : A → Type 0} {Q : B → Core → Type 0} {m : Store A}
    {f : A → Store B}
    → Runs c m (Kept c P)
    → ((a : A) → P a → Runs c (f a) Q)
    → Runs c (m >>= f) Q
kept_runs {A} {B} {c} {P} {Q} {m} {f} h k =
    bind_runs h (λ a d p. subst (λ x. Runs x (f a) Q) (sym p.0) (k a p.1))

pub weaken_runs :
    {A : Type 0} {c : Core} {P Q : A → Core → Type 0} {m : Store A}
    → Runs c m P
    → ((a : A) (d : Core) → P a d → Q a d)
    → Runs c m Q
weaken_runs {A} {c} {P} {Q} {m} h k = record { runs = λ s e. go (m s) (h.runs s e) }
  where
    go : (o : Result Raise A × Session) → Post P o → Post Q o
    go (ok a, s) p = k a (core_of s.tables) p
    go (err e, s) p = tt

pub mapped_runs :
    {A : Type 0} {c : Core} {Q : A → Core → Type 0} {m : Store A} (f : Raise → Raise)
    → Runs c m Q
    → Runs c (λ s. mapped f (m s)) Q
mapped_runs {A} {c} {Q} {m} f h = record { runs = λ s e. go (m s) (h.runs s e) }
  where
    go : (o : Result Raise A × Session) → Post Q o → Post Q (mapped f o)
    go (ok a, s) p = p
    go (err e, s) p = tt

pub check_runs :
    {B : Type 0} {c : Core} {Q : B → Core → Type 0} (b : Bool) (e : Raise) {k : Store B}
    → (b ≡ true → Runs c k Q)
    → Runs c (check b e >> k) Q
check_runs true e h = record { runs = λ s q. (h refl).runs s q }
check_runs false e h = record { runs = λ s q. tt }

pub required_runs :
    {A B : Type 0} {c : Core} {Q : B → Core → Type 0} (o : Option A) (e : Raise) {f : A → Store B}
    → ((a : A) → o ≡ some a → Runs c (f a) Q)
    → Runs c (required o e >>= f) Q
required_runs none e h = record { runs = λ s q. tt }
required_runs (some a) e h = record { runs = λ s q. (h a refl).runs s q }

pub key_error_runs :
    {A B : Type 0} {c : Core} {Q : B → Core → Type 0} (o : Option A) {f : A → Store B}
    → ((a : A) → o ≡ some a → Runs c (f a) Q)
    → Runs c (key_error o >>= f) Q
key_error_runs none h = record { runs = λ s q. tt }
key_error_runs (some a) h = record { runs = λ s q. (h a refl).runs s q }

pub lift_runs :
    {A : Type 0} {c : Core} {Q : A → Core → Type 0} (r : Result Raise A)
    → ((a : A) → r ≡ ok a → Q a c)
    → Runs c (lift r) Q
lift_runs (ok a) h = pure_runs (h a refl)
lift_runs (err e) h = raise_runs e

pub from_guard_runs :
    {A B : Type 0} {c : Core} {Q : B → Core → Type 0} (r : Result FailureCode A) {f : A → Store B}
    → ((a : A) → r ≡ ok a → Runs c (f a) Q)
    → Runs c (from_guard r >>= f) Q
from_guard_runs (ok a) h = record { runs = λ s q. (h a refl).runs s q }
from_guard_runs (err e) h = record { runs = λ s q. tt }

pub query_runs :
    {A : Type 0} (c : Core) (f : Tables → A) (g : Core → A)
    → ((t : Tables) → f t ≡ g (core_of t))
    → Runs c (query f) (Kept c (λ a. a ≡ g c))
unfolding query
query_runs {A} c f g h = record { runs = λ s e. go s e (next_fault s.faults) }
  where
    go :
        (s : Session)
        → core_of s.tables ≡ c
        → (x : Bool × List Bool) → Post (Kept c (λ a. a ≡ g c)) (run_query f s x)
    go s e (true, rest) = tt
    go s e (false, rest) = (e, h s.tables ∙ ap g e)

-- A statement whose effect on the tables is `g`.
pub execute_runs :
    (c : Core) (f : Tables → Tables × ℕ) (g : Core → Core)
    → ((t : Tables) → core_of (f t).0 ≡ g (core_of t))
    → Runs c (execute f) (λ n d. d ≡ g c)
unfolding execute
execute_runs c f g h = record { runs = λ s e. go s e (next_fault s.faults) }
  where
    go :
        (s : Session)
        → core_of s.tables ≡ c
        → (x : Bool × List Bool)
        → Post (λ n d. d ≡ g c) (run_write (f s.tables).0 (f s.tables).1 s x)
    go s e (true, rest) = tt
    go s e (false, rest) = elim (Bool-cases (constraints (f s.tables).0.pendings)) [
      | inl q ↦ rw q (h s.tables ∙ ap g e)
      | inr q ↦ rw q tt
    ]

pub insert_row_runs :
    (c : Core) (fits : Tables → Bool) (f : Tables → Tables) (g : Core → Core)
    → ((t : Tables) → core_of (f t) ≡ g (core_of t))
    → Runs c (insert_row fits f) (λ n d. d ≡ g c)
unfolding insert_row
insert_row_runs c fits f g h = record { runs = λ s e. go s e (next_fault s.faults) }
  where
    go :
        (s : Session)
        → core_of s.tables ≡ c
        → (x : Bool × List Bool) → Post (λ n d. d ≡ g c) (run_insert fits (f s.tables) s x)
    go s e (true, rest) = tt
    go s e (false, rest) = elim (Bool-cases (fits (f s.tables))) [
      | inl q ↦ rw q (h s.tables ∙ ap g e)
      | inr q ↦ rw q tt
    ]

-- a check at the end
pub check_end_runs :
    {c : Core} {Q : Unit → Core → Type 0} (b : Bool) (e : Raise) → Q tt c → Runs c (check b e) Q
check_end_runs true e h = pure_runs h
check_end_runs false e h = raise_runs e

pub append_audit_runs : (c : Core) (e : AuditEvent) → Runs c (append_audit e) (Kept c (λ u. Unit))
unfolding append_audit add_audit
append_audit_runs c e = check_runs (audit_fits e) value_error (λ _.
    bind_runs (execute_runs c (add_audit e) (λ d. d) (λ t. refl))
      (λ n d q. check_end_runs (n == 1) runtime_error (q, tt)))

-- an audit, and then the rest
pub audit_then :
    {B : Type 0} {c : Core} {Q : B → Core → Type 0} (e : AuditEvent) {k : Store B}
    → Runs c k Q
    → Runs c (append_audit e >> k) Q
audit_then {B} {c} e h = kept_runs (append_audit_runs c e) (λ _ _. h)

abbrev pub updated : (PendingRecord → Bool) → (PendingRecord → PendingRecord) → Core → Core
updated test f c = record c { pendings = update test f c.pendings }

pub guarded_runs :
    (c : Core) (test : PendingRecord → Bool) (f : PendingRecord → PendingRecord)
    → Runs c (guarded test f) (λ u d. d ≡ updated test f c)
unfolding guarded update_tables
guarded_runs c test f =
    bind_runs (execute_runs c (update_tables test f) (updated test f) (λ t. refl))
      (λ n d q. check_end_runs (n == 1) transition_conflict q)

pub find_receipt_runs :
    (c : Core) (key : String)
    → Runs c (find_receipt key) (Kept c (λ r. r ≡ receipt_at key c.receipts))
unfolding find_receipt
find_receipt_runs c key = check_runs _ value_error (λ _.
    query_runs c (λ t. receipt_at key t.receipts) (λ d. receipt_at key d.receipts) (λ t. refl))

pub find_pending_runs :
    (c : Core) (key : String)
    → Runs c (find_pending key) (Kept c (λ p. p ≡ pending_at key c.pendings))
unfolding find_pending
find_pending_runs c key = check_runs _ value_error (λ _.
    query_runs c (λ t. pending_at key t.pendings) (λ d. pending_at key d.pendings) (λ t. refl))

pub load_pending_runs :
    (c : Core) (id : String) → Runs c (load_pending id) (Kept c (λ p. p ≡ with_id id c.pendings))
unfolding load_pending
load_pending_runs c id =
    check_runs _ value_error
      (λ _. query_runs c (λ t. with_id id t.pendings) (λ d. with_id id d.pendings) (λ t. refl))

pub find_for_pending_runs :
    (c : Core) (id : String)
    → Runs c (find_receipt_for_pending id) (Kept c (λ r. r ≡ receipt_of id c.receipts))
unfolding find_receipt_for_pending
find_for_pending_runs c id =
    check_runs _ value_error (λ _.
      query_runs c (λ t. receipt_of id t.receipts) (λ d. receipt_of id d.receipts) (λ t. refl))

pub remember_runs : (c : Core) (p : PendingRecord) → Runs c (remember p) (Kept c (λ u. Unit))
remember_runs c p = record { runs = λ s e. (e, tt) }
