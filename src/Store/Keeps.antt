-- ===== src/Store/Keeps.antt =====
-- Computations of the store that leave the table of pending actions alone, or move it by one
-- transition: how they compose.
use knowledge_agent.Prelude.{
  String, Bool, true, false, List, Result, ok, err, ◌==◌, nat_eq, ◌≡◌, refl, ◌∙◌, inl, inr,
}
use knowledge_agent.Store.{
  Tables, AuditEvent, Session, Raise, Store, ◌>>=◌, go_on, pure, raise, check, query, run_query,
  next_fault, execute, load_pending, find_receipt_for_pending, append_audit, add_audit, audit_fits,
  value_error, runtime_error,
}
use knowledge_agent.Store.Writes.{Moved, unmoved, Moves, execute-tables}

-- The table of pending actions is what it was.
pub record Same {A : Type 0} (m : Store A) : Type 0 where
  pub same_pendings : (s : Session) → (m s).1.tables.pendings ≡ s.tables.pendings

pub Same-Moves : {A : Type 0} {m : Store A} → Same m → Moves m
Same-Moves h = record { moved = λ s. rw (h.same_pendings s) (unmoved s.tables.pendings) }

pub Same-bind :
    {A B : Type 0} {m : Store A} {f : A → Store B}
    → Same m
    → ((a : A) → Same (f a))
    → Same (m >>= f)
Same-bind {A} {B} {m} {f} h k = record { same_pendings = λ s. go (m s) s (h.same_pendings s) }
  where
    go :
        (o : Result Raise A × Session) (s : Session)
        → o.1.tables.pendings ≡ s.tables.pendings
        → (go_on o f).1.tables.pendings ≡ s.tables.pendings
    go (ok a, t) s e = (k a).same_pendings t ∙ e
    go (err x, t) s e = e

pub Moves-after :
    {A B : Type 0} {m : Store A} {f : A → Store B}
    → Same m
    → ((a : A) → Moves (f a))
    → Moves (m >>= f)
Moves-after {A} {B} {m} {f} h k = record { moved = λ s. go (m s) s (h.same_pendings s) }
  where
    go :
        (o : Result Raise A × Session) (s : Session)
        → o.1.tables.pendings ≡ s.tables.pendings
        → Moved s.tables.pendings (go_on o f).1.tables.pendings
    go (ok a, t) s e = rw (← e) ((k a).moved t)
    go (err x, t) s e = rw e (unmoved s.tables.pendings)

pub Moves-before :
    {A B : Type 0} {m : Store A} {f : A → Store B}
    → Moves m
    → ((a : A) → Same (f a))
    → Moves (m >>= f)
Moves-before {A} {B} {m} {f} h k = record { moved = λ s. go (m s) s (h.moved s) }
  where
    go :
        (o : Result Raise A × Session) (s : Session)
        → Moved s.tables.pendings o.1.tables.pendings
        → Moved s.tables.pendings (go_on o f).1.tables.pendings
    go (ok a, t) s e = rw ((k a).same_pendings t) e
    go (err x, t) s e = e

pub pure-Same : {A : Type 0} (a : A) → Same (pure a)
pure-Same a = record { same_pendings = λ s. refl }

pub raise-Same : {A : Type 0} (e : Raise) → Same (raise {A = A} e)
raise-Same e = record { same_pendings = λ s. refl }

pub check-Same : (b : Bool) (e : Raise) → Same (check b e)
check-Same true e = record { same_pendings = λ s. refl }
check-Same false e = record { same_pendings = λ s. refl }

pub query-Same : {A : Type 0} (f : Tables → A) → Same (query f)
unfolding query
query-Same f = record { same_pendings = λ s. go s (next_fault s.faults) }
  where
    go :
        (s : Session) (x : Bool × List Bool)
        → (run_query f s x).1.tables.pendings ≡ s.tables.pendings
    go s (true, rest) = refl
    go s (false, rest) = refl

pub load_pending-Same : (id : String) → Same (load_pending id)
unfolding load_pending
load_pending-Same id = Same-bind (check-Same _ value_error) λ _. query-Same _

pub find_receipt-Same : (id : String) → Same (find_receipt_for_pending id)
unfolding find_receipt_for_pending
find_receipt-Same id = Same-bind (check-Same _ value_error) λ _. query-Same _

add_audit-Same : (e : AuditEvent) → Same (execute (add_audit e))
unfolding add_audit
add_audit-Same e = record {
  same_pendings =
      λ s. elim (execute-tables (add_audit e) s) [ inl q ↦ rw q refl | inr q ↦ rw q refl ];
}

pub append_audit-Same : (e : AuditEvent) → Same (append_audit e)
unfolding append_audit
append_audit-Same e =
    Same-bind (check-Same (audit_fits e) value_error)
      λ _. Same-bind (add_audit-Same e) λ n. check-Same (n == 1) runtime_error
