-- ===== src/Gateway/Succeeds.antt =====
-- When a statement of the gateway succeeds (aftersales/action_gateway.py, aftersales/action_store.py):
-- what it returns on a session that meets no fault.
use knowledge_agent.Prelude.{
  String, Bool, true, ◌&&◌, Option, none, some, List, [], ◌∷◌, ◌++◌, Result, ok, leb, ◌==◌, nat_eq,
  string_eq, option_eq, eqb→eq, Bool-cases, ◌≡◌, refl, ap, ◌∙◌, arith, inl, inr, all,
}
use knowledge_agent.Policy.{Instant}
use knowledge_agent.Ids.{is_id, is_key, is_approver_ref, is_pending_action_id, RequestIdentity}
use knowledge_agent.Store
use knowledge_agent.Store.{
  PendingRecord, AuditEventName, AuditDecision, AuditEvent, closed, Tables, Session, Raise,
  attempt_failed, value_error, approval_input_error, unknown_pending_action, Store, ◌>>=◌, ◌>>◌,
  go_on, pure, check, next_fault, query, execute, update, count, update_tables, guarded, row_fits,
  constraints, distinct, ids, with_id, load_pending, is_pending_approval, at_version, decided,
  audit_fits, add_audit, append_audit,
}
use knowledge_agent.Gateway.{mapped, write_error, reads, lift, required, resume_event}

abbrev pub session : Tables → Option PendingRecord → Session
session t l = record { tables = t; faults = []; loaded = l }

pub with_id-id :
    (id : String) (ps : List PendingRecord) (p : PendingRecord)
    → with_id id ps ≡ some p
    → p.pending_action_id ≡ id
unfolding with_id
with_id-id id [] p h = cc
with_id-id id (q ∷ ps) p h = elim (Bool-cases (q.pending_action_id == id)) [
  | inl e ↦
      let x : some q ≡ some p = rw e at h in
      let y : q ≡ p = cc in rw (← y) (eqb→eq q.pending_action_id id e)
  | inr e ↦ with_id-id id ps p (rw e at h)
]

pub with_id-fits :
    (id : String) (ps : List PendingRecord) (p : PendingRecord)
    → with_id id ps ≡ some p
    → all row_fits ps ≡ true
    → row_fits p ≡ true
unfolding with_id all
with_id-fits id [] p h k = cc
with_id-fits id (q ∷ ps) p h k = elim (Bool-cases (q.pending_action_id == id)) [
  | inl e ↦
      let x : some q ≡ some p = rw e at h in
      let y : q ≡ p = cc in rw (← y) (first (row_fits q) (all row_fits ps) k)
  | inr e ↦ with_id-fits id ps p (rw e at h) (second (row_fits q) (all row_fits ps) k)
]
  where
    first : (a b : Bool) → (a && b) ≡ true → a ≡ true
    first a b h = ground arith

    second : (a b : Bool) → (a && b) ≡ true → b ≡ true
    second a b h = ground arith

pub append_audit-ok :
    (e : AuditEvent) (t : Tables) (l : Option PendingRecord)
    → audit_fits e ≡ true
    → constraints t.pendings ≡ true
    → append_audit e (session t l) ≡ (ok tt, session (record t { audits = t.audits ++ e ∷ [] }) l)
unfolding append_audit execute add_audit
append_audit-ok e t l h k = rw h (rw k refl)

pub load_pending-ok :
    (id : String) (t : Tables) (l : Option PendingRecord)
    → is_id id ≡ true
    → reads (load_pending id) (session t l) ≡ (ok (with_id id t.pendings), session t l)
unfolding load_pending query
load_pending-ok id t l h = rw h refl

pub fits-version : (p : PendingRecord) → row_fits p ≡ true → leb 1 p.version ≡ true
unfolding row_fits
fits-version p h = ground arith

pub constraints-rows :
    (ps : List PendingRecord)
    → constraints ps ≡ true
    → (all row_fits ps ≡ true) × (distinct (ids ps) ≡ true)
unfolding constraints
constraints-rows ps h = (ground arith, ground arith)

pub count-eq :
    (f g : PendingRecord → Bool)
    → ((q : PendingRecord) → f q ≡ g q)
    → (ps : List PendingRecord) → count f ps ≡ count g ps
unfolding count
count-eq f g h [] = refl
count-eq f g h (q ∷ qs) = rw (h q, count-eq f g h qs) refl

pub assoc : (a b c : Bool) → ((a && b) && c) ≡ (a && (b && c))
assoc a b c = ground arith

-- The audits of a pending action pass the checks of `append_audit`.
pub event-fits :
    (p : PendingRecord) (i : RequestIdentity) (at : Instant) (n : AuditEventName)
    (x : Option AuditDecision) (c : Option Store.AuditCode) (a : Option String)
    → is_id p.pending_action_id ≡ true
    → is_key p.idempotency_key ≡ true
    → ((s : String) → a ≡ some s → is_approver_ref s ≡ true)
    → audit_fits (resume_event p i at n x c a) ≡ true
unfolding audit_fits
event-fits p i at n x c none h k l = rw (h, k) refl
event-fits p i at n x c (some s) h k l = rw (h, k, l s refl) refl

pub go_on-ok :
    {A B : Type 0} {x : Result Raise A × Session} (f : A → Store B) {a : A} {s : Session}
    {y : Result Raise B × Session}
    → x ≡ (ok a, s)
    → f a s ≡ y
    → go_on x f ≡ y
go_on-ok f h k = rw h k

pub required-ok :
    {A : Type 0} {o : Option A} {a : A} (e : Raise) {s : Session}
    → o ≡ some a
    → required o e s ≡ (ok a, s)
required-ok e h = rw h refl

pub check-ok : {b : Bool} (e : Raise) {s : Session} → b ≡ true → check b e s ≡ (ok tt, s)
check-ok e h = rw h refl

pub writes-ok :
    {A : Type 0} {x : Result Raise A × Session} {a : A} {s : Session}
    → x ≡ (ok a, s)
    → mapped write_error x ≡ (ok a, s)
writes-ok h = rw h refl

pub lift-ok :
    {A : Type 0} {r : Result Raise A} {a : A} {s : Session} → r ≡ ok a → lift r s ≡ (ok a, s)
lift-ok h = rw h refl

pub pending_id-is_id : (s : String) → is_pending_action_id s ≡ true → is_id s ≡ true
unfolding is_id is_pending_action_id
pending_id-is_id s h = ground arith

pub load_found :
    (id : String) (t : Tables) (l : Option PendingRecord) (p : PendingRecord)
    → is_id id ≡ true
    → with_id id t.pendings ≡ some p
    → reads (load_pending id) (session t l) ≡ (ok (some p), session t l)
load_found id t l p h f =
    load_pending-ok id t l h ∙ ap (λ (x : Option PendingRecord). (ok x, session t l)) f
