-- ===== src/Gateway/History.antt =====
-- Histories of the gateway (aftersales/action_gateway.py): any sequence of start_action,
-- record_decision and execute_approved, each with its own faults, and what holds after all of them.
use mathlib.Core.Path.{subst}
use knowledge_agent.Prelude.{
  ℕ, String, Bool, true, false, not, ◌&&◌, none, some, List, [], ◌∷◌, ◌++◌, Result, ok, err, ◌==◌,
  nat_eq, string_eq, option_eq, ◌≡◌, ◌⊎◌, inl, inr, refl, sym, ap, ◌∙◌, arith, In, member,
  Bool-cases, leb,
}
use knowledge_agent.Schema.{PendingStatus, FailureCode}
use knowledge_agent.Actions.{ValidatedAction}
use knowledge_agent.Policy.{Instant}
use knowledge_agent.Ids.{is_id, is_approver_ref, RequestIdentity, request_identity}
use knowledge_agent.Approval.{Approval, approval_eq, ApprovalDecision, is_trusted}
use knowledge_agent.Outcome.{ActionOutcome}
use knowledge_agent.Store
use knowledge_agent.Store.{
  PendingRecord, ReceiptRecord, Tables, Session, Raise, Store, ◌>>=◌, ◌>>◌, pure, check, next_fault,
  value_error, attempt_failed, guard_failed, sqlite_error, integrity_error, transition_conflict,
  runtime_error, not_approved, capability_error, contract_error, type_error, unknown_pending_action,
  approval_input_error, is_approved, is_pending_approval, at_version, decided, linked, update,
  with_id, distinct,
}
use knowledge_agent.Store.Inserts.{keys_of, receipt_at}
use knowledge_agent.Store.Lifecycle.{Step, no-Step, IsTerminal}
use knowledge_agent.Store.Writes.{Moved}
use knowledge_agent.Gateway.{
  World, write_error, read_error, record_on, decide_on, first_decision, later_decision, rejection,
  record_decision, begun, finish, pending_outcome,
}
use knowledge_agent.Gateway.FirstDecision.{finish-committed}
use knowledge_agent.Gateway.Execution.{Config, Moment}
use knowledge_agent.Gateway.Start.{start_action}
use knowledge_agent.Gateway.Resume.{execute_approved}
use knowledge_agent.Gateway.Runs.{
  remember_runs, Core, core_of, Post, Runs, Kept, pure_runs, bind_runs, kept_runs, weaken_runs,
  mapped_runs, check_runs, required_runs, lift_runs, audit_then, append_audit_runs, guarded_runs,
  updated, load_pending_runs,
}
use knowledge_agent.Gateway.Confirmed.{receipt_for_runs}

-- T1 writes pending actions and audits only.
abbrev NoReceipts : Core → ActionOutcome → Core → Type 0
NoReceipts c o d = (d.receipts ≡ c.receipts)

record_runs :
    (c : Core) (id : String) (v : ℕ) (a : Approval) (approver : String) (t at : Instant)
    → Runs c
        (Store.record_decision id v a approver t at)
        (λ u d. d ≡ updated (at_version is_pending_approval id v) (decided a approver t at) c)
unfolding Store.record_decision
record_runs c id v a approver t at = check_runs (is_approver_ref approver) value_error (λ _.
    check_runs (is_id id && leb 1 v) value_error
      (λ _. guarded_runs c (at_version is_pending_approval id v) (decided a approver t at)))

rejection_runs :
    (c : Core) (p : PendingRecord) (i : RequestIdentity) (at : Instant) (a : Approval)
    → Runs c (rejection p i at a) (Kept c (λ u. Unit))
rejection_runs c p i at Approval.approve = pure_runs (refl, tt)
rejection_runs c p i at Approval.reject = append_audit_runs c _

first_runs :
    (c : Core) (d : ApprovalDecision) (now : Instant) (p : PendingRecord) (i : RequestIdentity)
    → Runs c (first_decision d now p i) (NoReceipts c)
unfolding first_decision
first_runs c d now p i =
    required_runs p.created_at (attempt_failed FailureCode.invariant_violation) (λ created _.
      check_runs (leb created d.decided_at) approval_input_error (λ _.
        bind_runs {P = λ u e. e.receipts ≡ c.receipts}
          (mapped_runs write_error (
            bind_runs
              (record_runs c p.pending_action_id p.version d.decision d.approver_ref d.decided_at
                now)
              (λ u e q. audit_then _ (
                weaken_runs (rejection_runs e p i now d.decision)
                  (λ v f r. ap (λ (x : Core). x.receipts) (r.0 ∙ q))))))
          (λ u e q. lift_runs _ (λ o h. q))))

later_runs :
    (c : Core) (d : ApprovalDecision) (now : Instant) (p : PendingRecord) (i : RequestIdentity)
    → Runs c (later_decision d now p i) (NoReceipts c)
unfolding later_decision
later_runs c d now p i = kept_runs (receipt_for_runs c p) (λ receipt _.
    mapped_runs write_error (elim (Bool-cases (p.approval_decision == some d.decision)) [
      | inl e ↦ rw e (audit_then _ (lift_runs (pending_outcome p receipt true false) (λ o h. refl)))
      | inr e ↦ rw e (audit_then _ (lift_runs (pending_outcome p receipt false true) (λ o h. refl)))
    ]))

decide_on_runs :
    (c : Core) (d : ApprovalDecision) (now : Instant) (p : PendingRecord) (i : RequestIdentity)
    → Runs c (decide_on d now p i) (NoReceipts c)
decide_on_runs c d now p i = elim (Bool-cases (is_pending_approval p.status)) [
  | inl e ↦ rw e (first_runs c d now p i)
  | inr e ↦ rw e (later_runs c d now p i)
]

record_on_runs :
    (c : Core) (d : ApprovalDecision) (now : Instant) → Runs c (record_on d now) (NoReceipts c)
unfolding record_on
record_on_runs c d now =
    kept_runs (mapped_runs read_error (load_pending_runs c d.pending_action_id)) (λ found _.
      required_runs found unknown_pending_action (λ p _. kept_runs (remember_runs c p) (λ _ _.
        required_runs (request_identity p.persona_id p.request_id)
          (attempt_failed FailureCode.invariant_violation) (λ i _. decide_on_runs c d now p i))))

-- A failed transaction is rolled back.
finish-raised :
    (id : String) (before : Tables) (e : Raise) (s : Session)
    → (finish id before (err e, s)).1.committed ≡ before
finish-raised id before (attempt_failed c) s = refl
finish-raised id before (guard_failed c) s = refl
finish-raised id before sqlite_error s = refl
finish-raised id before integrity_error s = refl
finish-raised id before transition_conflict s = refl
finish-raised id before value_error s = refl
finish-raised id before runtime_error s = refl
finish-raised id before unknown_pending_action s = refl
finish-raised id before not_approved s = refl
finish-raised id before approval_input_error s = refl
finish-raised id before capability_error s = refl
finish-raised id before contract_error s = refl
finish-raised id before type_error s = refl

finish-receipts :
    (id : String) (before : Tables) (r : Result Raise ActionOutcome × Session)
    → Post (NoReceipts (core_of before)) r
    → (finish id before r).1.committed.receipts ≡ before.receipts
finish-receipts id before (err e, s) h =
    ap (λ (t : Tables). t.receipts) (finish-raised id before e s)
finish-receipts id before (ok o, s) h = elim (finish-committed id before (ok o, s)) [
  | inl e ↦ ap (λ (t : Tables). t.receipts) e
  | inr e ↦ ap (λ (t : Tables). t.receipts) e ∙ h
]

begun-receipts :
    (d : ApprovalDecision) (now : Instant) (before : Tables) (x : Bool × List Bool)
    → (begun d now before x).1.committed.receipts ≡ before.receipts
begun-receipts d now before (true, rest) = refl
begun-receipts d now before (false, rest) = finish-receipts d.pending_action_id before _ (
    (record_on_runs (core_of before) d now).runs
      (record { tables = before; faults = rest; loaded = none }) refl)

pub record_decision-receipts :
    (operators : List String) (d : ApprovalDecision) (now : Instant) (w : World)
    → (record_decision operators d now w).1.committed.receipts ≡ w.committed.receipts
unfolding record_decision
record_decision-receipts operators d now w = elim (Bool-cases (is_trusted d operators)) [
  | inl e ↦ rw e (begun-receipts d now w.committed (next_fault w.faults))
  | inr e ↦ rw e refl
]

-- One call, with its own environment.
pub data Call : Type 0 where
  start : Config → Moment → RequestIdentity → ValidatedAction → Call
  decision : List String → ApprovalDecision → Instant → Call
  execution : Config → Moment → String → Call

-- The faults of the call come with it.
unfoldable pub step : Call × List Bool → Tables → Tables
step (start cfg m identity action, faults) t =
    (start_action cfg m identity action (record { committed = t; faults = faults })).1.committed
step (decision operators d now, faults) t =
    (record_decision operators d now (record { committed = t; faults = faults })).1.committed
step (execution cfg m id, faults) t =
    (execute_approved cfg m id (record { committed = t; faults = faults })).1.committed

unfoldable pub run : List (Call × List Bool) → Tables → Tables
run [] t = t
run (call ∷ calls) t = run calls (step call t)

-- Every receipt that names a pending action is backed by its EXECUTED row, which names it.
abbrev pub IsBacked : List PendingRecord → ReceiptRecord → Type 0
IsBacked ps r =
    (id : String)
    → r.pending_action_id ≡ some id
    → (p : PendingRecord) × In p ps
      × (p.pending_action_id ≡ id)
      × (p.status ≡ PendingStatus.executed)
      × (p.receipt_id ≡ some r.receipt_id)

-- The invariant: no two receipts have one key, and every receipt of an approval is backed.
pub record IsSound (c : Core) : Type 0 where
  pub once : distinct (keys_of c.receipts) ≡ true
  pub backed : (r : ReceiptRecord) → In r c.receipts → IsBacked c.pendings r

-- A transition leaves a row in a terminal status where it is.
pub terminal-stays :
    (ps qs : List PendingRecord) (p : PendingRecord)
    → Moved ps qs
    → In p ps
    → IsTerminal p.status
    → In p qs
terminal-stays [] qs p h m e = elim m [ ]
terminal-stays (x ∷ ps) [] p h m e = absurd h
terminal-stays (x ∷ ps) (y ∷ qs) p h (inl q) e = inl (stays h.0)
  where
    stays : (y ≡ x) ⊎ Step x y → p ≡ y
    stays (inl r) = q ∙ sym r
    stays (inr s) = absurd (no-Step x y (subst (λ (z : PendingRecord). IsTerminal z.status) q e) s)
terminal-stays (x ∷ ps) (y ∷ qs) p h (inr m) e = inr (terminal-stays ps qs p h.1 m e)

pub IsBacked-Moved :
    (ps qs : List PendingRecord) (r : ReceiptRecord) → Moved ps qs → IsBacked ps r → IsBacked qs r
IsBacked-Moved ps qs r h b id e =
    let (p, i, n, s, q) = b id e in (p, terminal-stays ps qs p h i (rw s tt), n, s, q)

pub In-append : {A : Type 0} (a : A) (xs ys : List A) → In a xs → In a (xs ++ ys)
In-append a [] ys m = elim m [ ]
In-append a (x ∷ xs) ys (inl e) = inl e
In-append a (x ∷ xs) ys (inr m) = inr (In-append a xs ys m)

pub In-snoc : {A : Type 0} (a b : A) (xs : List A) → In a (xs ++ b ∷ []) → In a xs ⊎ (a ≡ b)
In-snoc a b [] (inl e) = inr e
In-snoc a b [] (inr m) = elim m [ ]
In-snoc a b (x ∷ xs) (inl e) = inl (inl e)
In-snoc a b (x ∷ xs) (inr m) = elim (In-snoc a b xs m) [ inl n ↦ inl (inr n) | inr e ↦ inr e ]

member-snoc :
    (k key : String) (rs : List ReceiptRecord) (r : ReceiptRecord)
    → r.idempotency_key ≡ key
    → member k (keys_of rs) ≡ false
    → (k == key) ≡ false
    → member k (keys_of (rs ++ r ∷ [])) ≡ false
unfolding keys_of member
member-snoc k key [] r e h n = rw (e, n) refl
member-snoc k key (x ∷ rs) r e h n = ground (arith, member-snoc k key rs r e (ground (arith, h)) n)

pub once-snoc :
    (key : String) (rs : List ReceiptRecord) (r : ReceiptRecord)
    → r.idempotency_key ≡ key
    → receipt_at key rs ≡ none
    → distinct (keys_of rs) ≡ true
    → distinct (keys_of (rs ++ r ∷ [])) ≡ true
unfolding keys_of distinct receipt_at member
once-snoc key [] r e f h = refl
once-snoc key (x ∷ rs) r e f h = elim (Bool-cases (x.idempotency_key == key)) [
  | inl q ↦ absurd (found (rw q at f))
  | inr q ↦
      rw
        (
          member-snoc x.idempotency_key key rs r e (fresh x.idempotency_key h) q,
          once-snoc key rs r e (rw q at f) (ground (arith, h)),
        )
        refl
]
  where
    found : some x ≡ none → ⊥
    found f = cc

    fresh :
        (k : String)
        → (not (member k (keys_of rs)) && distinct (keys_of rs)) ≡ true
        → member k (keys_of rs) ≡ false
    fresh k h = ground arith
