-- ===== src/Gateway/FirstDecision.antt =====
-- T1 of aftersales/action_gateway.py: whatever fails, the operator's decision moves the pending
-- action by one transition or not at all, and the first decision stands.
use knowledge_agent.Prelude.{
  String, Bool, true, false, Option, none, some, List, Result, ok, err, if◌then◌else◌, leb, ◌==◌,
  string_eq, option_eq, Bool-cases, ◌≡◌, ◌≢◌, refl, ◌∙◌, ◌⊎◌, inl, inr,
}
use knowledge_agent.Schema.{PendingStatus, FailureCode}
use knowledge_agent.Policy.{Instant}
use knowledge_agent.Ids.{is_id, RequestIdentity, request_identity}
use knowledge_agent.Approval.{Approval, approval_eq, ApprovalDecision, is_trusted}
use knowledge_agent.Outcome.{ActionOutcome}
use knowledge_agent.Store
use knowledge_agent.Store.{
  PendingRecord, ReceiptRecord, AuditEventName, AuditDecision, closed, anchor_pending, Tables,
  Session, Raise, attempt_failed, guard_failed, capability_error, contract_error, type_error,
  sqlite_error, integrity_error, transition_conflict, value_error, runtime_error,
  unknown_pending_action, not_approved, approval_input_error, Store, ◌>>=◌, ◌>>◌, go_on, pure,
  raise, check, next_fault, query, run_query, load_pending, find_receipt_for_pending, append_audit,
  is_pending_approval, with_id,
}
use knowledge_agent.Store.Writes.{Moved, unmoved, Moves, record_decision-Moves}
use knowledge_agent.Store.Keeps.{
  Same, Same-Moves, Same-bind, Moves-after, Moves-before, pure-Same, raise-Same, check-Same,
  load_pending-Same, find_receipt-Same, append_audit-Same,
}
use knowledge_agent.Gateway.{
  write_error, read_error, mapped, reads, lift, required, resume_event, receipt_for, rejection,
  first_decision, later_decision, remember, decide_on, record_on, pending_outcome, World,
  after_commit, finish, begun, record_decision,
}

mapped-session :
    {A : Type 0} (f : Raise → Raise) (o : Result Raise A × Session) → (mapped f o).1 ≡ o.1
mapped-session f (ok a, s) = refl
mapped-session f (err e, s) = refl

mapped-Same : {A : Type 0} (f : Raise → Raise) {m : Store A} → Same m → Same (λ s. mapped f (m s))
mapped-Same f {m} h = record {
  same_pendings = λ s. rw (mapped-session f (m s)) (h.same_pendings s);
}

mapped-Moves :
    {A : Type 0} (f : Raise → Raise) {m : Store A} → Moves m → Moves (λ s. mapped f (m s))
mapped-Moves f {m} h = record { moved = λ s. rw (mapped-session f (m s)) (h.moved s) }

lift-Same : {A : Type 0} (r : Result Raise A) → Same (lift r)
lift-Same (ok a) = pure-Same a
lift-Same (err e) = raise-Same e

required-Same : {A : Type 0} (o : Option A) (e : Raise) → Same (required o e)
required-Same none e = raise-Same e
required-Same (some a) e = pure-Same a

receipt_for-Same : (p : PendingRecord) → Same (receipt_for p)
unfolding receipt_for
receipt_for-Same p = go (Store.is_executed p.status)
  where
    go :
        (b : Bool)
        → Same (if b then reads (find_receipt_for_pending p.pending_action_id) else pure none)
    go true = mapped-Same read_error (find_receipt-Same p.pending_action_id)
    go false = pure-Same none

rejection-Same :
    (p : PendingRecord) (i : RequestIdentity) (at : Instant) (d : Approval)
    → Same (rejection p i at d)
rejection-Same p i at Approval.approve = pure-Same tt
rejection-Same p i at Approval.reject = append_audit-Same _

first_decision-Moves :
    (d : ApprovalDecision) (now : Instant) (p : PendingRecord) (i : RequestIdentity)
    → Moves (first_decision d now p i)
unfolding first_decision
first_decision-Moves d now p i =
    Moves-after (required-Same p.created_at (attempt_failed FailureCode.invariant_violation))
      λ created. Moves-after (check-Same (leb created d.decided_at) approval_input_error) λ _.
        Moves-before
          (mapped-Moves write_error (
            Moves-before
              (record_decision-Moves p.pending_action_id p.version d.decision d.approver_ref
                d.decided_at now)
              λ _. Same-bind (append_audit-Same _) λ _. rejection-Same p i now d.decision))
          λ _. lift-Same _

later_decision-Same :
    (d : ApprovalDecision) (now : Instant) (p : PendingRecord) (i : RequestIdentity)
    → Same (later_decision d now p i)
unfolding later_decision
later_decision-Same d now p i =
    Same-bind (receipt_for-Same p)
      λ receipt. mapped-Same write_error (go receipt (p.approval_decision == some d.decision))
  where
    go :
        (receipt : Option ReceiptRecord) (b : Bool)
        → Same (
            if b
            then (append_audit (
                  resume_event p i now AuditEventName.action_replay_hit none
                    (some anchor_pending)
                    none)
                >> lift (pending_outcome p receipt true false))
            else (append_audit (
                  resume_event p i now AuditEventName.approval_conflict
                    (some (AuditDecision.operator d.decision))
                    none
                    (some d.approver_ref))
                >> lift (pending_outcome p receipt false true)))
    go receipt true = Same-bind (append_audit-Same _) λ _. lift-Same _
    go receipt false = Same-bind (append_audit-Same _) λ _. lift-Same _

remember-Same : (p : PendingRecord) → Same (remember p)
remember-Same p = record { same_pendings = λ s. refl }

decide_on-Moves :
    (d : ApprovalDecision) (now : Instant) (p : PendingRecord) (i : RequestIdentity)
    → Moves (decide_on d now p i)
decide_on-Moves d now p i = elim (Bool-cases (is_pending_approval p.status)) [
  | inl e ↦ rw e (first_decision-Moves d now p i)
  | inr e ↦ rw e (Same-Moves (later_decision-Same d now p i))
]

record_on-Moves : (d : ApprovalDecision) (now : Instant) → Moves (record_on d now)
unfolding record_on
record_on-Moves d now =
    Moves-after (mapped-Same read_error (load_pending-Same d.pending_action_id)) λ found.
      Moves-after (required-Same found unknown_pending_action) λ p.
        Moves-after (remember-Same p) λ _.
          Moves-after
            (required-Same (request_identity p.persona_id p.request_id)
              (attempt_failed FailureCode.invariant_violation))
            λ i. decide_on-Moves d now p i

-- What is committed is the transaction's tables, or those before it.
pub finish-committed :
    (id : String) (before : Tables) (o : Result Raise ActionOutcome × Session)
    → ((finish id before o).1.committed ≡ before) ⊎ ((finish id before o).1.committed ≡ o.1.tables)
finish-committed id before (ok a, s) = go (next_fault s.faults)
  where
    go :
        (x : Bool × List Bool)
        → ((after_commit a id s before x).1.committed ≡ before)
          ⊎ ((after_commit a id s before x).1.committed ≡ s.tables)
    go (true, rest) = inl refl
    go (false, rest) = inr refl
finish-committed id before (err (attempt_failed c), s) = inl refl
finish-committed id before (err (guard_failed c), s) = inl refl
finish-committed id before (err capability_error, s) = inl refl
finish-committed id before (err contract_error, s) = inl refl
finish-committed id before (err type_error, s) = inl refl
finish-committed id before (err sqlite_error, s) = inl refl
finish-committed id before (err integrity_error, s) = inl refl
finish-committed id before (err transition_conflict, s) = inl refl
finish-committed id before (err value_error, s) = inl refl
finish-committed id before (err runtime_error, s) = inl refl
finish-committed id before (err unknown_pending_action, s) = inl refl
finish-committed id before (err not_approved, s) = inl refl
finish-committed id before (err approval_input_error, s) = inl refl

begun-Moved :
    (d : ApprovalDecision) (now : Instant) (before : Tables) (x : Bool × List Bool)
    → Moved before.pendings (begun d now before x).1.committed.pendings
begun-Moved d now before (true, rest) = unmoved before.pendings
begun-Moved d now before (false, rest) =
    let s : Session = record { tables = before; faults = rest; loaded = none } in
    elim (finish-committed d.pending_action_id before (record_on d now s)) [
      | inl e ↦ rw e (unmoved before.pendings)
      | inr e ↦ rw e ((record_on-Moves d now).moved s)
    ]

-- Whatever the decision is, whoever sends it and wherever the database fails: after T1 every
-- committed pending action is as it was or one legal transition further, and none is added or lost.
pub record_decision-Moved :
    (operators : List String) (d : ApprovalDecision) (now : Instant) (w : World)
    → Moved w.committed.pendings (record_decision operators d now w).1.committed.pendings
unfolding record_decision
record_decision-Moved operators d now w = elim (Bool-cases (is_trusted d operators)) [
  | inl e ↦ rw e (begun-Moved d now w.committed (next_fault w.faults))
  | inr e ↦ rw e (unmoved w.committed.pendings)
]

-- The load returns the row of the id, if it returns.
load-row :
    (id : String) (s : Session) (x : Option PendingRecord)
    → (reads (load_pending id) s).0 ≡ ok x
    → x ≡ with_id id s.tables.pendings
unfolding load_pending query
load-row id s x h = checked (is_id id) h
  where
    rows : Tables → Option PendingRecord
    rows t = with_id id t.pendings

    queried :
        (y : Bool × List Bool)
        → (mapped read_error (run_query rows s y)).0 ≡ ok x
        → x ≡ rows s.tables
    queried (true, rest) h = absurd (lost h)
      where
        lost :
            ◌≡◌ {A = Result Raise (Option PendingRecord)}
              (err (attempt_failed FailureCode.state_read_failed))
              (ok x)
            → ⊥
        lost h = cc
    queried (false, rest) h = cc

    checked :
        (b : Bool)
        → (mapped read_error ((check b value_error >>= λ _. query rows) s)).0 ≡ ok x
        → x ≡ rows s.tables
    checked true h = queried (next_fault s.faults) h
    checked false h = absurd (lost h)
      where
        lost : ◌≡◌ {A = Result Raise (Option PendingRecord)} (err value_error) (ok x) → ⊥
        lost h = cc

-- `record_on` after its load
abbrev with_row : ApprovalDecision → Instant → Option PendingRecord → Store ActionOutcome
with_row d now found = required found unknown_pending_action >>= λ p. remember p >>= λ _.
    required (request_identity p.persona_id p.request_id)
      (attempt_failed FailureCode.invariant_violation)
    >>= λ i. decide_on d now p i

with_row-Same :
    (d : ApprovalDecision) (now : Instant) (p : PendingRecord)
    → is_pending_approval p.status ≡ false
    → Same (with_row d now (some p))
with_row-Same d now p e = record {
  same_pendings = λ s.
      (Same-bind (remember-Same p) λ _.
          Same-bind
            (required-Same (request_identity p.persona_id p.request_id)
              (attempt_failed FailureCode.invariant_violation))
            λ i. later i).same_pendings
        s;
}
  where
    later : (i : RequestIdentity) → Same (decide_on d now p i)
    later i = rw e (later_decision-Same d now p i)

decided-same :
    (d : ApprovalDecision) (now : Instant) (s : Session) (p : PendingRecord)
    → with_id d.pending_action_id s.tables.pendings ≡ some p
    → is_pending_approval p.status ≡ false
    → (record_on d now s).1.tables.pendings ≡ s.tables.pendings
unfolding record_on
decided-same d now s p found e =
    go (reads (load_pending d.pending_action_id) s)
      ((mapped-Same read_error (load_pending-Same d.pending_action_id)).same_pendings s)
      (λ x h. load-row d.pending_action_id s x h ∙ found)
  where
    go :
        (o : Result Raise (Option PendingRecord) × Session)
        → o.1.tables.pendings ≡ s.tables.pendings
        → ((x : Option PendingRecord) → o.0 ≡ ok x → x ≡ some p)
        → (go_on o (with_row d now)).1.tables.pendings ≡ s.tables.pendings
    go (err x, t) h k = h
    go (ok x, t) h k = rw (k x refl) ((with_row-Same d now p e).same_pendings t ∙ h)

not_waiting :
    (x : PendingStatus) → x ≢ PendingStatus.pending_approval → is_pending_approval x ≡ false
not_waiting PendingStatus.pending_approval n = absurd (n refl)
not_waiting PendingStatus.approved n = refl
not_waiting PendingStatus.rejected n = refl
not_waiting PendingStatus.executed n = refl
not_waiting PendingStatus.stale n = refl
not_waiting PendingStatus.denied n = refl
not_waiting PendingStatus.failed n = refl

-- The first decision stands: once a pending action has left PENDING_APPROVAL, no decision about it
-- changes any committed pending action, whatever it says and wherever the database fails.
pub first_decision_stands :
    (operators : List String) (d : ApprovalDecision) (now : Instant) (w : World) (p : PendingRecord)
    → with_id d.pending_action_id w.committed.pendings ≡ some p
    → p.status ≢ PendingStatus.pending_approval
    → (record_decision operators d now w).1.committed.pendings ≡ w.committed.pendings
unfolding record_decision
first_decision_stands operators d now w p found n = elim (Bool-cases (is_trusted d operators)) [
  | inl e ↦ rw e (begun-same (next_fault w.faults))
  | inr e ↦ rw e refl
]
  where
    begun-same :
        (x : Bool × List Bool)
        → (begun d now w.committed x).1.committed.pendings ≡ w.committed.pendings
    begun-same (true, rest) = refl
    begun-same (false, rest) =
        let s : Session = record { tables = w.committed; faults = rest; loaded = none } in
        elim (finish-committed d.pending_action_id w.committed (record_on d now s)) [
          | inl e ↦ rw e refl
          | inr e ↦ rw e (decided-same d now s p found (not_waiting p.status n))
        ]
