-- ===== src/Gateway/Recorded.antt =====
-- T1 of aftersales/action_gateway.py on a row that waits, where no statement fails: the decision is
-- recorded and committed.
use mathlib.Core.Path.{subst}
use knowledge_agent.Prelude.{
  ℕ, ◌≤◌, String, true, false, ◌&&◌, Option, none, some, List, [], ◌∷◌, ◌++◌, ok, leb, le→leb, ◌==◌,
  nat_eq, string_eq, option_eq, eqb_refl, ◌≡◌, refl, sym, ap, ◌∙◌, arith, ◌+◌,
}
use knowledge_agent.Schema.{PendingStatus, is_open_pending}
use knowledge_agent.Policy.{Instant}
use knowledge_agent.Ids.{
  is_id, is_key, is_approver_ref, is_pending_action_id, RequestIdentity, request_identity,
}
use knowledge_agent.Approval.{Approval, ApprovalDecision, is_trusted}
use knowledge_agent.Approval
use knowledge_agent.Outcome
use knowledge_agent.Outcome.{ActionStatus, Code, approval_rejected, ActionOutcome, code_fits}
use knowledge_agent.Store
use knowledge_agent.Store.{
  PendingRecord, AuditEventName, AuditDecision, AuditEvent, closed, Tables, Session, Raise,
  attempt_failed, value_error, approval_input_error, unknown_pending_action, Store, ◌>>=◌, ◌>>◌,
  go_on, pure, check, next_fault, query, execute, update, count, update_tables, guarded, row_fits,
  constraints, distinct, ids, with_id, load_pending, is_pending_approval, at_version, decided,
  audit_fits, add_audit, append_audit,
}
use knowledge_agent.Store.Lifecycle.{decision, Step-row_fits}
use knowledge_agent.Store.Success.{Keeps, constraints-update, count-one}
use knowledge_agent.Gateway.{
  resume_event, rejection, recorded, first_decision, decide_on, record_on, pending_outcome,
  outcome_of, waiting_outcome, closed_outcome, record_decision,
}
use knowledge_agent.Store.Replaced.{IsReplaced, update-IsReplaced}
use knowledge_agent.Gateway.Succeeds.{
  session, with_id-id, with_id-fits, append_audit-ok, fits-version, constraints-rows, count-eq,
  assoc, event-fits, go_on-ok, required-ok, check-ok, writes-ok, lift-ok, pending_id-is_id,
  load_found,
}

decided-Keeps :
    (id : String) (v : ℕ) (d : Approval) (approver : String) (t at : Instant)
    → Keeps (at_version is_pending_approval id v) (decided d approver t at)
unfolding decided
decided-Keeps id v d approver t at = record {
  same_id = λ p. refl;
  same_key = λ p. refl;
  same_receipt = λ p. refl;
  same_item = λ p. refl;
  fits = λ p h k. Step-row_fits p _ (decision d approver t at (waiting p.status (ground arith))) k;
  was_open = λ p h. opened p.status (ground arith);
}
  where
    waiting :
        (x : PendingStatus) → is_pending_approval x ≡ true → x ≡ PendingStatus.pending_approval
    waiting x h = ground arith

    opened : (x : PendingStatus) → is_pending_approval x ≡ true → is_open_pending x ≡ true
    opened x h = ground arith

abbrev after_update : String → ℕ → ApprovalDecision → Instant → Tables → Tables
after_update id v d now t = record t {
  pendings =
      update (at_version is_pending_approval id v)
        (decided d.decision d.approver_ref d.decided_at now) t.pendings;
}

record-ok :
    (id : String) (v : ℕ) (d : ApprovalDecision) (now : Instant) (t : Tables)
    (l : Option PendingRecord) (p : PendingRecord)
    → is_approver_ref d.approver_ref ≡ true
    → is_id id ≡ true
    → constraints t.pendings ≡ true
    → with_id id t.pendings ≡ some p
    → p.status ≡ PendingStatus.pending_approval
    → p.version ≡ v
    → Store.record_decision id v d.decision d.approver_ref d.decided_at now (session t l)
      ≡ (ok tt, session (after_update id v d now t) l)
unfolding Store.record_decision guarded execute update_tables
record-ok id v d now t l p a i c f s e =
    rw (a, i, positive)
      (rw
        (
          constraints-update (at_version is_pending_approval id v)
              (decided d.decision d.approver_ref d.decided_at now)
              (decided-Keeps id v d.decision d.approver_ref d.decided_at now) t.pendings c,
          one,
        )
        refl)
  where
    positive : leb 1 v ≡ true
    positive =
        rw e at (fits-version p (with_id-fits id t.pendings p f (constraints-rows t.pendings c).0))

    one : count (at_version is_pending_approval id v) t.pendings ≡ 1
    one =
        count-eq (at_version is_pending_approval id v)
          (λ q. q.pending_action_id == id && (is_pending_approval q.status && q.version == v))
          (λ q. assoc (q.pending_action_id == id) (is_pending_approval q.status) (q.version == v))
          t.pendings
        ∙ count-one id (λ q. is_pending_approval q.status && q.version == v) t.pendings p
            (constraints-rows t.pendings c).1 f (rw (s, e, eqb_refl v) refl)

-- The outcome of a decision that was recorded.
abbrev pub IsRecorded : Approval → ActionOutcome → Type 0
IsRecorded Approval.approve o =
    (o.status ≡ ActionStatus.waiting_approval) × (o.approval_recorded ≡ true)
IsRecorded Approval.reject o =
    (o.status ≡ ActionStatus.rejected) × (o.code ≡ some approval_rejected)

-- The row that a decision leaves in the place of the waiting one.
abbrev pub IsDecidedRow : ApprovalDecision → Instant → PendingRecord → PendingRecord → Type 0
IsDecidedRow d now p q = elim d.decision [
  | Approval.approve ↦ q ≡ record p {
    status = PendingStatus.approved;
    approval_decision = some Approval.approve;
    approver_ref = some d.approver_ref;
    decided_at = some d.decided_at;
    outcome_code = none;
    updated_at = now;
    version = p.version + 1;
  }
  | Approval.reject ↦ q ≡ record p {
    status = PendingStatus.rejected;
    approval_decision = some Approval.reject;
    approver_ref = some d.approver_ref;
    decided_at = some d.decided_at;
    outcome_code = some approval_rejected;
    updated_at = now;
    version = p.version + 1;
  }
]

decided-IsDecidedRow :
    (d : ApprovalDecision) (now : Instant) (p : PendingRecord)
    → IsDecidedRow d now p (decided d.decision d.approver_ref d.decided_at now p)
unfolding decided
decided-IsDecidedRow d now p = by_decision d.decision refl
  where
    by_decision :
        (a : Approval)
        → d.decision ≡ a
        → IsDecidedRow d now p (decided d.decision d.approver_ref d.decided_at now p)
    by_decision Approval.approve e = rw e refl
    by_decision Approval.reject e = rw e refl

waiting-IsReplaced :
    (id : String) (d : ApprovalDecision) (now : Instant) (ps : List PendingRecord)
    (p : PendingRecord)
    → constraints ps ≡ true
    → with_id id ps ≡ some p
    → p.status ≡ PendingStatus.pending_approval
    → IsReplaced p (decided d.decision d.approver_ref d.decided_at now p) ps (
        update
          (at_version is_pending_approval id p.version)
          (decided d.decision d.approver_ref d.decided_at now)
          ps)
waiting-IsReplaced id d now ps p c f s =
    update-IsReplaced id (at_version is_pending_approval id p.version) _ (λ q h. ground arith) ps p
      (constraints-rows ps c).1 f
      (rw (with_id-id id ps p f, eqb_refl id, s, eqb_refl p.version) refl)

recorded-outcome :
    (p : PendingRecord) (d : Approval)
    → (o : ActionOutcome) × (pending_outcome (recorded p d) none false false ≡ ok o)
      × IsRecorded d o
unfolding outcome_of waiting_outcome closed_outcome Outcome.constructs code_fits
recorded-outcome p Approval.approve = (_, refl, (refl, refl))
recorded-outcome p Approval.reject = (_, refl, (refl, refl))

rejection-ok :
    (p : PendingRecord) (i : RequestIdentity) (now : Instant) (a : Approval) (t : Tables)
    (l : Option PendingRecord)
    → is_id p.pending_action_id ≡ true
    → is_key p.idempotency_key ≡ true
    → constraints t.pendings ≡ true
    → (u : Tables) × (rejection p i now a (session t l) ≡ (ok tt, session u l))
      × (u.pendings ≡ t.pendings)
rejection-ok p i now Approval.approve t l h k c = (t, refl, refl)
rejection-ok p i now Approval.reject t l h k c =
    (_, append_audit-ok _ t l (event-fits p i now _ _ _ none h k (λ s e. absurd (no s e))) c, refl)
  where
    no : (s : String) → none ≡ some s → ⊥
    no s e = cc

approver :
    (r : String)
    → is_approver_ref r ≡ true
    → (s : String) → some r ≡ some s
    → is_approver_ref s ≡ true
approver r a s e = let q : r ≡ s = cc in rw (← q) a

first_decision-ok :
    (d : ApprovalDecision) (now : Instant) (t : Tables) (p : PendingRecord) (i : RequestIdentity)
    (created : Instant)
    → is_approver_ref d.approver_ref ≡ true
    → is_id p.pending_action_id ≡ true
    → is_key p.idempotency_key ≡ true
    → constraints t.pendings ≡ true
    → with_id p.pending_action_id t.pendings ≡ some p
    → p.status ≡ PendingStatus.pending_approval
    → p.created_at ≡ some created
    → created ≤ d.decided_at
    → (o : ActionOutcome) × (u : Tables) × (first_decision d now p i (session t (some p))
        ≡ (ok o, session u (some p)))
      × (u.pendings ≡ (after_update p.pending_action_id p.version d now t).pendings)
      × IsRecorded d.decision o
unfolding first_decision
first_decision-ok d now t p i created a h k c f s e b =
    let v : Tables = after_update p.pending_action_id p.version d now t in
    let cv =
      constraints-update (at_version is_pending_approval p.pending_action_id p.version)
        (decided d.decision d.approver_ref d.decided_at now)
        (decided-Keeps p.pending_action_id p.version d.decision d.approver_ref d.decided_at now)
        t.pendings c in
    let event =
      resume_event p i now AuditEventName.approval_recorded
        (some (AuditDecision.operator d.decision)) none (some d.approver_ref) in
    let w : Tables = record v { audits = v.audits ++ event ∷ [] } in
    let (u, r, q) = rejection-ok p i now d.decision w (some p) h k cv in
    let (o, m, n) = recorded-outcome p d.decision in
    (
      o,
      u,
      go_on-ok _ (required-ok _ e) (
          go_on-ok _ (check-ok _ (le→leb created d.decided_at b)) (
            go_on-ok _
              (writes-ok (
                go_on-ok _
                  (record-ok p.pending_action_id p.version d now t (some p) p a h c f s refl)
                  (go_on-ok _
                    (append_audit-ok event v (some p)
                      (event-fits p i now _ _ _ (some d.approver_ref) h k
                        (approver d.approver_ref a))
                      cv)
                    r)))
              (lift-ok m))),
      q,
      n,
    )

constructed :
    (d : ApprovalDecision)
    → Approval.constructs d ≡ true
    → (is_pending_action_id d.pending_action_id ≡ true) × (is_approver_ref d.approver_ref ≡ true)
unfolding Approval.constructs
constructed d h = (ground arith, ground arith)

record_on-ok :
    (d : ApprovalDecision) (now : Instant) (t : Tables) (p : PendingRecord) (i : RequestIdentity)
    (x : ActionOutcome × Tables)
    → is_id d.pending_action_id ≡ true
    → with_id d.pending_action_id t.pendings ≡ some p
    → request_identity p.persona_id p.request_id ≡ some i
    → p.status ≡ PendingStatus.pending_approval
    → first_decision d now p i (session t (some p)) ≡ (ok x.0, session x.1 (some p))
    → record_on d now (session t none) ≡ (ok x.0, session x.1 (some p))
unfolding record_on
record_on-ok d now t p i x h f r s e =
    go_on-ok _ (load_found d.pending_action_id t none p h f)
      (go_on-ok (λ i. decide_on d now p i) (required-ok _ r) chosen)
  where
    waits : is_pending_approval p.status ≡ true
    waits = rw s refl

    chosen : decide_on d now p i (session t (some p)) ≡ (ok x.0, session x.1 (some p))
    chosen = rw waits e

-- A trusted operator's first decision, not earlier than the pending action, is recorded and
-- committed where no statement fails: the outcome is a WAITING_APPROVAL with the approval recorded,
-- or a REJECTED, and the row alone is replaced by one that is APPROVED or, with the code of a
-- rejection, REJECTED, names the decision, the operator and the time, and has the next version.
pub record_decision-IsRecorded :
    (operators : List String) (d : ApprovalDecision) (now : Instant) (t : Tables)
    (p : PendingRecord) (i : RequestIdentity) (created : Instant)
    → is_trusted d operators ≡ true
    → Approval.constructs d ≡ true
    → constraints t.pendings ≡ true
    → with_id d.pending_action_id t.pendings ≡ some p
    → p.status ≡ PendingStatus.pending_approval
    → p.created_at ≡ some created
    → created ≤ d.decided_at
    → is_key p.idempotency_key ≡ true
    → request_identity p.persona_id p.request_id ≡ some i
    → (o : ActionOutcome) × ((record_decision operators d now
          (record { committed = t; faults = [] })).0
        ≡ ok o)
      × IsRecorded d.decision o
      × (q : PendingRecord) × IsReplaced p q t.pendings
          (record_decision operators d now
            (record { committed = t; faults = [] })).1.committed.pendings
      × IsDecidedRow d now p q
unfolding record_decision
record_decision-IsRecorded operators d now t p i created tr con c f s e b k r =
    let (pa, ar) = constructed d con in
    let q = with_id-id d.pending_action_id t.pendings p f in
    let ident = pending_id-is_id d.pending_action_id pa in
    let (o, u, run, rows, rec) =
      first_decision-ok d now t p i created ar (ap is_id q ∙ ident) k c
        (ap (λ x. with_id x t.pendings) q ∙ f) s e b in
    let done = record_on-ok d now t p i (o, u) ident f r s run in
    (
      o,
      rw tr (rw done refl),
      rec,
      decided d.decision d.approver_ref d.decided_at now p,
      subst (IsReplaced p (decided d.decision d.approver_ref d.decided_at now p) t.pendings)
          (sym (rw tr (rw done (rows ∙ ap (λ x. (after_update x p.version d now t).pendings) q))))
          (waiting-IsReplaced d.pending_action_id d now t.pendings p c f s),
      decided-IsDecidedRow d now p,
    )
