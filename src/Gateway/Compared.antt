-- ===== src/Gateway/Compared.antt =====
-- T2 up to the comparison with the stored snapshot (aftersales/action_gateway.py, execute_approved):
-- what it returns where no statement fails.
use knowledge_agent.Prelude.{
  String, true, false, not, Option, none, some, [], ◌∷◌, ◌++◌, ok, ◌==◌, nat_eq, string_eq, ◌≡◌,
  refl, leb, ◌&&◌, eqb_refl, arith, ◌∙◌,
}
use knowledge_agent.Schema.{PendingStatus}
use knowledge_agent.Actions.{ValidatedAction, Arguments, text, name_text, validate}
use knowledge_agent.Policy.{Instant}
use knowledge_agent.GuardState.{GuardState}
use knowledge_agent.GuardState.Reader.{read_state}
use knowledge_agent.Guard.Types.{CatalogSnapshot}
use knowledge_agent.Snapshot
use knowledge_agent.Snapshot.{StaleReason, candidate_snapshot}
use knowledge_agent.Snapshot.Parser.{StoredSnapshot, parse_snapshot_document}
use knowledge_agent.Ids.{RequestIdentity, request_identity, is_id, is_key, is_pending_action_id}
use knowledge_agent.Outcome.{ActionOutcome}
use knowledge_agent.Store.{
  PendingRecord, AuditEventName, AuditDecision, AuditCode, append_audit, Tables, Session,
  is_pending_approval, query, with_id, constraints, count, update, at_version, is_approved,
}
use knowledge_agent.Store.Inserts.{receipt_at, find_receipt}
use knowledge_agent.Store.Replaced.{IsReplaced, update-IsReplaced}
use knowledge_agent.Store.Success.{count-one}
use knowledge_agent.Gateway.{resume_event}
use knowledge_agent.Gateway.Succeeds.{
  session, with_id-fits, fits-version, constraints-rows, count-eq, assoc, append_audit-ok,
  event-fits, go_on-ok, required-ok, check-ok, writes-ok, pending_id-is_id, load_found,
}
use knowledge_agent.Gateway.Fresh.{taken}
use knowledge_agent.Gateway.Execution.{Config, Moment, Persona, source_of, capture}
use knowledge_agent.Gateway.ResumeSteps.{
  confirmed, confirm, is_terminal, load_on, load_approved, same_stored, rebuild, resolve,
  stored_matches, compare_stored, parsed, decide_again, resume_confirmed,
}
use knowledge_agent.Gateway.Resume.{resume_run, execute_approved}

pub approved-version :
    (p : PendingRecord) (t : Tables)
    → constraints t.pendings ≡ true
    → with_id p.pending_action_id t.pendings ≡ some p
    → leb 1 p.version ≡ true
approved-version p t c f =
    fits-version p
      (with_id-fits p.pending_action_id t.pendings p f (constraints-rows t.pendings c).0)

-- The row of an approved request is the one that a guarded update finds.
pub one_approved :
    (p : PendingRecord) (t : Tables)
    → constraints t.pendings ≡ true
    → with_id p.pending_action_id t.pendings ≡ some p
    → p.status ≡ PendingStatus.approved
    → count (at_version is_approved p.pending_action_id p.version) t.pendings ≡ 1
one_approved p t c f s =
    count-eq (at_version is_approved p.pending_action_id p.version)
      (λ q.
        q.pending_action_id == p.pending_action_id
        && (is_approved q.status && q.version == p.version))
      (λ q.
        assoc (q.pending_action_id == p.pending_action_id) (is_approved q.status)
          (q.version == p.version))
      t.pendings
    ∙ count-one p.pending_action_id (λ q. is_approved q.status && q.version == p.version) t.pendings
        p (constraints-rows t.pendings c).1 f (rw (s, eqb_refl p.version) refl)

-- A guarded update replaces that row alone.
pub approved-IsReplaced :
    (p : PendingRecord) (f : PendingRecord → PendingRecord) (t : Tables)
    → constraints t.pendings ≡ true
    → with_id p.pending_action_id t.pendings ≡ some p
    → p.status ≡ PendingStatus.approved
    → IsReplaced p
        (f p)
        t.pendings
        (update (at_version is_approved p.pending_action_id p.version) f t.pendings)
approved-IsReplaced p f t c h s =
    update-IsReplaced p.pending_action_id (at_version is_approved p.pending_action_id p.version) f
      (λ q e. ground arith) t.pendings p (constraints-rows t.pendings c).1 h
      (rw (eqb_refl p.pending_action_id, s, eqb_refl p.version) refl)

-- an audit of a pending action, appended
pub audit-ok :
    (p : PendingRecord) (i : RequestIdentity) (at : Instant) (n : AuditEventName)
    (x : Option AuditDecision) (c : Option AuditCode) (t : Tables) (l : Option PendingRecord)
    → is_id p.pending_action_id ≡ true
    → is_key p.idempotency_key ≡ true
    → constraints t.pendings ≡ true
    → append_audit (resume_event p i at n x c none) (session t l)
      ≡ (ok tt, session (record t { audits = t.audits ++ resume_event p i at n x c none ∷ [] }) l)
audit-ok p i at n x c t l h k f =
    append_audit-ok _ t l (event-fits p i at n x c none h k (λ s e. absurd (no s e))) f
  where
    no : (s : String) → none ≡ some s → ⊥
    no s e = cc

confirm-ok :
    (p : PendingRecord) (i : RequestIdentity) (t : Tables) (l : Option PendingRecord)
    → is_key p.idempotency_key ≡ true
    → receipt_at p.idempotency_key t.receipts ≡ none
    → confirm p i (session t l) ≡ (ok (confirmed p i none), session t l)
unfolding confirm find_receipt query
confirm-ok p i t l k free = rw k (rw free refl)

load_approved-ok :
    (p : PendingRecord) (i : RequestIdentity) (at : Instant) (t : Tables)
    → is_id p.pending_action_id ≡ true
    → is_key p.idempotency_key ≡ true
    → request_identity p.persona_id p.request_id ≡ some i
    → with_id p.pending_action_id t.pendings ≡ some p
    → p.status ≡ PendingStatus.approved
    → receipt_at p.idempotency_key t.receipts ≡ none
    → load_approved p.pending_action_id at (session t none)
      ≡ (ok (confirmed p i none), session t (some p))
unfolding load_approved
load_approved-ok p i at t id k q f s free =
    go_on-ok _ (load_found p.pending_action_id t none p id f)
      (go_on-ok _ (check-ok _ waited) (go_on-ok _ (required-ok _ q) loaded))
  where
    waited : not (is_pending_approval p.status) ≡ true
    waited = rw s refl

    open_still : is_terminal p.status ≡ false
    open_still = rw s refl

    loaded : load_on p i at (session t (some p)) ≡ (ok (confirmed p i none), session t (some p))
    loaded = rw open_still (confirm-ok p i t (some p) k free)

-- the tables once the transaction has audited its start
abbrev pub started : PendingRecord → RequestIdentity → Instant → Tables → Tables
started p i at t = record t {
  audits = t.audits ++ resume_event p i at AuditEventName.resume_started none none none ∷ [];
}

-- A request whose row is approved, that the server resolves and rebuilds, and that is compared with
-- a capture of the tables as they are.
module _ (cfg : Config) (m : Moment) (t : Tables) (p : PendingRecord) (i : RequestIdentity)
    (persona : Persona) (args : Arguments) (action : ValidatedAction) (state : GuardState)
    (policy : CatalogSnapshot) (stored : StoredSnapshot) (r : Option StaleReason)
    (resolved : cfg.services.persona p.persona_id ≡ some persona)
    (own : (persona.persona_id == p.persona_id) ≡ true)
    (parses : cfg.services.parse_args p.args_json ≡ some args)
    (valid : validate cfg.actions (text (name_text p.action_name)) args ≡ ok action)
    (same : same_stored cfg.services p i action ≡ true)
    (reads : read_state
        (source_of cfg m persona.customer_id (some p.pending_action_id) t)
        action
        m.now
      ≡ ok state)
    (published : m.catalog ≡ some policy)
    (verified : parse_snapshot_document cfg.services.codec p.snapshot_json p.snapshot_sha256
        p.action_name
      ≡ ok stored)
    (matching : stored_matches stored p ≡ true)
    (differs : Snapshot.stale_reason stored.snapshot (taken cfg action state policy m.now).candidate
      ≡ ok r) where
  rebuild-ok : (s : Session) → rebuild cfg p i s ≡ (ok action, s)
  unfolding rebuild
  rebuild-ok s = go_on-ok _ given (go_on-ok _ (check-ok _ same) refl)
    where
      given : parsed cfg p (cfg.services.parse_args p.args_json) s ≡ (ok action, s)
      given = rw (parsed, parses) (rw valid refl)

  resolve-ok : (s : Session) → resolve cfg p s ≡ (ok persona, s)
  unfolding resolve
  resolve-ok s = rw (resolved, own) refl

  capture-ok :
      (u : Tables) (l : Option PendingRecord)
      → u.pendings ≡ t.pendings
      → u.domain ≡ t.domain
      → capture cfg m persona.customer_id action (some p.pending_action_id) (session u l)
        ≡ (ok (taken cfg action state policy m.now), session u l)
  unfolding capture
  capture-ok u l q d = rw (q, d) (rw (reads, published) refl)

  compare-ok :
      (s : Session) → compare_stored cfg p (taken cfg action state policy m.now) s ≡ (ok r, s)
  unfolding compare_stored
  compare-ok s = rw (verified, matching, differs) refl

  resumed :
      {o : ActionOutcome} {u : Tables}
      → is_id p.pending_action_id ≡ true
      → is_key p.idempotency_key ≡ true
      → constraints t.pendings ≡ true
      → decide_again cfg m p i persona.customer_id action
          (taken cfg action state policy m.now)
          r
          (session (started p i m.now t) (some p))
        ≡ (ok o, session u (some p))
      → resume_confirmed cfg m p i none (session t (some p)) ≡ (ok o, session u (some p))
  unfolding resume_confirmed
  resumed id k c run =
      let v = started p i m.now t in
      go_on-ok _
        (writes-ok (audit-ok p i m.now AuditEventName.resume_started none none t (some p) id k c))
        (go_on-ok _ (resolve-ok (session v (some p))) (
          go_on-ok _ (rebuild-ok (session v (some p))) (
            go_on-ok _ (capture-ok v (some p) refl refl)
              (go_on-ok _ (compare-ok (session v (some p))) run))))

  -- What the steps from the comparison on return is what T2 returns.
  pub execute-ok :
      is_pending_action_id p.pending_action_id ≡ true
      → is_key p.idempotency_key ≡ true
      → request_identity p.persona_id p.request_id ≡ some i
      → constraints t.pendings ≡ true
      → with_id p.pending_action_id t.pendings ≡ some p
      → p.status ≡ PendingStatus.approved
      → receipt_at p.idempotency_key t.receipts ≡ none
      → {o : ActionOutcome} {u : Tables}
      → decide_again cfg m p i persona.customer_id action
          (taken cfg action state policy m.now)
          r
          (session (started p i m.now t) (some p))
        ≡ (ok o, session u (some p))
      → execute_approved cfg m p.pending_action_id (record { committed = t; faults = [] })
        ≡ (ok o, record { committed = u; faults = [] })
  unfolding execute_approved resume_run
  execute-ok h k q c f s free run =
      let id = pending_id-is_id p.pending_action_id h in
      rw h (rw (load_approved-ok p i m.now t id k q f s free) (rw (resumed id k c run) refl))
