-- ===== src/Gateway/ClosedStale.antt =====
-- T2 on a request whose records have changed since it was made (aftersales/action_gateway.py,
-- execute_approved): where no statement fails, the request ends STALE.
use mathlib.Core.Path.{subst}
use knowledge_agent.Prelude.{
  ℕ, String, Bool, true, false, Option, none, some, [], ok, ◌==◌, nat_eq, string_eq, sym, ◌+◌, ◌≡◌,
  refl, arith,
}
use knowledge_agent.Schema.{PendingStatus, is_open_pending}
use knowledge_agent.Actions.{ValidatedAction, Arguments, text, name_text, validate}
use knowledge_agent.Policy.{Instant}
use knowledge_agent.GuardState.{GuardState}
use knowledge_agent.GuardState.Reader.{read_state}
use knowledge_agent.Guard.Types.{CatalogSnapshot}
use knowledge_agent.Snapshot.{StaleReason, candidate_snapshot}
use knowledge_agent.Snapshot.Stale.{SameTables, Unchanged, stale_reason-some}
use knowledge_agent.Snapshot.Parser.{StoredSnapshot, parse_snapshot_document}
use knowledge_agent.Ids.{RequestIdentity, request_identity, is_id, is_key, is_pending_action_id}
use knowledge_agent.Outcome
use knowledge_agent.Outcome.{ActionOutcome, ActionStatus, Code, stale_reason, code_fits}
use knowledge_agent.Store.{
  PendingRecord, Tables, is_approved, at_version, ended, terminal_code, update, update_tables,
  guarded, execute, with_id, constraints, transition_terminal,
}
use knowledge_agent.Store.Inserts.{receipt_at}
use knowledge_agent.Store.Lifecycle.{terminal, Step-row_fits}
use knowledge_agent.Store.Replaced.{IsReplaced}
use knowledge_agent.Store.Success.{Keeps, constraints-update}
use knowledge_agent.Gateway.{pending_outcome, outcome_of, closed_outcome}
use knowledge_agent.Gateway.Succeeds.{session, go_on-ok, writes-ok, lift-ok, pending_id-is_id}
use knowledge_agent.Gateway.Fresh.{taken}
use knowledge_agent.Gateway.Compared.{
  approved-version, approved-IsReplaced, one_approved, started, audit-ok, execute-ok,
}
use knowledge_agent.Gateway.Execution.{Config, Moment, Persona, source_of}
use knowledge_agent.Gateway.ResumeSteps.{
  same_stored, stored_matches, closed_row, decide_again, close_stale,
}
use knowledge_agent.Gateway.Resume.{execute_approved}

ended-Keeps :
    (id : String) (v : ℕ) (status : PendingStatus) (code : Code) (at : Instant)
    → terminal_code status code ≡ true
    → Keeps (at_version is_approved id v) (ended status code at)
unfolding ended
ended-Keeps id v status code at h = record {
  same_id = λ p. refl;
  same_key = λ p. refl;
  same_receipt = λ p. refl;
  same_item = λ p. refl;
  fits =
      λ p k f. Step-row_fits p _ (terminal status code at (approved p.status (ground arith)) h) f;
  was_open = λ p k. opened p.status (ground arith);
}
  where
    approved : (x : PendingStatus) → is_approved x ≡ true → x ≡ PendingStatus.approved
    approved x h = ground arith

    opened : (x : PendingStatus) → is_approved x ≡ true → is_open_pending x ≡ true
    opened x h = ground arith

-- the tables once the row is ended
abbrev pub after_end : PendingRecord → Code → Instant → PendingStatus → Tables → Tables
after_end p code at status t = record t {
  pendings =
      update (at_version is_approved p.pending_action_id p.version) (ended status code at)
        t.pendings;
}

transition-ok :
    (p : PendingRecord) (r : StaleReason) (at : Instant) (t : Tables) (l : Option PendingRecord)
    → is_id p.pending_action_id ≡ true
    → constraints t.pendings ≡ true
    → with_id p.pending_action_id t.pendings ≡ some p
    → p.status ≡ PendingStatus.approved
    → transition_terminal p.pending_action_id p.version PendingStatus.stale
        (stale_reason r)
        at
        (session t l)
      ≡ (ok tt, session (after_end p (stale_reason r) at PendingStatus.stale t) l)
unfolding transition_terminal terminal_code guarded execute update_tables
transition-ok p r at t l i c f s =
    rw (i, approved-version p t c f) (rw (kept, one_approved p t c f s) refl)
  where
    test : PendingRecord → Bool
    test = at_version is_approved p.pending_action_id p.version

    kept :
        constraints (update test (ended PendingStatus.stale (stale_reason r) at) t.pendings) ≡ true
    kept =
        constraints-update test (ended PendingStatus.stale (stale_reason r) at)
          (ended-Keeps p.pending_action_id p.version PendingStatus.stale (stale_reason r) at refl)
          t.pendings c

stale-outcome :
    (p : PendingRecord) (r : StaleReason)
    → (o : ActionOutcome) × (pending_outcome
          (closed_row p PendingStatus.stale (stale_reason r))
          none
          false
          false
        ≡ ok o)
      × (o.status ≡ ActionStatus.stale)
      × (o.code ≡ some (stale_reason r))
unfolding outcome_of closed_outcome Outcome.constructs code_fits
stale-outcome p r = (_, refl, refl, refl)

-- What a run has left: the row of the request is ended, and nothing else but audits has changed.
abbrev pub Ended : PendingRecord → StaleReason → Instant → Tables → Tables → Type 0
Ended p r at t u =
    (u.pendings ≡ (after_end p (stale_reason r) at PendingStatus.stale t).pendings)
    × (u.receipts ≡ t.receipts)
    × (u.domain ≡ t.domain)

close_stale-ok :
    (p : PendingRecord) (i : RequestIdentity) (r : StaleReason) (at : Instant) (t : Tables)
    (l : Option PendingRecord)
    → is_id p.pending_action_id ≡ true
    → is_key p.idempotency_key ≡ true
    → constraints t.pendings ≡ true
    → with_id p.pending_action_id t.pendings ≡ some p
    → p.status ≡ PendingStatus.approved
    → (o : ActionOutcome) × (u : Tables) × (close_stale p i at r (session t l)
        ≡ (ok o, session u l))
      × Ended p r at t u
      × (o.status ≡ ActionStatus.stale)
      × (o.code ≡ some (stale_reason r))
unfolding close_stale terminal_code
close_stale-ok p i r at t l h k c f s =
    let v : Tables = after_end p (stale_reason r) at PendingStatus.stale t in
    let cv =
      constraints-update (at_version is_approved p.pending_action_id p.version)
        (ended PendingStatus.stale (stale_reason r) at)
        (ended-Keeps p.pending_action_id p.version PendingStatus.stale (stale_reason r) at
          stale-code)
        t.pendings c in
    let (o, m, st, co) = stale-outcome p r in
    (
      o,
      _,
      go_on-ok _
          (writes-ok (
            go_on-ok _ (transition-ok p r at t l h c f s)
              (go_on-ok _ (audit-ok p i at _ _ _ v l h k cv) (audit-ok p i at _ _ _ _ l h k cv))))
          (lift-ok m),
      (refl, refl, refl),
      st,
      co,
    )
  where
    stale-code : terminal_code PendingStatus.stale (stale_reason r) ≡ true
    stale-code = refl

-- the row of a stale request
abbrev pub stale_row : PendingRecord → StaleReason → Instant → PendingRecord
stale_row p r at = record p {
  status = PendingStatus.stale;
  outcome_code = some (stale_reason r);
  updated_at = at;
  version = p.version + 1;
}

-- A request whose row is approved, that the server resolves and rebuilds, and that is compared with
-- a capture of the tables as they are.
module _ (cfg : Config) (m : Moment) (t : Tables) (p : PendingRecord) (i : RequestIdentity)
    (persona : Persona) (args : Arguments) (action : ValidatedAction) (state : GuardState)
    (policy : CatalogSnapshot) (stored : StoredSnapshot)
    (resolved : cfg.services.persona p.persona_id ≡ some persona)
    (own : (persona.persona_id == p.persona_id) ≡ true)
    (parses : cfg.services.parse_args p.args_json ≡ some args)
    (valid : validate cfg.actions (text (name_text p.action_name)) args ≡ ok action)
    (same : same_stored cfg.services p i action ≡ true)
    (reads : read_state
        (source_of cfg m persona.customer_id (some p.pending_action_id) t)
        action
        m.now
      ≡ ok state)
    (published : m.catalog ≡ some policy)
    (verified : parse_snapshot_document cfg.services.codec p.snapshot_json p.snapshot_sha256
        p.action_name
      ≡ ok stored)
    (matching : stored_matches stored p ≡ true)
    (of_action : stored.snapshot.action_name ≡ action.action_name)
    (same_tables : SameTables stored.snapshot (taken cfg action state policy m.now).candidate)
    (changed : ¬ (Unchanged stored.snapshot (taken cfg action state policy m.now).candidate)) where
  -- Where no statement fails, T2 ends an approved request whose records, rules or versions differ
  -- from those of its stored snapshot: the outcome is STALE with a reason, the row alone is replaced
  -- by one that is STALE with that reason and has the next version, and no receipt and no row of the
  -- domain has changed.
  pub resume_ends_stale :
      is_pending_action_id p.pending_action_id ≡ true
      → is_key p.idempotency_key ≡ true
      → request_identity p.persona_id p.request_id ≡ some i
      → constraints t.pendings ≡ true
      → with_id p.pending_action_id t.pendings ≡ some p
      → p.status ≡ PendingStatus.approved
      → receipt_at p.idempotency_key t.receipts ≡ none
      → (o : ActionOutcome) × (u : Tables) × (r : StaleReason) × (execute_approved cfg m
            p.pending_action_id
            (record { committed = t; faults = [] })
          ≡ (ok o, record { committed = u; faults = [] }))
        × (o.status ≡ ActionStatus.stale)
        × (o.code ≡ some (stale_reason r))
        × IsReplaced p (stale_row p r m.now) t.pendings u.pendings
        × (u.receipts ≡ t.receipts)
        × (u.domain ≡ t.domain)
  unfolding decide_again candidate_snapshot ended
  resume_ends_stale h k q c f s free =
      let (r, differs) =
        stale_reason-some stored.snapshot (taken cfg action state policy m.now).candidate of_action
          same_tables changed in
      let id = pending_id-is_id p.pending_action_id h in
      let (o, u, run, (rows, receipts, domain), st, co) =
        close_stale-ok p i r m.now (started p i m.now t) (some p) id k c f s in
      (
        o,
        u,
        r,
        execute-ok cfg m t p i persona args action state policy stored (some r) resolved own parses
            valid same reads published verified matching differs h k q c f s free run,
        st,
        co,
        subst (IsReplaced p (stale_row p r m.now) t.pendings) (sym rows)
            (approved-IsReplaced p (ended PendingStatus.stale (stale_reason r) m.now) t c f s),
        receipts,
        domain,
      )
