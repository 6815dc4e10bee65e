-- ===== src/Gateway/Executes.antt =====
-- T2 on an approved request whose records have not changed (aftersales/action_gateway.py,
-- execute_approved): where no statement fails, the request is executed.
use mathlib.Core.Path.{subst}
use knowledge_agent.Prelude.{
  String, true, false, Option, none, some, List, [], ◌∷◌, ◌++◌, ok, ◌==◌, nat_eq, string_eq, ◌∙◌,
  ◌≡◌, refl, arith, ap, sym,
}
use knowledge_agent.Schema.{PendingStatus}
use knowledge_agent.Actions.{ValidatedAction, Arguments, text, name_text, validate}
use knowledge_agent.Policy.{Instant}
use knowledge_agent.GuardState.{GuardState}
use knowledge_agent.GuardState.Templates.{Database}
use knowledge_agent.GuardState.Reader.{read_state}
use knowledge_agent.Guard.Types.{CatalogSnapshot, GuardDecision, GuardDecisionKind}
use knowledge_agent.Guard.Decide.{decide}
use knowledge_agent.Snapshot.{candidate_snapshot}
use knowledge_agent.Snapshot.Stale.{SameTables, Unchanged, stale_reason-none}
use knowledge_agent.Snapshot.Parser.{StoredSnapshot, parse_snapshot_document}
use knowledge_agent.Ids.{RequestIdentity, request_identity, is_id, is_key, is_pending_action_id}
use knowledge_agent.Outcome.{ActionOutcome, ReceiptView, reason, same_reason}
use knowledge_agent.Store.{
  PendingRecord, AuditEventName, AuditDecision, closed, append_audit, Tables, Session, is_approved,
  at_version, linked, update, update_tables, guarded, execute, with_id, constraints, mark_executed,
  audit_fits, ReceiptRecord, AuditEvent,
}
use knowledge_agent.Store.Replaced.{IsReplaced}
use knowledge_agent.Store.Inserts.{receipts_fit, receipt_at, insert_receipt, insert_row}
use knowledge_agent.Gateway.{resume_event}
use knowledge_agent.Gateway.Succeeds.{
  session, append_audit-ok, go_on-ok, writes-ok, pending_id-is_id, required-ok,
}
use knowledge_agent.Gateway.Fresh.{taken}
use knowledge_agent.Gateway.Execution.{
  Config, Moment, Persona, IdKind, GuardCapture, source_of, decide_action, receipt_row,
  write_execution, resource_kind, resource_of, new_id,
}
use knowledge_agent.Gateway.Rebuilt.{rebuilt-IsStored}
use knowledge_agent.Gateway.ResumeSteps.{
  same_stored, stored_matches, decide_again, conclude_resume, execute_now, executed_event,
  executed_view, is_denial, is_require,
}
use knowledge_agent.Gateway.Compared.{
  approved-version, approved-IsReplaced, one_approved, started, audit-ok, execute-ok,
}
use knowledge_agent.Gateway.Resource.{with_resource, resource-ok}
use knowledge_agent.Gateway.Added.{IsResourceAdded, resource-added}
use knowledge_agent.Gateway.Executed.{
  executed_row, resource_type_of, view_at, IsToldExecuted, IsReceiptOf,
}
use knowledge_agent.Gateway.Resume.{execute_approved}

-- the tables once the row is linked to its receipt
abbrev pub after_link : PendingRecord → String → Instant → Tables → Tables
after_link p receipt at t = record t {
  pendings =
      update (at_version is_approved p.pending_action_id p.version) (linked receipt at) t.pendings;
}

mark-ok :
    (p : PendingRecord) (receipt : String) (at : Instant) (t : Tables) (l : Option PendingRecord)
    → is_id receipt ≡ true
    → is_id p.pending_action_id ≡ true
    → constraints t.pendings ≡ true
    → with_id p.pending_action_id t.pendings ≡ some p
    → p.status ≡ PendingStatus.approved
    → constraints (after_link p receipt at t).pendings ≡ true
    → mark_executed p.pending_action_id p.version receipt at (session t l)
      ≡ (ok tt, session (after_link p receipt at t) l)
unfolding mark_executed guarded execute update_tables
mark-ok p receipt at t l r i c f s kept =
    rw (r, i, approved-version p t c f) (rw (kept, one_approved p t c f s) refl)

-- The request that T2 executes.
module _ (cfg : Config) (m : Moment) (p : PendingRecord) (i : RequestIdentity) (customer : String)
    (action : ValidatedAction) (c : GuardCapture) (d : GuardDecision) (resource receipt : String)
    (after : Database) where
  abbrev pub executed_receipt : ReceiptRecord
  executed_receipt =
      receipt_row cfg m i action p.idempotency_key c d (some p.pending_action_id) resource receipt

  abbrev pub view_of_receipt : ReceiptView
  view_of_receipt = record {
    receipt_id = receipt;
    resource_type = resource_of action.action_name;
    resource_id = resource;
  }

  -- The tables with the resource and the receipt.
  abbrev pub written : Tables → Tables
  written t = record t { domain = after; receipts = t.receipts ++ executed_receipt ∷ [] }

  write-ok :
      (t : Tables) (l : Option PendingRecord)
      → cfg.services.new_id (resource_kind action.action_name) p.idempotency_key ≡ some resource
      → cfg.services.new_id IdKind.receipt p.idempotency_key ≡ some receipt
      → is_id resource ≡ true
      → is_id receipt ≡ true
      → is_id p.pending_action_id ≡ true
      → is_key p.idempotency_key ≡ true
      → with_resource action.action_name resource action customer
          (cfg.services.codec.isoformat m.now)
          t.domain
        ≡ some after
      → receipts_fit (t.receipts ++ executed_receipt ∷ []) ≡ true
      → write_execution cfg m i customer action p.idempotency_key c d
          (some p.pending_action_id)
          (session t l)
        ≡ (ok view_of_receipt, session (written t) l)
  unfolding write_execution new_id insert_receipt insert_row
  write-ok t l nr nc hr hc hp hk row fit = go_on-ok _ (required-ok _ nr) (
      go_on-ok _ (required-ok _ nc) (
        go_on-ok _
          (resource-ok action.action_name resource action customer
            (cfg.services.codec.isoformat m.now) t l after hr row)
          (rw (hp, hc, hk, hr) (rw fit refl))))

-- A request whose row is approved, whose stored snapshot the records as they are still match, that
-- the Guard decides as it did, and whose rows are accepted.
module _ (cfg : Config) (m : Moment) (t : Tables) (p : PendingRecord) (i : RequestIdentity)
    (persona : Persona) (args : Arguments) (action : ValidatedAction) (state : GuardState)
    (policy : CatalogSnapshot) (stored : StoredSnapshot) (d : GuardDecision)
    (resource receipt : String) (after : Database)
    (waiting : is_pending_action_id p.pending_action_id ≡ true)
    (keyed : is_key p.idempotency_key ≡ true) (fits : constraints t.pendings ≡ true)
    (found : with_id p.pending_action_id t.pendings ≡ some p)
    (approved : p.status ≡ PendingStatus.approved)
    (decides : decide action state policy cfg.risk m.now ≡ ok d)
    (requires : is_require d.decision ≡ true)
    (as_before : same_reason d.reason_code p.guard_reason_code ≡ true)
    (new_resource : cfg.services.new_id (resource_kind action.action_name) p.idempotency_key
      ≡ some resource)
    (new_receipt : cfg.services.new_id IdKind.receipt p.idempotency_key ≡ some receipt)
    (resource_id : is_id resource ≡ true) (receipt_id : is_id receipt ≡ true)
    (resource_fits : with_resource action.action_name resource action persona.customer_id
        (cfg.services.codec.isoformat m.now)
        t.domain
      ≡ some after)
    (receipt_fits : receipts_fit (
        t.receipts
        ++ executed_receipt cfg m p i persona.customer_id action
            (taken cfg action state policy m.now)
            d
            resource
            receipt
            after
          ∷ [])
      ≡ true)
    (link_fits : constraints (after_link p receipt m.now t).pendings ≡ true) where
  abbrev c : GuardCapture
  c = taken cfg action state policy m.now

  abbrev view : ReceiptView
  view = view_of_receipt cfg m p i persona.customer_id action c d resource receipt after

  -- The tables once the request is executed.
  abbrev done : Tables → Tables
  done u =
      after_link p receipt m.now
        (written cfg m p i persona.customer_id action c d resource receipt after u)

  id : is_id p.pending_action_id ≡ true
  id = pending_id-is_id p.pending_action_id waiting

  -- a receipt is named by its audit
  told :
      (u : Tables) (l : Option PendingRecord)
      → constraints u.pendings ≡ true
      → append_audit (executed_event p i m.now view) (session u l)
        ≡ (ok tt, session (record u { audits = u.audits ++ executed_event p i m.now view ∷ [] }) l)
  unfolding audit_fits
  told u l h = append_audit-ok _ u l (rw (keyed, id, receipt_id) refl) h

  execute_now-ok :
      (a : List AuditEvent) (l : Option PendingRecord)
      → (u : Tables) × (execute_now cfg m p i persona.customer_id action c d
            (session (record t { audits = a }) l)
          ≡ (ok (executed_view p view d), session u l))
        × (u.pendings ≡ (done t).pendings)
        × (u.receipts ≡ (done t).receipts)
        × (u.domain ≡ after)
  unfolding execute_now
  execute_now-ok a l =
      let v : Tables = record t { audits = a } in
      (
        _,
        go_on-ok _
            (write-ok cfg m p i persona.customer_id action c d resource receipt after v l
              new_resource new_receipt resource_id receipt_id id keyed resource_fits receipt_fits)
            (go_on-ok _
              (mark-ok p receipt m.now
                (written cfg m p i persona.customer_id action c d resource receipt after v) l
                receipt_id id fits found approved link_fits)
              (go_on-ok _ (told (done v) l link_fits) refl)),
        refl,
        refl,
        refl,
      )

  -- neither a denial nor another decision
  conclude-ok :
      (s : Session)
      → conclude_resume cfg m p i persona.customer_id action c d s
        ≡ execute_now cfg m p i persona.customer_id action c d s
  unfolding conclude_resume
  conclude-ok s = rw (allowed d.decision requires, requires, as_before) refl
    where
      allowed : (k : GuardDecisionKind) → is_require k ≡ true → is_denial k ≡ false
      allowed k h = ground arith

  decided-ok : (s : Session) → decide_action cfg m action c s ≡ (ok d, s)
  unfolding decide_action
  decided-ok s = rw decides refl

  decide_again-ok :
      (u : Tables) × (decide_again cfg m p i persona.customer_id action c none
          (session (started p i m.now t) (some p))
        ≡ (ok (executed_view p view d), session u (some p)))
      × (u.pendings ≡ (done t).pendings)
      × (u.receipts ≡ (done t).receipts)
      × (u.domain ≡ after)
  unfolding decide_again
  decide_again-ok =
      let matched =
        resume_event p i m.now AuditEventName.resume_version_check
          (some AuditDecision.version_match) none none in
      let evaluated =
        resume_event p i m.now AuditEventName.guard_evaluated
          (some (AuditDecision.guard d.decision)) (some (closed (reason d.reason_code))) none in
      let v : Tables = started p i m.now t in
      let w : Tables = record v { audits = v.audits ++ matched ∷ [] } in
      let x : Tables = record w { audits = w.audits ++ evaluated ∷ [] } in
      let (u, run, e, g, h) = execute_now-ok x.audits (some p) in
      (
        u,
        go_on-ok _ (decided-ok (session v (some p))) (
            writes-ok (
              go_on-ok _ (audit-ok p i m.now _ _ _ v (some p) id keyed fits) (
                go_on-ok _ (audit-ok p i m.now _ _ _ w (some p) id keyed fits)
                  (conclude-ok (session x (some p)) ∙ run)))),
        e,
        g,
        h,
      )

  -- Where no statement fails, T2 executes an approved request whose records, rules and versions are
  -- those of its stored snapshot: where the server resolves and rebuilds what was stored, the Guard
  -- decides again that it needs an approval, for the stored reason, the id provider answers, and the
  -- rows to write keep the constraints of their tables. The outcome is EXECUTED with the receipt; the
  -- row alone is replaced by one that is EXECUTED, names the receipt and has the next version; the
  -- receipts have one more, of the stored key, action, arguments, persona and request, for this
  -- row; and the domain has one row more: the open case of the customer, or the open ticket, for the
  -- stored order and item.
  pub resume_executes :
      cfg.services.persona p.persona_id ≡ some persona
      → (persona.persona_id == p.persona_id) ≡ true
      → cfg.services.parse_args p.args_json ≡ some args
      → validate cfg.actions (text (name_text p.action_name)) args ≡ ok action
      → same_stored cfg.services p i action ≡ true
      → read_state (source_of cfg m persona.customer_id (some p.pending_action_id) t) action m.now
        ≡ ok state
      → m.catalog ≡ some policy
      → parse_snapshot_document cfg.services.codec p.snapshot_json p.snapshot_sha256 p.action_name
        ≡ ok stored
      → stored_matches stored p ≡ true
      → stored.snapshot.action_name ≡ action.action_name
      → SameTables stored.snapshot c.candidate
      → Unchanged stored.snapshot c.candidate
      → request_identity p.persona_id p.request_id ≡ some i
      → receipt_at p.idempotency_key t.receipts ≡ none
      → (o : ActionOutcome) × (u : Tables) × (r : ReceiptRecord) × (execute_approved cfg m
            p.pending_action_id
            (record { committed = t; faults = [] })
          ≡ (ok o, record { committed = u; faults = [] }))
        × IsToldExecuted p receipt resource o
        × IsReplaced p (executed_row p receipt m.now) t.pendings u.pendings
        × (u.receipts ≡ t.receipts ++ r ∷ [])
        × IsReceiptOf p receipt resource m.now r
        × IsResourceAdded p.action_name p.target_order_id p.target_order_item_id action.args
            resource persona.customer_id
            (cfg.services.codec.isoformat m.now)
            t.domain
            u.domain
  unfolding candidate_snapshot linked
  resume_executes resolved own parses valid same reads published verified matching of_action
        same_tables unchanged identified free =
      let (u, run, rows, receipts, domain) = decide_again-ok in
      let kept = rebuilt-IsStored cfg p i action args identified parses valid same in
      let fresh =
        (stale_reason-none stored.snapshot c.candidate).1 (of_action, same_tables, unchanged) in
      (
        executed_view p view d,
        u,
        executed_receipt cfg m p i persona.customer_id action c d resource receipt after,
        execute-ok cfg m t p i persona args action state policy stored none resolved own parses
            valid same reads published verified matching fresh waiting keyed identified fits found
            approved free run,
        (refl, refl, refl, ap (λ x. some (view_at x receipt resource)) kept.same_name),
        subst (IsReplaced p (executed_row p receipt m.now) t.pendings) (sym rows)
            (approved-IsReplaced p (linked receipt m.now) t fits found approved),
        receipts,
        record {
          same_id = refl;
          same_key = refl;
          same_name = kept.same_name;
          same_type = ap resource_type_of kept.same_name;
          same_resource = refl;
          required = required_of d.decision requires;
          for_row = refl;
          same_request = kept.of_request.1;
          same_persona = kept.of_request.0;
          same_args = kept.same_text;
          same_digest = ap cfg.services.codec.sha256 kept.same_text ∙ kept.same_digest;
          at_time = refl;
        },
        (rw (← kept.same_name, ← kept.same_order, ← kept.same_item, domain)
            (resource-added action.action_name action resource persona.customer_id
              (cfg.services.codec.isoformat m.now) t.domain after resource_fits)),
      )
    where
      required_of :
          (k : GuardDecisionKind) → is_require k ≡ true → k ≡ GuardDecisionKind.require_approval
      required_of k h = ground arith
