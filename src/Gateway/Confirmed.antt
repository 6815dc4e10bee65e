-- ===== src/Gateway/Confirmed.antt =====
-- What the steps of T2 do (aftersales/action_gateway.py, _execute_approved): the load of the row, the
-- comparison of its snapshot, and the new decision.
use knowledge_agent.Prelude.{
  String, Bool, true, false, not, Option, none, some, Result, ok, err, ◌==◌, string_eq, ◌≡◌, inl,
  inr, refl, sym, ◌∙◌, Bool-cases, if◌then◌else◌, arith, List, [], ◌∷◌, In,
}
use knowledge_agent.Schema.{PendingStatus, FailureCode}
use knowledge_agent.Actions.{Arguments, ValidatedAction, Diagnostic, text, name_text, validate}
use knowledge_agent.Policy.{Instant}
use knowledge_agent.Snapshot
use knowledge_agent.Snapshot.{SnapshotError, StaleReason}
use knowledge_agent.Snapshot.Parser.{StoredSnapshot, parse_snapshot_document}
use knowledge_agent.Ids.{RequestIdentity, request_identity}
use knowledge_agent.Store
use knowledge_agent.Store.{
  PendingRecord, ReceiptRecord, Tables, Session, Raise, Store, ◌>>=◌, ◌>>◌, go_on, pure, raise,
  check, next_fault, value_error, runtime_error, attempt_failed, guard_failed, sqlite_error,
  integrity_error, transition_conflict, unknown_pending_action, not_approved, approval_input_error,
  capability_error, contract_error, is_pending_approval, with_id, find_receipt_for_pending,
  receipt_of, same_pending,
}
use knowledge_agent.Store.Inserts.{receipt_at}
use knowledge_agent.Gateway.{write_error, read_error, reads, receipt_for, pending_outcome}
use knowledge_agent.Gateway.Views.{pending_outcome-Truth}
use knowledge_agent.Gateway.Execution.{Config, Moment, Persona, GuardCapture}
use knowledge_agent.Gateway.ResumeSteps.{
  is_terminal, Loaded, replayed, confirmed, replay_end, confirm, load_on, load_approved, parsed,
  same_stored, rebuild, resolve, stored_matches, integrity, compare_stored, decide_again,
  no_receipt, resume_confirmed,
}
use knowledge_agent.Gateway.Rebuilt.{IsStored, rebuilt-IsStored}
use knowledge_agent.Gateway.Runs.{
  remember_runs, Core, Runs, Kept, pure_runs, raise_runs, kept_runs, weaken_runs, mapped_runs,
  check_runs, required_runs, lift_runs, append_audit_runs, find_receipt_runs, load_pending_runs,
  find_for_pending_runs,
}
use knowledge_agent.Gateway.Effects.{IsCapture, capture_runs}
use knowledge_agent.Gateway.Resumed.{ResumeEffect, close_stale_runs, decide_again_runs}

integrity_runs :
    {A B : Type 0} {c : Core} {Q : B → Core → Type 0} (r : Result SnapshotError A) {f : A → Store B}
    → ((a : A) → r ≡ ok a → Runs c (f a) Q)
    → Runs c (integrity r >>= f) Q
integrity_runs (ok a) h = record { runs = λ s q. (h a refl).runs s q }
integrity_runs (err Snapshot.snapshot_integrity) h = record { runs = λ s q. tt }
integrity_runs (err Snapshot.type_error) h = record { runs = λ s q. tt }

-- a computation that returns without a change
pub same_core :
    {A : Type 0} {c : Core} {m : Store A} {P : A → Type 0}
    → Runs c m (Kept c P)
    → Runs c m (Kept c (λ a. Unit))
same_core h = weaken_runs h (λ a d p. (p.0, tt))

integrity_end :
    {A : Type 0} {c : Core} (r : Result SnapshotError A)
    → Runs c (integrity r) (Kept c (λ a. r ≡ ok a))
integrity_end (ok a) = pure_runs (refl, refl)
integrity_end (err Snapshot.snapshot_integrity) = raise_runs _
integrity_end (err Snapshot.type_error) = raise_runs _

-- What the comparison of the stored snapshot has found.
abbrev pub IsCompared : Config → PendingRecord → GuardCapture → Option StaleReason → Type 0
IsCompared cfg p x r =
    (stored : StoredSnapshot) × (parse_snapshot_document cfg.services.codec p.snapshot_json
        p.snapshot_sha256 p.action_name
      ≡ ok stored)
    × (Snapshot.stale_reason stored.snapshot x.candidate ≡ ok r)

compare_runs :
    (c : Core) (cfg : Config) (p : PendingRecord) (x : GuardCapture)
    → Runs c (compare_stored cfg p x) (Kept c (IsCompared cfg p x))
unfolding compare_stored
compare_runs c cfg p x =
    integrity_runs
      (parse_snapshot_document cfg.services.codec p.snapshot_json p.snapshot_sha256 p.action_name)
      (λ stored h. check_runs (stored_matches stored p) _ (λ _.
        weaken_runs (integrity_end (Snapshot.stale_reason stored.snapshot x.candidate))
          (λ r d q. (q.0, (stored, h, q.1)))))

resolve_runs :
    (c : Core) (cfg : Config) (p : PendingRecord)
    → Runs c (resolve cfg p) (Kept c (λ persona. cfg.services.persona p.persona_id ≡ some persona))
unfolding resolve
resolve_runs c cfg p =
    required_runs (cfg.services.persona p.persona_id) _
      (λ persona h. check_runs (persona.persona_id == p.persona_id) _ (λ _. pure_runs (refl, h)))

-- The stored arguments, as they are read and validated.
abbrev IsParsed : Config → PendingRecord → Option Arguments → ValidatedAction → Type 0
IsParsed cfg p o action =
    (arguments : Arguments) × (o ≡ some arguments)
    × (validate cfg.actions (text (name_text p.action_name)) arguments ≡ ok action)

parsed_runs :
    (c : Core) (cfg : Config) (p : PendingRecord) (o : Option Arguments)
    → Runs c (parsed cfg p o) (Kept c (IsParsed cfg p o))
parsed_runs c cfg p none = raise_runs _
parsed_runs c cfg p (some arguments) =
    go (validate cfg.actions (text (name_text p.action_name)) arguments) refl
  where
    go :
        (r : Result Diagnostic ValidatedAction)
        → validate cfg.actions (text (name_text p.action_name)) arguments ≡ r
        → Runs c
            (elim r as (λ x. Store ValidatedAction) [
              | ok action ↦ pure action
              | err e ↦ raise (attempt_failed FailureCode.invariant_violation)
            ])
            (Kept c (IsParsed cfg p (some arguments)))
    go (ok action) e = pure_runs (refl, (arguments, refl, e))
    go (err e) q = raise_runs _

rebuild_runs :
    (c : Core) (cfg : Config) (p : PendingRecord) (i : RequestIdentity)
    → request_identity p.persona_id p.request_id ≡ some i
    → Runs c (rebuild cfg p i) (Kept c (IsStored cfg p i))
unfolding rebuild
rebuild_runs c cfg p i q =
    kept_runs (parsed_runs c cfg p (cfg.services.parse_args p.args_json))
      (λ action (arguments, r, v).
        check_runs (same_stored cfg.services p i action) _
          (λ s. pure_runs (refl, rebuilt-IsStored cfg p i action arguments q r v s)))

compared_runs :
    (c : Core) (cfg : Config) (m : Moment) (p : PendingRecord) (i : RequestIdentity)
    (persona : Persona) (action : ValidatedAction) (x : GuardCapture)
    → receipt_at p.idempotency_key c.receipts ≡ none
    → cfg.services.persona p.persona_id ≡ some persona
    → IsStored cfg p i action
    → IsCapture cfg m persona.customer_id action (some p.pending_action_id) c x
    → (r : Option StaleReason) → IsCompared cfg p x r
    → Runs c (decide_again cfg m p i persona.customer_id action x r) (ResumeEffect cfg m p c)
unfolding decide_again
compared_runs c cfg m p i persona action x u resolved rebuilt captured (some r) q =
    close_stale_runs cfg m p i c r
compared_runs c cfg m p i persona action x u resolved rebuilt captured none
      (stored, parsed_as, fresh) =
    decide_again_runs cfg m p i c persona action x stored u resolved rebuilt captured parsed_as
      fresh

pub resume_confirmed_runs :
    (c : Core) (cfg : Config) (m : Moment) (p : PendingRecord) (i : RequestIdentity)
    (existing : Option ReceiptRecord)
    → existing ≡ receipt_at p.idempotency_key c.receipts
    → request_identity p.persona_id p.request_id ≡ some i
    → Runs c (resume_confirmed cfg m p i existing) (ResumeEffect cfg m p c)
unfolding resume_confirmed
resume_confirmed_runs c cfg m p i existing e identified = check_runs (no_receipt existing) _ (λ n.
    kept_runs (mapped_runs write_error (append_audit_runs c _)) (λ _ _.
      kept_runs (resolve_runs c cfg p) (λ persona resolved.
        kept_runs (rebuild_runs c cfg p i identified) (λ action rebuilt.
          kept_runs (capture_runs c cfg m persona.customer_id action (some p.pending_action_id))
            (λ x captured. kept_runs (compare_runs c cfg p x) (λ r q.
              compared_runs c cfg m p i persona action x (absent existing n e) resolved rebuilt
                captured r q))))))
  where
    absent :
        (o : Option ReceiptRecord)
        → no_receipt o ≡ true
        → o ≡ receipt_at p.idempotency_key c.receipts
        → receipt_at p.idempotency_key c.receipts ≡ none
    absent none n e = sym e
    absent (some r) n e = absurd (no n)
      where
        no : false ≡ true → ⊥
        no h = cc

-- What the load of U3 has found.
abbrev pub IsLoaded : String → Core → Loaded → Type 0
IsLoaded id c (replayed o) = o.idempotent_replay ≡ true
IsLoaded id c (confirmed p i existing) =
    (with_id id c.pendings ≡ some p)
    × (p.status ≡ PendingStatus.approved)
    × (existing ≡ receipt_at p.idempotency_key c.receipts)
    × (request_identity p.persona_id p.request_id ≡ some i)

receipt_of-In :
    (id : String) (rs : List ReceiptRecord) (r : ReceiptRecord)
    → receipt_of id rs ≡ some r
    → In r rs
unfolding receipt_of
receipt_of-In id [] r h = absurd (no h)
  where
    no : none ≡ some r → ⊥
    no h = cc
receipt_of-In id (x ∷ rs) r h = elim (Bool-cases (same_pending id x.pending_action_id)) [
  | inl e ↦ let q : some x ≡ some r = rw e at h in inl cc
  | inr e ↦ inr (receipt_of-In id rs r (rw e at h))
]

-- A receipt that was looked up is one of the tables.
pub receipt_for_runs :
    (c : Core) (p : PendingRecord)
    → Runs c (receipt_for p) (Kept c (λ o. (r : ReceiptRecord) → o ≡ some r → In r c.receipts))
unfolding receipt_for
receipt_for_runs c p = go (Store.is_executed p.status)
  where
    go :
        (b : Bool)
        → Runs c
            (if b then reads (find_receipt_for_pending p.pending_action_id) else pure none)
            (Kept c (λ o. (r : ReceiptRecord) → o ≡ some r → In r c.receipts))
    go true =
        weaken_runs (mapped_runs read_error (find_for_pending_runs c p.pending_action_id))
          (λ o d q. (q.0, λ r e. receipt_of-In p.pending_action_id c.receipts r (sym q.1 ∙ e)))
    go false = pure_runs (refl, λ r e. absurd (no r e))
      where
        no : (r : ReceiptRecord) → none ≡ some r → ⊥
        no r h = cc

replay_end_runs :
    (c : Core) (id : String) (p : PendingRecord) (i : RequestIdentity) (at : Instant)
    → Runs c (replay_end p i at) (Kept c (IsLoaded id c))
unfolding replay_end
replay_end_runs c id p i at = kept_runs (receipt_for_runs c p) (λ receipt _.
    kept_runs (mapped_runs write_error (append_audit_runs c _)) (λ _ _.
      kept_runs {P = λ o. o.idempotent_replay ≡ true}
        (lift_runs (pending_outcome p receipt true false)
          (λ o h. (refl, (pending_outcome-Truth p receipt true false o h).2)))
        (λ o h. pure_runs (refl, h))))

confirm_runs :
    (c : Core) (id : String) (p : PendingRecord) (i : RequestIdentity)
    → with_id id c.pendings ≡ some p
    → p.status ≡ PendingStatus.approved
    → request_identity p.persona_id p.request_id ≡ some i
    → Runs c (confirm p i) (Kept c (IsLoaded id c))
unfolding confirm
confirm_runs c id p i f s q =
    kept_runs (mapped_runs read_error (find_receipt_runs c p.idempotency_key))
      (λ r e. pure_runs (refl, (f, s, e, q)))

approved_status :
    (x : PendingStatus)
    → not (is_pending_approval x) ≡ true
    → is_terminal x ≡ false
    → x ≡ PendingStatus.approved
approved_status x h k = ground arith

load_on_runs :
    (c : Core) (id : String) (p : PendingRecord) (i : RequestIdentity) (at : Instant)
    → with_id id c.pendings ≡ some p
    → not (is_pending_approval p.status) ≡ true
    → request_identity p.persona_id p.request_id ≡ some i
    → Runs c (load_on p i at) (Kept c (IsLoaded id c))
load_on_runs c id p i at f n q = elim (Bool-cases (is_terminal p.status)) [
  | inl e ↦ rw e (replay_end_runs c id p i at)
  | inr e ↦ rw e (confirm_runs c id p i f (approved_status p.status n e) q)
]

pub load_approved_runs :
    (c : Core) (id : String) (at : Instant) → Runs c (load_approved id at) (Kept c (IsLoaded id c))
unfolding load_approved
load_approved_runs c id at = kept_runs (mapped_runs read_error (load_pending_runs c id)) (λ found e.
    required_runs found unknown_pending_action (λ p f. kept_runs (remember_runs c p) (λ _ _.
      check_runs (not (is_pending_approval p.status)) not_approved (λ n.
        required_runs (request_identity p.persona_id p.request_id)
          (attempt_failed FailureCode.invariant_violation)
          (λ i q. load_on_runs c id p i at (sym e ∙ f) n q)))))
