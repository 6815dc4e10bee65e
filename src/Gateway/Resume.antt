-- ===== src/Gateway/Resume.antt =====
-- aftersales/action_gateway.py: T2, execute_approved, with its compensation; resume_action and
-- get_outcome.
use knowledge_agent.Prelude.{
  String, Bool, true, false, not, ◌&&◌, Option, none, some, List, Result, ok, err, string_eq,
  if◌then◌else◌,
}
use knowledge_agent.Schema.{PendingStatus, FailureCode}
use knowledge_agent.Policy.{Instant}
use knowledge_agent.Ids.{RequestIdentity, is_pending_action_id}
use knowledge_agent.Approval.{Approval, ApprovalDecision}
use knowledge_agent.Outcome.{ActionStatus, failure, ActionOutcome, is_waiting}
use knowledge_agent.Store.{
  PendingRecord, AuditEventName, AuditDecision, closed, Tables, Session, Raise, attempt_failed,
  guard_failed, sqlite_error, integrity_error, value_error, unknown_pending_action, contract_error,
  Store, ◌>>=◌, ◌>>◌, next_fault, append_audit, load_pending, transition_terminal,
}
use knowledge_agent.Gateway.{
  World, mapped, lift, required, failed, failure_of, pending_outcome, receipt_for, resume_event,
  record_decision,
}
use knowledge_agent.Gateway.Execution.{Config, Moment}
use knowledge_agent.Gateway.Start.{begin, best_effort, failure_event}
use knowledge_agent.Gateway.ResumeSteps.{
  Loaded, load_approved, resume_confirmed, replayed, confirmed,
}

-- the writes of `_compensate_resume`: P6
unfoldable pub resume_failure :
    PendingRecord → RequestIdentity → FailureCode → Bool → Instant → Store (Unit {0})
resume_failure p identity code from at = do
  transition_terminal p.pending_action_id p.version PendingStatus.failed (failure code) at
  append_audit
      (resume_event p identity at (failure_event from) none (some (closed (failure code))) none)
  append_audit (
      resume_event p identity at AuditEventName.action_not_executed
        (some (AuditDecision.outcome ActionStatus.failed)) (some (closed (failure code))) none)

-- The handlers of `execute_approved`, where the row was not confirmed as approved.
abbrev pub fail_plain :
    String → Option PendingRecord → FailureCode → World → Result Raise ActionOutcome × World
fail_plain id p code w = (ok (failure_of p code id), w)

-- The handlers, once the row was confirmed.
unfoldable pub fail_confirmed :
    PendingRecord
    → RequestIdentity
    → Instant
    → String
    → FailureCode
    → Bool
    → World
    → Result Raise ActionOutcome × World
fail_confirmed p identity at id code from w =
    (ok (failure_of (some p) code id), best_effort (resume_failure p identity code from at) w)

abbrev pub commit_resume :
    PendingRecord
    → RequestIdentity
    → Instant
    → String
    → Tables
    → ActionOutcome
    → Session
    → Bool × List Bool
    → Result Raise ActionOutcome × World
commit_resume p identity at id before o s (true, rest) =
    fail_confirmed p identity at id FailureCode.transaction_failed false
      (record { committed = before; faults = rest })
commit_resume p identity at id before o s (false, rest) =
    (ok o, record { committed = s.tables; faults = rest })

abbrev pub finish_confirmed :
    PendingRecord
    → RequestIdentity
    → Instant
    → String
    → Tables
    → Result Raise ActionOutcome × Session
    → Result Raise ActionOutcome × World
finish_confirmed p identity at id before (ok o, s) =
    commit_resume p identity at id before o s (next_fault s.faults)
finish_confirmed p identity at id before (err (attempt_failed c), s) =
    fail_confirmed p identity at id c false (record { committed = before; faults = s.faults })
finish_confirmed p identity at id before (err (guard_failed c), s) =
    fail_confirmed p identity at id c true (record { committed = before; faults = s.faults })
finish_confirmed p identity at id before (err sqlite_error, s) =
    fail_confirmed p identity at id FailureCode.transaction_failed false
      (record { committed = before; faults = s.faults })
finish_confirmed p identity at id before (err integrity_error, s) =
    fail_confirmed p identity at id FailureCode.transaction_failed false
      (record { committed = before; faults = s.faults })
finish_confirmed p identity at id before (err e, s) =
    (err e, record { committed = before; faults = s.faults })

abbrev pub commit_replay :
    String
    → Tables
    → ActionOutcome
    → Session
    → Bool × List Bool
    → Result Raise ActionOutcome × World
commit_replay id before o s (true, rest) =
    fail_plain id s.loaded FailureCode.transaction_failed
      (record { committed = before; faults = rest })
commit_replay id before o s (false, rest) = (ok o, record { committed = s.tables; faults = rest })

-- `execute_approved` from what U3 gives
abbrev pub finish_loaded :
    Config
    → Moment
    → String
    → Tables
    → Result Raise Loaded × Session
    → Result Raise ActionOutcome × World
finish_loaded cfg m id before (ok (replayed o), s) =
    commit_replay id before o s (next_fault s.faults)
finish_loaded cfg m id before (ok (confirmed p identity existing), s) =
    finish_confirmed p identity m.now id before (resume_confirmed cfg m p identity existing s)
finish_loaded cfg m id before (err (attempt_failed c), s) =
    fail_plain id s.loaded c (record { committed = before; faults = s.faults })
finish_loaded cfg m id before (err (guard_failed c), s) =
    fail_plain id s.loaded c (record { committed = before; faults = s.faults })
finish_loaded cfg m id before (err sqlite_error, s) =
    fail_plain id s.loaded FailureCode.transaction_failed
      (record { committed = before; faults = s.faults })
finish_loaded cfg m id before (err integrity_error, s) =
    fail_plain id s.loaded FailureCode.transaction_failed
      (record { committed = before; faults = s.faults })
finish_loaded cfg m id before (err e, s) = (err e, record { committed = before; faults = s.faults })

unfoldable pub resume_run :
    Config → Moment → String → Tables → Bool × List Bool → Result Raise ActionOutcome × World
resume_run cfg m id before (true, rest) = (
  ok (failed none none FailureCode.transaction_failed (some id)),
  record { committed = before; faults = rest },
)
resume_run cfg m id before (false, rest) =
    finish_loaded cfg m id before (load_approved id m.now (begin before rest))

-- T2, `execute_approved`
unfoldable pub execute_approved :
    Config → Moment → String → World → Result Raise ActionOutcome × World
execute_approved cfg m id w =
    if is_pending_action_id id
    then resume_run cfg m id w.committed (next_fault w.faults)
    else (err value_error, w)

abbrev is_approval : Approval → Bool
is_approval Approval.approve = true
is_approval Approval.reject = false

abbrev pub go_on_resume :
    Config
    → Moment
    → ApprovalDecision
    → Result Raise ActionOutcome × World
    → Result Raise ActionOutcome × World
go_on_resume cfg m d (err e, w) = (err e, w)
go_on_resume cfg m d (ok o, w) =
    if is_approval d.decision
      && not o.decision_conflict
      && is_waiting o.status
      && o.approval_recorded
    then execute_approved cfg m d.pending_action_id w
    else (ok o, w)

-- `resume_action`: T1, and T2 where an approval waits; `decided` is the instant of T1
unfoldable pub resume_action :
    Config
    → List String
    → Instant
    → Moment
    → ApprovalDecision
    → World
    → Result Raise ActionOutcome × World
resume_action cfg operators decided m d w =
    go_on_resume cfg m d (record_decision operators d decided w)

-- `except _AttemptFailed: raise ActionContractError`
abbrev pub contract_of : Raise → Raise
contract_of (attempt_failed c) = contract_error
contract_of (guard_failed c) = contract_error
contract_of e = e

unfoldable pub view_on : String → Store ActionOutcome
view_on id = do
  found ← load_pending id
  p ← required found unknown_pending_action
  (λ s.
      mapped contract_of
        ((do receipt ← receipt_for p; lift (pending_outcome p receipt false false)) s))

abbrev pub rolled_back :
    Tables → Result Raise ActionOutcome × Session → Result Raise ActionOutcome × World
rolled_back before (r, s) = (r, record { committed = before; faults = s.faults })

abbrev pub viewed : String → Tables → Bool × List Bool → Result Raise ActionOutcome × World
viewed id before (true, rest) = (err sqlite_error, record { committed = before; faults = rest })
viewed id before (false, rest) = rolled_back before (view_on id (begin before rest))

-- `get_outcome`
unfoldable pub get_outcome : String → World → Result Raise ActionOutcome × World
get_outcome id w =
    if is_pending_action_id id
    then viewed id w.committed (next_fault w.faults)
    else (err value_error, w)
