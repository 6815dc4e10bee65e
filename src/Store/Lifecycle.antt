-- ===== src/Store/Lifecycle.antt =====
-- The life of a pending action (aftersales/action_store.py): which transitions the guarded updates
-- make, and what they keep.
use knowledge_agent.Prelude.{
  ℕ, ◌+◌, String, Bool, true, ◌&&◌, Option, some, leb, is_some, is_none, nat_eq, string_eq,
  option_eq, ◌≡◌, refl, ◌∙◌, arith,
}
use knowledge_agent.Schema.{PendingStatus}
use knowledge_agent.Policy.{Instant}
use knowledge_agent.Approval.{Approval}
use knowledge_agent.Outcome.{Code}
use knowledge_agent.Store.{
  PendingRecord, is_approve, same, status_fits, row_fits, decided, terminal_code, ended, linked,
}

-- The transitions P1 to P6 of one row.
pub data Step (p : PendingRecord) : PendingRecord → Type 0 where
  decision :
      (d : Approval) (approver : String) (decided_at at : Instant)
      → p.status ≡ PendingStatus.pending_approval
      → Step p (decided d approver decided_at at p)
  terminal :
      (s : PendingStatus) (c : Code) (at : Instant)
      → p.status ≡ PendingStatus.approved
      → terminal_code s c ≡ true
      → Step p (ended s c at p)
  execution :
      (receipt : String) (at : Instant)
      → p.status ≡ PendingStatus.approved
      → Step p (linked receipt at p)

-- Any number of transitions.
pub data Steps (p : PendingRecord) : PendingRecord → Type 0 where
  here : Steps p p
  later : {q r : PendingRecord} → Steps p q → Step q r → Steps p r

abbrev pub IsTerminal : PendingStatus → Type 0
IsTerminal PendingStatus.pending_approval = ⊥
IsTerminal PendingStatus.approved = ⊥
IsTerminal _ = Unit

terminal-fits :
    (s : PendingStatus) (c : Code) (a : Option Approval) (r : Option String)
    → terminal_code s c ≡ true
    → is_approve a ≡ true
    → is_none r ≡ true
    → status_fits s a r (some c) ≡ true
unfolding terminal_code status_fits
terminal-fits PendingStatus.stale c a r h e f = rw (e, f) refl
terminal-fits PendingStatus.denied c a r h e f = rw (e, f) refl
terminal-fits PendingStatus.failed c a r h e f = rw (e, f) refl
terminal-fits PendingStatus.pending_approval c a r h e f = cc
terminal-fits PendingStatus.approved c a r h e f = cc
terminal-fits PendingStatus.rejected c a r h e f = cc
terminal-fits PendingStatus.executed c a r h e f = cc

waiting-fits :
    (s : PendingStatus) (a : Option Approval) (r : Option String) (c : Option Code)
    → s ≡ PendingStatus.pending_approval
    → status_fits s a r c ≡ true
    → (is_none a ≡ true) × (is_none r ≡ true) × (is_none c ≡ true)
unfolding status_fits
waiting-fits s a r c e h =
    let k : status_fits PendingStatus.pending_approval a r c ≡ true = rw e at h in
    (ground arith, ground arith, ground arith)

approved-fits :
    (s : PendingStatus) (a : Option Approval) (r : Option String) (c : Option Code)
    → s ≡ PendingStatus.approved
    → status_fits s a r c ≡ true
    → (is_approve a ≡ true) × (is_none r ≡ true) × (is_none c ≡ true)
unfolding status_fits
approved-fits s a r c e h =
    let k : status_fits PendingStatus.approved a r c ≡ true = rw e at h in
    (ground arith, ground arith, ground arith)

fits-status :
    (p : PendingRecord)
    → row_fits p ≡ true
    → status_fits p.status p.approval_decision p.receipt_id p.outcome_code ≡ true
unfolding row_fits
fits-status p h = ground arith

conj : (a b c d : Bool) → a ≡ true → b ≡ true → c ≡ true → d ≡ true → (a && b && c && d) ≡ true
conj a b c d h k l m = ground arith

grown : (v : ℕ) → leb 1 (v + 1) ≡ true
grown v = ground arith

signed-fits :
    (p : PendingRecord)
    → row_fits p ≡ true
    → (same (is_none p.approval_decision) (is_none p.approver_ref) ≡ true)
      × (same (is_none p.approval_decision) (is_none p.decided_at) ≡ true)
unfolding row_fits
signed-fits p h = (ground arith, ground arith)

-- A transition keeps the CHECK constraints of the row.
pub Step-row_fits : (p q : PendingRecord) → Step p q → row_fits p ≡ true → row_fits q ≡ true
unfolding row_fits decided ended linked status_fits
Step-row_fits p q (decision Approval.approve b t u e) h =
    let (a, r, c) =
      waiting-fits p.status p.approval_decision p.receipt_id p.outcome_code e (fits-status p h) in
    conj _ _ _ _ (grown p.version) refl refl (rw r refl)
Step-row_fits p q (decision Approval.reject b t u e) h =
    let (a, r, c) =
      waiting-fits p.status p.approval_decision p.receipt_id p.outcome_code e (fits-status p h) in
    conj _ _ _ _ (grown p.version) refl refl (rw r refl)
Step-row_fits p q (terminal s c u e f) h =
    let (a, r, n) =
      approved-fits p.status p.approval_decision p.receipt_id p.outcome_code e (fits-status p h) in
    let (x, y) = signed-fits p h in
    conj _ _ _ _ (grown p.version) x y (terminal-fits s c p.approval_decision p.receipt_id f a r)
Step-row_fits p q (execution r u e) h =
    let (a, i, n) =
      approved-fits p.status p.approval_decision p.receipt_id p.outcome_code e (fits-status p h) in
    let (x, y) = signed-fits p h in conj _ _ _ _ (grown p.version) x y (rw (a, n) refl)

steps-row_fits : (p q : PendingRecord) → Steps p q → row_fits p ≡ true → row_fits q ≡ true
steps-row_fits p q here h = h
steps-row_fits p q (later {q = m} s t) h = Step-row_fits m q t (steps-row_fits p m s h)

executed-fits :
    (s : PendingStatus) (a : Option Approval) (r : Option String) (c : Option Code)
    → s ≡ PendingStatus.executed
    → status_fits s a r c ≡ true
    → (is_approve a ≡ true) × (is_some r ≡ true)
unfolding status_fits
executed-fits s a r c e h =
    let k : status_fits PendingStatus.executed a r c ≡ true = rw e at h in
    (ground arith, ground arith)

terminal_code-IsTerminal : (s : PendingStatus) (c : Code) → terminal_code s c ≡ true → IsTerminal s
unfolding terminal_code
terminal_code-IsTerminal PendingStatus.stale c h = tt
terminal_code-IsTerminal PendingStatus.denied c h = tt
terminal_code-IsTerminal PendingStatus.failed c h = tt
terminal_code-IsTerminal PendingStatus.rejected c h = tt
terminal_code-IsTerminal PendingStatus.executed c h = tt
terminal_code-IsTerminal PendingStatus.pending_approval c h = cc
terminal_code-IsTerminal PendingStatus.approved c h = cc

-- No transition leaves a terminal status.
pub no-Step : (p q : PendingRecord) → IsTerminal p.status → ¬ (Step p q)
no-Step p q t (decision d b u v e) = rw e at t
no-Step p q t (terminal s c u e f) = rw e at t
no-Step p q t (execution r u e) = rw e at t

-- how many transitions lead to a status
abbrev age : PendingStatus → ℕ
age PendingStatus.pending_approval = 0
age PendingStatus.approved = 1
age PendingStatus.rejected = 1
age _ = 2

terminal-age : (s : PendingStatus) (c : Code) → terminal_code s c ≡ true → age s ≡ 2
unfolding terminal_code
terminal-age PendingStatus.stale c h = refl
terminal-age PendingStatus.denied c h = refl
terminal-age PendingStatus.failed c h = refl
terminal-age PendingStatus.executed c h = refl
terminal-age PendingStatus.rejected c h = cc
terminal-age PendingStatus.pending_approval c h = cc
terminal-age PendingStatus.approved c h = cc

next-age : (v w : ℕ) (s t : PendingStatus) → age t ≡ age s + 1 → w ≡ v + age s → w + 1 ≡ v + age t
next-age v w s t h e = omega arith

Step-age :
    (v : ℕ) (p q : PendingRecord)
    → Step p q
    → p.version ≡ v + age p.status
    → q.version ≡ v + age q.status
unfolding decided ended linked
Step-age v p q (decision Approval.approve b t u e) h =
    next-age v p.version p.status PendingStatus.approved (rw e refl) h
Step-age v p q (decision Approval.reject b t u e) h =
    next-age v p.version p.status PendingStatus.rejected (rw e refl) h
Step-age v p q (terminal s c u e f) h =
    next-age v p.version p.status s (rw e (terminal-age s c f)) h
Step-age v p q (execution r u e) h =
    next-age v p.version p.status PendingStatus.executed (rw e refl) h

steps-age :
    (p q : PendingRecord)
    → p.status ≡ PendingStatus.pending_approval
    → Steps p q
    → q.version ≡ p.version + age q.status
steps-age p q e here = rw e (go p.version)
  where
    go : (n : ℕ) → n ≡ n + 0
    go n = omega arith
steps-age p q e (later {q = m} s t) = Step-age p.version m q t (steps-age p m e s)

-- A row that was created waiting for an approval and now is EXECUTED, whatever transitions it went
-- through: an operator approved it, it names its receipt, and it went through two transitions.
pub executed_approved :
    (p q : PendingRecord)
    → row_fits p ≡ true
    → p.status ≡ PendingStatus.pending_approval
    → Steps p q
    → q.status ≡ PendingStatus.executed
    → (is_approve q.approval_decision ≡ true)
      × (is_some q.receipt_id ≡ true)
      × (q.version ≡ p.version + 2)
executed_approved p q f e s x =
    let (a, r) =
      executed-fits q.status q.approval_decision q.receipt_id q.outcome_code x
        (fits-status q (steps-row_fits p q s f)) in
    (a, r, steps-age p q e s ∙ (rw x refl))
