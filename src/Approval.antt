-- ===== src/Approval.antt =====
-- aftersales/approval.py: the trusted operator's decision.
use knowledge_agent.Prelude.{
  String, Bool, true, false, ◌&&◌, List, member, string_eq, Eq, ◌≡◌, ◌↔◌, arith,
}
use knowledge_agent.Policy.{Instant}
use knowledge_agent.Ids.{is_pending_action_id, is_approver_ref}

pub data Approval : Type 0 where
  approve reject : Approval

abbrev pub approval_eqb : Approval → Approval → Bool
approval_eqb Approval.approve Approval.approve = true
approval_eqb Approval.reject Approval.reject = true
approval_eqb _ _ = false

pub approval_eqb_iff : (a b : Approval) → (approval_eqb a b ≡ true) ↔ (a ≡ b)
approval_eqb_iff Approval.approve b = ground arith
approval_eqb_iff Approval.reject b = ground arith

instance abbrev pub approval_eq : Eq Approval
approval_eq = record { eqb = approval_eqb; eqb_iff = approval_eqb_iff }

-- `decided_at` is the instant that the checked text denotes.
pub record ApprovalDecision : Type 0 where
  pub pending_action_id : String
  pub decision : Approval
  pub approver_ref : String
  pub decided_at : Instant

-- `ApprovalDecision.__post_init__` on these fields: does the construction succeed?
unfoldable pub constructs : ApprovalDecision → Bool
constructs d = is_pending_action_id d.pending_action_id && is_approver_ref d.approver_ref

-- `require_trusted_operator`, as a condition
unfoldable pub is_trusted : ApprovalDecision → List String → Bool
is_trusted d operators = member d.approver_ref operators
