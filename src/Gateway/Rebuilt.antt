-- ===== src/Gateway/Rebuilt.antt =====
-- What `_rebuild` of aftersales/action_gateway.py has checked: the action is the stored one.
use knowledge_agent.Prelude.{String, true, some, ok, string_eq, eqb→eq, ◌≡◌, sym, ap, ◌∙◌, arith}
use knowledge_agent.Actions.{
  ActionName, ValidatedAction, Arguments, Object, text, name_text, validate, registered,
}
use knowledge_agent.Actions.Contract.{validate-IsAccepted, registered-name_text}
use knowledge_agent.Ids.{RequestIdentity, request_identity}
use knowledge_agent.Store.{PendingRecord}
use knowledge_agent.Gateway.Execution.{Config, idempotency_key}
use knowledge_agent.Gateway.ResumeSteps.{same_stored}

-- The action of a run is the one that the row stores: its arguments are read and validated anew from
-- the stored text, of which they have the text and the digest, and its name, targets and key are
-- those of the row, whose persona and request are the identity.
pub record IsStored (cfg : Config) (p : PendingRecord) (i : RequestIdentity)
    (action : ValidatedAction) : Type 0 where
  pub arguments : Arguments
  pub stored_text : cfg.services.parse_args p.args_json ≡ some arguments
  pub valid : validate cfg.actions (text (name_text p.action_name)) arguments ≡ ok action
  pub same_name : action.action_name ≡ p.action_name
  pub same_text : cfg.services.args_text action.args ≡ p.args_json
  pub same_digest : cfg.services.codec.sha256 p.args_json ≡ p.args_sha256
  pub same_order : action.target_order_id ≡ p.target_order_id
  pub same_item : action.target_order_item_id ≡ p.target_order_item_id
  pub same_key : idempotency_key cfg.services i action ≡ p.idempotency_key
  pub of_request : (i.persona_id ≡ p.persona_id) × (i.request_id ≡ p.request_id)

identity_of_row :
    (persona request : String) (i : RequestIdentity)
    → request_identity persona request ≡ some i
    → (i.persona_id ≡ persona) × (i.request_id ≡ request)
unfolding request_identity
identity_of_row persona request i h = ground arith

name_text-injective :
    {a b : ActionName} → ◌≡◌ {A = Object} (text (name_text a)) (text (name_text b)) → a ≡ b
name_text-injective {a} {b} h =
    let t : name_text a ≡ name_text b = cc in
    let e : some a ≡ some b =
      sym (registered-name_text a) ∙ ap registered t ∙ registered-name_text b in
    cc

pub rebuilt-IsStored :
    (cfg : Config) (p : PendingRecord) (i : RequestIdentity) (action : ValidatedAction)
    (arguments : Arguments)
    → request_identity p.persona_id p.request_id ≡ some i
    → cfg.services.parse_args p.args_json ≡ some arguments
    → validate cfg.actions (text (name_text p.action_name)) arguments ≡ ok action
    → same_stored cfg.services p i action ≡ true
    → IsStored cfg p i action
unfolding same_stored
rebuilt-IsStored cfg p i action arguments q r v s =
    let accepted =
      validate-IsAccepted cfg.actions (text (name_text p.action_name)) arguments action v in
    let written : cfg.services.args_text action.args ≡ p.args_json = eqb→eq _ _ (ground arith) in
    record {
      arguments = arguments;
      stored_text = r;
      valid = v;
      same_name = sym (name_text-injective accepted.of_name);
      same_text = written;
      same_digest = rw written at (
          eqb→eq (cfg.services.codec.sha256 (cfg.services.args_text action.args)) p.args_sha256
            (ground arith));
      same_order = eqb→eq _ _ (ground arith);
      same_item = eqb→eq _ _ (ground arith);
      same_key = eqb→eq _ _ (ground arith);
      of_request = identity_of_row p.persona_id p.request_id i q;
    }
