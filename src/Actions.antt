-- ===== src/Actions.antt =====
-- aftersales/actions.py: the three actions of `s6-actions/1`, their closed parameters and the
-- validator of an action intent. aftersales/arguments.py: the identity names and the length bound.
pub mod Contract
pub mod Revalidation
pub mod Capabilities
mod Tests
use knowledge_agent.Prelude.{
  ℕ, String, Bool, true, false, not, ◌&&◌, ◌||◌, Option, none, some, List, [], ◌∷◌, ◌++◌, map,
  Result, ok, err, Eq, ◌==◌, string_eq, if◌then◌else◌, ltb, length, all, member, In, is_blank,
  codes, ◌≡◌, ◌↔◌, arith,
}
use knowledge_agent.Prelude.Dict.{Dict, lookup, keys, same_set, meets}

pub data ActionName : Type 0 where
  create_return create_exchange escalate_to_human : ActionName

abbrev pub name_text : ActionName → String
name_text ActionName.create_return = "create_return"
name_text ActionName.create_exchange = "create_exchange"
name_text ActionName.escalate_to_human = "escalate_to_human"

-- ACTION_NAMES, in its order
abbrev pub action_names : List ActionName
action_names =
    ActionName.create_return ∷ ActionName.create_exchange ∷ ActionName.escalate_to_human ∷ []

abbrev pub name_eqb : ActionName → ActionName → Bool
name_eqb ActionName.create_return ActionName.create_return = true
name_eqb ActionName.create_exchange ActionName.create_exchange = true
name_eqb ActionName.escalate_to_human ActionName.escalate_to_human = true
name_eqb _ _ = false

pub name_eqb_iff : (a b : ActionName) → (name_eqb a b ≡ true) ↔ (a ≡ b)
name_eqb_iff ActionName.create_return b = ground arith
name_eqb_iff ActionName.create_exchange b = ground arith
name_eqb_iff ActionName.escalate_to_human b = ground arith

instance abbrev pub name_eq : Eq ActionName
name_eq = record { eqb = name_eqb; eqb_iff = name_eqb_iff }

abbrev pub return_reason_codes : List String
return_reason_codes = "no_longer_wanted" ∷ "size_or_spec_mismatch" ∷ "quality_issue" ∷ []

abbrev pub exchange_reason_codes : List String
exchange_reason_codes = "size_or_spec_mismatch" ∷ "quality_issue" ∷ []

abbrev pub handoff_triggers : List String
handoff_triggers = "quality_dispute" ∷ []

-- REASON_HANDOFF_TRIGGER.get(reason)
unfoldable pub reason_handoff_trigger : String → Option String
reason_handoff_trigger reason = if reason == "quality_issue" then some "quality_dispute" else none

pub data ResourceType : Type 0 where
  after_sales_case human_handoff_ticket : ResourceType

abbrev pub identity_arguments : List String
identity_arguments = "customer_id" ∷ "persona_id" ∷ "subject_id" ∷ "user_id" ∷ "role" ∷ []

-- FORBIDDEN_ACTION_ARGUMENT_NAMES: identity and authority, approval and control, system ids
abbrev pub forbidden_arguments : List String
forbidden_arguments =
    identity_arguments
    ++ "is_admin" ∷ "admin" ∷ "manager" ∷ "operator" ∷ "approver" ∷ "approver_ref"
      ∷ "approval_required" ∷ "approved" ∷ "approval" ∷ "approval_decision" ∷ "skip_approval"
      ∷ "force" ∷ "override" ∷ "decision" ∷ "status" ∷ "idempotency_key" ∷ "request_id" ∷ "run_id"
      ∷ "case_id" ∷ "ticket_id" ∷ "pending_action_id" ∷ "receipt_id" ∷ []

pub record ActionParameter : Type 0 where
  pub name : String
  pub enum : Option (List String)

pub record ActionSpec : Type 0 where
  pub name : ActionName
  pub parameters : List ActionParameter
  pub resource_type : ResourceType

abbrev pub parameter : String → ActionParameter
parameter n = record { name = n; enum = none }

abbrev pub enum_parameter : String → List String → ActionParameter
enum_parameter n values = record { name = n; enum = some values }

-- The registry that `build_action_registry` builds, by name.
abbrev pub spec_of : ActionName → ActionSpec
spec_of ActionName.create_return = record {
  name = ActionName.create_return;
  parameters =
      parameter "order_id"
      ∷ parameter "order_item_id"
      ∷ enum_parameter "reason_code" return_reason_codes
      ∷ [];
  resource_type = ResourceType.after_sales_case;
}
spec_of ActionName.create_exchange = record {
  name = ActionName.create_exchange;
  parameters =
      parameter "order_id"
      ∷ parameter "order_item_id"
      ∷ parameter "target_sku"
      ∷ enum_parameter "reason_code" exchange_reason_codes
      ∷ [];
  resource_type = ResourceType.after_sales_case;
}
spec_of ActionName.escalate_to_human = record {
  name = ActionName.escalate_to_human;
  parameters =
      parameter "order_id"
      ∷ parameter "order_item_id"
      ∷ enum_parameter "handoff_trigger" handoff_triggers
      ∷ [];
  resource_type = ResourceType.human_handoff_ticket;
}

abbrev pub parameter_names : List ActionParameter → List String
parameter_names [] = []
parameter_names (p ∷ ps) = p.name ∷ parameter_names ps

-- `name in registry`, with the spec's name
unfoldable pub registered : String → Option ActionName
registered s =
    if s == "create_return"
    then some ActionName.create_return
    else if s == "create_exchange"
    then some ActionName.create_exchange
    else if s == "escalate_to_human"
    then some ActionName.escalate_to_human
    else none

-- A Python value whose type the validator asks for: a `str`, or any other.
pub data Object : Type 0 where
  text : String → Object
  other : Object

-- The `arguments` of an intent: no mapping, or a mapping with its items in order.
pub data Arguments : Type 0 where
  not_mapping : Arguments
  mapping : List (Object × Object) → Arguments

pub data Diagnostic : Type 0 where
  unknown_function action_not_allowed invalid_action_arguments : Diagnostic
  identity_argument forbidden_action_argument : Diagnostic

-- The canonical text and the digest of a `ValidatedAction` are functions of `args` (its
-- constructor refuses any other), so the model keeps the arguments alone.
pub record ValidatedAction : Type 0 where
  pub action_name : ActionName
  pub args : Dict String
  pub target_order_id : String
  pub target_order_item_id : String

abbrev pub max_argument_length : ℕ
max_argument_length = 128

-- `all(isinstance(key, str) for key in arguments)`, with the items that it leaves
unfoldable pub text_keys : List (Object × Object) → Option (Dict Object)
text_keys [] = some []
text_keys ((text k, v) ∷ items) = elim (text_keys items) [
  | none ↦ none
  | some d ↦ some ((k, v) ∷ d)
]
text_keys ((other, v) ∷ items) = none

abbrev pub in_enum : Option (List String) → String → Bool
in_enum none value = true
in_enum (some values) value = member value values

unfoldable pub valid_value : ActionParameter → String → Bool
valid_value p value =
    not (is_blank value)
    && not (ltb max_argument_length (length (codes value)))
    && in_enum p.enum value

-- One value: a missing one cannot occur, since the keys are the parameters.
unfoldable pub check_value : ActionParameter → Option Object → Option String
check_value p (some (text value)) = if valid_value p value then some value else none
check_value p _ = none

-- step 6: the loop over `spec.parameters`
unfoldable pub check_args : List ActionParameter → Dict Object → Option (Dict String)
check_args [] arguments = some []
check_args (p ∷ ps) arguments =
    let rest = check_args ps arguments in
    elim (check_value p (lookup p.name arguments)) [
      | none ↦ none
      | some value ↦ elim rest [ none ↦ none | some args ↦ some ((p.name, value) ∷ args) ]
    ]

abbrev pub or_empty : Option String → String
or_empty none = ""
or_empty (some s) = s

-- `args["order_id"]` and `args["order_item_id"]`, which every specification declares
unfoldable pub validated : ActionName → Dict String → ValidatedAction
validated name args = record {
  action_name = name;
  args = args;
  target_order_id = or_empty (lookup "order_id" args);
  target_order_item_id = or_empty (lookup "order_item_id" args);
}

abbrev pub finish : ActionName → Option (Dict String) → Result Diagnostic ValidatedAction
finish name none = err Diagnostic.invalid_action_arguments
finish name (some args) = ok (validated name args)

-- steps 3 to 6
unfoldable pub validate_items : ActionName → Dict Object → Result Diagnostic ValidatedAction
validate_items name d =
    if meets (keys d) identity_arguments
    then err Diagnostic.identity_argument
    else if meets (keys d) forbidden_arguments
    then err Diagnostic.forbidden_action_argument
    else if not (same_set (keys d) (parameter_names (spec_of name).parameters))
    then err Diagnostic.invalid_action_arguments
    else finish name (check_args (spec_of name).parameters d)

abbrev pub validate_text_items :
    ActionName → Option (Dict Object) → Result Diagnostic ValidatedAction
validate_text_items name none = err Diagnostic.invalid_action_arguments
validate_text_items name (some d) = validate_items name d

-- step 2
unfoldable pub validate_arguments : ActionName → Arguments → Result Diagnostic ValidatedAction
validate_arguments name not_mapping = err Diagnostic.invalid_action_arguments
validate_arguments name (mapping items) = validate_text_items name (text_keys items)

-- step 1, on the specification found
abbrev pub validate_name :
    List ActionName → Option ActionName → Arguments → Result Diagnostic ValidatedAction
validate_name effective none arguments = err Diagnostic.unknown_function
validate_name effective (some name) arguments =
    if member name effective
    then validate_arguments name arguments
    else err Diagnostic.action_not_allowed

-- `ActionIntentValidator.validate`, for a validator built with the effective actions.
unfoldable pub validate : List ActionName → Object → Arguments → Result Diagnostic ValidatedAction
validate effective other arguments = err Diagnostic.unknown_function
validate effective (text s) arguments = validate_name effective (registered s) arguments
