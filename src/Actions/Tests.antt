-- ===== src/Actions/Tests.antt =====
-- Runs of the intent validator (aftersales/actions.py) and of the capability gate
-- (aftersales/capabilities.py), and their theorems at them.
use knowledge_agent.Prelude.{
  String, false, some, List, [], ◌∷◌, ok, err, In, inl, inr, any, all, filter, member, is_blank,
  ◌≡◌, refl,
}
use knowledge_agent.Prelude.Dict.{Dict, lookup, keys, meets, subset, same_set}
use knowledge_agent.Actions.{
  ActionName, name_text, Object, text, Arguments, mapping, Diagnostic, ValidatedAction, registered,
  text_keys, valid_value, check_value, check_args, validated, validate_items, validate_arguments,
  validate, identity_arguments, forbidden_arguments,
}
use knowledge_agent.Actions.Contract.{
  IsAccepted, items_of, validate-IsAccepted, validate_refuses_smuggled_names,
}
use knowledge_agent.Actions.Revalidation.{texts, validate_idem}
use knowledge_agent.Actions.Capabilities.{
  EffectiveCapabilities, distinct, subset_of, narrow, narrow_shrinks,
}

abbrev granted : List ActionName
granted = ActionName.create_return ∷ ActionName.escalate_to_human ∷ []

-- the keys in another order than the specification's
abbrev given : Arguments
given = mapping (
    (text "reason_code", text "no_longer_wanted")
    ∷ (text "order_id", text "O1")
    ∷ (text "order_item_id", text "I1")
    ∷ [])

abbrev accepted : ValidatedAction
accepted = record {
  action_name = ActionName.create_return;
  args = ("order_id", "O1") ∷ ("order_item_id", "I1") ∷ ("reason_code", "no_longer_wanted") ∷ [];
  target_order_id = "O1";
  target_order_item_id = "I1";
}

run : validate granted (text "create_return") given ≡ ok accepted
unfolding validate registered validate_arguments text_keys validate_items meets keys same_set subset
    check_args check_value valid_value validated lookup any all member is_blank
run = refl

validate-IsAccepted_example : IsAccepted granted (text "create_return") given accepted
validate-IsAccepted_example = validate-IsAccepted granted (text "create_return") given accepted run

validate_idem_example :
    validate granted
      (text (name_text ActionName.create_return))
      (mapping (items_of (texts accepted.args)))
    ≡ ok accepted
validate_idem_example = validate_idem granted (text "create_return") given accepted run

-- arguments that bring a customer id along
abbrev smuggled : Dict Object
smuggled = ("order_id", text "O1") ∷ ("customer_id", text "C1") ∷ []

smuggled_key : In "customer_id" (keys smuggled)
unfolding keys
smuggled_key = inr (inl refl)

validate_refuses_smuggled_names_example :
    (In "customer_id" identity_arguments
      → validate granted (text "create_return") (mapping (items_of smuggled))
        ≡ err Diagnostic.identity_argument)
    × (In "customer_id" forbidden_arguments
        → meets (keys smuggled) identity_arguments ≡ false
        → validate granted (text "create_return") (mapping (items_of smuggled))
          ≡ err Diagnostic.forbidden_action_argument)
validate_refuses_smuggled_names_example =
    validate_refuses_smuggled_names granted ActionName.create_return smuggled "customer_id"
      (inl refl) smuggled_key

abbrev static : EffectiveCapabilities
static = record {
  read_tools = "order" ∷ "logistics" ∷ [];
  actions = "create_return" ∷ "create_exchange" ∷ [];
}

abbrev narrowed : EffectiveCapabilities
narrowed = record { read_tools = "order" ∷ []; actions = "create_exchange" ∷ [] }

narrow_run : narrow static (some ("order" ∷ [])) (some ("create_exchange" ∷ [])) ≡ ok narrowed
unfolding narrow subset_of distinct any filter member
narrow_run = refl

abbrev tool : String
tool = "order"

abbrev tools : List String
tools = tool ∷ []

abbrev actions : List String
actions = "create_exchange" ∷ []

narrow_shrinks_example :
    (In tool narrowed.read_tools → In tool tools × In tool static.read_tools)
    × (In tool tools → In tool narrowed.read_tools)
    × (In tool narrowed.actions → In tool actions × In tool static.actions)
    × (In tool actions → In tool narrowed.actions)
narrow_shrinks_example = narrow_shrinks static tools actions narrowed narrow_run tool
