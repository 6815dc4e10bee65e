-- ===== src/Actions/Revalidation.antt =====
-- Validation is idempotent: the gateway validates every action again before it writes
-- (action_gateway.py, start_action and _rebuild), and that changes nothing.
use knowledge_agent.Prelude.{
  String, true, Option, none, some, List, [], ◌∷◌, ok, string_eq, member, In, member-In, ◌≡◌, refl,
  arith, all, any, ap, sym, ◌∙◌,
}
use knowledge_agent.Prelude.Dict.{Dict, lookup, keys, same_set, meets}
use knowledge_agent.Actions.{
  ActionName, name_text, Arguments, ActionParameter, spec_of, Object, text, mapping,
  ValidatedAction, valid_value, check_value, check_args, validated, validate_items, validate,
  in_enum, parameter, enum_parameter, return_reason_codes, exchange_reason_codes, handoff_triggers,
}
use knowledge_agent.Actions.Contract.{
  IsClosed, Conforms, items_of, validate-eq-items, validate-IsAccepted,
}

-- `dict(action.args)`
unfoldable pub texts : Dict String → Dict Object
texts [] = []
texts ((k, v) ∷ d) = (k, text v) ∷ texts d

in_enum_of :
    (o : Option (List String)) (v : String)
    → ((values : List String) → o ≡ some values → In v values)
    → in_enum o v ≡ true
in_enum_of none v h = refl
in_enum_of (some values) v h = (member-In v values).1 (h values refl)

valid_value_of : (p : ActionParameter) (v : String) → IsClosed p v → valid_value p v ≡ true
unfolding valid_value
valid_value_of p v c = rw (c.not_blank, in_enum_of p.enum v c.listed) (ground (arith, c.bounded))

create_return_items :
    (v₁ v₂ v₃ : String)
    → valid_value (parameter "order_id") v₁ ≡ true
    → valid_value (parameter "order_item_id") v₂ ≡ true
    → valid_value (enum_parameter "reason_code" return_reason_codes) v₃ ≡ true
    → validate_items ActionName.create_return
        (texts (("order_id", v₁) ∷ ("order_item_id", v₂) ∷ ("reason_code", v₃) ∷ []))
      ≡ ok (
          validated ActionName.create_return
            (("order_id", v₁) ∷ ("order_item_id", v₂) ∷ ("reason_code", v₃) ∷ []))
unfolding validate_items check_args check_value texts meets same_set keys lookup any all member
create_return_items v₁ v₂ v₃ h₁ h₂ h₃ = ground arith

create_exchange_items :
    (v₁ v₂ v₃ v₄ : String)
    → valid_value (parameter "order_id") v₁ ≡ true
    → valid_value (parameter "order_item_id") v₂ ≡ true
    → valid_value (parameter "target_sku") v₃ ≡ true
    → valid_value (enum_parameter "reason_code" exchange_reason_codes) v₄ ≡ true
    → validate_items ActionName.create_exchange (
        texts (
          ("order_id", v₁) ∷ ("order_item_id", v₂) ∷ ("target_sku", v₃) ∷ ("reason_code", v₄) ∷ []))
      ≡ ok (
          validated ActionName.create_exchange (
            ("order_id", v₁)
            ∷ ("order_item_id", v₂)
            ∷ ("target_sku", v₃)
            ∷ ("reason_code", v₄)
            ∷ []))
unfolding validate_items check_args check_value texts meets same_set keys lookup any all member
create_exchange_items v₁ v₂ v₃ v₄ h₁ h₂ h₃ h₄ = ground arith

escalate_to_human_items :
    (v₁ v₂ v₃ : String)
    → valid_value (parameter "order_id") v₁ ≡ true
    → valid_value (parameter "order_item_id") v₂ ≡ true
    → valid_value (enum_parameter "handoff_trigger" handoff_triggers) v₃ ≡ true
    → validate_items ActionName.escalate_to_human
        (texts (("order_id", v₁) ∷ ("order_item_id", v₂) ∷ ("handoff_trigger", v₃) ∷ []))
      ≡ ok (
          validated ActionName.escalate_to_human
            (("order_id", v₁) ∷ ("order_item_id", v₂) ∷ ("handoff_trigger", v₃) ∷ []))
unfolding validate_items check_args check_value texts meets same_set keys lookup any all member
escalate_to_human_items v₁ v₂ v₃ h₁ h₂ h₃ = ground arith

items-texts :
    (name : ActionName) (given : Dict Object) (args : Dict String)
    → Conforms (spec_of name).parameters given args
    → validate_items name (texts args) ≡ ok (validated name args)
items-texts ActionName.create_return given ((k₁, v₁) ∷ (k₂, v₂) ∷ (k₃, v₃) ∷ [])
      (e₁, c₁, l₁, (e₂, c₂, l₂, (e₃, c₃, l₃, u))) =
    rw (e₁, e₂, e₃)
      (create_return_items v₁ v₂ v₃ (valid_value_of _ v₁ c₁) (valid_value_of _ v₂ c₂)
        (valid_value_of _ v₃ c₃))
items-texts ActionName.create_return given [] h = elim h [ ]
items-texts ActionName.create_return given (a ∷ []) h = elim h.3 [ ]
items-texts ActionName.create_return given (a ∷ b ∷ []) h = elim h.3.3 [ ]
items-texts ActionName.create_return given (a ∷ b ∷ c ∷ d ∷ r) h = elim h.3.3.3 [ ]
items-texts ActionName.create_exchange given ((k₁, v₁) ∷ (k₂, v₂) ∷ (k₃, v₃) ∷ (k₄, v₄) ∷ [])
      (e₁, c₁, l₁, (e₂, c₂, l₂, (e₃, c₃, l₃, (e₄, c₄, l₄, u)))) =
    rw (e₁, e₂, e₃, e₄)
      (create_exchange_items v₁ v₂ v₃ v₄ (valid_value_of _ v₁ c₁) (valid_value_of _ v₂ c₂)
        (valid_value_of _ v₃ c₃) (valid_value_of _ v₄ c₄))
items-texts ActionName.create_exchange given [] h = elim h [ ]
items-texts ActionName.create_exchange given (a ∷ []) h = elim h.3 [ ]
items-texts ActionName.create_exchange given (a ∷ b ∷ []) h = elim h.3.3 [ ]
items-texts ActionName.create_exchange given (a ∷ b ∷ c ∷ []) h = elim h.3.3.3 [ ]
items-texts ActionName.create_exchange given (a ∷ b ∷ c ∷ d ∷ e ∷ r) h = elim h.3.3.3.3 [ ]
items-texts ActionName.escalate_to_human given ((k₁, v₁) ∷ (k₂, v₂) ∷ (k₃, v₃) ∷ [])
      (e₁, c₁, l₁, (e₂, c₂, l₂, (e₃, c₃, l₃, u))) =
    rw (e₁, e₂, e₃)
      (escalate_to_human_items v₁ v₂ v₃ (valid_value_of _ v₁ c₁) (valid_value_of _ v₂ c₂)
        (valid_value_of _ v₃ c₃))
items-texts ActionName.escalate_to_human given [] h = elim h [ ]
items-texts ActionName.escalate_to_human given (a ∷ []) h = elim h.3 [ ]
items-texts ActionName.escalate_to_human given (a ∷ b ∷ []) h = elim h.3.3 [ ]
items-texts ActionName.escalate_to_human given (a ∷ b ∷ c ∷ d ∷ r) h = elim h.3.3.3 [ ]

-- Validating an accepted action once more, from its own name and arguments, accepts it unchanged.
pub validate_idem :
    (effective : List ActionName) (o : Object) (arguments : Arguments) (a : ValidatedAction)
    → validate effective o arguments ≡ ok a
    → validate effective (text (name_text a.action_name)) (mapping (items_of (texts a.args))) ≡ ok a
validate_idem effective o arguments a h =
    let accepted = validate-IsAccepted effective o arguments a h in
    validate-eq-items effective a.action_name (texts a.args) accepted.granted
    ∙ items-texts a.action_name accepted.given a.args accepted.conforms
    ∙ ap ok (sym accepted.targets)
