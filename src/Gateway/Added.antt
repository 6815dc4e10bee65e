-- ===== src/Gateway/Added.antt =====
-- The business row of an execution (aftersales/action_gateway.py, _write_execution), described apart
-- from the code that builds it.
use knowledge_agent.Prelude.{
  String, Option, none, some, [], ◌∷◌, ◌++◌, nat_eq, string_eq, ◌≡◌, refl, List, In, ◌==◌, eqb→eq,
  Bool-cases, inl, inr, sym,
}
use knowledge_agent.Prelude.Dict.{Dict, lookup}
use knowledge_agent.Prelude.Int.{pos}
use knowledge_agent.GuardState.Cells.{string, integer, CaseCells}
use knowledge_agent.Schema.{CaseType}
use knowledge_agent.Actions.{ActionName, ValidatedAction}
use knowledge_agent.GuardState.Templates.{Database}
use knowledge_agent.Store.Inserts.{reason_label, case_type_text, argument}
use knowledge_agent.Gateway.Resource.{with_case, with_ticket, with_resource, some_if}

-- the label of the reason of an action
abbrev labels : List (String × String)
labels =
    ("no_longer_wanted", "不想要了（无理由退货）")
    ∷ ("size_or_spec_mismatch", "尺码或规格不合适")
    ∷ ("quality_issue", "商品质量问题")
    ∷ []

reason_label-labels : (x y : String) → reason_label x ≡ some y → In (x, y) labels
unfolding reason_label
reason_label-labels x y h = elim (Bool-cases (x == "no_longer_wanted")) [
  | inl e ↦
      let q : some "不想要了（无理由退货）" ≡ some y = rw e at h in
      let a = eqb→eq x "no_longer_wanted" e in inl cc
  | inr e ↦ elim (Bool-cases (x == "size_or_spec_mismatch")) [
    | inl f ↦
        let q : some "尺码或规格不合适" ≡ some y = rw (e, f) at h in
        let a = eqb→eq x "size_or_spec_mismatch" f in inr (inl cc)
    | inr f ↦ elim (Bool-cases (x == "quality_issue")) [
      | inl g ↦
          let q : some "商品质量问题" ≡ some y = rw (e, f, g) at h in
          let a = eqb→eq x "quality_issue" g in inr (inr (inl cc))
      | inr g ↦ absurd (no (rw (e, f, g) at h))
    ]
  ]
]
  where
    no : none ≡ some y → ⊥
    no h = cc

-- The case of an execution: it is open, and of the customer, the order and the item.
abbrev pub new_case : String → String → String → String → String → String → String → CaseCells
new_case id order item customer type label at = record {
  case_id = string id;
  order_id = string order;
  order_item_id = string item;
  customer_id = string customer;
  case_type = string type;
  status = string "待处理";
  reason = string label;
  created_at = string at;
  updated_at = string at;
  version = integer (pos 1);
}

abbrev pub IsCaseAdded :
    String → String → String → Dict String → String → String → String → Database → Database → Type 0
IsCaseAdded type order item args id customer at d after =
    (reason : String) × (label : String) × (lookup "reason_code" args ≡ some reason)
    × In (reason, label) labels
    × (after ≡ record d {
      after_sales_cases = d.after_sales_cases ++ new_case id order item customer type label at ∷ [];
    })

abbrev pub IsTicketAdded :
    String → String → Dict String → String → String → Database → Database → Type 0
IsTicketAdded order item args id at d after =
    (trigger : String) × (lookup "handoff_trigger" args ≡ some trigger)
    × (after ≡ record d {
      human_handoff_tickets =
          d.human_handoff_tickets
          ++ record {
            ticket_id = string id;
            order_id = string order;
            order_item_id = string item;
            handoff_trigger = string trigger;
            status = string "待处理";
            created_at = string at;
            updated_at = string at;
            version = integer (pos 1);
          }
            ∷ [];
    })

-- The domain has the row that an action stands for, and is otherwise as it was.
abbrev pub IsResourceAdded :
    ActionName
    → String
    → String
    → Dict String
    → String
    → String
    → String
    → Database
    → Database
    → Type 0
IsResourceAdded ActionName.create_return order item args id customer at d after =
    IsCaseAdded "return" order item args id customer at d after
IsResourceAdded ActionName.create_exchange order item args id customer at d after =
    IsCaseAdded "exchange" order item args id customer at d after
IsResourceAdded ActionName.escalate_to_human order item args id customer at d after =
    IsTicketAdded order item args id at d after

case-added :
    (type : CaseType) (action : ValidatedAction) (id customer at : String) (d after : Database)
    → with_case type id action customer at d ≡ some after
    → IsCaseAdded
        (case_type_text type)
        action.target_order_id
        action.target_order_item_id
        action.args
        id
        customer
        at
        d
        after
case-added type action id customer at d after k = reasoned (argument "reason_code" action) refl
  where
    no : {y : Database} → none ≡ some y → ⊥
    no h = cc

    labelled :
        (reason : String) (o : Option String)
        → argument "reason_code" action ≡ some reason
        → reason_label reason ≡ o
        → IsCaseAdded
            (case_type_text type)
            action.target_order_id
            action.target_order_item_id
            action.args
            id
            customer
            at
            d
            after
    labelled reason none r e = absurd (no (rw (r, e, with_case) at k))
    labelled reason (some label) r e =
        let (kept, same) = some_if _ (rw (r, e, with_case) at k) in
        (reason, label, r, reason_label-labels reason label e, sym same)

    reasoned :
        (o : Option String)
        → argument "reason_code" action ≡ o
        → IsCaseAdded
            (case_type_text type)
            action.target_order_id
            action.target_order_item_id
            action.args
            id
            customer
            at
            d
            after
    reasoned none r = absurd (no (rw (r, with_case) at k))
    reasoned (some reason) r = labelled reason (reason_label reason) r refl

ticket-added :
    (action : ValidatedAction) (id at : String) (d after : Database)
    → with_ticket id action at d ≡ some after
    → IsTicketAdded action.target_order_id action.target_order_item_id action.args id at d after
ticket-added action id at d after k = triggered (argument "handoff_trigger" action) refl
  where
    no : {y : Database} → none ≡ some y → ⊥
    no h = cc

    triggered :
        (o : Option String)
        → argument "handoff_trigger" action ≡ o
        → IsTicketAdded action.target_order_id action.target_order_item_id action.args id at d after
    triggered none r = absurd (no (rw (r, with_ticket) at k))
    triggered (some trigger) r =
        let (kept, same) = some_if _ (rw (r, with_ticket) at k) in (trigger, r, sym same)

pub resource-added :
    (name : ActionName) (action : ValidatedAction) (id customer at : String) (d after : Database)
    → with_resource name id action customer at d ≡ some after
    → IsResourceAdded name action.target_order_id action.target_order_item_id action.args id
        customer at d after
unfolding with_resource
resource-added ActionName.create_return action id customer at d after k =
    case-added CaseType.return action id customer at d after k
resource-added ActionName.create_exchange action id customer at d after k =
    case-added CaseType.exchange action id customer at d after k
resource-added ActionName.escalate_to_human action id customer at d after k =
    ticket-added action id at d after k
