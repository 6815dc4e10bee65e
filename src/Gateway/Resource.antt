-- ===== src/Gateway/Resource.antt =====
-- The business row of an execution (aftersales/action_gateway.py, _write_execution): the domain with
-- the case or the ticket of an action, and when its insert succeeds.
use knowledge_agent.Prelude.{
  String, Bool, true, false, Option, none, some, [], ◌∷◌, ◌++◌, ok, nat_eq, string_eq, ◌≡◌, refl,
  if◌then◌else◌,
}
use knowledge_agent.Schema.{CaseType}
use knowledge_agent.Actions.{ActionName, ValidatedAction}
use knowledge_agent.GuardState.Templates.{Database}
use knowledge_agent.Ids.{is_id}
use knowledge_agent.Store.{PendingRecord, Tables}
use knowledge_agent.Store.Inserts.{
  label_of, argument, case_row, ticket_row, cases_fit, tickets_fit, insert_after_sales_case,
  insert_handoff_ticket, insert_row,
}
use knowledge_agent.Gateway.Succeeds.{session}
use knowledge_agent.Gateway.Execution.{insert_resource}

-- the domain with one more case, where the case has a label and keeps the constraints
abbrev pub with_case :
    CaseType → String → ValidatedAction → String → String → Database → Option Database
with_case type id action customer at d = elim (label_of (argument "reason_code" action)) [
  | none ↦ none
  | some label ↦
      let cases = d.after_sales_cases ++ case_row id action customer type label at ∷ [] in
      if cases_fit cases then some (record d { after_sales_cases = cases }) else none
]

abbrev pub with_ticket : String → ValidatedAction → String → Database → Option Database
with_ticket id action at d = elim (argument "handoff_trigger" action) [
  | none ↦ none
  | some trigger ↦
      let tickets = d.human_handoff_tickets ++ ticket_row id action trigger at ∷ [] in
      if tickets_fit tickets then some (record d { human_handoff_tickets = tickets }) else none
]

-- The domain with the row that the action stands for.
unfoldable pub with_resource :
    ActionName → String → ValidatedAction → String → String → Database → Option Database
with_resource ActionName.create_return id action customer at d =
    with_case CaseType.return id action customer at d
with_resource ActionName.create_exchange id action customer at d =
    with_case CaseType.exchange id action customer at d
with_resource ActionName.escalate_to_human id action customer at d = with_ticket id action at d

-- what a test in front of a result leaves
pub some_if :
    (b : Bool) {x y : Database} → (if b then some x else none) ≡ some y → (b ≡ true) × (x ≡ y)
some_if true h = (refl, cc)
some_if false h = absurd (no h)
  where
    no : {y : Database} → none ≡ some y → ⊥
    no h = cc

case-ok :
    (type : CaseType) (id : String) (action : ValidatedAction) (customer at : String) (t : Tables)
    (l : Option PendingRecord) (d : Database)
    → is_id id ≡ true
    → with_case type id action customer at t.domain ≡ some d
    → insert_after_sales_case id action customer type at (session t l)
      ≡ (ok tt, session (record t { domain = d }) l)
unfolding insert_after_sales_case insert_row
case-ok type id action customer at t l d h k =
    labelled (label_of (argument "reason_code" action)) refl
  where
    labelled :
        (o : Option String)
        → label_of (argument "reason_code" action) ≡ o
        → insert_after_sales_case id action customer type at (session t l)
          ≡ (ok tt, session (record t { domain = d }) l)
    labelled none e = absurd (no (rw (e, with_case) at k))
      where
        no : {y : Database} → none ≡ some y → ⊥
        no h = cc
    labelled (some label) e =
        let (kept, same) = some_if _ (rw (e, with_case) at k) in rw (e, h, kept) (rw same refl)

ticket-ok :
    (id : String) (action : ValidatedAction) (at : String) (t : Tables) (l : Option PendingRecord)
    (d : Database)
    → is_id id ≡ true
    → with_ticket id action at t.domain ≡ some d
    → insert_handoff_ticket id action at (session t l)
      ≡ (ok tt, session (record t { domain = d }) l)
unfolding insert_handoff_ticket insert_row
ticket-ok id action at t l d h k = triggered (argument "handoff_trigger" action) refl
  where
    triggered :
        (o : Option String)
        → argument "handoff_trigger" action ≡ o
        → insert_handoff_ticket id action at (session t l)
          ≡ (ok tt, session (record t { domain = d }) l)
    triggered none e = absurd (no (rw (e, with_ticket) at k))
      where
        no : {y : Database} → none ≡ some y → ⊥
        no h = cc
    triggered (some trigger) e =
        let (kept, same) = some_if _ (rw (e, with_ticket) at k) in rw (h, e, kept) (rw same refl)

pub resource-ok :
    (name : ActionName) (id : String) (action : ValidatedAction) (customer at : String) (t : Tables)
    (l : Option PendingRecord) (d : Database)
    → is_id id ≡ true
    → with_resource name id action customer at t.domain ≡ some d
    → insert_resource name id action customer at (session t l)
      ≡ (ok tt, session (record t { domain = d }) l)
unfolding with_resource insert_resource
resource-ok ActionName.create_return id action customer at t l d h k =
    case-ok CaseType.return id action customer at t l d h k
resource-ok ActionName.create_exchange id action customer at t l d h k =
    case-ok CaseType.exchange id action customer at t l d h k
resource-ok ActionName.escalate_to_human id action customer at t l d h k =
    ticket-ok id action at t l d h k
