-- ===== src/GuardState/Answered.antt =====
-- A failed read is never taken for an empty one (aftersales/guard_state.py, GuardStateReader.read).
use mathlib.Core.Path.{subst}
use knowledge_agent.Prelude.{String, Option, none, some, ok, ◌≡◌, refl}
use knowledge_agent.Actions.{ActionName, ValidatedAction}
use knowledge_agent.Policy.{Instant}
use knowledge_agent.GuardState.{OrderRow, OrderItemRow, InventoryRow, Rows, GuardState, state_of}
use knowledge_agent.GuardState.Cells.{ReadName, reads}
use knowledge_agent.GuardState.Reader.{Source, read_state}
use knowledge_agent.GuardState.Fetched.{InventoryOf}
use knowledge_agent.GuardState.Captured.{IsCaptured, OrderOf, RestOf, read_state-IsCaptured}
use knowledge_agent.GuardState.Isolation.{captured_item}

abbrev IsSome : {A : Type 0} → Option A → Type 0
IsSome none = ⊥
IsSome (some a) = Unit

-- The reads that a capture of an action makes once it has the order item.
abbrev pub IsAsked : ActionName → ReadName → Type 0
IsAsked ActionName.create_return ReadName.logistics = Unit
IsAsked ActionName.create_return ReadName.item_cases = Unit
IsAsked ActionName.create_return ReadName.pendings = Unit
IsAsked ActionName.create_exchange ReadName.logistics = Unit
IsAsked ActionName.create_exchange ReadName.item_cases = Unit
IsAsked ActionName.create_exchange ReadName.pendings = Unit
IsAsked ActionName.create_exchange ReadName.inventory = Unit
IsAsked ActionName.create_exchange ReadName.variants = Unit
IsAsked ActionName.escalate_to_human ReadName.tickets = Unit
IsAsked name r = ⊥

-- The reads behind a state: the order always, the item where there is an order, the rest where
-- there is an item.
abbrev pub IsNeeded : ActionName → GuardState → ReadName → Type 0
IsNeeded name state ReadName.order = Unit
IsNeeded name state ReadName.order_item = IsSome state.order
IsNeeded name state r = IsSome state.item × IsAsked name r

inventory_answered :
    (src : Source) (target : String) (o : Option InventoryRow)
    → InventoryOf src target o
    → src.answer ReadName.inventory ≡ reads
inventory_answered src target none h = h.0
inventory_answered src target (some row) h = h.0

RestOf-answered :
    (src : Source) (action : ValidatedAction) (item : OrderItemRow) (name : ActionName)
    (rows : Rows) (r : ReadName)
    → RestOf src action item name rows
    → IsAsked name r
    → src.answer r ≡ reads
RestOf-answered src action item ActionName.create_return rows ReadName.logistics h a = h.0.0
RestOf-answered src action item ActionName.create_return rows ReadName.item_cases h a = h.1.0
RestOf-answered src action item ActionName.create_return rows ReadName.pendings h a = h.2.0
RestOf-answered src action item ActionName.create_exchange rows ReadName.logistics h a = h.0.0
RestOf-answered src action item ActionName.create_exchange rows ReadName.item_cases h a = h.1.0
RestOf-answered src action item ActionName.create_exchange rows ReadName.pendings h a = h.2.0
RestOf-answered src action item ActionName.create_exchange rows ReadName.inventory (p, c, q, n, t)
      a =
    inventory_answered src n.0 rows.inventory n.2
RestOf-answered src action item ActionName.create_exchange rows ReadName.variants (p, c, q, n, t)
      a =
    n.3.0
RestOf-answered src action item ActionName.escalate_to_human rows ReadName.tickets (g, e, t, p, c)
      a =
    t.0
RestOf-answered src action item name rows r h a = absurd a

order_item_answered :
    (src : Source) (action : ValidatedAction) (o : Option OrderRow) (rows : Rows)
    → OrderOf src action o rows
    → IsSome o
    → src.answer ReadName.order_item ≡ reads
order_item_answered src action none rows h s = absurd s
order_item_answered src action (some order) rows (c, i, a, h) s = a

rest_answered :
    (src : Source) (action : ValidatedAction) (rows : Rows) (o : Option OrderItemRow) (r : ReadName)
    → OrderOf src action rows.order rows
    → rows.item ≡ o
    → IsSome o × IsAsked action.action_name r
    → src.answer r ≡ reads
rest_answered src action rows none r h e s = absurd s.0
rest_answered src action rows (some item) r h e s =
    RestOf-answered src action item action.action_name rows r
      (captured_item src action rows.order rows item h e).2 s.1

-- Every read behind a state that the reader returns was answered by the database, with its own
-- rows: where a read that the state depends on fails, or its rows are replaced, no state is returned.
pub read_state-answered :
    (src : Source) (action : ValidatedAction) (at : Instant) (state : GuardState) (r : ReadName)
    → read_state src action at ≡ ok state
    → IsNeeded action.action_name state r
    → src.answer r ≡ reads
unfolding state_of
read_state-answered src action at state r h s =
    let (rows, e, c) = read_state-IsCaptured src action at state h in
    go rows r c (subst (λ st. IsNeeded action.action_name st r) e s)
  where
    go :
        (rows : Rows) (r : ReadName)
        → IsCaptured src action rows
        → IsNeeded action.action_name (state_of action.action_name at rows) r
        → src.answer r ≡ reads
    go rows ReadName.order c s = c.0
    go rows ReadName.order_item c s = order_item_answered src action rows.order rows c.1 s
    go rows ReadName.logistics c s = rest_answered src action rows rows.item _ c.1 refl s
    go rows ReadName.item_cases c s = rest_answered src action rows rows.item _ c.1 refl s
    go rows ReadName.inventory c s = rest_answered src action rows rows.item _ c.1 refl s
    go rows ReadName.variants c s = rest_answered src action rows rows.item _ c.1 refl s
    go rows ReadName.tickets c s = rest_answered src action rows rows.item _ c.1 refl s
    go rows ReadName.pendings c s = rest_answered src action rows rows.item _ c.1 refl s
