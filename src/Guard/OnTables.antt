-- ===== src/Guard/OnTables.antt =====
-- The Guard over the tables: Guard.capture and Guard.decide of aftersales/guard.py with the reader
-- of aftersales/guard_state.py.
use mathlib.Core.Path.{subst}
use knowledge_agent.Prelude.{
  String, true, false, Option, none, some, List, [], ok, ◌≡◌, ◌≢◌, ◌⊎◌, inl, inr, refl, sym, ◌∙◌,
  ap, In, string_eq, Bool-cases, not, ◌||◌, ◌==◌, eqb→eq, arith,
}
use knowledge_agent.Schema.{CaseStatus, case_status, is_active}
use knowledge_agent.Actions.{ActionName, ValidatedAction}
use knowledge_agent.Policy.{Instant, PolicyRecord}
use knowledge_agent.GuardState.{
  OrderRow, OrderItemRow, CaseRow, PendingRow, Rows, GuardState, state_of,
}
use knowledge_agent.GuardState.Cells.{Cell, string, CaseCells, PendingCells}
use knowledge_agent.GuardState.Templates.{
  select_cases, select_pendings, selects_pending, not_excluded, cell_is,
}
use knowledge_agent.GuardState.Reader.{Source, read_state}
use knowledge_agent.GuardState.Returns.{Mapped-to}
use knowledge_agent.GuardState.Decoders.{OfCase, OfPending, string_inj}
use knowledge_agent.GuardState.Fetched.{CasesOf, PendingsOf}
use knowledge_agent.GuardState.Captured.{IsCaptured, read_state-IsCaptured, RestOf}
use knowledge_agent.GuardState.Selected.{
  Owned, CaseOf, case-selected, pending-selected, cell_is-string,
}
use knowledge_agent.GuardState.Isolation.{captured_item, order-owned}
use knowledge_agent.Guard.Types.{
  GuardDecisionKind, GuardDecision, ActionRiskPolicy, CatalogSnapshot,
}
use knowledge_agent.Guard.Decide.{decide}
use knowledge_agent.Guard.Cause.{Granted, AfterSales, Entitled, ActiveCase}
use knowledge_agent.Guard.Verdict.{decide-Truthful}

-- What the tables hold where a return or an exchange is granted: the customer's order, no active
-- case of the item, and no other open request for it.
pub record Cleared (src : Source) (action : ValidatedAction) : Type 0 where
  pub owned : Owned src.database src.customer_id action.target_order_id
  pub no_active_case :
      (c : CaseCells) (text : String) (status : CaseStatus)
      → CaseOf src.database action.target_order_item_id c
      → c.status ≡ string text
      → case_status text ≡ some status
      → is_active status ≡ false
  pub no_open_request :
      (p : PendingCells) (id status : String)
      → In p src.database.pending_actions
      → p.target_order_item_id ≡ string action.target_order_item_id
      → p.status ≡ string status
      → (status ≡ "PENDING_APPROVAL") ⊎ (status ≡ "APPROVED")
      → p.pending_action_id ≡ string id
      → src.exclude ≡ some id

-- The rows of cases and of requests, as they are read for a return and for an exchange.
abbrev CasesAndPendings : Source → ValidatedAction → Rows → Type 0
CasesAndPendings src action rows =
    CasesOf src action.target_order_item_id rows.cases
    × PendingsOf src action.target_order_item_id rows.pendings

RestOf-cases :
    (src : Source) (action : ValidatedAction) (item : OrderItemRow) (name : ActionName)
    (rows : Rows)
    → name ≢ ActionName.escalate_to_human
    → RestOf src action item name rows
    → CasesAndPendings src action rows
RestOf-cases src action item ActionName.create_return rows n (p, c, q, t) = (c, q)
RestOf-cases src action item ActionName.create_exchange rows n (p, c, q, r, t) = (c, q)
RestOf-cases src action item ActionName.escalate_to_human rows n h = absurd (n refl)

Entitled-AfterSales :
    (action : ValidatedAction) (state : GuardState) (records : List PolicyRecord) (now : Instant)
    (order : OrderRow) (item : OrderItemRow) (name : ActionName)
    → name ≢ ActionName.escalate_to_human
    → Entitled action state records now order item name
    → AfterSales action state records now order item
Entitled-AfterSales action state records now order item ActionName.create_return n h = h.0
Entitled-AfterSales action state records now order item ActionName.create_exchange n h = h.0
Entitled-AfterSales action state records now order item ActionName.escalate_to_human n h =
    absurd (n refl)

active-case :
    (src : Source) (item_id : String) (cs : List CaseRow) (c : CaseCells) (text : String)
    (status : CaseStatus)
    → CasesOf src item_id cs
    → ¬ (ActiveCase cs)
    → CaseOf src.database item_id c
    → c.status ≡ string text
    → case_status text ≡ some status
    → is_active status ≡ false
active-case src item_id cs c text status h n m e q =
    let (row, i, d) =
      Mapped-to OfCase (select_cases src.database item_id) cs h.1 c
        (case-selected src.database item_id c m) in
    let (s, cell, reads) = d.3 in
    let s_text : s ≡ text = string_inj s text (sym cell ∙ e) in
    let row_status : row.status ≡ status =
      same row.status status (sym reads ∙ (ap case_status s_text ∙ q)) in
    elim (Bool-cases (is_active status)) [
      | inl a ↦ absurd (n (row, i, subst (λ st. is_active st ≡ true) (sym row_status) a))
      | inr a ↦ a
    ]
  where
    same : (a b : CaseStatus) → some a ≡ some b → a ≡ b
    same a b h = cc

open-request :
    (src : Source) (item_id : String) (ps : List PendingRow) (p : PendingCells)
    → PendingsOf src item_id ps
    → ps ≡ []
    → In p src.database.pending_actions
    → selects_pending item_id src.exclude p ≡ false
open-request src item_id ps p h n m = elim (Bool-cases (selects_pending item_id src.exclude p)) [
  | inl e ↦
      let (row, i, d) =
        Mapped-to OfPending (select_pendings src.database item_id src.exclude) ps h.1 p
          (pending-selected src.database item_id src.exclude p m e) in
      absurd (go ps row n i)
  | inr e ↦ e
]
  where
    go : (ps : List PendingRow) (row : PendingRow) → ps ≡ [] → In row ps → ⊥
    go ps row n i = rw n at i

waits-or :
    (c : Cell) (status : String)
    → c ≡ string status
    → (status ≡ "PENDING_APPROVAL") ⊎ (status ≡ "APPROVED")
    → (cell_is c "PENDING_APPROVAL" || cell_is c "APPROVED") ≡ true
waits-or c status h (inl e) =
    let w = cell_is-string c "PENDING_APPROVAL" (h ∙ ap string e) in ground (arith, w)
waits-or c status h (inr e) =
    let w = cell_is-string c "APPROVED" (h ∙ ap string e) in ground (arith, w)

excluded :
    (exclude : Option String) (c : Cell) (id : String)
    → c ≡ string id
    → not_excluded exclude c ≡ false
    → exclude ≡ some id
excluded none c id h e = absurd (go e)
  where
    go : true ≡ false → ⊥
    go h = cc
excluded (some x) c id h e =
    let q : not (id == x) ≡ false = subst (λ k. not_excluded (some x) k ≡ false) h e in
    ap some (sym (eqb→eq id x (ground (arith, q))))

-- a request of the item that waits or is approved is the one that is left out
unselected :
    (item_id : String) (exclude : Option String) (p : PendingCells) (id status : String)
    → selects_pending item_id exclude p ≡ false
    → p.target_order_item_id ≡ string item_id
    → p.status ≡ string status
    → (status ≡ "PENDING_APPROVAL") ⊎ (status ≡ "APPROVED")
    → p.pending_action_id ≡ string id
    → exclude ≡ some id
unfolding selects_pending
unselected item_id exclude p id status h i s w q =
    let t = cell_is-string p.target_order_item_id item_id i in
    let o = waits-or p.status status s w in
    excluded exclude p.pending_action_id id q (ground (arith, h, t, o))

Granted-Cleared :
    (src : Source) (action : ValidatedAction) (at : Instant) (rows : Rows)
    (records : List PolicyRecord)
    → action.action_name ≢ ActionName.escalate_to_human
    → IsCaptured src action rows
    → Granted action (state_of action.action_name at rows) records at
    → Cleared src action
unfolding state_of
Granted-Cleared src action at rows records n c (order, item, o, i, g) =
    let a =
      Entitled-AfterSales action (state_of action.action_name at rows) records at order item
        action.action_name n g in
    let (ids, orders, r) = captured_item src action rows.order rows item c.1 i in
    let (cs, ps) = RestOf-cases src action item action.action_name rows n r in
    record {
      owned = (order-owned src action rows.order rows order c.1 o).1;
      no_active_case = λ c text status.
          active-case src action.target_order_item_id rows.cases c text status cs a.no_active_case;
      no_open_request = λ p id status m i s w q.
          unselected action.target_order_item_id src.exclude p id status
            (open-request src action.target_order_item_id rows.pendings p ps a.no_pending m) i s w
            q;
    }

-- Where the reader returns a state and the Guard does not deny a return or an exchange on it, the
-- order is stored for the trusted customer, no stored case of the item has an active status, and
-- every request for the item that is stored as waiting or approved is the one left out.
pub decide-Cleared :
    (src : Source) (action : ValidatedAction) (at : Instant) (state : GuardState)
    (policy : CatalogSnapshot) (risk : ActionRiskPolicy) (d : GuardDecision)
    → action.action_name ≢ ActionName.escalate_to_human
    → read_state src action at ≡ ok state
    → decide action state policy risk at ≡ ok d
    → d.decision ≢ GuardDecisionKind.deny
    → Cleared src action
decide-Cleared src action at state policy risk d n h e k =
    let (rows, q, c) = read_state-IsCaptured src action at state h in
    elim (decide-Truthful action state policy risk at d e) [
      | inl (deny, cause) ↦ absurd (k deny)
      | inr (kind, reason, g) ↦
          Granted-Cleared src action at rows policy.records n c
            (subst (λ s. Granted action s policy.records at) q g)
    ]
