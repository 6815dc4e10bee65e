-- ===== src/Guard/Cause.antt =====
-- What the reason codes of aftersales/guard.py mean, and what a granted action is entitled to,
-- described over the captured rows and the rules in force, without the order of the checks.
use knowledge_agent.Prelude.{
  ◌≤◌, ◌<◌, String, true, false, none, some, List, [], ◌∷◌, ok, In, ◌≡◌, ◌≢◌, ◌⊎◌,
}
use knowledge_agent.Prelude.Dict.{lookup}
use knowledge_agent.Schema.{
  is_undelivered, is_cancelled, is_active, is_completed, is_return, is_open,
}
use knowledge_agent.Actions.{ActionName, ValidatedAction, reason_handoff_trigger}
use knowledge_agent.Policy.{Instant, PolicyRuleType, PolicyRecord}
use knowledge_agent.Policy.Catalog.{canonical}
use knowledge_agent.Policy.Tiers.{Applicable, Top}
use knowledge_agent.Derived.Window.{WindowFact, derive_item_window_eligibility}
use knowledge_agent.Derived.Conflict.{derive_business_state_conflict}
use knowledge_agent.GuardState.{
  GuardState, OrderRow, OrderItemRow, PackageRow, CaseRow, InventoryRow, TicketRow,
}
use knowledge_agent.Guard.Types.{ReasonCode}
use knowledge_agent.Guard.Decide.{trigger_is, evidence, compatible}

-- One package, signed for at an instant that is not in the future.
pub record DeliveredOnce (packages : List PackageRow) (now : Instant) : Type 0 where
  pub package_row : PackageRow
  pub instant : Instant
  pub only : packages ≡ package_row ∷ []
  pub at : package_row.delivered_at ≡ some instant
  pub past : instant ≤ now

abbrev pub ActiveCase : List CaseRow → Type 0
ActiveCase cases = (c : CaseRow) × In c cases × (is_active c.status ≡ true)

abbrev pub ReturnedBefore : List CaseRow → Type 0
ReturnedBefore cases =
    (c : CaseRow) × In c cases × (is_return c.case_type ≡ true) × (is_completed c.status ≡ true)

abbrev pub OpenTicket : List TicketRow → Type 0
OpenTicket tickets = (t : TicketRow) × In t tickets × (is_open t.status ≡ true)

abbrev pub window_kind : ActionName → PolicyRuleType
window_kind ActionName.create_exchange = PolicyRuleType.exchange_window
window_kind _ = PolicyRuleType.return_window

-- Two applicable rules of one kind and one priority whose parameters differ.
pub record PolicyConflict (records : List PolicyRecord) (now : Instant) (item : OrderItemRow)
    : Type 0 where
  pub kind : PolicyRuleType
  pub first : PolicyRecord
  pub second : PolicyRecord
  pub first_applies : Applicable records now kind (some item.category) first
  pub second_applies : Applicable records now kind (some item.category) second
  pub one_priority : first.priority ≡ second.priority
  pub differ : canonical first.params ≢ canonical second.params

module _ (action : ValidatedAction) (state : GuardState) (records : List PolicyRecord)
    (now : Instant) where
  -- A handoff rule for the trigger applies to the item.
  abbrev pub RoutedTo : String → OrderItemRow → Type 0
  RoutedTo trigger item =
      (r : PolicyRecord) × Applicable records now PolicyRuleType.handoff (some item.category) r
      × (trigger_is trigger (lookup "trigger" r.params) ≡ true)

  -- The reason given by the user is one that a person has to look at.
  abbrev pub ReasonRouted : OrderItemRow → Type 0
  ReasonRouted item =
      (reason : String) × (trigger : String) × (lookup "reason_code" action.args ≡ some reason)
      × (reason_handoff_trigger reason ≡ some trigger)
      × RoutedTo trigger item

  abbrev pub NonReturnable : OrderItemRow → Type 0
  NonReturnable item =
      (r : PolicyRecord) × Applicable records now PolicyRuleType.non_returnable (some item.category)
        r

  -- The window of a rule of the highest priority among those that apply.
  abbrev pub Window : PolicyRuleType → OrderItemRow → WindowFact → Type 0
  Window kind item w =
      (r : PolicyRecord) × Top records now kind (some item.category) r
      × (evidence state.evidence.category
            (λ e. derive_item_window_eligibility state.evidence.delivered_at r now e)
          ≡ ok w)

  abbrev pub ClosedWindow : PolicyRuleType → OrderItemRow → Type 0
  ClosedWindow kind item = (w : WindowFact) × Window kind item w × (w.within ≡ false)

  abbrev pub OpenWindow : PolicyRuleType → OrderItemRow → Type 0
  OpenWindow kind item = (w : WindowFact) × Window kind item w × (w.within ≡ true)

  -- The fact under a DENY code, for an order and an item that exist.
  abbrev pub CauseIn : OrderRow → OrderItemRow → ReasonCode → Type 0
  CauseIn order item ReasonCode.business_state_conflict =
      evidence state.evidence.order_status
        (λ e. derive_business_state_conflict e state.evidence.logistics now)
      ≡ ok true
  CauseIn order item ReasonCode.order_status_ineligible = is_cancelled order.status ≡ true
  CauseIn order item ReasonCode.not_delivered = is_undelivered order.status ≡ true
  CauseIn order item ReasonCode.delivery_not_established = ¬ (DeliveredOnce state.packages now)
  CauseIn order item ReasonCode.active_after_sales_case_exists = ActiveCase state.item_cases
  CauseIn order item ReasonCode.item_already_returned = ReturnedBefore state.item_cases
  CauseIn order item ReasonCode.pending_request_exists = state.other_pendings ≢ []
  CauseIn order item ReasonCode.handoff_required = ReasonRouted item
  CauseIn order item ReasonCode.non_returnable = NonReturnable item
  CauseIn order item ReasonCode.no_applicable_policy =
      (r : PolicyRecord)
      → ¬ (Applicable records now (window_kind action.action_name) (some item.category) r)
  CauseIn order item ReasonCode.policy_conflict = PolicyConflict records now item
  CauseIn order item ReasonCode.return_window_closed =
      ClosedWindow PolicyRuleType.return_window item
  CauseIn order item ReasonCode.exchange_window_closed =
      ClosedWindow PolicyRuleType.exchange_window item
  CauseIn order item ReasonCode.exchange_target_invalid =
      (target : String) × (lookup "target_sku" action.args ≡ some target)
      × ((target ≡ item.sku) ⊎ (state.target_inventory ≡ none))
  CauseIn order item ReasonCode.exchange_target_incompatible =
      (target : String) × (lookup "target_sku" action.args ≡ some target)
      × (compatible state.variants item.sku target ≡ false)
  CauseIn order item ReasonCode.inventory_unavailable =
      (row : InventoryRow) × (state.target_inventory ≡ some row)
      × (row.available_qty < item.quantity)
  CauseIn order item ReasonCode.handoff_not_required =
      (trigger : String) × (lookup "handoff_trigger" action.args ≡ some trigger)
      × ¬ (RoutedTo trigger item)
  CauseIn order item ReasonCode.handoff_ticket_exists = OpenTicket state.tickets
  CauseIn order item _ = ⊥

  -- The fact under a DENY code.
  abbrev pub Cause : ReasonCode → Type 0
  Cause ReasonCode.order_not_accessible = state.order ≡ none
  Cause ReasonCode.order_item_not_in_order = state.item ≡ none
  Cause r =
      (order : OrderRow) × (item : OrderItemRow) × (state.order ≡ some order)
      × (state.item ≡ some item)
      × CauseIn order item r

  -- What R-3 to R-9 and E-3 to E-9 ask for.
  pub record AfterSales (order : OrderRow) (item : OrderItemRow) : Type 0 where
    pub undisputed :
        evidence state.evidence.order_status
          (λ e. derive_business_state_conflict e state.evidence.logistics now)
        ≡ ok false
    pub not_cancelled : is_cancelled order.status ≡ false
    pub not_undelivered : is_undelivered order.status ≡ false
    pub delivered_once : DeliveredOnce state.packages now
    pub no_active_case : ¬ (ActiveCase state.item_cases)
    pub no_return : ¬ (ReturnedBefore state.item_cases)
    pub no_pending : state.other_pendings ≡ []
    pub not_routed : ¬ (ReasonRouted item)

  pub record Target (item : OrderItemRow) : Type 0 where
    pub sku : String
    pub asked : lookup "target_sku" action.args ≡ some sku
    pub another : sku ≢ item.sku
    pub same_group : compatible state.variants item.sku sku ≡ true
    pub row : InventoryRow
    pub stocked : state.target_inventory ≡ some row
    pub enough : item.quantity ≤ row.available_qty

  -- Every prerequisite of the action, for an order and an item that exist.
  abbrev pub Entitled : OrderRow → OrderItemRow → ActionName → Type 0
  Entitled order item ActionName.create_return =
      AfterSales order item × ¬ (NonReturnable item) × OpenWindow PolicyRuleType.return_window item
  Entitled order item ActionName.create_exchange =
      AfterSales order item × Target item × OpenWindow PolicyRuleType.exchange_window item
  Entitled order item ActionName.escalate_to_human =
      (trigger : String) × (lookup "handoff_trigger" action.args ≡ some trigger)
      × RoutedTo trigger item
      × ¬ (OpenTicket state.tickets)

  abbrev pub Granted : Type 0
  Granted =
      (order : OrderRow) × (item : OrderItemRow) × (state.order ≡ some order)
      × (state.item ≡ some item)
      × Entitled order item action.action_name
