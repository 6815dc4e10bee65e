-- ===== src/Guard/Matrix.antt =====
-- Each check of the matrix of aftersales/guard.py: what it establishes, and the fact under each of
-- its refusals.
use knowledge_agent.Prelude.{
  String, Bool, true, false, not, ◌&&◌, Option, none, some, List, [], Result, ok, err, any,
  is_empty, In, Bool-cases, ◌≡◌, ◌⊎◌, inl, inr, refl, sym, ◌∙◌, arith, string_eq,
}
use knowledge_agent.Prelude.Dict.{lookup}
use knowledge_agent.Schema.{is_undelivered, is_cancelled, is_completed, is_return}
use knowledge_agent.Actions.{ActionName, ValidatedAction, reason_handoff_trigger}
use knowledge_agent.Policy.{Instant, PolicyRuleType, PolicyRecord}
use knowledge_agent.Policy.Catalog.{SelectError, value_error, precedence_conflict, select_policies}
use knowledge_agent.Derived.{DeriveError}
use knowledge_agent.Derived.Conflict.{derive_business_state_conflict}
use knowledge_agent.GuardState.{GuardState, OrderRow, OrderItemRow, CaseRow}
use knowledge_agent.Guard.Types.{ReasonCode}
use knowledge_agent.Guard.Decide.{
  selection, select_rules, handoff_rules, handoff_routed, check_handoff, evidence, check_conflict,
  delivery_established, deny_with, check_delivery, check_cases, routed_by, check_routing,
}
use knowledge_agent.Guard.Logic.{
  Shows, bind_shows, pure_shows, deny_if_shows, deny_shows, fail_shows, expect_shows, derived_shows,
  record_shows, deny_if_then, weaken_shows,
}
use knowledge_agent.Guard.Rules.{
  any_found, any_none, empty-eq, nonempty, conflict-rules, handoff_rules-In, handoff_rules-of,
  selected_some, selected_nothing, delivered-DeliveredOnce, undelivered-DeliveredOnce,
  undelivered-reason,
}
use knowledge_agent.Guard.Cause.{
  DeliveredOnce, ActiveCase, ReturnedBefore, RoutedTo, ReasonRouted, CauseIn, Entitled,
}

module _ (action : ValidatedAction) (state : GuardState) (records : List PolicyRecord)
    (now : Instant) (order : OrderRow) (item : OrderItemRow) where
  abbrev pub D : ReasonCode → Type 0
  D = CauseIn action state records now order item

  -- A selection among rules of the publication.
  pub select_rules-shows :
      (candidates : List PolicyRecord) (k : PolicyRuleType)
      → ((r : PolicyRecord) → In r candidates → In r records)
      → Shows D
          (select_rules candidates now k item)
          (λ top. select_policies candidates now k (some item.category) ≡ ok top)
  select_rules-shows candidates k sub =
      go (select_policies candidates now k (some item.category)) refl
    where
      go :
          (s : Result SelectError (List PolicyRecord))
          → select_policies candidates now k (some item.category) ≡ s
          → Shows D (selection s) (λ top. s ≡ ok top)
      go (ok top) e = pure_shows refl
      go (err value_error) e = fail_shows _
      go (err precedence_conflict) e =
          deny_shows ReasonCode.policy_conflict (conflict-rules records candidates now k item sub e)

  abbrev Routes : String → Bool → Type 0
  Routes trigger b =
      (b ≡ true → RoutedTo action state records now trigger item)
      × (b ≡ false → ¬ (RoutedTo action state records now trigger item))

  handoff_routed-shows :
      (trigger : String) → Shows D (handoff_routed trigger records now item) (Routes trigger)
  unfolding handoff_routed
  handoff_routed-shows trigger =
      bind_shows
        (select_rules-shows (handoff_rules trigger records) PolicyRuleType.handoff
          (λ r m. (handoff_rules-In trigger records r m).0))
        (λ top h. record_shows _ (
          pure_shows (
            λ n.
                let (r, (m, a)) =
                  selected_some _ now PolicyRuleType.handoff item.category top h n in
                let (m', t) = handoff_rules-In trigger records r m in (r, (m', a), t),
            λ n (r, (m, a), t).
                selected_nothing _ now PolicyRuleType.handoff item.category top h n r
                  (handoff_rules-of trigger records r m a.kind t, a),
          )))

  pub check_handoff-shows :
      Shows D
        (check_handoff action state item records now)
        (λ _. Entitled action state records now order item ActionName.escalate_to_human)
  unfolding check_handoff
  check_handoff-shows =
      bind_shows (expect_shows (lookup "handoff_trigger" action.args)) λ trigger asked.
        bind_shows (handoff_routed-shows trigger) λ routed (is_so, is_not). record_shows _ (
          deny_if_then _ _ (λ h. (trigger, asked, is_not (unrouted routed h)))
            λ h. record_shows _ (
              weaken_shows
                (deny_if_shows _ _ (λ t. let (x, m, e) = any_found _ state.tickets t in (x, m, e)))
                (λ _ t. (
                  trigger,
                  asked,
                  is_so (was_routed routed h),
                  λ (x, m, e). any_none _ state.tickets t x m e,
                ))))
    where
      unrouted : (b : Bool) → not b ≡ true → b ≡ false
      unrouted b h = ground arith

      was_routed : (b : Bool) → not b ≡ false → b ≡ true
      was_routed b h = ground arith

  abbrev pub Undisputed : Type 0
  Undisputed =
      evidence state.evidence.order_status
        (λ e. derive_business_state_conflict e state.evidence.logistics now)
      ≡ ok false

  pub check_conflict-shows :
      Shows D (check_conflict state now) (λ _. (is_empty state.packages ≡ true) ⊎ Undisputed)
  unfolding check_conflict
  check_conflict-shows = elim (Bool-cases (is_empty state.packages)) [
    | inl e ↦ rw e (pure_shows (inl refl))
    | inr e ↦ rw e (
        bind_shows (derived_shows _) λ conflict derived_as. record_shows _ (
          weaken_shows
            (deny_if_shows conflict ReasonCode.business_state_conflict
              (λ h. derived_as ∙ as_ok conflict true h))
            (λ _ h. inr (derived_as ∙ as_ok conflict false h))))
  ]
    where
      as_ok : (a b : Bool) → a ≡ b → ◌≡◌ {A = Result DeriveError Bool} (ok a) (ok b)
      as_ok a b h = rw h refl

  deny_with-shows :
      (o : Option ReasonCode)
      → ((r : ReasonCode) → o ≡ some r → D r)
      → Shows D (deny_with o) (λ _. o ≡ none)
  deny_with-shows none h = pure_shows refl
  deny_with-shows (some r) h = deny_shows r (h r refl)

  undelivered-D : (r : ReasonCode) → delivery_established order state.packages now ≡ some r → D r
  unfolding delivery_established
  undelivered-D r h = elim (Bool-cases (is_undelivered order.status)) [
    | inl e ↦ let q : ReasonCode.not_delivered ≡ r = inject r (rw e at h) in rw (← q) e
    | inr e ↦
        let h' = (rw e at h) in
        rw (undelivered-reason state.packages now r h')
          (undelivered-DeliveredOnce state.packages now r h')
  ]
    where
      inject :
          (r : ReasonCode) → some ReasonCode.not_delivered ≡ some r → ReasonCode.not_delivered ≡ r
      inject r h = cc

  delivered-facts :
      delivery_established order state.packages now ≡ none
      → (is_undelivered order.status ≡ false) × DeliveredOnce state.packages now
  unfolding delivery_established
  delivered-facts h = elim (Bool-cases (is_undelivered order.status)) [
    | inl e ↦ absurd (stuck (rw e at h))
    | inr e ↦ (e, delivered-DeliveredOnce state.packages now (rw e at h))
  ]
    where
      stuck : ◌≡◌ {A = Option ReasonCode} (some ReasonCode.not_delivered) none → ⊥
      stuck h = cc

  pub check_delivery-shows : Shows D (check_delivery order state.packages now) (λ _.
      (is_cancelled order.status ≡ false)
      × (is_undelivered order.status ≡ false)
      × DeliveredOnce state.packages now)
  unfolding check_delivery
  check_delivery-shows =
      deny_if_then _ _ (λ h. h)
        λ c. record_shows _ (
          weaken_shows (deny_with-shows _ undelivered-D)
            (λ _ h. (c, (delivered-facts h).0, (delivered-facts h).1)))

  pub check_cases-shows : Shows D (check_cases state) (λ _.
      ¬ (ActiveCase state.item_cases)
      × ¬ (ReturnedBefore state.item_cases)
      × (state.other_pendings ≡ []))
  unfolding check_cases
  check_cases-shows = record_shows _ (
      deny_if_then _ _ (any_found _ state.item_cases) λ active. record_shows _ (
        deny_if_then _ _ (λ h. completed_return h)
          λ returned. record_shows _ (
            weaken_shows (deny_if_shows _ _ (nonempty state.other_pendings)) (λ _ pending. (
              λ (c, m, e). any_none _ state.item_cases active c m e,
              λ (c, m, e, f). any_none _ state.item_cases returned c m (rw (e, f) refl),
              empty-eq state.other_pendings pending,
            )))))
    where
      completed_return :
          any (λ (c : CaseRow). is_return c.case_type && is_completed c.status) state.item_cases
            ≡ true
          → ReturnedBefore state.item_cases
      completed_return h =
          let (c, m, e) = any_found _ state.item_cases h in (c, m, ground arith, ground arith)

  abbrev Reason : Option String → Bool → Type 0
  Reason trigger b =
      (b ≡ true → (t : String) × (trigger ≡ some t) × RoutedTo action state records now t item)
      × (b ≡ false → (t : String) → trigger ≡ some t → ¬ (RoutedTo action state records now t item))

  routed_by-shows :
      (trigger : Option String) → Shows D (routed_by trigger records now item) (Reason trigger)
  routed_by-shows none = pure_shows (λ h. absurd (stuck h), λ h t e. absurd (nothing t e))
    where
      stuck : false ≡ true → ⊥
      stuck h = cc

      nothing : (t : String) → none ≡ some t → ⊥
      nothing t e = cc
  routed_by-shows (some t) = weaken_shows (handoff_routed-shows t) (λ b (is_so, is_not).
      (λ h. (t, refl, is_so h), λ h u e. let q : t ≡ u = inject u e in rw (← q) (is_not h)))
    where
      inject : (u : String) → some t ≡ some u → t ≡ u
      inject u e = cc

  pub check_routing-shows :
      Shows D
        (check_routing action item records now)
        (λ _. ¬ (ReasonRouted action state records now item))
  unfolding check_routing
  check_routing-shows = bind_shows (expect_shows (lookup "reason_code" action.args)) λ reason given.
      bind_shows (routed_by-shows (reason_handoff_trigger reason)) λ routed (is_so, is_not).
        record_shows _ (
          weaken_shows
            (deny_if_shows routed _ (λ h. let (t, e, r) = is_so h in (reason, t, given, e, r)))
            (λ _ h (reason', t, given', e, r).
              is_not h t (rw (← one_reason reason reason' (sym given ∙ given')) at e) r))
    where
      one_reason : (a b : String) → some a ≡ some b → a ≡ b
      one_reason a b h = cc
