-- ===== src/Guard/Rules.antt =====
-- Lemmas for the checks of aftersales/guard.py: what a selection of rules says about the rules that
-- apply, and what the tests on rows find.
use knowledge_agent.Prelude.{
  ◌≤◌, String, Bool, true, false, not, ◌||◌, Option, none, some, List, [], ◌∷◌, ok, err, any,
  is_empty, In, In-filter, filter-In, Bool-cases, ◌≡◌, ◌≢◌, ◌⊎◌, inl, inr, refl, sym, ◌∙◌, arith,
  if◌then◌else◌, ltb,
}
use knowledge_agent.Prelude.Dict.{lookup}
use knowledge_agent.Prelude.Int.{≤ℤ_antisymm}
use knowledge_agent.Policy.{Instant, PolicyRuleType, PolicyRecord}
use knowledge_agent.Policy.Catalog.{precedence_conflict, select_policies, blank_category}
use knowledge_agent.Policy.Tiers.{Applicable, Top}
use knowledge_agent.Policy.Selection.{
  select_policies-Top, select_policies-conflict, select_policies-empty,
}
use knowledge_agent.GuardState.{OrderItemRow, PackageRow}
use knowledge_agent.Guard.Decide.{handoff_rules, trigger_is, only_delivery, package_delivered}
use knowledge_agent.Guard.Types.{ReasonCode}
use knowledge_agent.Guard.Cause.{PolicyConflict, DeliveredOnce}

module _ {A : Type 0} where
  pub any_found : (p : A → Bool) (xs : List A) → any p xs ≡ true → (x : A) × In x xs × (p x ≡ true)
  unfolding any
  any_found p [] h = absurd (go h)
    where
      go : false ≡ true → ⊥
      go h = cc
  any_found p (x ∷ xs) h = elim (Bool-cases (p x)) [
    | inl e ↦ (x, inl refl, e)
    | inr e ↦ let (y, m, q) = any_found p xs (ground arith) in (y, inr m, q)
  ]

  pub any_none :
      (p : A → Bool) (xs : List A) → any p xs ≡ false → (x : A) → In x xs → p x ≡ true → ⊥
  unfolding any
  any_none p [] h x m e = elim m [ ]
  any_none p (y ∷ ys) h x (inl q) e = go (p y) (any p ys) (rw q at e) h
    where
      go : (a b : Bool) → a ≡ true → (a || b) ≡ false → ⊥
      go a b e h = ground arith
  any_none p (y ∷ ys) h x (inr m) e = any_none p ys (ground arith) x m e

  pub empty_or : (xs : List A) → (xs ≡ []) ⊎ ((x : A) × In x xs)
  empty_or [] = inl refl
  empty_or (x ∷ xs) = inr (x, inl refl)

  pub nonempty-In : (xs : List A) → not (is_empty xs) ≡ true → (x : A) × In x xs
  nonempty-In [] h = absurd (go h)
    where
      go : false ≡ true → ⊥
      go h = cc
  nonempty-In (x ∷ xs) h = (x, inl refl)

  pub empty-eq : (xs : List A) → not (is_empty xs) ≡ false → xs ≡ []
  empty-eq [] h = refl
  empty-eq (x ∷ xs) h = absurd (go h)
    where
      go : true ≡ false → ⊥
      go h = cc

  pub nonempty : (xs : List A) → not (is_empty xs) ≡ true → xs ≢ []
  nonempty [] h = absurd (go h)
    where
      go : false ≡ true → ⊥
      go h = cc
  nonempty (x ∷ xs) h = λ q. cc

module _ (records : List PolicyRecord) (t : Instant) (k : PolicyRuleType) (category : String) where
  -- Whatever was selected applies, and is of the highest priority.
  pub selected-Top :
      (top : List PolicyRecord) (r : PolicyRecord)
      → select_policies records t k (some category) ≡ ok top
      → In r top
      → Top records t k (some category) r
  selected-Top top r h m = ((select_policies-Top records t k (some category) top h).0 r).0 m

  not_blank :
      select_policies records t k (some category) ≡ ok [] → blank_category (some category) ≡ false
  unfolding select_policies
  not_blank h = ground arith

  pub selected_none :
      select_policies records t k (some category) ≡ ok []
      → (r : PolicyRecord) → ¬ (Applicable records t k (some category) r)
  selected_none h = (select_policies-empty records t k (some category) (not_blank h)).0 h

  pub selected_some :
      (top : List PolicyRecord)
      → select_policies records t k (some category) ≡ ok top
      → not (is_empty top) ≡ true
      → (r : PolicyRecord) × Applicable records t k (some category) r
  selected_some top h n = let (r, m) = nonempty-In top n in (r, (selected-Top top r h m).0)

  pub selected_nothing :
      (top : List PolicyRecord)
      → select_policies records t k (some category) ≡ ok top
      → not (is_empty top) ≡ false
      → (r : PolicyRecord) → ¬ (Applicable records t k (some category) r)
  selected_nothing top h n = selected_none (rw (empty-eq top n) at h)

-- A conflict among candidates of one kind is a conflict of the publication.
pub conflict-rules :
    (records candidates : List PolicyRecord) (t : Instant) (k : PolicyRuleType)
    (item : OrderItemRow)
    → ((r : PolicyRecord) → In r candidates → In r records)
    → select_policies candidates t k (some item.category) ≡ err precedence_conflict
    → PolicyConflict records t item
conflict-rules records candidates t k item sub h =
    let (r, s, (r_applies, above_r), (s_applies, above_s), d) =
      select_policies-conflict candidates t k (some item.category) h in
    record {
      kind = k;
      first = r;
      second = s;
      first_applies = (sub r r_applies.0, r_applies.1);
      second_applies = (sub s s_applies.0, s_applies.1);
      one_priority = ≤ℤ_antisymm r.priority s.priority (above_s r r_applies) (above_r s s_applies);
      differ = d;
    }

pub handoff_rules-In :
    (trigger : String) (records : List PolicyRecord) (r : PolicyRecord)
    → In r (handoff_rules trigger records)
    → In r records × (trigger_is trigger (lookup "trigger" r.params) ≡ true)
unfolding handoff_rules
handoff_rules-In trigger records r m = let (n, e) = In-filter _ records r m in (n, ground arith)

pub handoff_rules-of :
    (trigger : String) (records : List PolicyRecord) (r : PolicyRecord)
    → In r records
    → r.rule_type ≡ PolicyRuleType.handoff
    → trigger_is trigger (lookup "trigger" r.params) ≡ true
    → In r (handoff_rules trigger records)
unfolding handoff_rules
handoff_rules-of trigger records r m k h = filter-In _ records r m (rw (k) h)

pub delivered-DeliveredOnce :
    (packages : List PackageRow) (now : Instant)
    → only_delivery packages now ≡ none
    → DeliveredOnce packages now
delivered-DeliveredOnce [] now h = absurd (go h)
  where
    go : ◌≡◌ {A = Option ReasonCode} (some ReasonCode.delivery_not_established) none → ⊥
    go h = cc
delivered-DeliveredOnce (p ∷ q ∷ ps) now h = absurd (go h)
  where
    go : ◌≡◌ {A = Option ReasonCode} (some ReasonCode.delivery_not_established) none → ⊥
    go h = cc
delivered-DeliveredOnce (p ∷ []) now h = go p.delivered_at refl h
  where
    go :
        (o : Option Instant)
        → p.delivered_at ≡ o
        → package_delivered o now ≡ none
        → DeliveredOnce (p ∷ []) now
    go none e h = absurd (stuck h)
      where
        stuck : ◌≡◌ {A = Option ReasonCode} (some ReasonCode.delivery_not_established) none → ⊥
        stuck h = cc
    go (some t) e h = record {
      package_row = p;
      instant = t;
      only = refl;
      at = e;
      past = ground arith;
    }

DeliveredOnce-delivered :
    (packages : List PackageRow) (now : Instant)
    → DeliveredOnce packages now
    → only_delivery packages now ≡ none
DeliveredOnce-delivered packages now d = rw d.only (rw d.at (go d.instant d.past))
  where
    go :
        (t : Instant)
        → t ≤ now
        → (if ltb now t then some ReasonCode.delivery_not_established else none) ≡ none
    go t h = ground arith

pub undelivered-DeliveredOnce :
    (packages : List PackageRow) (now : Instant) (r : ReasonCode)
    → only_delivery packages now ≡ some r
    → ¬ (DeliveredOnce packages now)
undelivered-DeliveredOnce packages now r h d = go (sym h ∙ DeliveredOnce-delivered packages now d)
  where
    go : some r ≡ none → ⊥
    go h = cc

pub undelivered-reason :
    (packages : List PackageRow) (now : Instant) (r : ReasonCode)
    → only_delivery packages now ≡ some r
    → r ≡ ReasonCode.delivery_not_established
undelivered-reason [] now r h = cc
undelivered-reason (p ∷ q ∷ ps) now r h = cc
undelivered-reason (p ∷ []) now r h = go p.delivered_at h
  where
    go :
        (o : Option Instant)
        → package_delivered o now ≡ some r
        → r ≡ ReasonCode.delivery_not_established
    go none h = cc
    go (some t) h = ground arith
