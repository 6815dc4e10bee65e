-- ===== src/Policy/Selection.antt =====
-- What select_policies of aftersales/policy_catalog.py chooses.
use knowledge_agent.Prelude.{
  String, Bool, true, false, Option, List, [], ◌∷◌, Result, ok, err, string_eq, all, filter, In,
  Bool-cases, ◌≡◌, refl, ◌≢◌, ◌↔◌, inl, inr, arith,
}
use knowledge_agent.Prelude.Int.{int_eq}
use knowledge_agent.Policy.{Instant, PolicyRuleType, rule_type_eq, PolicyRecord}
use knowledge_agent.Policy.Catalog.{
  SelectError, precedence_conflict, is_applicable, top_tier, agrees_with, one_params, choose,
  select_policies, blank_category, canonical,
}
use knowledge_agent.Policy.Tiers.{
  Applicable, Top, Greatest, In-Applicable, In-top_tier, params_eqb_iff, all-false,
  one_params-agree, top_tier-nonempty,
}

choose-In :
    (rs top : List PolicyRecord)
    → choose rs ≡ ok top
    → (x : PolicyRecord) → In x top ↔ Greatest rs x
choose-In [] top h x = let e : [] ≡ top = cc in rw (← e) (λ m. elim m [ ], λ (m, _). elim m [ ])
choose-In (r ∷ rs) top h x = elim (Bool-cases (one_params (top_tier r rs))) [
  | inl e ↦ let q : top_tier r rs ≡ top = tier (rw e at h) in rw (← q) (In-top_tier r rs x)
  | inr e ↦ absurd (refused (rw e at h))
]
  where
    tier :
        ◌≡◌ {A = Result SelectError (List PolicyRecord)} (ok (top_tier r rs)) (ok top)
        → top_tier r rs ≡ top
    tier q = cc

    refused :
        ◌≡◌ {A = Result SelectError (List PolicyRecord)} (err precedence_conflict) (ok top) → ⊥
    refused q = cc

choose-agree :
    (rs top : List PolicyRecord) (r s : PolicyRecord)
    → choose rs ≡ ok top
    → In r top
    → In s top
    → canonical r.params ≡ canonical s.params
choose-agree [] top r s h mr ms = let e : [] ≡ top = cc in elim (rw (← e) at mr) [ ]
choose-agree (a ∷ rs) top r s h mr ms = elim (Bool-cases (one_params (top_tier a rs))) [
  | inl e ↦
      let q : top_tier a rs ≡ top = tier (rw e at h) in
      one_params-agree (top_tier a rs) r s e (rw q mr) (rw q ms)
  | inr e ↦ absurd (refused (rw e at h))
]
  where
    tier :
        ◌≡◌ {A = Result SelectError (List PolicyRecord)} (ok (top_tier a rs)) (ok top)
        → top_tier a rs ≡ top
    tier q = cc

    refused :
        ◌≡◌ {A = Result SelectError (List PolicyRecord)} (err precedence_conflict) (ok top) → ⊥
    refused q = cc

one_params-cons :
    (x : PolicyRecord) (xs : List PolicyRecord)
    → one_params (x ∷ xs) ≡ false
    → all (agrees_with x) xs ≡ false
unfolding one_params
one_params-cons x xs h = h

differ : {b : Bool} → b ≡ false → b ≡ true → ⊥
differ p q = cc

choose-conflict :
    (rs : List PolicyRecord)
    → choose rs ≡ err precedence_conflict
    → (r : PolicyRecord) × (s : PolicyRecord) × Greatest rs r
      × Greatest rs s
      × (canonical r.params ≢ canonical s.params)
choose-conflict [] h = cc
choose-conflict (a ∷ rs) h = elim (Bool-cases (one_params (top_tier a rs))) [
  | inl e ↦ absurd (chosen (rw e at h))
  | inr e ↦ differing (top_tier a rs) refl e
]
  where
    chosen :
        ◌≡◌ {A = Result SelectError (List PolicyRecord)}
          (ok (top_tier a rs))
          (err precedence_conflict)
        → ⊥
    chosen q = cc

    differing :
        (tier : List PolicyRecord)
        → top_tier a rs ≡ tier
        → one_params tier ≡ false
        → (r : PolicyRecord) × (s : PolicyRecord) × Greatest (a ∷ rs) r
          × Greatest (a ∷ rs) s
          × (canonical r.params ≢ canonical s.params)
    differing [] q e = let (x, m) = top_tier-nonempty a rs in absurd (elim (rw q at m) [ ])
    differing (x ∷ xs) q e =
        let (y, m, d) = all-false (agrees_with x) xs (one_params-cons x xs e) in
        (
          x,
          y,
          (In-top_tier a rs x).0 (rw q (inl refl)),
          (In-top_tier a rs y).0 (rw q (inr m)),
          λ same. differ d ((params_eqb_iff (canonical x.params) (canonical y.params)).1 same),
        )

choose-empty : (rs : List PolicyRecord) → choose rs ≡ ok [] → rs ≡ []
choose-empty [] h = refl
choose-empty (a ∷ rs) h =
    let (x, m) = top_tier-nonempty a rs in
    absurd (elim ((choose-In (a ∷ rs) [] h x).1 ((In-top_tier a rs x).0 m)) [ ])

no_applicable : (rs : List PolicyRecord) → ((r : PolicyRecord) → ¬ (In r rs)) → rs ≡ []
no_applicable [] h = refl
no_applicable (a ∷ rs) h = absurd (h a (inl refl))

module _ (records : List PolicyRecord) (t : Instant) (k : PolicyRuleType) (c : Option String) where
  pub selected-from :
      (top : List PolicyRecord)
      → select_policies records t k c ≡ ok top
      → choose (filter (is_applicable t k c) records) ≡ ok top
  unfolding select_policies
  selected-from top h = ground arith

  Greatest-Top :
      (x : PolicyRecord) → Greatest (filter (is_applicable t k c) records) x ↔ Top records t k c x
  Greatest-Top x = (
    λ (m, above).
        ((In-Applicable records t k c x).0 m, λ s a. above s ((In-Applicable records t k c s).1 a)),
    λ (a, above).
        ((In-Applicable records t k c x).1 a, λ s m. above s ((In-Applicable records t k c s).0 m)),
  )

  -- The selected rules are exactly the applicable rules whose priority no applicable rule
  -- exceeds, and they all carry the same parameters.
  pub select_policies-Top :
      (top : List PolicyRecord)
      → select_policies records t k c ≡ ok top
      → ((x : PolicyRecord) → In x top ↔ Top records t k c x)
        × ((r s : PolicyRecord) → In r top → In s top → canonical r.params ≡ canonical s.params)
  select_policies-Top top h = (
    λ x. (
      λ m. (Greatest-Top x).0 ((choose-In _ top (selected-from top h) x).0 m),
      λ p. (choose-In _ top (selected-from top h) x).1 ((Greatest-Top x).1 p),
    ),
    λ r s mr ms. choose-agree _ top r s (selected-from top h) mr ms,
  )

  -- A conflict is raised only where two applicable rules of the highest priority carry different
  -- parameters, and then no selection is made at all.
  pub select_policies-conflict :
      select_policies records t k c ≡ err precedence_conflict
      → (r : PolicyRecord) × (s : PolicyRecord) × Top records t k c r
        × Top records t k c s
        × (canonical r.params ≢ canonical s.params)
  unfolding select_policies
  select_policies-conflict h =
      let (r, s, mr, ms, d) =
        choose-conflict (filter (is_applicable t k c) records) (ground arith) in
      (r, s, (Greatest-Top r).0 mr, (Greatest-Top s).0 ms, d)

  -- With a category that is not blank, nothing is selected exactly when no rule applies.
  pub select_policies-empty :
      blank_category c ≡ false
      → (select_policies records t k c ≡ ok [])
        ↔ ((r : PolicyRecord) → ¬ (Applicable records t k c r))
  unfolding select_policies
  select_policies-empty nb = rw nb (
    λ h r a. empty-applicable (choose-empty _ h) r a,
    λ none_apply. rw (no_applicable _ (λ r m. none_apply r ((In-Applicable records t k c r).0 m))),
  )
    where
      empty-applicable :
          filter (is_applicable t k c) records ≡ []
          → (r : PolicyRecord) → ¬ (Applicable records t k c r)
      empty-applicable e r a = elim (rw e at ((In-Applicable records t k c r).1 a)) [ ]
