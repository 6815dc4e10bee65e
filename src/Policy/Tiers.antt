-- ===== src/Policy/Tiers.antt =====
-- The top tier of the applicable rules, and the comparison of their parameters
-- (policy_catalog.py, select_policies).
use knowledge_agent.Prelude.{
  String, Bool, true, false, Option, List, [], ◌∷◌, ap, eq_iff, ◌==◌, string_eq, if◌then◌else◌, all,
  filter, In, All-In, all-true, In-filter, filter-In, text_leb, Bool-cases, ◌≡◌, refl, sym, ◌∙◌,
  ◌↔◌, ◌⊎◌, inl, inr, arith, eqb→eq,
}
use knowledge_agent.Prelude.Dict.{Dict}
use knowledge_agent.Prelude.Int.{ℤ, leb_ℤ, int_eq, ◌≤ℤ◌, ≤ℤ_total, ≤ℤ_antisymm}
use knowledge_agent.Prelude.Sort.{In-sorted}
use knowledge_agent.Policy.{
  Scalar, null, boolean, integer, text, Instant, PolicyRuleType, rule_type_eq, PolicyRecord,
  policy_ref,
}
use knowledge_agent.Policy.Catalog.{
  is_applicable, max_priority, top_tier, scalar_eqb, agrees_with, one_params, canonical, params_eqb,
}
use knowledge_agent.Policy.Applicable.{IsApplicable, is_applicable_iff}

-- The maximum is at least every priority, and one of them.
pub max_priority-start : (p : ℤ) (rs : List PolicyRecord) → p ≤ℤ max_priority p rs
unfolding max_priority
max_priority-start p [] = omega arith
max_priority-start p (r ∷ rs) = elim (Bool-cases (leb_ℤ p r.priority)) [
  | inl e ↦ rw e (omega (arith, below e, max_priority-start r.priority rs))
  | inr e ↦ rw e (max_priority-start p rs)
]
  where
    below : leb_ℤ p r.priority ≡ true → p ≤ℤ r.priority
    below e = ground arith

pub max_priority-upper :
    (p : ℤ) (rs : List PolicyRecord) (s : PolicyRecord) → In s rs → s.priority ≤ℤ max_priority p rs
unfolding max_priority
max_priority-upper p [] s m = elim m [ ]
max_priority-upper p (r ∷ rs) s (inr m) =
    max_priority-upper (if leb_ℤ p r.priority then r.priority else p) rs s m
max_priority-upper p (r ∷ rs) s (inl q) = rw q (elim (Bool-cases (leb_ℤ p r.priority)) [
  | inl e ↦ rw e (max_priority-start r.priority rs)
  | inr e ↦ rw e (omega (arith, ≤ℤ_total p r.priority e, max_priority-start p rs))
])

pub max_priority-attained :
    (p : ℤ) (rs : List PolicyRecord)
    → (max_priority p rs ≡ p) ⊎ ((r : PolicyRecord) × In r rs × (r.priority ≡ max_priority p rs))
unfolding max_priority
max_priority-attained p [] = inl refl
max_priority-attained p (r ∷ rs) = elim (Bool-cases (leb_ℤ p r.priority)) [
  | inl e ↦ rw e (elim (max_priority-attained r.priority rs) [
    | inl q ↦ inr (r, inl refl, sym q)
    | inr (s, m, q) ↦ inr (s, inr m, q)
  ])
  | inr e ↦
      rw e (elim (max_priority-attained p rs) [ inl q ↦ inl q | inr (s, m, q) ↦ inr (s, inr m, q) ])
]

-- The applicable rules of a publication, and those of the highest priority among them.
abbrev pub Applicable :
    List PolicyRecord → Instant → PolicyRuleType → Option String → PolicyRecord → Type 0
Applicable records t k c r = In r records × IsApplicable t k c r

abbrev pub Top :
    List PolicyRecord → Instant → PolicyRuleType → Option String → PolicyRecord → Type 0
Top records t k c r =
    Applicable records t k c r
    × ((s : PolicyRecord) → Applicable records t k c s → s.priority ≤ℤ r.priority)

pub In-Applicable :
    (records : List PolicyRecord) (t : Instant) (k : PolicyRuleType) (c : Option String)
    (r : PolicyRecord)
    → In r (filter (is_applicable t k c) records) ↔ Applicable records t k c r
In-Applicable records t k c r = (
  λ m.
      let (n, e) = In-filter (is_applicable t k c) records r m in
      (n, (is_applicable_iff t k c r).0 e),
  λ (n, a). filter-In (is_applicable t k c) records r n ((is_applicable_iff t k c r).1 a),
)

-- The top tier of a non-empty list is its elements of the highest priority.
pub In-top_tier :
    (r : PolicyRecord) (rs : List PolicyRecord) (x : PolicyRecord)
    → In x (top_tier r rs)
      ↔ (In x (r ∷ rs) × ((s : PolicyRecord) → In s (r ∷ rs) → s.priority ≤ℤ x.priority))
unfolding top_tier
In-top_tier r rs x = (
  λ m.
      let (n, e) = In-filter at_top (r ∷ rs) x ((In-sorted by_ref _ x).0 m) in
      (n, λ s i. rw (eqb→eq x.priority top e) (upper s i)),
  λ (n, above). (In-sorted by_ref _ x).1 (
      filter-In at_top (r ∷ rs) x n (
        (int_eq.eqb_iff x.priority top).1
          (≤ℤ_antisymm x.priority top (upper x n) (attained above)))),
)
  where
    top : ℤ
    top = max_priority r.priority rs

    at_top : PolicyRecord → Bool
    at_top y = y.priority == max_priority r.priority rs

    by_ref : PolicyRecord → PolicyRecord → Bool
    by_ref a b = text_leb (policy_ref a) (policy_ref b)

    upper : (s : PolicyRecord) → In s (r ∷ rs) → s.priority ≤ℤ max_priority r.priority rs
    upper s (inl q) = rw q (max_priority-start r.priority rs)
    upper s (inr m) = max_priority-upper r.priority rs s m

    attained :
        ((s : PolicyRecord) → In s (r ∷ rs) → s.priority ≤ℤ x.priority)
        → max_priority r.priority rs ≤ℤ x.priority
    attained above = elim (max_priority-attained r.priority rs) [
      | inl q ↦ rw q (above r (inl refl))
      | inr (s, m, q) ↦ rw (← q) (above s (inr m))
    ]

abbrev pub Greatest : List PolicyRecord → PolicyRecord → Type 0
Greatest rs x = In x rs × ((s : PolicyRecord) → In s rs → s.priority ≤ℤ x.priority)

pub scalar_eqb_iff : (a b : Scalar) → (scalar_eqb a b ≡ true) ↔ (a ≡ b)
scalar_eqb_iff null b = ground arith
scalar_eqb_iff (boolean true) b = ground arith
scalar_eqb_iff (boolean false) b = ground arith
scalar_eqb_iff (integer a) null = ground arith
scalar_eqb_iff (integer a) (boolean b) = ground arith
scalar_eqb_iff (integer a) (integer b) = ground (arith, int_eq.eqb_iff a b)
scalar_eqb_iff (integer a) (text b) = ground arith
scalar_eqb_iff (text a) null = ground arith
scalar_eqb_iff (text a) (boolean b) = ground arith
scalar_eqb_iff (text a) (integer b) = ground arith
scalar_eqb_iff (text a) (text b) = ground (arith, eq_iff a b)

pub params_eqb_iff : (a b : Dict Scalar) → (params_eqb a b ≡ true) ↔ (a ≡ b)
params_eqb_iff [] [] = ground arith
params_eqb_iff [] (q ∷ qs) = ground arith
params_eqb_iff (p ∷ ps) [] = ground arith
params_eqb_iff ((j, v) ∷ ps) ((k, w) ∷ qs) =
    ground (arith, eq_iff j k, scalar_eqb_iff v w, params_eqb_iff ps qs)

-- A failing `all` has an element that fails.
pub all-false :
    (p : PolicyRecord → Bool) (xs : List PolicyRecord)
    → all p xs ≡ false
    → (x : PolicyRecord) × In x xs × (p x ≡ false)
unfolding all
all-false p [] h = cc
all-false p (x ∷ xs) h = elim (Bool-cases (p x)) [
  | inl e ↦ let (y, m, q) = all-false p xs (rw e at h) in (y, inr m, q)
  | inr e ↦ (x, inl refl, e)
]

pub one_params-agree :
    (top : List PolicyRecord) (r s : PolicyRecord)
    → one_params top ≡ true
    → In r top
    → In s top
    → canonical r.params ≡ canonical s.params
unfolding one_params
one_params-agree [] r s h mr ms = elim mr [ ]
one_params-agree (x ∷ xs) r s h mr ms = sym (same r mr) ∙ same s ms
  where
    same : (y : PolicyRecord) → In y (x ∷ xs) → canonical x.params ≡ canonical y.params
    same y (inl q) = ap (λ (z : PolicyRecord). canonical z.params) (sym q)
    same y (inr m) =
        (params_eqb_iff (canonical x.params) (canonical y.params)).0
          (All-In (λ z. agrees_with x z ≡ true) xs y (all-true (agrees_with x) xs h) m)

-- A rule set whose top tier is empty cannot come up: the maximum is attained.
pub top_tier-nonempty :
    (r : PolicyRecord) (rs : List PolicyRecord) → (x : PolicyRecord) × In x (top_tier r rs)
top_tier-nonempty r rs = elim (max_priority-attained r.priority rs) [
  | inl q ↦ (r, (In-top_tier r rs r).1 (inl refl, λ s m. rw (← q) (upper s m)))
  | inr (x, m, q) ↦ (x, (In-top_tier r rs x).1 (inr m, λ s i. rw q (upper s i)))
]
  where
    upper : (s : PolicyRecord) → In s (r ∷ rs) → s.priority ≤ℤ max_priority r.priority rs
    upper s (inl q) = rw q (max_priority-start r.priority rs)
    upper s (inr m) = max_priority-upper r.priority rs s m
