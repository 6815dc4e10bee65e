-- ===== src/Policy/Applicable.antt =====
-- When a rule applies (policy.py, is_policy_in_effect and policy_applies_to_category; the condition
-- in select_policies), described without the code.
use knowledge_agent.Prelude.{
  ◌≤◌, ◌<◌, String, true, false, Option, none, some, List, [], ◌∷◌, string_eq, if◌then◌else◌,
  is_empty, In, member-In, Bool-cases, ◌≡◌, refl, ◌↔◌, ◌⊎◌, inl, inr, arith, ltb, leb,
}
use knowledge_agent.Prelude.Int.{int_eq}
use knowledge_agent.Policy.{
  Instant, PolicyRuleType, rule_type_eq, rule_type_eqb_iff, PolicyRecord, is_policy_in_effect,
  policy_applies_to_category,
}
use knowledge_agent.Policy.Catalog.{in_scope, is_applicable}

-- No category: general rules only. An item's category: general rules, and those that list it.
abbrev pub InScope : Option String → PolicyRecord → Type 0
InScope none r = r.scope ≡ []
InScope (some category) r = (r.scope ≡ []) ⊎ In category r.scope

-- The rule is of the asked kind, has come into force, has not ended, and covers the category.
pub record IsApplicable (as_of : Instant) (rule_type : PolicyRuleType) (category : Option String)
    (r : PolicyRecord) : Type 0 where
  pub kind : r.rule_type ≡ rule_type
  pub started : r.effective_from ≤ as_of
  pub not_ended : (to : Instant) → r.effective_to ≡ some to → as_of < to
  pub scoped : InScope category r

pub in_effect_iff :
    (r : PolicyRecord) (t : Instant)
    → (is_policy_in_effect r t ≡ true)
      ↔ ((r.effective_from ≤ t) × ((to : Instant) → r.effective_to ≡ some to → t < to))
unfolding is_policy_in_effect
in_effect_iff r t = go r.effective_to
  where
    go :
        (o : Option Instant)
        → ((if ltb t r.effective_from
              then false
              else elim o [ none ↦ true | some to ↦ if leb to t then false else true ])
            ≡ true)
          ↔ ((r.effective_from ≤ t) × ((to : Instant) → o ≡ some to → t < to))
    go none = (λ h. (ground arith, λ to e. cc), λ h. ground (arith, h.0))
    go (some to) =
        (λ h. (ground arith, λ to' e. ground arith), λ h. ground (arith, h.0, h.1 to refl))

pub is_empty_iff : (xs : List String) → (is_empty xs ≡ true) ↔ (xs ≡ [])
is_empty_iff [] = ground arith
is_empty_iff (x ∷ xs) = ground arith

pub in_scope_iff : (c : Option String) (r : PolicyRecord) → (in_scope c r ≡ true) ↔ InScope c r
unfolding policy_applies_to_category
in_scope_iff none r = is_empty_iff r.scope
in_scope_iff (some c) r = elim (Bool-cases (is_empty r.scope)) [
  | inl e ↦ (λ _. inl ((is_empty_iff r.scope).0 e), λ _. rw e)
  | inr e ↦ (
    λ h. inr ((member-In c r.scope).0 (rw e at h)),
    elim [ inl q ↦ rw ((is_empty_iff r.scope).1 q) | inr m ↦ rw (e, (member-In c r.scope).1 m) ],
  )
]

pub is_applicable_iff :
    (t : Instant) (k : PolicyRuleType) (c : Option String) (r : PolicyRecord)
    → (is_applicable t k c r ≡ true) ↔ IsApplicable t k c r
unfolding is_applicable
is_applicable_iff t k c r = (
  λ h. record {
    kind = (rule_type_eqb_iff r.rule_type k).0 (ground arith);
    started = ((in_effect_iff r t).0 (ground arith)).0;
    not_ended = ((in_effect_iff r t).0 (ground arith)).1;
    scoped = (in_scope_iff c r).0 (ground arith);
  },
  λ a. rw (
    (rule_type_eqb_iff r.rule_type k).1 a.kind,
    (in_effect_iff r t).1 (a.started, a.not_ended),
    (in_scope_iff c r).1 a.scoped,
  ),
)
