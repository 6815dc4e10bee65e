-- ===== src/Policy/Catalog.antt =====
-- aftersales/policy_catalog.py: which of the published rules apply to an item (select_policies).
-- What is proved of the choice stands in the module beside this one, Policy/Selection.antt.
use knowledge_agent.Prelude.{
  String, Bool, true, false, ◌&&◌, Option, none, some, List, [], ◌∷◌, Result, ok, err, ◌==◌,
  string_eq, if◌then◌else◌, is_empty, all, filter, is_blank, text_leb,
}
use knowledge_agent.Prelude.Dict.{Dict}
use knowledge_agent.Prelude.Int.{ℤ, leb_ℤ, int_eq}
use knowledge_agent.Prelude.Sort.{sorted}
use knowledge_agent.Policy.{
  Scalar, null, boolean, integer, text, Instant, PolicyRuleType, rule_type_eq, PolicyRecord,
  policy_ref, is_policy_in_effect, policy_applies_to_category,
}

abbrev pub scalar_eqb : Scalar → Scalar → Bool
scalar_eqb null null = true
scalar_eqb (boolean true) (boolean true) = true
scalar_eqb (boolean false) (boolean false) = true
scalar_eqb (integer a) (integer b) = a == b
scalar_eqb (text s) (text t) = s == t
scalar_eqb _ _ = false

abbrev pub params_eqb : Dict Scalar → Dict Scalar → Bool
params_eqb [] [] = true
params_eqb ((j, v) ∷ ps) ((k, w) ∷ qs) = j == k && scalar_eqb v w && params_eqb ps qs
params_eqb _ _ = false

-- `canonical(dict(params))`: the JSON text with sorted keys stands for the sorted items.
unfoldable pub canonical : Dict Scalar → Dict Scalar
unfolding sorted
canonical = sorted (λ a b. text_leb a.0 b.0)

pub data SelectError : Type 0 where
  value_error : SelectError
  precedence_conflict : SelectError

abbrev pub in_scope : Option String → PolicyRecord → Bool
in_scope none r = is_empty r.scope
in_scope (some category) r = policy_applies_to_category r category

-- the condition of the comprehension
unfoldable pub is_applicable : Instant → PolicyRuleType → Option String → PolicyRecord → Bool
is_applicable as_of rule_type category r =
    r.rule_type == rule_type && is_policy_in_effect r as_of && in_scope category r

-- `max(r.priority for r in applicable)`, of a non-empty list
unfoldable pub max_priority : ℤ → List PolicyRecord → ℤ
max_priority p [] = p
max_priority p (r ∷ rs) = max_priority (if leb_ℤ p r.priority then r.priority else p) rs

-- the top tier, sorted by reference
unfoldable pub top_tier : PolicyRecord → List PolicyRecord → List PolicyRecord
top_tier r rs =
    sorted (λ a b. text_leb (policy_ref a) (policy_ref b))
      (filter (λ x. x.priority == max_priority r.priority rs) (r ∷ rs))

abbrev pub agrees_with : PolicyRecord → PolicyRecord → Bool
agrees_with a b = params_eqb (canonical a.params) (canonical b.params)

-- `len({canonical(r.params) for r in top}) == 1`
unfoldable pub one_params : List PolicyRecord → Bool
one_params [] = false
one_params (r ∷ rs) = all (agrees_with r) rs

abbrev pub top_of : List PolicyRecord → Result SelectError (List PolicyRecord)
top_of top = if one_params top then ok top else err precedence_conflict

abbrev pub choose : List PolicyRecord → Result SelectError (List PolicyRecord)
choose [] = ok []
choose (r ∷ rs) = top_of (top_tier r rs)

abbrev pub blank_category : Option String → Bool
blank_category none = false
blank_category (some category) = is_blank category

unfoldable pub select_policies :
    List PolicyRecord
    → Instant
    → PolicyRuleType
    → Option String
    → Result SelectError (List PolicyRecord)
select_policies records as_of rule_type category =
    if blank_category category
    then err value_error
    else choose (filter (is_applicable as_of rule_type category) records)
