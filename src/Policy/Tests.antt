-- ===== src/Policy/Tests.antt =====
-- Selections of rules (aftersales/policy_catalog.py), and the theorems at them.
use knowledge_agent.Prelude.{
  ◌*◌, true, false, some, [], ◌∷◌, ok, err, In, all, any, filter, member, is_blank, text_leb, ◌≡◌,
  ◌≢◌, ◌↔◌, refl,
}
use knowledge_agent.Prelude.Int.{pos}
use knowledge_agent.Prelude.Sort.{insert, sorted}
use knowledge_agent.Policy.{
  text, Instant, day, PolicyRuleType, PolicyRecord, policy_ref, is_policy_in_effect,
  policy_applies_to_category,
}
use knowledge_agent.Policy.Catalog.{
  precedence_conflict, canonical, is_applicable, max_priority, top_tier, one_params, blank_category,
  select_policies,
}
use knowledge_agent.Policy.Applicable.{IsApplicable, is_applicable_iff}
use knowledge_agent.Policy.Tiers.{Applicable, Top}
use knowledge_agent.Policy.Selection.{
  select_policies-Top, select_policies-conflict, select_policies-empty,
}

abbrev general : PolicyRecord
general = record {
  policy_id = "handoff";
  version = "1";
  rule_type = PolicyRuleType.handoff;
  scope = [];
  params = ("trigger", text "quality_dispute") ∷ [];
  effective_from = 0;
  effective_to = some (9 * day);
  build_id = "b1";
  priority = pos 0;
}

abbrev special : PolicyRecord
special = record general { policy_id = "shoes"; scope = "shoes" ∷ []; priority = pos 2 }

abbrev rival : PolicyRecord
rival = record special { policy_id = "rival"; params = ("trigger", text "other") ∷ [] }

abbrev at : Instant
at = 3 * day

chosen :
    select_policies (general ∷ special ∷ []) at PolicyRuleType.handoff (some "shoes")
    ≡ ok (special ∷ [])
unfolding select_policies canonical is_applicable max_priority top_tier one_params
    is_policy_in_effect policy_applies_to_category policy_ref all any filter member is_blank
    text_leb sorted insert
chosen = refl

clash :
    select_policies (special ∷ rival ∷ []) at PolicyRuleType.handoff (some "shoes")
    ≡ err precedence_conflict
unfolding select_policies canonical is_applicable max_priority top_tier one_params
    is_policy_in_effect policy_applies_to_category policy_ref all any filter member is_blank
    text_leb sorted insert
clash = refl

select_policies-Top_example :
    ((x : PolicyRecord)
      → In x (special ∷ [])
        ↔ Top (general ∷ special ∷ []) at PolicyRuleType.handoff (some "shoes") x)
    × ((r s : PolicyRecord)
        → In r (special ∷ [])
        → In s (special ∷ [])
        → canonical r.params ≡ canonical s.params)
select_policies-Top_example =
    select_policies-Top (general ∷ special ∷ []) at PolicyRuleType.handoff (some "shoes")
      (special ∷ []) chosen

select_policies-conflict_example :
    (r : PolicyRecord) × (s : PolicyRecord) × Top
      (special ∷ rival ∷ [])
      at
      PolicyRuleType.handoff
      (some "shoes")
      r
    × Top (special ∷ rival ∷ []) at PolicyRuleType.handoff (some "shoes") s
    × (canonical r.params ≢ canonical s.params)
select_policies-conflict_example =
    select_policies-conflict (special ∷ rival ∷ []) at PolicyRuleType.handoff (some "shoes") clash

not_blank : blank_category (some "hats") ≡ false
unfolding is_blank
not_blank = refl

select_policies-empty_example :
    (select_policies (special ∷ []) at PolicyRuleType.handoff (some "hats") ≡ ok [])
    ↔ ((r : PolicyRecord) → ¬ (Applicable (special ∷ []) at PolicyRuleType.handoff (some "hats") r))
select_policies-empty_example =
    select_policies-empty (special ∷ []) at PolicyRuleType.handoff (some "hats") not_blank

is_applicable_iff_example :
    (is_applicable at PolicyRuleType.handoff (some "shoes") special ≡ true)
    ↔ IsApplicable at PolicyRuleType.handoff (some "shoes") special
is_applicable_iff_example = is_applicable_iff at PolicyRuleType.handoff (some "shoes") special
