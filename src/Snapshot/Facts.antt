-- ===== src/Snapshot/Facts.antt =====
-- The facts of a persisted Guard decision (aftersales/guard_snapshot.py, aftersales/guard.py): what
-- to_record writes is read back.
use knowledge_agent.Prelude.{
  ℕ, String, Bool, true, ◌∷◌, List, [], ◌++◌, map, Option, none, some, ok, ◌≡◌, refl, all, member,
  string_eq, text_leb, arith,
}
use knowledge_agent.Prelude.Dict.{lookup, keys, same_set, subset}
use knowledge_agent.Schema.{OrderStatus, order_status, order_status_text}
use knowledge_agent.Policy.{PolicyRuleType}
use knowledge_agent.Guard.Types.{Selected, GuardFacts, policy_refs, some_list, is_policy_ref}
use knowledge_agent.Snapshot.Json.{
  Json, null, string, dict_value, list_value, values_of, entries_of, to_items, to_entries,
  values_of-to_items,
}
use knowledge_agent.Snapshot.Words.{rule_type_text, rule_type_of}
use knowledge_agent.Snapshot.Document.{
  flag_value, count_value, entry_value, entry_values, refs_value, facts_value,
}
use knowledge_agent.Snapshot.Parser.{
  flag_of, count_of, fact_status_of, shape_of, refs_of, parse_entry, parse_entries, entry_type,
  increasing, refs_for, selected_of, parse_refs, parse_facts,
}

flag_of-flag_value : (b : Option Bool) → flag_of (flag_value b) ≡ ok b
flag_of-flag_value none = refl
flag_of-flag_value (some b) = refl

count_of-count_value : (n : Option ℕ) → count_of (count_value n) ≡ ok n
count_of-count_value none = refl
count_of-count_value (some n) = refl

fact_status_of-status_value :
    (s : Option OrderStatus)
    → fact_status_of (elim s [ none ↦ null | some x ↦ string (order_status_text x) ]) ≡ ok s
unfolding order_status
fact_status_of-status_value none = refl
fact_status_of-status_value (some OrderStatus.pending_payment) = refl
fact_status_of-status_value (some OrderStatus.paid) = refl
fact_status_of-status_value (some OrderStatus.shipped) = refl
fact_status_of-status_value (some OrderStatus.delivered) = refl
fact_status_of-status_value (some OrderStatus.completed) = refl
fact_status_of-status_value (some OrderStatus.cancelled) = refl

refs_of-map :
    (refs : List String) → all is_policy_ref refs ≡ true → refs_of (map string refs) ≡ ok refs
unfolding refs_of all
refs_of-map [] h = refl
refs_of-map (x ∷ refs) h =
    let e : is_policy_ref x ≡ true = ground (arith, h) in
    rw (e, refs_of-map refs (ground (arith, h))) refl

rule_type_of-rule_type_text : (t : PolicyRuleType) → rule_type_of (rule_type_text t) ≡ some t
unfolding rule_type_of
rule_type_of-rule_type_text PolicyRuleType.return_window = refl
rule_type_of-rule_type_text PolicyRuleType.exchange_window = refl
rule_type_of-rule_type_text PolicyRuleType.non_returnable = refl
rule_type_of-rule_type_text PolicyRuleType.handoff = refl

parse_entry-entry_value :
    (t : PolicyRuleType) (refs : List String)
    → all is_policy_ref refs ≡ true
    → parse_entry (entry_value t refs) ≡ ok (t, refs)
unfolding parse_entry shape_of to_items values_of
parse_entry-entry_value t refs h =
    rw (rule_type_of-rule_type_text t, values_of-to_items (map string refs), refs_of-map refs h)
      refl

-- the rule types with their references
abbrev pairs_of : PolicyRuleType → Option (List String) → List (PolicyRuleType × List String)
pairs_of t none = []
pairs_of t (some refs) = (t, refs) ∷ []

parse_entries-next :
    (t : PolicyRuleType) (o : Option (List String)) (js : List Json)
    (es : List (PolicyRuleType × List String))
    → all is_policy_ref (some_list o) ≡ true
    → parse_entries js ≡ ok es
    → parse_entries (entry_values t o ++ js) ≡ ok (pairs_of t o ++ es)
unfolding parse_entries
parse_entries-next t none js es h k = k
parse_entries-next t (some refs) js es h k = rw (parse_entry-entry_value t refs h, k) refl

-- What the rule types with references are, for each rule type that has some or none.
abbrev all_pairs : Selected → List (PolicyRuleType × List String)
all_pairs s =
    pairs_of PolicyRuleType.exchange_window s.exchange_window
    ++ (pairs_of PolicyRuleType.handoff s.handoff
        ++ (pairs_of PolicyRuleType.non_returnable s.non_returnable
            ++ (pairs_of PolicyRuleType.return_window s.return_window ++ [])))

abbrev select_refs :
    Option (List String)
    → Option (List String)
    → Option (List String)
    → Option (List String)
    → Selected
select_refs a b c d = record {
  exchange_window = a;
  handoff = b;
  non_returnable = c;
  return_window = d;
}

ordered_pairs :
    (a b c d : Option (List String))
    → (increasing (map entry_type (all_pairs (select_refs a b c d))) ≡ true)
      × (selected_of (all_pairs (select_refs a b c d)) ≡ select_refs a b c d)
unfolding increasing refs_for text_leb
ordered_pairs none none none none = (refl, refl)
ordered_pairs none none none (some d) = (refl, refl)
ordered_pairs none none (some c) none = (refl, refl)
ordered_pairs none none (some c) (some d) = (refl, refl)
ordered_pairs none (some b) none none = (refl, refl)
ordered_pairs none (some b) none (some d) = (refl, refl)
ordered_pairs none (some b) (some c) none = (refl, refl)
ordered_pairs none (some b) (some c) (some d) = (refl, refl)
ordered_pairs (some a) none none none = (refl, refl)
ordered_pairs (some a) none none (some d) = (refl, refl)
ordered_pairs (some a) none (some c) none = (refl, refl)
ordered_pairs (some a) none (some c) (some d) = (refl, refl)
ordered_pairs (some a) (some b) none none = (refl, refl)
ordered_pairs (some a) (some b) none (some d) = (refl, refl)
ordered_pairs (some a) (some b) (some c) none = (refl, refl)
ordered_pairs (some a) (some b) (some c) (some d) = (refl, refl)

parse_entries-last :
    (t : PolicyRuleType) (o : Option (List String))
    → all is_policy_ref (some_list o) ≡ true
    → parse_entries (entry_values t o) ≡ ok (pairs_of t o ++ [])
unfolding parse_entries
parse_entries-last t none h = refl
parse_entries-last t (some refs) h = rw (parse_entry-entry_value t refs h) refl

all-append :
    {A : Type 0} (p : A → Bool) (xs ys : List A)
    → all p (xs ++ ys) ≡ true
    → (all p xs ≡ true) × (all p ys ≡ true)
unfolding all
all-append p [] ys h = (refl, h)
all-append p (x ∷ xs) ys h =
    let e : p x ≡ true = ground (arith, h) in
    let k : all p (xs ++ ys) ≡ true = ground (arith, h) in
    let (a, b) = all-append p xs ys k in (rw (e, a) refl, b)

parse_entries-refs_value :
    (s : Selected)
    → all is_policy_ref (policy_refs s) ≡ true
    → parse_entries (refs_value s) ≡ ok (all_pairs s)
unfolding policy_refs
parse_entries-refs_value s h =
    let (a, more) = all-append is_policy_ref (some_list s.exchange_window) _ h in
    let (b, rest) = all-append is_policy_ref (some_list s.handoff) _ more in
    let (c, d) = all-append is_policy_ref (some_list s.non_returnable) _ rest in
    parse_entries-next _ s.exchange_window _ _ a (
      parse_entries-next _ s.handoff _ _ b (
        parse_entries-next _ s.non_returnable _ _ c
          (parse_entries-last PolicyRuleType.return_window s.return_window d)))

parse_refs-refs_value :
    (s : Selected)
    → all is_policy_ref (policy_refs s) ≡ true
    → parse_refs (list_value (refs_value s)) ≡ ok s
unfolding parse_refs
parse_refs-refs_value s h =
    let (o, e) = ordered_pairs s.exchange_window s.handoff s.non_returnable s.return_window in
    rw (values_of-to_items (refs_value s), parse_entries-refs_value s h, o, e) refl

pub parse_facts-facts_value :
    (f : GuardFacts)
    → all is_policy_ref (policy_refs f.selected) ≡ true
    → parse_facts (dict_value (facts_value f)) ≡ ok f
unfolding parse_facts to_entries entries_of keys same_set subset all member lookup
parse_facts-facts_value f h =
    rw
      (
        parse_refs-refs_value f.selected h,
        fact_status_of-status_value f.order_status,
        count_of-count_value f.package_count,
        count_of-count_value f.days_since_delivery,
        flag_of-flag_value f.business_state_conflict,
        flag_of-flag_value f.delivery_established,
        flag_of-flag_value f.within_window,
        flag_of-flag_value f.active_case_present,
        flag_of-flag_value f.item_returned_before,
        flag_of-flag_value f.other_pending_present,
        flag_of-flag_value f.handoff_routed,
        flag_of-flag_value f.non_returnable,
        flag_of-flag_value f.variant_compatible,
        flag_of-flag_value f.inventory_available,
        flag_of-flag_value f.inventory_sufficient,
        flag_of-flag_value f.open_ticket_present,
      )
      refl
