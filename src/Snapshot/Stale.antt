-- ===== src/Snapshot/Stale.antt =====
-- What the stale comparison of aftersales/guard_snapshot.py compares.
use knowledge_agent.Prelude.{
  some, ℕ, String, Bool, true, false, not, Option, none, List, [], ok, ◌==◌, ◌!=◌, string_eq,
  nat_eq, In, All-In, All-of_In, any-false, any-false_of, eqb→eq, eqb_refl, text_leb, ◌≡◌, refl,
  sym, ◌∙◌, ◌↔◌, arith,
}
use knowledge_agent.Prelude.Dict.{lookup, keys}
use knowledge_agent.Prelude.Sort.{sorted, In-sorted}
use knowledge_agent.Prelude.Maps.{
  dict_of, first_parts, dict_eqb_iff, same_set_iff, keys-dict_of, put_all-Distinct, lookup-keys,
  keys-lookup, Distinct,
}
use knowledge_agent.Actions.{name_eq}
use knowledge_agent.Snapshot.{
  StaleReason, GuardSnapshot, Tables, rows_of, set_changed, version_changed, compare_snapshots,
  stale_reason,
}

abbrev pub tables : GuardSnapshot → Tables
tables s = dict_of s.records

-- The version that a snapshot has of a record, `none` where it has no such record.
abbrev pub version_at : GuardSnapshot → String → String → Option ℕ
version_at s table key = lookup key (dict_of (rows_of table (tables s)))

abbrev pub SameTables : GuardSnapshot → GuardSnapshot → Type 0
SameTables s c = (t : String) → In t (keys (tables s)) ↔ In t (keys (tables c))

-- Everything but the time of the evaluation is the same.
pub record Unchanged (s c : GuardSnapshot) : Type 0 where
  pub same_records :
      (t : String) → In t (keys (tables s)) → (k : String) → version_at s t k ≡ version_at c t k
  pub same_build : s.policy_build_id ≡ c.policy_build_id
  pub same_spec : s.action_spec_version ≡ c.action_spec_version
  pub same_risk : s.risk_policy_version ≡ c.risk_policy_version

rows-Distinct : (rows : List (String × ℕ)) → Distinct (dict_of rows)
rows-Distinct rows = put_all-Distinct [] rows tt

set_unchanged :
    (s c : Tables) (t : String)
    → ((k : String) → lookup k (dict_of (rows_of t s)) ≡ lookup k (dict_of (rows_of t c)))
    → set_changed s c t ≡ false
unfolding set_changed
set_unchanged s c t h =
    rw
      ((same_set_iff (first_parts (rows_of t s)) (first_parts (rows_of t c))).1 (λ x. (
        moved (rows_of t s) (rows_of t c) x (h x),
        moved (rows_of t c) (rows_of t s) x (sym (h x)),
      )))
      refl
  where
    moved :
        (a b : List (String × ℕ)) (x : String)
        → lookup x (dict_of a) ≡ lookup x (dict_of b)
        → In x (first_parts a)
        → In x (first_parts b)
    moved a b x h m =
        let (v, q) = keys-lookup x (dict_of a) ((keys-dict_of x a).1 m) in
        (keys-dict_of x b).0 (lookup-keys x v (dict_of b) (sym h ∙ q))

version_changed_iff :
    (s c : Tables) (t : String)
    → (version_changed s c t ≡ false)
      ↔ ((k : String) → lookup k (dict_of (rows_of t s)) ≡ lookup k (dict_of (rows_of t c)))
unfolding version_changed
version_changed_iff s c t =
    let iff =
      dict_eqb_iff (dict_of (rows_of t s)) (dict_of (rows_of t c)) (rows-Distinct (rows_of t s)) in
    (λ h. iff.0 (opened _ h), λ h. rw (iff.1 h) refl)
  where
    opened : (b : Bool) → not b ≡ false → b ≡ true
    opened b h = ground arith

differ_iff : (a b : String) → ((a != b) ≡ false) ↔ (a ≡ b)
differ_iff a b = (λ h. eqb→eq a b (opened (a == b) h), λ q. rw q (rw (eqb_refl b) refl))
  where
    opened : (b : Bool) → not b ≡ false → b ≡ true
    opened b h = ground arith

compare-Unchanged :
    (s c : GuardSnapshot) → compare_snapshots s c (tables s) (tables c) ≡ none ↔ Unchanged s c
unfolding compare_snapshots
compare-Unchanged s c = (
  λ h. record {
    same_records = λ t m. (version_changed_iff (tables s) (tables c) t).0 (
        All-In (λ t. version_changed (tables s) (tables c) t ≡ false)
          (sorted text_leb (keys (tables s))) t
          (any-false (version_changed (tables s) (tables c)) _ (ground arith))
          ((In-sorted text_leb (keys (tables s)) t).1 m));
    same_build = (differ_iff s.policy_build_id c.policy_build_id).0 (ground arith);
    same_spec = (differ_iff s.action_spec_version c.action_spec_version).0 (ground arith);
    same_risk = (differ_iff s.risk_policy_version c.risk_policy_version).0 (ground arith);
  },
  λ u.
      rw
        (
          any-false_of (set_changed (tables s) (tables c)) (sorted text_leb (keys (tables s))) (
              All-of_In _ _ (λ t m.
                set_unchanged (tables s) (tables c) t
                  (u.same_records t ((In-sorted text_leb (keys (tables s)) t).0 m)))),
          any-false_of (version_changed (tables s) (tables c)) (sorted text_leb (keys (tables s))) (
              All-of_In _ _ (λ t m.
                (version_changed_iff (tables s) (tables c) t).1
                  (u.same_records t ((In-sorted text_leb (keys (tables s)) t).0 m)))),
          (differ_iff s.policy_build_id c.policy_build_id).1 u.same_build,
          (differ_iff s.action_spec_version c.action_spec_version).1 u.same_spec,
          (differ_iff s.risk_policy_version c.risk_policy_version).1 u.same_risk,
        )
        refl,
)

-- The comparison finds nothing stale exactly when the snapshots are of one action over the same
-- tables, every record of every table has the same version in both or is in neither, and the
-- publication, the contract and the risk policy are the same. The time of the evaluation has no part
-- in it.
pub stale_reason-none :
    (s c : GuardSnapshot)
    → (stale_reason s c ≡ ok none)
      ↔ ((s.action_name ≡ c.action_name) × SameTables s c × Unchanged s c)
unfolding stale_reason
stale_reason-none s c = (
  λ h. (
    (name_eq.eqb_iff s.action_name c.action_name).0 (ground arith),
    (same_set_iff (keys (tables s)) (keys (tables c))).0 (ground arith),
    (compare-Unchanged s c).0 (ground arith),
  ),
  λ (a, t, u).
      rw
        (
          (name_eq.eqb_iff s.action_name c.action_name).1 a,
          (same_set_iff (keys (tables s)) (keys (tables c))).1 t,
          (compare-Unchanged s c).1 u,
        )
        refl,
)

-- Over the same tables a snapshot that has changed has a reason.
pub stale_reason-some :
    (s c : GuardSnapshot)
    → s.action_name ≡ c.action_name
    → SameTables s c
    → ¬ (Unchanged s c)
    → (r : StaleReason) × (stale_reason s c ≡ ok (some r))
unfolding stale_reason
stale_reason-some s c a t n = found (compare_snapshots s c (tables s) (tables c)) refl
  where
    found :
        (o : Option StaleReason)
        → compare_snapshots s c (tables s) (tables c) ≡ o
        → (r : StaleReason) × (stale_reason s c ≡ ok (some r))
    found none e = absurd (n ((compare-Unchanged s c).0 e))
    found (some r) e = (
      r,
      rw
          (
            (name_eq.eqb_iff s.action_name c.action_name).1 a,
            (same_set_iff (keys (tables s)) (keys (tables c))).1 t,
            e,
          )
          refl,
    )
