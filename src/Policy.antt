-- ===== src/Policy.antt =====
-- aftersales/policy.py: after-sales rules, their window parameters and where they apply.
pub mod Catalog
pub mod Applicable
pub mod Tiers
pub mod Selection
mod Tests
use Prim.Native.String.{◌++◌ as ◌<>◌}
use knowledge_agent.Prelude.{
  ℕ, suc, ◌+◌, ◌-◌, ◌*◌, ◌/◌, String, Bool, true, false, not, ◌&&◌, ◌||◌, Option, none, some, List,
  [], ◌∷◌, Eq, ◌==◌, string_eq, if◌then◌else◌, ltb, leb, nat_eqb, is_empty, is_some, all, member,
  is_blank, codes, ◌≡◌, refl, ◌↔◌, arith,
}
use knowledge_agent.Prelude.Dict.{Dict, lookup, keys, same_set}
use knowledge_agent.Prelude.Int.{ℤ, pos, negsuc}

-- A JSON scalar of a rule's `params`.
pub data Scalar : Type 0 where
  null : Scalar
  boolean : Bool → Scalar
  integer : ℤ → Scalar
  text : String → Scalar

-- An instant is a number of microseconds: aware datetimes are compared as absolute times.
abbrev pub Instant : Type 0
Instant = ℕ

abbrev pub day : ℕ
day = 86400000000

abbrev pub minute : ℕ
minute = 60000000

pub data PolicyRuleType : Type 0 where
  return_window exchange_window non_returnable handoff : PolicyRuleType

abbrev pub rule_type_eqb : PolicyRuleType → PolicyRuleType → Bool
rule_type_eqb PolicyRuleType.return_window PolicyRuleType.return_window = true
rule_type_eqb PolicyRuleType.exchange_window PolicyRuleType.exchange_window = true
rule_type_eqb PolicyRuleType.non_returnable PolicyRuleType.non_returnable = true
rule_type_eqb PolicyRuleType.handoff PolicyRuleType.handoff = true
rule_type_eqb _ _ = false

pub rule_type_eqb_iff : (a b : PolicyRuleType) → (rule_type_eqb a b ≡ true) ↔ (a ≡ b)
rule_type_eqb_iff PolicyRuleType.return_window b = ground arith
rule_type_eqb_iff PolicyRuleType.exchange_window b = ground arith
rule_type_eqb_iff PolicyRuleType.non_returnable b = ground arith
rule_type_eqb_iff PolicyRuleType.handoff b = ground arith

instance abbrev pub rule_type_eq : Eq PolicyRuleType
rule_type_eq = record { eqb = rule_type_eqb; eqb_iff = rule_type_eqb_iff }

-- WINDOW_RULE_TYPES
abbrev pub is_window : PolicyRuleType → Bool
is_window PolicyRuleType.return_window = true
is_window PolicyRuleType.exchange_window = true
is_window _ = false

-- `timezone(delta)`: a shift of whole minutes to the east, or to the west.
pub record UtcOffset : Type 0 where
  pub west : Bool
  pub minutes : ℕ

abbrev pub is_digit : ℕ → Bool
is_digit c = leb b'0' c && leb c b'9'

abbrev two_digits : ℕ → ℕ → ℕ
two_digits a b = (a - b'0') * 10 + (b - b'0')

abbrev pub is_end : List ℕ → Bool
is_end [] = true
is_end (c ∷ []) = nat_eqb c 10
is_end (c ∷ d ∷ cs) = false

-- the match of `^([+-])(\d{2}):(\d{2})$` (`$` accepts one final newline), with the bounds
unfoldable pub offset_of : List ℕ → Option UtcOffset
offset_of (s ∷ a ∷ b ∷ colon ∷ c ∷ d ∷ rest) =
    if not (
      (nat_eqb s b'+' || nat_eqb s b'-')
      && is_digit a
      && is_digit b
      && nat_eqb colon b':'
      && is_digit c
      && is_digit d
      && is_end rest)
    then none
    else if ltb 14 (two_digits a b)
        || ltb 59 (two_digits c d)
        || (nat_eqb (two_digits a b) 14 && not (nat_eqb (two_digits c d) 0))
    then none
    else some (record { west = nat_eqb s b'-'; minutes = two_digits a b * 60 + two_digits c d })
offset_of _ = none

-- `parse_utc_offset`; `none` is its ValueError.
unfoldable pub parse_utc_offset : Option Scalar → Option UtcOffset
parse_utc_offset (some (text s)) = offset_of (codes s)
parse_utc_offset _ = none

-- `start_event` and `counting_rule` have one value each, so they carry nothing.
pub record WindowParams : Type 0 where
  pub window_days : ℕ
  pub utc_offset : UtcOffset

abbrev pub window_param_keys : List String
window_param_keys = "window_days" ∷ "start_event" ∷ "counting_rule" ∷ "utc_offset" ∷ []

-- a positive integer that is no bool
unfoldable pub positive : Option Scalar → Option ℕ
positive (some (integer (pos (suc n)))) = some (suc n)
positive _ = none

unfoldable pub is_text : String → Option Scalar → Bool
is_text expected (some (text s)) = s == expected
is_text expected _ = false

abbrev pub window_of : Option ℕ → Option UtcOffset → Option WindowParams
window_of (some n) (some offset) = some (record { window_days = n; utc_offset = offset })
window_of _ _ = none

-- `parse_window_params`; `none` is its ValueError.
unfoldable pub parse_window_params : Dict Scalar → Option WindowParams
parse_window_params params =
    if not (same_set (keys params) window_param_keys)
    then none
    else if not (
        is_text "delivered" (lookup "start_event" params)
        && is_text "natural_days_from_next_day" (lookup "counting_rule" params))
    then none
    else window_of (positive (lookup "window_days" params))
        (parse_utc_offset (lookup "utc_offset" params))

-- Texts that the rules themselves do not read (title, source_doc, locator) are left out of the
-- record. The timestamps, checked by the constructor, are the instants that they denote.
pub record PolicyRecord : Type 0 where
  pub policy_id : String
  pub version : String
  pub rule_type : PolicyRuleType
  pub scope : List String
  pub params : Dict Scalar
  pub effective_from : Instant
  pub effective_to : Option Instant
  pub build_id : String
  pub priority : ℤ

abbrev later_than : Instant → Option Instant → Bool
later_than from none = true
later_than from (some to) = ltb from to

-- `PolicyRecord.__post_init__` on these fields: does the construction succeed?
unfoldable pub constructs : PolicyRecord → Bool
constructs r =
    not (is_blank r.policy_id)
    && not (is_blank r.version)
    && not (is_blank r.build_id)
    && all (λ item. not (is_blank item)) r.scope
    && (if is_window r.rule_type then is_some (parse_window_params r.params) else true)
    && later_than r.effective_from r.effective_to

-- `window_params(record)`
unfoldable pub window_params : PolicyRecord → Option WindowParams
window_params r = if is_window r.rule_type then parse_window_params r.params else none

unfoldable pub policy_ref : PolicyRecord → String
policy_ref r = "policy:" <> (r.policy_id <> ("@" <> (r.version <> ("#" <> r.build_id))))

-- `[effective_from, effective_to)`
unfoldable pub is_policy_in_effect : PolicyRecord → Instant → Bool
is_policy_in_effect r as_of =
    if ltb as_of r.effective_from
    then false
    else elim r.effective_to [ none ↦ true | some to ↦ if leb to as_of then false else true ]

-- Empty scope: every category.
unfoldable pub policy_applies_to_category : PolicyRecord → String → Bool
policy_applies_to_category r category = is_empty r.scope || member category r.scope
