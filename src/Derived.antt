-- ===== src/Derived.antt =====
-- aftersales/derived.py: facts computed from business evidence, a structured rule and the clock.
-- A fact keeps its value and the details that the Guard reads; the rendering of the evidence and
-- its references are left out.
pub mod Window
pub mod Bounds
mod Tests
pub mod Conflict
use Prim.Native.String.{◌++◌ as ◌<>◌}
use knowledge_agent.Prelude.{
  ℕ, ◌+◌, ◌-◌, ◌*◌, ◌/◌, String, Bool, true, false, not, ◌&&◌, ◌||◌, Option, none, some, List, [],
  ◌∷◌, Result, ok, err, ◌>>=◌, ◌>>◌, require, or_raise, Eq, ◌==◌, string_eq, nat_eq, if◌then◌else◌,
  ltb, leb, all, is_blank,
}
use knowledge_agent.Prelude.Dict.{Dict, lookup, keys}
use knowledge_agent.Prelude.Int.{ℤ, pos, negsuc}
use knowledge_agent.Policy.{Instant, day, minute, UtcOffset}

-- The value of a field. A text that holds an aware ISO-8601 timestamp is the instant it denotes.
pub data Value : Type 0 where
  null : Value
  number : ℤ → Value
  text : String → Value
  time : Instant → Value

pub record BusinessEvidence : Type 0 where
  pub entity : String
  pub record_id : String
  pub field : String
  pub value : Value
  pub locator : String
  pub observed_at : Instant
  pub observation_id : String
  pub relations : Dict String

pub data NotDerivable : Type 0 where
  start_event_absent delivery_in_future policy_not_in_effect category_required : NotDerivable
  category_not_in_scope logistics_incomplete observation_time_mismatch : NotDerivable
  order_link_missing order_link_mismatch item_package_link_ambiguous : NotDerivable

pub data DeriveError : Type 0 where
  value_error : DeriveError
  not_derivable : NotDerivable → DeriveError

abbrev pub Derive : Type 0 → Type 0
Derive A = Result DeriveError A

unfoldable pub locator_of : String → String → String → String
locator_of entity record_id field = entity <> (":" <> (record_id <> ("#" <> field)))

-- `_read_field`: the evidence itself, checked against its own locator and the clock
unfoldable pub read_field : BusinessEvidence → String → String → Instant → Derive BusinessEvidence
read_field e entity field now = do
  require (e.entity == entity && e.field == field) value_error
  require (not (is_blank e.record_id)) value_error
  require (e.locator == locator_of entity e.record_id field) value_error
  require (leb e.observed_at now) value_error
  ok e

abbrev pub no_blank_texts : Dict String → Bool
no_blank_texts = all (λ (kv : String × String). not (is_blank kv.0) && not (is_blank kv.1))

-- `_order_relation`
unfoldable pub order_relation : BusinessEvidence → Derive String
order_relation e = do
  require (no_blank_texts e.relations) value_error
  or_raise (lookup "order_id" e.relations) (not_derivable order_link_missing)

-- The calendar day, counted from a fixed day, of an instant at a utc offset. One day is added
-- before a shift to the west, so that the subtraction is exact; the offset is below 15 hours.
unfoldable pub local_date : Instant → UtcOffset → ℕ
local_date instant offset =
    if offset.west
    then (instant + day - offset.minutes * minute) / day
    else (instant + day + offset.minutes * minute) / day

-- `elapsed_natural_days`, for the one counting rule that there is
unfoldable pub elapsed_natural_days : Instant → Instant → UtcOffset → Derive ℕ
elapsed_natural_days start now offset = do
  require (leb start now) value_error
  ok (local_date now offset - local_date start offset)

-- the start event that a `delivered_at` value establishes
unfoldable pub delivery_instant : Value → Instant → Derive Instant
delivery_instant null now = err (not_derivable start_event_absent)
delivery_instant (time instant) now =
    if leb instant now then ok instant else err (not_derivable delivery_in_future)
delivery_instant _ now = err value_error

-- `_delivery`
unfoldable pub delivery : BusinessEvidence → Instant → Derive (BusinessEvidence × Instant)
delivery e now = do
  field ← read_field e "logistics" "delivered_at" now
  delivered ← delivery_instant field.value now
  ok (field, delivered)

-- `derive_days_since_delivery`; the offset is the one `parse_utc_offset` accepted
unfoldable pub derive_days_since_delivery : BusinessEvidence → Instant → UtcOffset → Derive ℕ
derive_days_since_delivery e now offset = do
  (field, delivered) ← delivery e now
  elapsed_natural_days delivered now offset

-- `derive_inventory_available`
unfoldable pub available_quantity : Value → Derive ℕ
available_quantity (number (pos n)) = ok n
available_quantity _ = err value_error

unfoldable pub derive_inventory_available : BusinessEvidence → Instant → Derive Bool
derive_inventory_available e now = do
  field ← read_field e "inventory" "available_qty" now
  quantity ← available_quantity field.value
  ok (ltb 0 quantity)
