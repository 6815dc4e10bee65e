-- ===== src/Derived/Tests.antt =====
-- Concrete counts of natural days (aftersales/derived.py): two minutes over midnight at +08:00.
use knowledge_agent.Prelude.{◌+◌, ℕ, ◌*◌, ◌≤◌, arith, ◌↔◌, true, false, Option, some, ok, ◌≡◌, refl}
use knowledge_agent.Policy.{
  Instant, UtcOffset, day, minute, WindowParams, Scalar, text, offset_of, parse_utc_offset,
}
use knowledge_agent.Derived.{local_date, elapsed_natural_days}
use knowledge_agent.Derived.Window.{window_fact}
use knowledge_agent.Derived.Bounds.{IsOn, IsBefore, elapsed_natural_days_iff, window_fact_iff}

abbrev china : UtcOffset
china = record { west = false; minutes = 480 }

abbrev offset_text : Option Scalar
offset_text = some (text "+08:00")

abbrev before_midnight : Instant
before_midnight = 100 * day + 959 * minute

abbrev after_midnight : Instant
after_midnight = 100 * day + 961 * minute

parsed_offset : parse_utc_offset offset_text ≡ some china
unfolding parse_utc_offset offset_of
parsed_offset = refl

one_day : elapsed_natural_days before_midnight after_midnight china ≡ ok 1
unfolding elapsed_natural_days local_date
one_day = refl

same_day : elapsed_natural_days before_midnight before_midnight china ≡ ok 0
unfolding elapsed_natural_days local_date
same_day = refl

abbrev first_day : ℕ
first_day = 101

starts : IsOn china first_day before_midnight
starts = (omega arith, omega arith)

elapsed_natural_days_iff_example :
    (elapsed_natural_days before_midnight after_midnight china ≡ ok 1) ↔ (
      (before_midnight ≤ after_midnight)
      × (k : ℕ) × IsOn china k before_midnight
      × IsOn china (k + 1) after_midnight)
elapsed_natural_days_iff_example =
    elapsed_natural_days_iff offset_text china before_midnight after_midnight 1 parsed_offset

-- The count of the two minutes finds its local days.
days_found : (k : ℕ) × IsOn china k before_midnight × IsOn china (k + 1) after_midnight
days_found = (first_day, starts, (omega arith, omega arith))

abbrev seven_days : WindowParams
seven_days = record { window_days = 7; utc_offset = china }

window_fact_iff_example :
    ((window_fact seven_days 1).within ≡ true) ↔ IsBefore china (first_day + 7 + 1) after_midnight
window_fact_iff_example =
    window_fact_iff offset_text seven_days before_midnight after_midnight 1 first_day parsed_offset
      one_day starts
