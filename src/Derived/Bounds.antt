-- ===== src/Derived/Bounds.antt =====
-- aftersales/derived.py: what a count of natural days says of local midnights.
use knowledge_agent.Prelude.{
  ℕ, ◌+◌, ◌-◌, ◌*◌, ◌≤◌, ◌<◌, Bool, true, false, leb, le→leb, codes, Option, none, some, List, ok,
  err, refl, require, ◌>>◌, Bool-cases, ◌≡◌, ◌↔◌, ap, sym, ◌∙◌, inl, inr, arith,
}
use mathlib.Core.Path.{subst}
use knowledge_agent.Policy.{
  Instant, UtcOffset, day, minute, WindowParams, Scalar, text, offset_of, parse_utc_offset,
}
use knowledge_agent.Derived.Window.{window_fact}
use knowledge_agent.Derived.{Derive, value_error, local_date, elapsed_natural_days}

-- The local midnight with which day k begins is not later than the instant. A clock to the east
-- shows the time of the zero offset and the offset more, one to the west as much less. Day 0 is the
-- one before the day of the clock's zero.
abbrev pub IsSince : UtcOffset → ℕ → Instant → Type 0
IsSince o k t = elim o.west [
  | true ↦ k * day + o.minutes * minute ≤ t + day
  | false ↦ k * day ≤ t + day + o.minutes * minute
]

-- The instant is earlier than that midnight.
abbrev pub IsBefore : UtcOffset → ℕ → Instant → Type 0
IsBefore o k t = elim o.west [
  | true ↦ t + day < k * day + o.minutes * minute
  | false ↦ t + day + o.minutes * minute < k * day
]

-- The instant is on the local day k.
abbrev pub IsOn : UtcOffset → ℕ → Instant → Type 0
IsOn o k t = IsSince o k t × IsBefore o (k + 1) t

local_date-IsOn :
    (t : Instant) (o : UtcOffset) → o.minutes * minute ≤ day → IsOn o (local_date t o) t
unfolding local_date
local_date-IsOn t o m = elim (Bool-cases o.west) [
  | inl e ↦ rw e (omega arith, omega arith)
  | inr e ↦ rw e (omega arith, omega arith)
]

-- the local day of an instant is the only one
IsOn-local_date :
    (t : Instant) (o : UtcOffset) (k : ℕ)
    → o.minutes * minute ≤ day
    → IsOn o k t
    → local_date t o ≡ k
unfolding local_date
IsOn-local_date t o k m h = elim (Bool-cases o.west) [
  | inl e ↦ let (a, b) = (rw e at h) in rw e (omega arith)
  | inr e ↦ let (a, b) = (rw e at h) in rw e (omega arith)
]

local_date_mono :
    (start now : Instant) (o : UtcOffset) → start ≤ now → local_date start o ≤ local_date now o
unfolding local_date
local_date_mono start now o h = elim (Bool-cases o.west) [
  | inl e ↦ rw e (omega arith)
  | inr e ↦ rw e (omega arith)
]

-- the count, where the start is not later than the time
counted :
    (b : Bool) (k days : ℕ) → (do require b value_error; ok k) ≡ ok days → (b ≡ true) × (k ≡ days)
counted true k days h = (refl, go h)
  where
    go : ◌≡◌ {A = Derive ℕ} (ok k) (ok days) → k ≡ days
    go q = cc
counted false k days h = absurd (go h)
  where
    go : ◌≡◌ {A = Derive ℕ} (err value_error) (ok days) → ⊥
    go q = cc

offset_of-bounds : (cs : List ℕ) (o : UtcOffset) → offset_of cs ≡ some o → o.minutes ≤ 14 * 60
unfolding offset_of
offset_of-bounds cs o h = ground arith

parse_utc_offset-bounds :
    (value : Option Scalar) (o : UtcOffset) → parse_utc_offset value ≡ some o → o.minutes ≤ 14 * 60
unfolding parse_utc_offset
parse_utc_offset-bounds (some (text s)) o h = offset_of-bounds (codes s) o h
parse_utc_offset-bounds value o h = absurd (none_some h)
  where
    none_some : none ≡ some o → ⊥
    none_some q = cc

short :
    (value : Option Scalar) (o : UtcOffset)
    → parse_utc_offset value ≡ some o
    → o.minutes * minute ≤ day
short value o p = let m = parse_utc_offset-bounds value o p in omega arith

-- At an offset that parse_utc_offset reads, the count of natural days is the number of local
-- midnights passed: it is `days` exactly where the start is not later than the time, the start is on
-- some local day k, and the time on the local day k + days.
pub elapsed_natural_days_iff :
    (value : Option Scalar) (o : UtcOffset) (start now : Instant) (days : ℕ)
    → parse_utc_offset value ≡ some o
    → (elapsed_natural_days start now o ≡ ok days)
      ↔ ((start ≤ now) × (k : ℕ) × IsOn o k start × IsOn o (k + days) now)
unfolding elapsed_natural_days
elapsed_natural_days_iff value o start now days p =
    let m = short value o p in
    (
      λ h.
          let (e, k) = counted (leb start now) (local_date now o - local_date start o) days h in
          let le : start ≤ now = ground (arith, e) in
          let mono = local_date_mono start now o le in
          let same : local_date now o ≡ local_date start o + days = omega arith in
          (
            le,
            local_date start o,
            local_date-IsOn start o m,
            subst (λ d. IsOn o d now) same (local_date-IsOn now o m),
          ),
      λ (le, k, from, to).
          rw
            (
              le→leb start now le,
              IsOn-local_date start o k m from,
              IsOn-local_date now o (k + days) m to,
            )
            (ap (λ (d : ℕ). ok d) (added k days)),
    )
  where
    added : (k d : ℕ) → (k + d - k) ≡ d
    added k d = omega arith

-- Midnights are in order.
later-IsBefore : (o : UtcOffset) (a b : ℕ) (t : Instant) → a ≤ b → IsBefore o a t → IsBefore o b t
later-IsBefore o a b t h q = elim (Bool-cases o.west) [
  | inl e ↦ let x : t + day < a * day + o.minutes * minute = (rw e at q) in rw e (omega arith)
  | inr e ↦ let x : t + day + o.minutes * minute < a * day = (rw e at q) in rw e (omega arith)
]

IsSince-IsBefore : (o : UtcOffset) (a b : ℕ) (t : Instant) → IsSince o a t → IsBefore o b t → a < b
IsSince-IsBefore o a b t p q = elim (Bool-cases o.west) [
  | inl e ↦
      let x : a * day + o.minutes * minute ≤ t + day = (rw e at p) in
      let y : t + day < b * day + o.minutes * minute = (rw e at q) in omega arith
  | inr e ↦
      let x : a * day ≤ t + day + o.minutes * minute = (rw e at p) in
      let y : t + day + o.minutes * minute < b * day = (rw e at q) in omega arith
]

-- Under a window of w days at an offset that parse_utc_offset reads, an item whose start event was on
-- the local day k is inside the window exactly where the time is before the local midnight with which
-- day k + w + 1 begins.
pub window_fact_iff :
    (value : Option Scalar) (params : WindowParams) (start now : Instant) (days k : ℕ)
    → parse_utc_offset value ≡ some params.utc_offset
    → elapsed_natural_days start now params.utc_offset ≡ ok days
    → IsOn params.utc_offset k start
    → ((window_fact params days).within ≡ true)
      ↔ IsBefore params.utc_offset (k + params.window_days + 1) now
unfolding window_fact
window_fact_iff value params start now days k p h from =
    let (le, j, first, on) =
      (elapsed_natural_days_iff value params.utc_offset start now days p).0 h in
    let m = short value params.utc_offset p in
    let same : j ≡ k =
      sym (IsOn-local_date start params.utc_offset j m first)
      ∙ IsOn-local_date start params.utc_offset k m from in
    let (since, before) = subst (λ d. IsOn params.utc_offset (d + days) now) same on in
    (
      λ w.
          let n : days ≤ params.window_days = ground (arith, w) in
          later-IsBefore params.utc_offset (k + days + 1) (k + params.window_days + 1) now
            (omega arith) before,
      λ b.
          let n =
            IsSince-IsBefore params.utc_offset (k + days) (k + params.window_days + 1) now since
              b in
          le→leb days params.window_days (omega arith),
    )
