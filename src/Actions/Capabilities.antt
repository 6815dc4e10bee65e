-- ===== src/Actions/Capabilities.antt =====
-- aftersales/capabilities.py: the capability gate, which can only shrink what it is given.
use knowledge_agent.Prelude.{
  String, Bool, true, false, not, ◌&&◌, Option, none, some, List, [], ◌∷◌, Result, ok, err,
  any-false, string_eq, if◌then◌else◌, any, filter, member, In, In-filter, filter-In, member-In,
  All-In, ◌≡◌, arith, Bool-cases, inl, inr,
}

pub data ConfigurationError : Type 0 where
  not_distinct outside_bound : ConfigurationError

pub record EffectiveCapabilities : Type 0 where
  pub read_tools : List String
  pub actions : List String

-- `len(set(names)) == len(names)`
unfoldable pub distinct : List String → Bool
distinct [] = true
distinct (x ∷ xs) = not (member x xs) && distinct xs

-- `_subset`: None asks for the whole bound. (The requests are texts, so the checks on a single
-- string and on other types have no counterpart.)
unfoldable pub subset_of :
    Option (List String) → List String → Result ConfigurationError (List String)
subset_of none bound = ok bound
subset_of (some names) bound =
    if not (distinct names)
    then err ConfigurationError.not_distinct
    else if any (λ name. not (member name bound)) names
    then err ConfigurationError.outside_bound
    else ok (filter (λ name. member name names) bound)

abbrev both :
    Result ConfigurationError (List String)
    → Result ConfigurationError (List String)
    → Result ConfigurationError EffectiveCapabilities
both (ok tools) (ok actions) = ok (record { read_tools = tools; actions = actions })
both (ok tools) (err e) = err e
both (err e) _ = err e

-- `CapabilityGate.narrow`, and with the deployment's bound `CapabilityGate.__init__`
unfoldable pub narrow :
    EffectiveCapabilities
    → Option (List String)
    → Option (List String)
    → Result ConfigurationError EffectiveCapabilities
unfolding subset_of
narrow static read_tools actions =
    both (subset_of read_tools static.read_tools) (subset_of actions static.actions)

subset_of-In :
    (names bound out : List String)
    → subset_of (some names) bound ≡ ok out
    → (x : String) → (In x out → In x names × In x bound) × (In x names → In x out)
unfolding subset_of
subset_of-In names bound out h x = elim (Bool-cases (distinct names)) [
  | inr e ↦ absurd (not_ok (rw e at h))
  | inl e ↦ elim (Bool-cases (any (λ name. not (member name bound)) names)) [
    | inl f ↦ absurd (not_ok (rw (e, f) at h))
    | inr f ↦ within (all_within f) (ok_eq (rw (e, f) at h))
  ]
]
  where
    not_ok : {e : ConfigurationError} → err e ≡ ok out → ⊥
    not_ok q = cc

    ok_eq :
        ◌≡◌ {A = Result ConfigurationError (List String)}
          (ok (filter (λ name. member name names) bound))
          (ok out)
        → filter (λ name. member name names) bound ≡ out
    ok_eq q = cc

    all_within : any (λ name. not (member name bound)) names ≡ false → In x names → In x bound
    all_within f m =
        not_false (All-In (λ n. not (member n bound) ≡ false) names x (any-false _ names f) m)
      where
        not_false : not (member x bound) ≡ false → In x bound
        not_false q = (member-In x bound).0 (ground arith)

    within :
        (In x names → In x bound)
        → filter (λ name. member name names) bound ≡ out
        → (In x out → In x names × In x bound) × (In x names → In x out)
    within g q = (
      λ m. (
        (member-In x names).0 (In-filter (λ n. member n names) bound x (rw (← q) at m)).1,
        (In-filter (λ n. member n names) bound x (rw (← q) at m)).0,
      ),
      λ m. rw (← q) (filter-In (λ n. member n names) bound x (g m) ((member-In x names).1 m)),
    )

both-ok :
    (t a : Result ConfigurationError (List String)) (c : EffectiveCapabilities)
    → both t a ≡ ok c
    → (t ≡ ok c.read_tools) × (a ≡ ok c.actions)
both-ok (ok t) (ok a) c h = ground arith
both-ok (ok t) (err e) c h = cc
both-ok (err e) a c h = cc

-- A narrowing that succeeds grants exactly what was asked for, and nothing outside the static
-- set: every granted tool or action is a requested one and a static one, and every requested one
-- is granted.
pub narrow_shrinks :
    (static : EffectiveCapabilities) (tools actions : List String) (c : EffectiveCapabilities)
    → narrow static (some tools) (some actions) ≡ ok c
    → (x : String)
    → (In x c.read_tools → In x tools × In x static.read_tools)
      × (In x tools → In x c.read_tools)
      × (In x c.actions → In x actions × In x static.actions)
      × (In x actions → In x c.actions)
unfolding narrow
narrow_shrinks static tools actions c h x =
    let (ht, ha) =
      both-ok (subset_of (some tools) static.read_tools) (subset_of (some actions) static.actions) c
        h in
    let (t₁, t₂) = subset_of-In tools static.read_tools c.read_tools ht x in
    let (a₁, a₂) = subset_of-In actions static.actions c.actions ha x in (t₁, t₂, a₁, a₂)
