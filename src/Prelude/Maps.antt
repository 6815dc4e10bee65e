-- ===== src/Prelude/Maps.antt =====
-- Python's dict of pairs and the equality of two dicts.
use Prim.Native.String.{String}
use mathlib.Core.Path.{◌≡◌, refl, sym, ◌∙◌}
use mathlib.Core.Logic.{◌⊎◌, inl, inr, ◌↔◌}
use mathlib.Core.Bool.{Bool, true, false, ◌&&◌}
use mathlib.Core.Option.{none, some}
use mathlib.Core.List.{List, [], ◌∷◌}
use native.Mathlib.Omega.{arith}
use knowledge_agent.Prelude.Tests.{
  ◌==◌, string_eq, option_eq, nat_eq, Eq, eqb→eq, eqb_refl, Bool-cases, Option-cases,
}
use knowledge_agent.Prelude.Lists.{
  all, member, In, All, All-In, All-of_In, all-true, all-true_of, member-In,
}
use knowledge_agent.Prelude.Dict.{Dict, lookup, keys, put, subset, same_set}

-- `dict(pairs)`: a later pair replaces an earlier one.
unfoldable pub put_all : {V : Type 0} → Dict V → List (String × V) → Dict V
put_all d [] = d
put_all d ((k, v) ∷ kvs) = put_all (put k v d) kvs

abbrev pub dict_of : {V : Type 0} → List (String × V) → Dict V
dict_of kvs = put_all [] kvs

-- `{key for key, _ in pairs}`
unfoldable pub first_parts : {V : Type 0} → List (String × V) → List String
first_parts [] = []
first_parts ((k, v) ∷ kvs) = k ∷ first_parts kvs

-- `a == b`, of two dicts
unfoldable pub dict_eqb : {V : Type 0} ⦃e : Eq V⦄ → Dict V → Dict V → Bool
dict_eqb a b = same_set (keys a) (keys b) && all (λ (kv : String × _). lookup kv.0 b == some kv.1) a

-- No key occurs twice.
abbrev pub Distinct : {V : Type 0} → Dict V → Type 0
Distinct [] = Unit
Distinct ((k, v) ∷ d) = ¬ (In k (keys d)) × Distinct d

pub subset_iff : (xs ys : List String) → (subset xs ys ≡ true) ↔ ((x : String) → In x xs → In x ys)
unfolding subset
subset_iff xs ys = (
  λ h x m. (member-In x ys).0 (All-In (λ x. member x ys ≡ true) xs x (all-true _ xs h) m),
  λ h.
      all-true_of _ xs (All-of_In (λ x. member x ys ≡ true) xs (λ x m. (member-In x ys).1 (h x m))),
)

pub same_set_iff :
    (xs ys : List String) → (same_set xs ys ≡ true) ↔ ((x : String) → In x xs ↔ In x ys)
unfolding same_set
same_set_iff xs ys = (
  λ h x. ((subset_iff xs ys).0 (ground arith) x, (subset_iff ys xs).0 (ground arith) x),
  λ h. rw ((subset_iff xs ys).1 (λ x. (h x).0), (subset_iff ys xs).1 (λ x. (h x).1)) refl,
)

module _ {V : Type 0} where
  pub lookup-In : (k : String) (v : V) (d : Dict V) → lookup k d ≡ some v → In (k, v) d
  unfolding lookup
  lookup-In k v [] h = absurd (go v h)
    where
      go : (v : V) → none ≡ some v → ⊥
      go v h = cc
  lookup-In k v ((j, w) ∷ d) h = elim (Bool-cases (j == k)) [
    | inl e ↦ inl (let q : some w ≡ some v = rw e at h in let p : j ≡ k = eqb→eq j k e in cc)
    | inr e ↦ inr (lookup-In k v d (rw e at h))
  ]

  pub keys-lookup : (k : String) (d : Dict V) → In k (keys d) → (v : V) × (lookup k d ≡ some v)
  unfolding lookup keys
  keys-lookup k [] m = elim m [ ]
  keys-lookup k ((j, w) ∷ d) (inl q) = (w, rw q (rw (eqb_refl j) refl))
  keys-lookup k ((j, w) ∷ d) (inr m) = elim (Bool-cases (j == k)) [
    | inl e ↦ (w, rw e refl)
    | inr e ↦ let (v, h) = keys-lookup k d m in (v, rw e h)
  ]

  pub In-keys : (k : String) (v : V) (d : Dict V) → In (k, v) d → In k (keys d)
  unfolding keys
  In-keys k v [] m = elim m [ ]
  In-keys k v ((j, w) ∷ d) (inl q) = inl (cc)
  In-keys k v ((j, w) ∷ d) (inr m) = inr (In-keys k v d m)

  pub lookup-keys : (k : String) (v : V) (d : Dict V) → lookup k d ≡ some v → In k (keys d)
  lookup-keys k v d h = In-keys k v d (lookup-In k v d h)

  -- Where keys are distinct, a pair of the list is what the lookup finds.
  pub In-lookup : (k : String) (v : V) (d : Dict V) → Distinct d → In (k, v) d → lookup k d ≡ some v
  unfolding lookup
  In-lookup k v [] u m = elim m [ ]
  In-lookup k v ((j, w) ∷ d) u (inl q) =
      let p : k ≡ j = cc in let r : v ≡ w = cc in rw (p, r) (rw (eqb_refl j) refl)
  In-lookup k v ((j, w) ∷ d) u (inr m) = elim (Bool-cases (j == k)) [
    | inl e ↦ absurd (u.0 (let p : j ≡ k = eqb→eq j k e in rw p (In-keys k v d m)))
    | inr e ↦ rw e (In-lookup k v d u.1 m)
  ]

  keys-put : (i k : String) (v : V) (d : Dict V) → In i (keys (put k v d)) → (i ≡ k) ⊎ In i (keys d)
  unfolding put keys
  keys-put i k v [] m = m
  keys-put i k v ((j, w) ∷ d) m = elim (Bool-cases (j == k)) [
    | inl e ↦ inr (rw e at m)
    | inr e ↦ go (keys-put i k v d) (rw e at m)
  ]
    where
      go :
          (In i (keys (put k v d)) → (i ≡ k) ⊎ In i (keys d))
          → (i ≡ j) ⊎ In i (keys (put k v d))
          → (i ≡ k) ⊎ ((i ≡ j) ⊎ In i (keys d))
      go f (inl q) = inr (inl q)
      go f (inr m) = elim (f m) [ inl q ↦ inl q | inr n ↦ inr (inr n) ]

  put-Distinct : (k : String) (v : V) (d : Dict V) → Distinct d → Distinct (put k v d)
  unfolding put keys
  put-Distinct k v [] u = (λ m. elim m [ ], tt)
  put-Distinct k v ((j, w) ∷ d) u = elim (Bool-cases (j == k)) [
    | inl e ↦ rw e u
    | inr e ↦ rw e (λ m. fresh (keys-put j k v d m) e, put-Distinct k v d u.1)
  ]
    where
      fresh : (j ≡ k) ⊎ In j (keys d) → (j == k) ≡ false → ⊥
      fresh (inr m) e = u.0 m
      fresh (inl q) e = differ (rw q at e) (eqb_refl k)
        where
          differ : (k == k) ≡ false → (k == k) ≡ true → ⊥
          differ e h = cc

  pub put_all-Distinct :
      (d : Dict V) (kvs : List (String × V)) → Distinct d → Distinct (put_all d kvs)
  unfolding put_all
  put_all-Distinct d [] u = u
  put_all-Distinct d ((k, v) ∷ kvs) u = put_all-Distinct (put k v d) kvs (put-Distinct k v d u)

nowhere-in : (V : Type 0) (i : String) → In i (keys {V = V} []) → ⊥
unfolding keys
nowhere-in V i m = elim m [ ]

module _ {V : Type 0} where
  put-keys : (i k : String) (v : V) (d : Dict V) → (i ≡ k) ⊎ In i (keys d) → In i (keys (put k v d))
  unfolding put keys
  put-keys i k v [] m = m
  put-keys i k v ((j, w) ∷ d) m = elim (Bool-cases (j == k)) [
    | inl e ↦ rw e (kept (eqb→eq j k e) m)
    | inr e ↦ rw e (added (put-keys i k v d) m)
  ]
    where
      kept : j ≡ k → (i ≡ k) ⊎ ((i ≡ j) ⊎ In i (keys d)) → (i ≡ j) ⊎ In i (keys d)
      kept p (inl q) = inl (q ∙ sym p)
      kept p (inr m) = m

      added :
          ((i ≡ k) ⊎ In i (keys d) → In i (keys (put k v d)))
          → (i ≡ k) ⊎ ((i ≡ j) ⊎ In i (keys d))
          → (i ≡ j) ⊎ In i (keys (put k v d))
      added f (inl q) = inr (f (inl q))
      added f (inr (inl q)) = inl q
      added f (inr (inr m)) = inr (f (inr m))

  -- The keys of a dict of pairs are the first parts of the pairs.
  put_all-keys :
      (i : String) (d : Dict V) (kvs : List (String × V))
      → In i (keys (put_all d kvs)) ↔ (In i (keys d) ⊎ In i (first_parts kvs))
  unfolding put_all first_parts
  put_all-keys i d [] = (λ m. inl m, elim [ inl m ↦ m | inr m ↦ elim m [ ] ])
  put_all-keys i d ((k, v) ∷ kvs) = (
    λ m. elim ((put_all-keys i (put k v d) kvs).0 m) [
      | inl n ↦ elim (keys-put i k v d n) [ inl q ↦ inr (inl q) | inr l ↦ inl l ]
      | inr n ↦ inr (inr n)
    ],
    λ m. (put_all-keys i (put k v d) kvs).1 (elim m [
      | inl n ↦ inl (put-keys i k v d (inr n))
      | inr n ↦ elim n [ inl q ↦ inl (put-keys i k v d (inl q)) | inr l ↦ inr l ]
    ]),
  )

  pub keys-dict_of :
      (i : String) (kvs : List (String × V)) → In i (keys (dict_of kvs)) ↔ In i (first_parts kvs)
  keys-dict_of i kvs = (
    λ m. elim ((put_all-keys i [] kvs).0 m) [ inl n ↦ absurd (nothing n) | inr n ↦ n ],
    λ m. (put_all-keys i [] kvs).1 (inr m),
  )
    where
      nothing : In i (keys {V = V} []) → ⊥
      nothing n = nowhere-in V i n

module _ {V : Type 0} ⦃e : Eq V⦄ where
  agree-at :
      (a b : Dict V) (k : String)
      → ((x : String) → In x (keys a) ↔ In x (keys b))
      → All (λ (kv : String × V). (lookup kv.0 b == some kv.1) ≡ true) a
      → lookup k a ≡ lookup k b
  agree-at a b k s h = elim (Option-cases (lookup k a)) [
    | inl n ↦ elim (Option-cases (lookup k b)) [
      | inl m ↦ n ∙ sym m
      | inr (v, m) ↦
          let (w, q) = keys-lookup k a ((s k).1 (lookup-keys k v b m)) in
          absurd (clash w (sym n ∙ q))
    ]
    | inr (v, q) ↦ q ∙ sym (eqb→eq (lookup k b) (some v) (All-In _ a (k, v) h (lookup-In k v a q)))
  ]
    where
      clash : (w : V) → none ≡ some w → ⊥
      clash w h = cc

  -- Two dicts are equal exactly when every key has the same value in both, or none in both.
  pub dict_eqb_iff :
      (a b : Dict V) → Distinct a → (dict_eqb a b ≡ true) ↔ ((k : String) → lookup k a ≡ lookup k b)
  unfolding dict_eqb
  dict_eqb_iff a b u = (
    λ h k.
        agree-at a b k ((same_set_iff (keys a) (keys b)).0 (ground arith))
          (all-true _ a (ground arith)),
    λ h.
        rw
          (
            (same_set_iff (keys a) (keys b)).1 (λ k. (moved a b h k, moved b a (λ j. sym (h j)) k)),
            all-true_of (λ (kv : String × V). lookup kv.0 b == some kv.1) a
                (All-of_In _ a (λ (k, v) m. found k v (sym (h k) ∙ In-lookup k v a u m))),
          )
          refl,
  )
    where
      moved :
          (a b : Dict V)
          → ((k : String) → lookup k a ≡ lookup k b)
          → (k : String) → In k (keys a)
          → In k (keys b)
      moved a b h k m = let (v, q) = keys-lookup k a m in lookup-keys k v b (sym (h k) ∙ q)

      found : (k : String) (v : V) → lookup k b ≡ some v → (lookup k b == some v) ≡ true
      found k v q = rw q (eqb_refl (some v))
