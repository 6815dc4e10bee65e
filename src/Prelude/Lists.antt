-- ===== src/Prelude/Lists.antt =====
-- Lists measured by native numbers, and Python's `any`, `all`, `in` and comprehensions with `if`.
use Prim.Native.Nat.{ℕ, suc}
use mathlib.Core.Path.{◌≡◌, refl, sym, ◌∙◌}
use mathlib.Core.Logic.{◌⊎◌, inl, inr, ◌↔◌}
use mathlib.Core.Bool.{Bool, true, false, ◌&&◌, ◌||◌}
use mathlib.Core.List.{List, [], ◌∷◌}
use native.Mathlib.Omega.{arith}
use knowledge_agent.Prelude.Tests.{Eq, ◌==◌, if◌then◌else◌, Bool-cases, eqb→eq}

module _ {ℓ} {A : Type ℓ} where
  abbrev pub length : List A → ℕ
  length [] = 0
  length (x ∷ xs) = suc (length xs)

  abbrev pub is_empty : List A → Bool
  is_empty [] = true
  is_empty (x ∷ xs) = false

  unfoldable pub any : (A → Bool) → List A → Bool
  any p [] = false
  any p (x ∷ xs) = p x || any p xs

  unfoldable pub all : (A → Bool) → List A → Bool
  all p [] = true
  all p (x ∷ xs) = p x && all p xs

  unfoldable pub filter : (A → Bool) → List A → List A
  filter p [] = []
  filter p (x ∷ xs) = let rest = filter p xs in if p x then x ∷ rest else rest

-- Every element has the property.
abbrev pub All {ℓ κ} : {A : Type ℓ} → (A → Type κ) → List A → Type κ
All P [] = Unit
All P (x ∷ xs) = P x × All P xs

-- Membership, by recursion on the list.
abbrev pub In : {A : Type 0} → A → List A → Type 0
In a [] = ⊥
In a (x ∷ xs) = (a ≡ x) ⊎ In a xs

module _ {A : Type 0} where
  pub All-In : (P : A → Type 0) (xs : List A) (a : A) → All P xs → In a xs → P a
  All-In P [] a h m = elim m [ ]
  All-In P (x ∷ xs) a h (inl e) = rw e h.0
  All-In P (x ∷ xs) a h (inr m) = All-In P xs a h.1 m

  pub All-of_In : (P : A → Type 0) (xs : List A) → ((a : A) → In a xs → P a) → All P xs
  All-of_In P [] h = tt
  All-of_In P (x ∷ xs) h = (h x (inl refl), All-of_In P xs (λ a m. h a (inr m)))

  -- `any` fails exactly when the test fails everywhere.
  pub any-false : (p : A → Bool) (xs : List A) → any p xs ≡ false → All (λ x. p x ≡ false) xs
  unfolding any
  any-false p [] h = tt
  any-false p (x ∷ xs) h = (ground arith, any-false p xs (ground arith))

  pub any-false_of : (p : A → Bool) (xs : List A) → All (λ x. p x ≡ false) xs → any p xs ≡ false
  unfolding any
  any-false_of p [] h = refl
  any-false_of p (x ∷ xs) h = ground (arith, h.0, any-false_of p xs h.1)

  pub any-true : (p : A → Bool) (xs : List A) (a : A) → In a xs → p a ≡ true → any p xs ≡ true
  unfolding any
  any-true p [] a m h = elim m [ ]
  any-true p (x ∷ xs) a (inl e) h = rw (← e) (rw h refl)
  any-true p (x ∷ xs) a (inr m) h = ground (arith, any-true p xs a m h)

  pub all-true : (p : A → Bool) (xs : List A) → all p xs ≡ true → All (λ x. p x ≡ true) xs
  unfolding all
  all-true p [] h = tt
  all-true p (x ∷ xs) h = (ground arith, all-true p xs (ground arith))

  pub all-true_of : (p : A → Bool) (xs : List A) → All (λ x. p x ≡ true) xs → all p xs ≡ true
  unfolding all
  all-true_of p [] h = refl
  all-true_of p (x ∷ xs) h = ground (arith, h.0, all-true_of p xs h.1)

  pub In-filter : (p : A → Bool) (xs : List A) (a : A) → In a (filter p xs) → In a xs × (p a ≡ true)
  unfolding filter
  In-filter p [] a m = elim m [ ]
  In-filter p (x ∷ xs) a m = elim (Bool-cases (p x)) [
    | inl e ↦ In-filter_kept p x xs a e (rw (e, if◌then◌else◌) at m) (In-filter p xs a)
    | inr e ↦ (
      inr (In-filter p xs a (rw (e, if◌then◌else◌) at m)).0,
      (In-filter p xs a (rw (e, if◌then◌else◌) at m)).1,
    )
  ]
    where
      In-filter_kept :
          (p : A → Bool) (x : A) (xs : List A) (a : A)
          → p x ≡ true
          → (a ≡ x) ⊎ In a (filter p xs)
          → (In a (filter p xs) → In a xs × (p a ≡ true))
          → ((a ≡ x) ⊎ In a xs) × (p a ≡ true)
      In-filter_kept p x xs a e (inl q) f = (inl q, rw q e)
      In-filter_kept p x xs a e (inr m) f = (inr (f m).0, (f m).1)

  pub filter-In : (p : A → Bool) (xs : List A) (a : A) → In a xs → p a ≡ true → In a (filter p xs)
  unfolding filter
  filter-In p [] a m h = elim m [ ]
  filter-In p (x ∷ xs) a (inl e) h = rw (← e) (rw h (inl refl))
  filter-In p (x ∷ xs) a (inr m) h = elim (Bool-cases (p x)) [
    | inl e ↦ rw e (inr (filter-In p xs a m h))
    | inr e ↦ rw e (filter-In p xs a m h)
  ]

module _ {A : Type 0} ⦃e : Eq A⦄ where
  -- `a in xs`
  unfoldable pub member : A → List A → Bool
  member a [] = false
  member a (x ∷ xs) = a == x || member a xs

  pub member-In : (a : A) (xs : List A) → (member a xs ≡ true) ↔ In a xs
  unfolding member
  member-In a [] = (λ h. cc, λ m. elim m [ ])
  member-In a (x ∷ xs) = elim (Bool-cases (e.eqb a x)) [
    | inl q ↦ (λ _. inl (eqb→eq a x q), λ _. rw q)
    | inr q ↦ (
      λ h. inr ((member-In a xs).0 (rw q at h)),
      elim [
        | inl p ↦ absurd (false≢true_of (sym q ∙ (e.eqb_iff a x).1 p))
        | inr m ↦ rw q ((member-In a xs).1 m)
      ],
    )
  ]
    where
      false≢true_of : false ≡ true → ⊥
      false≢true_of h = cc
