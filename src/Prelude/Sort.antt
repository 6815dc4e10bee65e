-- ===== src/Prelude/Sort.antt =====
-- `sorted(items)` under a Boolean order: insertion sort, which is stable as Python's sort is.
use knowledge_agent.Prelude.Tests.{if◌then◌else◌, Bool-cases}
use knowledge_agent.Prelude.Lists.{In, length}
use Prim.Native.Nat.{suc}
use mathlib.Core.Path.{◌≡◌, refl}
use mathlib.Core.Logic.{◌↔◌, ◌⊎◌, inl, inr}
use mathlib.Core.Bool.{Bool, true, false}
use mathlib.Core.List.{List, [], ◌∷◌}
use native.Mathlib.Omega.{arith}

module _ {A : Type 0} (le : A → A → Bool) where
  unfoldable pub insert : A → List A → List A
  insert x [] = x ∷ []
  insert x (y ∷ ys) = let rest = insert x ys in if le x y then x ∷ y ∷ ys else y ∷ rest

  unfoldable pub sorted : List A → List A
  unfolding insert
  sorted [] = []
  sorted (x ∷ xs) = insert x (sorted xs)

  pub In-insert : (x : A) (ys : List A) (a : A) → In a (insert x ys) ↔ ((a ≡ x) ⊎ In a ys)
  unfolding insert
  In-insert x [] a = (λ m. m, λ m. m)
  In-insert x (y ∷ ys) a = elim (Bool-cases (le x y)) [
    | inl e ↦ rw e (λ m. m, λ m. m)
    | inr e ↦ rw e (
      elim [
        | inl q ↦ inr (inl q)
        | inr m ↦ elim ((In-insert x ys a).0 m) [ inl q ↦ inl q | inr n ↦ inr (inr n) ]
      ],
      elim [
        | inl q ↦ inr ((In-insert x ys a).1 (inl q))
        | inr m ↦ elim m [ inl q ↦ inl q | inr n ↦ inr ((In-insert x ys a).1 (inr n)) ]
      ],
    )
  ]

  pub In-sorted : (xs : List A) (a : A) → In a (sorted xs) ↔ In a xs
  unfolding sorted
  In-sorted [] a = (λ m. m, λ m. m)
  In-sorted (x ∷ xs) a = (
    λ m. elim ((In-insert x (sorted xs) a).0 m) [
      | inl q ↦ inl q
      | inr n ↦ inr ((In-sorted xs a).0 n)
    ],
    elim [
      | inl q ↦ (In-insert x (sorted xs) a).1 (inl q)
      | inr n ↦ (In-insert x (sorted xs) a).1 (inr ((In-sorted xs a).1 n))
    ],
  )

  pub length-insert : (x : A) (ys : List A) → length (insert x ys) ≡ suc (length ys)
  unfolding insert
  length-insert x [] = refl
  length-insert x (y ∷ ys) = ground (arith, length-insert x ys)

  pub length-sorted : (xs : List A) → length (sorted xs) ≡ length xs
  unfolding sorted
  length-sorted [] = refl
  length-sorted (x ∷ xs) = ground (arith, length-insert x (sorted xs), length-sorted xs)

  -- Each item is before the next.
  abbrev pub Chain : List A → Type 0
  Chain [] = Unit
  Chain (x ∷ []) = Unit
  Chain (x ∷ y ∷ ys) = (le x y ≡ true) × Chain (y ∷ ys)

  Chain-insert :
      ((a b : A) → le a b ≡ false → le b a ≡ true)
      → (x : A) (ys : List A) → Chain ys
      → Chain (insert x ys)
  unfolding insert
  Chain-insert total x [] c = tt
  Chain-insert total x (y ∷ []) c = elim (Bool-cases (le x y)) [
    | inl e ↦ rw e (e, tt)
    | inr e ↦ rw e (total x y e, tt)
  ]
  Chain-insert total x (y ∷ z ∷ zs) c = elim (Bool-cases (le x y)) [
    | inl e ↦ rw e (e, c)
    | inr e ↦
        let more = Chain-insert total x (z ∷ zs) c.1 in
        rw e (elim (Bool-cases (le x z)) [
          | inl k ↦ rw k (total x y e, rw k at more)
          | inr k ↦ rw k (c.0, rw k at more)
        ])
  ]

  sorted-Chain : ((a b : A) → le a b ≡ false → le b a ≡ true) → (xs : List A) → Chain (sorted xs)
  unfolding sorted
  sorted-Chain total [] = tt
  sorted-Chain total (x ∷ xs) = Chain-insert total x (sorted xs) (sorted-Chain total xs)

  pub Chain-sorted : (xs : List A) → Chain xs → sorted xs ≡ xs
  unfolding sorted insert
  Chain-sorted [] c = refl
  Chain-sorted (x ∷ []) c = refl
  Chain-sorted (x ∷ y ∷ ys) c = rw (Chain-sorted (y ∷ ys) c.1) (rw c.0 refl)

  -- Under a total order, sorting sorted items leaves them as they are.
  pub sorted_idem :
      ((a b : A) → le a b ≡ false → le b a ≡ true) → (xs : List A) → sorted (sorted xs) ≡ sorted xs
  sorted_idem total xs = Chain-sorted (sorted xs) (sorted-Chain total xs)
