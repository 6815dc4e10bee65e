-- ===== src/Prelude/Dict.antt =====
-- A Python mapping with text keys, as an association list in insertion order.
use Prim.Native.String.{String}
use mathlib.Core.Path.{◌≡◌, refl}
use mathlib.Core.Bool.{Bool, ◌&&◌}
use mathlib.Core.Option.{Option, none, some}
use mathlib.Core.List.{List, [], ◌∷◌}
use native.Mathlib.Omega.{arith}
use text.Mathlib.TextEquality.{eq_iff}
use knowledge_agent.Prelude.Tests.{◌==◌, string_eq, is_some, if◌then◌else◌}
use knowledge_agent.Prelude.Lists.{any, all, member}

abbrev pub Dict {ℓ} : Type ℓ → Type ℓ
Dict V = List (String × V)

module _ {ℓ} {V : Type ℓ} where
  -- `d.get(k)`
  unfoldable pub lookup : String → Dict V → Option V
  lookup k [] = none
  lookup k ((j, v) ∷ d) = if j == k then some v else lookup k d

  -- `k in d`
  abbrev pub contains : String → Dict V → Bool
  contains k d = is_some (lookup k d)

  -- `set(d)`
  unfoldable pub keys : Dict V → List String
  keys [] = []
  keys ((j, v) ∷ d) = j ∷ keys d

  -- `d[k] = v`
  unfoldable pub put : String → V → Dict V → Dict V
  put k v [] = (k, v) ∷ []
  put k v ((j, w) ∷ d) = if j == k then (j, v) ∷ d else (j, w) ∷ put k v d

  pub lookup-put :
      (k j : String) (v : V) (d : Dict V)
      → lookup j (put k v d) ≡ (if k == j then some v else lookup j d)
  unfolding lookup put
  lookup-put k j v [] = refl
  lookup-put k j v ((i, w) ∷ d) =
      ground (arith, eq_iff k j, eq_iff i k, eq_iff i j, lookup-put k j v d)

-- `set(xs) <= set(ys)`
unfoldable pub subset : List String → List String → Bool
subset xs ys = all (λ x. member x ys) xs

-- `set(xs) == set(ys)`
unfoldable pub same_set : List String → List String → Bool
unfolding subset
same_set xs ys = subset xs ys && subset ys xs

-- `set(xs) & set(ys)` as a condition
unfoldable pub meets : List String → List String → Bool
meets xs ys = any (λ x. member x ys) xs
