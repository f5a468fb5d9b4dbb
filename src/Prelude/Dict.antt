-- ===== src/Prelude/Dict.antt =====
-- A `dict` with text keys, as an association list in insertion order. A new key goes to the end,
-- an assignment to an old key keeps its place, as in Python.
use mathlib.Core.Bool.{Bool, true, false}
use mathlib.Core.List.{List, [], ◌∷◌}
use mathlib.Core.Option.{Option, none, some}
use mathlib.Core.Path.{◌≡◌, refl}
use Prim.Native.String.{String}
use native.Mathlib.Omega.{arith}
use text.Mathlib.Text.{◌==◌}
use text.Mathlib.TextEquality.{eq_iff}
use mathlib.Core.Logic.{inl, inr}
use bricktrace.Prelude.Tests.{if◌then◌else◌, Option-cases}
use bricktrace.Prelude.Lists.{elem}

abbrev pub Dict {ℓ} : Type ℓ → Type ℓ
Dict V = List (String × V)

module _ {ℓ} {V : Type ℓ} where
  unfoldable pub lookup : String → Dict V → Option V
  lookup k [] = none
  lookup k ((j, v) ∷ d) = if k == j then some v else lookup k d

  unfoldable pub insert : String → V → Dict V → Dict V
  insert k v [] = (k, v) ∷ []
  insert k v ((j, w) ∷ d) = if k == j then (j, v) ∷ d else (j, w) ∷ insert k v d

  unfoldable pub erase : String → Dict V → Dict V
  erase k [] = []
  erase k ((j, w) ∷ d) = if k == j then d else (j, w) ∷ erase k d

  abbrev pub keys : Dict V → List String
  keys [] = []
  keys ((k, v) ∷ d) = k ∷ keys d

  -- `k in d`
  unfoldable pub known : Dict V → String → Bool
  unfolding lookup
  known d k = elim (lookup k d) [ none ↦ false | some v ↦ true ]

  pub lookup-insert :
      (k j : String) (v : V) (d : Dict V)
      → lookup j (insert k v d) ≡ (if j == k then some v else lookup j d)
  unfolding lookup insert
  lookup-insert k j v [] = refl
  lookup-insert k j v ((i, w) ∷ d) =
      ground (arith, eq_iff j k, eq_iff k i, eq_iff j i, lookup-insert k j v d)

  pub lookup-eq-none : (k : String) (d : Dict V) → elem k (keys d) ≡ false → lookup k d ≡ none
  unfolding lookup elem
  lookup-eq-none k [] h = refl
  lookup-eq-none k ((j, v) ∷ d) h = ground (arith, lookup-eq-none k d)

  pub elem-keys-insert :
      (k j : String) (v : V) (d : Dict V)
      → elem j (keys (insert k v d)) ≡ (if j == k then true else elem j (keys d))
  unfolding insert elem
  elem-keys-insert k j v [] = ground arith
  elem-keys-insert k j v ((i, w) ∷ d) =
      ground (arith, eq_iff j k, eq_iff k i, eq_iff j i, elem-keys-insert k j v d)

  pub known-insert :
      (k j : String) (v : V) (d : Dict V)
      → known (insert k v d) j ≡ (if j == k then true else known d j)
  unfolding known
  known-insert k j v d = ground (arith, lookup-insert k j v d)

  pub known_of_lookup : (k : String) (v : V) (d : Dict V) → lookup k d ≡ some v → known d k ≡ true
  unfolding known
  known_of_lookup k v d h = rw (h, known)

  pub lookup_of_known :
      (k : String) (d : Dict V) → known d k ≡ true → (v : V) × (lookup k d ≡ some v)
  unfolding known
  lookup_of_known k d h = elim (Option-cases (lookup k d)) [
    | inl e ↦ cc (rw (e, known) at h)
    | inr (v, e) ↦ (v, e)
  ]
