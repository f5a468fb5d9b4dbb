-- ===== src/Prelude/Text.antt =====
-- Texts character by character: the operations of `str` that the program uses.
use Prim.Native.Char.{Char, code}
use Prim.Native.Nat.{ℕ, zero, suc}
use Prim.Native.String.{String}
use mathlib.Core.Bool.{Bool, true, false, ◌&&◌, ◌||◌}
use mathlib.Core.Path.{◌≡◌, refl, ap}
use mathlib.Core.List.{List, [], ◌∷◌}
use mathlib.Core.Option.{Option, none, some}
use mathlib.Core.Logic.{inl, inr}
use text.Mathlib.Text.{◌==◌}
use text.Mathlib.TextEquality.{eq_iff}
use native.Mathlib.Omega.{arith}
use bricktrace.Prelude.Tests.{eqb, if◌then◌else◌, Bool-cases}

abbrev pub length : String → ℕ
length String.[] = 0
length (String.◌∷◌ c s) = suc (length s)

-- s[:n]
abbrev pub take : ℕ → String → String
take zero s = String.[]
take (suc n) String.[] = String.[]
take (suc n) (String.◌∷◌ c s) = String.◌∷◌ c (take n s)

-- s + t
infixr 65 ◌⊕◌
unfoldable pub ◌⊕◌ : String → String → String
String.[] ⊕ t = t
(String.◌∷◌ c s) ⊕ t = String.◌∷◌ c (s ⊕ t)

pub ⊕_assoc : (s t u : String) → (s ⊕ t) ⊕ u ≡ s ⊕ t ⊕ u
unfolding ◌⊕◌
⊕_assoc String.[] t u = refl
⊕_assoc (String.◌∷◌ c s) t u = ap (String.◌∷◌ c) (⊕_assoc s t u)

-- The text begins with the character of this code.
abbrev pub starts : ℕ → String → Bool
starts k String.[] = false
starts k (String.◌∷◌ c s) = eqb (code c) k

-- The two characters stand side by side somewhere in the text.
unfoldable pub has_pair : ℕ → ℕ → String → Bool
has_pair a b String.[] = false
has_pair a b (String.◌∷◌ c s) = (eqb (code c) a && starts b s) || has_pair a b s

-- The piece that a character joins.
unfoldable pub onto_first : Char → List String → List String
onto_first c [] = String.◌∷◌ c String.[] ∷ []
onto_first c (s ∷ rest) = String.◌∷◌ c s ∷ rest

-- s.split(sep) for a separator of one character
unfoldable pub split : ℕ → String → List String
unfolding onto_first
split sep String.[] = String.[] ∷ []
split sep (String.◌∷◌ c s) =
    let rest = split sep s in if eqb (code c) sep then String.[] ∷ rest else onto_first c rest

-- The text behind a prefix, `none` where the text does not begin with it.
unfoldable pub after_prefix : String → String → Option String
after_prefix String.[] s = some s
after_prefix (String.◌∷◌ c p) String.[] = none
after_prefix (String.◌∷◌ c p) (String.◌∷◌ d s) =
    let rest = after_prefix p s in if eqb (code c) (code d) then rest else none

-- A text with a character is not the empty one.
pub cons_not_empty : (c : Char) (s : String) → (String.◌∷◌ c s == "") ≡ false
cons_not_empty c s = elim (Bool-cases (String.◌∷◌ c s == "")) [
  | inl e ↦ cc (ap length ((eq_iff (String.◌∷◌ c s) "").0 e))
  | inr e ↦ e
]

-- s LIKE 'prefix%'
unfoldable pub like_prefix : String → String → Bool
like_prefix String.[] s = true
like_prefix (String.◌∷◌ c p) String.[] = false
like_prefix (String.◌∷◌ c p) (String.◌∷◌ d s) = eqb (code c) (code d) && like_prefix p s

pub like_prefix-⊕ : (p s : String) → like_prefix p (p ⊕ s) ≡ true
unfolding like_prefix ◌⊕◌
like_prefix-⊕ String.[] s = refl
like_prefix-⊕ (String.◌∷◌ c p) s = ground (arith, like_prefix-⊕ p s)
