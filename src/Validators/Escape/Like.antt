-- ===== src/Validators/Escape/Like.antt =====
-- What the pattern that backend/validators.py makes of a value matches: the LIKE of Spark, whose
-- escape character is the backslash.
use text.Mathlib.TextEquality.{Char-path}
use bricktrace.Prelude.{
  String, Bool, true, false, ◌==◌, ◌&&◌, ◌||◌, Char, code, eqb, if◌then◌else◌, Option, none, some,
  List, [], ◌∷◌, ◌≡◌, refl, ap, arith, Bool-cases, inl, inr, eq_iff,
}
use bricktrace.Validators.Escape.{prefix_each, text_of, like_escape}

-- The tokens of a LIKE pattern: a character that stands for itself, `_` and `%`.
pub data Token : Type 0 where
  only : Char → Token
  any_one any_run : Token

token : Char → Token
token c = if eqb (code c) b'_' then any_one else if eqb (code c) b'%' then any_run else only c

and_then : Token → Option (List Token) → Option (List Token)
and_then t none = none
and_then t (some ts) = some (t ∷ ts)

special : Char → Bool
special c = eqb (code c) b'\\' || eqb (code c) b'%' || eqb (code c) b'_'

-- Spark's reader of a pattern: a backslash stands only before `_`, `%` or a backslash; before any
-- other character, and at the end, the pattern is refused.
unfoldable pub read_pattern : String → Option (List Token)
unfolding token and_then special
read_pattern String.[] = some []
read_pattern (String.◌∷◌ c String.[]) = if eqb (code c) b'\\' then none else some (token c ∷ [])
read_pattern (String.◌∷◌ c (String.◌∷◌ d s)) =
    let escaped = if special d then and_then (only d) (read_pattern s) else none in
    let plain = and_then (token c) (read_pattern (String.◌∷◌ d s)) in
    if eqb (code c) b'\\' then escaped else plain

unfoldable pub only_itself : String → List Token
only_itself String.[] = []
only_itself (String.◌∷◌ c s) = only c ∷ only_itself s

read_plain_token :
    (c : Char) (t : String)
    → eqb (code c) b'\\' ≡ false
    → read_pattern (String.◌∷◌ c t) ≡ and_then (token c) (read_pattern t)
unfolding read_pattern and_then
read_plain_token c String.[] h = rw h
read_plain_token c (String.◌∷◌ d t) h = rw h

like_escape_cons :
    (c : Char) (s : String)
    → like_escape (some (String.◌∷◌ c s)) ≡ (
        if special c
        then String.◌∷◌ "\\" (String.◌∷◌ c (like_escape (some s)))
        else String.◌∷◌ c (like_escape (some s)))
unfolding like_escape prefix_each text_of special
like_escape_cons c s = ground arith

token_of_plain : (c : Char) → special c ≡ false → token c ≡ only c
unfolding special token
token_of_plain c h = ground arith

read_empty : read_pattern (like_escape (some String.[])) ≡ some []
unfolding read_pattern like_escape text_of prefix_each
read_empty = refl

not_backslash : (c : Char) → special c ≡ false → eqb (code c) b'\\' ≡ false
unfolding special
not_backslash c h = ground arith

read_escaped_token :
    (c : Char) (t : String)
    → special c ≡ true
    → read_pattern (String.◌∷◌ "\\" (String.◌∷◌ c t)) ≡ and_then (only c) (read_pattern t)
unfolding read_pattern
read_escaped_token c t h = rw h

read_pattern-like_escape : (s : String) → read_pattern (like_escape (some s)) ≡ some (only_itself s)
unfolding only_itself and_then
read_pattern-like_escape String.[] = read_empty
read_pattern-like_escape (String.◌∷◌ c s) =
    let ih = read_pattern-like_escape s in
    elim (Bool-cases (special c)) [
      | inl e ↦ rw (like_escape_cons c s, e, read_escaped_token c (like_escape (some s)) e, ih)
      | inr e ↦ rw (
        like_escape_cons c s,
        e,
        read_plain_token c (like_escape (some s)) (not_backslash c e),
        token_of_plain c e,
        ih,
      )
    ]

-- Whether a pattern matches a whole text.
unfoldable pub matches : List Token → String → Bool
matches [] String.[] = true
matches [] (String.◌∷◌ d t) = false
matches (only c ∷ ts) String.[] = false
matches (only c ∷ ts) (String.◌∷◌ d t) = eqb (code c) (code d) && matches ts t
matches (any_one ∷ ts) String.[] = false
matches (any_one ∷ ts) (String.◌∷◌ d t) = matches ts t
matches (any_run ∷ ts) String.[] = matches ts String.[]
matches (any_run ∷ ts) (String.◌∷◌ d t) = matches ts (String.◌∷◌ d t) || matches (any_run ∷ ts) t

match_all : Option (List Token) → String → Option Bool
match_all none t = none
match_all (some ts) t = some (matches ts t)

-- `t LIKE pattern`; `none` where Spark refuses the pattern.
unfoldable pub like : String → String → Option Bool
unfolding match_all read_pattern
like pattern t = match_all (read_pattern pattern) t

matches_itself : (s : String) → matches (only_itself s) s ≡ true
unfolding matches only_itself
matches_itself String.[] = refl
matches_itself (String.◌∷◌ c s) = ground (arith, matches_itself s)

matches_only : (s t : String) → matches (only_itself s) t ≡ true → t ≡ s
unfolding matches only_itself
matches_only String.[] String.[] h = refl
matches_only String.[] (String.◌∷◌ d t) h = cc h
matches_only (String.◌∷◌ c s) String.[] h = cc h
matches_only (String.◌∷◌ c s) (String.◌∷◌ d t) h =
    let same : d ≡ c = Char-path d c (ground arith) in
    let rest : t ≡ s = matches_only s t (ground arith) in cc

matches-only_itself : (s t : String) → matches (only_itself s) t ≡ (t == s)
matches-only_itself s t = elim (Bool-cases (t == s)) [
  | inl e ↦ rw ((eq_iff t s).0 e, (eq_iff s s).1 refl) (matches_itself s)
  | inr e ↦ elim (Bool-cases (matches (only_itself s) t)) [
    | inl m ↦ cc (e, (eq_iff t s).1 (matches_only s t m))
    | inr m ↦ rw (e, m) refl
  ]
]

-- A value put through like_escape is a pattern that Spark accepts, and a text matches it exactly
-- when it is that value: no character of the value is left as a wildcard.
pub like-like_escape : (s t : String) → like (like_escape (some s)) t ≡ some (t == s)
unfolding like match_all
like-like_escape s t = rw read_pattern-like_escape (ap some (matches-only_itself s t))
