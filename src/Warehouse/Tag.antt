-- ===== src/Warehouse/Tag.antt =====
-- The attribution comment of backend/warehouse_gate.py. `str.isprintable` and `str.isspace` read
-- Unicode's tables and the digest is a hash: they are parameters.
pub mod Safe
use Prim.Native.Char.{code}
use bricktrace.Prelude.{
  ℕ, String, Bool, true, false, ◌&&◌, not, ◌==◌, List, [], ◌∷◌, ◌++◌, Char, eqb, if◌then◌else◌,
}
use bricktrace.Prelude.Text.{take, ◌⊕◌}

-- The longest endpoint text that is kept.
abbrev pub tag_max_len : ℕ
tag_max_len = 120

-- s.replace(ab, " ") for a pattern of two characters
unfoldable pub replace_pair : ℕ → ℕ → String → String
replace_pair a b String.[] = String.[]
replace_pair a b (String.◌∷◌ c String.[]) = String.◌∷◌ c String.[]
replace_pair a b (String.◌∷◌ c (String.◌∷◌ d s)) =
    let found = String.◌∷◌ " " (replace_pair a b s) in
    let kept = String.◌∷◌ c (replace_pair a b (String.◌∷◌ d s)) in
    if eqb (code c) a && eqb (code d) b then found else kept

-- s.replace(a, " ") for one character
unfoldable pub replace_char : ℕ → String → String
replace_char a String.[] = String.[]
replace_char a (String.◌∷◌ c s) =
    let rest = replace_char a s in if eqb (code c) a then String.◌∷◌ " " rest else String.◌∷◌ c rest

-- "".join(c for c in s if p(c))
unfoldable pub keep : (Char → Bool) → String → String
keep p String.[] = String.[]
keep p (String.◌∷◌ c s) = let rest = keep p s in if p c then String.◌∷◌ c rest else rest

unfoldable pub lstrip : (Char → Bool) → String → String
lstrip p String.[] = String.[]
lstrip p (String.◌∷◌ c s) = let rest = lstrip p s in if p c then rest else String.◌∷◌ c s

rstrip_cons : Bool → Char → String → String
rstrip_cons true c String.[] = String.[]
rstrip_cons _ c s = String.◌∷◌ c s

unfoldable pub rstrip : (Char → Bool) → String → String
unfolding rstrip_cons
rstrip p String.[] = String.[]
rstrip p (String.◌∷◌ c s) = rstrip_cons (p c) c (rstrip p s)

-- The two context variables, `bt_endpoint` and `bt_actor`.
pub record Context : Type 0 where
  pub endpoint : String
  pub actor : String

unfoldable pub clear_request_context : Context
clear_request_context = record { endpoint = ""; actor = "" }

module _ (is_printable is_space : Char → Bool) where
  unfoldable pub scrub_tag : String → String
  scrub_tag value =
      let s = take tag_max_len value in
      let s = replace_pair b'/' b'*' (replace_pair b'*' b'/' s) in
      let s = replace_char 9 (replace_char 13 (replace_char 10 s)) in
      rstrip is_space (lstrip is_space (keep is_printable s))

  -- `digest` is the first twelve digits of the hash.
  module _ (digest : String → String) where
    unfoldable pub hash_actor : String → String
    hash_actor actor = if actor == "" then "anon" else digest actor

    unfoldable pub set_request_context : String → String → Context
    unfolding scrub_tag hash_actor
    set_request_context endpoint actor = record {
      endpoint = scrub_tag endpoint;
      actor = hash_actor actor;
    }

-- " ".join(parts)
unfoldable pub join : List String → String
join [] = ""
join (s ∷ []) = s
join (s ∷ t ∷ rest) = s ⊕ " " ⊕ join (t ∷ rest)

unfoldable pub parts : Context → List String
parts c =
    "app=bricktrace" ∷ (if c.endpoint == "" then [] else ("endpoint=" ⊕ c.endpoint) ∷ [])
    ++ (if c.actor == "" then [] else ("actor=" ⊕ c.actor) ∷ [])

unfoldable pub tag_statement : Context → String → String
unfolding join parts ◌⊕◌
tag_statement c sql =
    if c.endpoint == "" && c.actor == "" then sql else "/* " ⊕ join (parts c) ⊕ " */\n" ⊕ sql
