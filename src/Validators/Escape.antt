-- ===== src/Validators/Escape.antt =====
-- The escapers and the name check of backend/validators.py. A value is given by its text, `none`
-- being Python's None; `str.strip` reads Unicode's table of spaces, which is a parameter.
pub mod Read
pub mod Like
use bricktrace.Prelude.{
  ℕ, String, Bool, ◌&&◌, ◌||◌, Char, code, eqb, leb, if◌then◌else◌, Option, none, some,
}
use bricktrace.Prelude.Text.{take, length, ◌⊕◌}
use bricktrace.Warehouse.Tag.{lstrip, rstrip}
use bricktrace.Warehouse.Tag.Safe.{all_chars}

-- s.replace(k, p + k) for one character k and a character p put before it
unfoldable pub prefix_each : ℕ → Char → String → String
prefix_each k p String.[] = String.[]
prefix_each k p (String.◌∷◌ c s) =
    let rest = String.◌∷◌ c (prefix_each k p s) in
    if eqb (code c) k then String.◌∷◌ p rest else rest

-- "" if s is None else str(s)
unfoldable pub text_of : Option String → String
text_of none = ""
text_of (some s) = s

-- v[:limit] where a limit above 0 is given
unfoldable pub truncate : Option ℕ → String → String
truncate none v = v
truncate (some limit) v = if eqb limit 0 then v else take limit v

unfoldable pub sql_str : Option String → Option ℕ → String
unfolding prefix_each text_of truncate
sql_str s limit = prefix_each b'\'' "'" (prefix_each b'\\' "\\" (truncate limit (text_of s)))

unfoldable pub like_escape : Option String → String
unfolding prefix_each text_of
like_escape s = prefix_each b'_' "\\" (prefix_each b'%' "\\" (prefix_each b'\\' "\\" (text_of s)))

-- [A-Za-z0-9_-]
unfoldable pub in_range : ℕ → ℕ → Char → Bool
in_range a b c = leb a (code c) && leb (code c) b

unfoldable pub is_name_char : Char → Bool
unfolding in_range
is_name_char c =
    in_range b'A' b'Z' c
    || in_range b'a' b'z' c
    || in_range b'0' b'9' c
    || eqb (code c) b'_'
    || eqb (code c) b'-'

-- _IDENTIFIER_RE, on a text without spaces around it
unfoldable pub is_identifier : String → Bool
unfolding all_chars
is_identifier v = leb 1 (length v) && leb (length v) 255 && all_chars is_name_char v

pub data Checked : Type 0 where
  valid : String → Checked
  -- HTTP 400 with this detail
  bad_request : String → Checked

module _ (is_space : Char → Bool) where
  unfoldable pub validate : Option String → String → Checked
  validate value name =
      let v = rstrip is_space (lstrip is_space (text_of value)) in
      if is_identifier v then valid v else bad_request ("Invalid " ⊕ name ⊕ ": '" ⊕ take 50 v ⊕ "'")
