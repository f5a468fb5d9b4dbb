-- ===== src/Validators/Escape/Read.antt =====
-- What the texts that backend/validators.py escapes for a SQL literal mean to its reader.
use bricktrace.Prelude.{
  ℕ, ◌*◌, ◌≤◌, suc, String, Bool, true, false, Char, code, eqb, if◌then◌else◌, Option, none, some,
  ◌≡◌, refl, ap, arith, Bool-cases, inl, inr, eqb,
}
use bricktrace.Prelude.Text.{take, length, starts, ◌⊕◌}
use bricktrace.Warehouse.Tag.Safe.{all_chars}
use bricktrace.Validators.Escape.{
  prefix_each, text_of, truncate, sql_str, is_name_char, in_range, is_identifier, valid, validate,
}

-- A character put before the text that a reader gives back.
push : Char → Option (String × String) → Option (String × String)
push c none = none
push c (some (body, rest)) = some (String.◌∷◌ c body, rest)

-- The reader of a literal from behind its opening quote: a backslash takes the next character as
-- it is, two quotes are one, a quote ends the literal. The result is the value and what follows.
unfoldable pub read_literal : String → Option (String × String)
unfolding push
read_literal String.[] = none
read_literal (String.◌∷◌ c String.[]) = if eqb (code c) b'\'' then some ("", "") else none
read_literal (String.◌∷◌ c (String.◌∷◌ d s)) =
    let escaped = push d (read_literal s) in
    let plain = push c (read_literal (String.◌∷◌ d s)) in
    if eqb (code c) b'\\'
    then escaped
    else if eqb (code c) b'\''
    then if eqb (code d) b'\'' then escaped else some ("", String.◌∷◌ d s)
    else plain

quoted : String → String
unfolding prefix_each
quoted s = prefix_each b'\'' "'" (prefix_each b'\\' "\\" s)

quoted_nil : quoted String.[] ≡ String.[]
unfolding quoted prefix_each
quoted_nil = refl

quoted_cons :
    (c : Char) (s : String)
    → quoted (String.◌∷◌ c s) ≡ (
        if eqb (code c) b'\\'
        then String.◌∷◌ "\\" (String.◌∷◌ c (quoted s))
        else if eqb (code c) b'\''
        then String.◌∷◌ "'" (String.◌∷◌ c (quoted s))
        else String.◌∷◌ c (quoted s))
unfolding quoted prefix_each
quoted_cons c s = ground arith

read_plain :
    (c : Char) (t : String)
    → eqb (code c) b'\\' ≡ false
    → eqb (code c) b'\'' ≡ false
    → read_literal (String.◌∷◌ c t) ≡ push c (read_literal t)
unfolding read_literal push
read_plain c String.[] h k = rw k
read_plain c (String.◌∷◌ d t) h k = rw (h, k)

read_closed :
    (rest : String)
    → starts b'\'' rest ≡ false
    → read_literal (String.◌∷◌ "'" rest) ≡ some ("", rest)
unfolding read_literal
read_closed String.[] h = refl
read_closed (String.◌∷◌ c s) h = rw h

read_escaped :
    (p c : Char) (t : String)
    → eqb (code p) b'\\' ≡ true
    → read_literal (String.◌∷◌ p (String.◌∷◌ c t)) ≡ push c (read_literal t)
unfolding read_literal
read_escaped p c t h = rw h

read_two_quotes :
    (c : Char) (t : String)
    → eqb (code c) b'\'' ≡ true
    → read_literal (String.◌∷◌ "'" (String.◌∷◌ c t)) ≡ push c (read_literal t)
unfolding read_literal
read_two_quotes c t h = rw h

read-quoted :
    (rest : String)
    → starts b'\'' rest ≡ false
    → (s : String) → read_literal (quoted s ⊕ String.◌∷◌ "'" rest) ≡ some (s, rest)
unfolding ◌⊕◌ push
read-quoted rest h String.[] = rw (quoted_nil, read_closed rest h)
read-quoted rest h (String.◌∷◌ c s) =
    let ih = read-quoted rest h s in
    let whole = quoted s ⊕ String.◌∷◌ "'" rest in
    elim (Bool-cases (eqb (code c) b'\\')) [
      | inl e ↦ rw (quoted_cons c s, e, read_escaped "\\" c whole refl, ih)
      | inr e ↦ elim (Bool-cases (eqb (code c) b'\'')) [
        | inl q ↦ rw (quoted_cons c s, e, q, read_two_quotes c whole q, ih)
        | inr q ↦ rw (quoted_cons c s, e, q, read_plain c whole e q, ih)
      ]
    ]

-- A value put through sql_str between quotes, with any text behind the closing quote that does not
-- begin with a quote, is read as one literal: the reader gets the value, cut to the limit where
-- one above 0 is given, and goes on exactly with the text behind.
pub read-sql_str :
    (value : Option String) (limit : Option ℕ) (rest : String)
    → starts b'\'' rest ≡ false
    → read_literal (sql_str value limit ⊕ String.◌∷◌ "'" rest)
      ≡ some (truncate limit (text_of value), rest)
unfolding sql_str quoted
read-sql_str value limit rest h = read-quoted rest h (truncate limit (text_of value))

length-quoted-le : (s : String) → length (quoted s) ≤ 2 * length s
length-quoted-le String.[] = omega (arith, ap length quoted_nil)
length-quoted-le (String.◌∷◌ c s) = ground (arith, quoted_cons c s, length-quoted-le s)

length-take-le : (n : ℕ) (s : String) → length (take n s) ≤ n
length-take-le (suc n) (String.◌∷◌ c s) = omega (arith, length-take-le n s)
length-take-le _ _ = omega arith

-- Under a limit above 0 sql_str makes at most twice as many characters as the limit.
pub length-sql_str-le :
    (value : Option String) (limit : ℕ)
    → 1 ≤ limit
    → length (sql_str value (some limit)) ≤ 2 * limit
unfolding sql_str quoted truncate
length-sql_str-le value limit h =
    grind
      (arith, length-quoted-le (take limit (text_of value)), length-take-le limit (text_of value))

prefix_each_absent :
    (k : ℕ) (p : Char) (s : String)
    → all_chars is_name_char s ≡ true
    → ((c : Char) → is_name_char c ≡ true → eqb (code c) k ≡ false)
    → prefix_each k p s ≡ s
unfolding prefix_each all_chars
prefix_each_absent k p String.[] h absent = refl
prefix_each_absent k p (String.◌∷◌ c s) h absent =
    ground (arith, absent c, prefix_each_absent k p s, absent)

name_without_quote : (c : Char) → is_name_char c ≡ true → eqb (code c) b'\'' ≡ false
unfolding is_name_char in_range
name_without_quote c h = ground arith

name_without_backslash : (c : Char) → is_name_char c ≡ true → eqb (code c) b'\\' ≡ false
unfolding is_name_char in_range
name_without_backslash c h = ground arith

chars_of_identifier : (v : String) → is_identifier v ≡ true → all_chars is_name_char v ≡ true
unfolding is_identifier
chars_of_identifier v h = ground arith

at_least : (v : String) → is_identifier v ≡ true → 1 ≤ length v
unfolding is_identifier
at_least v h = ground arith

at_most : (v : String) → is_identifier v ≡ true → length v ≤ 255
unfolding is_identifier
at_most v h = ground arith

valid_is_identifier :
    (is_space : Char → Bool) (value : Option String) (name v : String)
    → validate is_space value name ≡ valid v
    → is_identifier v ≡ true
unfolding validate
valid_is_identifier is_space value name v h = ground arith

-- A name that _validate lets through has 1 to 255 characters, all of them letters, digits, `_` or
-- `-`, and sql_str leaves it as it is: it is safe inside a literal without escaping.
pub sql_str-validate :
    (is_space : Char → Bool) (value : Option String) (name v : String)
    → validate is_space value name ≡ valid v
    → (1 ≤ length v)
      × (length v ≤ 255)
      × (all_chars is_name_char v ≡ true)
      × (sql_str (some v) none ≡ v)
unfolding sql_str truncate text_of
sql_str-validate is_space value name v h =
    let ok = valid_is_identifier is_space value name v h in
    let chars = chars_of_identifier v ok in
    (
      at_least v ok,
      at_most v ok,
      chars,
      rw (
        prefix_each_absent b'\\' "\\" v chars name_without_backslash,
        prefix_each_absent b'\'' "'" v chars name_without_quote,
      ),
    )
