-- ===== src/Tests/Validators.antt =====
-- Tests and examples of Validators.
use bricktrace.Prelude.{
  ℕ, ◌*◌, ◌≤◌, ◌≡◌, refl, ◌↔◌, String, Bool, true, false, ◌==◌, Char, code, eqb, if◌then◌else◌,
  Option, none, some, elem, List, [], ◌∷◌, arith,
}
use bricktrace.Prelude.Text.{length, ◌⊕◌}
use bricktrace.Warehouse.Tag.{lstrip, rstrip}
use bricktrace.Warehouse.Tag.Safe.{all_chars}
use bricktrace.Validators.Escape.{
  sql_str, like_escape, truncate, text_of, prefix_each, is_name_char, in_range, is_identifier,
  validate,
}
use bricktrace.Validators.Escape.Read.{
  read_literal, read-sql_str, length-sql_str-le, sql_str-validate,
}
use bricktrace.Validators.Escape.Like.{read_pattern, like, matches, like-like_escape}
use bricktrace.Validators.Url
use bricktrace.Validators.Url.{
  Parts, Ip, no_port, returned, raw_of, host_of, ends_with_any, workspace_suffixes,
  blocked_host_literals, assert_databricks_workspace_url, assert_safe_outbound_url, redact_url,
  truthy, ends_with,
}
use bricktrace.Validators.Url.Safe.{
  IsPlain, IsPublicHost, assert_databricks_workspace_url_iff, assert_safe_outbound_url_iff,
}

abbrev space : Char → Bool
space c = eqb (code c) 32

escaped : sql_str (some "a\\'b") none ≡ "a\\\\''b"
unfolding sql_str prefix_each truncate text_of
escaped = refl

read-sql_str_example :
    read_literal (sql_str (some "a\\'b") (some 3) ⊕ String.◌∷◌ "'" " AND x")
    ≡ some (truncate (some 3) (text_of (some "a\\'b")), " AND x")
read-sql_str_example = read-sql_str (some "a\\'b") (some 3) " AND x" refl

length-sql_str-le_example : length (sql_str (some "''''") (some 3)) ≤ 2 * 3
length-sql_str-le_example = length-sql_str-le (some "''''") 3 (omega arith)

like-like_escape_example :
    like (like_escape (some "my_s%\\")) "my_s%\\" ≡ some ("my_s%\\" == "my_s%\\")
like-like_escape_example = like-like_escape "my_s%\\" "my_s%\\"

-- A wildcard of its own matches more, and a backslash before another character is refused.
patterns :
    (like "my_s%" "my-schema" ≡ some true)
    × (like "my\\_s%" "my-schema" ≡ some false)
    × (like "my\\-s" "my-s" ≡ none)
unfolding like read_pattern matches
patterns = (refl, refl, refl)

sql_str-validate_example :
    (1 ≤ length "main-1")
    × (length "main-1" ≤ 255)
    × (all_chars is_name_char "main-1" ≡ true)
    × (sql_str (some "main-1") none ≡ "main-1")
unfolding validate is_identifier text_of lstrip rstrip all_chars is_name_char in_range
sql_str-validate_example = sql_str-validate space (some " main-1 ") "catalog" "main-1" refl

abbrev same_case : String → String
same_case s = s

-- A parser that knows two addresses.
abbrev peer : Parts
peer = record {
  scheme = "https";
  netloc = "w.cloud.databricks.com";
  username = none;
  password = none;
  hostname = some "w.cloud.databricks.com";
  port_number = no_port;
}

abbrev parse : String → Option Parts
parse s = if s == "https://w.cloud.databricks.com/x" then some peer else none

abbrev public_ip : Ip
public_ip = record {
  is_private = false;
  is_loopback = false;
  is_link_local = false;
  is_reserved = false;
  is_multicast = false;
  is_unspecified = false;
}

abbrev local_ip : Ip
local_ip = record {
  is_private = true;
  is_loopback = true;
  is_link_local = false;
  is_reserved = false;
  is_multicast = false;
  is_unspecified = false;
}

abbrev addresses : String → ℕ → Option (List String)
addresses host n = some ("8.8.8.8" ∷ "127.0.0.1" ∷ [])

abbrev ip_of : String → Option Ip
ip_of s = if s == "127.0.0.1" then some local_ip else some public_ip

redacted :
    redact_url parse (some "https://w.cloud.databricks.com/x") ≡ "https://w.cloud.databricks.com"
unfolding redact_url truthy text_of ◌⊕◌
redacted = refl

accepted :
    assert_databricks_workspace_url space same_case parse
      (some " https://w.cloud.databricks.com/x ")
    ≡ returned "https://w.cloud.databricks.com/x"
unfolding assert_databricks_workspace_url Url.checked_parts raw_of rstrip lstrip host_of
    ends_with_any
accepted = refl

assert_databricks_workspace_url_iff_example :
    (assert_databricks_workspace_url space same_case parse (some "https://w.cloud.databricks.com/x")
      ≡ returned "https://w.cloud.databricks.com/x")
    ↔ ((raw_of space same_case parse (some "https://w.cloud.databricks.com/x")
          ≡ "https://w.cloud.databricks.com/x")
        × ((parts : Parts) × IsPlain space same_case parse
              (raw_of space same_case parse (some "https://w.cloud.databricks.com/x"))
              parts
            × (ends_with_any workspace_suffixes (host_of space same_case parse parts) ≡ true)))
assert_databricks_workspace_url_iff_example =
    assert_databricks_workspace_url_iff space same_case parse
      (some "https://w.cloud.databricks.com/x") "https://w.cloud.databricks.com/x"

assert_safe_outbound_url_iff_example :
    (assert_safe_outbound_url space same_case parse addresses ip_of
        (some "https://w.cloud.databricks.com/x")
      ≡ returned "https://w.cloud.databricks.com/x")
    ↔ ((raw_of space same_case parse (some "https://w.cloud.databricks.com/x")
          ≡ "https://w.cloud.databricks.com/x")
        × ((parts : Parts) × IsPlain space same_case parse
              (raw_of space same_case parse (some "https://w.cloud.databricks.com/x"))
              parts
            × (elem (host_of space same_case parse parts) blocked_host_literals ≡ false)
            × IsPublicHost space same_case parse addresses ip_of parts))
assert_safe_outbound_url_iff_example =
    assert_safe_outbound_url_iff space same_case parse addresses ip_of
      (some "https://w.cloud.databricks.com/x") "https://w.cloud.databricks.com/x"
