-- ===== src/Validators/Url.antt =====
-- The address checks of backend/validators.py. Parsing, name resolution, `str.lower` and Unicode's
-- table of spaces are parameters; the messages of the error are constructors.
pub mod Safe
use bricktrace.Prelude.{
  ℕ, String, Bool, true, false, ◌&&◌, ◌||◌, not, ◌==◌, Char, eqb, if◌then◌else◌, Option, none, some,
  elem, List, [], ◌∷◌,
}
use bricktrace.Prelude.Text.{◌⊕◌}
use bricktrace.Warehouse.Tag.{lstrip, rstrip}
use bricktrace.Validators.Escape.{text_of}

-- What `.port` of a parsed address gives; it raises ValueError on a port out of range.
pub data Port : Type 0 where
  no_port bad_port : Port
  port : ℕ → Port

-- The result of `urlsplit` and of `urlparse`.
pub record Parts : Type 0 where
  pub scheme : String
  pub netloc : String
  pub username : Option String
  pub password : Option String
  pub hostname : Option String
  pub port_number : Port

-- The tests of an `ipaddress` address.
pub record Ip : Type 0 where
  pub is_private : Bool
  pub is_loopback : Bool
  pub is_link_local : Bool
  pub is_reserved : Bool
  pub is_multicast : Bool
  pub is_unspecified : Bool

-- UnsafeOutboundURL, by its message.
pub data UnsafeOutboundUrl : Type 0 where
  is_empty not_parseable not_https embeds_credentials no_host : UnsafeOutboundUrl
  host_not_allowed does_not_resolve non_public_address not_a_workspace : UnsafeOutboundUrl

pub data Outcome : Type 0 where
  returned : String → Outcome
  unsafe : UnsafeOutboundUrl → Outcome
  -- Another ValueError: a port out of range, an address that is none.
  value_error : Outcome

unfoldable pub require : Bool → UnsafeOutboundUrl → Outcome → Outcome
require true reason next = next
require false reason next = unsafe reason

-- bool(s) of a text or None
unfoldable pub truthy : Option String → Bool
unfolding text_of
truthy s = not (text_of s == "")

abbrev pub blocked_host_literals : List String
blocked_host_literals =
    "localhost" ∷ "metadata" ∷ "metadata.google.internal" ∷ "instance-data" ∷ "169.254.169.254"
    ∷ "metadata.goog" ∷ []

abbrev pub workspace_suffixes : List String
workspace_suffixes = ".azuredatabricks.net" ∷ ".cloud.databricks.com" ∷ ".gcp.databricks.com" ∷ []

-- host.endswith(suffix)
unfoldable pub ends_with : String → String → Bool
ends_with suffix String.[] = suffix == ""
ends_with suffix (String.◌∷◌ c s) = suffix == String.◌∷◌ c s || ends_with suffix s

unfoldable pub ends_with_any : List String → String → Bool
unfolding ends_with
ends_with_any [] host = false
ends_with_any (suffix ∷ rest) host = ends_with suffix host || ends_with_any rest host

unfoldable pub is_public : Ip → Bool
is_public ip = not (
    ip.is_private || ip.is_loopback || ip.is_link_local || ip.is_reserved || ip.is_multicast
    || ip.is_unspecified)

-- parts.port or 443
unfoldable pub port_or_443 : Port → Option ℕ
port_or_443 no_port = some 443
port_or_443 bad_port = none
port_or_443 (port n) = some (if eqb n 0 then 443 else n)

-- One round of the loop over the addresses.
unfoldable pub public_or_raise : Option Ip → Outcome → Outcome
unfolding require
public_or_raise none next = value_error
public_or_raise (some ip) next = require (is_public ip) non_public_address next

module _ (is_space : Char → Bool) (lower : String → String) (urlsplit : String → Option Parts) where
  -- str(url or "").strip()
  unfoldable pub raw_of : Option String → String
  unfolding text_of
  raw_of url = rstrip is_space (lstrip is_space (text_of url))

  -- (parts.hostname or "").lower()
  unfoldable pub host_of : Parts → String
  unfolding text_of
  host_of parts = lower (text_of parts.hostname)

  -- The checks on the parsed address.
  unfoldable pub checked_split : String → Option Parts → (String → Parts → Outcome) → Outcome
  unfolding require truthy
  checked_split raw none next = unsafe not_parseable
  checked_split raw (some parts) next = require (lower parts.scheme == "https") not_https (
      require (not (truthy parts.username || truthy parts.password)) embeds_credentials
        (require (not (host_of parts == "")) no_host (next raw parts)))

  -- The checks that both functions begin with.
  unfoldable pub checked_parts : Option String → (String → Parts → Outcome) → Outcome
  unfolding require checked_split
  checked_parts url next =
      let raw = raw_of url in
      require (not (raw == "")) is_empty (checked_split raw (urlsplit raw) next)

  unfoldable pub assert_databricks_workspace_url : Option String → Outcome
  unfolding require
  assert_databricks_workspace_url url = checked_parts url (λ raw parts.
      require (ends_with_any workspace_suffixes (host_of parts)) not_a_workspace (returned raw))

  module _ (getaddrinfo : String → ℕ → Option (List String)) (ip_address : String → Option Ip) where
    -- The loop over the addresses.
    unfoldable pub check_addresses : String → List String → Outcome
    unfolding public_or_raise
    check_addresses raw [] = returned raw
    check_addresses raw (info ∷ infos) =
        public_or_raise (ip_address info) (check_addresses raw infos)

    unfoldable pub resolved : String → Option (List String) → Outcome
    resolved raw none = unsafe does_not_resolve
    resolved raw (some infos) = check_addresses raw infos

    unfoldable pub resolve : String → Parts → Option ℕ → Outcome
    unfolding resolved
    resolve raw parts none = value_error
    resolve raw parts (some n) = resolved raw (getaddrinfo (host_of parts) n)

    unfoldable pub assert_safe_outbound_url : Option String → Outcome
    unfolding require
    assert_safe_outbound_url url = checked_parts url (λ raw parts.
        require (not (elem (host_of parts) blocked_host_literals)) host_not_allowed
          (resolve raw parts (port_or_443 parts.port_number)))

-- `urlparse` gives none where it raises.
unfoldable pub redact_url : (String → Option Parts) → Option String → String
unfolding truthy text_of
redact_url urlparse url =
    if truthy url
    then elim (urlparse (text_of url)) [
      | none ↦ "(redacted)"
      | some parts ↦
          if truthy (some parts.scheme) && truthy (some parts.netloc)
          then parts.scheme ⊕ "://" ⊕ parts.netloc
          else "(redacted)"
    ]
    else ""
