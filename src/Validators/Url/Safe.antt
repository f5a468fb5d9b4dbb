-- ===== src/Validators/Url/Safe.antt =====
-- What an address that passes the checks of backend/validators.py is known to be.
use bricktrace.Prelude.{
  ℕ, String, Bool, true, false, ◌||◌, not, ◌==◌, Char, Option, none, some, elem, List, [], ◌∷◌, ◌≡◌,
  ◌↔◌, refl, arith, ap, ◌∙◌,
}
use bricktrace.Validators.Url.{
  Parts, Ip, Outcome, UnsafeOutboundUrl, returned, require, truthy, blocked_host_literals,
  workspace_suffixes, ends_with_any, is_public, port_or_443, raw_of, host_of, checked_parts,
  checked_split, assert_databricks_workspace_url, check_addresses, resolve, resolved,
  public_or_raise, assert_safe_outbound_url,
}

returned_of_require :
    (b : Bool) (reason : UnsafeOutboundUrl) (next : Outcome) (raw : String)
    → require b reason next ≡ returned raw
    → (b ≡ true) × (next ≡ returned raw)
unfolding require
returned_of_require true reason next raw h = (refl, h)
returned_of_require false reason next raw h = ground arith

require_met :
    (b : Bool) (reason : UnsafeOutboundUrl) (next : Outcome)
    → b ≡ true
    → require b reason next ≡ next
unfolding require
require_met b reason next h = rw h

value_of : Outcome → String
value_of (returned s) = s
value_of _ = ""

returned_injective : {s t : String} → returned s ≡ returned t → s ≡ t
unfolding value_of
returned_injective h = ap value_of h

returned_of_public :
    (o : Option Ip) (next : Outcome) (raw : String)
    → public_or_raise o next ≡ returned raw
    → ((ip : Ip) × (o ≡ some ip) × (is_public ip ≡ true)) × (next ≡ returned raw)
unfolding public_or_raise
returned_of_public none next raw h = ground arith
returned_of_public (some ip) next raw h =
    let (public, rest) = returned_of_require _ _ _ raw h in ((ip, refl, public), rest)

public_or_raise_met :
    (ip : Ip) (next : Outcome) → is_public ip ≡ true → public_or_raise (some ip) next ≡ next
unfolding public_or_raise
public_or_raise_met ip next h = require_met _ _ _ h

both_false : (a b : Bool) → not (a || b) ≡ true → (a ≡ false) × (b ≡ false)
both_false a b h = ground arith

not_of_false : (a : Bool) → a ≡ false → not a ≡ true
not_of_false a h = rw h

is_false : (a : Bool) → not a ≡ true → a ≡ false
is_false a h = ground arith

module _ (is_space : Char → Bool) (lower : String → String) (urlsplit : String → Option Parts) where
  -- A non-empty https address without credentials and with a host.
  pub record IsPlain (raw : String) (parts : Parts) : Type 0 where
    not_empty : (raw == "") ≡ false
    parsed : urlsplit raw ≡ some parts
    https : (lower parts.scheme == "https") ≡ true
    no_user : truthy parts.username ≡ false
    no_password : truthy parts.password ≡ false
    has_host : (host_of is_space lower urlsplit parts == "") ≡ false

  returned_of_split :
      (text : String) (split : Option Parts) (next : String → Parts → Outcome) (raw : String)
      → (text == "") ≡ false
      → urlsplit text ≡ split
      → checked_split is_space lower urlsplit text split next ≡ returned raw
      → (parts : Parts) × IsPlain text parts × (next text parts ≡ returned raw)
  unfolding checked_split
  returned_of_split text none next raw e p h = ground arith
  returned_of_split text (some parts) next raw e p h =
      let (ok1, h1) = returned_of_require _ _ _ raw h in
      let (ok2, h2) = returned_of_require _ _ _ raw h1 in
      let (ok3, h3) = returned_of_require _ _ _ raw h2 in
      let (user, password) = both_false _ _ ok2 in
      (
        parts,
        record {
          not_empty = e;
          parsed = p;
          https = ok1;
          no_user = user;
          no_password = password;
          has_host = is_false _ ok3;
        },
        h3,
      )

  -- The text passes the common checks and the rest of the function returns it.
  returned_of_checked :
      (url : Option String) (next : String → Parts → Outcome) (raw : String)
      → checked_parts is_space lower urlsplit url next ≡ returned raw
      → (parts : Parts) × IsPlain (raw_of is_space lower urlsplit url) parts
        × (next (raw_of is_space lower urlsplit url) parts ≡ returned raw)
  unfolding checked_parts
  returned_of_checked url next raw h =
      let (ok, rest) = returned_of_require _ _ _ raw h in
      returned_of_split _ _ next raw (is_false _ ok) refl rest

  checked_of_plain :
      (url : Option String) (next : String → Parts → Outcome) (parts : Parts)
      → IsPlain (raw_of is_space lower urlsplit url) parts
      → checked_parts is_space lower urlsplit url next
        ≡ next (raw_of is_space lower urlsplit url) parts
  unfolding checked_parts checked_split require
  checked_of_plain url next parts p =
      rw (p.not_empty, p.parsed, p.https, p.no_user, p.no_password, p.has_host)

  -- A workspace address is returned exactly where it is a non-empty https address without
  -- credentials whose host ends with one of the workspace domains; what is returned is the address
  -- without the spaces around it.
  pub assert_databricks_workspace_url_iff :
      (url : Option String) (raw : String)
      → (assert_databricks_workspace_url is_space lower urlsplit url ≡ returned raw) ↔ (
          (raw_of is_space lower urlsplit url ≡ raw)
          × ((parts : Parts) × IsPlain (raw_of is_space lower urlsplit url) parts
              × (ends_with_any workspace_suffixes (host_of is_space lower urlsplit parts) ≡ true)))
  unfolding assert_databricks_workspace_url
  assert_databricks_workspace_url_iff url raw = (
    λ h.
        let (parts, plain, rest) = returned_of_checked url _ raw h in
        let (suffix, same) = returned_of_require _ _ _ raw rest in
        (returned_injective same, (parts, plain, suffix)),
    λ h.
        let (same, (parts, plain, suffix)) = h in
        checked_of_plain url _ parts plain ∙ require_met _ _ _ suffix ∙ ap returned same,
  )

  module _ (getaddrinfo : String → ℕ → Option (List String)) (ip_address : String → Option Ip) where
    -- Every address of the list is a public one.
    abbrev pub AllPublic : List String → Type 0
    AllPublic [] = Unit
    AllPublic (info ∷ infos) =
        ((ip : Ip) × (ip_address info ≡ some ip) × (is_public ip ≡ true)) × AllPublic infos

    -- The host of the parsed address resolves, to public addresses only.
    abbrev pub IsPublicHost : Parts → Type 0
    IsPublicHost parts =
        (n : ℕ) × (infos : List String) × (port_or_443 parts.port_number ≡ some n)
        × (getaddrinfo (host_of is_space lower urlsplit parts) n ≡ some infos)
        × AllPublic infos

    check_addresses_iff :
        (text : String) (infos : List String) (raw : String)
        → (check_addresses is_space lower urlsplit getaddrinfo ip_address text infos ≡ returned raw)
          ↔ ((text ≡ raw) × AllPublic infos)
    unfolding check_addresses
    check_addresses_iff text [] raw =
        (λ h. (returned_injective h, tt), λ h. let (same, _) = h in ap returned same)
    check_addresses_iff text (info ∷ infos) raw =
        let (onward, back) = check_addresses_iff text infos raw in
        (
          λ h.
              let (one, rest) = returned_of_public (ip_address info) _ raw h in
              let (same, all) = onward rest in (same, (one, all)),
          λ h.
              let (same, ((ip, parsed, public), all)) = h in
              rw (parsed, public_or_raise_met ip _ public) (back (same, all)),
        )

    returned_of_resolved :
        (text : String) (o : Option (List String)) (raw : String)
        → resolved is_space lower urlsplit getaddrinfo ip_address text o ≡ returned raw
        → (text ≡ raw) × ((infos : List String) × (o ≡ some infos) × AllPublic infos)
    unfolding resolved
    returned_of_resolved text none raw h = ground arith
    returned_of_resolved text (some infos) raw h =
        let (same, all) = (check_addresses_iff text infos raw).0 h in (same, (infos, refl, all))

    returned_of_resolve :
        (text : String) (parts : Parts) (o : Option ℕ) (raw : String)
        → port_or_443 parts.port_number ≡ o
        → resolve is_space lower urlsplit getaddrinfo ip_address text parts o ≡ returned raw
        → (text ≡ raw) × IsPublicHost parts
    unfolding resolve
    returned_of_resolve text parts none raw e h = ground arith
    returned_of_resolve text parts (some n) raw e h =
        let (same, (infos, found, all)) = returned_of_resolved text _ raw h in
        (same, (n, infos, e, found, all))

    resolve_met :
        (text raw : String) (parts : Parts)
        → text ≡ raw
        → IsPublicHost parts
        → resolve is_space lower urlsplit getaddrinfo ip_address text parts
            (port_or_443 parts.port_number)
          ≡ returned raw
    unfolding resolve resolved
    resolve_met text raw parts same (n, infos, e, found, all) =
        rw (e, found) ((check_addresses_iff text infos raw).1 (same, all))

    -- An address is returned for a call from the application exactly where it is a non-empty https
    -- address without credentials, its host is not one of the blocked names, its port is in
    -- range, and the host resolves to public addresses only; what is returned is the address
    -- without the spaces around it.
    pub assert_safe_outbound_url_iff :
        (url : Option String) (raw : String)
        → (assert_safe_outbound_url is_space lower urlsplit getaddrinfo ip_address url
            ≡ returned raw)
          ↔ ((raw_of is_space lower urlsplit url ≡ raw)
              × ((parts : Parts) × IsPlain (raw_of is_space lower urlsplit url) parts
                  × (elem (host_of is_space lower urlsplit parts) blocked_host_literals ≡ false)
                  × IsPublicHost parts))
    unfolding assert_safe_outbound_url
    assert_safe_outbound_url_iff url raw = (
      λ h.
          let (parts, plain, rest) = returned_of_checked url _ raw h in
          let (allowed, found) = returned_of_require _ _ _ raw rest in
          let (same, public) = returned_of_resolve _ parts _ raw refl found in
          (same, (parts, plain, is_false _ allowed, public)),
      λ h.
          let (same, (parts, plain, allowed, public)) = h in
          checked_of_plain url _ parts plain
          ∙ require_met _ _ _ (not_of_false _ allowed)
          ∙ resolve_met _ raw parts same public,
    )
