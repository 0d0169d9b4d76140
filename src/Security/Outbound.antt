-- ===== src/Security/Outbound.antt =====
-- backend/internal/security/outbound.go: where the OIDC client may connect. The parsers of `net/url`
-- and `net/netip`, `unicode.ToLower`, the resolver and the settings are parameters.
-- Addresses and Hosts have the addresses that are blocked and the hosts that are allowed.
pub mod Dial
pub mod Redirect
pub mod Addresses
pub mod Ranges
pub mod Hosts
use llama_rack.Base.{
  ℕ, Bool, false, ◌&&◌, ◌||◌, not, Option, none, some, List, [], ◌∷◌, map, leb, ◌==◌, if◌then◌else◌,
  is_nil, length,
}
use mathlib.Core.List.{reverse}
use llama_rack.Base.Text.{Text, codes, text_eq, drop_while}
use llama_rack.Security.Outbound.Addresses.{Addr, blocked_oidc_addr, no_addr, unmap}
use llama_rack.Security.Outbound.Hosts.{host_allowed}

pub data OutboundError : Type 0 where
  oidc_destination : OutboundError
  oidc_redirect : OutboundError
  oidc_https : OutboundError
  oidc_credentials : OutboundError
  not_absolute : OutboundError
  too_many_redirects : OutboundError
  unsupported_address : OutboundError
  -- Of the settings, the resolver or the dialer.
  other_error : OutboundError

pub record OidcOutboundSnapshot : Type 0 where
  pub allow_http : Bool
  pub allowed_hosts : List Text

unfoldable pub allow_oidc_ip : (ℕ → ℕ) → Addr → Text → List Text → Bool
unfolding blocked_oidc_addr host_allowed
allow_oidc_ip lower no_addr hostname allowed = false
allow_oidc_ip lower ip hostname allowed =
    not (blocked_oidc_addr (unmap ip)) || host_allowed lower hostname allowed

-- An address and a port to connect to, or an error.
pub data Dialed : Type 0 where
  dial : Addr → Text → Dialed
  refused : OutboundError → Dialed

-- The first of the addresses that may be reached; an address of no known length is passed over.
unfoldable pub pick_resolved : (ℕ → ℕ) → Text → Text → List Text → List (Option Addr) → Dialed
unfolding allow_oidc_ip
pick_resolved lower host port allowed [] = refused oidc_destination
pick_resolved lower host port allowed (none ∷ resolved) =
    pick_resolved lower host port allowed resolved
pick_resolved lower host port allowed (some ip ∷ resolved) =
    if allow_oidc_ip lower ip host allowed
    then dial (unmap ip) port
    else pick_resolved lower host port allowed resolved

-- strings.Trim of brackets.
abbrev pub trim_brackets : Text → Text
trim_brackets s =
    let bracket : ℕ → Bool = λ c. c == b'[' || c == b']' in
    reverse (drop_while bracket (reverse (drop_while bracket s)))

-- net/url.URL, as far as the policy reads it.
pub record Url : Type 0 where
  pub scheme : Text
  pub opaque : Text
  pub has_user : Bool
  pub host : Text
  pub hostname : Text
  pub port : Text

module _ (lower : ℕ → ℕ) (parse_addr : Text → Option Addr) where
  -- `none` is an error of the settings or of the resolver.
  unfoldable pub pick_dial_addr :
      Option OidcOutboundSnapshot → (Text → Option (List (Option Addr))) → Text → Text → Dialed
  unfolding allow_oidc_ip pick_resolved drop_while
  pick_dial_addr none resolve host port = refused other_error
  pick_dial_addr (some snap) resolve host port =
      let name = trim_brackets host in
      elim (parse_addr name) [
        | some ip ↦
            if allow_oidc_ip lower ip name snap.allowed_hosts
            then dial (unmap ip) port
            else refused oidc_destination
        | none ↦ elim (resolve name) [
          | none ↦ refused other_error
          | some resolved ↦ pick_resolved lower name port snap.allowed_hosts resolved
        ]
      ]

-- No error, or one.
unfoldable pub validate_oidc_url : Option Url → Bool → Option OutboundError
validate_oidc_url none allow_http = some not_absolute
validate_oidc_url (some u) allow_http =
    let https = text_eq u.scheme (codes "https") in
    if is_nil u.host || not (is_nil u.opaque)
    then some not_absolute
    else if u.has_user
    then some oidc_credentials
    else if not https && not (text_eq u.scheme (codes "http"))
    then some not_absolute
    else if not https && not allow_http
    then some oidc_https
    else if is_nil u.hostname
    then some not_absolute
    else none

-- strings.EqualFold, with the folding of a character as a parameter.
abbrev pub equal_fold : (ℕ → ℕ) → Text → Text → Bool
equal_fold fold s t = text_eq (map fold s) (map fold t)

abbrev pub effective_url_port : (ℕ → ℕ) → Url → Text
effective_url_port lower u =
    if not (is_nil u.port)
    then u.port
    else if text_eq (map lower u.scheme) (codes "https")
    then codes "443"
    else if text_eq (map lower u.scheme) (codes "http")
    then codes "80"
    else []

unfoldable pub same_origin : (ℕ → ℕ) → (ℕ → ℕ) → Url → Url → Bool
same_origin lower fold left right =
    equal_fold fold left.scheme right.scheme
    && equal_fold fold left.hostname right.hostname
    && text_eq (effective_url_port lower left) (effective_url_port lower right)

-- What `netip.ParseAddr` makes of the name.
abbrev pub literal_refused : (ℕ → ℕ) → Option Addr → Text → List Text → Bool
literal_refused lower none hostname allowed = false
literal_refused lower (some ip) hostname allowed =
    blocked_oidc_addr ip && not (host_allowed lower hostname allowed)

-- `reparse` is `url.Parse` of what `String` makes of a URL, without the spaces around it.
module _ (lower fold : ℕ → ℕ) (parse_addr : Text → Option Addr) (reparse : Url → Option Url) where
  unfoldable pub validate_request_url : Option OidcOutboundSnapshot → Url → Option OutboundError
  unfolding validate_oidc_url blocked_oidc_addr host_allowed
  validate_request_url none target = some other_error
  validate_request_url (some snap) target =
      let parsed = reparse target in
      elim (validate_oidc_url parsed snap.allow_http) [
        | some err ↦ some err
        | none ↦ elim parsed [
          | none ↦ some not_absolute
          | some u ↦
              if literal_refused lower (parse_addr u.hostname) u.hostname snap.allowed_hosts
              then some oidc_destination
              else none
        ]
      ]

  -- The requests made so far, the first one at the head.
  unfoldable pub check_redirect :
      Option OidcOutboundSnapshot → Url → List Url → Option OutboundError
  unfolding validate_request_url same_origin
  check_redirect snap target via =
      if leb 10 (length via)
      then some too_many_redirects
      else elim (validate_request_url snap target) [
        | some err ↦ some err
        | none ↦ elim via [
          | [] ↦ some oidc_redirect
          | first ∷ rest ↦ if same_origin lower fold target first then none else some oidc_redirect
        ]
      ]
