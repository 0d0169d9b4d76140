-- ===== src/Security/Outbound/Redirect.antt =====
-- backend/internal/security/outbound.go: which redirects the OIDC client follows.
use llama_rack.Base.{
  ℕ, ◌≡◌, map, ◌++◌, ◌⊎◌, Bool, true, false, Option, none, some, List, [], ◌∷◌, is_nil,
}
use llama_rack.Base.Text.{Text, codes, text_eq}
use llama_rack.Security.Outbound.{OidcOutboundSnapshot, Url, check_redirect, effective_url_port}
use llama_rack.Security.Outbound.Addresses.{Addr, unmap}
use llama_rack.Security.Outbound.Dial.{MayReach}

-- A URL that a request may have.
pub record IsAcceptable (allow_http : Bool) (u : Url) : Type 0 where
  pub absolute : (is_nil u.host ≡ false) × (is_nil u.hostname ≡ false) × (is_nil u.opaque ≡ true)
  pub anonymous : u.has_user ≡ false
  pub scheme :
      (text_eq u.scheme (codes "https") ≡ true)
      ⊎ ((text_eq u.scheme (codes "http") ≡ true) × (allow_http ≡ true))

-- An address that stands in a URL, which is public or stands for a host that the operator has allowed.
abbrev pub IsReachable : (ℕ → ℕ) → Option Addr → Text → List Text → Type 0
IsReachable lower none hostname allowed = Unit
IsReachable lower (some ip) hostname allowed = MayReach lower hostname allowed (unmap ip)

module _ (lower fold : ℕ → ℕ) (parse_addr : Text → Option Addr) (reparse : Url → Option Url) where
  -- The URL as it is parsed again, under some settings.
  pub record IsValidTarget (target : Url) : Type 0 where
    pub snap : OidcOutboundSnapshot
    pub parsed : Url
    pub again : reparse target ≡ some parsed
    pub acceptable : IsAcceptable snap.allow_http parsed
    pub reachable :
        IsReachable lower (parse_addr parsed.hostname) parsed.hostname snap.allowed_hosts

  -- Equal up to case in the scheme and the host, and equal in the port.
  pub record IsOneOrigin (u v : Url) : Type 0 where
    pub schemes : map fold u.scheme ≡ map fold v.scheme
    pub hosts : map fold u.hostname ≡ map fold v.hostname
    pub ports : effective_url_port lower u ≡ effective_url_port lower v

  -- The requests that a client makes one after the other: a first one, then one for each redirect that
  -- `check_redirect` lets through, under the settings of that moment.
  pub data Followed : List Url → Type 0 where
    asked : (u : Url) → Followed (u ∷ [])
    redirected :
        {via : List Url}
        → Followed via
        → (snap : OidcOutboundSnapshot) (target : Url)
        → check_redirect lower fold parse_addr reparse (some snap) target via ≡ none
        → Followed (via ++ (target ∷ []))
