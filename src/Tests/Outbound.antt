-- ===== src/Tests/Outbound.antt =====
-- A provider whose name resolves to a private and to a public address.
use llama_rack.Base.{
  ◌*◌, ◌+◌, ◌^◌, ◌≡◌, refl, true, false, Option, none, some, List, [], ◌∷◌, arith,
}
use llama_rack.Base.Text.{Text, codes, to_lower_rune}
use llama_rack.Security.Outbound.{OidcOutboundSnapshot, Url, trim_brackets, pick_dial_addr}
use llama_rack.Security.Outbound.Addresses.{Addr, ipv4, ipv6, blocked_oidc_addr}
use llama_rack.Security.Outbound.Dial.{MayReach, pick_dial_addr-MayReach, blocked_oidc_addr-zone}

abbrev strict : OidcOutboundSnapshot
strict = record { allow_http = false; allowed_hosts = [] }

abbrev private_addr : Addr
private_addr = ipv4 (10 * 2 ^ 24 + 5)

abbrev public_addr : Addr
public_addr = ipv4 (93 * 2 ^ 24 + 7)

abbrev no_literal : Text → Option Addr
no_literal s = none

abbrev resolver : Text → Option (List (Option Addr))
resolver s = some (some private_addr ∷ none ∷ some public_addr ∷ [])

pick_dial_addr_example :
    MayReach to_lower_rune (trim_brackets (codes "id.example.com")) [] public_addr
unfolding pick_dial_addr llama_rack.Base.Text.trim_space llama_rack.Base.Text.one_of
pick_dial_addr_example =
    pick_dial_addr-MayReach to_lower_rune no_literal strict resolver (codes "id.example.com")
      (codes "443") public_addr (codes "443") refl

blocked_oidc_addr-zone_example :
    blocked_oidc_addr (ipv6 (0x2002 * 2 ^ 112 + 1) (codes "eth0")) ≡ false
blocked_oidc_addr-zone_example =
    blocked_oidc_addr-zone (0x2002 * 2 ^ 112 + 1) (codes "eth0") (omega arith)

abbrev provider : Url
provider = record {
  scheme = codes "https";
  opaque = [];
  has_user = false;
  host = codes "id.example.com";
  hostname = codes "id.example.com";
  port = [];
}

abbrev same_port : Url
same_port = record provider { port = codes "443" }

abbrev parses : Url → Option Url
parses u = some u
