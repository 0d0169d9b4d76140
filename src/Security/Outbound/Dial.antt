-- ===== src/Security/Outbound/Dial.antt =====
-- backend/internal/security/outbound.go: what the OIDC client connects to.
use llama_rack.Base.{
  ℕ, ◌+◌, ◌*◌, ◌/◌, ◌%◌, ◌^◌, ◌≤◌, ◌<◌, ◌≡◌, refl, subst, ◌⊎◌, inl, inr, true, false, not, ◌||◌,
  Option, none, some, List, [], ◌∷◌, ◌++◌, ◌==◌, is_nil, All, arith, Bool-cases, Option-cases,
}
use llama_rack.Base.Text.{Text}
use llama_rack.Security.Outbound.{
  OidcOutboundSnapshot, oidc_destination, allow_oidc_ip, dial, refused, pick_resolved,
  pick_dial_addr, trim_brackets,
}
use llama_rack.Security.Outbound.Ranges.{
  IsPublic, blocked_oidc_addr-IsPublic, blocked_oidc_addr-unmap,
}
use llama_rack.Security.Outbound.Hosts.{host_allowed}
use llama_rack.Security.Outbound.Addresses.{
  Addr, no_addr, ipv4, ipv6, unmap, blocked_v6, blocked_oidc_addr,
}

-- An address that may be reached: it is public, or the operator has allowed its host.
abbrev pub MayReach : (ℕ → ℕ) → Text → List Text → Addr → Type 0
MayReach lower host allowed ip = IsPublic ip ⊎ (host_allowed lower host allowed ≡ true)

plain-MayReach :
    (lower : ℕ → ℕ) (ip : Addr) (host : Text) (allowed : List Text)
    → (not (blocked_oidc_addr (unmap ip)) || host_allowed lower host allowed) ≡ true
    → MayReach lower host allowed (unmap ip)
plain-MayReach lower ip host allowed h = elim (Bool-cases (blocked_oidc_addr ip)) [
  | inr free ↦ inl (blocked_oidc_addr-IsPublic ip free)
  | inl blocked ↦ inr (ground (arith, h, blocked, blocked_oidc_addr-unmap ip))
]

allow_oidc_ip-MayReach :
    (lower : ℕ → ℕ) (ip : Addr) (host : Text) (allowed : List Text)
    → allow_oidc_ip lower ip host allowed ≡ true
    → MayReach lower host allowed (unmap ip)
unfolding allow_oidc_ip
allow_oidc_ip-MayReach lower no_addr host allowed h = absurd (ground (arith, h))
allow_oidc_ip-MayReach lower (ipv4 n) host allowed h = plain-MayReach lower (ipv4 n) host allowed h
allow_oidc_ip-MayReach lower (ipv6 n zone) host allowed h =
    plain-MayReach lower (ipv6 n zone) host allowed h

pick_resolved-MayReach :
    (lower : ℕ → ℕ) (host port : Text) (allowed : List Text) (resolved : List (Option Addr))
    (ip : Addr) (port' : Text)
    → pick_resolved lower host port allowed resolved ≡ dial ip port'
    → MayReach lower host allowed ip
unfolding pick_resolved
pick_resolved-MayReach lower host port allowed [] ip port' h = absurd (ground (arith, h))
pick_resolved-MayReach lower host port allowed (none ∷ resolved) ip port' h =
    pick_resolved-MayReach lower host port allowed resolved ip port' h
pick_resolved-MayReach lower host port allowed (some a ∷ resolved) ip port' h =
    elim (Bool-cases (allow_oidc_ip lower a host allowed)) [
      | inl e ↦
          let same : unmap a ≡ ip = ground (arith, h, e) in
          subst (MayReach lower host allowed) same (allow_oidc_ip-MayReach lower a host allowed e)
      | inr e ↦
          pick_resolved-MayReach lower host port allowed resolved ip port' (ground (arith, h, e))
    ]

module _ (lower : ℕ → ℕ) (parse_addr : Text → Option Addr) where
  -- Whatever the settings, the parser of addresses and the resolver answer, the client connects to no
  -- loopback, link-local, multicast, unspecified, private or shared address, to no IPv4 address
  -- written as an IPv6 one, and to no address of 2002::/16 or 2001::/32 that has no zone, unless the
  -- operator has allowed the host that it asked for. An unspecified IPv6 address with a zone, and one
  -- of the last two ranges with a zone, are not covered.
  pub pick_dial_addr-MayReach :
      (snap : OidcOutboundSnapshot) (resolve : Text → Option (List (Option Addr)))
      (host port : Text) (ip : Addr) (port' : Text)
      → pick_dial_addr lower parse_addr (some snap) resolve host port ≡ dial ip port'
      → MayReach lower (trim_brackets host) snap.allowed_hosts ip
  unfolding pick_dial_addr
  pick_dial_addr-MayReach snap resolve host port ip port' h =
      elim (Option-cases (parse_addr (trim_brackets host))) [
        | inr (a, found) ↦
            elim (Bool-cases (allow_oidc_ip lower a (trim_brackets host) snap.allowed_hosts)) [
              | inl e ↦
                  let same : unmap a ≡ ip = ground (arith, h, found, e) in
                  subst (MayReach lower (trim_brackets host) snap.allowed_hosts) same
                    (allow_oidc_ip-MayReach lower a (trim_brackets host) snap.allowed_hosts e)
              | inr e ↦ absurd (ground (arith, h, found, e))
            ]
        | inl name ↦ elim (Option-cases (resolve (trim_brackets host))) [
          | inl missing ↦ absurd (ground (arith, h, name, missing))
          | inr (resolved, found) ↦
              pick_resolved-MayReach lower (trim_brackets host) port snap.allowed_hosts resolved ip
                port' (ground (arith, h, name, found))
        ]
      ]

-- A resolver's answer is used as far as it may be: the client connects to one of the addresses if any
-- of them may be reached, and refuses the destination if none may.
pub pick_resolved-total :
    (lower : ℕ → ℕ) (host port : Text) (allowed : List Text) (front rest : List (Option Addr))
    (ip : Addr)
    → All
        (λ a. elim a [ none ↦ Unit {0} | some b ↦ allow_oidc_ip lower b host allowed ≡ false ])
        front
    → allow_oidc_ip lower ip host allowed ≡ true
    → (pick_resolved lower host port allowed (front ++ (some ip ∷ rest)) ≡ dial (unmap ip) port)
      × (pick_resolved lower host port allowed front ≡ refused oidc_destination)
unfolding pick_resolved
pick_resolved-total lower host port allowed [] rest ip blocked e = (rw e refl, refl)
pick_resolved-total lower host port allowed (none ∷ front) rest ip (_, blocked) e =
    pick_resolved-total lower host port allowed front rest ip blocked e
pick_resolved-total lower host port allowed (some a ∷ front) rest ip (f, blocked) e =
    rw f (pick_resolved-total lower host port allowed front rest ip blocked e)

-- An IPv4 address is blocked in the same way when it is written as an IPv6 address.
pub blocked_oidc_addr-mapped :
    (n : ℕ) (zone : Text)
    → n < 2 ^ 32
    → blocked_oidc_addr (ipv6 (0xffff * 2 ^ 32 + n) zone) ≡ blocked_oidc_addr (ipv4 n)
unfolding blocked_oidc_addr unmap
blocked_oidc_addr-mapped n zone h =
    let high : ((0xffff * 2 ^ 32 + n) / 2 ^ 32 == 0xffff) ≡ true = ground arith in
    let low : (0xffff * 2 ^ 32 + n) % 2 ^ 32 ≡ n = omega arith in rw (high, low) refl

-- The addresses of 2002::/16, which carry an IPv4 address, are blocked exactly when they are written
-- without a zone.
pub blocked_oidc_addr-zone :
    (n : ℕ) (zone : Text) → n / 2 ^ 112 ≡ 0x2002 → blocked_oidc_addr (ipv6 n zone) ≡ is_nil zone
unfolding blocked_oidc_addr unmap blocked_v6
blocked_oidc_addr-zone n zone h =
    let low : 0x2002 * 2 ^ 112 ≤ n = omega arith in
    let high : n < 0x2003 * 2 ^ 112 = omega arith in
    let mapped : (n / 2 ^ 32 == 0xffff) ≡ false = ground arith in
    let loopback : (n == 1) ≡ false = ground arith in
    let zero : (n == 0) ≡ false = ground arith in
    let link : (n / 2 ^ 118 == 0x3fa) ≡ false = ground arith in
    let multicast : (n / 2 ^ 120 == 0xff) ≡ false = ground arith in
    let local : (n / 2 ^ 121 == 0x7e) ≡ false = ground arith in
    let tunnel : (n / 2 ^ 112 == 0x2002) ≡ true = ground arith in
    rw (mapped, loopback, link, multicast, zero, local, tunnel) (ground arith)
