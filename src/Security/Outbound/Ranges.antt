-- ===== src/Security/Outbound/Ranges.antt =====
-- backend/internal/security/outbound.go: the addresses that `BlockedOIDCAddr` means, as ranges from a
-- first to a last address.
use llama_rack.Base.{
  ℕ, ◌+◌, ◌-◌, ◌*◌, ◌/◌, ◌%◌, ◌^◌, ◌<◌, ◌≡◌, refl, ◌⊎◌, inl, inr, false, List, [], ◌∷◌, ◌==◌,
  if◌then◌else◌, is_nil, All, arith, Bool-cases,
}
use llama_rack.Base.Text.{Text}
use llama_rack.Security.Outbound.Addresses.{
  Addr, no_addr, ipv4, ipv6, unmap, blocked_v4, blocked_v6, blocked_oidc_addr,
}

-- a.b.c.d.
abbrev pub v4 : ℕ → ℕ → ℕ → ℕ → ℕ
v4 a b c d = a * 2 ^ 24 + b * 2 ^ 16 + c * 2 ^ 8 + d

-- The first address of an IPv6 address's first two bytes.
abbrev pub v6 : ℕ → ℕ
v6 head = head * 2 ^ 112

-- Loopback, link-local, multicast, unspecified, private, and shared addresses.
abbrev pub ranges_v4 : List (ℕ × ℕ)
ranges_v4 =
    (v4 127 0 0 0, v4 127 255 255 255)
    ∷ (v4 169 254 0 0, v4 169 254 255 255)
    ∷ (v4 224 0 0 0, v4 239 255 255 255)
    ∷ (v4 0 0 0 0, v4 0 0 0 0)
    ∷ (v4 10 0 0 0, v4 10 255 255 255)
    ∷ (v4 172 16 0 0, v4 172 31 255 255)
    ∷ (v4 192 168 0 0, v4 192 168 255 255)
    ∷ (v4 100 64 0 0, v4 100 127 255 255)
    ∷ []

-- Loopback, IPv4 addresses written as IPv6 ones, private, link-local, and multicast addresses.
abbrev pub ranges_v6 : List (ℕ × ℕ)
ranges_v6 =
    (1, 1)
    ∷ (0xffff * 2 ^ 32, 0x10000 * 2 ^ 32 - 1)
    ∷ (v6 0xfc00, v6 0xfe00 - 1)
    ∷ (v6 0xfe80, v6 0xfec0 - 1)
    ∷ (v6 0xff00, v6 0x10000 - 1)
    ∷ []

-- The unspecified address, 2002::/16 and 2001::/32.
abbrev pub ranges_without_zone : List (ℕ × ℕ)
ranges_without_zone = (0, 0) ∷ (v6 0x2002, v6 0x2003 - 1) ∷ (v6 0x2001, v6 0x2001 + 2 ^ 96 - 1) ∷ []

abbrev pub IsOutside : ℕ → List (ℕ × ℕ) → Type 0
IsOutside n ranges = All (λ range. (n < range.0) ⊎ (range.1 < n)) ranges

-- An address outside of all ranges, where the last ranges are for addresses without a zone.
abbrev pub IsPublic : Addr → Type 0
IsPublic no_addr = ⊥
IsPublic (ipv4 n) = IsOutside n ranges_v4
IsPublic (ipv6 n zone) =
    IsOutside n ranges_v6 × (if is_nil zone then IsOutside n ranges_without_zone else Unit)

v4-IsPublic : (n : ℕ) → blocked_v4 n ≡ false → IsPublic (ipv4 n)
unfolding blocked_v4
v4-IsPublic n h = ground (arith, h)

v6-IsPublic :
    (n : ℕ) (zone : Text)
    → (n / 2 ^ 32 == 0xffff) ≡ false
    → blocked_v6 n zone ≡ false
    → IsPublic (ipv6 n zone)
unfolding blocked_v6
v6-IsPublic n zone plain h = (
  ground (arith, h, plain),
  elim (Bool-cases (is_nil zone)) [
    | inl bare ↦ rw bare (ground (arith, h, bare))
    | inr zoned ↦ rw zoned tt
  ],
)

-- An address that is not blocked is public in its plain form.
pub blocked_oidc_addr-IsPublic : (ip : Addr) → blocked_oidc_addr ip ≡ false → IsPublic (unmap ip)
unfolding blocked_oidc_addr unmap
blocked_oidc_addr-IsPublic no_addr h = absurd (ground (arith, h))
blocked_oidc_addr-IsPublic (ipv4 n) h = v4-IsPublic n h
blocked_oidc_addr-IsPublic (ipv6 n zone) h = elim (Bool-cases (n / 2 ^ 32 == 0xffff)) [
  | inl e ↦ rw e (v4-IsPublic (n % 2 ^ 32) (ground (arith, h, e)))
  | inr e ↦ rw e (v6-IsPublic n zone e (ground (arith, h, e)))
]

-- The plain form of an address is blocked as the address is.
pub blocked_oidc_addr-unmap : (ip : Addr) → blocked_oidc_addr (unmap ip) ≡ blocked_oidc_addr ip
unfolding blocked_oidc_addr unmap
blocked_oidc_addr-unmap no_addr = refl
blocked_oidc_addr-unmap (ipv4 n) = refl
blocked_oidc_addr-unmap (ipv6 n zone) = elim (Bool-cases (n / 2 ^ 32 == 0xffff)) [
  | inl e ↦ rw e refl
  | inr e ↦ rw (e, e) refl
]
