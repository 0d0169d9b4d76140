-- ===== src/Security/Outbound/Addresses.antt =====
-- backend/internal/security/outbound.go: the addresses that `BlockedOIDCAddr` blocks. The tests of
-- `net/netip` on an address are written out.
use llama_rack.Base.{ℕ, ◌/◌, ◌%◌, ◌^◌, Bool, true, ◌&&◌, ◌||◌, ◌==◌, if◌then◌else◌, is_nil}
use llama_rack.Base.Text.{Text}

-- netip.Addr: the zero value, an IPv4 address, or an IPv6 address with its zone.
pub data Addr : Type 0 where
  no_addr : Addr
  ipv4 : ℕ → Addr
  ipv6 : ℕ → Text → Addr

-- Unmap.
unfoldable pub unmap : Addr → Addr
unmap no_addr = no_addr
unmap (ipv4 n) = ipv4 n
unmap (ipv6 n zone) = if n / 2 ^ 32 == 0xffff then ipv4 (n % 2 ^ 32) else ipv6 n zone

-- The address tests of an IPv4 address: IsLoopback, IsLinkLocalUnicast, IsLinkLocalMulticast,
-- IsMulticast, IsUnspecified, IsPrivate, and the range 100.64.0.0/10.
unfoldable pub blocked_v4 : ℕ → Bool
blocked_v4 n =
    n / 2 ^ 24 == 127
    || n / 2 ^ 16 == 0xa9fe
    || n / 2 ^ 8 == 0xe00000
    || n / 2 ^ 28 == 0xe
    || n == 0
    || (n / 2 ^ 24 == 10 || n / 2 ^ 20 == 0xac1 || n / 2 ^ 16 == 0xc0a8)
    || n / 2 ^ 22 == 0x191

-- The same of an IPv6 address, where the unspecified one has no zone, and the ranges 2002::/16 and
-- 2001::/32, which hold no address with a zone.
unfoldable pub blocked_v6 : ℕ → Text → Bool
blocked_v6 n zone =
    n == 1
    || n / 2 ^ 118 == 0x3fa
    || (n / 2 ^ 120 == 0xff && n / 2 ^ 112 % 16 == 2)
    || n / 2 ^ 120 == 0xff
    || (n == 0 && is_nil zone)
    || n / 2 ^ 121 == 0x7e
    || (is_nil zone && (n / 2 ^ 112 == 0x2002 || n / 2 ^ 96 == 0x20010000))

abbrev blocked_plain : Addr → Bool
blocked_plain no_addr = true
blocked_plain (ipv4 n) = blocked_v4 n
blocked_plain (ipv6 n zone) = blocked_v6 n zone

unfoldable pub blocked_oidc_addr : Addr → Bool
unfolding unmap blocked_v4 blocked_v6
blocked_oidc_addr ip = blocked_plain (unmap ip)
