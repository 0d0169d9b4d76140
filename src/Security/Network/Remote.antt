-- ===== src/Security/Network/Remote.antt =====
-- backend/internal/security/security.go: which hop of a request `EffectiveRemoteAddress` takes.
use llama_rack.Base.{
  ℕ, ◌≡◌, refl, ◌∙◌, Bool, true, false, not, Option, none, some, List, [], ◌∷◌, ◌++◌, All,
  Bool-cases, inl, inr, ap, ◌||◌, ◌⊎◌,
}
use llama_rack.Base.Text.{Text}
use llama_rack.Security.Outbound.Addresses.{Addr, no_addr, ipv4, ipv6}
use llama_rack.Security.Network.{
  Request, last_untrusted, is_trusted_peer, remote_ip, named_hops, forwarded_address,
  choose_address, effective_remote_address, is_valid,
}

-- The hops behind the last one that is not trusted do not matter.
last_untrusted-none :
    (trusted : Addr → Bool) (after : List Addr)
    → All (λ ip. trusted ip ≡ true) after
    → last_untrusted trusted after ≡ none
unfolding last_untrusted
last_untrusted-none trusted [] all = refl
last_untrusted-none trusted (ip ∷ after) (closed, all) =
    rw (last_untrusted-none trusted after all, closed) refl

last_untrusted-last :
    (trusted : Addr → Bool) (before after : List Addr) (ip : Addr)
    → trusted ip ≡ false
    → All (λ hop. trusted hop ≡ true) after
    → last_untrusted trusted (before ++ (ip ∷ after)) ≡ some ip
unfolding last_untrusted
last_untrusted-last trusted [] after ip open_hop all =
    rw (last_untrusted-none trusted after all, open_hop) refl
last_untrusted-last trusted (hop ∷ before) after ip open_hop all =
    rw (last_untrusted-last trusted before after ip open_hop all) refl

-- An invalid peer is not trusted.
not_trusted :
    (trusted : Addr → Bool) (peer : Addr)
    → trusted no_addr ≡ false
    → (not (is_valid peer) || not (trusted peer)) ≡ not (trusted peer)
not_trusted trusted no_addr invalid = rw invalid refl
not_trusted trusted (ipv4 n) invalid = refl
not_trusted trusted (ipv6 n zone) invalid = refl

choose_address-last :
    (trusted : Addr → Bool) (peer : Addr) (chain : List Addr) (real ip : Addr)
    → trusted no_addr ≡ false
    → last_untrusted trusted (chain ++ (peer ∷ [])) ≡ some ip
    → choose_address trusted peer chain real ≡ ip
unfolding choose_address last_untrusted
choose_address-last trusted peer chain real ip invalid found =
    go chain found (Bool-cases (trusted peer))
  where
    go :
        (chain : List Addr)
        → last_untrusted trusted (chain ++ (peer ∷ [])) ≡ some ip
        → (trusted peer ≡ true) ⊎ (trusted peer ≡ false)
        → choose_address trusted peer chain real ≡ ip
    go chain found (inr off) =
        let last = last_untrusted-last trusted chain [] peer off tt in
        rw (not_trusted trusted peer invalid, off) cc
    go [] found (inl on) = let nothing = last_untrusted-none trusted (peer ∷ []) (on, tt) in cc
    go (hop ∷ rest) found (inl on) = rw (not_trusted trusted peer invalid, on, found) refl

module _ (fold : ℕ → ℕ) (parse_addr : Text → Option Addr)
    (parse_prefix : Text → Option (Addr → Bool)) (raw : Option Text) (r : Request) where
  abbrev trusted : Addr → Bool
  trusted ip = is_trusted_peer fold parse_addr parse_prefix raw ip

  abbrev pub hops : List Addr
  hops =
      named_hops fold parse_addr parse_prefix r
      ++ (remote_ip fold parse_addr parse_prefix r.remote_addr ∷ [])

  -- Of the hops that the headers name and the peer itself, the last one that is not trusted is the
  -- address of the request, where all that follow it are trusted: what stands before it, which a
  -- client can write into the headers, and the X-Real-IP header do not matter.
  pub effective_remote_address-last :
      (before after : List Addr) (ip : Addr)
      → hops ≡ before ++ (ip ∷ after)
      → trusted ip ≡ false
      → All (λ hop. trusted hop ≡ true) after
      → effective_remote_address fold parse_addr parse_prefix raw r ≡ ip
  unfolding effective_remote_address is_trusted_peer
  effective_remote_address-last before after ip at_ip open_hop closed =
      choose_address-last trusted (remote_ip fold parse_addr parse_prefix r.remote_addr)
        (named_hops fold parse_addr parse_prefix r)
        (forwarded_address fold parse_addr parse_prefix r.x_real_ip) ip refl
        (ap (last_untrusted trusted) at_ip
          ∙ last_untrusted-last trusted before after ip open_hop closed)
