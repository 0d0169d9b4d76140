-- ===== src/Security/Network.antt =====
-- backend/internal/security/security.go: the address that a request comes from. The settings, the
-- headers, the parsers of `net/netip` and `strings.EqualFold`'s folding of a character are
-- parameters; an address stands for what `String` prints of it.
pub mod Remote
use llama_rack.Base.{
  ℕ, Bool, true, false, ◌&&◌, ◌||◌, not, Option, none, some, List, [], ◌∷◌, ◌++◌, ◌==◌,
  if◌then◌else◌, is_nil,
}
use mathlib.Core.List.{reverse}
use llama_rack.Base.Text.{Text, codes, text_eq, trim_space, drop_while, split_comma}
use llama_rack.Security.Outbound.{trim_brackets, equal_fold}
use llama_rack.Security.Outbound.Addresses.{Addr, no_addr, ipv4, ipv6, unmap}
use llama_rack.Security.Outbound.Hosts.{cut, split_host}

abbrev pub is_valid : Addr → Bool
is_valid no_addr = false
is_valid (ipv4 n) = true
is_valid (ipv6 n zone) = true

abbrev addr_eq : Addr → Addr → Bool
addr_eq no_addr no_addr = true
addr_eq (ipv4 m) (ipv4 n) = m == n
addr_eq (ipv6 m y) (ipv6 n z) = m == n && text_eq y z
addr_eq _ _ = false

-- strings.Trim of quotation marks.
abbrev trim_quotes : Text → Text
trim_quotes s =
    let quote : ℕ → Bool = λ c. c == b'"' in
    reverse (drop_while quote (reverse (drop_while quote s)))

-- strings.Split at a semicolon.
unfoldable split_semicolon : Text → List Text
split_semicolon [] = [] ∷ []
split_semicolon (c ∷ s) = elim (split_semicolon s) [
  | [] ↦ (c ∷ []) ∷ []
  | part ∷ parts ↦ if c == b';' then [] ∷ part ∷ parts else (c ∷ part) ∷ parts
]

abbrev starts_with_underscore : Text → Bool
starts_with_underscore [] = false
starts_with_underscore (c ∷ s) = c == b'_'

abbrev host_or : Text → Option Text → Text
host_or value none = value
host_or value (some host) = host

-- Unmap of an address that was parsed, else the zero value.
abbrev parsed : Option Addr → Addr
parsed none = no_addr
parsed (some ip) = unmap ip

-- The addresses that are valid.
abbrev valid_or : Addr → List Addr → List Addr
valid_or ip rest = if is_valid ip then ip ∷ rest else rest

-- The last address of the list that is not trusted.
unfoldable pub last_untrusted : (Addr → Bool) → List Addr → Option Addr
last_untrusted trusted [] = none
last_untrusted trusted (ip ∷ hops) = elim (last_untrusted trusted hops) [
  | some found ↦ some found
  | none ↦ if trusted ip then none else some ip
]

abbrev first_or : Addr → List Addr → Addr
first_or peer [] = peer
first_or peer (ip ∷ hops) = ip

-- `EffectiveRemoteAddress` of the peer, the hops that the headers name and the address of X-Real-IP.
unfoldable pub choose_address : (Addr → Bool) → Addr → List Addr → Addr → Addr
unfolding last_untrusted
choose_address trusted peer chain real =
    let hops = chain ++ (peer ∷ []) in
    if not (is_valid peer) || not (trusted peer)
    then peer
    else if is_nil chain && is_valid real
    then real
    else elim (last_untrusted trusted hops) [ some ip ↦ ip | none ↦ first_or peer hops ]

-- What a request says of its origin.
pub record Request : Type 0 where
  pub remote_addr : Text
  pub forwarded : Text
  pub x_forwarded_for : Text
  pub x_real_ip : Text

module _ (fold : ℕ → ℕ) (parse_addr : Text → Option Addr)
    (parse_prefix : Text → Option (Addr → Bool)) where
  abbrev is_trusted_item : Text → Addr → Bool
  is_trusted_item item ip =
      let within : Bool = elim (parse_prefix item) [ none ↦ false | some contains ↦ contains ip ] in
      let same : Bool = elim (parse_addr item) [
        | none ↦ false
        | some addr ↦ addr_eq (unmap addr) (unmap ip)
      ] in
      not (is_nil item) && (within || same)

  unfoldable trusted_by : List Text → Addr → Bool
  unfolding unmap
  trusted_by [] ip = false
  trusted_by (item ∷ items) ip = is_trusted_item (trim_space item) ip || trusted_by items ip

  -- `none` is an error of the settings.
  unfoldable pub is_trusted_peer : Option Text → Addr → Bool
  unfolding trusted_by
  is_trusted_peer raw no_addr = false
  is_trusted_peer none ip = false
  is_trusted_peer (some raw) ip = not (is_nil (trim_space raw)) && trusted_by (split_comma raw) ip

  unfoldable pub remote_ip : Text → Addr
  unfolding split_host unmap
  remote_ip remote =
      parsed (parse_addr (trim_brackets (trim_space (host_or remote (split_host remote)))))

  unfoldable pub forwarded_address : Text → Addr
  unfolding split_host unmap
  forwarded_address raw =
      let value = trim_quotes (trim_space raw) in
      if is_nil value || equal_fold fold value (codes "unknown") || starts_with_underscore value
      then no_addr
      else parsed (parse_addr (trim_brackets (host_or value (split_host value))))

  unfoldable add_forwarded : List Text → List Addr
  unfolding forwarded_address
  add_forwarded [] = []
  add_forwarded (raw ∷ rest) = valid_or (forwarded_address raw) (add_forwarded rest)

  unfoldable x_forwarded_chain : Text → List Addr
  unfolding add_forwarded
  x_forwarded_chain header = add_forwarded (split_comma header)

  -- The parts of one hop.
  unfoldable add_parts : List Text → List Addr
  unfolding forwarded_address cut
  add_parts [] = []
  add_parts (part ∷ parts) = elim (cut b'=' (trim_space part)) [
    | none ↦ add_parts parts
    | some (key, value) ↦
        if equal_fold fold key (codes "for")
        then valid_or (forwarded_address value) (add_parts parts)
        else add_parts parts
  ]

  unfoldable add_hops : List Text → List Addr
  unfolding add_parts split_semicolon
  add_hops [] = []
  add_hops (hop ∷ hops) = add_parts (split_semicolon hop) ++ add_hops hops

  unfoldable forwarded_for : Text → List Addr
  unfolding add_hops
  forwarded_for header = add_hops (split_comma header)

  -- The hops that the headers name, the nearest one last.
  unfoldable pub named_hops : Request → List Addr
  unfolding forwarded_for x_forwarded_chain
  named_hops r =
      let chain = forwarded_for r.forwarded in
      if is_nil chain then x_forwarded_chain r.x_forwarded_for else chain

  unfoldable pub effective_remote_address : Option Text → Request → Addr
  unfolding choose_address remote_ip is_trusted_peer named_hops forwarded_address
  effective_remote_address raw r =
      choose_address (is_trusted_peer raw) (remote_ip r.remote_addr) (named_hops r)
        (forwarded_address r.x_real_ip)
