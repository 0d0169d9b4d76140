-- ===== src/Security/Outbound/Hosts.antt =====
-- backend/internal/security/outbound.go: the hosts that the operator allowed. `lower` is
-- `unicode.ToLower`.
use llama_rack.Base.{
  ℕ, Bool, false, ◌||◌, not, Option, none, some, List, [], ◌∷◌, map, ◌==◌, if◌then◌else◌, is_nil,
}
use mathlib.Core.List.{reverse}
use llama_rack.Base.Text.{Text, trim_space, one_of}

-- What follows the first character of this kind, with what stands before it.
unfoldable pub cut : ℕ → Text → Option (Text × Text)
cut c [] = none
cut c (d ∷ s) = elim (cut c s) [
  | none ↦ if d == c then some ([], s) else none
  | some (before, after) ↦ if d == c then some ([], s) else some (d ∷ before, after)
]

unfoldable pub has_rune : ℕ → Text → Bool
has_rune c [] = false
has_rune c (d ∷ s) = d == c || has_rune c s

-- The text before the last colon.
unfoldable pub before_last_colon : Text → Option Text
unfolding cut
before_last_colon s = elim (cut b':' (reverse s)) [
  | none ↦ none
  | some (port, host) ↦ some (reverse host)
]

-- The host of "[host]:port", where a port follows the first closing bracket and the last colon.
unfoldable pub bracketed_host : Text → Option Text
unfolding cut has_rune
bracketed_host rest = elim (cut b']' rest) [
  | none ↦ none
  | some (host, after) ↦ elim after [
    | [] ↦ none
    | c ∷ port ↦
        if not (c == b':') || has_rune b':' port || has_rune b'[' rest || has_rune b']' port
        then none
        else some host
  ]
]

abbrev plain_host : Text → Option Text
plain_host s = elim (before_last_colon s) [
  | none ↦ none
  | some host ↦ if has_rune b':' host || has_rune b'[' s || has_rune b']' s then none else some host
]

-- The host of net.SplitHostPort, where it gives no error.
unfoldable pub split_host : Text → Option Text
unfolding before_last_colon bracketed_host has_rune
split_host [] = none
split_host (c ∷ s) = if c == b'[' then bracketed_host s else plain_host (c ∷ s)

-- strings.TrimPrefix of one character.
abbrev trim_first : ℕ → Text → Text
trim_first c [] = []
trim_first c (d ∷ s) = if d == c then s else d ∷ s

abbrev or_whole : Text → Option Text → Text
or_whole value none = value
or_whole value (some host) = host

abbrev pub normalized : (ℕ → ℕ) → Text → Text
normalized lower value =
    let host = or_whole value (split_host value) in
    let bare = reverse (trim_first b']' (reverse (trim_first b'[' host))) in
    map lower (trim_space bare)

unfoldable pub normalize_oidc_host : (ℕ → ℕ) → Text → Text
unfolding split_host
normalize_oidc_host lower value =
    let trimmed = trim_space value in if is_nil trimmed then [] else normalized lower trimmed

unfoldable pub is_separator : ℕ → Bool
is_separator c = c == b',' || c == b';' || c == b' ' || c == 9 || c == 10

-- strings.FieldsFunc: the runs of characters between separators.
unfoldable pub fields : Text → Text → List Text
unfolding is_separator
fields run [] = if is_nil run then [] else reverse run ∷ []
fields run (c ∷ s) =
    let within = fields (c ∷ run) s in
    let after = fields [] s in
    if is_separator c then (if is_nil run then after else reverse run ∷ after) else within

-- The loop of `ParseOIDCAllowedHosts`: the hosts that have been seen, the last one first.
unfoldable pub add_hosts : (ℕ → ℕ) → List Text → List Text → List Text
unfolding normalize_oidc_host
add_hosts lower seen [] = seen
add_hosts lower seen (field ∷ rest) =
    let host = normalize_oidc_host lower field in
    if is_nil host || one_of host seen
    then add_hosts lower seen rest
    else add_hosts lower (host ∷ seen) rest

unfoldable pub parse_oidc_allowed_hosts : (ℕ → ℕ) → Text → List Text
unfolding fields add_hosts
parse_oidc_allowed_hosts lower value = reverse (add_hosts lower [] (fields [] value))

unfoldable pub host_allowed : (ℕ → ℕ) → Text → List Text → Bool
unfolding normalize_oidc_host
host_allowed lower host allowed =
    let name = normalize_oidc_host lower host in if is_nil name then false else one_of name allowed
