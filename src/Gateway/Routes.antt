-- ===== src/Gateway/Routes.antt =====
-- backend/internal/gateway/routes.go: the routes that the gateway serves. A row of the table and the
-- specification that it yields are one record, since `classify` copies the method and the pattern of
-- the row into it.
pub mod Unique
pub mod Table
use llama_rack.Base.{
  ℕ, ◌-◌, Bool, true, false, ◌&&◌, ◌||◌, Option, none, some, List, [], ◌∷◌, map, leb, ◌==◌,
  if◌then◌else◌, is_nil, length,
}
use mathlib.Core.List.{reverse}
use llama_rack.Base.Text.{Text, codes, text_eq, trim_space, drop_while}
use llama_rack.Base.Maps.{Map, put}
use llama_rack.Gateway.Routes.Table.{
  RouteKind, RouteSpec, classified_routes, method_delete, method_get, method_post,
  route_chat_control, route_json_proxy, route_multipart_proxy,
}

-- strings.Split at a slash.
unfoldable pub split_slash : Text → List Text
split_slash [] = [] ∷ []
split_slash (c ∷ s) = elim (split_slash s) [
  | [] ↦ (c ∷ []) ∷ []
  | part ∷ parts ↦ if c == b'/' then [] ∷ part ∷ parts else (c ∷ part) ∷ parts
]

-- strings.Trim of slashes.
abbrev trim_slashes : Text → Text
trim_slashes s = reverse (drop_while (λ c. c == b'/') (reverse (drop_while (λ c. c == b'/') s)))

unfoldable pub split_path : Text → List Text
unfolding split_slash drop_while
split_path path = let inner = trim_slashes path in if is_nil inner then [] else split_slash inner

-- Whether the text begins with this character.
abbrev starts : ℕ → Text → Bool
starts c [] = false
starts c (d ∷ s) = c == d

-- The name between the braces of a part that is a parameter.
unfoldable pub parameter_name : Text → Option Text
parameter_name [] = none
parameter_name (c ∷ s) =
    let rest = reverse s in
    if c == b'{' && starts b'}' rest then some (reverse (drop_one rest)) else none
  where
    drop_one : Text → Text
    drop_one [] = []
    drop_one (d ∷ t) = t

-- The loop of `matchPath` on parts of equal number.
unfoldable pub match_parts : List Text → List Text → Map Text → Option (Map Text)
unfolding parameter_name
match_parts [] parts params = some params
match_parts (p ∷ pattern) [] params = none
match_parts (p ∷ pattern) (x ∷ parts) params = elim (parameter_name p) [
  | some name ↦
      if is_nil x || is_nil name then none else match_parts pattern parts (put name x params)
  | none ↦ if text_eq p x then match_parts pattern parts params else none
]

unfoldable pub match_path : Text → Text → Option (Map Text)
unfolding split_path match_parts
match_path pattern path =
    let pattern_parts = split_path pattern in
    let path_parts = split_path path in
    if length pattern_parts == length path_parts
    then match_parts pattern_parts path_parts []
    else none

-- unicode.ToUpper on the characters that it takes to an ASCII letter.
unfoldable pub to_upper_rune : ℕ → ℕ
to_upper_rune c =
    if leb b'a' c && leb c b'z'
    then c - 32
    else if c == 0x131
    then b'I'
    else if c == 0x17f
    then b'S'
    else c

-- The first row that fits.
unfoldable pub find_route : Text → Text → List RouteSpec → Option (RouteSpec × Map Text)
find_route method path [] = none
find_route method path (def ∷ routes) =
    if text_eq def.method method
    then elim (match_path def.pattern path) [
      | some params ↦ some (def, params)
      | none ↦ find_route method path routes
    ]
    else find_route method path routes

abbrev pub trimmed_path : Text → Text
trimmed_path path = let trimmed = trim_space path in if is_nil trimmed then codes "/" else trimmed

unfoldable pub classify : Text → Text → Option (RouteSpec × Map Text)
unfolding classified_routes to_upper_rune find_route
classify method path =
    find_route (map to_upper_rune (trim_space method)) (trimmed_path path) classified_routes

unfoldable pub call_type_of : Text → Text
unfolding classify
call_type_of path = elim (classify method_post path) [
  | some (spec, params) ↦ spec.call_type
  | none ↦ elim (classify method_get path) [
    | some (spec, params) ↦ spec.call_type
    | none ↦ elim (classify method_delete path) [ some (spec, params) ↦ spec.call_type | none ↦ [] ]
  ]
]

abbrev is_proxied : RouteKind → Bool
is_proxied route_json_proxy = true
is_proxied route_multipart_proxy = true
is_proxied route_chat_control = true
is_proxied _ = false

unfoldable pub supported : Text → Bool
unfolding classify
supported path = elim (classify method_post path) [
  | none ↦ false
  | some (spec, params) ↦ is_proxied spec.kind
]
