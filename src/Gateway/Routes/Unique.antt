-- ===== src/Gateway/Routes/Unique.antt =====
-- backend/internal/gateway/routes.go: no two rows of the table serve the same request.
use llama_rack.Base.{
  ◌≡◌, refl, sym, ◌∙◌, ◌⊎◌, inl, inr, Bool, true, false, ◌&&◌, ◌||◌, not, none, some, List, [], ◌∷◌,
  map, length, All, arith, Bool-cases, Option-cases,
}
use llama_rack.Base.Text.{Text, text_eq, text_eq_iff, trim_space}
use llama_rack.Base.Maps.{Map, put}
use llama_rack.Gateway.Routes.{
  split_path, parameter_name, match_parts, match_path, to_upper_rune, find_route, trimmed_path,
  classify,
}
use llama_rack.Gateway.Routes.Table.{RouteSpec, classified_routes}

-- Whether one path may fit both parts, and both patterns.
abbrev parts_meet : Text → Text → Bool
parts_meet p q = elim (parameter_name p) [
  | some name ↦ true
  | none ↦ elim (parameter_name q) [ some name ↦ true | none ↦ text_eq p q ]
]

abbrev meet : List Text → List Text → Bool
meet [] [] = true
meet [] (q ∷ qs) = false
meet (p ∷ ps) [] = false
meet (p ∷ ps) (q ∷ qs) = parts_meet p q && meet ps qs

-- A part that fits is that of a parameter or the part of the path itself.
abbrev FitsPart : Text → Text → Type 0
FitsPart p x =
    ((name : Text) × (parameter_name p ≡ some name)) ⊎ ((parameter_name p ≡ none) × (p ≡ x))

match_parts-step :
    (p : Text) (ps : List Text) (x : Text) (xs : List Text) (m m' : Map Text)
    → match_parts (p ∷ ps) (x ∷ xs) m ≡ some m'
    → (m1 : Map Text) × (match_parts ps xs m1 ≡ some m') × FitsPart p x
unfolding match_parts
match_parts-step p ps x xs m m' h = elim (Option-cases (parameter_name p)) [
  | inr (name, e) ↦ (put name x m, ground (arith, h, e), inl (name, e))
  | inl e ↦ (m, ground (arith, h, e), inr (e, ground (arith, h, e, text_eq_iff p x)))
]

parts_meet-fits : (p q x : Text) → FitsPart p x → FitsPart q x → parts_meet p q ≡ true
parts_meet-fits p q x (inl (name, e)) fits = rw (parts_meet, e) refl
parts_meet-fits p q x (inr (e, same)) (inl (name, f)) = rw (parts_meet, e, f) refl
parts_meet-fits p q x (inr (e, same)) (inr (f, same')) =
    rw (parts_meet, e, f) ((text_eq_iff p q).1 (same ∙ sym same'))

match_parts-meet :
    (ps qs xs : List Text) (m n m' n' : Map Text)
    → length ps ≡ length xs
    → length qs ≡ length xs
    → match_parts ps xs m ≡ some m'
    → match_parts qs xs n ≡ some n'
    → meet ps qs ≡ true
unfolding match_parts
match_parts-meet [] [] xs m n m' n' e f h k = refl
match_parts-meet [] (q ∷ qs) [] m n m' n' e f h k = absurd (ground arith)
match_parts-meet [] (q ∷ qs) (x ∷ xs) m n m' n' e f h k = absurd (omega arith)
match_parts-meet (p ∷ ps) [] [] m n m' n' e f h k = absurd (omega arith)
match_parts-meet (p ∷ ps) [] (x ∷ xs) m n m' n' e f h k = absurd (omega arith)
match_parts-meet (p ∷ ps) (q ∷ qs) [] m n m' n' e f h k = absurd (omega arith)
match_parts-meet (p ∷ ps) (q ∷ qs) (x ∷ xs) m n m' n' e f h k =
    let (m1, h1, fits_p) = match_parts-step p ps x xs m m' h in
    let (n1, k1, fits_q) = match_parts-step q qs x xs n n' k in
    let rest = match_parts-meet ps qs xs m1 n1 m' n' (omega arith) (omega arith) h1 k1 in
    rw (parts_meet-fits p q x fits_p fits_q) rest

match_path-meet :
    (pattern pattern' path : Text) (m n : Map Text)
    → match_path pattern path ≡ some m
    → match_path pattern' path ≡ some n
    → meet (split_path pattern) (split_path pattern') ≡ true
unfolding match_path
match_path-meet pattern pattern' path m n h k =
    match_parts-meet (split_path pattern) (split_path pattern') (split_path path) [] [] m n
      (ground (arith, h)) (ground (arith, k)) (ground (arith, h)) (ground (arith, k))

-- Two rows that serve no request together.
abbrev apart : RouteSpec → RouteSpec → Bool
apart d e =
    not (text_eq d.method e.method) || not (meet (split_path d.pattern) (split_path e.pattern))

abbrev apart_from : RouteSpec → List RouteSpec → Bool
apart_from d [] = true
apart_from d (e ∷ routes) = apart d e && apart_from d routes

abbrev all_apart : List RouteSpec → Bool
all_apart [] = true
all_apart (d ∷ routes) = apart_from d routes && all_apart routes

-- A row that fits the request, with the parameters.
pub record Fits (method path : Text) (d : RouteSpec) (params : Map Text) : Type 0 where
  pub same_method : d.method ≡ method
  pub matched : match_path d.pattern path ≡ some params

apart-Fits :
    (method path : Text) (d e : RouteSpec) (m n : Map Text)
    → apart d e ≡ true
    → Fits method path d m
    → Fits method path e n
    → ⊥
apart-Fits method path d e m n h fits_d fits_e =
    let same : text_eq d.method e.method ≡ true =
      (text_eq_iff d.method e.method).1 (fits_d.same_method ∙ sym fits_e.same_method) in
    let both = match_path-meet d.pattern e.pattern path m n fits_d.matched fits_e.matched in
    ground (arith, h, same, both)

-- Every row that fits is the one that is found.
abbrev Finds : Text → Text → List RouteSpec → RouteSpec → Type 0
Finds method path routes d =
    (params : Map Text)
    → Fits method path d params
    → find_route method path routes ≡ some (d, params)

find_route-head :
    (method path : Text) (d : RouteSpec) (routes : List RouteSpec)
    → Finds method path (d ∷ routes) d
unfolding find_route
find_route-head method path d routes params fits =
    rw ((text_eq_iff d.method method).1 fits.same_method, fits.matched) refl

-- A row that does not fit is passed over.
find_route-miss :
    (method path : Text) (d : RouteSpec) (routes : List RouteSpec)
    → ((params : Map Text) → ¬ Fits method path d params)
    → find_route method path (d ∷ routes) ≡ find_route method path routes
unfolding find_route
find_route-miss method path d routes miss = elim (Bool-cases (text_eq d.method method)) [
  | inr e ↦ rw e refl
  | inl e ↦ elim (Option-cases (match_path d.pattern path)) [
    | inl f ↦ rw (e, f) refl
    | inr (params, f) ↦
        absurd
          (miss params (record { same_method = (text_eq_iff d.method method).0 e; matched = f }))
  ]
]

find_route-tail :
    (method path : Text) (d : RouteSpec) (routes rest : List RouteSpec)
    → apart_from d rest ≡ true
    → All (Finds method path routes) rest
    → All (Finds method path (d ∷ routes)) rest
unfolding find_route
find_route-tail method path d routes [] h finds = tt
find_route-tail method path d routes (e ∷ rest) h (first, finds) = (
  λ params fits.
      find_route-miss method path d routes
        (λ other fits_d. apart-Fits method path d e other params (ground (arith, h)) fits_d fits)
      ∙ first params fits,
  find_route-tail method path d routes rest (ground (arith, h)) finds,
)

find_route-All :
    (method path : Text) (routes : List RouteSpec)
    → all_apart routes ≡ true
    → All (Finds method path routes) routes
find_route-All method path [] h = tt
find_route-All method path (d ∷ routes) h = (
  find_route-head method path d routes,
  find_route-tail method path d routes routes (ground (arith, h))
      (find_route-All method path routes (ground (arith, h))),
)

table_apart : all_apart classified_routes ≡ true
unfolding classified_routes split_path parameter_name text_eq
table_apart = refl

-- The rows of the table serve different requests, so their order does not matter: every row whose method
-- is that of the request, in capitals, and whose pattern fits the path is the row that is found.
pub classify-All :
    (method path : Text)
    → All
        (λ d.
          (params : Map Text)
          → Fits (map to_upper_rune (trim_space method)) (trimmed_path path) d params
          → classify method path ≡ some (d, params))
        classified_routes
unfolding classify
classify-All method path =
    find_route-All (map to_upper_rune (trim_space method)) (trimmed_path path) classified_routes
      table_apart
