-- ===== src/Tests/Gateway.antt =====
-- A request that runs on a worker, and the route that it came by.
use llama_rack.Base.{◌≡◌, ◌≢◌, refl, true, false, none, some, [], ◌∷◌, ◌⊎◌, arith, All, map}
use llama_rack.Base.Text.{Text, codes, trim_space}
use llama_rack.Base.Maps.{Map, lookup}
use llama_rack.Gateway.Active.{
  ActiveRequest, Pointer, ActiveRegistry, write, register, set_upstream_id, new_active_registry,
  cancel_by_upstream_authorized, remove, is_removed,
}
use llama_rack.Gateway.Active.Invariant.{IsConsistent}
use llama_rack.Gateway.Active.Cancel.{MayCancel, IsCancelled, cancel-Outcome}
use llama_rack.Gateway.Active.Calls.{
  IsNew, Reach, start, next, registers, names, authorizes, Once, Reach-IsConsistent, Reach-Once,
  remove-gone,
}
use llama_rack.Gateway.Routes.{classify, to_upper_rune, trimmed_path}
use llama_rack.Gateway.Routes.Table.{classified_routes}
use llama_rack.Gateway.Routes.Unique.{Fits, classify-All}

abbrev request : ActiveRequest
request = record {
  manager_request_id = codes "m1";
  instance_id = codes "i1";
  owner_kind = codes "api_key";
  owner_id = codes "k1";
  target = [];
  has_cancel = true;
  upstream_id = [];
  endpoint = codes "/v1/responses";
  started_at = 5;
  model = codes "qwen";
  cancelled = false;
}

abbrev empty_heap : Pointer → ActiveRequest
empty_heap r = record request { manager_request_id = [] }

abbrev registered : ActiveRegistry
registered =
    register 1 (record (new_active_registry empty_heap) { heap = write 1 request empty_heap })

abbrev named : ActiveRegistry
named = set_upstream_id (codes "m1") (codes "resp_1") registered

abbrev cancelled_once : ActiveRegistry
cancelled_once = (cancel_by_upstream_authorized (codes "resp_1") none none named).0

nowhere : (k : Text) → lookup {V = Pointer} k [] ≢ some 1
unfolding lookup
nowhere k h = ground (arith, h)

request-IsNew : IsNew 1 request (new_active_registry empty_heap)
unfolding lookup
request-IsNew = record {
  unused = tt;
  unmanaged = λ m h. nowhere m h;
  unnamed = λ u h. nowhere u h;
  id = refl;
  running = refl;
}

run : Reach empty_heap named
run = next (next start (registers 1 request request-IsNew)) (names (codes "m1") (codes "resp_1"))

Reach-IsConsistent_example : IsConsistent named
Reach-IsConsistent_example = Reach-IsConsistent run

Reach-Once_example : Once cancelled_once cancelled_once.cancels
Reach-Once_example = Reach-Once (next run (authorizes (codes "resp_1") none none))

remove-gone_example :
    (is_removed (codes "m1") (remove (codes "m1") named) ≡ true)
    × ((u : Text) → lookup u (remove (codes "m1") named).by_upstream ≢ some 1)
unfolding lookup set_upstream_id register llama_rack.Base.Maps.put llama_rack.Base.Text.text_eq
remove-gone_example = remove-gone (codes "m1") 1 run refl refl

cancel-Outcome_example :
    let (after, result) =
      cancel_by_upstream_authorized (codes "resp_1") none (some (λ i. false)) named in
    ((after ≡ named)
      × (result.cancelled ≡ false)
      × ((r : Pointer) → ¬ MayCancel (codes "resp_1") none (some (λ i. false)) named r))
    ⊎ ((r : Pointer) × MayCancel (codes "resp_1") none (some (λ i. false)) named r
        × IsCancelled r named after
        × (result.cancelled ≡ true))
cancel-Outcome_example = cancel-Outcome (codes "resp_1") none (some (λ i. false)) named

classify-All_example :
    All
      (λ d.
        (params : Map Text)
        → Fits
            (map to_upper_rune (trim_space (codes "get")))
            (trimmed_path (codes "/v1/models/qwen"))
            d
            params
        → classify (codes "get") (codes "/v1/models/qwen") ≡ some (d, params))
      classified_routes
classify-All_example = classify-All (codes "get") (codes "/v1/models/qwen")

-- A request for one model.
found :
    elim (classify (codes "get ") (codes "/v1/models/qwen")) [
      | none ↦ []
      | some (d, params) ↦ params
    ]
    ≡ (codes "model", codes "qwen") ∷ []
unfolding classify llama_rack.Base.Text.text_eq trim_space llama_rack.Gateway.Routes.match_path
    llama_rack.Base.Maps.put
found = refl
