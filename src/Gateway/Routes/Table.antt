-- ===== src/Gateway/Routes/Table.antt =====
-- backend/internal/gateway/routes.go: the table of routes.
use llama_rack.Base.{Bool, true, false, List, [], ◌∷◌}
use Prim.Native.String.{String}
use llama_rack.Base.Text.{Text, codes}

pub data BodyKind : Type 0 where
  body_none body_json body_multipart : BodyKind

pub data MetricKind : Type 0 where
  metric_none metric_prompt_only metric_generation : MetricKind

pub data RouteKind : Type 0 where
  route_unknown : RouteKind
  route_list_models : RouteKind
  route_get_model : RouteKind
  route_json_proxy : RouteKind
  route_multipart_proxy : RouteKind
  route_get_response : RouteKind
  route_delete_response : RouteKind
  route_get_input_items : RouteKind
  route_cancel_response : RouteKind
  route_chat_control : RouteKind
  route_slots_proxy : RouteKind

pub record RouteSpec : Type 0 where
  pub method : Text
  pub pattern : Text
  pub kind : RouteKind
  pub body : BodyKind
  pub needs_model : Bool
  pub needs_acquire : Bool
  pub manager_local : Bool
  pub streaming_possible : Bool
  pub call_type : Text
  pub metrics : MetricKind
  pub map_not_implemented : Bool
  pub capture_response_id : Bool
  pub capture_completion_id : Bool

abbrev pub method_get : Text
method_get = codes "GET"

abbrev pub method_post : Text
method_post = codes "POST"

abbrev pub method_delete : Text
method_delete = codes "DELETE"

-- A row whose other fields are not set.
abbrev route : Text → String → RouteKind → BodyKind → RouteSpec
route method pattern kind body = record {
  method = method;
  pattern = codes pattern;
  kind = kind;
  body = body;
  needs_model = false;
  needs_acquire = false;
  manager_local = false;
  streaming_possible = false;
  call_type = [];
  metrics = metric_none;
  map_not_implemented = false;
  capture_response_id = false;
  capture_completion_id = false;
}

unfoldable pub classified_routes : List RouteSpec
classified_routes =
    record (route method_get "/v1/models" route_list_models body_none) { manager_local = true }
    ∷ record (route method_get "/v1/models/{model}" route_get_model body_none) {
      manager_local = true;
    }
    ∷ record (route method_post "/v1/chat/completions/input_tokens" route_json_proxy body_json) {
      needs_model = true;
      needs_acquire = true;
      call_type = codes "chat_input_tokens";
      metrics = metric_prompt_only;
      map_not_implemented = true;
    }
    ∷ record (route method_post "/v1/chat/completions/control" route_chat_control body_json) {
      call_type = codes "chat_control";
    }
    ∷ record (route method_post "/v1/chat/completions" route_json_proxy body_json) {
      needs_model = true;
      needs_acquire = true;
      streaming_possible = true;
      call_type = codes "chat_completion";
      metrics = metric_generation;
      capture_completion_id = true;
    }
    ∷ record (route method_post "/v1/completions" route_json_proxy body_json) {
      needs_model = true;
      needs_acquire = true;
      streaming_possible = true;
      call_type = codes "completion";
      metrics = metric_generation;
    }
    ∷ record (route method_post "/v1/responses/input_tokens" route_json_proxy body_json) {
      needs_model = true;
      needs_acquire = true;
      call_type = codes "response_input_tokens";
      metrics = metric_prompt_only;
      map_not_implemented = true;
    }
    ∷ record (route method_get "/v1/responses/{response_id}/input_items" route_get_input_items
        body_none) { manager_local = true; call_type = codes "response_input_items" }
    ∷ record (route method_post "/v1/responses/{response_id}/cancel" route_cancel_response
        body_none) { manager_local = true; call_type = codes "response_cancel" }
    ∷ record (route method_get "/v1/responses/{response_id}" route_get_response body_none) {
      manager_local = true;
      call_type = codes "response_retrieve";
    }
    ∷ record (route method_delete "/v1/responses/{response_id}" route_delete_response body_none) {
      manager_local = true;
      call_type = codes "response_delete";
    }
    ∷ record (route method_post "/v1/responses" route_json_proxy body_json) {
      needs_model = true;
      needs_acquire = true;
      streaming_possible = true;
      call_type = codes "response";
      metrics = metric_generation;
      capture_response_id = true;
    }
    ∷ record (route method_post "/v1/embeddings" route_json_proxy body_json) {
      needs_model = true;
      needs_acquire = true;
      call_type = codes "embedding";
      metrics = metric_prompt_only;
    }
    ∷ record (route method_post "/v1/rerank" route_json_proxy body_json) {
      needs_model = true;
      needs_acquire = true;
      call_type = codes "rerank";
      metrics = metric_prompt_only;
    }
    ∷ record (route method_post "/v1/reranking" route_json_proxy body_json) {
      needs_model = true;
      needs_acquire = true;
      call_type = codes "rerank";
      metrics = metric_prompt_only;
    }
    ∷ record (route method_post "/v1/audio/transcriptions" route_multipart_proxy body_multipart) {
      needs_model = true;
      needs_acquire = true;
      call_type = codes "transcription";
    }
    ∷ record (route method_get "/v1/slots" route_slots_proxy body_none) {
      call_type = codes "slots_list";
      map_not_implemented = true;
    }
    ∷ record (route method_post "/v1/slots/{slot_id}" route_slots_proxy body_json) {
      call_type = codes "slots_action";
      map_not_implemented = true;
    }
    ∷ []
