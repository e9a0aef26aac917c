-- ===== src/Plank/Tests.antt =====
-- Runs of the HTTP router and of its middleware at fixed inputs.
use ranch.Prelude.{
  List, Option, String, [], false, nat_eq, none, refl, some, string_eq, true, ◌*◌, ◌+◌, ◌∷◌, ◌≡◌,
}
use ranch.Prelude.Dict.{delete, get, put}
use ranch.Plank.Patterns.{
  before_colon, dispatch_patterns, exact_mux_pattern, join_path, normalize_path, path_patterns,
  path_variable_name, serve_mux_path_template, split_path, template_segment, without_brace,
}
use ranch.Plank.Router.{
  Route, Router, build_middleware_chain, build_mux, new_router, serve_from, serve_http, set_handler,
}
use ranch.Plank.Mux.{
  RouterOp, handler_assigned, methods_restricted, route_added, route_named, router_run,
  serve-router_run, served, used,
}
use ranch.Plank.Middleware.{
  MiddlewareManager, done, extract_uri_verb, has_star_suffix, manager_chain, remove_middleware,
}
use ranch.Plank.Chains.{build_middleware_chain_lem, chain}
use ranch.Plank.Restore.{remove-set_new_middleware, set_all}
use ranch.Stomp.Config.{has_slash_suffix}
use ranch.Fabric.{strip_prefix}
use ranch.Plank.Bridges.{
  BridgeConfig, BridgeRegistry, add_bridge, bridge_endpoint_handler_key, clear_for_service,
  delete_all, ensure_message_bridge, http_bridge_exact, http_bridge_prefix, set_bridge,
}
use ranch.Plank.Endpoints.{
  BridgeEvent, IsBridged, bridge_run, bridge_run-IsBridged, bridge_set, bridge_step,
  service_cleared,
}

variables : path_patterns "api/{id:[0-9]+}/x" false ≡ "/api/{id}/x" ∷ []
unfolding path_patterns serve_mux_path_template normalize_path strip_prefix split_path
    template_segment path_variable_name before_colon without_brace join_path exact_mux_pattern
    has_slash_suffix
variables = refl

subtree : dispatch_patterns "/api" true ("GET" ∷ []) ≡ "GET /api" ∷ "GET /api/" ∷ []
unfolding dispatch_patterns path_patterns serve_mux_path_template normalize_path strip_prefix
    split_path template_segment path_variable_name before_colon without_brace join_path
    exact_mux_pattern has_slash_suffix
subtree = refl

abbrev choose_first : List String → String → String → Option String
choose_first [] request_method path = none
choose_first (pattern ∷ patterns) request_method path = some pattern

abbrev router_ops : List RouterOp
router_ops =
    served choose_first "GET" "/a"
    ∷ route_added 1 "a" false
    ∷ handler_assigned 1 (some 5)
    ∷ used ((λ h. h + 1) ∷ [])
    ∷ served choose_first "GET" "/a"
    ∷ route_named 1 "/a-GET"
    ∷ methods_restricted 1 ("POST" ∷ [])
    ∷ []

abbrev busy_router : Router
busy_router = router_run router_ops new_router

serve-router_run_example :
    (serve_http choose_first "GET" "/a" busy_router).1
    ≡ serve_from choose_first "GET" "/a"
        (build_mux busy_router)
        busy_router.not_found_handler
        busy_router.method_not_allowed_handler
serve-router_run_example = serve-router_run router_ops choose_first "GET" "/a"

build_middleware_chain_lem_example :
    (build_middleware_chain ((λ h. h + 1) ∷ (λ h. h * 2) ∷ []) 3
      ≡ chain ((λ h. h + 1) ∷ (λ h. h * 2) ∷ []) 3)
    × (manager_chain ((λ h. h + 1) ∷ (λ h. h * 2) ∷ []) 3
        ≡ some (chain ((λ h. h + 1) ∷ (λ h. h * 2) ∷ []) 3))
    × (build_middleware_chain [] 3 ≡ 3)
    × (manager_chain [] 3 ≡ none)
build_middleware_chain_lem_example = build_middleware_chain_lem (λ h. h + 1) ((λ h. h * 2) ∷ []) 3

abbrev route : Route
route = record {
  name = "/a-GET";
  path = "/a";
  prefix = false;
  methods = "GET" ∷ [];
  handler = some 5;
}

abbrev router : Router
router = record new_router { routes = (1, route) ∷ [] }

abbrev manager : MiddlewareManager
manager = record { endpoint_handler_map = ("/a-GET", 5) ∷ []; original_handlers_map = [] }

split : extract_uri_verb "/a-GET" ≡ some ("/a", "GET")
unfolding extract_uri_verb
split = refl

plain : has_star_suffix "/a-GET" ≡ false
unfolding has_star_suffix
plain = refl

known : get 1 router.routes ≡ some route
unfolding get
known = refl

there : get "/a-GET" manager.endpoint_handler_map ≡ some 5
unfolding get
there = refl

free : get "/a-GET" manager.original_handlers_map ≡ none
unfolding get
free = refl

remove-set_new_middleware_example :
    let state = set_all 1 (((λ h. h + 1), []) ∷ ((λ h. h * 2), []) ∷ []) (manager, router) in
    let removed = remove_middleware (some 1) state.0 state.1 in
    (removed.1 ≡ done)
    × (get "/a-GET" removed.0.0.endpoint_handler_map ≡ some 5)
    × (removed.0.1 ≡ set_handler 1 (some 5) state.1)
remove-set_new_middleware_example =
    remove-set_new_middleware 1 "/a-GET" ("/a", "GET") route 5 (λ h. h + 1) []
      (((λ h. h * 2), []) ∷ []) manager router split plain known refl there free

abbrev bridge : BridgeConfig
bridge = record {
  service_channel = "a";
  uri = "/a";
  method = "GET";
  allow_head = true;
  allow_options = false;
  request_builder = 1;
}

abbrev bridges : BridgeRegistry
bridges = record {
  endpoint_handler_map = [];
  service_chan_to_bridge_endpoints = [];
  message_bridge_map = [];
  router = new_router;
}

abbrev bridge_events : List BridgeEvent
bridge_events =
    bridge_set none (λ channel builder stream. stream) 1 bridge http_bridge_exact
    ∷ bridge_set (some 7) (λ channel builder stream. stream) 2 bridge http_bridge_exact
    ∷ bridge_set (some 7) (λ channel builder stream. stream) 3 bridge http_bridge_exact
    ∷ bridge_set (some 8) (λ channel builder stream. stream) 4 bridge http_bridge_prefix
    ∷ service_cleared "a"
    ∷ bridge_set (some 9) (λ channel builder stream. stream) 5 bridge http_bridge_prefix
    ∷ []

bridges-IsBridged : IsBridged bridges
unfolding get
bridges-IsBridged key = refl

bridge_run-IsBridged_example : IsBridged (bridge_run bridge_events bridges)
bridge_run-IsBridged_example = bridge_run-IsBridged bridge_events bridges bridges-IsBridged

one_bridge_left : (bridge_run bridge_events bridges).endpoint_handler_map ≡ ("/a-*", 7) ∷ []
unfolding bridge_step set_bridge ensure_message_bridge add_bridge bridge_endpoint_handler_key
    clear_for_service delete_all get put delete
one_bridge_left = refl
