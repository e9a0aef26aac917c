-- ===== src/Plank/Bridges.antt =====
-- plank/pkg/server/rest_bridge_registry.go: the HTTP endpoints that are bridged to services. A handler,
-- a builder of requests and a stream are numbers; what ListenStream gives, what buildHandler makes and
-- the address of a new route are arguments.
use Prim.Native.String
use ranch.Prelude.{
  Bool, List, Option, String, [], false, if◌then◌else◌, nat_eq, none, some, string_eq, true, ℕ,
  ◌++◌, ◌∷◌,
}
use ranch.Prelude.Dict.{Dict, delete, get, put}
use ranch.Plank.Router.{Router, add_route, clone_excluding, set_handler, set_methods, set_name}

-- RESTBridgeConfig
pub record BridgeConfig : Type 0 where
  pub service_channel : String
  pub uri : String
  pub method : String
  pub allow_head : Bool
  pub allow_options : Bool
  pub request_builder : ℕ

pub data MatchMode : Type 0 where
  http_bridge_exact http_bridge_prefix : MatchMode

pub record BridgeRegistry : Type 0 where
  pub endpoint_handler_map : Dict String ℕ
  pub service_chan_to_bridge_endpoints : Dict String (List String)
  pub message_bridge_map : Dict String ℕ
  pub router : Router

unfoldable pub bridge_endpoint_handler_key : BridgeConfig → MatchMode → String
bridge_endpoint_handler_key config http_bridge_prefix = String.◌++◌ config.uri "-*"
bridge_endpoint_handler_key config http_bridge_exact =
    String.◌++◌ config.uri (String.◌++◌ "-" config.method)

-- The registry, and the stream of the bridge; none where there is none.
unfoldable pub ensure_message_bridge :
    Option ℕ → String → BridgeRegistry → BridgeRegistry × Option ℕ
ensure_message_bridge given channel r = elim (get channel r.message_bridge_map) [
  | some bridge ↦ (r, some bridge)
  | none ↦ elim given [
    | none ↦ (r, none)
    | some h ↦ (record r { message_bridge_map = put channel h r.message_bridge_map }, some h)
  ]
]

abbrev permitted_methods : BridgeConfig → List String
permitted_methods config =
    config.method ∷ (if config.allow_head then "HEAD" ∷ [] else [])
    ++ (if config.allow_options then "OPTIONS" ∷ [] else [])

-- `id` is the address of the new route.
unfoldable pub register_http_bridge_route :
    ℕ → BridgeConfig → MatchMode → String → ℕ → Router → Router
register_http_bridge_route id config http_bridge_prefix key handler r =
    set_handler id (some handler) (set_name id key (add_route id config.uri true r))
register_http_bridge_route id config http_bridge_exact key handler r =
    set_handler id (some handler) (
      set_name id (String.◌++◌ config.uri (String.◌++◌ "-" config.method))
        (set_methods id (permitted_methods config) (add_route id config.uri false r)))

abbrev pub endpoints_of : Option (List String) → List String
endpoints_of none = []
endpoints_of (some keys) = keys

-- A bridge that has a stream: its handler, its entry and its route.
unfoldable pub add_bridge :
    ℕ → BridgeConfig → MatchMode → String → ℕ → BridgeRegistry → BridgeRegistry
add_bridge id config mode key handler r = record r {
  endpoint_handler_map = put key handler r.endpoint_handler_map;
  service_chan_to_bridge_endpoints =
      put config.service_channel
        (endpoints_of (get config.service_channel r.service_chan_to_bridge_endpoints) ++ key ∷ [])
        r.service_chan_to_bridge_endpoints;
  router = register_http_bridge_route id config mode key handler r.router;
}

abbrev pub with_endpoints : String → BridgeRegistry → BridgeRegistry
with_endpoints channel r = elim (get channel r.service_chan_to_bridge_endpoints) [
  | some keys ↦ r
  | none ↦ record r {
    service_chan_to_bridge_endpoints = put channel [] r.service_chan_to_bridge_endpoints;
  }
]

unfoldable pub set_bridge :
    Option ℕ → (String → ℕ → ℕ → ℕ) → ℕ → BridgeConfig → MatchMode → BridgeRegistry → BridgeRegistry
set_bridge given build_handler id config mode r =
    let key = bridge_endpoint_handler_key config mode in
    let ensured =
      ensure_message_bridge given config.service_channel
        (with_endpoints config.service_channel r) in
    elim (get key r.endpoint_handler_map) [
      | some old ↦ r
      | none ↦ elim ensured.1 [
        | none ↦ ensured.0
        | some bridge ↦
            add_bridge id config mode key
              (build_handler config.service_channel config.request_builder bridge) ensured.0
      ]
    ]

unfoldable pub delete_all : List String → Dict String ℕ → Dict String ℕ
delete_all [] m = m
delete_all (key ∷ keys) m = delete_all keys (delete key m)

abbrev pub key_set : List String → Dict String (Unit {0})
key_set [] = []
key_set (key ∷ keys) = put key tt (key_set keys)

-- The registry, and the router without the routes of the service
unfoldable pub clear_for_service : String → BridgeRegistry → BridgeRegistry × Router
clear_for_service channel r =
    let keys = endpoints_of (get channel r.service_chan_to_bridge_endpoints) in
    (
      record r {
        service_chan_to_bridge_endpoints = put channel [] r.service_chan_to_bridge_endpoints;
        endpoint_handler_map = delete_all keys r.endpoint_handler_map;
      },
      clone_excluding (key_set keys) r.router,
    )

unfoldable pub set_router : Router → BridgeRegistry → BridgeRegistry
set_router router r = record r { router = router }
