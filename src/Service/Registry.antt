-- ===== src/Service/Registry.antt =====
-- service/service_registry.go, service_lifecycle_manager.go: the services by the channel that each
-- answers on. What Init, ListenRequestStream and SendResponseMessage answer is an argument; none of
-- them is the error.
use ranch.Prelude.{
  Bool, List, Option, String, [], false, if◌then◌else◌, nat_eq, none, some, string_eq, true, ℕ,
  ◌&&◌, ◌++◌, ◌==◌, ◌∷◌,
}
use ranch.Prelude.Dict.{Dict, delete, get, put}
use ranch.Model.{Request}
use ranch.Service.Core.{FabricCore}

-- What a value implements besides FabricService; a bridge's configuration is a number.
pub record FabricService : Type 0 where
  pub name : ℕ
  pub is_initializable : Bool
  pub takes_context : Bool
  pub bridge_config : Option (List ℕ)
  pub is_ready_enabled : Bool
  pub is_shutdown_enabled : Bool

-- fabricServiceWrapper
pub record ServiceWrapper : Type 0 where
  pub service : FabricService
  pub fabric_core : FabricCore
  pub request_msg_handler : Option ℕ

pub record ServiceRegistry : Type 0 where
  pub services : Dict String ServiceWrapper

pub data RegistryError : Type 0 where
  nil_service : RegistryError
  name_used not_found : String → RegistryError
  init_failed listen_failed send_failed : RegistryError

pub data RegistryAct : Type 0 where
  channel_made : String → RegistryAct
  init_called : ℕ → RegistryAct
  requests_heard : String → ℕ → RegistryAct
  handler_closed : ℕ → RegistryAct
  bridge_requested : String → Bool → List ℕ → RegistryAct

-- The answers of the calls that registration makes: whether Init has an error, the handler of
-- ListenRequestStream, and whether SendResponseMessage has an error.
pub record Answers : Type 0 where
  pub init_fails : Bool
  pub stream : Option ℕ
  pub send_fails : Bool

unfoldable pub is_internal : String → Bool
is_internal name = name == "fabric-rest"

unfoldable pub new_service_wrapper : FabricService → String → ServiceWrapper
new_service_wrapper service channel = record {
  service = service;
  fabric_core = record { channel_name = channel; headers = [] };
  request_msg_handler = none;
}

abbrev pub init_calls : FabricService → List RegistryAct
init_calls service = if service.is_initializable then init_called service.name ∷ [] else []

-- fabricServiceWrapper.init
unfoldable pub init_wrapper :
    Answers → ServiceWrapper → ServiceWrapper × List RegistryAct × Option RegistryError
init_wrapper answers sw =
    let channel = sw.fabric_core.channel_name in
    let called = channel_made channel ∷ init_calls sw.service in
    if sw.service.is_initializable && answers.init_fails
    then (sw, called, some init_failed)
    else elim answers.stream [
      | none ↦ (sw, called, some listen_failed)
      | some h ↦ (
        record sw { request_msg_handler = some h },
        called ++ requests_heard channel h ∷ [],
        none,
      )
    ]

unfoldable pub get_service : String → ServiceRegistry → Option FabricService
get_service channel r = elim (get channel r.services) [ none ↦ none | some sw ↦ some sw.service ]

-- GetRESTBridgeEnabledService, with the configuration of the service
unfoldable pub get_rest_bridge_enabled_service : String → ServiceRegistry → Option (List ℕ)
get_rest_bridge_enabled_service channel r = elim (get_service channel r) [
  | none ↦ none
  | some service ↦ service.bridge_config
]

unfoldable pub get_on_ready_capable_service : String → ServiceRegistry → Option FabricService
get_on_ready_capable_service channel r = elim (get_service channel r) [
  | none ↦ none
  | some service ↦ if service.is_ready_enabled then some service else none
]

unfoldable pub get_on_server_shutdown_service : String → ServiceRegistry → Option FabricService
get_on_server_shutdown_service channel r = elim (get_service channel r) [
  | none ↦ none
  | some service ↦ if service.is_shutdown_enabled then some service else none
]

-- OverrideRESTBridgeConfig
unfoldable pub override_rest_bridge_config :
    Bool → String → List ℕ → ServiceRegistry → List RegistryAct × Option RegistryError
override_rest_bridge_config send_fails channel config r = elim (get_service channel r) [
  | none ↦ ([], some (not_found channel))
  | some service ↦
      (bridge_requested channel true config ∷ [], if send_fails then some send_failed else none)
]

-- The bridges of a service that is registered are requested unless the service is internal.
unfoldable pub request_bridges :
    Bool → String → ServiceRegistry → List RegistryAct × Option RegistryError
request_bridges send_fails channel r =
    if is_internal channel then ([], none) else elim (get_rest_bridge_enabled_service channel r) [
      | none ↦ ([], none)
      | some config ↦ (
        bridge_requested channel false config ∷ [],
        if send_fails then some send_failed else none,
      )
    ]

abbrev pub with_service : String → ServiceWrapper → ServiceRegistry → ServiceRegistry
with_service channel sw r = record r { services = put channel sw r.services }

-- The end of registration, from what init gives.
unfoldable pub register_from :
    Bool
    → String
    → ServiceRegistry
    → ServiceWrapper × List RegistryAct × Option RegistryError
    → ServiceRegistry × List RegistryAct × Option RegistryError
register_from send_fails channel r (sw, acts, some e) = (r, acts, some e)
register_from send_fails channel r (sw, acts, none) =
    let bridges = request_bridges send_fails channel (with_service channel sw r) in
    (with_service channel sw r, acts ++ bridges.0, bridges.1)

unfoldable pub register_new :
    Answers
    → FabricService
    → String
    → ServiceRegistry
    → ServiceRegistry × List RegistryAct × Option RegistryError
register_new answers service channel r =
    register_from answers.send_fails channel r
      (init_wrapper answers (new_service_wrapper service channel))

unfoldable pub register_service :
    Answers
    → Option FabricService
    → String
    → ServiceRegistry
    → ServiceRegistry × List RegistryAct × Option RegistryError
register_service answers none channel r = (r, [], some nil_service)
register_service answers (some service) channel r = elim (get channel r.services) [
  | some used ↦ (r, [], some (name_used channel))
  | none ↦ register_new answers service channel r
]

abbrev pub close_stream : Option ℕ → List RegistryAct
close_stream none = []
close_stream (some h) = handler_closed h ∷ []

-- fabricServiceWrapper.unregister
abbrev pub unregister : ServiceWrapper → List RegistryAct
unregister sw = close_stream sw.request_msg_handler

unfoldable pub unregister_service :
    String → ServiceRegistry → ServiceRegistry × List RegistryAct × Option RegistryError
unregister_service channel r = elim (get channel r.services) [
  | none ↦ (r, [], some (not_found channel))
  | some sw ↦ (record r { services = delete channel r.services }, unregister sw, none)
]

abbrev public_names : Dict String ServiceWrapper → List String
public_names [] = []
public_names ((name, sw) ∷ rest) =
    let others = public_names rest in if is_internal name then others else name ∷ others

-- in the order of the map
unfoldable pub get_all_service_channels : ServiceRegistry → List String
get_all_service_channels r = public_names r.services

-- The payload of a message on the channel of a service.
pub data RequestPayload : Type 0 where
  by_pointer by_value : Request → RequestPayload
  no_request : RequestPayload

abbrev addressed : Option ℕ → Request → Request
addressed none request = request
addressed (some id) request = record request { id = some id }

-- The request that the service is called with, and whether with the context.
unfoldable pub handle_request_message :
    ServiceWrapper → RequestPayload → Option ℕ → Option (Bool × Request)
handle_request_message sw (by_pointer request) destination_id =
    some (sw.service.takes_context, addressed destination_id request)
handle_request_message sw (by_value request) destination_id =
    some (sw.service.takes_context, addressed destination_id request)
handle_request_message sw no_request destination_id = none
