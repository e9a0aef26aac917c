-- ===== src/Service/Tests.antt =====
-- Runs of services and of their registry at fixed inputs.
use ranch.Prelude.{List, String, [], false, nat_eq, refl, some, string_eq, true, ◌∷◌, ◌≡◌}
use ranch.Prelude.Dict.{delete, get, put}
use ranch.Prelude.Maps.{IsMap}
use ranch.Model.{Request}
use ranch.Service.Core.{FabricCore, generate_json_headers}
use ranch.Service.Answers.{IsAnswer, or_else, own_headers, respond, respond_lem, with_headers}
use ranch.Service.Registry.{
  FabricService, ServiceRegistry, bridge_requested, channel_made, get_rest_bridge_enabled_service,
  get_service, handler_closed, init_called, init_wrapper, is_internal, new_service_wrapper,
  register_from, register_new, register_service, request_bridges, requests_heard,
  unregister_service,
}
use ranch.Service.Streams.{
  IsKept, RegistryEvent, registered, registry_run, registry_run_lem, registry_step, unregistered,
}

abbrev request : Request
request = record {
  id = some 3;
  destination = "";
  payload = 4;
  request_command = "ping";
  broker_destination = some (record { connection_id = "c1"; destination = "/user/queue/a" });
}

abbrev core : FabricCore
core = record { channel_name = "a"; headers = generate_json_headers }

one_header-IsMap : IsMap core.headers
unfolding get
one_header-IsMap = (refl, tt)

own-IsMap : IsMap (own_headers (with_headers 5 (("X", "1") ∷ [])))
unfolding get
own-IsMap = (refl, tt)

respond_lem_example :
    IsAnswer core request false (respond core request (with_headers 5 (("X", "1") ∷ [])))
    × (get {K = String} "X"
          (respond core request (with_headers 5 (("X", "1") ∷ []))).response.headers
        ≡ or_else (get {K = String} "X" (("X", "1") ∷ [])) (get {K = String} "X" core.headers))
respond_lem_example =
    respond_lem core request (with_headers 5 (("X", "1") ∷ [])) "X" one_header-IsMap own-IsMap

abbrev pinger : FabricService
pinger = record {
  name = 1;
  is_initializable = true;
  takes_context = false;
  bridge_config = some (6 ∷ []);
  is_ready_enabled = false;
  is_shutdown_enabled = false;
}

abbrev registry : ServiceRegistry
registry = record { services = [] }

abbrev registry_events : List RegistryEvent
registry_events =
    registered (record { init_fails = true; stream = some 7; send_fails = false }) (some pinger) "a"
    ∷ registered (record { init_fails = false; stream = some 7; send_fails = true }) (some pinger)
        "a"
    ∷ registered (record { init_fails = false; stream = some 8; send_fails = false }) (some pinger)
        "a"
    ∷ unregistered "b"
    ∷ registered (record { init_fails = false; stream = some 9; send_fails = false }) (some pinger)
        "b"
    ∷ unregistered "a"
    ∷ []

registry_run_lem_example :
    IsKept 8 registry
      (registry_run registry_events registry).0
      (registry_run registry_events registry).1
registry_run_lem_example = registry_run_lem 8 registry_events registry (tt, tt)

run_acts :
    (registry_run registry_events registry).1
    ≡ channel_made "a"
      ∷ init_called 1
      ∷ channel_made "a"
      ∷ init_called 1
      ∷ requests_heard "a" 7
      ∷ bridge_requested "a" false (6 ∷ [])
      ∷ channel_made "b"
      ∷ init_called 1
      ∷ requests_heard "b" 9
      ∷ bridge_requested "b" false (6 ∷ [])
      ∷ handler_closed 7
      ∷ []
unfolding registry_run registry_step register_service register_new register_from init_wrapper
    new_service_wrapper request_bridges is_internal get_rest_bridge_enabled_service get_service
    unregister_service get put delete
run_acts = refl
