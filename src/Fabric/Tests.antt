-- ===== src/Fabric/Tests.antt =====
-- Runs of the endpoint and its router at fixed inputs.
use Prim.Native.String
use ranch.Prelude.{
  List, [], count_if, false, nat_eq, none, refl, some, string_eq, true, ◌+◌, ◌∷◌, ◌≡◌,
}
use ranch.Prelude.Dict.{delete, get, put}
use ranch.Model.{Request}
use ranch.Service.Core.{FabricCore}
use ranch.Service.Answers.{failure, respond}
use ranch.Fabric.{
  ChannelMapping, Endpoint, EndpointConfig, add_subscription, add_subscription_to, close_handler,
  closed_handler, created, destroyed, detach_subscription_forwarder, drop_sub,
  ensure_trailing_slash, get_channel_name_from_subscription, is_protected_destination, listening,
  new_fabric_endpoint, new_forwarder, remove_subscription, remove_subscription_from,
  send_message_to_client, strip_prefix, subscribe_event, unsubscribe_event,
}
use ranch.Fabric.Forwarders.{
  FabricEvent, IsEndpoint, fabric_run, fabric_step, forwarders, is_closed_handler, is_listening,
  left, route_registered, subscribed,
}
use ranch.Fabric.Balance.{forwarders_lem}
use ranch.Fabric.Replies.{asked, bridge_message, forward_message, private_reply, response_pointer}
use ranch.Fabric.Router.{
  RouteSpec, close_route, close_router, close_stream, has_route, new_message_router, publish_route,
  response_dir,
}
use ranch.Fabric.Routes.{close-publish_route, taken_over}
use ranch.Stomp.Config.{has_slash_suffix}
use ranch.Fabric.Tracking.{is_current, is_streaming}
use ranch.Fabric.Shutting.{closes, live}
use ranch.Fabric.Lifetime.{
  RouterEvent, given_all, handle_closed, published, router_run, router_run_lem, router_step,
}

abbrev config : EndpointConfig
config = record {
  topic_prefix = "/topic/";
  app_request_prefix = "/pub/";
  app_request_queue_prefix = "/pub/queue/";
  user_queue_prefix = "/user/queue/";
}

abbrev fabric_events : List FabricEvent
fabric_events =
    subscribed (λ c. false) "c1" "s1" "/topic/a" (some 7) none
    ∷ subscribed (λ c. false) "c2" "s1" "/topic/b" none (some 8)
    ∷ subscribed (λ c. false) "c2" "s2" "/topic/_ranchInternal/x" (some 9) none
    ∷ route_registered "a"
    ∷ left "c2" "s1" "/topic/b"
    ∷ left "c2" "s1" "/topic/b"
    ∷ []

forwarders_lem_example :
    (count_if (is_listening 11) (fabric_run fabric_events (new_fabric_endpoint config)).1
      ≡ count_if (is_closed_handler 11) (fabric_run fabric_events (new_fabric_endpoint config)).1
        + forwarders 11 (fabric_run fabric_events (new_fabric_endpoint config)).0)
    × IsEndpoint (fabric_run fabric_events (new_fabric_endpoint config)).0
forwarders_lem_example = forwarders_lem 11 fabric_events config

run_closes :
    (fabric_run fabric_events (new_fabric_endpoint config)).1
    ≡ listening "a" 7
      ∷ subscribe_event "a"
      ∷ created "b"
      ∷ listening "b" 8
      ∷ subscribe_event "b"
      ∷ closed_handler 7
      ∷ closed_handler 8
      ∷ destroyed "b"
      ∷ unsubscribe_event "b"
      ∷ []
unfolding fabric_run fabric_step new_fabric_endpoint ensure_trailing_slash has_slash_suffix
    add_subscription add_subscription_to new_forwarder remove_subscription remove_subscription_from
    drop_sub detach_subscription_forwarder get_channel_name_from_subscription strip_prefix
    is_protected_destination get put delete
run_closes = refl

abbrev request : Request
request = record {
  id = some 3;
  destination = "";
  payload = 4;
  request_command = "ping";
  broker_destination = none;
}

abbrev core : FabricCore
core = record { channel_name = "a"; headers = [] }

topics_differ : strip_prefix config.topic_prefix (String.◌++◌ config.user_queue_prefix "a") ≡ none
unfolding strip_prefix
topics_differ = refl

private_reply_example :
    (bridge_message config (String.◌++◌ config.app_request_queue_prefix "a") (some request) "c1"
      ≡ some ("a", asked config "a" "c1" request))
    × (forward_message (some 5) "/topic/a" true (
          response_pointer
            (some (respond core (asked config "a" "c1" request) (failure 500 "down")).response))
        ≡ send_message_to_client "c1" (String.◌++◌ config.user_queue_prefix "a") 5 ∷ [])
    × (get_channel_name_from_subscription config (String.◌++◌ config.user_queue_prefix "a")
        ≡ some "a")
private_reply_example =
    private_reply config "a" "c1" request core (failure 500 "down") 5 "/topic/a" refl refl
      topics_differ

abbrev spec : RouteSpec
spec = record {
  bus_channel = "a";
  default_dest = "/topic/a";
  allow_override = true;
  direction = response_dir;
}

abbrev subscribers : ChannelMapping
subscribers = record { subs = ("c1#s1", tt) ∷ []; handler = some 7; auto_created = false }

abbrev endpoint : Endpoint
endpoint = record { config = config; chan_mappings = ("a", subscribers) ∷ [] }

no_route : get spec.bus_channel new_message_router.routes ≡ none
unfolding get
no_route = refl

mapped : get spec.bus_channel endpoint.chan_mappings ≡ some subscribers
unfolding get
mapped = refl

close-publish_route_example :
    let published = publish_route 1 spec 9 new_message_router endpoint in
    let closed_again = close_route 1 published.0.0 in
    (published.1 ≡ close_handler (some 7))
    × (closed_again.1 ≡ closed_handler 9 ∷ [])
    × (has_route closed_again.0 "a" ≡ false)
    × (get "a" published.0.1.chan_mappings ≡ some (taken_over subscribers))
    × ((add_subscription_to
          (has_route closed_again.0 "a")
          (some 10)
          none
          "a"
          "c2#s1"
          published.0.1).1
        ≡ subscribe_event "a" ∷ [])
close-publish_route_example =
    close-publish_route 1 spec 9 new_message_router subscribers endpoint (some 10) none "c2#s1" refl
      no_route mapped

abbrev router_events : List RouterEvent
router_events =
    published 1 spec 9 endpoint
    ∷ published 2 spec 10 endpoint
    ∷ handle_closed 1
    ∷ published 3 spec 11 endpoint
    ∷ []

router_run_lem_example :
    (is_streaming 3 (router_run router_events new_message_router).0
      ≡ is_current 3 (router_run router_events new_message_router).0)
    × (closes 9 (router_run router_events new_message_router).1
          + live 9 (router_run router_events new_message_router).0
        ≡ given_all 9 router_events new_message_router)
    × ((close_router (router_run router_events new_message_router).0).0.routes ≡ [])
    × (is_streaming 3 (close_router (router_run router_events new_message_router).0).0 ≡ false)
    × (closes 9 (close_router (router_run router_events new_message_router).0).1
          + live 9 (close_router (router_run router_events new_message_router).0).0
        ≡ live 9 (router_run router_events new_message_router).0)
router_run_lem_example = router_run_lem router_events 3 9

one_streams : is_streaming 3 (router_run router_events new_message_router).0 ≡ true
unfolding router_step publish_route close_route close_stream detach_subscription_forwarder get put
    delete
one_streams = refl

two_refused : is_streaming 2 (router_run router_events new_message_router).0 ≡ false
unfolding router_step publish_route close_route close_stream detach_subscription_forwarder get put
    delete
two_refused = refl
