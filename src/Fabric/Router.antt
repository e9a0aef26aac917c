-- ===== src/Fabric/Router.antt =====
-- transport/fabric/router.go: routes from channels of the bus to destinations, made and closed by the
-- application. A handle is known by a number; what ListenStream and ListenRequestStream give is an argument.
use Prim.Native.String
use ranch.Prelude.{
  Bool, Bool-cases, List, Option, Option-cases, String, [], false, if◌then◌else◌, inl, inr, nat_eq,
  none, refl, some, string_eq, true, ℕ, ◌++◌, ◌==◌, ◌∷◌, ◌≡◌,
}
use ranch.Prelude.Dict.{Dict, delete, get, put}
use ranch.Fabric.{
  Endpoint, EndpointConfig, FabricAct, close_handler, closed_handler, detach_subscription_forwarder,
  ensure_trailing_slash, is_present, strip_prefix,
}
use ranch.Fabric.Replies.{Payload, forward_message}

pub data RouteDirection : Type 0 where
  request_dir response_dir unsupported_dir : RouteDirection

pub record RouteSpec : Type 0 where
  pub bus_channel : String
  pub default_dest : String
  pub allow_override : Bool
  pub direction : RouteDirection

-- A handle, with what its sync.Once has seen.
pub record RouteHandle : Type 0 where
  pub spec : RouteSpec
  pub stream : ℕ
  pub once : Bool

-- messageRouter, with every handle that it has given.
pub record MessageRouter : Type 0 where
  pub routes : Dict String ℕ
  pub handles : Dict ℕ RouteHandle
  pub closed : Bool

pub data RouteError : Type 0 where
  channel_required listen_failed unsupported_direction router_closed already_registered : RouteError
  not_registered cancelled : RouteError

abbrev pub new_message_router : MessageRouter
new_message_router = record { routes = []; handles = []; closed = false }

-- strings.TrimPrefix(channel, "/")
abbrev pub trim_slash : String → String
trim_slash channel = elim (strip_prefix "/" channel) [ none ↦ channel | some rest ↦ rest ]

unfoldable pub topic_destination : EndpointConfig → String → String
topic_destination config channel =
    let prefix =
      if config.topic_prefix == "" then "/topic/" else ensure_trailing_slash config.topic_prefix in
    String.◌++◌ prefix (trim_slash channel)

unfoldable pub listen_route : Option ℕ → RouteDirection → Option ℕ × Option RouteError
listen_route given request_dir = (given, elim given [ none ↦ some listen_failed | some h ↦ none ])
listen_route given response_dir = (given, elim given [ none ↦ some listen_failed | some h ↦ none ])
listen_route given unsupported_dir = (none, some unsupported_direction)

-- RegisterRoute up to its stream: the specification as completed, and the stream or an error.
unfoldable pub open_route :
    EndpointConfig → Option ℕ → RouteSpec → MessageRouter → RouteSpec × Option ℕ × Option RouteError
open_route config given spec r =
    let completed = record spec {
      default_dest =
          if spec.default_dest == ""
          then topic_destination config spec.bus_channel
          else spec.default_dest;
    } in
    let listened = listen_route given spec.direction in
    if spec.bus_channel == ""
    then (spec, none, some channel_required)
    else if r.closed
    then (completed, none, some router_closed)
    else (completed, listened.0, listened.1)

-- closeStream
unfoldable pub close_stream : ℕ → MessageRouter → MessageRouter × List FabricAct
close_stream id r = elim (get id r.handles) [
  | none ↦ (r, [])
  | some handle ↦ if handle.once then (r, []) else (
    record r { handles = put id (record handle { once = true }) r.handles },
    closed_handler handle.stream ∷ [],
  )
]

-- RegisterRoute from its stream on. Other calls may come between the two: `id` is the new handle.
unfoldable pub publish_route :
    ℕ
    → RouteSpec
    → ℕ
    → MessageRouter
    → Endpoint
    → (MessageRouter × Endpoint) × List FabricAct × Option RouteError
publish_route id spec stream r fe =
    let made = record r {
      handles = put id (record { spec = spec; stream = stream; once = false }) r.handles;
    } in
    let refused = close_stream id made in
    let detached = detach_subscription_forwarder spec.bus_channel fe in
    if r.closed
    then ((refused.0, fe), refused.1, some router_closed)
    else if is_present (get spec.bus_channel r.routes)
    then ((refused.0, fe), refused.1, some already_registered)
    else (
      (record made { routes = put spec.bus_channel id r.routes }, detached.0),
      close_handler detached.1,
      none,
    )

abbrev pub has_route : MessageRouter → String → Bool
has_route r channel = is_present (get channel r.routes)

-- RouteMessage, and the error that it gives.
unfoldable pub route_message :
    Bool → String → Option ℕ → Payload → MessageRouter → List FabricAct × Option RouteError
route_message is_cancelled channel encoded content r =
    if is_cancelled then ([], some cancelled) else elim (get channel r.routes) [
      | none ↦ ([], some not_registered)
      | some id ↦ elim (get id r.handles) [
        | none ↦ ([], none)
        | some handle ↦ (
          forward_message encoded handle.spec.default_dest handle.spec.allow_override content,
          none,
        )
      ]
    ]

-- routeHandle.Close
unfoldable pub close_route : ℕ → MessageRouter → MessageRouter × List FabricAct
close_route id r = elim (get id r.handles) [
  | none ↦ (r, [])
  | some handle ↦ elim (get handle.spec.bus_channel r.routes) [
    | none ↦ close_stream id r
    | some existing ↦
        let without = record r { routes = delete handle.spec.bus_channel r.routes } in
        if existing == id then close_stream id without else close_stream id r
  ]
]

unfoldable pub close_streams : Dict String ℕ → MessageRouter → MessageRouter × List FabricAct
close_streams [] r = (r, [])
close_streams ((channel, id) ∷ rest) r =
    let first = close_stream id r in
    let others = close_streams rest first.0 in (others.0, first.1 ++ others.1)

-- messageRouter.Close
unfoldable pub close_router : MessageRouter → MessageRouter × List FabricAct
close_router r =
    if r.closed then (r, []) else close_streams r.routes (record r { routes = []; closed = true })

-- Closing a stream changes neither routes nor whether the router is closed.
pub close_stream-routes :
    (id : ℕ) (r : MessageRouter)
    → ((close_stream id r).0.routes ≡ r.routes) × ((close_stream id r).0.closed ≡ r.closed)
unfolding close_stream
close_stream-routes id r = elim (Option-cases (get id r.handles)) [
  | inl unknown ↦ rw (unknown, close_stream) (refl, refl)
  | inr (handle, known) ↦ elim (Bool-cases handle.once) [
    | inl done ↦ rw (known, done, close_stream) (refl, refl)
    | inr fresh ↦ rw (known, fresh, close_stream) (refl, refl)
  ]
]
