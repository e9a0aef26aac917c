-- ===== src/Fabric/Routes.antt =====
-- transport/fabric/router.go, endpoint.go: what a route leaves of the subscriptions to its channel.
use ranch.Prelude.{
  Bool, Eq, Option, String, [], arith, eqb_refl, false, nat_eq, none, refl, some, string_eq, true,
  ℕ, ◌==◌, ◌∷◌, ◌≡◌,
}
use ranch.Prelude.Dict.{Dict, delete, get, get-delete, get-put, put}
use ranch.Fabric.{
  ChannelMapping, Endpoint, add_subscription_to, close_handler, closed_handler,
  detach_subscription_forwarder, subscribe_event,
}
use ranch.Fabric.Router.{
  MessageRouter, RouteHandle, RouteSpec, close_route, close_stream, close_stream-routes, has_route,
  publish_route,
}

-- What the endpoint keeps of a mapping whose channel a route has taken over.
abbrev pub taken_over : ChannelMapping → ChannelMapping
taken_over mapping = record mapping { handler = none; auto_created = false }

abbrev handle_of : RouteSpec → ℕ → RouteHandle
handle_of spec stream = record { spec = spec; stream = stream; once = false }

-- A router with one more route.
abbrev pub with_route : ℕ → RouteSpec → ℕ → MessageRouter → MessageRouter
with_route id spec stream r = record r {
  handles = put id (handle_of spec stream) r.handles;
  routes = put spec.bus_channel id r.routes;
}

publish_route_lem :
    (id : ℕ) (spec : RouteSpec) (stream : ℕ) (r : MessageRouter) (fe : Endpoint)
    → r.closed ≡ false
    → get spec.bus_channel r.routes ≡ none
    → publish_route id spec stream r fe ≡ (
      (with_route id spec stream r, (detach_subscription_forwarder spec.bus_channel fe).0),
      close_handler (detach_subscription_forwarder spec.bus_channel fe).1,
      none,
    )
unfolding publish_route
publish_route_lem id spec stream r fe is_open free = simp (is_open, free) refl

detach_there :
    (channel : String) (mapping : ChannelMapping) (fe : Endpoint)
    → get channel fe.chan_mappings ≡ some mapping
    → detach_subscription_forwarder channel fe ≡ (
      record fe { chan_mappings = put channel (taken_over mapping) fe.chan_mappings },
      mapping.handler,
    )
unfolding detach_subscription_forwarder
detach_there channel mapping fe there = rw (there, detach_subscription_forwarder) refl

close_stream_fresh :
    (id : ℕ) (r : MessageRouter) (handle : RouteHandle)
    → get id r.handles ≡ some handle
    → handle.once ≡ false
    → (close_stream id r).1 ≡ closed_handler handle.stream ∷ []
unfolding close_stream
close_stream_fresh id r handle known fresh = rw (known, close_stream) (simp fresh refl)

close_route_current :
    (id : ℕ) (r : MessageRouter) (handle : RouteHandle)
    → get id r.handles ≡ some handle
    → get handle.spec.bus_channel r.routes ≡ some id
    → close_route id r
      ≡ close_stream id (record r { routes = delete handle.spec.bus_channel r.routes })
unfolding close_route
close_route_current id r handle known current =
    let same : (id == id) ≡ true = ground (arith, nat_eq.beq_iff id id) in
    rw (known, close_route) (rw (current, same) refl)

get-put_same {ℓ κ} :
    {K : Type ℓ} {V : Type κ} ⦃e : Eq K⦄ (k : K) (v : V) (m : Dict K V) → get k (put k v m) ≡ some v
get-put_same ⦃e⦄ k v m = rw (get-put k k v m) (ground (arith, e.beq_iff k k))

close_route_lem :
    (id : ℕ) (spec : RouteSpec) (stream : ℕ) (r : MessageRouter)
    → (has_route (close_route id (with_route id spec stream r)).0 spec.bus_channel ≡ false)
      × ((close_route id (with_route id spec stream r)).1 ≡ closed_handler stream ∷ [])
close_route_lem id spec stream r =
    let known = get-put_same id (handle_of spec stream) r.handles in
    let current = get-put_same spec.bus_channel id r.routes in
    let without = record (with_route id spec stream r) {
      routes = delete spec.bus_channel (put spec.bus_channel id r.routes);
    } in
    let kept = close_stream-routes id without in
    let gone = get-delete spec.bus_channel spec.bus_channel (put spec.bus_channel id r.routes) in
    rw (close_route_current id (with_route id spec stream r) (handle_of spec stream) known current)
      (
        rw (kept.0, gone, eqb_refl spec.bus_channel) refl,
        close_stream_fresh id without (handle_of spec stream) known refl,
      )

subscribed_there :
    (routed : Bool) (first second : Option ℕ) (channel id : String) (mapping : ChannelMapping)
    (fe : Endpoint)
    → get channel fe.chan_mappings ≡ some mapping
    → (add_subscription_to routed first second channel id fe).1 ≡ subscribe_event channel ∷ []
unfolding add_subscription_to
subscribed_there routed first second channel id mapping fe there =
    rw (there, add_subscription_to) refl

-- When a route has been registered for a channel that clients were subscribed to, and is closed again, the forwarder that those subscriptions had is closed and stays so: the channel has no route, its mapping no forwarder, and whoever subscribes next to it gets none either, as long as the mapping is there.
pub close-publish_route :
    (id : ℕ) (spec : RouteSpec) (stream : ℕ) (r : MessageRouter) (mapping : ChannelMapping)
    (fe : Endpoint) (first second : Option ℕ) (sub : String)
    → r.closed ≡ false
    → get spec.bus_channel r.routes ≡ none
    → get spec.bus_channel fe.chan_mappings ≡ some mapping
    → let published = publish_route id spec stream r fe in
      let closed_again = close_route id published.0.0 in
      (published.1 ≡ close_handler mapping.handler)
      × (closed_again.1 ≡ closed_handler stream ∷ [])
      × (has_route closed_again.0 spec.bus_channel ≡ false)
      × (get spec.bus_channel published.0.1.chan_mappings ≡ some (taken_over mapping))
      × ((add_subscription_to
            (has_route closed_again.0 spec.bus_channel)
            first
            second
            spec.bus_channel
            sub
            published.0.1).1
          ≡ subscribe_event spec.bus_channel ∷ [])
close-publish_route id spec stream r mapping fe first second sub is_open free there =
    let left = get-put_same spec.bus_channel (taken_over mapping) fe.chan_mappings in
    let gone = close_route_lem id spec stream r in
    rw (publish_route_lem id spec stream r fe is_open free) (
      rw (detach_there spec.bus_channel mapping fe there) (
        refl,
        gone.1,
        gone.0,
        left,
        subscribed_there
            (has_route (close_route id (with_route id spec stream r)).0 spec.bus_channel) first
            second spec.bus_channel sub (taken_over mapping)
            (record fe {
              chan_mappings = put spec.bus_channel (taken_over mapping) fe.chan_mappings;
            })
            left,
      ))
