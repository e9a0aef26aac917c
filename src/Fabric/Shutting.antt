-- ===== src/Fabric/Shutting.antt =====
-- transport/fabric/router.go: how often the operations of the router close a stream.
use ranch.Prelude.{
  Bool, Bool-cases, List, Option-cases, String, [], ap, arith, count_if, count_if-append, false,
  if◌then◌else◌, inl, inr, nat_eq, none, not, string_eq, true, ℕ, ◌&&◌, ◌+◌, ◌==◌, ◌∙◌, ◌∷◌, ◌≡◌,
}
use ranch.Prelude.Dict.{Dict, delete, get, put}
use ranch.Prelude.Maps.{count-put, count_values, holds}
use ranch.Fabric.{Endpoint, FabricAct, close_handler, detach_subscription_forwarder, is_present}
use ranch.Fabric.Forwarders.{is_closed_handler}
use ranch.Fabric.Router.{
  MessageRouter, RouteHandle, RouteSpec, close_route, close_router, close_stream, close_streams,
  publish_route,
}
use ranch.Fabric.Publishing.{opened}

-- A handle that has the stream k and has not closed it.
abbrev pub has_open : ℕ → RouteHandle → Bool
has_open k h = not h.once && (h.stream == k)

-- How many handles have the stream k and have not closed it.
abbrev pub live : ℕ → MessageRouter → ℕ
live k r = count_values (has_open k) r.handles

-- How often acts close the stream k.
abbrev pub closes : ℕ → List FabricAct → ℕ
closes k acts = count_if (is_closed_handler k) acts

-- What is closed is what is not open any more.
abbrev pub IsShutting : ℕ → MessageRouter → MessageRouter × List FabricAct → Type 0
IsShutting k before (after, acts) = closes k acts + live k after ≡ live k before

close_stream-IsShutting : (k id : ℕ) (r : MessageRouter) → IsShutting k r (close_stream id r)
unfolding close_stream
close_stream-IsShutting k id r = elim (Option-cases (get id r.handles)) [
  | inl unknown ↦ rw (unknown, close_stream) (omega arith)
  | inr (h, known) ↦ elim (Bool-cases h.once) [
    | inl spent ↦ rw (known, spent, close_stream) (omega arith)
    | inr fresh ↦
        let counted = count-put (has_open k) id (record h { once = true }) r.handles in
        let was : holds (has_open k) (get id r.handles) ≡ (h.stream == k) =
          ap (holds (has_open k)) known ∙ ap (λ b. not b && (h.stream == k)) fresh in
        rw (known, fresh, close_stream) (ground (arith, counted, was))
  ]
]

pub close_streams-IsShutting :
    (k : ℕ) (m : Dict String ℕ) (r : MessageRouter) → IsShutting k r (close_streams m r)
unfolding close_streams
close_streams-IsShutting k [] r = omega arith
close_streams-IsShutting k ((channel, id) ∷ m) r =
    let first = close_stream-IsShutting k id r in
    let others = close_streams-IsShutting k m (close_stream id r).0 in
    rw
      (count_if-append (is_closed_handler k) (close_stream id r).1
        (close_streams m (close_stream id r).0).1)
      (omega (arith, first, others))

pub close_router-IsShutting : (k : ℕ) (r : MessageRouter) → IsShutting k r (close_router r)
unfolding close_router
close_router-IsShutting k r = elim (Bool-cases r.closed) [
  | inl done ↦ rw (done, close_router) (omega arith)
  | inr is_open ↦
      rw (is_open, close_router)
        (close_streams-IsShutting k r.routes (record r { routes = []; closed = true }))
]

pub close_route-IsShutting : (k id : ℕ) (r : MessageRouter) → IsShutting k r (close_route id r)
unfolding close_route
close_route-IsShutting k id r = elim (Option-cases (get id r.handles)) [
  | inl unknown ↦ rw (unknown, close_route) (omega arith)
  | inr (h, known) ↦ elim (Option-cases (get h.spec.bus_channel r.routes)) [
    | inl free ↦ rw (known, free, close_route) (close_stream-IsShutting k id r)
    | inr (j, there) ↦ elim (Bool-cases (j == id)) [
      | inr other ↦ rw (known, there, other, close_route) (close_stream-IsShutting k id r)
      | inl same ↦
          rw (known, there, same, close_route)
            (close_stream-IsShutting k id
              (record r { routes = delete h.spec.bus_channel r.routes }))
    ]
  ]
]

-- How often the registration of a route closes the stream k of a forwarder that it takes over.
pub taken : ℕ → RouteSpec → MessageRouter → Endpoint → ℕ
taken k spec r fe =
    if r.closed
    then 0
    else if is_present (get spec.bus_channel r.routes)
    then 0
    else closes k (close_handler (detach_subscription_forwarder spec.bus_channel fe).1)

pub publish_route-closes :
    (k id : ℕ) (spec : RouteSpec) (stream : ℕ) (r : MessageRouter) (fe : Endpoint)
    → get id r.handles ≡ none
    → let done = publish_route id spec stream r fe in
      closes k done.1 + live k done.0.0
      ≡ live k r + (if stream == k then 1 else 0) + taken k spec r fe
unfolding publish_route taken
publish_route-closes k id spec stream r fe fresh =
    let counted = count-put (has_open k) id (opened spec stream) r.handles in
    let absent : holds (has_open k) (get id r.handles) ≡ false = ap (holds (has_open k)) fresh in
    let refused =
      close_stream-IsShutting k id (record r { handles = put id (opened spec stream) r.handles }) in
    elim (Bool-cases r.closed) [
      | inl shut ↦ rw (shut, publish_route) (ground (arith, counted, absent, refused))
      | inr is_open ↦ elim (Bool-cases (is_present (get spec.bus_channel r.routes))) [
        | inl used ↦ rw (is_open, used, publish_route) (ground (arith, counted, absent, refused))
        | inr free ↦ rw (is_open, free, publish_route) (ground (arith, counted, absent))
      ]
    ]
