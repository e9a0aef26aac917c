-- ===== src/Fabric/Lifetime.antt =====
-- transport/fabric/router.go: the streams of routes, over the life of the router.
use ranch.Prelude.{
  Bool-cases, List, Option-cases, String, [], ap, arith, count_if-append, false, if◌then◌else◌, inl,
  inr, nat_eq, none, refl, some, string_eq, ℕ, ◌++◌, ◌+◌, ◌==◌, ◌∙◌, ◌∷◌, ◌≡◌,
}
use ranch.Prelude.Dict.{delete, get, put}
use ranch.Fabric.{Endpoint, FabricAct, is_present}
use ranch.Fabric.Forwarders.{is_closed_handler}
use ranch.Fabric.Silence.{IsShut, close_router-IsSilent}
use ranch.Fabric.Shutting.{
  close_route-IsShutting, close_router-IsShutting, closes, live, publish_route-closes, taken,
}
use ranch.Fabric.Router.{
  MessageRouter, RouteSpec, close_route, close_router, close_stream, close_stream-routes,
  new_message_router, publish_route,
}
use ranch.Fabric.Tracking.{IsTracked, is_current, is_streaming}
use ranch.Fabric.Closing.{close_route-IsTracked}
use ranch.Fabric.Publishing.{either_way, opened, publish_route-IsTracked}

-- What is done to the router: a route is published under the address of a new handle, while the endpoint
-- is in some state, a handle is closed, or the router is.
pub data RouterEvent : Type 0 where
  published : ℕ → RouteSpec → ℕ → Endpoint → RouterEvent
  handle_closed : ℕ → RouterEvent
  all_closed : RouterEvent

-- An address that is in use is not the address of a new handle.
unfoldable pub router_step : RouterEvent → MessageRouter → MessageRouter × List FabricAct
router_step (published id spec stream fe) r = elim (get id r.handles) [
  | some used ↦ (r, [])
  | none ↦ let done = publish_route id spec stream r fe in (done.0.0, done.1)
]
router_step (handle_closed id) r = close_route id r
router_step all_closed r = close_router r

abbrev pub router_run : List RouterEvent → MessageRouter → MessageRouter × List FabricAct
router_run [] r = (r, [])
router_run (e ∷ es) r =
    let after = router_step e r in let rest = router_run es after.0 in (rest.0, after.1 ++ rest.1)

-- How often an event hands the stream k to the router: with a new handle, or as that of a forwarder that a
-- route takes over.
abbrev pub given : ℕ → RouterEvent → MessageRouter → ℕ
given k (published id spec stream fe) r = elim (get id r.handles) [
  | some used ↦ 0
  | none ↦ (if stream == k then 1 else 0) + taken k spec r fe
]
given k (handle_closed id) r = 0
given k all_closed r = 0

abbrev pub given_all : ℕ → List RouterEvent → MessageRouter → ℕ
given_all k [] r = 0
given_all k (e ∷ es) r = given k e r + given_all k es (router_step e r).0

-- A stream that is closed changes nothing that IsShut reads.
close_stream-IsShut : (id : ℕ) (r : MessageRouter) → IsShut r → IsShut (close_stream id r).0
close_stream-IsShut id r (inl is_open) = inl ((close_stream-routes id r).1 ∙ is_open)
close_stream-IsShut id r (inr empty) = inr ((close_stream-routes id r).0 ∙ empty)

publish_route-IsShut :
    (id : ℕ) (spec : RouteSpec) (stream : ℕ) (r : MessageRouter) (fe : Endpoint)
    → IsShut r
    → IsShut (publish_route id spec stream r fe).0.0
unfolding publish_route
publish_route-IsShut id spec stream r fe is_shut =
    let refused =
      close_stream-IsShut id (record r { handles = put id (opened spec stream) r.handles })
        is_shut in
    either_way IsShut r.closed _ _ (λ shut_down. refused)
      (λ is_open.
        either_way IsShut (is_present (get spec.bus_channel r.routes)) _ _ (λ taken. refused)
          (λ free. inl is_open))

without_route :
    (channel : String) (r : MessageRouter)
    → IsShut r
    → IsShut (record r { routes = delete channel r.routes })
unfolding delete
without_route channel r (inl is_open) = inl is_open
without_route channel r (inr empty) = inr (ap (delete channel) empty)

close_route-IsShut : (id : ℕ) (r : MessageRouter) → IsShut r → IsShut (close_route id r).0
unfolding close_route
close_route-IsShut id r is_shut = elim (Option-cases (get id r.handles)) [
  | inl unknown ↦ rw (unknown, close_route) is_shut
  | inr (h, known) ↦ elim (Option-cases (get h.spec.bus_channel r.routes)) [
    | inl free ↦ rw (known, free, close_route) (close_stream-IsShut id r is_shut)
    | inr (k, there) ↦ elim (Bool-cases (k == id)) [
      | inr other ↦ rw (known, there, other, close_route) (close_stream-IsShut id r is_shut)
      | inl same ↦
          rw (known, there, same, close_route)
            (close_stream-IsShut id (record r { routes = delete h.spec.bus_channel r.routes })
              (without_route h.spec.bus_channel r is_shut))
    ]
  ]
]

router_step_lem :
    (e : RouterEvent) (r : MessageRouter)
    → IsTracked r
    → IsShut r
    → IsTracked (router_step e r).0 × IsShut (router_step e r).0
unfolding router_step
router_step_lem (published id spec stream fe) r tracked is_shut =
    elim (Option-cases (get id r.handles)) [
      | inr (used, known) ↦ rw (known, router_step) (tracked, is_shut)
      | inl fresh ↦
          rw (fresh, router_step)
            (
              publish_route-IsTracked id spec stream r fe tracked fresh,
              publish_route-IsShut id spec stream r fe is_shut,
            )
    ]
router_step_lem (handle_closed id) r tracked is_shut =
    (close_route-IsTracked id r tracked, close_route-IsShut id r is_shut)
router_step_lem all_closed r tracked is_shut =
    let after = close_router-IsSilent r tracked is_shut in (after.0, inr after.1)

run_kept :
    (es : List RouterEvent) (r : MessageRouter)
    → IsTracked r
    → IsShut r
    → IsTracked (router_run es r).0 × IsShut (router_run es r).0
run_kept [] r tracked is_shut = (tracked, is_shut)
run_kept (e ∷ es) r tracked is_shut =
    let after = router_step_lem e r tracked is_shut in
    run_kept es (router_step e r).0 after.0 after.1

step_closes :
    (k : ℕ) (e : RouterEvent) (r : MessageRouter)
    → closes k (router_step e r).1 + live k (router_step e r).0 ≡ live k r + given k e r
unfolding router_step
step_closes k (published id spec stream fe) r = elim (Option-cases (get id r.handles)) [
  | inr (used, known) ↦ rw (known, router_step, given) (omega arith)
  | inl fresh ↦
      rw (fresh, router_step, given)
        (omega (arith, publish_route-closes k id spec stream r fe fresh))
]
step_closes k (handle_closed id) r = omega (arith, close_route-IsShutting k id r)
step_closes k all_closed r = omega (arith, close_router-IsShutting k r)

run_closes :
    (k : ℕ) (es : List RouterEvent) (r : MessageRouter)
    → closes k (router_run es r).1 + live k (router_run es r).0 ≡ live k r + given_all k es r
run_closes k [] r = omega arith
run_closes k (e ∷ es) r =
    rw
      (count_if-append (is_closed_handler k) (router_step e r).1
        (router_run es (router_step e r).0).1)
      (omega (arith, step_closes k e r, run_closes k es (router_step e r).0))

-- However routes are registered and closed, also when several register a channel at a time, the stream of a handle counts as open exactly as long as the handle is the route of its channel, and each stream that is handed over, with a handle or as that of a forwarder which a route takes over, is closed once for each time, except for the handles whose streams are open. When the router is closed, then or before, there is no route left and no open stream, and of what was open by then each is closed once.
pub router_run_lem :
    (es : List RouterEvent) (id k : ℕ)
    → let run = router_run es new_message_router in
      (is_streaming id run.0 ≡ is_current id run.0)
      × (closes k run.1 + live k run.0 ≡ given_all k es new_message_router)
      × ((close_router run.0).0.routes ≡ [])
      × (is_streaming id (close_router run.0).0 ≡ false)
      × (closes k (close_router run.0).1 + live k (close_router run.0).0 ≡ live k run.0)
unfolding get
router_run_lem es id k =
    let r = (router_run es new_message_router).0 in
    let kept = run_kept es new_message_router (λ j. refl, λ channel. refl) (inl refl) in
    let after = close_router-IsSilent r kept.0 kept.1 in
    (
      kept.0.0 id,
      omega (arith, run_closes k es new_message_router),
      after.1,
      after.2 id,
      close_router-IsShutting k r,
    )
