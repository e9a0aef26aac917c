-- ===== src/Fabric/Closing.antt =====
-- transport/fabric/router.go: closing a stream, and a route.
use ranch.Prelude.{
  Bool-cases, Option-cases, String, ap, arith, eqb_refl, false, inl, inr, nat_eq, none, refl, some,
  string_eq, subst, sym, true, ℕ, ◌==◌, ◌∙◌, ◌≡◌,
}
use ranch.Prelude.Dict.{Dict, delete, get, get-delete, put}
use ranch.Prelude.Maps.{holds}
use ranch.Fabric.Router.{MessageRouter, RouteHandle, RouteSpec, close_route, close_stream}
use ranch.Fabric.Tracking.{
  IsMade, IsTracked, delete-IsMade, is_current, is_routed_by, is_streaming, made_at, made_from,
  put_handle, put_made, same_handle, shut, unrouted_others,
}

pub close_known :
    (id : ℕ) (r : MessageRouter) (h : RouteHandle)
    → get id r.handles ≡ some h
    → h.once ≡ false
    → (close_stream id r).0 ≡ record r { handles = put id (record h { once = true }) r.handles }
unfolding close_stream
close_known id r h known fresh = rw (known, fresh, close_stream) refl

pub close_unknown :
    (id : ℕ) (r : MessageRouter) → get id r.handles ≡ none → (close_stream id r).0 ≡ r
unfolding close_stream
close_unknown id r unknown = rw (unknown, close_stream) refl

pub close_spent :
    (id : ℕ) (r : MessageRouter) (h : RouteHandle)
    → get id r.handles ≡ some h
    → h.once ≡ true
    → (close_stream id r).0 ≡ r
unfolding close_stream
close_spent id r h known spent = rw (known, spent, close_stream) refl

-- A write of a known handle for the same channel.
pub rewritten :
    (id : ℕ) (h old : RouteHandle) (r : MessageRouter)
    → get id r.handles ≡ some old
    → h.spec ≡ old.spec
    → IsMade r
    → IsMade (record r { handles = put id h r.handles })
rewritten id h old r known same made channel =
    let agrees : holds (λ (g : RouteHandle). g.spec.bus_channel == channel) (get id r.handles)
        ≡ (h.spec.bus_channel == channel) =
      ap (holds (λ (g : RouteHandle). g.spec.bus_channel == channel)) known
      ∙ ap (λ (spec : RouteSpec). spec.bus_channel == channel) (sym same) in
    made_from (put id h r.handles) r.routes channel (elim (Option-cases (get channel r.routes)) [
      | inl free ↦ inl free
      | inr (k, there) ↦ inr (
        k,
        there,
        put_made id h r.handles channel k (inr agrees) (made_at channel k r made there),
      )
    ])

-- Closing the stream of a handle that is no route any more.
close_stream-IsTracked :
    (id : ℕ) (h : RouteHandle) (routes : Dict String ℕ) (r : MessageRouter)
    → ((j : ℕ) → is_streaming j r ≡ is_current j r)
    → get id r.handles ≡ some h
    → ((j : ℕ) (g : RouteHandle)
        → (id == j) ≡ false
        → is_routed_by j routes g ≡ is_routed_by j r.routes g)
    → is_routed_by id routes h ≡ false
    → IsMade (record r { routes = routes })
    → IsTracked (close_stream id (record r { routes = routes })).0
close_stream-IsTracked id h routes r tracked known others unrouted made = elim (Bool-cases h.once) [
  | inl spent ↦
      subst IsTracked (sym (close_spent id (record r { routes = routes }) h known spent)) (
        shut id h r.handles routes r tracked spent (λ j p. same_handle id j h r.handles p known)
            others unrouted,
        made,
      )
  | inr fresh ↦
      let closed_handle = record h { once = true } in
      subst IsTracked (sym (close_known id (record r { routes = routes }) h known fresh)) (
        shut id closed_handle (put id closed_handle r.handles) routes r tracked refl
            (λ j p. put_handle id j closed_handle r.handles p) others unrouted,
        rewritten id closed_handle h (record r { routes = routes }) known refl made,
      )
]

close_unrouted :
    (id : ℕ) (h : RouteHandle) (r : MessageRouter)
    → IsTracked r
    → get id r.handles ≡ some h
    → is_routed_by id r.routes h ≡ false
    → IsTracked (close_stream id r).0
close_unrouted id h r (tracked, made) known unrouted =
    close_stream-IsTracked id h r.routes r tracked known (λ j g other. refl) unrouted made

pub close_route-IsTracked :
    (id : ℕ) (r : MessageRouter) → IsTracked r → IsTracked (close_route id r).0
unfolding close_route
close_route-IsTracked id r (tracked, made) = elim (Option-cases (get id r.handles)) [
  | inl unknown ↦ rw (unknown, close_route) (tracked, made)
  | inr (h, known) ↦ elim (Option-cases (get h.spec.bus_channel r.routes)) [
    | inl free ↦
        rw (known, free, close_route)
          (close_unrouted id h r (tracked, made) known (ap (holds (λ (k : ℕ). k == id)) free))
    | inr (k, there) ↦ elim (Bool-cases (k == id)) [
      | inr other ↦
          rw (known, there, other, close_route)
            (close_unrouted id h r (tracked, made) known
              (ap (holds (λ (i : ℕ). i == id)) there ∙ other))
      | inl same ↦
          let here : get h.spec.bus_channel r.routes ≡ some id =
            there ∙ ap some ((nat_eq.beq_iff k id).0 same) in
          let removed : get h.spec.bus_channel (delete h.spec.bus_channel r.routes) ≡ none =
            rw (get-delete h.spec.bus_channel h.spec.bus_channel r.routes)
              (ground (arith, eqb_refl h.spec.bus_channel)) in
          let gone : is_routed_by id (delete h.spec.bus_channel r.routes) h ≡ false =
            ap (holds (λ (i : ℕ). i == id)) removed in
          rw (known, there, same, close_route)
            (close_stream-IsTracked id h (delete h.spec.bus_channel r.routes) r tracked known
              (λ j g other. unrouted_others id j h.spec.bus_channel g r here other) gone
              (delete-IsMade h.spec.bus_channel r made))
    ]
  ]
]
