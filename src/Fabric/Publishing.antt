-- ===== src/Fabric/Publishing.antt =====
-- transport/fabric/router.go: a route that is registered, or refused.
use mathlib.Core.Path.{fun_ext}
use ranch.Prelude.{
  Bool, Bool-cases, List, Option, Option-cases, String, ap, arith, eqb_refl, false, if◌then◌else◌,
  inl, inr, nat_eq, none, not, refl, some, string_eq, subst, sym, true, ℕ, ◌&&◌, ◌==◌, ◌||◌, ◌∙◌,
  ◌≡◌,
}
use ranch.Prelude.Dict.{Dict, get, get-put, put}
use ranch.Prelude.Maps.{holds}
use ranch.Fabric.{Endpoint, FabricAct, is_present}
use ranch.Fabric.Router.{
  MessageRouter, RouteError, RouteHandle, RouteSpec, close_stream, publish_route,
}
use ranch.Fabric.Tracking.{
  IsMade, IsTracked, fresh_unrouted, is_routed_by, made_at, made_from, put_handle, put_made, shut,
}
use ranch.Fabric.Closing.{close_known, rewritten}

abbrev pub opened : RouteSpec → ℕ → RouteHandle
opened spec stream = record { spec = spec; stream = stream; once = false }

absent : (found : Option ℕ) → is_present found ≡ false → found ≡ none
absent none missing = refl
absent (some k) missing = cc

pub spent_if : (a b c : Bool) → b ≡ false → (if a then b else c) ≡ (not a && c)
spent_if true b c spent = spent
spent_if false b c spent = refl

pub both : (a b c : Bool) → (not b && (not a && c)) ≡ (not (a || b) && c)
both true true c = refl
both true false c = refl
both false b c = refl

over : (a b c d : Bool) → (if a then b else (if a then c else d)) ≡ (if a then b else d)
over true b c d = refl
over false b c d = refl

-- A handle that is new and closed at once.
refused-IsTracked :
    (id : ℕ) (spec : RouteSpec) (stream : ℕ) (r : MessageRouter)
    → IsTracked r
    → get id r.handles ≡ none
    → IsTracked (close_stream id (record r { handles = put id (opened spec stream) r.handles })).0
refused-IsTracked id spec stream r (tracked, made) fresh =
    let h = opened spec stream in
    let spent = record h { once = true } in
    let with_handle = record r { handles = put id h r.handles } in
    let known : get id (put id h r.handles) ≡ some h =
      rw (get-put id id h r.handles) (ground (arith, nat_eq.beq_iff id id)) in
    let new_made : IsMade with_handle = λ channel.
      made_from (put id h r.handles) r.routes channel (elim (Option-cases (get channel r.routes)) [
        | inl free ↦ inl free
        | inr (k, there) ↦ inr (
          k,
          there,
          put_made id h r.handles channel k (inl fresh) (made_at channel k r made there),
        )
      ]) in
    subst IsTracked (sym (close_known id with_handle h known refl)) (
      shut id spent (put id spent (put id h r.handles)) r.routes r tracked refl
          (λ j p.
            rw (put_handle id j spent (put id h r.handles) p, put_handle id j h r.handles p)
              (over (id == j) (p spent) (p h) (holds p (get j r.handles))))
          (λ j g other. refl) (fresh_unrouted id spec.bus_channel r (tracked, made) fresh),
      rewritten id spent h with_handle known refl new_made,
    )

routed-put :
    (id j : ℕ) (channel : String) (routes : Dict String ℕ) (g : RouteHandle)
    → is_routed_by j (put channel id routes) g
      ≡ (if channel == g.spec.bus_channel then id == j else is_routed_by j routes g)
routed-put id j channel routes g =
    rw (get-put channel g.spec.bus_channel id routes)
      (elim (Bool-cases (channel == g.spec.bus_channel)) [
        | inl same ↦ rw same refl
        | inr other ↦ rw other refl
      ])

routed_others :
    (id j : ℕ) (channel : String) (r : MessageRouter) (g : RouteHandle)
    → get channel r.routes ≡ none
    → (id == j) ≡ false
    → is_routed_by j (put channel id r.routes) g ≡ is_routed_by j r.routes g
routed_others id j channel r g free other =
    routed-put id j channel r.routes g ∙ elim (Bool-cases (channel == g.spec.bus_channel)) [
      | inr elsewhere ↦ rw elsewhere refl
      | inl same ↦
          let none_there : is_routed_by j r.routes g ≡ false =
            subst (λ c. holds (λ (i : ℕ). i == j) (get c r.routes) ≡ false)
              ((string_eq.beq_iff channel g.spec.bus_channel).0 same)
              (ap (holds (λ (i : ℕ). i == j)) free) in
          rw same (other ∙ sym none_there)
    ]

-- A handle that is new and the route of a channel that had none.
accepted-IsTracked :
    (id : ℕ) (spec : RouteSpec) (stream : ℕ) (r : MessageRouter)
    → IsTracked r
    → get id r.handles ≡ none
    → get spec.bus_channel r.routes ≡ none
    → IsTracked (record r {
      handles = put id (opened spec stream) r.handles;
      routes = put spec.bus_channel id r.routes;
    })
accepted-IsTracked id spec stream r (tracked, made) fresh free =
    let h = opened spec stream in
    let routes = put spec.bus_channel id r.routes in
    (
      λ j.
          rw
            (
              put_handle id j h r.handles (λ g. not g.once),
              put_handle id j h r.handles (is_routed_by j routes),
            )
            (elim (Bool-cases (id == j)) [
              | inl same ↦ rw same (
                  sym (
                    routed-put id j spec.bus_channel r.routes h
                    ∙ rw (eqb_refl spec.bus_channel) same))
              | inr other ↦
                  let same_routes : is_routed_by j routes ≡ is_routed_by j r.routes =
                    fun_ext (λ g. routed_others id j spec.bus_channel r g free other) in
                  rw other (tracked j ∙ ap (λ q. holds q (get j r.handles)) (sym same_routes))
            ]),
      λ channel.
          made_from (put id h r.handles) routes channel
            (elim (Bool-cases (spec.bus_channel == channel)) [
              | inl same ↦ inr (
                id,
                rw (get-put spec.bus_channel channel id r.routes) (rw same refl),
                rw (put_handle id id h r.handles (λ g. g.spec.bus_channel == channel))
                    (ground (arith, same, nat_eq.beq_iff id id)),
              )
              | inr other ↦
                  rw (get-put spec.bus_channel channel id r.routes, other)
                    (elim (Option-cases (get channel r.routes)) [
                      | inl absent ↦ inl absent
                      | inr (k, there) ↦ inr (
                        k,
                        there,
                        put_made id h r.handles channel k (inl fresh)
                            (made_at channel k r made there),
                      )
                    ])
            ]),
    )

pub either_way :
    (P : MessageRouter → Type 0) (b : Bool)
    (x y : (MessageRouter × Endpoint) × List FabricAct × Option RouteError)
    → (b ≡ true → P x.0.0)
    → (b ≡ false → P y.0.0)
    → P (if b then x else y).0.0
either_way P true x y when_true when_false = when_true refl
either_way P false x y when_true when_false = when_false refl

pub publish_route-IsTracked :
    (id : ℕ) (spec : RouteSpec) (stream : ℕ) (r : MessageRouter) (fe : Endpoint)
    → IsTracked r
    → get id r.handles ≡ none
    → IsTracked (publish_route id spec stream r fe).0.0
unfolding publish_route
publish_route-IsTracked id spec stream r fe tracked fresh =
    either_way IsTracked r.closed _ _
      (λ shut_down. refused-IsTracked id spec stream r tracked fresh)
      (λ is_open.
        either_way IsTracked (is_present (get spec.bus_channel r.routes)) _ _
          (λ taken. refused-IsTracked id spec stream r tracked fresh)
          (λ free.
            accepted-IsTracked id spec stream r tracked fresh
              (absent (get spec.bus_channel r.routes) free)))
