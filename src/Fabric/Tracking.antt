-- ===== src/Fabric/Tracking.antt =====
-- transport/fabric/router.go: when the stream of a route is open.
use mathlib.Core.Path.{fun_ext}
use ranch.Prelude.{
  Bool, Bool-cases, Option-cases, String, ap, arith, false, if◌then◌else◌, inl, inr, nat_eq, none,
  not, refl, some, string_eq, subst, sym, true, ℕ, ◌==◌, ◌∙◌, ◌≡◌, ◌⊎◌,
}
use ranch.Prelude.Dict.{Dict, delete, get, get-delete, get-put, put}
use ranch.Prelude.Maps.{holds}
use ranch.Fabric.{is_present}
use ranch.Fabric.Router.{MessageRouter, RouteHandle}

-- Whether the stream of a handle is open.
abbrev pub is_streaming : ℕ → MessageRouter → Bool
is_streaming id r = holds (λ h. not h.once) (get id r.handles)

-- Whether a handle is the route of its channel.
abbrev pub is_routed_by : ℕ → Dict String ℕ → RouteHandle → Bool
is_routed_by id routes h = holds (λ j. j == id) (get h.spec.bus_channel routes)

abbrev pub is_current : ℕ → MessageRouter → Bool
is_current id r = holds (is_routed_by id r.routes) (get id r.handles)

-- Whether the route of a channel is a handle made for it.
abbrev pub is_made_for : String → Dict ℕ RouteHandle → ℕ → Bool
is_made_for channel handles id = holds (λ h. h.spec.bus_channel == channel) (get id handles)

abbrev pub IsMade : MessageRouter → Type 0
IsMade r =
    (channel : String)
    → holds (is_made_for channel r.handles) (get channel r.routes)
      ≡ is_present (get channel r.routes)

-- The stream of a handle is open exactly when the handle is its channel's route, and the route of a
-- channel is a handle made for it.
abbrev pub IsTracked : MessageRouter → Type 0
IsTracked r = ((id : ℕ) → is_streaming id r ≡ is_current id r) × IsMade r

pub put_handle :
    (id j : ℕ) (h : RouteHandle) (handles : Dict ℕ RouteHandle) (p : RouteHandle → Bool)
    → holds p (get j (put id h handles)) ≡ (if id == j then p h else holds p (get j handles))
put_handle id j h handles p = rw (get-put id j h handles) (ground (arith, nat_eq.beq_iff id j))

pub made_at :
    (channel : String) (k : ℕ) (r : MessageRouter)
    → IsMade r
    → get channel r.routes ≡ some k
    → is_made_for channel r.handles k ≡ true
made_at channel k r made there =
    sym (ap (holds (is_made_for channel r.handles)) there) ∙ (made channel ∙ ap is_present there)

pub made_from :
    (handles : Dict ℕ RouteHandle) (routes : Dict String ℕ) (channel : String)
    → (get channel routes ≡ none)
      ⊎ ((k : ℕ) × (get channel routes ≡ some k) × (is_made_for channel handles k ≡ true))
    → holds (is_made_for channel handles) (get channel routes) ≡ is_present (get channel routes)
made_from handles routes channel (inl free) = rw free refl
made_from handles routes channel (inr (k, there, is_made)) = rw there is_made

-- A handle that is new, or is written again for the same channel, leaves the routes made.
pub put_made :
    (id : ℕ) (h : RouteHandle) (handles : Dict ℕ RouteHandle) (channel : String) (k : ℕ)
    → (get id handles ≡ none)
      ⊎ (holds (λ old. old.spec.bus_channel == channel) (get id handles)
          ≡ (h.spec.bus_channel == channel))
    → is_made_for channel handles k ≡ true
    → is_made_for channel (put id h handles) k ≡ true
put_made id h handles channel k kept is_made =
    rw (put_handle id k h handles (λ g. g.spec.bus_channel == channel))
      (elim (Bool-cases (id == k)) [
        | inr other ↦ rw other is_made
        | inl same ↦
            let at_id : is_made_for channel handles id ≡ true =
              subst (λ i. is_made_for channel handles i ≡ true) (sym ((nat_eq.beq_iff id k).0 same))
                is_made in
            rw same (elim kept [
              | inl fresh ↦
                  let absent : is_made_for channel handles id ≡ false =
                    ap (holds (λ (g : RouteHandle). g.spec.bus_channel == channel)) fresh in
                  cc
              | inr agrees ↦ sym agrees ∙ at_id
            ])
      ])

-- A fresh handle is the route of no channel.
pub fresh_unrouted :
    (id : ℕ) (channel : String) (r : MessageRouter)
    → IsTracked r
    → get id r.handles ≡ none
    → holds (λ j. j == id) (get channel r.routes) ≡ false
fresh_unrouted id channel r (tracked, made) fresh = elim (Option-cases (get channel r.routes)) [
  | inl free ↦ rw free refl
  | inr (k, there) ↦ elim (Bool-cases (k == id)) [
    | inr other ↦ rw there other
    | inl same ↦
        let here = made_at channel k r made there in
        let gone : get k r.handles ≡ none =
          subst (λ i. get i r.handles ≡ none) (sym ((nat_eq.beq_iff k id).0 same)) fresh in
        let absent : is_made_for channel r.handles k ≡ false =
          ap (holds (λ (h : RouteHandle). h.spec.bus_channel == channel)) gone in
        cc
  ]
]

-- What is there is what a write of it would leave.
pub same_handle :
    (id j : ℕ) (h : RouteHandle) (handles : Dict ℕ RouteHandle) (p : RouteHandle → Bool)
    → get id handles ≡ some h
    → holds p (get j handles) ≡ (if id == j then p h else holds p (get j handles))
same_handle id j h handles p there = elim (Bool-cases (id == j)) [
  | inr other ↦ rw other refl
  | inl same ↦ rw same (
      subst (λ i. holds p (get i handles) ≡ p h) ((nat_eq.beq_iff id j).0 same)
        (ap (holds p) there))
]

-- A handle whose stream is closed is no route any more; the others are routes as before.
pub shut :
    (id : ℕ) (h : RouteHandle) (handles : Dict ℕ RouteHandle) (routes : Dict String ℕ)
    (r : MessageRouter)
    → ((j : ℕ) → is_streaming j r ≡ is_current j r)
    → h.once ≡ true
    → ((j : ℕ) (p : RouteHandle → Bool)
        → holds p (get j handles) ≡ (if id == j then p h else holds p (get j r.handles)))
    → ((j : ℕ) (g : RouteHandle)
        → (id == j) ≡ false
        → is_routed_by j routes g ≡ is_routed_by j r.routes g)
    → is_routed_by id routes h ≡ false
    → (j : ℕ)
    → holds (λ g. not g.once) (get j handles) ≡ holds (is_routed_by j routes) (get j handles)
shut id h handles routes r tracked spent written others unrouted j =
    rw (written j (λ g. not g.once), written j (is_routed_by j routes))
      (elim (Bool-cases (id == j)) [
        | inl same ↦
            let unrouted_j : is_routed_by j routes h ≡ false =
              subst (λ i. is_routed_by i routes h ≡ false) ((nat_eq.beq_iff id j).0 same)
                unrouted in
            rw (same, unrouted_j) (ap not spent)
        | inr other ↦
            let same_routes : is_routed_by j routes ≡ is_routed_by j r.routes =
              fun_ext (λ g. others j g other) in
            rw other (tracked j ∙ ap (λ q. holds q (get j r.handles)) (sym same_routes))
      ])

-- The route of a channel is taken away from its handle.
pub unrouted_others :
    (id j : ℕ) (channel : String) (g : RouteHandle) (r : MessageRouter)
    → get channel r.routes ≡ some id
    → (id == j) ≡ false
    → is_routed_by j (delete channel r.routes) g ≡ is_routed_by j r.routes g
unrouted_others id j channel g r there other =
    rw (get-delete channel g.spec.bus_channel r.routes)
      (elim (Bool-cases (channel == g.spec.bus_channel)) [
        | inr elsewhere ↦ rw elsewhere refl
        | inl same ↦
            let here : get g.spec.bus_channel r.routes ≡ some id =
              subst (λ c. get c r.routes ≡ some id)
                ((string_eq.beq_iff channel g.spec.bus_channel).0 same) there in
            rw (same, here) (sym other)
      ])

pub delete-IsMade :
    (channel : String) (r : MessageRouter)
    → IsMade r
    → IsMade (record r { routes = delete channel r.routes })
delete-IsMade channel r made c =
    rw (get-delete channel c r.routes)
      (elim (Bool-cases (channel == c)) [ inl same ↦ rw same refl | inr other ↦ rw other (made c) ])
