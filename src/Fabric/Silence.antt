-- ===== src/Fabric/Silence.antt =====
-- transport/fabric/router.go: closing the router leaves no route and no open stream.
use ranch.Prelude.{
  Bool, Bool-cases, Option-cases, String, [], any, ap, arith, false, if◌then◌else◌, inl, inr,
  nat_eq, none, not, refl, some, string_eq, subst, sym, true, ℕ, ◌&&◌, ◌==◌, ◌∙◌, ◌∷◌, ◌≡◌, ◌⊎◌,
}
use ranch.Prelude.Dict.{Dict, get}
use ranch.Prelude.Maps.{holds}
use ranch.Fabric.Router.{
  MessageRouter, RouteHandle, close_router, close_stream, close_stream-routes, close_streams,
}
use ranch.Fabric.Tracking.{
  IsTracked, is_current, is_routed_by, is_streaming, made_from, put_handle, same_handle,
}
use ranch.Fabric.Closing.{close_known, close_spent, close_unknown}
use ranch.Fabric.Publishing.{both, spent_if}

-- Closing a stream leaves the other streams as they were.
close_stream-is_streaming :
    (id j : ℕ) (r : MessageRouter)
    → is_streaming j (close_stream id r).0 ≡ (not (id == j) && is_streaming j r)
close_stream-is_streaming id j r = elim (Option-cases (get id r.handles)) [
  | inl unknown ↦ rw (close_unknown id r unknown) (elim (Bool-cases (id == j)) [
    | inr other ↦ rw other refl
    | inl same ↦ rw same (
        ap (holds (λ (h : RouteHandle). not h.once))
          (subst (λ i. get i r.handles ≡ none) ((nat_eq.beq_iff id j).0 same) unknown))
  ])
  | inr (h, known) ↦ elim (Bool-cases h.once) [
    | inl spent ↦
        let same_lookup = same_handle id j h r.handles (λ (g : RouteHandle). not g.once) known in
        rw (close_spent id r h known spent)
          (same_lookup ∙ spent_if (id == j) (not h.once) (is_streaming j r) (ap not spent))
    | inr fresh ↦ rw (close_known id r h known fresh) (
        put_handle id j (record h { once = true }) r.handles (λ g. not g.once)
        ∙ spent_if (id == j) false (is_streaming j r) refl)
  ]
]

close_streams-is_streaming :
    (j : ℕ) (m : Dict String ℕ) (r : MessageRouter)
    → is_streaming j (close_streams m r).0
      ≡ (not (any (λ entry. entry.1 == j) m) && is_streaming j r)
unfolding close_streams
close_streams-is_streaming j [] r = refl
close_streams-is_streaming j ((channel, id) ∷ m) r =
    close_streams-is_streaming j m (close_stream id r).0
    ∙ (ap (λ b. not (any (λ (entry : String × ℕ). entry.1 == j) m) && b)
          (close_stream-is_streaming id j r)
        ∙ both (id == j) (any (λ (entry : String × ℕ). entry.1 == j) m) (is_streaming j r))

close_streams-routes :
    (m : Dict String ℕ) (r : MessageRouter)
    → ((close_streams m r).0.routes ≡ r.routes) × ((close_streams m r).0.closed ≡ r.closed)
unfolding close_streams
close_streams-routes [] r = (refl, refl)
close_streams-routes ((channel, id) ∷ m) r =
    let first = close_stream-routes id r in
    let rest = close_streams-routes m (close_stream id r).0 in (rest.0 ∙ first.0, rest.1 ∙ first.1)

any-routed :
    (channel : String) (k : ℕ) (m : Dict String ℕ)
    → get channel m ≡ some k
    → any (λ entry. entry.1 == k) m ≡ true
unfolding get
any-routed channel k [] there = cc
any-routed channel k ((c, i) ∷ m) there =
    ground (arith, there, any-routed channel k m, nat_eq.beq_iff i k)

current_routed :
    (j : ℕ) (r : MessageRouter)
    → any (λ entry. entry.1 == j) r.routes ≡ false
    → is_current j r ≡ false
current_routed j r nowhere = elim (Option-cases (get j r.handles)) [
  | inl unknown ↦ ap (holds (is_routed_by j r.routes)) unknown
  | inr (h, known) ↦
      ap (holds (is_routed_by j r.routes)) known
      ∙ elim (Option-cases (get h.spec.bus_channel r.routes)) [
        | inl free ↦ ap (holds (λ (i : ℕ). i == j)) free
        | inr (k, there) ↦ ap (holds (λ (i : ℕ). i == j)) there ∙ elim (Bool-cases (k == j)) [
          | inr other ↦ other
          | inl same ↦
              let found : any (λ (entry : String × ℕ). entry.1 == j) r.routes ≡ true =
                subst (λ i. any (λ (entry : String × ℕ). entry.1 == i) r.routes ≡ true)
                  ((nat_eq.beq_iff k j).0 same) (any-routed h.spec.bus_channel k r.routes there) in
              cc
        ]
      ]
]

abbrev emptied : MessageRouter → MessageRouter
emptied r = record r { routes = []; closed = true }

closed_streams :
    (j : ℕ) (r : MessageRouter)
    → ((i : ℕ) → is_streaming i r ≡ is_current i r)
    → is_streaming j (close_streams r.routes (emptied r)).0 ≡ false
closed_streams j r tracked =
    close_streams-is_streaming j r.routes (emptied r)
    ∙ elim (Bool-cases (any (λ (entry : String × ℕ). entry.1 == j) r.routes)) [
      | inl routed ↦ rw routed refl
      | inr nowhere ↦ rw nowhere (tracked j ∙ current_routed j r nowhere)
    ]

-- A router without routes whose streams are closed.
without_routes :
    (r : MessageRouter) → r.routes ≡ [] → ((j : ℕ) → is_streaming j r ≡ false) → IsTracked r
unfolding get
without_routes r none_left silent = (
  λ j.
      silent j
      ∙ sym (
          ap (λ (routes : Dict String ℕ). holds (is_routed_by j routes) (get j r.handles)) none_left
          ∙ elim (Option-cases (get j r.handles)) [
            | inl unknown ↦ ap (holds (is_routed_by j [])) unknown
            | inr (h, known) ↦ ap (holds (is_routed_by j [])) known
          ]),
  λ channel. made_from r.handles r.routes channel (inl (ap (get channel) none_left)),
)

-- After Close there is no route.
abbrev pub IsShut : MessageRouter → Type 0
IsShut r = (r.closed ≡ false) ⊎ (r.routes ≡ [])

closed_already : (r : MessageRouter) → r.closed ≡ true → (close_router r).0 ≡ r
unfolding close_router
closed_already r shut_down =
    ap (λ (b : Bool). (if b then (r, []) else close_streams r.routes (emptied r)).0) shut_down

closing :
    (r : MessageRouter)
    → r.closed ≡ false
    → (close_router r).0 ≡ (close_streams r.routes (emptied r)).0
unfolding close_router
closing r is_open =
    ap (λ (b : Bool). (if b then (r, []) else close_streams r.routes (emptied r)).0) is_open

-- A router that is shut and has no route has no open stream.
silent : (j : ℕ) (r : MessageRouter) → IsTracked r → r.routes ≡ [] → is_streaming j r ≡ false
silent j r (tracked, made) none_left =
    tracked j ∙ current_routed j r (ap (any (λ (entry : String × ℕ). entry.1 == j)) none_left)

abbrev pub IsSilent : MessageRouter → Type 0
IsSilent r = IsTracked r × (r.routes ≡ []) × ((j : ℕ) → is_streaming j r ≡ false)

pub close_router-IsSilent :
    (r : MessageRouter) → IsTracked r → IsShut r → IsSilent (close_router r).0
close_router-IsSilent r tracked is_shut = elim (Bool-cases r.closed) [
  | inl shut_down ↦
      let none_left : r.routes ≡ [] = elim is_shut [ inl is_open ↦ cc | inr empty ↦ empty ] in
      subst IsSilent (sym (closed_already r shut_down))
        (tracked, none_left, λ j. silent j r tracked none_left)
  | inr is_open ↦
      let left = (close_streams r.routes (emptied r)).0 in
      let none_left : left.routes ≡ [] = (close_streams-routes r.routes (emptied r)).0 in
      let all_closed : (j : ℕ) → is_streaming j left ≡ false = λ j. closed_streams j r tracked.0 in
      subst IsSilent (sym (closing r is_open))
        (without_routes left none_left all_closed, none_left, all_closed)
]
