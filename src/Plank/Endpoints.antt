-- ===== src/Plank/Endpoints.antt =====
-- plank/pkg/server/rest_bridge_registry.go: which endpoints have a handler, over the life of the registry.
use ranch.Prelude.{
  Bool, Bool-cases, List, Option, Option-cases, String, [], any, ap, arith, count_if,
  count_if-append, false, if◌then◌else◌, inl, inr, nat_eq, none, not, refl, string_eq, subst, true,
  ℕ, ◌&&◌, ◌++◌, ◌+◌, ◌<◌, ◌==◌, ◌||◌, ◌∙◌, ◌∷◌, ◌≡◌, ◌⊎◌,
}
use ranch.Prelude.Dict.{Dict, delete, get, get-delete, get-put, put}
use ranch.Plank.Router.{Router}
use ranch.Plank.Bridges.{
  BridgeConfig, BridgeRegistry, MatchMode, add_bridge, bridge_endpoint_handler_key,
  clear_for_service, delete_all, endpoints_of, ensure_message_bridge, set_bridge, set_router,
  with_endpoints,
}
use ranch.Fabric.{is_present}

-- What is done to the registry.
pub data BridgeEvent : Type 0 where
  bridge_set : Option ℕ → (String → ℕ → ℕ → ℕ) → ℕ → BridgeConfig → MatchMode → BridgeEvent
  service_cleared : String → BridgeEvent
  router_set : Router → BridgeEvent

unfoldable pub bridge_step : BridgeEvent → BridgeRegistry → BridgeRegistry
bridge_step (bridge_set given build_handler id config mode) r =
    set_bridge given build_handler id config mode r
bridge_step (service_cleared channel) r = (clear_for_service channel r).0
bridge_step (router_set router) r = set_router router r

abbrev pub bridge_run : List BridgeEvent → BridgeRegistry → BridgeRegistry
bridge_run [] r = r
bridge_run (e ∷ es) r = bridge_run es (bridge_step e r)

-- How often a key stands in the lists of all services.
abbrev pub count_key : String → List String → ℕ
count_key key keys = count_if (λ k. k == key) keys

abbrev pub occurrences : String → Dict String (List String) → ℕ
occurrences key [] = 0
occurrences key ((channel, keys) ∷ m) = count_key key keys + occurrences key m

abbrev pub one_if : Bool → ℕ
one_if b = if b then 1 else 0

-- An endpoint has a handler exactly when one service has it, once.
abbrev pub IsBridged : BridgeRegistry → Type 0
IsBridged r =
    (key : String)
    → occurrences key r.service_chan_to_bridge_endpoints
      ≡ one_if (is_present (get key r.endpoint_handler_map))

occurrences-put :
    (key channel : String) (keys : List String) (m : Dict String (List String))
    → occurrences key (put channel keys m) + count_key key (endpoints_of (get channel m))
      ≡ occurrences key m + count_key key keys
unfolding put get
occurrences-put key channel keys [] = omega arith
occurrences-put key channel keys ((c, old) ∷ m) =
    let rest = occurrences-put key channel keys m in
    elim (Bool-cases (c == channel)) [
      | inl same ↦ rw same (omega arith)
      | inr other ↦ rw other (omega (arith, rest))
    ]

present-put :
    (key k : String) (h : ℕ) (m : Dict String ℕ)
    → is_present (get k (put key h m)) ≡ (key == k || is_present (get k m))
present-put key k h m =
    rw (get-put key k h m)
      (elim (Bool-cases (key == k)) [ inl same ↦ rw same refl | inr other ↦ rw other refl ])

and_false : (a : Bool) → (a && false) ≡ false
and_false true = refl
and_false false = refl

present-delete_all :
    (k : String) (keys : List String) (m : Dict String ℕ)
    → is_present (get k (delete_all keys m))
      ≡ (not (any (λ key. key == k) keys) && is_present (get k m))
unfolding delete_all
present-delete_all k [] m = refl
present-delete_all k (key ∷ keys) m =
    rw (present-delete_all k keys (delete key m), get-delete key k m)
      (elim (Bool-cases (key == k)) [
        | inl same ↦ rw same (and_false (not (any (λ (i : String). i == k) keys)))
        | inr other ↦ rw other refl
      ])

counted :
    (k : String) (keys : List String)
    → (any (λ key. key == k) keys ≡ false) × (count_key k keys ≡ 0)
      ⊎ (any (λ key. key == k) keys ≡ true) × (0 < count_key k keys)
counted k [] = inl (refl, refl)
counted k (key ∷ keys) = elim (Bool-cases (key == k)) [
  | inl same ↦ inr (rw same refl, rw same (omega arith))
  | inr other ↦ elim (counted k keys) [
    | inl (absent, nowhere) ↦ inl (rw other absent, rw other (omega (arith, nowhere)))
    | inr (there, somewhere) ↦ inr (rw other there, rw other (omega (arith, somewhere)))
  ]
]

clear-IsBridged :
    (channel : String) (r : BridgeRegistry)
    → IsBridged r
    → IsBridged (clear_for_service channel r).0
unfolding clear_for_service
clear-IsBridged channel r bridged k =
    let m = r.service_chan_to_bridge_endpoints in
    let keys = endpoints_of (get channel m) in
    let moved = occurrences-put k channel [] m in
    let before = bridged k in
    rw (present-delete_all k keys r.endpoint_handler_map) (elim (counted k keys) [
      | inl (absent, none_there) ↦ rw absent (omega (arith, moved, before, none_there))
      | inr (there, some_there) ↦ elim (Bool-cases (is_present (get k r.endpoint_handler_map))) [
        | inl present ↦
            let once : occurrences k m ≡ 1 = before ∙ ap one_if present in
            rw there (omega (arith, moved, once, some_there))
        | inr missing ↦
            let never : occurrences k m ≡ 0 = before ∙ ap one_if missing in
            rw there (omega (arith, moved, never, some_there))
      ]
    ])

with_endpoints-IsBridged :
    (channel : String) (r : BridgeRegistry)
    → IsBridged r
    → IsBridged (with_endpoints channel r)
      × ((with_endpoints channel r).endpoint_handler_map ≡ r.endpoint_handler_map)
with_endpoints-IsBridged channel r bridged =
    elim (Option-cases (get channel r.service_chan_to_bridge_endpoints)) [
      | inr (keys, there) ↦ rw (there, with_endpoints) (bridged, refl)
      | inl free ↦
          rw (free, with_endpoints)
            (
              (λ k.
                  let moved = occurrences-put k channel [] r.service_chan_to_bridge_endpoints in
                  let none_there : count_key k
                        (endpoints_of (get channel r.service_chan_to_bridge_endpoints))
                      ≡ 0 =
                    ap (λ found. count_key k (endpoints_of found)) free in
                  omega (arith, moved, none_there, bridged k)),
              refl,
            )
    ]

ensure-IsBridged :
    (given : Option ℕ) (channel : String) (r : BridgeRegistry)
    → IsBridged r
    → IsBridged (ensure_message_bridge given channel r).0
      × ((ensure_message_bridge given channel r).0.endpoint_handler_map ≡ r.endpoint_handler_map)
unfolding ensure_message_bridge
ensure-IsBridged given channel r bridged = elim (Option-cases (get channel r.message_bridge_map)) [
  | inr (bridge, there) ↦ rw (there, ensure_message_bridge) (bridged, refl)
  | inl free ↦ elim (Option-cases given) [
    | inl without ↦ rw (free, without, ensure_message_bridge) (bridged, refl)
    | inr (h, with_stream) ↦ rw (free, with_stream, ensure_message_bridge) (bridged, refl)
  ]
]

add_bridge-IsBridged :
    (id : ℕ) (config : BridgeConfig) (mode : MatchMode) (key : String) (handler : ℕ)
    (r : BridgeRegistry)
    → get key r.endpoint_handler_map ≡ none
    → IsBridged r
    → IsBridged (add_bridge id config mode key handler r)
unfolding add_bridge
add_bridge-IsBridged id config mode key handler r free bridged k =
    let m = r.service_chan_to_bridge_endpoints in
    let old = endpoints_of (get config.service_channel m) in
    let moved = occurrences-put k config.service_channel (old ++ key ∷ []) m in
    let split = count_if-append (λ (i : String). i == k) old (key ∷ []) in
    rw (present-put key k handler r.endpoint_handler_map) (elim (Bool-cases (key == k)) [
      | inr other ↦
          let no_more : count_key k (key ∷ []) ≡ 0 = rw other refl in
          rw other (omega (arith, moved, split, no_more, bridged k))
      | inl same ↦
          let one_more : count_key k (key ∷ []) ≡ 1 = rw same refl in
          let free_k : get k r.endpoint_handler_map ≡ none =
            subst (λ i. get i r.endpoint_handler_map ≡ none) ((string_eq.beq_iff key k).0 same)
              free in
          let never : occurrences k m ≡ 0 =
            bridged k ∙ ap (λ (found : Option ℕ). one_if (is_present found)) free_k in
          rw same (omega (arith, moved, split, one_more, never))
    ])

set-IsBridged :
    (given : Option ℕ) (build_handler : String → ℕ → ℕ → ℕ) (id : ℕ) (config : BridgeConfig)
    (mode : MatchMode) (r : BridgeRegistry)
    → IsBridged r
    → IsBridged (set_bridge given build_handler id config mode r)
unfolding set_bridge
set-IsBridged given build_handler id config mode r bridged =
    let key = bridge_endpoint_handler_key config mode in
    let listed = with_endpoints-IsBridged config.service_channel r bridged in
    let ready = with_endpoints config.service_channel r in
    let ensured = ensure-IsBridged given config.service_channel ready listed.0 in
    elim (Option-cases (get key r.endpoint_handler_map)) [
      | inr (old, there) ↦ rw (there, set_bridge) bridged
      | inl free ↦
          elim (Option-cases (ensure_message_bridge given config.service_channel ready).1) [
            | inl without ↦ rw (free, without, set_bridge) ensured.0
            | inr (bridge, with_bridge) ↦
                rw (free, with_bridge, set_bridge)
                  (add_bridge-IsBridged id config mode key
                    (build_handler config.service_channel config.request_builder bridge)
                    (ensure_message_bridge given config.service_channel ready).0
                    (ap (get key) (ensured.1 ∙ listed.1) ∙ free) ensured.0)
          ]
    ]

-- Where each endpoint with a handler stands in the list of one service, once, and the lists have no other endpoint, this stays so whatever bridges are set, also twice or on a channel that the bus does not know, and whatever services are cleared.
pub bridge_run-IsBridged :
    (es : List BridgeEvent) (r : BridgeRegistry) → IsBridged r → IsBridged (bridge_run es r)
unfolding bridge_step set_router
bridge_run-IsBridged [] r bridged = bridged
bridge_run-IsBridged (bridge_set given build_handler id config mode ∷ es) r bridged =
    bridge_run-IsBridged es (set_bridge given build_handler id config mode r)
      (set-IsBridged given build_handler id config mode r bridged)
bridge_run-IsBridged (service_cleared channel ∷ es) r bridged =
    bridge_run-IsBridged es (clear_for_service channel r).0 (clear-IsBridged channel r bridged)
bridge_run-IsBridged (router_set router ∷ es) r bridged =
    bridge_run-IsBridged es (set_router router r) bridged
