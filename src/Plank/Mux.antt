-- ===== src/Plank/Mux.antt =====
-- plank/pkg/routing/router.go: the tables that are kept between requests are those of the routes.
use ranch.Prelude.{
  Bool, Bool-cases, List, Option, Option-cases, String, [], ap, arith, false, inl, inr, nat_eq,
  none, refl, some, string_eq, true, ℕ, ◌==◌, ◌∷◌, ◌≡◌, ◌⊎◌,
}
use ranch.Prelude.Dict.{Dict, get, put}
use ranch.Plank.Router.{
  MuxTables, Route, Router, add_route, build_mux, new_router, rebuild_mux, register_route,
  register_routes, serve_from, serve_http, set_handler, set_methods, set_name, snapshot_of,
  update_route, use_middleware,
}

-- What is done to a router, requests included.
pub data RouterOp : Type 0 where
  used : List (ℕ → ℕ) → RouterOp
  route_added : ℕ → String → Bool → RouterOp
  route_named : ℕ → String → RouterOp
  handler_assigned : ℕ → Option ℕ → RouterOp
  methods_restricted : ℕ → List String → RouterOp
  served : (List String → String → String → Option String) → String → String → RouterOp

unfoldable pub router_step : RouterOp → Router → Router
router_step (used middleware) r = use_middleware middleware r
router_step (route_added id path prefix) r = add_route id path prefix r
router_step (route_named id name) r = set_name id name r
router_step (handler_assigned id handler) r = set_handler id handler r
router_step (methods_restricted id methods) r = set_methods id methods r
router_step (served choose request_method path) r = (serve_http choose request_method path r).0

abbrev pub router_run : List RouterOp → Router → Router
router_run [] r = r
router_run (op ∷ ops) r = router_run ops (router_step op r)

-- The tables are to be built again, or they are what building them again would give.
abbrev pub IsCurrent : Router → Type 0
IsCurrent r = (r.dirty ≡ true) ⊎ (r.mux ≡ none) ⊎ (r.mux ≡ some (build_mux r))

abbrev renamed : String → Route → Route
renamed name route = record route { name = name }

register_renamed :
    (middleware : List (ℕ → ℕ)) (name : String) (route : Route) (tables : MuxTables)
    → register_route middleware (renamed name route) tables ≡ register_route middleware route tables
unfolding register_route
register_renamed middleware name route tables = refl

register-put :
    (id : ℕ) (name : String) (middleware : List (ℕ → ℕ)) (route : Route) (routes : Dict ℕ Route)
    (tables : MuxTables)
    → get id routes ≡ some route
    → register_routes middleware (put id (renamed name route) routes) tables
      ≡ register_routes middleware routes tables
unfolding register_routes get put
register-put id name middleware route [] tables known = cc
register-put id name middleware route ((j, other) ∷ routes) tables known =
    elim (Bool-cases (j == id)) [
      | inl same ↦
          let here : other ≡ route = ground (arith, same, known) in
          rw (same, here)
            (ap (register_routes middleware routes) (register_renamed middleware name route tables))
      | inr different ↦
          let there : get id routes ≡ some route = ground (arith, different, known) in
          rw different (
            register-put id name middleware route routes (register_route middleware other tables)
              there)
    ]

register-update_route :
    (id : ℕ) (name : String) (middleware : List (ℕ → ℕ)) (routes : Dict ℕ Route)
    (tables : MuxTables)
    → register_routes middleware (update_route id (renamed name) routes) tables
      ≡ register_routes middleware routes tables
unfolding update_route
register-update_route id name middleware routes tables = elim (Option-cases (get id routes)) [
  | inl unknown ↦ rw (unknown, update_route) refl
  | inr (route, known) ↦
      rw (known, update_route) (register-put id name middleware route routes tables known)
]

set_name-mux :
    (id : ℕ) (name : String) (r : Router)
    → (build_mux (set_name id name r) ≡ build_mux r)
      × ((set_name id name r).mux ≡ r.mux)
      × ((set_name id name r).dirty ≡ r.dirty)
unfolding set_name build_mux
set_name-mux id name r = elim (Option-cases (get id r.routes)) [
  | inl unknown ↦ rw (unknown, set_name) (refl, refl, refl)
  | inr (route, known) ↦
      rw (known, set_name)
        (
          register-update_route id name r.middleware r.routes
              (record { dispatch_mux = []; path_mux = [] }),
          refl,
          refl,
        )
]

set_name-IsCurrent :
    (id : ℕ) (name : String) (r : Router) → IsCurrent r → IsCurrent (set_name id name r)
set_name-IsCurrent id name r current =
    let kept = set_name-mux id name r in rw (kept.0, kept.1, kept.2) current

rebuilt-IsCurrent : (r : Router) → IsCurrent (rebuild_mux r)
unfolding rebuild_mux build_mux
rebuilt-IsCurrent r = inr (inr refl)

-- What a router with other tables and another mark would do: nothing else of it matters.
snapshot_of_lem :
    (mux : Option MuxTables) (dirty : Bool) (r : Router)
    → (dirty ≡ true) ⊎ (mux ≡ none) ⊎ (mux ≡ some (build_mux r))
    → IsCurrent r
    → ((snapshot_of mux dirty r).1 ≡ build_mux r)
      × IsCurrent (snapshot_of mux dirty r).0
      × ((snapshot_of mux dirty r).0.not_found_handler ≡ r.not_found_handler)
      × ((snapshot_of mux dirty r).0.method_not_allowed_handler ≡ r.method_not_allowed_handler)
unfolding snapshot_of rebuild_mux
snapshot_of_lem none dirty r agrees current = (refl, rebuilt-IsCurrent r, refl, refl)
snapshot_of_lem (some tables) true r agrees current = (refl, rebuilt-IsCurrent r, refl, refl)
snapshot_of_lem (some tables) false r (inl dirty) current = cc
snapshot_of_lem (some tables) false r (inr (inl without)) current = cc
snapshot_of_lem (some tables) false r (inr (inr built)) current = (cc, current, refl, refl)

router_step-IsCurrent : (op : RouterOp) (r : Router) → IsCurrent r → IsCurrent (router_step op r)
unfolding router_step use_middleware add_route set_handler set_methods serve_http
router_step-IsCurrent (used middleware) r current = inl refl
router_step-IsCurrent (route_added id path prefix) r current = inl refl
router_step-IsCurrent (route_named id name) r current = set_name-IsCurrent id name r current
router_step-IsCurrent (handler_assigned id handler) r current = inl refl
router_step-IsCurrent (methods_restricted id methods) r current = inl refl
router_step-IsCurrent (served choose request_method path) r current =
    (snapshot_of_lem r.mux r.dirty r current current).1

router_run-IsCurrent :
    (ops : List RouterOp) (r : Router) → IsCurrent r → IsCurrent (router_run ops r)
router_run-IsCurrent [] r current = current
router_run-IsCurrent (op ∷ ops) r current =
    router_run-IsCurrent ops (router_step op r) (router_step-IsCurrent op r current)

-- However a router is configured and whatever requests it serves in between, it answers a request as it would with tables built anew from its routes and middleware: what is kept between requests is never stale.
pub serve-router_run :
    (ops : List RouterOp) (choose : List String → String → String → Option String)
    (request_method path : String)
    → let r = router_run ops new_router in
      (serve_http choose request_method path r).1
      ≡ serve_from choose request_method path
          (build_mux r)
          r.not_found_handler
          r.method_not_allowed_handler
unfolding serve_http
serve-router_run ops choose request_method path =
    let r = router_run ops new_router in
    let current = router_run-IsCurrent ops new_router (inl refl) in
    let shot = snapshot_of_lem r.mux r.dirty r current current in
    rw shot.0 (rw shot.2 (rw shot.3 refl))
