-- ===== src/Plank/Router.antt =====
-- plank/pkg/routing/router.go: routes, their names, and the tables that requests are looked up in.
-- A handler is a number and middleware a function on handlers; a route is known by its address, a
-- number. The mutex makes each operation one step.
use ranch.Prelude.{
  Bool, List, Option, String, [], false, get_elem?, if◌then◌else◌, length, map, nat_eq, none, not,
  some, string_eq, suc, true, zero, ℕ, ◌&&◌, ◌++◌, ◌==◌, ◌∷◌,
}
use ranch.Prelude.Dict.{Dict, delete, get, put}
use ranch.Plank.Patterns.{dispatch_patterns, method_allowed, normalize_path, path_patterns}

pub record Route : Type 0 where
  pub name : String
  pub path : String
  pub prefix : Bool
  pub methods : List String
  pub handler : Option ℕ

-- What routeHandler makes: the allowed methods, all of them where there is none, and the handler.
pub record RouteHandler : Type 0 where
  pub methods : List String
  pub handler : ℕ

-- dispatchMux and pathMux, by what was registered with each.
pub record MuxTables : Type 0 where
  pub dispatch_mux : Dict String RouteHandler
  pub path_mux : Dict String (Unit {0})

pub record Router : Type 0 where
  pub routes : Dict ℕ Route
  pub named : Dict String ℕ
  pub middleware : List (ℕ → ℕ)
  pub not_found_handler : Option ℕ
  pub method_not_allowed_handler : Option ℕ
  pub mux : Option MuxTables
  pub dirty : Bool

abbrev pub new_router : Router
new_router = record {
  routes = [];
  named = [];
  middleware = [];
  not_found_handler = none;
  method_not_allowed_handler = none;
  mux = none;
  dirty = true;
}

-- A read of a slice; an index out of range does not occur.
abbrev pub wrap : Option (ℕ → ℕ) → ℕ → ℕ
wrap none h = h
wrap (some f) h = f h

-- The loop of buildMiddlewareChain: `n` is the index after the next one.
unfoldable pub chain_loop : ℕ → List (ℕ → ℕ) → ℕ → ℕ
chain_loop zero middleware handler = handler
chain_loop (suc n) middleware handler =
    chain_loop n middleware (wrap (get_elem? middleware n) handler)

unfoldable pub build_middleware_chain : List (ℕ → ℕ) → ℕ → ℕ
build_middleware_chain middleware handler = chain_loop (length middleware) middleware handler

unfoldable pub register_pattern {ℓ} : {A : Type ℓ} → String → A → Dict String A → Dict String A
register_pattern pattern handler mux = elim (get pattern mux) [
  | some registered ↦ mux
  | none ↦ mux ++ (pattern, handler) ∷ []
]

unfoldable pub register_patterns {ℓ} :
    {A : Type ℓ} → List String → A → Dict String A → Dict String A
register_patterns [] handler mux = mux
register_patterns (pattern ∷ patterns) handler mux =
    register_patterns patterns handler (register_pattern pattern handler mux)

unfoldable pub register_route : List (ℕ → ℕ) → Route → MuxTables → MuxTables
register_route middleware route tables = elim route.handler [
  | none ↦ tables
  | some handler ↦ record {
    dispatch_mux =
        register_patterns (dispatch_patterns route.path route.prefix route.methods)
          (record { methods = route.methods; handler = build_middleware_chain middleware handler })
          tables.dispatch_mux;
    path_mux = register_patterns (path_patterns route.path route.prefix) tt tables.path_mux;
  }
]

-- The loop of rebuildMuxLocked
unfoldable pub register_routes : List (ℕ → ℕ) → Dict ℕ Route → MuxTables → MuxTables
register_routes middleware [] tables = tables
register_routes middleware ((id, route) ∷ routes) tables =
    register_routes middleware routes (register_route middleware route tables)

unfoldable pub build_mux : Router → MuxTables
build_mux r = register_routes r.middleware r.routes (record { dispatch_mux = []; path_mux = [] })

unfoldable pub rebuild_mux : Router → Router
rebuild_mux r = record r { mux = some (build_mux r); dirty = false }

-- snapshot: the router after it, and the tables
unfoldable pub snapshot_of : Option MuxTables → Bool → Router → Router × MuxTables
snapshot_of none dirty r = (rebuild_mux r, build_mux r)
snapshot_of (some tables) true r = (rebuild_mux r, build_mux r)
snapshot_of (some tables) false r = (r, tables)

abbrev pub snapshot : Router → Router × MuxTables
snapshot r = snapshot_of r.mux r.dirty r

-- Router.Use
unfoldable pub use_middleware : List (ℕ → ℕ) → Router → Router
use_middleware middleware r = record r { middleware = r.middleware ++ middleware; dirty = true }

-- `id` is the new route's address.
unfoldable pub add_route : ℕ → String → Bool → Router → Router
add_route id path prefix r = record r {
  routes =
      r.routes
      ++ (
        id,
        record {
          name = "";
          path = normalize_path path;
          prefix = prefix;
          methods = [];
          handler = none;
        },
      )
        ∷ [];
  dirty = true;
}

-- A write to a field of the route at an address.
unfoldable pub update_route : ℕ → (Route → Route) → Dict ℕ Route → Dict ℕ Route
update_route id f routes = elim (get id routes) [
  | none ↦ routes
  | some route ↦ put id (f route) routes
]

-- The names without the route's own.
unfoldable pub unnamed : ℕ → String → Dict String ℕ → Dict String ℕ
unnamed id name named = elim (get name named) [
  | none ↦ named
  | some owner ↦ if not (name == "") && owner == id then delete name named else named
]

-- Route.Name
unfoldable pub set_name : ℕ → String → Router → Router
set_name id name r = elim (get id r.routes) [
  | none ↦ r
  | some route ↦
      let others = unnamed id route.name r.named in
      record r {
        named = if name == "" then others else put name id others;
        routes = update_route id (λ old. record old { name = name }) r.routes;
      }
]

-- Route.Handler
unfoldable pub set_handler : ℕ → Option ℕ → Router → Router
set_handler id handler r = record r {
  routes = update_route id (λ old. record old { handler = handler }) r.routes;
  dirty = true;
}

-- Route.Methods
unfoldable pub set_methods : ℕ → List String → Router → Router
set_methods id methods r = record r {
  routes = update_route id (λ old. record old { methods = methods }) r.routes;
  dirty = true;
}

-- Router.Get
unfoldable pub get_route : String → Router → Option Route
get_route name r = elim (get name r.named) [ none ↦ none | some id ↦ get id r.routes ]

-- CloneExcluding: the clones' addresses are those of the routes, in another router.
unfoldable pub clone_routes :
    Dict String (Unit {0})
    → Dict ℕ Route
    → Dict ℕ Route × Dict String ℕ
    → Dict ℕ Route × Dict String ℕ
clone_routes names [] done = done
clone_routes names ((id, route) ∷ routes) (kept, named) =
    let with_name = if route.name == "" then named else put route.name id named in
    clone_routes names routes (elim (get route.name names) [
      | some excluded ↦ (kept, named)
      | none ↦ (kept ++ (id, route) ∷ [], with_name)
    ])

unfoldable pub clone_excluding : Dict String (Unit {0}) → Router → Router
clone_excluding names r =
    let cloned = clone_routes names r.routes ([], []) in
    record new_router {
      not_found_handler = r.not_found_handler;
      method_not_allowed_handler = r.method_not_allowed_handler;
      middleware = r.middleware;
      routes = cloned.0;
      named = cloned.1;
    }

-- How a request is answered; none is the answer of net/http for the case.
pub data Served : Type 0 where
  handled : ℕ → Served
  method_refused not_found : Option ℕ → Served

-- The request goes on to the handler of the pattern that the mux has chosen.
unfoldable pub serve_pattern : String → Option RouteHandler → Option ℕ → Option ℕ → Served
serve_pattern request_method none missing refused = not_found missing
serve_pattern request_method (some route) missing refused =
    if method_allowed route.methods request_method
    then handled route.handler
    else method_refused refused

-- What the tables say, with the router's two handlers for what it does not serve. `choose` is the pattern that ServeMux.Handler finds among those registered,
-- for the request with the given method and path.
unfoldable pub serve_from :
    (List String → String → String → Option String)
    → String
    → String
    → MuxTables
    → Option ℕ
    → Option ℕ
    → Served
serve_from choose request_method path tables missing refused =
    elim (choose (map (λ entry. entry.0) tables.dispatch_mux) request_method path) [
      | some pattern ↦
          serve_pattern request_method (get pattern tables.dispatch_mux) missing refused
      | none ↦ elim (choose (map (λ entry. entry.0) tables.path_mux) request_method path) [
        | some pattern ↦ method_refused refused
        | none ↦ not_found missing
      ]
    ]

-- ServeHTTP
unfoldable pub serve_http :
    (List String → String → String → Option String) → String → String → Router → Router × Served
serve_http choose request_method path r =
    let shot = snapshot r in
    (
      shot.0,
      serve_from choose request_method path shot.1 shot.0.not_found_handler
          shot.0.method_not_allowed_handler,
    )
