-- ===== src/Plank/Middleware.antt =====
-- plank/pkg/middleware/middleware_manager.go: middleware that is set on one route, and taken off it. The
-- handler 0 is Go's nil function, what a map without the key gives; what middleware makes of a handler is
-- an http.HandlerFunc.
use Prim.Native.String
use Prim.Native.Char.{Char, code}
use ranch.Prelude.{
  Bool, List, Option, String, false, get_elem?, if◌then◌else◌, length, nat_eq, none, some,
  string_eq, suc, zero, ℕ, ◌==◌,
}
use ranch.Prelude.Dict.{Dict, get, put}
use ranch.Plank.Router.{Route, Router, get_route, set_handler, use_middleware, wrap}

pub record MiddlewareManager : Type 0 where
  pub endpoint_handler_map : Dict String ℕ
  pub original_handlers_map : Dict String ℕ

pub data MiddlewareResult : Type 0 where
  done no_such_route no_handler panicking : MiddlewareResult

-- The two parts of a string around its last '-'.
abbrev pub with_first : Char → Option (String × String) → Option (String × String)
with_first c none = none
with_first c (some (before, after)) = some (String.◌∷◌ c before, after)

abbrev pub dash_at : Char → String → Option (String × String)
dash_at c s = if String.◌∷◌ c String.[] == "-" then some ("", s) else none

abbrev pub first_or : Option (String × String) → Option (String × String) → Option (String × String)
first_or none b = b
first_or (some p) b = some p

-- extractUriVerbFromRoute, none where it slices with −1
unfoldable pub extract_uri_verb : String → Option (String × String)
extract_uri_verb String.[] = none
extract_uri_verb (String.◌∷◌ c s) = first_or (with_first c (extract_uri_verb s)) (dash_at c s)

unfoldable pub has_star_suffix : String → Bool
has_star_suffix String.[] = false
has_star_suffix (String.◌∷◌ c String.[]) = code c == b'*'
has_star_suffix (String.◌∷◌ c (String.◌∷◌ d s)) = has_star_suffix (String.◌∷◌ d s)

abbrev pub joined : String × String → String
joined (uri, verb) = String.◌++◌ uri (String.◌++◌ "-" verb)

abbrev pub joined_key : Option (String × String) → Option String
joined_key none = none
joined_key (some parts) = some (joined parts)

-- The key of a route in the maps, by its name.
unfoldable pub route_key : String → Option String
route_key name = if has_star_suffix name then some name else joined_key (extract_uri_verb name)

abbrev pub or_nil : Option ℕ → ℕ
or_nil none = 0
or_nil (some h) = h

-- The loop of the manager's buildMiddlewareChain: `n` is the index after the next one, and the last
-- argument is what it has built, none for nil.
unfoldable pub manager_loop : ℕ → List (ℕ → ℕ) → ℕ → Option ℕ → Option ℕ
manager_loop zero handlers original final = final
manager_loop (suc n) handlers original final =
    let current = if suc n == length handlers then original else or_nil final in
    manager_loop n handlers original (some (wrap (get_elem? handlers n) current))

unfoldable pub manager_chain : List (ℕ → ℕ) → ℕ → Option ℕ
manager_chain handlers original = manager_loop (length handlers) handlers original none

abbrev pub backed_up : Option ℕ → String → ℕ → Dict String ℕ → Dict String ℕ
backed_up none key original m = put key original m
backed_up (some old) key original m = m

-- SetNewMiddleware from the handler that the map has for the key. The backup stays if there is no
-- middleware, when the chain is nil and is asserted to be a function.
unfoldable pub apply_middleware :
    String
    → ℕ
    → ℕ
    → List (ℕ → ℕ)
    → MiddlewareManager
    → Router
    → (MiddlewareManager × Router) × MiddlewareResult
apply_middleware key original id middleware m r =
    let saved = record m {
      original_handlers_map =
          backed_up (get key m.original_handlers_map) key original m.original_handlers_map;
    } in
    elim (manager_chain middleware original) [
      | none ↦ ((saved, r), panicking)
      | some handler ↦ (
        (
          record saved { endpoint_handler_map = put key handler saved.endpoint_handler_map },
          set_handler id (some handler) r,
        ),
        done,
      )
    ]

-- The route is known by its address; none is nil.
unfoldable pub set_new_middleware :
    Option ℕ
    → List (ℕ → ℕ)
    → MiddlewareManager
    → Router
    → (MiddlewareManager × Router) × MiddlewareResult
set_new_middleware none middleware m r = ((m, r), no_such_route)
set_new_middleware (some id) middleware m r = elim (get id r.routes) [
  | none ↦ ((m, r), no_such_route)
  | some route ↦ elim (route_key route.name) [
    | none ↦ ((m, r), panicking)
    | some key ↦ elim (get key m.endpoint_handler_map) [
      | none ↦ ((m, r), no_handler)
      | some original ↦ apply_middleware key original id middleware m r
    ]
  ]
]

abbrev pub restore :
    String → ℕ → MiddlewareManager → Router → (MiddlewareManager × Router) × MiddlewareResult
restore key id m r =
    let original = or_nil (get key m.original_handlers_map) in
    (
      (
        record m { endpoint_handler_map = put key original m.endpoint_handler_map },
        set_handler id (some original) r,
      ),
      done,
    )

unfoldable pub remove_middleware :
    Option ℕ → MiddlewareManager → Router → (MiddlewareManager × Router) × MiddlewareResult
remove_middleware none m r = ((m, r), no_such_route)
remove_middleware (some id) m r = elim (get id r.routes) [
  | none ↦ ((m, r), no_such_route)
  | some route ↦ elim (joined_key (extract_uri_verb route.name)) [
    | none ↦ ((m, r), panicking)
    | some key ↦ elim (get key m.endpoint_handler_map) [
      | none ↦ ((m, r), no_handler)
      | some current ↦ restore key id m r
    ]
  ]
]

unfoldable pub get_route_by_uri_and_method : String → String → Router → Option Route
get_route_by_uri_and_method uri method r = get_route (String.◌++◌ uri (String.◌++◌ "-" method)) r

unfoldable pub get_static_route : String → Router → Option Route
get_static_route prefix r = get_route (String.◌++◌ prefix "*") r

-- SetGlobalMiddleware
unfoldable pub set_global_middleware : List (ℕ → ℕ) → Router → Router
set_global_middleware middleware r = use_middleware middleware r
