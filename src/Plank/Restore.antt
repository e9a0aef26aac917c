-- ===== src/Plank/Restore.antt =====
-- plank/pkg/middleware/middleware_manager.go: what is taken off a route after it was set.
use Prim.Native.String
use Prim.Native.String.append as Append
use Prim.Native.Char.{Char}
use ranch.Prelude.{
  Bool-cases, List, Option, String, [], ap, arith, eqb_refl, false, inl, inr, nat_eq, none, refl,
  some, string_eq, subst, sym, ℕ, ◌==◌, ◌∙◌, ◌∷◌, ◌≡◌, ◌⊎◌,
}
use ranch.Prelude.Dict.{Dict, get, get-put, put}
use ranch.Plank.Router.{Route, Router, build_middleware_chain, set_handler, update_route}
use ranch.Plank.Middleware.{
  MiddlewareManager, MiddlewareResult, apply_middleware, backed_up, dash_at, done, extract_uri_verb,
  first_or, has_star_suffix, joined_key, remove_middleware, route_key, set_new_middleware,
  with_first,
}
use ranch.Plank.Chains.{manager_chain_lem}

-- The parts of a name around its last '-' make up the name.
joined-first :
    (c : Char) (s : String) (found : Option (String × String))
    → joined_key found ≡ none ⊎ joined_key found ≡ some s
    → joined_key (first_or (with_first c found) (dash_at c s)) ≡ none
      ⊎ joined_key (first_or (with_first c found) (dash_at c s)) ≡ some (String.◌∷◌ c s)
joined-first c s none h = elim (Bool-cases (String.◌∷◌ c String.[] == "-")) [
  | inl dash ↦
      let same : String.◌++◌ "-" s ≡ String.◌∷◌ c s =
        ap (λ t. String.◌++◌ t s) (sym ((string_eq.beq_iff (String.◌∷◌ c String.[]) "-").0 dash))
        ∙ (Append.cons c String.[] s ∙ ap (λ t. String.◌∷◌ c t) (Append.nil s)) in
      rw dash (inr (ap some (Append.nil (String.◌++◌ "-" s) ∙ same)))
  | inr other ↦ rw other (inl refl)
]
joined-first c s (some (before, after)) (inl h) = cc
joined-first c s (some (before, after)) (inr h) =
    inr (rw (Append.cons c before (String.◌++◌ "-" after)) cc)

joined-extract_uri_verb :
    (name : String)
    → joined_key (extract_uri_verb name) ≡ none ⊎ joined_key (extract_uri_verb name) ≡ some name
unfolding extract_uri_verb
joined-extract_uri_verb String.[] = inl refl
joined-extract_uri_verb (String.◌∷◌ c s) =
    joined-first c s (extract_uri_verb s) (joined-extract_uri_verb s)

-- The name of a route that stands for a URI and a method is its key.
key_of :
    (name : String) (parts : String × String)
    → extract_uri_verb name ≡ some parts
    → has_star_suffix name ≡ false
    → (route_key name ≡ some name) × (joined_key (extract_uri_verb name) ≡ some name)
unfolding route_key
key_of name parts split plain =
    let named : joined_key (extract_uri_verb name) ≡ some name =
      elim (joined-extract_uri_verb name) [
        | inl nothing ↦ ground (arith, split, nothing)
        | inr whole ↦ whole
      ] in
    (rw (plain, route_key) named, named)

-- Middleware to set on a route, some at each time.
abbrev pub MiddlewareSet : Type 0
MiddlewareSet = (ℕ → ℕ) × List (ℕ → ℕ)

abbrev pub set_all :
    ℕ → List MiddlewareSet → MiddlewareManager × Router → MiddlewareManager × Router
set_all id [] state = state
set_all id ((f, fs) ∷ sets) state =
    set_all id sets (set_new_middleware (some id) (f ∷ fs) state.0 state.1).0

-- The route at an address is there under a name, and the map has a handler for it.
abbrev pub IsServed : ℕ → String → MiddlewareManager × Router → Type 0
IsServed id name (m, r) =
    ((route : Route) × (get id r.routes ≡ some route) × (route.name ≡ name))
    × ((current : ℕ) × (get name m.endpoint_handler_map ≡ some current))

set_handler-IsServed :
    (id : ℕ) (name : String) (h : ℕ) (endpoints originals : Dict String ℕ) (m : MiddlewareManager)
    (r : Router)
    → IsServed id name (m, r)
    → IsServed id name (
      record { endpoint_handler_map = put name h endpoints; original_handlers_map = originals },
      set_handler id (some h) r,
    )
unfolding set_handler update_route
set_handler-IsServed id name h endpoints originals m r ((route, known, named), current) =
    let written = record route { handler = some h } in
    (
      (
        written,
        rw (known, update_route)
            (rw (get-put id id written r.routes) (ground (arith, nat_eq.beq_iff id id))),
        named,
      ),
      (h, rw (get-put name name h endpoints) (ground (arith, eqb_refl name))),
    )

-- The manager after middleware has been set from a handler.
abbrev after_set :
    ℕ → String → ℕ → Dict String ℕ → MiddlewareManager × Router → MiddlewareManager × Router
after_set id name h originals (m, r) = (
  record {
    endpoint_handler_map = put name h m.endpoint_handler_map;
    original_handlers_map = originals;
  },
  set_handler id (some h) r,
)

set_step :
    (id : ℕ) (name : String) (parts : String × String) (f : ℕ → ℕ) (fs : List (ℕ → ℕ))
    (route : Route) (current : ℕ) (m : MiddlewareManager) (r : Router)
    → extract_uri_verb name ≡ some parts
    → has_star_suffix name ≡ false
    → get id r.routes ≡ some route
    → route.name ≡ name
    → get name m.endpoint_handler_map ≡ some current
    → set_new_middleware (some id) (f ∷ fs) m r ≡ (
      after_set id name
          (build_middleware_chain (f ∷ fs) current)
          (backed_up (get name m.original_handlers_map) name current m.original_handlers_map)
          (m, r),
      done,
    )
unfolding set_new_middleware apply_middleware
set_step id name parts f fs route current m r split plain known named there =
    let key : route_key route.name ≡ some name =
      ap route_key named ∙ (key_of name parts split plain).0 in
    rw (known, set_new_middleware)
      (rw (key) (rw (there) (rw (manager_chain_lem f fs current, apply_middleware) refl)))

remove_step :
    (id : ℕ) (name : String) (parts : String × String) (route : Route) (current original : ℕ)
    (m : MiddlewareManager) (r : Router)
    → extract_uri_verb name ≡ some parts
    → has_star_suffix name ≡ false
    → get id r.routes ≡ some route
    → route.name ≡ name
    → get name m.endpoint_handler_map ≡ some current
    → get name m.original_handlers_map ≡ some original
    → remove_middleware (some id) m r
      ≡ (after_set id name original m.original_handlers_map (m, r), done)
unfolding remove_middleware
remove_step id name parts route current original m r split plain known named there backup =
    let key : joined_key (extract_uri_verb route.name) ≡ some name =
      ap (λ n. joined_key (extract_uri_verb n)) named ∙ (key_of name parts split plain).1 in
    rw (known, remove_middleware) (rw (key) (rw (there) (rw (backup) refl)))

-- Served, with a backup of the handler that was there at first.
abbrev IsWrapped : ℕ → String → ℕ → MiddlewareManager × Router → Type 0
IsWrapped id name original state =
    IsServed id name state × (get name state.0.original_handlers_map ≡ some original)

backup-kept :
    (name : String) (current original : ℕ) (m : Dict String ℕ)
    → (get name m ≡ none) × (current ≡ original) ⊎ get name m ≡ some original
    → get name (backed_up (get name m) name current m) ≡ some original
backup-kept name current original m (inl (free, same)) =
    rw free (rw (get-put name name current m) (ground (arith, same, eqb_refl name)))
backup-kept name current original m (inr there) = rw (there, backed_up) there

set-IsWrapped :
    (id : ℕ) (name : String) (parts : String × String) (f : ℕ → ℕ) (fs : List (ℕ → ℕ))
    (current original : ℕ) (m : MiddlewareManager) (r : Router)
    → extract_uri_verb name ≡ some parts
    → has_star_suffix name ≡ false
    → (route : Route) → get id r.routes ≡ some route
    → route.name ≡ name
    → get name m.endpoint_handler_map ≡ some current
    → (get name m.original_handlers_map ≡ none) × (current ≡ original)
      ⊎ get name m.original_handlers_map ≡ some original
    → IsWrapped id name original (set_new_middleware (some id) (f ∷ fs) m r).0
set-IsWrapped id name parts f fs current original m r split plain route known named there backup =
    let backups = m.original_handlers_map in
    let originals = backed_up (get name backups) name current backups in
    let step = set_step id name parts f fs route current m r split plain known named there in
    subst
      (λ (result : (MiddlewareManager × Router) × MiddlewareResult).
        IsWrapped id name original result.0)
      (sym step)
      (
        set_handler-IsServed id name (build_middleware_chain (f ∷ fs) current)
            m.endpoint_handler_map originals m r ((route, known, named), (current, there)),
        backup-kept name current original backups backup,
      )

set_all-IsWrapped :
    (id : ℕ) (name : String) (parts : String × String) (sets : List MiddlewareSet) (original : ℕ)
    (state : MiddlewareManager × Router)
    → extract_uri_verb name ≡ some parts
    → has_star_suffix name ≡ false
    → IsWrapped id name original state
    → IsWrapped id name original (set_all id sets state)
set_all-IsWrapped id name parts [] original state split plain is_set = is_set
set_all-IsWrapped id name parts ((f, fs) ∷ sets) original (m, r) split plain
      (((route, known, named), (current, there)), backup) =
    set_all-IsWrapped id name parts sets original (set_new_middleware (some id) (f ∷ fs) m r).0
      split plain
      (set-IsWrapped id name parts f fs current original m r split plain route known named there
        (inr backup))

restored :
    (id : ℕ) (name : String) (parts : String × String) (original : ℕ) (m : MiddlewareManager)
    (r : Router)
    → extract_uri_verb name ≡ some parts
    → has_star_suffix name ≡ false
    → IsWrapped id name original (m, r)
    → let removed = remove_middleware (some id) m r in
      (removed.1 ≡ done)
      × (get name removed.0.0.endpoint_handler_map ≡ some original)
      × (removed.0.1 ≡ set_handler id (some original) r)
restored id name parts original m r split plain
      (((route, known, named), (current, there)), backup) =
    let back = get-put name name original m.endpoint_handler_map in
    rw (remove_step id name parts route current original m r split plain known named there backup)
      (refl, rw back (ground (arith, eqb_refl name)), refl)

-- However often middleware is set on a route of a URI and a method that the manager has a handler and no backup of, some each time, its removal succeeds and brings back the handler that the manager had before the first time, in the manager's map and as the handler of the route.
pub remove-set_new_middleware :
    (id : ℕ) (name : String) (parts : String × String) (route : Route) (original : ℕ) (f : ℕ → ℕ)
    (fs : List (ℕ → ℕ)) (sets : List MiddlewareSet) (m : MiddlewareManager) (r : Router)
    → extract_uri_verb name ≡ some parts
    → has_star_suffix name ≡ false
    → get id r.routes ≡ some route
    → route.name ≡ name
    → get name m.endpoint_handler_map ≡ some original
    → get name m.original_handlers_map ≡ none
    → let state = set_all id ((f, fs) ∷ sets) (m, r) in
      let removed = remove_middleware (some id) state.0 state.1 in
      (removed.1 ≡ done)
      × (get name removed.0.0.endpoint_handler_map ≡ some original)
      × (removed.0.1 ≡ set_handler id (some original) state.1)
remove-set_new_middleware id name parts route original f fs sets m r split plain known named there
      free =
    let first = (set_new_middleware (some id) (f ∷ fs) m r).0 in
    let state = set_all id sets first in
    restored id name parts original state.0 state.1 split plain (
      set_all-IsWrapped id name parts sets original first split plain (
        set-IsWrapped id name parts f fs original original m r split plain route known named there
          (inl (free, refl))))
