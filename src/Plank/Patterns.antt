-- ===== src/Plank/Patterns.antt =====
-- plank/pkg/routing/router.go: the patterns that a route registers with http.ServeMux.
use Prim.Native.String
use Prim.Native.Char.{Char, code}
use ranch.Prelude.{
  Bool, List, Option, String, [], any, false, if◌then◌else◌, map, nat_eq, none, not, refl, some,
  string_eq, true, ◌++◌, ◌==◌, ◌∷◌, ◌≡◌,
}
use ranch.Stomp.Config.{has_slash_suffix}
use ranch.Fabric.{is_present, strip_prefix}

unfoldable pub normalize_path : String → String
normalize_path path =
    if path == ""
    then "/"
    else if is_present (strip_prefix "/" path)
    then path
    else String.◌++◌ "/" path

-- strings.Split(path, "/"): the first segment and the others
abbrev with_char : Char → String × List String → String × List String
with_char c (s, ss) = (String.◌∷◌ c s, ss)

unfoldable pub split_path : String → String × List String
split_path String.[] = ("", [])
split_path (String.◌∷◌ c s) =
    let rest = split_path s in if code c == b'/' then ("", rest.0 ∷ rest.1) else with_char c rest

-- strings.Join(parts, "/")
unfoldable pub join_path : String → List String → String
join_path s [] = s
join_path s (t ∷ ts) = String.◌++◌ s (String.◌++◌ "/" (join_path t ts))

-- name[:idx] at the first ':'
unfoldable pub before_colon : String → String
before_colon String.[] = ""
before_colon (String.◌∷◌ c s) =
    let rest = before_colon s in if code c == b':' then "" else String.◌∷◌ c rest

-- segment[:len(segment)-1] of a segment that ends with '}'
unfoldable pub without_brace : String → Option String
without_brace String.[] = none
without_brace (String.◌∷◌ c String.[]) = if code c == b'}' then some "" else none
without_brace (String.◌∷◌ c (String.◌∷◌ d s)) = elim (without_brace (String.◌∷◌ d s)) [
  | none ↦ none
  | some rest ↦ some (String.◌∷◌ c rest)
]

unfoldable pub path_variable_name : String → Option String
path_variable_name segment = elim (strip_prefix "{" segment) [
  | none ↦ none
  | some inside ↦ elim (without_brace inside) [
    | none ↦ none
    | some name ↦ if before_colon name == "" then none else some (before_colon name)
  ]
]

unfoldable pub template_segment : String → String
template_segment part = elim (path_variable_name part) [
  | none ↦ part
  | some name ↦ String.◌++◌ "{" (String.◌++◌ name "}")
]

unfoldable pub serve_mux_path_template : String → String
serve_mux_path_template path =
    let normal = normalize_path path in
    let parts = split_path normal in
    if normal == "/"
    then "/"
    else join_path (template_segment parts.0) (map template_segment parts.1)

unfoldable pub exact_mux_pattern : String → String
exact_mux_pattern path =
    if path == "/" then "/{$}" else if has_slash_suffix path then String.◌++◌ path "{$}" else path

-- Route.pathPatterns
unfoldable pub path_patterns : String → Bool → List String
path_patterns template prefix =
    let path = serve_mux_path_template template in
    if not prefix
    then exact_mux_pattern path ∷ []
    else if path == "/"
    then "/" ∷ []
    else if has_slash_suffix path
    then path ∷ []
    else path ∷ String.◌++◌ path "/" ∷ []

abbrev with_methods : List String → String → List String
with_methods [] pattern = []
with_methods (method ∷ methods) pattern =
    String.◌++◌ method (String.◌++◌ " " pattern) ∷ with_methods methods pattern

abbrev all_with_methods : List String → List String → List String
all_with_methods methods [] = []
all_with_methods methods (pattern ∷ patterns) =
    with_methods methods pattern ++ all_with_methods methods patterns

-- Route.dispatchPatterns
unfoldable pub dispatch_patterns : String → Bool → List String → List String
dispatch_patterns template prefix [] = path_patterns template prefix
dispatch_patterns template prefix (method ∷ methods) =
    all_with_methods (method ∷ methods) (path_patterns template prefix)

unfoldable pub method_allowed : List String → String → Bool
method_allowed [] request_method = true
method_allowed (method ∷ methods) request_method = any (λ m. m == request_method) (method ∷ methods)

t1 : path_patterns "api/{id:[0-9]+}/x" false ≡ "/api/{id}/x" ∷ []
unfolding path_patterns serve_mux_path_template normalize_path strip_prefix split_path
    template_segment path_variable_name before_colon without_brace join_path exact_mux_pattern
    has_slash_suffix
t1 = refl

t2 : dispatch_patterns "/api" true ("GET" ∷ []) ≡ "GET /api" ∷ "GET /api/" ∷ []
unfolding dispatch_patterns path_patterns serve_mux_path_template normalize_path strip_prefix
    split_path template_segment path_variable_name before_colon without_brace join_path
    exact_mux_pattern has_slash_suffix
t2 = refl
