-- ===== src/Stomp/Config.antt =====
-- stompserver/config.go: heart-beat, application prefixes, and which destinations take requests.
use Prim.Native.Char.{code}
use Prim.Native.String
use text.Mathlib.Text.{starts_with}
use ranch.Prelude.{
  Bool, List, String, [], any, false, if◌then◌else◌, map, nat_eq, not, string_eq, ℕ, ◌&&◌, ◌==◌,
  ◌∷◌,
}

pub record StompConfig (M : Type 0) : Type 0 where
  pub heartbeat : ℕ  -- an int64 of milliseconds, in two's complement
  pub app_dest_prefix : List String
  pub middleware_registry : List (String × List M)

-- strings.HasSuffix(s, "/")
unfoldable pub has_slash_suffix : String → Bool
has_slash_suffix String.[] = false
has_slash_suffix (String.◌∷◌ c String.[]) = code c == b'/'
has_slash_suffix (String.◌∷◌ c (String.◌∷◌ d s)) = has_slash_suffix (String.◌∷◌ d s)

unfoldable pub normalize_prefix : String → String
unfolding has_slash_suffix
normalize_prefix prefix =
    if not (prefix == "") && not (has_slash_suffix prefix) then String.◌++◌ prefix "/" else prefix

unfoldable pub new_stomp_config : {M : Type 0} → ℕ → List String → StompConfig M
unfolding normalize_prefix
new_stomp_config heart_beat_ms prefixes = record {
  heartbeat = heart_beat_ms;
  app_dest_prefix = map normalize_prefix prefixes;
  middleware_registry = ("*", []) ∷ [];
}

unfoldable pub is_app_request_destination : {M : Type 0} → StompConfig M → String → Bool
is_app_request_destination config destination =
    any (λ prefix. not (prefix == "") && starts_with destination prefix) config.app_dest_prefix
