-- ===== src/Fabric.antt =====
-- transport/fabric/: the endpoint that ties channels of the bus to destinations of the STOMP server, and
-- its router. A handler that the bus gives is a number, a payload a number where it is passed on
-- only. What the bus answers is an argument; what the endpoint calls is a list of acts. The bus and
-- the router are there, as New makes them.
pub mod Router
pub mod Routes
pub mod Tracking
pub mod Closing
pub mod Shutting
pub mod Publishing
pub mod Silence
pub mod Lifetime
pub mod Forwarders
pub mod Balance
pub mod Replies
mod Tests
use Prim.Native.Char.{code}
use Prim.Native.String
use ranch.Prelude.{
  Bool, List, Option, String, [], false, if◌then◌else◌, inl, inr, nat_eq, none, not, some,
  string_eq, true, ℕ, ◌&&◌, ◌++◌, ◌==◌, ◌||◌, ◌∷◌, ◌⊎◌,
}
use ranch.Prelude.Dict.{Dict, delete, get, put}
use ranch.Stomp.Config.{has_slash_suffix}
use ranch.Model.{BrokerDestination}

pub record EndpointConfig : Type 0 where
  pub topic_prefix : String
  pub app_request_prefix : String
  pub app_request_queue_prefix : String
  pub user_queue_prefix : String

pub data ConfigError : Type 0 where
  invalid_topic_prefix missing_user_queue_prefix : ConfigError

pub record ChannelMapping : Type 0 where
  pub subs : Dict String (Unit {0})
  pub handler : Option ℕ
  pub auto_created : Bool

pub data FabricAct : Type 0 where
  listening : String → ℕ → FabricAct  -- ListenStream has given a handler
  closed_handler : ℕ → FabricAct
  created destroyed : String → FabricAct  -- a channel of the bus
  subscribe_event unsubscribe_event : String → FabricAct
  send_message : String → ℕ → FabricAct
  send_message_to_client : String → String → ℕ → FabricAct
  send_request : String → ℕ → Option BrokerDestination → FabricAct
  panicked : FabricAct

pub record Endpoint : Type 0 where
  pub config : EndpointConfig
  pub chan_mappings : Dict String ChannelMapping

unfoldable pub ensure_trailing_slash : String → String
ensure_trailing_slash s = if not (s == "") && not (has_slash_suffix s) then String.◌++◌ s "/" else s

unfoldable pub new_fabric_endpoint : EndpointConfig → Endpoint
new_fabric_endpoint config = record {
  config = record {
    topic_prefix = ensure_trailing_slash config.topic_prefix;
    app_request_prefix = ensure_trailing_slash config.app_request_prefix;
    app_request_queue_prefix = ensure_trailing_slash config.app_request_queue_prefix;
    user_queue_prefix = ensure_trailing_slash config.user_queue_prefix;
  };
  chan_mappings = [];
}

-- strings.HasPrefix(s, prefix) with the rest, s[len(prefix):]
unfoldable pub strip_prefix : String → String → Option String
strip_prefix String.[] s = some s
strip_prefix (String.◌∷◌ c p) String.[] = none
strip_prefix (String.◌∷◌ c p) (String.◌∷◌ d s) =
    let rest = strip_prefix p s in if code c == code d then rest else none

abbrev pub is_present {ℓ} : {A : Type ℓ} → Option A → Bool
is_present none = false
is_present (some a) = true

unfoldable pub validate : EndpointConfig → Option ConfigError
validate config =
    if config.topic_prefix == "" || not (is_present (strip_prefix "/" config.topic_prefix))
    then some invalid_topic_prefix
    else if not (config.app_request_queue_prefix == "") && config.user_queue_prefix == ""
    then some missing_user_queue_prefix
    else none

unfoldable pub new_endpoint : EndpointConfig → Endpoint ⊎ ConfigError
new_endpoint config = elim (validate config) [
  | none ↦ inl (new_fabric_endpoint config)
  | some e ↦ inr e
]

unfoldable pub get_channel_name_from_subscription : EndpointConfig → String → Option String
get_channel_name_from_subscription config destination =
    elim (strip_prefix config.topic_prefix destination) [
      | some name ↦ some name
      | none ↦
          if config.user_queue_prefix == ""
          then none
          else strip_prefix config.user_queue_prefix destination
    ]

unfoldable pub is_protected_destination : String → Bool
is_protected_destination destination = is_present (strip_prefix "_ranchInternal/" destination)

abbrev pub mapping_id : String → String → String
mapping_id con_id sub_id = String.◌++◌ con_id (String.◌++◌ "#" sub_id)

-- The forwarder of a new mapping, and whether its channel was made for it; none when it cannot be made.
-- `first` and `second` are what the two calls of ListenStream give.
unfoldable pub new_forwarder :
    Bool → Option ℕ → Option ℕ → String → Option (Option ℕ × Bool) × List FabricAct
new_forwarder has_route first second channel =
    if has_route then (some (none, false), []) else elim first [
      | some h ↦ (some (some h, false), listening channel h ∷ [])
      | none ↦ elim second [
        | some h ↦ (some (some h, true), created channel ∷ listening channel h ∷ [])
        | none ↦ (none, created channel ∷ [])
      ]
    ]

abbrev pub with_sub : String → String → ChannelMapping → Endpoint → Endpoint
with_sub channel id mapping fe = record fe {
  chan_mappings = put channel (record mapping { subs = put id tt mapping.subs }) fe.chan_mappings;
}

unfoldable pub add_subscription_to :
    Bool → Option ℕ → Option ℕ → String → String → Endpoint → Endpoint × List FabricAct
add_subscription_to has_route first second channel id fe =
    let made = new_forwarder has_route first second channel in
    elim (get channel fe.chan_mappings) [
      | some mapping ↦ (with_sub channel id mapping fe, subscribe_event channel ∷ [])
      | none ↦ elim made.0 [
        | none ↦ (fe, made.1)
        | some (handler, auto) ↦ (
          with_sub channel id (record { subs = []; handler = handler; auto_created = auto }) fe,
          made.1 ++ subscribe_event channel ∷ [],
        )
      ]
    ]

unfoldable pub add_subscription :
    (String → Bool)
    → Option ℕ
    → Option ℕ
    → String
    → String
    → String
    → Endpoint
    → Endpoint × List FabricAct
add_subscription has_route first second con_id sub_id destination fe =
    elim (get_channel_name_from_subscription fe.config destination) [
      | none ↦ (fe, [])
      | some channel ↦
          if is_protected_destination channel
          then (fe, [])
          else add_subscription_to (has_route channel) first second channel
              (mapping_id con_id sub_id) fe
    ]

abbrev pub close_handler : Option ℕ → List FabricAct
close_handler none = []
close_handler (some h) = closed_handler h ∷ []

-- What is left of a mapping without a subscription: nothing after the last one.
unfoldable pub drop_sub :
    String → ChannelMapping → Dict String (Unit {0}) → Endpoint → Endpoint × List FabricAct
drop_sub channel mapping [] fe = (
  record fe { chan_mappings = delete channel fe.chan_mappings },
  close_handler mapping.handler ++ (if mapping.auto_created then destroyed channel ∷ [] else []),
)
drop_sub channel mapping (s ∷ subs) fe = (
  record fe { chan_mappings = put channel (record mapping { subs = s ∷ subs }) fe.chan_mappings },
  [],
)

unfoldable pub remove_subscription_from : String → String → Endpoint → Endpoint × List FabricAct
remove_subscription_from channel id fe = elim (get channel fe.chan_mappings) [
  | none ↦ (fe, [])
  | some mapping ↦
      let left = drop_sub channel mapping (delete id mapping.subs) fe in
      if is_present (get id mapping.subs)
      then (left.0, left.1 ++ unsubscribe_event channel ∷ [])
      else (fe, [])
]

unfoldable pub remove_subscription : String → String → String → Endpoint → Endpoint × List FabricAct
remove_subscription con_id sub_id destination fe =
    elim (get_channel_name_from_subscription fe.config destination) [
      | none ↦ (fe, [])
      | some channel ↦ remove_subscription_from channel (mapping_id con_id sub_id) fe
    ]

-- detachSubscriptionForwarder, and the handler that it gives back
unfoldable pub detach_subscription_forwarder : String → Endpoint → Endpoint × Option ℕ
detach_subscription_forwarder channel fe = elim (get channel fe.chan_mappings) [
  | none ↦ (fe, none)
  | some mapping ↦ (
    record fe {
      chan_mappings =
          put channel (record mapping { handler = none; auto_created = false }) fe.chan_mappings;
    },
    mapping.handler,
  )
]
