-- ===== src/Fabric/Forwarders.antt =====
-- transport/fabric/endpoint.go: the streams that forward channels to topics, over the life of the endpoint.
use ranch.Prelude.{
  All, Bool, Bool-cases, List, Option, Option-cases, String, [], arith, false, inl, inr, nat_eq,
  none, string_eq, ℕ, ◌++◌, ◌==◌, ◌∷◌, ◌≢◌,
}
use ranch.Prelude.Dict.{Dict, delete, get, put}
use ranch.Prelude.Maps.{
  IsMap, count_values, delete-All, delete-IsMap, get-All, holds, put-All, put-IsMap,
}
use ranch.Fabric.{
  ChannelMapping, Endpoint, FabricAct, add_subscription, add_subscription_to, close_handler,
  closed_handler, detach_subscription_forwarder, drop_sub, get_channel_name_from_subscription,
  is_present, is_protected_destination, listening, mapping_id, new_forwarder, remove_subscription,
  remove_subscription_from, with_sub,
}

-- What reaches the endpoint: a client subscribes, while the router has some routes, or leaves, or a route
-- takes a channel over and closes its forwarder.
pub data FabricEvent : Type 0 where
  subscribed : (String → Bool) → String → String → String → Option ℕ → Option ℕ → FabricEvent
  left : String → String → String → FabricEvent
  route_registered : String → FabricEvent

unfoldable pub fabric_step : FabricEvent → Endpoint → Endpoint × List FabricAct
fabric_step (subscribed has_route con sub destination first second) fe =
    add_subscription has_route first second con sub destination fe
fabric_step (left con sub destination) fe = remove_subscription con sub destination fe
fabric_step (route_registered channel) fe =
    let detached = detach_subscription_forwarder channel fe in
    (detached.0, close_handler detached.1)

unfoldable pub fabric_run : List FabricEvent → Endpoint → Endpoint × List FabricAct
fabric_run [] fe = (fe, [])
fabric_run (e ∷ es) fe =
    let after = fabric_step e fe in let rest = fabric_run es after.0 in (rest.0, after.1 ++ rest.1)

-- Whether an act opens, or closes, the stream of the handler k.
abbrev pub is_listening : ℕ → FabricAct → Bool
is_listening k (listening c h) = h == k
is_listening k a = false

abbrev pub is_closed_handler : ℕ → FabricAct → Bool
is_closed_handler k (closed_handler h) = h == k
is_closed_handler k a = false

abbrev pub has_handler : ℕ → ChannelMapping → Bool
has_handler k mapping = holds (λ h. h == k) mapping.handler

-- How many mappings of the endpoint have this stream.
abbrev pub forwarders : ℕ → Endpoint → ℕ
forwarders k fe = count_values (has_handler k) fe.chan_mappings

abbrev IsUsed : String × ChannelMapping → Type 0
IsUsed (channel, mapping) = mapping.subs ≢ []

-- One mapping for a channel, and each with a subscription.
abbrev pub IsEndpoint : Endpoint → Type 0
IsEndpoint fe = IsMap fe.chan_mappings × All IsUsed fe.chan_mappings

abbrev pub mapping_of : Option ℕ → Bool → ChannelMapping
mapping_of handler auto = record { subs = []; handler = handler; auto_created = auto }

put-used : (id : String) (subs : Dict String (Unit {0})) → put id tt subs ≢ []
unfolding put
put-used id [] same = cc
put-used id ((j, w) ∷ subs) same = elim (Bool-cases (j == id)) [
  | inl here ↦ ground (arith, here)
  | inr other ↦ ground (arith, other)
]

write-IsEndpoint :
    (channel : String) (mapping : ChannelMapping) (fe : Endpoint)
    → mapping.subs ≢ []
    → IsEndpoint fe
    → IsEndpoint (record fe { chan_mappings = put channel mapping fe.chan_mappings })
write-IsEndpoint channel mapping fe used (once, all_used) = (
  put-IsMap channel mapping fe.chan_mappings once,
  put-All IsUsed channel mapping fe.chan_mappings used all_used,
)

with_sub-IsEndpoint :
    (channel id : String) (mapping : ChannelMapping) (fe : Endpoint)
    → IsEndpoint fe
    → IsEndpoint (with_sub channel id mapping fe)
with_sub-IsEndpoint channel id mapping fe valid =
    write-IsEndpoint channel (record mapping { subs = put id tt mapping.subs }) fe
      (put-used id mapping.subs) valid

add_subscription_to-IsEndpoint :
    (has_route : Bool) (first second : Option ℕ) (channel id : String) (fe : Endpoint)
    → IsEndpoint fe
    → IsEndpoint (add_subscription_to has_route first second channel id fe).0
unfolding add_subscription_to
add_subscription_to-IsEndpoint has_route first second channel id fe valid =
    elim (Option-cases (get channel fe.chan_mappings)) [
      | inl free ↦ elim (Option-cases (new_forwarder has_route first second channel).0) [
        | inl unable ↦ rw (free, unable, add_subscription_to) valid
        | inr ((handler, auto), able) ↦
            rw (free, able, add_subscription_to)
              (with_sub-IsEndpoint channel id (mapping_of handler auto) fe valid)
      ]
      | inr (mapping, there) ↦
          rw (there, add_subscription_to) (with_sub-IsEndpoint channel id mapping fe valid)
    ]

add_subscription-IsEndpoint :
    (has_route : String → Bool) (first second : Option ℕ) (con sub destination : String)
    (fe : Endpoint)
    → IsEndpoint fe
    → IsEndpoint (add_subscription has_route first second con sub destination fe).0
unfolding add_subscription
add_subscription-IsEndpoint has_route first second con sub destination fe valid =
    elim (Option-cases (get_channel_name_from_subscription fe.config destination)) [
      | inl nowhere ↦ rw (nowhere, add_subscription) valid
      | inr (channel, at) ↦ elim (Bool-cases (is_protected_destination channel)) [
        | inl protected ↦ rw (at, protected, add_subscription) valid
        | inr free ↦
            rw (at, free, add_subscription)
              (add_subscription_to-IsEndpoint (has_route channel) first second channel
                (mapping_id con sub) fe valid)
      ]
    ]

drop_sub-IsEndpoint :
    (channel : String) (mapping : ChannelMapping) (subs : Dict String (Unit {0})) (fe : Endpoint)
    → IsEndpoint fe
    → IsEndpoint (drop_sub channel mapping subs fe).0
unfolding drop_sub
drop_sub-IsEndpoint channel mapping [] fe (once, all_used) = (
  delete-IsMap channel fe.chan_mappings once,
  delete-All IsUsed channel fe.chan_mappings all_used,
)
drop_sub-IsEndpoint channel mapping (s ∷ subs) fe valid =
    write-IsEndpoint channel (record mapping { subs = s ∷ subs }) fe (λ same. cc) valid

remove_subscription-IsEndpoint :
    (con sub destination : String) (fe : Endpoint)
    → IsEndpoint fe
    → IsEndpoint (remove_subscription con sub destination fe).0
unfolding remove_subscription remove_subscription_from
remove_subscription-IsEndpoint con sub destination fe valid =
    elim (Option-cases (get_channel_name_from_subscription fe.config destination)) [
      | inl nowhere ↦ rw (nowhere, remove_subscription) valid
      | inr (channel, at) ↦ elim (Option-cases (get channel fe.chan_mappings)) [
        | inl free ↦ rw (at, remove_subscription) (rw (free, remove_subscription_from) valid)
        | inr (mapping, there) ↦
            elim (Bool-cases (is_present (get (mapping_id con sub) mapping.subs))) [
              | inl member ↦
                  rw (at, remove_subscription)
                    (rw (there, member, remove_subscription_from)
                      (drop_sub-IsEndpoint channel mapping
                        (delete (mapping_id con sub) mapping.subs) fe valid))
              | inr stranger ↦
                  rw (at, remove_subscription)
                    (rw (there, stranger, remove_subscription_from) valid)
            ]
      ]
    ]

detach-IsEndpoint :
    (channel : String) (fe : Endpoint)
    → IsEndpoint fe
    → IsEndpoint (detach_subscription_forwarder channel fe).0
unfolding detach_subscription_forwarder
detach-IsEndpoint channel fe valid = elim (Option-cases (get channel fe.chan_mappings)) [
  | inl free ↦ rw (free, detach_subscription_forwarder) valid
  | inr (mapping, there) ↦
      rw (there, detach_subscription_forwarder)
        (write-IsEndpoint channel (record mapping { handler = none; auto_created = false }) fe
          (get-All IsUsed channel mapping fe.chan_mappings valid.1 there) valid)
]

pub fabric_step-IsEndpoint :
    (e : FabricEvent) (fe : Endpoint) → IsEndpoint fe → IsEndpoint (fabric_step e fe).0
unfolding fabric_step
fabric_step-IsEndpoint (subscribed has_route con sub destination first second) fe valid =
    add_subscription-IsEndpoint has_route first second con sub destination fe valid
fabric_step-IsEndpoint (left con sub destination) fe valid =
    remove_subscription-IsEndpoint con sub destination fe valid
fabric_step-IsEndpoint (route_registered channel) fe valid = detach-IsEndpoint channel fe valid
