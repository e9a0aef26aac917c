-- ===== src/Fabric/Balance.antt =====
-- transport/fabric/endpoint.go: a stream that forwards a channel is closed once, or its mapping has it.
use ranch.Prelude.{
  Bool, Bool-cases, List, Option, Option-cases, String, [], ap, arith, count_if, count_if-append,
  false, if◌then◌else◌, inl, inr, nat_eq, none, refl, some, string_eq, true, ℕ, ◌++◌, ◌+◌, ◌==◌,
  ◌∷◌, ◌≡◌,
}
use ranch.Prelude.Dict.{Dict, delete, get, put}
use ranch.Prelude.Maps.{count-delete, count-put, holds}
use ranch.Fabric.{
  ChannelMapping, Endpoint, EndpointConfig, FabricAct, add_subscription, add_subscription_to,
  close_handler, destroyed, detach_subscription_forwarder, drop_sub,
  get_channel_name_from_subscription, is_present, is_protected_destination, mapping_id,
  new_fabric_endpoint, new_forwarder, remove_subscription, remove_subscription_from,
  unsubscribe_event, with_sub,
}
use ranch.Fabric.Forwarders.{
  FabricEvent, IsEndpoint, fabric_run, fabric_step, fabric_step-IsEndpoint, forwarders, has_handler,
  is_closed_handler, is_listening, left, mapping_of, route_registered, subscribed,
}

-- What is opened and was there is what is closed and stays.
abbrev pub IsBalanced : ℕ → Endpoint → Endpoint × List FabricAct → Type 0
IsBalanced k fe (after, acts) =
    count_if (is_listening k) acts + forwarders k fe
    ≡ count_if (is_closed_handler k) acts + forwarders k after

with_sub_free :
    (k : ℕ) (channel id : String) (mapping : ChannelMapping) (fe : Endpoint)
    → get channel fe.chan_mappings ≡ none
    → forwarders k (with_sub channel id mapping fe)
      ≡ forwarders k fe + (if has_handler k mapping then 1 else 0)
with_sub_free k channel id mapping fe free =
    let counted =
      count-put (has_handler k) channel (record mapping { subs = put id tt mapping.subs })
        fe.chan_mappings in
    ground (arith, free)

with_sub_there :
    (k : ℕ) (channel id : String) (mapping : ChannelMapping) (fe : Endpoint)
    → get channel fe.chan_mappings ≡ some mapping
    → forwarders k (with_sub channel id mapping fe) ≡ forwarders k fe
with_sub_there k channel id mapping fe there =
    let counted =
      count-put (has_handler k) channel (record mapping { subs = put id tt mapping.subs })
        fe.chan_mappings in
    let known : holds (has_handler k) (get channel fe.chan_mappings) ≡ has_handler k mapping =
      ap (holds (has_handler k)) there in
    ground arith

add_free :
    (k : ℕ) (has_route : Bool) (first second : Option ℕ) (channel id : String) (fe : Endpoint)
    → get channel fe.chan_mappings ≡ none
    → IsBalanced k fe (add_subscription_to has_route first second channel id fe)
unfolding add_subscription_to new_forwarder
add_free k true first second channel id fe free =
    rw (free, add_subscription_to)
      (omega (arith, with_sub_free k channel id (mapping_of none false) fe free))
add_free k false (some h) second channel id fe free =
    rw (free, add_subscription_to)
      (omega (arith, with_sub_free k channel id (mapping_of (some h) false) fe free))
add_free k false none (some h) channel id fe free =
    rw (free, add_subscription_to)
      (omega (arith, with_sub_free k channel id (mapping_of (some h) true) fe free))
add_free k false none none channel id fe free = rw (free, add_subscription_to) refl

add_there :
    (k : ℕ) (has_route : Bool) (first second : Option ℕ) (channel id : String)
    (mapping : ChannelMapping) (fe : Endpoint)
    → get channel fe.chan_mappings ≡ some mapping
    → IsBalanced k fe (add_subscription_to has_route first second channel id fe)
unfolding add_subscription_to
add_there k has_route first second channel id mapping fe there =
    rw (there, add_subscription_to) (omega (arith, with_sub_there k channel id mapping fe there))

add_subscription_to-IsBalanced :
    (k : ℕ) (has_route : Bool) (first second : Option ℕ) (channel id : String) (fe : Endpoint)
    → IsBalanced k fe (add_subscription_to has_route first second channel id fe)
add_subscription_to-IsBalanced k has_route first second channel id fe =
    elim (Option-cases (get channel fe.chan_mappings)) [
      | inl free ↦ add_free k has_route first second channel id fe free
      | inr (mapping, there) ↦ add_there k has_route first second channel id mapping fe there
    ]

add_subscription-IsBalanced :
    (k : ℕ) (has_route : String → Bool) (first second : Option ℕ) (con sub destination : String)
    (fe : Endpoint)
    → IsBalanced k fe (add_subscription has_route first second con sub destination fe)
unfolding add_subscription
add_subscription-IsBalanced k has_route first second con sub destination fe =
    elim (Option-cases (get_channel_name_from_subscription fe.config destination)) [
      | inl nowhere ↦ rw (nowhere, add_subscription) refl
      | inr (channel, at) ↦ elim (Bool-cases (is_protected_destination channel)) [
        | inl protected ↦ rw (at, protected, add_subscription) refl
        | inr free ↦
            rw (at, free, add_subscription)
              (add_subscription_to-IsBalanced k (has_route channel) first second channel
                (mapping_id con sub) fe)
      ]
    ]

close_handler_lem :
    (k : ℕ) (handler : Option ℕ)
    → (count_if (is_closed_handler k) (close_handler handler)
        ≡ (if holds (λ h. h == k) handler then 1 else 0))
      × (count_if (is_listening k) (close_handler handler) ≡ 0)
close_handler_lem k none = (refl, refl)
close_handler_lem k (some h) = (omega arith, refl)

drop_sub-IsBalanced :
    (k : ℕ) (channel : String) (mapping : ChannelMapping) (subs : Dict String (Unit {0}))
    (fe : Endpoint)
    → IsEndpoint fe
    → get channel fe.chan_mappings ≡ some mapping
    → IsBalanced k fe (drop_sub channel mapping subs fe)
unfolding drop_sub
drop_sub-IsBalanced k channel mapping [] fe valid there =
    let closed = close_handler_lem k mapping.handler in
    let counted = count-delete (has_handler k) channel fe.chan_mappings valid.0 in
    let known : holds (has_handler k) (get channel fe.chan_mappings) ≡ has_handler k mapping =
      ap (holds (has_handler k)) there in
    let destroys = if mapping.auto_created then destroyed channel ∷ [] else [] in
    rw
      (
        count_if-append (is_listening k) (close_handler mapping.handler) destroys,
        count_if-append (is_closed_handler k) (close_handler mapping.handler) destroys,
      )
      (ground arith)
drop_sub-IsBalanced k channel mapping (s ∷ subs) fe valid there =
    let counted =
      count-put (has_handler k) channel (record mapping { subs = s ∷ subs }) fe.chan_mappings in
    let known : holds (has_handler k) (get channel fe.chan_mappings) ≡ has_handler k mapping =
      ap (holds (has_handler k)) there in
    ground arith

-- An act of another kind opens and closes nothing.
then_IsBalanced :
    (k : ℕ) (fe : Endpoint) (done : Endpoint × List FabricAct) (a : FabricAct)
    → is_listening k a ≡ false
    → is_closed_handler k a ≡ false
    → IsBalanced k fe done
    → IsBalanced k fe (done.0, done.1 ++ a ∷ [])
then_IsBalanced k fe done a quiet silent balanced =
    rw
      (
        count_if-append (is_listening k) done.1 (a ∷ []),
        count_if-append (is_closed_handler k) done.1 (a ∷ []),
      )
      (ground (arith, quiet, silent))

remove_subscription_from-IsBalanced :
    (k : ℕ) (channel id : String) (fe : Endpoint)
    → IsEndpoint fe
    → IsBalanced k fe (remove_subscription_from channel id fe)
unfolding remove_subscription_from
remove_subscription_from-IsBalanced k channel id fe valid =
    elim (Option-cases (get channel fe.chan_mappings)) [
      | inl free ↦ rw (free, remove_subscription_from) refl
      | inr (mapping, there) ↦ elim (Bool-cases (is_present (get id mapping.subs))) [
        | inl member ↦
            rw (there, member, remove_subscription_from)
              (then_IsBalanced k fe (drop_sub channel mapping (delete id mapping.subs) fe)
                (unsubscribe_event channel) refl refl
                (drop_sub-IsBalanced k channel mapping (delete id mapping.subs) fe valid there))
        | inr stranger ↦ rw (there, stranger, remove_subscription_from) refl
      ]
    ]

remove_subscription-IsBalanced :
    (k : ℕ) (con sub destination : String) (fe : Endpoint)
    → IsEndpoint fe
    → IsBalanced k fe (remove_subscription con sub destination fe)
unfolding remove_subscription
remove_subscription-IsBalanced k con sub destination fe valid =
    elim (Option-cases (get_channel_name_from_subscription fe.config destination)) [
      | inl nowhere ↦ rw (nowhere, remove_subscription) refl
      | inr (channel, at) ↦
          rw (at, remove_subscription)
            (remove_subscription_from-IsBalanced k channel (mapping_id con sub) fe valid)
    ]

detach-IsBalanced :
    (k : ℕ) (channel : String) (fe : Endpoint)
    → IsBalanced k fe (fabric_step (route_registered channel) fe)
unfolding fabric_step detach_subscription_forwarder
detach-IsBalanced k channel fe = elim (Option-cases (get channel fe.chan_mappings)) [
  | inl free ↦ rw (free, fabric_step, detach_subscription_forwarder) refl
  | inr (mapping, there) ↦
      let counted =
        count-put (has_handler k) channel (record mapping { handler = none; auto_created = false })
          fe.chan_mappings in
      let closed = close_handler_lem k mapping.handler in
      let known : holds (has_handler k) (get channel fe.chan_mappings) ≡ has_handler k mapping =
        ap (holds (has_handler k)) there in
      rw (there, fabric_step, detach_subscription_forwarder) (ground arith)
]

fabric_step-IsBalanced :
    (k : ℕ) (e : FabricEvent) (fe : Endpoint) → IsEndpoint fe → IsBalanced k fe (fabric_step e fe)
unfolding fabric_step
fabric_step-IsBalanced k (subscribed has_route con sub destination first second) fe valid =
    add_subscription-IsBalanced k has_route first second con sub destination fe
fabric_step-IsBalanced k (left con sub destination) fe valid =
    remove_subscription-IsBalanced k con sub destination fe valid
fabric_step-IsBalanced k (route_registered channel) fe valid = detach-IsBalanced k channel fe

fabric_run-IsBalanced :
    (k : ℕ) (es : List FabricEvent) (fe : Endpoint)
    → IsEndpoint fe
    → IsBalanced k fe (fabric_run es fe) × IsEndpoint (fabric_run es fe).0
unfolding fabric_run
fabric_run-IsBalanced k [] fe valid = (refl, valid)
fabric_run-IsBalanced k (e ∷ es) fe valid =
    let after = fabric_step e fe in
    let once = fabric_step-IsBalanced k e fe valid in
    let rest = fabric_run-IsBalanced k es after.0 (fabric_step-IsEndpoint e fe valid) in
    (
      rw
          (
            count_if-append (is_listening k) after.1 (fabric_run es after.0).1,
            count_if-append (is_closed_handler k) after.1 (fabric_run es after.0).1,
          )
          (omega (arith, once, rest.0)),
      rest.1,
    )

-- From a new endpoint on, whatever clients subscribe to or leave and whatever routes take channels over, valid or not, each stream has been opened as often as it has been closed and as there are mappings that it forwards now, no channel has two mappings, and each mapping has a subscription.
pub forwarders_lem :
    (k : ℕ) (es : List FabricEvent) (config : EndpointConfig)
    → (count_if (is_listening k) (fabric_run es (new_fabric_endpoint config)).1
        ≡ count_if (is_closed_handler k) (fabric_run es (new_fabric_endpoint config)).1
          + forwarders k (fabric_run es (new_fabric_endpoint config)).0)
      × IsEndpoint (fabric_run es (new_fabric_endpoint config)).0
unfolding new_fabric_endpoint
forwarders_lem k es config =
    let run = fabric_run-IsBalanced k es (new_fabric_endpoint config) (tt, tt) in
    (omega (arith, run.0), run.1)
