-- ===== src/Stomp/Server/Delivery.antt =====
-- stompserver/server.go: the form of the subscriptions map, and to which subscriptions a message goes.
use mathlib.Core.List.{append-nil, append_assoc}
use ranch.Prelude.{
  All, Bool-cases, List, Option, Option-cases, String, [], arith, if◌then◌else◌, inl, inr, nat_eq,
  none, refl, some, string_eq, subst, sym, ◌&&◌, ◌++◌, ◌==◌, ◌∷◌, ◌≡◌,
}
use ranch.Prelude.Dict.{Dict, delete, get, get-map_values, map_values, put}
use ranch.Prelude.Maps.{IsMap, delete-All, delete-IsMap, get-All, put-All, put-IsMap}
use ranch.Stomp.Frame.{Frame}
use ranch.Stomp.Connection.{
  ConnEvent, EventType, Subscription, connection_closed, connection_established,
  connection_starting, incoming_message, or_empty, subscribe_to_topic, unsubscribe_from_topic,
}
use ranch.Stomp.Server.{
  Act, ConnSubscriptions, Server, connection_closed_case, connection_starting_case,
  handle_connection_event, send_frame, send_frame_to_client, send_to_subscription,
  subscribe_to_topic_case, to_connections, to_subscriptions, with_subscription,
  without_subscription,
}
use ranch.Stomp.Server.Subscriptions.{
  at, at-or_empty, entry-or_empty, or_same, subscription_of, unsubscribed-map,
  without_subscription-cases,
}

-- The inner maps are keyed by the ids of the subscriptions in them.
abbrev pub IsKeyed : ConnSubscriptions → Type 0
IsKeyed subs = IsMap subs × All (λ entry. entry.0 ≡ entry.1.id) subs

abbrev pub AreConns : Dict String ConnSubscriptions → Type 0
AreConns conns = IsMap conns × All (λ entry. IsKeyed entry.1) conns

abbrev pub IsValid : Dict String (Dict String ConnSubscriptions) → Type 0
IsValid all = IsMap all × All (λ entry. AreConns entry.1) all

empty-AreConns :
    (all : Dict String (Dict String ConnSubscriptions)) (dest : String)
    → IsValid all
    → AreConns (or_empty (get dest all))
empty-AreConns all dest valid = elim (Option-cases (get dest all)) [
  | inl missing ↦ rw missing (tt, tt)
  | inr (conns, there) ↦ rw there (get-All (λ entry. AreConns entry.1) dest conns all valid.1 there)
]

empty-IsKeyed :
    (conns : Dict String ConnSubscriptions) (c : String)
    → AreConns conns
    → IsKeyed (or_empty (get c conns))
empty-IsKeyed conns c valid = elim (Option-cases (get c conns)) [
  | inl missing ↦ rw missing (tt, tt)
  | inr (subs, there) ↦ rw there (get-All (λ entry. IsKeyed entry.1) c subs conns valid.1 there)
]

with_inner-IsValid :
    (dest c : String) (subs : ConnSubscriptions) (all : Dict String (Dict String ConnSubscriptions))
    → IsValid all
    → IsKeyed subs
    → IsValid (put dest (put c subs (or_empty (get dest all))) all)
with_inner-IsValid dest c subs all valid keyed =
    let conns = or_empty (get dest all) in
    let inner = empty-AreConns all dest valid in
    (
      put-IsMap dest (put c subs conns) all valid.0,
      put-All (λ entry. AreConns entry.1) dest (put c subs conns) all
          (
            put-IsMap c subs conns inner.0,
            put-All (λ entry. IsKeyed entry.1) c subs conns keyed inner.1,
          )
          valid.1,
    )

with_subscription-IsValid :
    (dest c : String) (sub : Subscription) (all : Dict String (Dict String ConnSubscriptions))
    → IsValid all
    → IsValid (with_subscription dest c sub all)
unfolding with_subscription
with_subscription-IsValid dest c sub all valid =
    let subs = or_empty (get c (or_empty (get dest all))) in
    let keyed = empty-IsKeyed (or_empty (get dest all)) c (empty-AreConns all dest valid) in
    with_inner-IsValid dest c (put sub.id sub subs) all valid (
      put-IsMap sub.id sub subs keyed.0,
      put-All (λ entry. entry.0 ≡ entry.1.id) sub.id sub subs refl keyed.1,
    )

delete_inner-AreConns :
    (gone : String) (conns : Dict String ConnSubscriptions)
    → AreConns conns
    → AreConns (delete gone conns)
delete_inner-AreConns gone conns valid =
    (delete-IsMap gone conns valid.0, delete-All (λ entry. IsKeyed entry.1) gone conns valid.1)

closed-IsValid :
    (gone : String) (all : Dict String (Dict String ConnSubscriptions))
    → IsValid all
    → IsValid (map_values (delete gone) all)
unfolding map_values
closed-IsValid gone [] valid = (tt, tt)
closed-IsValid gone ((dest, conns) ∷ all) valid =
    let rest = closed-IsValid gone all (valid.0.1, valid.1.1) in
    (
      (rw (get-map_values dest (delete gone) all, valid.0.0) refl, rest.0),
      (delete_inner-AreConns gone conns valid.1.0, rest.1),
    )

delete-IsKeyed : (i : String) (subs : ConnSubscriptions) → IsKeyed subs → IsKeyed (delete i subs)
delete-IsKeyed i subs keyed =
    (delete-IsMap i subs keyed.0, delete-All (λ entry. entry.0 ≡ entry.1.id) i subs keyed.1)

without_subscription-IsValid :
    (dest c i : String) (all : Dict String (Dict String ConnSubscriptions))
    → IsValid all
    → IsValid (or_same all (without_subscription dest c i all))
without_subscription-IsValid dest c i all valid = elim (without_subscription-cases dest c i all) [
  | inl (missing, same) ↦ rw same valid
  | inr (conns, subs, there, here, made) ↦
      let inner = get-All (λ entry. AreConns entry.1) dest conns all valid.1 there in
      let keyed = get-All (λ entry. IsKeyed entry.1) c subs conns inner.1 here in
      rw made (
        subst (λ o. IsValid (put dest (put c (delete i subs) (or_empty o)) all)) there
          (with_inner-IsValid dest c (delete i subs) all valid (delete-IsKeyed i subs keyed)))
]

-- The frames that an act sends for this subscription id of this connection, each with the
-- subscription that the connection is given.
abbrev pub sent_by : {H : Type 0} → String → String → Act H → List (Frame H × Subscription)
sent_by c i (send_to_subscription conn_id f sub) =
    if conn_id == c && sub.id == i then (f, sub) ∷ [] else []
sent_by c i _ = []

abbrev pub sends : {H : Type 0} → String → String → List (Act H) → List (Frame H × Subscription)
sends c i [] = []
sends c i (act ∷ acts) = sent_by c i act ++ sends c i acts

-- The frame, once, for a subscription that is there.
abbrev pub once_to : {H : Type 0} → Frame H → Option Subscription → List (Frame H × Subscription)
once_to f none = []
once_to f (some sub) = (f, sub) ∷ []

sends-append :
    {H : Type 0} (c i : String) (xs ys : List (Act H))
    → sends c i (xs ++ ys) ≡ sends c i xs ++ sends c i ys
sends-append c i [] ys = refl
sends-append c i (x ∷ xs) ys =
    rw (sends-append c i xs ys) (sym (append_assoc (sent_by c i x) (sends c i xs) (sends c i ys)))

sends-to_subscriptions :
    {H : Type 0} (c i conn_id : String) (f : Frame H) (subs : ConnSubscriptions)
    → IsKeyed subs
    → sends c i (to_subscriptions conn_id f subs)
      ≡ (if conn_id == c then once_to f (get i subs) else [])
unfolding to_subscriptions get
sends-to_subscriptions c i conn_id f [] keyed = ground arith
sends-to_subscriptions c i conn_id f ((key, sub) ∷ subs) keyed =
    let rest = sends-to_subscriptions c i conn_id f subs (keyed.0.1, keyed.1.1) in
    rw (rest, sym keyed.1.0)
      (elim (Bool-cases (key == i)) [
        | inr other ↦ rw other (ground arith)
        | inl same ↦
            let free : get i subs ≡ none =
              subst (λ k. get k subs ≡ none) ((string_eq.beq_iff key i).0 same) keyed.0.0 in
            rw (same, free) (ground arith)
      ])

sends-to_connections :
    {H : Type 0} (c i : String) (f : Frame H) (conns : Dict String ConnSubscriptions)
    → AreConns conns
    → sends c i (to_connections f conns) ≡ once_to f (at i (get c conns))
unfolding to_connections get
sends-to_connections c i f [] valid = refl
sends-to_connections c i f ((conn_id, subs) ∷ conns) valid =
    rw
      (
        sends-append c i (to_subscriptions conn_id f subs) (to_connections f conns),
        sends-to_subscriptions c i conn_id f subs valid.1.0,
        sends-to_connections c i f conns (valid.0.1, valid.1.1),
      )
      (elim (Bool-cases (conn_id == c)) [
        | inr other ↦ rw other refl
        | inl same ↦
            let free : get c conns ≡ none =
              subst (λ k. get k conns ≡ none) ((string_eq.beq_iff conn_id c).0 same) valid.0.0 in
            rw (same, free) (append-nil (once_to f (get i subs)))
      ])

-- Every connection event keeps the form of the maps.
pub handle_connection_event-IsValid :
    {H M : Type 0} (get_ip_address : String → String) (s : Server H M) (e : ConnEvent H)
    → IsValid s.subscriptions_map
    → IsValid (handle_connection_event get_ip_address s e).0.subscriptions_map
unfolding handle_connection_event connection_starting_case connection_closed_case
    subscribe_to_topic_case
handle_connection_event-IsValid get_ip_address s e valid = go e.event_type e.sub
  where
    go :
        (type : EventType) (sub : Option Subscription)
        → IsValid
            (handle_connection_event get_ip_address s
              (record e { event_type = type; sub = sub })).0.subscriptions_map
    go connection_starting sub = valid
    go connection_established sub = valid
    go connection_closed sub = closed-IsValid e.conn_id s.subscriptions_map valid
    go subscribe_to_topic none = valid
    go subscribe_to_topic (some sub) =
        with_subscription-IsValid e.destination e.conn_id sub s.subscriptions_map valid
    go unsubscribe_from_topic none = valid
    go unsubscribe_from_topic (some sub) =
        subst IsValid
          (sym (
            unsubscribed-map s (record e { event_type = unsubscribe_from_topic; sub = some sub })
              sub))
          (without_subscription-IsValid e.destination e.conn_id sub.id s.subscriptions_map valid)
    go incoming_message sub = valid

-- In a server whose maps have the form that its events give them, a message for a destination is sent once for each subscription to it, with its frame as it is, and for no other; a private one once for each of those of the connection that it names, and for no other.
pub send_frame_lem :
    {H M : Type 0} (dest client c i : String) (f : Frame H) (s : Server H M)
    → IsValid s.subscriptions_map
    → (sends c i (send_frame dest f s) ≡ once_to f (subscription_of s.subscriptions_map dest c i))
      × (sends c i (send_frame_to_client client dest f s) ≡ (
          if client == c
          then once_to f (subscription_of s.subscriptions_map dest client i)
          else []))
unfolding send_frame send_frame_to_client
send_frame_lem dest client c i f s valid =
    let conns = or_empty (get dest s.subscriptions_map) in
    let inner = empty-AreConns s.subscriptions_map dest valid in
    let keyed = empty-IsKeyed conns client inner in
    (
      rw (at-or_empty c (get dest s.subscriptions_map)) (sends-to_connections c i f conns inner),
      rw (entry-or_empty s.subscriptions_map dest client i)
          (sends-to_subscriptions c i client f (or_empty (get client conns)) keyed),
    )
