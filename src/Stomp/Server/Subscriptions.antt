-- ===== src/Stomp/Server/Subscriptions.antt =====
-- stompserver/server.go: what each connection event does to the subscriptions of the server.
use ranch.Prelude.{
  Option, Option-cases, String, ap, arith, if◌then◌else◌, inl, inr, nat_eq, none, refl, some,
  string_eq, ◌&&◌, ◌==◌, ◌∙◌, ◌≡◌, ◌⊎◌,
}
use ranch.Prelude.Dict.{Dict, delete, get, get-delete, get-map_values, get-put, map_values, put}
use ranch.Stomp.Connection.{
  ConnEvent, EventType, Subscription, connection_closed, connection_established,
  connection_starting, incoming_message, or_empty, subscribe_to_topic, unsubscribe_from_topic,
}
use ranch.Stomp.Server.{
  ConnSubscriptions, Server, connection_closed_case, connection_starting_case,
  handle_connection_event, subscribe_to_topic_case, unsubscribe_from_topic_case, with_subscription,
  without_subscription,
}

-- m[k] where m may be missing
abbrev pub at : {V : Type 0} → String → Option (Dict String V) → Option V
at k none = none
at k (some m) = get k m

-- The subscription with this id of a connection to a destination.
abbrev pub subscription_of :
    Dict String (Dict String ConnSubscriptions) → String → String → String → Option Subscription
subscription_of all destination conn_id id = at id (at conn_id (get destination all))

-- What an event makes of that entry, from what it was.
abbrev pub entry_after :
    {H : Type 0}
    → ConnEvent H
    → String
    → String
    → String
    → Option Subscription
    → Option Subscription
entry_after e destination conn_id id before = elim e.event_type [
  | connection_closed ↦ if e.conn_id == conn_id then none else before
  | subscribe_to_topic ↦ elim e.sub [
    | none ↦ before
    | some sub ↦
        if (e.destination == destination) && (e.conn_id == conn_id) && (sub.id == id)
        then some sub
        else before
  ]
  | unsubscribe_from_topic ↦ elim e.sub [
    | none ↦ before
    | some sub ↦
        if (e.destination == destination) && (e.conn_id == conn_id) && (sub.id == id)
        then none
        else before
  ]
  | _ ↦ before
]

abbrev pub or_same : {A : Type 0} → A → Option A → A
or_same a none = a
or_same a (some b) = b

pub at-or_empty :
    {V : Type 0} (k : String) (o : Option (Dict String V)) → at k o ≡ get k (or_empty o)
unfolding get
at-or_empty k none = refl
at-or_empty k (some m) = refl

pub entry-or_empty :
    (all : Dict String (Dict String ConnSubscriptions)) (destination conn_id id : String)
    → subscription_of all destination conn_id id
      ≡ get id (or_empty (get conn_id (or_empty (get destination all))))
entry-or_empty all destination conn_id id =
    rw (at-or_empty conn_id (get destination all)) (at-or_empty id _)

at-closed :
    (gone destination conn_id id : String) (all : Dict String (Dict String ConnSubscriptions))
    → subscription_of (map_values (delete gone) all) destination conn_id id
      ≡ (if gone == conn_id then none else subscription_of all destination conn_id id)
at-closed gone destination conn_id id all =
    rw (get-map_values destination (delete gone) all) (elim (Option-cases (get destination all)) [
      | inl missing ↦ rw missing (ground arith)
      | inr (conns, there) ↦ rw (there) (rw (get-delete gone conn_id conns) (ground arith))
    ])

at-with_subscription :
    (dest c : String) (sub : Subscription) (all : Dict String (Dict String ConnSubscriptions))
    (destination conn_id id : String)
    → subscription_of (with_subscription dest c sub all) destination conn_id id ≡ (
        if (dest == destination) && (c == conn_id) && (sub.id == id)
        then some sub
        else subscription_of all destination conn_id id)
unfolding with_subscription get
at-with_subscription dest c sub all destination conn_id id =
    rw
      (get-put dest destination
        (put c (put sub.id sub (or_empty (get c (or_empty (get dest all)))))
          (or_empty (get dest all)))
        all)
      (let conns = or_empty (get dest all) in
        let subs = or_empty (get c conns) in
        rw (entry-or_empty all destination conn_id id) (
          ground (
            arith,
            string_eq.beq_iff dest destination,
            string_eq.beq_iff c conn_id,
            string_eq.beq_iff sub.id id,
            get-put c conn_id (put sub.id sub subs) conns,
            get-put sub.id id sub subs,
            entry-or_empty all destination conn_id id,
          )))

-- Either the entry is missing, or both maps are there and it is deleted from the inner one.
pub without_subscription-cases :
    (dest c i : String) (all : Dict String (Dict String ConnSubscriptions))
    → ((subscription_of all dest c i ≡ none) × (without_subscription dest c i all ≡ none))
      ⊎ ((conns : Dict String ConnSubscriptions) × (subs : ConnSubscriptions) × (get dest all
            ≡ some conns)
          × (get c conns ≡ some subs)
          × (without_subscription dest c i all ≡ some (put dest (put c (delete i subs) conns) all)))
unfolding without_subscription
without_subscription-cases dest c i all = elim (Option-cases (get dest all)) [
  | inl no_conns ↦ inl (rw no_conns refl, rw (no_conns, without_subscription) refl)
  | inr (conns, there) ↦ elim (Option-cases (get c conns)) [
    | inl no_subs ↦ inl (rw (there, no_subs) refl, rw (there, no_subs, without_subscription) refl)
    | inr (subs, here) ↦ elim (Option-cases (get i subs)) [
      | inl no_sub ↦
          inl (rw (there, here, no_sub) refl, rw (there, here, no_sub, without_subscription) refl)
      | inr (sub, found) ↦
          inr (conns, subs, there, here, rw (there, here, found, without_subscription) refl)
    ]
  ]
]

at-without_subscription :
    (dest c i : String) (all : Dict String (Dict String ConnSubscriptions))
    (destination conn_id id : String)
    → subscription_of (or_same all (without_subscription dest c i all)) destination conn_id id ≡ (
        if (dest == destination) && (c == conn_id) && (i == id)
        then none
        else subscription_of all destination conn_id id)
at-without_subscription dest c i all destination conn_id id =
    elim (without_subscription-cases dest c i all) [
      | inl (missing, same) ↦ rw same (
          ground (
            arith,
            missing,
            string_eq.beq_iff dest destination,
            string_eq.beq_iff c conn_id,
            string_eq.beq_iff i id,
          ))
      | inr (conns, subs, there, here, made) ↦
          rw (made, get-put dest destination (put c (delete i subs) conns) all)
            (ground (
              arith,
              there,
              here,
              string_eq.beq_iff dest destination,
              string_eq.beq_iff c conn_id,
              string_eq.beq_iff i id,
              get-put c conn_id (delete i subs) conns,
              get-delete i id subs,
            ))
    ]

pub unsubscribed-map :
    {H M : Type 0} (s : Server H M) (e : ConnEvent H) (sub : Subscription)
    → (unsubscribe_from_topic_case s e sub).0.subscriptions_map
      ≡ or_same s.subscriptions_map
          (without_subscription e.destination e.conn_id sub.id s.subscriptions_map)
unfolding unsubscribe_from_topic_case
unsubscribed-map s e sub =
    elim (Option-cases (without_subscription e.destination e.conn_id sub.id s.subscriptions_map)) [
      | inl missing ↦ rw (missing, unsubscribe_from_topic_case) refl
      | inr (all, made) ↦ rw (made, unsubscribe_from_topic_case) refl
    ]

-- Whatever the event, the subscriptions of the server change at the entry that it names, or for a closed connection at all of its entries, and nowhere else.
pub handle_connection_event_lem :
    {H M : Type 0} (get_ip_address : String → String) (s : Server H M) (e : ConnEvent H)
    (destination conn_id id : String)
    → subscription_of
        (handle_connection_event get_ip_address s e).0.subscriptions_map
        destination
        conn_id
        id
      ≡ entry_after e destination conn_id id
          (subscription_of s.subscriptions_map destination conn_id id)
unfolding handle_connection_event connection_starting_case connection_closed_case
    subscribe_to_topic_case
handle_connection_event_lem get_ip_address s e destination conn_id id = go e.event_type e.sub
  where
    go :
        (type : EventType) (sub : Option Subscription)
        → subscription_of
            (handle_connection_event get_ip_address s
              (record e { event_type = type; sub = sub })).0.subscriptions_map
            destination
            conn_id
            id
          ≡ entry_after
              (record e { event_type = type; sub = sub })
              destination
              conn_id
              id
              (subscription_of s.subscriptions_map destination conn_id id)
    go connection_starting sub = refl
    go connection_established sub = refl
    go connection_closed sub = at-closed e.conn_id destination conn_id id s.subscriptions_map
    go subscribe_to_topic none = refl
    go subscribe_to_topic (some sub) =
        at-with_subscription e.destination e.conn_id sub s.subscriptions_map destination conn_id id
    go unsubscribe_from_topic none = refl
    go unsubscribe_from_topic (some sub) =
        ap (λ all. subscription_of all destination conn_id id)
          (unsubscribed-map s (record e { event_type = unsubscribe_from_topic; sub = some sub })
            sub)
        ∙ at-without_subscription e.destination e.conn_id sub.id s.subscriptions_map destination
            conn_id id
    go incoming_message sub = refl
