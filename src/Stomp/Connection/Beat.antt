-- ===== src/Stomp/Connection/Beat.antt =====
-- stompserver/stomp_connection.go: heart-beats, message ids, receipts and subscriptions.
use Prim.Native.Nat.{max}
use ranch.Prelude.{
  String, arith, eqb_refl, false, nat_eq, none, refl, some, string_eq, true, ℕ, ◌%◌, ◌*◌, ◌+◌, ◌<◌,
  ◌^◌, ◌≡◌, ◌≤◌,
}
use ranch.Prelude.Dict.{Dict, delete, get, get-delete, get-put, put}
use ranch.Stomp.Frame.{Frame, HeaderApi, decimal, message}
use ranch.Stomp.Connection.{
  StompConn, Subscription, add_subscription, at_least, millisecond, min_duration,
  populate_message_id_header, remove_subscription,
}

-- With a heart-beat from 1 ms to the maximum in the configuration, what is settled is at least that, and is what the client asked for where that is more; a client that asks for none gets none. With 0 in the configuration nobody gets any.
pub at_least-min_duration :
    (heartbeat d : ℕ)
    → heartbeat ≤ 999999999
    → (0 < heartbeat
        → 0 < d
        → at_least (min_duration heartbeat) d ≡ max d (heartbeat * millisecond))
      × (at_least (min_duration heartbeat) 0 ≡ 0)
      × (heartbeat ≡ 0 → at_least (min_duration heartbeat) d ≡ 0)
unfolding at_least min_duration
at_least-min_duration heartbeat d h = (λ pos asked. ground arith, ground arith, λ z. ground arith)

-- The n-th message on a connection gets the id n.
pub populate_message_id_header_lem :
    {H : Type 0} (api : HeaderApi H) (f : Frame H) (conn : StompConn)
    → f.command ≡ message
    → conn.current_message_id + 1 < 2 ^ 64
    → ((populate_message_id_header api f conn).0.current_message_id ≡ conn.current_message_id + 1)
      × (api.contains (populate_message_id_header api f conn).1.header "message-id"
          ≡ some (decimal (conn.current_message_id + 1)))
      × (api.contains (populate_message_id_header api f conn).1.header "ack" ≡ none)
unfolding populate_message_id_header
populate_message_id_header_lem api f conn m h =
    let n : (conn.current_message_id + 1) % 2 ^ 64 ≡ conn.current_message_id + 1 = omega arith in
    rw (m, n) (refl, rw (api.contains-del, api.contains-set) refl, rw (api.contains-del) refl)

added :
    (id destination : String) (conn : StompConn)
    → get id conn.subscriptions ≡ none
    → add_subscription id destination conn ≡ (
      record conn {
        subscriptions = put id (record { id = id; destination = destination }) conn.subscriptions;
      },
      record { id = id; destination = destination },
      true,
    )
unfolding add_subscription
added id destination conn free = ground arith

removed :
    (id : String) (conn : StompConn) (sub : Subscription)
    → get id conn.subscriptions ≡ some sub
    → remove_subscription id conn
      ≡ (record conn { subscriptions = delete id conn.subscriptions }, some sub)
unfolding remove_subscription
removed id conn sub at = ground arith

fetched :
    (id : String) (sub : Subscription) (m : Dict String Subscription)
    → get id (put id sub m) ≡ some sub
fetched id sub m = rw (get-put id id sub m, eqb_refl id) refl

erased :
    (id j : String) (sub : Subscription) (m : Dict String Subscription)
    → get id m ≡ none
    → get j (delete id (put id sub m)) ≡ get j m
erased id j sub m free =
    rw (get-delete id j (put id sub m), get-put id j sub m)
      (ground (arith, free, string_eq.beq_iff id j))

undone :
    (id destination : String) (conn : StompConn)
    → get id conn.subscriptions ≡ none
    → ((add_subscription id destination conn).2 ≡ true)
      × ((remove_subscription id (add_subscription id destination conn).0).1
          ≡ some (record { id = id; destination = destination }))
      × ((j : String)
          → get j (remove_subscription id (add_subscription id destination conn).0).0.subscriptions
            ≡ get j conn.subscriptions)
undone id destination conn free =
    rw
      (
        added id destination conn free,
        removed id
            (record conn {
              subscriptions =
                  put id (record { id = id; destination = destination }) conn.subscriptions;
            })
            (record { id = id; destination = destination })
            (fetched id (record { id = id; destination = destination }) conn.subscriptions),
      )
      (refl, refl, λ j. erased id j _ conn.subscriptions free)

-- A subscription that is added is found under its id, and removing it takes away what was added; a second one with an id that is in use is refused and changes nothing.
pub add-remove_subscription :
    (id destination : String) (conn : StompConn)
    → (get id conn.subscriptions ≡ none
        → ((add_subscription id destination conn).2 ≡ true)
          × ((remove_subscription id (add_subscription id destination conn).0).1
              ≡ some (record { id = id; destination = destination }))
          × ((j : String)
              → get j
                  (remove_subscription id (add_subscription id destination conn).0).0.subscriptions
                ≡ get j conn.subscriptions))
      × ((old : Subscription)
          → get id conn.subscriptions ≡ some old
          → add_subscription id destination conn ≡ (conn, old, false))
unfolding add_subscription
add-remove_subscription id destination conn = (undone id destination conn, λ old at. ground arith)
