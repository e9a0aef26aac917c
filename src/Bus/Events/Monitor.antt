-- ===== src/Bus/Events/Monitor.antt =====
-- bus/eventbus.go, transportMonitor: the listeners of monitor events, by type or for all. A type of
-- event and a listener are numbers; an id is a 64-bit number that wraps.
use mathlib.Core.Option
use ranch.Prelude.{
  Bool, List, Option, [], any, any-append, arith, false, nat_eq, none, not, refl, some, string_eq,
  true, ℕ, ◌%◌, ◌&&◌, ◌++◌, ◌+◌, ◌==◌, ◌^◌, ◌||◌, ◌∷◌, ◌∙◌, ◌≡◌,
}
use ranch.Prelude.Dict.{Dict, delete, get, get-map_values, get-put, map_values, put}

pub record TransportMonitor : Type 0 where
  pub listeners_by_type : Dict ℕ (Dict ℕ ℕ)
  pub listeners_for_all_events : Dict ℕ ℕ
  pub sub_id : ℕ

abbrev pub listeners_of : Option (Dict ℕ ℕ) → Dict ℕ ℕ
listeners_of none = []
listeners_of (some listeners) = listeners

-- The loop over the types of a listener
unfoldable pub add_types : ℕ → ℕ → List ℕ → Dict ℕ (Dict ℕ ℕ) → Dict ℕ (Dict ℕ ℕ)
add_types id listener [] m = m
add_types id listener (type ∷ types) m =
    add_types id listener types (put type (put id listener (listeners_of (get type m))) m)

unfoldable pub add_listener : ℕ → List ℕ → TransportMonitor → TransportMonitor × ℕ
add_listener listener [] m =
    let id = (m.sub_id + 1) % 2 ^ 64 in
    (
      record m {
        sub_id = id;
        listeners_for_all_events = put id listener m.listeners_for_all_events;
      },
      id,
    )
add_listener listener (type ∷ types) m =
    let id = (m.sub_id + 1) % 2 ^ 64 in
    (
      record m {
        sub_id = id;
        listeners_by_type = add_types id listener (type ∷ types) m.listeners_by_type;
      },
      id,
    )

unfoldable pub remove_listener : ℕ → TransportMonitor → TransportMonitor
remove_listener id m = record m {
  listeners_for_all_events = delete id m.listeners_for_all_events;
  listeners_by_type = map_values (delete id) m.listeners_by_type;
}

-- The listeners that sendEvent calls, with their ids.
unfoldable pub send_event : ℕ → TransportMonitor → List (ℕ × ℕ)
send_event type m = m.listeners_for_all_events ++ listeners_of (get type m.listeners_by_type)

-- Whether an event of a type reaches a listener under an id.
abbrev pub is_called : ℕ → ℕ → ℕ → TransportMonitor → Bool
is_called i l type m = any (λ call. call.0 == i && call.1 == l) (send_event type m)

abbrev has : ℕ → ℕ → Dict ℕ ℕ → Bool
has i l listeners = any (λ call. call.0 == i && call.1 == l) listeners

-- Where no other listener takes the place of this one, a write adds what it writes.
has-put :
    (i l k v : ℕ) (m : Dict ℕ ℕ)
    → (k == i && not (v == l)) ≡ false
    → has i l (put k v m) ≡ ((k == i && v == l) || has i l m)
unfolding put
has-put i l k v [] h = ground arith
has-put i l k v ((j, w) ∷ m) h = ground (arith, h, has-put i l k v m, nat_eq.beq_iff j k)

has-delete : (i l k : ℕ) (m : Dict ℕ ℕ) → has i l (delete k m) ≡ (not (k == i) && has i l m)
unfolding delete
has-delete i l k [] = ground arith
has-delete i l k ((j, w) ∷ m) =
    ground (arith, has-delete i l k m, nat_eq.beq_iff j k, nat_eq.beq_iff j i, nat_eq.beq_iff k i)

-- After the loop, a type of the listener has it, and the other types have what they had.
has-add_types :
    (id type listener i l : ℕ) (types : List ℕ) (m : Dict ℕ (Dict ℕ ℕ))
    → (id == i && not (listener == l)) ≡ false
    → has i l (listeners_of (get type (add_types id listener types m))) ≡ (
        (id == i && listener == l) && any (λ t. t == type) types
        || has i l (listeners_of (get type m)))
unfolding add_types
has-add_types id type listener i l [] m h = ground arith
has-add_types id type listener i l (t ∷ types) m h =
    rw
      (
        has-add_types id type listener i l types
            (put t (put id listener (listeners_of (get t m))) m) h,
        get-put t type (put id listener (listeners_of (get t m))) m,
      )
      (ground (arith, nat_eq.beq_iff t type, has-put i l id listener (listeners_of (get t m)) h))

has-remove :
    (id i l : ℕ) (found : Option (Dict ℕ ℕ))
    → has i l (listeners_of (Option.map (delete id) found))
      ≡ (not (id == i) && has i l (listeners_of found))
has-remove id i l none = ground arith
has-remove id i l (some listeners) = has-delete i l id listeners

abbrev pub is_empty : List ℕ → Bool
is_empty [] = true
is_empty (t ∷ ts) = false

with_all : (a b c : Bool) → ((a || b) || c) ≡ (a && true || (b || c))
with_all true b c = refl
with_all false b c = refl

with_some : (a b c : Bool) → (b || (a || c)) ≡ (a || (b || c))
with_some true true c = refl
with_some true false c = refl
with_some false b c = refl

without : (a b c : Bool) → ((a && b) || (a && c)) ≡ (a && (b || c))
without true b c = refl
without false b c = refl

is_called-add_listener :
    (i l type listener : ℕ) (types : List ℕ) (m : TransportMonitor)
    → ((add_listener listener types m).1 == i && not (listener == l)) ≡ false
    → is_called i l type (add_listener listener types m).0 ≡ (
        ((add_listener listener types m).1 == i && listener == l)
          && (is_empty types || any (λ t. t == type) types)
        || is_called i l type m)
unfolding add_listener send_event
is_called-add_listener i l type listener [] m h =
    let id = (m.sub_id + 1) % 2 ^ 64 in
    rw
      (
        any-append (λ call. call.0 == i && call.1 == l) (put id listener m.listeners_for_all_events)
            (listeners_of (get type m.listeners_by_type)),
        any-append (λ call. call.0 == i && call.1 == l) m.listeners_for_all_events
            (listeners_of (get type m.listeners_by_type)),
        has-put i l id listener m.listeners_for_all_events h,
      )
      (with_all (id == i && listener == l) (has i l m.listeners_for_all_events)
        (has i l (listeners_of (get type m.listeners_by_type))))
is_called-add_listener i l type listener (t ∷ types) m h =
    let id = (m.sub_id + 1) % 2 ^ 64 in
    rw
      (
        any-append (λ call. call.0 == i && call.1 == l) m.listeners_for_all_events
            (listeners_of (get type (add_types id listener (t ∷ types) m.listeners_by_type))),
        any-append (λ call. call.0 == i && call.1 == l) m.listeners_for_all_events
            (listeners_of (get type m.listeners_by_type)),
        has-add_types id type listener i l (t ∷ types) m.listeners_by_type h,
      )
      (with_some ((id == i && listener == l) && any (λ u. u == type) (t ∷ types))
        (has i l m.listeners_for_all_events)
        (has i l (listeners_of (get type m.listeners_by_type))))

is_called-remove_listener :
    (i l type id : ℕ) (m : TransportMonitor)
    → is_called i l type (remove_listener id m) ≡ (not (id == i) && is_called i l type m)
unfolding remove_listener send_event
is_called-remove_listener i l type id m =
    rw
      (
        any-append (λ call. call.0 == i && call.1 == l) (delete id m.listeners_for_all_events)
            (listeners_of (get type (map_values (delete id) m.listeners_by_type))),
        any-append (λ call. call.0 == i && call.1 == l) m.listeners_for_all_events
            (listeners_of (get type m.listeners_by_type)),
        has-delete i l id m.listeners_for_all_events,
        get-map_values type (delete id) m.listeners_by_type,
        has-remove id i l (get type m.listeners_by_type),
      )
      (without (not (id == i)) (has i l m.listeners_for_all_events)
        (has i l (listeners_of (get type m.listeners_by_type))))

added_self : (a b p q : Bool) → b ≡ true → ((a && b) && p || q) ≡ (a && p || q)
added_self true b p q h = rw h refl
added_self false b p q h = refl

-- Under the id that it is given, a listener that is added is called by the events of its types, of all types if none are given; under any other id each listener is called by the events that called it before. One that is removed is called by no event, and under the other ids all are as before.
pub monitor_lem :
    (i l type listener id : ℕ) (types : List ℕ) (m : TransportMonitor)
    → (is_called i listener type (add_listener listener types m).0 ≡ (
        (add_listener listener types m).1 == i && (is_empty types || any (λ t. t == type) types)
        || is_called i listener type m))
      × (((add_listener listener types m).1 == i) ≡ false
          → is_called i l type (add_listener listener types m).0 ≡ is_called i l type m)
      × (is_called i l type (remove_listener id m) ≡ (not (id == i) && is_called i l type m))
monitor_lem i l type listener id types m =
    let given = (add_listener listener types m).1 in
    let self : (listener == listener) ≡ true = (nat_eq.beq_iff listener listener).1 refl in
    (
      is_called-add_listener i listener type listener types m (rw self (ground arith))
          ∙ added_self (given == i) (listener == listener)
              (is_empty types || any (λ t. t == type) types) (is_called i listener type m) self,
      λ other. is_called-add_listener i l type listener types m (rw other refl) ∙ rw other refl,
      is_called-remove_listener i l type id m,
    )
