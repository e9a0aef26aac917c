-- ===== src/Bus/Manager/Galactic.antt =====
-- bus/channel_manager.go: channels that are made and destroyed, and mapped to a broker.
use ranch.Prelude.{
  Bool, Bool-cases, List, Option, String, [], any, any-append, ap, arith, eqb_refl, false,
  if◌then◌else◌, inl, inr, map, nat_eq, none, refl, some, string_eq, true, ℕ, ◌++◌, ◌∷◌, ◌≡◌,
}
use ranch.Prelude.Dict.{delete, get, get-delete, get-put, put}
use ranch.Bus.Channel.{Channel, ConnectionSub, new_channel, set_galactic, set_local}
use ranch.Bus.Channel.Broker.{
  add_broker_subscription_if_missing, close_broker_subscriptions,
  is_broker_subscribed_to_destination, is_for, stop_listening,
}
use ranch.Bus.Manager.{
  Channels, Monitored, broker_unsubscribed, channel_created, channel_destroyed, create_channel,
  destroy_channel, handle_galactic_channel_event, left_all, left_broker, mark_channel_as_galactic,
  mark_channel_as_local,
}

-- The first look-up after a put
there :
    (name : String) (c : Channel) (channels : Channels) → get name (put name c channels) ≡ some c
there name c channels = rw (get-put name name c channels, eqb_refl name) refl

made :
    (name : String) (channels : Channels)
    → get name channels ≡ none
    → create_channel name channels
      ≡ (put name (new_channel name) channels, channel_created name ∷ [], new_channel name)
unfolding create_channel
made name channels free = rw (free, create_channel) refl

unmade :
    (name : String) (fails : ℕ → Bool) (channels : Channels) (c : Channel)
    → get name channels ≡ some c
    → destroy_channel name fails channels ≡ (
      delete name channels,
      left_all name fails (close_broker_subscriptions c).1 ++ channel_destroyed name ∷ [],
    )
unfolding destroy_channel
unmade name fails channels c found = rw (found, destroy_channel) refl

erased :
    (name j : String) (c : Channel) (channels : Channels)
    → get name channels ≡ none
    → get j (delete name (put name c channels)) ≡ get j channels
erased name j c channels free =
    rw (get-delete name j (put name c channels), get-put name j c channels)
      (ground (arith, free, string_eq.beq_iff name j))

-- A channel that was not there is made and destroyed, with one event for each; afterwards no channel is different from before.
pub destroy-create_channel :
    (name : String) (fails : ℕ → Bool) (channels : Channels)
    → get name channels ≡ none
    → ((create_channel name channels).1 ≡ channel_created name ∷ [])
      × (get name (create_channel name channels).0 ≡ some (new_channel name))
      × ((destroy_channel name fails (create_channel name channels).0).1
          ≡ channel_destroyed name ∷ [])
      × ((j : String)
          → get j (destroy_channel name fails (create_channel name channels).0).0 ≡ get j channels)
unfolding new_channel close_broker_subscriptions left_all
destroy-create_channel name fails channels free =
    let c = new_channel name in
    rw (made name channels free, unmade name fails (put name c channels) c (there name c channels))
      (refl, there name c channels, refl, λ j. erased name j c channels free)

-- The subscription to a broker that a call ends
abbrev pub left_by : Monitored → List ℕ
left_by (left_broker sub) = sub ∷ []
left_by _ = []

abbrev pub left_subs : List Monitored → List ℕ
left_subs [] = []
left_subs (m ∷ ms) = left_by m ++ left_subs ms

-- The destination that a monitor event says has been left
abbrev pub told_by : Monitored → List String
told_by (broker_unsubscribed name dest) = dest ∷ []
told_by _ = []

abbrev pub told : List Monitored → List String
told [] = []
told (m ∷ ms) = told_by m ++ told ms

-- The destinations of the subscriptions whose calls do not fail
abbrev pub left_well : (ℕ → Bool) → List ConnectionSub → List String
left_well fails [] = []
left_well fails (cs ∷ subs) =
    let rest = left_well fails subs in if fails cs.sub then rest else cs.destination ∷ rest

left_all_lem :
    (name : String) (fails : ℕ → Bool) (subs : List ConnectionSub)
    → (left_subs (left_all name fails (map stop_listening subs)) ≡ map (λ cs. cs.sub) subs)
      × (told (left_all name fails (map stop_listening subs)) ≡ left_well fails subs)
unfolding left_all stop_listening
left_all_lem name fails [] = (refl, refl)
left_all_lem name fails (cs ∷ subs) =
    let rest = left_all_lem name fails subs in
    elim (Bool-cases (fails cs.sub)) [
      | inl failing ↦ rw failing (ap (◌∷◌ cs.sub) rest.0, rest.1)
      | inr fine ↦ rw fine (ap (◌∷◌ cs.sub) rest.0, ap (◌∷◌ cs.destination) rest.1)
    ]

-- Marking a channel as local takes away its mapping and all its subscriptions to brokers, each of which is left, once and in order, whichever of these calls fail; a monitor event tells of those that do not.
pub mark_channel_as_local_lem :
    (name : String) (fails : ℕ → Bool) (channels : Channels) (c : Channel)
    → get name channels ≡ some c
    → (get name (mark_channel_as_local name fails channels).0
        ≡ some (record c {
          galactic = false;
          galactic_mapped_destination = "";
          broker_subs = [];
          broker_conns = [];
        }))
      × (left_subs (mark_channel_as_local name fails channels).1 ≡ map (λ cs. cs.sub) c.broker_subs)
      × (told (mark_channel_as_local name fails channels).1 ≡ left_well fails c.broker_subs)
unfolding mark_channel_as_local close_broker_subscriptions set_local
mark_channel_as_local_lem name fails channels c found =
    let calls = left_all_lem name fails c.broker_subs in
    rw (found, mark_channel_as_local) (there name _ channels, calls.0, calls.1)

subscribed_now :
    (name dest : String) (conn sub : ℕ) (c : Channel)
    → is_broker_subscribed_to_destination conn dest
        (handle_galactic_channel_event name (some conn) dest (some sub) (set_galactic dest c)).0
      ≡ true
unfolding handle_galactic_channel_event is_broker_subscribed_to_destination
    add_broker_subscription_if_missing set_galactic
subscribed_now name dest conn sub c = elim (Bool-cases (any (is_for conn dest) c.broker_subs)) [
  | inl already ↦ rw already already
  | inr missing ↦
      let new : ConnectionSub = record {
        conn = conn;
        sub = sub;
        destination = dest;
        stopped = false;
      } in
      rw missing (
        rw
          (
            any-append (is_for conn dest) c.broker_subs (new ∷ []),
            missing,
            eqb_refl dest,
            eqb_refl conn,
          )
          refl)
]

marked :
    (name dest : String) (conn : ℕ) (answer : Option ℕ) (channels : Channels) (c : Channel)
    → get name channels ≡ some c
    → (let done =
          handle_galactic_channel_event name (some conn) dest answer (set_galactic dest c) in
        mark_channel_as_galactic name dest (some conn) answer channels
        ≡ (put name done.0 channels, done.1, none))
unfolding mark_channel_as_galactic
marked name dest conn answer channels c found = rw (found, mark_channel_as_galactic) refl

silent :
    (name dest : String) (conn : ℕ) (answer : Option ℕ) (c : Channel)
    → is_broker_subscribed_to_destination conn dest c ≡ true
    → (handle_galactic_channel_event name (some conn) dest answer (set_galactic dest c)).1 ≡ []
unfolding handle_galactic_channel_event is_broker_subscribed_to_destination set_galactic
silent name dest conn answer c already = rw already refl

-- Marking a channel as galactic is done once: where the broker gave a subscription the first time, marking it again for the same connection and destination calls the broker no more and sends no event.
pub mark_channel_as_galactic_twice :
    (name dest : String) (conn sub : ℕ) (answer : Option ℕ) (channels : Channels) (c : Channel)
    → get name channels ≡ some c
    → (mark_channel_as_galactic name dest
        (some conn)
        answer
        (mark_channel_as_galactic name dest (some conn) (some sub) channels).0).1
      ≡ []
mark_channel_as_galactic_twice name dest conn sub answer channels c found =
    let done =
      handle_galactic_channel_event name (some conn) dest (some sub) (set_galactic dest c) in
    rw
      (
        marked name dest conn (some sub) channels c found,
        marked name dest conn answer (put name done.0 channels) done.0 (there name done.0 channels),
      )
      (silent name dest conn answer done.0 (subscribed_now name dest conn sub c))
