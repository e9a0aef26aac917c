-- ===== src/Bus/Manager.antt =====
-- bus/channel_manager.go: the channels of a bus by name. Each operation looks its channel up by name and
-- changes it there, so the map holds the channels themselves. A connection to a broker is its id,
-- a uuid a number; what Subscribe and Unsubscribe of the broker answer is an argument. The monitor
-- events that are sent, and the calls of the broker, are a list; the notice on brokerMappedEvent,
-- dropped when nobody listens, is left out.
pub mod Galactic
use ranch.Prelude.{
  Bool, List, Option, String, [], if◌then◌else◌, nat_eq, none, some, string_eq, ℕ, ◌++◌, ◌∷◌,
}
use ranch.Prelude.Dict.{Dict, delete, get, put}
use ranch.Bus.Channel.{
  Channel, ConnectionSub, Handler, new_channel, set_galactic, set_local, subscribe_handler,
  unsubscribe_handler,
}
use ranch.Bus.Channel.Broker.{
  add_broker_subscription_if_missing, close_broker_subscriptions,
  is_broker_subscribed_to_destination,
}

pub data Monitored : Type 0 where
  channel_created channel_destroyed subscriber_joined subscriber_left : String → Monitored
  broker_subscribed broker_unsubscribed : String → String → Monitored
  asked : ℕ → String → Monitored  -- conn.Subscribe
  left_broker : ℕ → Monitored  -- sub.Unsubscribe

pub data ManagerError : Type 0 where
  no_channel : String → ManagerError
  no_handler : String → ManagerError

abbrev pub Channels : Type 0
Channels = Dict String Channel

unfoldable pub create_channel : String → Channels → Channels × List Monitored × Channel
create_channel name channels = elim (get name channels) [
  | some c ↦ (channels, [], c)
  | none ↦ (put name (new_channel name) channels, channel_created name ∷ [], new_channel name)
]

-- The loop over what closeBrokerSubscriptions gives: `fails` tells for which Unsubscribe fails.
unfoldable pub left_all : String → (ℕ → Bool) → List ConnectionSub → List Monitored
left_all name fails [] = []
left_all name fails (cs ∷ rest) =
    (left_broker cs.sub
      ∷ (if fails cs.sub then [] else broker_unsubscribed name cs.destination ∷ []))
    ++ left_all name fails rest

unfoldable pub destroy_channel : String → (ℕ → Bool) → Channels → Channels × List Monitored
destroy_channel name fails channels = elim (get name channels) [
  | none ↦ (channels, [])
  | some c ↦ (
    delete name channels,
    left_all name fails (close_broker_subscriptions c).1 ++ channel_destroyed name ∷ [],
  )
]

unfoldable pub subscribe_channel_handler :
    String → Handler → Channels → Channels × List Monitored × Option ManagerError
subscribe_channel_handler name h channels = elim (get name channels) [
  | none ↦ (channels, [], some (no_channel name))
  | some c ↦ (put name (subscribe_handler h c) channels, subscriber_joined name ∷ [], none)
]

unfoldable pub unsubscribe_channel_handler :
    String → Option ℕ → Channels → Channels × List Monitored × Option ManagerError
unsubscribe_channel_handler name uuid channels = elim (get name channels) [
  | none ↦ (channels, [], some (no_channel name))
  | some c ↦
      let done = unsubscribe_handler uuid c in
      if done.1
      then (put name done.0 channels, subscriber_left name ∷ [], none)
      else (put name done.0 channels, [], some (no_handler name))
]

-- handleGalacticChannelEvent: `answer` is the subscription that the broker gives, if it does not fail.
unfoldable pub handle_galactic_channel_event :
    String → Option ℕ → String → Option ℕ → Channel → Channel × List Monitored
handle_galactic_channel_event name none dest answer c = (c, [])
handle_galactic_channel_event name (some conn) dest answer c =
    if is_broker_subscribed_to_destination conn dest c then (c, []) else elim answer [
      | none ↦ (c, asked conn dest ∷ [])
      | some sub ↦
          let added = add_broker_subscription_if_missing conn sub dest c in
          (
            added.0,
            asked conn dest
                ∷ (if added.1 then broker_subscribed name dest ∷ [] else left_broker sub ∷ []),
          )
    ]

unfoldable pub mark_channel_as_galactic :
    String
    → String
    → Option ℕ
    → Option ℕ
    → Channels
    → Channels × List Monitored × Option ManagerError
mark_channel_as_galactic name dest conn answer channels = elim (get name channels) [
  | none ↦ (channels, [], some (no_channel name))
  | some c ↦
      let done = handle_galactic_channel_event name conn dest answer (set_galactic dest c) in
      (put name done.0 channels, done.1, none)
]

unfoldable pub mark_channel_as_local :
    String → (ℕ → Bool) → Channels → Channels × List Monitored × Option ManagerError
mark_channel_as_local name fails channels = elim (get name channels) [
  | none ↦ (channels, [], some (no_channel name))
  | some c ↦
      let closed = close_broker_subscriptions (set_local c) in
      (put name closed.0 channels, left_all name fails closed.1, none)
]
