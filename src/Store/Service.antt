-- ===== src/Store/Service.antt =====
-- store/store_sync_service.go: the service side of galactic stores. The clients' channels and the stores
-- that each has open, the listener of each store with the channels that it tells, and the requests.
-- A set of Go, `map[string]bool`, is a map to the unit. A request's payload is given as the values
-- under the keys that are read, `none` where the key is missing, nil or, for a name, not a string.
pub mod Listeners
pub mod Replica
use ranch.Prelude.{
  Bool, List, Option, String, [], false, if◌then◌else◌, map, nat_eq, none, some, string_eq, true, ℕ,
  ◌++◌, ◌==◌, ◌∷◌,
}
use ranch.Prelude.Dict.{Dict, delete, get, put}
use ranch.Store.{BusStore, Call, StoreChange, Value, put_context, remove_context}
use ranch.Store.Manager.{StoreManager}
use ranch.Store.Sync.{StoreResponse}

abbrev pub Names : Type 0
Names = Dict String (Unit {0})

pub record StoreSyncService : Type 0 where
  pub sync_clients : Dict String Names  -- the open stores of each client's channel
  pub sync_store_listeners : Dict String Names  -- the channels that each store's listener tells

pub data RequestCommand : Type 0 where
  open_store_request close_store_request update_store_request other_request : RequestCommand

pub record SyncRequest : Type 0 where
  pub command : RequestCommand
  pub id : ℕ
  pub store_id : Option String
  pub item_id : Option String
  pub new_item_value : Value

pub data Refusal : Type 0 where
  invalid_open invalid_close missing_store_id missing_item_id cannot_deserialize : Refusal
  cannot_open cannot_update : String → Refusal

-- What the service sends and calls. `content` stands for the callback that WhenReady of the store gets,
-- which sends the content of the store to the channel.
pub data Reply : Type 0 where
  content : String → String → Reply
  refused : String → Refusal → ℕ → Reply
  subscribed_stream unsubscribed_stream : String → Reply
  store_called : Call → Reply

unfoldable pub new_store_sync_service : StoreSyncService
new_store_sync_service = record { sync_clients = []; sync_store_listeners = [] }

abbrev pub names_of : Option Names → Names
names_of none = []
names_of (some m) = m

-- addChannel of the listener of a store, which is made when it is not there
unfoldable pub add_channel : String → String → Dict String Names → Dict String Names
add_channel store_id channel listeners =
    put store_id (put channel tt (names_of (get store_id listeners))) listeners

unfoldable pub put_or_drop : String → Names → Dict String Names → Dict String Names
put_or_drop store_id [] listeners = delete store_id listeners
put_or_drop store_id (c ∷ cs) listeners = put store_id (c ∷ cs) listeners

-- removeChannel, and the listener is dropped when it has no channel left
unfoldable pub remove_channel : String → String → Dict String Names → Dict String Names
remove_channel store_id channel listeners = elim (get store_id listeners) [
  | none ↦ listeners
  | some channels ↦ put_or_drop store_id (delete channel channels) listeners
]

abbrev is_missing : Option Names → Bool
is_missing none = true
is_missing (some m) = false

-- The listener's stream, as the listener is made and dropped
unfoldable pub stream_calls : String → Dict String Names → Dict String Names → List Reply
stream_calls store_id before after =
    if is_missing (get store_id before)
    then (if is_missing (get store_id after) then [] else subscribed_stream store_id ∷ [])
    else (if is_missing (get store_id after) then unsubscribed_stream store_id ∷ [] else [])

unfoldable pub open_new_client_sync_channel : String → StoreSyncService → StoreSyncService
open_new_client_sync_channel channel s = elim (get channel s.sync_clients) [
  | some open_stores ↦ s
  | none ↦ record s { sync_clients = put channel [] s.sync_clients }
]

-- The loop over the open stores of a client that is closed
unfoldable pub remove_from_all : String → Names → Dict String Names → Dict String Names × List Reply
remove_from_all channel [] listeners = (listeners, [])
remove_from_all channel ((store_id, x) ∷ rest) listeners =
    let next = remove_channel store_id channel listeners in
    let others = remove_from_all channel rest next in
    (others.0, stream_calls store_id listeners next ++ others.1)

unfoldable pub close_client_sync_channel : String → StoreSyncService → StoreSyncService × List Reply
close_client_sync_channel channel s = elim (get channel s.sync_clients) [
  | none ↦ (s, [])
  | some open_stores ↦
      let removed = remove_from_all channel open_stores s.sync_store_listeners in
      (
        record s { sync_clients = delete channel s.sync_clients; sync_store_listeners = removed.0 },
        removed.1,
      )
]

-- A request reaches a client object that the handler holds. `live` tells whether that is the object
-- that the service has under the channel's name; a late one has been dropped from the map.
unfoldable pub with_open : Bool → String → (Names → Names) → Dict String Names → Dict String Names
with_open live channel f clients = elim (get channel clients) [
  | none ↦ clients
  | some open_stores ↦ if live then put channel (f open_stores) clients else clients
]

-- getStringProperty, with the test for the empty string
abbrev pub named : Option String → Option String
named none = none
named (some s) = if s == "" then none else some s

unfoldable pub open_store_named :
    Bool → String → String → StoreSyncService → StoreSyncService × List Reply
open_store_named live channel store_id s =
    let listeners = add_channel store_id channel s.sync_store_listeners in
    (
      record s {
        sync_clients = with_open live channel (put store_id tt) s.sync_clients;
        sync_store_listeners = listeners;
      },
      stream_calls store_id s.sync_store_listeners listeners ++ content channel store_id ∷ [],
    )

unfoldable pub open_sync_store :
    StoreManager → Bool → String → SyncRequest → StoreSyncService → StoreSyncService × List Reply
open_sync_store m live channel r s = elim (named r.store_id) [
  | none ↦ (s, refused channel invalid_open r.id ∷ [])
  | some store_id ↦ elim (get store_id m.stores) [
    | none ↦ (s, refused channel (cannot_open store_id) r.id ∷ [])
    | some store ↦ open_store_named live channel store_id s
  ]
]

unfoldable pub close_store_named :
    Bool → String → String → StoreSyncService → StoreSyncService × List Reply
close_store_named live channel store_id s =
    let listeners = remove_channel store_id channel s.sync_store_listeners in
    (
      record s {
        sync_clients = with_open live channel (delete store_id) s.sync_clients;
        sync_store_listeners = listeners;
      },
      stream_calls store_id s.sync_store_listeners listeners,
    )

unfoldable pub close_sync_store :
    Bool → String → SyncRequest → StoreSyncService → StoreSyncService × List Reply
close_sync_store live channel r s = elim (named r.store_id) [
  | none ↦ (s, refused channel invalid_close r.id ∷ [])
  | some store_id ↦ close_store_named live channel store_id s
]

-- The store's own call: 3 and 4 stand for galacticStoreSyncRemove and galacticStoreSyncUpdate.
unfoldable pub update_item :
    (Value → Option Value) → String → Value → BusStore → Option (BusStore × List Call)
update_item convert item_id none store =
    let done = remove_context false item_id 3 store in some (done.0, done.1)
update_item convert item_id (some raw) store = elim (convert (some raw)) [
  | none ↦ none
  | some value ↦ elim value [
    | none ↦ none
    | some v ↦ some (put_context false item_id (some v) 4 store)
  ]
]

unfoldable pub update_sync_store :
    (Value → Option Value) → StoreManager → String → SyncRequest → StoreManager × List Reply
update_sync_store convert m channel r = elim (named r.store_id) [
  | none ↦ (m, refused channel missing_store_id r.id ∷ [])
  | some store_id ↦ elim (named r.item_id) [
    | none ↦ (m, refused channel missing_item_id r.id ∷ [])
    | some item_id ↦ elim (get store_id m.stores) [
      | none ↦ (m, refused channel (cannot_update store_id) r.id ∷ [])
      | some store ↦ elim (update_item convert item_id r.new_item_value store) [
        | none ↦ (m, refused channel cannot_deserialize r.id ∷ [])
        | some (after, calls) ↦
            (record m { stores = put store_id after m.stores }, map store_called calls)
      ]
    ]
  ]
]

-- The handler that openNewClientSyncChannel sets for the requests on a channel
unfoldable pub handle_request :
    (Value → Option Value)
    → Bool
    → String
    → SyncRequest
    → StoreManager
    → StoreSyncService
    → StoreManager × StoreSyncService × List Reply
handle_request convert live channel r m s =
    let opened = open_sync_store m live channel r s in
    let closed = close_sync_store live channel r s in
    let updated = update_sync_store convert m channel r in
    elim r.command [
      | open_store_request ↦ (m, opened.0, opened.1)
      | close_store_request ↦ (m, closed.0, closed.1)
      | update_store_request ↦ (updated.0, s, updated.1)
      | other_request ↦ (m, s, [])
    ]

-- The response to a change that a listener sends to each of its channels
unfoldable pub update_store_of : String → StoreChange → StoreResponse
update_store_of store_id change = record {
  store_id = some store_id;
  response_type = some "updateStoreResponse";
  items = none;
  item_id = some change.id;
  store_version = some change.store_version;
  new_item_value = if change.is_delete_change then none else change.value;
}
