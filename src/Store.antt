-- ===== src/Store.antt =====
-- store/store.go, store_stream.go and mutation_store_stream.go: a bus store, its streams and the
-- operations on them. States and request types are numbers that stand for the values that Go compares
-- with `==`, a value is nil or a number, a handler is a number, and a stream is known by its address: the
-- objects are in `streams`, the ones that the store notifies in `store_streams`. The calls of
-- handlers, the requests to the broker and the monitor events are a list. The version is an int64,
-- kept as its 64 bits. A put or a removal is one step here, the calls of the streams included; Races
-- has it in parts.
pub mod Sync
pub mod Streams
pub mod Mirror
pub mod Races
pub mod Manager
pub mod Service
mod Tests
use ranch.Prelude.{
  Bool, List, Option, String, [], any, false, if◌then◌else◌, index_of, length, ltb, nat_eq, none,
  remove_sub, some, string_eq, true, ℕ, ◌%◌, ◌++◌, ◌+◌, ◌==◌, ◌^◌, ◌||◌, ◌∷◌,
}
use ranch.Prelude.Dict.{Dict, delete, get, put}

-- A value of an item, of type any: none is nil.
abbrev pub Value : Type 0
Value = Option ℕ

pub record StoreChange : Type 0 where
  pub id : String
  pub value : Value
  pub state : ℕ
  pub is_delete_change : Bool
  pub store_version : ℕ

pub record StreamFilter : Type 0 where
  pub states : List ℕ
  pub item_id : String
  pub match_all_items : Bool

pub record StoreStream : Type 0 where
  pub handler : Option ℕ
  pub filter : StreamFilter

pub record MutationRequest : Type 0 where
  pub request : ℕ
  pub request_type : ℕ
  pub success_handler : ℕ
  pub error_handler : ℕ

pub record MutationStoreStream : Type 0 where
  pub handler : Option ℕ
  pub request_types : List ℕ

pub data StoreError : Type 0 where
  invalid_handler already_subscribed not_subscribed not_for_galactic already_initialized :
      StoreError

-- The requests on the sync channel of a galactic store.
pub data GalacticRequest : Type 0 where
  open_store close_store : String → GalacticRequest
  update_store : String → ℕ → String → Value → GalacticRequest

-- What the store calls: the handler of a stream, the broker's connection, the monitor.
pub data Call : Type 0 where
  changed : ℕ → ℕ → StoreChange → Call
  requested : ℕ → ℕ → MutationRequest → Call
  sent : GalacticRequest → Call
  store_initialized : Call

pub record BusStore : Type 0 where
  pub name : String
  pub items : Dict String Value
  pub store_version : ℕ
  pub store_streams : List ℕ
  pub mutation_streams : List ℕ
  pub initialized : Bool
  pub is_galactic : Bool
  pub streams : Dict ℕ StoreStream
  pub mutations : Dict ℕ MutationStoreStream

unfoldable pub init_store : BusStore → BusStore
init_store store = record store {
  store_streams = [];
  mutation_streams = [];
  items = [];
  store_version = 1;
  initialized = false;
}

-- The request is not sent under a cancelled context.
unfoldable pub send_galactic_request : Bool → GalacticRequest → List Call
send_galactic_request cancelled request = if cancelled then [] else sent request ∷ []

abbrev pub open_request : BusStore → List Call
open_request store =
    if store.is_galactic then send_galactic_request false (open_store store.name) else []

unfoldable pub new_bus_store : String → Bool → BusStore × List Call
new_bus_store name is_galactic =
    let store : BusStore = record {
      name = name;
      items = [];
      store_version = 1;
      store_streams = [];
      mutation_streams = [];
      initialized = false;
      is_galactic = is_galactic;
      streams = [];
      mutations = [];
    } in
    (init_store store, open_request store)

unfoldable pub on_destroy : BusStore → List Call
on_destroy store =
    if store.is_galactic then send_galactic_request false (close_store store.name) else []

unfoldable pub matches : StreamFilter → StoreChange → Bool
matches f change =
    if f.match_all_items || (f.item_id == change.id)
    then (length f.states == 0) || any (λ s. s == change.state) f.states
    else false

unfoldable pub matches_request : List ℕ → MutationRequest → Bool
matches_request request_types request =
    (length request_types == 0) || any (λ s. request.request_type == s) request_types

-- storeStream.onStoreChange, for the stream at an address
unfoldable pub stream_on_store_change : Option StoreStream → StoreChange → ℕ → List Call
stream_on_store_change none change i = []
stream_on_store_change (some stream) change i = elim stream.handler [
  | none ↦ []
  | some h ↦ if matches stream.filter change then changed i h change ∷ [] else []
]

unfoldable pub notify : Dict ℕ StoreStream → StoreChange → List ℕ → List Call
notify streams change [] = []
notify streams change (i ∷ rest) =
    stream_on_store_change (get i streams) change i ++ notify streams change rest

unfoldable pub on_store_change : Option StoreChange → BusStore → List Call
on_store_change none store = []
on_store_change (some change) store = notify store.streams change store.store_streams

unfoldable pub next_version : BusStore → ℕ
next_version store =
    if store.is_galactic then store.store_version else (store.store_version + 1) % 2 ^ 64

unfoldable pub put_internal : String → Value → ℕ → BusStore → BusStore × StoreChange
put_internal id value state store =
    let version = next_version store in
    (
      record store { store_version = version; items = put id value store.items },
      record {
        id = id;
        value = value;
        state = state;
        is_delete_change = false;
        store_version = version;
      },
    )

unfoldable pub remove_internal : String → ℕ → BusStore → BusStore × Option StoreChange
remove_internal id state store = elim (get id store.items) [
  | none ↦ (store, none)
  | some value ↦
      let version = next_version store in
      (
        record store { store_version = version; items = delete id store.items },
        some (record {
          id = id;
          value = value;
          state = state;
          is_delete_change = true;
          store_version = version;
        }),
      )
]

unfoldable pub put_context : Bool → String → Value → ℕ → BusStore → BusStore × List Call
put_context cancelled id value state store =
    let done = put_internal id value state store in
    if cancelled
    then (store, [])
    else (if store.is_galactic
        then (
          store,
          send_galactic_request cancelled (update_store store.name store.store_version id value),
        )
        else (done.0, on_store_change (some done.1) done.0))

unfoldable pub remove_context : Bool → String → ℕ → BusStore → BusStore × List Call × Bool
remove_context cancelled id state store =
    let done = remove_internal id state store in
    if cancelled
    then (store, [], false)
    else (if store.is_galactic
        then elim (get id store.items) [
          | none ↦ (store, [], false)
          | some value ↦ (
            store,
            send_galactic_request cancelled (update_store store.name store.store_version id none),
            true,
          )
        ]
        else (
          done.0,
          on_store_change done.1 done.0,
          elim done.1 [ none ↦ false | some change ↦ true ],
        ))

unfoldable pub initialize : BusStore → BusStore × List Call
initialize store =
    if store.initialized
    then (store, [])
    else (record store { initialized = true }, store_initialized ∷ [])

abbrev put_all : Dict String Value → Dict String Value → Dict String Value
put_all [] m = m
put_all ((k, v) ∷ rest) m = put_all rest (put k v m)

unfoldable pub populate : Dict String Value → BusStore → BusStore × List Call × Option StoreError
populate items store =
    let filled = initialize (record store { items = put_all items store.items }) in
    if store.is_galactic
    then (store, [], some not_for_galactic)
    else (if ltb 0 (length store.items)
        then (store, [], some already_initialized)
        else (filled.0, filled.1, none))

unfoldable pub reset : BusStore → BusStore × List Call
reset store = (init_store store, open_request (init_store store))

-- OnChange and OnAllChanges: a new stream, at an address that is not in use
unfoldable pub new_store_stream : ℕ → StreamFilter → BusStore → BusStore
new_store_stream i f store = record store {
  streams = put i (record { handler = none; filter = f }) store.streams;
}

-- onStreamUnsubscribe, by swapping with the last
unfoldable pub on_stream_unsubscribe : ℕ → List ℕ → List ℕ
on_stream_unsubscribe i streams =
    if any (λ s. s == i) streams
    then remove_sub streams (index_of (λ s. s == i) streams)
    else streams
