-- ===== src/Store/Sync.antt =====
-- store/store.go: what a galactic store does with the messages of the sync channel, and what a reset
-- leaves. The message is given as the values that its JSON object has under the keys that are
-- read, `none` where the key is missing or of another type, also where a new value is null; the conversion to the item type is a
-- parameter.
use ranch.Prelude.{
  Bool, List, Option, String, [], false, if◌then◌else◌, nat_eq, none, refl, some, string_eq, ℕ,
  ◌==◌, ◌∷◌, ◌≡◌,
}
use ranch.Prelude.Dict.{Dict, get, put}
use ranch.Store.{
  BusStore, Call, StoreChange, StoreStream, Value, already_subscribed, init_store, initialize,
  notify, on_store_change, put_internal, remove_internal, reset,
}
use ranch.Store.Streams.{subscribe}

pub record StoreResponse : Type 0 where
  pub store_id : Option String
  pub response_type : Option String
  pub items : Option (Dict String Value)
  pub item_id : Option String
  pub store_version : Option ℕ
  pub new_item_value : Value

unfoldable pub update_version_from_response : StoreResponse → BusStore → BusStore
update_version_from_response response store = elim response.store_version [
  | none ↦ record store { store_version = 1 }
  | some version ↦ record store { store_version = version }
]

-- An item whose value does not convert is left out.
unfoldable pub deserialize_items :
    (Value → Option Value) → Dict String Value → Dict String Value → Dict String Value
deserialize_items convert [] m = m
deserialize_items convert ((key, raw) ∷ rest) m =
    deserialize_items convert rest (elim (convert raw) [ none ↦ m | some value ↦ put key value m ])

unfoldable pub store_content_response :
    (Value → Option Value) → StoreResponse → BusStore → BusStore × List Call
store_content_response convert response store = elim response.items [
  | none ↦ (store, [])
  | some items ↦ initialize (record (update_version_from_response response store) {
    items = deserialize_items convert items [];
  })
]

-- 1 and 2 stand for the states "galacticSyncRemove" and "galacticSyncUpdate".
unfoldable pub update_store_response :
    (Value → Option Value) → StoreResponse → BusStore → BusStore × List Call
update_store_response convert response store = elim response.item_id [
  | none ↦ (store, [])
  | some item_id ↦
      let versioned = update_version_from_response response store in
      elim response.new_item_value [
        | none ↦
            let removed = remove_internal item_id 1 versioned in
            (removed.0, on_store_change removed.1 removed.0)
        | some raw ↦ elim (convert (some raw)) [
          | none ↦ (versioned, [])
          | some value ↦
              let done = put_internal item_id value 2 versioned in
              (done.0, on_store_change (some done.1) done.0)
        ]
      ]
]

abbrev text_or_empty : Option String → String
text_or_empty none = ""
text_or_empty (some s) = s

abbrev is_text : String → Option String → Bool
is_text s none = false
is_text s (some t) = t == s

-- The handler that initGalacticStore gives to the sync channel.
unfoldable pub handle_sync :
    (Value → Option Value) → StoreResponse → BusStore → BusStore × List Call
handle_sync convert response store =
    if text_or_empty response.store_id == store.name
    then (if is_text "storeContentResponse" response.response_type
        then store_content_response convert response store
        else (if is_text "updateStoreResponse" response.response_type
            then update_store_response convert response store
            else (store, [])))
    else (store, [])

-- After a reset the store is empty, of version 1 and not ready, and calls no stream that was made before it, also one that has a handler: that one refuses a new handler as already subscribed.
pub reset_lem :
    (i h : ℕ) (change : StoreChange) (stream : StoreStream) (store : BusStore)
    → get i store.streams ≡ some stream
    → stream.handler ≡ some h
    → ((reset store).0.items ≡ [])
      × ((reset store).0.store_version ≡ 1)
      × ((reset store).0.initialized ≡ false)
      × (on_store_change (some change) (reset store).0 ≡ [])
      × ((new : ℕ)
          → subscribe i (some new) (reset store).0 ≡ ((reset store).0, some already_subscribed))
unfolding reset init_store on_store_change notify subscribe
reset_lem i h change stream store there taken =
    (refl, refl, refl, refl, λ new. simp (there, taken, subscribe) refl)
