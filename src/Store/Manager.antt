-- ===== src/Store/Manager.antt =====
-- store/store_manager.go: the stores by name, and the sync channels of the connections to brokers. A
-- connection is a number, its id; the text of an id is an argument.
use Prim.Native.String
use ranch.Prelude.{
  Bool, List, Option, String, [], false, if◌then◌else◌, map, nat_eq, none, refl, some, string_eq,
  true, ℕ, ◌++◌, ◌==◌, ◌∷◌, ◌≡◌,
}
use ranch.Prelude.Dict.{Dict, delete, get, get-put, put}
use ranch.Stomp.Config.{has_slash_suffix}
use ranch.Store.{BusStore, Call, init_store, new_bus_store, on_destroy}

pub record SyncChannelConfig : Type 0 where
  pub topic_prefix : String
  pub pub_prefix : String
  pub sync_channel_name : String

pub record StoreManager : Type 0 where
  pub stores : Dict String BusStore
  pub sync_channels : Dict ℕ SyncChannelConfig

-- What the manager does outside its maps: calls of a store, monitor events, and the two calls of the
-- channel manager.
pub data Outcome : Type 0 where
  called : Call → Outcome
  store_created store_destroyed : String → Outcome
  channel_made : String → Outcome
  channel_galactic : String → String → ℕ → Outcome

pub data OpenError : Type 0 where
  not_configured local_exists already_configured : OpenError

unfoldable pub create_store : String → StoreManager → StoreManager × List Outcome × BusStore
create_store name m =
    let made = new_bus_store name false in
    elim (get name m.stores) [
      | some store ↦ (m, [], store)
      | none ↦ (
        record m { stores = put name made.0 m.stores },
        map called made.1 ++ store_created name ∷ [],
        made.0,
      )
    ]

unfoldable pub destroy_store : String → StoreManager → StoreManager × List Outcome × Bool
destroy_store name m = elim (get name m.stores) [
  | none ↦ (m, [], false)
  | some store ↦ (
    record m { stores = delete name m.stores },
    map called (on_destroy store) ++ store_destroyed name ∷ [],
    true,
  )
]

abbrev slashed : String → String
slashed prefix = if has_slash_suffix prefix then prefix else String.◌++◌ prefix "/"

-- MarkChannelAsGalactic does not fail, since the channel has just been made.
unfoldable pub configure_store_sync_channel :
    (ℕ → String)
    → ℕ
    → String
    → String
    → StoreManager
    → StoreManager × List Outcome × Option OpenError
configure_store_sync_channel id_text conn topic_prefix pub_prefix m =
    let name = String.◌++◌ "transport-store-sync." (id_text conn) in
    elim (get conn m.sync_channels) [
      | some old ↦ (m, [], some already_configured)
      | none ↦ (
        record m {
          sync_channels =
              put conn
                (record {
                  topic_prefix = slashed topic_prefix;
                  pub_prefix = slashed pub_prefix;
                  sync_channel_name = name;
                })
                m.sync_channels;
        },
        channel_made name
            ∷ channel_galactic name (String.◌++◌ (slashed topic_prefix) name) conn
            ∷ [],
        none,
      )
    ]

unfoldable pub open_galactic_store :
    String → ℕ → StoreManager → StoreManager × List Outcome × Option BusStore × Option OpenError
open_galactic_store name conn m =
    let made = new_bus_store name true in
    elim (get conn m.sync_channels) [
      | none ↦ (m, [], none, some not_configured)
      | some config ↦ elim (get name m.stores) [
        | some store ↦
            if store.is_galactic
            then (m, [], some store, none)
            else (m, [], some store, some local_exists)
        | none ↦ (
          record m { stores = put name made.0 m.stores },
          map called made.1 ++ store_created name ∷ [],
          some made.0,
          none,
        )
      ]
    ]

-- Opening a galactic store is refused without a sync channel of the connection, and where a local store has the name; then nothing changes. Otherwise the manager has by then a galactic store of the name and returns it, and the stores of other names stay.
pub open_galactic_store_lem :
    (name : String) (conn : ℕ) (m : StoreManager)
    → (get conn m.sync_channels ≡ none
        → open_galactic_store name conn m ≡ (m, [], none, some not_configured))
      × ((config : SyncChannelConfig)
          → get conn m.sync_channels ≡ some config
          → ((store : BusStore)
              → get name m.stores ≡ some store
              → store.is_galactic ≡ false
              → open_galactic_store name conn m ≡ (m, [], some store, some local_exists))
            × ((store : BusStore)
                → get name m.stores ≡ some store
                → store.is_galactic ≡ true
                → open_galactic_store name conn m ≡ (m, [], some store, none))
            × (get name m.stores ≡ none
                → ((open_galactic_store name conn m).2 ≡ some (new_bus_store name true).0)
                  × ((new_bus_store name true).0.is_galactic ≡ true)
                  × ((j : String)
                      → get j (open_galactic_store name conn m).0.stores ≡ (
                          if name == j then some (new_bus_store name true).0 else get j m.stores))))
unfolding open_galactic_store new_bus_store init_store
open_galactic_store_lem name conn m = (
  λ unknown. rw (unknown, open_galactic_store) refl,
  λ config known. (
    λ store there loc. rw (known, there, open_galactic_store) (simp loc refl),
    λ store there galactic. rw (known, there, open_galactic_store) (simp galactic refl),
    λ free.
        rw (known, free, open_galactic_store)
          (refl, refl, λ j. get-put name j (new_bus_store name true).0 m.stores),
  ),
)
