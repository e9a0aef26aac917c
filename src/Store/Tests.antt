-- ===== src/Store/Tests.antt =====
-- Runs of a store at fixed inputs.
use ranch.Store.Races.Calls.{race_run_lem}
use ranch.Store.Races.{
  Part, awaited, made, race_run, race_step, told, versions_from, write, written,
}
use ranch.Prelude.{
  Bool, List, [], arith, count_if, false, length, map, nat_eq, none, refl, some, string_eq, true, ℕ,
  ◌%◌, ◌+◌, ◌==◌, ◌^◌, ◌∷◌, ◌≡◌,
}
use ranch.Prelude.Dict.{get, put}
use ranch.Store.{
  BusStore, StoreChange, StoreStream, already_subscribed, matches, next_version, on_store_change,
  put_internal, reset, stream_on_store_change,
}
use ranch.Store.Streams.{IsRegistered, subscribe, subscribe-IsRegistered, unsubscribe}
use ranch.Store.Mirror.{IsMirror, Op, apply_changes, deliveries, mirror, put_op, remove_op, run_ops}
use ranch.Store.Sync.{reset_lem}
use ranch.Store.Manager.{StoreManager}
use ranch.Store.Service.{SyncRequest, new_store_sync_service, open_store_request, update_store_of}
use ranch.Store.Service.Listeners.{
  IsSynced, SyncEvent, channel_closed, channel_opened, request_arrived, sync_run, sync_run-IsSynced,
}
use ranch.Store.Service.Replica.{Follows, handle_all, replica}

abbrev all_changes : StoreStream
all_changes = record {
  handler = some 9;
  filter = record { states = []; item_id = ""; match_all_items = true };
}

-- One stream of all changes, at the address 4, and one of "b", at 5, with no handler.
abbrev local : BusStore
local = record {
  name = "s";
  items = ("a", some 1) ∷ [];
  store_version = 2;
  store_streams = 4 ∷ [];
  mutation_streams = [];
  initialized = true;
  is_galactic = false;
  streams =
      (4, all_changes)
      ∷ (
        5,
        record {
          handler = none;
          filter = record { states = []; item_id = "b"; match_all_items = false };
        },
      )
      ∷ [];
  mutations = [];
}

local-IsRegistered : IsRegistered local
unfolding get
local-IsRegistered i = ground arith

local-IsMirror : IsMirror 4 local
unfolding get
local-IsMirror = (all_changes, refl, refl, refl, refl)

abbrev ops : List Op
ops =
    put_op false "b" (some 7) 0
    ∷ put_op false "c" none 0
    ∷ put_op true "d" (some 8) 0
    ∷ remove_op false "a" 0
    ∷ remove_op false "z" 0
    ∷ []

mirror_example :
    (apply_changes (deliveries 4 (run_ops ops local).1) local.items ≡ (run_ops ops local).0.items)
    × ((run_ops ops local).0.store_version
        ≡ (local.store_version + length (deliveries 4 (run_ops ops local).1)) % 2 ^ 64)
mirror_example = mirror 4 ops local local-IsRegistered local-IsMirror refl (omega arith)

-- Two puts of one item overlap, and the stream hears of the second one first.
abbrev parts : List Part
parts =
    written (put_op false "b" (some 7) 0)
    ∷ written (put_op false "b" (some 8) 0)
    ∷ told 1
    ∷ told 0
    ∷ []

abbrev is_seven : StoreChange → Bool
is_seven c = elim c.value [ none ↦ false | some v ↦ v == 7 ]

race_run_lem_example :
    (apply_changes (made parts local) local.items
      ≡ (race_run parts (record { store = local; pending = [] })).0.store.items)
    × (map (λ c. c.store_version) (made parts local)
        ≡ versions_from local.store_version (made parts local))
    × (count_if is_seven (deliveries 4 (race_run parts (record { store = local; pending = [] })).1)
          + awaited 4 is_seven (race_run parts (record { store = local; pending = [] })).0.pending
        ≡ count_if is_seven (made parts local))
race_run_lem_example = race_run_lem 4 is_seven parts local local-IsRegistered local-IsMirror refl

-- The store ends with 8, and a copy by the calls with 7.
late_copy :
    (get "b" (race_run parts (record { store = local; pending = [] })).0.store.items
      ≡ some (some 8))
    × (get "b" (
          apply_changes
            (deliveries 4 (race_run parts (record { store = local; pending = [] })).1)
            local.items)
        ≡ some (some 7))
unfolding race_step write put_internal next_version get put stream_on_store_change matches
late_copy = (refl, refl)

abbrev change : StoreChange
change = record { id = "b"; value = some 7; state = 0; is_delete_change = false; store_version = 3 }

subscribe-IsRegistered_example :
    IsRegistered (subscribe 5 (some 6) local).0 × IsRegistered (unsubscribe 5 local).0
subscribe-IsRegistered_example = subscribe-IsRegistered 5 (some 6) local local-IsRegistered

there : get 4 local.streams ≡ some all_changes
unfolding get
there = refl

reset_lem_example :
    ((reset local).0.items ≡ [])
    × ((reset local).0.store_version ≡ 1)
    × ((reset local).0.initialized ≡ false)
    × (on_store_change (some change) (reset local).0 ≡ [])
    × ((new : ℕ)
        → subscribe 4 (some new) (reset local).0 ≡ ((reset local).0, some already_subscribed))
reset_lem_example = reset_lem 4 9 change all_changes local there refl

abbrev galactic : BusStore
galactic = record local { is_galactic = true }

abbrev manager : StoreManager
manager = record {
  stores = ("s", local) ∷ [];
  sync_channels =
      (6, record { topic_prefix = "/topic/"; pub_prefix = "/pub/"; sync_channel_name = "sync-6" })
      ∷ [];
}

abbrev opening : SyncRequest
opening = record {
  command = open_store_request;
  id = 1;
  store_id = some "s";
  item_id = none;
  new_item_value = none;
}

abbrev sync_events : List SyncEvent
sync_events =
    channel_opened "c"
    ∷ request_arrived "c" opening
    ∷ request_arrived "c" (record opening { store_id = none })
    ∷ channel_closed "c"
    ∷ []

nobody-IsSynced : IsSynced new_store_sync_service
unfolding new_store_sync_service get
nobody-IsSynced store_id channel = refl

sync_run-IsSynced_example : IsSynced (sync_run some sync_events (manager, new_store_sync_service)).1
sync_run-IsSynced_example =
    sync_run-IsSynced some sync_events manager new_store_sync_service nobody-IsSynced

no_client : get "c" new_store_sync_service.sync_clients ≡ none
unfolding new_store_sync_service get
no_client = refl

same_items : Follows galactic.items local.items
unfolding get
same_items id = ground arith

replica_example :
    Follows
      (handle_all some
        (map (update_store_of local.name) (deliveries 4 (run_ops ops local).1))
        galactic).items
      (run_ops ops local).0.items
replica_example =
    replica some 4 ops local galactic (λ v. refl) local-IsRegistered local-IsMirror refl
      (omega arith) refl same_items
