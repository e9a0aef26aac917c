-- ===== src/Store/Service/Listeners.antt =====
-- store/store_sync_service.go: a store's listener tells the channels that have the store open.
use ranch.Store.{Value}
use ranch.Prelude.{
  Bool, List, Option, Option-cases, String, [], arith, eqb_refl, false, if◌then◌else◌, inl, inr,
  nat_eq, none, refl, some, string_eq, true, ◌&&◌, ◌==◌, ◌||◌, ◌∷◌, ◌≡◌,
}
use ranch.Prelude.Dict.{Dict, delete, get, get-delete, get-put, put}
use ranch.Store.Manager.{StoreManager}
use ranch.Store.Service.{
  Names, RequestCommand, StoreSyncService, SyncRequest, add_channel, close_client_sync_channel,
  close_store_named, close_store_request, close_sync_store, handle_request, named, names_of,
  open_new_client_sync_channel, open_store_named, open_store_request, open_sync_store,
  other_request, put_or_drop, remove_channel, remove_from_all, update_store_request, with_open,
}

abbrev pub is_there : Option (Unit {0}) → Bool
is_there none = false
is_there (some x) = true

-- Whether a name is in the set under a key.
abbrev pub member : String → String → Dict String Names → Bool
member key name m = is_there (get name (names_of (get key m)))

abbrev is_empty : Option Names → Bool
is_empty none = false
is_empty (some []) = true
is_empty (some (c ∷ cs)) = false

member-add_channel :
    (s c key name : String) (m : Dict String Names)
    → member key name (add_channel s c m) ≡ (s == key && c == name || member key name m)
unfolding add_channel
member-add_channel s c key name m = rw (get-put s key (put c tt (names_of (get s m))) m) (
    ground (
      arith,
      string_eq.beq_iff s key,
      string_eq.beq_iff c name,
      get-put c name tt (names_of (get s m)),
    ))

names-put_or_drop :
    (s key : String) (names : Names) (m : Dict String Names)
    → names_of (get key (put_or_drop s names m))
      ≡ (if s == key then names else names_of (get key m))
unfolding put_or_drop
names-put_or_drop s key [] m = rw (get-delete s key m) (ground arith)
names-put_or_drop s key (c ∷ cs) m = rw (get-put s key (c ∷ cs) m) (ground arith)

remove_missing : (s c : String) (m : Dict String Names) → get s m ≡ none → remove_channel s c m ≡ m
unfolding remove_channel
remove_missing s c m missing = rw (missing, remove_channel) refl

remove_there :
    (s c : String) (channels : Names) (m : Dict String Names)
    → get s m ≡ some channels
    → remove_channel s c m ≡ put_or_drop s (delete c channels) m
unfolding remove_channel
remove_there s c channels m there = rw (there, remove_channel) refl

names-remove_channel :
    (s c key : String) (m : Dict String Names)
    → names_of (get key (remove_channel s c m))
      ≡ (if s == key then delete c (names_of (get s m)) else names_of (get key m))
unfolding delete
names-remove_channel s c key m = elim (Option-cases (get s m)) [
  | inl missing ↦
      rw (remove_missing s c m missing) (ground (arith, missing, string_eq.beq_iff s key))
  | inr (channels, there) ↦
      rw (remove_there s c channels m there, there) (names-put_or_drop s key (delete c channels) m)
]

member-remove_channel :
    (s c key name : String) (m : Dict String Names)
    → member key name (remove_channel s c m)
      ≡ (if s == key && c == name then false else member key name m)
member-remove_channel s c key name m =
    rw (names-remove_channel s c key m)
      (ground (arith, string_eq.beq_iff s key, get-delete c name (names_of (get s m))))

member-remove_from_all :
    (c key name : String) (stores : Names) (m : Dict String Names)
    → member key name (remove_from_all c stores m).0
      ≡ (if c == name && is_there (get key stores) then false else member key name m)
unfolding remove_from_all get
member-remove_from_all c key name [] m = ground arith
member-remove_from_all c key name ((s, x) ∷ rest) m =
    rw
      (
        member-remove_from_all c key name rest (remove_channel s c m),
        member-remove_channel s c key name m,
      )
      (ground arith)

-- What is under another key, or the new value.
names-with_open :
    (c key : String) (f : Names → Names) (clients : Dict String Names) (open_stores : Names)
    → get c clients ≡ some open_stores
    → names_of (get key (with_open true c f clients))
      ≡ (if c == key then f open_stores else names_of (get key clients))
unfolding with_open
names-with_open c key f clients open_stores there =
    rw (there, with_open) (rw (get-put c key (f open_stores) clients) (ground arith))

-- A store's listener tells exactly the channels whose clients have the store open.
abbrev pub IsSynced : StoreSyncService → Type 0
IsSynced s =
    (store_id channel : String)
    → member store_id channel s.sync_store_listeners ≡ member channel store_id s.sync_clients

open_channel-IsSynced :
    (c : String) (s : StoreSyncService) → IsSynced s → IsSynced (open_new_client_sync_channel c s)
unfolding open_new_client_sync_channel
open_channel-IsSynced c s synced store_id channel =
    let before = synced store_id channel in
    elim (Option-cases (get c s.sync_clients)) [
      | inl missing ↦
          rw (missing, open_new_client_sync_channel)
            (rw (get-put c channel [] s.sync_clients) (ground (arith, string_eq.beq_iff c channel)))
      | inr (stores, there) ↦ rw (there, open_new_client_sync_channel) before
    ]

close_channel-IsSynced :
    (c : String) (s : StoreSyncService) → IsSynced s → IsSynced (close_client_sync_channel c s).0
unfolding close_client_sync_channel get
close_channel-IsSynced c s synced store_id channel =
    let before = synced store_id channel in
    elim (Option-cases (get c s.sync_clients)) [
      | inl missing ↦ rw (missing, close_client_sync_channel) before
      | inr (stores, there) ↦
          rw (there, close_client_sync_channel)
            (rw
              (
                member-remove_from_all c store_id channel stores s.sync_store_listeners,
                get-delete c channel s.sync_clients,
              )
              (ground (arith, string_eq.beq_iff c channel)))
    ]

open_store-IsSynced :
    (c store : String) (s : StoreSyncService) (stores : Names)
    → get c s.sync_clients ≡ some stores
    → IsSynced s
    → IsSynced (open_store_named true c store s).0
unfolding open_store_named
open_store-IsSynced c store s stores there synced store_id channel =
    let before = synced store_id channel in
    rw
      (
        member-add_channel store c store_id channel s.sync_store_listeners,
        names-with_open c channel (put store tt) s.sync_clients stores there,
      )
      (ground (arith, string_eq.beq_iff c channel, get-put store store_id tt stores))

close_store-IsSynced :
    (c store : String) (s : StoreSyncService) (stores : Names)
    → get c s.sync_clients ≡ some stores
    → IsSynced s
    → IsSynced (close_store_named true c store s).0
unfolding close_store_named
close_store-IsSynced c store s stores there synced store_id channel =
    let before = synced store_id channel in
    rw
      (
        member-remove_channel store c store_id channel s.sync_store_listeners,
        names-with_open c channel (delete store) s.sync_clients stores there,
      )
      (ground (arith, string_eq.beq_iff c channel, get-delete store store_id stores))

-- What reaches the service: a client's channel is made or destroyed, or a request arrives on it.
pub data SyncEvent : Type 0 where
  channel_opened channel_closed : String → SyncEvent
  request_arrived : String → SyncRequest → SyncEvent

-- A request on a channel that the service does not know reaches nobody.
abbrev pub sync_step :
    (Value → Option Value)
    → SyncEvent
    → StoreManager × StoreSyncService
    → StoreManager × StoreSyncService
sync_step convert (channel_opened c) (m, s) = (m, open_new_client_sync_channel c s)
sync_step convert (channel_closed c) (m, s) = (m, (close_client_sync_channel c s).0)
sync_step convert (request_arrived c r) (m, s) =
    let done = handle_request convert true c r m s in
    elim (get c s.sync_clients) [ none ↦ (m, s) | some stores ↦ (done.0, done.1) ]

abbrev pub sync_run :
    (Value → Option Value)
    → List SyncEvent
    → StoreManager × StoreSyncService
    → StoreManager × StoreSyncService
sync_run convert [] state = state
sync_run convert (e ∷ es) state = sync_run convert es (sync_step convert e state)

open_sync_store-IsSynced :
    (m : StoreManager) (c : String) (r : SyncRequest) (s : StoreSyncService) (stores : Names)
    → get c s.sync_clients ≡ some stores
    → IsSynced s
    → IsSynced (open_sync_store m true c r s).0
unfolding open_sync_store
open_sync_store-IsSynced m c r s stores there synced = elim (Option-cases (named r.store_id)) [
  | inl nameless ↦ rw (nameless, open_sync_store) synced
  | inr (store, is_named) ↦ elim (Option-cases (get store m.stores)) [
    | inl unknown ↦ rw (is_named, unknown, open_sync_store) synced
    | inr (known, at) ↦
        rw (is_named, at, open_sync_store) (open_store-IsSynced c store s stores there synced)
  ]
]

close_sync_store-IsSynced :
    (c : String) (r : SyncRequest) (s : StoreSyncService) (stores : Names)
    → get c s.sync_clients ≡ some stores
    → IsSynced s
    → IsSynced (close_sync_store true c r s).0
unfolding close_sync_store
close_sync_store-IsSynced c r s stores there synced = elim (Option-cases (named r.store_id)) [
  | inl nameless ↦ rw (nameless, close_sync_store) synced
  | inr (store, is_named) ↦
      rw (is_named, close_sync_store) (close_store-IsSynced c store s stores there synced)
]

handle_request-IsSynced :
    (convert : Value → Option Value) (c : String) (command : RequestCommand) (r : SyncRequest)
    (m : StoreManager) (s : StoreSyncService) (stores : Names)
    → get c s.sync_clients ≡ some stores
    → IsSynced s
    → IsSynced (handle_request convert true c (record r { command = command }) m s).1
unfolding handle_request
handle_request-IsSynced convert c open_store_request r m s stores there synced =
    open_sync_store-IsSynced m c (record r { command = open_store_request }) s stores there synced
handle_request-IsSynced convert c close_store_request r m s stores there synced =
    close_sync_store-IsSynced c (record r { command = close_store_request }) s stores there synced
handle_request-IsSynced convert c update_store_request r m s stores there synced = synced
handle_request-IsSynced convert c other_request r m s stores there synced = synced

sync_step-IsSynced :
    (convert : Value → Option Value) (e : SyncEvent) (m : StoreManager) (s : StoreSyncService)
    → IsSynced s
    → IsSynced (sync_step convert e (m, s)).1
sync_step-IsSynced convert (channel_opened c) m s synced = open_channel-IsSynced c s synced
sync_step-IsSynced convert (channel_closed c) m s synced = close_channel-IsSynced c s synced
sync_step-IsSynced convert (request_arrived c r) m s synced =
    elim (Option-cases (get c s.sync_clients)) [
      | inl missing ↦ rw (missing, sync_step) synced
      | inr (stores, there) ↦
          rw (there, sync_step)
            (handle_request-IsSynced convert c r.command r m s stores there synced)
    ]

-- However clients come and go and whatever they request, valid or not, the listener of a store tells a channel exactly when the client of that channel has the store open, provided that no request comes from a client that has been dropped.
pub sync_run-IsSynced :
    (convert : Value → Option Value) (es : List SyncEvent) (m : StoreManager) (s : StoreSyncService)
    → IsSynced s
    → IsSynced (sync_run convert es (m, s)).1
sync_run-IsSynced convert [] m s synced = synced
sync_run-IsSynced convert (e ∷ es) m s synced =
    sync_run-IsSynced convert es (sync_step convert e (m, s)).0 (sync_step convert e (m, s)).1
      (sync_step-IsSynced convert e m s synced)

unopened :
    (c : String) (f : Names → Names) (clients : Dict String Names)
    → with_open false c f clients ≡ clients
unfolding with_open
unopened c f clients = elim (Option-cases (get c clients)) [
  | inl missing ↦ rw (missing, with_open) refl
  | inr (stores, there) ↦ rw (there, with_open) refl
]

closed_missing :
    (c : String) (s : StoreSyncService)
    → get c s.sync_clients ≡ none
    → close_client_sync_channel c s ≡ (s, [])
unfolding close_client_sync_channel
closed_missing c s missing = rw (missing, close_client_sync_channel) refl

-- A request to open a store that comes late, from a client that has been dropped, makes the listener tell its channel, while no client is there to close it.
pub late_open :
    (c store : String) (s : StoreSyncService)
    → get c s.sync_clients ≡ none
    → (member store c (open_store_named false c store s).0.sync_store_listeners ≡ true)
      × (close_client_sync_channel c (open_store_named false c store s).0
          ≡ ((open_store_named false c store s).0, []))
unfolding open_store_named
late_open c store s missing = (
  rw (member-add_channel store c store c s.sync_store_listeners, eqb_refl store, eqb_refl c) refl,
  closed_missing c (open_store_named false c store s).0
      (rw (unopened c (put store tt) s.sync_clients) missing),
)
