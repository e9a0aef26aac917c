-- ===== src/Store/Races.antt =====
-- store/store.go: PutContext and RemoveContext by their parts, where calls overlap. The change is made
-- under the lock of the items; the streams are called after it is given up, one after the other, and by
-- then other calls, also those of the handlers, may be between any two parts.
pub mod Calls
use ranch.Prelude.{
  Bool, List, Option, Option-cases, [], count_if, false, get_elem?, if◌then◌else◌, inl, inr, map,
  nat_eq, none, refl, set, some, string_eq, true, ℕ, ◌%◌, ◌++◌, ◌+◌, ◌==◌, ◌^◌, ◌∷◌, ◌≡◌,
}
use ranch.Prelude.Dict.{get}
use ranch.Store.{
  BusStore, Call, StoreChange, next_version, on_store_change, put_context, put_internal,
  remove_context, remove_internal, stream_on_store_change,
}
use ranch.Store.Mirror.{Op, apply_changes, put_op, remove_op, run_op}

-- A notification that goes on: the change, and the streams of its copy that it has still to call.
abbrev pub Notification : Type 0
Notification = StoreChange × List ℕ

pub record Racing : Type 0 where
  pub store : BusStore
  pub pending : List Notification

-- The part of a call on a local store that it does under the lock, with its change.
unfoldable pub write : Op → BusStore → BusStore × Option StoreChange
write (put_op true id value state) store = (store, none)
write (put_op false id value state) store =
    let done = put_internal id value state store in (done.0, some done.1)
write (remove_op true id state) store = (store, none)
write (remove_op false id state) store = remove_internal id state store

-- What is done next: the first part of some call, or the next call of a stream by the n-th notification.
pub data Part : Type 0 where
  written : Op → Part
  told : ℕ → Part

abbrev pub queued : Option StoreChange → BusStore → List Notification
queued none store = []
queued (some change) store = (change, store.store_streams) ∷ []

abbrev pub tell : ℕ → Racing → Option Notification → Racing × List Call
tell n r none = (r, [])
tell n r (some (change, [])) = (r, [])
tell n r (some (change, i ∷ rest)) = (
  record r { pending = set r.pending n (change, rest) },
  stream_on_store_change (get i r.store.streams) change i,
)

unfoldable pub race_step : Part → Racing → Racing × List Call
race_step (written op) r =
    let done = write op r.store in
    (record r { store = done.0; pending = r.pending ++ queued done.1 done.0 }, [])
race_step (told n) r = tell n r (get_elem? r.pending n)

abbrev pub race_run : List Part → Racing → Racing × List Call
race_run [] r = (r, [])
race_run (p ∷ ps) r =
    let after = race_step p r in let rest = race_run ps after.0 in (rest.0, after.1 ++ rest.1)

abbrev pub one_of : Option StoreChange → List StoreChange
one_of none = []
one_of (some change) = change ∷ []

-- The changes that the calls make, in the order in which they have the lock.
abbrev pub made : List Part → BusStore → List StoreChange
made [] store = []
made (written op ∷ ps) store = one_of (write op store).1 ++ made ps (write op store).0
made (told n ∷ ps) store = made ps store

-- How many calls of the stream i with changes that pass a test are still to come.
abbrev pub awaited_of : ℕ → (StoreChange → Bool) → Notification → ℕ
awaited_of i p (change, streams) = if p change then count_if (λ s. s == i) streams else 0

abbrev pub awaited : ℕ → (StoreChange → Bool) → List Notification → ℕ
awaited i p [] = 0
awaited i p (note ∷ notes) = awaited_of i p note + awaited i p notes

-- The versions after v, one for each change.
abbrev pub versions_from : ℕ → List StoreChange → List ℕ
versions_from v [] = []
versions_from v (change ∷ rest) = ((v + 1) % 2 ^ 64) ∷ versions_from ((v + 1) % 2 ^ 64) rest

-- A call is its first part and the calls of all streams.
pub run_op-write :
    (op : Op) (store : BusStore)
    → store.is_galactic ≡ false
    → run_op op store ≡ ((write op store).0, on_store_change (write op store).1 (write op store).0)
unfolding write put_context remove_context on_store_change
run_op-write (put_op true id value state) store loc = refl
run_op-write (put_op false id value state) store loc = simp loc refl
run_op-write (remove_op true id state) store loc = refl
run_op-write (remove_op false id state) store loc = simp loc refl

-- What a first part leaves of a local store.
pub record Writes (store : BusStore) (done : BusStore × Option StoreChange) : Type 0 where
  pub streams : done.0.streams ≡ store.streams
  pub registered : done.0.store_streams ≡ store.store_streams
  pub galactic : done.0.is_galactic ≡ store.is_galactic
  pub items : apply_changes (one_of done.1) store.items ≡ done.0.items
  pub versions :
      (rest : List StoreChange)
      → map (λ c. c.store_version) (one_of done.1) ++ versions_from done.0.store_version rest
        ≡ versions_from store.store_version (one_of done.1 ++ rest)

pub write-Writes :
    (op : Op) (store : BusStore) → store.is_galactic ≡ false → Writes store (write op store)
unfolding write put_internal remove_internal next_version
write-Writes (put_op true id value state) store loc = record {
  streams = refl;
  registered = refl;
  galactic = refl;
  items = refl;
  versions = λ rest. refl;
}
write-Writes (put_op false id value state) store loc = record {
  streams = refl;
  registered = refl;
  galactic = refl;
  items = refl;
  versions = λ rest. rw loc refl;
}
write-Writes (remove_op true id state) store loc = record {
  streams = refl;
  registered = refl;
  galactic = refl;
  items = refl;
  versions = λ rest. refl;
}
write-Writes (remove_op false id state) store loc = elim (Option-cases (get id store.items)) [
  | inl missing ↦
      rw (missing, write, remove_internal)
        (record {
          streams = refl;
          registered = refl;
          galactic = refl;
          items = refl;
          versions = λ rest. refl;
        })
  | inr (value, there) ↦
      rw (there, write, remove_internal)
        (record {
          streams = refl;
          registered = refl;
          galactic = refl;
          items = refl;
          versions = λ rest. rw loc refl;
        })
]
