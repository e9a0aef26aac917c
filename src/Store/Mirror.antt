-- ===== src/Store/Mirror.antt =====
-- store/store.go: what the subscribers of a store see of its changes.
use ranch.Prelude.{
  Bool, Bool-cases, List, Option, Option-cases, String, [], ap, arith, count_if, false,
  if◌then◌else◌, inl, inr, length, length-append, nat_eq, none, refl, some, string_eq, subst, suc,
  sym, true, zero, ℕ, ◌%◌, ◌&&◌, ◌++◌, ◌+◌, ◌<◌, ◌==◌, ◌^◌, ◌∙◌, ◌∷◌, ◌≡◌,
}
use ranch.Prelude.Dict.{Dict, delete, get, put}
use ranch.Store.{
  BusStore, Call, StoreChange, StoreStream, Value, changed, matches, next_version, notify,
  on_store_change, put_context, put_internal, remove_context, remove_internal, requested, sent,
  store_initialized, stream_on_store_change,
}
use ranch.Store.Streams.{IsRegistered, is_set}

-- The changes that the stream at an address is called with.
abbrev pub deliveries : ℕ → List Call → List StoreChange
deliveries i [] = []
deliveries i (changed j h change ∷ rest) =
    let more = deliveries i rest in if j == i then change ∷ more else more
deliveries i (_ ∷ rest) = deliveries i rest

pub deliveries-append :
    (i : ℕ) (xs ys : List Call) → deliveries i (xs ++ ys) ≡ deliveries i xs ++ deliveries i ys
deliveries-append i [] ys = refl
deliveries-append i (changed j h change ∷ xs) ys = ground (arith, deliveries-append i xs ys)
deliveries-append i (requested j h request ∷ xs) ys = deliveries-append i xs ys
deliveries-append i (sent request ∷ xs) ys = deliveries-append i xs ys
deliveries-append i (store_initialized ∷ xs) ys = deliveries-append i xs ys

abbrev pub wants : Option StoreStream → StoreChange → Bool
wants none change = false
wants (some stream) change = is_set stream.handler && matches stream.filter change

abbrev times : ℕ → StoreChange → List StoreChange
times zero change = []
times (suc n) change = change ∷ times n change

pub deliveries-stream :
    (o : Option StoreStream) (change : StoreChange) (i j : ℕ)
    → deliveries i (stream_on_store_change o change j)
      ≡ (if (j == i) && wants o change then change ∷ [] else [])
unfolding stream_on_store_change
deliveries-stream none change i j = ground arith
deliveries-stream (some stream) change i j = ground arith

joined :
    (b w : Bool) (n : ℕ) (change : StoreChange)
    → (if b && w then change ∷ [] else []) ++ (if w then times n change else [])
      ≡ (if w then times ((if b then 1 else 0) + n) change else [])
joined true true n change = ground arith
joined false true n change = ground arith
joined true false n change = refl
joined false false n change = refl

pub wants_same :
    (streams : Dict ℕ StoreStream) (change : StoreChange) (i j : ℕ)
    → (if (j == i) && wants (get j streams) change then change ∷ [] else [])
      ≡ (if (j == i) && wants (get i streams) change then change ∷ [] else [])
wants_same streams change i j = elim (Bool-cases (j == i)) [
  | inl same ↦
      ap (λ k. if (j == i) && wants (get k streams) change then change ∷ [] else [])
        ((nat_eq.beq_iff j i).0 same)
  | inr other ↦ rw other refl
]

deliveries-notify :
    (streams : Dict ℕ StoreStream) (change : StoreChange) (i : ℕ) (xs : List ℕ)
    → deliveries i (notify streams change xs)
      ≡ (if wants (get i streams) change then times (count_if (λ s. s == i) xs) change else [])
unfolding notify
deliveries-notify streams change i [] = ground arith
deliveries-notify streams change i (j ∷ xs) =
    rw
      (
        deliveries-append i (stream_on_store_change (get j streams) change j)
            (notify streams change xs),
        deliveries-stream (get j streams) change i j,
        wants_same streams change i j,
        deliveries-notify streams change i xs,
      )
      (joined (j == i) (wants (get i streams) change) (count_if (λ s. s == i) xs) change)

-- Where each stream with a handler is registered once and no other is, a change is delivered to a stream exactly once when the stream has a handler and its filter matches, and otherwise not at all.
pub on_store_change_lem :
    (i : ℕ) (change : StoreChange) (store : BusStore)
    → IsRegistered store
    → deliveries i (on_store_change (some change) store)
      ≡ (if wants (get i store.streams) change then change ∷ [] else [])
unfolding on_store_change
on_store_change_lem i change store valid =
    rw (deliveries-notify store.streams change i store.store_streams, valid i)
      (elim (Option-cases (get i store.streams)) [
        | inl missing ↦ rw missing refl
        | inr (stream, there) ↦ rw there (ground arith)
      ])

-- A copy of the items that the changes are applied to.
abbrev pub apply_changes : List StoreChange → Dict String Value → Dict String Value
apply_changes [] m = m
apply_changes (change ∷ rest) m =
    apply_changes rest
      (if change.is_delete_change then delete change.id m else put change.id change.value m)

pub data Op : Type 0 where
  put_op : Bool → String → Value → ℕ → Op
  remove_op : Bool → String → ℕ → Op

abbrev pub run_op : Op → BusStore → BusStore × List Call
run_op (put_op cancelled id value state) store = put_context cancelled id value state store
run_op (remove_op cancelled id state) store =
    let done = remove_context cancelled id state store in (done.0, done.1)

abbrev pub run_ops : List Op → BusStore → BusStore × List Call
run_ops [] store = (store, [])
run_ops (op ∷ ops) store =
    let done = run_op op store in let rest = run_ops ops done.0 in (rest.0, done.1 ++ rest.1)

-- A stream of OnAllChanges with a handler.
abbrev pub IsMirror : ℕ → BusStore → Type 0
IsMirror i store =
    (stream : StoreStream) × (get i store.streams ≡ some stream)
    × (is_set stream.handler ≡ true)
    × (stream.filter.match_all_items ≡ true)
    × (stream.filter.states ≡ [])

-- What an operation does to a store, for a mirror of it.
IsStep : ℕ → BusStore → BusStore × List Call → Type 0
IsStep i store done =
    (apply_changes (deliveries i done.1) store.items ≡ done.0.items)
    × (done.0.store_version ≡ (store.store_version + length (deliveries i done.1)) % 2 ^ 64)
    × (done.0.streams ≡ store.streams)
    × (done.0.store_streams ≡ store.store_streams)
    × (done.0.is_galactic ≡ store.is_galactic)

pub mirror-wants :
    (i : ℕ) (store : BusStore) (change : StoreChange)
    → IsMirror i store
    → wants (get i store.streams) change ≡ true
unfolding matches
mirror-wants i store change (stream, there, set_, all, states) =
    rw (there, set_) (rw (all, states) refl)

delivered :
    (i : ℕ) (change : StoreChange) (store : BusStore)
    → IsRegistered store
    → IsMirror i store
    → deliveries i (on_store_change (some change) store) ≡ change ∷ []
delivered i change store valid mirror =
    rw (on_store_change_lem i change store valid, mirror-wants i store change mirror) refl

idle-IsStep : (i : ℕ) (store : BusStore) → store.store_version < 2 ^ 64 → IsStep i store (store, [])
unfolding IsStep
idle-IsStep i store small = (refl, ground arith, refl, refl, refl)

changed-IsStep :
    (i : ℕ) (change : StoreChange) (items : Dict String Value) (store : BusStore)
    → IsRegistered store
    → IsMirror i store
    → apply_changes (change ∷ []) store.items ≡ items
    → (let after : BusStore = record store {
      store_version = (store.store_version + 1) % 2 ^ 64;
      items = items;
    } in
        IsStep i store (after, on_store_change (some change) after))
unfolding IsStep
changed-IsStep i change items store valid mirror applied =
    let after : BusStore = record store {
      store_version = (store.store_version + 1) % 2 ^ 64;
      items = items;
    } in
    rw (delivered i change after valid mirror) (applied, refl, refl, refl, refl)

put_local :
    (id : String) (value : Value) (state : ℕ) (store : BusStore)
    → store.is_galactic ≡ false
    → (let version = (store.store_version + 1) % 2 ^ 64 in
        let after : BusStore = record store {
          store_version = version;
          items = put id value store.items;
        } in
        put_context false id value state store ≡ (
          after,
          on_store_change
              (some (record {
                id = id;
                value = value;
                state = state;
                is_delete_change = false;
                store_version = version;
              }))
              after,
        ))
unfolding put_context put_internal next_version
put_local id value state store loc = simp loc refl

remove_local :
    (id : String) (value : Value) (state : ℕ) (store : BusStore)
    → store.is_galactic ≡ false
    → get id store.items ≡ some value
    → (let version = (store.store_version + 1) % 2 ^ 64 in
        let after : BusStore = record store {
          store_version = version;
          items = delete id store.items;
        } in
        remove_context false id state store ≡ (
          after,
          on_store_change
              (some (record {
                id = id;
                value = value;
                state = state;
                is_delete_change = true;
                store_version = version;
              }))
              after,
          true,
        ))
unfolding remove_context remove_internal next_version
remove_local id value state store loc there = simp (loc, there, remove_internal) refl

remove_missing :
    (id : String) (state : ℕ) (store : BusStore)
    → store.is_galactic ≡ false
    → get id store.items ≡ none
    → remove_context false id state store ≡ (store, [], false)
unfolding remove_context remove_internal on_store_change
remove_missing id state store loc missing = simp (loc, missing, remove_internal) refl

run_op-IsStep :
    (i : ℕ) (op : Op) (store : BusStore)
    → IsRegistered store
    → IsMirror i store
    → store.is_galactic ≡ false
    → store.store_version < 2 ^ 64
    → IsStep i store (run_op op store)
unfolding put_context remove_context
run_op-IsStep i (put_op true id value state) store valid mirror loc small =
    idle-IsStep i store small
run_op-IsStep i (remove_op true id state) store valid mirror loc small = idle-IsStep i store small
run_op-IsStep i (put_op false id value state) store valid mirror loc small =
    subst (IsStep i store) (sym (put_local id value state store loc))
      (changed-IsStep i _ (put id value store.items) store valid mirror refl)
run_op-IsStep i (remove_op false id state) store valid mirror loc small =
    elim (Option-cases (get id store.items)) [
      | inl missing ↦
          subst (λ done. IsStep i store (done.0, done.1))
            (sym (remove_missing id state store loc missing)) (idle-IsStep i store small)
      | inr (value, there) ↦
          subst (λ done. IsStep i store (done.0, done.1))
            (sym (remove_local id value state store loc there))
            (changed-IsStep i _ (delete id store.items) store valid mirror refl)
    ]

mod_add : (a b c : ℕ) → ((a + b) % 2 ^ 64 + c) % 2 ^ 64 ≡ (a + (b + c)) % 2 ^ 64
mod_add a b c = omega arith

pub stays-IsMirror :
    (i : ℕ) (store after : BusStore)
    → after.streams ≡ store.streams
    → IsMirror i store
    → IsMirror i after
stays-IsMirror i store after same (stream, there, set_, all, states) =
    (stream, rw same there, set_, all, states)

stays-IsRegistered :
    (store after : BusStore)
    → after.streams ≡ store.streams
    → after.store_streams ≡ store.store_streams
    → IsRegistered store
    → IsRegistered after
stays-IsRegistered store after same list valid i = rw (same, list) (valid i)

pub apply-append :
    (xs ys : List StoreChange) (m : Dict String Value)
    → apply_changes (xs ++ ys) m ≡ apply_changes ys (apply_changes xs m)
apply-append [] ys m = refl
apply-append (x ∷ xs) ys m = apply-append xs ys _

-- In a local store where each stream with a handler is registered once and no other is, whose version is a 64-bit number, take a stream of all changes that has a handler. Through any puts and removals, cancelled ones too, each of which returns before the next one begins and during which no handler changes the store, what it is called with, applied in order to a copy of the items, gives the items of the store; and the version goes up by one for each call, modulo 2^64.
pub mirror :
    (i : ℕ) (ops : List Op) (store : BusStore)
    → IsRegistered store
    → IsMirror i store
    → store.is_galactic ≡ false
    → store.store_version < 2 ^ 64
    → (apply_changes (deliveries i (run_ops ops store).1) store.items ≡ (run_ops ops store).0.items)
      × ((run_ops ops store).0.store_version
          ≡ (store.store_version + length (deliveries i (run_ops ops store).1)) % 2 ^ 64)
unfolding IsStep
mirror i [] store valid is_mirror loc small = (refl, ground arith)
mirror i (op ∷ ops) store valid is_mirror loc small =
    let (items, version, streams, list, galactic) =
      run_op-IsStep i op store valid is_mirror loc small in
    let after = (run_op op store).0 in
    let small_after : after.store_version < 2 ^ 64 = rw version (omega arith) in
    let (rest_items, rest_version) =
      mirror i ops after (stays-IsRegistered store after streams list valid)
        (stays-IsMirror i store after streams is_mirror) (galactic ∙ loc) small_after in
    rw (deliveries-append i (run_op op store).1 (run_ops ops after).1) (
      apply-append (deliveries i (run_op op store).1) (deliveries i (run_ops ops after).1)
            store.items
          ∙ ap (apply_changes (deliveries i (run_ops ops after).1)) items
          ∙ rest_items,
      rw (length-append (deliveries i (run_op op store).1) (deliveries i (run_ops ops after).1)) (
          rest_version
          ∙ ap (λ v. (v + length (deliveries i (run_ops ops after).1)) % 2 ^ 64) version
          ∙ mod_add store.store_version (length (deliveries i (run_op op store).1)) _),
    )
