-- ===== src/Store/Service/Replica.antt =====
-- store/store_sync_service.go and store/store.go together: a galactic store follows the store that the
-- service has, by the responses that the listener sends.
use ranch.Prelude.{
  Bool, List, Option, Option-cases, String, [], arith, eqb_refl, false, if◌then◌else◌, inl, inr,
  map, nat_eq, none, refl, some, string_eq, subst, sym, true, ℕ, ◌<◌, ◌^◌, ◌∙◌, ◌∷◌, ◌≡◌,
}
use ranch.Prelude.Dict.{Dict, delete, get, get-delete, get-put, put}
use ranch.Store.{BusStore, StoreChange, Value, put_internal, remove_internal}
use ranch.Store.Streams.{IsRegistered}
use ranch.Store.Mirror.{IsMirror, Op, apply_changes, deliveries, mirror, run_ops}
use ranch.Store.Sync.{
  StoreResponse, handle_sync, update_store_response, update_version_from_response,
}
use ranch.Store.Service.{update_store_of}

-- A galactic store takes the responses in order.
abbrev pub handle_all : (Value → Option Value) → List StoreResponse → BusStore → BusStore
handle_all convert [] store = store
handle_all convert (r ∷ rs) store = handle_all convert rs (handle_sync convert r store).0

delete_missing : (id : String) (m : Dict String Value) → get id m ≡ none → delete id m ≡ m
unfolding get delete
delete_missing id [] missing = refl
delete_missing id ((j, v) ∷ m) missing = ground (arith, delete_missing id m)

abbrev answer : String → String → ℕ → Value → StoreResponse
answer store_id id version value = record {
  store_id = some store_id;
  response_type = some "updateStoreResponse";
  items = none;
  item_id = some id;
  store_version = some version;
  new_item_value = value;
}

routed :
    (convert : Value → Option Value) (id : String) (version : ℕ) (value : Value) (store : BusStore)
    → handle_sync convert (answer store.name id version value) store
      ≡ update_store_response convert (answer store.name id version value) store
unfolding handle_sync
routed convert id version value store = simp (eqb_refl store.name) refl

-- What a response leaves of a store: its name and the items.
abbrev Leaves : BusStore → BusStore → Dict String Value → Type 0
Leaves before after items = (after.name ≡ before.name) × (after.items ≡ items)

removed :
    (convert : Value → Option Value) (id : String) (version : ℕ) (store : BusStore)
    → Leaves store
        (update_store_response convert (answer store.name id version none) store).0
        (delete id store.items)
unfolding update_store_response update_version_from_response remove_internal
removed convert id version store = elim (Option-cases (get id store.items)) [
  | inl missing ↦ rw (missing, remove_internal) (refl, sym (delete_missing id store.items missing))
  | inr (v, there) ↦ rw (there, remove_internal) (refl, refl)
]

updated :
    (convert : Value → Option Value) (id : String) (version v : ℕ) (store : BusStore)
    → convert (some v) ≡ some (some v)
    → Leaves store
        (update_store_response convert (answer store.name id version (some v)) store).0
        (put id (some v) store.items)
unfolding update_store_response update_version_from_response put_internal
updated convert id version v store same = rw same (refl, refl)

-- What a response makes of the items: a value that is nil is taken for a removal.
abbrev absorbed : Bool → String → Value → Dict String Value → Dict String Value
absorbed true id value m = delete id m
absorbed false id none m = delete id m
absorbed false id (some v) m = put id (some v) m

responded :
    (convert : Value → Option Value) (id : String) (version : ℕ) (value : Value) (gone : Bool)
    (store : BusStore)
    → ((v : ℕ) → convert (some v) ≡ some (some v))
    → Leaves store
        (handle_sync convert (answer store.name id version (if gone then none else value)) store).0
        (absorbed gone id value store.items)
responded convert id version value true store same =
    rw (routed convert id version none store) (removed convert id version store)
responded convert id version none false store same =
    rw (routed convert id version none store) (removed convert id version store)
responded convert id version (some v) false store same =
    rw (routed convert id version (some v) store) (updated convert id version v store (same v))

-- What a galactic store shows of an entry of the store that it follows: an item that is nil is not there.
abbrev pub shown : Option Value → Option Value
shown none = none
shown (some none) = none
shown (some (some v)) = some (some v)

-- The items of a store that follows another.
abbrev pub Follows : Dict String Value → Dict String Value → Type 0
Follows theirs ours = (id : String) → get id theirs ≡ shown (get id ours)

absorbed-Follows :
    (gone : Bool) (id : String) (value : Value) (theirs ours : Dict String Value)
    → Follows theirs ours
    → Follows (absorbed gone id value theirs) (if gone then delete id ours else put id value ours)
absorbed-Follows true id value theirs ours h j =
    rw (get-delete id j theirs, get-delete id j ours) (ground (arith, h j))
absorbed-Follows false id none theirs ours h j =
    rw (get-delete id j theirs, get-put id j none ours) (ground (arith, h j))
absorbed-Follows false id (some v) theirs ours h j =
    rw (get-put id j (some v) theirs, get-put id j (some v) ours) (ground (arith, h j))

followed :
    (convert : Value → Option Value) (changes : List StoreChange) (name : String) (store : BusStore)
    (ours : Dict String Value)
    → ((v : ℕ) → convert (some v) ≡ some (some v))
    → store.name ≡ name
    → Follows store.items ours
    → Follows
        (handle_all convert (map (update_store_of name) changes) store).items
        (apply_changes changes ours)
unfolding update_store_of
followed convert [] name store ours same known h = h
followed convert (change ∷ changes) name store ours same known h =
    let next = (handle_sync convert (update_store_of name change) store).0 in
    let items = absorbed change.is_delete_change change.id change.value store.items in
    let left : Leaves store next items =
      subst (λ n. Leaves store (handle_sync convert (update_store_of n change) store).0 items) known
        (responded convert change.id change.store_version change.value change.is_delete_change store
          same) in
    let our_items =
      if change.is_delete_change then delete change.id ours else put change.id change.value ours in
    followed convert changes name next our_items same (left.0 ∙ known) (
      subst (λ m. Follows m our_items) (sym left.1)
        (absorbed-Follows change.is_delete_change change.id change.value store.items ours h))

-- Take a local store with a listener that hears all changes, and a galactic store of its name that has the items of the local one, except those that are nil. Whatever is put, nil too, and removed, each call returning before the next begins and no handler changing the store, when the galactic store has handled the responses to the changes, in order, this holds again; values other than nil are assumed to convert to themselves.
pub replica :
    (convert : Value → Option Value) (i : ℕ) (ops : List Op) (store client : BusStore)
    → ((v : ℕ) → convert (some v) ≡ some (some v))
    → IsRegistered store
    → IsMirror i store
    → store.is_galactic ≡ false
    → store.store_version < 2 ^ 64
    → client.name ≡ store.name
    → Follows client.items store.items
    → Follows
        (handle_all convert
          (map (update_store_of store.name) (deliveries i (run_ops ops store).1))
          client).items
        (run_ops ops store).0.items
replica convert i ops store client same valid is_mirror loc small name items =
    subst (Follows _) (mirror i ops store valid is_mirror loc small).0 (
      followed convert (deliveries i (run_ops ops store).1) store.name client store.items same name
        items)
