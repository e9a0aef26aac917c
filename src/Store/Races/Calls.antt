-- ===== src/Store/Races/Calls.antt =====
-- store/store.go: what a stream is called with where calls overlap, and in which order changes are made.
use mathlib.Core.List.{map-append}
use ranch.Prelude.{
  Bool, List, Option, [], ap, arith, count_if, count_if-append, false, get_elem?, if◌then◌else◌,
  map, nat_eq, none, refl, set, some, string_eq, subst, suc, sym, zero, ℕ, ◌&&◌, ◌++◌, ◌+◌, ◌==◌,
  ◌∙◌, ◌∷◌, ◌≡◌,
}
use ranch.Prelude.Dict.{get}
use ranch.Store.{BusStore, StoreChange, stream_on_store_change}
use ranch.Store.Streams.{IsRegistered, is_subscribed, one_if}
use ranch.Store.Mirror.{
  IsMirror, apply-append, apply_changes, deliveries, deliveries-append, deliveries-stream,
  mirror-wants, stays-IsMirror, wants_same,
}
use ranch.Store.Races.{
  Notification, Part, Racing, Writes, awaited, awaited_of, made, one_of, queued, race_run,
  race_step, tell, told, versions_from, write, write-Writes, written,
}

-- The stream hears all changes of the local store, once each.
record IsHeard (i : ℕ) (store : BusStore) : Type 0 where
  is_mirror : IsMirror i store
  once : count_if (λ s. s == i) store.store_streams ≡ 1
  loc : store.is_galactic ≡ false

stays-IsHeard :
    (i : ℕ) (store : BusStore) (done : BusStore × Option StoreChange)
    → Writes store done
    → IsHeard i store
    → IsHeard i done.0
stays-IsHeard i store done w h = record {
  is_mirror = stays-IsMirror i store done.0 w.streams h.is_mirror;
  once = ap (λ streams. count_if (λ s. s == i) streams) w.registered ∙ h.once;
  loc = w.galactic ∙ h.loc;
}

module _ (i : ℕ) (p : StoreChange → Bool) where
  awaited-append :
      (xs ys : List Notification) → awaited i p (xs ++ ys) ≡ awaited i p xs + awaited i p ys
  awaited-append [] ys = omega arith
  awaited-append (x ∷ xs) ys = omega (arith, awaited-append xs ys)

  awaited_next :
      (change : StoreChange) (j : ℕ) (rest : List ℕ)
      → awaited_of i p (change, rest) + (if (j == i) && p change then 1 else 0)
        ≡ awaited_of i p (change, j ∷ rest)
  awaited_next change j rest = ground arith

  awaited-set :
      (notes : List Notification) (n j : ℕ) (change : StoreChange) (rest : List ℕ)
      → get_elem? notes n ≡ some (change, j ∷ rest)
      → awaited i p (set notes n (change, rest)) + (if (j == i) && p change then 1 else 0)
        ≡ awaited i p notes
  awaited-set [] n j change rest h = cc
  awaited-set (note ∷ notes) zero j change rest h =
      let same : note ≡ (change, j ∷ rest) = cc in
      rw same (omega (arith, awaited_next change j rest))
  awaited-set (note ∷ notes) (suc n) j change rest h =
      omega (arith, awaited-set notes n j change rest h)

  awaited-queued :
      (made_now : Option StoreChange) (store : BusStore)
      → IsHeard i store
      → awaited i p (queued made_now store) ≡ count_if p (one_of made_now)
  awaited-queued none store h = refl
  awaited-queued (some change) store h = rw h.once (ground arith)

  heard_now :
      (change : StoreChange) (j : ℕ) (store : BusStore)
      → IsHeard i store
      → count_if p (deliveries i (stream_on_store_change (get j store.streams) change j))
        ≡ (if (j == i) && p change then 1 else 0)
  heard_now change j store h =
      rw
        (
          deliveries-stream (get j store.streams) change i j,
          wants_same store.streams change i j,
          mirror-wants i store change h.is_mirror,
        )
        (ground arith)

  tell_lem :
      (n : ℕ) (r : Racing) (found : Option Notification)
      → IsHeard i r.store
      → get_elem? r.pending n ≡ found
      → (count_if p (deliveries i (tell n r found).1) + awaited i p (tell n r found).0.pending
          ≡ awaited i p r.pending)
        × ((tell n r found).0.store ≡ r.store)
  tell_lem n r none h at = (omega arith, refl)
  tell_lem n r (some (change, [])) h at = (omega arith, refl)
  tell_lem n r (some (change, j ∷ rest)) h at =
      (omega (arith, heard_now change j r.store h, awaited-set r.pending n j change rest at), refl)

  race_counts :
      (ps : List Part) (r : Racing)
      → IsHeard i r.store
      → count_if p (deliveries i (race_run ps r).1) + awaited i p (race_run ps r).0.pending
        ≡ awaited i p r.pending + count_if p (made ps r.store)
  unfolding race_step
  race_counts [] r h = omega arith
  race_counts (written op ∷ ps) r h =
      let done = write op r.store in
      let after = (race_step (written op) r).0 in
      let stays = stays-IsHeard i r.store done (write-Writes op r.store h.loc) h in
      rw (count_if-append p (one_of done.1) (made ps done.0)) (
        omega (
          arith,
          race_counts ps after stays,
          awaited-append r.pending (queued done.1 done.0),
          awaited-queued done.1 done.0 stays,
        ))
  race_counts (told n ∷ ps) r h =
      let after = tell n r (get_elem? r.pending n) in
      let (balance, same) = tell_lem n r (get_elem? r.pending n) h refl in
      let rest = race_counts ps after.0 (subst (IsHeard i) (sym same) h) in
      rw (deliveries-append i after.1 (race_run ps after.0).1) (
        rw (count_if-append p (deliveries i after.1) (deliveries i (race_run ps after.0).1))
          (omega (arith, balance, rest, ap (λ s. count_if p (made ps s)) same)))

tell-store : (n : ℕ) (r : Racing) (found : Option Notification) → (tell n r found).0.store ≡ r.store
tell-store n r none = refl
tell-store n r (some (change, [])) = refl
tell-store n r (some (change, j ∷ rest)) = refl

race_items :
    (ps : List Part) (r : Racing)
    → r.store.is_galactic ≡ false
    → (apply_changes (made ps r.store) r.store.items ≡ (race_run ps r).0.store.items)
      × (map (λ c. c.store_version) (made ps r.store)
          ≡ versions_from r.store.store_version (made ps r.store))
unfolding race_step
race_items [] r loc = (refl, refl)
race_items (written op ∷ ps) r loc =
    let done = write op r.store in
    let w = write-Writes op r.store loc in
    let rest = race_items ps (race_step (written op) r).0 (w.galactic ∙ loc) in
    (
      apply-append (one_of done.1) (made ps done.0) r.store.items
          ∙ ap (apply_changes (made ps done.0)) w.items
          ∙ rest.0,
      map-append (λ c. c.store_version) (one_of done.1) (made ps done.0)
          ∙ ap (λ vs. map (λ c. c.store_version) (one_of done.1) ++ vs) rest.1
          ∙ w.versions (made ps done.0),
    )
race_items (told n ∷ ps) r loc =
    let after = (tell n r (get_elem? r.pending n)).0 in
    let same = tell-store n r (get_elem? r.pending n) in
    let rest = race_items ps after (ap (λ s. s.is_galactic) same ∙ loc) in
    (
      ap (λ s. apply_changes (made ps s) s.items) (sym same) ∙ rest.0,
      ap (λ s. map (λ c. c.store_version) (made ps s)) (sym same)
          ∙ rest.1
          ∙ ap (λ s. versions_from s.store_version (made ps s)) same,
    )

-- In a local store where each stream with a handler is registered once and no other is, take a stream of all changes that has a handler, and any puts and removals that overlap in any way, as when handlers change the store again, while no stream is subscribed or left. The changes that they make, applied in the order in which they have the lock, give the items of the store, and have the versions that follow each other, modulo 2^64. The stream is called with each of these changes once or will still be, and with nothing else: for every test, the calls so far and those to come are as many as the changes that pass it. The order of the calls may be another one.
pub race_run_lem :
    (i : ℕ) (p : StoreChange → Bool) (ps : List Part) (store : BusStore)
    → IsRegistered store
    → IsMirror i store
    → store.is_galactic ≡ false
    → (let run = race_run ps (record { store = store; pending = [] }) in
        (apply_changes (made ps store) store.items ≡ run.0.store.items)
        × (map (λ c. c.store_version) (made ps store)
            ≡ versions_from store.store_version (made ps store))
        × (count_if p (deliveries i run.1) + awaited i p run.0.pending
            ≡ count_if p (made ps store)))
race_run_lem i p ps store valid (stream, there, set_, all, states) loc =
    let start : Racing = record { store = store; pending = [] } in
    let once : count_if (λ s. s == i) store.store_streams ≡ 1 =
      valid i ∙ ap (λ o. one_if (is_subscribed o)) there ∙ ap one_if set_ in
    let items = race_items ps start loc in
    (
      items.0,
      items.1,
      omega (
        arith,
        race_counts i p ps start
            (record { is_mirror = (stream, there, set_, all, states); once = once; loc = loc }),
      ),
    )
