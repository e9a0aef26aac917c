-- ===== src/Store/Streams.antt =====
-- store/store_stream.go, mutation_store_stream.go: subscribing to a stream and leaving it, and the
-- requests to mutate a store.
use ranch.Prelude.{
  Bool, Bool-cases, List, Option, Option-cases, [], any, arith, count_if, count_if-append,
  count_if-remove_sub, false, find, if◌then◌else◌, inl, inr, ltb, nat_eq, none, refl, some,
  string_eq, subst, true, ℕ, ◌&&◌, ◌++◌, ◌+◌, ◌==◌, ◌∷◌, ◌≡◌,
}
use ranch.Prelude.Dict.{Dict, get, get-put, put}
use ranch.Store.{
  BusStore, Call, MutationRequest, MutationStoreStream, StoreError, StoreStream, already_subscribed,
  invalid_handler, matches_request, not_subscribed, on_stream_unsubscribe, requested,
}

-- storeStream.Subscribe. A handler that is not given is none; a stream that does not exist is not
-- there to be called.
unfoldable pub subscribe : ℕ → Option ℕ → BusStore → BusStore × Option StoreError
subscribe i none store = (store, some invalid_handler)
subscribe i (some h) store = elim (get i store.streams) [
  | none ↦ (store, none)
  | some stream ↦ elim stream.handler [
    | some old ↦ (store, some already_subscribed)
    | none ↦ (
      record store {
        streams = put i (record stream { handler = some h }) store.streams;
        store_streams = store.store_streams ++ i ∷ [];
      },
      none,
    )
  ]
]

unfoldable pub unsubscribe : ℕ → BusStore → BusStore × Option StoreError
unsubscribe i store = elim (get i store.streams) [
  | none ↦ (store, none)
  | some stream ↦ elim stream.handler [
    | none ↦ (store, some not_subscribed)
    | some old ↦ (
      record store {
        streams = put i (record stream { handler = none }) store.streams;
        store_streams = on_stream_unsubscribe i store.store_streams;
      },
      none,
    )
  ]
]

-- OnMutationRequest, and the two operations on the stream that it gives
unfoldable pub new_mutation_stream : ℕ → List ℕ → BusStore → BusStore
new_mutation_stream i request_types store = record store {
  mutations = put i (record { handler = none; request_types = request_types }) store.mutations;
}

unfoldable pub subscribe_mutation : ℕ → Option ℕ → BusStore → BusStore × Option StoreError
subscribe_mutation i none store = (store, some invalid_handler)
subscribe_mutation i (some h) store = elim (get i store.mutations) [
  | none ↦ (store, none)
  | some stream ↦ elim stream.handler [
    | some old ↦ (store, some already_subscribed)
    | none ↦ (
      record store {
        mutations = put i (record stream { handler = some h }) store.mutations;
        mutation_streams = store.mutation_streams ++ i ∷ [];
      },
      none,
    )
  ]
]

unfoldable pub unsubscribe_mutation : ℕ → BusStore → BusStore × Option StoreError
unsubscribe_mutation i store = elim (get i store.mutations) [
  | none ↦ (store, none)
  | some stream ↦ elim stream.handler [
    | none ↦ (store, some not_subscribed)
    | some old ↦ (
      record store {
        mutations = put i (record stream { handler = none }) store.mutations;
        mutation_streams = on_stream_unsubscribe i store.mutation_streams;
      },
      none,
    )
  ]
]

unfoldable pub on_mutation_request : Dict ℕ MutationStoreStream → MutationRequest → ℕ → List Call
on_mutation_request mutations request i = elim (get i mutations) [
  | none ↦ []
  | some stream ↦ elim stream.handler [
    | none ↦ []
    | some h ↦
        if matches_request stream.request_types request then requested i h request ∷ [] else []
  ]
]

unfoldable pub request_all : Dict ℕ MutationStoreStream → MutationRequest → List ℕ → List Call
request_all mutations request [] = []
request_all mutations request (i ∷ rest) =
    on_mutation_request mutations request i ++ request_all mutations request rest

unfoldable pub mutate_context : Bool → MutationRequest → BusStore → List Call
mutate_context cancelled request store =
    if cancelled then [] else request_all store.mutations request store.mutation_streams

abbrev pub is_set : Option ℕ → Bool
is_set none = false
is_set (some h) = true

-- The stream is there and has a handler.
abbrev pub is_subscribed : Option StoreStream → Bool
is_subscribed none = false
is_subscribed (some stream) = is_set stream.handler

abbrev pub one_if : Bool → ℕ
one_if true = 1
one_if false = 0

-- The store notifies each stream that has a handler, once, and no other.
abbrev pub IsRegistered : BusStore → Type 0
IsRegistered store =
    (i : ℕ)
    → count_if (λ s. s == i) store.store_streams ≡ one_if (is_subscribed (get i store.streams))

find-any : (i : ℕ) (xs : List ℕ) → any (λ s. s == i) xs ≡ true → find (λ s. s == i) xs ≡ some i
find-any i [] h = ground arith
find-any i (x ∷ xs) h = ground (arith, find-any i xs, nat_eq.beq_iff x i)

any-count_if : (i : ℕ) (xs : List ℕ) → any (λ s. s == i) xs ≡ ltb 0 (count_if (λ s. s == i) xs)
any-count_if i [] = refl
any-count_if i (x ∷ xs) = ground (arith, any-count_if i xs)

count_if-on_stream_unsubscribe :
    (i j : ℕ) (xs : List ℕ)
    → count_if (λ s. s == j) (on_stream_unsubscribe i xs)
        + one_if (any (λ s. s == i) xs && (i == j))
      ≡ count_if (λ s. s == j) xs
unfolding on_stream_unsubscribe
count_if-on_stream_unsubscribe i j xs = elim (Bool-cases (any (λ s. s == i) xs)) [
  | inl there ↦
      rw there
        (ground (arith, count_if-remove_sub (λ s. s == j) (λ s. s == i) xs i (find-any i xs there)))
  | inr missing ↦ rw missing (ground arith)
]

added-IsRegistered :
    (i h : ℕ) (store : BusStore) (stream : StoreStream)
    → get i store.streams ≡ some stream
    → stream.handler ≡ none
    → IsRegistered store
    → IsRegistered (record store {
      streams = put i (record stream { handler = some h }) store.streams;
      store_streams = store.store_streams ++ i ∷ [];
    })
added-IsRegistered i h store stream there free valid j =
    let stays = valid j in
    rw
      (
        count_if-append (λ s. s == j) store.store_streams (i ∷ []),
        get-put i j (record stream { handler = some h }) store.streams,
      )
      (elim (Bool-cases (i == j)) [
        | inl same ↦
            let equal : i ≡ j = (nat_eq.beq_iff i j).0 same in
            let at_j : get j store.streams ≡ some stream =
              subst (λ k. get k store.streams ≡ some stream) equal there in
            rw same (ground (arith, at_j, free, stays))
        | inr other ↦ rw other (ground (arith, stays))
      ])

removed-IsRegistered :
    (i h : ℕ) (store : BusStore) (stream : StoreStream)
    → get i store.streams ≡ some stream
    → stream.handler ≡ some h
    → IsRegistered store
    → IsRegistered (record store {
      streams = put i (record stream { handler = none }) store.streams;
      store_streams = on_stream_unsubscribe i store.store_streams;
    })
removed-IsRegistered i h store stream there set_ valid j =
    let stays = valid j in
    let count = count_if-on_stream_unsubscribe i j store.store_streams in
    let member = any-count_if i store.store_streams in
    rw (get-put i j (record stream { handler = none }) store.streams) (elim (Bool-cases (i == j)) [
      | inl same ↦
          let equal : i ≡ j = (nat_eq.beq_iff i j).0 same in
          let at_j : get j store.streams ≡ some stream =
            subst (λ k. get k store.streams ≡ some stream) equal there in
          rw same (ground (arith, at_j, set_, stays, count, member, equal))
      | inr other ↦ rw other (ground (arith, stays, count))
    ])

subscribe-one :
    (i h : ℕ) (store : BusStore) → IsRegistered store → IsRegistered (subscribe i (some h) store).0
unfolding subscribe
subscribe-one i h store valid = elim (Option-cases (get i store.streams)) [
  | inl missing ↦ rw (missing, subscribe) valid
  | inr (stream, there) ↦ elim (Option-cases stream.handler) [
    | inl free ↦ rw (there, free, subscribe) (added-IsRegistered i h store stream there free valid)
    | inr (old, taken) ↦ rw (there, taken, subscribe) valid
  ]
]

unsubscribe-IsRegistered :
    (i : ℕ) (store : BusStore) → IsRegistered store → IsRegistered (unsubscribe i store).0
unfolding unsubscribe
unsubscribe-IsRegistered i store valid = elim (Option-cases (get i store.streams)) [
  | inl missing ↦ rw (missing, unsubscribe) valid
  | inr (stream, there) ↦ elim (Option-cases stream.handler) [
    | inl free ↦ rw (there, free, unsubscribe) valid
    | inr (old, taken) ↦
        rw (there, taken, unsubscribe) (removed-IsRegistered i old store stream there taken valid)
  ]
]

subscribe_any :
    (i : ℕ) (h : Option ℕ) (store : BusStore)
    → IsRegistered store
    → IsRegistered (subscribe i h store).0
unfolding subscribe
subscribe_any i none store valid = valid
subscribe_any i (some h) store valid = subscribe-one i h store valid

-- When each stream with a handler is registered once and no other is, this still holds after subscribing to a stream and after leaving one, whether refused or not.
pub subscribe-IsRegistered :
    (i : ℕ) (h : Option ℕ) (store : BusStore)
    → IsRegistered store
    → IsRegistered (subscribe i h store).0 × IsRegistered (unsubscribe i store).0
subscribe-IsRegistered i h store valid =
    (subscribe_any i h store valid, unsubscribe-IsRegistered i store valid)
