-- ===== src/Tx/Responses.antt =====
-- bus/tx/transaction.go: what the complete handlers are given.
use ranch.Prelude.{
  All, All-append, Bool, Bool-cases, List, Option, [], arith, count_if, count_if-append, false,
  get_elem?, if◌then◌else◌, inl, inr, length, ltb, map, nat_eq, none, refl, set, some, string_eq,
  subst, suc, sym, true, zero, ℕ, ◌&&◌, ◌++◌, ◌+◌, ◌-◌, ◌==◌, ◌∷◌, ◌≡◌, ◌≢◌,
}
use ranch.Tx.{
  Answers, Effect, Error, Event, Request, Transaction, cancelled, closing, commit_context,
  committed, complete, completed, execute_all, execute_first, execute_next, execute_request, fail,
  failed, is_aborted, is_over, is_sync, listening, nils, on_transaction_error,
  on_transaction_request_success, outside, response, run, sending, uncommitted, waiting,
}
use ranch.Tx.Execute.{execute_cases}
use ranch.Tx.Outcome.{
  IsCounted, execute_all-Moves, execute_first-Moves, execute_next-Moves, is_complete,
  on_transaction_error-Moves, recorded, run_one_outcome,
}

abbrev pub is_none : Option ℕ → Bool
is_none none = true
is_none (some m) = false

abbrev nones : List (Option ℕ) → ℕ
nones = count_if is_none

-- The responses and their count agree: as many slots are open as responses are missing.
pub record IsFilling (tx : Transaction) : Type 0 where
  pub slots : tx.completed_requests + nones tx.responses ≡ length tx.requests

-- Every response is for a request that exists and that has none yet.
abbrev pub AllFresh : List (Option ℕ) → List Event → Type 0
AllFresh rs [] = Unit
AllFresh rs (response i m ∷ es) = (get_elem? rs i ≡ some none) × AllFresh (set rs i (some m)) es
AllFresh rs (failed e ∷ es) = AllFresh rs es
AllFresh rs (cancelled e ∷ es) = AllFresh rs es

-- The messages of the events, each in the slot of its request.
abbrev pub gather : List (Option ℕ) → List Event → List (Option ℕ)
gather rs [] = rs
gather rs (response i m ∷ es) = gather (set rs i (some m)) es
gather rs (failed e ∷ es) = gather rs es
gather rs (cancelled e ∷ es) = gather rs es

abbrev pub Gathered : List (Option ℕ) → Effect → Type 0
Gathered rs (complete h r) = (r ≡ rs) × (count_if is_none r ≡ 0)
Gathered rs _ = Unit

nones-set :
    (rs : List (Option ℕ)) (i m : ℕ)
    → get_elem? rs i ≡ some none
    → nones (set rs i (some m)) + 1 ≡ nones rs
nones-set [] i m h = cc
nones-set (r ∷ rs) zero m h = ground arith
nones-set (r ∷ rs) (suc i) m h = omega (arith, nones-set rs i m h)

no_slot : (rs : List (Option ℕ)) (i : ℕ) → nones rs ≡ 0 → get_elem? rs i ≢ some none
no_slot [] i h e = cc
no_slot (r ∷ rs) zero h e = ground arith
no_slot (r ∷ rs) (suc i) h e = no_slot rs i (ground arith) e

gather_full :
    (rs : List (Option ℕ)) (es : List Event) → nones rs ≡ 0 → AllFresh rs es → gather rs es ≡ rs
gather_full rs [] h f = refl
gather_full rs (response i m ∷ es) h f = absurd (no_slot rs i h f.0)
gather_full rs (failed e ∷ es) h f = gather_full rs es h f
gather_full rs (cancelled e ∷ es) h f = gather_full rs es h f

none_complete :
    (rs : List (Option ℕ)) (effects : List Effect)
    → count_if is_complete effects ≡ 0
    → All (Gathered rs) effects
none_complete rs [] h = tt
none_complete rs (complete k r ∷ effects) h = absurd (omega arith)
none_complete rs (fail k e ∷ effects) h = (tt, none_complete rs effects (omega arith))
none_complete rs (listening q ∷ effects) h = (tt, none_complete rs effects (omega arith))
none_complete rs (closing q ∷ effects) h = (tt, none_complete rs effects (omega arith))
none_complete rs (sending q ∷ effects) h = (tt, none_complete rs effects (omega arith))
none_complete rs (waiting q ∷ effects) h = (tt, none_complete rs effects (omega arith))

All-Gathered :
    (rs : List (Option ℕ)) (hs : List ℕ)
    → nones rs ≡ 0
    → All (Gathered rs) (map (λ h. complete h rs) hs)
All-Gathered rs [] h = tt
All-Gathered rs (k ∷ hs) h = ((refl, h), All-Gathered rs hs h)

-- Executing a request records nothing and completes nothing.
record Keeps (tx next : Transaction) (effects : List Effect) : Type 0 where
  responses : next.responses ≡ tx.responses
  count : next.completed_requests ≡ tx.completed_requests
  requests : next.requests ≡ tx.requests
  silent : count_if is_complete effects ≡ 0

no_completes : (e : Error) (hs : List ℕ) → count_if is_complete (map (λ h. fail h e) hs) ≡ 0
no_completes e [] = refl
no_completes e (h ∷ hs) = omega (arith, no_completes e hs)

on_transaction_error-Keeps :
    (e : Error) (tx : Transaction)
    → Keeps tx (on_transaction_error e tx).0 (on_transaction_error e tx).1
unfolding on_transaction_error
on_transaction_error-Keeps e tx = ground (arith, no_completes e tx.on_error_handlers)

Keeps-cons :
    (x : Effect) (tx next : Transaction) (effects : List Effect)
    → is_complete x ≡ false
    → Keeps tx next effects
    → Keeps tx next (x ∷ effects)
Keeps-cons x tx next effects c m = ground arith

execute_request-Keeps :
    (ans : Answers) (req : Request) (tx : Transaction)
    → Keeps tx (execute_request ans req tx).0 (execute_request ans req tx).1
execute_request-Keeps ans req tx =
    execute_cases (λ r. Keeps tx r.0 r.1) ans req tx (λ e. on_transaction_error-Keeps e tx)
      (λ e.
        Keeps-cons (listening req) tx _ _ refl
          (Keeps-cons (closing req) tx _ _ refl (on_transaction_error-Keeps e tx)))
      (ground arith) (ground arith)

execute_next-Keeps :
    (answers : ℕ → Answers) (req : Option Request) (tx : Transaction)
    → Keeps tx (execute_next answers req tx).0 (execute_next answers req tx).1
execute_next-Keeps answers none tx = ground arith
execute_next-Keeps answers (some req) tx = execute_request-Keeps (answers req.request_index) req tx

over_silent :
    (answers : ℕ → Answers) (rs : List (Option ℕ)) (es : List Event) (tx : Transaction)
    → IsCounted tx
    → is_over tx.state ≡ true
    → All (Gathered rs) (run answers es tx).1
over_silent answers rs es tx v o = none_complete rs _ ((run_one_outcome answers es tx v).3 o).1

success-slots :
    (index message : ℕ) (tx : Transaction)
    → IsFilling tx
    → get_elem? tx.responses index ≡ some none
    → IsFilling (recorded index message tx)
success-slots index message tx v h = record {
  slots = omega (arith, v.slots, nones-set tx.responses index message h);
}

-- What one response does to a transaction that is not over, as a rule for its three branches.
success_cases {ℓ} :
    (Q : Transaction × List Effect → Type ℓ) (answers : ℕ → Answers) (index message : ℕ)
    (tx : Transaction)
    → is_aborted tx.state ≡ false
    → (tx.completed_requests + 1 ≡ length tx.requests
        → Q (
          record (recorded index message tx) { state = completed },
          map (λ h. complete h (set tx.responses index (some message))) tx.on_complete_handlers,
        ))
    → ((next : Option Request) → Q (execute_next answers next (recorded index message tx)))
    → Q (on_transaction_request_success answers index message tx)
unfolding on_transaction_request_success
success_cases Q answers index message tx live done more =
    rw (live, on_transaction_request_success)
      (elim (Bool-cases (tx.completed_requests + 1 == length tx.requests)) [
        | inl all ↦ rw (all, on_transaction_request_success) (done (ground arith))
        | inr left ↦
            rw (left, on_transaction_request_success)
              (elim (Bool-cases
                (is_sync tx.transaction_type && ltb index (length tx.requests - 1))) [
                  | inl sync ↦
                      rw (sync, on_transaction_request_success)
                        (more (get_elem? tx.requests (index + 1)))
                  | inr wait ↦ rw (wait, on_transaction_request_success) (more none)
                ])
      ])

-- What a run owes from a state on.
abbrev Owes : (ℕ → Answers) → List Event → List (Option ℕ) → Transaction × List Effect → Type 0
Owes answers es rs r = All (Gathered rs) (r.1 ++ (run answers es r.0).1)

Owes-silent :
    (answers : ℕ → Answers) (es : List Event) (rs : List (Option ℕ)) (tx next : Transaction)
    (effects : List Effect)
    → Keeps tx next effects
    → All (Gathered rs) (run answers es next).1
    → Owes answers es rs (next, effects)
Owes-silent answers es rs tx next effects k h =
    All-append (Gathered rs) effects _ (none_complete rs effects k.silent) h

Keeps-IsFilling :
    (tx next : Transaction) (effects : List Effect)
    → Keeps tx next effects
    → IsFilling tx
    → IsFilling next
Keeps-IsFilling tx next effects k v = record {
  slots = rw (k.count, k.responses, k.requests) v.slots;
}

-- A move that records nothing passes the debt on.
after-Keeps :
    (answers : ℕ → Answers) (es : List Event) (tx next : Transaction) (effects : List Effect)
    → Keeps tx next effects
    → IsFilling tx
    → AllFresh tx.responses es
    → (IsFilling next
        → AllFresh next.responses es
        → All (Gathered (gather next.responses es)) (run answers es next).1)
    → Owes answers es (gather tx.responses es) (next, effects)
after-Keeps answers es tx next effects k v f ih =
    Owes-silent answers es (gather tx.responses es) tx next effects k (
      subst (λ rs. All (Gathered (gather rs es)) (run answers es next).1) k.responses
        (ih (Keeps-IsFilling tx next effects k v)
          (subst (λ rs. AllFresh rs es) (sym k.responses) f)))

after_all :
    (answers : ℕ → Answers) (es : List Event) (index message : ℕ) (tx : Transaction)
    → IsFilling (recorded index message tx)
    → AllFresh (set tx.responses index (some message)) es
    → tx.completed_requests + 1 ≡ length tx.requests
    → Owes answers es (gather (set tx.responses index (some message)) es) (
      record (recorded index message tx) { state = completed },
      map (λ h. complete h (set tx.responses index (some message))) tx.on_complete_handlers,
    )
after_all answers es index message tx v f all =
    let rs = set tx.responses index (some message) in
    let full : nones rs ≡ 0 = omega (arith, v.slots) in
    rw (gather_full rs es full f) (
      All-append (Gathered rs) (map (λ h. complete h rs) tx.on_complete_handlers) _
        (All-Gathered rs tx.on_complete_handlers full)
        (over_silent answers rs es (record (recorded index message tx) { state = completed })
          (record { counted = λ _. omega arith }) refl))

run_from :
    (answers : ℕ → Answers) (es : List Event) (tx : Transaction)
    → IsCounted tx
    → IsFilling tx
    → AllFresh tx.responses es
    → All (Gathered (gather tx.responses es)) (run answers es tx).1
unfolding run
run_from answers [] tx c v f = tt
run_from answers (failed e ∷ es) tx c v f =
    after-Keeps answers es tx (on_transaction_error (outside e) tx).0 _
      (on_transaction_error-Keeps (outside e) tx) v f
      (run_from answers es (on_transaction_error (outside e) tx).0
        (on_transaction_error-Moves (outside e) tx c).counted)
run_from answers (cancelled e ∷ es) tx c v f =
    after-Keeps answers es tx (on_transaction_error (outside e) tx).0 _
      (on_transaction_error-Keeps (outside e) tx) v f
      (run_from answers es (on_transaction_error (outside e) tx).0
        (on_transaction_error-Moves (outside e) tx c).counted)
run_from answers (response i m ∷ es) tx c v f = elim (Bool-cases (is_aborted tx.state)) [
  | inl over ↦ over_silent answers _ (response i m ∷ es) tx c (ground arith)
  | inr live ↦
      success_cases (Owes answers es (gather (set tx.responses i (some m)) es)) answers i m tx live
        (after_all answers es i m tx (success-slots i m tx v f.0) f.1)
        λ next.
          after-Keeps answers es (recorded i m tx) (execute_next answers next (recorded i m tx)).0 _
            (execute_next-Keeps answers next (recorded i m tx)) (success-slots i m tx v f.0) f.1
            (run_from answers es (execute_next answers next (recorded i m tx)).0
              (execute_next-Moves answers next (recorded i m tx)
                (record { counted = λ h. omega (arith, c.counted h) })).counted)
]

Keeps-trans :
    (a b c : Transaction) (es fs : List Effect) → Keeps a b es → Keeps b c fs → Keeps a c (es ++ fs)
Keeps-trans a b c es fs m n = ground (arith, m, n, count_if-append is_complete es fs)

execute_all-Keeps :
    (answers : ℕ → Answers) (reqs : List Request) (tx : Transaction)
    → Keeps tx (execute_all answers reqs tx).0 (execute_all answers reqs tx).1
unfolding execute_all
execute_all-Keeps answers [] tx = ground arith
execute_all-Keeps answers (req ∷ reqs) tx =
    Keeps-trans tx _ _ _ _ (execute_request-Keeps (answers req.request_index) req tx)
      (execute_all-Keeps answers reqs (execute_request (answers req.request_index) req tx).0)

execute_first-Keeps :
    (answers : ℕ → Answers) (reqs : List Request) (tx : Transaction)
    → Keeps tx (execute_first answers reqs tx).0 (execute_first answers reqs tx).1
execute_first-Keeps answers [] tx = ground arith
execute_first-Keeps answers (req ∷ reqs) tx =
    execute_request-Keeps (answers req.request_index) req tx

nones-nils : (reqs : List Request) → nones (nils reqs) ≡ length reqs
nones-nils [] = refl
nones-nils (req ∷ reqs) = omega (arith, nones-nils reqs)

abbrev pub started : Transaction → Transaction
started tx = record tx { state = committed; responses = nils tx.requests }

-- The transaction just after a commit, and the effects of its first requests.
pub begun : (ℕ → Answers) → Transaction → Transaction × List Effect
begun answers tx =
    if is_sync tx.transaction_type
    then execute_first answers tx.requests (started tx)
    else execute_all answers tx.requests (started tx)

begun-Keeps :
    (answers : ℕ → Answers) (tx : Transaction)
    → Keeps (started tx) (begun answers tx).0 (begun answers tx).1
unfolding begun
begun-Keeps answers tx = elim (Bool-cases (is_sync tx.transaction_type)) [
  | inl h ↦ rw (h, begun) (execute_first-Keeps answers tx.requests (started tx))
  | inr h ↦ rw (h, begun) (execute_all-Keeps answers tx.requests (started tx))
]

begun-IsCounted : (answers : ℕ → Answers) (tx : Transaction) → IsCounted (begun answers tx).0
unfolding begun
begun-IsCounted answers tx = elim (Bool-cases (is_sync tx.transaction_type)) [
  | inl h ↦
      rw (h, begun)
        (execute_first-Moves answers tx.requests (started tx)
          (record { counted = λ e. cc })).counted
  | inr h ↦
      rw (h, begun)
        (execute_all-Moves answers tx.requests (started tx) (record { counted = λ e. cc })).counted
]

commit_begun :
    (answers : ℕ → Answers) (tx : Transaction)
    → tx.state ≡ uncommitted
    → (length tx.requests == 0) ≡ false
    → commit_context none answers tx ≡ ((begun answers tx).0, (begun answers tx).1, none)
unfolding commit_context begun
commit_begun answers tx fresh some_requests = ground arith

-- A transaction with requests commits, once; whatever its requests meet, and in whatever order their responses come, mixed with errors and cancellations: if there is one response at most for each request, then whoever is called back as complete is given all the responses, each at the index of its request.
pub commit_run :
    (answers : ℕ → Answers) (es : List Event) (tx : Transaction)
    → tx.state ≡ uncommitted
    → tx.completed_requests ≡ 0
    → (length tx.requests == 0) ≡ false
    → AllFresh (nils tx.requests) es
    → ((commit_context none answers tx).2 ≡ none)
      × All
          (Gathered (gather (nils tx.requests) es))
          (run answers es (commit_context none answers tx).0).1
commit_run answers es tx fresh zero_done some_requests f =
    let k = begun-Keeps answers tx in
    rw (commit_begun answers tx fresh some_requests) (
      refl,
      subst (λ rs. All (Gathered (gather rs es)) (run answers es (begun answers tx).0).1)
          k.responses
          (run_from answers es (begun answers tx).0 (begun-IsCounted answers tx)
            (record {
              slots = rw (k.count, k.responses, k.requests) (omega (arith, nones-nils tx.requests));
            })
            (subst (λ rs. AllFresh rs es) (sym k.responses) f)),
    )
