-- ===== src/Tx/Order.antt =====
-- bus/tx/transaction.go: the order in which a synchronous transaction sends its requests.
use native.Mathlib.Numerals.{add-one}
use ranch.Prelude.{
  Bool-cases, List, Option, [], ap, arith, drop, get_elem?, inl, inr, length, map, nat_eq, none,
  refl, set, some, string_eq, suc, take, true, zero, ℕ, ◌++◌, ◌+◌, ◌<◌, ◌==◌, ◌∷◌, ◌≡◌, ◌≤◌,
}
use ranch.Tx.{
  Answers, Effect, Event, Request, Transaction, closing, committed, complete, execute_request, fail,
  listening, response, run, sending, step, sync_transaction, waiting,
}

-- Nothing goes wrong where the request is executed.
abbrev pub IsLive : Answers → Type 0
IsLive ans =
    (ans.ctx_err ≡ none)
    × (ans.has_store ≡ true)
    × (ans.ctx_err_store ≡ none)
    × (ans.listen_err ≡ none)
    × (ans.send_err ≡ none)

-- The responses to the requests from the k-th on, in order.
abbrev pub numbered : ℕ → List ℕ → List Event
numbered k [] = []
numbered k (m ∷ ms) = response k m ∷ numbered (suc k) ms

-- The requests that the effects show as begun.
abbrev pub executed : List Effect → List Request
executed [] = []
executed (listening r ∷ es) = r ∷ executed es
executed (waiting r ∷ es) = r ∷ executed es
executed (sending r ∷ es) = executed es
executed (closing r ∷ es) = executed es
executed (complete h rs ∷ es) = executed es
executed (fail h e ∷ es) = executed es

executed-append : (es fs : List Effect) → executed (es ++ fs) ≡ executed es ++ executed fs
executed-append [] fs = refl
executed-append (listening r ∷ es) fs = ap (◌∷◌ r) (executed-append es fs)
executed-append (waiting r ∷ es) fs = ap (◌∷◌ r) (executed-append es fs)
executed-append (sending r ∷ es) fs = executed-append es fs
executed-append (closing r ∷ es) fs = executed-append es fs
executed-append (complete h rs ∷ es) fs = executed-append es fs
executed-append (fail h e ∷ es) fs = executed-append es fs

executed-completes :
    (rs : List (Option ℕ)) (hs : List ℕ) → executed (map (λ h. complete h rs) hs) ≡ []
executed-completes rs [] = refl
executed-completes rs (h ∷ hs) = executed-completes rs hs

execute_live :
    (ans : Answers) (req : Request) (tx : Transaction)
    → IsLive ans
    → ((execute_request ans req tx).0 ≡ tx) × (executed (execute_request ans req tx).1 ≡ req ∷ [])
unfolding execute_request
execute_live ans req tx live = ground arith

get_elem?-some :
    {A : Type 0} (xs : List A) (i : ℕ) → i < length xs → (x : A) × (get_elem? xs i ≡ some x)
get_elem?-some [] i h = elim h [ ]
get_elem?-some (x ∷ xs) zero h = (x, refl)
get_elem?-some (x ∷ xs) (suc i) h = get_elem?-some xs i (omega arith)

drop-get_elem? :
    {A : Type 0} (xs : List A) (i : ℕ) (x : A)
    → get_elem? xs i ≡ some x
    → drop i xs ≡ x ∷ drop (suc i) xs
drop-get_elem? [] i x h = cc
drop-get_elem? (y ∷ xs) zero x h = ground arith
drop-get_elem? (y ∷ xs) (suc i) x h = drop-get_elem? xs i x h

drop_all : {A : Type 0} (xs : List A) (i : ℕ) → length xs ≤ i → drop i xs ≡ []
drop_all [] zero h = refl
drop_all [] (suc i) h = refl
drop_all (x ∷ xs) zero h = absurd (omega arith)
drop_all (x ∷ xs) (suc i) h = drop_all xs i (omega arith)

-- One response to a synchronous transaction, where requests are left.
next_begins :
    (answers : ℕ → Answers) (k m : ℕ) (tx : Transaction) (req : Request)
    → IsLive (answers req.request_index)
    → tx.transaction_type ≡ sync_transaction
    → tx.state ≡ committed
    → tx.completed_requests ≡ k
    → suc k < length tx.requests
    → get_elem? tx.requests (k + 1) ≡ some req
    → ((step answers (response k m) tx).0 ≡ record tx {
      responses = set tx.responses k (some m);
      completed_requests = tx.completed_requests + 1;
    })
      × (executed (step answers (response k m) tx).1 ≡ req ∷ [])
unfolding step
next_begins answers k m tx req live sync running count more at =
    let (same, one) =
      execute_live (answers req.request_index) req
        (record tx {
          responses = set tx.responses k (some m);
          completed_requests = tx.completed_requests + 1;
        })
        live in
    ground arith

-- The response to the last request begins nothing.
sync_last :
    (answers : ℕ → Answers) (k m : ℕ) (ms : List ℕ) (tx : Transaction)
    → tx.state ≡ committed
    → tx.completed_requests ≡ k
    → suc k ≡ length tx.requests
    → k + suc (length ms) ≤ length tx.requests
    → executed (step answers (response k m) tx).1
        ++ executed (run answers (numbered (suc k) ms) (step answers (response k m) tx).0).1
      ≡ take (suc (length ms)) (drop (suc k) tx.requests)
unfolding step run
sync_last answers k m [] tx running count last fits = ground (
  arith,
  drop_all tx.requests (suc k),
  executed-completes (set tx.responses k (some m)) tx.on_complete_handlers,
)
sync_last answers k m (n ∷ ms) tx running count last fits = absurd (omega arith)

-- In a synchronous transaction whose requests meet no error, the responses to the requests from the k-th on make it begin the requests after them, one for each response and in order, and none that is not there.
pub sync_run :
    (answers : ℕ → Answers) (ms : List ℕ) (k : ℕ) (tx : Transaction)
    → ((i : ℕ) → IsLive (answers i))
    → tx.transaction_type ≡ sync_transaction
    → tx.state ≡ committed
    → tx.completed_requests ≡ k
    → k + length ms ≤ length tx.requests
    → executed (run answers (numbered k ms) tx).1 ≡ take (length ms) (drop (suc k) tx.requests)
unfolding run
sync_run answers [] k tx live sync running count fits = refl
sync_run answers (m ∷ ms) k tx live sync running count fits =
    rw
      (executed-append (step answers (response k m) tx).1
        (run answers (numbered (suc k) ms) (step answers (response k m) tx).0).1)
      (elim (Bool-cases (suc k == length tx.requests)) [
        | inl last ↦ sync_last answers k m ms tx running count (ground arith) (omega (arith, fits))
        | inr more ↦
            let (req, at) = get_elem?-some tx.requests (suc k) (ground arith) in
            let (same, one) =
              next_begins answers k m tx req (live req.request_index) sync running count
                (ground arith) (rw add-one at) in
            rw (one, same, drop-get_elem? tx.requests (suc k) req at)
              (ap (◌∷◌ req)
                (sync_run answers ms (suc k) _ live sync running (ground arith) (ground arith)))
      ])
