-- ===== src/Tx/Outcome.antt =====
-- bus/tx/transaction.go: a transaction has one outcome.
use ranch.Prelude.{
  Bool, Bool-cases, List, Option, [], arith, count_if, count_if-append, false, if◌then◌else◌, inl,
  inr, length, ltb, map, nat_eq, none, refl, set, some, string_eq, subst, true, ℕ, ◌&&◌, ◌++◌, ◌+◌,
  ◌-◌, ◌<◌, ◌==◌, ◌∙◌, ◌∷◌, ◌≡◌, ◌≤◌, ◌⊎◌,
}
use ranch.Tx.{
  Answers, Effect, Error, Event, Request, State, Transaction, aborted, cancelled, closing, complete,
  completed, execute_all, execute_first, execute_next, execute_request, fail, failed, is_aborted,
  is_over, is_sync, listening, on_transaction_error, on_transaction_request_success, outside,
  response, run, sending, step, waiting,
}
use ranch.Tx.Execute.{execute_cases}

abbrev pub is_fail : Effect → Bool
is_fail (fail h e) = true
is_fail _ = false

abbrev pub is_complete : Effect → Bool
is_complete (complete h r) = true
is_complete _ = false

abbrev pub fails : List Effect → ℕ
fails = count_if is_fail

abbrev pub completes : List Effect → ℕ
completes = count_if is_complete

-- Once the responses are counted, the count stays at the number of requests or above.
pub record IsCounted (tx : Transaction) : Type 0 where
  pub counted : tx.state ≡ completed → length tx.requests ≤ tx.completed_requests

-- The calls of error handlers, and of complete handlers, that a transaction may still make.
abbrev open_calls : State → ℕ → ℕ
open_calls s n = if is_over s then 0 else n

fails-map : (e : Error) (hs : List ℕ) → fails (map (λ h. fail h e) hs) ≡ length hs
fails-map e [] = refl
fails-map e (h ∷ hs) = omega (arith, fails-map e hs)

completes-map :
    (r : List (Option ℕ)) (hs : List ℕ) → completes (map (λ h. complete h r) hs) ≡ length hs
completes-map r [] = refl
completes-map r (h ∷ hs) = omega (arith, completes-map r hs)

no_completes : (e : Error) (hs : List ℕ) → completes (map (λ h. fail h e) hs) ≡ 0
no_completes e [] = refl
no_completes e (h ∷ hs) = omega (arith, no_completes e hs)

no_fails : (r : List (Option ℕ)) (hs : List ℕ) → fails (map (λ h. complete h r) hs) ≡ 0
no_fails r [] = refl
no_fails r (h ∷ hs) = omega (arith, no_fails r hs)

-- What holds of every move from one state of a transaction to the next, with its effects.
pub record Moves (tx : Transaction) (next : Transaction) (effects : List Effect) : Type 0 where
  pub handlers : next.on_error_handlers ≡ tx.on_error_handlers
  pub readers : next.on_complete_handlers ≡ tx.on_complete_handlers
  pub counted : IsCounted next
  pub fails_bound :
      fails effects + open_calls next.state (length tx.on_error_handlers)
      ≤ open_calls tx.state (length tx.on_error_handlers)
  pub completes_bound :
      completes effects + open_calls next.state (length tx.on_complete_handlers)
      ≤ open_calls tx.state (length tx.on_complete_handlers)
  pub over_stays : is_over tx.state ≡ true → next.state ≡ tx.state
  pub failed_state : 0 < fails effects → next.state ≡ aborted
  pub completed_state : 0 < completes effects → next.state ≡ completed

pub on_transaction_error-Moves :
    (e : Error) (tx : Transaction)
    → IsCounted tx
    → Moves tx (on_transaction_error e tx).0 (on_transaction_error e tx).1
unfolding on_transaction_error
on_transaction_error-Moves e tx v =
    ground (arith, fails-map e tx.on_error_handlers, no_completes e tx.on_error_handlers)

Moves-refl : (tx : Transaction) → IsCounted tx → Moves tx tx []
Moves-refl tx v = ground arith

Moves-cons :
    (x : Effect) (tx next : Transaction) (effects : List Effect)
    → is_fail x ≡ false
    → is_complete x ≡ false
    → Moves tx next effects
    → Moves tx next (x ∷ effects)
Moves-cons x tx next effects f c m = ground arith

execute_request-Moves :
    (ans : Answers) (req : Request) (tx : Transaction)
    → IsCounted tx
    → Moves tx (execute_request ans req tx).0 (execute_request ans req tx).1
execute_request-Moves ans req tx v =
    execute_cases (λ r. Moves tx r.0 r.1) ans req tx (λ e. on_transaction_error-Moves e tx v)
      (λ e.
        Moves-cons (listening req) tx _ _ refl refl
          (Moves-cons (closing req) tx _ _ refl refl (on_transaction_error-Moves e tx v)))
      (Moves-cons (waiting req) tx _ _ refl refl (Moves-refl tx v))
      (Moves-cons (listening req) tx _ _ refl refl
        (Moves-cons (sending req) tx _ _ refl refl (Moves-refl tx v)))

Moves-trans :
    (a b c : Transaction) (es fs : List Effect) → Moves a b es → Moves b c fs → Moves a c (es ++ fs)
Moves-trans a b c es fs m n = record {
  handlers = n.handlers ∙ m.handlers;
  readers = n.readers ∙ m.readers;
  counted = n.counted;
  fails_bound = omega (
    arith,
    count_if-append is_fail es fs,
    m.fails_bound,
    subst (λ l. fails fs + open_calls c.state (length l) ≤ open_calls b.state (length l)) m.handlers
        n.fails_bound,
  );
  completes_bound = omega (
    arith,
    count_if-append is_complete es fs,
    m.completes_bound,
    subst (λ l. completes fs + open_calls c.state (length l) ≤ open_calls b.state (length l))
        m.readers n.completes_bound,
  );
  over_stays = λ o. n.over_stays (rw (m.over_stays o) o) ∙ m.over_stays o;
  failed_state = λ h.
      ground (arith, count_if-append is_fail es fs, m.failed_state, n.failed_state, n.over_stays);
  completed_state = λ h. ground (
    arith,
    count_if-append is_complete es fs,
    m.completed_state,
    n.completed_state,
    n.over_stays,
  );
}

pub execute_next-Moves :
    (answers : ℕ → Answers) (req : Option Request) (tx : Transaction)
    → IsCounted tx
    → Moves tx (execute_next answers req tx).0 (execute_next answers req tx).1
execute_next-Moves answers none tx v = Moves-refl tx v
execute_next-Moves answers (some req) tx v =
    execute_request-Moves (answers req.request_index) req tx v

-- The transaction with one more response recorded.
abbrev pub recorded : ℕ → ℕ → Transaction → Transaction
recorded index message tx = record tx {
  responses = set tx.responses index (some message);
  completed_requests = tx.completed_requests + 1;
}

from_recorded :
    (index message : ℕ) (tx next : Transaction) (effects : List Effect)
    → Moves (recorded index message tx) next effects
    → Moves tx next effects
from_recorded index message tx next effects m = ground (arith, m)

success-Moves :
    (answers : ℕ → Answers) (index message : ℕ) (tx : Transaction)
    → IsCounted tx
    → Moves tx
        (on_transaction_request_success answers index message tx).0
        (on_transaction_request_success answers index message tx).1
unfolding on_transaction_request_success
success-Moves answers index message tx v = elim (Bool-cases (is_aborted tx.state)) [
  | inl over ↦ rw (over, on_transaction_request_success) (Moves-refl tx v)
  | inr live ↦
      rw (live, on_transaction_request_success)
        (elim (Bool-cases (tx.completed_requests + 1 == length tx.requests)) [
          | inl all ↦
              rw (all, on_transaction_request_success)
                (ground (
                  arith,
                  v,
                  completes-map (set tx.responses index (some message)) tx.on_complete_handlers,
                  no_fails (set tx.responses index (some message)) tx.on_complete_handlers,
                ))
          | inr some_left ↦
              rw (some_left, on_transaction_request_success)
                (elim (Bool-cases
                  (is_sync tx.transaction_type && ltb index (length tx.requests - 1))) [
                    | inl sync ↦
                        rw (sync, on_transaction_request_success)
                          (from_recorded index message tx _ _ (
                            execute_next-Moves answers _ (recorded index message tx)
                              (ground (arith, v))))
                    | inr wait ↦ rw (wait, on_transaction_request_success) (ground (arith, v))
                  ])
        ])
]

step-Moves :
    (answers : ℕ → Answers) (e : Event) (tx : Transaction)
    → IsCounted tx
    → Moves tx (step answers e tx).0 (step answers e tx).1
unfolding step
step-Moves answers (response index message) tx v = success-Moves answers index message tx v
step-Moves answers (failed e) tx v = on_transaction_error-Moves (outside e) tx v
step-Moves answers (cancelled e) tx v = on_transaction_error-Moves (outside e) tx v

run-Moves :
    (answers : ℕ → Answers) (es : List Event) (tx : Transaction)
    → IsCounted tx
    → Moves tx (run answers es tx).0 (run answers es tx).1
unfolding run
run-Moves answers [] tx v = Moves-refl tx v
run-Moves answers (e ∷ es) tx v =
    let m = step-Moves answers e tx v in
    Moves-trans tx _ _ _ _ m (run-Moves answers es (step answers e tx).0 m.counted)

-- Whatever responses, errors and cancellations arrive, in whatever order and however often, there are no more calls of error handlers than error handlers, no more calls of complete handlers than complete handlers, and never calls of both kinds; once the transaction is over, there are none.
pub run_one_outcome :
    (answers : ℕ → Answers) (es : List Event) (tx : Transaction)
    → IsCounted tx
    → (fails (run answers es tx).1 ≤ length tx.on_error_handlers)
      × (completes (run answers es tx).1 ≤ length tx.on_complete_handlers)
      × ((fails (run answers es tx).1 ≡ 0) ⊎ (completes (run answers es tx).1 ≡ 0))
      × (is_over tx.state ≡ true
          → (fails (run answers es tx).1 ≡ 0) × (completes (run answers es tx).1 ≡ 0))
run_one_outcome answers es tx v = let m = run-Moves answers es tx v in ground (arith, m)

pub execute_all-Moves :
    (answers : ℕ → Answers) (reqs : List Request) (tx : Transaction)
    → IsCounted tx
    → Moves tx (execute_all answers reqs tx).0 (execute_all answers reqs tx).1
unfolding execute_all
execute_all-Moves answers [] tx v = Moves-refl tx v
execute_all-Moves answers (req ∷ reqs) tx v =
    let m = execute_request-Moves (answers req.request_index) req tx v in
    Moves-trans tx _ _ _ _ m (
      execute_all-Moves answers reqs (execute_request (answers req.request_index) req tx).0
        m.counted)

pub execute_first-Moves :
    (answers : ℕ → Answers) (reqs : List Request) (tx : Transaction)
    → IsCounted tx
    → Moves tx (execute_first answers reqs tx).0 (execute_first answers reqs tx).1
execute_first-Moves answers [] tx v = Moves-refl tx v
execute_first-Moves answers (req ∷ reqs) tx v =
    execute_request-Moves (answers req.request_index) req tx v
