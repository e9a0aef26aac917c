-- ===== src/Tx/Refusals.antt =====
-- bus/tx/transaction.go: the methods of a transaction that has been committed.
use ranch.Prelude.{
  Bool, List, Option, String, [], false, nat_eq, none, string_eq, true, ℕ, ◌++◌, ◌∷◌,
}
use ranch.Tx.{
  Answers, Effect, Error, Event, State, Transaction, commit_context, on_complete, on_error,
  send_request_api, step, uncommitted, wait_for_store_ready,
}

-- A call of one of the methods, CommitContext under a context that is not done.
pub data ApiCall : Type 0 where
  asking : String → ℕ → ApiCall
  awaiting : Bool → String → ApiCall
  completing failing : ℕ → ApiCall
  committing : ApiCall

-- What happens to a transaction: a method is called, or an answer arrives.
pub data Happening : Type 0 where
  called : ApiCall → Happening
  arrived : Event → Happening

-- The transaction after a call, what it sets going, and its error.
unfoldable pub call :
    (ℕ → Answers) → ApiCall → Transaction → Transaction × List Effect × Option Error
call answers (asking channel payload) tx =
    let done = send_request_api channel payload tx in (done.0, [], done.1)
call answers (awaiting has_store name) tx =
    let done = wait_for_store_ready has_store name tx in (done.0, [], done.1)
call answers (completing handler) tx = let done = on_complete handler tx in (done.0, [], done.1)
call answers (failing handler) tx = let done = on_error handler tx in (done.0, [], done.1)
call answers committing tx = commit_context none answers tx

-- A run of both, with the errors that the calls give.
abbrev pub happen_all :
    (ℕ → Answers) → List Happening → Transaction → Transaction × List Effect × List (Option Error)
happen_all answers [] tx = (tx, [], [])
happen_all answers (called c ∷ hs) tx =
    let done = call answers c tx in
    let rest = happen_all answers hs done.0 in (rest.0, done.1 ++ rest.1, done.2 ∷ rest.2)
happen_all answers (arrived e ∷ hs) tx =
    let done = step answers e tx in
    let rest = happen_all answers hs done.0 in (rest.0, done.1 ++ rest.1, rest.2)

abbrev pub events_of : List Happening → List Event
events_of [] = []
events_of (called c ∷ hs) = events_of hs
events_of (arrived e ∷ hs) = e ∷ events_of hs

abbrev pub is_new : State → Bool
is_new uncommitted = true
is_new _ = false
