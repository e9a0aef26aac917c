-- ===== src/Tx/Tests.antt =====
-- Runs of transactions at fixed inputs.
use ranch.Prelude.{
  All, List, String, [], arith, drop, length, nat_eq, none, refl, string_eq, suc, take, true, ℕ,
  ◌∷◌, ◌≡◌, ◌≤◌, ◌⊎◌,
}
use ranch.Tx.{
  Answers, Event, Request, Transaction, TransactionType, async_transaction, commit_context,
  committed, failed, is_over, nils, response, run, sync_transaction, uncommitted,
}
use ranch.Tx.Outcome.{IsCounted, completes, fails, run_one_outcome}
use ranch.Tx.Responses.{AllFresh, Gathered, commit_run, gather}
use ranch.Tx.Order.{IsLive, executed, numbered, sync_run}
use ranch.Tx.Refusals.{
  Happening, arrived, asking, awaiting, called, committing, completing, failing,
}

-- Nothing goes wrong.
abbrev well : Answers
well = record {
  ctx_err = none;
  has_store = true;
  ctx_err_store = none;
  listen_err = none;
  send_err = none;
}

abbrev request : ℕ → String → Request
request i channel = record {
  request_index = i;
  store_name = "";
  channel_name = channel;
  payload = i;
}

-- Two requests, a complete handler and two error handlers, not yet committed.
abbrev two : TransactionType → Transaction
two type = record {
  transaction_type = type;
  state = uncommitted;
  requests = request 0 "a" ∷ request 1 "b" ∷ [];
  responses = [];
  on_complete_handlers = 1 ∷ [];
  on_error_handlers = 2 ∷ 3 ∷ [];
  completed_requests = 0;
}

abbrev running : Transaction
running = record (two sync_transaction) { state = committed; responses = none ∷ none ∷ [] }

abbrev events : List Event
events = response 1 11 ∷ failed 4 ∷ response 0 10 ∷ []

running-IsCounted : IsCounted running
running-IsCounted = record { counted = λ h. ground arith }

run_one_outcome_example :
    (fails (run (λ _. well) events running).1 ≤ length running.on_error_handlers)
    × (completes (run (λ _. well) events running).1 ≤ length running.on_complete_handlers)
    × ((fails (run (λ _. well) events running).1 ≡ 0)
        ⊎ (completes (run (λ _. well) events running).1 ≡ 0))
    × (is_over running.state ≡ true
        → (fails (run (λ _. well) events running).1 ≡ 0)
          × (completes (run (λ _. well) events running).1 ≡ 0))
run_one_outcome_example = run_one_outcome (λ _. well) events running running-IsCounted

events-AllFresh : AllFresh (nils (two async_transaction).requests) events
events-AllFresh = (refl, (refl, tt))

commit_run_example :
    ((commit_context none (λ _. well) (two async_transaction)).2 ≡ none)
    × All
        (Gathered (gather (nils (two async_transaction).requests) events))
        (run (λ _. well) events (commit_context none (λ _. well) (two async_transaction)).0).1
commit_run_example =
    commit_run (λ _. well) events (two async_transaction) refl refl refl events-AllFresh

well-IsLive : (i : ℕ) → IsLive well
well-IsLive i = (refl, refl, refl, refl, refl)

abbrev two_messages : List ℕ
two_messages = 10 ∷ 11 ∷ []

sync_run_example :
    executed (run (λ _. well) (numbered 0 two_messages) running).1
    ≡ take (length two_messages) (drop (suc 0) running.requests)
sync_run_example =
    sync_run (λ _. well) two_messages 0 running well-IsLive refl refl refl (omega arith)

-- Calls of each method, between two responses.
abbrev happenings : List Happening
happenings =
    called (asking "c" 5)
    ∷ arrived (response 0 70)
    ∷ called committing
    ∷ called (completing 6)
    ∷ arrived (response 1 71)
    ∷ called (awaiting true "s")
    ∷ called (failing 6)
    ∷ []
