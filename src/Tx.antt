-- ===== src/Tx.antt =====
-- bus/tx/transaction.go. A payload, a message, an error from outside and a handler are numbers that
-- stand for them: the code passes them on and never looks inside. What the bus, the store manager
-- and the context answer is an argument; what the code asks of them and of its handlers is a list
-- of effects. The responses come back as events, each under the transaction's lock. That the
-- listener of a request is closed after an answer is not modelled: answers may come any number of
-- times.
pub mod Execute
pub mod Outcome
pub mod Responses
pub mod Refusals
pub mod Order
mod Tests
use ranch.Prelude.{
  Bool, List, Option, String, [], false, get_elem?, if◌then◌else◌, length, ltb, map, nat_eq, none,
  set, some, string_eq, true, ℕ, ◌&&◌, ◌++◌, ◌+◌, ◌-◌, ◌==◌, ◌∷◌,
}

pub data TransactionType : Type 0 where
  async_transaction sync_transaction : TransactionType

pub data State : Type 0 where
  uncommitted committed completed aborted : State

pub data Error : Type 0 where
  already_committed empty_transaction : Error
  no_store : String → Error
  outside : ℕ → Error

pub record Request : Type 0 where
  pub request_index : ℕ
  pub store_name : String
  pub channel_name : String
  pub payload : ℕ

pub record Transaction : Type 0 where
  pub transaction_type : TransactionType
  pub state : State
  pub requests : List Request
  pub responses : List (Option ℕ)
  pub on_complete_handlers : List ℕ
  pub on_error_handlers : List ℕ
  pub completed_requests : ℕ

pub data Effect : Type 0 where
  listening : Request → Effect  -- ListenOnceForDestination has returned a handler
  sending : Request → Effect  -- SendRequestMessageContext has accepted the request
  closing : Request → Effect  -- closeListener, where the sending has failed
  waiting : Request → Effect  -- WhenReady of the store has taken the callback
  complete : ℕ → List (Option ℕ) → Effect  -- go completeHandler(tr.responses)
  fail : ℕ → Error → Effect  -- go errorHandler(err)

-- What a request meets when it is executed.
pub record Answers : Type 0 where
  pub ctx_err : Option ℕ  -- ctx.Err() in executeRequest
  pub has_store : Bool  -- GetStore returns a store
  pub ctx_err_store : Option ℕ  -- ctx.Err() in waitForStore
  pub listen_err : Option ℕ
  pub send_err : Option ℕ

unfoldable pub new : TransactionType → Transaction
new type = record {
  transaction_type = type;
  state = uncommitted;
  requests = [];
  responses = [];
  on_complete_handlers = [];
  on_error_handlers = [];
  completed_requests = 0;
}

unfoldable pub check_uncommitted_state : State → Option Error
check_uncommitted_state uncommitted = none
check_uncommitted_state committed = some already_committed
check_uncommitted_state completed = some already_committed
check_uncommitted_state aborted = some already_committed

-- The rest of a method behind its `if err := ...; err != nil { return err }`.
abbrev pub unless :
    Option Error → Transaction → Transaction × Option Error → Transaction × Option Error
unless none tx rest = rest
unless (some e) tx rest = (tx, some e)

unfoldable pub send_request_api : String → ℕ → Transaction → Transaction × Option Error
unfolding check_uncommitted_state
send_request_api channel payload tx = unless (check_uncommitted_state tx.state) tx (
  record tx {
    requests =
        tx.requests
        ++ record {
          request_index = length tx.requests;
          store_name = "";
          channel_name = channel;
          payload = payload;
        }
          ∷ [];
  },
  none,
)

unfoldable pub wait_for_store_ready : Bool → String → Transaction → Transaction × Option Error
unfolding check_uncommitted_state
wait_for_store_ready has_store name tx = unless (check_uncommitted_state tx.state) tx (
    if has_store
    then (
      record tx {
        requests =
            tx.requests
            ++ record {
              request_index = length tx.requests;
              store_name = name;
              channel_name = "";
              payload = 0;
            }
              ∷ [];
      },
      none,
    )
    else (tx, some (no_store name)))

unfoldable pub on_complete : ℕ → Transaction → Transaction × Option Error
unfolding check_uncommitted_state
on_complete handler tx =
    unless (check_uncommitted_state tx.state) tx
      (record tx { on_complete_handlers = tx.on_complete_handlers ++ handler ∷ [] }, none)

unfoldable pub on_error : ℕ → Transaction → Transaction × Option Error
unfolding check_uncommitted_state
on_error handler tx =
    unless (check_uncommitted_state tx.state) tx
      (record tx { on_error_handlers = tx.on_error_handlers ++ handler ∷ [] }, none)

abbrev pub is_over : State → Bool
is_over aborted = true
is_over completed = true
is_over _ = false

abbrev pub is_aborted : State → Bool
is_aborted aborted = true
is_aborted _ = false

abbrev pub is_sync : TransactionType → Bool
is_sync sync_transaction = true
is_sync async_transaction = false

unfoldable pub on_transaction_error : Error → Transaction → Transaction × List Effect
on_transaction_error e tx =
    if is_over tx.state
    then (tx, [])
    else (record tx { state = aborted }, map (λ h. fail h e) tx.on_error_handlers)

unfoldable pub wait_for_store : Answers → Request → Transaction → Transaction × List Effect
unfolding on_transaction_error
wait_for_store ans req tx =
    if ans.has_store
    then elim ans.ctx_err_store [
      | some e ↦ on_transaction_error (outside e) tx
      | none ↦ (tx, waiting req ∷ [])
    ]
    else on_transaction_error (no_store req.store_name) tx

unfoldable pub send_request : Answers → Request → Transaction → Transaction × List Effect
unfolding on_transaction_error
send_request ans req tx = elim ans.listen_err [
  | some e ↦ on_transaction_error (outside e) tx
  | none ↦ elim ans.send_err [
    | some e ↦
        (let (tx', failed) = on_transaction_error (outside e) tx in
          (tx', listening req ∷ closing req ∷ failed))
    | none ↦ (tx, listening req ∷ sending req ∷ [])
  ]
]

unfoldable pub execute_request : Answers → Request → Transaction → Transaction × List Effect
unfolding wait_for_store send_request
execute_request ans req tx = elim ans.ctx_err [
  | some e ↦ on_transaction_error (outside e) tx
  | none ↦ if req.store_name == "" then send_request ans req tx else wait_for_store ans req tx
]

-- The loop of startAsyncTransaction. It goes on after a request that failed.
unfoldable pub execute_all : (ℕ → Answers) → List Request → Transaction → Transaction × List Effect
unfolding execute_request
execute_all answers [] tx = (tx, [])
execute_all answers (req ∷ reqs) tx =
    let (tx', effects) = execute_request (answers req.request_index) req tx in
    let (last, more) = execute_all answers reqs tx' in (last, effects ++ more)

abbrev pub nils : List Request → List (Option ℕ)
nils [] = []
nils (_ ∷ reqs) = none ∷ nils reqs

abbrev pub execute_first : (ℕ → Answers) → List Request → Transaction → Transaction × List Effect
execute_first answers [] tx = (tx, [])
execute_first answers (req ∷ reqs) tx = execute_request (answers req.request_index) req tx

-- CommitContext. The goroutine that waits for ctx.Done() is the event `cancelled` below.
unfoldable pub commit_context :
    Option ℕ → (ℕ → Answers) → Transaction → Transaction × List Effect × Option Error
unfolding execute_all check_uncommitted_state
commit_context (some e) answers tx = (tx, [], some (outside e))
commit_context none answers tx =
    let started = record tx { state = committed; responses = nils tx.requests } in
    let (tx', effects) =
      if is_sync tx.transaction_type
      then execute_first answers tx.requests started
      else execute_all answers tx.requests started in
    elim (check_uncommitted_state tx.state) [
      | some e ↦ (tx, [], some e)
      | none ↦
          if length tx.requests == 0 then (tx, [], some empty_transaction) else (tx', effects, none)
    ]

-- The request after the i-th, executed.
abbrev pub execute_next : (ℕ → Answers) → Option Request → Transaction → Transaction × List Effect
execute_next answers none tx = (tx, [])
execute_next answers (some req) tx = execute_request (answers req.request_index) req tx

unfoldable pub on_transaction_request_success :
    (ℕ → Answers) → ℕ → ℕ → Transaction → Transaction × List Effect
unfolding execute_request
on_transaction_request_success answers index message tx =
    let tx' = record tx {
      responses = set tx.responses index (some message);
      completed_requests = tx.completed_requests + 1;
    } in
    if is_aborted tx.state
    then (tx, [])
    else if tx'.completed_requests == length tx.requests
    then (
      record tx' { state = completed },
      map (λ h. complete h tx'.responses) tx.on_complete_handlers,
    )
    else if is_sync tx.transaction_type && ltb index (length tx.requests - 1)
    then execute_next answers (get_elem? tx.requests (index + 1)) tx'
    else (tx', [])

pub data Event : Type 0 where
  response : ℕ → ℕ → Event  -- the success handler of the request with this index, or its store with a live context
  failed cancelled : ℕ → Event  -- an error response; the context of the commit or of a ready store

unfoldable pub step : (ℕ → Answers) → Event → Transaction → Transaction × List Effect
unfolding on_transaction_request_success
step answers (response index message) tx = on_transaction_request_success answers index message tx
step answers (failed e) tx = on_transaction_error (outside e) tx
step answers (cancelled e) tx = on_transaction_error (outside e) tx

unfoldable pub run : (ℕ → Answers) → List Event → Transaction → Transaction × List Effect
unfolding step
run answers [] tx = (tx, [])
run answers (e ∷ es) tx =
    let (tx', effects) = step answers e tx in
    let (last, more) = run answers es tx' in (last, effects ++ more)
