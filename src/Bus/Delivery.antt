-- ===== src/Bus/Delivery.antt =====
-- bus/eventbus.go, wrapMessageHandler, and bus/message_handler.go: the handler that the event bus
-- gives for a channel, and what it does with each message. Ids, payloads, errors and the functions
-- of the client are numbers; whether a context is done is an argument. What the handler calls is a
-- list of acts.
pub mod Once
use ranch.Prelude.{
  Bool, List, Option, [], false, if◌then◌else◌, nat_eq, none, some, string_eq, true, ℕ, ◌&&◌, ◌++◌,
  ◌==◌, ◌||◌, ◌∷◌,
}

pub data Direction : Type 0 where
  request_dir response_dir error_dir : Direction

pub record Message : Type 0 where
  pub direction : Direction
  pub destination_id : Option ℕ
  pub payload : ℕ
  pub error : ℕ

pub data Act : Type 0 where
  succeeded : ℕ → Message → Act
  errored : ℕ → ℕ → Act
  unsubscribed : ℕ → Act

pub record MessageHandler : Type 0 where
  pub direction : Direction
  pub destination : Option ℕ
  pub ignore_id : Bool
  pub all_traffic : Bool
  pub run_once : Bool
  pub invoke_once : Bool  -- whether it has run
  pub setup_once : Bool
  pub success_handler : Option ℕ
  pub error_handler : Option ℕ
  pub subscription_id : Option ℕ
  pub closed : Bool

-- createMessageHandler and the settings of wrapMessageHandler
unfoldable pub wrap_message_handler : Direction → Bool → Bool → Option ℕ → Bool → MessageHandler
wrap_message_handler direction ignore_id all_traffic destination run_once = record {
  direction = direction;
  destination = destination;
  ignore_id = ignore_id;
  all_traffic = all_traffic;
  run_once = run_once;
  invoke_once = false;
  setup_once = false;
  success_handler = none;
  error_handler = none;
  subscription_id = none;
  closed = false;
}

abbrev unsubscribe_id : Option ℕ → List Act
unsubscribe_id none = []
unsubscribe_id (some id) = unsubscribed id ∷ []

unfoldable pub close : MessageHandler → MessageHandler × List Act
close h = (record h { closed = true }, unsubscribe_id h.subscription_id)

-- `subscribed` is what SubscribeChannelHandlerContext returns. The lock is taken after it, so a Close
-- that comes first has set `closed` by then.
unfoldable pub handle_context :
    Option ℕ → Option ℕ → Option ℕ → MessageHandler → MessageHandler × List Act
handle_context subscribed success_handler error_handler h = if h.setup_once then (h, []) else (
  record h {
    setup_once = true;
    success_handler = success_handler;
    error_handler = error_handler;
    subscription_id = subscribed;
  },
  if h.closed then unsubscribe_id subscribed else [],
)

-- The call of a client's function, where there is one
abbrev call : Option ℕ → (ℕ → Act) → List Act
call none act = []
call (some f) act = act f ∷ []

-- successHandler and errorHandler of wrapMessageHandler: `ended` is whether the handler's own context
-- is done, `acts` the call of the client's function.
unfoldable pub invoke : Bool → List Act → MessageHandler → MessageHandler × List Act
invoke ended acts h =
    let shut = close h in
    if ended
    then (if h.run_once then shut else (h, []))
    else (if h.run_once
        then (if h.invoke_once
            then (h, [])
            else (record h { invoke_once = true; closed = true }, acts ++ shut.1))
        else (h, acts))

abbrev error_path : Bool → Message → MessageHandler → MessageHandler × List Act
error_path ended msg h = invoke ended (call h.error_handler (λ f. errored f msg.error)) h

abbrev success_path : Bool → Message → MessageHandler → MessageHandler × List Act
success_path ended msg h = invoke ended (call h.success_handler (λ f. succeeded f msg)) h

abbrev pub same_destination : Option ℕ → Option ℕ → Bool
same_destination none b = false
same_destination (some a) none = false
same_destination (some a) (some b) = a == b

abbrev pub same_direction : Direction → Direction → Bool
same_direction request_dir request_dir = true
same_direction response_dir response_dir = true
same_direction error_dir error_dir = true
same_direction _ _ = false

abbrev pub is_error_dir : Direction → Bool
is_error_dir error_dir = true
is_error_dir _ = false

-- The wrapper: `done` is whether the context of the dispatch is done.
unfoldable pub wrapper : Bool → Bool → Message → MessageHandler → MessageHandler × List Act
wrapper done ended msg h =
    let failing = error_path ended msg h in
    let passing = success_path ended msg h in
    if done
    then (h, [])
    else (if is_error_dir msg.direction
        then failing
        else (if h.all_traffic
            then passing
            else (if same_direction msg.direction h.direction
                  && (h.ignore_id || same_destination msg.destination_id h.destination)
                then passing
                else (h, []))))
