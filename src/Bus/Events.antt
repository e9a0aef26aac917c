-- ===== src/Bus/Events.antt =====
-- bus/eventbus.go: sending messages on channels of the bus, and the handlers that it gives for them.
-- Ids, payloads and errors are numbers; whether a context is done, and the id that uuid.New makes, are
-- arguments.
pub mod Hearing
pub mod Monitor
use ranch.Prelude.{
  Bool, Option, String, false, if◌then◌else◌, nat_eq, none, some, string_eq, true, ℕ, ◌&&◌,
}
use ranch.Prelude.Dict.{get}
use ranch.Bus.Manager.{Channels}
use ranch.Bus.Delivery.{
  Direction, Message, MessageHandler, error_dir, request_dir, response_dir, wrap_message_handler,
}

pub record SendMessageOptions : Type 0 where
  pub direction : Direction
  pub channel_name : String
  pub payload : ℕ
  pub err : ℕ
  pub destination_id : Option ℕ

pub record MessageHandlerOptions : Type 0 where
  pub direction : Direction
  pub destination_id : Option ℕ
  pub ignore_id : Bool
  pub all_traffic : Bool
  pub run_once : Bool
  pub require_destination : Bool
  pub generate_destination : Bool
  pub request_payload : Option ℕ  -- none where withRequest is false

pub data BusError : Type 0 where
  context_done destination_nil nothing_to_fire : BusError
  channel_missing : String → BusError

abbrev pub send_response_message : String → ℕ → Option ℕ → SendMessageOptions
send_response_message channel payload dest = record {
  direction = response_dir;
  channel_name = channel;
  payload = payload;
  err = 0;
  destination_id = dest;
}

abbrev pub send_broadcast_message : String → ℕ → SendMessageOptions
send_broadcast_message channel payload = record {
  direction = response_dir;
  channel_name = channel;
  payload = payload;
  err = 0;
  destination_id = none;
}

abbrev pub send_request_message : String → ℕ → Option ℕ → SendMessageOptions
send_request_message channel payload dest = record {
  direction = request_dir;
  channel_name = channel;
  payload = payload;
  err = 0;
  destination_id = dest;
}

abbrev pub send_error_message : String → ℕ → Option ℕ → SendMessageOptions
send_error_message channel err dest = record {
  direction = error_dir;
  channel_name = channel;
  payload = 0;
  err = err;
  destination_id = dest;
}

-- The message that GenerateRequest, GenerateResponse or GenerateError makes.
unfoldable pub message_of : SendMessageOptions → Message
message_of opts = record {
  direction = opts.direction;
  destination_id = opts.destination_id;
  payload = opts.payload;
  error = opts.err;
}

-- The message that SendContext of the channel is called with, or the error.
unfoldable pub send_message_context :
    Bool → SendMessageOptions → Channels → Option Message × Option BusError
send_message_context is_done opts channels =
    if is_done then (none, some context_done) else elim (get opts.channel_name channels) [
      | none ↦ (none, some (channel_missing opts.channel_name))
      | some c ↦ (some (message_of opts), none)
    ]

-- The handlers that a client can ask for.
abbrev listening : Direction → Bool → MessageHandlerOptions
listening direction ignore_id = record {
  direction = direction;
  destination_id = none;
  ignore_id = ignore_id;
  all_traffic = false;
  run_once = false;
  require_destination = false;
  generate_destination = false;
  request_payload = none;
}

abbrev pub listen_stream : MessageHandlerOptions
listen_stream = listening response_dir true

abbrev pub listen_stream_for_destination : Option ℕ → MessageHandlerOptions
listen_stream_for_destination dest = record (listening response_dir false) {
  destination_id = dest;
  require_destination = true;
}

abbrev pub listen_request_stream : MessageHandlerOptions
listen_request_stream = listening request_dir true

abbrev pub listen_request_stream_for_destination : Option ℕ → MessageHandlerOptions
listen_request_stream_for_destination dest = record (listening request_dir false) {
  destination_id = dest;
  require_destination = true;
}

abbrev pub listen_request_once : MessageHandlerOptions
listen_request_once = record (listening request_dir true) {
  run_once = true;
  generate_destination = true;
}

abbrev pub listen_request_once_for_destination : Option ℕ → MessageHandlerOptions
listen_request_once_for_destination dest = record (listening request_dir false) {
  destination_id = dest;
  run_once = true;
  require_destination = true;
}

abbrev pub listen_firehose : MessageHandlerOptions
listen_firehose = record (listening request_dir true) { all_traffic = true }

abbrev pub listen_once : MessageHandlerOptions
listen_once = record (listening response_dir true) { run_once = true; generate_destination = true }

abbrev pub listen_once_for_destination : Option ℕ → MessageHandlerOptions
listen_once_for_destination dest = record (listening response_dir false) {
  destination_id = dest;
  run_once = true;
  require_destination = true;
}

abbrev pub request_once : ℕ → MessageHandlerOptions
request_once payload = record listen_once { request_payload = some payload }

abbrev pub request_once_for_destination : ℕ → Option ℕ → MessageHandlerOptions
request_once_for_destination payload dest = record (listen_once_for_destination dest) {
  request_payload = some payload;
}

abbrev pub request_stream : ℕ → MessageHandlerOptions
request_stream payload = record (listening response_dir true) {
  generate_destination = true;
  request_payload = some payload;
}

abbrev pub request_stream_for_destination : ℕ → Option ℕ → MessageHandlerOptions
request_stream_for_destination payload dest = record (listen_stream_for_destination dest) {
  request_payload = some payload;
}

abbrev pub get_or_new_id : ℕ → Option ℕ → Option ℕ
get_or_new_id fresh none = some fresh
get_or_new_id fresh (some id) = some id

abbrev pub is_nil : Option ℕ → Bool
is_nil none = true
is_nil (some id) = false

abbrev request_message : Option ℕ → Option ℕ → Option Message
request_message none dest = none
request_message (some payload) dest =
    some (record { direction = request_dir; destination_id = dest; payload = payload; error = 0 })

-- The handler, and the request that it fires.
abbrev pub NewHandler : Type 0
NewHandler = MessageHandler × Option Message

abbrev pub build_handler : ℕ → MessageHandlerOptions → NewHandler
build_handler fresh opts =
    let dest =
      if opts.generate_destination
      then get_or_new_id fresh opts.destination_id
      else opts.destination_id in
    (
      wrap_message_handler opts.direction opts.ignore_id opts.all_traffic dest opts.run_once,
      request_message opts.request_payload dest,
    )

unfoldable pub new_message_handler :
    ℕ → String → MessageHandlerOptions → Channels → Option NewHandler × Option BusError
new_message_handler fresh channel opts channels = elim (get channel channels) [
  | none ↦ (none, some (channel_missing channel))
  | some c ↦
      if opts.require_destination && is_nil opts.destination_id
      then (none, some destination_nil)
      else (some (build_handler fresh opts), none)
]

-- FireContext, with the message that it dispatches on the handler's channel
unfoldable pub fire_context : Bool → Option Message → Option Message × Option BusError
fire_context is_done none = (none, some nothing_to_fire)
fire_context is_done (some request) =
    if is_done then (none, some context_done) else (some request, none)
