-- ===== src/Bus/Events/Hearing.antt =====
-- bus/eventbus.go: which messages reach which handlers.
use ranch.Prelude.{
  Bool, List, Option, String, [], ap, arith, false, if◌then◌else◌, inl, inr, nat_eq, none, refl,
  some, string_eq, true, ℕ, ◌&&◌, ◌++◌, ◌==◌, ◌||◌, ◌∙◌, ◌∷◌, ◌≡◌, ◌⊎◌,
}
use ranch.Prelude.Dict.{get}
use ranch.Bus.Channel.{Channel}
use ranch.Bus.Manager.{Channels}
use ranch.Bus.Delivery.{
  Act, Direction, Message, MessageHandler, close, errored, handle_context, invoke, is_error_dir,
  request_dir, response_dir, same_destination, same_direction, succeeded, unsubscribed,
  wrap_message_handler, wrapper,
}
use ranch.Bus.Events.{
  MessageHandlerOptions, NewHandler, SendMessageOptions, build_handler, is_nil, listen_firehose,
  listen_once, listen_once_for_destination, listen_request_once,
  listen_request_once_for_destination, listen_request_stream, listen_request_stream_for_destination,
  listen_stream, listen_stream_for_destination, message_of, new_message_handler, request_once,
  request_once_for_destination, request_stream, request_stream_for_destination,
  send_broadcast_message, send_error_message, send_message_context, send_request_message,
  send_response_message,
}

-- The ways to ask for a handler, by direction: all messages of the direction, those for a destination,
-- everything.
pub data Listening : Type 0 where
  stream request_stream_of request_once_of firehose once : Listening
  stream_for request_stream_for once_for request_once_for : ℕ → Listening
  requesting_once requesting_stream : ℕ → Listening
  requesting_once_for requesting_stream_for : ℕ → ℕ → Listening

abbrev pub options_of : Listening → MessageHandlerOptions
options_of stream = listen_stream
options_of request_stream_of = listen_request_stream
options_of request_once_of = listen_request_once
options_of firehose = listen_firehose
options_of once = listen_once
options_of (stream_for d) = listen_stream_for_destination (some d)
options_of (request_stream_for d) = listen_request_stream_for_destination (some d)
options_of (once_for d) = listen_once_for_destination (some d)
options_of (request_once_for d) = listen_request_once_for_destination (some d)
options_of (requesting_once payload) = request_once payload
options_of (requesting_stream payload) = request_stream payload
options_of (requesting_once_for payload d) = request_once_for_destination payload (some d)
options_of (requesting_stream_for payload d) = request_stream_for_destination payload (some d)

-- The ways to send, each to a destination or to none.
pub data Sending : Type 0 where
  response request failure : ℕ → Option ℕ → Sending
  broadcast : ℕ → Sending

abbrev pub sent_by : String → Sending → SendMessageOptions
sent_by channel (response payload dest) = send_response_message channel payload dest
sent_by channel (request payload dest) = send_request_message channel payload dest
sent_by channel (failure err dest) = send_error_message channel err dest
sent_by channel (broadcast payload) = send_broadcast_message channel payload

-- What a handler hears of what is sent that is not an error, by the interface's description.
abbrev pub is_meant_for : ℕ → Option ℕ → Bool
is_meant_for d none = false
is_meant_for d (some e) = e == d

abbrev pub hears_response : Listening → Option ℕ → Bool
hears_response stream dest = true
hears_response once dest = true
hears_response firehose dest = true
hears_response (requesting_once p) dest = true
hears_response (requesting_stream p) dest = true
hears_response (stream_for d) dest = is_meant_for d dest
hears_response (once_for d) dest = is_meant_for d dest
hears_response (requesting_once_for p d) dest = is_meant_for d dest
hears_response (requesting_stream_for p d) dest = is_meant_for d dest
hears_response request_stream_of dest = false
hears_response request_once_of dest = false
hears_response (request_stream_for d) dest = false
hears_response (request_once_for d) dest = false

abbrev pub hears_request : Listening → Option ℕ → Bool
hears_request firehose dest = true
hears_request request_stream_of dest = true
hears_request request_once_of dest = true
hears_request (request_stream_for d) dest = is_meant_for d dest
hears_request (request_once_for d) dest = is_meant_for d dest
hears_request l dest = false

-- The call that the client gets, with its function for messages and that for errors.
abbrev pub heard : Listening → ℕ → ℕ → String → Sending → List Act
heard l s e channel (response payload dest) =
    if hears_response l dest
    then succeeded s (message_of (send_response_message channel payload dest)) ∷ []
    else []
heard l s e channel (broadcast payload) =
    if hears_response l none
    then succeeded s (message_of (send_broadcast_message channel payload)) ∷ []
    else []
heard l s e channel (request payload dest) =
    if hears_request l dest
    then succeeded s (message_of (send_request_message channel payload dest)) ∷ []
    else []
heard l s e channel (failure err dest) = errored e err ∷ []

abbrev pub is_once : Listening → Bool
is_once l = (options_of l).run_once

-- A handler set up with two functions, subscribed under an id.
abbrev pub set_up : ℕ → ℕ → ℕ → NewHandler → MessageHandler
set_up id s e made = (handle_context (some id) (some s) (some e) made.0).0

-- A run-once handler that is called also leaves its channel.
abbrev pub then_left : Bool → ℕ → List Act → List Act
then_left runs_once id [] = []
then_left runs_once id (a ∷ acts) = if runs_once then a ∷ acts ++ unsubscribed id ∷ [] else a ∷ acts

-- The test of the wrapper, for a message that is no error.
abbrev takes : Direction → Option ℕ → MessageHandlerOptions → Bool
takes direction dest opts =
    opts.all_traffic
    || (same_direction direction opts.direction
        && (opts.ignore_id || same_destination dest opts.destination_id))

taken :
    (fresh id s e : ℕ) (opts : MessageHandlerOptions) (msg : Message)
    → is_error_dir msg.direction ≡ false
    → opts.generate_destination ≡ false ⊎ opts.ignore_id ≡ true
    → (wrapper false false msg (set_up id s e (build_handler fresh opts))).1
      ≡ then_left opts.run_once id
          (if takes msg.direction msg.destination_id opts then succeeded s msg ∷ [] else [])
unfolding wrapper invoke handle_context wrap_message_handler close
taken fresh id s e opts msg passing (inl kept) = ground (arith, passing, kept)
taken fresh id s e opts msg passing (inr ignoring) = ground (arith, passing, ignoring)

failed :
    (fresh id s e err : ℕ) (opts : MessageHandlerOptions) (channel : String) (dest : Option ℕ)
    → (wrapper false false
        (message_of (send_error_message channel err dest))
        (set_up id s e (build_handler fresh opts))).1
      ≡ then_left opts.run_once id (errored e err ∷ [])
unfolding wrapper invoke handle_context wrap_message_handler close message_of
failed fresh id s e err opts channel dest = ground arith

same_for : (d : ℕ) (dest : Option ℕ) → is_meant_for d dest ≡ same_destination dest (some d)
same_for d none = refl
same_for d (some e) = refl

takes_response :
    (l : Listening) (dest : Option ℕ)
    → hears_response l dest ≡ takes response_dir dest (options_of l)
takes_response stream dest = refl
takes_response request_stream_of dest = refl
takes_response request_once_of dest = refl
takes_response firehose dest = refl
takes_response once dest = refl
takes_response (stream_for d) dest = same_for d dest
takes_response (request_stream_for d) dest = refl
takes_response (once_for d) dest = same_for d dest
takes_response (request_once_for d) dest = refl
takes_response (requesting_once p) dest = refl
takes_response (requesting_stream p) dest = refl
takes_response (requesting_once_for p d) dest = same_for d dest
takes_response (requesting_stream_for p d) dest = same_for d dest

takes_request :
    (l : Listening) (dest : Option ℕ) → hears_request l dest ≡ takes request_dir dest (options_of l)
takes_request stream dest = refl
takes_request request_stream_of dest = refl
takes_request request_once_of dest = refl
takes_request firehose dest = refl
takes_request once dest = refl
takes_request (stream_for d) dest = refl
takes_request (request_stream_for d) dest = same_for d dest
takes_request (once_for d) dest = refl
takes_request (request_once_for d) dest = same_for d dest
takes_request (requesting_once p) dest = refl
takes_request (requesting_stream p) dest = refl
takes_request (requesting_once_for p d) dest = refl
takes_request (requesting_stream_for p d) dest = refl

made_for :
    (l : Listening) → (options_of l).generate_destination ≡ false ⊎ (options_of l).ignore_id ≡ true
made_for stream = inl refl
made_for request_stream_of = inl refl
made_for request_once_of = inr refl
made_for firehose = inl refl
made_for once = inr refl
made_for (stream_for d) = inl refl
made_for (request_stream_for d) = inl refl
made_for (once_for d) = inl refl
made_for (request_once_for d) = inl refl
made_for (requesting_once p) = inr refl
made_for (requesting_stream p) = inr refl
made_for (requesting_once_for p d) = inl refl
made_for (requesting_stream_for p d) = inl refl

delivered :
    (fresh id s e : ℕ) (l : Listening) (channel : String) (sending : Sending)
    → (wrapper false false
        (message_of (sent_by channel sending))
        (set_up id s e (build_handler fresh (options_of l)))).1
      ≡ then_left (is_once l) id (heard l s e channel sending)
unfolding message_of
delivered fresh id s e l channel (response payload dest) = rw (takes_response l dest) (
    taken fresh id s e (options_of l) (message_of (send_response_message channel payload dest)) refl
      (made_for l))
delivered fresh id s e l channel (broadcast payload) = rw (takes_response l none) (
    taken fresh id s e (options_of l) (message_of (send_broadcast_message channel payload)) refl
      (made_for l))
delivered fresh id s e l channel (request payload dest) = rw (takes_request l dest) (
    taken fresh id s e (options_of l) (message_of (send_request_message channel payload dest)) refl
      (made_for l))
delivered fresh id s e l channel (failure err dest) =
    failed fresh id s e err (options_of l) channel dest

given_destination :
    (l : Listening)
    → ((options_of l).require_destination && is_nil (options_of l).destination_id) ≡ false
given_destination stream = refl
given_destination request_stream_of = refl
given_destination request_once_of = refl
given_destination firehose = refl
given_destination once = refl
given_destination (stream_for d) = refl
given_destination (request_stream_for d) = refl
given_destination (once_for d) = refl
given_destination (request_once_for d) = refl
given_destination (requesting_once p) = refl
given_destination (requesting_stream p) = refl
given_destination (requesting_once_for p d) = refl
given_destination (requesting_stream_for p d) = refl

sent_on : (channel : String) (sending : Sending) → (sent_by channel sending).channel_name ≡ channel
sent_on channel (response payload dest) = refl
sent_on channel (broadcast payload) = refl
sent_on channel (request payload dest) = refl
sent_on channel (failure err dest) = refl

-- On a channel that is there, every way to listen gives a handler and every way to send gives a message, and under contexts that are not done a client that has just set its handler up is called for it exactly as the interface says: for an error always, for a response or a request if it listens to that direction, or to everything, and to all destinations or to the one of the message; a run-once handler that is called leaves the channel.
pub hearing_lem :
    (fresh id s e : ℕ) (l : Listening) (channel : String) (sending : Sending) (channels : Channels)
    (c : Channel)
    → get channel channels ≡ some c
    → (new_message_handler fresh channel (options_of l) channels
        ≡ (some (build_handler fresh (options_of l)), none))
      × (send_message_context false (sent_by channel sending) channels
          ≡ (some (message_of (sent_by channel sending)), none))
      × ((wrapper false false
            (message_of (sent_by channel sending))
            (set_up id s e (build_handler fresh (options_of l)))).1
          ≡ then_left (is_once l) id (heard l s e channel sending))
unfolding new_message_handler send_message_context
hearing_lem fresh id s e l channel sending channels c there =
    let sent_there : get (sent_by channel sending).channel_name channels ≡ some c =
      ap (λ name. get name channels) (sent_on channel sending) ∙ there in
    (
      rw (there, new_message_handler) (rw (given_destination l) refl),
      rw (sent_there, send_message_context) refl,
      delivered fresh id s e l channel sending,
    )
