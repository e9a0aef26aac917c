-- ===== src/Stomp/Connection.antt =====
-- stompserver/stomp_connection.go: the state of one connection and the operations on it. The calls
-- that it makes of the socket and of the server's event channel are a list of effects; whether a
-- write fails is an argument. A subscription is known by its id.
pub mod Handlers
pub mod Loop
pub mod Phases
pub mod Trace
pub mod Beat
use Prim.Native.Char.{code}
use Prim.Native.String
use ranch.Prelude.{
  Bool, List, Option, String, [], any, false, find, if◌then◌else◌, ltb, nat_eq, none, some,
  string_eq, true, ℕ, ◌%◌, ◌&&◌, ◌*◌, ◌++◌, ◌+◌, ◌==◌, ◌^◌, ◌||◌, ◌∷◌,
}
use ranch.Prelude.Dict.{Dict, delete, get, put}
use ranch.Stomp.Frame.{Frame, HeaderApi, decimal, is_message}

pub record Subscription : Type 0 where
  pub id : String
  pub destination : String

pub data ConnState : Type 0 where
  connecting connected closed : ConnState

-- StompSessionEventType
pub data EventType : Type 0 where
  connection_starting connection_established connection_closed subscribe_to_topic
        unsubscribe_from_topic incoming_message :
      EventType

pub record ConnEvent (H : Type 0) : Type 0 where
  pub conn_id : String
  pub event_type : EventType
  pub destination : String
  pub sub : Option Subscription
  pub frame : Option (Frame H)

-- The calls of a connection: WriteFrame (a heart-beat is a write of no frame), an event for the
-- server, and the end of the raw connection.
pub data Effect (H : Type 0) : Type 0 where
  write : Option (Frame H) → Effect H
  offer : ConnEvent H → Effect H
  close_raw : Effect H

pub data StompError : Type 0 where
  not_connected unexpected_command unsupported_command unsupported_version invalid_subscription
        invalid_frame invalid_header invalid_send_destination :
      StompError
  write_failed bad_heart_beat : ℕ → StompError

pub record StompConn : Type 0 where
  pub id : String
  pub ip_address : String
  pub state : ConnState
  pub version : String
  pub read_timeout_ms : ℕ
  pub write_timeout : ℕ  -- nanoseconds
  pub subscriptions : Dict String Subscription
  pub current_message_id : ℕ  -- uint64
  pub close_once : Bool

-- What a handler of a frame gives: the connection, the calls that it made, and its error.
abbrev pub Handled : Type 0 → Type 0
Handled H = StompConn × List (Effect H) × Option StompError

abbrev pub FrameHandler : Type 0 → Type 0
FrameHandler H = StompConn → Frame H → Handled H

abbrev pub Middleware : Type 0 → Type 0
Middleware H = FrameHandler H → FrameHandler H

unfoldable pub new_stomp_conn : String → String → StompConn
new_stomp_conn id address = record {
  id = id;
  ip_address = address;
  state = connecting;
  version = "";
  read_timeout_ms = 0;
  write_timeout = 0;
  subscriptions = [];
  current_message_id = 0;
  close_once = false;
}

-- The loop of ChainMiddleware from the last to the first.
unfoldable pub chain_middleware :
    {H : Type 0} → List (Middleware H) → FrameHandler H → FrameHandler H
chain_middleware [] final = final
chain_middleware (mw ∷ mws) final = mw (chain_middleware mws final)

abbrev pub or_empty : {A : Type 0} → Option (List A) → List A
or_empty none = []
or_empty (some xs) = xs

unfoldable pub chain_command_middleware :
    {H : Type 0} → List (String × List (Middleware H)) → String → FrameHandler H → FrameHandler H
unfolding chain_middleware
chain_command_middleware reg command core =
    chain_middleware (or_empty (get "*" reg) ++ or_empty (get command reg)) core

unfoldable pub has_role : List String → String → Bool
has_role roles role = any (λ r. r == role) roles

unfoldable pub add_subscription : String → String → StompConn → StompConn × Subscription × Bool
add_subscription id destination conn =
    let sub : Subscription = record { id = id; destination = destination } in
    elim (get id conn.subscriptions) [
      | some old ↦ (conn, old, false)
      | none ↦ (record conn { subscriptions = put id sub conn.subscriptions }, sub, true)
    ]

unfoldable pub remove_subscription : String → StompConn → StompConn × Option Subscription
remove_subscription id conn = elim (get id conn.subscriptions) [
  | none ↦ (conn, none)
  | some sub ↦ (record conn { subscriptions = delete id conn.subscriptions }, some sub)
]

abbrev pub event : {H : Type 0} → EventType → StompConn → ConnEvent H
event type conn = record {
  conn_id = conn.id;
  event_type = type;
  destination = "";
  sub = none;
  frame = none;
}

-- Close, once.
unfoldable pub close : {H : Type 0} → StompConn → StompConn × List (Effect H)
close conn = if conn.close_once then (conn, []) else (
  record conn { state = closed; close_once = true },
  close_raw ∷ offer (event connection_closed conn) ∷ [],
)

-- SendFrameToSubscription puts the frame, with the subscription's header, on outFrames.
unfoldable pub frame_for : {H : Type 0} → HeaderApi H → Frame H → Subscription → Frame H
frame_for api f sub = record f { header = api.add f.header "subscription" sub.id }

-- populateMessageIdHeader
unfoldable pub populate_message_id_header :
    {H : Type 0} → HeaderApi H → Frame H → StompConn → StompConn × Frame H
populate_message_id_header api f conn =
    let next = (conn.current_message_id + 1) % 2 ^ 64 in
    if is_message f.command
    then (
      record conn { current_message_id = next },
      record f { header = api.del (api.set_value f.header "message-id" (decimal next)) "ack" },
    )
    else (conn, f)

abbrev pub is_some : {A : Type 0} → Option A → Bool
is_some none = false
is_some (some v) = true

unfoldable pub contains_header : {H : Type 0} → HeaderApi H → Frame H → List String → Bool
contains_header api f headers = any (λ h. is_some (api.contains f.header h)) headers

-- strings.Split(s, ",")
abbrev pub push_front : String → List String → List String
push_front c [] = c ∷ []
push_front c (s ∷ ss) = String.◌++◌ c s ∷ ss

unfoldable pub split_comma : String → List String
split_comma String.[] = "" ∷ []
split_comma (String.◌∷◌ c s) =
    let rest = split_comma s in
    if code c == b',' then "" ∷ rest else push_front (String.◌∷◌ c String.[]) rest

-- The highest supported version among those that the client accepts; 1.0 without the header.
unfoldable pub determine_version : {H : Type 0} → HeaderApi H → Frame H → Option String
unfolding split_comma
determine_version api f = elim (api.contains f.header "accept-version") [
  | none ↦ some "1.0"
  | some accepted ↦
      find (λ v. any (λ w. w == v) (split_comma accepted)) ("1.2" ∷ "1.1" ∷ "1.0" ∷ [])
]

-- frame.ParseHeartBeat is go-stomp's: two durations in nanoseconds, or an error.
pub data HeartBeat : Type 0 where
  beats : ℕ → ℕ → HeartBeat
  bad : ℕ → HeartBeat

unfoldable pub get_heart_beat :
    {H : Type 0} → HeaderApi H → (String → HeartBeat) → Frame H → HeartBeat
get_heart_beat api parse f = elim (api.contains f.header "heart-beat") [
  | none ↦ beats 0 0
  | some text ↦ parse text
]

abbrev pub millisecond : ℕ
millisecond = 1000000

abbrev pub max_heart_beat_duration : ℕ
max_heart_beat_duration = 999999999 * 1000000

-- min: an int64 product, in two's complement; a negative one is not above the maximum
unfoldable pub min_duration : ℕ → ℕ
min_duration heartbeat =
    let product = heartbeat * millisecond % 2 ^ 64 in
    if ltb product (2 ^ 63) && ltb max_heart_beat_duration product
    then max_heart_beat_duration
    else product

-- apply a minimum heartbeat
unfoldable pub at_least : ℕ → ℕ → ℕ
at_least min d = if ltb 0 d && (min == 0 || (ltb min (2 ^ 63) && ltb d min)) then min else d
