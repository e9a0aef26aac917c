-- ===== src/Stomp/Tests.antt =====
-- Runs of a connection and of the server at fixed inputs, with headers as lists of pairs.
use Prim.Native.Nat.{max}
use ranch.Prelude.{
  All, List, String, [], arith, eqb_refl, false, if◌then◌else◌, nat_eq, none, refl, some, string_eq,
  true, ℕ, ◌*◌, ◌++◌, ◌+◌, ◌<◌, ◌==◌, ◌^◌, ◌∷◌, ◌≡◌,
}
use ranch.Prelude.Dict.{Dict, delete, get, get-delete, get-put, put}
use ranch.Stomp.Frame.{Command, Frame, HeaderApi, connect, disconnect, message, send, subscribe}
use ranch.Stomp.Config.{StompConfig}
use ranch.Stomp.Connection.{
  ConnEvent, HeartBeat, Middleware, StompConn, Subscription, at_least, beats, millisecond,
  min_duration, new_stomp_conn, unsubscribe_from_topic,
}
use ranch.Stomp.Connection.Loop.{Turn, closed_first, in_frame, run, taken, timer}
use ranch.Stomp.Connection.Phases.{IsProper, before, phase_of, scan, subscribe_chain}
use ranch.Stomp.Connection.Trace.{run_protocol}
use ranch.Stomp.Connection.Beat.{at_least-min_duration}
use ranch.Stomp.Server.{Server, handle_connection_event, send_frame, send_frame_to_client}
use ranch.Stomp.Server.Subscriptions.{entry_after, handle_connection_event_lem, subscription_of}
use ranch.Stomp.Server.Delivery.{
  IsValid, handle_connection_event-IsValid, once_to, send_frame_lem, sends,
}

add_last : Dict String String → String → String → Dict String String
add_last h k v = h ++ (k, v) ∷ []

get-add_last :
    (h : Dict String String) (k v : String) → get k h ≡ none → get k (add_last h k v) ≡ some v
unfolding get add_last
get-add_last [] k v free = rw (eqb_refl k) refl
get-add_last ((j, w) ∷ h) k v free = ground (arith, get-add_last h k v)

abbrev headers : HeaderApi (Dict String String)
headers = record {
  of_list = λ entries. entries;
  contains = λ h k. get k h;
  add = add_last;
  set_value = λ h k v. put k v h;
  del = λ h k. delete k h;
  contains-set = λ h k j v. get-put k j v h;
  contains-del = λ h k j. get-delete k j h;
  contains-add_none = get-add_last;
}

abbrev config : StompConfig (Middleware (Dict String String))
config = record { heartbeat = 60000; app_dest_prefix = "/pub/" ∷ []; middleware_registry = [] }

abbrev frame_of : Command → Dict String String → Frame (Dict String String)
frame_of command header = record { command = command; header = header; body = 0 }

abbrev inputs : List (Turn (Dict String String))
inputs =
    taken (in_frame (frame_of connect (("accept-version", "1.2") ∷ [])) none)
    ∷ taken (in_frame (frame_of subscribe (("id", "1") ∷ ("destination", "/topic/a") ∷ [])) none)
    ∷ taken (in_frame (frame_of send (("destination", "/pub/a") ∷ [])) none)
    ∷ closed_first 3 (in_frame (frame_of disconnect []) none)
    ∷ taken (timer none)
    ∷ []

-- Heart-beats are read as 0 and 0.
abbrev no_beat : String → HeartBeat
no_beat s = beats 0 0

no_middleware : All IsProper (subscribe_chain headers config.middleware_registry)
unfolding get
no_middleware = tt

run_protocol_example :
    scan before (run headers config no_beat inputs (new_stomp_conn "c" "10.0.0.1:80")).1
    ≡ some (phase_of (run headers config no_beat inputs (new_stomp_conn "c" "10.0.0.1:80")).0.state)
run_protocol_example = run_protocol headers config no_beat no_middleware inputs "c" "10.0.0.1:80"

abbrev conn : StompConn
conn = new_stomp_conn "c" "10.0.0.1:80"

abbrev minute : ℕ
minute = 60000

at_least-min_duration_example :
    (0 < minute
      → 0 < 5000000
      → at_least (min_duration minute) 5000000 ≡ max 5000000 (minute * millisecond))
    × (at_least (min_duration minute) 0 ≡ 0)
    × (minute ≡ 0 → at_least (min_duration minute) 5000000 ≡ 0)
at_least-min_duration_example = at_least-min_duration minute 5000000 (omega arith)

abbrev news : Frame (Dict String String)
news = frame_of message (("destination", "/topic/a") ∷ [])

room : conn.current_message_id + 1 < 2 ^ 64
unfolding new_stomp_conn
room = omega arith

abbrev sub : Subscription
sub = record { id = "1"; destination = "/topic/a" }

-- One connection with one subscription, and a callback of each kind.
abbrev server : Server (Dict String String) (Middleware (Dict String String))
server = record {
  connection_event_callbacks = λ type. some 1;
  running = true;
  done = false;
  connections_map = ("c", "10.0.0.1:80") ∷ [];
  subscriptions_map = ("/topic/a", ("c", ("1", sub) ∷ []) ∷ []) ∷ [];
  config = config;
  subscribe_callbacks = 2 ∷ [];
  unsubscribe_callbacks = 3 ∷ [];
  application_request_callbacks = 4 ∷ [];
}

server-IsValid : ranch.Stomp.Server.Delivery.IsValid server.subscriptions_map
unfolding get
server-IsValid = ((refl, tt), (((refl, tt), (((refl, tt), (refl, tt)), tt)), tt))

abbrev unsubscribing : ConnEvent (Dict String String)
unsubscribing = record {
  conn_id = "c";
  event_type = unsubscribe_from_topic;
  destination = "/topic/a";
  sub = some sub;
  frame = none;
}

abbrev ip : String → String
ip conn_id = "10.0.0.1:80"

handle_connection_event_lem_example :
    subscription_of
      (handle_connection_event ip server unsubscribing).0.subscriptions_map
      "/topic/a"
      "c"
      "1"
    ≡ entry_after unsubscribing "/topic/a" "c" "1"
        (subscription_of server.subscriptions_map "/topic/a" "c" "1")
handle_connection_event_lem_example =
    handle_connection_event_lem ip server unsubscribing "/topic/a" "c" "1"

handle_connection_event-IsValid_example :
    ranch.Stomp.Server.Delivery.IsValid
      (handle_connection_event ip server unsubscribing).0.subscriptions_map
handle_connection_event-IsValid_example =
    handle_connection_event-IsValid ip server unsubscribing server-IsValid

abbrev another : String
another = "d"

send_frame_lem_example :
    (sends "c" "1" (send_frame "/topic/a" news server)
      ≡ once_to news (subscription_of server.subscriptions_map "/topic/a" "c" "1"))
    × (sends "c" "1" (send_frame_to_client another "/topic/a" news server) ≡ (
        if another == "c"
        then once_to news (subscription_of server.subscriptions_map "/topic/a" another "1")
        else []))
send_frame_lem_example = send_frame_lem "/topic/a" another "c" "1" news server server-IsValid
