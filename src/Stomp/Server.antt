-- ===== src/Stomp/Server.antt =====
-- stompserver/server.go: the maps of the server and the handlers of connection and API events, which
-- one goroutine runs in turn. Connections are known by their ids, callbacks by numbers; what the
-- server asks of them is a list of acts. A frame that is sent is a clone, so it is a value here.
pub mod Subscriptions
pub mod Delivery
use ranch.Prelude.{
  Bool, List, Option, String, [], false, if◌then◌else◌, map, nat_eq, none, some, string_eq, true, ℕ,
  ◌++◌, ◌==◌, ◌||◌, ◌∷◌,
}
use ranch.Prelude.Dict.{Dict, delete, get, map_values, put}
use ranch.Stomp.Frame.{Frame, HeaderApi, decimal, message, new_frame}
use ranch.Stomp.Config.{StompConfig, is_app_request_destination}
use ranch.Stomp.Connection.{
  ConnEvent, EventType, Subscription, connection_closed, connection_established,
  connection_starting, incoming_message, subscribe_to_topic, unsubscribe_from_topic,
}

pub data ApiEventType : Type 0 where
  close_server send_message send_private_message close_connection_by_ip : ApiEventType

pub record ApiEvent (H : Type 0) : Type 0 where
  pub event_type : ApiEventType
  pub conn_id : String
  pub target_ip : String
  pub frame : Frame H
  pub destination : String
  pub error_message : String

-- connSubscriptions: the subscriptions of one connection to one destination, by id
abbrev pub ConnSubscriptions : Type 0
ConnSubscriptions = Dict String Subscription

-- What the server calls: the callbacks that the application registered, and the connections.
pub data Act (H : Type 0) : Type 0 where
  connection_callback : ℕ → ConnEvent H → Act H
  subscribe_callback : ℕ → String → String → String → Option (Frame H) → Act H
  unsubscribe_callback : ℕ → String → String → String → Act H
  application_callback : ℕ → String → Option (Frame H) → String → Act H
  send_to_subscription : String → Frame H → Subscription → Act H
  send_error : String → String → Act H
  close_connection : String → Act H
  close_listener : Act H

pub record Server (H M : Type 0) : Type 0 where
  pub connection_event_callbacks : EventType → Option ℕ
  pub running : Bool
  pub done : Bool
  pub connections_map : Dict String String  -- the address of each connection
  pub subscriptions_map : Dict String (Dict String ConnSubscriptions)
  pub config : StompConfig M
  pub subscribe_callbacks : List ℕ
  pub unsubscribe_callbacks : List ℕ
  pub application_request_callbacks : List ℕ

unfoldable pub new_stomp_server : {H M : Type 0} → StompConfig M → Server H M
new_stomp_server config = record {
  connection_event_callbacks = λ type. none;
  running = false;
  done = false;
  connections_map = [];
  subscriptions_map = [];
  config = config;
  subscribe_callbacks = [];
  unsubscribe_callbacks = [];
  application_request_callbacks = [];
}

unfoldable pub register_callback : ℕ → List ℕ → List ℕ
register_callback callback callbacks = callbacks ++ callback ∷ []

-- The inner map of a missing key is made: `m = make(...)`.
abbrev pub or_empty {ℓ} : {A : Type ℓ} → Option (List A) → List A
or_empty none = []
or_empty (some m) = m

unfoldable pub with_subscription :
    String
    → String
    → Subscription
    → Dict String (Dict String ConnSubscriptions)
    → Dict String (Dict String ConnSubscriptions)
with_subscription destination conn_id sub all =
    let conns = or_empty (get destination all) in
    let subs = or_empty (get conn_id conns) in
    put destination (put conn_id (put sub.id sub subs) conns) all

-- none when the subscription is not there
unfoldable pub without_subscription :
    String
    → String
    → String
    → Dict String (Dict String ConnSubscriptions)
    → Option (Dict String (Dict String ConnSubscriptions))
without_subscription destination conn_id id all = elim (get destination all) [
  | none ↦ none
  | some conns ↦ elim (get conn_id conns) [
    | none ↦ none
    | some subs ↦ elim (get id subs) [
      | none ↦ none
      | some sub ↦ some (put destination (put conn_id (delete id subs) conns) all)
    ]
  ]
]

unfoldable pub extract_ip_from_address : (String → Option String) → String → String
extract_ip_from_address split_host_port address = elim (split_host_port address) [
  | none ↦ address
  | some host ↦ host
]

module _ {H : Type 0} where
  unfoldable pub unsubscribed : List ℕ → String → String → String → List (Act H)
  unsubscribed callbacks conn_id id destination =
      map (λ callback. unsubscribe_callback callback conn_id id destination) callbacks

  -- the callbacks for all subscriptions of a connection to one destination
  unfoldable pub dropped_subs : List ℕ → String → ConnSubscriptions → List (Act H)
  dropped_subs callbacks conn_id [] = []
  dropped_subs callbacks conn_id ((key, sub) ∷ rest) =
      unsubscribed callbacks conn_id sub.id sub.destination ++ dropped_subs callbacks conn_id rest

  unfoldable pub dropped :
      List ℕ → String → Dict String (Dict String ConnSubscriptions) → List (Act H)
  dropped callbacks conn_id [] = []
  dropped callbacks conn_id ((destination, conns) ∷ rest) =
      dropped_subs callbacks conn_id (or_empty (get conn_id conns))
      ++ dropped callbacks conn_id rest

  unfoldable pub to_subscriptions : String → Frame H → ConnSubscriptions → List (Act H)
  to_subscriptions conn_id f [] = []
  to_subscriptions conn_id f ((key, sub) ∷ rest) =
      send_to_subscription conn_id f sub ∷ to_subscriptions conn_id f rest

  unfoldable pub to_connections : Frame H → Dict String ConnSubscriptions → List (Act H)
  to_connections f [] = []
  to_connections f ((conn_id, subs) ∷ rest) =
      to_subscriptions conn_id f subs ++ to_connections f rest

  unfoldable pub close_connections_by_ip :
      (String → Option String) → String → String → Dict String String → List (Act H)
  close_connections_by_ip split_host_port ip text [] = []
  close_connections_by_ip split_host_port ip text ((conn_id, address) ∷ rest) =
      (if extract_ip_from_address split_host_port address == ip
        then send_error conn_id text ∷ close_connection conn_id ∷ []
        else [])
      ++ close_connections_by_ip split_host_port ip text rest

  -- The events that SendMessage, SendMessageToClient and CloseConnectionsByIP send, where `len` is
  -- the length of a body.
  unfoldable pub message_frame : HeaderApi H → (ℕ → ℕ) → String → ℕ → Frame H
  message_frame api len destination message_body =
      let f = new_frame api message (
        ("destination", destination)
        ∷ ("content-length", decimal (len message_body))
        ∷ ("content-type", "application/json;charset=UTF-8")
        ∷ []) in
      record f { body = message_body }

  unfoldable pub send_message_event : HeaderApi H → (ℕ → ℕ) → String → ℕ → ApiEvent H
  send_message_event api len destination message_body = record {
    event_type = send_message;
    conn_id = "";
    target_ip = "";
    frame = message_frame api len destination message_body;
    destination = destination;
    error_message = "";
  }

  unfoldable pub send_message_to_client_event :
      HeaderApi H → (ℕ → ℕ) → String → String → ℕ → ApiEvent H
  send_message_to_client_event api len connection_id destination message_body =
      record (send_message_event api len destination message_body) {
        event_type = send_private_message;
        conn_id = connection_id;
      }

module _ {H M : Type 0} where
  unfoldable pub snapshot_connection_event_callback : Server H M → ConnEvent H → List (Act H)
  snapshot_connection_event_callback s e = elim (s.connection_event_callbacks e.event_type) [
    | none ↦ []
    | some callback ↦ connection_callback callback e ∷ []
  ]

  unfoldable pub connection_starting_case :
      (String → String) → Server H M → ConnEvent H → Server H M × List (Act H)
  connection_starting_case get_ip_address s e = (
    record s { connections_map = put e.conn_id (get_ip_address e.conn_id) s.connections_map },
    snapshot_connection_event_callback s e,
  )

  unfoldable pub connection_closed_case : Server H M → ConnEvent H → Server H M × List (Act H)
  connection_closed_case s e = (
    record s {
      connections_map = delete e.conn_id s.connections_map;
      subscriptions_map = map_values (delete e.conn_id) s.subscriptions_map;
    },
    dropped s.unsubscribe_callbacks e.conn_id s.subscriptions_map
        ++ snapshot_connection_event_callback s e,
  )

  unfoldable pub subscribe_to_topic_case :
      Server H M → ConnEvent H → Subscription → Server H M × List (Act H)
  subscribe_to_topic_case s e sub = (
    record s {
      subscriptions_map = with_subscription e.destination e.conn_id sub s.subscriptions_map;
    },
    map (λ callback. subscribe_callback callback e.conn_id sub.id e.destination e.frame)
          s.subscribe_callbacks
        ++ snapshot_connection_event_callback s e,
  )

  unfoldable pub unsubscribe_from_topic_case :
      Server H M → ConnEvent H → Subscription → Server H M × List (Act H)
  unsubscribe_from_topic_case s e sub =
      elim (without_subscription e.destination e.conn_id sub.id s.subscriptions_map) [
        | none ↦ (s, snapshot_connection_event_callback s e)
        | some all ↦ (
          record s { subscriptions_map = all },
          unsubscribed s.unsubscribe_callbacks e.conn_id sub.id e.destination
              ++ snapshot_connection_event_callback s e,
        )
      ]

  unfoldable pub incoming_message_case : Server H M → ConnEvent H → List (Act H)
  incoming_message_case s e =
      (if is_app_request_destination s.config e.destination
        then map (λ callback. application_callback callback e.destination e.frame e.conn_id)
            s.application_request_callbacks
        else [])
      ++ snapshot_connection_event_callback s e

  -- Events of the two kinds about subscriptions always carry one; without it the source would panic.
  unfoldable pub handle_connection_event :
      (String → String) → Server H M → ConnEvent H → Server H M × List (Act H)
  handle_connection_event get_ip_address s e = elim e.event_type [
    | connection_starting ↦ connection_starting_case get_ip_address s e
    | connection_closed ↦ connection_closed_case s e
    | subscribe_to_topic ↦ elim e.sub [
      | none ↦ (s, [])
      | some sub ↦ subscribe_to_topic_case s e sub
    ]
    | unsubscribe_from_topic ↦ elim e.sub [
      | none ↦ (s, [])
      | some sub ↦ unsubscribe_from_topic_case s e sub
    ]
    | incoming_message ↦ (s, incoming_message_case s e)
    | connection_established ↦ (s, [])
  ]

  unfoldable pub send_frame : String → Frame H → Server H M → List (Act H)
  send_frame destination f s = to_connections f (or_empty (get destination s.subscriptions_map))

  unfoldable pub send_frame_to_client : String → String → Frame H → Server H M → List (Act H)
  send_frame_to_client conn_id destination f s =
      to_subscriptions conn_id f
        (or_empty (get conn_id (or_empty (get destination s.subscriptions_map))))

  -- One API event. true: the loop of run() returns.
  unfoldable pub handle_api_event :
      (String → Option String) → Server H M → ApiEvent H → Server H M × List (Act H) × Bool
  handle_api_event split_host_port s e = elim e.event_type [
    | close_server ↦ (
      record s { connections_map = []; done = true },
      close_listener ∷ map (λ entry. close_connection entry.0) s.connections_map,
      true,
    )
    | send_message ↦ (s, send_frame e.destination e.frame s, false)
    | send_private_message ↦ (s, send_frame_to_client e.conn_id e.destination e.frame s, false)
    | close_connection_by_ip ↦ (
      s,
      close_connections_by_ip split_host_port e.target_ip e.error_message s.connections_map,
      false,
    )
  ]

  -- What Start makes of the flag, with whether it goes on to run(); and Stop, with whether it
  -- sends the close event.
  unfoldable pub start : Server H M → Server H M × Bool
  start s = if s.done || s.running then (s, false) else (record s { running = true }, true)

  unfoldable pub stop : Server H M → Server H M × Bool
  stop s = if s.running then (record s { running = false }, true) else (s, false)
