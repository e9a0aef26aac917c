-- ===== src/Stomp/Connection/Handlers.antt =====
-- stompserver/stomp_connection.go: the handlers of the frames that a client sends. `write_err` is the
-- error of the one WriteFrame that a handler makes, if it makes one and that fails.
use Prim.Native.String
use ranch.Prelude.{
  Bool, List, Option, String, [], false, if◌then◌else◌, nat_eq, none, not, some, string_eq, true, ℕ,
  ◌++◌, ◌/◌, ◌==◌, ◌∷◌,
}
use ranch.Stomp.Frame.{
  Command, Frame, HeaderApi, connect, decimal, disconnect, message, new_frame, receipt, send, stomp,
  subscribe, unsubscribe,
}
use ranch.Stomp.Config.{StompConfig, is_app_request_destination}
use ranch.Stomp.Connection.{
  ConnState, Effect, FrameHandler, Handled, HeartBeat, Middleware, StompConn, StompError,
  Subscription, add_subscription, at_least, bad, bad_heart_beat, beats, chain_command_middleware,
  close, closed, connected, connecting, connection_established, contains_header, determine_version,
  event, get_heart_beat, incoming_message, invalid_frame, invalid_header, invalid_send_destination,
  invalid_subscription, millisecond, min_duration, not_connected, offer, remove_subscription,
  subscribe_to_topic, unexpected_command, unsubscribe_from_topic, unsupported_command,
  unsupported_version, write, write_failed,
}

abbrev pub is_connected : ConnState → Bool
is_connected connected = true
is_connected _ = false

module _ {H : Type 0} (api : HeaderApi H) where
  abbrev failed : StompConn → StompError → Handled H
  failed conn e = (conn, [], some e)

  -- sendReceiptResponse: the frame without its receipt header, the calls and the error.
  unfoldable pub send_receipt_response :
      Option ℕ → Frame H → Frame H × List (Effect H) × Option StompError
  send_receipt_response write_err f = elim (api.contains f.header "receipt") [
    | none ↦ (f, [], none)
    | some id ↦ (
      record f { header = api.del f.header "receipt" },
      write (some (new_frame api receipt (("receipt-id", id) ∷ []))) ∷ [],
      elim write_err [ none ↦ none | some e ↦ some (write_failed e) ],
    )
  ]

  -- The answer to CONNECT, once the version and the heart-beats are settled.
  unfoldable pub accept : ℕ → Option ℕ → StompConn → String → ℕ → ℕ → Handled H
  unfolding min_duration at_least new_frame
  accept heartbeat write_err conn version cx cy =
      let cx' = at_least (min_duration heartbeat) cx in
      let cy' = at_least (min_duration heartbeat) cy in
      let conn' = record conn {
        version = version;
        write_timeout = cy';
        read_timeout_ms = cx' / millisecond;
      } in
      let beat =
        String.◌++◌ (decimal (cy' / millisecond)) (String.◌++◌ "," (decimal (cx' / millisecond))) in
      let response =
        new_frame api Command.connected
          (("version", version) ∷ ("server", "pb33f-ranch/0.0.1") ∷ ("heart-beat", beat) ∷ []) in
      elim write_err [
        | some e ↦ (conn', write (some response) ∷ [], some (write_failed e))
        | none ↦ (
          record conn' { state = connected },
          write (some response) ∷ offer (event connection_established conn') ∷ [],
          none,
        )
      ]

  unfoldable pub handle_connect : (String → HeartBeat) → ℕ → Option ℕ → FrameHandler H
  unfolding accept determine_version get_heart_beat contains_header
  handle_connect parse heartbeat write_err conn f =
      if is_connected conn.state
      then failed conn unexpected_command
      else if contains_header api f ("receipt" ∷ [])
      then failed conn invalid_header
      else elim (determine_version api f) [
        | none ↦ failed (record conn { version = "" }) unsupported_version
        | some version ↦
            if version == "1.0"
            then failed (record conn { version = version }) unsupported_version
            else elim (get_heart_beat api parse f) [
              | bad e ↦ failed (record conn { version = version }) (bad_heart_beat e)
              | beats cx cy ↦ accept heartbeat write_err conn version cx cy
            ]
      ]

  unfoldable pub handle_disconnect : Option ℕ → FrameHandler H
  unfolding send_receipt_response close
  handle_disconnect write_err conn f = elim conn.state [
    | connecting ↦ failed conn not_connected
    | _ ↦
        (let (f', effects, err) = send_receipt_response write_err f in
          let (conn', closing) = close conn in
          elim err [ some e ↦ (conn, effects, some e) | none ↦ (conn', effects ++ closing, none) ])
  ]

  -- The core handler of SUBSCRIBE, around which the middleware is put.
  unfoldable pub core_subscribe_handler : String → String → FrameHandler H
  unfolding add_subscription
  core_subscribe_handler sub_id dest conn f =
      let (conn', sub, added) = add_subscription sub_id dest conn in
      if added
      then (
        conn',
        offer (record {
          conn_id = conn.id;
          event_type = subscribe_to_topic;
          destination = dest;
          sub = some sub;
          frame = some f;
        })
            ∷ [],
        none,
      )
      else (conn, [], none)

  unfoldable pub handle_subscribe : List (String × List (Middleware H)) → FrameHandler H
  unfolding core_subscribe_handler chain_command_middleware
  handle_subscribe registry conn f = elim conn.state [
    | connecting ↦ failed conn not_connected
    | closed ↦ (conn, [], none)
    | connected ↦ elim (api.contains f.header "id") [
      | none ↦ failed conn invalid_subscription
      | some sub_id ↦ elim (api.contains f.header "destination") [
        | none ↦ failed conn invalid_frame
        | some dest ↦
            chain_command_middleware registry "SUBSCRIBE" (core_subscribe_handler sub_id dest) conn
              f
      ]
    ]
  ]

  abbrev unsubscribed : StompConn → Option Subscription → StompConn × List (Effect H)
  unsubscribed conn none = (conn, [])
  unsubscribed conn (some sub) = (
    conn,
    offer (record {
      conn_id = conn.id;
      event_type = unsubscribe_from_topic;
      destination = sub.destination;
      sub = some sub;
      frame = none;
    })
        ∷ [],
  )

  unfoldable pub handle_unsubscribe : Option ℕ → FrameHandler H
  unfolding send_receipt_response remove_subscription
  handle_unsubscribe write_err conn f = elim conn.state [
    | connecting ↦ failed conn not_connected
    | closed ↦ (conn, [], none)
    | connected ↦ elim (api.contains f.header "id") [
      | none ↦ failed conn invalid_subscription
      | some id ↦
          (let (f', effects, err) = send_receipt_response write_err f in
            let (conn', sub) = remove_subscription id conn in
            let (last, more) = unsubscribed conn' sub in
            elim err [ some e ↦ (conn, effects, some e) | none ↦ (last, effects ++ more, none) ])
    ]
  ]

  unfoldable pub handle_send : StompConfig (Middleware H) → Option ℕ → FrameHandler H
  unfolding send_receipt_response is_app_request_destination contains_header
  handle_send config write_err conn f = elim conn.state [
    | connecting ↦ failed conn not_connected
    | closed ↦ (conn, [], none)
    | connected ↦
        if contains_header api f ("transaction" ∷ [])
        then failed conn unsupported_command
        else elim (api.contains f.header "destination") [
          | none ↦ failed conn invalid_frame
          | some dest ↦
              if not (is_app_request_destination config dest)
              then failed conn invalid_send_destination
              else (let (f', effects, err) = send_receipt_response write_err f in
                  elim err [
                    | some e ↦ (conn, effects, some e)
                    | none ↦ (
                      conn,
                      effects
                          ++ offer (record {
                            conn_id = conn.id;
                            event_type = incoming_message;
                            destination = dest;
                            sub = none;
                            frame = some (record f' { command = message });
                          })
                            ∷ [],
                      none,
                    )
                  ])
        ]
  ]

  unfoldable pub handle_incoming_frame :
      StompConfig (Middleware H) → (String → HeartBeat) → Option ℕ → FrameHandler H
  handle_incoming_frame config parse write_err conn f = elim f.command [
    | connect ↦ handle_connect parse config.heartbeat write_err conn f
    | stomp ↦ handle_connect parse config.heartbeat write_err conn f
    | disconnect ↦ handle_disconnect write_err conn f
    | send ↦ handle_send config write_err conn f
    | subscribe ↦ handle_subscribe config.middleware_registry conn f
    | unsubscribe ↦ handle_unsubscribe write_err conn f
    | _ ↦ failed conn unsupported_command
  ]
