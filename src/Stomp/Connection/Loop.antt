-- ===== src/Stomp/Connection/Loop.antt =====
-- stompserver/stomp_connection.go, run: the loop of a connection, one round for each thing that
-- select may take.
use ranch.Prelude.{
  Bool, List, Option, String, [], false, if◌then◌else◌, nat_eq, none, some, string_eq, true, ℕ,
  ◌++◌, ◌||◌, ◌∷◌,
}
use ranch.Stomp.Frame.{Command, Frame, HeaderApi, is_error, new_frame}
use ranch.Stomp.Config.{StompConfig}
use ranch.Stomp.Connection.{
  ConnState, Effect, HeartBeat, Middleware, StompConn, close, closed, populate_message_id_header,
  write,
}
use ranch.Stomp.Connection.Handlers.{handle_incoming_frame}

-- What a round takes: a frame to send, a frame received, one of the two Go channels closed, or the
-- timer, each with the error of its write, if that fails.
pub data Input (H : Type 0) : Type 0 where
  out_frame : Frame H → Option ℕ → Input H
  in_frame : Frame H → Option ℕ → Input H
  out_closed in_closed : Input H
  timer : Option ℕ → Input H

-- What a round takes, and whether the server's goroutine calls Close while the round waits for it: the
-- socket is closed then, and each write of the round fails, with the error given.
pub data Turn (H : Type 0) : Type 0 where
  taken : Input H → Turn H
  closed_first : ℕ → Input H → Turn H

abbrev pub failing : {H : Type 0} → ℕ → Input H → Input H
failing e (out_frame f err) = out_frame f (some e)
failing e (in_frame f err) = in_frame f (some e)
failing e out_closed = out_closed
failing e in_closed = in_closed
failing e (timer err) = timer (some e)

abbrev pub is_closed : ConnState → Bool
is_closed closed = true
is_closed _ = false

-- The text of an error is not modelled: SendError writes an ERROR frame.
abbrev pub error_frame : {H : Type 0} → HeaderApi H → Frame H
error_frame api = new_frame api Command.error (("message", "") ∷ [])

-- The deferred Close.
abbrev pub leave : {H : Type 0} → StompConn → List (Effect H) → StompConn × List (Effect H) × Bool
leave conn effects = let (conn', closing) = close conn in (conn', effects ++ closing, false)

abbrev pub has_failed : {A : Type 0} → Option A → Bool
has_failed none = false
has_failed (some e) = true

module _ {H : Type 0} (api : HeaderApi H) (config : StompConfig (Middleware H))
    (parse : String → HeartBeat) where
  -- One round of a connection that is not closed: the connection, the calls made, and whether the
  -- loop goes on.
  unfoldable pub round : Input H → StompConn → StompConn × List (Effect H) × Bool
  unfolding close populate_message_id_header new_frame
  round out_closed conn = leave conn []
  round in_closed conn = leave conn []
  round (timer err) conn =
      if has_failed err then leave conn (write none ∷ []) else (conn, write none ∷ [], true)
  round (out_frame f err) conn =
      let (conn', f') = populate_message_id_header api f conn in
      if has_failed err || is_error f'.command
      then leave conn' (write (some f') ∷ [])
      else (conn', write (some f') ∷ [], true)
  round (in_frame f err) conn =
      let (conn', effects, failure) = handle_incoming_frame api config parse err conn f in
      if has_failed failure
      then leave conn' (effects ++ write (some (error_frame api)) ∷ [])
      else (conn', effects, true)

  unfoldable pub turn : Turn H → StompConn → StompConn × List (Effect H) × Bool
  unfolding round close
  turn (taken i) conn = round i conn
  turn (closed_first e i) conn =
      let (conn', closing) = close conn in
      let (conn'', effects, goes_on) = round (failing e i) conn' in
      (conn'', closing ++ effects, goes_on)

  -- The loop: a closed connection is left at the top of a round.
  unfoldable pub run : List (Turn H) → StompConn → StompConn × List (Effect H)
  run [] conn = (conn, [])
  run (t ∷ ts) conn =
      let (conn', effects, goes_on) = turn t conn in
      let (last, more) = run ts conn' in
      if is_closed conn.state
      then (let (conn'', closing) = close conn in (conn'', closing))
      else if goes_on
      then (last, effects ++ more)
      else (conn', effects)
