-- ===== src/Stomp/Connection/Trace.antt =====
-- stompserver/stomp_connection.go: the order of the events that one connection offers to the server.
use ranch.Prelude.{
  All, Bool, Bool-cases, List, Option, String, [], arith, false, if◌then◌else◌, inl, inr, nat_eq,
  none, refl, some, string_eq, true, ℕ, ◌++◌, ◌||◌, ◌∷◌, ◌≡◌,
}
use ranch.Stomp.Frame.{Frame, HeaderApi, is_error}
use ranch.Stomp.Config.{StompConfig}
use ranch.Stomp.Connection.{
  Effect, HeartBeat, Middleware, StompConn, close, closed, new_stomp_conn,
  populate_message_id_header, write,
}
use ranch.Stomp.Connection.Handlers.{handle_incoming_frame}
use ranch.Stomp.Connection.Loop.{
  Input, Turn, closed_first, error_frame, failing, has_failed, in_closed, in_frame, is_closed,
  leave, out_closed, out_frame, round, run, taken, timer, turn,
}
use ranch.Stomp.Connection.Phases.{
  Answers, IsProper, IsSound, Speaks, Speaks-close, Speaks-trans, before, connect-Answers,
  disconnect-Answers, late-Answers, phase_of, scan, send-Answers, subscribe-Answers,
  subscribe_chain, unsubscribe-Answers,
}

module _ {H : Type 0} (api : HeaderApi H) where
  module _ (config : StompConfig (Middleware H)) (parse : String → HeartBeat)
      (ps : All IsProper (subscribe_chain api config.middleware_registry)) where
    frame-Answers :
        (err : Option ℕ) (conn : StompConn) (f : Frame H)
        → is_closed conn.state ≡ false
        → IsSound conn
        → Answers conn (handle_incoming_frame api config parse err conn f)
    unfolding handle_incoming_frame
    frame-Answers err conn f live v = ground (
      arith,
      connect-Answers api parse config.heartbeat err conn f live v,
      disconnect-Answers api err conn f live v,
      send-Answers api config err conn f live v,
      subscribe-Answers api config.middleware_registry conn f ps live v,
      unsubscribe-Answers api err conn f live v,
    )

    leave-Speaks :
        (conn next : StompConn) (effects : List (Effect H))
        → Speaks conn next effects
        → Speaks conn (leave next effects).0 (leave next effects).1
    leave-Speaks conn next effects m =
        Speaks-trans conn next _ effects _ m (Speaks-close next m.sound)

    out-Speaks :
        (f : Frame H) (err : Option ℕ) (conn : StompConn)
        → IsSound conn
        → Speaks conn
            (populate_message_id_header api f conn).0
            (write (some (populate_message_id_header api f conn).1) ∷ [])
    unfolding populate_message_id_header
    out-Speaks f err conn v = ground (arith, v)

    Speaks-quiet :
        (f : Option (Frame H)) (conn next : StompConn) (effects : List (Effect H))
        → Speaks conn next effects
        → Speaks conn next (effects ++ write f ∷ [])
    Speaks-quiet f conn next effects m =
        Speaks-trans conn next next effects (write f ∷ []) m
          (record { word = refl; sound = m.sound })

    either :
        (b : Bool) (conn : StompConn) (x y : StompConn × List (Effect H) × Bool)
        → Speaks conn x.0 x.1
        → Speaks conn y.0 y.1
        → Speaks conn (if b then x else y).0 (if b then x else y).1
    either true conn x y m n = m
    either false conn x y m n = n

    round-Speaks :
        (i : Input H) (conn : StompConn)
        → is_closed conn.state ≡ false
        → IsSound conn
        → Speaks conn (round api config parse i conn).0 (round api config parse i conn).1
    unfolding round
    round-Speaks out_closed conn live v =
        leave-Speaks conn conn [] (record { word = refl; sound = v })
    round-Speaks in_closed conn live v =
        leave-Speaks conn conn [] (record { word = refl; sound = v })
    round-Speaks (timer none) conn live v = record { word = refl; sound = v }
    round-Speaks (timer (some e)) conn live v =
        leave-Speaks conn conn (write none ∷ []) (record { word = refl; sound = v })
    round-Speaks (out_frame f err) conn live v =
        let m = out-Speaks f err conn v in
        either (has_failed err || is_error (populate_message_id_header api f conn).1.command) conn
          (leave (populate_message_id_header api f conn).0
            (write (some (populate_message_id_header api f conn).1) ∷ []))
          (
            (populate_message_id_header api f conn).0,
            write (some (populate_message_id_header api f conn).1) ∷ [],
            true,
          )
          (leave-Speaks conn _ _ m) m
    round-Speaks (in_frame f err) conn live v =
        let r = handle_incoming_frame api config parse err conn f in
        let m = frame-Answers err conn f live v in
        either (has_failed r.2) conn (leave r.0 (r.1 ++ write (some (error_frame api)) ∷ []))
          (r.0, r.1, true)
          (leave-Speaks conn r.0 _ (Speaks-quiet (some (error_frame api)) conn r.0 r.1 m)) m

    late-Speaks :
        (e : ℕ) (i : Input H) (conn : StompConn)
        → conn.state ≡ closed
        → IsSound conn
        → Speaks conn
            (round api config parse (failing e i) conn).0
            (round api config parse (failing e i) conn).1
    unfolding round
    late-Speaks e out_closed conn shut v =
        leave-Speaks conn conn [] (record { word = refl; sound = v })
    late-Speaks e in_closed conn shut v =
        leave-Speaks conn conn [] (record { word = refl; sound = v })
    late-Speaks e (timer err) conn shut v =
        leave-Speaks conn conn (write none ∷ []) (record { word = refl; sound = v })
    late-Speaks e (out_frame f err) conn shut v =
        leave-Speaks conn _ _ (out-Speaks f (some e) conn v)
    late-Speaks e (in_frame f err) conn shut v =
        let r = handle_incoming_frame api config parse (some e) conn f in
        let m = late-Answers api config parse e conn f shut v in
        either (has_failed r.2) conn (leave r.0 (r.1 ++ write (some (error_frame api)) ∷ []))
          (r.0, r.1, true)
          (leave-Speaks conn r.0 _ (Speaks-quiet (some (error_frame api)) conn r.0 r.1 m)) m

    shut_now : (conn : StompConn) → IsSound conn → (close {H = H} conn).0.state ≡ closed
    unfolding close
    shut_now conn v = ground (arith, v)

    turn-Speaks :
        (t : Turn H) (conn : StompConn)
        → is_closed conn.state ≡ false
        → IsSound conn
        → Speaks conn (turn api config parse t conn).0 (turn api config parse t conn).1
    unfolding turn
    turn-Speaks (taken i) conn live v = round-Speaks i conn live v
    turn-Speaks (closed_first e i) conn live v =
        let m = Speaks-close {H = H} conn v in
        Speaks-trans conn (close {H = H} conn).0 _ (close conn).1 _ m
          (late-Speaks e i (close {H = H} conn).0 (shut_now conn v) m.sound)

    goes_on_Speaks :
        (t : Turn H) (ts : List (Turn H)) (conn : StompConn)
        → is_closed conn.state ≡ false
        → (turn api config parse t conn).2 ≡ true
        → Speaks conn (turn api config parse t conn).0 (turn api config parse t conn).1
        → Speaks
            (turn api config parse t conn).0
            (run api config parse ts (turn api config parse t conn).0).0
            (run api config parse ts (turn api config parse t conn).0).1
        → Speaks conn (run api config parse (t ∷ ts) conn).0 (run api config parse (t ∷ ts) conn).1
    unfolding run
    goes_on_Speaks t ts conn live on m n = rw (live, on, run) (Speaks-trans conn _ _ _ _ m n)

    run-Speaks :
        (ts : List (Turn H)) (conn : StompConn)
        → IsSound conn
        → Speaks conn (run api config parse ts conn).0 (run api config parse ts conn).1
    run-Speaks [] conn v = unfold run in record { word = refl; sound = v }
    run-Speaks (t ∷ ts) conn v = elim (Bool-cases (is_closed conn.state)) [
      | inl done ↦ unfold run in rw (done, run) (Speaks-close conn v)
      | inr live ↦
          let m = turn-Speaks t conn live v in
          let (conn', effects, goes_on) = turn api config parse t conn in
          elim (Bool-cases (turn api config parse t conn).2) [
            | inl on ↦ goes_on_Speaks t ts conn live on m (run-Speaks ts conn' m.sound)
            | inr off ↦ unfold run in rw (live, off, run) m
          ]
    ]

    -- Whatever a client sends and the server sends it, and whichever writes fail, the events that a connection offers to the server follow a protocol: established before any subscription, unsubscription or message, closed at most once, and nothing offered after it; the last phase is that of the connection's state. The server may close the connection whenever its loop waits, writes to it failing from then on, but not while a frame is handled; and the middleware of SUBSCRIBE is any that keeps handlers well behaved.
    pub run_protocol :
        (ts : List (Turn H)) (id address : String)
        → scan before (run api config parse ts (new_stomp_conn id address)).1
          ≡ some (phase_of (run api config parse ts (new_stomp_conn id address)).0.state)
    unfolding new_stomp_conn
    run_protocol ts id address =
        (run-Speaks ts (new_stomp_conn id address) (record { closed_once = refl })).word
