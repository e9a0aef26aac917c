-- ===== src/Stomp/Connection/Phases.antt =====
-- stompserver/stomp_connection.go: the phases of a connection by the events that it has offered, and how
-- the handlers of frames move between them.
use ranch.Prelude.{
  All, Bool-cases, List, Option, Option-cases, String, [], arith, false, inl, inr, nat_eq, none,
  refl, some, string_eq, subst, sym, ℕ, ◌++◌, ◌∷◌, ◌≡◌, ◌⊎◌,
}
use ranch.Prelude.Dict.{get}
use ranch.Stomp.Frame.{Frame, HeaderApi}
use ranch.Stomp.Config.{StompConfig}
use ranch.Stomp.Connection.{
  ConnState, Effect, EventType, FrameHandler, Handled, HeartBeat, Middleware, StompConn,
  chain_middleware, close, close_raw, closed, connected, connecting, connection_closed,
  connection_established, incoming_message, offer, or_empty, subscribe_to_topic,
  unsubscribe_from_topic, write,
}
use ranch.Stomp.Connection.Handlers.{
  core_subscribe_handler, handle_connect, handle_disconnect, handle_incoming_frame, handle_send,
  handle_subscribe, handle_unsubscribe,
}
use ranch.Stomp.Connection.Loop.{is_closed}

-- Where a connection stands, by the events that it has offered.
pub data Phase : Type 0 where
  before open_phase over : Phase

-- The protocol: the phase after an event, if the event is allowed.
abbrev pub advance : Phase → EventType → Option Phase
advance before connection_established = some open_phase
advance before connection_closed = some over
advance open_phase subscribe_to_topic = some open_phase
advance open_phase unsubscribe_from_topic = some open_phase
advance open_phase incoming_message = some open_phase
advance open_phase connection_closed = some over
advance _ _ = none

infixl 5 ◌>>=◌
abbrev ◌>>=◌ : {A B : Type 0} → Option A → (A → Option B) → Option B
none >>= k = none
some a >>= k = k a

abbrev pub scan : {H : Type 0} → Phase → List (Effect H) → Option Phase
scan p [] = some p
scan p (offer e ∷ es) = advance p e.event_type >>= λ q. scan q es
scan p (write f ∷ es) = scan p es
scan p (close_raw ∷ es) = scan p es

abbrev pub phase_of : ConnState → Phase
phase_of connecting = before
phase_of connected = open_phase
phase_of closed = over

-- Close has run on exactly the closed connections.
pub record IsSound (conn : StompConn) : Type 0 where
  pub closed_once : conn.close_once ≡ is_closed conn.state

pub scan-append :
    {H : Type 0} (p : Phase) (es fs : List (Effect H))
    → scan p (es ++ fs) ≡ (scan p es >>= λ q. scan q fs)
scan-append p [] fs = refl
scan-append p (offer e ∷ es) fs = elim (Option-cases (advance p e.event_type)) [
  | inl h ↦ rw h refl
  | inr (q, h) ↦ rw h (scan-append q es fs)
]
scan-append p (write f ∷ es) fs = scan-append p es fs
scan-append p (close_raw ∷ es) fs = scan-append p es fs

-- The effects lead from the phase of the one connection to that of the other, which is sound.
pub record Speaks {H : Type 0} (conn next : StompConn) (effects : List (Effect H)) : Type 0 where
  pub word : scan (phase_of conn.state) effects ≡ some (phase_of next.state)
  pub sound : IsSound next

pub Speaks-trans :
    {H : Type 0} (a b c : StompConn) (es fs : List (Effect H))
    → Speaks a b es
    → Speaks b c fs
    → Speaks a c (es ++ fs)
Speaks-trans a b c es fs m n = record {
  word = rw (scan-append (phase_of a.state) es fs, m.word) n.word;
  sound = n.sound;
}

pub Speaks-close :
    {H : Type 0} (conn : StompConn)
    → IsSound conn
    → Speaks {H = H} conn (close {H = H} conn).0 (close conn).1
unfolding close
Speaks-close conn v = elim (Bool-cases conn.close_once) [
  | inl h ↦ rw (h, close) (ground (arith, v))
  | inr h ↦ rw (h, close) (ground (arith, v))
]

abbrev pub Answers : {H : Type 0} → StompConn → Handled H → Type 0
Answers conn r = Speaks conn r.0 r.1

-- A handler of SUBSCRIBE frames that is well behaved on connected, sound connections.
pub record IsPolite {H : Type 0} (h : FrameHandler H) : Type 0 where
  pub polite :
      (conn : StompConn) (f : Frame H)
      → conn.state ≡ connected
      → IsSound conn
      → Answers conn (h conn f)

-- A middleware keeps handlers well behaved.
pub record IsProper {H : Type 0} (mw : Middleware H) : Type 0 where
  pub keeps : (h : FrameHandler H) → IsPolite h → IsPolite (mw h)

module _ {H : Type 0} (api : HeaderApi H) where
  pub core-IsPolite : (sub_id dest : String) → IsPolite (core_subscribe_handler api sub_id dest)
  unfolding core_subscribe_handler
  core-IsPolite sub_id dest = record { polite = λ conn f up v. ground (arith, v) }

  pub chain-IsPolite :
      (mws : List (Middleware H)) (h : FrameHandler H)
      → All IsProper mws
      → IsPolite h
      → IsPolite (chain_middleware mws h)
  unfolding chain_middleware
  chain-IsPolite [] h ps k = k
  chain-IsPolite (mw ∷ mws) h ps k = ps.0.keeps _ (chain-IsPolite mws h ps.1 k)

  pub connect-Answers :
      (parse : String → HeartBeat) (heartbeat : ℕ) (err : Option ℕ) (conn : StompConn) (f : Frame H)
      → is_closed conn.state ≡ false
      → IsSound conn
      → Answers conn (handle_connect api parse heartbeat err conn f)
  unfolding handle_connect
  connect-Answers parse heartbeat err conn f live v = ground (arith, v)

  pub disconnect-Answers :
      (err : Option ℕ) (conn : StompConn) (f : Frame H)
      → is_closed conn.state ≡ false
      → IsSound conn
      → Answers conn (handle_disconnect api err conn f)
  unfolding handle_disconnect
  disconnect-Answers err conn f live v = ground (arith, v)

  pub unsubscribe-Answers :
      (err : Option ℕ) (conn : StompConn) (f : Frame H)
      → is_closed conn.state ≡ false
      → IsSound conn
      → Answers conn (handle_unsubscribe api err conn f)
  unfolding handle_unsubscribe
  unsubscribe-Answers err conn f live v = ground (arith, v)

  pub send-Answers :
      (config : StompConfig (Middleware H)) (err : Option ℕ) (conn : StompConn) (f : Frame H)
      → is_closed conn.state ≡ false
      → IsSound conn
      → Answers conn (handle_send api config err conn f)
  unfolding handle_send
  send-Answers config err conn f live v = ground (arith, v)

  -- The middleware that is put round SUBSCRIBE.
  abbrev pub subscribe_chain : List (String × List (Middleware H)) → List (Middleware H)
  subscribe_chain registry = or_empty (get "*" registry) ++ or_empty (get "SUBSCRIBE" registry)

  pub subscribe-Answers :
      (registry : List (String × List (Middleware H))) (conn : StompConn) (f : Frame H)
      → All IsProper (subscribe_chain registry)
      → is_closed conn.state ≡ false
      → IsSound conn
      → Answers conn (handle_subscribe api registry conn f)
  subscribe-Answers registry conn f ps live v = elim (state_cases conn.state live) [
    | inl new ↦ unfold handle_subscribe in rw (new, handle_subscribe) (ground (arith, v))
    | inr up ↦ elim (Option-cases (api.contains f.header "id")) [
      | inl h ↦ unfold handle_subscribe in rw (up, h, handle_subscribe) (ground (arith, v))
      | inr (id, h) ↦ elim (Option-cases (api.contains f.header "destination")) [
        | inl k ↦ unfold handle_subscribe in rw (up, h, k, handle_subscribe) (ground (arith, v))
        | inr (dest, k) ↦ subst (Answers conn) (sym (reaches id dest up h k)) (
            (chain-IsPolite (subscribe_chain registry) _ ps (core-IsPolite id dest)).polite conn f
              up v)
      ]
    ]
  ]
    where
      reaches :
          (id dest : String)
          → conn.state ≡ connected
          → api.contains f.header "id" ≡ some id
          → api.contains f.header "destination" ≡ some dest
          → handle_subscribe api registry conn f
            ≡ chain_middleware
                (subscribe_chain registry)
                (core_subscribe_handler api id dest)
                conn
                f
      reaches id dest up h k = unfold handle_subscribe in ground arith

      state_cases : (s : ConnState) → is_closed s ≡ false → (s ≡ connecting) ⊎ (s ≡ connected)
      state_cases connecting h = inl refl
      state_cases connected h = inr refl
      state_cases closed h = cc

  -- On a connection that is closed and whose socket refuses the write.
  pub late-Answers :
      (config : StompConfig (Middleware H)) (parse : String → HeartBeat) (e : ℕ) (conn : StompConn)
      (f : Frame H)
      → conn.state ≡ closed
      → IsSound conn
      → Answers conn (handle_incoming_frame api config parse (some e) conn f)
  unfolding handle_incoming_frame handle_connect handle_disconnect handle_send handle_subscribe
      handle_unsubscribe
  late-Answers config parse e conn f shut v = ground (arith, v)
