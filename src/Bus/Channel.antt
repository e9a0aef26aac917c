-- ===== src/Bus/Channel.antt =====
-- bus/channel.go, Channel. A handler is known by its address, since Go shares it by pointer: the
-- flag `fired` of a handler is one cell, whichever snapshot of the handlers holds the pointer. An id
-- (uuid) is a number, compared for equality only. A callback is a number that stands for the function.
pub mod Scheduling
pub mod Handlers
pub mod Broker
use ranch.Prelude.{
  Bool, List, Option, String, [], any, false, if◌then◌else◌, keep, leb, length, ltb, nat_eq, none,
  not, some, string_eq, suc, true, zero, ℕ, ◌&&◌, ◌++◌, ◌==◌, ◌||◌, ◌∷◌,
}
use ranch.Bus.Activity.{ChannelActivity, begin, finish, new_channel_activity}

pub record Handler : Type 0 where
  pub address : ℕ
  pub call_back : Option ℕ
  pub context_call_back : Option ℕ
  pub run_once : Bool
  pub uuid : Option ℕ

-- connectionSub: the connection's id, the subscription's id and destination, and whether `stop` is closed
pub record ConnectionSub : Type 0 where
  pub conn : ℕ
  pub sub : ℕ
  pub destination : String
  pub stopped : Bool

pub record Channel : Type 0 where
  pub name : String
  pub event_handlers : List Handler
  pub fired : List ℕ  -- the addresses of the handlers whose flag is set
  pub activity : ChannelActivity
  pub galactic : Bool
  pub galactic_mapped_destination : String
  pub private : Bool
  pub broker_subs : List ConnectionSub
  pub broker_conns : List ℕ
  pub broker_mapped_event : List Bool  -- a buffered Go channel of 10

unfoldable pub new_channel : String → Channel
new_channel name = record {
  name = name;
  event_handlers = [];
  fired = [];
  activity = new_channel_activity;
  galactic = false;
  galactic_mapped_destination = "";
  private = false;
  broker_subs = [];
  broker_conns = [];
  broker_mapped_event = [];
}

unfoldable pub set_private : Bool → Channel → Channel
set_private p c = record c { private = p }

unfoldable pub set_galactic : String → Channel → Channel
set_galactic destination c = record c { galactic = true; galactic_mapped_destination = destination }

unfoldable pub set_local : Channel → Channel
set_local c = record c { galactic = false; galactic_mapped_destination = "" }

unfoldable pub has_fired : List ℕ → Handler → Bool
has_fired fired h = any (λ a. a == h.address) fired

-- A handler that subscribe, unsubscribe and prune drop.
unfoldable pub is_spent : List ℕ → Handler → Bool
unfolding has_fired
is_spent fired h = h.run_once && has_fired fired h

-- handler.fired.CompareAndSwap(false, true) for a run-once handler; any other is always scheduled
unfoldable pub claim : Handler → List ℕ → Bool × List ℕ
unfolding has_fired
claim h fired =
    if h.run_once
    then (if has_fired fired h then (false, fired) else (true, h.address ∷ fired))
    else (true, fired)

-- The loop of dispatchContext over a snapshot of the handlers. `done n` tells whether the context
-- is done at the n-th look. The result: the scheduled handlers, pruneFiredRunOnce, and the flags.
unfoldable pub select : (ℕ → Bool) → List Handler → List ℕ → List Handler × Bool × List ℕ
unfolding claim
select done [] fired = ([], false, fired)
select done (h ∷ hs) fired =
    let (scheduled, flags) = claim h fired in
    let (rest, prune, last) = select (λ n. done (suc n)) hs flags in
    if done 0
    then ([], false, fired)
    else (if scheduled then h ∷ rest else rest, h.run_once || prune, last)

unfoldable pub prune_fired_run_once_handlers : Channel → Channel
unfolding is_spent
prune_fired_run_once_handlers c =
    if any (is_spent c.fired) c.event_handlers
    then record c { event_handlers = keep (λ h. not (is_spent c.fired h)) c.event_handlers }
    else c

-- What the goroutine of a dispatch is given: the scheduled handlers and its number.
pub record Dispatch : Type 0 where
  pub handlers : List Handler
  pub seq : ℕ

unfoldable pub schedule : List Handler → Channel → Channel × Option Dispatch
schedule [] c = (c, none)
schedule (h ∷ hs) c =
    let (activity, seq) = begin c.activity in
    (record c { activity = activity }, some (record { handlers = h ∷ hs; seq = seq }))

unfoldable pub dispatch_context : (ℕ → Bool) → Channel → Channel × Option Dispatch
unfolding select prune_fired_run_once_handlers schedule begin
dispatch_context done c =
    let (scheduled, prune, fired) = select done c.event_handlers c.fired in
    let c' = record c { fired = fired } in
    schedule scheduled (if prune then prune_fired_run_once_handlers c' else c')

-- A call of a handler's function: with the context, or plain.
pub data Call : Type 0 where
  with_context plain : ℕ → Call

abbrev pub calls_of : Option ℕ → Option ℕ → List Call
calls_of (some f) _ = with_context f ∷ []
calls_of none (some f) = plain f ∷ []
calls_of none none = []

abbrev pub calls : List Handler → List Call
calls [] = []
calls (h ∷ hs) = calls_of h.context_call_back h.call_back ++ calls hs

-- The goroutine: the calls that it makes, in order, and the end of the dispatch.
unfoldable pub send_message_to_handlers : Dispatch → Channel → Channel × List Call
unfolding finish
send_message_to_handlers d c = (record c { activity = finish d.seq c.activity }, calls d.handlers)

unfoldable pub contains_handlers : Channel → Bool
contains_handlers c = ltb 0 (length c.event_handlers)

unfoldable pub subscribe_handler : Handler → Channel → Channel
unfolding is_spent
subscribe_handler h c = record c {
  event_handlers = keep (λ x. not (is_spent c.fired x)) c.event_handlers ++ h ∷ [];
}

-- Both ids are there, and they are equal.
unfoldable pub same_id : Option ℕ → Option ℕ → Bool
same_id (some a) (some b) = a == b
same_id (some a) none = false
same_id none _ = false

unfoldable pub unsubscribe_handler : Option ℕ → Channel → Channel × Bool
unfolding is_spent same_id
unsubscribe_handler id c = (
  record c {
    event_handlers = keep (λ h. not (same_id h.uuid id || is_spent c.fired h)) c.event_handlers;
  },
  any (λ h. same_id h.uuid id) c.event_handlers,
)

abbrev pub remove_at : List Handler → ℕ → List Handler
remove_at [] i = []
remove_at (h ∷ hs) zero = hs
remove_at (h ∷ hs) (suc i) = h ∷ remove_at hs i

-- The callers give an index that is not negative.
unfoldable pub remove_event_handler : ℕ → Channel → Channel
remove_event_handler index c =
    if leb (length c.event_handlers) index
    then c
    else record c { event_handlers = remove_at c.event_handlers index }
