-- ===== src/Bus/Tests.antt =====
-- Runs of the channel and of its activity at fixed inputs.
use ranch.Prelude.{
  All, Bool, List, Option, [], any, arith, count_if, false, find, if◌then◌else◌, keep, map, nat_eq,
  none, not, refl, some, string_eq, true, ℕ, ◌&&◌, ◌++◌, ◌+◌, ◌<◌, ◌==◌, ◌||◌, ◌∷◌, ◌≡◌, ◌≢◌, ◌≤◌,
}
use ranch.Prelude.Dict.{get}
use ranch.Bus.Activity.{
  ChannelActivity, Wake, has_outstanding_after_locked, poll, wait_from, wait_quiescent_after,
}
use ranch.Bus.Activity.Quiet.{wait_quiescent_after-quiet, wait_quiescent_after-returns}
use ranch.Bus.Channel.{
  Channel, ConnectionSub, Handler, dispatch_context, has_fired, is_spent, new_channel, same_id,
  select, subscribe_handler, unsubscribe_handler,
}
use ranch.Bus.Channel.Scheduling.{
  AllDistinct, dispatch_context_lem, is_once_at, run_once_at_most_once, scheduled,
}
use ranch.Bus.Channel.Handlers.{heard_by, unsubscribe_handler_lem}
use ranch.Bus.Channel.Broker.{
  add_broker_subscription_if_missing, add_broker_subscription_if_missing-IsValid,
  new_channel-IsValid, one_if, remove_broker_subscription, remove_broker_subscription_lem,
}
use ranch.Bus.Delivery.{
  Message, MessageHandler, close, handle_context, response_dir, unsubscribed, wrap_message_handler,
  wrapper,
}
use ranch.Bus.Delivery.Once.{Arrival, close-handle_context, deliver, deliver_once, is_call}
use ranch.Bus.Manager.{Channels, mark_channel_as_galactic, mark_channel_as_local}
use ranch.Bus.Manager.Galactic.{
  left_subs, left_well, mark_channel_as_galactic_twice, mark_channel_as_local_lem, told,
}
use ranch.Bus.Events.{build_handler, message_of, new_message_handler, send_message_context}
use ranch.Bus.Events.Hearing.{
  heard, hearing_lem, once_for, options_of, response, sent_by, set_up, then_left,
}
use ranch.Bus.Events.Monitor.{
  TransportMonitor, add_listener, is_called, monitor_lem, remove_listener,
}

-- One dispatch, the first, runs.
abbrev busy : ChannelActivity
busy = record { next = 1; outstanding = (1, tt) ∷ [] }

abbrev idle : ChannelActivity
idle = record { next = 1; outstanding = [] }

abbrev wake : ChannelActivity → Wake ℕ
wake a = record { activity = a; err = λ n. none }

abbrev wakes : List (Wake ℕ)
wakes = wake busy ∷ wake idle ∷ []

busy-IsValid : ranch.Bus.Activity.Quiet.IsValid busy
unfolding get
busy-IsValid = record { counted = λ n h. ground arith }

idle-IsValid : ranch.Bus.Activity.Quiet.IsValid idle
unfolding get
idle-IsValid = record { counted = λ n h. absurd (h refl) }

waited : wait_quiescent_after 0 wakes ≡ some (none, idle)
unfolding wait_quiescent_after wait_from poll has_outstanding_after_locked
waited = refl

wait_quiescent_after-quiet_example : get 1 idle.outstanding ≡ none
wait_quiescent_after-quiet_example =
    wait_quiescent_after-quiet 0 wakes idle waited (busy-IsValid, (idle-IsValid, tt)) 1
      (omega arith)

all_idle : (n : ℕ) → 0 < n → get n idle.outstanding ≡ none
unfolding get
all_idle n h = refl

wait_quiescent_after-returns_example :
    (x : Option ℕ × ChannelActivity) × (wait_quiescent_after 0 ((wake busy ∷ []) ++ wake idle ∷ [])
      ≡ some x)
wait_quiescent_after-returns_example =
    wait_quiescent_after-returns 0 (wake busy ∷ []) (wake idle) all_idle

abbrev handler : ℕ → Bool → Handler
handler a is_run_once = record {
  address = a;
  call_back = some a;
  context_call_back = none;
  run_once = is_run_once;
  uuid = some a;
}

abbrev visits : List Handler
visits = handler 7 true ∷ handler 8 false ∷ handler 7 true ∷ []

abbrev unset : List ℕ
unset = []

run_once_at_most_once_example :
    (count_if (is_once_at 7) (select (λ _. false) visits unset).0 ≤ 1)
    × (any (λ x. x == 7) unset ≡ true
        → count_if (is_once_at 7) (select (λ _. false) visits unset).0 ≡ 0)
run_once_at_most_once_example = run_once_at_most_once 7 visits unset

abbrev two : Channel
two = record (new_channel "news") { event_handlers = handler 7 true ∷ handler 8 false ∷ [] }

two-AllDistinct : AllDistinct two.event_handlers
unfolding new_channel
two-AllDistinct = (((λ h. ground (arith, h)), tt), (tt, tt))

dispatch_context_lem_example :
    (scheduled (dispatch_context (λ _. false) two).1
      ≡ keep (λ h. not (is_spent two.fired h)) two.event_handlers)
    × ((dispatch_context (λ _. false) two).0.event_handlers
        ≡ keep (λ h. not h.run_once) two.event_handlers)
dispatch_context_lem_example = dispatch_context_lem two two-AllDistinct

nine_elsewhere : All (λ x. x.address ≢ (handler 9 true).address) two.event_handlers
nine_elsewhere = (λ h. ground (arith, h), (λ h. ground (arith, h), tt))

unsubscribe_handler_lem_example :
    (heard_by (unsubscribe_handler (some 7) two).0
      ≡ keep (λ h. not (same_id h.uuid (some 7))) (heard_by two))
    × ((unsubscribe_handler (some 7) two).1 ≡ false
        → heard_by (unsubscribe_handler (some 7) two).0 ≡ heard_by two)
    × (heard_by (subscribe_handler (handler 9 true) two)
        ≡ heard_by two ++ (if is_spent two.fired (handler 9 true) then [] else handler 9 true ∷ []))
unsubscribe_handler_lem_example =
    unsubscribe_handler_lem 7 (handler 9 true) two two-AllDistinct nine_elsewhere

abbrev mapped : Channel
mapped = (add_broker_subscription_if_missing 3 5 "/topic/news" (new_channel "news")).0

mapped-IsValid : ranch.Bus.Channel.Broker.IsValid mapped
mapped-IsValid =
    add_broker_subscription_if_missing-IsValid 3 5 "/topic/news" (new_channel "news")
      (new_channel-IsValid "news")

add_broker_subscription_if_missing-IsValid_example :
    ranch.Bus.Channel.Broker.IsValid
      (add_broker_subscription_if_missing 3 6 "/topic/sport" mapped).0
add_broker_subscription_if_missing-IsValid_example =
    add_broker_subscription_if_missing-IsValid 3 6 "/topic/sport" mapped mapped-IsValid

remove_broker_subscription_lem_example :
    ranch.Bus.Channel.Broker.IsValid (remove_broker_subscription 5 mapped).0
    × ((p : ConnectionSub → Bool)
        → count_if p (remove_broker_subscription 5 mapped).0.broker_subs
            + ranch.Bus.Channel.Broker.one_if p (find (λ cs. cs.sub == 5) mapped.broker_subs)
          ≡ count_if p mapped.broker_subs)
remove_broker_subscription_lem_example = remove_broker_subscription_lem 5 mapped mapped-IsValid

abbrev answer : MessageHandler
answer = record (wrap_message_handler response_dir false false (some 4) true) {
  success_handler = some 1;
  error_handler = some 2;
  subscription_id = some 5;
  setup_once = true;
}

abbrev reply : Message
reply = record { direction = response_dir; destination_id = some 4; payload = 8; error = 0 }

abbrev arrivals : List Arrival
arrivals =
    record { done = false; ended = false; message = reply }
    ∷ record { done = false; ended = false; message = reply }
    ∷ []

answer_once : answer.run_once ≡ true
unfolding wrap_message_handler
answer_once = refl

deliver_once_example :
    count_if is_call (deliver arrivals answer).1 ≤ (if answer.invoke_once then 0 else 1)
deliver_once_example = deliver_once arrivals answer answer_once

abbrev unset_up : MessageHandler
unset_up = wrap_message_handler response_dir false false (some 4) true

not_yet : unset_up.setup_once ≡ false
unfolding wrap_message_handler
not_yet = refl

close-handle_context_example :
    ((close (handle_context (some 5) (some 1) none unset_up).0).1 ≡ unsubscribed 5 ∷ [])
    × ((handle_context (some 5) (some 1) none (close unset_up).0).1 ≡ unsubscribed 5 ∷ [])
close-handle_context_example = close-handle_context 5 (some 1) none unset_up not_yet

abbrev no_channels : Channels
no_channels = []

abbrev no_failure : ℕ → Bool
no_failure sub = false

none_yet : get "news" no_channels ≡ none
unfolding get
none_yet = refl

abbrev one_channel : Channels
one_channel = ("news", mapped) ∷ []

there_now : get "news" one_channel ≡ some mapped
unfolding get
there_now = refl

mark_channel_as_local_lem_example :
    (get "news" (mark_channel_as_local "news" no_failure one_channel).0
      ≡ some (record mapped {
        galactic = false;
        galactic_mapped_destination = "";
        broker_subs = [];
        broker_conns = [];
      }))
    × (left_subs (mark_channel_as_local "news" no_failure one_channel).1
        ≡ map (λ cs. cs.sub) mapped.broker_subs)
    × (told (mark_channel_as_local "news" no_failure one_channel).1
        ≡ left_well no_failure mapped.broker_subs)
mark_channel_as_local_lem_example =
    mark_channel_as_local_lem "news" no_failure one_channel mapped there_now

mark_channel_as_galactic_twice_example :
    (mark_channel_as_galactic "news" "/topic/sport"
      (some 3)
      (some 7)
      (mark_channel_as_galactic "news" "/topic/sport" (some 3) (some 6) one_channel).0).1
    ≡ []
mark_channel_as_galactic_twice_example =
    mark_channel_as_galactic_twice "news" "/topic/sport" 3 6 (some 7) one_channel mapped there_now

abbrev some_channels : Channels
some_channels = ("news", new_channel "news") ∷ []

news_there : get "news" some_channels ≡ some (new_channel "news")
unfolding get
news_there = refl

hearing_lem_example :
    (new_message_handler 9 "news" (options_of (once_for 4)) some_channels
      ≡ (some (build_handler 9 (options_of (once_for 4))), none))
    × (send_message_context false (sent_by "news" (response 5 (some 4))) some_channels
        ≡ (some (message_of (sent_by "news" (response 5 (some 4)))), none))
    × ((wrapper false false
          (message_of (sent_by "news" (response 5 (some 4))))
          (set_up 1 2 3 (build_handler 9 (options_of (once_for 4))))).1
        ≡ then_left true 1 (heard (once_for 4) 2 3 "news" (response 5 (some 4))))
hearing_lem_example =
    hearing_lem 9 1 2 3 (once_for 4) "news" (response 5 (some 4)) some_channels (new_channel "news")
      news_there

abbrev monitor : TransportMonitor
monitor = record {
  listeners_by_type = (1, (1, 10) ∷ []) ∷ [];
  listeners_for_all_events = (2, 20) ∷ [];
  sub_id = 2;
}

monitor_lem_example :
    (is_called 3 30 6 (add_listener 30 (5 ∷ 6 ∷ []) monitor).0 ≡ (
      (add_listener 30 (5 ∷ 6 ∷ []) monitor).1 == 3
        && (false || any {A = ℕ} (λ t. t == 6) (5 ∷ 6 ∷ []))
      || is_called 3 30 6 monitor))
    × (((add_listener 30 (5 ∷ 6 ∷ []) monitor).1 == 3) ≡ false
        → is_called 3 10 6 (add_listener 30 (5 ∷ 6 ∷ []) monitor).0 ≡ is_called 3 10 6 monitor)
    × (is_called 3 10 6 (remove_listener 2 monitor)
        ≡ (not (◌==◌ {K = ℕ} 2 3) && is_called 3 10 6 monitor))
monitor_lem_example = monitor_lem 3 10 6 30 2 (5 ∷ 6 ∷ []) monitor
