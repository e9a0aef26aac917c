-- ===== src/Bus/Delivery/Once.antt =====
-- bus/eventbus.go and bus/message_handler.go: how often a client's function is called, for which
-- messages, and that a handler that is closed is unsubscribed.
use ranch.Prelude.{
  Bool, List, Option, [], arith, count_if, count_if-append, false, if◌then◌else◌, nat_eq, some,
  string_eq, true, ℕ, ◌++◌, ◌+◌, ◌∷◌, ◌≡◌, ◌≤◌,
}
use ranch.Bus.Delivery.{
  Act, Message, MessageHandler, close, handle_context, invoke, unsubscribed, wrapper,
}

-- A message that arrives, with whether the dispatch's and the handler's contexts are done.
pub record Arrival : Type 0 where
  pub done : Bool
  pub ended : Bool
  pub message : Message

abbrev pub deliver : List Arrival → MessageHandler → MessageHandler × List Act
deliver [] h = (h, [])
deliver (a ∷ rest) h =
    let first = wrapper a.done a.ended a.message h in
    let others = deliver rest first.0 in (others.0, first.1 ++ others.1)

-- A call of a client's function
abbrev pub is_call : Act → Bool
is_call (unsubscribed id) = false
is_call _ = true

abbrev left : MessageHandler → ℕ
left h = if h.invoke_once then 0 else 1

wrapper-once :
    (done ended : Bool) (msg : Message) (h : MessageHandler)
    → h.run_once ≡ true
    → ((wrapper done ended msg h).0.run_once ≡ true)
      × (count_if is_call (wrapper done ended msg h).1 + left (wrapper done ended msg h).0 ≤ left h)
unfolding wrapper invoke close
wrapper-once done ended msg h once = ground arith

-- A run-once handler calls the functions of its client at most once in all, whatever messages and errors arrive in whatever order, and not at all when it has done so before.
pub deliver_once :
    (arrivals : List Arrival) (h : MessageHandler)
    → h.run_once ≡ true
    → count_if is_call (deliver arrivals h).1 ≤ (if h.invoke_once then 0 else 1)
deliver_once [] h once = ground arith
deliver_once (a ∷ arrivals) h once =
    let (still, bound) = wrapper-once a.done a.ended a.message h once in
    let next = (wrapper a.done a.ended a.message h).0 in
    let rest = deliver_once arrivals next still in
    rw (count_if-append is_call (wrapper a.done a.ended a.message h).1 (deliver arrivals next).1)
      (omega (arith, bound, rest))

-- Whichever of Close and HandleContext comes first, a handler that was not set up has by then unsubscribed the id that it got.
pub close-handle_context :
    (id : ℕ) (success_handler error_handler : Option ℕ) (h : MessageHandler)
    → h.setup_once ≡ false
    → ((close (handle_context (some id) success_handler error_handler h).0).1
        ≡ unsubscribed id ∷ [])
      × ((handle_context (some id) success_handler error_handler (close h).0).1
          ≡ unsubscribed id ∷ [])
unfolding close handle_context
close-handle_context id success_handler error_handler h fresh = (ground arith, ground arith)
