-- ===== src/Bus/Channel/Handlers.antt =====
-- bus/channel.go, subscribeHandler and unsubscribeHandler.
use ranch.Prelude.{
  All, All-append, Bool, Bool-cases, List, [], any, ap, arith, false, if◌then◌else◌, inl, inr, keep,
  nat_eq, not, refl, some, string_eq, sym, ℕ, ◌++◌, ◌||◌, ◌∙◌, ◌∷◌, ◌≡◌, ◌≢◌,
}
use ranch.Bus.Channel.Scheduling.{AllDistinct, dispatch_context_lem, scheduled}
use ranch.Bus.Channel.{
  Channel, Handler, dispatch_context, is_spent, same_id, subscribe_handler, unsubscribe_handler,
}

keep_all :
    {A : Type 0} (p : A → Bool) (hs : List A) → any p hs ≡ false → keep (λ h. not (p h)) hs ≡ hs
keep_all p [] a = refl
keep_all p (h ∷ hs) a = ground (arith, keep_all p hs)

All-keep :
    (P : Handler → Type 0) (p : Handler → Bool) (hs : List Handler) → All P hs → All P (keep p hs)
All-keep P p [] a = tt
All-keep P p (h ∷ hs) a = elim (Bool-cases (p h)) [
  | inl stays ↦ rw stays (a.0, All-keep P p hs a.1)
  | inr goes ↦ rw goes (All-keep P p hs a.1)
]

keep-AllDistinct :
    (p : Handler → Bool) (hs : List Handler) → AllDistinct hs → AllDistinct (keep p hs)
keep-AllDistinct p [] d = tt
keep-AllDistinct p (h ∷ hs) d = elim (Bool-cases (p h)) [
  | inl stays ↦ rw stays (All-keep (λ x. x.address ≢ h.address) p hs d.0, keep-AllDistinct p hs d.1)
  | inr goes ↦ rw goes (keep-AllDistinct p hs d.1)
]

-- A handler at an address of its own may come last.
last-AllDistinct :
    (h : Handler) (hs : List Handler)
    → All (λ x. x.address ≢ h.address) hs
    → AllDistinct hs
    → AllDistinct (hs ++ h ∷ [])
last-AllDistinct h [] a d = (tt, tt)
last-AllDistinct h (x ∷ hs) a d = (
  All-append (λ y. y.address ≢ x.address) hs (h ∷ []) d.0 (λ same. a.0 (sym same), tt),
  last-AllDistinct h hs a.1 d.1,
)

keep_both :
    (p q : Handler → Bool) (hs : List Handler)
    → keep (λ h. not (q h)) (keep (λ h. not (p h || q h)) hs)
      ≡ keep (λ h. not (p h)) (keep (λ h. not (q h)) hs)
keep_both p q [] = refl
keep_both p q (h ∷ hs) = ground (arith, keep_both p q hs)

keep_again :
    (p : Handler → Bool) (hs : List Handler) (h : Handler)
    → keep p (keep p hs ++ h ∷ []) ≡ keep p hs ++ (if p h then h ∷ [] else [])
keep_again p [] h = ground arith
keep_again p (x ∷ hs) h = ground (arith, keep_again p hs h)

any-keep : (p q : Handler → Bool) (hs : List Handler) → any p hs ≡ false → any p (keep q hs) ≡ false
any-keep p q [] none_p = refl
any-keep p q (h ∷ hs) none_p = ground (arith, any-keep p q hs)

-- The handlers that a dispatch under a context that is not done would schedule.
abbrev pub heard_by : Channel → List Handler
heard_by c = scheduled (dispatch_context (λ _. false) c).1

unsubscribed-heard_by :
    (id : ℕ) (c : Channel)
    → AllDistinct c.event_handlers
    → heard_by (unsubscribe_handler (some id) c).0
      ≡ keep (λ h. not (same_id h.uuid (some id))) (heard_by c)
unfolding unsubscribe_handler
unsubscribed-heard_by id c d =
    (dispatch_context_lem (unsubscribe_handler (some id) c).0 (
      keep-AllDistinct (λ h. not (same_id h.uuid (some id) || is_spent c.fired h)) c.event_handlers
        d)).0
    ∙ keep_both (λ h. same_id h.uuid (some id)) (is_spent c.fired) c.event_handlers
    ∙ ap (keep (λ h. not (same_id h.uuid (some id)))) (sym (dispatch_context_lem c d).0)

-- Where no two handlers are the same object: after an unsubscribe, a dispatch schedules the handlers that it would have scheduled, in their order, without those that have the id; where the unsubscribe says that it found none, it schedules the same ones. After a subscription with a new handler it schedules those that it would have scheduled and the new one as the last, unless that is spent.
pub unsubscribe_handler_lem :
    (id : ℕ) (new : Handler) (c : Channel)
    → AllDistinct c.event_handlers
    → All (λ x. x.address ≢ new.address) c.event_handlers
    → (heard_by (unsubscribe_handler (some id) c).0
        ≡ keep (λ h. not (same_id h.uuid (some id))) (heard_by c))
      × ((unsubscribe_handler (some id) c).1 ≡ false
          → heard_by (unsubscribe_handler (some id) c).0 ≡ heard_by c)
      × (heard_by (subscribe_handler new c)
          ≡ heard_by c ++ (if is_spent c.fired new then [] else new ∷ []))
unfolding unsubscribe_handler subscribe_handler
unsubscribe_handler_lem id new c d other =
    let live = keep (λ h. not (is_spent c.fired h)) c.event_handlers in
    (
      unsubscribed-heard_by id c d,
      λ none_found.
          unsubscribed-heard_by id c d
          ∙ keep_all (λ h. same_id h.uuid (some id)) (heard_by c)
              (rw (dispatch_context_lem c d).0 (
                any-keep (λ h. same_id h.uuid (some id)) (λ h. not (is_spent c.fired h))
                  c.event_handlers none_found)),
      (dispatch_context_lem (subscribe_handler new c) (
            last-AllDistinct new live
              (All-keep (λ x. x.address ≢ new.address) (λ h. not (is_spent c.fired h))
                c.event_handlers other)
              (keep-AllDistinct (λ h. not (is_spent c.fired h)) c.event_handlers d))).0
          ∙ keep_again (λ h. not (is_spent c.fired h)) c.event_handlers new
          ∙ rw (dispatch_context_lem c d).0 (elim (Bool-cases (is_spent c.fired new)) [
            | inl old ↦ rw old refl
            | inr fresh ↦ rw fresh refl
          ]),
    )
