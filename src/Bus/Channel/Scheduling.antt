-- ===== src/Bus/Channel/Scheduling.antt =====
-- bus/channel.go, dispatchContext and sendMessageToHandlers: who is scheduled, and how often.
use ranch.Prelude.{
  All, Bool, List, Option, [], any, ap, arith, count_if, false, if◌then◌else◌, keep, nat_beq_iff,
  nat_eq, none, not, refl, some, string_eq, suc, true, ℕ, ◌&&◌, ◌+◌, ◌==◌, ◌∙◌, ◌∷◌, ◌≡◌, ◌≢◌, ◌≤◌,
}
use ranch.Bus.Channel.{
  Channel, Dispatch, Handler, claim, dispatch_context, is_spent, prune_fired_run_once_handlers,
  schedule, select,
}

abbrev flag : ℕ → List ℕ → ℕ
flag a fired = if any (λ x. x == a) fired then 1 else 0

-- A run-once handler at this address.
abbrev pub is_once_at : ℕ → Handler → Bool
is_once_at a h = h.run_once && h.address == a

any_same : (a b : ℕ) (fired : List ℕ) → a ≡ b → any (λ x. x == a) fired ≡ any (λ x. x == b) fired
any_same a b fired e = rw e refl

claims_balance :
    (a : ℕ) (done : ℕ → Bool) (visits : List Handler) (fired : List ℕ)
    → count_if (is_once_at a) (select done visits fired).0 + flag a fired
      ≡ flag a (select done visits fired).2
unfolding select
claims_balance a done [] fired = omega arith
claims_balance a done (h ∷ hs) fired = ground (
  arith,
  claims_balance a (λ n. done (suc n)) hs fired,
  claims_balance a (λ n. done (suc n)) hs (h.address ∷ fired),
  nat_beq_iff h.address a,
  any_same h.address a fired,
)

-- Any interleaving of any number of dispatches visits handlers in some order; over all of them
-- a run-once handler is scheduled at most once, and not at all if its flag was set before.
pub run_once_at_most_once :
    (a : ℕ) (visits : List Handler) (fired : List ℕ)
    → (count_if (is_once_at a) (select (λ _. false) visits fired).0 ≤ 1)
      × (any (λ x. x == a) fired ≡ true
          → count_if (is_once_at a) (select (λ _. false) visits fired).0 ≡ 0)
run_once_at_most_once a visits fired =
    let balance = claims_balance a (λ _. false) visits fired in (ground arith, λ h. ground arith)

-- No two handlers are at one address.
abbrev pub AllDistinct : List Handler → Type 0
AllDistinct [] = Unit
AllDistinct (h ∷ hs) = All (λ x. x.address ≢ h.address) hs × AllDistinct hs

keep-spent_cons :
    (a : ℕ) (fired : List ℕ) (hs : List Handler)
    → All (λ x. x.address ≢ a) hs
    → keep (λ h. not (is_spent (a ∷ fired) h)) hs ≡ keep (λ h. not (is_spent fired h)) hs
unfolding is_spent
keep-spent_cons a fired [] h = refl
keep-spent_cons a fired (x ∷ hs) h =
    ground (arith, keep-spent_cons a fired hs h.1, nat_beq_iff a x.address, h.0)

select-scheduled :
    (hs : List Handler) (fired : List ℕ)
    → AllDistinct hs
    → (select (λ _. false) hs fired).0 ≡ keep (λ h. not (is_spent fired h)) hs
unfolding select is_spent
select-scheduled [] fired d = refl
select-scheduled (h ∷ hs) fired d = ground (
  arith,
  select-scheduled hs fired d.1,
  select-scheduled hs (h.address ∷ fired) d.1,
  keep-spent_cons h.address fired hs d.0,
)

flag_grows :
    (a : ℕ) (done : ℕ → Bool) (visits : List Handler) (fired : List ℕ)
    → any (λ x. x == a) fired ≡ true
    → any (λ x. x == a) (select done visits fired).2 ≡ true
flag_grows a done visits fired h = ground (arith, claims_balance a done visits fired)

claim_flag :
    (h : Handler) (fired : List ℕ)
    → h.run_once ≡ true
    → any (λ x. x == h.address) (claim h fired).1 ≡ true
unfolding claim
claim_flag h fired once = ground (arith, nat_beq_iff h.address h.address)

spent_once :
    (h : Handler) (fired : List ℕ)
    → (h.run_once ≡ true → any (λ x. x == h.address) fired ≡ true)
    → is_spent fired h ≡ h.run_once
unfolding is_spent
spent_once h fired f = ground (arith, f)

-- After a full dispatch every run-once handler that it visited has its flag set.
select-fires :
    (hs : List Handler) (fired : List ℕ)
    → All (λ h. is_spent (select (λ _. false) hs fired).2 h ≡ h.run_once) hs
unfolding select is_spent
select-fires [] fired = tt
select-fires (h ∷ hs) fired = (
  spent_once h _ (λ once. flag_grows h.address (λ _. false) hs _ (claim_flag h fired once)),
  select-fires hs (claim h fired).1,
)

keep-cong :
    (p q : Handler → Bool) (hs : List Handler)
    → All (λ h. p h ≡ q h) hs
    → keep (λ h. not (p h)) hs ≡ keep (λ h. not (q h)) hs
keep-cong p q [] a = refl
keep-cong p q (h ∷ hs) a = ground (arith, a.0, keep-cong p q hs a.1)

any-cong :
    (p q : Handler → Bool) (hs : List Handler) → All (λ h. p h ≡ q h) hs → any p hs ≡ any q hs
any-cong p q [] a = refl
any-cong p q (h ∷ hs) a = ground (arith, a.0, any-cong p q hs a.1)

keep_all :
    (p : Handler → Bool) (hs : List Handler) → any p hs ≡ false → keep (λ h. not (p h)) hs ≡ hs
keep_all p [] a = refl
keep_all p (h ∷ hs) a = ground (arith, keep_all p hs)

select-prune :
    (hs : List Handler) (fired : List ℕ)
    → (select (λ _. false) hs fired).1 ≡ any (λ h. h.run_once) hs
unfolding select
select-prune [] fired = refl
select-prune (h ∷ hs) fired =
    ground (arith, select-prune hs fired, select-prune hs (h.address ∷ fired))

abbrev pub scheduled : Option Dispatch → List Handler
scheduled none = []
scheduled (some d) = d.handlers

schedule_lem :
    (hs : List Handler) (c : Channel)
    → ((schedule hs c).0.event_handlers ≡ c.event_handlers) × (scheduled (schedule hs c).1 ≡ hs)
unfolding schedule
schedule_lem [] c = (refl, refl)
schedule_lem (h ∷ hs) c = (refl, refl)

pruned : Channel → Bool → List ℕ → Channel
pruned c prune fired =
    let c' = record c { fired = fired } in if prune then prune_fired_run_once_handlers c' else c'

pruned_lem :
    (c : Channel) (fired : List ℕ)
    → All (λ h. is_spent fired h ≡ h.run_once) c.event_handlers
    → (pruned c (any (λ h. h.run_once) c.event_handlers) fired).event_handlers
      ≡ keep (λ h. not h.run_once) c.event_handlers
unfolding pruned prune_fired_run_once_handlers
pruned_lem c fired a = ground (
  arith,
  keep-cong (is_spent fired) (λ h. h.run_once) c.event_handlers a,
  any-cong (is_spent fired) (λ h. h.run_once) c.event_handlers a,
  keep_all (λ h. h.run_once) c.event_handlers,
)

-- A dispatch that is not cancelled schedules, in the order of subscription, the handlers that are not spent, and leaves the channel with exactly the handlers that are not run-once.
pub dispatch_context_lem :
    (c : Channel)
    → AllDistinct c.event_handlers
    → (scheduled (dispatch_context (λ _. false) c).1
        ≡ keep (λ h. not (is_spent c.fired h)) c.event_handlers)
      × ((dispatch_context (λ _. false) c).0.event_handlers
          ≡ keep (λ h. not h.run_once) c.event_handlers)
dispatch_context_lem c d =
    let (handlers, who) = schedule_lem (select (λ _. false) c.event_handlers c.fired).0 (
      pruned c (select (λ _. false) c.event_handlers c.fired).1
        (select (λ _. false) c.event_handlers c.fired).2) in
    (
      unfold dispatch_context pruned in (who ∙ select-scheduled c.event_handlers c.fired d),
      unfold dispatch_context pruned in
          (handlers
            ∙ ap (λ b. (pruned c b (select (λ _. false) c.event_handlers c.fired).2).event_handlers)
                (select-prune c.event_handlers c.fired)
            ∙ pruned_lem c _ (select-fires c.event_handlers c.fired)),
    )

cancelled : (hs : List Handler) (fired : List ℕ) → select (λ _. true) hs fired ≡ ([], false, fired)
unfolding select
cancelled [] fired = refl
cancelled (h ∷ hs) fired = refl

-- A dispatch whose context is done from the start does nothing.
pub dispatch_context_cancelled : (c : Channel) → dispatch_context (λ _. true) c ≡ (c, none)
unfolding dispatch_context
dispatch_context_cancelled c = rw (cancelled c.event_handlers c.fired, schedule)
