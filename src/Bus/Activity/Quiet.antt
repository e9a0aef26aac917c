-- ===== src/Bus/Activity/Quiet.antt =====
-- bus/channel.go, channelActivity: the bookkeeping of dispatches and what the wait promises.
use ranch.Prelude.{
  All, Bool, Bool-cases, List, Option, Option-cases, [], any, arith, eqb_refl, false, inl, inr, leb,
  ltb, nat_beq_iff, nat_eq, none, refl, some, string_eq, subst, suc, true, zero, ℕ, ◌%◌, ◌&&◌, ◌++◌,
  ◌+◌, ◌<◌, ◌==◌, ◌^◌, ◌∷◌, ◌≡◌, ◌≢◌, ◌≤◌, ◌⊎◌,
}
use ranch.Prelude.Dict.{Dict, dict_laws, get, get-delete, get-put}
use ranch.Bus.Activity.{
  ChannelActivity, Poll, Wake, begin, finish, has_outstanding_after_locked, new_channel_activity,
  out_of_fuel, poll, resume, returned, wait_from, wait_quiescent_after, waiting,
}

-- Every dispatch that still runs has a number that the counter has passed.
pub record IsValid (a : ChannelActivity) : Type 0 where
  pub counted : (n : ℕ) → get n a.outstanding ≢ none → n ≤ a.next

pub new_channel_activity-IsValid : IsValid new_channel_activity
unfolding new_channel_activity get
new_channel_activity-IsValid = record { counted = λ n h. absurd (h refl) }

pub begin-IsValid : (a : ChannelActivity) → a.next + 1 < 2 ^ 64 → IsValid a → IsValid (begin a).0
unfolding begin
begin-IsValid a room v = record {
  counted =
      λ n h. ground (arith, v.counted n, get-put ((a.next + 1) % 2 ^ 64) n (tt {0}) a.outstanding);
}

pub finish-IsValid : (a : ChannelActivity) (seq : ℕ) → IsValid a → IsValid (finish seq a)
unfolding finish
finish-IsValid a seq v = record {
  counted = λ n h. ground (arith, v.counted n, get-delete seq n a.outstanding);
}

none_of_beyond : (a : ChannelActivity) (n : ℕ) → IsValid a → a.next < n → get n a.outstanding ≡ none
none_of_beyond a n v h = elim (Option-cases (get n a.outstanding)) [
  | inl e ↦ e
  | inr (u, e) ↦ absurd (let le : n ≤ a.next = v.counted n (λ z. cc) in omega arith)
]

begun : (a : ChannelActivity) → a.next + 1 < 2 ^ 64 → (begin a).1 ≡ a.next + 1
unfolding begin
begun a room = omega arith

-- A dispatch gets a number that no running dispatch has, as long as the counter has not wrapped; when it ends, the running dispatches are those that there were before it began.
pub begin-finish :
    (a : ChannelActivity)
    → a.next + 1 < 2 ^ 64
    → IsValid a
    → (get (begin a).1 a.outstanding ≡ none)
      × (get (begin a).1 (begin a).0.outstanding ≡ some tt)
      × ((n : ℕ) → get n (finish (begin a).1 (begin a).0).outstanding ≡ get n a.outstanding)
begin-finish a room v = (free, started, restored)
  where
    free : get (begin a).1 a.outstanding ≡ none
    free = none_of_beyond a _ v (rw (begun a room) (omega arith))

    started : get (begin a).1 (begin a).0.outstanding ≡ some tt
    started = unfold begin in simp (dict_laws, eqb_refl)

    restored : (n : ℕ) → get n (finish (begin a).1 (begin a).0).outstanding ≡ get n a.outstanding
    restored n = elim (Bool-cases ((begin a).1 == n)) [
      | inl e ↦
          unfold begin finish in
          ground (
            arith,
            free,
            nat_beq_iff (begin a).1 n,
            get-delete (begin a).1 n (begin a).0.outstanding,
          )
      | inr e ↦
          unfold begin finish in
          ground (
            arith,
            nat_beq_iff (begin a).1 n,
            get-delete (begin a).1 n (begin a).0.outstanding,
            get-put (begin a).1 n (tt {0}) a.outstanding,
          )
    ]

none_outstanding :
    (start target n : ℕ) (m : Dict ℕ (Unit {0}))
    → any (λ entry. ltb start entry.0 && leb entry.0 target) m ≡ false
    → start < n
    → n ≤ target
    → get n m ≡ none
unfolding get
none_outstanding start target n [] h lo hi = refl
none_outstanding start target n ((k, u) ∷ m) h lo hi =
    ground (arith, none_outstanding start target n m)

poll_quiet :
    {E : Type 0} (fuel start target : ℕ) (err : ℕ → Option E) (a : ChannelActivity)
    → poll fuel start target err a ≡ returned none
    → has_outstanding_after_locked a start a.next ≡ false
unfolding poll
poll_quiet zero start target err a h = cc
poll_quiet (suc fuel) start target err a h =
    ground (arith, poll_quiet fuel start a.next (λ n. err (suc n)) a)

poll_ends :
    {E : Type 0} (start target : ℕ) (err : ℕ → Option E) (a : ChannelActivity)
    → poll 2 start target err a ≢ out_of_fuel
unfolding poll
poll_ends start target err a h = ground arith

resumed :
    {E : Type 0} (r : Poll E) (b : ChannelActivity) (rest : ℕ → Option (Option E × ChannelActivity))
    (a : ChannelActivity)
    → resume r b rest ≡ some (none, a)
    → ((r ≡ returned none) × (b ≡ a)) ⊎ ((t : ℕ) × (rest t ≡ some (none, a)))
resumed (returned none) b rest a h = inl (refl, ground arith)
resumed (returned (some e)) b rest a h = absurd (ground arith)
resumed (waiting t) b rest a h = inr (t, h)
resumed out_of_fuel b rest a h = cc

wait_from_quiet :
    {E : Type 0} (start : ℕ) (ws : List (Wake E)) (target : ℕ) (a : ChannelActivity)
    → wait_from start ws target ≡ some (none, a)
    → All (λ w. IsValid w.activity) ws
    → (has_outstanding_after_locked a start a.next ≡ false) × IsValid a
unfolding wait_from
wait_from_quiet start [] target a h vs = cc
wait_from_quiet start (w ∷ ws) target a h vs =
    elim (resumed (poll 2 start target w.err w.activity) w.activity (wait_from start ws) a h) [
      | inl (e, same) ↦
          subst (λ b. (has_outstanding_after_locked b start b.next ≡ false) × IsValid b) same
            (poll_quiet 2 start target w.err w.activity e, vs.0)
      | inr (t, e) ↦ wait_from_quiet start ws t a e vs.1
    ]

-- When the wait returns with no error, no dispatch that began after the watermark still runs.
-- Whatever else began and ended while it waited, each activity that it saw being valid.
pub wait_quiescent_after-quiet :
    {E : Type 0} (start : ℕ) (ws : List (Wake E)) (a : ChannelActivity)
    → wait_quiescent_after start ws ≡ some (none, a)
    → All (λ w. IsValid w.activity) ws
    → (n : ℕ) → start < n
    → get n a.outstanding ≡ none
unfolding wait_quiescent_after
wait_quiescent_after-quiet start [] a h vs n lt = cc
wait_quiescent_after-quiet start (w ∷ ws) a h vs n lt =
    let (quiet, v) = wait_from_quiet start (w ∷ ws) w.activity.next a h vs in
    elim (Bool-cases (leb n a.next)) [
      | inl le ↦
          unfold has_outstanding_after_locked in
          none_outstanding start a.next n a.outstanding quiet lt (ground arith)
      | inr gt ↦ none_of_beyond a n v (ground arith)
    ]

none_counted :
    (start target : ℕ) (m : Dict ℕ (Unit {0}))
    → ((n : ℕ) → start < n → get n m ≡ none)
    → any (λ entry. ltb start entry.0 && leb entry.0 target) m ≡ false
unfolding get
none_counted start target [] h = refl
none_counted start target ((k, u) ∷ m) h = elim (Bool-cases (ltb start k)) [
  | inl lt ↦
      absurd
        (let at : get k ((k, u) ∷ m) ≡ none = h k (ground arith) in ground (arith, nat_beq_iff k k))
  | inr le ↦ ground (arith, none_counted start target m (λ n lt. ground (arith, h n lt)))
]

abbrev is_returned : {E : Type 0} → Poll E → Bool
is_returned (returned r) = true
is_returned (waiting t) = false
is_returned out_of_fuel = false

poll_returns :
    {E : Type 0} (start target : ℕ) (err : ℕ → Option E) (a : ChannelActivity)
    → ((n : ℕ) → start < n → get n a.outstanding ≡ none)
    → is_returned (poll 2 start target err a) ≡ true
unfolding poll has_outstanding_after_locked
poll_returns start target err a h =
    ground
      (arith, none_counted start target a.outstanding h, none_counted start a.next a.outstanding h)

resume_returns :
    {E : Type 0} (r : Poll E) (b : ChannelActivity) (rest : ℕ → Option (Option E × ChannelActivity))
    → is_returned r ≡ true
    → (x : Option E × ChannelActivity) × (resume r b rest ≡ some x)
resume_returns (returned e) b rest h = ((e, b), refl)
resume_returns (waiting t) b rest h = cc
resume_returns out_of_fuel b rest h = cc

resume_goes_on :
    {E : Type 0} (r : Poll E) (b : ChannelActivity) (rest : ℕ → Option (Option E × ChannelActivity))
    → r ≢ out_of_fuel
    → ((t : ℕ) → (x : Option E × ChannelActivity) × (rest t ≡ some x))
    → (x : Option E × ChannelActivity) × (resume r b rest ≡ some x)
resume_goes_on (returned e) b rest fuelled h = ((e, b), refl)
resume_goes_on (waiting t) b rest fuelled h = h t
resume_goes_on out_of_fuel b rest fuelled h = absurd (fuelled refl)

wait_from_returns :
    {E : Type 0} (start : ℕ) (ws : List (Wake E)) (w : Wake E) (target : ℕ)
    → ((n : ℕ) → start < n → get n w.activity.outstanding ≡ none)
    → (x : Option E × ChannelActivity) × (wait_from start (ws ++ w ∷ []) target ≡ some x)
unfolding wait_from
wait_from_returns start [] w target h =
    resume_returns _ _ _ (poll_returns start target w.err w.activity h)
wait_from_returns start (v ∷ ws) w target h =
    resume_goes_on _ _ _ (poll_ends start target v.err v.activity)
      (λ t. wait_from_returns start ws w t h)

-- A wait that is woken when nothing that began after the watermark runs has returned by then,
-- whatever it was woken for before and whatever the context says.
pub wait_quiescent_after-returns :
    {E : Type 0} (start : ℕ) (ws : List (Wake E)) (w : Wake E)
    → ((n : ℕ) → start < n → get n w.activity.outstanding ≡ none)
    → (x : Option E × ChannelActivity) × (wait_quiescent_after start (ws ++ w ∷ []) ≡ some x)
unfolding wait_quiescent_after
wait_quiescent_after-returns start [] w h = wait_from_returns start [] w w.activity.next h
wait_quiescent_after-returns start (v ∷ ws) w h =
    wait_from_returns start (v ∷ ws) w v.activity.next h
