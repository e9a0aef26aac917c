-- ===== src/Bus/Activity.antt =====
-- bus/channel.go, channelActivity: which dispatches of a channel are still running, and the wait
-- of FireContext for those scheduled after a watermark. An error of a context is a value of `E`.
pub mod Quiet
use ranch.Prelude.{
  Bool, List, Option, [], any, false, leb, ltb, nat_eq, none, some, string_eq, suc, true, zero, ℕ,
  ◌%◌, ◌&&◌, ◌+◌, ◌==◌, ◌^◌, ◌∷◌,
}
use ranch.Prelude.Dict.{Dict, delete, put}

pub record ChannelActivity : Type 0 where
  pub next : ℕ  -- uint64
  pub outstanding : Dict ℕ (Unit {0})

unfoldable pub new_channel_activity : ChannelActivity
new_channel_activity = record { next = 0; outstanding = [] }

unfoldable pub watermark : ChannelActivity → ℕ
watermark activity = activity.next

-- The counter wraps as a uint64 does.
unfoldable pub begin : ChannelActivity → ChannelActivity × ℕ
begin activity =
    let seq = (activity.next + 1) % 2 ^ 64 in
    (record { next = seq; outstanding = put seq tt activity.outstanding }, seq)

unfoldable pub finish : ℕ → ChannelActivity → ChannelActivity
finish seq activity = record activity { outstanding = delete seq activity.outstanding }

unfoldable pub has_outstanding_after_locked : ChannelActivity → ℕ → ℕ → Bool
has_outstanding_after_locked activity start target =
    any (λ entry. ltb start entry.0 && leb entry.0 target) activity.outstanding

-- What the loops of waitQuiescentAfter come to while the lock is held: a return, with the error of
-- the context or nil, or a wait on the condition variable with the present target.
pub data Poll (E : Type 0) : Type 0 where
  returned : Option E → Poll E
  waiting : ℕ → Poll E
  out_of_fuel : Poll E

-- The rounds of the loops at one activity. `err n` is the answer of the n-th call of ctx.Err().
unfoldable pub poll : {E : Type 0} → ℕ → ℕ → ℕ → (ℕ → Option E) → ChannelActivity → Poll E
poll zero start target err activity = out_of_fuel
poll (suc fuel) start target err activity =
    elim (has_outstanding_after_locked activity start target) [
      | true ↦ elim (err 0) [ none ↦ waiting target | some e ↦ returned (some e) ]
      | false ↦ elim (err 0) [
        | some e ↦ returned (some e)
        | none ↦ elim (activity.next == target) [
          | true ↦ returned none
          | false ↦ poll fuel start activity.next (λ n. err (suc n)) activity
        ]
      ]
    ]

-- What a wait sees each time that it holds the lock: the activity, and the context's answers.
pub record Wake (E : Type 0) : Type 0 where
  pub activity : ChannelActivity
  pub err : ℕ → Option E

-- The wait over the activities at which it is woken. Two rounds are enough at each. The result
-- comes with the activity at which it returned; `none` means that it still waits.
abbrev pub resume :
    {E : Type 0}
    → Poll E
    → ChannelActivity
    → (ℕ → Option (Option E × ChannelActivity))
    → Option (Option E × ChannelActivity)
resume (returned r) activity rest = some (r, activity)
resume (waiting target) activity rest = rest target
resume out_of_fuel activity rest = none

unfoldable pub wait_from :
    {E : Type 0} → ℕ → List (Wake E) → ℕ → Option (Option E × ChannelActivity)
wait_from start [] target = none
wait_from start (w ∷ ws) target =
    resume (poll 2 start target w.err w.activity) w.activity (wait_from start ws)

-- The target of the first round is the counter at the first wake.
unfoldable pub wait_quiescent_after :
    {E : Type 0} → ℕ → List (Wake E) → Option (Option E × ChannelActivity)
unfolding wait_from
wait_quiescent_after start [] = none
wait_quiescent_after start (w ∷ ws) = wait_from start (w ∷ ws) w.activity.next
