-- ===== src/RateLimit/Buckets.antt =====
-- plank/pkg/ratelimit/limiter.go: no two keys share a bucket, and what a request does to the buckets.
use ranch.Prelude.{
  Bool, Bool-cases, Option-cases, String, ap, arith, false, inl, inr, nat_eq, none, not, refl, some,
  string_eq, subst, sym, true, ℕ, ◌+◌, ◌<◌, ◌==◌, ◌∙◌, ◌≡◌, ◌≢◌, ◌⊎◌,
}
use ranch.Prelude.Dict.{Dict, get, get-put, put}
use ranch.RateLimit.{
  Limiter, RateApi, Visitor, allow_key, bucket_at, create_visitor, get_or_create_limiter,
  new_bucket,
}
use ranch.RateLimit.Visitors.{created, is_other, kept}

true_of_not : (b : Bool) → not b ≡ false → b ≡ true
true_of_not true h = refl
true_of_not false h = cc

-- Each visitor has a bucket that has been made, and no other visitor has the same.
pub record IsAllotted (visitors : Dict String Visitor) (next : ℕ) : Type 0 where
  pub below : (key : String) (v : Visitor) → get key visitors ≡ some v → v.limiter < next
  pub apart :
      (j k : String) (v w : Visitor)
      → get j visitors ≡ some v
      → get k visitors ≡ some w
      → v.limiter ≡ w.limiter
      → j ≡ k

-- What is under a key after a write.
written :
    (key j : String) (v w : Visitor) (visitors : Dict String Visitor)
    → get j (put key v visitors) ≡ some w
    → ((key ≡ j) × (v ≡ w)) ⊎ (get j visitors ≡ some w)
written key j v w visitors h =
    let at = sym (get-put key j v visitors) ∙ h in
    elim (Bool-cases (key == j)) [
      | inl same ↦ inl ((string_eq.beq_iff key j).0 same, ground (arith, at, same))
      | inr other ↦ inr (ground (arith, at, other))
    ]

put-IsAllotted :
    (key tier : String) (now next : ℕ) (visitors : Dict String Visitor)
    → IsAllotted visitors next
    → IsAllotted
        (put key (record { limiter = next; tier = tier; last_seen = now }) visitors)
        (next + 1)
put-IsAllotted key tier now next visitors h =
    let new : Visitor = record { limiter = next; tier = tier; last_seen = now } in
    record {
      below = λ j w at. elim (written key j new w visitors at) [
        | inl (same, is_new) ↦
            let limiter : next ≡ w.limiter = ap (λ (v : Visitor). v.limiter) is_new in omega arith
        | inr old ↦ omega (arith, h.below j w old)
      ];
      apart = λ i j v w at_i at_j same_limiter. elim (written key i new v visitors at_i) [
        | inl (here, is_new) ↦ elim (written key j new w visitors at_j) [
          | inl (there, is_new') ↦ sym here ∙ there
          | inr old ↦
              let limiter : next ≡ v.limiter = ap (λ (u : Visitor). u.limiter) is_new in
              absurd (omega (arith, h.below j w old))
        ]
        | inr old ↦ elim (written key j new w visitors at_j) [
          | inl (there, is_new) ↦
              let limiter : next ≡ w.limiter = ap (λ (u : Visitor). u.limiter) is_new in
              absurd (omega (arith, h.below i v old))
          | inr old' ↦ h.apart i j v w old old' same_limiter
        ]
      ];
    }

-- What a request of a key leaves of the visitor and the bucket of another key.
abbrev pub Untouched : {L : Type 0} → String → Limiter L → Limiter L → Type 0
Untouched key before after =
    (j : String) (w : Visitor)
    → (key == j) ≡ false
    → get j before.visitors ≡ some w
    → (get j after.visitors ≡ some w)
      × (get w.limiter after.limiters ≡ get w.limiter before.limiters)

elsewhere :
    {L : Type 0} (address other : ℕ) (b : L) (limiters : Dict ℕ L)
    → address ≢ other
    → get other (put address b limiters) ≡ get other limiters
elsewhere address other b limiters differs =
    rw (get-put address other b limiters) (elim (Bool-cases (address == other)) [
      | inl same ↦ absurd (differs ((nat_eq.beq_iff address other).0 same))
      | inr apart ↦ rw apart refl
    ])

module _ {L : Type 0} (api : RateApi L) (now : ℕ) (key key_type : String) (l : Limiter L)
    (allotted : IsAllotted l.visitors l.next) where
  abbrev tier : String
  tier = l.config.tier_resolver key key_type

  abbrev full : L
  full = api.new_limiter (l.config.tiers tier).rate (l.config.tiers tier).burst

  -- The rest of a request, from the bucket that it is given: the limiter and the decision.
  abbrev decided : Limiter L × ℕ → Limiter L × Bool
  decided found =
      let used = api.allow now (bucket_at found.1 full found.0.limiters) in
      (record found.0 { limiters = put found.1 used.0 found.0.limiters }, used.1)

  allow_key-decided :
      ((allow_key api now (key, key_type) l).0
        ≡ (decided (get_or_create_limiter api now key tier l)).0)
      × ((allow_key api now (key, key_type) l).1
          ≡ (decided (get_or_create_limiter api now key tier l)).1)
  unfolding allow_key
  allow_key-decided = (refl, refl)

  abbrev IsFair : Limiter L × Bool → Type 0
  IsFair done =
      IsAllotted done.0.visitors done.0.next
      × Untouched key l done.0
      × (is_other tier (get key l.visitors) ≡ true → done.1 ≡ (api.allow now full).1)

  known :
      (v : Visitor) → get key l.visitors ≡ some v → v.tier ≡ tier → IsFair (decided (l, v.limiter))
  known v there same = (
    allotted,
    λ j w other at. (
      at,
      elsewhere v.limiter w.limiter _ l.limiters (λ shared.
          let key_is : key ≡ j = allotted.apart key j v w there at shared in
          let equal : (key == j) ≡ true = (string_eq.beq_iff key j).1 key_is in cc),
    ),
    λ other.
        let same_tier : (v.tier == tier) ≡ true = (string_eq.beq_iff v.tier tier).1 same in
        let is_same : is_other tier (get key l.visitors) ≡ false =
          ap (is_other tier) there ∙ ap not same_tier in
        cc,
  )

  fresh : IsFair (decided (create_visitor api now key tier l))
  unfolding create_visitor new_bucket
  fresh = (
    put-IsAllotted key tier now l.next l.visitors allotted,
    λ j w other at.
        let differs : l.next ≢ w.limiter =
          λ shared. absurd (omega (arith, allotted.below j w at)) in
        (
          get-put key j (record { limiter = l.next; tier = tier; last_seen = now }) l.visitors
              ∙ rw other at,
          elsewhere l.next w.limiter _ (put l.next full l.limiters) differs
              ∙ elsewhere l.next w.limiter full l.limiters differs,
        ),
    λ other.
        let self : (l.next == l.next) ≡ true = (nat_eq.beq_iff l.next l.next).1 refl in
        let made : get l.next (put l.next full l.limiters) ≡ some full =
          get-put l.next l.next full l.limiters ∙ rw self refl in
        ap (λ b. (api.allow now (elim b [ none ↦ full | some u ↦ u ])).1) made,
  )

  decided-IsFair : IsFair (decided (get_or_create_limiter api now key tier l))
  decided-IsFair = elim (Bool-cases (is_other tier (get key l.visitors))) [
    | inl other ↦
        subst (λ found. IsFair (decided found)) (sym (created api now key tier l other)) fresh
    | inr same ↦ elim (Option-cases (get key l.visitors)) [
      | inl missing ↦
          let is_new : is_other tier (get key l.visitors) ≡ true = ap (is_other tier) missing in cc
      | inr (v, there) ↦
          let same_tier : v.tier ≡ tier =
            (string_eq.beq_iff v.tier tier).0
              (true_of_not (v.tier == tier) (sym (ap (is_other tier) there) ∙ same)) in
          subst (λ found. IsFair (decided found)) (sym (kept api now key tier l v there same_tier))
            (known v there same_tier)
    ]
  ]

  -- Where each visitor has a bucket that has been made, which no other visitor has, this stays so after a request of any key. The request leaves the visitors and the buckets of all other keys as they are; and when the key has no visitor, or one of another tier than it has now, the request is decided by a full bucket of the rate and the burst of its tier.
  pub allow_key_lem :
      IsAllotted
        (allow_key api now (key, key_type) l).0.visitors
        (allow_key api now (key, key_type) l).0.next
      × Untouched key l (allow_key api now (key, key_type) l).0
      × (is_other (l.config.tier_resolver key key_type) (get key l.visitors) ≡ true
          → (allow_key api now (key, key_type) l).1
            ≡ (api.allow now (
                api.new_limiter
                  (l.config.tiers (l.config.tier_resolver key key_type)).rate
                  (l.config.tiers (l.config.tier_resolver key key_type)).burst)).1)
  allow_key_lem =
      let (same, same_decision) = allow_key-decided in
      let fair = decided-IsFair in
      (
        subst (λ (after : Limiter L). IsAllotted after.visitors after.next) (sym same) fair.0,
        subst (λ (after : Limiter L). Untouched key l after) (sym same) fair.1,
        λ other. same_decision ∙ fair.2 other,
      )
