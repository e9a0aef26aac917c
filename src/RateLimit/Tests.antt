-- ===== src/RateLimit/Tests.antt =====
-- Runs of a limiter at fixed inputs, with a bucket that is a count of tokens and is never refilled.
use ranch.RateLimit.Buckets.{IsAllotted, Untouched, allow_key_lem}
use ranch.Prelude.{
  List, String, [], arith, if◌then◌else◌, ltb, nat_eq, none, refl, some, string_eq, true, ℕ, ◌*◌,
  ◌+◌, ◌-◌, ◌∷◌, ◌≡◌,
}
use ranch.Prelude.Dict.{get}
use ranch.Prelude.Maps.{IsMap}
use ranch.RateLimit.{Limiter, RateApi, Visitor, allow_key, cleanup}
use ranch.RateLimit.Visitors.{cleanup-requests, is_other, requests}

abbrev counted : RateApi ℕ
counted = record {
  new_limiter = λ rate burst. burst;
  allow = λ now b. (b - 1, ltb 0 b);
  tokens = λ now b. b;
}

-- A visitor "a" of the tier "unauth", made at 100; the interval is 300.
abbrev visitor : Visitor
visitor = record { limiter = 0; tier = "unauth"; last_seen = 100 }

abbrev limiter_one : Limiter ℕ
limiter_one = record {
  config = record {
    tiers = λ tier. record { rate = 1; burst = 10 };
    tier_resolver = λ key key_type. "unauth";
    cleanup_interval = 300;
  };
  visitors = ("a", visitor) ∷ [];
  limiters = (0, 4) ∷ [];
  next = 1;
}

found : get "a" limiter_one.visitors ≡ some visitor
unfolding get
found = refl

once : IsMap limiter_one.visitors
unfolding get
once = (refl, tt)

one-IsAllotted : IsAllotted limiter_one.visitors limiter_one.next
unfolding get
one-IsAllotted = record {
  below = λ key v at. ground (arith, at);
  apart = λ j k v w at_j at_k same.
      ground (arith, at_j, at_k, string_eq.beq_iff "a" j, string_eq.beq_iff "a" k);
}

abbrev other_key : String
other_key = "b"

-- A new key: the other visitor keeps its bucket, and the decision is that of a full one.
allow_key_lem_example :
    IsAllotted
      (allow_key counted 500 (other_key, "ip") limiter_one).0.visitors
      (allow_key counted 500 (other_key, "ip") limiter_one).0.next
    × Untouched other_key limiter_one (allow_key counted 500 (other_key, "ip") limiter_one).0
    × (is_other "unauth" (get other_key limiter_one.visitors) ≡ true
        → (allow_key counted 500 (other_key, "ip") limiter_one).1
          ≡ (counted.allow 500 (counted.new_limiter 1 10)).1)
allow_key_lem_example = allow_key_lem counted 500 other_key "ip" limiter_one one-IsAllotted

abbrev recent : List ℕ
recent = 650 ∷ 699 ∷ 701 ∷ []

abbrev bound : ℕ
bound = visitor.last_seen + 2 * limiter_one.config.cleanup_interval

-- The visitor made its last request at 701 and is taken away at 702.
cleanup-requests_example :
    get "a" (cleanup 702 (requests counted "a" "unauth" recent limiter_one)).visitors
    ≡ (if ltb bound 702 then none else some visitor)
cleanup-requests_example =
    cleanup-requests counted "a" "unauth" recent 702 limiter_one visitor once found refl
