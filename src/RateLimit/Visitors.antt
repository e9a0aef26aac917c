-- ===== src/RateLimit/Visitors.antt =====
-- plank/pkg/ratelimit/limiter.go: which bucket a visitor has, and what the clean-up takes away.
use ranch.Prelude.{
  Bool, Bool-cases, List, Option, Option-cases, String, [], arith, false, if◌then◌else◌, inl, inr,
  ltb, nat_eq, none, not, refl, some, string_eq, subst, true, ℕ, ◌*◌, ◌+◌, ◌==◌, ◌∷◌, ◌≡◌,
}
use ranch.Prelude.Dict.{Dict, get}
use ranch.Prelude.Maps.{IsMap}
use ranch.RateLimit.{
  Limiter, RateApi, Visitor, cleanup, create_visitor, get_or_create_limiter, is_stale, remove_stale,
}

pub kept :
    {L : Type 0} (api : RateApi L) (now : ℕ) (key tier : String) (l : Limiter L) (v : Visitor)
    → get key l.visitors ≡ some v
    → v.tier ≡ tier
    → get_or_create_limiter api now key tier l ≡ (l, v.limiter)
unfolding get_or_create_limiter
kept api now key tier l v there same =
    rw (there, get_or_create_limiter) (rw ((string_eq.beq_iff v.tier tier).1 same) refl)

-- A visitor of another tier, or none
abbrev pub is_other : String → Option Visitor → Bool
is_other tier none = true
is_other tier (some v) = not (v.tier == tier)

pub created :
    {L : Type 0} (api : RateApi L) (now : ℕ) (key tier : String) (l : Limiter L)
    → is_other tier (get key l.visitors) ≡ true
    → get_or_create_limiter api now key tier l ≡ create_visitor api now key tier l
unfolding get_or_create_limiter
created api now key tier l other = elim (Option-cases (get key l.visitors)) [
  | inl missing ↦ rw (missing, get_or_create_limiter) refl
  | inr (v, there) ↦
      let differs : (v.tier == tier) ≡ false = ground (arith, there, other) in
      rw (there, get_or_create_limiter) (rw differs refl)
]

remove_stale_free :
    (interval now : ℕ) (key : String) (m : Dict String Visitor)
    → get key m ≡ none
    → get key (remove_stale interval now m) ≡ none
unfolding get remove_stale
remove_stale_free interval now key [] free = refl
remove_stale_free interval now key ((j, v) ∷ m) free =
    ground (arith, remove_stale_free interval now key m)

abbrev pub unless_stale : ℕ → ℕ → Option Visitor → Option Visitor
unless_stale interval now none = none
unless_stale interval now (some v) = if is_stale interval now v then none else some v

get-remove_stale :
    (interval now : ℕ) (key : String) (m : Dict String Visitor)
    → IsMap m
    → get key (remove_stale interval now m) ≡ unless_stale interval now (get key m)
unfolding get remove_stale
get-remove_stale interval now key [] valid = refl
get-remove_stale interval now key ((j, v) ∷ m) valid =
    let rest = get-remove_stale interval now key m valid.1 in
    elim (Bool-cases (j == key)) [
      | inl same ↦
          let free : get key m ≡ none =
            subst (λ k. get k m ≡ none) ((string_eq.beq_iff j key).0 same) valid.0 in
          let gone = remove_stale_free interval now key m free in
          elim (Bool-cases (is_stale interval now v)) [
            | inl old ↦ rw (same, old) gone
            | inr young ↦ rw (same, young) (rw (same) refl)
          ]
      | inr other ↦ elim (Bool-cases (is_stale interval now v)) [
        | inl old ↦ rw (old, other) rest
        | inr young ↦ rw (young, other) rest
      ]
    ]

-- Requests for a key, all of its tier, at the times given.
abbrev pub requests : {L : Type 0} → RateApi L → String → String → List ℕ → Limiter L → Limiter L
requests api key tier [] l = l
requests api key tier (now ∷ times) l =
    requests api key tier times (get_or_create_limiter api now key tier l).0

requests_kept :
    {L : Type 0} (api : RateApi L) (key tier : String) (times : List ℕ) (l : Limiter L)
    (v : Visitor)
    → get key l.visitors ≡ some v
    → v.tier ≡ tier
    → requests api key tier times l ≡ l
requests_kept api key tier [] l v there same = refl
requests_kept api key tier (now ∷ times) l v there same =
    rw (kept api now key tier l v there same) (requests_kept api key tier times l v there same)

-- The clean-up goes by the time at which a visitor was made: whatever requests of its tier a visitor makes in between, and however late, it is taken away when that time is more than two clean-up intervals ago, and kept otherwise.
pub cleanup-requests :
    {L : Type 0} (api : RateApi L) (key tier : String) (times : List ℕ) (now : ℕ) (l : Limiter L)
    (v : Visitor)
    → IsMap l.visitors
    → get key l.visitors ≡ some v
    → v.tier ≡ tier
    → get key (cleanup now (requests api key tier times l)).visitors
      ≡ (if ltb (v.last_seen + 2 * l.config.cleanup_interval) now then none else some v)
unfolding cleanup is_stale
cleanup-requests api key tier times now l v valid there same =
    rw (requests_kept api key tier times l v there same)
      (rw (get-remove_stale l.config.cleanup_interval now key l.visitors valid, there) refl)
