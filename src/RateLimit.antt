-- ===== src/RateLimit.antt =====
-- plank/pkg/ratelimit/limiter.go: the visitors of a limiter, their buckets, and the clean-up. A bucket
-- of golang.org/x/time/rate is shared by pointer, so it is known by an address; the type of its state
-- and its operations are a parameter, and so are the functions of the configuration. Times
-- are numbers.
pub mod Visitors
pub mod Buckets
mod Tests
use ranch.Prelude.{
  Bool, Option, String, [], if◌then◌else◌, length, ltb, nat_eq, none, some, string_eq, ℕ, ◌*◌, ◌+◌,
  ◌==◌, ◌∷◌,
}
use ranch.Prelude.Dict.{Dict, get, put}

-- rate.NewLimiter, Limiter.Allow at a time, and the tokens that are left, as an int of at least 0.
pub record RateApi (L : Type 0) : Type 0 where
  pub new_limiter : ℕ → ℕ → L
  pub allow : ℕ → L → L × Bool
  pub tokens : ℕ → L → ℕ

pub record TierConfig : Type 0 where
  pub rate : ℕ
  pub burst : ℕ

pub record Visitor : Type 0 where
  pub limiter : ℕ
  pub tier : String
  pub last_seen : ℕ

-- A key and its type
abbrev pub Key : Type 0
Key = String × String

-- A request is what the functions of the configuration read of it: the key, if it can be extracted,
-- and the address of the client.
pub record Request : Type 0 where
  pub key : Option Key
  pub ip : String

-- Config, without the event handler and its threshold, which the HTTP middleware reads.
pub record RateConfig : Type 0 where
  pub tiers : String → TierConfig
  pub tier_resolver : String → String → String
  pub cleanup_interval : ℕ

pub record Limiter (L : Type 0) : Type 0 where
  pub config : RateConfig
  pub visitors : Dict String Visitor
  pub limiters : Dict ℕ L  -- the buckets by address
  pub next : ℕ  -- the next address

-- Event, without what it copies from the request and the clock.
pub record RateEvent : Type 0 where
  pub key : String
  pub key_type : String
  pub tier : String
  pub allowed : Bool
  pub remaining : ℕ
  pub limit : ℕ

unfoldable pub new_rate_limiter : {L : Type 0} → RateConfig → Limiter L
new_rate_limiter config = record { config = config; visitors = []; limiters = []; next = 0 }

-- A new bucket for a tier, with the limiter that knows it and its address
unfoldable pub new_bucket : {L : Type 0} → RateApi L → String → Limiter L → Limiter L
new_bucket api tier l =
    let settings = l.config.tiers tier in
    record l {
      limiters = put l.next (api.new_limiter settings.rate settings.burst) l.limiters;
      next = l.next + 1;
    }

-- The path without the read lock: the visitor is missing or of another tier.
unfoldable pub create_visitor :
    {L : Type 0} → RateApi L → ℕ → String → String → Limiter L → Limiter L × ℕ
create_visitor api now key tier l =
    let made = new_bucket api tier l in
    (
      record made {
        visitors = put key (record { limiter = l.next; tier = tier; last_seen = now }) l.visitors;
      },
      l.next,
    )

unfoldable pub get_or_create_limiter :
    {L : Type 0} → RateApi L → ℕ → String → String → Limiter L → Limiter L × ℕ
get_or_create_limiter api now key tier l = elim (get key l.visitors) [
  | none ↦ create_visitor api now key tier l
  | some v ↦ if v.tier == tier then (l, v.limiter) else create_visitor api now key tier l
]

-- The bucket at an address; a pointer that is kept always points to one.
abbrev pub bucket_at : {L : Type 0} → ℕ → L → Dict ℕ L → L
bucket_at address otherwise limiters = elim (get address limiters) [ none ↦ otherwise | some b ↦ b ]

unfoldable pub allow_key :
    {L : Type 0} → RateApi L → ℕ → Key → Limiter L → Limiter L × Bool × RateEvent
allow_key api now (key, key_type) l =
    let tier = l.config.tier_resolver key key_type in
    let settings = l.config.tiers tier in
    let found = get_or_create_limiter api now key tier l in
    let bucket =
      bucket_at found.1 (api.new_limiter settings.rate settings.burst) found.0.limiters in
    let used = api.allow now bucket in
    (
      record found.0 { limiters = put found.1 used.0 found.0.limiters },
      used.1,
      record {
        key = key;
        key_type = key_type;
        tier = tier;
        allowed = used.1;
        remaining = api.tokens now used.0;
        limit = settings.burst;
      },
    )

unfoldable pub allow :
    {L : Type 0} → RateApi L → ℕ → Request → Limiter L → Limiter L × Bool × RateEvent
allow api now r l = elim r.key [
  | none ↦ allow_key api now (r.ip, "ip") l
  | some key ↦ allow_key api now key l
]

-- lastSeen.Before(now - 2 * interval)
unfoldable pub is_stale : ℕ → ℕ → Visitor → Bool
is_stale interval now v = ltb (v.last_seen + 2 * interval) now

unfoldable pub remove_stale : ℕ → ℕ → Dict String Visitor → Dict String Visitor
remove_stale interval now [] = []
remove_stale interval now ((key, v) ∷ rest) =
    let kept = remove_stale interval now rest in
    if is_stale interval now v then kept else (key, v) ∷ kept

unfoldable pub cleanup : {L : Type 0} → ℕ → Limiter L → Limiter L
cleanup now l = record l { visitors = remove_stale l.config.cleanup_interval now l.visitors }

unfoldable pub visitor_count : {L : Type 0} → Limiter L → ℕ
visitor_count l = length l.visitors
