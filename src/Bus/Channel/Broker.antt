-- ===== src/Bus/Channel/Broker.antt =====
-- bus/channel.go: the broker subscriptions of a channel.
use ranch.Prelude.{
  Bool, List, Option, Option-cases, String, [], any, any-append, arith, count_if, count_if-append,
  count_if-remove_sub, false, find, if◌then◌else◌, index_of, inl, inr, ltb, map, nat_beq_iff,
  nat_eq, none, refl, remove_sub, some, string_eq, true, ℕ, ◌&&◌, ◌++◌, ◌+◌, ◌==◌, ◌∷◌, ◌≡◌, ◌≤◌,
}
use ranch.Bus.Channel.{Channel, ConnectionSub, new_channel}

-- The subscription of a connection to a destination.
abbrev pub is_for : ℕ → String → ConnectionSub → Bool
is_for conn destination cs = cs.destination == destination && cs.conn == conn

unfoldable pub is_broker_subscribed : ℕ → Channel → Bool
is_broker_subscribed sub c = any (λ cs. cs.sub == sub) c.broker_subs

unfoldable pub is_broker_subscribed_to_destination : ℕ → String → Channel → Bool
is_broker_subscribed_to_destination conn destination c = any (is_for conn destination) c.broker_subs

unfoldable pub add_broker_subscription_if_missing : ℕ → ℕ → String → Channel → Channel × Bool
add_broker_subscription_if_missing conn sub destination c =
    let conns =
      if any (λ b. b == conn) c.broker_conns then c.broker_conns else c.broker_conns ++ conn ∷ [] in
    let cs : ConnectionSub = record {
      conn = conn;
      sub = sub;
      destination = destination;
      stopped = false;
    } in
    if any (is_for conn destination) c.broker_subs
    then (c, false)
    else (record c { broker_conns = conns; broker_subs = c.broker_subs ++ cs ∷ [] }, true)

unfoldable pub stop_listening : ConnectionSub → ConnectionSub
stop_listening cs = record cs { stopped = true }

-- The first subscription with the id is stopped and removed; the result is what was stopped.
unfoldable pub remove_broker_subscription : ℕ → Channel → Channel × Option ConnectionSub
unfolding stop_listening
remove_broker_subscription sub c = elim (find (λ cs. cs.sub == sub) c.broker_subs) [
  | none ↦ (c, none)
  | some cs ↦ (
    record c {
      broker_subs = remove_sub c.broker_subs (index_of (λ x. x.sub == sub) c.broker_subs);
    },
    some (stop_listening cs),
  )
]

unfoldable pub close_broker_subscriptions : Channel → Channel × List ConnectionSub
unfolding stop_listening
close_broker_subscriptions c =
    (record c { broker_subs = []; broker_conns = [] }, map stop_listening c.broker_subs)

-- One subscription for a connection and a destination, each with its connection kept once.
pub record IsValid (c : Channel) : Type 0 where
  pub one_each :
      (conn : ℕ) (destination : String) → count_if (is_for conn destination) c.broker_subs ≤ 1
  pub conn_kept :
      (conn : ℕ)
      → any (λ cs. cs.conn == conn) c.broker_subs ≡ true
      → any (λ b. b == conn) c.broker_conns ≡ true
  pub conns_once : (conn : ℕ) → count_if (λ b. b == conn) c.broker_conns ≤ 1

any-count : {A : Type 0} (p : A → Bool) (xs : List A) → any p xs ≡ ltb 0 (count_if p xs)
any-count p [] = refl
any-count p (x ∷ xs) = ground (arith, any-count p xs)

pub new_channel-IsValid : (name : String) → IsValid (new_channel name)
unfolding new_channel
new_channel-IsValid name = record {
  one_each = λ conn destination. omega arith;
  conn_kept = λ conn h. cc;
  conns_once = λ conn. omega arith;
}

for_same :
    (conn k : ℕ) (destination d : String) (subs : List ConnectionSub)
    → conn ≡ k
    → destination ≡ d
    → count_if (is_for conn destination) subs ≡ count_if (is_for k d) subs
for_same conn k destination d subs e f = rw (e, f) refl

conn_same :
    (conn k : ℕ) (conns : List ℕ)
    → conn ≡ k
    → count_if (λ b. b == conn) conns ≡ count_if (λ b. b == k) conns
conn_same conn k conns e = rw e refl

module _ (conn sub : ℕ) (destination : String) (c : Channel) (v : IsValid c) where
  added : ConnectionSub
  added = record { conn = conn; sub = sub; destination = destination; stopped = false }

  one_each-add :
      (k : ℕ) (d : String)
      → count_if
          (is_for k d)
          (add_broker_subscription_if_missing conn sub destination c).0.broker_subs
        ≤ 1
  unfolding add_broker_subscription_if_missing added
  one_each-add k d = ground (
    arith,
    v.one_each k d,
    count_if-append (is_for k d) c.broker_subs (added ∷ []),
    any-count (is_for conn destination) c.broker_subs,
    for_same conn k destination d c.broker_subs,
    nat_beq_iff conn k,
    string_eq.beq_iff destination d,
  )

  conn_kept-add :
      (k : ℕ)
      → any
          (λ cs. cs.conn == k)
          (add_broker_subscription_if_missing conn sub destination c).0.broker_subs
        ≡ true
      → any (λ b. b == k) (add_broker_subscription_if_missing conn sub destination c).0.broker_conns
        ≡ true
  unfolding add_broker_subscription_if_missing added
  conn_kept-add k h = ground (
    arith,
    v.conn_kept k,
    any-append (λ cs. cs.conn == k) c.broker_subs (added ∷ []),
    any-append (λ b. b == k) c.broker_conns (conn ∷ []),
    any-count (λ b. b == conn) c.broker_conns,
    any-count (λ b. b == k) c.broker_conns,
    conn_same conn k c.broker_conns,
    nat_beq_iff conn k,
  )

  conns_once-add :
      (k : ℕ)
      → count_if
          (λ b. b == k)
          (add_broker_subscription_if_missing conn sub destination c).0.broker_conns
        ≤ 1
  unfolding add_broker_subscription_if_missing
  conns_once-add k = ground (
    arith,
    v.conns_once k,
    count_if-append (λ b. b == k) c.broker_conns (conn ∷ []),
    any-count (λ b. b == conn) c.broker_conns,
    conn_same conn k c.broker_conns,
    nat_beq_iff conn k,
  )

-- Adding a broker subscription keeps the invariant: a connection has at most one subscription to a destination, and every connection with a subscription is kept, once.
pub add_broker_subscription_if_missing-IsValid :
    (conn sub : ℕ) (destination : String) (c : Channel)
    → IsValid c
    → IsValid (add_broker_subscription_if_missing conn sub destination c).0
add_broker_subscription_if_missing-IsValid conn sub destination c v = record {
  one_each = one_each-add conn sub destination c v;
  conn_kept = conn_kept-add conn sub destination c v;
  conns_once = conns_once-add conn sub destination c v;
}

abbrev pub one_if : (ConnectionSub → Bool) → Option ConnectionSub → ℕ
one_if p none = 0
one_if p (some cs) = if p cs then 1 else 0

-- Removing by id takes away one subscription with that id, the first, and no other; with no such subscription nothing changes. The invariant is kept.
pub remove_broker_subscription_lem :
    (sub : ℕ) (c : Channel)
    → IsValid c
    → IsValid (remove_broker_subscription sub c).0
      × ((p : ConnectionSub → Bool)
          → count_if p (remove_broker_subscription sub c).0.broker_subs
              + one_if p (find (λ cs. cs.sub == sub) c.broker_subs)
            ≡ count_if p c.broker_subs)
remove_broker_subscription_lem sub c v = (valid, counted)
  where
    counted :
        (p : ConnectionSub → Bool)
        → count_if p (remove_broker_subscription sub c).0.broker_subs
            + one_if p (find (λ cs. cs.sub == sub) c.broker_subs)
          ≡ count_if p c.broker_subs
    counted p = elim (Option-cases (find (λ cs. cs.sub == sub) c.broker_subs)) [
      | inl e ↦
          unfold remove_broker_subscription in rw (e, remove_broker_subscription) (omega arith)
      | inr (cs, e) ↦
          unfold remove_broker_subscription in
          rw (e, remove_broker_subscription)
            (count_if-remove_sub p (λ x. x.sub == sub) c.broker_subs cs e)
    ]

    conns : (remove_broker_subscription sub c).0.broker_conns ≡ c.broker_conns
    conns = unfold remove_broker_subscription in ground arith

    valid : IsValid (remove_broker_subscription sub c).0
    valid = record {
      one_each = λ k d. omega (arith, counted (is_for k d), v.one_each k d);
      conn_kept = λ k h. rw conns (
          v.conn_kept k (
            ground (
              arith,
              counted (λ cs. cs.conn == k),
              any-count (λ (cs : ConnectionSub). cs.conn == k) c.broker_subs,
              any-count (λ (cs : ConnectionSub). cs.conn == k)
                  (remove_broker_subscription sub c).0.broker_subs,
            )));
      conns_once = λ k. rw conns (v.conns_once k);
    }
