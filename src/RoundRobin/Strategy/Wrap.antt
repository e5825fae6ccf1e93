-- ===== src/RoundRobin/Strategy/Wrap.antt =====
-- The load balancer's scan when its uint32 counter wraps: it can miss a server.
use ssh_roundrobin.Prelude.{
  ℕ, suc, ◌+◌, ◌%◌, ◌^◌, ◌-◌, ◌≡◌, ◌≢◌, refl, ◌∙◌, ap, Bool, true, some, List, [], ◌∷◌, arith,
  length, get_elem?, ltb,
}
use ssh_roundrobin.Text.{Text, text_eq_iff}
use ssh_roundrobin.Outcome.{err, returns}
use ssh_roundrobin.Env.{Env}
use ssh_roundrobin.RoundRobin.{Pool, client_addr, connected_count, strategy_failover}
use ssh_roundrobin.RoundRobin.View.{Frame-addr}
use ssh_roundrobin.RoundRobin.Strategy.{
  skipped, excluded, eligible, visit, try_client, next_index, clock, balance_scan, get_load_balance,
  get_for_target, no_available,
}
use ssh_roundrobin.RoundRobin.Strategy.Scan.{connected_count-Scan, connected_count-rest}

module _ {W : Type 0} (env : Env W) (exclude : List Text) (target : Text) where
  try_client-excluded :
      (now : ℕ) (may : Bool) (r : ℕ) (p : Pool W)
      → excluded (client_addr p r) exclude ≡ true
      → try_client env may exclude target now r p ≡ (skipped, p)
  unfolding try_client eligible visit
  try_client-excluded now may r p x = rw (x, try_client, eligible)

  skip_round :
      (n now start c r : ℕ) (may : Bool) (p : Pool W)
      → get_elem? p.servers ((start + c) % 2 ^ 32 % length p.servers) ≡ some r
      → excluded (client_addr p r) exclude ≡ true
      → balance_scan env (suc n) c may start exclude target now p
        ≡ balance_scan env n (c + 1) may start exclude target now p
  unfolding balance_scan
  skip_round n now start c r may p at x =
      rw (at, balance_scan, ap (λ t. t.0) tried)
        (ap (λ t. balance_scan env n (c + 1) may start exclude target now t.1) tried)
    where
      tried : try_client env may exclude target now r p ≡ (skipped, p)
      tried = try_client-excluded now may r p x

  -- From the last value of the counter the three rounds visit the places 0, 0 and 1.
  wrapped_scan :
      (now start a b c : ℕ) (may : Bool) (p : Pool W)
      → start ≡ 2 ^ 32 - 1
      → p.servers ≡ a ∷ b ∷ c ∷ []
      → excluded (client_addr p a) exclude ≡ true
      → excluded (client_addr p b) exclude ≡ true
      → balance_scan env 3 0 may start exclude target now p ≡ (returns (err no_available), p)
  wrapped_scan now start a b c may p e s x y =
      skip_round 2 now start 0 a may p (rw (e, s)) x
      ∙ skip_round 1 now start 1 a may p (rw (e, s)) x
      ∙ skip_round 0 now start 2 b may p (rw (e, s)) y
      ∙ unfold balance_scan in refl

-- With three servers and the counter at its last value 2^32 - 1, load balancing fails when the first
-- two servers are excluded, whether or not the third could serve: it is not visited.
pub get_for_target_wrap :
    {W : Type 0} (env : Env W) (exclude : List Text) (target : Text) (a b c : ℕ) (p : Pool W)
    → p.strategy ≢ strategy_failover
    → p.index ≡ 2 ^ 32 - 1
    → p.servers ≡ a ∷ b ∷ c ∷ []
    → excluded (client_addr p a) exclude ≡ true
    → excluded (client_addr p b) exclude ≡ true
    → (get_for_target env target exclude p).0 ≡ returns (err no_available)
get_for_target_wrap {W} env exclude target a b c p n i s x y = ap (λ t. t.0) balanced
  where
    q : Pool W
    q = (connected_count p).1

    rest : (q.world ≡ p.world) × (q.rr ≡ p.rr)
    rest = connected_count-rest p

    same : (r : ℕ) → client_addr q r ≡ client_addr p r
    same r = Frame-addr (connected_count-Scan target 0 p).frame r

    m : Pool W
    m = record q { rr = (next_index q.rr).1; world = (env.now q.world).1 }

    listed : m.servers ≡ a ∷ b ∷ c ∷ []
    listed = unfold next_index in ap (λ rr. rr.servers) rest.1 ∙ s

    scanned :
        balance_scan env 3 0
          (ltb (connected_count p).0 m.max_active)
          (next_index q.rr).0
          exclude
          target
          (env.now q.world).0
          m
        ≡ (returns (err no_available), m)
    scanned =
        wrapped_scan env exclude target _ _ a b c _ m
          (unfold next_index in omega (arith, ap (λ rr. rr.index) rest.1)) listed
          (ap (λ t. excluded t exclude) (same a) ∙ x) (ap (λ t. excluded t exclude) (same b) ∙ y)

    balanced : get_for_target env target exclude p ≡ (returns (err no_available), m)
    balanced =
        unfold get_for_target get_load_balance clock in
        ground (arith, text_eq_iff p.strategy strategy_failover, s, ap length listed, scanned)
