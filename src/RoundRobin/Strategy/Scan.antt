-- ===== src/RoundRobin/Strategy/Scan.antt =====
-- What a selection leaves alone while it runs: the frame, and which servers are blocked.
use ssh_roundrobin.Prelude.{ℕ, ◌+◌, ◌≡◌, refl, ◌∙◌, Bool, List, [], ◌∷◌, arith, if◌then◌else◌}
use mathlib.Core.Path.{ap₂}
use ssh_roundrobin.Text.{Text, text_eq_iff}
use ssh_roundrobin.Dict
use ssh_roundrobin.Env.{Env}
use ssh_roundrobin.RoundRobin.{
  Pool, client_addr, probe, is_target_blocked, count_from, connected_count, target_failure_key,
}
use ssh_roundrobin.RoundRobin.View.{
  blocks_in, Frame, Frame-refl, Frame-trans, Frame-addr, up_at, blocked,
}
use ssh_roundrobin.RoundRobin.Strategy.{eligible, try_client, next_index}
use ssh_roundrobin.RoundRobin.Strategy.Step.{
  probe-up, probe-up_at, probe-Frame, eligible-Frame, visit-Frame,
}
use ssh_roundrobin.RoundRobin.Strategy.Verdicts.{visit-failures}

module _ {W : Type 0} where
  -- The world and the counter are no part of the frame.
  pub world_Frame : (p : Pool W) (w : W) → Frame p (record p { world = w })
  world_Frame p w = record {
    servers = refl;
    strategy = refl;
    max_active = refl;
    server_of = λ s. refl;
    stays_up = λ s h. h;
  }

  pub counted_Frame :
      (p : Pool W) (w : W) → Frame p (record p { rr = (next_index p.rr).1; world = w })
  unfolding next_index
  counted_Frame p w = record {
    servers = refl;
    strategy = refl;
    max_active = refl;
    server_of = λ s. refl;
    stays_up = λ s h. h;
  }

module _ {W : Type 0} (target : Text) (now : ℕ) where
  pub record Scan (p q : Pool W) : Type 0 where
    pub frame : Frame p q
    pub blocks : (s : ℕ) → blocked q target now s ≡ blocked p target now s

  pub Scan-refl : (p : Pool W) → Scan p p
  Scan-refl p = record { frame = Frame-refl p; blocks = λ s. refl }

  pub Scan-trans : {p q r : Pool W} → Scan p q → Scan q r → Scan p r
  Scan-trans f g = record {
    frame = Frame-trans f.frame g.frame;
    blocks = λ s. g.blocks s ∙ f.blocks s;
  }

  -- A frame with the same failure records blocks the same servers.
  pub Scan-of_failures :
      {p q : Pool W} → Frame p q → q.target_failures ≡ p.target_failures → Scan p q
  Scan-of_failures f e = record {
    frame = f;
    blocks = λ s. ap₂ (λ m a. blocks_in m a target now) e (Frame-addr f s);
  }

  -- The guards drop only records that block nothing.
  pub eligible-Scan :
      (exclude : List Text) (r : ℕ) (p : Pool W) → Scan p (eligible exclude target now r p).1
  eligible-Scan exclude r p = record {
    frame = eligible-Frame exclude target now r p;
    blocks = λ s.
        unfold eligible is_target_blocked in
        ground (
          arith,
          Dict.get-delete p.target_failures (target_failure_key (client_addr p r) target)
              (target_failure_key (client_addr p s) target),
          text_eq_iff (target_failure_key (client_addr p r) target)
              (target_failure_key (client_addr p s) target),
        );
  }

  pub probe-Scan : (r : ℕ) (p : Pool W) → Scan p (probe r p).1
  unfolding probe
  probe-Scan r p = Scan-of_failures (probe-Frame r p) refl

  -- The pool's own counters are no part of a scan's frame.
  pub counted-Scan : (p m : Pool W) → Scan p m → Scan p (record m { rr = (next_index m.rr).1 })
  unfolding next_index
  counted-Scan p m s = record {
    frame = record {
      servers = s.frame.servers;
      strategy = s.frame.strategy;
      max_active = s.frame.max_active;
      server_of = s.frame.server_of;
      stays_up = s.frame.stays_up;
    };
    blocks = s.blocks;
  }

  module _ (env : Env W) where
    pub try_client-Scan :
        (may : Bool) (exclude : List Text) (r : ℕ) (p : Pool W)
        → Scan p (try_client env may exclude target now r p).1
    unfolding try_client
    try_client-Scan may exclude r p =
        Scan-trans (eligible-Scan exclude r p)
          (Scan-of_failures (visit-Frame env may _ r _) (visit-failures env may _ r _))

  count_from-Scan : (rs : List ℕ) (count : ℕ) (p : Pool W) → Scan p (count_from rs count p).1
  unfolding count_from
  count_from-Scan [] count p = Scan-refl p
  count_from-Scan (r ∷ rs) count p =
      Scan-trans (probe-Scan r p) (count_from-Scan rs _ (probe r p).1)

  pub connected_count-Scan : (p : Pool W) → Scan p (connected_count p).1
  unfolding connected_count
  connected_count-Scan p = count_from-Scan p.servers 0 p

module _ {W : Type 0} where
  count_from-world :
      (rs : List ℕ) (count : ℕ) (p : Pool W)
      → ((count_from rs count p).1.world ≡ p.world) × ((count_from rs count p).1.rr ≡ p.rr)
  unfolding count_from
  count_from-world [] count p = (refl, refl)
  count_from-world (r ∷ rs) count p =
      let rest = count_from-world rs (if (probe r p).0 then count + 1 else count) (probe r p).1 in
      unfold probe in rest

  -- Counting reads no clock and leaves the pool's own fields.
  pub connected_count-rest :
      (p : Pool W) → ((connected_count p).1.world ≡ p.world) × ((connected_count p).1.rr ≡ p.rr)
  unfolding connected_count
  connected_count-rest p = count_from-world p.servers 0 p

  -- How many servers of a list are connected.
  abbrev pub up_count : Pool W → List ℕ → ℕ
  up_count p [] = 0
  up_count p (r ∷ rs) = (if up_at p r then 1 else 0) + up_count p rs

  pub up_count-same :
      (p q : Pool W) (rs : List ℕ)
      → ((s : ℕ) → up_at q s ≡ up_at p s)
      → up_count q rs ≡ up_count p rs
  up_count-same p q [] h = refl
  up_count-same p q (r ∷ rs) h = ground (arith, h r, up_count-same p q rs h)

  count_from-up :
      (rs : List ℕ) (count : ℕ) (p : Pool W) (s : ℕ) → up_at (count_from rs count p).1 s ≡ up_at p s
  unfolding count_from
  count_from-up [] count p s = refl
  count_from-up (r ∷ rs) count p s = count_from-up rs _ (probe r p).1 s ∙ probe-up_at r s p

  pub connected_count-up : (p : Pool W) (s : ℕ) → up_at (connected_count p).1 s ≡ up_at p s
  unfolding connected_count
  connected_count-up p s = count_from-up p.servers 0 p s

  count_from-value :
      (rs : List ℕ) (count : ℕ) (p : Pool W) → (count_from rs count p).0 ≡ count + up_count p rs
  unfolding count_from
  count_from-value [] count p = omega arith
  count_from-value (r ∷ rs) count p = ground (
    arith,
    count_from-value rs (if (probe r p).0 then count + 1 else count) (probe r p).1,
    probe-up r p,
    up_count-same p (probe r p).1 rs (λ s. probe-up_at r s p),
  )

  pub connected_count-value : (p : Pool W) → (connected_count p).0 ≡ up_count p p.servers
  unfolding connected_count
  connected_count-value p = count_from-value p.servers 0 p ∙ omega arith
