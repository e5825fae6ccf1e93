-- ===== src/RoundRobin/Strategy/Active.antt =====
-- Failover keeps to its active server, and knows after each selection which one it is.
use ssh_roundrobin.Prelude.{
  ℕ, ◌<◌, ◌≡◌, refl, ◌∙◌, ap, Bool, true, false, ◌&&◌, some, List, arith, length, get_elem?,
  lt-of-get_elem?, ltb, Bool-cases, inl, inr, Option-cases,
}
use mathlib.Core.Path.{ap₂}
use ssh_roundrobin.Text.{Text, text_eq_iff}
use ssh_roundrobin.Outcome.{Result, ok, err, Outcome, returns, panics}
use ssh_roundrobin.Env.{Env}
use ssh_roundrobin.RoundRobin.{Pool, client_addr, strategy_failover}
use ssh_roundrobin.RoundRobin.View.{up_at, blocked}
use ssh_roundrobin.RoundRobin.Strategy.{
  Verdict, picked, skipped, crashed, excluded, eligible, visit, use_client, try_client, clock,
  set_active, clear_active, failover_scan, scan_next, after_active, failover_at, get_failover,
  get_for_target,
}
use ssh_roundrobin.RoundRobin.Strategy.Step.{probe-up, try_client-Frame}
use ssh_roundrobin.RoundRobin.Strategy.Verdicts.{
  eligible_lem, eligible-clients, eligible-rest, visit-still,
}
use ssh_roundrobin.RoundRobin.Strategy.Loops.{failover_scan_rule, failover_idx}

-- After a success the returned server is the active one; after an error there is none.
abbrev pub Settled : {W : Type 0} → Outcome (Result ℕ) × Pool W → Type 0
Settled (returns (ok r), q) = (q.has_active ≡ true) × (get_elem? q.servers q.active_idx ≡ some r)
Settled (returns (err e), q) = q.has_active ≡ false
Settled (panics, q) = Unit

module _ {W : Type 0} (env : Env W) (exclude : List Text) (target : Text) (now : ℕ) where
  -- A server that passes the guards and is up is picked.
  try_client-up_picked :
      (may : Bool) (r : ℕ) (p : Pool W)
      → excluded (client_addr p r) exclude ≡ false
      → blocked p target now r ≡ false
      → up_at p r ≡ true
      → (try_client env may exclude target now r p).0 ≡ picked
  unfolding try_client visit use_client
  try_client-up_picked may r p x b u = ground (
    arith,
    eligible_lem exclude target now r p,
    probe-up r (eligible exclude target now r p).1,
    ap (λ f. up_at (record p { clients = f }) r) (eligible-clients exclude target now r p),
  )

  try_client-still :
      (may : Bool) (r : ℕ) (p : Pool W)
      → ((try_client env may exclude target now r p).1.active_idx ≡ p.active_idx)
        × ((try_client env may exclude target now r p).1.has_active ≡ p.has_active)
  unfolding try_client
  try_client-still may r p = (
    (visit-still env may _ r _).0 ∙ (eligible-rest exclude target now r p).0,
    (visit-still env may _ r _).1 ∙ (eligible-rest exclude target now r p).1,
  )

  failover_scan-Settled :
      (start n : ℕ) (p : Pool W) → Settled (failover_scan env n 0 start exclude target now p)
  failover_scan-Settled start n p =
      failover_scan_rule env exclude target now start n (λ _ _. Unit {0}) Settled
        (λ q _. unfold clear_active in refl) (λ c q _ _ _. tt) (λ c q _ _ _. tt)
        (λ c r q _ _ at _.
          unfold set_active in
          (
            refl,
            ap (λ l. get_elem? l (failover_idx start c q))
                  (try_client-Frame env true exclude target now r q).servers
                ∙ at,
          ))
        (λ c r q _ _ _ _. tt) (λ c r q _ _ _ _ _. tt) n 0 p (omega arith) tt

  scan_next-Settled : (p : Pool W) → Settled (scan_next env exclude target now p)
  unfolding scan_next
  scan_next-Settled p = elim (Bool-cases (p.has_active && ltb 0 (length p.servers))) [
    | inl e ↦ rw (e, scan_next) (failover_scan-Settled _ _ p)
    | inr e ↦ rw (e, scan_next) (failover_scan-Settled _ _ _)
  ]

  after_active-Settled :
      (v : Verdict) (r : ℕ) (p : Pool W)
      → p.has_active ≡ true
      → get_elem? p.servers p.active_idx ≡ some r
      → Settled (after_active env v exclude target now r p)
  unfolding after_active
  after_active-Settled picked r p h at = (h, at)
  after_active-Settled crashed r p h at = tt
  after_active-Settled skipped r p h at = scan_next-Settled p

  failover_at-Settled : (p : Pool W) → Settled (failover_at env exclude target now p)
  unfolding failover_at
  failover_at-Settled p = elim (Bool-cases (p.has_active && ltb p.active_idx (length p.servers))) [
    | inr e ↦ rw (e, failover_at) (scan_next-Settled p)
    | inl e ↦ elim (Option-cases (get_elem? p.servers p.active_idx)) [
      | inl at ↦ rw (e, at, failover_at) tt
      | inr (r, at) ↦
          rw (e, at, failover_at)
            (after_active-Settled _ r (try_client env true exclude target now r p).1
              ((try_client-still true r p).1 ∙ ground arith)
              (ap₂ get_elem? (try_client-Frame env true exclude target now r p).servers
                  (try_client-still true r p).0
                ∙ at))
    ]
  ]

module _ {W : Type 0} (env : Env W) (exclude : List Text) (target : Text) (p : Pool W)
    (failover : p.strategy ≡ strategy_failover) where
  failover_get :
      0 < length p.servers → get_for_target env target exclude p ≡ get_failover env target exclude p
  unfolding get_for_target
  failover_get h = ground (arith, text_eq_iff p.strategy strategy_failover)

  -- Under failover, with a server in the pool: after a success the returned server is the active
  -- one, and after an error there is no active server.
  pub get_for_target-Settled : 0 < length p.servers → Settled (get_for_target env target exclude p)
  get_for_target-Settled h =
      rw (failover_get h) (unfold get_failover clock in failover_at-Settled env exclude target _ _)

  -- Failover does not change servers without need: an active server that is connected, not excluded
  -- and not blocked for the target at the time of the call is returned, and stays the active one.
  pub get_for_target_sticky :
      (r : ℕ)
      → p.has_active ≡ true
      → get_elem? p.servers p.active_idx ≡ some r
      → excluded (client_addr p r) exclude ≡ false
      → blocked p target (env.now p.world).0 r ≡ false
      → up_at p r ≡ true
      → ((get_for_target env target exclude p).0 ≡ returns (ok r))
        × ((get_for_target env target exclude p).1.active_idx ≡ p.active_idx)
        × ((get_for_target env target exclude p).1.has_active ≡ true)
  unfolding get_failover clock failover_at after_active
  get_for_target_sticky r h at x b u = rw (failover_get inhabited) (
    ground (arith, at, h, lt, picks),
    ground (arith, at, h, lt, picks, try_client-still env exclude target now true r p1),
    ground (arith, at, h, lt, picks, try_client-still env exclude target now true r p1),
  )
    where
      now : ℕ
      now = (env.now p.world).0

      p1 : Pool W
      p1 = record p { world = (env.now p.world).1 }

      lt : p.active_idx < length p.servers
      lt = lt-of-get_elem? p.servers p.active_idx at

      inhabited : 0 < length p.servers
      inhabited = omega (arith, lt)

      picks : (try_client env true exclude target now r p1).0 ≡ picked
      picks = try_client-up_picked env exclude target now true r p1 x b u
