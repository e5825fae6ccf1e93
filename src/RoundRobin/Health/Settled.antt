-- ===== src/RoundRobin/Health/Settled.antt =====
-- A health check returns, and under failover leaves an active server that is connected if one is.
use ssh_roundrobin.Prelude.{
  ℕ, ◌+◌, ◌<◌, ◌≡◌, refl, ◌∙◌, ap, Bool, true, false, ◌&&◌, ltb, ◌==◌, some, List, [], ◌∷◌, length,
  get_or, arith, Bool-cases, ◌⊎◌, inl, inr, Option-cases,
}
use ssh_roundrobin.Text.{text_eq, text_eq_iff}
use ssh_roundrobin.Outcome.{Outcome, returns, Outcome-cases}
use ssh_roundrobin.Env.{Env}
use ssh_roundrobin.SshServer.{SshServer}
use ssh_roundrobin.SshClient.{health_check}
use ssh_roundrobin.SshClient.Laws.{
  is_connected_frame, ensure_connected_frame, ensure_connected-ne-panics, Connects, whole?,
  ensure_connected-whole,
}
use ssh_roundrobin.RoundRobin.{Pool, probe, strategy_failover}
use ssh_roundrobin.RoundRobin.Strategy.{ensure}
use ssh_roundrobin.RoundRobin.Strategy.Cap.{Distinct}
use ssh_roundrobin.RoundRobin.Health.{
  HealthCheckReport, empty_report, check, check_connected, check_one, check_each, first_true,
  connect_first, switch, after_checks, run_health_checks,
}
use ssh_roundrobin.RoundRobin.Health.Checked.{ActiveUp, NoneUp, check_each-Passed}
use ssh_roundrobin.RoundRobin.Health.Switched.{settled_on_return}

-- Every client has a server, and its connection, if it has one, a transport, as those that NewClient
-- and NewClientLazy make have.
abbrev pub Served : {W : Type 0} → Pool W → Type 0
Served p =
    (r : ℕ)
    → ((s : SshServer) × ((p.clients r).server ≡ some s)) × (whole? (p.clients r).client ≡ true)

module _ {W : Type 0} (env : Env W) (net : Connects env) where
  check_one-whole :
      (r s : ℕ) (report : HealthCheckReport) (p : Pool W)
      → whole? (p.clients s).client ≡ true
      → whole? ((check_one env r report p).2.clients s).client ≡ true
  unfolding check_one probe check_connected check health_check
  check_one-whole r s report p h = ground (arith, h, is_connected_frame (p.clients r))

  check_one-server :
      (r s : ℕ) (report : HealthCheckReport) (p : Pool W)
      → ((check_one env r report p).2.clients s).server ≡ (p.clients s).server
  unfolding check_one probe check_connected check health_check
  check_one-server r s report p = ground (arith, is_connected_frame (p.clients r))

  check_each-Served :
      (rs : List ℕ) (report : HealthCheckReport) (p : Pool W)
      → Served p
      → Served (check_each env rs report p).2
  unfolding check_each
  check_each-Served [] report p served = served
  check_each-Served (r ∷ rs) report p served = check_each-Served rs _ _ λ s.
      let ((server, has), whole) = served s in
      ((server, check_one-server r s report p ∙ has), check_one-whole r s report p whole)

  Returns : Outcome HealthCheckReport → Type 0
  Returns o = (told : HealthCheckReport) × (o ≡ returns told)

  connect_first-Returns :
      (idx : ℕ) (rs : List ℕ) (report : HealthCheckReport) (p : Pool W)
      → Served p
      → Returns (connect_first env idx rs report p).0
  unfolding Returns connect_first ensure
  connect_first-Returns idx [] report p served = (report, refl)
  connect_first-Returns idx (r ∷ rs) report p served = elim (Outcome-cases (ensure env r p).0) [
    | inl o ↦
        let ((server, has), whole) = served r in
        absurd (ensure_connected-ne-panics env (p.clients r) server p.world has whole o)
    | inr (inl o) ↦ rw (o, connect_first) (_, refl)
    | inr (inr (e, o)) ↦
        rw (o, connect_first)
          (connect_first-Returns (idx + 1) rs report (ensure env r p).1 λ s.
            let ((server, has), whole) = served s in
            (
              (server, ground (arith, ensure_connected_frame env (p.clients r) p.world) ∙ has),
              ground (arith, whole, ensure_connected-whole env net (p.clients r) p.world),
            ))
  ]

  switch-Returns :
      (goods : List Bool) (report : HealthCheckReport) (p : Pool W)
      → Served p
      → Returns (switch env goods report p).0
  unfolding Returns switch
  switch-Returns goods report p served = elim (Option-cases (first_true 0 goods)) [
    | inr (i, e) ↦ rw (e, switch) (_, refl)
    | inl e ↦ rw (e, switch) (connect_first-Returns 0 p.servers report p served)
  ]

  after_checks-Returns :
      (goods : List Bool) (report : HealthCheckReport) (p : Pool W)
      → Served p
      → text_eq p.strategy strategy_failover ≡ true
      → Returns (after_checks env goods report p).0
  unfolding Returns after_checks
  after_checks-Returns goods report p served failover =
      elim (Bool-cases
        (p.has_active && ltb p.active_idx (length goods) && get_or goods p.active_idx false)) [
          | inl e ↦ rw (failover, e, after_checks) (_, refl)
          | inr e ↦ rw (failover, e, after_checks) (switch-Returns goods _ p served)
        ]

  -- Under failover, when every client has a server, none has a connection without a transport, and none
  -- is listed twice in a pool that is not empty, a health check returns its report, and either the active server is one of the pool and is
  -- connected, or there is no active server and none of the pool is connected. The SSH library is to
  -- return connections with a transport.
  pub run_health_checks-Settled :
      (p : Pool W)
      → p.strategy ≡ strategy_failover
      → 0 < length p.servers
      → Distinct p.servers
      → Served p
      → let (o, q) = run_health_checks env p in
        ((told : HealthCheckReport) × (o ≡ returns told)) × (ActiveUp q ⊎ NoneUp q)
  unfolding Returns run_health_checks
  run_health_checks-Settled p failover some_server distinct served =
      (back, settled_on_return env net p back.0 failover some_server distinct back.1)
    where
      filled : (length p.servers == 0) ≡ false
      filled = ground (arith, some_server)

      still : text_eq (check_each env p.servers empty_report p).2.strategy strategy_failover ≡ true
      still =
          (text_eq_iff _ strategy_failover).1 (
            ap (λ r. r.strategy) ((check_each-Passed env p.servers empty_report p).same) ∙ failover)

      back : (told : HealthCheckReport) × ((run_health_checks env p).0 ≡ returns told)
      back =
          rw (filled, run_health_checks)
            (after_checks-Returns _ _ _ (check_each-Served p.servers empty_report p served) still)
