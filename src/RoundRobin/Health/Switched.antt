-- ===== src/RoundRobin/Health/Switched.antt =====
-- The switch of the active server after the checks.
use ssh_roundrobin.Prelude.{
  ℕ, suc, ◌+◌, ◌<◌, ◌≡◌, refl, sym, ◌∙◌, ap, subst, Bool, true, false, ◌&&◌, ltb, ◌==◌, none, some,
  List, [], ◌∷◌, length, get_or, arith, Bool-cases, ◌⊎◌, inl, inr, All, Option-cases,
}
use ssh_roundrobin.Text.{Error, text_eq, text_eq_iff}
use ssh_roundrobin.Outcome.{returns, Outcome-cases}
use ssh_roundrobin.Env.{Env}
use ssh_roundrobin.SshClient.Laws.{Connects, ensure_connected-up, ensure_connected-down}
use ssh_roundrobin.RoundRobin.{Pool, strategy_failover}
use ssh_roundrobin.RoundRobin.View.{up_at}
use ssh_roundrobin.RoundRobin.Strategy.{ensure, set_active, clear_active}
use ssh_roundrobin.RoundRobin.Strategy.Cap.{Distinct}
use ssh_roundrobin.RoundRobin.Health.{
  HealthCheckReport, empty_report, check_each, first_true, connect_first, switch, after_checks,
  run_health_checks,
}
use ssh_roundrobin.RoundRobin.Health.Checked.{ActiveUp, NoneUp, first_true_lem, check_each-Passed}

module _ {W : Type 0} (env : Env W) (net : Connects env) where
  -- What the last loop leaves, from the servers `rs` on, the first of which has the index `idx`.
  record Connected (idx : ℕ) (rs : List ℕ) (p : Pool W) (q : Pool W) : Type 0 where
    pub servers : q.servers ≡ p.servers
    pub ended :
        ((q.has_active ≡ true)
          × (k : ℕ) × (k < length rs)
          × (q.active_idx ≡ idx + k)
          × (up_at q (get_or rs k 0) ≡ true))
        ⊎ ((q.has_active ≡ false)
            × All (λ r. up_at q r ≡ false) rs
            × ((s : ℕ) → up_at p s ≡ false → up_at q s ≡ false))

  ensure-returns :
      (r : ℕ) (p : Pool W)
      → ((ensure env r p).1.rr ≡ p.rr)
        × ((ensure env r p).0 ≡ returns none → up_at (ensure env r p).1 r ≡ true)
        × ((e : Error)
            → (ensure env r p).0 ≡ returns (some e)
            → (up_at (ensure env r p).1 r ≡ false)
              × ((s : ℕ) → up_at p s ≡ false → up_at (ensure env r p).1 s ≡ false))
  unfolding ensure
  ensure-returns r p = (
    refl,
    λ h. ground (arith, ensure_connected-up env net (p.clients r) p.world h),
    λ e h.
        let (x, y) = ensure_connected-down env (p.clients r) p.world e h in
        (ground (arith, y), λ s d. ground (arith, y, d)),
  )

  connect_first-Connected :
      (idx : ℕ) (rs : List ℕ) (report told : HealthCheckReport) (p : Pool W)
      → (connect_first env idx rs report p).0 ≡ returns told
      → Connected idx rs p (connect_first env idx rs report p).1
  unfolding connect_first clear_active set_active
  connect_first-Connected idx [] report told p h = record {
    servers = refl;
    ended = inr (refl, tt, λ s d. d);
  }
  connect_first-Connected idx (r ∷ rs) report told p h =
      let (same, live, down) = ensure-returns r p in
      elim (Outcome-cases (ensure env r p).0) [
        | inl o ↦ absurd (ground (arith, o, h))
        | inr (inl o) ↦
            rw (o, connect_first)
              record {
                servers = ap (λ r. r.servers) same;
                ended = inl (refl, 0, omega arith, omega arith, live o);
              }
        | inr (inr (e, o)) ↦
            rw (o, connect_first)
              (onward (ensure env r p).1 _ same (down e o) (
                connect_first-Connected (idx + 1) rs report told (ensure env r p).1
                  (rw (o, connect_first) at h)))
      ]
    where
      onward :
          (p1 q : Pool W)
          → p1.rr ≡ p.rr
          → (up_at p1 r ≡ false) × ((s : ℕ) → up_at p s ≡ false → up_at p1 s ≡ false)
          → Connected (idx + 1) rs p1 q
          → Connected idx (r ∷ rs) p q
      onward p1 q same (off, down) rest = record {
        servers = rest.servers ∙ ap (λ r. r.servers) same;
        ended = elim rest.ended [
          | inl (a, k, lt, at, live) ↦ inl (a, suc k, omega (arith, lt), omega (arith, at), live)
          | inr (a, all, dark) ↦ inr (a, (dark r off, all), λ s d. dark s (down s d))
        ];
      }

  Connected-Settled : (p q : Pool W) → Connected 0 p.servers p q → ActiveUp q ⊎ NoneUp q
  Connected-Settled p q c = elim c.ended [
    | inl (a, k, lt, at, live) ↦
        let at_k : q.active_idx ≡ k = omega (arith, at) in
        inl (
          a,
          omega (arith, at_k, lt, ap length c.servers),
          ap (λ i. up_at q (get_or q.servers i 0)) at_k
              ∙ ap (λ l. up_at q (get_or l k 0)) c.servers
              ∙ live,
        )
    | inr (a, all, dark) ↦ inr (a, subst (All (λ r. up_at q r ≡ false)) (sym c.servers) all)
  ]

  switch-Settled :
      (goods : List Bool) (report told : HealthCheckReport) (p : Pool W)
      → length goods ≡ length p.servers
      → ((i : ℕ)
          → i < length p.servers
          → get_or goods i false ≡ true
          → up_at p (get_or p.servers i 0) ≡ true)
      → (switch env goods report p).0 ≡ returns told
      → let q = (switch env goods report p).1 in ActiveUp q ⊎ NoneUp q
  unfolding switch set_active
  switch-Settled goods report told p size passed h = elim (Option-cases (first_true 0 goods)) [
    | inr (i, e) ↦
        let (k, at, lt, good) = first_true_lem 0 i goods e in
        let here : i ≡ k = omega (arith, at) in
        let inside : i < length p.servers = omega (arith, here, lt, size) in
        rw (e, switch)
          (inl (refl, inside, passed i inside (ap (λ i. get_or goods i false) here ∙ good)))
    | inl e ↦
        let c = connect_first-Connected 0 p.servers report told p (rw (e, switch) at h) in
        rw (e, switch) (Connected-Settled p (connect_first env 0 p.servers report p).1 c)
  ]

  after_checks-Settled :
      (goods : List Bool) (report told : HealthCheckReport) (p : Pool W)
      → text_eq p.strategy strategy_failover ≡ true
      → length goods ≡ length p.servers
      → ((i : ℕ)
          → i < length p.servers
          → get_or goods i false ≡ true
          → up_at p (get_or p.servers i 0) ≡ true)
      → (after_checks env goods report p).0 ≡ returns told
      → let q = (after_checks env goods report p).1 in ActiveUp q ⊎ NoneUp q
  unfolding after_checks
  after_checks-Settled goods report told p failover size passed h =
      elim (Bool-cases
        (p.has_active && ltb p.active_idx (length goods) && get_or goods p.active_idx false)) [
          | inl e ↦
              let fit : p.active_idx < length p.servers = ground (arith, e, size) in
              rw (failover, e)
                (inl (ground (arith, e), fit, passed p.active_idx fit (ground (arith, e))))
          | inr e ↦
              rw (failover, e, after_checks)
                (switch-Settled goods _ told p size passed (rw (failover, e, after_checks) at h))
        ]

  pub settled_on_return :
      (p : Pool W) (told : HealthCheckReport)
      → p.strategy ≡ strategy_failover
      → 0 < length p.servers
      → Distinct p.servers
      → (run_health_checks env p).0 ≡ returns told
      → let q = (run_health_checks env p).1 in ActiveUp q ⊎ NoneUp q
  unfolding run_health_checks
  settled_on_return p told failover some_server distinct h =
      let c = check_each env p.servers empty_report p in
      let checked = check_each-Passed env p.servers empty_report p in
      let filled : (length p.servers == 0) ≡ false = ground (arith, some_server) in
      let failover_still : text_eq c.2.strategy strategy_failover ≡ true =
        (text_eq_iff c.2.strategy strategy_failover).1
          (ap (λ r. r.strategy) checked.same ∙ failover) in
      let passed : (i : ℕ)
          → i < length c.2.servers
          → get_or c.0 i false ≡ true
          → up_at c.2 (get_or c.2.servers i 0) ≡ true =
        λ i lt good.
          ap (λ r. up_at c.2 (get_or r.servers i 0)) checked.same
          ∙ checked.passed distinct i (omega (arith, lt, ap (λ r. length r.servers) checked.same))
              good in
      rw (filled, run_health_checks)
        (after_checks-Settled c.0 c.1 told c.2 failover_still
          (checked.size ∙ ap (λ r. length r.servers) (sym checked.same)) passed
          (rw (filled, run_health_checks) at h))
