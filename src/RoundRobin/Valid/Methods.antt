-- ===== src/RoundRobin/Valid/Methods.antt =====
-- The other methods of the pool keep the invariant, and so does every sequence of calls.
use ssh_roundrobin.Prelude.{
  ℕ, zero, suc, ◌+◌, ◌≤◌, ◌<◌, ◌≡◌, refl, sym, ◌∙◌, ap, subst, Bool, false, Option, some, List, [],
  ◌∷◌, ◌&&◌, get_or, arith, ◌==◌, length, erase_idx, length-append, ltb, Bool-cases, inl, inr,
  Option-cases, ℤ,
}
use ssh_roundrobin.Text.{Text, Error, text_eq}
use ssh_roundrobin.Outcome.{Outcome-cases, returned_or_not}
use ssh_roundrobin.Env.{Env}
use ssh_roundrobin.RoundRobin.{
  Pool, RoundRobin, probe, add, remove, close_all, after_removal, position_from, close_client,
  close_each, report_target_failure, report_target_success, cleanup_expired_targets,
  strategy_failover,
}
use ssh_roundrobin.RoundRobin.Strategy.{ensure, get_for_target}
use ssh_roundrobin.RoundRobin.Health.{
  check, check_connected, check_one, check_each, first_true, connect_first, switch, after_checks,
  run_health_checks, HealthCheckReport, empty_report,
}
use ssh_roundrobin.RoundRobin.Valid.{
  Valid, set_active-Valid, clear_active-Valid, get_for_target-Valid,
}

-- A removal takes one server away, at a position inside the list.
position_from-lt :
    (r i : ℕ) (qs : List ℕ) (k : ℕ) → position_from r i qs ≡ some k → (i ≤ k) × (k < i + length qs)
unfolding position_from
position_from-lt r i [] k h = cc
position_from-lt r i (q ∷ qs) k h = ground (arith, position_from-lt r (i + 1) qs k)

length-erase_idx : (qs : List ℕ) (k : ℕ) → k < length qs → length (erase_idx qs k) + 1 ≡ length qs
length-erase_idx [] k h = elim h [ ]
length-erase_idx (q ∷ qs) zero h = omega arith
length-erase_idx (q ∷ qs) (suc k) h = omega (arith, length-erase_idx qs k (omega arith))

after_removal-Valid :
    (i : ℕ) (rr : RoundRobin) (l : List ℕ)
    → Valid rr
    → length l + 1 ≡ length rr.servers
    → i < length rr.servers
    → Valid (after_removal i (record rr { servers = l }))
unfolding after_removal
after_removal-Valid i rr [] v h lt = record {
  active_in_range = λ e. cc;
  limit_positive = v.limit_positive;
  counter_fits = v.counter_fits;
}
after_removal-Valid i rr (q ∷ qs) v h lt = record {
  active_in_range = λ e. ground (arith, v.active_in_range);
  limit_positive = ground (arith, v.limit_positive);
  counter_fits = ground (arith, v.counter_fits);
}

module _ {W : Type 0} where
  add-Valid : (r : ℕ) (p : Pool W) → Valid p.rr → Valid (add r p).rr
  unfolding add
  add-Valid r p v = record {
    active_in_range = λ h. omega (arith, v.active_in_range h, length-append p.servers (r ∷ []));
    limit_positive = v.limit_positive;
    counter_fits = v.counter_fits;
  }

module _ {W : Type 0} (env : Env W) where
  remove-Valid : (r : ℕ) (p : Pool W) → Valid p.rr → Valid (remove env r p).1.rr
  unfolding remove close_client
  remove-Valid r p v = elim (Option-cases (position_from r 0 p.servers)) [
    | inl e ↦ rw (e, remove) v
    | inr (i, e) ↦ elim (returned_or_not (close_client env r p).0) [
      | inl o ↦ rw (e, o, remove) v
      | inr (x, o) ↦
          rw (e, o, remove)
            (after_removal-Valid i p.rr (erase_idx p.servers i) v
              (length-erase_idx p.servers i (omega (arith, position_from-lt r 0 p.servers i e)))
              (omega (arith, position_from-lt r 0 p.servers i e)))
    ]
  ]

  close_each-rr : (rs : List ℕ) (p : Pool W) → (close_each env rs p).1.rr ≡ p.rr
  unfolding close_each close_client
  close_each-rr [] p = refl
  close_each-rr (r ∷ rs) p = elim (returned_or_not (close_client env r p).0) [
    | inl o ↦ rw (o, close_each) refl
    | inr (x, o) ↦ rw (o, close_each) (close_each-rr rs (close_client env r p).1)
  ]

  close_all-Valid : (p : Pool W) → Valid p.rr → Valid (close_all env p).1.rr
  unfolding close_all
  close_all-Valid p v =
      let w : Valid (close_each env p.servers p).1.rr =
        subst Valid (sym (close_each-rr p.servers p)) v in
      elim (returned_or_not (close_each env p.servers p).0) [
        | inl o ↦ rw (o, close_all) w
        | inr (x, o) ↦
            rw (o, close_all)
              record {
                active_in_range = λ e. cc;
                limit_positive = w.limit_positive;
                counter_fits = w.counter_fits;
              }
      ]

  check_one-rr :
      (r : ℕ) (report : HealthCheckReport) (p : Pool W) → (check_one env r report p).2.rr ≡ p.rr
  unfolding check_one check_connected probe check
  check_one-rr r report p = ground arith

  check_each-rr :
      (rs : List ℕ) (report : HealthCheckReport) (p : Pool W)
      → ((check_each env rs report p).2.rr ≡ p.rr)
        × (length (check_each env rs report p).0 ≡ length rs)
  unfolding check_each
  check_each-rr [] report p = (refl, refl)
  check_each-rr (r ∷ rs) report p =
      let rest = check_each-rr rs (check_one env r report p).1 (check_one env r report p).2 in
      (rest.0 ∙ check_one-rr r report p, ap suc rest.1)

  first_true-lt : (i : ℕ) (bs : List Bool) (k : ℕ) → first_true i bs ≡ some k → k < i + length bs
  unfolding first_true
  first_true-lt i [] k h = cc
  first_true-lt i (b ∷ bs) k h = ground (arith, first_true-lt (i + 1) bs k)

  connect_first-Valid :
      (idx : ℕ) (rs : List ℕ) (report : HealthCheckReport) (p : Pool W)
      → idx + length rs ≤ length p.servers
      → Valid p.rr
      → Valid (connect_first env idx rs report p).1.rr
  unfolding connect_first
  connect_first-Valid idx [] report p h v = clear_active-Valid p v
  connect_first-Valid idx (r ∷ rs) report p h v = elim (Outcome-cases (ensure env r p).0) [
    | inl e ↦ rw (e, connect_first) (unfold ensure in v)
    | inr (inl e) ↦
        rw (e, connect_first)
          (set_active-Valid idx _ (unfold ensure in omega arith) (unfold ensure in v))
    | inr (inr (m, e)) ↦
        rw (e, connect_first)
          (connect_first-Valid (idx + 1) rs report (ensure env r p).1 (unfold ensure in omega arith)
            (unfold ensure in v))
  ]

  switch-Valid :
      (healthy : List Bool) (report : HealthCheckReport) (p : Pool W)
      → length healthy ≡ length p.servers
      → Valid p.rr
      → Valid (switch env healthy report p).1.rr
  unfolding switch
  switch-Valid healthy report p h v = elim (Option-cases (first_true 0 healthy)) [
    | inl e ↦ rw (e, switch) (connect_first-Valid 0 p.servers report p (omega arith) v)
    | inr (k, e) ↦
        rw (e, switch) (set_active-Valid k p (omega (arith, first_true-lt 0 healthy k e)) v)
  ]

  after_checks-Valid :
      (healthy : List Bool) (report : HealthCheckReport) (p : Pool W)
      → length healthy ≡ length p.servers
      → Valid p.rr
      → Valid (after_checks env healthy report p).1.rr
  unfolding after_checks
  after_checks-Valid healthy report p h v =
      elim (Bool-cases (text_eq p.strategy strategy_failover)) [
        | inr e ↦ rw (e, after_checks) v
        | inl e ↦
            elim (Bool-cases (
              p.has_active
              && ltb p.active_idx (length healthy)
              && get_or healthy p.active_idx false)) [
                | inl f ↦ rw (e, f, after_checks) v
                | inr f ↦ rw (e, f, after_checks) (switch-Valid healthy _ p h v)
              ]
      ]

  run_health_checks-Valid : (p : Pool W) → Valid p.rr → Valid (run_health_checks env p).1.rr
  unfolding run_health_checks
  run_health_checks-Valid p v = elim (Bool-cases (length p.servers == 0)) [
    | inl e ↦ rw (e, run_health_checks) v
    | inr e ↦
        let done = check_each-rr p.servers empty_report p in
        rw (e, run_health_checks)
          (after_checks-Valid _ _ _ (done.1 ∙ ap (λ rr. length rr.servers) (sym done.0))
            (subst Valid (sym done.0) v))
  ]

-- A call of one of the pool's methods.
pub data Call : Type 0 where
  adds removes : ℕ → Call
  closes_all cleans_up checks_health : Call
  gets : Text → List Text → Call
  reports_failure : Option ℕ → Text → ℤ → ℤ → Option Error → Call
  reports_success : Option ℕ → Text → Call

module _ {W : Type 0} (env : Env W) where
  abbrev pub step : Pool W → Call → Pool W
  step p (adds r) = add r p
  step p (removes r) = (remove env r p).1
  step p closes_all = (close_all env p).1
  step p cleans_up = cleanup_expired_targets env p
  step p checks_health = (run_health_checks env p).1
  step p (gets target exclude) = (get_for_target env target exclude p).1
  step p (reports_failure r target threshold ttl e) =
      report_target_failure env r target threshold ttl e p
  step p (reports_success r target) = report_target_success r target p

  -- The calls in the order in which they take the lock.
  unfoldable pub run : Pool W → List Call → Pool W
  run p [] = p
  run p (c ∷ cs) = run (step p c) cs

  pub step-Valid : (p : Pool W) (c : Call) → Valid p.rr → Valid (step p c).rr
  unfolding report_target_failure report_target_success cleanup_expired_targets
  step-Valid p (adds r) v = add-Valid r p v
  step-Valid p (removes r) v = remove-Valid env r p v
  step-Valid p closes_all v = close_all-Valid env p v
  step-Valid p checks_health v = run_health_checks-Valid env p v
  step-Valid p (gets target exclude) v = get_for_target-Valid env target exclude p v
  step-Valid p _ v = ground (arith, v)

  -- Whatever methods are called, in whatever order, the active index names a server of the pool, the
  -- limit on connections is positive, and the counter fits 32 bits.
  pub run-Valid : (p : Pool W) (cs : List Call) → Valid p.rr → Valid (run p cs).rr
  unfolding run
  run-Valid p [] v = v
  run-Valid p (c ∷ cs) v = run-Valid (step p c) cs (step-Valid p c v)
