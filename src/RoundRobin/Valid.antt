-- ===== src/RoundRobin/Valid.antt =====
-- The pool's invariant: the active index names a server, the limit is positive, and the counter fits
-- its 32 bits. Every method keeps it.
pub mod Methods
use ssh_roundrobin.Prelude.{
  ℕ, zero, suc, ◌+◌, ◌%◌, ◌^◌, ◌≤◌, ◌<◌, ◌≡◌, ◌≢◌, refl, sym, ◌∙◌, ap, subst, Bool, true, false,
  ◌&&◌, Option, none, some, List, [], ◌∷◌, ◌++◌, arith, ◌==◌, length, get_elem?, erase_idx,
  length-append, lt-of-get_elem?, ltb, Bool-cases, inl, inr, ◌⊎◌, Option-cases, ℤ, if◌then◌else◌,
}
use ssh_roundrobin.Text.{Text, Error, text_eq}
use ssh_roundrobin.Outcome.{Result, ok, err, Outcome, returns, panics}
use ssh_roundrobin.Env.{Env}
use ssh_roundrobin.RoundRobin.{
  Pool, RoundRobin, probe, add, remove, close_all, after_removal, position_from, close_client,
  close_each, report_target_failure, report_target_success, cleanup_expired_targets,
  new_round_robin, connected_count, strategy_failover, is_target_blocked, notify_connection_error,
}
use ssh_roundrobin.RoundRobin.Strategy.{
  Verdict, picked, skipped, crashed, eligible, visit, try_client, next_index, clock, set_active,
  clear_active, ensure, balance_scan, failover_scan, scan_next, after_active, failover_at,
  get_load_balance, get_failover, get_for_target,
}
use ssh_roundrobin.RoundRobin.Strategy.Step.{try_client-Frame}
use ssh_roundrobin.RoundRobin.Strategy.Verdicts.{eligible-rest, visit-still}
use ssh_roundrobin.RoundRobin.Strategy.Scan.{connected_count-rest}
use ssh_roundrobin.RoundRobin.Strategy.Loops.{balance_scan_rule, failover_scan_rule, failover_idx}

pub record Valid (rr : RoundRobin) : Type 0 where
  pub active_in_range : rr.has_active ≡ true → rr.active_idx < length rr.servers
  pub limit_positive : 1 ≤ rr.max_active
  pub counter_fits : rr.index < 2 ^ 32

pub new_round_robin-Valid :
    (strategy : Text) (max_active : ℤ) → Valid (new_round_robin strategy max_active)
unfolding new_round_robin
new_round_robin-Valid strategy max_active = ground arith

next_index-Valid : (rr : RoundRobin) → Valid rr → Valid (next_index rr).1
unfolding next_index
next_index-Valid rr v = record {
  active_in_range = v.active_in_range;
  limit_positive = v.limit_positive;
  counter_fits = omega arith;
}

module _ {W : Type 0} where
  pub set_active-Valid :
      (idx : ℕ) (p : Pool W) → idx < length p.servers → Valid p.rr → Valid (set_active idx p).rr
  unfolding set_active
  set_active-Valid idx p lt v = record {
    active_in_range = λ _. lt;
    limit_positive = v.limit_positive;
    counter_fits = v.counter_fits;
  }

  pub clear_active-Valid : (p : Pool W) → Valid p.rr → Valid (clear_active p).rr
  unfolding clear_active
  clear_active-Valid p v = record {
    active_in_range = λ h. cc;
    limit_positive = v.limit_positive;
    counter_fits = v.counter_fits;
  }

  -- A step that leaves these fields.
  pub Valid-of_fields :
      (p q : Pool W)
      → q.servers ≡ p.servers
      → q.max_active ≡ p.max_active
      → q.active_idx ≡ p.active_idx
      → q.has_active ≡ p.has_active
      → q.index ≡ p.index
      → Valid p.rr
      → Valid q.rr
  Valid-of_fields p q s m a b i v = record {
    active_in_range = λ h. ground (arith, ap length s, v.active_in_range (sym b ∙ h));
    limit_positive = omega (arith, v.limit_positive);
    counter_fits = omega (arith, v.counter_fits);
  }

module _ {W : Type 0} (env : Env W) (exclude : List Text) (target : Text) (now : ℕ) where
  try_client-Valid :
      (may : Bool) (r : ℕ) (p : Pool W)
      → Valid p.rr
      → Valid (try_client env may exclude target now r p).1.rr
  try_client-Valid may r p v =
      let frame = try_client-Frame env may exclude target now r p in
      Valid-of_fields p (try_client env may exclude target now r p).1 frame.servers frame.max_active
        (unfold try_client in
          (visit-still env may _ r _).0 ∙ (eligible-rest exclude target now r p).0)
        (unfold try_client in
          (visit-still env may _ r _).1 ∙ (eligible-rest exclude target now r p).1)
        (unfold try_client in
          (visit-still env may _ r _).2 ∙ (eligible-rest exclude target now r p).2)
        v

  balance_scan-Valid :
      (may : Bool) (start n : ℕ) (p : Pool W)
      → Valid p.rr
      → Valid (balance_scan env n 0 may start exclude target now p).1.rr
  balance_scan-Valid may start n p v =
      balance_scan_rule env exclude target now may start n (λ _ q. Valid q.rr) (λ t. Valid t.1.rr)
        (λ q h. h) (λ c q _ h _. h) (λ c r q _ h _ _. try_client-Valid may r q h)
        (λ c r q _ h _ _. try_client-Valid may r q h) (λ c r q _ h _ _. try_client-Valid may r q h)
        n 0 p (omega arith) v

  failover_scan-Valid :
      (start n : ℕ) (p : Pool W)
      → Valid p.rr
      → Valid (failover_scan env n 0 start exclude target now p).1.rr
  failover_scan-Valid start n p v =
      failover_scan_rule env exclude target now start n (λ _ q. Valid q.rr) (λ t. Valid t.1.rr)
        (λ q h. clear_active-Valid q h) (λ c q _ h _. h) (λ c q _ h _. h)
        (λ c r q _ h at _.
          set_active-Valid (failover_idx start c q) _
            (subst (λ l. failover_idx start c q < length l)
              (sym (try_client-Frame env true exclude target now r q).servers)
              (lt-of-get_elem? q.servers _ at))
            (try_client-Valid true r q h))
        (λ c r q _ h _ _. try_client-Valid true r q h)
        (λ c r q _ h _ _ _. try_client-Valid true r q h) n 0 p (omega arith) v

  scan_next-Valid : (p : Pool W) → Valid p.rr → Valid (scan_next env exclude target now p).1.rr
  unfolding scan_next
  scan_next-Valid p v = elim (Bool-cases (p.has_active && ltb 0 (length p.servers))) [
    | inl e ↦ rw (e, scan_next) (failover_scan-Valid _ _ p v)
    | inr e ↦ rw (e, scan_next) (failover_scan-Valid _ _ _ (next_index-Valid p.rr v))
  ]

  after_active-Valid :
      (v : Verdict) (r : ℕ) (p : Pool W)
      → Valid p.rr
      → Valid (after_active env v exclude target now r p).1.rr
  unfolding after_active
  after_active-Valid picked r p h = h
  after_active-Valid crashed r p h = h
  after_active-Valid skipped r p h = scan_next-Valid p h

  failover_at-Valid : (p : Pool W) → Valid p.rr → Valid (failover_at env exclude target now p).1.rr
  unfolding failover_at
  failover_at-Valid p v = elim (Bool-cases (p.has_active && ltb p.active_idx (length p.servers))) [
    | inr e ↦ rw (e, failover_at) (scan_next-Valid p v)
    | inl e ↦ elim (Option-cases (get_elem? p.servers p.active_idx)) [
      | inl at ↦ rw (e, at, failover_at) v
      | inr (r, at) ↦
          rw (e, at, failover_at) (after_active-Valid _ r _ (try_client-Valid true r p v))
    ]
  ]

module _ {W : Type 0} (env : Env W) where
  get_load_balance-Valid :
      (target : Text) (exclude : List Text) (p : Pool W)
      → Valid p.rr
      → Valid (get_load_balance env target exclude p).1.rr
  unfolding get_load_balance clock
  get_load_balance-Valid target exclude p v =
      balance_scan-Valid env exclude target _ _ _ _ _
        (next_index-Valid _ (subst Valid (sym (connected_count-rest p).1) v))

  pub get_for_target-Valid :
      (target : Text) (exclude : List Text) (p : Pool W)
      → Valid p.rr
      → Valid (get_for_target env target exclude p).1.rr
  unfolding get_for_target
  get_for_target-Valid target exclude p v = elim (Bool-cases (length p.servers == 0)) [
    | inl e ↦ rw (e, get_for_target) v
    | inr e ↦ elim (Bool-cases (text_eq p.strategy strategy_failover)) [
      | inl f ↦
          rw (e, f, get_for_target)
            (unfold get_failover clock in failover_at-Valid env exclude target _ _ v)
      | inr f ↦ rw (e, f, get_for_target) (get_load_balance-Valid target exclude p v)
    ]
  ]
