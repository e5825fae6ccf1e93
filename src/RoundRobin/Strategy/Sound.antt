-- ===== src/RoundRobin/Strategy/Sound.antt =====
-- What a successful selection promises of the server that it returns.
use mathlib.Core.Path.{ap₂}
use ssh_roundrobin.Prelude.{
  ℕ, ◌≡◌, ◌≢◌, refl, sym, ◌∙◌, ap, subst, Bool, true, false, ◌&&◌, none, some, List, [], arith,
  ◌==◌, length, get_elem?, ltb, Bool-cases, inl, inr, Option-cases,
}
use ssh_roundrobin.Text.{Text, text_eq}
use ssh_roundrobin.Dict
use ssh_roundrobin.Outcome.{Result, ok, err, Outcome, returns, panics}
use ssh_roundrobin.Env.{Env}
use ssh_roundrobin.SshClient.Laws.{Connects}
use ssh_roundrobin.RoundRobin.{Pool, client_addr, target_failure_key, strategy_failover}
use ssh_roundrobin.RoundRobin.View.{Frame-addr, Frame-trans, up_at, blocked, failure_of}
use ssh_roundrobin.RoundRobin.Strategy.{
  Verdict, picked, skipped, crashed, excluded, eligible, try_client, next_index, clock, set_active,
  balance_scan, failover_scan, scan_next, after_active, failover_at, get_load_balance, get_failover,
  get_for_target,
}
use ssh_roundrobin.RoundRobin.Strategy.Step.{visit-Frame, try_client-Frame}
use ssh_roundrobin.RoundRobin.Strategy.Verdicts.{
  eligible_lem, eligible_forgets, visit-failures, visit-picked, visit-picked_up,
}
use ssh_roundrobin.RoundRobin.Strategy.Scan.{
  world_Frame, counted_Frame, counted-Scan, Scan, Scan-trans, Scan-of_failures, try_client-Scan,
  connected_count-Scan, connected_count-rest,
}
use ssh_roundrobin.RoundRobin.Strategy.Loops.{balance_scan_rule, failover_scan_rule}

-- `r` was a good choice in `p`, and `q` is the pool afterwards.
pub record Chosen {W : Type 0} (exclude : List Text) (target : Text) (now : ℕ) (p q : Pool W)
    (r : ℕ) : Type 0 where
  pub listed : (i : ℕ) × (get_elem? p.servers i ≡ some r)
  pub included : excluded (client_addr p r) exclude ≡ false
  pub unblocked : blocked p target now r ≡ false
  pub connected : up_at q r ≡ true
  pub forgotten : target ≢ [] → failure_of q target r ≡ none
  pub named : client_addr q r ≡ client_addr p r

abbrev pub Sound :
    {W : Type 0} → List Text → Text → ℕ → Pool W → Outcome (Result ℕ) × Pool W → Type 0
Sound exclude target now p (returns (ok r), q) = Chosen exclude target now p q r
Sound exclude target now p (returns (err e), q) = Unit
Sound exclude target now p (panics, q) = Unit

module _ {W : Type 0} (env : Env W) (net : Connects env) (exclude : List Text) (target : Text)
    (now : ℕ) where
  -- A choice in a pool that a selection has reached from `p` is a choice in `p`.
  try_client-Chosen :
      (may : Bool) (r i : ℕ) (p m : Pool W)
      → Scan target now p m
      → get_elem? m.servers i ≡ some r
      → (try_client env may exclude target now r m).0 ≡ picked
      → Chosen exclude target now p (try_client env may exclude target now r m).1 r
  unfolding try_client
  try_client-Chosen may r i p m s at v = record {
    listed = (i, ap (λ l. get_elem? l i) (sym s.frame.servers) ∙ at);
    included = ap (λ a. excluded a exclude) (sym (Frame-addr s.frame r)) ∙ guards.0;
    unblocked = sym (s.blocks r) ∙ guards.1;
    connected = visit-picked_up env net may _ r _ v;
    forgotten = λ t.
        ap₂ (λ m a. Dict.get m (target_failure_key a target)) (visit-failures env may _ r _)
          (Frame-addr (visit-Frame env may _ r _) r)
        ∙ eligible_forgets exclude target now r m t fit;
    named = Frame-addr (Frame-trans s.frame (try_client-Frame env may exclude target now r m)) r;
  }
    where
      fit : (eligible exclude target now r m).0 ≡ true
      fit = (visit-picked env may _ r _ v).0

      guards : (excluded (client_addr m r) exclude ≡ false) × (blocked m target now r ≡ false)
      guards = ground (arith, fit, eligible_lem exclude target now r m)

  set_active-Chosen :
      (idx r : ℕ) (p q : Pool W)
      → Chosen exclude target now p q r
      → Chosen exclude target now p (set_active idx q) r
  unfolding set_active
  set_active-Chosen idx r p q c = record {
    listed = c.listed;
    included = c.included;
    unblocked = c.unblocked;
    connected = c.connected;
    forgotten = c.forgotten;
    named = c.named;
  }

  balance_scan-Sound :
      (may : Bool) (start : ℕ) (p m : Pool W)
      → Scan target now p m
      → Sound exclude target now p
          (balance_scan env (length m.servers) 0 may start exclude target now m)
  balance_scan-Sound may start p m s =
      balance_scan_rule env exclude target now may start (length m.servers)
        (λ _ q. Scan target now p q) (Sound exclude target now p) (λ q h. tt) (λ c q _ h _. tt)
        (λ c r q _ h at v. try_client-Chosen may r _ p q h at v) (λ c r q _ h _ _. tt)
        (λ c r q _ h _ _. Scan-trans target now h (try_client-Scan target now env may exclude r q))
        (length m.servers) 0 m (omega arith) s

  failover_scan-Sound :
      (start : ℕ) (p m : Pool W)
      → Scan target now p m
      → Sound exclude target now p
          (failover_scan env (length m.servers) 0 start exclude target now m)
  failover_scan-Sound start p m s =
      failover_scan_rule env exclude target now start (length m.servers)
        (λ _ q. Scan target now p q) (Sound exclude target now p) (λ q h. tt) (λ c q _ h _. h)
        (λ c q _ h _. tt)
        (λ c r q _ h at v. set_active-Chosen _ r p _ (try_client-Chosen true r _ p q h at v))
        (λ c r q _ h _ _. tt)
        (λ c r q _ h _ _ _.
          Scan-trans target now h (try_client-Scan target now env true exclude r q))
        (length m.servers) 0 m (omega arith) s

  scan_next-Sound :
      (p m : Pool W)
      → Scan target now p m
      → Sound exclude target now p (scan_next env exclude target now m)
  unfolding scan_next next_index
  scan_next-Sound p m s = elim (Bool-cases (m.has_active && ltb 0 (length m.servers))) [
    | inl e ↦ rw (e, scan_next) (failover_scan-Sound _ p m s)
    | inr e ↦ rw (e, scan_next) (failover_scan-Sound _ p _ (counted-Scan target now p m s))
  ]

  after_active-Sound :
      (v : Verdict) (r i : ℕ) (p m : Pool W)
      → Scan target now p m
      → get_elem? m.servers i ≡ some r
      → (try_client env true exclude target now r m).0 ≡ v
      → Sound exclude target now p
          (after_active env v exclude target now r (try_client env true exclude target now r m).1)
  unfolding after_active
  after_active-Sound picked r i p m s at e = try_client-Chosen true r i p m s at e
  after_active-Sound skipped r i p m s at e =
      scan_next-Sound p _
        (Scan-trans target now s (try_client-Scan target now env true exclude r m))
  after_active-Sound crashed r i p m s at e = tt

  failover_at-Sound :
      (p m : Pool W)
      → Scan target now p m
      → Sound exclude target now p (failover_at env exclude target now m)
  unfolding failover_at
  failover_at-Sound p m s =
      elim (Bool-cases (m.has_active && ltb m.active_idx (length m.servers))) [
        | inr e ↦ rw (e, failover_at) (scan_next-Sound p m s)
        | inl e ↦ elim (Option-cases (get_elem? m.servers m.active_idx)) [
          | inl at ↦ rw (e, at, failover_at) tt
          | inr (r, at) ↦ rw (e, at, failover_at) (after_active-Sound _ r _ p m s at refl)
        ]
      ]

module _ {W : Type 0} (env : Env W) (net : Connects env) (exclude : List Text) (target : Text)
    (p : Pool W) where
  -- The clock as a selection reads it.
  abbrev pub now_of : ℕ
  now_of = (env.now p.world).0

  get_failover-Sound : Sound exclude target now_of p (get_failover env target exclude p)
  unfolding get_failover clock
  get_failover-Sound =
      failover_at-Sound env net exclude target now_of p _
        (Scan-of_failures target now_of (world_Frame p _) refl)

  balance_from-Sound :
      (now : ℕ) (may : Bool) (start : ℕ) (m : Pool W)
      → now ≡ now_of
      → Scan target now_of p m
      → Sound exclude target now_of p
          (balance_scan env (length m.servers) 0 may start exclude target now m)
  balance_from-Sound now may start m e s =
      rw e (balance_scan-Sound env net exclude target now_of may start p m s)

  get_load_balance-Sound : Sound exclude target now_of p (get_load_balance env target exclude p)
  unfolding get_load_balance clock next_index
  get_load_balance-Sound =
      balance_from-Sound _ _ _ _ (ap (λ w. (env.now w).0) (connected_count-rest p).0) (
        Scan-trans target now_of (connected_count-Scan target now_of p)
          (Scan-of_failures target now_of (counted_Frame _ _) refl))

  get_for_target-Sound : Sound exclude target now_of p (get_for_target env target exclude p)
  unfolding get_for_target
  get_for_target-Sound = elim (Bool-cases (length p.servers == 0)) [
    | inl e ↦ rw (e, get_for_target) tt
    | inr e ↦ elim (Bool-cases (text_eq p.strategy strategy_failover)) [
      | inl f ↦ rw (e, f, get_for_target) get_failover-Sound
      | inr f ↦ rw (e, f, get_for_target) get_load_balance-Sound
    ]
  ]

-- A server that `GetForTarget` returns stands in the pool, is not excluded, is not blocked for the
-- target at the time of the call, is connected afterwards, has no failure of the target left on
-- record, and keeps its address. The SSH library is to return only connections that have their transport.
pub get_for_target-Chosen :
    {W : Type 0} (env : Env W) (exclude : List Text) (target : Text) (p q : Pool W) (r : ℕ)
    → Connects env
    → get_for_target env target exclude p ≡ (returns (ok r), q)
    → Chosen exclude target (env.now p.world).0 p q r
get_for_target-Chosen env exclude target p q r net h =
    subst (Sound exclude target (env.now p.world).0 p) h
      (get_for_target-Sound env net exclude target p)
