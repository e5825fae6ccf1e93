-- ===== src/RoundRobin/Strategy/Complete.antt =====
-- What a failed selection promises: every server of the pool was ruled out.
use mathlib.Core.Path.{ap₂}
use native.Mathlib.Nat.{mod-eq_of_lt}
use ssh_roundrobin.Prelude.{
  ℕ, ◌+◌, ◌%◌, ◌^◌, ◌≤◌, ◌<◌, ◌≡◌, ◌≢◌, refl, sym, ◌∙◌, ap, subst, Bool, true, false, ◌&&◌, some,
  List, arith, ◌==◌, length, get_elem?, lt-of-get_elem?, ltb, Bool-cases, inl, inr, Option-cases,
}
use ssh_roundrobin.Prelude.Cyclic.{round_of, round_hits}
use ssh_roundrobin.Text.{Text, Error, text_eq, text_eq_iff}
use ssh_roundrobin.Outcome.{Result, ok, err, Outcome, returns, panics}
use ssh_roundrobin.Env.{Env}
use ssh_roundrobin.RoundRobin.{Pool, RoundRobin, connected_count, strategy_failover}
use ssh_roundrobin.RoundRobin.View.{up_at}
use ssh_roundrobin.RoundRobin.Strategy.{
  clear_active, Verdict, picked, skipped, crashed, try_client, next_index, clock, balance_scan,
  failover_scan, scan_next, after_active, failover_at, get_load_balance, get_failover,
  get_for_target,
}
use ssh_roundrobin.RoundRobin.Strategy.Scan.{
  world_Frame, counted_Frame, counted-Scan, Scan, Scan-trans, Scan-of_failures,
  connected_count-Scan, connected_count-rest, connected_count-up,
}
use ssh_roundrobin.RoundRobin.Strategy.Passed.{
  RuledOut, Passed, Passed-skip, Passed-pass, Passed-start,
}
use ssh_roundrobin.RoundRobin.Strategy.Loops.{
  balance_scan_rule, failover_scan_rule, balance_idx, failover_idx,
}

-- Every server of `p` is ruled out, and `q` has the connections that `p` had.
pub record NoneLeft {W : Type 0} (exclude : List Text) (target : Text) (now : ℕ) (p q : Pool W)
    : Type 0 where
  pub ruled_out : (i r : ℕ) → get_elem? p.servers i ≡ some r → RuledOut exclude target now p r
  pub same_up : (s : ℕ) → up_at q s ≡ up_at p s

abbrev pub Complete :
    {W : Type 0} → List Text → Text → ℕ → Pool W → Outcome (Result ℕ) × Pool W → Type 0
Complete exclude target now p (returns (ok r), q) = Unit
Complete exclude target now p (returns (err e), q) = NoneLeft exclude target now p q
Complete exclude target now p (panics, q) = Unit

module _ {W : Type 0} (env : Env W) (exclude : List Text) (target : Text) (now : ℕ) where
  Passed-all :
      (idx : ℕ → ℕ) (p m q : Pool W)
      → Passed exclude target now idx p (length p.servers) m
      → ((i : ℕ) → i < length p.servers → (c : ℕ) × (c < length p.servers) × (idx c ≡ i))
      → ((s : ℕ) → up_at q s ≡ up_at m s)
      → NoneLeft exclude target now p q
  Passed-all idx p m q h hits u = record {
    ruled_out = λ i r at.
        let (c, lt, e) = hits i (lt-of-get_elem? p.servers i at) in
        h.over c r lt (ap (get_elem? p.servers) e ∙ at);
    same_up = λ s. u s ∙ h.same_up s;
  }

  -- The load balancer's counter does not wrap during the scan.
  balance_scan-Complete :
      (may : Bool) (start : ℕ) (p m : Pool W)
      → start + length p.servers ≤ 2 ^ 32
      → Passed exclude target now (λ c. balance_idx start c p) p 0 m
      → Complete exclude target now p
          (balance_scan env (length p.servers) 0 may start exclude target now m)
  balance_scan-Complete may start p m fits h =
      balance_scan_rule env exclude target now may start (length p.servers)
        (Passed exclude target now (λ c. balance_idx start c p) p) (Complete exclude target now p)
        (λ q d. Passed-all _ p q q d hits (λ s. refl)) (λ c q _ _ _. tt) (λ c r q _ _ _ _. tt)
        (λ c r q _ _ _ _. tt)
        (λ c r q _ d at v.
          Passed-skip exclude target now env may _ p c r q d
            (sym (ap (λ l. get_elem? l ((start + c) % 2 ^ 32 % length l)) d.scan.frame.servers)
              ∙ at)
            v)
        (length p.servers) 0 m (omega arith) h
    where
      hits :
          (i : ℕ)
          → i < length p.servers
          → (c : ℕ) × (c < length p.servers) × (balance_idx start c p ≡ i)
      hits i lt =
          let (below, e) = round_hits (length p.servers) start i lt in
          (
            round_of (length p.servers) (start % length p.servers) i,
            below,
            ap (λ k. k % length p.servers) (mod-eq_of_lt (omega arith)) ∙ e,
          )

  failover_scan-Complete :
      (start : ℕ) (p m : Pool W)
      → Passed exclude target now (λ c. failover_idx start c p) p 0 m
      → (p.has_active ≡ true
          → (r : ℕ) → get_elem? p.servers p.active_idx ≡ some r
          → RuledOut exclude target now p r)
      → Complete exclude target now p
          (failover_scan env (length p.servers) 0 start exclude target now m)
  failover_scan-Complete start p m h tried =
      failover_scan_rule env exclude target now start (length p.servers)
        (Passed exclude target now (λ c. failover_idx start c p) p) (Complete exclude target now p)
        (λ q d. Passed-all _ p q _ d hits (λ s. unfold clear_active in refl))
        (λ c q _ d same. Passed-pass exclude target now env _ p c q d (over_active c q d same))
        (λ c q _ _ _. tt) (λ c r q _ _ _ _. tt) (λ c r q _ _ _ _. tt)
        (λ c r q _ d _ at v.
          Passed-skip exclude target now env true _ p c r q d (moved c r q d at) v)
        (length p.servers) 0 m (omega arith) h
    where
      hits :
          (i : ℕ)
          → i < length p.servers
          → (c : ℕ) × (c < length p.servers) × (failover_idx start c p ≡ i)
      hits i lt =
          let (below, e) = round_hits (length p.servers) start i lt in
          (round_of (length p.servers) (start % length p.servers) i, below, e)

      moved :
          (c r : ℕ) (q : Pool W)
          → Passed exclude target now (λ c. failover_idx start c p) p c q
          → get_elem? q.servers (failover_idx start c q) ≡ some r
          → get_elem? p.servers (failover_idx start c p) ≡ some r
      moved c r q d at =
          sym (ap (λ l. get_elem? l ((start + c) % length l)) d.scan.frame.servers) ∙ at

      over_active :
          (c : ℕ) (q : Pool W)
          → Passed exclude target now (λ c. failover_idx start c p) p c q
          → (q.has_active && (failover_idx start c q == q.active_idx)) ≡ true
          → (r : ℕ) → get_elem? p.servers (failover_idx start c p) ≡ some r
          → RuledOut exclude target now p r
      over_active c q d same r at =
          let both : (q.has_active ≡ true) × (failover_idx start c q ≡ q.active_idx) =
            ground arith in
          tried (sym d.has_active ∙ both.0) r (
            ap (get_elem? p.servers) (
              sym d.active_idx ∙ sym both.1 ∙ ap (λ l. (start + c) % length l) d.scan.frame.servers)
            ∙ at)

  -- The same in a pool that has come from `p`, over its own number of servers.
  failover_from-Complete :
      (n start : ℕ) (p m : Pool W)
      → n ≡ length p.servers
      → Passed exclude target now (λ c. failover_idx start c p) p 0 m
      → (p.has_active ≡ true
          → (r : ℕ) → get_elem? p.servers p.active_idx ≡ some r
          → RuledOut exclude target now p r)
      → Complete exclude target now p (failover_scan env n 0 start exclude target now m)
  failover_from-Complete n start p m e h tried = rw e (failover_scan-Complete start p m h tried)

  module _ (p m : Pool W) (s : Scan target now p m) (u : (s : ℕ) → up_at m s ≡ up_at p s)
      (a : m.active_idx ≡ p.active_idx) (b : m.has_active ≡ p.has_active) where
    scan_next-Complete :
        (p.has_active ≡ true
          → (r : ℕ) → get_elem? p.servers p.active_idx ≡ some r
          → RuledOut exclude target now p r)
        → Complete exclude target now p (scan_next env exclude target now m)
    unfolding scan_next next_index
    scan_next-Complete tried = elim (Bool-cases (m.has_active && ltb 0 (length m.servers))) [
      | inl e ↦
          rw (e, scan_next)
            (failover_from-Complete _ _ p m (ap length s.frame.servers)
              (Passed-start exclude target now _ p m s u a b) tried)
      | inr e ↦
          rw (e, scan_next)
            (failover_from-Complete _ _ p _ (ap length s.frame.servers)
              (Passed-start exclude target now _ p _ (counted-Scan target now p m s) u a b) tried)
    ]

  module _ (p m : Pool W) (s : Scan target now p m) (u : (s : ℕ) → up_at m s ≡ up_at p s)
      (a : m.active_idx ≡ p.active_idx) (b : m.has_active ≡ p.has_active) where
    -- The active server, when it is skipped, is ruled out as well.
    after_active-Complete :
        (v : Verdict) (r : ℕ)
        → get_elem? m.servers m.active_idx ≡ some r
        → (try_client env true exclude target now r m).0 ≡ v
        → Complete exclude target now p
            (after_active env v exclude target now r (try_client env true exclude target now r m).1)
    unfolding after_active
    after_active-Complete picked r at v = tt
    after_active-Complete crashed r at v = tt
    after_active-Complete skipped r at v =
        scan_next-Complete p _ d.scan d.same_up d.active_idx d.has_active
          (λ _ q e. d.over 0 q (omega arith) e)
      where
        at_p : get_elem? p.servers p.active_idx ≡ some r
        at_p = ap₂ get_elem? (sym s.frame.servers) (sym a) ∙ at

        d :
            Passed exclude target now
              (λ _. p.active_idx)
              p
              (0 + 1)
              (try_client env true exclude target now r m).1
        d =
            Passed-skip exclude target now env true (λ _. p.active_idx) p 0 r m
              (Passed-start exclude target now _ p m s u a b) at_p v

    failover_at-Complete :
        (p.has_active ≡ true → p.active_idx < length p.servers)
        → Complete exclude target now p (failover_at env exclude target now m)
    unfolding failover_at
    failover_at-Complete wf =
        elim (Bool-cases (m.has_active && ltb m.active_idx (length m.servers))) [
          | inr e ↦
              rw (e, failover_at)
                (scan_next-Complete p m s u a b (λ h. absurd (no_active e (wf h) h)))
          | inl e ↦ elim (Option-cases (get_elem? m.servers m.active_idx)) [
            | inl at ↦ rw (e, at, failover_at) tt
            | inr (r, at) ↦ rw (e, at, failover_at) (after_active-Complete _ r at refl)
          ]
        ]
      where
        no_active :
            (m.has_active && ltb m.active_idx (length m.servers)) ≡ false
            → p.active_idx < length p.servers
            → p.has_active ≡ true
            → ⊥
        no_active e lt h = ground (arith, a, b, ap length s.frame.servers)

-- The counter as the load balancer reads it.
next_index_value : (rr : RoundRobin) → rr.index < 2 ^ 32 → (next_index rr).0 ≡ rr.index
unfolding next_index
next_index_value rr h = omega arith

module _ {W : Type 0} (env : Env W) (exclude : List Text) (target : Text) (p : Pool W) where
  get_failover-Complete :
      (p.has_active ≡ true → p.active_idx < length p.servers)
      → Complete exclude target (env.now p.world).0 p (get_failover env target exclude p)
  unfolding get_failover clock
  get_failover-Complete wf =
      failover_at-Complete env exclude target (env.now p.world).0 p
        (record p { world = (env.now p.world).1 })
        (Scan-of_failures target _ (world_Frame p _) refl) (λ s. refl) refl refl wf

  module _ (fits : p.index + length p.servers ≤ 2 ^ 32) where
    balance_from-Complete :
        (n now start : ℕ) (may : Bool) (m : Pool W)
        → n ≡ length p.servers
        → now ≡ (env.now p.world).0
        → start + length p.servers ≤ 2 ^ 32
        → Scan target (env.now p.world).0 p m
        → ((s : ℕ) → up_at m s ≡ up_at p s)
        → m.active_idx ≡ p.active_idx
        → m.has_active ≡ p.has_active
        → Complete exclude target
            (env.now p.world).0
            p
            (balance_scan env n 0 may start exclude target now m)
    balance_from-Complete n now start may m e f g s u a b =
        rw (e, f)
          (balance_scan-Complete env exclude target (env.now p.world).0 may start p m g
            (Passed-start exclude target _ _ p m s u a b))

    get_load_balance-Complete :
        0 < length p.servers
        → Complete exclude target (env.now p.world).0 p (get_load_balance env target exclude p)
    unfolding get_load_balance clock next_index
    get_load_balance-Complete some_server =
        balance_from-Complete _ _ _ _ _ (ap (λ rr. length rr.servers) rest.1)
          (ap (λ w. (env.now w).0) rest.0) (omega (arith, ap (λ rr. rr.index) rest.1))
          (Scan-trans target _ (connected_count-Scan target _ p)
            (Scan-of_failures target _ (counted_Frame _ _) refl))
          (connected_count-up p) (ap (λ rr. rr.active_idx) rest.1) (ap (λ rr. rr.has_active) rest.1)
      where
        rest : ((connected_count p).1.world ≡ p.world) × ((connected_count p).1.rr ≡ p.rr)
        rest = connected_count-rest p

all-Complete :
    {W : Type 0} (env : Env W) (exclude : List Text) (target : Text) (p : Pool W)
    → (p.has_active ≡ true → p.active_idx < length p.servers)
    → (p.strategy ≢ strategy_failover → p.index + length p.servers ≤ 2 ^ 32)
    → Complete exclude target (env.now p.world).0 p (get_for_target env target exclude p)
unfolding get_for_target
all-Complete env exclude target p wf fits = elim (Bool-cases (length p.servers == 0)) [
  | inl e ↦
      rw (e, get_for_target)
        (record {
          ruled_out = λ i r at. absurd (empty_list e (lt-of-get_elem? p.servers i at));
          same_up = λ s. refl;
        })
  | inr e ↦ elim (Bool-cases (text_eq p.strategy strategy_failover)) [
    | inl f ↦ rw (e, f, get_for_target) (get_failover-Complete env exclude target p wf)
    | inr f ↦
        rw (e, f, get_for_target)
          (get_load_balance-Complete env exclude target p (fits (λ same. not_same f same))
            (some_server e))
  ]
]
  where
    empty_list : (length p.servers == 0) ≡ true → {i : ℕ} → i < length p.servers → ⊥
    empty_list e lt = ground arith

    some_server : (length p.servers == 0) ≡ false → 0 < length p.servers
    some_server e = ground arith

    not_same : text_eq p.strategy strategy_failover ≡ false → p.strategy ≡ strategy_failover → ⊥
    not_same f same = ground (arith, text_eq_iff p.strategy strategy_failover)

-- An error of `GetForTarget` means that every server in the pool was excluded, blocked for the
-- target, or not connected, and that no connection was made or lost by the attempt. The active
-- index is to be in range (failover), and the counter not to wrap during the scan (load balancing).
pub get_for_target-NoneLeft :
    {W : Type 0} (env : Env W) (exclude : List Text) (target : Text) (p q : Pool W) (e : Error)
    → (p.has_active ≡ true → p.active_idx < length p.servers)
    → (p.strategy ≢ strategy_failover → p.index + length p.servers ≤ 2 ^ 32)
    → get_for_target env target exclude p ≡ (returns (err e), q)
    → NoneLeft exclude target (env.now p.world).0 p q
get_for_target-NoneLeft env exclude target p q e wf fits h =
    subst (Complete exclude target (env.now p.world).0 p) h
      (all-Complete env exclude target p wf fits)
