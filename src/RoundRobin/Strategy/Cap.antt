-- ===== src/RoundRobin/Strategy/Cap.antt =====
-- The load balancer keeps within its limit of connected upstreams.
use ssh_roundrobin.Prelude.{
  ℕ, ◌+◌, ◌≤◌, ◌<◌, ◌≡◌, ◌≢◌, refl, sym, ◌∙◌, ap, subst, Bool, true, List, [], ◌∷◌, arith, ltb, All,
  max, inl, inr, Bool-cases, ◌==◌, ◌⊎◌, ==_iff,
}
use ssh_roundrobin.Text.{Text, text_eq_iff}
use ssh_roundrobin.Env.{Env}
use ssh_roundrobin.RoundRobin.{Pool, connected_count, strategy_failover}
use ssh_roundrobin.RoundRobin.View.{up_at}
use ssh_roundrobin.RoundRobin.Strategy.{
  picked, eligible, try_client, next_index, clock, balance_scan, get_load_balance, get_for_target,
}
use ssh_roundrobin.RoundRobin.Strategy.Step.{try_client-Frame}
use ssh_roundrobin.RoundRobin.Strategy.Verdicts.{eligible-clients, visit-picked, visit_elsewhere}
use ssh_roundrobin.RoundRobin.Strategy.Passed.{try_client-up}
use ssh_roundrobin.RoundRobin.Strategy.Scan.{
  up_count, up_count-same, connected_count-up, connected_count-value, connected_count-rest,
}
use ssh_roundrobin.RoundRobin.Strategy.Loops.{balance_scan_rule}

-- No client stands twice in the list.
abbrev pub Distinct : List ℕ → Type 0
Distinct [] = Unit
Distinct (x ∷ xs) = All (λ y. x ≢ y) xs × Distinct xs

module _ {W : Type 0} (p q : Pool W) (r : ℕ)
    (elsewhere : (s : ℕ) → r ≢ s → up_at q s ≡ up_at p s) where
  up_count-apart : (rs : List ℕ) → All (λ y. r ≢ y) rs → up_count q rs ≡ up_count p rs
  up_count-apart [] h = refl
  up_count-apart (s ∷ rs) (h, hs) = ground (arith, elsewhere s h, up_count-apart rs hs)

  -- One client more can be connected, and stands in the list at most once.
  up_count_step : (rs : List ℕ) → Distinct rs → up_count q rs ≤ up_count p rs + 1
  up_count_step [] d = omega arith
  up_count_step (s ∷ rs) (apart, d) = elim (Bool-cases (r == s)) [
    | inl e ↦
        let same : r ≡ s = (==_iff r s).0 e in
        ground (arith, up_count-apart rs (subst (λ x. All (λ y. x ≢ y) rs) (sym same) apart))
    | inr e ↦ ground (arith, elsewhere s, up_count_step rs d)
  ]

module _ {W : Type 0} (env : Env W) (exclude : List Text) (target : Text) (now : ℕ) where
  try_client_elsewhere :
      (may : Bool) (r s : ℕ) (m : Pool W)
      → r ≢ s
      → up_at (try_client env may exclude target now r m).1 s ≡ up_at m s
  unfolding try_client
  try_client_elsewhere may r s m h =
      ap (λ c. up_at (record m { clients = λ _. c }) s) (visit_elsewhere env may _ r s _ h)
      ∙ ap (λ f. up_at (record m { clients = f }) s) (eligible-clients exclude target now r m)

  try_client-may :
      (may : Bool) (r : ℕ) (m : Pool W)
      → (try_client env may exclude target now r m).0 ≡ picked
      → (may ≡ true) ⊎ (up_at m r ≡ true)
  unfolding try_client
  try_client-may may r m v = ground (
    arith,
    visit-picked env may _ r (eligible exclude target now r m).1 v,
    ap (λ f. up_at (record m { clients = f }) r) (eligible-clients exclude target now r m),
  )

  -- The servers connected after a round that picks `r`.
  picked-le :
      (may : Bool) (r : ℕ) (rs : List ℕ) (m : Pool W)
      → Distinct rs
      → (try_client env may exclude target now r m).0 ≡ picked
      → (up_count (try_client env may exclude target now r m).1 rs ≤ up_count m rs)
        ⊎ ((may ≡ true)
            × (up_count (try_client env may exclude target now r m).1 rs ≤ up_count m rs + 1))
  picked-le may r rs m d v = elim (try_client-may may r m v) [
    | inl e ↦ inr (
      e,
      up_count_step m (try_client env may exclude target now r m).1 r
          (λ s. try_client_elsewhere may r s m) rs d,
    )
    | inr u ↦ inl (
        omega
          (arith, up_count-same m (try_client env may exclude target now r m).1 rs (all_same u)))
  ]
    where
      all_same :
          up_at m r ≡ true
          → (s : ℕ) → up_at (try_client env may exclude target now r m).1 s ≡ up_at m s
      all_same u s = elim (Bool-cases (r == s)) [
        | inl e ↦
            let same : r ≡ s = (==_iff r s).0 e in
            subst (λ x. up_at (try_client env may exclude target now r m).1 x ≡ up_at m x) same
              ((try_client-Frame env may exclude target now r m).stays_up r u ∙ sym u)
        | inr e ↦ try_client_elsewhere may r s m (ground arith)
      ]

  -- No more servers of `rs` are connected than in `p`, or no more than `limit`.
  abbrev Within : ℕ → Pool W → List ℕ → Pool W → Type 0
  Within limit p rs q = (up_count q rs ≤ up_count p rs) ⊎ (up_count q rs ≤ limit)

  balance_scan-Within :
      (may : Bool) (start limit : ℕ) (rs : List ℕ) (p m : Pool W)
      → Distinct rs
      → (may ≡ true → up_count p rs < limit)
      → ((s : ℕ) → up_at m s ≡ up_at p s)
      → (n : ℕ) → Within limit p rs (balance_scan env n 0 may start exclude target now m).1
  balance_scan-Within may start limit rs p m d room u n =
      balance_scan_rule env exclude target now may start n (λ _ q. (s : ℕ) → up_at q s ≡ up_at p s)
        (λ t. Within limit p rs t.1) (λ q h. unchanged q h) (λ c q _ h _. unchanged q h)
        (λ c r q _ h _ v. chosen r q h v)
        (λ c r q _ h _ v.
          unchanged (try_client env may exclude target now r q).1
            (λ s. try_client-up exclude target now env may r s q (λ e. cc) ∙ h s))
        (λ c r q _ h _ v s. try_client-up exclude target now env may r s q (λ e. cc) ∙ h s) n 0 m
        (omega arith) u
    where
      unchanged : (q : Pool W) → ((s : ℕ) → up_at q s ≡ up_at p s) → Within limit p rs q
      unchanged q h = inl (omega (arith, up_count-same p q rs h))

      chosen :
          (r : ℕ) (q : Pool W)
          → ((s : ℕ) → up_at q s ≡ up_at p s)
          → (try_client env may exclude target now r q).0 ≡ picked
          → Within limit p rs (try_client env may exclude target now r q).1
      chosen r q h v = ground (arith, picked-le may r rs q d v, up_count-same p q rs h, room)

balance_at_most :
    {W : Type 0} (env : Env W) (exclude : List Text) (target : Text) (p : Pool W)
    → Distinct p.servers
    → Within env exclude target 0 p.max_active p p.servers (get_load_balance env target exclude p).1
unfolding get_load_balance clock next_index
balance_at_most env exclude target p d =
    balance_scan-Within env exclude target _ _ _ p.max_active p.servers p
      (record (connected_count p).1 {
        rr = (next_index (connected_count p).1.rr).1;
        world = (env.now (connected_count p).1.world).1;
      })
      d room (connected_count-up p) _
  where
    room :
        ltb (connected_count p).0 (connected_count p).1.max_active ≡ true
        → up_count p p.servers < p.max_active
    room h =
        ground (arith, connected_count-value p, ap (λ rr. rr.max_active) (connected_count-rest p).1)

-- With load balancing, and no client listed twice, a selection leaves no more upstreams connected
-- than there were, or no more than `maxActive`.
pub get_for_target_cap :
    {W : Type 0} (env : Env W) (exclude : List Text) (target : Text) (p : Pool W)
    → p.strategy ≢ strategy_failover
    → Distinct p.servers
    → up_count (get_for_target env target exclude p).1 p.servers
      ≤ max (up_count p p.servers) p.max_active
unfolding get_for_target
get_for_target_cap env exclude target p s d =
    ground (arith, balance_at_most env exclude target p d, text_eq_iff p.strategy strategy_failover)
