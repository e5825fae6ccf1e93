-- ===== src/RoundRobin/Strategy/Passed.antt =====
-- The servers that a selection has passed over, and why.
use ssh_roundrobin.Prelude.{
  ℕ, ◌+◌, ◌<◌, ◌≡◌, ◌≢◌, ◌∙◌, ap, Bool, true, false, some, List, arith, get_elem?, ◌⊎◌,
}
use native.Mathlib.Decide.{dec_lt}
use mathlib.Core.Path.{subst}
use ssh_roundrobin.Text.{Text}
use ssh_roundrobin.Env.{Env}
use ssh_roundrobin.RoundRobin.{Pool, client_addr}
use ssh_roundrobin.RoundRobin.View.{Frame-addr, up_at, blocked}
use ssh_roundrobin.RoundRobin.Strategy.{picked, skipped, excluded, eligible, try_client}
use ssh_roundrobin.RoundRobin.Strategy.Verdicts.{
  eligible_lem, eligible-clients, eligible-rest, visit-skipped, visit-unpicked, visit-still,
}
use ssh_roundrobin.RoundRobin.Strategy.Scan.{Scan, Scan-trans, try_client-Scan}

-- Why a selection returns no server `r`: it is excluded, it is blocked, or it has no connection.
abbrev pub RuledOut : {W : Type 0} → List Text → Text → ℕ → Pool W → ℕ → Type 0
RuledOut exclude target now p r =
    (excluded (client_addr p r) exclude ≡ true)
    ⊎ (blocked p target now r ≡ true)
    ⊎ (up_at p r ≡ false)

module _ {W : Type 0} (exclude : List Text) (target : Text) (now : ℕ) where
  -- From `p` the selection has come to `m`, past the servers at `idx k` for `k < c`, and connected
  -- none and moved no active server.
  pub record Passed (idx : ℕ → ℕ) (p : Pool W) (c : ℕ) (m : Pool W) : Type 0 where
    pub scan : Scan target now p m
    pub same_up : (s : ℕ) → up_at m s ≡ up_at p s
    pub active_idx : m.active_idx ≡ p.active_idx
    pub has_active : m.has_active ≡ p.has_active
    pub over :
        (k r : ℕ) → k < c → get_elem? p.servers (idx k) ≡ some r → RuledOut exclude target now p r

  module _ (env : Env W) where
    -- A skipped server is ruled out in the pool where the selection began.
    try_client-RuledOut :
        (may : Bool) (r : ℕ) (p m : Pool W)
        → Scan target now p m
        → up_at m r ≡ up_at p r
        → (try_client env may exclude target now r m).0 ≡ skipped
        → RuledOut exclude target now p r
    unfolding try_client
    try_client-RuledOut may r p m s u v = ground (
      arith,
      visit-skipped env may (eligible exclude target now r m).0 r
          (eligible exclude target now r m).1 v,
      eligible_lem exclude target now r m,
      Frame-addr s.frame r,
      s.blocks r,
      ap (λ f. up_at (record m { clients = f }) r) (eligible-clients exclude target now r m),
      u,
    )

    pub try_client-up :
        (may : Bool) (r s : ℕ) (m : Pool W)
        → (try_client env may exclude target now r m).0 ≢ picked
        → up_at (try_client env may exclude target now r m).1 s ≡ up_at m s
    unfolding try_client
    try_client-up may r s m h =
        visit-unpicked env may _ r s _ h
        ∙ ap (λ f. up_at (record m { clients = f }) s) (eligible-clients exclude target now r m)

    over_next :
        (idx : ℕ → ℕ) (p : Pool W) (c : ℕ)
        → ((k r : ℕ)
            → k < c
            → get_elem? p.servers (idx k) ≡ some r
            → RuledOut exclude target now p r)
        → ((r : ℕ) → get_elem? p.servers (idx c) ≡ some r → RuledOut exclude target now p r)
        → (k r : ℕ) → k < c + 1
        → get_elem? p.servers (idx k) ≡ some r
        → RuledOut exclude target now p r
    over_next idx p c before here k r lt at = elim (dec_lt k c) [
      | yes h ↦ before k r h at
      | no h ↦ let e : c ≡ k = omega arith in here r (ap (λ j. get_elem? p.servers (idx j)) e ∙ at)
    ]

    -- A skipped server is one more that the selection has passed.
    pub Passed-skip :
        (may : Bool) (idx : ℕ → ℕ) (p : Pool W) (c r : ℕ) (m : Pool W)
        → Passed idx p c m
        → get_elem? p.servers (idx c) ≡ some r
        → (try_client env may exclude target now r m).0 ≡ skipped
        → Passed idx p (c + 1) (try_client env may exclude target now r m).1
    unfolding try_client
    Passed-skip may idx p c r m h at v = record {
      scan = Scan-trans target now h.scan (try_client-Scan target now env may exclude r m);
      same_up = λ s. try_client-up may r s m (λ e. cc) ∙ h.same_up s;
      active_idx =
          (visit-still env may _ r _).0 ∙ (eligible-rest exclude target now r m).0 ∙ h.active_idx;
      has_active =
          (visit-still env may _ r _).1 ∙ (eligible-rest exclude target now r m).1 ∙ h.has_active;
      over = over_next idx p c h.over λ q e.
          let same : r ≡ q = cc in
          subst (RuledOut exclude target now p) same
            (try_client-RuledOut may r p m h.scan (h.same_up r) v);
    }

    -- So is the active server, which failover has tried before.
    pub Passed-pass :
        (idx : ℕ → ℕ) (p : Pool W) (c : ℕ) (m : Pool W)
        → Passed idx p c m
        → ((r : ℕ) → get_elem? p.servers (idx c) ≡ some r → RuledOut exclude target now p r)
        → Passed idx p (c + 1) m
    Passed-pass idx p c m h tried = record {
      scan = h.scan;
      same_up = h.same_up;
      active_idx = h.active_idx;
      has_active = h.has_active;
      over = over_next idx p c h.over tried;
    }

  pub Passed-start :
      (idx : ℕ → ℕ) (p m : Pool W)
      → Scan target now p m
      → ((s : ℕ) → up_at m s ≡ up_at p s)
      → m.active_idx ≡ p.active_idx
      → m.has_active ≡ p.has_active
      → Passed idx p 0 m
  Passed-start idx p m s u a b = record {
    scan = s;
    same_up = u;
    active_idx = a;
    has_active = b;
    over = λ k r lt. absurd (omega arith);
  }
