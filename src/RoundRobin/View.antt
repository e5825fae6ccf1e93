-- ===== src/RoundRobin/View.antt =====
-- What a client of the pool can observe, and the frame that a selection keeps: the servers and
-- their addresses, the settings, and every connection that was up.
use ssh_roundrobin.Prelude.{
  ℕ, ◌≡◌, refl, ◌∙◌, Bool, true, false, ◌&&◌, not, Option, none, some, ltb, arith,
}
use ssh_roundrobin.Text.{Text, is_empty}
use ssh_roundrobin.Dict
use ssh_roundrobin.Dict.{Dict}
use ssh_roundrobin.SshClient.{server_addr}
use ssh_roundrobin.SshClient.Laws.{up}
use ssh_roundrobin.RoundRobin.{Pool, TargetFailure, target_failure_key, client_addr}

-- The upstream-target pair is blocked at the time `now`.
abbrev pub blocks_in : Dict TargetFailure → Text → Text → ℕ → Bool
blocks_in failures upstream target now =
    elim (Dict.get failures (target_failure_key upstream target)) [
      | none ↦ false
      | some s ↦ ltb now s.blocked_until && not (is_empty target)
    ]

module _ {W : Type 0} where
  -- `client.IsConnected()` without its effect.
  abbrev pub up_at : Pool W → ℕ → Bool
  up_at p r = up (p.clients r)

  abbrev pub failure_of : Pool W → Text → ℕ → Option TargetFailure
  failure_of p target r = Dict.get p.target_failures (target_failure_key (client_addr p r) target)

  abbrev pub blocked : Pool W → Text → ℕ → ℕ → Bool
  blocked p target now r = blocks_in p.target_failures (client_addr p r) target now

  pub record Frame (p q : Pool W) : Type 0 where
    pub servers : q.servers ≡ p.servers
    pub strategy : q.strategy ≡ p.strategy
    pub max_active : q.max_active ≡ p.max_active
    pub server_of : (s : ℕ) → (q.clients s).server ≡ (p.clients s).server
    pub stays_up : (s : ℕ) → up_at p s ≡ true → up_at q s ≡ true

  -- The active server is left as it was.
  pub record Still (p q : Pool W) : Type 0 where
    pub active_idx : q.active_idx ≡ p.active_idx
    pub has_active : q.has_active ≡ p.has_active

  pub Frame-refl : (p : Pool W) → Frame p p
  Frame-refl p = record {
    servers = refl;
    strategy = refl;
    max_active = refl;
    server_of = λ s. refl;
    stays_up = λ s h. h;
  }

  pub Frame-trans : {p q r : Pool W} → Frame p q → Frame q r → Frame p r
  Frame-trans f g = record {
    servers = g.servers ∙ f.servers;
    strategy = g.strategy ∙ f.strategy;
    max_active = g.max_active ∙ f.max_active;
    server_of = λ s. g.server_of s ∙ f.server_of s;
    stays_up = λ s h. g.stays_up s (f.stays_up s h);
  }

  pub Frame-addr : {p q : Pool W} → Frame p q → (s : ℕ) → client_addr q s ≡ client_addr p s
  unfolding server_addr
  Frame-addr f s = ground (arith, f.server_of s)

  pub Still-refl : (p : Pool W) → Still p p
  Still-refl p = record { active_idx = refl; has_active = refl }

  pub Still-trans : {p q r : Pool W} → Still p q → Still q r → Still p r
  Still-trans f g = record {
    active_idx = g.active_idx ∙ f.active_idx;
    has_active = g.has_active ∙ f.has_active;
  }
