-- ===== src/Config/Settings/Validated.antt =====
-- What holds of the settings that the program runs with.
use ssh_roundrobin.Prelude.{
  ℕ, ◌<◌, ◌≡◌, refl, ◌∙◌, ◌⊎◌, inl, inr, false, some, arith, Option-cases, pos,
}
use ssh_roundrobin.Text.{Text, codes}
use ssh_roundrobin.Outcome.{Result}
use ssh_roundrobin.Dict.{Dict}
use ssh_roundrobin.RoundRobin.{normalize_strategy, strategy_failover, strategy_load_balance}
use ssh_roundrobin.Config.Settings.{
  Config, validate_strategy, validate_mode, validated, defaults, parse_config, get_env_bool,
  mode_socks5, mode_tcp_forward,
}

-- The settings are in their ranges.
pub record InRange (c : Config) : Type 0 where
  pub strategy : (c.strategy ≡ strategy_failover) ⊎ (c.strategy ≡ strategy_load_balance)
  pub kept : normalize_strategy c.strategy ≡ c.strategy
  pub mode : (c.mode ≡ mode_socks5) ⊎ (c.mode ≡ mode_tcp_forward)
  pub upstreams : (n : ℕ) × (c.max_active_upstreams ≡ pos n) × (0 < n)
  pub retries : (n : ℕ) × (c.target_retry_upstreams ≡ pos n)
  pub threshold : (n : ℕ) × (c.target_fail_threshold ≡ pos n) × (0 < n)
  pub ttl : (n : ℕ) × (c.target_fail_ttl ≡ pos n) × (0 < n)

validated-rest :
    (home : Result Text) (vars : Dict Text) (parsed c : Config)
    → validated home vars parsed ≡ some c
    → (c.cloudflared ≡ parsed.cloudflared) × (c.show_upstream_stats ≡ parsed.show_upstream_stats)
unfolding validated
validated-rest home vars parsed c h = elim (Option-cases (validate_strategy parsed.strategy)) [
  | inl a ↦ absurd (ground (arith, h, a))
  | inr (strategy, a) ↦ elim (Option-cases (validate_mode parsed.mode)) [
    | inl b ↦ absurd (ground (arith, h, a, b))
    | inr (mode, b) ↦ (ground (arith, h, a, b), ground (arith, h, a, b))
  ]
]

-- Without flags, the cloudflared mode and the display of statistics are those of the environment
-- before the .env file was loaded, so what the file says of them has no effect.
pub parse_config_early :
    (load : Text → Dict Text → Dict Text) (home : Result Text) (vars : Dict Text) (c : Config)
    → parse_config load (λ d. d) home vars ≡ some c
    → (c.cloudflared ≡ get_env_bool vars (codes "CLOUDFLARED") false)
      × (c.show_upstream_stats ≡ get_env_bool vars (codes "SHOW_UPSTREAM_STATS") false)
unfolding parse_config
parse_config_early load home vars c h =
    let (a, b) = validated-rest home _ _ c h in
    (a ∙ unfold defaults in refl, b ∙ unfold defaults in refl)
