-- ===== src/Tests/Targets.antt =====
-- Reports on targets, the counter's wrap and the active server in the sample pool.
use ssh_roundrobin.Prelude.{
  ℕ, ◌*◌, ◌+◌, ◌≡◌, ◌≢◌, refl, false, true, none, some, [], ◌∷◌, arith, pos, ltb, leb,
  if◌then◌else◌, positive_or,
}
use ssh_roundrobin.Text.{Text, codes}
use ssh_roundrobin.Outcome.{ok, err, returns}
use ssh_roundrobin.Env.{second}
use ssh_roundrobin.RoundRobin.{
  Pool, strategy_failover, strategy_load_balance, report_target_failure, cleanup_expired_targets,
  target_failure_key, client_addr,
}
use ssh_roundrobin.RoundRobin.View.{blocked, failure_of}
use ssh_roundrobin.RoundRobin.Strategy.{get_for_target, no_available}
use ssh_roundrobin.RoundRobin.Strategy.Active.{
  Settled, get_for_target-Settled, get_for_target_sticky,
}
use ssh_roundrobin.RoundRobin.Strategy.Wrap.{get_for_target_wrap}
use ssh_roundrobin.RoundRobin.Targets.{
  failures_of, target_failure_key_injective, report_target_failure-blocks,
  cleanup_expired_targets-blocked, report-after-get,
}
use ssh_roundrobin.Tests.Sample.{sample_env, sample_env-Connects, sample_pool, sample_get}

abbrev target : Text
target = codes "t:80"

abbrev pool : Pool ℕ
pool = sample_pool strategy_failover

abbrev reported : Pool ℕ
reported = report_target_failure sample_env (some 2) target (pos 1) (pos 5) none pool

report_target_failure-blocks_example :
    (failures_of reported target 2 ≡ failures_of pool target 2 + 1)
    × ((now : ℕ)
        → blocked reported target now 2 ≡ (
            if leb (positive_or 1 (pos 1)) (failures_of pool target 2 + 1)
            then ltb now ((sample_env.now 5).0 + positive_or (600 * second) (pos 5))
            else blocked pool target now 2))
    × ((s : ℕ) (other : Text)
        → target_failure_key (client_addr pool 2) target
          ≢ target_failure_key (client_addr pool s) other
        → failure_of reported other s ≡ failure_of pool other s)
report_target_failure-blocks_example =
    report_target_failure-blocks sample_env 2 target (pos 1) (pos 5) none pool (λ h. cc)

cleanup_expired_targets-blocked_example :
    blocked (cleanup_expired_targets sample_env pool) target (sample_env.now 5).0 2
    ≡ blocked pool target (sample_env.now 5).0 2
cleanup_expired_targets-blocked_example =
    cleanup_expired_targets-blocked sample_env 2 target (sample_env.now 5).0 pool (omega arith)

abbrev selected : Pool ℕ
selected = (get_for_target sample_env target [] pool).1

report-after-get_example :
    let after = report_target_failure sample_env (some 0) target (pos 2) (pos 5) none selected in
    (failures_of after target 0 ≡ 1) × ((now : ℕ) → blocked after target now 0 ≡ false)
unfolding sample_get
report-after-get_example =
    report-after-get sample_env [] target pool selected 0 (pos 2) (pos 5) none sample_env-Connects
      refl (λ h. cc) (omega arith)

target_failure_key_injective_example : (codes "a" ≡ codes "a") × (codes "b|c" ≡ codes "b|c")
target_failure_key_injective_example =
    target_failure_key_injective (codes "a") (codes "a") (codes "b|c") (codes "b|c")
      (λ h. omega arith, tt) (λ h. omega arith, tt) refl

get_for_target-Settled_example : Settled (get_for_target sample_env target [] pool)
get_for_target-Settled_example = get_for_target-Settled sample_env [] target pool refl (omega arith)

-- The last server of the pool is the active one, and connected.
abbrev active_pool : Pool ℕ
active_pool = record pool { rr = record pool.rr { has_active = true; active_idx = 2 } }

get_for_target_sticky_example :
    ((get_for_target sample_env target [] active_pool).0 ≡ returns (ok 2))
    × ((get_for_target sample_env target [] active_pool).1.active_idx ≡ 2)
    × ((get_for_target sample_env target [] active_pool).1.has_active ≡ true)
unfolding sample_get
get_for_target_sticky_example =
    get_for_target_sticky sample_env [] target active_pool refl 2 refl refl refl refl refl

abbrev wrapping : Pool ℕ
wrapping = record pool {
  rr = record pool.rr { strategy = strategy_load_balance; index = 4_294_967_295 };
}

is_balance : strategy_load_balance ≢ strategy_failover
is_balance h = ground arith

-- The third server is connected and could serve.
get_for_target_wrap_example :
    (get_for_target sample_env target (codes "a:22" ∷ codes "down:22" ∷ []) wrapping).0
    ≡ returns (err no_available)
unfolding sample_get
get_for_target_wrap_example =
    get_for_target_wrap sample_env (codes "a:22" ∷ codes "down:22" ∷ []) target 1 0 2 wrapping
      is_balance (omega arith) refl refl refl
