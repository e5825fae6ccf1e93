-- ===== src/Tests/Selection.antt =====
-- Selections in the sample pool.
use ssh_roundrobin.Prelude.{ℕ, ◌≤◌, ◌≡◌, ◌≢◌, refl, List, [], ◌∷◌, arith}
use ssh_roundrobin.Text.{Text, codes}
use ssh_roundrobin.Outcome.{ok, returns}
use ssh_roundrobin.RoundRobin.{Pool, strategy_failover, strategy_load_balance}
use ssh_roundrobin.RoundRobin.Strategy.{get_for_target}
use ssh_roundrobin.RoundRobin.Strategy.Sound.{Chosen, get_for_target-Chosen}
use ssh_roundrobin.RoundRobin.Strategy.Complete.{NoneLeft, get_for_target-NoneLeft}
use ssh_roundrobin.RoundRobin.Strategy.Cap.{get_for_target_cap}
use ssh_roundrobin.RoundRobin.Strategy.Scan.{up_count}
use ssh_roundrobin.RoundRobin.Valid.{Valid}
use ssh_roundrobin.RoundRobin.Valid.Methods.{
  Call, adds, removes, closes_all, checks_health, gets, run, run-Valid,
}
use ssh_roundrobin.Tests.Sample.{sample_env, sample_env-Connects, sample_pool, sample_get}

abbrev failover_pool : Pool ℕ
failover_pool = sample_pool strategy_failover

abbrev target : Text
target = codes "t:80"

-- The first server refuses the connection, the second is dialled.
failover_run : (get_for_target sample_env target [] failover_pool).0 ≡ returns (ok 0)
unfolding sample_get
failover_run = refl

get_for_target-Chosen_example :
    Chosen [] target
      (sample_env.now 5).0
      failover_pool
      (get_for_target sample_env target [] failover_pool).1
      0
unfolding sample_get
get_for_target-Chosen_example =
    get_for_target-Chosen sample_env [] target failover_pool
      (get_for_target sample_env target [] failover_pool).1 0 sample_env-Connects refl

-- Only the host that refuses connections.
abbrev down_pool : Pool ℕ
down_pool = record failover_pool { rr = record failover_pool.rr { servers = 1 ∷ [] } }

get_for_target-NoneLeft_example :
    NoneLeft [] target
      (sample_env.now 5).0
      down_pool
      (get_for_target sample_env target [] down_pool).1
unfolding sample_get
get_for_target-NoneLeft_example =
    get_for_target-NoneLeft sample_env [] target down_pool
      (get_for_target sample_env target [] down_pool).1 (codes "no available servers") (λ h. cc)
      (λ h. omega arith) refl

abbrev balance_pool : Pool ℕ
balance_pool = sample_pool strategy_load_balance

is_balance : strategy_load_balance ≢ strategy_failover
is_balance h = ground arith

get_for_target_cap_example :
    up_count (get_for_target sample_env target [] balance_pool).1 (1 ∷ 0 ∷ 2 ∷ []) ≤ 2
unfolding sample_get
get_for_target_cap_example =
    get_for_target_cap sample_env [] target balance_pool is_balance (omega arith)

abbrev calls : List Call
calls = gets target [] ∷ removes 1 ∷ checks_health ∷ adds 1 ∷ gets target [] ∷ closes_all ∷ []

run-Valid_example : Valid (run sample_env failover_pool calls).rr
run-Valid_example =
    run-Valid sample_env failover_pool calls (record {
      active_in_range = λ h. cc;
      limit_positive = omega arith;
      counter_fits = omega arith;
    })
