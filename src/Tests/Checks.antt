-- ===== src/Tests/Checks.antt =====
-- A health check in the sample world: the first server is lazy, the second is down.
use ssh_roundrobin.Prelude.{
  List, ℕ, ◌<◌, ◌≡◌, refl, some, inl, inr, ◌⊎◌, Option-cases, Bool-cases, arith, [], ◌∷◌, ◌==◌,
  ◌&&◌, if◌then◌else◌, length, get_or, get_elem?, All,
}
use ssh_roundrobin.Text.{Text, split}
use ssh_roundrobin.Env.{Env}
use ssh_roundrobin.RoundRobin.Summary.{stats_summary}
use ssh_roundrobin.RoundRobin.Summary.Lines.{OneLine, PlainHost, told, stats_summary-split}
use ssh_roundrobin.Outcome.{returns}
use ssh_roundrobin.SshClient.{new_client_lazy}
use ssh_roundrobin.RoundRobin.{Pool, strategy_failover}
use ssh_roundrobin.RoundRobin.Health.{HealthCheckReport, run_health_checks}
use ssh_roundrobin.RoundRobin.Health.Checked.{ActiveUp, NoneUp}
use ssh_roundrobin.RoundRobin.Health.Settled.{Served, run_health_checks-Settled}
use ssh_roundrobin.Tests.Sample.{sample_env, sample_env-Connects, sample_pool, sample_clients}

abbrev pool : Pool ℕ
pool = sample_pool strategy_failover

pool-Served : Served pool
unfolding new_client_lazy
pool-Served r = elim (Option-cases (sample_clients r).server) [
  | inl h ↦ absurd (ground (arith, h))
  | inr h ↦ (h, ground arith)
]

run_health_checks-Settled_example :
    let (o, q) = run_health_checks sample_env pool in
    ((told : HealthCheckReport) × (o ≡ returns told)) × (ActiveUp q ⊎ NoneUp q)
run_health_checks-Settled_example =
    run_health_checks-Settled sample_env sample_env-Connects pool refl (omega arith) (ground arith)
      pool-Served

-- A quotation that writes a line end as "\n".
escape : Text → Text
escape [] = []
escape (c ∷ s) = let rest = escape s in if c == 10 then b'\\' ∷ b'n' ∷ rest else c ∷ rest

escape-OneLine : (s : Text) → OneLine (escape s)
unfolding escape
escape-OneLine [] = tt
escape-OneLine (c ∷ s) = elim (Bool-cases (c == 10)) [
  | inl h ↦ rw h (omega arith, (omega arith, escape-OneLine s))
  | inr h ↦ rw h (ground (arith, h), escape-OneLine s)
]

abbrev quoting_env : Env ℕ
quoting_env = record sample_env { quote = escape }

stats_summary-split_example :
    (lines : List Text) × (split (stats_summary quoting_env pool) 10 ≡ [] ∷ lines)
    × (length lines ≡ length pool.servers)
    × ((i : ℕ)
        → i < length pool.servers
        → get_elem? lines i
          ≡ some (
              told escape i
                (pool.has_active && (i == pool.active_idx))
                (pool.clients (get_or pool.servers i 0))))
stats_summary-split_example =
    stats_summary-split quoting_env pool escape-OneLine (omega arith) plain
  where
    plain : All (PlainHost quoting_env pool) pool.servers
    plain = unfold new_client_lazy in omega arith
