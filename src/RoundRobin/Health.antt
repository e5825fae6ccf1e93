-- ===== src/RoundRobin/Health.antt =====
-- internal/sshroundrobin/healthcheck.go: the periodic probe of every connection, and the switch of
-- the active server; and the snapshot of the counters.
pub mod Checked
pub mod Switched
pub mod Settled
use ssh_roundrobin.Prelude.{
  ℕ, ◌+◌, Bool, true, false, ◌&&◌, Option, none, some, List, [], ◌∷◌, ◌++◌, ltb, ◌==◌,
  if◌then◌else◌, length, get_or, ℤ,
}
use ssh_roundrobin.Text.{Text, Error, text_eq}
use ssh_roundrobin.Outcome.{Outcome, returns, panics}
use ssh_roundrobin.Env.{Env}
use ssh_roundrobin.SshClient.{SshClient, server_addr, server_mode}
use ssh_roundrobin.SshClient
use ssh_roundrobin.RoundRobin.{Pool, update, client_addr, probe, strategy_failover}
use ssh_roundrobin.RoundRobin.Strategy.{ensure, set_active, clear_active}

pub record HealthCheckReport : Type 0 where
  pub checked : ℕ
  pub recovered : List Text
  pub failed : List Text
  pub switched_from : Text
  pub switched_to : Text

abbrev pub empty_report : HealthCheckReport
empty_report = record {
  checked = 0;
  recovered = [];
  failed = [];
  switched_from = [];
  switched_to = [];
}

-- `stats.LastSelectedAt` and `LastCheckedAt` are the seconds, where 0 or less stands for no time.
pub record UpstreamStat : Type 0 where
  pub stat_addr : Text
  pub mode : Text
  pub is_up : Bool
  pub is_active : Bool
  pub selected : ℕ
  pub reconnects : ℕ
  pub checks : ℕ
  pub selected_at : ℤ
  pub checked_at : ℤ
  pub error : Text

-- `client.Stats()` with the pool's `Active`. A nil server leaves the address and mode empty.
unfoldable pub client_stat : Bool → SshClient → UpstreamStat
client_stat active c = record {
  stat_addr = elim c.server [ none ↦ [] | some _ ↦ server_addr c ];
  mode = elim c.server [ none ↦ [] | some _ ↦ server_mode c ];
  is_up = c.healthy;
  is_active = active;
  selected = c.selected_count;
  reconnects = c.reconnect_count;
  checks = c.healthcheck_count;
  selected_at = c.last_selected_at;
  checked_at = c.last_checked_at;
  error = c.last_err;
}

-- The index of the first check that succeeded.
unfoldable pub first_true : ℕ → List Bool → Option ℕ
first_true idx [] = none
first_true idx (b ∷ bs) = let later = first_true (idx + 1) bs in if b then some idx else later

module _ {W : Type 0} where
  unfoldable pub stats_from : ℕ → List ℕ → Pool W → List UpstreamStat
  stats_from idx [] p = []
  stats_from idx (r ∷ rs) p =
      client_stat (p.has_active && (idx == p.active_idx)) (p.clients r) ∷ stats_from (idx + 1) rs p

  unfoldable pub stats_snapshot : Pool W → List UpstreamStat
  stats_snapshot p = stats_from 0 p.servers p

module _ {W : Type 0} (env : Env W) where
  -- `client.HealthCheck()` of the client at `r`.
  unfoldable pub check : ℕ → Pool W → Option Error × Pool W
  check r p =
      let (e, c, w) = SshClient.health_check env (p.clients r) p.world in
      (e, record p { clients = update p.clients r c; world = w })

  -- The report after one check; `was` is `client.IsHealthy()` before it.
  unfoldable pub record_check :
      Text → Bool → Option Error → HealthCheckReport → Bool × HealthCheckReport
  record_check upstream was none report = (
    true,
    record report {
      checked = report.checked + 1;
      recovered = if was then report.recovered else report.recovered ++ upstream ∷ [];
    },
  )
  record_check upstream was (some e) report = (
    false,
    record report {
      checked = report.checked + 1;
      failed = if was then report.failed ++ upstream ∷ [] else report.failed;
    },
  )

  unfoldable pub check_connected :
      Bool → ℕ → HealthCheckReport → Pool W → Bool × HealthCheckReport × Pool W
  check_connected false r report p = (false, report, p)
  check_connected true r report p =
      let (e, p1) = check r p in
      let (good, report1) = record_check (client_addr p1 r) (p.clients r).healthy e report in
      (good, report1, p1)

  unfoldable pub check_one : ℕ → HealthCheckReport → Pool W → Bool × HealthCheckReport × Pool W
  check_one r report p = let (up, p1) = probe r p in check_connected up r report p1

  -- The first loop: the results in the order of the servers.
  unfoldable pub check_each :
      List ℕ → HealthCheckReport → Pool W → List Bool × HealthCheckReport × Pool W
  check_each [] report p = ([], report, p)
  check_each (r ∷ rs) report p =
      let (good, report1, p1) = check_one r report p in
      let (rest, report2, p2) = check_each rs report1 p1 in (good ∷ rest, report2, p2)

  -- What the last loop does with the outcome of `EnsureConnected`.
  unfoldable pub connect_first :
      ℕ → List ℕ → HealthCheckReport → Pool W → Outcome HealthCheckReport × Pool W
  connect_first idx [] report p = (returns report, clear_active p)
  connect_first idx (r ∷ rs) report p =
      let (o, p1) = ensure env r p in
      elim o [
        | panics ↦ (panics, p1)
        | returns e ↦ elim e [
          | none ↦ (returns (record report { switched_to = client_addr p1 r }), set_active idx p1)
          | some _ ↦ connect_first (idx + 1) rs report p1
        ]
      ]

  -- The second part of the check, for failover, when the active server did not pass.
  unfoldable pub switch :
      List Bool → HealthCheckReport → Pool W → Outcome HealthCheckReport × Pool W
  switch healthy report p = elim (first_true 0 healthy) [
    | some idx ↦ (
      returns (record report { switched_to = client_addr p (get_or p.servers idx 0) }),
      set_active idx p,
    )
    | none ↦ connect_first 0 p.servers report p
  ]

  unfoldable pub after_checks :
      List Bool → HealthCheckReport → Pool W → Outcome HealthCheckReport × Pool W
  after_checks healthy report p =
      let in_range = p.has_active && ltb p.active_idx (length p.servers) in
      let from : Text = if in_range then client_addr p (get_or p.servers p.active_idx 0) else [] in
      let switched = switch healthy (record report { switched_from = from }) p in
      if text_eq p.strategy strategy_failover
      then if p.has_active && ltb p.active_idx (length healthy) && get_or healthy p.active_idx false
        then (returns report, p)
        else switched
      else (returns report, p)

  unfoldable pub run_health_checks : Pool W → Outcome HealthCheckReport × Pool W
  run_health_checks p =
      let (healthy, report, p1) = check_each p.servers empty_report p in
      let checked = after_checks healthy report p1 in
      if length p.servers == 0 then (returns empty_report, p) else checked
