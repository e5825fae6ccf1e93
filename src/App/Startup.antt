-- ===== src/App/Startup.antt =====
-- internal/app/connect.go and the health-check cycle of shutdown.go.
pub mod Registered
use ssh_roundrobin.Prelude.{
  ℕ, zero, suc, ◌+◌, ◌*◌, Bool, Option, none, some, List, [], ◌∷◌, ◌++◌, ltb, ◌==◌, if◌then◌else◌,
  ℤ, pos, negsuc, ◌-◌, positive_or,
}
use ssh_roundrobin.Text.{Text, Error, codes, text_eq}
use ssh_roundrobin.Outcome.{Result, ok, err, Outcome}
use ssh_roundrobin.Env.{Env, second}
use ssh_roundrobin.Os.{Os}
use ssh_roundrobin.SshServer.{SshServer, addr}
use ssh_roundrobin.SshClient.{SshClient, new_client, new_client_lazy}
use ssh_roundrobin.RoundRobin
use ssh_roundrobin.RoundRobin.{
  Pool, update, add, len, new_round_robin, strategy_failover, cleanup_expired_targets,
}
use ssh_roundrobin.RoundRobin.Health.{HealthCheckReport, run_health_checks}
use ssh_roundrobin.ServerStatus.{ServerStatusTracker, new_server_status_tracker, record_fail}
use ssh_roundrobin.ServerStatus.Persistence.{Json, load}
use ssh_roundrobin.Config.Servers.{Options, parse_servers_file}

-- The state of `connectServers`: `fresh` is the pointer of the next client, and `connected` counts
-- the eager connections. `on_connection_error` is the function that it sets in the pool: `App.tracker` is
-- read when it is called, and is set before any connection is accepted.
pub record Startup (W : Type 0) : Type 0 where
  pub pool : Pool W
  pub tracker : ServerStatusTracker
  pub connected : ℕ
  pub fresh : ℕ
  pub on_connection_error : Text → Error → ServerStatusTracker × W → ServerStatusTracker × W

-- The settings that `connectServers` reads.
pub record Settings : Type 0 where
  pub servers_file : Text
  pub options : Options
  pub strategy : Text
  pub max_active_upstreams : ℤ
  pub status_file : Text
  pub status_log : Bool
  pub status_flush_sec : ℤ

-- `log.Fatal` ends the program.
pub data Started (W : Type 0) : Type 0 where
  fatal : Error → W → Started W
  started : Startup W → Started W

unfoldable pub eager_limit : Settings → ℕ
eager_limit c =
    if text_eq c.strategy strategy_failover then 1 else positive_or 0 c.max_active_upstreams

-- `time.Duration(n) * time.Second`
unfoldable pub seconds : ℤ → ℤ
seconds (pos n) = pos (n * second)
seconds (negsuc n) = negsuc ((n + 1) * second - 1)

module _ {W : Type 0} (env : Env W) where
  -- The pool before the loop over the servers, and its `OnConnectionError`.
  unfoldable pub empty_pool : Settings → (ℕ → SshClient) → ServerStatusTracker → W → Startup W
  empty_pool c heap tracker w = record {
    pool = record {
      clients = heap;
      rr = new_round_robin c.strategy c.max_active_upstreams;
      world = w;
    };
    tracker = tracker;
    connected = 0;
    fresh = 0;
    on_connection_error = λ upstream e (t, v). record_fail env upstream (some e) t v;
  }

module _ {W : Type 0} where
  -- A new client is allocated and added to the pool.
  unfoldable pub register : SshClient → Startup W → Startup W
  register c s = record s {
    pool = add s.fresh (record s.pool { clients = update s.pool.clients s.fresh c });
    fresh = s.fresh + 1;
  }

module _ {W : Type 0} (env : Env W) where
  -- A server whose eager connection fails is recorded as failed and registered as a lazy one.
  unfoldable pub connect_server : ℕ → SshServer → Startup W → Startup W
  connect_server limit server s =
      let lazy = register (new_client_lazy server) s in
      let (r, w) = new_client env server s.pool.world in
      let eager : Startup W = elim r [
        | ok c ↦
            register c
              (record s { pool = record s.pool { world = w }; connected = s.connected + 1 })
        | err e ↦
            let (t, w1) = record_fail env (addr server) (some e) s.tracker w in
            register (new_client_lazy server)
              (record s { pool = record s.pool { world = w1 }; tracker = t })
      ] in
      if ltb s.connected limit then eager else lazy

  unfoldable pub connect_each : ℕ → List SshServer → Startup W → Startup W
  connect_each limit [] s = s
  connect_each limit (server ∷ rest) s = connect_each limit rest (connect_server limit server s)

  unfoldable pub connect_servers : Os W → Json → Settings → (ℕ → SshClient) → W → Started W
  connect_servers os json c heap w =
      let (parsed, w1) = parse_servers_file env os c.options c.servers_file w in
      elim parsed [
        | err e ↦ fatal (codes "Failed to parse servers: " ++ e) w1
        | ok [] ↦ fatal (codes "No servers configured") w1
        | ok (server ∷ rest) ↦
            let tracker =
              new_server_status_tracker c.status_file c.status_log (seconds c.status_flush_sec) in
            let (_, loaded, w2) = load env os json tracker w1 in
            let s =
              connect_each (eager_limit c) (server ∷ rest) (empty_pool env c heap loaded w2) in
            if len s.pool == 0 then fatal (codes "No servers available") s.pool.world else started s
      ]

  -- `runHealthCheckCycle`; the reports are output only.
  unfoldable pub run_health_check_cycle : Pool W → Outcome HealthCheckReport × Pool W
  run_health_check_cycle p = run_health_checks env (cleanup_expired_targets env p)
