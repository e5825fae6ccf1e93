-- ===== src/App/Boot.antt =====
-- `Run` of internal/app/app.go up to its accept loop: the log file, the PID file, the listener and the
-- servers, in this order.
use ssh_roundrobin.Prelude.{ℕ, Option, none, some, if◌then◌else◌}
use ssh_roundrobin.Text.{Text, is_empty}
use ssh_roundrobin.Outcome.{Result, ok, err}
use ssh_roundrobin.Env.{Env}
use ssh_roundrobin.Os.{Os}
use ssh_roundrobin.SshClient.{SshClient}
use ssh_roundrobin.ServerStatus.Persistence.{Json}
use ssh_roundrobin.Config.Settings.{Config}
use ssh_roundrobin.Daemon.{write_pid}
use ssh_roundrobin.App.Startup.{Settings, fatal, started, Startup, connect_servers}

-- `App` once it accepts connections; `new_app` makes the rest of it.
pub record Serving (W : Type 0) : Type 0 where
  pub log_file : Option ℕ
  pub listener : ℕ
  pub startup : Startup W

-- `os.Exit` and `log.Fatal` end the process with a status, and run no deferred call.
pub data Boot (W : Type 0) : Type 0 where
  exits : ℕ → W → Boot W
  serves : Serving W → Boot W

abbrev pub settings_of : Config → Settings
settings_of c = record {
  servers_file = c.servers_file;
  options = record {
    username = c.username;
    key_file = c.key_file;
    proxy_command = c.proxy_command;
    force_cloudflared = c.cloudflared;
  };
  strategy = c.strategy;
  max_active_upstreams = c.max_active_upstreams;
  status_file = c.status_file;
  status_log = c.status_log;
  status_flush_sec = c.status_flush_sec;
}

module _ {W : Type 0} (os : Os W) where
  -- `none` is the standard error output.
  unfoldable pub setup_logging : Text → W → Result (Option ℕ) × W
  setup_logging log_file w =
      let (opened, w1) = os.open_log log_file w in
      if is_empty log_file
      then (ok none, w)
      else (elim opened [ ok n ↦ ok (some n) | err e ↦ err e ], w1)

module _ {W : Type 0} (env : Env W) (os : Os W) (json : Json) (c : Config)
    (heap : ℕ → SshClient) where
  -- After the listener is bound.
  unfoldable pub serve_from : Option ℕ → ℕ → W → Boot W
  serve_from log_file listener w = elim (connect_servers env os json (settings_of c) heap w) [
    | fatal e w1 ↦ exits 1 w1
    | started s ↦ serves (record { log_file = log_file; listener = listener; startup = s })
  ]

  -- A PID file that cannot be written is only warned of.
  unfoldable pub boot : W → Boot W
  boot w =
      let (log, w1) = setup_logging os c.log_file w in
      let (warned, w2) = write_pid os c.pid_file w1 in
      let (bound, w3) = os.listen c.bind_addr w2 in
      elim log [
        | err e ↦ exits 1 w1
        | ok log_file ↦ elim bound [
          | err e ↦ exits 1 w3
          | ok listener ↦ serve_from log_file listener w3
        ]
      ]
