-- ===== src/Main.antt =====
-- cmd/main.go. What is printed is not modelled.
pub mod Foreground
use ssh_roundrobin.Prelude.{ℕ, Bool, Option, none, some, if◌then◌else◌, not}
use ssh_roundrobin.Text.{Text, Error}
use ssh_roundrobin.Outcome.{Result, ok, err}
use ssh_roundrobin.Env.{Env}
use ssh_roundrobin.Os.{Os}
use ssh_roundrobin.SshClient.{SshClient}
use ssh_roundrobin.ServerStatus.Persistence.{Json}
use ssh_roundrobin.Config.Settings.{Config}
use ssh_roundrobin.Daemon.{stop, is_running, daemonize, remove_pid}
use ssh_roundrobin.App.Boot.{Boot, exits, boot}

module _ {W : Type 0} (env : Env W) (os : Os W) (json : Json) (heap : ℕ → SshClient) where
  -- `parsed` is the result of `ParseConfig`, which exits with 2 on an invalid setting. What
  -- follows the start of a server is App.Shutdown.
  unfoldable pub run_main : Option Config → W → Boot W
  run_main none w = exits 2 w
  run_main (some c) w =
      let (stop_error, w1) = stop env os c.pid_file w in
      let (status, w2) = is_running env os c.pid_file w in
      let (fork_error, w3) = daemonize os c.pid_file c.log_file w in
      let run = boot env os json c heap w in
      if c.stop_daemon
      then exits (elim stop_error [ none ↦ 0 | some e ↦ 1 ]) w1
      else if c.status_daemon
      then exits (elim status [ ok r ↦ 0 | err e ↦ 1 ]) w2
      else if not c.foreground
      then exits (elim fork_error [ none ↦ 0 | some e ↦ 1 ]) w3
      else run
