-- ===== src/Tests/Process.antt =====
-- A daemon that is forked, a start at an address in use, and the shutdown.
use ssh_roundrobin.Prelude.{ℕ, ◌≡◌, ◌*◌, refl, true, false, none, some, [], ◌∷◌, pos, arith}
use ssh_roundrobin.Text.{codes}
use ssh_roundrobin.Text.Decimal.{itoa}
use ssh_roundrobin.Dict
use ssh_roundrobin.SshServer
use ssh_roundrobin.SshClient
use ssh_roundrobin.SshClient.{SshClient, new_client_lazy}
use ssh_roundrobin.RoundRobin
use ssh_roundrobin.RoundRobin.Valid.{Valid}
use ssh_roundrobin.ServerStatus.{ServerStatusTracker, new_server_status_tracker}
use ssh_roundrobin.ServerStatus.Persistence.{load}
use ssh_roundrobin.App.Startup
use ssh_roundrobin.App.Startup.{connect_servers, eager_limit}
use ssh_roundrobin.RoundRobin.{strategy_failover}
use ssh_roundrobin.Config.Settings.{Config, mode_socks5}
use ssh_roundrobin.Env.{second}
use ssh_roundrobin.Daemon
use ssh_roundrobin.Daemon.{daemonize, write_pid, remove_pid}
use ssh_roundrobin.Daemon.Fork.{Forked, daemonize-Forked}
use ssh_roundrobin.App.Accept
use ssh_roundrobin.App.Boot
use ssh_roundrobin.App.Boot.{Serving, serves, boot, settings_of}
use ssh_roundrobin.App.Shutdown.{
  Process, launch, handle_signal, checks, main, signal, Reach, here, next,
}
use ssh_roundrobin.App.Shutdown.Ordered.{Ordered, acts, Reach-Ordered}
use ssh_roundrobin.App.Shutdown.EarlyExit.{exit_before_flush}
use ssh_roundrobin.Main.{run_main}
use ssh_roundrobin.Main.Foreground
use ssh_roundrobin.Main.Foreground.{run_main-StartEnded}
use ssh_roundrobin.Tests.Disk.{Disk, disk_env, disk_os, disk_json, disk-reads_back}
use ssh_roundrobin.Tests.Settings.{disk, server_a, server_b, parse_sample}
use ssh_roundrobin.Tests.Files.{path, pid_file}

abbrev forked_disk : Disk
forked_disk = (daemonize disk_os pid_file [] disk).1

daemonize-Forked_example : Forked disk_env disk_os pid_file forked_disk
unfolding daemonize Daemon.open_output Daemon.fork Daemon.child_args Daemon.after_fork
daemonize-Forked_example =
    daemonize-Forked disk_env disk_os disk-reads_back (λ n p a. refl)
      (λ p args n a b pid h. ground (arith, h)) pid_file [] disk forked_disk refl

-- The address is taken by another process.
abbrev config : Config
config = record {
  bind_addr = codes "taken";
  servers_file = codes "servers.txt";
  key_file = [];
  username = codes "root";
  proxy_command = [];
  cloudflared = false;
  strategy = strategy_failover;
  max_active_upstreams = pos 2;
  max_connections = pos 100;
  target_host = codes "127.0.0.1";
  target_port = pos 80;
  health_check = true;
  show_upstream_stats = false;
  health_interval = pos (30 * second);
  retry_count = pos 3;
  retry_delay = pos second;
  target_retry_upstreams = pos 0;
  target_fail_threshold = pos 1;
  target_fail_ttl = pos (600 * second);
  mode = mode_socks5;
  env_file = codes ".env";
  status_file = path;
  status_log = true;
  status_flush_sec = pos 30;
  pid_file = pid_file;
  log_file = [];
  foreground = true;
  stop_daemon = false;
  status_daemon = false;
}

run_main-StartEnded_example :
    Foreground.StartEnded disk_env disk_os disk_json
      (λ r. new_client_lazy server_a)
      config
      disk
      (run_main disk_env disk_os disk_json (λ r. new_client_lazy server_a) (some config) disk)
unfolding Boot.setup_logging write_pid
run_main-StartEnded_example =
    run_main-StartEnded disk_env disk_os disk_json (λ r. new_client_lazy server_a) config disk
      disk-reads_back (λ a. ground arith) refl (omega arith) refl refl refl refl

abbrev free : Config
free = record config { bind_addr = codes "free" }

abbrev heap : ℕ → SshClient
heap r = new_client_lazy server_a

abbrev tracker : ServerStatusTracker
tracker = new_server_status_tracker path true (Startup.seconds (pos 30))

abbrev serving : Serving Disk
serving = record {
  log_file = none;
  listener = 5;
  startup =
      Startup.connect_each disk_env (eager_limit (settings_of free)) (server_a ∷ server_b ∷ []) (
        Startup.empty_pool disk_env (settings_of free) heap tracker
          (write_pid disk_os pid_file disk).1);
}

booted : boot disk_env disk_os disk_json free heap disk ≡ serves serving
unfolding boot Boot.serve_from Boot.setup_logging write_pid itoa Dict.put parse_sample
    connect_servers load new_server_status_tracker Dict.get Dict.empty RoundRobin.len
    Startup.connect_each Startup.connect_server Startup.empty_pool eager_limit SshClient.new_client
    SshClient.connect SshServer.config Startup.register RoundRobin.add RoundRobin.new_round_robin
booted = refl

-- The loop waits in `Accept`, and the signal handler is about to flush.
abbrev waiting : Process Disk
waiting = let s0 = launch free serving in record s0 { loop = Accept.check_shutdown s0.loop }

abbrev act : Process Disk → Process Disk
act s = handle_signal disk_env disk_os disk_json free s.stage s

abbrev before_flush : Process Disk
before_flush = act (act (act waiting))

reach : Reach disk_env disk_os disk_json free (launch free serving) before_flush
unfolding launch handle_signal Accept.new_app
reach =
    next
      (next (next (next here refl (main (checks refl refl))) refl (signal tt refl)) refl
        (signal tt refl))
      refl (signal tt refl)

Reach-Ordered_example : Ordered (acts before_flush.stage) before_flush × Valid before_flush.pool.rr
Reach-Ordered_example = Reach-Ordered disk_env disk_os disk_json free heap disk serving booted reach

exit_before_flush_example :
    (t : Process Disk) × Reach disk_env disk_os disk_json free before_flush t
    × (t.exited ≡ true)
    × (t.stage ≡ before_flush.stage)
    × (t.saved ≡ before_flush.saved)
    × (t.pool.clients ≡ before_flush.pool.clients)
    × (t.pool.world ≡ (remove_pid disk_os pid_file before_flush.pool.world).1)
unfolding launch handle_signal Accept.new_app Accept.check_shutdown Accept.signal_shutdown
exit_before_flush_example =
    exit_before_flush disk_env disk_os disk_json free before_flush refl refl refl
