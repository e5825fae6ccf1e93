-- ===== src/Tests/App.antt =====
-- The start, the accept loop and a forwarded connection.
use ssh_roundrobin.Prelude.{ℕ, ◌+◌, ◌≤◌, ◌≡◌, refl, false, none, some, [], ◌∷◌, ◌⊎◌, pos}
use ssh_roundrobin.Text.{codes}
use ssh_roundrobin.Dict
use ssh_roundrobin.Dict.{Dict}
use ssh_roundrobin.SshServer.{SshServer, auth_password}
use ssh_roundrobin.SshServer
use ssh_roundrobin.SshClient
use ssh_roundrobin.RoundRobin
use ssh_roundrobin.SshClient.{new_client_lazy}
use ssh_roundrobin.RoundRobin.{strategy_failover}
use ssh_roundrobin.ServerStatus.{ServerStatusTracker, new_server_status_tracker}
use ssh_roundrobin.App.Startup
use ssh_roundrobin.App.Startup.{Settings, Startup, started, eager_limit}
use ssh_roundrobin.App.Startup.Registered.{Registered, Reports}
use ssh_roundrobin.App.Accept.{
  AcceptLoop, new_app, check_shutdown, accept_conn, signal_shutdown, at_top, returned, LoopStep,
  checks, accepts, Reach, here, loop,
}
use ssh_roundrobin.App.Accept.Steps.{Bounded, Reach-Bounded, Reach-shutdown}
use ssh_roundrobin.Proxy.{Shared}
use ssh_roundrobin.Proxy.Tunnel.{Copier, end_of_file, is_closed_or_eof, reported}
use ssh_roundrobin.Tests.Disk.{Disk, disk_env}
use ssh_roundrobin.Tests.Sample.{sample_pool}
use ssh_roundrobin.Tests.Settings.{disk, options, server_a, server_b}
use ssh_roundrobin.Tests.Files.{path}

abbrev settings : Settings
settings = record {
  servers_file = codes "servers.txt";
  options = options;
  strategy = strategy_failover;
  max_active_upstreams = pos 2;
  status_file = path;
  status_log = false;
  status_flush_sec = pos 30;
}

abbrev tracker_read : ServerStatusTracker
tracker_read = new_server_status_tracker path false (Startup.seconds (pos 30))

-- The eager connection to the first server succeeds; the second is registered as a lazy one.
abbrev startup_done : Startup Disk
startup_done =
    Startup.connect_each disk_env (eager_limit settings) (server_a ∷ server_b ∷ [])
      (Startup.empty_pool disk_env settings (λ r. new_client_lazy server_a) tracker_read disk)

-- The loop has room for one connection, which is handled; then the signal comes.
abbrev loop_state : AcceptLoop
loop_state = check_shutdown (new_app (pos 1))

one_step : Reach (new_app (pos 1)) 1 loop_state
one_step = loop here (checks (unfold new_app in refl) refl)

Reach-Bounded_example : Bounded (pos 1) (accept_conn loop_state)
Reach-Bounded_example =
    Reach-Bounded (pos 1) (loop one_step (accepts (unfold new_app check_shutdown in refl) refl))

abbrev down : AcceptLoop
down = signal_shutdown loop_state

Reach-shutdown_example :
    let t = check_shutdown (accept_conn down) in
    (2 ≤ 2)
    × (t.handled + t.rejected ≤ down.handled + down.rejected + 1)
    × (down.place ≡ at_top → t.handled + t.rejected ≤ down.handled + down.rejected)
    × ((t.place ≡ returned) ⊎ ((u : AcceptLoop) × LoopStep t u))
Reach-shutdown_example = Reach-shutdown down (unfold signal_shutdown in refl) (
    loop (loop here (accepts (unfold signal_shutdown check_shutdown new_app in refl) refl))
      (checks (unfold accept_conn signal_shutdown check_shutdown new_app in refl) refl))

-- The tunnel ends at once: 10 bytes were sent and none came back.
abbrev pub copier : Copier ℕ
copier = record {
  copy_both = λ conn w.
      ((record { bytes = 0; error = some end_of_file }, record { bytes = 10; error = none }), w);
  close_target = λ conn w. w;
}

-- The end of the file is no error to report.
reported_run : reported (copier.copy_both 0 0).0.0 ≡ false
unfolding reported is_closed_or_eof
reported_run = refl

abbrev pub shared : Shared ℕ
shared = record { pool = sample_pool strategy_failover; tracker = none }
