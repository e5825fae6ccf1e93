-- ===== src/Main/Foreground.antt =====
-- How a start in the foreground ends.
use ssh_roundrobin.Prelude.{
  ℕ, ◌<◌, ◌≡◌, refl, ◌∙◌, ap, subst, true, false, Option, none, some, List, length, arith, inl, inr,
}
use ssh_roundrobin.Text.{Text, Error, is_empty}
use ssh_roundrobin.Text.Decimal.{Int64}
use ssh_roundrobin.Outcome.{ok, err, error_or_ok}
use ssh_roundrobin.Env.{Env}
use ssh_roundrobin.Os.{Os}
use ssh_roundrobin.SshServer.{SshServer}
use ssh_roundrobin.SshClient.{SshClient}
use ssh_roundrobin.ServerStatus.Persistence.{Json}
use ssh_roundrobin.Config.Servers.{parse_servers_file}
use ssh_roundrobin.Config.Settings.{Config}
use ssh_roundrobin.Daemon.{write_pid, read_pid}
use ssh_roundrobin.Daemon.Pid.{read_pid-write_pid}
use ssh_roundrobin.App.Startup.{fatal, eager_limit, connect_servers}
use ssh_roundrobin.App.Startup.Registered.{Registered, Started-cases, connect_servers-Registered}
use ssh_roundrobin.App.Boot.{
  Boot, exits, serves, Serving, settings_of, setup_logging, serve_from, boot,
}
use ssh_roundrobin.Main.{run_main}

read_pid_same :
    {W : Type 0} (env : Env W) (os : Os W) (file : Text) (a b : W)
    → (env.read_file file a).0 ≡ (env.read_file file b).0
    → (read_pid env os file a).0 ≡ (read_pid env os file b).0
unfolding read_pid
read_pid_same env os file a b h = rw (h, read_pid) refl

module _ {W : Type 0} (env : Env W) (os : Os W) (json : Json) (heap : ℕ → SshClient) (c : Config)
    (w : W) where
  -- The worlds after the log file was opened, after the PID file was written, and after `Listen`.
  abbrev pub logging : W
  logging = (setup_logging os c.log_file w).1

  abbrev pub recorded : W
  recorded = (write_pid os c.pid_file logging).1

  abbrev pub listening : W
  listening = (os.listen c.bind_addr recorded).1

  -- The ends of a start, in the order of the steps at which they happen.
  pub data StartEnded : Boot W → Type 0 where
    no_log : (e : Error) → (setup_logging os c.log_file w).0 ≡ err e → StartEnded (exits 1 logging)
    no_listener :
        (e : Error)
        → (os.listen c.bind_addr recorded).0 ≡ err e
        → (read_pid env os c.pid_file listening).0 ≡ ok (os.getpid logging)
        → StartEnded (exits 1 listening)
    no_servers :
        (listener : ℕ) (e : Error) (v : W)
        → (os.listen c.bind_addr recorded).0 ≡ ok listener
        → connect_servers env os json (settings_of c) heap listening ≡ fatal e v
        → StartEnded (exits 1 v)
    serving :
        (s : Serving W) (l : List SshServer)
        → (os.listen c.bind_addr recorded).0 ≡ ok s.listener
        → (parse_servers_file env os (settings_of c).options c.servers_file listening).0 ≡ ok l
        → 0 < length l
        → Registered (eager_limit (settings_of c)) l s.startup
        → StartEnded (serves s)

  serve_from-StartEnded :
      (log : Option ℕ) (listener : ℕ)
      → (os.listen c.bind_addr recorded).0 ≡ ok listener
      → StartEnded (serve_from env os json c heap log listener listening)
  unfolding serve_from
  serve_from-StartEnded log listener bound =
      elim (Started-cases (connect_servers env os json (settings_of c) heap listening)) [
        | inl (e, v, h) ↦ rw (h, serve_from) (no_servers listener e v bound h)
        | inr (s, h) ↦
            let (l, parsed, some_server, registered, reports) =
              connect_servers-Registered env os json (settings_of c) heap listening s h in
            rw (h, serve_from) (serving _ l bound parsed some_server registered)
      ]

  module _
      (back : (path content : Text) (a b : W)
        → os.write_file path content a ≡ (none, b)
        → (env.read_file path b).0 ≡ ok content)
      (kept : (a : W)
        → (env.read_file c.pid_file (os.listen c.bind_addr a).1).0 ≡ (env.read_file c.pid_file a).0)
      (named : is_empty c.pid_file ≡ false) (fits : Int64 (os.getpid logging))
      (written : (write_pid os c.pid_file logging).0 ≡ none) where
    pid_left : (read_pid env os c.pid_file listening).0 ≡ ok (os.getpid logging)
    pid_left =
        read_pid_same env os c.pid_file listening recorded (kept recorded)
        ∙ read_pid-write_pid env os c.pid_file logging recorded back named fits
            (ap (λ e. (e, recorded)) written)

    boot-StartEnded : StartEnded (boot env os json c heap w)
    unfolding boot
    boot-StartEnded = elim (error_or_ok (setup_logging os c.log_file w).0) [
      | inl (e, h) ↦ rw (h, boot) (no_log e h)
      | inr (log, h) ↦ elim (error_or_ok (os.listen c.bind_addr recorded).0) [
        | inl (e, k) ↦ rw (h, k, boot) (no_listener e k pid_left)
        | inr (listener, k) ↦ rw (h, k, boot) (serve_from-StartEnded log listener k)
      ]
    ]

    -- A start in the foreground, whose PID file has a name and could be written, ends in one of these
    -- ways, in their order. The log file cannot be opened: status 1. The address cannot be bound: status
    -- 1, no server was read or dialled, and the PID file names this process, which has ended. No pool
    -- could be made of the servers file, which is read when the address is bound: status 1. Or it serves
    -- at the address, with a pool of one client for each server of the file as the start of the pool
    -- leaves it. A file written without an error is to hold what was written, a PID is to fit an int, and
    -- binding an address is to leave the PID file alone.
    pub run_main-StartEnded :
        c.stop_daemon ≡ false
        → c.status_daemon ≡ false
        → c.foreground ≡ true
        → StartEnded (run_main env os json heap (some c) w)
    unfolding run_main
    run_main-StartEnded no_stop no_status foreground =
        subst StartEnded (ground (arith, no_stop, no_status, foreground)) boot-StartEnded
