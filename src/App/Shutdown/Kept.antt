-- ===== src/App/Shutdown/Kept.antt =====
-- Every goroutine keeps the invariant of the pool, which the start establishes.
use ssh_roundrobin.Prelude.{inl, inr, ℕ, ◌≡◌, sym, subst, arith}
use ssh_roundrobin.Outcome.{error_or_ok}
use ssh_roundrobin.Env.{Env}
use ssh_roundrobin.Os.{Os}
use ssh_roundrobin.SshClient.{SshClient}
use ssh_roundrobin.RoundRobin.{Pool, cleanup_expired_targets}
use ssh_roundrobin.RoundRobin.Valid.{Valid}
use ssh_roundrobin.RoundRobin.Valid.Methods.{step-Valid, closes_all, cleans_up, checks_health, gets}
use ssh_roundrobin.RoundRobin.Valid.Methods
use ssh_roundrobin.ServerStatus.Persistence.{Json}
use ssh_roundrobin.Config.Settings.{Config}
use ssh_roundrobin.Daemon.{write_pid}
use ssh_roundrobin.App.Startup.{connect_servers, run_health_check_cycle}
use ssh_roundrobin.App.Startup.Registered.{Started-cases, connect_servers-Registered}
use ssh_roundrobin.App.Boot.{serves, Serving, settings_of, setup_logging, serve_from, boot}
use ssh_roundrobin.App.Shutdown.{
  Stage, awaits_signal, closes_shutdown_ch, closes_health_stop, flushes, stops_tracker,
  closes_listener, closes_pool, closes_log, finished, Process, launch, flush_now, stop_tracker,
  close_log, handle_signal, leave, run_cycle, flush_tick, Step, main, conn, signal, callback,
  health, flusher, checks, accepts, fails, main_returns, ConnStep, selects, reports_failure,
  reports_success, tracks_success, tracks_failure, transfers, finishes, HealthStep, health_ticks,
  health_ends, flush_ticks, flushes_again, flush_ends, Reach, here, next,
}

module _ {W : Type 0} (env : Env W) (os : Os W) (json : Json) (c : Config) where
  abbrev PoolValid : Process W → Type 0
  PoolValid s = Valid s.pool.rr

  signal-PoolValid :
      (g : Stage) (s : Process W) → PoolValid s → PoolValid (handle_signal env os json c g s)
  unfolding handle_signal flush_now stop_tracker close_log
  signal-PoolValid awaits_signal s v = v
  signal-PoolValid closes_shutdown_ch s v = v
  signal-PoolValid closes_health_stop s v = v
  signal-PoolValid flushes s v = v
  signal-PoolValid stops_tracker s v = v
  signal-PoolValid closes_listener s v = v
  signal-PoolValid closes_pool s v = step-Valid env s.pool closes_all v
  signal-PoolValid closes_log s v = v
  signal-PoolValid finished s v = v

  ConnStep-PoolValid : (s t : Process W) → ConnStep env os json c s t → PoolValid s → PoolValid t
  ConnStep-PoolValid s t (selects target exclude r k x e) v =
      subst PoolValid (sym e) (step-Valid env s.pool (gets target exclude) v)
  ConnStep-PoolValid s t (reports_failure client target f k e) v = subst PoolValid (sym e) (
      step-Valid env s.pool
        (Methods.Call.reports_failure client target c.target_fail_threshold c.target_fail_ttl f) v)
  ConnStep-PoolValid s t (reports_success client target k e) v =
      subst PoolValid (sym e) (step-Valid env s.pool (Methods.Call.reports_success client target) v)
  ConnStep-PoolValid s t (tracks_success upstream k e) v = subst PoolValid (sym e) v
  ConnStep-PoolValid s t (tracks_failure upstream f k e) v = subst PoolValid (sym e) v
  ConnStep-PoolValid s t (transfers w k e) v = subst PoolValid (sym e) v
  ConnStep-PoolValid s t (finishes k e) v = subst PoolValid (sym e) v

  cycle-Valid : (p : Pool W) → Valid p.rr → Valid (run_health_check_cycle env p).1.rr
  unfolding run_health_check_cycle
  cycle-Valid p v =
      step-Valid env (cleanup_expired_targets env p) checks_health (step-Valid env p cleans_up v)

  Step-PoolValid : (s t : Process W) → Step env os json c s t → PoolValid s → PoolValid t
  unfolding leave run_cycle flush_tick flush_now
  Step-PoolValid s t (main (checks p e)) v = subst PoolValid (sym e) v
  Step-PoolValid s t (main (accepts p l e)) v = subst PoolValid (sym e) v
  Step-PoolValid s t (main (fails p e)) v = subst PoolValid (sym e) v
  Step-PoolValid s t (main (main_returns p e)) v = subst PoolValid (sym e) v
  Step-PoolValid s t (conn x) v = ConnStep-PoolValid s t x v
  Step-PoolValid s t (callback upstream f e) v = subst PoolValid (sym e) v
  Step-PoolValid s t (signal k e) v = subst PoolValid (sym e) (signal-PoolValid s.stage s v)
  Step-PoolValid s t (health (health_ticks h e)) v = subst PoolValid (sym e) v
  Step-PoolValid s t (health (HealthStep.checks_health report h r e)) v =
      subst PoolValid (sym e) (cycle-Valid s.pool v)
  Step-PoolValid s t (health (health_ends h k e)) v = subst PoolValid (sym e) v
  Step-PoolValid s t (flusher (flush_ticks h e)) v = subst PoolValid (sym e) v
  Step-PoolValid s t (flusher (flushes_again h e)) v = subst PoolValid (sym e) v
  Step-PoolValid s t (flusher (flush_ends h k e)) v = subst PoolValid (sym e) v

  -- The start that serves has made a pool with the invariant.
  boot-Valid :
      (heap : ℕ → SshClient) (w : W) (v : Serving W)
      → boot env os json c heap w ≡ serves v
      → Valid v.startup.pool.rr
  unfolding boot serve_from
  boot-Valid heap w v h =
      let logging = (setup_logging os c.log_file w).1 in
      let recorded = (write_pid os c.pid_file logging).1 in
      let listening = (os.listen c.bind_addr recorded).1 in
      elim (error_or_ok (setup_logging os c.log_file w).0) [
        | inl (e, l) ↦ absurd (ground (arith, h, l))
        | inr (log, l) ↦ elim (error_or_ok (os.listen c.bind_addr recorded).0) [
          | inl (e, k) ↦ absurd (ground (arith, h, l, k))
          | inr (listener, k) ↦
              elim (Started-cases (connect_servers env os json (settings_of c) heap listening)) [
                | inl (e, u, m) ↦ absurd (ground (arith, h, l, k, m))
                | inr (s, m) ↦
                    let same : s ≡ v.startup = ground (arith, h, l, k, m) in
                    let (servers, parsed, some_server, registered, reports) =
                      connect_servers-Registered env os json (settings_of c) heap listening s m in
                    subst (λ s. Valid s.pool.rr) same registered.valid
              ]
        ]
      ]

  pub Reach-Valid :
      (heap : ℕ → SshClient) (w : W) (v : Serving W) {t : Process W}
      → boot env os json c heap w ≡ serves v
      → Reach env os json c (launch c v) t
      → Valid t.pool.rr
  unfolding launch
  Reach-Valid heap w v b here = boot-Valid heap w v b
  Reach-Valid heap w v b (next {t} {u} r x s) = Step-PoolValid t u s (Reach-Valid heap w v b r)
