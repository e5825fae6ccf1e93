-- ===== src/App/Shutdown/Ordered.antt =====
-- The order of the shutdown.
use ssh_roundrobin.Prelude.{
  inl, inr, ℕ, ◌≤◌, ◌≡◌, refl, sym, subst, true, false, List, [], arith, leb, not,
}
use ssh_roundrobin.Dict.{is_some}
use ssh_roundrobin.Env.{Env}
use ssh_roundrobin.Outcome.{returns, returned_or_not}
use ssh_roundrobin.Os.{Os}
use ssh_roundrobin.Text.{Text, Error}
use ssh_roundrobin.RoundRobin.{
  Pool, close_all, close_each, cleanup_expired_targets, report_target_failure,
  report_target_success,
}
use ssh_roundrobin.RoundRobin.Strategy.{get_for_target}
use ssh_roundrobin.ServerStatus.{record_success, record_fail}
use ssh_roundrobin.RoundRobin.Health.{run_health_checks}
use ssh_roundrobin.ServerStatus.Persistence.{Json}
use ssh_roundrobin.Config.Settings.{Config}
use ssh_roundrobin.App.Startup.{run_health_check_cycle}
use ssh_roundrobin.App.Boot.{Serving, serves, boot}
use ssh_roundrobin.App.Shutdown.Kept.{Reach-Valid}
use ssh_roundrobin.SshClient.{SshClient}
use ssh_roundrobin.RoundRobin.Valid.{Valid}
use ssh_roundrobin.App.Accept.{
  returned, new_app, check_shutdown, accept_conn, accept_error, finish_handler, signal_shutdown,
}
use ssh_roundrobin.App.Shutdown.{
  tracked, Stage, awaits_signal, closes_shutdown_ch, closes_health_stop, flushes, stops_tracker,
  closes_listener, closes_pool, closes_log, finished, Process, launch, Survives, flush_now,
  stop_tracker, close_log, handle_signal, leave, run_cycle, flush_tick, Step, main, conn, signal,
  callback, health, flusher, MainStep, checks, accepts, fails, main_returns, ConnStep, selects,
  reports_failure, reports_success, tracks_success, tracks_failure, transfers, finishes, HealthStep,
  health_ticks, checks_health, health_ends, FlushStep, flush_ticks, flushes_again, flush_ends,
  Reach, here, next,
}

-- The number of acts that the signal handler has done.
abbrev pub acts : Stage → ℕ
acts awaits_signal = 0
acts closes_shutdown_ch = 1
acts closes_health_stop = 2
acts flushes = 3
acts stops_tracker = 4
acts closes_listener = 5
acts closes_pool = 6
acts closes_log = 7
acts finished = 8

-- What holds of a process that has done `n` acts of its shutdown.
pub record Ordered {W : Type 0} (n : ℕ) (s : Process W) : Type 0 where
  pub told : s.loop.shutdown ≡ leb 2 n
  pub health_told : s.health_stop ≡ leb 3 n
  pub written : is_some s.saved ≡ leb 4 n
  pub tracker_told : s.tracker_stop ≡ leb 5 n
  pub bound : s.listener_open ≡ not (leb 6 n)
  pub emptied : 7 ≤ n → s.pool.servers ≡ []
  pub logged : s.log_closed ≡ leb 8 n
  pub left : s.exited ≡ true → s.loop.place ≡ returned
  pub ended_loop : s.loop.place ≡ returned → 2 ≤ n

get_for_target-servers :
    {W : Type 0} (env : Env W) (target : Text) (exclude : List Text) (p : Pool W)
    → p.servers ≡ []
    → (get_for_target env target exclude p).1.servers ≡ []
unfolding get_for_target
get_for_target-servers env target exclude p h = rw (h, get_for_target) refl

cycle-servers :
    {W : Type 0} (env : Env W) (p : Pool W)
    → p.servers ≡ []
    → (run_health_check_cycle env p).1.servers ≡ []
unfolding run_health_check_cycle run_health_checks cleanup_expired_targets
cycle-servers env p h = rw (h, run_health_checks) refl

close_all-servers :
    {W : Type 0} (env : Env W) (p : Pool W)
    → (close_all env p).0 ≡ returns tt
    → (close_all env p).1.servers ≡ []
unfolding close_all
close_all-servers env p h = elim (returned_or_not (close_each env p.servers p).0) [
  | inl o ↦ absurd (ground (arith, h, o))
  | inr (x, o) ↦ rw (o, close_all) refl
]

module _ {W : Type 0} (env : Env W) (os : Os W) (json : Json) (c : Config) where
  launch-Ordered : (s : Serving W) → Ordered 0 (launch c s)
  unfolding launch new_app
  launch-Ordered s = ground arith

  signal-Ordered :
      (g : Stage) (s : Process W)
      → s.stage ≡ g
      → s.exited ≡ false
      → Survives env os json c g s
      → Ordered (acts g) s
      → let t = handle_signal env os json c g s in Ordered (acts t.stage) t
  unfolding handle_signal signal_shutdown flush_now stop_tracker close_log close_all
  signal-Ordered awaits_signal s g x k o = ground (arith, o)
  signal-Ordered closes_shutdown_ch s g x k o = ground (arith, o)
  signal-Ordered closes_health_stop s g x k o = ground (arith, o)
  signal-Ordered flushes s g x k o = ground (arith, o)
  signal-Ordered stops_tracker s g x k o = ground (arith, o)
  signal-Ordered closes_listener s g x k o = ground (arith, o)
  signal-Ordered closes_pool s g x k o = ground (arith, o, k, close_all-servers env s.pool k)
  signal-Ordered closes_log s g x k o = ground (arith, o)
  signal-Ordered finished s g x k o = subst (λ g. Ordered (acts g) s) (sym g) o

  module _ (s t : Process W) (runs : s.exited ≡ false) (o : Ordered (acts s.stage) s) where
    MainStep-Ordered : MainStep env os json c s t → Ordered (acts t.stage) t
    unfolding check_shutdown accept_conn accept_error leave
    MainStep-Ordered (checks p e) = ground (arith, o, runs, p, e)
    MainStep-Ordered (accepts p l e) = ground (arith, o, runs, p, e)
    MainStep-Ordered (fails p e) = ground (arith, o, runs, p, e)
    MainStep-Ordered (main_returns p e) = ground (arith, o, runs, p, e)

    ConnStep-Ordered : ConnStep env os json c s t → Ordered (acts t.stage) t
    unfolding finish_handler report_target_failure report_target_success record_success record_fail
    ConnStep-Ordered (selects target exclude r k x e) =
        ground (arith, o, runs, e, get_for_target-servers env target exclude s.pool)
    ConnStep-Ordered (reports_failure client target f k e) = ground (arith, o, runs, e)
    ConnStep-Ordered (reports_success client target k e) = ground (arith, o, runs, e)
    ConnStep-Ordered (tracks_success upstream k e) = ground (arith, o, runs, e)
    ConnStep-Ordered (tracks_failure upstream f k e) = ground (arith, o, runs, e)
    ConnStep-Ordered (transfers w k e) = ground (arith, o, runs, e)
    ConnStep-Ordered (finishes k e) = ground (arith, o, runs, e)

    HealthStep-Ordered : HealthStep env os json c s t → Ordered (acts t.stage) t
    unfolding run_cycle
    HealthStep-Ordered (health_ticks h e) = ground (arith, o, runs, e)
    HealthStep-Ordered (checks_health report h r e) =
        ground (arith, o, runs, e, cycle-servers env s.pool)
    HealthStep-Ordered (health_ends h k e) = ground (arith, o, runs, e)

    FlushStep-Ordered : FlushStep env os json c s t → Ordered (acts t.stage) t
    unfolding flush_tick flush_now
    FlushStep-Ordered (flush_ticks h e) = ground (arith, o, runs, e)
    FlushStep-Ordered (flushes_again h e) = ground (arith, o, runs, e)
    FlushStep-Ordered (flush_ends h k e) = ground (arith, o, runs, e)

    callback-Ordered :
        (upstream : Text) (f : Error)
        → t ≡ tracked env os json c (s.on_connection_error upstream f (s.tracker, s.pool.world)) s
        → Ordered (acts t.stage) t
    callback-Ordered upstream f e = ground (arith, o, runs, e)

    Step-Ordered : Step env os json c s t → Ordered (acts t.stage) t
    Step-Ordered (main x) = MainStep-Ordered x
    Step-Ordered (conn x) = ConnStep-Ordered x
    Step-Ordered (signal k e) =
        subst (λ u. Ordered (acts u.stage) u) (sym e) (signal-Ordered s.stage s refl runs k o)
    Step-Ordered (callback upstream f e) = callback-Ordered upstream f e
    Step-Ordered (health x) = HealthStep-Ordered x
    Step-Ordered (flusher x) = FlushStep-Ordered x

  launched-Ordered :
      (v : Serving W) {t : Process W}
      → Reach env os json c (launch c v) t
      → Ordered (acts t.stage) t
  unfolding launch
  launched-Ordered v here = launch-Ordered v
  launched-Ordered v (next {t} {u} r x s) = Step-Ordered t u x (launched-Ordered v r) s

  -- However the goroutines of a started process interleave, the shutdown keeps its order. The channel of
  -- the accept loop is closed first, then that of the health check; then the status file is flushed, and
  -- only after that is the flush goroutine told to end, the listener closed, the pool emptied, where it
  -- stays, and the log file closed, each after the other and each when the signal handler has done so
  -- many acts. The process has exited only when its accept loop has returned, which it does only after
  -- the signal. All the time the pool keeps its invariant: an active index names a server, the limit on
  -- connections is positive, and the counter fits 32 bits.
  pub Reach-Ordered :
      (heap : ℕ → SshClient) (w : W) (v : Serving W) {t : Process W}
      → boot env os json c heap w ≡ serves v
      → Reach env os json c (launch c v) t
      → Ordered (acts t.stage) t × Valid t.pool.rr
  Reach-Ordered heap w v b r = (launched-Ordered v r, Reach-Valid env os json c heap w v b r)
