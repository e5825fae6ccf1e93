-- ===== src/App/Shutdown.antt =====
-- internal/app/shutdown.go and `StartPeriodicFlush` and `Stop` of internal/status/persistence.go: the
-- goroutines of the running program, which are the accept loop, the handlers of connections, the signal
-- handler, the periodic health check and the periodic flush, with their steps in any order.
pub mod Kept
pub mod Ordered
pub mod EarlyExit
use ssh_roundrobin.Prelude.{ℕ, ◌<◌, ◌≡◌, Bool, true, false, Option, none, some, List}
use ssh_roundrobin.Text.{Text, Error}
use ssh_roundrobin.Outcome.{Result, returns}
use ssh_roundrobin.Env.{Env}
use ssh_roundrobin.Os.{Os}
use ssh_roundrobin.RoundRobin.{Pool, close_all, report_target_failure, report_target_success}
use ssh_roundrobin.RoundRobin.Strategy.{get_for_target}
use ssh_roundrobin.RoundRobin.Health.{HealthCheckReport}
use ssh_roundrobin.ServerStatus.{ServerStatusTracker, record_success, record_fail}
use ssh_roundrobin.ServerStatus.Persistence.{Json, flush}
use ssh_roundrobin.Daemon.{remove_pid}
use ssh_roundrobin.Config.Settings.{Config}
use ssh_roundrobin.App.Startup.{run_health_check_cycle}
use ssh_roundrobin.App.Boot.{Serving}
use ssh_roundrobin.App.Accept.{
  AcceptLoop, at_top, in_accept, returned, new_app, check_shutdown, accept_conn, accept_error,
  finish_handler, signal_shutdown,
}

-- The next act of the signal handler.
pub data Stage : Type 0 where
  awaits_signal closes_shutdown_ch closes_health_stop flushes stops_tracker closes_listener : Stage
  closes_pool closes_log finished : Stage

-- A goroutine with a timer: it waits for its tick or its channel, has a tick in hand, or has returned.
pub data Ticker : Type 0 where
  waits ticked ended : Ticker

-- `saved` is what the `Flush` of the signal handler returned; `exited` that `main` has returned, which
-- ends the process.
pub record Process (W : Type 0) : Type 0 where
  pub loop : AcceptLoop
  pub stage : Stage
  pub health_stop : Bool
  pub tracker_stop : Bool
  pub health : Ticker
  pub flusher : Ticker
  pub listener : ℕ
  pub listener_open : Bool
  pub log_file : Option ℕ
  pub log_closed : Bool
  pub saved : Option (Option Error)
  pub pool : Pool W
  pub tracker : ServerStatusTracker
  pub on_connection_error : Text → Error → ServerStatusTracker × W → ServerStatusTracker × W
  pub exited : Bool

-- The goroutines are started; the health check only if it is wanted.
unfoldable pub launch : {W : Type 0} → Config → Serving W → Process W
launch c s = record {
  loop = new_app c.max_connections;
  stage = awaits_signal;
  health_stop = false;
  tracker_stop = false;
  health = elim c.health_check [ true ↦ waits | false ↦ ended ];
  flusher = waits;
  listener = s.listener;
  listener_open = true;
  log_file = s.log_file;
  log_closed = false;
  saved = none;
  pool = s.startup.pool;
  tracker = s.startup.tracker;
  on_connection_error = s.startup.on_connection_error;
  exited = false;
}

module _ {W : Type 0} (env : Env W) (os : Os W) (json : Json) (c : Config) where
  -- `Flush` of the tracker.
  unfoldable pub flush_now : Process W → Option Error × Process W
  flush_now s =
      let (e, w) = flush env os json s.tracker s.pool.world in
      (e, record s { pool = record s.pool { world = w } })

  -- `Stop` of the tracker.
  unfoldable pub stop_tracker : Process W → Process W
  stop_tracker s = record s { tracker_stop = true }

  unfoldable pub close_log : Process W → Process W
  close_log s = record s {
    stage = finished;
    log_closed = true;
    pool = record s.pool {
      world = elim s.log_file [ none ↦ s.pool.world | some n ↦ os.close_file n s.pool.world ];
    };
  }

  -- The act of the signal handler at each stage, and the next stage.
  unfoldable pub handle_signal : Stage → Process W → Process W
  handle_signal awaits_signal s = record s { stage = closes_shutdown_ch }
  handle_signal closes_shutdown_ch s = record s {
    stage = closes_health_stop;
    loop = signal_shutdown s.loop;
  }
  handle_signal closes_health_stop s = record s { stage = flushes; health_stop = true }
  handle_signal flushes s =
      let (e, t) = flush_now s in record t { stage = stops_tracker; saved = some e }
  handle_signal stops_tracker s = record (stop_tracker s) { stage = closes_listener }
  handle_signal closes_listener s = record s {
    stage = closes_pool;
    listener_open = false;
    pool = record s.pool { world = os.close_listener s.listener s.pool.world };
  }
  handle_signal closes_pool s = record s { stage = closes_log; pool = (close_all env s.pool).1 }
  handle_signal closes_log s = close_log s
  handle_signal finished s = s

  -- The acts of the signal handler that do not end the process by a panic.
  abbrev pub Survives : Stage → Process W → Type 0
  Survives closes_pool s = (close_all env s.pool).0 ≡ returns tt
  Survives _ s = Unit

  -- `main` returns: the deferred `RemovePID`, and the end of the process.
  unfoldable pub leave : Process W → Process W
  leave s = record s {
    exited = true;
    pool = record s.pool { world = (remove_pid os c.pid_file s.pool.world).1 };
  }

  -- The tracker and the world after a call of the tracker.
  abbrev pub tracked : ServerStatusTracker × W → Process W → Process W
  tracked (tracker, w) s = record s { pool = record s.pool { world = w }; tracker = tracker }

  -- A round of the health-check goroutine, and one of the flush goroutine.
  unfoldable pub run_cycle : Process W → Process W
  run_cycle s = record s { health = waits; pool = (run_health_check_cycle env s.pool).1 }

  unfoldable pub flush_tick : Process W → Process W
  flush_tick s = record (flush_now s).1 { flusher = waits }

  -- The accept loop, where a closed listener gives no connection, and the return of `main` after it.
  pub data MainStep (s : Process W) (t : Process W) : Type 0 where
    checks : s.loop.place ≡ at_top → t ≡ record s { loop = check_shutdown s.loop } → MainStep s t
    accepts :
        s.loop.place ≡ in_accept
        → s.listener_open ≡ true
        → t ≡ record s { loop = accept_conn s.loop }
        → MainStep s t
    fails : s.loop.place ≡ in_accept → t ≡ record s { loop = accept_error s.loop } → MainStep s t
    main_returns : s.loop.place ≡ returned → t ≡ leave s → MainStep s t

  -- A handler of a connection calls the pool and the tracker under their locks, and changes the world
  -- between these calls: it dials a target, reads, writes, and runs a tunnel. It may end at any time.
  pub data ConnStep (s : Process W) (t : Process W) : Type 0 where
    selects :
        (target : Text) (exclude : List Text) (r : Result ℕ)
        → 0 < s.loop.running
        → (get_for_target env target exclude s.pool).0 ≡ returns r
        → t ≡ record s { pool = (get_for_target env target exclude s.pool).1 }
        → ConnStep s t
    reports_failure :
        (client : Option ℕ) (target : Text) (e : Option Error)
        → 0 < s.loop.running
        → t ≡ record s {
          pool =
              report_target_failure env client target c.target_fail_threshold c.target_fail_ttl e
                s.pool;
        }
        → ConnStep s t
    reports_success :
        (client : Option ℕ) (target : Text)
        → 0 < s.loop.running
        → t ≡ record s { pool = report_target_success client target s.pool }
        → ConnStep s t
    tracks_success :
        (upstream : Text)
        → 0 < s.loop.running
        → t ≡ tracked (record_success env upstream s.tracker s.pool.world) s
        → ConnStep s t
    tracks_failure :
        (upstream : Text) (e : Option Error)
        → 0 < s.loop.running
        → t ≡ tracked (record_fail env upstream e s.tracker s.pool.world) s
        → ConnStep s t
    transfers :
        (w : W)
        → 0 < s.loop.running
        → t ≡ record s { pool = record s.pool { world = w } }
        → ConnStep s t
    finishes : 0 < s.loop.running → t ≡ record s { loop = finish_handler s.loop } → ConnStep s t

  -- The `select` may choose a tick also when the channel is closed.
  pub data HealthStep (s : Process W) (t : Process W) : Type 0 where
    health_ticks : s.health ≡ waits → t ≡ record s { health = ticked } → HealthStep s t
    checks_health :
        (report : HealthCheckReport)
        → s.health ≡ ticked
        → (run_health_check_cycle env s.pool).0 ≡ returns report
        → t ≡ run_cycle s
        → HealthStep s t
    health_ends :
        s.health ≡ waits → s.health_stop ≡ true → t ≡ record s { health = ended } → HealthStep s t

  pub data FlushStep (s : Process W) (t : Process W) : Type 0 where
    flush_ticks : s.flusher ≡ waits → t ≡ record s { flusher = ticked } → FlushStep s t
    flushes_again : s.flusher ≡ ticked → t ≡ flush_tick s → FlushStep s t
    flush_ends :
        s.flusher ≡ waits → s.tracker_stop ≡ true → t ≡ record s { flusher = ended } → FlushStep s t

  -- A step of one goroutine. A selection calls `OnConnectionError` for a server that it
  -- cannot connect: the call is a step of its own, with any upstream and error.
  pub data Step (s : Process W) (t : Process W) : Type 0 where
    main : MainStep s t → Step s t
    conn : ConnStep s t → Step s t
    signal : Survives s.stage s → t ≡ handle_signal s.stage s → Step s t
    callback :
        (upstream : Text) (e : Error)
        → t ≡ tracked (s.on_connection_error upstream e (s.tracker, s.pool.world)) s
        → Step s t
    health : HealthStep s t → Step s t
    flusher : FlushStep s t → Step s t

  -- A process that has exited takes no step.
  pub data Reach (s : Process W) : Process W → Type 0 where
    here : Reach s s
    next : {t u : Process W} → Reach s t → t.exited ≡ false → Step t u → Reach s u
