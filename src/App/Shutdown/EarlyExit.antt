-- ===== src/App/Shutdown/EarlyExit.antt =====
-- The signal handler and the return of `main` are not synchronised.
use ssh_roundrobin.Prelude.{◌≡◌, refl, ◌∙◌, true, false, Bool-cases, inl, inr, arith}
use ssh_roundrobin.Env.{Env}
use ssh_roundrobin.Os.{Os}
use ssh_roundrobin.ServerStatus.Persistence.{Json}
use ssh_roundrobin.Config.Settings.{Config}
use ssh_roundrobin.Daemon.{remove_pid}
use ssh_roundrobin.App.Accept.{
  AcceptLoop, at_top, in_accept, returned, check_shutdown, accept_conn, accept_error,
}
use ssh_roundrobin.App.Shutdown.{
  Process, leave, main, checks, accepts, fails, main_returns, Reach, here, next,
}

module _ {W : Type 0} (env : Env W) (os : Os W) (json : Json) (c : Config) where
  abbrev accepted : Process W → Process W
  accepted s = record s { loop = accept_conn s.loop }

  abbrev over : Process W → Process W
  over s = record (accepted s) { loop = check_shutdown (accept_conn s.loop) }

  accept_conn-at_top :
      (l : AcceptLoop) → ((accept_conn l).place ≡ at_top) × ((accept_conn l).shutdown ≡ l.shutdown)
  unfolding accept_conn
  accept_conn-at_top l = ground arith

  check_shutdown-returned :
      (l : AcceptLoop) → l.shutdown ≡ true → (check_shutdown l).place ≡ returned
  unfolding check_shutdown
  check_shutdown-returned l h = ground (arith, h)

  accept_error-returned : (l : AcceptLoop) → l.shutdown ≡ true → (accept_error l).place ≡ returned
  unfolding accept_error
  accept_error-returned l h = ground (arith, h)

  -- From any state of the running process in which the channel of the accept loop is closed, the loop
  -- waits in `Accept`, there are steps that end the process while the
  -- signal handler stays where it is: what it has not saved is not saved, no connection of the pool is
  -- closed, and only the PID file is removed.
  pub exit_before_flush :
      (s : Process W)
      → s.exited ≡ false
      → s.loop.shutdown ≡ true
      → s.loop.place ≡ in_accept
      → (t : Process W) × Reach env os json c s t
        × (t.exited ≡ true)
        × (t.stage ≡ s.stage)
        × (t.saved ≡ s.saved)
        × (t.pool.clients ≡ s.pool.clients)
        × (t.pool.world ≡ (remove_pid os c.pid_file s.pool.world).1)
  unfolding leave
  exit_before_flush s runs down at =
      let (top, same) = accept_conn-at_top s.loop in
      elim (Bool-cases s.listener_open) [
        | inl opened ↦ (
          leave env os json c (over s),
          next (next (next here runs (main (accepts at opened refl))) runs (main (checks top refl)))
              runs
              (main
                (main_returns (check_shutdown-returned (accept_conn s.loop) (same ∙ down)) refl)),
          refl,
          refl,
          refl,
          refl,
          refl,
        )
        | inr closed ↦ (
          leave env os json c (record s { loop = accept_error s.loop }),
          next (next here runs (main (fails at refl))) runs
              (main (main_returns (accept_error-returned s.loop down) refl)),
          refl,
          refl,
          refl,
          refl,
          refl,
        )
      ]
