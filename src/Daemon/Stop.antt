-- ===== src/Daemon/Stop.antt =====
-- The wait of `Stop` ends, and what its success means.
use ssh_roundrobin.Prelude.{
  ℕ, zero, suc, ◌+◌, ◌*◌, ◌≤◌, ◌<◌, ◌≡◌, ◌≢◌, none, some, arith, ltb, Bool-cases, Option-cases, inl,
  inr, ℤ,
}
use ssh_roundrobin.Text.{Text, Error}
use ssh_roundrobin.Env.{Env, second}
use ssh_roundrobin.Os.{Os}
use ssh_roundrobin.Daemon.{working, wait_for_exit, stop_rounds}

-- The clock goes forward, and a sleep takes at least its time. `time w` is the time of the world.
pub record Clock {W : Type 0} (env : Env W) (os : Os W) : Type 0 where
  pub time : W → ℕ
  pub now_after : (w : W) → time w ≤ (env.now w).0
  pub after_now : (w : W) → (env.now w).0 ≤ time (env.now w).1
  pub signal_after : (pid : ℤ) (s : ℕ) (w : W) → time w ≤ time (os.signal pid s w).1
  pub sleep_after : (d : ℕ) (w : W) → time w + d ≤ time (os.sleep d w)

module _ {W : Type 0} (env : Env W) (os : Os W) where
  -- The world after a round that has found the process alive.
  abbrev after_round : ℤ → W → W
  after_round pid w = os.sleep 100_000_000 (os.signal pid 0 (env.now w).1).1

  wait_for_exit-round :
      (rounds : ℕ) (pid : ℤ) (deadline : ℕ) (w : W)
      → ((env.now w).0 < deadline
          → (wait_for_exit env os rounds pid deadline (after_round pid w)).0 ≢ working)
      → (wait_for_exit env os (suc rounds) pid deadline w).0 ≢ working
  unfolding wait_for_exit
  wait_for_exit-round rounds pid deadline w h = elim (Bool-cases (ltb (env.now w).0 deadline)) [
    | inr l ↦ λ e. ground (arith, l, e)
    | inl l ↦ elim (Option-cases (os.signal pid 0 (env.now w).1).0) [
      | inr (x, d) ↦ λ e. ground (arith, l, d, e)
      | inl d ↦ λ e. h (ground (arith, l)) (ground (arith, l, d, e))
    ]
  ]

  wait_for_exit-ends :
      (clock : Clock env os) (rounds : ℕ) (pid : ℤ) (deadline : ℕ) (w : W)
      → deadline ≤ clock.time w + rounds * 100_000_000
      → (wait_for_exit env os (suc rounds) pid deadline w).0 ≢ working
  wait_for_exit-ends clock zero pid deadline w h =
      wait_for_exit-round 0 pid deadline w (λ l. absurd (omega (arith, clock.now_after w, l)))
  wait_for_exit-ends clock (suc rounds) pid deadline w h =
      wait_for_exit-round (suc rounds) pid deadline w λ l.
        wait_for_exit-ends clock rounds pid deadline (after_round pid w) (
          omega (
            arith,
            clock.now_after w,
            clock.after_now w,
            clock.signal_after pid 0 (env.now w).1,
            clock.sleep_after 100_000_000 (os.signal pid 0 (env.now w).1).1,
          ))

  -- The wait of `Stop` always ends by itself: the process is gone or the deadline has passed, before
  -- the rounds that are allowed are used up. The clock is to go forward and a sleep to take its time.
  pub stop_rounds_enough :
      (clock : Clock env os) (pid : ℤ) (w : W)
      → let (now, v) = env.now w in
        (wait_for_exit env os stop_rounds pid (now + 10 * second) v).0 ≢ working
  stop_rounds_enough clock pid w =
      wait_for_exit-ends clock 100 pid _ _ (omega (arith, clock.after_now w))

  -- The rounds of the wait from one world to another: each reads the clock and probes the process, a
  -- round that finds it alive sleeps, and the last one finds it gone.
  pub data Probed (pid : ℤ) : W → W → Type 0 where
    found_gone :
        {w : W} {e : Error}
        → (os.signal pid 0 (env.now w).1).0 ≡ some e
        → Probed pid w (os.signal pid 0 (env.now w).1).1
    found_alive :
        {w v : W}
        → (os.signal pid 0 (env.now w).1).0 ≡ none
        → Probed pid (os.sleep 100_000_000 (os.signal pid 0 (env.now w).1).1) v
        → Probed pid w v
