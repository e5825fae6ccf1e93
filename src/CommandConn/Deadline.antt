-- ===== src/CommandConn/Deadline.antt =====
-- The deadlines of a `commandConn`: `SetDeadline`, `SetReadDeadline` and `SetWriteDeadline` each start
-- a timer that closes the connection.
pub mod Expiry
use ssh_roundrobin.Prelude.{ℕ, ◌==◌, if◌then◌else◌, List, [], ◌∷◌, none, leb}
use ssh_roundrobin.Env.{Env}
use ssh_roundrobin.CommandConn.{CommandConn, close}

-- A connection, the times at which its timers fire, and the world.
pub record Timed (W : Type 0) : Type 0 where
  pub conn : CommandConn
  pub timers : List ℕ
  pub world : W

module _ {W : Type 0} where
  -- `time.AfterFunc(time.Until(t), …)` fires at `t`, or at once when `t` has passed; the zero time is 0.
  unfoldable pub set_deadline : ℕ → Timed W → Timed W
  set_deadline t c = if t == 0 then c else record c { timers = t ∷ c.timers }

  unfoldable pub set_read_deadline : ℕ → Timed W → Timed W
  set_read_deadline t c = if t == 0 then c else record c { timers = t ∷ c.timers }

  unfoldable pub set_write_deadline : ℕ → Timed W → Timed W
  set_write_deadline t c = if t == 0 then c else record c { timers = t ∷ c.timers }

-- What happens to a connection: its user sets a deadline or closes it, or the clock reaches a time.
pub data Event : Type 0 where
  sets sets_read sets_write : ℕ → Event
  closes : Event
  reaches : ℕ → Event

module _ {W : Type 0} (env : Env W) where
  unfoldable pub close_timed : Timed W → Timed W
  close_timed c =
      let (conn, world) = close env c.conn c.world in record c { conn = conn; world = world }

  -- At the time `now` the timers that are due fire, each with a `Close`.
  unfoldable pub fire : ℕ → List ℕ → Timed W → Timed W
  fire now [] c = record c { timers = [] }
  fire now (t ∷ ts) c =
      let kept = fire now ts c in
      if leb t now then close_timed kept else record kept { timers = t ∷ kept.timers }

  unfoldable pub happen : Event → Timed W → Timed W
  happen (sets t) c = set_deadline t c
  happen (sets_read t) c = set_read_deadline t c
  happen (sets_write t) c = set_write_deadline t c
  happen closes c = close_timed c
  happen (reaches now) c = fire now c.timers c

  unfoldable pub happen_each : List Event → Timed W → Timed W
  happen_each [] c = c
  happen_each (e ∷ es) c = happen_each es (happen e c)
