-- ===== src/App/Accept.antt =====
-- `New` and `acceptLoop` of internal/app/app.go: the accept loop, the handlers that it starts, and the
-- shutdown signal, which may act in any order.
pub mod Steps
use ssh_roundrobin.Prelude.{
  ℕ, ◌+◌, ◌-◌, ◌<◌, ◌≡◌, Bool, true, false, ltb, if◌then◌else◌, ℤ, positive_or,
}

-- Where the loop is: before the test of `shutdownCh`, in `Accept`, or after its return.
pub data Place : Type 0 where
  at_top in_accept returned : Place

-- `running` is the number of tokens in the channel `connSem`, and `cap` its capacity; the counts of
-- connections are of all since the start.
pub record AcceptLoop : Type 0 where
  pub place : Place
  pub shutdown : Bool
  pub cap : ℕ
  pub running : ℕ
  pub handled : ℕ
  pub rejected : ℕ
  pub finished : ℕ

unfoldable pub new_app : ℤ → AcceptLoop
new_app max_connections = record {
  place = at_top;
  shutdown = false;
  cap = positive_or 100 max_connections;
  running = 0;
  handled = 0;
  rejected = 0;
  finished = 0;
}

-- The first `select`: a closed `shutdownCh` ends the loop.
unfoldable pub check_shutdown : AcceptLoop → AcceptLoop
check_shutdown s = record s { place = if s.shutdown then returned else in_accept }

-- `Accept` gives a connection: it is handled if the channel has room, and closed if not.
unfoldable pub accept_conn : AcceptLoop → AcceptLoop
accept_conn s =
    if ltb s.running s.cap
    then record s { place = at_top; running = s.running + 1; handled = s.handled + 1 }
    else record s { place = at_top; rejected = s.rejected + 1 }

-- `Accept` gives an error: the loop goes on unless it is shut down.
unfoldable pub accept_error : AcceptLoop → AcceptLoop
accept_error s = record s { place = if s.shutdown then returned else at_top }

-- A handler ends and takes its token back.
unfoldable pub finish_handler : AcceptLoop → AcceptLoop
finish_handler s = record s { running = s.running - 1; finished = s.finished + 1 }

unfoldable pub signal_shutdown : AcceptLoop → AcceptLoop
signal_shutdown s = record s { shutdown = true }

-- The steps of the loop itself, and those of the others.
pub data LoopStep (s : AcceptLoop) (t : AcceptLoop) : Type 0 where
  checks : s.place ≡ at_top → t ≡ check_shutdown s → LoopStep s t
  accepts : s.place ≡ in_accept → t ≡ accept_conn s → LoopStep s t
  fails : s.place ≡ in_accept → t ≡ accept_error s → LoopStep s t

pub data OtherStep (s : AcceptLoop) (t : AcceptLoop) : Type 0 where
  finishes : 0 < s.running → t ≡ finish_handler s → OtherStep s t
  signals : s.shutdown ≡ false → t ≡ signal_shutdown s → OtherStep s t

-- `t` is reached from `s` by steps of which `n` are the loop's.
pub data Reach (s : AcceptLoop) : ℕ → AcceptLoop → Type 0 where
  here : Reach s 0 s
  loop : {n : ℕ} {t u : AcceptLoop} → Reach s n t → LoopStep t u → Reach s (n + 1) u
  other : {n : ℕ} {t u : AcceptLoop} → Reach s n t → OtherStep t u → Reach s n u
