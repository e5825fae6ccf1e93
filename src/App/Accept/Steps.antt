-- ===== src/App/Accept/Steps.antt =====
-- The limit on connections, and what the loop still does after the shutdown signal.
use ssh_roundrobin.Prelude.{ℕ, ◌+◌, ◌≤◌, ◌≡◌, refl, true, arith, ℤ, positive_or, ◌⊎◌, inl, inr}
use ssh_roundrobin.App.Accept.{
  Place, at_top, in_accept, returned, AcceptLoop, new_app, check_shutdown, accept_conn,
  accept_error, finish_handler, signal_shutdown, LoopStep, checks, accepts, fails, OtherStep,
  finishes, signals, Reach, here, loop, other,
}

-- The limit is the setting, or 100 where the setting is not positive.
abbrev pub limit : ℤ → ℕ
limit max_connections = positive_or 100 max_connections

pub record Bounded (max_connections : ℤ) (s : AcceptLoop) : Type 0 where
  pub within : s.running ≤ limit max_connections
  pub balanced : s.handled ≡ s.running + s.finished
  pub room : s.cap ≡ limit max_connections

new_app-Bounded : (max_connections : ℤ) → Bounded max_connections (new_app max_connections)
unfolding new_app
new_app-Bounded max_connections = record { within = omega arith; balanced = refl; room = refl }

loop-Bounded : (m : ℤ) (s t : AcceptLoop) → LoopStep s t → Bounded m s → Bounded m t
unfolding check_shutdown accept_conn accept_error
loop-Bounded m s t (checks p e) b = ground (arith, e, b)
loop-Bounded m s t (accepts p e) b = ground (arith, e, b)
loop-Bounded m s t (fails p e) b = ground (arith, e, b)

other-Bounded : (m : ℤ) (s t : AcceptLoop) → OtherStep s t → Bounded m s → Bounded m t
unfolding finish_handler signal_shutdown
other-Bounded m s t (finishes p e) b = ground (arith, e, b)
other-Bounded m s t (signals p e) b = ground (arith, e, b)

-- However the loop, the handlers and the signal interleave, no more handlers run than the limit on
-- connections, which is the setting, or 100 where it is not positive; and every connection handled is
-- still running or has finished.
pub Reach-Bounded :
    (max_connections : ℤ) {n : ℕ} {t : AcceptLoop}
    → Reach (new_app max_connections) n t
    → Bounded max_connections t
Reach-Bounded max_connections here = new_app-Bounded max_connections
Reach-Bounded max_connections (loop {t} {u} r s) =
    loop-Bounded max_connections t u s (Reach-Bounded max_connections r)
Reach-Bounded max_connections (other {t} {u} r s) =
    other-Bounded max_connections t u s (Reach-Bounded max_connections r)

-- The steps that the loop may still take after the signal, from each place.
abbrev steps_left : Place → ℕ
steps_left at_top = 1
steps_left in_accept = 2
steps_left returned = 0

-- The connections that may still be accepted.
abbrev accepts_left : Place → ℕ
accepts_left at_top = 0
accepts_left in_accept = 1
accepts_left returned = 0

steps_left-le : (p : Place) → steps_left p ≤ 2
steps_left-le at_top = omega arith
steps_left-le in_accept = omega arith
steps_left-le returned = omega arith

accepts_left-le : (p : Place) → accepts_left p ≤ 1
accepts_left-le at_top = omega arith
accepts_left-le in_accept = omega arith
accepts_left-le returned = omega arith

record Ending (s : AcceptLoop) (n : ℕ) (t : AcceptLoop) : Type 0 where
  pub down : t.shutdown ≡ true
  pub steps : n + steps_left t.place ≤ steps_left s.place
  pub taken :
      t.handled + t.rejected + accepts_left t.place ≤ s.handled + s.rejected + accepts_left s.place

loop-Ending :
    (s : AcceptLoop) (n : ℕ) (t u : AcceptLoop) → LoopStep t u → Ending s n t → Ending s (n + 1) u
unfolding check_shutdown accept_conn accept_error
loop-Ending s n t u (checks p e) b = ground (arith, e, b, p)
loop-Ending s n t u (accepts p e) b = ground (arith, e, b, p)
loop-Ending s n t u (fails p e) b = ground (arith, e, b, p)

other-Ending :
    (s : AcceptLoop) (n : ℕ) (t u : AcceptLoop) → OtherStep t u → Ending s n t → Ending s n u
unfolding finish_handler signal_shutdown
other-Ending s n t u (finishes p e) b = ground (arith, e, b, p)
other-Ending s n t u (signals p e) b = ground (arith, e, b, p)

Reach-Ending :
    (s : AcceptLoop) {n : ℕ} {t : AcceptLoop} → s.shutdown ≡ true → Reach s n t → Ending s n t
Reach-Ending s d here = record { down = d; steps = omega arith; taken = omega arith }
Reach-Ending s d (loop {n} {t} {u} r x) = loop-Ending s n t u x (Reach-Ending s d r)
Reach-Ending s d (other {n} {t} {u} r x) = other-Ending s n t u x (Reach-Ending s d r)

-- After the shutdown signal the loop takes at most two steps more and accepts at most one
-- connection more, none if it was at the top; and until it has returned it has a next step.
pub Reach-shutdown :
    (s : AcceptLoop) {n : ℕ} {t : AcceptLoop}
    → s.shutdown ≡ true
    → Reach s n t
    → (n ≤ 2)
      × (t.handled + t.rejected ≤ s.handled + s.rejected + 1)
      × (s.place ≡ at_top → t.handled + t.rejected ≤ s.handled + s.rejected)
      × ((t.place ≡ returned) ⊎ ((u : AcceptLoop) × LoopStep t u))
Reach-shutdown s {n} {t} d r =
    let e = Reach-Ending s d r in
    (
      ground (arith, e, steps_left-le s.place),
      ground (arith, e, accepts_left-le s.place),
      λ p. ground (arith, e, p),
      progress t.place t refl,
    )
  where
    progress :
        (p : Place) (u : AcceptLoop)
        → u.place ≡ p
        → (u.place ≡ returned) ⊎ ((v : AcceptLoop) × LoopStep u v)
    progress at_top u h = inr (check_shutdown u, checks h refl)
    progress in_accept u h = inr (accept_conn u, accepts h refl)
    progress returned u h = inl h
