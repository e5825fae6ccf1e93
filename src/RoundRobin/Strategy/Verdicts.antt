-- ===== src/RoundRobin/Strategy/Verdicts.antt =====
-- What the verdict of one round, `try_client`, says of the server that it visits.
use ssh_roundrobin.Prelude.{
  ℕ, ◌≡◌, ◌≢◌, refl, sym, ◌∙◌, Bool, true, false, not, ◌&&◌, Option, none, some, List, [], arith,
  ◌⊎◌,
}
use ssh_roundrobin.Text.{Text, Error, text_eq_refl}
use ssh_roundrobin.Dict
use ssh_roundrobin.Outcome.{Outcome, returns, panics}
use ssh_roundrobin.Env.{Env}
use ssh_roundrobin.SshClient.Laws.{
  Connects, mark_selected_frame, ensure_connected-up, ensure_connected-down,
  ensure_connected-panics,
}
use ssh_roundrobin.RoundRobin.{
  Pool, client_addr, probe, is_target_blocked, notify_connection_error, target_failure_key,
}
use ssh_roundrobin.RoundRobin.View.{up_at, blocked, failure_of}
use ssh_roundrobin.RoundRobin.Strategy.Step.{probe-up, probe-up_at}
use ssh_roundrobin.RoundRobin.Strategy.{
  picked, skipped, excluded, eligible, mark, ensure, after_dial, try_dial, use_client, visit,
}

module _ {W : Type 0} (exclude : List Text) (target : Text) (now r : ℕ) (p : Pool W) where
  -- The guards let through what is neither excluded nor blocked.
  pub eligible_lem :
      (eligible exclude target now r p).0
      ≡ (not (excluded (client_addr p r) exclude) && not (blocked p target now r))
  unfolding eligible is_target_blocked
  eligible_lem = ground arith

  -- What passes the guards has no failure on record afterwards.
  pub eligible_forgets :
      target ≢ []
      → (eligible exclude target now r p).0 ≡ true
      → failure_of (eligible exclude target now r p).1 target r ≡ none
  unfolding eligible is_target_blocked
  eligible_forgets t h = ground (
    arith,
    Dict.get-delete p.target_failures (target_failure_key (client_addr p r) target)
        (target_failure_key (client_addr p r) target),
    text_eq_refl (target_failure_key (client_addr p r) target),
  )

  pub eligible-clients : (eligible exclude target now r p).1.clients ≡ p.clients
  unfolding eligible is_target_blocked
  eligible-clients = ground arith

  pub eligible-rest :
      ((eligible exclude target now r p).1.active_idx ≡ p.active_idx)
      × ((eligible exclude target now r p).1.has_active ≡ p.has_active)
      × ((eligible exclude target now r p).1.index ≡ p.index)
  unfolding eligible is_target_blocked
  eligible-rest = ground arith

module _ {W : Type 0} (env : Env W) where
  -- After the guards the failure records stay.
  pub visit-failures :
      (may fit : Bool) (r : ℕ) (p : Pool W)
      → (visit env may fit r p).1.target_failures ≡ p.target_failures
  unfolding visit use_client try_dial after_dial probe mark ensure notify_connection_error
  visit-failures may fit r p = ground arith

  pub visit-still :
      (may fit : Bool) (r : ℕ) (p : Pool W)
      → ((visit env may fit r p).1.active_idx ≡ p.active_idx)
        × ((visit env may fit r p).1.has_active ≡ p.has_active)
        × ((visit env may fit r p).1.index ≡ p.index)
  unfolding visit use_client try_dial after_dial probe mark ensure notify_connection_error
  visit-still may fit r p = ground arith

  -- A picked server passed the guards, and was up unless the pool might dial.
  pub visit-picked :
      (may fit : Bool) (r : ℕ) (p : Pool W)
      → (visit env may fit r p).0 ≡ picked
      → (fit ≡ true) × ((may ≡ true) ⊎ (up_at p r ≡ true))
  unfolding visit use_client
  visit-picked may fit r p h = ground (arith, probe-up r p)

  pub visit_elsewhere :
      (may fit : Bool) (r s : ℕ) (p : Pool W)
      → r ≢ s
      → (visit env may fit r p).1.clients s ≡ p.clients s
  unfolding visit use_client try_dial after_dial probe mark ensure notify_connection_error
  visit_elsewhere may fit r s p h = ground arith

  pub visit-skipped :
      (may fit : Bool) (r : ℕ) (p : Pool W)
      → (visit env may fit r p).0 ≡ skipped
      → (fit ≡ false) ⊎ (up_at p r ≡ false)
  unfolding visit use_client
  visit-skipped may fit r p h = ground (arith, probe-up r p)

  mark-up_at : (r s : ℕ) (p : Pool W) → up_at (mark env r p) s ≡ up_at p s
  unfolding mark
  mark-up_at r s p = ground (arith, mark_selected_frame env (p.clients r) p.world)

  after_dial-up :
      (r s : ℕ) (o : Outcome (Option Error)) (p : Pool W)
      → up_at (after_dial env r o p).1 s ≡ up_at p s
  unfolding after_dial mark notify_connection_error
  after_dial-up r s panics p = refl
  after_dial-up r s (returns none) p = ground (arith, mark_selected_frame env (p.clients r) p.world)
  after_dial-up r s (returns (some e)) p = ground arith

  -- An attempt to connect that fails leaves every connection as it was.
  ensure-up :
      (r s : ℕ) (o : Outcome (Option Error)) (p : Pool W)
      → (ensure env r p).0 ≡ o
      → o ≢ returns none
      → up_at (ensure env r p).1 s ≡ up_at p s
  unfolding ensure
  ensure-up r s panics p e h = ground (arith, ensure_connected-panics env (p.clients r) p.world)
  ensure-up r s (returns none) p e h = absurd (h refl)
  ensure-up r s (returns (some m)) p e h =
      ground (arith, ensure_connected-down env (p.clients r) p.world m)

  after_dial-unpicked :
      (r : ℕ) (o : Outcome (Option Error)) (p : Pool W)
      → (after_dial env r o p).0 ≢ picked
      → o ≢ returns none
  unfolding after_dial
  after_dial-unpicked r panics p h = λ e. cc
  after_dial-unpicked r (returns none) p h = λ e. h refl
  after_dial-unpicked r (returns (some m)) p h = λ e. cc

  try_dial-unpicked :
      (r s : ℕ) (p : Pool W)
      → (try_dial env r p).0 ≢ picked
      → up_at (try_dial env r p).1 s ≡ up_at p s
  unfolding try_dial
  try_dial-unpicked r s p h =
      after_dial-up r s (ensure env r p).0 (ensure env r p).1
      ∙ ensure-up r s (ensure env r p).0 p refl
          (after_dial-unpicked r (ensure env r p).0 (ensure env r p).1 h)

  use_client-unpicked :
      (may live : Bool) (r s : ℕ) (p : Pool W)
      → (use_client env may live r p).0 ≢ picked
      → up_at (use_client env may live r p).1 s ≡ up_at p s
  unfolding use_client
  use_client-unpicked may true r s p h = absurd (h refl)
  use_client-unpicked true false r s p h = try_dial-unpicked r s p h
  use_client-unpicked false false r s p h = refl

  -- A visit that picks nothing leaves every connection up or down as it was.
  pub visit-unpicked :
      (may fit : Bool) (r s : ℕ) (p : Pool W)
      → (visit env may fit r p).0 ≢ picked
      → up_at (visit env may fit r p).1 s ≡ up_at p s
  unfolding visit
  visit-unpicked may false r s p h = refl
  visit-unpicked may true r s p h =
      use_client-unpicked may (probe r p).0 r s (probe r p).1 h ∙ probe-up_at r s p

  module _ (net : Connects env) where
    try_dial-picked :
        (r : ℕ) (p : Pool W) → (try_dial env r p).0 ≡ picked → up_at (try_dial env r p).1 r ≡ true
    unfolding try_dial after_dial ensure mark
    try_dial-picked r p h =
        grind (arith, ensure_connected-up env net (p.clients r) p.world, mark_selected_frame env)

    use_client-picked :
        (may live : Bool) (r : ℕ) (p : Pool W)
        → live ≡ up_at p r
        → (use_client env may live r p).0 ≡ picked
        → up_at (use_client env may live r p).1 r ≡ true
    unfolding use_client
    use_client-picked may true r p e h = mark-up_at r r p ∙ sym e
    use_client-picked true false r p e h = try_dial-picked r p h
    use_client-picked false false r p e h = cc

    -- A picked server is connected afterwards.
    pub visit-picked_up :
        (may fit : Bool) (r : ℕ) (p : Pool W)
        → (visit env may fit r p).0 ≡ picked
        → up_at (visit env may fit r p).1 r ≡ true
    unfolding visit
    visit-picked_up may false r p h = cc
    visit-picked_up may true r p h =
        use_client-picked may (probe r p).0 r (probe r p).1 (probe-up r p ∙ sym (probe-up_at r r p))
          h
