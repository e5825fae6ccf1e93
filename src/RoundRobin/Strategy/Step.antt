-- ===== src/RoundRobin/Strategy/Step.antt =====
-- One round of a selection loop, `try_client`.
use ssh_roundrobin.Prelude.{ℕ, ◌≡◌, refl, Bool, true, false, Option, none, some, List, arith}
use ssh_roundrobin.Text.{Text, Error}
use ssh_roundrobin.Outcome.{Outcome, returns, panics}
use ssh_roundrobin.Env.{Env}
use ssh_roundrobin.SshClient.Laws.{
  is_connected-up, is_connected_frame, mark_selected_frame, ensure_connected_frame,
}
use ssh_roundrobin.RoundRobin.{Pool, probe, is_target_blocked, notify_connection_error}
use ssh_roundrobin.RoundRobin.View.{Frame, up_at, Frame-refl, Frame-trans}
use ssh_roundrobin.RoundRobin.Strategy.{
  eligible, mark, ensure, after_dial, try_dial, use_client, visit, try_client,
}

module _ {W : Type 0} where
  pub probe-Frame : (r : ℕ) (p : Pool W) → Frame p (probe r p).1
  unfolding probe
  probe-Frame r p = record {
    servers = refl;
    strategy = refl;
    max_active = refl;
    server_of = λ s. ground (arith, is_connected_frame (p.clients r));
    stays_up = λ s h. ground (arith, is_connected_frame (p.clients r));
  }

  pub eligible-Frame :
      (exclude : List Text) (target : Text) (now r : ℕ) (p : Pool W)
      → Frame p (eligible exclude target now r p).1
  unfolding eligible is_target_blocked
  eligible-Frame exclude target now r p = record {
    servers = ground arith;
    strategy = ground arith;
    max_active = ground arith;
    server_of = λ s. ground arith;
    stays_up = λ s h. ground arith;
  }

  pub probe-up : (r : ℕ) (p : Pool W) → (probe r p).0 ≡ up_at p r
  unfolding probe
  probe-up r p = is_connected-up (p.clients r)

  pub probe-up_at : (r s : ℕ) (p : Pool W) → up_at (probe r p).1 s ≡ up_at p s
  unfolding probe
  probe-up_at r s p = ground (arith, is_connected_frame (p.clients r))

module _ {W : Type 0} (env : Env W) where
  mark-Frame : (r : ℕ) (p : Pool W) → Frame p (mark env r p)
  unfolding mark
  mark-Frame r p = record {
    servers = refl;
    strategy = refl;
    max_active = refl;
    server_of = λ s. ground (arith, mark_selected_frame env (p.clients r) p.world);
    stays_up = λ s h. ground (arith, mark_selected_frame env (p.clients r) p.world);
  }

  ensure-Frame : (r : ℕ) (p : Pool W) → Frame p (ensure env r p).1
  unfolding ensure
  ensure-Frame r p = record {
    servers = refl;
    strategy = refl;
    max_active = refl;
    server_of = λ s. ground (arith, ensure_connected_frame env (p.clients r) p.world);
    stays_up = λ s h. ground (arith, ensure_connected_frame env (p.clients r) p.world);
  }

  notify-Frame : (a : Text) (e : Error) (p : Pool W) → Frame p (notify_connection_error env a e p)
  unfolding notify_connection_error
  notify-Frame a e p = record {
    servers = ground arith;
    strategy = ground arith;
    max_active = ground arith;
    server_of = λ s. ground arith;
    stays_up = λ s h. ground arith;
  }

  after_dial-Frame :
      (r : ℕ) (o : Outcome (Option Error)) (p : Pool W) → Frame p (after_dial env r o p).1
  unfolding after_dial
  after_dial-Frame r panics p = Frame-refl p
  after_dial-Frame r (returns none) p = mark-Frame r p
  after_dial-Frame r (returns (some e)) p = notify-Frame _ e p

  try_dial-Frame : (r : ℕ) (p : Pool W) → Frame p (try_dial env r p).1
  unfolding try_dial
  try_dial-Frame r p = Frame-trans (ensure-Frame r p) (after_dial-Frame r _ _)

  use_client-Frame :
      (may live : Bool) (r : ℕ) (p : Pool W) → Frame p (use_client env may live r p).1
  unfolding use_client
  use_client-Frame may true r p = mark-Frame r p
  use_client-Frame true false r p = try_dial-Frame r p
  use_client-Frame false false r p = Frame-refl p

  pub visit-Frame : (may fit : Bool) (r : ℕ) (p : Pool W) → Frame p (visit env may fit r p).1
  unfolding visit
  visit-Frame may false r p = Frame-refl p
  visit-Frame may true r p = Frame-trans (probe-Frame r p) (use_client-Frame may _ r _)

  -- One round keeps the servers, their addresses, the settings, and every connection that was up.
  pub try_client-Frame :
      (may : Bool) (exclude : List Text) (target : Text) (now r : ℕ) (p : Pool W)
      → Frame p (try_client env may exclude target now r p).1
  unfolding try_client
  try_client-Frame may exclude target now r p =
      Frame-trans (eligible-Frame exclude target now r p) (visit-Frame may _ r _)
