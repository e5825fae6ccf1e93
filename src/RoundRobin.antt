-- ===== src/RoundRobin.antt =====
-- internal/sshroundrobin/roundrobin.go and targetfailure.go: the pool's state and its operations
-- other than selection (RoundRobin/Strategy) and health checks (RoundRobin/Health).
pub mod View
pub mod Strategy
pub mod Health
pub mod Summary
pub mod Valid
pub mod Targets
use ssh_roundrobin.Prelude.{
  ℕ, zero, suc, ◌+◌, ◌-◌, ◌*◌, ◌≡◌, Bool, true, false, ◌&&◌, ◌||◌, Option, none, some, List, [],
  ◌∷◌, ◌++◌, ltb, leb, ◌==◌, if◌then◌else◌, length, erase_idx, ℤ, pos, positive_or,
}
use ssh_roundrobin.Text.{Text, Error, codes, text_eq, is_empty, trim_space, to_lower}
use ssh_roundrobin.Dict
use ssh_roundrobin.Dict.{Dict}
use ssh_roundrobin.Outcome.{Outcome, returns, panics}
use ssh_roundrobin.Env.{Env, second}
use ssh_roundrobin.SshClient.{SshClient, server_addr}
use ssh_roundrobin.SshClient

pub record TargetFailure : Type 0 where
  pub fail_count : ℕ
  pub blocked_until : ℕ
  pub last_error : Text

-- `servers` holds pointers to clients. `active_idx` is only ever 0, an index of `servers`, or one
-- less than a positive index, so the source's test `activeIdx >= 0` always passes.
pub record RoundRobin : Type 0 where
  pub servers : List ℕ
  pub index : ℕ
  pub strategy : Text
  pub max_active : ℕ
  pub active_idx : ℕ
  pub has_active : Bool
  pub target_failures : Dict TargetFailure

-- What the pool's methods see under the lock: the clients by pointer, the pool, the world outside.
pub record Pool (W : Type 0) : Type 0 where
  pub clients : ℕ → SshClient
  pub rr : RoundRobin
  pub open rr use *
  pub world : W

abbrev pub strategy_load_balance : Text
strategy_load_balance = codes "loadbalance"

abbrev pub strategy_failover : Text
strategy_failover = codes "failover"

unfoldable pub normalize_strategy : Text → Text
normalize_strategy strategy =
    let s = to_lower (trim_space strategy) in
    if text_eq s []
    then strategy_failover
    else if text_eq s strategy_load_balance
    then strategy_load_balance
    else if text_eq s strategy_failover
    then strategy_failover
    else strategy_failover

unfoldable pub new_round_robin : Text → ℤ → RoundRobin
unfolding normalize_strategy
new_round_robin strategy max_active = record {
  servers = [];
  index = 0;
  strategy = normalize_strategy strategy;
  max_active = positive_or 1 max_active;
  active_idx = 0;
  has_active = false;
  target_failures = Dict.empty;
}

-- A write through a pointer.
abbrev pub update {ℓ} : {A : Type ℓ} → (ℕ → A) → ℕ → A → ℕ → A
update f r v q = if r == q then v else f q

unfoldable pub target_failure_key : Text → Text → Text
target_failure_key upstream target = upstream ++ (codes "|" ++ target)

abbrev no_failure : TargetFailure
no_failure = record { fail_count = 0; blocked_until = 0; last_error = [] }

abbrev or_zero : Option TargetFailure → TargetFailure
or_zero none = no_failure
or_zero (some s) = s

-- The entries whose block has ended before `now`, or that have no block.
unfoldable pub cleanup_at : ℕ → Dict TargetFailure → Dict TargetFailure
cleanup_at now failures = Dict.delete_where failures λ s. ltb s.blocked_until now

-- The active server after the server at `i` has gone from the list.
after_removal : ℕ → RoundRobin → RoundRobin
after_removal i rr = elim rr.servers [
  | [] ↦ record rr { has_active = false; active_idx = 0 }
  | _ ↦
      if rr.has_active
      then if i == rr.active_idx
        then record rr { has_active = false; active_idx = 0 }
        else if ltb i rr.active_idx
        then record rr { active_idx = rr.active_idx - 1 }
        else rr
      else rr
]

-- The position of the first server that is `r`.
position_from : ℕ → ℕ → List ℕ → Option ℕ
position_from r i [] = none
position_from r i (q ∷ qs) =
    let later = position_from r (i + 1) qs in if q == r then some i else later

module _ {W : Type 0} where
  abbrev pub client_addr : Pool W → ℕ → Text
  client_addr p r = server_addr (p.clients r)

  -- `client.IsConnected()` of the client at `r`.
  unfoldable pub probe : ℕ → Pool W → Bool × Pool W
  probe r p =
      let (up, c) = SshClient.is_connected (p.clients r) in
      (up, record p { clients = update p.clients r c })

  pub count_from : List ℕ → ℕ → Pool W → ℕ × Pool W
  unfolding probe
  count_from [] count p = (count, p)
  count_from (r ∷ rs) count p =
      let (up, p1) = probe r p in count_from rs (if up then count + 1 else count) p1

  unfoldable pub connected_count : Pool W → ℕ × Pool W
  unfolding count_from
  connected_count p = count_from p.servers 0 p

  unfoldable pub add : ℕ → Pool W → Pool W
  add r p = record p { rr = record p.rr { servers = p.servers ++ r ∷ [] } }

  unfoldable pub len : Pool W → ℕ
  len p = length p.servers

  -- A nil client or an empty target is never blocked; an entry that does not block is deleted.
  unfoldable pub is_target_blocked : Option ℕ → Text → ℕ → Pool W → Bool × Pool W
  is_target_blocked none target now p = (false, p)
  is_target_blocked (some r) target now p =
      let key = target_failure_key (client_addr p r) target in
      let dropped = record p {
        rr = record p.rr { target_failures = Dict.delete p.target_failures key };
      } in
      if is_empty target then (false, p) else elim (Dict.get p.target_failures key) [
        | none ↦ (false, p)
        | some s ↦ if ltb now s.blocked_until then (true, p) else (false, dropped)
      ]

  unfoldable pub report_target_success : Option ℕ → Text → Pool W → Pool W
  report_target_success none target p = p
  report_target_success (some r) target p =
      let key = target_failure_key (client_addr p r) target in
      if is_empty target
      then p
      else record p { rr = record p.rr { target_failures = Dict.delete p.target_failures key } }

module _ {W : Type 0} (env : Env W) where
  unfoldable pub cleanup_expired_targets : Pool W → Pool W
  unfolding cleanup_at
  cleanup_expired_targets p =
      let (now, w) = env.now p.world in
      record p {
        rr = record p.rr { target_failures = cleanup_at now p.target_failures };
        world = w;
      }

  -- `state` counted once more; the clock is read only when the threshold is reached.
  count_failure : ℕ → ℕ → Option Error → TargetFailure → W → TargetFailure × W
  count_failure threshold ttl e s w =
      let message : Text = elim e [ none ↦ s.last_error | some m ↦ m ] in
      let counted = record s { fail_count = s.fail_count + 1; last_error = message } in
      let (now, w1) = env.now w in
      if leb threshold (s.fail_count + 1)
      then (record counted { blocked_until = now + ttl }, w1)
      else (counted, w)

  unfoldable pub report_target_failure : Option ℕ → Text → ℤ → ℤ → Option Error → Pool W → Pool W
  unfolding count_failure
  report_target_failure none target threshold ttl e p = p
  report_target_failure (some r) target threshold ttl e p =
      let key = target_failure_key (client_addr p r) target in
      let (s, w) =
        count_failure (positive_or 1 threshold) (positive_or (600 * second) ttl) e
          (or_zero (Dict.get p.target_failures key)) p.world in
      if is_empty target then p else record p {
        rr = record p.rr { target_failures = Dict.put p.target_failures key s };
        world = w;
      }

  unfoldable pub notify_connection_error : Text → Error → Pool W → Pool W
  notify_connection_error upstream e p = elim env.on_connection_error [
    | none ↦ p
    | some callback ↦ record p { world = callback upstream e p.world }
  ]

  unfoldable pub close_client : ℕ → Pool W → Outcome (Option Error) × Pool W
  close_client r p =
      let (o, c, w) = SshClient.close env (p.clients r) p.world in
      (o, record p { clients = update p.clients r c; world = w })

  -- A panic in `Close` leaves the servers as they are.
  unfoldable pub remove : ℕ → Pool W → Outcome {0} Unit × Pool W
  unfolding after_removal position_from close_client
  remove r p = elim (position_from r 0 p.servers) [
    | none ↦ (returns tt, p)
    | some i ↦
        let (o, q) = close_client r p in
        elim o [
          | panics ↦ (panics, q)
          | returns _ ↦ (
            returns tt,
            record q { rr = after_removal i (record q.rr { servers = erase_idx q.servers i }) },
          )
        ]
  ]

  unfoldable pub close_each : List ℕ → Pool W → Outcome {0} Unit × Pool W
  unfolding close_client
  close_each [] p = (returns tt, p)
  close_each (r ∷ rs) p =
      let (o, q) = close_client r p in
      let rest = close_each rs q in elim o [ panics ↦ (panics, q) | returns _ ↦ rest ]

  unfoldable pub close_all : Pool W → Outcome {0} Unit × Pool W
  unfolding close_each
  close_all p =
      let (o, q) = close_each p.servers p in
      elim o [
        | panics ↦ (panics, q)
        | returns _ ↦ (
          returns tt,
          record q { rr = record q.rr { servers = []; has_active = false; active_idx = 0 } },
        )
      ]
