-- ===== src/Proxy/Forward.antt =====
-- internal/proxy/forward.go with IsLikelyTargetBlocked of tunnel.go: what the end of a tunnel says of
-- the upstream. `others` is
-- what other goroutines do while the tunnel runs.
pub mod Reports
use ssh_roundrobin.Prelude.{
  ℕ, ◌-◌, ◌*◌, Bool, true, false, ◌&&◌, Option, none, some, ◌++◌, ltb, ◌==◌, if◌then◌else◌, ℤ,
}
use ssh_roundrobin.Text.{Text, Error, codes}
use ssh_roundrobin.Text.Decimal.{itoa}
use ssh_roundrobin.Outcome.{ok, err, returns, panics}
use ssh_roundrobin.Env.{Env, second}
use ssh_roundrobin.RoundRobin.{Pool, report_target_failure, report_target_success}
use ssh_roundrobin.Proxy.{Shared}
use ssh_roundrobin.Proxy.Tunnel.{Copier, tunnel_bidirectional}
use ssh_roundrobin.Proxy.Dial.{dial_target_with_retries}

-- `elapsed` is `time.Since(start)`.
unfoldable pub is_likely_target_blocked : ℕ → ℕ → ℕ → Bool
is_likely_target_blocked elapsed upstream_to_client client_to_upstream =
    if ltb (2 * second) elapsed
    then false
    else if client_to_upstream == 0
    then false
    else upstream_to_client == 0

-- How a connection was served: the dial failed, or the tunnel ran through the client `r`, and was
-- reported as a failure or a success.
pub data Ended : Type 0 where
  crashed : Ended
  refused : Error → Ended
  forwarded : ℕ → Bool → Ended

module _ {W : Type 0} (env : Env W) (target : Text) (threshold ttl : ℤ) where
  -- The end of both handlers: the tunnel over the connection `conn`, and the report.
  unfoldable pub judge : ℕ → Bool → Shared W → Shared W
  judge r short s =
      if short
      then record s {
        pool =
            report_target_failure env (some r) target threshold ttl
              (some (codes "tunnel ended too quickly without upstream response")) s.pool;
      }
      else record s { pool = report_target_success (some r) target s.pool }

  unfoldable pub forward : Copier W → (Shared W → Shared W) → ℕ → ℕ → Shared W → Ended × Shared W
  forward copier others conn r s =
      let (start, w1) = env.now s.pool.world in
      let (copied, w2) = tunnel_bidirectional copier conn w1 in
      let s1 = others (record s { pool = record s.pool { world = w2 } }) in
      let (end, w3) = env.now s1.pool.world in
      let short = is_likely_target_blocked (end - start) copied.0 copied.1 in
      let s2 = judge r short (record s1 { pool = record s1.pool { world = w3 } }) in
      (
        forwarded r short,
        record s2 { pool = record s2.pool { world = copier.close_target conn s2.pool.world } },
      )

-- `HandleConnection`; the client's connection is closed at the end.
unfoldable pub handle_connection :
    {W : Type 0}
    → Env W
    → Copier W
    → (Shared W → Shared W)
    → Text
    → ℤ
    → ℤ
    → ℤ
    → ℤ
    → Shared W
    → Ended × Shared W
handle_connection env copier others host port retry_upstreams threshold ttl s =
    let target = host ++ (codes ":" ++ itoa port) in
    let d = dial_target_with_retries env others target retry_upstreams threshold ttl s in
    elim d.result [
      | panics ↦ (crashed, d.shared)
      | returns x ↦ elim x [
        | err e ↦ (refused e, d.shared)
        | ok (conn, r) ↦ forward env target threshold ttl copier others conn r (others d.shared)
      ]
    ]
