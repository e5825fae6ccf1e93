-- ===== src/Proxy/Forward/Reports.antt =====
-- What a tunnel's end leaves on record.
use ssh_roundrobin.Prelude.{
  ◌↔◌, ◌<◌, ℕ, ◌+◌, ◌*◌, ◌-◌, ◌≤◌, ◌≡◌, Bool, true, false, none, ◌++◌, ltb, ℤ, positive_or,
}
use ssh_roundrobin.Text.{Text, codes}
use ssh_roundrobin.Text.Decimal.{itoa}
use ssh_roundrobin.Env.{Env, second}
use ssh_roundrobin.RoundRobin.{Pool}
use ssh_roundrobin.RoundRobin.View.{blocked, failure_of}
use ssh_roundrobin.RoundRobin.Targets.{failures_of}
use ssh_roundrobin.Proxy.{Shared}
use ssh_roundrobin.Proxy.Tunnel.{Copier, tunnel_bidirectional}

-- After the verdict on the pair of `r` and the target: a short tunnel counts one failure more, and at
-- the threshold the pair is blocked for the time to live from the clock `now` on; any other tunnel
-- leaves no failure.
pub record Judged {W : Type 0} (target : Text) (threshold ttl : ℤ) (now r : ℕ) (short : Bool)
    (p q : Pool W) : Type 0 where
  pub counted : short ≡ true → failures_of q target r ≡ failures_of p target r + 1
  pub blocks :
      short ≡ true
      → (t : ℕ) → positive_or 1 threshold ≤ failures_of p target r + 1
      → blocked q target t r ≡ ltb t (now + positive_or (600 * second) ttl)
  pub forgotten : short ≡ false → failure_of q target r ≡ none

module _ {W : Type 0} (env : Env W) (target : Text) (threshold ttl : ℤ) where
  -- The tunnel through `r` started in `s`, other goroutines acted until `m`, and the verdict on the
  -- elapsed time and the bytes was passed at the clock of `m`.
  pub record Tunnelled (copier : Copier W) (others : Shared W → Shared W) (conn r : ℕ)
      (short : Bool) (s q : Shared W) : Type 0 where
    pub middle : Shared W
    pub verdict :
        let start = env.now s.pool.world in
        let copied = tunnel_bidirectional copier conn start.1 in
        (short ≡ true) ↔ (
          ((env.now middle.pool.world).0 - start.0 ≤ 2_000_000_000)
          × (copied.0.0 ≡ 0)
          × (0 < copied.0.1))
    pub acted :
        let copied = tunnel_bidirectional copier conn (env.now s.pool.world).1 in
        middle ≡ others (record s { pool = record s.pool { world = copied.1 } })
    pub judged :
        Judged target threshold ttl
          (env.now (env.now middle.pool.world).1).0
          r
          short
          middle.pool
          q.pool

-- The target of a forwarded connection.
abbrev pub forward_target : Text → ℤ → Text
forward_target host port = host ++ (codes ":" ++ itoa port)
