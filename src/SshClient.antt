-- ===== src/SshClient.antt =====
-- internal/sshroundrobin/sshclient.go and lifecycle.go: one upstream connection. A method takes the
-- client's fields and the world and returns both; the mutex makes each method's state change one
-- step, and the callers that change a connection all hold the pool's lock.
pub mod Laws
use ssh_roundrobin.Prelude.{
  ℕ, ◌+◌, ◌%◌, ◌^◌, Option, none, some, List, [], ◌∷◌, ◌++◌, Bool, true, false, if◌then◌else◌, ℤ,
  pos,
}
use ssh_roundrobin.Text.{Text, Error, codes}
use ssh_roundrobin.Outcome.{Result, ok, err, Outcome, returns, panics}
use ssh_roundrobin.Env.{Env, ClientConfig, SshConnection, unix}
use ssh_roundrobin.SshServer.{SshServer, AuthMethod, auth_proxy_command, auth_string, addr, config}
use ssh_roundrobin.CommandConn.{dial_via_proxy_command}

-- `server` and `client` are pointers: `none` is nil.
pub record SshClient : Type 0 where
  pub server : Option SshServer
  pub client : Option SshConnection
  pub healthy : Bool
  pub last_err : Text
  pub selected_count : ℕ
  pub reconnect_count : ℕ
  pub healthcheck_count : ℕ
  pub last_selected_at : ℤ
  pub last_checked_at : ℤ

unfoldable pub new_client_lazy : SshServer → SshClient
new_client_lazy server = record {
  server = some server;
  client = none;
  healthy = false;
  last_err = codes "lazy: not connected yet";
  selected_count = 0;
  reconnect_count = 0;
  healthcheck_count = 0;
  last_selected_at = pos 0;
  last_checked_at = pos 0;
}

-- `atomic.AddUint64(&n, 1)`.
unfoldable pub bump : ℕ → ℕ
bump n = (n + 1) % 2 ^ 64

unfoldable pub server_addr : SshClient → Text
server_addr c = elim c.server [ none ↦ codes "unknown" | some s ↦ addr s ]

unfoldable pub server_mode : SshClient → Text
server_mode c = elim c.server [ none ↦ codes "unknown" | some s ↦ auth_string s.auth_method ]

-- A nil client is marked unhealthy on the way.
unfoldable pub is_connected : SshClient → Bool × SshClient
is_connected c = elim c.client [
  | none ↦ (false, record c { healthy = false })
  | some k ↦ (elim k.conn [ none ↦ false | some _ ↦ true ], c)
]

module _ {W : Type 0} (env : Env W) where
  -- For a proxy command, a direct connection is the fallback.
  unfoldable pub dial_server : SshServer → ClientConfig → W → Result SshConnection × W
  dial_server s cfg w = elim s.auth_method [
    | auth_proxy_command ↦
        let (first, w1) = dial_via_proxy_command env s cfg w in
        elim first [
          | ok client ↦ (ok client, w1)
          | err e ↦
              let (second, w2) = env.dial_ssh (addr s) cfg w1 in
              (
                elim second [
                  | ok client ↦ ok client
                  | err e' ↦ err (
                      codes "proxy command failed: "
                      ++ (e ++ (codes "; direct fallback failed: " ++ e')))
                ],
                w2,
              )
        ]
    | _ ↦ env.dial_ssh (addr s) cfg w
  ]

  unfoldable pub connect : SshServer → W → Result SshConnection × W
  unfolding dial_server
  connect s w =
      let (cfg, w1) = config env s w in elim cfg [ err e ↦ (err e, w1) | ok c ↦ dial_server s c w1 ]

  unfoldable pub new_client : SshServer → W → Result SshClient × W
  unfolding new_client_lazy
  new_client s w =
      let (r, w1) = connect s w in
      (
        elim r [
          | err e ↦ err e
          | ok k ↦
              ok (record (new_client_lazy s) { client = some k; healthy = true; last_err = [] })
        ],
        w1,
      )

  unfoldable pub mark_selected : SshClient → W → ℕ × SshClient × W
  unfolding bump
  mark_selected c w =
      let (t, w1) = env.now w in
      (
        bump c.selected_count,
        record c { last_selected_at = unix t; selected_count = bump c.selected_count },
        w1,
      )

  -- `Close` of an `ssh.Client` is that of its transport, which panics when it is nil.
  unfoldable pub close_connection : SshConnection → W → Outcome (Option Error) × W
  close_connection k w = elim k.conn [
    | none ↦ (panics, w)
    | some _ ↦ let (e, w1) = env.close_ssh k w in (returns e, w1)
  ]

  unfoldable pub close : SshClient → W → Outcome (Option Error) × SshClient × W
  unfolding close_connection
  close c w = elim c.client [
    | none ↦ (returns none, record c { healthy = false }, w)
    | some k ↦
        let (o, w1) = close_connection k w in
        elim o [
          | panics ↦ (panics, record c { healthy = false }, w1)
          | returns e ↦ (returns e, record c { healthy = false; client = none }, w1)
        ]
  ]

  -- A connection without a transport panics.
  unfoldable pub dial : SshClient → Text → W → Outcome (Result ℕ) × W
  dial c target w = elim c.client [
    | none ↦ (returns (err (codes "ssh client not connected to " ++ server_addr c)), w)
    | some k ↦ elim k.conn [
      | none ↦ (panics, w)
      | some n ↦ let (r, w1) = env.dial_target n target w in (returns r, w1)
    ]
  ]

  -- What `Reconnect` does once the old connection is gone. A nil server is dereferenced.
  dial_again : SshClient → W → Outcome (Option Error) × SshClient × W
  unfolding bump
  dial_again c w = elim c.server [
    | none ↦ (panics, c, w)
    | some s ↦
        let (r, w1) = connect s w in
        elim r [
          | err e ↦ (returns (some e), record c { last_err = e }, w1)
          | ok k ↦ (
            returns none,
            record c {
              client = some k;
              healthy = true;
              last_err = [];
              reconnect_count = bump c.reconnect_count;
            },
            w1,
          )
        ]
  ]

  unfoldable pub reconnect : SshClient → W → Outcome (Option Error) × SshClient × W
  unfolding dial_again close_connection
  reconnect c w =
      let c1 = record c { client = none; healthy = false } in
      elim c.client [
        | none ↦ dial_again c1 w
        | some k ↦
            let (o, w1) = close_connection k w in
            let again = dial_again c1 w1 in elim o [ panics ↦ (panics, c1, w1) | returns _ ↦ again ]
      ]

  unfoldable pub ensure_connected : SshClient → W → Outcome (Option Error) × SshClient × W
  unfolding is_connected reconnect
  ensure_connected c w =
      let (up, c1) = is_connected c in
      let again = reconnect c1 w in if up then (returns none, c1, w) else again

  -- The keepalive of `HealthCheck` on a live connection `k` with transport `n`.
  keepalive : SshConnection → ℕ → SshClient → W → Option Error × SshClient × W
  keepalive k n c w =
      let (r, w1) = env.send_keepalive n w in
      elim r [
        | none ↦ (none, record c { healthy = true; last_err = [] }, w1)
        | some e ↦ (
          some e,
          record c { healthy = false; last_err = e; client = none },
          (env.close_ssh k w1).1,
        )
      ]

  -- What `HealthCheck` does when there is no transport to ask.
  not_connected : SshClient → W → Option Error × SshClient × W
  not_connected c w =
      let message = codes "ssh client not connected" in
      (some message, record c { healthy = false; last_err = message }, w)

  unfoldable pub health_check : SshClient → W → Option Error × SshClient × W
  unfolding keepalive not_connected bump
  health_check c w =
      let (t, w1) = env.now w in
      let c1 = record c {
        healthcheck_count = bump c.healthcheck_count;
        last_checked_at = unix t;
      } in
      elim c.client [
        | none ↦ not_connected c1 w1
        | some k ↦ elim k.conn [ none ↦ not_connected c1 w1 | some n ↦ keepalive k n c1 w1 ]
      ]
