-- ===== src/SshClient/Laws.antt =====
-- What the connection's methods guarantee: which fields they leave, and when a client is connected.
use ssh_roundrobin.Prelude.{
  ℕ, ◌≡◌, refl, Bool, true, false, Option, none, some, arith, inl, inr, Option-cases, ◌++◌,
}
use ssh_roundrobin.Text.{Text, Error, codes}
use ssh_roundrobin.Outcome.{ok, err, returns, panics}
use ssh_roundrobin.Env.{Env, ClientConfig, SshConnection}
use ssh_roundrobin.SshServer.{SshServer}
use ssh_roundrobin.CommandConn
use ssh_roundrobin.SshClient.{
  SshClient, is_connected, connect, mark_selected, ensure_connected, close, dial, server_addr,
}

-- `c.client != nil && c.client.Conn != nil`.
abbrev pub live : SshConnection → Bool
live k = elim k.conn [ none ↦ false | some _ ↦ true ]

abbrev pub live? : Option SshConnection → Bool
live? none = false
live? (some k) = live k

-- A client that holds a connection holds its transport.
abbrev pub whole? : Option SshConnection → Bool
whole? none = true
whole? (some k) = live k

abbrev pub up : SshClient → Bool
up c = live? c.client

pub is_connected-up : (c : SshClient) → (is_connected c).0 ≡ up c
unfolding is_connected
is_connected-up c = ground arith

-- What crypto/ssh documents: a connection that it returns without an error has its transport.
pub record Connects {W : Type 0} (env : Env W) : Type 0 where
  pub dial_live :
      (a : Text) (cfg : ClientConfig) (w : W) (k : SshConnection)
      → (env.dial_ssh a cfg w).0 ≡ ok k
      → live k ≡ true
  pub handshake_live :
      (n : ℕ) (a : Text) (cfg : ClientConfig) (w : W) (k : SshConnection)
      → (env.new_client_conn n a cfg w).0 ≡ ok k
      → live k ≡ true

module _ {W : Type 0} (env : Env W) (net : Connects env) where
  dial_via_proxy_command-live :
      (s : SshServer) (cfg : ClientConfig) (w : W) (k : SshConnection)
      → (CommandConn.dial_via_proxy_command env s cfg w).0 ≡ ok k
      → live k ≡ true
  unfolding CommandConn.dial_via_proxy_command
  dial_via_proxy_command-live s cfg w k h = grind (arith, net.handshake_live)

  connect-live :
      (s : SshServer) (w : W) (k : SshConnection) → (connect env s w).0 ≡ ok k → live k ≡ true
  unfolding connect
  connect-live s w k h = grind (arith, net.dial_live, dial_via_proxy_command-live)

  -- After `EnsureConnected` returns nil the client is connected; after any other outcome it is not.
  pub ensure_connected-up :
      (c : SshClient) (w : W)
      → (ensure_connected env c w).0 ≡ returns none
      → up (ensure_connected env c w).1 ≡ true
  unfolding ensure_connected
  ensure_connected-up c w h = grind (arith, connect-live)

module _ {W : Type 0} (env : Env W) where
  pub ensure_connected-whole :
      (net : Connects env) (c : SshClient) (w : W)
      → whole? c.client ≡ true
      → whole? (ensure_connected env c w).1.client ≡ true
  unfolding ensure_connected
  ensure_connected-whole net c w h = grind (arith, connect-live env net)

  live-transport : (k : SshConnection) → live k ≡ true → (n : ℕ) × (k.conn ≡ some n)
  live-transport k h = elim (Option-cases k.conn) [
    | inl e ↦ absurd (ground (arith, h, e))
    | inr (n, e) ↦ (n, e)
  ]

  dial-live :
      (c : SshClient) (target : Text) (w : W)
      → up c ≡ true
      → (n : ℕ) × (dial env c target w
          ≡ (returns (env.dial_target n target w).0, (env.dial_target n target w).1))
  unfolding dial
  dial-live c target w h = elim (Option-cases c.client) [
    | inl e ↦ absurd (ground (arith, h, e))
    | inr (k, e) ↦ let (n, t) = live-transport k (ground (arith, h, e)) in (n, rw (e, t) refl)
  ]

  -- What `EnsureConnected` connected, `Dial` dials through.
  dial-ensure_connected :
      (net : Connects env) (c : SshClient) (target : Text) (w : W)
      → (ensure_connected env c w).0 ≡ returns none
      → let (_, c1, w1) = ensure_connected env c w in
        (n : ℕ) × (dial env c1 target w1
          ≡ (returns (env.dial_target n target w1).0, (env.dial_target n target w1).1))
  dial-ensure_connected net c target w h =
      let (_, c1, w1) = ensure_connected env c w in
      dial-live c1 target w1 (ensure_connected-up env net c w h)

  -- A client that `Close` closed without a panic dials nothing.
  dial-close :
      (c : SshClient) (target : Text) (w : W)
      → whole? c.client ≡ true
      → let (_, c1, w1) = close env c w in
        dial env c1 target w1
        ≡ (returns (err (codes "ssh client not connected to " ++ server_addr c)), w1)
  unfolding dial close server_addr
  dial-close c target w h = elim (Option-cases c.client) [
    | inl e ↦ rw (e) refl
    | inr (k, e) ↦ let (n, t) = live-transport k (ground (arith, h, e)) in rw (e, t) refl
  ]

module _ {W : Type 0} (env : Env W) where
  pub ensure_connected_frame :
      (c : SshClient) (w : W)
      → ((ensure_connected env c w).1.server ≡ c.server)
        × (up c ≡ true → up (ensure_connected env c w).1 ≡ true)
  unfolding ensure_connected
  ensure_connected_frame c w = ground arith

  -- With a server to dial and no nil transport to close there is no panic.
  pub ensure_connected-ne-panics :
      (c : SshClient) (s : SshServer) (w : W)
      → c.server ≡ some s
      → whole? c.client ≡ true
      → (ensure_connected env c w).0 ≡ panics
      → ⊥
  unfolding ensure_connected
  ensure_connected-ne-panics c s w h k = ground arith

  pub mark_selected_frame :
      (c : SshClient) (w : W)
      → ((mark_selected env c w).1.server ≡ c.server)
        × ((mark_selected env c w).1.client ≡ c.client)
  unfolding mark_selected
  mark_selected_frame c w = (refl, refl)

  pub ensure_connected-down :
      (c : SshClient) (w : W) (e : Error)
      → (ensure_connected env c w).0 ≡ returns (some e)
      → (up c ≡ false) × (up (ensure_connected env c w).1 ≡ false)
  unfolding ensure_connected
  ensure_connected-down c w e h = ground arith

  pub ensure_connected-panics :
      (c : SshClient) (w : W)
      → (ensure_connected env c w).0 ≡ panics
      → (up c ≡ false) × (up (ensure_connected env c w).1 ≡ false)
  unfolding ensure_connected
  ensure_connected-panics c w h = ground arith

pub is_connected_frame :
    (c : SshClient)
    → ((is_connected c).1.server ≡ c.server) × ((is_connected c).1.client ≡ c.client)
unfolding is_connected
is_connected_frame c = ground arith
