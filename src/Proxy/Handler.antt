-- ===== src/Proxy/Handler.antt =====
-- `HandleSocks5Connection` of internal/proxy/socks5.go. The client's connection is followed up to the
-- start of the tunnel, which is `forward`; it is closed at the end.
pub mod Served
pub mod Says
pub mod Answers
use ssh_roundrobin.Prelude.{ℕ, Option, none, some, List, [], ◌∷◌, ◌==◌, if◌then◌else◌, get_or, ℤ}
use ssh_roundrobin.Text.{Text, codes}
use ssh_roundrobin.Outcome.{Result, ok, err, returns, panics}
use ssh_roundrobin.Env.{Env}
use ssh_roundrobin.Proxy.{Shared}
use ssh_roundrobin.Proxy.Tunnel.{Copier}
use ssh_roundrobin.Proxy.Dial.{dial_target_with_retries}
use ssh_roundrobin.Proxy.Forward.{Ended, crashed, refused, forwarded, forward}
use ssh_roundrobin.Proxy.Socks5.{
  ClientConn, write, write_socks5_reply, then_read, read_socks5_target,
}

abbrev pub socks_reply_succeeded : ℕ
socks_reply_succeeded = 0

abbrev pub socks_reply_general : ℕ
socks_reply_general = 1

-- The method selection, no authentication. An error only says that the handler returns.
unfoldable pub select_method : List ℕ → ClientConn → Result Text × ClientConn
select_method methods c =
    let (e, c1) = write (5 ∷ 0 ∷ []) c in elim e [ none ↦ (ok [], c1) | some x ↦ (err x, c1) ]

unfoldable pub after_hello : List ℕ → ClientConn → Result Text × ClientConn
after_hello hello c =
    let count = get_or hello 1 0 in
    if get_or hello 0 0 == 5
    then if count == 0
      then (err (codes "SOCKS5 method count is zero"), c)
      else then_read count (codes "SOCKS5 methods read failed: ") select_method c
    else (err (codes "Unsupported SOCKS version"), c)

-- The handshake, from the version to the method selection.
unfoldable pub negotiate : ClientConn → Result Text × ClientConn
negotiate = then_read 2 (codes "SOCKS5 handshake read failed: ") after_hello

module _ {W : Type 0} (env : Env W) (copier : Copier W) (others : Shared W → Shared W)
    (retry_upstreams threshold ttl : ℤ) where
  -- The dial, the reply to the client and the tunnel.
  unfoldable pub serve : Text → ClientConn → Shared W → (Option Ended × ClientConn) × Shared W
  serve target c s =
      let d = dial_target_with_retries env others target retry_upstreams threshold ttl s in
      elim d.result [
        | panics ↦ ((some crashed, c), d.shared)
        | returns x ↦ elim x [
          | err e ↦ ((some (refused e), write_socks5_reply socks_reply_general c), d.shared)
          | ok (conn, r) ↦
              let (end, q) =
                forward env target threshold ttl copier others conn r (others d.shared) in
              ((some end, write_socks5_reply socks_reply_succeeded c), q)
        ]
      ]

  -- The rest of the handler after the request and after the handshake; `none` where no target was
  -- dialled.
  abbrev pub after_request :
      Result Text × ClientConn → Shared W → (Option Ended × ClientConn) × Shared W
  after_request (err e, c) s = ((none, c), s)
  after_request (ok target, c) s = serve target c s

  abbrev pub after_negotiate :
      Result Text × ClientConn → Shared W → (Option Ended × ClientConn) × Shared W
  after_negotiate (err e, c) s = ((none, c), s)
  after_negotiate (ok unused, c) s = after_request (read_socks5_target env c) s

  unfoldable pub handle_socks5_connection :
      ClientConn → Shared W → (Option Ended × ClientConn) × Shared W
  handle_socks5_connection c s = after_negotiate (negotiate c) s
