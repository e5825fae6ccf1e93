-- ===== src/Tests/Handler.antt =====
-- SOCKS5 connections in the sample world, from the hello to the end of the tunnel.
use ssh_roundrobin.Prelude.{◌≡◌, refl, none, some, [], ◌∷◌, ◌++◌, arith, pos}
use ssh_roundrobin.Proxy.Forward.{handle_connection}
use ssh_roundrobin.Proxy.Socks5.{ClientConn, eof}
use ssh_roundrobin.Proxy.Socks5.Request.{name, host_text}
use ssh_roundrobin.Proxy.Handler.{handle_socks5_connection}
use ssh_roundrobin.Proxy.Handler.Served.{answer, told, handle_socks5_connection-handle_connection}
use ssh_roundrobin.Proxy.Handler.Answers.{Told, handle_socks5_connection-Told}
use ssh_roundrobin.Tests.Sample.{sample_env}
use ssh_roundrobin.Tests.App.{copier, shared}

-- One method, a request for the host "ab" and the port 80, and a byte of the tunnel.
abbrev caller : ClientConn
caller = record {
  input = 5 ∷ 1 ∷ 0 ∷ 5 ∷ 1 ∷ 0 ∷ 3 ∷ 2 ∷ 97 ∷ 98 ∷ 0 ∷ 80 ∷ 7 ∷ [];
  end = eof;
  output = [];
  fault = none;
}

handle_socks5_connection-handle_connection_example :
    let (end, q) =
      handle_connection sample_env copier
        (λ s. s)
        (host_text sample_env (name (97 ∷ 98 ∷ [])))
        (pos 80)
        (pos 0)
        (pos 1)
        (pos 60)
        shared in
    handle_socks5_connection sample_env copier (λ s. s) (pos 0) (pos 1) (pos 60) caller shared
    ≡ ((some end, told ((5 ∷ 0 ∷ []) ++ answer end) (7 ∷ []) caller), q)
handle_socks5_connection-handle_connection_example =
    handle_socks5_connection-handle_connection sample_env copier (λ s. s) (pos 0) (pos 1) (pos 60)
      (0 ∷ []) (7 ∷ []) 0 (name (97 ∷ 98 ∷ [])) 80 caller shared (omega arith) (omega arith) refl
      refl

handle_socks5_connection-Told_example :
    Told sample_env copier
      (λ s. s)
      (pos 0)
      (pos 1)
      (pos 60)
      caller
      shared
      (handle_socks5_connection sample_env copier (λ s. s) (pos 0) (pos 1) (pos 60) caller shared)
handle_socks5_connection-Told_example =
    handle_socks5_connection-Told sample_env copier (λ s. s) (pos 0) (pos 1) (pos 60) caller shared
      refl
