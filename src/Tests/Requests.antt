-- ===== src/Tests/Requests.antt =====
-- SOCKS5 requests in the sample world.
use ssh_roundrobin.Prelude.{ℕ, ◌≡◌, refl, none, List, [], ◌∷◌, ◌++◌, arith, pos}
use ssh_roundrobin.Text.{codes}
use ssh_roundrobin.Text.Decimal.{itoa}
use ssh_roundrobin.Outcome.{ok}
use ssh_roundrobin.Proxy.Socks5
use ssh_roundrobin.Proxy.Socks5.{ClientConn, read_socks5_target, eof}
use ssh_roundrobin.Proxy.Socks5.Request.{name, host_text, read_socks5_target-encode}
use ssh_roundrobin.Proxy.Socks5.Accepted.{Accepted, read_socks5_target-Accepted}
use ssh_roundrobin.Tests.Sample.{sample_env}

abbrev request : List ℕ → ClientConn
request bytes = record { input = bytes; end = eof; output = []; fault = none }

-- A request for the host "ab" and the port 80, and a byte more.
abbrev asked : ClientConn
asked = request (5 ∷ 1 ∷ 0 ∷ 3 ∷ 2 ∷ 97 ∷ 98 ∷ 0 ∷ 80 ∷ 7 ∷ [])

read_socks5_target-encode_example : read_socks5_target sample_env asked ≡ (
  ok (host_text sample_env (name (97 ∷ 98 ∷ [])) ++ (codes ":" ++ itoa (pos 80))),
  request (7 ∷ []),
)
read_socks5_target-encode_example =
    read_socks5_target-encode sample_env 0 (name (97 ∷ 98 ∷ [])) 80 (7 ∷ []) asked (omega arith)
      refl

read_socks5_target-Accepted_example : Accepted sample_env asked (request (7 ∷ [])) (codes "ab:80")
unfolding itoa read_socks5_target Socks5.read_full Socks5.read_port Socks5.read_address
    Socks5.after_header
read_socks5_target-Accepted_example =
    read_socks5_target-Accepted sample_env asked (request (7 ∷ [])) (codes "ab:80") (omega arith)
      refl

-- A BIND request is refused with the reply 7.
bind_run :
    (read_socks5_target sample_env (request (5 ∷ 2 ∷ 0 ∷ 1 ∷ []))).1.output
    ≡ 5 ∷ 7 ∷ 0 ∷ 1 ∷ 0 ∷ 0 ∷ 0 ∷ 0 ∷ 0 ∷ 0 ∷ []
unfolding read_socks5_target Socks5.read_full Socks5.after_header Socks5.write_socks5_reply
    Socks5.write
bind_run = refl
