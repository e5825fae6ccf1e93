-- ===== src/Proxy/Socks5.antt =====
-- internal/proxy/socks5.go: the request of a SOCKS5 client, read from its connection.
pub mod Request
pub mod Accepted
use ssh_roundrobin.Prelude.{
  ℕ, ◌+◌, ◌*◌, Bool, true, false, Option, none, some, List, [], ◌∷◌, ◌++◌, take, drop, length,
  get_or, if◌then◌else◌, ◌==◌, pos,
}
use ssh_roundrobin.Text.{Text, Error, codes, text_eq}
use ssh_roundrobin.Text.Decimal.{itoa}
use ssh_roundrobin.Outcome.{Result, ok, err}
use ssh_roundrobin.Env.{Env}

-- A client's connection: the bytes still to come and the error that a read gives after them, the
-- bytes written, and the error that every write gives, if one does.
pub record ClientConn : Type 0 where
  pub input : List ℕ
  pub end : Error
  pub output : List ℕ
  pub fault : Option Error

abbrev pub eof : Error
eof = codes "EOF"

-- `io.ReadFull(conn, buf)` with a buffer of `n` bytes.
unfoldable pub read_full : ℕ → ClientConn → Result (List ℕ) × ClientConn
read_full n c =
    let got = take n c.input in
    let short =
      if length got == 0
      then c.end
      else if text_eq c.end eof
      then codes "unexpected EOF"
      else c.end in
    if length got == n
    then (ok got, record c { input = drop n c.input })
    else (err short, record c { input = [] })

unfoldable pub write : List ℕ → ClientConn → Option Error × ClientConn
write bytes c = elim c.fault [
  | none ↦ (none, record c { output = c.output ++ bytes })
  | some e ↦ (some e, c)
]

abbrev pub socks_reply_cmd_unsup : ℕ
socks_reply_cmd_unsup = 7

abbrev pub socks_reply_addr_unsup : ℕ
socks_reply_addr_unsup = 8

abbrev pub reply_bytes : ℕ → List ℕ
reply_bytes reply = 5 ∷ reply ∷ 0 ∷ 1 ∷ 0 ∷ 0 ∷ 0 ∷ 0 ∷ 0 ∷ 0 ∷ []

-- A failed write is only logged.
unfoldable pub write_socks5_reply : ℕ → ClientConn → ClientConn
write_socks5_reply reply c = (write (reply_bytes reply) c).1

-- Go on with the bytes read; the error of a read that fails gets a prefix.
abbrev pub after_read {ℓ} :
    {A : Type ℓ}
    → Text
    → (List ℕ → ClientConn → Result A × ClientConn)
    → Result (List ℕ) × ClientConn
    → Result A × ClientConn
after_read what next (ok bytes, c) = next bytes c
after_read what next (err e, c) = (err (what ++ e), c)

abbrev pub then_read {ℓ} :
    {A : Type ℓ}
    → ℕ
    → Text
    → (List ℕ → ClientConn → Result A × ClientConn)
    → ClientConn
    → Result A × ClientConn
then_read n what next c = after_read what next (read_full n c)

unfoldable pub read_port : Text → ClientConn → Result Text × ClientConn
read_port host =
    then_read 2 (codes "failed to read destination port: ") λ port c.
      (ok (host ++ (codes ":" ++ itoa (pos (get_or port 0 0 * 256 + get_or port 1 0)))), c)

module _ {W : Type 0} (env : Env W) where
  -- The switch on the address type, and the port after it.
  unfoldable pub read_address : ℕ → ClientConn → Result Text × ClientConn
  read_address atyp c =
      if atyp == 1
      then then_read 4 (codes "failed to read ipv4 address: ")
          (λ addr. read_port (env.ip_string addr)) c
      else if atyp == 3
      then then_read 1 (codes "failed to read domain length: ")
          (λ len_buf.
            then_read (get_or len_buf 0 0) (codes "failed to read domain: ")
              (λ domain. read_port (env.text_of_bytes domain)))
          c
      else if atyp == 4
      then then_read 16 (codes "failed to read ipv6 address: ")
          (λ addr. read_port (env.ip_string addr)) c
      else (
        err (codes "unsupported address type: " ++ itoa (pos atyp)),
        write_socks5_reply socks_reply_addr_unsup c,
      )

  unfoldable pub after_header : List ℕ → ClientConn → Result Text × ClientConn
  after_header header c =
      let version = get_or header 0 0 in
      let cmd = get_or header 1 0 in
      if version == 5
      then if cmd == 1 then read_address (get_or header 3 0) c else (
        err (codes "unsupported socks command: " ++ itoa (pos cmd)),
        write_socks5_reply socks_reply_cmd_unsup c,
      )
      else (err (codes "unsupported socks version: " ++ itoa (pos version)), c)

  unfoldable pub read_socks5_target : ClientConn → Result Text × ClientConn
  read_socks5_target = then_read 4 (codes "failed to read socks5 request header: ") after_header
