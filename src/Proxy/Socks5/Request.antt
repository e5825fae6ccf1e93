-- ===== src/Proxy/Socks5/Request.antt =====
-- Reading a request, against an encoder written from RFC 1928, section 4.
use ssh_roundrobin.Prelude.{
  ℕ, ◌+◌, ◌*◌, ◌/◌, ◌%◌, ◌<◌, ◌≡◌, refl, sym, ◌∙◌, ap, true, List, [], ◌∷◌, ◌++◌, append_assoc,
  take, drop, take-append, drop-append, length, get_or, arith, ◌==◌, pos,
}
use ssh_roundrobin.Text.{Text, codes}
use ssh_roundrobin.Text.Decimal.{itoa}
use ssh_roundrobin.Outcome.{ok}
use ssh_roundrobin.Env.{Env}
use ssh_roundrobin.Proxy.Socks5.{
  ClientConn, read_full, read_port, read_address, after_header, read_socks5_target,
}

-- DST.ADDR: four bytes, a name of at most 255 bytes, or sixteen bytes.
pub data Host : Type 0 where
  ipv4 name ipv6 : List ℕ → Host

abbrev pub Sized : Host → Type 0
Sized (ipv4 b) = length b ≡ 4
Sized (name b) = length b < 256
Sized (ipv6 b) = length b ≡ 16

-- ATYP and DST.ADDR.
abbrev pub address_bytes : Host → List ℕ
address_bytes (ipv4 b) = 1 ∷ b
address_bytes (name b) = 3 ∷ length b ∷ b
address_bytes (ipv6 b) = 4 ∷ b

-- VER, CMD = CONNECT, RSV, ATYP, DST.ADDR, DST.PORT.
abbrev pub encode : ℕ → Host → ℕ → List ℕ
encode rsv h port = 5 ∷ 1 ∷ rsv ∷ (address_bytes h ++ (port / 256) ∷ (port % 256) ∷ [])

abbrev pub host_text : {W : Type 0} → Env W → Host → Text
host_text env (ipv4 b) = env.ip_string b
host_text env (name b) = env.text_of_bytes b
host_text env (ipv6 b) = env.ip_string b

pub read_full-append :
    (n : ℕ) (a b : List ℕ) (c : ClientConn)
    → c.input ≡ a ++ b
    → length a ≡ n
    → read_full n c ≡ (ok a, record c { input = b })
unfolding read_full
read_full-append n a b c h l = rw (taken, dropped, same) refl
  where
    taken : take n c.input ≡ a
    taken = ap (λ k. take k c.input) (sym l) ∙ ap (take (length a)) h ∙ take-append a b

    dropped : drop n c.input ≡ b
    dropped = ap (λ k. drop k c.input) (sym l) ∙ ap (drop (length a)) h ∙ drop-append a b

    same : (length a == n) ≡ true
    same = ground (arith, l)

module _ {W : Type 0} (env : Env W) where
  read_port-encode :
      (host : Text) (port : ℕ) (rest : List ℕ) (c : ClientConn)
      → c.input ≡ (port / 256) ∷ (port % 256) ∷ rest
      → read_port host c ≡ (ok (host ++ (codes ":" ++ itoa (pos port))), record c { input = rest })
  unfolding read_port
  read_port-encode host port rest c h =
      rw (read_full-append 2 ((port / 256) ∷ (port % 256) ∷ []) rest c h refl, joined) refl
    where
      joined : port / 256 * 256 + port % 256 ≡ port
      joined = omega arith

  read_address-encode :
      (h : Host) (port : ℕ) (rest : List ℕ) (c : ClientConn)
      → Sized h
      → c.input ≡ drop 1 (address_bytes h) ++ (port / 256) ∷ (port % 256) ∷ rest
      → read_address env (get_or (address_bytes h) 0 0) c
        ≡ (ok (host_text env h ++ (codes ":" ++ itoa (pos port))), record c { input = rest })
  unfolding read_address
  read_address-encode (ipv4 b) port rest c l h =
      rw (read_full-append 4 b _ c h l) (read_port-encode (env.ip_string b) port rest _ refl)
  read_address-encode (name b) port rest c l h =
      rw
        (
          read_full-append 1 (length b ∷ []) _ c h refl,
          read_full-append (length b) b ((port / 256) ∷ (port % 256) ∷ rest)
              (record c { input = b ++ (port / 256) ∷ (port % 256) ∷ rest }) refl refl,
        )
        (read_port-encode (env.text_of_bytes b) port rest _ refl)
  read_address-encode (ipv6 b) port rest c l h =
      rw (read_full-append 16 b _ c h l) (read_port-encode (env.ip_string b) port rest _ refl)

  header :
      (rsv : ℕ) (h : Host) (port : ℕ) (rest : List ℕ)
      → encode rsv h port ++ rest
        ≡ 5
          ∷ 1
          ∷ rsv
          ∷ get_or (address_bytes h) 0 0
          ∷ (drop 1 (address_bytes h) ++ (port / 256) ∷ (port % 256) ∷ rest)
  header rsv (ipv4 b) port rest = rw (append_assoc b ((port / 256) ∷ (port % 256) ∷ []) rest) refl
  header rsv (name b) port rest = rw (append_assoc b ((port / 256) ∷ (port % 256) ∷ []) rest) refl
  header rsv (ipv6 b) port rest = rw (append_assoc b ((port / 256) ∷ (port % 256) ∷ []) rest) refl

  -- A CONNECT request of RFC 1928 is read in full and nothing after it, whatever its reserved byte:
  -- the target is the host's text, a colon and the port in decimal. An IPv6 host has no brackets.
  pub read_socks5_target-encode :
      (rsv : ℕ) (h : Host) (port : ℕ) (rest : List ℕ) (c : ClientConn)
      → Sized h
      → c.input ≡ encode rsv h port ++ rest
      → read_socks5_target env c
        ≡ (ok (host_text env h ++ (codes ":" ++ itoa (pos port))), record c { input = rest })
  unfolding read_socks5_target after_header
  read_socks5_target-encode rsv h port rest c l e =
      rw
        (read_full-append 4 (5 ∷ 1 ∷ rsv ∷ get_or (address_bytes h) 0 0 ∷ []) _ c
          (e ∙ header rsv h port rest) refl)
        (read_address-encode h port rest _ l refl)
