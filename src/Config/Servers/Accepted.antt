-- ===== src/Config/Servers/Accepted.antt =====
-- What a line of the servers file means, and what an accepted line gives.
use ssh_roundrobin.Prelude.{
  ◌≤◌, true, ℕ, ◌≤◌, ◌≡◌, ◌≢◌, ◌∙◌, ap, true, ◌||◌, not, List, [], ◌∷◌, ◌++◌, length, get_or, arith,
  All, ℤ, pos,
}
use ssh_roundrobin.Text.{Text, codes, text_eq_iff, is_empty, split, split-part, split_last, Without}
use ssh_roundrobin.Text.Decimal.{itoa, atoi, atoi-itoa, itoa-All, itoa-not_empty, Int64}
use ssh_roundrobin.Outcome.{ok}
use ssh_roundrobin.Env.{Env}
use ssh_roundrobin.Os.{Os}
use ssh_roundrobin.SshServer.{
  SshServer, AuthMethod, auth_key, auth_password, auth_proxy_command, auth_unknown,
}
use ssh_roundrobin.Config.Servers.{
  Options, parse_port, parse_password, plain_server, choose_auth, parse_server_line,
}

itoa-Without : (n : ℤ) → Without b':' (itoa n)
itoa-Without n = narrow (itoa n) (itoa-All n)
  where
    narrow : (s : Text) → All (λ c. (b'-' ≤ c) × (c ≤ b'9')) s → Without b':' s
    narrow [] h = tt
    narrow (c ∷ s) h = (λ e. omega (arith, e, h.0), narrow s h.1)

module _ {W : Type 0} (env : Env W) (os : Os W) (o : Options) (line_num : ℕ) (w : W) where
  -- A line host:port:password is read as its parts, and a line with a host alone as port 22 without
  -- a password. The host is not empty; the host and the password hold no colon, and the password is
  -- not "-".
  pub parse_server_line-print :
      (host password : Text) (port : ℤ)
      → host ≢ []
      → Without b':' host
      → Without b':' password
      → password ≢ codes "-"
      → Int64 port
      → (parse_server_line env os o (host ++ b':' ∷ (itoa port ++ b':' ∷ password)) line_num w
          ≡ choose_auth os o line_num (plain_server o host port password) w)
        × (parse_server_line env os o host line_num w
            ≡ choose_auth os o line_num (plain_server o host (pos 22) []) w)
  unfolding parse_server_line parse_port parse_password
  parse_server_line-print host password port n h p d i = ground (
    arith,
    parts,
    alone,
    itoa-not_empty port,
    atoi-itoa env.quote port i,
    text_eq_iff password (codes "-"),
  )
    where
      parts :
          split (host ++ b':' ∷ (itoa port ++ b':' ∷ password)) b':'
          ≡ host ∷ itoa port ∷ password ∷ []
      parts =
          split-part b':' host (itoa port ++ b':' ∷ password) h
          ∙ ap (◌∷◌ host) (
              split-part b':' (itoa port) password (itoa-Without port)
              ∙ ap (◌∷◌ (itoa port)) (split_last b':' password p))

      alone : split host b':' ≡ host ∷ []
      alone = split_last b':' host h

-- The secret that a server's method of authentication needs is there.
abbrev pub HasSecret : Options → SshServer → AuthMethod → Type 0
HasSecret o s auth_key = s.key_path ≢ []
HasSecret o s auth_password = s.pass_word ≢ []
HasSecret o s auth_proxy_command =
    (s.proxy_command ≡ o.proxy_command)
    × ((o.force_cloudflared || not (is_empty o.proxy_command)) ≡ true)
HasSecret o s auth_unknown = ℕ × (auth_key ≡ auth_unknown)

-- `s` is `t` with a method of authentication chosen, and its secret is there.
pub record Chosen (o : Options) (t s : SshServer) : Type 0 where
  pub host : s.host ≡ t.host
  pub port : s.port ≡ t.port
  pub username : s.username ≡ t.username
  pub pass_word : s.pass_word ≡ t.pass_word
  pub secret : HasSecret o s s.auth_method

-- `s` is a server for the fields of a line: the host, a port that is 22 by default, and a password,
-- where "-" means none.
pub record FromFields (quote : Text → Text) (o : Options) (l : List Text) (s : SshServer)
    : Type 0 where
  pub least : 1 ≤ length l
  pub most : length l ≤ 3
  pub host : s.host ≡ get_or l 0 []
  pub named : s.host ≢ []
  pub port : get_or l 1 [] ≢ [] → atoi quote (get_or l 1 []) ≡ ok s.port
  pub default_port : get_or l 1 [] ≡ [] → s.port ≡ pos 22
  pub pass_word : get_or l 2 [] ≢ codes "-" → s.pass_word ≡ get_or l 2 []
  pub no_password : get_or l 2 [] ≡ codes "-" → s.pass_word ≡ []
  pub username : s.username ≡ o.username
  pub secret : HasSecret o s s.auth_method
