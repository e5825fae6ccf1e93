-- ===== src/RoundRobin/Summary/Lines.antt =====
-- The report has one line for each upstream.
use ssh_roundrobin.Prelude.{
  ◌++◌, append-nil, inl, inr, if◌then◌else◌, ℕ, zero, suc, ◌+◌, ◌<◌, ◌≤◌, ◌≡◌, ◌≢◌, refl, sym, ◌∙◌,
  ap, subst, Bool, ◌&&◌, ◌==◌, Option, none, some, List, [], ◌∷◌, length, get_or, get_elem?, All,
  All-append, arith, Bool-cases, inl, inr, ◌%◌, pos, ℤ,
}
use ssh_roundrobin.Text.{Text, codes, is_empty, split, split-part, split_last, Without}
use ssh_roundrobin.Text.Decimal.{itoa, itoa-All}
use ssh_roundrobin.Env.{Env}
use ssh_roundrobin.SshServer.{
  SshServer, addr, auth_string, AuthMethod, auth_key, auth_password, auth_proxy_command,
  auth_unknown,
}
use ssh_roundrobin.SshClient.{SshClient, server_addr, server_mode}
use ssh_roundrobin.RoundRobin.{Pool}
use ssh_roundrobin.RoundRobin.Health.{UpstreamStat, client_stat, stats_from, stats_snapshot}
use ssh_roundrobin.RoundRobin.Summary.{
  concat, upstream_colors, addr_part, health_part, active_part, error_part, summary_line,
  summary_lines, join_lines, stats_summary,
}

-- A text on one line.
abbrev pub OneLine : Text → Type 0
OneLine = Without 10

concat-OneLine : (pieces : List Text) → All OneLine pieces → OneLine (concat pieces)
unfolding concat
concat-OneLine [] h = tt
concat-OneLine (s ∷ pieces) (h, hs) =
    All-append (λ c. c ≢ 10) s (concat pieces) h (concat-OneLine pieces hs)

itoa-OneLine : (n : ℤ) → OneLine (itoa n)
itoa-OneLine n = go (itoa n) (itoa-All n)
  where
    go : (s : Text) → All (λ c. (b'-' ≤ c) × (c ≤ b'9')) s → OneLine s
    go [] h = tt
    go (c ∷ s) (h, hs) = (λ e. omega (arith, h.0, e), go s hs)

color-OneLine : (n : ℕ) → n < 4 → OneLine (get_or upstream_colors n [])
color-OneLine zero h = omega arith
color-OneLine (suc zero) h = omega arith
color-OneLine (suc (suc zero)) h = omega arith
color-OneLine (suc (suc (suc zero))) h = omega arith
color-OneLine (suc (suc (suc (suc n)))) h = absurd (omega (arith, h))

health_part-OneLine : (stat : UpstreamStat) → OneLine (health_part stat)
unfolding health_part
health_part-OneLine stat = elim (Bool-cases stat.is_up) [
  | inl h ↦ rw h (omega arith)
  | inr h ↦ rw h (omega arith)
]

active_part-OneLine : (stat : UpstreamStat) → OneLine (active_part stat)
unfolding active_part
active_part-OneLine stat = elim (Bool-cases stat.is_active) [
  | inl h ↦ rw h (omega arith)
  | inr h ↦ rw h (omega arith)
]

-- The address and the mode of the entry stand on one line.
abbrev Plain : UpstreamStat → Type 0
Plain stat = OneLine stat.stat_addr × OneLine stat.mode

module _ (quote : Text → Text) (quoted : (s : Text) → OneLine (quote s)) where
  error_part-OneLine : (stat : UpstreamStat) → OneLine (error_part quote stat)
  unfolding error_part
  error_part-OneLine stat = elim (Bool-cases (is_empty stat.error)) [
    | inl h ↦ rw h tt
    | inr h ↦ rw h (
        concat-OneLine (codes " err=" ∷ quote stat.error ∷ [])
          (omega arith, (quoted stat.error, tt)))
  ]

  summary_line-OneLine :
      (idx : ℕ) (stat : UpstreamStat) → Plain stat → OneLine (summary_line quote idx stat)
  unfolding summary_line addr_part
  summary_line-OneLine idx stat (plain_addr, plain_mode) = concat-OneLine _ (
    omega arith,
    (
      concat-OneLine _ (color-OneLine (idx % 4) (omega arith), (plain_addr, (omega arith, tt))),
      (
        omega arith,
        (
          plain_mode,
          (
            omega arith,
            (
              health_part-OneLine stat,
              (
                omega arith,
                (
                  active_part-OneLine stat,
                  (
                    omega arith,
                    (
                      itoa-OneLine (pos stat.selected),
                      (
                        omega arith,
                        (
                          itoa-OneLine (pos stat.reconnects),
                          (
                            omega arith,
                            (itoa-OneLine (pos stat.checks), (error_part-OneLine stat, tt)),
                          ),
                        ),
                      ),
                    ),
                  ),
                ),
              ),
            ),
          ),
        ),
      ),
    ),
  )

  summary_lines-OneLine :
      (idx : ℕ) (stats : List UpstreamStat)
      → All Plain stats
      → All OneLine (summary_lines quote idx stats)
  unfolding summary_lines
  summary_lines-OneLine idx [] h = tt
  summary_lines-OneLine idx (stat ∷ stats) (h, hs) =
      (summary_line-OneLine idx stat h, summary_lines-OneLine (idx + 1) stats hs)

split-join_lines :
    (line : Text) (lines : List Text)
    → All OneLine (line ∷ lines)
    → split (join_lines (line ∷ lines)) 10 ≡ line ∷ lines
unfolding join_lines
split-join_lines line [] (h, hs) = split_last 10 line h
split-join_lines line (next ∷ lines) (h, hs) =
    split-part 10 line (join_lines (next ∷ lines)) h
    ∙ ap (◌∷◌ line) (split-join_lines next lines hs)

-- The line of an upstream at the index `i`, in the escape sequences of a terminal: \033[36m is cyan, 34
-- blue, 35 magenta, 37 white, 32 green, 31 red, 33 yellow, and 0 ends a colour.
abbrev pub esc : Text → Text
esc s = 27 ∷ s

abbrev pub colours : List Text
colours = esc (codes "[36m") ∷ esc (codes "[34m") ∷ esc (codes "[35m") ∷ esc (codes "[37m") ∷ []

abbrev pub host_port : Option SshServer → Text
host_port none = []
host_port (some s) = s.host ++ (codes ":" ++ itoa s.port)

abbrev pub mode_of : AuthMethod → Text
mode_of auth_key = codes "key"
mode_of auth_password = codes "password"
mode_of auth_proxy_command = codes "proxycommand"
mode_of auth_unknown = codes "unknown"

abbrev pub told_mode : Option SshServer → Text
told_mode none = []
told_mode (some s) = mode_of s.auth_method

abbrev pub told_error : (Text → Text) → Text → Text
told_error quote [] = []
told_error quote (c ∷ e) = codes " err=" ++ quote (c ∷ e)

-- The line with its address, mode and error given.
abbrev pub told_with : ℕ → Bool → SshClient → Text → Text → Text → Text
told_with i active c address mode error =
    codes "  - "
    ++ ((get_or colours (i % 4) [] ++ (address ++ esc (codes "[0m")))
        ++ (codes " mode="
            ++ (mode
                ++ (codes " health="
                    ++ ((if c.healthy
                          then esc (codes "[32mup") ++ esc (codes "[0m")
                          else esc (codes "[31mdown") ++ esc (codes "[0m"))
                        ++ (codes " active="
                            ++ ((if active
                                  then esc (codes "[33myes") ++ esc (codes "[0m")
                                  else codes "no")
                                ++ (codes " hits="
                                    ++ (itoa (pos c.selected_count)
                                        ++ (codes " reconnects="
                                            ++ (itoa (pos c.reconnect_count)
                                                ++ (codes " checks="
                                                    ++ (itoa (pos c.healthcheck_count)
                                                        ++ error)))))))))))))

abbrev pub told : (Text → Text) → ℕ → Bool → SshClient → Text
told quote i active c =
    told_with i active c (host_port c.server) (told_mode c.server) (told_error quote c.last_err)

told_error-part :
    (quote : Text → Text) (stat : UpstreamStat)
    → error_part quote stat ++ [] ≡ told_error quote stat.error
unfolding error_part concat
told_error-part quote stat = go stat.error
  where
    go :
        (e : Text)
        → (if is_empty e then [] else concat (codes " err=" ∷ quote e ∷ [])) ++ []
          ≡ told_error quote e
    go [] = refl
    go (c ∷ e) =
        append-nil (codes " err=" ++ (quote (c ∷ e) ++ []))
        ∙ ap (λ s. codes " err=" ++ s) (append-nil (quote (c ∷ e)))

mode_of-string : (a : AuthMethod) → auth_string a ≡ mode_of a
unfolding auth_string
mode_of-string auth_key = refl
mode_of-string auth_password = refl
mode_of-string auth_proxy_command = refl
mode_of-string auth_unknown = refl

server_addr-some :
    (c : SshClient) (s : SshServer)
    → c.server ≡ some s
    → server_addr c ≡ s.host ++ (codes ":" ++ itoa s.port)
unfolding server_addr addr
server_addr-some c s e = ap (λ o. elim o [ none ↦ codes "unknown" | some s ↦ addr s ]) e

server_mode-some :
    (c : SshClient) (s : SshServer) → c.server ≡ some s → server_mode c ≡ auth_string s.auth_method
unfolding server_mode
server_mode-some c s e =
    ap (λ o. elim o [ none ↦ codes "unknown" | some s ↦ auth_string s.auth_method ]) e

told-line :
    (quote : Text → Text) (i : ℕ) (active : Bool) (c : SshClient)
    → summary_line quote i (client_stat active c) ≡ told quote i active c
unfolding summary_line concat addr_part health_part active_part client_stat
told-line quote i active c =
    ap (told_with i active c stat.stat_addr stat.mode) (told_error-part quote stat)
    ∙ ap (λ m. told_with i active c stat.stat_addr m (told_error quote c.last_err))
        (modes c.server refl)
    ∙ ap (λ a. told_with i active c a (told_mode c.server) (told_error quote c.last_err))
        (addresses c.server refl)
  where
    stat : UpstreamStat
    stat = client_stat active c

    addresses : (o : Option SshServer) → c.server ≡ o → stat.stat_addr ≡ host_port c.server
    addresses none e = rw e refl
    addresses (some s) e = rw e (server_addr-some c s e)

    modes : (o : Option SshServer) → c.server ≡ o → stat.mode ≡ told_mode c.server
    modes none e = rw e refl
    modes (some s) e = rw e (server_mode-some c s e ∙ mode_of-string s.auth_method)

abbrev pub PlainServer : Option SshServer → Type 0
PlainServer none = Unit
PlainServer (some s) = OneLine s.host

module _ {W : Type 0} (env : Env W) (p : Pool W) where
  -- The host of a client stands on one line.
  abbrev pub PlainHost : ℕ → Type 0
  PlainHost r = PlainServer (p.clients r).server

  auth_string-OneLine : (a : AuthMethod) → OneLine (auth_string a)
  unfolding auth_string
  auth_string-OneLine auth_key = omega arith
  auth_string-OneLine auth_password = omega arith
  auth_string-OneLine auth_proxy_command = omega arith
  auth_string-OneLine auth_unknown = omega arith

  addr-OneLine : (s : SshServer) → OneLine s.host → OneLine (addr s)
  unfolding addr
  addr-OneLine s h =
      All-append (λ c. c ≢ 10) s.host (58 ∷ itoa s.port) h (omega arith, itoa-OneLine s.port)

  client_stat-Plain :
      (active : Bool) (r : ℕ) → PlainHost r → Plain (client_stat active (p.clients r))
  unfolding client_stat server_addr server_mode
  client_stat-Plain active r h = go (p.clients r).server refl
    where
      go :
          (o : Option SshServer)
          → (p.clients r).server ≡ o
          → Plain (client_stat active (p.clients r))
      go none e = rw e (tt, tt)
      go (some s) e =
          let plain : OneLine s.host = subst PlainServer e h in
          let its_addr : server_addr (p.clients r) ≡ addr s = rw (e, server_addr) refl in
          let its_mode : server_mode (p.clients r) ≡ auth_string s.auth_method =
            rw (e, server_mode) refl in
          rw e (
            subst OneLine (sym its_addr) (addr-OneLine s plain),
            subst OneLine (sym its_mode) (auth_string-OneLine s.auth_method),
          )

  stats_from-Plain : (idx : ℕ) (rs : List ℕ) → All PlainHost rs → All Plain (stats_from idx rs p)
  unfolding stats_from
  stats_from-Plain idx [] h = tt
  stats_from-Plain idx (r ∷ rs) (h, hs) = (
    client_stat-Plain (p.has_active && (idx == p.active_idx)) r h,
    stats_from-Plain (idx + 1) rs hs,
  )

  -- The entry of the upstream `r` at the index `idx`.
  abbrev entry : ℕ → ℕ → UpstreamStat
  entry idx r = client_stat (p.has_active && (idx == p.active_idx)) (p.clients r)

  summary_lines-get_elem? :
      (quote : Text → Text) (idx i : ℕ) (rs : List ℕ)
      → i < length rs
      → get_elem? (summary_lines quote idx (stats_from idx rs p)) i
        ≡ some (summary_line quote (idx + i) (entry (idx + i) (get_or rs i 0)))
  unfolding stats_from summary_lines
  summary_lines-get_elem? quote idx i [] h = absurd (omega (arith, h))
  summary_lines-get_elem? quote idx zero (r ∷ rs) h =
      ap (λ n. some (summary_line quote n (entry n r))) (omega arith)
  summary_lines-get_elem? quote idx (suc i) (r ∷ rs) h =
      summary_lines-get_elem? quote (idx + 1) i rs (omega (arith, h))
      ∙ ap (λ n. some (summary_line quote n (entry n (get_or rs i 0)))) (omega arith)

  summary_lines-length :
      (quote : Text → Text) (idx : ℕ) (stats : List UpstreamStat)
      → length (summary_lines quote idx stats) ≡ length stats
  unfolding summary_lines
  summary_lines-length quote idx [] = refl
  summary_lines-length quote idx (stat ∷ stats) =
      ap suc (summary_lines-length quote (idx + 1) stats)

  stats_from-length : (idx : ℕ) (rs : List ℕ) → length (stats_from idx rs p) ≡ length rs
  unfolding stats_from
  stats_from-length idx [] = refl
  stats_from-length idx (r ∷ rs) = ap suc (stats_from-length (idx + 1) rs)

  stats_summary_lines :
      (quoted : (s : Text) → OneLine (env.quote s)) (stats : List UpstreamStat)
      → stats_snapshot p ≡ stats
      → 0 < length stats
      → All Plain stats
      → split (stats_summary env p) 10 ≡ [] ∷ summary_lines env.quote 0 stats
  unfolding stats_summary summary_lines
  stats_summary_lines quoted [] e h plain = absurd (omega (arith, h))
  stats_summary_lines quoted (stat ∷ stats) e h plain =
      rw (e, stats_summary)
        (split-part 10 [] (join_lines (summary_lines env.quote 0 (stat ∷ stats))) tt
          ∙ ap (◌∷◌ []) (
              split-join_lines _ _ (summary_lines-OneLine env.quote quoted 0 (stat ∷ stats) plain)))

  -- The report of a pool that is not empty is, split at its line ends, an empty line and then a line for
  -- each upstream in the order of the pool, which tells its address in the colour of its index, its mode
  -- and health, whether it is the active one of a pool that has one, its three counts, and its last error
  -- if it has one. No host has a line end, and %q writes none.
  pub stats_summary-split :
      ((s : Text) → OneLine (env.quote s))
      → 0 < length p.servers
      → All PlainHost p.servers
      → (lines : List Text) × (split (stats_summary env p) 10 ≡ [] ∷ lines)
        × (length lines ≡ length p.servers)
        × ((i : ℕ)
            → i < length p.servers
            → get_elem? lines i
              ≡ some (
                  told env.quote i
                    (p.has_active && (i == p.active_idx))
                    (p.clients (get_or p.servers i 0))))
  unfolding stats_snapshot
  stats_summary-split quoted some_server plain = (
    summary_lines env.quote 0 (stats_from 0 p.servers p),
    stats_summary_lines quoted (stats_from 0 p.servers p) refl
        (omega (arith, some_server, stats_from-length 0 p.servers))
        (stats_from-Plain 0 p.servers plain),
    summary_lines-length env.quote 0 (stats_from 0 p.servers p) ∙ stats_from-length 0 p.servers,
    λ i h.
        summary_lines-get_elem? env.quote 0 i p.servers h
        ∙ ap (λ n. some (summary_line env.quote n (entry n (get_or p.servers i 0)))) (omega arith)
        ∙ ap some (
            told-line env.quote i (p.has_active && (i == p.active_idx))
              (p.clients (get_or p.servers i 0))),
  )
