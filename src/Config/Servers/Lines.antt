-- ===== src/Config/Servers/Lines.antt =====
-- The servers of a file, line by line.
use ssh_roundrobin.Prelude.{
  ℕ, ◌+◌, ◌≡◌, refl, ◌∙◌, ap, subst, not, ◌==◌, Bool, true, none, Option-cases, ◌&&◌, false, List,
  [], ◌∷◌, inl, inr, Bool-cases, arith, if◌then◌else◌,
}
use ssh_roundrobin.Text.{Text, Error, has_prefix, trim_space, is_empty}
use ssh_roundrobin.Outcome.{Result, ok, err, error_or_ok}
use ssh_roundrobin.Env.{Env}
use ssh_roundrobin.Os.{Os}
use ssh_roundrobin.SshServer.{SshServer}
use ssh_roundrobin.Config.Servers.{
  Options, skipped, parse_server_line, parse_lines, parse_servers_file,
}

-- A line whose first character is there and no '#'.
abbrev pub names_server : Text → Bool
names_server [] = false
names_server (c ∷ _) = not (c == b'#')

skipped-names_server : (line : Text) → skipped line ≡ not (names_server line)
unfolding skipped has_prefix
skipped-names_server [] = refl
skipped-names_server (c ∷ line) = ground arith

-- The lines that name a server once their white space is cut, with their numbers.
abbrev pub contents : ℕ → List Text → List (ℕ × Text)
contents n [] = []
contents n (t ∷ ts) =
    let rest = contents (n + 1) ts in
    if names_server (trim_space t) then (n, trim_space t) ∷ rest else rest

module _ {W : Type 0} (env : Env W) (os : Os W) (o : Options) where
  -- `l` are the servers of the numbered lines, each line parsed in the world that the one before
  -- left.
  pub data Parsed : W → List (ℕ × Text) → List SshServer → W → Type 0 where
    done : {w : W} → Parsed w [] [] w
    next :
        {w v u : W} {n : ℕ} {line : Text} {s : SshServer} {lines : List (ℕ × Text)}
        {l : List SshServer}
        → parse_server_line env os o line n w ≡ (ok s, v)
        → Parsed v lines l u
        → Parsed w ((n, line) ∷ lines) (s ∷ l) u

  -- The line at which parsing stops, after the lines before it were parsed.
  pub data Stopped : W → List (ℕ × Text) → Error → W → Type 0 where
    here :
        {w v : W} {n : ℕ} {line : Text} {e : Error} {lines : List (ℕ × Text)}
        → parse_server_line env os o line n w ≡ (err e, v)
        → Stopped w ((n, line) ∷ lines) e v
    later :
        {w v u : W} {n : ℕ} {line : Text} {s : SshServer} {e : Error} {lines : List (ℕ × Text)}
        → parse_server_line env os o line n w ≡ (ok s, v)
        → Stopped v lines e u
        → Stopped w ((n, line) ∷ lines) e u

  abbrev pub Read : W → List (ℕ × Text) → Result (List SshServer) × W → Type 0
  Read w lines (ok l, v) = Parsed w lines l v
  Read w lines (err e, v) = Stopped w lines e v

  extend :
      (w v : W) (n : ℕ) (line : Text) (s : SshServer) (lines : List (ℕ × Text))
      (r : Result (List SshServer) × W)
      → parse_server_line env os o line n w ≡ (ok s, v)
      → Read v lines r
      → Read w ((n, line) ∷ lines) (elim r.0 [ err e ↦ err e | ok servers ↦ ok (s ∷ servers) ], r.1)
  extend w v n line s lines (ok l, u) p h = next p h
  extend w v n line s lines (err e, u) p h = later p h

  -- The servers are those of the lines that begin with another character than '#' once their white
  -- space is cut, in their order, one for each; an error is that of the first such line that has one, and the lines before it have none.
  pub parse_lines-Read :
      (lines : List Text) (n : ℕ) (w : W)
      → Read w (contents n lines) (parse_lines env os o lines n w)
  unfolding parse_lines
  parse_lines-Read [] n w = done
  parse_lines-Read (t ∷ ts) n w = elim (Bool-cases (names_server (trim_space t))) [
    | inr b ↦
        let off : skipped (trim_space t) ≡ true = skipped-names_server (trim_space t) ∙ ap not b in
        rw (b, off) (parse_lines-Read ts (n + 1) w)
    | inl b ↦
        let on : skipped (trim_space t) ≡ false = skipped-names_server (trim_space t) ∙ ap not b in
        elim (error_or_ok (parse_server_line env os o (trim_space t) n w).0) [
          | inl (e, p) ↦ rw (b, on, p) (here (state p))
          | inr (s, p) ↦
              rw (b, on, p)
                (extend w (parse_server_line env os o (trim_space t) n w).1 n (trim_space t) s
                  (contents (n + 1) ts)
                  (parse_lines env os o ts (n + 1)
                    (parse_server_line env os o (trim_space t) n w).1)
                  (state p)
                  (parse_lines-Read ts (n + 1) (parse_server_line env os o (trim_space t) n w).1))
        ]
  ]
    where
      state :
          {r : Result SshServer}
          → (parse_server_line env os o (trim_space t) n w).0 ≡ r
          → parse_server_line env os o (trim_space t) n w
            ≡ (r, (parse_server_line env os o (trim_space t) n w).1)
      state p = ap (λ r. (r, (parse_server_line env os o (trim_space t) n w).1)) p

-- A file gives servers only when it was scanned to its end without an error, when a forced proxy has
-- its command, and when all its lines that begin with another character than '#' once their white
-- space is cut were accepted: the servers are those of these lines, in their order.
pub parse_servers_file-Parsed :
    {W : Type 0} (env : Env W) (os : Os W) (o : Options) (path : Text) (w : W) (l : List SshServer)
    → (parse_servers_file env os o path w).0 ≡ ok l
    → (lines : List Text) × (v : W) × (u : W) × (os.scan_lines path w ≡ (ok (lines, none), v))
      × Parsed env os o v (contents 1 lines) l u
      × ((o.force_cloudflared && is_empty o.proxy_command) ≡ false)
unfolding parse_servers_file
parse_servers_file-Parsed {W} env os o path w l h = elim (error_or_ok (os.scan_lines path w).0) [
  | inl (e, p) ↦ absurd (ground (arith, h, p))
  | inr ((lines, failure), p) ↦
      let v = (os.scan_lines path w).1 in
      elim (Bool-cases (o.force_cloudflared && is_empty o.proxy_command)) [
        | inl f ↦ absurd (ground (arith, h, p, f))
        | inr f ↦ elim (error_or_ok (parse_lines env os o lines 1 v).0) [
          | inl (e, q) ↦ absurd (ground (arith, h, p, f, q))
          | inr (servers, q) ↦ elim (Option-cases failure) [
            | inr (e, g) ↦ absurd (ground (arith, h, p, f, q, g))
            | inl g ↦ (
              lines,
              v,
              (parse_lines env os o lines 1 v).1,
              ap (λ r. (r, v)) (p ∙ ap (λ x. ok (lines, x)) g),
              read_all v (contents 1 lines) (parse_lines env os o lines 1 v)
                  (q ∙ ap ok (ground (arith, h, p, f, q, g))) (parse_lines-Read env os o lines 1 v),
              f,
            )
          ]
        ]
      ]
]
  where
    read_all :
        (v : W) (lines : List (ℕ × Text)) (r : Result (List SshServer) × W)
        → r.0 ≡ ok l
        → Read env os o v lines r
        → Parsed env os o v lines l r.1
    read_all v lines (ok k, u) e h = subst (λ x. Parsed env os o v lines x u) (ground arith) h
    read_all v lines (err x, u) e h = absurd (ground arith)
