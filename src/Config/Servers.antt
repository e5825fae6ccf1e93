-- ===== src/Config/Servers.antt =====
-- internal/config/servers.go: the servers file, one upstream on a line.
pub mod Lines
pub mod Accepted
use ssh_roundrobin.Prelude.{
  ℕ, suc, ◌+◌, Bool, true, false, ◌&&◌, ◌||◌, not, Option, none, some, List, [], ◌∷◌, ◌++◌, ltb,
  if◌then◌else◌, length, get_or, ℤ, pos,
}
use ssh_roundrobin.Text.{Text, Error, codes, text_eq, is_empty, trim_space, has_prefix, split}
use ssh_roundrobin.Text.Decimal.{itoa, atoi}
use ssh_roundrobin.Outcome.{Result, ok, err}
use ssh_roundrobin.Env.{Env}
use ssh_roundrobin.Os.{Os}
use ssh_roundrobin.SshServer.{SshServer, auth_key, auth_password, auth_proxy_command}

-- The arguments that hold for every line of a file.
pub record Options : Type 0 where
  pub username : Text
  pub key_file : Text
  pub proxy_command : Text
  pub force_cloudflared : Bool

-- `fields[1]`, when it is there and not empty, is the port; 22 is the default.
unfoldable pub parse_port : (Text → Text) → ℕ → List Text → Result ℤ
parse_port quote line_num fields =
    let f = get_or fields 1 [] in
    if is_empty f then ok (pos 22) else elim (atoi quote f) [
      | ok p ↦ ok p
      | err e ↦ err (codes "invalid port at line " ++ (itoa (pos line_num) ++ (codes ": " ++ f)))
    ]

-- A third field that is "-" counts as none.
unfoldable pub parse_password : List Text → Text
parse_password fields = let f = get_or fields 2 [] in if text_eq f (codes "-") then [] else f

-- The server before its authentication is chosen; `auth_key` is the zero value of the method.
unfoldable pub plain_server : Options → Text → ℤ → Text → SshServer
plain_server o host port password = record {
  host = host;
  port = port;
  username = o.username;
  auth_method = auth_key;
  key_path = o.key_file;
  pass_word = password;
  proxy_command = [];
}

-- A line that is empty or a comment once its white space is cut.
unfoldable pub skipped : Text → Bool
skipped line = is_empty line || has_prefix line (codes "#")

module _ {W : Type 0} (os : Os W) where
  unfoldable pub default_ssh_key_path : W → Result Text × W
  default_ssh_key_path w =
      let (home, w1) = os.current_user_home w in
      (
        elim home [
          | err e ↦ err (codes "failed to get current user: " ++ e)
          | ok dir ↦ ok (os.join_path (dir ∷ codes ".ssh" ∷ codes "id_rsa" ∷ []))
        ],
        w1,
      )

  -- With a proxy command the default key is used if the line gives no other secret and it exists.
  unfoldable pub use_proxy : Options → SshServer → W → Result SshServer × W
  use_proxy o s w =
      let t = record s { auth_method = auth_proxy_command; proxy_command = o.proxy_command } in
      let (path, w1) = default_ssh_key_path w in
      let keyed : Result SshServer × W = elim path [
        | err e ↦ (err e, w1)
        | ok p ↦
            let (missing, w2) = os.stat p w1 in
            (elim missing [ none ↦ ok (record t { key_path = p }) | some e ↦ ok t ], w2)
      ] in
      if is_empty s.key_path && is_empty s.pass_word then keyed else (ok t, w)

  -- With neither a key nor a password, the default key has to exist.
  unfoldable pub use_default_key : ℕ → SshServer → W → Result SshServer × W
  use_default_key line_num s w =
      let (path, w1) = default_ssh_key_path w in
      elim path [
        | err e ↦ (err e, w1)
        | ok p ↦
            let (missing, w2) = os.stat p w1 in
            (
              elim missing [
                | none ↦ ok (record s { auth_method = auth_key; key_path = p })
                | some e ↦ err (
                    codes "no auth method specified and default key "
                    ++ (p
                        ++ (codes " not found for server "
                            ++ (s.host ++ (codes " at line " ++ itoa (pos line_num))))))
              ],
              w2,
            )
      ]

  unfoldable pub choose_auth : Options → ℕ → SshServer → W → Result SshServer × W
  choose_auth o line_num s w =
      if o.force_cloudflared || not (is_empty o.proxy_command)
      then use_proxy o s w
      else if not (is_empty s.key_path)
      then (ok (record s { auth_method = auth_key }), w)
      else if not (is_empty s.pass_word)
      then (ok (record s { auth_method = auth_password }), w)
      else use_default_key line_num s w

module _ {W : Type 0} (env : Env W) (os : Os W) where
  unfoldable pub parse_server_line : Options → Text → ℕ → W → Result SshServer × W
  parse_server_line o line line_num w =
      let fields = split line b':' in
      let number = itoa (pos line_num) in
      let host = get_or fields 0 [] in
      if ltb (length fields) 1 || ltb 3 (length fields)
      then (
        err (
            codes "invalid line "
            ++ (number
                ++ (codes ": "
                    ++ (line ++ codes " (format: host, host:port, or host:port:password)")))),
        w,
      )
      else if is_empty host
      then (err (codes "invalid line " ++ (number ++ codes ": empty host")), w)
      else elim (parse_port env.quote line_num fields) [
        | err e ↦ (err e, w)
        | ok port ↦ choose_auth os o line_num (plain_server o host port (parse_password fields)) w
      ]

  -- The loop over the lines that are left; `line_num` is the number of the first.
  unfoldable pub parse_lines : Options → List Text → ℕ → W → Result (List SshServer) × W
  parse_lines o [] line_num w = (ok [], w)
  parse_lines o (text ∷ rest) line_num w =
      let line = trim_space text in
      let (r, w1) = parse_server_line o line line_num w in
      let onward = parse_lines o rest (line_num + 1) w in
      let after = parse_lines o rest (line_num + 1) w1 in
      if skipped line then onward else elim r [
        | err e ↦ (err e, w1)
        | ok s ↦ (elim after.0 [ err e ↦ err e | ok servers ↦ ok (s ∷ servers) ], after.1)
      ]

  unfoldable pub parse_servers_file : Options → Text → W → Result (List SshServer) × W
  parse_servers_file o path w =
      let (opened, w1) = os.scan_lines path w in
      elim opened [
        | err e ↦ (err (codes "failed to open servers file: " ++ e), w1)
        | ok (lines, failure) ↦
            let (servers, w2) = parse_lines o lines 1 w1 in
            if o.force_cloudflared && is_empty o.proxy_command
            then (err (codes "-cf/-cloudflared mode requires PROXY_COMMAND or -proxy-command"), w1)
            else elim servers [
              | err e ↦ (err e, w2)
              | ok l ↦ (
                elim failure [
                  | none ↦ ok l
                  | some e ↦ err (codes "error reading servers file: " ++ e)
                ],
                w2,
              )
            ]
      ]
