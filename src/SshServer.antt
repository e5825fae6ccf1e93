-- ===== src/SshServer.antt =====
-- internal/sshroundrobin/sshserver.go: an upstream's settings and its SSH client configuration.
use ssh_roundrobin.Prelude.{ℕ, ◌*◌, List, [], ◌∷◌, ◌++◌, if◌then◌else◌, ℤ}
use ssh_roundrobin.Text.{Text, codes, is_empty}
use ssh_roundrobin.Text.Decimal.{itoa}
use ssh_roundrobin.Outcome.{Result, ok, err}
use ssh_roundrobin.Env.{Env, ClientConfig, SshAuth, public_keys, password, second}

-- `unknown` stands for an `int` that is none of the constants.
pub data AuthMethod : Type 0 where
  auth_key auth_password auth_proxy_command auth_unknown : AuthMethod

pub record SshServer : Type 0 where
  pub host : Text
  pub port : ℤ
  pub username : Text
  pub auth_method : AuthMethod
  pub key_path : Text
  pub pass_word : Text
  pub proxy_command : Text

-- `fmt.Sprintf("%s:%d", s.Host, s.Port)`.
unfoldable pub addr : SshServer → Text
addr s = s.host ++ (codes ":" ++ itoa s.port)

unfoldable pub auth_string : AuthMethod → Text
auth_string auth_key = codes "key"
auth_string auth_password = codes "password"
auth_string auth_proxy_command = codes "proxycommand"
auth_string auth_unknown = codes "unknown"

module _ {W : Type 0} (env : Env W) where
  unfoldable pub load_private_key : Text → W → Result ℕ × W
  load_private_key path w =
      let (file, w1) = env.read_file path w in
      (
        elim file [
          | err e ↦ err (codes "failed to read key file: " ++ e)
          | ok key_data ↦ elim (env.parse_private_key key_data) [
            | err e ↦ err (codes "failed to parse private key: " ++ e)
            | ok signer ↦ ok signer
          ]
        ],
        w1,
      )

  -- The end of `Config`: no configuration without an authentication method.
  finish_config : SshServer → List SshAuth → Result ClientConfig
  finish_config s [] = err (codes "no auth methods configured")
  finish_config s (a ∷ rest) =
      ok (record { user = s.username; auth = a ∷ rest; timeout = 15 * second })

  unfoldable pub config : SshServer → W → Result ClientConfig × W
  unfolding load_private_key finish_config
  config s w = elim s.auth_method [
    | auth_key ↦
        let (key, w1) = load_private_key s.key_path w in
        (elim key [ ok signer ↦ finish_config s (public_keys signer ∷ []) | err e ↦ err e ], w1)
    | auth_password ↦ (finish_config s (password s.pass_word ∷ []), w)
    | auth_proxy_command ↦
        let secrets : List SshAuth =
          if is_empty s.pass_word then [] else password s.pass_word ∷ [] in
        let keyed = load_private_key s.key_path w in
        if is_empty s.key_path then (finish_config s secrets, w) else (
          elim keyed.0 [
            | ok signer ↦ finish_config s (public_keys signer ∷ secrets)
            | err e ↦ err e
          ],
          keyed.1,
        )
    | auth_unknown ↦ (err (codes "unknown auth method"), w)
  ]
