-- ===== src/Tests/Settings.antt =====
-- The servers file and the settings in the world of files.
use ssh_roundrobin.Prelude.{
  ◌*◌, ◌≡◌, refl, true, false, Option, none, some, List, [], ◌∷◌, ◌++◌, arith, pos,
}
use ssh_roundrobin.Text
use ssh_roundrobin.Text.{Text, Error, codes, is_empty, split}
use ssh_roundrobin.Text.Decimal
use ssh_roundrobin.Text.Decimal.{itoa}
use ssh_roundrobin.Dict
use ssh_roundrobin.Dict.{Dict}
use ssh_roundrobin.Outcome.{Result, ok}
use ssh_roundrobin.Env.{second}
use ssh_roundrobin.SshServer.{SshServer, auth_password}
use ssh_roundrobin.Config.Servers
use ssh_roundrobin.Config.Servers.{
  Options, parse_server_line, parse_lines, parse_port, parse_password, parse_servers_file,
  choose_auth, plain_server,
}
use ssh_roundrobin.Config.Servers.Accepted.{parse_server_line-print}
use ssh_roundrobin.Config.Servers.Lines.{
  Parsed, Read, contents, parse_lines-Read, parse_servers_file-Parsed,
}
use ssh_roundrobin.Config.Settings
use ssh_roundrobin.Config.Settings.{Config, parse_config, get_env_bool}
use ssh_roundrobin.Config.Settings.Validated.{parse_config_early}
use ssh_roundrobin.Tests.Disk.{Disk, disk_env, disk_os}

abbrev pub disk : Disk
disk = record { files = Dict.empty; clock = 63_800_000_000 * second; alive = true }

abbrev pub options : Options
options = record {
  username = codes "root";
  key_file = [];
  proxy_command = [];
  force_cloudflared = false;
}

-- The file of the sample system gives two servers.
abbrev pub server_a : SshServer
server_a = record (plain_server options (codes "a") (pos 2022) (codes "pw")) {
  auth_method = auth_password;
}

parse_server_line-print_example :
    (parse_server_line disk_env disk_os options
        (codes "a" ++ b':' ∷ (itoa (pos 2022) ++ b':' ∷ codes "pw"))
        3
        disk
      ≡ choose_auth disk_os options 3
          (plain_server options (codes "a") (pos 2022) (codes "pw"))
          disk)
    × (parse_server_line disk_env disk_os options (codes "a") 3 disk
        ≡ choose_auth disk_os options 3 (plain_server options (codes "a") (pos 22) []) disk)
parse_server_line-print_example =
    parse_server_line-print disk_env disk_os options 3 disk (codes "a") (codes "pw") (pos 2022)
      (λ h. cc) (omega arith) (omega arith) (λ h. ground arith) (omega arith)

abbrev lines : List Text
lines = codes "# upstreams" ∷ codes "a:2022:pw" ∷ [] ∷ codes " b " ∷ []

parse_lines-Read_example :
    Read disk_env disk_os options disk
      (contents 1 lines)
      (parse_lines disk_env disk_os options lines 1 disk)
parse_lines-Read_example = parse_lines-Read disk_env disk_os options lines 1 disk

-- The second server of the file falls back to the default key.
abbrev pub server_b : SshServer
server_b = record (plain_server options (codes "b") (pos 22) []) {
  key_path = codes "/root/.ssh/id_rsa";
}

unfoldable pub parse_sample : Disk → Result (List SshServer) × Disk
unfolding parse_servers_file parse_lines parse_server_line split parse_port parse_password
    plain_server choose_auth Servers.use_default_key Servers.default_ssh_key_path Servers.skipped
    Text.text_eq Text.trim_space Text.has_prefix Decimal.atoi Decimal.parse_int Decimal.parse_uint
    Decimal.parse_digits
parse_sample d = parse_servers_file disk_env disk_os options (codes "servers.txt") d

parse_servers_file-Parsed_example :
    (read : List Text) × (v : Disk) × (u : Disk) × (disk_os.scan_lines (codes "servers.txt") disk
      ≡ (ok (read, none), v))
    × Parsed disk_env disk_os options v (contents 1 read) (server_a ∷ server_b ∷ []) u
    × (false ≡ false)
unfolding parse_sample
parse_servers_file-Parsed_example =
    parse_servers_file-Parsed disk_env disk_os options (codes "servers.txt") disk
      (server_a ∷ server_b ∷ []) refl

-- The .env file sets variables that are not set, among them the display of statistics.
abbrev sample_load : Text → Dict Text → Dict Text
sample_load file vars = Dict.put vars (codes "SHOW_UPSTREAM_STATS") (codes "true")

unfoldable configure : Dict Text → Option Config
unfolding parse_config Settings.defaults Settings.get_env Settings.get_env_int Settings.get_env_bool
    Settings.validated Settings.validate_strategy Settings.validate_mode Settings.expand_path
    Dict.get Dict.put Dict.empty Text.text_eq Text.to_lower Text.trim_space Text.has_prefix
configure vars = parse_config sample_load (λ c. c) (ok (codes "/root")) vars

abbrev configured : Option Config → Config
configured none = Settings.defaults false false [] Dict.empty
configured (some c) = c

abbrev config : Config
config = configured (parse_config sample_load (λ c. c) (ok (codes "/root")) Dict.empty)

parse_config_early_example :
    (config.cloudflared ≡ get_env_bool Dict.empty (codes "CLOUDFLARED") false)
    × (config.show_upstream_stats ≡ get_env_bool Dict.empty (codes "SHOW_UPSTREAM_STATS") false)
unfolding configure
parse_config_early_example =
    parse_config_early sample_load (ok (codes "/root")) Dict.empty config refl

-- The statistics stay off.
early_run : config.show_upstream_stats ≡ false
unfolding configure
early_run = refl
