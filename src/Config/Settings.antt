-- ===== src/Config/Settings.antt =====
-- internal/config/config.go: the settings, their defaults from the environment, and their validation.
pub mod Validated
use ssh_roundrobin.Prelude.{
  ℕ, ◌*◌, Bool, true, false, ◌||◌, ◌&&◌, Option, none, some, List, [], ◌∷◌, ◌++◌, ltb,
  if◌then◌else◌, ℤ, pos, negsuc, positive_or,
}
use ssh_roundrobin.Text.{
  Text, Error, codes, text_eq, is_empty, trim_space, to_lower, has_prefix, drop_chars,
}
use ssh_roundrobin.Text.Decimal.{atoi}
use ssh_roundrobin.Outcome.{Result, ok, err}
use ssh_roundrobin.Dict
use ssh_roundrobin.Dict.{Dict}
use ssh_roundrobin.Env.{second}
use ssh_roundrobin.RoundRobin.{strategy_failover, strategy_load_balance}

pub record Config : Type 0 where
  pub bind_addr : Text
  pub servers_file : Text
  pub key_file : Text
  pub username : Text
  pub proxy_command : Text
  pub cloudflared : Bool
  pub strategy : Text
  pub max_active_upstreams : ℤ
  pub max_connections : ℤ
  pub target_host : Text
  pub target_port : ℤ
  pub health_check : Bool
  pub show_upstream_stats : Bool
  pub health_interval : ℤ
  pub retry_count : ℤ
  pub retry_delay : ℤ
  pub target_retry_upstreams : ℤ
  pub target_fail_threshold : ℤ
  pub target_fail_ttl : ℤ
  pub mode : Text
  pub env_file : Text
  pub status_file : Text
  pub status_log : Bool
  pub status_flush_sec : ℤ
  pub pid_file : Text
  pub log_file : Text
  pub foreground : Bool
  pub stop_daemon : Bool
  pub status_daemon : Bool

-- The variables of the environment. `os.Getenv` of one that is not set is empty.
abbrev pub getenv : Dict Text → Text → Text
getenv vars key = elim (Dict.get vars key) [ none ↦ [] | some v ↦ v ]

unfoldable pub get_env : Dict Text → Text → Text → Text
get_env vars key default_value =
    let value = getenv vars key in if is_empty value then default_value else value

-- A value that is no number gives the default.
unfoldable pub get_env_int : Dict Text → Text → ℤ → ℤ
get_env_int vars key default_value =
    let value = getenv vars key in
    if is_empty value
    then default_value
    else elim (atoi (λ s. s) value) [ ok n ↦ n | err e ↦ default_value ]

-- `strings.EqualFold(value, "true")`: no character outside ASCII folds to one of "true".
unfoldable pub get_env_bool : Dict Text → Text → Bool → Bool
get_env_bool vars key default_value =
    let value = getenv vars key in
    if is_empty value then default_value else text_eq (to_lower value) (codes "true")

-- Only the first character of the path is replaced, by the home directory.
unfoldable pub expand_path : Result Text → Text → Result Text
expand_path home path =
    if has_prefix path (codes "~")
    then elim home [ err e ↦ err e | ok dir ↦ ok (dir ++ drop_chars 1 path) ]
    else ok path

-- `none` is `os.Exit(2)`.
unfoldable pub validate_strategy : Text → Option Text
validate_strategy strategy =
    let s = to_lower (trim_space strategy) in
    if text_eq s []
    then some strategy_failover
    else if text_eq s strategy_load_balance
    then some strategy_load_balance
    else if text_eq s strategy_failover
    then some strategy_failover
    else none

abbrev pub mode_socks5 : Text
mode_socks5 = codes "socks5"

abbrev pub mode_tcp_forward : Text
mode_tcp_forward = codes "tcp-forward"

unfoldable pub validate_mode : Text → Option Text
validate_mode mode =
    let s = to_lower (trim_space mode) in
    if text_eq s [] || text_eq s mode_socks5
    then some mode_socks5
    else if Dict.has_text s (
        mode_tcp_forward
        ∷ codes "tcp"
        ∷ codes "forward"
        ∷ codes "static"
        ∷ codes "static-forward"
        ∷ codes "http"
        ∷ [])
    then some mode_tcp_forward
    else none

-- `if x < 0 { x = 0 }`
abbrev pub not_negative : ℤ → ℤ
not_negative (pos n) = pos n
not_negative (negsuc n) = pos 0

-- The defaults of the flags, from the environment `vars`; the first two were read before the .env
-- file was loaded.
unfoldable pub defaults : Bool → Bool → Text → Dict Text → Config
defaults cloudflared_default show_stats_default env_file vars = record {
  bind_addr = get_env vars (codes "BIND_ADDR") (codes "127.0.0.1:6465");
  servers_file = get_env vars (codes "SERVERS_FILE") (codes "servers.txt");
  key_file = get_env vars (codes "KEY_FILE") [];
  username = get_env vars (codes "SSH_USER") (codes "root");
  proxy_command = get_env vars (codes "PROXY_COMMAND") [];
  cloudflared = cloudflared_default;
  strategy = get_env vars (codes "SELECT_STRATEGY") strategy_failover;
  max_active_upstreams = get_env_int vars (codes "MAX_ACTIVE_UPSTREAMS") (pos 2);
  max_connections = get_env_int vars (codes "MAX_CONNECTIONS") (pos 100);
  target_host = get_env vars (codes "TARGET_HOST") (codes "127.0.0.1");
  target_port = get_env_int vars (codes "TARGET_PORT") (pos 80);
  health_check = get_env_bool vars (codes "HEALTH_CHECK") true;
  show_upstream_stats = show_stats_default;
  health_interval = pos (30 * second);
  retry_count = get_env_int vars (codes "RETRY_COUNT") (pos 3);
  retry_delay = pos second;
  target_retry_upstreams = get_env_int vars (codes "TARGET_RETRY_UPSTREAMS") (pos 0);
  target_fail_threshold = get_env_int vars (codes "TARGET_FAIL_THRESHOLD") (pos 1);
  target_fail_ttl = pos (600 * second);
  mode = get_env vars (codes "MODE") mode_socks5;
  env_file = env_file;
  status_file = get_env vars (codes "STATUS_FILE") (codes "server_status.json");
  status_log = get_env_bool vars (codes "STATUS_LOG") true;
  status_flush_sec = get_env_int vars (codes "STATUS_FLUSH_SEC") (pos 30);
  pid_file = get_env vars (codes "PID_FILE") (codes "ssh-roundrobin.pid");
  log_file = get_env vars (codes "LOG_FILE") [];
  foreground = get_env_bool vars (codes "FOREGROUND") false;
  stop_daemon = false;
  status_daemon = false;
}

-- What follows `flag.Parse`: `parsed` are the settings with their flags.
unfoldable pub validated : Result Text → Dict Text → Config → Option Config
validated home vars parsed = elim (validate_strategy parsed.strategy) [
  | none ↦ none
  | some strategy ↦ elim (validate_mode parsed.mode) [
    | none ↦ none
    | some mode ↦ some (record parsed {
      strategy = strategy;
      mode = mode;
      max_active_upstreams = pos (positive_or 1 parsed.max_active_upstreams);
      target_retry_upstreams = not_negative parsed.target_retry_upstreams;
      target_fail_threshold = pos (positive_or 1 parsed.target_fail_threshold);
      target_fail_ttl = pos (positive_or (600 * second) parsed.target_fail_ttl);
      target_port = get_env_int vars (codes "TARGET_PORT") parsed.target_port;
      key_file = elim (expand_path home parsed.key_file) [
        | err e ↦ parsed.key_file
        | ok path ↦ path
      ];
    })
  ]
]

-- `ParseConfig`. `load` is `godotenv.Load` of the file named, when it is there, on the environment;
-- `flags` is what the flag package makes of the command line and the defaults, where both flags of
-- cloudflared have the same default and either sets it.
unfoldable pub parse_config :
    (Text → Dict Text → Dict Text) → (Config → Config) → Result Text → Dict Text → Option Config
parse_config load flags home vars =
    let cloudflared_default = get_env_bool vars (codes "CLOUDFLARED") false in
    let show_stats_default = get_env_bool vars (codes "SHOW_UPSTREAM_STATS") false in
    let env_file = get_env vars (codes "ENV_FILE") (codes ".env") in
    let loaded = load env_file vars in
    validated home loaded (flags (defaults cloudflared_default show_stats_default env_file loaded))
