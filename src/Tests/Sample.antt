-- ===== src/Tests/Sample.antt =====
-- A small world and a small pool for the tests: the clock advances a second at each reading, every
-- host but "down" accepts connections, and "dead" is the host whose keepalive fails.
use ssh_roundrobin.Prelude.{
  ℕ, ◌+◌, ◌*◌, true, false, none, some, List, [], ◌∷◌, if◌then◌else◌, ◌==◌, pos, arith,
}
use ssh_roundrobin.Text.{Text, codes, text_eq}
use ssh_roundrobin.Dict
use ssh_roundrobin.Outcome.{Result, ok, err, Outcome}
use ssh_roundrobin.Env.{Env, SshConnection, second}
use ssh_roundrobin.Text.Decimal.{itoa}
use ssh_roundrobin.Env
use ssh_roundrobin.SshServer
use ssh_roundrobin.SshServer.{SshServer, auth_password}
use ssh_roundrobin.SshClient
use ssh_roundrobin.RoundRobin
use ssh_roundrobin.RoundRobin.Strategy
use ssh_roundrobin.RoundRobin.Strategy.{get_for_target}
use ssh_roundrobin.SshClient.{SshClient, new_client_lazy}
use ssh_roundrobin.SshClient.Laws.{Connects}
use ssh_roundrobin.RoundRobin.{Pool, RoundRobin, strategy_failover, strategy_load_balance}

abbrev pub transport : SshConnection
transport = record { conn = some 7 }

abbrev dial : Text → Result SshConnection
dial a = if text_eq a (codes "down:22") then err (codes "refused") else ok transport

abbrev pub sample_env : Env ℕ
sample_env = record {
  now = λ w. (63_800_000_000 * second + w * second, w + 1);
  read_file = λ path w. (err (codes "no such file"), w);
  parse_private_key = λ key. err (codes "no key");
  dial_ssh = λ a cfg w. (dial a, w + 1);
  stdout_pipe = λ parts w. (none, w);
  stdin_pipe = λ parts w. (none, w);
  start_command = λ parts w. (err (codes "not found"), w);
  close_stdin = λ n w. w;
  close_stdout = λ n w. w;
  kill_process = λ n w. w;
  wait_process = λ n w. w;
  new_client_conn = λ n a cfg w. (err (codes "no handshake"), w);
  ip_string = λ b. b;
  text_of_bytes = λ b. b;
  quote = λ s. s;
  send_keepalive = λ n w. (none, w + 1);
  dial_target = λ n target w.
      if text_eq target (codes "shut:80")
      then (err (codes "connection refused"), w + 1)
      else (ok (n + 1), w + 1);
  close_ssh = λ k w. (none, w + 1);
  on_connection_error = some (λ a e w. w + 100);
}

pub sample_env-Connects : Connects sample_env
unfolding text_eq
sample_env-Connects = record {
  dial_live = λ a cfg w k h. ground arith;
  handshake_live = λ n a cfg w k h. cc;
}

abbrev server : Text → SshServer
server host = record {
  host = host;
  port = pos 22;
  username = codes "root";
  auth_method = auth_password;
  key_path = [];
  pass_word = codes "secret";
  proxy_command = [];
}

-- The clients 0, 1 and 2 are of the hosts "a", "down" and "c"; the last is connected.
abbrev pub sample_clients : ℕ → SshClient
sample_clients r =
    if r == 0
    then new_client_lazy (server (codes "a"))
    else if r == 1
    then new_client_lazy (server (codes "down"))
    else record (new_client_lazy (server (codes "c"))) { client = some transport; healthy = true }

abbrev pub sample_pool : Text → Pool ℕ
sample_pool strategy = record {
  clients = sample_clients;
  rr = record {
    servers = 1 ∷ 0 ∷ 2 ∷ [];
    index = 0;
    strategy = strategy;
    max_active = 2;
    active_idx = 0;
    has_active = false;
    target_failures = Dict.empty;
  };
  world = 5;
}

-- A selection in the sample world: to open it is to open all that it calls.
unfoldable pub sample_get : Text → List Text → Pool ℕ → Outcome (Result ℕ) × Pool ℕ
unfolding get_for_target text_eq Strategy.get_failover Strategy.failover_at Strategy.clock
    Strategy.scan_next Strategy.failover_scan Strategy.next_index Strategy.try_client Strategy.visit
    Strategy.eligible Strategy.excluded RoundRobin.is_target_blocked Dict.get Dict.empty Dict.delete
    Dict.put Strategy.use_client RoundRobin.probe SshClient.is_connected Strategy.after_active
    Strategy.after_dial Strategy.balance_scan Strategy.clear_active Strategy.ensure
    Strategy.get_load_balance Strategy.mark Strategy.set_active Strategy.try_dial
    RoundRobin.connected_count RoundRobin.notify_connection_error RoundRobin.target_failure_key
    SshClient.bump SshClient.connect SshClient.dial_server SshClient.ensure_connected
    SshClient.mark_selected SshClient.reconnect SshClient.server_addr SshClient.new_client_lazy
    SshServer.addr SshServer.config itoa Env.unix
sample_get target exclude p = get_for_target sample_env target exclude p
