-- ===== src/Env.antt =====
-- What the program calls and does not implement: the clock, the file system, golang.org/x/crypto/ssh,
-- os/exec. The operations act on a state `W` of the world outside, so each call may answer
-- differently. Every model function takes an `Env W`.
use ssh_roundrobin.Prelude.{ℕ, List, Option, ◌/◌, ℤ, sub_ℕ}
use ssh_roundrobin.Text.{Text, Error}
use ssh_roundrobin.Outcome.{Result}

-- A `*ssh.Client`: its embedded interface `Conn`, which a zero value leaves nil.
pub record SshConnection : Type 0 where
  pub conn : Option ℕ

-- An `ssh.AuthMethod`: `ssh.PublicKeys(signer)` or `ssh.Password(secret)`.
pub data SshAuth : Type 0 where
  public_keys : ℕ → SshAuth
  password : Text → SshAuth

-- The fields of `ssh.ClientConfig` that the program sets; every host key is accepted.
pub record ClientConfig : Type 0 where
  pub user : Text
  pub auth : List SshAuth
  pub timeout : ℕ

-- A `time.Time` is the number of nanoseconds since the zero time, January 1 of year 1; a duration
-- that is not negative is a number of nanoseconds.
pub record Env (W : Type 0) : Type 0 where
  -- `time.Now()`
  pub now : W → ℕ × W
  -- `os.ReadFile` and `ssh.ParsePrivateKey`
  pub read_file : Text → W → Result Text × W
  pub parse_private_key : Text → Result ℕ
  -- `ssh.Dial("tcp", addr, config)`
  pub dial_ssh : Text → ClientConfig → W → Result SshConnection × W
  -- `exec.Command(…).StdoutPipe()`, `StdinPipe()` and `Start()`, on one command
  pub stdout_pipe : List Text → W → Option Error × W
  pub stdin_pipe : List Text → W → Option Error × W
  pub start_command : List Text → W → Result ℕ × W
  -- `Close` of the two pipes, `Process.Kill` and `Wait` of a started command
  pub close_stdin : ℕ → W → W
  pub close_stdout : ℕ → W → W
  pub kill_process : ℕ → W → W
  pub wait_process : ℕ → W → W
  -- `ssh.NewClientConn` and `ssh.NewClient` over the pipes of a command
  pub new_client_conn : ℕ → Text → ClientConfig → W → Result SshConnection × W
  -- `net.IP.String`, and `string(b)` of bytes
  pub ip_string : List ℕ → Text
  pub text_of_bytes : List ℕ → Text
  -- `%q`
  pub quote : Text → Text
  -- `Conn.SendRequest("keepalive@openssh.com", true, nil)`
  pub send_keepalive : ℕ → W → Option Error × W
  -- `(*ssh.Client).Dial("tcp", target)` over a transport
  pub dial_target : ℕ → Text → W → Result ℕ × W
  -- `(*ssh.Client).Close`
  pub close_ssh : SshConnection → W → Option Error × W
  -- the callback `RoundRobin.OnConnectionError`, nil or a function
  pub on_connection_error : Option (Text → Error → W → W)

abbrev pub second : ℕ
second = 1_000_000_000

-- `t.Unix()`: seconds since 1970, which is 62135596800 seconds after the zero time.
unfoldable pub unix : ℕ → ℤ
unix t = sub_ℕ (t / second) 62_135_596_800
