-- ===== src/CommandConn.antt =====
-- internal/sshroundrobin/commandconn.go: a connection over the pipes of a proxy command.
pub mod Deadline
use ssh_roundrobin.Prelude.{
  ℕ, Option, none, some, List, [], ◌++◌, Bool, true, false, if◌then◌else◌, length,
}
use ssh_roundrobin.Text.{
  Text, codes, is_empty, trim_space, to_lower, has_prefix, drop_chars, replace_all, fields,
}
use ssh_roundrobin.Text.Decimal.{itoa}
use ssh_roundrobin.Outcome.{Result, ok, err}
use ssh_roundrobin.Env.{Env, ClientConfig, SshConnection}
use ssh_roundrobin.SshServer.{SshServer, addr}

-- `process` is `cmd.Process`, nil before the command has started.
pub record CommandConn : Type 0 where
  pub command : ℕ
  pub process : Option ℕ
  pub closed : Bool

-- The words of the command to run: an optional leading "ProxyCommand ", then `%h` and `%p` replaced.
unfoldable pub strip_keyword : Text → Text
strip_keyword s =
    if has_prefix (to_lower s) (codes "proxycommand ")
    then trim_space (drop_chars (length (codes "ProxyCommand ")) s)
    else s

unfoldable pub expand : SshServer → Text → Text
expand s command = replace_all (replace_all command (codes "%h") s.host) (codes "%p") (itoa s.port)

module _ {W : Type 0} (env : Env W) where
  unfoldable pub close : CommandConn → W → CommandConn × W
  close c w =
      let w1 = env.close_stdout c.command (env.close_stdin c.command w) in
      let w2 : W = elim c.process [
        | none ↦ w1
        | some p ↦ env.wait_process p (env.kill_process p w1)
      ] in
      if c.closed then (c, w) else (record c { closed = true }, w2)

  -- From the started command on: the handshake, and the connection closed if it fails.
  handshake : SshServer → ClientConfig → ℕ → W → Result SshConnection × W
  unfolding close
  handshake s cfg command w =
      let (r, w1) = env.new_client_conn command (addr s) cfg w in
      elim r [
        | ok client ↦ (ok client, w1)
        | err e ↦ (
          err (codes "proxy ssh handshake failed: " ++ e),
          (close (record { command = command; process = some command; closed = false }) w1).1,
        )
      ]

  run_command : SshServer → ClientConfig → Text → List Text → W → Result SshConnection × W
  unfolding handshake
  run_command s cfg replaced parts w =
      let (out, w1) = env.stdout_pipe parts w in
      elim out [
        | some e ↦ (err (codes "failed to create proxy stdout pipe: " ++ e), w1)
        | none ↦
            let (inp, w2) = env.stdin_pipe parts w1 in
            elim inp [
              | some e ↦ (err (codes "failed to create proxy stdin pipe: " ++ e), w2)
              | none ↦
                  let (started, w3) = env.start_command parts w2 in
                  elim started [
                    | err e ↦ (
                      err (
                          codes "failed to start proxy command "
                          ++ (env.quote replaced ++ (codes ": " ++ e))),
                      w3,
                    )
                    | ok command ↦ handshake s cfg command w3
                  ]
            ]
      ]

  unfoldable pub dial_via_proxy_command : SshServer → ClientConfig → W → Result SshConnection × W
  unfolding run_command strip_keyword expand
  dial_via_proxy_command s cfg w =
      let command = trim_space s.proxy_command in
      let replaced = expand s (strip_keyword command) in
      let parts = fields replaced in
      let run = run_command s cfg replaced parts w in
      if is_empty command
      then (err (codes "empty proxy command"), w)
      else elim parts [ [] ↦ (err (codes "invalid proxy command"), w) | _ ↦ run ]
