-- ===== src/Daemon.antt =====
-- internal/daemon/daemon.go: the PID file, and stopping the process that it names.
pub mod Pid
pub mod Stop
pub mod Fork
use ssh_roundrobin.Prelude.{
  ℕ, zero, suc, ◌+◌, ◌*◌, Bool, true, false, not, Option, none, some, List, [], ◌∷◌, ◌++◌, ltb,
  if◌then◌else◌, ◌||◌, ℤ, pos,
}
use ssh_roundrobin.Text.{Text, Error, codes, text_eq, is_empty, trim_space}
use ssh_roundrobin.Text.Decimal.{itoa, atoi}
use ssh_roundrobin.Outcome.{Result, ok, err}
use ssh_roundrobin.Env.{Env, second}
use ssh_roundrobin.Os.{Os}

-- The arguments of the child process: those of this process, `-fg` added unless it is there.
has_fg : List Text → Bool
has_fg [] = false
has_fg (a ∷ rest) = text_eq a (codes "-fg") || has_fg rest

unfoldable pub child_args : Text → List Text → List Text
unfolding has_fg
child_args exec_path args = exec_path ∷ (if has_fg args then args else args ++ codes "-fg" ∷ [])

abbrev pub sigterm : ℕ
sigterm = 15

-- How the wait for a process ends: it is gone, or the deadline has passed. `working` is a wait whose
-- rounds are used up.
pub data Wait : Type 0 where
  gone timed_out working : Wait

-- The deadline is ten seconds away, and a round sleeps a tenth of a second.
abbrev pub stop_rounds : ℕ
stop_rounds = 101

module _ {W : Type 0} (os : Os W) where
  unfoldable pub write_pid : Text → W → Option Error × W
  write_pid pid_file w =
      let (e, w1) = os.write_file pid_file (itoa (os.getpid w) ++ codes "\n") w in
      if is_empty pid_file
      then (none, w)
      else (elim e [ none ↦ none | some x ↦ some (codes "failed to write PID file: " ++ x) ], w1)

  unfoldable pub remove_pid : Text → W → Option Error × W
  remove_pid pid_file w =
      let (e, w1) = os.remove pid_file w in
      if is_empty pid_file then (none, w) else (
        elim e [
          | none ↦ none
          | some x ↦
              if os.is_not_exist x then none else some (codes "failed to remove PID file: " ++ x)
        ],
        w1,
      )

  -- The parent's part: the PID file and the end of its use of the log file. A failed write is a warning.
  unfoldable pub after_fork : Text → ℤ → ℕ → W → W
  after_fork pid_file pid log w =
      let (_, w1) = os.write_file pid_file (itoa pid ++ codes "\n") w in
      os.close_file log (if is_empty pid_file then w else w1)

  -- The file for the output of the child, and what it is for in an error.
  unfoldable pub open_output : Text → W → Result ℕ × W
  open_output log_file w =
      let (log, w1) = os.open_log log_file w in
      let (null, w2) = os.open_null w in
      if is_empty log_file
      then (elim null [ ok n ↦ ok n | err e ↦ err (codes "failed to open /dev/null: " ++ e) ], w2)
      else (
        elim log [ ok n ↦ ok n | err e ↦ err (codes "failed to open log file for daemon: " ++ e) ],
        w1,
      )

  unfoldable pub fork : Text → List Text → Text → ℕ → W → Option Error × W
  fork exec_path args pid_file log w =
      let (r, w1) = os.fork_exec exec_path args log w in
      elim r [
        | err e ↦ (some (codes "failed to fork daemon: " ++ e), os.close_file log w1)
        | ok pid ↦ (none, after_fork pid_file pid log w1)
      ]

  -- `Daemonize`, in the parent.
  unfoldable pub daemonize : Text → Text → W → Option Error × W
  daemonize pid_file log_file w =
      let (exe, w1) = os.executable w in
      elim exe [
        | err e ↦ (some (codes "failed to resolve executable path: " ++ e), w1)
        | ok link ↦
            let (resolved, w2) = os.eval_symlinks link w1 in
            elim resolved [
              | err e ↦ (some (codes "failed to resolve executable symlink: " ++ e), w2)
              | ok path ↦
                  let (out, w3) = open_output log_file w2 in
                  elim out [
                    | err e ↦ (some e, w3)
                    | ok log ↦ fork path (child_args path os.args) pid_file log w3
                  ]
            ]
      ]

module _ {W : Type 0} (env : Env W) (os : Os W) where
  unfoldable pub read_pid : Text → W → Result ℤ × W
  read_pid pid_file w =
      let (file, w1) = env.read_file pid_file w in
      (
        elim file [
          | err e ↦ err (codes "failed to read PID file: " ++ e)
          | ok content ↦ elim (atoi env.quote (trim_space content)) [
            | err e ↦ err (codes "invalid PID in file: " ++ e)
            | ok pid ↦ ok pid
          ]
        ],
        w1,
      )

  -- The third component of the source's result is the error of `Result`.
  unfoldable pub is_running : Text → W → Result (Bool × ℤ) × W
  is_running pid_file w =
      let (r, w1) = read_pid pid_file w in
      elim r [
        | err e ↦ (err e, w1)
        | ok pid ↦
            let (missing, w2) = os.find_process pid w1 in
            elim missing [
              | some e ↦ (ok (false, pid), w2)
              | none ↦
                  let (dead, w3) = os.signal pid 0 w2 in
                  (elim dead [ some e ↦ ok (false, pid) | none ↦ ok (true, pid) ], w3)
            ]
      ]

  -- At most `rounds` rounds of the loop of `Stop`.
  unfoldable pub wait_for_exit : ℕ → ℤ → ℕ → W → Wait × W
  wait_for_exit zero pid deadline w = (working, w)
  wait_for_exit (suc rounds) pid deadline w =
      let (now, w1) = env.now w in
      let (dead, w2) = os.signal pid 0 w1 in
      let rest = wait_for_exit rounds pid deadline (os.sleep 100_000_000 w2) in
      if ltb now deadline then elim dead [ some e ↦ (gone, w2) | none ↦ rest ] else (timed_out, w1)

  unfoldable pub terminate : ℤ → W → Option Error × W
  terminate pid w =
      let (missing, w1) = os.find_process pid w in
      let (refused, w2) = os.signal pid sigterm w1 in
      let (now, w3) = env.now w2 in
      let (how, w4) = wait_for_exit stop_rounds pid (now + 10 * second) w3 in
      let name = itoa pid in
      elim missing [
        | some e ↦ (some (codes "failed to find process " ++ (name ++ (codes ": " ++ e))), w1)
        | none ↦ elim refused [
          | some e ↦
              (some (codes "failed to send SIGTERM to PID " ++ (name ++ (codes ": " ++ e))), w2)
          | none ↦ elim how [
            | gone ↦ (none, w4)
            | _ ↦ (
              some (codes "process " ++ (name ++ codes " did not exit within 10s after SIGTERM")),
              w4,
            )
          ]
        ]
      ]

  unfoldable pub stop : Text → W → Option Error × W
  stop pid_file w =
      let (r, w1) = is_running pid_file w in
      elim r [
        | err e ↦ (some (codes "failed to check daemon status: " ++ e), w1)
        | ok (running, pid) ↦
            let ended = terminate pid w1 in
            if running
            then ended
            else (some (codes "daemon is not running (PID file: " ++ (pid_file ++ codes ")")), w1)
      ]
