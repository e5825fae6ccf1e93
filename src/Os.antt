-- ===== src/Os.antt =====
-- The operating system as the outer parts of the program call it: files, users, processes, sleeping.
-- Like `Env`, its operations act on the world outside.
use ssh_roundrobin.Prelude.{ℕ, List, Option, Bool, ℤ}
use ssh_roundrobin.Text.{Text, Error}
use ssh_roundrobin.Outcome.{Result}

pub record Os (W : Type 0) : Type 0 where
  -- `user.Current()`, of which only `HomeDir` is used, and `os.UserHomeDir()`
  pub current_user_home : W → Result Text × W
  pub user_home_dir : W → Result Text × W
  -- `filepath.Join` and `filepath.Dir`
  pub join_path : List Text → Text
  pub dir_path : Text → Text
  -- the error of `os.Stat`, if it gives one
  pub stat : Text → W → Option Error × W
  -- `os.Open` with a `bufio.Scanner` on the file: the lines scanned and `scanner.Err()`
  pub scan_lines : Text → W → Result (List Text × Option Error) × W
  -- `os.WriteFile`, `os.Remove` and `os.IsNotExist`
  pub write_file : Text → Text → W → Option Error × W
  pub remove : Text → W → Option Error × W
  pub is_not_exist : Error → Bool
  -- `os.CreateTemp`, which gives the name of a new open file; `Write`, `Close` of it; `os.Rename`
  pub create_temp : Text → Text → W → Result Text × W
  pub write_temp : Text → Text → W → Option Error × W
  pub close_temp : Text → W → Option Error × W
  pub rename : Text → Text → W → Option Error × W
  -- `os.Getpid`, the error of `os.FindProcess`, `process.Signal`
  pub getpid : W → ℤ
  pub find_process : ℤ → W → Option Error × W
  pub signal : ℤ → ℕ → W → Option Error × W
  -- `time.Sleep`
  pub sleep : ℕ → W → W
  -- `os.Executable`, `filepath.EvalSymlinks`, and `os.Args[1:]`
  pub executable : W → Result Text × W
  pub eval_symlinks : Text → W → Result Text × W
  pub args : List Text
  -- `os.OpenFile` of a log file to append to, and of `os.DevNull` to write to; `Close` of an open file
  pub open_log : Text → W → Result ℕ × W
  pub open_null : W → Result ℕ × W
  pub close_file : ℕ → W → W
  -- `syscall.ForkExec` with the executable, the arguments and the file for both outputs
  pub fork_exec : Text → List Text → ℕ → W → Result ℤ × W
  -- `net.Listen("tcp", addr)`, and `Close` of the listener
  pub listen : Text → W → Result ℕ × W
  pub close_listener : ℕ → W → W
