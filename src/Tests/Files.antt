-- ===== src/Tests/Files.antt =====
-- The status file and the daemon in the world of files.
use ssh_roundrobin.Prelude.{◌+◌, ◌*◌, ◌≡◌, ◌≢◌, refl, false, Option, none, some, arith, pos}
use ssh_roundrobin.Text
use ssh_roundrobin.Text.{Text, Error, codes, is_empty, split}
use ssh_roundrobin.Text.Decimal
use ssh_roundrobin.Text.Decimal.{itoa}
use ssh_roundrobin.Dict
use ssh_roundrobin.Dict.{Dict}
use ssh_roundrobin.Outcome.{ok}
use ssh_roundrobin.Env.{second}
use ssh_roundrobin.ServerStatus
use ssh_roundrobin.ServerStatus.{ServerStatusTracker, new_server_status_tracker, record_success}
use ssh_roundrobin.ServerStatus.Persistence
use ssh_roundrobin.ServerStatus.Persistence.{flush}
use ssh_roundrobin.ServerStatus.Persistence.File.{flush_atomic, written}
use ssh_roundrobin.Daemon
use ssh_roundrobin.Daemon.{
  write_pid, read_pid, is_running, stop, sigterm, working, wait_for_exit, stop_rounds,
}
use ssh_roundrobin.Daemon.Pid.{read_pid-write_pid}
use ssh_roundrobin.Daemon.Stop.{stop_rounds_enough, Probed, Probed}
use ssh_roundrobin.Tests.Disk.{
  Disk, disk_env, disk_os, disk-Clock, disk-Files, disk_json, disk-Files_content, disk-reads_back,
}
use ssh_roundrobin.Tests.Settings.{disk}

abbrev pub path : Text
path = codes "status.json"

abbrev tracker : ServerStatusTracker
tracker =
    (record_success disk_env (codes "a:22") (new_server_status_tracker path false (pos 0)) disk).0

abbrev saved : Disk
saved = record disk { files = Dict.put Dict.empty path (codes "old") }

unfoldable flush_sample : Disk → Option Error × Disk
unfolding flush Persistence.replace_file Persistence.give_up record_success
    new_server_status_tracker ServerStatus.get_or_create_entry ServerStatus.succeeded
    ServerStatus.new_entry ServerStatus.snapshot Dict.get Dict.put Dict.empty Dict.delete
    Text.text_eq
flush_sample d = flush disk_env disk_os disk_json tracker d

flush_atomic_example :
    ((e : Error)
      → (flush disk_env disk_os disk_json tracker saved).0 ≡ some e
      → disk-Files.content (flush disk_env disk_os disk_json tracker saved).1 tracker.file_path
        ≡ some (codes "old"))
    × ((flush disk_env disk_os disk_json tracker saved).0 ≡ none
        → (text : Text) × (disk_json.marshal
              (written disk_env disk_os disk-Files disk_json tracker saved)
            ≡ ok text)
          × (disk-Files.content (flush disk_env disk_os disk_json tracker saved).1 tracker.file_path
              ≡ some text))
unfolding flush_sample
flush_atomic_example =
    flush_atomic disk_env disk_os disk-Files disk_json tracker saved (codes "old") refl
      (disk-Files_content saved path)

abbrev pub pid_file : Text
pid_file = codes "p.pid"

abbrev with_pid : Disk
with_pid = (write_pid disk_os pid_file disk).1

read_pid-write_pid_example : (read_pid disk_env disk_os pid_file with_pid).0 ≡ ok (pos 4321)
unfolding write_pid
read_pid-write_pid_example =
    read_pid-write_pid disk_env disk_os pid_file disk with_pid disk-reads_back refl (omega arith)
      refl

stop_rounds_enough_example :
    (wait_for_exit disk_env disk_os stop_rounds
      (pos 7)
      (disk.clock + 10 * second)
      (record disk { clock = disk.clock + second })).0
    ≢ working
stop_rounds_enough_example = stop_rounds_enough disk_env disk_os disk-Clock (pos 7) disk

unfoldable stop_sample : Disk → Option Error × Disk
unfolding stop is_running read_pid Daemon.terminate wait_for_exit Text.trim_space Text.text_eq
    Decimal.atoi Decimal.parse_int Decimal.parse_uint Decimal.parse_digits write_pid itoa Dict.get
    Dict.put Dict.empty
stop_sample d = stop disk_env disk_os pid_file d
