-- ===== src/ServerStatus.antt =====
-- internal/status/serverstatus.go: what the program remembers of each upstream's dials.
pub mod History
pub mod Queries
pub mod Persistence
use ssh_roundrobin.Prelude.{
  ℕ, ◌+◌, ◌%◌, ◌^◌, ◌*◌, Bool, true, false, not, Option, none, some, List, [], ◌∷◌, leb, ltb,
  if◌then◌else◌, ℤ, positive_or,
}
use ssh_roundrobin.Text.{Text, Error, codes}
use ssh_roundrobin.Dict
use ssh_roundrobin.Dict.{Dict}
use ssh_roundrobin.Env.{Env, second}

-- The zero time is 0.
pub record ServerStatusEntry : Type 0 where
  pub addr : Text
  pub status : Text
  pub last_checked : ℕ
  pub consecutive_ok : ℕ
  pub consecutive_fail : ℕ
  pub total_success : ℕ
  pub total_fail : ℕ
  pub last_error : Text

-- The entries are reached only through the tracker, so a pointer to an entry is the entry.
pub record ServerStatusTracker : Type 0 where
  pub entries : Dict ServerStatusEntry
  pub file_path : Text
  pub log_changes : Bool
  pub flush_interval : ℕ

abbrev pub status_success : Text
status_success = codes "success"

abbrev pub status_fail : Text
status_fail = codes "fail"

unfoldable pub new_server_status_tracker : Text → Bool → ℤ → ServerStatusTracker
new_server_status_tracker file_path log_changes flush_interval = record {
  entries = Dict.empty;
  file_path = file_path;
  log_changes = log_changes;
  flush_interval = positive_or (30 * second) flush_interval;
}

-- What a new entry of `getOrCreateEntry` holds.
unfoldable pub new_entry : Text → ServerStatusEntry
new_entry addr = record {
  addr = addr;
  status = status_success;
  last_checked = 0;
  consecutive_ok = 0;
  consecutive_fail = 0;
  total_success = 0;
  total_fail = 0;
  last_error = [];
}

abbrev pub entry_or : Text → Option ServerStatusEntry → ServerStatusEntry
entry_or addr none = new_entry addr
entry_or addr (some e) = e

unfoldable pub get_or_create_entry : Text → ServerStatusTracker → ServerStatusEntry
get_or_create_entry addr t = entry_or addr (Dict.get t.entries addr)

-- What one success or failure makes of an entry; the totals are uint64.
unfoldable pub succeeded : ℕ → ServerStatusEntry → ServerStatusEntry
succeeded now e = record e {
  status = status_success;
  last_checked = now;
  consecutive_ok = e.consecutive_ok + 1;
  consecutive_fail = 0;
  total_success = (e.total_success + 1) % 2 ^ 64;
  last_error = [];
}

-- A nil error leaves the last error.
abbrev pub error_text : Option Error → Text → Text
error_text none last = last
error_text (some e) last = e

unfoldable pub failed : ℕ → Option Error → ServerStatusEntry → ServerStatusEntry
failed now e entry = record entry {
  status = status_fail;
  last_checked = now;
  consecutive_fail = entry.consecutive_fail + 1;
  consecutive_ok = 0;
  total_fail = (entry.total_fail + 1) % 2 ^ 64;
  last_error = error_text e entry.last_error;
}

abbrev pub put_entry : Text → ServerStatusEntry → ServerStatusTracker → ServerStatusTracker
put_entry addr e t = record t { entries = Dict.put t.entries addr e }

unfoldable pub record_success :
    {W : Type 0} → Env W → Text → ServerStatusTracker → W → ServerStatusTracker × W
unfolding succeeded get_or_create_entry
record_success env addr t w =
    let (now, w1) = env.now w in (put_entry addr (succeeded now (get_or_create_entry addr t)) t, w1)

unfoldable pub record_fail :
    {W : Type 0} → Env W → Text → Option Error → ServerStatusTracker → W → ServerStatusTracker × W
unfolding failed get_or_create_entry
record_fail env addr e t w =
    let (now, w1) = env.now w in (put_entry addr (failed now e (get_or_create_entry addr t)) t, w1)

unfoldable pub get_entry : ServerStatusTracker → Text → Option ServerStatusEntry
get_entry t addr = Dict.get t.entries addr

-- A copy of every entry.
unfoldable pub snapshot : ServerStatusTracker → Dict ServerStatusEntry
snapshot t = t.entries

unfoldable pub seed_target_failures : ℤ → ServerStatusTracker → Dict ℕ
seed_target_failures fail_threshold t =
    Dict.collect (λ e. leb (positive_or 5 fail_threshold) e.consecutive_fail)
      (λ e. e.consecutive_fail) t.entries

-- Go's order of the keys is not fixed.
unfoldable pub get_deprioritized : ℤ → ServerStatusTracker → List Text
get_deprioritized threshold t =
    Dict.keys
      (Dict.collect (λ e. leb (positive_or 5 threshold) e.consecutive_fail) (λ e. e) t.entries)
