-- ===== src/ServerStatus/Persistence.antt =====
-- internal/status/persistence.go: the status file. The periodic flush is `flush` at the ticks of a
-- timer; a null entry in the file, which the program never writes, is outside the model.
pub mod File
use ssh_roundrobin.Prelude.{ℕ, Option, none, some, ◌++◌, if◌then◌else◌}
use ssh_roundrobin.Text.{Text, Error, codes, is_empty}
use ssh_roundrobin.Dict
use ssh_roundrobin.Dict.{Dict}
use ssh_roundrobin.Outcome.{Result, ok, err}
use ssh_roundrobin.Env.{Env}
use ssh_roundrobin.Os.{Os}
use ssh_roundrobin.ServerStatus.{ServerStatusEntry, ServerStatusTracker, snapshot}

pub record StatusFile : Type 0 where
  pub updated_at : ℕ
  pub servers : Dict ServerStatusEntry

-- `json.MarshalIndent(sf, "", "  ")` and `json.Unmarshal`
pub record Json : Type 0 where
  pub marshal : StatusFile → Result Text
  pub unmarshal : Text → Result StatusFile

module _ {W : Type 0} (os : Os W) where
  -- An error after the temporary file `tmp` was created: it is removed.
  unfoldable pub give_up : Text → Error → W → Option Error × W
  give_up tmp e w = (some e, (os.remove tmp w).1)

  -- `Flush` once the temporary file `tmp` is open.
  unfoldable pub replace_file : Text → Text → Text → W → Option Error × W
  replace_file path tmp content w =
      let (write_error, w1) = os.write_temp tmp content w in
      let (close_error, w2) = os.close_temp tmp w1 in
      let (rename_error, w3) = os.rename tmp path w2 in
      elim write_error [
        | some e ↦ give_up tmp (codes "failed to write status: " ++ e) w2
        | none ↦ elim close_error [
          | some e ↦ give_up tmp (codes "failed to close temp file: " ++ e) w2
          | none ↦ elim rename_error [
            | some e ↦ give_up tmp (codes "failed to rename status file: " ++ e) w3
            | none ↦ (none, w3)
          ]
        ]
      ]

module _ {W : Type 0} (env : Env W) (os : Os W) (json : Json) where
  unfoldable pub load : ServerStatusTracker → W → Option Error × ServerStatusTracker × W
  load t w =
      let (file, w1) = env.read_file t.file_path w in
      if is_empty t.file_path then (none, t, w) else elim file [
        | err e ↦
            if os.is_not_exist e
            then (none, t, w1)
            else (some (codes "failed to read status file: " ++ e), t, w1)
        | ok content ↦ elim (json.unmarshal content) [
          | err e ↦ (some (codes "failed to parse status file: " ++ e), t, w1)
          | ok sf ↦ (none, record t { entries = Dict.put_all t.entries sf.servers }, w1)
        ]
      ]

  unfoldable pub flush : ServerStatusTracker → W → Option Error × W
  flush t w =
      let (now, w1) = env.now w in
      let sf : StatusFile = record { updated_at = now; servers = snapshot t } in
      if is_empty t.file_path then (none, w) else elim (json.marshal sf) [
        | err e ↦ (some (codes "failed to marshal status: " ++ e), w1)
        | ok content ↦
            let (created, w2) =
              os.create_temp (os.dir_path t.file_path) (codes ".server_status_*.tmp") w1 in
            elim created [
              | err e ↦ (some (codes "failed to create temp file: " ++ e), w2)
              | ok tmp ↦ replace_file os t.file_path tmp content w2
            ]
      ]
