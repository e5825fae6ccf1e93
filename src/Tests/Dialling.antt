-- ===== src/Tests/Dialling.antt =====
-- Dials and the status tracker in the sample world.
use ssh_roundrobin.Prelude.{
  ℕ, ◌≡◌, ◌≤◌, ◌↔◌, refl, true, false, none, some, List, [], ◌∷◌, pos, ltb, length, positive_or,
}
use ssh_roundrobin.Text.{codes}
use ssh_roundrobin.Dict
use ssh_roundrobin.Dict.{has_text, is_some}
use ssh_roundrobin.RoundRobin.{Pool, strategy_failover, len}
use ssh_roundrobin.RoundRobin
use ssh_roundrobin.ServerStatus
use ssh_roundrobin.ServerStatus.{
  ServerStatusTracker, record_fail, new_server_status_tracker, get_entry, get_deprioritized,
  seed_target_failures, entry_or,
}
use ssh_roundrobin.ServerStatus.History.{Report, Summary, after, results_of, get_entry-Summary}
use ssh_roundrobin.ServerStatus.Queries.{fails_in_row, get_deprioritized_lem}
use ssh_roundrobin.Proxy.{Shared}
use ssh_roundrobin.Proxy.Dial
use ssh_roundrobin.Proxy.Dial.{dial_target_with_retries, dial_rounds, max_rounds}
use ssh_roundrobin.Proxy.Dial.Attempts.{Attempts}
use ssh_roundrobin.Tests.Sample.{sample_env, sample_pool, sample_get}

abbrev tracker : ServerStatusTracker
tracker = new_server_status_tracker [] false (pos 0)

abbrev shared : Shared ℕ
shared = record { pool = sample_pool strategy_failover; tracker = some tracker }

-- A target that refuses connections: all the upstreams that connect are tried once.
shut_run :
    (dial_target_with_retries sample_env
      (λ s. s)
      (codes "shut:80")
      (pos 0)
      (pos 1)
      (pos 5)
      shared).tried
    ≡ codes "c:22" ∷ codes "a:22" ∷ []
unfolding sample_get dial_target_with_retries Dial.dial_rounds Dial.dial_through Dial.report_failure
    Dial.track_fail max_rounds RoundRobin.len RoundRobin.report_target_failure
    ServerStatus.record_fail new_server_status_tracker
shut_run = refl

abbrev history : List Report
history =
    record { addr = codes "a:22"; result = some (some (codes "refused")) }
    ∷ record { addr = codes "a:22"; result = some none }
    ∷ record { addr = codes "c:22"; result = none }
    ∷ record { addr = codes "a:22"; result = none }
    ∷ []

get_entry-Summary_example :
    let told = (after sample_env history (new_server_status_tracker [] false (pos 0), 5)).0 in
    (is_some (get_entry told (codes "a:22")) ≡ ltb 0 (length (results_of (codes "a:22") history)))
    × Summary
        (results_of (codes "a:22") history)
        (entry_or (codes "a:22") (get_entry told (codes "a:22")))
get_entry-Summary_example = get_entry-Summary sample_env [] false (pos 0) (codes "a:22") 5 history

-- One failure is on record.
abbrev failing : ServerStatusTracker
failing = (record_fail sample_env (codes "a:22") (some (codes "refused")) tracker 5).0

get_deprioritized_lem_example :
    ((has_text (codes "a:22") (get_deprioritized (pos 1) failing) ≡ true)
      ↔ (positive_or 5 (pos 1) ≤ fails_in_row (get_entry failing (codes "a:22"))))
    × ((n : ℕ)
        → (Dict.get (seed_target_failures (pos 1) failing) (codes "a:22") ≡ some n)
          ↔ ((positive_or 5 (pos 1) ≤ n) × (fails_in_row (get_entry failing (codes "a:22")) ≡ n)))
get_deprioritized_lem_example = get_deprioritized_lem (pos 1) failing (codes "a:22")
