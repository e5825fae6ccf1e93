-- ===== src/RoundRobin/Strategy.antt =====
-- internal/sshroundrobin/strategy.go, with `Get`, `GetForTarget` and `GetWithRetry` of roundrobin.go:
-- the choice of an upstream. The pool's lock is held from the start to the end of a choice.
pub mod Step
pub mod Verdicts
pub mod Loops
pub mod Scan
pub mod Sound
pub mod Passed
pub mod Complete
pub mod Cap
pub mod Wrap
pub mod Active
use ssh_roundrobin.Prelude.{
  ℕ, zero, suc, ◌+◌, ◌-◌, ◌%◌, ◌^◌, Bool, true, false, ◌&&◌, ◌||◌, not, Option, none, some, List,
  [], ◌∷◌, ◌++◌, ltb, ◌==◌, if◌then◌else◌, length, get_elem?, ℤ, positive_or,
}
use ssh_roundrobin.Text.{Text, Error, codes, text_eq}
use ssh_roundrobin.Text.Decimal.{itoa}
use ssh_roundrobin.Outcome.{Result, ok, err, Outcome, returns, panics}
use ssh_roundrobin.Env.{Env}
use ssh_roundrobin.SshClient
use ssh_roundrobin.RoundRobin.{
  Pool, RoundRobin, update, client_addr, probe, connected_count, is_target_blocked,
  notify_connection_error, strategy_failover,
}

-- What the body of a selection loop does with one server: return it, go on, or panic.
pub data Verdict : Type 0 where
  picked skipped crashed : Verdict

-- `_, ok := exclude[addr]`; a nil map has no key.
unfoldable pub excluded : Text → List Text → Bool
excluded a [] = false
excluded a (b ∷ bs) = text_eq b a || excluded a bs

-- `atomic.AddUint32(&rr.index, 1) - 1`: the value before, and the wrapped sum stored.
unfoldable pub next_index : RoundRobin → ℕ × RoundRobin
next_index rr =
    let new = (rr.index + 1) % 2 ^ 32 in ((new + 2 ^ 32 - 1) % 2 ^ 32, record rr { index = new })

abbrev pub no_available : Error
no_available = codes "no available servers"

module _ {W : Type 0} where
  -- The two guards at the head of each loop body.
  unfoldable pub eligible : List Text → Text → ℕ → ℕ → Pool W → Bool × Pool W
  eligible exclude target now r p =
      let (blocked, p1) = is_target_blocked (some r) target now p in
      if excluded (client_addr p r) exclude then (false, p) else (not blocked, p1)

  unfoldable pub set_active : ℕ → Pool W → Pool W
  set_active idx p = record p { rr = record p.rr { active_idx = idx; has_active = true } }

  unfoldable pub clear_active : Pool W → Pool W
  clear_active p = record p { rr = record p.rr { active_idx = 0; has_active = false } }

module _ {W : Type 0} (env : Env W) where
  unfoldable pub clock : Pool W → ℕ × Pool W
  clock p = let (t, w) = env.now p.world in (t, record p { world = w })

  unfoldable pub mark : ℕ → Pool W → Pool W
  mark r p =
      let (_, c, w) = SshClient.mark_selected env (p.clients r) p.world in
      record p { clients = update p.clients r c; world = w }

  -- `client.EnsureConnected()` of the client at `r`.
  unfoldable pub ensure : ℕ → Pool W → Outcome (Option Error) × Pool W
  ensure r p =
      let (o, c, w) = SshClient.ensure_connected env (p.clients r) p.world in
      (o, record p { clients = update p.clients r c; world = w })

  -- A failure to connect is reported and the server passed over.
  unfoldable pub after_dial : ℕ → Outcome (Option Error) → Pool W → Verdict × Pool W
  after_dial r panics p = (crashed, p)
  after_dial r (returns none) p = (picked, mark r p)
  after_dial r (returns (some e)) p = (skipped, notify_connection_error env (client_addr p r) e p)

  unfoldable pub try_dial : ℕ → Pool W → Verdict × Pool W
  try_dial r p = let (o, p1) = ensure r p in after_dial r o p1

  -- `may_dial` is the load balancer's test that fewer than `maxActive` upstreams are connected, and
  -- always true for failover; the second argument is `client.IsConnected()`.
  unfoldable pub use_client : Bool → Bool → ℕ → Pool W → Verdict × Pool W
  use_client may_dial true r p = (picked, mark r p)
  use_client true false r p = try_dial r p
  use_client false false r p = (skipped, p)

  unfoldable pub visit : Bool → Bool → ℕ → Pool W → Verdict × Pool W
  visit may_dial false r p = (skipped, p)
  visit may_dial true r p = let (up, p1) = probe r p in use_client may_dial up r p1

  -- The body of each selection loop at the server `r`.
  unfoldable pub try_client : Bool → List Text → Text → ℕ → ℕ → Pool W → Verdict × Pool W
  try_client may_dial exclude target now r p =
      let (fit, p1) = eligible exclude target now r p in visit may_dial fit r p1

  -- `rounds` iterations are left, `checked` are done; the counter is a uint32.
  unfoldable pub balance_scan :
      ℕ → ℕ → Bool → ℕ → List Text → Text → ℕ → Pool W → Outcome (Result ℕ) × Pool W
  balance_scan zero checked may_dial start exclude target now p = (returns (err no_available), p)
  balance_scan (suc rounds) checked may_dial start exclude target now p =
      elim (get_elem? p.servers ((start + checked) % 2 ^ 32 % length p.servers)) [
        | none ↦ (panics, p)
        | some r ↦
            let (verdict, p1) = try_client may_dial exclude target now r p in
            elim verdict [
              | picked ↦ (returns (ok r), p1)
              | crashed ↦ (panics, p1)
              | skipped ↦ balance_scan rounds (checked + 1) may_dial start exclude target now p1
            ]
      ]

  unfoldable pub get_load_balance : Text → List Text → Pool W → Outcome (Result ℕ) × Pool W
  get_load_balance target exclude p =
      let (connected, p1) = connected_count p in
      let (start, rr) = next_index p1.rr in
      let (now, p2) = clock (record p1 { rr = rr }) in
      balance_scan (length p2.servers) 0 (ltb connected p2.max_active) start exclude target now p2

  -- The loop of failover passes over the active server, which was tried before.
  unfoldable pub failover_scan :
      ℕ → ℕ → ℕ → List Text → Text → ℕ → Pool W → Outcome (Result ℕ) × Pool W
  failover_scan zero checked start exclude target now p =
      (returns (err no_available), clear_active p)
  failover_scan (suc rounds) checked start exclude target now p =
      let idx = (start + checked) % length p.servers in
      let next = failover_scan rounds (checked + 1) start exclude target now p in
      elim (p.has_active && (idx == p.active_idx)) [
        | true ↦ next
        | false ↦ elim (get_elem? p.servers idx) [
          | none ↦ (panics, p)
          | some r ↦
              let (verdict, p1) = try_client true exclude target now r p in
              elim verdict [
                | picked ↦ (returns (ok r), set_active idx p1)
                | crashed ↦ (panics, p1)
                | skipped ↦ failover_scan rounds (checked + 1) start exclude target now p1
              ]
        ]
      ]

  -- The label `scanNext`.
  unfoldable pub scan_next : List Text → Text → ℕ → Pool W → Outcome (Result ℕ) × Pool W
  scan_next exclude target now p =
      let n = length p.servers in
      let (counter, rr) = next_index p.rr in
      let after = failover_scan n 0 ((p.active_idx + 1) % n) exclude target now p in
      let fresh = failover_scan n 0 (counter % n) exclude target now (record p { rr = rr }) in
      if p.has_active && ltb 0 n then after else fresh

  -- What the active server's verdict leads to.
  unfoldable pub after_active :
      Verdict → List Text → Text → ℕ → ℕ → Pool W → Outcome (Result ℕ) × Pool W
  after_active picked exclude target now r p = (returns (ok r), p)
  after_active crashed exclude target now r p = (panics, p)
  after_active skipped exclude target now r p = scan_next exclude target now p

  -- `get_failover` once the clock is read.
  unfoldable pub failover_at : List Text → Text → ℕ → Pool W → Outcome (Result ℕ) × Pool W
  failover_at exclude target now p =
      let scanned = scan_next exclude target now p in
      if p.has_active && ltb p.active_idx (length p.servers)
      then elim (get_elem? p.servers p.active_idx) [
        | none ↦ (panics, p)
        | some r ↦
            let (verdict, p1) = try_client true exclude target now r p in
            after_active verdict exclude target now r p1
      ]
      else scanned

  unfoldable pub get_failover : Text → List Text → Pool W → Outcome (Result ℕ) × Pool W
  get_failover target exclude p = let (now, p1) = clock p in failover_at exclude target now p1

  unfoldable pub get_for_target : Text → List Text → Pool W → Outcome (Result ℕ) × Pool W
  get_for_target target exclude p =
      let failover = get_failover target exclude p in
      let balance = get_load_balance target exclude p in
      if length p.servers == 0
      then (returns (err (codes "no servers available")), p)
      else if text_eq p.strategy strategy_failover
      then failover
      else balance

  unfoldable pub get_any : Pool W → Outcome (Result ℕ) × Pool W
  get_any p = get_for_target [] [] p

  -- `others` is what other goroutines do to the pool while this one sleeps without the lock.
  unfoldable pub retry_from :
      ℕ → ℤ → Error → (Pool W → Pool W) → Pool W → Outcome (Result ℕ) × Pool W
  retry_from zero total last others p =
      (returns (err (codes "failed after " ++ (itoa total ++ (codes " retries: " ++ last)))), p)
  retry_from (suc rounds) total last others p =
      let (o, p1) = get_for_target [] [] p in
      elim o [
        | panics ↦ (panics, p1)
        | returns r ↦ elim r [
          | ok c ↦ (returns (ok c), p1)
          | err e ↦ retry_from rounds total e others (others p1)
        ]
      ]

  -- `%w` of the nil error of a loop that makes no round prints as below.
  unfoldable pub get_with_retry : ℤ → (Pool W → Pool W) → Pool W → Outcome (Result ℕ) × Pool W
  get_with_retry max_retries others p =
      retry_from (positive_or 0 max_retries) max_retries (codes "%!w(<nil>)") others p
