-- ===== src/Proxy/Dial.antt =====
-- internal/proxy/dial.go: a target is dialled through one upstream after another. Between two locked
-- calls other goroutines may act: `others` is what they do there, and may depend on all shared state.
pub mod Attempts
use ssh_roundrobin.Prelude.{
  ℕ, zero, suc, Bool, true, false, Option, none, some, List, [], ◌∷◌, ◌++◌, ℤ, positive_or,
  if◌then◌else◌, ◌==◌,
}
use ssh_roundrobin.Text.{Text, Error, codes}
use ssh_roundrobin.Outcome.{Result, ok, err, Outcome, returns, panics}
use ssh_roundrobin.Env.{Env, SshConnection}
use ssh_roundrobin.RoundRobin.{Pool, client_addr, len, report_target_failure}
use ssh_roundrobin.RoundRobin.Strategy.{get_for_target}
use ssh_roundrobin.ServerStatus.{ServerStatusTracker, record_success, record_fail}
use ssh_roundrobin.Proxy.{Shared}

-- How the function ends: the connection and the client, or an error; with the keys of the map
-- `excluded`, the upstreams that were tried, the latest first.
pub record Dialled (W : Type 0) : Type 0 where
  pub result : Outcome (Result (ℕ × ℕ))
  pub tried : List Text
  pub shared : Shared W

unfoldable pub max_rounds : ℤ → ℕ → ℕ
max_rounds max_upstreams n = positive_or (if n == 0 then 1 else n) max_upstreams

-- The error of a failed selection: the dial error before it is appended.
unfoldable pub with_last : Error → Option Error → Error
with_last e none = e
with_last e (some last) = e ++ (codes "; last dial error: " ++ last)

-- The error after all the rounds.
unfoldable pub last_or : Option Error → Error
last_or none = codes "no upstream attempts made"
last_or (some last) = last

module _ {W : Type 0} (env : Env W) where
  -- `if tracker != nil { tracker.RecordSuccess(addr) }`
  unfoldable pub track_success : Text → Shared W → Shared W
  track_success addr s = elim s.tracker [
    | none ↦ s
    | some t ↦
        let (t1, w) = record_success env addr t s.pool.world in
        record { pool = record s.pool { world = w }; tracker = some t1 }
  ]

  unfoldable pub track_fail : Text → Error → Shared W → Shared W
  track_fail addr e s = elim s.tracker [
    | none ↦ s
    | some t ↦
        let (t1, w) = record_fail env addr (some e) t s.pool.world in
        record { pool = record s.pool { world = w }; tracker = some t1 }
  ]

  -- `client.Client()` and, on a connection, `Dial("tcp", target)`; a client without a transport
  -- panics.
  unfoldable pub dial_through : ℕ → Text → Shared W → Option (Outcome (Result ℕ)) × Shared W
  dial_through r target s = elim (s.pool.clients r).client [
    | none ↦ (none, s)
    | some k ↦ elim k.conn [
      | none ↦ (some panics, s)
      | some n ↦
          let (d, w) = env.dial_target n target s.pool.world in
          (some (returns d), record s { pool = record s.pool { world = w } })
    ]
  ]

  unfoldable pub report_failure : ℕ → Text → ℤ → ℤ → Error → Shared W → Shared W
  report_failure r target threshold ttl e s = record s {
    pool = report_target_failure env (some r) target threshold ttl (some e) s.pool;
  }

  -- The rounds that are left, with `lastErr` and `excluded`.
  unfoldable pub dial_rounds :
      ℕ → (Shared W → Shared W) → Text → ℤ → ℤ → Option Error → List Text → Shared W → Dialled W
  dial_rounds zero others target threshold ttl last tried s = record {
    result = returns (err (last_or last));
    tried = tried;
    shared = s;
  }
  dial_rounds (suc rounds) others target threshold ttl last tried s =
      let (o, p) = get_for_target env target tried s.pool in
      let s1 = record s { pool = p } in
      elim o [
        | panics ↦ record { result = panics; tried = tried; shared = s1 }
        | returns x ↦ elim x [
          | err e ↦ record { result = returns (err (with_last e last)); tried = tried; shared = s1 }
          | ok r ↦
              let addr = client_addr p r in
              let (d, s2) = dial_through r target (others s1) in
              elim d [
                | none ↦
                    dial_rounds rounds others target threshold ttl
                      (some (addr ++ codes ": ssh client is nil")) (addr ∷ tried)
                      (others (
                        report_failure r target threshold ttl (codes "ssh client is nil")
                          (others s2)))
                | some y ↦ elim y [
                  | panics ↦ record { result = panics; tried = addr ∷ tried; shared = s2 }
                  | returns z ↦ elim z [
                    | ok c ↦ record {
                      result = returns (ok (c, r));
                      tried = addr ∷ tried;
                      shared = track_success addr (others s2);
                    }
                    | err e ↦
                        dial_rounds rounds others target threshold ttl
                          (some
                            (addr ++ (codes " failed target " ++ (target ++ (codes ": " ++ e)))))
                          (addr ∷ tried)
                          (others (
                            report_failure r target threshold ttl e
                              (others (track_fail addr e (others s2)))))
                  ]
                ]
              ]
        ]
      ]

  unfoldable pub dial_target_with_retries :
      (Shared W → Shared W) → Text → ℤ → ℤ → ℤ → Shared W → Dialled W
  dial_target_with_retries others target max_upstreams threshold ttl s =
      dial_rounds (max_rounds max_upstreams (len s.pool)) others target threshold ttl none [] s
