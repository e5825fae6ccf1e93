-- ===== src/Proxy/Dial/Attempts.antt =====
-- The attempts of a dial, whatever other goroutines do in between.
use ssh_roundrobin.Prelude.{
  ◌++◌, ℕ, ◌≤◌, ◌≡◌, ◌⊎◌, false, Option, none, some, List, [], ◌∷◌, ℤ, length,
}
use ssh_roundrobin.Text.{Text, Error, codes}
use ssh_roundrobin.Outcome.{Result, ok, err, Outcome, returns, panics}
use ssh_roundrobin.Env.{Env, SshConnection}
use ssh_roundrobin.RoundRobin.{Pool, client_addr}
use ssh_roundrobin.RoundRobin.Strategy.{get_for_target, excluded}
use ssh_roundrobin.Proxy.{Shared}
use ssh_roundrobin.Proxy.Dial.{Dialled, report_failure, track_fail}

abbrev pub Distinct : List Text → Type 0
Distinct [] = Unit
Distinct (a ∷ rest) = (excluded a rest ≡ false) × Distinct rest

module _ {W : Type 0} (env : Env W) (others : Shared W → Shared W) (target : Text)
    (threshold ttl : ℤ) where
  -- A selection without the tried upstreams, in `m`, gave the client `r` and the pool `p`.
  abbrev pub Selected : List Text → Shared W → ℕ → Pool W → Type 0
  Selected tried m r p = get_for_target env target tried m.pool ≡ (returns (ok r), p)

  -- What is shared after the selection, when other goroutines have acted.
  abbrev pub selected : Shared W → Pool W → Shared W
  selected m p = others (record m { pool = p })

  -- The client `r` has the connection `k`.
  abbrev pub Holds : Shared W → ℕ → SshConnection → Type 0
  Holds u r k = (u.pool.clients r).client ≡ some k

  -- The rounds of a dial that failed, from `s` to a state, with the error of the latest and the upstreams
  -- that were tried: each round selects a client without those tried before; it has no connection, or
  -- the dial through its transport gives an error; and the failure is reported to the pool and, of a
  -- dial, to the tracker.
  pub data Rounds (s : Shared W) : Option Error → List Text → Shared W → Type 0 where
    start : Rounds s none [] s
    nil_client :
        {last : Option Error} {tried : List Text} {m : Shared W} {r : ℕ} {p : Pool W}
        → Rounds s last tried m
        → Selected tried m r p
        → ((selected m p).pool.clients r).client ≡ none
        → Rounds s
            (some (client_addr p r ++ codes ": ssh client is nil"))
            (client_addr p r ∷ tried)
            (others (
              report_failure env r target threshold ttl
                (codes "ssh client is nil")
                (others (selected m p))))
    failed_dial :
        {last : Option Error} {tried : List Text} {m : Shared W} {r : ℕ} {p : Pool W}
        {k : SshConnection} {n : ℕ} {e : Error} {w : W}
        → Rounds s last tried m
        → Selected tried m r p
        → Holds (selected m p) r k
        → k.conn ≡ some n
        → env.dial_target n target (selected m p).pool.world ≡ (err e, w)
        → Rounds s
            (some (client_addr p r ++ (codes " failed target " ++ (target ++ (codes ": " ++ e)))))
            (client_addr p r ∷ tried)
            (others (
              report_failure env r target threshold ttl e (
                others (
                  track_fail env (client_addr p r) e (
                    others (record (selected m p) {
                      pool = record (selected m p).pool { world = w };
                    }))))))

  -- What a result says, after failed rounds from `s`. A connection was dialled through the transport of
  -- the client that comes with it, which a selection gave; an error means that `limit` upstreams were
  -- tried, and is that of the latest, or that a selection failed, and is that of the selection with the
  -- latest; a panic is one of a selection or of a dial through a client without a transport.
  abbrev pub Justified : ℕ → Shared W → List Text → Outcome (Result (ℕ × ℕ)) → Type 0
  Justified limit s tried (returns (ok (c, r))) =
      (last : Option Error) × (rest : List Text) × (m : Shared W) × (p : Pool W)
      × (k : SshConnection) × (n : ℕ) × Rounds s last rest m
      × Selected rest m r p
      × (tried ≡ client_addr p r ∷ rest)
      × Holds (selected m p) r k
      × (k.conn ≡ some n)
      × ((env.dial_target n target (selected m p).pool.world).0 ≡ ok c)
  Justified limit s tried (returns (err e)) =
      (last : Option Error) × (m : Shared W) × Rounds s last tried m
      × (((length tried ≡ limit)
            × (e ≡ (elim last [ none ↦ codes "no upstream attempts made" | some l ↦ l ])))
          ⊎ ((x : Error) × ((get_for_target env target tried m.pool).0 ≡ returns (err x))
              × (e ≡ (elim last [ none ↦ x | some l ↦ x ++ (codes "; last dial error: " ++ l) ]))))
  Justified limit s tried panics =
      (last : Option Error) × (rest : List Text) × (m : Shared W) × Rounds s last rest m
      × (((tried ≡ rest) × ((get_for_target env target rest m.pool).0 ≡ panics))
          ⊎ ((p : Pool W) × (r : ℕ) × (k : SshConnection) × Selected rest m r p
              × (tried ≡ client_addr p r ∷ rest)
              × Holds (selected m p) r k
              × (k.conn ≡ none)))

  pub record Attempts (limit : ℕ) (s : Shared W) (d : Dialled W) : Type 0 where
    pub distinct : Distinct d.tried
    pub count : length d.tried ≤ limit
    pub justified : Justified limit s d.tried d.result
