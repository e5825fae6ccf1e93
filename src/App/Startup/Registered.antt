-- ===== src/App/Startup/Registered.antt =====
-- The pool that the start of the program builds.
use ssh_roundrobin.Prelude.{
  ℕ, ◌+◌, ◌≤◌, ◌<◌, ◌≡◌, ◌≢◌, refl, sym, ◌∙◌, ap, subst, false, Option, some, List, [], ◌∷◌, ◌++◌,
  length, append-nil, append_assoc, All, All-append, arith, ltb, if◌then◌else◌, Bool-cases, inl,
  inr, ◌⊎◌,
}
use mathlib.Core.Path.{ap₂}
use ssh_roundrobin.Text.{Text, Error}
use ssh_roundrobin.Outcome.{ok, error_or_ok}
use ssh_roundrobin.Env.{Env}
use ssh_roundrobin.Os.{Os}
use ssh_roundrobin.SshServer.{SshServer}
use ssh_roundrobin.SshClient.{SshClient, new_client, new_client_lazy}
use ssh_roundrobin.SshClient.Laws.{up}
use ssh_roundrobin.RoundRobin.{Pool, RoundRobin, update, add, new_round_robin}
use ssh_roundrobin.RoundRobin.Strategy.Scan.{up_count}
use ssh_roundrobin.RoundRobin.Strategy.Cap.{Distinct}
use ssh_roundrobin.RoundRobin.Valid.{Valid, new_round_robin-Valid}
use ssh_roundrobin.ServerStatus.{ServerStatusTracker, new_server_status_tracker, record_fail}
use ssh_roundrobin.ServerStatus.Persistence.{Json, load}
use ssh_roundrobin.Config.Servers.{parse_servers_file}
use ssh_roundrobin.App.Startup.{
  Started, fatal, Startup, Settings, started, eager_limit, register, connect_server, connect_each,
  connect_servers, empty_pool, seconds,
}

Distinct-append : (l : List ℕ) (n : ℕ) → Distinct l → All (λ r. r < n) l → Distinct (l ++ n ∷ [])
Distinct-append [] n d h = (tt, tt)
Distinct-append (x ∷ l) n (apart, d) (lt, h) = (
  All-append (λ y. x ≢ y) l (n ∷ []) apart (λ e. omega (arith, e, lt), tt),
  Distinct-append l n d h,
)

below_suc : (l : List ℕ) (n : ℕ) → All (λ r. r < n) l → All (λ r. r < n + 1) (l ++ n ∷ [])
below_suc [] n h = (omega arith, tt)
below_suc (x ∷ l) n (lt, h) = (omega (arith, lt), below_suc l n h)

abbrev pub some_each : List SshServer → List (Option SshServer)
some_each [] = []
some_each (s ∷ l) = some s ∷ some_each l

some_each-append :
    (l : List SshServer) (s : SshServer) → some_each (l ++ s ∷ []) ≡ some_each l ++ some s ∷ []
some_each-append [] s = refl
some_each-append (t ∷ l) s = ap (◌∷◌ (some t)) (some_each-append l s)

module _ {W : Type 0} where
  -- The settings of the servers in a list of pointers.
  abbrev pub servers_of : Pool W → List ℕ → List (Option SshServer)
  servers_of p [] = []
  servers_of p (r ∷ rs) = (p.clients r).server ∷ servers_of p rs

  module _ (p : Pool W) (n : ℕ) (c : SshClient) (rr : RoundRobin) (w : W) where
    abbrev q : Pool W
    q = record { clients = update p.clients n c; rr = rr; world = w }

    servers_of-append :
        (l : List ℕ)
        → All (λ r. r < n) l
        → servers_of q (l ++ n ∷ []) ≡ servers_of p l ++ c.server ∷ []
    servers_of-append [] h = ground arith
    servers_of-append (r ∷ l) (lt, h) = ground (arith, lt, servers_of-append l h)

    up_count-append :
        (l : List ℕ)
        → All (λ r. r < n) l
        → up_count q (l ++ n ∷ []) ≡ up_count p l + (if up c then 1 else 0)
    up_count-append [] h = ground arith
    up_count-append (r ∷ l) (lt, h) = ground (arith, lt, up_count-append l h)

  -- The servers `l` are registered: one client for each, in their order, no client twice, and no
  -- more clients connected than the eager connections counted, which are within the limit.
  pub record Registered (limit : ℕ) (l : List SshServer) (s : Startup W) : Type 0 where
    pub below : All (λ r. r < s.fresh) s.pool.servers
    pub distinct : Distinct s.pool.servers
    pub settings : servers_of s.pool s.pool.servers ≡ some_each l
    pub live : up_count s.pool s.pool.servers ≤ s.connected
    pub limited : s.connected ≤ limit
    pub idle : s.pool.has_active ≡ false
    pub valid : Valid s.pool.rr

  -- One client more, in any world and with any tracker.
  register-Registered :
      (limit connected : ℕ) (l : List SshServer) (server : SshServer) (c : SshClient)
      (t : ServerStatusTracker) (w : W) (s : Startup W)
      → Registered limit l s
      → c.server ≡ some server
      → s.connected + (if up c then 1 else 0) ≤ connected
      → connected ≤ limit
      → Registered limit (l ++ server ∷ []) (
          register c
            (record s { pool = record s.pool { world = w }; tracker = t; connected = connected }))
  unfolding register add
  register-Registered limit connected l server c t w s r e le fits = record {
    below = below_suc s.pool.servers s.fresh r.below;
    distinct = Distinct-append s.pool.servers s.fresh r.distinct r.below;
    settings =
        servers_of-append s.pool s.fresh c rr w s.pool.servers r.below
        ∙ ap₂ (λ a b. a ++ b ∷ []) r.settings e
        ∙ sym (some_each-append l server);
    live = omega (arith, up_count-append s.pool s.fresh c rr w s.pool.servers r.below, r.live, le);
    limited = fits;
    idle = r.idle;
    valid = record {
      active_in_range = λ h. cc (h, r.idle);
      limit_positive = r.valid.limit_positive;
      counter_fits = r.valid.counter_fits;
    };
  }
    where
      rr : RoundRobin
      rr = record s.pool.rr { servers = s.pool.servers ++ s.fresh ∷ [] }

module _ {W : Type 0} (env : Env W) (limit : ℕ) where
  new_client-server :
      (server : SshServer) (c : SshClient) (w : W)
      → (new_client env server w).0 ≡ ok c
      → c.server ≡ some server
  unfolding new_client new_client_lazy
  new_client-server server c w h = ground (arith, h)

  lazy-Registered :
      (l : List SshServer) (server : SshServer) (t : ServerStatusTracker) (w : W) (s : Startup W)
      → Registered limit l s
      → Registered limit (l ++ server ∷ []) (
          register
            (new_client_lazy server)
            (record s { pool = record s.pool { world = w }; tracker = t }))
  lazy-Registered l server t w s r =
      register-Registered limit s.connected l server (new_client_lazy server) t w s r
        (unfold new_client_lazy in refl) (unfold new_client_lazy in omega arith) r.limited

  connect_server-Registered :
      (l : List SshServer) (server : SshServer) (s : Startup W)
      → Registered limit l s
      → Registered limit (l ++ server ∷ []) (connect_server env limit server s)
  unfolding connect_server
  connect_server-Registered l server s r = elim (Bool-cases (ltb s.connected limit)) [
    | inr b ↦ rw (b, connect_server) (lazy-Registered l server s.tracker s.pool.world s r)
    | inl b ↦
        let w = (new_client env server s.pool.world).1 in
        elim (error_or_ok (new_client env server s.pool.world).0) [
          | inl (e, h) ↦ rw (b, h, connect_server) (lazy-Registered l server _ _ s r)
          | inr (c, h) ↦
              rw (b, h, connect_server)
                (register-Registered limit (s.connected + 1) l server c s.tracker w s r
                  (new_client-server server c s.pool.world h) (ground arith) (ground (arith, b)))
        ]
  ]

  connect_each-Registered :
      (rest l : List SshServer) (s : Startup W)
      → Registered limit l s
      → Registered limit (l ++ rest) (connect_each env limit rest s)
  unfolding connect_each
  connect_each-Registered [] l s r = subst (λ x. Registered limit x s) (sym (append-nil l)) r
  connect_each-Registered (server ∷ rest) l s r =
      subst
        (λ x. Registered limit x (connect_each env limit rest (connect_server env limit server s)))
        (append_assoc l (server ∷ []) rest)
        (connect_each-Registered rest (l ++ server ∷ []) (connect_server env limit server s)
          (connect_server-Registered l server s r))

-- The callback of the pool records a failure in the tracker.
abbrev pub Reports : {W : Type 0} → Env W → Startup W → Type 0
Reports {W} env s =
    (upstream : Text) (e : Error) (t : ServerStatusTracker) (v : W)
    → s.on_connection_error upstream e (t, v) ≡ record_fail env upstream (some e) t v

module _ {W : Type 0} (env : Env W) (limit : ℕ) where
  connect_server-Reports :
      (server : SshServer) (s : Startup W)
      → Reports env s
      → Reports env (connect_server env limit server s)
  unfolding connect_server register
  connect_server-Reports server s r = elim (Bool-cases (ltb s.connected limit)) [
    | inr b ↦ rw (b, connect_server) r
    | inl b ↦ elim (error_or_ok (new_client env server s.pool.world).0) [
      | inl (e, h) ↦ rw (b, h, connect_server) r
      | inr (c, h) ↦ rw (b, h, connect_server) r
    ]
  ]

  connect_each-Reports :
      (rest : List SshServer) (s : Startup W)
      → Reports env s
      → Reports env (connect_each env limit rest s)
  unfolding connect_each
  connect_each-Reports [] s r = r
  connect_each-Reports (server ∷ rest) s r =
      connect_each-Reports rest (connect_server env limit server s)
        (connect_server-Reports server s r)

empty_pool-Registered :
    {W : Type 0} (env : Env W) (limit : ℕ) (c : Settings) (heap : ℕ → SshClient)
    (t : ServerStatusTracker) (w : W)
    → Registered limit [] (empty_pool env c heap t w)
unfolding empty_pool new_round_robin
empty_pool-Registered env limit c heap t w = record {
  below = tt;
  distinct = tt;
  settings = refl;
  live = omega arith;
  limited = omega arith;
  idle = refl;
  valid = new_round_robin-Valid c.strategy c.max_active_upstreams;
}

pub Started-cases :
    {W : Type 0} (x : Started W)
    → ((e : Error) × (w : W) × (x ≡ fatal e w)) ⊎ ((s : Startup W) × (x ≡ started s))
Started-cases (fatal e w) = inl (e, w, refl)
Started-cases (started s) = inr (s, refl)

pub connect_servers-Registered :
    {W : Type 0} (env : Env W) (os : Os W) (json : Json) (c : Settings) (heap : ℕ → SshClient)
    (w : W) (s : Startup W)
    → connect_servers env os json c heap w ≡ started s
    → (l : List SshServer) × ((parse_servers_file env os c.options c.servers_file w).0 ≡ ok l)
      × (0 < length l)
      × Registered (eager_limit c) l s
      × Reports env s
unfolding connect_servers empty_pool
connect_servers-Registered {W} env os json c heap w s h =
    elim (error_or_ok (parse_servers_file env os c.options c.servers_file w).0) [
      | inl (e, p) ↦ absurd (ground (arith, h, p))
      | inr ([], p) ↦ absurd (ground (arith, h, p))
      | inr (server ∷ rest, p) ↦ (
        server ∷ rest,
        p,
        omega arith,
        subst (Registered (eager_limit c) (server ∷ rest)) (begins server rest p) (
            connect_each-Registered env (eager_limit c) (server ∷ rest) [] begun
              (empty_pool-Registered env (eager_limit c) c heap _ _)),
        subst (Reports env) (begins server rest p)
            (connect_each-Reports env (eager_limit c) (server ∷ rest) begun (λ u e t v. refl)),
      )
    ]
  where
    tracker : ServerStatusTracker
    tracker = new_server_status_tracker c.status_file c.status_log (seconds c.status_flush_sec)

    world : W
    world = (parse_servers_file env os c.options c.servers_file w).1

    begun : Startup W
    begun =
        empty_pool env c heap (load env os json tracker world).1 (load env os json tracker world).2

    begins :
        (server : SshServer) (rest : List SshServer)
        → (parse_servers_file env os c.options c.servers_file w).0 ≡ ok (server ∷ rest)
        → connect_each env (eager_limit c) (server ∷ rest) begun ≡ s
    begins server rest p = ground (arith, h, p)
