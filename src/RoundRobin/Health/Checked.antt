-- ===== src/RoundRobin/Health/Checked.antt =====
-- The checks of a health check, one after the other.
use ssh_roundrobin.Prelude.{
  ℕ, zero, suc, ◌+◌, ◌<◌, ◌≡◌, ◌≢◌, refl, sym, ◌∙◌, ap, Bool, true, false, some, List, [], ◌∷◌,
  length, get_or, arith, All,
}
use ssh_roundrobin.Env.{Env}
use ssh_roundrobin.SshClient.{health_check}
use ssh_roundrobin.RoundRobin.{Pool, probe}
use ssh_roundrobin.RoundRobin.View.{up_at}
use ssh_roundrobin.RoundRobin.Strategy.Step.{probe-up, probe-up_at}
use ssh_roundrobin.RoundRobin.Strategy.Cap.{Distinct}
use ssh_roundrobin.RoundRobin.Health.{
  HealthCheckReport, check, record_check, check_connected, check_one, check_each, first_true,
}

module _ {W : Type 0} where
  -- The active server is one of the pool, and connected.
  abbrev pub ActiveUp : Pool W → Type 0
  ActiveUp q =
      (q.has_active ≡ true)
      × (q.active_idx < length q.servers)
      × (up_at q (get_or q.servers q.active_idx 0) ≡ true)

  abbrev pub NoneUp : Pool W → Type 0
  NoneUp q = (q.has_active ≡ false) × All (λ r. up_at q r ≡ false) q.servers

pub first_true_lem :
    (idx i : ℕ) (bs : List Bool)
    → first_true idx bs ≡ some i
    → (k : ℕ) × (i ≡ idx + k) × (k < length bs) × (get_or bs k false ≡ true)
unfolding first_true
first_true_lem idx i [] h = absurd (ground (arith, h))
first_true_lem idx i (true ∷ bs) h = (0, ground (arith, h), omega arith, refl)
first_true_lem idx i (false ∷ bs) h =
    let (k, e, lt, g) = first_true_lem (idx + 1) i bs h in
    (suc k, omega (arith, e), omega (arith, lt), g)

probe_rr : {W : Type 0} (r : ℕ) (p : Pool W) → (probe r p).1.rr ≡ p.rr
unfolding probe
probe_rr r p = refl

module _ {W : Type 0} (env : Env W) where
  -- One check, of the client `r`, from `p` to `q`, with the result `good`.
  record Checks (r : ℕ) (p : Pool W) (good : Bool) (q : Pool W) : Type 0 where
    pub same : q.rr ≡ p.rr
    pub others : (s : ℕ) → r ≢ s → up_at q s ≡ up_at p s
    pub passed : good ≡ true → up_at q r ≡ true

  check_connected-Checks :
      (r : ℕ) (report : HealthCheckReport) (live : Bool) (p : Pool W)
      → up_at p r ≡ live
      → let (good, told, q) = check_connected env live r report p in Checks r p good q
  unfolding check_connected check record_check health_check
  check_connected-Checks r report false p h = record {
    same = refl;
    others = λ s d. refl;
    passed = λ g. absurd (ground (arith, g));
  }
  check_connected-Checks r report true p h = record {
    same = refl;
    others = λ s d. ground (arith, d);
    passed = λ g. ground (arith, g, h);
  }

  check_one-Checks :
      (r : ℕ) (report : HealthCheckReport) (p : Pool W)
      → let (good, told, q) = check_one env r report p in Checks r p good q
  unfolding check_one
  check_one-Checks r report p =
      let c =
        check_connected-Checks r report (probe r p).0 (probe r p).1
          (probe-up_at r r p ∙ sym (probe-up r p)) in
      record {
        same = c.same ∙ probe_rr r p;
        others = λ s d. c.others s d ∙ probe-up_at r s p;
        passed = c.passed;
      }

  -- The first loop over `rs`.
  pub record Passed (rs : List ℕ) (p : Pool W) (goods : List Bool) (q : Pool W) : Type 0 where
    pub same : q.rr ≡ p.rr
    pub size : length goods ≡ length rs
    pub others : (s : ℕ) → All (λ r. s ≢ r) rs → up_at q s ≡ up_at p s
    pub passed :
        Distinct rs
        → (i : ℕ) → i < length rs
        → get_or goods i false ≡ true
        → up_at q (get_or rs i 0) ≡ true

  pub check_each-Passed :
      (rs : List ℕ) (report : HealthCheckReport) (p : Pool W)
      → let (goods, told, q) = check_each env rs report p in Passed rs p goods q
  unfolding check_each
  check_each-Passed [] report p = record {
    same = refl;
    size = refl;
    others = λ s d. refl;
    passed = λ d i lt. absurd (omega (arith, lt));
  }
  check_each-Passed (r ∷ rs) report p =
      let a = check_one env r report p in
      let one = check_one-Checks r report p in
      let rest = check_each-Passed rs a.1 a.2 in
      record {
        same = rest.same ∙ one.same;
        size = ap suc rest.size;
        others = λ s d. rest.others s d.1 ∙ one.others s (λ e. d.0 (sym e));
        passed = λ d i lt good.
            passed_at a.0 (check_each env rs a.1 a.2).0 a.2 (check_each env rs a.1 a.2).2
              (one.passed) d rest i lt good;
      }
    where
      passed_at :
          (good : Bool) (goods : List Bool) (p1 q : Pool W)
          → (good ≡ true → up_at p1 r ≡ true)
          → Distinct (r ∷ rs)
          → Passed rs p1 goods q
          → (i : ℕ) → i < length (r ∷ rs)
          → get_or (good ∷ goods) i false ≡ true
          → up_at q (get_or (r ∷ rs) i 0) ≡ true
      passed_at good goods p1 q one d rest zero lt g = rest.others r d.0 ∙ one g
      passed_at good goods p1 q one d rest (suc i) lt g = rest.passed d.1 i (omega (arith, lt)) g
