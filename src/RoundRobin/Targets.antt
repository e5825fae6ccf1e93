-- ===== src/RoundRobin/Targets.antt =====
-- targetfailure.go: how failures of an upstream-target pair lead to a block, and how a block ends.
use ssh_roundrobin.Prelude.{
  ℕ, ◌+◌, ◌*◌, ◌≤◌, ◌<◌, ◌≡◌, ◌≢◌, false, Option, none, some, List, [], ◌∷◌, arith, ltb, leb,
  if◌then◌else◌, All, ℤ, positive_or,
}
use ssh_roundrobin.Text.{Text, Error, text_eq, text_eq_iff, text_eq_refl}
use ssh_roundrobin.Dict
use ssh_roundrobin.Outcome.{ok, returns}
use ssh_roundrobin.Env.{Env, second}
use ssh_roundrobin.SshClient.Laws.{Connects}
use ssh_roundrobin.RoundRobin.{
  Pool, TargetFailure, target_failure_key, client_addr, report_target_failure,
  report_target_success, cleanup_expired_targets, count_failure, or_zero,
}
use ssh_roundrobin.RoundRobin.View.{blocked, failure_of}
use ssh_roundrobin.RoundRobin.Strategy.{get_for_target}
use ssh_roundrobin.RoundRobin.Strategy.Sound.{get_for_target-Chosen}

abbrev Lacks : ℕ → Text → Type 0
Lacks b = All (λ c. c ≢ b)

-- Two pairs share a record only if they are the same pair: the text before the first bar is the
-- upstream's address.
pub target_failure_key_injective :
    (u v s t : Text)
    → Lacks b'|' u
    → Lacks b'|' v
    → target_failure_key u s ≡ target_failure_key v t
    → (u ≡ v) × (s ≡ t)
unfolding target_failure_key
target_failure_key_injective [] [] s t hu hv e = ground arith
target_failure_key_injective [] (c ∷ v) s t hu (h, hv) e = absurd (h (ground arith))
target_failure_key_injective (c ∷ u) [] s t (h, hu) hv e = absurd (h (ground arith))
target_failure_key_injective (c ∷ u) (d ∷ v) s t (h, hu) (h', hv) e =
    let rest = target_failure_key_injective u v s t hu hv (ground arith) in ground arith

-- The number of failures on record for a pair.
abbrev pub failures_of : {W : Type 0} → Pool W → Text → ℕ → ℕ
failures_of p target r = (or_zero (failure_of p target r)).fail_count

module _ {W : Type 0} (env : Env W) (r : ℕ) (target : Text) (threshold ttl : ℤ) (e : Option Error)
    (p : Pool W) where
  abbrev reported : Pool W
  reported = report_target_failure env (some r) target threshold ttl e p

  abbrev new : TargetFailure
  new =
      (count_failure env (positive_or 1 threshold) (positive_or (600 * second) ttl) e
        (or_zero (failure_of p target r)) p.world).0

  stored :
      (k : Text)
      → Dict.get (Dict.put p.target_failures (target_failure_key (client_addr p r) target) new) k
        ≡ (if text_eq (target_failure_key (client_addr p r) target) k
            then some new
            else Dict.get p.target_failures k)
  stored k = Dict.get-put p.target_failures (target_failure_key (client_addr p r) target) new k

  -- A report on a target that is not empty counts one failure more. At the threshold it blocks the pair for the time to live from
  -- the report on; below it the pair is blocked no longer and no shorter than before. A threshold or
  -- a time that is not positive counts as 1 and as ten minutes. The records under other keys stay.
  pub report_target_failure-blocks :
      target ≢ []
      → (failures_of reported target r ≡ failures_of p target r + 1)
        × ((now : ℕ)
            → blocked reported target now r ≡ (
                if leb (positive_or 1 threshold) (failures_of p target r + 1)
                then ltb now ((env.now p.world).0 + positive_or (600 * second) ttl)
                else blocked p target now r))
        × ((s : ℕ) (other : Text)
            → target_failure_key (client_addr p r) target
              ≢ target_failure_key (client_addr p s) other
            → failure_of reported other s ≡ failure_of p other s)
  unfolding report_target_failure
  report_target_failure-blocks h = (
    ground (arith, stored key, text_eq_refl key),
    λ now. ground (arith, stored key, text_eq_refl key),
    λ s other n. ground (
      arith,
      stored (target_failure_key (client_addr p s) other),
      text_eq_iff key (target_failure_key (client_addr p s) other),
    ),
  )
    where
      key : Text
      key = target_failure_key (client_addr p r) target

-- A reported success ends the block of the pair at once and forgets its failures.
pub report_target_success-unblocks :
    {W : Type 0} (r : ℕ) (target : Text) (p : Pool W)
    → target ≢ []
    → failure_of (report_target_success (some r) target p) target r ≡ none
unfolding report_target_success
report_target_success-unblocks r target p h = ground (
  arith,
  Dict.get-delete p.target_failures (target_failure_key (client_addr p r) target)
      (target_failure_key (client_addr p r) target),
  text_eq_refl (target_failure_key (client_addr p r) target),
)

-- The cleanup ends no block: from its time on, the same pairs are blocked as without it.
pub cleanup_expired_targets-blocked :
    {W : Type 0} (env : Env W) (r : ℕ) (target : Text) (now : ℕ) (p : Pool W)
    → (env.now p.world).0 ≤ now
    → blocked (cleanup_expired_targets env p) target now r ≡ blocked p target now r
unfolding cleanup_expired_targets
cleanup_expired_targets-blocked env r target now p h = ground (
  arith,
  Dict.get-delete_where p.target_failures (λ s. ltb s.blocked_until (env.now p.world).0)
      (target_failure_key (client_addr p r) target),
)

-- A selection for a target that is not empty forgets the failures of the server that it returns: the
-- next report counts one, and with a threshold above 1 it blocks the pair at no time. The SSH library
-- is to return only connections that have their transport.
pub report-after-get :
    {W : Type 0} (env : Env W) (exclude : List Text) (target : Text) (p q : Pool W) (r : ℕ)
    (threshold ttl : ℤ) (e : Option Error)
    → Connects env
    → get_for_target env target exclude p ≡ (returns (ok r), q)
    → target ≢ []
    → 1 < positive_or 1 threshold
    → let after = report_target_failure env (some r) target threshold ttl e q in
      (failures_of after target r ≡ 1) × ((now : ℕ) → blocked after target now r ≡ false)
report-after-get env exclude target p q r threshold ttl e net h t high =
    let forgotten = (get_for_target-Chosen env exclude target p q r net h).forgotten t in
    let told = report_target_failure-blocks env r target threshold ttl e q t in
    (ground (arith, told.0, forgotten), λ now. ground (arith, told.1 now, forgotten))
