-- ===== src/RoundRobin/Strategy/Loops.antt =====
-- The induction rules of the two selection loops: an invariant `P` of the rounds done and the pool,
-- and a postcondition `Q` of the outcome and the pool.
use ssh_roundrobin.Prelude.{
  ℕ, zero, suc, ◌+◌, ◌%◌, ◌^◌, ◌≡◌, refl, Bool, true, false, ◌&&◌, none, some, List, arith, ◌==◌,
  ◌⊎◌, inl, inr, Option-cases, Bool-cases, length, get_elem?, ◌<◌,
}
use ssh_roundrobin.Text.{Text}
use ssh_roundrobin.Outcome.{Result, ok, err, Outcome, returns, panics}
use ssh_roundrobin.Env.{Env}
use ssh_roundrobin.RoundRobin.{Pool}
use ssh_roundrobin.RoundRobin.Strategy.{
  Verdict, picked, skipped, crashed, try_client, balance_scan, failover_scan, set_active,
  clear_active, no_available,
}

pub Verdict-cases : (v : Verdict) → (v ≡ picked) ⊎ (v ≡ skipped) ⊎ (v ≡ crashed)
Verdict-cases picked = inl refl
Verdict-cases skipped = inr (inl refl)
Verdict-cases crashed = inr (inr refl)

-- The server index that the load balancer's round `c` visits, and that of failover.
abbrev pub balance_idx : {W : Type 0} → ℕ → ℕ → Pool W → ℕ
balance_idx start c p = (start + c) % 2 ^ 32 % length p.servers

abbrev pub failover_idx : {W : Type 0} → ℕ → ℕ → Pool W → ℕ
failover_idx start c p = (start + c) % length p.servers

module _ {W : Type 0} (env : Env W) (exclude : List Text) (target : Text) (now : ℕ) where
  abbrev pub visited : Bool → ℕ → Pool W → Verdict × Pool W
  visited may r p = try_client env may exclude target now r p

  module _ {ℓ κ} (may : Bool) (start total : ℕ) (P : ℕ → Pool W → Type ℓ)
      (Q : Outcome (Result ℕ) × Pool W → Type κ)
      (stop : (p : Pool W) → P total p → Q (returns (err no_available), p))
      (out : (c : ℕ) (p : Pool W)
        → c < total
        → P c p
        → get_elem? p.servers (balance_idx start c p) ≡ none
        → Q (panics, p))
      (pick : (c r : ℕ) (p : Pool W)
        → c < total
        → P c p
        → get_elem? p.servers (balance_idx start c p) ≡ some r
        → (visited may r p).0 ≡ picked
        → Q (returns (ok r), (visited may r p).1))
      (crash : (c r : ℕ) (p : Pool W)
        → c < total
        → P c p
        → get_elem? p.servers (balance_idx start c p) ≡ some r
        → (visited may r p).0 ≡ crashed
        → Q (panics, (visited may r p).1))
      (skip : (c r : ℕ) (p : Pool W)
        → c < total
        → P c p
        → get_elem? p.servers (balance_idx start c p) ≡ some r
        → (visited may r p).0 ≡ skipped
        → P (c + 1) (visited may r p).1) where
    pub balance_scan_rule :
        (rounds c : ℕ) (p : Pool W)
        → rounds + c ≡ total
        → P c p
        → Q (balance_scan env rounds c may start exclude target now p)
    unfolding balance_scan
    balance_scan_rule zero c p e h = stop p (let e' : c ≡ total = omega arith in rw (← e') h)
    balance_scan_rule (suc rounds) c p e h =
        elim (Option-cases (get_elem? p.servers (balance_idx start c p))) [
          | inl at ↦ rw (at, balance_scan) (out c p (omega arith) h at)
          | inr (r, at) ↦ elim (Verdict-cases (visited may r p).0) [
            | inl v ↦ rw (at, v, balance_scan) (pick c r p (omega arith) h at v)
            | inr (inl v) ↦
                rw (at, v, balance_scan)
                  (balance_scan_rule rounds (c + 1) (visited may r p).1 (omega arith)
                    (skip c r p (omega arith) h at v))
            | inr (inr v) ↦ rw (at, v, balance_scan) (crash c r p (omega arith) h at v)
          ]
        ]

  module _ {ℓ κ} (start total : ℕ) (P : ℕ → Pool W → Type ℓ)
      (Q : Outcome (Result ℕ) × Pool W → Type κ)
      (stop : (p : Pool W) → P total p → Q (returns (err no_available), clear_active p))
      (pass : (c : ℕ) (p : Pool W)
        → c < total
        → P c p
        → (p.has_active && (failover_idx start c p == p.active_idx)) ≡ true
        → P (c + 1) p)
      (out : (c : ℕ) (p : Pool W)
        → c < total
        → P c p
        → get_elem? p.servers (failover_idx start c p) ≡ none
        → Q (panics, p))
      (pick : (c r : ℕ) (p : Pool W)
        → c < total
        → P c p
        → get_elem? p.servers (failover_idx start c p) ≡ some r
        → (visited true r p).0 ≡ picked
        → Q (returns (ok r), set_active (failover_idx start c p) (visited true r p).1))
      (crash : (c r : ℕ) (p : Pool W)
        → c < total
        → P c p
        → get_elem? p.servers (failover_idx start c p) ≡ some r
        → (visited true r p).0 ≡ crashed
        → Q (panics, (visited true r p).1))
      (skip : (c r : ℕ) (p : Pool W)
        → c < total
        → P c p
        → (p.has_active && (failover_idx start c p == p.active_idx)) ≡ false
        → get_elem? p.servers (failover_idx start c p) ≡ some r
        → (visited true r p).0 ≡ skipped
        → P (c + 1) (visited true r p).1) where
    pub failover_scan_rule :
        (rounds c : ℕ) (p : Pool W)
        → rounds + c ≡ total
        → P c p
        → Q (failover_scan env rounds c start exclude target now p)
    unfolding failover_scan
    failover_scan_rule zero c p e h = stop p (let e' : c ≡ total = omega arith in rw (← e') h)
    failover_scan_rule (suc rounds) c p e h =
        elim (Bool-cases (p.has_active && (failover_idx start c p == p.active_idx))) [
          | inl same ↦
              rw (same, failover_scan)
                (failover_scan_rule rounds (c + 1) p (omega arith) (pass c p (omega arith) h same))
          | inr other ↦ elim (Option-cases (get_elem? p.servers (failover_idx start c p))) [
            | inl at ↦ rw (other, at, failover_scan) (out c p (omega arith) h at)
            | inr (r, at) ↦ elim (Verdict-cases (visited true r p).0) [
              | inl v ↦ rw (other, at, v, failover_scan) (pick c r p (omega arith) h at v)
              | inr (inl v) ↦
                  rw (other, at, v, failover_scan)
                    (failover_scan_rule rounds (c + 1) (visited true r p).1 (omega arith)
                      (skip c r p (omega arith) h other at v))
              | inr (inr v) ↦ rw (other, at, v, failover_scan) (crash c r p (omega arith) h at v)
            ]
          ]
        ]
