-- ===== src/Prelude/Cyclic.antt =====
-- A scan over the indices `(start + c) % n` visits every index below `n`.
use native.Mathlib.Nat.{mod-eq_of_lt, mod-lt, mod-add-mod, add-mod_right}
use Prim.Native.Nat.{ℕ, ◌+◌, ◌-◌, ◌%◌, ◌<◌}
use mathlib.Core.Path.{◌≡◌, sym, ◌∙◌, ap}
use mathlib.Core.Logic.{inl, inr}
use native.Mathlib.Omega.{arith}
use ssh_roundrobin.Prelude.Tests.{leb, if◌then◌else◌, Bool-cases}

-- The round in which a scan from `s` comes to `i`.
pub round_of : ℕ → ℕ → ℕ → ℕ
round_of n s i = if leb s i then i - s else i + n - s

round_of_lt : (n s i : ℕ) → s < n → i < n → round_of n s i < n
unfolding round_of
round_of_lt n s i hs hi = ground arith

round_of_sum : (n s i : ℕ) → s < n → i < n → (s + round_of n s i) % n ≡ i
unfolding round_of
round_of_sum n s i hs hi = elim (Bool-cases (leb s i)) [
  | inl e ↦
      let same : s + (i - s) ≡ i = ground arith in
      rw (e, round_of) (ap (λ k. k % n) same ∙ mod-eq_of_lt hi)
  | inr e ↦
      let around : s + (i + n - s) ≡ i + n = omega arith in
      rw (e, round_of) (ap (λ k. k % n) around ∙ add-mod_right i n ∙ mod-eq_of_lt hi)
]

-- Whatever the start, there is such a round below `n`.
pub round_hits :
    (n start i : ℕ)
    → i < n
    → (round_of n (start % n) i < n) × ((start + round_of n (start % n) i) % n ≡ i)
round_hits n start i h =
    let below : start % n < n = mod-lt start (omega arith) in
    (
      round_of_lt n (start % n) i below h,
      sym (mod-add-mod start n (round_of n (start % n) i)) ∙ round_of_sum n (start % n) i below h,
    )
