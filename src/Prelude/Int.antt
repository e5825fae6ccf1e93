-- ===== src/Prelude/Int.antt =====
-- Signed integers over the native numbers, under the library's names: Go's `int`, `int64` and
-- `time.Duration` where they may be negative.
use Prim.Native.Nat.{ℕ, ◌-◌, ◌<◌}
use native.Mathlib.Omega.{arith}
use ssh_roundrobin.Prelude.Tests.{leb, if◌then◌else◌}

-- `negsuc n` is -(n + 1).
pub data ℤ : Type 0 where
  pos : ℕ → ℤ
  negsuc : ℕ → ℤ

-- a - b, as an integer.
abbrev pub sub_ℕ : ℕ → ℕ → ℤ
sub_ℕ a b = if leb b a then pos (a - b) else negsuc (b - a - 1)

-- `if x <= 0 { x = d }`: a setting that is not positive gets its default.
abbrev pub positive_or : ℕ → ℤ → ℕ
positive_or d (pos n) = if leb n 0 then d else n
positive_or d (negsuc n) = d

pub positive_or-pos : (d : ℕ) (x : ℤ) → 0 < d → 0 < positive_or d x
positive_or-pos d (pos n) h = ground arith
positive_or-pos d (negsuc n) h = h
