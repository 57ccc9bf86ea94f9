-- ===== src/Prelude/Int.antt =====
-- Go's `time.Time`, and Go's `int`, where the program passes it on or prints it and never computes with it.
use Prim.Native.Nat.{ℕ}
use mathlib.Core.Bool.{Bool, false}
use compute_backend.Prelude.Tests.{◌==◌}

-- `negsuc n` is -(n + 1).
pub data ℤ : Type 0 where
  pos : ℕ → ℤ
  negsuc : ℕ → ℤ

abbrev pub is_zero : ℤ → Bool
is_zero (pos n) = n == 0
is_zero (negsuc n) = false

-- A point of time; 0 is Go's zero time.
abbrev pub Time : Type 0
Time = ℕ
