-- ===== src/Prelude/Int.antt =====
-- Integers, as far as a declared count is compared with a measured one.
use Prim.Native.Nat.{ℕ}
use mathlib.Core.Bool.{Bool, false}
use talyvor_track.Prelude.Tests.{◌==◌}

-- `negsuc n` is -(n + 1).
pub data ℤ : Type 0 where
  pos : ℕ → ℤ
  negsuc : ℕ → ℤ

-- `a == b` for two integers.
abbrev pub int_eq : ℤ → ℤ → Bool
int_eq (pos m) (pos n) = m == n
int_eq (negsuc m) (negsuc n) = m == n
int_eq _ _ = false
