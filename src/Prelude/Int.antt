-- ===== src/Prelude/Int.antt =====
-- Python's signed integers, as far as the program compares them: node ids and configured counts.
use mathlib.Core.Path.{◌≡◌}
use mathlib.Core.Logic.{◌↔◌}
use mathlib.Core.Bool.{Bool, true, false}
use Prim.Native.Nat.{ℕ}
use native.Mathlib.Omega.{arith}
use testuder.Prelude.Tests.{eqb}

-- `negsuc n` is -(n + 1).
pub data ℤ : Type 0 where
  pos : ℕ → ℤ
  negsuc : ℕ → ℤ

abbrev pub eqz : ℤ → ℤ → Bool
eqz (pos a) (pos b) = eqb a b
eqz (negsuc a) (negsuc b) = eqb a b
eqz (pos a) (negsuc b) = false
eqz (negsuc a) (pos b) = false

pub eqz_iff : (a b : ℤ) → (eqz a b ≡ true) ↔ (a ≡ b)
eqz_iff (pos a) (pos b) = ground arith
eqz_iff (negsuc a) (negsuc b) = ground arith
eqz_iff (pos a) (negsuc b) = ground arith
eqz_iff (negsuc a) (pos b) = ground arith
