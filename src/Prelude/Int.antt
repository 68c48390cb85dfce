-- ===== src/Prelude/Int.antt =====
-- Python's integers, where the program takes one from a packet.
use Prim.Native.Nat.{ℕ, zero, suc}
use mathlib.Core.Bool.{Bool, true, false}
use g04_final_project_d_25_c.Prelude.Tests.{leb}

-- `negsuc n` is -(n + 1).
pub data ℤ : Type 0 where
  pos : ℕ → ℤ
  negsuc : ℕ → ℤ

-- `z <= 0`
abbrev pub not_positive : ℤ → Bool
not_positive (pos zero) = true
not_positive (pos (suc n)) = false
not_positive (negsuc n) = true

-- `n >= z`, for a count `n`
abbrev pub reaches : ℕ → ℤ → Bool
reaches n (pos k) = leb k n
reaches n (negsuc k) = true

-- The number, where it is known to be positive.
abbrev pub to_nat : ℤ → ℕ
to_nat (pos n) = n
to_nat (negsuc n) = 0
