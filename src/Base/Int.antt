-- ===== src/Base/Int.antt =====
-- Integers over the native numbers, for the cursors that start at -1.
use Prim.Native.Nat.{ℕ, zero, suc, ◌+◌}
use mathlib.Core.Path.{◌≡◌, refl}
use native.Mathlib.Omega.{arith}

-- `negsuc n` is -(n + 1).
pub data ℤ : Type 0 where
  pos : ℕ → ℤ
  negsuc : ℕ → ℤ

-- n - 1, as an integer.
abbrev pub pred_ℤ : ℕ → ℤ
pred_ℤ zero = negsuc 0
pred_ℤ (suc n) = pos n

-- max(0, z + 1), as a number.
abbrev pub next_ℕ : ℤ → ℕ
next_ℕ (pos n) = n + 1
next_ℕ (negsuc n) = 0

pub next_ℕ-pred_ℤ : (n : ℕ) → next_ℕ (pred_ℤ n) ≡ n
next_ℕ-pred_ℤ zero = refl
next_ℕ-pred_ℤ (suc n) = omega arith
