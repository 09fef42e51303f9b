-- ===== src/Prelude/Int.antt =====
-- Python integers where the code meets negative ones: `negsuc n` is -(n + 1).
use Prim.Native.Nat.{ℕ, ◌≤◌, max}
use mathlib.Core.Bool.{Bool, true, false}
use native.Mathlib.Omega.{arith}
use learn_agent.Prelude.Tests.{ltb}

pub data ℤ : Type 0 where
  pos : ℕ → ℤ
  negsuc : ℕ → ℤ

-- 0 < n
abbrev pub is_positive : ℤ → Bool
is_positive (pos n) = ltb 0 n
is_positive (negsuc n) = false

-- n < 0
abbrev pub is_negative : ℤ → Bool
is_negative (pos n) = false
is_negative (negsuc n) = true

-- max(1, n), which is a natural number.
abbrev pub at_least_one : ℤ → ℕ
at_least_one (pos n) = max 1 n
at_least_one (negsuc n) = 1

pub at_least_one-pos : (n : ℤ) → 1 ≤ at_least_one n
at_least_one-pos (pos n) = omega arith
at_least_one-pos (negsuc n) = omega arith
