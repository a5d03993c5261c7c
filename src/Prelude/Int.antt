-- ===== src/Prelude/Int.antt =====
-- The integers, for the JSON numbers that are read as `i64`.
use Prim.Native.Nat.{ℕ}
use mathlib.Core.Bool.{Bool, true, false}
use nano_rpc_gateway.Prelude.Tests.{leb}

-- `negsuc n` is -(n + 1).
pub data ℤ : Type 0 where
  pos : ℕ → ℤ
  negsuc : ℕ → ℤ

-- The integer is at least -1.
abbrev pub ge_minus_one : ℤ → Bool
ge_minus_one (pos n) = true
ge_minus_one (negsuc n) = leb n 0

abbrev pub is_nonneg : ℤ → Bool
is_nonneg (pos n) = true
is_nonneg (negsuc n) = false
