-- ===== src/Prelude/Int.antt =====
-- C `int` values as signed integers: the parser marks an absent field by -1.
use Prim.Native.Nat.{ℕ, zero, suc, compare, Ordering}
use mathlib.Core.Bool.{Bool, true, false}

-- `negsuc n` is -(n + 1).
pub data ℤ : Type 0 where
  pos : ℕ → ℤ
  negsuc : ℕ → ℤ

abbrev pub minus_one : ℤ
minus_one = negsuc 0

-- `v == -1`
abbrev pub is_minus_one : ℤ → Bool
is_minus_one (pos n) = false
is_minus_one (negsuc zero) = true
is_minus_one (negsuc (suc n)) = false

-- `lo <= v && v <= hi` for bounds that are not negative
abbrev pub in_bounds : ℕ → ℕ → ℤ → Bool
in_bounds lo hi (pos n) = elim (compare lo n) [
  | Ordering.gt ↦ false
  | _ ↦ elim (compare n hi) [ Ordering.gt ↦ false | _ ↦ true ]
]
in_bounds lo hi (negsuc n) = false

-- `v - 1`
abbrev pub pred_ℤ : ℤ → ℤ
pred_ℤ (pos zero) = negsuc 0
pred_ℤ (pos (suc n)) = pos n
pred_ℤ (negsuc n) = negsuc (suc n)

-- The value of a non-negative integer; it is only used behind a range test.
abbrev pub to_nat : ℤ → ℕ
to_nat (pos n) = n
to_nat (negsuc n) = 0
