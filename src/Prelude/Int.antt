-- ===== src/Prelude/Int.antt =====
-- `int` results: a number, or a negative error code. `negsuc n` is -(n + 1).
use Prim.Native.Nat.{ℕ, zero}
use mathlib.Core.Bool.{Bool, true, false}

pub data ℤ : Type 0 where
  pos : ℕ → ℤ
  negsuc : ℕ → ℤ

abbrev pub is_negative : ℤ → Bool
is_negative (pos n) = false
is_negative (negsuc n) = true

abbrev pub is_zero : ℤ → Bool
is_zero (pos zero) = true
is_zero _ = false

-- the error codes of the C library that the source names, negated
abbrev pub minus_one : ℤ
minus_one = negsuc 0

abbrev pub minus_e2big : ℤ
minus_e2big = negsuc 6

abbrev pub minus_enomem : ℤ
minus_enomem = negsuc 11

abbrev pub minus_einval : ℤ
minus_einval = negsuc 21

abbrev pub minus_ealready : ℤ
minus_ealready = negsuc 119

abbrev pub minus_enodev : ℤ
minus_enodev = negsuc 18

abbrev pub minus_ebusy : ℤ
minus_ebusy = negsuc 15
