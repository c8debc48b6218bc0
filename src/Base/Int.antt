-- ===== src/Base/Int.antt =====
-- `i64` values as integers. `negsuc n` is -(n + 1).
use Prim.Native.Nat.{ℕ, ◌^◌, ◌-◌, ◌<◌, compare, Ordering}
use Prim.Native.Nat.Ordering.{lt, gt}
use mathlib.Core.Bool.{Bool, true, false}
use native.Mathlib.Omega.{arith}
use pantheon.Base.Order.{Ord, IsTotal}

pub data ℤ : Type 0 where
  pos : ℕ → ℤ
  negsuc : ℕ → ℤ

abbrev pub int_cmp : ℤ → ℤ → Ordering
int_cmp (pos a) (pos b) = compare a b
int_cmp (pos _) (negsuc _) = gt
int_cmp (negsuc _) (pos _) = lt
int_cmp (negsuc a) (negsuc b) = compare b a

pub int_cmp-IsTotal : IsTotal int_cmp
int_cmp-IsTotal = ground arith

instance abbrev pub int_ord : Ord ℤ
int_ord = record { cmp = int_cmp; total = int_cmp-IsTotal }

abbrev pub int_eq : ℤ → ℤ → Bool
int_eq a b = elim (int_cmp a b) [ Ordering.eq ↦ true | _ ↦ false ]

abbrev pub int_lt : ℤ → ℤ → Bool
int_lt a b = elim (int_cmp a b) [ Ordering.lt ↦ true | _ ↦ false ]

-- `i64::MIN`
abbrev pub int_min : ℤ
int_min = negsuc (2 ^ 63 - 1)

-- the range of `i64`
abbrev pub IsInt64 : ℤ → Type 0
IsInt64 (pos n) = n < 2 ^ 63
IsInt64 (negsuc n) = n < 2 ^ 63
