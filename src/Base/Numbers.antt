-- ===== src/Base/Numbers.antt =====
-- JavaScript numbers, as far as the program looks at them: a double with an integral value is that
-- integer (0 and -0 are one), a finite double between two integers is known by the lower one.
use Prim.Native.Nat.{ℕ, ◌-◌, ◌^◌}
use mathlib.Core.Bool.{Bool, true, false}
use micro_jbase.Base.Tests.{ltb, leb}

-- `negsuc n` is -(n + 1).
pub data ℤ : Type 0 where
  pos : ℕ → ℤ
  negsuc : ℕ → ℤ

abbrev pub leb_ℤ : ℤ → ℤ → Bool
leb_ℤ (pos a) (pos b) = leb a b
leb_ℤ (pos a) (negsuc b) = false
leb_ℤ (negsuc a) (pos b) = true
leb_ℤ (negsuc a) (negsuc b) = leb b a

abbrev pub ltb_ℤ : ℤ → ℤ → Bool
ltb_ℤ (pos a) (pos b) = ltb a b
ltb_ℤ (pos a) (negsuc b) = false
ltb_ℤ (negsuc a) (pos b) = true
ltb_ℤ (negsuc a) (negsuc b) = ltb b a

pub data Number : Type 0 where
  int : ℤ → Number
  between : ℤ → Number  -- strictly between this integer and the next
  pos_inf neg_inf nan : Number

-- Number.isInteger
abbrev pub is_integer : Number → Bool
is_integer (int z) = true
is_integer _ = false

-- Number.isFinite
abbrev pub is_finite : Number → Bool
is_finite (int z) = true
is_finite (between z) = true
is_finite _ = false

abbrev pub max_safe_integer : ℕ
max_safe_integer = 2 ^ 53 - 1

-- Number.isSafeInteger
abbrev pub is_safe_integer : Number → Bool
is_safe_integer (int (pos n)) = leb n max_safe_integer
is_safe_integer (int (negsuc n)) = ltb n max_safe_integer
is_safe_integer _ = false

-- x < k
abbrev pub num_lt : Number → ℤ → Bool
num_lt (int z) k = ltb_ℤ z k
num_lt (between z) k = ltb_ℤ z k
num_lt neg_inf k = true
num_lt _ k = false

-- x > k
abbrev pub num_gt : Number → ℤ → Bool
num_gt (int z) k = ltb_ℤ k z
num_gt (between z) k = leb_ℤ k z
num_gt pos_inf k = true
num_gt _ k = false
