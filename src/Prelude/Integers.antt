-- ===== src/Prelude/Integers.antt =====
-- Machine integers that may be negative, and strconv.ParseInt with a sign.
use Prim.Native.Nat.{ℕ, zero, suc}
use mathlib.Core.Bool.{Bool, true, false}
use fastiron_tofu.Prelude.Tests.{◌==◌, ltb}

-- `negsuc n` is -(n + 1).
pub data ℤ : Type 0 where
  pos negsuc : ℕ → ℤ

-- `v < n`, `v > n` and `v == n` for a natural number `n`.
abbrev pub is_below : ℤ → ℕ → Bool
is_below (pos m) n = ltb m n
is_below (negsuc m) n = true

abbrev pub is_above : ℤ → ℕ → Bool
is_above (pos m) n = ltb n m
is_above (negsuc m) n = false

abbrev pub equals : ℤ → ℕ → Bool
equals (pos m) n = m == n
equals (negsuc m) n = false

-- Equality and the order of two integers.
abbrev pub same_int : ℤ → ℤ → Bool
same_int (pos m) (pos n) = m == n
same_int (negsuc m) (negsuc n) = m == n
same_int _ _ = false

abbrev pub less_int : ℤ → ℤ → Bool
less_int (pos m) (pos n) = ltb m n
less_int (pos m) (negsuc n) = false
less_int (negsuc m) (pos n) = true
less_int (negsuc m) (negsuc n) = ltb n m

-- The number that an integer is, 0 for a negative one.
abbrev pub to_nat : ℤ → ℕ
to_nat (pos m) = m
to_nat (negsuc m) = 0

-- `-m`
abbrev pub neg : ℕ → ℤ
neg zero = pos 0
neg (suc m) = negsuc m
