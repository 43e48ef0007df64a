-- ===== src/Prelude/Int.antt =====
-- Go's signed 64-bit `int`, over the native numbers. `negsuc n` is -(n + 1).
use gitd.Prelude.{ℕ, zero, suc, ◌+◌, ◌-◌, ◌%◌, ◌^◌, Bool, true, false, ◌==◌, ltb, if◌then◌else◌}

pub data ℤ : Type 0 where
  pos : ℕ → ℤ
  negsuc : ℕ → ℤ

-- `x == 0`
abbrev pub is_zero : ℤ → Bool
is_zero (pos n) = n == 0
is_zero (negsuc n) = false

-- `x > n`, for a bound that is no negative number
abbrev pub gtz : ℤ → ℕ → Bool
gtz (pos m) n = ltb n m
gtz (negsuc m) n = false

-- `x <= 0`
abbrev pub is_nonpos : ℤ → Bool
is_nonpos (pos n) = n == 0
is_nonpos (negsuc n) = true

-- `x++` on an `int`: it wraps at 2^63 - 1
abbrev pub incr : ℤ → ℤ
incr (pos n) = if n == 9223372036854775807 then negsuc 9223372036854775807 else pos (n + 1)
incr (negsuc zero) = pos 0
incr (negsuc (suc n)) = negsuc n

-- the int64 of a number modulo 2^64
abbrev pub to_int64 : ℕ → ℤ
to_int64 n = let m = n % 2 ^ 64 in if ltb m (2 ^ 63) then pos m else negsuc (2 ^ 64 - 1 - m)
