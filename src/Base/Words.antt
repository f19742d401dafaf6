-- ===== src/Base/Words.antt =====
-- `int` and `long` values as bit patterns, with the wrap-around of 32 bits written out, and the
-- mask that reduces a hash to an index.
use Prim.Native.Nat.{
  ℕ, zero, suc, ◌+◌, ◌-◌, ◌*◌, ◌/◌, ◌%◌, ◌^◌, ◌≤◌, min, bit_and, digits, bit_and-bitwise,
}
use native.Mathlib.Omega.{arith}

abbrev pub int_mod : ℕ
int_mod = 2 ^ 32

-- `++n`
abbrev pub incr : ℕ → ℕ
incr n = (n + 1) % int_mod

-- `--n`
abbrev pub decr : ℕ → ℕ
decr n = (n + int_mod - 1) % int_mod

-- `n << 1`
abbrev pub shl_one : ℕ → ℕ
shl_one n = n * 2 % int_mod

abbrev and_digits : ℕ → ℕ → ℕ → ℕ
and_digits n a b = digits (λ b. zero) min n a b

and_digits-le : (n a b : ℕ) → and_digits n a b ≤ b
and_digits-le zero a b = omega arith
and_digits-le (suc n) zero b = omega arith
and_digits-le (suc n) (suc a) b = omega (arith, and_digits-le n (suc a / 2) (b / 2))

-- A mask bounds the result from above.
pub bit_and-le : (a b : ℕ) → bit_and a b ≤ b
bit_and-le a b = omega (arith, bit_and-bitwise a b, and_digits-le a a b)
