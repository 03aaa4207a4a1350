-- ===== src/Prelude/Int64.antt =====
-- Go's int64: integers with the wrap-around of 64 bits written out.
use Prim.Native.Nat.{ℕ, ◌+◌, ◌-◌, ◌%◌, ◌<◌}
use mathlib.Core.Path.{◌≡◌}
use mathlib.Core.Bool.{Bool}
use native.Mathlib.Omega.{arith}
use mysnapshotter.Prelude.Tests.{ltb, leb, if◌then◌else◌}
use mysnapshotter.Prelude.Int.{ℤ, pos, negsuc, pos_part, neg_part, sub_ℕ, ◌+ℤ◌, ◌-ℤ◌}

-- 2 ^ 63 and 2 ^ 64.
abbrev pub int64_limit : ℕ
int64_limit = 9_223_372_036_854_775_808

abbrev pub int64_modulus : ℕ
int64_modulus = 18_446_744_073_709_551_616

-- The value of the low 64 bits in two's complement.
unfoldable pub wrap64 : ℤ → ℤ
wrap64 (pos n) =
    let m = n % int64_modulus in if ltb m int64_limit then pos m else negsuc (int64_modulus - 1 - m)
wrap64 (negsuc n) =
    let m = n % int64_modulus in if ltb m int64_limit then negsuc m else pos (int64_modulus - 1 - m)

unfoldable pub add64 : ℤ → ℤ → ℤ
unfolding wrap64 ◌+ℤ◌
add64 a b = wrap64 (a +ℤ b)

unfoldable pub sub64 : ℤ → ℤ → ℤ
unfolding wrap64 ◌-ℤ◌
sub64 a b = wrap64 (a -ℤ b)

abbrev pub leb_ℤ : ℤ → ℤ → Bool
leb_ℤ a b = leb (pos_part a + neg_part b) (pos_part b + neg_part a)

pub add64_pos : (a b : ℕ) → a + b < int64_limit → add64 (pos a) (pos b) ≡ pos (a + b)
unfolding add64
add64_pos a b h = ground arith

pub sub64_pos : (a b : ℕ) → a < int64_limit → b < int64_limit → sub64 (pos a) (pos b) ≡ sub_ℕ a b
unfolding sub64
sub64_pos a b h k = ground arith
