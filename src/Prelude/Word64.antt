-- ===== src/Prelude/Word64.antt =====
-- Go's int64 arithmetic: an integer taken modulo 2 ^ 64 into [-2 ^ 63, 2 ^ 63).
use Prim.Native.Nat.{ℕ, ◌+◌, ◌-◌, ◌≤◌, ◌<◌, ◌%◌, ◌^◌}
use mathlib.Core.Path.{◌≡◌, refl}
use native.Mathlib.Omega.{arith}
use gubernator.Prelude.Int.{ℤ, pos, negsuc, pos_part, neg_part, ◌+ℤ◌, ◌-ℤ◌, ◌*ℤ◌, ◌≤ℤ◌, int_laws}
use gubernator.Prelude.Tests.{ltb, if◌then◌else◌}

-- The bit pattern of an integer, and the integer that a pattern stands for.
abbrev bits64 : ℤ → ℕ
bits64 (pos n) = n % 2 ^ 64
bits64 (negsuc n) = 2 ^ 64 - 1 - n % 2 ^ 64

abbrev signed64 : ℕ → ℤ
signed64 w = if ltb w (2 ^ 63) then pos w else negsuc (2 ^ 64 - w - 1)

unfoldable pub wrap64 : ℤ → ℤ
wrap64 a = signed64 (bits64 a)

unfoldable pub add64 : ℤ → ℤ → ℤ
unfolding wrap64 ◌+ℤ◌
add64 a b = wrap64 (a +ℤ b)

unfoldable pub sub64 : ℤ → ℤ → ℤ
unfolding wrap64 ◌-ℤ◌
sub64 a b = wrap64 (a -ℤ b)

unfoldable pub mul64 : ℤ → ℤ → ℤ
unfolding wrap64 ◌*ℤ◌
mul64 a b = wrap64 (a *ℤ b)

pub record IsInt64 (a : ℤ) : Type 0 where
  pub below : pos_part a < 2 ^ 63
  pub above : neg_part a ≤ 2 ^ 63

pub wrap64-IsInt64 : (a : ℤ) → IsInt64 (wrap64 a)
unfolding wrap64
wrap64-IsInt64 a = ground arith

pub wrap64_of_IsInt64 : (a : ℤ) → IsInt64 a → wrap64 a ≡ a
unfolding wrap64
wrap64_of_IsInt64 a h = ground arith

-- Sums and differences that fit are exact.
pub add64-eq : (a b : ℤ) → IsInt64 (a +ℤ b) → add64 a b ≡ a +ℤ b
unfolding add64
add64-eq a b h = wrap64_of_IsInt64 _ h

pub sub64-eq : (a b : ℤ) → IsInt64 (a -ℤ b) → sub64 a b ≡ a -ℤ b
unfolding sub64
sub64-eq a b h = wrap64_of_IsInt64 _ h

pub add64-IsInt64 : (a b : ℤ) → IsInt64 (add64 a b)
unfolding add64
add64-IsInt64 a b = wrap64-IsInt64 _

pub sub64-IsInt64 : (a b : ℤ) → IsInt64 (sub64 a b)
unfolding sub64
sub64-IsInt64 a b = wrap64-IsInt64 _

-- A difference of two natural int64 values never wraps.
pub sub64_nonneg : (a b : ℤ) → pos 0 ≤ℤ a → IsInt64 a → pos 0 ≤ℤ b → IsInt64 b → sub64 a b ≡ a -ℤ b
sub64_nonneg a b pa ia pb ib =
    sub64-eq a b (record { below = omega int_laws; above = omega int_laws })

-- A sum of two natural int64 values that fits.
pub add64_nonneg :
    (a b : ℤ)
    → neg_part a ≡ 0
    → neg_part b ≡ 0
    → pos_part a + pos_part b < 2 ^ 63
    → add64 a b ≡ pos (pos_part a + pos_part b)
unfolding add64 wrap64 ◌+ℤ◌
add64_nonneg a b p q small = ground arith

add_wraps : add64 (pos (2 ^ 63 - 1)) (pos 1) ≡ negsuc (2 ^ 63 - 1)
unfolding add64
add_wraps = refl
