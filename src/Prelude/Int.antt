-- ===== src/Prelude/Int.antt =====
-- Signed integers, and Go's `int64` as the signed integers with wrap-around at 2 ^ 64.
use Prim.Native.Nat.{ℕ, suc, ◌+◌, ◌-◌, ◌*◌, ◌%◌, ◌≤◌, ◌<◌}
use mathlib.Core.Path.{◌≡◌}
use mathlib.Core.Bool.{Bool}
use native.Mathlib.Omega.{arith}
use seckill_go.Prelude.Tests.{ltb, leb, ◌==◌, if◌then◌else◌}

-- `negsuc n` is -(n + 1).
pub data ℤ : Type 0 where
  pos : ℕ → ℤ
  negsuc : ℕ → ℤ

abbrev pub pos_part : ℤ → ℕ
pos_part (pos n) = n
pos_part (negsuc n) = 0

abbrev pub neg_part : ℤ → ℕ
neg_part (pos n) = 0
neg_part (negsuc n) = suc n

abbrev sub_ℕ : ℕ → ℕ → ℤ
sub_ℕ a b = if leb b a then pos (a - b) else negsuc (b - a - 1)

infixl 65 ◌+ℤ◌ ◌-ℤ◌
infixl 70 ◌*ℤ◌
infix 50 ◌≤ℤ◌ ◌<ℤ◌
unfoldable pub ◌+ℤ◌ : ℤ → ℤ → ℤ
a +ℤ b = sub_ℕ (pos_part a + pos_part b) (neg_part a + neg_part b)

unfoldable pub ◌-ℤ◌ : ℤ → ℤ → ℤ
a -ℤ b = sub_ℕ (pos_part a + neg_part b) (neg_part a + pos_part b)

unfoldable pub ◌*ℤ◌ : ℤ → ℤ → ℤ
a *ℤ b =
    sub_ℕ (pos_part a * pos_part b + neg_part a * neg_part b)
      (pos_part a * neg_part b + neg_part a * pos_part b)

abbrev pub ◌≤ℤ◌ : ℤ → ℤ → Type 0
a ≤ℤ b = pos_part a + neg_part b ≤ pos_part b + neg_part a

abbrev pub ◌<ℤ◌ : ℤ → ℤ → Type 0
a <ℤ b = pos_part a + neg_part b < pos_part b + neg_part a

abbrev pub lt_ℤ : ℤ → ℤ → Bool
lt_ℤ a b = ltb (pos_part a + neg_part b) (pos_part b + neg_part a)

abbrev pub le_ℤ : ℤ → ℤ → Bool
le_ℤ a b = leb (pos_part a + neg_part b) (pos_part b + neg_part a)

abbrev pub eq_ℤ : ℤ → ℤ → Bool
eq_ℤ a b = pos_part a + neg_part b == pos_part b + neg_part a

pub +ℤ_parts :
    (a b : ℤ)
    → pos_part (a +ℤ b) + neg_part a + neg_part b ≡ neg_part (a +ℤ b) + pos_part a + pos_part b
unfolding ◌+ℤ◌
+ℤ_parts a b = ground arith

pub -ℤ_parts :
    (a b : ℤ)
    → pos_part (a -ℤ b) + neg_part a + pos_part b ≡ neg_part (a -ℤ b) + pos_part a + neg_part b
unfolding ◌-ℤ◌
-ℤ_parts a b = ground arith

pub eq_of_parts : (a b : ℤ) → pos_part a + neg_part b ≡ pos_part b + neg_part a → a ≡ b
eq_of_parts a b h = ground arith

pub ruleset int_laws = (arith, +ℤ_parts, -ℤ_parts, eq_of_parts)

-- The values of an `int64`.
abbrev pub InInt64 : ℤ → Type 0
InInt64 a = (pos_part a < 9223372036854775808) × (neg_part a ≤ 9223372036854775808)

-- The bit pattern of an integer, and the `int64` that a bit pattern is.
to_word : ℤ → ℕ
to_word (pos n) = n % 18446744073709551616
to_word (negsuc n) = 18446744073709551615 - n % 18446744073709551616

of_word : ℕ → ℤ
of_word w = if ltb w 9223372036854775808 then pos w else negsuc (18446744073709551615 - w)

-- The `int64` that an exact result wraps to.
unfoldable pub wrap64 : ℤ → ℤ
unfolding to_word of_word
wrap64 a = of_word (to_word a)

unfoldable pub add64 : ℤ → ℤ → ℤ
add64 a b = wrap64 (a +ℤ b)

unfoldable pub sub64 : ℤ → ℤ → ℤ
sub64 a b = wrap64 (a -ℤ b)

unfoldable pub mul64 : ℤ → ℤ → ℤ
mul64 a b = wrap64 (a *ℤ b)

pub wrap64_exact : (a : ℤ) → InInt64 a → wrap64 a ≡ a
unfolding wrap64
wrap64_exact (pos n) h = ground arith
wrap64_exact (negsuc n) h = ground arith

pub wrap64-InInt64 : (a : ℤ) → InInt64 (wrap64 a)
unfolding wrap64
wrap64-InInt64 (pos n) = ground arith
wrap64-InInt64 (negsuc n) = ground arith

-- The operations are exact where the exact result is an `int64`.
pub add64_exact : (a b : ℤ) → InInt64 (a +ℤ b) → add64 a b ≡ a +ℤ b
unfolding add64
add64_exact a b h = wrap64_exact (a +ℤ b) h

pub sub64_exact : (a b : ℤ) → InInt64 (a -ℤ b) → sub64 a b ≡ a -ℤ b
unfolding sub64
sub64_exact a b h = wrap64_exact (a -ℤ b) h

pub add64_pos : (a b : ℕ) → a + b < 9223372036854775808 → add64 (pos a) (pos b) ≡ pos (a + b)
unfolding add64 wrap64 ◌+ℤ◌
add64_pos a b h = ground arith

pub sub64_pos : (a b : ℕ) → b ≤ a → a < 9223372036854775808 → sub64 (pos a) (pos b) ≡ pos (a - b)
unfolding sub64 wrap64 ◌-ℤ◌
sub64_pos a b h k = ground arith

-- Subtracting and adding back is exact, whether or not the difference wraps.
pub add64-sub64 : (a b : ℤ) → InInt64 a → InInt64 b → add64 (sub64 a b) b ≡ a
unfolding add64 sub64 wrap64 ◌+ℤ◌ ◌-ℤ◌
add64-sub64 a b h k = ground arith

pub sub64-add64 : (a b : ℤ) → InInt64 a → InInt64 b → sub64 (add64 a b) b ≡ a
unfolding add64 sub64 wrap64 ◌+ℤ◌ ◌-ℤ◌
sub64-add64 a b h k = ground arith
