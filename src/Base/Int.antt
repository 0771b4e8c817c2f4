-- ===== src/Base/Int.antt =====
-- Integers over the native numbers, and the machine integers i64 and usize that they are cast to.
use Prim.Native.Nat.{ℕ, suc, ◌+◌, ◌-◌, ◌/◌, ◌%◌, ◌<◌}
use pzd.Base.Logic.{ltb, leb, if◌then◌else◌}

-- `negsuc n` is -(n + 1).
pub data ℤ : Type 0 where
  pos : ℕ → ℤ
  negsuc : ℕ → ℤ

abbrev pub pos_part : ℤ → ℕ
pos_part (pos n) = n
pos_part (negsuc n) = 0

abbrev pub neg_part : ℤ → ℕ
neg_part (pos n) = 0
neg_part (negsuc n) = suc n

abbrev pub sub_ℕ : ℕ → ℕ → ℤ
sub_ℕ a b = if leb b a then pos (a - b) else negsuc (b - a - 1)

infixl 65 ◌-ℤ◌
unfoldable pub ◌-ℤ◌ : ℤ → ℤ → ℤ
a -ℤ b = sub_ℕ (pos_part a + neg_part b) (neg_part a + pos_part b)

-- `abs`
abbrev pub abs : ℤ → ℕ
abs a = pos_part a + neg_part a

-- Division rounds to zero.
unfoldable pub quot : ℤ → ℕ → ℤ
quot (pos n) d = pos (n / d)
quot (negsuc n) d = sub_ℕ 0 (suc n / d)

-- `as usize`: the number modulo 2^64.
unfoldable pub as_usize : ℤ → ℕ
as_usize (pos n) = n % 18446744073709551616
as_usize (negsuc n) = 18446744073709551615 - n % 18446744073709551616

-- `as i64`, and what a step of arithmetic on i64 leaves.
unfoldable pub as_i64 : ℤ → ℤ
unfolding as_usize
as_i64 a =
    if ltb (as_usize a) 9223372036854775808
    then pos (as_usize a)
    else sub_ℕ (as_usize a) 18446744073709551616

-- The values of an i64.
abbrev pub IsI64 : ℤ → Type 0
IsI64 (pos n) = n < 9223372036854775808
IsI64 (negsuc n) = n < 9223372036854775808
