-- ===== src/Prelude/Int.antt =====
-- Signed integers over the native numbers, and the wrap-around of Go's int64.
use Prim.Native.Nat.{ℕ, suc, ◌+◌, ◌-◌, ◌/◌, ◌%◌, ◌≤◌, ◌<◌}
use mathlib.Core.Path.{◌≡◌}
use mathlib.Core.Bool.{Bool, true}
use native.Mathlib.Omega.{arith}
use ping_mesh.Prelude.Tests.{ltb, leb, nat_eq, if◌then◌else◌}

-- `negsuc n` is -(n + 1).
pub data ℤ : Type 0 where
  pos : ℕ → ℤ
  negsuc : ℕ → ℤ

abbrev pub pos_part : ℤ → ℕ
pos_part (pos n) = n
pos_part (negsuc n) = 0

abbrev pub neg_part : ℤ → ℕ
neg_part (pos n) = 0
neg_part (negsuc n) = suc n

infix 50 ◌≤ℤ◌ ◌<ℤ◌
abbrev pub ◌≤ℤ◌ : ℤ → ℤ → Type 0
a ≤ℤ b = pos_part a + neg_part b ≤ pos_part b + neg_part a

abbrev pub ◌<ℤ◌ : ℤ → ℤ → Type 0
a <ℤ b = pos_part a + neg_part b < pos_part b + neg_part a

abbrev pub leb_ℤ : ℤ → ℤ → Bool
leb_ℤ a b = leb (pos_part a + neg_part b) (pos_part b + neg_part a)

abbrev pub ltb_ℤ : ℤ → ℤ → Bool
ltb_ℤ a b = ltb (pos_part a + neg_part b) (pos_part b + neg_part a)

abbrev pub eq_ℤ : ℤ → ℤ → Bool
eq_ℤ a b = nat_eq (pos_part a + neg_part b) (pos_part b + neg_part a)

pub eq_ℤ-sound : (a b : ℤ) → eq_ℤ a b ≡ true → a ≡ b
eq_ℤ-sound a b h = ground arith

abbrev pub two_63 : ℕ
two_63 = 9223372036854775808

abbrev pub two_64 : ℕ
two_64 = 18446744073709551616

-- The int64 that a number below 2^64 stands for in two's complement.
abbrev pub of_word : ℕ → ℤ
of_word w = if ltb w two_63 then pos w else negsuc (two_64 - 1 - w)

-- a - b on int64: the difference modulo 2^64, read as a signed word.
unfoldable pub sub_64 : ℤ → ℤ → ℤ
sub_64 a b =
    of_word
      (((pos_part a + neg_part b) % two_64 + two_64 - (neg_part a + pos_part b) % two_64) % two_64)

abbrev pub InInt64 : ℤ → Type 0
InInt64 a = (pos_part a < two_63) × (neg_part a ≤ two_63)

-- Where the difference of two int64 values does not overflow, it is the difference of the integers.
pub sub_64_exact :
    (a b : ℤ)
    → pos_part a + neg_part b < neg_part a + pos_part b + two_63
    → neg_part a + pos_part b ≤ pos_part a + neg_part b + two_63
    → pos_part (sub_64 a b) + neg_part a + pos_part b
      ≡ neg_part (sub_64 a b) + pos_part a + neg_part b
unfolding sub_64
sub_64_exact a b h k = ground arith

-- a / n on int64 for a positive n: truncated towards zero.
unfoldable pub quot_ℤ : ℤ → ℕ → ℤ
quot_ℤ (pos a) n = pos (a / n)
quot_ℤ (negsuc a) n = if nat_eq (suc a / n) 0 then pos 0 else negsuc (suc a / n - 1)
