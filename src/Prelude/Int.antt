-- ===== src/Prelude/Int.antt =====
-- Signed integers over the native numbers, for `time.Duration` and `int64`.
use Prim.Native.Nat.{ℕ, suc, ◌+◌, ◌-◌, ◌*◌, ◌%◌, ◌^◌, ◌≤◌, ◌<◌}
use mathlib.Core.Bool.{Bool}
use rss2msg.Prelude.Tests.{ltb, leb, if◌then◌else◌}

-- `negsuc n` is -(n + 1).
pub data ℤ : Type 0 where
  pos : ℕ → ℤ
  negsuc : ℕ → ℤ

abbrev pub pos_part : ℤ → ℕ
pos_part (pos n) = n
pos_part (negsuc n) = 0

abbrev neg_part : ℤ → ℕ
neg_part (pos n) = 0
neg_part (negsuc n) = suc n

infix 50 ◌≤ℤ◌ ◌<ℤ◌
abbrev pub ◌≤ℤ◌ : ℤ → ℤ → Type 0
a ≤ℤ b = pos_part a + neg_part b ≤ pos_part b + neg_part a

abbrev ◌<ℤ◌ : ℤ → ℤ → Type 0
a <ℤ b = pos_part a + neg_part b < pos_part b + neg_part a

abbrev pub ltb_ℤ : ℤ → ℤ → Bool
ltb_ℤ a b = ltb (pos_part a + neg_part b) (pos_part b + neg_part a)

abbrev pub leb_ℤ : ℤ → ℤ → Bool
leb_ℤ a b = leb (pos_part a + neg_part b) (pos_part b + neg_part a)

abbrev pub int64_half : ℕ
int64_half = 2 ^ 63

abbrev pub int64_span : ℕ
int64_span = 2 ^ 64

-- The int64 whose bits are those of `n` modulo 2^64.
abbrev of_bits : ℕ → ℤ
of_bits n =
    let m = n % int64_span in if ltb m int64_half then pos m else negsuc (int64_span - m - 1)

-- The bits of an int64, as a number below 2^64.
abbrev to_bits : ℤ → ℕ
to_bits (pos n) = n % int64_span
to_bits (negsuc n) = int64_span - 1 - n % int64_span

-- `a << k` on int64: bits shifted past the top are lost, and so the sign may change.
abbrev pub shl : ℤ → ℕ → ℤ
shl a k = of_bits (to_bits a * 2 ^ k)

-- `k * a` on int64, for a constant k.
abbrev pub scale : ℕ → ℤ → ℤ
scale k a = of_bits (k * to_bits a)
