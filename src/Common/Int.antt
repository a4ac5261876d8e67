-- ===== src/Common/Int.antt =====
-- Signed integers over the native numbers, and Go's `int64` and `int32` as bit patterns.
use blockchain.Common.{
  ℕ, suc, ◌+◌, ◌-◌, ◌*◌, ◌/◌, ◌^◌, ◌%◌, ◌≤◌, ◌<◌, ◌≡◌, Bool, arith, ltb, leb, if◌then◌else◌,
}

-- `negsuc n` is -(n + 1).
pub data ℤ : Type 0 where
  pos : ℕ → ℤ
  negsuc : ℕ → ℤ

abbrev pub pos_part : ℤ → ℕ
pos_part (pos n) = n
pos_part (negsuc n) = 0

abbrev pub neg_part : ℤ → ℕ
neg_part (pos n) = 0
neg_part (negsuc n) = suc n

abbrev pub ltb_ℤ : ℤ → ℤ → Bool
ltb_ℤ a b = ltb (pos_part a + neg_part b) (pos_part b + neg_part a)

infix 50 ◌≤ℤ◌
abbrev pub ◌≤ℤ◌ : ℤ → ℤ → Type 0
a ≤ℤ b = pos_part a + neg_part b ≤ pos_part b + neg_part a

-- The values of a signed type of `2 ^ (w + 1)` bit patterns, `half` being `2 ^ w`.
abbrev pub IsSigned : ℕ → ℤ → Type 0
IsSigned half (pos n) = n < half
IsSigned half (negsuc n) = n < half

-- Two's complement: the bit pattern of a value, and the value of a bit pattern.
unfoldable pub to_word : ℕ → ℤ → ℕ
to_word half (pos n) = n % (2 * half)
to_word half (negsuc n) = 2 * half - 1 - n % (2 * half)

unfoldable pub of_word : ℕ → ℕ → ℤ
of_word half w = if ltb w half then pos w else negsuc (2 * half - 1 - w)

abbrev pub half64 : ℕ
half64 = 2 ^ 63

abbrev pub half32 : ℕ
half32 = 2 ^ 31

pub to_word64-lt : (z : ℤ) → to_word half64 z < 2 ^ 64
unfolding to_word
to_word64-lt (pos n) = omega arith
to_word64-lt (negsuc n) = omega arith

pub of_word-to_word64 : (z : ℤ) → IsSigned half64 z → of_word half64 (to_word half64 z) ≡ z
unfolding to_word of_word
of_word-to_word64 (pos n) h = ground arith
of_word-to_word64 (negsuc n) h = ground arith

pub to_word-of_word64 :
    (w : ℕ)
    → w < 2 ^ 64
    → (to_word half64 (of_word half64 w) ≡ w) × IsSigned half64 (of_word half64 w)
unfolding to_word of_word
to_word-of_word64 w h = ground arith

pub to_word32-lt : (z : ℤ) → to_word half32 z < 2 ^ 32
unfolding to_word
to_word32-lt (pos n) = omega arith
to_word32-lt (negsuc n) = omega arith

pub of_word-to_word32 : (z : ℤ) → IsSigned half32 z → of_word half32 (to_word half32 z) ≡ z
unfolding to_word of_word
of_word-to_word32 (pos n) h = ground arith
of_word-to_word32 (negsuc n) h = ground arith

pub to_word-of_word32 :
    (w : ℕ)
    → w < 2 ^ 32
    → (to_word half32 (of_word half32 w) ≡ w) × IsSigned half32 (of_word half32 w)
unfolding to_word of_word
to_word-of_word32 w h = ground arith

-- a - b of naturals, as an integer.
abbrev pub sub_ℕ : ℕ → ℕ → ℤ
sub_ℕ a b = if leb b a then pos (a - b) else negsuc (b - a - 1)

infixl 65 ◌-ℤ◌
unfoldable pub ◌-ℤ◌ : ℤ → ℤ → ℤ
a -ℤ b = sub_ℕ (pos_part a + neg_part b) (neg_part a + pos_part b)

-- A natural number times an integer.
unfoldable pub scale : ℕ → ℤ → ℤ
scale k a = sub_ℕ (k * pos_part a) (k * neg_part a)

-- Go's division of an `int64` by a positive number rounds towards zero.
unfoldable pub quotient : ℤ → ℕ → ℤ
quotient a k = sub_ℕ (pos_part a / k) (neg_part a / k)

-- The nearest `int64`.
unfoldable pub clamp64 : ℤ → ℤ
clamp64 (pos n) = pos (if ltb n half64 then n else half64 - 1)
clamp64 (negsuc n) = negsuc (if ltb n half64 then n else half64 - 1)
