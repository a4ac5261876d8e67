-- ===== src/Difficulty/Bits.antt =====
-- Powers of two around a number of a given bit length.
use native.Mathlib.Nat.{zero-add, pow-succ'}
use blockchain.Common.{
  ℕ, zero, suc, ◌+◌, ◌-◌, ◌*◌, ◌/◌, ◌^◌, ◌≤◌, ◌<◌, ◌≡◌, refl, arith, false, ltb, ◌==◌, Bool-cases,
  inl, inr,
}
use blockchain.Difficulty.{bit_length_from, bit_length}

-- `n` has exactly `len` bits.
pub record HasBits (len n : ℕ) : Type 0 where
  pub below : n < 2 ^ len
  pub above : 2 ^ len ≤ 2 * n

zero_has_none : (fuel : ℕ) → bit_length_from fuel 0 ≡ 0
unfolding bit_length_from
zero_has_none zero = refl
zero_has_none (suc fuel) = refl

HasBits-double : (len n : ℕ) → HasBits len (n / 2) → HasBits (suc len) n
HasBits-double len n b = record { below = omega (arith, b.below); above = omega (arith, b.above) }

bit_length_from-HasBits : (fuel n : ℕ) → n ≤ fuel → 0 < n → HasBits (bit_length_from fuel n) n
unfolding bit_length_from
bit_length_from-HasBits zero n h p = absurd (omega arith)
bit_length_from-HasBits (suc fuel) n h p =
    let more : (n == 0) ≡ false = ground arith in
    rw more (elim (Bool-cases (n / 2 == 0)) [
      | inl last ↦
          let e : n ≡ 1 = ground arith in
          rw (e, zero_has_none fuel) (record { below = omega arith; above = omega arith })
      | inr halved ↦
          HasBits-double _ n (bit_length_from-HasBits fuel (n / 2) (omega arith) (ground arith))
    ])

pub bit_length-HasBits : (n : ℕ) → 0 < n → HasBits (bit_length n) n
unfolding bit_length
bit_length-HasBits n p = bit_length_from-HasBits n n (omega arith) p

pub pow_add : (a b : ℕ) → 2 ^ (a + b) ≡ 2 ^ a * 2 ^ b
pow_add zero b = rw (zero-add b) (omega arith)
pow_add (suc a) b =
    let e : suc a + b ≡ suc (a + b) = omega arith in
    rw (e, pow-succ' 2 (a + b), pow-succ' 2 a, pow_add a b) (omega arith)

pub pow_pos : (a : ℕ) → 0 < 2 ^ a
pow_pos zero = omega arith
pow_pos (suc a) = omega (arith, pow_pos a)

pub pow_mono : (a b : ℕ) → a ≤ b → 2 ^ a ≤ 2 ^ b
pow_mono a b h =
    let e : b ≡ a + (b - a) = omega arith in rw e (rw pow_add (grind (arith, pow_pos (b - a))))

pub HasBits-lt : (len m n : ℕ) → HasBits len n → n < 2 ^ m → len ≤ m
HasBits-lt len m n b h = elim (Bool-cases (ltb m len)) [
  | inl longer ↦ absurd (omega (arith, b.above, h, pow_mono (suc m) len (ground arith)))
  | inr short ↦ ground arith
]

pub HasBits-unique : (k l n : ℕ) → HasBits k n → HasBits l n → k ≡ l
HasBits-unique k l n b c = omega (arith, HasBits-lt k l n b c.below, HasBits-lt l k n c b.below)
