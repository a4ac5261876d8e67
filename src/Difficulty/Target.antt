-- ===== src/Difficulty/Target.antt =====
-- What the two conversions of core/blockchain/difficulty.go keep.
use native.Mathlib.Nat.{div-lt_iff_lt-mul, lt-div-mul-add, div-mul-le_self, mul-div_cancel}
use blockchain.Common.{
  ℕ, zero, suc, ◌+◌, ◌-◌, ◌*◌, ◌/◌, ◌%◌, ◌^◌, ◌≤◌, ◌<◌, ◌≡◌, refl, ap, ◌∙◌, arith, true, false, ltb,
  ◌==◌, Bool-cases, inl, inr,
}
use blockchain.Difficulty.{bit_length, target_to_diff, diff_prefix, diff_to_target}
use blockchain.Difficulty.Bits.{
  HasBits, bit_length-HasBits, pow_add, pow_pos, HasBits-lt, HasBits-unique, pow_mono,
}

-- The bits that the conversion drops.
abbrev pub dropped : ℕ → ℕ
dropped diff = bit_length diff - 24

-- A difficulty of more than 24 bits is at least 2^23 shifted by what is dropped, and below 2^24 so.
shifted_bounds :
    (d : ℕ)
    → 0 < d
    → 24 < bit_length d
    → (2 ^ dropped d * 2 ^ 23 ≤ d) × (d < 2 ^ 24 * 2 ^ dropped d)
shifted_bounds d p h =
    let b = bit_length-HasBits d p in
    let e : bit_length d ≡ 24 + dropped d = omega arith in
    let pow : 2 ^ bit_length d ≡ 2 ^ 24 * 2 ^ dropped d =
      ap (λ (n : ℕ). 2 ^ n) e ∙ pow_add 24 (dropped d) in
    (omega (arith, b.above, pow), omega (arith, b.below, pow))

diff_prefix-lt : (d : ℕ) → 0 < d → diff_prefix d < 2 ^ 24
unfolding diff_prefix
diff_prefix-lt d p = elim (Bool-cases (ltb 24 (bit_length d))) [
  | inl long ↦
      rw long ((div-lt_iff_lt-mul (pow_pos (dropped d))).1 (shifted_bounds d p (ground arith)).1)
  | inr short ↦ rw short (
      let b = bit_length-HasBits d p in
      omega (arith, b.below, pow_mono (bit_length d) 24 (ground arith)))
]

target-prefix :
    (d : ℕ)
    → 0 < d
    → d < 2 ^ 255
    → (diff_to_target d / 2 ^ 24 ≡ bit_length d) × (diff_to_target d % 2 ^ 24 ≡ diff_prefix d)
unfolding diff_to_target
target-prefix d p h =
    let short = HasBits-lt (bit_length d) 255 d (bit_length-HasBits d p) h in
    let prefix = diff_prefix-lt d p in
    let more : (d == 0) ≡ false = ground arith in rw more (omega arith, omega arith)

diff_prefix-long : (d : ℕ) → ltb 24 (bit_length d) ≡ true → diff_prefix d ≡ d / 2 ^ dropped d
unfolding diff_prefix
diff_prefix-long d long = rw long

diff_prefix-short : (d : ℕ) → ltb 24 (bit_length d) ≡ false → diff_prefix d ≡ d
unfolding diff_prefix
diff_prefix-short d short = rw short

no_bits_dropped : (d : ℕ) → ltb 24 (bit_length d) ≡ false → d ≡ d / 2 ^ dropped d * 2 ^ dropped d
no_bits_dropped d short = let e : dropped d ≡ 0 = ground arith in rw e (omega arith)

kept_bits :
    (d : ℕ)
    → 0 < d
    → d < 2 ^ 255
    → target_to_diff (diff_to_target d) ≡ d / 2 ^ dropped d * 2 ^ dropped d
unfolding target_to_diff
kept_bits d p h =
    let (el, ep) = target-prefix d p h in
    elim (Bool-cases (ltb 24 (bit_length d))) [
      | inl long ↦ rw (el, ep, long, diff_prefix-long d long)
      | inr short ↦ rw (el, ep, short, diff_prefix-short d short) (no_bits_dropped d short)
    ]

-- The difficulty back from the target of a difficulty below 2^255 has its first 24 bits, and zeros
-- behind them.
pub target_to_diff-diff_to_target :
    (d : ℕ) → d < 2 ^ 255 → target_to_diff (diff_to_target d) ≡ d / 2 ^ dropped d * 2 ^ dropped d
target_to_diff-diff_to_target zero h = unfold target_to_diff diff_to_target bit_length in refl
target_to_diff-diff_to_target (suc n) h = kept_bits (suc n) (omega arith) h

-- For a difficulty below 2^255, the difficulty back from its target is no larger, and less by one part
-- in 2^23 at most.
pub target_to_diff-diff_to_target_bounds :
    (d : ℕ)
    → d < 2 ^ 255
    → let back = target_to_diff (diff_to_target d) in (back ≤ d) × ((d - back) * 2 ^ 23 ≤ d)
target_to_diff-diff_to_target_bounds d h =
    let pow = 2 ^ dropped d in
    let e = target_to_diff-diff_to_target d h in
    let below = div-mul-le_self d pow in
    let above : d < d / pow * pow + pow = lt-div-mul-add (pow_pos (dropped d)) in
    elim (Bool-cases (ltb 24 (bit_length d))) [
      | inl long ↦
          let b = shifted_bounds d (positive d (ground arith)) (ground arith) in
          (omega (arith, e, below), omega (arith, e, below, above, b.0))
      | inr short ↦
          let same = no_bits_dropped d short in (omega (arith, e, same), omega (arith, e, same))
    ]
  where
    positive : (d : ℕ) → 24 < bit_length d → 0 < d
    positive zero k = absurd (unfold bit_length in omega arith)
    positive (suc n) k = omega arith

-- A prefix of 24 bits, shifted to a length.
module _ (len prefix : ℕ) (lo : 24 ≤ len) (hi : len < 256) (p : 2 ^ 23 ≤ prefix)
    (q : prefix < 2 ^ 24) where
  abbrev shifted : ℕ
  shifted = prefix * 2 ^ (len - 24)

  shifted-HasBits : HasBits len shifted
  shifted-HasBits =
      let e : len ≡ 24 + (len - 24) = omega arith in
      let pow : 2 ^ len ≡ 2 ^ 24 * 2 ^ (len - 24) =
        ap (λ (n : ℕ). 2 ^ n) e ∙ pow_add 24 (len - 24) in
      let pos = pow_pos (len - 24) in
      record { below = rw pow (grind arith); above = rw pow (grind arith) }

  shifted_pos : 0 < shifted
  shifted_pos = let pos = pow_pos (len - 24) in grind arith

  bit_length-shifted : bit_length shifted ≡ len
  bit_length-shifted =
      HasBits-unique (bit_length shifted) len shifted (bit_length-HasBits shifted shifted_pos)
        shifted-HasBits

  diff_prefix-shifted : diff_prefix shifted ≡ prefix
  diff_prefix-shifted = elim (Bool-cases (ltb 24 len)) [
    | inl long ↦
        diff_prefix-long shifted (rw bit_length-shifted long)
        ∙ rw bit_length-shifted (mul-div_cancel prefix (pow_pos (len - 24)))
    | inr short ↦
        let e : len ≡ 24 = ground arith in
        diff_prefix-short shifted (rw bit_length-shifted short) ∙ rw e (omega arith)
  ]

  target_to_diff-shifted : target_to_diff (len * 2 ^ 24 + prefix) ≡ shifted
  unfolding target_to_diff
  target_to_diff-shifted =
      let el : (len * 2 ^ 24 + prefix) / 2 ^ 24 ≡ len = omega arith in
      let ep : (len * 2 ^ 24 + prefix) % 2 ^ 24 ≡ prefix = omega arith in
      elim (Bool-cases (ltb 24 len)) [
        | inl long ↦ rw (el, ep, long)
        | inr short ↦ let e : len ≡ 24 = ground arith in rw (el, ep, short, e) (omega arith)
      ]

  -- A target whose prefix fills its 24 bits, of a length from 24 to 255, is the target of the
  -- difficulty that it stands for.
  pub diff_to_target-target_to_diff :
      diff_to_target (target_to_diff (len * 2 ^ 24 + prefix)) ≡ len * 2 ^ 24 + prefix
  unfolding diff_to_target
  diff_to_target-target_to_diff =
      let more : (shifted == 0) ≡ false = let pos = shifted_pos in ground arith in
      rw (target_to_diff-shifted, more, bit_length-shifted, diff_prefix-shifted) (omega arith)
