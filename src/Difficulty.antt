-- ===== src/Difficulty.antt =====
-- core/blockchain/difficulty.go: the 32-bit target and the difficulty that it stands for. A target
-- holds a bit length in its first byte and the first 24 bits of the difficulty in the others.
pub mod Target
mod Bits
mod Tests
use blockchain.Common.{
  ℕ, zero, suc, ◌+◌, ◌-◌, ◌*◌, ◌/◌, ◌%◌, ◌^◌, Bool, true, false, ltb, ◌==◌, if◌then◌else◌,
}

-- diffPrefixBitsLen
abbrev pub diff_prefix_bits_len : ℕ
diff_prefix_bits_len = 24

-- The length of `fmt.Sprintf("%b", diff)`, but 0 for 0. Fuel `n` is enough, since `n` is halved.
unfoldable pub bit_length_from : ℕ → ℕ → ℕ
bit_length_from zero n = 0
bit_length_from (suc fuel) n =
    let rest = suc (bit_length_from fuel (n / 2)) in if n == 0 then 0 else rest

unfoldable pub bit_length : ℕ → ℕ
unfolding bit_length_from
bit_length n = bit_length_from n n

-- TargetToDiff. `target & 0x00FFFFFF` is the remainder by 2^24.
unfoldable pub target_to_diff : ℕ → ℕ
target_to_diff target =
    let length = target / 2 ^ 24 in
    let prefix = target % 2 ^ 24 in
    if ltb diff_prefix_bits_len length then prefix * 2 ^ (length - diff_prefix_bits_len) else prefix

-- The difficulty shifted to at most 24 bits.
unfoldable pub diff_prefix : ℕ → ℕ
unfolding bit_length
diff_prefix diff =
    if ltb diff_prefix_bits_len (bit_length diff)
    then diff / 2 ^ (bit_length diff - diff_prefix_bits_len)
    else diff

-- DiffToTarget. The length is shifted as a `uint32`, and wraps. The `|` joins numbers with no bit in
-- common, a multiple of 2^24 and one below it, and is a sum.
unfoldable pub diff_to_target : ℕ → ℕ
diff_to_target diff = if diff == 0 then 0 else bit_length diff * 2 ^ 24 % 2 ^ 32 + diff_prefix diff
