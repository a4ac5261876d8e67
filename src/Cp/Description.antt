-- ===== src/Cp/Description.antt =====
-- `VerifyDescription` of serialize/cp/evidence.go, with `utf8.RuneCountInString` as Go documents
-- it: erroneous and short encodings count as one rune for a byte.
use blockchain.Common.{
  ℕ, zero, suc, ◌≤◌, ◌≡◌, refl, ◌↔◌, arith, Bool, true, false, ◌&&◌, Bytes, [], ◌∷◌, leb, ◌==◌,
  if◌then◌else◌, length, Result, ok, ◌>>◌, guard,
}
use blockchain.Common.Int.{ℤ, pos, negsuc}
use blockchain.Cp.{VerifyError, not_utf8, description_too_long, max_description_len}

abbrev within : ℕ → ℕ → ℕ → Bool
within lo hi c = leb lo c && leb c hi

-- The bounds of the second byte, by the first.
abbrev second_low : ℕ → ℕ
second_low c = if c == 0xe0 then 0xa0 else if c == 0xf0 then 0x90 else 0x80

abbrev second_high : ℕ → ℕ
second_high c = if c == 0xed then 0x9f else if c == 0xf4 then 0x8f else 0xbf

-- The width that a first byte announces; 1 for a byte that begins no longer rune.
abbrev announced_width : ℕ → ℕ
announced_width c =
    if within 0xc2 0xdf c
    then 2
    else if within 0xe0 0xef c
    then 3
    else if within 0xf0 0xf4 c
    then 4
    else 1

-- The tests on the bytes behind the first, for each width.
abbrev is_tail2 : ℕ → Bytes → Bool
is_tail2 c [] = false
is_tail2 c (d ∷ _) = within (second_low c) (second_high c) d

abbrev is_tail3 : ℕ → Bytes → Bool
is_tail3 c (d ∷ e ∷ _) = within (second_low c) (second_high c) d && within 0x80 0xbf e
is_tail3 c _ = false

abbrev is_tail4 : ℕ → Bytes → Bool
is_tail4 c (d ∷ e ∷ f ∷ _) =
    within (second_low c) (second_high c) d && within 0x80 0xbf e && within 0x80 0xbf f
is_tail4 c _ = false

-- The bytes that the rune at the front takes, beyond the first.
rune_tail : ℕ → Bytes → ℕ
rune_tail c rest =
    let w = announced_width c in
    if w == 2 && is_tail2 c rest
    then 1
    else if w == 3 && is_tail3 c rest
    then 2
    else if w == 4 && is_tail4 c rest
    then 3
    else 0

-- The runes of a text of which `skip` more bytes belong to a rune that is counted already.
rune_count_from : ℕ → Bytes → ℕ
unfolding rune_tail
rune_count_from skip [] = 0
rune_count_from zero (c ∷ rest) = suc (rune_count_from (rune_tail c rest) rest)
rune_count_from (suc skip) (c ∷ rest) = rune_count_from skip rest

unfoldable pub rune_count : Bytes → ℕ
unfolding rune_count_from
rune_count d = rune_count_from 0 d

abbrev is_minus_one : ℤ → Bool
is_minus_one (pos n) = false
is_minus_one (negsuc n) = n == 0

-- The count is an `int`, tested for -1 first.
unfoldable pub verify_description : Bytes → Result VerifyError (Unit {0})
verify_description d = do
  let count = pos (rune_count d)
  guard (if is_minus_one count then false else true) not_utf8
  guard (leb (rune_count d) max_description_len) description_too_long

rune_count_from-le : (skip : ℕ) (d : Bytes) → rune_count_from skip d ≤ length d
unfolding rune_count_from
rune_count_from-le skip [] = omega arith
rune_count_from-le zero (c ∷ rest) = omega (arith, rune_count_from-le (rune_tail c rest) rest)
rune_count_from-le (suc skip) (c ∷ rest) = omega (arith, rune_count_from-le skip rest)

pub rune_count-le-length : (d : Bytes) → rune_count d ≤ length d
unfolding rune_count
rune_count-le-length d = rune_count_from-le 0 d

-- `VerifyDescription` accepts a text exactly if it has at most as many runes as are allowed, whether
-- or not it is valid UTF-8.
pub verify_description_iff :
    (d : Bytes) → (verify_description d ≡ ok tt) ↔ (rune_count d ≤ max_description_len)
unfolding verify_description
verify_description_iff d = ground arith

three_runes : rune_count (0x61 ∷ 0xe6 ∷ 0x96 ∷ 0x87 ∷ 0xc3 ∷ 0xa9 ∷ []) ≡ 3
unfolding rune_count
three_runes = refl

broken_runes : rune_count (0xff ∷ 0xe6 ∷ 0x96 ∷ []) ≡ 3
unfolding rune_count
broken_runes = refl
