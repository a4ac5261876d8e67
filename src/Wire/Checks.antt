-- ===== src/Wire/Checks.antt =====
-- Test data: bytes that are checked to be bytes by running a test.
use blockchain.Common.{ℕ, zero, suc, ◌≡◌, arith, Bool, true, ◌&&◌, Bytes, [], ◌∷◌, ltb, length}
use blockchain.Wire.{IsBytes}
use blockchain.Wire.Parses.{Below}

abbrev pub are_bytes : Bytes → Bool
are_bytes [] = true
are_bytes (b ∷ bs) = ltb b 256 && are_bytes bs

pub are_bytes-IsBytes : (bs : Bytes) → are_bytes bs ≡ true → IsBytes bs
are_bytes-IsBytes [] e = tt
are_bytes-IsBytes (b ∷ bs) e = ground (arith, are_bytes-IsBytes bs)

pub are_bytes-Below :
    (bound : ℕ) (bs : Bytes) → are_bytes bs ≡ true → ltb (length bs) bound ≡ true → Below bound bs
are_bytes-Below bound bs e f = (are_bytes-IsBytes bs e, ground arith)

abbrev pub filled_with : ℕ → ℕ → Bytes
filled_with zero b = []
filled_with (suc n) b = b ∷ filled_with n b
