-- ===== src/Wire/Numbers.antt =====
-- The bytes of a number, and the number of some bytes.
use blockchain.Common.{
  ℕ, zero, suc, ◌+◌, ◌*◌, ◌/◌, ◌%◌, ◌^◌, ◌≤◌, ◌<◌, ◌≡◌, refl, ◌∙◌, ap, arith, Bytes, [], ◌∷◌, ◌++◌,
  length, append-nil,
}
use native.Mathlib.Nat.{zero-add, pow-suc}
use blockchain.Wire.{IsBytes, put_uint_onto, put_uint, uint_from}

pub length-put_uint_onto :
    (n v : ℕ) (tail : Bytes) → length (put_uint_onto n v tail) ≡ n + length tail
unfolding put_uint_onto
length-put_uint_onto zero v tail = omega arith
length-put_uint_onto (suc n) v tail = omega (arith, length-put_uint_onto n _ (_ ∷ tail))

pub length-put_uint : (n v : ℕ) → length (put_uint n v) ≡ n
unfolding put_uint
length-put_uint n v = omega (arith, length-put_uint_onto n v [])

put_uint_onto-IsBytes : (n v : ℕ) (tail : Bytes) → IsBytes tail → IsBytes (put_uint_onto n v tail)
unfolding put_uint_onto
put_uint_onto-IsBytes zero v tail h = h
put_uint_onto-IsBytes (suc n) v tail h = put_uint_onto-IsBytes n _ _ (omega arith, h)

pub put_uint-IsBytes : (n v : ℕ) → IsBytes (put_uint n v)
unfolding put_uint
put_uint-IsBytes n v = put_uint_onto-IsBytes n v [] tt

uint_from-put_uint_onto :
    (n v : ℕ) (tail : Bytes) → v < 256 ^ n → uint_from 0 (put_uint_onto n v tail) ≡ uint_from v tail
unfolding put_uint_onto uint_from
uint_from-put_uint_onto zero v tail h = ground arith
uint_from-put_uint_onto (suc n) v tail h =
    uint_from-put_uint_onto n (v / 256) (v % 256 ∷ tail) (omega arith) ∙ ground arith

pub uint_from-put_uint : (n v : ℕ) → v < 256 ^ n → uint_from 0 (put_uint n v) ≡ v
unfolding put_uint
uint_from-put_uint n v h = uint_from-put_uint_onto n v [] h ∙ (unfold uint_from in refl)

put_uint_onto-uint_from :
    (bs : Bytes) (k v : ℕ) (tail : Bytes)
    → IsBytes bs
    → put_uint_onto (length bs + k) (uint_from v bs) tail ≡ put_uint_onto k v (bs ++ tail)
unfolding uint_from
put_uint_onto-uint_from [] k v tail h = rw (zero-add k)
put_uint_onto-uint_from (b ∷ bs) k v tail h =
    let e : suc (length bs) + k ≡ length bs + suc k = omega arith in
    rw e (
      put_uint_onto-uint_from bs (suc k) (v * 256 + b) tail h.1
      ∙ (unfold put_uint_onto in ground arith))

-- The bytes of the number that some bytes stand for are those bytes.
pub put_uint-uint_from :
    (n : ℕ) (bs : Bytes) → IsBytes bs → length bs ≡ n → put_uint n (uint_from 0 bs) ≡ bs
unfolding put_uint
put_uint-uint_from n bs h e =
    let e' : n ≡ length bs + 0 = omega arith in
    rw e' (put_uint_onto-uint_from bs 0 0 [] h ∙ (unfold put_uint_onto in append-nil bs))

mul_mono : (w m h : ℕ) → w ≤ m → w * h ≤ m * h
mul_mono w m h p = grind arith

uint_from-lt : (bs : Bytes) (v : ℕ) → IsBytes bs → uint_from v bs < (v + 1) * 256 ^ length bs
unfolding uint_from
uint_from-lt [] v h = omega arith
uint_from-lt (b ∷ bs) v h =
    let (hb, hbs) = h in
    let ih : uint_from v (b ∷ bs) < (v * 256 + b + 1) * 256 ^ length bs =
      uint_from-lt bs (v * 256 + b) hbs in
    omega (
      arith,
      ih,
      mul_mono (v * 256 + b + 1) ((v + 1) * 256) (256 ^ length bs) (omega arith),
      ap (λ (t : ℕ). (v + 1) * t) (pow-suc 256 (length bs)),
    )

pub uint_from-lt_pow : (n : ℕ) (bs : Bytes) → IsBytes bs → length bs ≡ n → uint_from 0 bs < 256 ^ n
uint_from-lt_pow n bs h e = rw (← e) (omega (arith, uint_from-lt bs 0 h))
