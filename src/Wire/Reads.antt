-- ===== src/Wire/Reads.antt =====
-- What was written is read back, whatever stands behind it: one rule for each way to read.
use blockchain.Common.{
  ℕ, ◌%◌, ◌^◌, ◌<◌, ◌≡◌, refl, ap, ◌∙◌, arith, Bytes, List, [], ◌∷◌, ◌++◌, length, append_assoc,
  take-append_self, drop-append_self, length-append, ok, All,
}
use blockchain.Common.Int.{
  ℤ, IsSigned, half64, half32, of_word, to_word64-lt, of_word-to_word64, to_word32-lt,
  of_word-to_word32,
}
use blockchain.Wire.{
  Reader, go_on, ◌>>=◌, ret, read_bytes, put_uint, read_uint, uint_from, put_int64, read_int64,
  put_int32, read_int32, uint8_len, uint16_len, put_slice8, read_slice8, put_slice16, read_slice16,
  read_times, put_each, put_list16, read_list16,
}
use blockchain.Wire.Numbers.{length-put_uint, uint_from-put_uint}

-- `p` reads `a` off `bytes` and leaves what follows them.
pub record Reads {ℓ} {A : Type ℓ} (p : Reader A) (bytes : Bytes) (a : A) : Type ℓ where
  pub run : (rest : Bytes) → p (bytes ++ rest) ≡ ok (a, rest)

module _ {ℓ κ} {A : Type ℓ} {B : Type κ} where
  bind_step :
      (p : Reader A) (f : A → Reader B) (src : Bytes) {rest : Bytes} {a : A}
      → p src ≡ ok (a, rest)
      → (p >>= f) src ≡ f a rest
  bind_step p f src e = ap (λ r. go_on r f) e

  pub Reads-bind :
      {p : Reader A} (f : A → Reader B) {xs ys : Bytes} {a : A} {b : B}
      → Reads p xs a
      → Reads (f a) ys b
      → Reads (p >>= f) (xs ++ ys) b
  Reads-bind {p} f {xs} {ys} h k = record {
    run = λ rest. rw (append_assoc xs ys rest) (bind_step p f _ (h.run (ys ++ rest)) ∙ k.run rest);
  }

  -- The last value read, and the result made of it.
  pub Reads-last :
      {p : Reader A} (g : A → B) {xs : Bytes} {a : A}
      → Reads p xs a
      → Reads (p >>= λ x. ret (g x)) xs (g a)
  Reads-last {p} g h = record { run = λ rest. bind_step p (λ x. ret (g x)) _ (h.run rest) }

pub Reads-ret {ℓ} : {A : Type ℓ} {a : A} → Reads (ret a) [] a
Reads-ret = record { run = λ rest. refl }

pub Reads-bytes : (bs : Bytes) (n : ℕ) → length bs ≡ n → Reads (read_bytes n) bs bs
unfolding read_bytes
Reads-bytes bs n e = record {
  run = λ rest.
      rw (← e)
        (ground (arith, length-append bs rest, take-append_self bs rest, drop-append_self bs rest));
}

pub Reads-uint : (n v : ℕ) → v < 256 ^ n → Reads (read_uint n) (put_uint n v) v
unfolding read_uint
Reads-uint n v h =
    let raw = Reads-last (uint_from 0) (Reads-bytes (put_uint n v) n (length-put_uint n v)) in
    rw (uint_from-put_uint n v h) at raw

pub Reads-int64 : (z : ℤ) → IsSigned half64 z → Reads read_int64 (put_int64 z) z
unfolding read_int64 put_int64
Reads-int64 z h =
    rw (of_word-to_word64 z h) at (Reads-last (of_word half64) (Reads-uint 8 _ (to_word64-lt z)))

pub Reads-int32 : (z : ℤ) → IsSigned half32 z → Reads read_int32 (put_int32 z) z
unfolding read_int32 put_int32
Reads-int32 z h =
    rw (of_word-to_word32 z h) at (Reads-last (of_word half32) (Reads-uint 4 _ (to_word32-lt z)))

pub Reads-slice8 : (bs : Bytes) → length bs < 256 → Reads read_slice8 (put_slice8 bs) bs
unfolding read_slice8 put_slice8 uint8_len
Reads-slice8 bs h =
    Reads-bind _ (Reads-uint 1 (length bs % 256) (omega arith)) (Reads-bytes bs _ (omega arith))

pub Reads-slice16 : (bs : Bytes) → length bs < 65536 → Reads read_slice16 (put_slice16 bs) bs
unfolding read_slice16 put_slice16 uint16_len
Reads-slice16 bs h =
    Reads-bind _ (Reads-uint 2 (length bs % 65536) (omega arith)) (Reads-bytes bs _ (omega arith))

-- As many values as were written, each by the same rule.
pub Reads-times {ℓ κ} :
    {A : Type ℓ} {P : A → Type κ} {p : Reader A} {put : A → Bytes}
    → ((a : A) → P a → Reads p (put a) a)
    → (vs : List A) → All P vs
    → Reads (read_times (length vs) p) (put_each put vs) vs
unfolding read_times put_each
Reads-times each [] h = Reads-ret
Reads-times each (v ∷ vs) h =
    Reads-bind _ (each v h.0) (Reads-last (◌∷◌ v) (Reads-times each vs h.1))

pub Reads-list16 {ℓ κ} :
    {A : Type ℓ} {P : A → Type κ} {p : Reader A} {put : A → Bytes}
    → ((a : A) → P a → Reads p (put a) a)
    → (vs : List A) → length vs < 65536
    → All P vs
    → Reads (read_list16 p) (put_list16 put vs) vs
unfolding read_list16 put_list16
Reads-list16 {p} {put} each vs h fits =
    let e : length vs % 65536 ≡ length vs = omega arith in
    rw e (Reads-bind _ (Reads-uint 2 (length vs) (omega arith)) (Reads-times each vs fits))
