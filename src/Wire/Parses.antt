-- ===== src/Wire/Parses.antt =====
-- What a reader accepts: the bytes that it took are those that would be written for its value.
use blockchain.Common.{
  ℕ, zero, suc, ◌%◌, ◌^◌, ◌≤◌, ◌<◌, ◌≡◌, ◌↔◌, refl, sym, ap, subst, ◌∙◌, arith, Bytes, List, [],
  ◌++◌, length, take, drop, append_assoc, append-nil, take-append-drop, length-take_of_le, All-take,
  All-drop, Result, ok, err, All,
}
use blockchain.Common.Int.{IsSigned, half64, half32, to_word-of_word64, to_word-of_word32}
use blockchain.Wire.Reads.{Reads}
use blockchain.Wire.Numbers.{put_uint-uint_from, uint_from-lt_pow}
use blockchain.Wire.{
  IsByte, IsBytes, ReadError, Reader, go_on, ◌>>=◌, ret, read_bytes, put_uint, read_uint, put_int64,
  read_int64, put_int32, read_int32, uint8_len, uint16_len, put_slice8, read_slice8, put_slice16,
  read_slice16, read_times, put_each, put_list16, read_list16,
}

-- A run of `p` over bytes took `used` off the front and left `rest`, and `Q` holds of the value
-- and the bytes taken.
pub record Took {ℓ} {A : Type ℓ} (Q : A → Bytes → Type 0) (src rest : Bytes) (a : A) : Type 0 where
  pub used : Bytes
  pub splits : src ≡ used ++ rest
  pub rest_IsBytes : IsBytes rest
  pub holds : Q a used

pub record Parses {ℓ} {A : Type ℓ} (p : Reader A) (Q : A → Bytes → Type 0) : Type ℓ where
  pub run :
      (src : Bytes)
      → IsBytes src
      → (a : A) (rest : Bytes) → p src ≡ ok (a, rest)
      → Took Q src rest a

-- The bytes are those of `put`, and the value is one that `put` was meant for.
abbrev pub Emits {ℓ} : {A : Type ℓ} → (A → Bytes) → (A → Type 0) → A → Bytes → Type 0
Emits put Fits a used = (used ≡ put a) × Fits a

module _ {ℓ κ} {A : Type ℓ} {B : Type κ} where
  go_on-eq-ok :
      (r : Result ReadError (A × Bytes)) (f : A → Reader B) {b : B} {rest : Bytes}
      → go_on r f ≡ ok (b, rest)
      → (a : A) × (mid : Bytes) × (r ≡ ok (a, mid)) × (f a mid ≡ ok (b, rest))
  go_on-eq-ok (ok (a, mid)) f h = (a, mid, refl, h)
  go_on-eq-ok (err e) f h = cc

  pub Parses-bind :
      {p : Reader A} (f : A → Reader B) {put : A → Bytes} {Fits : A → Type 0}
      (Q : B → Bytes → Type 0)
      → Parses p (Emits put Fits)
      → ((a : A) → Fits a → Parses (f a) (λ b used. Q b (put a ++ used)))
      → Parses (p >>= f) Q
  Parses-bind {p} f {put} Q hp hf = record { run = go }
    where
      go :
          (src : Bytes)
          → IsBytes src
          → (b : B) (rest : Bytes) → go_on (p src) f ≡ ok (b, rest)
          → Took Q src rest b
      go src bytes b rest e =
          let (a, mid, ep, ef) = go_on-eq-ok (p src) f e in
          let first = hp.run src bytes a mid ep in
          let second = (hf a first.holds.1).run mid first.rest_IsBytes b rest ef in
          record {
            used = first.used ++ second.used;
            splits =
                first.splits
                ∙ ap (◌++◌ first.used) second.splits
                ∙ sym (append_assoc first.used second.used rest);
            rest_IsBytes = second.rest_IsBytes;
            holds = rw (first.holds.0) second.holds;
          }

pub Parses-ret {ℓ} : {A : Type ℓ} {a : A} {Q : A → Bytes → Type 0} → Q a [] → Parses (ret a) Q
Parses-ret {Q} q = record {
  run = λ src bytes b rest e. record {
    used = [];
    splits = cc;
    rest_IsBytes = subst IsBytes (cc) bytes;
    holds = subst (λ x. Q x []) (cc) q;
  };
}

pub Parses-weaken {ℓ} :
    {A : Type ℓ} {p : Reader A} {Q R : A → Bytes → Type 0}
    → Parses p Q
    → ((a : A) (used : Bytes) → Q a used → R a used)
    → Parses p R
Parses-weaken h k = record {
  run = λ src bytes a rest e.
      let t = h.run src bytes a rest e in
      record {
        used = t.used;
        splits = t.splits;
        rest_IsBytes = t.rest_IsBytes;
        holds = k a t.used t.holds;
      };
}

read_bytes-ok :
    (n : ℕ) (src bs rest : Bytes)
    → read_bytes n src ≡ ok (bs, rest)
    → (n ≤ length src) × (bs ≡ take n src) × (rest ≡ drop n src)
unfolding read_bytes
read_bytes-ok n src bs rest e = ground arith

pub Parses-IsBytes :
    (n : ℕ) → Parses (read_bytes n) (Emits (λ bs. bs) (λ bs. IsBytes bs × (length bs ≡ n)))
Parses-IsBytes n = record {
  run = λ src bytes bs rest e.
      let (le, eb, er) = read_bytes-ok n src bs rest e in
      record {
        used = take n src;
        splits = rw er (sym (take-append-drop n src));
        rest_IsBytes = rw er (All-drop IsByte n src bytes);
        holds = (sym eb, (rw eb (All-take IsByte n src bytes), rw eb (length-take_of_le n src le)));
      };
}

pub Parses-uint : (n : ℕ) → Parses (read_uint n) (Emits (put_uint n) (λ v. v < 256 ^ n))
unfolding read_uint
Parses-uint n = Parses-bind _ _ (Parses-IsBytes n) λ bs h.
    Parses-ret
      (append-nil bs ∙ sym (put_uint-uint_from n bs h.0 h.1), uint_from-lt_pow n bs h.0 h.1)

pub Parses-int64 : Parses read_int64 (Emits put_int64 (IsSigned half64))
unfolding read_int64 put_int64
Parses-int64 =
    Parses-bind _ _ (Parses-uint 8)
      λ w h. let (e, s) = to_word-of_word64 w h in Parses-ret (rw (e, append-nil) refl, s)

pub Parses-int32 : Parses read_int32 (Emits put_int32 (IsSigned half32))
unfolding read_int32 put_int32
Parses-int32 =
    Parses-bind _ _ (Parses-uint 4)
      λ w h. let (e, s) = to_word-of_word32 w h in Parses-ret (rw (e, append-nil) refl, s)

-- A slice of bytes shorter than `bound`.
abbrev pub Below : ℕ → Bytes → Type 0
Below bound bs = IsBytes bs × (length bs < bound)

pub Parses-slice8 : Parses read_slice8 (Emits put_slice8 (Below 256))
unfolding read_slice8 put_slice8 uint8_len
Parses-slice8 = Parses-bind _ _ (Parses-uint 1) λ n hn.
    Parses-weaken (Parses-IsBytes n)
      λ bs used h. let e : length bs % 256 ≡ n = omega arith in (rw (e, h.0), (h.1.0, omega arith))

pub Parses-slice16 : Parses read_slice16 (Emits put_slice16 (Below 65536))
unfolding read_slice16 put_slice16 uint16_len
Parses-slice16 = Parses-bind _ _ (Parses-uint 2) λ n hn.
    Parses-weaken (Parses-IsBytes n) λ bs used h.
      let e : length bs % 65536 ≡ n = omega arith in (rw (e, h.0), (h.1.0, omega arith))

pub Parses-times {ℓ} :
    {A : Type ℓ} {p : Reader A} {put : A → Bytes} {P : A → Type 0}
    → Parses p (Emits put P)
    → (n : ℕ) → Parses (read_times n p) (Emits (put_each put) (λ vs. (length vs ≡ n) × All P vs))
unfolding read_times put_each
Parses-times h zero = Parses-ret (refl, (refl, tt))
Parses-times h (suc n) = Parses-bind _ _ h λ v hv.
    Parses-bind _ _ (Parses-times h n)
      λ vs hvs. Parses-ret (rw append-nil, (ap suc hvs.0, (hv, hvs.1)))

-- A list shorter than 65536 whose values are all fit.
abbrev pub IsList16 {ℓ} : {A : Type ℓ} → (A → Type 0) → List A → Type 0
IsList16 P vs = (length vs < 65536) × All P vs

pub Parses-IsList16 {ℓ} :
    {A : Type ℓ} {p : Reader A} {put : A → Bytes} {P : A → Type 0}
    → Parses p (Emits put P)
    → Parses (read_list16 p) (Emits (put_list16 put) (IsList16 P))
unfolding read_list16 put_list16
Parses-IsList16 h = Parses-bind _ _ (Parses-uint 2) λ n hn.
    Parses-weaken (Parses-times h n) λ vs used t.
      let e : length vs % 65536 ≡ n = omega arith in (rw (e, t.0), (omega arith, t.1.1))

-- With both rules the reader accepts exactly the bytes that are written for a fit value.
pub accepts_exactly {ℓ} :
    {A : Type ℓ} {p : Reader A} {put : A → Bytes} {P : A → Type 0}
    → ((a : A) → P a → Reads p (put a) a)
    → Parses p (Emits put P)
    → (src rest : Bytes) (a : A) → IsBytes src
    → (p src ≡ ok (a, rest)) ↔ ((src ≡ put a ++ rest) × P a)
accepts_exactly {p} {put} {P} each all src rest a bytes =
    (there, λ h. rw (h.0) ((each a h.1).run rest))
  where
    there : p src ≡ ok (a, rest) → (src ≡ put a ++ rest) × P a
    there e = let t = all.run src bytes a rest e in (rw (← t.holds.0) t.splits, t.holds.1)
