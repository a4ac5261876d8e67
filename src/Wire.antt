-- ===== src/Wire.antt =====
-- Reading and writing big-endian bytes, as `encoding/binary` does for serialize/: `binary.Write` to
-- a `bytes.Buffer` puts bytes at its end and cannot fail, `binary.Read` takes them off a reader.
pub mod Numbers
pub mod Reads
pub mod Parses
pub mod Checks
use blockchain.Common.{
  ℕ, zero, suc, ◌+◌, ◌*◌, ◌/◌, ◌%◌, ◌<◌, Bytes, List, [], ◌∷◌, ◌++◌, Result, ok, err, Bool, leb,
  if◌then◌else◌, length, take, drop, All,
}
use blockchain.Common.Int.{ℤ, half64, half32, to_word, of_word}

abbrev pub IsByte : ℕ → Type 0
IsByte b = b < 256

-- A slice of bytes.
abbrev pub IsBytes : Bytes → Type 0
IsBytes = All IsByte

-- `io.EOF` where nothing is left, `io.ErrUnexpectedEOF` where a part is; `invalid` stands for an
-- error of the text or number that was read.
pub data ReadError : Type 0 where
  eof unexpected_eof invalid : ReadError

-- A reader over the unread bytes. What is left after an error is not used by any caller.
abbrev pub Reader {ℓ} : Type ℓ → Type ℓ
Reader A = Bytes → Result ReadError (A × Bytes)

abbrev pub go_on {ℓ κ} :
    {A : Type ℓ} {B : Type κ}
    → Result ReadError (A × Bytes)
    → (A → Reader B)
    → Result ReadError (B × Bytes)
go_on (ok (a, rest)) f = f a rest
go_on (err e) f = err e

-- `if err = ...; err != nil { return nil, err }` between two reads.
infixl 5 ◌>>=◌
abbrev pub ◌>>=◌ {ℓ κ} : {A : Type ℓ} {B : Type κ} → Reader A → (A → Reader B) → Reader B
◌>>=◌ p f src = go_on (p src) f

abbrev pub ret {ℓ} : {A : Type ℓ} → A → Reader A
ret a src = ok (a, src)

-- The reader fails if the value read is refused.
abbrev pub lift {ℓ} : {A : Type ℓ} → Result ReadError A → Reader A
lift (ok a) src = ok (a, src)
lift (err e) src = err e

-- The error of `io.ReadFull` on too few bytes.
abbrev pub short_read : Bytes → ReadError
short_read [] = eof
short_read (_ ∷ _) = unexpected_eof

-- `binary.Read` into a slice of `n` bytes. No byte at all is read for `n` zero.
unfoldable pub read_bytes : ℕ → Reader Bytes
read_bytes n src = if leb n (length src) then ok (take n src, drop n src) else err (short_read src)

-- The `n` low bytes of `v`, the highest first, in front of `tail`.
unfoldable pub put_uint_onto : ℕ → ℕ → Bytes → Bytes
put_uint_onto zero v tail = tail
put_uint_onto (suc n) v tail = put_uint_onto n (v / 256) (v % 256 ∷ tail)

-- `binary.Write` of an unsigned number of `n` bytes.
unfoldable pub put_uint : ℕ → ℕ → Bytes
unfolding put_uint_onto
put_uint n v = put_uint_onto n v []

-- The number that the bytes stand for, behind those that were read already.
unfoldable pub uint_from : ℕ → Bytes → ℕ
uint_from acc [] = acc
uint_from acc (b ∷ bs) = uint_from (acc * 256 + b) bs

-- `binary.Read` into an unsigned number of `n` bytes.
unfoldable pub read_uint : ℕ → Reader ℕ
unfolding read_bytes uint_from
read_uint n = do bs ← read_bytes n; ret (uint_from 0 bs)

-- `binary.Write` and `binary.Read` of an `int64` and an `int32`.
unfoldable pub put_int64 : ℤ → Bytes
unfolding put_uint to_word
put_int64 z = put_uint 8 (to_word half64 z)

unfoldable pub read_int64 : Reader ℤ
unfolding read_uint of_word
read_int64 = do w ← read_uint 8; ret (of_word half64 w)

unfoldable pub put_int32 : ℤ → Bytes
unfolding put_uint to_word
put_int32 z = put_uint 4 (to_word half32 z)

unfoldable pub read_int32 : Reader ℤ
unfolding read_uint of_word
read_int32 = do w ← read_uint 4; ret (of_word half32 w)

-- utils.Uint8Len and utils.Uint16Len: the length wraps.
unfoldable pub uint8_len : Bytes → ℕ
uint8_len b = length b % 256

unfoldable pub uint16_len : Bytes → ℕ
uint16_len b = length b % 65536

-- A slice behind its length of one byte, or of two.
unfoldable pub put_slice8 : Bytes → Bytes
unfolding put_uint uint8_len
put_slice8 b = put_uint 1 (uint8_len b) ++ b

unfoldable pub read_slice8 : Reader Bytes
unfolding read_uint read_bytes
read_slice8 = do n ← read_uint 1; read_bytes n

unfoldable pub put_slice16 : Bytes → Bytes
unfolding put_uint uint16_len
put_slice16 b = put_uint 2 (uint16_len b) ++ b

unfoldable pub read_slice16 : Reader Bytes
unfolding read_uint read_bytes
read_slice16 = do n ← read_uint 2; read_bytes n

-- `for i := uint16(0); i < n; i++` over a reader: the values read, in order.
unfoldable pub read_times {ℓ} : {A : Type ℓ} → ℕ → Reader A → Reader (List A)
read_times zero p = ret []
read_times (suc n) p = do a ← p; as' ← read_times n p; ret (a ∷ as')

-- One `binary.Write` of the marshalled form for each value.
unfoldable pub put_each {ℓ} : {A : Type ℓ} → (A → Bytes) → List A → Bytes
put_each put [] = []
put_each put (a ∷ as') = put a ++ put_each put as'

-- `uint16(len(...))` and then each value: the count wraps, the values are all written.
unfoldable pub put_list16 {ℓ} : {A : Type ℓ} → (A → Bytes) → List A → Bytes
unfolding put_uint put_each
put_list16 put as' = put_uint 2 (length as' % 65536) ++ put_each put as'

unfoldable pub read_list16 {ℓ} : {A : Type ℓ} → Reader A → Reader (List A)
unfolding read_uint read_times
read_list16 p = do n ← read_uint 2; read_times n p
