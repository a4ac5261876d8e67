-- ===== src/Db/Keys.antt =====
-- The kinds of keys of db/schema.go, and that no key is one of two kinds or names two things.
use blockchain.Common.{
  ℕ, ◌+◌, ◌<◌, ◌^◌, ◌≡◌, refl, sym, ap, ◌∙◌, arith, Bytes, [], ◌∷◌, ◌++◌, length, take, drop,
  length-append, take-append_self, drop-append_self, append_assoc, ◌==◌, if◌then◌else◌,
}
use blockchain.Wire.Numbers.{length-put_uint}
use blockchain.Wire.Reads.{Reads-uint}
use blockchain.Db.Schema.{
  hbyte, byteh, get_header_key, get_hash_key, get_header_height_key, get_block_key,
  get_evidence_key, get_evidence_height_key, get_score_key, get_account_evidence_key_prefix,
  latest_height_key, genesis_key,
}

pub data Key : Type 0 where
  header block evidence : ℕ → Bytes → Key
  hash_at : ℕ → Key
  header_height evidence_height score : Bytes → Key
  account_evidence : Bytes → Bytes → Key
  latest_height genesis : Key

unfoldable pub encode : Key → Bytes
unfolding get_header_key get_hash_key get_header_height_key get_block_key get_evidence_key
    get_evidence_height_key get_score_key get_account_evidence_key_prefix
encode (header height k) = get_header_key height k
encode (block height k) = get_block_key height k
encode (evidence height k) = get_evidence_key height k
encode (hash_at height) = get_hash_key height
encode (header_height k) = get_header_height_key k
encode (evidence_height k) = get_evidence_height_key k
encode (score key) = get_score_key key
encode (account_evidence key k) = get_account_evidence_key_prefix key ++ k
encode latest_height = latest_height_key
encode genesis = genesis_key

-- Heights are of 64 bits, hashes 32 bytes long and public keys 33.
abbrev pub IsKey : Key → Type 0
IsKey (header height k) = (height < 2 ^ 64) × (length k ≡ 32)
IsKey (block height k) = (height < 2 ^ 64) × (length k ≡ 32)
IsKey (evidence height k) = (height < 2 ^ 64) × (length k ≡ 32)
IsKey (hash_at height) = height < 2 ^ 64
IsKey (header_height k) = length k ≡ 32
IsKey (evidence_height k) = length k ≡ 32
IsKey (score key) = length key ≡ 33
IsKey (account_evidence key k) = (length key ≡ 33) × (length k ≡ 32)
IsKey latest_height = Unit {0}
IsKey genesis = Unit {0}

abbrev head_of : Bytes → ℕ
head_of [] = 0
head_of (b ∷ bs) = b

abbrev tail_of : Bytes → Bytes
tail_of [] = []
tail_of (b ∷ bs) = bs

-- A key read back by its length and its first byte.
abbrev by_height : ℕ → ℕ → Bytes → Key
by_height c height k =
    if c == b'h' then header height k else if c == b'b' then block height k else evidence height k

abbrev by_hash : ℕ → Bytes → Key
by_hash c k = if c == b'H' then header_height k else evidence_height k

decode : ℕ → Bytes → Key
unfolding byteh
decode n bs =
    if n == 41
    then by_height (head_of bs) (byteh (tail_of bs)) (drop 8 (tail_of bs))
    else if n == 33
    then by_hash (head_of bs) (tail_of bs)
    else if n == 10
    then hash_at (byteh (tail_of bs))
    else if n == 38
    then score (take 33 bs)
    else if n == 66
    then account_evidence (take 33 bs) (tail_of (drop 33 bs))
    else if n == 12
    then latest_height
    else genesis

pub byteh-hbyte :
    (height : ℕ) (rest : Bytes) → height < 2 ^ 64 → byteh (hbyte height ++ rest) ≡ height
unfolding byteh hbyte
byteh-hbyte height rest lt = rw ((Reads-uint 8 height lt).run rest)

pub length-hbyte : (height : ℕ) → length (hbyte height) ≡ 8
unfolding hbyte
length-hbyte height = length-put_uint 8 height

take_front : (n : ℕ) (xs ys : Bytes) → length xs ≡ n → take n (xs ++ ys) ≡ xs
take_front n xs ys e = rw (← e) (take-append_self xs ys)

drop_front : (n : ℕ) (xs ys : Bytes) → length xs ≡ n → drop n (xs ++ ys) ≡ ys
drop_front n xs ys e = rw (← e) (drop-append_self xs ys)

abbrev pub key_length : Key → ℕ
key_length (header height k) = 41
key_length (block height k) = 41
key_length (evidence height k) = 41
key_length (hash_at height) = 10
key_length (header_height k) = 33
key_length (evidence_height k) = 33
key_length (score key) = 38
key_length (account_evidence key k) = 66
key_length latest_height = 12
key_length genesis = 8

behind_height : (height : ℕ) (k : Bytes) → length (hbyte height ++ k) ≡ 8 + length k
behind_height height k = omega (arith, length-append (hbyte height) k, length-hbyte height)

pub length-encode : (a : Key) → IsKey a → length (encode a) ≡ key_length a
unfolding encode
length-encode (header height k) (lt, e) = omega (arith, behind_height height k)
length-encode (block height k) (lt, e) = omega (arith, behind_height height k)
length-encode (evidence height k) (lt, e) = omega (arith, behind_height height k)
length-encode (hash_at height) lt = omega (arith, behind_height height (b'n' ∷ []))
length-encode (header_height k) e = omega arith
length-encode (evidence_height k) e = omega arith
length-encode (score key) e = omega (arith, length-append {0} key)
length-encode (account_evidence key k) (e, f) =
    omega (arith, length-append (key ++ (b'e' ∷ [])) k, length-append key (b'e' ∷ []))
length-encode latest_height e = refl
length-encode genesis e = refl

account_key : (key k : Bytes) → get_account_evidence_key_prefix key ++ k ≡ key ++ (b'e' ∷ k)
unfolding get_account_evidence_key_prefix
account_key key k = append_assoc key (b'e' ∷ []) k

decode-encode : (a : Key) → IsKey a → decode (key_length a) (encode a) ≡ a
unfolding decode encode
decode-encode (header height k) (lt, e) =
    rw (byteh-hbyte height k lt, drop_front 8 (hbyte height) k (length-hbyte height))
decode-encode (block height k) (lt, e) =
    rw (byteh-hbyte height k lt, drop_front 8 (hbyte height) k (length-hbyte height))
decode-encode (evidence height k) (lt, e) =
    rw (byteh-hbyte height k lt, drop_front 8 (hbyte height) k (length-hbyte height))
decode-encode (hash_at height) lt = rw (byteh-hbyte height (b'n' ∷ []) lt)
decode-encode (header_height k) e = refl
decode-encode (evidence_height k) e = refl
decode-encode (score key) e = ap score (take_front 33 key _ e)
decode-encode (account_evidence key k) (e, f) =
    rw (account_key key k, take_front 33 key (b'e' ∷ k) e, drop_front 33 key (b'e' ∷ k) e)
decode-encode latest_height e = refl
decode-encode genesis e = refl

-- Two keys, of the same kind or not, with the heights and lengths that the database uses, have the
-- same bytes only where they are the same kind of key for the same things.
pub encode_injective : (a b : Key) → IsKey a → IsKey b → encode a ≡ encode b → a ≡ b
encode_injective a b ka kb e =
    let same : key_length a ≡ key_length b =
      sym (length-encode a ka) ∙ ap length e ∙ length-encode b kb in
    sym (decode-encode a ka) ∙ rw (same, e) (decode-encode b kb)
