-- ===== src/Db/Schema.antt =====
-- db/schema.go: the keys. A slice that `append` makes longer is a new one here: the prefixes and the
-- keys that come in have no room behind them.
use blockchain.Common.{ℕ, Bytes, [], ◌∷◌, ◌++◌, Result, ok, err}
use blockchain.Wire.{ReadError, put_uint, read_uint}

unfoldable pub hbyte : ℕ → Bytes
unfolding put_uint
hbyte height = put_uint 8 height

-- The error of `binary.Read` is dropped, and leaves 0.
abbrev pub value_or_zero : Result ReadError (ℕ × Bytes) → ℕ
value_or_zero (ok (v, rest)) = v
value_or_zero (err e) = 0

unfoldable pub byteh : Bytes → ℕ
unfolding read_uint
byteh bs = value_or_zero (read_uint 8 bs)

unfoldable pub get_header_key : ℕ → Bytes → Bytes
unfolding hbyte
get_header_key height hash = b'h' ∷ (hbyte height ++ hash)

unfoldable pub get_hash_key : ℕ → Bytes
unfolding hbyte
get_hash_key height = b'h' ∷ (hbyte height ++ (b'n' ∷ []))

unfoldable pub get_header_height_key : Bytes → Bytes
get_header_height_key hash = b'H' ∷ hash

unfoldable pub get_block_key : ℕ → Bytes → Bytes
unfolding hbyte
get_block_key height hash = b'b' ∷ (hbyte height ++ hash)

unfoldable pub get_evidence_key : ℕ → Bytes → Bytes
unfolding hbyte
get_evidence_key height hash = b'e' ∷ (hbyte height ++ hash)

unfoldable pub get_evidence_height_key : Bytes → Bytes
get_evidence_height_key hash = b'E' ∷ hash

unfoldable pub get_score_key : Bytes → Bytes
get_score_key key = key ++ (b'S' ∷ b'c' ∷ b'o' ∷ b'r' ∷ b'e' ∷ [])

unfoldable pub get_account_evidence_key_prefix : Bytes → Bytes
get_account_evidence_key_prefix key = key ++ (b'e' ∷ [])

-- mLatestHeight and mGenesis.
abbrev pub latest_height_key : Bytes
latest_height_key =
    b'm' ∷ b'L' ∷ b'a' ∷ b't' ∷ b'e' ∷ b's' ∷ b't' ∷ b'H' ∷ b'e' ∷ b'i' ∷ b'g' ∷ b'h' ∷ []

abbrev pub genesis_key : Bytes
genesis_key = b'm' ∷ b'G' ∷ b'e' ∷ b'n' ∷ b'e' ∷ b's' ∷ b'i' ∷ b's' ∷ []
