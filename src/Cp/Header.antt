-- ===== src/Cp/Header.antt =====
-- serialize/cp/block_header.go: the header of a block, its bytes and its checks.
use blockchain.Common.{
  ℕ, ◌^◌, ◌<◌, ◌≡◌, ◌↔◌, refl, sym, ap, subst, Bool, true, false, not, ◌||◌, Option, some, none,
  Bytes, [], ◌++◌, append-nil, length, equal, ◌==◌, Result, ok, ◌>>◌, guard,
}
use blockchain.Common.Int.{ℤ, IsSigned, half64}
use blockchain.Wire.{
  IsBytes, Reader, ◌>>=◌, ret, put_uint, read_uint, uint_from, put_int64, read_int64, put_slice8,
  read_slice8,
}
use blockchain.Wire.Reads.{Reads, Reads-bind, Reads-last, Reads-uint, Reads-int64, Reads-slice8}
use blockchain.Wire.Parses.{
  Parses, Emits, accepts_exactly, Below, Parses-bind, Parses-ret, Parses-uint, Parses-int64,
  Parses-slice8,
}
use blockchain.Cp.{
  core_protocol_v1, empty_evidence_root, hash_length, pub_key_length, VerifyError, invalid_version,
  invalid_last_hash, invalid_miner, nil_evidence_root, invalid_evidence_root,
}

-- `evidence_root` is tested for nil, so it is an option: `none` is a nil slice. The pointer `pc`
-- is the mining cache, which stands beside the header in `PowCache`.
pub record BlockHeader : Type 0 where
  pub version : ℕ
  pub time : ℤ
  pub nonce : ℕ
  pub target : ℕ
  pub last_hash : Bytes
  pub miner : Bytes
  pub evidence_root : Option Bytes

-- The bytes of a slice; a nil slice has none.
abbrev pub slice : Option Bytes → Bytes
slice none = []
slice (some bs) = bs

-- NewBlockHeaderV1; the clock is an argument.
abbrev pub new_header : ℤ → Bytes → Bytes → Bytes → BlockHeader
new_header now last_hash miner root = record {
  version = core_protocol_v1;
  time = now;
  nonce = 0;
  target = 0;
  last_hash = last_hash;
  miner = miner;
  evidence_root = some root;
}

unfoldable pub unmarshal : Reader BlockHeader
unmarshal = do
  version ← read_uint 1
  time ← read_int64
  nonce ← read_uint 4
  target ← read_uint 4
  last_hash ← read_slice8
  miner ← read_slice8
  root ← read_slice8
  ret (record {
    version = version;
    time = time;
    nonce = nonce;
    target = target;
    last_hash = last_hash;
    miner = miner;
    evidence_root = some root;
  })

unfoldable pub marshal : BlockHeader → Bytes
marshal b =
    put_uint 1 b.version
    ++ (put_int64 b.time
        ++ (put_uint 4 b.nonce
            ++ (put_uint 4 b.target
                ++ (put_slice8 b.last_hash
                    ++ (put_slice8 b.miner ++ put_slice8 (slice b.evidence_root))))))

abbrev pub is_empty_evidence_root : BlockHeader → Bool
is_empty_evidence_root b = equal (slice b.evidence_root) empty_evidence_root

abbrev is_nil : Option Bytes → Bool
is_nil none = true
is_nil (some _) = false

unfoldable pub verify : BlockHeader → Result VerifyError (Unit {0})
verify b = do
  guard (b.version == core_protocol_v1) invalid_version
  guard (length b.last_hash == hash_length) invalid_last_hash
  guard (length b.miner == pub_key_length) invalid_miner
  guard (not (is_nil b.evidence_root)) nil_evidence_root
  guard
      (equal (slice b.evidence_root) empty_evidence_root
        || length (slice b.evidence_root) == hash_length)
      invalid_evidence_root

-- GetSerializedHash and GetPow, over the hash of the repository.
unfoldable pub get_serialized_hash : (Bytes → Bytes) → BlockHeader → Bytes
get_serialized_hash hash b = hash (marshal b)

unfoldable pub get_pow : (Bytes → Bytes) → BlockHeader → ℕ
unfolding get_serialized_hash uint_from
get_pow hash b = uint_from 0 (get_serialized_hash hash b)

-- The fields are within their Go types, and the slices within their length bytes.
pub record Fits (b : BlockHeader) : Type 0 where
  pub version_lt : b.version < 256 ^ 1
  pub time_fits : IsSigned half64 b.time
  pub nonce_lt : b.nonce < 256 ^ 4
  pub target_lt : b.target < 256 ^ 4
  pub last_hash_fits : Below 256 b.last_hash
  pub miner_fits : Below 256 b.miner
  pub root_fits : Below 256 (slice b.evidence_root)
  pub root_there : b.evidence_root ≡ some (slice b.evidence_root)

pub Reads-header : (b : BlockHeader) → Fits b → Reads unmarshal (marshal b) b
unfolding unmarshal marshal
Reads-header b f =
    subst (Reads unmarshal (marshal b))
      (ap (λ r. record b { evidence_root = r }) (sym f.root_there)) raw
  where
    raw : Reads unmarshal (marshal b) (record b { evidence_root = some (slice b.evidence_root) })
    raw = Reads-bind _ (Reads-uint 1 b.version f.version_lt) (
        Reads-bind _ (Reads-int64 b.time f.time_fits) (
          Reads-bind _ (Reads-uint 4 b.nonce f.nonce_lt) (
            Reads-bind _ (Reads-uint 4 b.target f.target_lt) (
              Reads-bind _ (Reads-slice8 b.last_hash f.last_hash_fits.1) (
                Reads-bind _ (Reads-slice8 b.miner f.miner_fits.1)
                  (Reads-last _ (Reads-slice8 (slice b.evidence_root) f.root_fits.1)))))))

pub Parses-header : Parses unmarshal (Emits marshal Fits)
unfolding unmarshal marshal
Parses-header = Parses-bind _ _ (Parses-uint 1) λ version version_lt.
    Parses-bind _ _ Parses-int64 λ time time_fits. Parses-bind _ _ (Parses-uint 4) λ nonce nonce_lt.
      Parses-bind _ _ (Parses-uint 4) λ target target_lt.
        Parses-bind _ _ Parses-slice8 λ last_hash last_hash_fits.
          Parses-bind _ _ Parses-slice8 λ miner miner_fits.
            Parses-bind _ _ Parses-slice8 λ root root_fits. Parses-ret (
              rw append-nil,
              record {
                version_lt = version_lt;
                time_fits = time_fits;
                nonce_lt = nonce_lt;
                target_lt = target_lt;
                last_hash_fits = last_hash_fits;
                miner_fits = miner_fits;
                root_fits = root_fits;
                root_there = refl;
              },
            )

-- On any bytes, reading gives this header and leaves `rest` exactly when the bytes are those marshalled
-- for it, with `rest` behind them, and its fields are within their widths.
unmarshal_header_iff :
    (src rest : Bytes) (b : BlockHeader)
    → IsBytes src
    → (unmarshal src ≡ ok (b, rest)) ↔ ((src ≡ marshal b ++ rest) × Fits b)
unmarshal_header_iff = accepts_exactly Reads-header Parses-header
