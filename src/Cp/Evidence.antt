-- ===== src/Cp/Evidence.antt =====
-- serialize/cp/evidence.go: an evidence, its bytes and its checks.
use blockchain.Common.{
  ℕ, ◌+◌, ◌^◌, ◌<◌, ◌≡◌, ◌↔◌, Option, some, none, Bytes, [], ◌++◌, append-nil, length, ◌==◌, Result,
  ok, err, ◌>>◌, guard,
}
use blockchain.Wire.{
  IsBytes, Reader, ◌>>=◌, ret, put_uint, read_uint, uint_from, put_slice8, read_slice8, put_slice16,
  read_slice16,
}
use blockchain.Wire.Reads.{Reads, Reads-bind, Reads-last, Reads-uint, Reads-slice8, Reads-slice16}
use blockchain.Wire.Parses.{
  Parses, Emits, accepts_exactly, Below, Parses-bind, Parses-ret, Parses-uint, Parses-slice8,
  Parses-slice16,
}
use blockchain.Cp.{
  core_protocol_v1, hash_length, pub_key_length, Btcec, VerifyError, invalid_version, invalid_hash,
  invalid_pub_key_len, invalid_signature, invalid_pub_key, signature_failed,
}
use blockchain.Cp.Description.{verify_description}

pub record Evidence : Type 0 where
  pub version : ℕ
  pub nonce : ℕ
  pub hash : Bytes
  pub description : Bytes
  pub pub_key : Bytes
  pub sig : Bytes

-- NewEvidenceV1: the signature is a nil slice, which has no bytes.
abbrev pub new_evidence : Bytes → Bytes → Bytes → Evidence
new_evidence hash description pub_key = record {
  version = core_protocol_v1;
  nonce = 0;
  hash = hash;
  description = description;
  pub_key = pub_key;
  sig = [];
}

unfoldable pub unmarshal : Reader Evidence
unmarshal = do
  version ← read_uint 1
  nonce ← read_uint 4
  hash ← read_slice8
  description ← read_slice16
  pub_key ← read_slice8
  sig ← read_slice16
  ret (record {
    version = version;
    nonce = nonce;
    hash = hash;
    description = description;
    pub_key = pub_key;
    sig = sig;
  })

unfoldable pub marshal : Evidence → Bytes
marshal e =
    put_uint 1 e.version
    ++ (put_uint 4 e.nonce
        ++ (put_slice8 e.hash
            ++ (put_slice16 e.description ++ (put_slice8 e.pub_key ++ put_slice16 e.sig))))

-- EvidenceBasicLen, and the length of an evidence in bytes.
abbrev pub basic_len : ℕ
basic_len = 1 + 4 + 1 + 1 + 2 + 2

unfoldable pub size : Evidence → ℕ
size e = basic_len + length e.hash + length e.pub_key + length e.description + length e.sig

unfoldable pub get_serialized_hash : (Bytes → Bytes) → Evidence → Bytes
get_serialized_hash hash e = hash (marshal e)

unfoldable pub get_pow : (Bytes → Bytes) → Evidence → ℕ
unfolding get_serialized_hash uint_from
get_pow hash e = uint_from 0 (get_serialized_hash hash e)

-- The description first, then the hash.
unfoldable pub get_sign_content_hash : (Bytes → Bytes) → Evidence → Bytes
get_sign_content_hash hash e = hash (e.description ++ e.hash)

abbrev or_fail {ℓ} : {A : Type ℓ} → Option A → VerifyError → Result VerifyError A
or_fail none x = err x
or_fail (some a) x = ok a

infixl 5 ◌then_with◌
abbrev ◌then_with◌ {ℓ κ} :
    {A : Type ℓ} {B : Type κ}
    → Result VerifyError A
    → (A → Result VerifyError B)
    → Result VerifyError B
ok a then_with f = f a
err x then_with f = err x

unfoldable pub verify : (Bytes → Bytes) → (ec : Btcec) → Evidence → Result VerifyError (Unit {0})
unfolding get_sign_content_hash
verify hash ec e =
    guard (e.version == core_protocol_v1) invalid_version
    >> guard (length e.hash == hash_length) invalid_hash
    >> guard (length e.pub_key == pub_key_length) invalid_pub_key_len
    >> verify_description e.description
    >> or_fail (ec.parse_signature e.sig) invalid_signature
    then_with λ signature. or_fail (ec.parse_pub_key e.pub_key) invalid_pub_key then_with λ key.
        guard (ec.verify signature (get_sign_content_hash hash e) key) signature_failed

pub record Fits (e : Evidence) : Type 0 where
  pub version_lt : e.version < 256 ^ 1
  pub nonce_lt : e.nonce < 256 ^ 4
  pub hash_fits : Below 256 e.hash
  pub description_fits : Below 65536 e.description
  pub pub_key_fits : Below 256 e.pub_key
  pub sig_fits : Below 65536 e.sig

pub Reads-evidence : (e : Evidence) → Fits e → Reads unmarshal (marshal e) e
unfolding unmarshal marshal
Reads-evidence e f = Reads-bind _ (Reads-uint 1 e.version f.version_lt) (
    Reads-bind _ (Reads-uint 4 e.nonce f.nonce_lt) (
      Reads-bind _ (Reads-slice8 e.hash f.hash_fits.1) (
        Reads-bind _ (Reads-slice16 e.description f.description_fits.1) (
          Reads-bind _ (Reads-slice8 e.pub_key f.pub_key_fits.1)
            (Reads-last _ (Reads-slice16 e.sig f.sig_fits.1))))))

pub Parses-evidence : Parses unmarshal (Emits marshal Fits)
unfolding unmarshal marshal
Parses-evidence = Parses-bind _ _ (Parses-uint 1) λ version version_lt.
    Parses-bind _ _ (Parses-uint 4) λ nonce nonce_lt.
      Parses-bind _ _ Parses-slice8 λ hash hash_fits.
        Parses-bind _ _ Parses-slice16 λ description description_fits.
          Parses-bind _ _ Parses-slice8 λ pub_key pub_key_fits.
            Parses-bind _ _ Parses-slice16 λ sig sig_fits. Parses-ret (
              rw append-nil,
              record {
                version_lt = version_lt;
                nonce_lt = nonce_lt;
                hash_fits = hash_fits;
                description_fits = description_fits;
                pub_key_fits = pub_key_fits;
                sig_fits = sig_fits;
              },
            )

-- On any bytes, reading gives this evidence and leaves `rest` exactly when the bytes are those marshalled
-- for it, with `rest` behind them, and its fields are within their widths.
unmarshal_evidence_iff :
    (src rest : Bytes) (e : Evidence)
    → IsBytes src
    → (unmarshal src ≡ ok (e, rest)) ↔ ((src ≡ marshal e ++ rest) × Fits e)
unmarshal_evidence_iff = accepts_exactly Reads-evidence Parses-evidence
