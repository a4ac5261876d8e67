-- ===== src/Cp.antt =====
-- serialize/cp: the data that the nodes exchange and hash, how it is marshalled, and what `Verify`
-- checks. cp.go, head.go, and what block_header.go and evidence.go take from outside.
pub mod Head
pub mod Description
pub mod Header
pub mod Evidence
pub mod Block
pub mod SyncRequest
pub mod SyncResponse
pub mod BlockRequest
pub mod BlockResponse
pub mod BlockBroadcast
pub mod EvidenceBroadcast
pub mod PowCache
pub mod Validity
pub mod Tests
use blockchain.Common.{ℕ, Bool, Option, Bytes, [], ◌∷◌}

abbrev pub core_protocol_v1 : ℕ
core_protocol_v1 = 1

-- CoreMsgType
abbrev pub msg_sync_req : ℕ
msg_sync_req = 1

abbrev pub msg_sync_resp : ℕ
msg_sync_resp = 2

abbrev pub msg_block_request : ℕ
msg_block_request = 3

abbrev pub msg_block_response : ℕ
msg_block_response = 4

abbrev pub msg_block_broadcast : ℕ
msg_block_broadcast = 5

abbrev pub msg_evidence_broadcast : ℕ
msg_evidence_broadcast = 6

-- `[]byte("EMPTY")`
abbrev pub empty_evidence_root : Bytes
empty_evidence_root = b'E' ∷ b'M' ∷ b'P' ∷ b'T' ∷ b'Y' ∷ []

-- utils.HashLength, `sha256.Size`
abbrev pub hash_length : ℕ
hash_length = 32

-- btcec.PubKeyBytesLenCompressed
abbrev pub pub_key_length : ℕ
pub_key_length = 33

abbrev pub max_description_len : ℕ
max_description_len = 140

-- The errors of the `Verify` methods; the last five carry the error that they wrap.
pub data VerifyError : Type 0 where
  invalid_version invalid_type invalid_base invalid_end : VerifyError
  invalid_last_hash invalid_miner nil_evidence_root invalid_evidence_root : VerifyError
  invalid_hash invalid_pub_key_len not_utf8 description_too_long : VerifyError
  invalid_signature invalid_pub_key signature_failed : VerifyError
  unexpected_evidence missing_evidence nil_evidence : VerifyError
  header_failed evidence_failed : VerifyError → VerifyError
  invalid_block invalid_evidence : VerifyError → VerifyError

-- github.com/btcsuite/btcd/btcec, which the repository only calls.
pub record Btcec : Type 1 where
  pub Signature : Type 0
  pub PublicKey : Type 0
  pub parse_signature : Bytes → Option Signature
  pub parse_pub_key : Bytes → Option PublicKey
  pub verify : Signature → Bytes → PublicKey → Bool
