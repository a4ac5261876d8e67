-- ===== src/Cp/Tests/Mining.antt =====
-- Runs of the theorems on `Verify` and `NextNonce` of serialize/cp.
use blockchain.Common.{
  ℕ, ◌≡◌, refl, Option, some, none, Bytes, length, leb, equal, if◌then◌else◌, ◌%◌,
}
use blockchain.Wire.Checks.{filled_with}
use blockchain.Cp.{Btcec}
use blockchain.Cp.Description.{verify_description, rune_count}
use blockchain.Cp.Header
use blockchain.Cp.Header.{BlockHeader}
use blockchain.Cp.Evidence
use blockchain.Cp.Evidence.{Evidence}
use blockchain.Cp.Block
use blockchain.Cp.Block.{Block}
use blockchain.Cp.Validity.{IsValidBlock, verify_block_iff}
use blockchain.Cp.PowCache.{header_next_nonce}
use blockchain.Cp.PowCache.Mining.{header_next_nonce_lem, filled, with_header_nonce}
use blockchain.Cp.Tests.{header, block}

abbrev pub toy_hash : Bytes → Bytes
toy_hash bs = filled_with 32 (length bs % 256)

abbrev parse : ℕ → Bytes → Option Bytes
parse n bs = if leb n (length bs) then some bs else none

abbrev pub toy_ec : Btcec
toy_ec = record {
  Signature = Bytes;
  PublicKey = Bytes;
  parse_signature = parse 1;
  parse_pub_key = parse 33;
  verify = λ s h k. equal h (filled_with 32 34);
}

verify_block_iff_example : IsValidBlock toy_hash toy_ec block
unfolding Block.verify Header.verify Evidence.verify verify_description rune_count equal
verify_block_iff_example = (verify_block_iff toy_hash toy_ec block).0 refl

header_next_nonce_lem_example :
    header_next_nonce toy_hash header (some (filled toy_hash (Header.marshal header)))
    ≡ some (
      Header.get_pow toy_hash (with_header_nonce header 70_001),
      with_header_nonce header 70_001,
      filled toy_hash (Header.marshal (with_header_nonce header 70_001)),
    )
header_next_nonce_lem_example =
    header_next_nonce_lem toy_hash header (filled toy_hash (Header.marshal header)) (λ _. refl)
