-- ===== src/Cp/Tests.antt =====
-- Runs of the theorems on the messages of serialize/cp.
pub mod Mining
use blockchain.Common.{
  ℕ, zero, suc, ◌+◌, ◌^◌, ◌<◌, ◌≤◌, ◌≡◌, ◌↔◌, refl, arith, inl, inr, Bool, true, false, Option,
  some, none, Bytes, List, [], ◌∷◌, ◌++◌, ok, length, ◌==◌, if◌then◌else◌,
}
use blockchain.Common.Int.{ℤ, pos, negsuc}
use blockchain.Wire.{IsBytes, put_uint, put_int64, put_slice8, put_slice16, put_list16, put_each}
use blockchain.Wire.Checks.{are_bytes-IsBytes, are_bytes-Below, filled_with}
use blockchain.Cp.{Btcec, core_protocol_v1, empty_evidence_root, hash_length, pub_key_length}
use blockchain.Cp.Head
use blockchain.Cp.Head.{Head, new_head}
use blockchain.Cp.Header
use blockchain.Cp.Header.{BlockHeader}
use blockchain.Cp.Evidence
use blockchain.Cp.Evidence.{Evidence}
use blockchain.Cp.Block
use blockchain.Cp.Block.{Block, unmarshal_block_iff}
use blockchain.Cp.SyncRequest
use blockchain.Cp.SyncRequest.{SyncRequest, unmarshal_sync_request_iff}
use blockchain.Cp.SyncResponse
use blockchain.Cp.SyncResponse.{SyncResponse, unmarshal_sync_response_iff}
use blockchain.Cp.BlockRequest
use blockchain.Cp.BlockRequest.{BlockRequest, unmarshal_block_request_iff}
use blockchain.Cp.BlockResponse
use blockchain.Cp.BlockResponse.{BlockResponse, unmarshal_block_response_iff}
use blockchain.Cp.BlockBroadcast
use blockchain.Cp.BlockBroadcast.{BlockBroadcast, unmarshal_block_broadcast_iff}
use blockchain.Cp.EvidenceBroadcast
use blockchain.Cp.EvidenceBroadcast.{EvidenceBroadcast, unmarshal_evidence_broadcast_iff}

abbrev pub header : BlockHeader
header = record {
  version = 1;
  time = negsuc 6;
  nonce = 70_000;
  target = 402_653_183;
  last_hash = filled_with 32 3;
  miner = filled_with 33 2;
  evidence_root = some (filled_with 32 5);
}

pub header-Fits : Header.Fits header
header-Fits = record {
  version_lt = omega arith;
  time_fits = omega arith;
  nonce_lt = omega arith;
  target_lt = omega arith;
  last_hash_fits = are_bytes-Below 256 (filled_with 32 3) refl refl;
  miner_fits = are_bytes-Below 256 (filled_with 33 2) refl refl;
  root_fits = are_bytes-Below 256 (filled_with 32 5) refl refl;
  root_there = refl;
}

abbrev pub evidence : Evidence
evidence = record {
  version = 1;
  nonce = 258;
  hash = filled_with 32 7;
  description = 104 ∷ 105 ∷ [];
  pub_key = filled_with 33 2;
  sig = 48 ∷ 6 ∷ [];
}

pub evidence-Fits : Evidence.Fits evidence
evidence-Fits = record {
  version_lt = omega arith;
  nonce_lt = omega arith;
  hash_fits = are_bytes-Below 256 (filled_with 32 7) refl refl;
  description_fits = are_bytes-Below 65536 (104 ∷ 105 ∷ []) refl refl;
  pub_key_fits = are_bytes-Below 256 (filled_with 33 2) refl refl;
  sig_fits = are_bytes-Below 65536 (48 ∷ 6 ∷ []) refl refl;
}

abbrev pub block : Block
block = record { header = header; evds = evidence ∷ [] }

pub block-Fits : Block.Fits block
block-Fits = record { header_fits = header-Fits; evds_fits = (omega arith, (evidence-Fits, tt)) }

head-Fits : Head.Fits (new_head 3)
head-Fits = record { version_lt = omega arith; type_lt = omega arith; reserved_lt = omega arith }

block-IsBytes : IsBytes (Block.marshal block ++ (9 ∷ []))
unfolding Block.marshal Header.marshal put_uint put_int64 put_slice8 put_list16 Evidence.marshal
    put_slice16
block-IsBytes = are_bytes-IsBytes (Block.marshal block ++ (9 ∷ [])) refl

unmarshal_block_iff_example : Block.unmarshal (Block.marshal block ++ (9 ∷ [])) ≡ ok (block, 9 ∷ [])
unmarshal_block_iff_example =
    (unmarshal_block_iff (Block.marshal block ++ (9 ∷ [])) (9 ∷ []) block block-IsBytes).1
      (refl, block-Fits)
