-- ===== src/Core/Tests/Syncing.antt =====
-- Runs of the theorems on blocks that one node serves from its database and another takes in.
use blockchain.Common.{
  ℕ, ◌<◌, ◌≡◌, ◌≢◌, refl, arith, true, false, Option, some, none, Bytes, List, [], ◌∷◌, map,
  get_elem?, equal, ok, inr,
}
use blockchain.Common.Int.{pos}
use blockchain.Wire.{put_uint, put_int64, put_slice8}
use blockchain.Wire.Checks.{filled_with, are_bytes-Below}
use blockchain.Chain.Maps.{load, store}
use blockchain.Cp.{empty_evidence_root}
use blockchain.Cp.Header
use blockchain.Cp.Header.{BlockHeader}
use blockchain.Cp.Block
use blockchain.Cp.Block.{Block, shallow_copy}
use blockchain.Cp.BlockRequest.{BlockRequest, new_block_request, is_only_header}
use blockchain.Cp.Tests.Mining.{toy_ec}
use blockchain.Cp.Validity.{IsValidBlock, verify_block_iff}
use blockchain.Chain.Branch.{get_block, cache_back}
use blockchain.Chain.Growth.{Chain, init_first_branch}
use blockchain.Chain.Queries.{get_sync_hash, serve_sync_blocks}
use blockchain.Chain.Serving.{get_sync_hash-serve_sync_blocks}
use blockchain.Db.Schema.{hbyte}
use blockchain.Db.Keys.{encode}
use blockchain.Db.Refinement.{IsStorable}
use blockchain.Db.Store.{put_block}
use blockchain.Db.Ledger.{Represents, IsLedger}
use blockchain.Db.Tests.{put, mem_db, fresh_db}
use blockchain.Core.Net.{PeerData, WaitingBlocks, ChainView, Net, new_net, queue_blocks}
use blockchain.Core.Handlers.{handle_blocks_request, collected}
use blockchain.Core.Transfer.{deliver, Waits}
use blockchain.Core.View.{chain_view, deliver-chain_view}

abbrev byte_of : Option ℕ → ℕ
byte_of none = 0
byte_of (some b) = b

-- The last byte of the nonce of a header stands for its hash.
abbrev nonce_hash : Bytes → Bytes
nonce_hash bs = filled_with 32 (byte_of (get_elem? bs 12))

abbrev block_with : ℕ → Block
block_with nonce = record {
  header = record {
    version = 1;
    time = pos 7;
    nonce = nonce;
    target = 402_653_183;
    last_hash = filled_with 32 3;
    miner = filled_with 33 2;
    evidence_root = some empty_evidence_root;
  };
  evds = [];
}

block_with-IsValidBlock : (nonce : ℕ) → IsValidBlock nonce_hash toy_ec (block_with nonce)
unfolding Block.verify Header.verify equal
block_with-IsValidBlock nonce = (verify_block_iff nonce_hash toy_ec (block_with nonce)).0 refl

block_with-IsStorable : (nonce : ℕ) → nonce < 256 → IsStorable nonce_hash toy_ec (block_with nonce)
block_with-IsStorable nonce lt = record {
  fits = record {
    header_fits = record {
      version_lt = omega arith;
      time_fits = omega arith;
      nonce_lt = omega arith;
      target_lt = omega arith;
      last_hash_fits = are_bytes-Below 256 (filled_with 32 3) refl refl;
      miner_fits = are_bytes-Below 256 (filled_with 33 2) refl refl;
      root_fits = are_bytes-Below 256 empty_evidence_root refl refl;
      root_there = refl;
    };
    evds_fits = (omega arith, tt);
  };
  valid = block_with-IsValidBlock nonce;
  distinct = tt;
}

abbrev older : Block
older = block_with 1

abbrev newer : Block
newer = block_with 2

one-IsLedger : IsLedger nonce_hash toy_ec (older ∷ [])
one-IsLedger = record { storable = (block_with-IsStorable 1 (omega arith), tt); few = omega arith }

two-IsLedger : IsLedger nonce_hash toy_ec (newer ∷ older ∷ [])
two-IsLedger = record {
  storable = (block_with-IsStorable 2 (omega arith), (block_with-IsStorable 1 (omega arith), tt));
  few = omega arith;
}

fresh : Represents nonce_hash mem_db fresh_db []
unfolding encode hbyte put_uint load equal
fresh = record { latest = refl; held = tt }

apart :
    Header.get_serialized_hash nonce_hash older.header
    ≢ Header.get_serialized_hash nonce_hash newer.header
unfolding Header.get_serialized_hash Header.marshal put_uint put_int64 put_slice8
apart e = cc

first :
    (t : mem_db.Txn) × (put_block mem_db nonce_hash older 1 fresh_db ≡ (ok tt, t))
    × Represents nonce_hash mem_db t (older ∷ [])
first = put nonce_hash (λ x. refl) older [] fresh_db one-IsLedger tt fresh

both :
    (t : mem_db.Txn) × (put_block mem_db nonce_hash newer 2 first.0 ≡ (ok tt, t))
    × Represents nonce_hash mem_db t (newer ∷ older ∷ [])
both = put nonce_hash (λ x. refl) newer (older ∷ []) first.0 two-IsLedger (apart, tt) first.2

-- A chain whose cache has neither.
abbrev chain : Chain
chain =
    init_first_branch
      (record { cb = older; hash = []; height = 3; stored = true; backward = none; forward = [] })

not_cached :
    get_block (Header.get_serialized_hash nonce_hash older.header) (chain.branch_at chain.longest)
    ≡ none
unfolding get_block load store equal init_first_branch cache_back Header.get_serialized_hash
    Header.marshal put_uint put_int64 put_slice8
not_cached = refl

get_sync_hash-serve_sync_blocks_example :
    (get_sync_hash mem_db both.0 (Header.get_serialized_hash nonce_hash older.header) chain
      ≡ ok (Header.get_serialized_hash nonce_hash newer.header, 1))
    × (serve_sync_blocks mem_db both.0
          (Header.get_serialized_hash nonce_hash older.header)
          (Header.get_serialized_hash nonce_hash newer.header)
          false
          chain
        ≡ ok (newer ∷ []))
get_sync_hash-serve_sync_blocks_example =
    get_sync_hash-serve_sync_blocks nonce_hash toy_ec mem_db both.0 [] newer [] older [] false chain
      (two-IsLedger, both.2) (inr (refl, omega arith)) not_cached

abbrev request : BlockRequest
request =
    new_block_request (Header.get_serialized_hash nonce_hash older.header)
      (Header.get_serialized_hash nonce_hash newer.header) false

abbrev view : ChainView
view = chain_view mem_db both.0 chain

abbrev peer : Bytes
peer = 65 ∷ []

abbrev net : Net
net = new_net false (some [])

abbrev entry : WaitingBlocks
entry = record { peer_id = peer; last_response_time = 0; remain_nums = 1; response = [] }

abbrev waiting_net : Net
waiting_net = record net { waiting_blocks = entry ∷ [] }

waiting_net-Waits :
    Waits peer waiting_net [] [] [] (map (shallow_copy (is_only_header request)) (newer ∷ []))
unfolding collected
waiting_net-Waits = record {
  entry = entry;
  waiting = refl;
  own = refl;
  not_of = tt;
  remain = refl;
  so_far = refl;
}

deliver-chain_view_example :
    (ps : List PeerData) × (handle_blocks_request view request [] net ≡ record net { send_q = ps })
    × (deliver nonce_hash view (λ i. i) peer ps waiting_net
        ≡ queue_blocks (map (shallow_copy (is_only_header request)) (newer ∷ [])) net)
deliver-chain_view_example =
    deliver-chain_view nonce_hash toy_ec mem_db both.0 chain [] newer [] older []
      (two-IsLedger, both.2) (inr (refl, omega arith)) not_cached request refl refl view peer [] []
      [] net waiting_net (λ i. i) waiting_net-Waits
