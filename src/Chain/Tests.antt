-- ===== src/Chain/Tests.antt =====
-- Runs of the theorems on the chain.
use blockchain.Common.{
  ℕ, ◌+◌, ◌*◌, ◌/◌, ◌≤◌, ◌≡◌, ◌≢◌, refl, arith, Bool, true, false, some, none, Bytes, [], ◌∷◌, ok,
  ltb, equal,
}
use blockchain.Common.Int.{ℤ, pos, negsuc}
use blockchain.Wire.Checks.{filled_with}
use blockchain.Cp.{empty_evidence_root}
use blockchain.Wire.{put_uint, put_int64, put_slice8, put_slice16}
use blockchain.Cp.Description.{verify_description, rune_count}
use blockchain.Cp.Header
use blockchain.Cp.Header.{BlockHeader}
use blockchain.Cp.Evidence
use blockchain.Cp.Block
use blockchain.Cp.Evidence.{Evidence}
use blockchain.Cp.Block.{Block}
use blockchain.Cp.Tests.{header, evidence}
use blockchain.Cp.Tests.Mining.{toy_hash, toy_ec}
use blockchain.Difficulty.{target_to_diff}
use blockchain.Chain.Blocks.{Node}
use blockchain.Chain.Branch.{bare, get_evidence}
use blockchain.Chain.Target.{Floats, Config, init_mining_params, next_block_target, sub_time, unix}
use blockchain.Chain.Verify.{Setting, verify_block, verify_evidence, verify_evds, verify_root}
use blockchain.Chain.Growth.{Chain, add_blocks, init_first_branch}
use blockchain.Chain.Integrity.{IsIntact}
use blockchain.Chain.Integrity.Accepted.{IsAccepted}
use blockchain.Chain.Integrity.Adopting.{add_blocks-IsIntact, init_first_branch-IsIntact}
use blockchain.Chain.Integrity.Highest.{IsTold, add_blocks-IsTold}
use blockchain.Chain.Integrity.Exactly.{IsTooEarly, IsRooted, verify_block_exactly}
use blockchain.Chain.Sync.{stopped, out_of_fuel, served, get_sync_blocks}
use blockchain.Chain.Integrity.Served.{IsRange, get_sync_blocks-IsRange, get_sync_blocks_ends}
use blockchain.Chain.Integrity.Limit.{next_block_target-limit}

-- Whole numbers for floats, in thousandths.
abbrev toy_floats : Floats
toy_floats = record {
  Float64 = ℕ;
  BigFloat = ℕ;
  of_int64 = λ z. elim z [ pos n ↦ n * 1000 | negsuc n ↦ 0 ];
  ratio = λ a b. a * 1000 / b;
  mul64 = λ a b. a * b / 1000;
  add64 = λ a b. a + b;
  new_float = λ a. a;
  set_int = λ n. n * 1000;
  quo = λ a b. a * 1000 / b;
  mul = λ a b. a * b / 1000;
  less = ltb;
  to_int = λ n. n / 1000;
}

-- Targets of 255 bits.
abbrev config : Config
config = record {
  block_target_limit = 4_294_967_295;
  evidence_target_limit = 4_294_967_295;
  block_interval = pos 10;
}

abbrev pub setting : Setting
setting = record {
  hash = toy_hash;
  ec = toy_ec;
  floats = toy_floats;
  params = init_mining_params config;
}

abbrev none_stored : Bytes → Bool
none_stored k = false

abbrev pub genesis : Node
genesis = record {
  cb = record { header = header; evds = [] };
  hash = filled_with 32 3;
  height = 1;
  stored = true;
  backward = none;
  forward = [];
}

abbrev chain : Chain
unfolding init_first_branch
chain = init_first_branch genesis

abbrev next_header : BlockHeader
next_header = record header {
  time = pos 5;
  target = 4_294_967_295;
  evidence_root = some empty_evidence_root;
}

abbrev next_block : Block
next_block = record { header = next_header; evds = [] }

abbrev clock : ℤ
clock = pos 5_000_000_000

add_blocks-IsIntact_example :
    IsIntact setting
      (add_blocks setting none_stored clock (λ i. true) (next_block ∷ []) false chain).1
unfolding chain init_first_branch
add_blocks-IsIntact_example =
    add_blocks-IsIntact setting none_stored clock (λ i. true) (next_block ∷ []) false chain
      (init_first_branch-IsIntact setting genesis refl)

add_blocks-IsTold_example :
    IsTold (add_blocks setting none_stored clock (λ i. true) (next_block ∷ []) false chain).1
unfolding add_blocks verify_block Block.verify Header.verify equal sub_time unix next_block_target
    init_mining_params Header.get_pow Header.marshal put_uint put_int64 put_slice8 target_to_diff
    init_first_branch chain verify_root
add_blocks-IsTold_example =
    add_blocks-IsTold setting none_stored clock (λ i. true) (next_block ∷ []) chain refl

verify_block_exactly_example :
    IsAccepted setting chain.heap (chain.branch_at 0) next_block
    × (¬ IsTooEarly setting none_stored clock chain.heap (chain.branch_at 0) next_block)
    × IsRooted setting none_stored (chain.branch_at 0) next_block
unfolding verify_block Block.verify Header.verify equal sub_time unix next_block_target
    init_mining_params Header.get_pow Header.marshal put_uint put_int64 put_slice8 target_to_diff
    init_first_branch chain verify_root
verify_block_exactly_example =
    (verify_block_exactly setting none_stored clock chain.heap (chain.branch_at 0) next_block).0
      refl

-- The same evidence twice in one block.
repeated_evidence : verify_evds setting none_stored (bare 0) (evidence ∷ evidence ∷ []) ≡ ok tt
unfolding verify_evds verify_evidence Evidence.verify verify_description rune_count equal
    Evidence.get_pow Evidence.marshal put_uint put_slice8 put_slice16 init_mining_params
    target_to_diff get_evidence
repeated_evidence = refl

next_block_target-limit_example :
    target_to_diff 4_294_967_295 ≤ target_to_diff config.block_target_limit
unfolding next_block_target chain init_mining_params target_to_diff
next_block_target-limit_example =
    next_block_target-limit toy_floats config (omega arith) (chain.branch_at 0) (pos 5) chain.heap
      4_294_967_295 refl

-- The chain after the next block.
abbrev grown : Chain
grown = (add_blocks setting none_stored clock (λ i. true) (next_block ∷ []) false chain).1

grown-IsIntact : IsIntact setting grown
unfolding chain init_first_branch
grown-IsIntact =
    add_blocks-IsIntact setting none_stored clock (λ i. true) (next_block ∷ []) false chain
      (init_first_branch-IsIntact setting genesis refl)

abbrev next_hash : Bytes
next_hash = Header.get_serialized_hash toy_hash next_header

get_sync_blocks-IsRange_example :
    IsRange setting grown (filled_with 32 3) next_hash (next_block ∷ [])
unfolding get_sync_blocks add_blocks verify_block Block.verify Header.verify equal sub_time unix
    next_block_target init_mining_params Header.get_pow Header.marshal put_uint put_int64 put_slice8
    target_to_diff init_first_branch chain verify_root Header.get_serialized_hash
get_sync_blocks-IsRange_example =
    get_sync_blocks-IsRange setting grown grown-IsIntact (filled_with 32 3) next_hash true
      (next_block ∷ []) refl

get_sync_blocks_ends_example :
    get_sync_blocks (filled_with 32 3) next_hash true grown ≢ served (stopped out_of_fuel)
get_sync_blocks_ends_example =
    get_sync_blocks_ends setting grown grown-IsIntact (filled_with 32 3) next_hash true
