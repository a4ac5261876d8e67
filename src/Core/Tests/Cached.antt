-- ===== src/Core/Tests/Cached.antt =====
-- Runs of the theorems on core/qcache.go and core/scheduler.go.
use mathlib.Core.List.Permᴰ
use blockchain.Common.{◌≡◌, refl, Bool, false, Bytes, [], ◌∷◌, ok}
use blockchain.Chain.Blocks.{Node}
use blockchain.Chain.Branch.{bare}
use blockchain.Chain.Growth.{Chain, init_first_branch}
use blockchain.Chain.Tests.{setting, genesis}
use blockchain.Common.Int.{pos}
use blockchain.Wire.Checks.{filled_with}
use blockchain.Cp.Tests.{evidence}
use blockchain.EvidencePool.{Pool}
use blockchain.Chain.Verify.{verify_root}
use blockchain.Core.Scheduler.{verifies, get_evidence, gen_block, gen_block-verify_root}
use blockchain.Db.Tests.{mem_db, fresh_db}
use blockchain.Core.QueryCache.{sorted_of, panicked, get_block_at}

-- A chain of one block that is not stored.
abbrev unsaved : Node
unsaved = record genesis { stored = false }

abbrev chain : Chain
chain = init_first_branch unsaved

-- Where all blocks are stored, the query for the height 0 reads the first of no blocks.
empty_cache : get_block_at mem_db fresh_db 0 (sorted_of setting.hash []) ≡ panicked
unfolding get_block_at sorted_of
empty_cache = refl

abbrev nothing_stored : Bytes → Bool
nothing_stored k = false

-- The same evidence twice.
abbrev pool : Pool
pool = record { evidence = evidence; weight = 1 } ∷ record { evidence = evidence; weight = 1 } ∷ []

gen_block-verify_root_example :
    verify_root setting nothing_stored (bare 0) (
      gen_block setting.hash
        (pos 9)
        (filled_with 33 2)
        (get_evidence (λ es. es) (verifies setting nothing_stored (bare 0)) 1_048_576 pool).0
        (filled_with 32 3))
    ≡ ok tt
gen_block-verify_root_example =
    gen_block-verify_root setting nothing_stored (bare 0) (pos 9) (filled_with 33 2)
      (filled_with 32 3) (λ es. es) 1_048_576 pool (λ es. Permᴰ.refl es)
