-- ===== src/Chain/Sync.antt =====
-- `GetSyncBlocks` of core/blockchain/chain.go, as far as it answers from the cache.
use blockchain.Common.{
  ℕ, zero, suc, ◌+◌, Bool, some, none, Bytes, List, [], ◌∷◌, ltb, ◌==◌, if◌then◌else◌,
}
use blockchain.Cp.Block.{Block, shallow_copy}
use blockchain.Chain.Blocks.{Heap}
use blockchain.Chain.Branch.{get_block}
use blockchain.Chain.Growth.{Chain}

-- Why the walk gave no blocks: `iter` was nil, and `iter.height` panicked before the test for nil;
-- or the fuel was too little.
pub data WalkError : Type 0 where
  nil_block out_of_fuel : WalkError

pub data Walked : Type 0 where
  walked : List Block → Walked
  stopped : WalkError → Walked

-- The walk from the end to the height of the base. Parents have smaller numbers, so `i + 1` rounds
-- are enough for block `i`.
unfoldable pub walk : ℕ → Bool → ℕ → ℕ → Heap → List Block → Walked
walk zero only_header base i h result = stopped out_of_fuel
walk (suc fuel) only_header base i h result =
    if (h.node i).height == base then walked result else elim (h.node i).backward [
      | none ↦ stopped nil_block
      | some p ↦ walk fuel only_header base p h (shallow_copy only_header (h.node i).cb ∷ result)
    ]

-- The answer from the cache. `ask_db` is the search in the database that follows.
pub data Served : Type 0 where
  served : Walked → Served
  invalid_range ask_db : Served

unfoldable pub get_sync_blocks : Bytes → Bytes → Bool → Chain → Served
unfolding walk get_block
get_sync_blocks base end only_header c =
    let b = c.branch_at c.longest in
    elim (get_block base b) [
      | none ↦ ask_db
      | some i ↦ elim (get_block end b) [
        | none ↦ ask_db
        | some j ↦
            if ltb (c.heap.node i).height (c.heap.node j).height
            then served (walk (j + 1) only_header (c.heap.node i).height j c.heap [])
            else invalid_range
      ]
    ]
