-- ===== src/Core/Sorted.antt =====
-- The sorted blocks of core/qcache.go: which block stands where.
use blockchain.Common.{ℕ, ◌+◌, ◌≡◌, false, some, Bytes, List, [], ◌∷◌}
use blockchain.Cp.Header
use blockchain.Cp.Block.{Block}
use blockchain.Chain.Blocks.{Heap}
use blockchain.Chain.Growth.{Chain}
use blockchain.Db.Badger.{Badger}
use blockchain.Core.QueryCache.{BlockInfo}

-- The second block is the first, or is met on the way back from it.
pub data Back (h : Heap) : ℕ → ℕ → Type 0 where
  here : {i : ℕ} → Back h i i
  back : {i p j : ℕ} → (h.node i).backward ≡ some p → Back h p j → Back h i j

-- The block stands in the store behind the block `i`, is not stored in the database, and has the
-- height.
abbrev pub IsUnstored : Heap → ℕ → Block → ℕ → Type 0
IsUnstored h i cb height =
    (j : ℕ) × Back h i j
    × ((h.node j).stored ≡ false)
    × ((h.node j).cb ≡ cb)
    × ((h.node j).height ≡ height)

-- Each block is one lower than the one before it, from the height `h` on, and has the property.
abbrev pub IsDescending : (Block → ℕ → Type 0) → ℕ → List (Block × ℕ) → Type 0
IsDescending P h [] = Unit {0}
IsDescending P h ((b, k) ∷ bs) = (k + 1 ≡ h) × P b k × IsDescending P k bs

-- What the cache says of a block that has the property.
abbrev pub IsInfo : (Bytes → Bytes) → (Block → ℕ → Type 0) → ℕ → BlockInfo → Type 0
IsInfo hash P height i =
    (i.height ≡ height)
    × (i.block_hash ≡ Header.get_serialized_hash hash i.block.header)
    × P i.block height
