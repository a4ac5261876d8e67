-- ===== src/Chain.antt =====
-- core/blockchain: the tree of recent blocks, its branches, and what is checked of a new block.
-- A pointer to a block or a branch is its number in a store; a nil pointer is `none`. Go's pointers
-- do not dangle, so a store is a total function, and only nil is tested for. The mutex of the chain
-- makes each exported method one step.
pub mod Maps
pub mod Blocks
pub mod Branch
pub mod Target
pub mod Verify
pub mod Growth
mod Adding
mod Caching
pub mod Sync
pub mod Queries
pub mod Serving
pub mod Integrity
pub mod Tests
use blockchain.Common.{ℕ, ◌+◌, ◌-◌, ◌%◌, ◌^◌}

-- ReferenceBlocks
abbrev pub reference_blocks : ℕ
reference_blocks = 20

-- syncMaxBlocks
abbrev pub sync_max_blocks : ℕ
sync_max_blocks = 128

abbrev pub alpha : ℕ
alpha = 8

-- `a - b` on `uint64`: the difference wraps where `b` is larger.
abbrev pub sub64 : ℕ → ℕ → ℕ
sub64 a b = (a + 2 ^ 64 - b) % 2 ^ 64
