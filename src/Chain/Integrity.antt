-- ===== src/Chain/Integrity.antt =====
-- The invariant of the chain of core/blockchain, over the store of blocks and the branches.
pub mod Accepted
mod Growing
pub mod Adopting
pub mod Highest
pub mod Exactly
pub mod Limit
pub mod Served
use blockchain.Common.{
  ℕ, ◌+◌, ◌≤◌, ◌<◌, ◌≡◌, refl, Bool, true, false, Option, some, none, Bytes, List, All, ltb,
}
use blockchain.Common.Int.{ℤ, ltb_ℤ, ◌≤ℤ◌}
use blockchain.Cp.Header
use blockchain.Cp.Validity.{IsValidBlock}
use blockchain.Difficulty.{target_to_diff}
use blockchain.Chain.Blocks.{Node, Heap, time}
use blockchain.Chain.Caching.{CacheOk}
use blockchain.Chain.Verify.{Setting}
use blockchain.Chain.Growth.{Chain}

module _ (s : Setting) where
  -- The bonds of a block to its parent: one higher, naming its hash, not older, valid in itself, and
  -- with the proof of work that its target asks for.
  pub record IsChild (child parent : Node) : Type 0 where
    pub height_is : child.height ≡ parent.height + 1
    pub last_hash_is : child.cb.header.last_hash ≡ parent.hash
    pub hash_is : child.hash ≡ Header.get_serialized_hash s.hash child.cb.header
    pub not_older : time parent ≤ℤ time child
    pub valid : IsValidBlock s.hash s.ec child.cb
    pub worked : Header.get_pow s.hash child.cb.header < target_to_diff child.cb.header.target

  -- Every block with a parent is a child of it, and the parent stood before it.
  abbrev pub IsLinked : Heap → Type 0
  IsLinked h =
      (i p : ℕ)
      → i < h.next
      → (h.node i).backward ≡ some p
      → (p < i) × IsChild (h.node i) (h.node p)

  pub record IsIntact (c : Chain) : Type 0 where
    pub linked : IsLinked c.heap
    pub heads : (b : ℕ) → b < c.next_branch → (c.branch_at b).head < c.heap.next
    pub caches : (b : ℕ) → b < c.next_branch → CacheOk c.heap (c.branch_at b)
    pub listed : All (λ b. b < c.next_branch) c.branches
    pub longest_listed : c.longest < c.next_branch
