-- ===== src/Chain/Integrity/Accepted.antt =====
-- The conditions of `verifyBlock` of core/blockchain/branch.go on a block and the head of its branch.
use blockchain.Common.{◌<◌, ◌≡◌, arith, Bool, some, Bytes, ok, equal_iff}
use blockchain.Common.Int.{ℤ, ◌≤ℤ◌}
use blockchain.Cp.Header
use blockchain.Cp.Block.{Block}
use blockchain.Cp.Validity.{IsValidBlock, verify_block_iff}
use blockchain.Difficulty.{target_to_diff}
use blockchain.Chain.Blocks.{Heap, time}
use blockchain.Chain.Branch
use blockchain.Chain.Branch.{Branch}
use blockchain.Chain.Target.{next_block_target}
use blockchain.Chain.Verify.{Setting, verify_block}

-- The conditions on a block against the head of a branch.
pub record IsAccepted (s : Setting) (h : Heap) (b : Branch) (cb : Block) : Type 0 where
  pub valid : IsValidBlock s.hash s.ec cb
  pub not_older : time (h.node b.head) ≤ℤ cb.header.time
  pub target_is : next_block_target s.floats s.params b cb.header.time h ≡ some cb.header.target
  pub last_hash_is : cb.header.last_hash ≡ Branch.hash b h
  pub worked : Header.get_pow s.hash cb.header < target_to_diff cb.header.target

module _ (s : Setting) (has : Bytes → Bool) (now : ℤ) (h : Heap) (b : Branch) (cb : Block) where
  pub verify_block-IsAccepted : verify_block s has now h b cb ≡ ok tt → IsAccepted s h b cb
  unfolding verify_block
  verify_block-IsAccepted e =
      ground
        (arith, verify_block_iff s.hash s.ec cb, equal_iff (Branch.hash b h) cb.header.last_hash)
