-- ===== src/Chain/Adding.antt =====
-- `add` of core/blockchain/branch.go on the blocks that stand already, and on the new one.
use blockchain.Common.{ℕ, ◌+◌, ◌<◌, ◌≡◌, ◌≢◌, refl, arith, some}
use blockchain.Chain.Blocks.{Node, Heap}
use blockchain.Chain.Maps.{store}
use blockchain.Chain.Branch.{Branch, add}

-- All of a block but its children.
pub record SameBut (m n : Node) : Type 0 where
  pub cb_same : m.cb ≡ n.cb
  pub hash_same : m.hash ≡ n.hash
  pub height_same : m.height ≡ n.height
  pub stored_same : m.stored ≡ n.stored
  pub backward_same : m.backward ≡ n.backward

module _ (n : Node) (h : Heap) (b : Branch) where
  abbrev after : Heap
  after = (add n h b).0

  pub next-add : after.next ≡ h.next + 1
  unfolding add
  next-add = refl

  pub add_old : (j : ℕ) → j ≢ h.next → SameBut (after.node j) (h.node j)
  unfolding add
  add_old j ne = ground arith

  pub add_new : b.head < h.next → SameBut (after.node h.next) (record n { backward = some b.head })
  unfolding add
  add_new lt = ground arith

  pub head-add : (add n h b).1.head ≡ h.next
  unfolding add
  head-add = refl

  pub block_cache-add : (add n h b).1.block_cache ≡ store n.hash h.next b.block_cache
  unfolding add
  block_cache-add = refl
