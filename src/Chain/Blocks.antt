-- ===== src/Chain/Blocks.antt =====
-- core/blockchain/block.go: the blocks of the tree and the store that they stand in.
use blockchain.Common.{
  ℕ, ◌+◌, Bool, true, false, Option, some, none, Bytes, [], length, ◌==◌, if◌then◌else◌,
}
use blockchain.Common.Int.{ℤ}
use blockchain.Cp.Header
use blockchain.Cp.Block.{Block}
use blockchain.Chain.Maps.{Map, load, store, delete}

-- The struct `block`. `backward` is the parent, `forward` the children by their hashes.
pub record Node : Type 0 where
  pub cb : Block
  pub hash : Bytes
  pub height : ℕ
  pub stored : Bool
  pub backward : Option ℕ
  pub forward : Map ℕ

-- The blocks that were allocated have the numbers below `next`.
pub record Heap : Type 0 where
  pub node : ℕ → Node
  pub next : ℕ

-- newBlock, over the hash of the repository.
unfoldable pub new_block : (Bytes → Bytes) → Block → ℕ → Bool → Node
new_block hash b height stored = record {
  cb = b;
  hash = Header.get_serialized_hash hash b.header;
  height = height;
  stored = stored;
  backward = none;
  forward = [];
}

-- A write to the fields of one block.
unfoldable pub put : ℕ → Node → Heap → Heap
put i n h = record h { node = λ j. if j == i then n else h.node j }

unfoldable pub alloc : Node → Heap → Heap
alloc n h = record { node = λ j. if j == h.next then n else h.node j; next = h.next + 1 }

abbrev pub target : Node → ℕ
target n = n.cb.header.target

abbrev pub time : Node → ℤ
time n = n.cb.header.time

unfoldable pub set_backward : ℕ → Option ℕ → Heap → Heap
unfolding put
set_backward i back h = put i (record (h.node i) { backward = back }) h

unfoldable pub add_forward : ℕ → ℕ → Heap → Heap
unfolding put store
add_forward i child h =
    put i (record (h.node i) { forward = store (h.node child).hash child (h.node i).forward }) h

unfoldable pub remove_forward : ℕ → ℕ → Heap → Heap
unfolding put delete
remove_forward i child h =
    put i (record (h.node i) { forward = delete (h.node child).hash (h.node i).forward }) h

unfoldable pub is_backward_of : (Bytes → Bytes) → ℕ → Block → Heap → Bool
unfolding load
is_backward_of hash i cb h =
    elim (load (Header.get_serialized_hash hash cb.header) (h.node i).forward) [
      | none ↦ false
      | some _ ↦ true
    ]

abbrev pub forward_num : ℕ → Heap → ℕ
forward_num i h = length (h.node i).forward

-- What `remove` of a block answers: an error where it has children, else its parent, which may be
-- nil. `panics` is a block with no parent: `backward.removeForward` is called on nil.
pub data Removed : Type 0 where
  has_children : Removed
  panics : Removed
  removed : ℕ → Heap → Removed

unfoldable pub remove : ℕ → Heap → Removed
unfolding set_backward remove_forward
remove i h =
    if forward_num i h == 0
    then elim (h.node i).backward [
      | none ↦ panics
      | some p ↦ removed p (set_backward i none (remove_forward p i h))
    ]
    else has_children
