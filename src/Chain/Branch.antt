-- ===== src/Chain/Branch.antt =====
-- core/blockchain/branch.go: a branch is its two ends and what it caches of the blocks between.
use blockchain.Common.{ℕ, zero, suc, ◌+◌, Option, some, none, Bytes, List, [], ◌∷◌}
use blockchain.Cp.Evidence.{Evidence}
use blockchain.Chain.Maps.{Map, load, store, delete}
use blockchain.Chain.Blocks.{
  Node, Heap, alloc, set_backward, add_forward, remove, has_children, panics, removed,
}

pub record Branch : Type 0 where
  pub head : ℕ
  pub tail : ℕ
  pub evidence_cache : Map Evidence
  pub block_cache : Map ℕ

-- `for _, e := range evds { evidenceCache.Store(…) }`, under the hash of the evidence.
unfoldable pub cache_evds : List Evidence → Map Evidence → Map Evidence
unfolding store
cache_evds [] m = m
cache_evds (e ∷ es) m = cache_evds es (store e.hash e m)

unfoldable pub uncache_evds : List Evidence → Map Evidence → Map Evidence
unfolding delete
uncache_evds [] m = m
uncache_evds (e ∷ es) m = uncache_evds es (delete e.hash m)

unfoldable pub cache_block : ℕ → Heap → Branch → Branch
unfolding cache_evds store
cache_block i h b = record b {
  block_cache = store (h.node i).hash i b.block_cache;
  evidence_cache = cache_evds (h.node i).cb.evds b.evidence_cache;
}

-- The loop of newBranch, along the parents. Parents have smaller numbers, so `i + 1` rounds are
-- enough for block `i`.
unfoldable pub cache_back : ℕ → ℕ → Heap → Branch → Branch
unfolding cache_block
cache_back zero i h b = b
cache_back (suc fuel) i h b = elim (h.node i).backward [
  | none ↦ cache_block i h b
  | some p ↦ cache_back fuel p h (cache_block i h b)
]

-- A branch at one block, with nothing cached.
abbrev pub bare : ℕ → Branch
bare i = record { head = i; tail = i; evidence_cache = []; block_cache = [] }

unfoldable pub new_branch : ℕ → Heap → Branch
unfolding cache_back
new_branch begin h = cache_back (begin + 1) begin h (bare begin)

-- `remove` of a branch: from the head back to the first block that has other children. A panic in
-- `remove` of a block is `none`.
unfoldable pub remove_back : ℕ → ℕ → Heap → Option Heap
unfolding remove
remove_back zero i h = some h
remove_back (suc fuel) i h = elim (remove i h) [
  | has_children ↦ some h
  | panics ↦ none
  | removed p h' ↦ remove_back fuel p h'
]

unfoldable pub remove_branch : Branch → Heap → Option Heap
unfolding remove_back
remove_branch b h = remove_back (b.head + 1) b.head h

-- `add` of a block that `newBlock` just made: the block is allocated here.
unfoldable pub add : Node → Heap → Branch → Heap × Branch
unfolding alloc set_backward add_forward cache_evds store
add n h b =
    let i = h.next in
    let h' = set_backward i (some b.head) (add_forward b.head i (alloc n h)) in
    (
      h',
      record b {
        head = i;
        block_cache = store n.hash i b.block_cache;
        evidence_cache = cache_evds n.cb.evds b.evidence_cache;
      },
    )

abbrev pub hash : Branch → Heap → Bytes
hash b h = (h.node b.head).hash

abbrev pub height : Branch → Heap → ℕ
height b h = (h.node b.head).height

unfoldable pub get_block : Bytes → Branch → Option ℕ
unfolding load
get_block k b = load k b.block_cache

unfoldable pub get_evidence : Bytes → Branch → Option Evidence
unfolding load
get_evidence k b = load k b.evidence_cache

unfoldable pub remove_from_cache : ℕ → Heap → Branch → Branch
unfolding uncache_evds delete
remove_from_cache i h b = record b {
  block_cache = delete (h.node i).hash b.block_cache;
  evidence_cache = uncache_evds (h.node i).cb.evds b.evidence_cache;
}
