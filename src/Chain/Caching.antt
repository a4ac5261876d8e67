-- ===== src/Chain/Caching.antt =====
-- What `newBranch` of core/blockchain/branch.go caches.
use blockchain.Common.{
  ℕ, zero, suc, ◌+◌, ◌<◌, ◌≡◌, refl, arith, some, Bytes, [], equal_iff, Option-cases, inl, inr,
}
use blockchain.Chain.Maps.{load, load-store}
use blockchain.Chain.Blocks.{Heap}
use blockchain.Chain.Branch.{Branch, cache_block, cache_back, bare, new_branch}

-- Parents have smaller numbers.
abbrev pub IsDown : Heap → Type 0
IsDown h = (i p : ℕ) → i < h.next → (h.node i).backward ≡ some p → p < i

-- A cached block is one of the store, under its own hash.
abbrev pub CacheOk : Heap → Branch → Type 0
CacheOk h b =
    (k : Bytes) (i : ℕ) → load k b.block_cache ≡ some i → (i < h.next) × ((h.node i).hash ≡ k)

cache_block-CacheOk :
    (i : ℕ) (h : Heap) (b : Branch) → i < h.next → CacheOk h b → CacheOk h (cache_block i h b)
unfolding cache_block
cache_block-CacheOk i h b lt ok k j e =
    ground
      (arith, load-store (h.node i).hash k i b.block_cache, equal_iff (h.node i).hash k, ok k j)

head-cache_back : (fuel i : ℕ) (h : Heap) (b : Branch) → (cache_back fuel i h b).head ≡ b.head
unfolding cache_back
head-cache_back zero i h b = refl
head-cache_back (suc fuel) i h b = elim (Option-cases (h.node i).backward) [
  | inl e ↦ rw (e, cache_back) (unfold cache_block in refl)
  | inr (p, e) ↦ rw (e, cache_back) (head-cache_back fuel p h (cache_block i h b))
]

pub head-new_branch : (begin : ℕ) (h : Heap) → (new_branch begin h).head ≡ begin
unfolding new_branch
head-new_branch begin h = head-cache_back (begin + 1) begin h (bare begin)

no_blocks-CacheOk : (h : Heap) (b : Branch) → b.block_cache ≡ [] → CacheOk h b
unfolding load
no_blocks-CacheOk h b empty k i e = ground arith

module _ (h : Heap) (down : IsDown h) where
  cache_back-CacheOk :
      (fuel i : ℕ) (b : Branch) → i < h.next → CacheOk h b → CacheOk h (cache_back fuel i h b)
  unfolding cache_back
  cache_back-CacheOk zero i b lt ok = ok
  cache_back-CacheOk (suc fuel) i b lt ok = elim (Option-cases (h.node i).backward) [
    | inl e ↦ rw (e, cache_back) (cache_block-CacheOk i h b lt ok)
    | inr (p, e) ↦
        rw (e, cache_back)
          (cache_back-CacheOk fuel p (cache_block i h b) (omega (arith, down i p lt e))
            (cache_block-CacheOk i h b lt ok))
  ]

  pub new_branch-CacheOk : (begin : ℕ) → begin < h.next → CacheOk h (new_branch begin h)
  unfolding new_branch
  new_branch-CacheOk begin lt =
      cache_back-CacheOk (begin + 1) begin (bare begin) lt (no_blocks-CacheOk h (bare begin) refl)

  -- In a store where parents have smaller numbers, the loop of `newBranch` from block `i` has the same
  -- result with any fuel above `i`.
  cache_back-fuel :
      (f g i : ℕ) (b : Branch)
      → i < h.next
      → i < f
      → i < g
      → cache_back f i h b ≡ cache_back g i h b
  unfolding cache_back
  cache_back-fuel zero g i b lt hf hg = absurd (omega arith)
  cache_back-fuel (suc f) zero i b lt hf hg = absurd (omega arith)
  cache_back-fuel (suc f) (suc g) i b lt hf hg = elim (Option-cases (h.node i).backward) [
    | inl e ↦ rw (e, cache_back)
    | inr (p, e) ↦
        rw (e, cache_back)
          (cache_back-fuel f g p (cache_block i h b) (omega (arith, down i p lt e))
            (omega (arith, down i p lt e)) (omega (arith, down i p lt e)))
  ]
