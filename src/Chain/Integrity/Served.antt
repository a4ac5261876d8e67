-- ===== src/Chain/Integrity/Served.antt =====
-- `GetSyncBlocks` of core/blockchain/chain.go on an intact chain.
use blockchain.Common.{
  ℕ, zero, suc, ◌+◌, ◌<◌, ◌≡◌, ◌≢◌, arith, Bool, some, Bytes, List, [], ◌∷◌, length, ◌==◌,
  Bool-cases, Option-cases, inl, inr,
}
use blockchain.Cp.Header
use blockchain.Cp.Block.{Block, shallow_copy}
use blockchain.Chain.Blocks.{Heap}
use blockchain.Chain.Branch.{get_block}
use blockchain.Chain.Verify.{Setting}
use blockchain.Chain.Growth.{Chain}
use blockchain.Chain.Sync.{walked, stopped, out_of_fuel, walk, served, get_sync_blocks}
use blockchain.Chain.Integrity.{IsLinked, IsIntact}

-- Each block names the hash of the one before it, from `k` on, and the last has the hash `end`.
abbrev pub IsRun : (Bytes → Bytes) → Bytes → List Block → Bytes → Type 0
IsRun hash k [] end = k ≡ end
IsRun hash k (b ∷ bs) end =
    (b.header.last_hash ≡ k) × IsRun hash (Header.get_serialized_hash hash b.header) bs end

module _ (s : Setting) (h : Heap) (linked : IsLinked s h) (only_header : Bool) (base : ℕ)
    (end : Bytes) where
  pub record WalkedTo (i : ℕ) (result bs : List Block) : Type 0 where
    pub first : ℕ
    pub at_base : (h.node first).height ≡ base
    pub run : IsRun s.hash (h.node first).hash bs end
    pub counted : length bs + base ≡ length result + (h.node i).height

  walk-WalkedTo :
      (fuel i : ℕ) (result bs : List Block)
      → i < h.next
      → IsRun s.hash (h.node i).hash result end
      → walk fuel only_header base i h result ≡ walked bs
      → WalkedTo i result bs
  unfolding walk
  walk-WalkedTo zero i result bs li r e = absurd (ground arith)
  walk-WalkedTo (suc fuel) i result bs li r e = elim (Bool-cases ((h.node i).height == base)) [
    | inl here ↦
        let same : bs ≡ result = ground arith in
        rw same (record { first = i; at_base = ground arith; run = r; counted = ground arith })
    | inr higher ↦ elim (Option-cases (h.node i).backward) [
      | inl nil ↦ absurd (ground arith)
      | inr (p, back) ↦
          let (lp, child) = linked i p li back in
          let copy = shallow_copy only_header (h.node i).cb in
          let on : walk fuel only_header base p h (copy ∷ result) ≡ walked bs =
            (rw (higher, back, walk) at e) in
          let w =
            walk-WalkedTo fuel p (copy ∷ result) bs (omega arith)
              (child.last_hash_is, rw (← child.hash_is) r) on in
          record {
            first = w.first;
            at_base = w.at_base;
            run = w.run;
            counted = omega (arith, w.counted, child.height_is);
          }
    ]
  ]

  walk_fuel :
      (fuel i : ℕ) (result : List Block)
      → i < h.next
      → i < fuel
      → walk fuel only_header base i h result ≢ stopped out_of_fuel
  unfolding walk
  walk_fuel zero i result li lf e = absurd (omega arith)
  walk_fuel (suc fuel) i result li lf e = elim (Bool-cases ((h.node i).height == base)) [
    | inl here ↦ ground arith
    | inr higher ↦ elim (Option-cases (h.node i).backward) [
      | inl nil ↦ ground arith
      | inr (p, back) ↦
          let (lp, child) = linked i p li back in
          walk_fuel fuel p (shallow_copy only_header (h.node i).cb ∷ result) (omega arith)
            (omega arith) (rw (higher, back, walk) at e)
    ]
  ]

module _ (s : Setting) (c : Chain) (base end : Bytes) where
  -- What the blocks served are.
  pub record IsRange (bs : List Block) : Type 0 where
    pub base_at : ℕ
    pub end_at : ℕ
    pub base_cached : get_block base (c.branch_at c.longest) ≡ some base_at
    pub end_cached : get_block end (c.branch_at c.longest) ≡ some end_at
    pub first : ℕ
    pub first_height : (c.heap.node first).height ≡ (c.heap.node base_at).height
    pub run : IsRun s.hash (c.heap.node first).hash bs end
    pub counted : length bs + (c.heap.node base_at).height ≡ (c.heap.node end_at).height

module _ (s : Setting) (c : Chain) (k : IsIntact s c) (base end : Bytes) (only_header : Bool) where
  cached :
      (key : Bytes) (i : ℕ)
      → get_block key (c.branch_at c.longest) ≡ some i
      → (i < c.heap.next) × ((c.heap.node i).hash ≡ key)
  unfolding get_block
  cached key i e = k.caches c.longest k.longest_listed key i e

  -- On an intact chain the loop of `GetSyncBlocks` over the cache ends, with blocks or at a block with
  -- no parent.
  pub get_sync_blocks_ends : get_sync_blocks base end only_header c ≢ served (stopped out_of_fuel)
  unfolding get_sync_blocks
  get_sync_blocks_ends e = elim (Option-cases (get_block base (c.branch_at c.longest))) [
    | inl nil ↦ ground arith
    | inr (i, ei) ↦ elim (Option-cases (get_block end (c.branch_at c.longest))) [
      | inl nil ↦ ground arith
      | inr (j, ej) ↦
          let (lj, hj) = cached end j ej in
          let base_height = (c.heap.node i).height in
          let fine =
            walk_fuel s c.heap k.linked only_header base_height end (j + 1) j [] lj (omega arith) in
          ground arith
    ]
  ]

  -- On an intact chain, where `GetSyncBlocks` serves blocks from the cache, base and end are cached in
  -- the longest branch, and the blocks are one for each height above the base up to the end; each
  -- names the hash of the one before it, the first that of a block as high as the base, and the last
  -- has the hash `end`.
  pub get_sync_blocks-IsRange :
      (bs : List Block)
      → get_sync_blocks base end only_header c ≡ served (walked bs)
      → IsRange s c base end bs
  unfolding get_sync_blocks
  get_sync_blocks-IsRange bs e = elim (Option-cases (get_block base (c.branch_at c.longest))) [
    | inl nil ↦ absurd (ground arith)
    | inr (i, ei) ↦ elim (Option-cases (get_block end (c.branch_at c.longest))) [
      | inl nil ↦ absurd (ground arith)
      | inr (j, ej) ↦
          let (lj, hj) = cached end j ej in
          let base_height = (c.heap.node i).height in
          let went : walk (j + 1) only_header base_height j c.heap [] ≡ walked bs = ground arith in
          let w =
            walk-WalkedTo s c.heap k.linked only_header base_height end (j + 1) j [] bs lj hj
              went in
          record {
            base_at = i;
            end_at = j;
            base_cached = ei;
            end_cached = ej;
            first = w.first;
            first_height = w.at_base;
            run = w.run;
            counted = omega (arith, w.counted);
          }
    ]
  ]
