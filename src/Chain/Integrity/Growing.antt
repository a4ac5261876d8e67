-- ===== src/Chain/Integrity/Growing.antt =====
-- The invariant under `add` of core/blockchain/branch.go of one accepted block.
use blockchain.Common.{
  ℕ, ◌+◌, ◌<◌, ◌≡◌, refl, sym, ap, ◌∙◌, arith, false, some, Bytes, equal, equal_iff, ◌==◌,
  if◌then◌else◌, Bool-cases, inl, inr,
}
use blockchain.Cp.Header
use blockchain.Cp.Block.{Block}
use blockchain.Chain.Maps.{load, load-store}
use blockchain.Chain.Blocks.{Node, Heap, new_block}
use blockchain.Chain.Branch
use blockchain.Chain.Branch.{Branch, add, new_branch}
use blockchain.Chain.Adding.{SameBut, add_old, add_new, next-add, block_cache-add}
use blockchain.Chain.Caching.{CacheOk}
use blockchain.Chain.Verify.{Setting}
use blockchain.Chain.Growth.{Chain, add_block, put_branch}
use blockchain.Chain.Integrity.{IsChild, IsLinked, IsIntact}
use blockchain.Chain.Integrity.Accepted.{IsAccepted}

module _ (s : Setting) where
  IsChild-same : {m m' n n' : Node} → SameBut m m' → SameBut n n' → IsChild s m' n' → IsChild s m n
  IsChild-same {m} {m'} {n} {n'} a b k = record {
    height_is = omega (arith, a.height_same, k.height_is, b.height_same);
    last_hash_is =
        ap (λ (c : Block). c.header.last_hash) a.cb_same ∙ k.last_hash_is ∙ sym b.hash_same;
    hash_is =
        a.hash_same
        ∙ k.hash_is
        ∙ ap (λ (c : Block). Header.get_serialized_hash s.hash c.header) (sym a.cb_same);
    not_older = rw (a.cb_same, b.cb_same) k.not_older;
    valid = rw (a.cb_same) k.valid;
    worked = rw (a.cb_same) k.worked;
  }

  new_IsChild :
      (h : Heap) (b : Branch) (cb : Block)
      → IsAccepted s h b cb
      → IsChild s
          (record (new_block s.hash cb (Branch.height b h + 1) false) { backward = some b.head })
          (h.node b.head)
  unfolding new_block
  new_IsChild h b cb a = record {
    height_is = refl;
    last_hash_is = a.last_hash_is;
    hash_is = refl;
    not_older = a.not_older;
    valid = a.valid;
    worked = a.worked;
  }

  module _ (h : Heap) (b : Branch) (cb : Block) (lt : b.head < h.next)
      (a : IsAccepted s h b cb) where
    abbrev added : Node
    added = new_block s.hash cb (Branch.height b h + 1) false

    abbrev grown : Heap
    grown = (add added h b).0

    new_linked :
        (p : ℕ)
        → (grown.node h.next).backward ≡ some p
        → (p < h.next) × IsChild s (grown.node h.next) (grown.node p)
    new_linked p e =
        let nw = add_new added h b lt in
        let ep : p ≡ b.head = cc (nw.backward_same) in
        rw ep (lt, IsChild-same nw (add_old added h b b.head (omega arith)) (new_IsChild h b cb a))

    old_linked :
        IsLinked s h
        → (i p : ℕ) → i < h.next
        → (grown.node i).backward ≡ some p
        → (p < i) × IsChild s (grown.node i) (grown.node p)
    old_linked l i p li e =
        let old = add_old added h b i (omega arith) in
        let (pi, child) = l i p li (sym old.backward_same ∙ e) in
        (pi, IsChild-same old (add_old added h b p (omega arith)) child)

    add-IsLinked : IsLinked s h → IsLinked s grown
    add-IsLinked l i p li e = elim (Bool-cases (i == h.next)) [
      | inl is_new ↦ let ei : i ≡ h.next = ground arith in rw ei (new_linked p (rw ei at e))
      | inr is_old ↦ old_linked l i p (let nx = next-add added h b in ground arith) e
    ]

    -- The blocks that were cached are so still, and the new one under its hash.
    old-CacheOk : (c : Branch) → CacheOk h c → CacheOk grown c
    old-CacheOk c cached k i e =
        let (li, hk) = cached k i e in
        let old = add_old added h b i (omega arith) in
        (omega (arith, next-add added h b), old.hash_same ∙ hk)

    load-added :
        (k : Bytes)
        → load k (add added h b).1.block_cache
          ≡ (if equal added.hash k then some h.next else load k b.block_cache)
    load-added k = rw (block_cache-add added h b) (load-store added.hash k h.next b.block_cache)

    new-CacheOk : CacheOk h b → CacheOk grown (add added h b).1
    new-CacheOk cached k i e = elim (Bool-cases (equal added.hash k)) [
      | inl same ↦
          let ei : i ≡ h.next = ground (arith, load-added k) in
          rw ei (
            omega (arith, next-add added h b),
            (add_new added h b lt).hash_same ∙ (equal_iff added.hash k).0 same,
          )
      | inr other ↦ old-CacheOk b cached k i (ground (arith, load-added k))
    ]

  module _ (i : ℕ) (cb : Block) (c : Chain) (k : IsIntact s c) (li : i < c.next_branch)
      (a : IsAccepted s c.heap (c.branch_at i) cb) where
    abbrev after : Chain
    after = add_block s.hash i cb c

    pub add_block-IsIntact : IsIntact s after
    unfolding add_block put_branch
    add_block-IsIntact = record {
      linked = add-IsLinked c.heap (c.branch_at i) cb (k.heads i li) a k.linked;
      heads = λ j lj.
          let old = k.heads j lj in
          ground (
            arith,
            next-add (added c.heap (c.branch_at i) cb (k.heads i li) a) c.heap (c.branch_at i),
          );
      caches = λ j lj. elim (Bool-cases (j == i)) [
        | inl e ↦ rw e (new-CacheOk c.heap (c.branch_at i) cb (k.heads i li) a (k.caches i li))
        | inr e ↦
            rw e (
              old-CacheOk c.heap (c.branch_at i) cb (k.heads i li) a (c.branch_at j)
                (k.caches j lj))
      ];
      listed = k.listed;
      longest_listed = k.longest_listed;
    }
