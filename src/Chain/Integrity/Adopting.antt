-- ===== src/Chain/Integrity/Adopting.antt =====
-- The invariant under `addBlocks` of core/blockchain/chain.go and all that it calls.
use blockchain.Common.{
  ℕ, ◌+◌, ◌<◌, ◌≡◌, refl, arith, Bool, true, Option, some, none, Bytes, List, [], ◌∷◌, ◌++◌, All,
  All-append, All-map, ok, ltb, ◌==◌, if◌then◌else◌, ◌||◌, ◌&&◌, Bool-cases, Option-cases,
  Result-cases, inl, inr,
}
use blockchain.Common.Int.{ℤ}
use blockchain.Cp.Block.{Block}
use blockchain.Chain.Maps.{load}
use blockchain.Chain.Blocks.{Node}
use blockchain.Chain.Branch.{new_branch, get_block}
use blockchain.Chain.Caching.{CacheOk, head-new_branch, new_branch-CacheOk}
use blockchain.Chain.Verify.{Setting, verify_block}
use blockchain.Chain.Growth.{
  Chain, branch_height, add_block, put_branch, extend, get_branch, find_parent, create_branch,
  longest_from, notify_check, add_to, add_blocks, init_first_branch,
}
use blockchain.Chain.Integrity.{IsIntact}
use blockchain.Chain.Integrity.Accepted.{verify_block-IsAccepted}
use blockchain.Chain.Integrity.Growing.{add_block-IsIntact}

get_branch-listed :
    (k : Bytes) (c : Chain) (is : List ℕ) (i : ℕ)
    → All (λ b. b < c.next_branch) is
    → get_branch k c is ≡ some i
    → i < c.next_branch
unfolding get_branch
get_branch-listed k c [] i all e = ground arith
get_branch-listed k c (j ∷ js) i (lj, all) e = ground (arith, get_branch-listed k c js i all)

find_parent-found :
    (k : Bytes) (c : Chain) (is : List ℕ) (i m : ℕ)
    → ((b : ℕ) → b < c.next_branch → CacheOk c.heap (c.branch_at b))
    → All (λ b. b < c.next_branch) is
    → find_parent k c is ≡ some (i, m)
    → m < c.heap.next
unfolding find_parent get_block
find_parent-found k c [] i m caches all e = ground arith
find_parent-found k c (j ∷ js) i m caches (lj, all) e =
    elim (Option-cases (load k (c.branch_at j).block_cache)) [
      | inl none_here ↦ find_parent-found k c js i m caches all (ground arith)
      | inr (n, found) ↦ (caches j lj k m (ground arith)).0
    ]

longest_from-listed :
    (even : ℕ → Bool) (c : Chain) (is : List ℕ) (best : Option ℕ) (top i : ℕ)
    → All (λ b. b < c.next_branch) is
    → ((j : ℕ) → best ≡ some j → j < c.next_branch)
    → longest_from even c is best top ≡ some i
    → i < c.next_branch
unfolding longest_from
longest_from-listed even c [] best top i all fine e = fine i e
longest_from-listed even c (j ∷ js) best top i (lj, all) fine e =
    longest_from-listed even c js
      (if ltb top (branch_height c j) || (branch_height c j == top && even j) then some j else best)
      (if ltb top (branch_height c j) then branch_height c j else top) i all
      (λ m em. let fm = fine m in ground arith) e

module _ (s : Setting) where
  abbrev told : ℕ → Chain → Chain
  told i c = record c { longest = i; last_height = branch_height c i; notified = true }

  told-IsIntact : (i : ℕ) (c : Chain) → i < c.next_branch → IsIntact s c → IsIntact s (told i c)
  told-IsIntact i c li k = record {
    linked = k.linked;
    heads = k.heads;
    caches = k.caches;
    listed = k.listed;
    longest_listed = li;
  }

  notify_check-IsIntact :
      (even : ℕ → Bool) (c d : Chain) → IsIntact s c → notify_check even c ≡ some d → IsIntact s d
  unfolding notify_check
  notify_check-IsIntact even c d k e = elim (Option-cases (longest_from even c c.branches none 0)) [
    | inl nil ↦ absurd (ground arith)
    | inr (i, found) ↦
        let li : i < c.next_branch =
          longest_from-listed even c c.branches none 0 i k.listed (λ j bad. absurd (ground arith))
            found in
        elim (Bool-cases (ltb c.last_height (branch_height c i))) [
          | inl higher ↦ let ed : d ≡ told i c = ground arith in rw ed (told-IsIntact i c li k)
          | inr lower ↦ let ed : d ≡ c = ground arith in rw ed k
        ]
  ]

  next_branch-add_block :
      (i : ℕ) (cb : Block) (c : Chain) → (add_block s.hash i cb c).next_branch ≡ c.next_branch
  unfolding add_block put_branch
  next_branch-add_block i cb c = refl

  module _ (has : Bytes → Bool) (now : ℤ) where
    extend-IsIntact :
        (i : ℕ) (cbs : List Block) (c : Chain)
        → IsIntact s c
        → i < c.next_branch
        → IsIntact s (extend s has now i cbs c).1
    unfolding extend
    extend-IsIntact i [] c k li = k
    extend-IsIntact i (cb ∷ cbs) c k li =
        elim (Result-cases (verify_block s has now c.heap (c.branch_at i) cb)) [
          | inl (tt, e) ↦
              let a = verify_block-IsAccepted s has now c.heap (c.branch_at i) cb e in
              rw (e, extend)
                (extend-IsIntact i cbs (add_block s.hash i cb c)
                  (add_block-IsIntact s i cb c k li a) (rw (next_branch-add_block i cb c) li))
          | inr (x, e) ↦ rw (e, extend) k
        ]

    add_to-IsIntact :
        (even : ℕ → Bool) (local : Bool) (i : ℕ) (cbs : List Block) (c : Chain)
        → IsIntact s c
        → i < c.next_branch
        → IsIntact s (add_to s has now even local i cbs c).1
    unfolding add_to
    add_to-IsIntact even local i cbs c k li =
        let kept = extend-IsIntact i cbs c k li in
        elim (Result-cases (extend s has now i cbs c).0) [
          | inr (x, e) ↦ rw (e, add_to) kept
          | inl (tt, e) ↦ elim (Bool-cases local) [
            | inl el ↦ rw (e, el, add_to) kept
            | inr el ↦ elim (Option-cases (notify_check even (extend s has now i cbs c).1)) [
              | inl nil ↦ rw (e, el, nil, add_to) kept
              | inr (d, found) ↦
                  rw (e, el, found, add_to)
                    (notify_check-IsIntact even (extend s has now i cbs c).1 d kept found)
            ]
          ]
        ]

  abbrev with_branch : ℕ → Chain → Chain
  with_branch m c = record c {
    branch_at = λ j. if j == c.next_branch then new_branch m c.heap else c.branch_at j;
    next_branch = c.next_branch + 1;
    branches = c.branches ++ (c.next_branch ∷ []);
  }

  with_branch-IsIntact :
      (m : ℕ) (c : Chain) → m < c.heap.next → IsIntact s c → IsIntact s (with_branch m c)
  with_branch-IsIntact m c lm k = record {
    linked = k.linked;
    heads = λ b lb. let old = k.heads b in let hd = head-new_branch m c.heap in ground arith;
    caches = λ b lb. elim (Bool-cases (b == c.next_branch)) [
      | inl e ↦ rw e (new_branch-CacheOk c.heap (λ i p li ep. (k.linked i p li ep).0) m lm)
      | inr e ↦ rw e (k.caches b (ground arith))
    ];
    listed =
        All-append (λ b. b < c.next_branch + 1) c.branches (c.next_branch ∷ [])
          (All-map (λ b. b < c.next_branch) (λ b. b < c.next_branch + 1) c.branches
            (λ b lb. omega arith) k.listed)
          (omega arith, tt);
    longest_listed = let l = k.longest_listed in omega arith;
  }

  create_branch-IsIntact :
      (cb : Block) (c : Chain) (i : ℕ) (d : Chain)
      → IsIntact s c
      → create_branch s.hash cb c ≡ ok (i, d)
      → IsIntact s d × (i < d.next_branch)
  unfolding create_branch
  create_branch-IsIntact cb c i d k e =
      elim (Option-cases (find_parent cb.header.last_hash c c.branches)) [
        | inl nil ↦ absurd (ground arith)
        | inr ((j, m), found) ↦
            let lm =
              find_parent-found cb.header.last_hash c c.branches j m k.caches k.listed found in
            let ei : i ≡ c.next_branch = ground arith in
            let ed : d ≡ with_branch m c = ground arith in
            rw ed (with_branch-IsIntact m c lm k, omega arith)
      ]

  -- On an intact chain `addBlocks` leaves an intact chain, whatever the blocks, the clock and the
  -- database are and whether or not it gives up: in the store every block with a parent is one higher
  -- than it, names its hash, is not older, is valid in itself and has the proof of work of its target,
  -- and parents have smaller numbers; heads and cached blocks stand in the store, the cached ones under
  -- their own hash; the listed branches and the longest branch are branches of the chain.
  pub add_blocks-IsIntact :
      (has : Bytes → Bool) (now : ℤ) (even : ℕ → Bool) (cbs : List Block) (local : Bool) (c : Chain)
      → IsIntact s c
      → IsIntact s (add_blocks s has now even cbs local c).1
  unfolding add_blocks
  add_blocks-IsIntact has now even [] local c k = k
  add_blocks-IsIntact has now even (cb ∷ cbs) local c k =
      elim (Option-cases (get_branch cb.header.last_hash c c.branches)) [
        | inr (i, found) ↦
            rw (found, add_blocks)
              (add_to-IsIntact has now even local i (cb ∷ cbs) c k
                (get_branch-listed cb.header.last_hash c c.branches i k.listed found))
        | inl nil ↦ elim (Result-cases (create_branch s.hash cb c)) [
          | inr (x, e) ↦ rw (nil, e, add_blocks) k
          | inl ((i, d), e) ↦
              let (kd, li) = create_branch-IsIntact cb c i d k e in
              rw (nil, e, add_blocks) (add_to-IsIntact has now even local i (cb ∷ cbs) d kd li)
        ]
      ]

  pub init_first_branch-IsIntact : (n : Node) → n.backward ≡ none → IsIntact s (init_first_branch n)
  unfolding init_first_branch
  init_first_branch-IsIntact n e = record {
    linked = λ i p li ep. absurd cc;
    heads = λ b lb. rw (head-new_branch 0 (init_first_branch n).heap) (omega arith);
    caches = λ b lb.
        new_branch-CacheOk (init_first_branch n).heap (λ i p li ep. absurd cc) 0 (omega arith);
    listed = (omega arith, tt);
    longest_listed = omega arith;
  }
