-- ===== src/Chain/Growth.antt =====
-- core/blockchain/chain.go: the chain and how it takes in blocks.
use blockchain.Common.{
  ℕ, ◌+◌, Bool, true, false, ◌&&◌, ◌||◌, Option, some, none, Bytes, List, [], ◌∷◌, ◌++◌, ltb, ◌==◌,
  if◌then◌else◌, equal, Result, ok, err,
}
use blockchain.Common.Int.{ℤ}
use blockchain.Cp.Block.{Block}
use blockchain.Chain.{alpha, sub64}
use blockchain.Chain.Blocks.{Node, Heap, new_block, is_backward_of}
use blockchain.Chain.Branch
use blockchain.Chain.Branch.{Branch, new_branch, add, get_block}
use blockchain.Chain.Verify.{Setting, BranchError, verify_block}

-- The struct `Chain`. The branches that were allocated have the numbers below `next_branch`, and
-- `notified` is a value that waits in `PassiveChangeNotify`.
pub record Chain : Type 0 where
  pub heap : Heap
  pub branch_at : ℕ → Branch
  pub next_branch : ℕ
  pub branches : List ℕ
  pub longest : ℕ
  pub oldest : ℕ
  pub last_height : ℕ
  pub notified : Bool

unfoldable pub put_branch : ℕ → Branch → Chain → Chain
put_branch i b c = record c { branch_at = λ j. if j == i then b else c.branch_at j }

abbrev pub branch_height : Chain → ℕ → ℕ
branch_height c i = Branch.height (c.branch_at i) c.heap

-- `getBranch`: the first branch that ends in the hash.
unfoldable pub get_branch : Bytes → Chain → List ℕ → Option ℕ
get_branch k c [] = none
get_branch k c (i ∷ is) =
    if equal (Branch.hash (c.branch_at i) c.heap) k then some i else get_branch k c is

pub data CreateError : Type 0 where
  too_old duplicated not_found : CreateError

-- The first branch that holds the parent of a block, with that parent.
unfoldable pub find_parent : Bytes → Chain → List ℕ → Option (ℕ × ℕ)
find_parent k c [] = none
find_parent k c (i ∷ is) = elim (get_block k (c.branch_at i)) [
  | none ↦ find_parent k c is
  | some m ↦ some (i, m)
]

-- `createBranch`: the chain with a new branch that ends in the parent, and its number.
unfoldable pub create_branch : (Bytes → Bytes) → Block → Chain → Result CreateError (ℕ × Chain)
unfolding find_parent new_branch is_backward_of
create_branch hash cb c = elim (find_parent cb.header.last_hash c c.branches) [
  | none ↦ err not_found
  | some (i, m) ↦
      let n = c.next_branch in
      let b = new_branch m c.heap in
      if ltb alpha (sub64 (branch_height c i) (c.heap.node m).height)
      then err too_old
      else if is_backward_of hash m cb c.heap
      then err duplicated
      else ok (
        n,
        record c {
          branch_at = λ j. if j == n then b else c.branch_at j;
          next_branch = n + 1;
          branches = c.branches ++ (n ∷ []);
        },
      )
]

-- `bc.add(newBlock(cb, bc.height()+1, false))`
unfoldable pub add_block : (Bytes → Bytes) → ℕ → Block → Chain → Chain
unfolding new_block add put_branch
add_block hash i cb c =
    let (h, b) = add (new_block hash cb (branch_height c i + 1) false) c.heap (c.branch_at i) in
    put_branch i b (record c { heap = h })

-- The loop of `addBlocks` over one branch: it stops at the first block that is refused, and keeps
-- those before it.
unfoldable pub extend :
    Setting → (Bytes → Bool) → ℤ → ℕ → List Block → Chain → Result BranchError (Unit {0}) × Chain
unfolding add_block
extend s has now i [] c = (ok tt, c)
extend s has now i (cb ∷ cbs) c =
    let rest = extend s has now i cbs (add_block s.hash i cb c) in
    elim (verify_block s has now c.heap (c.branch_at i) cb) [ err e ↦ (err e, c) | ok _ ↦ rest ]

-- `getLongestBranch`. `even` tells of each branch whether the clock is even when it is looked at;
-- the answer is nil where no branch has a height above 0 or a tie with it.
unfoldable pub longest_from : (ℕ → Bool) → Chain → List ℕ → Option ℕ → ℕ → Option ℕ
longest_from even c [] best top = best
longest_from even c (i ∷ is) best top =
    longest_from even c is
      (if ltb top (branch_height c i) || (branch_height c i == top && even i) then some i else best)
      (if ltb top (branch_height c i) then branch_height c i else top)

-- `notifyCheck`; the flag that waits is set where it is not set.
unfoldable pub notify_check : (ℕ → Bool) → Chain → Option Chain
unfolding longest_from
notify_check even c = elim (longest_from even c c.branches none 0) [
  | none ↦ none
  | some i ↦
      if ltb c.last_height (branch_height c i)
      then some (record c { longest = i; last_height = branch_height c i; notified = true })
      else some c
]

pub data AddError : Type 0 where
  empty_blocks : AddError
  create : CreateError → AddError
  refused : BranchError → AddError
  -- A panic in `notifyCheck`.
  no_branch : AddError

-- What `addBlocks` does on the branch that it found or created.
unfoldable pub add_to :
    Setting
    → (Bytes → Bool)
    → ℤ
    → (ℕ → Bool)
    → Bool
    → ℕ
    → List Block
    → Chain
    → Result AddError (Unit {0}) × Chain
unfolding extend notify_check
add_to s has now even local i cbs c =
    let (r, c') = extend s has now i cbs c in
    elim r [
      | err e ↦ (err (refused e), c')
      | ok _ ↦
          if local
          then (ok tt, c')
          else elim (notify_check even c') [ none ↦ (err no_branch, c') | some c'' ↦ (ok tt, c'') ]
    ]

-- `addBlocks`: why it gave up, if it did, and the chain after it.
unfoldable pub add_blocks :
    Setting
    → (Bytes → Bool)
    → ℤ
    → (ℕ → Bool)
    → List Block
    → Bool
    → Chain
    → Result AddError (Unit {0}) × Chain
unfolding get_branch create_branch add_to
add_blocks s has now even [] local c = (err empty_blocks, c)
add_blocks s has now even (cb ∷ cbs) local c = elim (get_branch cb.header.last_hash c c.branches) [
  | some i ↦ add_to s has now even local i (cb ∷ cbs) c
  | none ↦ elim (create_branch s.hash cb c) [
    | err e ↦ (err (create e), c)
    | ok (i, c') ↦ add_to s has now even local i (cb ∷ cbs) c'
  ]
]

-- `initFirstBranch`, on a new chain.
unfoldable pub init_first_branch : Node → Chain
unfolding new_branch
init_first_branch n =
    let h : Heap = record { node = λ _. n; next = 1 } in
    record {
      heap = h;
      branch_at = λ _. new_branch 0 h;
      next_branch = 1;
      branches = 0 ∷ [];
      longest = 0;
      oldest = 0;
      last_height = n.height;
      notified = false;
    }
