-- ===== src/Chain/Integrity/Highest.antt =====
-- `getLongestBranch` and `notifyCheck` of core/blockchain/chain.go: the height that is noted.
use blockchain.Common.{
  ℕ, ◌≤◌, ◌≡◌, arith, Bool, true, false, Option, some, none, Bytes, List, [], ◌∷◌, All, All-map, ok,
  ltb, ◌==◌, if◌then◌else◌, ◌||◌, ◌&&◌, Bool-cases, Option-cases, Result-cases, inl, inr,
}
use blockchain.Common.Int.{ℤ}
use blockchain.Cp.Block.{Block}
use blockchain.Chain.Verify.{Setting}
use blockchain.Chain.Growth.{
  Chain, branch_height, extend, get_branch, create_branch, longest_from, notify_check, add_to,
  add_blocks,
}

-- No branch is higher than the height that was told last.
abbrev pub IsTold : Chain → Type 0
IsTold c = All (λ i. branch_height c i ≤ c.last_height) c.branches

longest_from_highest :
    (even : ℕ → Bool) (c : Chain) (is : List ℕ) (best : Option ℕ) (top i : ℕ)
    → ((j : ℕ) → best ≡ some j → branch_height c j ≡ top)
    → longest_from even c is best top ≡ some i
    → (top ≤ branch_height c i) × All (λ j. branch_height c j ≤ branch_height c i) is
unfolding longest_from
longest_from_highest even c [] best top i at_top e = (ground (arith, at_top i e), tt)
longest_from_highest even c (j ∷ js) best top i at_top e =
    let higher = if ltb top (branch_height c j) then branch_height c j else top in
    let rest =
      longest_from_highest even c js
        (if ltb top (branch_height c j) || (branch_height c j == top && even j)
          then some j
          else best)
        higher i (λ m em. let fm = at_top m in ground arith) e in
    let from_top : higher ≤ branch_height c i = rest.0 in (ground arith, (ground arith, rest.1))

notify_check-IsTold : (even : ℕ → Bool) (c d : Chain) → notify_check even c ≡ some d → IsTold d
unfolding notify_check
notify_check-IsTold even c d e = elim (Option-cases (longest_from even c c.branches none 0)) [
  | inl nil ↦ absurd (ground arith)
  | inr (i, found) ↦
      let all =
        (longest_from_highest even c c.branches none 0 i (λ j bad. absurd (ground arith))
          found).1 in
      elim (Bool-cases (ltb c.last_height (branch_height c i))) [
        | inl higher ↦
            let ed : d
                ≡ record c { longest = i; last_height = branch_height c i; notified = true } =
              ground arith in
            rw ed all
        | inr lower ↦
            let ed : d ≡ c = ground arith in
            rw ed (
              All-map (λ j. branch_height c j ≤ branch_height c i)
                (λ j. branch_height c j ≤ c.last_height) c.branches (λ j lj. ground arith) all)
      ]
]

module _ (s : Setting) (has : Bytes → Bool) (now : ℤ) (even : ℕ → Bool) where
  add_to-IsTold :
      (i : ℕ) (cbs : List Block) (c : Chain)
      → (add_to s has now even false i cbs c).0 ≡ ok tt
      → IsTold (add_to s has now even false i cbs c).1
  unfolding add_to
  add_to-IsTold i cbs c e = elim (Result-cases (extend s has now i cbs c).0) [
    | inr (x, ex) ↦ absurd (ground arith)
    | inl (tt, ex) ↦ elim (Option-cases (notify_check even (extend s has now i cbs c).1)) [
      | inl nil ↦ absurd (ground arith)
      | inr (d, found) ↦
          rw (ex, found, add_to) (notify_check-IsTold even (extend s has now i cbs c).1 d found)
    ]
  ]

  -- Where `addBlocks` of blocks that are not local returns no error, no listed branch is higher than
  -- the height that the chain has noted last.
  pub add_blocks-IsTold :
      (cbs : List Block) (c : Chain)
      → (add_blocks s has now even cbs false c).0 ≡ ok tt
      → IsTold (add_blocks s has now even cbs false c).1
  unfolding add_blocks
  add_blocks-IsTold [] c e = absurd (ground arith)
  add_blocks-IsTold (cb ∷ cbs) c e =
      elim (Option-cases (get_branch cb.header.last_hash c c.branches)) [
        | inr (i, found) ↦
            rw (found, add_blocks) (add_to-IsTold i (cb ∷ cbs) c (rw (found, add_blocks) at e))
        | inl nil ↦ elim (Result-cases (create_branch s.hash cb c)) [
          | inr (x, ex) ↦ absurd (ground arith)
          | inl ((i, d), ex) ↦
              rw (nil, ex, add_blocks)
                (add_to-IsTold i (cb ∷ cbs) d (rw (nil, ex, add_blocks) at e))
        ]
      ]
