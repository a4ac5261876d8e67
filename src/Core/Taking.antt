-- ===== src/Core/Taking.antt =====
-- `handleBlocksResponse` of core/net.go: what it does with the entry of the peer.
use blockchain.Common.{
  ℕ, ◌≡◌, ◌≢◌, sym, ap, ◌∙◌, false, some, none, Bytes, List, [], ◌∷◌, ◌++◌, append-nil,
  append_assoc, All, equal, equal_iff, ◌==◌, if◌then◌else◌, Bool-cases, inl, inr,
}
use blockchain.Cp.Block.{Block}
use blockchain.Cp.BlockResponse.{BlockResponse}
use blockchain.Core.Net.{WaitingBlocks}
use blockchain.Core.Handlers.{responded, collected, take_response}
use blockchain.Core.Slices.{concat}

-- No entry before the one of the peer is of that peer.
abbrev pub IsNotOf : Bytes → List WaitingBlocks → Type 0
IsNotOf peer = All λ w. w.peer_id ≢ peer

not_equal : (x y : Bytes) → x ≢ y → equal x y ≡ false
not_equal x y ne = elim (Bool-cases (equal x y)) [
  | inl same ↦ absurd (ne ((equal_iff x y).0 same))
  | inr other ↦ other
]

pub take_response-own :
    (now : ℕ) (r : BlockResponse) (peer : Bytes) (w : WaitingBlocks)
    (before after : List WaitingBlocks)
    → w.peer_id ≡ peer
    → IsNotOf peer before
    → take_response now r peer (before ++ (w ∷ after)) ≡ (
        if (responded now r w).remain_nums == 0
        then (before ++ after, some (collected (responded now r w).response))
        else (before ++ (responded now r w ∷ after), none))
unfolding take_response
take_response-own now r peer w [] after own none_of = rw ((equal_iff w.peer_id peer).1 own)
take_response-own now r peer w (x ∷ before) after own (ne, rest) =
    elim (Bool-cases ((responded now r w).remain_nums == 0)) [
      | inl done ↦
          rw (
            not_equal x.peer_id peer ne,
            take_response-own now r peer w before after own rest,
            done,
          )
      | inr more ↦
          rw (
            not_equal x.peer_id peer ne,
            take_response-own now r peer w before after own rest,
            more,
          )
    ]

pub collected-append :
    (rs : List BlockResponse) (r : BlockResponse)
    → collected (rs ++ (r ∷ [])) ≡ collected rs ++ r.blocks
unfolding collected
collected-append [] r = append-nil r.blocks
collected-append (x ∷ rs) r =
    ap (λ y. x.blocks ++ y) (collected-append rs r)
    ∙ sym (append_assoc x.blocks (collected rs) r.blocks)

both_halves : (P : Block → Type 0) (xs ys : List Block) → All P (xs ++ ys) → All P xs × All P ys
both_halves P [] ys ps = (tt, ps)
both_halves P (x ∷ xs) ys (p, ps) = let (first, rest) = both_halves P xs ys ps in ((p, first), rest)

pub each_part :
    (P : Block → Type 0) (bss : List (List Block)) → All P (concat bss) → All (All P) bss
each_part P [] ps = tt
each_part P (bs ∷ bss) ps =
    let (first, rest) = both_halves P bs (concat bss) ps in (first, each_part P bss rest)
