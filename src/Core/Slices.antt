-- ===== src/Core/Slices.antt =====
-- The responses that `handleBlocksRequest` of core/net.go cuts the blocks into.
use blockchain.Common.{
  ℕ, zero, suc, ◌≤◌, ◌≡◌, refl, sym, ap, ◌∙◌, arith, some, Bytes, List, [], ◌∷◌, ◌++◌, map,
  append-nil, append_assoc, All, length, take, drop, take-append-drop,
}
use blockchain.Cp.Block.{Block}
use blockchain.Cp.BlockResponse
use blockchain.Cp.BlockResponse.{new_block_response}
use blockchain.Cp.BlockRequest.{BlockRequest, is_only_header}
use blockchain.Core.Net.{max_blocks_num_in_response, PeerData, ChainView, Net, send}
use blockchain.Core.Handlers.{slices, send_each, handle_blocks_request}

-- One list behind the other.
abbrev pub concat : List (List Block) → List Block
concat [] = []
concat (bs ∷ bss) = bs ++ concat bss

length-drop_le : (k : ℕ) (bs : List Block) → length (drop k bs) ≤ length bs
length-drop_le zero bs = omega arith
length-drop_le (suc k) [] = omega arith
length-drop_le (suc k) (b ∷ bs) = omega (arith, length-drop_le k bs)

length-take_le : (k : ℕ) (bs : List Block) → length (take k bs) ≤ k
length-take_le zero bs = omega arith
length-take_le (suc k) [] = omega arith
length-take_le (suc k) (b ∷ bs) = omega (arith, length-take_le k bs)

-- The slices hold the blocks, in their order.
concat-slices : (fuel : ℕ) (bs : List Block) → length bs ≤ fuel → concat (slices fuel bs) ≡ bs
unfolding slices
concat-slices zero [] le = refl
concat-slices zero (b ∷ bs) le = absurd (omega arith)
concat-slices (suc fuel) [] le = refl
concat-slices (suc fuel) (b ∷ bs) le =
    let rest =
      concat-slices fuel (drop max_blocks_num_in_response (b ∷ bs))
        (let low = length-drop_le 15 bs in omega arith) in
    rw rest (take-append-drop max_blocks_num_in_response (b ∷ bs))

-- No slice is empty or longer than 16 blocks.
abbrev pub IsSlice : List Block → Type 0
IsSlice bs = (1 ≤ length bs) × (length bs ≤ max_blocks_num_in_response)

slices-IsSlice : (fuel : ℕ) (bs : List Block) → All IsSlice (slices fuel bs)
unfolding slices
slices-IsSlice zero bs = tt
slices-IsSlice (suc fuel) [] = tt
slices-IsSlice (suc fuel) (b ∷ bs) = (
  (omega arith, length-take_le max_blocks_num_in_response (b ∷ bs)),
  slices-IsSlice fuel (drop max_blocks_num_in_response (b ∷ bs)),
)

-- The packets of the responses to a peer.
abbrev pub packets : Bytes → List (List Block) → List PeerData
packets peer =
    map λ bs. record { peer = peer; packet = BlockResponse.marshal (new_block_response bs) }

send_each-packets :
    (bss : List (List Block)) (peer : Bytes) (n : Net)
    → send_each bss peer n ≡ record n { send_q = n.send_q ++ packets peer bss }
unfolding send_each send
send_each-packets [] peer n =
    ap (λ (q : List PeerData). record n { send_q = q }) (sym (append-nil n.send_q))
send_each-packets (bs ∷ bss) peer n =
    let first = send (BlockResponse.marshal (new_block_response bs)) peer n in
    send_each-packets bss peer first
    ∙ ap (λ (q : List PeerData). record n { send_q = q })
        (append_assoc n.send_q (packets peer (bs ∷ [])) (packets peer bss))

-- A request for blocks that the chain has is answered with responses to the peer that hold these
-- blocks in their order, each at least one and at most 16, and nothing else changes.
pub handle_blocks_request-concat :
    (chain : ChainView) (r : BlockRequest) (peer : Bytes) (n : Net) (blocks : List Block)
    → chain.get_sync_blocks r.base r.end (is_only_header r) ≡ some blocks
    → (bss : List (List Block)) × (concat bss ≡ blocks)
      × All IsSlice bss
      × (handle_blocks_request chain r peer n ≡ record n { send_q = n.send_q ++ packets peer bss })
unfolding handle_blocks_request
handle_blocks_request-concat chain r peer n blocks e = (
  slices (length blocks) blocks,
  concat-slices (length blocks) blocks (omega arith),
  slices-IsSlice (length blocks) blocks,
  rw (e, handle_blocks_request) (send_each-packets (slices (length blocks) blocks) peer n),
)
