-- ===== src/Core/Transfer.antt =====
-- Blocks on their way from `handleBlocksRequest` of one node to `handleBlocksResponse` of another, both
-- of core/net.go.
use blockchain.Common.{
  ℕ, suc, ◌+◌, ◌≤◌, ◌<◌, ◌^◌, ◌≡◌, refl, sym, ap, subst, ◌∙◌, arith, true, false, some, Bytes, List,
  [], ◌∷◌, ◌++◌, append-nil, append_assoc, All, length, length-append, ◌==◌, inr,
}
use blockchain.Cp.Block
use blockchain.Cp.Block.{Block}
use blockchain.Cp.BlockResponse
use blockchain.Cp.BlockResponse.{BlockResponse, new_block_response}
use blockchain.Cp.BlockRequest.{BlockRequest, is_only_header}
use blockchain.Core.Message.{block_resp}
use blockchain.Core.Net.{PeerData, WaitingBlocks, ChainView, Net, queue_blocks}
use blockchain.Core.Handlers.{
  responded, collected, handle_blocks_response, handle_message, handle_recv_packet,
  handle_blocks_request,
}
use blockchain.Core.Dispatch.{handle_recv_packet-handle_message}
use blockchain.Core.Slices.{IsSlice, concat, packets, handle_blocks_request-concat}
use blockchain.Core.Taking.{IsNotOf, take_response-own, collected-append, each_part}

-- The packets that `net` takes in from a peer, one by one, each at its time.
unfoldable pub deliver : (Bytes → Bytes) → ChainView → (ℕ → ℕ) → Bytes → List PeerData → Net → Net
unfolding handle_recv_packet
deliver hash chain clock peer [] n = n
deliver hash chain clock peer (p ∷ ps) n =
    deliver hash chain (λ i. clock (suc i)) peer ps
      (handle_recv_packet hash chain (clock 0) (record { peer = peer; packet = p.packet }) n)

-- The entry of the peer waits for as many blocks as are left, and has those that came before.
pub record Waits (peer : Bytes) (n : Net) (before after : List WaitingBlocks)
    (came left : List Block) : Type 0 where
  pub entry : WaitingBlocks
  pub waiting : n.waiting_blocks ≡ before ++ (entry ∷ after)
  pub own : entry.peer_id ≡ peer
  pub not_of : IsNotOf peer before
  pub remain : entry.remain_nums ≡ length left
  pub so_far : collected entry.response ≡ came

module _ (hash : Bytes → Bytes) (chain : ChainView) (peer : Bytes)
    (before after : List WaitingBlocks) where
  response-Fits :
      (bs : List Block)
      → IsSlice bs
      → All Block.Fits bs
      → BlockResponse.Fits (new_block_response bs)
  response-Fits bs (low, high) fs = record {
    head_fits = record {
      version_lt = omega arith;
      type_lt = omega arith;
      reserved_lt = omega arith;
    };
    blocks_fits = (omega arith, fs);
  }

  -- A response for the entry.
  handle_response :
      (now : ℕ) (to : Bytes) (bs : List Block) (n : Net)
      → IsSlice bs
      → All Block.Fits bs
      → handle_recv_packet hash chain now
          (record { peer = peer; packet = BlockResponse.marshal (new_block_response bs) })
          n
        ≡ handle_blocks_response now (new_block_response bs) peer n
  unfolding handle_message
  handle_response now to bs n sl fs =
      handle_recv_packet-handle_message hash chain now _ n (block_resp (new_block_response bs))
        (inr refl)
        ([], sym (append-nil _), record { fields = response-Fits bs sl fs; typed = refl })

  last_response :
      (now : ℕ) (bs came : List Block) (n : Net)
      → length bs < 2 ^ 32
      → Waits peer n before after came bs
      → handle_blocks_response now (new_block_response bs) peer n
        ≡ queue_blocks (came ++ bs) (record n { waiting_blocks = before ++ after })
  unfolding handle_blocks_response
  last_response now bs came n lt w =
      let r = new_block_response bs in
      let zero_left : ((responded now r w.entry).remain_nums == 0) ≡ true =
        let k = w.remain in ground arith in
      let got = take_response-own now r peer w.entry before after w.own w.not_of in
      rw (w.waiting, got, zero_left, collected-append w.entry.response r, w.so_far)

  next_response :
      (now : ℕ) (bs left came : List Block) (n : Net)
      → 1 ≤ length left
      → length bs + length left < 2 ^ 32
      → Waits peer n before after came (bs ++ left)
      → let n' = handle_blocks_response now (new_block_response bs) peer n in
        Waits peer n' before after (came ++ bs) left
        × (n' ≡ record n { waiting_blocks = n'.waiting_blocks })
  unfolding handle_blocks_response
  next_response now bs left came n low lt w =
      let r = new_block_response bs in
      let w' = responded now r w.entry in
      let e : w'.remain_nums ≡ length left = omega (arith, w.remain, length-append bs left) in
      let more : (w'.remain_nums == 0) ≡ false = ground arith in
      let got = take_response-own now r peer w.entry before after w.own w.not_of in
      rw (w.waiting, got, more)
        (
          record {
            entry = w';
            waiting = refl;
            own = w.own;
            not_of = w.not_of;
            remain = e;
            so_far =
                collected-append w.entry.response r ∙ ap (λ (x : List Block). x ++ bs) w.so_far;
          },
          refl,
        )

  deliver_rest :
      (clock : ℕ → ℕ) (to : Bytes) (bs : List Block) (bss : List (List Block)) (came : List Block)
      (n : Net)
      → All IsSlice (bs ∷ bss)
      → All (All Block.Fits) (bs ∷ bss)
      → length (concat (bs ∷ bss)) < 2 ^ 32
      → Waits peer n before after came (concat (bs ∷ bss))
      → deliver hash chain clock peer (packets to (bs ∷ bss)) n
        ≡ queue_blocks (came ++ concat (bs ∷ bss)) (record n { waiting_blocks = before ++ after })
  unfolding deliver
  deliver_rest clock to bs [] came n (sl, sls) (fs, fss) lt w =
      let whole : concat (bs ∷ []) ≡ bs = append-nil bs in
      let w' : Waits peer n before after came bs =
        subst (λ (x : List Block). Waits peer n before after came x) whole w in
      handle_response (clock 0) to bs n sl fs
      ∙ last_response (clock 0) bs came n
          (let k : length (concat (bs ∷ [])) < 2 ^ 32 = lt in rw whole at k) w'
      ∙ ap
          (λ (x : List Block).
            queue_blocks (came ++ x) (record n { waiting_blocks = before ++ after }))
          (sym whole)
  deliver_rest clock to bs (cs ∷ bss) came n (sl, sls) (fs, fss) lt w =
      let n' = handle_blocks_response (clock 0) (new_block_response bs) peer n in
      let len = length-append bs (concat (cs ∷ bss)) in
      let low : 1 ≤ length (concat (cs ∷ bss)) =
        omega (arith, length-append cs (concat bss), sls.0.0) in
      let (w', e) =
        next_response (clock 0) bs (concat (cs ∷ bss)) came n low (omega (arith, len)) w in
      let rest =
        deliver_rest (λ i. clock (suc i)) to cs bss (came ++ bs) n' sls fss (omega (arith, len))
          w' in
      ap (deliver hash chain (λ i. clock (suc i)) peer (packets to (cs ∷ bss)))
        (handle_response (clock 0) to bs n sl fs)
      ∙ rest
      ∙ ap
          (λ (m : Net).
            queue_blocks ((came ++ bs) ++ concat (cs ∷ bss))
              (record m { waiting_blocks = before ++ after }))
          e
      ∙ ap (λ (x : List Block). queue_blocks x (record n { waiting_blocks = before ++ after }))
          (append_assoc came bs (concat (cs ∷ bss)))

  deliver_slices :
      (clock : ℕ → ℕ) (to : Bytes) (bss : List (List Block)) (n : Net)
      → All IsSlice bss
      → All (All Block.Fits) bss
      → 1 ≤ length (concat bss)
      → length (concat bss) < 2 ^ 32
      → Waits peer n before after [] (concat bss)
      → deliver hash chain clock peer (packets to bss) n
        ≡ queue_blocks (concat bss) (record n { waiting_blocks = before ++ after })
  deliver_slices clock to [] n sls fss low lt w = absurd (omega arith)
  deliver_slices clock to (bs ∷ bss) n sls fss low lt w =
      deliver_rest clock to bs bss [] n sls fss lt w

  -- The blocks that one node has for a request, at least one, reach the node that waits for as many of
  -- them: it takes the packets of the answer off one after the other, queues exactly the blocks, once
  -- and in their order, and waits for the peer no more.
  pub deliver-handle_blocks_request :
      (served : ChainView) (r : BlockRequest) (to : Bytes) (m n : Net) (clock : ℕ → ℕ)
      (blocks : List Block)
      → served.get_sync_blocks r.base r.end (is_only_header r) ≡ some blocks
      → 1 ≤ length blocks
      → length blocks < 2 ^ 32
      → All Block.Fits blocks
      → Waits peer n before after [] blocks
      → (ps : List PeerData) × (handle_blocks_request served r to m
          ≡ record m { send_q = m.send_q ++ ps })
        × (deliver hash chain clock peer ps n
            ≡ queue_blocks blocks (record n { waiting_blocks = before ++ after }))
  deliver-handle_blocks_request served r to m n clock blocks e low lt fs w =
      let (bss, parts, sls, sent) = handle_blocks_request-concat served r to m blocks e in
      let lt : length (concat bss) < 2 ^ 32 = rw parts lt in
      let w' : Waits peer n before after [] (concat bss) =
        subst (λ (x : List Block). Waits peer n before after [] x) (sym parts) w in
      (
        packets to bss,
        sent,
        deliver_slices clock to bss n sls
              (each_part Block.Fits bss (subst (All Block.Fits) (sym parts) fs)) (rw parts low) lt
              w'
            ∙ ap
                (λ (x : List Block). queue_blocks x (record n { waiting_blocks = before ++ after }))
                parts,
      )

  -- A response with more blocks than the peer's entry waits for leaves the entry there: what remains
  -- wraps around, nothing is queued for the chain, and the entry then waits for about 2^32 blocks.
  pub handle_blocks_response_wraps :
      (now : ℕ) (r : BlockResponse) (w : WaitingBlocks) (n : Net)
      → n.waiting_blocks ≡ before ++ (w ∷ after)
      → w.peer_id ≡ peer
      → IsNotOf peer before
      → w.remain_nums < length r.blocks
      → length r.blocks < 2 ^ 32
      → (w' : WaitingBlocks) × (handle_blocks_response now r peer n
          ≡ record n { waiting_blocks = before ++ (w' ∷ after) })
        × (w'.peer_id ≡ peer)
        × (w'.remain_nums + length r.blocks ≡ w.remain_nums + 2 ^ 32)
  unfolding handle_blocks_response
  handle_blocks_response_wraps now r w n waiting own apart more lt =
      let w' = responded now r w in
      let e : w'.remain_nums + length r.blocks ≡ w.remain_nums + 2 ^ 32 = omega arith in
      let open_still : (w'.remain_nums == 0) ≡ false = ground arith in
      (w', rw (waiting, take_response-own now r peer w before after own apart, open_still), own, e)
