-- ===== src/Core/Handlers.antt =====
-- core/net.go: what `net` does with each message.
use blockchain.Common.{
  ℕ, zero, suc, ◌+◌, ◌-◌, ◌%◌, ◌^◌, true, false, not, ◌&&◌, ◌||◌, Option, some, none, Bytes, List,
  [], ◌∷◌, ◌++◌, length, take, drop, equal, ◌==◌, if◌then◌else◌, ok, err,
}
use blockchain.Cp.{msg_block_broadcast, msg_evidence_broadcast}
use blockchain.Cp.Head
use blockchain.Cp.Block.{Block}
use blockchain.Cp.Evidence.{Evidence}
use blockchain.Cp.SyncRequest.{SyncRequest}
use blockchain.Cp.SyncResponse
use blockchain.Cp.SyncResponse.{SyncResponse, new_sync_response, is_uptodate}
use blockchain.Cp.BlockRequest.{BlockRequest, is_only_header}
use blockchain.Cp.BlockResponse
use blockchain.Cp.BlockResponse.{BlockResponse, new_block_response}
use blockchain.Cp.BlockBroadcast.{BlockBroadcast}
use blockchain.Cp.EvidenceBroadcast.{EvidenceBroadcast, elements}
use blockchain.EvidencePool.{Pool, add_evidence}
use blockchain.Chain.Maps.{store}
use blockchain.Core.Message.{
  Message, sync_req, sync_resp, block_req, block_resp, block_bcast, evd_bcast, read_message,
}
use blockchain.Core.Net.{
  max_blocks_num_in_response, PeerData, WaitingBlocks, ChainView, Net, send, relay_broadcast,
  queue_blocks, already_up_to_date, other_error,
}

unfoldable pub handle_sync_request : ChainView → SyncRequest → Bytes → Net → Net
unfolding send
handle_sync_request chain r peer n = elim (chain.get_sync_hash r.base) [
  | err already_up_to_date ↦ send (SyncResponse.marshal (new_sync_response [] [] 0 true)) peer n
  | err other_error ↦ n
  | ok (sync_end, height_diff) ↦
      send (SyncResponse.marshal (new_sync_response r.base sync_end height_diff false)) peer n
]

unfoldable pub handle_sync_response : SyncResponse → Bytes → Net → Net
unfolding store
handle_sync_response r peer n =
    if n.waiting_hash then record n { sync_hash_resp = store peer r n.sync_hash_resp } else n

-- The loop over the blocks: the slices that are sent. As many rounds as there are blocks are enough.
unfoldable pub slices : ℕ → List Block → List (List Block)
slices zero blocks = []
slices (suc fuel) [] = []
slices (suc fuel) (b ∷ bs) =
    take max_blocks_num_in_response (b ∷ bs)
    ∷ slices fuel (drop max_blocks_num_in_response (b ∷ bs))

unfoldable pub send_each : List (List Block) → Bytes → Net → Net
unfolding send
send_each [] peer n = n
send_each (bs ∷ bss) peer n =
    send_each bss peer (send (BlockResponse.marshal (new_block_response bs)) peer n)

unfoldable pub handle_blocks_request : ChainView → BlockRequest → Bytes → Net → Net
unfolding send_each slices is_only_header
handle_blocks_request chain r peer n =
    elim (chain.get_sync_blocks r.base r.end (is_only_header r)) [
      | none ↦ n
      | some blocks ↦ send_each (slices (length blocks) blocks) peer n
    ]

-- The blocks of all responses, in their order.
unfoldable pub collected : List BlockResponse → List Block
collected [] = []
collected (r ∷ rs) = r.blocks ++ collected rs

-- `exp.remainNums -= uint32(len(r.Blocks))`
abbrev pub sub32 : ℕ → ℕ → ℕ
sub32 a b = (a + 2 ^ 32 - b % 2 ^ 32) % 2 ^ 32

abbrev pub responded : ℕ → BlockResponse → WaitingBlocks → WaitingBlocks
responded now r w = record w {
  last_response_time = now;
  remain_nums = sub32 w.remain_nums (length r.blocks);
  response = w.response ++ (r ∷ []);
}

-- The loop of `handleBlocksResponse`: the first entry of the peer takes the response, and leaves the
-- list where nothing remains; then its blocks are to be added. `remainNums < 0` is never true.
unfoldable pub take_response :
    ℕ → BlockResponse → Bytes → List WaitingBlocks → List WaitingBlocks × Option (List Block)
unfolding collected
take_response now r peer [] = ([], none)
take_response now r peer (w ∷ ws) =
    let (ws', added) = take_response now r peer ws in
    let w' = responded now r w in
    if equal w.peer_id peer
    then (if w'.remain_nums == 0 then (ws, some (collected w'.response)) else (w' ∷ ws, none))
    else (w ∷ ws', added)

abbrev pub queue_taken : Option (List Block) → Net → Net
queue_taken none n = n
queue_taken (some blocks) n = queue_blocks blocks n

unfoldable pub handle_blocks_response : ℕ → BlockResponse → Bytes → Net → Net
unfolding take_response
handle_blocks_response now r peer n =
    let (ws, added) = take_response now r peer n.waiting_blocks in
    queue_taken added (record n { waiting_blocks = ws })

unfoldable pub handle_block_broadcast : (Bytes → Bytes) → ℕ → Bytes → BlockBroadcast → Net → Net
unfolding relay_broadcast
handle_block_broadcast hash now origin b n =
    let (first, n') = relay_broadcast hash now origin n in
    if first then queue_blocks (b.block ∷ []) n' else n'

abbrev pub pool_with : (Bytes → Bytes) → List Evidence → Option Pool → Option Pool
pool_with hash evds none = none
pool_with hash evds (some pool) = add_evidence hash evds pool

unfoldable pub handle_evidence_broadcast :
    (Bytes → Bytes) → ℕ → Bytes → EvidenceBroadcast → Net → Net
unfolding relay_broadcast
handle_evidence_broadcast hash now origin b n =
    let (first, n') = relay_broadcast hash now origin n in
    if first then record n' { pool = pool_with hash (elements b.evds) n'.pool } else n'

-- The case of each type.
unfoldable pub handle_message :
    (Bytes → Bytes) → ChainView → ℕ → Bytes → Bytes → Message → Net → Net
unfolding handle_sync_request handle_sync_response handle_blocks_request handle_blocks_response
    handle_block_broadcast handle_evidence_broadcast
handle_message hash chain now origin peer (sync_req r) n = handle_sync_request chain r peer n
handle_message hash chain now origin peer (sync_resp r) n = handle_sync_response r peer n
handle_message hash chain now origin peer (block_req r) n = handle_blocks_request chain r peer n
handle_message hash chain now origin peer (block_resp r) n = handle_blocks_response now r peer n
handle_message hash chain now origin peer (block_bcast b) n =
    handle_block_broadcast hash now origin b n
handle_message hash chain now origin peer (evd_bcast b) n =
    handle_evidence_broadcast hash now origin b n

abbrev pub handle_read : (Bytes → Bytes) → ChainView → ℕ → PeerData → Net → Option Message → Net
handle_read hash chain now pd n none = n
handle_read hash chain now pd n (some m) = handle_message hash chain now pd.packet pd.peer m n

-- `handleRecvPacket`: broadcasts are ignored before the net is initialised.
unfoldable pub handle_recv_packet : (Bytes → Bytes) → ChainView → ℕ → PeerData → Net → Net
unfolding handle_message read_message
handle_recv_packet hash chain now pd n = elim (Head.unmarshal pd.packet) [
  | err e ↦ n
  | ok (h, rest) ↦
      if not n.inited && (h.type == msg_block_broadcast || h.type == msg_evidence_broadcast)
      then n
      else handle_read hash chain now pd n (read_message h.type pd.packet)
]
