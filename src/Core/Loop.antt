-- ===== src/Core/Loop.antt =====
-- core/net.go: `sync`, and the loop as events on the state of `net`.
use blockchain.Common.{
  ℕ, ◌-◌, ◌*◌, Bool, true, false, not, ◌&&◌, ◌||◌, Option, Bytes, List, [], ◌∷◌, ◌++◌, length,
  equal, ltb, leb, ◌==◌, if◌then◌else◌,
}
use blockchain.Cp.Evidence.{Evidence}
use blockchain.Cp.Block.{Block}
use blockchain.Cp.SyncRequest
use blockchain.Cp.SyncRequest.{new_sync_request}
use blockchain.Cp.SyncResponse.{SyncResponse, is_uptodate}
use blockchain.Cp.BlockRequest
use blockchain.Cp.BlockRequest.{new_block_request}
use blockchain.Chain.Maps.{Map}
use blockchain.Core.Net.{
  second, hour, max_blocks_num_in_response, sync_interval, PeerData, WaitingBlocks, ChainView, Net,
  send, broadcast, broadcast_block, broadcast_evidence,
}
use blockchain.Core.Handlers.{handle_recv_packet}

-- One request after the other.
unfoldable pub broadcast_each : (Bytes → Bytes) → ℕ → List Bytes → Net → Net
unfolding broadcast
broadcast_each hash now [] n = n
broadcast_each hash now (h ∷ hs) n =
    broadcast_each hash now hs (broadcast hash now (SyncRequest.marshal (new_sync_request h)) n)

-- The text of `queryFlag`, as the end and the number that it is made of.
abbrev pub Flag : Type 0
Flag = Bytes × ℕ

unfoldable pub is_queried : Flag → List Flag → Bool
is_queried f [] = false
is_queried (end, diff) ((e, d) ∷ fs) = (equal e end && d == diff) || is_queried (end, diff) fs

-- The body of the loop of `syncRequest` for a response that is not filtered.
unfoldable pub request_blocks : ℕ → Bytes → SyncResponse → Net → Net
unfolding send
request_blocks now peer r n =
    let n' = send (BlockRequest.marshal (new_block_request r.base r.end n.light_node)) peer n in
    record n' {
      waiting_blocks =
          n'.waiting_blocks
          ++ (record {
            peer_id = peer;
            last_response_time = now;
            remain_nums = r.height_diff;
            response = [];
          }
              ∷ []);
    }

-- The loop of `syncRequest`: whether all are up to date, and the state after it.
unfoldable pub request_each : ℕ → Map SyncResponse → List Flag → Net → Bool × Net
unfolding request_blocks is_queried is_uptodate
request_each now [] queried n = (true, n)
request_each now ((peer, r) ∷ rs) queried n =
    let skipped = request_each now rs queried n in
    let asked =
      request_each now rs ((r.end, r.height_diff) ∷ queried) (request_blocks now peer r n) in
    if is_uptodate r
    then skipped
    else if is_queried (r.end, r.height_diff) queried
    then (false, skipped.1)
    else (false, asked.1)

-- `syncRequest`, with the responses that there are.
unfoldable pub request_with : (Bytes → Bytes) → ChainView → ℕ → Map SyncResponse → Net → Net
unfolding broadcast_each request_each
request_with hash chain now [] n = record (broadcast_each hash now chain.get_sync_block_hash n) {
  waiting_hash = true;
}
request_with hash chain now (r ∷ rs) n =
    let (already_uptodate, n') = request_each now (r ∷ rs) [] n in
    let cleaned = record n' { sync_hash_resp = []; waiting_hash = false } in
    if not cleaned.inited && already_uptodate
    then record cleaned { init_finished = true; inited = true; sync_ticker = sync_interval }
    else cleaned

unfoldable pub sync_request : (Bytes → Bytes) → ChainView → ℕ → Net → Net
unfolding request_with
sync_request hash chain now n = request_with hash chain now n.sync_hash_resp n

-- The entries that are not too old. A clock that went back gives a negative difference, here 0.
unfoldable pub still_waiting : ℕ → List WaitingBlocks → List WaitingBlocks
still_waiting now [] = []
still_waiting now (w ∷ ws) =
    let rest = still_waiting now ws in
    if leb (now - w.last_response_time) (5 * max_blocks_num_in_response * second)
    then w ∷ rest
    else rest

unfoldable pub sync : (Bytes → Bytes) → ChainView → ℕ → Net → Net
unfolding sync_request still_waiting
sync hash chain now n =
    let asked = sync_request hash chain now n in
    if length n.waiting_blocks == 0
    then asked
    else record n { waiting_blocks = still_waiting now n.waiting_blocks }

-- The case of `cleanupTicker`.
unfoldable pub cleanup : ℕ → Map ℕ → Map ℕ
cleanup now [] = []
cleanup now ((k, v) ∷ m) =
    let rest = cleanup now m in if ltb hour (now - v) then rest else (k, v) ∷ rest

-- What the loops take in: a packet, a tick of `syncTicker`, evidence of the pool, a tick of
-- `cleanupTicker`, a block that was mined, and the packet that `doSend` takes.
pub data Event : Type 0 where
  received : ChainView → PeerData → Event
  sync_tick : ChainView → Event
  evidence_added : Option (List Evidence) → Event
  cleanup_tick sent : Event
  mined : Block → Event

abbrev pub taken {ℓ} : {A : Type ℓ} → List A → List A
taken [] = []
taken (x ∷ xs) = xs

unfoldable pub step : (Bytes → Bytes) → ℕ → Event → Net → Net
unfolding handle_recv_packet sync broadcast_evidence cleanup broadcast_block
step hash now (received chain pd) n = handle_recv_packet hash chain now pd n
step hash now (sync_tick chain) n = sync hash chain now n
step hash now (evidence_added evds) n = broadcast_evidence hash now evds n
step hash now cleanup_tick n = record n { broadcast_filter = cleanup now n.broadcast_filter }
step hash now sent n = record n { send_q = taken n.send_q }
step hash now (mined b) n = broadcast_block hash now b n

-- The events with the times at which they come.
unfoldable pub run : (Bytes → Bytes) → List (ℕ × Event) → Net → Net
unfolding step
run hash [] n = n
run hash ((now, e) ∷ es) n = run hash es (step hash now e n)
