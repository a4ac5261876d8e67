-- ===== src/Core/Net.antt =====
-- core/net.go: the state of `net` and its handlers. A handler takes the clock, in nanoseconds, and
-- what the chain answers at that moment, and runs as a whole. `broadcastBlock`, which another goroutine
-- calls, is a handler like the rest.
use blockchain.Common.{
  ℕ, ◌*◌, Bool, true, false, Option, some, none, Bytes, List, [], ◌∷◌, ◌++◌, length, ltb,
  if◌then◌else◌, Result,
}
use blockchain.Cp.Block.{Block}
use blockchain.Cp.Evidence.{Evidence}
use blockchain.Cp.SyncResponse.{SyncResponse}
use blockchain.Cp.BlockResponse.{BlockResponse}
use blockchain.Cp.BlockBroadcast
use blockchain.Cp.BlockBroadcast.{BlockBroadcast, new_block_broadcast}
use blockchain.Cp.EvidenceBroadcast
use blockchain.Cp.EvidenceBroadcast.{EvidenceBroadcast, new_evidence_broadcast, elements}
use blockchain.EvidencePool.{Pool}
use blockchain.Chain.Maps.{Map, load, store}

abbrev pub second : ℕ
second = 1_000_000_000

abbrev pub hour : ℕ
hour = 3600 * second

abbrev pub max_blocks_num_in_response : ℕ
max_blocks_num_in_response = 16

abbrev pub initializing_sync_interval : ℕ
initializing_sync_interval = 1 * second

abbrev pub sync_interval : ℕ
sync_interval = 5 * second

-- The room of `sendQ`.
abbrev pub send_queue_size : ℕ
send_queue_size = 512

-- p2p.PeerData; the peer is empty for a broadcast.
pub record PeerData : Type 0 where
  pub peer : Bytes
  pub packet : Bytes

pub record WaitingBlocks : Type 0 where
  pub peer_id : Bytes
  pub last_response_time : ℕ
  pub remain_nums : ℕ
  pub response : List BlockResponse

-- What `GetSyncHash` errs with, as far as the handler tells it apart.
pub data SyncHashError : Type 0 where
  already_up_to_date other_error : SyncHashError

-- What the handlers ask of the chain.
pub record ChainView : Type 0 where
  pub get_sync_block_hash : List Bytes
  pub get_sync_hash : Bytes → Result SyncHashError (Bytes × ℕ)
  -- `none` is an error.
  pub get_sync_blocks : Bytes → Bytes → Bool → Option (List Block)

-- The struct `net`, with the blocks that wait in the channel `pendingBlocks` of the chain, and the
-- pool, which is `none` after a panic. The keys of `broadcast_filter` are hashes in base64, which
-- stand for the hashes. A map is ranged over in the order of its list, which may be any.
pub record Net : Type 0 where
  pub init_finished : Bool
  pub inited : Bool
  pub light_node : Bool
  pub send_q : List PeerData
  pub pending_blocks : List (List Block)
  pub pool : Option Pool
  pub sync_ticker : ℕ
  pub sync_hash_resp : Map SyncResponse
  pub waiting_hash : Bool
  pub waiting_blocks : List WaitingBlocks
  pub broadcast_filter : Map ℕ

-- newNet
abbrev pub new_net : Bool → Option Pool → Net
new_net light_node pool = record {
  init_finished = false;
  inited = false;
  light_node = light_node;
  send_q = [];
  pending_blocks = [];
  pool = pool;
  sync_ticker = initializing_sync_interval;
  sync_hash_resp = [];
  waiting_hash = false;
  waiting_blocks = [];
  broadcast_filter = [];
}

-- `send` blocks while the queue is full: what it queues stands behind what was there.
unfoldable pub send : Bytes → Bytes → Net → Net
send packet peer n = record n {
  send_q = n.send_q ++ (record { peer = peer; packet = packet } ∷ []);
}

-- `broadcast` drops the packet where the queue is full.
unfoldable pub broadcast : (Bytes → Bytes) → ℕ → Bytes → Net → Net
unfolding store
broadcast hash now packet n = record n {
  broadcast_filter = store (hash packet) now n.broadcast_filter;
  send_q =
      if ltb (length n.send_q) send_queue_size
      then n.send_q ++ (record { peer = []; packet = packet } ∷ [])
      else n.send_q;
}

-- `relayBroadcast`: whether the packet is new.
unfoldable pub relay_broadcast : (Bytes → Bytes) → ℕ → Bytes → Net → Bool × Net
unfolding broadcast store load
relay_broadcast hash now packet n = elim (load (hash packet) n.broadcast_filter) [
  | some _ ↦ (false, n)
  | none ↦ (
    true,
    broadcast hash now packet
        (record n { broadcast_filter = store (hash packet) now n.broadcast_filter }),
  )
]

unfoldable pub broadcast_block : (Bytes → Bytes) → ℕ → Block → Net → Net
unfolding broadcast
broadcast_block hash now b n = broadcast hash now (BlockBroadcast.marshal (new_block_broadcast b)) n

unfoldable pub broadcast_evidence : (Bytes → Bytes) → ℕ → Option (List Evidence) → Net → Net
unfolding broadcast
broadcast_evidence hash now evds n =
    broadcast hash now (EvidenceBroadcast.marshal (new_evidence_broadcast evds)) n

-- `AddBlocks` of blocks that are not local.
abbrev pub queue_blocks : List Block → Net → Net
queue_blocks blocks n = record n { pending_blocks = n.pending_blocks ++ (blocks ∷ []) }
