-- ===== src/Core/Tests.antt =====
-- Runs of the theorems on core/net.go.
mod Syncing
mod Cached
use blockchain.Common.{
  ℕ, ◌+◌, ◌^◌, ◌≡◌, refl, sym, arith, false, Option, some, none, Bytes, List, [], ◌∷◌, ◌++◌,
  append-nil, err, inr,
}
use blockchain.Wire.{IsBytes, put_uint, read_uint, put_slice8}
use blockchain.Wire.Checks.{filled_with, are_bytes-IsBytes, are_bytes-Below}
use blockchain.Chain.Maps.{load}
use blockchain.Cp.Head.{Head, new_head}
use blockchain.Cp.Head
use blockchain.Cp.SyncRequest
use blockchain.Cp.SyncRequest.{SyncRequest, new_sync_request}
use blockchain.Cp.SyncResponse.{SyncResponse, new_sync_response}
use blockchain.Cp.BlockRequest.{new_block_request}
use blockchain.Cp.BlockResponse.{new_block_response}
use blockchain.Cp.BlockBroadcast
use blockchain.Cp.BlockBroadcast.{BlockBroadcast, new_block_broadcast}
use blockchain.Cp.Tests.{block, block-Fits}
use blockchain.Cp.Tests.Mining.{toy_hash}
use blockchain.Core.Message
use blockchain.Core.Message.{Message, sync_req, block_bcast, Fits, Carries, parse}
use blockchain.Core.Parsing.{parse_iff}
use blockchain.Core.Net.{
  PeerData, WaitingBlocks, ChainView, Net, already_up_to_date, new_net, queue_blocks,
  relay_broadcast,
}
use blockchain.Core.Handlers.{
  collected, handle_message, handle_recv_packet, handle_blocks_request, handle_blocks_response,
}
use blockchain.Core.Loop.{cleanup_tick, sent, run}
use blockchain.Core.Dispatch.{handle_recv_packet_ignores, handle_recv_packet-handle_message}
use blockchain.Core.Transfer.{
  deliver, Waits, deliver-handle_blocks_request, handle_blocks_response_wraps,
}
use blockchain.Core.Relay.{run-relay_broadcast_once}
use blockchain.Core.Asking.{Asks, request_each-Asks}

-- A chain with one block to give.
abbrev view : ChainView
view = record {
  get_sync_block_hash = filled_with 32 1 ∷ [];
  get_sync_hash = λ base. err already_up_to_date;
  get_sync_blocks = λ base end only_header. some (block ∷ []);
}

abbrev peer : Bytes
peer = 65 ∷ []

abbrev sync_request : Message
sync_request = sync_req (new_sync_request (filled_with 32 4))

sync_request-Fits : Message.Fits sync_request
sync_request-Fits = record {
  fields = record {
    head_fits = record {
      version_lt = omega arith;
      type_lt = omega arith;
      reserved_lt = omega arith;
    };
    base_fits = are_bytes-Below 256 (filled_with 32 4) refl refl;
  };
  typed = refl;
}

abbrev broadcast : Message
broadcast = block_bcast (new_block_broadcast block)

broadcast-Fits : Message.Fits broadcast
broadcast-Fits = record {
  fields = record {
    head_fits = record {
      version_lt = omega arith;
      type_lt = omega arith;
      reserved_lt = omega arith;
    };
    block_fits = block-Fits;
  };
  typed = refl;
}

abbrev net : Net
net = new_net false (some [])

abbrev packet : Bytes
packet = SyncRequest.marshal (new_sync_request (filled_with 32 4)) ++ (9 ∷ [])

packet-IsBytes : IsBytes packet
unfolding SyncRequest.marshal Head.marshal put_uint put_slice8
packet-IsBytes = are_bytes-IsBytes packet refl

parse_iff_example : parse packet ≡ some sync_request
parse_iff_example =
    (parse_iff packet sync_request packet-IsBytes).1 (9 ∷ [], refl, sync_request-Fits)

empty_packet : (m : Message) → Carries [] m → ⊥
unfolding parse Head.unmarshal read_uint
empty_packet m c =
    let e : (let o : Option Message = none in o) ≡ some m = (parse_iff [] m tt).1 c in cc

handle_recv_packet_ignores_example :
    handle_recv_packet toy_hash view 0 (record { peer = peer; packet = [] }) net ≡ net
handle_recv_packet_ignores_example =
    handle_recv_packet_ignores toy_hash view 0 (record { peer = peer; packet = [] }) net tt
      empty_packet

abbrev entry : ℕ → WaitingBlocks
entry k = record { peer_id = peer; last_response_time = 0; remain_nums = k; response = [] }

abbrev waiting_net : ℕ → Net
waiting_net k = record net { waiting_blocks = entry k ∷ [] }

handle_blocks_response_wraps_example :
    (w' : WaitingBlocks) × (handle_blocks_response 7
        (new_block_response (block ∷ block ∷ []))
        peer
        (waiting_net 1)
      ≡ record net { waiting_blocks = w' ∷ [] })
    × (w'.peer_id ≡ peer)
    × (w'.remain_nums + 2 ≡ 1 + 2 ^ 32)
handle_blocks_response_wraps_example =
    handle_blocks_response_wraps toy_hash view peer [] [] 7
      (new_block_response (block ∷ block ∷ [])) (entry 1) (waiting_net 1) refl refl tt (omega arith)
      (omega arith)

abbrev broadcast_packet : PeerData
broadcast_packet = record {
  peer = peer;
  packet = BlockBroadcast.marshal (new_block_broadcast block);
}

abbrev after_relay : Net
after_relay =
    run toy_hash ((5, cleanup_tick) ∷ (6, sent) ∷ [])
      (relay_broadcast toy_hash 4 broadcast_packet.packet net).1

run-relay_broadcast_once_example :
    handle_recv_packet toy_hash view 9 broadcast_packet after_relay ≡ after_relay
unfolding load
run-relay_broadcast_once_example =
    run-relay_broadcast_once toy_hash 4 9 view broadcast_packet broadcast
      ((5, cleanup_tick) ∷ (6, sent) ∷ []) net refl ([], sym (append-nil _), broadcast-Fits) refl
      ((omega arith, omega arith), ((omega arith, omega arith), tt))

abbrev response : SyncResponse
response = new_sync_response (filled_with 32 1) (filled_with 32 2) 3 false

request_each-Asks_example : Asks 8 ((peer, response) ∷ ([], response) ∷ []) [] net
request_each-Asks_example = request_each-Asks 8 ((peer, response) ∷ ([], response) ∷ []) [] net
