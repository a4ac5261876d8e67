-- ===== src/Core/Message.antt =====
-- The messages of core/net.go: how `handleRecvPacket` reads one off the bytes of a packet.
use blockchain.Common.{
  ℕ, ◌≡◌, Option, some, none, Bytes, ◌++◌, Result, ok, err, ◌==◌, if◌then◌else◌,
}
use blockchain.Wire.{ReadError}
use blockchain.Cp.{
  msg_sync_req, msg_sync_resp, msg_block_request, msg_block_response, msg_block_broadcast,
  msg_evidence_broadcast,
}
use blockchain.Cp.Head
use blockchain.Cp.Head.{Head}
use blockchain.Cp.SyncRequest
use blockchain.Cp.SyncRequest.{SyncRequest, unmarshal_sync_request_iff}
use blockchain.Cp.SyncResponse
use blockchain.Cp.SyncResponse.{SyncResponse, unmarshal_sync_response_iff}
use blockchain.Cp.BlockRequest
use blockchain.Cp.BlockRequest.{BlockRequest, unmarshal_block_request_iff}
use blockchain.Cp.BlockResponse
use blockchain.Cp.BlockResponse.{BlockResponse, unmarshal_block_response_iff}
use blockchain.Cp.BlockBroadcast
use blockchain.Cp.BlockBroadcast.{BlockBroadcast, unmarshal_block_broadcast_iff}
use blockchain.Cp.EvidenceBroadcast
use blockchain.Cp.EvidenceBroadcast.{EvidenceBroadcast, unmarshal_evidence_broadcast_iff}

pub data Message : Type 0 where
  sync_req : SyncRequest → Message
  sync_resp : SyncResponse → Message
  block_req : BlockRequest → Message
  block_resp : BlockResponse → Message
  block_bcast : BlockBroadcast → Message
  evd_bcast : EvidenceBroadcast → Message

-- What was read, without what is left.
abbrev pub message_of {ℓ} :
    {A : Type ℓ} → (A → Message) → Result ReadError (A × Bytes) → Option Message
message_of f (ok (a, rest)) = some (f a)
message_of f (err e) = none

-- The `switch` over the type: every case reads the whole packet again.
unfoldable pub read_message : ℕ → Bytes → Option Message
unfolding SyncRequest.unmarshal SyncResponse.unmarshal BlockRequest.unmarshal
    BlockResponse.unmarshal BlockBroadcast.unmarshal EvidenceBroadcast.unmarshal
read_message type packet =
    if type == msg_sync_req
    then message_of sync_req (SyncRequest.unmarshal packet)
    else if type == msg_sync_resp
    then message_of sync_resp (SyncResponse.unmarshal packet)
    else if type == msg_block_request
    then message_of block_req (BlockRequest.unmarshal packet)
    else if type == msg_block_response
    then message_of block_resp (BlockResponse.unmarshal packet)
    else if type == msg_block_broadcast
    then message_of block_bcast (BlockBroadcast.unmarshal packet)
    else if type == msg_evidence_broadcast
    then message_of evd_bcast (EvidenceBroadcast.unmarshal packet)
    else none

-- The head, and behind it the message of its type.
unfoldable pub parse : Bytes → Option Message
unfolding read_message Head.unmarshal
parse packet = elim (Head.unmarshal packet) [
  | err e ↦ none
  | ok (h, rest) ↦ read_message h.type packet
]

abbrev pub marshal : Message → Bytes
marshal (sync_req s) = SyncRequest.marshal s
marshal (sync_resp s) = SyncResponse.marshal s
marshal (block_req s) = BlockRequest.marshal s
marshal (block_resp s) = BlockResponse.marshal s
marshal (block_bcast s) = BlockBroadcast.marshal s
marshal (evd_bcast s) = EvidenceBroadcast.marshal s

abbrev pub head : Message → Head
head (sync_req s) = s.head
head (sync_resp s) = s.head
head (block_req s) = s.head
head (block_resp s) = s.head
head (block_bcast s) = s.head
head (evd_bcast s) = s.head

abbrev pub type_of : Message → ℕ
type_of (sync_req s) = msg_sync_req
type_of (sync_resp s) = msg_sync_resp
type_of (block_req s) = msg_block_request
type_of (block_resp s) = msg_block_response
type_of (block_bcast s) = msg_block_broadcast
type_of (evd_bcast s) = msg_evidence_broadcast

abbrev pub FieldsFit : Message → Type 0
FieldsFit (sync_req s) = SyncRequest.Fits s
FieldsFit (sync_resp s) = SyncResponse.Fits s
FieldsFit (block_req s) = BlockRequest.Fits s
FieldsFit (block_resp s) = BlockResponse.Fits s
FieldsFit (block_bcast s) = BlockBroadcast.Fits s
FieldsFit (evd_bcast s) = EvidenceBroadcast.Fits s

-- The fields are within their widths, and the type in the head is that of the message.
pub record Fits (m : Message) : Type 0 where
  pub fields : FieldsFit m
  pub typed : (head m).type ≡ type_of m

-- The bytes of the message, with others behind them.
abbrev pub Carries : Bytes → Message → Type 0
Carries packet m = (rest : Bytes) × (packet ≡ marshal m ++ rest) × Fits m
