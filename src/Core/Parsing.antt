-- ===== src/Core/Parsing.antt =====
-- That `handleRecvPacket` of core/net.go reads off a packet exactly the message that it is the bytes of.
use blockchain.Common.{
  ℕ, ◌≡◌, ◌↔◌, ◌⊎◌, refl, sym, ap, ◌∙◌, Option, some, none, Bytes, ◌++◌, append_assoc, Result, ok,
  err, ◌==◌, ==_iff, if◌then◌else◌, Bool-cases, Result-cases, inl, inr,
}
use blockchain.Wire.{IsBytes, ReadError}
use blockchain.Cp.{
  msg_sync_req, msg_sync_resp, msg_block_request, msg_block_response, msg_block_broadcast,
  msg_evidence_broadcast,
}
use blockchain.Cp.Head
use blockchain.Cp.Head.{Head}
use blockchain.Cp.SyncRequest
use blockchain.Cp.SyncRequest.{SyncRequest, unmarshal_sync_request_iff}
use blockchain.Cp.SyncResponse
use blockchain.Cp.SyncResponse.{SyncResponse, unmarshal_sync_response_iff}
use blockchain.Cp.BlockRequest
use blockchain.Cp.BlockRequest.{BlockRequest, unmarshal_block_request_iff}
use blockchain.Cp.BlockResponse
use blockchain.Cp.BlockResponse.{BlockResponse, unmarshal_block_response_iff}
use blockchain.Cp.BlockBroadcast
use blockchain.Cp.BlockBroadcast.{BlockBroadcast, unmarshal_block_broadcast_iff}
use blockchain.Cp.EvidenceBroadcast
use blockchain.Cp.EvidenceBroadcast.{EvidenceBroadcast, unmarshal_evidence_broadcast_iff}
use blockchain.Core.Message.{
  Message, sync_req, sync_resp, block_req, block_resp, block_bcast, evd_bcast, message_of,
  read_message, parse, marshal, head, type_of, FieldsFit, Fits, Carries,
}

message_of-some {ℓ} :
    {A : Type ℓ} (f : A → Message) (r : Result ReadError (A × Bytes)) (m : Message)
    → message_of f r ≡ some m
    → (a : A) × (rest : Bytes) × (r ≡ ok (a, rest)) × (f a ≡ m)
message_of-some f (ok (a, rest)) m e = (a, rest, refl, cc)
message_of-some f (err x) m e = cc

-- Every message starts with its head.
starts : (m : Message) → (tail : Bytes) × (marshal m ≡ Head.marshal (head m) ++ tail)
unfolding SyncRequest.marshal SyncResponse.marshal BlockRequest.marshal BlockResponse.marshal
    BlockBroadcast.marshal EvidenceBroadcast.marshal
starts (sync_req s) = (_, refl)
starts (sync_resp s) = (_, refl)
starts (block_req s) = (_, refl)
starts (block_resp s) = (_, refl)
starts (block_bcast s) = (_, refl)
starts (evd_bcast s) = (_, refl)

head-Fits : (m : Message) → FieldsFit m → Head.Fits (head m)
head-Fits (sync_req s) f = f.head_fits
head-Fits (sync_resp s) f = f.head_fits
head-Fits (block_req s) f = f.head_fits
head-Fits (block_resp s) f = f.head_fits
head-Fits (block_bcast s) f = f.head_fits
head-Fits (evd_bcast s) f = f.head_fits

pub unmarshal-head :
    (m : Message) (rest : Bytes)
    → FieldsFit m
    → (left : Bytes) × (Head.unmarshal (marshal m ++ rest) ≡ ok (head m, left))
unmarshal-head m rest f =
    let (tail, e) = starts m in
    (
      tail ++ rest,
      ap (λ x. Head.unmarshal (x ++ rest)) e
          ∙ ap Head.unmarshal (append_assoc (Head.marshal (head m)) tail rest)
          ∙ (Head.Reads-head (head m) (head-Fits m f)).run (tail ++ rest),
    )

-- The case of the type of a message reads that message off its bytes.
pub read_message-marshal :
    (m : Message) (rest : Bytes)
    → FieldsFit m
    → read_message (type_of m) (marshal m ++ rest) ≡ some m
unfolding read_message
read_message-marshal (sync_req s) rest f = rw ((SyncRequest.Reads-sync_request s f).run rest)
read_message-marshal (sync_resp s) rest f = rw ((SyncResponse.Reads-sync_response s f).run rest)
read_message-marshal (block_req s) rest f = rw ((BlockRequest.Reads-block_request s f).run rest)
read_message-marshal (block_resp s) rest f = rw ((BlockResponse.Reads-block_response s f).run rest)
read_message-marshal (block_bcast s) rest f =
    rw ((BlockBroadcast.Reads-block_broadcast s f).run rest)
read_message-marshal (evd_bcast s) rest f =
    rw ((EvidenceBroadcast.Reads-evidence_broadcast s f).run rest)

-- The bytes of a message are read as that message, whatever stands behind them.
pub parse-marshal : (m : Message) (rest : Bytes) → Fits m → parse (marshal m ++ rest) ≡ some m
unfolding parse
parse-marshal m rest f =
    let (left, r) = unmarshal-head m rest f.fields in
    rw (r, f.typed, parse) (read_message-marshal m rest f.fields)

-- What a message that was read says of the packet.
abbrev Read : ℕ → Bytes → Message → Type 0
Read type packet m =
    (rest : Bytes) × (type ≡ type_of m) × (packet ≡ marshal m ++ rest) × FieldsFit m

case_of {ℓ} :
    {A : Type ℓ} (type k : ℕ) (x y : Option A) (a : A)
    → (if type == k then x else y) ≡ some a
    → ((type ≡ k) × (x ≡ some a)) ⊎ (y ≡ some a)
case_of type k x y a e = elim (Bool-cases (type == k)) [
  | inl same ↦ inl ((==_iff type k).0 same, rw same at e)
  | inr other ↦ inr (rw other at e)
]

sync_req-Read :
    (type : ℕ) (packet : Bytes) (m : Message)
    → IsBytes packet
    → type ≡ msg_sync_req
    → message_of sync_req (SyncRequest.unmarshal packet) ≡ some m
    → Read type packet m
sync_req-Read type packet m bs t e =
    let (s, rest, r, same) = message_of-some sync_req _ m e in
    let (p, f) = (unmarshal_sync_request_iff packet rest s bs).0 r in rw (← same) (rest, t, p, f)

sync_resp-Read :
    (type : ℕ) (packet : Bytes) (m : Message)
    → IsBytes packet
    → type ≡ msg_sync_resp
    → message_of sync_resp (SyncResponse.unmarshal packet) ≡ some m
    → Read type packet m
sync_resp-Read type packet m bs t e =
    let (s, rest, r, same) = message_of-some sync_resp _ m e in
    let (p, f) = (unmarshal_sync_response_iff packet rest s bs).0 r in rw (← same) (rest, t, p, f)

block_req-Read :
    (type : ℕ) (packet : Bytes) (m : Message)
    → IsBytes packet
    → type ≡ msg_block_request
    → message_of block_req (BlockRequest.unmarshal packet) ≡ some m
    → Read type packet m
block_req-Read type packet m bs t e =
    let (s, rest, r, same) = message_of-some block_req _ m e in
    let (p, f) = (unmarshal_block_request_iff packet rest s bs).0 r in rw (← same) (rest, t, p, f)

block_resp-Read :
    (type : ℕ) (packet : Bytes) (m : Message)
    → IsBytes packet
    → type ≡ msg_block_response
    → message_of block_resp (BlockResponse.unmarshal packet) ≡ some m
    → Read type packet m
block_resp-Read type packet m bs t e =
    let (s, rest, r, same) = message_of-some block_resp _ m e in
    let (p, f) = (unmarshal_block_response_iff packet rest s bs).0 r in rw (← same) (rest, t, p, f)

block_bcast-Read :
    (type : ℕ) (packet : Bytes) (m : Message)
    → IsBytes packet
    → type ≡ msg_block_broadcast
    → message_of block_bcast (BlockBroadcast.unmarshal packet) ≡ some m
    → Read type packet m
block_bcast-Read type packet m bs t e =
    let (s, rest, r, same) = message_of-some block_bcast _ m e in
    let (p, f) = (unmarshal_block_broadcast_iff packet rest s bs).0 r in rw (← same) (rest, t, p, f)

evd_bcast-Read :
    (type : ℕ) (packet : Bytes) (m : Message)
    → IsBytes packet
    → type ≡ msg_evidence_broadcast
    → message_of evd_bcast (EvidenceBroadcast.unmarshal packet) ≡ some m
    → Read type packet m
evd_bcast-Read type packet m bs t e =
    let (s, rest, r, same) = message_of-some evd_bcast _ m e in
    let (p, f) = (unmarshal_evidence_broadcast_iff packet rest s bs).0 r in
    rw (← same) (rest, t, p, f)

read_message-Read :
    (type : ℕ) (packet : Bytes) (m : Message)
    → IsBytes packet
    → read_message type packet ≡ some m
    → Read type packet m
unfolding read_message
read_message-Read type packet m bs e = elim (case_of type msg_sync_req _ _ m e) [
  | inl (t, e1) ↦ sync_req-Read type packet m bs t e1
  | inr e ↦ elim (case_of type msg_sync_resp _ _ m e) [
    | inl (t, e2) ↦ sync_resp-Read type packet m bs t e2
    | inr e ↦ elim (case_of type msg_block_request _ _ m e) [
      | inl (t, e3) ↦ block_req-Read type packet m bs t e3
      | inr e ↦ elim (case_of type msg_block_response _ _ m e) [
        | inl (t, e4) ↦ block_resp-Read type packet m bs t e4
        | inr e ↦ elim (case_of type msg_block_broadcast _ _ m e) [
          | inl (t, e5) ↦ block_bcast-Read type packet m bs t e5
          | inr e ↦ elim (case_of type msg_evidence_broadcast _ _ m e) [
            | inl (t, e6) ↦ evd_bcast-Read type packet m bs t e6
            | inr e ↦ absurd (let no : none ≡ some m = e in cc)
          ]
        ]
      ]
    ]
  ]
]

same_type :
    (h k : Head) (left left' : Bytes)
    → (let r : Result ReadError (Head × Bytes) = ok (h, left) in r) ≡ ok (k, left')
    → k.type ≡ h.type
same_type h k left left' e = let eq : h ≡ k = cc in ap (λ (x : Head). x.type) (sym eq)

-- A packet is read as a message exactly when it is the bytes of that message with any others behind
-- them, the fields of the message are within their widths, and its head has the type of the message.
pub parse_iff :
    (packet : Bytes) (m : Message) → IsBytes packet → (parse packet ≡ some m) ↔ Carries packet m
unfolding parse
parse_iff packet m bs = (
  λ e. elim (Result-cases (Head.unmarshal packet)) [
    | inr (x, r) ↦
        absurd (let y : Option Message = none in let no : y ≡ some m = rw (r, parse) at e in cc)
    | inl ((h, left), r) ↦
        let read : read_message h.type packet ≡ some m = rw (r, parse) at e in
        let (rest, t, same, f) = read_message-Read h.type packet m bs read in
        let (left', r') = unmarshal-head m rest f in
        let typed : (head m).type ≡ h.type =
          same_type _ _ left left' (sym r ∙ ap Head.unmarshal same ∙ r') in
        (rest, same, record { fields = f; typed = typed ∙ t })
  ],
  λ (rest, same, f). rw same (parse-marshal m rest f),
)
