-- ===== src/Core/Dispatch.antt =====
-- `handleRecvPacket` of core/net.go by the message that the bytes of the packet are.
use blockchain.Common.{
  ℕ, ◌≡◌, ◌⊎◌, refl, ap, ◌∙◌, Bool, true, false, not, ◌&&◌, ◌||◌, some, none, Bytes, Result-cases,
  Option-cases, Bool-cases, inl, inr, ◌==◌, ok,
}
use blockchain.Wire.{IsBytes}
use blockchain.Cp.{msg_block_broadcast, msg_evidence_broadcast}
use blockchain.Cp.Head
use blockchain.Core.Message.{
  Message, sync_req, sync_resp, block_req, block_resp, block_bcast, evd_bcast, Carries, type_of,
  parse, head, read_message,
}
use blockchain.Core.Parsing.{parse_iff, unmarshal-head, read_message-marshal}
use blockchain.Core.Net.{ChainView, PeerData, Net}
use blockchain.Core.Handlers.{handle_message, handle_recv_packet}

-- A broadcast of a block or of evidence.
abbrev pub is_broadcast : Message → Bool
is_broadcast (block_bcast b) = true
is_broadcast (evd_bcast b) = true
is_broadcast _ = false

not_early :
    (inited : Bool) (m : Message)
    → is_broadcast m ≡ false
    → (not inited && (type_of m == msg_block_broadcast || type_of m == msg_evidence_broadcast))
      ≡ false
not_early true m e = refl
not_early false (sync_req s) e = refl
not_early false (sync_resp s) e = refl
not_early false (block_req s) e = refl
not_early false (block_resp s) e = refl
not_early false (block_bcast s) e = e
not_early false (evd_bcast s) e = e

early :
    (m : Message)
    → is_broadcast m ≡ true
    → (type_of m == msg_block_broadcast || type_of m == msg_evidence_broadcast) ≡ true
early (block_bcast s) e = refl
early (evd_bcast s) e = refl
early (sync_req s) e = e
early (sync_resp s) e = e
early (block_req s) e = e
early (block_resp s) e = e

module _ (hash : Bytes → Bytes) (chain : ChainView) (now : ℕ) (pd : PeerData) (n : Net) where
  -- Whether the net is initialised or not, a packet that does not parse changes nothing.
  handle_recv_packet-none : parse pd.packet ≡ none → handle_recv_packet hash chain now pd n ≡ n
  unfolding handle_recv_packet parse
  handle_recv_packet-none p = elim (Result-cases (Head.unmarshal pd.packet)) [
    | inr (x, e) ↦ rw (e, handle_recv_packet)
    | inl ((h, rest), e) ↦
        let q : read_message h.type pd.packet ≡ none = rw (e, parse) at p in
        elim (Bool-cases
          (not n.inited && (h.type == msg_block_broadcast || h.type == msg_evidence_broadcast))) [
            | inl early ↦ rw (e, early, handle_recv_packet)
            | inr late ↦ rw (e, late, q, handle_recv_packet)
          ]
  ]

  -- A packet that starts with the bytes of no message whose fields are within their widths and whose
  -- head has its type changes nothing.
  pub handle_recv_packet_ignores :
      IsBytes pd.packet
      → ((m : Message) → Carries pd.packet m → ⊥)
      → handle_recv_packet hash chain now pd n ≡ n
  handle_recv_packet_ignores bs nothing = elim (Option-cases (parse pd.packet)) [
    | inl e ↦ handle_recv_packet-none e
    | inr (m, e) ↦ absurd (nothing m ((parse_iff pd.packet m bs).0 e))
  ]

  -- Once the net is initialised, a packet that starts with the bytes of a message whose fields are within
  -- their widths and whose head has its type is handled as that message; before that, one that is not
  -- a broadcast is.
  pub handle_recv_packet-handle_message :
      (m : Message)
      → ((n.inited ≡ true) ⊎ (is_broadcast m ≡ false))
      → Carries pd.packet m
      → handle_recv_packet hash chain now pd n ≡ handle_message hash chain now pd.packet pd.peer m n
  unfolding handle_recv_packet
  handle_recv_packet-handle_message m i (rest, same, f) =
      let (left, r) = unmarshal-head m rest f.fields in
      let r' : Head.unmarshal pd.packet ≡ ok (head m, left) = ap Head.unmarshal same ∙ r in
      let q : read_message (head m).type pd.packet ≡ some m =
        rw (same, f.typed) (read_message-marshal m rest f.fields) in
      let late : (not n.inited
            && ((head m).type == msg_block_broadcast || (head m).type == msg_evidence_broadcast))
          ≡ false =
        rw f.typed (elim i [ inl started ↦ rw started | inr other ↦ not_early n.inited m other ]) in
      rw (r', late, q, handle_recv_packet)

  -- A broadcast that comes before the net is initialised changes nothing.
  pub handle_recv_packet_early :
      (m : Message)
      → n.inited ≡ false
      → is_broadcast m ≡ true
      → Carries pd.packet m
      → handle_recv_packet hash chain now pd n ≡ n
  unfolding handle_recv_packet
  handle_recv_packet_early m i b (rest, same, f) =
      let (left, r) = unmarshal-head m rest f.fields in
      let r' : Head.unmarshal pd.packet ≡ ok (head m, left) = ap Head.unmarshal same ∙ r in
      let now_early : (not n.inited
            && ((head m).type == msg_block_broadcast || (head m).type == msg_evidence_broadcast))
          ≡ true =
        rw (f.typed, i) (early m b) in
      rw (r', now_early, handle_recv_packet)

  -- Either nothing changes, or some message is handled.
  pub handle_recv_packet-cases :
      (handle_recv_packet hash chain now pd n ≡ n)
      ⊎ ((m : Message) × (handle_recv_packet hash chain now pd n
            ≡ handle_message hash chain now pd.packet pd.peer m n))
  unfolding handle_recv_packet
  handle_recv_packet-cases = elim (Result-cases (Head.unmarshal pd.packet)) [
    | inr (x, e) ↦ inl (rw (e, handle_recv_packet))
    | inl ((h, rest), e) ↦
        elim (Bool-cases
          (not n.inited && (h.type == msg_block_broadcast || h.type == msg_evidence_broadcast))) [
            | inl too_early ↦ inl (rw (e, too_early, handle_recv_packet))
            | inr late ↦ elim (Option-cases (read_message h.type pd.packet)) [
              | inl q ↦ inl (rw (e, late, q, handle_recv_packet))
              | inr (m, q) ↦ inr (m, rw (e, late, q, handle_recv_packet))
            ]
          ]
  ]
