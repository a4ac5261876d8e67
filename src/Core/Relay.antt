-- ===== src/Core/Relay.antt =====
-- `relayBroadcast` of core/net.go: a packet is relayed once.
use blockchain.Common.{
  ℕ, ◌+◌, ◌≤◌, ◌≡◌, refl, ◌∙◌, arith, true, none, Bytes, List, [], ◌∷◌, All, length, equal_iff,
  Bool-cases, Option-cases, Result-cases, inl, inr,
}
use blockchain.Cp.BlockRequest.{is_only_header}
use blockchain.Chain.Maps.{load, load-store}
use blockchain.Core.Message.{
  Message, sync_req, sync_resp, block_req, block_resp, block_bcast, evd_bcast, Carries,
}
use blockchain.Core.Net.{
  hour, PeerData, ChainView, Net, already_up_to_date, other_error, send, broadcast, relay_broadcast,
  broadcast_block, broadcast_evidence,
}
use blockchain.Core.Handlers.{
  handle_sync_request, handle_sync_response, handle_blocks_request, handle_blocks_response,
  handle_block_broadcast, handle_evidence_broadcast, slices, take_response, handle_message,
  handle_recv_packet,
}
use blockchain.Core.Loop.{
  Event, received, sync_tick, evidence_added, cleanup_tick, sent, mined, step, run,
}
use blockchain.Core.Dispatch.{
  is_broadcast, handle_recv_packet-cases, handle_recv_packet-handle_message,
  handle_recv_packet_early,
}
use blockchain.Core.Filter.{
  Known, broadcast-Known, relay_broadcast-Known, send_each-Known, queue_taken-Known, sync-Known,
  load-cleanup,
}

module _ (hash : Bytes → Bytes) (k : Bytes) (from : ℕ) where
  handle_message-Known :
      (chain : ChainView) (now : ℕ) (origin peer : Bytes) (m : Message) (n : Net)
      → from ≤ now
      → Known k from n
      → Known k from (handle_message hash chain now origin peer m n)
  unfolding handle_message handle_sync_request handle_sync_response handle_blocks_request
      handle_blocks_response handle_block_broadcast handle_evidence_broadcast send
  handle_message-Known chain now origin peer (sync_req r) n le kn =
      elim (Result-cases (chain.get_sync_hash r.base)) [
        | inl (answer, e) ↦ rw (e, handle_message, handle_sync_request) kn
        | inr (already_up_to_date, e) ↦ rw (e, handle_message, handle_sync_request) kn
        | inr (other_error, e) ↦ rw (e, handle_message, handle_sync_request) kn
      ]
  handle_message-Known chain now origin peer (sync_resp r) n le kn =
      elim (Bool-cases n.waiting_hash) [ inl on ↦ rw on kn | inr off ↦ rw off kn ]
  handle_message-Known chain now origin peer (block_req r) n le kn =
      elim (Option-cases (chain.get_sync_blocks r.base r.end (is_only_header r))) [
        | inl e ↦ rw (e, handle_message, handle_blocks_request) kn
        | inr (blocks, e) ↦
            rw (e, handle_message, handle_blocks_request)
              (send_each-Known hash k from (slices (length blocks) blocks) peer n kn)
      ]
  handle_message-Known chain now origin peer (block_resp r) n le kn =
      let (ws, added) = take_response now r peer n.waiting_blocks in
      queue_taken-Known hash k from added (record n { waiting_blocks = ws }) kn
  handle_message-Known chain now origin peer (block_bcast b) n le kn =
      let relayed = relay_broadcast-Known hash k from now origin n le kn in
      elim (Bool-cases (relay_broadcast hash now origin n).0) [
        | inl e ↦ rw e relayed
        | inr e ↦ rw e relayed
      ]
  handle_message-Known chain now origin peer (evd_bcast b) n le kn =
      let relayed = relay_broadcast-Known hash k from now origin n le kn in
      elim (Bool-cases (relay_broadcast hash now origin n).0) [
        | inl e ↦ rw e relayed
        | inr e ↦ rw e relayed
      ]

  handle_recv_packet-Known :
      (chain : ChainView) (now : ℕ) (pd : PeerData) (n : Net)
      → from ≤ now
      → Known k from n
      → Known k from (handle_recv_packet hash chain now pd n)
  unfolding handle_recv_packet
  handle_recv_packet-Known chain now pd n le kn =
      elim (handle_recv_packet-cases hash chain now pd n) [
        | inl e ↦ rw e kn
        | inr (m, e) ↦ rw e (handle_message-Known chain now pd.packet pd.peer m n le kn)
      ]

  step-Known :
      (now : ℕ) (e : Event) (n : Net)
      → from ≤ now
      → now ≤ from + hour
      → Known k from n
      → Known k from (step hash now e n)
  unfolding step broadcast_evidence broadcast_block
  step-Known now (received chain pd) n le soon kn = handle_recv_packet-Known chain now pd n le kn
  step-Known now (sync_tick chain) n le soon kn = sync-Known hash k from chain now n le kn
  step-Known now (evidence_added evds) n le soon kn = broadcast-Known hash k from now _ n le kn
  step-Known now cleanup_tick n le soon (v, e, lv) =
      (v, load-cleanup hash k from now v n.broadcast_filter (omega arith) e, lv)
  step-Known now sent n le soon kn = kn
  step-Known now (mined b) n le soon kn = broadcast-Known hash k from now _ n le kn

  run-Known :
      (es : List (ℕ × Event)) (n : Net)
      → All (λ (now, e). (from ≤ now) × (now ≤ from + hour)) es
      → Known k from n
      → Known k from (run hash es n)
  unfolding run
  run-Known [] n ts kn = kn
  run-Known ((now, e) ∷ es) n ((le, soon), ts) kn =
      run-Known es (step hash now e n) ts (step-Known now e n le soon kn)

module _ (hash : Bytes → Bytes) where
  relay_broadcast-first :
      (now : ℕ) (packet : Bytes) (n : Net)
      → load (hash packet) n.broadcast_filter ≡ none
      → Known (hash packet) now (relay_broadcast hash now packet n).1
  unfolding relay_broadcast broadcast
  relay_broadcast-first now packet n e =
      rw (e, relay_broadcast)
        (
          now,
          load-store (hash packet) (hash packet) now _
              ∙ rw ((equal_iff (hash packet) (hash packet)).1 refl),
          omega arith,
        )

  handle_message-again :
      (chain : ChainView) (now from : ℕ) (origin peer : Bytes) (m : Message) (n : Net)
      → is_broadcast m ≡ true
      → Known (hash origin) from n
      → handle_message hash chain now origin peer m n ≡ n
  unfolding handle_message handle_block_broadcast handle_evidence_broadcast relay_broadcast
  handle_message-again chain now from origin peer (block_bcast b) n e (v, kn, lv) =
      rw (kn, relay_broadcast)
  handle_message-again chain now from origin peer (evd_bcast b) n e (v, kn, lv) =
      rw (kn, relay_broadcast)
  handle_message-again chain now from origin peer (sync_req s) n e kn = cc
  handle_message-again chain now from origin peer (sync_resp s) n e kn = cc
  handle_message-again chain now from origin peer (block_req s) n e kn = cc
  handle_message-again chain now from origin peer (block_resp s) n e kn = cc

  -- A packet with a broadcast that was relayed is ignored when it comes again from any peer, at any
  -- time, after any events that all come within an hour of the first.
  pub run-relay_broadcast_once :
      (now later : ℕ) (chain : ChainView) (pd : PeerData) (m : Message) (es : List (ℕ × Event))
      (n : Net)
      → is_broadcast m ≡ true
      → Carries pd.packet m
      → load (hash pd.packet) n.broadcast_filter ≡ none
      → All (λ (t, e). (now ≤ t) × (t ≤ now + hour)) es
      → let n' = run hash es (relay_broadcast hash now pd.packet n).1 in
        handle_recv_packet hash chain later pd n' ≡ n'
  run-relay_broadcast_once now later chain pd m es n b c new ts =
      let n' = run hash es (relay_broadcast hash now pd.packet n).1 in
      let kn =
        run-Known hash (hash pd.packet) now es _ ts (relay_broadcast-first now pd.packet n new) in
      elim (Bool-cases n'.inited) [
        | inl started ↦
            handle_recv_packet-handle_message hash chain later pd n' m (inl started) c
            ∙ handle_message-again chain later now pd.packet pd.peer m n' b kn
        | inr not_yet ↦ handle_recv_packet_early hash chain later pd n' m not_yet b c
      ]
