-- ===== src/Core/Filter.antt =====
-- `broadcastFilter` of core/net.go: what it has, it keeps until a cleanup an hour later.
use blockchain.Common.{
  ℕ, ◌-◌, ◌≤◌, ◌≡◌, ◌∙◌, arith, not, ◌&&◌, Option, some, none, Bytes, List, [], ◌∷◌, length, equal,
  equal_iff, ◌==◌, Bool-cases, Option-cases, inl, inr,
}
use blockchain.Cp.Block.{Block}
use blockchain.Cp.SyncResponse.{SyncResponse, is_uptodate}
use blockchain.Chain.Maps.{Map, load, store, load-store}
use blockchain.Core.Net.{hour, ChainView, Net, send, broadcast, relay_broadcast}
use blockchain.Core.Handlers.{send_each, queue_taken}
use blockchain.Core.Loop.{
  Flag, is_queried, broadcast_each, request_blocks, request_each, request_with, sync_request, sync,
  cleanup,
}

-- The filter has the key, since `from` or later.
abbrev pub Known : Bytes → ℕ → Net → Type 0
Known k from n = (v : ℕ) × (load k n.broadcast_filter ≡ some v) × (from ≤ v)

module _ (hash : Bytes → Bytes) (k : Bytes) (from : ℕ) where
  stored_known :
      (j : Bytes) (now : ℕ) (m : Map ℕ)
      → from ≤ now
      → (v : ℕ) × (load k m ≡ some v) × (from ≤ v)
      → (v : ℕ) × (load k (store j now m) ≡ some v) × (from ≤ v)
  stored_known j now m le (v, e, lv) = elim (Bool-cases (equal j k)) [
    | inl same ↦ (now, load-store j k now m ∙ rw same, le)
    | inr other ↦ (v, load-store j k now m ∙ rw other e, lv)
  ]

  pub broadcast-Known :
      (now : ℕ) (packet : Bytes) (n : Net)
      → from ≤ now
      → Known k from n
      → Known k from (broadcast hash now packet n)
  unfolding broadcast
  broadcast-Known now packet n le kn = stored_known (hash packet) now n.broadcast_filter le kn

  pub relay_broadcast-Known :
      (now : ℕ) (packet : Bytes) (n : Net)
      → from ≤ now
      → Known k from n
      → Known k from (relay_broadcast hash now packet n).1
  unfolding relay_broadcast
  relay_broadcast-Known now packet n le kn =
      elim (Option-cases (load (hash packet) n.broadcast_filter)) [
        | inr (t, e) ↦ rw (e, relay_broadcast) kn
        | inl e ↦
            rw (e, relay_broadcast)
              (broadcast-Known now packet
                (record n { broadcast_filter = store (hash packet) now n.broadcast_filter }) le
                (stored_known (hash packet) now n.broadcast_filter le kn))
      ]

  broadcast_each-Known :
      (now : ℕ) (hs : List Bytes) (n : Net)
      → from ≤ now
      → Known k from n
      → Known k from (broadcast_each hash now hs n)
  unfolding broadcast_each
  broadcast_each-Known now [] n le kn = kn
  broadcast_each-Known now (h ∷ hs) n le kn =
      broadcast_each-Known now hs _ le (broadcast-Known now _ n le kn)

  pub send_each-Known :
      (bss : List (List Block)) (peer : Bytes) (n : Net)
      → Known k from n
      → Known k from (send_each bss peer n)
  unfolding send_each send
  send_each-Known [] peer n kn = kn
  send_each-Known (bs ∷ bss) peer n kn = send_each-Known bss peer _ kn

  request_each-Known :
      (now : ℕ) (rs : Map SyncResponse) (queried : List Flag) (n : Net)
      → Known k from n
      → Known k from (request_each now rs queried n).1
  unfolding request_each request_blocks send
  request_each-Known now [] queried n kn = kn
  request_each-Known now ((peer, r) ∷ rs) queried n kn =
      let asked =
        request_each-Known now rs ((r.end, r.height_diff) ∷ queried) (request_blocks now peer r n)
          kn in
      let skipped = request_each-Known now rs queried n kn in
      elim (Bool-cases (is_uptodate r)) [
        | inl uptodate ↦ rw uptodate skipped
        | inr old ↦ elim (Bool-cases (is_queried (r.end, r.height_diff) queried)) [
          | inl again ↦ rw (old, again) skipped
          | inr new ↦ rw (old, new) asked
        ]
      ]

  pub load-cleanup :
      (now v : ℕ) (m : Map ℕ) → now - v ≤ hour → load k m ≡ some v → load k (cleanup now m) ≡ some v
  unfolding cleanup load
  load-cleanup now v [] le e = e
  load-cleanup now v ((j, w) ∷ m) le e =
      let rest = load-cleanup now v m le in ground (arith, equal_iff j k)

  pub queue_taken-Known :
      (added : Option (List Block)) (n : Net) → Known k from n → Known k from (queue_taken added n)
  queue_taken-Known none n kn = kn
  queue_taken-Known (some blocks) n kn = kn

  pub request_with-Known :
      (chain : ChainView) (now : ℕ) (rs : Map SyncResponse) (n : Net)
      → from ≤ now
      → Known k from n
      → Known k from (request_with hash chain now rs n)
  unfolding request_with
  request_with-Known chain now [] n le kn =
      broadcast_each-Known now chain.get_sync_block_hash n le kn
  request_with-Known chain now (r ∷ rs) n le kn =
      let asked = request_each-Known now (r ∷ rs) [] n kn in
      elim (Bool-cases
        (not (request_each now (r ∷ rs) [] n).1.inited && (request_each now (r ∷ rs) [] n).0)) [
          | inl done ↦ rw done asked
          | inr more ↦ rw more asked
        ]

  pub sync-Known :
      (chain : ChainView) (now : ℕ) (n : Net)
      → from ≤ now
      → Known k from n
      → Known k from (sync hash chain now n)
  unfolding sync sync_request
  sync-Known chain now n le kn = elim (Bool-cases (length n.waiting_blocks == 0)) [
    | inl e ↦ rw e (request_with-Known chain now n.sync_hash_resp n le kn)
    | inr e ↦ rw e kn
  ]
