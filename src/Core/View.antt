-- ===== src/Core/View.antt =====
-- What `net` of core/net.go asks of the chain, answered by core/blockchain/chain.go over its cache and
-- the database behind it.
use blockchain.Common.{
  ℕ, suc, ◌+◌, ◌≤◌, ◌<◌, ◌≡◌, ◌⊎◌, inl, inr, refl, sym, ap, subst, ◌∙◌, arith, Bool, true, false,
  Option, some, none, Bytes, List, [], ◌∷◌, ◌++◌, map, All, length, length-append, Result, ok, err,
}
use blockchain.Cp.{Btcec}
use blockchain.Cp.Header
use blockchain.Cp.Block
use blockchain.Cp.Block.{Block, shallow_copy}
use blockchain.Cp.BlockRequest.{BlockRequest, is_only_header}
use blockchain.Chain.Branch.{get_block}
use blockchain.Chain.Growth.{Chain}
use blockchain.Chain.Queries
use blockchain.Chain.Queries.{
  QueryError, sync_max_blocks, get_sync_block_hash, get_sync_hash, serve_sync_blocks,
}
use blockchain.Chain.Serving.{grown, grown-snoc, IsStored, get_sync_hash-serve_sync_blocks}
use blockchain.Db.Badger.{Badger}
use blockchain.Db.Refinement.{IsStorable}
use blockchain.Core.Net.{
  PeerData, ChainView, Net, SyncHashError, already_up_to_date, other_error, queue_blocks,
  WaitingBlocks,
}
use blockchain.Core.Handlers.{handle_blocks_request}
use blockchain.Core.Transfer.{deliver, Waits, deliver-handle_blocks_request}

-- The handler tells ErrAlreadyUpToDate from the other errors.
abbrev hash_answer : Result QueryError (Bytes × ℕ) → Result SyncHashError (Bytes × ℕ)
hash_answer (ok a) = ok a
hash_answer (err Queries.already_up_to_date) = err already_up_to_date
hash_answer (err _) = err other_error

-- A panic gives no blocks either.
abbrev blocks_answer : Result QueryError (List Block) → Option (List Block)
blocks_answer (ok bs) = some bs
blocks_answer (err e) = none

unfoldable pub chain_view : (bd : Badger) → bd.Txn → Chain → ChainView
unfolding get_sync_block_hash get_sync_hash serve_sync_blocks
chain_view bd t c = record {
  get_sync_block_hash = get_sync_block_hash c;
  get_sync_hash = λ base. hash_answer (get_sync_hash bd t base c);
  get_sync_blocks =
      λ base end only_header. blocks_answer (serve_sync_blocks bd t base end only_header c);
}

copy-Fits :
    (only_header : Bool) (b : Block) → Block.Fits b → Block.Fits (shallow_copy only_header b)
copy-Fits true b f = record { header_fits = f.header_fits; evds_fits = (omega arith, tt) }
copy-Fits false b f = f

copies-Fits :
    (only_header : Bool) (bs : List Block)
    → All Block.Fits bs
    → All Block.Fits (map (shallow_copy only_header) bs)
copies-Fits only_header [] fs = tt
copies-Fits only_header (b ∷ bs) (f, fs) =
    (copy-Fits only_header b f, copies-Fits only_header bs fs)

length-copies :
    (only_header : Bool) (bs : List Block) → length (map (shallow_copy only_header) bs) ≡ length bs
length-copies only_header [] = refl
length-copies only_header (b ∷ bs) = ap suc (length-copies only_header bs)

-- The blocks on top fit their widths, where all of the chain do.
tops_fit :
    (hash : Bytes → Bytes) (ec : Btcec) (xs bs : List Block)
    → All (IsStorable hash ec) (grown xs bs)
    → All Block.Fits xs × All (IsStorable hash ec) bs
tops_fit hash ec [] bs st = (tt, st)
tops_fit hash ec (x ∷ xs) bs st =
    let (fits, (s, rest)) = tops_fit hash ec xs (x ∷ bs) st in ((s.fits, fits), rest)

rest_valid :
    (hash : Bytes → Bytes) (ec : Btcec) (newer bs : List Block)
    → All (IsStorable hash ec) (newer ++ bs)
    → All (IsStorable hash ec) bs
rest_valid hash ec [] bs st = st
rest_valid hash ec (x ∷ newer) bs (s, st) = rest_valid hash ec newer bs st

module _ (hash : Bytes → Bytes) (ec : Btcec) (bd : Badger) (t : bd.Txn) (c : Chain) where
  -- A node whose database represents a chain of fewer than 2^64 blocks, which `Verify` accepts,
  -- which fit their widths and of which none has two evidences with one hash, answers the request
  -- for the blocks above one that is not in its cache, up to the 128th above it or the newest, and
  -- another node that waits for as many blocks takes the packets of the answer one after the
  -- other: it queues exactly these blocks for its chain, the older first, and waits for the peer
  -- no more.
  pub deliver-chain_view :
      (newer : List Block) (e : Block) (between : List Block) (b : Block) (older : List Block)
      → IsStored hash ec bd t (newer ++ (e ∷ grown between (b ∷ older)))
      → ((length between + 1 ≡ sync_max_blocks)
          ⊎ ((newer ≡ []) × (length between + 1 < sync_max_blocks)))
      → get_block (Header.get_serialized_hash hash b.header) (c.branch_at c.longest) ≡ none
      → (r : BlockRequest) → r.base ≡ Header.get_serialized_hash hash b.header
      → r.end ≡ Header.get_serialized_hash hash e.header
      → let blocks = map (shallow_copy (is_only_header r)) (between ++ (e ∷ [])) in
        (view : ChainView) (peer to : Bytes) (before after : List WaitingBlocks) (m n : Net)
        (clock : ℕ → ℕ)
        → Waits peer n before after [] blocks
        → (ps : List PeerData) × (handle_blocks_request (chain_view bd t c) r to m
            ≡ record m { send_q = m.send_q ++ ps })
          × (deliver hash view clock peer ps n
              ≡ queue_blocks blocks (record n { waiting_blocks = before ++ after }))
  unfolding chain_view
  deliver-chain_view newer e between b older st far missing r base_is end_is view peer to before
        after m n clock w =
      let xs = between ++ (e ∷ []) in
      let only_header = is_only_header r in
      let blocks = map (shallow_copy only_header) xs in
      let (asked, served) =
        get_sync_hash-serve_sync_blocks hash ec bd t newer e between b older only_header c st far
          missing in
      let answer : blocks_answer (serve_sync_blocks bd t r.base r.end only_header c) ≡ some blocks =
        ap (λ (x : Bytes). blocks_answer (serve_sync_blocks bd t x r.end only_header c)) base_is
        ∙ ap
            (λ (x : Bytes).
              blocks_answer
                (serve_sync_blocks bd t (Header.get_serialized_hash hash b.header) x only_header c))
            end_is
        ∙ ap blocks_answer served in
      let on_top : All (IsStorable hash ec) (grown xs (b ∷ older)) =
        subst (All (IsStorable hash ec)) (sym (grown-snoc between (b ∷ older) e))
          (rest_valid hash ec newer (e ∷ grown between (b ∷ older)) st.0.storable) in
      let fits = (tops_fit hash ec xs (b ∷ older) on_top).0 in
      let size : length blocks ≡ length between + 1 =
        length-copies only_header xs ∙ length-append between (e ∷ []) in
      let short : length between + 1 ≤ 128 = elim far [
        | inl d ↦ omega arith
        | inr (s, d) ↦ omega arith
      ] in
      deliver-handle_blocks_request hash view peer before after (chain_view bd t c) r to m n clock
        blocks answer (omega (arith, size)) (omega (arith, size, short))
        (copies-Fits only_header xs fits) w
