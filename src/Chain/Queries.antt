-- ===== src/Chain/Queries.antt =====
-- The other queries of core/blockchain/chain.go: over the cache, and over the database behind it.
use blockchain.Common.{
  ℕ, zero, suc, ◌+◌, ◌-◌, ◌%◌, ◌^◌, Bool, true, false, Option, some, none, Bytes, List, [], ◌∷◌,
  map, ltb, leb, equal, if◌then◌else◌, Result, ok, err,
}
use blockchain.Cp.Block.{Block, shallow_copy}
use blockchain.Chain.{sub64}
use blockchain.Chain.Blocks.{Heap}
use blockchain.Chain.Branch
use blockchain.Chain.Branch.{get_block}
use blockchain.Chain.Growth.{Chain}
use blockchain.Chain.Sync.{walked, stopped, served, invalid_range, ask_db, get_sync_blocks}
use blockchain.Db.Badger.{Badger, DbError}
use blockchain.Db.Store.{get_hash, get_block_via_height, get_block_via_hash}
use blockchain.Db.Queries.{get_header_via_hash, get_latest_header}

abbrev pub sync_max_blocks : ℕ
sync_max_blocks = 128

unfoldable pub latest_block_hash : Chain → Bytes
latest_block_hash c = Branch.hash (c.branch_at c.longest) c.heap

unfoldable pub get_sync_block_hash : Chain → List Bytes
get_sync_block_hash c = map (λ i. Branch.hash (c.branch_at i) c.heap) c.branches

-- The loop of `GetUnstoredBlocks`, from the head back. Parents have smaller numbers, so `i + 1` rounds
-- are enough for block `i`.
unfoldable pub unstored_back : ℕ → ℕ → Heap → List (Block × ℕ)
unstored_back zero i h = []
unstored_back (suc fuel) i h =
    let here : Block × ℕ = ((h.node i).cb, (h.node i).height) in
    if (h.node i).stored
    then []
    else here ∷ elim (h.node i).backward [ none ↦ [] | some p ↦ unstored_back fuel p h ]

unfoldable pub get_unstored_blocks : Chain → List (Block × ℕ)
unfolding unstored_back
get_unstored_blocks c =
    let head = (c.branch_at c.longest).head in unstored_back (head + 1) head c.heap

-- Why a query gave no answer; `panicked` is a nil block in the loop over the database, and
-- `out_of_fuel` does not happen.
pub data QueryError : Type 0 where
  already_up_to_date flushing_cache hash_not_found block_range panicked out_of_fuel : QueryError
  db_failed : DbError → QueryError

-- The loop of `GetSyncHash`: the blocks from the head back to the one with the hash, in 32 bits.
unfoldable pub count_back : ℕ → Bytes → ℕ → Heap → ℕ → Result QueryError ℕ
unfolding equal
count_back zero base i h hdiff = err out_of_fuel
count_back (suc fuel) base i h hdiff =
    if equal (h.node i).hash base then ok hdiff else elim (h.node i).backward [
      | none ↦ err flushing_cache
      | some p ↦ count_back fuel base p h ((hdiff + 1) % 2 ^ 32)
    ]

-- The hash that `GetHash` gives, whose error is dropped.
abbrev pub hash_or_nil : Result DbError Bytes → Bytes
hash_or_nil (ok k) = k
hash_or_nil (err e) = []

module _ (bd : Badger) where
  unfoldable pub search_hash : bd.Txn → Bytes → Result QueryError (Bytes × ℕ)
  unfolding get_header_via_hash get_latest_header get_hash
  search_hash t base = elim (get_header_via_hash bd base t) [
    | err e ↦ err hash_not_found
    | ok (header, base_height) ↦ elim (get_latest_header bd t) [
      | err e ↦ err (db_failed e)
      | ok (latest, latest_height, latest_hash) ↦
          if leb sync_max_blocks (sub64 latest_height base_height)
          then ok (
            hash_or_nil (get_hash bd ((base_height + sync_max_blocks) % 2 ^ 64) t),
            sync_max_blocks,
          )
          else ok (latest_hash, sub64 latest_height base_height % 2 ^ 32)
    ]
  ]

  unfoldable pub get_sync_hash : bd.Txn → Bytes → Chain → Result QueryError (Bytes × ℕ)
  unfolding search_hash count_back get_block equal
  get_sync_hash t base c =
      let b = c.branch_at c.longest in
      elim (get_block base b) [
        | none ↦ search_hash t base
        | some _ ↦
            if equal (c.heap.node b.head).hash base
            then err already_up_to_date
            else elim (count_back (b.head + 1) base b.head c.heap 0) [
              | err e ↦ err e
              | ok hdiff ↦ ok ((c.heap.node b.head).hash, hdiff)
            ]
      ]

  -- The loop of `GetSyncBlocks` over the heights, so many from `i` on.
  unfoldable pub db_range : ℕ → ℕ → Bool → bd.Txn → Result QueryError (List Block)
  unfolding get_block_via_height
  db_range zero i only_header t = ok []
  db_range (suc n) i only_header t =
      let rest = db_range n (i + 1) only_header t in
      elim (get_block_via_height bd i t) [
        | err e ↦ err panicked
        | ok (b, k) ↦ elim rest [ err e ↦ err e | ok bs ↦ ok (shallow_copy only_header b ∷ bs) ]
      ]

  -- What `GetSyncBlocks` does after it did not find both in the cache; `end_cached` is whether it
  -- found the end.
  unfoldable pub search_blocks :
      bd.Txn → Bytes → Bytes → Bool → Bool → Result QueryError (List Block)
  unfolding get_block_via_hash db_range
  search_blocks t base end only_header end_cached = elim (get_block_via_hash bd base t) [
    | err e ↦ err hash_not_found
    | ok (b, base_height) ↦
        let missing : Result QueryError (List Block) =
          err (if end_cached then flushing_cache else hash_not_found) in
        elim (get_block_via_hash bd end t) [
          | err e ↦ missing
          | ok (x, end_height) ↦
              if ltb base_height end_height
              then db_range (end_height - base_height) (base_height + 1) only_header t
              else missing
        ]
  ]

  abbrev pub is_cached : Option ℕ → Bool
  is_cached none = false
  is_cached (some i) = true

  -- `GetSyncBlocks` as a whole.
  unfoldable pub serve_sync_blocks :
      bd.Txn → Bytes → Bytes → Bool → Chain → Result QueryError (List Block)
  unfolding get_sync_blocks search_blocks get_block
  serve_sync_blocks t base end only_header c = elim (get_sync_blocks base end only_header c) [
    | served (walked bs) ↦ ok bs
    | served (stopped e) ↦ err panicked
    | invalid_range ↦ err block_range
    | ask_db ↦
        search_blocks t base end only_header (is_cached (get_block end (c.branch_at c.longest)))
  ]
