-- ===== src/Core/QueryCache.antt =====
-- core/qcache.go: the blocks that are not stored yet, kept for queries. The keys of its maps are hashes in
-- hex and public keys in base32, which stand for the hashes and keys; a query has its text decoded.
use blockchain.Common.{
  ℕ, ◌+◌, ◌-◌, ◌*◌, ◌%◌, ◌^◌, ◌&&◌, Option, some, none, Bytes, List, [], ◌∷◌, ◌++◌, map, get_elem?,
  ltb, leb, if◌then◌else◌, Result, ok, err,
}
use blockchain.Common.Int.{ℤ}
use blockchain.Cp.Header
use blockchain.Cp.Evidence.{Evidence}
use blockchain.Cp.Block.{Block}
use blockchain.Chain.Maps.{Map, load, store}
use blockchain.Chain.Growth.{Chain}
use blockchain.Chain.Queries.{get_unstored_blocks}
use blockchain.Db.Badger.{Badger, DbError}
use blockchain.Db.Store.{get_latest_height, get_block_via_height}
use blockchain.Db.Queries.{
  get_evidence_via_hash, get_header_via_height, get_evidence_via_key, get_score_via_key,
}
use blockchain.Core.Net.{second}

pub record BlockInfo : Type 0 where
  pub block : Block
  pub height : ℕ
  pub block_hash : Bytes

pub record EvidenceInfo : Type 0 where
  pub evidence : Evidence
  pub height : ℕ
  pub block_hash : Bytes
  pub time : ℤ

pub record AccountInfo : Type 0 where
  pub evds_hash : List Bytes
  pub score : ℕ

pub record SortedBlocks : Type 0 where
  pub blocks : List BlockInfo
  pub begin : ℕ
  pub end : ℕ

-- The struct `qCache`. A new one has not been refreshed, and every query refreshes it first.
pub record QCache : Type 0 where
  pub blocks : Map BlockInfo
  pub evidences : Map EvidenceInfo
  pub accounts : Map AccountInfo
  pub sorted_blocks : SortedBlocks
  pub last_refresh_time : ℕ

abbrev pub refresh_interval : ℕ
refresh_interval = 20 * second

abbrev pub last_height : ℕ → List (Block × ℕ) → ℕ
last_height h [] = h
last_height h ((b, k) ∷ bs) = last_height k bs

abbrev pub info : (Bytes → Bytes) → Block × ℕ → BlockInfo
info hash (b, h) = record {
  block = b;
  height = h;
  block_hash = Header.get_serialized_hash hash b.header;
}

-- The sorted blocks of a refresh; both ends are 0 where there is no block.
unfoldable pub sorted_of : (Bytes → Bytes) → List (Block × ℕ) → SortedBlocks
sorted_of hash [] = record { blocks = []; begin = 0; end = 0 }
sorted_of hash ((b, h) ∷ bs) = record {
  blocks = map (info hash) ((b, h) ∷ bs);
  begin = last_height h bs;
  end = h;
}

abbrev account_of : Option AccountInfo → AccountInfo
account_of none = record { evds_hash = []; score = 0 }
account_of (some a) = a

-- The loop of `refresh` over the evidence of a block.
unfoldable pub cache_evidence :
    Bytes
    → ℕ
    → ℤ
    → List Evidence
    → Map EvidenceInfo × Map AccountInfo
    → Map EvidenceInfo × Map AccountInfo
unfolding load store
cache_evidence h height time [] m = m
cache_evidence h height time (e ∷ es) (evds, accounts) =
    let account = account_of (load e.pub_key accounts) in
    cache_evidence h height time es (
      store e.hash (record { evidence = e; height = height; block_hash = h; time = time }) evds,
      store e.pub_key (record account { evds_hash = account.evds_hash ++ (e.hash ∷ []) }) accounts,
    )

-- The loop of `refresh` over the blocks.
unfoldable pub cache_blocks : (Bytes → Bytes) → List (Block × ℕ) → QCache → QCache
unfolding cache_evidence load store Header.get_serialized_hash
cache_blocks hash [] qc = qc
cache_blocks hash ((b, height) ∷ bs) qc =
    let h = Header.get_serialized_hash hash b.header in
    let (evds, accounts) =
      cache_evidence h height b.header.time b.evds (qc.evidences, qc.accounts) in
    let miner = account_of (load b.header.miner accounts) in
    cache_blocks hash bs (record qc {
      blocks = store h (info hash (b, height)) qc.blocks;
      evidences = evds;
      accounts =
          store b.header.miner (record miner { score = (miner.score + 1) % 2 ^ 64 }) accounts;
    })

-- `refresh`, where the last one was more than 20 seconds ago.
unfoldable pub refresh : (Bytes → Bytes) → ℕ → Chain → QCache → QCache
unfolding cache_blocks sorted_of get_unstored_blocks
refresh hash now c qc =
    let unstored = get_unstored_blocks c in
    if ltb refresh_interval (now - qc.last_refresh_time)
    then cache_blocks hash unstored (record {
      blocks = [];
      evidences = [];
      accounts = [];
      sorted_blocks = sorted_of hash unstored;
      last_refresh_time = now;
    })
    else qc

-- An answer; `panicked` is an index out of range.
pub data Answer : Type 0 where
  found : BlockInfo → Answer
  nothing panicked : Answer

abbrev at_index : Option BlockInfo → Answer
at_index none = panicked
at_index (some i) = found i

abbrev stored_info : ℕ → Result DbError (Block × Bytes) → Answer
stored_info height (err e) = nothing
stored_info height (ok (b, k)) = found (record { block = b; height = height; block_hash = k })

-- The queries, on a cache that was refreshed.
unfoldable pub get_block_via_hash : Bytes → QCache → Option BlockInfo
unfolding load
get_block_via_hash k qc = load k qc.blocks

module _ (bd : Badger) (t : bd.Txn) where
  unfoldable pub get_block_at : ℕ → SortedBlocks → Answer
  unfolding get_block_via_height
  get_block_at height sbs =
      if leb sbs.begin height && leb height sbs.end
      then at_index (get_elem? sbs.blocks (sbs.end - height))
      else stored_info height (get_block_via_height bd height t)

  unfoldable pub get_latest_block : QCache → Answer
  unfolding get_latest_height get_block_via_height
  get_latest_block qc = elim qc.sorted_blocks.blocks [
    | i ∷ is ↦ found i
    | [] ↦ elim (get_latest_height bd t) [
      | err e ↦ nothing
      | ok height ↦ stored_info height (get_block_via_height bd height t)
    ]
  ]

  -- What the loop of `getEvidence` finds for one hash.
  unfoldable pub get_evidence_info : Bytes → QCache → Option EvidenceInfo
  unfolding load get_evidence_via_hash get_header_via_height
  get_evidence_info k qc = elim (load k qc.evidences) [
    | some e ↦ some e
    | none ↦ elim (get_evidence_via_hash bd k t) [
      | err e ↦ none
      | ok (e, height) ↦ elim (get_header_via_height bd height t) [
        | err x ↦ none
        | ok (header, block_hash) ↦
            some (record {
              evidence = e;
              height = height;
              block_hash = block_hash;
              time = header.time;
            })
      ]
    ]
  ]

  abbrev score_or_zero : Result DbError ℕ → ℕ
  score_or_zero (ok n) = n
  score_or_zero (err e) = 0

  -- `getAccount` of an id that is well-formed: the cache's part and the database's.
  unfoldable pub get_account : Bytes → QCache → List Bytes × ℕ
  unfolding load get_evidence_via_key get_score_via_key
  get_account key qc =
      let account = account_of (load key qc.accounts) in
      (
        account.evds_hash ++ (get_evidence_via_key bd key t).0,
        (account.score + score_or_zero (get_score_via_key bd key t)) % 2 ^ 64,
      )
