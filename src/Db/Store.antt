-- ===== src/Db/Store.antt =====
-- db/badger.go: what is written for a block, and how it is found again.
use blockchain.Common.{
  ℕ, ◌+◌, ◌%◌, ◌^◌, some, Bytes, List, [], ◌∷◌, ◌++◌, map, Result, ok, err, ◌>>=◌, ◌==◌,
  if◌then◌else◌,
}
use blockchain.Wire.{Reader}
use blockchain.Cp.{empty_evidence_root}
use blockchain.Cp.Header
use blockchain.Cp.Header.{BlockHeader, is_empty_evidence_root}
use blockchain.Cp.Evidence
use blockchain.Cp.Evidence.{Evidence}
use blockchain.Cp.Block.{Block}
use blockchain.Storage.Header as StorageHeader
use blockchain.Storage.Header.{StoredHeader}
use blockchain.Storage.Block as StorageBlock
use blockchain.Storage.Block.{StoredBlock}
use blockchain.Db.Schema.{
  hbyte, byteh, get_header_key, get_hash_key, get_header_height_key, get_block_key,
  get_evidence_key, get_evidence_height_key, get_score_key, get_account_evidence_key_prefix,
  latest_height_key, genesis_key,
}
use blockchain.Db.Badger.{
  Badger, BadgerError, key_not_found, failed, DbError, invalid_height, wrap_error, update,
}

-- `item.Value(func(val) { result, err = Unmarshal(bytes.NewReader(val)) })`: what is left is ignored.
unfoldable pub read_value {ℓ} : {A : Type ℓ} → Reader A → Bytes → Result BadgerError A
read_value p bs = elim (p bs) [ err e ↦ err failed | ok (a, rest) ↦ ok a ]

-- storage.NewBlockHeader, with SetEmptyEvdsRoot where the root is empty.
abbrev pub stored_header : BlockHeader → ℕ → StoredHeader
stored_header h height = record {
  header =
      if is_empty_evidence_root h then record h { evidence_root = some empty_evidence_root } else h;
  height = height;
}

abbrev pub stored_block : List Evidence → StoredBlock
stored_block evds = record { evds_hash = map (λ e. e.hash) evds }

-- A score that cannot be read is a new one, or an error.
abbrev pub origin : Result BadgerError Bytes → Result BadgerError ℕ
origin (ok v) = ok (byteh v)
origin (err key_not_found) = ok 0
origin (err failed) = err failed

module _ (bd : Badger) where
  unfoldable pub update_score_tx : Bytes → bd.Txn → Result BadgerError bd.Txn
  unfolding get_score_key hbyte byteh
  update_score_tx pub_key t = origin (bd.get (get_score_key pub_key) t) >>= λ n.
      bd.set (get_score_key pub_key) (hbyte ((n + 1) % 2 ^ 64)) t

  unfoldable pub update_latest_height_tx : ℕ → bd.Txn → Result BadgerError bd.Txn
  unfolding hbyte
  update_latest_height_tx height t = bd.set latest_height_key (hbyte height) t

  unfoldable pub update_account_evidence_tx : Evidence → ℕ → bd.Txn → Result BadgerError bd.Txn
  unfolding get_account_evidence_key_prefix hbyte
  update_account_evidence_tx e height t =
      bd.set (get_account_evidence_key_prefix e.pub_key ++ e.hash) (hbyte height) t

  -- The loop of `putEvidenceTX`.
  unfoldable pub put_each_evidence : List Evidence → ℕ → bd.Txn → Result BadgerError bd.Txn
  unfolding get_evidence_key get_evidence_height_key hbyte update_account_evidence_tx
  put_each_evidence [] height t = ok t
  put_each_evidence (e ∷ es) height t =
      bd.set (get_evidence_key height e.hash) (Evidence.marshal e) t
      >>= bd.set (get_evidence_height_key e.hash) (hbyte height)
      >>= update_account_evidence_tx e height
      >>= put_each_evidence es height

  unfoldable pub put_evidence_tx : Bytes → List Evidence → ℕ → bd.Txn → Result BadgerError bd.Txn
  unfolding put_each_evidence get_block_key
  put_evidence_tx block_hash evds height t =
      put_each_evidence evds height t
      >>= bd.set (get_block_key height block_hash) (StorageBlock.marshal (stored_block evds))

  unfoldable pub put_block_tx : (Bytes → Bytes) → Block → ℕ → bd.Txn → Result BadgerError bd.Txn
  unfolding put_evidence_tx update_score_tx get_header_key get_hash_key get_header_height_key hbyte
  put_block_tx hash b height t =
      let k = Header.get_serialized_hash hash b.header in
      (if is_empty_evidence_root b.header then ok t else put_evidence_tx k b.evds height t)
      >>= bd.set (get_header_key height k) (StorageHeader.marshal (stored_header b.header height))
      >>= bd.set (get_hash_key height) k
      >>= bd.set (get_header_height_key k) (hbyte height)
      >>= update_score_tx b.header.miner

  unfoldable pub put_genesis : (Bytes → Bytes) → Block → bd.Txn → Result DbError (Unit {0}) × bd.Txn
  unfolding update put_block_tx update_latest_height_tx
  put_genesis hash b db =
      update bd
        (λ t.
          bd.set genesis_key (b'0' ∷ []) t >>= put_block_tx hash b 1 >>= update_latest_height_tx 1)
        db

  unfoldable pub get_latest_height : bd.Txn → Result DbError ℕ
  unfolding wrap_error byteh
  get_latest_height t = wrap_error (bd.get latest_height_key t >>= λ v. ok (byteh v))

  -- `latestHeight + 1` wraps.
  unfoldable pub put_block :
      (Bytes → Bytes) → Block → ℕ → bd.Txn → Result DbError (Unit {0}) × bd.Txn
  unfolding get_latest_height update put_block_tx update_latest_height_tx
  put_block hash b height db = elim (get_latest_height db) [
    | err e ↦ (err e, db)
    | ok latest ↦
        let expect = (latest + 1) % 2 ^ 64 in
        if height == expect
        then update bd (λ t. put_block_tx hash b height t >>= update_latest_height_tx height) db
        else (err (invalid_height height expect), db)
  ]

  unfoldable pub get_hash : ℕ → bd.Txn → Result DbError Bytes
  unfolding wrap_error get_hash_key
  get_hash height t = wrap_error (bd.get (get_hash_key height) t)

  unfoldable pub get_header_height : Bytes → bd.Txn → Result DbError ℕ
  unfolding wrap_error get_header_height_key byteh
  get_header_height k t = wrap_error (bd.get (get_header_height_key k) t >>= λ v. ok (byteh v))

  unfoldable pub get_evidence_height : Bytes → bd.Txn → Result DbError ℕ
  unfolding wrap_error get_evidence_height_key byteh
  get_evidence_height k t = wrap_error (bd.get (get_evidence_height_key k) t >>= λ v. ok (byteh v))

  unfoldable pub get_header : ℕ → Bytes → bd.Txn → Result DbError StoredHeader
  unfolding wrap_error get_header_key read_value
  get_header height k t =
      wrap_error (bd.get (get_header_key height k) t >>= read_value StorageHeader.unmarshal)

  unfoldable pub get_block : ℕ → Bytes → bd.Txn → Result DbError StoredBlock
  unfolding wrap_error get_block_key read_value
  get_block height k t =
      wrap_error (bd.get (get_block_key height k) t >>= read_value StorageBlock.unmarshal)

  unfoldable pub get_evidence : ℕ → Bytes → bd.Txn → Result DbError Evidence
  unfolding wrap_error get_evidence_key read_value
  get_evidence height k t =
      wrap_error (bd.get (get_evidence_key height k) t >>= read_value Evidence.unmarshal)

  unfoldable pub get_each_evidence : List Bytes → ℕ → bd.Txn → Result DbError (List Evidence)
  unfolding get_evidence
  get_each_evidence [] height t = ok []
  get_each_evidence (k ∷ ks) height t =
      get_evidence height k t >>= λ e. get_each_evidence ks height t >>= λ es. ok (e ∷ es)

  unfoldable pub get_cp_block : ℕ → Bytes → bd.Txn → Result DbError Block
  unfolding get_header get_block get_each_evidence
  get_cp_block height k t = get_header height k t >>= λ h.
      (if is_empty_evidence_root h.header
        then ok []
        else get_block height k t >>= λ b. get_each_evidence b.evds_hash height t)
      >>= λ evds. ok (record { header = h.header; evds = evds })

  unfoldable pub get_block_via_height : ℕ → bd.Txn → Result DbError (Block × Bytes)
  unfolding get_hash get_cp_block
  get_block_via_height height t =
      get_hash height t >>= λ k. get_cp_block height k t >>= λ b. ok (b, k)

  unfoldable pub get_block_via_hash : Bytes → bd.Txn → Result DbError (Block × ℕ)
  unfolding get_header_height get_cp_block
  get_block_via_hash k t =
      get_header_height k t >>= λ height. get_cp_block height k t >>= λ b. ok (b, height)
