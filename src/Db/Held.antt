-- ===== src/Db/Held.antt =====
-- The writes that `putBlockTX` of db/badger.go makes for a block.
use blockchain.Common.{
  ℕ, ◌+◌, ◌%◌, ◌^◌, ◌≡◌, refl, arith, Bytes, List, [], ◌∷◌, ◌++◌, ok, Bool-cases, inl, inr,
  if◌then◌else◌,
}
use blockchain.Cp.Header
use blockchain.Cp.Header.{BlockHeader, is_empty_evidence_root}
use blockchain.Cp.Evidence
use blockchain.Cp.Evidence.{Evidence}
use blockchain.Cp.Block.{Block}
use blockchain.Storage.Header as StorageHeader
use blockchain.Storage.Block as StorageBlock
use blockchain.Db.Schema.{hbyte, get_header_key, get_hash_key, get_header_height_key, get_score_key}
use blockchain.Db.Keys.{
  encode, header, block, evidence, hash_at, header_height, evidence_height, score, account_evidence,
}
use blockchain.Db.Badger.{Badger}
use blockchain.Db.Store.{
  stored_header, stored_block, origin, update_score_tx, update_account_evidence_tx,
  put_each_evidence, put_evidence_tx, put_block_tx,
}
use blockchain.Db.Writes.{Write, both_returned, Wrote, Wrote-append}

unfoldable pub evidence_writes : List Evidence → ℕ → List Write
evidence_writes [] height = []
evidence_writes (e ∷ es) height =
    (evidence height e.hash, Evidence.marshal e)
    ∷ (evidence_height e.hash, hbyte height)
    ∷ (account_evidence e.pub_key e.hash, hbyte height)
    ∷ evidence_writes es height

unfoldable pub evds_writes : Bytes → Block → ℕ → List Write
unfolding evidence_writes
evds_writes k b height =
    if is_empty_evidence_root b.header
    then []
    else evidence_writes b.evds height
      ++ ((block height k, StorageBlock.marshal (stored_block b.evds)) ∷ [])

-- The writes that place the header.
abbrev pub placing_writes : Bytes → Block → ℕ → List Write
placing_writes k b height =
    (header height k, StorageHeader.marshal (stored_header b.header height))
    ∷ (hash_at height, k)
    ∷ (header_height k, hbyte height)
    ∷ []

-- The score of the miner becomes `n`.
abbrev pub header_writes : Bytes → Block → ℕ → ℕ → List Write
header_writes k b height n =
    (header height k, StorageHeader.marshal (stored_header b.header height))
    ∷ (hash_at height, k)
    ∷ (header_height k, hbyte height)
    ∷ (score b.header.miner, hbyte n)
    ∷ []

module _ (bd : Badger) where
  put_each_evidence-Wrote :
      (es : List Evidence) (height : ℕ) (t t' : bd.Txn)
      → put_each_evidence bd es height t ≡ ok t'
      → Wrote bd (evidence_writes es height) t t'
  unfolding put_each_evidence evidence_writes update_account_evidence_tx encode
  put_each_evidence-Wrote [] height t t' e = cc
  put_each_evidence-Wrote (e ∷ es) height t t' r =
      let (t3, r3, r4) = both_returned _ (put_each_evidence bd es height) r in
      let (t2, r2, s3) = both_returned _ (update_account_evidence_tx bd e height) r3 in
      let (t1, s1, s2) =
        both_returned _ (bd.set (encode (evidence_height e.hash)) (hbyte height)) r2 in
      (t1, s1, (t2, s2, (t3, s3, put_each_evidence-Wrote es height t3 t' r4)))

  put_evds-Wrote :
      (k : Bytes) (b : Block) (height : ℕ) (t t' : bd.Txn)
      → (if is_empty_evidence_root b.header then ok t else put_evidence_tx bd k b.evds height t)
        ≡ ok t'
      → Wrote bd (evds_writes k b height) t t'
  unfolding put_evidence_tx evds_writes encode
  put_evds-Wrote k b height t t' r = elim (Bool-cases (is_empty_evidence_root b.header)) [
    | inl empty ↦ rw empty (let same : t ≡ t' = ground arith in same)
    | inr full ↦
        let r' : put_evidence_tx bd k b.evds height t ≡ ok t' = rw full at r in
        let (u, r1, r2) = both_returned (put_each_evidence bd b.evds height t) _ r' in
        rw full (
          Wrote-append bd (evidence_writes b.evds height) _ t u t'
            (put_each_evidence-Wrote b.evds height t u r1) (t', r2, refl))
  ]

  -- What `putBlockTX` writes, where it returns; `n` is the score that it finds before its last write.
  pub put_block_tx-Wrote :
      (hash : Bytes → Bytes) (b : Block) (height : ℕ) (t t' : bd.Txn)
      → put_block_tx bd hash b height t ≡ ok t'
      → let k = Header.get_serialized_hash hash b.header in
        (n : ℕ) × Wrote bd
          (evds_writes k b height ++ header_writes k b height ((n + 1) % 2 ^ 64))
          t
          t'
        × ((u : bd.Txn) × Wrote bd (evds_writes k b height ++ placing_writes k b height) t u
            × (origin (bd.get (encode (score b.header.miner)) u) ≡ ok n))
  unfolding put_block_tx update_score_tx encode
  put_block_tx-Wrote hash b height t t' r =
      let k = Header.get_serialized_hash hash b.header in
      let (t4, r4, s) = both_returned _ (update_score_tx bd b.header.miner) r in
      let (t3, r3, s3) = both_returned _ (bd.set (get_header_height_key k) (hbyte height)) r4 in
      let (t2, r2, s2) = both_returned _ (bd.set (get_hash_key height) k) r3 in
      let (t1, r1, s1) =
        both_returned _
          (bd.set (get_header_key height k) (StorageHeader.marshal (stored_header b.header height)))
          r2 in
      let (n, o, s4) = both_returned (origin (bd.get (get_score_key b.header.miner) t4)) _ s in
      let evds = put_evds-Wrote k b height t t1 r1 in
      (
        n,
        Wrote-append bd (evds_writes k b height) _ t t1 t' evds
            (t2, s1, (t3, s2, (t4, s3, (t', s4, refl)))),
        (
          t4,
          Wrote-append bd (evds_writes k b height) _ t t1 t4 evds
              (t2, s1, (t3, s2, (t4, s3, refl))),
          o,
        ),
      )
