-- ===== src/Db/Answering.antt =====
-- What `GetEvidenceViaHash`, `HasEvidence`, `GetScoreViaKey` and `HasGenesis` of db/badger.go answer after
-- a block was put.
use blockchain.Common.{
  ℕ, ◌+◌, ◌%◌, ◌<◌, ◌^◌, ◌≡◌, sym, ap, ◌∙◌, arith, true, Bytes, List, [], ◌∷◌, append-nil, All,
  length, ok, err, inl, inr,
}
use blockchain.Cp.{Btcec}
use blockchain.Cp.Header
use blockchain.Cp.Evidence
use blockchain.Cp.Evidence.{Evidence}
use blockchain.Cp.Block.{Block}
use blockchain.Db.Schema.{hbyte, byteh}
use blockchain.Db.Keys.{encode, genesis, byteh-hbyte}
use blockchain.Db.Badger.{Badger, BadgerLaws, wrap_error}
use blockchain.Db.Store.{
  put_block, put_genesis, get_block_via_height, get_evidence_height, get_evidence,
}
use blockchain.Db.Queries.{
  has_genesis, answer, get_latest_header, has_evidence, get_score_via_key, get_evidence_via_hash,
}
use blockchain.Db.Refinement.{read_value-marshal}
use blockchain.Db.Fresh.{IsRead}
use blockchain.Db.Recorded.{HadScore, IsRecorded}
use blockchain.Db.Ledger.{Represents, IsLedger, IsNewHash}
use blockchain.Db.Promise.{put_block-Appended, put_genesis-Begun}
use blockchain.Db.Reading.{get_block-Represents, get_latest_header-Represents}

byteh-hbyte_self : (n : ℕ) → n < 2 ^ 64 → byteh (hbyte n) ≡ n
byteh-hbyte_self n lt = ap byteh (sym (append-nil (hbyte n))) ∙ byteh-hbyte n [] lt

module _ (bd : Badger) where
  -- The queries find the evidence.
  abbrev pub IsFound : bd.Txn → ℕ → Evidence → Type 0
  IsFound t height e =
      (get_evidence_via_hash bd e.hash t ≡ ok (e, height)) × (has_evidence bd e.hash t ≡ true)

  IsRead-IsFound :
      (height : ℕ) (t : bd.Txn) (e : Evidence)
      → height < 2 ^ 64
      → Evidence.Fits e
      → IsRead bd height t e
      → IsFound t height e
  unfolding get_evidence_via_hash has_evidence get_evidence_height get_evidence wrap_error encode
  IsRead-IsFound height t e lt f (p, q, r) = (
    rw (
      q,
      byteh-hbyte_self height lt,
      p,
      read_value-marshal Evidence.unmarshal (Evidence.marshal e) e (Evidence.Reads-evidence e f),
    ),
    rw q,
  )

  All-IsFound :
      (height : ℕ) (t : bd.Txn) (es : List Evidence)
      → height < 2 ^ 64
      → All Evidence.Fits es
      → All (IsRead bd height t) es
      → All (IsFound t height) es
  All-IsFound height t [] lt fs rs = tt
  All-IsFound height t (e ∷ es) lt (f, fs) (r, rs) =
      (IsRead-IsFound height t e lt f r, All-IsFound height t es lt fs rs)

  HadScore-score :
      (t : bd.Txn) (miner : Bytes) (n : ℕ)
      → HadScore bd t miner n
      → get_score_via_key bd miner t ≡ ok n
  unfolding get_score_via_key encode
  HadScore-score t miner n (inl (e, z)) = rw e (ap ok (sym z))
  HadScore-score t miner n (inr (v, e, s)) = rw e (ap ok s)

module _ (hash : Bytes → Bytes) (hash_length : (x : Bytes) → length (hash x) ≡ 32) (ec : Btcec)
    (bd : Badger) (laws : BadgerLaws bd) where
  -- Of blocks that `Verify` accepts, that fit their widths, and of which none has two evidences with
  -- one hash, fewer than 2^64, the database represents a chain, and `PutBlock` of one more such block,
  -- whose hash no block of the chain has, at the next height returned no error. Then
  -- `GetEvidenceViaHash` of the hash of each of its evidence answers with the evidence and the height,
  -- and `HasEvidence` that it is there; and `GetScoreViaKey` of its miner, which answered with a number
  -- before, answers with one more, in 64 bits.
  pub put_block-IsFound :
      (b : Block) (bs : List Block) (t t' : bd.Txn)
      → IsLedger hash ec (b ∷ bs)
      → IsNewHash hash b bs
      → Represents hash bd t bs
      → put_block bd hash b (length bs + 1) t ≡ (ok tt, t')
      → All (IsFound bd t' (length bs + 1)) b.evds
        × ((n : ℕ) × (get_score_via_key bd b.header.miner t ≡ ok n)
            × (get_score_via_key bd b.header.miner t' ≡ ok ((n + 1) % 2 ^ 64)))
  put_block-IsFound b bs t t' led new r run =
      elim (put_block-Appended hash hash_length ec bd laws b bs t led new r) [
        | inr (x, e, f) ↦ absurd (let clash : ok tt ≡ err x = sym (ap (λ y. y.0) run) ∙ e in cc)
        | inl (e, rep, rec) ↦
            let rec' : IsRecorded bd t t' (length bs + 1) b = rw run at rec in
            let lt : length bs + 1 < 2 ^ 64 = let few = led.few in omega arith in
            let m = (rec'.old + 1) % 2 ^ 64 in
            (
              All-IsFound bd (length bs + 1) t' b.evds lt led.storable.0.fits.evds_fits.1
                  rec'.each_read,
              (
                rec'.old,
                HadScore-score bd t b.header.miner rec'.old rec'.before,
                HadScore-score bd t' b.header.miner m
                    (inr (hbyte m, rec'.after, byteh-hbyte_self m (omega arith))),
              ),
            )
      ]

  -- `PutGenesis` of a block that `Verify` accepts, that fits its widths and that has no two evidences
  -- with one hash returned no error. Then `HasGenesis` answers that there is one, `GetLatestHeader` with
  -- the header of the block, the height 1 and its hash, `GetBlockViaHeight` of 1 with the block and its
  -- hash, and the queries find each of its evidence at the height 1.
  pub put_genesis-has_genesis :
      (b : Block) (t t' : bd.Txn)
      → IsLedger hash ec (b ∷ [])
      → put_genesis bd hash b t ≡ (ok tt, t')
      → let k = Header.get_serialized_hash hash b.header in
        (has_genesis bd t' ≡ answer true)
        × (get_latest_header bd t' ≡ ok (b.header, 1, k))
        × (get_block_via_height bd 1 t' ≡ ok (b, k))
        × All (IsFound bd t' 1) b.evds
  unfolding has_genesis encode
  put_genesis-has_genesis b t t' led run =
      elim (put_genesis-Begun hash hash_length ec bd laws b t led) [
        | inr (x, e, f) ↦ absurd (let clash : ok tt ≡ err x = sym (ap (λ y. y.0) run) ∙ e in cc)
        | inl (e, rep, rec, mark) ↦
            let rep' : Represents hash bd t' (b ∷ []) = rw run at rep in
            let rec' : IsRecorded bd t t' 1 b = rw run at rec in
            let mark' : bd.get (encode genesis) t' ≡ ok (b'0' ∷ []) = rw run at mark in
            (
              rw mark',
              get_latest_header-Represents hash ec bd b [] t' led rep',
              (get_block-Represents hash ec bd [] b [] t' led rep').0,
              All-IsFound bd 1 t' b.evds (omega arith) led.storable.0.fits.evds_fits.1
                  rec'.each_read,
            )
      ]
