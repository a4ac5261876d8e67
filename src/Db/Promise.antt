-- ===== src/Db/Promise.antt =====
-- What db/badger.go promises: `PutBlock` appends to the chain or changes nothing, and the queries
-- read the chain.
use blockchain.Common.{
  ℕ, ◌+◌, ◌<◌, ◌%◌, ◌^◌, ◌≡◌, ◌≢◌, ◌⊎◌, refl, sym, ap, ◌∙◌, arith, true, false, Bytes, List, [],
  ◌∷◌, append-nil, length, Result, ok, err, ◌>>=◌, ◌==◌, Result-cases, inl, inr,
}
use blockchain.Cp.{Btcec}
use blockchain.Cp.Block.{Block}
use blockchain.Db.Schema.{hbyte, byteh, genesis_key}
use blockchain.Db.Keys.{encode, genesis, score, byteh-hbyte}
use blockchain.Db.Badger.{
  Badger, BadgerError, key_not_found, failed, BadgerLaws, DbError, invalid_height, wrap_error,
  update,
}
use blockchain.Db.Store.{
  put_block_tx, update_latest_height_tx, put_block, put_genesis, get_latest_height,
}
use blockchain.Db.Writes.{both_returned, Wrote-kept, Wrote-read}
use blockchain.Db.Recorded.{IsRecorded, stored_IsRecorded, genesis_kept}
use blockchain.Db.Ledger.{Represents, IsLedger, IsNewHash, stored_Represents}

module _ (hash : Bytes → Bytes) (bd : Badger) where
  -- The chain grew by the block, which is recorded, or an error left the database as it was.
  abbrev pub Appended : Block → List Block → bd.Txn → Result DbError (Unit {0}) × bd.Txn → Type 0
  Appended b bs t (r, t') =
      ((r ≡ ok tt) × Represents hash bd t' (b ∷ bs) × IsRecorded bd t t' (length bs + 1) b)
      ⊎ ((x : DbError) × (r ≡ err x) × (t' ≡ t))

  -- The chain is the block, which is recorded, and there is a genesis, or an error left the database as
  -- it was.
  abbrev pub Begun : Block → bd.Txn → Result DbError (Unit {0}) × bd.Txn → Type 0
  Begun b t (r, t') =
      ((r ≡ ok tt)
        × Represents hash bd t' (b ∷ [])
        × IsRecorded bd t t' 1 b
        × (bd.get (encode genesis) t' ≡ ok (b'0' ∷ [])))
      ⊎ ((x : DbError) × (r ≡ err x) × (t' ≡ t))

  -- `update` commits what returned, or changes nothing.
  update-cases :
      (wf : bd.Txn → Result BadgerError bd.Txn) (t : bd.Txn)
      → ((t' : bd.Txn) × (wf t ≡ ok t') × (update bd wf t ≡ (ok tt, t')))
        ⊎ ((x : DbError) × (update bd wf t ≡ (err x, t)))
  unfolding update wrap_error
  update-cases wf t = elim (Result-cases (wf t)) [
    | inr (key_not_found, e) ↦ inr (DbError.not_found, rw (e, update))
    | inr (failed, e) ↦ inr (DbError.internal, rw (e, update))
    | inl (t', e) ↦ elim (Result-cases (bd.commit t')) [
      | inr (key_not_found, f) ↦ inr (DbError.not_found, rw (e, f, update))
      | inr (failed, f) ↦ inr (DbError.internal, rw (e, f, update))
      | inl (tt, f) ↦ inl (t', e, rw (e, f, update))
    ]
  ]

  pub get_latest_height-Represents :
      (t : bd.Txn) (bs : List Block)
      → length bs < 2 ^ 64
      → Represents hash bd t bs
      → get_latest_height bd t ≡ ok (length bs)
  unfolding get_latest_height wrap_error encode
  get_latest_height-Represents t bs few r =
      let e : byteh (hbyte (length bs)) ≡ length bs =
        ap byteh (sym (append-nil (hbyte (length bs)))) ∙ byteh-hbyte (length bs) [] few in
      rw (r.latest, e)

module _ (hash : Bytes → Bytes) (hash_length : (x : Bytes) → length (hash x) ≡ 32) (ec : Btcec)
    (bd : Badger) (laws : BadgerLaws bd) where
  -- Of blocks that `Verify` accepts, that fit their widths, and of which none has two evidences with
  -- one hash, fewer than 2^64, the database represents a chain, and `PutBlock` is called with one more
  -- such block, whose hash no block of the chain has, at the next height. Where it returns no error, the
  -- database represents the chain with the block, all its evidence is there, its height stands under the
  -- hash of each evidence and under the account of its public key, and the score of the miner is one
  -- more than before, in 64 bits. Where it returns an error, the database is as it was.
  pub put_block-Appended :
      (b : Block) (bs : List Block) (t : bd.Txn)
      → IsLedger hash ec (b ∷ bs)
      → IsNewHash hash b bs
      → Represents hash bd t bs
      → Appended hash bd b bs t (put_block bd hash b (length bs + 1) t)
  unfolding put_block
  put_block-Appended b bs t led new r =
      let height = length bs + 1 in
      let wf =
        λ (u : bd.Txn). put_block_tx bd hash b height u >>= update_latest_height_tx bd height in
      let latest = get_latest_height-Represents hash bd t bs (let few = led.few in omega arith) r in
      let same : (height == height % 2 ^ 64) ≡ true = let few = led.few in ground arith in
      rw (latest, same, put_block)
        (elim (update-cases hash bd wf t) [
          | inr (x, e) ↦ rw e (inr (x, refl, refl))
          | inl (t', w, e) ↦
              let (t1, r1, r2) =
                both_returned (put_block_tx bd hash b height t) (update_latest_height_tx bd height)
                  w in
              rw e (
                inl (
                  refl,
                  stored_Represents hash hash_length ec bd laws b bs t t1 t' led new r.held r1 r2,
                  stored_IsRecorded hash hash_length ec bd laws b led.storable.0 height
                      (let few = led.few in omega arith) t t1 t' r1 r2,
                ))
        ])

  -- On a database that represents a chain of fewer than 2^64 - 1 blocks, `PutBlock` at any other height
  -- than the next returns ErrInvalidHeight with both heights, and changes nothing.
  pub put_block_refuses :
      (b : Block) (height : ℕ) (bs : List Block) (t : bd.Txn)
      → length bs + 1 < 2 ^ 64
      → Represents hash bd t bs
      → height ≢ length bs + 1
      → put_block bd hash b height t ≡ (err (invalid_height height (length bs + 1)), t)
  unfolding put_block
  put_block_refuses b height bs t few r ne =
      let latest = get_latest_height-Represents hash bd t bs (omega arith) r in
      let e : (length bs + 1) % 2 ^ 64 ≡ length bs + 1 = omega arith in
      let other : (height == length bs + 1) ≡ false = ground arith in
      rw (latest, e, other, put_block)

  -- The mark of the genesis is no score.
  after_genesis :
      {b : Block} (t t0 t' : bd.Txn)
      → length b.header.miner ≡ 33
      → bd.set genesis_key (b'0' ∷ []) t ≡ ok t0
      → IsRecorded bd t0 t' 1 b
      → IsRecorded bd t t' 1 b
  unfolding encode
  after_genesis {b} t t0 t' l r0 rec =
      let kept =
        Wrote-kept bd laws (score b.header.miner) ((genesis, b'0' ∷ []) ∷ []) t t0 l (tt, tt)
          (λ p. cc, tt) (t0, r0, refl) in
      record {
        each_read = rec.each_read;
        old = rec.old;
        before = elim rec.before [
          | inl (e, z) ↦ inl (sym kept ∙ e, z)
          | inr (v, e, n) ↦ inr (v, sym kept ∙ e, n)
        ];
        after = rec.after;
      }

  -- `PutGenesis` is called with a block that `Verify` accepts, that fits its widths, and that has no two
  -- evidences with one hash. Where it returns no error, the database represents this block alone and
  -- has the mark of a genesis, all evidence of the block is there, with the height 1 under its hash and
  -- its account, and the score of the miner is one more than before, in 64 bits. Where it returns an
  -- error, the database is as it was.
  pub put_genesis-Begun :
      (b : Block) (t : bd.Txn)
      → IsLedger hash ec (b ∷ [])
      → Begun hash bd b t (put_genesis bd hash b t)
  unfolding put_genesis encode
  put_genesis-Begun b t led =
      let wf = λ (u : bd.Txn).
        bd.set genesis_key (b'0' ∷ []) u
        >>= put_block_tx bd hash b 1
        >>= update_latest_height_tx bd 1 in
      elim (update-cases hash bd wf t) [
        | inr (x, e) ↦ rw e (inr (x, refl, refl))
        | inl (t', w, e) ↦
            let (t1, r, r2) =
              both_returned (bd.set genesis_key (b'0' ∷ []) t >>= put_block_tx bd hash b 1)
                (update_latest_height_tx bd 1) w in
            let (t0, r0, r1) =
              both_returned (bd.set genesis_key (b'0' ∷ []) t) (put_block_tx bd hash b 1) r in
            rw e (
              inl (
                refl,
                stored_Represents hash hash_length ec bd laws b [] t0 t1 t' led tt tt r1 r2,
                after_genesis t t0 t' led.storable.0.valid.header_ok.miner_ok r0 (
                    stored_IsRecorded hash hash_length ec bd laws b led.storable.0 1 (omega arith)
                      t0 t1 t' r1 r2),
                genesis_kept hash hash_length ec bd laws b led.storable.0 1 (omega arith) t0 t1 t'
                      r1 r2
                    ∙ Wrote-read bd laws genesis (b'0' ∷ []) [] t t0 tt tt tt (t0, r0, refl),
              ))
      ]
