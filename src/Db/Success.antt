-- ===== src/Db/Success.antt =====
-- `PutBlock` of db/badger.go on a badger that has room and does not fail.
use blockchain.Common.{
  ◌+◌, ◌≤◌, ◌<◌, ◌%◌, ◌^◌, ◌≡◌, sym, ap, subst, ◌∙◌, arith, true, Bytes, List, ◌∷◌, length, Result,
  ok, err, ◌>>=◌, ◌==◌, inl, inr,
}
use blockchain.Cp.{Btcec}
use blockchain.Cp.Block.{Block}
use blockchain.Db.Schema.{hbyte}
use blockchain.Db.Keys.{encode, latest_height}
use blockchain.Db.Badger.{Badger, BadgerError, BadgerLaws, DbError, update}
use blockchain.Db.Store.{put_block_tx, update_latest_height_tx, put_block}
use blockchain.Db.Putting.{key_lengths, own_length}
use blockchain.Db.Ledger.{Represents, IsLedger, IsNewHash}
use blockchain.Db.Recorded.{IsRecorded}
use blockchain.Db.Promise.{put_block-Appended, get_latest_height-Represents}
use blockchain.Db.Room.{IsRoomy, needed, Makes-set, Makes-bind, Makes-put_block_tx}

module _ (bd : Badger) (roomy : IsRoomy bd) where
  update-ok :
      (wf : bd.Txn → Result BadgerError bd.Txn) (t t' : bd.Txn)
      → wf t ≡ ok t'
      → update bd wf t ≡ (ok tt, t')
  unfolding update
  update-ok wf t t' e = rw (e, roomy.commits t', update)

module _ (hash : Bytes → Bytes) (hash_length : (x : Bytes) → length (hash x) ≡ 32) (ec : Btcec)
    (bd : Badger) (laws : BadgerLaws bd) (roomy : IsRoomy bd) where
  pub put_block-Represents :
      (b : Block) (bs : List Block) (t : bd.Txn)
      → IsLedger hash ec (b ∷ bs)
      → IsNewHash hash b bs
      → Represents hash bd t bs
      → needed hash roomy.overhead b (length bs + 1) ≤ roomy.room t
      → (t' : bd.Txn) × (put_block bd hash b (length bs + 1) t ≡ (ok tt, t'))
        × Represents hash bd t' (b ∷ bs)
        × IsRecorded bd t t' (length bs + 1) b
  unfolding put_block update_latest_height_tx encode
  put_block-Represents b bs t led new r fits =
      let height = length bs + 1 in
      let lt : height < 2 ^ 64 = let few = led.few in omega arith in
      let wf =
        λ (u : bd.Txn). put_block_tx bd hash b height u >>= update_latest_height_tx bd height in
      let latest = get_latest_height-Represents hash bd t bs (omega arith) r in
      let same : (height == height % 2 ^ 64) ≡ true = ground arith in
      let st = led.storable.0 in
      let (t', w, left) =
        Makes-bind bd roomy (put_block_tx bd hash b height) (update_latest_height_tx bd height)
          (Makes-put_block_tx bd roomy hash b height lt (own_length hash hash_length ec bd laws b)
            st.valid.header_ok.miner_ok (key_lengths hash hash_length ec bd laws b st))
          (Makes-set bd roomy latest_height (hbyte height) tt) t (omega (arith, fits)) in
      let e = update-ok bd roomy wf t t' w in
      let run : put_block bd hash b height t ≡ (ok tt, t') = rw (latest, same, e, put_block) in
      let both : Represents hash bd t' (b ∷ bs) × IsRecorded bd t t' height b =
        elim (put_block-Appended hash hash_length ec bd laws b bs t led new r) [
          | inl (f, rep, rec) ↦
              subst
                (λ (x : Result DbError (Unit {0}) × bd.Txn).
                  Represents hash bd x.1 (b ∷ bs) × IsRecorded bd t x.1 height b)
                run (rep, rec)
          | inr (x, f, g) ↦ absurd (
              let clash : ok tt ≡ err x =
                sym (ap (λ (y : Result DbError (Unit {0}) × bd.Txn). y.0) run) ∙ f in
              cc)
        ] in
      (t', run, both.0, both.1)
