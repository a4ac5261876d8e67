-- ===== src/Db/Ledger.antt =====
-- The database of db/badger.go as a chain of blocks: what `PutGenesis` and `PutBlock` add to it.
use blockchain.Common.{
  ℕ, ◌+◌, ◌%◌, ◌<◌, ◌^◌, ◌≡◌, ◌≢◌, refl, ap, ◌∙◌, arith, Bytes, List, [], ◌∷◌, ◌++◌, All, length,
  ok,
}
use blockchain.Cp.{Btcec}
use blockchain.Cp.Header
use blockchain.Cp.Evidence
use blockchain.Cp.Evidence.{Evidence}
use blockchain.Cp.Block.{Block}
use blockchain.Db.Schema.{hbyte}
use blockchain.Db.Keys.{
  Key, IsKey, encode, latest_height, header, hash_at, header_height, block, evidence,
}
use blockchain.Db.Badger.{Badger, BadgerLaws}
use blockchain.Db.Store.{put_block_tx, update_latest_height_tx}
use blockchain.Db.Writes.{Write, Wrote, Wrote-kept, Wrote-read}
use blockchain.Db.Held.{evds_writes, header_writes, put_block_tx-Wrote}
use blockchain.Db.Refinement.{IsStorable, Holds}
use blockchain.Db.Putting.{Holds-kept, own_length, key_lengths}
use blockchain.Db.Fresh.{Holds-fresh}

module _ (hash : Bytes → Bytes) (bd : Badger) where
  -- The blocks, the newest first, each at its height; the first block has the height 1.
  abbrev pub AllHeld : bd.Txn → List Block → Type 0
  AllHeld t [] = Unit {0}
  AllHeld t (b ∷ bs) = Holds hash bd t (length bs + 1) b × AllHeld t bs

  pub record Represents (t : bd.Txn) (bs : List Block) : Type 0 where
    pub latest : bd.get (encode latest_height) t ≡ ok (hbyte (length bs))
    pub held : AllHeld t bs

-- The blocks could all be stored, and there are not too many.
pub record IsLedger (hash : Bytes → Bytes) (ec : Btcec) (bs : List Block) : Type 0 where
  pub storable : All (IsStorable hash ec) bs
  pub few : length bs < 2 ^ 64

-- No block of the chain has this hash.
abbrev pub IsNewHash : (Bytes → Bytes) → Block → List Block → Type 0
IsNewHash hash b =
    All λ x. Header.get_serialized_hash hash x.header ≢ Header.get_serialized_hash hash b.header

module _ (hash : Bytes → Bytes) (hash_length : (x : Bytes) → length (hash x) ≡ 32) (ec : Btcec)
    (bd : Badger) (laws : BadgerLaws bd) where
  evidence_held_on :
      (t t' : bd.Txn) (v : Bytes) (h : ℕ) (es : List Evidence)
      → h < 2 ^ 64
      → All (λ e. (length e.hash ≡ 32) × (length e.pub_key ≡ 33)) es
      → Wrote bd ((latest_height, v) ∷ []) t t'
      → All (λ e. bd.get (encode (evidence h e.hash)) t ≡ ok (Evidence.marshal e)) es
      → All (λ e. bd.get (encode (evidence h e.hash)) t' ≡ ok (Evidence.marshal e)) es
  evidence_held_on t t' v h [] lt ks w hs = tt
  evidence_held_on t t' v h (e ∷ es) lt ((lh, lp), ks) w (x, hs) = (
    Wrote-kept bd laws (evidence h e.hash) ((latest_height, v) ∷ []) t t' (lt, lh) (tt, tt)
          (λ p. cc, tt) w
        ∙ x,
    evidence_held_on t t' v h es lt ks w hs,
  )

  -- A block is held on behind a write to the latest height.
  Holds-kept_latest :
      (t t' : bd.Txn) (v : Bytes) (h : ℕ) (b : Block)
      → h < 2 ^ 64
      → IsStorable hash ec b
      → Wrote bd ((latest_height, v) ∷ []) t t'
      → Holds hash bd t h b
      → Holds hash bd t' h b
  Holds-kept_latest t t' v h b lt st w hd =
      let on = λ (a : Key) (ka : IsKey a) (ne : a ≢ latest_height).
        Wrote-kept bd laws a ((latest_height, v) ∷ []) t t' ka (tt, tt) (ne, tt) w in
      let lo = own_length hash hash_length ec bd laws b in
      let k = Header.get_serialized_hash hash b.header in
      record {
        hash_held = on (hash_at h) lt (λ p. cc) ∙ hd.hash_held;
        header_held = on (header h k) (lt, lo) (λ p. cc) ∙ hd.header_held;
        height_held = on (header_height k) lo (λ p. cc) ∙ hd.height_held;
        block_held = λ full. on (block h k) (lt, lo) (λ p. cc) ∙ hd.block_held full;
        each_held =
            evidence_held_on t t' v h b.evds lt (key_lengths hash hash_length ec bd laws b st) w
              hd.each_held;
      }

  AllHeld-kept_latest :
      (t t' : bd.Txn) (v : Bytes) (bs : List Block)
      → length bs < 2 ^ 64
      → All (IsStorable hash ec) bs
      → Wrote bd ((latest_height, v) ∷ []) t t'
      → AllHeld hash bd t bs
      → AllHeld hash bd t' bs
  AllHeld-kept_latest t t' v [] lt sts w hd = tt
  AllHeld-kept_latest t t' v (b ∷ bs) lt (st, sts) w (h, hd) = (
    Holds-kept_latest t t' v (length bs + 1) b (omega arith) st w h,
    AllHeld-kept_latest t t' v bs (omega arith) sts w hd,
  )

  module _ (b : Block) (st : IsStorable hash ec b) (height : ℕ) (lt : height < 2 ^ 64) (n : ℕ)
      (t t' : bd.Txn) where
    abbrev writes : List Write
    writes =
        let k = Header.get_serialized_hash hash b.header in
        evds_writes k b height ++ header_writes k b height n

    -- The blocks at lower heights are held on behind the writes of a new block.
    AllHeld-kept :
        (bs : List Block)
        → length bs < height
        → All (IsStorable hash ec) bs
        → IsNewHash hash b bs
        → Wrote bd writes t t'
        → AllHeld hash bd t bs
        → AllHeld hash bd t' bs
    AllHeld-kept [] lower sts new w hd = tt
    AllHeld-kept (x ∷ bs) lower (s, sts) (ne, new) w (h, hd) = (
      Holds-kept hash hash_length ec bd laws b st height lt n t t' (length bs + 1) (omega arith) x s
          (λ p. omega arith) ne w h,
      AllHeld-kept bs (omega arith) sts new w hd,
    )

  -- The writes of `PutBlock`, where they are all made.
  pub stored_Represents :
      (b : Block) (bs : List Block) (t t1 t' : bd.Txn)
      → IsLedger hash ec (b ∷ bs)
      → IsNewHash hash b bs
      → AllHeld hash bd t bs
      → put_block_tx bd hash b (length bs + 1) t ≡ ok t1
      → update_latest_height_tx bd (length bs + 1) t1 ≡ ok t'
      → Represents hash bd t' (b ∷ bs)
  unfolding update_latest_height_tx encode
  stored_Represents b bs t t1 t' led new hd r1 r2 =
      let height = length bs + 1 in
      let lt : height < 2 ^ 64 = let few = led.few in omega arith in
      let (m, w, before) = put_block_tx-Wrote bd hash b height t t1 r1 in
      let n = (m + 1) % 2 ^ 64 in
      let fresh = Holds-fresh hash hash_length ec bd laws b led.storable.0 height lt n t t1 w in
      let on =
        AllHeld-kept b led.storable.0 height lt n t t1 bs (omega arith) led.storable.1 new w hd in
      let last : Wrote bd ((latest_height, hbyte height) ∷ []) t1 t' = (t', r2, refl) in
      record {
        latest =
            Wrote-read bd laws latest_height (hbyte height) [] t1 t' tt tt tt last
            ∙ ap (λ (m : ℕ). ok (hbyte m)) (let e : height ≡ length (b ∷ bs) = omega arith in e);
        held =
            AllHeld-kept_latest t1 t' (hbyte height) (b ∷ bs) led.few led.storable last (fresh, on);
      }
