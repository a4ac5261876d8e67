-- ===== src/Db/Recorded.antt =====
-- What `putBlockTX` and `PutGenesis` of db/badger.go record beside the block itself: where its
-- evidence is, under the hash and the account, the score of its miner, and that there is a genesis.
use blockchain.Common.{
  ℕ, ◌+◌, ◌%◌, ◌<◌, ◌^◌, ◌≡◌, ◌≢◌, ◌⊎◌, refl, sym, ap, ◌∙◌, Bytes, List, [], ◌∷◌, ◌++◌, All,
  All-append, length, Result, ok, err, inl, inr,
}
use blockchain.Cp.{Btcec}
use blockchain.Cp.Header
use blockchain.Cp.Evidence.{Evidence}
use blockchain.Cp.Block.{Block}
use blockchain.Db.Schema.{hbyte, byteh}
use blockchain.Db.Keys.{
  Key, IsKey, encode, latest_height, genesis, block, evidence, evidence_height, score,
  account_evidence,
}
use blockchain.Db.Badger.{Badger, BadgerError, key_not_found, failed, BadgerLaws}
use blockchain.Db.Store.{origin, put_block_tx, update_latest_height_tx}
use blockchain.Db.Writes.{Write, Apart, Wrote, Wrote-kept, Wrote-read}
use blockchain.Db.Held.{evds_writes, placing_writes, header_writes, put_block_tx-Wrote}
use blockchain.Db.Refinement.{IsStorable}
use blockchain.Db.Putting.{
  ApartFrom, All-any, evds_writes-Apart, evds_writes-AllKeys, header_writes-AllKeys, key_lengths,
  own_length,
}
use blockchain.Db.Fresh.{Wrote-split, IsRead, evds_held}

module _ (bd : Badger) where
  -- The miner had this score; none is 0.
  abbrev pub HadScore : bd.Txn → Bytes → ℕ → Type 0
  HadScore t miner n =
      ((bd.get (encode (score miner)) t ≡ err key_not_found) × (n ≡ 0))
      ⊎ ((v : Bytes) × (bd.get (encode (score miner)) t ≡ ok v) × (byteh v ≡ n))

  -- The evidence of the block is there, with the height under its hash and its account, and the
  -- score of the miner went up by one, in 64 bits.
  pub record IsRecorded (t t' : bd.Txn) (height : ℕ) (b : Block) : Type 0 where
    pub each_read : All (IsRead bd height t') b.evds
    pub old : ℕ
    pub before : HadScore t b.header.miner old
    pub after : bd.get (encode (score b.header.miner)) t' ≡ ok (hbyte ((old + 1) % 2 ^ 64))

origin-cases :
    (r : Result BadgerError Bytes) (n : ℕ)
    → origin r ≡ ok n
    → ((r ≡ err key_not_found) × (n ≡ 0)) ⊎ ((v : Bytes) × (r ≡ ok v) × (byteh v ≡ n))
origin-cases (ok v) n e = inr (v, refl, cc)
origin-cases (err key_not_found) n e = inl (refl, cc)
origin-cases (err failed) n e = cc

module _ (hash : Bytes → Bytes) (hash_length : (x : Bytes) → length (hash x) ≡ 32) (ec : Btcec)
    (bd : Badger) (laws : BadgerLaws bd) (b : Block) (st : IsStorable hash ec b) (height : ℕ)
    (lt : height < 2 ^ 64) where
  abbrev own : Bytes
  own = Header.get_serialized_hash hash b.header

  -- What none of the writes for evidence changes.
  evds_kept :
      (a : Key) (t t' : bd.Txn) (vs : List Write)
      → IsKey a
      → All (ApartFrom a height) b.evds
      → a ≢ block height own
      → All (λ (x, v). IsKey x) vs
      → Apart a vs
      → Wrote bd (evds_writes own b height ++ vs) t t'
      → bd.get (encode a) t' ≡ bd.get (encode a) t
  evds_kept a t t' vs ka ap ne kv av w =
      Wrote-kept bd laws a (evds_writes own b height ++ vs) t t' ka
        (All-append (λ (x : Write). IsKey x.0) (evds_writes own b height) vs
          (evds_writes-AllKeys own b height lt (own_length hash hash_length ec bd laws b)
            (key_lengths hash hash_length ec bd laws b st))
          kv)
        (All-append (λ (x : Write). a ≢ x.0) (evds_writes own b height) vs
          (evds_writes-Apart a own b height ap ne) av)
        w

  module _ (t t1 t' : bd.Txn) (r1 : put_block_tx bd hash b height t ≡ ok t1)
      (r2 : update_latest_height_tx bd height t1 ≡ ok t') where
    last_kept :
        (a : Key) → IsKey a → a ≢ latest_height → bd.get (encode a) t' ≡ bd.get (encode a) t1
    unfolding update_latest_height_tx encode
    last_kept a ka ne =
        Wrote-kept bd laws a ((latest_height, hbyte height) ∷ []) t1 t' ka (tt, tt) (ne, tt)
          (t', r2, refl)

    evidence_kept :
        (es : List Evidence)
        → All (λ e. (length e.hash ≡ 32) × (length e.pub_key ≡ 33)) es
        → All (IsRead bd height t1) es
        → All (IsRead bd height t') es
    evidence_kept [] ks rs = tt
    evidence_kept (e ∷ es) ((lh, lp), ks) ((p, q, r), rs) = (
      (
        last_kept (evidence height e.hash) (lt, lh) (λ x. cc) ∙ p,
        last_kept (evidence_height e.hash) lh (λ x. cc) ∙ q,
        last_kept (account_evidence e.pub_key e.hash) (lp, lh) (λ x. cc) ∙ r,
      ),
      evidence_kept es ks rs,
    )

    pub stored_IsRecorded : IsRecorded bd t t' height b
    stored_IsRecorded =
        let (m, w, (u, wu, o)) = put_block_tx-Wrote bd hash b height t t1 r1 in
        let n = (m + 1) % 2 ^ 64 in
        let a : Key = score b.header.miner in
        let ka = st.valid.header_ok.miner_ok in
        let lo = own_length hash hash_length ec bd laws b in
        let apart = All-any (ApartFrom a height) b.evds (λ x. (λ p. cc, λ p. cc, λ p. cc)) in
        let kept =
          evds_kept a t u (placing_writes own b height) ka apart (λ p. cc)
            ((lt, lo), (lt, (lo, tt))) (λ p. cc, (λ p. cc, (λ p. cc, tt))) wu in
        let (u0, w0, (u1, s1, (u2, s2, (u3, s3, w4)))) =
          Wrote-split bd (evds_writes own b height) (header_writes own b height n) t t1 w in
        let evds = (evds_held hash hash_length ec bd laws b st height lt n t t1 w).1 in
        record {
          each_read = evidence_kept b.evds (key_lengths hash hash_length ec bd laws b st) evds;
          old = m;
          before = origin-cases _ m (ap origin (sym kept) ∙ o);
          after = last_kept a ka (λ p. cc) ∙ Wrote-read bd laws a (hbyte n) [] _ t1 ka tt tt w4;
        }

    -- The genesis that was there is kept.
    pub genesis_kept : bd.get (encode genesis) t' ≡ bd.get (encode genesis) t
    genesis_kept =
        let (m, w, (u, wu, o)) = put_block_tx-Wrote bd hash b height t t1 r1 in
        let apart = All-any (ApartFrom genesis height) b.evds (λ x. (λ p. cc, λ p. cc, λ p. cc)) in
        last_kept genesis tt (λ p. cc)
        ∙ evds_kept genesis t t1 (header_writes own b height ((m + 1) % 2 ^ 64)) tt apart (λ p. cc)
            (header_writes-AllKeys hash hash_length ec bd laws b st height lt ((m + 1) % 2 ^ 64) t
              t1)
            (λ p. cc, (λ p. cc, (λ p. cc, (λ p. cc, tt)))) w
