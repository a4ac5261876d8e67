-- ===== src/Db/Fresh.antt =====
-- `putBlockTX` of db/badger.go: the new block is held.
use blockchain.Common.{
  ℕ, ◌<◌, ◌^◌, ◌≡◌, ◌≢◌, refl, subst, arith, false, Bytes, List, [], ◌∷◌, ◌++◌, append_assoc, All,
  All-append, All-map, length, ok, equal_iff, Bool-cases, inl, inr,
}
use blockchain.Cp.{Btcec, empty_evidence_root}
use blockchain.Cp.Header
use blockchain.Cp.Header.{BlockHeader, is_empty_evidence_root, slice}
use blockchain.Cp.Evidence
use blockchain.Cp.Evidence.{Evidence}
use blockchain.Cp.Block.{Block}
use blockchain.Storage.Block as StorageBlock
use blockchain.Db.Schema.{hbyte}
use blockchain.Db.Keys.{
  Key, IsKey, encode, header, block, evidence, hash_at, header_height, evidence_height,
  account_evidence,
}
use blockchain.Db.Badger.{Badger, BadgerLaws}
use blockchain.Db.Store.{stored_block}
use blockchain.Db.Writes.{Write, AllKeys, Apart, Wrote, Wrote-read}
use blockchain.Db.Held.{evidence_writes, evds_writes, header_writes}
use blockchain.Db.Refinement.{AreDistinct, IsStorable, Holds}
use blockchain.Db.Putting.{
  ApartFrom, key_lengths, own_length, header_writes-AllKeys, evidence_writes-Apart,
  evidence_writes-AllKeys,
}

-- The keys of an evidence.
abbrev OfEvidence : ℕ → Evidence → (Key → Type 0) → Type 0
OfEvidence height e P =
    P (evidence height e.hash) × P (evidence_height e.hash) × P (account_evidence e.pub_key e.hash)

-- Another hash is another key.
ApartFrom-distinct :
    (e : Evidence) (es : List Evidence) (height : ℕ)
    → All (λ x. e.hash ≢ x.hash) es
    → OfEvidence height e (λ a. All (ApartFrom a height) es)
ApartFrom-distinct e [] height ds = (tt, tt, tt)
ApartFrom-distinct e (x ∷ xs) height (d, ds) =
    let (p, q, r) = ApartFrom-distinct e xs height ds in
    (
      ((λ s. d (cc), λ s. cc, λ s. cc), p),
      ((λ s. cc, λ s. d (cc), λ s. cc), q),
      ((λ s. cc, λ s. cc, λ s. d (cc)), r),
    )

module _ (bd : Badger) where
  pub Wrote-split :
      (ws vs : List Write) (t t' : bd.Txn)
      → Wrote bd (ws ++ vs) t t'
      → (u : bd.Txn) × Wrote bd ws t u × Wrote bd vs u t'
  Wrote-split [] vs t t' w = (t, refl, w)
  Wrote-split ((a, v) ∷ ws) vs t t' (m, e, w) =
      let (u, first, second) = Wrote-split ws vs m t' w in (u, (m, e, first), second)

  -- An evidence is there, with the height under its hash and under its account.
  abbrev pub IsRead : ℕ → bd.Txn → Evidence → Type 0
  IsRead height t e =
      (bd.get (encode (evidence height e.hash)) t ≡ ok (Evidence.marshal e))
      × (bd.get (encode (evidence_height e.hash)) t ≡ ok (hbyte height))
      × (bd.get (encode (account_evidence e.pub_key e.hash)) t ≡ ok (hbyte height))

  -- The evidence reads back behind writes to no evidence.
  evidence-IsRead :
      BadgerLaws bd
      → (es : List Evidence) (height : ℕ) (vs : List Write) (t t' : bd.Txn) → height < 2 ^ 64
      → All (λ e. (length e.hash ≡ 32) × (length e.pub_key ≡ 33)) es
      → AreDistinct es
      → AllKeys vs
      → ((e : Evidence) → OfEvidence height e (λ a. Apart a vs))
      → Wrote bd (evidence_writes es height ++ vs) t t'
      → All (IsRead height t') es
  unfolding evidence_writes
  evidence-IsRead laws [] height vs t t' lt ks ds kv away_kv w = tt
  evidence-IsRead laws (e ∷ es) height vs t t' lt ((lh, lp), ks) (d, ds) kv away_kv (u, r, w) =
      let (u1, r1, w1) = w in
      let (u2, r2, w2) = w1 in
      let behind : List Write = evidence_writes es height ++ vs in
      let keys : AllKeys behind =
        All-append (λ (x : Write). IsKey x.0) (evidence_writes es height) vs
          (evidence_writes-AllKeys es height lt ks) kv in
      let away = λ (a : Key) (ap : All (ApartFrom a height) es) (av : Apart a vs).
        All-append (λ (x : Write). a ≢ x.0) (evidence_writes es height) vs
          (evidence_writes-Apart a es height ap) av in
      let (p, q, s) = ApartFrom-distinct e es height d in
      let (p', q', s') = away_kv e in
      let account : Write = (account_evidence e.pub_key e.hash, hbyte height) in
      (
        (
          Wrote-read bd laws (evidence height e.hash) (Evidence.marshal e)
              ((evidence_height e.hash, hbyte height) ∷ account ∷ behind) t t' (lt, lh)
              (lh, ((lp, lh), keys)) (λ x. cc, (λ x. cc, away _ p p')) (u, r, w),
          Wrote-read bd laws (evidence_height e.hash) (hbyte height) (account ∷ behind) u t' lh
              ((lp, lh), keys) (λ x. cc, away _ q q') w,
          Wrote-read bd laws (account_evidence e.pub_key e.hash) (hbyte height) behind u1 t'
              (lp, lh) keys (away _ s s') w1,
        ),
        evidence-IsRead laws es height vs u2 t' lt ks ds kv away_kv w2,
      )

module _ (hash : Bytes → Bytes) (hash_length : (x : Bytes) → length (hash x) ≡ 32) (ec : Btcec)
    (bd : Badger) (laws : BadgerLaws bd) (b : Block) (st : IsStorable hash ec b) (height : ℕ)
    (lt : height < 2 ^ 64) (n : ℕ) (t t' : bd.Txn) where
  abbrev own : Bytes
  own = Header.get_serialized_hash hash b.header

  abbrev hw : List Write
  hw = header_writes own b height n

  abbrev hw-AllKeys : AllKeys hw
  hw-AllKeys = header_writes-AllKeys hash hash_length ec bd laws b st height lt n t t'

  abbrev EvdsHeld : Type 0
  EvdsHeld =
      (is_empty_evidence_root b.header ≡ false
        → bd.get (encode (block height own)) t' ≡ ok (StorageBlock.marshal (stored_block b.evds)))
      × All (IsRead bd height t') b.evds

  full_writes :
      is_empty_evidence_root b.header ≡ false
      → evds_writes own b height
        ≡ evidence_writes b.evds height
          ++ ((block height own, StorageBlock.marshal (stored_block b.evds)) ∷ [])
  unfolding evds_writes
  full_writes full = rw full

  pub evds_held : Wrote bd (evds_writes own b height ++ hw) t t' → EvdsHeld
  evds_held w = elim (Bool-cases (is_empty_evidence_root b.header)) [
    | inl empty ↦
        let e : b.evds ≡ [] =
          st.valid.evds_match.0
            ((equal_iff (slice b.header.evidence_root) empty_evidence_root).0 empty) in
        (λ full. absurd (ground arith), rw e tt)
    | inr full ↦
        let write : Write = (block height own, StorageBlock.marshal (stored_block b.evds)) in
        let w1 : Wrote bd ((evidence_writes b.evds height ++ (write ∷ [])) ++ hw) t t' =
          subst (λ ws. Wrote bd (ws ++ hw) t t') (full_writes full) w in
        let w2 : Wrote bd (evidence_writes b.evds height ++ (write ∷ hw)) t t' =
          subst (λ ws. Wrote bd ws t t')
            (append_assoc (evidence_writes b.evds height) (write ∷ []) hw) w1 in
        let (u, first, second) =
          Wrote-split bd (evidence_writes b.evds height) (write ∷ hw) t t' w2 in
        (
          λ f.
              Wrote-read bd laws (block height own) _ hw u t'
                (lt, own_length hash hash_length ec bd laws b) hw-AllKeys
                (λ p. cc, (λ p. cc, (λ p. cc, (λ p. cc, tt)))) second,
          evidence-IsRead bd laws b.evds height (write ∷ hw) t t' lt
              (key_lengths hash hash_length ec bd laws b st) st.distinct
              ((lt, own_length hash hash_length ec bd laws b), hw-AllKeys)
              (λ e. (
                (λ p. cc, (λ p. cc, (λ p. cc, (λ p. cc, (λ p. cc, tt))))),
                (λ p. cc, (λ p. cc, (λ p. cc, (λ p. cc, (λ p. cc, tt))))),
                (λ p. cc, (λ p. cc, (λ p. cc, (λ p. cc, (λ p. cc, tt))))),
              ))
              w2,
        )
  ]

  pub Holds-fresh : Wrote bd (evds_writes own b height ++ hw) t t' → Holds hash bd t' height b
  Holds-fresh w =
      let (u, evds, second) = Wrote-split bd (evds_writes own b height) hw t t' w in
      let (u1, r1, w1) = second in
      let (u2, r2, w2) = w1 in
      let (u3, r3, w3) = w2 in
      let (block_read, each_read) = evds_held w in
      let lo = own_length hash hash_length ec bd laws b in
      let ks = hw-AllKeys in
      record {
        hash_held =
            Wrote-read bd laws (hash_at height) own (_ ∷ _ ∷ []) u1 t' lt ks.1.1
              (λ p. cc, (λ p. cc, tt)) w1;
        header_held =
            Wrote-read bd laws (header height own) _ (_ ∷ _ ∷ _ ∷ []) u t' (lt, lo) ks.1
              (λ p. cc, (λ p. cc, (λ p. cc, tt))) second;
        height_held =
            Wrote-read bd laws (header_height own) (hbyte height) (_ ∷ []) u2 t' lo ks.1.1.1
              (λ p. cc, tt) w2;
        block_held = block_read;
        each_held = All-map (IsRead bd height t') _ b.evds (λ e r. r.0) each_read;
      }
