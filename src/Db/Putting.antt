-- ===== src/Db/Putting.antt =====
-- `putBlockTX` of db/badger.go: the new block is held, and the blocks at other heights are held on.
use blockchain.Common.{
  ℕ, ◌<◌, ◌^◌, ◌≡◌, ◌≢◌, ap, ◌∙◌, Bytes, List, [], ◌∷◌, ◌++◌, All, All-append, All-map, length, ok,
  Bool-cases, inl, inr,
}
use blockchain.Cp.{Btcec}
use blockchain.Cp.Header
use blockchain.Cp.Header.{BlockHeader, is_empty_evidence_root, slice}
use blockchain.Cp.Evidence
use blockchain.Cp.Evidence.{Evidence}
use blockchain.Cp.Block.{Block}
use blockchain.Cp.Validity.{IsValidEvidence}
use blockchain.Db.Keys.{
  Key, IsKey, encode, header, block, evidence, hash_at, header_height, evidence_height,
  account_evidence,
}
use blockchain.Db.Badger.{Badger, BadgerLaws}
use blockchain.Db.Writes.{Write, AllKeys, Apart, Wrote, Wrote-kept}
use blockchain.Db.Held.{evidence_writes, evds_writes, header_writes}
use blockchain.Db.Refinement.{IsStorable, Holds}

-- A key that none of the writes for an evidence has.
abbrev pub ApartFrom : Key → ℕ → Evidence → Type 0
ApartFrom a height e =
    (a ≢ evidence height e.hash)
    × (a ≢ evidence_height e.hash)
    × (a ≢ account_evidence e.pub_key e.hash)

pub evidence_writes-Apart :
    (a : Key) (es : List Evidence) (height : ℕ)
    → All (ApartFrom a height) es
    → Apart a (evidence_writes es height)
unfolding evidence_writes
evidence_writes-Apart a [] height ap = tt
evidence_writes-Apart a (e ∷ es) height ((p, q, r), ap) =
    (p, (q, (r, evidence_writes-Apart a es height ap)))

pub evidence_writes-AllKeys :
    (es : List Evidence) (height : ℕ)
    → height < 2 ^ 64
    → All (λ e. (length e.hash ≡ 32) × (length e.pub_key ≡ 33)) es
    → AllKeys (evidence_writes es height)
unfolding evidence_writes
evidence_writes-AllKeys [] height lt ks = tt
evidence_writes-AllKeys (e ∷ es) height lt ((h, p), ks) =
    ((lt, h), (h, ((p, h), evidence_writes-AllKeys es height lt ks)))

pub All-any {ℓ} : {A : Type 0} (P : A → Type ℓ) (xs : List A) → ((a : A) → P a) → All P xs
All-any P [] f = tt
All-any P (x ∷ xs) f = (f x, All-any P xs f)

pub evds_writes-Apart :
    (a : Key) (k : Bytes) (b : Block) (height : ℕ)
    → All (ApartFrom a height) b.evds
    → a ≢ block height k
    → Apart a (evds_writes k b height)
unfolding evds_writes
evds_writes-Apart a k b height ap ne = elim (Bool-cases (is_empty_evidence_root b.header)) [
  | inl empty ↦ rw empty tt
  | inr full ↦ rw full (
      All-append (λ (w : Write). a ≢ w.0) (evidence_writes b.evds height) _
        (evidence_writes-Apart a b.evds height ap) (ne, tt))
]

pub evds_writes-AllKeys :
    (k : Bytes) (b : Block) (height : ℕ)
    → height < 2 ^ 64
    → length k ≡ 32
    → All (λ e. (length e.hash ≡ 32) × (length e.pub_key ≡ 33)) b.evds
    → AllKeys (evds_writes k b height)
unfolding evds_writes
evds_writes-AllKeys k b height lt lk ks = elim (Bool-cases (is_empty_evidence_root b.header)) [
  | inl empty ↦ rw empty tt
  | inr full ↦ rw full (
      All-append (λ (w : Write). IsKey w.0) (evidence_writes b.evds height) _
        (evidence_writes-AllKeys b.evds height lt ks) ((lt, lk), tt))
]

module _ (hash : Bytes → Bytes) (hash_length : (x : Bytes) → length (hash x) ≡ 32) (ec : Btcec)
    (bd : Badger) (laws : BadgerLaws bd) where
  pub key_lengths :
      (b : Block)
      → IsStorable hash ec b
      → All (λ e. (length e.hash ≡ 32) × (length e.pub_key ≡ 33)) b.evds
  key_lengths b st =
      All-map (IsValidEvidence hash ec) (λ e. (length e.hash ≡ 32) × (length e.pub_key ≡ 33)) b.evds
        (λ e v. (v.hash_ok, v.pub_key_ok)) st.valid.evds_ok

  pub own_length : (b : Block) → length (Header.get_serialized_hash hash b.header) ≡ 32
  unfolding Header.get_serialized_hash
  own_length b = hash_length (Header.marshal b.header)

  module _ (b : Block) (st : IsStorable hash ec b) (height : ℕ) (lt : height < 2 ^ 64) (n : ℕ)
      (t t' : bd.Txn) where
    abbrev own : Bytes
    own = Header.get_serialized_hash hash b.header

    abbrev writes : List Write
    writes = evds_writes own b height ++ header_writes own b height n

    pub header_writes-AllKeys : AllKeys (header_writes own b height n)
    header_writes-AllKeys =
        ((lt, own_length b), (lt, (own_length b, (st.valid.header_ok.miner_ok, tt))))

    writes-AllKeys : AllKeys writes
    writes-AllKeys =
        All-append (λ (w : Write). IsKey w.0) (evds_writes own b height)
          (header_writes own b height n)
          (evds_writes-AllKeys own b height lt (own_length b) (key_lengths b st))
          header_writes-AllKeys

    -- A key that no write of the block has reads as before.
    reads_on :
        (a : Key) (v : Bytes)
        → IsKey a
        → All (ApartFrom a height) b.evds
        → a ≢ block height own
        → Apart a (header_writes own b height n)
        → Wrote bd writes t t'
        → bd.get (encode a) t ≡ ok v
        → bd.get (encode a) t' ≡ ok v
    reads_on a v ka ap ne hp w e =
        Wrote-kept bd laws a writes t t' ka writes-AllKeys
          (All-append (λ (x : Write). a ≢ x.0) (evds_writes own b height)
            (header_writes own b height n) (evds_writes-Apart a own b height ap ne) hp)
          w
        ∙ e

    module _ (h' : ℕ) (lt' : h' < 2 ^ 64) (b' : Block) (st' : IsStorable hash ec b')
        (other : h' ≢ height) (apart : Header.get_serialized_hash hash b'.header ≢ own)
        (w : Wrote bd writes t t') where
      abbrev their : Bytes
      their = Header.get_serialized_hash hash b'.header

      evidence_on :
          (es : List Evidence)
          → All (λ e. (length e.hash ≡ 32) × (length e.pub_key ≡ 33)) es
          → All (λ e. bd.get (encode (evidence h' e.hash)) t ≡ ok (Evidence.marshal e)) es
          → All (λ e. bd.get (encode (evidence h' e.hash)) t' ≡ ok (Evidence.marshal e)) es
      evidence_on [] ks hs = tt
      evidence_on (e ∷ es) ((lh, lp), ks) (h, hs) = (
        reads_on (evidence h' e.hash) (Evidence.marshal e) (lt', lh)
            (All-any (ApartFrom (evidence h' e.hash) height) b.evds
              (λ x. (λ p. other (cc), λ p. cc, λ p. cc)))
            (λ p. cc) (λ p. cc, (λ p. cc, (λ p. cc, (λ p. cc, tt)))) w h,
        evidence_on es ks hs,
      )

      pub Holds-kept : Holds hash bd t h' b' → Holds hash bd t' h' b'
      Holds-kept h = record {
        hash_held =
            reads_on (hash_at h') _ lt'
              (All-any (ApartFrom (hash_at h') height) b.evds (λ x. (λ p. cc, λ p. cc, λ p. cc)))
              (λ p. cc) (λ p. cc, (λ p. other (cc), (λ p. cc, (λ p. cc, tt)))) w h.hash_held;
        header_held =
            reads_on (header h' their) _ (lt', own_length b')
              (All-any (ApartFrom (header h' their) height) b.evds
                (λ x. (λ p. cc, λ p. cc, λ p. cc)))
              (λ p. cc) (λ p. other (cc), (λ p. cc, (λ p. cc, (λ p. cc, tt)))) w h.header_held;
        height_held =
            reads_on (header_height their) _ (own_length b')
              (All-any (ApartFrom (header_height their) height) b.evds
                (λ x. (λ p. cc, λ p. cc, λ p. cc)))
              (λ p. cc) (λ p. cc, (λ p. cc, (λ p. apart (cc), (λ p. cc, tt)))) w h.height_held;
        block_held = λ full.
            reads_on (block h' their) _ (lt', own_length b')
              (All-any (ApartFrom (block h' their) height) b.evds
                (λ x. (λ p. cc, λ p. cc, λ p. cc)))
              (λ p. other (cc)) (λ p. cc, (λ p. cc, (λ p. cc, (λ p. cc, tt)))) w
              (h.block_held full);
        each_held = evidence_on b'.evds (key_lengths b' st') h.each_held;
      }
