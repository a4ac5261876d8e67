-- ===== src/Db/Refinement.antt =====
-- What the database holds of a block of the chain, and what `GetBlockViaHeight` and `GetBlockViaHash`
-- of db/badger.go read of that.
use blockchain.Common.{
  ℕ, suc, ◌<◌, ◌^◌, ◌≡◌, ◌≢◌, refl, sym, ap, ◌∙◌, arith, false, some, Bytes, List, [], ◌∷◌,
  append-nil, map, All, length, ok, equal_iff, Bool-cases, inl, inr,
}
use blockchain.Wire.{Reader}
use blockchain.Wire.Reads.{Reads}
use blockchain.Wire.Parses.{Below, IsList16}
use blockchain.Cp.{Btcec, empty_evidence_root}
use blockchain.Cp.Header
use blockchain.Cp.Header.{BlockHeader, is_empty_evidence_root, slice}
use blockchain.Cp.Evidence
use blockchain.Cp.Evidence.{Evidence}
use blockchain.Cp.Block
use blockchain.Cp.Block.{Block}
use blockchain.Cp.Validity.{IsValidBlock}
use blockchain.Storage.Header as StorageHeader
use blockchain.Storage.Header.{StoredHeader}
use blockchain.Storage.Block as StorageBlock
use blockchain.Db.Schema.{hbyte, byteh}
use blockchain.Db.Keys.{encode, header, block, evidence, hash_at, header_height, byteh-hbyte}
use blockchain.Db.Badger.{Badger, wrap_error}
use blockchain.Db.Store.{
  read_value, stored_header, stored_block, get_hash, get_header, get_header_height, get_block,
  get_evidence, get_each_evidence, get_cp_block, get_block_via_height, get_block_via_hash,
}

-- No two evidences have the same hash.
abbrev pub AreDistinct : List Evidence → Type 0
AreDistinct [] = Unit {0}
AreDistinct (e ∷ es) = All (λ x. e.hash ≢ x.hash) es × AreDistinct es

-- A block that `Verify` accepts, of which every part fits its width, and whose evidence is distinct.
pub record IsStorable (hash : Bytes → Bytes) (ec : Btcec) (b : Block) : Type 0 where
  pub fits : Block.Fits b
  pub valid : IsValidBlock hash ec b
  pub distinct : AreDistinct b.evds

pub read_value-marshal {ℓ} :
    {A : Type ℓ} (p : Reader A) (bs : Bytes) (a : A) → Reads p bs a → read_value p bs ≡ ok a
unfolding read_value
read_value-marshal p bs a r =
    let e : p bs ≡ ok (a, []) = rw (append-nil bs) at (r.run []) in rw (e, read_value)

pub stored_header-same :
    (h : BlockHeader) (height : ℕ)
    → Header.Fits h
    → stored_header h height ≡ record { header = h; height = height }
stored_header-same h height f = elim (Bool-cases (is_empty_evidence_root h)) [
  | inl empty ↦
      let e : h.evidence_root ≡ some empty_evidence_root =
        f.root_there ∙ ap some ((equal_iff (slice h.evidence_root) empty_evidence_root).0 empty) in
      rw (empty, ← e)
  | inr full ↦ rw full
]

length-hashes : (es : List Evidence) → length (map (λ e. e.hash) es) ≡ length es
length-hashes [] = refl
length-hashes (e ∷ es) = ap suc (length-hashes es)

hashes_fit : (es : List Evidence) → All Evidence.Fits es → All (Below 256) (map (λ e. e.hash) es)
hashes_fit [] fs = tt
hashes_fit (e ∷ es) (f, fs) = (f.hash_fits, hashes_fit es fs)

hashes-IsList16 :
    (es : List Evidence) → IsList16 Evidence.Fits es → IsList16 (Below 256) (map (λ e. e.hash) es)
hashes-IsList16 es (short, fs) = (omega (arith, length-hashes es), hashes_fit es fs)

module _ (hash : Bytes → Bytes) (bd : Badger) where
  -- The values that stand for a block at a height.
  pub record Holds (t : bd.Txn) (height : ℕ) (b : Block) : Type 0 where
    pub hash_held :
        bd.get (encode (hash_at height)) t ≡ ok (Header.get_serialized_hash hash b.header)
    pub header_held :
        bd.get (encode (header height (Header.get_serialized_hash hash b.header))) t
        ≡ ok (StorageHeader.marshal (stored_header b.header height))
    pub height_held :
        bd.get (encode (header_height (Header.get_serialized_hash hash b.header))) t
        ≡ ok (hbyte height)
    pub block_held :
        is_empty_evidence_root b.header ≡ false
        → bd.get (encode (block height (Header.get_serialized_hash hash b.header))) t
          ≡ ok (StorageBlock.marshal (stored_block b.evds))
    pub each_held :
        All (λ e. bd.get (encode (evidence height e.hash)) t ≡ ok (Evidence.marshal e)) b.evds

  get_each_evidence-Holds :
      (es : List Evidence) (height : ℕ) (t : bd.Txn)
      → All Evidence.Fits es
      → All (λ e. bd.get (encode (evidence height e.hash)) t ≡ ok (Evidence.marshal e)) es
      → get_each_evidence bd (map (λ e. e.hash) es) height t ≡ ok es
  unfolding get_each_evidence get_evidence wrap_error encode
  get_each_evidence-Holds [] height t fs hs = refl
  get_each_evidence-Holds (e ∷ es) height t (f, fs) (h, hs) = rw (
    h,
    read_value-marshal Evidence.unmarshal _ e (Evidence.Reads-evidence e f),
    get_each_evidence-Holds es height t fs hs,
  )

  module _ (ec : Btcec) (t : bd.Txn) (height : ℕ) (b : Block) (lt : height < 2 ^ 64)
      (st : IsStorable hash ec b) (h : Holds t height b) where
    abbrev own_hash : Bytes
    own_hash = Header.get_serialized_hash hash b.header

    pub get_header-Holds :
        get_header bd height own_hash t ≡ ok (record { header = b.header; height = height })
    unfolding get_header wrap_error encode
    get_header-Holds =
        let fits = st.fits.header_fits in
        let sh : StoredHeader = record { header = b.header; height = height } in
        let read =
          read_value-marshal StorageHeader.unmarshal (StorageHeader.marshal sh) sh (
            StorageHeader.Reads-stored_header sh (record { header_fits = fits; height_lt = lt })) in
        rw (h.header_held, stored_header-same b.header height fits, read)

    get_block-Holds :
        is_empty_evidence_root b.header ≡ false
        → get_block bd height own_hash t ≡ ok (stored_block b.evds)
    unfolding get_block wrap_error encode
    get_block-Holds full =
        let sb = stored_block b.evds in
        let read = read_value-marshal StorageBlock.unmarshal (StorageBlock.marshal sb) sb (
          StorageBlock.Reads-stored_block sb
            (record { evds_hash_fits = hashes-IsList16 b.evds st.fits.evds_fits })) in
        rw (h.block_held full, read)

    get_cp_block-Holds : get_cp_block bd height own_hash t ≡ ok b
    unfolding get_cp_block
    get_cp_block-Holds = elim (Bool-cases (is_empty_evidence_root b.header)) [
      | inl empty ↦
          let e : b.evds ≡ [] =
            st.valid.evds_match.0
              ((equal_iff (slice b.header.evidence_root) empty_evidence_root).0 empty) in
          rw (get_header-Holds, empty)
            (ap (λ es. ok (record { header = b.header; evds = es })) (sym e))
      | inr full ↦ rw (
        get_header-Holds,
        full,
        get_block-Holds full,
        get_each_evidence-Holds b.evds height t st.fits.evds_fits.1 h.each_held,
      )
    ]

    pub get_block_via_height-Holds : get_block_via_height bd height t ≡ ok (b, own_hash)
    unfolding get_block_via_height get_hash wrap_error encode
    get_block_via_height-Holds = rw (h.hash_held, get_cp_block-Holds)

    pub get_block_via_hash-Holds : get_block_via_hash bd own_hash t ≡ ok (b, height)
    unfolding get_block_via_hash get_header_height wrap_error encode
    get_block_via_hash-Holds =
        let e : byteh (hbyte height) ≡ height =
          ap byteh (sym (append-nil (hbyte height))) ∙ byteh-hbyte height [] lt in
        rw (h.height_held, e, get_cp_block-Holds)
