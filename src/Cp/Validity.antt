-- ===== src/Cp/Validity.antt =====
-- What `Verify` of a header, an evidence and a block accepts, as conditions.
use blockchain.Common.{
  ◌≤◌, ◌≡◌, ◌↔◌, ◌⊎◌, arith, true, some, Bytes, List, [], ◌∷◌, All, length, Result, ok, err,
  equal_iff,
}
use blockchain.Cp.{
  Btcec, VerifyError, evidence_failed, header_failed, empty_evidence_root, hash_length,
  pub_key_length, core_protocol_v1, max_description_len,
}
use blockchain.Cp.Description.{rune_count, verify_description_iff}
use blockchain.Cp.Header
use blockchain.Cp.Header.{BlockHeader, slice}
use blockchain.Cp.Evidence
use blockchain.Cp.Evidence.{Evidence, get_sign_content_hash}
use blockchain.Cp.Block
use blockchain.Cp.Block.{Block, wrap, verify_each}

pub record IsValidHeader (b : BlockHeader) : Type 0 where
  pub version_ok : b.version ≡ core_protocol_v1
  pub last_hash_ok : length b.last_hash ≡ hash_length
  pub miner_ok : length b.miner ≡ pub_key_length
  pub root_there : b.evidence_root ≡ some (slice b.evidence_root)
  pub root_ok :
      (slice b.evidence_root ≡ empty_evidence_root) ⊎ (length (slice b.evidence_root) ≡ hash_length)

pub verify_header_iff : (b : BlockHeader) → (Header.verify b ≡ ok tt) ↔ IsValidHeader b
unfolding Header.verify
verify_header_iff b = ground (arith, equal_iff (slice b.evidence_root) empty_evidence_root)

module _ (hash : Bytes → Bytes) (ec : Btcec) where
  -- Some signature and key stand in the evidence, and the signature is of that key over the content.
  abbrev pub IsSigned : Evidence → Type 0
  IsSigned e =
      (s : ec.Signature) × (k : ec.PublicKey) × (ec.parse_signature e.sig ≡ some s)
      × (ec.parse_pub_key e.pub_key ≡ some k)
      × (ec.verify s (get_sign_content_hash hash e) k ≡ true)

  pub record IsValidEvidence (e : Evidence) : Type 0 where
    pub version_ok : e.version ≡ core_protocol_v1
    pub hash_ok : length e.hash ≡ hash_length
    pub pub_key_ok : length e.pub_key ≡ pub_key_length
    pub description_ok : rune_count e.description ≤ max_description_len
    pub signed : IsSigned e

  pub verify_evidence_iff : (e : Evidence) → (Evidence.verify hash ec e ≡ ok tt) ↔ IsValidEvidence e
  unfolding Evidence.verify
  verify_evidence_iff e = ground (arith, verify_description_iff e.description)

  wrap-eq-ok :
      (f : VerifyError → VerifyError) (r : Result VerifyError (Unit {0}))
      → (wrap f r ≡ ok tt) ↔ (r ≡ ok tt)
  wrap-eq-ok f (ok tt) = ground arith
  wrap-eq-ok f (err x) = ground arith

  pub verify_each_iff {ℓ} :
      {A : Type ℓ} {P : A → Type 0} (check : A → Result VerifyError (Unit {0}))
      → ((a : A) → (check a ≡ ok tt) ↔ P a)
      → (xs : List A) → (verify_each check xs ≡ ok tt) ↔ All P xs
  unfolding verify_each
  verify_each_iff check h [] = ground arith
  verify_each_iff check h (x ∷ xs) = ground (arith, h x, verify_each_iff check h xs)

  -- A valid header; evidence exactly where the root says so; and every evidence valid.
  pub record IsValidBlock (b : Block) : Type 0 where
    pub header_ok : IsValidHeader b.header
    pub evds_match : (slice b.header.evidence_root ≡ empty_evidence_root) ↔ (b.evds ≡ [])
    pub evds_ok : All IsValidEvidence b.evds

  -- `Block.Verify` returns no error exactly for the blocks that meet the conditions of `IsValidBlock`.
  pub verify_block_iff : (b : Block) → (Block.verify hash ec b ≡ ok tt) ↔ IsValidBlock b
  unfolding Block.verify
  verify_block_iff b = ground (
    arith,
    verify_header_iff b.header,
    wrap-eq-ok header_failed (Header.verify b.header),
    equal_iff (slice b.header.evidence_root) empty_evidence_root,
    verify_each_iff (λ e. wrap evidence_failed (Evidence.verify hash ec e)) each b.evds,
  )
    where
      each :
          (e : Evidence)
          → (wrap evidence_failed (Evidence.verify hash ec e) ≡ ok tt) ↔ IsValidEvidence e
      each e =
          ground
            (arith, wrap-eq-ok evidence_failed (Evidence.verify hash ec e), verify_evidence_iff e)
