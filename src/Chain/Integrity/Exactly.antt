-- ===== src/Chain/Integrity/Exactly.antt =====
-- The conditions that `verifyBlock` of core/blockchain/branch.go stands for.
use blockchain.Common.{
  ◌*◌, ◌<◌, ◌≡◌, ◌↔◌, ◌⊎◌, refl, sym, arith, Bool, true, false, none, Bytes, List, [], ◌∷◌, map,
  All, ok, equal_iff,
}
use blockchain.Common.Int.{ℤ, pos, ltb_ℤ}
use blockchain.Cp.Header.{slice, is_empty_evidence_root}
use blockchain.Cp.Evidence
use blockchain.Cp.Evidence.{Evidence}
use blockchain.Cp.Block.{Block}
use blockchain.Cp.Validity.{IsValidEvidence, verify_block_iff, verify_evidence_iff}
use blockchain.Merkle.{compute_root}
use blockchain.Chain.Blocks.{Heap, time}
use blockchain.Chain.Branch
use blockchain.Chain.Branch.{Branch, get_evidence}
use blockchain.Chain.Target.{second, sub_time, unix}
use blockchain.Chain.Verify.{
  Setting, verify_block, verify_evidence, verify_evds, pow_check, verify_root, root_or_nil,
}
use blockchain.Chain.Integrity.Accepted.{IsAccepted, verify_block-IsAccepted}

module _ (s : Setting) (has : Bytes → Bool) where
  -- Evidence that is valid in itself, has the proof of work, and is not known to the branch or to the database.
  pub record IsFresh (b : Branch) (e : Evidence) : Type 0 where
    pub valid : IsValidEvidence s.hash s.ec e
    pub worked : Evidence.get_pow s.hash e < s.params.evidence_difficulty_limit
    pub not_cached : get_evidence e.hash b ≡ none
    pub not_stored : has e.hash ≡ false

  verify_evidence-IsFresh :
      (b : Branch) (e : Evidence) → verify_evidence s has b e ≡ ok tt → IsFresh b e
  unfolding verify_evidence pow_check
  verify_evidence-IsFresh b e h = ground (arith, verify_evidence_iff s.hash s.ec e)

  IsFresh-verify_evidence :
      (b : Branch) (e : Evidence) → IsFresh b e → verify_evidence s has b e ≡ ok tt
  unfolding verify_evidence pow_check
  IsFresh-verify_evidence b e f =
      ground
        (arith, verify_evidence_iff s.hash s.ec e, f.valid, f.worked, f.not_cached, f.not_stored)

  verify_evds-IsFresh :
      (b : Branch) (es : List Evidence) → verify_evds s has b es ≡ ok tt ↔ All (IsFresh b) es
  unfolding verify_evds
  verify_evds-IsFresh b [] = (λ _. tt, λ _. refl)
  verify_evds-IsFresh b (e ∷ es) = (
    λ h. ground (arith, verify_evidence-IsFresh b e, verify_evds-IsFresh b es),
    λ (f, fs). ground (arith, IsFresh-verify_evidence b e f, verify_evds-IsFresh b es),
  )

  -- The header says that there is no evidence, or all evidence is fresh and the header has its root.
  abbrev pub IsRooted : Branch → Block → Type 0
  IsRooted b cb =
      (is_empty_evidence_root cb.header ≡ true)
      ⊎ (All (IsFresh b) cb.evds
          × (root_or_nil (compute_root s.hash (map (Evidence.get_serialized_hash s.hash) cb.evds))
              ≡ slice cb.header.evidence_root))

  verify_root-IsRooted :
      (b : Branch) (cb : Block) → (verify_root s has b cb ≡ ok tt) ↔ IsRooted b cb
  unfolding verify_root
  verify_root-IsRooted b cb =
      let root =
        root_or_nil (compute_root s.hash (map (Evidence.get_serialized_hash s.hash) cb.evds)) in
      ground (arith, verify_evds-IsFresh b cb.evds, equal_iff root (slice cb.header.evidence_root))

  module _ (now : ℤ) (h : Heap) (b : Branch) (cb : Block) where
    abbrev pub IsTooEarly : Type 0
    IsTooEarly = ltb_ℤ (pos (3 * second)) (sub_time (unix cb.header.time) now) ≡ true

    accepted_so : verify_block s has now h b cb ≡ ok tt → (¬ IsTooEarly) × IsRooted b cb
    unfolding verify_block
    accepted_so e =
        let root = verify_root-IsRooted b cb in (λ early. ground arith, ground (arith, root.0))

    so_accepted :
        IsAccepted s h b cb → ¬ IsTooEarly → IsRooted b cb → verify_block s has now h b cb ≡ ok tt
    unfolding verify_block pow_check
    so_accepted a soon rooted =
        let root = (verify_root-IsRooted b cb).1 rooted in
        let well = (verify_block_iff s.hash s.ec cb).1 a.valid in
        let not_older : ltb_ℤ cb.header.time (time (h.node b.head)) ≡ false =
          let older = a.not_older in ground arith in
        let same = (equal_iff (Branch.hash b h) cb.header.last_hash).1 (sym a.last_hash_is) in
        ground (arith, root, well, not_older, same, a.target_is, a.worked)

    -- `verifyBlock` accepts a block on a branch exactly where the block is valid in itself, is not older
    -- than the head, has the target that `nextBlockTarget` expects, names the hash of the head and has
    -- the proof of work of its target; the clock does not stand more than three seconds before its time;
    -- and it says that it has no evidence, or all its evidence is fresh and it has the Merkle root of it.
    pub verify_block_exactly :
        (verify_block s has now h b cb ≡ ok tt)
        ↔ (IsAccepted s h b cb × (¬ IsTooEarly) × IsRooted b cb)
    verify_block_exactly = (
      λ e.
          let (soon, rooted) = accepted_so e in
          (verify_block-IsAccepted s has now h b cb e, soon, rooted),
      λ (a, soon, rooted). so_accepted a soon rooted,
    )
