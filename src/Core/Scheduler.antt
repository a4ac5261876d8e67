-- ===== src/Core/Scheduler.antt =====
-- core/scheduler.go: the block that is to be mined next, and that `verifyBlock` will take its evidence.
use mathlib.Core.List.{Permᴰ}
use blockchain.Common.{
  ℕ, ◌+◌, ◌≡◌, refl, sym, subst, Bool, true, false, Bytes, List, [], ◌∷◌, map, All, ltb, equal,
  equal_iff, if◌then◌else◌, Result, ok, err, Bool-cases, Result-cases, inl, inr,
}
use blockchain.Common.Int.{ℤ}
use blockchain.Cp.{empty_evidence_root}
use blockchain.Cp.Header.{new_header, is_empty_evidence_root}
use blockchain.Cp.Evidence
use blockchain.Cp.Evidence.{Evidence}
use blockchain.Cp.Block.{Block}
use blockchain.Merkle.{compute_root}
use blockchain.EvidencePool.{Pool}
use blockchain.Chain.Maps.{Map, store}
use blockchain.Chain.Branch.{Branch}
use blockchain.Chain.Verify.{Setting, root_or_nil, verify_evidence, verify_evds, verify_root}

abbrev is_ok {ℓ} : {E : Type 0} {A : Type ℓ} → Result E A → Bool
is_ok (ok a) = true
is_ok (err e) = false

-- The loop of `getEvidence`: evidence is taken off the pool until its size is that of a block, and kept
-- under its hash where the chain verifies it. What is left of the pool comes with it.
unfoldable pub take_evidence : (Evidence → Bool) → ℕ → ℕ → Map Evidence → Pool → Map Evidence × Pool
unfolding store Evidence.size
take_evidence verifies block_size size evds [] = (evds, [])
take_evidence verifies block_size size evds (x ∷ pool) =
    let e = x.evidence in
    let kept =
      take_evidence verifies block_size (size + Evidence.size e) (store e.hash e evds) pool in
    let skipped = take_evidence verifies block_size size evds pool in
    if ltb size block_size then (if verifies e then kept else skipped) else (evds, x ∷ pool)

-- The values of the map, in the order of their keys' first store.
abbrev values : Map Evidence → List Evidence
values [] = []
values ((k, e) ∷ m) = e ∷ values m

-- `order` is the order that the range over the map takes, which may be any.
unfoldable pub get_evidence :
    (List Evidence → List Evidence) → (Evidence → Bool) → ℕ → Pool → List Evidence × Pool
unfolding take_evidence
get_evidence order verifies block_size pool =
    let (evds, rest) = take_evidence verifies block_size 0 [] pool in (order (values evds), rest)

unfoldable pub gen_empty_block : ℤ → Bytes → Bytes → Block
gen_empty_block now miner last_hash = record {
  header = new_header now last_hash miner empty_evidence_root;
  evds = [];
}

unfoldable pub gen_block : (Bytes → Bytes) → ℤ → Bytes → List Evidence → Bytes → Block
unfolding gen_empty_block compute_root
gen_block hash now miner [] last_hash = gen_empty_block now miner last_hash
gen_block hash now miner (e ∷ es) last_hash =
    let root = root_or_nil (compute_root hash (map (Evidence.get_serialized_hash hash) (e ∷ es))) in
    record { header = new_header now last_hash miner root; evds = e ∷ es }

module _ (P : Evidence → Type 0) where
  All-Permᴰ : {xs ys : List Evidence} → Permᴰ xs ys → All P ys → All P xs
  All-Permᴰ Permᴰ.nil ps = ps
  All-Permᴰ (Permᴰ.cons e p) (q, ps) = (subst P (sym e) q, All-Permᴰ p ps)
  All-Permᴰ (Permᴰ.swap e f) (q, (r, ps)) = (subst P (sym e) r, (subst P (sym f) q, ps))
  All-Permᴰ (Permᴰ.trans p q) ps = All-Permᴰ p (All-Permᴰ q ps)

  values-All :
      (k : Bytes) (e : Evidence) (m : Map Evidence)
      → P e
      → All P (values m)
      → All P (values (store k e m))
  unfolding store
  values-All k e [] p ps = (p, ps)
  values-All k e ((j, x) ∷ m) p (q, ps) = elim (Bool-cases (equal j k)) [
    | inl same ↦ rw same (p, ps)
    | inr other ↦ rw other (q, values-All k e m p ps)
  ]

  take_evidence-All :
      (verifies : Evidence → Bool) (block_size size : ℕ) (evds : Map Evidence) (pool : Pool)
      → ((e : Evidence) → verifies e ≡ true → P e)
      → All P (values evds)
      → All P (values (take_evidence verifies block_size size evds pool).0)
  unfolding take_evidence
  take_evidence-All verifies block_size size evds [] f ps = ps
  take_evidence-All verifies block_size size evds (x ∷ pool) f ps =
      elim (Bool-cases (ltb size block_size)) [
        | inr full ↦ rw full ps
        | inl room ↦ elim (Bool-cases (verifies x.evidence)) [
          | inr bad ↦ rw (room, bad) (take_evidence-All verifies block_size size evds pool f ps)
          | inl good ↦
              rw (room, good)
                (take_evidence-All verifies block_size (size + Evidence.size x.evidence)
                  (store x.evidence.hash x.evidence evds) pool f
                  (values-All x.evidence.hash x.evidence evds (f x.evidence good) ps))
        ]
      ]

module _ (s : Setting) (has_evidence : Bytes → Bool) (b : Branch) where
  abbrev pub verifies : Evidence → Bool
  verifies e = is_ok (verify_evidence s has_evidence b e)

  verified : (e : Evidence) → verifies e ≡ true → verify_evidence s has_evidence b e ≡ ok tt
  verified e v = elim (Result-cases (verify_evidence s has_evidence b e)) [
    | inl (tt, r) ↦ r
    | inr (x, r) ↦ absurd (let no : false ≡ true = rw r at v in cc)
  ]

  verify_evds-All :
      (es : List Evidence)
      → All (λ e. verify_evidence s has_evidence b e ≡ ok tt) es
      → verify_evds s has_evidence b es ≡ ok tt
  unfolding verify_evds
  verify_evds-All [] vs = refl
  verify_evds-All (e ∷ es) (v, vs) = rw (v, verify_evds-All es vs)

  gen_block-root :
      (now : ℤ) (miner last_hash : Bytes) (es : List Evidence)
      → All (λ e. verify_evidence s has_evidence b e ≡ ok tt) es
      → verify_root s has_evidence b (gen_block s.hash now miner es last_hash) ≡ ok tt
  unfolding verify_root gen_block gen_empty_block equal
  gen_block-root now miner last_hash [] vs = refl
  gen_block-root now miner last_hash (e ∷ es) vs =
      let g = gen_block s.hash now miner (e ∷ es) last_hash in
      elim (Bool-cases (is_empty_evidence_root g.header)) [
        | inl empty ↦ rw empty
        | inr full ↦
            rw (full, verify_evds-All (e ∷ es) vs)
              (let same =
                  (equal_iff
                      (root_or_nil
                        (compute_root s.hash (map (Evidence.get_serialized_hash s.hash) (e ∷ es))))
                      _).1
                    refl in
                rw same)
      ]

  -- The block that the scheduler makes of any pool on a branch, in whatever order the range over the map
  -- of its evidence takes, passes the part of `verifyBlock` on that branch that checks the evidence and
  -- its Merkle root.
  pub gen_block-verify_root :
      (now : ℤ) (miner last_hash : Bytes) (order : List Evidence → List Evidence) (block_size : ℕ)
      (pool : Pool)
      → ((xs : List Evidence) → Permᴰ (order xs) xs)
      → verify_root s has_evidence b
          (gen_block s.hash now miner (get_evidence order verifies block_size pool).0 last_hash)
        ≡ ok tt
  unfolding get_evidence
  gen_block-verify_root now miner last_hash order block_size pool perm =
      let P = λ (e : Evidence). verify_evidence s has_evidence b e ≡ ok tt in
      gen_block-root now miner last_hash _
        (All-Permᴰ P (perm _) (take_evidence-All P verifies block_size 0 [] pool verified tt))
