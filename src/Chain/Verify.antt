-- ===== src/Chain/Verify.antt =====
-- `verifyBlock` and `verifyEvidence` of core/blockchain/branch.go: a new block or evidence against
-- its branch, the database and the clock.
use blockchain.Common.{
  ℕ, ◌*◌, Bool, true, false, not, Option, some, none, Bytes, List, [], ◌∷◌, map, ltb, ◌==◌,
  if◌then◌else◌, equal, Result, ok, err, ◌>>=◌, ◌>>◌, guard,
}
use blockchain.Common.Int.{ℤ, pos, ltb_ℤ}
use blockchain.Cp.{Btcec, VerifyError}
use blockchain.Cp.Header
use blockchain.Cp.Header.{slice, is_empty_evidence_root}
use blockchain.Cp.Evidence
use blockchain.Cp.Evidence.{Evidence}
use blockchain.Cp.Block
use blockchain.Cp.Block.{Block}
use blockchain.Merkle.{compute_root}
use blockchain.Difficulty.{target_to_diff}
use blockchain.Chain.Blocks.{Heap, time}
use blockchain.Chain.Branch
use blockchain.Chain.Branch.{Branch, get_evidence}
use blockchain.Chain.Target.{Floats, MiningParams, second, unix, sub_time, next_block_target}

-- What the node works with and does not change: the hash, the signatures, the floats, the limits.
pub record Setting : Type 1 where
  pub hash : Bytes → Bytes
  pub ec : Btcec
  pub floats : Floats
  pub params : MiningParams

pub data BranchError : Type 0 where
  block_struct evidence_struct : VerifyError → BranchError
  future_time past_time mismatch_target mismatch_last_hash : BranchError
  block_pow evidence_pow already_exists mismatch_root : BranchError
  -- `logger.Fatal` in `nextBlockTarget`.
  fatal : BranchError

abbrev wrap :
    (VerifyError → BranchError) → Result VerifyError (Unit {0}) → Result BranchError (Unit {0})
wrap f (ok u) = ok u
wrap f (err e) = err (f e)

abbrev or_fatal : Option ℕ → Result BranchError ℕ
or_fatal none = err fatal
or_fatal (some n) = ok n

abbrev is_there {ℓ} : {A : Type ℓ} → Option A → Bool
is_there none = false
is_there (some a) = true

-- `powCheck`
unfoldable pub pow_check : ℕ → ℕ → Bool
pow_check limit pow = ltb pow limit

-- `root, _ := merkle.ComputeRoot(leafs)`: the error is dropped, and leaves a nil slice.
abbrev pub root_or_nil : Option Bytes → Bytes
root_or_nil none = []
root_or_nil (some root) = root

-- The evidence of the database is asked for by `has_evidence`.
module _ (s : Setting) (has_evidence : Bytes → Bool) where
  unfoldable pub verify_evidence : Branch → Evidence → Result BranchError (Unit {0})
  unfolding pow_check
  verify_evidence b e = do
    wrap evidence_struct (Evidence.verify s.hash s.ec e)
    guard (pow_check s.params.evidence_difficulty_limit (Evidence.get_pow s.hash e)) evidence_pow
    guard (not (is_there (get_evidence e.hash b))) already_exists
    guard (not (has_evidence e.hash)) already_exists

  -- The loop over the evidence of a block.
  unfoldable pub verify_evds : Branch → List Evidence → Result BranchError (Unit {0})
  verify_evds b [] = ok tt
  verify_evds b (e ∷ es) = verify_evidence b e >> verify_evds b es

  unfoldable pub verify_root : Branch → Block → Result BranchError (Unit {0})
  verify_root b cb =
      if is_empty_evidence_root cb.header
      then ok tt
      else verify_evds b cb.evds
        >> guard
            (equal
              (root_or_nil
                (compute_root s.hash (map (Evidence.get_serialized_hash s.hash) cb.evds)))
              (slice cb.header.evidence_root))
            mismatch_root

  -- The clock, `now`, in nanoseconds.
  unfoldable pub verify_block : ℤ → Heap → Branch → Block → Result BranchError (Unit {0})
  unfolding pow_check
  verify_block now h b cb = do
    wrap block_struct (Block.verify s.hash s.ec cb)
    guard (not (ltb_ℤ (pos (3 * second)) (sub_time (unix cb.header.time) now))) future_time
    guard (not (ltb_ℤ cb.header.time (time (h.node b.head)))) past_time
    expected ← or_fatal (next_block_target s.floats s.params b cb.header.time h)
    guard (cb.header.target == expected) mismatch_target
    guard (equal (Branch.hash b h) cb.header.last_hash) mismatch_last_hash
    guard (pow_check (target_to_diff expected) (Header.get_pow s.hash cb.header)) block_pow
    verify_root b cb
