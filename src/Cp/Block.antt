-- ===== src/Cp/Block.antt =====
-- serialize/cp/block.go: a header and its evidence. The pointers in a block are never nil after
-- `UnmarshalBlock` and `NewBlock`, and are taken as values, without the test for a nil header.
use blockchain.Common.{
  ◌≡◌, ◌↔◌, Bool, not, ◌&&◌, Bytes, List, [], ◌∷◌, ◌++◌, append-nil, length, ◌==◌, if◌then◌else◌,
  Result, ok, err, ◌>>◌, guard,
}
use blockchain.Wire.{IsBytes, Reader, ◌>>=◌, ret, put_list16, read_list16}
use blockchain.Wire.Reads.{Reads, Reads-bind, Reads-last, Reads-list16}
use blockchain.Wire.Parses.{
  Parses, Emits, accepts_exactly, IsList16, Parses-bind, Parses-ret, Parses-IsList16,
}
use blockchain.Cp.{
  Btcec, VerifyError, header_failed, evidence_failed, unexpected_evidence, missing_evidence,
}
use blockchain.Cp.Header
use blockchain.Cp.Header.{BlockHeader, is_empty_evidence_root}
use blockchain.Cp.Evidence
use blockchain.Cp.Evidence.{Evidence}

pub record Block : Type 0 where
  pub header : BlockHeader
  pub evds : List Evidence

unfoldable pub unmarshal : Reader Block
unmarshal = do
  header ← Header.unmarshal
  evds ← read_list16 Evidence.unmarshal
  ret (record { header = header; evds = evds })

unfoldable pub marshal : Block → Bytes
marshal b = Header.marshal b.header ++ put_list16 Evidence.marshal b.evds

-- `fmt.Errorf` around an error.
abbrev pub wrap :
    (VerifyError → VerifyError) → Result VerifyError (Unit {0}) → Result VerifyError (Unit {0})
wrap f (ok u) = ok u
wrap f (err e) = err (f e)

-- `for _, x := range xs { if err := x.Verify(); err != nil { return … } }`
unfoldable pub verify_each {ℓ} :
    {A : Type ℓ} → (A → Result VerifyError (Unit {0})) → List A → Result VerifyError (Unit {0})
verify_each check [] = ok tt
verify_each check (x ∷ xs) = check x >> verify_each check xs

unfoldable pub verify : (Bytes → Bytes) → Btcec → Block → Result VerifyError (Unit {0})
unfolding verify_each
verify hash ec b =
    wrap header_failed (Header.verify b.header)
    >> guard (not (is_empty_evidence_root b.header && not (length b.evds == 0))) unexpected_evidence
    >> guard (not (not (is_empty_evidence_root b.header) && length b.evds == 0)) missing_evidence
    >> verify_each (λ e. wrap evidence_failed (Evidence.verify hash ec e)) b.evds

-- ShallowCopy shares the header.
abbrev pub shallow_copy : Bool → Block → Block
shallow_copy only_header b = record { header = b.header; evds = if only_header then [] else b.evds }

pub record Fits (b : Block) : Type 0 where
  pub header_fits : Header.Fits b.header
  pub evds_fits : IsList16 Evidence.Fits b.evds

pub Reads-block : (b : Block) → Fits b → Reads unmarshal (marshal b) b
unfolding unmarshal marshal
Reads-block b f =
    Reads-bind _ (Header.Reads-header b.header f.header_fits)
      (Reads-last _ (Reads-list16 Evidence.Reads-evidence b.evds f.evds_fits.0 f.evds_fits.1))

pub Parses-block : Parses unmarshal (Emits marshal Fits)
unfolding unmarshal marshal
Parses-block = Parses-bind _ _ Header.Parses-header λ header header_fits.
    Parses-bind _ _ (Parses-IsList16 Evidence.Parses-evidence) λ evds evds_fits.
      Parses-ret (rw append-nil, record { header_fits = header_fits; evds_fits = evds_fits })

-- On any bytes, reading gives this block and leaves `rest` exactly when the bytes are those marshalled
-- for it, with `rest` behind them, and its fields and counts are within their widths.
pub unmarshal_block_iff :
    (src rest : Bytes) (b : Block)
    → IsBytes src
    → (unmarshal src ≡ ok (b, rest)) ↔ ((src ≡ marshal b ++ rest) × Fits b)
unmarshal_block_iff = accepts_exactly Reads-block Parses-block
