-- ===== src/Storage/Block.antt =====
-- serialize/storage/block.go: a block as the database keeps it, the hashes of its evidence.
use blockchain.Common.{◌≡◌, ◌↔◌, Bytes, List, ◌++◌, append-nil, ok}
use blockchain.Wire.{IsBytes, Reader, ◌>>=◌, ret, put_slice8, read_slice8, put_list16, read_list16}
use blockchain.Wire.Reads.{Reads, Reads-last, Reads-slice8, Reads-list16}
use blockchain.Wire.Parses.{
  Parses, Emits, accepts_exactly, Below, IsList16, Parses-bind, Parses-ret, Parses-slice8,
  Parses-IsList16,
}

pub record StoredBlock : Type 0 where
  pub evds_hash : List Bytes

unfoldable pub unmarshal : Reader StoredBlock
unmarshal = do evds_hash ← read_list16 read_slice8; ret (record { evds_hash = evds_hash })

unfoldable pub marshal : StoredBlock → Bytes
marshal b = put_list16 put_slice8 b.evds_hash

pub record Fits (b : StoredBlock) : Type 0 where
  pub evds_hash_fits : IsList16 (Below 256) b.evds_hash

pub Reads-stored_block : (b : StoredBlock) → Fits b → Reads unmarshal (marshal b) b
unfolding unmarshal marshal
Reads-stored_block b f =
    Reads-last _
      (Reads-list16 (λ bs h. Reads-slice8 bs h.1) b.evds_hash f.evds_hash_fits.0 f.evds_hash_fits.1)

pub Parses-stored_block : Parses unmarshal (Emits marshal Fits)
unfolding unmarshal marshal
Parses-stored_block = Parses-bind _ _ (Parses-IsList16 Parses-slice8) λ evds_hash evds_hash_fits.
    Parses-ret (rw append-nil, record { evds_hash_fits = evds_hash_fits })

-- On any bytes, reading gives this block and leaves `rest` exactly when the bytes are
-- those marshalled for it, with `rest` behind them, and its fields are within their widths.
unmarshal_stored_block_iff :
    (src rest : Bytes) (b : StoredBlock)
    → IsBytes src
    → (unmarshal src ≡ ok (b, rest)) ↔ ((src ≡ marshal b ++ rest) × Fits b)
unmarshal_stored_block_iff = accepts_exactly Reads-stored_block Parses-stored_block
