-- ===== src/Cp/BlockResponse.antt =====
-- serialize/cp/block_response.go.
use blockchain.Common.{◌≡◌, ◌↔◌, Bytes, List, ◌++◌, append-nil, ◌==◌, Result, ok, ◌>>◌, guard}
use blockchain.Wire.{IsBytes, Reader, ◌>>=◌, ret, put_list16, read_list16}
use blockchain.Wire.Reads.{Reads, Reads-bind, Reads-last, Reads-list16}
use blockchain.Wire.Parses.{
  Parses, Emits, accepts_exactly, IsList16, Parses-bind, Parses-ret, Parses-IsList16,
}
use blockchain.Cp.{
  core_protocol_v1, Btcec, VerifyError, invalid_version, invalid_type, invalid_block,
  msg_block_response,
}
use blockchain.Cp.Head
use blockchain.Cp.Head.{Head, new_head}
use blockchain.Cp.Block
use blockchain.Cp.Block.{Block, wrap, verify_each}

pub record BlockResponse : Type 0 where
  pub head : Head
  pub blocks : List Block

unfoldable pub unmarshal : Reader BlockResponse
unmarshal = do
  head ← Head.unmarshal
  blocks ← read_list16 Block.unmarshal
  ret (record { head = head; blocks = blocks })

unfoldable pub marshal : BlockResponse → Bytes
marshal b = Head.marshal b.head ++ (put_list16 Block.marshal b.blocks)

abbrev pub new_block_response : List Block → BlockResponse
new_block_response blocks = record { head = new_head msg_block_response; blocks = blocks }

unfoldable pub verify : (Bytes → Bytes) → Btcec → BlockResponse → Result VerifyError (Unit {0})
verify hash ec b =
    guard (b.head.version == core_protocol_v1) invalid_version
    >> guard (b.head.type == msg_block_response) invalid_type
    >> verify_each (λ x. wrap invalid_block (Block.verify hash ec x)) b.blocks

pub record Fits (b : BlockResponse) : Type 0 where
  pub head_fits : Head.Fits b.head
  pub blocks_fits : IsList16 Block.Fits b.blocks

pub Reads-block_response : (b : BlockResponse) → Fits b → Reads unmarshal (marshal b) b
unfolding unmarshal marshal
Reads-block_response b f =
    Reads-bind _ (Head.Reads-head b.head f.head_fits)
      (Reads-last _ (Reads-list16 Block.Reads-block b.blocks f.blocks_fits.0 f.blocks_fits.1))

pub Parses-block_response : Parses unmarshal (Emits marshal Fits)
unfolding unmarshal marshal
Parses-block_response = Parses-bind _ _ (Head.Parses-head) λ head head_fits.
    Parses-bind _ _ (Parses-IsList16 Block.Parses-block) λ blocks blocks_fits.
      Parses-ret (rw append-nil, record { head_fits = head_fits; blocks_fits = blocks_fits })

-- On any bytes, reading gives this response and leaves `rest` exactly when the bytes are
-- those marshalled for it, with `rest` behind them, and its fields are within their widths.
pub unmarshal_block_response_iff :
    (src rest : Bytes) (b : BlockResponse)
    → IsBytes src
    → (unmarshal src ≡ ok (b, rest)) ↔ ((src ≡ marshal b ++ rest) × Fits b)
unmarshal_block_response_iff = accepts_exactly Reads-block_response Parses-block_response
